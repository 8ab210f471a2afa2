-- ===== src/Selftest/Isolation/Unmeasured.antt =====
-- The operations of test_encl.c on the unmeasured buffer keep to every policy at level 4.
use pandora_examples.Prelude.{
  ℕ, zero, suc, ◌+◌, ◌*◌, ◌≤◌, ◌<◌, ◌≡◌, inl, inr, arith, refl, ◌∙◌, le→leb, ltb, ltb→lt,
}
use pandora_examples.Prelude.Words.{add_size, u64_mod}
use pandora_examples.Machine.{
  Memory, Machine, load_word, store_word, interrupt, log, call, skip, bytes_at, ◌>>=◌, ◌>>◌,
}
use pandora_examples.Machine.Bytes.{bytes_at-congr, bytes_at-put_bytes, low_bytes_eight}
use pandora_examples.Machine.Hoare.{
  Keeps, Keeps-skip, Keeps-then, Keeps-bind, Keeps-if, Keeps-load_word, Keeps-store_word,
  Keeps-call,
}
use pandora_examples.Selftest.{
  Env, value_of, clear_unmeasured, do_encl_op_get_from_unmeasured, fill_unmeasured,
  sanitised_length, do_encl_op_call_unmeasured, do_encl_op_call_non_exec,
}
use pandora_examples.Selftest.Layout.{IsLayout, Respects, Outside}
use pandora_examples.Selftest.Isolation.{
  Clear, Policy, Follows, rules, Outside-field, Follows-checked,
}

module _ (e : Env) (p : Policy e) (before : Memory) (l : IsLayout e) (honest : Respects e) where
  -- The host cannot change a word of the enclave between the enclave's accesses.
  word_kept :
      (s : Machine) (a : ℕ)
      → e.enclave_start ≤ a
      → a + 8 ≤ e.enclave_end
      → bytes_at (interrupt e.host s).mem a 8 ≡ bytes_at s.mem a 8
  unfolding interrupt
  word_kept s a from to =
      bytes_at-congr 8 _ _ a (omega arith)
        λ b lo hi. honest s.time s.mem b (omega arith, omega arith)

  -- The word that the enclave stores in its memory is the one that it loads next.
  pub load-store_word :
      (s : Machine) (a v : ℕ)
      → e.enclave_start ≤ a
      → a + 8 ≤ e.enclave_end
      → v < u64_mod
      → (load_word e.host 8 a (store_word e.host 8 a v s).1).0 ≡ v
  unfolding load_word store_word log
  load-store_word s a v from to small =
      word_kept _ a from to ∙ bytes_at-put_bytes 8 _ a v (omega arith) ∙ low_bytes_eight v small

  unmeasured-Clear : Clear e e.unmeasured_encl_buffer 8
  unmeasured-Clear = inr (inr (omega arith))

  load-Follows : (a : ℕ) → Clear e a 8 → Keeps (Follows e p before) (load_word e.host 8 a)
  load-Follows a ok =
      Keeps-load_word e.host _ _ _ _ (rules e p before l honest) 8 a (p.on_clear a 8 ok)

  store-Follows : (a v : ℕ) → Clear e a 8 → Keeps (Follows e p before) (store_word e.host 8 a v)
  store-Follows a v ok = Keeps-store_word e.host _ _ _ _ (rules e p before l honest) 8 a v ok

  give_first :
      (op offset : ℕ)
      → Outside e op 24
      → offset ≡ 0
      → Keeps (Follows e p before) (
          load_word e.host 8 (add_size e.encl_buffer (8 * offset)) >>= λ v.
          store_word e.host 8 (value_of op) v)
  give_first op offset out zeroed =
      Keeps-bind _ _ _ (λ _. Unit {0})
        (λ s i. (load-Follows _ (inr (inl (rw zeroed (omega arith)))) s i, tt))
        λ v _.
          store-Follows _ v
            (inl (Outside-field e p before l honest op 24 8 8 out (omega arith) (omega arith)))

  -- At level 4 the offset is zero, so the word that the enclave gives away is the buffer's first.
  pub get_from_unmeasured-Follows :
      (op : ℕ)
      → op < u64_mod
      → 4 ≤ e.fix
      → Keeps (Follows e p before) (do_encl_op_get_from_unmeasured e op)
  unfolding do_encl_op_get_from_unmeasured clear_unmeasured ◌>>=◌ ◌>>◌
  get_from_unmeasured-Follows op in_range on =
      Follows-checked e p before l honest 2 op 24 _ (omega arith) in_range (omega arith)
        (omega arith)
        λ out s i. rw (le→leb 4 e.fix on) (
          give_first op _ out
            (load-store_word s e.unmeasured_encl_buffer 0 (omega arith) (omega arith) (omega arith))
            _ (load-Follows _ unmeasured-Clear _ (store-Follows _ 0 unmeasured-Clear s i)))

  pub fill_unmeasured-Follows :
      (len k i : ℕ)
      → len ≤ 20
      → i + k ≤ len
      → Keeps (Follows e p before) (fill_unmeasured e len k i)
  unfolding fill_unmeasured
  fill_unmeasured-Follows len zero i short fits = Keeps-skip _
  fill_unmeasured-Follows len (suc k) i short fits =
      Keeps-then _ _ _
        (Keeps-then _ _ _ (store i 0x90 (omega arith)) (store len 0xc3 (omega arith)))
        (fill_unmeasured-Follows len k (suc i) short (omega arith))
    where
      store :
          (j v : ℕ)
          → j ≤ 20
          → Keeps (Follows e p before) (store_word e.host 1 (add_size e.unmeasured_encl_buffer j) v)
      store j v le =
          Keeps-store_word e.host _ _ _ _ (rules e p before l honest) 1 _ v
            (inr (inr (omega arith)))

  pub call_unmeasured-Follows :
      4 ≤ e.fix → Keeps (Follows e p before) (do_encl_op_call_unmeasured e)
  unfolding do_encl_op_call_unmeasured sanitised_length
  call_unmeasured-Follows on = rw (le→leb 4 e.fix on) (
      Keeps-then _ _ _ (fill_unmeasured-Follows 20 20 0 (omega arith) (omega arith))
        (Keeps-call e.host _ _ _ _ (rules e p before l honest) _ (p.on_own _ (inr refl))))

  pub call_non_exec-Follows : 4 ≤ e.fix → Keeps (Follows e p before) (do_encl_op_call_non_exec e)
  unfolding do_encl_op_call_non_exec
  call_non_exec-Follows on =
      Keeps-if _ (ltb e.fix 4) (call e.host e.non_exec_data_buffer) skip
        (λ low. absurd (omega (arith, ltb→lt e.fix 4 low))) λ high. Keeps-skip _
