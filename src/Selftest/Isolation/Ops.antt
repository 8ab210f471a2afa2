-- ===== src/Selftest/Isolation/Ops.antt =====
-- Each operation of test_encl.c keeps to every policy, from the sanitisation level on at which its
-- own checks are complete.
use pandora_examples.Prelude.{ℕ, ◌≤◌, ◌<◌, ◌≡◌, ◌⊎◌, inl, inr, arith, ◌==◌, le→leb}
use pandora_examples.Prelude.Words.{u64_mod}
use pandora_examples.Machine.{Memory, load_word, skip, call}
use pandora_examples.Machine.Bytes.{load_word-lt}
use pandora_examples.Machine.Hoare.{
  Keeps, Gives, Keeps-skip, Keeps-bind, Keeps-if, Keeps-load_word, Keeps-call,
}
use pandora_examples.Selftest.{
  Env, do_encl_op_put_to_buf, do_encl_op_get_from_buf, do_encl_op_put_to_addr, copy_from_pointer,
  do_encl_op_get_from_addr, do_encl_op_call_addr,
}
use pandora_examples.Selftest.Layout.{IsLayout, Respects}
use pandora_examples.Selftest.Isolation.{
  Clear, Policy, Follows, rules, Outside-field, Follows-memcpy, Follows-checked,
}

module _ (e : Env) (p : Policy e) (before : Memory) (l : IsLayout e) (honest : Respects e) (op : ℕ)
    (in_range : op < u64_mod) where
  buffer-Clear : Clear e e.encl_buffer 8
  buffer-Clear = inr (inl (omega arith))

  -- A load of a word outside the enclave keeps the invariant, and gives a 64-bit number.
  load_word-Follows :
      (a : ℕ) → Clear e a 8 → Gives (Follows e p before) (load_word e.host 8 a) (λ v. v < u64_mod)
  load_word-Follows a ok s i = (
    Keeps-load_word e.host _ _ _ _ (rules e p before l honest) 8 a (p.on_clear a 8 ok) s i,
    load_word-lt e.host a s,
  )

  call-Follows :
      (a : ℕ)
      → (a ≡ e.do_encl_op_nop_address) ⊎ (a ≡ e.unmeasured_encl_buffer)
      → Keeps (Follows e p before) (call e.host a)
  call-Follows a own = Keeps-call e.host _ _ _ _ (rules e p before l honest) a (p.on_own a own)

  pub put_to_buf-Follows : 2 ≤ e.fix → Keeps (Follows e p before) (do_encl_op_put_to_buf e op)
  unfolding do_encl_op_put_to_buf
  put_to_buf-Follows on =
      Follows-checked e p before l honest 2 op 16 _ on in_range (omega arith) (omega arith) λ out.
        Follows-memcpy e p before l honest _ _ 8 buffer-Clear
          (inl (Outside-field e p before l honest op 16 8 8 out (omega arith) (omega arith)))

  pub get_from_buf-Follows : 2 ≤ e.fix → Keeps (Follows e p before) (do_encl_op_get_from_buf e op)
  unfolding do_encl_op_get_from_buf
  get_from_buf-Follows on =
      Follows-checked e p before l honest 2 op 16 _ on in_range (omega arith) (omega arith) λ out.
        Follows-memcpy e p before l honest _ _ 8
          (inl (Outside-field e p before l honest op 16 8 8 out (omega arith) (omega arith)))
          buffer-Clear

  pub put_to_addr-Follows : 3 ≤ e.fix → Keeps (Follows e p before) (do_encl_op_put_to_addr e op)
  unfolding do_encl_op_put_to_addr
  put_to_addr-Follows on =
      Follows-checked e p before l honest 2 op 24 _ (omega arith) in_range (omega arith)
        (omega arith)
        λ out.
          Keeps-bind _ _ _ (λ v. v < u64_mod)
            (load_word-Follows _
              (inl (Outside-field e p before l honest op 24 16 8 out (omega arith) (omega arith))))
            λ ptr small.
              Follows-checked e p before l honest 3 ptr 8 _ on small (omega arith) (omega arith)
                λ far. Follows-memcpy e p before l honest _ _ 8 (inl far) (
                  inl (Outside-field e p before l honest op 24 8 8 out (omega arith) (omega arith)))

  pub get_from_addr-Follows : 4 ≤ e.fix → Keeps (Follows e p before) (do_encl_op_get_from_addr e op)
  unfolding do_encl_op_get_from_addr copy_from_pointer
  get_from_addr-Follows on =
      Follows-checked e p before l honest 2 op 24 _ (omega arith) in_range (omega arith)
        (omega arith)
        λ out. rw (le→leb 4 e.fix on) (
          Keeps-bind _ _ _ (λ v. v < u64_mod)
            (load_word-Follows _
              (inl (Outside-field e p before l honest op 24 16 8 out (omega arith) (omega arith))))
            λ ptr small.
              Follows-checked e p before l honest 4 ptr 8 _ on small (omega arith) (omega arith)
                λ far.
                  Follows-memcpy e p before l honest _ _ 8
                    (inl
                      (Outside-field e p before l honest op 24 8 8 out (omega arith) (omega arith)))
                    (inl far))

  pub call_addr-Follows : 4 ≤ e.fix → Keeps (Follows e p before) (do_encl_op_call_addr e op)
  unfolding do_encl_op_call_addr
  call_addr-Follows on =
      Follows-checked e p before l honest 2 op 16 _ (omega arith) in_range (omega arith)
        (omega arith)
        λ out.
          Keeps-bind _ _ _ (λ v. v < u64_mod)
            (load_word-Follows _
              (inl (Outside-field e p before l honest op 16 8 8 out (omega arith) (omega arith))))
            λ fun_ptr small. rw (le→leb 4 e.fix on) (
              Keeps-if _ (fun_ptr == e.do_encl_op_nop_address) (call e.host fun_ptr) skip
                (λ hit. call-Follows fun_ptr (inl (ground arith))) λ miss. Keeps-skip _)
