-- ===== src/Selftest/Isolation/Integrity.antt =====
-- From level 3 on the enclave of test_encl.c keeps its integrity: it may load what it should not,
-- and call code outside itself, but it stores nothing into itself but at its scratch areas.
use pandora_examples.Prelude.{ℕ, ◌≤◌, ◌<◌, inl, inr, arith, refl, ltb, leb, ◌==◌, []}
use pandora_examples.Prelude.Words.{u64_mod}
use pandora_examples.Machine.{Memory, Cmd, load_word, store_word, skip, call, memcpy}
use pandora_examples.Machine.Bytes.{load_word-lt}
use pandora_examples.Machine.Hoare.{
  Keeps, Gives, Keeps-skip, Keeps-then, Keeps-bind, Keeps-if, Keeps-load_word, Keeps-store_word,
  Keeps-call, Keeps-memcpy,
}
use pandora_examples.Selftest.{
  Env, EnclOpType, put_to_buffer, get_from_buffer, put_to_address, get_from_address,
  get_from_unmeasured, nop, call_address, call_unmeasured, call_non_exec, value_of, addr_of,
  checked, run_op, copy_from_addr, copy_from_addr_checked, copy_from_pointer,
  do_encl_op_get_from_addr, clear_unmeasured, do_encl_op_get_from_unmeasured, do_encl_op_call_addr,
  sanitised_length, do_encl_op_call_unmeasured, do_encl_op_call_non_exec, encl_body,
}
use pandora_examples.Selftest.Layout.{IsLayout, Respects, Outside}
use pandora_examples.Selftest.Isolation.{
  Clear, Follows, integrity, rules, Clear-byte, Outside-field, Follows-checked,
}
use pandora_examples.Selftest.Isolation.Dispatch.{encl_body-Follows}
use pandora_examples.Selftest.Isolation.Ops.{
  put_to_buf-Follows, get_from_buf-Follows, put_to_addr-Follows,
}
use pandora_examples.Selftest.Isolation.Unmeasured.{fill_unmeasured-Follows}

module _ (e : Env) (before : Memory) (l : IsLayout e) (honest : Respects e) (on : 3 ≤ e.fix)
    (op : ℕ) (in_range : op < u64_mod) where
  load-Intact :
      (a : ℕ) → Gives (Follows e (integrity e) before) (load_word e.host 8 a) (λ v. v < u64_mod)
  load-Intact a s i = (
    Keeps-load_word e.host _ _ _ _ (rules e (integrity e) before l honest) 8 a tt s i,
    load_word-lt e.host a s,
  )

  store-Intact :
      (n a v : ℕ) → Clear e a n → Keeps (Follows e (integrity e) before) (store_word e.host n a v)
  store-Intact n a v ok =
      Keeps-store_word e.host _ _ _ _ (rules e (integrity e) before l honest) n a v ok

  call-Intact :
      (a : ℕ) → (integrity e).CanCall a → Keeps (Follows e (integrity e) before) (call e.host a)
  call-Intact a ok = Keeps-call e.host _ _ _ _ (rules e (integrity e) before l honest) a ok

  value-Outside : (m : ℕ) → 16 ≤ m → Outside e op m → Outside e (value_of op) 8
  value-Outside m fits out =
      Outside-field e (integrity e) before l honest op m 8 8 out (omega arith) (omega arith)

  -- A copy to the request's value, from wherever.
  copy-Intact :
      (src : ℕ)
      → Outside e op 24
      → Keeps (Follows e (integrity e) before) (memcpy e.host (value_of op) src 8)
  copy-Intact src out =
      Keeps-memcpy e.host _ _ _ _ (rules e (integrity e) before l honest) (value_of op) src 8
        λ j lt. (
          tt,
          Clear-byte e (integrity e) before l honest (value_of op) 8 j
              (inl (value-Outside 24 (omega arith) out)) lt,
        )

  copy_from_addr-Intact :
      Outside e op 24 → Keeps (Follows e (integrity e) before) (copy_from_addr e op)
  unfolding copy_from_addr
  copy_from_addr-Intact out =
      Keeps-bind _ _ _ (λ v. v < u64_mod) (load-Intact (addr_of op))
        λ src small. copy-Intact src out

  checked-Intact :
      (level a n : ℕ) (rest : Cmd (Unit {0}))
      → Keeps (Follows e (integrity e) before) rest
      → Keeps (Follows e (integrity e) before) (checked e level a n rest)
  unfolding checked
  checked-Intact level a n rest k = Keeps-if _ _ skip rest (λ _. Keeps-skip _) λ _. k

  get_from_addr-Intact : Keeps (Follows e (integrity e) before) (do_encl_op_get_from_addr e op)
  unfolding do_encl_op_get_from_addr copy_from_pointer copy_from_addr_checked
  get_from_addr-Intact =
      Follows-checked e (integrity e) before l honest 2 op 24 _ (omega arith) in_range (omega arith)
        (omega arith)
        λ out.
          Keeps-if _ (leb 4 e.fix) _ _
            (λ _.
              Keeps-bind _ _ _ (λ v. v < u64_mod) (load-Intact (addr_of op))
                λ src small. checked-Intact 4 src 8 _ (copy-Intact src out))
            λ _.
              Keeps-if _ (e.fix == 3) _ _
                (λ _.
                  Keeps-bind _ _ _ (λ v. v < u64_mod) (load-Intact (addr_of op))
                    λ src small. checked-Intact 3 src 8 _ (copy_from_addr-Intact out))
                λ _. copy_from_addr-Intact out

  clear-Intact : Keeps (Follows e (integrity e) before) (clear_unmeasured e)
  unfolding clear_unmeasured
  clear-Intact =
      Keeps-if _ (leb 4 e.fix) _ _ (λ _. store-Intact 8 _ 0 (inr (inr (omega arith))))
        λ _.
          Keeps-if _ (leb 3 e.fix) _ skip (λ _. store-Intact 4 _ 1 (inr (inr (omega arith))))
            λ _. Keeps-skip _

  get_from_unmeasured-Intact :
      Keeps (Follows e (integrity e) before) (do_encl_op_get_from_unmeasured e op)
  unfolding do_encl_op_get_from_unmeasured
  get_from_unmeasured-Intact =
      Follows-checked e (integrity e) before l honest 2 op 24 _ (omega arith) in_range (omega arith)
        (omega arith)
        λ out. Keeps-then _ _ _ clear-Intact (
          Keeps-bind _ _ _ (λ v. v < u64_mod) (load-Intact _)
            λ offset _.
              Keeps-bind _ _ _ (λ v. v < u64_mod) (load-Intact _)
                λ v _. store-Intact 8 _ v (inl (value-Outside 24 (omega arith) out)))

  call_addr-Intact : Keeps (Follows e (integrity e) before) (do_encl_op_call_addr e op)
  unfolding do_encl_op_call_addr
  call_addr-Intact =
      Follows-checked e (integrity e) before l honest 2 op 16 _ (omega arith) in_range (omega arith)
        (omega arith)
        λ out.
          Keeps-bind _ _ _ (λ v. v < u64_mod) (load-Intact _)
            λ fun_ptr small.
              Keeps-if _ (leb 4 e.fix) _ _
                (λ _.
                  Keeps-if _ (fun_ptr == e.do_encl_op_nop_address) _ skip
                    (λ hit. call-Intact fun_ptr (inl (inl (ground arith)))) λ miss. Keeps-skip _)
                λ _.
                  Follows-checked e (integrity e) before l honest 3 fun_ptr 8 _ on small
                    (omega arith) (omega arith) λ far. call-Intact fun_ptr (inr (inr far))

  call_unmeasured-Intact : Keeps (Follows e (integrity e) before) (do_encl_op_call_unmeasured e)
  unfolding do_encl_op_call_unmeasured sanitised_length
  call_unmeasured-Intact =
      Keeps-then _ _ _
        (fill_unmeasured-Follows e (integrity e) before l honest (sanitised_length e)
          (sanitised_length e) 0 (ground arith) (omega arith))
        (call-Intact _ (inl (inr refl)))

  call_non_exec-Intact : Keeps (Follows e (integrity e) before) (do_encl_op_call_non_exec e)
  unfolding do_encl_op_call_non_exec
  call_non_exec-Intact =
      Keeps-if _ (ltb e.fix 4) _ skip (λ _. call-Intact _ (inr (inl refl))) λ _. Keeps-skip _

  run_op-Intact : (t : EnclOpType) → Keeps (Follows e (integrity e) before) (run_op e t op)
  unfolding run_op
  run_op-Intact put_to_buffer =
      put_to_buf-Follows e (integrity e) before l honest op in_range (omega arith)
  run_op-Intact get_from_buffer =
      get_from_buf-Follows e (integrity e) before l honest op in_range (omega arith)
  run_op-Intact put_to_address = put_to_addr-Follows e (integrity e) before l honest op in_range on
  run_op-Intact get_from_address = get_from_addr-Intact
  run_op-Intact get_from_unmeasured = get_from_unmeasured-Intact
  run_op-Intact nop = Keeps-skip _
  run_op-Intact call_address = call_addr-Intact
  run_op-Intact call_unmeasured = call_unmeasured-Intact
  run_op-Intact call_non_exec = call_non_exec-Intact

-- From level 3 on the enclave keeps its integrity, whatever the request and with a host that may
-- change everything outside the enclave at any time: each store stays outside the enclave or in the
-- two scratch areas, all other enclave memory is as it was, none of its calls goes through the
-- table out of its bounds, and each goes to its nop operation, the unmeasured buffer, the buffer of
-- data, or outside the enclave. Loads are not restricted.
pub encl_body-intact :
    (e : Env) (mem : Memory) (rdi : ℕ)
    → IsLayout e
    → Respects e
    → 3 ≤ e.fix
    → rdi < u64_mod
    → Follows e (integrity e) mem (encl_body e rdi (record { mem = mem; time = 0; trace = [] })).1
encl_body-intact e mem rdi l honest on in_range =
    encl_body-Follows e (integrity e) mem l honest (omega arith) rdi in_range
      (run_op-Intact e mem l honest on rdi in_range) _
      (record { confined = tt; kept = λ b _ _. refl })
