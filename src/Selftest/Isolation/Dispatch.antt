-- ===== src/Selftest/Isolation/Dispatch.antt =====
-- The entry point of test_encl.c keeps to a policy that each of its operations keeps to.
use pandora_examples.Prelude.{ℕ, ◌≤◌, ◌<◌, inl, arith, le→leb, lt→ltb, ltb→lt, leb, if◌then◌else◌}
use pandora_examples.Prelude.Words.{u64_mod}
use pandora_examples.Machine.{Memory, Cmd}
use pandora_examples.Machine.Bytes.{load_word-lt}
use pandora_examples.Machine.Hoare.{Keeps, Keeps-skip, Keeps-bind, Keeps-if, Keeps-load_word}
use pandora_examples.Selftest.{Env, EnclOpType, run_op, call_op, op_of, encl_body, encl_op_max}
use pandora_examples.Selftest.Layout.{IsLayout, Respects}
use pandora_examples.Selftest.Isolation.{Policy, Follows, rules, Follows-checked}

module _ (e : Env) (p : Policy e) (before : Memory) (l : IsLayout e) (honest : Respects e)
    (on : 2 ≤ e.fix) (op : ℕ) (in_range : op < u64_mod)
    (run : (t : EnclOpType) → Keeps (Follows e p before) (run_op e t op)) where
  call_op-Follows : (i : ℕ) → i < encl_op_max → Keeps (Follows e p before) (call_op e i op)
  unfolding call_op
  call_op-Follows i lt s inv = rw (lt→ltb i encl_op_max lt) (run (op_of i) s inv)

  once-Follows :
      (t : ℕ) (twice : Cmd (Unit {0}))
      → t < encl_op_max
      → Keeps (Follows e p before) (if leb 2 e.fix then call_op e t op else twice)
  once-Follows t twice lt = rw (le→leb 2 e.fix (omega arith)) (call_op-Follows t lt)

  pub encl_body-Follows : Keeps (Follows e p before) (encl_body e op)
  unfolding encl_body
  encl_body-Follows =
      Follows-checked e p before l honest 1 op 8 _ (omega arith) in_range (omega arith)
        (omega arith)
        λ out.
          Keeps-bind _ _ _ (λ v. v < u64_mod)
            (λ s i. (
              Keeps-load_word e.host _ _ _ _ (rules e p before l honest) 8 op
                  (p.on_clear op 8 (inl out)) s i,
              load_word-lt e.host op s,
            ))
            λ t small.
              Keeps-if _ _ _ _ (λ known. once-Follows t _ (ltb→lt t encl_op_max known))
                λ unknown. Keeps-skip _
