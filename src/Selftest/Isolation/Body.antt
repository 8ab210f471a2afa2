-- ===== src/Selftest/Isolation/Body.antt =====
-- The entry point of test_encl.c keeps the enclave isolated at level 4.
use pandora_examples.Prelude.{ℕ, ◌≤◌, ◌<◌, arith, refl, []}
use pandora_examples.Prelude.Words.{u64_mod}
use pandora_examples.Machine.{Memory}
use pandora_examples.Machine.Hoare.{Keeps, Keeps-skip}
use pandora_examples.Selftest.{
  Env, EnclOpType, put_to_buffer, get_from_buffer, put_to_address, get_from_address,
  get_from_unmeasured, nop, call_address, call_unmeasured, call_non_exec, run_op, encl_body,
}
use pandora_examples.Selftest.Layout.{IsLayout, Respects}
use pandora_examples.Selftest.Isolation.{Follows, isolation}
use pandora_examples.Selftest.Isolation.Dispatch.{encl_body-Follows}
use pandora_examples.Selftest.Isolation.Ops.{
  put_to_buf-Follows, get_from_buf-Follows, put_to_addr-Follows, get_from_addr-Follows,
  call_addr-Follows,
}
use pandora_examples.Selftest.Isolation.Unmeasured.{
  get_from_unmeasured-Follows, call_unmeasured-Follows, call_non_exec-Follows,
}

module _ (e : Env) (before : Memory) (l : IsLayout e) (honest : Respects e) (on : 4 ≤ e.fix)
    (op : ℕ) (in_range : op < u64_mod) where
  run_op-Follows : (t : EnclOpType) → Keeps (Follows e (isolation e) before) (run_op e t op)
  unfolding run_op
  run_op-Follows put_to_buffer =
      put_to_buf-Follows e (isolation e) before l honest op in_range (omega arith)
  run_op-Follows get_from_buffer =
      get_from_buf-Follows e (isolation e) before l honest op in_range (omega arith)
  run_op-Follows put_to_address =
      put_to_addr-Follows e (isolation e) before l honest op in_range (omega arith)
  run_op-Follows get_from_address =
      get_from_addr-Follows e (isolation e) before l honest op in_range on
  run_op-Follows get_from_unmeasured =
      get_from_unmeasured-Follows e (isolation e) before l honest op in_range on
  run_op-Follows nop = Keeps-skip _
  run_op-Follows call_address = call_addr-Follows e (isolation e) before l honest op in_range on
  run_op-Follows call_unmeasured = call_unmeasured-Follows e (isolation e) before l honest on
  run_op-Follows call_non_exec = call_non_exec-Follows e (isolation e) before l honest on

-- Sanitised in full, the enclave is safe to enter: from any memory, with any request, and with a
-- host that may change everything outside the enclave at any time, each load and store that
-- `encl_body` makes stays outside the enclave or in the two scratch areas, each call goes to the
-- enclave's own nop operation or to the unmeasured buffer, none goes through the table out of its
-- bounds, and all other enclave memory is as it was.
pub encl_body-confined :
    (e : Env) (mem : Memory) (rdi : ℕ)
    → IsLayout e
    → Respects e
    → 4 ≤ e.fix
    → rdi < u64_mod
    → Follows e (isolation e) mem (encl_body e rdi (record { mem = mem; time = 0; trace = [] })).1
encl_body-confined e mem rdi l honest on in_range =
    encl_body-Follows e (isolation e) mem l honest (omega arith) rdi in_range
      (run_op-Follows e mem l honest on rdi in_range) _
      (record { confined = tt; kept = λ b _ _. refl })
