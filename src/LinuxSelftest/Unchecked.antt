-- ===== src/LinuxSelftest/Unchecked.antt =====
-- The enclave of linux-sgx-selftest/test_encl.c against that of pandora-sgx-selftest/test_encl.c
-- without sanitisation.
use pandora_examples.Prelude.{zero, suc, ◌<◌, lt→ltb, ℕ, ◌≡◌, refl, ap, ◌∙◌, arith, false, leb}
use pandora_examples.Machine.{Machine, ◌>>=◌, load_word}
use pandora_examples.Selftest.{
  Env, value_of, addr_of, sizeof_addr_op, sgx_is_outside_enclave, checked, copy_from_pointer,
  copy_from_addr, copy_from_addr_checked,
}
use pandora_examples.Selftest as Pandora
use pandora_examples.LinuxSelftest.{
  EnclOpType, put_to_buffer, get_from_buffer, put_to_address, get_from_address, nop,
}
use pandora_examples.LinuxSelftest as Linux

-- The operation of the same name.
pub counterpart : EnclOpType → Pandora.EnclOpType
counterpart put_to_buffer = Pandora.put_to_buffer
counterpart get_from_buffer = Pandora.get_from_buffer
counterpart put_to_address = Pandora.put_to_address
counterpart get_from_address = Pandora.get_from_address
counterpart nop = Pandora.nop

run_op-counterpart :
    (e : Env) (o : EnclOpType) (op : ℕ) (s : Machine)
    → e.fix ≡ 0
    → Linux.run_op e o op s ≡ Pandora.run_op e (counterpart o) op s
unfolding Linux.run_op Linux.do_encl_op_put_to_buf Linux.do_encl_op_get_from_buf
    Linux.do_encl_op_put_to_addr Linux.do_encl_op_get_from_addr Pandora.run_op
    Pandora.do_encl_op_put_to_buf Pandora.do_encl_op_get_from_buf Pandora.do_encl_op_put_to_addr
    Pandora.do_encl_op_get_from_addr Pandora.copy_from_addr checked counterpart ◌>>=◌
run_op-counterpart e put_to_buffer op s off = rw off
run_op-counterpart e get_from_buffer op s off = rw off
run_op-counterpart e put_to_address op s off = rw off
run_op-counterpart e get_from_address op s off = rw off
run_op-counterpart e nop op s off = refl

op_of-counterpart : (i : ℕ) → i < 4 → counterpart (Linux.op_of i) ≡ Pandora.op_of i
unfolding Linux.op_of Pandora.op_of counterpart
op_of-counterpart zero lt = refl
op_of-counterpart (suc zero) lt = refl
op_of-counterpart (suc (suc zero)) lt = refl
op_of-counterpart (suc (suc (suc zero))) lt = refl
op_of-counterpart (suc (suc (suc (suc i)))) lt = absurd (omega (arith, lt))

call_op-counterpart :
    (e : Env) (i op : ℕ) (s : Machine)
    → e.fix ≡ 0
    → i < 4
    → Linux.call_op e i op s ≡ Pandora.call_op e i op s
unfolding Linux.call_op Pandora.call_op
call_op-counterpart e i op s off lt =
    rw (lt→ltb i 5 (omega (arith, lt)), lt→ltb i 9 (omega (arith, lt)))
      (run_op-counterpart e (Linux.op_of i) op s off
        ∙ ap (λ o. Pandora.run_op e o op s) (op_of-counterpart i lt))

-- Without sanitisation both enclaves do the same with a request for one of the operations that have
-- the same number in both, putting to and getting from the buffer or an address: where both loads
-- of the type see such a number, they do the same accesses, in the same order, and leave the same
-- memory, with every host.
pub encl_body-counterpart :
    (e : Env) (rdi : ℕ) (s : Machine)
    → e.fix ≡ 0
    → (load_word e.host 8 rdi s).0 < 4
    → (load_word e.host 8 rdi (load_word e.host 8 rdi s).1).0 < 4
    → Linux.encl_body e rdi s ≡ Pandora.encl_body e rdi s
unfolding Linux.encl_body Pandora.encl_body checked ◌>>=◌
encl_body-counterpart e rdi s off first second =
    let level1 : leb 1 e.fix ≡ false = ground arith in
    let level2 : leb 2 e.fix ≡ false = ground arith in
    rw
      (
        level1,
        level2,
        lt→ltb (load_word e.host 8 rdi s).0 5 (omega (arith, first)),
        lt→ltb (load_word e.host 8 rdi s).0 9 (omega (arith, first)),
      )
      (call_op-counterpart e (load_word e.host 8 rdi (load_word e.host 8 rdi s).1).0 rdi _ off
        second)
