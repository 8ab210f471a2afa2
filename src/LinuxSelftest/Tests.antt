-- ===== src/LinuxSelftest/Tests.antt =====
-- Runs of the enclave of linux-sgx-selftest/test_encl.c, and its theorem at a concrete input.
use pandora_examples.Prelude.{[], ◌≡◌, refl, arith, ◌==◌, if◌then◌else◌}
use pandora_examples.Machine.{
  Memory, Machine, peek, ◌>>=◌, ◌>>◌, poke, bytes_at, put_bytes, interrupt, log, load_word,
  store_word, copy_byte, memcpy_loop, memcpy,
}
use pandora_examples.Selftest.{Env}
use pandora_examples.Selftest as Pandora
use pandora_examples.LinuxSelftest.{op_of, do_encl_op_put_to_addr, run_op, call_op, encl_body}
use pandora_examples.LinuxSelftest.Unchecked.{encl_body-counterpart}

abbrev unsanitised : Env
unsanitised = record {
  fix = 0;
  enclave_start = 0x10000;
  enclave_end = 0x20000;
  encl_buffer = 0x12000;
  unmeasured_encl_buffer = 0x15000;
  non_exec_data_buffer = 0x14000;
  do_encl_op_nop_address = 0x11000;
  host = λ n mem. mem;
}

-- A request at 0x100 to put 7 to the address 0x12345.
abbrev request : Memory
request a =
    if a == 0x100
    then 2
    else if a == 0x108
    then 7
    else if a == 0x110
    then 0x45
    else if a == 0x111
    then 0x23
    else if a == 0x112
    then 1
    else 0

abbrev before : Machine
before = record { mem = request; time = 0; trace = [] }

-- The request writes inside the enclave.
writes_inside : peek (encl_body unsanitised 0x100 before).1.mem 0x12345 ≡ 7
unfolding encl_body call_op run_op op_of do_encl_op_put_to_addr memcpy memcpy_loop copy_byte
    load_word store_word put_bytes bytes_at poke interrupt log ◌>>=◌ ◌>>◌
writes_inside = refl

loads_put : (load_word unsanitised.host 8 0x100 before).0 ≡ 2
unfolding load_word bytes_at interrupt log
loads_put = refl

loads_put_again :
    (load_word unsanitised.host 8 0x100 (load_word unsanitised.host 8 0x100 before).1).0 ≡ 2
unfolding load_word bytes_at interrupt log
loads_put_again = refl

encl_body-counterpart_example :
    encl_body unsanitised 0x100 before ≡ Pandora.encl_body unsanitised 0x100 before
encl_body-counterpart_example =
    encl_body-counterpart unsanitised 0x100 before refl (omega (arith, loads_put))
      (omega (arith, loads_put_again))
