-- ===== src/Selftest/RegisterTests.antt =====
-- A run of the selftest enclave that puts 42 in the buffer and gets it, and its theorem.
use pandora_examples.Prelude.{refl, arith, List, [], ◌∷◌, ◌==◌, if◌then◌else◌}
use pandora_examples.Machine.{
  Memory, Host, ◌>>=◌, ◌>>◌, poke, bytes_at, put_bytes, interrupt, log, load_word, store_word,
  copy_byte, memcpy_loop, memcpy,
}
use pandora_examples.Selftest.{
  Env, op_of, sgx_is_outside_enclave, checked, do_encl_op_put_to_buf, run_op, call_op, encl_body,
}
use pandora_examples.Selftest.Buffer.{after}
use pandora_examples.Selftest.Register.{
  puts, gets, value_in, calls_put, calls_get, host_acts, silent, Label, Run, stops, steps, Register,
  Run-Register,
}

abbrev quiet : Host
quiet n mem = mem

abbrev enclave : Env
enclave = record {
  fix = 1;
  enclave_start = 0x10000;
  enclave_end = 0x20000;
  encl_buffer = 0x12000;
  unmeasured_encl_buffer = 0x15000;
  non_exec_data_buffer = 0x14000;
  do_encl_op_nop_address = 0x11000;
  host = quiet;
}

-- A put of 42 at 0x100 and a get at 0x200.
abbrev memory : Memory
memory a = if a == 0x108 then 42 else if a == 0x200 then 1 else 0

abbrev second : Memory
second = after enclave 0x100 memory

abbrev third : Memory
third = after enclave 0x200 second

abbrev labels : List Label
labels = puts (value_in memory 0x100) ∷ gets (value_in third 0x200) ∷ silent ∷ []

run : Run enclave memory labels
unfolding encl_body checked sgx_is_outside_enclave call_op run_op op_of do_encl_op_put_to_buf memcpy
    memcpy_loop copy_byte load_word store_word bytes_at put_bytes poke interrupt log ◌>>=◌ ◌>>◌
run = steps (calls_put 0x100 ((omega arith, λ b lo hi i. omega arith), refl) refl (λ j lt. refl)) (
    steps (calls_get 0x200 ((omega arith, λ b lo hi i. omega arith), refl) refl (λ j lt. refl))
      (steps {m' = third} (host_acts (λ b inside. refl)) stops))

Run-Register_example : Register (λ j. 0) labels
Run-Register_example =
    Run-Register enclave (omega arith) (λ n mem later. refl) labels memory (λ j. 0) run
      (λ j lt. ground arith)
