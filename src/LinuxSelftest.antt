-- ===== src/LinuxSelftest.antt =====
-- The enclave of linux-sgx-selftest/test_encl.c, with the structures of linux-sgx-selftest/defines.h.
-- It runs where an enclave of the other self-test runs, on the same Env.
pub mod Unchecked
mod Tests
use pandora_examples.Prelude.{ℕ, ◌+◌, Bool, ltb, ◌==◌, if◌then◌else◌}
use pandora_examples.Machine.{Machine, Cmd, ◌>>=◌, skip, wild, interrupt, log, load_word, memcpy}
use pandora_examples.Selftest.{Env, value_of, addr_of}

-- enum encl_op_type, in the source's order
pub data EnclOpType : Type 0 where
  put_to_buffer get_from_buffer put_to_address get_from_address nop : EnclOpType

-- `encl_op_array[i]`, for `i` below ENCL_OP_MAX
unfoldable pub op_of : ℕ → EnclOpType
op_of i =
    if i == 0
    then put_to_buffer
    else if i == 1
    then get_from_buffer
    else if i == 2
    then put_to_address
    else if i == 3
    then get_from_address
    else nop

abbrev pub encl_op_max : ℕ
encl_op_max = 5

module _ (e : Env) where
  open e use {encl_buffer, host}

  unfoldable pub do_encl_op_put_to_buf : ℕ → Cmd (Unit {0})
  do_encl_op_put_to_buf op = memcpy host encl_buffer (value_of op) 8

  unfoldable pub do_encl_op_get_from_buf : ℕ → Cmd (Unit {0})
  do_encl_op_get_from_buf op = memcpy host (value_of op) encl_buffer 8

  unfoldable pub do_encl_op_put_to_addr : ℕ → Cmd (Unit {0})
  do_encl_op_put_to_addr op = do
    addr ← load_word host 8 (addr_of op)
    memcpy host addr (value_of op) 8

  unfoldable pub do_encl_op_get_from_addr : ℕ → Cmd (Unit {0})
  do_encl_op_get_from_addr op = do
    addr ← load_word host 8 (addr_of op)
    memcpy host (value_of op) addr 8

  unfoldable pub run_op : EnclOpType → ℕ → Cmd (Unit {0})
  run_op put_to_buffer op = do_encl_op_put_to_buf op
  run_op get_from_buffer op = do_encl_op_get_from_buf op
  run_op put_to_address op = do_encl_op_put_to_addr op
  run_op get_from_address op = do_encl_op_get_from_addr op
  run_op nop op = skip

  -- `(*encl_op_array[i])(op)`
  unfoldable pub call_op : ℕ → ℕ → Cmd (Unit {0})
  call_op i op s =
      if ltb i encl_op_max then run_op (op_of i) op s else (tt, log (wild i) (interrupt host s))

  -- `op->type` is loaded for the check, and again for the call.
  unfoldable pub encl_body : ℕ → Cmd (Unit {0})
  encl_body rdi = do
    op_type ← load_word host 8 rdi
    if ltb op_type encl_op_max then (do i ← load_word host 8 rdi; call_op i rdi) else skip
