-- ===== src/Selftest.antt =====
-- The enclave of pandora-sgx-selftest/test_encl.c at each of its sanitisation levels, with the
-- structures of pandora-sgx-selftest/defines.h. A pointer is an address; the fields of a request
-- are read where their structure has them.
pub mod Attacks
pub mod Buffer
pub mod Register
pub mod Code
pub mod Isolation
pub mod Layout
pub mod Small
mod Tests
mod RegisterTests
use pandora_examples.Prelude.{
  ℕ, zero, suc, ◌+◌, ◌-◌, ◌*◌, ◌^◌, Bool, true, false, not, ◌&&◌, ◌||◌, ltb, leb, ◌==◌,
  if◌then◌else◌,
}
use pandora_examples.Prelude.Words.{add_size, sub_size}
use pandora_examples.Machine.{
  Machine, Host, Event, wild, Cmd, ◌>>=◌, ◌>>◌, skip, interrupt, log, load_word, store_word, call,
  memcpy,
}

-- What the build and the loader choose: the macro FIX_SANITIZATION, the addresses of the linker
-- script's symbols and of the enclave's objects; and the host that the enclave runs beside.
pub record Env : Type 0 where
  pub fix : ℕ
  pub enclave_start : ℕ
  pub enclave_end : ℕ
  pub encl_buffer : ℕ
  pub unmeasured_encl_buffer : ℕ
  pub non_exec_data_buffer : ℕ
  pub do_encl_op_nop_address : ℕ
  pub host : Host

-- enum encl_op_type, in the source's order
pub data EnclOpType : Type 0 where
  put_to_buffer get_from_buffer put_to_address get_from_address : EnclOpType
  get_from_unmeasured nop call_address call_unmeasured call_non_exec : EnclOpType

-- `encl_op_array[i]`, for `i` below ENCL_OP_MAX
unfoldable pub op_of : ℕ → EnclOpType
op_of i =
    if i == 0
    then put_to_buffer
    else if i == 1
    then get_from_buffer
    else if i == 2
    then put_to_address
    else if i == 3
    then get_from_address
    else if i == 4
    then get_from_unmeasured
    else if i == 5
    then nop
    else if i == 6
    then call_address
    else if i == 7
    then call_unmeasured
    else call_non_exec

abbrev pub encl_op_max : ℕ
encl_op_max = 9

-- sizeof(struct encl_op_header), and of the requests
abbrev pub sizeof_header : ℕ
sizeof_header = 8

abbrev pub sizeof_value_op : ℕ
sizeof_value_op = 16

abbrev pub sizeof_addr_op : ℕ
sizeof_addr_op = 24

abbrev pub sizeof_call_op : ℕ
sizeof_call_op = 16

-- `&op->value` and `&op->addr` of the requests that carry both, `&op->addr` of encl_op_call_addr
abbrev pub value_of : ℕ → ℕ
value_of op = add_size op 8

abbrev pub addr_of : ℕ → ℕ
addr_of op = add_size op 16

abbrev pub call_addr_of : ℕ → ℕ
call_addr_of op = add_size op 8

-- True where the source returns 1.
pub sgx_is_outside_enclave : Env → ℕ → ℕ → Bool
sgx_is_outside_enclave e addr size =
    let start = addr in
    let enclave_start = e.enclave_start in
    let enclave_end = sub_size e.enclave_end 1 in
    let end = if ltb 0 size then sub_size (add_size start size) 1 else start in
    leb start end && (ltb end enclave_start || ltb enclave_end start)

module _ (e : Env) where
  open e use {
    fix, encl_buffer, unmeasured_encl_buffer, non_exec_data_buffer, do_encl_op_nop_address, host,
  }

  -- `#if FIX_SANITIZATION >= level ... if (!sgx_is_outside_enclave(p, n)) return; ... #endif`, with
  -- the rest of the function.
  unfoldable pub checked : ℕ → ℕ → ℕ → Cmd (Unit {0}) → Cmd (Unit {0})
  checked level p n rest =
      if leb level fix && not (sgx_is_outside_enclave e p n) then skip else rest

  unfoldable pub do_encl_op_put_to_buf : ℕ → Cmd (Unit {0})
  do_encl_op_put_to_buf op = checked 2 op sizeof_value_op (memcpy host encl_buffer (value_of op) 8)

  unfoldable pub do_encl_op_get_from_buf : ℕ → Cmd (Unit {0})
  do_encl_op_get_from_buf op =
      checked 2 op sizeof_value_op (memcpy host (value_of op) encl_buffer 8)

  unfoldable pub do_encl_op_put_to_addr : ℕ → Cmd (Unit {0})
  do_encl_op_put_to_addr op =
      checked 2 op sizeof_addr_op
        (do ptr ← load_word host 8 (addr_of op); checked 3 ptr 8 (memcpy host ptr (value_of op) 8))

  -- The bodies of do_encl_op_get_from_addr behind its first check: at level 4 and above, at level
  -- 3, whose check and copy each load `op->addr`, and below.
  pub copy_from_pointer : ℕ → Cmd (Unit {0})
  copy_from_pointer op = do
    ptr ← load_word host 8 (addr_of op)
    checked 4 ptr 8 (memcpy host (value_of op) ptr 8)

  unfoldable pub copy_from_addr : ℕ → Cmd (Unit {0})
  copy_from_addr op = do addr ← load_word host 8 (addr_of op); memcpy host (value_of op) addr 8

  pub copy_from_addr_checked : ℕ → Cmd (Unit {0})
  copy_from_addr_checked op = do
    addr ← load_word host 8 (addr_of op)
    checked 3 addr 8 (copy_from_addr op)

  unfoldable pub do_encl_op_get_from_addr : ℕ → Cmd (Unit {0})
  do_encl_op_get_from_addr op = checked 2 op sizeof_addr_op (
      if leb 4 fix
      then copy_from_pointer op
      else if fix == 3
      then copy_from_addr_checked op
      else copy_from_addr op)

  -- The store that sanitises the first word of the unmeasured buffer.
  pub clear_unmeasured : Cmd (Unit {0})
  clear_unmeasured =
      if leb 4 fix
      then store_word host 8 unmeasured_encl_buffer 0
      else if leb 3 fix
      then store_word host 4 unmeasured_encl_buffer 1
      else skip

  -- `op->value = src[offset]`, for `uint64_t *src = (uint64_t *)&encl_buffer[0]`. The request is
  -- taken for a struct encl_op_get_from_addr.
  pub do_encl_op_get_from_unmeasured : ℕ → Cmd (Unit {0})
  do_encl_op_get_from_unmeasured op = checked 2 op sizeof_addr_op (do
    clear_unmeasured
    offset ← load_word host 8 unmeasured_encl_buffer
    v ← load_word host 8 (add_size encl_buffer (8 * offset))
    store_word host 8 (value_of op) v)

  pub do_encl_op_call_addr : ℕ → Cmd (Unit {0})
  do_encl_op_call_addr op = checked 2 op sizeof_call_op (do
    fun_ptr ← load_word host 8 (call_addr_of op)
    if leb 4 fix
        then (if fun_ptr == do_encl_op_nop_address then call host fun_ptr else skip)
        else checked 3 fun_ptr 8 (call host fun_ptr))

  -- The loop of do_encl_op_call_unmeasured, with `k` rounds to go at index `i`.
  pub fill_unmeasured : ℕ → ℕ → ℕ → Cmd (Unit {0})
  fill_unmeasured len zero i = skip
  fill_unmeasured len (suc k) i =
      store_word host 1 (add_size unmeasured_encl_buffer i) 0x90
      >> store_word host 1 (add_size unmeasured_encl_buffer len) 0xc3
      >> fill_unmeasured len k (suc i)

  pub sanitised_length : ℕ
  sanitised_length = if leb 4 fix then 20 else if leb 2 fix then 10 else 0

  pub do_encl_op_call_unmeasured : Cmd (Unit {0})
  do_encl_op_call_unmeasured =
      fill_unmeasured sanitised_length sanitised_length 0 >> call host unmeasured_encl_buffer

  pub do_encl_op_call_non_exec : Cmd (Unit {0})
  do_encl_op_call_non_exec = if ltb fix 4 then call host non_exec_data_buffer else skip

  unfoldable pub run_op : EnclOpType → ℕ → Cmd (Unit {0})
  run_op put_to_buffer op = do_encl_op_put_to_buf op
  run_op get_from_buffer op = do_encl_op_get_from_buf op
  run_op put_to_address op = do_encl_op_put_to_addr op
  run_op get_from_address op = do_encl_op_get_from_addr op
  run_op get_from_unmeasured op = do_encl_op_get_from_unmeasured op
  run_op nop op = skip
  run_op call_address op = do_encl_op_call_addr op
  run_op call_unmeasured op = do_encl_op_call_unmeasured
  run_op call_non_exec op = do_encl_op_call_non_exec

  -- `(*encl_op_array[i])(op)`
  unfoldable pub call_op : ℕ → ℕ → Cmd (Unit {0})
  call_op i op s =
      if ltb i encl_op_max then run_op (op_of i) op s else (tt, log (wild i) (interrupt host s))

  -- From level 2 on `op->type` is loaded once; below, `op_type` is a macro that loads it at each
  -- use. The value is kept outside of memory, though in C it is a volatile local on the enclave's
  -- stack.
  unfoldable pub encl_body : ℕ → Cmd (Unit {0})
  encl_body rdi = checked 1 rdi sizeof_header (do
    op_type ← load_word host 8 rdi
    if ltb op_type encl_op_max
        then (if leb 2 fix
            then call_op op_type rdi
            else (do i ← load_word host 8 rdi; call_op i rdi))
        else skip)
