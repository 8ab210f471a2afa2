-- ===== src/Selftest/Tests.antt =====
-- Runs of the enclave of pandora-sgx-selftest/test_encl.c, and its theorems at concrete inputs.
use pandora_examples.Prelude.{
  ℕ, ◌+◌, ◌≤◌, ◌<◌, ◌≡◌, ◌↔◌, refl, true, some, List, ◌∷◌, All, arith, ltb, ◌==◌, if◌then◌else◌,
}
use pandora_examples.Machine.{
  Memory, peek, Host, Event, exec, wild, ◌>>=◌, ◌>>◌, poke, bytes_at, put_bytes, interrupt, log,
  load_word, store_word, copy_byte, memcpy_loop, memcpy,
}
use pandora_examples.Selftest.{
  Env, op_of, sgx_is_outside_enclave, checked, do_encl_op_put_to_buf, do_encl_op_put_to_addr,
  do_encl_op_call_unmeasured, run_op, call_op, encl_body,
}
use pandora_examples.Selftest.Layout.{IsLayout, Respects, BytesOutside, sgx_is_outside_enclave_iff}
use pandora_examples.Selftest.Isolation.{Follows, isolation, integrity}
use pandora_examples.Selftest.Isolation.Integrity.{encl_body-intact}
use pandora_examples.Selftest.Isolation.Table.{InTable, encl_body-InTable}
use pandora_examples.Selftest.Isolation.Body.{encl_body-confined}
use pandora_examples.Selftest.Buffer.{entered, after, IsRequest, put-get}
use pandora_examples.Selftest.Code.{call_unmeasured-runs_nops}
use pandora_examples.Selftest.Attacks.{with_host, last_event, double_fetch_escapes, toctou_leaks}

abbrev quiet : Host
quiet n mem = mem

-- A host that keeps writing below the enclave.
abbrev busy : Host
busy n mem b = if ltb b 0x10000 then mem b + n else mem b

abbrev enclave_at : ℕ → Host → Env
enclave_at fix h = record {
  fix = fix;
  enclave_start = 0x10000;
  enclave_end = 0x20000;
  encl_buffer = 0x12000;
  unmeasured_encl_buffer = 0x15000;
  non_exec_data_buffer = 0x14000;
  do_encl_op_nop_address = 0x11000;
  host = h;
}

enclave_at-IsLayout : (fix : ℕ) (h : Host) → IsLayout (enclave_at fix h)
enclave_at-IsLayout fix h = omega arith

busy-Respects : (fix : ℕ) → Respects (enclave_at fix busy)
busy-Respects fix n mem b inside = ground arith

quiet-Respects : (fix : ℕ) → Respects (enclave_at fix quiet)
quiet-Respects fix n mem b inside = refl

-- A request at 0x100 of type ENCL_OP_PUT_TO_BUFFER with the value 42, one at 0x200 of type
-- ENCL_OP_GET_FROM_BUFFER, and one at 0x300 of type ENCL_OP_PUT_TO_ADDRESS with an address inside
-- the enclave; the word at 0x13000 is the enclave's secret.
abbrev memory : Memory
memory a =
    if a == 0x108
    then 42
    else if a == 0x200
    then 1
    else if a == 0x300
    then 2
    else if a == 0x311
    then 0x30
    else if a == 0x312
    then 0x01
    else if a == 0x13000
    then 77
    else 0

put_runs : after (enclave_at 4 quiet) 0x100 memory 0x12000 ≡ 42
unfolding encl_body checked sgx_is_outside_enclave call_op run_op op_of do_encl_op_put_to_buf memcpy
    memcpy_loop copy_byte load_word store_word bytes_at put_bytes poke interrupt log ◌>>=◌ ◌>>◌
put_runs = refl

-- The write into the enclave is refused at level 3, and made at level 2.
put_to_addr_runs :
    (after (enclave_at 3 quiet) 0x300 memory 0x13000 ≡ 77)
    × (after (enclave_at 2 quiet) 0x300 memory 0x13000 ≡ 0)
unfolding encl_body checked sgx_is_outside_enclave call_op run_op op_of do_encl_op_put_to_addr
    memcpy memcpy_loop copy_byte load_word store_word bytes_at put_bytes poke interrupt log ◌>>=◌
    ◌>>◌
put_to_addr_runs = (refl, refl)

encl_body-confined_example :
    Follows
      (enclave_at 4 busy)
      (isolation (enclave_at 4 busy))
      memory
      (encl_body (enclave_at 4 busy) 0x300 (entered memory)).1
encl_body-confined_example =
    encl_body-confined (enclave_at 4 busy) memory 0x300 (enclave_at-IsLayout 4 busy)
      (busy-Respects 4) (omega arith) (omega arith)

encl_body-intact_example :
    Follows
      (enclave_at 3 busy)
      (integrity (enclave_at 3 busy))
      memory
      (encl_body (enclave_at 3 busy) 0x300 (entered memory)).1
encl_body-intact_example =
    encl_body-intact (enclave_at 3 busy) memory 0x300 (enclave_at-IsLayout 3 busy) (busy-Respects 3)
      (omega arith) (omega arith)

encl_body-InTable_example :
    All InTable (encl_body (enclave_at 2 busy) 0x300 (entered memory)).1.trace
encl_body-InTable_example =
    encl_body-InTable (enclave_at 2 busy) memory 0x300 (busy-Respects 2) (omega arith)

sgx_is_outside_enclave_iff_example :
    (sgx_is_outside_enclave (enclave_at 4 quiet) 0xFFF8 8 ≡ true)
    ↔ BytesOutside (enclave_at 4 quiet) 0xFFF8 8
sgx_is_outside_enclave_iff_example =
    sgx_is_outside_enclave_iff (enclave_at 4 quiet) 0xFFF8 8 (enclave_at-IsLayout 4 quiet)
      (omega arith) (omega arith) (omega arith)

is_request :
    (op type : ℕ)
    → op + 16 ≤ 0x10000
    → bytes_at memory op 8 ≡ type
    → IsRequest (enclave_at 1 quiet) memory op type
is_request op type low is = ((omega arith, λ b lo hi i. omega arith), is)

put-get_example :
    peek
      (after (enclave_at 1 quiet) 0x200 (after (enclave_at 1 quiet) 0x100 memory))
      (0x200 + 8 + 0)
    ≡ peek memory (0x100 + 8 + 0)
unfolding bytes_at
put-get_example =
    put-get (enclave_at 1 quiet) memory 0x100 0x200 (enclave_at-IsLayout 1 quiet)
      (λ n mem later. refl) (is_request 0x100 0 (omega arith) refl)
      (is_request 0x200 1 (omega arith) refl) 0 (omega arith)

call_unmeasured-runs_nops_example :
    let s' = (do_encl_op_call_unmeasured (enclave_at 3 busy) (entered memory)).1 in
    ((t : List Event) × (s'.trace ≡ exec 0x15000 ∷ t))
    × ((j : ℕ) → j < 10 → peek s'.mem (0x15000 + j) ≡ 0x90)
    × (peek s'.mem (0x15000 + 10) ≡ 0xc3)
call_unmeasured-runs_nops_example =
    call_unmeasured-runs_nops (enclave_at 3 busy) (entered memory) (enclave_at-IsLayout 3 busy)
      (busy-Respects 3) (omega arith)

double_fetch_escapes_example :
    (h : Host) × Respects (with_host (enclave_at 1 quiet) h)
    × (last_event (encl_body (with_host (enclave_at 1 quiet) h) 0x100) (entered memory)
        ≡ some (wild 100))
double_fetch_escapes_example =
    double_fetch_escapes (enclave_at 1 quiet) memory 0x100 100 (enclave_at-IsLayout 1 quiet)
      (omega arith) (omega arith, λ b lo hi i. omega arith) (omega arith) (omega arith)

toctou_leaks_example :
    (h : Host) × Respects (with_host (enclave_at 3 quiet) h)
    × ((j : ℕ)
        → j < 8
        → (encl_body (with_host (enclave_at 3 quiet) h) 0x300 (entered memory)).1.mem
            (0x300 + 8 + j)
          ≡ peek memory (0x13000 + j))
toctou_leaks_example =
    toctou_leaks (enclave_at 3 quiet) memory 0x300 0x13000 (enclave_at-IsLayout 3 quiet) refl
      (omega arith, λ b lo hi i. omega arith) (omega arith) (omega arith)
