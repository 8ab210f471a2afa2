-- ===== src/Inclavare.antt =====
-- The skeleton enclave of inclavare: encl.c and its call numbers; arch.h is in the modules Arch and
-- Flags.
pub mod Arch
pub mod Layout
pub mod Sizes
pub mod Defines
pub mod Flags
pub mod Calls
mod Tests
use pandora_examples.Prelude.{
  ℕ, zero, suc, ◌+◌, ◌*◌, ◌-◌, ◌/◌, ◌%◌, ◌^◌, Option, none, some, List, [], ◌∷◌, ltb, if◌then◌else◌,
}
use pandora_examples.Machine.{Memory, Host, Machine, Cmd, ◌>>◌, skip}
use pandora_examples.Machine as Shared
use pandora_examples.Inclavare.Arch.{sgx_target_info_size, sgx_report_data_size, sgx_report_size}

-- struct metadata, and the metadata of the enclave
pub record Metadata : Type 0 where
  pub max_mmap_size : ℕ
  pub null_dereference_protection : ℕ
  pub mmap_min_addr : ℕ

abbrev pub metadata : Metadata
metadata = record { max_mmap_size = 0; null_dereference_protection = 0; mmap_min_addr = 0 }

-- ECALL_INIT, ECALL_REPORT and MAX_ECALLS
abbrev pub ecall_init : ℕ
ecall_init = 0

abbrev pub ecall_report : ℕ
ecall_report = 1

abbrev pub max_ecalls : ℕ
max_ecalls = 2

-- INIT_HELLO: the codes of "Hello Inclavare Containers!" and its zero
unfoldable pub init_hello : List ℕ
init_hello =
    72 ∷ 101 ∷ 108 ∷ 108 ∷ 111 ∷ 32 ∷ 73 ∷ 110 ∷ 99 ∷ 108 ∷ 97 ∷ 118 ∷ 97 ∷ 114 ∷ 101 ∷ 32 ∷ 67
    ∷ 111 ∷ 110 ∷ 116 ∷ 97 ∷ 105 ∷ 110 ∷ 101 ∷ 114 ∷ 115 ∷ 33 ∷ 0 ∷ []

-- `sizeof(INIT_HELLO)`
abbrev pub sizeof_init_hello : ℕ
sizeof_init_hello = 28

-- Where an enclave is loaded: the string, the locals of encl_get_report, the host that shares
-- its memory, and the processor's EREPORT with the operands in rbx, rcx and rdx.
pub record Env : Type 0 where
  pub host : Host
  pub hello : ℕ
  pub ti : ℕ
  pub rd : ℕ
  pub r : ℕ
  pub ereport : ℕ → ℕ → ℕ → Memory → Memory

abbrev pub return : ℕ → Cmd ℕ
return v s = (v, s)

unfoldable pub memcpy : Env → ℕ → ℕ → ℕ → Cmd (Unit {0})
memcpy e dest src n = Shared.memcpy e.host dest src n

unfoldable pub encl_init : Env → ℕ → Cmd ℕ
unfolding memcpy
encl_init e dst = memcpy e dst e.hello sizeof_init_hello >> return 0

-- The instruction, which the host's turns do not divide.
unfoldable pub enclu_ereport : Env → Cmd (Unit {0})
enclu_ereport e s = (tt, record s { mem = e.ereport e.ti e.rd e.r s.mem })

unfoldable pub encl_get_report : Env → ℕ → ℕ → ℕ → Cmd ℕ
unfolding memcpy enclu_ereport
encl_get_report e target_info report_data report = do
  memcpy e e.ti target_info sgx_target_info_size
  memcpy e e.rd report_data sgx_report_data_size
  enclu_ereport e
  memcpy e report e.r sgx_report_size
  return 0

-- Element `i` of enclave_call_table, called with three arguments, where the table has it.
unfoldable pub enclave_call_table : Env → ℕ → ℕ → ℕ → ℕ → Option (Cmd ℕ)
unfolding encl_init encl_get_report
enclave_call_table e i a0 a1 a2 =
    if ltb i ecall_report
    then some (encl_init e a0)
    else if ltb i max_ecalls
    then some (encl_get_report e a0 a1 a2)
    else none
