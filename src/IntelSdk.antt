-- ===== src/IntelSdk.antt =====
-- The example for the Intel SDK: intel-sdk/App/App.cpp; its enclave is the module Enclave. What the
-- SDK gives, the status codes, the calls of the untrusted run-time system and the proxies generated
-- from Enclave.edl, is a parameter; the program's output is a list of lines.
pub mod Messages
pub mod Enclave
mod Tests
use Prim.Native.String.{String}
use pandora_examples.Prelude.{
  ℕ, ◌+◌, ◌*◌, Bool, true, false, not, Option, none, some, List, [], ◌∷◌, ◌++◌, ◌==◌, if◌then◌else◌,
}

-- The status codes that the program names.
pub data SgxError : Type 0 where
  unexpected : SgxError
  invalid_parameter : SgxError
  out_of_memory : SgxError
  enclave_lost : SgxError
  invalid_enclave : SgxError
  invalid_enclave_id : SgxError
  invalid_signature : SgxError
  out_of_epc : SgxError
  no_device : SgxError
  memory_map_conflict : SgxError
  invalid_metadata : SgxError
  device_busy : SgxError
  invalid_version : SgxError
  invalid_attribute : SgxError
  enclave_file_access : SgxError
  ndebug_enclave : SgxError

-- sgx_errlist_t, with no suggestion for NULL
pub record SgxErrlist : Type 0 where
  pub err : SgxError
  pub msg : String
  pub sug : Option String

-- sgx_errlist
unfoldable pub sgx_errlist : List SgxErrlist
sgx_errlist =
    record { err = unexpected; msg = "Unexpected error occurred."; sug = none }
    ∷ record { err = invalid_parameter; msg = "Invalid parameter."; sug = none }
    ∷ record { err = out_of_memory; msg = "Out of memory."; sug = none }
    ∷ record {
      err = enclave_lost;
      msg = "Power transition occurred.";
      sug = some "Please refer to the sample \"PowerTransition\" for details.";
    }
    ∷ record { err = invalid_enclave; msg = "Invalid enclave image."; sug = none }
    ∷ record { err = invalid_enclave_id; msg = "Invalid enclave identification."; sug = none }
    ∷ record { err = invalid_signature; msg = "Invalid enclave signature."; sug = none }
    ∷ record { err = out_of_epc; msg = "Out of EPC memory."; sug = none }
    ∷ record {
      err = no_device;
      msg = "Invalid SGX device.";
      sug =
          some
            "Please make sure SGX module is enabled in the BIOS, and install SGX driver afterwards.";
    }
    ∷ record { err = memory_map_conflict; msg = "Memory map conflicted."; sug = none }
    ∷ record { err = invalid_metadata; msg = "Invalid enclave metadata."; sug = none }
    ∷ record { err = device_busy; msg = "SGX device was busy."; sug = none }
    ∷ record { err = invalid_version; msg = "Enclave version was invalid."; sug = none }
    ∷ record { err = invalid_attribute; msg = "Enclave was not authorized."; sug = none }
    ∷ record { err = enclave_file_access; msg = "Can't open enclave file."; sug = none }
    ∷ record {
      err = ndebug_enclave;
      msg =
          "The enclave is signed as product enclave, and can not be created as debuggable enclave.";
      sug = none;
    }
    ∷ []

-- A line that the program prints: `Info: ` or `Error: ` and a text, the prompt before it exits.
pub data Line : Type 0 where
  info : String → Line
  error : String → Line
  prompt : Line

-- What the SDK gives: the codes, the creation of an enclave in some state of the system, with the
-- status and the identifier it stores, the calls through the generated proxies, and its destruction.
pub record Sdk (World : Type 0) : Type 0 where
  pub sgx_success : ℕ
  pub code : SgxError → ℕ
  pub create_enclave : World → ℕ × ℕ × World
  pub ecall_vulnerable : ℕ → World → World
  pub ecall_null_vulnerable : ℕ → World → World
  pub destroy_enclave : ℕ → World → World

-- The lines for an entry of the table.
unfoldable pub lines_of : SgxErrlist → List Line
lines_of e = elim e.sug [ none ↦ error e.msg ∷ [] | some s ↦ info s ∷ error e.msg ∷ [] ]

-- ocall_print_string, which adds to what was printed.
unfoldable pub ocall_print_string : String → List String → List String
ocall_print_string str printed = str ∷ printed

module _ {World : Type 0} (sdk : Sdk World) where
  -- The search of print_error_message in what is left of the table.
  unfoldable pub print_from : ℕ → List SgxErrlist → List Line
  unfolding lines_of
  print_from ret [] = error "Unexpected error occurred." ∷ []
  print_from ret (e ∷ es) = if ret == sdk.code e.err then lines_of e else print_from ret es

  unfoldable pub print_error_message : ℕ → List Line
  unfolding print_from sgx_errlist
  print_error_message ret = print_from ret sgx_errlist

  -- initialize_enclave: whether it returns 0, what it prints, `global_eid` after it, and the system.
  unfoldable pub initialize_enclave : World → Bool × List Line × ℕ × World
  unfolding print_error_message
  initialize_enclave w =
      let r = sdk.create_enclave w in
      if r.0 == sdk.sgx_success
      then (true, [], r.1, r.2)
      else (false, print_error_message r.0, r.1, r.2)

  -- main: whether it returns 0, what it prints, and the system after it.
  unfoldable pub main : World → Bool × List Line × World
  unfolding initialize_enclave
  main w =
      let r = initialize_enclave w in
      let eid = r.2 in
      let called = sdk.ecall_null_vulnerable eid (sdk.ecall_vulnerable eid r.3) in
      if r.0
      then (
        true,
        info "Simple pointer vulnerability demo successfully returned." ∷ [],
        sdk.destroy_enclave eid called,
      )
      else (false, r.1 ++ prompt ∷ [], r.3)
