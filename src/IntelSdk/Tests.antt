-- ===== src/IntelSdk/Tests.antt =====
-- Runs of the Intel SDK example, and its theorems at a concrete system.
use pandora_examples.Prelude.{
  true, ℕ, ◌+◌, ◌≡◌, ◌≢◌, refl, sym, ap, ◌∙◌, arith, false, List, [], ◌∷◌, ◌++◌, get_or,
}
use pandora_examples.Machine.{Host}
use pandora_examples.IntelSdk.{
  SgxError, unexpected, invalid_parameter, out_of_memory, enclave_lost, invalid_enclave,
  invalid_enclave_id, invalid_signature, out_of_epc, no_device, memory_map_conflict,
  invalid_metadata, device_busy, invalid_version, invalid_attribute, enclave_file_access,
  ndebug_enclave, SgxErrlist, error, prompt, Sdk, lines_of, main,
}
use pandora_examples.IntelSdk.Enclave.{ecall_vulnerable, ecall_null_vulnerable, ecalls-peek}
use pandora_examples.IntelSdk.Messages.{Listed, Distinct, main_lem}

code : SgxError → ℕ
code unexpected = 1
code invalid_parameter = 2
code out_of_memory = 3
code enclave_lost = 4
code invalid_enclave = 5
code invalid_enclave_id = 6
code invalid_signature = 7
code out_of_epc = 8
code no_device = 9
code memory_map_conflict = 10
code invalid_metadata = 11
code device_busy = 12
code invalid_version = 13
code invalid_attribute = 14
code enclave_file_access = 15
code ndebug_enclave = 16

errors : List SgxError
errors =
    unexpected ∷ invalid_parameter ∷ out_of_memory ∷ enclave_lost ∷ invalid_enclave
    ∷ invalid_enclave_id ∷ invalid_signature ∷ out_of_epc ∷ no_device ∷ memory_map_conflict
    ∷ invalid_metadata ∷ device_busy ∷ invalid_version ∷ invalid_attribute ∷ enclave_file_access
    ∷ ndebug_enclave ∷ []

of_code : (x : SgxError) → get_or (unexpected ∷ errors) (code x) unexpected ≡ x
unfolding code errors
of_code unexpected = refl
of_code invalid_parameter = refl
of_code out_of_memory = refl
of_code enclave_lost = refl
of_code invalid_enclave = refl
of_code invalid_enclave_id = refl
of_code invalid_signature = refl
of_code out_of_epc = refl
of_code no_device = refl
of_code memory_map_conflict = refl
of_code invalid_metadata = refl
of_code device_busy = refl
of_code invalid_version = refl
of_code invalid_attribute = refl
of_code enclave_file_access = refl
of_code ndebug_enclave = refl

-- A system that is the list of its calls, each a number with the identifier added, which starts with the status of the creation to come.
abbrev system : Sdk (List ℕ)
system = record {
  sgx_success = 0;
  code = code;
  create_enclave = λ w. (get_or w 0 0, 7, w);
  ecall_vulnerable = λ eid w. (1000 + eid) ∷ w;
  ecall_null_vulnerable = λ eid w. (2000 + eid) ∷ w;
  destroy_enclave = λ eid w. (3000 + eid) ∷ w;
}

system-Distinct : Distinct system
system-Distinct x y same =
    sym (of_code x) ∙ ap (λ c. get_or (unexpected ∷ errors) c unexpected) same ∙ of_code y

unlisted : (y : SgxError) → 99 ≢ code y
unfolding code
unlisted unexpected = λ same. omega arith
unlisted invalid_parameter = λ same. omega arith
unlisted out_of_memory = λ same. omega arith
unlisted enclave_lost = λ same. omega arith
unlisted invalid_enclave = λ same. omega arith
unlisted invalid_enclave_id = λ same. omega arith
unlisted invalid_signature = λ same. omega arith
unlisted out_of_epc = λ same. omega arith
unlisted no_device = λ same. omega arith
unlisted memory_map_conflict = λ same. omega arith
unlisted invalid_metadata = λ same. omega arith
unlisted device_busy = λ same. omega arith
unlisted invalid_version = λ same. omega arith
unlisted invalid_attribute = λ same. omega arith
unlisted enclave_file_access = λ same. omega arith
unlisted ndebug_enclave = λ same. omega arith

-- Creations that end with success, with the code of no_device, and with 99.
main_lem_example :
    (((main system (0 ∷ [])).0 ≡ true) × ((main system (0 ∷ [])).2 ≡ 3007 ∷ 2007 ∷ 1007 ∷ 0 ∷ []))
    × ((e : SgxErrlist) × Listed no_device e
        × ((main system (9 ∷ [])).0 ≡ false)
        × ((main system (9 ∷ [])).1 ≡ lines_of e ++ prompt ∷ [])
        × ((main system (9 ∷ [])).2 ≡ 9 ∷ []))
    × (((main system (99 ∷ [])).0 ≡ false)
        × ((main system (99 ∷ [])).1 ≡ error "Unexpected error occurred." ∷ prompt ∷ [])
        × ((main system (99 ∷ [])).2 ≡ 99 ∷ []))
unfolding code
main_lem_example =
    main_lem system (0 ∷ []) (9 ∷ []) (99 ∷ []) no_device system-Distinct (λ same. omega arith) refl
      refl (λ same. omega arith) unlisted

abbrev quiet : Host
quiet n mem = mem

-- The byte at address 0.
ecalls-peek_runs :
    ((ecall_vulnerable quiet 0 (record { mem = λ a. a + 5; time = 0; trace = [] })).0 ≡ 5)
    × ((ecall_null_vulnerable quiet 0 (record { mem = λ a. a + 5; time = 0; trace = [] })).0 ≡ 5)
    × ((ecall_vulnerable quiet 0 (record { mem = λ a. a + 5; time = 0; trace = [] })).1.mem
        ≡ (λ a. a + 5))
    × ((ecall_null_vulnerable quiet 0 (record { mem = λ a. a + 5; time = 0; trace = [] })).1.mem
        ≡ (λ a. a + 5))
ecalls-peek_runs =
    ecalls-peek quiet 0 (record { mem = λ a. a + 5; time = 0; trace = [] }) (λ n mem later. refl)
