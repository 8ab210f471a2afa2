-- ===== src/Sancus/Mains.antt =====
-- The main functions of sancus/full_encl and sancus/t2w, which run unprotected, and the entry points
-- of the enclaves that do nothing else than print. What they call of the Sancus library acts on the
-- state of the system; a message is an effect.
use pandora_examples.Prelude.{
  ℕ, ◌-◌, ◌≡◌, refl, ◌^◌, Bool, Option, none, some, List, [], ◌∷◌, ◌++◌, leb, ◌==◌, if◌then◌else◌,
}
use pandora_examples.Sancus.{fib, fibonacci}
use pandora_examples.Sancus.Arithmetic as Arithmetic
use pandora_examples.Sancus.Buffer.{Module, copy_vulnerable, copy_fixed, copy_short}
use pandora_examples.Sancus.PrivateData as PrivateData

-- The Sancus library on the state of the system: sancus_enable and sancus_disable of the enclave,
-- sancus_get_id of its entry point, and sancus_get_self_id.
pub record Library (S : Type 0) : Type 0 where
  pub sancus_enable : S → S
  pub sancus_disable : S → S
  pub sancus_get_id : S → ℕ
  pub sancus_get_self_id : S → ℕ

-- What is printed.
pub data Line : Type 0 where
  hello_enclave_line enabling_foo entering_foo enabling_enclave enabling_protections : Line
  exit_stub all_done : Line
  sm_info untrusted_id trusted_id foo_result enclave_returned : ℕ → Line
  number_line : PrivateData.Text → Line

-- How a program ends: main returns, or EXIT or FINISH stop the simulation, or an assertion fails,
-- or a loop does not end within the rounds that it is given.
pub data End : Type 0 where
  returned : ℕ → End
  stopped : End
  assertion_failed : End
  no_return : End

-- What was printed, how the program ended, and in which state.
pub record Outcome (S : Type 0) : Type 0 where
  pub lines : List Line
  pub end : End
  pub state : S

module _ (S : Type 0) (library : Library S) where
  open library use {sancus_enable, sancus_disable, sancus_get_id, sancus_get_self_id}

  -- sancus-minimal: the result of plus_one(1)
  pub minimal_main : S → Outcome S
  minimal_main s =
      let s1 = sancus_enable s in
      let enclave_result = Arithmetic.plus_one 1 in
      record { lines = []; end = returned enclave_result; state = s1 }

  -- foo_c_fct of sancus-minimal_v1.0.0
  abbrev pub foo_c_fct : ℕ → ℕ
  foo_c_fct a = a

  pub foo_main : S → Outcome S
  foo_main s =
      let s1 = sancus_enable s in
      let res = foo_c_fct 1 in
      record {
        lines =
            enabling_foo
            ∷ sm_info (sancus_get_id s1)
            ∷ entering_foo
            ∷ foo_result res
            ∷ all_done
            ∷ [];
        end = stopped;
        state = s1;
      }

  -- sancus-minimal_3entries
  pub entries_main : S → Outcome S
  entries_main s = record {
    lines = [];
    end = returned Arithmetic.entries_result;
    state = sancus_enable s;
  }

  -- The message of basic_function.
  pub basic_function_lines : ℕ → List Line
  basic_function_lines arg = if leb (2 ^ 15) arg then exit_stub ∷ [] else []

  -- simple_encl_sanc, whose three versions have the same source: basic_function(-5), then
  -- basic_function(10)
  pub simple_main : S → Outcome S
  simple_main s =
      let s1 = sancus_enable s in
      record {
        lines =
            (enabling_enclave ∷ sm_info (sancus_get_id s1) ∷ [])
            ++ (basic_function_lines (2 ^ 16 - 5) ++ (basic_function_lines 10 ++ all_done ∷ []));
        end = stopped;
        state = s1;
      }

  abbrev pub simple_main_v1 : S → Outcome S
  simple_main_v1 s = simple_main s

  abbrev pub simple_main_v2_1 : S → Outcome S
  simple_main_v2_1 s = simple_main s

  -- t2w_1_improper_r7_sanitization, and the fixed one, whose source is the same
  pub r7_main : S → Outcome S
  r7_main s =
      let s1 = sancus_enable s in
      let t = Arithmetic.enter_encl in
      record { lines = enclave_returned t ∷ []; end = returned 0; state = s1 }

  abbrev pub r7_fixed_main : S → Outcome S
  r7_fixed_main s = r7_main s

  -- hello-world-basic-sancus
  abbrev pub hello_enclave : List Line
  hello_enclave = hello_enclave_line ∷ []

  pub exit_success : List Line → S → Outcome S
  exit_success lines s = record {
    lines = lines;
    end = if sancus_get_id s == 0 then stopped else assertion_failed;
    state = s;
  }

  -- The continuation of sancus_disable is exit_success.
  pub disable_enclave : List Line → S → Outcome S
  disable_enclave lines s = exit_success lines (sancus_disable s)

  pub hello_main : S → Outcome S
  hello_main s =
      let s1 = sancus_enable s in
      disable_enclave
        (hello_enclave
          ++ (untrusted_id (sancus_get_self_id s1) ∷ trusted_id (sancus_get_id s1) ∷ []))
        s1

  -- `fib_number` of fib2
  abbrev pub fib_number : ℕ
  fib_number = 4

  abbrev pub end_of : Option ℕ → End
  end_of none = no_return
  end_of (some result) = returned result

  -- fib and fib2, whose loop takes at most `fib_number` rounds for the numbers below that.
  pub fib_main : S → Outcome S
  fib_main s = record { lines = []; end = returned (fib 9); state = sancus_enable s }

  pub fib2_main : S → Outcome S
  fib2_main s = record {
    lines = [];
    end = end_of (fibonacci fib_number fib_number);
    state = sancus_enable s;
  }

  -- t2w_2_authentic_execution and comp_gen_test_1 enter no enclave.
  pub t2w_2_main : S → Outcome S
  t2w_2_main s = record { lines = []; end = returned 0; state = sancus_enable s }

  pub comp_gen_test_1_main : S → Outcome S
  comp_gen_test_1_main s = record { lines = []; end = returned 0; state = sancus_enable s }

  -- comp_gen_test_2: set_number(5), then do_loop, whose sum is not used. The enclave's int is the
  -- last component.
  pub comp_gen_test_2_main : (ℕ → ℕ) → S → Outcome S × ℕ
  comp_gen_test_2_main memory s =
      let set = PrivateData.set_number 5 PrivateData.priv_data in
      let sum = PrivateData.do_loop memory 0x2fc 0x500 set.1 in
      (
        record {
          lines = enabling_protections ∷ number_line set.0 ∷ [];
          end = returned 0;
          state = sancus_enable s;
        },
        set.1,
      )

-- The words that the enclaves with the three checks read for their main function.
abbrev pub main_buffer : ℕ
main_buffer = 0x2fc

abbrev pub main_length : ℕ
main_length = 0x500

unfoldable pub t2w_4_vulnerable_main : Module → List ℕ
t2w_4_vulnerable_main sm = copy_vulnerable sm main_buffer main_length

unfoldable pub t2w_4_fixed_main : (Module → ℕ → ℕ → Bool) → Module → List ℕ
t2w_4_fixed_main is_outside sm = copy_fixed is_outside sm main_buffer main_length

unfoldable pub programming_error_main : (Module → ℕ → ℕ → Bool) → Module → List ℕ
programming_error_main is_outside sm = copy_short is_outside sm main_buffer main_length

module _ (S : Type 0) (library : Library S) where
  -- Where sancus_disable takes the enclave's identifier away, as it is documented to do, the
  -- assertion holds, and the enclave has printed its greeting and both identifiers by then.
  hello_main-stopped :
      (s : S)
      → ((s' : S) → library.sancus_get_id (library.sancus_disable s') ≡ 0)
      → hello_main S library s ≡ record {
        lines =
            hello_enclave_line
            ∷ untrusted_id (library.sancus_get_self_id (library.sancus_enable s))
            ∷ trusted_id (library.sancus_get_id (library.sancus_enable s))
            ∷ [];
        end = stopped;
        state = library.sancus_disable (library.sancus_enable s);
      }
  unfolding hello_main disable_enclave exit_success
  hello_main-stopped s disabled = rw (disabled (library.sancus_enable s)) refl

  -- The branch of basic_function that prints is taken once.
  simple_main_runs :
      (s : S)
      → (simple_main S library s).lines
        ≡ enabling_enclave
          ∷ sm_info (library.sancus_get_id (library.sancus_enable s))
          ∷ exit_stub
          ∷ all_done
          ∷ []
  unfolding simple_main basic_function_lines
  simple_main_runs s = refl
