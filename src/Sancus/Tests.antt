-- ===== src/Sancus/Tests.antt =====
-- Runs of the programs of sancus, and their theorems at concrete arguments.
use pandora_examples.Prelude.{
  ℕ, inl, inr, ◌⊎◌, suc, ◌+◌, ◌%◌, ◌^◌, ◌≤◌, ◌<◌, ◌≡◌, ◌↔◌, refl, arith, Bool, true, ◌&&◌, ◌||◌,
  none, some, [], ◌∷◌, All, leb, if◌then◌else◌,
}
use pandora_examples.Sancus.{
  fib, fib_from, fib_iterative, fib_loop, fibonacci, fibonacci_loop, leq_int,
}
use pandora_examples.Sancus.Fib.{fib_iterative-fibonacci}
use pandora_examples.Sancus.Buffer.{
  Module, outside_sm, sancus_is_outside_sm_vulnerable, copy_vulnerable, copy_fixed, copy_short,
}
use pandora_examples.Sancus.Reads.{
  Sound, Complete, WordOutside, CanRead, copy_fixed-WordOutside, copy_vulnerable-CanRead,
  copy_short-CanRead,
}
use pandora_examples.Sancus.Support.{
  declare_sm, declare_crypt_sm, sm_loader_load, sm_loader_load-accepts,
}
use pandora_examples.Sancus.Reactive as Reactive
use pandora_examples.Sancus.Reactive.{
  Unwrap, Fits, sm_num_inputs, ad_size, sm_handle_input, sm_handle_input_lem,
}
use pandora_examples.Sancus.PrivateData.{
  number_set, number_not_set, positive, set_number, do_loop, stored, latest, sum, Reach, start,
  next, calls_set_number, calls_do_loop, IsPositive, Reach-IsPositive, do_loop-set_number,
}
use pandora_examples.Sancus.Arithmetic.{
  plus_one, plus_two, entries_result, do_something_cool, basic_function,
}

-- The calls of the `main` functions.
main_runs : (fib 9 ≡ 55) × (fibonacci 4 4 ≡ some 5) × (fib 0xfff0 ≡ 0xffff)
unfolding fib fib_from fib_iterative fib_loop fibonacci fibonacci_loop leq_int
main_runs = (refl, refl, refl)

arithmetic_runs :
    (entries_result ≡ 5) × (do_something_cool 0xffff 1 2 3 4 ≡ 9) × (basic_function 0xfffb ≡ 0)
unfolding entries_result plus_one plus_two do_something_cool basic_function
arithmetic_runs = (refl, refl, refl)

fib_iterative-fibonacci_example :
    (fib_iterative 10 (suc 8) ≡ some (fib 8))
    × (fib_iterative 100 0x7fff ≡ none)
    × (fibonacci 10 (suc 9) ≡ some (fib (suc 9)))
fib_iterative-fibonacci_example =
    fib_iterative-fibonacci 10 100 8 9 (omega arith) (omega arith) (omega arith) (omega arith)

-- Code from 0x4000 to 0x5000 and data from 0x400 to 0x500.
abbrev basic_enclave : Module
basic_enclave = record {
  public_start = 0x4000;
  public_end = 0x5000;
  secret_start = 0x400;
  secret_end = 0x500;
}

-- The call of `main` is refused by none of the bytes that the macro looks at.
vulnerable_runs : sancus_is_outside_sm_vulnerable basic_enclave 0x2fc 0xa00 ≡ true
unfolding sancus_is_outside_sm_vulnerable outside_sm
vulnerable_runs = refl

ℕ_total : (a b : ℕ) → (a ≤ b) ⊎ (b < a)
ℕ_total a b = omega arith

-- Whether the range from `p` to `q` has no byte of the section from `a` to `b`.
clear : ℕ → ℕ → ℕ → ℕ → Bool
clear p q a b = leb q p || leb q a || leb b p || leb b a

-- A check that accepts just the ranges that are outside.
is_outside : Module → ℕ → ℕ → Bool
is_outside sm p len =
    leb (p + len) (2 ^ 16)
    && clear p (p + len) sm.public_start sm.public_end
    && clear p (p + len) sm.secret_start sm.secret_end

is_outside-Sound : Sound is_outside
unfolding is_outside clear
is_outside-Sound sm p len accepted = (ground arith, λ b lo hi. ground arith)

clear-true : (p q a b : ℕ) → ((x : ℕ) → p ≤ x → x < q → (x < a) ⊎ (b ≤ x)) → clear p q a b ≡ true
unfolding clear
clear-true p q a b out = elim (ℕ_total q a) [
  | inl before ↦ ground arith
  | inr behind ↦ elim (ℕ_total a p) [
    | inr later ↦ byte a (omega arith) (omega arith) behind (omega arith)
    | inl earlier ↦ elim (ℕ_total q p) [
      | inl empty ↦ ground arith
      | inr some_byte ↦ byte p (omega arith) (omega arith) some_byte earlier
    ]
  ]
]
  where
    byte : (x : ℕ) → (x ≡ p) ⊎ (x ≡ a) → p ≤ x → x < q → a ≤ x → clear p q a b ≡ true
    byte x is lo hi in_b = elim (out x lo hi) [
      | inl l ↦ absurd (omega arith)
      | inr r ↦ elim is [ inl e ↦ ground arith | inr e ↦ ground arith ]
    ]

is_outside-Complete : Complete is_outside
unfolding is_outside
is_outside-Complete sm p len range =
    rw
      (
        clear-true p (p + len) sm.public_start sm.public_end (λ x lo hi. (range.1 x lo hi).0),
        clear-true p (p + len) sm.secret_start sm.secret_end (λ x lo hi. (range.1 x lo hi).1),
      )
      (ground arith)

copy_short-CanRead_example : CanRead (copy_short is_outside basic_enclave) (0x400 + 16)
copy_short-CanRead_example =
    copy_short-CanRead is_outside basic_enclave 16 is_outside-Complete (omega arith) (omega arith)
      (omega arith)

copy_fixed-WordOutside_example :
    All (WordOutside basic_enclave) (copy_fixed is_outside basic_enclave 0x300 2)
copy_fixed-WordOutside_example =
    copy_fixed-WordOutside is_outside basic_enclave 0x300 2 is_outside-Sound

copy_vulnerable-CanRead_example : CanRead (copy_vulnerable basic_enclave) 0x410
copy_vulnerable-CanRead_example =
    copy_vulnerable-CanRead basic_enclave 0x410 (omega arith) (omega arith) (omega arith)
      (omega arith) (omega arith)

sm_loader_load-accepts_runs :
    ((sm_loader_load (declare_sm 1 2 0x4000 0x5000 0x400 0x500) ≡ none) ↔ (0x4000 ≤ 0x5000))
    × ((start end : ℕ)
        → sm_loader_load (declare_sm 1 2 0x4000 0x5000 0x400 0x500)
          ≡ sm_loader_load (declare_sm 1 2 0x4000 0x5000 0x400 0x500))
sm_loader_load-accepts_runs =
    sm_loader_load-accepts (declare_crypt_sm 1 2 0x4000 0x5000 0x400 0x500 0x6000 0x6010)

abbrev reactive : Reactive.Env
reactive = record { sm_io_keys = 0x400; tag_size = 16; key_size = 16 }

-- A payload of 30 bytes, and one of four.
sm_handle_input_lem_example :
    (sm_handle_input reactive 0xa00 100 0x300 30 ≡ none)
    × ((u : Unwrap) × (sm_handle_input reactive 0xa00 7 0x300 30 ≡ some u)
        × Fits reactive 0xa00 0x300 30 u)
    × ((u : Unwrap) × (sm_handle_input reactive 0xa00 7 0x300 4 ≡ some u)
        × (u.cipher_len + 14 ≡ 2 ^ 16))
sm_handle_input_lem_example =
    sm_handle_input_lem reactive 0xa00 100 7 0x300 30 4 14 (omega arith) (omega arith) (omega arith)
      (omega arith) (omega arith) (omega arith) (omega arith) (omega arith) (omega arith) refl

-- set_number(5), do_loop and set_number(-1)
reach_runs : Reach 5
unfolding set_number
reach_runs =
    next (next (next (start refl) (calls_set_number 5 refl)) (calls_do_loop (λ a. a) 0x2fc 0x500))
      (calls_set_number 0xffff refl)

Reach-IsPositive_example : IsPositive 5
Reach-IsPositive_example = Reach-IsPositive 5 reach_runs

do_loop-set_number_runs :
    (do_loop (λ a. a) 0x2fc 3 (stored (5 ∷ []))
      ≡ (latest (5 ∷ []) + sum (λ a. a) 0x2fc 3 0) % 2 ^ 16)
    × ((set_number 0x8000 (stored (5 ∷ []))).0
        ≡ (if positive 0x8000 then number_set else number_not_set))
do_loop-set_number_runs = do_loop-set_number (5 ∷ []) 0x8000 (λ a. a) 0x2fc 3
