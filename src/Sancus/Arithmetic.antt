-- ===== src/Sancus/Arithmetic.antt =====
-- Entry points of sancus/full_encl that compute with their arguments alone: those of
-- sancus-minimal_3entries, comp_gen_test_1 and simple_encl_sanc_v2.0.0. A char is its code.
use pandora_examples.Prelude.{ℕ, ◌^◌, List, [], ◌∷◌, leb, if◌then◌else◌}
use pandora_examples.Sancus.{add_int}

unfoldable pub plus_one : ℕ → ℕ
plus_one parameter = add_int parameter 1

unfoldable pub plus_two : ℕ → ℕ
plus_two parameter = add_int parameter 2

unfoldable pub plus_three : ℕ → ℕ
plus_three parameter = add_int parameter 3

-- What main of sancus-minimal_3entries returns.
unfoldable pub entries_result : ℕ
unfolding plus_one plus_two
entries_result =
    let enclave_result = plus_one 1 in
    let enclave_result2 = plus_two 1 in add_int enclave_result enclave_result2

-- 'a'
abbrev pub enter_encl : ℕ
enter_encl = 97

-- "Enclave", whatever the argument
unfoldable pub another_entry : ℕ → List ℕ
another_entry one = 69 ∷ 110 ∷ 99 ∷ 108 ∷ 97 ∷ 118 ∷ 101 ∷ []

unfoldable pub do_something_cool : ℕ → ℕ → ℕ → ℕ → ℕ → ℕ
do_something_cool one two three four five =
    add_int (add_int (add_int (add_int one two) three) four) five

-- basic_function: an int with the top bit is negative.
unfoldable pub basic_function : ℕ → ℕ
basic_function arg = if leb (2 ^ 15) arg then 0 else 1
