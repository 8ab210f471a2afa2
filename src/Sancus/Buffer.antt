-- ===== src/Sancus/Buffer.antt =====
-- copy_data_from_buffer in three programs: with the macro of
-- sancus/t2w/t2w_4_vulnerable_sancus_is_outside_sm/main.c, with the library's check in
-- t2w_4_fixed_sancus_is_outside_sm/main.c, and with too short a length in
-- sancus/full_encl/t2w_with_programming_error/main.c. A pointer is its sixteen bits.
use pandora_examples.Prelude.{
  ℕ, zero, suc, ◌+◌, ◌*◌, ◌-◌, ◌%◌, ◌^◌, Bool, ◌&&◌, ◌||◌, List, [], ◌∷◌, ltb, leb, if◌then◌else◌,
}

-- The sections of a module: from __PS to __PE and from __SS to __SE.
pub record Module : Type 0 where
  pub public_start : ℕ
  pub public_end : ℕ
  pub secret_start : ℕ
  pub secret_end : ℕ

-- __OUTSIDE_SM
unfoldable pub outside_sm : ℕ → Module → Bool
outside_sm p sm =
    (ltb p sm.public_start || leb sm.public_end p) && (ltb p sm.secret_start || leb sm.secret_end p)

-- `p + k` for a pointer to int
abbrev pub add_pointer : ℕ → ℕ → ℕ
add_pointer p k = (p + 2 * k) % 2 ^ 16

-- `length * 2`
abbrev pub twice : ℕ → ℕ
twice length = (length * 2) % 2 ^ 16

-- The macro sancus_is_outside_sm_vulnerable at a pointer to int: `p + len - 1` counts ints.
unfoldable pub sancus_is_outside_sm_vulnerable : Module → ℕ → ℕ → Bool
unfolding outside_sm
sancus_is_outside_sm_vulnerable sm p len =
    outside_sm p sm && outside_sm (add_pointer p (len + 2 ^ 16 - 1)) sm

-- The addresses of `buffer[i]` for the `k` rounds from `i` on.
unfoldable pub read_loop : ℕ → ℕ → ℕ → List ℕ
read_loop buffer zero i = []
read_loop buffer (suc k) i = add_pointer buffer i ∷ read_loop buffer k (suc i)

-- `for (int i = 0; i < length; i++)`: a length with the top bit is negative.
unfoldable pub read_all : ℕ → ℕ → List ℕ
unfolding read_loop
read_all buffer length = if ltb length (2 ^ 15) then read_loop buffer length 0 else []

-- The words that copy_data_from_buffer reads, with the macro.
unfoldable pub copy_vulnerable : Module → ℕ → ℕ → List ℕ
unfolding sancus_is_outside_sm_vulnerable read_all
copy_vulnerable sm buffer length =
    if sancus_is_outside_sm_vulnerable sm buffer (twice length) then read_all buffer length else []

-- With the library's sancus_is_outside_sm.
unfoldable pub copy_fixed : (Module → ℕ → ℕ → Bool) → Module → ℕ → ℕ → List ℕ
unfolding read_all
copy_fixed is_outside sm buffer length =
    if is_outside sm buffer (twice length) then read_all buffer length else []

-- With the library's check of `length` bytes.
unfoldable pub copy_short : (Module → ℕ → ℕ → Bool) → Module → ℕ → ℕ → List ℕ
unfolding read_all
copy_short is_outside sm buffer length =
    if is_outside sm buffer length then read_all buffer length else []
