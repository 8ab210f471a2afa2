-- ===== src/Prelude/Words.antt =====
-- Machine integers as native numbers below `2 ^ w`, with the wrap of C's unsigned types.
use Prim.Native.Nat.{ℕ, ◌+◌, ◌-◌, ◌%◌, ◌^◌}

-- `size_t`, `uint64_t` and pointers
abbrev pub u64_mod : ℕ
u64_mod = 2 ^ 64

-- Addition of `size_t`, also of an offset to a pointer.
abbrev pub add_size : ℕ → ℕ → ℕ
add_size a b = (a + b) % u64_mod

-- Subtraction of `size_t`, for a subtrahend below `2 ^ 64`.
abbrev pub sub_size : ℕ → ℕ → ℕ
sub_size a b = (a + u64_mod - b) % u64_mod
