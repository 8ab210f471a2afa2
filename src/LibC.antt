-- ===== src/LibC.antt =====
-- The functions of dcap-le/string.c over byte arrays. An int is its 32-bit pattern; a read past
-- the end of an array, which C leaves undefined, gives 0.
pub mod Arrays
pub mod Compare
mod Tests
use pandora_examples.Prelude.{
  ℕ, zero, suc, ◌+◌, ◌-◌, ◌%◌, ◌^◌, Bool, List, [], ◌∷◌, ltb, ◌==◌, ◌&&◌, if◌then◌else◌, get_or,
  set,
}

abbrev pub Bytes : Type 0
Bytes = List ℕ

-- `for (i = 0; i < n; i++) ((unsigned char *)s)[i] = c;` with `k` rounds to go
unfoldable pub memset_loop : Bytes → ℕ → ℕ → ℕ → Bytes
memset_loop s c zero i = s
memset_loop s c (suc k) i = memset_loop (set s i (c % 2 ^ 8)) c k (suc i)

unfoldable pub memset : Bytes → ℕ → ℕ → Bytes
unfolding memset_loop
memset s c n = memset_loop s c n 0

unfoldable pub memcpy_loop : Bytes → Bytes → ℕ → ℕ → Bytes
memcpy_loop dest src zero i = dest
memcpy_loop dest src (suc k) i = memcpy_loop (set dest i (get_or src i 0)) src k (suc i)

unfoldable pub memcpy : Bytes → Bytes → ℕ → Bytes
unfolding memcpy_loop
memcpy dest src n = memcpy_loop dest src n 0

-- A `char` is signed: its conversion to int.
abbrev pub signed_char : ℕ → ℕ
signed_char b = if ltb b 128 then b else 2 ^ 32 - 256 + b

-- Subtraction of ints that are less than `2 ^ 31` apart.
abbrev pub sub_int : ℕ → ℕ → ℕ
sub_int a b = (a + 2 ^ 32 - b) % 2 ^ 32

unfoldable pub memcmp_loop : Bytes → Bytes → ℕ → ℕ → ℕ
memcmp_loop s1 s2 zero i = 0
memcmp_loop s1 s2 (suc k) i =
    let rest = memcmp_loop s1 s2 k (suc i) in
    let a = get_or s1 i 0 in
    let b = get_or s2 i 0 in if a == b then rest else sub_int (signed_char a) (signed_char b)

unfoldable pub memcmp : Bytes → Bytes → ℕ → ℕ
unfolding memcmp_loop
memcmp s1 s2 n = memcmp_loop s1 s2 n 0

-- A string is the list of its characters; behind them stands the 0 that ends it.
unfoldable pub strcmp : Bytes → Bytes → ℕ
strcmp [] [] = 0
strcmp [] (b ∷ s2) = if b == 0 then 0 else sub_int 0 b
strcmp (a ∷ s1) [] = if a == 0 then 0 else sub_int a 0
strcmp (a ∷ s1) (b ∷ s2) =
    let rest = strcmp s1 s2 in
    if a == 0 && b == 0 then 0 else if sub_int a b == 0 then rest else sub_int a b
