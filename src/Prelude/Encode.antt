-- ===== src/Prelude/Encode.antt =====
-- Little-endian bytes of numbers, and lists that are put together from parts of known lengths.
use pandora_examples.Prelude.Lists.{length, length-append}
use Prim.Native.Nat.{ℕ, zero, suc, ◌+◌, ◌*◌, ◌/◌, ◌%◌, ◌^◌, ◌<◌}
use mathlib.Core.Path.{◌≡◌, refl, ap, ap₂}
use mathlib.Core.List.{List, [], ◌∷◌, ◌++◌}
use native.Mathlib.Omega.{arith}

-- The `n` low bytes of `v`, the lowest first.
unfoldable pub le : ℕ → ℕ → List ℕ
le zero v = []
le (suc n) v = v % 2 ^ 8 ∷ le n (v / 2 ^ 8)

-- An array of `n`-byte words.
unfoldable pub les : ℕ → List ℕ → List ℕ
unfolding le
les n [] = []
les n (v ∷ vs) = le n v ++ les n vs

-- The number that little-endian bytes stand for.
unfoldable pub of_le : List ℕ → ℕ
of_le [] = 0
of_le (b ∷ bs) = b % 2 ^ 8 + 2 ^ 8 * of_le bs

pub length-le : (n v : ℕ) → length (le n v) ≡ n
unfolding le
length-le zero v = refl
length-le (suc n) v = ap suc (length-le n (v / 2 ^ 8))

pub length-les : (n : ℕ) (vs : List ℕ) → length (les n vs) ≡ n * length vs
unfolding les
length-les n [] = omega arith
length-les n (v ∷ vs) =
    omega (arith, length-append (le n v) (les n vs), length-le n v, length-les n vs)

pub le2-injective : (v w : ℕ) → v < 2 ^ 16 → w < 2 ^ 16 → le 2 v ≡ le 2 w → v ≡ w
unfolding of_le le
le2-injective v w hv hw e = omega (arith, ap of_le e)

pub le4-injective : (v w : ℕ) → v < 2 ^ 32 → w < 2 ^ 32 → le 4 v ≡ le 4 w → v ≡ w
unfolding of_le le
le4-injective v w hv hw e = omega (arith, ap of_le e)

pub le8-injective : (v w : ℕ) → v < 2 ^ 64 → w < 2 ^ 64 → le 8 v ≡ le 8 w → v ≡ w
unfolding of_le le
le8-injective v w hv hw e = omega (arith, ap of_le e)

-- Parts of the same length can be told apart in a list.
pub append-injective {ℓ} :
    {A : Type ℓ} (xs ys : List A) {us vs : List A}
    → length xs ≡ length ys
    → xs ++ us ≡ ys ++ vs
    → (xs ≡ ys) × (us ≡ vs)
append-injective [] [] same e = (refl, e)
append-injective [] (y ∷ ys) same e = absurd (omega arith)
append-injective (x ∷ xs) [] same e = absurd (omega arith)
append-injective (x ∷ xs) (y ∷ ys) {us} {vs} same e =
    let rest = append-injective xs ys {us = us} {vs = vs} (omega arith) (cc) in
    (ap₂ ◌∷◌ (cc) rest.0, rest.1)

pub length-append_bytes : (xs ys : List ℕ) → length (xs ++ ys) ≡ length xs + length ys
length-append_bytes xs ys = length-append xs ys

pub ruleset sizes = (arith, length-append_bytes, length-le, length-les)
