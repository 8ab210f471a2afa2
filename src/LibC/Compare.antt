-- ===== src/LibC/Compare.antt =====
-- memcmp and strcmp of dcap-le/string.c: when they give 0, and which sign they give.
use pandora_examples.Prelude.{
  ℕ, zero, suc, ◌+◌, ◌%◌, ◌^◌, ◌≤◌, ◌<◌, ◌≡◌, ◌≢◌, ◌↔◌, refl, ap, ap₂, sym, ◌∙◌, [], ◌∷◌, ◌++◌,
  arith, ltb, ◌==◌, Bool, true, false, if◌then◌else◌, length, get_or, take, All,
}
use native.Mathlib.Decide.{ℕ_discrete}
use pandora_examples.LibC.{Bytes, sub_int, signed_char, memcmp_loop, memcmp, strcmp}

abbrev pub IsByte : ℕ → Type 0
IsByte b = b < 256

memcmp_loop-cons :
    (k i a b : ℕ) (s1 s2 : Bytes) → memcmp_loop (a ∷ s1) (b ∷ s2) k (suc i) ≡ memcmp_loop s1 s2 k i
unfolding memcmp_loop
memcmp_loop-cons zero i a b s1 s2 = refl
memcmp_loop-cons (suc k) i a b s1 s2 =
    let x = get_or s1 i 0 in
    let y = get_or s2 i 0 in
    ap (λ rest. if x == y then rest else sub_int (signed_char x) (signed_char y))
      (memcmp_loop-cons k (suc i) a b s1 s2)

-- One round of memcmp.
memcmp-cons :
    (a b : ℕ) (s1 s2 : Bytes) (n : ℕ)
    → memcmp (a ∷ s1) (b ∷ s2) (suc n)
      ≡ (if a == b then memcmp s1 s2 n else sub_int (signed_char a) (signed_char b))
unfolding memcmp memcmp_loop
memcmp-cons a b s1 s2 n =
    ap (λ rest. if a == b then rest else sub_int (signed_char a) (signed_char b))
      (memcmp_loop-cons n 0 a b s1 s2)

differ-ne : (a b : ℕ) → a < 256 → b < 256 → a ≢ b → sub_int (signed_char a) (signed_char b) ≢ 0
differ-ne a b ha hb ne = ground arith

pub ==-ne : (a b : ℕ) → a ≢ b → (a == b) ≡ false
==-ne a b other = ground arith

memcmp-zero : (s1 s2 : Bytes) → memcmp s1 s2 0 ≡ 0
unfolding memcmp
memcmp-zero s1 s2 = refl

memcmp-same :
    (a b : ℕ) (s1 s2 : Bytes) (n : ℕ) → a ≡ b → memcmp (a ∷ s1) (b ∷ s2) (suc n) ≡ memcmp s1 s2 n
memcmp-same a b s1 s2 n same = ground (arith, memcmp-cons a b s1 s2 n)

memcmp-differ :
    (a b : ℕ) (s1 s2 : Bytes) (n : ℕ)
    → a ≢ b
    → memcmp (a ∷ s1) (b ∷ s2) (suc n) ≡ sub_int (signed_char a) (signed_char b)
memcmp-differ a b s1 s2 n other = memcmp-cons a b s1 s2 n ∙ rw (==-ne a b other)

sign_iff :
    (a b : ℕ)
    → a < 256
    → b < 256
    → a ≢ b
    → (2 ^ 31 ≤ sub_int (signed_char a) (signed_char b)) ↔ ((a + 128) % 256 < (b + 128) % 256)
sign_iff a b ha hb other = ground arith

pub memcmp_iff :
    (n : ℕ) (s1 s2 : Bytes)
    → n ≤ length s1
    → n ≤ length s2
    → All IsByte s1
    → All IsByte s2
    → (memcmp s1 s2 n ≡ 0) ↔ (take n s1 ≡ take n s2)
memcmp_iff zero s1 s2 h1 h2 b1 b2 = (λ _. refl, λ _. memcmp-zero s1 s2)
memcmp_iff (suc n) [] s2 h1 h2 b1 b2 = absurd (omega arith)
memcmp_iff (suc n) (a ∷ s1) [] h1 h2 b1 b2 = absurd (omega arith)
memcmp_iff (suc n) (a ∷ s1) (b ∷ s2) h1 h2 b1 b2 =
    let ih = memcmp_iff n s1 s2 (omega arith) (omega arith) b1.1 b2.1 in
    elim (ℕ_discrete a b) [
      | yes same ↦
          let step = memcmp-same a b s1 s2 n same in
          (λ z. ap₂ ◌∷◌ same (ih.0 (sym step ∙ z)), λ e. step ∙ ih.1 (cc))
      | no other ↦
          let step = memcmp-differ a b s1 s2 n other in
          (λ z. absurd (differ-ne a b b1.0 b2.0 other (sym step ∙ z)), λ e. absurd (other (cc)))
    ]

-- At the first byte that differs memcmp tells which array is less, by the order of signed chars:
-- with the top bit of each byte turned over.
pub memcmp-negative :
    (pre s1 s2 : Bytes) (a b n : ℕ)
    → a < 256
    → b < 256
    → a ≢ b
    → length pre < n
    → (2 ^ 31 ≤ memcmp (pre ++ a ∷ s1) (pre ++ b ∷ s2) n) ↔ ((a + 128) % 256 < (b + 128) % 256)
memcmp-negative pre s1 s2 a b zero ha hb other long = absurd (omega arith)
memcmp-negative [] s1 s2 a b (suc n) ha hb other long =
    rw (memcmp-differ a b s1 s2 n other) (sign_iff a b ha hb other)
memcmp-negative (c ∷ pre) s1 s2 a b (suc n) ha hb other long =
    rw (memcmp-same c c (pre ++ a ∷ s1) (pre ++ b ∷ s2) n refl)
      (memcmp-negative pre s1 s2 a b n ha hb other (omega arith))

-- The order of strings by unsigned characters, the end of a string first.
unfoldable pub string_ltb : Bytes → Bytes → Bool
string_ltb [] [] = false
string_ltb [] (b ∷ t) = true
string_ltb (a ∷ s) [] = false
string_ltb (a ∷ s) (b ∷ t) = let rest = string_ltb s t in if a == b then rest else ltb a b

-- A character of a string: a byte other than the end.
abbrev pub IsChar : ℕ → Type 0
IsChar c = (0 < c) × (c < 256)

strcmp-same : (a b : ℕ) (s t : Bytes) → IsChar a → a ≡ b → strcmp (a ∷ s) (b ∷ t) ≡ strcmp s t
unfolding strcmp
strcmp-same a b s t char same = ground arith

strcmp-differ :
    (a b : ℕ) (s t : Bytes)
    → IsChar a
    → IsChar b
    → a ≢ b
    → (strcmp (a ∷ s) (b ∷ t) ≢ 0) × ((2 ^ 31 ≤ strcmp (a ∷ s) (b ∷ t)) ↔ (ltb a b ≡ true))
unfolding strcmp
strcmp-differ a b s t ca cb other = ground arith

string_ltb-same : (a b : ℕ) (s t : Bytes) → a ≡ b → string_ltb (a ∷ s) (b ∷ t) ≡ string_ltb s t
unfolding string_ltb
string_ltb-same a b s t same = ground arith

string_ltb-differ : (a b : ℕ) (s t : Bytes) → a ≢ b → string_ltb (a ∷ s) (b ∷ t) ≡ ltb a b
unfolding string_ltb
string_ltb-differ a b s t other = rw (==-ne a b other)

strcmp_iff :
    (s t : Bytes)
    → All IsChar s
    → All IsChar t
    → ((strcmp s t ≡ 0) ↔ (s ≡ t)) × ((2 ^ 31 ≤ strcmp s t) ↔ (string_ltb s t ≡ true))
strcmp_iff [] [] hs ht = unfold strcmp string_ltb in ground arith
strcmp_iff [] (b ∷ t) hs ht = unfold strcmp string_ltb in ground arith
strcmp_iff (a ∷ s) [] hs ht = unfold strcmp string_ltb in ground arith
strcmp_iff (a ∷ s) (b ∷ t) hs ht =
    let ih = strcmp_iff s t hs.1 ht.1 in
    elim (ℕ_discrete a b) [
      | yes same ↦
          rw (strcmp-same a b s t hs.0 same, string_ltb-same a b s t same)
            ((λ z. ap₂ ◌∷◌ same (ih.0.0 z), λ e. ih.0.1 (cc)), ih.1)
      | no other ↦
          let d = strcmp-differ a b s t hs.0 ht.0 other in
          rw (string_ltb-differ a b s t other)
            ((λ z. absurd (d.0 z), λ e. absurd (other (cc))), d.1)
    ]

-- memcmp gives 0 exactly when the first `n` bytes of the two arrays are equal. strcmp gives 0 exactly
-- for equal strings, and a negative value exactly where the first string comes before the second by
-- unsigned characters.
pub memcmp-strcmp_iff :
    (n : ℕ) (s1 s2 s t : Bytes)
    → n ≤ length s1
    → n ≤ length s2
    → All IsByte s1
    → All IsByte s2
    → All IsChar s
    → All IsChar t
    → ((memcmp s1 s2 n ≡ 0) ↔ (take n s1 ≡ take n s2))
      × ((strcmp s t ≡ 0) ↔ (s ≡ t))
      × ((2 ^ 31 ≤ strcmp s t) ↔ (string_ltb s t ≡ true))
memcmp-strcmp_iff n s1 s2 s t h1 h2 b1 b2 hs ht =
    let order = strcmp_iff s t hs ht in (memcmp_iff n s1 s2 h1 h2 b1 b2, order.0, order.1)
