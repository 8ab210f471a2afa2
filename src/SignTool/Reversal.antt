-- ===== src/SignTool/Reversal.antt =====
-- reverse_bytes of dcap-le/sgxsign.c, which turns OpenSSL's numbers round.
use pandora_examples.Prelude.{
  ℕ, zero, suc, ◌+◌, ◌-◌, ◌*◌, ◌<◌, ◌≤◌, ◌≡◌, ◌≢◌, ◌⊎◌, inl, inr, refl, sym, ap, ◌∙◌, arith, false,
  [], ◌∷◌, ltb, Bool-cases, ltb→lt, lt→ltb, not_ltb, length, get_or, set, length-set,
}
use pandora_examples.LibC.{Bytes}
use pandora_examples.SignTool.Sign.{reverse_loop, reverse_bytes}

get_or-set_same : (xs : Bytes) (i v : ℕ) → i < length xs → get_or (set xs i v) i 0 ≡ v
get_or-set_same [] i v lt = absurd (omega (arith, lt))
get_or-set_same (x ∷ xs) zero v lt = refl
get_or-set_same (x ∷ xs) (suc i) v lt = get_or-set_same xs i v (omega (arith, lt))

get_or-set_other : (xs : Bytes) (i j v : ℕ) → i ≢ j → get_or (set xs i v) j 0 ≡ get_or xs j 0
get_or-set_other [] i j v ne = refl
get_or-set_other (x ∷ xs) zero zero v ne = absurd (ne refl)
get_or-set_other (x ∷ xs) zero (suc j) v ne = refl
get_or-set_other (x ∷ xs) (suc i) zero v ne = refl
get_or-set_other (x ∷ xs) (suc i) (suc j) v ne = get_or-set_other xs i j v (λ e. ne (ap suc e))

-- The array with two elements exchanged.
swapped : ℕ → ℕ → Bytes → Bytes
swapped i j b = set (set b i (get_or b j 0)) j (get_or b i 0)

length-swapped : (i j : ℕ) (b : Bytes) → length (swapped i j b) ≡ length b
unfolding swapped
length-swapped i j b = length-set (set b i (get_or b j 0)) j _ ∙ length-set b i _

swapped-first :
    (i j : ℕ) (b : Bytes) → i < j → j < length b → get_or (swapped i j b) i 0 ≡ get_or b j 0
unfolding swapped
swapped-first i j b lt within =
    get_or-set_other (set b i (get_or b j 0)) j i _ (omega arith)
    ∙ get_or-set_same b i _ (omega arith)

swapped-last : (i j : ℕ) (b : Bytes) → j < length b → get_or (swapped i j b) j 0 ≡ get_or b i 0
unfolding swapped
swapped-last i j b within =
    get_or-set_same (set b i (get_or b j 0)) j _ (omega (arith, length-set b i (get_or b j 0)))

swapped-other : (i j x : ℕ) (b : Bytes) → i ≢ x → j ≢ x → get_or (swapped i j b) x 0 ≡ get_or b x 0
unfolding swapped
swapped-other i j x b ni nj =
    get_or-set_other (set b i (get_or b j 0)) j x _ nj ∙ get_or-set_other b i x _ ni

loop-step :
    (k i j : ℕ) (b : Bytes)
    → i < j
    → reverse_loop (suc k) i j b ≡ reverse_loop k (i + 1) (j - 1) (swapped i j b)
unfolding reverse_loop swapped
loop-step k i j b lt = rw (lt→ltb i j lt)

loop-stop : (k i j : ℕ) (b : Bytes) → j ≤ i → reverse_loop k i j b ≡ b
unfolding reverse_loop
loop-stop zero i j b le = refl
loop-stop (suc k) i j b le = rw (not_ltb i j le)

loop-outside :
    (k i j x : ℕ) (b : Bytes) → (x < i) ⊎ (j < x) → get_or (reverse_loop k i j b) x 0 ≡ get_or b x 0
unfolding reverse_loop
loop-outside zero i j x b out = refl
loop-outside (suc k) i j x b out = elim (Bool-cases (ltb i j)) [
  | inr done ↦ ap (λ l. get_or l x 0) (loop-stop (suc k) i j b (ground arith))
  | inl more ↦
      let lt = ltb→lt i j more in
      ap (λ l. get_or l x 0) (loop-step k i j b lt)
      ∙ loop-outside k (i + 1) (j - 1) x (swapped i j b) (ground arith)
      ∙ swapped-other i j x b (ground arith) (ground arith)
]

at_start : (i x : ℕ) → i ≤ x → ltb i x ≡ false → x ≡ i
at_start i x from first = ground arith

loop-inside :
    (k i j x : ℕ) (b : Bytes)
    → j < length b
    → j < i + 2 * k
    → i ≤ x
    → x ≤ j
    → get_or (reverse_loop k i j b) x 0 ≡ get_or b (i + j - x) 0
loop-inside zero i j x b within fuel from to = absurd (omega arith)
loop-inside (suc k) i j x b within fuel from to = elim (Bool-cases (ltb i j)) [
  | inr done ↦
      ap (λ l. get_or l x 0) (loop-stop (suc k) i j b (ground arith))
      ∙ ap (λ y. get_or b y 0) (ground arith)
  | inl more ↦
      let lt = ltb→lt i j more in
      ap (λ l. get_or l x 0) (loop-step k i j b lt) ∙ (elim (Bool-cases (ltb i x)) [
        | inr first ↦
            loop-outside k (i + 1) (j - 1) x (swapped i j b) (inl (ground arith))
            ∙ ap (λ y. get_or (swapped i j b) y 0) (at_start i x from first)
            ∙ swapped-first i j b lt within
            ∙ ap (λ y. get_or b y 0) (ground arith)
        | inl past ↦ elim (Bool-cases (ltb x j)) [
          | inr last ↦
              loop-outside k (i + 1) (j - 1) x (swapped i j b) (inr (ground arith))
              ∙ ap (λ y. get_or (swapped i j b) y 0) (sym (at_start x j to last))
              ∙ swapped-last i j b within
              ∙ ap (λ y. get_or b y 0) (ground arith)
          | inl before ↦
              let low = ltb→lt i x past in
              let high = ltb→lt x j before in
              loop-inside k (i + 1) (j - 1) x (swapped i j b) (omega (arith, length-swapped i j b))
                (omega arith) (omega arith) (omega arith)
              ∙ swapped-other i j _ b (omega arith) (omega arith)
              ∙ ap (λ y. get_or b y 0) (omega arith)
        ]
      ])
]

length-reverse_loop : (k i j : ℕ) (b : Bytes) → length (reverse_loop k i j b) ≡ length b
unfolding reverse_loop
length-reverse_loop zero i j b = refl
length-reverse_loop (suc k) i j b = elim (Bool-cases (ltb i j)) [
  | inr done ↦ ap length (loop-stop (suc k) i j b (ground arith))
  | inl more ↦
      ap length (loop-step k i j b (ltb→lt i j more))
      ∙ length-reverse_loop k (i + 1) (j - 1) (swapped i j b)
      ∙ length-swapped i j b
]

-- reverse_bytes keeps the length of an array and puts at each index the byte that was as far from
-- the end.
pub reverse_bytes_lem :
    (b : Bytes) (x : ℕ)
    → x < length b
    → (length (reverse_bytes b) ≡ length b)
      × (get_or (reverse_bytes b) x 0 ≡ get_or b (length b - 1 - x) 0)
unfolding reverse_bytes
reverse_bytes_lem b x lt = (
  length-reverse_loop (length b) 0 (length b - 1) b,
  loop-inside (length b) 0 (length b - 1) x b (omega arith) (omega arith) (omega arith)
        (omega arith)
      ∙ ap (λ y. get_or b y 0) (omega arith),
)
