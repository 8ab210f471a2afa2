-- ===== src/Sancus/Reads.antt =====
-- What copy_data_from_buffer reads, for each of its three checks.
use pandora_examples.Prelude.{
  ℕ, zero, suc, ◌+◌, ◌*◌, ◌-◌, ◌/◌, ◌%◌, ◌^◌, ◌≤◌, ◌<◌, ◌≡◌, ◌⊎◌, inl, inr, ap, ◌∙◌, arith, Bool,
  true, some, List, All, get_elem?, ltb, lt→ltb, ltb→lt, Bool-cases,
}
use pandora_examples.Sancus.Buffer.{
  Module, outside_sm, add_pointer, twice, sancus_is_outside_sm_vulnerable, read_loop, read_all,
  copy_vulnerable, copy_fixed, copy_short,
}

-- A byte that is in neither section.
abbrev pub Outside : Module → ℕ → Type 0
Outside sm b =
    ((b < sm.public_start) ⊎ (sm.public_end ≤ b)) × ((b < sm.secret_start) ⊎ (sm.secret_end ≤ b))

-- A range of bytes that does not wrap and has none in a section.
abbrev pub RangeOutside : Module → ℕ → ℕ → Type 0
RangeOutside sm p len = (p + len ≤ 2 ^ 16) × ((b : ℕ) → p ≤ b → b < p + len → Outside sm b)

-- The library's check accepts only ranges that are outside.
abbrev pub Sound : (Module → ℕ → ℕ → Bool) → Type 0
Sound is_outside = (sm : Module) (p len : ℕ) → is_outside sm p len ≡ true → RangeOutside sm p len

-- The library's check accepts all of those.
abbrev pub Complete : (Module → ℕ → ℕ → Bool) → Type 0
Complete is_outside = (sm : Module) (p len : ℕ) → RangeOutside sm p len → is_outside sm p len ≡ true

get_elem?-read_loop :
    (buffer k i j : ℕ)
    → j < k
    → get_elem? (read_loop buffer k i) j ≡ some (add_pointer buffer (i + j))
unfolding read_loop
get_elem?-read_loop buffer zero i j lt = absurd (omega arith)
get_elem?-read_loop buffer (suc k) i zero lt = ap (λ n. some (add_pointer buffer n)) (omega arith)
get_elem?-read_loop buffer (suc k) i (suc j) lt =
    get_elem?-read_loop buffer k (suc i) j (omega arith)
    ∙ ap (λ n. some (add_pointer buffer n)) {y = i + suc j} (omega arith)

-- A call whose check passes reads element `j` of the buffer.
get_elem?-read_all :
    (buffer length j w : ℕ)
    → length < 2 ^ 15
    → j < length
    → buffer + 2 * j ≡ w
    → w < 2 ^ 16
    → get_elem? (read_all buffer length) j ≡ some w
unfolding read_all
get_elem?-read_all buffer length j w short lt is fits =
    rw (lt→ltb length (2 ^ 15) short)
      (get_elem?-read_loop buffer length 0 j lt ∙ ap some {y = w} (omega arith))

All-read_loop :
    (P : ℕ → Type 0) (buffer k i : ℕ)
    → ((j : ℕ) → j < i + k → P (add_pointer buffer j))
    → All P (read_loop buffer k i)
unfolding read_loop
All-read_loop P buffer zero i each = tt
All-read_loop P buffer (suc k) i each =
    (each i (omega arith), All-read_loop P buffer k (suc i) (λ j lt. each j (omega arith)))

-- Both bytes of a word.
abbrev pub WordOutside : Module → ℕ → Type 0
WordOutside sm w = Outside sm w × Outside sm (w + 1)

-- With the library's check of the bytes of the buffer, where that check is sound, each word that
-- the enclave reads lies outside of both sections, for every address and length the caller chooses.
pub copy_fixed-WordOutside :
    (is_outside : Module → ℕ → ℕ → Bool) (sm : Module) (buffer length : ℕ)
    → Sound is_outside
    → All (WordOutside sm) (copy_fixed is_outside sm buffer length)
unfolding copy_fixed read_all
copy_fixed-WordOutside is_outside sm buffer length sound =
    elim (Bool-cases (is_outside sm buffer (twice length))) [
      | inr off ↦ rw off tt
      | inl on ↦ rw on (elim (Bool-cases (ltb length (2 ^ 15))) [
        | inr negative ↦ rw negative tt
        | inl less ↦ rw less (
            All-read_loop (WordOutside sm) buffer length 0 λ j lt.
              let short = ltb→lt length (2 ^ 15) less in
              let range = sound sm buffer (twice length) on in
              (
                range.1 (add_pointer buffer j) (omega arith) (omega arith),
                range.1 (add_pointer buffer j + 1) (omega arith) (omega arith),
              ))
      ])
    ]

outside_sm-true : (p : ℕ) (sm : Module) → Outside sm p → outside_sm p sm ≡ true
unfolding outside_sm
outside_sm-true p sm out = ground arith

-- A word that some call of `copy` reads, by its address and length.
abbrev pub CanRead : (ℕ → ℕ → List ℕ) → ℕ → Type 0
CanRead copy w = (buffer : ℕ) × (length : ℕ) × (i : ℕ) × (get_elem? (copy buffer length) i ≡ some w)

-- With the macro, a caller can have the enclave read every word that ends below 2 ^ 15 - 2, those of the
-- secret section included, for every module whose sections leave the first two and the last six
-- bytes of memory free: the macro looks at two bytes alone.
pub copy_vulnerable-CanRead :
    (sm : Module) (w : ℕ)
    → 2 ≤ sm.public_start
    → 2 ≤ sm.secret_start
    → sm.public_end ≤ 2 ^ 16 - 6
    → sm.secret_end ≤ 2 ^ 16 - 6
    → w < 2 ^ 15 - 3
    → CanRead (copy_vulnerable sm) w
unfolding copy_vulnerable sancus_is_outside_sm_vulnerable
copy_vulnerable-CanRead sm w ps ss pe se low =
    let first = outside_sm-true (w % 2) sm (omega arith) in
    let last =
      outside_sm-true (add_pointer (w % 2) (twice (2 ^ 14 - 1) + 2 ^ 16 - 1)) sm (omega arith) in
    (
      w % 2,
      2 ^ 14 - 1,
      w / 2,
      rw (first, last)
          (get_elem?-read_all (w % 2) (2 ^ 14 - 1) (w / 2) w (omega arith) (omega arith)
            (omega arith) (omega arith)),
    )

-- With the length in ints for the length in bytes, and a check that accepts each range that is
-- outside, a caller can have the enclave read a word of the secret section that starts `d` bytes into
-- it, where the `d` + 2 bytes below the section are free.
pub copy_short-CanRead :
    (is_outside : Module → ℕ → ℕ → Bool) (sm : Module) (d : ℕ)
    → Complete is_outside
    → d + 2 ≤ sm.secret_start
    → sm.secret_start + d < 2 ^ 15
    → (sm.secret_start ≤ sm.public_start) ⊎ (sm.public_end + d + 2 ≤ sm.secret_start)
    → CanRead (copy_short is_outside sm) (sm.secret_start + d)
unfolding copy_short
copy_short-CanRead is_outside sm d complete free low apart =
    let buffer = sm.secret_start - (d + 2) in
    let accepted : is_outside sm buffer (d + 2) ≡ true =
      complete sm buffer (d + 2) (omega arith, λ b lo hi. omega arith) in
    (
      buffer,
      d + 2,
      d + 1,
      rw accepted (
          get_elem?-read_all buffer (d + 2) (d + 1) (sm.secret_start + d) (omega arith)
            (omega arith) (omega arith) (omega arith)),
    )
