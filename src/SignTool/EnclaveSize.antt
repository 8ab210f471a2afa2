-- ===== src/SignTool/EnclaveSize.antt =====
-- The size loop of mrenclave_ecreate in dcap-le/sgxsign.c.
use native.Mathlib.Decide.{dec_le}
use pandora_examples.Prelude.{
  ℕ, zero, suc, ◌*◌, ◌%◌, ◌^◌, ◌≤◌, ◌<◌, ◌≡◌, ◌⊎◌, inl, inr, refl, ap, ◌∙◌, arith, true, false, ltb,
  Bool-cases, ltb→lt, lt→ltb, not_ltb,
}
use pandora_examples.Prelude.Words.{u64_mod}
use pandora_examples.SignTool.{ok, no_return, encl_size_loop}
use pandora_examples.SignTool.Measure.{size_rounds}

-- `s` doubled `k` times.
doubled : ℕ → ℕ → ℕ
doubled zero s = s
doubled (suc k) s = doubled k (2 * s)

-- A size that the loop can reach: 0x1000 doubled some number of times.
pub data PageSize : ℕ → Type 0 where
  page : {s : ℕ} → s ≡ 0x1000 → PageSize s
  twice : {s t : ℕ} → PageSize s → t ≡ 2 * s → PageSize t

-- What the loop finds: the least of those sizes that holds the blob.
pub record Fits (blob_size s : ℕ) : Type 0 where
  pub reached : PageSize s
  pub holds : blob_size ≤ s
  pub least : (s ≡ 0x1000) ⊎ (s < 2 * blob_size)

-- One round of the loop.
loop-next :
    (k s t b : ℕ)
    → ltb s b ≡ true
    → (s * 2) % u64_mod ≡ t
    → encl_size_loop (suc k) s b ≡ encl_size_loop k t b
unfolding encl_size_loop
loop-next k s t b more next = rw more (ap (λ x. encl_size_loop k x b) next)

loop-done : (k s b : ℕ) → ltb s b ≡ false → encl_size_loop (suc k) s b ≡ ok s
unfolding encl_size_loop
loop-done k s b done = rw done

loop-Fits :
    (k s blob_size : ℕ)
    → blob_size ≤ 2 ^ 63
    → blob_size ≤ doubled k s
    → PageSize s
    → (s ≡ 0x1000) ⊎ (s < 2 * blob_size)
    → (t : ℕ) × (encl_size_loop (suc k) s blob_size ≡ ok t) × Fits blob_size t
unfolding doubled
loop-Fits zero s b small enough p least = (
  s,
  loop-done zero s b (not_ltb s b enough),
  record { reached = p; holds = enough; least = least },
)
loop-Fits (suc k) s b small enough p least = elim (Bool-cases (ltb s b)) [
  | inr done ↦
      (s, loop-done (suc k) s b done, record { reached = p; holds = ground arith; least = least })
  | inl more ↦
      let lt = ltb→lt s b more in
      let next : (s * 2) % u64_mod ≡ 2 * s = omega arith in
      let rest = loop-Fits k (2 * s) b small enough (twice p refl) (inr (omega arith)) in
      (rest.0, loop-next (suc k) s (2 * s) b more next ∙ rest.1, rest.2)
]

-- Up to 2 ^ 63 the loop ends.
pub encl_size_loop-Fits :
    (blob_size : ℕ)
    → blob_size ≤ 2 ^ 63
    → (s : ℕ) × (encl_size_loop size_rounds 0x1000 blob_size ≡ ok s) × Fits blob_size s
unfolding doubled
encl_size_loop-Fits b small = loop-Fits 63 0x1000 b small (omega arith) (page refl) (inl refl)

le-doubled : (k s : ℕ) → s ≤ doubled k s
unfolding doubled
le-doubled zero s = omega arith
le-doubled (suc k) s = omega (arith, le-doubled k (2 * s))

loop-zero : (k b : ℕ) → 0 < b → encl_size_loop k 0 b ≡ no_return
unfolding encl_size_loop
loop-zero zero b pos = refl
loop-zero (suc k) b pos = rw (lt→ltb 0 b pos) (loop-zero k b pos)

loop-endless : (k j s b : ℕ) → 2 ^ 63 < b → doubled j s ≡ 2 ^ 63 → encl_size_loop k s b ≡ no_return
unfolding encl_size_loop doubled
loop-endless zero j s b large end = refl
loop-endless (suc k) zero s b large end =
    let wraps : (s * 2) % u64_mod ≡ 0 = omega arith in
    rw (lt→ltb s b (omega arith), wraps) (loop-zero k b (omega arith))
loop-endless (suc k) (suc j) s b large end =
    let next : (s * 2) % u64_mod ≡ 2 * s = omega (arith, le-doubled j (2 * s)) in
    rw (lt→ltb s b (omega (arith, le-doubled j (2 * s))), next)
      (loop-endless k j (2 * s) b large end)

-- Above, the doubled size wraps to 0.
encl_size_loop-endless :
    (k blob_size : ℕ) → 2 ^ 63 < blob_size → encl_size_loop k 0x1000 blob_size ≡ no_return
unfolding doubled
encl_size_loop-endless k b large = loop-endless k 51 0x1000 b large refl

-- For a file of at most 2 ^ 63 bytes the loop ends, with the least power of two that is a page or
-- more and holds the file; for a size above that it never ends, since the doubled size wraps to 0.
pub encl_size_loop_lem :
    (blob_size : ℕ)
    → ((blob_size ≤ 2 ^ 63)
        × ((s : ℕ) × (encl_size_loop size_rounds 0x1000 blob_size ≡ ok s) × Fits blob_size s))
      ⊎ ((2 ^ 63 < blob_size) × ((k : ℕ) → encl_size_loop k 0x1000 blob_size ≡ no_return))
encl_size_loop_lem b = elim (dec_le b (2 ^ 63)) [
  | yes small ↦ inl (small, encl_size_loop-Fits b small)
  | no large ↦ inr (omega arith, λ k. encl_size_loop-endless k b (omega arith))
]
