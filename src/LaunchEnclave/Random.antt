-- ===== src/LaunchEnclave/Random.antt =====
-- The random key identifier of dcap-le/main.c.
use pandora_examples.Prelude.{
  ℕ, zero, suc, ◌+◌, ◌*◌, ◌%◌, ◌^◌, ◌<◌, ◌≡◌, ◌≢◌, ◌-◌, sym, inl, inr, Option-cases, refl, ap, ◌∙◌,
  true, Option, none, some, length, drop, length-drop, arith,
}
use pandora_examples.Prelude.Encode.{sizes}
use pandora_examples.LibC.{Bytes}
use pandora_examples.LaunchEnclave.{Platform, rdrand_tries, rdrand_uint32, fill_keyid}

none_ne_some : (v : ℕ) → ◌≡◌ {A = Option ℕ} none (some v) → ⊥
none_ne_some v e = cc

module _ (p : Platform) where
  -- Of every ten draws in a row, one gives a value.
  abbrev pub Ready : Type 0
  Ready = (n : ℕ) → (j : ℕ) × (j < 10) × (v : ℕ) × (p.rdrand (n + j) ≡ some v)

  rdrand_tries-next :
      (k n : ℕ) → p.rdrand n ≡ none → rdrand_tries p (suc k) n ≡ rdrand_tries p k (suc n)
  unfolding rdrand_tries
  rdrand_tries-next k n failed = rw (failed, rdrand_tries)

  rdrand_tries-some :
      (k n j v : ℕ)
      → j < k
      → p.rdrand (n + j) ≡ some v
      → (w : ℕ) × (m : ℕ) × (rdrand_tries p k n ≡ (some w, m))
  unfolding rdrand_tries
  rdrand_tries-some zero n j v lt e = absurd (omega arith)
  rdrand_tries-some (suc k) n j v lt e = elim (Option-cases (p.rdrand n)) [
    | inr (w, drawn) ↦ (w % 2 ^ 32, suc n, rw (drawn, rdrand_tries))
    | inl failed ↦
        let later : j ≢ 0 = λ z. none_ne_some v (sym failed ∙ ap p.rdrand (omega arith) ∙ e) in
        let rest =
          rdrand_tries-some k (suc n) (j - 1) v (omega arith) (ap p.rdrand (omega arith) ∙ e) in
        (rest.0, rest.1, rdrand_tries-next k n failed ∙ rest.2)
  ]

  rdrand_uint32-some : Ready → (n : ℕ) → (w : ℕ) × ((rdrand_uint32 p n).0 ≡ some w)
  unfolding rdrand_uint32
  rdrand_uint32-some ready n =
      let r = ready n in
      let d = rdrand_tries-some 10 n r.0 r.2 r.1 r.3 in (d.0, ap (λ (t : Option ℕ × ℕ). t.0) d.2)

  -- With a ready generator the loop fills the identifier.
  pub fill_keyid-ready :
      (k n : ℕ) (old : Bytes)
      → Ready
      → length old ≡ 4 * k
      → ((fill_keyid p k old n).0 ≡ true) × (length (fill_keyid p k old n).1 ≡ 4 * k)
  unfolding fill_keyid
  fill_keyid-ready zero n old ready size = (refl, size)
  fill_keyid-ready (suc k) n old ready size =
      let d = rdrand_uint32-some ready n in
      let rest =
        fill_keyid-ready k (rdrand_uint32 p n).1 (drop 4 old) ready
          (omega (arith, length-drop 4 old)) in
      rw (d.1, fill_keyid) (rest.0, omega (sizes, rest.1))
