-- ===== src/Inclavare/Defines.antt =====
-- The macros of inclavare/defines.h on sizes. PAGE_SIZE is its users'.
use Prim.Native.Nat.{bit_and}
use pandora_examples.Prelude.{
  ℕ, zero, suc, ◌*◌, ◌-◌, ◌%◌, ◌^◌, ◌≤◌, ◌<◌, ◌≡◌, ◌⊎◌, inl, inr, refl, ap, ◌∙◌, Bool-cases, Option,
  none, some, ltb, if◌then◌else◌,
}
use pandora_examples.Prelude.Words.{u64_mod, add_size, sub_size}
use pandora_examples.SignTool.{Outcome, ok, failed, exited, no_return, undefined, encl_size_loop}
use pandora_examples.SignTool.Measure.{size_rounds}
use pandora_examples.SignTool.EnclaveSize.{Fits, encl_size_loop_lem}

-- `16 * 1024 * 1024`
abbrev pub enclave_guard_area_size : ℕ
enclave_guard_area_size = 16 * 1024 * 1024

-- `for (; __tmp < (sz);) __tmp <<= 1;`, in at most as many rounds as the first argument says
unfoldable pub pow2_loop : ℕ → ℕ → ℕ → Option ℕ
pow2_loop zero tmp sz = none
pow2_loop (suc k) tmp sz =
    let rest = pow2_loop k ((tmp * 2) % u64_mod) sz in if ltb tmp sz then rest else some tmp

unfoldable pub pow2 : ℕ → ℕ → ℕ → Option ℕ
unfolding pow2_loop
pow2 page_size k sz = pow2_loop k page_size sz

-- `((sz) + (a) - 1) & ~((a) - 1)` on uint64_t
unfoldable pub align_up : ℕ → ℕ → ℕ
align_up sz a = bit_and (sub_size (add_size sz a) 1) (u64_mod - 1 - sub_size a 1)

-- What the signing tool's loop finds, if it ends.
abbrev found : Outcome ℕ → Option ℕ
found (ok s) = some s
found failed = none
found exited = none
found no_return = none
found undefined = none

same_loop : (k s b : ℕ) → pow2_loop k s b ≡ found (encl_size_loop k s b)
unfolding encl_size_loop pow2_loop
same_loop zero s b = refl
same_loop (suc k) s b = elim (Bool-cases (ltb s b)) [
  | inl more ↦ rw more (same_loop k ((s * 2) % u64_mod) b)
  | inr done ↦ rw done refl
]

pow2-found : (k p b : ℕ) → pow2 p k b ≡ found (encl_size_loop k p b)
unfolding pow2
pow2-found k p b = same_loop k p b

-- For pages of 4096 bytes pow2 gives the least power of two that is a page or more and holds the
-- size, where that is at most 2 ^ 63, and never ends for one above: it is the loop by which the
-- signing tool measures.
pub pow2_lem :
    (sz : ℕ)
    → ((sz ≤ 2 ^ 63) × ((s : ℕ) × (pow2 0x1000 size_rounds sz ≡ some s) × Fits sz s))
      ⊎ ((2 ^ 63 < sz) × ((k : ℕ) → pow2 0x1000 k sz ≡ none))
pow2_lem sz = elim (encl_size_loop_lem sz) [
  | inl r ↦ inl (r.0, (r.1.0, pow2-found size_rounds 0x1000 sz ∙ ap found r.1.1, r.1.2))
  | inr r ↦ inr (r.0, λ k. pow2-found k 0x1000 sz ∙ ap found (r.1 k))
]
