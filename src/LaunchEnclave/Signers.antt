-- ===== src/LaunchEnclave/Signers.antt =====
-- The search of dcap-le/main.c through the signers of dcap-le/whitelist.h.
use pandora_examples.Prelude.{
  ℕ, zero, suc, ◌+◌, ◌≤◌, ◌≡◌, ◌≢◌, ◌↔◌, ◌⊎◌, inl, inr, refl, ap, sym, ◌∙◌, List, [], ◌∷◌, true,
  false, length, take, All, arith, ==_iff,
}
use native.Mathlib.Decide.{ℕ_discrete}
use pandora_examples.LibC.{Bytes, memcmp}
use pandora_examples.LibC.Compare.{==-ne, IsByte, memcmp_iff}
use pandora_examples.LaunchEnclave.{
  LaunchRequest, g_service_enclave_mrsigner, signer_index, unprivileged, sgx_flags_provision_key,
}
use Prim.Native.Nat.{bit_and}

-- Thirty-two bytes.
abbrev pub IsDigest : Bytes → Type 0
IsDigest d = (length d ≡ 32) × All IsByte d

-- `m` is one of the list.
abbrev pub Listed : List Bytes → Bytes → Type 0
Listed [] m = ⊥
Listed (w ∷ ws) m = (w ≡ m) ⊎ Listed ws m

take_all : (n : ℕ) (xs : Bytes) → length xs ≡ n → take n xs ≡ xs
take_all zero [] h = refl
take_all zero (x ∷ xs) h = absurd (omega arith)
take_all (suc n) [] h = refl
take_all (suc n) (x ∷ xs) h = ap (λ l. x ∷ l) (take_all n xs (omega arith))

memcmp-digest : (w m : Bytes) → IsDigest w → IsDigest m → (memcmp w m 32 ≡ 0) ↔ (w ≡ m)
memcmp-digest w m hw hm =
    let i = memcmp_iff 32 w m (omega arith) (omega arith) hw.1 hm.1 in
    (λ z. sym (take_all 32 w hw.0) ∙ i.0 z ∙ take_all 32 m hm.0, λ e. i.1 (ap (take 32) e))

signer_index-le : (ws : List Bytes) (m : Bytes) (i : ℕ) → i ≤ signer_index ws m i
unfolding signer_index
signer_index-le [] m i = omega arith
signer_index-le (w ∷ ws) m i = ground (arith, signer_index-le ws m (suc i))

-- The search runs off the list exactly where the signer is not on it.
signer_index_iff :
    (ws : List Bytes) (m : Bytes) (i : ℕ)
    → All IsDigest ws
    → IsDigest m
    → (signer_index ws m i ≡ i + length ws) ↔ (Listed ws m → ⊥)
unfolding signer_index
signer_index_iff [] m i hws hm = (λ _ h. h, λ _. omega arith)
signer_index_iff (w ∷ ws) m i hws hm =
    let ih = signer_index_iff ws m (suc i) hws.1 hm in
    let c = memcmp-digest w m hws.0 hm in
    elim (ℕ_discrete (memcmp w m 32) 0) [
      | yes hit ↦
          rw hit (λ off. absurd (omega arith), λ no_listed. absurd (no_listed (inl (c.0 hit))))
      | no miss ↦ rw (==-ne _ 0 miss) (
        λ off h. elim h [ inl e ↦ miss (c.1 e) | inr r ↦ ih.0 (omega arith) r ],
        λ out. ih.1 (λ r. out (inr r)) ∙ omega arith,
      )
    ]

pub true_ne_false : true ≢ false
true_ne_false e = cc

-- The request asks for the provisioning attribute.
abbrev pub Provisioning : LaunchRequest → Type 0
Provisioning req = bit_and req.attributes sgx_flags_provision_key ≢ 0

signers-IsDigest : All IsDigest g_service_enclave_mrsigner
signers-IsDigest = omega arith

-- The enclave refuses for want of privilege exactly where the policy does.
pub unprivileged_iff :
    (req : LaunchRequest)
    → IsDigest req.mrsigner
    → (unprivileged req ≡ true)
      ↔ (Provisioning req × (Listed g_service_enclave_mrsigner req.mrsigner → ⊥))
unfolding unprivileged
unprivileged_iff req digest =
    let i = signer_index_iff g_service_enclave_mrsigner req.mrsigner 0 signers-IsDigest digest in
    elim (ℕ_discrete (bit_and req.attributes sgx_flags_provision_key) 0) [
      | yes plain ↦ rw ((==_iff _ 0).1 plain) (λ e. absurd (cc), λ h. absurd (h.0 plain))
      | no asked ↦
          rw (==-ne _ 0 asked) (λ e. (asked, i.0 ((==_iff _ 3).0 e)), λ h. (==_iff _ 3).1 (i.1 h.1))
    ]

signer_index-Listed :
    (ws : List Bytes) (m : Bytes) (i : ℕ)
    → All IsDigest ws
    → IsDigest m
    → signer_index ws m i ≢ i + length ws
    → Listed ws m
unfolding signer_index
signer_index-Listed [] m i hws hm stopped = absurd (stopped (omega arith))
signer_index-Listed (w ∷ ws) m i hws hm stopped = elim (ℕ_discrete (memcmp w m 32) 0) [
  | yes hit ↦ inl ((memcmp-digest w m hws.0 hm).0 hit)
  | no miss ↦ inr (
      signer_index-Listed ws m (suc i) hws.1 hm
        (λ off. stopped (rw (==-ne _ 0 miss) (off ∙ omega arith))))
]

-- A request that passes the check and asks for the provisioning attribute has a listed signer.
pub privileged-Listed :
    (req : LaunchRequest)
    → IsDigest req.mrsigner
    → unprivileged req ≡ false
    → Provisioning req
    → Listed g_service_enclave_mrsigner req.mrsigner
unfolding unprivileged
privileged-Listed req digest passed asked =
    signer_index-Listed g_service_enclave_mrsigner req.mrsigner 0 signers-IsDigest digest
      λ off. true_ne_false (sym ((==_iff _ 3).1 off) ∙ (rw (==-ne _ 0 asked) at passed))
