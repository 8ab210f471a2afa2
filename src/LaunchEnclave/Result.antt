-- ===== src/LaunchEnclave/Result.antt =====
-- The result codes of encl_body of dcap-le/main.c.
use Prim.Native.Nat.{bit_and}
use pandora_examples.Prelude.{
  ℕ, ◌≡◌, ◌≢◌, inl, inr, refl, sym, ◌∙◌, some, ◌==◌, if◌then◌else◌, Bool-cases, Option-cases,
  ==_iff, length,
}
use pandora_examples.LibC.{Bytes}
use pandora_examples.LibC.Compare.{==-ne}
use pandora_examples.SgxArch.{
  Einittoken, Report, Targetinfo, Keyrequest, sgx_attr_reserved_mask, payload_bytes,
}
use pandora_examples.LaunchEnclave.{
  Platform, LaunchRequest, seal, sign_einittoken, fresh_einittoken, create_einittoken, unprivileged,
  answer, encl_body, deny, zeros, zero_targetinfo, zero_einittoken, g_service_enclave_mrsigner,
  sgx_success, sgx_invalid_attribute, sgx_invalid_privilege,
}
use pandora_examples.LaunchEnclave.Random.{Ready, fill_keyid-ready}
use pandora_examples.LaunchEnclave.Signers.{
  IsDigest, Listed, Provisioning, unprivileged_iff, true_ne_false,
}

-- A platform that serves: the generator is ready, EREPORT and the CMAC succeed, and the host leaves
-- the result alone. (Nothing is said of EGETKEY.)
pub record Serves (p : Platform) : Type 0 where
  pub ready : Ready p
  pub reports : (i : Targetinfo) (d : Bytes) → (r : Report) × (p.sgx_ereport i d ≡ some r)
  pub macs : (k b : Bytes) → (m : Bytes) × (p.cmac k b ≡ some m)
  pub quiet : (r : ℕ) → p.result_seen r ≡ r

module _ (p : Platform) (s : Serves p) where
  seal-success : (k : Keyrequest) (t : Einittoken) → (seal p k t).0 ≡ sgx_success
  unfolding seal
  seal-success k t = elim (Option-cases (p.sgx_egetkey k)) [
    | inl failed ↦ rw (failed, seal)
    | inr (key, got) ↦ rw (got, (s.macs key (payload_bytes t.payload)).1, seal)
  ]

  sign-success : (t : Einittoken) → length t.keyid ≡ 32 → (sign_einittoken p t).0 ≡ sgx_success
  unfolding sign_einittoken
  sign-success t size =
      rw ((fill_keyid-ready p 8 0 t.keyid s.ready size).0, sign_einittoken) (seal-success _ _)

  create-result :
      (req : LaunchRequest)
      → (create_einittoken p req zero_einittoken).0 ≡ (
          if bit_and req.attributes sgx_attr_reserved_mask == 0
          then sgx_success
          else sgx_invalid_attribute)
  unfolding create_einittoken fresh_einittoken
  create-result req =
      let report = s.reports zero_targetinfo (zeros 64) in
      elim (Bool-cases (bit_and req.attributes sgx_attr_reserved_mask == 0)) [
        | inl clean ↦ rw (clean, report.1) (sign-success (fresh_einittoken req report.0) refl)
        | inr bad ↦ rw bad
      ]

  answer-result :
      (req : LaunchRequest)
      → (answer p req).result ≡ (
          if bit_and req.attributes sgx_attr_reserved_mask == 0
          then sgx_success
          else sgx_invalid_attribute)
  unfolding answer
  answer-result req =
      elim (Bool-cases (p.result_seen (create_einittoken p req zero_einittoken).0 == sgx_success)) [
        | inl copied ↦ rw copied (create-result req)
        | inr kept ↦ rw kept (create-result req)
      ]

-- The policy that the enclave is to enforce: no provisioning attribute for a signer off the list.
abbrev pub Denied : LaunchRequest → Type 0
Denied req = Provisioning req × (Listed g_service_enclave_mrsigner req.mrsigner → ⊥)

-- The result that the policy and the attributes call for.
pub record Answered (req : LaunchRequest) (result : ℕ) : Type 0 where
  pub denied : Denied req → result ≡ sgx_invalid_privilege
  pub invalid :
      (Denied req → ⊥)
      → bit_and req.attributes sgx_attr_reserved_mask ≢ 0
      → result ≡ sgx_invalid_attribute
  pub granted :
      (Denied req → ⊥) → bit_and req.attributes sgx_attr_reserved_mask ≡ 0 → result ≡ sgx_success

-- On a platform that serves, the enclave answers each request with the code that the policy calls
-- for: SGX_INVALID_PRIVILEGE for a provisioning request whose signer is not listed, otherwise
-- SGX_INVALID_ATTRIBUTE if a reserved attribute is set, and SGX_SUCCESS if none is.
pub encl_body-Answered :
    (p : Platform) (req : LaunchRequest)
    → Serves p
    → IsDigest req.mrsigner
    → (req' : LaunchRequest) × (encl_body p (some req) ≡ some req') × Answered req req'.result
unfolding encl_body deny
encl_body-Answered p req s digest =
    let u = unprivileged_iff req digest in
    elim (Bool-cases (unprivileged req)) [
      | inl refused ↦ (
        deny req,
        rw refused,
        record {
          denied = λ d. refl;
          invalid = λ ok. absurd (ok (u.0 refused));
          granted = λ ok. absurd (ok (u.0 refused));
        },
      )
      | inr passed ↦ (
        answer p req,
        rw passed,
        record {
          denied = λ d. absurd (true_ne_false (sym (u.1 d) ∙ passed));
          invalid = λ ok bad. answer-result p s req ∙ rw (==-ne _ 0 bad);
          granted = λ ok clean. answer-result p s req ∙ rw ((==_iff _ 0).1 clean);
        },
      )
    ]
