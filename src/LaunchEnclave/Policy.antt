-- ===== src/LaunchEnclave/Policy.antt =====
-- What a token that encl_body of dcap-le/main.c gives out vouches for, and when it vouches for
-- nothing.
use Prim.Native.Nat.{bit_and}
use pandora_examples.Prelude.{
  ℕ, ◌≡◌, inl, inr, refl, ap, subst, sym, ◌∙◌, true, false, none, some, arith, ◌==◌, Bool-cases,
  Option-cases, some_eq, length, ==_iff,
}
use pandora_examples.LibC.{Bytes}
use pandora_examples.SgxArch.{
  EinittokenPayload, Einittoken, Keyrequest, sgx_attr_reserved_mask, payload_bytes,
}
use pandora_examples.LaunchEnclave.{
  Platform, LaunchRequest, keyrequest_of, masked, seal, fill_keyid, sign_einittoken,
  fresh_einittoken, create_einittoken, unprivileged, answer, encl_body, deny, zeros,
  zero_targetinfo, zero_einittoken, g_service_enclave_mrsigner, sgx_success, sgx_unexpected_error,
}
use pandora_examples.LaunchEnclave.Random.{fill_keyid-ready}
use pandora_examples.LaunchEnclave.Signers.{
  IsDigest, Listed, Provisioning, privileged-Listed, true_ne_false,
}
use pandora_examples.LaunchEnclave.Result.{Serves}

-- The token carries the MAC of its payload under the launch key of some key request, and the
-- payload is the request's.
pub record Vouched (p : Platform) (req : LaunchRequest) (t : Einittoken) : Type 0 where
  pub request : Keyrequest
  pub key : Bytes
  pub launch_key : p.sgx_egetkey request ≡ some key
  pub sealed : p.cmac key (payload_bytes t.payload) ≡ some t.mac
  pub license : request.keyname ≡ 0
  pub token_keyid : request.keyid ≡ t.keyid
  pub payload_attributes : t.payload.attributes ≡ req.attributes
  pub payload_xfrm : t.payload.xfrm ≡ req.xfrm
  pub payload_mrenclave : t.payload.mrenclave ≡ req.mrenclave
  pub payload_mrsigner : t.payload.mrsigner ≡ req.mrsigner
  pub payload_valid : t.payload.valid ≡ 1

-- The payload of a token is that of the request.
abbrev Matches : LaunchRequest → Einittoken → Type 0
Matches req t =
    (t.payload.attributes ≡ req.attributes)
    × (t.payload.xfrm ≡ req.xfrm)
    × (t.payload.mrenclave ≡ req.mrenclave)
    × (t.payload.mrsigner ≡ req.mrsigner)
    × (t.payload.valid ≡ 1)

zero_ne_privilege : ◌≡◌ {A = ℕ} 0 0x40000002 → ⊥
zero_ne_privilege e = absurd (omega arith)

seal-no_key :
    (p : Platform) (k : Keyrequest) (t : Einittoken)
    → p.sgx_egetkey k ≡ none
    → seal p k t ≡ (sgx_success, t)
unfolding seal
seal-no_key p k t failed = rw (failed, seal)

seal-no_mac :
    (p : Platform) (k : Keyrequest) (t : Einittoken) (key : Bytes)
    → p.sgx_egetkey k ≡ some key
    → p.cmac key (payload_bytes t.payload) ≡ none
    → seal p k t ≡ (sgx_unexpected_error, t)
unfolding seal
seal-no_mac p k t key got failed = rw (got, failed, seal)

seal-mac :
    (p : Platform) (k : Keyrequest) (t : Einittoken) (key mac : Bytes)
    → p.sgx_egetkey k ≡ some key
    → p.cmac key (payload_bytes t.payload) ≡ some mac
    → seal p k t ≡ (sgx_success, record t { mac = mac })
unfolding seal
seal-mac p k t key mac got made = rw (got, made, seal)

module _ (p : Platform)
    (keys : (k : Keyrequest) → (key : Bytes) × (p.sgx_egetkey k ≡ some key)) where
  -- An answer that is a success holds a token that vouches for the request.
  Good : LaunchRequest → ℕ × Einittoken → Type 0
  Good req a = a.0 ≡ sgx_success → Vouched p req a.1

  seal-Vouched :
      (req : LaunchRequest) (k : Keyrequest) (t : Einittoken)
      → Matches req t
      → k.keyname ≡ 0
      → k.keyid ≡ t.keyid
      → Good req (seal p k t)
  unfolding Good
  seal-Vouched req k t m name id =
      let key = keys k in
      elim (Option-cases (p.cmac key.0 (payload_bytes t.payload))) [
        | inl failed ↦ rw (seal-no_mac p k t key.0 key.1 failed) (λ e. absurd (omega arith))
        | inr (mac, got) ↦ rw (seal-mac p k t key.0 mac key.1 got) (λ e. record {
          request = k;
          key = key.0;
          launch_key = key.1;
          sealed = got;
          license = name;
          token_keyid = id;
          payload_attributes = m.0;
          payload_xfrm = m.1;
          payload_mrenclave = m.2;
          payload_mrsigner = m.3;
          payload_valid = m.4;
        })
      ]

  sign-Vouched :
      (req : LaunchRequest) (t : Einittoken) → Matches req t → Good req (sign_einittoken p t)
  unfolding sign_einittoken Good masked keyrequest_of
  sign-Vouched req t m = elim (Bool-cases (fill_keyid p 8 t.keyid 0).0) [
    | inl done ↦ rw (done, sign_einittoken) (seal-Vouched req _ _ m refl refl)
    | inr stopped ↦ rw (stopped, sign_einittoken) (λ e. absurd (omega arith))
  ]

  create-Vouched :
      (req : LaunchRequest)
      → (create_einittoken p req zero_einittoken).0 ≡ sgx_success
      → (bit_and req.attributes sgx_attr_reserved_mask ≡ 0)
        × Vouched p req (create_einittoken p req zero_einittoken).1
  unfolding create_einittoken fresh_einittoken Good
  create-Vouched req = elim (Bool-cases (bit_and req.attributes sgx_attr_reserved_mask == 0)) [
    | inr bad ↦ rw bad (λ e. absurd (omega arith))
    | inl clean ↦ elim (Option-cases (p.sgx_ereport zero_targetinfo (zeros 64))) [
      | inl failed ↦ rw (clean, failed) (λ e. absurd (omega arith))
      | inr (report, made) ↦
          rw (clean, made)
            (λ e. (
              (==_iff _ 0).0 clean,
              sign-Vouched req (fresh_einittoken req report) (refl, refl, refl, refl, refl) e,
            ))
    ]
  ]

  answer-Vouched :
      (req : LaunchRequest)
      → ((r : ℕ) → p.result_seen r ≡ r)
      → (answer p req).result ≡ sgx_success
      → (bit_and req.attributes sgx_attr_reserved_mask ≡ 0) × Vouched p req (answer p req).token
  unfolding answer
  answer-Vouched req quiet =
      let a = create_einittoken p req zero_einittoken in
      rw (quiet a.0) (elim (Bool-cases (a.0 == sgx_success)) [
        | inl done ↦ rw done (create-Vouched req)
        | inr refused ↦ rw refused (λ e. absurd (true_ne_false (sym ((==_iff _ 0).1 e) ∙ refused)))
      ])

encl_body-refused :
    (p : Platform) (req : LaunchRequest)
    → unprivileged req ≡ true
    → encl_body p (some req) ≡ some (deny req)
unfolding encl_body
encl_body-refused p req refused = rw refused

encl_body-passed :
    (p : Platform) (req : LaunchRequest)
    → unprivileged req ≡ false
    → encl_body p (some req) ≡ some (answer p req)
unfolding encl_body
encl_body-passed p req passed = rw passed

-- Where EGETKEY always gives a key and the host leaves the result alone, each token that the
-- enclave answers with success obeys the launch policy and vouches for its request: a provisioning
-- request comes from a listed signer, no reserved attribute is set, the token's payload is the
-- request's, and its MAC is the CMAC of that payload under a license key.
pub success-Vouched :
    (p : Platform) (req req' : LaunchRequest)
    → ((k : Keyrequest) → (key : Bytes) × (p.sgx_egetkey k ≡ some key))
    → ((r : ℕ) → p.result_seen r ≡ r)
    → IsDigest req.mrsigner
    → encl_body p (some req) ≡ some req'
    → req'.result ≡ sgx_success
    → (Provisioning req → Listed g_service_enclave_mrsigner req.mrsigner)
      × (bit_and req.attributes sgx_attr_reserved_mask ≡ 0)
      × Vouched p req req'.token
unfolding deny
success-Vouched p req req' keys quiet digest ran done =
    let result = λ (r : LaunchRequest). r.result in
    elim (Bool-cases (unprivileged req)) [
      | inl refused ↦
          let e = some_eq (deny req) req' (sym (encl_body-refused p req refused) ∙ ran) in
          absurd (zero_ne_privilege (sym done ∙ sym (ap result e)))
      | inr passed ↦
          let e = some_eq (answer p req) req' (sym (encl_body-passed p req passed) ∙ ran) in
          let v = answer-Vouched p keys req quiet (ap result e ∙ done) in
          (
            privileged-Listed req digest passed,
            v.0,
            subst (λ (r : LaunchRequest). Vouched p req r.token) e v.1,
          )
    ]

module _ (p : Platform) (s : Serves p) (no_keys : (k : Keyrequest) → p.sgx_egetkey k ≡ none) where
  sign-no_key :
      (t : Einittoken)
      → length t.keyid ≡ 32
      → (t' : Einittoken) × (sign_einittoken p t ≡ (sgx_success, t'))
        × (t'.payload ≡ t.payload)
        × (t'.mac ≡ t.mac)
  unfolding sign_einittoken masked
  sign-no_key t size =
      let t' = record t { keyid = (fill_keyid p 8 t.keyid 0).1 } in
      let k = keyrequest_of t' in
      (
        masked k t',
        rw ((fill_keyid-ready p 8 0 t.keyid s.ready size).0, sign_einittoken)
            (seal-no_key p k (masked k t') (no_keys k)),
        refl,
        refl,
      )

  create-no_key :
      (req : LaunchRequest)
      → bit_and req.attributes sgx_attr_reserved_mask ≡ 0
      → (t : Einittoken) × (create_einittoken p req zero_einittoken ≡ (sgx_success, t))
        × (t.payload.valid ≡ 1)
        × (t.mac ≡ zeros 16)
  unfolding create_einittoken fresh_einittoken
  create-no_key req clean =
      let report = s.reports zero_targetinfo (zeros 64) in
      let sealed = sign-no_key (fresh_einittoken req report.0) refl in
      (
        sealed.0,
        rw ((==_iff _ 0).1 clean, report.1) sealed.1,
        ap (λ (x : EinittokenPayload). x.valid) sealed.2,
        sealed.3,
      )

  answer-no_key :
      (req : LaunchRequest) (t : Einittoken)
      → create_einittoken p req zero_einittoken ≡ (sgx_success, t)
      → answer p req ≡ record req { token = t; result = sgx_success }
  unfolding answer
  answer-no_key req t made = rw (made, s.quiet sgx_success)

-- A failure of EGETKEY goes unnoticed: on a platform that otherwise serves, each request that the
-- policy allows is answered with SGX_SUCCESS and a token that is marked valid and whose MAC is
-- sixteen zeros.
pub no_key-success :
    (p : Platform) (req : LaunchRequest)
    → Serves p
    → ((k : Keyrequest) → p.sgx_egetkey k ≡ none)
    → unprivileged req ≡ false
    → bit_and req.attributes sgx_attr_reserved_mask ≡ 0
    → (req' : LaunchRequest) × (encl_body p (some req) ≡ some req')
      × (req'.result ≡ sgx_success)
      × (req'.token.payload.valid ≡ 1)
      × (req'.token.mac ≡ zeros 16)
no_key-success p req s no_keys passed clean =
    let made = create-no_key p s no_keys req clean in
    (
      record req { token = made.0; result = sgx_success },
      encl_body-passed p req passed ∙ ap some (answer-no_key p s no_keys req made.0 made.1),
      refl,
      made.2,
      made.3,
    )
