-- ===== src/SgxArch/Layout.antt =====
-- The sizes of the structures of dcap-le/include/asm/sgx_arch.h, and what their bytes determine.
use pandora_examples.Prelude.{◌^◌, ◌<◌, ◌≡◌, length}
use pandora_examples.Prelude.Encode.{le, les, sizes, append-injective, le4-injective, le8-injective}
use pandora_examples.SgxArch.{
  EinittokenPayload, Einittoken, SigstructHeader, SigstructBody, Sigstruct, payload_bytes,
  einittoken_bytes, header_bytes, body_bytes, sigstruct_bytes,
}

-- The arrays have their declared sizes.
pub record IsPayload (p : EinittokenPayload) : Type 0 where
  pub reserved1_size : length p.reserved1 ≡ 11
  pub mrenclave_size : length p.mrenclave ≡ 32
  pub reserved2_size : length p.reserved2 ≡ 32
  pub mrsigner_size : length p.mrsigner ≡ 32
  pub reserved3_size : length p.reserved3 ≡ 32

pub record IsEinittoken (t : Einittoken) : Type 0 where
  pub payload_sizes : IsPayload t.payload
  pub cpusvnle_size : length t.cpusvnle ≡ 16
  pub reserved2_size : length t.reserved2 ≡ 24
  pub keyid_size : length t.keyid ≡ 32
  pub mac_size : length t.mac ≡ 16

pub record IsHeader (h : SigstructHeader) : Type 0 where
  pub header1_size : length h.header1 ≡ 2
  pub header2_size : length h.header2 ≡ 2
  pub reserved1_size : length h.reserved1 ≡ 84

pub record IsBody (b : SigstructBody) : Type 0 where
  pub reserved2_size : length b.reserved2 ≡ 4
  pub isvfamilyid_size : length b.isvfamilyid ≡ 16
  pub mrenclave_size : length b.mrenclave ≡ 32
  pub reserved3_size : length b.reserved3 ≡ 16
  pub isvextprodid_size : length b.isvextprodid ≡ 16

pub record IsSigstruct (s : Sigstruct) : Type 0 where
  pub header_sizes : IsHeader s.header
  pub modulus_size : length s.modulus ≡ 384
  pub signature_size : length s.signature ≡ 384
  pub body_sizes : IsBody s.body
  pub reserved4_size : length s.reserved4 ≡ 12
  pub q1_size : length s.q1 ≡ 384
  pub q2_size : length s.q2 ≡ 384

pub length-payload_bytes : (p : EinittokenPayload) → IsPayload p → length (payload_bytes p) ≡ 192
unfolding payload_bytes
length-payload_bytes p w = omega sizes

pub length-header_bytes : (h : SigstructHeader) → IsHeader h → length (header_bytes h) ≡ 128
unfolding header_bytes
length-header_bytes h w = omega sizes

pub length-body_bytes : (b : SigstructBody) → IsBody b → length (body_bytes b) ≡ 128
unfolding body_bytes
length-body_bytes b w = omega sizes

length-einittoken_bytes : (t : Einittoken) → IsEinittoken t → length (einittoken_bytes t) ≡ 304
unfolding einittoken_bytes
length-einittoken_bytes t w = omega (sizes, length-payload_bytes t.payload w.payload_sizes)

length-sigstruct_bytes : (s : Sigstruct) → IsSigstruct s → length (sigstruct_bytes s) ≡ 1808
unfolding sigstruct_bytes
length-sigstruct_bytes s w =
    omega
      (sizes, length-header_bytes s.header w.header_sizes, length-body_bytes s.body w.body_sizes)

-- The numbers of a payload fit their fields.
pub record InRange (p : EinittokenPayload) : Type 0 where
  pub valid_range : p.valid < 2 ^ 32
  pub attributes_range : p.attributes < 2 ^ 64
  pub xfrm_range : p.xfrm < 2 ^ 64

-- The bytes of a payload, which its MAC is computed over, determine all that a launch decision
-- rests on: two payloads with the same bytes agree on the valid flag, the attributes, the extended
-- features, the enclave's measurement and its signer.
pub payload_bytes-injective :
    (p q : EinittokenPayload)
    → IsPayload p
    → IsPayload q
    → InRange p
    → InRange q
    → payload_bytes p ≡ payload_bytes q
    → (p.valid ≡ q.valid)
      × (p.attributes ≡ q.attributes)
      × (p.xfrm ≡ q.xfrm)
      × (p.mrenclave ≡ q.mrenclave)
      × (p.mrsigner ≡ q.mrsigner)
unfolding payload_bytes
payload_bytes-injective p q wp wq rp rq e =
    let a = append-injective (le 4 p.valid) (le 4 q.valid) (omega sizes) e in
    let b = append-injective (les 4 p.reserved1) (les 4 q.reserved1) (omega sizes) a.1 in
    let c = append-injective (le 8 p.attributes) (le 8 q.attributes) (omega sizes) b.1 in
    let d = append-injective (le 8 p.xfrm) (le 8 q.xfrm) (omega sizes) c.1 in
    let f = append-injective p.mrenclave q.mrenclave (omega sizes) d.1 in
    let g = append-injective p.reserved2 q.reserved2 (omega sizes) f.1 in
    let h = append-injective p.mrsigner q.mrsigner (omega sizes) g.1 in
    (
      le4-injective p.valid q.valid rp.valid_range rq.valid_range a.0,
      le8-injective p.attributes q.attributes rp.attributes_range rq.attributes_range c.0,
      le8-injective p.xfrm q.xfrm rp.xfrm_range rq.xfrm_range d.0,
      f.0,
      h.0,
    )

-- A token takes 304 bytes and a signature structure 1808, as the processor's EINIT expects.
pub length-einittoken_bytes-sigstruct_bytes :
    (t : Einittoken) (s : Sigstruct)
    → IsEinittoken t
    → IsSigstruct s
    → (length (einittoken_bytes t) ≡ 304) × (length (sigstruct_bytes s) ≡ 1808)
length-einittoken_bytes-sigstruct_bytes t s wt ws =
    (length-einittoken_bytes t wt, length-sigstruct_bytes s ws)
