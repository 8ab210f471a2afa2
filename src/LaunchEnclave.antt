-- ===== src/LaunchEnclave.antt =====
-- The launch enclave, dcap-le/main.c and main.h, with the signers of dcap-le/whitelist.h. The
-- processor's instructions, the CMAC of dcap-le/cmac.c and the host's part in the request are a
-- `Platform`.
pub mod Random
pub mod Signers
pub mod Result
pub mod Policy
mod Tests
use Prim.Native.Nat.{bit_and}
use pandora_examples.Prelude.{
  ℕ, zero, suc, ◌+◌, ◌*◌, ◌%◌, ◌^◌, Bool, true, false, not, List, [], ◌∷◌, ◌++◌, Option, none, some,
  ◌==◌, if◌then◌else◌, length, drop, replicate,
}
use pandora_examples.Prelude.Encode.{le}
use pandora_examples.LibC.{Bytes, memcmp}
use pandora_examples.SgxArch.{
  EinittokenPayload, Einittoken, Report, Targetinfo, Keyrequest, sgx_attr_reserved_mask,
  payload_bytes,
}

abbrev pub sgx_success : ℕ
sgx_success = 0

abbrev pub sgx_invalid_attribute : ℕ
sgx_invalid_attribute = 2

abbrev pub sgx_invalid_privilege : ℕ
sgx_invalid_privilege = 0x40000002

abbrev pub sgx_unexpected_error : ℕ
sgx_unexpected_error = 0x40000003

abbrev pub sgx_flags_provision_key : ℕ
sgx_flags_provision_key = 0x10

abbrev pub rand_nr_tries : ℕ
rand_nr_tries = 10

-- What the enclave runs on. An operation that reports a failure gives `none`.
pub record Platform : Type 0 where
  -- the `n`th RDRAND
  pub rdrand : ℕ → Option ℕ
  pub sgx_ereport : Targetinfo → Bytes → Option Report
  pub sgx_egetkey : Keyrequest → Option Bytes
  -- mbedtls_cipher_cmac(key, input, ilen, output)
  pub cmac : Bytes → Bytes → Option Bytes
  -- what the request's result reads as after the enclave stored its own there
  pub result_seen : ℕ → ℕ

-- struct sgx_launch_request with its struct sgx_le_output
pub record LaunchRequest : Type 0 where
  pub mrenclave : Bytes
  pub mrsigner : Bytes
  pub attributes : ℕ
  pub xfrm : ℕ
  pub token : Einittoken
  pub result : ℕ

-- The service enclaves' signers: PvE, PCE, and ECDSA/QE.
abbrev pub g_service_enclave_mrsigner : List Bytes
g_service_enclave_mrsigner =
    (0xEC ∷ 0x15 ∷ 0xB1 ∷ 0x07 ∷ 0x87 ∷ 0xD2 ∷ 0xF8 ∷ 0x46 ∷ 0x67 ∷ 0xCE ∷ 0xB0 ∷ 0xB5 ∷ 0x98 ∷ 0xFF
      ∷ 0xC4 ∷ 0x4A ∷ 0x1F ∷ 0x1C ∷ 0xB8 ∷ 0x0F ∷ 0x67 ∷ 0x0A ∷ 0xAE ∷ 0x5D ∷ 0xF9 ∷ 0xE8 ∷ 0xFA
      ∷ 0x9F ∷ 0x63 ∷ 0x76 ∷ 0xE1 ∷ 0xF8 ∷ [])
    ∷ (0xC5 ∷ 0x4A ∷ 0x62 ∷ 0xF2 ∷ 0xBE ∷ 0x9E ∷ 0xF7 ∷ 0x6E ∷ 0xFB ∷ 0x1F ∷ 0x39 ∷ 0x30 ∷ 0xAD
        ∷ 0x81 ∷ 0xEA ∷ 0x7F ∷ 0x60 ∷ 0xDE ∷ 0xFC ∷ 0x1F ∷ 0x5F ∷ 0x25 ∷ 0xE0 ∷ 0x9B ∷ 0x7C ∷ 0x06
        ∷ 0x7A ∷ 0x81 ∷ 0x5A ∷ 0xE0 ∷ 0xC6 ∷ 0xCB ∷ [])
    ∷ (0x8C ∷ 0x4F ∷ 0x57 ∷ 0x75 ∷ 0xD7 ∷ 0x96 ∷ 0x50 ∷ 0x3E ∷ 0x96 ∷ 0x13 ∷ 0x7F ∷ 0x77 ∷ 0xC6
        ∷ 0x8A ∷ 0x82 ∷ 0x9A ∷ 0x00 ∷ 0x56 ∷ 0xAC ∷ 0x8D ∷ 0xED ∷ 0x70 ∷ 0x14 ∷ 0x0B ∷ 0x08 ∷ 0x1B
        ∷ 0x09 ∷ 0x44 ∷ 0x90 ∷ 0xC5 ∷ 0x7B ∷ 0xFF ∷ [])
    ∷ []

abbrev pub zeros : ℕ → Bytes
zeros n = replicate n 0

-- What `memset(&x, 0, sizeof(x))` makes of the structures.
abbrev pub zero_einittoken : Einittoken
zero_einittoken = record {
  payload = record {
    valid = 0;
    reserved1 = zeros 11;
    attributes = 0;
    xfrm = 0;
    mrenclave = zeros 32;
    reserved2 = zeros 32;
    mrsigner = zeros 32;
    reserved3 = zeros 32;
  };
  cpusvnle = zeros 16;
  isvprodidle = 0;
  isvsvnle = 0;
  reserved2 = zeros 24;
  maskedmiscselectle = 0;
  maskedattributesle = 0;
  maskedxfrmle = 0;
  keyid = zeros 32;
  mac = zeros 16;
}

abbrev pub zero_targetinfo : Targetinfo
zero_targetinfo = record {
  mrenclave = zeros 32;
  attributes = 0;
  xfrm = 0;
  reserved1 = zeros 4;
  miscselect = 0;
  reserved2 = zeros 456;
}

-- `keyname` 0 is LICENSE_KEY, and the attribute mask is `~SGX_ATTR_MODE64BIT`.
pub keyrequest_of : Einittoken → Keyrequest
keyrequest_of t = record {
  keyname = 0;
  keypolicy = 0;
  isvsvn = t.isvsvnle;
  reserved1 = 0;
  cpusvn = t.cpusvnle;
  attributemask = 0xFFFFFFFFFFFFFFFB;
  xfrmmask = 0;
  keyid = t.keyid;
  miscmask = 0xFFFFFFFF;
  reserved2 = zeros 436;
}

-- The masks of the key request, applied to the token.
pub masked : Keyrequest → Einittoken → Einittoken
masked k t = record t {
  maskedmiscselectle = bit_and t.maskedmiscselectle k.miscmask;
  maskedattributesle = bit_and t.maskedattributesle k.attributemask;
  maskedxfrmle = bit_and t.maskedxfrmle k.xfrmmask;
}

-- The token as it goes to sign_einittoken.
pub fresh_einittoken : LaunchRequest → Report → Einittoken
fresh_einittoken req report = record zero_einittoken {
  payload = record {
    valid = 1;
    reserved1 = zeros 11;
    attributes = req.attributes;
    xfrm = req.xfrm;
    mrenclave = req.mrenclave;
    reserved2 = zeros 32;
    mrsigner = req.mrsigner;
    reserved3 = zeros 32;
  };
  cpusvnle = report.cpusvn;
  isvsvnle = report.isvsvn;
  isvprodidle = report.isvprodid;
  maskedattributesle = report.attributes;
  maskedxfrmle = report.xfrm;
  maskedmiscselectle = report.miscselect;
}

-- The index at which the search for `mrsigner` stops, from index `i` on.
pub signer_index : List Bytes → Bytes → ℕ → ℕ
signer_index [] mrsigner i = i
signer_index (w ∷ ws) mrsigner i =
    let rest = signer_index ws mrsigner (suc i) in if memcmp w mrsigner 32 == 0 then i else rest

-- The request has the provisioning attribute and its signer is not on the list.
pub unprivileged : LaunchRequest → Bool
unprivileged req =
    if bit_and req.attributes sgx_flags_provision_key == 0
    then false
    else signer_index g_service_enclave_mrsigner req.mrsigner 0 == length g_service_enclave_mrsigner

-- `output.token.payload.valid = 0; output.result = SGX_INVALID_PRIVILEGE;`
pub deny : LaunchRequest → LaunchRequest
deny req = record req {
  token = record req.token { payload = record req.token.payload { valid = 0 } };
  result = sgx_invalid_privilege;
}

module _ (p : Platform) where
  -- The loop of rdrand_uint32 with `k` tries to go, at the `n`th draw: the value if one comes, and
  -- the next draw.
  pub rdrand_tries : ℕ → ℕ → Option ℕ × ℕ
  rdrand_tries zero n = (none, n)
  rdrand_tries (suc k) n = elim (p.rdrand n) [
    | some v ↦ (some (v % 2 ^ 32), suc n)
    | none ↦ rdrand_tries k (suc n)
  ]

  pub rdrand_uint32 : ℕ → Option ℕ × ℕ
  rdrand_uint32 n = rdrand_tries rand_nr_tries n

  -- The loop that fills `keyid`, with `k` words to go: whether all came, what the rest of `keyid`
  -- holds then, and the next draw. A draw that fails leaves 0 in its word.
  pub fill_keyid : ℕ → Bytes → ℕ → Bool × Bytes × ℕ
  fill_keyid zero old n = (true, old, n)
  fill_keyid (suc k) old n =
      let (drawn, n') = rdrand_uint32 n in
      let (done, rest, n'') = fill_keyid k (drop 4 old) n' in
      elim drawn [ some v ↦ (done, le 4 v ++ rest, n'') | none ↦ (false, le 4 0 ++ drop 4 old, n') ]

  -- The part of sign_einittoken behind the key request. A failure of EGETKEY is answered with
  -- `return false`, which is the number of SGX_SUCCESS.
  pub seal : Keyrequest → Einittoken → ℕ × Einittoken
  seal k t = elim (p.sgx_egetkey k) [
    | none ↦ (0, t)
    | some key ↦ elim (p.cmac key (payload_bytes t.payload)) [
      | none ↦ (sgx_unexpected_error, t)
      | some mac ↦ (sgx_success, record t { mac = mac })
    ]
  ]

  pub sign_einittoken : Einittoken → ℕ × Einittoken
  sign_einittoken t =
      let (done, keyid, n) = fill_keyid 8 t.keyid 0 in
      let t' = record t { keyid = keyid } in
      let k = keyrequest_of t' in if done then seal k (masked k t') else (sgx_unexpected_error, t')

  pub create_einittoken : LaunchRequest → Einittoken → ℕ × Einittoken
  create_einittoken req t =
      if bit_and req.attributes sgx_attr_reserved_mask == 0
      then elim (p.sgx_ereport zero_targetinfo (zeros 64)) [
        | none ↦ (sgx_unexpected_error, t)
        | some report ↦ sign_einittoken (fresh_einittoken req report)
      ]
      else (sgx_invalid_attribute, t)

  -- The token is copied out where the result, read back from the request, is SGX_SUCCESS.
  pub answer : LaunchRequest → LaunchRequest
  answer req =
      let (r, t) = create_einittoken req zero_einittoken in
      if p.result_seen r == sgx_success
      then record req { token = t; result = r }
      else record req { result = r }

  -- A null request is left alone.
  pub encl_body : Option LaunchRequest → Option LaunchRequest
  encl_body none = none
  encl_body (some req) = some (if unprivileged req then deny req else answer req)
