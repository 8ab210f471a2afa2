-- ===== src/LaunchEnclave/Tests.antt =====
-- The launch enclave of dcap-le/main.c on concrete platforms, and its theorems there.
use Prim.Native.Nat.{bit_and}
use pandora_examples.Prelude.{ℕ, ◌≡◌, refl, [], ◌∷◌, ◌++◌, Option, none, some, false, arith}
use pandora_examples.LibC.{Bytes, memcmp}
use pandora_examples.SgxArch.{Report, sgx_attr_reserved_mask}
use pandora_examples.LaunchEnclave.{
  Platform, LaunchRequest, g_service_enclave_mrsigner, zeros, zero_einittoken, sgx_success,
  signer_index, unprivileged, create_einittoken, sign_einittoken, fill_keyid, rdrand_uint32,
  rdrand_tries, seal, masked, answer, deny, encl_body,
}
use pandora_examples.LaunchEnclave.Signers.{IsDigest, Listed, Provisioning}
use pandora_examples.LaunchEnclave.Result.{Serves, Answered, encl_body-Answered}
use pandora_examples.LaunchEnclave.Policy.{Vouched, success-Vouched, no_key-success}

abbrev report : Report
report = record {
  cpusvn = zeros 16;
  miscselect = 0;
  reserved1 = zeros 28;
  attributes = 0x24;
  xfrm = 3;
  mrenclave = zeros 32;
  reserved2 = zeros 32;
  mrsigner = zeros 32;
  reserved3 = zeros 96;
  isvprodid = 0;
  isvsvn = 1;
  reserved4 = zeros 60;
  reportdata = zeros 64;
  keyid = zeros 32;
  mac = zeros 16;
}

-- A platform whose every draw is 7, whose EGETKEY gives `key`, and whose CMAC is constant.
abbrev platform : Option Bytes → Platform
platform key = record {
  rdrand = λ n. some 7;
  sgx_ereport = λ t d. some report;
  sgx_egetkey = λ k. key;
  cmac = λ k b. some (zeros 15 ++ 9 ∷ []);
  result_seen = λ r. r;
}

platform-Serves : (key : Option Bytes) → Serves (platform key)
platform-Serves key = record {
  ready = λ n. (0, omega arith, 7, refl);
  reports = λ i d. (report, refl);
  macs = λ k b. (_, refl);
  quiet = λ r. refl;
}

abbrev good_key : Platform
good_key = platform (some (zeros 16))

abbrev no_key : Platform
no_key = platform none

-- A plain request, and one for the provisioning attribute.
abbrev request : ℕ → LaunchRequest
request attributes = record {
  mrenclave = zeros 32;
  mrsigner = zeros 32;
  attributes = attributes;
  xfrm = 3;
  token = zero_einittoken;
  result = 5;
}

digest : IsDigest (zeros 32)
digest = (refl, omega arith)

-- A stranger's provisioning request is refused.
stranger_refused : encl_body good_key (some (request 0x14)) ≡ some (deny (request 0x14))
unfolding encl_body unprivileged signer_index memcmp
stranger_refused = refl

plain_passes : unprivileged (request 0x4) ≡ false
unfolding unprivileged
plain_passes = refl

success-Vouched_example :
    (Provisioning (request 0x4) → Listed g_service_enclave_mrsigner (zeros 32))
    × (bit_and 0x4 sgx_attr_reserved_mask ≡ 0)
    × Vouched good_key (request 0x4) (answer good_key (request 0x4)).token
unfolding encl_body unprivileged answer create_einittoken sign_einittoken fill_keyid rdrand_uint32
    rdrand_tries seal masked
success-Vouched_example =
    success-Vouched good_key (request 0x4) (answer good_key (request 0x4)) (λ k. (zeros 16, refl))
      (λ r. refl) digest refl refl

encl_body-Answered_example :
    (req' : LaunchRequest) × (encl_body good_key (some (request 0x14)) ≡ some req')
    × Answered (request 0x14) req'.result
encl_body-Answered_example =
    encl_body-Answered good_key (request 0x14) (platform-Serves (some (zeros 16))) digest

no_key-success_example :
    (req' : LaunchRequest) × (encl_body no_key (some (request 0x4)) ≡ some req')
    × (req'.result ≡ sgx_success)
    × (req'.token.payload.valid ≡ 1)
    × (req'.token.mac ≡ zeros 16)
no_key-success_example =
    no_key-success no_key (request 0x4) (platform-Serves none) (λ k. refl) plain_passes refl
