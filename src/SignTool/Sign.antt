-- ===== src/SignTool/Sign.antt =====
-- The commands of dcap-le/sgxsign.c. Its files are found by their paths, and what a command saves is
-- its result.
use Prim.Native.Nat.{bit_or}
use pandora_examples.Prelude.{
  ℕ, zero, suc, ◌+◌, ◌-◌, Bool, not, ◌&&◌, List, [], ◌∷◌, ◌++◌, Option, none, some, ltb, ◌==◌,
  if◌then◌else◌, length, get_or, set, take, drop, replicate,
}
use pandora_examples.Prelude.Options.{GetOpt}
use pandora_examples.LibC.{Bytes, strcmp}
use pandora_examples.SgxArch.{
  Sigstruct, SigstructPayload, sigstruct_bytes, sigstruct_payload_bytes, sgx_modulus_size,
  sgx_attr_mode64bit, sgx_attr_einittokenkey,
}
use pandora_examples.SignTool.{Outcome, ok, failed, exited, undefined, ◌>>=◌, Crypto, File}
use pandora_examples.SignTool.Measure.{measure_encl}

-- What OpenSSL does for the commands, besides digests. A big number is its value.
pub record OpenSsl (Key : Type 0) : Type 0 where
  -- whether errors are queued at the start
  pub errors : Bool
  -- PEM_read_RSAPrivateKey with the tool's pass phrase, and PEM_read_RSA_PUBKEY
  pub read_private_key : Bytes → Option Key
  pub read_public_key : Bytes → Option Key
  pub key_modulus : Key → ℕ
  pub sha256 : Bytes → Bytes
  -- RSA_sign of a digest
  pub rsa_sign : Key → Bytes → Option Bytes
  -- whether BN_CTX_new, BN_new and BN_bin2bn find memory
  pub bn_alloc : Bool
  pub bn_bin2bn : Bytes → ℕ
  pub bn_bn2bin : ℕ → Bytes
  pub bn_num_bytes : ℕ → ℕ
  pub bn_mul : ℕ → ℕ → Option ℕ
  pub bn_div : ℕ → ℕ → Option (ℕ × ℕ)

-- The files that the tool reads, and where it may write.
pub record Disk : Type 0 where
  pub file : Bytes → File
  pub writable : Bytes → Bool

-- A file that the tool saves: its path and its bytes.
abbrev pub Saved : Type 0
Saved = Bytes × Bytes

-- A library call that reports a failure.
abbrev pub checked_call : {A : Type 0} → Option A → Outcome A
checked_call none = failed
checked_call (some a) = ok a

-- `src` written into `dest` at `offset`.
abbrev pub place : ℕ → Bytes → Bytes → Bytes
place offset src dest = take offset dest ++ (src ++ drop (offset + length src) dest)

-- The loop of reverse_bytes, with `k` rounds at most.
unfoldable pub reverse_loop : ℕ → ℕ → ℕ → Bytes → Bytes
reverse_loop zero i j b = b
reverse_loop (suc k) i j b =
    let rest = reverse_loop k (i + 1) (j - 1) (set (set b i (get_or b j 0)) j (get_or b i 0)) in
    if ltb i j then rest else b

-- reverse_bytes of a whole array. The indices move at most `length b` times, and `j--` runs only
-- at `i < j`.
unfoldable pub reverse_bytes : Bytes → Bytes
reverse_bytes b = reverse_loop (length b) 0 (length b - 1) b

abbrev pub zeros : ℕ → Bytes
zeros n = replicate n 0

unfoldable pub init_sigstruct : Bool → Sigstruct
init_sigstruct intel_signed = record {
  header = record {
    header1 = 0x000000E100000006 ∷ 0x0000000000010000 ∷ [];
    vendor = if intel_signed then 0x8086 else 0;
    date = 0;
    header2 = 0x0000006000000101 ∷ 0x0000000100000060 ∷ [];
    swdefined = 0;
    reserved1 = zeros 84;
  };
  modulus = zeros sgx_modulus_size;
  exponent = 3;
  signature = zeros sgx_modulus_size;
  body = record {
    miscselect = 0;
    miscmask = 0xFFFFFFFF;
    reserved2 = zeros 4;
    isvfamilyid = zeros 16;
    attributes = bit_or sgx_attr_mode64bit sgx_attr_einittokenkey;
    xfrm = 3;
    attributesmask = 0xFFFFFFFFFFFFFFFF;
    xfrmmask = 0xFFFFFFFFFFFFFFFF;
    mrenclave = zeros 32;
    reserved3 = zeros 16;
    isvextprodid = zeros 16;
    isvprodid = 0;
    isvsvn = 1;
  };
  reserved4 = zeros 12;
  q1 = zeros sgx_modulus_size;
  q2 = zeros sgx_modulus_size;
}

-- `&ss.body.mrenclave` and `&ss.header.date`, as measure_encl fills them
unfoldable pub with_measurement : Bytes × ℕ → Sigstruct → Sigstruct
with_measurement (mrenclave, date) ss = record ss {
  header = record ss.header { date = date };
  body = record ss.body { mrenclave = mrenclave };
}

unfoldable pub init_payload : Sigstruct → SigstructPayload
init_payload ss = record { header = ss.header; body = ss.body }

-- "intel_signed"
abbrev pub intel_signed_word : Bytes
intel_signed_word =
    0x69 ∷ 0x6e ∷ 0x74 ∷ 0x65 ∷ 0x6c ∷ 0x5f ∷ 0x73 ∷ 0x69 ∷ 0x67 ∷ 0x6e ∷ 0x65 ∷ 0x64 ∷ []

-- `argc > n && !strcmp(argv[n], "intel_signed")`
unfoldable pub intel_signed : ℕ → List Bytes → Bool
intel_signed n argv = ltb n (length argv) && strcmp (get_or argv n []) intel_signed_word == 0

abbrev pub sign_word : Bytes
sign_word = 0x73 ∷ 0x69 ∷ 0x67 ∷ 0x6e ∷ []

abbrev pub gendata_word : Bytes
gendata_word = 0x67 ∷ 0x65 ∷ 0x6e ∷ 0x64 ∷ 0x61 ∷ 0x74 ∷ 0x61 ∷ []

abbrev pub usesig_word : Bytes
usesig_word = 0x75 ∷ 0x73 ∷ 0x65 ∷ 0x73 ∷ 0x69 ∷ 0x67 ∷ []

-- The little-endian form of the four numbers.
unfoldable pub little_endian : Sigstruct → Sigstruct
little_endian ss = record ss {
  signature = reverse_bytes ss.signature;
  modulus = reverse_bytes ss.modulus;
  q1 = reverse_bytes ss.q1;
  q2 = reverse_bytes ss.q2;
}

module _ {Key : Type 0} (x : OpenSsl Key) (c : Crypto) (d : Disk) where
  -- The end of both functions that load a key: its modulus must have the size for SGX.
  unfoldable pub sized_key : Option Key → Outcome Key
  sized_key k = checked_call k >>= λ key.
      if x.bn_num_bytes (x.key_modulus key) == sgx_modulus_size then ok key else failed

  unfoldable pub load_sign_key : Bytes → Outcome Key
  load_sign_key path =
      checked_call (d.file path).contents >>= λ pem. sized_key (x.read_private_key pem)

  unfoldable pub load_public_key : Bytes → Outcome Key
  load_public_key path =
      checked_call (d.file path).contents >>= λ pem. sized_key (x.read_public_key pem)

  -- RSA_sign writes the signature at the start of its array.
  unfoldable pub sign_encl : Sigstruct → Key → Outcome Bytes
  sign_encl ss key =
      checked_call (x.rsa_sign key (x.sha256 (sigstruct_payload_bytes (init_payload ss))))
      >>= λ signature. ok (place 0 signature ss.signature)

  -- `BN_bn2bin(q, &array[SGX_MODULUS_SIZE - len])`, for a `len` that is not too large
  unfoldable pub store_bn : ℕ → Bytes → Outcome Bytes
  store_bn q array =
      if ltb sgx_modulus_size (x.bn_num_bytes q)
      then failed
      else ok (place (sgx_modulus_size - x.bn_num_bytes q) (x.bn_bn2bin q) array)

  -- calc_q1q2 gives both arrays.
  unfoldable pub calc_q1q2 : Bytes → Bytes → Bytes → Bytes → Outcome (Bytes × Bytes)
  calc_q1q2 s_bytes m_bytes q1_bytes q2_bytes =
      let s = x.bn_bin2bn s_bytes in
      let m = x.bn_bin2bn m_bytes in
      if not x.bn_alloc then failed else do
        square ← checked_call (x.bn_mul s s)
        q1_qr ← checked_call (x.bn_div square m)
        product ← checked_call (x.bn_mul s q1_qr.1)
        q2_r ← checked_call (x.bn_div product m)
        q1_stored ← store_bn q1_qr.0 q1_bytes
        q2_stored ← store_bn q2_r.0 q2_bytes
        ok (q1_stored, q2_stored)

  unfoldable pub save_output : Bytes → Bytes → Outcome Saved
  save_output bytes path = if d.writable path then ok (path, bytes) else failed

  unfoldable pub load_sig : Bytes → Sigstruct → Outcome Sigstruct
  load_sig path ss = do
    st_size ← checked_call (d.file path).st_size
    contents ← if st_size == sgx_modulus_size then checked_call (d.file path).contents else failed
    if length (take sgx_modulus_size contents) == sgx_modulus_size
        then ok (record ss { signature = place 0 (take sgx_modulus_size contents) ss.signature })
        else failed

  -- The structure that sign and usesig start from: initialised, with the key's modulus.
  unfoldable pub keyed_sigstruct : Bool → Key → Sigstruct
  keyed_sigstruct intel key =
      let ss = init_sigstruct intel in
      record ss { modulus = place 0 (x.bn_bn2bin (x.key_modulus key)) ss.modulus }

  -- The common end of sign and usesig, from calc_q1q2 on.
  unfoldable pub finish : Bytes → Sigstruct → Outcome Saved
  finish path ss = do
    q ← calc_q1q2 ss.signature ss.modulus ss.q1 ss.q2
    save_output (sigstruct_bytes (little_endian (record ss { q1 = q.0; q2 = q.1 }))) path

  -- sign <private_key> <enclave> <sigstruct> [intel_signed]
  unfoldable pub sign : List Bytes → Outcome Saved
  sign argv =
      let go = (do
        sign_key ← load_sign_key (get_or argv 1 [])
        m ← measure_encl c (d.file (get_or argv 2 []))
        let ss = with_measurement m (keyed_sigstruct (intel_signed 4 argv) sign_key)
        signature ← sign_encl ss sign_key
        finish (get_or argv 3 []) (record ss { signature = signature })) in
      if ltb (length argv) 4 then exited else if x.errors then exited else go

  -- gendata <enclave> <signing_material> [intel_signed]
  unfoldable pub gendata : List Bytes → Outcome Saved
  gendata argv =
      let go = (do
        m ← measure_encl c (d.file (get_or argv 1 []))
        let ss = with_measurement m (init_sigstruct (intel_signed 3 argv))
        save_output (sigstruct_payload_bytes (init_payload ss)) (get_or argv 2 [])) in
      if ltb (length argv) 3 then exited else go

  -- usesig <public_key> <enclave> <signature> <sigstruct> [intel_signed]
  unfoldable pub usesig : List Bytes → Outcome Saved
  usesig argv =
      let go = (do
        pub_key ← load_public_key (get_or argv 1 [])
        m ← measure_encl c (d.file (get_or argv 2 []))
        ss ←
            load_sig (get_or argv 3 [])
              (with_measurement m (keyed_sigstruct (intel_signed 5 argv) pub_key))
        finish (get_or argv 4 []) ss) in
      if ltb (length argv) 5 then exited else if x.errors then exited else go

  -- main behind its loop over options, none of which it takes. Without a command it passes a null
  -- pointer to strcmp.
  pub main : List Bytes → Outcome Saved
  main [] = undefined
  main (command ∷ arguments) =
      if strcmp sign_word command == 0
      then sign (command ∷ arguments)
      else if strcmp gendata_word command == 0
      then gendata (command ∷ arguments)
      else if strcmp usesig_word command == 0
      then usesig (command ∷ arguments)
      else failed

  -- main from its start: an option ends it by exit_usage, and a command that fails by exit(1).
  unfoldable pub sgxsign : GetOpt → List Bytes → Outcome Saved
  unfolding main
  sgxsign getopt argv = elim (getopt argv) [ none ↦ exited | some arguments ↦ end (main arguments) ]
    where
      end : Outcome Saved → Outcome Saved
      end failed = exited
      end r = r
