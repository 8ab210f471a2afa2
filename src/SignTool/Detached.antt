-- ===== src/SignTool/Detached.antt =====
-- Detached signing by the commands of dcap-le/sgxsign.c: gendata, a signature made elsewhere, and
-- usesig, against sign.
use mathlib.Core.Bool.{false≢true}
use pandora_examples.Prelude.{
  ℕ, suc, ◌+◌, ◌≡◌, refl, sym, ap, ◌∙◌, arith, Bool, true, false, ◌&&◌, List, [], ◌∷◌, some, ltb,
  ◌==◌, if◌then◌else◌, length, get_or, Bool-cases, inl, inr,
}
use pandora_examples.LibC.{Bytes, strcmp}
use pandora_examples.SgxArch.{Sigstruct, sigstruct_payload_bytes, sgx_modulus_size}
use pandora_examples.SignTool.{Outcome, ok, failed, exited, no_return, undefined, ◌>>=◌, Crypto}
use pandora_examples.SignTool.Measure.{measure_encl}
use pandora_examples.SignTool.Measurement.{bind_ok, take-all, if_true}
use pandora_examples.SignTool.Sign.{
  OpenSsl, Disk, Saved, place, init_sigstruct, with_measurement, init_payload, intel_signed,
  intel_signed_word, load_sign_key, load_public_key, sign_encl, save_output, load_sig,
  keyed_sigstruct, finish, sign, gendata, usesig,
}

if_false : {A : Type 0} (b : Bool) (x y : A) → b ≡ false → (if b then x else y) ≡ y
if_false b x y e = ap (λ t. if t then x else y) e

ok_eq : {A : Type 0} (a b : A) → ok a ≡ ok b → a ≡ b
ok_eq a b e = ap (λ o. elim o [ ok r ↦ r | _ ↦ a ]) e

is_ok : {A : Type 0} → Outcome A → Bool
is_ok (ok a) = true
is_ok failed = false
is_ok exited = false
is_ok no_return = false
is_ok undefined = false

-- What gives a value when bound has a first step that gives one.
bind_inv :
    {A B : Type 0} (m : Outcome A) (f : A → Outcome B) (b : B)
    → m >>= f ≡ ok b
    → (a : A) × (m ≡ ok a) × (f a ≡ ok b)
unfolding is_ok
bind_inv (ok a) f b e = (a, refl, e)
bind_inv failed f b e = absurd (false≢true (ap is_ok e))
bind_inv exited f b e = absurd (false≢true (ap is_ok e))
bind_inv no_return f b e = absurd (false≢true (ap is_ok e))
bind_inv undefined f b e = absurd (false≢true (ap is_ok e))

-- The flag is the first argument behind the paths.
intel_signed-tail :
    (a : Bytes) (n : ℕ) (argv : List Bytes) → intel_signed (suc n) (a ∷ argv) ≡ intel_signed n argv
unfolding intel_signed
intel_signed-tail a n argv =
    ap (λ b. b && strcmp (get_or argv n []) intel_signed_word == 0) (ground arith)

not_short : (n k : ℕ) → ltb (k + n) k ≡ false
not_short n k = ground arith

module _ {Key : Type 0} (x : OpenSsl Key) (c : Crypto) (d : Disk) where
  save_output-saved :
      (bytes path : Bytes) (s : Saved) → save_output x c d bytes path ≡ ok s → s.1 ≡ bytes
  unfolding save_output is_ok
  save_output-saved bytes path s e = elim (Bool-cases (d.writable path)) [
    | inl w ↦ ap (λ (r : Saved). r.1) (ok_eq s (path, bytes) (sym e ∙ if_true _ _ _ w))
    | inr w ↦ absurd (false≢true (ap is_ok (sym (if_false _ _ _ w) ∙ e)))
  ]

  -- What gendata saved is the payload of the measured structure.
  gendata-saved :
      (command encl material : Bytes) (flags : List Bytes) (saved payload : Bytes)
      → gendata x c d (command ∷ encl ∷ material ∷ flags) ≡ ok (saved, payload)
      → (m : Bytes × ℕ) × (measure_encl c (d.file encl) ≡ ok m)
        × (payload
            ≡ sigstruct_payload_bytes
                (init_payload (with_measurement m (init_sigstruct (intel_signed 0 flags)))))
  unfolding gendata
  gendata-saved command encl material flags saved payload e =
      let long : ltb (length (command ∷ encl ∷ material ∷ flags)) 3 ≡ false = ground arith in
      let flag =
        intel_signed-tail command 2 (encl ∷ material ∷ flags)
        ∙ intel_signed-tail encl 1 (material ∷ flags)
        ∙ intel_signed-tail material 0 flags in
      let measured = bind_inv _ _ _ (sym (if_false _ _ _ long) ∙ e) in
      (
        measured.0,
        measured.1,
        save_output-saved _ _ _ measured.2
            ∙ ap
                (λ f.
                  sigstruct_payload_bytes
                    (init_payload (with_measurement measured.0 (init_sigstruct f))))
                flag,
      )

  load_sig_lem :
      (path signature : Bytes) (ss : Sigstruct)
      → (d.file path).st_size ≡ some sgx_modulus_size
      → (d.file path).contents ≡ some signature
      → length signature ≡ sgx_modulus_size
      → load_sig x c d path ss ≡ ok (record ss { signature = place 0 signature ss.signature })
  unfolding load_sig
  load_sig_lem path signature ss size file whole =
      let all = take-all sgx_modulus_size signature whole in rw (size, file, all, whole) refl

  sign_encl_lem :
      (ss : Sigstruct) (key : Key) (signature : Bytes)
      → x.rsa_sign key (x.sha256 (sigstruct_payload_bytes (init_payload ss))) ≡ some signature
      → sign_encl x c d ss key ≡ ok (place 0 signature ss.signature)
  unfolding sign_encl
  sign_encl_lem ss key signature e = rw e

  -- The modulus is not in the payload.
  keyed-payload :
      (m : Bytes × ℕ) (f : Bool) (key : Key)
      → init_payload (with_measurement m (keyed_sigstruct x c d f key))
        ≡ init_payload (with_measurement m (init_sigstruct f))
  unfolding init_payload with_measurement keyed_sigstruct
  keyed-payload m f key = refl

  keyed_sigstruct-same :
      (f : Bool) (k l : Key)
      → x.key_modulus k ≡ x.key_modulus l
      → keyed_sigstruct x c d f k ≡ keyed_sigstruct x c d f l
  unfolding keyed_sigstruct
  keyed_sigstruct-same f k l e =
      ap
        (λ n.
          let ss = init_sigstruct f in record ss { modulus = place 0 (x.bn_bn2bin n) ss.modulus })
        e

  -- What both commands come to, on a measured structure and a signature.
  sealed_output : Bytes → Bytes → Sigstruct → Outcome Saved
  sealed_output out signature ss =
      if x.errors
      then exited
      else finish x c d out (record ss { signature = place 0 signature ss.signature })

  usesig_lem :
      (command public encl signed out : Bytes) (flags : List Bytes) (key : Key) (m : Bytes × ℕ)
      (signature : Bytes)
      → load_public_key x c d public ≡ ok key
      → measure_encl c (d.file encl) ≡ ok m
      → (d.file signed).st_size ≡ some sgx_modulus_size
      → (d.file signed).contents ≡ some signature
      → length signature ≡ sgx_modulus_size
      → usesig x c d (command ∷ public ∷ encl ∷ signed ∷ out ∷ flags)
        ≡ sealed_output out signature
            (with_measurement m (keyed_sigstruct x c d (intel_signed 0 flags) key))
  unfolding usesig sealed_output
  usesig_lem command public encl signed out flags key m signature loaded measured size file whole =
      let long : ltb (length (command ∷ public ∷ encl ∷ signed ∷ out ∷ flags)) 5 ≡ false =
        ground arith in
      let flag =
        intel_signed-tail command 4 (public ∷ encl ∷ signed ∷ out ∷ flags)
        ∙ intel_signed-tail public 3 (encl ∷ signed ∷ out ∷ flags)
        ∙ intel_signed-tail encl 2 (signed ∷ out ∷ flags)
        ∙ intel_signed-tail signed 1 (out ∷ flags)
        ∙ intel_signed-tail out 0 flags in
      if_false _ _ _ long
      ∙ ap (λ t. if x.errors then exited else t)
          (bind_ok _ key _ loaded
            ∙ bind_ok _ m _ measured
            ∙ ap
                (λ f.
                  load_sig x c d signed (with_measurement m (keyed_sigstruct x c d f key))
                  >>= finish x c d out)
                flag
            ∙ bind_ok _ _ (finish x c d out) (load_sig_lem signed signature _ size file whole))

  sign_lem :
      (command private encl out : Bytes) (flags : List Bytes) (key : Key) (m : Bytes × ℕ)
      (signature : Bytes)
      → load_sign_key x c d private ≡ ok key
      → measure_encl c (d.file encl) ≡ ok m
      → x.rsa_sign key (
          x.sha256 (
            sigstruct_payload_bytes
              (init_payload (with_measurement m (init_sigstruct (intel_signed 0 flags))))))
        ≡ some signature
      → sign x c d (command ∷ private ∷ encl ∷ out ∷ flags)
        ≡ sealed_output out signature
            (with_measurement m (keyed_sigstruct x c d (intel_signed 0 flags) key))
  unfolding sign sealed_output
  sign_lem command private encl out flags key m signature loaded measured sealed =
      let long : ltb (length (command ∷ private ∷ encl ∷ out ∷ flags)) 4 ≡ false = ground arith in
      let flag =
        intel_signed-tail command 3 (private ∷ encl ∷ out ∷ flags)
        ∙ intel_signed-tail private 2 (encl ∷ out ∷ flags)
        ∙ intel_signed-tail encl 1 (out ∷ flags)
        ∙ intel_signed-tail out 0 flags in
      let ss = with_measurement m (keyed_sigstruct x c d (intel_signed 0 flags) key) in
      let seal = λ (st : Sigstruct).
        sign_encl x c d st key >>= λ s. finish x c d out (record st { signature = s }) in
      if_false _ _ _ long
      ∙ ap (λ t. if x.errors then exited else t)
          (bind_ok _ key _ loaded
            ∙ bind_ok _ m _ measured
            ∙ ap (λ f. seal (with_measurement m (keyed_sigstruct x c d f key))) flag
            ∙ bind_ok _ _ (λ s. finish x c d out (record ss { signature = s }))
                (sign_encl_lem ss key signature (
                  ap (λ p. x.rsa_sign key (x.sha256 (sigstruct_payload_bytes p)))
                    (keyed-payload m (intel_signed 0 flags) key)
                  ∙ sealed)))

  -- Signing elsewhere gives what signing with the key at hand gives: where the public key file holds
  -- the modulus of the private key, gendata saved `payload`, and the signature file of SGX_MODULUS_SIZE
  -- bytes holds the signature of that payload's digest under the private key, usesig ends as sign does
  -- with the same enclave, flags and path to save to, and saves the same bytes if it saves any.
  pub usesig-sign :
      (command command' command'' encl material private public signed out : Bytes)
      → (flags : List Bytes) (key public_key : Key) (saved payload signature : Bytes)
      → load_sign_key x c d private ≡ ok key
      → load_public_key x c d public ≡ ok public_key
      → x.key_modulus public_key ≡ x.key_modulus key
      → gendata x c d (command ∷ encl ∷ material ∷ flags) ≡ ok (saved, payload)
      → x.rsa_sign key (x.sha256 payload) ≡ some signature
      → (d.file signed).st_size ≡ some sgx_modulus_size
      → (d.file signed).contents ≡ some signature
      → length signature ≡ sgx_modulus_size
      → usesig x c d (command' ∷ public ∷ encl ∷ signed ∷ out ∷ flags)
        ≡ sign x c d (command'' ∷ private ∷ encl ∷ out ∷ flags)
  usesig-sign command command' command'' encl material private public signed out flags key
        public_key saved payload signature loaded loaded' same generated sealed size file whole =
      let made = gendata-saved command encl material flags saved payload generated in
      let sealed' = ap (λ p. x.rsa_sign key (x.sha256 p)) (sym made.2) ∙ sealed in
      usesig_lem command' public encl signed out flags public_key made.0 signature loaded' made.1
        size file whole
      ∙ ap (λ ss. sealed_output out signature (with_measurement made.0 ss))
          (keyed_sigstruct-same (intel_signed 0 flags) public_key key same)
      ∙ sym (sign_lem command'' private encl out flags key made.0 signature loaded made.1 sealed')
