-- ===== src/SignTool/Tests.antt =====
-- The functions of dcap-le/sgxsign.c at concrete sizes and files, and their theorems there.
use pandora_examples.Prelude.{
  ◌<◌, ◌≤◌, ◌⊎◌, ℕ, ◌*◌, ◌/◌, ◌%◌, ◌^◌, ◌+◌, ◌≡◌, refl, true, false, [], ◌∷◌, ◌++◌, some, none,
  arith, replicate, length-replicate, length, get_or, ◌-◌, take, if◌then◌else◌, ◌==◌,
}
use pandora_examples.Prelude.Encode.{of_le}
use pandora_examples.LibC.{Bytes}
use pandora_examples.SgxArch.{Sigstruct, sigstruct_payload_bytes}
use pandora_examples.SignTool.{ok, no_return, ◌>>=◌, Crypto, File, encl_size_loop}
use pandora_examples.SignTool.Measure.{
  size_rounds, page_flags, mrecreate_bytes, mrenclave_commit, mrenclave_update, measure_encl,
  measure_blob, mrenclave_ecreate, mrenclave_eadd, mrenclave_eextend, eextend_loop, pages_loop,
}
use pandora_examples.SignTool.EnclaveSize.{Fits, encl_size_loop_lem}
use pandora_examples.SignTool.Measurement.{page_log, measure_encl-page_log}
use pandora_examples.SignTool.Sign.{
  calc_q1q2, reverse_loop, OpenSsl, Disk, init_sigstruct, with_measurement, init_payload,
  intel_signed, gendata_word, usesig_word, sign_word, sized_key, reverse_bytes, load_sign_key,
  load_public_key, save_output, gendata, sign, usesig,
}
use pandora_examples.SignTool.Reversal.{reverse_bytes_lem}
use pandora_examples.SignTool.Quotients.{IsExact, stored, calc_q1q2-cube}
use pandora_examples.SignTool.Detached.{usesig-sign}

-- A digest that never fails and gives 32 zeros.
abbrev plain : Crypto
plain = record {
  digest_create = true;
  digest_init = true;
  digest_update = λ ctx block. true;
  digest_final = λ ctx. some (replicate 32 0);
}

abbrev one_page : Bytes
one_page = replicate 0x1000 7

abbrev page_file : File
page_file = record { contents = some one_page; st_size = some 0x1000; date = some 0x20230101 }

-- A file of a size that is not in whole pages.
abbrev odd_file : File
odd_file = record { contents = some one_page; st_size = some 0x1001; date = some 0x20230101 }

-- A file whose stat gives a page and whose read gives less.
abbrev torn_file : File
torn_file = record {
  contents = some (replicate 3 7);
  st_size = some 0x1000;
  date = some 0x20230101;
}

sizes_found :
    (encl_size_loop size_rounds 0x1000 0x5000 ≡ ok 0x8000)
    × (encl_size_loop size_rounds 0x1000 1 ≡ ok 0x1000)
    × (encl_size_loop size_rounds 0x1000 (2 ^ 63) ≡ ok (2 ^ 63))
unfolding encl_size_loop
sizes_found = (refl, refl, refl)

flags_of_pages : (page_flags 0 ≡ 0x100) × (page_flags 0x1000 ≡ 0x207)
unfolding page_flags
flags_of_pages = (refl, refl)

encl_size_loop_lem_example :
    ((0x5000 ≤ 2 ^ 63)
      × ((s : ℕ) × (encl_size_loop size_rounds 0x1000 0x5000 ≡ ok s) × Fits 0x5000 s))
    ⊎ ((2 ^ 63 < 0x5000) × ((k : ℕ) → encl_size_loop k 0x1000 0x5000 ≡ no_return))
encl_size_loop_lem_example = encl_size_loop_lem 0x5000

measure_encl-page_log_example :
    (s : ℕ) × Fits (1 * 0x1000) s
    × (measure_encl plain page_file
        ≡ mrenclave_commit plain (mrecreate_bytes s ++ page_log 1 0 one_page) >>= λ mrenclave.
            ok (mrenclave, 0x20230101))
measure_encl-page_log_example =
    measure_encl-page_log plain page_file one_page 1 0x20230101 (λ ctx block. refl) refl refl refl
      refl refl (length-replicate {A = ℕ} 0x1000 7) (omega arith) (omega arith)

-- A tool whose keys are their moduli, and whose signatures are all the same.
abbrev toy_ssl : OpenSsl ℕ
toy_ssl = record {
  errors = false;
  read_private_key = λ pem. some 35;
  read_public_key = λ pem. some 35;
  key_modulus = λ key. key;
  sha256 = take 32;
  rsa_sign = λ key digest. some (replicate 384 5);
  bn_alloc = true;
  bn_bin2bn = λ bytes. of_le bytes;
  bn_bn2bin = λ n. replicate 384 3;
  bn_num_bytes = λ n. 384;
  bn_mul = λ a b. some (a * b);
  bn_div = λ a b. some (a / b, a % b);
}

-- The enclave is at "e", a signature at "s", and keys everywhere else.
abbrev toy_file : Bytes → File
toy_file [] = torn_file
toy_file (a ∷ path) =
    if a == 0x65
    then page_file
    else if a == 0x73
    then record { contents = some (replicate 384 5); st_size = some 384; date = none }
    else torn_file

abbrev toy_disk : Disk
toy_disk = record { file = toy_file; writable = λ path. true }

-- A structure for the page at "e".
abbrev toy_sigstruct : Sigstruct
toy_sigstruct = with_measurement (replicate 32 0, 0x20230101) (init_sigstruct false)

toy_gendata :
    gendata toy_ssl plain toy_disk (gendata_word ∷ (0x65 ∷ []) ∷ (0x6d ∷ []) ∷ [])
    ≡ ok (0x6d ∷ [], sigstruct_payload_bytes (init_payload toy_sigstruct))
unfolding gendata save_output measure_encl measure_blob mrenclave_ecreate mrenclave_update
    mrenclave_commit mrenclave_eadd mrenclave_eextend eextend_loop pages_loop intel_signed
    encl_size_loop
toy_gendata = refl

toy_sign_key : load_sign_key toy_ssl plain toy_disk (0x6b ∷ []) ≡ ok 35
unfolding load_sign_key sized_key
toy_sign_key = refl

toy_public_key : load_public_key toy_ssl plain toy_disk (0x70 ∷ []) ≡ ok 35
unfolding load_public_key sized_key
toy_public_key = refl

usesig-sign_example :
    usesig toy_ssl plain toy_disk
      (usesig_word ∷ (0x70 ∷ []) ∷ (0x65 ∷ []) ∷ (0x73 ∷ []) ∷ (0x6f ∷ []) ∷ [])
    ≡ sign toy_ssl plain toy_disk (sign_word ∷ (0x6b ∷ []) ∷ (0x65 ∷ []) ∷ (0x6f ∷ []) ∷ [])
usesig-sign_example =
    usesig-sign toy_ssl plain toy_disk gendata_word usesig_word sign_word (0x65 ∷ []) (0x6d ∷ [])
      (0x6b ∷ []) (0x70 ∷ []) (0x73 ∷ []) (0x6f ∷ []) [] 35 35 (0x6d ∷ [])
      (sigstruct_payload_bytes (init_payload toy_sigstruct)) (replicate 384 5) toy_sign_key
      toy_public_key refl toy_gendata refl refl refl (length-replicate {A = ℕ} 384 5)

abbrev five_bytes : Bytes
five_bytes = 1 ∷ 2 ∷ 3 ∷ 4 ∷ 5 ∷ []

five_reversed : (reverse_bytes five_bytes ≡ 5 ∷ 4 ∷ 3 ∷ 2 ∷ 1 ∷ []) × (reverse_bytes [] ≡ [])
unfolding reverse_bytes reverse_loop
five_reversed = (refl, refl)

reverse_bytes_lem_runs :
    (length (reverse_bytes five_bytes) ≡ length five_bytes)
    × (get_or (reverse_bytes five_bytes) 1 0 ≡ get_or five_bytes (length five_bytes - 1 - 1) 0)
reverse_bytes_lem_runs = reverse_bytes_lem five_bytes 1 (omega arith)

toy_ssl-IsExact : IsExact toy_ssl
toy_ssl-IsExact = record {
  allocates = refl;
  multiplies = λ a b. refl;
  divides = λ a b pos. refl;
  measures = λ a small. omega arith;
}

toy_s : toy_ssl.bn_bin2bn (20 ∷ []) ≡ 20
unfolding of_le
toy_s = refl

toy_m : toy_ssl.bn_bin2bn (35 ∷ []) ≡ 35
unfolding of_le
toy_m = refl

calc_q1q2-cube_example :
    (q1 : ℕ) × (q2 : ℕ) × (r : ℕ) × (calc_q1q2 toy_ssl plain toy_disk (20 ∷ []) (35 ∷ []) [] []
      ≡ ok (stored toy_ssl q1 [], stored toy_ssl q2 []))
    × (20 * 20 * 20 ≡ (q1 * 20 + q2) * 35 + r)
    × (q1 < 35)
    × (q2 < 35)
    × (r < 35)
calc_q1q2-cube_example =
    calc_q1q2-cube toy_ssl plain toy_disk toy_ssl-IsExact (20 ∷ []) (35 ∷ []) [] [] 20 35 toy_s
      toy_m (omega arith) (omega arith)
