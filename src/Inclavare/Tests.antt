-- ===== src/Inclavare/Tests.antt =====
-- The structures and calls of inclavare at concrete inputs.
use pandora_examples.Prelude.{
  ℕ, some, zero, suc, ◌+◌, ◌≤◌, ◌<◌, ◌≡◌, ◌⊎◌, refl, List, [], ◌∷◌, arith, ◌-◌, ◌%◌, ◌^◌, Bool,
  true, ◌&&◌, ap, ◌∙◌, length, replicate, get_or, ltb, if◌then◌else◌,
}
use pandora_examples.LibC.{Bytes}
use pandora_examples.Inclavare.Defines.{pow2, align_up}
use pandora_examples.Machine.{Memory, peek, Host, Machine}
use pandora_examples.SgxArch as Dcap
use pandora_examples.SgxArch.Pages as DcapPages
use pandora_examples.Inclavare.Arch.{
  Secs, Tcs, Pageinfo, Pcmd, Einittoken, TargetInfo, Report, secs_bytes, tcs_bytes, pageinfo_bytes,
  pcmd_bytes, einittoken_bytes, sigstruct_bytes, target_info_bytes, report_bytes,
  sgx_launch_token_size, sgx_target_info_size, sgx_report_size,
}
use pandora_examples.Inclavare.Layout.{
  to_secs, to_report, to_targetinfo, from_sigstruct, arch-sgx_arch,
}
use pandora_examples.Inclavare.Sizes.{sizes-arch}
use pandora_examples.Inclavare.Flags.{
  reg, sgx_secinfo, permissions, page_type_bits, reserved_bits, secinfo-masks,
}
use pandora_examples.Inclavare.{Env, init_hello, sizeof_init_hello, encl_init, encl_get_report}
use pandora_examples.Inclavare.Calls.{encl_init-writes, encl_get_report-reports, Operands}

abbrev bytes : ℕ → Bytes
bytes n = replicate n 1

abbrev secs_page : Secs
secs_page = record {
  size = 0x10000;
  base = 0x7f0000000000;
  ssa_frame_size = 1;
  miscselect = 0;
  reserved1 = bytes 24;
  attributes = 4;
  xfrm = 3;
  mrenclave = replicate 8 5;
  reserved2 = bytes 32;
  mrsigner = replicate 8 6;
  reserved3 = bytes 32;
  config_id = replicate 16 0;
  isv_prod_id = 1;
  isv_svn = 2;
  config_svn = 3;
  reserved4 = bytes 3834;
}

abbrev report : Report
report = record {
  body = record {
    cpusvn = bytes 16;
    miscselect = 0;
    cetattributes = 7;
    reserved1 = bytes 11;
    isv_ext_prod_id = replicate 8 9;
    attributes = 4;
    xfrm = 3;
    mrenclave = bytes 32;
    reserved2 = bytes 32;
    mrsigner = bytes 32;
    reserved3 = bytes 32;
    config_id = replicate 16 8;
    isv_prod_id = 1;
    isv_svn = 2;
    config_svn = 3;
    reserved4 = bytes 42;
    isv_family_id = bytes 16;
    report_data = bytes 64;
  };
  key_id = bytes 32;
  mac = bytes 16;
}

abbrev target : TargetInfo
target = record {
  mrenclave = bytes 32;
  attributes = 4;
  xfrm = 3;
  cetattributes = 0;
  reserved1 = 0;
  config_svn = 2;
  miscselect = 0;
  reserved2 = bytes 8;
  config_id = replicate 16 0;
  reserved3 = bytes 384;
}

abbrev sigstruct : Dcap.Sigstruct
sigstruct = record {
  header = record {
    header1 = 0xE100000006 ∷ 0x10000 ∷ [];
    vendor = 0;
    date = 0x20200101;
    header2 = 0x6000000101 ∷ 0x100000060 ∷ [];
    swdefined = 0;
    reserved1 = bytes 84;
  };
  modulus = bytes 384;
  exponent = 3;
  signature = bytes 384;
  body = record {
    miscselect = 0;
    miscmask = 0;
    reserved2 = bytes 4;
    isvfamilyid = bytes 16;
    attributes = 4;
    xfrm = 3;
    attributesmask = 4;
    xfrmmask = 3;
    mrenclave = bytes 32;
    reserved3 = bytes 16;
    isvextprodid = bytes 16;
    isvprodid = 0;
    isvsvn = 0;
  };
  reserved4 = bytes 12;
  q1 = bytes 384;
  q2 = bytes 384;
}

abbrev page_info : Pageinfo
page_info = record { addr = 0x1000; contents = 0x2000; metadata = 0x3000; secs = 0x4000 }

abbrev thread : Tcs
thread = record {
  state = 0;
  flags = 0;
  ssa_offset = 0x1000;
  ssa_index = 0;
  nr_ssa_frames = 2;
  entry_offset = 0;
  exit_addr = 0;
  fs_offset = 0;
  gs_offset = 0;
  fs_limit = 0xffff;
  gs_limit = 0xffff;
  reserved = replicate 4024 0;
}

abbrev paging : Pcmd
paging = record {
  secinfo = record { flags = 0x203; reserved = bytes 56 };
  enclave_id = 1;
  reserved = bytes 40;
  mac = bytes 16;
}

abbrev token : Einittoken
token = record {
  payload = record {
    valid = 1;
    reserved1 = replicate 11 0;
    attributes = 4;
    xfrm = 3;
    mrenclave = bytes 32;
    reserved2 = bytes 32;
    mrsigner = bytes 32;
    reserved3 = bytes 32;
  };
  cpusvnle = bytes 16;
  isvprodidle = 1;
  isvsvnle = 1;
  reserved2 = bytes 24;
  maskedmiscselectle = 0;
  maskedattributesle = 0;
  maskedxfrmle = 0;
  keyid = bytes 32;
  mac = bytes 16;
}

arch-sgx_arch_runs :
    (DcapPages.secs_bytes (to_secs secs_page) ≡ secs_bytes secs_page)
    × (DcapPages.report_bytes (to_report report) ≡ report_bytes report)
    × (DcapPages.targetinfo_bytes (to_targetinfo target) ≡ target_info_bytes target)
    × (sigstruct_bytes (from_sigstruct sigstruct) ≡ Dcap.sigstruct_bytes sigstruct)
arch-sgx_arch_runs = arch-sgx_arch secs_page report target sigstruct refl

sizes-arch_runs :
    (length (target_info_bytes target) ≡ sgx_target_info_size)
    × (length (report_bytes report) ≡ sgx_report_size)
    × (length (einittoken_bytes token) ≡ sgx_launch_token_size)
    × (length (tcs_bytes thread) ≡ 4096)
    × (length (pageinfo_bytes page_info) ≡ 32)
    × (length (pcmd_bytes paging) ≡ 128)
sizes-arch_runs =
    sizes-arch thread page_info paging token target report refl
      (record { secinfo_reserved_size = refl; reserved_size = refl; mac_size = refl })
      (record {
        reserved1_size = refl;
        mrenclave_size = refl;
        payload_reserved2_size = refl;
        mrsigner_size = refl;
        reserved3_size = refl;
        cpusvnle_size = refl;
        reserved2_size = refl;
        keyid_size = refl;
        mac_size = refl;
      })
      (record {
        mrenclave_size = refl;
        reserved2_size = refl;
        config_id_size = refl;
        reserved3_size = refl;
      })
      (record {
        body_sizes = record {
          cpusvn_size = refl;
          reserved1_size = refl;
          isv_ext_prod_id_size = refl;
          mrenclave_size = refl;
          reserved2_size = refl;
          mrsigner_size = refl;
          reserved3_size = refl;
          config_id_size = refl;
          reserved4_size = refl;
          isv_family_id_size = refl;
          report_data_size = refl;
        };
        key_id_size = refl;
        mac_size = refl;
      })

secinfo-masks_runs :
    (permissions (3 + sgx_secinfo reg) ≡ 3)
    × (page_type_bits (3 + sgx_secinfo reg) ≡ sgx_secinfo reg)
    × (reserved_bits (3 + sgx_secinfo reg) ≡ 0)
secinfo-masks_runs = secinfo-masks 3 reg (omega arith)

abbrev quiet : Host
quiet n mem = mem

-- A processor whose report is all ones.
abbrev ones : ℕ → ℕ → ℕ → Memory → Memory
ones ti rd r mem b = if ltb b r then mem b else if ltb b (r + 432) then 1 else mem b

abbrev enclave : Env
enclave = record {
  host = quiet;
  hello = 0x1000;
  ti = 0x2000;
  rd = 0x2200;
  r = 0x2400;
  ereport = ones;
}

-- The greeting at 0x1000.
abbrev memory : Memory
memory b = get_or init_hello (b - 0x1000) 0

small : List ℕ → Bool
small [] = true
small (x ∷ xs) = ltb x 256 && small xs

low_get_or : (xs : List ℕ) (j : ℕ) → small xs ≡ true → get_or xs j 0 % 2 ^ 8 ≡ get_or xs j 0
unfolding small
low_get_or [] j s = refl
low_get_or (x ∷ xs) zero s = ground arith
low_get_or (x ∷ xs) (suc j) s = low_get_or xs j (ground arith)

abbrev start : Machine
start = record { mem = memory; time = 0; trace = [] }

-- A greeting that overwrites the enclave's own local.
encl_init-writes_example :
    ((encl_init enclave 0x2000 start).0 ≡ 0)
    × ((j : ℕ)
        → j < sizeof_init_hello
        → (encl_init enclave 0x2000 start).1.mem (0x2000 + j) ≡ get_or init_hello j 0)
    × ((b : ℕ)
        → (b < 0x2000) ⊎ (0x2000 + sizeof_init_hello ≤ b)
        → (encl_init enclave 0x2000 start).1.mem b ≡ memory b)
unfolding small init_hello
encl_init-writes_example =
    encl_init-writes enclave 0x2000 start (λ n mem later. refl)
      (λ j lt.
        ap (λ (i : ℕ). peek (λ b. get_or init_hello b 0) i) {x = 0x1000 + j - 0x1000} {y = j}
          (omega arith)
        ∙ low_get_or init_hello j refl)
      (omega arith)

encl_get_report-reports_example :
    (operands : Memory) × Operands enclave 0x100 0x400 memory operands
    × ((encl_get_report enclave 0x100 0x400 0x500 start).0 ≡ 0)
    × ((j : ℕ)
        → j < 432
        → (encl_get_report enclave 0x100 0x400 0x500 start).1.mem (0x500 + j)
          ≡ peek (ones 0x2000 0x2200 0x2400 operands) (0x2400 + j))
    × ((b : ℕ)
        → (b < 0x500) ⊎ (0x500 + 432 ≤ b)
        → (encl_get_report enclave 0x100 0x400 0x500 start).1.mem b
          ≡ ones 0x2000 0x2200 0x2400 operands b)
encl_get_report-reports_example =
    encl_get_report-reports enclave 0x100 0x400 0x500 start (λ n mem later. refl)
      (record {
        target_apart = omega arith;
        data_apart = omega arith;
        report_apart = omega arith;
        locals_apart = omega arith;
        data_kept = omega arith;
      })

defines_runs :
    (pow2 0x1000 9 0x5001 ≡ some 0x8000)
    × (pow2 0x1000 9 0 ≡ some 0x1000)
    × (align_up 0x1001 0x1000 ≡ 0x2000)
    × (align_up 0x2000 0x1000 ≡ 0x2000)
unfolding pow2 align_up
defines_runs = (refl, refl, refl, refl)
