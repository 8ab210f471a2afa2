-- ===== src/SgxArch/Tests.antt =====
-- The layouts of dcap-le/include/asm/sgx_arch.h at concrete structures.
use pandora_examples.Prelude.{ℕ, ◌*◌, ◌≡◌, refl, [], ◌∷◌, arith, length, replicate}
use pandora_examples.LibC.{Bytes}
use pandora_examples.SgxArch.{
  Report, Targetinfo, Keyrequest, EinittokenPayload, Einittoken, Sigstruct, einittoken_bytes,
  sigstruct_bytes,
}
use pandora_examples.SgxArch.Pages.{
  Secs, Tcs, Pcmd, secs_bytes, tcs_bytes, secinfo_bytes, pcmd_bytes, report_bytes, targetinfo_bytes,
  keyrequest_bytes, length-secs_bytes-tcs_bytes, length-report_bytes-targetinfo_bytes,
}
use pandora_examples.SgxArch.Layout.{
  payload_bytes-injective, length-einittoken_bytes-sigstruct_bytes,
}

abbrev bytes : ℕ → Bytes
bytes n = replicate n 1

abbrev payload : EinittokenPayload
payload = record {
  valid = 1;
  reserved1 = bytes 11;
  attributes = 4;
  xfrm = 3;
  mrenclave = bytes 32;
  reserved2 = bytes 32;
  mrsigner = bytes 32;
  reserved3 = bytes 32;
}

abbrev token : Einittoken
token = record {
  payload = payload;
  cpusvnle = bytes 16;
  isvprodidle = 0;
  isvsvnle = 1;
  reserved2 = bytes 24;
  maskedmiscselectle = 0;
  maskedattributesle = 0;
  maskedxfrmle = 0;
  keyid = bytes 32;
  mac = bytes 16;
}

abbrev sigstruct : Sigstruct
sigstruct = record {
  header = record {
    header1 = 6 ∷ 1 ∷ [];
    vendor = 0;
    date = 0x20200101;
    header2 = 1 ∷ 2 ∷ [];
    swdefined = 0;
    reserved1 = bytes 84;
  };
  modulus = bytes 384;
  exponent = 3;
  signature = bytes 384;
  body = record {
    miscselect = 0;
    miscmask = 0;
    reserved2 = bytes 4;
    isvfamilyid = bytes 16;
    attributes = 4;
    xfrm = 3;
    attributesmask = 0;
    xfrmmask = 0;
    mrenclave = bytes 32;
    reserved3 = bytes 16;
    isvextprodid = bytes 16;
    isvprodid = 0;
    isvsvn = 1;
  };
  reserved4 = bytes 12;
  q1 = bytes 384;
  q2 = bytes 384;
}

payload_bytes-injective_runs :
    ◌≡◌ {A = ℕ} 1 1
    × ◌≡◌ {A = ℕ} 4 4
    × ◌≡◌ {A = ℕ} 3 3
    × (bytes 32 ≡ bytes 32)
    × (bytes 32 ≡ bytes 32)
payload_bytes-injective_runs =
    payload_bytes-injective payload payload
      (record {
        reserved1_size = refl;
        mrenclave_size = refl;
        reserved2_size = refl;
        mrsigner_size = refl;
        reserved3_size = refl;
      })
      (record {
        reserved1_size = refl;
        mrenclave_size = refl;
        reserved2_size = refl;
        mrsigner_size = refl;
        reserved3_size = refl;
      })
      (omega arith) (omega arith) refl

length-einittoken_bytes-sigstruct_bytes_runs :
    (length (einittoken_bytes token) ≡ 304) × (length (sigstruct_bytes sigstruct) ≡ 1808)
length-einittoken_bytes-sigstruct_bytes_runs =
    length-einittoken_bytes-sigstruct_bytes token sigstruct (omega arith) (omega arith)

abbrev secs : Secs
secs = record {
  size = 0x100000;
  base = 0x7f0000000000;
  ssaframesize = 1;
  miscselect = 0;
  reserved1 = bytes 24;
  attributes = 4;
  xfrm = 3;
  mrenclave = bytes 8;
  reserved2 = bytes 32;
  mrsigner = bytes 8;
  reserved3 = bytes 32;
  configid = bytes 16;
  isvvprodid = 0;
  isvsvn = 1;
  configsvn = 0;
  reserved4 = bytes 3834;
}

abbrev tcs : Tcs
tcs = record {
  state = 0;
  flags = 0;
  ossa = 0x1000;
  cssa = 0;
  nssa = 1;
  oentry = 0x2000;
  aep = 0;
  ofsbase = 0;
  ogsbase = 0;
  fslimit = 0xfff;
  gslimit = 0xfff;
  reserved = bytes 503;
}

abbrev pcmd : Pcmd
pcmd = record {
  secinfo = record { flags = 0x203; reserved = bytes 7 };
  enclave_id = 1;
  reserved = bytes 40;
  mac = bytes 16;
}

length-secs_bytes-tcs_bytes_runs :
    (length (secs_bytes secs) ≡ 4096)
    × (length (tcs_bytes tcs) ≡ 4096)
    × (length (pcmd_bytes pcmd) ≡ 2 * length (secinfo_bytes pcmd.secinfo))
    × (length (pcmd_bytes pcmd) ≡ 128)
length-secs_bytes-tcs_bytes_runs =
    length-secs_bytes-tcs_bytes secs tcs pcmd
      (record {
        reserved1_size = refl;
        mrenclave_size = refl;
        reserved2_size = refl;
        mrsigner_size = refl;
        reserved3_size = refl;
        configid_size = refl;
        reserved4_size = refl;
      })
      refl (record { secinfo_size = refl; reserved_size = refl; mac_size = refl })

abbrev report : Report
report = record {
  cpusvn = bytes 16;
  miscselect = 0;
  reserved1 = bytes 28;
  attributes = 4;
  xfrm = 3;
  mrenclave = bytes 32;
  reserved2 = bytes 32;
  mrsigner = bytes 32;
  reserved3 = bytes 96;
  isvprodid = 0;
  isvsvn = 1;
  reserved4 = bytes 60;
  reportdata = bytes 64;
  keyid = bytes 32;
  mac = bytes 16;
}

abbrev targetinfo : Targetinfo
targetinfo = record {
  mrenclave = bytes 32;
  attributes = 4;
  xfrm = 3;
  reserved1 = bytes 4;
  miscselect = 0;
  reserved2 = bytes 456;
}

abbrev keyrequest : Keyrequest
keyrequest = record {
  keyname = 0;
  keypolicy = 0;
  isvsvn = 1;
  reserved1 = 0;
  cpusvn = bytes 16;
  attributemask = 0;
  xfrmmask = 0;
  keyid = bytes 32;
  miscmask = 0;
  reserved2 = bytes 436;
}

length-report_bytes-targetinfo_bytes_runs :
    (length (report_bytes report) ≡ 432)
    × (length (targetinfo_bytes targetinfo) ≡ 512)
    × (length (keyrequest_bytes keyrequest) ≡ 512)
length-report_bytes-targetinfo_bytes_runs =
    length-report_bytes-targetinfo_bytes report targetinfo keyrequest
      (record {
        cpusvn_size = refl;
        reserved1_size = refl;
        mrenclave_size = refl;
        reserved2_size = refl;
        mrsigner_size = refl;
        reserved3_size = refl;
        reserved4_size = refl;
        reportdata_size = refl;
        keyid_size = refl;
        mac_size = refl;
      })
      refl refl refl refl refl refl
