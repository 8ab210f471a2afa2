-- ===== src/Inclavare/Layout.antt =====
-- The structures of inclavare/arch.h against those of dcap-le/include/asm/sgx_arch.h, which divide
-- some fields otherwise.
use mathlib.Core.List.{append_assoc}
use pandora_examples.Prelude.{
  ℕ, ◌%◌, ◌^◌, ◌≡◌, refl, ap, ap₂, sym, ◌∙◌, arith, List, [], ◌∷◌, ◌++◌, length, take, drop,
}
use pandora_examples.Prelude.Encode.{le, les, of_le}
use pandora_examples.SgxArch as Dcap
use pandora_examples.SgxArch.Pages as DcapPages
use pandora_examples.Inclavare.Arch.{
  Secs, SigstructHeader, SigstructBody, Sigstruct, TargetInfo, Report, secs_bytes, header_bytes,
  body_bytes, sigstruct_bytes, target_info_bytes, report_body_bytes, report_bytes,
}

-- The dcap-le form of each structure. What arch.h divides and sgx_arch.h reserves is put together.
pub to_secs : Secs → DcapPages.Secs
to_secs s = record {
  size = s.size;
  base = s.base;
  ssaframesize = s.ssa_frame_size;
  miscselect = s.miscselect;
  reserved1 = s.reserved1;
  attributes = s.attributes;
  xfrm = s.xfrm;
  mrenclave = s.mrenclave;
  reserved2 = s.reserved2;
  mrsigner = s.mrsigner;
  reserved3 = s.reserved3;
  configid = s.config_id;
  isvvprodid = s.isv_prod_id;
  isvsvn = s.isv_svn;
  configsvn = s.config_svn;
  reserved4 = s.reserved4;
}

pub to_report : Report → Dcap.Report
to_report r =
    let b = r.body in
    record {
      cpusvn = b.cpusvn;
      miscselect = b.miscselect;
      reserved1 = le 1 b.cetattributes ++ (b.reserved1 ++ les 2 b.isv_ext_prod_id);
      attributes = b.attributes;
      xfrm = b.xfrm;
      mrenclave = b.mrenclave;
      reserved2 = b.reserved2;
      mrsigner = b.mrsigner;
      reserved3 = b.reserved3 ++ les 4 b.config_id;
      isvprodid = b.isv_prod_id;
      isvsvn = b.isv_svn;
      reserved4 = le 2 b.config_svn ++ (b.reserved4 ++ b.isv_family_id);
      reportdata = b.report_data;
      keyid = r.key_id;
      mac = r.mac;
    }

pub to_targetinfo : TargetInfo → Dcap.Targetinfo
to_targetinfo t = record {
  mrenclave = t.mrenclave;
  attributes = t.attributes;
  xfrm = t.xfrm;
  reserved1 = le 1 t.cetattributes ++ (le 1 t.reserved1 ++ le 2 t.config_svn);
  miscselect = t.miscselect;
  reserved2 = t.reserved2 ++ (les 4 t.config_id ++ t.reserved3);
}

-- The other way round, sgx_arch.h divides the body of a signature structure further.
pub from_body : Dcap.SigstructBody → SigstructBody
from_body b = record {
  miscselect = b.miscselect;
  misc_mask = b.miscmask;
  reserved2 = b.reserved2 ++ b.isvfamilyid;
  attributes = b.attributes;
  xfrm = b.xfrm;
  attributes_mask = b.attributesmask;
  xfrm_mask = b.xfrmmask;
  mrenclave = b.mrenclave;
  reserved3 = b.reserved3 ++ b.isvextprodid;
  isvprodid = b.isvprodid;
  isvsvn = b.isvsvn;
}

-- The first sixteen bytes of a header are two words there, and twelve bytes and the type here.
pub from_header : Dcap.SigstructHeader → SigstructHeader
from_header h = record {
  header1 = take 12 (les 8 h.header1);
  header_type = of_le (drop 12 (les 8 h.header1));
  vendor = h.vendor;
  date = h.date;
  header2 = les 8 h.header2;
  swdefined = h.swdefined;
  reserved1 = h.reserved1;
}

pub from_sigstruct : Dcap.Sigstruct → Sigstruct
from_sigstruct s = record {
  header = from_header s.header;
  modulus = s.modulus;
  exponent = s.exponent;
  signature = s.signature;
  body = from_body s.body;
  reserved4 = s.reserved4;
  q1 = s.q1;
  q2 = s.q2;
}

report_bytes-to_report : (r : Report) → DcapPages.report_bytes (to_report r) ≡ report_bytes r
unfolding DcapPages.report_bytes to_report report_bytes report_body_bytes
report_bytes-to_report r = simp append_assoc

target_info_bytes-to_targetinfo :
    (t : TargetInfo) → DcapPages.targetinfo_bytes (to_targetinfo t) ≡ target_info_bytes t
unfolding DcapPages.targetinfo_bytes to_targetinfo target_info_bytes
target_info_bytes-to_targetinfo t = simp append_assoc

body_bytes-from_body : (b : Dcap.SigstructBody) → body_bytes (from_body b) ≡ Dcap.body_bytes b
unfolding body_bytes from_body Dcap.body_bytes
body_bytes-from_body b = simp append_assoc

-- Four bytes are the bytes of the number they stand for.
le-of_le :
    (p q r s : ℕ)
    → le 4 (of_le (p ∷ q ∷ r ∷ s ∷ [])) ≡ (p % 2 ^ 8) ∷ (q % 2 ^ 8) ∷ (r % 2 ^ 8) ∷ (s % 2 ^ 8) ∷ []
unfolding le of_le
le-of_le p q r s =
    ap₂ ◌∷◌ (omega arith)
      (ap₂ ◌∷◌ (omega arith) (ap₂ ◌∷◌ (omega arith) (ap₂ ◌∷◌ (omega arith) refl)))

-- The bytes from the thirteenth on of two words are one word of four bytes.
split_words :
    (xs : List ℕ)
    → length xs ≡ 2
    → take 12 (les 8 xs) ++ le 4 (of_le (drop 12 (les 8 xs))) ≡ les 8 xs
unfolding les le
split_words [] two = absurd (omega arith)
split_words (a ∷ []) two = absurd (omega arith)
split_words (a ∷ b ∷ c ∷ xs) two = absurd (omega arith)
split_words (a ∷ b ∷ []) two =
    ap (λ l. take 12 (les 8 (a ∷ b ∷ [])) ++ l)
      (le-of_le _ _ _ _
        ∙ ap₂ ◌∷◌ (omega arith)
            (ap₂ ◌∷◌ (omega arith) (ap₂ ◌∷◌ (omega arith) (ap₂ ◌∷◌ (omega arith) refl))))

header_bytes-from_header :
    (h : Dcap.SigstructHeader)
    → length h.header1 ≡ 2
    → header_bytes (from_header h) ≡ Dcap.header_bytes h
unfolding header_bytes from_header Dcap.header_bytes
header_bytes-from_header h two =
    let rest =
      le 4 h.vendor ++ (le 4 h.date ++ (les 8 h.header2 ++ (le 4 h.swdefined ++ h.reserved1))) in
    sym (append_assoc (take 12 (les 8 h.header1)) (le 4 (of_le (drop 12 (les 8 h.header1)))) rest)
    ∙ ap (λ l. l ++ rest) (split_words h.header1 two)

sigstruct_bytes-from_sigstruct :
    (s : Dcap.Sigstruct)
    → length s.header.header1 ≡ 2
    → sigstruct_bytes (from_sigstruct s) ≡ Dcap.sigstruct_bytes s
unfolding sigstruct_bytes from_sigstruct Dcap.sigstruct_bytes
sigstruct_bytes-from_sigstruct s two =
    ap₂
      (λ h b.
        h
        ++ (s.modulus
            ++ (le 4 s.exponent ++ (s.signature ++ (b ++ (s.reserved4 ++ (s.q1 ++ s.q2)))))))
      (header_bytes-from_header s.header two) (body_bytes-from_body s.body)

secs_bytes-to_secs : (s : Secs) → DcapPages.secs_bytes (to_secs s) ≡ secs_bytes s
unfolding DcapPages.secs_bytes to_secs secs_bytes
secs_bytes-to_secs s = refl

-- The two headers lay the structures out alike, field by field, where they divide the bytes
-- otherwise: a SECS, a report and a target info of arch.h have the bytes of their sgx_arch.h form, and
-- a signature structure of sgx_arch.h whose header starts with two words has the bytes of its
-- arch.h form.
pub arch-sgx_arch :
    (c : Secs) (r : Report) (t : TargetInfo) (s : Dcap.Sigstruct)
    → length s.header.header1 ≡ 2
    → (DcapPages.secs_bytes (to_secs c) ≡ secs_bytes c)
      × (DcapPages.report_bytes (to_report r) ≡ report_bytes r)
      × (DcapPages.targetinfo_bytes (to_targetinfo t) ≡ target_info_bytes t)
      × (sigstruct_bytes (from_sigstruct s) ≡ Dcap.sigstruct_bytes s)
arch-sgx_arch c r t s two = (
  secs_bytes-to_secs c,
  report_bytes-to_report r,
  target_info_bytes-to_targetinfo t,
  sigstruct_bytes-from_sigstruct s two,
)
