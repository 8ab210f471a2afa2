-- ===== src/SgxArch.antt =====
-- The structures of dcap-le/include/asm/sgx_arch.h that the launch enclave and the signing tool
-- use, field by field, and their bytes in memory. An array of bytes is a list.
pub mod Flags
pub mod Layout
pub mod Pages
mod Tests
use pandora_examples.Prelude.{ℕ, ◌+◌, ◌^◌, ◌≡◌, List, [], ◌∷◌, ◌++◌, length, replicate}
use pandora_examples.Prelude.Encode.{le, les}
use pandora_examples.LibC.{Bytes}

-- enum sgx_attribute
abbrev pub sgx_attr_mode64bit : ℕ
sgx_attr_mode64bit = 0x004

abbrev pub sgx_attr_provisionkey : ℕ
sgx_attr_provisionkey = 0x010

abbrev pub sgx_attr_einittokenkey : ℕ
sgx_attr_einittokenkey = 0x020

abbrev pub sgx_attr_reserved_mask : ℕ
sgx_attr_reserved_mask = 0xFFFFFFFFFFFFFB49

-- enum sgx_secinfo_flags
abbrev pub sgx_secinfo_r : ℕ
sgx_secinfo_r = 0x01

abbrev pub sgx_secinfo_w : ℕ
sgx_secinfo_w = 0x02

abbrev pub sgx_secinfo_x : ℕ
sgx_secinfo_x = 0x04

abbrev pub sgx_secinfo_tcs : ℕ
sgx_secinfo_tcs = 0x100

abbrev pub sgx_secinfo_reg : ℕ
sgx_secinfo_reg = 0x200

abbrev pub sgx_modulus_size : ℕ
sgx_modulus_size = 384

-- struct sgx_einittoken_payload
pub record EinittokenPayload : Type 0 where
  pub valid : ℕ
  pub reserved1 : List ℕ
  pub attributes : ℕ
  pub xfrm : ℕ
  pub mrenclave : Bytes
  pub reserved2 : Bytes
  pub mrsigner : Bytes
  pub reserved3 : Bytes

-- struct sgx_einittoken
pub record Einittoken : Type 0 where
  pub payload : EinittokenPayload
  pub cpusvnle : Bytes
  pub isvprodidle : ℕ
  pub isvsvnle : ℕ
  pub reserved2 : Bytes
  pub maskedmiscselectle : ℕ
  pub maskedattributesle : ℕ
  pub maskedxfrmle : ℕ
  pub keyid : Bytes
  pub mac : Bytes

-- struct sgx_report
pub record Report : Type 0 where
  pub cpusvn : Bytes
  pub miscselect : ℕ
  pub reserved1 : Bytes
  pub attributes : ℕ
  pub xfrm : ℕ
  pub mrenclave : Bytes
  pub reserved2 : Bytes
  pub mrsigner : Bytes
  pub reserved3 : Bytes
  pub isvprodid : ℕ
  pub isvsvn : ℕ
  pub reserved4 : Bytes
  pub reportdata : Bytes
  pub keyid : Bytes
  pub mac : Bytes

-- struct sgx_targetinfo
pub record Targetinfo : Type 0 where
  pub mrenclave : Bytes
  pub attributes : ℕ
  pub xfrm : ℕ
  pub reserved1 : Bytes
  pub miscselect : ℕ
  pub reserved2 : Bytes

-- struct sgx_keyrequest
pub record Keyrequest : Type 0 where
  pub keyname : ℕ
  pub keypolicy : ℕ
  pub isvsvn : ℕ
  pub reserved1 : ℕ
  pub cpusvn : Bytes
  pub attributemask : ℕ
  pub xfrmmask : ℕ
  pub keyid : Bytes
  pub miscmask : ℕ
  pub reserved2 : Bytes

-- struct sgx_sigstruct_header
pub record SigstructHeader : Type 0 where
  pub header1 : List ℕ
  pub vendor : ℕ
  pub date : ℕ
  pub header2 : List ℕ
  pub swdefined : ℕ
  pub reserved1 : Bytes

-- struct sgx_sigstruct_body
pub record SigstructBody : Type 0 where
  pub miscselect : ℕ
  pub miscmask : ℕ
  pub reserved2 : Bytes
  pub isvfamilyid : Bytes
  pub attributes : ℕ
  pub xfrm : ℕ
  pub attributesmask : ℕ
  pub xfrmmask : ℕ
  pub mrenclave : Bytes
  pub reserved3 : Bytes
  pub isvextprodid : Bytes
  pub isvprodid : ℕ
  pub isvsvn : ℕ

-- struct sgx_sigstruct
pub record Sigstruct : Type 0 where
  pub header : SigstructHeader
  pub modulus : Bytes
  pub exponent : ℕ
  pub signature : Bytes
  pub body : SigstructBody
  pub reserved4 : Bytes
  pub q1 : Bytes
  pub q2 : Bytes

-- struct sgx_sigstruct_payload
pub record SigstructPayload : Type 0 where
  pub header : SigstructHeader
  pub body : SigstructBody

-- The bytes of a packed struct sgx_einittoken_payload.
unfoldable pub payload_bytes : EinittokenPayload → Bytes
payload_bytes p =
    le 4 p.valid
    ++ (les 4 p.reserved1
        ++ (le 8 p.attributes
            ++ (le 8 p.xfrm ++ (p.mrenclave ++ (p.reserved2 ++ (p.mrsigner ++ p.reserved3))))))

unfoldable pub einittoken_bytes : Einittoken → Bytes
einittoken_bytes t =
    payload_bytes t.payload
    ++ (t.cpusvnle
        ++ (le 2 t.isvprodidle
            ++ (le 2 t.isvsvnle
                ++ (t.reserved2
                    ++ (le 4 t.maskedmiscselectle
                        ++ (le 8 t.maskedattributesle
                            ++ (le 8 t.maskedxfrmle ++ (t.keyid ++ t.mac))))))))

unfoldable pub header_bytes : SigstructHeader → Bytes
header_bytes h =
    les 8 h.header1
    ++ (le 4 h.vendor ++ (le 4 h.date ++ (les 8 h.header2 ++ (le 4 h.swdefined ++ h.reserved1))))

unfoldable pub body_bytes : SigstructBody → Bytes
body_bytes b =
    le 4 b.miscselect
    ++ (le 4 b.miscmask
        ++ (b.reserved2
            ++ (b.isvfamilyid
                ++ (le 8 b.attributes
                    ++ (le 8 b.xfrm
                        ++ (le 8 b.attributesmask
                            ++ (le 8 b.xfrmmask
                                ++ (b.mrenclave
                                    ++ (b.reserved3
                                        ++ (b.isvextprodid
                                            ++ (le 2 b.isvprodid ++ le 2 b.isvsvn)))))))))))

unfoldable pub sigstruct_bytes : Sigstruct → Bytes
sigstruct_bytes s =
    header_bytes s.header
    ++ (s.modulus
        ++ (le 4 s.exponent
            ++ (s.signature ++ (body_bytes s.body ++ (s.reserved4 ++ (s.q1 ++ s.q2))))))

unfoldable pub sigstruct_payload_bytes : SigstructPayload → Bytes
sigstruct_payload_bytes p = header_bytes p.header ++ body_bytes p.body
