-- ===== src/Inclavare/Arch.antt =====
-- The structures of inclavare/arch.h, with their bytes. A bit field enum is its value.
use pandora_examples.Prelude.{ℕ, ◌++◌, List}
use pandora_examples.Prelude.Encode.{le, les}
use pandora_examples.LibC.{Bytes}

-- enum sgx_return_code
abbrev pub sgx_not_tracked : ℕ
sgx_not_tracked = 11

abbrev pub sgx_invalid_einittoken : ℕ
sgx_invalid_einittoken = 16

abbrev pub sgx_unmasked_event : ℕ
sgx_unmasked_event = 128

-- The macros for sizes
abbrev pub sgx_modulus_size : ℕ
sgx_modulus_size = 384

abbrev pub sgx_exponent_size : ℕ
sgx_exponent_size = 1

abbrev pub sgx_tcs_reserved_size : ℕ
sgx_tcs_reserved_size = 4024

abbrev pub sgx_pcmd_reserved_size : ℕ
sgx_pcmd_reserved_size = 40

abbrev pub sgx_launch_token_size : ℕ
sgx_launch_token_size = 304

abbrev pub sgx_target_info_size : ℕ
sgx_target_info_size = 512

abbrev pub sgx_report_data_size : ℕ
sgx_report_data_size = 64

abbrev pub sgx_report_size : ℕ
sgx_report_size = 432

-- Bytes of a state save area
abbrev pub sgx_ssa_gprs_size : ℕ
sgx_ssa_gprs_size = 184

abbrev pub sgx_ssa_misc_exinfo_size : ℕ
sgx_ssa_misc_exinfo_size = 16

-- struct sgx_secs
pub record Secs : Type 0 where
  pub size : ℕ
  pub base : ℕ
  pub ssa_frame_size : ℕ
  pub miscselect : ℕ
  pub reserved1 : Bytes
  pub attributes : ℕ
  pub xfrm : ℕ
  pub mrenclave : List ℕ
  pub reserved2 : Bytes
  pub mrsigner : List ℕ
  pub reserved3 : Bytes
  pub config_id : List ℕ
  pub isv_prod_id : ℕ
  pub isv_svn : ℕ
  pub config_svn : ℕ
  pub reserved4 : Bytes

-- struct sgx_tcs
pub record Tcs : Type 0 where
  pub state : ℕ
  pub flags : ℕ
  pub ssa_offset : ℕ
  pub ssa_index : ℕ
  pub nr_ssa_frames : ℕ
  pub entry_offset : ℕ
  pub exit_addr : ℕ
  pub fs_offset : ℕ
  pub gs_offset : ℕ
  pub fs_limit : ℕ
  pub gs_limit : ℕ
  pub reserved : Bytes

-- struct sgx_pageinfo
pub record Pageinfo : Type 0 where
  pub addr : ℕ
  pub contents : ℕ
  pub metadata : ℕ
  pub secs : ℕ

-- struct sgx_secinfo
pub record Secinfo : Type 0 where
  pub flags : ℕ
  pub reserved : Bytes

-- struct sgx_pcmd
pub record Pcmd : Type 0 where
  pub secinfo : Secinfo
  pub enclave_id : ℕ
  pub reserved : Bytes
  pub mac : Bytes

-- struct sgx_sigstruct_header; `type` is spelled header_type
pub record SigstructHeader : Type 0 where
  pub header1 : Bytes
  pub header_type : ℕ
  pub vendor : ℕ
  pub date : ℕ
  pub header2 : Bytes
  pub swdefined : ℕ
  pub reserved1 : Bytes

-- struct sgx_sigstruct_body
pub record SigstructBody : Type 0 where
  pub miscselect : ℕ
  pub misc_mask : ℕ
  pub reserved2 : Bytes
  pub attributes : ℕ
  pub xfrm : ℕ
  pub attributes_mask : ℕ
  pub xfrm_mask : ℕ
  pub mrenclave : Bytes
  pub reserved3 : Bytes
  pub isvprodid : ℕ
  pub isvsvn : ℕ

-- struct sgx_sigstruct
pub record Sigstruct : Type 0 where
  pub header : SigstructHeader
  pub modulus : Bytes
  pub exponent : ℕ
  pub signature : Bytes
  pub body : SigstructBody
  pub reserved4 : Bytes
  pub q1 : Bytes
  pub q2 : Bytes

-- struct sgx_einittoken_payload
pub record EinittokenPayload : Type 0 where
  pub valid : ℕ
  pub reserved1 : List ℕ
  pub attributes : ℕ
  pub xfrm : ℕ
  pub mrenclave : Bytes
  pub reserved2 : Bytes
  pub mrsigner : Bytes
  pub reserved3 : Bytes

-- struct sgx_einittoken, which has no padding though it is not packed
pub record Einittoken : Type 0 where
  pub payload : EinittokenPayload
  pub cpusvnle : Bytes
  pub isvprodidle : ℕ
  pub isvsvnle : ℕ
  pub reserved2 : Bytes
  pub maskedmiscselectle : ℕ
  pub maskedattributesle : ℕ
  pub maskedxfrmle : ℕ
  pub keyid : Bytes
  pub mac : Bytes

-- struct sgx_target_info
pub record TargetInfo : Type 0 where
  pub mrenclave : Bytes
  pub attributes : ℕ
  pub xfrm : ℕ
  pub cetattributes : ℕ
  pub reserved1 : ℕ
  pub config_svn : ℕ
  pub miscselect : ℕ
  pub reserved2 : Bytes
  pub config_id : List ℕ
  pub reserved3 : Bytes

-- struct sgx_report_body
pub record ReportBody : Type 0 where
  pub cpusvn : Bytes
  pub miscselect : ℕ
  pub cetattributes : ℕ
  pub reserved1 : Bytes
  pub isv_ext_prod_id : List ℕ
  pub attributes : ℕ
  pub xfrm : ℕ
  pub mrenclave : Bytes
  pub reserved2 : Bytes
  pub mrsigner : Bytes
  pub reserved3 : Bytes
  pub config_id : List ℕ
  pub isv_prod_id : ℕ
  pub isv_svn : ℕ
  pub config_svn : ℕ
  pub reserved4 : Bytes
  pub isv_family_id : Bytes
  pub report_data : Bytes

-- struct sgx_report
pub record Report : Type 0 where
  pub body : ReportBody
  pub key_id : Bytes
  pub mac : Bytes

unfoldable pub secs_bytes : Secs → Bytes
secs_bytes s =
    le 8 s.size
    ++ (le 8 s.base
        ++ (le 4 s.ssa_frame_size
            ++ (le 4 s.miscselect
                ++ (s.reserved1
                    ++ (le 8 s.attributes
                        ++ (le 8 s.xfrm
                            ++ (les 4 s.mrenclave
                                ++ (s.reserved2
                                    ++ (les 4 s.mrsigner
                                        ++ (s.reserved3
                                            ++ (les 4 s.config_id
                                                ++ (le 2 s.isv_prod_id
                                                    ++ (le 2 s.isv_svn
                                                        ++ (le 2 s.config_svn
                                                            ++ s.reserved4))))))))))))))

unfoldable pub tcs_bytes : Tcs → Bytes
tcs_bytes t =
    le 8 t.state
    ++ (le 8 t.flags
        ++ (le 8 t.ssa_offset
            ++ (le 4 t.ssa_index
                ++ (le 4 t.nr_ssa_frames
                    ++ (le 8 t.entry_offset
                        ++ (le 8 t.exit_addr
                            ++ (le 8 t.fs_offset
                                ++ (le 8 t.gs_offset
                                    ++ (le 4 t.fs_limit ++ (le 4 t.gs_limit ++ t.reserved))))))))))

unfoldable pub pageinfo_bytes : Pageinfo → Bytes
pageinfo_bytes p = le 8 p.addr ++ (le 8 p.contents ++ (le 8 p.metadata ++ le 8 p.secs))

unfoldable pub secinfo_bytes : Secinfo → Bytes
secinfo_bytes s = le 8 s.flags ++ s.reserved

unfoldable pub pcmd_bytes : Pcmd → Bytes
pcmd_bytes p = secinfo_bytes p.secinfo ++ (le 8 p.enclave_id ++ (p.reserved ++ p.mac))

unfoldable pub header_bytes : SigstructHeader → Bytes
header_bytes h =
    h.header1
    ++ (le 4 h.header_type
        ++ (le 4 h.vendor ++ (le 4 h.date ++ (h.header2 ++ (le 4 h.swdefined ++ h.reserved1)))))

unfoldable pub body_bytes : SigstructBody → Bytes
body_bytes b =
    le 4 b.miscselect
    ++ (le 4 b.misc_mask
        ++ (b.reserved2
            ++ (le 8 b.attributes
                ++ (le 8 b.xfrm
                    ++ (le 8 b.attributes_mask
                        ++ (le 8 b.xfrm_mask
                            ++ (b.mrenclave
                                ++ (b.reserved3 ++ (le 2 b.isvprodid ++ le 2 b.isvsvn)))))))))

unfoldable pub sigstruct_bytes : Sigstruct → Bytes
sigstruct_bytes s =
    header_bytes s.header
    ++ (s.modulus
        ++ (le 4 s.exponent
            ++ (s.signature ++ (body_bytes s.body ++ (s.reserved4 ++ (s.q1 ++ s.q2))))))

unfoldable pub payload_bytes : EinittokenPayload → Bytes
payload_bytes p =
    le 4 p.valid
    ++ (les 4 p.reserved1
        ++ (le 8 p.attributes
            ++ (le 8 p.xfrm ++ (p.mrenclave ++ (p.reserved2 ++ (p.mrsigner ++ p.reserved3))))))

unfoldable pub einittoken_bytes : Einittoken → Bytes
einittoken_bytes t =
    payload_bytes t.payload
    ++ (t.cpusvnle
        ++ (le 2 t.isvprodidle
            ++ (le 2 t.isvsvnle
                ++ (t.reserved2
                    ++ (le 4 t.maskedmiscselectle
                        ++ (le 8 t.maskedattributesle
                            ++ (le 8 t.maskedxfrmle ++ (t.keyid ++ t.mac))))))))

unfoldable pub target_info_bytes : TargetInfo → Bytes
target_info_bytes t =
    t.mrenclave
    ++ (le 8 t.attributes
        ++ (le 8 t.xfrm
            ++ (le 1 t.cetattributes
                ++ (le 1 t.reserved1
                    ++ (le 2 t.config_svn
                        ++ (le 4 t.miscselect
                            ++ (t.reserved2 ++ (les 4 t.config_id ++ t.reserved3))))))))

unfoldable pub report_body_bytes : ReportBody → Bytes
report_body_bytes b =
    b.cpusvn
    ++ (le 4 b.miscselect
        ++ (le 1 b.cetattributes
            ++ (b.reserved1
                ++ (les 2 b.isv_ext_prod_id
                    ++ (le 8 b.attributes
                        ++ (le 8 b.xfrm
                            ++ (b.mrenclave
                                ++ (b.reserved2
                                    ++ (b.mrsigner
                                        ++ (b.reserved3
                                            ++ (les 4 b.config_id
                                                ++ (le 2 b.isv_prod_id
                                                    ++ (le 2 b.isv_svn
                                                        ++ (le 2 b.config_svn
                                                            ++ (b.reserved4
                                                            ++ (b.isv_family_id
                                                            ++ b.report_data))))))))))))))))

unfoldable pub report_bytes : Report → Bytes
report_bytes r = report_body_bytes r.body ++ (r.key_id ++ r.mac)
