-- ===== src/Inclavare/Sizes.antt =====
-- The sizes of the structures of inclavare/arch.h, against its static assertions and its macros.
use pandora_examples.Prelude.{◌≡◌, length}
use pandora_examples.Prelude.Encode.{sizes}
use pandora_examples.Inclavare.Arch.{
  Tcs, Pageinfo, Pcmd, Einittoken, TargetInfo, ReportBody, Report, tcs_bytes, pageinfo_bytes,
  secinfo_bytes, pcmd_bytes, payload_bytes, einittoken_bytes, target_info_bytes, report_body_bytes,
  report_bytes, sgx_launch_token_size, sgx_target_info_size, sgx_report_size, sgx_tcs_reserved_size,
  sgx_pcmd_reserved_size,
}

-- The arrays have their declared sizes.
pub record IsPcmd (p : Pcmd) : Type 0 where
  pub secinfo_reserved_size : length p.secinfo.reserved ≡ 56
  pub reserved_size : length p.reserved ≡ sgx_pcmd_reserved_size
  pub mac_size : length p.mac ≡ 16

pub record IsEinittoken (t : Einittoken) : Type 0 where
  pub reserved1_size : length t.payload.reserved1 ≡ 11
  pub mrenclave_size : length t.payload.mrenclave ≡ 32
  pub payload_reserved2_size : length t.payload.reserved2 ≡ 32
  pub mrsigner_size : length t.payload.mrsigner ≡ 32
  pub reserved3_size : length t.payload.reserved3 ≡ 32
  pub cpusvnle_size : length t.cpusvnle ≡ 16
  pub reserved2_size : length t.reserved2 ≡ 24
  pub keyid_size : length t.keyid ≡ 32
  pub mac_size : length t.mac ≡ 16

pub record IsTargetInfo (t : TargetInfo) : Type 0 where
  pub mrenclave_size : length t.mrenclave ≡ 32
  pub reserved2_size : length t.reserved2 ≡ 8
  pub config_id_size : length t.config_id ≡ 16
  pub reserved3_size : length t.reserved3 ≡ 384

pub record IsReportBody (b : ReportBody) : Type 0 where
  pub cpusvn_size : length b.cpusvn ≡ 16
  pub reserved1_size : length b.reserved1 ≡ 11
  pub isv_ext_prod_id_size : length b.isv_ext_prod_id ≡ 8
  pub mrenclave_size : length b.mrenclave ≡ 32
  pub reserved2_size : length b.reserved2 ≡ 32
  pub mrsigner_size : length b.mrsigner ≡ 32
  pub reserved3_size : length b.reserved3 ≡ 32
  pub config_id_size : length b.config_id ≡ 16
  pub reserved4_size : length b.reserved4 ≡ 42
  pub isv_family_id_size : length b.isv_family_id ≡ 16
  pub report_data_size : length b.report_data ≡ 64

pub record IsReport (r : Report) : Type 0 where
  pub body_sizes : IsReportBody r.body
  pub key_id_size : length r.key_id ≡ 32
  pub mac_size : length r.mac ≡ 16

length-tcs_bytes :
    (t : Tcs) → length t.reserved ≡ sgx_tcs_reserved_size → length (tcs_bytes t) ≡ 4096
unfolding tcs_bytes
length-tcs_bytes t w = omega sizes

length-pageinfo_bytes : (p : Pageinfo) → length (pageinfo_bytes p) ≡ 32
unfolding pageinfo_bytes
length-pageinfo_bytes p = omega sizes

length-pcmd_bytes : (p : Pcmd) → IsPcmd p → length (pcmd_bytes p) ≡ 128
unfolding pcmd_bytes secinfo_bytes
length-pcmd_bytes p w = omega sizes

length-einittoken_bytes :
    (t : Einittoken) → IsEinittoken t → length (einittoken_bytes t) ≡ sgx_launch_token_size
unfolding einittoken_bytes payload_bytes
length-einittoken_bytes t w = omega sizes

length-target_info_bytes :
    (t : TargetInfo) → IsTargetInfo t → length (target_info_bytes t) ≡ sgx_target_info_size
unfolding target_info_bytes
length-target_info_bytes t w = omega sizes

length-report_body_bytes : (b : ReportBody) → IsReportBody b → length (report_body_bytes b) ≡ 384
unfolding report_body_bytes
length-report_body_bytes b w = omega sizes

length-report_bytes : (r : Report) → IsReport r → length (report_bytes r) ≡ sgx_report_size
unfolding report_bytes
length-report_bytes r w = omega (sizes, length-report_body_bytes r.body w.body_sizes)

-- Where the arrays have their declared sizes, the structures take the bytes that the macros of
-- arch.h count: 512 a target info, 432 a report without its padding, 304 a launch token; a TCS takes a
-- page, a PAGEINFO 32 bytes and a PCMD 128.
pub sizes-arch :
    (t : Tcs) (i : Pageinfo) (p : Pcmd) (k : Einittoken) (g : TargetInfo) (r : Report)
    → length t.reserved ≡ sgx_tcs_reserved_size
    → IsPcmd p
    → IsEinittoken k
    → IsTargetInfo g
    → IsReport r
    → (length (target_info_bytes g) ≡ sgx_target_info_size)
      × (length (report_bytes r) ≡ sgx_report_size)
      × (length (einittoken_bytes k) ≡ sgx_launch_token_size)
      × (length (tcs_bytes t) ≡ 4096)
      × (length (pageinfo_bytes i) ≡ 32)
      × (length (pcmd_bytes p) ≡ 128)
sizes-arch t i p k g r ht hp hk hg hr = (
  length-target_info_bytes g hg,
  length-report_bytes r hr,
  length-einittoken_bytes k hk,
  length-tcs_bytes t ht,
  length-pageinfo_bytes i,
  length-pcmd_bytes p hp,
)
