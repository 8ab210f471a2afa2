-- ===== src/SgxArch/Pages.antt =====
-- The structures of dcap-le/include/asm/sgx_arch.h that the processor keeps in pages or takes as
-- operands, with their bytes and sizes.
use pandora_examples.Prelude.{ℕ, ◌*◌, ◌≡◌, List, length, ◌++◌}
use pandora_examples.Prelude.Encode.{le, les, sizes}
use pandora_examples.LibC.{Bytes}
use pandora_examples.SgxArch.{Report, Targetinfo, Keyrequest}

-- struct sgx_secs, of which a digest is eight words
pub record Secs : Type 0 where
  pub size : ℕ
  pub base : ℕ
  pub ssaframesize : ℕ
  pub miscselect : ℕ
  pub reserved1 : Bytes
  pub attributes : ℕ
  pub xfrm : ℕ
  pub mrenclave : List ℕ
  pub reserved2 : Bytes
  pub mrsigner : List ℕ
  pub reserved3 : Bytes
  pub configid : List ℕ
  pub isvvprodid : ℕ
  pub isvsvn : ℕ
  pub configsvn : ℕ
  pub reserved4 : Bytes

-- struct sgx_tcs
pub record Tcs : Type 0 where
  pub state : ℕ
  pub flags : ℕ
  pub ossa : ℕ
  pub cssa : ℕ
  pub nssa : ℕ
  pub oentry : ℕ
  pub aep : ℕ
  pub ofsbase : ℕ
  pub ogsbase : ℕ
  pub fslimit : ℕ
  pub gslimit : ℕ
  pub reserved : List ℕ

-- struct sgx_pageinfo; the union of `secinfo` and `pcmd` is the one field `secinfo`
pub record Pageinfo : Type 0 where
  pub linaddr : ℕ
  pub srcpge : ℕ
  pub secinfo : ℕ
  pub secs : ℕ

-- struct sgx_secinfo
pub record Secinfo : Type 0 where
  pub flags : ℕ
  pub reserved : List ℕ

-- struct sgx_pcmd
pub record Pcmd : Type 0 where
  pub secinfo : Secinfo
  pub enclave_id : ℕ
  pub reserved : Bytes
  pub mac : Bytes

unfoldable pub secs_bytes : Secs → Bytes
secs_bytes s =
    le 8 s.size
    ++ (le 8 s.base
        ++ (le 4 s.ssaframesize
            ++ (le 4 s.miscselect
                ++ (s.reserved1
                    ++ (le 8 s.attributes
                        ++ (le 8 s.xfrm
                            ++ (les 4 s.mrenclave
                                ++ (s.reserved2
                                    ++ (les 4 s.mrsigner
                                        ++ (s.reserved3
                                            ++ (les 4 s.configid
                                                ++ (le 2 s.isvvprodid
                                                    ++ (le 2 s.isvsvn
                                                        ++ (le 2 s.configsvn
                                                            ++ s.reserved4))))))))))))))

unfoldable pub tcs_bytes : Tcs → Bytes
tcs_bytes t =
    le 8 t.state
    ++ (le 8 t.flags
        ++ (le 8 t.ossa
            ++ (le 4 t.cssa
                ++ (le 4 t.nssa
                    ++ (le 8 t.oentry
                        ++ (le 8 t.aep
                            ++ (le 8 t.ofsbase
                                ++ (le 8 t.ogsbase
                                    ++ (le 4 t.fslimit
                                        ++ (le 4 t.gslimit ++ les 8 t.reserved))))))))))

unfoldable pub pageinfo_bytes : Pageinfo → Bytes
pageinfo_bytes p = le 8 p.linaddr ++ (le 8 p.srcpge ++ (le 8 p.secinfo ++ le 8 p.secs))

unfoldable pub secinfo_bytes : Secinfo → Bytes
secinfo_bytes s = le 8 s.flags ++ les 8 s.reserved

unfoldable pub pcmd_bytes : Pcmd → Bytes
pcmd_bytes p = secinfo_bytes p.secinfo ++ (le 8 p.enclave_id ++ (p.reserved ++ p.mac))

unfoldable pub report_bytes : Report → Bytes
report_bytes r =
    r.cpusvn
    ++ (le 4 r.miscselect
        ++ (r.reserved1
            ++ (le 8 r.attributes
                ++ (le 8 r.xfrm
                    ++ (r.mrenclave
                        ++ (r.reserved2
                            ++ (r.mrsigner
                                ++ (r.reserved3
                                    ++ (le 2 r.isvprodid
                                        ++ (le 2 r.isvsvn
                                            ++ (r.reserved4
                                                ++ (r.reportdata ++ (r.keyid ++ r.mac)))))))))))))

unfoldable pub targetinfo_bytes : Targetinfo → Bytes
targetinfo_bytes t =
    t.mrenclave
    ++ (le 8 t.attributes ++ (le 8 t.xfrm ++ (t.reserved1 ++ (le 4 t.miscselect ++ t.reserved2))))

unfoldable pub keyrequest_bytes : Keyrequest → Bytes
keyrequest_bytes k =
    le 2 k.keyname
    ++ (le 2 k.keypolicy
        ++ (le 2 k.isvsvn
            ++ (le 2 k.reserved1
                ++ (k.cpusvn
                    ++ (le 8 k.attributemask
                        ++ (le 8 k.xfrmmask ++ (k.keyid ++ (le 4 k.miscmask ++ k.reserved2))))))))

-- The arrays have their declared sizes.
pub record IsSecs (s : Secs) : Type 0 where
  pub reserved1_size : length s.reserved1 ≡ 24
  pub mrenclave_size : length s.mrenclave ≡ 8
  pub reserved2_size : length s.reserved2 ≡ 32
  pub mrsigner_size : length s.mrsigner ≡ 8
  pub reserved3_size : length s.reserved3 ≡ 32
  pub configid_size : length s.configid ≡ 16
  pub reserved4_size : length s.reserved4 ≡ 3834

pub record IsReport (r : Report) : Type 0 where
  pub cpusvn_size : length r.cpusvn ≡ 16
  pub reserved1_size : length r.reserved1 ≡ 28
  pub mrenclave_size : length r.mrenclave ≡ 32
  pub reserved2_size : length r.reserved2 ≡ 32
  pub mrsigner_size : length r.mrsigner ≡ 32
  pub reserved3_size : length r.reserved3 ≡ 96
  pub reserved4_size : length r.reserved4 ≡ 60
  pub reportdata_size : length r.reportdata ≡ 64
  pub keyid_size : length r.keyid ≡ 32
  pub mac_size : length r.mac ≡ 16

pub record IsPcmd (p : Pcmd) : Type 0 where
  pub secinfo_size : length p.secinfo.reserved ≡ 7
  pub reserved_size : length p.reserved ≡ 40
  pub mac_size : length p.mac ≡ 16

-- A SECS and a TCS fill a page, and PCMD takes 128 bytes, twice what the SECINFO in it takes.
pub length-secs_bytes-tcs_bytes :
    (s : Secs) (t : Tcs) (p : Pcmd)
    → IsSecs s
    → length t.reserved ≡ 503
    → IsPcmd p
    → (length (secs_bytes s) ≡ 4096)
      × (length (tcs_bytes t) ≡ 4096)
      × (length (pcmd_bytes p) ≡ 2 * length (secinfo_bytes p.secinfo))
      × (length (pcmd_bytes p) ≡ 128)
unfolding secs_bytes tcs_bytes pcmd_bytes secinfo_bytes
length-secs_bytes-tcs_bytes s t p ws wt wp = (omega sizes, omega sizes, omega sizes, omega sizes)

-- The operands of EREPORT and EGETKEY: TARGETINFO and KEYREQUEST fill the 512 bytes that they are
-- aligned to, and REPORT takes 432.
pub length-report_bytes-targetinfo_bytes :
    (r : Report) (t : Targetinfo) (k : Keyrequest)
    → IsReport r
    → length t.mrenclave ≡ 32
    → length t.reserved1 ≡ 4
    → length t.reserved2 ≡ 456
    → length k.cpusvn ≡ 16
    → length k.keyid ≡ 32
    → length k.reserved2 ≡ 436
    → (length (report_bytes r) ≡ 432)
      × (length (targetinfo_bytes t) ≡ 512)
      × (length (keyrequest_bytes k) ≡ 512)
unfolding report_bytes targetinfo_bytes keyrequest_bytes
length-report_bytes-targetinfo_bytes r t k wr a b c d f g = (omega sizes, omega sizes, omega sizes)
