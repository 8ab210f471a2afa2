-- ===== src/SgxArch/Flags.antt =====
-- The flags and masks of dcap-le/include/asm/sgx_arch.h that the launch enclave and its tools leave to
-- the processor.
use pandora_examples.Prelude.{ℕ, ◌+◌, ◌-◌, ◌*◌, ◌^◌, ◌≡◌, refl}
use pandora_examples.SgxArch.{
  sgx_attr_mode64bit, sgx_attr_provisionkey, sgx_attr_einittokenkey, sgx_attr_reserved_mask,
  sgx_secinfo_tcs, sgx_secinfo_reg,
}

abbrev pub sgx_ssa_gprs_size : ℕ
sgx_ssa_gprs_size = 182

abbrev pub sgx_ssa_misc_exinfo_size : ℕ
sgx_ssa_misc_exinfo_size = 16

abbrev pub sgx_misc_exinfo : ℕ
sgx_misc_exinfo = 0x01

abbrev pub sgx_misc_reserved_mask : ℕ
sgx_misc_reserved_mask = 0xFFFFFFFFFFFFFFFE

abbrev pub sgx_attr_debug : ℕ
sgx_attr_debug = 0x002

abbrev pub sgx_attr_kss : ℕ
sgx_attr_kss = 0x080

abbrev pub sgx_attr_aex_notify : ℕ
sgx_attr_aex_notify = 0x400

abbrev pub sgx_tcs_dbgoptin : ℕ
sgx_tcs_dbgoptin = 0x01

abbrev pub sgx_tcs_reserved_mask : ℕ
sgx_tcs_reserved_mask = 0xFFFFFFFFFFFFFFFE

abbrev pub sgx_secinfo_permission_mask : ℕ
sgx_secinfo_permission_mask = 0x0000000000000007

abbrev pub sgx_secinfo_page_type_mask : ℕ
sgx_secinfo_page_type_mask = 0x000000000000FF00

abbrev pub sgx_secinfo_reserved_mask : ℕ
sgx_secinfo_reserved_mask = 0xFFFFFFFFFFFF00F8

abbrev pub sgx_page_type_secs : ℕ
sgx_page_type_secs = 0x00

abbrev pub sgx_page_type_tcs : ℕ
sgx_page_type_tcs = 0x01

abbrev pub sgx_page_type_reg : ℕ
sgx_page_type_reg = 0x02

abbrev pub sgx_page_type_va : ℕ
sgx_page_type_va = 0x03

abbrev pub sgx_secinfo_secs : ℕ
sgx_secinfo_secs = sgx_page_type_secs * 2 ^ 8

-- Each mask has the bits that the flags leave over.
masks_complete :
    (sgx_attr_debug + sgx_attr_mode64bit + sgx_attr_provisionkey + sgx_attr_einittokenkey
        + sgx_attr_kss + sgx_attr_aex_notify + sgx_attr_reserved_mask
      ≡ 2 ^ 64 - 1)
    × (sgx_misc_exinfo + sgx_misc_reserved_mask ≡ 2 ^ 64 - 1)
    × (sgx_tcs_dbgoptin + sgx_tcs_reserved_mask ≡ 2 ^ 64 - 1)
    × (sgx_secinfo_permission_mask + sgx_secinfo_page_type_mask + sgx_secinfo_reserved_mask
        ≡ 2 ^ 64 - 1)
masks_complete = (refl, refl, refl, refl)

-- A type of page stands in the second byte of the flags.
types_shifted :
    (sgx_secinfo_secs ≡ 0)
    × (sgx_secinfo_tcs ≡ sgx_page_type_tcs * 2 ^ 8)
    × (sgx_secinfo_reg ≡ sgx_page_type_reg * 2 ^ 8)
types_shifted = (refl, refl, refl)
