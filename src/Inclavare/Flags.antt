-- ===== src/Inclavare/Flags.antt =====
-- The enumerations of flags of inclavare/arch.h and the masks over them.
use pandora_examples.Prelude.{ℕ, ◌+◌, ◌-◌, ◌*◌, ◌/◌, ◌%◌, ◌^◌, ◌<◌, ◌≡◌, refl, arith}

-- enum sgx_attribute
abbrev pub sgx_attr_init : ℕ
sgx_attr_init = 2 ^ 0

abbrev pub sgx_attr_debug : ℕ
sgx_attr_debug = 2 ^ 1

abbrev pub sgx_attr_mode64bit : ℕ
sgx_attr_mode64bit = 2 ^ 2

abbrev pub sgx_attr_provisionkey : ℕ
sgx_attr_provisionkey = 2 ^ 4

abbrev pub sgx_attr_einittokenkey : ℕ
sgx_attr_einittokenkey = 2 ^ 5

abbrev pub sgx_attr_kss : ℕ
sgx_attr_kss = 2 ^ 7

-- The masks, whose bits are different ones.
abbrev pub sgx_attr_reserved_mask : ℕ
sgx_attr_reserved_mask = 2 ^ 3 + 2 ^ 6 + (2 ^ 64 - 2 ^ 8)

abbrev pub sgx_attr_allowed_mask : ℕ
sgx_attr_allowed_mask =
    sgx_attr_debug + sgx_attr_mode64bit + sgx_attr_provisionkey + sgx_attr_einittokenkey
    + sgx_attr_kss

-- Every attribute bit but INIT is either allowed or reserved.
masks_partition : sgx_attr_init + sgx_attr_allowed_mask + sgx_attr_reserved_mask ≡ 2 ^ 64 - 1
masks_partition = refl

-- enum sgx_page_type
pub data PageType : Type 0 where
  secs : PageType
  tcs : PageType
  reg : PageType
  va : PageType
  trim : PageType

unfoldable pub page_type : PageType → ℕ
page_type secs = 0
page_type tcs = 1
page_type reg = 2
page_type va = 3
page_type trim = 4

abbrev pub sgx_nr_page_types : ℕ
sgx_nr_page_types = 5

-- SGX_SECINFO_R, SGX_SECINFO_W and SGX_SECINFO_X
abbrev pub sgx_secinfo_r : ℕ
sgx_secinfo_r = 2 ^ 0

abbrev pub sgx_secinfo_w : ℕ
sgx_secinfo_w = 2 ^ 1

abbrev pub sgx_secinfo_x : ℕ
sgx_secinfo_x = 2 ^ 2

-- SGX_SECINFO_SECS, SGX_SECINFO_TCS, SGX_SECINFO_REG, SGX_SECINFO_VA and SGX_SECINFO_TRIM
unfoldable pub sgx_secinfo : PageType → ℕ
unfolding page_type
sgx_secinfo t = page_type t * 2 ^ 8

-- `flags & SGX_SECINFO_PERMISSION_MASK`, the three low bits
abbrev pub permissions : ℕ → ℕ
permissions flags = flags % 2 ^ 3

-- `flags & SGX_SECINFO_PAGE_TYPE_MASK`, the bits from the eighth to the fifteenth
abbrev pub page_type_bits : ℕ → ℕ
page_type_bits flags = flags / 2 ^ 8 % 2 ^ 8 * 2 ^ 8

-- `flags & SGX_SECINFO_RESERVED_MASK`, what the other two masks leave
abbrev pub reserved_bits : ℕ → ℕ
reserved_bits flags = flags - permissions flags - page_type_bits flags

page_type-lt : (t : PageType) → page_type t < sgx_nr_page_types
unfolding page_type
page_type-lt secs = omega arith
page_type-lt tcs = omega arith
page_type-lt reg = omega arith
page_type-lt va = omega arith
page_type-lt trim = omega arith

-- The flags of a page's SECINFO, made of permissions and a page type, are taken apart by the masks:
-- the one gives the permissions, the other the type, and no reserved bit is set.
pub secinfo-masks :
    (p : ℕ) (t : PageType)
    → p < 2 ^ 3
    → (permissions (p + sgx_secinfo t) ≡ p)
      × (page_type_bits (p + sgx_secinfo t) ≡ sgx_secinfo t)
      × (reserved_bits (p + sgx_secinfo t) ≡ 0)
unfolding sgx_secinfo
secinfo-masks p t small = let lt = page_type-lt t in (omega arith, omega arith, omega arith)
