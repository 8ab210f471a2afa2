-- ===== src/SignTool.antt =====
-- The signing tool, dcap-le/sgxsign.c. OpenSSL is a `Crypto`, and a file is what the tool reads of
-- it. The tool's messages are left out.
pub mod Measure
pub mod EnclaveSize
pub mod Measurement
pub mod Sign
pub mod Library
pub mod Resources
pub mod Reversal
pub mod Quotients
pub mod Detached
mod Tests
mod LibraryTests
use pandora_examples.Prelude.{
  ℕ, zero, suc, ◌+◌, ◌-◌, ◌*◌, ◌%◌, ◌^◌, Bool, List, [], ◌∷◌, Option, none, some, ltb,
  if◌then◌else◌, length, get_or, set,
}
use pandora_examples.Prelude.Words.{u64_mod}
use pandora_examples.LibC.{Bytes}

-- How a function of the tool ends: with a value, with false, by exit(1), not at all within the
-- rounds given to its loops, or without a meaning in C.
pub data Outcome (A : Type 0) : Type 0 where
  ok : A → Outcome A
  failed : Outcome A
  exited : Outcome A
  no_return : Outcome A
  undefined : Outcome A

infixl 5 ◌>>=◌
abbrev pub ◌>>=◌ : {A B : Type 0} → Outcome A → (A → Outcome B) → Outcome B
ok a >>= f = f a
failed >>= f = failed
exited >>= f = exited
no_return >>= f = no_return
undefined >>= f = undefined

-- What OpenSSL does. A digest context is the bytes that went in; an operation that fails gives
-- `none` or false.
pub record Crypto : Type 0 where
  pub digest_create : Bool
  pub digest_init : Bool
  pub digest_update : Bytes → Bytes → Bool
  pub digest_final : Bytes → Option Bytes

-- A file as fopen and fread, stat, and gmtime with strftime and strtol show it.
pub record File : Type 0 where
  pub contents : Option Bytes
  pub st_size : Option ℕ
  pub date : Option ℕ

-- `for (encl_size = 0x1000; encl_size < blob_size; ) encl_size <<= 1;` from `encl_size` on
unfoldable pub encl_size_loop : ℕ → ℕ → ℕ → Outcome ℕ
encl_size_loop zero encl_size blob_size = no_return
encl_size_loop (suc k) encl_size blob_size =
    let rest = encl_size_loop k ((encl_size * 2) % u64_mod) blob_size in
    if ltb encl_size blob_size then rest else ok encl_size
