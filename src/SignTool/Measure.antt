-- ===== src/SignTool/Measure.antt =====
-- The measurement of an enclave in dcap-le/sgxsign.c. A digest is fed blocks of 64 bytes.
use Prim.Native.Nat.{bit_or}
use pandora_examples.Prelude.{
  ℕ, zero, suc, ◌+◌, ◌/◌, ◌%◌, not, ◌||◌, [], ◌++◌, none, some, ltb, ◌==◌, if◌then◌else◌, length,
  take, drop, replicate,
}
use pandora_examples.Prelude.Encode.{le}
use pandora_examples.LibC.{Bytes}
use pandora_examples.SgxArch.{
  sgx_secinfo_tcs, sgx_secinfo_reg, sgx_secinfo_r, sgx_secinfo_w, sgx_secinfo_x,
}
use pandora_examples.SignTool.{Outcome, ok, failed, no_return, ◌>>=◌, Crypto, File, encl_size_loop}

-- enum mrtags
abbrev pub mrecreate : ℕ
mrecreate = 0x0045544145524345

abbrev pub mreadd : ℕ
mreadd = 0x0000000044444145

abbrev pub mreextend : ℕ
mreextend = 0x00444E4554584545

-- The bytes of struct mrecreate, struct mreadd and struct mreextend.
unfoldable pub mrecreate_bytes : ℕ → Bytes
mrecreate_bytes size = le 8 mrecreate ++ (le 4 1 ++ (le 8 size ++ replicate 44 0))

unfoldable pub mreadd_bytes : ℕ → ℕ → Bytes
mreadd_bytes offset flags = le 8 mreadd ++ (le 8 offset ++ (le 8 flags ++ replicate 40 0))

unfoldable pub mreextend_bytes : ℕ → Bytes
mreextend_bytes offset = le 8 mreextend ++ (le 8 offset ++ replicate 48 0)

-- Enough rounds for the size loop, whose size doubles from 2 ^ 12.
abbrev pub size_rounds : ℕ
size_rounds = 64

-- The flags of the page at `offset`: the first page is a TCS.
unfoldable pub page_flags : ℕ → ℕ
page_flags offset =
    if offset == 0
    then sgx_secinfo_tcs
    else bit_or sgx_secinfo_reg (bit_or sgx_secinfo_r (bit_or sgx_secinfo_w sgx_secinfo_x))

module _ (c : Crypto) where
  -- The digest takes 64 bytes at `data`.
  unfoldable pub mrenclave_update : Bytes → Bytes → Outcome Bytes
  mrenclave_update ctx block =
      if c.digest_update ctx (take 64 block) then ok (ctx ++ take 64 block) else failed

  unfoldable pub mrenclave_commit : Bytes → Outcome Bytes
  mrenclave_commit ctx = elim (c.digest_final ctx) [
    | none ↦ failed
    | some digest ↦ if length digest == 32 then ok digest else failed
  ]

  unfoldable pub mrenclave_ecreate : ℕ → Outcome Bytes
  mrenclave_ecreate blob_size = do
    encl_size ← encl_size_loop size_rounds 0x1000 blob_size
    if c.digest_init then mrenclave_update [] (mrecreate_bytes encl_size) else failed

  unfoldable pub mrenclave_eadd : Bytes → ℕ → ℕ → Outcome Bytes
  mrenclave_eadd ctx offset flags = mrenclave_update ctx (mreadd_bytes offset flags)

  -- The loop of mrenclave_eextend, with `k` rounds to go at index `i`.
  unfoldable pub eextend_loop : ℕ → Bytes → ℕ → Bytes → ℕ → Outcome Bytes
  eextend_loop zero ctx offset page i = ok ctx
  eextend_loop (suc k) ctx offset page i = do
    ctx0 ← mrenclave_update ctx (mreextend_bytes (offset + i))
    ctx1 ← mrenclave_update ctx0 (drop (i + 0x00) page)
    ctx2 ← mrenclave_update ctx1 (drop (i + 0x40) page)
    ctx3 ← mrenclave_update ctx2 (drop (i + 0x80) page)
    ctx4 ← mrenclave_update ctx3 (drop (i + 0xC0) page)
    eextend_loop k ctx4 offset page (i + 0x100)

  unfoldable pub mrenclave_eextend : Bytes → ℕ → Bytes → Outcome Bytes
  mrenclave_eextend ctx offset page = eextend_loop 16 ctx offset page 0

  -- The loop of measure_encl over the pages, with what is left to read of the file. A read of
  -- nothing leaves the loop, and one of less than a page fails.
  unfoldable pub pages_loop : ℕ → ℕ → ℕ → Bytes → Bytes → Outcome Bytes
  pages_loop zero st_size offset rest ctx = no_return
  pages_loop (suc k) st_size offset rest ctx =
      let page = take 0x1000 rest in
      let next = λ (ctx1 : Bytes). pages_loop k st_size (offset + 0x1000) (drop 0x1000 rest) ctx1 in
      let extend = λ (ctx0 : Bytes). mrenclave_eextend ctx0 offset page >>= next in
      let round = mrenclave_eadd ctx offset (page_flags offset) >>= λ ctx0.
      if length page == 0
      then ok ctx0
      else if ltb (length page) 0x1000
      then failed
      else extend ctx0 in
      if ltb offset st_size then round else ok ctx

  -- The part of measure_encl behind the checks of the size and the date.
  unfoldable pub measure_blob : ℕ → Bytes → Outcome Bytes
  measure_blob st_size contents = do
    ctx ← mrenclave_ecreate st_size
    ctx' ← pages_loop (st_size / 0x1000 + 1) st_size 0 contents ctx
    mrenclave_commit ctx'

  -- measure_encl gives the measurement and the date.
  unfoldable pub measure_encl : File → Outcome (Bytes × ℕ)
  measure_encl f = if not c.digest_create then failed else elim f.contents [
    | none ↦ failed
    | some contents ↦ elim f.st_size [
      | none ↦ failed
      | some st_size ↦ if st_size == 0 || not (st_size % 0x1000 == 0) then failed else elim f.date [
        | none ↦ failed
        | some date ↦ measure_blob st_size contents >>= λ mrenclave. ok (mrenclave, date)
      ]
    ]
  ]
