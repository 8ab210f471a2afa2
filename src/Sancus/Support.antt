-- ===== src/Sancus/Support.antt =====
-- The modules of sancus/t2w/t2w_3_soteria_loader: struct SancusModule and its instructions in
-- sm_support.h and sm_support.c, struct SancusCryptModule of sm_crypt.h, and the loader's first
-- checks in main.c. A pointer is its sixteen bits.
use pandora_examples.Prelude.{
  ℕ, ◌+◌, ◌-◌, ◌%◌, ◌^◌, ◌≤◌, ◌<◌, ◌≡◌, ◌↔◌, refl, arith, Bool, true, not, ◌==◌, ◌||◌, Option, none,
  some, ltb, if◌then◌else◌,
}

-- struct SancusModule, with the address of its name
pub record SancusModule : Type 0 where
  pub id : ℕ
  pub vendor_id : ℕ
  pub name : ℕ
  pub public_start : ℕ
  pub public_end : ℕ
  pub secret_start : ℕ
  pub secret_end : ℕ

-- struct SancusCryptModule, which begins like a SancusModule
pub record SancusCryptModule : Type 0 where
  pub plain : SancusModule
  pub public_start_crypt : ℕ
  pub public_end_crypt : ℕ

-- DECLARE_SM, where the linker gives the bounds
abbrev pub declare_sm : ℕ → ℕ → ℕ → ℕ → ℕ → ℕ → SancusModule
declare_sm vendor name ps pe ss se = record {
  id = 0;
  vendor_id = vendor;
  name = name;
  public_start = ps;
  public_end = pe;
  secret_start = ss;
  secret_end = se;
}

-- DECLARE_CRYPT_SM
abbrev pub declare_crypt_sm : ℕ → ℕ → ℕ → ℕ → ℕ → ℕ → ℕ → ℕ → SancusCryptModule
declare_crypt_sm vendor name ps pe ss se psc pec = record {
  plain = declare_sm vendor name ps pe ss se;
  public_start_crypt = psc;
  public_end_crypt = pec;
}

-- The processor's instructions, by what they leave in r15: protect, of r11 to r15, and the three
-- on digests, of their operands in order.
pub record Cpu : Type 0 where
  pub protect : (vendor public_start public_end secret_start secret_end : ℕ) → ℕ
  pub verify : (public_start expected : ℕ) → ℕ
  pub write : (public_start dst : ℕ) → ℕ
  pub sign : (src src_end dest : ℕ) → ℕ

module _ (cpu : Cpu) where
  -- protect_sm: its result, and the module with the identifier that it stores
  unfoldable pub protect_sm : SancusModule → Bool × SancusModule
  protect_sm sm =
      let id =
        cpu.protect sm.vendor_id sm.public_start sm.public_end sm.secret_start sm.secret_end in
      (not (id == 0), record sm { id = id })

  unfoldable pub hmac_verify : ℕ → SancusModule → ℕ
  hmac_verify expected_hmac sm = cpu.verify sm.public_start expected_hmac

  unfoldable pub hmac_write : ℕ → SancusModule → ℕ
  hmac_write dst sm = cpu.write sm.public_start dst

  unfoldable pub hmac_sign : ℕ → ℕ → ℕ → ℕ
  hmac_sign dest src n = cpu.sign src ((src + n) % 2 ^ 16) dest

-- sm_loader_load up to where its source breaks off: 0 where it returns, and nothing where it goes on.
unfoldable pub sm_loader_load : SancusModule → Option ℕ
sm_loader_load scm =
    let pstart = scm.public_start in
    let pend = scm.public_end in
    let pcstart = scm.public_start in
    let pcend = scm.public_end in
    if ltb pend pstart || ltb pcend pcstart
    then some 0
    else if not ((pend + 2 ^ 16 - pstart) % 2 ^ 16 == (pcend + 2 ^ 16 - pcstart) % 2 ^ 16)
    then some 0
    else none

-- The loader goes on with exactly the modules whose public section ends no earlier than it starts,
-- whatever the bounds of the encrypted section are: the check of sizes refuses nothing.
pub sm_loader_load-accepts :
    (m : SancusCryptModule)
    → ((sm_loader_load m.plain ≡ none) ↔ (m.plain.public_start ≤ m.plain.public_end))
      × ((start end : ℕ)
          → sm_loader_load (record m { public_start_crypt = start; public_end_crypt = end }).plain
            ≡ sm_loader_load m.plain)
unfolding sm_loader_load
sm_loader_load-accepts m = (ground arith, λ start end. refl)

-- protect_sm answers true exactly where the processor gives an identifier other than 0, and changes
-- no field but the identifier; declare_sm's module has none before.
protect_sm_iff :
    (cpu : Cpu) (vendor name ps pe ss se : ℕ)
    → ((protect_sm cpu (declare_sm vendor name ps pe ss se)).0 ≡ true
        ↔ (0 < (protect_sm cpu (declare_sm vendor name ps pe ss se)).1.id))
      × ((record (protect_sm cpu (declare_sm vendor name ps pe ss se)).1 { id = 0 })
          ≡ declare_sm vendor name ps pe ss se)
unfolding protect_sm
protect_sm_iff cpu vendor name ps pe ss se = (ground arith, refl)
