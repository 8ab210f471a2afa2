-- ===== src/Inclavare/Calls.antt =====
-- The calls of inclavare/encl.c while the host leaves memory alone. No pointer is checked: the
-- addresses of the caller may be the enclave's own.
use pandora_examples.Prelude.{ℕ, ◌+◌, ◌%◌, ◌^◌, ◌≤◌, ◌<◌, ◌≡◌, ◌⊎◌, refl, ap, ◌∙◌, arith, get_or}
use pandora_examples.Machine.{Memory, peek, Machine, ◌>>◌}
use pandora_examples.Machine.Quiet.{QuietFrom, Apart, memcpy-quiet}
use pandora_examples.Inclavare.{
  Env, init_hello, sizeof_init_hello, memcpy, encl_init, enclu_ereport, encl_get_report,
}

-- The string is where the linker put it.
abbrev pub HasHello : Env → Memory → Type 0
HasHello e mem = (j : ℕ) → j < sizeof_init_hello → peek mem (e.hello + j) ≡ get_or init_hello j 0

-- With a host that never changes memory, and with the greeting's string in its place, ECALL_INIT
-- returns 0 and writes the string with its zero, 28 bytes, to the address that it is given, one
-- inside the enclave included, and no other byte. Neither those 28 bytes nor the string's reach past
-- the end of the address space, and the two do not overlap.
pub encl_init-writes :
    (e : Env) (dst : ℕ) (s : Machine)
    → QuietFrom 0 e.host
    → HasHello e s.mem
    → Apart dst e.hello sizeof_init_hello
    → ((encl_init e dst s).0 ≡ 0)
      × ((j : ℕ)
          → j < sizeof_init_hello
          → (encl_init e dst s).1.mem (dst + j) ≡ get_or init_hello j 0)
      × ((b : ℕ)
          → (b < dst) ⊎ (dst + sizeof_init_hello ≤ b)
          → (encl_init e dst s).1.mem b ≡ s.mem b)
unfolding encl_init memcpy ◌>>◌
encl_init-writes e dst s quiet hello apart =
    let c = memcpy-quiet 0 e.host quiet dst e.hello sizeof_init_hello s (omega arith) apart in
    (refl, λ j lt. c.0 j lt ∙ hello j lt, c.1)

-- Where the locals lie against each other, the arguments and the report's destination.
pub record Frame (e : Env) (target_info report_data report : ℕ) : Type 0 where
  pub target_apart : Apart e.ti target_info 512
  pub data_apart : Apart e.rd report_data 64
  pub report_apart : Apart report e.r 432
  pub locals_apart : (e.ti + 512 ≤ e.rd) ⊎ (e.rd + 64 ≤ e.ti)
  pub data_kept : (e.ti + 512 ≤ report_data) ⊎ (report_data + 64 ≤ e.ti)

-- What the processor is given: the copies of both arguments, and memory as it was but for them.
pub record Operands (e : Env) (target_info report_data : ℕ) (mem operands : Memory) : Type 0 where
  pub of_target : (j : ℕ) → j < 512 → operands (e.ti + j) ≡ peek mem (target_info + j)
  pub of_data : (j : ℕ) → j < 64 → peek operands (e.rd + j) ≡ peek mem (report_data + j)
  pub of_rest :
      (b : ℕ) → (b < e.ti) ⊎ (e.ti + 512 ≤ b) → (b < e.rd) ⊎ (e.rd + 64 ≤ b) → operands b ≡ mem b

module _ (e : Env) (target_info report_data report : ℕ) (s : Machine) (quiet : QuietFrom 0 e.host)
    (f : Frame e target_info report_data report) where
  abbrev with_target : Machine
  with_target = (memcpy e e.ti target_info 512 s).1

  abbrev with_operands : Machine
  with_operands = (memcpy e e.rd report_data 64 with_target).1

  Operands-copied : Operands e target_info report_data s.mem with_operands.mem
  unfolding memcpy
  Operands-copied =
      let t = memcpy-quiet 0 e.host quiet e.ti target_info 512 s (omega arith) f.target_apart in
      let d =
        memcpy-quiet 0 e.host quiet e.rd report_data 64 with_target (omega arith) f.data_apart in
      let clear = f.locals_apart in
      let kept = f.data_kept in
      record {
        of_target = λ j lt. d.1 (e.ti + j) (omega arith) ∙ t.0 j lt;
        of_data = λ j lt.
            ap (λ (x : ℕ). x % 2 ^ 8) (d.0 j lt)
            ∙ mod_mod _
            ∙ ap (λ (x : ℕ). x % 2 ^ 8) (t.1 (report_data + j) (omega arith));
        of_rest = λ b ti rd. d.1 b rd ∙ t.1 b ti;
      }
    where
      mod_mod : (x : ℕ) → x % 2 ^ 8 % 2 ^ 8 ≡ x % 2 ^ 8
      mod_mod x = omega arith

  -- The memory that the processor leaves.
  abbrev reported : Memory → Memory
  reported operands = e.ereport e.ti e.rd e.r operands

  -- With a host that never changes memory, ECALL_REPORT returns 0. The processor gets copies of the
  -- caller's target info and report data, and the 432 bytes of the report that it makes of them are
  -- what the caller finds at `report`; outside these, memory is as the processor left it. The copy of
  -- the target info overlaps neither that of the report data nor the caller's report data, no range
  -- that is copied overlaps the one that it is copied to, and none of these ranges reaches past the
  -- end of the address space; the addresses of the caller are otherwise free.
  pub encl_get_report-reports :
      (operands : Memory) × Operands e target_info report_data s.mem operands
      × ((encl_get_report e target_info report_data report s).0 ≡ 0)
      × ((j : ℕ)
          → j < 432
          → (encl_get_report e target_info report_data report s).1.mem (report + j)
            ≡ peek (reported operands) (e.r + j))
      × ((b : ℕ)
          → (b < report) ⊎ (report + 432 ≤ b)
          → (encl_get_report e target_info report_data report s).1.mem b ≡ reported operands b)
  unfolding encl_get_report enclu_ereport memcpy ◌>>◌
  encl_get_report-reports =
      let m = (enclu_ereport e with_operands).1 in
      let c = memcpy-quiet 0 e.host quiet report e.r 432 m (omega arith) f.report_apart in
      (with_operands.mem, Operands-copied, refl, c.0, c.1)
