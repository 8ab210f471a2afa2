-- ===== src/Sancus/Asm/Main/Results.antt =====
-- What the main functions of sancus/cfsan and sancus/ptrsan print.
use pandora_examples.Prelude.{ℕ, ◌≤◌, ◌<◌, ◌≡◌, inl, inr, List, [], ◌∷◌}
use pandora_examples.Sancus.Asm.{Cpu, even}
use pandora_examples.Sancus.Asm.Normal.{foo_c_fct}
use pandora_examples.Sancus.Asm.Main.{
  Action, msp430_io_init, sancus_enable, pr_sm_info, exit, pr_info, printed, enabling_foo, Called,
  entering_foo, all_done,
}

-- A state in which main calls the enclave: the address to come back to is an even one in the
-- code before the exit trampoline, and the stack pointer is that of an aligned word of the stack,
-- which starts at __stack, 0x4200, below all code, and has not grown down to the enclave's secret
-- section.
pub record IsCaller (back : ℕ) (c : Cpu) : Type 0 where
  pub back_even : even back ≡ back
  pub back_code : (0x5c00 ≤ back) × (back < 0x5cae)
  pub sp_even : even (c.registers 1) ≡ c.registers 1
  pub sp_stack : (0x400 ≤ c.registers 1) × (c.registers 1 ≤ 0x4200)

-- What main does before it enters the enclave.
abbrev pub opening : List Action → List Action
opening r =
    msp430_io_init ∷ pr_info enabling_foo ∷ sancus_enable ∷ pr_sm_info ∷ pr_info entering_foo ∷ r

-- A run of main to its end, with these results of the enclave.
abbrev pub prints : List ℕ → List Action
prints results = opening (printed results ∷ pr_info all_done ∷ exit ∷ [])

-- The sum that foo_c_fct makes of its arguments.
abbrev pub sum : ℕ
sum = foo_c_fct 0xdead 10

-- A call comes back with `v`, in a state that can call again.
abbrev ComesBack : ℕ → ℕ → Called (ℕ × Cpu) → Type 0
ComesBack back v (inl e) = ⊥
ComesBack back v (inr r) = (r.0 ≡ v) × IsCaller back r.1
