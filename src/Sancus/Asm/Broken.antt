-- ===== src/Sancus/Asm/Broken.antt =====
-- The enclaves of sancus/cfsan whose control flow is to be reported (rep_), at the addresses at
-- which their main.elf is linked.
use pandora_examples.Prelude.{[], ◌∷◌}
use pandora_examples.Sancus.Asm.{
  number, label, immediate, register, symbolic, to_register, nop, mov, add, cmp, call, br, ret, jmp,
  jeq, jl, jge, Program,
}

abbrev pub rep_asm_bb_cross_enclave_boundary_0 : Program
rep_asm_bb_cross_enclave_boundary_0 = record {
  public_start = 0x6c28;
  code =
      nop
      ∷ cmp (immediate (number 0)) 15
      ∷ jeq (label 5)
      ∷ mov (immediate (number 0xbeef)) (to_register 15)
      ∷ jmp (label 6)
      ∷ mov (immediate (number 0xdead)) (to_register 15)
      ∷ [];
}

abbrev pub rep_asm_bb_cross_enclave_boundary_1 : Program
rep_asm_bb_cross_enclave_boundary_1 = record {
  public_start = 0x6c28;
  code =
      nop
      ∷ nop
      ∷ mov (immediate (number 0x1)) (to_register 15)
      ∷ mov (immediate (number 0x2)) (to_register 14)
      ∷ [];
}

abbrev pub rep_asm_bb_cross_enclave_boundary_2 : Program
rep_asm_bb_cross_enclave_boundary_2 = record {
  public_start = 0x6c28;
  code =
      nop
      ∷ nop
      ∷ mov (immediate (number 0x1)) (to_register 15)
      ∷ mov (immediate (number 0x2)) (to_register 14)
      ∷ [];
}

abbrev pub rep_asm_bb_cross_enclave_boundary_3 : Program
rep_asm_bb_cross_enclave_boundary_3 = record {
  public_start = 0x6c28;
  code =
      nop
      ∷ nop
      ∷ mov (immediate (number 0x1)) (to_register 15)
      ∷ mov (immediate (number 0x2)) (to_register 14)
      ∷ [];
}

abbrev pub rep_asm_bb_cross_enclave_boundary_4 : Program
rep_asm_bb_cross_enclave_boundary_4 = record {
  public_start = 0x6c28;
  code =
      nop
      ∷ nop
      ∷ mov (immediate (number 0x1)) (to_register 15)
      ∷ mov (immediate (number 0x2)) (to_register 14)
      ∷ [];
}

abbrev pub rep_asm_bb_cross_enclave_boundary_5 : Program
rep_asm_bb_cross_enclave_boundary_5 = record {
  public_start = 0x6c28;
  code =
      nop
      ∷ nop
      ∷ mov (immediate (number 0x1)) (to_register 15)
      ∷ mov (immediate (number 0x2)) (to_register 14)
      ∷ call (symbolic (label 5))
      ∷ add (register 14) 15
      ∷ [];
}

abbrev pub rep_asm_br_to_attacker_addr : Program
rep_asm_br_to_attacker_addr = record {
  public_start = 0x6c30;
  code =
      cmp (immediate (number 1)) 15
      ∷ jeq (label 4)
      ∷ br (register 15)
      ∷ jmp (label 6)
      ∷ mov (immediate (number 0xdead)) (to_register 15)
      ∷ jmp (label 6)
      ∷ [];
}

abbrev pub rep_asm_call_func_in_encl_no_priv_stack_1 : Program
rep_asm_call_func_in_encl_no_priv_stack_1 = record {
  public_start = 0x6c28;
  code =
      nop
      ∷ nop
      ∷ mov (immediate (number 0x1)) (to_register 15)
      ∷ mov (immediate (number 0x2)) (to_register 14)
      ∷ call (symbolic (label 6))
      ∷ jmp (number 0x6c3e)
      ∷ add (register 14) 15
      ∷ ret
      ∷ [];
}

abbrev pub rep_asm_jmp_to_non_exec_mem_0 : Program
rep_asm_jmp_to_non_exec_mem_0 = record {
  public_start = 0x6c30;
  code = br (immediate (number 0x200)) ∷ jmp (label 2) ∷ [];
}

abbrev pub rep_asm_jmp_to_non_exec_mem_1 : Program
rep_asm_jmp_to_non_exec_mem_1 = record {
  public_start = 0x6c28;
  code = br (immediate (number 0x0)) ∷ [];
}

abbrev pub rep_asm_ret : Program
rep_asm_ret = record {
  public_start = 0x6c30;
  code =
      cmp (immediate (number 1)) 15
      ∷ nop
      ∷ mov (immediate (number 10)) (to_register 14)
      ∷ add (immediate (number 100)) 14
      ∷ ret
      ∷ [];
}

abbrev pub rep_asm_tainted_br_inside_encl : Program
rep_asm_tainted_br_inside_encl = record {
  public_start = 0x6c0c;
  code =
      cmp (immediate (number 0x6c1a)) 15
      ∷ jl (label 10)
      ∷ cmp (immediate (number 0x6c1e)) 15
      ∷ jge (label 10)
      ∷ br (register 15)
      ∷ nop
      ∷ nop
      ∷ nop
      ∷ nop
      ∷ jmp (label 10)
      ∷ [];
}
