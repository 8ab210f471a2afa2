-- ===== src/Sancus/Asm/Pointers.antt =====
-- The enclaves of sancus/ptrsan, at the addresses at which their main.elf is linked.
-- rep_asm_unconstrained_read_1 is the rep_asm_ret of sancus/cfsan.
use pandora_examples.Prelude.{[], ◌∷◌}
use pandora_examples.Sancus.Asm.{
  number, label, immediate, register, indirect, symbolic, to_register, to_indirect, nop, mov, add,
  cmp, push, pop, call, ret, jmp, jl, jge, Program,
}

abbrev pub nor_asm_0 : Program
nor_asm_0 = record { public_start = 0x6c0c; code = nop ∷ nop ∷ jmp (label 3) ∷ [] }

abbrev pub nor_asm_1 : Program
nor_asm_1 = record {
  public_start = 0x6c0c;
  code =
      mov (immediate (number 0x1233)) (to_register 15)
      ∷ mov (register 1) (to_register 11)
      ∷ mov (immediate (number 0x239)) (to_register 1)
      ∷ push (register 11)
      ∷ call (immediate (label 7))
      ∷ pop 1
      ∷ jmp (label 9)
      ∷ add (immediate (number 1)) 15
      ∷ ret
      ∷ [];
}

abbrev pub nor_asm_2 : Program
nor_asm_2 = record {
  public_start = 0x6c0c;
  code =
      mov (immediate (number 0x1233)) (to_register 15)
      ∷ mov (register 1) (to_register 11)
      ∷ mov (immediate (number 0x239)) (to_register 1)
      ∷ push (register 11)
      ∷ call (immediate (label 9))
      ∷ push (register 14)
      ∷ ret
      ∷ pop 1
      ∷ jmp (label 11)
      ∷ add (immediate (number 1)) 15
      ∷ ret
      ∷ [];
}

abbrev pub rep_asm_mov_secret_to_attacker_addr : Program
rep_asm_mov_secret_to_attacker_addr = record {
  public_start = 0x6c0c;
  code =
      mov (immediate (number 0x1233)) (to_register 15)
      ∷ mov (immediate (number 0x200)) (to_indirect 13)
      ∷ call (immediate (label 5))
      ∷ pop 1
      ∷ jmp (label 7)
      ∷ add (immediate (number 1)) 15
      ∷ ret
      ∷ [];
}

abbrev pub rep_asm_non_tainted_read_outside_encl : Program
rep_asm_non_tainted_read_outside_encl = record {
  public_start = 0x6c0c;
  code =
      nop
      ∷ nop
      ∷ mov (immediate (number 0x6c0a)) (to_register 14)
      ∷ mov (indirect 14) (to_register 15)
      ∷ nop
      ∷ nop
      ∷ nop
      ∷ jmp (label 8)
      ∷ [];
}

abbrev pub rep_asm_non_tainted_write_outside_encl : Program
rep_asm_non_tainted_write_outside_encl = record {
  public_start = 0x6c0c;
  code =
      mov (immediate (number 0x6c0a)) (to_register 15)
      ∷ mov (immediate (number 0x1234)) (to_indirect 15)
      ∷ nop
      ∷ nop
      ∷ nop
      ∷ jmp (label 6)
      ∷ [];
}

abbrev pub rep_asm_tainted_read_inside_encl_absaddr : Program
rep_asm_tainted_read_inside_encl_absaddr = record {
  public_start = 0x6c0c;
  code =
      cmp (immediate (number 0x6c0c)) 15
      ∷ jl (label 6)
      ∷ cmp (immediate (number 0x6c24)) 15
      ∷ jge (label 6)
      ∷ mov (indirect 15) (to_register 14)
      ∷ jmp (label 6)
      ∷ [];
}

abbrev pub rep_asm_tainted_read_inside_encl_reladdr : Program
rep_asm_tainted_read_inside_encl_reladdr = record {
  public_start = 0x6c0c;
  code =
      cmp (symbolic (number 0x200)) 15
      ∷ jl (label 8)
      ∷ mov (symbolic (number 0x200)) (to_register 14)
      ∷ add (immediate (number 10)) 14
      ∷ cmp (register 14) 15
      ∷ jge (label 8)
      ∷ mov (indirect 15) (to_register 14)
      ∷ jmp (label 8)
      ∷ [];
}

abbrev pub rep_asm_tainted_write_inside_encl_absaddr : Program
rep_asm_tainted_write_inside_encl_absaddr = record {
  public_start = 0x6c0c;
  code =
      cmp (immediate (number 0x6c0c)) 15
      ∷ jl (label 8)
      ∷ cmp (immediate (number 0x6c1a)) 15
      ∷ jge (label 8)
      ∷ nop
      ∷ nop
      ∷ mov (register 13) (to_indirect 15)
      ∷ jmp (label 8)
      ∷ [];
}

abbrev pub rep_asm_tainted_write_inside_encl_reladdr : Program
rep_asm_tainted_write_inside_encl_reladdr = record {
  public_start = 0x6c0c;
  code =
      cmp (symbolic (number 0x200)) 15
      ∷ jl (label 8)
      ∷ mov (symbolic (number 0x200)) (to_register 14)
      ∷ add (immediate (number 10)) 14
      ∷ cmp (register 14) 15
      ∷ jge (label 8)
      ∷ mov (register 13) (to_indirect 15)
      ∷ jmp (label 8)
      ∷ [];
}

abbrev pub rep_asm_unconstrained_read : Program
rep_asm_unconstrained_read = record {
  public_start = 0x6c0c;
  code = pop 13 ∷ nop ∷ nop ∷ jmp (label 4) ∷ [];
}

abbrev pub rep_asm_unconstrained_write : Program
rep_asm_unconstrained_write = record {
  public_start = 0x6c0c;
  code = mov (immediate (number 0x1234)) (to_indirect 15) ∷ nop ∷ nop ∷ nop ∷ jmp (label 5) ∷ [];
}

abbrev pub ptr_under_const : Program
ptr_under_const = record {
  public_start = 0x6c0c;
  code = push (register 13) ∷ nop ∷ nop ∷ jmp (label 4) ∷ [];
}
