-- ===== src/Sancus/Asm/Normal.antt =====
-- The enclaves of sancus/cfsan whose control flow is sound (nor_), and the two that call a function
-- in C, at the addresses at which their main.elf is linked. The same two stand in sancus/ptrsan, as
-- nor_asm_call_c_func_with_priv_stack and rep_asm_unconstrained_rw.
use pandora_examples.Prelude.{ℕ, [], ◌∷◌}
use pandora_examples.Sancus.Asm.{
  number, label, immediate, register, to_register, nop, mov, add, sub, cmp, push, pop, call, br,
  ret, jmp, jeq, jge, Program,
}
use pandora_examples.Sancus.{add_int}

abbrev pub nor_asm_br_within_encl_0 : Program
nor_asm_br_within_encl_0 = record {
  public_start = 0x6c30;
  code =
      cmp (immediate (number 1)) 15
      ∷ jeq (label 5)
      ∷ mov (immediate (number 0x6c3c)) (to_register 15)
      ∷ br (register 15)
      ∷ jmp (label 7)
      ∷ mov (immediate (number 0xdead)) (to_register 15)
      ∷ jmp (label 7)
      ∷ [];
}

abbrev pub nor_asm_br_within_encl_1 : Program
nor_asm_br_within_encl_1 = record {
  public_start = 0x6c28;
  code =
      mov (immediate (number 0)) (to_register 10)
      ∷ mov (immediate (number 0)) (to_register 11)
      ∷ mov (immediate (number 0)) (to_register 12)
      ∷ br (immediate (label 4))
      ∷ add (immediate (number 10)) 15
      ∷ nop
      ∷ br (immediate (label 7))
      ∷ jmp (label 8)
      ∷ [];
}

abbrev pub nor_asm_example_base_enclave : Program
nor_asm_example_base_enclave = record {
  public_start = 0x6c28;
  code =
      nop
      ∷ cmp (immediate (number 0)) 15
      ∷ jeq (label 5)
      ∷ mov (immediate (number 0xbeef)) (to_register 15)
      ∷ jmp (label 7)
      ∷ mov (immediate (number 0xdead)) (to_register 15)
      ∷ jmp (label 7)
      ∷ [];
}

abbrev pub nor_asm_if_else : Program
nor_asm_if_else = record {
  public_start = 0x6c28;
  code =
      push (register 15)
      ∷ mov (immediate (number 99)) (to_register 12)
      ∷ pop 15
      ∷ cmp (immediate (number 0)) 11
      ∷ jeq (label 10)
      ∷ mov (immediate (number 0xcafe)) (to_register 10)
      ∷ cmp (immediate (number 10)) 15
      ∷ jge (label 12)
      ∷ add (immediate (number 420)) 15
      ∷ jmp (label 14)
      ∷ add (immediate (number 1)) 15
      ∷ jmp (label 14)
      ∷ sub (immediate (number 1)) 15
      ∷ jmp (label 14)
      ∷ [];
}

abbrev pub nor_asm_jmp_within_encl : Program
nor_asm_jmp_within_encl = record {
  public_start = 0x6c28;
  code =
      mov (immediate (number 0)) (to_register 10)
      ∷ mov (immediate (number 0)) (to_register 11)
      ∷ mov (immediate (number 0)) (to_register 12)
      ∷ jmp (label 4)
      ∷ add (immediate (number 10)) 15
      ∷ nop
      ∷ jmp (label 7)
      ∷ jmp (label 8)
      ∷ [];
}

abbrev pub nor_asm_ret_int : Program
nor_asm_ret_int = record {
  public_start = 0x6c28;
  code = mov (immediate (number 0xbeef)) (to_register 15) ∷ jmp (label 2) ∷ [];
}

abbrev pub nor_asm_test : Program
nor_asm_test = record {
  public_start = 0x6c28;
  code =
      nop
      ∷ nop
      ∷ cmp (immediate (number 0x0)) 6
      ∷ jeq (label 14)
      ∷ cmp (immediate (number 0x0)) 7
      ∷ jeq (label 14)
      ∷ cmp (immediate (number 0x0)) 8
      ∷ jeq (label 11)
      ∷ nop
      ∷ nop
      ∷ br (immediate (label 14))
      ∷ mov (immediate (number 0x12)) (to_register 8)
      ∷ nop
      ∷ jmp (label 14)
      ∷ [];
}

-- foo_c_fct of foo_c.c
abbrev pub foo_c_fct : ℕ → ℕ → ℕ
foo_c_fct a b = add_int a b

-- foo_entry.S, and behind it foo_c_fct as main.elf has it compiled, with a word of padding between
-- them, here a nop. The exit trampoline stands outside the section, and the private stack ends at
-- 0x300.
abbrev pub nor_asm_call_c_func_with_priv_stack : Program
nor_asm_call_c_func_with_priv_stack = record {
  public_start = 0x6c28;
  code =
      mov (immediate (number 10)) (to_register 14)
      ∷ mov (immediate (number 0xdead)) (to_register 15)
      ∷ mov (register 1) (to_register 4)
      ∷ mov (immediate (number 0x300)) (to_register 1)
      ∷ push (register 4)
      ∷ call (immediate (label 9))
      ∷ pop 1
      ∷ br (immediate (number 0x5cae))
      ∷ nop
      ∷ push (register 4)
      ∷ mov (register 1) (to_register 4)
      ∷ add (register 14) 15
      ∷ pop 4
      ∷ ret
      ∷ [];
}

-- The same on the caller's stack.
abbrev pub rep_asm_call_func_in_encl_no_priv_stack_0 : Program
rep_asm_call_func_in_encl_no_priv_stack_0 = record {
  public_start = 0x6c28;
  code =
      mov (immediate (number 10)) (to_register 14)
      ∷ mov (immediate (number 0xdead)) (to_register 15)
      ∷ call (immediate (label 4))
      ∷ br (immediate (number 0x5cae))
      ∷ push (register 4)
      ∷ mov (register 1) (to_register 4)
      ∷ add (register 14) 15
      ∷ pop 4
      ∷ ret
      ∷ [];
}
