-- ===== src/Sancus/Asm/Tests.antt =====
-- The sections have the sizes that the linker gave them; concrete states of the processor.
use pandora_examples.Prelude.{
  ℕ, ◌+◌, ◌≡◌, inl, refl, arith, true, false, ◌==◌, [], ◌∷◌, if◌then◌else◌, All,
}
use pandora_examples.Sancus.Asm.{Cpu, even, word, signed_less, run, public_end, read, write}
use pandora_examples.Sancus.Asm.Normal.{
  nor_asm_br_within_encl_0, nor_asm_br_within_encl_1, nor_asm_example_base_enclave, nor_asm_if_else,
  nor_asm_jmp_within_encl, nor_asm_ret_int, nor_asm_test, foo_c_fct,
  nor_asm_call_c_func_with_priv_stack, rep_asm_call_func_in_encl_no_priv_stack_0,
}
use pandora_examples.Sancus.Asm.Broken.{
  rep_asm_bb_cross_enclave_boundary_0, rep_asm_bb_cross_enclave_boundary_1,
  rep_asm_bb_cross_enclave_boundary_2, rep_asm_bb_cross_enclave_boundary_3,
  rep_asm_bb_cross_enclave_boundary_4, rep_asm_bb_cross_enclave_boundary_5,
  rep_asm_br_to_attacker_addr, rep_asm_call_func_in_encl_no_priv_stack_1,
  rep_asm_jmp_to_non_exec_mem_0, rep_asm_jmp_to_non_exec_mem_1, rep_asm_ret,
  rep_asm_tainted_br_inside_encl,
}
use pandora_examples.Sancus.Asm.Pointers.{
  nor_asm_0, nor_asm_1, nor_asm_2, rep_asm_mov_secret_to_attacker_addr,
  rep_asm_non_tainted_read_outside_encl, rep_asm_non_tainted_write_outside_encl,
  rep_asm_tainted_read_inside_encl_absaddr, rep_asm_tainted_read_inside_encl_reladdr,
  rep_asm_tainted_write_inside_encl_absaddr, rep_asm_tainted_write_inside_encl_reladdr,
  rep_asm_unconstrained_read, rep_asm_unconstrained_write, ptr_under_const,
}
use pandora_examples.Sancus.Asm.Flow.{
  Leaves, LeavesWith, LeavesTo, Crosses, encoded_add, pushed, KeepsCode, normal_enclaves-leave,
  broken_enclaves-leave,
}
use pandora_examples.Sancus.Asm.Touched.{
  Stays, accessed, Ends, between, relative, normal_enclaves-stay, accessed_lem,
}

sections_linked :
    (public_end nor_asm_br_within_encl_0 ≡ 0x6c42)
    × (public_end nor_asm_call_c_func_with_priv_stack ≡ 0x6c4e)
    × (public_end rep_asm_call_func_in_encl_no_priv_stack_0 ≡ 0x6c42)
    × (public_end nor_asm_br_within_encl_1 ≡ 0x6c3e)
    × (public_end nor_asm_example_base_enclave ≡ 0x6c3a)
    × (public_end nor_asm_if_else ≡ 0x6c4c)
    × (public_end nor_asm_jmp_within_encl ≡ 0x6c3a)
    × (public_end nor_asm_ret_int ≡ 0x6c2e)
    × (public_end nor_asm_test ≡ 0x6c48)
    × (public_end rep_asm_bb_cross_enclave_boundary_0 ≡ 0x6c38)
    × (public_end rep_asm_bb_cross_enclave_boundary_1 ≡ 0x6c30)
    × (public_end rep_asm_bb_cross_enclave_boundary_2 ≡ 0x6c30)
    × (public_end rep_asm_bb_cross_enclave_boundary_3 ≡ 0x6c30)
    × (public_end rep_asm_bb_cross_enclave_boundary_4 ≡ 0x6c30)
    × (public_end rep_asm_bb_cross_enclave_boundary_5 ≡ 0x6c36)
    × (public_end rep_asm_br_to_attacker_addr ≡ 0x6c3e)
    × (public_end rep_asm_call_func_in_encl_no_priv_stack_1 ≡ 0x6c3a)
    × (public_end rep_asm_jmp_to_non_exec_mem_0 ≡ 0x6c36)
    × (public_end rep_asm_jmp_to_non_exec_mem_1 ≡ 0x6c2a)
    × (public_end rep_asm_ret ≡ 0x6c3e)
    × (public_end rep_asm_tainted_br_inside_encl ≡ 0x6c24)
    × (public_end nor_asm_0 ≡ 0x6c12)
    × (public_end nor_asm_1 ≡ 0x6c24)
    × (public_end nor_asm_2 ≡ 0x6c28)
    × (public_end rep_asm_mov_secret_to_attacker_addr ≡ 0x6c22)
    × (public_end rep_asm_non_tainted_read_outside_encl ≡ 0x6c1e)
    × (public_end rep_asm_non_tainted_write_outside_encl ≡ 0x6c1e)
    × (public_end rep_asm_tainted_read_inside_encl_absaddr ≡ 0x6c1c)
    × (public_end rep_asm_tainted_read_inside_encl_reladdr ≡ 0x6c22)
    × (public_end rep_asm_tainted_write_inside_encl_absaddr ≡ 0x6c22)
    × (public_end rep_asm_tainted_write_inside_encl_reladdr ≡ 0x6c24)
    × (public_end rep_asm_unconstrained_read ≡ 0x6c14)
    × (public_end rep_asm_unconstrained_write ≡ 0x6c1a)
    × (public_end ptr_under_const ≡ 0x6c14)
unfolding public_end
sections_linked = (
  refl, refl, refl, refl, refl, refl, refl, refl, refl, refl, refl, refl, refl, refl, refl, refl,
  refl, refl, refl, refl, refl, refl, refl, refl, refl, refl, refl, refl, refl, refl, refl, refl,
  refl, refl,
)

-- All registers hold `v`, and every word of memory, but for the code that two tests load.
abbrev all_at : ℕ → Cpu
all_at v = record {
  registers = λ k. v;
  zero_flag = true;
  less = false;
  memory = λ a. if a == 0x6c34 then 0x5e0f else if a == 0x6c36 then 0x5e0f else v;
  trace = [];
}

normal_enclaves-leave_example :
    Leaves nor_asm_ret_int (public_end nor_asm_ret_int) 0xbeef (run nor_asm_ret_int 20 0 (all_at 5))
    × Leaves nor_asm_example_base_enclave
        (public_end nor_asm_example_base_enclave)
        (if 5 == 0 then 0xdead else 0xbeef)
        (run nor_asm_example_base_enclave 20 0 (all_at 5))
    × Leaves nor_asm_br_within_encl_0
        (public_end nor_asm_br_within_encl_0)
        0xdead
        (run nor_asm_br_within_encl_0 20 0 (all_at 5))
    × Leaves nor_asm_br_within_encl_1
        (public_end nor_asm_br_within_encl_1)
        (word (5 + 10))
        (run nor_asm_br_within_encl_1 20 0 (all_at 5))
    × Leaves nor_asm_jmp_within_encl
        (public_end nor_asm_jmp_within_encl)
        (word (5 + 10))
        (run nor_asm_jmp_within_encl 20 0 (all_at 5))
    × Leaves nor_asm_test (public_end nor_asm_test) 5 (run nor_asm_test 20 0 (all_at 5))
    × Leaves nor_asm_call_c_func_with_priv_stack 0x5cae
        (foo_c_fct 0xdead 10)
        (run nor_asm_call_c_func_with_priv_stack 20 0 (all_at 5))
    × Leaves nor_asm_if_else
        (public_end nor_asm_if_else)
        (if 5 == 0
          then word (5 + 1)
          else if signed_less 5 10
          then word (5 + 420)
          else word (5 + 0xffff))
        (run nor_asm_if_else 20 0 (all_at 5))
normal_enclaves-leave_example =
    normal_enclaves-leave (all_at 5) (λ k. omega arith) (inl (omega arith))

broken_enclaves-leave_example :
    (LeavesTo (even 0x1234) (run rep_asm_br_to_attacker_addr 20 0 (all_at 0x1234))
      × LeavesTo (even 0x1234) (run rep_asm_ret 20 0 (all_at 0x1234))
      × LeavesTo 0x200 (run rep_asm_jmp_to_non_exec_mem_0 20 0 (all_at 0x1234))
      × LeavesTo 0 (run rep_asm_jmp_to_non_exec_mem_1 20 0 (all_at 0x1234))
      × LeavesTo (even encoded_add) (run rep_asm_bb_cross_enclave_boundary_5 20 0 (all_at 0x1234))
      × LeavesTo
          (even encoded_add)
          (run rep_asm_call_func_in_encl_no_priv_stack_1 20 0 (all_at 0x1234)))
    × (Crosses (5 == 0) (run rep_asm_bb_cross_enclave_boundary_0 20 0 (all_at 5))
        × Crosses true (run rep_asm_bb_cross_enclave_boundary_1 20 0 (all_at 5))
        × Crosses true (run rep_asm_bb_cross_enclave_boundary_2 20 0 (all_at 5))
        × Crosses true (run rep_asm_bb_cross_enclave_boundary_3 20 0 (all_at 5))
        × Crosses true (run rep_asm_bb_cross_enclave_boundary_4 20 0 (all_at 5)))
    × LeavesWith
        (public_end rep_asm_tainted_br_inside_encl)
        5
        (run rep_asm_tainted_br_inside_encl 20 0 (all_at 5))
broken_enclaves-leave_example =
    broken_enclaves-leave (all_at 0x1234) (all_at 5) 0x1234 refl refl refl refl (inl (omega arith))
      (omega arith)

normal_enclaves-stay_example :
    Stays 0x200 0x200 (public_end nor_asm_0) 0x1234 0x1234 (run nor_asm_0 20 0 (all_at 0x1234))
    × Stays 0x200 0x240
        (public_end nor_asm_1)
        0x1234
        (even 0x1234)
        (run nor_asm_1 20 0 (all_at 0x1234))
    × Stays 0x200 0x240 (even 0x1234) 0x1234 0x236 (run nor_asm_2 20 0 (all_at 0x1234))
    × Stays 0x200 0x32c 0x5cae
        (foo_c_fct 0xdead 10)
        (even 0x1234)
        (run nor_asm_call_c_func_with_priv_stack 20 0 (all_at 0x1234))
normal_enclaves-stay_example = normal_enclaves-stay (all_at 0x1234) (inl (omega arith))

abbrev entered_at : Cpu
entered_at = all_at 0x6c10

abbrev called_at : Cpu
called_at = all_at 0x1000

accessed_lem_example :
    ((accessed entered_at rep_asm_non_tainted_read_outside_encl ≡ read 0x6c0a ∷ [])
      × (accessed entered_at rep_asm_non_tainted_write_outside_encl ≡ write 0x6c0a ∷ [])
      × (accessed entered_at rep_asm_unconstrained_read ≡ read (even 0x6c10) ∷ [])
      × (accessed entered_at rep_asm_tainted_read_inside_encl_absaddr
          ≡ (if between 0x6c0c 0x6c24 0x6c10 then read (even 0x6c10) ∷ [] else []))
      × (accessed entered_at rep_asm_tainted_write_inside_encl_absaddr
          ≡ (if between 0x6c0c 0x6c1a 0x6c10 then write (even 0x6c10) ∷ [] else []))
      × (accessed entered_at rep_asm_tainted_read_inside_encl_reladdr
          ≡ relative entered_at (read (even 0x6c10))))
    × (accessed called_at rep_asm_tainted_write_inside_encl_reladdr
        ≡ relative called_at (write (even 0x1000)))
    × (accessed called_at ptr_under_const ≡ write (pushed called_at) ∷ [])
    × (accessed called_at rep_asm_unconstrained_write ≡ write (even 0x1000) ∷ [])
    × (accessed called_at rep_asm_mov_secret_to_attacker_addr
        ≡ read (even (word (pushed called_at + 2)))
          ∷ read (pushed called_at)
          ∷ write (pushed called_at)
          ∷ write (even 0x1000)
          ∷ [])
    × (All
          (KeepsCode 0x6c0c (public_end rep_asm_tainted_write_inside_encl_reladdr))
          (accessed called_at rep_asm_tainted_write_inside_encl_reladdr)
        × All (KeepsCode 0x6c0c (public_end ptr_under_const)) (accessed called_at ptr_under_const)
        × All
            (KeepsCode 0x6c0c (public_end rep_asm_unconstrained_write))
            (accessed called_at rep_asm_unconstrained_write)
        × All
            (KeepsCode 0x6c0c (public_end rep_asm_mov_secret_to_attacker_addr))
            (accessed called_at rep_asm_mov_secret_to_attacker_addr))
    × (Ends entered_at rep_asm_non_tainted_read_outside_encl
        × Ends entered_at rep_asm_non_tainted_write_outside_encl
        × Ends entered_at rep_asm_unconstrained_read
        × Ends entered_at rep_asm_tainted_read_inside_encl_absaddr
        × Ends entered_at rep_asm_tainted_write_inside_encl_absaddr
        × Ends entered_at rep_asm_tainted_read_inside_encl_reladdr
        × Ends called_at rep_asm_tainted_write_inside_encl_reladdr
        × Ends called_at ptr_under_const
        × Ends called_at rep_asm_unconstrained_write
        × Ends called_at rep_asm_mov_secret_to_attacker_addr)
accessed_lem_example =
    accessed_lem called_at entered_at (inl (omega arith)) (inl (omega arith)) (inl (omega arith))
