-- ===== src/Sancus/Asm/Main/CfSan.antt =====
-- The main functions of sancus/cfsan, but for those of rep_asm_bb_cross_enclave_boundary_2 and 4,
-- where the code behind the section is not a return.
use pandora_examples.Prelude.{ℕ, List, [], ◌∷◌}
use pandora_examples.Sancus.Asm.{Cpu}
use pandora_examples.Sancus.Asm.Normal.{
  nor_asm_br_within_encl_0, nor_asm_br_within_encl_1, nor_asm_call_c_func_with_priv_stack,
  nor_asm_example_base_enclave, nor_asm_if_else, nor_asm_jmp_within_encl, nor_asm_ret_int,
  nor_asm_test, rep_asm_call_func_in_encl_no_priv_stack_0,
}
use pandora_examples.Sancus.Asm.Broken.{
  rep_asm_bb_cross_enclave_boundary_0, rep_asm_bb_cross_enclave_boundary_1,
  rep_asm_bb_cross_enclave_boundary_3, rep_asm_bb_cross_enclave_boundary_5,
  rep_asm_br_to_attacker_addr, rep_asm_call_func_in_encl_no_priv_stack_1,
  rep_asm_jmp_to_non_exec_mem_0, rep_asm_jmp_to_non_exec_mem_1, rep_asm_ret,
  rep_asm_tainted_br_inside_encl,
}
use pandora_examples.Sancus.Asm.Main.{Action, main}

unfoldable pub nor_asm_br_within_encl_0_main : ℕ → Cpu → List Action
unfolding main
nor_asm_br_within_encl_0_main back c = main nor_asm_br_within_encl_0 0x6c42 (0x6c38 ∷ 1 ∷ []) back c

unfoldable pub nor_asm_br_within_encl_1_main : ℕ → Cpu → List Action
unfolding main
nor_asm_br_within_encl_1_main back c = main nor_asm_br_within_encl_1 0x6c3e (0 ∷ 1 ∷ []) back c

unfoldable pub nor_asm_call_c_func_with_priv_stack_main : ℕ → Cpu → List Action
unfolding main
nor_asm_call_c_func_with_priv_stack_main back c =
    main nor_asm_call_c_func_with_priv_stack 0x5cae (0 ∷ 1 ∷ []) back c

unfoldable pub nor_asm_example_base_enclave_main : ℕ → Cpu → List Action
unfolding main
nor_asm_example_base_enclave_main back c =
    main nor_asm_example_base_enclave 0x6c3a (0 ∷ 1 ∷ []) back c

unfoldable pub nor_asm_if_else_main : ℕ → Cpu → List Action
unfolding main
nor_asm_if_else_main back c = main nor_asm_if_else 0x6c4c (0 ∷ 1 ∷ []) back c

unfoldable pub nor_asm_jmp_within_encl_main : ℕ → Cpu → List Action
unfolding main
nor_asm_jmp_within_encl_main back c = main nor_asm_jmp_within_encl 0x6c3a (0 ∷ 1 ∷ []) back c

unfoldable pub nor_asm_ret_int_main : ℕ → Cpu → List Action
unfolding main
nor_asm_ret_int_main back c = main nor_asm_ret_int 0x6c2e (0 ∷ 1 ∷ []) back c

unfoldable pub nor_asm_test_main : ℕ → Cpu → List Action
unfolding main
nor_asm_test_main back c = main nor_asm_test 0x6c48 (0 ∷ 1 ∷ []) back c

unfoldable pub rep_asm_bb_cross_enclave_boundary_0_main : ℕ → Cpu → List Action
unfolding main
rep_asm_bb_cross_enclave_boundary_0_main back c =
    main rep_asm_bb_cross_enclave_boundary_0 0x6c38 (0 ∷ 1 ∷ []) back c

unfoldable pub rep_asm_bb_cross_enclave_boundary_1_main : ℕ → Cpu → List Action
unfolding main
rep_asm_bb_cross_enclave_boundary_1_main back c =
    main rep_asm_bb_cross_enclave_boundary_1 0x6c30 (0 ∷ 1 ∷ []) back c

unfoldable pub rep_asm_bb_cross_enclave_boundary_3_main : ℕ → Cpu → List Action
unfolding main
rep_asm_bb_cross_enclave_boundary_3_main back c =
    main rep_asm_bb_cross_enclave_boundary_3 0x6c30 (0 ∷ 1 ∷ []) back c

unfoldable pub rep_asm_bb_cross_enclave_boundary_5_main : ℕ → Cpu → List Action
unfolding main
rep_asm_bb_cross_enclave_boundary_5_main back c =
    main rep_asm_bb_cross_enclave_boundary_5 0x6c36 (0 ∷ 1 ∷ []) back c

unfoldable pub rep_asm_br_to_attacker_addr_main : ℕ → Cpu → List Action
unfolding main
rep_asm_br_to_attacker_addr_main back c =
    main rep_asm_br_to_attacker_addr 0x6c3e (0x6c38 ∷ 1 ∷ []) back c

unfoldable pub rep_asm_call_func_in_encl_no_priv_stack_0_main : ℕ → Cpu → List Action
unfolding main
rep_asm_call_func_in_encl_no_priv_stack_0_main back c =
    main rep_asm_call_func_in_encl_no_priv_stack_0 0x5cae (0 ∷ 1 ∷ []) back c

unfoldable pub rep_asm_call_func_in_encl_no_priv_stack_1_main : ℕ → Cpu → List Action
unfolding main
rep_asm_call_func_in_encl_no_priv_stack_1_main back c =
    main rep_asm_call_func_in_encl_no_priv_stack_1 0x6c3e (0 ∷ 1 ∷ []) back c

unfoldable pub rep_asm_jmp_to_non_exec_mem_0_main : ℕ → Cpu → List Action
unfolding main
rep_asm_jmp_to_non_exec_mem_0_main back c =
    main rep_asm_jmp_to_non_exec_mem_0 0x6c36 (0 ∷ 1 ∷ []) back c

unfoldable pub rep_asm_jmp_to_non_exec_mem_1_main : ℕ → Cpu → List Action
unfolding main
rep_asm_jmp_to_non_exec_mem_1_main back c =
    main rep_asm_jmp_to_non_exec_mem_1 0x6c2a (0 ∷ 1 ∷ []) back c

unfoldable pub rep_asm_ret_main : ℕ → Cpu → List Action
unfolding main
rep_asm_ret_main back c = main rep_asm_ret 0x6c3e (0x6c38 ∷ 1 ∷ []) back c

unfoldable pub rep_asm_tainted_br_inside_encl_main : ℕ → Cpu → List Action
unfolding main
rep_asm_tainted_br_inside_encl_main back c =
    main rep_asm_tainted_br_inside_encl 0x6c24 (0x6c0a ∷ []) back c
