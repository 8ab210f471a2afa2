-- ===== src/Sancus/Asm/Main/PtrSan.antt =====
-- The main functions of sancus/ptrsan.
use pandora_examples.Prelude.{ℕ, List, [], ◌∷◌}
use pandora_examples.Sancus.Asm.{Cpu}
use pandora_examples.Sancus.Asm.Normal.{
  nor_asm_call_c_func_with_priv_stack, rep_asm_call_func_in_encl_no_priv_stack_0,
}
use pandora_examples.Sancus.Asm.Broken.{rep_asm_ret}
use pandora_examples.Sancus.Asm.Pointers.{
  nor_asm_0, nor_asm_1, nor_asm_2, ptr_under_const, rep_asm_mov_secret_to_attacker_addr,
  rep_asm_non_tainted_read_outside_encl, rep_asm_non_tainted_write_outside_encl,
  rep_asm_tainted_read_inside_encl_absaddr, rep_asm_tainted_read_inside_encl_reladdr,
  rep_asm_tainted_write_inside_encl_absaddr, rep_asm_tainted_write_inside_encl_reladdr,
  rep_asm_unconstrained_read, rep_asm_unconstrained_write,
}
use pandora_examples.Sancus.Asm.Main.{Action, main}

unfoldable pub nor_asm_0_main : ℕ → Cpu → List Action
unfolding main
nor_asm_0_main back c = main nor_asm_0 0x6c12 (0x6c0a ∷ []) back c

unfoldable pub nor_asm_1_main : ℕ → Cpu → List Action
unfolding main
nor_asm_1_main back c = main nor_asm_1 0x6c24 (0x6c0a ∷ []) back c

unfoldable pub nor_asm_2_main : ℕ → Cpu → List Action
unfolding main
nor_asm_2_main back c = main nor_asm_2 0x6c28 (0x6c0a ∷ []) back c

unfoldable pub nor_asm_call_c_func_with_priv_stack_main : ℕ → Cpu → List Action
unfolding main
nor_asm_call_c_func_with_priv_stack_main back c =
    main nor_asm_call_c_func_with_priv_stack 0x5cae (0 ∷ 1 ∷ []) back c

unfoldable pub rep_asm_mov_secret_to_attacker_addr_main : ℕ → Cpu → List Action
unfolding main
rep_asm_mov_secret_to_attacker_addr_main back c =
    main rep_asm_mov_secret_to_attacker_addr 0x6c22 (0x6c0a ∷ []) back c

unfoldable pub rep_asm_non_tainted_read_outside_encl_main : ℕ → Cpu → List Action
unfolding main
rep_asm_non_tainted_read_outside_encl_main back c =
    main rep_asm_non_tainted_read_outside_encl 0x6c1e (0x6c0a ∷ []) back c

unfoldable pub rep_asm_non_tainted_write_outside_encl_main : ℕ → Cpu → List Action
unfolding main
rep_asm_non_tainted_write_outside_encl_main back c =
    main rep_asm_non_tainted_write_outside_encl 0x6c1e (0x6c0a ∷ []) back c

unfoldable pub rep_asm_tainted_read_inside_encl_absaddr_main : ℕ → Cpu → List Action
unfolding main
rep_asm_tainted_read_inside_encl_absaddr_main back c =
    main rep_asm_tainted_read_inside_encl_absaddr 0x6c1c (0x6c0a ∷ []) back c

unfoldable pub rep_asm_tainted_read_inside_encl_reladdr_main : ℕ → Cpu → List Action
unfolding main
rep_asm_tainted_read_inside_encl_reladdr_main back c =
    main rep_asm_tainted_read_inside_encl_reladdr 0x6c22 (0x6c0a ∷ []) back c

unfoldable pub rep_asm_tainted_write_inside_encl_absaddr_main : ℕ → Cpu → List Action
unfolding main
rep_asm_tainted_write_inside_encl_absaddr_main back c =
    main rep_asm_tainted_write_inside_encl_absaddr 0x6c22 (0x6c0a ∷ []) back c

unfoldable pub rep_asm_tainted_write_inside_encl_reladdr_main : ℕ → Cpu → List Action
unfolding main
rep_asm_tainted_write_inside_encl_reladdr_main back c =
    main rep_asm_tainted_write_inside_encl_reladdr 0x6c24 (0x6c0a ∷ []) back c

unfoldable pub rep_asm_unconstrained_read_main : ℕ → Cpu → List Action
unfolding main
rep_asm_unconstrained_read_main back c = main rep_asm_unconstrained_read 0x6c14 (0x6c0a ∷ []) back c

unfoldable pub rep_asm_unconstrained_read_1_main : ℕ → Cpu → List Action
unfolding main
rep_asm_unconstrained_read_1_main back c = main rep_asm_ret 0x6c3e (0x6c38 ∷ 1 ∷ []) back c

unfoldable pub rep_asm_unconstrained_rw_main : ℕ → Cpu → List Action
unfolding main
rep_asm_unconstrained_rw_main back c =
    main rep_asm_call_func_in_encl_no_priv_stack_0 0x5cae (0 ∷ 1 ∷ []) back c

unfoldable pub rep_asm_unconstrained_write_main : ℕ → Cpu → List Action
unfolding main
rep_asm_unconstrained_write_main back c =
    main rep_asm_unconstrained_write 0x6c1a (0x6c0a ∷ []) back c

unfoldable pub ptr_under_const_main : ℕ → Cpu → List Action
unfolding main
ptr_under_const_main back c = main ptr_under_const 0x6c14 (0x6c0a ∷ []) back c
