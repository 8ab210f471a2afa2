-- ===== src/Sancus/Asm/Flow.antt =====
-- The control flow of the enclaves in sancus/cfsan.
use pandora_examples.Prelude.{
  ℕ, ◌+◌, ◌^◌, ◌<◌, ◌≡◌, arith, ◌==◌, if◌then◌else◌, Bool, true, false, ◌⊎◌, ◌≤◌, ◌*◌, All, [],
}
use pandora_examples.Sancus.Asm.{
  Program, Access, read, write, Cpu, Exit, left, fell, strayed, running, run, word, signed_less,
  public_end, even,
}
use pandora_examples.Sancus.Asm.Normal.{
  nor_asm_br_within_encl_0, nor_asm_br_within_encl_1, nor_asm_example_base_enclave, nor_asm_if_else,
  nor_asm_jmp_within_encl, nor_asm_ret_int, nor_asm_test, foo_c_fct,
  nor_asm_call_c_func_with_priv_stack,
}
use pandora_examples.Sancus.Asm.Broken.{
  rep_asm_bb_cross_enclave_boundary_0, rep_asm_bb_cross_enclave_boundary_1,
  rep_asm_bb_cross_enclave_boundary_2, rep_asm_bb_cross_enclave_boundary_3,
  rep_asm_bb_cross_enclave_boundary_4, rep_asm_bb_cross_enclave_boundary_5,
  rep_asm_br_to_attacker_addr, rep_asm_call_func_in_encl_no_priv_stack_1,
  rep_asm_jmp_to_non_exec_mem_0, rep_asm_jmp_to_non_exec_mem_1, rep_asm_ret,
  rep_asm_tainted_br_inside_encl,
}

-- A state in which the enclave has made no access yet.
abbrev pub fresh : Cpu → Cpu
fresh c = record c { trace = [] }

-- The run jumps to the address `a` outside the section, with `v` in r15.
abbrev pub LeavesWith : ℕ → ℕ → Exit → Type 0
LeavesWith a v (left b c) = (b ≡ a) × (c.registers 15 ≡ v)
LeavesWith a v (fell c) = ⊥
LeavesWith a v (strayed b c) = ⊥
LeavesWith a v (running c) = ⊥

-- The run goes on over the end of the section exactly where `b` is true, and else leaves by a jump.
abbrev pub Crosses : Bool → Exit → Type 0
Crosses b (left a c) = b ≡ false
Crosses b (fell c) = b ≡ true
Crosses b (strayed a c) = ⊥
Crosses b (running c) = ⊥

-- Off the words from `start` to `end`.
abbrev pub IsOff : ℕ → ℕ → ℕ → Type 0
IsOff start end a = (a < start) ⊎ (end ≤ a)

-- Not a store to the code from `start` to `end`.
abbrev pub KeepsCode : ℕ → ℕ → Access → Type 0
KeepsCode start end (read a) = Unit
KeepsCode start end (write a) = IsOff start end a

-- The run jumps to the address `a` outside the section, with `v` in r15, and has stored nothing to
-- the code of the section.
abbrev pub Leaves : Program → ℕ → ℕ → Exit → Type 0
Leaves p a v (left b c) =
    (b ≡ a) × (c.registers 15 ≡ v) × All (KeepsCode p.public_start (public_end p)) c.trace
Leaves p a v (fell c) = ⊥
Leaves p a v (strayed b c) = ⊥
Leaves p a v (running c) = ⊥

-- Where the word lies that a push stores.
abbrev pub pushed : Cpu → ℕ
pushed c = even (word (c.registers 1 + 0xfffe))

-- The enclaves whose control flow is sound leave by a jump to the end of their section, or to the
-- exit trampoline, after at most twenty instructions, from every state of the processor whose
-- registers are words and whose stack pointer is such that the word below it is not one of the code
-- of nor_asm_if_else, the one enclave here that uses its caller's stack. None of them stores to its
-- own code. And r15 is then what the assembly computes from the argument in it: a constant, 0xdead
-- for 0 and 0xbeef for others, a sum that wraps, the argument itself, or, where r11 is not zero, one
-- less from 10 on and 420 more below, by the signed order. That of nor_asm_br_within_encl_0 is
-- 0xdead for every argument, since the branch goes to the instruction that loads it.
pub normal_enclaves-leave :
    (c : Cpu)
    → ((k : ℕ) → c.registers k < 2 ^ 16)
    → IsOff 0x6c28 0x6c4c (pushed c)
    → Leaves nor_asm_ret_int
        (public_end nor_asm_ret_int)
        0xbeef
        (run nor_asm_ret_int 20 0 (fresh c))
      × Leaves nor_asm_example_base_enclave
          (public_end nor_asm_example_base_enclave)
          (if c.registers 15 == 0 then 0xdead else 0xbeef)
          (run nor_asm_example_base_enclave 20 0 (fresh c))
      × Leaves nor_asm_br_within_encl_0
          (public_end nor_asm_br_within_encl_0)
          0xdead
          (run nor_asm_br_within_encl_0 20 0 (fresh c))
      × Leaves nor_asm_br_within_encl_1
          (public_end nor_asm_br_within_encl_1)
          (word (c.registers 15 + 10))
          (run nor_asm_br_within_encl_1 20 0 (fresh c))
      × Leaves nor_asm_jmp_within_encl
          (public_end nor_asm_jmp_within_encl)
          (word (c.registers 15 + 10))
          (run nor_asm_jmp_within_encl 20 0 (fresh c))
      × Leaves nor_asm_test
          (public_end nor_asm_test)
          (c.registers 15)
          (run nor_asm_test 20 0 (fresh c))
      × Leaves nor_asm_call_c_func_with_priv_stack 0x5cae
          (foo_c_fct 0xdead 10)
          (run nor_asm_call_c_func_with_priv_stack 20 0 (fresh c))
      × Leaves nor_asm_if_else
          (public_end nor_asm_if_else)
          (if c.registers 11 == 0
            then word (c.registers 15 + 1)
            else if signed_less (c.registers 15) 10
            then word (c.registers 15 + 420)
            else word (c.registers 15 + 0xffff))
          (run nor_asm_if_else 20 0 (fresh c))
unfolding run public_end
normal_enclaves-leave c words off =
    let w = words 15 in
    (
      ground arith,
      ground arith,
      ground arith,
      ground arith,
      ground arith,
      ground arith,
      ground arith,
      ground arith,
    )

-- The run jumps to the address `a` outside the section.
abbrev pub LeavesTo : ℕ → Exit → Type 0
LeavesTo a (left b c) = b ≡ a
LeavesTo a (fell c) = ⊥
LeavesTo a (strayed b c) = ⊥
LeavesTo a (running c) = ⊥

-- The word that encodes `add r14, r15`
abbrev pub encoded_add : ℕ
encoded_add = 0x5000 + 2 ^ 8 * 14 + 15

-- Where the rep_ enclaves jump.
targets-chosen :
    (c : Cpu) (a : ℕ)
    → c.registers 15 ≡ even a
    → c.memory (even (c.registers 1)) ≡ even a
    → c.memory 0x6c34 ≡ encoded_add
    → c.memory 0x6c36 ≡ encoded_add
    → (even a < 0x6c28) ⊎ (0x6c3e ≤ even a)
    → LeavesTo (even a) (run rep_asm_br_to_attacker_addr 20 0 c)
      × LeavesTo (even a) (run rep_asm_ret 20 0 c)
      × LeavesTo 0x200 (run rep_asm_jmp_to_non_exec_mem_0 20 0 c)
      × LeavesTo 0 (run rep_asm_jmp_to_non_exec_mem_1 20 0 c)
      × LeavesTo (even encoded_add) (run rep_asm_bb_cross_enclave_boundary_5 20 0 c)
      × LeavesTo (even encoded_add) (run rep_asm_call_func_in_encl_no_priv_stack_1 20 0 c)
unfolding run public_end
targets-chosen c a arg stack plus5 plus1 out =
    (ground arith, ground arith, ground arith, ground arith, ground arith, ground arith)

-- What the two comparisons let through is the address of one of two instructions nop.
tainted_br-leaves :
    (c : Cpu)
    → c.registers 15 < 2 ^ 16
    → LeavesWith
        (public_end rep_asm_tainted_br_inside_encl)
        (c.registers 15)
        (run rep_asm_tainted_br_inside_encl 20 0 c)
unfolding run public_end
tainted_br-leaves c small = ground arith

-- The enclaves whose last basic block has no jump at its end.
boundary-crossed :
    (c : Cpu)
    → Crosses (c.registers 15 == 0) (run rep_asm_bb_cross_enclave_boundary_0 20 0 c)
      × Crosses true (run rep_asm_bb_cross_enclave_boundary_1 20 0 c)
      × Crosses true (run rep_asm_bb_cross_enclave_boundary_2 20 0 c)
      × Crosses true (run rep_asm_bb_cross_enclave_boundary_3 20 0 c)
      × Crosses true (run rep_asm_bb_cross_enclave_boundary_4 20 0 c)
unfolding run public_end
boundary-crossed c = (ground arith, ground arith, ground arith, ground arith, ground arith)

-- How the enclaves leave whose control flow is to be reported. For each even address `a` outside of
-- their sections, the caller has rep_asm_br_to_attacker_addr jump to `a` by its argument, and
-- rep_asm_ret by the word that its stack pointer points to. The two enclaves that jump to memory
-- that is not code go to 0x200, the start of the secret section, and to 0. The two that call `plus`
-- where `#plus` is meant, with the section's code in memory, leave the enclave for the address that
-- the instruction at `plus` encodes, but for its lowest bit. And from every state whose r15 is a
-- word, rep_asm_bb_cross_enclave_boundary_0 runs over the end of its section exactly for the
-- argument 0, those with the numbers 1 to 4 always, and rep_asm_tainted_br_inside_encl, which
-- branches to its argument, leaves by a jump to the end of its section and with the argument in r15.
pub broken_enclaves-leave :
    (c d : Cpu) (a : ℕ)
    → c.registers 15 ≡ even a
    → c.memory (even (c.registers 1)) ≡ even a
    → c.memory 0x6c34 ≡ encoded_add
    → c.memory 0x6c36 ≡ encoded_add
    → (even a < 0x6c28) ⊎ (0x6c3e ≤ even a)
    → d.registers 15 < 2 ^ 16
    → (LeavesTo (even a) (run rep_asm_br_to_attacker_addr 20 0 c)
        × LeavesTo (even a) (run rep_asm_ret 20 0 c)
        × LeavesTo 0x200 (run rep_asm_jmp_to_non_exec_mem_0 20 0 c)
        × LeavesTo 0 (run rep_asm_jmp_to_non_exec_mem_1 20 0 c)
        × LeavesTo (even encoded_add) (run rep_asm_bb_cross_enclave_boundary_5 20 0 c)
        × LeavesTo (even encoded_add) (run rep_asm_call_func_in_encl_no_priv_stack_1 20 0 c))
      × (Crosses (d.registers 15 == 0) (run rep_asm_bb_cross_enclave_boundary_0 20 0 d)
          × Crosses true (run rep_asm_bb_cross_enclave_boundary_1 20 0 d)
          × Crosses true (run rep_asm_bb_cross_enclave_boundary_2 20 0 d)
          × Crosses true (run rep_asm_bb_cross_enclave_boundary_3 20 0 d)
          × Crosses true (run rep_asm_bb_cross_enclave_boundary_4 20 0 d))
      × LeavesWith
          (public_end rep_asm_tainted_br_inside_encl)
          (d.registers 15)
          (run rep_asm_tainted_br_inside_encl 20 0 d)
broken_enclaves-leave c d a arg stack plus5 plus1 out small =
    (targets-chosen c a arg stack plus5 plus1 out, boundary-crossed d, tainted_br-leaves d small)
