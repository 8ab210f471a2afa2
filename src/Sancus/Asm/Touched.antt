-- ===== src/Sancus/Asm/Touched.antt =====
-- The memory that the enclaves in sancus/ptrsan access.
use pandora_examples.Prelude.{
  ℕ, ◌+◌, ◌≤◌, ◌<◌, ◌≡◌, ◌∙◌, ap₂, arith, Bool, true, ◌==◌, ◌&&◌, not, if◌then◌else◌, List, [], ◌∷◌,
  All, refl, ◌⊎◌,
}
use pandora_examples.Sancus.Asm.{
  Program, Cpu, Access, read, write, Exit, left, fell, strayed, running, run, word, signed_less,
  public_end, even,
}
use pandora_examples.Sancus.Asm.Flow.{fresh, pushed, IsOff, KeepsCode, LeavesTo}
use pandora_examples.Sancus.Asm.Normal.{foo_c_fct, nor_asm_call_c_func_with_priv_stack}
use pandora_examples.Sancus.Asm.Pointers.{
  nor_asm_0, nor_asm_1, nor_asm_2, rep_asm_mov_secret_to_attacker_addr,
  rep_asm_non_tainted_read_outside_encl, rep_asm_non_tainted_write_outside_encl,
  rep_asm_tainted_read_inside_encl_absaddr, rep_asm_tainted_read_inside_encl_reladdr,
  rep_asm_tainted_write_inside_encl_absaddr, rep_asm_tainted_write_inside_encl_reladdr,
  rep_asm_unconstrained_read, rep_asm_unconstrained_write, ptr_under_const,
}

-- The accesses of a run, the latest first.
abbrev pub accesses : Exit → List Access
accesses (left a c) = c.trace
accesses (fell c) = c.trace
accesses (strayed a c) = c.trace
accesses (running c) = c.trace

-- A word of the section from `start` to `end`.
abbrev pub InSection : ℕ → ℕ → Access → Type 0
InSection start end (read a) = (start ≤ a) × (a + 2 ≤ end)
InSection start end (write a) = (start ≤ a) × (a + 2 ≤ end)

-- The run jumps to the address `a`, with `v` in r15 and `s` in the stack pointer, and accessed
-- words of the section alone.
abbrev pub Stays : ℕ → ℕ → ℕ → ℕ → ℕ → Exit → Type 0
Stays start end a v s (left b c) =
    (b ≡ a) × (c.registers 15 ≡ v) × (c.registers 1 ≡ s) × All (InSection start end) c.trace
Stays start end a v s (fell c) = ⊥
Stays start end a v s (strayed b c) = ⊥
Stays start end a v s (running c) = ⊥

-- The enclaves whose pointers are sound stay on words of their own secret section, from every state
-- of the processor, and leave by a jump, after at most twenty instructions: nor_asm_0 accesses
-- nothing, nor_asm_1 and the one that calls a function in C put the stack there, leave with the sum
-- that they compute, and give the caller's stack pointer back. So does nor_asm_2, but for the stack
-- pointer; it leaves to the address that its caller has put in r14, here one outside the section.
pub normal_enclaves-stay :
    (c : Cpu)
    → (even (c.registers 14) < 0x6c0c) ⊎ (public_end nor_asm_2 ≤ even (c.registers 14))
    → Stays 0x200 0x200
        (public_end nor_asm_0)
        (c.registers 15)
        (c.registers 1)
        (run nor_asm_0 20 0 (fresh c))
      × Stays 0x200 0x240
          (public_end nor_asm_1)
          0x1234
          (even (c.registers 1))
          (run nor_asm_1 20 0 (fresh c))
      × Stays 0x200 0x240 (even (c.registers 14)) 0x1234 0x236 (run nor_asm_2 20 0 (fresh c))
      × Stays 0x200 0x32c 0x5cae
          (foo_c_fct 0xdead 10)
          (even (c.registers 1))
          (run nor_asm_call_c_func_with_priv_stack 20 0 (fresh c))
unfolding run public_end
normal_enclaves-stay c out = (ground arith, ground arith, ground arith, ground arith)

-- `start <= a && a < end`, signed
abbrev pub between : ℕ → ℕ → ℕ → Bool
between start end a = not (signed_less a start) && signed_less a end

module _ (c : Cpu) where
  abbrev pub accessed : Program → List Access
  accessed p = accesses (run p 20 0 (fresh c))

  -- The run of the enclave goes to the end of its section.
  abbrev pub Ends : Program → Type 0
  Ends p = LeavesTo (public_end p) (run p 20 0 (fresh c))

  -- The accesses of the two enclaves that compare with the word at the start of their section
  -- where its address is meant: `access` is made if r15 is less than ten above that word.
  abbrev pub relative : Access → List Access
  relative access =
      let start = c.memory 0x200 in
      if signed_less (c.registers 15) start
      then read 0x200 ∷ []
      else if signed_less (c.registers 15) (word (start + 10))
      then access ∷ read 0x200 ∷ read 0x200 ∷ []
      else read 0x200 ∷ read 0x200 ∷ []

  relative-read :
      accessed rep_asm_tainted_read_inside_encl_reladdr ≡ relative (read (even (c.registers 15)))
  unfolding run public_end
  relative-read = ground arith

  relative-write :
      accessed rep_asm_tainted_write_inside_encl_reladdr ≡ relative (write (even (c.registers 15)))
  unfolding run public_end
  relative-write = ground arith

  absolute-read :
      accessed rep_asm_tainted_read_inside_encl_absaddr
      ≡ (if between 0x6c0c 0x6c24 (c.registers 15) then read (even (c.registers 15)) ∷ [] else [])
  unfolding run public_end
  absolute-read = ground arith

  absolute-write :
      accessed rep_asm_tainted_write_inside_encl_absaddr
      ≡ (if between 0x6c0c 0x6c1a (c.registers 15) then write (even (c.registers 15)) ∷ [] else [])
  unfolding run public_end
  absolute-write = ground arith

  secret-write_raw :
      (even (pushed c) == pushed c) ≡ true
      → accessed rep_asm_mov_secret_to_attacker_addr
        ≡ read (even (even (word (pushed c + 2))))
          ∷ read (even (pushed c))
          ∷ write (pushed c)
          ∷ write (even (c.registers 13))
          ∷ []
  unfolding run public_end
  secret-write_raw same = rw same refl

  secret-write :
      accessed rep_asm_mov_secret_to_attacker_addr
      ≡ read (even (word (pushed c + 2)))
        ∷ read (pushed c)
        ∷ write (pushed c)
        ∷ write (even (c.registers 13))
        ∷ []
  secret-write =
      let same : (even (pushed c) == pushed c) ≡ true = ground arith in
      secret-write_raw same
      ∙ ap₂ (λ a b. read a ∷ read b ∷ write (pushed c) ∷ write (even (c.registers 13)) ∷ [])
          (omega arith) (omega arith)

  secret-write_raw_end :
      (even (pushed c) == pushed c) ≡ true → Ends rep_asm_mov_secret_to_attacker_addr
  unfolding run public_end
  secret-write_raw_end same = rw same refl

  secret-write_end : Ends rep_asm_mov_secret_to_attacker_addr
  secret-write_end = secret-write_raw_end (ground arith)

  secret-write_kept :
      IsOff 0x6c0c 0x6c22 (even (c.registers 13))
      → IsOff 0x6c0c 0x6c22 (pushed c)
      → All
          (KeepsCode 0x6c0c (public_end rep_asm_mov_secret_to_attacker_addr))
          (accessed rep_asm_mov_secret_to_attacker_addr)
  unfolding public_end
  secret-write_kept off13 off_stack = rw secret-write (tt, (tt, (off_stack, (off13, tt))))

-- Every access that the enclaves make whose pointers are to be reported, the latest first. From
-- each state of the processor, two access the word at 0x6c0a, which lies outside the enclave; one
-- loads from the caller's stack pointer; two access what r15 points to where it is, by the signed
-- order, within bounds that they were given for their own code, and the one of these that stores
-- reaches but the instructions before its store; and one loads what r15 points to where it is less
-- than ten above the word at the start of its secret section, which it loads for the address of the
-- section. And from each state in which r15, r13 and the word below the stack pointer point off the
-- code of the enclaves, another stores by that same comparison; one stores below the caller's stack
-- pointer; one stores where r15 says; and one where r13 says, and then uses the caller's stack. None of these
-- four then stores to its own code. All ten run to the end of their section.
pub accessed_lem :
    (c d : Cpu)
    → IsOff 0x6c0c 0x6c24 (even (c.registers 15))
    → IsOff 0x6c0c 0x6c22 (even (c.registers 13))
    → IsOff 0x6c0c 0x6c22 (pushed c)
    → ((accessed d rep_asm_non_tainted_read_outside_encl ≡ read 0x6c0a ∷ [])
        × (accessed d rep_asm_non_tainted_write_outside_encl ≡ write 0x6c0a ∷ [])
        × (accessed d rep_asm_unconstrained_read ≡ read (even (d.registers 1)) ∷ [])
        × (accessed d rep_asm_tainted_read_inside_encl_absaddr ≡ (
            if between 0x6c0c 0x6c24 (d.registers 15)
            then read (even (d.registers 15)) ∷ []
            else []))
        × (accessed d rep_asm_tainted_write_inside_encl_absaddr ≡ (
            if between 0x6c0c 0x6c1a (d.registers 15)
            then write (even (d.registers 15)) ∷ []
            else []))
        × (accessed d rep_asm_tainted_read_inside_encl_reladdr
            ≡ relative d (read (even (d.registers 15)))))
      × (accessed c rep_asm_tainted_write_inside_encl_reladdr
          ≡ relative c (write (even (c.registers 15))))
      × (accessed c ptr_under_const ≡ write (pushed c) ∷ [])
      × (accessed c rep_asm_unconstrained_write ≡ write (even (c.registers 15)) ∷ [])
      × (accessed c rep_asm_mov_secret_to_attacker_addr
          ≡ read (even (word (pushed c + 2)))
            ∷ read (pushed c)
            ∷ write (pushed c)
            ∷ write (even (c.registers 13))
            ∷ [])
      × (All
            (KeepsCode 0x6c0c (public_end rep_asm_tainted_write_inside_encl_reladdr))
            (accessed c rep_asm_tainted_write_inside_encl_reladdr)
          × All (KeepsCode 0x6c0c (public_end ptr_under_const)) (accessed c ptr_under_const)
          × All
              (KeepsCode 0x6c0c (public_end rep_asm_unconstrained_write))
              (accessed c rep_asm_unconstrained_write)
          × All
              (KeepsCode 0x6c0c (public_end rep_asm_mov_secret_to_attacker_addr))
              (accessed c rep_asm_mov_secret_to_attacker_addr))
      × (Ends d rep_asm_non_tainted_read_outside_encl
          × Ends d rep_asm_non_tainted_write_outside_encl
          × Ends d rep_asm_unconstrained_read
          × Ends d rep_asm_tainted_read_inside_encl_absaddr
          × Ends d rep_asm_tainted_write_inside_encl_absaddr
          × Ends d rep_asm_tainted_read_inside_encl_reladdr
          × Ends c rep_asm_tainted_write_inside_encl_reladdr
          × Ends c ptr_under_const
          × Ends c rep_asm_unconstrained_write
          × Ends c rep_asm_mov_secret_to_attacker_addr)
unfolding run public_end
accessed_lem c d off15 off13 off_stack = (
  (ground arith, ground arith, ground arith, absolute-read d, absolute-write d, relative-read d),
  relative-write c,
  ground arith,
  ground arith,
  secret-write c,
  (ground arith, ground arith, ground arith, secret-write_kept c off13 off_stack),
  (
    ground arith,
    ground arith,
    ground arith,
    ground arith,
    ground arith,
    ground arith,
    ground arith,
    ground arith,
    ground arith,
    secret-write_end c,
  ),
)
