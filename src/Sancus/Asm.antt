-- ===== src/Sancus/Asm.antt =====
-- The MSP430 assembly of the enclaves in sancus/ptrsan and sancus/cfsan: the instructions they use,
-- as the processor's manual has them, on words. An address of a word is even: the processor drops
-- the lowest bit of the stack pointer, of the program counter and of an address of a word. The code
-- of an enclave is apart from the memory that it stores to, so a run is that of the processor as long
-- as no store reaches an instruction that is still to come. Accesses that Sancus would refuse are
-- made.
pub mod Normal
pub mod Broken
pub mod Pointers
pub mod Main
pub mod Flow
pub mod Touched
mod Tests
use pandora_examples.Prelude.{
  ℕ, zero, suc, ◌+◌, ◌*◌, ◌/◌, ◌-◌, ◌%◌, ◌^◌, Bool, true, false, ◌||◌, ◌&&◌, List, [], ◌∷◌, Option,
  none, some, ltb, leb, ◌==◌, if◌then◌else◌,
}

-- A number, or the address of the instruction with an index.
pub data Const : Type 0 where
  number : ℕ → Const
  label : ℕ → Const

-- `#c`, `rN`, `@rN`, and `c`, the word at the address c
pub data Operand : Type 0 where
  immediate : Const → Operand
  register : ℕ → Operand
  indirect : ℕ → Operand
  symbolic : Const → Operand

-- `rN`, and `@rN`, which is assembled as `0(rN)`
pub data Destination : Type 0 where
  to_register : ℕ → Destination
  to_indirect : ℕ → Destination

-- `clr rN` is `mov #0, rN`, `inc rN` is `add #1, rN`, `dec rN` is `sub #1, rN`, `jz` is `jeq`.
pub data Instruction : Type 0 where
  nop : Instruction
  mov : Operand → Destination → Instruction
  add sub cmp : Operand → ℕ → Instruction
  push : Operand → Instruction
  pop : ℕ → Instruction
  call br : Operand → Instruction
  ret : Instruction
  jmp jeq jl jge : Const → Instruction

-- The public section: where the linker puts it, and its instructions.
pub record Program : Type 0 where
  pub public_start : ℕ
  pub code : List Instruction

-- A load or a store of a word.
pub data Access : Type 0 where
  read : ℕ → Access
  write : ℕ → Access

-- `zero_flag` is Z, and `less` is N xor V. The latest access stands first.
pub record Cpu : Type 0 where
  pub registers : ℕ → ℕ
  pub zero_flag : Bool
  pub less : Bool
  pub memory : ℕ → ℕ
  pub trace : List Access

-- How control leaves the enclave: by a jump to an address outside the public section, by running
-- over its end, or by a jump into it to where no instruction starts. `running` is a run that has
-- not ended.
pub data Exit : Type 0 where
  left : ℕ → Cpu → Exit
  fell : Cpu → Exit
  strayed : ℕ → Cpu → Exit
  running : Cpu → Exit

abbrev pub even : ℕ → ℕ
even a = 2 * (a / 2)

abbrev pub word : ℕ → ℕ
word v = v % 2 ^ 16

-- The order of signed words.
abbrev pub signed_less : ℕ → ℕ → Bool
signed_less a b = ltb ((a + 2 ^ 15) % 2 ^ 16) ((b + 2 ^ 15) % 2 ^ 16)

-- The constants that take no word of their own.
unfoldable pub generated : ℕ → Bool
generated n = leb n 2 || (n == 4 || (n == 8 || n == 0xffff))

unfoldable pub constant_size : Const → ℕ
unfolding generated
constant_size (number n) = if generated n then 0 else 2
constant_size (label k) = 2

unfoldable pub operand_size : Operand → ℕ
unfolding constant_size
operand_size (immediate c) = constant_size c
operand_size (register r) = 0
operand_size (indirect r) = 0
operand_size (symbolic c) = 2

unfoldable pub destination_size : Destination → ℕ
destination_size (to_register r) = 0
destination_size (to_indirect r) = 2

-- The bytes of an instruction.
unfoldable pub size : Instruction → ℕ
unfolding operand_size destination_size
size (mov s d) = 2 + operand_size s + destination_size d
size (add s r) = 2 + operand_size s
size (sub s r) = 2 + operand_size s
size (cmp s r) = 2 + operand_size s
size (push s) = 2 + operand_size s
size (call s) = 2 + operand_size s
size (br s) = 2 + operand_size s
size _ = 2

-- The bytes of the first `k` instructions.
unfoldable pub offset : List Instruction → ℕ → ℕ
unfolding size
offset [] k = 0
offset (i ∷ r) zero = 0
offset (i ∷ r) (suc k) = size i + offset r k

unfoldable pub code_size : List Instruction → ℕ
unfolding size
code_size [] = 0
code_size (i ∷ r) = size i + code_size r

unfoldable pub public_end : Program → ℕ
unfolding code_size
public_end p = p.public_start + code_size p.code

unfoldable pub get : List Instruction → ℕ → Option Instruction
get [] k = none
get (i ∷ r) zero = some i
get (i ∷ r) (suc k) = get r k

-- The index of the instruction at `d` bytes from the start.
unfoldable pub locate : List Instruction → ℕ → Option ℕ
unfolding size
locate [] d = none
locate (i ∷ r) d =
    let rest = locate r (d - size i) in
    if d == 0 then some 0 else if ltb d (size i) then none else after rest
  where
    after : Option ℕ → Option ℕ
    after none = none
    after (some k) = some (suc k)

unfoldable pub set_register : ℕ → ℕ → Cpu → Cpu
set_register n v c = record c {
  registers = λ k. if k == n then (if n == 1 then even v else v) else c.registers k;
}

-- The stack pointer, r1
abbrev pub sp : Cpu → ℕ
sp c = c.registers 1

unfoldable pub read_word : ℕ → Cpu → ℕ × Cpu
read_word a c = (c.memory (even a), record c { trace = read (even a) ∷ c.trace })

unfoldable pub write_word : ℕ → ℕ → Cpu → Cpu
write_word a v c = record c {
  memory = λ b. if b == even a then v else c.memory b;
  trace = write (even a) ∷ c.trace;
}

unfoldable pub push_word : ℕ → Cpu → Cpu
unfolding set_register write_word
push_word v c = let a = word (sp c + 0xfffe) in write_word a v (set_register 1 a c)

unfoldable pub pop_word : Cpu → ℕ × Cpu
unfolding set_register read_word
pop_word c = let r = read_word (sp c) c in (r.0, set_register 1 (word (sp c + 2)) r.1)

unfoldable pub set_flags : Bool → Bool → Cpu → Cpu
set_flags z l c = record c { zero_flag = z; less = l }

-- What an instruction does next: go on at an index, or leave.
pub data Next : Type 0 where
  at : ℕ → Cpu → Next
  done : Exit → Next

unfoldable pub continue : Next → (ℕ → Cpu → Exit) → Exit
continue (at k c) f = f k c
continue (done e) f = e

module _ (p : Program) where
  unfoldable pub address : Const → ℕ
  unfolding offset
  address (number n) = n
  address (label k) = p.public_start + offset p.code k

  unfoldable pub value : Operand → Cpu → ℕ × Cpu
  unfolding address read_word
  value (immediate k) c = (address k, c)
  value (register n) c = (c.registers n, c)
  value (indirect n) c = read_word (c.registers n) c
  value (symbolic k) c = read_word (address k) c

  unfoldable pub store_to : Destination → ℕ → Cpu → Cpu
  unfolding set_register write_word
  store_to (to_register n) v c = set_register n v c
  store_to (to_indirect n) v c = write_word (c.registers n) v c

  unfoldable pub arrive : Option ℕ → ℕ → Cpu → Next
  arrive none a c = done (strayed a c)
  arrive (some k) a c = at k c

  -- A jump to the address `v`.
  unfoldable pub go_to : ℕ → Cpu → Next
  unfolding arrive locate public_end
  go_to v c =
      let a = even v in
      if leb p.public_start a && ltb a (public_end p)
      then arrive (locate p.code (a - p.public_start)) a c
      else done (left a c)

  unfoldable pub compare : ℕ → ℕ → Cpu → Cpu
  unfolding set_flags
  compare source target c = set_flags (target == source) (signed_less target source) c

  unfoldable pub step : ℕ → Instruction → Cpu → Next
  unfolding value store_to go_to compare set_register set_flags push_word pop_word address
  step i nop c = at (suc i) c
  step i (mov s d) c = let r = value s c in at (suc i) (store_to d r.0 r.1)
  step i (add s n) c =
      let r = value s c in
      let b = r.1.registers n in
      at (suc i) (
        set_register n (word (b + r.0)) (
          set_flags (word (b + r.0) == 0)
            (ltb ((b + 2 ^ 15) % 2 ^ 16 + (r.0 + 2 ^ 15) % 2 ^ 16) (2 ^ 16)) r.1))
  step i (sub s n) c =
      let r = value s c in
      let b = r.1.registers n in
      at (suc i) (set_register n (word (b + (2 ^ 16 - r.0))) (compare r.0 b r.1))
  step i (cmp s n) c = let r = value s c in at (suc i) (compare r.0 (r.1.registers n) r.1)
  step i (push s) c = let r = value s c in at (suc i) (push_word r.0 r.1)
  step i (pop n) c = let r = pop_word c in at (suc i) (set_register n r.0 r.1)
  step i (call s) c = let r = value s c in go_to r.0 (push_word (address (label (suc i))) r.1)
  step i (br s) c = let r = value s c in go_to r.0 r.1
  step i ret c = let r = pop_word c in go_to r.0 r.1
  step i (jmp k) c = go_to (address k) c
  step i (jeq k) c = if c.zero_flag then go_to (address k) c else at (suc i) c
  step i (jl k) c = if c.less then go_to (address k) c else at (suc i) c
  step i (jge k) c = if c.less then at (suc i) c else go_to (address k) c

  unfoldable pub step_at : ℕ → Option Instruction → Cpu → Next
  unfolding step
  step_at i none c = done (fell c)
  step_at i (some s) c = step i s c

  -- At most `n` instructions, from the one at index `i`.
  unfoldable pub run : ℕ → ℕ → Cpu → Exit
  unfolding step_at get continue
  run zero i c = running c
  run (suc n) i c = continue (step_at i (get p.code i) c) (run n)
