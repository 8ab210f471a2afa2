-- ===== src/Machine/Quiet.antt =====
-- `memcpy` while the host leaves memory alone: the destination gets the source's bytes, and
-- nothing else changes.
use pandora_examples.Prelude.{
  ℕ, zero, suc, ◌+◌, ◌%◌, ◌^◌, ◌≤◌, ◌<◌, ◌≡◌, ◌≢◌, ◌⊎◌, refl, ap, ap₂, ◌∙◌, arith,
}
use native.Mathlib.Decide.{ℕ_discrete}
use pandora_examples.Prelude.Words.{add_size, u64_mod}
use pandora_examples.Machine.{
  Memory, peek, poke, Host, Machine, ◌>>=◌, ◌>>◌, bytes_at, put_bytes, interrupt, log, load_word,
  store_word, copy_byte, memcpy_loop, memcpy,
}

-- From its `t`th turn on the host changes nothing.
abbrev pub QuietFrom : ℕ → Host → Type 0
QuietFrom t h = (n : ℕ) (mem : Memory) → t ≤ n → h n mem ≡ mem

-- Two ranges of `n` bytes that do not wrap and share no byte.
abbrev pub Apart : ℕ → ℕ → ℕ → Type 0
Apart a b n = (a + n ≤ u64_mod) × (b + n ≤ u64_mod) × ((a + n ≤ b) ⊎ (b + n ≤ a))

put_one : (mem : Memory) (a b : ℕ) → put_bytes mem a (bytes_at mem b 1) 1 ≡ poke mem a (peek mem b)
unfolding put_bytes bytes_at
put_one mem a b = ap (poke mem a) (omega arith)

-- What the copy makes of memory, with `k` bytes to go at index `i`.
copied : Memory → ℕ → ℕ → ℕ → ℕ → Memory
copied mem dest src zero i = mem
copied mem dest src (suc k) i =
    copied (poke mem (add_size dest i) (peek mem (add_size src i))) dest src k (suc i)

poke_self : (mem : Memory) (a v b : ℕ) → a ≡ b → poke mem a v b ≡ v
unfolding poke
poke_self mem a v b same = ground arith

poke_ne : (mem : Memory) (a v b : ℕ) → a ≢ b → poke mem a v b ≡ mem b
unfolding poke
poke_ne mem a v b differ = ground arith

copied-frame :
    (k : ℕ) (mem : Memory) (dest src i b : ℕ)
    → dest + (i + k) ≤ u64_mod
    → (b < dest + i) ⊎ (dest + (i + k) ≤ b)
    → copied mem dest src k i b ≡ mem b
unfolding copied poke
copied-frame zero mem dest src i b fits out = refl
copied-frame (suc k) mem dest src i b fits out =
    copied-frame k _ dest src (suc i) b (omega arith) (omega arith) ∙ ground arith

copied-value :
    (k : ℕ) (mem : Memory) (dest src i j : ℕ)
    → Apart dest src (i + k)
    → i ≤ j
    → j < i + k
    → copied mem dest src k i (dest + j) ≡ peek mem (src + j)
unfolding copied
copied-value zero mem dest src i j apart lo hi = absurd (omega arith)
copied-value (suc k) mem dest src i j apart lo hi = elim (ℕ_discrete i j) [
  | yes same ↦
      copied-frame k _ dest src (suc i) (dest + j) (omega arith) (omega arith)
      ∙ poke_self mem (add_size dest i) _ (dest + j) (omega arith)
      ∙ ap (λ b. peek mem b) (omega arith)
  | no later ↦
      copied-value k _ dest src (suc i) j (omega arith) (omega arith) (omega arith)
      ∙ ap (λ (x : ℕ). x % 2 ^ 8) (poke_ne mem (add_size dest i) _ (src + j) (omega arith))
]

module _ (t : ℕ) (h : Host) (quiet : QuietFrom t h) where
  mem-interrupt : (s : Machine) → t ≤ s.time → (interrupt h s).mem ≡ s.mem
  unfolding interrupt
  mem-interrupt s later = quiet s.time s.mem later

  pub load_word-quiet :
      (n a : ℕ) (s : Machine)
      → t ≤ s.time
      → ((load_word h n a s).0 ≡ bytes_at s.mem a n)
        × ((load_word h n a s).1.mem ≡ s.mem)
        × ((load_word h n a s).1.time ≡ suc s.time)
  unfolding load_word interrupt log
  load_word-quiet n a s later =
      (ap (λ m. bytes_at m a n) (mem-interrupt s later), mem-interrupt s later, refl)

  pub store_word-quiet :
      (n a v : ℕ) (s : Machine)
      → t ≤ s.time
      → ((store_word h n a v s).1.mem ≡ put_bytes s.mem a v n)
        × ((store_word h n a v s).1.time ≡ suc s.time)
  unfolding store_word interrupt log
  store_word-quiet n a v s later = (ap (λ m. put_bytes m a v n) (mem-interrupt s later), refl)

  copy_byte-quiet :
      (dest src i : ℕ) (s : Machine)
      → t ≤ s.time
      → ((copy_byte h dest src i s).1.mem
          ≡ poke s.mem (add_size dest i) (peek s.mem (add_size src i)))
        × (suc s.time ≤ (copy_byte h dest src i s).1.time)
  unfolding copy_byte ◌>>=◌
  copy_byte-quiet dest src i s later =
      let from = load_word-quiet 1 (add_size src i) s later in
      let to =
        store_word-quiet 1 (add_size dest i) (load_word h 1 (add_size src i) s).0
          (load_word h 1 (add_size src i) s).1 (omega arith) in
      (
        to.0
            ∙ ap₂ (λ m v. put_bytes m (add_size dest i) v 1) from.1 from.0
            ∙ put_one s.mem (add_size dest i) (add_size src i),
        omega arith,
      )

  memcpy_loop-quiet :
      (k dest src i : ℕ) (s : Machine)
      → t ≤ s.time
      → (memcpy_loop h dest src k i s).1.mem ≡ copied s.mem dest src k i
  unfolding memcpy_loop ◌>>◌ copied
  memcpy_loop-quiet zero dest src i s later = refl
  memcpy_loop-quiet (suc k) dest src i s later =
      let one = copy_byte-quiet dest src i s later in
      memcpy_loop-quiet k dest src (suc i) (copy_byte h dest src i s).1 (omega arith)
      ∙ ap (λ m. copied m dest src k (suc i)) one.0

  -- A copy between ranges that are apart carries each byte over, and changes no other.
  pub memcpy-quiet :
      (dest src n : ℕ) (s : Machine)
      → t ≤ s.time
      → Apart dest src n
      → ((j : ℕ) → j < n → (memcpy h dest src n s).1.mem (dest + j) ≡ peek s.mem (src + j))
        × ((b : ℕ) → (b < dest) ⊎ (dest + n ≤ b) → (memcpy h dest src n s).1.mem b ≡ s.mem b)
  unfolding memcpy
  memcpy-quiet dest src n s later apart = (
    λ j lt.
        ap (λ m. m (dest + j)) (memcpy_loop-quiet n dest src 0 s later)
        ∙ copied-value n s.mem dest src 0 j (omega arith) (omega arith) (omega arith),
    λ b out.
        ap (λ m. m b) (memcpy_loop-quiet n dest src 0 s later)
        ∙ copied-frame n s.mem dest src 0 b (omega arith) (omega arith),
  )
