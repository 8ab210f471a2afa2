-- ===== src/Selftest/Small.antt =====
-- The small enclaves beside test_encl.c in pandora-sgx-selftest: encl_body of nop_encl.c,
-- pointer-deref.c and indirect-jump.c. An int has four bytes.
use pandora_examples.Prelude.{
  ℕ, zero, suc, ◌+◌, ◌*◌, ◌%◌, ◌^◌, ◌≤◌, ◌<◌, ◌≡◌, ◌≢◌, ◌⊎◌, refl, sym, ap, ap₂, ◌∙◌, arith, ◌∷◌,
}
use native.Mathlib.Decide.{ℕ_discrete}
use pandora_examples.Machine.Bytes.{put_bytes-frame}
use pandora_examples.Prelude.Words.{add_size, u64_mod}
use pandora_examples.Machine.{
  Memory, peek, poke, Host, Machine, Cmd, skip, load, store, ◌>>=◌, ◌>>◌, bytes_at, put_bytes,
  interrupt, log, load_word, store_word, call,
}
use pandora_examples.Machine.Quiet.{QuietFrom}

abbrev pub nop_body : ℕ → ℕ → Cmd (Unit {0})
nop_body rdi rsi = skip

-- pointer-deref.c, which ignores its second argument
unfoldable pub deref_body : Host → ℕ → Cmd (Unit {0})
deref_body h rdi = do i ← load_word h 4 rdi; store_word h 4 rdi 5; store_word h 4 rdi i

-- indirect-jump.c: its `asm` has `ptr` as an output, so the jump goes wherever the register that the
-- compiler picks for it happens to point.
unfoldable pub jump_body : Host → (register rdi : ℕ) → Cmd (Unit {0})
jump_body h register rdi = call h register

-- The first byte put.
put_bytes-step :
    (n : ℕ) (m m' : Memory) (a : ℕ)
    → put_bytes m' a (bytes_at m a (suc n)) (suc n)
      ≡ put_bytes (poke m' a (peek m a)) (add_size a 1) (bytes_at m (add_size a 1) n) n
unfolding put_bytes bytes_at
put_bytes-step n m m' a =
    let rest = bytes_at m (add_size a 1) n in
    ap₂ (λ (x y : ℕ). put_bytes (poke m' a x) (add_size a 1) y n)
      {x = (peek m a + 2 ^ 8 * rest) % 2 ^ 8} (omega arith) (omega arith)

poke-restores :
    (m m' : Memory) (a c : ℕ)
    → (c ≢ a → peek m' c ≡ peek m c)
    → peek (poke m' a (peek m a)) c ≡ peek m c
unfolding poke
poke-restores m m' a c same = elim (ℕ_discrete a c) [
  | yes here ↦ let same_cell = ap m here in ground arith
  | no there ↦ let kept = same (λ e. there (sym e)) in ground arith
]

-- Bytes of `m` that are put where they came from, into a memory that differs there alone.
put_bytes-bytes_at :
    (n : ℕ) (m m' : Memory) (a b : ℕ)
    → a + n ≤ u64_mod
    → ((c : ℕ) → (c < a) ⊎ (a + n ≤ c) → peek m' c ≡ peek m c)
    → peek (put_bytes m' a (bytes_at m a n) n) b ≡ peek m b
unfolding put_bytes
put_bytes-bytes_at zero m m' a b fits same = same b (omega arith)
put_bytes-bytes_at (suc zero) m m' a b fits same =
    ap (λ (k : Memory). peek k b) (put_bytes-step 0 m m' a)
    ∙ poke-restores m m' a b (λ differ. same b (omega arith))
put_bytes-bytes_at (suc (suc n)) m m' a b fits same =
    ap (λ (k : Memory). peek k b) (put_bytes-step (suc n) m m' a)
    ∙ put_bytes-bytes_at (suc n) m (poke m' a (peek m a)) (add_size a 1) b (omega arith)
        λ c out. poke-restores m m' a c (λ differ. same c (omega arith))

-- A word is restored after another value was stored in its place.
restored :
    (mem : Memory) (a v b : ℕ)
    → a + 4 ≤ u64_mod
    → peek (put_bytes (put_bytes mem a v 4) a (bytes_at mem a 4) 4) b ≡ peek mem b
restored mem a v b fits =
    put_bytes-bytes_at 4 mem (put_bytes mem a v 4) a b fits
      λ c out. ap (λ (x : ℕ). x % 2 ^ 8) (put_bytes-frame 4 mem a v c fits (omega arith))

-- While the host leaves memory alone, the enclave of pointer-deref.c leaves each byte of it as it
-- was; it has loaded the int at the given address once and stored there twice, wherever that is.
deref_body-restores :
    (h : Host) (rdi : ℕ) (s : Machine) (b : ℕ)
    → QuietFrom 0 h
    → rdi + 4 ≤ u64_mod
    → (peek (deref_body h rdi s).1.mem b ≡ peek s.mem b)
      × ((deref_body h rdi s).1.trace ≡ store rdi 4 ∷ store rdi 4 ∷ load rdi 4 ∷ s.trace)
unfolding deref_body load_word store_word interrupt log ◌>>=◌ ◌>>◌
deref_body-restores h rdi s b quiet fits = (
  rw
      (
        quiet s.time s.mem (omega arith),
        quiet (suc s.time) s.mem (omega arith),
        quiet (suc (suc s.time)) (put_bytes s.mem rdi 5 4) (omega arith),
      )
      (restored s.mem rdi 5 b fits),
  refl,
)
