-- ===== src/Machine.antt =====
-- The memory that an enclave shares with its host, as the enclave's C code meets it: every load
-- and store is an event of a trace, and the host may change memory before each of them.
pub mod Bytes
pub mod Hoare
pub mod Quiet
use pandora_examples.Prelude.{
  ℕ, zero, suc, ◌+◌, ◌*◌, ◌/◌, ◌%◌, ◌^◌, Bool, true, List, ◌∷◌, ◌==◌, if◌then◌else◌,
}
use pandora_examples.Prelude.Words.{add_size}

-- A byte of memory is the low eight bits of a cell.
abbrev pub Memory : Type 0
Memory = ℕ → ℕ

abbrev pub peek : Memory → ℕ → ℕ
peek mem a = mem a % 2 ^ 8

unfoldable pub poke : Memory → ℕ → ℕ → Memory
poke mem a v b = if a == b then v else mem b

-- What the enclave does that its environment can see. `wild i` is a call through element `i` of
-- a table that has no such element.
pub data Event : Type 0 where
  load : ℕ → ℕ → Event
  store : ℕ → ℕ → Event
  exec : ℕ → Event
  wild : ℕ → Event

-- The host's threads: what they make of memory before the `n`th access of the enclave.
abbrev pub Host : Type 0
Host = ℕ → Memory → Memory

-- The latest event stands first.
pub record Machine : Type 0 where
  pub mem : Memory
  pub time : ℕ
  pub trace : List Event

-- A statement of the program, which gives a value.
abbrev pub Cmd : Type 0 → Type 0
Cmd A = Machine → A × Machine

infixl 5 ◌>>=◌ ◌>>◌
unfoldable pub ◌>>=◌ : {A B : Type 0} → Cmd A → (A → Cmd B) → Cmd B
◌>>=◌ m f s = let r = m s in f r.0 r.1

unfoldable pub ◌>>◌ : {B : Type 0} → Cmd (Unit {0}) → Cmd B → Cmd B
◌>>◌ m k s = k (m s).1

abbrev pub skip : Cmd (Unit {0})
skip s = (tt, s)

-- The little-endian value of the `n` bytes at `a`.
unfoldable pub bytes_at : Memory → ℕ → ℕ → ℕ
bytes_at mem a zero = 0
bytes_at mem a (suc n) = peek mem a + 2 ^ 8 * bytes_at mem (add_size a 1) n

-- The `n` bytes of `v`, little-endian, stored at `a`.
unfoldable pub put_bytes : Memory → ℕ → ℕ → ℕ → Memory
unfolding poke
put_bytes mem a v zero = mem
put_bytes mem a v (suc n) = put_bytes (poke mem a (v % 2 ^ 8)) (add_size a 1) (v / 2 ^ 8) n

-- The host's turn.
unfoldable pub interrupt : Host → Machine → Machine
interrupt h s = record s { mem = h s.time s.mem; time = suc s.time }

unfoldable pub log : Event → Machine → Machine
log e s = record s { trace = e ∷ s.trace }

module _ (h : Host) where
  -- One load of `n` bytes at `a`, as a number.
  unfoldable pub load_word : ℕ → ℕ → Cmd ℕ
  load_word n a s = let s' = interrupt h s in (bytes_at s'.mem a n, log (load a n) s')

  -- One store of the low `n` bytes of `v` at `a`.
  unfoldable pub store_word : ℕ → ℕ → ℕ → Cmd (Unit {0})
  store_word n a v s =
      let s' = interrupt h s in (tt, log (store a n) (record s' { mem = put_bytes s'.mem a v n }))

  -- A call of the code at `a`: only that it is made is recorded, and what the code does is not
  -- followed.
  unfoldable pub call : ℕ → Cmd (Unit {0})
  call a s = (tt, log (exec a) (interrupt h s))

  -- `((char *)dest)[i] = ((char *)src)[i]`
  unfoldable pub copy_byte : ℕ → ℕ → ℕ → Cmd (Unit {0})
  copy_byte dest src i = do b ← load_word 1 (add_size src i); store_word 1 (add_size dest i) b

  -- The loop of `memcpy`, with `k` rounds to go at index `i`.
  unfoldable pub memcpy_loop : ℕ → ℕ → ℕ → ℕ → Cmd (Unit {0})
  memcpy_loop dest src zero i = skip
  memcpy_loop dest src (suc k) i = copy_byte dest src i >> memcpy_loop dest src k (suc i)

  unfoldable pub memcpy : ℕ → ℕ → ℕ → Cmd (Unit {0})
  memcpy dest src n = memcpy_loop dest src n 0
