-- ===== src/Selftest/Register.antt =====
-- The enclave's buffer as a register: the calls of the entry point of test_encl.c that put and get,
-- with what the host does between them, against an abstract register of eight bytes.
use pandora_examples.Prelude.{ℕ, ◌+◌, ◌%◌, ◌^◌, ◌<◌, ◌≡◌, sym, ap, ◌∙◌, arith, List, [], ◌∷◌}
use pandora_examples.Machine.{Memory, peek}
use pandora_examples.Machine.Quiet.{QuietFrom}
use pandora_examples.Selftest.{Env, value_of}
use pandora_examples.Selftest.Layout.{IsLayout, InEnclave, BytesOutside-Outside}
use pandora_examples.Selftest.Buffer.{after, IsRequest, put-Copied, get-Copied, value_at}

-- Eight bytes, by their places.
abbrev pub Value : Type 0
Value = ℕ → ℕ

-- What can be seen of a step: the value that a request puts, and the one that a request is given.
pub data Label : Type 0 where
  silent : Label
  puts : Value → Label
  gets : Value → Label

-- The value in the request at `op`.
abbrev pub value_in : Memory → ℕ → Value
value_in mem op j = peek mem (op + 8 + j)

abbrev pub SameValue : Value → Value → Type 0
SameValue v w = (j : ℕ) → j < 8 → v j ≡ w j

-- A step of the system: the host changes memory, but no byte of the enclave, or it calls the enclave
-- with a request, during which it is quiet.
pub data Step (e : Env) : Memory → Label → Memory → Type 0 where
  host_acts : {m m' : Memory} → ((b : ℕ) → InEnclave e b → m' b ≡ m b) → Step e m silent m'
  calls_put :
      {m m' : Memory} {v : Value} (op : ℕ)
      → IsRequest e m op 0
      → m' ≡ after e op m
      → SameValue v (value_in m op)
      → Step e m (puts v) m'
  calls_get :
      {m m' : Memory} {v : Value} (op : ℕ)
      → IsRequest e m op 1
      → m' ≡ after e op m
      → SameValue v (value_in m' op)
      → Step e m (gets v) m'

-- The labels of a run, the first one first.
pub data Run (e : Env) : Memory → List Label → Type 0 where
  stops : {m : Memory} → Run e m []
  steps :
      {m m' : Memory} {l : Label} {ls : List Label} → Step e m l m' → Run e m' ls → Run e m (l ∷ ls)

-- The specification: a register that holds `r` can show these labels.
unfoldable pub Register : Value → List Label → Type 0
Register r [] = Unit
Register r (silent ∷ ls) = Register r ls
Register r (puts v ∷ ls) = Register v ls
Register r (gets v ∷ ls) = SameValue v r × Register r ls

-- The buffer of the enclave holds the value of the register.
abbrev pub Holds : Env → Memory → Value → Type 0
Holds e m r = (j : ℕ) → j < 8 → peek m (e.encl_buffer + j) ≡ r j

low_low : (x : ℕ) → (x % 2 ^ 8) % 2 ^ 8 ≡ x % 2 ^ 8
low_low x = omega arith

module _ (e : Env) (l : IsLayout e) (quiet : QuietFrom 0 e.host) where
  put-Holds : (m : Memory) (op : ℕ) → IsRequest e m op 0 → Holds e (after e op m) (value_in m op)
  put-Holds m op request j lt =
      let out = BytesOutside-Outside e op 16 l (omega arith) request.0 in
      ap (λ (x : ℕ). x % 2 ^ 8) ((put-Copied e l quiet m op out request.1).0 j lt)
      ∙ low_low (m (value_of op + j))
      ∙ ap (λ (a : ℕ). peek m a) (sym (value_at op j (omega arith)))

  get-Holds :
      (m : Memory) (op : ℕ) (r : Value)
      → IsRequest e m op 1
      → Holds e m r
      → Holds e (after e op m) r
  get-Holds m op r request holds j lt =
      let out = BytesOutside-Outside e op 16 l (omega arith) request.0 in
      ap (λ (x : ℕ). x % 2 ^ 8)
        ((get-Copied e l quiet m op out request.1).1 (e.encl_buffer + j) (omega arith))
      ∙ holds j lt

  get-value :
      (m : Memory) (op : ℕ) (r : Value)
      → IsRequest e m op 1
      → Holds e m r
      → (j : ℕ) → j < 8
      → value_in (after e op m) op j ≡ r j
  get-value m op r request holds j lt =
      let out = BytesOutside-Outside e op 16 l (omega arith) request.0 in
      ap (λ (a : ℕ). peek (after e op m) a) (value_at op j (omega arith))
      ∙ ap (λ (x : ℕ). x % 2 ^ 8) ((get-Copied e l quiet m op out request.1).0 j lt)
      ∙ low_low (m (e.encl_buffer + j))
      ∙ holds j lt

  -- The entry point implements a register, at every level: each run of puts, gets and acts of the
  -- host between them, from a memory whose buffer holds `r`, is a run of the register that holds `r`.
  pub Run-Register :
      (ls : List Label) (m : Memory) (r : Value) → Run e m ls → Holds e m r → Register r ls
  unfolding Register
  Run-Register [] m r stops holds = tt
  Run-Register (x ∷ ls) m r (steps {m' = m'} (host_acts same) run) holds =
      Run-Register ls m' r run
        λ j lt. ap (λ (x : ℕ). x % 2 ^ 8) (same (e.encl_buffer + j) (omega arith)) ∙ holds j lt
  Run-Register (x ∷ ls) m r (steps {m' = m'} (calls_put {v = v} op request is seen) run) holds =
      Run-Register ls m' v run λ j lt.
        ap (λ (k : Memory). peek k (e.encl_buffer + j)) is
        ∙ put-Holds m op request j lt
        ∙ sym (seen j lt)
  Run-Register (x ∷ ls) m r (steps {m' = m'} (calls_get op request is seen) run) holds = (
    λ j lt.
        seen j lt ∙ ap (λ (k : Memory). value_in k op j) is ∙ get-value m op r request holds j lt,
    Run-Register ls m' r run λ j lt.
        ap (λ (k : Memory). peek k (e.encl_buffer + j)) is ∙ get-Holds m op r request holds j lt,
  )
