-- ===== src/Machine/Hoare.antt =====
-- An invariant of the machine that commands keep, whatever the host does: the rules for the
-- primitives, and for the commands built of them.
use pandora_examples.Prelude.{
  ℕ, zero, suc, ◌+◌, ◌<◌, ◌≡◌, refl, Bool, true, false, arith, if◌then◌else◌,
}
use pandora_examples.Prelude.Words.{add_size}
use pandora_examples.Machine.{
  load, store, exec, Host, Machine, Cmd, ◌>>=◌, ◌>>◌, skip, put_bytes, interrupt, log, load_word,
  store_word, call, copy_byte, memcpy_loop, memcpy,
}

-- What an invariant `I` must allow: the host's turns, the loads that are `CanLoad`, the stores that
-- are `CanStore`, and the calls that are `CanCall`.
pub record Rules (h : Host) (I : Machine → Type 0) (CanLoad CanStore : ℕ → ℕ → Type 0)
    (CanCall : ℕ → Type 0) : Type 0 where
  pub on_interrupt : (s : Machine) → I s → I (interrupt h s)
  pub on_load : (s : Machine) (a n : ℕ) → I s → CanLoad a n → I (log (load a n) s)
  pub on_store :
      (s : Machine) (a n v : ℕ)
      → I s
      → CanStore a n
      → I (log (store a n) (record s { mem = put_bytes s.mem a v n }))
  pub on_call : (s : Machine) (a : ℕ) → I s → CanCall a → I (log (exec a) s)

abbrev pub Keeps : {A : Type 0} → (Machine → Type 0) → Cmd A → Type 0
Keeps I m = (s : Machine) → I s → I (m s).1

-- `m` keeps `I`, and its value satisfies `Q`.
abbrev pub Gives : {A : Type 0} → (Machine → Type 0) → Cmd A → (A → Type 0) → Type 0
Gives I m Q = (s : Machine) → I s → I (m s).1 × Q (m s).0

pub Keeps-skip : (I : Machine → Type 0) → Keeps I skip
Keeps-skip I s i = i

pub Keeps-then :
    {B : Type 0} (I : Machine → Type 0) (m : Cmd (Unit {0})) (k : Cmd B)
    → Keeps I m
    → Keeps I k
    → Keeps I (m >> k)
unfolding ◌>>◌
Keeps-then I m k hm hk s i = hk (m s).1 (hm s i)

pub Keeps-bind :
    {A B : Type 0} (I : Machine → Type 0) (m : Cmd A) (f : A → Cmd B) (Q : A → Type 0)
    → Gives I m Q
    → ((a : A) → Q a → Keeps I (f a))
    → Keeps I (m >>= f)
unfolding ◌>>=◌
Keeps-bind I m f Q hm hf s i = hf (m s).0 (hm s i).1 (m s).1 (hm s i).0

-- A branch is taken only where its test allows it.
pub Keeps-if :
    {A : Type 0} (I : Machine → Type 0) (b : Bool) (m k : Cmd A)
    → (b ≡ true → Keeps I m)
    → (b ≡ false → Keeps I k)
    → Keeps I (if b then m else k)
Keeps-if I true m k hm hk = hm refl
Keeps-if I false m k hm hk = hk refl

module _ (h : Host) (I : Machine → Type 0) (CanLoad CanStore : ℕ → ℕ → Type 0)
    (CanCall : ℕ → Type 0) (r : Rules h I CanLoad CanStore CanCall) where
  pub Keeps-load_word : (n a : ℕ) → CanLoad a n → Keeps I (load_word h n a)
  unfolding load_word
  Keeps-load_word n a ok s i = r.on_load (interrupt h s) a n (r.on_interrupt s i) ok

  pub Keeps-store_word : (n a v : ℕ) → CanStore a n → Keeps I (store_word h n a v)
  unfolding store_word
  Keeps-store_word n a v ok s i = r.on_store (interrupt h s) a n v (r.on_interrupt s i) ok

  pub Keeps-call : (a : ℕ) → CanCall a → Keeps I (call h a)
  unfolding call
  Keeps-call a ok s i = r.on_call (interrupt h s) a (r.on_interrupt s i) ok

  pub Keeps-copy_byte :
      (dest src i : ℕ)
      → CanLoad (add_size src i) 1
      → CanStore (add_size dest i) 1
      → Keeps I (copy_byte h dest src i)
  unfolding copy_byte ◌>>=◌
  Keeps-copy_byte dest src i from to s j =
      Keeps-store_word 1 (add_size dest i) _ to _ (Keeps-load_word 1 (add_size src i) from s j)

  pub Keeps-memcpy_loop :
      (dest src k i : ℕ)
      → ((j : ℕ) → j < i + k → CanLoad (add_size src j) 1 × CanStore (add_size dest j) 1)
      → Keeps I (memcpy_loop h dest src k i)
  unfolding memcpy_loop ◌>>◌
  Keeps-memcpy_loop dest src zero i ok s j = j
  Keeps-memcpy_loop dest src (suc k) i ok s j =
      Keeps-memcpy_loop dest src k (suc i) (λ x lt. ok x (omega arith)) _
        (Keeps-copy_byte dest src i (ok i (omega arith)).0 (ok i (omega arith)).1 s j)

  pub Keeps-memcpy :
      (dest src n : ℕ)
      → ((j : ℕ) → j < n → CanLoad (add_size src j) 1 × CanStore (add_size dest j) 1)
      → Keeps I (memcpy h dest src n)
  unfolding memcpy
  Keeps-memcpy dest src n ok = Keeps-memcpy_loop dest src n 0 (λ j lt. ok j (omega arith))
