-- ===== src/Selftest/Isolation.antt =====
-- What the enclave may touch, as a policy, and the rules by which a run stays within it, whatever
-- the request and whatever the host does meanwhile.
pub mod Body
pub mod Dispatch
pub mod Integrity
pub mod Ops
pub mod Table
pub mod Unmeasured
use pandora_examples.Prelude.{
  ℕ, suc, ◌+◌, ◌-◌, ◌*◌, ◌^◌, ◌≤◌, ◌<◌, ◌≡◌, ◌⊎◌, inl, inr, Bool, true, false, not, ◌&&◌, List, ◌∷◌,
  All, arith, leb, ltb, ◌==◌, leb→le, if◌then◌else◌, refl, ◌∙◌,
}
use pandora_examples.Prelude.Words.{add_size, u64_mod}
use pandora_examples.Machine.{
  Memory, Event, load, store, exec, wild, Machine, Cmd, skip, interrupt, log, put_bytes, load_word,
  memcpy, ◌>>=◌, bytes_at,
}
use pandora_examples.Machine.Bytes.{put_bytes-frame, bytes_at-lt}
use pandora_examples.Machine.Hoare.{
  Rules, Keeps, Gives, Keeps-skip, Keeps-then, Keeps-bind, Keeps-if, Keeps-load_word, Keeps-memcpy,
}
use pandora_examples.Selftest.{Env, sgx_is_outside_enclave, checked}
use pandora_examples.Selftest.Layout.{
  IsLayout, InEnclave, Respects, Outside, sgx_is_outside_enclave-Outside,
}

-- The first word of the buffer, and the 21 bytes that do_encl_op_call_unmeasured writes.
abbrev pub InScratch : Env → ℕ → ℕ → Type 0
InScratch e a n =
    ((e.encl_buffer ≤ a) × (a + n ≤ e.encl_buffer + 8))
    ⊎ ((e.unmeasured_encl_buffer ≤ a) × (a + n ≤ e.unmeasured_encl_buffer + 21))

-- The `n` bytes at `a` lie outside the enclave, or in a scratch area.
abbrev pub Clear : Env → ℕ → ℕ → Type 0
Clear e a n = Outside e a n ⊎ InScratch e a n

-- Code that the enclave may call.
abbrev pub OwnCode : Env → ℕ → Type 0
OwnCode e a = (a ≡ e.do_encl_op_nop_address) ⊎ (a ≡ e.unmeasured_encl_buffer)

-- What an enclave may load and call. What is `Clear` may be loaded, and its own code called, under
-- every policy.
pub record Policy (e : Env) : Type 1 where
  pub CanLoad : ℕ → ℕ → Type 0
  pub CanCall : ℕ → Type 0
  pub on_clear : (a n : ℕ) → Clear e a n → CanLoad a n
  pub on_own : (a : ℕ) → OwnCode e a → CanCall a

abbrev pub Allowed : (e : Env) → Policy e → Event → Type 0
Allowed e p (load a n) = p.CanLoad a n
Allowed e p (store a n) = Clear e a n
Allowed e p (exec a) = p.CanCall a
Allowed e p (wild i) = ⊥

-- What holds throughout a run that started with the memory `before`.
pub record Follows (e : Env) (p : Policy e) (before : Memory) (s : Machine) : Type 0 where
  pub confined : All (Allowed e p) s.trace
  pub kept : (b : ℕ) → InEnclave e b → (InScratch e b 1 → ⊥) → s.mem b ≡ before b

-- Nothing of the enclave may be loaded but the scratch areas.
abbrev pub isolation : (e : Env) → Policy e
isolation e = record {
  CanLoad = Clear e;
  CanCall = OwnCode e;
  on_clear = λ a n ok. ok;
  on_own = λ a own. own;
}

-- Everything may be loaded, and code outside the enclave may be called, and the buffer of data.
abbrev pub integrity : (e : Env) → Policy e
integrity e = record {
  CanLoad = λ a n. Unit {0};
  CanCall = λ a. OwnCode e a ⊎ ((a ≡ e.non_exec_data_buffer) ⊎ Outside e a 8);
  on_clear = λ a n ok. tt;
  on_own = λ a own. inl own;
}

Clear-apart :
    (e : Env) (a n b : ℕ)
    → Clear e a n
    → InEnclave e b
    → (InScratch e b 1 → ⊥)
    → (b < a) ⊎ (a + n ≤ b)
Clear-apart e a n b ok inside out = grind arith

module _ (e : Env) (p : Policy e) (before : Memory) (l : IsLayout e) (honest : Respects e) where
  -- A store that is `Clear` changes no other byte of the enclave.
  Clear-frame :
      (mem : Memory) (a n v b : ℕ)
      → Clear e a n
      → InEnclave e b
      → (InScratch e b 1 → ⊥)
      → put_bytes mem a v n b ≡ mem b
  Clear-frame mem a n v b ok inside out =
      put_bytes-frame n mem a v b (omega arith) (Clear-apart e a n b ok inside out)

  pub rules : Rules e.host (Follows e p before) p.CanLoad (Clear e) p.CanCall
  unfolding interrupt log
  rules = record {
    on_interrupt = λ s i. record {
      confined = i.confined;
      kept = λ b inside out. honest s.time s.mem b inside ∙ i.kept b inside out;
    };
    on_load = λ s a n i ok. record { confined = (ok, i.confined); kept = i.kept };
    on_store = λ s a n v i ok. record {
      confined = (ok, i.confined);
      kept = λ b inside out. Clear-frame s.mem a n v b ok inside out ∙ i.kept b inside out;
    };
    on_call = λ s a i ok. record { confined = (ok, i.confined); kept = i.kept };
  }

  pub Clear-byte : (a n j : ℕ) → Clear e a n → j < n → Clear e (add_size a j) 1
  Clear-byte a n j ok lt = grind arith

  pub Outside-field :
      (op m k n : ℕ) → Outside e op m → 0 < n → k + n ≤ m → Outside e (add_size op k) n
  Outside-field op m k n out pos fits = grind arith

  -- A copy between two ranges that are `Clear` keeps the invariant.
  pub Follows-memcpy :
      (dest src n : ℕ)
      → Clear e dest n
      → Clear e src n
      → Keeps (Follows e p before) (memcpy e.host dest src n)
  Follows-memcpy dest src n to from =
      Keeps-memcpy e.host _ _ _ _ rules dest src n
        λ j lt. (p.on_clear _ 1 (Clear-byte src n j from lt), Clear-byte dest n j to lt)

  -- The rest of a checked function runs only behind a check that passed.
  pub Follows-checked :
      (level a n : ℕ) (rest : Cmd (Unit {0}))
      → level ≤ e.fix
      → a < u64_mod
      → 0 < n
      → n < u64_mod
      → (Outside e a n → Keeps (Follows e p before) rest)
      → Keeps (Follows e p before) (checked e level a n rest)
  unfolding checked
  Follows-checked level a n rest on hp hn hm k =
      Keeps-if _ (leb level e.fix && not (sgx_is_outside_enclave e a n)) skip rest
        (λ _. Keeps-skip _)
        λ passed. k (sgx_is_outside_enclave-Outside e a n l hp hn hm (ground arith))
