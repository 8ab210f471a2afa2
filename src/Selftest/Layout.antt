-- ===== src/Selftest/Layout.antt =====
-- Where the enclave of the selftest lies, and the addresses that its operations may touch.
use Prim.Native.Nat.{max}
use native.Mathlib.Decide.{dec_le}
use pandora_examples.Prelude.{ℕ, ◌+◌, ◌≤◌, ◌<◌, ◌≡◌, ◌⊎◌, ◌↔◌, inl, inr, true, arith}
use pandora_examples.Prelude.Words.{u64_mod}
use pandora_examples.Machine.{Memory}
use pandora_examples.Selftest.{Env, sgx_is_outside_enclave}

-- What test_encl.lds and test_encl_bootstrap.S lay out: the enclave's range, with the buffer of
-- two pages and the unmeasured page inside it and apart.
pub record IsLayout (e : Env) : Type 0 where
  pub end_fits : e.enclave_end < u64_mod
  pub buffer_from : e.enclave_start ≤ e.encl_buffer
  pub buffer_to : e.encl_buffer + 8192 ≤ e.enclave_end
  pub unmeasured_from : e.enclave_start ≤ e.unmeasured_encl_buffer
  pub unmeasured_to : e.unmeasured_encl_buffer + 4096 ≤ e.enclave_end
  pub disjoint :
      (e.encl_buffer + 8192 ≤ e.unmeasured_encl_buffer)
      ⊎ (e.unmeasured_encl_buffer + 4096 ≤ e.encl_buffer)

abbrev pub InEnclave : Env → ℕ → Type 0
InEnclave e b = (e.enclave_start ≤ b) × (b < e.enclave_end)

-- The processor keeps the host out of the enclave's memory.
abbrev pub Respects : Env → Type 0
Respects e = (n : ℕ) (mem : Memory) (b : ℕ) → InEnclave e b → e.host n mem b ≡ mem b

-- The `n` bytes at `a` end before `2 ^ 64`, and none of them lies in the enclave.
abbrev pub BytesOutside : Env → ℕ → ℕ → Type 0
BytesOutside e a n = (a + n ≤ u64_mod) × ((b : ℕ) → a ≤ b → b < a + n → ¬ InEnclave e b)

-- The same, by the ends of the ranges.
abbrev pub Outside : Env → ℕ → ℕ → Type 0
Outside e a n = (a + n ≤ u64_mod) × ((a + n ≤ e.enclave_start) ⊎ (e.enclave_end ≤ a))

pub Outside-BytesOutside : (e : Env) (a n : ℕ) → Outside e a n → BytesOutside e a n
Outside-BytesOutside e a n o = (o.0, λ b lo hi i. omega arith)

pub BytesOutside-Outside :
    (e : Env) (a n : ℕ) → IsLayout e → 0 < n → BytesOutside e a n → Outside e a n
BytesOutside-Outside e a n l pos o = (
  o.0,
  elim (dec_le (a + n) e.enclave_start) [
    | yes below ↦ inl below
    | no above ↦ elim (dec_le e.enclave_end a) [
      | yes behind ↦ inr behind
      | no before ↦
          absurd
            (o.1 (max a e.enclave_start) (omega arith) (omega arith) (omega arith, omega arith))
    ]
  ],
)

-- The check accepts what lies outside.
pub sgx_is_outside_enclave-Outside :
    (e : Env) (a n : ℕ)
    → IsLayout e
    → a < u64_mod
    → 0 < n
    → n < u64_mod
    → sgx_is_outside_enclave e a n ≡ true
    → Outside e a n
unfolding sgx_is_outside_enclave
sgx_is_outside_enclave-Outside e a n l ha hn hm h = ground arith

pub sgx_is_outside_enclave-true :
    (e : Env) (a n : ℕ)
    → IsLayout e
    → a < u64_mod
    → 0 < n
    → n < u64_mod
    → Outside e a n
    → sgx_is_outside_enclave e a n ≡ true
unfolding sgx_is_outside_enclave
sgx_is_outside_enclave-true e a n l ha hn hm h = ground arith

-- `sgx_is_outside_enclave` accepts a buffer of at least one byte exactly when the buffer does not
-- wrap round the address space and has no byte in the enclave.
pub sgx_is_outside_enclave_iff :
    (e : Env) (a n : ℕ)
    → IsLayout e
    → a < u64_mod
    → 0 < n
    → n < u64_mod
    → (sgx_is_outside_enclave e a n ≡ true) ↔ BytesOutside e a n
sgx_is_outside_enclave_iff e a n l ha hn hm = (
  λ h. Outside-BytesOutside e a n (sgx_is_outside_enclave-Outside e a n l ha hn hm h),
  λ o. sgx_is_outside_enclave-true e a n l ha hn hm (BytesOutside-Outside e a n l hn o),
)
