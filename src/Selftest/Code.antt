-- ===== src/Selftest/Code.antt =====
-- What do_encl_op_call_unmeasured of test_encl.c runs: code that it wrote itself.
use pandora_examples.Prelude.{
  ℕ, zero, suc, ◌+◌, ◌%◌, ◌^◌, ◌≤◌, ◌<◌, ◌≡◌, refl, ap, sym, subst, ◌∙◌, arith, ◌==◌, leb,
  if◌then◌else◌, List, ◌∷◌,
}
use pandora_examples.Prelude.Words.{add_size}
use pandora_examples.Machine.{
  peek, poke, put_bytes, Machine, Event, exec, ◌>>◌, store_word, call, interrupt, log,
}
use pandora_examples.Selftest.{Env, fill_unmeasured, sanitised_length, do_encl_op_call_unmeasured}
use pandora_examples.Selftest.Layout.{IsLayout, InEnclave, Respects}

length-eq : (e : Env) → 2 ≤ e.fix → sanitised_length e ≡ (if leb 4 e.fix then 20 else 10)
unfolding sanitised_length
length-eq e on = ground arith

last_event :
    (e : Env) (s : Machine)
    → (t : List Event) × ((do_encl_op_call_unmeasured e s).1.trace
        ≡ exec e.unmeasured_encl_buffer ∷ t)
unfolding do_encl_op_call_unmeasured ◌>>◌ call log
last_event e s = (_, refl)

module _ (e : Env) (l : IsLayout e) (honest : Respects e) where
  open e use {unmeasured_encl_buffer as code, host}

  -- A byte of the enclave after a store of one byte.
  store_byte-at :
      (s : Machine) (a v b : ℕ)
      → InEnclave e b
      → (store_word host 1 a v s).1.mem b ≡ (if a == b then v % 2 ^ 8 else s.mem b)
  unfolding store_word put_bytes poke interrupt log
  store_byte-at s a v b inside = ground (arith, honest s.time s.mem b inside)

  -- The first `i` bytes are nops, and from the first round on a return stands at `len`.
  record Filled (len i : ℕ) (s : Machine) : Type 0 where
    nops : (j : ℕ) → j < i → peek s.mem (code + j) ≡ 0x90
    ret : 0 < i → peek s.mem (code + len) ≡ 0xc3

  Filled-round :
      (len i : ℕ) (s : Machine)
      → len ≤ 20
      → i < len
      → Filled len i s
      → Filled len
          (suc i)
          ((store_word host 1 (add_size code i) 0x90 >> store_word host 1 (add_size code len) 0xc3)
            s).1
  unfolding ◌>>◌
  Filled-round len i s short lt f =
      let first = (store_word host 1 (add_size code i) 0x90 s).1 in
      record {
        nops = λ j le. ground (
          arith,
          store_byte-at first (add_size code len) 0xc3 (code + j) (omega arith),
          store_byte-at s (add_size code i) 0x90 (code + j) (omega arith),
          f.nops j,
        );
        ret = λ _.
            ground (arith, store_byte-at first (add_size code len) 0xc3 (code + len) (omega arith));
      }

  fill-Filled :
      (len k i : ℕ) (s : Machine)
      → len ≤ 20
      → i + k ≡ len
      → Filled len i s
      → Filled len len (fill_unmeasured e len k i s).1
  unfolding fill_unmeasured ◌>>◌
  fill-Filled len zero i s short total f = subst (λ n. Filled len n s) (omega arith) f
  fill-Filled len (suc k) i s short total f =
      fill-Filled len k (suc i) _ short (omega arith) (Filled-round len i s short (omega arith) f)

  Filled-call :
      (len : ℕ) (s : Machine) → len ≤ 20 → Filled len len s → Filled len len (call host code s).1
  unfolding call interrupt log
  Filled-call len s short f = record {
    nops = λ j lt.
        ap (λ (x : ℕ). x % 2 ^ 8) (honest s.time s.mem (code + j) (omega arith, omega arith))
        ∙ f.nops j lt;
    ret = λ pos.
        ap (λ (x : ℕ). x % 2 ^ 8) (honest s.time s.mem (code + len) (omega arith, omega arith))
        ∙ f.ret pos;
  }

  sanitised_length-bounds : 2 ≤ e.fix → (0 < sanitised_length e) × (sanitised_length e ≤ 20)
  unfolding sanitised_length
  sanitised_length-bounds on = ground arith

  -- The memory that the call runs from.
  called-Filled :
      (s : Machine)
      → 2 ≤ e.fix
      → Filled (sanitised_length e) (sanitised_length e) (do_encl_op_call_unmeasured e s).1
  unfolding do_encl_op_call_unmeasured ◌>>◌
  called-Filled s on =
      let b = sanitised_length-bounds on in
      Filled-call _ _ b.1 (
        fill-Filled _ (sanitised_length e) 0 s b.1 (omega arith)
          (record { nops = λ j lt. absurd (omega arith); ret = λ pos. absurd (omega arith) }))

-- From level 2 on, whatever the unmeasured buffer held and whatever the host does, the operation
-- that calls the buffer ends with that call, and what it calls is code that it wrote: the sanitised
-- number of nop instructions (10 at levels 2 and 3, 20 above), then a return.
pub call_unmeasured-runs_nops :
    (e : Env) (s : Machine)
    → IsLayout e
    → Respects e
    → 2 ≤ e.fix
    → let s' = (do_encl_op_call_unmeasured e s).1 in
      let len : ℕ = if leb 4 e.fix then 20 else 10 in
      ((t : List Event) × (s'.trace ≡ exec e.unmeasured_encl_buffer ∷ t))
      × ((j : ℕ) → j < len → peek s'.mem (e.unmeasured_encl_buffer + j) ≡ 0x90)
      × (peek s'.mem (e.unmeasured_encl_buffer + len) ≡ 0xc3)
call_unmeasured-runs_nops e s l honest on =
    let f = called-Filled e l honest s on in
    let b = sanitised_length-bounds e l honest on in
    let n = length-eq e on in
    (
      last_event e s,
      λ j lt. f.nops j (omega arith),
      ap (λ k. peek (do_encl_op_call_unmeasured e s).1.mem (e.unmeasured_encl_buffer + k)) (sym n)
          ∙ f.ret b.0,
    )
