-- ===== src/Selftest/Buffer.antt =====
-- The enclave's buffer through the entry point of test_encl.c, at every sanitisation level: what a
-- request of type ENCL_OP_PUT_TO_BUFFER stores, one of type ENCL_OP_GET_FROM_BUFFER gives back.
use pandora_examples.Prelude.{
  ℕ, ◌+◌, ◌%◌, ◌^◌, ◌≤◌, ◌<◌, ◌≡◌, ◌⊎◌, inl, inr, refl, sym, ap, ◌∙◌, arith, [], leb, if◌then◌else◌,
  Bool-cases, lt→ltb, ltb,
}
use pandora_examples.Prelude.Words.{u64_mod}
use pandora_examples.Machine.{Memory, peek, Machine, Cmd, skip, ◌>>=◌, load_word, memcpy, bytes_at}
use pandora_examples.Machine.Bytes.{bytes_at-congr}
use pandora_examples.Machine.Quiet.{QuietFrom, Apart, load_word-quiet, memcpy-quiet}
use pandora_examples.Selftest.{
  Env, checked, value_of, do_encl_op_put_to_buf, do_encl_op_get_from_buf, run_op, op_of, call_op,
  encl_body,
}
use pandora_examples.Selftest.Layout.{
  IsLayout, Outside, sgx_is_outside_enclave-true, BytesOutside, BytesOutside-Outside,
}

-- The machine at the start of a call of the enclave.
abbrev pub entered : Memory → Machine
entered mem = record { mem = mem; time = 0; trace = [] }

-- The memory that a call of the enclave with the request at `rdi` leaves.
abbrev pub after : Env → ℕ → Memory → Memory
after e rdi mem = (encl_body e rdi (entered mem)).1.mem

-- A check of what lies outside is passed, at each level.
pub checked-Outside :
    (e : Env) (level p n : ℕ) (rest : Cmd (Unit {0}))
    → IsLayout e
    → 0 < n
    → Outside e p n
    → p < u64_mod
    → n < u64_mod
    → checked e level p n rest ≡ rest
unfolding checked
checked-Outside e level p n rest l pos out hp hn =
    rw (sgx_is_outside_enclave-true e p n l hp pos hn out)
      (elim (Bool-cases (leb level e.fix)) [ inl on ↦ rw on | inr off ↦ rw off ])

module _ (e : Env) (l : IsLayout e) (mem : Memory) (op : ℕ) (out : Outside e op 16)
    (quiet : QuietFrom 0 e.host) where
  call_op-known :
      (i t : ℕ) (s : Machine) → i ≡ t → t < 9 → call_op e i op s ≡ run_op e (op_of t) op s
  unfolding call_op
  call_op-known i t s same known = rw (same, lt→ltb t 9 known)

  -- The last part of `encl_body`, where the type has been loaded as `v`.
  dispatched :
      (v t : ℕ) (s : Machine)
      → v ≡ t
      → t < 9
      → bytes_at s.mem op 8 ≡ t
      → (s' : Machine) × (s'.mem ≡ s.mem)
        × (((if leb 2 e.fix
                then call_op e v op
                else (load_word e.host 8 op >>= λ i. call_op e i op))
              s).1.mem
            ≡ (run_op e (op_of t) op s').1.mem)
  unfolding ◌>>=◌
  dispatched v t s same known type = elim (Bool-cases (leb 2 e.fix)) [
    | inl on ↦ (s, refl, rw on (ap (λ r. r.1.mem) (call_op-known v t s same known)))
    | inr off ↦
        let r = load_word-quiet 0 e.host quiet 8 op s (omega arith) in
        (
          (load_word e.host 8 op s).1,
          r.1,
          rw off (ap (λ r. r.1.mem) (call_op-known _ t _ (r.0 ∙ type) known)),
        )
  ]

  known_type :
      (v : ℕ) (c : Cmd (Unit {0})) (s : Machine)
      → v < 9
      → ((if ltb v 9 then c else skip) s).1.mem ≡ (c s).1.mem
  known_type v c s lt = rw (lt→ltb v 9 lt)

  -- A call whose request has the type `t` runs that operation on the memory as it is.
  dispatch :
      (t : ℕ)
      → bytes_at mem op 8 ≡ t
      → t < 9
      → (s : Machine) × (s.mem ≡ mem) × (after e op mem ≡ (run_op e (op_of t) op s).1.mem)
  unfolding encl_body ◌>>=◌
  dispatch t type known =
      let r = load_word-quiet 0 e.host quiet 8 op (entered mem) (omega arith) in
      let d =
        dispatched (load_word e.host 8 op (entered mem)).0 t (load_word e.host 8 op (entered mem)).1
          (r.0 ∙ type) known (ap (λ m. bytes_at m op 8) r.1 ∙ type) in
      (
        d.0,
        d.1 ∙ r.1,
        ap (λ (c : Cmd (Unit {0})). (c (entered mem)).1.mem)
              (checked-Outside e 1 op 8 _ l (omega arith) (omega arith) (omega arith) (omega arith))
            ∙ known_type (load_word e.host 8 op (entered mem)).0 _ _ (rw (r.0, type) known)
            ∙ d.2,
      )

-- `next` is `mem` but for the eight bytes at `dest`, which are those at `src`.
abbrev pub Copied : (dest src : ℕ) (mem next : Memory) → Type 0
Copied dest src mem next =
    ((j : ℕ) → j < 8 → next (dest + j) ≡ peek mem (src + j))
    × ((b : ℕ) → (b < dest) ⊎ (dest + 8 ≤ b) → next b ≡ mem b)

module _ (e : Env) (l : IsLayout e) (quiet : QuietFrom 0 e.host) (mem : Memory) (op : ℕ)
    (out : Outside e op 16) where
  -- An operation that is a copy of eight bytes, through the entry point.
  run-Copied :
      (t dest src : ℕ)
      → bytes_at mem op 8 ≡ t
      → t < 9
      → run_op e (op_of t) op ≡ memcpy e.host dest src 8
      → Apart dest src 8
      → Copied dest src mem (after e op mem)
  run-Copied t dest src type known is apart =
      let d = dispatch e l mem op out quiet t type known in
      let c = memcpy-quiet 0 e.host quiet dest src 8 d.0 (omega arith) apart in
      let same = d.2 ∙ ap (λ (k : Cmd (Unit {0})). (k d.0).1.mem) is in
      (
        λ j lt. ap (λ m. m (dest + j)) same ∙ c.0 j lt ∙ ap (λ m. peek m (src + j)) d.1,
        λ b far. ap (λ m. m b) same ∙ c.1 b far ∙ ap (λ m. m b) d.1,
      )

  -- ENCL_OP_PUT_TO_BUFFER copies the request's value to the buffer, and writes nowhere else.
  pub put-Copied : bytes_at mem op 8 ≡ 0 → Copied e.encl_buffer (value_of op) mem (after e op mem)
  unfolding run_op op_of do_encl_op_put_to_buf
  put-Copied type =
      run-Copied 0 e.encl_buffer (value_of op) type (omega arith)
        (checked-Outside e 2 op 16 _ l (omega arith) out (omega arith) (omega arith)) (omega arith)

  -- ENCL_OP_GET_FROM_BUFFER copies the buffer to the request's value, and writes nowhere else.
  pub get-Copied : bytes_at mem op 8 ≡ 1 → Copied (value_of op) e.encl_buffer mem (after e op mem)
  unfolding run_op op_of do_encl_op_get_from_buf
  get-Copied type =
      run-Copied 1 (value_of op) e.encl_buffer type (omega arith)
        (checked-Outside e 2 op 16 _ l (omega arith) out (omega arith) (omega arith)) (omega arith)

pub value_at : (op j : ℕ) → op + 16 ≤ u64_mod → op + 8 + j ≡ value_of op + j
value_at op j fits = omega arith

low_low : (x : ℕ) → ((x % 2 ^ 8) % 2 ^ 8) % 2 ^ 8 ≡ x % 2 ^ 8
low_low x = omega arith

-- A request of sixteen bytes that has the given type and no byte in the enclave.
abbrev pub IsRequest : Env → Memory → ℕ → ℕ → Type 0
IsRequest e mem op type = BytesOutside e op 16 × (bytes_at mem op 8 ≡ type)

-- At every level, and with a host that does not interfere: a request that puts its value in the
-- buffer, followed by one that gets the buffer, leaves the first one's value in the second.
pub put-get :
    (e : Env) (mem : Memory) (p q : ℕ)
    → IsLayout e
    → QuietFrom 0 e.host
    → IsRequest e mem p 0
    → IsRequest e mem q 1
    → (j : ℕ) → j < 8
    → peek (after e q (after e p mem)) (q + 8 + j) ≡ peek mem (p + 8 + j)
put-get e mem p q l quiet put get j lt =
    let from = BytesOutside-Outside e p 16 l (omega arith) put.0 in
    let to = BytesOutside-Outside e q 16 l (omega arith) get.0 in
    let first = put-Copied e l quiet mem p from put.1 in
    let kept =
      bytes_at-congr 8 (after e p mem) mem q (omega arith) (λ b lo hi. first.1 b (omega arith)) in
    let second = get-Copied e l quiet (after e p mem) q to (kept ∙ get.1) in
    let low = λ (x : ℕ). x % 2 ^ 8 in
    ap (λ (a : ℕ). peek (after e q (after e p mem)) a) (value_at q j (omega arith))
    ∙ ap low (second.0 j lt)
    ∙ ap (λ (x : ℕ). low (low x)) (first.0 j lt)
    ∙ low_low (mem (value_of p + j))
    ∙ sym (ap (λ (a : ℕ). peek mem a) (value_at p j (omega arith)))
