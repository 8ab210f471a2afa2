-- ===== src/Selftest/Attacks.antt =====
-- What a host can do to the enclave of test_encl.c below level 4, by changing a request between two
-- loads of the same field.
use mathlib.Core.List.{head?}
use pandora_examples.Prelude.{
  ℕ, zero, suc, ◌+◌, ◌%◌, ◌^◌, ◌≤◌, ◌<◌, ◌≡◌, refl, ap, ◌∙◌, arith, ◌==◌, ltb, leb, if◌then◌else◌,
  List, [], ◌∷◌, le→leb, ==_iff, length, Option, some, not_leb,
}
use pandora_examples.Prelude.Words.{u64_mod}
use pandora_examples.Machine.{
  Memory, peek, put_bytes, bytes_at, Host, Machine, Cmd, Event, wild, ◌>>=◌, skip, interrupt, log,
  load_word, memcpy,
}
use pandora_examples.Machine.Bytes.{put_bytes-frame, bytes_at-put_bytes, low_bytes_eight}
use pandora_examples.Machine.Quiet.{QuietFrom, memcpy-quiet}
use pandora_examples.Selftest.{
  Env, checked, value_of, addr_of, call_op, encl_body, copy_from_addr, copy_from_addr_checked,
  do_encl_op_get_from_addr, op_of, run_op,
}
use pandora_examples.Selftest.Layout.{
  IsLayout, InEnclave, Respects, Outside, BytesOutside, BytesOutside-Outside,
}
use pandora_examples.Selftest.Buffer.{entered, checked-Outside, value_at}

-- The environment with another host.
abbrev pub with_host : Env → Host → Env
with_host e h = record e { host = h }

-- A host that writes 8-byte words at its first turns and then rests.
scripted : List (ℕ × ℕ) → Host
scripted [] n mem = mem
scripted ((a, v) ∷ r) zero mem = put_bytes mem a v 8
scripted ((a, v) ∷ r) (suc n) mem = scripted r n mem

-- All words of the script lie outside the enclave.
abbrev AllOutside : Env → List (ℕ × ℕ) → Type 0
AllOutside e [] = Unit
AllOutside e ((a, v) ∷ r) = Outside e a 8 × AllOutside e r

scripted-Respects :
    (e : Env) (r : List (ℕ × ℕ)) (n : ℕ) (mem : Memory) (b : ℕ)
    → AllOutside e r
    → InEnclave e b
    → scripted r n mem b ≡ mem b
unfolding scripted
scripted-Respects e [] n mem b all inside = refl
scripted-Respects e ((a, v) ∷ r) zero mem b all inside =
    put_bytes-frame 8 mem a v b (omega arith) (omega arith)
scripted-Respects e ((a, v) ∷ r) (suc n) mem b all inside =
    scripted-Respects e r n mem b all.1 inside

-- A load right after the host wrote the word gives what the host wrote.
load-scripted :
    (h : Host) (s : Machine) (a v : ℕ)
    → h s.time s.mem ≡ put_bytes s.mem a v 8
    → a + 8 ≤ u64_mod
    → v < u64_mod
    → (load_word h 8 a s).0 ≡ v
unfolding load_word interrupt
load-scripted h s a v writes fits small =
    ap (λ m. bytes_at m a 8) writes ∙ bytes_at-put_bytes 8 s.mem a v fits ∙ low_bytes_eight v small

with_host-IsLayout : (e : Env) (h : Host) → IsLayout e → IsLayout (with_host e h)
with_host-IsLayout e h l = record {
  end_fits = l.end_fits;
  buffer_from = l.buffer_from;
  buffer_to = l.buffer_to;
  unmeasured_from = l.unmeasured_from;
  unmeasured_to = l.unmeasured_to;
  disjoint = l.disjoint;
}

-- The latest event of a run.
abbrev pub last_event : Cmd (Unit {0}) → Machine → Option Event
last_event c s = head? (c s).1.trace

-- Below level 2 the enclave loads the type of a request twice. The host of this script shows it a
-- harmless type to check, and `i` to use.
abbrev double_fetch : ℕ → ℕ → Host
double_fetch rdi i = scripted ((rdi, 5) ∷ (rdi, i) ∷ [])

call_op-wild :
    (e : Env) (i op : ℕ) (s : Machine) → 9 ≤ i → last_event (call_op e i op) s ≡ some (wild i)
unfolding call_op log
call_op-wild e i op s past = ground arith

-- The part of `encl_body` behind its check.
unchecked-wild :
    (e : Env) (rdi i : ℕ) (s : Machine) (v : ℕ)
    → v ≡ 5
    → e.fix < 2
    → (load_word e.host 8 rdi s).0 ≡ i
    → 9 ≤ i
    → last_event
        (if ltb v 9
          then (if leb 2 e.fix
              then call_op e v rdi
              else (load_word e.host 8 rdi >>= λ j. call_op e j rdi))
          else skip)
        s
      ≡ some (wild i)
unfolding ◌>>=◌
unchecked-wild e rdi i s v five low second past =
    rw (five, not_leb 2 e.fix low, second) (call_op-wild e i rdi _ past)

-- Below level 2 there is, for each request outside the enclave and each index past the end of the
-- table of operations, a host that keeps off the enclave's memory and has the enclave call through
-- that index: one that changes the request's type between the check and the call.
pub double_fetch_escapes :
    (e : Env) (mem : Memory) (rdi i : ℕ)
    → IsLayout e
    → e.fix < 2
    → BytesOutside e rdi 8
    → 9 ≤ i
    → i < u64_mod
    → (h : Host) × Respects (with_host e h)
      × (last_event (encl_body (with_host e h) rdi) (entered mem) ≡ some (wild i))
unfolding encl_body ◌>>=◌ scripted load_word interrupt log
double_fetch_escapes e mem rdi i l low out past small =
    let o = BytesOutside-Outside e rdi 8 l (omega arith) out in
    let h = double_fetch rdi i in
    let s1 = (load_word h 8 rdi (entered mem)).1 in
    (
      h,
      λ n m b inside. scripted-Respects e ((rdi, 5) ∷ (rdi, i) ∷ []) n m b (o, (o, tt)) inside,
      ap (λ (c : Cmd (Unit {0})). last_event c (entered mem))
            (checked-Outside (with_host e h) 1 rdi 8 _ (with_host-IsLayout e h l) (omega arith)
              (omega arith) (omega arith) (omega arith))
          ∙ unchecked-wild (with_host e h) rdi i s1 _
              (load-scripted h (entered mem) rdi 5 refl (omega arith) (omega arith)) low
              (load-scripted h s1 rdi i refl (omega arith) small) past,
    )

-- At level 3 do_encl_op_get_from_addr loads the address twice. The host of this script shows it an
-- address outside the enclave to check, and `secret` to copy from.
abbrev swap_address : ℕ → ℕ → List (ℕ × ℕ)
swap_address op secret = (op, 3) ∷ (addr_of op, op) ∷ (addr_of op, secret) ∷ []

scripted-QuietFrom : (r : List (ℕ × ℕ)) → QuietFrom (length r) (scripted r)
unfolding scripted
scripted-QuietFrom [] n mem later = refl
scripted-QuietFrom (x ∷ r) zero mem later = absurd (omega arith)
scripted-QuietFrom ((a, v) ∷ r) (suc n) mem later = scripted-QuietFrom r n mem (omega arith)

-- The branch of the preprocessor at level 3.
level_three :
    (fix : ℕ) (above at below : Cmd (Unit {0}))
    → fix ≡ 3
    → (if leb 4 fix then above else if fix == 3 then at else below) ≡ at
level_three fix above at below three = rw (not_leb 4 fix (omega arith), (==_iff fix 3).1 three)

module _ (e : Env) (l : IsLayout e) (three : e.fix ≡ 3) (op secret : ℕ) (out : Outside e op 24)
    (inside : e.enclave_start ≤ secret) (ends : secret + 8 ≤ e.enclave_end) where
  abbrev swapped : Env
  swapped = with_host e (scripted (swap_address op secret))

  swapped-IsLayout : IsLayout swapped
  swapped-IsLayout = with_host-IsLayout e _ l

  swapped-Respects : Respects swapped
  swapped-Respects n m b i =
      let type_out : Outside e op 8 = omega arith in
      let addr_out : Outside e (addr_of op) 8 = omega arith in
      scripted-Respects e (swap_address op secret) n m b (type_out, (addr_out, (addr_out, tt))) i

  -- The last copy, when the host has had two turns.
  copied_secret :
      (s : Machine)
      → s.time ≡ 2
      → (j : ℕ) → j < 8
      → (copy_from_addr swapped op s).1.mem (value_of op + j)
        ≡ peek (put_bytes s.mem (addr_of op) secret 8) (secret + j)
  unfolding copy_from_addr ◌>>=◌ scripted load_word interrupt log
  copied_secret s two j lt =
      let h = swapped.host in
      let s3 = (load_word h 8 (addr_of op) s).1 in
      let turn = ap (λ n. h n s.mem) two in
      ap (λ src. (memcpy h (value_of op) src 8 s3).1.mem (value_of op + j))
        (load-scripted h s (addr_of op) secret turn (omega arith) (omega arith))
      ∙ (memcpy-quiet 3 h (scripted-QuietFrom (swap_address op secret)) (value_of op) secret 8 s3
            (omega arith) (omega arith)).0
          j lt
      ∙ ap (λ m. peek m (secret + j)) turn

  get-copies :
      (s : Machine)
      → s.time ≡ 1
      → (do_encl_op_get_from_addr swapped op s).1.mem
        ≡ (copy_from_addr swapped op (load_word swapped.host 8 (addr_of op) s).1).1.mem
  unfolding do_encl_op_get_from_addr copy_from_addr_checked ◌>>=◌ scripted
  get-copies s one =
      let run = λ (c : Cmd (Unit {0})). (c s).1.mem in
      let s2 = (load_word swapped.host 8 (addr_of op) s).1 in
      let copy = copy_from_addr swapped op in
      let turn = ap (λ n. swapped.host n s.mem) one in
      ap run (
        checked-Outside swapped 2 op 24 _ swapped-IsLayout (omega arith) out (omega arith)
          (omega arith)
        ∙ level_three e.fix _ _ _ three)
      ∙ ap (λ v. (checked swapped 3 v 8 copy s2).1.mem)
          (load-scripted swapped.host s (addr_of op) op turn (omega arith) (omega arith))
      ∙ ap (λ (c : Cmd (Unit {0})). (c s2).1.mem)
          (checked-Outside swapped 3 op 8 copy swapped-IsLayout (omega arith) (omega arith)
            (omega arith) (omega arith))

  -- The entry point, up to the operation.
  body-gets :
      (mem : Memory)
      → (encl_body swapped op (entered mem)).1.mem
        ≡ (do_encl_op_get_from_addr swapped op (load_word swapped.host 8 op (entered mem)).1).1.mem
  unfolding encl_body call_op run_op op_of ◌>>=◌ scripted
  body-gets mem =
      let s1 = (load_word swapped.host 8 op (entered mem)).1 in
      ap (λ (c : Cmd (Unit {0})). (c (entered mem)).1.mem)
        (checked-Outside swapped 1 op 8 _ swapped-IsLayout (omega arith) (omega arith) (omega arith)
          (omega arith))
      ∙ rw (
        load-scripted swapped.host (entered mem) op 3 refl (omega arith) (omega arith),
        le→leb 2 e.fix (omega arith),
      )

  -- Nothing that the host or the enclave did before the last copy changed the secret.
  secret_kept :
      (mem : Memory) (j : ℕ)
      → j < 8
      → put_bytes
          (load_word swapped.host 8
            (addr_of op)
            (load_word swapped.host 8 op (entered mem)).1).1.mem
          (addr_of op)
          secret
          8
          (secret + j)
        ≡ mem (secret + j)
  unfolding scripted load_word interrupt log
  secret_kept mem j lt =
      let h = swapped.host in
      let within : InEnclave e (secret + j) = (omega arith, omega arith) in
      swapped-Respects 2 (h 1 (h 0 mem)) (secret + j) within
      ∙ swapped-Respects 1 (h 0 mem) (secret + j) within
      ∙ swapped-Respects 0 mem (secret + j) within

  body-leaks :
      (mem : Memory) (j : ℕ)
      → j < 8
      → (encl_body swapped op (entered mem)).1.mem (value_of op + j) ≡ peek mem (secret + j)
  unfolding load_word interrupt log
  body-leaks mem j lt =
      let s1 = (load_word swapped.host 8 op (entered mem)).1 in
      let s2 = (load_word swapped.host 8 (addr_of op) s1).1 in
      ap (λ m. m (value_of op + j)) (body-gets mem ∙ get-copies s1 refl)
      ∙ copied_secret s2 refl j lt
      ∙ ap (λ (x : ℕ). x % 2 ^ 8) (secret_kept mem j lt)

-- At level 3 there is, for each request outside the enclave and each word of the enclave's memory,
-- a host that keeps off the enclave's memory and ends up with that word in its request: one that
-- changes the request's address between the check and the copy.
pub toctou_leaks :
    (e : Env) (mem : Memory) (op secret : ℕ)
    → IsLayout e
    → e.fix ≡ 3
    → BytesOutside e op 24
    → e.enclave_start ≤ secret
    → secret + 8 ≤ e.enclave_end
    → (h : Host) × Respects (with_host e h)
      × ((j : ℕ)
          → j < 8
          → (encl_body (with_host e h) op (entered mem)).1.mem (op + 8 + j) ≡ peek mem (secret + j))
toctou_leaks e mem op secret l three out inside ends =
    let o = BytesOutside-Outside e op 24 l (omega arith) out in
    let env = swapped e l three op secret o inside ends in
    (
      env.host,
      swapped-Respects e l three op secret o inside ends,
      λ j lt.
          ap (λ a. (encl_body env op (entered mem)).1.mem a) (value_at op j (omega arith))
          ∙ body-leaks e l three op secret o inside ends mem j lt,
    )
