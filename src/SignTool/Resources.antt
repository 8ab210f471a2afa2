-- ===== src/SignTool/Resources.antt =====
-- check_crypto_errors empties OpenSSL's queue, pem_passwd_cb hands a password out once, and the
-- context of the quotients leaks nothing.
use pandora_examples.Prelude.{
  ℕ, zero, suc, ◌+◌, ◌≤◌, ◌<◌, ◌≡◌, ◌≢◌, refl, ap, sym, ◌∙◌, arith, Bool, true, false, Bool-cases,
  inl, inr, not, List, [], ◌∷◌, ◌++◌, Option, none, some, not_leb, ◌==◌, if◌then◌else◌, length,
  take, replicate, All, length-take, length-append, length-replicate, fun_ext, ◌⊎◌,
}
use pandora_examples.LibC.{Bytes}
use pandora_examples.SignTool.{ok, undefined}
use pandora_examples.SignTool.Library.{
  Message, ErrorQueue, errors_loop, check_crypto_errors, strncpy, strlen, pem_passwd_cb, Q1q2Ctx,
  Heap, mark, free_q1q2_ctx, complete, with_objects, alloc_q1q2_ctx,
}

-- A queue that holds finitely many errors: `size` of them. Its code is 0 only where it is empty, and
-- taking one leaves one less.
pub record Finite {Queue : Type 0} (q : ErrorQueue Queue) (size : Queue → ℕ) : Type 0 where
  pub empty : (errors : Queue) → q.peek_error errors ≡ 0 → size errors ≡ 0
  pub filled : (errors : Queue) → size errors ≡ 0 → q.peek_error errors ≡ 0
  pub taken :
      (errors : Queue) → size errors ≢ 0 → suc (size (q.get_error_line errors).1) ≡ size errors

if_same : (x : Bool) (b : Bool) → (if b then x else x) ≡ x
if_same x true = refl
if_same x false = refl

not_zero : (n : ℕ) → n ≢ 0 → (n == 0) ≡ false
not_zero n h = ground arith

module _ {Queue : Type 0} (q : ErrorQueue Queue) (size : Queue → ℕ) (f : Finite q size) where
  -- How the loop ends.
  record Drained (had_errors : Bool) (errors : Queue) (count : ℕ) (r : Bool × Queue × List Message)
      : Type 0 where
    emptied : size r.1 ≡ 0
    printed_all : length r.2 ≡ count + size errors
    noticed : r.0 ≡ (if size errors == 0 then had_errors else true)

  loop-Drained :
      (k : ℕ) (had_errors : Bool) (errors : Queue) (printed : List Message)
      → size errors < k
      → (r : Bool × Queue × List Message) × (errors_loop q k had_errors errors printed ≡ ok r)
        × Drained had_errors errors (length printed) r
  unfolding errors_loop
  loop-Drained zero had errors printed lt = absurd (omega arith)
  loop-Drained (suc k) had errors printed lt = elim (Bool-cases (q.peek_error errors == 0)) [
    | inl done ↦
        let none_left = f.empty errors (ground arith) in
        (
          (had, errors, printed),
          rw done refl,
          record { emptied = none_left; printed_all = omega arith; noticed = rw none_left refl },
        )
    | inr more ↦
        let some_left : size errors ≢ 0 = λ z. let zero_code = f.filled errors z in ground arith in
        let one = f.taken errors some_left in
        let (r, is, d) =
          loop-Drained k true (q.get_error_line errors).1 ((q.get_error_line errors).0 ∷ printed)
            (omega arith) in
        (
          r,
          rw more is,
          record {
            emptied = d.emptied;
            printed_all = d.printed_all ∙ omega arith;
            noticed = d.noticed ∙ if_same true _ ∙ sym (rw (not_zero (size errors) some_left) refl);
          },
        )
  ]

  -- For a queue that holds finitely many errors, check_crypto_errors ends: more rounds than there are
  -- errors are enough. It leaves the queue without an error, has printed a line for each, and answers
  -- true exactly where there was one.
  pub check_crypto_errors-drains :
      (k : ℕ) (errors : Queue)
      → size errors < k
      → (r : Bool × Queue × List Message) × (check_crypto_errors q k errors ≡ ok r)
        × (q.peek_error r.1 ≡ 0)
        × (length r.2 ≡ size errors)
        × (r.0 ≡ not (size errors == 0))
  unfolding check_crypto_errors
  check_crypto_errors-drains k errors lt =
      let (r, is, d) = loop-Drained k false errors [] lt in
      (
        r,
        is,
        f.filled r.1 d.emptied,
        d.printed_all ∙ omega arith,
        d.noticed ∙ if_not (size errors == 0),
      )
    where
      if_not : (b : Bool) → (if b then false else true) ≡ not b
      if_not true = refl
      if_not false = refl

-- A text without its zero: the bytes of a password.
abbrev pub IsText : Bytes → Type 0
IsText s = All (λ b. b ≢ 0) s

strlen-text :
    (s : Bytes) (n m : ℕ)
    → IsText s
    → length s < n
    → 0 < m
    → strlen (take n (s ++ replicate m 0)) ≡ ok (length s)
unfolding strlen
strlen-text s zero m text lt pos = absurd (omega arith)
strlen-text [] (suc n) zero text lt pos = absurd (omega arith)
strlen-text [] (suc n) (suc m) text lt pos = refl
strlen-text (b ∷ s) (suc n) m text lt pos =
    rw (not_zero b text.0, strlen-text s n m text.1 (omega arith) pos) refl

strlen-cut : (s t : Bytes) (n : ℕ) → IsText s → n ≤ length s → strlen (take n (s ++ t)) ≡ undefined
unfolding strlen
strlen-cut s t zero text le = refl
strlen-cut [] t (suc n) text le = absurd (omega arith)
strlen-cut (b ∷ s) t (suc n) text le =
    rw (not_zero b text.0, strlen-cut s t n text.1 (omega arith)) refl

take-take : (s t : Bytes) (n : ℕ) → length s ≤ n → take (length s) (take n (s ++ t)) ≡ s
take-take [] t n le = refl
take-take (b ∷ s) t zero le = absurd (omega arith)
take-take (b ∷ s) t (suc n) le = ap (λ l. b ∷ l) (take-take s t n (omega arith))

length-strncpy : (s : Bytes) (size : ℕ) → length (strncpy s size) ≡ size
unfolding strncpy
length-strncpy s size = omega (
  arith,
  length-take size (s ++ replicate size 0),
  length-append s (replicate size 0),
  length-replicate {A = ℕ} size 0,
)

-- The password is handed out once: where it is shorter than the buffer, the callback returns its length
-- and the buffer begins with it, and the next call returns -1.
pub pem_passwd_cb-once :
    (s : Bytes) (size : ℕ)
    → IsText s
    → length s < size
    → (buf : Bytes) × (pem_passwd_cb (some s) size ≡ ok (some (length s, buf), none))
      × (take (length s) buf ≡ s)
      × (length buf ≡ size)
      × (pem_passwd_cb none size ≡ ok (none, none))
unfolding pem_passwd_cb strncpy
pem_passwd_cb-once s size text lt = (
  strncpy s size,
  rw (strlen-text s size size text lt (omega arith), not_leb size (length s) lt) refl,
  take-take s (replicate size 0) size (omega arith),
  length-strncpy s size,
  refl,
)

-- A password that fills the buffer leaves no zero in it, and strlen reads on behind its end.
pub pem_passwd_cb-long :
    (s : Bytes) (size : ℕ) → IsText s → size ≤ length s → pem_passwd_cb (some s) size ≡ undefined
unfolding pem_passwd_cb strncpy
pem_passwd_cb-long s size text le = rw (strlen-cut s (replicate size 0) size text le) refl

-- The addresses of a context are those of new objects.
abbrev pub Fresh : Option ℕ → Heap → Type 0
Fresh p heap = (x : ℕ) → p ≡ some x → heap x ≡ false

-- All pointers of a list marked, the last first.
marks : Bool → List (Option ℕ) → Heap → Heap
marks live [] heap = heap
marks live (p ∷ ps) heap = mark live p (marks live ps heap)

-- A pointer is to an address, or not.
mark-cases :
    (p : Option ℕ) (x : ℕ)
    → ((p ≡ some x) × ((live : Bool) (k : Heap) → mark live p k x ≡ live))
      ⊎ ((live : Bool) (k : Heap) → mark live p k x ≡ k x)
unfolding mark
mark-cases none x = inr (λ live k. refl)
mark-cases (some p) x = elim (Bool-cases (x == p)) [
  | inl same ↦ inl (ap some {x = p} (ground arith), λ live k. rw same refl)
  | inr differ ↦ inr (λ live k. rw differ refl)
]

mark-swap :
    (live : Bool) (p q : Option ℕ) (heap : Heap)
    → mark live p (mark live q heap) ≡ mark live q (mark live p heap)
mark-swap live p q heap = fun_ext λ x. elim (mark-cases p x) [
  | inl at_p ↦
      at_p.1 live (mark live q heap)
      ∙ sym (elim (mark-cases q x) [
        | inl at_q ↦ at_q.1 live (mark live p heap)
        | inr off_q ↦ off_q live (mark live p heap) ∙ at_p.1 live heap
      ])
  | inr off_p ↦
      off_p live (mark live q heap)
      ∙ sym (elim (mark-cases q x) [
        | inl at_q ↦ at_q.1 live (mark live p heap) ∙ sym (at_q.1 live heap)
        | inr off_q ↦ off_q live (mark live p heap) ∙ off_p live heap ∙ sym (off_q live heap)
      ])
]

marks-cases :
    (ps : List (Option ℕ)) (heap : Heap) (x : ℕ)
    → All (λ p. Fresh p heap) ps
    → ((heap x ≡ false) × ((live : Bool) (k : Heap) → marks live ps k x ≡ live))
      ⊎ ((live : Bool) (k : Heap) → marks live ps k x ≡ k x)
unfolding marks
marks-cases [] heap x fresh = inr (λ live k. refl)
marks-cases (p ∷ ps) heap x fresh = elim (mark-cases p x) [
  | inl same ↦ inl (fresh.0 x same.0, λ live k. same.1 live (marks live ps k))
  | inr differ ↦ elim (marks-cases ps heap x fresh.1) [
    | inl here ↦ inl (here.0, λ live k. differ live (marks live ps k) ∙ here.1 live k)
    | inr none_here ↦ inr (λ live k. differ live (marks live ps k) ∙ none_here live k)
  ]
]

marks-balanced :
    (ps : List (Option ℕ)) (heap : Heap) (x : ℕ)
    → All (λ p. Fresh p heap) ps
    → marks false ps (marks true ps heap) x ≡ heap x
marks-balanced ps heap x fresh = elim (marks-cases ps heap x fresh) [
  | inl here ↦ here.1 false (marks true ps heap) ∙ sym here.0
  | inr none_here ↦ none_here false (marks true ps heap) ∙ none_here true heap
]

free-with_objects :
    (ctx : Q1q2Ctx) (heap : Heap) (x : ℕ)
    → All (λ p. Fresh p heap) (ctx.q2 ∷ ctx.qr ∷ ctx.q1 ∷ ctx.s ∷ ctx.m ∷ ctx.bn_ctx ∷ [])
    → free_q1q2_ctx ctx (with_objects ctx heap) x ≡ heap x
unfolding free_q1q2_ctx with_objects marks
free-with_objects ctx heap x fresh =
    let pointers = ctx.q2 ∷ ctx.qr ∷ ctx.q1 ∷ ctx.s ∷ ctx.m ∷ ctx.bn_ctx ∷ [] in
    ap
      (λ (h : Heap).
        marks false pointers (mark true ctx.q2 (mark true ctx.qr (mark true ctx.q1 h))) x)
      (mark-swap true ctx.m ctx.s (mark true ctx.bn_ctx heap))
    ∙ marks-balanced pointers heap x fresh

-- No object is leaked: where one of the six allocations fails, the heap is as before, and where none
-- does, freeing the context gives back the heap as it was. The pointers are those of new objects.
pub alloc_q1q2_ctx-balanced :
    (ctx : Q1q2Ctx) (heap : Heap) (x : ℕ)
    → All (λ p. Fresh p heap) (ctx.q2 ∷ ctx.qr ∷ ctx.q1 ∷ ctx.s ∷ ctx.m ∷ ctx.bn_ctx ∷ [])
    → (if (alloc_q1q2_ctx ctx heap).0
          then free_q1q2_ctx ctx (alloc_q1q2_ctx ctx heap).1
          else (alloc_q1q2_ctx ctx heap).1)
        x
      ≡ heap x
unfolding alloc_q1q2_ctx
alloc_q1q2_ctx-balanced ctx heap x fresh = elim (Bool-cases (complete ctx)) [
  | inl all ↦ rw all (free-with_objects ctx heap x fresh)
  | inr one ↦ rw one (free-with_objects ctx heap x fresh)
]
