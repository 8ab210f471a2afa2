-- ===== src/SignTool/Library.antt =====
-- What dcap-le/sgxsign.c does around OpenSSL: check_crypto_errors, pem_passwd_cb and the context of
-- the quotients with alloc_q1q2_ctx and free_q1q2_ctx.
use pandora_examples.Prelude.{
  ℕ, zero, suc, ◌-◌, Bool, true, false, ◌&&◌, List, [], ◌∷◌, ◌++◌, Option, none, some, leb, ◌==◌,
  if◌then◌else◌, take, replicate,
}
use pandora_examples.LibC.{Bytes}
use pandora_examples.SignTool.{Outcome, ok, no_return, undefined, ◌>>=◌}

-- An error's code, the file and the line it was raised in.
pub record Message : Type 0 where
  pub err : ℕ
  pub filename : Bytes
  pub line : ℕ

-- OpenSSL's queue of errors: ERR_peek_error and ERR_get_error_line.
pub record ErrorQueue (Queue : Type 0) : Type 0 where
  pub peek_error : Queue → ℕ
  pub get_error_line : Queue → Message × Queue

module _ {Queue : Type 0} (q : ErrorQueue Queue) where
  -- The loop of check_crypto_errors in at most `k` rounds: `had_errors`, the queue that is left,
  -- and what was printed, the latest first.
  unfoldable pub errors_loop :
      ℕ → Bool → Queue → List Message → Outcome (Bool × Queue × List Message)
  errors_loop zero had_errors errors printed = no_return
  errors_loop (suc k) had_errors errors printed =
      let next = q.get_error_line errors in
      let rest = errors_loop k true next.1 (next.0 ∷ printed) in
      if q.peek_error errors == 0 then ok (had_errors, errors, printed) else rest

  unfoldable pub check_crypto_errors : ℕ → Queue → Outcome (Bool × Queue × List Message)
  unfolding errors_loop
  check_crypto_errors k errors = errors_loop k false errors []

-- strncpy to a buffer of `size` bytes: a shorter text is filled up with zeros, a longer one is cut.
unfoldable pub strncpy : Bytes → ℕ → Bytes
strncpy s size = take size (s ++ replicate size 0)

-- strlen, which has no meaning for a buffer without a zero.
unfoldable pub strlen : Bytes → Outcome ℕ
strlen [] = undefined
strlen (b ∷ bs) = let rest = strlen bs in if b == 0 then ok 0 else (rest >>= λ n. ok (suc n))

-- pem_passwd_cb for a buffer of `size` bytes: the length it returns with the buffer, or `none` for
-- -1, and `sign_key_pass` after it.
unfoldable pub pem_passwd_cb : Option Bytes → ℕ → Outcome (Option (ℕ × Bytes) × Option Bytes)
unfolding strncpy strlen
pem_passwd_cb none size = ok (none, none)
pem_passwd_cb (some sign_key_pass) size =
    let buf = strncpy sign_key_pass size in
    (strlen buf >>= λ n. ok (some (if leb size n then size - 1 else n, buf), none))

-- struct q1q2_ctx, with `none` for a null pointer
pub record Q1q2Ctx : Type 0 where
  pub bn_ctx : Option ℕ
  pub m : Option ℕ
  pub s : Option ℕ
  pub q1 : Option ℕ
  pub qr : Option ℕ
  pub q2 : Option ℕ

-- Which addresses hold an object of the library.
abbrev pub Heap : Type 0
Heap = ℕ → Bool

unfoldable pub mark : Bool → Option ℕ → Heap → Heap
mark live none heap x = heap x
mark live (some p) heap x = if x == p then live else heap x

-- A call that gives a pointer, to a new object where it is not null.
abbrev pub new : Option ℕ → Heap → Heap
new p heap = mark true p heap

-- BN_CTX_free and BN_free, which ignore a null pointer.
abbrev pub free : Option ℕ → Heap → Heap
free p heap = mark false p heap

unfoldable pub free_q1q2_ctx : Q1q2Ctx → Heap → Heap
unfolding mark
free_q1q2_ctx ctx heap =
    free ctx.q2 (free ctx.qr (free ctx.q1 (free ctx.s (free ctx.m (free ctx.bn_ctx heap)))))

unfoldable pub is_some : Option ℕ → Bool
is_some none = false
is_some (some p) = true

-- The heap after the six calls of alloc_q1q2_ctx.
unfoldable pub with_objects : Q1q2Ctx → Heap → Heap
unfolding mark
with_objects ctx heap =
    new ctx.q2 (new ctx.qr (new ctx.q1 (new ctx.m (new ctx.s (new ctx.bn_ctx heap)))))

-- No call gave a null pointer.
unfoldable pub complete : Q1q2Ctx → Bool
unfolding is_some
complete ctx =
    is_some ctx.bn_ctx
    && is_some ctx.s
    && is_some ctx.m
    && is_some ctx.q1
    && is_some ctx.qr
    && is_some ctx.q2

-- alloc_q1q2_ctx, where the library's calls give the pointers of `ctx`.
unfoldable pub alloc_q1q2_ctx : Q1q2Ctx → Heap → Bool × Heap
unfolding with_objects complete free_q1q2_ctx
alloc_q1q2_ctx ctx heap =
    if complete ctx
    then (true, with_objects ctx heap)
    else (false, free_q1q2_ctx ctx (with_objects ctx heap))
