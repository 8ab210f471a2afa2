-- ===== src/Machine/Bytes.antt =====
-- `put_bytes` and `bytes_at`: what a store leaves alone, and what a load finds after it.
use pandora_examples.Prelude.{
  ℕ, zero, suc, ◌+◌, ◌*◌, ◌/◌, ◌%◌, ◌^◌, ◌≤◌, ◌<◌, ◌≡◌, refl, ap, ap₂, ◌∙◌, ◌⊎◌, arith,
}
use pandora_examples.Prelude.Words.{add_size, u64_mod}
use pandora_examples.Machine.{Memory, poke, put_bytes, bytes_at, Host, Machine, load_word}

-- A store changes none but its own bytes.
pub put_bytes-frame :
    (n : ℕ) (mem : Memory) (a v b : ℕ)
    → a + n ≤ u64_mod
    → (b < a) ⊎ (a + n ≤ b)
    → put_bytes mem a v n b ≡ mem b
unfolding put_bytes poke
put_bytes-frame zero mem a v b fits apart = refl
put_bytes-frame (suc n) mem a v b fits apart =
    put_bytes-frame n (poke mem a (v % 2 ^ 8)) (add_size a 1) (v / 2 ^ 8) b (omega arith)
      (omega arith)
    ∙ ground arith

-- A load depends on its own bytes alone.
pub bytes_at-congr :
    (n : ℕ) (m m' : Memory) (a : ℕ)
    → a + n ≤ u64_mod
    → ((b : ℕ) → a ≤ b → b < a + n → m b ≡ m' b)
    → bytes_at m a n ≡ bytes_at m' a n
unfolding bytes_at
bytes_at-congr zero m m' a fits same = refl
bytes_at-congr (suc zero) m m' a fits same =
    ap (λ (x : ℕ). x % 2 ^ 8 + 2 ^ 8 * 0) (same a (omega arith) (omega arith))
bytes_at-congr (suc (suc n)) m m' a fits same =
    ap₂ (λ (x y : ℕ). x % 2 ^ 8 + 2 ^ 8 * y) (same a (omega arith) (omega arith))
      (bytes_at-congr (suc n) m m' (add_size a 1) (omega arith)
        λ b lo hi. same b (omega arith) (omega arith))

-- The number that the low `n` bytes of `v` stand for.
pub low_bytes : ℕ → ℕ → ℕ
low_bytes zero v = 0
low_bytes (suc n) v = v % 2 ^ 8 + 2 ^ 8 * low_bytes n (v / 2 ^ 8)

poke_self : (mem : Memory) (a v : ℕ) → poke mem a v a ≡ v
unfolding poke
poke_self mem a v = ground arith

-- A load of what a store wrote gives the low bytes of the stored value.
pub bytes_at-put_bytes :
    (n : ℕ) (mem : Memory) (a v : ℕ)
    → a + n ≤ u64_mod
    → bytes_at (put_bytes mem a v n) a n ≡ low_bytes n v
unfolding bytes_at put_bytes low_bytes
bytes_at-put_bytes zero mem a v fits = refl
bytes_at-put_bytes (suc zero) mem a v fits = ground arith
bytes_at-put_bytes (suc (suc n)) mem a v fits =
    ap₂ (λ (x y : ℕ). x % 2 ^ 8 + 2 ^ 8 * y)
      (put_bytes-frame (suc n) (poke mem a (v % 2 ^ 8)) (add_size a 1) (v / 2 ^ 8) a (omega arith)
          (omega arith)
        ∙ poke_self mem a (v % 2 ^ 8))
      (bytes_at-put_bytes (suc n) (poke mem a (v % 2 ^ 8)) (add_size a 1) (v / 2 ^ 8) (omega arith))
    ∙ omega arith

pub low_bytes_eight : (v : ℕ) → v < u64_mod → low_bytes 8 v ≡ v
unfolding low_bytes
low_bytes_eight v h = omega arith

pub bytes_at-lt : (mem : Memory) (a : ℕ) → bytes_at mem a 8 < u64_mod
unfolding bytes_at
bytes_at-lt mem a = omega arith

pub load_word-lt : (h : Host) (a : ℕ) (s : Machine) → (load_word h 8 a s).0 < u64_mod
unfolding load_word
load_word-lt h a s = bytes_at-lt _ a
