-- ===== src/Sancus.antt =====
-- Enclaves for the Sancus processor, of sancus/full_encl. An int is its sixteen bits, and a sum of
-- ints wraps.
pub mod Fib
pub mod Buffer
pub mod Reads
pub mod Support
pub mod Reactive
pub mod PrivateData
pub mod Arithmetic
pub mod Asm
pub mod Mains
mod Tests
use pandora_examples.Prelude.{
  ℕ, zero, suc, ◌+◌, ◌%◌, ◌^◌, Bool, Option, none, some, leb, if◌then◌else◌,
}

-- Addition of ints.
abbrev pub add_int : ℕ → ℕ → ℕ
add_int a b = (a + b) % 2 ^ 16

-- The recursion of fib in fib/main.c, for an argument that is not negative.
unfoldable pub fib_from : ℕ → ℕ
fib_from zero = 1
fib_from (suc zero) = 1
fib_from (suc (suc n)) = add_int (fib_from (suc n)) (fib_from n)

-- fib of fib/main.c; a negative int has its top bit set, and -1 is 0xffff.
unfoldable pub fib : ℕ → ℕ
fib n = if leb (2 ^ 15) n then 0xffff else fib_from n

-- `a <= b` of ints
unfoldable pub leq_int : ℕ → ℕ → Bool
leq_int a b = leb ((a + 2 ^ 15) % 2 ^ 16) ((b + 2 ^ 15) % 2 ^ 16)

-- The loop of fib in fib2/main.c at `i`, in at most `k` rounds, of which the last finds `i` past `n`.
unfoldable pub fib_loop : ℕ → (n i a b : ℕ) → Option ℕ
unfolding leq_int
fib_loop zero n i a b = none
fib_loop (suc k) n i a b =
    let rest = fib_loop k n (add_int i 1) b (add_int a b) in if leq_int i n then rest else some b

-- fib of fib2/main.c
unfoldable pub fib_iterative : ℕ → ℕ → Option ℕ
unfolding fib_loop
fib_iterative k n = fib_loop k n 2 0 1

-- The loop of fibonacci in fib2/main.c at `i`, with `m` rounds to go and each of its calls in at most
-- `k` rounds.
unfoldable pub fibonacci_loop : ℕ → (m i r : ℕ) → Option ℕ
unfolding fib_iterative
fibonacci_loop k zero i r = some r
fibonacci_loop k (suc m) i r = elim (fib_iterative k i) [
  | none ↦ none
  | some f ↦ fibonacci_loop k m (suc i) (add_int r f)
]

-- fibonacci, where `fib_number` has the given value, which is not negative.
unfoldable pub fibonacci : ℕ → ℕ → Option ℕ
unfolding fibonacci_loop
fibonacci k fib_number = fibonacci_loop k fib_number 0 0
