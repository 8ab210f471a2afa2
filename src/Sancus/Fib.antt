-- ===== src/Sancus/Fib.antt =====
-- The two Fibonacci enclaves of sancus/full_encl, fib/main.c and fib2/main.c, against each other.
use pandora_examples.Prelude.{
  ℕ, zero, suc, ◌+◌, ◌%◌, ◌^◌, ◌≤◌, ◌<◌, ◌≡◌, refl, sym, ap, ◌∙◌, arith, true, false, none, some,
  not_leb,
}
use pandora_examples.Sancus.{
  add_int, fib_from, fib, leq_int, fib_loop, fib_iterative, fibonacci_loop, fibonacci,
}

leq_int-past : (n : ℕ) → n < 0x7fff → leq_int (suc n) n ≡ false
unfolding leq_int
leq_int-past n small = ground arith

leq_int-more : (i n : ℕ) → n < 0x7fff → i ≤ n → leq_int i n ≡ true
unfolding leq_int
leq_int-more i n small le = ground arith

-- Every int is at most the greatest.
leq_int-greatest : (i : ℕ) → leq_int i 0x7fff ≡ true
unfolding leq_int
leq_int-greatest i = ground arith

fib_loop-past : (k n a b : ℕ) → n < 0x7fff → fib_loop (suc k) n (suc n) a b ≡ some b
unfolding fib_loop
fib_loop-past k n a b small = rw (leq_int-past n small) refl

fib_loop-more :
    (k n i a b : ℕ)
    → n < 0x7fff
    → i ≤ n
    → fib_loop (suc k) n i a b ≡ fib_loop k n (suc i) b (add_int a b)
unfolding fib_loop
fib_loop-more k n i a b small le =
    rw (leq_int-more i n small le)
      (ap (λ x. fib_loop k n x b (add_int a b)) {x = add_int i 1} {y = suc i} (omega arith))

-- With `d` rounds to go, the loop computes the recursion from two neighbours on.
fib_loop_lem :
    (k d n i j : ℕ)
    → i + d ≡ suc n
    → n < 0x7fff
    → d < k
    → fib_loop k n i (fib_from j) (fib_from (suc j)) ≡ some (fib_from (d + suc j))
unfolding fib_loop fib_from
fib_loop_lem zero d n i j at small enough = absurd (omega arith)
fib_loop_lem (suc k) zero n i j at small enough =
    ap (λ x. fib_loop (suc k) n x (fib_from j) (fib_from (suc j))) {x = i} (omega arith)
    ∙ fib_loop-past k n (fib_from j) (fib_from (suc j)) small
    ∙ ap (λ x. some (fib_from x)) {x = suc j} (omega arith)
fib_loop_lem (suc k) (suc d) n i j at small enough =
    fib_loop-more k n i (fib_from j) (fib_from (suc j)) small (omega arith)
    ∙ ap (λ x. fib_loop k n (suc i) (fib_from (suc j)) (x % 2 ^ 16)) (omega arith)
    ∙ fib_loop_lem k d n (suc i) (suc j) (omega arith) small (omega arith)
    ∙ ap (λ x. some (fib_from x)) {x = d + suc (suc j)} (omega arith)

iterative-from :
    (k n : ℕ) → suc n < 0x7fff → suc n < k → fib_iterative k (suc n) ≡ some (fib_from n)
unfolding fib_iterative fib_from
iterative-from zero n small enough = absurd (omega arith)
iterative-from (suc k) zero small enough = fib_loop-past k 1 0 1 small
iterative-from (suc k) (suc n) small enough =
    fib_loop-more k (suc (suc n)) 2 0 1 small (omega arith)
    ∙ fib_loop_lem k n (suc (suc n)) 3 0 (omega arith) small (omega arith)
    ∙ ap (λ x. some (fib_from x)) {x = n + 1} {y = suc n} (omega arith)

-- For the greatest int the loop never ends.
fib_loop-endless : (k i a b : ℕ) → fib_loop k 0x7fff i a b ≡ none
unfolding fib_loop
fib_loop-endless zero i a b = refl
fib_loop-endless (suc k) i a b =
    rw (leq_int-greatest i) (fib_loop-endless k (add_int i 1) b (add_int a b))

fibonacci_loop-next :
    (k m i r f : ℕ)
    → fib_iterative k i ≡ some f
    → fibonacci_loop k (suc m) i r ≡ fibonacci_loop k m (suc i) (add_int r f)
unfolding fibonacci_loop
fibonacci_loop-next k m i r f is = rw (is, fibonacci_loop) refl

fibonacci_loop_lem :
    (k m i : ℕ)
    → m + i < 0x7fff
    → m + i < k
    → fibonacci_loop k m (suc i) (fib_from (suc i)) ≡ some (fib_from (m + suc i))
unfolding fibonacci_loop fib_from
fibonacci_loop_lem k zero i small enough = ap (λ x. some (fib_from x)) {x = suc i} (omega arith)
fibonacci_loop_lem k (suc m) i small enough =
    fibonacci_loop-next k m (suc i) (fib_from (suc i)) (fib_from i)
      (iterative-from k i (omega arith) (omega arith))
    ∙ fibonacci_loop_lem k m (suc i) (omega arith) (omega arith)
    ∙ ap (λ x. some (fib_from x)) {x = m + suc (suc i)} (omega arith)

-- Of 0
iterative_zero : (k : ℕ) → fib_iterative (suc k) 0 ≡ some 1
unfolding fib_iterative fib_loop leq_int
iterative_zero k = refl

fibonacci-from : (k n : ℕ) → n < 0x7fff → n < k → fibonacci k (suc n) ≡ some (fib_from (suc n))
unfolding fibonacci fib_from
fibonacci-from zero n small enough = absurd (omega arith)
fibonacci-from (suc k) n small enough =
    fibonacci_loop-next (suc k) n 0 0 1 (iterative_zero k)
    ∙ fibonacci_loop_lem (suc k) n 0 (omega arith) (omega arith)
    ∙ ap (λ x. some (fib_from x)) {x = n + 1} {y = suc n} (omega arith)

fib-from : (n : ℕ) → n < 2 ^ 15 → fib n ≡ fib_from n
unfolding fib
fib-from n small = rw (not_leb (2 ^ 15) n small)

-- For an int from 1 to one below the greatest, 0x7fff, the loop of fib2/main.c ends within one round
-- more than the int says, and gives at `n` + 1 what the recursion of fib/main.c gives at `n`. For the
-- greatest, it ends within no number of rounds, since its index wraps. And fibonacci, which adds up
-- the values of the loop below fib_number, gives for each positive int what the recursion gives there,
-- wraps included, where each of those loops may take as many rounds as the int says.
pub fib_iterative-fibonacci :
    (k l n m : ℕ)
    → suc n < 0x7fff
    → suc n < k
    → m < 0x7fff
    → m < k
    → (fib_iterative k (suc n) ≡ some (fib n))
      × (fib_iterative l 0x7fff ≡ none)
      × (fibonacci k (suc m) ≡ some (fib (suc m)))
unfolding fib_iterative
fib_iterative-fibonacci k l n m small enough small' enough' = (
  iterative-from k n small enough ∙ ap some (sym (fib-from n (omega arith))),
  fib_loop-endless l 2 0 1,
  fibonacci-from k m small' enough' ∙ ap some (sym (fib-from (suc m) (omega arith))),
)
