-- ===== src/Sancus/PrivateData.antt =====
-- The enclave of sancus/full_encl/comp_gen_test_2/main.c, which keeps one int. An int is its sixteen
-- bits; one with the top bit is negative.
use pandora_examples.Prelude.{
  ℕ, zero, suc, ◌+◌, ◌*◌, ◌-◌, ◌%◌, ◌^◌, ◌<◌, ◌≡◌, ◌∙◌, ap, refl, arith, Bool, ◌&&◌, List, [], ◌∷◌,
  ltb, Bool-cases, inl, inr, if◌then◌else◌,
}
use pandora_examples.Sancus.{add_int}

-- `priv_data` at the start
abbrev pub priv_data : ℕ
priv_data = 3

-- `number > 0`
abbrev pub positive : ℕ → Bool
positive number = ltb 0 number && ltb number (2 ^ 15)

-- set_priv_data: its result, and `priv_data` after it
unfoldable pub set_priv_data : ℕ → ℕ → ℕ × ℕ
set_priv_data number value = if positive number then (0, number) else (2 ^ 16 - 1, value)

-- The loop of do_loop, with `k` rounds to go at `i`: the ints of the buffer are those of `memory`.
unfoldable pub do_loop_from : (ℕ → ℕ) → ℕ → ℕ → ℕ → ℕ → ℕ
do_loop_from memory buffer zero i result = result
do_loop_from memory buffer (suc k) i result =
    do_loop_from memory buffer k (suc i) (add_int result (memory ((buffer + 2 * i) % 2 ^ 16)))

unfoldable pub do_loop : (ℕ → ℕ) → ℕ → ℕ → ℕ → ℕ
unfolding do_loop_from
do_loop memory buffer length value = do_loop_from memory buffer length 0 value

-- The text that set_number returns.
pub data Text : Type 0 where
  number_set : Text
  number_not_set : Text

-- set_number: a result that is not negative is a number that was set.
unfoldable pub set_number : ℕ → ℕ → Text × ℕ
unfolding set_priv_data
set_number amount value =
    let r = set_priv_data amount value in
    (if ltb r.0 (2 ^ 15) then number_set else number_not_set, r.1)

-- A call from outside: do_loop keeps the int, set_number may change it.
pub data Step : ℕ → ℕ → Type 0 where
  calls_do_loop : {value : ℕ} (memory : ℕ → ℕ) (buffer length : ℕ) → Step value value
  calls_set_number :
      {value value' : ℕ} (amount : ℕ) → value' ≡ (set_number amount value).1 → Step value value'

-- The values of `priv_data` after some calls.
pub data Reach : ℕ → Type 0 where
  start : {value : ℕ} → value ≡ priv_data → Reach value
  next : {value value' : ℕ} → Reach value → Step value value' → Reach value'

-- A positive int.
abbrev pub IsPositive : ℕ → Type 0
IsPositive value = (0 < value) × (value < 2 ^ 15)

Step-IsPositive : {value value' : ℕ} → Step value value' → IsPositive value → IsPositive value'
unfolding set_number set_priv_data
Step-IsPositive (calls_do_loop memory buffer length) p = p
Step-IsPositive {value} (calls_set_number amount e) p = elim (Bool-cases (positive amount)) [
  | inl set ↦ rw (e, set) (ground arith)
  | inr kept ↦ rw (e, kept) p
]

-- However the enclave is called, its int stays positive.
pub Reach-IsPositive : (value : ℕ) → Reach value → IsPositive value
Reach-IsPositive value (start e) = omega arith
Reach-IsPositive value (next r s) = Step-IsPositive s (Reach-IsPositive _ r)

-- The int after calls of set_number with these amounts, the latest first: the latest positive one.
pub latest : List ℕ → ℕ
latest [] = priv_data
latest (amount ∷ amounts) = if positive amount then amount else latest amounts

-- The int after calls of set_number, the latest first.
unfoldable pub stored : List ℕ → ℕ
unfolding set_number
stored [] = priv_data
stored (amount ∷ amounts) = (set_number amount (stored amounts)).1

value-positive :
    (amount value : ℕ) → (set_number amount value).1 ≡ (if positive amount then amount else value)
unfolding set_number set_priv_data
value-positive amount value = elim (Bool-cases (positive amount)) [
  | inl set ↦ rw set refl
  | inr kept ↦ rw kept refl
]

stored-latest : (amounts : List ℕ) → stored amounts ≡ latest amounts
unfolding stored latest
stored-latest [] = refl
stored-latest (amount ∷ amounts) =
    value-positive amount (stored amounts)
    ∙ ap (λ (v : ℕ). if positive amount then amount else v) (stored-latest amounts)

-- The sum of the `k` ints of the buffer from the `i`th on.
pub sum : (ℕ → ℕ) → ℕ → ℕ → ℕ → ℕ
sum memory buffer zero i = 0
sum memory buffer (suc k) i = memory ((buffer + 2 * i) % 2 ^ 16) + sum memory buffer k (suc i)

do_loop_from-sum :
    (memory : ℕ → ℕ) (buffer k i result : ℕ)
    → result < 2 ^ 16
    → do_loop_from memory buffer k i result ≡ (result + sum memory buffer k i) % 2 ^ 16
unfolding do_loop_from sum
do_loop_from-sum memory buffer zero i result small = omega arith
do_loop_from-sum memory buffer (suc k) i result small =
    let word = memory ((buffer + 2 * i) % 2 ^ 16) in
    do_loop_from-sum memory buffer k (suc i) (add_int result word) (omega arith) ∙ omega arith

latest-lt : (amounts : List ℕ) → latest amounts < 2 ^ 16
unfolding latest
latest-lt [] = omega arith
latest-lt (amount ∷ amounts) = elim (Bool-cases (positive amount)) [
  | inl set ↦ rw set (ground arith)
  | inr kept ↦ rw kept (latest-lt amounts)
]

text-positive :
    (amount value : ℕ)
    → (set_number amount value).0 ≡ (if positive amount then number_set else number_not_set)
unfolding set_number set_priv_data
text-positive amount value = elim (Bool-cases (positive amount)) [
  | inl set ↦ rw set refl
  | inr kept ↦ rw kept refl
]

-- After any calls of set_number, do_loop gives its caller the sum, in sixteen bits, of the buffer's
-- ints and of the latest positive number that was set, or 3 where none was; and a call of set_number
-- says that the number was set exactly where it is positive.
pub do_loop-set_number :
    (amounts : List ℕ) (amount : ℕ) (memory : ℕ → ℕ) (buffer length : ℕ)
    → (do_loop memory buffer length (stored amounts)
        ≡ (latest amounts + sum memory buffer length 0) % 2 ^ 16)
      × ((set_number amount (stored amounts)).0
          ≡ (if positive amount then number_set else number_not_set))
unfolding do_loop set_number set_priv_data
do_loop-set_number amounts amount memory buffer length = (
  ap (do_loop_from memory buffer length 0) (stored-latest amounts)
      ∙ do_loop_from-sum memory buffer length 0 (latest amounts) (latest-lt amounts),
  text-positive amount (stored amounts),
)
