-- ===== src/LibC/Arrays.antt =====
-- memset and memcpy of dcap-le/string.c fill and copy exactly their first `n` bytes.
use mathlib.Core.List.{append_assoc}
use pandora_examples.Prelude.{
  ℕ, zero, suc, ◌%◌, ◌^◌, ◌≤◌, ◌≡◌, refl, ap, ap₂, sym, ◌∙◌, [], ◌∷◌, ◌++◌, arith, length, get_or,
  set, take, drop, replicate, length-append,
}
use pandora_examples.LibC.{Bytes, memset_loop, memset, memcpy_loop, memcpy}

-- Element `length xs` of `xs ++ y ∷ ys`.
set-append : (xs ys : Bytes) (y v : ℕ) → set (xs ++ y ∷ ys) (length xs) v ≡ xs ++ v ∷ ys
set-append [] ys y v = refl
set-append (x ∷ xs) ys y v = ap (λ l. x ∷ l) (set-append xs ys y v)

length-snoc : (xs : Bytes) (y : ℕ) → length (xs ++ y ∷ []) ≡ suc (length xs)
length-snoc xs y = omega (arith, length-append xs (y ∷ []))

memset_loop-append :
    (k : ℕ) (xs ys : Bytes) (c : ℕ)
    → k ≤ length ys
    → memset_loop (xs ++ ys) c k (length xs) ≡ xs ++ (replicate k (c % 2 ^ 8) ++ drop k ys)
unfolding memset_loop
memset_loop-append zero xs ys c fits = refl
memset_loop-append (suc k) xs [] c fits = absurd (omega arith)
memset_loop-append (suc k) xs (y ∷ ys) c fits =
    let v = c % 2 ^ 8 in
    ap (λ l. memset_loop l c k (suc (length xs)))
      (set-append xs ys y v ∙ sym (append_assoc xs (v ∷ []) ys))
    ∙ ap (λ i. memset_loop ((xs ++ v ∷ []) ++ ys) c k i) (sym (length-snoc xs v))
    ∙ memset_loop-append k (xs ++ v ∷ []) ys c (omega arith)
    ∙ append_assoc xs (v ∷ []) _

memset-fills :
    (s : Bytes) (c n : ℕ) → n ≤ length s → memset s c n ≡ replicate n (c % 2 ^ 8) ++ drop n s
unfolding memset
memset-fills s c n fits = memset_loop-append n [] s c fits

get_or-append : (xs ys : Bytes) (y : ℕ) → get_or (xs ++ y ∷ ys) (length xs) 0 ≡ y
get_or-append [] ys y = refl
get_or-append (x ∷ xs) ys y = get_or-append xs ys y

-- The copy at index `length xs`, where `ps` is the part of the source that is behind it.
memcpy_loop-append :
    (k : ℕ) (xs ys ps qs : Bytes)
    → k ≤ length ys
    → k ≤ length qs
    → length ps ≡ length xs
    → memcpy_loop (xs ++ ys) (ps ++ qs) k (length xs) ≡ xs ++ (take k qs ++ drop k ys)
unfolding memcpy_loop
memcpy_loop-append zero xs ys ps qs fits has same = refl
memcpy_loop-append (suc k) xs [] ps qs fits has same = absurd (omega arith)
memcpy_loop-append (suc k) xs (y ∷ ys) ps [] fits has same = absurd (omega arith)
memcpy_loop-append (suc k) xs (y ∷ ys) ps (q ∷ qs) fits has same =
    ap (λ l. memcpy_loop l (ps ++ q ∷ qs) k (suc (length xs)))
      (ap (set (xs ++ y ∷ ys) (length xs))
          (ap (λ i. get_or (ps ++ q ∷ qs) i 0) (sym same) ∙ get_or-append ps qs q)
        ∙ set-append xs ys y q
        ∙ sym (append_assoc xs (q ∷ []) ys))
    ∙ ap₂ (λ l i. memcpy_loop ((xs ++ q ∷ []) ++ ys) l k i) (sym (append_assoc ps (q ∷ []) qs))
        (sym (length-snoc xs q))
    ∙ memcpy_loop-append k (xs ++ q ∷ []) ys (ps ++ q ∷ []) qs (omega arith) (omega arith)
        (length-snoc ps q ∙ ap suc same ∙ sym (length-snoc xs q))
    ∙ append_assoc xs (q ∷ []) _

-- memset writes the low byte of `c` to the first `n` bytes and keeps the others; memcpy replaces
-- the first `n` bytes of one array by those of another and keeps the others.
pub memset-memcpy_lem :
    (dest src : Bytes) (c n : ℕ)
    → n ≤ length dest
    → n ≤ length src
    → (memset dest c n ≡ replicate n (c % 2 ^ 8) ++ drop n dest)
      × (memcpy dest src n ≡ take n src ++ drop n dest)
unfolding memcpy
memset-memcpy_lem dest src c n fits has =
    (memset-fills dest c n fits, memcpy_loop-append n [] dest [] src fits has refl)
