-- ===== src/Bin2c/RoundTrip.antt =====
-- The array that dcap-le/bin2c.c writes is read back as the bytes of the file.
use mathlib.Core.List.{append_assoc, append-nil}
use pandora_examples.Prelude.{
  ℕ, zero, suc, ◌+◌, ◌-◌, ◌*◌, ◌/◌, ◌%◌, ◌^◌, ◌≤◌, ◌<◌, ◌≡◌, ◌⊎◌, inl, inr, refl, ap, sym, ◌∙◌,
  arith, Bool, true, false, Bool-cases, List, [], ◌∷◌, ◌++◌, map, Option, none, some, ltb, leb,
  ◌&&◌, ◌||◌, lt→ltb, not_ltb, not_leb, ◌==◌, ==_iff, if◌then◌else◌, length, take, drop,
  length-take, length-drop,
}
use pandora_examples.Prelude.Options.{GetOpt}
use pandora_examples.LibC.{Bytes}
use pandora_examples.Bin2c.{
  returns, hex_digit, hex_byte, print_data, copy_loop, preamble, closing, copy_result, Files,
  write_array, main, bin2c, below_size,
}

-- Where a reader of the initialiser of an array of bytes stands behind its opening brace: before an
-- element or the closing brace, in an element behind a 0, behind `0x`, and behind a first digit of
-- the given value, behind an element, behind the closing brace, behind the semicolon, and behind
-- the line's end.
pub data Place : Type 0 where
  between behind_zero high behind_value closed finished line_end : Place
  low : ℕ → Place

-- What a character does: the text is none of an array, or the reader goes on, with an element or
-- without.
pub data Step : Type 0 where
  reject : Step
  go : Place → Step
  element : ℕ → Place → Step

unfoldable pub is_digit : ℕ → Bool
is_digit c = (leb 48 c && leb c 57) || (leb 97 c && leb c 102)

-- The value of a digit
unfoldable pub value_of : ℕ → ℕ
value_of c = if ltb c 58 then c - 48 else c - 87

-- White space stands between elements alone, and a comma or the closing brace behind each.
unfoldable pub next : Place → ℕ → Step
unfolding is_digit value_of
next between c =
    if c == 48
    then go behind_zero
    else if c == 125
    then go closed
    else if c == 10 || (c == 9 || c == 32)
    then go between
    else reject
next behind_zero c = if c == 120 then go high else reject
next high c = if is_digit c then go (low (value_of c)) else reject
next (low h) c = if is_digit c then element (16 * h + value_of c) behind_value else reject
next behind_value c = if c == 44 then go between else if c == 125 then go closed else reject
next closed c = if c == 59 then go finished else reject
next finished c = if c == 10 then go line_end else reject
next line_end c = reject

abbrev pub prepend : Bytes → Option Bytes → Option Bytes
prepend l none = none
prepend l (some r) = some (l ++ r)

-- A text that ends here.
abbrev pub at_end : Place → Option Bytes
at_end line_end = some []
at_end _ = none

-- The bytes that an array `0xhh,...};` lists, where the text is one.
unfoldable pub read_array : Place → List ℕ → Option Bytes
unfolding next
read_array p [] = at_end p
read_array p (c ∷ cs) = elim (next p c) [
  | reject ↦ none
  | go q ↦ read_array q cs
  | element v q ↦ prepend (v ∷ []) (read_array q cs)
]

abbrev pub low_byte : ℕ → ℕ
low_byte b = b % 2 ^ 8

prepend-prepend : (a b : Bytes) (o : Option Bytes) → prepend a (prepend b o) ≡ prepend (a ++ b) o
prepend-prepend a b none = refl
prepend-prepend a b (some r) = ap some (sym (append_assoc a b r))

prepend-nil : (o : Option Bytes) → prepend [] o ≡ o
prepend-nil none = refl
prepend-nil (some r) = refl

next-high : (d : ℕ) → d < 16 → next high (hex_digit d) ≡ go (low d)
unfolding next is_digit value_of hex_digit
next-high d small = ground arith

next-low : (h d : ℕ) → d < 16 → next (low h) (hex_digit d) ≡ element (16 * h + d) behind_value
unfolding next is_digit value_of hex_digit
next-low h d small = ground arith

read_array-go :
    (p q : Place) (c : ℕ) (cs : List ℕ) → next p c ≡ go q → read_array p (c ∷ cs) ≡ read_array q cs
unfolding read_array
read_array-go p q c cs is = rw (is, read_array) refl

read_array-element :
    (p q : Place) (c v : ℕ) (cs : List ℕ)
    → next p c ≡ element v q
    → read_array p (c ∷ cs) ≡ prepend (v ∷ []) (read_array q cs)
unfolding read_array
read_array-element p q c v cs is = rw (is, read_array) refl

read_array-hex_byte :
    (b : ℕ) (rest : List ℕ)
    → read_array between (hex_byte b ++ rest) ≡ prepend (low_byte b ∷ []) (read_array between rest)
unfolding read_array next hex_byte
read_array-hex_byte b rest =
    let h = b % 2 ^ 8 / 16 in
    let l = b % 2 ^ 8 % 16 in
    read_array-go high (low h) (hex_digit h) (hex_digit l ∷ 44 ∷ rest) (next-high h (omega arith))
    ∙ read_array-element (low h) behind_value (hex_digit l) (16 * h + l) (44 ∷ rest)
        (next-low h l (omega arith))
    ∙ ap (λ (v : ℕ). prepend (v ∷ []) (read_array between rest)) (omega arith)

-- A line break between elements is skipped.
read_array-break :
    (c : Bool) (rest : List ℕ)
    → read_array between ((if c then 10 ∷ 9 ∷ [] else []) ++ rest) ≡ read_array between rest
unfolding read_array next
read_array-break true rest = refl
read_array-break false rest = refl

read_array-print_data :
    (i : ℕ) (bs : Bytes) (rest : List ℕ)
    → read_array between (print_data i bs ++ rest)
      ≡ prepend (map low_byte bs) (read_array between rest)
unfolding print_data
read_array-print_data i [] rest = sym (prepend-nil (read_array between rest))
read_array-print_data i (b ∷ bs) rest =
    let line_break = if i % 16 == 0 then 10 ∷ 9 ∷ [] else [] in
    ap (read_array between) (
      append_assoc line_break (hex_byte b ++ print_data (suc i) bs) rest
      ∙ ap (λ l. line_break ++ l) (append_assoc (hex_byte b) (print_data (suc i) bs) rest))
    ∙ read_array-break (i % 16 == 0) _
    ∙ read_array-hex_byte b _
    ∙ ap (prepend (low_byte b ∷ [])) (read_array-print_data (suc i) bs rest)
    ∙ prepend-prepend (low_byte b ∷ []) (map low_byte bs) (read_array between rest)

map-take-drop :
    (n : ℕ) (bs : Bytes) → map low_byte (take n bs) ++ map low_byte (drop n bs) ≡ map low_byte bs
map-take-drop zero bs = refl
map-take-drop (suc n) [] = refl
map-take-drop (suc n) (b ∷ bs) = ap (λ l. low_byte b ∷ l) (map-take-drop n bs)

-- What the loop prints and counts, for what is left of the file.
record Copied (input : Bytes) (r : List ℕ × ℕ) : Type 0 where
  reads_back :
      (rest : List ℕ)
      → read_array between (r.0 ++ rest) ≡ prepend (map low_byte input) (read_array between rest)
  counted : r.1 ≡ length input

Copied-nothing : (input : Bytes) → length input ≡ 0 → Copied input ([], 0)
Copied-nothing [] none_left = record {
  reads_back = λ rest. sym (prepend-nil (read_array between rest));
  counted = refl;
}
Copied-nothing (b ∷ bs) none_left = absurd (omega arith)

-- One round, and what the others print.
Copied-round :
    (input : Bytes) (r : List ℕ × ℕ)
    → Copied (drop 0x1000 input) r
    → Copied input (print_data 0 (take 0x1000 input) ++ r.0, length (take 0x1000 input) + r.1)
Copied-round input r c = record {
  reads_back = λ rest.
      ap (read_array between) (append_assoc (print_data 0 (take 0x1000 input)) r.0 rest)
      ∙ read_array-print_data 0 (take 0x1000 input) (r.0 ++ rest)
      ∙ ap (prepend (map low_byte (take 0x1000 input))) (c.reads_back rest)
      ∙ prepend-prepend (map low_byte (take 0x1000 input)) (map low_byte (drop 0x1000 input))
          (read_array between rest)
      ∙ ap (λ l. prepend l (read_array between rest)) (map-take-drop 0x1000 input);
  counted = omega (arith, c.counted, length-take 0x1000 input, length-drop 0x1000 input);
}

below_size_iff :
    (offset st_size : ℕ)
    → offset < 2 ^ 31
    → (below_size offset st_size ≡ true → offset < st_size)
      × (below_size offset st_size ≡ false → st_size ≤ offset)
unfolding below_size
below_size_iff offset st_size small = (ground arith, ground arith)

loop-done :
    (k offset st_size : ℕ) (input : Bytes)
    → below_size offset st_size ≡ false
    → copy_loop (suc k) offset st_size input ≡ some ([], 0)
unfolding copy_loop
loop-done k offset st_size input past = rw past refl

loop-end :
    (k offset st_size : ℕ) (input : Bytes)
    → below_size offset st_size ≡ true
    → (length (take 0x1000 input) == 0) ≡ true
    → copy_loop (suc k) offset st_size input ≡ some ([], 0)
unfolding copy_loop
loop-end k offset st_size input more end = rw (more, end) refl

loop-next :
    (k offset st_size : ℕ) (input : Bytes) (r : List ℕ × ℕ)
    → below_size offset st_size ≡ true
    → (length (take 0x1000 input) == 0) ≡ false
    → copy_loop k ((offset + 0x1000) % 2 ^ 32) st_size (drop 0x1000 input) ≡ some r
    → copy_loop (suc k) offset st_size input
      ≡ some (print_data 0 (take 0x1000 input) ++ r.0, length (take 0x1000 input) + r.1)
unfolding copy_loop
loop-next k offset st_size input r more some_read rest = rw (more, some_read, rest) refl

-- A round for each byte is more than enough, and the offset stays below 2 ^ 31.
copy_loop-Copied :
    (k offset st_size : ℕ) (input : Bytes)
    → st_size ≤ offset + k
    → (length input ≡ 0) ⊎ (offset + length input ≤ st_size)
    → offset < 2 ^ 31
    → st_size + 0x1000 ≤ 2 ^ 31
    → (r : List ℕ × ℕ) × (copy_loop (suc k) offset st_size input ≡ some r) × Copied input r
copy_loop-Copied zero offset st_size input enough fits small room =
    elim (Bool-cases (below_size offset st_size)) [
      | inr past ↦
          (([], 0), loop-done zero offset st_size input past, Copied-nothing input (omega arith))
      | inl more ↦ absurd (omega (arith, (below_size_iff offset st_size small).0 more))
    ]
copy_loop-Copied (suc k) offset st_size input enough fits small room =
    elim (Bool-cases (below_size offset st_size)) [
      | inr past ↦
          let reached = (below_size_iff offset st_size small).1 past in
          (([], 0), loop-done (suc k) offset st_size input past, Copied-nothing input (omega arith))
      | inl more ↦ elim (Bool-cases (length (take 0x1000 input) == 0)) [
        | inl end ↦ (
          ([], 0),
          loop-end (suc k) offset st_size input more end,
          Copied-nothing input (
              omega
                (arith, length-take 0x1000 input, (==_iff (length (take 0x1000 input)) 0).0 end)),
        )
        | inr some_read ↦
            let below = (below_size_iff offset st_size small).0 more in
            let (r, is, c) =
              copy_loop-Copied k ((offset + 0x1000) % 2 ^ 32) st_size (drop 0x1000 input)
                (omega arith) (omega (arith, length-drop 0x1000 input)) (omega arith) room in
            (_, loop-next (suc k) offset st_size input r more some_read is, Copied-round input r c)
      ]
    ]

exit_code : (n m : ℕ) → n ≤ m → copy_result n m ≡ (if n == m then 0 else 1)
exit_code n m le = ground arith

write_array-returns :
    (k : ℕ) (array_name : List ℕ) (st_size : ℕ) (input : Bytes) (r : List ℕ × ℕ)
    → length input ≤ st_size
    → length array_name < 256
    → copy_loop k 0 st_size input ≡ some r
    → r.1 ≡ length input
    → write_array k array_name st_size input
      ≡ returns
          (if length input == st_size then 0 else 1)
          (some (preamble array_name st_size ++ (r.0 ++ closing)))
unfolding write_array
write_array-returns k array_name st_size input r fits short is counted =
    let text = preamble array_name st_size ++ (r.0 ++ closing) in
    rw (not_leb 256 (length array_name) short, is)
      (ap (λ (c : ℕ). returns (copy_result c st_size) (some text)) counted
        ∙ ap (λ (c : ℕ). returns c (some text)) (exit_code (length input) st_size fits))

-- main behind its loop over options.
main-read_array :
    (input : Bytes) (st_size : ℕ) (bin_file header_name array_name : List ℕ)
    → length input ≤ st_size
    → st_size + 0x1000 ≤ 2 ^ 31
    → length array_name < 256
    → (array : List ℕ) × (main
          (suc st_size)
          (record { output_opens = true; input = some input; st_size = some st_size })
          (bin_file ∷ header_name ∷ array_name ∷ [])
        ≡ returns
            (if length input == st_size then 0 else 1)
            (some (preamble array_name st_size ++ array)))
      × (read_array between array ≡ some (map low_byte input))
unfolding main read_array next
main-read_array input st_size bin_file header_name array_name fits room short =
    let (r, is, c) =
      copy_loop-Copied st_size 0 st_size input (omega arith) (inr (omega arith)) (omega arith)
        room in
    (
      r.0 ++ closing,
      write_array-returns (suc st_size) array_name st_size input r fits short is c.counted,
      c.reads_back closing ∙ ap some (append-nil (map low_byte input)),
    )

-- With no options and three arguments, a name of fewer than 256 characters, files that open, a size
-- that leaves the int `offset` room to pass it, and an input of no more bytes than stat says, the tool
-- ends within one round more than stat says bytes. It prints nothing, returns 0 exactly where the
-- input has all of those bytes, else 1, and after the preamble it has written a list of bytes in C, up
-- to the closing brace, the semicolon and a line break, from which a reader that rejects a missing
-- comma, prefix or digit reads the input's bytes.
pub bin2c-read_array :
    (getopt : GetOpt) (argv : List (List ℕ)) (input : Bytes) (st_size : ℕ)
    (bin_file header_name array_name : List ℕ)
    → getopt argv ≡ some (bin_file ∷ header_name ∷ array_name ∷ [])
    → length input ≤ st_size
    → st_size + 0x1000 ≤ 2 ^ 31
    → length array_name < 256
    → (array : List ℕ) × (bin2c getopt
          (suc st_size)
          (record { output_opens = true; input = some input; st_size = some st_size })
          argv
        ≡ (
          [],
          returns
              (if length input == st_size then 0 else 1)
              (some (preamble array_name st_size ++ array)),
        ))
      × (read_array between array ≡ some (map low_byte input))
unfolding bin2c
bin2c-read_array getopt argv input st_size bin_file header_name array_name parsed fits room short =
    let r = main-read_array input st_size bin_file header_name array_name fits room short in
    (r.0, rw (parsed, bin2c) (ap (λ x. ([], x)) r.1), r.2)

-- main returns 0 also where nothing of the input is copied: where the output or the input cannot be
-- opened. With too few arguments it exits with 1 before
-- it opens a file.
pub main-errors :
    (k : ℕ) (file : Option Bytes) (size : Option ℕ) (few three : List (List ℕ))
    → length few < 3
    → 3 ≤ length three
    → (main k (record { output_opens = false; input = file; st_size = size }) three
        ≡ returns 0 none)
      × (main k (record { output_opens = true; input = none; st_size = size }) three
          ≡ returns 0 (some []))
      × ((files : Files) → main k files few ≡ returns 1 none)
unfolding main
main-errors k file size few three lt enough = (
  rw (not_ltb (length three) 3 enough) refl,
  rw (not_ltb (length three) 3 enough) refl,
  λ files. rw (lt→ltb (length few) 3 lt) refl,
)
