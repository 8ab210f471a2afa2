-- ===== src/Bin2c.antt =====
-- The tool that writes a binary file as an array of C, dcap-le/bin2c.c. A text is the list of its
-- characters' codes; printf and toupper work as in the C locale.
pub mod RoundTrip
mod Tests
use Prim.Native.Char.{code}
use Prim.Native.String.{String}
use pandora_examples.Prelude.{
  ℕ, zero, suc, ◌+◌, ◌-◌, ◌*◌, ◌/◌, ◌%◌, ◌^◌, Bool, ◌&&◌, ◌||◌, List, [], ◌∷◌, ◌++◌, map, Option,
  none, some, ltb, leb, ◌==◌, if◌then◌else◌, length, get_or, take, drop,
}
use pandora_examples.Prelude.Options.{GetOpt}
use pandora_examples.LibC.{Bytes}

-- `String` has its own `[]` and `∷`.
abbrev pub codes : String → List ℕ
codes String.[] = []
codes (String.◌∷◌ c s) = code c ∷ codes s

-- How the program ends: with a result and what the output file holds if it was opened, without a
-- meaning in C, or not within the rounds given to its loop.
pub data Result : Type 0 where
  returns : ℕ → Option (List ℕ) → Result
  overflows : Result
  no_return : Result

-- The lines of print_lic; each ends with a newline.
unfoldable pub license : List (List ℕ)
license =
    codes "/**"
    ∷ codes "Copyright (C) 2011-2019 Intel Corporation. All rights reserved."
    ∷ []
    ∷ codes "Redistribution and use in source and binary forms, with or without"
    ∷ codes "modification, are permitted provided that the following conditions"
    ∷ codes "are met:"
    ∷ []
    ∷ codes "  * Redistributions of source code must retain the above copyright"
    ∷ codes "    notice, this list of conditions and the following disclaimer."
    ∷ codes "  * Redistributions in binary form must reproduce the above copyright"
    ∷ codes "    notice, this list of conditions and the following disclaimer in"
    ∷ codes "    the documentation and/or other materials provided with the"
    ∷ codes "    distribution."
    ∷ codes "  * Neither the name of Intel Corporation nor the names of its"
    ∷ codes "    contributors may be used to endorse or promote products derived"
    ∷ codes "    from this software without specific prior written permission."
    ∷ []
    ∷ codes "THIS SOFTWARE IS PROVIDED BY THE COPYRIGHT HOLDERS AND CONTRIBUTORS"
    ∷ codes "\"AS IS\" AND ANY EXPRESS OR IMPLIED WARRANTIES, INCLUDING, BUT NOT"
    ∷ codes "LIMITED TO, THE IMPLIED WARRANTIES OF MERCHANTABILITY AND FITNESS FOR"
    ∷ codes "A PARTICULAR PURPOSE ARE DISCLAIMED. IN NO EVENT SHALL THE COPYRIGHT"
    ∷ codes "OWNER OR CONTRIBUTORS BE LIABLE FOR ANY DIRECT, INDIRECT, INCIDENTAL,"
    ∷ codes "SPECIAL, EXEMPLARY, OR CONSEQUENTIAL DAMAGES (INCLUDING, BUT NOT"
    ∷ codes "LIMITED TO, PROCUREMENT OF SUBSTITUTE GOODS OR SERVICES; LOSS OF USE,"
    ∷ codes "DATA, OR PROFITS; OR BUSINESS INTERRUPTION) HOWEVER CAUSED AND ON ANY"
    ∷ codes "THEORY OF LIABILITY, WHETHER IN CONTRACT, STRICT LIABILITY, OR TORT"
    ∷ codes "(INCLUDING NEGLIGENCE OR OTHERWISE) ARISING IN ANY WAY OUT OF THE USE"
    ∷ codes "OF THIS SOFTWARE, EVEN IF ADVISED OF THE POSSIBILITY OF SUCH DAMAGE."
    ∷ codes "**/"
    ∷ []
    ∷ []

abbrev pub unlines : List (List ℕ) → List ℕ
unlines [] = []
unlines (l ∷ ls) = l ++ 10 ∷ unlines ls

unfoldable pub print_lic : List ℕ
unfolding license
print_lic = unlines license

unfoldable pub toupper : ℕ → ℕ
toupper c = if leb 97 c && leb c 122 then c - 32 else c

-- `%ld` for a number of at most `k` digits, before the text `rest`.
unfoldable pub decimal : ℕ → ℕ → List ℕ → List ℕ
decimal zero n rest = rest
decimal (suc k) n rest =
    let text = (48 + n % 10) ∷ rest in
    let more = decimal k (n / 10) text in if ltb n 10 then text else more

-- A digit of `%x`
unfoldable pub hex_digit : ℕ → ℕ
hex_digit d = if ltb d 10 then 48 + d else 87 + d

-- `0x%.2x,` of `b & 0xff`
unfoldable pub hex_byte : ℕ → List ℕ
unfolding hex_digit
hex_byte b = 48 ∷ 120 ∷ hex_digit (b % 2 ^ 8 / 16) ∷ hex_digit (b % 2 ^ 8 % 16) ∷ 44 ∷ []

-- The inner loop, from index `i` on.
unfoldable pub print_data : ℕ → Bytes → List ℕ
unfolding hex_byte
print_data i [] = []
print_data i (b ∷ bs) =
    (if i % 16 == 0 then 10 ∷ 9 ∷ [] else []) ++ (hex_byte b ++ print_data (suc i) bs)

-- `offset < sb.st_size`, for an int against a size that is not negative.
unfoldable pub below_size : ℕ → ℕ → Bool
below_size offset st_size = leb (2 ^ 31) offset || ltb offset st_size

-- The outer loop in at most `k` rounds, where `offset` is an int, which is taken to wrap, and `input` is what is left of the file: what it prints, and
-- what it adds to `bytes_read`.
unfoldable pub copy_loop : ℕ → ℕ → ℕ → Bytes → Option (List ℕ × ℕ)
unfolding print_data below_size
copy_loop zero offset st_size input = none
copy_loop (suc k) offset st_size input =
    let chunk = take 0x1000 input in
    let rest = copy_loop k ((offset + 0x1000) % 2 ^ 32) st_size (drop 0x1000 input) in
    if below_size offset st_size
    then if length chunk == 0
      then some ([], 0)
      else elim rest [ none ↦ none | some r ↦ some (print_data 0 chunk ++ r.0, length chunk + r.1) ]
    else some ([], 0)

-- What is printed before the bytes.
unfoldable pub preamble : List ℕ → ℕ → List ℕ
unfolding print_lic toupper decimal
preamble array_name st_size =
    let upper_name = map toupper array_name in
    print_lic
    ++ (codes "#pragma once\n\n"
        ++ (codes "#define "
            ++ (upper_name
                ++ (codes "_LEN "
                    ++ decimal 20 st_size (
                        10
                        ∷ (codes "const int "
                            ++ (array_name
                                ++ (codes "_length = "
                                    ++ (upper_name
                                        ++ (codes "_LEN;\n\n"
                                            ++ (codes "const unsigned char "
                                                ++ (array_name
                                                    ++ (91
                                                        ∷ (upper_name
                                                            ++ codes "_LEN] = \n{"))))))))))))))

-- What is printed after the preamble: the bytes and the end.
abbrev pub closing : List ℕ
closing = codes "\n};\n"

-- The files as the program finds them: whether the output can be opened, what the input holds if it
-- can be, and what stat says of its size.
pub record Files : Type 0 where
  pub output_opens : Bool
  pub input : Option Bytes
  pub st_size : Option ℕ

-- `res` after the copy
abbrev pub copy_result : ℕ → ℕ → ℕ
copy_result bytes_read st_size = if ltb bytes_read st_size then 1 else 0

-- main once the files are open, with the copy in at most `k` rounds. `upper_name` holds
-- 256 characters with its zero.
unfoldable pub write_array : ℕ → List ℕ → ℕ → Bytes → Result
unfolding copy_loop preamble
write_array k array_name st_size input =
    if leb 256 (length array_name) then overflows else elim (copy_loop k 0 st_size input) [
      | none ↦ no_return
      | some r ↦
          returns (copy_result r.1 st_size) (some (preamble array_name st_size ++ (r.0 ++ closing)))
    ]

-- main for the arguments <bin_file> <header_name> <array_name>, of which the first two are `files`: too few
-- of them end it by exit(1), and a file that cannot be opened, or has no size, with the `res` of that
-- moment.
unfoldable pub main : ℕ → Files → List (List ℕ) → Result
unfolding write_array
main k files arguments =
    if ltb (length arguments) 3
    then returns 1 none
    else if files.output_opens
    then elim files.input [
      | none ↦ returns 0 (some [])
      | some input ↦ elim files.st_size [
        | none ↦ returns (2 ^ 32 - 1) (some [])
        | some st_size ↦ write_array k (get_or arguments 2 []) st_size input
      ]
    ]
    else returns 0 none

-- The message of exit_usage, and the result that it ends the program with.
unfoldable pub exit_usage : List ℕ → List ℕ × Result
exit_usage program = (
  codes "Usage: " ++ (program ++ codes " <bin_file> <header_name> <array_name>\n"),
  returns 1 none,
)

-- main from its start, with what exit_usage prints: the name of the program is the first argument.
unfoldable pub bin2c : GetOpt → ℕ → Files → List (List ℕ) → List ℕ × Result
unfolding exit_usage main
bin2c getopt k files argv =
    let program = get_or argv 0 [] in
    elim (getopt argv) [
      | none ↦ exit_usage program
      | some arguments ↦
          if ltb (length arguments) 3 then exit_usage program else ([], main k files arguments)
    ]
