-- ===== src/Bin2c/Tests.antt =====
-- Runs of dcap-le/bin2c.c, and its theorems at concrete files.
use pandora_examples.Prelude.{
  ℕ, suc, ◌≡◌, refl, arith, true, false, List, [], ◌∷◌, ◌++◌, map, none, some, drop, if◌then◌else◌,
  ◌==◌,
}
use pandora_examples.Prelude.Options.{GetOpt}
use pandora_examples.Bin2c.{
  codes, returns, hex_digit, hex_byte, print_data, decimal, toupper, preamble, Files, main, bin2c,
  exit_usage,
}
use pandora_examples.Bin2c.RoundTrip.{
  between, next, is_digit, value_of, read_array, low_byte, bin2c-read_array, main-errors,
}

print_runs : print_data 15 (0x0a ∷ 0xff ∷ []) ≡ codes "0x0a,\n\t0xff,"
unfolding print_data hex_byte hex_digit
print_runs = refl

-- No comma between the elements.
read_array_runs :
    (read_array between (codes "\n\t0x01,0xfe,\n};\n") ≡ some (1 ∷ 254 ∷ []))
    × (read_array between (codes "\n\t0x010xfe\n};\n") ≡ none)
unfolding read_array next is_digit value_of
read_array_runs = (refl, refl)

decimal_runs :
    (decimal 20 4096 [] ≡ codes "4096")
    × (decimal 20 0 [] ≡ codes "0")
    × (map toupper (codes "le_9x") ≡ codes "LE_9X")
unfolding decimal toupper
decimal_runs = (refl, refl, refl)

-- A command line without options.
abbrev behind_name : GetOpt
behind_name argv = some (drop 1 argv)

abbrev no_files : Files
no_files = record { output_opens = false; input = none; st_size = none }

-- A file that is shorter than stat says.
bin2c-read_array_example :
    (array : List ℕ) × (bin2c behind_name
        (suc 4)
        (record { output_opens = true; input = some (1 ∷ 254 ∷ []); st_size = some 4 })
        (codes "bin2c" ∷ codes "le.bin" ∷ codes "le.h" ∷ codes "le" ∷ [])
      ≡ ([], returns (if 2 == 4 then 0 else 1) (some (preamble (codes "le") 4 ++ array))))
    × (read_array between array ≡ some (map low_byte (1 ∷ 254 ∷ [])))
bin2c-read_array_example =
    bin2c-read_array behind_name (codes "bin2c" ∷ codes "le.bin" ∷ codes "le.h" ∷ codes "le" ∷ [])
      (1 ∷ 254 ∷ []) 4 (codes "le.bin") (codes "le.h") (codes "le") refl (omega arith) (omega arith)
      (omega arith)

-- An option, or too few arguments.
bin2c_runs :
    (bin2c (λ argv. none) 9 no_files (codes "b" ∷ codes "-x" ∷ [])
      ≡ (codes "Usage: b <bin_file> <header_name> <array_name>\n", returns 1 none))
    × (bin2c behind_name 9 no_files (codes "b" ∷ codes "le.bin" ∷ [])
        ≡ (codes "Usage: b <bin_file> <header_name> <array_name>\n", returns 1 none))
unfolding bin2c exit_usage
bin2c_runs = (refl, refl)

main-errors_runs :
    (main 9
        (record { output_opens = false; input = some (7 ∷ []); st_size = some 1 })
        ([] ∷ [] ∷ [] ∷ [])
      ≡ returns 0 none)
    × (main 9 (record { output_opens = true; input = none; st_size = some 1 }) ([] ∷ [] ∷ [] ∷ [])
        ≡ returns 0 (some []))
    × ((files : Files) → main 9 files [] ≡ returns 1 none)
main-errors_runs =
    main-errors 9 (some (7 ∷ [])) (some 1) [] ([] ∷ [] ∷ [] ∷ []) (omega arith) (omega arith)
