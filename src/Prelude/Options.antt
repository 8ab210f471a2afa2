-- ===== src/Prelude/Options.antt =====
-- The command line of a program that takes no options.
use pandora_examples.Prelude.{ℕ, List, Option}

-- getopt of the C library with the option string "", called until it gives -1: `none` where a call
-- before that gives anything else, and otherwise the arguments from `optind` on.
abbrev pub GetOpt : Type 0
GetOpt = List (List ℕ) → Option (List (List ℕ))
