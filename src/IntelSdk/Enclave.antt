-- ===== src/IntelSdk/Enclave.antt =====
-- The enclave of intel-sdk/Enclave/Enclave.cpp. Its ecalls load through the pointer that they are
-- given; the check that edger8r generates for one of them from Enclave.edl is not part of it.
use Prim.Native.String.{String}
use pandora_examples.Prelude.{ℕ, ◌≡◌, ◌∙◌, arith, List}
use pandora_examples.IntelSdk.{ocall_print_string}
use pandora_examples.Machine.{Host, Machine, Cmd, peek, bytes_at, load_word}
use pandora_examples.Machine.Quiet.{QuietFrom, load_word-quiet}

-- `g_char = *((volatile char*) u_pt);`: the value of `g_char` after the call
unfoldable pub ecall_vulnerable : Host → ℕ → Cmd ℕ
ecall_vulnerable h u_pt = load_word h 1 u_pt

unfoldable pub ecall_null_vulnerable : Host → ℕ → Cmd ℕ
ecall_null_vulnerable h u_pt = load_word h 1 u_pt

-- printf: the text is vsnprintf's, within a buffer of BUFSIZ bytes, and the host prints it. What was
-- printed before stands in the list.
unfoldable pub printf :
    (String → List String → String) → String → List String → List String → ℕ × List String
unfolding ocall_print_string
printf vsnprintf fmt arguments printed = (0, ocall_print_string (vsnprintf fmt arguments) printed)

-- While the host leaves memory alone, both ecalls put the byte at the given address into g_char,
-- one inside the enclave or at address 0 included, and change no byte of memory.
pub ecalls-peek :
    (h : Host) (u_pt : ℕ) (s : Machine)
    → QuietFrom 0 h
    → ((ecall_vulnerable h u_pt s).0 ≡ peek s.mem u_pt)
      × ((ecall_null_vulnerable h u_pt s).0 ≡ peek s.mem u_pt)
      × ((ecall_vulnerable h u_pt s).1.mem ≡ s.mem)
      × ((ecall_null_vulnerable h u_pt s).1.mem ≡ s.mem)
unfolding ecall_vulnerable ecall_null_vulnerable bytes_at
ecalls-peek h u_pt s quiet =
    let r = load_word-quiet 0 h quiet 1 u_pt s (omega arith) in
    (r.0 ∙ omega arith, r.0 ∙ omega arith, r.1, r.1)
