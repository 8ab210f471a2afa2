-- ===== src/Lib.antt =====
-- Enclave example programs: two self-test enclaves, the launch enclave with the tools that sign it
-- and embed it, a skeleton enclave, an example for the Intel SDK, and enclaves for Sancus.
--
-- The parts and their files, with paths from the repository's root.
--
-- - Machine: the memory that a C function of an enclave and the host's threads share. A command
--   takes a Machine to a value and a Machine. Before each access that goes through a pointer, or
--   to an object that is named by its address, the host may rewrite memory as it likes (Host); the
--   access is then logged as an Event. A call is logged, and the code that is called is not
--   followed. Locals on the enclave's stack are not accesses, but for those of encl_get_report,
--   which the processor is given by address; so is the volatile op_type of test_encl.c left out of
--   memory, which is right for hosts that cannot change the enclave's memory. Machine/Bytes has
--   the bytes of words, Machine/Hoare the rules for what each access keeps, Machine/Quiet the runs
--   with a host that does nothing.
-- - Selftest: pandora-sgx-selftest/test_encl.c and defines.h. FIX_SANITIZATION is the field `fix`
--   of an Env, so each theorem says for which levels it holds; the Env also has the addresses that
--   the linker gives. Each do_encl_op_ function has the name it has in C; `checked` is the
--   conditional check that most of them begin with, `call_op` the call through encl_op_array.
--   Selftest/Layout is about the range check, Selftest/Isolation about what a run can touch and
--   call, by a Policy for each sanitisation level (Body, Integrity, Table), Selftest/Buffer about
--   the buffer operations, Selftest/Register about runs of them with the host acting in between,
--   against an abstract register, Selftest/Code about calls, and Selftest/Attacks about hosts that
--   break the lower levels. Selftest/Small has the bodies of nop_encl.c, pointer-deref.c and
--   indirect-jump.c.
-- - LinuxSelftest: linux-sgx-selftest/test_encl.c and defines.h, the enclave that the other one
--   was made from, on the same Env. LinuxSelftest/Unchecked compares the two.
-- - LibC: dcap-le/string.c, on arrays of bytes that do not overlap. An int is its bits: a negative
--   one is at least 2 ^ 31.
-- - SgxArch: the structures of dcap-le/include/asm/sgx_arch.h, as records, and their bytes; those
--   that only the processor keeps are in SgxArch/Pages, its other flags in SgxArch/Flags. A
--   reserved array of words is a list of numbers.
-- - LaunchEnclave: dcap-le/main.c, main.h and whitelist.h. The processor's RDRAND, EREPORT and
--   EGETKEY and the CMAC of mbed TLS are fields of a Platform; none of them is assumed to succeed,
--   unless a theorem says so. A request is taken as the enclave copies it; `result_seen` is what
--   the enclave reads back from the shared result. LaunchEnclave/Signers is about the list of
--   signers, LaunchEnclave/Random about the key id, LaunchEnclave/Result about the answer, and
--   LaunchEnclave/Policy about the token.
-- - SignTool: dcap-le/sgxsign.c. OpenSSL's digest is a Crypto, whose context is the list of the
--   bytes that went in, and its keys and big numbers are an OpenSsl; a File is what the tool reads
--   of one, and a Disk has the files by path. SignTool/Measure has the measuring functions and
--   SignTool/Sign the others, with the commands. SignTool/EnclaveSize is about the size loop,
--   SignTool/Measurement about the digest, SignTool/Reversal about reverse_bytes,
--   SignTool/Quotients about calc_q1q2, for big numbers that are exact as OpenSSL documents, and
--   SignTool/Detached about signing elsewhere. SignTool/Library has the functions around OpenSSL,
--   its queue of errors, the pass phrase and the context of the quotients, which
--   SignTool/Resources is about.
-- - Bin2c: dcap-le/bin2c.c. A text is the list of its characters' codes, and the output file is
--   the text that was written to it. Bin2c/RoundTrip reads the array back, by a reader of the C
--   initialiser that rejects what is none.
-- - Inclavare: inclavare/encl.c with sgx_call.h, on the shared machine; the linker's addresses,
--   the host and the processor's EREPORT are fields of an Env. Inclavare/Arch has the structures
--   of arch.h and Inclavare/Flags its flags; Inclavare/Layout compares the structures with those
--   of SgxArch, Inclavare/Sizes has their sizes, and Inclavare/Calls is about the two calls.
--   Inclavare/Defines has the macros of defines.h.
-- - IntelSdk: intel-sdk/App/App.cpp, and in IntelSdk/Enclave intel-sdk/Enclave/Enclave.cpp. The
--   SDK's status codes and calls are fields of an Sdk. IntelSdk/Messages is about what is printed.
-- - Sancus: sancus/full_encl/fib/main.c and fib2/main.c, where an int has sixteen bits; signed
--   sums are taken to wrap, as the processor adds. Sancus/Fib compares them. Sancus/Buffer has
--   copy_data_from_buffer with the three checks of t2w_4_vulnerable_sancus_is_outside_sm,
--   t2w_4_fixed_sancus_is_outside_sm (both in sancus/t2w) and t2w_with_programming_error (in
--   sancus/full_encl), as the list of the words it reads, and Sancus/Reads is about them; the
--   library's sancus_is_outside_sm is a parameter. Sancus/Support has the modules and the loader
--   of sancus/t2w/t2w_3_soteria_loader, Sancus/Reactive the input handler of
--   t2w_2_authentic_execution (alloca is taken to take exactly the bytes asked for, without
--   rounding), Sancus/PrivateData the enclave of sancus/full_encl/comp_gen_test_2 as a state
--   machine, and Sancus/Arithmetic entry points that only compute. Sancus/Mains has the main
--   functions of full_encl and t2w, on a Library that acts on the system's state.
-- - Sancus/Asm: the enclaves of sancus/cfsan and sancus/ptrsan, which are written in assembly, as
--   lists of the MSP430 instructions that they use, each at the address at which its main.elf is
--   linked; the sizes of the instructions, and so the end of each section, are tested against the
--   linker's. `run` takes an enclave from a state of the processor (Cpu) to its Exit: a jump out
--   of its section, running over its end, or a jump to where no instruction starts. A code word
--   that an enclave reads is what the memory of that state holds. The code is kept apart from that
--   memory, every word of which holds what is stored to it: a store to an enclave's own code would
--   change no instruction, so the theorems about runs that may store through the caller's
--   registers take these to point off the code, or are about what is decided before the store. The
--   access control of Sancus is not modelled: an access that the processor would refuse is made.
--   Sancus/Asm/Normal and Broken have the enclaves of cfsan, whose control flow Flow is about, and
--   Pointers those of ptrsan, whose accesses Touched is about. A function in C that an enclave
--   calls (foo_c.c) is taken as main.elf has it compiled. Sancus/Asm/Main has the main functions,
--   and Main/Results what they print.
-- - Prelude: shared names, Boolean tests, lists measured by native numbers, little-endian bytes;
--   in Prelude/Options what getopt gives the two tools, which take no options.
--
-- Bounds and fuel. Pointers and size_t are numbers below 2 ^ 64 and wrap (Prelude/Words); uint32_t
-- results are taken modulo 2 ^ 32. Loops with a fixed number of rounds recur on that number. Four
-- loops of the signing tool and one of bin2c take fuel. The size loop doubles from 2 ^ 12, so 64
-- rounds pass every size below 2 ^ 64 (`size_rounds`); without fuel left it gives `no_return`. The
-- loop over the pages has one round for each page and one to end. The loop of reverse_bytes has as
-- many rounds as the array has bytes, of which it uses half. The loop over OpenSSL's errors ends
-- in one round more than there are errors, and the copy loop of bin2c in one round more than stat
-- says bytes, for sizes that its int `offset`, which wraps, can pass. The loop of fib2/main.c
-- takes fuel too, one round more than its argument, and never ends for the greatest int. A run of
-- a Sancus enclave in assembly takes at most twenty instructions; none of the enclaves has a loop.
--
-- Not modelled: dcap-le/cmac.c (a copy of mbed TLS code), the bootstrap assembly, the ioctl
-- declarations of inclavare/sgx.h, open-enclave, and of sancus the main function of t2w_3, whose
-- loader breaks off, the two of cfsan where the code behind the enclave is not a return
-- (rep_asm_bb_cross_enclave_boundary_2 and 4), and the entry stubs. The messages of the signing
-- tool and those of perror are left out.
pub mod Bin2c
pub mod Inclavare
pub mod IntelSdk
pub mod LaunchEnclave
pub mod LibC
pub mod LinuxSelftest
pub mod Machine
pub mod Prelude
pub mod Sancus
pub mod Selftest
pub mod SgxArch
pub mod SignTool
