-- ===== src/IntelSdk/Messages.antt =====
-- What print_error_message and main of intel-sdk/App/App.cpp print.
use pandora_examples.Prelude.{
  true, ℕ, zero, suc, ◌+◌, ◌≡◌, ◌≢◌, refl, ap, sym, ◌∙◌, subst, arith, false, some, some_eq, List,
  [], ◌∷◌, ◌++◌, get_elem?, ◌==◌, Bool-cases, inl, inr,
}
use pandora_examples.IntelSdk.{
  Line, SgxError, unexpected, invalid_parameter, out_of_memory, enclave_lost, invalid_enclave,
  invalid_enclave_id, invalid_signature, out_of_epc, no_device, memory_map_conflict,
  invalid_metadata, device_busy, invalid_version, invalid_attribute, enclave_file_access,
  ndebug_enclave, SgxErrlist, sgx_errlist, error, prompt, Sdk, lines_of, print_from,
  print_error_message, initialize_enclave, main,
}

-- The place of an error in the table.
rank : SgxError → ℕ
rank unexpected = 0
rank invalid_parameter = 1
rank out_of_memory = 2
rank enclave_lost = 3
rank invalid_enclave = 4
rank invalid_enclave_id = 5
rank invalid_signature = 6
rank out_of_epc = 7
rank no_device = 8
rank memory_map_conflict = 9
rank invalid_metadata = 10
rank device_busy = 11
rank invalid_version = 12
rank invalid_attribute = 13
rank enclave_file_access = 14
rank ndebug_enclave = 15

-- The entries are those from the `n`th place on.
Ranked : ℕ → List SgxErrlist → Type 0
Ranked n [] = Unit
Ranked n (e ∷ es) = (rank e.err ≡ n) × Ranked (suc n) es

sgx_errlist-Ranked : Ranked 0 sgx_errlist
unfolding sgx_errlist Ranked rank
sgx_errlist-Ranked = (
  refl,
  (
    refl,
    (
      refl,
      (
        refl,
        (
          refl,
          (
            refl,
            (refl, (refl, (refl, (refl, (refl, (refl, (refl, (refl, (refl, (refl, tt)))))))))),
          ),
        ),
      ),
    ),
  ),
)

-- An entry for the error `x` in the table.
abbrev pub Listed : SgxError → SgxErrlist → Type 0
Listed x e = (i : ℕ) × (get_elem? sgx_errlist i ≡ some e) × (e.err ≡ x)

listed : (x : SgxError) → (e : SgxErrlist) × Listed x e
unfolding sgx_errlist
listed unexpected = (_, (0, refl, refl))
listed invalid_parameter = (_, (1, refl, refl))
listed out_of_memory = (_, (2, refl, refl))
listed enclave_lost = (_, (3, refl, refl))
listed invalid_enclave = (_, (4, refl, refl))
listed invalid_enclave_id = (_, (5, refl, refl))
listed invalid_signature = (_, (6, refl, refl))
listed out_of_epc = (_, (7, refl, refl))
listed no_device = (_, (8, refl, refl))
listed memory_map_conflict = (_, (9, refl, refl))
listed invalid_metadata = (_, (10, refl, refl))
listed device_busy = (_, (11, refl, refl))
listed invalid_version = (_, (12, refl, refl))
listed invalid_attribute = (_, (13, refl, refl))
listed enclave_file_access = (_, (14, refl, refl))
listed ndebug_enclave = (_, (15, refl, refl))

-- Different errors have different codes.
abbrev pub Distinct : {World : Type 0} → Sdk World → Type 0
Distinct sdk = (x y : SgxError) → sdk.code x ≡ sdk.code y → x ≡ y

module _ {World : Type 0} (sdk : Sdk World) where
  skips :
      (ret : ℕ) (e : SgxErrlist) (es : List SgxErrlist)
      → ret ≢ sdk.code e.err
      → print_from sdk ret (e ∷ es) ≡ print_from sdk ret es
  unfolding print_from
  skips ret e es differ = ground arith

  stops :
      (e : SgxErrlist) (es : List SgxErrlist)
      → print_from sdk (sdk.code e.err) (e ∷ es) ≡ lines_of e
  unfolding print_from
  stops e es = ground arith

  found :
      (es : List SgxErrlist) (n i : ℕ) (e : SgxErrlist)
      → Distinct sdk
      → Ranked n es
      → get_elem? es i ≡ some e
      → (print_from sdk (sdk.code e.err) es ≡ lines_of e) × (rank e.err ≡ n + i)
  unfolding Ranked
  found [] n i e distinct ranked here = absurd (cc)
  found (x ∷ es) n zero e distinct ranked here =
      let same = some_eq x e here in
      (
        subst (λ y. print_from sdk (sdk.code y.err) (x ∷ es) ≡ lines_of y) same (stops x es),
        ap (λ y. rank y.err) (sym same) ∙ ranked.0 ∙ omega arith,
      )
  found (x ∷ es) n (suc i) e distinct ranked here =
      let rest = found es (suc n) i e distinct ranked.1 here in
      (
        skips (sdk.code e.err) x es
              (λ same. omega (arith, rest.1, ranked.0, ap rank (distinct e.err x.err same)))
            ∙ rest.0,
        rest.1 ∙ omega arith,
      )

  print-Listed :
      (x : SgxError)
      → Distinct sdk
      → (e : SgxErrlist) × Listed x e × (print_error_message sdk (sdk.code x) ≡ lines_of e)
  unfolding print_error_message
  print-Listed x distinct =
      let (e, entry) = listed x in
      (
        e,
        entry,
        subst (λ y. print_from sdk (sdk.code y) sgx_errlist ≡ lines_of e) entry.2
            (found sgx_errlist 0 entry.0 e distinct sgx_errlist-Ranked entry.1).0,
      )

  print_unlisted :
      (ret : ℕ) (es : List SgxErrlist)
      → ((y : SgxError) → ret ≢ sdk.code y)
      → print_from sdk ret es ≡ error "Unexpected error occurred." ∷ []
  unfolding print_from
  print_unlisted ret [] other = refl
  print_unlisted ret (e ∷ es) other = skips ret e es (other e.err) ∙ print_unlisted ret es other

  -- A status that is not success.
  initialize_enclave-fails :
      (w : World)
      → (sdk.create_enclave w).0 ≢ sdk.sgx_success
      → (initialize_enclave sdk w).0 ≡ false
        × (initialize_enclave sdk w).1 ≡ print_error_message sdk (sdk.create_enclave w).0
        × (initialize_enclave sdk w).3 ≡ (sdk.create_enclave w).2
  unfolding initialize_enclave
  initialize_enclave-fails w failed =
      elim (Bool-cases ((sdk.create_enclave w).0 == sdk.sgx_success)) [
        | inl same ↦ absurd (failed (ground arith))
        | inr differ ↦ rw differ (refl, refl, refl)
      ]

  -- Where the creation fails: what main returns and prints, and that it leaves the system as the
  -- creation left it.
  main-fails :
      (w : World) (printed : List Line)
      → (sdk.create_enclave w).0 ≢ sdk.sgx_success
      → print_error_message sdk (sdk.create_enclave w).0 ≡ printed
      → ((main sdk w).0 ≡ false)
        × ((main sdk w).1 ≡ printed ++ prompt ∷ [])
        × ((main sdk w).2 ≡ (sdk.create_enclave w).2)
  unfolding main
  main-fails w printed failed is =
      let i = initialize_enclave-fails w failed in
      (rw i.0 refl, rw i.0 (ap (λ l. l ++ prompt ∷ []) (i.1 ∙ is)), rw i.0 i.2)

  main-succeeds :
      (w : World)
      → (sdk.create_enclave w).0 ≡ sdk.sgx_success
      → ((main sdk w).0 ≡ true)
        × ((main sdk w).2
            ≡ sdk.destroy_enclave (sdk.create_enclave w).1 (
                sdk.ecall_null_vulnerable
                  (sdk.create_enclave w).1
                  (sdk.ecall_vulnerable (sdk.create_enclave w).1 (sdk.create_enclave w).2)))
  unfolding main initialize_enclave
  main-succeeds w created =
      let same : ((sdk.create_enclave w).0 == sdk.sgx_success) ≡ true = ground arith in
      (rw same refl, rw same refl)

  -- Every way that main ends, where different errors have different codes. Where the enclave is created, it
  -- returns 0, and the system is as the two ecalls and then the destruction leave it, each for the
  -- identifier of the creation. Where the creation ends with a named error, whose code is not that of
  -- success, it does not return 0, prints the lines of that error's entry in the table and the prompt,
  -- and leaves the system as the creation left it; with any other status that is not success, the
  -- line is that an unexpected error occurred.
  pub main_lem :
      (good bad other : World) (x : SgxError)
      → Distinct sdk
      → sdk.code x ≢ sdk.sgx_success
      → (sdk.create_enclave good).0 ≡ sdk.sgx_success
      → (sdk.create_enclave bad).0 ≡ sdk.code x
      → (sdk.create_enclave other).0 ≢ sdk.sgx_success
      → ((y : SgxError) → (sdk.create_enclave other).0 ≢ sdk.code y)
      → (((main sdk good).0 ≡ true)
          × ((main sdk good).2
              ≡ sdk.destroy_enclave (sdk.create_enclave good).1 (
                  sdk.ecall_null_vulnerable (sdk.create_enclave good).1 (
                    sdk.ecall_vulnerable (sdk.create_enclave good).1 (sdk.create_enclave good).2))))
        × ((e : SgxErrlist) × Listed x e
            × ((main sdk bad).0 ≡ false)
            × ((main sdk bad).1 ≡ lines_of e ++ prompt ∷ [])
            × ((main sdk bad).2 ≡ (sdk.create_enclave bad).2))
        × (((main sdk other).0 ≡ false)
            × ((main sdk other).1 ≡ error "Unexpected error occurred." ∷ prompt ∷ [])
            × ((main sdk other).2 ≡ (sdk.create_enclave other).2))
  unfolding print_error_message
  main_lem good bad other x distinct named created status odd unlisted =
      let (e, entry, printed) = print-Listed x distinct in
      let failed =
        main-fails bad (lines_of e) (λ same. named (sym status ∙ same))
          (ap (print_error_message sdk) status ∙ printed) in
      (
        main-succeeds good created,
        (e, entry, failed.0, failed.1, failed.2),
        main-fails other (error "Unexpected error occurred." ∷ []) odd
            (print_unlisted (sdk.create_enclave other).0 sgx_errlist unlisted),
      )
