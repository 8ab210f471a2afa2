-- ===== src/SignTool/Measurement.antt =====
-- What measure_encl of dcap-le/sgxsign.c feeds the digest, against the log that the processor keeps
-- when the enclave is loaded page by page.
use mathlib.Core.List.{append_assoc, append-nil}
use pandora_examples.Prelude.{
  ℕ, zero, suc, ◌+◌, ◌*◌, ◌/◌, ◌%◌, ◌^◌, ◌≤◌, ◌<◌, ◌≡◌, refl, ap, ap₂, sym, ◌∙◌, Bool, true, not,
  [], ◌∷◌, ◌++◌, some, arith, if◌then◌else◌, length, take, drop, length-take, length-drop, lt→ltb,
  not_ltb,
}
use pandora_examples.Prelude.Encode.{sizes}
use pandora_examples.LibC.{Bytes}
use pandora_examples.LibC.Compare.{==-ne}
use pandora_examples.SignTool.{Outcome, ok, failed, ◌>>=◌, Crypto, File, encl_size_loop}
use pandora_examples.SignTool.Measure.{
  mrecreate_bytes, mreadd_bytes, mreextend_bytes, page_flags, size_rounds, mrenclave_update,
  mrenclave_commit, mrenclave_ecreate, mrenclave_eadd, eextend_loop, mrenclave_eextend, pages_loop,
  measure_blob, measure_encl,
}
use pandora_examples.SignTool.EnclaveSize.{Fits, encl_size_loop-Fits}

-- The log of EEXTEND over `k` chunks of 256 bytes from `offset` on: for each its address, then its
-- bytes.
unfoldable pub chunk_log : ℕ → ℕ → Bytes → Bytes
chunk_log zero offset chunks = []
chunk_log (suc k) offset chunks =
    mreextend_bytes offset ++ (take 256 chunks ++ chunk_log k (offset + 256) (drop 256 chunks))

-- The log of the `n` pages from `offset` on: EADD with the flags, then sixteen chunks.
unfoldable pub page_log : ℕ → ℕ → Bytes → Bytes
page_log zero offset pages = []
page_log (suc n) offset pages =
    mreadd_bytes offset (page_flags offset)
    ++ (chunk_log 16 offset (take 4096 pages) ++ page_log n (offset + 4096) (drop 4096 pages))

-- The empty array.
abbrev no_bytes : Bytes
no_bytes = []

take-[] : (n : ℕ) → take n [] ≡ no_bytes
take-[] zero = refl
take-[] (suc n) = refl

drop-[] : (n : ℕ) → drop n [] ≡ no_bytes
drop-[] zero = refl
drop-[] (suc n) = refl

suc_add : (m n : ℕ) → suc (m + n) ≡ suc m + n
suc_add m n = omega arith

take-add : (m n : ℕ) (xs : Bytes) → take m xs ++ take n (drop m xs) ≡ take (m + n) xs
take-add zero n xs = ap (λ k. take k xs) (omega arith)
take-add (suc m) n [] = take-[] n ∙ sym (take-[] (suc m + n))
take-add (suc m) n (x ∷ xs) =
    ap (λ l. x ∷ l) (take-add m n xs) ∙ ap (λ k. take k (x ∷ xs)) (suc_add m n)

drop-drop : (m n : ℕ) (xs : Bytes) → drop n (drop m xs) ≡ drop (m + n) xs
drop-drop zero n xs = ap (λ k. drop k xs) (omega arith)
drop-drop (suc m) n [] = drop-[] n ∙ sym (drop-[] (suc m + n))
drop-drop (suc m) n (x ∷ xs) = drop-drop m n xs ∙ ap (λ k. drop k (x ∷ xs)) (suc_add m n)

pub take-all : (n : ℕ) (xs : Bytes) → length xs ≡ n → take n xs ≡ xs
take-all zero [] e = refl
take-all zero (x ∷ xs) e = absurd (omega (arith, e))
take-all (suc n) [] e = refl
take-all (suc n) (x ∷ xs) e = ap (λ l. x ∷ l) (take-all n xs (omega (arith, e)))

-- The four blocks of a chunk.
chunk_blocks :
    (xs : Bytes)
    → take 64 xs ++ (take 64 (drop 64 xs) ++ (take 64 (drop 128 xs) ++ take 64 (drop 192 xs)))
      ≡ take 256 xs
chunk_blocks xs =
    ap (λ l. take 64 xs ++ (take 64 (drop 64 xs) ++ l))
      (ap (λ l. take 64 (drop 128 xs) ++ take 64 l) (sym (drop-drop 128 64 xs))
        ∙ take-add 64 64 (drop 128 xs))
    ∙ ap (λ l. take 64 xs ++ (take 64 (drop 64 xs) ++ take 128 l)) (sym (drop-drop 64 64 xs))
    ∙ ap (λ l. take 64 xs ++ l) (take-add 64 128 (drop 64 xs))
    ∙ take-add 64 192 xs

chunk_blocks_at :
    (i : ℕ) (page : Bytes)
    → take 64 (drop (i + 0) page)
        ++ (take 64 (drop (i + 64) page)
            ++ (take 64 (drop (i + 128) page) ++ take 64 (drop (i + 192) page)))
      ≡ take 256 (drop i page)
chunk_blocks_at i page =
    rw
      (
        sym (drop-drop i 0 page),
        sym (drop-drop i 64 page),
        sym (drop-drop i 128 page),
        sym (drop-drop i 192 page),
      )
      (chunk_blocks (drop i page))

append_blocks :
    (xs hs ws bs cs ds es : Bytes)
    → (((((xs ++ hs) ++ ws) ++ bs) ++ cs) ++ ds) ++ es
      ≡ xs ++ (hs ++ ((ws ++ (bs ++ (cs ++ ds))) ++ es))
append_blocks xs hs ws bs cs ds es = simp append_assoc

append_page : (xs ws bs cs : Bytes) → ((xs ++ ws) ++ bs) ++ cs ≡ xs ++ (ws ++ (bs ++ cs))
append_page xs ws bs cs = simp append_assoc

pub bind_ok : {A B : Type 0} (m : Outcome A) (a : A) (f : A → Outcome B) → m ≡ ok a → m >>= f ≡ f a
bind_ok m a f e = ap (λ o. o >>= f) e

pub if_true : {A : Type 0} (b : Bool) (x y : A) → b ≡ true → (if b then x else y) ≡ x
if_true b x y e = ap (λ t. if t then x else y) e

pub not_then : {A : Type 0} (b : Bool) (x y : A) → b ≡ true → (if not b then x else y) ≡ y
not_then b x y e = ap (λ t. if not t then x else y) e

length-mrecreate_bytes : (size : ℕ) → length (mrecreate_bytes size) ≡ 64
unfolding mrecreate_bytes
length-mrecreate_bytes size = omega sizes

length-mreadd_bytes : (offset flags : ℕ) → length (mreadd_bytes offset flags) ≡ 64
unfolding mreadd_bytes
length-mreadd_bytes offset flags = omega sizes

length-mreextend_bytes : (offset : ℕ) → length (mreextend_bytes offset) ≡ 64
unfolding mreextend_bytes
length-mreextend_bytes offset = omega sizes

module _ (c : Crypto) (updates : (ctx block : Bytes) → c.digest_update ctx block ≡ true) where
  update_lem : (ctx block : Bytes) → mrenclave_update c ctx block ≡ ok (ctx ++ take 64 block)
  unfolding mrenclave_update
  update_lem ctx block = rw (updates ctx (take 64 block))

  update-header :
      (ctx block : Bytes) → length block ≡ 64 → mrenclave_update c ctx block ≡ ok (ctx ++ block)
  update-header ctx block e = update_lem ctx block ∙ ap (λ b. ok (ctx ++ b)) (take-all 64 block e)

  eextend_loop_lem :
      (k : ℕ) (ctx page : Bytes) (offset i : ℕ)
      → eextend_loop c k ctx offset page i ≡ ok (ctx ++ chunk_log k (offset + i) (drop i page))
  unfolding eextend_loop chunk_log
  eextend_loop_lem zero ctx page offset i = ap ok (sym (append-nil ctx))
  eextend_loop_lem (suc k) ctx page offset i =
      let header = mreextend_bytes (offset + i) in
      let block = λ (j : ℕ). take 64 (drop (i + j) page) in
      let x0 = ctx ++ header in
      let x1 = x0 ++ block 0x00 in
      let x2 = x1 ++ block 0x40 in
      let x3 = x2 ++ block 0x80 in
      let x4 = x3 ++ block 0xC0 in
      bind_ok _ x0 _ (update-header ctx header (length-mreextend_bytes (offset + i)))
      ∙ bind_ok _ x1 _ (update_lem x0 (drop (i + 0x00) page))
      ∙ bind_ok _ x2 _ (update_lem x1 (drop (i + 0x40) page))
      ∙ bind_ok _ x3 _ (update_lem x2 (drop (i + 0x80) page))
      ∙ bind_ok _ x4 _ (update_lem x3 (drop (i + 0xC0) page))
      ∙ eextend_loop_lem k x4 page offset (i + 0x100)
      ∙ ap ok (
          append_blocks ctx header (block 0x00) (block 0x40) (block 0x80) (block 0xC0) _
          ∙ ap₂ (λ chunk later. ctx ++ (header ++ (chunk ++ later))) (chunk_blocks_at i page)
              (ap₂ (chunk_log k) (omega arith) (sym (drop-drop i 256 page))))

  mrenclave_eextend_lem :
      (ctx page : Bytes) (offset : ℕ)
      → mrenclave_eextend c ctx offset page ≡ ok (ctx ++ chunk_log 16 offset page)
  unfolding mrenclave_eextend
  mrenclave_eextend_lem ctx page offset =
      eextend_loop_lem 16 ctx page offset 0
      ∙ ap (λ o. ok (ctx ++ chunk_log 16 o page)) (omega arith)

  mrenclave_eadd_lem :
      (ctx : Bytes) (offset flags : ℕ)
      → mrenclave_eadd c ctx offset flags ≡ ok (ctx ++ mreadd_bytes offset flags)
  unfolding mrenclave_eadd
  mrenclave_eadd_lem ctx offset flags =
      update-header ctx (mreadd_bytes offset flags) (length-mreadd_bytes offset flags)

  pages_loop_lem :
      (n k st_size offset : ℕ) (rest ctx : Bytes)
      → n < k
      → offset + n * 0x1000 ≡ st_size
      → length rest ≡ n * 0x1000
      → pages_loop c k st_size offset rest ctx ≡ ok (ctx ++ page_log n offset rest)
  unfolding pages_loop page_log
  pages_loop_lem n zero st_size offset rest ctx lt e e' = absurd (omega (arith, lt))
  pages_loop_lem zero (suc k) st_size offset rest ctx lt e e' =
      rw (not_ltb offset st_size (omega (arith, e))) (ap ok (sym (append-nil ctx)))
  pages_loop_lem (suc n) (suc k) st_size offset rest ctx lt e e' =
      let within = lt→ltb offset st_size (omega (arith, e)) in
      let size = length-take 4096 rest in
      let whole : length (take 4096 rest) ≡ 4096 = omega (arith, size, e') in
      let added = ctx ++ mreadd_bytes offset (page_flags offset) in
      let extended = added ++ chunk_log 16 offset (take 4096 rest) in
      rw
        (
          within,
          mrenclave_eadd_lem ctx offset (page_flags offset),
          whole,
          mrenclave_eextend_lem added (take 4096 rest) offset,
        )
        (pages_loop_lem n k st_size (offset + 4096) (drop 4096 rest) extended (omega (arith, lt))
            (omega (arith, e)) (omega (arith, e', length-drop 4096 rest))
          ∙ ap ok (append_page ctx _ _ _))

  measure_blob_lem :
      (contents : Bytes) (n s : ℕ)
      → c.digest_init ≡ true
      → encl_size_loop size_rounds 0x1000 (n * 0x1000) ≡ ok s
      → length contents ≡ n * 0x1000
      → measure_blob c (n * 0x1000) contents
        ≡ mrenclave_commit c (mrecreate_bytes s ++ page_log n 0 contents)
  unfolding measure_blob mrenclave_ecreate
  measure_blob_lem contents n s init found whole =
      let created =
        bind_ok _ s
          (λ size. if c.digest_init then mrenclave_update c [] (mrecreate_bytes size) else failed)
          found
        ∙ if_true _ _ _ init
        ∙ update-header [] (mrecreate_bytes s) (length-mrecreate_bytes s) in
      bind_ok _ (mrecreate_bytes s) _ created
      ∙ bind_ok _ (mrecreate_bytes s ++ page_log n 0 contents) _ (
          pages_loop_lem n (n * 0x1000 / 0x1000 + 1) (n * 0x1000) 0 contents (mrecreate_bytes s)
            (omega arith) (omega arith) whole)

-- Where digest updates succeed: for a file that is its `n` > 0 pages, whose stat gives that size, at
-- most 2 ^ 63, measure_encl digests the ECREATE record with the least enclave size that holds the
-- pages, then the EADD record and the sixteen EEXTEND records of every page, contents included, and
-- gives that digest, if it has 32 bytes, with the date of the file.
pub measure_encl-page_log :
    (c : Crypto) (f : File) (contents : Bytes) (n date : ℕ)
    → ((ctx block : Bytes) → c.digest_update ctx block ≡ true)
    → c.digest_create ≡ true
    → c.digest_init ≡ true
    → f.contents ≡ some contents
    → f.st_size ≡ some (n * 0x1000)
    → f.date ≡ some date
    → length contents ≡ n * 0x1000
    → 0 < n
    → n * 0x1000 ≤ 2 ^ 63
    → (s : ℕ) × Fits (n * 0x1000) s
      × (measure_encl c f
          ≡ mrenclave_commit c (mrecreate_bytes s ++ page_log n 0 contents) >>= λ mrenclave.
              ok (mrenclave, date))
unfolding measure_encl
measure_encl-page_log c f contents n date updates create init file size dated whole pos small =
    let found = encl_size_loop-Fits (n * 0x1000) small in
    let nonzero = ==-ne (n * 0x1000) 0 (omega arith) in
    let aligned : (n * 0x1000) % 0x1000 ≡ 0 = omega arith in
    (
      found.0,
      found.2,
      not_then _ _ _ create
          ∙ rw (file, size, nonzero, aligned, dated)
              (ap (λ o. o >>= λ mrenclave. ok (mrenclave, date))
                (measure_blob_lem c updates contents n found.0 init found.1 whole)),
    )
