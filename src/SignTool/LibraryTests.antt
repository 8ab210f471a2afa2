-- ===== src/SignTool/LibraryTests.antt =====
-- The calls around OpenSSL at concrete queues, passwords and heaps.
use pandora_examples.Prelude.{
  ℕ, ◌-◌, ◌≡◌, refl, arith, Bool, false, not, List, [], ◌∷◌, none, some, ◌==◌, if◌then◌else◌,
  length, take,
}
use pandora_examples.LibC.{Bytes}
use pandora_examples.SignTool.{ok, undefined}
use pandora_examples.SignTool.Library.{
  Message, ErrorQueue, check_crypto_errors, pem_passwd_cb, Q1q2Ctx, free_q1q2_ctx, alloc_q1q2_ctx,
}
use pandora_examples.SignTool.Resources.{
  check_crypto_errors-drains, pem_passwd_cb-once, pem_passwd_cb-long, alloc_q1q2_ctx-balanced,
}

-- A queue of as many errors as its number says.
abbrev countdown : ErrorQueue ℕ
countdown = record {
  peek_error = λ n. n;
  get_error_line = λ n. (record { err = n; filename = []; line = 7 }, n - 1);
}

check_crypto_errors-drains_example :
    (r : Bool × ℕ × List Message) × (check_crypto_errors countdown 9 3 ≡ ok r)
    × (r.1 ≡ 0)
    × (length r.2 ≡ 3)
    × (r.0 ≡ not (3 == 0))
check_crypto_errors-drains_example =
    check_crypto_errors-drains countdown (λ n. n)
      (record { empty = λ n e. e; filled = λ n e. e; taken = λ n e. omega arith }) 9 3 (omega arith)

abbrev password : Bytes
password = 49 ∷ 50 ∷ []

pem_passwd_cb-once_runs :
    (buf : Bytes) × (pem_passwd_cb (some password) 4 ≡ ok (some (2, buf), none))
    × (take 2 buf ≡ password)
    × (length buf ≡ 4)
    × (pem_passwd_cb none 4 ≡ ok (none, none))
pem_passwd_cb-once_runs =
    pem_passwd_cb-once password 4 (λ e. omega arith, (λ e. omega arith, tt)) (omega arith)

pem_passwd_cb-long_runs : pem_passwd_cb (some password) 2 ≡ undefined
pem_passwd_cb-long_runs =
    pem_passwd_cb-long password 2 (λ e. omega arith, (λ e. omega arith, tt)) (omega arith)

-- A context whose fifth allocation fails, in a heap without objects.
abbrev partial : Q1q2Ctx
partial = record { bn_ctx = some 1; m = some 2; s = some 3; q1 = some 4; qr = none; q2 = some 5 }

alloc_q1q2_ctx-balanced_example :
    (if (alloc_q1q2_ctx partial (λ x. false)).0
        then free_q1q2_ctx partial (alloc_q1q2_ctx partial (λ x. false)).1
        else (alloc_q1q2_ctx partial (λ x. false)).1)
      3
    ≡ false
alloc_q1q2_ctx-balanced_example =
    alloc_q1q2_ctx-balanced partial (λ x. false) 3
      (λ x e. refl, (λ x e. refl, (λ x e. refl, (λ x e. refl, (λ x e. refl, (λ x e. refl, tt))))))
