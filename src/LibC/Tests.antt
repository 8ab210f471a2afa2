-- ===== src/LibC/Tests.antt =====
-- The functions of dcap-le/string.c at concrete arrays, and their theorems there.
use pandora_examples.Prelude.{
  ◌+◌, ◌%◌, ◌^◌, ◌≤◌, ◌<◌, ◌≡◌, ◌↔◌, refl, [], ◌∷◌, ◌++◌, true, arith, take, drop, replicate,
}
use pandora_examples.LibC.{Bytes, memset, memcpy, memcmp, strcmp}
use pandora_examples.LibC.Arrays.{memset-memcpy_lem}
use pandora_examples.LibC.Compare.{memcmp-negative, string_ltb, memcmp-strcmp_iff}

abbrev low : Bytes
low = 1 ∷ 2 ∷ 3 ∷ []

abbrev high : Bytes
high = 1 ∷ 0x80 ∷ 3 ∷ []

runs :
    (memset low 0x1ff 2 ≡ 0xff ∷ 0xff ∷ 3 ∷ [])
    × (memcpy low high 2 ≡ 1 ∷ 0x80 ∷ 3 ∷ [])
    × (memcmp low high 1 ≡ 0)
    × (memcmp low high 3 ≡ 2 + 128)
unfolding memset memcpy memcmp
runs = (refl, refl, refl, refl)

-- strcmp orders the same arrays the other way.
strcmp_runs : (strcmp high low ≡ 126) × (strcmp low low ≡ 0)
unfolding strcmp
strcmp_runs = (refl, refl)

memset-memcpy_runs :
    (memset low 0x1ff 2 ≡ replicate 2 (0x1ff % 2 ^ 8) ++ drop 2 low)
    × (memcpy low high 2 ≡ take 2 high ++ drop 2 low)
memset-memcpy_runs = memset-memcpy_lem low high 0x1ff 2 (omega arith) (omega arith)

memcmp-negative_example :
    (2 ^ 31 ≤ memcmp ((1 ∷ []) ++ 0x80 ∷ 3 ∷ []) ((1 ∷ []) ++ 2 ∷ 3 ∷ []) 3)
    ↔ ((0x80 + 128) % 256 < (2 + 128) % 256)
memcmp-negative_example =
    memcmp-negative (1 ∷ []) (3 ∷ []) (3 ∷ []) 0x80 2 3 (omega arith) (omega arith) (omega arith)
      (omega arith)

memcmp-strcmp_iff_example :
    ((memcmp low high 3 ≡ 0) ↔ (take 3 low ≡ take 3 high))
    × ((strcmp low high ≡ 0) ↔ (low ≡ high))
    × ((2 ^ 31 ≤ strcmp low high) ↔ (string_ltb low high ≡ true))
memcmp-strcmp_iff_example =
    memcmp-strcmp_iff 3 low high low high (omega arith) (omega arith) (omega arith) (omega arith)
      (omega arith) (omega arith)
