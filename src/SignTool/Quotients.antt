-- ===== src/SignTool/Quotients.antt =====
-- The numbers that calc_q1q2 of dcap-le/sgxsign.c puts into a signature structure.
use native.Mathlib.Nat.{
  div-add-mod', div-lt_iff_lt-mul, mod-lt, mul-lt-mul_of_pos_left, mul-lt-mul_of_pos_right,
}
use pandora_examples.Prelude.{
  ℕ, zero, suc, ap, ◌∙◌, ◌+◌, ◌-◌, ◌*◌, ◌/◌, ◌%◌, ◌^◌, ◌≤◌, ◌<◌, ◌≡◌, arith, Bool, true, false,
  some, not_ltb, if◌then◌else◌,
}
use pandora_examples.LibC.{Bytes}
use pandora_examples.SgxArch.{sgx_modulus_size}
use pandora_examples.SignTool.{ok, Crypto}
use pandora_examples.SignTool.Measurement.{bind_ok, not_then}
use pandora_examples.SignTool.Sign.{OpenSsl, Disk, checked_call, place, store_bn, calc_q1q2}

if_false : {A : Type 0} (b : Bool) (u v : A) → b ≡ false → (if b then u else v) ≡ v
if_false b u v e = ap (λ t. if t then u else v) e

cube :
    (s m q1 t q2 r : ℕ)
    → q1 * m + t ≡ s * s
    → q2 * m + r ≡ s * t
    → s * s * s ≡ (q1 * s + q2) * m + r
cube s m q1 t q2 r first second =
    let grown : (q1 * m + t) * s ≡ s * s * s = ap (λ y. y * s) first in omega (arith, grown, second)

square_lt : (a b m : ℕ) → a < m → b < m → a * b < m * m
square_lt zero b m la lb =
    let wide : 0 * m < m * m = mul-lt-mul_of_pos_right la la in omega (arith, wide)
square_lt (suc a) b m la lb =
    let pos : 0 < m = omega arith in
    let tall : suc a * b < suc a * m = mul-lt-mul_of_pos_left lb (omega arith) in
    let wide : suc a * m < m * m = mul-lt-mul_of_pos_right la pos in omega (arith, tall, wide)

-- What OpenSSL documents of its big numbers, where memory is found: exact products, quotients and
-- remainders, and sizes in bytes.
pub record IsExact {Key : Type 0} (x : OpenSsl Key) : Type 0 where
  pub allocates : x.bn_alloc ≡ true
  pub multiplies : (a b : ℕ) → x.bn_mul a b ≡ some (a * b)
  pub divides : (a b : ℕ) → 0 < b → x.bn_div a b ≡ some (a / b, a % b)
  pub measures : (a : ℕ) → a < 2 ^ 3072 → x.bn_num_bytes a ≤ 384

-- A quotient, big-endian, at the end of its array.
pub stored : {Key : Type 0} → OpenSsl Key → ℕ → Bytes → Bytes
stored x q array = place (sgx_modulus_size - x.bn_num_bytes q) (x.bn_bn2bin q) array

module _ {Key : Type 0} (x : OpenSsl Key) (c : Crypto) (d : Disk) (exact : IsExact x) where
  store_bn_lem :
      (q : ℕ) (array : Bytes) → q < 2 ^ 3072 → store_bn x c d q array ≡ ok (stored x q array)
  unfolding store_bn stored
  store_bn_lem q array small =
      if_false _ _ _ (not_ltb sgx_modulus_size (x.bn_num_bytes q) (exact.measures q small))

  -- For a signature s below the modulus m, which is one of 3072 bits at most, calc_q1q2 succeeds, and
  -- stores two numbers below m, q1 and q2, by which s ^ 3 can be reduced without a division: s ^ 3 is
  -- (q1 * s + q2) * m and a rest below m.
  pub calc_q1q2-cube :
      (s_bytes m_bytes q1_bytes q2_bytes : Bytes) (s m : ℕ)
      → x.bn_bin2bn s_bytes ≡ s
      → x.bn_bin2bn m_bytes ≡ m
      → s < m
      → m ≤ 2 ^ 3072
      → (q1 : ℕ) × (q2 : ℕ) × (r : ℕ) × (calc_q1q2 x c d s_bytes m_bytes q1_bytes q2_bytes
          ≡ ok (stored x q1 q1_bytes, stored x q2 q2_bytes))
        × (s * s * s ≡ (q1 * s + q2) * m + r)
        × (q1 < m)
        × (q2 < m)
        × (r < m)
  unfolding calc_q1q2
  calc_q1q2-cube s_bytes m_bytes q1_bytes q2_bytes s m es em below small =
      let pos : 0 < m = omega arith in
      let t = s * s % m in
      let q1 = s * s / m in
      let q2 = s * t / m in
      let t_lt : t < m = mod-lt (s * s) pos in
      let q1_lt : q1 < m = (div-lt_iff_lt-mul pos).1 (square_lt s s m below below) in
      let q2_lt : q2 < m = (div-lt_iff_lt-mul pos).1 (square_lt s t m below t_lt) in
      (
        q1,
        q2,
        s * t % m,
        not_then _ _ _ exact.allocates
            ∙ rw (es, em)
                (bind_ok _ (s * s) _ (ap checked_call (exact.multiplies s s))
                  ∙ bind_ok _ (q1, t) _ (ap checked_call (exact.divides (s * s) m pos))
                  ∙ bind_ok _ (s * t) _ (ap checked_call (exact.multiplies s t))
                  ∙ bind_ok _ (q2, s * t % m) _ (ap checked_call (exact.divides (s * t) m pos))
                  ∙ bind_ok _ (stored x q1 q1_bytes) _
                      (store_bn_lem q1 q1_bytes (omega (arith, q1_lt, small)))
                  ∙ bind_ok _ (stored x q2 q2_bytes) _
                      (store_bn_lem q2 q2_bytes (omega (arith, q2_lt, small)))),
        cube s m q1 t q2 (s * t % m) (div-add-mod' (s * s) m) (div-add-mod' (s * t) m),
        q1_lt,
        q2_lt,
        mod-lt (s * t) pos,
      )
