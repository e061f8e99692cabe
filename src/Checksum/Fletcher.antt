-- ===== src/Checksum/Fletcher.antt =====
-- The receiver's view of `fletcher16`: ISO 8473's check over a buffer that holds the two bytes.
mod Sums
mod Adjust
pub use Sums.{IsVerified, sum0, sum1, zeroed}
pub use Adjust.{Misses}
use mathlib.Core.Path.{ap₂}
use ospfd_rfc.Base.{
  ℕ, ◌+◌, ◌*◌, ◌%◌, ◌≤◌, ◌<◌, ◌≡◌, refl, ap, ◌∙◌, ◌⊎◌, List, ◌∷◌, ◌++◌, All, length, length-append,
  arith,
}
use ospfd_rfc.Base.Bytes.{IsU8}
use ospfd_rfc.Checksum.{sub32, adjust_x, adjust_y, check_bytes, fletcher_bytes}
use Sums.{loop_around, sums_with}
use Adjust.{
  product-le, adjust_x_lem, adjust_y_lem, adjust_x-shift, adjust_y-shift, check_bytes_lem,
  congruent0, congruent1, shifts_vanish,
}

-- The inputs of the last step: the reduced sums, and the product `mul`.
abbrev pub reduced0 : List ℕ → List ℕ → ℕ
reduced0 front back = sum0 (zeroed front back) % 255

abbrev pub reduced1 : List ℕ → List ℕ → ℕ
reduced1 front back = sum1 (zeroed front back) % 255

abbrev pub product : List ℕ → List ℕ → ℕ
product front back = (length back + 2) * reduced0 front back

-- Where a byte of the checksum comes out one too small.
abbrev pub MissesX : List ℕ → List ℕ → Type 0
MissesX front back = Misses (product front back) (reduced0 front back + reduced1 front back)

abbrev pub MissesY : List ℕ → List ℕ → Type 0
MissesY front back = Misses (reduced1 front back) (product front back)

-- The bytes that `fletcher16` computes over a buffer, whatever stands at the two places.
bytes_around :
    (front back : List ℕ) (a b : ℕ)
    → All IsU8 front
    → All IsU8 back
    → length front + length back ≤ 1498
    → fletcher_bytes (front ++ (a ∷ b ∷ back)) (length front) ≡ (
      adjust_x (sub32 (product front back) (reduced0 front back + reduced1 front back)) % 256,
      adjust_y (sub32 (sub32 (reduced1 front back) (product front back)) 1) % 256,
    )
unfolding fletcher_bytes
bytes_around front back a b hf hb bound =
    ap₂ (λ (n : ℕ) (sums : ℕ × ℕ). check_bytes n (sums.0 % 255) (sums.1 % 255))
      (omega (arith, length-append front (a ∷ b ∷ back))) (loop_around front back a b hf hb bound)
    ∙ check_bytes_lem (length back + 2) (reduced0 front back) (reduced1 front back) (omega arith)
        (omega arith) (omega arith)

-- The checksum bytes, put at their place, make both of the receiver's sums 0, unless the
-- subtraction for one of the bytes misses.
pub fletcher_verifies :
    (front back : List ℕ) (a b : ℕ)
    → All IsU8 front
    → All IsU8 back
    → length front + length back ≤ 1498
    → ¬ MissesX front back
    → ¬ MissesY front back
    → let ck = fletcher_bytes (front ++ (a ∷ b ∷ back)) (length front) in
      IsVerified (front ++ (ck.0 ∷ ck.1 ∷ back))
fletcher_verifies front back a b hf hb bound goodX goodY =
    let c0 : ℕ = reduced0 front back in
    let c1 : ℕ = reduced1 front back in
    let mul : ℕ = product front back in
    let x : ℕ = adjust_x (sub32 mul (c0 + c1)) % 256 in
    let y : ℕ = adjust_y (sub32 (sub32 c1 mul) 1) % 256 in
    let small : mul ≤ 381000 =
      product-le (length back + 2) c0 1500 254 (omega arith) (omega arith) in
    let hx = (adjust_x_lem mul (c0 + c1) (omega arith) (omega arith)).0 goodX in
    let hy = (adjust_y_lem c1 mul (omega arith) (omega arith)).0 goodY in
    let (s0, s1) = sums_with front back x y in
    rw (bytes_around front back a b hf hb bound) (
      rw s0 (congruent0 _ c0 c1 x y mul refl hx hy),
      rw s1 (congruent1 _ c0 c1 x y (length back) refl hx hy),
    )

-- Where one of them misses, the receiver's check fails.
pub fletcher_rejected :
    (front back : List ℕ) (a b : ℕ)
    → All IsU8 front
    → All IsU8 back
    → length front + length back ≤ 1498
    → MissesX front back ⊎ MissesY front back
    → let ck = fletcher_bytes (front ++ (a ∷ b ∷ back)) (length front) in
      ¬ IsVerified (front ++ (ck.0 ∷ ck.1 ∷ back))
fletcher_rejected front back a b hf hb bound miss valid =
    let c0 : ℕ = reduced0 front back in
    let c1 : ℕ = reduced1 front back in
    let mul : ℕ = product front back in
    let small : mul ≤ 381000 =
      product-le (length back + 2) c0 1500 254 (omega arith) (omega arith) in
    let hx = adjust_x-shift mul (c0 + c1) (omega arith) (omega arith) in
    let hy = adjust_y-shift c1 mul (omega arith) (omega arith) in
    let x : ℕ = adjust_x (sub32 mul (c0 + c1)) % 256 in
    let y : ℕ = adjust_y (sub32 (sub32 c1 mul) 1) % 256 in
    let (s0, _) = sums_with front back x y in
    let zero_sum : sum0 (front ++ (x ∷ y ∷ back)) % 255 ≡ 0 =
      (rw (bytes_around front back a b hf hb bound) at valid).0 in
    shifts_vanish _ c0 c1 x y mul refl hx hy miss (rw s0 at zero_sum)
