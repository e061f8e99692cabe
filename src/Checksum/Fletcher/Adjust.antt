-- ===== src/Checksum/Fletcher/Adjust.antt =====
-- The last step of `fletcher16`: the two bytes modulo 255, with the signs of the int32_t.
use mathlib.Core.Path.{ap₂}
use ospfd_rfc.Base.{
  ℕ, ◌+◌, ◌-◌, ◌*◌, ◌/◌, ◌%◌, ◌≤◌, ◌<◌, ◌≡◌, ap, ◌⊎◌, ◌&&◌, arith, ltb, ◌==◌, if◌then◌else◌,
}
use ospfd_rfc.Checksum.{sub32, adjust_x, adjust_y, check_bytes}

pub product-le : (a b c d : ℕ) → a ≤ c → b ≤ d → a * b ≤ c * d
product-le a b c d h k = grind arith

-- `a - b` is negative and 1 more than a multiple of 255: there the code's byte is off by one.
abbrev pub Misses : ℕ → ℕ → Type 0
Misses a b = (a < b) × ((b - a) % 255 ≡ 254)

pub adjust_x_lem :
    (a b : ℕ)
    → a < 1000000
    → b < 1000000
    → (¬ Misses a b → (adjust_x (sub32 a b) % 256 + b) % 255 ≡ a % 255)
      × (Misses a b → (adjust_x (sub32 a b) % 256 + b) % 255 ≡ (a + 254) % 255)
unfolding adjust_x
adjust_x_lem a b ha hb = ground arith

pub adjust_y_lem :
    (a b : ℕ)
    → a < 1000000
    → b < 1000000
    → (¬ Misses a b → (adjust_y (sub32 (sub32 a b) 1) % 256 + b) % 255 ≡ a % 255)
      × (Misses a b → (adjust_y (sub32 (sub32 a b) 1) % 256 + b) % 255 ≡ (a + 254) % 255)
unfolding adjust_y
adjust_y_lem a b ha hb = ground arith

-- The last step in ℕ: `mul` does not wrap.
pub check_bytes_lem :
    (rest c0 c1 : ℕ)
    → rest ≤ 1500
    → c0 < 255
    → c1 < 255
    → check_bytes rest c0 c1 ≡ (
      adjust_x (sub32 (rest * c0) (c0 + c1)) % 256,
      adjust_y (sub32 (sub32 c1 (rest * c0)) 1) % 256,
    )
unfolding check_bytes
check_bytes_lem rest c0 c1 hr h0 h1 =
    let small : rest * c0 ≤ 381000 = product-le rest c0 1500 254 hr (omega arith) in
    ap₂ (λ (x y : ℕ). (adjust_x x % 256, adjust_y y % 256)) (omega arith) (omega arith)

-- The two congruences that the bytes meet make both sums 0.
pub congruent0 :
    (s c0 c1 x y mul : ℕ)
    → c0 ≡ s % 255
    → (x + (c0 + c1)) % 255 ≡ mul % 255
    → (y + mul) % 255 ≡ c1 % 255
    → (s + x + y) % 255 ≡ 0
congruent0 s c0 c1 x y mul e hx hy = omega arith

combined :
    (s c0 c1 x y k p q r t : ℕ)
    → x + (c0 + c1) + 255 * q ≡ (k + 2) * c0 + 255 * p
    → y + (k + 2) * c0 ≡ c1 + 255 * r
    → s ≡ c1 + 255 * t
    → s + x * (k + 2) + y * (k + 1) + 255 * ((k + 2) * q) ≡ 255 * (t + (k + 2) * p + (k + 1) * r)
combined s c0 c1 x y k p q r t e1 e2 e3 =
    omega (arith, ap (λ (n : ℕ). n * (k + 2)) e1, ap (λ (n : ℕ). n * (k + 1)) e2)

multiple_of_255 : (n a b : ℕ) → n + 255 * a ≡ 255 * b → n % 255 ≡ 0
multiple_of_255 n a b h = omega arith

pub congruent1 :
    (s c0 c1 x y k : ℕ)
    → c1 ≡ s % 255
    → (x + (c0 + c1)) % 255 ≡ ((k + 2) * c0) % 255
    → (y + (k + 2) * c0) % 255 ≡ c1 % 255
    → (s + x * (k + 2) + y * (k + 1)) % 255 ≡ 0
congruent1 s c0 c1 x y k e hx hy =
    let p : ℕ = (x + (c0 + c1)) / 255 in
    let q : ℕ = (k + 2) * c0 / 255 in
    let r : ℕ = (y + (k + 2) * c0) / 255 in
    multiple_of_255 _ _ _
      (combined s c0 c1 x y k p q r (s / 255) (omega arith) (omega arith) (omega arith))

-- In each other case the sum of the bytes is off by one or two.
pub shift : ℕ → ℕ → ℕ
shift a b = if ltb a b && ((b - a) % 255 == 254) then 254 else 0

pub adjust_x-shift :
    (a b : ℕ)
    → a < 1000000
    → b < 1000000
    → (adjust_x (sub32 a b) % 256 + b) % 255 ≡ (a + shift a b) % 255
unfolding shift
adjust_x-shift a b ha hb = ground (arith, adjust_x_lem a b ha hb)

pub adjust_y-shift :
    (a b : ℕ)
    → a < 1000000
    → b < 1000000
    → (adjust_y (sub32 (sub32 a b) 1) % 256 + b) % 255 ≡ (a + shift a b) % 255
unfolding shift
adjust_y-shift a b ha hb = ground (arith, adjust_y_lem a b ha hb)

pub shifts_vanish :
    (s c0 c1 x y mul : ℕ)
    → c0 ≡ s % 255
    → (x + (c0 + c1)) % 255 ≡ (mul + shift mul (c0 + c1)) % 255
    → (y + mul) % 255 ≡ (c1 + shift c1 mul) % 255
    → Misses mul (c0 + c1) ⊎ Misses c1 mul
    → ¬ ((s + x + y) % 255 ≡ 0)
unfolding shift
shifts_vanish s c0 c1 x y mul h hx hy miss z = ground arith
