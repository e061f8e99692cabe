-- ===== src/Checksum/Fletcher/Sums.antt =====
-- The sums of ISO 8473's checksum, and the loop of `fletcher16` as these sums.
use ospfd_rfc.Base.{
  ℕ, ◌+◌, ◌*◌, ◌≤◌, ◌<◌, ◌%◌, ◌≡◌, ap, ◌∙◌, List, [], ◌∷◌, ◌++◌, All, length, length-append, arith,
}
use ospfd_rfc.Base.Bytes.{IsU8}
use ospfd_rfc.Checksum.{fletcher_loop}
use ospfd_rfc.Checksum.Fletcher.Adjust.{product-le}

-- The sum of the bytes, and the sum weighted by the distance to the end.
abbrev pub sum0 : List ℕ → ℕ
sum0 [] = 0
sum0 (b ∷ bs) = b + sum0 bs

abbrev pub sum1 : List ℕ → ℕ
sum1 [] = 0
sum1 (b ∷ bs) = b * (length bs + 1) + sum1 bs

-- What a receiver checks.
abbrev pub IsVerified : List ℕ → Type 0
IsVerified bs = (sum0 bs % 255 ≡ 0) × (sum1 bs % 255 ≡ 0)

sum0-append : (xs ys : List ℕ) → sum0 (xs ++ ys) ≡ sum0 xs + sum0 ys
sum0-append [] ys = omega arith
sum0-append (x ∷ xs) ys = omega (arith, sum0-append xs ys)

sum1-append : (xs ys : List ℕ) → sum1 (xs ++ ys) ≡ sum1 xs + sum0 xs * length ys + sum1 ys
sum1-append [] ys = omega arith
sum1-append (x ∷ xs) ys =
    omega (arith, sum1-append xs ys, ap (λ (n : ℕ). x * n) (length-append xs ys))

sum0-le : (bs : List ℕ) → All IsU8 bs → sum0 bs ≤ 255 * length bs
sum0-le [] h = omega arith
sum0-le (b ∷ bs) h = omega (arith, sum0-le bs h.1)

byte_weight : (b n : ℕ) → b < 256 → b * n ≤ 255 * n
byte_weight b n h = grind arith

sum1-le : (bs : List ℕ) → All IsU8 bs → sum1 bs ≤ 255 * (length bs * length bs)
sum1-le [] h = omega arith
sum1-le (b ∷ bs) h = omega (arith, sum1-le bs h.1, byte_weight b (length bs + 1) h.0)

-- Behind the two bytes the loop is the plain one, as long as nothing wraps.
loop_behind :
    (off index : ℕ) (bs : List ℕ) (c0 c1 : ℕ)
    → off + 2 ≤ index
    → c0 + sum0 bs < 4294967296
    → c1 + c0 * length bs + sum1 bs < 4294967296
    → fletcher_loop off index bs c0 c1 ≡ (c0 + sum0 bs, c1 + c0 * length bs + sum1 bs)
unfolding fletcher_loop
loop_behind off index [] c0 c1 h h0 h1 = ground arith
loop_behind off index (b ∷ bs) c0 c1 h h0 h1 =
    ground (arith, loop_behind off (index + 1) bs (c0 + b) (c1 + (c0 + b)))

loop_before :
    (off index : ℕ) (bs more : List ℕ) (c0 c1 : ℕ)
    → index + length bs ≡ off
    → c0 + sum0 bs < 4294967296
    → c1 + c0 * length bs + sum1 bs < 4294967296
    → fletcher_loop off index (bs ++ more) c0 c1
      ≡ fletcher_loop off off more (c0 + sum0 bs) (c1 + c0 * length bs + sum1 bs)
unfolding fletcher_loop
loop_before off index [] more c0 c1 h h0 h1 = ground arith
loop_before off index (b ∷ bs) more c0 c1 h h0 h1 =
    ground (arith, loop_before off (index + 1) bs more (c0 + b) (c1 + (c0 + b)))

loop_at :
    (off a b : ℕ) (back : List ℕ) (c0 c1 : ℕ)
    → c0 + sum0 back < 4294967296
    → c1 + c0 * (length back + 2) + sum1 back < 4294967296
    → fletcher_loop off off (a ∷ b ∷ back) c0 c1
      ≡ (c0 + sum0 back, c1 + c0 * (length back + 2) + sum1 back)
unfolding fletcher_loop
loop_at off a b back c0 c1 h0 h1 =
    ground (arith, loop_behind off (off + 1 + 1) back c0 (c1 + c0 + c0))

-- The sums over the buffer with zeros at the two places.
zeroed_sums :
    (front back : List ℕ)
    → let zeroed = front ++ (0 ∷ 0 ∷ back) in
      (sum0 zeroed ≡ sum0 front + sum0 back)
      × (sum1 zeroed ≡ sum1 front + sum0 front * (length back + 2) + sum1 back)
zeroed_sums front back = (
  omega (arith, sum0-append front (0 ∷ 0 ∷ back)),
  omega (arith, sum1-append front (0 ∷ 0 ∷ back)),
)

sums_bounded :
    (front back : List ℕ)
    → All IsU8 front
    → All IsU8 back
    → length front + length back ≤ 1498
    → (sum0 front + sum0 back ≤ 381990)
      × (sum1 front + sum0 front * (length back + 2) + sum1 back ≤ 2000000000)
sums_bounded front back hf hb bound =
    let f0 = sum0-le front hf in
    let f1 = sum1-le front hf in
    let b1 = sum1-le back hb in
    (
      omega (arith, f0, sum0-le back hb),
      omega (
        arith,
        f1,
        b1,
        product-le (length front) (length front) 1498 1498 (omega arith) (omega arith),
        product-le (length back) (length back) 1498 1498 (omega arith) (omega arith),
        product-le (sum0 front) (length back + 2) 381990 1500 (omega arith) (omega arith),
      ),
    )

-- The loop over a buffer with any two bytes at `off` gives the sums with zeros there.
pub loop_around :
    (front back : List ℕ) (a b : ℕ)
    → All IsU8 front
    → All IsU8 back
    → length front + length back ≤ 1498
    → let zeroed = front ++ (0 ∷ 0 ∷ back) in
      fletcher_loop (length front) 0 (front ++ (a ∷ b ∷ back)) 0 0 ≡ (sum0 zeroed, sum1 zeroed)
loop_around front back a b hf hb bound =
    let (s0, s1) = zeroed_sums front back in
    let (b0, b1) = sums_bounded front back hf hb bound in
    loop_before (length front) 0 front (a ∷ b ∷ back) 0 0 (omega arith) (omega arith) (omega arith)
    ∙ loop_at (length front) a b back (0 + sum0 front) (0 + 0 * length front + sum1 front)
        (omega arith) (omega arith)
    ∙ ground (arith, s0, s1)

-- The buffer with zeros at the two places.
abbrev pub zeroed : List ℕ → List ℕ → List ℕ
zeroed front back = front ++ (0 ∷ 0 ∷ back)

-- What the two bytes add to the sums.
pub sums_with :
    (front back : List ℕ) (x y : ℕ)
    → let full = front ++ (x ∷ y ∷ back) in
      (sum0 full ≡ sum0 (zeroed front back) + x + y)
      × (sum1 full ≡ sum1 (zeroed front back) + x * (length back + 2) + y * (length back + 1))
sums_with front back x y =
    let (s0, s1) = zeroed_sums front back in
    (
      omega (arith, s0, sum0-append front (x ∷ y ∷ back)),
      omega (arith, s1, sum1-append front (x ∷ y ∷ back)),
    )
