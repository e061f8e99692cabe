-- ===== src/Checksum.antt =====
-- src/utils.hpp: the Fletcher checksum of an LSA and the ones' complement checksum of a packet.
-- A uint32_t is a number below 2 ^ 32 with its wrap written out; an int32_t is its bit pattern.
pub mod Fletcher
pub mod Crc
pub mod Rfc1071
use ospfd_rfc.Base.{
  ℕ, suc, ◌+◌, ◌-◌, ◌*◌, ◌/◌, ◌%◌, ◌^◌, Bool, ◌||◌, List, [], ◌∷◌, ltb, leb, ◌==◌, if◌then◌else◌,
  length,
}

abbrev pub u32 : ℕ → ℕ
u32 n = n % 4294967296

-- uint32_t a - b
abbrev pub sub32 : ℕ → ℕ → ℕ
sub32 a b = (a + 4294967296 - b) % 4294967296

-- The sign of an int32_t.
abbrev pub is_negative : ℕ → Bool
is_negative w = leb 2147483648 w

-- The loop of `fletcher16`: the two bytes at `off` count as 0.
pub fletcher_loop : ℕ → ℕ → List ℕ → ℕ → ℕ → ℕ × ℕ
fletcher_loop off index [] c0 c1 = (c0, c1)
fletcher_loop off index (b ∷ bs) c0 c1 =
    let c0' = if (index == off) || (index == off + 1) then c0 else u32 (c0 + b) in
    fletcher_loop off (index + 1) bs c0' (u32 (c1 + c0'))

-- `w %= 255` of an int32_t: the remainder has the sign of `w`.
abbrev pub rem255 : ℕ → ℕ
rem255 w = if is_negative w then sub32 0 ((4294967296 - w) % 255) else w % 255

-- `if (x < 0) x--; x %= 255; if (x == 0) x = 255;`
pub adjust_x : ℕ → ℕ
adjust_x x = let x' = rem255 (if is_negative x then sub32 x 1 else x) in if x' == 0 then 255 else x'

-- `if (y >= 0) y++; y %= 255; if (y == 0) y = 255;`
pub adjust_y : ℕ → ℕ
adjust_y y =
    let y' = rem255 (if is_negative y then y else u32 (y + 1)) in if y' == 0 then 255 else y'

-- The two bytes of the result: `(x << 8) | y` cut to 16 bits, with `y &= 0xff` before.
pub check_bytes : ℕ → ℕ → ℕ → ℕ × ℕ
check_bytes rest c0 c1 =
    let mul = u32 (rest * c0) in
    (adjust_x (sub32 (sub32 mul c0) c1) % 256, adjust_y (sub32 (sub32 c1 mul) 1) % 256)

-- The bytes of `fletcher16(data, len, off)`, the high one first.
pub fletcher_bytes : List ℕ → ℕ → ℕ × ℕ
fletcher_bytes bytes off =
    let sums = fletcher_loop off 0 bytes 0 0 in
    check_bytes (sub32 (length bytes) off) (sums.0 % 255) (sums.1 % 255)

unfoldable pub fletcher16 : List ℕ → ℕ → ℕ
unfolding fletcher_bytes fletcher_loop check_bytes adjust_x adjust_y
fletcher16 bytes off = let ck = fletcher_bytes bytes off in ck.0 * 256 + ck.1

-- The sum over the 16-bit words of a buffer, read in the byte order of a little-endian host; a last
-- odd byte counts as it is.
pub crc_sum : ℕ → List ℕ → ℕ
crc_sum sum [] = sum
crc_sum sum (a ∷ []) = u32 (sum + a)
crc_sum sum (a ∷ b ∷ bs) = crc_sum (u32 (sum + (a + b * 256))) bs

-- The two folds and the complement.
pub crc_fold : ℕ → ℕ
crc_fold sum =
    let once = sum / 65536 + sum % 65536 in
    let twice = u32 (once + once / 65536) in 65535 - twice % 65536

unfoldable pub crc_checksum : List ℕ → ℕ
unfolding crc_sum crc_fold
crc_checksum bytes = crc_fold (crc_sum 0 bytes)
