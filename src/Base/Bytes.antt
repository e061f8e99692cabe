-- ===== src/Base/Bytes.antt =====
-- Unsigned integers in network byte order: the htons, htonl, ntohs and ntohl of the wire formats,
-- composed with the store or load of the bytes.
use Prim.Native.Nat.{ℕ, ◌+◌, ◌*◌, ◌/◌, ◌%◌, ◌<◌}
use mathlib.Core.Path.{◌≡◌}
use mathlib.Core.List.{List, [], ◌∷◌}
use native.Mathlib.Omega.{arith}

abbrev pub IsU8 : ℕ → Type 0
IsU8 n = n < 256

abbrev pub IsU16 : ℕ → Type 0
IsU16 n = n < 65536

abbrev pub IsU24 : ℕ → Type 0
IsU24 n = n < 16777216

abbrev pub IsU32 : ℕ → Type 0
IsU32 n = n < 4294967296

-- The k-th byte from the right of a number.
abbrev pub byte0 : ℕ → ℕ
byte0 n = n % 256

abbrev pub byte1 : ℕ → ℕ
byte1 n = n / 256 % 256

abbrev pub byte2 : ℕ → ℕ
byte2 n = n / 65536 % 256

abbrev pub byte3 : ℕ → ℕ
byte3 n = n / 16777216 % 256

-- The value of two, three and four bytes, highest first.
unfoldable pub word16 : ℕ → ℕ → ℕ
word16 a b = a * 256 + b

unfoldable pub word24 : ℕ → ℕ → ℕ → ℕ
word24 a b c = a * 65536 + b * 256 + c

unfoldable pub word32 : ℕ → ℕ → ℕ → ℕ → ℕ
word32 a b c d = a * 16777216 + b * 65536 + c * 256 + d

abbrev pub be16 : ℕ → List ℕ
be16 n = byte1 n ∷ byte0 n ∷ []

abbrev pub be24 : ℕ → List ℕ
be24 n = byte2 n ∷ byte1 n ∷ byte0 n ∷ []

abbrev pub be32 : ℕ → List ℕ
be32 n = byte3 n ∷ byte2 n ∷ byte1 n ∷ byte0 n ∷ []

pub word16-byte : (n : ℕ) → IsU16 n → word16 (byte1 n) (byte0 n) ≡ n
unfolding word16
word16-byte n h = omega arith

pub word24-byte : (n : ℕ) → IsU24 n → word24 (byte2 n) (byte1 n) (byte0 n) ≡ n
unfolding word24
word24-byte n h = omega arith

pub word32-byte : (n : ℕ) → IsU32 n → word32 (byte3 n) (byte2 n) (byte1 n) (byte0 n) ≡ n
unfolding word32
word32-byte n h = omega arith
