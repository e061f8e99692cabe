-- ===== src/Checksum/Crc.antt =====
-- The receiver's view of `crc_checksum`.
use ospfd_rfc.Base.{
  ℕ, ◌+◌, ◌*◌, ◌%◌, ◌≤◌, ◌<◌, ◌≡◌, ap, ◌∙◌, List, [], ◌∷◌, ◌++◌, All, length, arith,
}
use ospfd_rfc.Base.Bytes.{IsU8, byte0, byte1}
use ospfd_rfc.Checksum.{u32, crc_sum, crc_fold, crc_checksum}

-- The sum of the words with no wrap.
unfoldable pub words : List ℕ → ℕ
words [] = 0
words (a ∷ []) = a
words (a ∷ b ∷ bs) = a + b * 256 + words bs

pub words-le : (bs : List ℕ) → All IsU8 bs → words bs ≤ 65535 * length bs
unfolding words
words-le [] h = omega arith
words-le (a ∷ []) h = omega arith
words-le (a ∷ b ∷ bs) h = omega (arith, words-le bs h.1.1)

pub crc_sum-words :
    (bs : List ℕ) (sum : ℕ) → sum + words bs < 4294967296 → crc_sum sum bs ≡ sum + words bs
unfolding words crc_sum
crc_sum-words [] sum h = omega arith
crc_sum-words (a ∷ []) sum h = omega arith
crc_sum-words (a ∷ b ∷ bs) sum h = ground (arith, crc_sum-words bs (u32 (sum + (a + b * 256))))

-- A buffer of 16-bit words: an even number of bytes.
abbrev pub IsEven : List ℕ → Type 0
IsEven bs = length bs % 2 ≡ 0

words-append : (xs ys : List ℕ) → IsEven xs → words (xs ++ ys) ≡ words xs + words ys
unfolding words
words-append [] ys h = omega arith
words-append (a ∷ []) ys h = absurd (omega arith)
words-append (a ∷ b ∷ xs) ys h = omega (arith, words-append xs ys (omega arith))

-- Folding a sum and its complement again gives 0.
fold_verifies : (s : ℕ) → s + 65536 < 4294967296 → crc_fold (s + crc_fold s) ≡ 0
unfolding crc_fold
fold_verifies s h = omega arith

check_word : (s : ℕ) → byte0 (crc_fold s) + byte1 (crc_fold s) * 256 ≡ crc_fold s
unfolding crc_fold
check_word s = omega arith

crc_fold-le : (s : ℕ) → crc_fold s ≤ 65535
unfolding crc_fold
crc_fold-le s = omega arith

-- The checksum of a buffer around one word.
crc_at :
    (front back : List ℕ) (a b : ℕ)
    → IsEven front
    → words front + words back < 4294000000
    → a + b * 256 ≤ 65535
    → crc_checksum (front ++ (a ∷ b ∷ back)) ≡ crc_fold (words front + words back + (a + b * 256))
unfolding crc_checksum words
crc_at front back a b even small word =
    let total : 0 + words (front ++ (a ∷ b ∷ back)) ≡ words front + words back + (a + b * 256) =
      omega (arith, words-append front (a ∷ b ∷ back) even) in
    ap crc_fold (crc_sum-words (front ++ (a ∷ b ∷ back)) 0 (omega arith) ∙ total)

-- The checksum of a buffer whose 16-bit checksum field is 0, stored in that field in the host's
-- byte order as send_packet stores it, makes the checksum of the whole buffer 0, which is how a
-- receiver verifies it. The field is at an even offset, and the buffer has at most 1500 bytes.
pub crc_verifies :
    (front back : List ℕ)
    → IsEven front
    → All IsU8 front
    → All IsU8 back
    → length front + length back ≤ 1498
    → let ck = crc_checksum (front ++ (0 ∷ 0 ∷ back)) in
      crc_checksum (front ++ (byte0 ck ∷ byte1 ck ∷ back)) ≡ 0
crc_verifies front back even hf hb bound =
    let s : ℕ = words front + words back in
    let small : s ≤ 98172570 = omega (arith, words-le front hf, words-le back hb) in
    let zeroed : crc_checksum (front ++ (0 ∷ 0 ∷ back)) ≡ crc_fold s =
      crc_at front back 0 0 even (omega arith) (omega arith) ∙ ap crc_fold (omega arith) in
    rw zeroed (
      crc_at front back (byte0 (crc_fold s)) (byte1 (crc_fold s)) even (omega arith)
        (omega (arith, check_word s, crc_fold-le s))
      ∙ ap (λ (w : ℕ). crc_fold (s + w)) (check_word s)
      ∙ fold_verifies s (omega arith))
