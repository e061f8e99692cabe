-- ===== src/Checksum/Rfc1071.antt =====
-- `crc_checksum` against RFC 1071, which adds the 16-bit words of a buffer, most significant byte
-- first, with the carries brought round.
use ospfd_rfc.Base.{
  ℕ, zero, suc, ◌+◌, ◌-◌, ◌*◌, ◌/◌, ◌%◌, ◌≤◌, ◌<◌, ◌≡◌, refl, ◌⊎◌, inl, inr, List, [], ◌∷◌, All,
  length, ltb, if◌then◌else◌, Bool-cases, arith, ◌∙◌, sym, ap,
}
use ospfd_rfc.Base.Bytes.{IsU8, byte0, byte1}
use ospfd_rfc.Checksum.{crc_sum, crc_fold, crc_checksum}
use ospfd_rfc.Checksum.Crc.{words, words-le, crc_sum-words}

-- One's complement addition.
abbrev pub add_round : ℕ → ℕ → ℕ
add_round a b = if ltb (a + b) 65536 then a + b else a + b - 65535

unfoldable pub rfc_sum : List ℕ → ℕ
rfc_sum [] = 0
rfc_sum (a ∷ []) = a * 256
rfc_sum (a ∷ b ∷ bs) = add_round (a * 256 + b) (rfc_sum bs)

-- The checksum of the RFC, as a number with the most significant byte first.
abbrev pub rfc_checksum : List ℕ → ℕ
rfc_checksum bs = 65535 - rfc_sum bs

-- The same residue modulo 65535, and both are 0 or neither is.
record Stands (v s : ℕ) : Type 0 where
  rounds : ℕ
  below : v ≤ 65535
  residue : s ≡ v + 65535 * rounds
  nothing : (v ≡ 0) × (s ≡ 0) ⊎ (1 ≤ v) × (1 ≤ s)

Stands-add_round : (w v s : ℕ) → w ≤ 65535 → Stands v s → Stands (add_round w v) (w + s)
Stands-add_round w v s small h =
    let below = h.below in
    let residue = h.residue in
    let nothing = h.nothing in
    elim (Bool-cases (ltb (w + v) 65536)) [
      | inl fits ↦ rw fits (record {
        rounds = h.rounds;
        below = ground arith;
        residue = omega (arith, residue);
        nothing = grind arith;
      })
      | inr carries ↦ rw carries (record {
        rounds = h.rounds + 1;
        below = ground (arith, below);
        residue = ground (arith, residue);
        nothing = inr (ground arith, ground arith);
      })
    ]

big_words : List ℕ → ℕ
big_words [] = 0
big_words (a ∷ []) = a * 256
big_words (a ∷ b ∷ bs) = a * 256 + b + big_words bs

rfc_sum-Stands : (bs : List ℕ) → All IsU8 bs → Stands (rfc_sum bs) (big_words bs)
unfolding rfc_sum big_words
rfc_sum-Stands [] h = record {
  rounds = 0;
  below = omega arith;
  residue = refl;
  nothing = inl (refl, refl);
}
rfc_sum-Stands (a ∷ []) h = record {
  rounds = 0;
  below = omega arith;
  residue = omega arith;
  nothing = grind arith;
}
rfc_sum-Stands (a ∷ b ∷ bs) (ha, (hb, hs)) =
    Stands-add_round (a * 256 + b) (rfc_sum bs) (big_words bs) (omega arith) (rfc_sum-Stands bs hs)

-- The sum of the least significant bytes.
lows : List ℕ → ℕ
lows [] = 0
lows (a ∷ []) = 0
lows (a ∷ b ∷ bs) = b + lows bs

big_words-words : (bs : List ℕ) → big_words bs + 65535 * lows bs ≡ 256 * words bs
unfolding big_words words lows
big_words-words [] = refl
big_words-words (a ∷ []) = omega arith
big_words-words (a ∷ b ∷ bs) = omega (arith, big_words-words bs)

crc_fold-Stands : (s : ℕ) → s + 65536 < 4294967296 → (v : ℕ) × (crc_fold s ≡ 65535 - v) × Stands v s
unfolding crc_fold
crc_fold-Stands s h =
    let once = s / 65536 + s % 65536 in
    let v = (once + once / 65536) % 65536 in
    (
      v,
      omega arith,
      record {
        rounds = (s - v) / 65535;
        below = omega arith;
        residue = omega arith;
        nothing = nothing s h;
      },
    )
  where
    twice : ℕ → ℕ
    twice s = (s / 65536 + s % 65536 + (s / 65536 + s % 65536) / 65536) % 65536

    nothing : (s : ℕ) → s + 65536 < 4294967296 → (twice s ≡ 0) × (s ≡ 0) ⊎ (1 ≤ twice s) × (1 ≤ s)
    nothing zero h = inl (refl, refl)
    nothing (suc s) h = inr (omega arith, omega arith)

-- Two numbers that stand for the same sum are the same.
Stands-unique : (v w s : ℕ) → Stands v s → Stands w s → v ≡ w
Stands-unique v w s a b =
    let h1 = a.below in
    let h2 = b.below in
    let h3 = a.residue in
    let h4 = b.residue in
    elim (a.nothing) [
      | inl (v0, s0) ↦ elim (b.nothing) [
        | inl (w0, _) ↦ v0 ∙ sym w0
        | inr (_, s1) ↦ absurd (omega arith)
      ]
      | inr (v1, s1) ↦ elim (b.nothing) [
        | inl (_, s0) ↦ absurd (omega arith)
        | inr (w1, _) ↦ omega arith
      ]
    ]

swap : ℕ → ℕ
swap v = v % 256 * 256 + v / 256

lows_lem : (bs : List ℕ) → (1 ≤ big_words bs) ⊎ (lows bs ≡ 0)
unfolding big_words lows
lows_lem [] = inr refl
lows_lem (a ∷ []) = inr refl
lows_lem (a ∷ zero ∷ bs) = elim (lows_lem bs) [
  | inl some_left ↦ inl (omega arith)
  | inr none_left ↦ inr (omega arith)
]
lows_lem (a ∷ suc b ∷ bs) = inl (omega arith)

-- Swapping the bytes is a multiplication by 256.
Stands-swap :
    (v s big low : ℕ)
    → Stands v s
    → big + 65535 * low ≡ 256 * s
    → (1 ≤ big) ⊎ (low ≡ 0)
    → Stands (swap v) big
unfolding swap
Stands-swap v s big low h e some_left =
    let h1 = h.below in
    let h2 = h.residue in
    elim (h.nothing) [
      | inl (v0, s0) ↦ record {
        rounds = 0;
        below = omega arith;
        residue = omega arith;
        nothing = inl (omega arith, omega arith);
      }
      | inr (v1, s1) ↦
          let big1 : 1 ≤ big = elim some_left [ inl l ↦ l | inr r ↦ omega arith ] in
          record {
            rounds = v / 256 + 256 * h.rounds - low;
            below = omega arith;
            residue = omega arith;
            nothing = inr (omega arith, big1);
          }
    ]

swap_complement : (v : ℕ) → v ≤ 65535 → byte0 (65535 - v) * 256 + byte1 (65535 - v) ≡ 65535 - swap v
unfolding swap
swap_complement v h = omega arith

-- For a buffer of at most 1500 bytes, the checksum that is computed over words in the order of a
-- little-endian host, stored as that host stores it, is the checksum of RFC 1071 with its most
-- significant byte first.
pub crc_checksum-rfc_checksum :
    (bs : List ℕ)
    → All IsU8 bs
    → length bs ≤ 1500
    → let ck = crc_checksum bs in byte0 ck * 256 + byte1 ck ≡ rfc_checksum bs
unfolding crc_checksum
crc_checksum-rfc_checksum bs h bound =
    let small : words bs ≤ 98302500 = omega (arith, words-le bs h) in
    let sum : crc_sum 0 bs ≡ words bs = omega (arith, crc_sum-words bs 0 (omega arith)) in
    let (v, folded, stands) = crc_fold-Stands (words bs) (omega arith) in
    let swapped =
      Stands-swap v (words bs) (big_words bs) (lows bs) stands (big_words-words bs) (lows_lem bs) in
    let same = Stands-unique (swap v) (rfc_sum bs) (big_words bs) swapped (rfc_sum-Stands bs h) in
    let ck_is : crc_fold (crc_sum 0 bs) ≡ 65535 - v = ap crc_fold sum ∙ folded in
    rw ck_is (swap_complement v stands.below ∙ ap (λ (x : ℕ). 65535 - x) same)
