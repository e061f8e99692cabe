-- ===== src/Lsa/Age.antt =====
-- src/packet.hpp, LSA::Base::operator< and operator>: which instance of an LSA is newer.
use ospfd_rfc.Base.{ℕ, ◌+◌, ◌%◌, ◌≤◌, ◌<◌, ◌≡◌, ◌⊎◌, true, false, ok, arith}
use ospfd_rfc.Lsa.{Header, base_lt, base_gt}

-- Two instances of one LSA, as the assertions of operator< want them.
abbrev pub SameLsa : Header → Header → Type 0
SameLsa a b = (a.link_state_id ≡ b.link_state_id) × (a.advertising_router ≡ b.advertising_router)

-- Of two instances of one LSA exactly one is newer, unless they agree in sequence number and
-- checksum, and then none is.
pub base_gt_trichotomy :
    (a b : Header)
    → SameLsa a b
    → ((base_gt a b ≡ ok true) × (base_gt b a ≡ ok false))
      ⊎ ((base_gt a b ≡ ok false) × (base_gt b a ≡ ok true))
      ⊎ ((base_gt a b ≡ ok false)
          × (base_gt b a ≡ ok false)
          × (a.sequence_number ≡ b.sequence_number)
          × (a.checksum ≡ b.checksum))
unfolding base_gt base_lt
base_gt_trichotomy a b same = ground arith

-- "Newer than" is transitive.
pub base_gt_trans :
    (a b c : Header) → base_gt a b ≡ ok true → base_gt b c ≡ ok true → base_gt a c ≡ ok true
unfolding base_gt base_lt
base_gt_trans a b c p q = ground arith

-- The order of RFC 2328, section 12.1.6: sequence numbers are signed 32-bit integers. Adding
-- 2 ^ 31 turns the signed order into the order of numbers.
abbrev pub signed_rank : ℕ → ℕ
signed_rank n = (n + 2147483648) % 4294967296

-- On two instances with different sequence numbers the code's order is the signed one exactly when
-- both numbers have the same sign; otherwise the code takes the older instance for the newer one.
pub base_gt_signed :
    (a b : Header)
    → SameLsa a b
    → a.sequence_number < 2147483648
    → 2147483648 ≤ b.sequence_number
    → b.sequence_number < 4294967296
    → (signed_rank b.sequence_number < signed_rank a.sequence_number)
      × (base_gt a b ≡ ok false)
      × (base_gt b a ≡ ok true)
unfolding base_gt base_lt
base_gt_signed a b same ha hb bound = ground arith
