-- ===== src/Tests/Checksum.antt =====
-- The two checksums of src/utils.hpp on short buffers.
use ospfd_rfc.Base.{ℕ, ◌+◌, ◌*◌, ◌≡◌, List, [], ◌∷◌, ◌++◌, inr, length, arith}
use ospfd_rfc.Checksum.{fletcher_bytes, crc_checksum}
use ospfd_rfc.Checksum.Fletcher.{IsVerified, fletcher_verifies, fletcher_rejected}
use ospfd_rfc.Base.Bytes.{byte0, byte1}
use ospfd_rfc.Checksum.Rfc1071.{rfc_checksum, crc_checksum-rfc_checksum}
use ospfd_rfc.Packet.{packet_bytes}
use ospfd_rfc.Packet.Checks.{packet_verifies}

-- Bytes in front of the checksum and behind it.
abbrev front : List ℕ
front = 1 ∷ 2 ∷ []

abbrev back : List ℕ
back = 3 ∷ 4 ∷ []

fletcher_verifies_example :
    let ck = fletcher_bytes (front ++ (7 ∷ 9 ∷ back)) 2 in
    IsVerified (front ++ (ck.0 ∷ ck.1 ∷ back))
fletcher_verifies_example =
    fletcher_verifies front back 7 9 (omega arith) (omega arith) (omega arith) (ground arith)
      (ground arith)

abbrev missed : List ℕ
missed = 2 ∷ 252 ∷ []

fletcher_rejected_example :
    let ck = fletcher_bytes (missed ++ (0 ∷ 0 ∷ [])) 2 in
    ¬ IsVerified (missed ++ (ck.0 ∷ ck.1 ∷ []))
fletcher_rejected_example =
    fletcher_rejected missed [] 0 0 (omega arith) (omega arith) (omega arith) (inr (omega arith))

packet_verifies_example :
    (crc_checksum (packet_bytes 5 16843009 0 (front ++ back)) ≡ 0)
    × (length (packet_bytes 5 16843009 0 (front ++ back)) ≡ 28)
packet_verifies_example =
    packet_verifies 5 16843009 0 (front ++ back) (omega arith) (omega arith) (omega arith)

crc_checksum-rfc_checksum_example :
    let ck = crc_checksum (1 ∷ 2 ∷ 3 ∷ []) in
    byte0 ck * 256 + byte1 ck ≡ rfc_checksum (1 ∷ 2 ∷ 3 ∷ [])
crc_checksum-rfc_checksum_example =
    crc_checksum-rfc_checksum (1 ∷ 2 ∷ 3 ∷ []) (ground arith) (omega arith)
