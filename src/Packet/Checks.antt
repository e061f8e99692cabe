-- ===== src/Packet/Checks.antt =====
-- Facts about the packets that leave the router.
use ospfd_rfc.Base.{ℕ, ◌+◌, ◌≤◌, ◌≡◌, List, All, length, arith}
use ospfd_rfc.Base.Bytes.{IsU8}
use ospfd_rfc.Checksum.{crc_checksum}
use ospfd_rfc.Checksum.Crc.{crc_verifies}
use ospfd_rfc.Packet.{packet_bytes, header_front, header_back}

header_back-IsU8 : (body : List ℕ) → All IsU8 body → All IsU8 (header_back body)
header_back-IsU8 body h =
    let z : IsU8 0 = omega arith in (z, (z, (z, (z, (z, (z, (z, (z, (z, (z, h))))))))))

-- Every packet that send_packet sends passes the receiver's checksum test, and has its body's length
-- and 24 bytes: the body is of bytes and fits the buffer.
pub packet_verifies :
    (packet_type router_id area_id : ℕ) (body : List ℕ)
    → IsU8 packet_type
    → All IsU8 body
    → 24 + length body ≤ 1500
    → (crc_checksum (packet_bytes packet_type router_id area_id body) ≡ 0)
      × (length (packet_bytes packet_type router_id area_id body) ≡ 24 + length body)
unfolding packet_bytes
packet_verifies packet_type router_id area_id body ht hb fits = (
  crc_verifies (header_front packet_type (length body) router_id area_id) (header_back body)
      (omega arith) (omega arith) (header_back-IsU8 body hb) (omega arith),
  omega arith,
)
