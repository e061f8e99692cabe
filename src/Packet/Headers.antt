-- ===== src/Packet/Headers.antt =====
-- The OSPF header that send_packet writes, as the receiver reads it.
use ospfd_rfc.Base.{ℕ, ◌+◌, ◌%◌, ◌≡◌, refl, List, ◌∷◌, ◌++◌, length, ok, arith}
use ospfd_rfc.Base.Bytes.{byte0, byte1, IsU32, word16, word16-byte, word32-byte}
use ospfd_rfc.Checksum.{crc_checksum}
use ospfd_rfc.Packet.{packet_bytes, header_front, header_back, OspfHeader, get_ospf_header}

-- The header of a packet with this type, this router id and this area.
pub get_ospf_header-packet_bytes :
    (packet_type router_id area_id : ℕ) (body padding : List ℕ)
    → IsU32 router_id
    → IsU32 area_id
    → (hdr : OspfHeader) × (get_ospf_header
          (packet_bytes packet_type router_id area_id body ++ padding)
        ≡ ok (hdr, body ++ padding))
      × (hdr.packet_type ≡ packet_type)
      × (hdr.router_id ≡ router_id)
      × (hdr.length ≡ (24 + length body) % 65536)
unfolding packet_bytes get_ospf_header
get_ospf_header-packet_bytes packet_type router_id area_id body padding id32 area32 =
    let ck =
      crc_checksum
        (header_front packet_type (length body) router_id area_id ++ (0 ∷ 0 ∷ header_back body)) in
    let hdr : OspfHeader = record {
      version = 2;
      packet_type = packet_type;
      length = word16 (byte1 ((24 + length body) % 65536)) (byte0 ((24 + length body) % 65536));
      router_id = router_id;
      area_id = area_id;
      checksum = word16 (byte0 ck) (byte1 ck);
      auth_type = word16 0 0;
    } in
    (
      hdr,
      rw (word32-byte router_id id32) (rw (word32-byte area_id area32) refl),
      refl,
      refl,
      word16-byte ((24 + length body) % 65536) (omega arith),
    )
