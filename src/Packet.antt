-- ===== src/Packet.antt =====
-- src/packet.hpp, namespace OSPF, and src/packet.cpp: the packets that the router sends, as bytes.
pub mod PacketType
pub mod Checks
pub mod Headers
use ospfd_rfc.Base.{
  ℕ, ◌+◌, ◌%◌, List, [], ◌∷◌, ◌++◌, length, leb, if◌then◌else◌, Result, ok, fault, out_of_bounds,
  ◌>>=◌,
}
use ospfd_rfc.Base.Bytes.{byte0, byte1, be16, be32}
use ospfd_rfc.Checksum.{crc_checksum}
use ospfd_rfc.Lsa.{Header, Lsa}
use ospfd_rfc.Lsa.Codec.{header_bytes, to_packet, get8, get16, get32}
use ospfd_rfc.Neighbor.{Neighbor, Request}
use ospfd_rfc.Interface.{Interface}

-- ETH_DATA_LEN, the length of each buffer that a packet is built in.
abbrev pub eth_data_len : ℕ
eth_data_len = 1500

-- The OSPF header up to the checksum, for a body of `len` bytes: version 2 (OSPF_VERSION).
abbrev header_front : ℕ → ℕ → ℕ → ℕ → List ℕ
header_front packet_type len router_id area_id =
    2 ∷ packet_type ∷ (be16 ((24 + len) % 65536) ++ (be32 router_id ++ be32 area_id))

-- The rest of the packet: no authentication, then the body.
abbrev header_back : List ℕ → List ℕ
header_back body = 0 ∷ 0 ∷ 0 ∷ 0 ∷ 0 ∷ 0 ∷ 0 ∷ 0 ∷ 0 ∷ 0 ∷ body

-- What send_packet hands to sendto. The checksum is stored as a native uint16_t, on a little-endian
-- host.
unfoldable pub packet_bytes : ℕ → ℕ → ℕ → List ℕ → List ℕ
packet_bytes packet_type router_id area_id body =
    let front = header_front packet_type (length body) router_id area_id in
    let back = header_back body in
    let ck = crc_checksum (front ++ (0 ∷ 0 ∷ back)) in front ++ (byte0 ck ∷ byte1 ck ∷ back)

-- A body fits behind the header in a buffer of ETH_DATA_LEN bytes.
abbrev pub checked_body : List ℕ → Result (List ℕ)
checked_body body = if leb (24 + length body) eth_data_len then ok body else fault out_of_bounds

unfoldable pub neighbor_ips : List Neighbor → List ℕ
neighbor_ips [] = []
neighbor_ips (n ∷ ns) = be32 n.ip_addr ++ neighbor_ips ns

-- produce_hello
unfoldable pub produce_hello : Interface → List ℕ
unfolding neighbor_ips
produce_hello i =
    be32 i.mask
    ++ (be16 (i.hello_interval % 65536)
        ++ (2
            ∷ i.router_priority
            ∷ (be32 i.router_dead_interval
                ++ (be32 i.designated_router
                    ++ (be32 i.backup_designated_router ++ neighbor_ips i.neighbors)))))

unfoldable pub lsas_bytes : List Lsa → List ℕ
unfolding to_packet
lsas_bytes [] = []
lsas_bytes (l ∷ ls) = to_packet l ++ lsas_bytes ls

-- produce_lsu
unfoldable pub produce_lsu : List Lsa → List ℕ
unfolding lsas_bytes
produce_lsu ls = be32 (length ls) ++ lsas_bytes ls

-- produce_lsack: the headers in network byte order.
unfoldable pub produce_lsack : List Header → List ℕ
unfolding header_bytes
produce_lsack [] = []
produce_lsack (h ∷ hs) = header_bytes h ++ produce_lsack hs

-- The body that produce_lsr writes for a list of requests.
unfoldable pub lsr_bytes : List Request → List ℕ
lsr_bytes [] = []
lsr_bytes (q ∷ qs) =
    be32 q.ls_type ++ (be32 q.link_state_id ++ (be32 q.advertising_router ++ lsr_bytes qs))

-- OSPF::Header, after `network_to_host`.
pub record OspfHeader : Type 0 where
  pub version : ℕ
  pub packet_type : ℕ
  pub length : ℕ
  pub router_id : ℕ
  pub area_id : ℕ
  pub checksum : ℕ
  pub auth_type : ℕ

-- The 24 bytes of the header; nothing reads the authentication field.
unfoldable pub get_ospf_header : List ℕ → Result (OspfHeader × List ℕ)
get_ospf_header bytes = do
  (version, bytes) ← get8 bytes
  (packet_type, bytes) ← get8 bytes
  (len, bytes) ← get16 bytes
  (router_id, bytes) ← get32 bytes
  (area_id, bytes) ← get32 bytes
  (checksum, bytes) ← get16 bytes
  (auth_type, bytes) ← get16 bytes
  (_, bytes) ← get32 bytes
  (_, bytes) ← get32 bytes
  ok (
    record {
      version = version;
      packet_type = packet_type;
      length = len;
      router_id = router_id;
      area_id = area_id;
      checksum = checksum;
      auth_type = auth_type;
    },
    bytes,
  )

-- OSPF::Hello up to the list of neighbors.
pub record Hello : Type 0 where
  pub network_mask : ℕ
  pub hello_interval : ℕ
  pub options : ℕ
  pub router_priority : ℕ
  pub router_dead_interval : ℕ
  pub designated_router : ℕ
  pub backup_designated_router : ℕ

-- Its 20 bytes, each multi-byte field as ntohs or ntohl gives it.
unfoldable pub get_hello : List ℕ → Result (Hello × List ℕ)
get_hello bytes = do
  (network_mask, bytes) ← get32 bytes
  (hello_interval, bytes) ← get16 bytes
  (options, bytes) ← get8 bytes
  (router_priority, bytes) ← get8 bytes
  (router_dead_interval, bytes) ← get32 bytes
  (designated_router, bytes) ← get32 bytes
  (backup_designated_router, bytes) ← get32 bytes
  ok (
    record {
      network_mask = network_mask;
      hello_interval = hello_interval;
      options = options;
      router_priority = router_priority;
      router_dead_interval = router_dead_interval;
      designated_router = designated_router;
      backup_designated_router = backup_designated_router;
    },
    bytes,
  )
