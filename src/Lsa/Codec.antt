-- ===== src/Lsa/Codec.antt =====
-- src/packet.hpp: how each LSA is read from a buffer (the constructors from `net_ptr`) and written
-- to one (`to_packet`). A buffer is the list of the bytes from the pointer to the buffer's end.
pub mod Length
pub mod RoundTrip
pub mod External
use ospfd_rfc.Base.{
  ℕ, zero, suc, ◌-◌, List, [], ◌∷◌, ◌++◌, take, drop, ltb, if◌then◌else◌, Result, ok, fault,
  out_of_bounds, ◌>>=◌,
}
use ospfd_rfc.Base.Bytes.{word16, word24, word32, be16, be24, be32}
use ospfd_rfc.Checksum.{fletcher16}
use ospfd_rfc.Lsa.{
  Header, Link, RouterLsa, NetworkLsa, SummaryLsa, ExternRoute, AsExternalLsa, Lsa, router, network,
  summary, as_external, router_size, network_size, summary_size,
}

-- A load through the pointer, which then moves past what was read.
abbrev pub get8 : List ℕ → Result (ℕ × List ℕ)
get8 (a ∷ rest) = ok (a, rest)
get8 _ = fault out_of_bounds

abbrev pub get16 : List ℕ → Result (ℕ × List ℕ)
get16 (a ∷ b ∷ rest) = ok (word16 a b, rest)
get16 _ = fault out_of_bounds

abbrev pub get24 : List ℕ → Result (ℕ × List ℕ)
get24 (a ∷ b ∷ c ∷ rest) = ok (word24 a b c, rest)
get24 _ = fault out_of_bounds

abbrev pub get32 : List ℕ → Result (ℕ × List ℕ)
get32 (a ∷ b ∷ c ∷ d ∷ rest) = ok (word32 a b c d, rest)
get32 _ = fault out_of_bounds

-- The 20 bytes of a header, converted by `network_to_host`.
unfoldable pub get_header : List ℕ → Result (Header × List ℕ)
get_header bytes = do
  (age, bytes) ← get16 bytes
  (options, bytes) ← get8 bytes
  (ls_type, bytes) ← get8 bytes
  (link_state_id, bytes) ← get32 bytes
  (advertising_router, bytes) ← get32 bytes
  (sequence_number, bytes) ← get32 bytes
  (checksum, bytes) ← get16 bytes
  (len, bytes) ← get16 bytes
  ok (
    record {
      age = age;
      options = options;
      ls_type = ls_type;
      link_state_id = link_state_id;
      advertising_router = advertising_router;
      sequence_number = sequence_number;
      checksum = checksum;
      length = len;
    },
    bytes,
  )

-- Link(char *): the tos byte is skipped and set to 0.
unfoldable pub get_link : List ℕ → Result (Link × List ℕ)
get_link bytes = do
  (link_id, bytes) ← get32 bytes
  (link_data, bytes) ← get32 bytes
  (link_type, bytes) ← get8 bytes
  (_, bytes) ← get8 bytes
  (metric, bytes) ← get16 bytes
  ok (
    record {
      link_id = link_id;
      link_data = link_data;
      link_type = link_type;
      tos = 0;
      metric = metric;
    },
    bytes,
  )

get_links : ℕ → List ℕ → Result (List Link)
unfolding get_link
get_links zero bytes = ok []
get_links (suc n) bytes = do
  (link, bytes) ← get_link bytes
  links ← get_links n bytes
  ok (link ∷ links)

-- Router(char *)
unfoldable pub parse_router : List ℕ → Result RouterLsa
unfolding get_header get_links
parse_router bytes = do
  (header, bytes) ← get_header bytes
  (flags, bytes) ← get16 bytes
  (num_links, bytes) ← get16 bytes
  links ← get_links num_links bytes
  ok (record { header = header; flags = flags; num_links = num_links; links = links })

-- The loop of Network(char *) while the pointer is below `attr_end`, `room` bytes away.
get_routers : ℕ → List ℕ → Result (List ℕ)
get_routers zero bytes = ok []
get_routers (suc room) (a ∷ b ∷ c ∷ d ∷ bytes) = do
  routers ← get_routers (room - 3) bytes
  ok (word32 a b c d ∷ routers)
get_routers (suc room) _ = fault out_of_bounds

-- Network(char *)
unfoldable pub parse_network : List ℕ → Result NetworkLsa
unfolding get_header get_routers
parse_network bytes = do
  (header, bytes) ← get_header bytes
  (network_mask, bytes) ← get32 bytes
  routers ← get_routers (header.length - 24) bytes
  ok (record { header = header; network_mask = network_mask; attached_routers = routers })

-- Summary(char *)
unfoldable pub parse_summary : List ℕ → Result SummaryLsa
unfolding get_header
parse_summary bytes = do
  (header, bytes) ← get_header bytes
  (network_mask, bytes) ← get32 bytes
  (tos, bytes) ← get8 bytes
  (metric, _) ← get24 bytes
  ok (record { header = header; network_mask = network_mask; tos = tos; metric = metric })

-- Base::to_packet
unfoldable pub header_bytes : Header → List ℕ
header_bytes h =
    be16 h.age
    ++ (h.options
        ∷ h.ls_type
        ∷ (be32 h.link_state_id
            ++ (be32 h.advertising_router
                ++ (be32 h.sequence_number ++ (be16 h.checksum ++ be16 h.length)))))

link_bytes : Link → List ℕ
link_bytes l = be32 l.link_id ++ (be32 l.link_data ++ (l.link_type ∷ l.tos ∷ be16 l.metric))

links_bytes : List Link → List ℕ
unfolding link_bytes
links_bytes [] = []
links_bytes (l ∷ ls) = link_bytes l ++ links_bytes ls

-- Router::to_packet
unfoldable pub router_bytes : RouterLsa → List ℕ
unfolding header_bytes links_bytes
router_bytes l =
    header_bytes l.header ++ (be16 l.flags ++ (be16 l.num_links ++ links_bytes l.links))

routers_bytes : List ℕ → List ℕ
routers_bytes [] = []
routers_bytes (r ∷ rs) = be32 r ++ routers_bytes rs

-- Network::to_packet
unfoldable pub network_bytes : NetworkLsa → List ℕ
unfolding header_bytes routers_bytes
network_bytes l = header_bytes l.header ++ (be32 l.network_mask ++ routers_bytes l.attached_routers)

-- Summary::to_packet: the metric is cut to 24 bits.
unfoldable pub summary_bytes : SummaryLsa → List ℕ
unfolding header_bytes
summary_bytes l = header_bytes l.header ++ (be32 l.network_mask ++ (l.tos ∷ be24 l.metric))

routes_bytes : List ExternRoute → List ℕ
routes_bytes [] = []
routes_bytes (r ∷ rs) =
    r.tos
    ∷ (be24 r.metric
        ++ (be32 r.forwarding_address ++ (be32 r.external_router_tag ++ routes_bytes rs)))

-- ASExternal::to_packet
unfoldable pub as_external_bytes : AsExternalLsa → List ℕ
unfolding header_bytes routes_bytes
as_external_bytes l = header_bytes l.header ++ (be32 l.network_mask ++ routes_bytes l.routes)

-- The virtual `to_packet`.
unfoldable pub to_packet : Lsa → List ℕ
unfolding router_bytes network_bytes summary_bytes as_external_bytes
to_packet (router l) = router_bytes l
to_packet (network l) = network_bytes l
to_packet (summary l) = summary_bytes l
to_packet (as_external l) = as_external_bytes l

-- fletcher16(packet + 2, header.length - 2, 14) over a packet of `size` bytes.
unfoldable pub packet_checksum : ℕ → ℕ → List ℕ → Result ℕ
unfolding fletcher16
packet_checksum size len packet =
    if ltb size len
    then fault out_of_bounds
    else ok (fletcher16 (take (len - 2) (drop 2 packet)) 14)

-- Router::make_checksum
unfoldable pub router_make_checksum : RouterLsa → Result RouterLsa
router_make_checksum l = do
  checksum ← packet_checksum (router_size l) l.header.length (router_bytes l)
  ok (record l { header = record (l.header) { checksum = checksum } })

-- Network::make_checksum
unfoldable pub network_make_checksum : NetworkLsa → Result NetworkLsa
network_make_checksum l = do
  checksum ← packet_checksum (network_size l) l.header.length (network_bytes l)
  ok (record l { header = record (l.header) { checksum = checksum } })

-- Summary::make_checksum
unfoldable pub summary_make_checksum : SummaryLsa → Result SummaryLsa
summary_make_checksum l = do
  checksum ← packet_checksum (summary_size l) l.header.length (summary_bytes l)
  ok (record l { header = record (l.header) { checksum = checksum } })
