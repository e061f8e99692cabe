-- ===== src/Lsa/Codec/RoundTrip.antt =====
-- An LSA that is written by `to_packet` is read back by its constructor.
use ospfd_rfc.Base.{
  ℕ, zero, suc, ◌∙◌, ◌+◌, ◌-◌, ◌*◌, ◌≡◌, refl, List, [], ◌∷◌, ◌++◌, All, length, ok, arith,
}
use ospfd_rfc.Base.Bytes.{
  IsU8, IsU16, IsU24, IsU32, byte0, byte1, word16, word16-byte, word24-byte, word32-byte,
}
use ospfd_rfc.Lsa.{Header, Link, RouterLsa, NetworkLsa, SummaryLsa}
use ospfd_rfc.Lsa.Codec.{
  get_header, header_bytes, get_link, link_bytes, get_links, links_bytes, get_routers,
  routers_bytes, router_bytes, parse_router, network_bytes, parse_network, summary_bytes,
  parse_summary,
}

-- The fields fit the widths that the source declares.
pub record IsHeader (h : Header) : Type 0 where
  pub age16 : IsU16 h.age
  pub options8 : IsU8 h.options
  pub type8 : IsU8 h.ls_type
  pub id32 : IsU32 h.link_state_id
  pub router32 : IsU32 h.advertising_router
  pub sequence32 : IsU32 h.sequence_number
  pub checksum16 : IsU16 h.checksum
  pub length16 : IsU16 h.length

-- A link of a message: the widths, and no type of service.
pub record IsLink (l : Link) : Type 0 where
  pub id32 : IsU32 l.link_id
  pub link32 : IsU32 l.link_data
  pub tos_zero : l.tos ≡ 0
  pub metric16 : IsU16 l.metric

get_header-header_bytes :
    (h : Header) (rest : List ℕ) → IsHeader h → get_header (header_bytes h ++ rest) ≡ ok (h, rest)
unfolding get_header header_bytes
get_header-header_bytes h rest v = ground (
  arith,
  word16-byte h.age,
  word32-byte h.link_state_id,
  word32-byte h.advertising_router,
  word32-byte h.sequence_number,
  word16-byte h.checksum,
  word16-byte h.length,
)

get_link-link_bytes :
    (l : Link) (rest : List ℕ) → IsLink l → get_link (link_bytes l ++ rest) ≡ ok (l, rest)
unfolding get_link link_bytes
get_link-link_bytes l rest v =
    ground (arith, word32-byte l.link_id, word32-byte l.link_data, word16-byte l.metric)

get_links-links_bytes :
    (ls : List Link) (rest : List ℕ)
    → All IsLink ls
    → get_links (length ls) (links_bytes ls ++ rest) ≡ ok ls
unfolding get_links links_bytes
get_links-links_bytes [] rest v = refl
get_links-links_bytes (l ∷ ls) rest v =
    rw (get_links-links_bytes ls rest v.1)
      (ground (arith, word32-byte l.link_id, word32-byte l.link_data, word16-byte l.metric))

get_routers-routers_bytes :
    (rs rest : List ℕ) (room : ℕ)
    → room ≡ 4 * length rs
    → All IsU32 rs
    → get_routers room (routers_bytes rs ++ rest) ≡ ok rs
unfolding get_routers routers_bytes
get_routers-routers_bytes [] rest zero e v = refl
get_routers-routers_bytes [] rest (suc room) e v = absurd (omega arith)
get_routers-routers_bytes (r ∷ rs) rest zero e v = absurd (omega arith)
get_routers-routers_bytes (r ∷ rs) rest (suc room) e v =
    rw (get_routers-routers_bytes rs rest (room - 3) (omega arith) v.1)
      (ground (arith, word32-byte r))

-- The messages that the three constructors and `to_packet` carry without loss.
pub record IsRouterLsa (l : RouterLsa) : Type 0 where
  pub header_ok : IsHeader l.header
  pub flags16 : IsU16 l.flags
  pub num_links16 : IsU16 l.num_links
  pub counted : l.num_links ≡ length l.links
  pub links_ok : All IsLink l.links

pub record IsNetworkLsa (l : NetworkLsa) : Type 0 where
  pub header_ok : IsHeader l.header
  pub mask32 : IsU32 l.network_mask
  pub sized : l.header.length ≡ 24 + 4 * length l.attached_routers
  pub routers_ok : All IsU32 l.attached_routers

pub record IsSummaryLsa (l : SummaryLsa) : Type 0 where
  pub header_ok : IsHeader l.header
  pub mask32 : IsU32 l.network_mask
  pub metric24 : IsU24 l.metric

-- Reading back a router LSA that was written gives it again, whatever follows it in the buffer: the
-- fields fit their widths, the link count is right, and no link has a type of service.
pub parse_router-router_bytes :
    (l : RouterLsa) (rest : List ℕ) → IsRouterLsa l → parse_router (router_bytes l ++ rest) ≡ ok l
unfolding parse_router router_bytes
parse_router-router_bytes l rest v =
    let links : get_links (word16 (byte1 l.num_links) (byte0 l.num_links))
          (links_bytes l.links ++ rest)
        ≡ ok l.links =
      rw (word16-byte l.num_links v.num_links16 ∙ v.counted)
        (get_links-links_bytes l.links rest v.links_ok) in
    rw links (
      ground (
        arith,
        word16-byte l.header.age,
        word32-byte l.header.link_state_id,
        word32-byte l.header.advertising_router,
        word32-byte l.header.sequence_number,
        word16-byte l.header.checksum,
        word16-byte l.header.length,
        word16-byte l.flags,
        word16-byte l.num_links,
      ))

-- The same of a network LSA, whose header must state its length.
pub parse_network-network_bytes :
    (l : NetworkLsa) (rest : List ℕ)
    → IsNetworkLsa l
    → parse_network (network_bytes l ++ rest) ≡ ok l
unfolding parse_network network_bytes
parse_network-network_bytes l rest v =
    let routers =
      get_routers-routers_bytes l.attached_routers rest (l.header.length - 24) (omega arith)
        v.routers_ok in
    rw (word16-byte l.header.length v.header_ok.length16, routers)
      (ground (
        arith,
        word16-byte l.header.age,
        word32-byte l.header.link_state_id,
        word32-byte l.header.advertising_router,
        word32-byte l.header.sequence_number,
        word16-byte l.header.checksum,
        word16-byte l.header.length,
        word32-byte l.network_mask,
      ))

-- The same of a summary LSA, whose metric must fit 24 bits.
pub parse_summary-summary_bytes :
    (l : SummaryLsa) (rest : List ℕ)
    → IsSummaryLsa l
    → parse_summary (summary_bytes l ++ rest) ≡ ok l
unfolding parse_summary summary_bytes
parse_summary-summary_bytes l rest v = ground (
  arith,
  word16-byte l.header.age,
  word32-byte l.header.link_state_id,
  word32-byte l.header.advertising_router,
  word32-byte l.header.sequence_number,
  word16-byte l.header.checksum,
  word16-byte l.header.length,
  word32-byte l.network_mask,
  word24-byte l.metric,
)
