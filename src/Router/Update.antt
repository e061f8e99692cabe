-- ===== src/Router/Update.antt =====
-- src/packet.cpp: process_lsu. The buffer is the list of the bytes behind the OSPF header, up to the
-- end of the frame's buffer. The acknowledgment is built in the same buffer, in which each header
-- takes no more room than the LSA that it was read from.
pub mod RoundTrip
use ospfd_rfc.Base.{
  ℕ, zero, suc, ◌&&◌, ◌||◌, List, [], ◌∷◌, ◌==◌, if◌then◌else◌, drop, erase_first, Result, ok,
  fault, assertion_failed, out_of_bounds, from_option, ◌>>=◌,
}
use ospfd_rfc.Neighbor.{Request, NetworkType, broadcast, p2p, nbma, p2mp, virtual}
use ospfd_rfc.Interface.{Interface, backup, dr, same_if_state, get_neighbor_by_ip}
use ospfd_rfc.Lsa.{Header, Lsa, router, network, summary, lsa_header, lsa_size}
use ospfd_rfc.Lsa.LsaType
use ospfd_rfc.Lsa.Codec.{get32, parse_router, parse_network, parse_summary}
use ospfd_rfc.Lsdb.{Lsdb, add}
use ospfd_rfc.Packet.{produce_lsack}
use ospfd_rfc.Packet.PacketType
use ospfd_rfc.Router.{
  Router, all_spf_routers, all_dr_routers, interface_at, put_interface, put_neighbor, send_packet,
}

-- lsahdr->type
abbrev pub type_at : List ℕ → Result ℕ
type_at (_ ∷ _ ∷ _ ∷ t ∷ _) = ok t
type_at _ = fault out_of_bounds

-- The LSA that is constructed from the buffer.
unfoldable pub parse_lsa : List ℕ → Result Lsa
parse_lsa bytes = do
  ls_type ← type_at bytes
  (if ls_type == LsaType.router
      then (parse_router bytes >>= λ l. ok (router l))
      else if ls_type == LsaType.network
      then (parse_network bytes >>= λ l. ok (network l))
      else if ls_type == LsaType.summary
      then (parse_summary bytes >>= λ l. ok (summary l))
      else fault assertion_failed)

-- The request for an LSA goes from the list.
abbrev pub erase_request : Header → List Request → List Request
erase_request h = erase_first (λ q.
    q.ls_type == h.ls_type
    && (q.link_state_id == h.link_state_id && q.advertising_router == h.advertising_router))

-- The loop over the LSAs of the update: the database, the requests that are left, and the headers to
-- acknowledge.
unfoldable pub update_loop :
    ℕ → List ℕ → Lsdb → List Request → Result (Lsdb × List Request × List Header)
update_loop zero bytes db reqs = ok (db, reqs, [])
update_loop (suc n) bytes db reqs = do
  lsa ← parse_lsa bytes
  db' ← add db lsa
  (db'', reqs', headers) ←
      update_loop n (drop (lsa_size lsa) bytes) db' (erase_request (lsa_header lsa) reqs)
  ok (db'', reqs', lsa_header lsa ∷ headers)

-- Where the acknowledgment goes.
abbrev pub ack_dst : Interface → ℕ → ℕ
ack_dst i src_ip = elim (i.network_type) [
  | broadcast ↦
      if same_if_state i.state dr || same_if_state i.state backup
      then all_spf_routers
      else all_dr_routers
  | p2p ↦ src_ip
  | nbma ↦ src_ip
  | p2mp ↦ src_ip
  | virtual ↦ src_ip
]

unfoldable pub process_lsu : Router → ℕ → List ℕ → ℕ → Result Router
process_lsu r k bytes src_ip = do
  i ← interface_at r k
  n ← from_option assertion_failed (get_neighbor_by_ip i src_ip)
  (num_lsas, bytes) ← get32 bytes
  (db, reqs, headers) ← update_loop num_lsas bytes r.lsdb n.link_state_request_list
  let i' = put_neighbor i (record n { link_state_request_list = reqs })
  ok (
      send_packet (record (put_interface r k i') { lsdb = db }) k i' PacketType.lsack
        (produce_lsack headers) (ack_dst i src_ip))
