-- ===== src/Router/Originate.antt =====
-- src/lsdb.cpp: the router's own LSAs (make_router_lsa, make_network_lsa, LSDB::make_lsa), and
-- src/packet.cpp: flood_lsa.
pub mod Facts
use Prim.Native.Nat.{bit_and}
use ospfd_rfc.Base.{
  ℕ, suc, ◌+◌, ◌*◌, ◌%◌, Bool, true, false, none, some, List, [], ◌∷◌, ◌++◌, ◌==◌, if◌then◌else◌,
  length, Result, ok, null_dereference, from_option, ◌>>=◌,
}
use ospfd_rfc.Neighbor.{Neighbor, full, same_state}
use ospfd_rfc.Interface.{
  Interface, IfState, down, loopback, waiting, point2point, dr_other, backup, dr, same_if_state,
  get_neighbor_by_ip,
}
use ospfd_rfc.Lsa.{Header, Link, RouterLsa, NetworkLsa, Lsa, router, network}
use ospfd_rfc.Lsa.LsaType
use ospfd_rfc.Lsa.LinkType
use ospfd_rfc.Lsa.Codec.{router_make_checksum, network_make_checksum}
use ospfd_rfc.Lsdb.{get, add}
use ospfd_rfc.Packet.{produce_lsu, checked_body}
use ospfd_rfc.Packet.PacketType
use ospfd_rfc.Router.{Router, interface_at, send_packet, all_spf_routers}

-- Whether an interface's link is a transit link. The neighbor that is the DR is read through
-- without a test for null.
unfoldable pub is_transit : Interface → Result Bool
is_transit i =
    if same_if_state i.state waiting
    then ok false
    else (if i.designated_router == i.ip_addr
        then ok true
        else (from_option null_dereference (get_neighbor_by_ip i i.designated_router) >>= λ n.
            ok (same_state n.state full)))

unfoldable pub transit_link : Interface → Link
transit_link i = record {
  link_id = i.designated_router;
  link_data = i.ip_addr;
  link_type = LinkType.transit;
  tos = 0;
  metric = i.cost % 65536;
}

unfoldable pub stub_link : Interface → Link
stub_link i = record {
  link_id = bit_and i.ip_addr i.mask;
  link_data = i.mask;
  link_type = LinkType.stub;
  tos = 0;
  metric = i.cost % 65536;
}

-- The loop of make_router_lsa over the interfaces.
unfoldable pub router_links : List Interface → Result (List Link)
router_links [] = ok []
router_links (i ∷ is) =
    let rest = router_links is in
    if same_if_state i.state down
    then rest
    else (is_transit i >>= λ transit.
        rest >>= λ links. ok ((if transit then transit_link i else stub_link i) ∷ links))

-- The header of a new LSA, with the next sequence number.
unfoldable pub own_header : Router → ℕ → ℕ → ℕ → Header
own_header r ls_type link_state_id size = record {
  age = 0;
  options = 2;
  ls_type = ls_type;
  link_state_id = link_state_id;
  advertising_router = r.router_id;
  sequence_number = r.lsa_seq_num % 4294967296;
  checksum = 0;
  length = size % 65536;
}

-- `lsa_seq_num++` of a std::atomic<size_t>.
abbrev next_seq_num : Router → Router
next_seq_num r = record r { lsa_seq_num = (r.lsa_seq_num + 1) % 18446744073709551616 }

unfoldable pub make_router_lsa : Router → Result (RouterLsa × Router)
make_router_lsa r = do
  links ← router_links r.interfaces
  lsa ← router_make_checksum (record {
    header = own_header r LsaType.router r.router_id (24 + 12 * length links);
    flags = 0;
    num_links = length links % 65536;
    links = links;
  })
  ok (lsa, next_seq_num r)

-- The addresses of the adjacent neighbors.
unfoldable pub full_ips : List Neighbor → List ℕ
full_ips [] = []
full_ips (n ∷ ns) = if same_state n.state full then n.ip_addr ∷ full_ips ns else full_ips ns

unfoldable pub make_network_lsa : Router → Interface → Result (NetworkLsa × Router)
make_network_lsa r i = do
  let attached = full_ips i.neighbors
  lsa ← network_make_checksum (record {
    header = own_header r LsaType.network i.ip_addr (24 + 4 * length attached);
    network_mask = i.mask;
    attached_routers = attached;
  })
  ok (lsa, next_seq_num r)

-- The interfaces on which flood_lsa sends.
abbrev floods : IfState → Bool
floods dr_other = true
floods backup = true
floods point2point = true
floods down = false
floods loopback = false
floods waiting = false
floods dr = false

unfoldable pub flood_from : ℕ → List Interface → List ℕ → Router → Router
flood_from k [] body r = r
flood_from k (i ∷ is) body r =
    flood_from (suc k) is body
      (if floods i.state then send_packet r k i PacketType.lsu body all_spf_routers else r)

-- flood_lsa: the update is built once, in a buffer of ETH_DATA_LEN bytes.
unfoldable pub flood_lsa : Router → Lsa → Result Router
flood_lsa r lsa = do
  body ← checked_body (produce_lsu (lsa ∷ []))
  ok (flood_from 0 r.interfaces body r)

-- LSDB::make_lsa(LSA::Type::ROUTER): the first instance is only stored; later ones replace it and
-- are flooded.
unfoldable pub make_lsa_router : Router → Result Router
make_lsa_router r = do
  (lsa, r') ← make_router_lsa r
  elim (get r.lsdb LsaType.router r.router_id r.router_id) [
    | none ↦
        ok (record r' {
          lsdb = record (r'.lsdb) { router_lsas = r'.lsdb.router_lsas ++ (lsa ∷ []) };
        })
    | some old ↦ add r'.lsdb (router lsa) >>= λ db. flood_lsa (record r' { lsdb = db }) (router lsa)
  ]

-- LSDB::make_lsa(LSA::Type::NETWORK, interface)
unfoldable pub make_lsa_network : Router → ℕ → Result Router
make_lsa_network r k = do
  i ← interface_at r k
  (lsa, r') ← make_network_lsa r i
  elim (get r.lsdb LsaType.network i.ip_addr r.router_id) [
    | none ↦ ok (record r' {
      lsdb = record (r'.lsdb) { network_lsas = r'.lsdb.network_lsas ++ (lsa ∷ []) };
    })
    | some old ↦
        add r'.lsdb (network lsa) >>= λ db. flood_lsa (record r' { lsdb = db }) (network lsa)
  ]
