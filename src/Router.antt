-- ===== src/Router.antt =====
-- The state that the daemon's two threads share: src/interface.cpp's `this_interfaces`, src/lsdb.cpp's
-- `this_lsdb` and `lsa_seq_num`, src/route.cpp's `this_routing_table`, and what has been sent.
-- THIS_ROUTER_ID is the field `router_id`.
-- Every handler is one step: the interleaving of the two threads inside a handler is not modelled.
pub mod Store
pub mod Originate
pub mod Events
pub mod Hello
pub mod Update
pub mod Exchange
pub mod Requests
pub mod Loops
pub mod Neighbors
pub mod Keeps
use ospfd_rfc.Base.{
  ℕ, ◌+◌, ◌%◌, Bool, ◌||◌, List, [], ◌∷◌, ◌++◌, ◌==◌, if◌then◌else◌, get_elem?, set, Result, ok,
  null_dereference, from_option, ◌>>=◌,
}
use ospfd_rfc.Neighbor.{Neighbor}
use ospfd_rfc.Interface.{Interface, get_neighbor_by_ip}
use ospfd_rfc.Lsdb.{Lsdb}
use ospfd_rfc.Packet.{packet_bytes}
use ospfd_rfc.Routing.{RoutingTable}

-- A packet on its way out: the place of its interface, the destination, and the bytes.
pub record Sent : Type 0 where
  pub out : ℕ
  pub dst : ℕ
  pub packet : List ℕ

-- `memory` is what uninitialised members hold; it may be anything.
pub record Router : Type 0 where
  pub router_id : ℕ
  pub interfaces : List Interface
  pub lsdb : Lsdb
  pub lsa_seq_num : ℕ
  pub sent : List Sent
  pub routing : RoutingTable
  pub memory : Neighbor

-- 224.0.0.5 and 224.0.0.6
abbrev pub all_spf_routers : ℕ
all_spf_routers = 3758096389

abbrev pub all_dr_routers : ℕ
all_dr_routers = 3758096390

-- An `Interface *` is the place of the interface in `this_interfaces`.
abbrev pub interface_at : Router → ℕ → Result Interface
interface_at r k = from_option null_dereference (get_elem? r.interfaces k)

abbrev pub put_interface : Router → ℕ → Interface → Router
put_interface r k i = record r { interfaces = set r.interfaces k i }

-- A `Neighbor *` of an interface is the address by which get_neighbor_by_ip finds it.
abbrev pub neighbor_at : Interface → ℕ → Result Neighbor
neighbor_at i ip = from_option null_dereference (get_neighbor_by_ip i ip)

abbrev pub replace_neighbor : Neighbor → List Neighbor → List Neighbor
replace_neighbor n [] = []
replace_neighbor n (m ∷ ms) = if m.ip_addr == n.ip_addr then n ∷ ms else m ∷ replace_neighbor n ms

abbrev pub put_neighbor : Interface → Neighbor → Interface
put_neighbor i n = record i { neighbors = replace_neighbor n i.neighbors }

-- send_packet; an error of sendto is only printed.
unfoldable pub send_packet : Router → ℕ → Interface → ℕ → List ℕ → ℕ → Router
send_packet r k i packet_type body dst =
    let out : Sent = record {
      out = k;
      dst = dst;
      packet = packet_bytes packet_type r.router_id i.area_id body;
    } in
    record r { sent = r.sent ++ (out ∷ []) }
