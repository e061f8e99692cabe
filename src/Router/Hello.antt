-- ===== src/Router/Hello.antt =====
-- src/packet.cpp: process_hello. The buffer is the list of the bytes behind the OSPF header, up to
-- the end of the frame that was received.
use ospfd_rfc.Base.{
  ℕ, ◌+◌, ◌*◌, Bool, true, false, ◌&&◌, not, none, some, List, [], ◌∷◌, ◌++◌, ◌==◌, if◌then◌else◌,
  Result, ok, fault, out_of_bounds, ◌>>=◌,
}
use ospfd_rfc.Base.Bytes.{word32}
use ospfd_rfc.Neighbor.{
  Neighbor, Host, new_neighbor, event_hello_received, event_2way_received, event_1way_received,
}
use ospfd_rfc.Interface.{Interface, host, get_neighbor_by_ip, same_if_state, waiting}
use ospfd_rfc.Packet.{OspfHeader, Hello, get_hello}
use ospfd_rfc.Router.{Router, interface_at, put_interface, put_neighbor}
use ospfd_rfc.Router.Events.{event_backup_seen, event_neighbor_change}
pub mod Facts

-- The loop over the attached neighbors, at the offset `pos` of the packet. It ends where `pos` is
-- the packet's length, and runs on past it if the two never meet.
unfoldable pub lists_router : ℕ → ℕ → ℕ → List ℕ → Result Bool
lists_router router_id stop pos (a ∷ b ∷ c ∷ d ∷ rest) =
    let more = lists_router router_id stop (pos + 4) rest in
    if pos == stop then ok false else (if word32 a b c d == router_id then ok true else more)
lists_router router_id stop pos _ = if pos == stop then ok false else fault out_of_bounds

-- The neighbor that sent the packet, a new one if there is none yet, and the interface with it.
abbrev pub find_or_add : Neighbor → Interface → ℕ → Neighbor × Interface
find_or_add memory i src_ip = elim (get_neighbor_by_ip i src_ip) [
  | some n ↦ (n, i)
  | none ↦ (
    new_neighbor memory src_ip,
    record i { neighbors = i.neighbors ++ (new_neighbor memory src_ip ∷ []) },
  )
]

-- What the neighbor takes from the packet. The priority, one byte, goes through ntohl.
abbrev pub learn : OspfHeader → Hello → Neighbor → Neighbor
learn hdr hello n = record n {
  id = hdr.router_id;
  designated_router = hello.designated_router;
  backup_designated_router = hello.backup_designated_router;
  priority = hello.router_priority * 16777216;
}

abbrev pub xor : Bool → Bool → Bool
xor true b = not b
xor false b = b

-- The two tests at the end of process_hello, for the DR and for the BDR: `claims` and `claimed` say
-- whether the neighbor declares itself now and did before, `first` is the rest of the test for
-- BackupSeen.
unfoldable pub hello_event : Router → ℕ → Bool → Bool → Bool → Result Router
hello_event r k first claims claimed = do
  i ← interface_at r k
  (if claims && (first && same_if_state i.state waiting)
      then event_backup_seen r k
      else (if xor claimed claims then event_neighbor_change r k else ok r))

-- process_hello behind the neighbor's two-way event.
unfoldable pub hello_changes : Router → ℕ → Neighbor → Neighbor → Result Router
unfolding hello_event
hello_changes r k before n = do
  r' ←
      hello_event r k (n.backup_designated_router == 0) (n.designated_router == n.ip_addr)
        (before.designated_router == n.ip_addr)
  hello_event r' k true (n.backup_designated_router == n.ip_addr)
      (before.backup_designated_router == n.ip_addr)

unfoldable pub process_hello : Router → ℕ → OspfHeader → List ℕ → ℕ → Result Router
unfolding lists_router hello_changes
process_hello r k hdr bytes src_ip = do
  i ← interface_at r k
  (hello, attached) ← get_hello bytes
  let found = find_or_add r.memory i src_ip
  let n = event_hello_received (learn hdr hello found.0)
  two_way ← lists_router r.router_id hdr.length 44 attached
  (if two_way
      then (event_2way_received (host i) n >>= λ n'.
          hello_changes (put_interface r k (put_neighbor found.1 n')) k found.0 n')
      else (event_1way_received n >>= λ n'. ok (put_interface r k (put_neighbor found.1 n'))))
