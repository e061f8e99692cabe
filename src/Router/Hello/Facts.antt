-- ===== src/Router/Hello/Facts.antt =====
-- What process_hello does with a packet that does not list the router, and one case of a packet that
-- does.
use ospfd_rfc.Base.{
  ℕ, ◌≡◌, ◌≢◌, ◌≤◌, ◌∙◌, refl, true, false, Option-cases, find, find-holds, ◌==◌, List,
  Result-cases, inl, inr, ok, fault, assertion_failed, arith,
}
use ospfd_rfc.Neighbor.{
  Neighbor, Host, rank, new_neighbor, init, event_2way_received, event_hello_received,
  event_1way_received,
}
use ospfd_rfc.Interface.{Interface, host, waiting, get_neighbor_by_ip}
use ospfd_rfc.Packet.{OspfHeader, Hello, get_hello}
use ospfd_rfc.Router.{Router, interface_at, put_interface, put_neighbor}
use ospfd_rfc.Router.Store.{interface_at-put_interface}
use ospfd_rfc.Router.Events.{event_neighbor_change}
use ospfd_rfc.Router.Hello.{
  lists_router, find_or_add, learn, process_hello, hello_changes, hello_event,
}

-- A neighbor behind a Hello that does not list this router.
one_way :
    (n : Neighbor)
    → (n' : Neighbor) × (event_1way_received (event_hello_received n) ≡ ok n')
      × (n'.state ≡ init)
      × (n'.ip_addr ≡ n.ip_addr)
      × (n'.id ≡ n.id)
unfolding event_1way_received event_hello_received
one_way n = elim (Result-cases (event_1way_received (event_hello_received n))) [
  | inl (n', e) ↦ (n', e, ground arith, ground arith, ground arith)
  | inr (x, e) ↦ absurd (ground arith)
]

-- The sender of a Hello packet has the packet's source address, and taking it in leaves the
-- interface's state.
pub found_lem :
    (memory : Neighbor) (i : Interface) (src_ip : ℕ)
    → ((find_or_add memory i src_ip).0.ip_addr ≡ src_ip)
      × ((find_or_add memory i src_ip).1.state ≡ i.state)
unfolding new_neighbor get_neighbor_by_ip
found_lem memory i src_ip = elim (Option-cases (find (λ m. m.ip_addr == src_ip) i.neighbors)) [
  | inl e ↦ ground arith
  | inr (n, e) ↦
      let holds = find-holds (λ (m : Neighbor). m.ip_addr == src_ip) i.neighbors n e in
      ground (arith, e, holds)
]

-- Behind a Hello that lists this router the neighbor keeps what the packet said.
pub two_way_keeps :
    (h : Host) (n : Neighbor)
    → (n' : Neighbor) × (event_2way_received h (event_hello_received n) ≡ ok n')
      × (n'.ip_addr ≡ n.ip_addr)
      × (n'.designated_router ≡ n.designated_router)
      × (n'.backup_designated_router ≡ n.backup_designated_router)
      × (n'.id ≡ n.id)
      × (3 ≤ rank n'.state)
unfolding event_2way_received event_hello_received
two_way_keeps h n = elim (Result-cases (event_2way_received h (event_hello_received n))) [
  | inl (n', e) ↦ (n', e, ground arith, ground arith, ground arith, ground arith, ground arith)
  | inr (x, e) ↦ absurd (ground arith)
]

-- A Hello packet that does not list this router never fails, whatever state the neighbor was in: the
-- neighbor with the packet's source address, which is added if it is new, is in Init under the id of the
-- packet.
pub process_hello_one_way :
    (r : Router) (k : ℕ) (i : Interface) (hdr : OspfHeader) (bytes attached : List ℕ)
    (hello : Hello) (src_ip : ℕ)
    → interface_at r k ≡ ok i
    → get_hello bytes ≡ ok (hello, attached)
    → lists_router r.router_id hdr.length 44 attached ≡ ok false
    → let found = find_or_add r.memory i src_ip in
      (n : Neighbor) × (n.state ≡ init)
      × (n.ip_addr ≡ src_ip)
      × (n.id ≡ hdr.router_id)
      × (process_hello r k hdr bytes src_ip ≡ ok (put_interface r k (put_neighbor found.1 n)))
unfolding process_hello
process_hello_one_way r k i hdr bytes attached hello src_ip at_k parsed one =
    let (n, e, s, eip, eid) = one_way (learn hdr hello (find_or_add r.memory i src_ip).0) in
    let (ip, _) = found_lem r.memory i src_ip in
    (n, s, eip ∙ ip, eid, rw at_k (rw parsed (rw one (rw e refl))))

-- NeighborChange is not taken while the interface waits.
change_refused :
    (r : Router) (k : ℕ) (before n : Neighbor) (i : Interface)
    → interface_at r k ≡ ok i
    → i.state ≡ waiting
    → n.designated_router ≡ n.ip_addr
    → n.backup_designated_router ≢ 0
    → before.designated_router ≢ n.ip_addr
    → hello_changes r k before n ≡ fault assertion_failed
unfolding hello_changes hello_event event_neighbor_change
change_refused r k before n i at_k waits d b old = ground (arith, at_k)

-- On an interface that is still waiting, a Hello packet of a neighbor that lists this router, newly
-- declares itself DR and names a BDR makes the router fail an assertion: the packet raises
-- NeighborChange, which the interface takes only when the wait is over.
pub process_hello_waiting :
    (r : Router) (k : ℕ) (i : Interface) (hdr : OspfHeader) (bytes attached : List ℕ)
    (hello : Hello) (src_ip : ℕ)
    → interface_at r k ≡ ok i
    → get_hello bytes ≡ ok (hello, attached)
    → lists_router r.router_id hdr.length 44 attached ≡ ok true
    → i.state ≡ waiting
    → hello.designated_router ≡ src_ip
    → hello.backup_designated_router ≢ 0
    → (find_or_add r.memory i src_ip).0.designated_router ≢ src_ip
    → process_hello r k hdr bytes src_ip ≡ fault assertion_failed
unfolding process_hello
process_hello_waiting r k i hdr bytes attached hello src_ip at_k parsed two waits d b before =
    let found = find_or_add r.memory i src_ip in
    let (ip, st) = found_lem r.memory i src_ip in
    let (n, e, eip, ed, eb, _, _) = two_way_keeps (host i) (learn hdr hello found.0) in
    let j : Interface = put_neighbor found.1 n in
    let waits' : j.state ≡ waiting = cc in
    let declares : n.designated_router ≡ n.ip_addr = cc in
    let names : n.backup_designated_router ≢ 0 = λ z. b (cc) in
    let newly : found.0.designated_router ≢ n.ip_addr = λ z. before cc in
    let refused =
      change_refused (put_interface r k j) k found.0 n j (interface_at-put_interface r k j at_k)
        waits' declares names newly in
    rw at_k (rw parsed (rw two (rw e refused)))
