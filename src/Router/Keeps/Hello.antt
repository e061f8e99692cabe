-- ===== src/Router/Keeps/Hello.antt =====
-- A Hello packet keeps what no step changes.
use ospfd_rfc.Base.{
  ℕ, ◌≡◌, refl, Bool, true, Option-cases, inl, inr, none, some, List, [], ◌∷◌, ◌++◌, ◌==◌, ◌&&◌,
  find, if◌then◌else◌, ok, arith, ◌>>=◌, Holds, Holds-ok, Holds-if, Holds->>=,
}
use ospfd_rfc.Neighbor.{
  Neighbor, new_neighbor, event_hello_received, event_2way_received, event_1way_received,
}
use ospfd_rfc.Neighbor.Sound.{
  new_neighbor-IsSound, ◌⟿◌, ⟿-trans, event_hello_received-⟿, event_2way_received-⟿,
  event_1way_received-⟿,
}
use ospfd_rfc.Interface.{Interface, host, get_neighbor_by_ip, same_if_state, waiting}
use ospfd_rfc.Packet.{OspfHeader, get_hello}
use ospfd_rfc.Router.{Router, interface_at, put_interface, put_neighbor}
use ospfd_rfc.Router.Events.{event_backup_seen, event_neighbor_change}
use ospfd_rfc.Router.Hello.{
  lists_router, find_or_add, learn, xor, hello_event, hello_changes, process_hello,
}
use ospfd_rfc.Router.Neighbors.{
  InterfaceKeeps, InterfaceKeeps-refl, InterfaceKeeps-trans, InterfaceKeeps-append,
  InterfaceKeeps-put_neighbor,
}
use ospfd_rfc.Router.Keeps.{Keeps, Keeps-refl, put_interface-Keeps}
use ospfd_rfc.Router.Keeps.Events.{
  Holds-Keeps, event_backup_seen-Keeps, event_neighbor_change-Keeps,
}

find-append :
    (ns : List Neighbor) (n : Neighbor)
    → find (λ m. m.ip_addr == n.ip_addr) ns ≡ none
    → find (λ m. m.ip_addr == n.ip_addr) (ns ++ (n ∷ [])) ≡ some n
find-append [] n e = ground arith
find-append (m ∷ ns) n e = ground (arith, find-append ns n)

-- The sender is a neighbor of the interface afterwards, and the others are as they were.
find_or_add-keeps :
    (memory : Neighbor) (i : Interface) (src_ip : ℕ)
    → let found = find_or_add memory i src_ip in
      InterfaceKeeps i found.1 × (get_neighbor_by_ip found.1 src_ip ≡ some found.0)
unfolding new_neighbor get_neighbor_by_ip
find_or_add-keeps memory i src_ip = elim (Option-cases (get_neighbor_by_ip i src_ip)) [
  | inl e ↦
      rw (e, find_or_add)
        (
          InterfaceKeeps-append i (new_neighbor memory src_ip) e
              (new_neighbor-IsSound memory src_ip),
          find-append i.neighbors (new_neighbor memory src_ip) e,
        )
  | inr (n, e) ↦ rw (e, find_or_add) (InterfaceKeeps-refl i, e)
]

hello_event-Keeps :
    (r : Router) (k : ℕ) (first claims claimed : Bool)
    → Holds (Keeps r) (hello_event r k first claims claimed)
unfolding hello_event
hello_event-Keeps r k first claims claimed = Holds->>= (Keeps r) (interface_at r k) _ (λ i e.
    Holds-if (Keeps r) (claims && (first && same_if_state i.state waiting)) (event_backup_seen r k)
      (if xor claimed claims then event_neighbor_change r k else ok r)
      (λ e'. event_backup_seen-Keeps r k)
      (λ e'.
        Holds-if (Keeps r) (xor claimed claims) (event_neighbor_change r k) (ok r)
          (λ e''. event_neighbor_change-Keeps r k) (λ e''. Keeps-refl r)))

hello_changes-Keeps :
    (r : Router) (k : ℕ) (before n : Neighbor) → Holds (Keeps r) (hello_changes r k before n)
unfolding hello_changes
hello_changes-Keeps r k before n =
    let first =
      hello_event r k (n.backup_designated_router == 0) (n.designated_router == n.ip_addr)
        (before.designated_router == n.ip_addr) in
    Holds->>= (Keeps r) first _ (λ r' e.
      Holds-Keeps r r'
        (hello_event r' k true (n.backup_designated_router == n.ip_addr)
          (before.backup_designated_router == n.ip_addr))
        (Holds-ok (Keeps r) first r'
          (hello_event-Keeps r k (n.backup_designated_router == 0)
            (n.designated_router == n.ip_addr) (before.designated_router == n.ip_addr))
          e)
        (hello_event-Keeps r' k true (n.backup_designated_router == n.ip_addr)
          (before.backup_designated_router == n.ip_addr)))

pub process_hello-Keeps :
    (r : Router) (k : ℕ) (hdr : OspfHeader) (bytes : List ℕ) (src_ip : ℕ)
    → Holds (Keeps r) (process_hello r k hdr bytes src_ip)
unfolding process_hello
process_hello-Keeps r k hdr bytes src_ip = Holds->>= (Keeps r) (interface_at r k) _ (λ i at_k.
    Holds->>= (Keeps r) (get_hello bytes) _ (λ (hello, attached) e.
      let found = find_or_add r.memory i src_ip in
      let learned = learn hdr hello found.0 in
      let n = event_hello_received learned in
      let m : found.0 ⟿ n =
        ⟿-trans found.0 learned n (refl, λ s. s) (event_hello_received-⟿ (host i) learned) in
      Holds->>= (Keeps r) (lists_router r.router_id hdr.length 44 attached) _ (λ two_way e'.
        Holds-if (Keeps r) two_way
          (event_2way_received (host i) n >>= λ n'.
            hello_changes (put_interface r k (put_neighbor found.1 n')) k found.0 n')
          (event_1way_received n >>= λ n'. ok (put_interface r k (put_neighbor found.1 n')))
          (λ yes. Holds->>= (Keeps r) (event_2way_received (host i) n) _ (λ n' e''.
            Holds-Keeps r (put_interface r k (put_neighbor found.1 n'))
              (hello_changes (put_interface r k (put_neighbor found.1 n')) k found.0 n')
              (written r k i src_ip at_k n' (
                ⟿-trans found.0 n n' m (
                  Holds-ok (λ n'. n ⟿ n') (event_2way_received (host i) n) n'
                    (event_2way_received-⟿ (host i) n) e'')))
              (hello_changes-Keeps (put_interface r k (put_neighbor found.1 n')) k found.0 n')))
          (λ no. Holds->>= (Keeps r) (event_1way_received n) _ (λ n' e''.
            written r k i src_ip at_k n' (
              ⟿-trans found.0 n n' m (
                Holds-ok (λ n'. n ⟿ n') (event_1way_received n) n'
                  (event_1way_received-⟿ (host i) n) e'')))))))
  where
    written :
        (r : Router) (k : ℕ) (i : Interface) (src_ip : ℕ)
        → interface_at r k ≡ ok i
        → (n' : Neighbor) → (find_or_add r.memory i src_ip).0 ⟿ n'
        → Keeps r (put_interface r k (put_neighbor (find_or_add r.memory i src_ip).1 n'))
    written r k i src_ip at_k n' m =
        let found = find_or_add r.memory i src_ip in
        let (keep, at_ip) = find_or_add-keeps r.memory i src_ip in
        put_interface-Keeps r k i (put_neighbor found.1 n') at_k (
          InterfaceKeeps-trans i found.1 (put_neighbor found.1 n') keep
            (InterfaceKeeps-put_neighbor found.1 src_ip found.0 n' at_ip m))
