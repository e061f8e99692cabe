-- ===== src/Router/Store.antt =====
-- Reading back what was written to an interface or a neighbor.
use ospfd_rfc.Base.{
  ℕ, ◌≡◌, refl, inl, inr, some, List, [], ◌∷◌, ◌==◌, find, get_elem?, get_elem?-set_self,
  Option-cases, ok, arith,
}
use ospfd_rfc.Neighbor.{Neighbor}
use ospfd_rfc.Interface.{Interface, get_neighbor_by_ip}
use ospfd_rfc.Router.{Router, interface_at, put_interface, put_neighbor, replace_neighbor}

pub interface_at-put_interface :
    (r : Router) (k : ℕ) {i : Interface} (j : Interface)
    → interface_at r k ≡ ok i
    → interface_at (put_interface r k j) k ≡ ok j
interface_at-put_interface r k j e = elim (Option-cases (get_elem? r.interfaces k)) [
  | inl n ↦ absurd (ground arith)
  | inr (x, s) ↦ rw (get_elem?-set_self r.interfaces k j s) refl
]

find-replace_neighbor :
    (ns : List Neighbor) (ip : ℕ) (m n : Neighbor)
    → find (λ x. x.ip_addr == ip) ns ≡ some m
    → n.ip_addr ≡ ip
    → find (λ x. x.ip_addr == ip) (replace_neighbor n ns) ≡ some n
find-replace_neighbor [] ip m n e same = cc
find-replace_neighbor (x ∷ ns) ip m n e same = ground (arith, find-replace_neighbor ns ip m n)

pub get_neighbor_by_ip-put_neighbor :
    (i : Interface) (ip : ℕ) (m n : Neighbor)
    → get_neighbor_by_ip i ip ≡ some m
    → n.ip_addr ≡ ip
    → get_neighbor_by_ip (put_neighbor i n) ip ≡ some n
unfolding get_neighbor_by_ip
get_neighbor_by_ip-put_neighbor i ip m n e same = find-replace_neighbor i.neighbors ip m n e same
