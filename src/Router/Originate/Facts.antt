-- ===== src/Router/Originate/Facts.antt =====
-- When the router's own LSA is originated, and when that fails.
use ospfd_rfc.Base.{
  ℕ, ◌+◌, ◌*◌, ◌-◌, ◌%◌, ◌≤◌, ◌≡◌, ◌≢◌, refl, ◌⊎◌, inl, inr, false, none, some, List, [], ◌∷◌, ◌++◌,
  All, length, take, drop, Bool, Result-cases, ok, fault, null_dereference, if◌then◌else◌,
  Bool-cases, arith,
}
use ospfd_rfc.Checksum.{fletcher16}
use ospfd_rfc.Neighbor.{Neighbor}
use ospfd_rfc.Interface.{Interface, if_rank, same_if_state, down, get_neighbor_by_ip}
use ospfd_rfc.Lsa.{Link, RouterLsa, router, router_size}
use ospfd_rfc.Lsa.LsaType
use ospfd_rfc.Lsa.Codec.{router_bytes, router_make_checksum, packet_checksum}
use ospfd_rfc.Lsdb.{get}
use ospfd_rfc.Lsdb.Keys.{find_like-append}
use ospfd_rfc.Router.{Router}
use ospfd_rfc.Router.Originate.{
  is_transit, transit_link, stub_link, router_links, own_header, make_router_lsa, next_seq_num,
  make_lsa_router,
}

-- The DR of an interface's network can be looked up where make_router_lsa does so: the interface is
-- down or waiting, is itself the DR, or has the DR among its neighbors.
abbrev pub IsAnchored : Interface → Type 0
IsAnchored i =
    (if_rank i.state ≡ 0)
    ⊎ (if_rank i.state ≡ 2)
    ⊎ (i.designated_router ≡ i.ip_addr)
    ⊎ ((n : Neighbor) × (get_neighbor_by_ip i i.designated_router ≡ some n))

-- The interfaces that are not down.
abbrev pub count_up : List Interface → ℕ
count_up [] = 0
count_up (i ∷ is) = if same_if_state i.state down then count_up is else count_up is + 1

is_transit_cases :
    (i : Interface) → ((t : Bool) × (is_transit i ≡ ok t)) ⊎ (is_transit i ≡ fault null_dereference)
is_transit_cases i = elim (Result-cases (is_transit i)) [
  | inl done ↦ inl done
  | inr (x, e) ↦ inr (unfold is_transit in ground arith)
]

anchored_runs :
    (i : Interface)
    → IsAnchored i
    → same_if_state i.state down ≡ false
    → is_transit i ≢ fault null_dereference
unfolding is_transit
anchored_runs i a on e = ground arith

is_transit_total :
    (i : Interface)
    → IsAnchored i
    → same_if_state i.state down ≡ false
    → (t : Bool) × (is_transit i ≡ ok t)
is_transit_total i a on = elim (is_transit_cases i) [
  | inl done ↦ done
  | inr failed ↦ absurd (anchored_runs i a on failed)
]

router_links_total :
    (is : List Interface)
    → All IsAnchored is
    → (ls : List Link) × (router_links is ≡ ok ls) × (length ls ≡ count_up is)
unfolding router_links
router_links_total [] a = ([], refl, refl)
router_links_total (i ∷ is) a =
    let (ls, e, n) = router_links_total is a.1 in
    elim (Bool-cases (same_if_state i.state down)) [
      | inl off ↦ (ls, rw off e, rw off n)
      | inr on ↦
          let (t, et) = is_transit_total i a.0 on in
          (
            (if t then transit_link i else stub_link i) ∷ ls,
            rw on (rw et (rw e refl)),
            rw on (omega arith),
          )
    ]

is_transit_null :
    (i : Interface)
    → if_rank i.state ≢ 2
    → i.designated_router ≢ i.ip_addr
    → get_neighbor_by_ip i i.designated_router ≡ none
    → is_transit i ≡ fault null_dereference
unfolding is_transit
is_transit_null i w d e = ground arith

router_links_null :
    (xs ys : List Interface) (i : Interface)
    → if_rank i.state ≢ 0
    → is_transit i ≡ fault null_dereference
    → router_links (xs ++ (i ∷ ys)) ≡ fault null_dereference
unfolding router_links
router_links_null [] ys i up e = ground arith
router_links_null (x ∷ xs) ys i up e =
    let rest = router_links_null xs ys i up e in
    elim (is_transit_cases x) [
      | inl (t, et) ↦ rw et (rw rest (ground arith))
      | inr et ↦ rw et (rw rest (ground arith))
    ]

-- Originating the router's LSA reads through a null pointer as soon as one interface is up, past
-- waiting and not the DR, and does not have its DR among its neighbors: so does a point-to-point
-- interface, which never elects a DR.
pub originate_unknown_dr :
    (r : Router) (xs ys : List Interface) (i : Interface)
    → r.interfaces ≡ xs ++ (i ∷ ys)
    → if_rank i.state ≢ 0
    → if_rank i.state ≢ 2
    → i.designated_router ≢ i.ip_addr
    → get_neighbor_by_ip i i.designated_router ≡ none
    → make_lsa_router r ≡ fault null_dereference
unfolding make_lsa_router make_router_lsa
originate_unknown_dr r xs ys i place up waited other unknown =
    let failed = router_links_null xs ys i up (is_transit_null i waited other unknown) in
    rw place (rw failed refl)

-- The LSA that make_router_lsa builds, up to its checksum.
own_router_lsa : Router → List Link → ℕ → RouterLsa
unfolding own_header
own_router_lsa r ls ck = record {
  header = record (own_header r LsaType.router r.router_id (24 + 12 * length ls)) { checksum = ck };
  flags = 0;
  num_links = length ls % 65536;
  links = ls;
}

-- Its size is the length that its header states, so the checksum reads no byte outside it.
make_router_lsa_lem :
    (r : Router) (ls : List Link)
    → router_links r.interfaces ≡ ok ls
    → length ls ≤ 5000
    → (ck : ℕ) × (make_router_lsa r ≡ ok (own_router_lsa r ls ck, next_seq_num r))
unfolding make_router_lsa router_make_checksum own_router_lsa router_size packet_checksum
make_router_lsa_lem r ls e bound = (
  fletcher16 (take (24 + 12 * length ls - 2) (drop 2 (router_bytes (own_router_lsa r ls 0)))) 14,
  ground (arith, e),
)

-- A router whose database has no LSA of its own, and whose interfaces are all anchored, originates
-- one: it can be found under the router's id, has one link for each interface that is not down, and
-- carries the next sequence number, which is used up. It is not flooded.
pub make_lsa_router_first :
    (r : Router)
    → get r.lsdb LsaType.router r.router_id r.router_id ≡ none
    → All IsAnchored r.interfaces
    → count_up r.interfaces ≤ 5000
    → (r' : Router) × (lsa : RouterLsa) × (make_lsa_router r ≡ ok r')
      × (get r'.lsdb LsaType.router r.router_id r.router_id ≡ some (router lsa))
      × (length lsa.links ≡ count_up r.interfaces)
      × (lsa.header.sequence_number ≡ r.lsa_seq_num % 4294967296)
      × (r'.lsa_seq_num ≡ (r.lsa_seq_num + 1) % 18446744073709551616)
      × (r'.sent ≡ r.sent)
unfolding make_lsa_router get own_router_lsa own_header
make_lsa_router_first r e a bound =
    let (ls, links, n) = router_links_total r.interfaces a in
    let (ck, made) = make_router_lsa_lem r ls links (omega arith) in
    let lsa : RouterLsa = own_router_lsa r ls ck in
    (
      record (next_seq_num r) {
        lsdb = record (r.lsdb) { router_lsas = r.lsdb.router_lsas ++ (lsa ∷ []) };
      },
      lsa,
      rw made (rw e refl),
      ground (arith, find_like-append (λ (l : RouterLsa). l.header) r.lsdb.router_lsas lsa),
      n,
      refl,
      refl,
      refl,
    )
