-- ===== src/Routing/Table/Routes.antt =====
-- Where the routes come from: each is that of a node with a mask, over an interface of the router.
use Prim.Native.Nat.{bit_and}
use ospfd_rfc.Base.{
  ℕ, suc, ◌+◌, ◌≡◌, ◌≢◌, refl, sym, ap, subst, ◌∙◌, ◌⊎◌, inl, inr, Bool, Option, none, some, List,
  [], ◌∷◌, ◌==◌, if◌then◌else◌, Bool-cases, Option-cases, get_elem?, Result, ok, assertion_failed,
  endless, from_option, ◌>>=◌, >>=-eq-ok, ok-injective, from_option-ok, arith,
}
use mathlib.Core.Option.{some-injective, none-ne-some}
use mathlib.Core.List.{Memᴰ}
use mathlib.Core.List.Memᴰ
use ospfd_rfc.Base.Maps.{Map, index}
use ospfd_rfc.Neighbor.{Neighbor}
use ospfd_rfc.Interface.{Interface, get_neighbor_by_id}
use ospfd_rfc.Routing.{Node, Entry}
use ospfd_rfc.Routing.Table.{
  chase, find_hop, find_direct, route_entry, route_of, push_route, write_routes,
}

pub find_direct_lem :
    (dst k j : ℕ) (is : List Interface)
    → find_direct dst k is ≡ some j
    → (m : ℕ) × (i : Interface) × (j ≡ k + m)
      × (get_elem? is m ≡ some i)
      × (dst ≡ bit_and i.ip_addr i.mask)
unfolding find_direct
find_direct_lem dst k j [] h = absurd (none-ne-some j h)
find_direct_lem dst k j (i ∷ is) h = elim (Bool-cases (dst == bit_and i.ip_addr i.mask)) [
  | inl same ↦ (0, i, ground (arith, h, same), refl, ground (arith, same))
  | inr other ↦
      let later : find_direct dst (suc k) is ≡ some j = ground (arith, h, other) in
      let (m, i', place, here, net) = find_direct_lem dst (suc k) j is later in
      (suc m, i', omega (arith, place), here, net)
]

pub find_hop_lem :
    (id k ip j : ℕ) (is : List Interface)
    → find_hop id k is ≡ some (ip, j)
    → (m : ℕ) × (i : Interface) × (n : Neighbor) × (j ≡ k + m)
      × (get_elem? is m ≡ some i)
      × (get_neighbor_by_id i id ≡ some n)
      × (ip ≡ n.ip_addr)
unfolding find_hop
find_hop_lem id k ip j [] h = absurd (none-ne-some (ip, j) h)
find_hop_lem id k ip j (i ∷ is) h = elim (Option-cases (get_neighbor_by_id i id)) [
  | inl missing ↦
      let on : find_hop id k (i ∷ is) ≡ find_hop id (suc k) is = rw (missing, find_hop) refl in
      let (m, i', n, place, here, nbr, addr) = find_hop_lem id (suc k) ip j is (sym on ∙ h) in
      (suc m, i', n, omega (arith, place), here, nbr, addr)
  | inr (n, nbr) ↦
      let here : find_hop id k (i ∷ is) ≡ some (n.ip_addr, k) = rw (nbr, find_hop) refl in
      let same : (n.ip_addr, k) ≡ (ip, j) = some-injective (n.ip_addr, k) (ip, j) (sym here ∙ h) in
      (
        0,
        i,
        n,
        omega (arith, ap (λ (p : ℕ × ℕ). p.1) same),
        refl,
        nbr,
        sym (ap (λ (p : ℕ × ℕ). p.0) same),
      )
]

module _ (fuel root : ℕ) (prevs : Map ℕ) (interfaces : List Interface) where
  -- The two ways in which a node gets its route.
  abbrev pub IsDirect : Node → Entry → Type 0
  IsDirect n e =
      (k : ℕ) × (index 0 n.id prevs ≡ root)
      × (find_direct n.id 0 interfaces ≡ some k)
      × (e ≡ route_entry n 0 k)

  abbrev pub IsOverNeighbor : Node → Entry → Type 0
  IsOverNeighbor n e =
      (last : ℕ) × (next : ℕ) × (ip : ℕ) × (k : ℕ) × (chase root prevs fuel (index 0 n.id prevs)
          n.id
        ≡ some (last, next))
      × (last ≢ 0)
      × (find_hop next 0 interfaces ≡ some (ip, k))
      × (e ≡ route_entry n ip k)

  -- What route_of does after the loop, at the test whether the loop ended at 0.
  abbrev hop_route : Bool → Node → ℕ → Result (Option Entry)
  hop_route at_zero n next =
      if at_zero
      then ok none
      else (from_option assertion_failed (find_hop next 0 interfaces) >>= λ (ip, k).
          ok (some (route_entry n ip k)))

  over_neighbor :
      (n : Node) (e : Entry) (last next : ℕ)
      → chase root prevs fuel (index 0 n.id prevs) n.id ≡ some (last, next)
      → hop_route (last == 0) n next ≡ ok (some e)
      → IsOverNeighbor n e
  over_neighbor n e last next chased h = elim (Bool-cases (last == 0)) [
    | inl zero_hop ↦ absurd (
        none-ne-some e
          (ok-injective (subst (λ (b : Bool). hop_route b n next ≡ ok (some e)) zero_hop h)))
    | inr some_hop ↦
        let h' = subst (λ (b : Bool). hop_route b n next ≡ ok (some e)) some_hop h in
        let ((ip, k), hop, last_step) =
          >>=-eq-ok (from_option assertion_failed (find_hop next 0 interfaces)) _ h' in
        (
          last,
          next,
          ip,
          k,
          chased,
          λ zero_hop. ground (arith, some_hop, zero_hop),
          from_option-ok assertion_failed (find_hop next 0 interfaces) (ip, k) hop,
          some-injective e (route_entry n ip k) (ok-injective (sym last_step)),
        )
  ]

  pub route_of_cases :
      (n : Node) (e : Entry)
      → route_of fuel root prevs interfaces n ≡ ok (some e)
      → IsDirect n e ⊎ IsOverNeighbor n e
  unfolding route_of
  route_of_cases n e h = elim (Bool-cases (index 0 n.id prevs == root)) [
    | inl direct ↦
        let body : route_of fuel root prevs interfaces n ≡ (
            from_option assertion_failed (find_direct n.id 0 interfaces) >>= λ k.
            ok (some (route_entry n 0 k))) =
          rw direct refl in
        let (k, place, last_step) =
          >>=-eq-ok (from_option assertion_failed (find_direct n.id 0 interfaces)) _
            (sym body ∙ h) in
        inl (
          k,
          ground (arith, direct),
          from_option-ok assertion_failed (find_direct n.id 0 interfaces) k place,
          some-injective e (route_entry n 0 k) (ok-injective (sym last_step)),
        )
    | inr far ↦
        let body : route_of fuel root prevs interfaces n ≡ (
            from_option endless (chase root prevs fuel (index 0 n.id prevs) n.id)
            >>= λ (last, next_id).
                if last == 0
                then ok none
                else (from_option assertion_failed (find_hop next_id 0 interfaces) >>= λ (ip, k).
                    ok (some (route_entry n ip k)))) =
          rw far refl in
        let ((last, next), chased, h') =
          >>=-eq-ok (from_option endless (chase root prevs fuel (index 0 n.id prevs) n.id)) _
            (sym body ∙ h) in
        inr (
          over_neighbor n e last next
            (from_option-ok endless (chase root prevs fuel (index 0 n.id prevs) n.id) (last, next)
              chased)
            h')
  ]

  from_first :
      (n : Node) (o : Option Entry) (e : Entry)
      → (if n.mask == 0 then ok none else route_of fuel root prevs interfaces n) ≡ ok o
      → o ≡ some e
      → (n.mask ≢ 0) × (route_of fuel root prevs interfaces n ≡ ok (some e))
  from_first n o e h is_some = elim (Bool-cases (n.mask == 0)) [
    | inl no_mask ↦
        let h' : ok none ≡ ok o = sym (rw no_mask refl) ∙ h in
        absurd (none-ne-some e (ok-injective h' ∙ is_some))
    | inr mask ↦
        let h' : route_of fuel root prevs interfaces n ≡ ok o = sym (rw mask refl) ∙ h in
        (λ no_mask. ground (arith, mask, no_mask), h' ∙ ap ok is_some)
  ]

  pub write_routes-Memᴰ :
      (ns : List Node) (es : List Entry) (e : Entry)
      → write_routes fuel root prevs interfaces ns ≡ ok es
      → Memᴰ e es
      → (n : Node) × Memᴰ n ns
        × (n.mask ≢ 0)
        × (route_of fuel root prevs interfaces n ≡ ok (some e))
  unfolding write_routes
  write_routes-Memᴰ [] es e h m =
      absurd (Memᴰ.not-nil (subst (λ (l : List Entry). Memᴰ e l) (ok-injective (sym h)) m))
  write_routes-Memᴰ (n ∷ ns) es e h m =
      let (o, first, h') =
        >>=-eq-ok (if n.mask == 0 then ok none else route_of fuel root prevs interfaces n) _ h in
      let (es', later, h'') = >>=-eq-ok (write_routes fuel root prevs interfaces ns) _ h' in
      let m' = subst (λ (l : List Entry). Memᴰ e l) (ok-injective (sym h'')) m in
      elim (pushed o e es' m') [
        | inl is_first ↦
            let (mask, route) = from_first n o e first is_first in (n, Memᴰ.head refl, mask, route)
        | inr old ↦
            let (n', there, mask, route) = write_routes-Memᴰ ns es' e later old in
            (n', Memᴰ.tail there, mask, route)
      ]
    where
      pushed :
          (o : Option Entry) (e : Entry) (es : List Entry)
          → Memᴰ e (push_route o es)
          → (o ≡ some e) ⊎ Memᴰ e es
      pushed none e es m = inr m
      pushed (some a) e es m = elim (Memᴰ.cases_cons m) [
        | inl same ↦ inl (ap some (sym same))
        | inr later ↦ inr later
      ]
