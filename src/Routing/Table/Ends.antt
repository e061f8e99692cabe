-- ===== src/Routing/Table/Ends.antt =====
-- update_route on the database of one area ends, with a table or at the assertion on the interface.
use ospfd_rfc.Base.{
  ℕ, ◌+◌, ◌≡◌, ◌≢◌, refl, sym, ap, subst, inl, inr, Option, none, some, List, [], ◌∷◌, ◌==◌,
  if◌then◌else◌, Bool-cases, Result, ok, fault, Fault, assertion_failed, endless, from_option,
  from_option-ok, ◌>>=◌,
}
use ospfd_rfc.Base.Maps.{Map, index}
use ospfd_rfc.Lsa.{RouterLsa}
use ospfd_rfc.Lsdb.{Lsdb}
use ospfd_rfc.Interface.{Interface}
use ospfd_rfc.Routing.{Node, RoutingTable, Choices}
use ospfd_rfc.Routing.Graph.{build}
use ospfd_rfc.Routing.Dijkstra.{edge_count, dijkstra}
use ospfd_rfc.Routing.Dijkstra.Correct.{dijkstra_returns}
use ospfd_rfc.Routing.Table.{
  Tree, chase, find_direct, find_hop, route_entry, route_of, push_route, write_routes, update_route,
}
use ospfd_rfc.Routing.Table.Chase.{chase_returns}
use ospfd_rfc.Routing.Table.Parts.{IsOneArea, with_summaries}
use ospfd_rfc.Routing.Table.Parts

abbrev Ends : {A : Type 0} → Result A → Type 0
Ends r = r ≢ fault endless

ok-Ends : {A : Type 0} (a : A) → Ends (ok a)
ok-Ends a h = cc

>>=-Ends :
    {A B : Type 0} (first : Result A) (next : A → Result B)
    → Ends first
    → ((a : A) → first ≡ ok a → Ends (next a))
    → Ends (first >>= next)
>>=-Ends (ok a) next h h' = h' a refl
>>=-Ends (fault x) next h h' = λ e. h (ap fault (fault-injective e))
  where
    fault-injective : {A : Type 0} {x y : Fault} → Path (Result A) (fault x) (fault y) → x ≡ y
    fault-injective e = cc

assertion-Ends : {A : Type 0} (o : Option A) → Ends (from_option assertion_failed o)
assertion-Ends none h = cc
assertion-Ends (some a) h = cc

found-Ends : {A : Type 0} (o : Option A) (a : A) → o ≡ some a → Ends (from_option endless o)
found-Ends none a h = cc
found-Ends (some b) a h = ok-Ends b

module _ (fuel root : ℕ) (prevs : Map ℕ) (interfaces : List Interface) where
  route_of-Ends :
      (n : Node) (r : ℕ × ℕ)
      → chase root prevs fuel (index 0 n.id prevs) n.id ≡ some r
      → Ends (route_of fuel root prevs interfaces n)
  unfolding route_of
  route_of-Ends n r chased = elim (Bool-cases (index 0 n.id prevs == root)) [
    | inl direct ↦ rw direct (
        >>=-Ends (from_option assertion_failed (find_direct n.id 0 interfaces)) _
          (assertion-Ends (find_direct n.id 0 interfaces))
          (λ k e. ok-Ends (some (route_entry n 0 k))))
    | inr far ↦ rw far (
        >>=-Ends (from_option endless (chase root prevs fuel (index 0 n.id prevs) n.id)) _
          (found-Ends (chase root prevs fuel (index 0 n.id prevs) n.id) r chased)
          (λ (last, next) e. over_neighbor n last next))
  ]
    where
      over_neighbor :
          (n : Node) (last next : ℕ)
          → Ends (
              if last == 0
              then ok none
              else (from_option assertion_failed (find_hop next 0 interfaces) >>= λ (ip, k).
                  ok (some (route_entry n ip k))))
      over_neighbor n last next = elim (Bool-cases (last == 0)) [
        | inl at_zero ↦ rw at_zero (ok-Ends none)
        | inr some_hop ↦ rw some_hop (
            >>=-Ends (from_option assertion_failed (find_hop next 0 interfaces)) _
              (assertion-Ends (find_hop next 0 interfaces))
              (λ (ip, k) e. ok-Ends (some (route_entry n ip k))))
      ]

  write_routes-Ends :
      ((v : ℕ) → (r : ℕ × ℕ) × (chase root prevs fuel (index 0 v prevs) v ≡ some r))
      → (ns : List Node) → Ends (write_routes fuel root prevs interfaces ns)
  unfolding write_routes
  write_routes-Ends ends [] = ok-Ends []
  write_routes-Ends ends (n ∷ ns) =
      >>=-Ends (if n.mask == 0 then ok none else route_of fuel root prevs interfaces n) _
        (elim (Bool-cases (n.mask == 0)) [
          | inl no_mask ↦ rw no_mask (ok-Ends none)
          | inr mask ↦ rw mask (let (r, chased) = ends n.id in route_of-Ends n r chased)
        ])
        (λ o e.
          >>=-Ends (write_routes fuel root prevs interfaces ns) _ (write_routes-Ends ends ns)
            (λ es e'. ok-Ends (push_route o es)))

-- On the database of one area (IsOneArea: it has the router's own LSA and no summary LSA, the links'
-- metrics have 16 bits, and its graph has at most 65534 edges), update_route never runs without end:
-- neither the search nor the loop over the predecessors of a node does.
pub update_route_ends :
    (c : Choices) (db : Lsdb) (interfaces : List Interface) (table : RoutingTable) (own : RouterLsa)
    → IsOneArea db table.root_id own
    → update_route c db interfaces table ≢ fault endless
unfolding update_route
update_route_ends c db interfaces table own area =
    let g = Parts.graph c db interfaces table own area in
    let (s, searched) = dijkstra_returns c table.root_id (build db).nodes (build db).edges g in
    >>=-Ends (from_option endless (dijkstra c table.root_id (build db).nodes (build db).edges)) _
      (found-Ends (dijkstra c table.root_id (build db).nodes (build db).edges) s searched)
      (λ s' e.
        let searched' =
          from_option-ok endless (dijkstra c table.root_id (build db).nodes (build db).edges) s'
            e in
        let plain = Parts.plain c db interfaces table own area s' in
        let ends = chase_returns c table.root_id (build db).nodes (build db).edges g s' searched' in
        >>=-Ends (write_routes _ table.root_id _ interfaces _) _
          (subst
            (λ (t : Tree). Ends (
              write_routes (edge_count t.edges + 2) table.root_id t.prevs interfaces
                (c.iterate t.nodes)))
            (sym plain)
            (write_routes-Ends (edge_count (build db).edges + 2) table.root_id s'.prevs interfaces
              ends (c.iterate s'.nodes)))
          (λ routes e'. ok-Ends _))
