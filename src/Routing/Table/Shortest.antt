-- ===== src/Routing/Table/Shortest.antt =====
-- The routes that update_route makes of the database of one area: they are the shortest.
use Prim.Native.Nat.{bit_and}
use ospfd_rfc.Base.{
  ℕ, ◌+◌, ◌≤◌, ◌≡◌, ◌≢◌, sym, ap, subst, ◌∙◌, ◌⊎◌, inl, inr, some, List, [], get_elem?, ok, arith,
}
use mathlib.Core.List.{Memᴰ}
use ospfd_rfc.Base.Maps.{Map, index}
use ospfd_rfc.Lsa.{RouterLsa}
use ospfd_rfc.Lsdb.{Lsdb}
use ospfd_rfc.Neighbor.{Neighbor}
use ospfd_rfc.Interface.{Interface, get_neighbor_by_id}
use ospfd_rfc.Routing.{Node, zero_node, Edge, Entry, RoutingTable, Choices}
use ospfd_rfc.Routing.Graph.{build}
use ospfd_rfc.Routing.Dijkstra.{Search, dist_of, edge_count, dijkstra}
use ospfd_rfc.Routing.Dijkstra.Walks.{Walk}
use ospfd_rfc.Routing.Dijkstra.Keys.{dijkstra-mask}
use ospfd_rfc.Routing.Dijkstra.Correct.{dijkstra_shortest}
use ospfd_rfc.Routing.Table.{route_of, update_route}
use ospfd_rfc.Routing.Table.Chase.{chase-IsFirstHop, chase_nonzero, IsFirstHop}
use ospfd_rfc.Routing.Table.Routes.{
  find_direct_lem, find_hop_lem, route_of_cases, write_routes-Memᴰ,
}
use ospfd_rfc.Routing.Table.Parts.{IsOneArea}
use ospfd_rfc.Routing.Table.Parts

-- What a route says of the way to its network.
abbrev pub IsWay : Lsdb → List Interface → ℕ → Map Node → Entry → Type 0
IsWay db interfaces root dists e =
    (i : Interface) × (get_elem? interfaces e.intf ≡ some i)
    × (((e.next_hop ≡ 0)
          × (e.dst ≡ bit_and i.ip_addr i.mask)
          × (o : Edge) × Memᴰ o (index [] root (build db).edges)
          × (o.dst ≡ e.dst)
          × (o.metric ≡ e.metric))
        ⊎ ((next : ℕ) × (n : Neighbor) × (get_neighbor_by_id i next ≡ some n)
            × (e.next_hop ≡ n.ip_addr)
            × IsFirstHop root (build db).nodes (build db).edges dists next e.dst))

module _ (c : Choices) (db : Lsdb) (interfaces : List Interface) (table : RoutingTable)
    (own : RouterLsa) (area : IsOneArea db table.root_id own) (table' : RoutingTable)
    (result : update_route c db interfaces table ≡ ok table') where
  -- What holds of a node that has the route `e`.
  abbrev Routed : Search → Node → Entry → Type 0
  Routed s n e =
      (index zero_node n.id s.nodes ≡ n)
      × (e.dst ≡ n.id)
      × (e.metric ≡ n.dist)
      × (e.mask ≡ n.mask)
      × (index 0 n.id s.prevs ≢ 0)
      × IsWay db interfaces table.root_id s.nodes e

  place_of :
      (i : Interface) (j k place : ℕ)
      → place ≡ k
      → k ≡ 0 + j
      → get_elem? interfaces j ≡ some i
      → get_elem? interfaces place ≡ some i
  place_of i j k place is_k at_j there =
      let same : j ≡ place = omega (arith, is_k, at_j) in
      subst (λ (x : ℕ). get_elem? interfaces x ≡ some i) same there

  routed :
      (s : Search)
      → dijkstra c table.root_id (build db).nodes (build db).edges ≡ some s
      → table.root_id ≢ 0
      → (n : Node) → index zero_node n.id s.nodes ≡ n
      → (e : Entry)
      → route_of (edge_count (build db).edges + 2) table.root_id s.prevs interfaces n ≡ ok (some e)
      → Routed s n e
  routed s searched some_root n here e route =
      let fuel = edge_count (build db).edges + 2 in
      elim (route_of_cases fuel table.root_id s.prevs interfaces n e route) [
        | inl (k, direct, place, entry) ↦
            let (j, i, at_j, there, net) = find_direct_lem n.id 0 k interfaces place in
            let (o, leads, target, sum) =
              Parts.last_edge c db interfaces table own area table' result s searched n.id
                table.root_id direct some_root in
            let dst : e.dst ≡ n.id = ap (λ (x : Entry). x.dst) entry in
            let metric : e.metric ≡ n.dist = ap (λ (x : Entry). x.metric) entry in
            let dist : dist_of s.nodes n.id ≡ n.dist = ap (λ (x : Node). x.dist) here in
            (
              here,
              dst,
              metric,
              ap (λ (x : Entry). x.mask) entry,
              λ none_yet. some_root (sym direct ∙ none_yet),
              (
                i,
                place_of i j k e.intf (ap (λ (x : Entry). x.intf) entry) at_j there,
                inl (
                  ap (λ (x : Entry). x.next_hop) entry,
                  dst ∙ net,
                  o,
                  leads,
                  target ∙ sym dst,
                  omega (
                    arith,
                    sum,
                    dist,
                    metric,
                    Parts.root_zero c db interfaces table own area table' result s searched,
                  ),
                ),
              ),
            )
        | inr (last, next, ip, k, chased, some_hop, hop, entry) ↦
            let (j, i, nbr, at_j, there, is_nbr, addr) = find_hop_lem next 0 ip k interfaces hop in
            let dst : e.dst ≡ n.id = ap (λ (x : Entry). x.dst) entry in
            let (_, first) =
              chase-IsFirstHop c table.root_id (build db).nodes (build db).edges
                (Parts.graph c db interfaces table own area) s searched fuel n.id last next chased
                some_hop in
            (
              here,
              dst,
              ap (λ (x : Entry). x.metric) entry,
              ap (λ (x : Entry). x.mask) entry,
              chase_nonzero table.root_id fuel (index 0 n.id s.prevs) n.id s.prevs (last, next)
                  chased some_hop,
              (
                i,
                place_of i j k e.intf (ap (λ (x : Entry). x.intf) entry) at_j there,
                inr (
                  next,
                  nbr,
                  is_nbr,
                  ap (λ (x : Entry). x.next_hop) entry ∙ addr,
                  subst (IsFirstHop table.root_id (build db).nodes (build db).edges s.nodes next)
                      (sym dst) first,
                ),
              ),
            )
      ]

  routes_from :
      (e : Entry)
      → table.root_id ≢ 0
      → Memᴰ e table'.routes
      → (s : Search) × (dijkstra c table.root_id (build db).nodes (build db).edges ≡ some s)
        × (table'.nodes ≡ s.nodes)
        × (n : Node) × (n.mask ≢ 0)
        × Routed s n e
  routes_from e some_root m =
      let (s, searched, nodes, written) =
        Parts.parts c db interfaces table own area table' result in
      let (n, there, mask, route) =
        write_routes-Memᴰ (edge_count (build db).edges + 2) table.root_id s.prevs interfaces
          (c.iterate table'.nodes) table'.routes e written m in
      let (_, here) =
        Parts.node_at c db interfaces table own area table' result s searched nodes n there mask in
      (s, searched, nodes, n, mask, routed s searched some_root n here e route)

  -- The mask of a route is that of its network in the graph, and not 0.
  pub update_route-mask :
      (e : Entry)
      → table.root_id ≢ 0
      → Memᴰ e table'.routes
      → (e.mask ≡ (index zero_node e.dst (build db).nodes).mask) × (e.mask ≢ 0)
  update_route-mask e some_root m =
      let (s, searched, nodes, n, some_mask, (here, dst, metric, mask, _, _)) =
        routes_from e some_root m in
      let kept = dijkstra-mask c table.root_id (build db).nodes (build db).edges s e.dst searched in
      (
        mask
            ∙ sym (ap (λ (x : Node). x.mask) here)
            ∙ sym (ap (λ (x : ℕ). (index zero_node x s.nodes).mask) dst)
            ∙ kept,
        λ z. some_mask (sym mask ∙ z),
      )

  -- On the database of one area (IsOneArea: it has the router's own LSA and no summary LSA, the
  -- links' metrics have 16 bits, and its graph has at most 65534 edges), when update_route succeeds
  -- and the router's id is not 0: the metric of a route is the cost of a walk to its network, and
  -- the route's interface exists. Either the route is direct, and the interface is on the network
  -- and an edge of the route's metric leads there, or the next hop is the address of a neighbor of
  -- the interface, and this neighbor is the first hop of a shortest walk to the network.
  pub update_route-IsWay :
      (e : Entry)
      → table.root_id ≢ 0
      → Memᴰ e table'.routes
      → Walk table.root_id (build db).nodes (build db).edges e.dst e.metric
        × IsWay db interfaces table.root_id table'.nodes e
  update_route-IsWay e some_root m =
      let (s, searched, nodes, n, _, (here, dst, metric, _, some_prev, way)) =
        routes_from e some_root m in
      let walk =
        Parts.reached c db interfaces table own area table' result s searched n.id some_prev in
      let dist : dist_of s.nodes n.id ≡ e.metric = ap (λ (x : Node). x.dist) here ∙ sym metric in
      (
        subst (Walk table.root_id (build db).nodes (build db).edges e.dst) dist (
            subst
              (λ (v : ℕ).
                Walk table.root_id (build db).nodes (build db).edges v (dist_of s.nodes n.id))
              (sym dst) walk),
        subst (λ (x : Map Node). IsWay db interfaces table.root_id x e) (sym nodes) way,
      )

  -- On the database of one area (IsOneArea: it has the router's own LSA and no summary LSA, the
  -- links' metrics have 16 bits, and its graph has at most 65534 edges), when update_route succeeds
  -- and the router's id is not 0: no walk to the network of a route costs less than the route's
  -- metric.
  pub update_route_shortest :
      (e : Entry) (cost : ℕ)
      → table.root_id ≢ 0
      → Memᴰ e table'.routes
      → Walk table.root_id (build db).nodes (build db).edges e.dst cost
      → e.metric ≤ cost
  update_route_shortest e cost some_root m w =
      let (s, searched, nodes, n, _, (here, dst, metric, _, _, _)) = routes_from e some_root m in
      let dist : dist_of s.nodes e.dst ≡ e.metric =
        ap (λ (x : ℕ). dist_of s.nodes x) dst ∙ ap (λ (x : Node). x.dist) here ∙ sym metric in
      let (_, low, _) =
        dijkstra_shortest c table.root_id (build db).nodes (build db).edges
          (Parts.graph c db interfaces table own area) s searched e.dst cost w in
      omega (arith, low, dist)
