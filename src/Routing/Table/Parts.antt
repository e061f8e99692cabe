-- ===== src/Routing/Table/Parts.antt =====
-- A run of update_route that succeeds, taken apart, for a database of one area.
use ospfd_rfc.Base.{
  ℕ, ◌+◌, ◌≤◌, ◌≡◌, ◌≢◌, refl, sym, ap, subst, ◌∙◌, inl, inr, true, some, List, [], ◌∷◌, map,
  Bool-cases, ok, endless, from_option, >>=-eq-ok, ok-injective, from_option-ok, arith,
}
use mathlib.Core.List.{Memᴰ}
use mathlib.Core.List.Memᴰ
use ospfd_rfc.Base.Maps.{Map, has_key, index, index-Memᴰ}
use ospfd_rfc.Lsa.{RouterLsa}
use ospfd_rfc.Lsdb.{Lsdb}
use ospfd_rfc.Interface.{Interface}
use ospfd_rfc.Routing.{Node, zero_node, Edge, RoutingTable, Choices}
use ospfd_rfc.Routing.Graph.{build}
use ospfd_rfc.Routing.Graph.Built.{HasMetric16, build-IsGraph, build-IsMap}
use ospfd_rfc.Routing.Dijkstra.{Search, dist_of, edge_count, dijkstra}
use ospfd_rfc.Routing.Dijkstra.Walks.{Walk}
use ospfd_rfc.Routing.Dijkstra.Correct.{IsGraph, found}
use ospfd_rfc.Routing.Dijkstra.Keys.{dijkstra-IsMap}
use ospfd_rfc.Routing.Table.{Tree, add_summaries, write_routes, update_route}

-- The graph after the summary LSAs.
abbrev pub with_summaries : RoutingTable → Lsdb → Search → Tree
with_summaries table db s =
    add_summaries table.root_id db.summary_lsas
      (record { nodes = s.nodes; prevs = s.prevs; edges = (build db).edges })

pub update_route_parts :
    (c : Choices) (db : Lsdb) (interfaces : List Interface) (table table' : RoutingTable)
    → update_route c db interfaces table ≡ ok table'
    → (s : Search) × (dijkstra c table.root_id (build db).nodes (build db).edges ≡ some s)
      × (table'.nodes ≡ (with_summaries table db s).nodes)
      × (write_routes
            (edge_count (with_summaries table db s).edges + 2)
            table.root_id
            (with_summaries table db s).prevs
            interfaces
            (c.iterate table'.nodes)
          ≡ ok table'.routes)
unfolding update_route
update_route_parts c db interfaces table table' h =
    let g = build db in
    let found_tree = dijkstra c table.root_id g.nodes g.edges in
    let (s, searched, h') = >>=-eq-ok (from_option endless found_tree) _ h in
    let t = with_summaries table db s in
    let (routes, written, last_step) =
      >>=-eq-ok
        (write_routes (edge_count t.edges + 2) table.root_id t.prevs interfaces (c.iterate t.nodes))
        _ h' in
    let same = ok-injective last_step in
    let nodes : t.nodes ≡ table'.nodes = ap (λ (x : RoutingTable). x.nodes) same in
    (
      s,
      from_option-ok endless found_tree s searched,
      sym nodes,
      ap
            (λ (m : Map Node).
              write_routes (edge_count t.edges + 2) table.root_id t.prevs interfaces (c.iterate m))
            (sym nodes)
          ∙ written
          ∙ ap ok (ap (λ (x : RoutingTable). x.routes) same),
    )

pub map-Memᴰ :
    (n : Node) (m : Map Node) → Memᴰ n (map (λ entry. entry.1) m) → (k : ℕ) × Memᴰ (k, n) m
map-Memᴰ n [] m = absurd (Memᴰ.not-nil m)
map-Memᴰ n ((k, n') ∷ m) here = elim (Memᴰ.cases_cons here) [
  | inl same ↦ (k, Memᴰ.head (ap (λ (x : Node). (k, x)) same))
  | inr later ↦ let (k', there) = map-Memᴰ n m later in (k', Memᴰ.tail there)
]

-- One area: the database has the root's own router LSA and no summary LSA.
pub record IsOneArea (db : Lsdb) (root : ℕ) (own : RouterLsa) : Type 0 where
  pub own_known : Memᴰ own db.router_lsas
  pub own_id : own.header.link_state_id ≡ root
  pub metric16 : HasMetric16 db.router_lsas
  pub few_edges : edge_count (build db).edges ≤ 65534
  pub no_summaries : db.summary_lsas ≡ []

module _ (c : Choices) (db : Lsdb) (interfaces : List Interface) (table : RoutingTable)
    (own : RouterLsa) (area : IsOneArea db table.root_id own) where
  open area use {own_known, own_id, metric16, few_edges, no_summaries}

  pub graph : IsGraph table.root_id (build db).nodes (build db).edges
  graph =
      subst (λ (x : ℕ). IsGraph x (build db).nodes (build db).edges) own_id
        (build-IsGraph db own own_known metric16 few_edges)

  pub plain :
      (s : Search)
      → with_summaries table db s
        ≡ record { nodes = s.nodes; prevs = s.prevs; edges = (build db).edges }
  unfolding add_summaries
  plain s = rw no_summaries refl

  module _ (table' : RoutingTable) (result : update_route c db interfaces table ≡ ok table') where
    pub parts :
        (s : Search) × (dijkstra c table.root_id (build db).nodes (build db).edges ≡ some s)
        × (table'.nodes ≡ s.nodes)
        × (write_routes
              (edge_count (build db).edges + 2)
              table.root_id
              s.prevs
              interfaces
              (c.iterate table'.nodes)
            ≡ ok table'.routes)
    parts =
        let (s, searched, nodes, written) =
          update_route_parts c db interfaces table table' result in
        (
          s,
          searched,
          nodes ∙ ap (λ (t : Tree). t.nodes) (plain s),
          subst
              (λ (t : Tree).
                write_routes (edge_count t.edges + 2) table.root_id t.prevs interfaces
                  (c.iterate table'.nodes)
                ≡ ok table'.routes)
              (plain s) written,
        )

    -- A node with a mask is one of the graph, and the map has it under its id.
    pub node_at :
        (s : Search)
        → dijkstra c table.root_id (build db).nodes (build db).edges ≡ some s
        → table'.nodes ≡ s.nodes
        → (n : Node) → Memᴰ n (c.iterate table'.nodes)
        → n.mask ≢ 0
        → (has_key n.id (build db).nodes ≡ true) × (index zero_node n.id s.nodes ≡ n)
    node_at s searched nodes n m mask =
        let (h, _) = found c table.root_id (build db).nodes (build db).edges graph s searched in
        let once =
          dijkstra-IsMap c table.root_id (build db).nodes (build db).edges s searched
            (build-IsMap db metric16) in
        let (k, there) = map-Memᴰ n s.nodes (
          subst (λ (x : Map Node). Memᴰ n (map (λ entry. entry.1) x)) nodes
            ((c.iterate-Mem table'.nodes n).0 m)) in
        let here : index zero_node k s.nodes ≡ n = index-Memᴰ zero_node k n s.nodes once there in
        elim (Bool-cases (has_key k (build db).nodes)) [
          | inl known ↦
              let same : n.id ≡ k = ap (λ (x : Node). x.id) (sym here) ∙ h.ids k known in
              (rw same known, ap (λ (x : ℕ). index zero_node x s.nodes) same ∙ here)
          | inr unknown ↦ absurd (mask (ap (λ (x : Node). x.mask) (sym here ∙ h.unknown k unknown)))
        ]

    -- The edge over which a node with the predecessor `p` was reached.
    pub last_edge :
        (s : Search)
        → dijkstra c table.root_id (build db).nodes (build db).edges ≡ some s
        → (v p : ℕ) → index 0 v s.prevs ≡ p
        → p ≢ 0
        → (e : Edge) × Memᴰ e (index [] p (build db).edges)
          × (e.dst ≡ v)
          × (dist_of s.nodes p + e.metric ≡ dist_of s.nodes v)
    last_edge s searched v p is_p some_prev =
        let (h, _) = found c table.root_id (build db).nodes (build db).edges graph s searched in
        elim (h.parent v) [
          | inl (none_yet, _) ↦ absurd (some_prev (sym is_p ∙ none_yet))
          | inr (_, _, e, m, target, sum) ↦ (
            e,
            subst (λ (x : ℕ). Memᴰ e (index [] x (build db).edges)) is_p m,
            target,
            subst (λ (x : ℕ). dist_of s.nodes x + e.metric ≡ dist_of s.nodes v) is_p sum,
          )
        ]

    -- A node whose predecessor is not 0 is reached.
    pub reached :
        (s : Search)
        → dijkstra c table.root_id (build db).nodes (build db).edges ≡ some s
        → (v : ℕ) → index 0 v s.prevs ≢ 0
        → Walk table.root_id (build db).nodes (build db).edges v (dist_of s.nodes v)
    reached s searched v some_prev =
        let g = graph in
        let (h, _) = found c table.root_id (build db).nodes (build db).edges g s searched in
        elim (h.parent v) [
          | inl (none_yet, _) ↦ absurd (some_prev none_yet)
          | inr (known, seen, e, m, target, sum) ↦ elim (h.walked v known) [
            | inl far ↦
                let (_, low) = h.marked (index 0 v s.prevs) seen in
                let small = g.metric16 (index 0 v s.prevs) e m in
                absurd (omega (arith, sum, far, low, small, few_edges))
            | inr walk ↦ walk
          ]
        ]

    pub root_zero :
        (s : Search)
        → dijkstra c table.root_id (build db).nodes (build db).edges ≡ some s
        → dist_of s.nodes table.root_id ≡ 0
    root_zero s searched =
        let (h, _) = found c table.root_id (build db).nodes (build db).edges graph s searched in
        h.root_zero
