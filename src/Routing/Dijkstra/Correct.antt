-- ===== src/Routing/Dijkstra/Correct.antt =====
-- What the search finds in a graph: shortest distances, within the fuel.
use ospfd_rfc.Base.{
  ℕ, ◌+◌, ◌≤◌, ◌<◌, ◌≡◌, refl, sym, subst, ◌∙◌, ◌⊎◌, inl, inr, true, false, some, List, [], ◌∷◌,
  ◌==◌, if◌then◌else◌, Bool-cases, arith,
}
use mathlib.Core.Path.{fun_ext}
use mathlib.Core.Bool.{false≢true}
use mathlib.Core.Option.{some-injective}
use mathlib.Core.List.{Memᴰ}
use mathlib.Core.List.Memᴰ
use ospfd_rfc.Base.Maps.{Map, has_key, index, index-insert, index-missing}
use ospfd_rfc.Routing.{Node, zero_node, unreachable, Edge, Choices}
use ospfd_rfc.Routing.Dijkstra.{Search, dist_of, no_prevs, start, edge_count, dijkstra}
use ospfd_rfc.Routing.Dijkstra.Invariant.{Inv}
use ospfd_rfc.Routing.Dijkstra.Walks.{Walk, here, step, Memᴰ-cons}
use ospfd_rfc.Routing.Dijkstra.Step.{at, unseen-none, IsBetween}
use ospfd_rfc.Routing.Dijkstra.Loop.{search-IsBetween}

-- What the graph of a database is like: the root is in it, each node lies under its own id and is not
-- reached yet, and the metrics have 16 bits. Edges may lead to nodes that are missing.
pub record IsGraph (root : ℕ) (nodes : Map Node) (edges : Map (List Edge)) : Type 0 where
  pub root_known : has_key root nodes ≡ true
  pub node_id : (v : ℕ) → has_key v nodes ≡ true → (index zero_node v nodes).id ≡ v
  pub node_dist : (v : ℕ) → has_key v nodes ≡ true → (index zero_node v nodes).dist ≡ unreachable
  pub metric16 : (u : ℕ) (e : Edge) → Memᴰ e (index [] u edges) → e.metric ≤ 65535
  pub few_edges : edge_count edges ≤ 65534

index-no_prevs : (v : ℕ) (m : Map Node) → index 0 v (no_prevs m) ≡ 0
unfolding index no_prevs
index-no_prevs v [] = refl
index-no_prevs v ((k, n) ∷ m) = ground (arith, index-no_prevs v m)

module _ (c : Choices) (root : ℕ) (nodes : Map Node) (edges : Map (List Edge))
    (g : IsGraph root nodes edges) where
  open g use {root_known, node_id, node_dist, metric16, few_edges}

  abbrev at_root : Node
  at_root = record (index zero_node root nodes) { dist = 0 }

  unknown_start :
      (v : ℕ)
      → has_key v nodes ≡ false
      → (if root == v then at_root else index zero_node v nodes) ≡ zero_node
  unknown_start v k = elim (Bool-cases (root == v)) [
    | inl same ↦ ground (arith, same, k, root_known)
    | inr other ↦ rw other (index-missing zero_node v nodes k)
  ]

  parent_start :
      (v : ℕ)
      → (v ≡ root)
        ⊎ (has_key v nodes ≡ false)
        ⊎ ((if root == v then at_root else index zero_node v nodes).dist ≡ unreachable)
  parent_start v = elim (Bool-cases (root == v)) [
    | inl same ↦ inl (ground (arith, same))
    | inr other ↦ elim (Bool-cases (has_key v nodes)) [
      | inl k ↦ inr (inr (rw other (node_dist v k)))
      | inr k ↦ inr (inl k)
    ]
  ]

  Inv-start :
      Inv root nodes edges 0 0 []
        (λ v. if root == v then at_root else index zero_node v nodes)
        (λ v. index 0 v (no_prevs nodes))
        (at_root ∷ [])
        (λ v. false)
  Inv-start =
      let only : (n : Node) → Memᴰ n (at_root ∷ []) → n ≡ at_root = λ n m.
        elim (Memᴰ-cons n at_root [] m) [
          | inl same ↦ same
          | inr never ↦ absurd (Memᴰ.not-nil never)
        ] in
      record {
        ids = λ v k. ground (arith, node_id v k);
        unknown = unknown_start;
        root_zero = ground arith;
        heap_known = λ n m. ground (arith, only n m, node_id root root_known);
        heap_low = λ n m. ground (arith, only n m, node_id root root_known);
        heap_walk = λ n m. rw (only n m) (here (node_id root root_known) refl);
        heap_bound = λ n m. ground (arith, only n m);
        walked = λ v k. elim (Bool-cases (root == v)) [
          | inl same ↦ rw same (inr (here (ground (arith, same)) refl))
          | inr other ↦ rw other (inl (node_dist v k))
        ];
        queued = λ v k u. elim (Bool-cases (root == v)) [
          | inl same ↦
              inr (
                at_root,
                Memᴰ.head refl,
                ground (arith, same, node_id root root_known),
                rw same refl,
              )
          | inr other ↦ rw other (inl (node_dist v k))
        ];
        marked = λ x v. absurd (false≢true v);
        closed = λ x e v. absurd (false≢true v);
        parent = λ v. inl (index-no_prevs v nodes, parent_start v);
        chained = λ x v. absurd (false≢true v);
        settled = λ x n v. absurd (false≢true v);
      }

  start-IsBetween : IsBetween root nodes edges 0 (start root nodes)
  unfolding start
  start-IsBetween =
      let same : Path (ℕ → Node) (at (start root nodes))
          (λ v. if root == v then at_root else index zero_node v nodes) =
        fun_ext (λ v. index-insert zero_node v root at_root nodes) in
      subst
        (λ (f : ℕ → Node).
          Inv root nodes edges 0 0 [] f (λ v. index 0 v (no_prevs nodes)) (at_root ∷ [])
            (λ v. false))
        (sym same) Inv-start

  dijkstra-IsBetween :
      (t : Search) × (dijkstra c root nodes edges ≡ some t)
      × IsBetween root nodes edges (edge_count edges + 1) t
      × (t.heap ≡ [])
  unfolding dijkstra start
  dijkstra-IsBetween =
      let none_seen = unseen-none edges in
      search-IsBetween c root nodes edges metric16 (edge_count edges + 1) (edge_count edges + 2) 0
        (start root nodes) start-IsBetween (omega (arith, none_seen)) (omega (arith, none_seen))
        (omega (arith, few_edges))

  pub found :
      (t : Search)
      → dijkstra c root nodes edges ≡ some t
      → IsBetween root nodes edges (edge_count edges + 1) t × (t.heap ≡ [])
  found t r =
      let (t', r', h, empty) = dijkstra-IsBetween in
      let same : t' ≡ t = some-injective t' t (sym r' ∙ r) in
      (
        subst (IsBetween root nodes edges (edge_count edges + 1)) same h,
        subst (λ (x : Search). x.heap ≡ []) same empty,
      )

  -- With an empty heap a known node is marked, unless it is not reached.
  reached-marked :
      (t : Search)
      → dijkstra c root nodes edges ≡ some t
      → (v : ℕ) → has_key v nodes ≡ true
      → dist_of t.nodes v < unreachable
      → t.vis v ≡ true
  reached-marked t r v k near =
      let (h, empty) = found t r in
      elim (Bool-cases (t.vis v)) [
        | inl seen ↦ seen
        | inr unseen ↦ elim (h.queued v k unseen) [
          | inl far ↦ absurd (omega (arith, near, far))
          | inr (n, m, i, d) ↦ absurd (Memᴰ.not-nil (subst (λ (l : List Node). Memᴰ n l) empty m))
        ]
      ]

  Walk-marked :
      (t : Search)
      → dijkstra c root nodes edges ≡ some t
      → (v cost : ℕ) → Walk root nodes edges v cost
      → (t.vis v ≡ true) × (dist_of t.nodes v ≤ cost)
  Walk-marked t r v cost (here at_start zero_cost) =
      let (h, empty) = found t r in
      let zero_dist : dist_of t.nodes v ≡ 0 = rw at_start h.root_zero in
      (
        reached-marked t r v (rw at_start root_known) (omega (arith, zero_dist)),
        omega (arith, zero_dist),
      )
  Walk-marked t r v cost (step {u} {c = paid} e before m known target sum) =
      let (seen, near) = Walk-marked t r u paid before in
      let (h, empty) = found t r in
      let (_, low) = h.marked u seen in
      let metric_low = metric16 u e m in
      let next : dist_of t.nodes e.dst ≤ dist_of t.nodes u + e.metric =
        elim (h.closed u e seen m (rw target known)) [
          | inl le ↦ le
          | inr (_, never) ↦ absurd (Memᴰ.not-nil never)
        ] in
      let next' : dist_of t.nodes v ≤ dist_of t.nodes u + e.metric =
        subst (λ (x : ℕ). dist_of t.nodes x ≤ dist_of t.nodes u + e.metric) target next in
      (
        reached-marked t r v known (omega (arith, next', low, metric_low)),
        omega (arith, next', near, sum),
      )

  -- In a graph whose root is known and in which each node lies under its own id, unreached, with
  -- 16-bit metrics and at most 65534 edges, the fuel is enough: dijkstra returns.
  pub dijkstra_returns : (t : Search) × (dijkstra c root nodes edges ≡ some t)
  dijkstra_returns = let (t, r, _, _) = dijkstra-IsBetween in (t, r)

  -- In such a graph, for each walk from the root to a node: the distance that dijkstra has found for
  -- the node is that of a walk to it, it is no longer than the walk that was given, and it is less
  -- than UINT32_MAX.
  pub dijkstra_shortest :
      (t : Search)
      → dijkstra c root nodes edges ≡ some t
      → (v cost : ℕ) → Walk root nodes edges v cost
      → Walk root nodes edges v (dist_of t.nodes v)
        × (dist_of t.nodes v ≤ cost)
        × (dist_of t.nodes v < unreachable)
  dijkstra_shortest t r v cost w =
      let (seen, low) = Walk-marked t r v cost w in
      let (h, _) = found t r in
      let (known, bound) = h.marked v seen in
      elim (h.walked v known) [
        | inl far ↦ absurd (omega (arith, bound, far))
        | inr walk ↦ (walk, low, omega (arith, bound))
      ]

  -- In such a graph a known node is either left at UINT32_MAX, or its distance is that of a walk.
  pub dijkstra_sound :
      (t : Search)
      → dijkstra c root nodes edges ≡ some t
      → (v : ℕ) → has_key v nodes ≡ true
      → (dist_of t.nodes v ≡ unreachable) ⊎ Walk root nodes edges v (dist_of t.nodes v)
  dijkstra_sound t r v known = let (h, _) = found t r in h.walked v known
