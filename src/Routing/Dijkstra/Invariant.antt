-- ===== src/Routing/Dijkstra/Invariant.antt =====
-- What holds between the rounds of the search, and between the edges of a round.
use ospfd_rfc.Base.{
  ℕ, suc, ◌+◌, ◌*◌, ◌≤◌, ◌<◌, ◌≡◌, refl, sym, ap, ◌∙◌, ◌⊎◌, inl, inr, Bool, true, false, List, [],
  ◌∷◌, ◌==◌, if◌then◌else◌, Bool-cases, arith,
}
use mathlib.Core.List.{Memᴰ}
use mathlib.Core.Logic.{⊎_elim}
use ospfd_rfc.Base.Maps.{Map, has_key, index}
use ospfd_rfc.Routing.{Node, zero_node, Edge, unreachable}
use ospfd_rfc.Routing.Dijkstra.Walks.{Walk, step, Memᴰ-cons, Chain, Chain-map}

module _ (root : ℕ) (nodes : Map Node) (edges : Map (List Edge)) where
  -- `prev v` is the predecessor of `v`: a marked node with an edge to `v`, over which `v` was reached,
  -- or 0 for the root and where there is none.
  abbrev pub IsParent : (ℕ → Node) → (ℕ → ℕ) → (ℕ → Bool) → ℕ → Type 0
  IsParent at prev vis v =
      ((prev v ≡ 0) × ((v ≡ root) ⊎ (has_key v nodes ≡ false) ⊎ ((at v).dist ≡ unreachable)))
      ⊎ ((has_key v nodes ≡ true)
          × (vis (prev v) ≡ true)
          × (e : Edge) × Memᴰ e (index [] (prev v) edges)
          × (e.dst ≡ v)
          × ((at (prev v)).dist + e.metric ≡ (at v).dist))

  -- `at v` is nodes[v]; `es` are the edges out of `u` that are still to be looked at, and `b` bounds the
  -- distances.
  pub record Inv (b u : ℕ) (es : List Edge) (at : ℕ → Node) (prev : ℕ → ℕ) (heap : List Node)
      (vis : ℕ → Bool) : Type 0 where
    pub ids : (v : ℕ) → has_key v nodes ≡ true → (at v).id ≡ v
    pub unknown : (v : ℕ) → has_key v nodes ≡ false → at v ≡ zero_node
    pub root_zero : (at root).dist ≡ 0
    pub heap_known : (n : Node) → Memᴰ n heap → has_key n.id nodes ≡ true
    pub heap_low : (n : Node) → Memᴰ n heap → (at n.id).dist ≤ n.dist
    pub heap_walk : (n : Node) → Memᴰ n heap → Walk root nodes edges n.id n.dist
    pub heap_bound : (n : Node) → Memᴰ n heap → n.dist ≤ 65535 * b
    pub walked :
        (v : ℕ)
        → has_key v nodes ≡ true
        → ((at v).dist ≡ unreachable) ⊎ Walk root nodes edges v (at v).dist
    pub queued :
        (v : ℕ)
        → has_key v nodes ≡ true
        → vis v ≡ false
        → ((at v).dist ≡ unreachable)
          ⊎ ((n : Node) × Memᴰ n heap × (n.id ≡ v) × (n.dist ≡ (at v).dist))
    pub marked : (x : ℕ) → vis x ≡ true → (has_key x nodes ≡ true) × ((at x).dist ≤ 65535 * b)
    pub closed :
        (x : ℕ) (e : Edge)
        → vis x ≡ true
        → Memᴰ e (index [] x edges)
        → has_key e.dst nodes ≡ true
        → ((at e.dst).dist ≤ (at x).dist + e.metric) ⊎ ((x ≡ u) × Memᴰ e es)
    pub parent : (v : ℕ) → IsParent at prev vis v
    pub chained : (x : ℕ) → vis x ≡ true → Chain root prev vis b x
    pub settled : (x : ℕ) (n : Node) → vis x ≡ true → Memᴰ n heap → (at x).dist ≤ n.dist

  -- The edges of the marked `node` are looked at; `a` bounds its distance.
  pub record Scanning (a : ℕ) (node : Node) (es : List Edge) (at : ℕ → Node) (prev : ℕ → ℕ)
      (heap : List Node) (vis : ℕ → Bool) : Type 0 where
    pub inv : Inv (suc a) node.id es at prev heap vis
    pub is_marked : vis node.id ≡ true
    pub at_node : (at node.id).dist ≡ node.dist
    pub lowest : (x : ℕ) → vis x ≡ true → (at x).dist ≤ node.dist
    pub node_bound : node.dist ≤ 65535 * a
    pub node_walk : Walk root nodes edges node.id node.dist
    pub from_node : (e : Edge) → Memᴰ e es → Memᴰ e (index [] node.id edges)

  module _ (a : ℕ) (node : Node) (e : Edge) (es : List Edge) (at : ℕ → Node) (prev : ℕ → ℕ)
      (heap : List Node) (vis : ℕ → Bool) (h : Scanning a node (e ∷ es) at prev heap vis) where
    open h use {inv, is_marked, at_node, lowest, node_bound, node_walk, from_node}
    open inv use {
      ids, unknown, root_zero, heap_known, heap_low, heap_walk, heap_bound, walked, queued, marked,
      closed, parent, chained, settled,
    }

    -- An edge that makes nothing nearer.
    pub Scanning-skip : (at e.dst).dist ≤ node.dist + e.metric → Scanning a node es at prev heap vis
    Scanning-skip far = record {
      inv = record {
        ids = ids;
        unknown = unknown;
        root_zero = root_zero;
        heap_known = heap_known;
        heap_low = heap_low;
        heap_walk = heap_walk;
        heap_bound = heap_bound;
        walked = walked;
        queued = queued;
        marked = marked;
        closed = λ x e' v m k. ground (arith, closed x e' v m k, Memᴰ-cons e' e es, at_node, far);
        parent = parent;
        chained = chained;
        settled = settled;
      };
      is_marked = is_marked;
      at_node = at_node;
      lowest = lowest;
      node_bound = node_bound;
      node_walk = node_walk;
      from_node = λ e' m. from_node e' (Memᴰ.tail m);
    }

    -- A node that gets nearer was not marked yet, and it is neither the root nor unknown.
    nearer_new :
        node.dist + e.metric < (at e.dst).dist → (vis e.dst ≡ false) × (has_key e.dst nodes ≡ true)
    nearer_new near = elim (Bool-cases (vis e.dst)) [
      | inl v ↦ absurd (omega (arith, lowest e.dst v, near))
      | inr v ↦ elim (Bool-cases (has_key e.dst nodes)) [
        | inl k ↦ (v, k)
        | inr k ↦
            let zero_dist : (at e.dst).dist ≡ 0 = ap (λ (n : Node). n.dist) (unknown e.dst k) in
            absurd (omega (arith, zero_dist, near))
      ]
    ]

    unknown_nearer :
        (nearer : Node)
        → node.dist + e.metric < (at e.dst).dist
        → (v : ℕ) → has_key v nodes ≡ false
        → (if e.dst == v then nearer else at v) ≡ zero_node
    unknown_nearer nearer near v k = elim (Bool-cases (e.dst == v)) [
      | inl same ↦ ground (arith, same, k, nearer_new near)
      | inr other ↦ rw other (unknown v k)
    ]

    IsParent-nearer :
        (nearer : Node)
        → node.dist + e.metric < (at e.dst).dist
        → nearer.dist ≡ node.dist + e.metric
        → (v : ℕ)
        → IsParent
            (λ x. if e.dst == x then nearer else at x)
            (λ x. if e.dst == x then node.id else prev x)
            vis
            v
    IsParent-nearer nearer near alt v =
        let (unmarked, known) = nearer_new near in
        elim (Bool-cases (e.dst == v)) [
          | inl same ↦ rw same (
              inr (
                ground (arith, same, known),
                is_marked,
                e,
                from_node e (Memᴰ.head refl),
                ground (arith, same),
                ground (arith, is_marked, unmarked, at_node, alt),
              ))
          | inr other ↦ rw other (elim (parent v) [
            | inl none_yet ↦ inl none_yet
            | inr (k, seen, e', m, d, sum) ↦
                inr (k, seen, e', m, d, ground (arith, seen, unmarked, sum))
          ])
        ]

    -- An edge over which `e.dst` gets nearer.
    pub Scanning-nearer :
        (nearer : Node)
        → node.dist + e.metric < (at e.dst).dist
        → e.metric ≤ 65535
        → nearer.id ≡ (at e.dst).id
        → nearer.dist ≡ node.dist + e.metric
        → Scanning a node es
            (λ v. if e.dst == v then nearer else at v)
            (λ v. if e.dst == v then node.id else prev v)
            (nearer ∷ heap)
            vis
    Scanning-nearer nearer near small same_id alt =
        let (unmarked, known) = nearer_new near in
        let at' : ℕ → Node = λ v. if e.dst == v then nearer else at v in
        let id_of : nearer.id ≡ e.dst = same_id ∙ ids e.dst known in
        let walk : Walk root nodes edges e.dst nearer.dist =
          step e node_walk (from_node e (Memᴰ.head refl)) known refl (sym alt) in
        record {
          inv = record {
            ids = λ v k. ground (arith, ids v k);
            unknown = λ v k. unknown_nearer nearer near v k;
            root_zero = ground (arith, root_zero, near);
            heap_known =
                λ n m. ground (arith, Memᴰ-cons n nearer heap m, heap_known n, id_of, known);
            heap_low =
                λ n m. ground (arith, Memᴰ-cons n nearer heap m, heap_low n, id_of, near, alt);
            heap_walk = λ n m. elim (Memᴰ-cons n nearer heap m) [
              | inl new ↦ rw new (rw id_of walk)
              | inr old ↦ heap_walk n old
            ];
            heap_bound = λ n m.
                ground (arith, Memᴰ-cons n nearer heap m, heap_bound n, node_bound, alt, small);
            walked = λ v k. elim (Bool-cases (e.dst == v)) [
              | inl same ↦ inr (let here : e.dst ≡ v = ground arith in rw same (rw (← here) walk))
              | inr other ↦ rw other (walked v k)
            ];
            queued = λ v k u. elim (Bool-cases (e.dst == v)) [
              | inl same ↦ inr (nearer, Memᴰ.head refl, ground (arith, id_of), rw same refl)
              | inr other ↦
                  rw other (⊎_elim inl (λ (n, m, i, d). inr (n, Memᴰ.tail m, i, d)) (queued v k u))
            ];
            marked = λ x v. ground (arith, marked x v, unmarked);
            closed = λ x e' v m k.
                ground (arith, closed x e' v m k, Memᴰ-cons e' e es, unmarked, at_node, near, alt);
            parent = λ v. IsParent-nearer nearer near alt v;
            chained = λ x v.
                Chain-map (λ y w. w) (λ y w. ground (arith, w, unmarked)) (suc a) (suc a) x
                  (omega arith) (chained x v);
            settled = λ x n v m.
                ground (arith, Memᴰ-cons n nearer heap m, settled x n v, lowest x v, unmarked, alt);
          };
          is_marked = is_marked;
          at_node = ground (arith, at_node, is_marked, unmarked);
          lowest = λ x v. ground (arith, lowest x v, unmarked);
          node_bound = node_bound;
          node_walk = node_walk;
          from_node = λ e' m. from_node e' (Memᴰ.tail m);
        }
