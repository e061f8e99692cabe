-- ===== src/Routing/Dijkstra/Pop.antt =====
-- What taking the least node from the heap keeps of the invariant.
use ospfd_rfc.Base.{
  ℕ, suc, ◌+◌, ◌≤◌, ◌≡◌, ◌≢◌, refl, sym, ap, subst, ◌∙◌, ◌⊎◌, inl, inr, ◌↔◌, Bool, true, false,
  List, [], ◌==◌, Bool-cases, arith,
}
use mathlib.Core.List.{Memᴰ}
use mathlib.Core.List.Memᴰ
use mathlib.Core.Bool.{false≢true}
use mathlib.Core.Logic.{⊎_elim}
use ospfd_rfc.Base.Maps.{Map, has_key, index}
use ospfd_rfc.Routing.{Node, Edge, unreachable}
use ospfd_rfc.Routing.Dijkstra.{mark}
use ospfd_rfc.Routing.Dijkstra.Invariant.{Inv, Scanning}
use ospfd_rfc.Routing.Dijkstra.Walks.{Chain, stop, back, Chain-map}

Memᴰ-[] : {A : Type 0} (a : A) → ¬ Memᴰ a []
Memᴰ-[] a m = Memᴰ.not-nil m

module _ (root : ℕ) (nodes : Map Node) (edges : Map (List Edge)) (b : ℕ) (at : ℕ → Node)
    (prev : ℕ → ℕ) (heap rest : List Node) (vis : ℕ → Bool) (node : Node)
    (h : Inv root nodes edges b 0 [] at prev heap vis)
    (members : (n : Node) → Memᴰ n heap ↔ ((n ≡ node) ⊎ Memᴰ n rest))
    (least : (n : Node) → Memᴰ n heap → node.dist ≤ n.dist) where
  open h use {
    ids, unknown, root_zero, heap_known, heap_low, heap_walk, heap_bound, walked, queued, marked,
    closed, parent, chained, settled,
  }

  old : (n : Node) → Memᴰ n rest → Memᴰ n heap
  old n m = (members n).1 (inr m)

  popped : Memᴰ node heap
  popped = (members node).1 (inl refl)

  -- A node with another id than the popped one's is still in the heap.
  still_queued :
      (v : ℕ)
      → has_key v nodes ≡ true
      → vis v ≡ false
      → node.id ≢ v
      → ((at v).dist ≡ unreachable)
        ⊎ ((n : Node) × Memᴰ n rest × (n.id ≡ v) × (n.dist ≡ (at v).dist))
  still_queued v k u other = elim (queued v k u) [
    | inl far ↦ inl far
    | inr (n, m, i, d) ↦ elim ((members n).0 m) [
      | inl same ↦ absurd (other (ap (λ (x : Node). x.id) (sym same) ∙ i))
      | inr m' ↦ inr (n, m', i, d)
    ]
  ]

  settled_before :
      (x : ℕ) (e : Edge)
      → vis x ≡ true
      → Memᴰ e (index [] x edges)
      → has_key e.dst nodes ≡ true
      → (at e.dst).dist ≤ (at x).dist + e.metric
  settled_before x e v m k = elim (closed x e v m k) [
    | inl le ↦ le
    | inr (_, never) ↦ absurd (Memᴰ-[] e never)
  ]

  -- The popped node is marked already.
  pub Inv-skip : vis node.id ≡ true → Inv root nodes edges (suc b) 0 [] at prev rest vis
  Inv-skip seen = record {
    ids = ids;
    unknown = unknown;
    root_zero = root_zero;
    heap_known = λ n m. heap_known n (old n m);
    heap_low = λ n m. heap_low n (old n m);
    heap_walk = λ n m. heap_walk n (old n m);
    heap_bound = λ n m. omega (arith, heap_bound n (old n m));
    walked = walked;
    queued = λ v k u. still_queued v k u (λ same. ground (arith, same, seen, u));
    marked = λ x v. let (k, le) = marked x v in (k, omega (arith, le));
    closed = λ x e v m k. inl (settled_before x e v m k);
    parent = parent;
    chained = λ x v. Chain-map (λ y w. w) (λ y w. refl) b (suc b) x (omega arith) (chained x v);
    settled = λ x n v m. settled x n v (old n m);
  }

  at_node : vis node.id ≡ false → b ≤ 65535 → (at node.id).dist ≡ node.dist
  at_node unseen small = elim (queued node.id (heap_known node popped) unseen) [
    | inl far ↦ absurd (omega (arith, far, heap_low node popped, heap_bound node popped))
    | inr (n, m, i, d) ↦ omega (arith, least n m, d, heap_low node popped)
  ]

  chained_new : vis node.id ≡ false → b ≤ 65535 → Chain root prev (mark node.id vis) (suc b) node.id
  chained_new unseen small =
      let low = heap_bound node popped in
      elim (parent node.id) [
        | inl (_, inl at_root) ↦ stop at_root
        | inl (_, inr (inl missing)) ↦ absurd (false≢true (sym missing ∙ heap_known node popped))
        | inl (_, inr (inr far)) ↦ absurd (omega (arith, far, at_node unseen small, low))
        | inr (_, seen, _, _, _, _) ↦
            back (ground arith)
              (Chain-map (λ y w. ground (arith, w)) (λ y w. refl) b b (prev node.id) (omega arith)
                (chained (prev node.id) seen))
              (omega arith)
      ]

  -- The popped node is not marked: it is now, and its edges are to be looked at.
  pub Scanning-new :
      vis node.id ≡ false
      → b ≤ 65535
      → Scanning root nodes edges b node (index [] node.id edges) at prev rest (mark node.id vis)
  Scanning-new unseen small =
      let exact = at_node unseen small in
      record {
        inv = record {
          ids = ids;
          unknown = unknown;
          root_zero = root_zero;
          heap_known = λ n m. heap_known n (old n m);
          heap_low = λ n m. heap_low n (old n m);
          heap_walk = λ n m. heap_walk n (old n m);
          heap_bound = λ n m. omega (arith, heap_bound n (old n m));
          walked = walked;
          queued = λ v k u. still_queued v k (ground (arith, u)) (λ same. ground (arith, same, u));
          marked = λ x v. elim (Bool-cases (x == node.id)) [
            | inl same ↦ (
              ground (arith, same, heap_known node popped),
              ground (arith, same, exact, heap_bound node popped),
            )
            | inr other ↦
                let (k, le) = marked x (ground (arith, v, other)) in (k, omega (arith, le))
          ];
          closed = λ x e v m k. elim (Bool-cases (x == node.id)) [
            | inl same ↦
                let here : x ≡ node.id = ground (arith, same) in
                inr (here, subst (λ (y : ℕ). Memᴰ e (index [] y edges)) here m)
            | inr other ↦ inl (settled_before x e (ground (arith, v, other)) m k)
          ];
          parent = λ v. elim (parent v) [
            | inl none_yet ↦ inl none_yet
            | inr (k, seen, e, m, d, sum) ↦ inr (k, ground (arith, seen), e, m, d, sum)
          ];
          chained = λ x v. elim (Bool-cases (x == node.id)) [
            | inl same ↦
                let here : x ≡ node.id = ground (arith, same) in rw here (chained_new unseen small)
            | inr other ↦
                Chain-map (λ y w. ground (arith, w)) (λ y w. refl) b (suc b) x (omega arith)
                  (chained x (ground (arith, v, other)))
          ];
          settled = λ x n v m. elim (Bool-cases (x == node.id)) [
            | inl same ↦ ground (arith, same, exact, least n (old n m))
            | inr other ↦ settled x n (ground (arith, v, other)) (old n m)
          ];
        };
        is_marked = ground arith;
        at_node = exact;
        lowest = λ x v. elim (Bool-cases (x == node.id)) [
          | inl same ↦ ground (arith, same, exact)
          | inr other ↦ settled x node (ground (arith, v, other)) popped
        ];
        node_bound = heap_bound node popped;
        node_walk = heap_walk node popped;
        from_node = λ e m. m;
      }

module _ (root : ℕ) (nodes : Map Node) (edges : Map (List Edge)) (b u : ℕ) (at : ℕ → Node)
    (prev : ℕ → ℕ) (heap : List Node) (vis : ℕ → Bool) where
  -- When no edge is left to be looked at, it does not matter whose edges they were.
  pub Inv-done :
      Inv root nodes edges b u [] at prev heap vis → Inv root nodes edges b 0 [] at prev heap vis
  Inv-done h = record {
    ids = h.ids;
    unknown = h.unknown;
    root_zero = h.root_zero;
    heap_known = h.heap_known;
    heap_low = h.heap_low;
    heap_walk = h.heap_walk;
    heap_bound = h.heap_bound;
    walked = h.walked;
    queued = h.queued;
    marked = h.marked;
    closed = λ x e v m k. ⊎_elim inl (λ (_, never). absurd (Memᴰ-[] e never)) (h.closed x e v m k);
    parent = h.parent;
    chained = h.chained;
    settled = h.settled;
  }

  -- A bound may be larger.
  pub Inv-more :
      (b' : ℕ)
      → b ≤ b'
      → Inv root nodes edges b u [] at prev heap vis
      → Inv root nodes edges b' u [] at prev heap vis
  Inv-more b' le h = record {
    ids = h.ids;
    unknown = h.unknown;
    root_zero = h.root_zero;
    heap_known = h.heap_known;
    heap_low = h.heap_low;
    heap_walk = h.heap_walk;
    heap_bound = λ n m. omega (arith, h.heap_bound n m, le);
    walked = h.walked;
    queued = h.queued;
    marked = λ x v. let (k, low) = h.marked x v in (k, omega (arith, low, le));
    closed = h.closed;
    parent = h.parent;
    chained = λ x v. Chain-map (λ y w. w) (λ y w. refl) b b' x le (h.chained x v);
    settled = h.settled;
  }
