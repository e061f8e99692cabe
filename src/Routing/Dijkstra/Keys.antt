-- ===== src/Routing/Dijkstra/Keys.antt =====
-- The search leaves each node one place in the map, and its mask.
use ospfd_rfc.Base.{
  ℕ, zero, suc, ◌≡◌, refl, sym, ap, subst, ◌==◌, arith, ◌∙◌, inl, inr, some, List, [], ◌∷◌, ◌+◌,
  ◌%◌, ltb, Bool-cases, Option-cases,
}
use mathlib.Core.Option.{some-injective, none-ne-some}
use ospfd_rfc.Base.Maps.{Map, index, insert, touch, IsMap, insert-IsMap, index-insert, index-touch}
use ospfd_rfc.Routing.{Node, zero_node, Edge, Choices}
use ospfd_rfc.Routing.Dijkstra.{
  Search, relax, relax_all, visit, search, start, edge_count, dijkstra,
}

relax-IsMap : (node : Node) (e : Edge) (s : Search) → IsMap s.nodes → IsMap (relax node e s).nodes
unfolding relax touch
relax-IsMap node e s h =
    let target = index zero_node e.dst s.nodes in
    elim (Bool-cases (ltb ((node.dist + e.metric) % 4294967296) target.dist)) [
      | inl near ↦ rw near (insert-IsMap e.dst _ s.nodes h)
      | inr far ↦ rw far (insert-IsMap e.dst _ s.nodes h)
    ]

relax_all-IsMap :
    (node : Node) (es : List Edge) (s : Search) → IsMap s.nodes → IsMap (relax_all node es s).nodes
unfolding relax_all
relax_all-IsMap node [] s h = h
relax_all-IsMap node (e ∷ es) s h =
    relax_all-IsMap node es (relax node e s) (relax-IsMap node e s h)

visit-IsMap :
    (edges : Map (List Edge)) (node : Node) (rest : List Node) (s : Search)
    → IsMap s.nodes
    → IsMap (visit edges node rest s).nodes
unfolding visit
visit-IsMap edges node rest s h = elim (Bool-cases (s.vis node.id)) [
  | inl seen ↦ rw seen h
  | inr new ↦ rw new (relax_all-IsMap node (index [] node.id edges) _ h)
]

search-IsMap :
    (c : Choices) (edges : Map (List Edge)) (fuel : ℕ) (s t : Search)
    → search c edges fuel s ≡ some t
    → IsMap s.nodes
    → IsMap t.nodes
unfolding search
search-IsMap c edges zero s t r h = absurd (none-ne-some t r)
search-IsMap c edges (suc fuel) s t r h = elim (Option-cases (c.pop s.heap)) [
  | inl empty ↦
      let here : search c edges (suc fuel) s ≡ some s = rw (empty, search) refl in
      subst (λ (x : Search). IsMap x.nodes) (some-injective s t (sym here ∙ r)) h
  | inr ((node, rest), p) ↦
      let on : search c edges (suc fuel) s ≡ search c edges fuel (visit edges node rest s) =
        rw (p, search) refl in
      search-IsMap c edges fuel (visit edges node rest s) t (sym on ∙ r)
        (visit-IsMap edges node rest s h)
]

pub dijkstra-IsMap :
    (c : Choices) (root : ℕ) (nodes : Map Node) (edges : Map (List Edge)) (t : Search)
    → dijkstra c root nodes edges ≡ some t
    → IsMap nodes
    → IsMap t.nodes
unfolding dijkstra start
dijkstra-IsMap c root nodes edges t r h =
    search-IsMap c edges (edge_count edges + 2) (start root nodes) t r (insert-IsMap root _ nodes h)

abbrev mask_of : Map Node → ℕ → ℕ
mask_of nodes v = (index zero_node v nodes).mask

insert-mask_of :
    (k : ℕ) (n : Node) (m : Map Node) (v : ℕ)
    → n.mask ≡ mask_of m k
    → mask_of (insert k n m) v ≡ mask_of m v
insert-mask_of k n m v same =
    ap (λ (x : Node). x.mask) (index-insert zero_node v k n m) ∙ elim (Bool-cases (k == v)) [
      | inl here ↦ rw here (same ∙ ap (λ (x : ℕ). mask_of m x) (ground (arith, here)))
      | inr other ↦ rw other refl
    ]

relax-mask_of :
    (node : Node) (e : Edge) (s : Search) (v : ℕ)
    → mask_of (relax node e s).nodes v ≡ mask_of s.nodes v
unfolding relax
relax-mask_of node e s v =
    let target = index zero_node e.dst s.nodes in
    let alt = (node.dist + e.metric) % 4294967296 in
    elim (Bool-cases (ltb alt target.dist)) [
      | inl near ↦ rw near (insert-mask_of e.dst (record target { dist = alt }) s.nodes v refl)
      | inr far ↦ rw far (ap (λ (n : Node). n.mask) (index-touch zero_node v e.dst s.nodes))
    ]

relax_all-mask_of :
    (node : Node) (es : List Edge) (s : Search) (v : ℕ)
    → mask_of (relax_all node es s).nodes v ≡ mask_of s.nodes v
unfolding relax_all
relax_all-mask_of node [] s v = refl
relax_all-mask_of node (e ∷ es) s v =
    relax_all-mask_of node es (relax node e s) v ∙ relax-mask_of node e s v

visit-mask_of :
    (edges : Map (List Edge)) (node : Node) (rest : List Node) (s : Search) (v : ℕ)
    → mask_of (visit edges node rest s).nodes v ≡ mask_of s.nodes v
unfolding visit
visit-mask_of edges node rest s v = elim (Bool-cases (s.vis node.id)) [
  | inl seen ↦ rw seen refl
  | inr new ↦ rw new (relax_all-mask_of node (index [] node.id edges) _ v)
]

search-mask_of :
    (c : Choices) (edges : Map (List Edge)) (fuel : ℕ) (s t : Search) (v : ℕ)
    → search c edges fuel s ≡ some t
    → mask_of t.nodes v ≡ mask_of s.nodes v
unfolding search
search-mask_of c edges zero s t v r = absurd (none-ne-some t r)
search-mask_of c edges (suc fuel) s t v r = elim (Option-cases (c.pop s.heap)) [
  | inl empty ↦
      let here : search c edges (suc fuel) s ≡ some s = rw (empty, search) refl in
      ap (λ (x : Search). mask_of x.nodes v) (sym (some-injective s t (sym here ∙ r)))
  | inr ((node, rest), p) ↦
      let on : search c edges (suc fuel) s ≡ search c edges fuel (visit edges node rest s) =
        rw (p, search) refl in
      search-mask_of c edges fuel (visit edges node rest s) t v (sym on ∙ r)
      ∙ visit-mask_of edges node rest s v
]

pub dijkstra-mask :
    (c : Choices) (root : ℕ) (nodes : Map Node) (edges : Map (List Edge)) (t : Search) (v : ℕ)
    → dijkstra c root nodes edges ≡ some t
    → (index zero_node v t.nodes).mask ≡ (index zero_node v nodes).mask
unfolding dijkstra start
dijkstra-mask c root nodes edges t v r =
    let at_root : Node = record (index zero_node root nodes) { dist = 0 } in
    search-mask_of c edges (edge_count edges + 2) (start root nodes) t v r
    ∙ insert-mask_of root at_root nodes v refl
