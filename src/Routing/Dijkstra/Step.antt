-- ===== src/Routing/Dijkstra/Step.antt =====
-- A round of the search keeps the invariant, and makes the remaining work smaller.
use ospfd_rfc.Base.{
  ℕ, ◌+◌, ◌%◌, ◌≤◌, ◌≡◌, refl, sym, ap, subst, ◌∙◌, inl, inr, Bool, true, false, List, [], ◌∷◌,
  ◌==◌, ltb, if◌then◌else◌, Bool-cases, length, arith,
}
use mathlib.Core.Path.{fun_ext}
use mathlib.Core.List.{Memᴰ}
use ospfd_rfc.Base.Maps.{Map, index, insert, touch, index-insert, index-touch}
use ospfd_rfc.Routing.{Node, zero_node, Edge}
use ospfd_rfc.Routing.Dijkstra.{Search, relax, relax_all, mark, edge_count}
use ospfd_rfc.Routing.Dijkstra.Invariant.{Inv, Scanning, Scanning-skip, Scanning-nearer}

-- nodes[v] of a state, as a function.
abbrev pub at : Search → ℕ → Node
at s v = index zero_node v s.nodes

-- prevs[v] of a state, as a function.
abbrev pub prev_of : Search → ℕ → ℕ
prev_of s v = index 0 v s.prevs

-- What a round can still add to the heap: the edges out of nodes that are not marked.
unfoldable pub unseen : (ℕ → Bool) → Map (List Edge) → ℕ
unseen vis [] = 0
unseen vis ((k, es) ∷ m) = if vis k then unseen vis m else length es + unseen vis m

pub unseen-mark :
    (vis : ℕ → Bool) (v : ℕ) (m : Map (List Edge))
    → vis v ≡ false
    → unseen (mark v vis) m + length (index [] v m) ≤ unseen vis m
unfolding unseen index
unseen-mark vis v [] h = omega arith
unseen-mark vis v ((k, es) ∷ m) h = ground (arith, unseen-mark_le vis v m, unseen-mark vis v m)
  where
    unseen-mark_le :
        (vis : ℕ → Bool) (v : ℕ) (m : Map (List Edge)) → unseen (mark v vis) m ≤ unseen vis m
    unseen-mark_le vis v [] = omega arith
    unseen-mark_le vis v ((k, es) ∷ m) = ground (arith, unseen-mark_le vis v m)

pub unseen-none : (m : Map (List Edge)) → unseen (λ v. false) m ≡ edge_count m
unfolding unseen edge_count
unseen-none [] = refl
unseen-none ((k, es) ∷ m) = ap (λ (n : ℕ). length es + n) (unseen-none m)

relax-nearer :
    (node : Node) (e : Edge) (s : Search)
    → ltb ((node.dist + e.metric) % 4294967296) (at s e.dst).dist ≡ true
    → let nearer : Node = record (at s e.dst) { dist = (node.dist + e.metric) % 4294967296 } in
      relax node e s ≡ record s {
        nodes = insert e.dst nearer s.nodes;
        prevs = insert e.dst node.id s.prevs;
        heap = nearer ∷ s.heap;
      }
unfolding relax
relax-nearer node e s h = rw h refl

relax-skip :
    (node : Node) (e : Edge) (s : Search)
    → ltb ((node.dist + e.metric) % 4294967296) (at s e.dst).dist ≡ false
    → relax node e s ≡ record s { nodes = touch zero_node e.dst s.nodes }
unfolding relax
relax-skip node e s h = rw h refl

module _ (root : ℕ) (nodes : Map Node) (edges : Map (List Edge)) where
  abbrev pub IsScanning : ℕ → Node → List Edge → Search → Type 0
  IsScanning a node es s = Scanning root nodes edges a node es (at s) (prev_of s) s.heap s.vis

  abbrev pub IsBetween : ℕ → Search → Type 0
  IsBetween b s = Inv root nodes edges b 0 [] (at s) (prev_of s) s.heap s.vis

  -- The sum of a distance and a metric does not wrap.
  relax-Scanning :
      (a : ℕ) (node : Node) (e : Edge) (es : List Edge) (s : Search)
      → IsScanning a node (e ∷ es) s
      → a ≤ 65535
      → e.metric ≤ 65535
      → IsScanning a node es (relax node e s)
        × ((relax node e s).vis ≡ s.vis)
        × (length (relax node e s).heap ≤ length s.heap + 1)
  relax-Scanning a node e es s h small metric16 =
      let alt : (node.dist + e.metric) % 4294967296 ≡ node.dist + e.metric =
        omega (arith, h.node_bound) in
      elim (Bool-cases (ltb ((node.dist + e.metric) % 4294967296) (at s e.dst).dist)) [
        | inl near ↦
            let nearer : Node = record (at s e.dst) {
              dist = (node.dist + e.metric) % 4294967296;
            } in
            let same : Path (ℕ → Node) (λ v. index zero_node v (insert e.dst nearer s.nodes))
                (λ v. if e.dst == v then nearer else at s v) =
              fun_ext (λ v. index-insert zero_node v e.dst nearer s.nodes) in
            let same' : Path (ℕ → ℕ) (λ v. index 0 v (insert e.dst node.id s.prevs))
                (λ v. if e.dst == v then node.id else prev_of s v) =
              fun_ext (λ v. index-insert 0 v e.dst node.id s.prevs) in
            let scan =
              Scanning-nearer root nodes edges a node e es (at s) (prev_of s) s.heap s.vis h nearer
                (ground arith) metric16 refl alt in
            rw (relax-nearer node e s near) (
              subst
                  (λ (f : ℕ → ℕ).
                    Scanning root nodes edges a node es
                      (λ v. index zero_node v (insert e.dst nearer s.nodes)) f (nearer ∷ s.heap)
                      s.vis)
                  (sym same')
                  (subst
                    (λ (f : ℕ → Node).
                      Scanning root nodes edges a node es f
                        (λ v. if e.dst == v then node.id else prev_of s v) (nearer ∷ s.heap) s.vis)
                    (sym same) scan),
              refl,
              omega arith,
            )
        | inr far ↦
            let same : Path (ℕ → Node) (λ v. index zero_node v (touch zero_node e.dst s.nodes))
                (at s) =
              fun_ext (λ v. index-touch zero_node v e.dst s.nodes) in
            let scan =
              Scanning-skip root nodes edges a node e es (at s) (prev_of s) s.heap s.vis h
                (ground arith) in
            rw (relax-skip node e s far) (
              subst
                  (λ (f : ℕ → Node). Scanning root nodes edges a node es f (prev_of s) s.heap s.vis)
                  (sym same) scan,
              refl,
              omega arith,
            )
      ]

  pub relax_all-Scanning :
      (a : ℕ) (node : Node) (es : List Edge) (s : Search)
      → IsScanning a node es s
      → a ≤ 65535
      → ((e : Edge) → Memᴰ e es → e.metric ≤ 65535)
      → IsScanning a node [] (relax_all node es s)
        × ((relax_all node es s).vis ≡ s.vis)
        × (length (relax_all node es s).heap ≤ length s.heap + length es)
  unfolding relax_all
  relax_all-Scanning a node [] s h small metrics = (h, refl, omega arith)
  relax_all-Scanning a node (e ∷ es) s h small metrics =
      let (scan, vis, size) = relax-Scanning a node e es s h small (metrics e (Memᴰ.head refl)) in
      let (scan', vis', size') =
        relax_all-Scanning a node es (relax node e s) scan small
          (λ e' m. metrics e' (Memᴰ.tail m)) in
      (scan', vis' ∙ vis, omega arith)
