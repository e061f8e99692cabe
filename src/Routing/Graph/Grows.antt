-- ===== src/Routing/Graph/Grows.antt =====
-- What each step of the construction of the graph keeps.
use ospfd_rfc.Base.{
  ℕ, ◌≤◌, ◌≡◌, refl, subst, ◌∙◌, ◌⊎◌, inl, inr, true, List, [], ◌∷◌, ◌++◌, ◌==◌, if◌then◌else◌,
  Bool-cases, arith,
}
use mathlib.Core.Bool.{false≢true}
use mathlib.Core.List.{Memᴰ}
use mathlib.Core.List.Memᴰ
use ospfd_rfc.Base.Maps.{has_key, index, insert, index-insert, has_key-insert, IsMap, insert-IsMap}
use ospfd_rfc.Routing.{Node, zero_node, Edge, unreachable}
use ospfd_rfc.Routing.Graph.{Graph, put_node, put_edge}
use ospfd_rfc.Routing.Dijkstra.Walks.{Memᴰ-cons}

-- Each node lies under its own id and is not reached; the metrics have 16 bits.
pub record IsBuilt (g : Graph) : Type 0 where
  pub ids : (v : ℕ) → has_key v g.nodes ≡ true → (index zero_node v g.nodes).id ≡ v
  pub dists : (v : ℕ) → has_key v g.nodes ≡ true → (index zero_node v g.nodes).dist ≡ unreachable
  pub metrics : (u : ℕ) (e : Edge) → Memᴰ e (index [] u g.edges) → e.metric ≤ 65535

pub IsBuilt-empty : IsBuilt (record { nodes = []; edges = [] })
unfolding has_key index
IsBuilt-empty = record {
  ids = λ v k. absurd (false≢true k);
  dists = λ v k. absurd (false≢true k);
  metrics = λ u e m. absurd (Memᴰ.not-nil m);
}

-- What a step of the construction does: it keeps this, and every node.
pub record Grows (g g' : Graph) : Type 0 where
  pub built : IsBuilt g → IsBuilt g'
  pub keeps : (v : ℕ) → has_key v g.nodes ≡ true → has_key v g'.nodes ≡ true
  pub maps : IsMap g.nodes → IsMap g'.nodes

pub Grows-refl : (g : Graph) → Grows g g
Grows-refl g = record { built = λ h. h; keeps = λ v k. k; maps = λ h. h }

pub Grows-trans : {g1 g2 g3 : Graph} → Grows g1 g2 → Grows g2 g3 → Grows g1 g3
Grows-trans a b = record {
  built = λ h. b.built (a.built h);
  keeps = λ v k. b.keeps v (a.keeps v k);
  maps = λ h. b.maps (a.maps h);
}

pub put_node-Grows : (n : Node) (g : Graph) → n.dist ≡ unreachable → Grows g (put_node n g)
put_node-Grows n g far = record {
  built = λ h. record {
    ids = λ v k.
        ground (
          arith,
          index-insert zero_node v n.id n g.nodes,
          has_key-insert v n.id n g.nodes,
          h.ids v,
        );
    dists = λ v k. ground (
      arith,
      far,
      index-insert zero_node v n.id n g.nodes,
      has_key-insert v n.id n g.nodes,
      h.dists v,
    );
    metrics = h.metrics;
  };
  keeps = λ v k. ground (arith, has_key-insert v n.id n g.nodes);
  maps = insert-IsMap n.id n g.nodes;
}

pub put_node-key : (n : Node) (g : Graph) → has_key n.id (put_node n g).nodes ≡ true
put_node-key n g = ground (arith, has_key-insert n.id n.id n g.nodes)

Memᴰ-last : (e a : Edge) (es : List Edge) → Memᴰ e (es ++ (a ∷ [])) → Memᴰ e es ⊎ (e ≡ a)
Memᴰ-last e a [] m = elim (Memᴰ-cons e a [] m) [
  | inl same ↦ inr same
  | inr never ↦ absurd (Memᴰ.not-nil never)
]
Memᴰ-last e a (b ∷ es) m = elim (Memᴰ-cons e b (es ++ (a ∷ [])) m) [
  | inl same ↦ inl (Memᴰ.head same)
  | inr later ↦ elim (Memᴰ-last e a es later) [ inl old ↦ inl (Memᴰ.tail old) | inr new ↦ inr new ]
]

pub put_edge-Grows :
    (src : ℕ) (e : Edge) (g : Graph) → e.metric ≤ 65535 → Grows g (put_edge src e g)
put_edge-Grows src e g small = record {
  built = λ h. record {
    ids = h.ids;
    dists = h.dists;
    metrics = λ u e' m.
        let more : List Edge = index [] src g.edges ++ (e ∷ []) in
        let out : index [] u (insert src more g.edges)
            ≡ (if src == u then more else index [] u g.edges) =
          index-insert [] u src more g.edges in
        elim (Bool-cases (src == u)) [
          | inl same ↦
              let out' : index [] u (insert src more g.edges) ≡ more = out ∙ rw same refl in
              elim (Memᴰ-last e' e (index [] src g.edges)
                (subst (λ (l : List Edge). Memᴰ e' l) out' m)) [
                  | inl old ↦ h.metrics src e' old
                  | inr new ↦ ground (arith, new, small)
                ]
          | inr other ↦
              let out' : index [] u (insert src more g.edges) ≡ index [] u g.edges =
                out ∙ rw other refl in
              h.metrics u e' (subst (λ (l : List Edge). Memᴰ e' l) out' m)
        ];
  };
  keeps = λ v k. k;
  maps = λ h. h;
}
