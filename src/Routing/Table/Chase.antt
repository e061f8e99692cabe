-- ===== src/Routing/Table/Chase.antt =====
-- The way back to the root over the predecessors that dijkstra leaves: it ends, and where it ends is
-- the first hop of a shortest walk.
use ospfd_rfc.Base.{
  ℕ, zero, suc, ◌+◌, ◌<◌, ◌≡◌, ◌≢◌, refl, sym, ap, subst, ◌∙◌, ◌⊎◌, inl, inr, Bool, true, ◌||◌,
  some, List, [], ◌==◌, Bool-cases, arith,
}
use mathlib.Core.List.{Memᴰ}
use mathlib.Core.Option.{some-injective, none-ne-some}
use ospfd_rfc.Base.Maps.{Map, has_key, index}
use ospfd_rfc.Routing.{Node, Edge, Choices}
use ospfd_rfc.Routing.Dijkstra.{Search, dist_of, edge_count, dijkstra}
use ospfd_rfc.Routing.Dijkstra.Walks.{Walk, here, step, Chain, stop, back}
use ospfd_rfc.Routing.Dijkstra.Correct.{IsGraph, found}
use ospfd_rfc.Routing.Table.{chase}

abbrev Ends : ℕ → Map ℕ → ℕ → ℕ → ℕ → Type 0
Ends root prevs fuel prev_hop next_id =
    (r : ℕ × ℕ) × (chase root prevs fuel prev_hop next_id ≡ some r)

Ends-stop :
    (root fuel v next : ℕ) (prevs : Map ℕ)
    → (v ≡ root) ⊎ (v ≡ 0)
    → Ends root prevs (suc fuel) v next
unfolding chase
Ends-stop root fuel v next prevs stops =
    let done : (v == root || v == 0) ≡ true = ground (arith, stops) in ((v, next), rw done refl)

Ends-back :
    (root fuel v next : ℕ) (prevs : Map ℕ)
    → Ends root prevs fuel (index 0 v prevs) v
    → Ends root prevs (suc fuel) v next
unfolding chase
Ends-back root fuel v next prevs (r, rest) = elim (Bool-cases (v == root || v == 0)) [
  | inl done ↦ ((v, next), rw done refl)
  | inr more ↦ (r, rw more rest)
]

Chain-Ends :
    (root : ℕ) (prevs : Map ℕ) (vis : ℕ → Bool) (fuel n v next : ℕ)
    → Chain root (λ x. index 0 x prevs) vis n v
    → n < fuel
    → Ends root prevs fuel v next
Chain-Ends root prevs vis zero n v next chain lt = absurd (omega (arith, lt))
Chain-Ends root prevs vis (suc fuel) n v next (stop e) lt = Ends-stop root fuel v next prevs (inl e)
Chain-Ends root prevs vis (suc fuel) n v next (back {n = l} seen chain shorter) lt =
    Ends-back root fuel v next prevs
      (Chain-Ends root prevs vis fuel l (index 0 v prevs) v chain (omega (arith, lt, shorter)))

-- What a result of the loop comes from: its end, or the next predecessor.
chase_cases :
    (root fuel v next : ℕ) (prevs : Map ℕ) (r : ℕ × ℕ)
    → chase root prevs (suc fuel) v next ≡ some r
    → (((v ≡ root) ⊎ (v ≡ 0)) × (r.0 ≡ v) × (r.1 ≡ next))
      ⊎ ((v ≢ 0) × (chase root prevs fuel (index 0 v prevs) v ≡ some r))
unfolding chase
chase_cases root fuel v next prevs r h = elim (Bool-cases (v == root || v == 0)) [
  | inl done ↦
      let here : chase root prevs (suc fuel) v next ≡ some (v, next) = rw done refl in
      let end : (v, next) ≡ r = some-injective (v, next) r (sym here ∙ h) in
      inl
        (ground (arith, done), sym (ap (λ (q : ℕ × ℕ). q.0) end), sym (ap (λ (q : ℕ × ℕ). q.1) end))
  | inr more ↦
      let on : chase root prevs (suc fuel) v next ≡ chase root prevs fuel (index 0 v prevs) v =
        rw more refl in
      inr (λ zero_hop. ground (arith, more, zero_hop), sym on ∙ h)
]

-- Another edge before a walk.
Walk-before :
    {nodes : Map Node} {edges : Map (List Edge)} (u w v d : ℕ) (e : Edge)
    → Memᴰ e (index [] u edges)
    → has_key w nodes ≡ true
    → e.dst ≡ w
    → Walk w nodes edges v d
    → Walk u nodes edges v (e.metric + d)
Walk-before u w v d e m k target (here same zero_cost) =
    step e (here refl refl) m (rw same k) (target ∙ sym same) (omega (arith, zero_cost))
Walk-before u w v d e m k target (step {c = paid} e' before m' k' target' sum) =
    step e' (Walk-before u w _ paid e m k target before) m' k' target' (omega (arith, sum))

-- A loop that ends elsewhere than at 0 did not begin there.
pub chase_nonzero :
    (root fuel v next : ℕ) (prevs : Map ℕ) (r : ℕ × ℕ)
    → chase root prevs fuel v next ≡ some r
    → r.0 ≢ 0
    → v ≢ 0
unfolding chase
chase_nonzero root zero v next prevs r h some_hop = absurd (none-ne-some r h)
chase_nonzero root (suc fuel) v next prevs r h some_hop =
    elim (chase_cases root fuel v next prevs r h) [
      | inl (_, is_last, _) ↦ λ zero_hop. some_hop (is_last ∙ zero_hop)
      | inr (more, _) ↦ more
    ]

-- With the distances of `dists`: `next` is joined to the root by an edge, at its distance, and on a
-- shortest walk to `v`.
abbrev pub IsFirstHop : ℕ → Map Node → Map (List Edge) → Map Node → ℕ → ℕ → Type 0
IsFirstHop root nodes edges dists next v =
    (d : ℕ) × Walk next nodes edges v d
    × (dist_of dists next + d ≡ dist_of dists v)
    × (e : Edge) × Memᴰ e (index [] root edges)
    × (e.dst ≡ next)
    × (e.metric ≡ dist_of dists next)

module _ (c : Choices) (root : ℕ) (nodes : Map Node) (edges : Map (List Edge))
    (g : IsGraph root nodes edges) (t : Search)
    (result : dijkstra c root nodes edges ≡ some t) where
  -- In a graph as the search wants it: from each node, the loop over the predecessors that dijkstra
  -- has left ends at the root or at 0 within the fuel.
  pub chase_returns :
      (v : ℕ)
      → (r : ℕ × ℕ) × (chase root t.prevs (edge_count edges + 2) (index 0 v t.prevs) v ≡ some r)
  chase_returns v =
      let (h, _) = found c root nodes edges g t result in
      elim (h.parent v) [
        | inl (none_yet, _) ↦
            subst (λ (n : ℕ). Ends root t.prevs n (index 0 v t.prevs) v) (omega arith)
              (Ends-stop root (edge_count edges + 1) (index 0 v t.prevs) v t.prevs (inr none_yet))
        | inr (_, seen, _, _, _, _) ↦
            Chain-Ends root t.prevs t.vis (edge_count edges + 2) (edge_count edges + 1)
              (index 0 v t.prevs) v (h.chained (index 0 v t.prevs) seen) (omega arith)
      ]

  chase_from-IsFirstHop :
      (fuel u v d last next : ℕ)
      → Walk u nodes edges v d
      → dist_of t.nodes u + d ≡ dist_of t.nodes v
      → chase root t.prevs fuel (index 0 u t.prevs) u ≡ some (last, next)
      → last ≢ 0
      → (last ≡ root) × IsFirstHop root nodes edges t.nodes next v
  unfolding chase
  chase_from-IsFirstHop zero u v d last next w sum r some_hop = absurd (none-ne-some (last, next) r)
  chase_from-IsFirstHop (suc fuel) u v d last next w sum r some_hop =
      let (h, _) = found c root nodes edges g t result in
      let p = index 0 u t.prevs in
      elim (chase_cases root fuel p u t.prevs (last, next) r) [
        | inl (ends, is_last, is_next) ↦ elim (h.parent u) [
          | inl (none_yet, _) ↦ absurd (some_hop (is_last ∙ none_yet))
          | inr (_, _, e, m, target, paid) ↦
              let at_root : p ≡ root = elim ends [
                | inl e ↦ e
                | inr z ↦ absurd (some_hop (is_last ∙ z))
              ] in
              let zero_dist : dist_of t.nodes p ≡ 0 = rw at_root h.root_zero in
              (
                is_last ∙ at_root,
                subst (λ (x : ℕ). IsFirstHop root nodes edges t.nodes x v) (sym is_next)
                    (
                      d,
                      w,
                      sum,
                      e,
                      subst (λ (x : ℕ). Memᴰ e (index [] x edges)) at_root m,
                      target,
                      omega (arith, paid, zero_dist),
                    ),
              )
        ]
        | inr (more, rest) ↦ elim (h.parent u) [
          | inl (none_yet, _) ↦ absurd (more none_yet)
          | inr (known, _, e, m, target, paid) ↦
              chase_from-IsFirstHop fuel p v (e.metric + d) last next
                (Walk-before p u v d e m known target w) (omega (arith, paid, sum)) rest some_hop
        ]
      ]

  -- When that loop ends elsewhere than at 0, it ends at the root, and the node that it was at before
  -- is joined to the root by an edge, at its own shortest distance, and a walk leads on from it to the
  -- node where the loop began, so long that the two together make that node's distance.
  pub chase-IsFirstHop :
      (fuel v last next : ℕ)
      → chase root t.prevs fuel (index 0 v t.prevs) v ≡ some (last, next)
      → last ≢ 0
      → (last ≡ root) × IsFirstHop root nodes edges t.nodes next v
  chase-IsFirstHop fuel v last next =
      chase_from-IsFirstHop fuel v v 0 last next (here refl refl) (omega arith)
