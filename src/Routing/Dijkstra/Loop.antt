-- ===== src/Routing/Dijkstra/Loop.antt =====
-- The rounds of the search: each keeps the invariant and leaves less to do, and the fuel is enough.
use ospfd_rfc.Base.{
  ℕ, zero, suc, ◌+◌, ◌≤◌, ◌<◌, ◌≡◌, refl, ap, ◌∙◌, inl, inr, Bool, none, some, List, [], Bool-cases,
  Option-cases, length, arith,
}
use mathlib.Core.List.{Memᴰ}
use ospfd_rfc.Base.Maps.{Map, index}
use ospfd_rfc.Routing.{Node, Edge, Choices}
use ospfd_rfc.Routing.Dijkstra.{Search, relax_all, mark, visit, search}
use ospfd_rfc.Routing.Dijkstra.Step.{
  at, prev_of, unseen, unseen-mark, IsBetween, relax_all-Scanning,
}
use ospfd_rfc.Routing.Dijkstra.Pop.{Inv-skip, Inv-done, Inv-more, Scanning-new}

-- How much there is still to do: the nodes on the heap, and those that edges may still put there.
abbrev pub work : Map (List Edge) → Search → ℕ
work edges s = length s.heap + unseen s.vis edges

module _ (c : Choices) (root : ℕ) (nodes : Map Node) (edges : Map (List Edge))
    (metrics : (u : ℕ) (e : Edge) → Memᴰ e (index [] u edges) → e.metric ≤ 65535) where
  visit-IsBetween :
      (b : ℕ) (s : Search) (node : Node) (rest : List Node)
      → IsBetween root nodes edges b s
      → c.pop s.heap ≡ some (node, rest)
      → b ≤ 65535
      → IsBetween root nodes edges (suc b) (visit edges node rest s)
        × (suc (work edges (visit edges node rest s)) ≤ work edges s)
  unfolding visit
  visit-IsBetween b s node rest h p small =
      let members = λ (n : Node). c.pop-Mem s.heap rest node n p in
      let least = λ (n : Node). c.pop-least s.heap rest node n p in
      let shorter = c.pop-length s.heap rest node p in
      elim (Bool-cases (s.vis node.id)) [
        | inl seen ↦ rw seen (
          Inv-skip root nodes edges b (at s) (prev_of s) s.heap rest s.vis node h members least
              seen,
          omega (arith, shorter),
        )
        | inr new ↦
            let s' : Search = record s { heap = rest; vis = mark node.id s.vis } in
            let scan =
              Scanning-new root nodes edges b (at s) (prev_of s) s.heap rest s.vis node h members
                least new small in
            let (done, vis, size) =
              relax_all-Scanning root nodes edges b node (index [] node.id edges) s' scan small
                (metrics node.id) in
            let t = relax_all node (index [] node.id edges) s' in
            let left : unseen t.vis edges ≡ unseen (mark node.id s.vis) edges =
              ap (λ (f : ℕ → Bool). unseen f edges) vis in
            rw new (
              Inv-done root nodes edges (suc b) node.id (at t) (prev_of t) t.heap t.vis done.inv,
              omega (arith, shorter, size, left, unseen-mark s.vis node.id edges new),
            )
      ]

  search_stops :
      (fuel : ℕ) (s : Search) → c.pop s.heap ≡ none → search c edges (suc fuel) s ≡ some s
  unfolding search
  search_stops fuel s empty = rw (empty, search) refl

  search_goes :
      (fuel : ℕ) (s : Search) (node : Node) (rest : List Node)
      → c.pop s.heap ≡ some (node, rest)
      → search c edges (suc fuel) s ≡ search c edges fuel (visit edges node rest s)
  unfolding search
  search_goes fuel s node rest p = rw (p, search) refl

  pub search-IsBetween :
      (total fuel b : ℕ) (s : Search)
      → IsBetween root nodes edges b s
      → work edges s < fuel
      → b + work edges s ≤ total
      → total ≤ 65535
      → (t : Search) × (search c edges fuel s ≡ some t)
        × IsBetween root nodes edges total t
        × (t.heap ≡ [])
  search-IsBetween total zero b s h enough small few = absurd (omega (arith, enough))
  search-IsBetween total (suc fuel) b s h enough small few = elim (Option-cases (c.pop s.heap)) [
    | inl empty ↦ (
      s,
      search_stops fuel s empty,
      Inv-more root nodes edges b 0 (at s) (prev_of s) s.heap s.vis total (omega arith) h,
      c.pop-none s.heap empty,
    )
    | inr ((node, rest), p) ↦
        let some_left = c.pop-length s.heap rest node p in
        let (h', less) = visit-IsBetween b s node rest h p (omega arith) in
        let rec =
          search-IsBetween total fuel (suc b) (visit edges node rest s) h' (omega arith)
            (omega arith) few in
        let (t, result, inv, empty) = rec in
        (t, search_goes fuel s node rest p ∙ result, inv, empty)
  ]
