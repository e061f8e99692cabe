-- ===== src/Routing/Dijkstra/Walks.antt =====
-- Walks in a graph from the root, and ways back to it over predecessors.
use ospfd_rfc.Base.{ℕ, ◌+◌, ◌≤◌, ◌<◌, ◌≡◌, subst, ◌⊎◌, Bool, true, List, [], ◌∷◌, arith}
use mathlib.Core.List.{Memᴰ}
use mathlib.Core.List.Memᴰ
use ospfd_rfc.Base.Maps.{Map, has_key, index}
use ospfd_rfc.Routing.{Node, Edge}

pub Memᴰ-cons {ℓ} : {A : Type ℓ} (a x : A) (xs : List A) → Memᴰ a (x ∷ xs) → (a ≡ x) ⊎ Memᴰ a xs
Memᴰ-cons a x xs = Memᴰ.cases_cons

-- A walk of a cost from the root over the edges, through nodes that the graph has.
pub data Walk (root : ℕ) (nodes : Map Node) (edges : Map (List Edge)) : ℕ → ℕ → Type 0 where
  here : {v c : ℕ} → v ≡ root → c ≡ 0 → Walk root nodes edges v c
  step :
      {u v c d : ℕ} (e : Edge)
      → Walk root nodes edges u c
      → Memᴰ e (index [] u edges)
      → has_key v nodes ≡ true
      → e.dst ≡ v
      → c + e.metric ≡ d
      → Walk root nodes edges v d

-- The way back from `v` to the root over the predecessors of marked nodes takes at most `n` steps.
pub data Chain (root : ℕ) (prev : ℕ → ℕ) (vis : ℕ → Bool) : ℕ → ℕ → Type 0 where
  stop : {n v : ℕ} → v ≡ root → Chain root prev vis n v
  back :
      {n m v : ℕ} → vis v ≡ true → Chain root prev vis n (prev v) → n < m → Chain root prev vis m v

pub Chain-map :
    {root : ℕ} {prev prev' : ℕ → ℕ} {vis vis' : ℕ → Bool}
    → ((x : ℕ) → vis x ≡ true → vis' x ≡ true)
    → ((x : ℕ) → vis x ≡ true → prev x ≡ prev' x)
    → (n m v : ℕ) → n ≤ m
    → Chain root prev vis n v
    → Chain root prev' vis' m v
Chain-map keep same n m v le (stop e) = stop e
Chain-map {root} {prev} {prev'} {vis} {vis'} keep same n m v le (back {n = l} seen chain lt) =
    back (keep v seen)
      (subst (Chain root prev' vis' l) (same v seen)
        (Chain-map keep same l l (prev v) (omega arith) chain))
      (omega (arith, lt, le))
