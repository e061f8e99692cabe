-- ===== src/Interface/Ranking.antt =====
-- Whom `max_element` with `neighbor_cmp` elects.
use ospfd_rfc.Base.{
  ◌≤◌, ◌<◌, ◌≡◌, refl, ap, sym, subst, ◌⊎◌, inl, inr, Bool, true, false, none, some, List, [], ◌∷◌,
  All, select, if◌then◌else◌, Bool-cases, arith,
}
use ospfd_rfc.Neighbor.{Neighbor}
use ospfd_rfc.Interface.{neighbor_cmp, max_from, max_element}

-- A neighbor is one of a list.
abbrev pub Among : Neighbor → List Neighbor → Type 0
Among n [] = ⊥
Among n (m ∷ ms) = (n ≡ m) ⊎ Among n ms

-- `x` has at least the priority of `m`, and at the same priority at least its id.
abbrev pub RanksOver : Neighbor → Neighbor → Type 0
RanksOver m x = (m.priority < x.priority) ⊎ ((m.priority ≡ x.priority) × (m.id ≤ x.id))

max_from-next :
    (b n : Neighbor) (ns : List Neighbor) (c : Bool)
    → neighbor_cmp b n ≡ c
    → max_from neighbor_cmp b (n ∷ ns) ≡ max_from neighbor_cmp (if c then n else b) ns
unfolding max_from
max_from-next b n ns c e = ap (λ (t : Bool). max_from neighbor_cmp (if t then n else b) ns) e

max_from-Among : (b : Neighbor) (ns : List Neighbor) → Among (max_from neighbor_cmp b ns) (b ∷ ns)
max_from-Among b [] = inl (unfold max_from in refl)
max_from-Among b (n ∷ ns) = elim (Bool-cases (neighbor_cmp b n)) [
  | inl e ↦
      subst (λ m. Among m (b ∷ n ∷ ns)) (sym (max_from-next b n ns true e))
        (inr (max_from-Among n ns))
  | inr e ↦
      subst (λ m. Among m (b ∷ n ∷ ns)) (sym (max_from-next b n ns false e))
        (elim (max_from-Among b ns) [ inl h ↦ inl h | inr h ↦ inr (inr h) ])
]

RanksOver-trans : (a b c : Neighbor) → RanksOver a b → RanksOver b c → RanksOver a c
RanksOver-trans a b c p q = ground arith

-- The comparison as an order of ranks.
cmp_true : (a b : Neighbor) → neighbor_cmp a b ≡ true → RanksOver b a
unfolding neighbor_cmp
cmp_true a b h = ground arith

cmp_false : (a b : Neighbor) → neighbor_cmp a b ≡ false → RanksOver a b
unfolding neighbor_cmp
cmp_false a b h = ground arith

max_from_lowest :
    (b : Neighbor) (ns : List Neighbor)
    → RanksOver (max_from neighbor_cmp b ns) b × All (RanksOver (max_from neighbor_cmp b ns)) ns
max_from_lowest b [] = unfold max_from in (inr (refl, omega arith), tt)
max_from_lowest b (n ∷ ns) = elim (Bool-cases (neighbor_cmp b n)) [
  | inl e ↦
      let (m, rest) = max_from_lowest n ns in
      subst (λ w. RanksOver w b × All (RanksOver w) (n ∷ ns)) (sym (max_from-next b n ns true e))
        (RanksOver-trans (max_from neighbor_cmp n ns) n b m (cmp_true b n e), (m, rest))
  | inr e ↦
      let (m, rest) = max_from_lowest b ns in
      subst (λ w. RanksOver w b × All (RanksOver w) (n ∷ ns)) (sym (max_from-next b n ns false e))
        (m, (RanksOver-trans (max_from neighbor_cmp b ns) b n m (cmp_false b n e), rest))
]

-- The code's winner is one of the list, and every other one has at least its rank: it is the
-- neighbor with the lowest priority, and of those the one with the lowest id.
pub max_element_lowest :
    (ns : List Neighbor) (m : Neighbor)
    → max_element neighbor_cmp ns ≡ some m
    → Among m ns × All (RanksOver m) ns
unfolding max_element
max_element_lowest [] m e = cc
max_element_lowest (n ∷ ns) m e =
    let e' : max_from neighbor_cmp n ns ≡ m = cc in
    subst (λ w. Among w (n ∷ ns) × All (RanksOver w) (n ∷ ns)) e'
      (max_from-Among n ns, max_from_lowest n ns)

-- The winner is nobody only if nobody stands.
pub max_element-none : (ns : List Neighbor) → max_element neighbor_cmp ns ≡ none → ns ≡ []
unfolding max_element
max_element-none [] e = refl
max_element-none (n ∷ ns) e = cc

-- Membership of a selection.
pub Among-select :
    (p : Neighbor → Bool) (n : Neighbor) (ns : List Neighbor)
    → Among n (select p ns)
    → Among n ns × (p n ≡ true)
Among-select p n [] h = absurd h
Among-select p n (m ∷ ms) h = elim (Bool-cases (p m)) [
  | inl e ↦ kept e (rw e at h) (Among-select p n ms)
  | inr e ↦ let (a, b) = Among-select p n ms (rw e at h) in (inr a, b)
]
  where
    kept :
        p m ≡ true
        → Among n (m ∷ select p ms)
        → (Among n (select p ms) → Among n ms × (p n ≡ true))
        → Among n (m ∷ ms) × (p n ≡ true)
    kept e (inl same) rec = (inl same, rw same e)
    kept e (inr later) rec = let (a, b) = rec later in (inr a, b)
