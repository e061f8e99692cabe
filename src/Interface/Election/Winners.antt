-- ===== src/Interface/Election/Winners.antt =====
-- Whom the two steps of the election choose among the candidates.
use ospfd_rfc.Base.{
  ◌≡◌, ◌⊎◌, inl, inr, Bool, true, false, not, Option, none, some, List, [], All, select, arith,
}
use ospfd_rfc.Neighbor.{Neighbor}
use ospfd_rfc.Interface.{max_element, neighbor_cmp, declares_dr, declares_bdr, elect_bdr, elect_dr}
use ospfd_rfc.Interface.Ranking.{
  Among, RanksOver, max_element_lowest, max_element-none, Among-select,
}

-- The candidates that may become BDR: those that do not declare themselves DR.
abbrev pub eligible : List Neighbor → List Neighbor
eligible = select (λ n. not (declares_dr n))

elect_bdr_cases :
    (cs : List Neighbor) (b : Neighbor)
    → elect_bdr cs ≡ some b
    → (max_element neighbor_cmp (select declares_bdr (eligible cs)) ≡ some b)
      ⊎ ((max_element neighbor_cmp (select declares_bdr (eligible cs)) ≡ none)
          × (max_element neighbor_cmp (eligible cs) ≡ some b))
unfolding elect_bdr
elect_bdr_cases cs b e = ground arith

elect_dr_cases :
    (cs : List Neighbor) (bdr : Option Neighbor) (d : Neighbor)
    → elect_dr cs bdr ≡ some d
    → (max_element neighbor_cmp (select declares_dr cs) ≡ some d)
      ⊎ ((max_element neighbor_cmp (select declares_dr cs) ≡ none) × (bdr ≡ some d))
unfolding elect_dr
elect_dr_cases cs bdr d e = ground arith

not-true : (b : Bool) → not b ≡ true → b ≡ false
not-true b e = ground arith

-- The elected BDR is a candidate that does not declare itself DR. If such a candidate declares
-- itself BDR, so does the elected one. And every candidate of its level has at least its rank: the
-- code elects the router with the lowest priority and id of the level, where RFC 2328, section 9.4,
-- asks for the highest.
pub elect_bdr_lowest :
    (cs : List Neighbor) (b : Neighbor)
    → elect_bdr cs ≡ some b
    → Among b cs
      × (declares_dr b ≡ false)
      × ((declares_bdr b ≡ true) × All (RanksOver b) (select declares_bdr (eligible cs))
          ⊎ (select declares_bdr (eligible cs) ≡ []) × All (RanksOver b) (eligible cs))
elect_bdr_lowest cs b e = elim (elect_bdr_cases cs b e) [
  | inl first ↦
      let (among, ranks) = max_element_lowest _ b first in
      let (second, claims) = Among-select declares_bdr b (eligible cs) among in
      let (candidate, open_to) = Among-select (λ n. not (declares_dr n)) b cs second in
      (candidate, not-true (declares_dr b) open_to, inl (claims, ranks))
  | inr (nobody, second) ↦
      let (among, ranks) = max_element_lowest _ b second in
      let (candidate, open_to) = Among-select (λ n. not (declares_dr n)) b cs among in
      (candidate, not-true (declares_dr b) open_to, inr (max_element-none _ nobody, ranks))
]

-- The elected DR is the candidate with the lowest priority and id of those that declare themselves
-- DR, and the BDR if there is none.
pub elect_dr_lowest :
    (cs : List Neighbor) (bdr : Option Neighbor) (d : Neighbor)
    → elect_dr cs bdr ≡ some d
    → (Among d cs × (declares_dr d ≡ true) × All (RanksOver d) (select declares_dr cs))
      ⊎ ((select declares_dr cs ≡ []) × (bdr ≡ some d))
elect_dr_lowest cs bdr d e = elim (elect_dr_cases cs bdr d e) [
  | inl first ↦
      let (among, ranks) = max_element_lowest _ d first in
      let (candidate, claims) = Among-select declares_dr d cs among in
      inl (candidate, claims, ranks)
  | inr (nobody, same) ↦ inr (max_element-none _ nobody, same)
]
