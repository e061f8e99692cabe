-- ===== src/Interface/Election/AdjOk.antt =====
-- The loop of the election over the neighbors.
use ospfd_rfc.Base.{
  ◌≤◌, ◌<◌, ◌≡◌, ◌≢◌, refl, sym, ap, ◌∙◌, ◌⊎◌, inl, inr, true, false, List, [], ◌∷◌, All,
  if◌then◌else◌, Bool-cases, Result-cases, Fault, ok, fault, arith,
}
use ospfd_rfc.Neighbor.{
  State, Neighbor, Host, rank, at_least, two_way, ex_start, estab_adj, event_adj_ok,
}
use ospfd_rfc.Neighbor.Machine.{
  IsWanted, estab_adj-IsWanted, estab_adj-not_IsWanted, event_adj_ok_lem,
}
use ospfd_rfc.Interface.{adj_ok_all}

-- What becomes of `n` by AdjOK?: a wanted adjacency that exists stays as it is, one that does not is
-- begun in ExStart, and where none is wanted the neighbor is in 2-Way, with all else as it was.
abbrev pub Settles : Host → Neighbor → Neighbor → Type 0
Settles h n m =
    (IsWanted h n) × (4 ≤ rank n.state) × (m ≡ n)
    ⊎ (IsWanted h n)
      × (n.state ≡ two_way)
      × (m ≡ record n { state = ex_start; dd_seq_num = 0; is_master = false })
    ⊎ (¬ IsWanted h n) × (m ≡ record n { state = two_way })

-- What the loop of `event_adj_ok` does to each neighbor: those below two-way communication are left
-- alone, and the others settled.
abbrev pub Adjusted : Host → List Neighbor → List Neighbor → Type 0
Adjusted h [] [] = Unit {0}
Adjusted h [] (m ∷ ms) = ⊥
Adjusted h (n ∷ ns) [] = ⊥
Adjusted h (n ∷ ns) (m ∷ ms) =
    ((rank n.state < 3) × (m ≡ n) ⊎ (3 ≤ rank n.state) × Settles h n m)
    × (m.priority ≡ n.priority)
    × Adjusted h ns ms

adj_ok_priority : (h : Host) (n m : Neighbor) → event_adj_ok h n ≡ ok m → m.priority ≡ n.priority
unfolding event_adj_ok
adj_ok_priority h n m e = ground arith

adj_ok_runs : (h : Host) (n : Neighbor) (x : Fault) → 3 ≤ rank n.state → event_adj_ok h n ≢ fault x
unfolding event_adj_ok
adj_ok_runs h n x r e = ground arith

settles :
    (h : Host) (n m : Neighbor)
    → (estab_adj h n ≡ true) × (4 ≤ rank n.state) × (m ≡ n)
      ⊎ (estab_adj h n ≡ true)
        × (rank n.state ≡ 3)
        × (m ≡ record n { state = ex_start; dd_seq_num = 0; is_master = false })
      ⊎ (estab_adj h n ≡ false) × (4 ≤ rank n.state) × (m ≡ record n { state = two_way })
      ⊎ (estab_adj h n ≡ false) × (rank n.state ≡ 3) × (m ≡ n)
    → Settles h n m
settles h n m (inl (w, at, same)) = inl (estab_adj-IsWanted h n w, at, same)
settles h n m (inr (inl (w, at, same))) = inr (inl (estab_adj-IsWanted h n w, ground arith, same))
settles h n m (inr (inr (inl (w, at, same)))) = inr (inr (estab_adj-not_IsWanted h n w, same))
settles h n m (inr (inr (inr (w, at, same)))) =
    let two : two_way ≡ n.state = ground arith in
    let kept : record n { state = two_way } ≡ n = ap (λ (s : State). record n { state = s }) two in
    inr (inr (estab_adj-not_IsWanted h n w, same ∙ sym kept))

adj_ok_wanted : (h : Host) (n m : Neighbor) → event_adj_ok h n ≡ ok m → Settles h n m
adj_ok_wanted h n m e = settles h n m (event_adj_ok_lem h n m e).1

adj_ok_one :
    (h : Host) (n : Neighbor)
    → (m : Neighbor) × ((if at_least two_way n.state then event_adj_ok h n else ok n) ≡ ok m)
      × ((rank n.state < 3) × (m ≡ n) ⊎ (3 ≤ rank n.state) × Settles h n m)
      × (m.priority ≡ n.priority)
adj_ok_one h n = elim (Bool-cases (at_least two_way n.state)) [
  | inl above ↦ elim (Result-cases (event_adj_ok h n)) [
    | inl (m, e) ↦
        (m, rw above e, inr (ground arith, adj_ok_wanted h n m e), adj_ok_priority h n m e)
    | inr (x, e) ↦ absurd (adj_ok_runs h n x (ground arith) e)
  ]
  | inr below ↦ (n, rw below refl, inl (ground arith, refl), refl)
]

pub adj_ok_all-Adjusted :
    (h : Host) (ns : List Neighbor)
    → (ms : List Neighbor) × (adj_ok_all h ns ≡ ok ms) × Adjusted h ns ms
unfolding adj_ok_all
adj_ok_all-Adjusted h [] = ([], refl, tt)
adj_ok_all-Adjusted h (n ∷ ns) =
    let (m, e, settled, kept) = adj_ok_one h n in
    let (ms, es, rest) = adj_ok_all-Adjusted h ns in
    (m ∷ ms, rw (e, es) refl, (settled, kept, rest))

pub Adjusted-priority :
    (h : Host) (ns ms : List Neighbor)
    → All (λ n. n.priority ≡ 0) ns
    → Adjusted h ns ms
    → All (λ n. n.priority ≡ 0) ms
Adjusted-priority h [] [] z a = tt
Adjusted-priority h [] (m ∷ ms) z a = absurd a
Adjusted-priority h (n ∷ ns) [] z a = absurd a
Adjusted-priority h (n ∷ ns) (m ∷ ms) z a = (omega arith, Adjusted-priority h ns ms z.1 a.2)
