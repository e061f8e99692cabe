-- ===== src/Tests/Choices.antt =====
-- A priority queue and an order of iteration, for the tests: the first of the least nodes comes out
-- first, and a map is iterated in the order of its list.
use ospfd_rfc.Base.{
  ◌+◌, ◌≤◌, ◌≡◌, ◌⊎◌, refl, sym, ap, subst, inl, inr, Option, none, some, List, [], ◌∷◌, map,
  length, leb, if◌then◌else◌, Bool-cases, arith,
}
use mathlib.Core.Option.{none-ne-some, some-injective}
use mathlib.Core.List.{Memᴰ}
use mathlib.Core.List.Memᴰ
use ospfd_rfc.Routing.{Node, Choices}

-- The first of the least nodes, and the others.
unfoldable pub pick : Node → List Node → Node × List Node
pick n [] = (n, [])
pick n (m ∷ ms) =
    let (least, others) = pick m ms in
    if leb n.dist least.dist then (n, m ∷ ms) else (least, n ∷ others)

pub pick_least :
    (n : Node) (ms : List Node) (x : Node) → Memᴰ x (n ∷ ms) → (pick n ms).0.dist ≤ x.dist
unfolding pick
pick_least n [] x here = elim (Memᴰ.cases_cons here) [
  | inl same ↦ ground (arith, same)
  | inr never ↦ absurd (Memᴰ.not-nil never)
]
pick_least n (m ∷ ms) x here = elim (Bool-cases (leb n.dist (pick m ms).0.dist)) [
  | inl first ↦ rw first (elim (Memᴰ.cases_cons here) [
    | inl same ↦ ground (arith, same)
    | inr later ↦ ground (arith, pick_least m ms x later, first)
  ])
  | inr other ↦ rw other (elim (Memᴰ.cases_cons here) [
    | inl same ↦ ground (arith, same, other)
    | inr later ↦ pick_least m ms x later
  ])
]

pub pick_length : (n : Node) (ms : List Node) → length (n ∷ ms) ≡ length (pick n ms).1 + 1
unfolding pick
pick_length n [] = refl
pick_length n (m ∷ ms) = ground (arith, pick_length m ms)

pub pick_into :
    (n : Node) (ms : List Node) (x : Node)
    → Memᴰ x (n ∷ ms)
    → (x ≡ (pick n ms).0) ⊎ Memᴰ x (pick n ms).1
unfolding pick
pick_into n [] x here = Memᴰ.cases_cons here
pick_into n (m ∷ ms) x here = elim (Bool-cases (leb n.dist (pick m ms).0.dist)) [
  | inl first ↦ rw first (Memᴰ.cases_cons here)
  | inr other ↦ rw other (elim (Memᴰ.cases_cons here) [
    | inl same ↦ inr (Memᴰ.head same)
    | inr later ↦ elim (pick_into m ms x later) [
      | inl least ↦ inl least
      | inr rest ↦ inr (Memᴰ.tail rest)
    ]
  ])
]

pub pick_from :
    (n : Node) (ms : List Node) (x : Node)
    → (x ≡ (pick n ms).0) ⊎ Memᴰ x (pick n ms).1
    → Memᴰ x (n ∷ ms)
unfolding pick
pick_from n [] x =
    λ here. elim here [ inl same ↦ Memᴰ.head same | inr never ↦ absurd (Memᴰ.not-nil never) ]
pick_from n (m ∷ ms) x = elim (Bool-cases (leb n.dist (pick m ms).0.dist)) [
  | inl first ↦
      rw first (λ here. elim here [ inl same ↦ Memᴰ.head same | inr later ↦ Memᴰ.tail later ])
  | inr other ↦ rw other (λ here. elim here [
    | inl least ↦ Memᴰ.tail (pick_from m ms x (inl least))
    | inr rest ↦ elim (Memᴰ.cases_cons rest) [
      | inl same ↦ Memᴰ.head same
      | inr later ↦ Memᴰ.tail (pick_from m ms x (inr later))
    ]
  ])
]

unfoldable pub take_least : List Node → Option (Node × List Node)
take_least [] = none
take_least (n ∷ ns) = some (pick n ns)

pub take_least-some :
    (heap rest : List Node) (n : Node)
    → take_least heap ≡ some (n, rest)
    → (m : Node) × (ms : List Node) × (heap ≡ m ∷ ms) × (n ≡ (pick m ms).0) × (rest ≡ (pick m ms).1)
unfolding take_least
take_least-some [] rest n h = absurd (none-ne-some (n, rest) h)
take_least-some (m ∷ ms) rest n h =
    let same : pick m ms ≡ (n, rest) = some-injective (pick m ms) (n, rest) h in
    (
      m,
      ms,
      refl,
      sym (ap (λ (p : Node × List Node). p.0) same),
      sym (ap (λ (p : Node × List Node). p.1) same),
    )

pub take_least-none : (heap : List Node) → take_least heap ≡ none → heap ≡ []
unfolding take_least
take_least-none [] h = refl
take_least-none (m ∷ ms) h = absurd (none-ne-some (pick m ms) (sym h))

abbrev pub in_order : Choices
in_order = record {
  pop = take_least;
  pop-none = take_least-none;
  pop-least = λ heap rest n x h here.
      let (m, ms, is, least, _) = take_least-some heap rest n h in
      subst (λ (y : Node). y.dist ≤ x.dist) (sym least)
        (pick_least m ms x (subst (λ (l : List Node). Memᴰ x l) is here));
  pop-Mem = λ heap rest n x h.
      let (m, ms, is, least, others) = take_least-some heap rest n h in
      rw is (rw least (rw others (pick_into m ms x, pick_from m ms x)));
  pop-length = λ heap rest n h.
      let (m, ms, is, _, others) = take_least-some heap rest n h in
      rw is (rw others (pick_length m ms));
  iterate = map (λ entry. entry.1);
  iterate-Mem = λ m n. (λ here. here, λ here. here);
}
