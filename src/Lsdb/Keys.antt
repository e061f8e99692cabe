-- ===== src/Lsdb/Keys.antt =====
-- Lists of records with a header, searched by key.
use ospfd_rfc.Base.{
  ℕ, ◌≡◌, ◌≢◌, refl, ◌⊎◌, ◌∙◌, false, Option, none, some, List, [], ◌∷◌, ◌++◌, find, erase_first,
  arith,
}
use ospfd_rfc.Lsa.{Header}
use ospfd_rfc.Lsdb.{has_key}

module _ {A : Type 0} (header : A → Header) where
  -- The first entry with a key.
  abbrev pub find_key : ℕ → ℕ → List A → Option A
  find_key i r = find (λ l. has_key i r (header l))

  abbrev pub erase_key : ℕ → ℕ → List A → List A
  erase_key i r = erase_first (λ l. has_key i r (header l))

  -- No two entries have the same key.
  abbrev pub IsUnique : List A → Type 0
  IsUnique [] = Unit {0}
  IsUnique (l ∷ ls) =
      (find_key (header l).link_state_id (header l).advertising_router ls ≡ none) × IsUnique ls

  pub find_key-append :
      (i r : ℕ) (ls : List A) (l : A)
      → find_key i r ls ≡ none
      → find_key i r (ls ++ (l ∷ [])) ≡ find_key i r (l ∷ [])
  find_key-append i r [] l e = refl
  find_key-append i r (x ∷ ls) l e = ground (arith, find_key-append i r ls l)

  -- A key that is found keeps its entry.
  pub find_key-append_kept :
      (i r : ℕ) (ls : List A) (l : A)
      → find_key i r ls ≢ none
      → find_key i r (ls ++ (l ∷ [])) ≡ find_key i r ls
  find_key-append_kept i r [] l e = absurd (e refl)
  find_key-append_kept i r (y ∷ ls) l e = ground (arith, find_key-append_kept i r ls l)

  -- Another key is found as before.
  pub find_key-append_ne :
      (i r : ℕ) (ls : List A) (l : A)
      → has_key i r (header l) ≡ false
      → find_key i r (ls ++ (l ∷ [])) ≡ find_key i r ls
  find_key-append_ne i r [] l e = ground arith
  find_key-append_ne i r (x ∷ ls) l e = ground (arith, find_key-append_ne i r ls l)

  pub find_key-erase_ne :
      (i r j s : ℕ) (ls : List A)
      → (i ≢ j) ⊎ (r ≢ s)
      → find_key j s (erase_key i r ls) ≡ find_key j s ls
  find_key-erase_ne i r j s [] ne = refl
  find_key-erase_ne i r j s (x ∷ ls) ne = ground (arith, find_key-erase_ne i r j s ls ne)

  -- With unique keys an erased key is gone.
  pub find_key-erase :
      (i r : ℕ) (ls : List A) → IsUnique ls → find_key i r (erase_key i r ls) ≡ none
  find_key-erase i r [] u = refl
  find_key-erase i r (x ∷ ls) u = ground (arith, find_key-erase i r ls u.1)

  find_key-erase_none :
      (i r j s : ℕ) (ls : List A) → find_key j s ls ≡ none → find_key j s (erase_key i r ls) ≡ none
  find_key-erase_none i r j s [] e = refl
  find_key-erase_none i r j s (x ∷ ls) e = ground (arith, find_key-erase_none i r j s ls)

  pub erase_key-IsUnique : (i r : ℕ) (ls : List A) → IsUnique ls → IsUnique (erase_key i r ls)
  erase_key-IsUnique i r [] u = tt
  erase_key-IsUnique i r (x ∷ ls) u = ground (
    arith,
    erase_key-IsUnique i r ls u.1,
    find_key-erase_none i r (header x).link_state_id (header x).advertising_router ls u.0,
  )

  pub append-IsUnique :
      (ls : List A) (l : A)
      → IsUnique ls
      → find_key (header l).link_state_id (header l).advertising_router ls ≡ none
      → IsUnique (ls ++ (l ∷ []))
  append-IsUnique [] l u e = (refl, tt)
  append-IsUnique (x ∷ ls) l u e = ground (
    arith,
    append-IsUnique ls l u.1,
    find_key-append_ne (header x).link_state_id (header x).advertising_router ls l,
  )

  abbrev pub find_like : A → List A → Option A
  find_like l = find_key (header l).link_state_id (header l).advertising_router

  abbrev pub erase_like : A → List A → List A
  erase_like l = erase_key (header l).link_state_id (header l).advertising_router

  find_like_self : (l : A) → find_like l (l ∷ []) ≡ some l
  find_like_self l = ground arith

  -- An entry behind a list with no such key is found.
  pub find_like-append :
      (ls : List A) (l : A) → find_like l ls ≡ none → find_like l (ls ++ (l ∷ [])) ≡ some l
  find_like-append ls l e = find_key-append _ _ ls l e ∙ find_like_self l

  -- So is one that takes another's place, and the keys stay unique.
  pub find_like-replace :
      (ls : List A) (l : A) → IsUnique ls → find_like l (erase_like l ls ++ (l ∷ [])) ≡ some l
  find_like-replace ls l u = find_like-append _ l (find_key-erase _ _ ls u)

  pub replace-IsUnique :
      (ls : List A) (l : A) → IsUnique ls → IsUnique (erase_like l ls ++ (l ∷ []))
  replace-IsUnique ls l u =
      append-IsUnique _ l (erase_key-IsUnique _ _ ls u) (find_key-erase _ _ ls u)

  -- What a search returns has the key that was asked for.
  pub find_key-has_key :
      (i r : ℕ) (ls : List A) (x : A)
      → find_key i r ls ≡ some x
      → ((header x).link_state_id ≡ i) × ((header x).advertising_router ≡ r)
  find_key-has_key i r [] x e = cc
  find_key-has_key i r (y ∷ ls) x e = ground (arith, find_key-has_key i r ls x)

  find_key-append_hit :
      (i r : ℕ) (ls : List A) (l : A)
      → i ≡ (header l).link_state_id
      → r ≡ (header l).advertising_router
      → ¬ (find_key i r (ls ++ (l ∷ [])) ≡ none)
  find_key-append_hit i r [] l ei er e = ground arith
  find_key-append_hit i r (y ∷ ls) l ei er e = ground (arith, find_key-append_hit i r ls l)

  -- A second entry with a key breaks uniqueness.
  pub append_duplicate : (ls : List A) (l : A) → find_like l ls ≢ none → ¬ IsUnique (ls ++ (l ∷ []))
  append_duplicate [] l e u = e refl
  append_duplicate (y ∷ ls) l e u = ground (
    arith,
    append_duplicate ls l,
    find_key-append_hit (header y).link_state_id (header y).advertising_router ls l,
  )
