-- ===== src/Lsdb/Live.antt =====
-- Which LSAs stay allocated: what `add` leaves in the lists of src/lsdb.cpp, where it deletes no object.
use ospfd_rfc.Base.{
  ◌≡◌, ◌≢◌, refl, sym, subst, ap, ◌⊎◌, inl, inr, List, [], ◌∷◌, ◌++◌, Bool-cases, ok, arith,
}
use mathlib.Core.List.{Memᴰ}
use mathlib.Core.List.Memᴰ
use ospfd_rfc.Lsa.{
  Header, RouterLsa, NetworkLsa, SummaryLsa, Lsa, router, network, summary, as_external, lsa_header,
}
use ospfd_rfc.Lsdb.{Lsdb, has_key, get, add, del}
use ospfd_rfc.Lsdb.Keys.{erase_like}
use ospfd_rfc.Lsdb.Laws.{IsTyped}

-- The LSA is in its list.
abbrev pub Has : Lsdb → Lsa → Type 0
Has db (router l) = Memᴰ l db.router_lsas
Has db (network l) = Memᴰ l db.network_lsas
Has db (summary l) = Memᴰ l db.summary_lsas
Has db (as_external l) = ⊥

-- Not two instances of one LSA.
abbrev pub Differs : Lsa → Lsa → Type 0
Differs l m =
    ((lsa_header m).ls_type ≢ (lsa_header l).ls_type)
    ⊎ ((lsa_header m).link_state_id ≢ (lsa_header l).link_state_id)
    ⊎ ((lsa_header m).advertising_router ≢ (lsa_header l).advertising_router)

module _ {A : Type 0} (header : A → Header) where
  abbrev KeyDiffers : A → A → Type 0
  KeyDiffers l m =
      ((header m).link_state_id ≢ (header l).link_state_id)
      ⊎ ((header m).advertising_router ≢ (header l).advertising_router)

  -- The new instance goes to the end, behind what was there or what another instance of it left.
  abbrev Grown : List A → List A → A → Type 0
  Grown before after m =
      (after ≡ before ++ (m ∷ [])) ⊎ (after ≡ erase_like header m before ++ (m ∷ []))

  Memᴰ-erase_like :
      (l m : A) (ls : List A) → KeyDiffers l m → Memᴰ l ls → Memᴰ l (erase_like header m ls)
  Memᴰ-erase_like l m [] d mem = mem
  Memᴰ-erase_like l m (x ∷ ls) d mem =
      elim (Bool-cases
        (has_key (header m).link_state_id (header m).advertising_router (header x))) [
          | inl gone ↦ rw gone (elim (Memᴰ.cases_cons mem) [
            | inl same ↦ let it = ap (λ (y : A). header y) same in absurd (ground (arith, gone, it))
            | inr later ↦ later
          ])
          | inr stays ↦ rw stays (elim (Memᴰ.cases_cons mem) [
            | inl same ↦ Memᴰ.head same
            | inr later ↦ Memᴰ.tail (Memᴰ-erase_like l m ls d later)
          ])
        ]

  Grown-Memᴰ : (before after : List A) (m : A) → Grown before after m → Memᴰ m after
  Grown-Memᴰ before after m (inl e) =
      subst (λ (ls : List A). Memᴰ m ls) (sym e) (Memᴰ.append_right before (Memᴰ.head refl))
  Grown-Memᴰ before after m (inr e) =
      subst (λ (ls : List A). Memᴰ m ls) (sym e)
        (Memᴰ.append_right (erase_like header m before) (Memᴰ.head refl))

  Grown-keeps :
      (before after : List A) (l m : A)
      → KeyDiffers l m
      → Grown before after m
      → Memᴰ l before
      → Memᴰ l after
  Grown-keeps before after l m d (inl e) mem =
      subst (λ (ls : List A). Memᴰ l ls) (sym e) (Memᴰ.append_left (m ∷ []) mem)
  Grown-keeps before after l m d (inr e) mem =
      subst (λ (ls : List A). Memᴰ l ls) (sym e)
        (Memᴰ.append_left (m ∷ []) (Memᴰ-erase_like l m before d mem))

-- Only the list of the LSA's kind changes.
abbrev Added : Lsdb → Lsdb → Lsa → Type 0
Added db db' (router m) =
    Grown (λ (l : RouterLsa). l.header) db.router_lsas db'.router_lsas m
    × (db.network_lsas ≡ db'.network_lsas)
    × (db.summary_lsas ≡ db'.summary_lsas)
Added db db' (network m) =
    (db.router_lsas ≡ db'.router_lsas)
    × Grown (λ (l : NetworkLsa). l.header) db.network_lsas db'.network_lsas m
    × (db.summary_lsas ≡ db'.summary_lsas)
Added db db' (summary m) =
    (db.router_lsas ≡ db'.router_lsas)
    × (db.network_lsas ≡ db'.network_lsas)
    × Grown (λ (l : SummaryLsa). l.header) db.summary_lsas db'.summary_lsas m
Added db db' (as_external m) = ⊥

add-Added : (db db' : Lsdb) (m : Lsa) → IsTyped m → add db m ≡ ok db' → Added db db' m
unfolding add get del
add-Added db db' (router m) t e = (ground (arith, t), ground (arith, t), ground (arith, t))
add-Added db db' (network m) t e = (ground (arith, t), ground (arith, t), ground (arith, t))
add-Added db db' (summary m) t e = (ground (arith, t), ground (arith, t), ground (arith, t))
add-Added db db' (as_external m) t e = absurd t

-- What was added is there.
pub add-Has : (db db' : Lsdb) (m : Lsa) → IsTyped m → add db m ≡ ok db' → Has db' m
add-Has db db' (router m) t e =
    Grown-Memᴰ (λ (l : RouterLsa). l.header) db.router_lsas db'.router_lsas m
      (add-Added db db' (router m) t e).0
add-Has db db' (network m) t e =
    Grown-Memᴰ (λ (l : NetworkLsa). l.header) db.network_lsas db'.network_lsas m
      (add-Added db db' (network m) t e).1
add-Has db db' (summary m) t e =
    Grown-Memᴰ (λ (l : SummaryLsa). l.header) db.summary_lsas db'.summary_lsas m
      (add-Added db db' (summary m) t e).2
add-Has db db' (as_external m) t e = absurd t

Added-Has :
    (db db' : Lsdb) (l m : Lsa)
    → IsTyped l
    → IsTyped m
    → Differs l m
    → Added db db' m
    → Has db l
    → Has db' l
Added-Has db db' (router l) (router m) tl tm d (a, b, c) h =
    Grown-keeps (λ (x : RouterLsa). x.header) db.router_lsas db'.router_lsas l m (ground (arith, d))
      a h
Added-Has db db' (router l) (network m) tl tm d (a, b, c) h =
    subst (λ (x : List RouterLsa). Memᴰ l x) a h
Added-Has db db' (router l) (summary m) tl tm d (a, b, c) h =
    subst (λ (x : List RouterLsa). Memᴰ l x) a h
Added-Has db db' (network l) (router m) tl tm d (a, b, c) h =
    subst (λ (x : List NetworkLsa). Memᴰ l x) b h
Added-Has db db' (network l) (network m) tl tm d (a, b, c) h =
    Grown-keeps (λ (x : NetworkLsa). x.header) db.network_lsas db'.network_lsas l m
      (ground (arith, d)) b h
Added-Has db db' (network l) (summary m) tl tm d (a, b, c) h =
    subst (λ (x : List NetworkLsa). Memᴰ l x) b h
Added-Has db db' (summary l) (router m) tl tm d (a, b, c) h =
    subst (λ (x : List SummaryLsa). Memᴰ l x) c h
Added-Has db db' (summary l) (network m) tl tm d (a, b, c) h =
    subst (λ (x : List SummaryLsa). Memᴰ l x) c h
Added-Has db db' (summary l) (summary m) tl tm d (a, b, c) h =
    Grown-keeps (λ (x : SummaryLsa). x.header) db.summary_lsas db'.summary_lsas l m
      (ground (arith, d)) c h
Added-Has db db' (as_external l) m tl tm d a h = absurd tl
Added-Has db db' l (as_external m) tl tm d a h = absurd tm

-- An LSA stays where it is when another one is added.
pub add-keeps_Has :
    (db db' : Lsdb) (l m : Lsa)
    → IsTyped l
    → IsTyped m
    → Differs l m
    → add db m ≡ ok db'
    → Has db l
    → Has db' l
add-keeps_Has db db' l m tl tm d e h = Added-Has db db' l m tl tm d (add-Added db db' m tm e) h
