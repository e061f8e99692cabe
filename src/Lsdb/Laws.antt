-- ===== src/Lsdb/Laws.antt =====
-- What `add` does to the database, in each case.
use ospfd_rfc.Base.{
  ℕ, ◌+◌, ◌≡◌, ◌≢◌, ◌⊎◌, true, false, Option, none, some, [], ◌∷◌, ◌++◌, ok, length-append, arith,
}
use ospfd_rfc.Lsa.{
  RouterLsa, NetworkLsa, SummaryLsa, Lsa, router, network, summary, as_external, lsa_header,
  base_gt,
}
use ospfd_rfc.Lsdb.{Lsdb, get, add, del, lsa_num}
use ospfd_rfc.Lsdb.Keys.{
  IsUnique, find_like-append, find_like-replace, replace-IsUnique, append-IsUnique, erase_like,
  append_duplicate, find_key-append_kept, find_key-append_ne, find_key-erase_ne,
}

-- No two instances of one LSA: the lists have unique keys.
pub record IsDatabase (db : Lsdb) : Type 0 where
  pub routers_unique : IsUnique (λ (l : RouterLsa). l.header) db.router_lsas
  pub networks_unique : IsUnique (λ (l : NetworkLsa). l.header) db.network_lsas
  pub summaries_unique : IsUnique (λ (l : SummaryLsa). l.header) db.summary_lsas

-- The header's type is that of the object's class, as for the three kinds that LSUs bring in.
abbrev pub IsTyped : Lsa → Type 0
IsTyped (router l) = l.header.ls_type ≡ 1
IsTyped (network l) = l.header.ls_type ≡ 2
IsTyped (summary l) = l.header.ls_type ≡ 3
IsTyped (as_external l) = ⊥

-- The instance that the database has of an LSA.
abbrev pub stored : Lsdb → Lsa → Option Lsa
stored db lsa = let h = lsa_header lsa in get db h.ls_type h.link_state_id h.advertising_router

-- A router, network or summary LSA that a database with unique keys does not have is stored, and found
-- from then on, and the keys stay unique.
pub add_new :
    (db : Lsdb) (lsa : Lsa)
    → IsDatabase db
    → IsTyped lsa
    → stored db lsa ≡ none
    → (db' : Lsdb) × (add db lsa ≡ ok db') × (stored db' lsa ≡ some lsa) × IsDatabase db'
unfolding add get
add_new db (router l) v t e = (
  record db { router_lsas = db.router_lsas ++ (l ∷ []) },
  ground arith,
  ground (arith, find_like-append (λ (l : RouterLsa). l.header) db.router_lsas l),
  ground (arith, append-IsUnique (λ (l : RouterLsa). l.header) db.router_lsas l),
)
add_new db (network l) v t e = (
  record db { network_lsas = db.network_lsas ++ (l ∷ []) },
  ground arith,
  ground (arith, find_like-append (λ (l : NetworkLsa). l.header) db.network_lsas l),
  ground (arith, append-IsUnique (λ (l : NetworkLsa). l.header) db.network_lsas l),
)
add_new db (summary l) v t e = (
  record db { summary_lsas = db.summary_lsas ++ (l ∷ []) },
  ground arith,
  ground (arith, find_like-append (λ (l : SummaryLsa). l.header) db.summary_lsas l),
  ground (arith, append-IsUnique (λ (l : SummaryLsa). l.header) db.summary_lsas l),
)
add_new db (as_external l) v t e = absurd t

-- A router, network or summary LSA that is newer than the stored instance takes its place in a database
-- with unique keys, which it stays.
pub add_newer :
    (db : Lsdb) (lsa old : Lsa)
    → IsDatabase db
    → IsTyped lsa
    → stored db lsa ≡ some old
    → base_gt (lsa_header lsa) (lsa_header old) ≡ ok true
    → (db' : Lsdb) × (add db lsa ≡ ok db') × (stored db' lsa ≡ some lsa) × IsDatabase db'
unfolding add get del
add_newer db (router l) old v t e n = (
  record db { router_lsas = erase_like (λ (l : RouterLsa). l.header) l db.router_lsas ++ (l ∷ []) },
  ground arith,
  ground (arith, find_like-replace (λ (l : RouterLsa). l.header) db.router_lsas l),
  ground (arith, replace-IsUnique (λ (l : RouterLsa). l.header) db.router_lsas l),
)
add_newer db (network l) old v t e n = (
  record db {
    network_lsas = erase_like (λ (l : NetworkLsa). l.header) l db.network_lsas ++ (l ∷ []);
  },
  ground arith,
  ground (arith, find_like-replace (λ (l : NetworkLsa). l.header) db.network_lsas l),
  ground (arith, replace-IsUnique (λ (l : NetworkLsa). l.header) db.network_lsas l),
)
add_newer db (summary l) old v t e n = (
  record db {
    summary_lsas = erase_like (λ (l : SummaryLsa). l.header) l db.summary_lsas ++ (l ∷ []);
  },
  ground arith,
  ground (arith, find_like-replace (λ (l : SummaryLsa). l.header) db.summary_lsas l),
  ground (arith, replace-IsUnique (λ (l : SummaryLsa). l.header) db.summary_lsas l),
)
add_newer db (as_external l) old v t e n = absurd t

-- A router, network or summary LSA that is not newer than the stored instance is stored all the same,
-- behind it: searches go on finding the old instance, the number of LSAs grows by one, and the keys are
-- no longer unique.
pub add_stale :
    (db : Lsdb) (lsa old : Lsa)
    → IsTyped lsa
    → stored db lsa ≡ some old
    → base_gt (lsa_header lsa) (lsa_header old) ≡ ok false
    → (db' : Lsdb) × (add db lsa ≡ ok db')
      × (stored db' lsa ≡ some old)
      × (lsa_num db' ≡ lsa_num db + 1)
      × ¬ IsDatabase db'
unfolding add get lsa_num
add_stale db (router l) old t e n = (
  record db { router_lsas = db.router_lsas ++ (l ∷ []) },
  ground arith,
  ground (
    arith,
    find_key-append_kept (λ (l : RouterLsa). l.header) l.header.link_state_id
        l.header.advertising_router db.router_lsas l,
  ),
  ground (arith, length-append db.router_lsas (l ∷ [])),
  λ u. ground (arith, u, append_duplicate (λ (l : RouterLsa). l.header) db.router_lsas l),
)
add_stale db (network l) old t e n = (
  record db { network_lsas = db.network_lsas ++ (l ∷ []) },
  ground arith,
  ground (
    arith,
    find_key-append_kept (λ (l : NetworkLsa). l.header) l.header.link_state_id
        l.header.advertising_router db.network_lsas l,
  ),
  ground (arith, length-append db.network_lsas (l ∷ [])),
  λ u. ground (arith, u, append_duplicate (λ (l : NetworkLsa). l.header) db.network_lsas l),
)
add_stale db (summary l) old t e n = (
  record db { summary_lsas = db.summary_lsas ++ (l ∷ []) },
  ground arith,
  ground (
    arith,
    find_key-append_kept (λ (l : SummaryLsa). l.header) l.header.link_state_id
        l.header.advertising_router db.summary_lsas l,
  ),
  ground (arith, length-append db.summary_lsas (l ∷ [])),
  λ u. ground (arith, u, append_duplicate (λ (l : SummaryLsa). l.header) db.summary_lsas l),
)
add_stale db (as_external l) old t e n = absurd t

-- `add` of an LSA of one of the three kinds changes what is found under no other type or key.
pub add_other :
    (db : Lsdb) (lsa : Lsa) (db' : Lsdb) (ls_type ls_id adv_rtr : ℕ)
    → IsTyped lsa
    → ((lsa_header lsa).ls_type ≢ ls_type)
      ⊎ ((lsa_header lsa).link_state_id ≢ ls_id)
      ⊎ ((lsa_header lsa).advertising_router ≢ adv_rtr)
    → add db lsa ≡ ok db'
    → get db' ls_type ls_id adv_rtr ≡ get db ls_type ls_id adv_rtr
unfolding add get del
add_other db (router l) db' k i r t d e = ground (
  arith,
  t,
  find_key-append_ne (λ (l : RouterLsa). l.header) i r db.router_lsas l,
  find_key-append_ne (λ (l : RouterLsa). l.header) i r
      (erase_like (λ (l : RouterLsa). l.header) l db.router_lsas) l,
  find_key-erase_ne (λ (l : RouterLsa). l.header) l.header.link_state_id l.header.advertising_router
      i r db.router_lsas,
)
add_other db (network l) db' k i r t d e = ground (
  arith,
  t,
  find_key-append_ne (λ (l : NetworkLsa). l.header) i r db.network_lsas l,
  find_key-append_ne (λ (l : NetworkLsa). l.header) i r
      (erase_like (λ (l : NetworkLsa). l.header) l db.network_lsas) l,
  find_key-erase_ne (λ (l : NetworkLsa). l.header) l.header.link_state_id
      l.header.advertising_router i r db.network_lsas,
)
add_other db (summary l) db' k i r t d e = ground (
  arith,
  t,
  find_key-append_ne (λ (l : SummaryLsa). l.header) i r db.summary_lsas l,
  find_key-append_ne (λ (l : SummaryLsa). l.header) i r
      (erase_like (λ (l : SummaryLsa). l.header) l db.summary_lsas) l,
  find_key-erase_ne (λ (l : SummaryLsa). l.header) l.header.link_state_id
      l.header.advertising_router i r db.summary_lsas,
)
add_other db (as_external l) db' k i r t d e = absurd t
