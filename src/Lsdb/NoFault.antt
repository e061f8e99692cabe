-- ===== src/Lsdb/NoFault.antt =====
-- `add` passes its assertions and casts.
use ospfd_rfc.Base.{◌≡◌, ◌≢◌, inl, inr, Option, none, some, Fault, fault, Option-cases, arith}
use ospfd_rfc.Lsa.{
  RouterLsa, NetworkLsa, SummaryLsa, Lsa, router, network, summary, as_external, lsa_header,
  base_gt, base_lt,
}
use ospfd_rfc.Lsdb.{Lsdb, get, add, del}
use ospfd_rfc.Lsa.Age.{SameLsa}
use ospfd_rfc.Lsdb.Keys.{find_key-has_key}
use ospfd_rfc.Lsdb.Laws.{IsTyped, stored}

-- What is stored for an LSA is an instance of it.
pub stored-SameLsa :
    (db : Lsdb) (lsa old : Lsa)
    → IsTyped lsa
    → stored db lsa ≡ some old
    → SameLsa (lsa_header lsa) (lsa_header old)
unfolding get
stored-SameLsa db (router l) (router o) t e = ground (
  arith,
  find_key-has_key (λ (l : RouterLsa). l.header) l.header.link_state_id l.header.advertising_router
      db.router_lsas o,
)
stored-SameLsa db (router l) _ t e = ground arith
stored-SameLsa db (network l) (network o) t e = ground (
  arith,
  find_key-has_key (λ (l : NetworkLsa). l.header) l.header.link_state_id l.header.advertising_router
      db.network_lsas o,
)
stored-SameLsa db (network l) _ t e = ground arith
stored-SameLsa db (summary l) (summary o) t e = ground (
  arith,
  find_key-has_key (λ (l : SummaryLsa). l.header) l.header.link_state_id l.header.advertising_router
      db.summary_lsas o,
)
stored-SameLsa db (summary l) _ t e = ground arith
stored-SameLsa db (as_external l) old t e = absurd t

-- With a stored instance of the same LSA, or none, every test of `add` passes.
abbrev FitsStored : Lsa → Option Lsa → Type 0
FitsStored lsa none = Unit {0}
FitsStored lsa (some old) = SameLsa (lsa_header lsa) (lsa_header old)

added :
    (db : Lsdb) (lsa : Lsa) (found : Option Lsa) (x : Fault)
    → IsTyped lsa
    → stored db lsa ≡ found
    → FitsStored lsa found
    → add db lsa ≢ fault x
unfolding add del base_gt base_lt
added db (router l) none x t e fits = ground arith
added db (router l) (some old) x t e fits = ground arith
added db (network l) none x t e fits = ground arith
added db (network l) (some old) x t e fits = ground arith
added db (summary l) none x t e fits = ground arith
added db (summary l) (some old) x t e fits = ground arith
added db (as_external l) found x t e fits = absurd t

-- `add` of an LSA of one of the three kinds ends in no fault, whatever the database holds.
pub add-ne-fault : (db : Lsdb) (lsa : Lsa) (x : Fault) → IsTyped lsa → add db lsa ≢ fault x
add-ne-fault db lsa x t = elim (Option-cases (stored db lsa)) [
  | inl e ↦ added db lsa none x t e tt
  | inr (old, e) ↦ added db lsa (some old) x t e (stored-SameLsa db lsa old t e)
]
