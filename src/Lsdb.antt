-- ===== src/Lsdb.antt =====
-- src/lsdb.hpp and src/lsdb.cpp: the link state database. The locks are not modelled: an operation
-- runs to its end with the mutex held.
pub mod Keys
pub mod Laws
pub mod NoFault
pub mod Live
use ospfd_rfc.Base.{
  ℕ, ◌+◌, Bool, true, false, ◌&&◌, Option, none, some, List, [], ◌∷◌, ◌++◌, ◌==◌, if◌then◌else◌,
  length, find, erase_first, Result, ok, fault, assertion_failed, bad_cast, ◌>>=◌,
}
use mathlib.Core.Option
use ospfd_rfc.Lsa.{
  Header, RouterLsa, NetworkLsa, SummaryLsa, AsExternalLsa, Lsa, router, network, summary,
  as_external, lsa_header, base_gt,
}
use ospfd_rfc.Lsa.LsaType

-- Each list holds the objects that its pointers point to. Nothing writes to an LSA that is stored;
-- that `del` frees it is not modelled.
pub record Lsdb : Type 0 where
  pub router_lsas : List RouterLsa
  pub network_lsas : List NetworkLsa
  pub summary_lsas : List SummaryLsa
  pub asbr_summary_lsas : List SummaryLsa
  pub as_external_lsas : List AsExternalLsa
  pub max_age : ℕ
  pub max_age_diff : ℕ

unfoldable pub empty : Lsdb
empty = record {
  router_lsas = [];
  network_lsas = [];
  summary_lsas = [];
  asbr_summary_lsas = [];
  as_external_lsas = [];
  max_age = 3600;
  max_age_diff = 900;
}

-- The test of the lambdas that std::find_if is given.
abbrev pub has_key : ℕ → ℕ → Header → Bool
has_key ls_id adv_rtr h = h.link_state_id == ls_id && h.advertising_router == adv_rtr

unfoldable pub get_router_lsa : Lsdb → ℕ → ℕ → Option RouterLsa
get_router_lsa db ls_id adv_rtr = find (λ l. has_key ls_id adv_rtr l.header) db.router_lsas

unfoldable pub get_router_lsa_by_id : Lsdb → ℕ → Option RouterLsa
get_router_lsa_by_id db ls_id = find (λ l. l.header.link_state_id == ls_id) db.router_lsas

unfoldable pub get_network_lsa : Lsdb → ℕ → ℕ → Option NetworkLsa
get_network_lsa db ls_id adv_rtr = find (λ l. has_key ls_id adv_rtr l.header) db.network_lsas

unfoldable pub get_network_lsa_by_id : Lsdb → ℕ → Option NetworkLsa
get_network_lsa_by_id db ls_id = find (λ l. l.header.link_state_id == ls_id) db.network_lsas

-- LSDB::get
unfoldable pub get : Lsdb → ℕ → ℕ → ℕ → Option Lsa
get db ls_type ls_id adv_rtr =
    if ls_type == LsaType.router
    then Option.map router (find (λ l. has_key ls_id adv_rtr l.header) db.router_lsas)
    else if ls_type == LsaType.network
    then Option.map network (find (λ l. has_key ls_id adv_rtr l.header) db.network_lsas)
    else if ls_type == LsaType.summary
    then Option.map summary (find (λ l. has_key ls_id adv_rtr l.header) db.summary_lsas)
    else if ls_type == LsaType.asbr_summary
    then Option.map summary (find (λ l. has_key ls_id adv_rtr l.header) db.asbr_summary_lsas)
    else if ls_type == LsaType.as_external
    then Option.map as_external (find (λ l. has_key ls_id adv_rtr l.header) db.as_external_lsas)
    else none

-- LSDB::del: the first match goes; the types 4 and 5 are not implemented.
unfoldable pub del : Lsdb → ℕ → ℕ → ℕ → Result Lsdb
del db ls_type ls_id adv_rtr =
    if ls_type == LsaType.router
    then ok (record db {
      router_lsas = erase_first (λ l. has_key ls_id adv_rtr l.header) db.router_lsas;
    })
    else if ls_type == LsaType.network
    then ok (record db {
      network_lsas = erase_first (λ l. has_key ls_id adv_rtr l.header) db.network_lsas;
    })
    else if ls_type == LsaType.summary
    then ok (record db {
      summary_lsas = erase_first (λ l. has_key ls_id adv_rtr l.header) db.summary_lsas;
    })
    else fault assertion_failed

-- The static_casts of `add`: to another class than the object's they are undefined.
abbrev as_router : Lsa → Result RouterLsa
as_router (router l) = ok l
as_router _ = fault bad_cast

abbrev as_network : Lsa → Result NetworkLsa
as_network (network l) = ok l
as_network _ = fault bad_cast

abbrev as_summary : Lsa → Result SummaryLsa
as_summary (summary l) = ok l
as_summary _ = fault bad_cast

abbrev as_as_external : Lsa → Result AsExternalLsa
as_as_external (as_external l) = ok l
as_as_external _ = fault bad_cast

-- The switch of `add`: emplace_back to the list of the type.
emplace : Lsdb → Lsa → ℕ → Result Lsdb
emplace db lsa ls_type =
    if ls_type == LsaType.router
    then (as_router lsa >>= λ l. ok (record db { router_lsas = db.router_lsas ++ (l ∷ []) }))
    else if ls_type == LsaType.network
    then (as_network lsa >>= λ l. ok (record db { network_lsas = db.network_lsas ++ (l ∷ []) }))
    else if ls_type == LsaType.summary
    then (as_summary lsa >>= λ l. ok (record db { summary_lsas = db.summary_lsas ++ (l ∷ []) }))
    else if ls_type == LsaType.asbr_summary
    then (as_summary lsa >>= λ l.
        ok (record db { asbr_summary_lsas = db.asbr_summary_lsas ++ (l ∷ []) }))
    else if ls_type == LsaType.as_external
    then (as_as_external lsa >>= λ l.
        ok (record db { as_external_lsas = db.as_external_lsas ++ (l ∷ []) }))
    else fault assertion_failed

-- The first part of `add`: an older instance is deleted.
drop_older : Lsdb → Header → Option Lsa → Result Lsdb
drop_older db h none = ok db
drop_older db h (some old) = do
  newer ← base_gt h (lsa_header old)
  (if newer then del db h.ls_type h.link_state_id h.advertising_router else ok db)

-- LSDB::add
unfoldable pub add : Lsdb → Lsa → Result Lsdb
unfolding drop_older emplace
add db lsa = do
  let h = lsa_header lsa
  db' ← drop_older db h (get db h.ls_type h.link_state_id h.advertising_router)
  emplace db' lsa h.ls_type

-- LSDB::lsa_num
unfoldable pub lsa_num : Lsdb → ℕ
lsa_num db = length db.router_lsas + length db.network_lsas + length db.summary_lsas
