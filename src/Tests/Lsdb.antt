-- ===== src/Tests/Lsdb.antt =====
-- A database with one router LSA.
use ospfd_rfc.Base.{◌≡◌, ◌≢◌, ◌+◌, refl, inl, some, [], ◌∷◌, ok, fault, bad_cast, arith}
use ospfd_rfc.Lsa.{router, network, base_gt}
use ospfd_rfc.Lsdb.{Lsdb, get, add, lsa_num}
use ospfd_rfc.Lsdb.Laws.{IsDatabase, stored, add_new, add_newer, add_stale, add_other}
use ospfd_rfc.Lsdb.NoFault.{add-ne-fault}
use ospfd_rfc.Tests.Lsa.{router_lsa, network_lsa}

abbrev one : Lsdb
one = record {
  router_lsas = router_lsa 7 ∷ [];
  network_lsas = [];
  summary_lsas = [];
  asbr_summary_lsas = [];
  as_external_lsas = [];
  max_age = 3600;
  max_age_diff = 900;
}

one-IsDatabase : IsDatabase one
one-IsDatabase = record { routers_unique = (refl, tt); networks_unique = tt; summaries_unique = tt }

add_new_example :
    (db' : Lsdb) × (add one (network (network_lsa 3)) ≡ ok db')
    × (stored db' (network (network_lsa 3)) ≡ some (network (network_lsa 3)))
    × IsDatabase db'
add_new_example = add_new one (network (network_lsa 3)) one-IsDatabase refl (unfold get in refl)

add_newer_example :
    (db' : Lsdb) × (add one (router (router_lsa 8)) ≡ ok db')
    × (stored db' (router (router_lsa 8)) ≡ some (router (router_lsa 8)))
    × IsDatabase db'
add_newer_example =
    add_newer one (router (router_lsa 8)) (router (router_lsa 7)) one-IsDatabase refl
      (unfold get in refl) (unfold base_gt in refl)

add_stale_example :
    (db' : Lsdb) × (add one (router (router_lsa 6)) ≡ ok db')
    × (stored db' (router (router_lsa 6)) ≡ some (router (router_lsa 7)))
    × (lsa_num db' ≡ lsa_num one + 1)
    × ¬ IsDatabase db'
add_stale_example =
    add_stale one (router (router_lsa 6)) (router (router_lsa 7)) refl (unfold get in refl)
      (unfold base_gt in refl)

add_other_example :
    let db' : Lsdb = record one { network_lsas = network_lsa 3 ∷ [] } in
    get db' 1 16843009 16843009 ≡ get one 1 16843009 16843009
add_other_example =
    add_other one (network (network_lsa 3)) (record one { network_lsas = network_lsa 3 ∷ [] }) 1
      16843009 16843009 refl (inl (omega arith)) (unfold add get in refl)

add-ne-fault_example : add one (router (router_lsa 8)) ≢ fault bad_cast
add-ne-fault_example = add-ne-fault one (router (router_lsa 8)) bad_cast refl
