-- ===== src/Tests/Interface.antt =====
-- Elections on an interface with two neighbors of different rank.
use ospfd_rfc.Base.{
  ◌≡◌, ◌≢◌, ◌⊎◌, refl, Bool, true, false, some, List, [], ◌∷◌, All, select, ok, fault,
  null_dereference,
}
use ospfd_rfc.Neighbor.{Neighbor, broadcast, two_way, new_neighbor, event_adj_ok, estab_adj}
use ospfd_rfc.Interface.{
  Interface, waiting, host, candidates, declares_dr, declares_bdr, elect_bdr, elect_dr,
  elect_designated_router, self_candidate, max_element, neighbor_cmp, adj_ok_all,
}
use ospfd_rfc.Interface.Ranking.{Among, RanksOver}
use ospfd_rfc.Interface.Election.{
  elect_result, elect_fails_iff, elect_bdr_lowest, elect_dr_lowest, Adjusted, eligible,
}
use ospfd_rfc.Tests.Neighbor.{blank}

abbrev high : Neighbor
high = record blank { state = two_way; id = 200; priority = 9; ip_addr = 20 }

abbrev low : Neighbor
low = record blank { state = two_way; id = 100; priority = 3; ip_addr = 30 }

abbrev pub lan : List Neighbor → Interface
lan ns = record {
  network_type = broadcast;
  state = waiting;
  ip_addr = 10;
  mask = 4294967040;
  area_id = 0;
  hello_interval = 10;
  router_dead_interval = 40;
  rxmt_interval = 5;
  router_priority = 1;
  hello_timer = 0;
  wait_timer = 0;
  neighbors = ns;
  designated_router = 0;
  backup_designated_router = 0;
  cost = 1;
}

elect_bdr_lowest_example :
    Among low (high ∷ low ∷ [])
    × (declares_dr low ≡ false)
    × ((declares_bdr low ≡ true)
          × All (RanksOver low) (select declares_bdr (eligible (high ∷ low ∷ [])))
        ⊎ (select declares_bdr (eligible (high ∷ low ∷ [])) ≡ [])
          × All (RanksOver low) (eligible (high ∷ low ∷ [])))
elect_bdr_lowest_example =
    elect_bdr_lowest (high ∷ low ∷ []) low (unfold elect_bdr max_element neighbor_cmp in refl)

-- Both declare themselves DR.
abbrev high_dr : Neighbor
high_dr = record high { designated_router = 20 }

abbrev low_dr : Neighbor
low_dr = record low { designated_router = 30 }

elect_dr_lowest_example :
    (Among low_dr (high_dr ∷ low_dr ∷ [])
      × (declares_dr low_dr ≡ true)
      × All (RanksOver low_dr) (select declares_dr (high_dr ∷ low_dr ∷ [])))
    ⊎ ((select declares_dr (high_dr ∷ low_dr ∷ []) ≡ []) × (some high ≡ some low_dr))
elect_dr_lowest_example =
    elect_dr_lowest (high_dr ∷ low_dr ∷ []) (some high) low_dr
      (unfold elect_dr max_element neighbor_cmp in refl)

-- The router itself, whose memory gives it priority 1, is elected over both.
abbrev elected : Interface
elected = record (lan (high ∷ low ∷ [])) { designated_router = 10; backup_designated_router = 10 }

elect_result_example :
    let i = lan (high ∷ low ∷ []) in
    let cs = candidates blank 50 i in
    (d : Neighbor) × (b : Neighbor) × (elect_bdr cs ≡ some b)
    × (elect_dr cs (some b) ≡ some d)
    × (elected ≡ record i {
      neighbors = elected.neighbors;
      designated_router = d.ip_addr;
      backup_designated_router = b.ip_addr;
    })
    × (false ≡ false)
    × ((i.designated_router ≡ d.ip_addr)
          × (i.backup_designated_router ≡ b.ip_addr)
          × (elected.neighbors ≡ i.neighbors)
        ⊎ ((i.designated_router ≢ d.ip_addr) ⊎ (i.backup_designated_router ≢ b.ip_addr))
          × Adjusted (host i) i.neighbors elected.neighbors)
elect_result_example = elect_result blank 50 (lan (high ∷ low ∷ [])) elected false (
    unfold elect_designated_router candidates self_candidate new_neighbor elect_bdr elect_dr
      max_element neighbor_cmp adj_ok_all event_adj_ok estab_adj in
    refl)

elect_fails_iff_example :
    let i = record (lan []) { designated_router = 10 } in
    let cs = candidates blank 50 i in
    All (λ c. c.designated_router ≡ c.ip_addr) cs
      × (elect_designated_router blank 50 i ≡ fault null_dereference)
    ⊎ (¬ All (λ c. c.designated_router ≡ c.ip_addr) cs)
      × ((r : Interface × Bool) × (elect_designated_router blank 50 i ≡ ok r))
elect_fails_iff_example = elect_fails_iff blank 50 (record (lan []) { designated_router = 10 })
