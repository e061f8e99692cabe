-- ===== src/Neighbor/Sound.antt =====
-- What holds of a neighbor at all times, and steps that keep it.
use ospfd_rfc.Base.{
  ℕ, ◌≡◌, ◌≢◌, ◌⊎◌, inl, inr, refl, false, ◌≤◌, ◌∷◌, ◌∙◌, ok, Holds, Holds-from, arith, List, [],
}
use ospfd_rfc.Lsdb.{Lsdb}
use ospfd_rfc.Neighbor.{
  Neighbor, Host, rank, new_neighbor, attempt, full, Request, event_2way_received, event_adj_ok,
  event_hello_received, event_1way_received, event_negotiation_done, settle_exchange,
  settle_loading, event_bad_lsreq, event_seq_number_mismatch,
}
use ospfd_rfc.Neighbor.Machine.{
  Event, hello_received, start, two_way_received, negotiation_done, exchange_done, bad_lsreq,
  loading_done, adj_ok, seq_number_mismatch, one_way_received, fire, IsTidy, fire-IsTidy,
}

-- No neighbor is in Attempt, before two-way communication the lists are empty, nothing is ever waiting
-- to be retransmitted, a full neighbor has nothing left to request, and from Exchange on description
-- packets are not initial ones.
abbrev pub IsSound : Neighbor → Type 0
IsSound n =
    (n.state ≢ attempt)
    × IsTidy n
    × (n.link_state_rxmt_list ≡ [])
    × ((n.state ≢ full) ⊎ (n.link_state_request_list ≡ []))
    × ((rank n.state ≤ 4) ⊎ (n.dd_init ≡ false))

pub new_neighbor-IsSound : (memory : Neighbor) (ip : ℕ) → IsSound (new_neighbor memory ip)
unfolding new_neighbor
new_neighbor-IsSound memory ip = (λ e. cc, ground arith, refl, inl (λ e. cc), inl (omega arith))

-- The same neighbor, which a step leaves sound.
infix 40 ◌⟿◌
abbrev pub ◌⟿◌ : Neighbor → Neighbor → Type 0
n ⟿ n' = (n.ip_addr ≡ n'.ip_addr) × (IsSound n → IsSound n')

pub ⟿-refl : (n : Neighbor) → n ⟿ n
⟿-refl n = (refl, λ h. h)

pub ⟿-trans : (n1 n2 n3 : Neighbor) → n1 ⟿ n2 → n2 ⟿ n3 → n1 ⟿ n3
⟿-trans n1 n2 n3 (same, sound) (same', sound') = (same ∙ same', λ h. sound' (sound h))

fire-ip_addr :
    (host : Host) (db : Lsdb) (e : Event) (n n' : Neighbor)
    → fire host db e n ≡ ok n'
    → n.ip_addr ≡ n'.ip_addr
unfolding fire
fire-ip_addr host db hello_received n n' h = ground arith
fire-ip_addr host db start n n' h = ground arith
fire-ip_addr host db two_way_received n n' h = ground arith
fire-ip_addr _ _ _ n n' h = ground arith

fire-rxmt_list :
    (host : Host) (db : Lsdb) (e : Event) (n n' : Neighbor)
    → fire host db e n ≡ ok n'
    → n.link_state_rxmt_list ≡ []
    → n'.link_state_rxmt_list ≡ []
unfolding fire
fire-rxmt_list host db start n n' h v = ground arith
fire-rxmt_list _ _ _ n n' h v = ground arith

-- LoadingDone is raised when nothing is left to request.
fire-full :
    (host : Host) (db : Lsdb) (e : Event) (n n' : Neighbor)
    → fire host db e n ≡ ok n'
    → (e ≢ loading_done) ⊎ (n.link_state_request_list ≡ [])
    → (n.state ≢ full) ⊎ (n.link_state_request_list ≡ [])
    → (n'.state ≢ full) ⊎ (n'.link_state_request_list ≡ [])
unfolding fire
fire-full host db loading_done n n' h (inl other) v = absurd (other refl)
fire-full host db loading_done n n' h (inr empty) v = inr (ground arith)
fire-full host db start n n' h other v = inl (λ e. ground arith)
fire-full host db exchange_done n n' h other v = exchanged n.link_state_request_list refl
  where
    exchanged :
        (reqs : List Request)
        → n.link_state_request_list ≡ reqs
        → (n'.state ≢ full) ⊎ (n'.link_state_request_list ≡ [])
    exchanged [] e = inr (ground arith)
    exchanged (q ∷ reqs) e = inl (λ e'. ground arith)
fire-full _ _ _ n n' h other v = ground arith

-- NegotiationDone is raised when the neighbor's packets are no longer initial ones.
fire-initial :
    (host : Host) (db : Lsdb) (e : Event) (n n' : Neighbor)
    → fire host db e n ≡ ok n'
    → (e ≢ negotiation_done) ⊎ (n.dd_init ≡ false)
    → (rank n.state ≤ 4) ⊎ (n.dd_init ≡ false)
    → (rank n'.state ≤ 4) ⊎ (n'.dd_init ≡ false)
unfolding fire
fire-initial host db negotiation_done n n' h (inl other) v = absurd (other refl)
fire-initial host db negotiation_done n n' h (inr same) v = inr (ground arith)
fire-initial host db start n n' h other v = ground arith
fire-initial _ _ _ n n' h other v = ground arith

fire-attempt :
    (host : Host) (db : Lsdb) (e : Event) (n n' : Neighbor)
    → fire host db e n ≡ ok n'
    → e ≢ start
    → n.state ≢ attempt
    → n'.state ≢ attempt
unfolding fire
fire-attempt host db start n n' h other v = absurd (other refl)
fire-attempt _ _ _ n n' h other v = λ e. ground arith

-- Every event, raised where the router raises it, leaves a neighbor sound.
fire-⟿ :
    (host : Host) (db : Lsdb) (e : Event) (n : Neighbor)
    → e ≢ start
    → (e ≢ loading_done) ⊎ (n.link_state_request_list ≡ [])
    → (e ≢ negotiation_done) ⊎ (n.dd_init ≡ false)
    → Holds (λ n'. n ⟿ n') (fire host db e n)
fire-⟿ host db e n other none_left not_initial =
    Holds-from (λ n'. n ⟿ n') (fire host db e n)
      (λ n' h. (
        fire-ip_addr host db e n n' h,
        λ (a, tidy, rxmt, f, i). (
          fire-attempt host db e n n' h other a,
          fire-IsTidy host db e n n' h tidy,
          fire-rxmt_list host db e n n' h rxmt,
          fire-full host db e n n' h none_left f,
          fire-initial host db e n n' h not_initial i,
        ),
      ))

no_lsas : Lsdb
no_lsas = record {
  router_lsas = [];
  network_lsas = [];
  summary_lsas = [];
  asbr_summary_lsas = [];
  as_external_lsas = [];
  max_age = 0;
  max_age_diff = 0;
}

module _ (host : Host) (n : Neighbor) where
  pub event_2way_received-⟿ : Holds (λ n'. n ⟿ n') (event_2way_received host n)
  unfolding fire
  event_2way_received-⟿ =
      fire-⟿ host no_lsas two_way_received n (λ e. cc) (inl (λ e. cc)) (inl (λ e. cc))

  pub event_adj_ok-⟿ : Holds (λ n'. n ⟿ n') (event_adj_ok host n)
  unfolding fire
  event_adj_ok-⟿ = fire-⟿ host no_lsas adj_ok n (λ e. cc) (inl (λ e. cc)) (inl (λ e. cc))

  pub event_hello_received-⟿ : n ⟿ event_hello_received n
  unfolding fire
  event_hello_received-⟿ =
      fire-⟿ host no_lsas hello_received n (λ e. cc) (inl (λ e. cc)) (inl (λ e. cc))

  pub event_1way_received-⟿ : Holds (λ n'. n ⟿ n') (event_1way_received n)
  unfolding fire
  event_1way_received-⟿ =
      fire-⟿ host no_lsas one_way_received n (λ e. cc) (inl (λ e. cc)) (inl (λ e. cc))

  pub event_negotiation_done-⟿ :
      (db : Lsdb) → n.dd_init ≡ false → Holds (λ n'. n ⟿ n') (event_negotiation_done db n)
  unfolding fire
  event_negotiation_done-⟿ db not_initial =
      fire-⟿ host db negotiation_done n (λ e. cc) (inl (λ e. cc)) (inr not_initial)

  pub settle_exchange-⟿ : Holds (λ n'. n ⟿ n') (settle_exchange n)
  unfolding fire
  settle_exchange-⟿ = fire-⟿ host no_lsas exchange_done n (λ e. cc) (inl (λ e. cc)) (inl (λ e. cc))

  pub settle_loading-⟿ : n.link_state_request_list ≡ [] → Holds (λ n'. n ⟿ n') (settle_loading n)
  unfolding fire
  settle_loading-⟿ empty = fire-⟿ host no_lsas loading_done n (λ e. cc) (inr empty) (inl (λ e. cc))

  pub event_bad_lsreq-⟿ : Holds (λ n'. n ⟿ n') (event_bad_lsreq n)
  unfolding fire
  event_bad_lsreq-⟿ = fire-⟿ host no_lsas bad_lsreq n (λ e. cc) (inl (λ e. cc)) (inl (λ e. cc))

  pub event_seq_number_mismatch-⟿ : Holds (λ n'. n ⟿ n') (event_seq_number_mismatch n)
  unfolding fire
  event_seq_number_mismatch-⟿ =
      fire-⟿ host no_lsas seq_number_mismatch n (λ e. cc) (inl (λ e. cc)) (inl (λ e. cc))
