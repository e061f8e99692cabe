-- ===== src/Neighbor/Machine.antt =====
-- The neighbor state machine as a whole: one function over the events, its transition relation, and
-- what every event keeps.
use ospfd_rfc.Base.{
  ℕ, ◌≤◌, ◌≡◌, ◌≢◌, ◌⊎◌, true, false, [], Result, ok, Fault, fault, assertion_failed, Result-cases,
  arith, inl, inr, refl, ap, List, ◌∷◌, Bool, false, Bool-cases,
}
use ospfd_rfc.Lsdb.{Lsdb}
use ospfd_rfc.Neighbor.{
  NetworkType, broadcast, nbma, p2p, p2mp, virtual, always_adjacent, Request, State, down, attempt,
  init, two_way, ex_start, exchange, loading, full, rank, Neighbor, Host, estab_adj, new_neighbor,
  event_hello_received, event_start, event_2way_received, event_negotiation_done, settle_exchange,
  event_bad_lsreq, settle_loading, event_adj_ok, event_seq_number_mismatch, event_1way_received,
  event_kill_nbr, event_inactivity_timer, event_ll_down,
}

-- The thirteen event methods of Neighbor; of event_exchange_done and event_loading_done it is the
-- change of the neighbor.
pub data Event : Type 0 where
  hello_received start two_way_received negotiation_done exchange_done bad_lsreq loading_done :
      Event
  adj_ok seq_number_mismatch one_way_received kill_nbr inactivity_timer ll_down : Event

-- Which method an event calls.
unfoldable pub fire : Host → Lsdb → Event → Neighbor → Result Neighbor
unfolding event_hello_received event_start event_2way_received event_negotiation_done
    settle_exchange event_bad_lsreq settle_loading event_adj_ok event_seq_number_mismatch
    event_1way_received event_kill_nbr event_inactivity_timer event_ll_down
fire host db hello_received n = ok (event_hello_received n)
fire host db start n = event_start n
fire host db two_way_received n = event_2way_received host n
fire host db negotiation_done n = event_negotiation_done db n
fire host db exchange_done n = settle_exchange n
fire host db bad_lsreq n = event_bad_lsreq n
fire host db loading_done n = settle_loading n
fire host db adj_ok n = event_adj_ok host n
fire host db seq_number_mismatch n = event_seq_number_mismatch n
fire host db one_way_received n = event_1way_received n
fire host db kill_nbr n = ok (event_kill_nbr n)
fire host db inactivity_timer n = ok (event_inactivity_timer n)
fire host db ll_down n = ok (event_ll_down n)

-- `event_adj_ok` in each case: a wanted adjacency is kept or begun, one that is no longer wanted
-- falls back to two-way communication with its lists as they were, and else nothing changes.
pub event_adj_ok_lem :
    (host : Host) (n n' : Neighbor)
    → event_adj_ok host n ≡ ok n'
    → (3 ≤ rank n.state)
      × ((estab_adj host n ≡ true) × (4 ≤ rank n.state) × (n' ≡ n)
          ⊎ (estab_adj host n ≡ true)
            × (rank n.state ≡ 3)
            × (n' ≡ record n { state = ex_start; dd_seq_num = 0; is_master = false })
          ⊎ (estab_adj host n ≡ false) × (4 ≤ rank n.state) × (n' ≡ record n { state = two_way })
          ⊎ (estab_adj host n ≡ false) × (rank n.state ≡ 3) × (n' ≡ n))
unfolding event_adj_ok
event_adj_ok_lem host n n' h = ground arith

-- An adjacency is wanted (the method estab_adj): on a network of another type than broadcast and NBMA
-- always, and on these two when the host or the neighbor is the DR or the BDR that the neighbor itself
-- declares.
abbrev pub IsWanted : Host → Neighbor → Type 0
IsWanted host n =
    ((host.network_type ≢ broadcast) × (host.network_type ≢ nbma))
    ⊎ ((host.ip_addr ≡ n.designated_router)
        ⊎ ((host.ip_addr ≡ n.backup_designated_router)
            ⊎ ((n.ip_addr ≡ n.designated_router) ⊎ (n.ip_addr ≡ n.backup_designated_router))))

always_adjacent-IsWanted :
    (t : NetworkType) → always_adjacent t ≡ true → (t ≢ broadcast) × (t ≢ nbma)
always_adjacent-IsWanted p2p e = (λ h. cc, λ h. cc)
always_adjacent-IsWanted p2mp e = (λ h. cc, λ h. cc)
always_adjacent-IsWanted virtual e = (λ h. cc, λ h. cc)
always_adjacent-IsWanted broadcast e = cc
always_adjacent-IsWanted nbma e = cc

never_adjacent : (t : NetworkType) → always_adjacent t ≡ false → ¬ ((t ≢ broadcast) × (t ≢ nbma))
never_adjacent broadcast e (h, h') = h refl
never_adjacent nbma e (h, h') = h' refl
never_adjacent _ e h = cc

pub estab_adj-IsWanted : (host : Host) (n : Neighbor) → estab_adj host n ≡ true → IsWanted host n
unfolding estab_adj
estab_adj-IsWanted host n e = elim (Bool-cases (always_adjacent host.network_type)) [
  | inl always ↦ inl (always_adjacent-IsWanted host.network_type always)
  | inr other ↦ inr (ground arith)
]

pub estab_adj-not_IsWanted :
    (host : Host) (n : Neighbor) → estab_adj host n ≡ false → ¬ IsWanted host n
unfolding estab_adj
estab_adj-not_IsWanted host n e (inl h) = never_adjacent host.network_type (ground arith) h
estab_adj-not_IsWanted host n e (inr h) = ground arith

-- The table of RFC 2328, section 10.3: the state in which a neighbor is after each event.
abbrev pub Edge : Host → Neighbor → Event → State → Type 0
Edge host n hello_received s = (rank n.state ≤ 2) × (s ≡ init) ⊎ (3 ≤ rank n.state) × (s ≡ n.state)
Edge host n start s = (n.state ≡ down) × (s ≡ attempt)
Edge host n two_way_received s =
    (n.state ≡ init) × (IsWanted host n) × (s ≡ ex_start)
    ⊎ (n.state ≡ init) × (¬ IsWanted host n) × (s ≡ two_way)
    ⊎ (3 ≤ rank n.state) × (s ≡ n.state)
Edge host n negotiation_done s = (n.state ≡ ex_start) × (s ≡ exchange)
Edge host n exchange_done s =
    (n.state ≡ exchange)
    × ((n.link_state_request_list ≡ []) × (s ≡ full)
        ⊎ (n.link_state_request_list ≢ []) × (s ≡ loading))
Edge host n bad_lsreq s = (5 ≤ rank n.state) × (s ≡ ex_start)
Edge host n loading_done s = (n.state ≡ loading) × (s ≡ full)
Edge host n adj_ok s =
    (n.state ≡ two_way) × (IsWanted host n) × (s ≡ ex_start)
    ⊎ (4 ≤ rank n.state) × (¬ IsWanted host n) × (s ≡ two_way)
    ⊎ (n.state ≡ two_way) × (¬ IsWanted host n) × (s ≡ n.state)
    ⊎ (4 ≤ rank n.state) × (IsWanted host n) × (s ≡ n.state)
Edge host n seq_number_mismatch s = (5 ≤ rank n.state) × (s ≡ ex_start)
Edge host n one_way_received s = (2 ≤ rank n.state) × (s ≡ init)
Edge host n kill_nbr s = s ≡ down
Edge host n inactivity_timer s = s ≡ down
Edge host n ll_down s = s ≡ down

exchanged :
    (reqs : List Request) (host : Host) (db : Lsdb) (n n' : Neighbor)
    → n.link_state_request_list ≡ reqs
    → fire host db exchange_done n ≡ ok n'
    → Edge host n exchange_done n'.state
unfolding fire
exchanged [] host db n n' e h = (ground arith, inl (e, ground arith))
exchanged (q ∷ qs) host db n n' e h = (ground arith, inr (λ none. cc, ground arith))

met :
    (host : Host) (db : Lsdb) (n n' : Neighbor) (wanted : Bool)
    → estab_adj host n ≡ wanted
    → fire host db two_way_received n ≡ ok n'
    → (n.state ≡ init) × (wanted ≡ true) × (n'.state ≡ ex_start)
      ⊎ (n.state ≡ init) × (wanted ≡ false) × (n'.state ≡ two_way)
      ⊎ (3 ≤ rank n.state) × (n'.state ≡ n.state)
unfolding fire estab_adj
met host db n n' wanted e h = ground arith

adjusted :
    (host : Host) (n n' : Neighbor)
    → (estab_adj host n ≡ true) × (4 ≤ rank n.state) × (n' ≡ n)
      ⊎ (estab_adj host n ≡ true)
        × (rank n.state ≡ 3)
        × (n' ≡ record n { state = ex_start; dd_seq_num = 0; is_master = false })
      ⊎ (estab_adj host n ≡ false) × (4 ≤ rank n.state) × (n' ≡ record n { state = two_way })
      ⊎ (estab_adj host n ≡ false) × (rank n.state ≡ 3) × (n' ≡ n)
    → Edge host n adj_ok n'.state
adjusted host n n' (inl (w, at, same)) =
    inr (inr (inr (at, estab_adj-IsWanted host n w, ap (λ (x : Neighbor). x.state) same)))
adjusted host n n' (inr (inl (w, at, same))) =
    inl (ground arith, estab_adj-IsWanted host n w, ap (λ (x : Neighbor). x.state) same)
adjusted host n n' (inr (inr (inl (w, at, same)))) =
    inr (inl (at, estab_adj-not_IsWanted host n w, ap (λ (x : Neighbor). x.state) same))
adjusted host n n' (inr (inr (inr (w, at, same)))) =
    inr (
      inr
        (inl (ground arith, estab_adj-not_IsWanted host n w, ap (λ (x : Neighbor). x.state) same)))

-- Every event that succeeds leaves the neighbor in the state that the table of RFC 2328, section 10.3,
-- gives for this event and this neighbor: after ExchangeDone Full if nothing is left to request and
-- else Loading, after 2-WayReceived in Init and after AdjOK? in 2-Way ExStart if an adjacency is wanted
-- and else 2-Way, and so on for all thirteen. An adjacency is wanted always, or on broadcast and NBMA
-- networks by the DR and the BDR that the neighbor itself declares. Of ExchangeDone and LoadingDone it
-- is the state change, without the LSAs they originate.
pub fire-Edge :
    (host : Host) (db : Lsdb) (e : Event) (n n' : Neighbor)
    → fire host db e n ≡ ok n'
    → Edge host n e n'.state
unfolding fire
fire-Edge host db two_way_received n n' h = elim (met host db n n' (estab_adj host n) refl h) [
  | inl (at, w, s) ↦ inl (at, estab_adj-IsWanted host n w, s)
  | inr other ↦ elim other [
    | inl (at, w, s) ↦ inr (inl (at, estab_adj-not_IsWanted host n w, s))
    | inr above ↦ inr (inr above)
  ]
]
fire-Edge host db exchange_done n n' h = exchanged n.link_state_request_list host db n n' refl h
fire-Edge host db adj_ok n n' h = adjusted host n n' (event_adj_ok_lem host n n' h).1
fire-Edge host db hello_received n n' h = ground arith
fire-Edge host db start n n' h = ground arith
fire-Edge host db _ n n' h = ground arith

-- The states in which an event's assertion holds.
abbrev pub IsAllowed : Event → State → Type 0
IsAllowed hello_received s = Unit {0}
IsAllowed start s = rank s ≡ 0
IsAllowed two_way_received s = 2 ≤ rank s
IsAllowed negotiation_done s = rank s ≡ 4
IsAllowed exchange_done s = rank s ≡ 5
IsAllowed bad_lsreq s = 5 ≤ rank s
IsAllowed loading_done s = rank s ≡ 6
IsAllowed adj_ok s = 3 ≤ rank s
IsAllowed seq_number_mismatch s = 5 ≤ rank s
IsAllowed one_way_received s = 2 ≤ rank s
IsAllowed kill_nbr s = Unit {0}
IsAllowed inactivity_timer s = Unit {0}
IsAllowed ll_down s = Unit {0}

IsAllowed-dec : (e : Event) (s : State) → IsAllowed e s ⊎ (¬ IsAllowed e s)
IsAllowed-dec start s = grind arith
IsAllowed-dec hello_received s = inl tt
IsAllowed-dec kill_nbr s = inl tt
IsAllowed-dec inactivity_timer s = inl tt
IsAllowed-dec ll_down s = inl tt
IsAllowed-dec _ s = grind arith

allowed_succeeds :
    (host : Host) (db : Lsdb) (e : Event) (n : Neighbor) (x : Fault)
    → IsAllowed e n.state
    → fire host db e n ≢ fault x
unfolding fire
allowed_succeeds host db hello_received n x a = ground arith
allowed_succeeds _ _ _ _ _ a = ground arith

refused_fails :
    (host : Host) (db : Lsdb) (e : Event) (n : Neighbor)
    → ¬ IsAllowed e n.state
    → fire host db e n ≡ fault assertion_failed
unfolding fire
refused_fails host db hello_received n a = absurd (a tt)
refused_fails _ _ _ _ a = ground arith

-- Every event but ExchangeDone and LoadingDone, which also originate LSAs, succeeds in every state that
-- its assertion names, and fails the assertion in all others.
pub fire-IsAllowed :
    (host : Host) (db : Lsdb) (e : Event) (n : Neighbor)
    → e ≢ exchange_done
    → e ≢ loading_done
    → IsAllowed e n.state × ((n' : Neighbor) × (fire host db e n ≡ ok n'))
      ⊎ (¬ IsAllowed e n.state) × (fire host db e n ≡ fault assertion_failed)
fire-IsAllowed host db e n _ _ = elim (IsAllowed-dec e n.state) [
  | inl a ↦ elim (Result-cases (fire host db e n)) [
    | inl done ↦ inl (a, done)
    | inr (x, failed) ↦ absurd (allowed_succeeds host db e n x a failed)
  ]
  | inr b ↦ inr (b, refused_fails host db e n b)
]

-- Before two-way communication the three lists are empty.
abbrev pub IsTidy : Neighbor → Type 0
IsTidy n =
    (3 ≤ rank n.state)
    ⊎ ((n.link_state_rxmt_list ≡ []) × (n.db_summary_list ≡ []) × (n.link_state_request_list ≡ []))

-- A new neighbor has this property, whatever the memory held.
pub new_neighbor-IsTidy : (memory : Neighbor) (ip : ℕ) → IsTidy (new_neighbor memory ip)
unfolding new_neighbor
new_neighbor-IsTidy memory ip = ground arith

-- Every event that succeeds keeps the lists of a neighbor below two-way communication empty.
pub fire-IsTidy :
    (host : Host) (db : Lsdb) (e : Event) (n n' : Neighbor)
    → fire host db e n ≡ ok n'
    → IsTidy n
    → IsTidy n'
unfolding fire
fire-IsTidy host db start n n' h v = ground arith
fire-IsTidy _ _ _ _ _ h v = ground arith

-- No event sets the Init flag of later database description packets again: after a restart of the
-- exchange it stays as `process_dd` cleared it.
pub fire-dd_init :
    (host : Host) (db : Lsdb) (e : Event) (n n' : Neighbor)
    → fire host db e n ≡ ok n'
    → n'.dd_init ≡ n.dd_init
unfolding fire
fire-dd_init host db start n n' h = ground arith
fire-dd_init _ _ _ _ _ h = ground arith
