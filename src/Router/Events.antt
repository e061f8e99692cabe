-- ===== src/Router/Events.antt =====
-- src/interface.cpp and src/neighbor.cpp: the events that also originate LSAs.
use ospfd_rfc.Base.{ℕ, ◌||◌, ◌==◌, if◌then◌else◌, Result, ok, assert, ◌>>=◌, ◌>>◌}
use ospfd_rfc.Neighbor.{full, same_state, settle_exchange, settle_loading}
use ospfd_rfc.Interface.{
  Interface, down, waiting, dr_other, backup, dr, same_if_state, elect_designated_router,
  elected_state,
}
use ospfd_rfc.Router.{Router, interface_at, put_interface, neighbor_at, put_neighbor}
use ospfd_rfc.Router.Originate.{make_lsa_router, make_lsa_network}

-- The common part of the three events: elect, take the state of the result, originate.
unfoldable pub elect_and_originate : Router → ℕ → Interface → Result Router
elect_and_originate r k i = do
  (i', network) ← elect_designated_router r.memory r.router_id i
  let elected = put_interface r k i'
  r' ← (if network then make_lsa_network elected k else ok elected)
  make_lsa_router (put_interface r' k (record i' { state = elected_state i' }))

unfoldable pub event_wait_timer : Router → ℕ → Result Router
unfolding elect_and_originate
event_wait_timer r k = do
  i ← interface_at r k
  assert (same_if_state i.state waiting)
  elect_and_originate r k i

unfoldable pub event_backup_seen : Router → ℕ → Result Router
unfolding elect_and_originate
event_backup_seen r k = do
  i ← interface_at r k
  assert (same_if_state i.state waiting)
  elect_and_originate r k i

unfoldable pub event_neighbor_change : Router → ℕ → Result Router
unfolding elect_and_originate
event_neighbor_change r k = do
  i ← interface_at r k
  assert
      (same_if_state i.state dr || (same_if_state i.state backup || same_if_state i.state dr_other))
  elect_and_originate r k i

unfoldable pub event_interface_down : Router → ℕ → Result Router
event_interface_down r k = do
  i ← interface_at r k
  make_lsa_router (put_interface r k (record i { state = down }))

-- Neighbor::event_exchange_done: a neighbor that is adjacent at once also makes the router originate
-- its LSA, and the LSA of the network whose DR it is.
unfoldable pub originate_adjacency : Router → ℕ → Interface → Result Router
originate_adjacency r k i = do
  r' ← make_lsa_router r
  (if i.designated_router == i.ip_addr then make_lsa_network r' k else ok r')

unfoldable pub event_exchange_done : Router → ℕ → ℕ → Result Router
unfolding originate_adjacency
event_exchange_done r k ip = do
  i ← interface_at r k
  n ← neighbor_at i ip
  n' ← settle_exchange n
  let r' = put_interface r k (put_neighbor i n')
  (if same_state n'.state full then originate_adjacency r' k i else ok r')

-- Neighbor::event_loading_done: the state change, and the router's LSA.
unfoldable pub event_loading_done : Router → ℕ → ℕ → Result Router
event_loading_done r k ip = do
  i ← interface_at r k
  n ← neighbor_at i ip
  n' ← settle_loading n
  make_lsa_router (put_interface r k (put_neighbor i n'))
