-- ===== src/Interface.antt =====
-- src/interface.hpp and src/interface.cpp: the interface structure, the election of the designated
-- routers, and the state changes of the events. The events that also originate an LSA are composed
-- in Router.
pub mod Ranking
pub mod Election
pub mod Discovery
use ospfd_rfc.Base.{
  ℕ, Bool, true, false, ◌&&◌, ◌||◌, not, Option, none, some, List, [], ◌∷◌, ◌==◌, ltb,
  if◌then◌else◌, select, find, Result, ok, fault, assert, null_dereference, from_option, ◌>>=◌,
  ◌>>◌,
}
use ospfd_rfc.Neighbor.{
  Neighbor, NetworkType, p2p, p2mp, virtual, broadcast, nbma, Host, new_neighbor, at_least, two_way,
  event_adj_ok,
}

-- Interface::State
pub data IfState : Type 0 where
  down loopback waiting point2point dr_other backup dr : IfState

abbrev pub if_rank : IfState → ℕ
if_rank down = 0
if_rank loopback = 1
if_rank waiting = 2
if_rank point2point = 3
if_rank dr_other = 4
if_rank backup = 5
if_rank dr = 6

abbrev pub same_if_state : IfState → IfState → Bool
same_if_state s t = if_rank s == if_rank t

-- The members that only the operating system's calls use (name, if_index, send_fd, recv_fd) are in
-- Discovery, and the unused authentication members are left out; an interface is told by its place
-- in the list.
pub record Interface : Type 0 where
  pub network_type : NetworkType
  pub state : IfState
  pub ip_addr : ℕ
  pub mask : ℕ
  pub area_id : ℕ
  pub hello_interval : ℕ
  pub router_dead_interval : ℕ
  pub rxmt_interval : ℕ
  pub router_priority : ℕ
  pub hello_timer : ℕ
  pub wait_timer : ℕ
  pub neighbors : List Neighbor
  pub designated_router : ℕ
  pub backup_designated_router : ℕ
  pub cost : ℕ

abbrev pub host : Interface → Host
host i = record { network_type = i.network_type; ip_addr = i.ip_addr }

-- Interface(ip_addr, mask, area_id) with the default member initialisers.
unfoldable pub new_interface : ℕ → ℕ → ℕ → Interface
new_interface ip mask area_id = record {
  network_type = broadcast;
  state = down;
  ip_addr = ip;
  mask = mask;
  area_id = area_id;
  hello_interval = 10;
  router_dead_interval = 40;
  rxmt_interval = 5;
  router_priority = 1;
  hello_timer = 0;
  wait_timer = 0;
  neighbors = [];
  designated_router = 0;
  backup_designated_router = 0;
  cost = 1;
}

unfoldable pub get_neighbor_by_id : Interface → ℕ → Option Neighbor
get_neighbor_by_id i id = find (λ n. n.id == id) i.neighbors

unfoldable pub get_neighbor_by_ip : Interface → ℕ → Option Neighbor
get_neighbor_by_ip i ip = find (λ n. n.ip_addr == ip) i.neighbors

-- `neighbor_cmp`: a higher priority, or a higher id at the same priority.
unfoldable pub neighbor_cmp : Neighbor → Neighbor → Bool
neighbor_cmp a b = if a.priority == b.priority then ltb b.id a.id else ltb b.priority a.priority

-- std::max_element: the first element that no other is greater than, where `less a b` says that
-- `b` is greater.
max_from : (Neighbor → Neighbor → Bool) → Neighbor → List Neighbor → Neighbor
max_from less largest [] = largest
max_from less largest (n ∷ ns) = max_from less (if less largest n then n else largest) ns

unfoldable pub max_element : (Neighbor → Neighbor → Bool) → List Neighbor → Option Neighbor
unfolding max_from
max_element less [] = none
max_element less (n ∷ ns) = some (max_from less n ns)

-- The local `self`. Its priority is never set: it is what the memory holds.
unfoldable pub self_candidate : Neighbor → ℕ → Interface → Neighbor
unfolding new_neighbor
self_candidate memory router_id i = record (new_neighbor memory i.ip_addr) {
  id = router_id;
  designated_router = i.designated_router;
  backup_designated_router = i.backup_designated_router;
}

unfoldable pub candidates : Neighbor → ℕ → Interface → List Neighbor
candidates memory router_id i =
    self_candidate memory router_id i
    ∷ select (λ n. at_least two_way n.state && not (n.priority == 0)) i.neighbors

abbrev pub declares_dr : Neighbor → Bool
declares_dr n = n.designated_router == n.ip_addr

abbrev pub declares_bdr : Neighbor → Bool
declares_bdr n = n.backup_designated_router == n.ip_addr

-- Step 2.1: the candidates of the second level are those that do not declare themselves DR, and of
-- the first level those among them that declare themselves BDR.
unfoldable pub elect_bdr : List Neighbor → Option Neighbor
elect_bdr cs =
    let level2 = select (λ n. not (declares_dr n)) cs in
    let level1 = select declares_bdr level2 in
    elim (max_element neighbor_cmp level1) [
      | none ↦ max_element neighbor_cmp level2
      | some n ↦ some n
    ]

-- Step 2.2.
unfoldable pub elect_dr : List Neighbor → Option Neighbor → Option Neighbor
elect_dr cs bdr = elim (max_element neighbor_cmp (select declares_dr cs)) [
  | none ↦ bdr
  | some n ↦ some n
]

-- The loop over the neighbors when the DR or the BDR changed.
unfoldable pub adj_ok_all : Host → List Neighbor → Result (List Neighbor)
adj_ok_all h [] = ok []
adj_ok_all h (n ∷ ns) = do
  n' ← (if at_least two_way n.state then event_adj_ok h n else ok n)
  ns' ← adj_ok_all h ns
  ok (n' ∷ ns')

-- Interface::elect_designated_router, with the answer whether it calls MAKE_NETWORK_LSA(this) at
-- its end. The null pointers `dr` and `bdr` are read through when nobody was elected.
unfoldable pub elect_designated_router : Neighbor → ℕ → Interface → Result (Interface × Bool)
elect_designated_router memory router_id i = do
  let cs = candidates memory router_id i
  let bdr = elect_bdr cs
  let dr = elect_dr cs bdr
  d ← from_option null_dereference dr
  b ← from_option null_dereference bdr
  let changed =
      not (i.designated_router == d.ip_addr) || not (i.backup_designated_router == b.ip_addr)
  ns ← (if changed then adj_ok_all (host i) i.neighbors else ok i.neighbors)
  let i' = record i {
    neighbors = ns;
    designated_router = d.ip_addr;
    backup_designated_router = b.ip_addr;
  }
  ok (i', d.ip_addr == i.ip_addr && not (i'.designated_router == i.ip_addr))

-- The switch over the network type.
abbrev pub state_up : NetworkType → IfState
state_up p2p = point2point
state_up p2mp = point2point
state_up virtual = point2point
state_up broadcast = waiting
state_up nbma = waiting

unfoldable pub event_interface_up : Interface → Result Interface
event_interface_up i = do
  assert (same_if_state i.state down)
  ok (record i { state = state_up i.network_type })

-- The state that an interface takes after an election.
unfoldable pub elected_state : Interface → IfState
elected_state i =
    if i.ip_addr == i.designated_router
    then dr
    else if i.ip_addr == i.backup_designated_router
    then backup
    else dr_other

unfoldable pub event_loop_ind : Interface → Interface
event_loop_ind i = record i { state = loopback }

-- Only the assertion: the state stays as it is.
unfoldable pub event_unloop_ind : Interface → Result Interface
event_unloop_ind i = do assert (same_if_state i.state loopback); ok i
