-- ===== src/Neighbor.antt =====
-- src/neighbor.hpp and src/neighbor.cpp: the neighbor structure and its events, but for the
-- LSAs that event_exchange_done and event_loading_done originate (see Router/Events). The lock of the
-- request list and the log output are not modelled.
pub mod Machine
pub mod Runs
pub mod Sound
use ospfd_rfc.Base.{
  ℕ, ◌≤◌, Bool, true, false, ◌||◌, not, List, [], ◌∷◌, ◌++◌, map, ◌==◌, leb, if◌then◌else◌, Result,
  ok, fault, assert, ◌>>=◌, ◌>>◌,
}
use ospfd_rfc.Lsa.{Header, Lsa}
use ospfd_rfc.Lsdb.{Lsdb}

-- Neighbor::State
pub data State : Type 0 where
  down attempt init two_way ex_start exchange loading full : State

-- The enumerator's value, by which the code compares states.
abbrev pub rank : State → ℕ
rank down = 0
rank attempt = 1
rank init = 2
rank two_way = 3
rank ex_start = 4
rank exchange = 5
rank loading = 6
rank full = 7

abbrev pub at_least : State → State → Bool
at_least low s = leb (rank low) (rank s)

abbrev pub same_state : State → State → Bool
same_state s t = rank s == rank t

-- OSPF::LSR::Request
pub record Request : Type 0 where
  pub ls_type : ℕ
  pub link_state_id : ℕ
  pub advertising_router : ℕ

-- What the iterator `db_summary_send_iter` points to: an element of `db_summary_list` by its place, or
-- the end. One that was never set, or whose element is gone, is `dangling`.
pub data SendIter : Type 0 where
  dangling at_end : SendIter
  at_place : ℕ → SendIter

-- `clear` of the list: only the end stays valid.
abbrev pub iter_cleared : SendIter → SendIter
iter_cleared dangling = dangling
iter_cleared at_end = at_end
iter_cleared (at_place p) = dangling

-- `db_summary_list` holds the headers that its pointers point to, by value. `last_dd_data` is the packet
-- that was last sent, so last_dd_data_len is its length; before the first one it is what the memory of a
-- new object held.
pub record Neighbor : Type 0 where
  pub state : State
  pub inactivity_timer : ℕ
  pub is_master : Bool
  pub dd_seq_num : ℕ
  pub recv_dd_seq_num : ℕ
  pub last_dd_data : List ℕ
  pub dd_recv_no_more : Bool
  pub id : ℕ
  pub priority : ℕ
  pub ip_addr : ℕ
  pub designated_router : ℕ
  pub backup_designated_router : ℕ
  pub rxmt_timer : ℕ
  pub link_state_rxmt_list : List Lsa
  pub db_summary_list : List Header
  pub db_summary_send_iter : SendIter
  pub link_state_request_list : List Request
  pub dd_options : ℕ
  pub dd_init : Bool

-- The constructor. The members with no initialiser keep the values that the memory holds, here
-- those of the record `memory`.
unfoldable pub new_neighbor : Neighbor → ℕ → Neighbor
new_neighbor memory ip = record memory {
  state = down;
  inactivity_timer = 40;
  is_master = false;
  dd_recv_no_more = false;
  ip_addr = ip;
  rxmt_timer = 0;
  link_state_rxmt_list = [];
  db_summary_list = [];
  db_summary_send_iter = dangling;
  link_state_request_list = [];
  dd_init = true;
}

-- Interface::Type
pub data NetworkType : Type 0 where
  p2p broadcast nbma p2mp virtual : NetworkType

-- What a neighbor reads through `host_interface`.
pub record Host : Type 0 where
  pub network_type : NetworkType
  pub ip_addr : ℕ

unfoldable pub event_hello_received : Neighbor → Neighbor
event_hello_received n =
    if at_least init n.state
    then record n { inactivity_timer = 40 }
    else record n { state = init; inactivity_timer = 40 }

unfoldable pub event_start : Neighbor → Result Neighbor
event_start n = do assert (same_state n.state down); ok (record n { state = attempt })

-- The network types on which every neighbor becomes adjacent.
abbrev pub always_adjacent : NetworkType → Bool
always_adjacent p2p = true
always_adjacent p2mp = true
always_adjacent virtual = true
always_adjacent broadcast = false
always_adjacent nbma = false

unfoldable pub estab_adj : Host → Neighbor → Bool
estab_adj host n =
    always_adjacent host.network_type
    || (host.ip_addr == n.designated_router
        || (host.ip_addr == n.backup_designated_router
            || (n.ip_addr == n.designated_router || n.ip_addr == n.backup_designated_router)))

abbrev begin_exstart : Neighbor → Neighbor
begin_exstart n = record n { state = ex_start; dd_seq_num = 0; is_master = false }

-- The switch over the network type.
abbrev is_multi_access : NetworkType → Bool
is_multi_access broadcast = true
is_multi_access nbma = true
is_multi_access p2p = false
is_multi_access p2mp = false
is_multi_access virtual = false

unfoldable pub event_2way_received : Host → Neighbor → Result Neighbor
event_2way_received host n = do
  assert (same_state n.state init || at_least two_way n.state)
  ok (
      if at_least two_way n.state
      then n
      else (if is_multi_access host.network_type
          then (if not (estab_adj host n) then record n { state = two_way } else begin_exstart n)
          else begin_exstart n))

-- The headers of the whole database, in the order of the five lists.
unfoldable pub all_headers : Lsdb → List Header
all_headers db =
    map (λ l. l.header) db.router_lsas
    ++ (map (λ l. l.header) db.network_lsas
        ++ (map (λ l. l.header) db.summary_lsas
            ++ (map (λ l. l.header) db.asbr_summary_lsas
                ++ map (λ l. l.header) db.as_external_lsas)))

unfoldable pub event_negotiation_done : Lsdb → Neighbor → Result Neighbor
unfolding all_headers
event_negotiation_done db n = do
  assert (same_state n.state ex_start)
  ok (record n { db_summary_list = n.db_summary_list ++ all_headers db; state = exchange })

abbrev is_empty {ℓ} : {A : Type ℓ} → List A → Bool
is_empty [] = true
is_empty (x ∷ xs) = false

-- The state change of `event_exchange_done`.
unfoldable pub settle_exchange : Neighbor → Result Neighbor
settle_exchange n = do
  assert (same_state n.state exchange)
  ok (
      if is_empty n.link_state_request_list
      then record n { state = full }
      else record n { state = loading })

abbrev clear_lists : Neighbor → Neighbor
clear_lists n = record n {
  link_state_rxmt_list = [];
  db_summary_list = [];
  db_summary_send_iter = iter_cleared n.db_summary_send_iter;
  link_state_request_list = [];
}

unfoldable pub event_bad_lsreq : Neighbor → Result Neighbor
event_bad_lsreq n = do assert (at_least exchange n.state); ok (clear_lists (begin_exstart n))

-- The state change of `event_loading_done`.
unfoldable pub settle_loading : Neighbor → Result Neighbor
settle_loading n = do assert (same_state n.state loading); ok (record n { state = full })

unfoldable pub event_adj_ok : Host → Neighbor → Result Neighbor
event_adj_ok host n = do
  assert (at_least two_way n.state)
  ok (
      if same_state n.state two_way
      then (if estab_adj host n then begin_exstart n else n)
      else (if at_least ex_start n.state
          then (if not (estab_adj host n) then record n { state = two_way } else n)
          else n))

unfoldable pub event_seq_number_mismatch : Neighbor → Result Neighbor
event_seq_number_mismatch n = do
  assert (at_least exchange n.state)
  ok (clear_lists (begin_exstart n))

unfoldable pub event_1way_received : Neighbor → Result Neighbor
event_1way_received n = do
  assert (at_least two_way n.state || same_state n.state init)
  ok (
      if same_state n.state init
      then n
      else clear_lists (record n { state = init; inactivity_timer = 40 }))

unfoldable pub event_kill_nbr : Neighbor → Neighbor
event_kill_nbr n = clear_lists (record n { state = down; inactivity_timer = 0 })

unfoldable pub event_inactivity_timer : Neighbor → Neighbor
event_inactivity_timer n = clear_lists (record n { state = down })

unfoldable pub event_ll_down : Neighbor → Neighbor
event_ll_down n = clear_lists (record n { state = down; inactivity_timer = 0 })
