-- ===== src/Tests/Neighbor.antt =====
-- A neighbor on its way to Exchange.
use ospfd_rfc.Base.{◌≡◌, ◌⊎◌, refl, true, false, List, [], ◌∷◌, ok, fault, assertion_failed}
use ospfd_rfc.Lsdb.{empty}
use ospfd_rfc.Neighbor.{
  State, down, init, exchange, full, dangling, Neighbor, Host, broadcast, estab_adj, new_neighbor,
  all_headers,
}
use ospfd_rfc.Neighbor.Machine.{
  Event, hello_received, two_way_received, negotiation_done, exchange_done, adj_ok, fire, Edge,
  fire-Edge, IsAllowed, fire-IsAllowed,
}
use ospfd_rfc.Neighbor.Runs.{run}

-- What uninitialised members hold, for instance.
abbrev pub blank : Neighbor
blank = record {
  state = down;
  inactivity_timer = 0;
  is_master = false;
  dd_seq_num = 0;
  recv_dd_seq_num = 0;
  last_dd_data = [];
  dd_recv_no_more = false;
  id = 0;
  priority = 1;
  ip_addr = 0;
  designated_router = 0;
  backup_designated_router = 0;
  rxmt_timer = 0;
  link_state_rxmt_list = [];
  db_summary_list = [];
  db_summary_send_iter = dangling;
  link_state_request_list = [];
  dd_options = 0;
  dd_init = false;
}

-- The router's own interface, which is the DR of the network, and a neighbor that says so.
abbrev dr_host : Host
dr_host = record { network_type = broadcast; ip_addr = 10 }

abbrev pub peer : State → Neighbor
peer s = record blank { state = s; ip_addr = 20; designated_router = 10 }

fire-Edge_example : Edge dr_host (peer exchange) exchange_done full
fire-Edge_example =
    fire-Edge dr_host empty exchange_done (peer exchange) (peer full) (unfold fire in refl)

fire-IsAllowed_example :
    IsAllowed adj_ok init × ((n' : Neighbor) × (fire dr_host empty adj_ok (peer init) ≡ ok n'))
    ⊎ (¬ IsAllowed adj_ok init) × (fire dr_host empty adj_ok (peer init) ≡ fault assertion_failed)
fire-IsAllowed_example = fire-IsAllowed dr_host empty adj_ok (peer init) (λ e. cc) (λ e. cc)

abbrev to_exchange : List Event
to_exchange = hello_received ∷ two_way_received ∷ negotiation_done ∷ []

-- The declared DR is none yet, so the memory says it here.
abbrev met : Neighbor
met = record blank { designated_router = 10; backup_designated_router = 0 }

abbrev exchanging : Neighbor
exchanging = record met { state = exchange; inactivity_timer = 40; ip_addr = 20; dd_init = true }

run-to_exchange : run dr_host empty to_exchange (new_neighbor met 20) ≡ ok exchanging
run-to_exchange = unfold run fire new_neighbor estab_adj all_headers empty in refl
