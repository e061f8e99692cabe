-- ===== src/System.antt =====
-- The daemon as a whole: src/main.cpp starts the interfaces and the two threads of src/transit.cpp, and
-- every frame that is received and every round of the timers is one step. The steps come in any order.
pub mod Invariant
use ospfd_rfc.Base.{ℕ, ◌≡◌, List, [], map, ok}
use ospfd_rfc.Neighbor.{Neighbor}
use ospfd_rfc.Interface.Discovery.{Opened}
use ospfd_rfc.Lsdb.{empty}
use ospfd_rfc.Routing.{Choices, new_table}
use ospfd_rfc.Router.{Router}
use ospfd_rfc.Router.Loops.{send_round, receive}

-- The state behind init_interfaces: an empty database, an empty table, and the first sequence number.
unfoldable pub boot : ℕ → Neighbor → List Opened → Router
boot router_id memory opened = record {
  router_id = router_id;
  interfaces = map (λ o. o.interface) opened;
  lsdb = empty;
  lsa_seq_num = 2147483649;
  sent = [];
  routing = new_table router_id;
  memory = memory;
}

-- What the threads can make of a router: recv_loop takes a frame of any bytes from the interface at
-- `k`, and send_loop goes once over the interfaces. What the uninitialised members of a new Neighbor
-- or of the local `self` of an election hold is open again in each step.
pub data Reaches : Router → Router → Type 0 where
  here : {r : Router} → Reaches r r
  frame :
      {r r1 r2 : Router} (memory : Neighbor) (k : ℕ) (buffer : List ℕ)
      → receive (record r { memory = memory }) k buffer ≡ ok r1
      → Reaches r1 r2
      → Reaches r r2
  round :
      {r r1 r2 : Router} (memory : Neighbor) (c : Choices)
      → send_round c (record r { memory = memory }) ≡ ok r1
      → Reaches r1 r2
      → Reaches r r2
