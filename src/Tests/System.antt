-- ===== src/Tests/System.antt =====
-- A daemon on a computer with two devices, of which one is passed over, that hears a Hello and then
-- serves its timers.
use ospfd_rfc.Base.{ℕ, ◌≡◌, refl, subst, true, some, All, List, [], ◌∷◌, ◌++◌, Result, ok, fault}
use mathlib.Core.List.{Memᴰ}
use ospfd_rfc.Neighbor.{Neighbor, init, new_neighbor, event_1way_received, event_hello_received}
use ospfd_rfc.Interface.{Interface, waiting, new_interface, get_neighbor_by_ip}
use ospfd_rfc.Interface.Discovery.{Device, Opened, contains, init_interfaces}
use ospfd_rfc.Interface.Discovery.Start.{
  Opens, OpenedFrom, no_more, opens, left_out, init_interfaces-OpenedFrom,
}
use ospfd_rfc.Packet.{packet_bytes, produce_hello, get_ospf_header, get_hello}
use ospfd_rfc.Base.Bytes.{word32, word16}
use ospfd_rfc.Packet.PacketType
use ospfd_rfc.Router.{Sent, Router}
use ospfd_rfc.Router.Keeps.{IsOwn}
use ospfd_rfc.Router.Loops.{
  ipproto_ospf, receive, send_round, dispatch, tick_from, tick_interface, tick_hello,
  tick_neighbors, tick_neighbor,
}
use ospfd_rfc.Router.Hello.{process_hello, lists_router}
use ospfd_rfc.Router.Loops.Receive.{ip_packet}
use ospfd_rfc.System.{boot, Reaches, here, frame, round}
use ospfd_rfc.System.Invariant.{
  IsGood, boot-Reaches-IsGood, SameInterfaces, Reaches-SameInterfaces, get_neighbor_by_ip-Reaches,
}
use ospfd_rfc.Tests.Neighbor.{blank}
use ospfd_rfc.Tests.Interface.{lan}
use ospfd_rfc.Tests.Choices.{in_order}

-- "eth0" at 10 in a network of the mask 255.255.255.0, and "wlo1".
abbrev eth0 : Device
eth0 = record {
  name = 101 ∷ 116 ∷ 104 ∷ 48 ∷ [];
  address = some 10;
  netmask = some 4294967040;
  index = some 2;
  flags = some 4163;
  takes_flags = λ flags. true;
  send_socket = some 4;
  send_bound = true;
  recv_socket = some 5;
  recv_bound = true;
}

abbrev wlo1 : Device
wlo1 = record eth0 { name = 119 ∷ 108 ∷ 111 ∷ 49 ∷ []; address = some 11 }

abbrev opened_eth0 : Opened
opened_eth0 = record {
  interface = record (new_interface 10 4294967040 0) { state = waiting };
  name = 101 ∷ 116 ∷ 104 ∷ 48 ∷ [];
  if_index = 2;
  send_fd = 4;
  recv_fd = 5;
}

init_interfaces-OpenedFrom_example :
    (os : List Opened) × (init_interfaces (some (eth0 ∷ wlo1 ∷ [])) ≡ ok (some os))
    × OpenedFrom (eth0 ∷ wlo1 ∷ []) os
init_interfaces-OpenedFrom_example = init_interfaces-OpenedFrom (eth0 ∷ wlo1 ∷ [])

eth0-Opens : Opens eth0 opened_eth0
unfolding contains new_interface
eth0-Opens = record {
  no_lo = refl;
  no_docker = refl;
  address_is = refl;
  netmask_is = refl;
  index_is = refl;
  promisc = (4163, refl, refl);
  send_is = refl;
  send_bound_is = refl;
  recv_is = refl;
  recv_bound_is = refl;
  name_is = refl;
  starts = refl;
}

wlo1-left_out : (o : Opened) × Opens wlo1 o → ⊥
unfolding contains
wlo1-left_out (o, h) = cc h.no_lo

from_devices : OpenedFrom (eth0 ∷ wlo1 ∷ []) (opened_eth0 ∷ [])
from_devices = opens eth0-Opens (left_out wlo1-left_out no_more)

abbrev started : Router
started = boot 16843009 blank (opened_eth0 ∷ [])

-- A Hello of the router 2.2.2.2 at 20.
abbrev hello_frame : List ℕ
hello_frame =
    ip_packet (69 ∷ 0 ∷ 0 ∷ 64 ∷ 0 ∷ 0 ∷ 0 ∷ 0 ∷ 1 ∷ []) ipproto_ospf 0 20 10
      (packet_bytes PacketType.hello 33686018 0 (produce_hello (lan [])) ++ (0 ∷ []))

abbrev result : Result Router → Router
result (fault reason) = started
result (ok r) = r

abbrev heard : Router
heard = result (receive started 0 hello_frame)

receive-heard : receive started 0 hello_frame ≡ ok heard
unfolding boot receive produce_hello packet_bytes new_interface get_ospf_header word32 dispatch
    process_hello get_hello word16 event_1way_received event_hello_received get_neighbor_by_ip
    new_neighbor lists_router
receive-heard = refl

abbrev ticked : Router
ticked = result (send_round in_order heard)

send_round-ticked : send_round in_order heard ≡ ok ticked
unfolding boot receive produce_hello packet_bytes new_interface get_ospf_header word32 dispatch
    process_hello get_hello word16 event_1way_received event_hello_received get_neighbor_by_ip
    new_neighbor lists_router send_round tick_from tick_interface tick_hello tick_neighbors
    tick_neighbor
send_round-ticked = refl

to_ticked : Reaches started ticked
to_ticked =
    frame started.memory 0 hello_frame receive-heard
      (round heard.memory in_order send_round-ticked here)

boot-Reaches-IsGood_example : All IsGood ticked.interfaces
boot-Reaches-IsGood_example =
    boot-Reaches-IsGood (eth0 ∷ wlo1 ∷ []) (opened_eth0 ∷ []) 16843009 blank ticked from_devices
      to_ticked

Reaches-SameInterfaces_example :
    (started.router_id ≡ ticked.router_id)
    × SameInterfaces started.interfaces ticked.interfaces
    × ((more : List Sent) × (ticked.sent ≡ started.sent ++ more)
        × All (IsOwn started.router_id) more)
Reaches-SameInterfaces_example = Reaches-SameInterfaces started ticked to_ticked

-- The neighbor that has been heard, and its interface.
abbrev heard_neighbor : Neighbor
heard_neighbor = record blank {
  state = init;
  inactivity_timer = 40;
  ip_addr = 20;
  id = 33686018;
  priority = 16777216;
  dd_init = true;
}

abbrev heard_on : Interface
heard_on = record (opened_eth0.interface) { neighbors = heard_neighbor ∷ [] }

heard_on_is : heard_on ∷ [] ≡ heard.interfaces
unfolding boot receive produce_hello packet_bytes new_interface get_ospf_header word32 dispatch
    process_hello get_hello word16 event_1way_received event_hello_received get_neighbor_by_ip
    new_neighbor lists_router
heard_on_is = refl

get_neighbor_by_ip-Reaches_example : get_neighbor_by_ip heard_on 20 ≡ some heard_neighbor
unfolding new_interface
get_neighbor_by_ip-Reaches_example =
    get_neighbor_by_ip-Reaches (eth0 ∷ wlo1 ∷ []) (opened_eth0 ∷ []) 16843009 blank heard heard_on
      heard_neighbor from_devices (frame started.memory 0 hello_frame receive-heard here)
      (subst (λ (is : List Interface). Memᴰ heard_on is) heard_on_is (Memᴰ.head refl))
      (Memᴰ.head refl)
