-- ===== src/Router/Loops.antt =====
-- src/transit.cpp: what one round of send_loop and one frame of recv_loop do, and produce_lsr of
-- src/packet.cpp. The sockets, the sleep of a second and the flag `running` are not modelled.
pub mod Receive
pub mod Hello
pub mod Timers
use ospfd_rfc.Base.{
  ℕ, suc, ◌+◌, ◌%◌, Bool, true, false, ◌&&◌, ◌||◌, not, List, [], ◌∷◌, map, ◌==◌, leb,
  if◌then◌else◌, drop, get_elem?, Result, ok, fault, out_of_bounds, from_option, ◌>>=◌,
}
use ospfd_rfc.Lsa.Codec.{get8, get32}
use ospfd_rfc.Neighbor.{Neighbor, down, ex_start, exchange, loading, same_state}
use ospfd_rfc.Interface.{Interface, same_if_state}
use ospfd_rfc.Interface
use ospfd_rfc.Packet.{OspfHeader, get_ospf_header, checked_body, produce_hello, lsr_bytes}
use ospfd_rfc.Packet.PacketType
use ospfd_rfc.Routing.{Choices}
use ospfd_rfc.Routing.Table.{update_route}
use ospfd_rfc.Router.{
  Router, all_spf_routers, interface_at, put_interface, neighbor_at, put_neighbor, send_packet,
}
use ospfd_rfc.Router.Events.{event_loading_done}
use ospfd_rfc.Router.Hello.{process_hello}
use ospfd_rfc.Router.Exchange.{store, is_empty, reply, resend, process_dd}
use ospfd_rfc.Router.Requests.{process_lsr}
use ospfd_rfc.Router.Update.{process_lsu}

-- this_routing_table.update_route()
unfoldable pub refresh_routes : Choices → Router → Result Router
refresh_routes c r = do
  t ← update_route c r.lsdb r.interfaces r.routing
  ok (record r { routing = t })

-- produce_lsr: the body, empty where the length is 0, in a buffer of ETH_DATA_LEN bytes.
unfoldable pub produce_lsr : Choices → Router → ℕ → ℕ → Result (List ℕ × Router)
produce_lsr c r k ip = do
  i ← interface_at r k
  n ← neighbor_at i ip
  (if is_empty n.link_state_request_list
      then (if same_state n.state loading
          then (event_loading_done r k ip >>= λ r'. refresh_routes c r' >>= λ r''. ok ([], r''))
          else ok ([], r))
      else (checked_body (lsr_bytes n.link_state_request_list) >>= λ body. ok (body, r)))

-- The request packet of the retransmission timer.
unfoldable pub send_lsr : Choices → Router → ℕ → ℕ → Result Router
send_lsr c r k ip = do
  (body, r') ← produce_lsr c r k ip
  i ← interface_at r' k
  ok (if is_empty body then r' else send_packet r' k i PacketType.lsr body ip)

-- The three tests behind the retransmission timer, each on the state that the one before it left.
unfoldable pub retransmit : Choices → Router → ℕ → ℕ → Result Router
retransmit c r k ip = do
  i ← interface_at r k
  n ← neighbor_at i ip
  r1 ← (if same_state n.state ex_start then reply r k ip else ok r)
  i1 ← interface_at r1 k
  n1 ← neighbor_at i1 ip
  let r2 = if not n1.is_master && same_state n1.state exchange then resend r1 k i1 n1 else r1
  (if same_state n1.state exchange || same_state n1.state loading
      then send_lsr c r2 k ip
      else ok r2)

-- The loop's body for the neighbor with the address `ip`.
unfoldable pub tick_neighbor : Choices → Router → ℕ → ℕ → Result Router
tick_neighbor c r k ip = do
  i ← interface_at r k
  n ← neighbor_at i ip
  let timer = (n.rxmt_timer + 1) % 4294967296
  (if same_state n.state down
      then ok r
      else if leb i.rxmt_interval timer
      then retransmit c (store r k i (record n { rxmt_timer = 0 })) k ip
      else ok (store r k i (record n { rxmt_timer = timer })))

unfoldable pub tick_neighbors : Choices → Router → ℕ → List ℕ → Result Router
tick_neighbors c r k [] = ok r
tick_neighbors c r k (ip ∷ ips) = do r' ← tick_neighbor c r k ip; tick_neighbors c r' k ips

-- The Hello timer of the interface at `k`.
unfoldable pub tick_hello : Router → ℕ → Interface → Result Router
tick_hello r k i =
    let timer = (i.hello_timer + 1) % 4294967296 in
    let sending = record i { hello_timer = 0 } in
    if leb i.hello_interval timer
    then (checked_body (produce_hello sending) >>= λ body.
        ok
          (send_packet (put_interface r k sending) k sending PacketType.hello body all_spf_routers))
    else ok (put_interface r k (record i { hello_timer = timer }))

-- The loop's body for an interface. No neighbor comes or goes while its neighbors are served.
unfoldable pub tick_interface : Choices → Router → ℕ → Result Router
tick_interface c r k = do
  i ← interface_at r k
  (if same_if_state i.state Interface.down
      then ok r
      else (tick_hello r k i >>= λ r'. tick_neighbors c r' k (map (λ n. n.ip_addr) i.neighbors)))

unfoldable pub tick_from : Choices → ℕ → List Interface → Router → Result Router
tick_from c k [] r = ok r
tick_from c k (i ∷ is) r = do r' ← tick_interface c r k; tick_from c (suc k) is r'

-- One round of send_loop.
unfoldable pub send_round : Choices → Router → Result Router
send_round c r = tick_from c 0 r.interfaces r

-- IPPROTO_OSPF
abbrev pub ipproto_ospf : ℕ
ipproto_ospf = 89

-- The switch of recv_loop over the packet's type.
unfoldable pub dispatch : Router → ℕ → OspfHeader → List ℕ → ℕ → Result Router
dispatch r k hdr bytes src_ip =
    if hdr.packet_type == PacketType.hello
    then process_hello r k hdr bytes src_ip
    else if hdr.packet_type == PacketType.dd
    then process_dd r k hdr bytes src_ip
    else if hdr.packet_type == PacketType.lsr
    then process_lsr r k hdr bytes src_ip
    else if hdr.packet_type == PacketType.lsu
    then process_lsu r k bytes src_ip
    else ok r

-- The body of recv_loop for the interface at `k`: the buffer from the IP header on, which is taken
-- to be of 20 bytes. Neither the version, the area nor a checksum is looked at.
unfoldable pub receive : Router → ℕ → List ℕ → Result Router
receive r k buffer = do
  (protocol, _) ← get8 (drop 9 buffer)
  (src_ip, _) ← get32 (drop 12 buffer)
  (if protocol == ipproto_ospf
      then (get_ospf_header (drop 20 buffer) >>= λ (hdr, bytes).
          if hdr.router_id == r.router_id then ok r else dispatch r k hdr bytes src_ip)
      else ok r)
