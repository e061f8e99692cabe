-- ===== src/Tests/Loops.antt =====
-- A Hello every ten rounds, and an update on its way from one router to another.
use ospfd_rfc.Base.{ℕ, ◌≡◌, ◌≤◌, ◌⊎◌, true, false, refl, List, [], ◌∷◌, ◌++◌, inl, inr, ok, arith}
use ospfd_rfc.Lsdb.{Lsdb}
use ospfd_rfc.Neighbor.{Neighbor, rank, init, full, event_2way_received, event_hello_received}
use ospfd_rfc.Interface.{Interface, host}
use ospfd_rfc.Packet.{packet_bytes, produce_hello}
use ospfd_rfc.Packet.PacketType
use ospfd_rfc.Router.{all_spf_routers, put_interface, put_neighbor, send_packet}
use ospfd_rfc.Router.Neighbors.{ips, occurs}
use ospfd_rfc.Router.Hello.{find_or_add, hello_changes}
use ospfd_rfc.Router.Loops.Hello.{IsQuiet, receive-produce_hello}
use ospfd_rfc.Router.Loops.{ipproto_ospf, receive}
use ospfd_rfc.Router.Loops.Receive.{ip_packet, receive_ignores}
use ospfd_rfc.Router.Loops.Timers.{send_rounds, hello_period}
use ospfd_rfc.Tests.Neighbor.{peer}
use ospfd_rfc.Tests.Choices.{in_order}
use ospfd_rfc.Tests.Interface.{lan}
use ospfd_rfc.Tests.Router.{with_interface}

-- Nine bytes, as an IP header begins.
abbrev ip_front : List ℕ
ip_front = 69 ∷ 0 ∷ 0 ∷ 64 ∷ 0 ∷ 0 ∷ 0 ∷ 0 ∷ 1 ∷ []

hello_period_example :
    let r = with_interface (lan []) in
    (send_rounds (λ n. in_order) 9 r ≡ ok (put_interface r 0 (record (lan []) { hello_timer = 9 })))
    × (send_rounds (λ n. in_order) 10 r
        ≡ ok (send_packet r 0 (lan []) PacketType.hello (produce_hello (lan [])) all_spf_routers))
hello_period_example =
    hello_period (λ n. in_order) 9 (with_interface (lan [])) (lan []) (produce_hello (lan [])) refl
      refl (λ e. cc) refl (omega arith) (omega arith) (unfold produce_hello in refl)

receive_ignores_example :
    let r = with_interface (lan []) in
    receive r 0 (
      ip_packet ip_front ipproto_ospf 0 20 10
        (packet_bytes PacketType.lsu 16843009 0 (1 ∷ []) ++ (0 ∷ [])))
    ≡ ok r
receive_ignores_example =
    receive_ignores (with_interface (lan [])) 0 PacketType.lsu 16843009 0 (1 ∷ []) ip_front (0 ∷ [])
      ipproto_ospf 0 20 10 refl (omega arith) (omega arith) (omega arith) (inr (inl refl))

-- The sender has a neighbor whose address is 1.1.1.1, the receiver's id.
abbrev hello_sender : Interface
hello_sender = lan (record (peer full) { ip_addr = 16843009 } ∷ [])

receive-produce_hello_example :
    let r = with_interface (lan []) in
    let found = find_or_add r.memory (lan []) 20 in
    let learned : Neighbor = record (found.0) {
      id = 33686018;
      designated_router = 0;
      backup_designated_router = 0;
      priority = 16777216;
    } in
    let result = receive r 0 (
      ip_packet ip_front ipproto_ospf 0 20 10
        (packet_bytes PacketType.hello 33686018 0 (produce_hello hello_sender) ++ (0 ∷ []))) in
    (occurs 16843009 (ips hello_sender.neighbors) ≡ true)
      × ((n : Neighbor) × (event_2way_received (host (lan [])) (event_hello_received learned)
            ≡ ok n)
          × (n.ip_addr ≡ 20)
          × (n.id ≡ 33686018)
          × (3 ≤ rank n.state)
          × (result ≡ hello_changes (put_interface r 0 (put_neighbor found.1 n)) 0 found.0 n)
          × ((¬ IsQuiet (lan []) found.0 hello_sender 20)
              ⊎ (result ≡ ok (put_interface r 0 (put_neighbor found.1 n)))))
    ⊎ (occurs 16843009 (ips hello_sender.neighbors) ≡ false)
      × ((n : Neighbor) × (n.state ≡ init)
          × (n.ip_addr ≡ 20)
          × (n.id ≡ 33686018)
          × (result ≡ ok (put_interface r 0 (put_neighbor found.1 n))))
receive-produce_hello_example =
    receive-produce_hello (with_interface (lan [])) 0 (lan []) hello_sender 33686018 0 ip_front
      (0 ∷ []) 0 20 10 refl (omega arith) (omega arith) (omega arith) (λ e. omega (arith, e)) refl
      (omega arith, omega arith, omega arith, omega arith, (omega arith, tt), omega arith)
