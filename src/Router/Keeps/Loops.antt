-- ===== src/Router/Keeps/Loops.antt =====
-- A frame and a round of the timers keep what no step changes.
use ospfd_rfc.Base.{
  arith, ℕ, suc, ◌+◌, ◌%◌, ◌≡◌, refl, Bool, true, false, not, ◌&&◌, ◌||◌, List, [], ◌∷◌, leb,
  if◌then◌else◌, map, ok, Holds, Holds-ok, Holds-if, Holds->>=,
}
use ospfd_rfc.Neighbor.{Neighbor, Request, down, ex_start, exchange, loading, same_state}
use ospfd_rfc.Interface.{Interface, host, get_neighbor_by_ip, same_if_state, elected_state}
use ospfd_rfc.Interface
use ospfd_rfc.Packet.{checked_body, produce_hello, lsr_bytes}
use ospfd_rfc.Packet.PacketType
use ospfd_rfc.Routing.{Choices}
use ospfd_rfc.Routing.Table.{update_route}
use ospfd_rfc.Router.{
  Router, all_spf_routers, interface_at, put_interface, neighbor_at, put_neighbor, send_packet,
}
use ospfd_rfc.Router.Events.{event_loading_done}
use ospfd_rfc.Router.Exchange.{store, is_empty, reply, resend}
use ospfd_rfc.Router.Loops.{
  refresh_routes, produce_lsr, send_lsr, retransmit, tick_neighbor, tick_neighbors, tick_hello,
  tick_interface, tick_from, send_round,
}
use ospfd_rfc.Router.Neighbors.{InterfaceKeeps-same}
use ospfd_rfc.Router.Keeps.{
  Keeps, Keeps-refl, Keeps-trans, Sends-Keeps, Sends-same, send_packet-Sends, put_interface-Keeps,
}
use ospfd_rfc.Router.Keeps.Events.{Holds-Keeps, put_neighbor-Keeps, event_loading_done-Keeps}
use ospfd_rfc.Router.Keeps.Answers.{reply-Keeps}

refresh_routes-Keeps : (c : Choices) (r : Router) → Holds (Keeps r) (refresh_routes c r)
unfolding refresh_routes
refresh_routes-Keeps c r =
    Holds->>= (Keeps r) (update_route c r.lsdb r.interfaces r.routing) _ (λ t e.
      Sends-Keeps r (record r { routing = t })
        (Sends-same r (record r { routing = t }) refl refl refl))

is_empty-nil : (reqs : List Request) → is_empty reqs ≡ true → reqs ≡ []
is_empty-nil [] e = refl
is_empty-nil (q ∷ reqs) e = cc

produce_lsr-Keeps :
    (c : Choices) (r : Router) (k ip : ℕ)
    → Holds (λ (x : List ℕ × Router). Keeps r x.1) (produce_lsr c r k ip)
unfolding produce_lsr
produce_lsr-Keeps c r k ip = Holds->>= P (interface_at r k) _ (λ i at_k.
    Holds->>= P (neighbor_at i ip) _ (λ n at_ip.
      Holds-if P (is_empty n.link_state_request_list) _ _
        (λ e.
          Holds-if P (same_state n.state loading) _ _
            (λ e'. Holds->>= P (event_loading_done r k ip) _ (λ r' done.
              Holds->>= P (refresh_routes c r') _ (λ r'' refreshed.
                Keeps-trans r r' r''
                  (Holds-ok (Keeps r) (event_loading_done r k ip) r'
                    (event_loading_done-Keeps r k i ip n at_k at_ip
                      (is_empty-nil n.link_state_request_list e))
                    done)
                  (Holds-ok (Keeps r') (refresh_routes c r') r'' (refresh_routes-Keeps c r')
                    refreshed))))
            (λ e'. Keeps-refl r))
        (λ e.
          Holds->>= P (checked_body (lsr_bytes n.link_state_request_list)) _
            (λ body e'. Keeps-refl r))))
  where
    P : List ℕ × Router → Type 0
    P x = Keeps r x.1

send_lsr-Keeps : (c : Choices) (r : Router) (k ip : ℕ) → Holds (Keeps r) (send_lsr c r k ip)
unfolding send_lsr
send_lsr-Keeps c r k ip = Holds->>= (Keeps r) (produce_lsr c r k ip) _ (λ (body, r') e.
    Holds->>= (Keeps r) (interface_at r' k) _ (λ i at_k.
      let keep =
        Holds-ok (λ (x : List ℕ × Router). Keeps r x.1) (produce_lsr c r k ip) (body, r')
          (produce_lsr-Keeps c r k ip) e in
      sent r' i body keep (is_empty body)))
  where
    sent :
        (r' : Router) (i : Interface) (body : List ℕ)
        → Keeps r r'
        → (b : Bool) → Keeps r (if b then r' else send_packet r' k i PacketType.lsr body ip)
    sent r' i body keep true = keep
    sent r' i body keep false = Keeps-trans r r' (send_packet r' k i PacketType.lsr body ip) keep (
        Sends-Keeps r' (send_packet r' k i PacketType.lsr body ip)
          (send_packet-Sends r' k i PacketType.lsr body ip (omega arith, omega arith)))

retransmit-Keeps : (c : Choices) (r : Router) (k ip : ℕ) → Holds (Keeps r) (retransmit c r k ip)
unfolding retransmit
retransmit-Keeps c r k ip = Holds->>= (Keeps r) (interface_at r k) _ (λ i at_k.
    Holds->>= (Keeps r) (neighbor_at i ip) _ (λ n at_ip.
      Holds->>= (Keeps r) (if same_state n.state ex_start then reply r k ip else ok r) _ (λ r1 e.
        Holds->>= (Keeps r) (interface_at r1 k) _ (λ i1 at_k1.
          Holds->>= (Keeps r) (neighbor_at i1 ip) _ (λ n1 at_ip1.
            let replied =
              Holds-ok (Keeps r) (if same_state n.state ex_start then reply r k ip else ok r) r1
                (Holds-if (Keeps r) (same_state n.state ex_start) (reply r k ip) (ok r)
                  (λ e'. reply-Keeps r k ip) (λ e'. Keeps-refl r))
                e in
            let again = not n1.is_master && same_state n1.state exchange in
            let r2 = if again then resend r1 k i1 n1 else r1 in
            let keep : Keeps r r2 =
              Keeps-trans r r1 r2 replied (resent r1 i1 n1 at_k1 at_ip1 again) in
            Holds-if (Keeps r) (same_state n1.state exchange || same_state n1.state loading)
              (send_lsr c r2 k ip) (ok r2)
              (λ e'. Holds-Keeps r r2 (send_lsr c r2 k ip) keep (send_lsr-Keeps c r2 k ip))
              (λ e'. keep))))))
  where
    resent :
        (r1 : Router) (i1 : Interface) (n1 : Neighbor)
        → interface_at r1 k ≡ ok i1
        → neighbor_at i1 ip ≡ ok n1
        → (b : Bool) → Keeps r1 (if b then resend r1 k i1 n1 else r1)
    resent r1 i1 n1 at_k at_ip false = Keeps-refl r1
    resent r1 i1 n1 at_k at_ip true =
        Keeps-trans r1 (store r1 k i1 n1) (resend r1 k i1 n1)
          (put_neighbor-Keeps r1 k i1 ip n1 n1 at_k at_ip (refl, λ s. s))
          (Sends-Keeps (store r1 k i1 n1) (resend r1 k i1 n1) (
            send_packet-Sends (store r1 k i1 n1) k (put_neighbor i1 n1) PacketType.dd
              n1.last_dd_data n1.ip_addr (omega arith, omega arith)))

tick_neighbor-Keeps :
    (c : Choices) (r : Router) (k ip : ℕ) → Holds (Keeps r) (tick_neighbor c r k ip)
unfolding tick_neighbor
tick_neighbor-Keeps c r k ip = Holds->>= (Keeps r) (interface_at r k) _ (λ i at_k.
    Holds->>= (Keeps r) (neighbor_at i ip) _ (λ n at_ip.
      Holds-if (Keeps r) (same_state n.state down) _ _ (λ e. Keeps-refl r)
        (λ e.
          Holds-if (Keeps r) (leb i.rxmt_interval ((n.rxmt_timer + 1) % 4294967296)) _ _
            (λ e'.
              let r' = store r k i (record n { rxmt_timer = 0 }) in
              Holds-Keeps r r' (retransmit c r' k ip)
                (put_neighbor-Keeps r k i ip n (record n { rxmt_timer = 0 }) at_k at_ip
                  (refl, λ s. s))
                (retransmit-Keeps c r' k ip))
            (λ e'.
              put_neighbor-Keeps r k i ip n
                (record n { rxmt_timer = (n.rxmt_timer + 1) % 4294967296 }) at_k at_ip
                (refl, λ s. s)))))

tick_neighbors-Keeps :
    (c : Choices) (r : Router) (k : ℕ) (ips : List ℕ) → Holds (Keeps r) (tick_neighbors c r k ips)
unfolding tick_neighbors
tick_neighbors-Keeps c r k [] = Keeps-refl r
tick_neighbors-Keeps c r k (ip ∷ ips) = Holds->>= (Keeps r) (tick_neighbor c r k ip) _ (λ r' e.
    Holds-Keeps r r' (tick_neighbors c r' k ips)
      (Holds-ok (Keeps r) (tick_neighbor c r k ip) r' (tick_neighbor-Keeps c r k ip) e)
      (tick_neighbors-Keeps c r' k ips))

tick_hello-Keeps :
    (r : Router) (k : ℕ) (i : Interface)
    → interface_at r k ≡ ok i
    → Holds (Keeps r) (tick_hello r k i)
unfolding tick_hello elected_state
tick_hello-Keeps r k i at_k =
    let timer = (i.hello_timer + 1) % 4294967296 in
    let sending : Interface = record i { hello_timer = 0 } in
    let put = put_interface r k sending in
    Holds-if (Keeps r) (leb i.hello_interval timer) _ _
      (λ e. Holds->>= (Keeps r) (checked_body (produce_hello sending)) _ (λ body e'.
        let sent = send_packet put k sending PacketType.hello body all_spf_routers in
        Keeps-trans r put sent
          (put_interface-Keeps r k i sending at_k
            (InterfaceKeeps-same i sending refl refl (λ h. h)))
          (Sends-Keeps put sent (
            send_packet-Sends put k sending PacketType.hello body all_spf_routers
              (omega arith, omega arith)))))
      (λ e.
        put_interface-Keeps r k i (record i { hello_timer = timer }) at_k
          (InterfaceKeeps-same i (record i { hello_timer = timer }) refl refl (λ h. h)))

tick_interface-Keeps : (c : Choices) (r : Router) (k : ℕ) → Holds (Keeps r) (tick_interface c r k)
unfolding tick_interface
tick_interface-Keeps c r k = Holds->>= (Keeps r) (interface_at r k) _ (λ i at_k.
    Holds-if (Keeps r) (same_if_state i.state Interface.down) _ _ (λ e. Keeps-refl r)
      (λ e. Holds->>= (Keeps r) (tick_hello r k i) _ (λ r' e'.
        Holds-Keeps r r' (tick_neighbors c r' k (map (λ n. n.ip_addr) i.neighbors))
          (Holds-ok (Keeps r) (tick_hello r k i) r' (tick_hello-Keeps r k i at_k) e')
          (tick_neighbors-Keeps c r' k (map (λ n. n.ip_addr) i.neighbors)))))

tick_from-Keeps :
    (c : Choices) (k : ℕ) (is : List Interface) (r : Router) → Holds (Keeps r) (tick_from c k is r)
unfolding tick_from
tick_from-Keeps c k [] r = Keeps-refl r
tick_from-Keeps c k (i ∷ is) r = Holds->>= (Keeps r) (tick_interface c r k) _ (λ r' e.
    Holds-Keeps r r' (tick_from c (suc k) is r')
      (Holds-ok (Keeps r) (tick_interface c r k) r' (tick_interface-Keeps c r k) e)
      (tick_from-Keeps c (suc k) is r'))

-- A round of the timers.
pub send_round-Keeps : (c : Choices) (r : Router) → Holds (Keeps r) (send_round c r)
unfolding send_round
send_round-Keeps c r = tick_from-Keeps c 0 r.interfaces r
