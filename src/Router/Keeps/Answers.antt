-- ===== src/Router/Keeps/Answers.antt =====
-- Writing a neighbor back, and the answer to a description packet, keep what no step changes.
use ospfd_rfc.Base.{
  ℕ, ◌≡◌, refl, arith, ◌&&◌, some, List, [], ltb, length, ok, Holds, Holds-ok, Holds-if, Holds->>=,
}
use ospfd_rfc.Neighbor.{Neighbor, at_end}
use ospfd_rfc.Neighbor.Sound.{◌⟿◌, ⟿-trans}
use ospfd_rfc.Interface.{Interface, get_neighbor_by_ip}
use ospfd_rfc.Packet.PacketType
use ospfd_rfc.Router.{Router, interface_at, put_interface, neighbor_at, put_neighbor, send_packet}
use ospfd_rfc.Router.Events.{event_exchange_done}
use ospfd_rfc.Router.Exchange.{dd_max_lsahdr_num, store, advance, produce_dd, reply, resend}
use ospfd_rfc.Router.Neighbors.{InterfaceKeeps-put_neighbor}
use ospfd_rfc.Router.Keeps.{
  Keeps, Keeps-refl, Keeps-trans, Sends-Keeps, send_packet-Sends, put_interface-Keeps,
}
use ospfd_rfc.Router.Keeps.Events.{put_neighbor-Keeps, event_exchange_done-Keeps}

-- `n` is a neighbor of the interface at `k`, perhaps moved since it was looked up.
pub record IsAt (r : Router) (k : ℕ) (i : Interface) (n : Neighbor) : Type 0 where
  pub interface_is : interface_at r k ≡ ok i
  pub ip : ℕ
  pub before : Neighbor
  pub neighbor_is : get_neighbor_by_ip i ip ≡ some before
  pub moved : before ⟿ n

pub IsAt-⟿ :
    (r : Router) (k : ℕ) (i : Interface) (n n' : Neighbor) → n ⟿ n' → IsAt r k i n → IsAt r k i n'
IsAt-⟿ r k i n n' m h = record {
  interface_is = h.interface_is;
  ip = h.ip;
  before = h.before;
  neighbor_is = h.neighbor_is;
  moved = ⟿-trans h.before n n' h.moved m;
}

pub store-Keeps :
    (r : Router) (k : ℕ) (i : Interface) (n : Neighbor) → IsAt r k i n → Keeps r (store r k i n)
store-Keeps r k i n h =
    put_interface-Keeps r k i (put_neighbor i n) h.interface_is
      (InterfaceKeeps-put_neighbor i h.ip h.before n h.neighbor_is h.moved)

pub resend-Keeps :
    (r : Router) (k : ℕ) (i : Interface) (n : Neighbor) → IsAt r k i n → Keeps r (resend r k i n)
resend-Keeps r k i n h = Keeps-trans r (store r k i n) (resend r k i n) (store-Keeps r k i n h) (
    Sends-Keeps (store r k i n) (resend r k i n) (
      send_packet-Sends (store r k i n) k (put_neighbor i n) PacketType.dd n.last_dd_data n.ip_addr
        (omega arith, omega arith)))

no_summary-⟿ : (n : Neighbor) → n ⟿ record n { db_summary_list = [] }
no_summary-⟿ n = (refl, λ (a, tidy, rxmt, f, i). (a, ground arith, rxmt, f, i))

produce_dd-Keeps :
    (r : Router) (k ip : ℕ) → Holds (λ (x : List ℕ × Router). Keeps r x.1) (produce_dd r k ip)
unfolding produce_dd
produce_dd-Keeps r k ip = Holds->>= P (interface_at r k) _ (λ i at_k.
    Holds->>= P (neighbor_at i ip) _ (λ n at_ip.
      Holds-if P n.dd_init _ _ (λ e. Keeps-refl r)
        (λ e.
          Holds-if P (ltb dd_max_lsahdr_num (length n.db_summary_list)) _ _
            (λ e'. Holds->>= P (advance n.db_summary_list n.db_summary_send_iter) _ (λ iter e''.
              put_neighbor-Keeps r k i ip n (record n { db_summary_send_iter = iter }) at_k at_ip
                (refl, λ s. s)))
            (λ e'.
              let sent_all : Neighbor = record n { db_summary_send_iter = at_end } in
              let r1 = store r k i sent_all in
              let keep = put_neighbor-Keeps r k i ip n sent_all at_k at_ip (refl, λ s. s) in
              Holds-if P (n.is_master && n.dd_recv_no_more) _ _
                (λ e''. Holds->>= P (event_exchange_done r1 k ip) _ (λ r' done.
                  Holds->>= P (interface_at r' k) _ (λ i' at_k'.
                    Holds->>= P (neighbor_at i' ip) _ (λ n' at_ip'.
                      Keeps-trans r r1 (store r' k i' (record n' { db_summary_list = [] })) keep (
                        Keeps-trans r1 r' (store r' k i' (record n' { db_summary_list = [] }))
                          (Holds-ok (Keeps r1) (event_exchange_done r1 k ip) r'
                            (event_exchange_done-Keeps r1 k ip) done)
                          (put_neighbor-Keeps r' k i' ip n' (record n' { db_summary_list = [] })
                            at_k' at_ip' (no_summary-⟿ n')))))))
                (λ e''. keep)))))
  where
    P : List ℕ × Router → Type 0
    P x = Keeps r x.1

pub reply-Keeps : (r : Router) (k ip : ℕ) → Holds (Keeps r) (reply r k ip)
unfolding reply
reply-Keeps r k ip = Holds->>= (Keeps r) (produce_dd r k ip) _ (λ (body, r') e.
    Holds->>= (Keeps r) (interface_at r' k) _ (λ i at_k.
      Holds->>= (Keeps r) (neighbor_at i ip) _ (λ n at_ip.
        let i' = put_neighbor i (record n { last_dd_data = body }) in
        let put = put_interface r' k i' in
        let sent = send_packet put k i' PacketType.dd body ip in
        Keeps-trans r r' sent
          (Holds-ok (λ (x : List ℕ × Router). Keeps r x.1) (produce_dd r k ip) (body, r')
            (produce_dd-Keeps r k ip) e)
          (Keeps-trans r' put sent
            (put_neighbor-Keeps r' k i ip n (record n { last_dd_data = body }) at_k at_ip
              (refl, λ s. s))
            (Sends-Keeps put sent
              (send_packet-Sends put k i' PacketType.dd body ip (omega arith, omega arith)))))))
