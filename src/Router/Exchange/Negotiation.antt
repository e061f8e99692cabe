-- ===== src/Router/Exchange/Negotiation.antt =====
-- What a database description packet does in ExStart: who is master, and what goes wrong.
use ospfd_rfc.Base.{
  ℕ, ◌≤◌, ◌<◌, ◌≡◌, ◌≢◌, refl, ◌⊎◌, inl, inr, true, false, some, List, [], ◌∷◌, ◌++◌, ltb, ◌==◌,
  length, Result, ok, fault, null_dereference, Bool-cases, arith,
}
use ospfd_rfc.Neighbor.{
  Neighbor, ex_start, exchange, dangling, at_end, all_headers, event_negotiation_done,
}
use ospfd_rfc.Interface.{Interface, get_neighbor_by_ip}
use ospfd_rfc.Packet.{OspfHeader, packet_bytes}
use ospfd_rfc.Packet.PacketType
use ospfd_rfc.Router.{Router, interface_at, put_interface, put_neighbor, send_packet}
use ospfd_rfc.Router.Store.{interface_at-put_interface, get_neighbor_by_ip-put_neighbor}
use ospfd_rfc.Router.Exchange.{
  Dd, get_dd, dd_bytes, store, advance, erase_sent, produce_dd, reply, accepted, in_exchange,
  in_ex_start, by_state, process_dd,
}

-- A neighbor in ExStart that becomes the master: how it stands when the first packet is answered.
abbrev pub enslaved : Router → Neighbor → Dd → Neighbor
enslaved r n dd = record n {
  state = exchange;
  is_master = true;
  dd_seq_num = dd.sequence_number;
  recv_dd_seq_num = dd.sequence_number;
  dd_options = dd.options;
  dd_init = false;
  db_summary_list = n.db_summary_list ++ all_headers r.lsdb;
}

negotiated :
    (r : Router) (n : Neighbor) (dd : Dd)
    → event_negotiation_done r.lsdb (record n {
      state = ex_start;
      recv_dd_seq_num = dd.sequence_number;
      dd_options = dd.options;
      is_master = true;
      dd_seq_num = dd.sequence_number;
      dd_init = false;
    })
      ≡ ok (enslaved r n dd)
unfolding event_negotiation_done
negotiated r n dd = refl

-- produce_dd once the negotiation is done, on an iterator that was never set.
produce_first :
    (r : Router) (k : ℕ) (ip : ℕ) (i : Interface) (n : Neighbor)
    → interface_at r k ≡ ok i
    → get_neighbor_by_ip i ip ≡ some n
    → n.dd_init ≡ false
    → n.is_master ≡ true
    → n.dd_recv_no_more ≡ false
    → n.db_summary_send_iter ≡ dangling
    → (10 < length n.db_summary_list) × (produce_dd r k ip ≡ fault null_dereference)
      ⊎ (length n.db_summary_list ≤ 10)
        × (produce_dd r k ip
            ≡ ok (
              dd_bytes n false n.db_summary_list,
              store r k i (record n { db_summary_send_iter = at_end }),
            ))
unfolding produce_dd advance
produce_first r k ip i n at_k known begun slave more unset =
    elim (Bool-cases (ltb 10 (length n.db_summary_list))) [
      | inl many ↦ inl (ground arith, rw at_k (rw known (rw begun (rw many (rw unset refl)))))
      | inr few ↦
          inr (ground arith, rw at_k (rw known (rw begun (rw few (rw slave (rw more refl))))))
    ]

-- How a slave's first answer, to the neighbor `n` of the interface `i`, comes out. With more than 10
-- headers to send the iterator that was never set is advanced. With at most 10, the packet that goes
-- to the neighbor has them all, and the neighbor notes that it has been sent them.
abbrev pub FirstAnswer : Router → ℕ → Interface → Neighbor → Result Router → Type 0
FirstAnswer r k i n out =
    let body = dd_bytes n false n.db_summary_list in
    (10 < length n.db_summary_list) × (out ≡ fault null_dereference)
    ⊎ (length n.db_summary_list ≤ 10)
      × ((r' : Router) × (i' : Interface) × (out ≡ ok r')
          × (interface_at r' k ≡ ok i')
          × (get_neighbor_by_ip i' n.ip_addr
              ≡ some (record n { db_summary_send_iter = at_end; last_dd_data = body }))
          × (r'.sent
              ≡ r.sent
                ++ (record {
                  out = k;
                  dst = n.ip_addr;
                  packet = packet_bytes PacketType.dd r.router_id i.area_id body;
                }
                    ∷ []))
          × (r'.lsdb ≡ r.lsdb))

-- The first answer of a slave: it takes the whole summary list if that is of at most 10 headers, and
-- else advances an iterator that was never set.
reply_first :
    (r : Router) (k : ℕ) (i : Interface) (n : Neighbor)
    → interface_at r k ≡ ok i
    → get_neighbor_by_ip i n.ip_addr ≡ some n
    → n.dd_init ≡ false
    → n.is_master ≡ true
    → n.dd_recv_no_more ≡ false
    → n.db_summary_send_iter ≡ dangling
    → FirstAnswer r k i n (reply r k n.ip_addr)
unfolding reply send_packet
reply_first r k i n at_k known begun slave more unset =
    let body : List ℕ = dd_bytes n false n.db_summary_list in
    let n1 : Neighbor = record n { db_summary_send_iter = at_end } in
    let n2 : Neighbor = record n1 { last_dd_data = body } in
    let i1 : Interface = put_neighbor i n1 in
    let i2 : Interface = put_neighbor i1 n2 in
    let at1 = interface_at-put_interface r k i1 at_k in
    let known1 = get_neighbor_by_ip-put_neighbor i n.ip_addr n n1 known refl in
    elim (produce_first r k n.ip_addr i n at_k known begun slave more unset) [
      | inl (many, failed) ↦ inl (many, rw failed refl)
      | inr (few, made) ↦ inr (
        few,
        (
          send_packet (put_interface (store r k i n1) k i2) k i2 PacketType.dd body n.ip_addr,
          i2,
          rw made (rw at1 (rw known1 refl)),
          interface_at-put_interface (store r k i n1) k i2 at1,
          get_neighbor_by_ip-put_neighbor i1 n.ip_addr n1 n2 known1 refl,
          refl,
          refl,
        ),
      )
    ]

-- In ExStart a description packet of a neighbor with the higher router id that has not said yet that
-- it has no more to send, and whose iterator was never set, as in its first exchange, makes it the
-- master, whatever flags the packet has: the neighbor goes to Exchange with the packet's sequence
-- number, and the headers of the database join those to send it. Up to 10 headers are sent at once in
-- the answer. With more, the answer advances the iterator that was never set: undefined behaviour.
pub process_dd_slave :
    (r : Router) (k : ℕ) (i : Interface) (n : Neighbor) (hdr : OspfHeader) (bytes headers : List ℕ)
    (dd : Dd)
    → interface_at r k ≡ ok i
    → get_neighbor_by_ip i n.ip_addr ≡ some n
    → get_dd bytes ≡ ok (dd, headers)
    → n.state ≡ ex_start
    → r.router_id < n.id
    → n.dd_recv_no_more ≡ false
    → n.db_summary_send_iter ≡ dangling
    → FirstAnswer
        (store r k i (enslaved r n dd))
        k
        (put_neighbor i (enslaved r n dd))
        (enslaved r n dd)
        (process_dd r k hdr bytes n.ip_addr)
unfolding process_dd by_state in_ex_start
process_dd_slave r k i n hdr bytes headers dd at_k known parsed s higher more unset =
    let n' : Neighbor = enslaved r n dd in
    let higher' : ltb r.router_id n.id ≡ true = ground arith in
    let answer =
      reply_first (store r k i n') k (put_neighbor i n') n'
        (interface_at-put_interface r k (put_neighbor i n') at_k)
        (get_neighbor_by_ip-put_neighbor i n.ip_addr n n' known refl) refl refl more unset in
    rw at_k (rw known (rw parsed (rw s (rw higher' (rw (negotiated r n dd) answer)))))

-- In ExStart the router with the higher id, which becomes the master, erases up to an iterator that
-- was never set when a packet of the slave comes without the flags Init and MS, under the router's own
-- sequence number, which is not the number of the packet last received (such a packet is dropped as a
-- duplicate): undefined behaviour.
pub process_dd_master :
    (r : Router) (k : ℕ) (i : Interface) (n : Neighbor) (hdr : OspfHeader) (bytes headers : List ℕ)
    (dd : Dd)
    → interface_at r k ≡ ok i
    → get_neighbor_by_ip i n.ip_addr ≡ some n
    → get_dd bytes ≡ ok (dd, headers)
    → n.state ≡ ex_start
    → n.id < r.router_id
    → dd.master_flag ≡ false
    → dd.init_flag ≡ false
    → dd.sequence_number ≡ n.dd_seq_num
    → n.recv_dd_seq_num ≢ dd.sequence_number
    → n.db_summary_send_iter ≡ dangling
    → process_dd r k hdr bytes n.ip_addr ≡ fault null_dereference
unfolding process_dd by_state in_ex_start in_exchange accepted erase_sent event_negotiation_done
process_dd_master r k i n hdr bytes headers dd at_k known parsed s lower ms ini seq new unset =
    let lower' : ltb n.id r.router_id ≡ true = ground arith in
    let not_higher : ltb r.router_id n.id ≡ false = ground arith in
    let same : (dd.sequence_number == n.dd_seq_num) ≡ true = ground arith in
    let fresh : (n.recv_dd_seq_num == dd.sequence_number) ≡ false = ground arith in
    let options : (dd.options == dd.options) ≡ true = ground arith in
    rw at_k (
      rw known (
        rw parsed (
          rw s (
            rw not_higher
              (rw ms (rw ini (rw same (rw lower' (rw fresh (rw options (rw unset refl)))))))))))
