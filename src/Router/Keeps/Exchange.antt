-- ===== src/Router/Keeps/Exchange.antt =====
-- A database description packet keeps what no step changes.
use ospfd_rfc.Base.{
  ℕ, ◌+◌, ◌%◌, ◌≡◌, refl, sym, ◌∙◌, inl, inr, arith, Bool, true, false, not, ◌&&◌, List, ◌==◌, ltb,
  ◌++◌, if◌then◌else◌, ok, from_option, assertion_failed, from_option-ok, Holds, Holds-ok, Holds-if,
  Holds->>=,
}
use ospfd_rfc.Neighbor.{
  Neighbor, State, down, attempt, init, two_way, ex_start, exchange, loading, full, same_state,
  event_2way_received, event_negotiation_done, event_seq_number_mismatch,
}
use ospfd_rfc.Neighbor.Sound.{
  IsSound, ◌⟿◌, ⟿-trans, event_2way_received-⟿, event_negotiation_done-⟿,
  event_seq_number_mismatch-⟿,
}
use ospfd_rfc.Interface.{Interface, host, get_neighbor_by_ip}
use ospfd_rfc.Lsdb.{Lsdb}
use ospfd_rfc.Packet.{OspfHeader}
use ospfd_rfc.Router.{Router, interface_at}
use ospfd_rfc.Router.Events.{event_exchange_done}
use ospfd_rfc.Router.Exchange.{
  Dd, get_dd, store, erase_sent, reply, resend, mismatch, request_missing, num_lsahdrs, same_flag,
  is_empty, accepted, in_exchange, in_ex_start, in_full, by_state, process_dd,
}
use ospfd_rfc.Router.Keeps.{Keeps}
use ospfd_rfc.Router.Keeps.Events.{Holds-Keeps, event_exchange_done-Keeps}
use ospfd_rfc.Router.Keeps.Answers.{IsAt, IsAt-⟿, store-Keeps, resend-Keeps, reply-Keeps}

negotiation_done_exchange :
    (db : Lsdb) (n n' : Neighbor) → event_negotiation_done db n ≡ ok n' → n'.state ≡ exchange
unfolding event_negotiation_done
negotiation_done_exchange db n n' e = ground arith

-- In Exchange the requests and the summary may be anything.
exchanging-IsSound :
    (n n' : Neighbor)
    → n.state ≡ exchange
    → n'.state ≡ exchange
    → n.link_state_rxmt_list ≡ n'.link_state_rxmt_list
    → n.dd_init ≡ n'.dd_init
    → IsSound n
    → IsSound n'
exchanging-IsSound n n' is is' same same_init (a, tidy, rxmt, f, i) = (
  (λ e. ground arith),
  inl (ground arith),
  sym same ∙ rxmt,
  inl (λ e. ground arith),
  inr (elim i [ inl early ↦ absurd (ground arith) | inr later ↦ sym same_init ∙ later ]),
)

not_initial-IsSound : (n : Neighbor) → IsSound n → IsSound (record n { dd_init = false })
not_initial-IsSound n (a, tidy, rxmt, f, i) = (a, tidy, rxmt, f, inr refl)

module _ (r : Router) (k : ℕ) (i : Interface) where
  mismatch-Keeps : (n : Neighbor) → IsAt r k i n → Holds (Keeps r) (mismatch r k i n)
  mismatch-Keeps n h = Holds->>= (Keeps r) (event_seq_number_mismatch n) _ (λ n' e.
      store-Keeps r k i n' (
        IsAt-⟿ r k i n n'
          (Holds-ok (λ n'. n ⟿ n') (event_seq_number_mismatch n) n'
            (event_seq_number_mismatch-⟿ (host i) n) e)
          h))

  accepted-Keeps :
      (n : Neighbor) (hdr : OspfHeader) (dd : Dd) (headers : List ℕ)
      → n.state ≡ exchange
      → IsAt r k i n
      → Holds (Keeps r) (accepted r k i n hdr dd headers)
  unfolding accepted
  accepted-Keeps n hdr dd headers state_is h =
      Holds->>= (Keeps r) (erase_sent n.db_summary_list n.db_summary_send_iter) _
        (λ (unsent, iter) e.
          Holds->>= (Keeps r) (request_missing r.lsdb (num_lsahdrs hdr) headers) _ (λ reqs e'.
            let n' = record n {
              db_summary_list = unsent;
              db_summary_send_iter = iter;
              dd_recv_no_more = not dd.more_flag;
              link_state_request_list = n.link_state_request_list ++ reqs;
            } in
            let r' = store r k i n' in
            let keep = store-Keeps r k i n' (
              IsAt-⟿ r k i n n' (refl, λ s. exchanging-IsSound n n' state_is state_is refl refl s)
                h) in
            Holds-if (Keeps r)
              (not n'.is_master && (is_empty n'.db_summary_list && n'.dd_recv_no_more)) _ _
              (λ done.
                Holds-Keeps r r' (event_exchange_done r' k n'.ip_addr) keep
                  (event_exchange_done-Keeps r' k n'.ip_addr))
              (λ more.
                Holds-Keeps r r' (reply r' k n'.ip_addr) keep (reply-Keeps r' k n'.ip_addr))))

  in_exchange-Keeps :
      (n : Neighbor) (dup : Bool) (hdr : OspfHeader) (dd : Dd) (headers : List ℕ)
      → n.state ≡ exchange
      → IsAt r k i n
      → Holds (Keeps r) (in_exchange r k i n dup hdr dd headers)
  unfolding in_exchange
  in_exchange-Keeps n dup hdr dd headers state_is h =
      let fails = mismatch-Keeps n h in
      Holds-if (Keeps r) dup _ _ (λ e. again n.is_master)
        (λ e.
          Holds-if (Keeps r) (not (same_flag dd.master_flag n.is_master)) _ _ (λ e. fails)
            (λ e.
              Holds-if (Keeps r) dd.init_flag _ _ (λ e. fails)
                (λ e.
                  Holds-if (Keeps r) (not (n.dd_options == dd.options)) _ _ (λ e. fails)
                    (λ e.
                      Holds-if (Keeps r)
                        (n.is_master && dd.sequence_number == (n.dd_seq_num + 1) % 4294967296) _ _
                        (λ e.
                          accepted-Keeps (record n { dd_seq_num = dd.sequence_number }) hdr dd
                            headers state_is
                            (IsAt-⟿ r k i n (record n { dd_seq_num = dd.sequence_number })
                              (refl, λ s. s) h))
                        (λ e.
                          Holds-if (Keeps r) (not n.is_master && dd.sequence_number == n.dd_seq_num)
                            _ _
                            (λ e.
                              accepted-Keeps
                                (record n { dd_seq_num = (n.dd_seq_num + 1) % 4294967296 }) hdr dd
                                headers state_is
                                (IsAt-⟿ r k i n
                                  (record n { dd_seq_num = (n.dd_seq_num + 1) % 4294967296 })
                                  (refl, λ s. s) h))
                            (λ e. fails))))))
    where
      again : (b : Bool) → Keeps r (if b then resend r k i n else store r k i n)
      again true = resend-Keeps r k i n h
      again false = store-Keeps r k i n h

  in_full-Keeps :
      (n : Neighbor) (dup : Bool) (dd : Dd)
      → IsAt r k i n
      → Holds (Keeps r) (in_full r k i n dup dd)
  unfolding in_full
  in_full-Keeps n dup dd h =
      Holds-if (Keeps r) (not (same_flag dd.master_flag n.is_master)) _ _ (λ e. mismatch-Keeps n h)
        (λ e.
          Holds-if (Keeps r) dd.init_flag _ _ (λ e. mismatch-Keeps n h)
            (λ e. again (n.is_master && dup)))
    where
      again : (b : Bool) → Keeps r (if b then resend r k i n else store r k i n)
      again true = resend-Keeps r k i n h
      again false = store-Keeps r k i n h

  in_ex_start-Keeps :
      (n : Neighbor) (dup : Bool) (hdr : OspfHeader) (dd : Dd) (headers : List ℕ)
      → IsAt r k i n
      → Holds (Keeps r) (in_ex_start r k i n dup hdr dd headers)
  unfolding in_ex_start
  in_ex_start-Keeps n dup hdr dd headers h =
      let noted : Neighbor = record n { dd_options = dd.options } in
      let slave : Neighbor = record noted {
        is_master = true;
        dd_seq_num = dd.sequence_number;
        dd_init = false;
      } in
      let master : Neighbor = record noted { is_master = false; dd_init = false } in
      Holds-if (Keeps r) (ltb r.router_id n.id) _ _
        (λ e. Holds->>= (Keeps r) (event_negotiation_done r.lsdb slave) _ (λ n' e'.
          Holds-Keeps r (store r k i n') (reply (store r k i n') k n.ip_addr)
            (store-Keeps r k i n'
              (negotiated slave n' (refl, λ s. not_initial-IsSound n s) refl e'))
            (reply-Keeps (store r k i n') k n.ip_addr)))
        (λ e.
          Holds-if (Keeps r)
            (not dd.master_flag
              && (not dd.init_flag && (dd.sequence_number == n.dd_seq_num && ltb n.id r.router_id)))
            _ _
            (λ e'. Holds->>= (Keeps r) (event_negotiation_done r.lsdb master) _ (λ n' e''.
              in_exchange-Keeps n' dup hdr dd headers
                (negotiation_done_exchange r.lsdb master n' e'')
                (negotiated master n' (refl, λ s. not_initial-IsSound n s) refl e'')))
            (λ e'. store-Keeps r k i noted (IsAt-⟿ r k i n noted (refl, λ s. s) h)))
    where
      negotiated :
          (n1 n' : Neighbor)
          → n ⟿ n1
          → n1.dd_init ≡ false
          → event_negotiation_done r.lsdb n1 ≡ ok n'
          → IsAt r k i n'
      negotiated n1 n' m initial e =
          IsAt-⟿ r k i n n'
            (⟿-trans n n1 n' m (
              Holds-ok (λ n'. n1 ⟿ n') (event_negotiation_done r.lsdb n1) n'
                (event_negotiation_done-⟿ (host i) n1 r.lsdb initial) e))
            h

  by_state-Keeps :
      (n : Neighbor) (dup : Bool) (hdr : OspfHeader) (dd : Dd) (headers : List ℕ) (s : State)
      → n.state ≡ s
      → IsAt r k i n
      → Holds (Keeps r) (by_state r k i n dup hdr dd headers s)
  unfolding by_state
  by_state-Keeps n dup hdr dd headers down state_is h = store-Keeps r k i n h
  by_state-Keeps n dup hdr dd headers attempt state_is h = store-Keeps r k i n h
  by_state-Keeps n dup hdr dd headers two_way state_is h = store-Keeps r k i n h
  by_state-Keeps n dup hdr dd headers init state_is h =
      Holds->>= (Keeps r) (event_2way_received (host i) n) _ (λ n' e.
        let h' =
          IsAt-⟿ r k i n n'
            (Holds-ok (λ n'. n ⟿ n') (event_2way_received (host i) n) n'
              (event_2way_received-⟿ (host i) n) e)
            h in
        Holds-if (Keeps r) (same_state n'.state two_way) _ _ (λ e'. store-Keeps r k i n' h')
          (λ e'. in_ex_start-Keeps n' dup hdr dd headers h'))
  by_state-Keeps n dup hdr dd headers ex_start state_is h = in_ex_start-Keeps n dup hdr dd headers h
  by_state-Keeps n dup hdr dd headers exchange state_is h =
      in_exchange-Keeps n dup hdr dd headers state_is h
  by_state-Keeps n dup hdr dd headers loading state_is h = in_full-Keeps n dup dd h
  by_state-Keeps n dup hdr dd headers full state_is h = in_full-Keeps n dup dd h

pub process_dd-Keeps :
    (r : Router) (k : ℕ) (hdr : OspfHeader) (bytes : List ℕ) (src_ip : ℕ)
    → Holds (Keeps r) (process_dd r k hdr bytes src_ip)
unfolding process_dd
process_dd-Keeps r k hdr bytes src_ip = Holds->>= (Keeps r) (interface_at r k) _ (λ i at_k.
    Holds->>= (Keeps r) (from_option assertion_failed (get_neighbor_by_ip i src_ip)) _ (λ n at_ip.
      Holds->>= (Keeps r) (get_dd bytes) _ (λ (dd, headers) e.
        by_state-Keeps r k i (record n { recv_dd_seq_num = dd.sequence_number })
          (n.recv_dd_seq_num == dd.sequence_number) hdr dd headers n.state refl
          (record {
            interface_is = at_k;
            ip = src_ip;
            before = n;
            neighbor_is = from_option-ok assertion_failed (get_neighbor_by_ip i src_ip) n at_ip;
            moved = (refl, λ s. s);
          }))))
