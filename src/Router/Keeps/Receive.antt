-- ===== src/Router/Keeps/Receive.antt =====
-- A received frame keeps what no step changes.
use ospfd_rfc.Base.{
  arith, ℕ, zero, suc, inl, inr, >>=-eq-ok, ◌+◌, ◌≡◌, refl, none, some, List, [], ◌∷◌, ◌==◌, ltb,
  drop, ok, fault, from_option, assertion_failed, from_option-ok, ◌>>=◌, Holds, Holds-ok, Holds-if,
  Holds->>=, Option, out_of_bounds,
}
use ospfd_rfc.Base.Bytes.{word32}
use ospfd_rfc.Lsa.{Lsa, router, Header, lsa_size, lsa_header}
use ospfd_rfc.Lsa.Codec.{get8, get32}
use ospfd_rfc.Lsdb.{Lsdb, get_router_lsa, add}
use mathlib.Core.Option
use ospfd_rfc.Neighbor.{Neighbor, Request, Host, rank, event_bad_lsreq}
use ospfd_rfc.Neighbor.Sound.{IsSound, ◌⟿◌, ⟿-refl, ⟿-trans, event_bad_lsreq-⟿}
use ospfd_rfc.Interface.{host, get_neighbor_by_ip}
use ospfd_rfc.Packet.{OspfHeader, get_ospf_header, checked_body, produce_lsu, produce_lsack}
use ospfd_rfc.Packet.PacketType
use ospfd_rfc.Router.{Router, interface_at, put_interface, put_neighbor, send_packet}
use ospfd_rfc.Router.Requests.{collect, dereference, process_lsr}
use ospfd_rfc.Router.Update.{parse_lsa, erase_request, update_loop, ack_dst, process_lsu}
use ospfd_rfc.Router.Loops.{ipproto_ospf, dispatch, receive}
use ospfd_rfc.Router.Neighbors.{InterfaceKeeps-put_neighbor}
use ospfd_rfc.Router.Keeps.{
  Keeps, Keeps-refl, Keeps-trans, Sends-Keeps, Sends-same, Sends-trans, send_packet-Sends,
  put_interface-Keeps,
}
use ospfd_rfc.Router.Keeps.Hello.{process_hello-Keeps}
use ospfd_rfc.Router.Keeps.Exchange.{process_dd-Keeps}

collect-⟿ :
    (h : Host) (db : Lsdb) (stop pos : ℕ) (bytes : List ℕ) (n : Neighbor)
    → Holds (λ (x : Neighbor × List (Option Lsa)). n ⟿ x.0) (collect db stop pos bytes n)
unfolding collect
collect-⟿ h db stop pos (t0 ∷ t1 ∷ t2 ∷ t3 ∷ i0 ∷ i1 ∷ i2 ∷ i3 ∷ a0 ∷ a1 ∷ a2 ∷ a3 ∷ bytes) n =
    Holds-if P (pos == stop) _ _ (λ e. ⟿-refl n)
      (λ e.
        by_case (λ n'. collect-⟿ h db stop (pos + 12) bytes n')
          (Option.map router (get_router_lsa db (word32 i0 i1 i2 i3) (word32 a0 a1 a2 a3))))
  where
    P : Neighbor × List (Option Lsa) → Type 0
    P x = n ⟿ x.0

    by_case :
        ((n' : Neighbor)
          → Holds
              (λ (x : Neighbor × List (Option Lsa)). n' ⟿ x.0)
              (collect db stop (pos + 12) bytes n'))
        → (o : Option Lsa)
        → Holds P (elim o [
          | none ↦ event_bad_lsreq n >>= λ n'.
              collect db stop (pos + 12) bytes n' >>= λ rest. ok (rest.0, none ∷ rest.1)
          | some l ↦ collect db stop (pos + 12) bytes n >>= λ rest. ok (rest.0, some l ∷ rest.1)
        ])
    by_case more none = Holds->>= P (event_bad_lsreq n) _ (λ n' e.
        Holds->>= P (collect db stop (pos + 12) bytes n') _ (λ x e'.
          ⟿-trans n n' x.0
            (Holds-ok (λ n'. n ⟿ n') (event_bad_lsreq n) n' (event_bad_lsreq-⟿ h n) e)
            (Holds-ok (λ (x : Neighbor × List (Option Lsa)). n' ⟿ x.0)
              (collect db stop (pos + 12) bytes n') x (more n') e')))
    by_case more (some l) =
        Holds->>= P (collect db stop (pos + 12) bytes n) _
          (λ x e'. Holds-ok P (collect db stop (pos + 12) bytes n) x (more n) e')
collect-⟿ h db stop pos bytes n =
    Holds-if (λ (x : Neighbor × List (Option Lsa)). n ⟿ x.0) (pos == stop) (ok (n, []))
      (fault out_of_bounds) (λ e. ⟿-refl n) (λ e. tt)

process_lsr-Keeps :
    (r : Router) (k : ℕ) (hdr : OspfHeader) (bytes : List ℕ) (src_ip : ℕ)
    → Holds (Keeps r) (process_lsr r k hdr bytes src_ip)
unfolding process_lsr
process_lsr-Keeps r k hdr bytes src_ip = Holds->>= (Keeps r) (interface_at r k) _ (λ i at_k.
    Holds->>= (Keeps r) (from_option assertion_failed (get_neighbor_by_ip i src_ip)) _ (λ n at_ip.
      Holds-if (Keeps r) (ltb (rank n.state) 5) _ _ (λ e. Keeps-refl r)
        (λ e. Holds->>= (Keeps r) (collect r.lsdb hdr.length 24 bytes n) _ (λ (n', found) e'.
          Holds->>= (Keeps r) (dereference found) _ (λ ls e''.
            Holds->>= (Keeps r) (checked_body (produce_lsu ls)) _ (λ body e'''.
              let i' = put_neighbor i n' in
              let put = put_interface r k i' in
              let sent = send_packet put k i' PacketType.lsu body src_ip in
              Keeps-trans r put sent
                (put_interface-Keeps r k i i' at_k (
                  InterfaceKeeps-put_neighbor i src_ip n n'
                    (from_option-ok assertion_failed (get_neighbor_by_ip i src_ip) n at_ip)
                    (Holds-ok (λ (x : Neighbor × List (Option Lsa)). n ⟿ x.0)
                      (collect r.lsdb hdr.length 24 bytes n) (n', found)
                      (collect-⟿ (host i) r.lsdb hdr.length 24 bytes n) e')))
                (Sends-Keeps put sent (
                  send_packet-Sends put k i' PacketType.lsu body src_ip
                    (omega arith, omega arith)))))))))

erase_request-nil : (h : Header) (reqs : List Request) → reqs ≡ [] → erase_request h reqs ≡ []
erase_request-nil h [] e = refl
erase_request-nil h (q ∷ reqs) e = cc

-- Nothing is added to the requests.
update_loop-nil :
    (count : ℕ) (bytes : List ℕ) (db db' : Lsdb) (reqs reqs' : List Request) (headers : List Header)
    → update_loop count bytes db reqs ≡ ok (db', reqs', headers)
    → reqs ≡ []
    → reqs' ≡ []
unfolding update_loop
update_loop-nil zero bytes db db' reqs reqs' headers e empty = cc
update_loop-nil (suc count) bytes db db' reqs reqs' headers e empty =
    let (lsa, parsed, e1) = >>=-eq-ok (parse_lsa bytes) _ e in
    let (db1, added, e2) = >>=-eq-ok (add db lsa) _ e1 in
    let ((db2, reqs2, headers2), looped, e3) =
      >>=-eq-ok
        (update_loop count (drop (lsa_size lsa) bytes) db1 (erase_request (lsa_header lsa) reqs)) _
        e2 in
    let none_left =
      update_loop-nil count (drop (lsa_size lsa) bytes) db1 db2
        (erase_request (lsa_header lsa) reqs) reqs2 headers2 looped
        (erase_request-nil (lsa_header lsa) reqs empty) in
    cc

update_loop-IsSound :
    (count : ℕ) (bytes : List ℕ) (db : Lsdb) (n : Neighbor) (reqs : List Request) (db' : Lsdb)
    (headers : List Header)
    → update_loop count bytes db n.link_state_request_list ≡ ok (db', reqs, headers)
    → IsSound n
    → IsSound (record n { link_state_request_list = reqs })
update_loop-IsSound count bytes db n reqs db' headers e (a, tidy, rxmt, f, i) =
    let still = update_loop-nil count bytes db db' n.link_state_request_list reqs headers e in
    (
      a,
      elim tidy [ inl r ↦ inl r | inr (x, y, z) ↦ inr (x, y, still z) ],
      rxmt,
      elim f [ inl other ↦ inl other | inr empty ↦ inr (still empty) ],
      i,
    )

process_lsu-Keeps :
    (r : Router) (k : ℕ) (bytes : List ℕ) (src_ip : ℕ)
    → Holds (Keeps r) (process_lsu r k bytes src_ip)
unfolding process_lsu
process_lsu-Keeps r k bytes src_ip = Holds->>= (Keeps r) (interface_at r k) _ (λ i at_k.
    Holds->>= (Keeps r) (from_option assertion_failed (get_neighbor_by_ip i src_ip)) _ (λ n at_ip.
      Holds->>= (Keeps r) (get32 bytes) _ (λ (num_lsas, bytes) e.
        Holds->>= (Keeps r) (update_loop num_lsas bytes r.lsdb n.link_state_request_list) _
          (λ (db, reqs, headers) e'.
            let n' : Neighbor = record n { link_state_request_list = reqs } in
            let i' = put_neighbor i n' in
            let put = put_interface r k i' in
            let updated = record put { lsdb = db } in
            let sent =
              send_packet updated k i' PacketType.lsack (produce_lsack headers)
                (ack_dst i src_ip) in
            Keeps-trans r put sent
              (put_interface-Keeps r k i i' at_k (
                InterfaceKeeps-put_neighbor i src_ip n n'
                  (from_option-ok assertion_failed (get_neighbor_by_ip i src_ip) n at_ip)
                  (
                    refl,
                    λ (a, tidy, rxmt, f, i).
                        update_loop-IsSound num_lsas bytes r.lsdb n reqs db headers e'
                          (a, tidy, rxmt, f, i),
                  )))
              (Sends-Keeps put sent (
                Sends-trans put updated sent (Sends-same put updated refl refl refl) (
                  send_packet-Sends updated k i' PacketType.lsack (produce_lsack headers)
                    (ack_dst i src_ip) (omega arith, omega arith))))))))

dispatch-Keeps :
    (r : Router) (k : ℕ) (hdr : OspfHeader) (bytes : List ℕ) (src_ip : ℕ)
    → Holds (Keeps r) (dispatch r k hdr bytes src_ip)
unfolding dispatch
dispatch-Keeps r k hdr bytes src_ip =
    Holds-if (Keeps r) (hdr.packet_type == PacketType.hello) _ _
      (λ e. process_hello-Keeps r k hdr bytes src_ip)
      (λ e.
        Holds-if (Keeps r) (hdr.packet_type == PacketType.dd) _ _
          (λ e'. process_dd-Keeps r k hdr bytes src_ip)
          (λ e'.
            Holds-if (Keeps r) (hdr.packet_type == PacketType.lsr) _ _
              (λ e''. process_lsr-Keeps r k hdr bytes src_ip)
              (λ e''.
                Holds-if (Keeps r) (hdr.packet_type == PacketType.lsu) _ _
                  (λ e'''. process_lsu-Keeps r k bytes src_ip) (λ e'''. Keeps-refl r))))

-- Any frame on any interface.
pub receive-Keeps : (r : Router) (k : ℕ) (buffer : List ℕ) → Holds (Keeps r) (receive r k buffer)
unfolding receive
receive-Keeps r k buffer = Holds->>= (Keeps r) (get8 (drop 9 buffer)) _ (λ (protocol, after) e.
    Holds->>= (Keeps r) (get32 (drop 12 buffer)) _ (λ (src_ip, after') e'.
      Holds-if (Keeps r) (protocol == ipproto_ospf) _ _
        (λ ospf. Holds->>= (Keeps r) (get_ospf_header (drop 20 buffer)) _ (λ (hdr, bytes) e''.
          Holds-if (Keeps r) (hdr.router_id == r.router_id) _ _ (λ own. Keeps-refl r)
            (λ other. dispatch-Keeps r k hdr bytes src_ip)))
        (λ another. Keeps-refl r)))
