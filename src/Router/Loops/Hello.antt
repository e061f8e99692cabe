-- ===== src/Router/Loops/Hello.antt =====
-- From the Hello packet that one router sends to the neighbor of the router that receives it.
use ospfd_rfc.Base.{
  ℕ, ◌+◌, ◌*◌, ◌%◌, ◌<◌, ◌≡◌, ◌≢◌, ◌⊎◌, inl, inr, refl, Bool-cases, ap, ◌∙◌, true, false, List, [],
  ◌≤◌, sym, Bool, ◌&&◌, if◌then◌else◌, Result, ◌∷◌, ◌++◌, All, ◌==◌, length, ok, ◌>>=◌, arith,
}
use ospfd_rfc.Base.Bytes.{IsU32, word16-byte, word32-byte}
use ospfd_rfc.Neighbor.{Neighbor, rank, init, event_2way_received, event_hello_received}
use ospfd_rfc.Interface.{Interface, host, waiting, same_if_state}
use ospfd_rfc.Packet.{OspfHeader, Hello, get_hello, produce_hello, neighbor_ips, packet_bytes}
use ospfd_rfc.Packet.PacketType
use ospfd_rfc.Router.{Router, interface_at, put_interface, put_neighbor}
use ospfd_rfc.Router.Neighbors.{ips, occurs}
use ospfd_rfc.Router.Hello.{
  lists_router, find_or_add, xor, hello_event, hello_changes, process_hello,
}
use ospfd_rfc.Router.Hello.Facts.{found_lem, two_way_keeps, process_hello_one_way}
use ospfd_rfc.Router.Store.{interface_at-put_interface}
use ospfd_rfc.Router.Events.{event_backup_seen}
use ospfd_rfc.Router.Loops.{ipproto_ospf, dispatch, receive}
use ospfd_rfc.Router.Loops.Receive.{ip_packet, receive-packet_bytes}

length-neighbor_ips : (ns : List Neighbor) → length (neighbor_ips ns) ≡ 4 * length ns
unfolding neighbor_ips
length-neighbor_ips [] = refl
length-neighbor_ips (n ∷ ns) = omega (arith, length-neighbor_ips ns)

lists_router-end : (id pos : ℕ) (bytes : List ℕ) → lists_router id pos pos bytes ≡ ok false
unfolding lists_router
lists_router-end id pos (a ∷ b ∷ c ∷ d ∷ bytes) = rw (same pos) refl
  where
    same : (n : ℕ) → (n == n) ≡ true
    same n = ground arith
lists_router-end id pos _ = rw (same pos) refl
  where
    same : (n : ℕ) → (n == n) ≡ true
    same n = ground arith

-- The list is that of the sender's neighbors' addresses.
lists_router-neighbor_ips :
    (id stop pos : ℕ) (ns : List Neighbor) (padding : List ℕ)
    → All IsU32 (ips ns)
    → stop ≡ pos + 4 * length ns
    → lists_router id stop pos (neighbor_ips ns ++ padding) ≡ ok (occurs id (ips ns))
unfolding lists_router neighbor_ips
lists_router-neighbor_ips id stop pos [] padding h e =
    let there : stop ≡ pos = omega arith in rw there (lists_router-end id pos padding)
lists_router-neighbor_ips id stop pos (n ∷ ns) padding (h, hs) e =
    let before : (pos == stop) ≡ false = ground arith in
    let rest = lists_router-neighbor_ips id stop (pos + 4) ns padding hs (omega arith) in
    rw before (
      rw (word32-byte n.ip_addr h) (elim (Bool-cases (n.ip_addr == id)) [
        | inl here ↦ rw here refl
        | inr other ↦ rw other rest
      ]))

-- What produce_hello puts in front of the list.
abbrev hello_of : Interface → Hello
hello_of j = record {
  network_mask = j.mask;
  hello_interval = j.hello_interval % 65536;
  options = 2;
  router_priority = j.router_priority;
  router_dead_interval = j.router_dead_interval;
  designated_router = j.designated_router;
  backup_designated_router = j.backup_designated_router;
}

-- The members that a Hello packet carries fit their fields.
abbrev pub Fits : Interface → Type 0
Fits j =
    IsU32 j.mask
    × IsU32 j.router_dead_interval
    × IsU32 j.designated_router
    × IsU32 j.backup_designated_router
    × All IsU32 (ips j.neighbors)
    × (44 + 4 * length j.neighbors < 65536)

get_hello-produce_hello :
    (j : Interface) (padding : List ℕ)
    → Fits j
    → get_hello (produce_hello j ++ padding) ≡ ok (hello_of j, neighbor_ips j.neighbors ++ padding)
unfolding get_hello produce_hello
get_hello-produce_hello j padding (mask32, dead32, dr32, bdr32, ips32, bound) =
    rw (word32-byte j.mask mask32) (
      rw (word16-byte (j.hello_interval % 65536) (omega arith)) (
        rw (word32-byte j.router_dead_interval dead32) (
          rw (word32-byte j.designated_router dr32)
            (rw (word32-byte j.backup_designated_router bdr32) refl))))

length-produce_hello : (j : Interface) → length (produce_hello j) ≡ 20 + 4 * length j.neighbors
unfolding produce_hello
length-produce_hello j = omega (arith, length-neighbor_ips j.neighbors)

dispatch-hello :
    (r : Router) (k : ℕ) (hdr : OspfHeader) (bytes : List ℕ) (src : ℕ)
    → hdr.packet_type ≡ PacketType.hello
    → dispatch r k hdr bytes src ≡ process_hello r k hdr bytes src
unfolding dispatch
dispatch-hello r k hdr bytes src is_hello = rw is_hello refl

process_hello_two_way :
    (r : Router) (k : ℕ) (i : Interface) (hdr : OspfHeader) (bytes attached : List ℕ)
    (hello : Hello) (src sender : ℕ)
    → interface_at r k ≡ ok i
    → get_hello bytes ≡ ok (hello, attached)
    → lists_router r.router_id hdr.length 44 attached ≡ ok true
    → hdr.router_id ≡ sender
    → let found = find_or_add r.memory i src in
      let learned : Neighbor = record (found.0) {
        id = sender;
        designated_router = hello.designated_router;
        backup_designated_router = hello.backup_designated_router;
        priority = hello.router_priority * 16777216;
      } in
      process_hello r k hdr bytes src ≡ (
        event_2way_received (host i) (event_hello_received learned) >>= λ n.
        hello_changes (put_interface r k (put_neighbor found.1 n)) k found.0 n)
unfolding process_hello
process_hello_two_way r k i hdr bytes attached hello src sender at_k parsed lists same_id =
    rw at_k (rw parsed (rw lists (rw same_id refl)))

-- Nothing of what the two tests behind the two-way event look for has changed: the neighbor claims
-- to be DR and to be BDR as it did before, and on a waiting interface it claims neither.
abbrev pub IsQuiet : Interface → Neighbor → Interface → ℕ → Type 0
IsQuiet i before j src =
    ((j.designated_router == src) ≡ (before.designated_router == src))
    × ((j.backup_designated_router == src) ≡ (before.backup_designated_router == src))
    × ((i.state ≢ waiting) ⊎ (j.designated_router ≢ src) × (j.backup_designated_router ≢ src))

xor-same : (b : Bool) → xor b b ≡ false
xor-same true = refl
xor-same false = refl

hello_event-quiet :
    (r : Router) (k : ℕ) (i : Interface) (first claims claimed : Bool)
    → interface_at r k ≡ ok i
    → claims ≡ claimed
    → (i.state ≢ waiting) ⊎ (claims ≡ false)
    → hello_event r k first claims claimed ≡ ok r
unfolding hello_event
hello_event-quiet r k i first true claimed at_k same (inr no_claim) = absurd (cc no_claim)
hello_event-quiet r k i first false claimed at_k same quiet = rw at_k (rw⁻¹ same refl)
hello_event-quiet r k i first true claimed at_k same (inl over) =
    let done : same_if_state i.state waiting ≡ false = ground arith in
    rw at_k (rw done (rw⁻¹ same (by_first first)))
  where
    by_first : (b : Bool) → (if b && false then event_backup_seen r k else ok r) ≡ ok r
    by_first true = refl
    by_first false = refl

hello_changes-quiet :
    (r : Router) (k : ℕ) (before n : Neighbor) (i : Interface)
    → interface_at r k ≡ ok i
    → (n.designated_router == n.ip_addr) ≡ (before.designated_router == n.ip_addr)
    → (n.backup_designated_router == n.ip_addr) ≡ (before.backup_designated_router == n.ip_addr)
    → (i.state ≢ waiting) ⊎ ((n.designated_router == n.ip_addr) ≡ false)
    → (i.state ≢ waiting) ⊎ ((n.backup_designated_router == n.ip_addr) ≡ false)
    → hello_changes r k before n ≡ ok r
unfolding hello_changes
hello_changes-quiet r k before n i at_k same same' quiet quiet' =
    rw (hello_event-quiet r k i (n.backup_designated_router == 0) _ _ at_k same quiet)
      (hello_event-quiet r k i true _ _ at_k same' quiet')

Bool-dec : (a b : Bool) → (a ≡ b) ⊎ (a ≢ b)
Bool-dec true true = inl refl
Bool-dec false false = inl refl
Bool-dec true false = inr (λ e. cc)
Bool-dec false true = inr (λ e. cc)

claims_none :
    (i j : Interface) (src : ℕ)
    → (i.state ≢ waiting)
      ⊎ (j.designated_router ≢ src) × (j.backup_designated_router ≢ src)
      ⊎ (i.state ≡ waiting) × ((j.designated_router ≡ src) ⊎ (j.backup_designated_router ≡ src))
claims_none i j src = grind arith

IsQuiet-dec :
    (i j : Interface) (before : Neighbor) (src : ℕ)
    → IsQuiet i before j src ⊎ (¬ IsQuiet i before j src)
IsQuiet-dec i j before src =
    elim (Bool-dec (j.designated_router == src) (before.designated_router == src)) [
      | inr differs ↦ inr (λ (e, _, _). differs e)
      | inl same ↦
          elim (Bool-dec (j.backup_designated_router == src)
            (before.backup_designated_router == src)) [
              | inr differs ↦ inr (λ (_, e, _). differs e)
              | inl same' ↦ elim (claims_none i j src) [
                | inl over ↦ inl (same, same', inl over)
                | inr others ↦ elim others [
                  | inl none_claimed ↦ inl (same, same', inr none_claimed)
                  | inr (waits, claims) ↦ inr (λ (_, _, quiet). grind arith)
                ]
              ]
            ]
    ]

-- The neighbor behind its two-way event, and what the rest of process_hello makes of it.
two_way_result :
    (r : Router) (k : ℕ) (i j : Interface) (src sender : ℕ)
    → interface_at r k ≡ ok i
    → let found = find_or_add r.memory i src in
      let learned : Neighbor = record (found.0) {
        id = sender;
        designated_router = j.designated_router;
        backup_designated_router = j.backup_designated_router;
        priority = j.router_priority * 16777216;
      } in
      (n : Neighbor) × (event_2way_received (host i) (event_hello_received learned) ≡ ok n)
      × (n.ip_addr ≡ src)
      × (n.id ≡ sender)
      × (3 ≤ rank n.state)
      × ((event_2way_received (host i) (event_hello_received learned) >>= λ n.
            hello_changes (put_interface r k (put_neighbor found.1 n)) k found.0 n)
          ≡ hello_changes (put_interface r k (put_neighbor found.1 n)) k found.0 n)
      × ((¬ IsQuiet i found.0 j src)
          ⊎ (hello_changes (put_interface r k (put_neighbor found.1 n)) k found.0 n
              ≡ ok (put_interface r k (put_neighbor found.1 n))))
two_way_result r k i j src sender at_k =
    let found = find_or_add r.memory i src in
    let learned : Neighbor = record (found.0) {
      id = sender;
      designated_router = j.designated_router;
      backup_designated_router = j.backup_designated_router;
      priority = j.router_priority * 16777216;
    } in
    let (ip, st) = found_lem r.memory i src in
    let (n, e, eip, ed, eb, eid, above) = two_way_keeps (host i) learned in
    let at_ip : n.ip_addr ≡ src = eip ∙ ip in
    let i' : Interface = put_neighbor found.1 n in
    (
      n,
      e,
      at_ip,
      eid,
      above,
      rw e refl,
      elim (IsQuiet-dec i j found.0 src) [
        | inr loud ↦ inl loud
        | inl (same, same', quiet) ↦ inr (
            hello_changes-quiet (put_interface r k i') k found.0 n i'
              (interface_at-put_interface r k i' at_k) (rw (ed, at_ip) same) (rw (eb, at_ip) same')
              (elim quiet [
                | inl over ↦ inl (λ waits. over (sym st ∙ waits))
                | inr (no_dr, _) ↦ inr (rw (ed, at_ip) (ground (arith, no_dr)))
              ])
              (elim quiet [
                | inl over ↦ inl (λ waits. over (sym st ∙ waits))
                | inr (_, no_bdr) ↦ inr (rw (eb, at_ip) (ground (arith, no_bdr)))
              ]))
      ],
    )

-- A Hello that another router has sent from its interface `j`, with produce_hello and send_packet, comes
-- in an IP packet, with anything behind it in the buffer. The packet lists the interface addresses of
-- the sender's neighbors. If this router's id is one of these addresses, the neighbor with the packet's
-- source address, which is added if it is new, is at two-way communication or above, in the state that
-- HelloReceived and 2-WayReceived give it, under the sender's id and with the DR, BDR and priority of
-- the packet; what follows are the two tests of the interface, which change and send nothing if the
-- neighbor claims to be DR and BDR as before and, on a waiting interface, claims neither. Otherwise this
-- neighbor is in Init under the sender's id, and nothing is sent.
pub receive-produce_hello :
    (r : Router) (k : ℕ) (i j : Interface) (sender area_id : ℕ) (front padding : List ℕ)
    (check src dst : ℕ)
    → length front ≡ 9
    → IsU32 src
    → IsU32 sender
    → IsU32 area_id
    → sender ≢ r.router_id
    → interface_at r k ≡ ok i
    → Fits j
    → let found = find_or_add r.memory i src in
      let learned : Neighbor = record (found.0) {
        id = sender;
        designated_router = j.designated_router;
        backup_designated_router = j.backup_designated_router;
        priority = j.router_priority * 16777216;
      } in
      let result = receive r k (
        ip_packet front ipproto_ospf check src dst
          (packet_bytes PacketType.hello sender area_id (produce_hello j) ++ padding)) in
      (occurs r.router_id (ips j.neighbors) ≡ true)
        × ((n : Neighbor) × (event_2way_received (host i) (event_hello_received learned) ≡ ok n)
            × (n.ip_addr ≡ src)
            × (n.id ≡ sender)
            × (3 ≤ rank n.state)
            × (result ≡ hello_changes (put_interface r k (put_neighbor found.1 n)) k found.0 n)
            × ((¬ IsQuiet i found.0 j src)
                ⊎ (result ≡ ok (put_interface r k (put_neighbor found.1 n)))))
      ⊎ (occurs r.router_id (ips j.neighbors) ≡ false)
        × ((n : Neighbor) × (n.state ≡ init)
            × (n.ip_addr ≡ src)
            × (n.id ≡ sender)
            × (result ≡ ok (put_interface r k (put_neighbor found.1 n))))
receive-produce_hello r k i j sender area_id front padding check src dst nine src32 sender32 area32
      foreign at_k fits =
    let (hdr, received, is_hello, same_id, same_length) =
      receive-packet_bytes r k front check src dst nine PacketType.hello sender area_id
        (produce_hello j) padding src32 sender32 area32 in
    let bytes = produce_hello j ++ padding in
    let found = find_or_add r.memory i src in
    let other : (sender == r.router_id) ≡ false = ground (arith, foreign) in
    let parsed = get_hello-produce_hello j padding fits in
    let stop : hdr.length ≡ 44 + 4 * length j.neighbors =
      omega (arith, same_length, length-produce_hello j, fits.5) in
    let lists =
      lists_router-neighbor_ips r.router_id hdr.length 44 j.neighbors padding fits.4 stop in
    let processed = received ∙ rw other (dispatch-hello r k hdr bytes src is_hello) in
    elim (Bool-cases (occurs r.router_id (ips j.neighbors))) [
      | inl listed ↦
          let (n, two, at_ip, by_id, above, changes, quiet) =
            two_way_result r k i j src sender at_k in
          let shown =
            process_hello_two_way r k i hdr bytes (neighbor_ips j.neighbors ++ padding) (hello_of j)
              src sender at_k parsed (lists ∙ ap ok listed) same_id in
          let result = processed ∙ shown ∙ changes in
          inl (listed, (n, two, at_ip, by_id, above, result, after result quiet))
      | inr missing ↦
          let (n, in_init, at_ip, by_id, e) =
            process_hello_one_way r k i hdr bytes (neighbor_ips j.neighbors ++ padding) (hello_of j)
              src at_k parsed (lists ∙ ap ok missing) in
          inr (missing, (n, in_init, at_ip, by_id ∙ same_id, processed ∙ e))
    ]
  where
    after : {x y z : Result Router} {P : Type 0} → x ≡ y → P ⊎ (y ≡ z) → P ⊎ (x ≡ z)
    after e (inl p) = inl p
    after e (inr q) = inr (e ∙ q)
