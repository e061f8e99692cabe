-- ===== src/Router/Exchange.antt =====
-- src/packet.cpp: produce_dd and process_dd. The buffer is the list of the bytes behind the OSPF
-- header, up to the end of the frame's buffer. `last_dd_data` is the body of the last packet.
pub mod Negotiation
use ospfd_rfc.Base.{
  ℕ, zero, suc, ◌+◌, ◌-◌, ◌*◌, ◌/◌, ◌%◌, Bool, true, false, ◌&&◌, ◌||◌, not, Option, none, some,
  List, [], ◌∷◌, ◌++◌, ◌==◌, ltb, leb, if◌then◌else◌, length, take, drop, Result, ok, fault,
  assertion_failed, null_dereference, out_of_bounds, from_option, ◌>>=◌,
}
use ospfd_rfc.Base.Bytes.{be16, be32}
use ospfd_rfc.Lsa.{Header}
use ospfd_rfc.Lsa.Codec.{get8, get16, get32, get_header}
use ospfd_rfc.Lsdb.{Lsdb, get}
use ospfd_rfc.Neighbor.{
  Neighbor, State, down, attempt, init, two_way, ex_start, exchange, loading, full, Request,
  SendIter, dangling, at_end, at_place, same_state, event_2way_received, event_negotiation_done,
  event_seq_number_mismatch,
}
use ospfd_rfc.Interface.{Interface, host, get_neighbor_by_ip}
use ospfd_rfc.Packet.{OspfHeader, produce_lsack, eth_data_len}
use ospfd_rfc.Packet.PacketType
use ospfd_rfc.Router.{Router, interface_at, put_interface, neighbor_at, put_neighbor, send_packet}
use ospfd_rfc.Router.Events.{event_exchange_done}

-- dd_max_lsahdr_num
abbrev pub dd_max_lsahdr_num : ℕ
dd_max_lsahdr_num = 10

-- OSPF::DD, its flags apart. The interface MTU is never read.
pub record Dd : Type 0 where
  pub options : ℕ
  pub init_flag : Bool
  pub more_flag : Bool
  pub master_flag : Bool
  pub sequence_number : ℕ

-- The 8 bytes before the headers, after `network_to_host`.
unfoldable pub get_dd : List ℕ → Result (Dd × List ℕ)
get_dd bytes = do
  (_, bytes) ← get16 bytes
  (options, bytes) ← get8 bytes
  (flags, bytes) ← get8 bytes
  (sequence_number, bytes) ← get32 bytes
  ok (
    record {
      options = options;
      init_flag = flags / 4 % 2 == 1;
      more_flag = flags / 2 % 2 == 1;
      master_flag = flags % 2 == 1;
      sequence_number = sequence_number;
    },
    bytes,
  )

-- The body of a database description packet.
unfoldable pub dd_bytes : Neighbor → Bool → List Header → List ℕ
dd_bytes n more headers =
    let ms = if n.is_master then 0 else 1 in
    let m = if more then 2 else 0 in
    let i = if n.dd_init then 4 else 0 in
    be16 1500 ++ (2 ∷ (ms + m + i) ∷ (be32 n.dd_seq_num ++ produce_lsack headers))

-- A write to the neighbor.
abbrev pub store : Router → ℕ → Interface → Neighbor → Router
store r k i n = put_interface r k (put_neighbor i n)

-- std::advance by the number of headers of a packet, in a list with more: a dangling iterator cannot
-- be advanced, and none goes past the end. Everything up to it is copied to the neighbor's buffer.
unfoldable pub advance : List Header → SendIter → Result SendIter
advance headers dangling = fault null_dereference
advance headers at_end = fault out_of_bounds
advance headers (at_place p) =
    let q = p + dd_max_lsahdr_num in
    if ltb (length headers) q || ltb eth_data_len (32 + 20 * q)
    then fault out_of_bounds
    else ok (if q == length headers then at_end else at_place q)

-- `erase` of everything before the iterator, and where the iterator is then.
unfoldable pub erase_sent : List Header → SendIter → Result (List Header × SendIter)
erase_sent headers dangling = fault null_dereference
erase_sent headers at_end = ok ([], at_end)
erase_sent headers (at_place p) = ok (drop p headers, at_place 0)

-- produce_dd for the neighbor with the address `ip`: the packet's body, and what it changes.
unfoldable pub produce_dd : Router → ℕ → ℕ → Result (List ℕ × Router)
produce_dd r k ip = do
  i ← interface_at r k
  n ← neighbor_at i ip
  (if n.dd_init
      then ok (dd_bytes n false [], r)
      else if ltb dd_max_lsahdr_num (length n.db_summary_list)
      then (advance n.db_summary_list n.db_summary_send_iter >>= λ iter. ok (
        dd_bytes n true (take dd_max_lsahdr_num n.db_summary_list),
        store r k i (record n { db_summary_send_iter = iter }),
      ))
      else (let sent_all = record n { db_summary_send_iter = at_end } in
          let body = dd_bytes n false n.db_summary_list in
          if n.is_master && n.dd_recv_no_more
          then (event_exchange_done (store r k i sent_all) k ip >>= λ r'.
              interface_at r' k >>= λ i'. neighbor_at i' ip >>= λ n'.
              ok (body, store r' k i' (record n' { db_summary_list = [] })))
          else ok (body, store r k i sent_all)))

-- `last_dd_data_len = produce_dd(...)` and the sending.
unfoldable pub reply : Router → ℕ → ℕ → Result Router
reply r k ip = do
  (body, r') ← produce_dd r k ip
  i ← interface_at r' k
  n ← neighbor_at i ip
  let i' = put_neighbor i (record n { last_dd_data = body })
  ok (send_packet (put_interface r' k i') k i' PacketType.dd body ip)

-- The last packet once more.
abbrev pub resend : Router → ℕ → Interface → Neighbor → Router
resend r k i n =
    send_packet (store r k i n) k (put_neighbor i n) PacketType.dd n.last_dd_data n.ip_addr

abbrev pub mismatch : Router → ℕ → Interface → Neighbor → Result Router
mismatch r k i n = event_seq_number_mismatch n >>= λ n'. ok (store r k i n')

-- The loop over the headers: what the database does not have is requested.
unfoldable pub request_missing : Lsdb → ℕ → List ℕ → Result (List Request)
request_missing db zero bytes = ok []
request_missing db (suc count) bytes = do
  (h, bytes) ← get_header bytes
  reqs ← request_missing db count bytes
  ok (elim (get db h.ls_type h.link_state_id h.advertising_router) [
    | none ↦
        record {
          ls_type = h.ls_type;
          link_state_id = h.link_state_id;
          advertising_router = h.advertising_router;
        }
        ∷ reqs
    | some l ↦ reqs
  ])

-- `(ospf_hdr->length - sizeof(OSPF::Header) - sizeof(OSPF::DD)) / sizeof(LSA::Header)` of a size_t
abbrev pub num_lsahdrs : OspfHeader → ℕ
num_lsahdrs hdr = (hdr.length + 18446744073709551616 - 32) % 18446744073709551616 / 20

abbrev pub is_empty {ℓ} : {A : Type ℓ} → List A → Bool
is_empty [] = true
is_empty (x ∷ xs) = false

-- The part under `if (accept)`. Erasing up to an iterator that dangles is undefined.
unfoldable pub accepted :
    Router → ℕ → Interface → Neighbor → OspfHeader → Dd → List ℕ → Result Router
accepted r k i n hdr dd headers = do
  (unsent, iter) ← erase_sent n.db_summary_list n.db_summary_send_iter
  reqs ← request_missing r.lsdb (num_lsahdrs hdr) headers
  let n' = record n {
    db_summary_list = unsent;
    db_summary_send_iter = iter;
    dd_recv_no_more = not dd.more_flag;
    link_state_request_list = n.link_state_request_list ++ reqs;
  }
  let r' = store r k i n'
  (if not n'.is_master && (is_empty n'.db_summary_list && n'.dd_recv_no_more)
      then event_exchange_done r' k n'.ip_addr
      else reply r' k n'.ip_addr)

abbrev pub same_flag : Bool → Bool → Bool
same_flag true b = b
same_flag false b = not b

-- The case of the state EXCHANGE.
unfoldable pub in_exchange :
    Router → ℕ → Interface → Neighbor → Bool → OspfHeader → Dd → List ℕ → Result Router
in_exchange r k i n dup hdr dd headers =
    if dup
    then ok (if n.is_master then resend r k i n else store r k i n)
    else if not (same_flag dd.master_flag n.is_master)
    then mismatch r k i n
    else if dd.init_flag
    then mismatch r k i n
    else if not (n.dd_options == dd.options)
    then mismatch r k i n
    else if n.is_master && dd.sequence_number == (n.dd_seq_num + 1) % 4294967296
    then accepted r k i (record n { dd_seq_num = dd.sequence_number }) hdr dd headers
    else if not n.is_master && dd.sequence_number == n.dd_seq_num
    then accepted r k i (record n { dd_seq_num = (n.dd_seq_num + 1) % 4294967296 }) hdr dd headers
    else mismatch r k i n

-- The case of the state EXSTART, which goes on with that of EXCHANGE if this router is the master.
-- `ospf_dd->flags & DD_FLAG_ALL` is never 0, since the macro has no parentheses.
unfoldable pub in_ex_start :
    Router → ℕ → Interface → Neighbor → Bool → OspfHeader → Dd → List ℕ → Result Router
in_ex_start r k i n dup hdr dd headers =
    let noted = record n { dd_options = dd.options } in
    if ltb r.router_id n.id
    then (event_negotiation_done r.lsdb
          (record noted { is_master = true; dd_seq_num = dd.sequence_number; dd_init = false })
        >>= λ n'. reply (store r k i n') k n.ip_addr)
    else if not dd.master_flag
        && (not dd.init_flag && (dd.sequence_number == n.dd_seq_num && ltb n.id r.router_id))
    then (event_negotiation_done r.lsdb (record noted { is_master = false; dd_init = false })
        >>= λ n'. in_exchange r k i n' dup hdr dd headers)
    else ok (store r k i noted)

-- The case of the states LOADING and FULL.
unfoldable pub in_full : Router → ℕ → Interface → Neighbor → Bool → Dd → Result Router
in_full r k i n dup dd =
    if not (same_flag dd.master_flag n.is_master)
    then mismatch r k i n
    else if dd.init_flag
    then mismatch r k i n
    else ok (if n.is_master && dup then resend r k i n else store r k i n)

-- The switch over the neighbor's state.
unfoldable pub by_state :
    Router → ℕ → Interface → Neighbor → Bool → OspfHeader → Dd → List ℕ → State → Result Router
by_state r k i n dup hdr dd headers down = ok (store r k i n)
by_state r k i n dup hdr dd headers attempt = ok (store r k i n)
by_state r k i n dup hdr dd headers two_way = ok (store r k i n)
by_state r k i n dup hdr dd headers init = do
  n' ← event_2way_received (host i) n
  (if same_state n'.state two_way
      then ok (store r k i n')
      else in_ex_start r k i n' dup hdr dd headers)
by_state r k i n dup hdr dd headers ex_start = in_ex_start r k i n dup hdr dd headers
by_state r k i n dup hdr dd headers exchange = in_exchange r k i n dup hdr dd headers
by_state r k i n dup hdr dd headers loading = in_full r k i n dup dd
by_state r k i n dup hdr dd headers full = in_full r k i n dup dd

unfoldable pub process_dd : Router → ℕ → OspfHeader → List ℕ → ℕ → Result Router
process_dd r k hdr bytes src_ip = do
  i ← interface_at r k
  n ← from_option assertion_failed (get_neighbor_by_ip i src_ip)
  (dd, headers) ← get_dd bytes
  by_state r k i (record n { recv_dd_seq_num = dd.sequence_number })
      (n.recv_dd_seq_num == dd.sequence_number) hdr dd headers n.state
