-- ===== src/Router/Requests.antt =====
-- src/packet.cpp: process_lsr. The buffer is the list of the bytes behind the OSPF header, up to the
-- end of the frame's buffer.
pub mod Answers
use ospfd_rfc.Base.{
  ℕ, ◌+◌, Option, none, some, List, [], ◌∷◌, ltb, ◌==◌, if◌then◌else◌, map, Result, ok, fault,
  assertion_failed, null_dereference, out_of_bounds, from_option, ◌>>=◌,
}
use ospfd_rfc.Base.Bytes.{word32}
use ospfd_rfc.Lsa.{Lsa, router}
use ospfd_rfc.Lsdb.{Lsdb, get_router_lsa}
use ospfd_rfc.Neighbor.{Neighbor, Request, rank, event_bad_lsreq}
use ospfd_rfc.Interface.{get_neighbor_by_ip}
use ospfd_rfc.Packet.{OspfHeader, checked_body, produce_lsu}
use ospfd_rfc.Packet.PacketType
use ospfd_rfc.Router.{Router, interface_at, put_interface, put_neighbor, send_packet}
use mathlib.Core.Option

-- The loop over the requests, at the offset `pos` of the packet: the neighbor, which an unknown
-- request makes start again, and the pointers to the LSAs, null for an unknown one. Whatever its type,
-- a request is looked up among the router LSAs. The loop ends where `pos` is the packet's length, and
-- runs on past it if the two never meet.
unfoldable pub collect : Lsdb → ℕ → ℕ → List ℕ → Neighbor → Result (Neighbor × List (Option Lsa))
collect db stop pos (t0 ∷ t1 ∷ t2 ∷ t3 ∷ i0 ∷ i1 ∷ i2 ∷ i3 ∷ a0 ∷ a1 ∷ a2 ∷ a3 ∷ bytes) n =
    let found = Option.map router (get_router_lsa db (word32 i0 i1 i2 i3) (word32 a0 a1 a2 a3)) in
    let more = collect db stop (pos + 12) bytes in
    if pos == stop then ok (n, []) else elim found [
      | none ↦ event_bad_lsreq n >>= λ n'. more n' >>= λ rest. ok (rest.0, none ∷ rest.1)
      | some l ↦ more n >>= λ rest. ok (rest.0, some l ∷ rest.1)
    ]
collect db stop pos _ n = if pos == stop then ok (n, []) else fault out_of_bounds

-- produce_lsu calls to_packet through every pointer of its list.
unfoldable pub dereference : List (Option Lsa) → Result (List Lsa)
dereference [] = ok []
dereference (p ∷ ps) = do l ← from_option null_dereference p; ls ← dereference ps; ok (l ∷ ls)

-- The answer is built in a buffer of ETH_DATA_LEN bytes.
unfoldable pub process_lsr : Router → ℕ → OspfHeader → List ℕ → ℕ → Result Router
process_lsr r k hdr bytes src_ip = do
  i ← interface_at r k
  n ← from_option assertion_failed (get_neighbor_by_ip i src_ip)
  (if ltb (rank n.state) 5
      then ok r
      else (collect r.lsdb hdr.length 24 bytes n >>= λ (n', found). dereference found >>= λ ls.
          checked_body (produce_lsu ls) >>= λ body.
          let i' = put_neighbor i n' in
          ok (send_packet (put_interface r k i') k i' PacketType.lsu body src_ip)))
