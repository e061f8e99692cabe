-- ===== src/Router/Loops/Receive.antt =====
-- From the packet that one router sends to the state of the router that receives it.
use ospfd_rfc.Base.{
  ℕ, ◌+◌, ◌%◌, ◌≡◌, ◌≢◌, refl, ap, subst, ◌∙◌, false, Bool-cases, ◌⊎◌, inl, inr, ◌<◌, List, ◌∷◌,
  ◌++◌, ◌==◌, if◌then◌else◌, length, drop, drop-append_more, ok, ◌>>=◌, arith,
}
use ospfd_rfc.Base.Bytes.{be16, be32, IsU32, word32-byte}
use ospfd_rfc.Lsa.{Lsa}
use ospfd_rfc.Neighbor.{Neighbor}
use ospfd_rfc.Interface.{Interface}
use ospfd_rfc.Lsdb.{Lsdb}
use ospfd_rfc.Packet.{OspfHeader, get_ospf_header, packet_bytes}
use ospfd_rfc.Packet.PacketType
use ospfd_rfc.Packet.Headers.{get_ospf_header-packet_bytes}
use ospfd_rfc.Router.{Router}
use ospfd_rfc.Router.Loops.{ipproto_ospf, dispatch, receive}

-- An IP packet with a header of 20 bytes: nine bytes that nothing reads, the protocol, the checksum,
-- the two addresses; then what it carries.
abbrev pub ip_packet : List ℕ → ℕ → ℕ → ℕ → ℕ → List ℕ → List ℕ
ip_packet front protocol check src dst payload =
    front ++ (protocol ∷ (be16 check ++ (be32 src ++ (be32 dst ++ payload))))

module _ (r : Router) (k : ℕ) (front : List ℕ) (check src dst : ℕ) (nine : length front ≡ 9) where
  drop-front : (m : ℕ) (rest : List ℕ) → drop (9 + m) (front ++ rest) ≡ drop m rest
  drop-front m rest =
      subst (λ (n : ℕ). drop (n + m) (front ++ rest) ≡ drop m rest) nine
        (drop-append_more front rest m)

  receive_ospf :
      (payload : List ℕ)
      → IsU32 src
      → receive r k (ip_packet front ipproto_ospf check src dst payload) ≡ (
          get_ospf_header payload >>= λ (hdr, bytes).
          if hdr.router_id == r.router_id then ok r else dispatch r k hdr bytes src)
  unfolding receive
  receive_ospf payload src32 =
      let rest = ipproto_ospf ∷ (be16 check ++ (be32 src ++ (be32 dst ++ payload))) in
      rw (drop-front 0 rest)
        (rw (drop-front 3 rest) (rw (drop-front 11 rest) (rw (word32-byte src src32) refl)))

  -- A packet of send_packet reaches the handler of its type, unless it is the router's own.
  pub receive-packet_bytes :
      (packet_type sender area_id : ℕ) (body padding : List ℕ)
      → IsU32 src
      → IsU32 sender
      → IsU32 area_id
      → (hdr : OspfHeader) × (receive r k (
            ip_packet front ipproto_ospf check src dst
              (packet_bytes packet_type sender area_id body ++ padding))
          ≡ (if sender == r.router_id then ok r else dispatch r k hdr (body ++ padding) src))
        × (hdr.packet_type ≡ packet_type)
        × (hdr.router_id ≡ sender)
        × (hdr.length ≡ (24 + length body) % 65536)
  receive-packet_bytes packet_type sender area_id body padding src32 sender32 area32 =
      let payload = packet_bytes packet_type sender area_id body ++ padding in
      let (hdr, read, same_type, same_id, same_length) =
        get_ospf_header-packet_bytes packet_type sender area_id body padding sender32 area32 in
      let after : (get_ospf_header payload >>= λ (h, bytes).
      if h.router_id == r.router_id then ok r else dispatch r k h bytes src)
          ≡ (if hdr.router_id == r.router_id
              then ok r
              else dispatch r k hdr (body ++ padding) src) =
        rw read refl in
      (
        hdr,
        receive_ospf payload src32
            ∙ after
            ∙ ap
                (λ (id : ℕ).
                  if id == r.router_id then ok r else dispatch r k hdr (body ++ padding) src)
                same_id,
        same_type,
        same_id,
        same_length,
      )

dispatch_other :
    (r : Router) (k : ℕ) (hdr : OspfHeader) (bytes : List ℕ) (src : ℕ)
    → 4 < hdr.packet_type
    → dispatch r k hdr bytes src ≡ ok r
unfolding dispatch
dispatch_other r k hdr bytes src beyond = ground arith

receive_other_protocol :
    (r : Router) (k : ℕ) (front payload : List ℕ) (protocol check src dst : ℕ)
    → length front ≡ 9
    → protocol ≢ ipproto_ospf
    → receive r k (ip_packet front protocol check src dst payload) ≡ ok r
unfolding receive
receive_other_protocol r k front payload protocol check src dst nine other =
    let rest = protocol ∷ (be16 check ++ (be32 src ++ (be32 dst ++ payload))) in
    let differs : (protocol == ipproto_ospf) ≡ false = ground (arith, other) in
    rw (drop-front r k front check src dst nine 0 rest)
      (rw (drop-front r k front check src dst nine 3 rest) (rw differs refl))

-- A packet of send_packet that comes under another protocol than OSPF's, or that this router has sent
-- itself, or whose type is beyond those of a Hello, a database description, a request and an update,
-- changes nothing and makes no answer, whatever it carries.
pub receive_ignores :
    (r : Router) (k : ℕ) (packet_type sender area_id : ℕ) (body front padding : List ℕ)
    (protocol check src dst : ℕ)
    → length front ≡ 9
    → IsU32 src
    → IsU32 sender
    → IsU32 area_id
    → (protocol ≢ ipproto_ospf) ⊎ (sender ≡ r.router_id) ⊎ (4 < packet_type)
    → receive r k (
        ip_packet front protocol check src dst
          (packet_bytes packet_type sender area_id body ++ padding))
      ≡ ok r
receive_ignores r k packet_type sender area_id body front padding protocol check src dst nine src32
      sender32 area32 reason =
    let payload = packet_bytes packet_type sender area_id body ++ padding in
    elim (Bool-cases (protocol == ipproto_ospf)) [
      | inr other ↦
          receive_other_protocol r k front payload protocol check src dst nine
            (λ e. ground (arith, e, other))
      | inl is_ospf ↦
          let (hdr, received, same_type, same_id, same_length) =
            receive-packet_bytes r k front check src dst nine packet_type sender area_id body
              padding src32 sender32 area32 in
          let here : protocol ≡ ipproto_ospf = ground (arith, is_ospf) in
          let bytes = body ++ padding in
          let quiet : (if sender == r.router_id then ok r else dispatch r k hdr bytes src) ≡ ok r =
            elim (Bool-cases (sender == r.router_id)) [
              | inl own ↦ rw own refl
              | inr foreign ↦ rw foreign (
                  dispatch_other r k hdr bytes src
                    (ground (arith, reason, here, foreign, same_type)))
            ] in
          ap (λ (p : ℕ). receive r k (ip_packet front p check src dst payload)) here
          ∙ received
          ∙ quiet
    ]
