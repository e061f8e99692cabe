-- ===== src/Router/Update/RoundTrip.antt =====
-- What process_lsu does with an update that produce_lsu wrote.
use ospfd_rfc.Base.{
  ℕ, ◌≡◌, refl, ap, ◌∙◌, subst, inl, inr, List, [], ◌∷◌, ◌++◌, All, map, length, drop, drop-append,
  Result, Result-cases, some, ok, ◌>>=◌, >>=-eq-ok, ok-injective,
}
use ospfd_rfc.Base.Bytes.{IsU32, word32-byte}
use ospfd_rfc.Lsa.{
  Lsa, router, network, summary, as_external, RouterLsa, NetworkLsa, SummaryLsa, lsa_header,
  lsa_size,
}
use ospfd_rfc.Lsa.Codec.{
  to_packet, router_bytes, network_bytes, summary_bytes, parse_router, parse_network, parse_summary,
}
use ospfd_rfc.Lsa.Codec.Length.{length-to_packet}
use ospfd_rfc.Lsa.Codec.RoundTrip.{
  IsRouterLsa, IsNetworkLsa, IsSummaryLsa, parse_router-router_bytes, parse_network-network_bytes,
  parse_summary-summary_bytes,
}
use ospfd_rfc.Lsdb.{Lsdb, add}
use ospfd_rfc.Lsdb.Laws.{IsTyped}
use ospfd_rfc.Lsdb.Live.{Has, Differs, add-Has, add-keeps_Has}
use ospfd_rfc.Lsdb.NoFault.{add-ne-fault}
use ospfd_rfc.Neighbor.{Neighbor, Request}
use ospfd_rfc.Interface.{Interface, get_neighbor_by_ip}
use ospfd_rfc.Packet.{lsas_bytes, produce_lsu, produce_lsack}
use ospfd_rfc.Packet.PacketType
use ospfd_rfc.Router.{Router, interface_at, put_interface, put_neighbor, send_packet}
use ospfd_rfc.Router.Update.{type_at, parse_lsa, erase_request, update_loop, ack_dst, process_lsu}

-- An LSA of the three kinds that process_lsu reads, which its packet form carries without loss.
abbrev pub IsSendable : Lsa → Type 0
IsSendable (router l) = IsRouterLsa l × (l.header.ls_type ≡ 1)
IsSendable (network l) = IsNetworkLsa l × (l.header.ls_type ≡ 2)
IsSendable (summary l) = IsSummaryLsa l × (l.header.ls_type ≡ 3)
IsSendable (as_external l) = ⊥

IsSendable-IsTyped : (l : Lsa) → IsSendable l → IsTyped l
IsSendable-IsTyped (router l) v = v.1
IsSendable-IsTyped (network l) v = v.1
IsSendable-IsTyped (summary l) v = v.1
IsSendable-IsTyped (as_external l) v = absurd v

-- What an update does to the database and the list of requests, apart from its packet form: each LSA
-- in turn is added, and the first request for it goes.
abbrev pub install : List Lsa → Lsdb → List Request → Result (Lsdb × List Request)
install [] db reqs = ok (db, reqs)
install (l ∷ ls) db reqs = add db l >>= λ db'. install ls db' (erase_request (lsa_header l) reqs)

-- No two of them are instances of one LSA.
abbrev pub AreDistinct : List Lsa → Type 0
AreDistinct [] = Unit {0}
AreDistinct (l ∷ ls) = All (Differs l) ls × AreDistinct ls

install-keeps_Has :
    (l : Lsa) (ls : List Lsa) (db db' : Lsdb) (reqs reqs' : List Request)
    → IsTyped l
    → All IsSendable ls
    → All (Differs l) ls
    → install ls db reqs ≡ ok (db', reqs')
    → Has db l
    → Has db' l
install-keeps_Has l [] db db' reqs reqs' t v d e h =
    subst (λ (x : Lsdb × List Request). Has x.0 l) (ok-injective e) h
install-keeps_Has l (m ∷ ls) db db' reqs reqs' t (v, vs) (d, ds) e h =
    let (db1, added, e') = >>=-eq-ok (add db m) _ e in
    install-keeps_Has l ls db1 db' (erase_request (lsa_header m) reqs) reqs' t vs ds e'
      (add-keeps_Has db db1 l m t (IsSendable-IsTyped m v) d added h)

-- Of LSAs of which no two are instances of one, all are in the database in the end.
pub install-Has :
    (ls : List Lsa) (db db' : Lsdb) (reqs reqs' : List Request)
    → All IsSendable ls
    → AreDistinct ls
    → install ls db reqs ≡ ok (db', reqs')
    → All (Has db') ls
install-Has [] db db' reqs reqs' v d e = tt
install-Has (l ∷ ls) db db' reqs reqs' (v, vs) (d, ds) e =
    let (db1, added, e') = >>=-eq-ok (add db l) _ e in
    let t = IsSendable-IsTyped l v in
    (
      install-keeps_Has l ls db1 db' (erase_request (lsa_header l) reqs) reqs' t vs d e'
          (add-Has db db1 l t added),
      install-Has ls db1 db' (erase_request (lsa_header l) reqs) reqs' vs ds e',
    )

drop_packet : (l : Lsa) (rest : List ℕ) → drop (lsa_size l) (to_packet l ++ rest) ≡ rest
drop_packet l rest =
    subst (λ (n : ℕ). drop n (to_packet l ++ rest) ≡ rest) (length-to_packet l)
      (drop-append (to_packet l) rest)

type_at-router :
    (l : RouterLsa) (rest : List ℕ) → type_at (router_bytes l ++ rest) ≡ ok l.header.ls_type
unfolding router_bytes
type_at-router l rest = refl

type_at-network :
    (l : NetworkLsa) (rest : List ℕ) → type_at (network_bytes l ++ rest) ≡ ok l.header.ls_type
unfolding network_bytes
type_at-network l rest = refl

type_at-summary :
    (l : SummaryLsa) (rest : List ℕ) → type_at (summary_bytes l ++ rest) ≡ ok l.header.ls_type
unfolding summary_bytes
type_at-summary l rest = refl

parse_lsa-router :
    (bytes : List ℕ) (l : RouterLsa)
    → type_at bytes ≡ ok 1
    → parse_router bytes ≡ ok l
    → parse_lsa bytes ≡ ok (router l)
unfolding parse_lsa
parse_lsa-router bytes l t e = rw t (rw e refl)

parse_lsa-network :
    (bytes : List ℕ) (l : NetworkLsa)
    → type_at bytes ≡ ok 2
    → parse_network bytes ≡ ok l
    → parse_lsa bytes ≡ ok (network l)
unfolding parse_lsa
parse_lsa-network bytes l t e = rw t (rw e refl)

parse_lsa-summary :
    (bytes : List ℕ) (l : SummaryLsa)
    → type_at bytes ≡ ok 3
    → parse_summary bytes ≡ ok l
    → parse_lsa bytes ≡ ok (summary l)
unfolding parse_lsa
parse_lsa-summary bytes l t e = rw t (rw e refl)

-- A router, network or summary LSA, whose type is that of its kind, is read back from its packet form,
-- with anything behind it, if its fields fit their widths, the links of a router LSA are as many as it
-- says and have tos 0, which reading does not set, and the header of a network LSA gives the length
-- 24 + 4n for n attached routers.
pub parse_lsa-to_packet :
    (l : Lsa) (rest : List ℕ) → IsSendable l → parse_lsa (to_packet l ++ rest) ≡ ok l
unfolding to_packet
parse_lsa-to_packet (router l) rest v =
    parse_lsa-router (router_bytes l ++ rest) l (type_at-router l rest ∙ ap ok v.1)
      (parse_router-router_bytes l rest v.0)
parse_lsa-to_packet (network l) rest v =
    parse_lsa-network (network_bytes l ++ rest) l (type_at-network l rest ∙ ap ok v.1)
      (parse_network-network_bytes l rest v.0)
parse_lsa-to_packet (summary l) rest v =
    parse_lsa-summary (summary_bytes l ++ rest) l (type_at-summary l rest ∙ ap ok v.1)
      (parse_summary-summary_bytes l rest v.0)
parse_lsa-to_packet (as_external l) rest v = absurd v

++_assoc {ℓ} : {A : Type ℓ} (xs ys zs : List A) → (xs ++ ys) ++ zs ≡ xs ++ (ys ++ zs)
++_assoc [] ys zs = refl
++_assoc (x ∷ xs) ys zs = ap (λ rest. x ∷ rest) (++_assoc xs ys zs)

-- The loop installs the LSAs and acknowledges them all, in their order.
update_loop-lsas_bytes :
    (ls : List Lsa) (rest : List ℕ) (db : Lsdb) (reqs : List Request)
    → All IsSendable ls
    → (db' : Lsdb) × (reqs' : List Request) × (install ls db reqs ≡ ok (db', reqs'))
      × (update_loop (length ls) (lsas_bytes ls ++ rest) db reqs
          ≡ ok (db', reqs', map lsa_header ls))
unfolding update_loop lsas_bytes
update_loop-lsas_bytes [] rest db reqs v = (db, reqs, refl, refl)
update_loop-lsas_bytes (l ∷ ls) rest db reqs v = elim (Result-cases (add db l)) [
  | inl (db1, added) ↦
      let (db', reqs', e, steps) =
        update_loop-lsas_bytes ls rest db1 (erase_request (lsa_header l) reqs) v.1 in
      let parsed = parse_lsa-to_packet l (lsas_bytes ls ++ rest) v.0 in
      let dropped = drop_packet l (lsas_bytes ls ++ rest) in
      (
        db',
        reqs',
        rw added e,
        rw (++_assoc (to_packet l) (lsas_bytes ls) rest)
            (rw parsed (rw added (rw dropped (rw steps refl)))),
      )
  | inr (x, failed) ↦ absurd (add-ne-fault db l x (IsSendable-IsTyped l v.0) failed)
]

-- process_lsu takes in what produce_lsu wrote: for an update of LSAs of the three kinds, from a
-- neighbor that the interface knows, it adds every LSA to the database in turn, drops the first
-- request for each, and sends one acknowledgment with all their headers in their order.
pub process_lsu-produce_lsu :
    (r : Router) (k : ℕ) (i : Interface) (n : Neighbor) (ls : List Lsa) (rest : List ℕ) (src_ip : ℕ)
    → interface_at r k ≡ ok i
    → get_neighbor_by_ip i src_ip ≡ some n
    → All IsSendable ls
    → IsU32 (length ls)
    → (db : Lsdb) × (reqs : List Request) × (install ls r.lsdb n.link_state_request_list
        ≡ ok (db, reqs))
      × (let i' = put_neighbor i (record n { link_state_request_list = reqs }) in
          process_lsu r k (produce_lsu ls ++ rest) src_ip
          ≡ ok (
              send_packet
                (record (put_interface r k i') { lsdb = db })
                k
                i'
                PacketType.lsack
                (produce_lsack (map lsa_header ls))
                (ack_dst i src_ip)))
unfolding process_lsu produce_lsu
process_lsu-produce_lsu r k i n ls rest src_ip at_k known v bound =
    let (db, reqs, e, steps) = update_loop-lsas_bytes ls rest r.lsdb n.link_state_request_list v in
    let count = word32-byte (length ls) bound in
    (db, reqs, e, rw at_k (rw known (rw count (rw steps refl))))
