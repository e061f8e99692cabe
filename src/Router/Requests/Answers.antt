-- ===== src/Router/Requests/Answers.antt =====
-- What process_lsr answers.
use ospfd_rfc.Base.{
  ℕ, ◌+◌, ◌*◌, ◌≤◌, ◌≡◌, ◌≢◌, refl, ap, ◌∙◌, ◌⊎◌, inl, inr, false, Option, none, some, List, [],
  ◌∷◌, All, map, ltb, ◌==◌, length, ok, fault, Result, Option-cases, Result-cases, arith, >>=-eq-ok,
  ◌>>=◌,
}
use ospfd_rfc.Base.Bytes.{IsU32, word32-byte}
use ospfd_rfc.Lsa.{Lsa, RouterLsa, router}
use ospfd_rfc.Lsdb.{Lsdb, get_router_lsa}
use ospfd_rfc.Neighbor.{Neighbor, Request, rank, event_bad_lsreq}
use ospfd_rfc.Interface.{Interface, get_neighbor_by_ip}
use ospfd_rfc.Packet.{OspfHeader, checked_body, produce_lsu, lsr_bytes}
use ospfd_rfc.Packet.PacketType
use ospfd_rfc.Router.{Router, interface_at, put_interface, put_neighbor, send_packet}
use ospfd_rfc.Router.Requests.{collect, dereference, process_lsr}

-- The fields of a request fit their width.
abbrev pub IsRequest : Request → Type 0
IsRequest q = IsU32 q.ls_type × IsU32 q.link_state_id × IsU32 q.advertising_router

-- The router LSAs that the requests find, whatever type they ask for.
abbrev pub Found : Lsdb → List Request → List RouterLsa → Type 0
Found db [] [] = Unit {0}
Found db [] (l ∷ ls) = ⊥
Found db (q ∷ qs) [] = ⊥
Found db (q ∷ qs) (l ∷ ls) =
    (get_router_lsa db q.link_state_id q.advertising_router ≡ some l) × Found db qs ls

collect-lsr_bytes :
    (db : Lsdb) (qs : List Request) (ls : List RouterLsa) (stop pos : ℕ) (n : Neighbor)
    → All IsRequest qs
    → Found db qs ls
    → stop ≡ pos + 12 * length qs
    → (collect db stop pos (lsr_bytes qs) n ≡ ok (n, map (λ l. some (router l)) ls))
unfolding collect lsr_bytes
collect-lsr_bytes db [] [] stop pos n v f e = ground arith
collect-lsr_bytes db [] (l ∷ ls) stop pos n v f e = absurd f
collect-lsr_bytes db (q ∷ qs) [] stop pos n v f e = absurd f
collect-lsr_bytes db (q ∷ qs) (l ∷ ls) stop pos n v f e =
    let on : (pos == stop) ≡ false = ground arith in
    let rest = collect-lsr_bytes db qs ls stop (pos + 12) n v.1 f.1 (omega arith) in
    rw (word32-byte q.link_state_id v.0.1)
      (rw (word32-byte q.advertising_router v.0.2) (rw on (rw f.0 (rw rest refl))))

dereference-map :
    (ls : List RouterLsa) → dereference (map (λ l. some (router l)) ls) ≡ ok (map router ls)
unfolding dereference
dereference-map [] = refl
dereference-map (l ∷ ls) = rw (dereference-map ls) refl

-- A request packet, as produce_lsr writes it and of the length that its header gives, for router LSAs
-- that the database has, from a neighbor in Exchange or beyond, is answered with one update of exactly
-- these LSAs, in the order of the requests, if that fits the buffer; the neighbor stays as it is.
pub process_lsr-lsr_bytes :
    (r : Router) (k : ℕ) (i : Interface) (n : Neighbor) (hdr : OspfHeader) (qs : List Request)
    (ls : List RouterLsa) (src_ip : ℕ)
    → interface_at r k ≡ ok i
    → get_neighbor_by_ip i src_ip ≡ some n
    → 5 ≤ rank n.state
    → All IsRequest qs
    → Found r.lsdb qs ls
    → hdr.length ≡ 24 + 12 * length qs
    → 24 + length (produce_lsu (map router ls)) ≤ 1500
    → process_lsr r k hdr (lsr_bytes qs) src_ip
      ≡ ok (
          send_packet
            (put_interface r k (put_neighbor i n))
            k
            (put_neighbor i n)
            PacketType.lsu
            (produce_lsu (map router ls))
            src_ip)
unfolding process_lsr
process_lsr-lsr_bytes r k i n hdr qs ls src_ip at_k known s v f size fits =
    let beyond : ltb (rank n.state) 5 ≡ false = ground arith in
    let collected = collect-lsr_bytes r.lsdb qs ls hdr.length 24 n v f size in
    let fine : checked_body (produce_lsu (map router ls)) ≡ ok (produce_lsu (map router ls)) =
      ground arith in
    rw at_k (rw known (rw beyond (rw collected (rw (dereference-map ls) (rw fine refl)))))

-- Some request finds no router LSA.
abbrev pub Lacks : Lsdb → List Request → Type 0
Lacks db [] = ⊥
Lacks db (q ∷ qs) = (get_router_lsa db q.link_state_id q.advertising_router ≡ none) ⊎ Lacks db qs

-- The answer's list of pointers is called through, where it was collected.
answerable : Result (Neighbor × List (Option Lsa)) → Result (List Lsa)
answerable collected = collected >>= λ found. dereference found.1

answerable_null :
    (m : Result Neighbor) (more : Neighbor → Result (Neighbor × List (Option Lsa))) (ls : List Lsa)
    → answerable (m >>= λ n. more n >>= λ rest. ok (rest.0, none ∷ rest.1)) ≢ ok ls
unfolding answerable dereference
answerable_null (fault x) more ls e = cc
answerable_null (ok n) more ls e = elim (Result-cases (more n)) [
  | inl (rest, found) ↦ absurd (ground arith)
  | inr (x, failed) ↦ absurd (ground arith)
]

answerable-some :
    (l : Lsa) (more : Result (Neighbor × List (Option Lsa))) (ls : List Lsa)
    → answerable (more >>= λ rest. ok (rest.0, some l ∷ rest.1)) ≡ ok ls
    → (ls' : List Lsa) × (answerable more ≡ ok ls')
unfolding answerable dereference
answerable-some l (fault x) ls e = cc
answerable-some l (ok (n, ps)) ls e =
    let (ls', inner, _) = >>=-eq-ok (dereference ps) _ e in (ls', inner)

collect-Lacks :
    (db : Lsdb) (qs : List Request) (stop pos : ℕ) (n : Neighbor) (ls : List Lsa)
    → All IsRequest qs
    → Lacks db qs
    → stop ≡ pos + 12 * length qs
    → answerable (collect db stop pos (lsr_bytes qs) n) ≢ ok ls
unfolding collect lsr_bytes
collect-Lacks db [] stop pos n ls v lacks e h = lacks
collect-Lacks db (q ∷ qs) stop pos n ls v lacks e h =
    let on : (pos == stop) ≡ false = ground arith in
    let id = word32-byte q.link_state_id v.0.1 in
    let adv = word32-byte q.advertising_router v.0.2 in
    elim (Option-cases (get_router_lsa db q.link_state_id q.advertising_router)) [
      | inl missing ↦
          answerable_null (event_bad_lsreq n) (collect db stop (pos + 12) (lsr_bytes qs)) ls
            (rw (id, adv, on, missing) at h)
      | inr (l, found) ↦
          let (ls', inner) =
            answerable-some (router l) (collect db stop (pos + 12) (lsr_bytes qs) n) ls
              (rw (id, adv, on, found) at h) in
          let rest : Lacks db qs = elim lacks [ inl none_here ↦ absurd (cc) | inr later ↦ later ] in
          collect-Lacks db qs stop (pos + 12) n ls' v.1 rest (omega arith) inner
    ]

-- A request packet, as produce_lsr writes it, with a request that finds no router LSA is never
-- answered: from a neighbor in Exchange or beyond it makes the handler fail.
pub process_lsr-Lacks :
    (r : Router) (k : ℕ) (i : Interface) (n : Neighbor) (hdr : OspfHeader) (qs : List Request)
    (src_ip : ℕ) (r' : Router)
    → interface_at r k ≡ ok i
    → get_neighbor_by_ip i src_ip ≡ some n
    → 5 ≤ rank n.state
    → All IsRequest qs
    → Lacks r.lsdb qs
    → hdr.length ≡ 24 + 12 * length qs
    → process_lsr r k hdr (lsr_bytes qs) src_ip ≢ ok r'
unfolding process_lsr answerable
process_lsr-Lacks r k i n hdr qs src_ip r' at_k known s v lacks size h =
    let beyond : ltb (rank n.state) 5 ≡ false = ground arith in
    let (found, collected, answered) =
      >>=-eq-ok (collect r.lsdb hdr.length 24 (lsr_bytes qs) n) _ (rw (at_k, known, beyond) at h) in
    let (ls, dereferenced, _) = >>=-eq-ok (dereference found.1) _ answered in
    collect-Lacks r.lsdb qs hdr.length 24 n ls v lacks size (ap answerable collected ∙ dereferenced)
