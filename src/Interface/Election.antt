-- ===== src/Interface/Election.antt =====
-- Interface::elect_designated_router: what it results in, and when it fails.
mod Winners
mod AdjOk
pub use Winners.{eligible, elect_bdr_lowest, elect_dr_lowest}
pub use AdjOk.{Adjusted}
use AdjOk.{adj_ok_all-Adjusted, Adjusted-priority}
use ospfd_rfc.Base.{
  ℕ, ◌≡◌, ◌≢◌, refl, subst, ◌⊎◌, inl, inr, Bool, true, false, ◌&&◌, ◌||◌, not, none, some, List, [],
  ◌∷◌, All, ◌==◌, select, Bool-cases, Option-cases, ok, fault, null_dereference, arith,
}
use ospfd_rfc.Neighbor.{Neighbor, at_least, two_way, new_neighbor}
use ospfd_rfc.Interface.{
  Interface, host, max_element, max_from, neighbor_cmp, candidates, self_candidate, declares_dr,
  elect_bdr, elect_dr, elect_designated_router,
}
use ospfd_rfc.Interface.Ranking.{max_element-none}

-- Whether the addresses change.
abbrev Changes : Interface → Neighbor → Neighbor → Type 0
Changes i d b = (i.designated_router ≢ d.ip_addr) ⊎ (i.backup_designated_router ≢ b.ip_addr)

-- What becomes of the neighbors when `d` and `b` are elected.
abbrev Settled : Interface → Neighbor → Neighbor → List Neighbor → Type 0
Settled i d b ms =
    (i.designated_router ≡ d.ip_addr)
      × (i.backup_designated_router ≡ b.ip_addr)
      × (ms ≡ i.neighbors)
    ⊎ Changes i d b × Adjusted (host i) i.neighbors ms

elect_steps :
    (memory : Neighbor) (router_id : ℕ) (i : Interface) (d b : Neighbor)
    → elect_bdr (candidates memory router_id i) ≡ some b
    → elect_dr (candidates memory router_id i) (some b) ≡ some d
    → (ms : List Neighbor) × (elect_designated_router memory router_id i
        ≡ ok (
          record i {
            neighbors = ms;
            designated_router = d.ip_addr;
            backup_designated_router = b.ip_addr;
          },
          false,
        ))
      × Settled i d b ms
unfolding elect_designated_router
elect_steps memory router_id i d b eb ed =
    let (ms, es, adj) = adj_ok_all-Adjusted (host i) i.neighbors in
    elim (Bool-cases
      (not (i.designated_router == d.ip_addr) || not (i.backup_designated_router == b.ip_addr))) [
        | inl c ↦ (ms, ground (arith, es), inr (ground arith, adj))
        | inr c ↦ (i.neighbors, ground arith, inl (ground arith, ground arith, refl))
      ]

elect_without_bdr :
    (memory : Neighbor) (router_id : ℕ) (i : Interface)
    → elect_bdr (candidates memory router_id i) ≡ none
    → elect_designated_router memory router_id i ≡ fault null_dereference
unfolding elect_designated_router
elect_without_bdr memory router_id i e = ground arith

elect_dr_total :
    (cs : List Neighbor) (b : Neighbor) → (d : Neighbor) × (elect_dr cs (some b) ≡ some d)
unfolding elect_dr
elect_dr_total cs b = elim (Option-cases (max_element neighbor_cmp (select declares_dr cs))) [
  | inl e ↦ (b, ground arith)
  | inr (d, e) ↦ (d, ground arith)
]

-- A successful election sets the DR and the BDR to the addresses of the elected candidates and
-- never asks for a network LSA. If neither changed, the neighbors stay as they were. Otherwise those
-- below two-way communication stay as they were, and of the others a wanted adjacency that exists
-- stays as it is, one that does not is begun in ExStart with number 0 and the router no master, and a
-- neighbor with which none is wanted is in 2-Way, all else of it as it was. Wanted is an adjacency on
-- a broadcast or NBMA network with a neighbor that declares itself or this router DR or BDR, whoever
-- was elected, and on other networks always. Nothing else of the interface changes.
pub elect_result :
    (memory : Neighbor) (router_id : ℕ) (i i' : Interface) (network : Bool)
    → elect_designated_router memory router_id i ≡ ok (i', network)
    → let cs = candidates memory router_id i in
      (d : Neighbor) × (b : Neighbor) × (elect_bdr cs ≡ some b)
      × (elect_dr cs (some b) ≡ some d)
      × (i' ≡ record i {
        neighbors = i'.neighbors;
        designated_router = d.ip_addr;
        backup_designated_router = b.ip_addr;
      })
      × (network ≡ false)
      × ((i.designated_router ≡ d.ip_addr)
            × (i.backup_designated_router ≡ b.ip_addr)
            × (i'.neighbors ≡ i.neighbors)
          ⊎ ((i.designated_router ≢ d.ip_addr) ⊎ (i.backup_designated_router ≢ b.ip_addr))
            × Adjusted (host i) i.neighbors i'.neighbors)
elect_result memory router_id i i' network e =
    elim (Option-cases (elect_bdr (candidates memory router_id i))) [
      | inl nobody ↦ absurd (cc (elect_without_bdr memory router_id i nobody))
      | inr (b, eb) ↦
          let (d, ed) = elect_dr_total (candidates memory router_id i) b in
          let (ms, steps, settled) = elect_steps memory router_id i d b eb ed in
          let r : Interface = record i {
            neighbors = ms;
            designated_router = d.ip_addr;
            backup_designated_router = b.ip_addr;
          } in
          let same : r ≡ i' = cc in
          let (shape, after) =
            subst
              (λ (w : Interface).
                (w ≡ record i {
                  neighbors = w.neighbors;
                  designated_router = d.ip_addr;
                  backup_designated_router = b.ip_addr;
                })
                × Settled i d b w.neighbors)
              same (refl, settled) in
          (d, b, eb, ed, shape, cc, after)
    ]

eligible-nil :
    (cs : List Neighbor) → All (λ c. c.designated_router ≡ c.ip_addr) cs → eligible cs ≡ []
eligible-nil [] h = refl
eligible-nil (c ∷ cs) h = ground (arith, eligible-nil cs h.1)

eligible-nil-All :
    (cs : List Neighbor) → eligible cs ≡ [] → All (λ c. c.designated_router ≡ c.ip_addr) cs
eligible-nil-All [] e = tt
eligible-nil-All (c ∷ cs) e = ground (arith, eligible-nil-All cs)

elect_bdr-none : (cs : List Neighbor) → eligible cs ≡ [] → elect_bdr cs ≡ none
unfolding elect_bdr max_element
elect_bdr-none cs e = rw (e, elect_bdr) (rw e refl)

elect_bdr-none_nil : (cs : List Neighbor) → elect_bdr cs ≡ none → eligible cs ≡ []
unfolding elect_bdr
elect_bdr-none_nil cs e = max_element-none (eligible cs) (ground arith)

All-declare_dec :
    (cs : List Neighbor)
    → All (λ c. c.designated_router ≡ c.ip_addr) cs
      ⊎ (¬ All (λ c. c.designated_router ≡ c.ip_addr) cs)
All-declare_dec [] = inl tt
All-declare_dec (c ∷ cs) = elim (Bool-cases (declares_dr c)) [
  | inl e ↦ elim (All-declare_dec cs) [
    | inl a ↦ inl (ground arith, a)
    | inr b ↦ inr (λ all. b all.1)
  ]
  | inr e ↦ inr (λ all. absurd (ground arith))
]

-- The election fails, by reading through a null pointer, exactly when every candidate declares
-- itself DR, which happens to a DR with no other candidate: then there is nobody to be BDR.
pub elect_fails_iff :
    (memory : Neighbor) (router_id : ℕ) (i : Interface)
    → let cs = candidates memory router_id i in
      All (λ c. c.designated_router ≡ c.ip_addr) cs
        × (elect_designated_router memory router_id i ≡ fault null_dereference)
      ⊎ (¬ All (λ c. c.designated_router ≡ c.ip_addr) cs)
        × ((r : Interface × Bool) × (elect_designated_router memory router_id i ≡ ok r))
elect_fails_iff memory router_id i =
    let cs : List Neighbor = candidates memory router_id i in
    elim (All-declare_dec cs) [
      | inl all ↦
          inl (all, elect_without_bdr memory router_id i (elect_bdr-none cs (eligible-nil cs all)))
      | inr open_to ↦ inr (
        open_to,
        elim (Option-cases (elect_bdr cs)) [
          | inl e ↦ absurd (open_to (eligible-nil-All cs (elect_bdr-none_nil cs e)))
          | inr (b, eb) ↦
              let (d, ed) = elect_dr_total cs b in
              let (ms, steps, _) = elect_steps memory router_id i d b eb ed in (_, steps)
        ],
      )
    ]

elect-All_declare :
    (memory : Neighbor) (router_id : ℕ) (i : Interface)
    → All (λ c. c.designated_router ≡ c.ip_addr) (candidates memory router_id i)
    → elect_designated_router memory router_id i ≡ fault null_dereference
elect-All_declare memory router_id i all =
    elect_without_bdr memory router_id i (elect_bdr-none _ (eligible-nil _ all))

no_candidates :
    (ns : List Neighbor)
    → All (λ n. n.priority ≡ 0) ns
    → select (λ n. at_least two_way n.state && not (n.priority == 0)) ns ≡ []
no_candidates [] z = refl
no_candidates (n ∷ ns) z = ground (arith, no_candidates ns z.1)

alone :
    (memory : Neighbor) (router_id : ℕ) (i : Interface)
    → All (λ n. n.priority ≡ 0) i.neighbors
    → candidates memory router_id i ≡ self_candidate memory router_id i ∷ []
unfolding candidates
alone memory router_id i z = ground (arith, no_candidates i.neighbors z)

elect_alone :
    (s : Neighbor)
    → declares_dr s ≡ false
    → (elect_bdr (s ∷ []) ≡ some s) × (elect_dr (s ∷ []) (some s) ≡ some s)
unfolding elect_bdr elect_dr max_element max_from
elect_alone s e = ground arith

-- A router whose neighbors all have priority 0 elects itself DR and BDR at once, and the next
-- election on the interface fails.
pub elect_twice_fails :
    (memory : Neighbor) (router_id : ℕ) (i : Interface)
    → All (λ n. n.priority ≡ 0) i.neighbors
    → i.designated_router ≢ i.ip_addr
    → (i' : Interface) × (elect_designated_router memory router_id i ≡ ok (i', false))
      × (i'.designated_router ≡ i.ip_addr)
      × (i'.backup_designated_router ≡ i.ip_addr)
      × (elect_designated_router memory router_id i' ≡ fault null_dereference)
elect_twice_fails memory router_id i zero_priority other_dr =
    let s : Neighbor = self_candidate memory router_id i in
    let only = alone memory router_id i zero_priority in
    let (eb, ed) = elect_alone s (unfold self_candidate new_neighbor in ground arith) in
    let (ms, steps, settled) = elect_steps memory router_id i s s (rw only eb) (rw only ed) in
    let zero_ms : All (λ n. n.priority ≡ 0) ms = elim settled [
      | inl (_, _, same) ↦ rw same zero_priority
      | inr (_, adj) ↦ Adjusted-priority (host i) i.neighbors ms zero_priority adj
    ] in
    let i' : Interface = record i {
      neighbors = ms;
      designated_router = s.ip_addr;
      backup_designated_router = s.ip_addr;
    } in
    (
      i',
      steps,
      unfold self_candidate new_neighbor in refl,
      unfold self_candidate new_neighbor in refl,
      elect-All_declare memory router_id i' (
          rw (alone memory router_id i' zero_ms)
            (unfold self_candidate new_neighbor in (refl, tt))),
    )
