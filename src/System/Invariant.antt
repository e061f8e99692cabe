-- ===== src/System/Invariant.antt =====
-- What holds in every state that the daemon reaches.
use ospfd_rfc.Base.{
  ℕ, ◌≡◌, refl, sym, ap, subst, ◌∙◌, some, true, false, List, [], ◌∷◌, ◌++◌, All, map, ◌==◌, find,
  Holds-ok, arith, inl, inr,
}
use mathlib.Core.List.{Memᴰ}
use mathlib.Core.List.Memᴰ
use ospfd_rfc.Neighbor.{Neighbor}
use ospfd_rfc.Neighbor.Sound.{IsSound}
use ospfd_rfc.Interface.{Interface, get_neighbor_by_ip}
use ospfd_rfc.Interface.Discovery.{Device, Opened}
use ospfd_rfc.Interface.Discovery.Start.{IsFresh, OpenedFrom, OpenedFrom-IsFresh}
use ospfd_rfc.Router.{Sent, Router}
use ospfd_rfc.Router.Loops.{send_round, receive}
use ospfd_rfc.Router.Neighbors.{
  IsSettled, occurs, IsDistinct, ips, NeighborsKeep, born, kept, config,
}
use ospfd_rfc.Router.Keeps.{
  IsOwn, InterfacesKeep, Keeps, Keeps-refl, Keeps-trans, Sends-Keeps, Sends-same,
}
use ospfd_rfc.Router.Keeps.Receive.{receive-Keeps}
use ospfd_rfc.Router.Keeps.Loops.{send_round-Keeps}
use ospfd_rfc.System.{boot, Reaches, here, frame, round}

remember-Keeps : (r : Router) (memory : Neighbor) → Keeps r (record r { memory = memory })
remember-Keeps r memory =
    let r' : Router = record r { memory = memory } in
    Sends-Keeps r r' (Sends-same r r' refl refl refl)

pub Reaches-Keeps : (r r' : Router) → Reaches r r' → Keeps r r'
Reaches-Keeps r r' here = Keeps-refl r
Reaches-Keeps r r' (frame {r1} memory k buffer e more) =
    let r0 : Router = record r { memory = memory } in
    let step = Holds-ok (Keeps r0) (receive r0 k buffer) r1 (receive-Keeps r0 k buffer) e in
    Keeps-trans r r0 r' (remember-Keeps r memory)
      (Keeps-trans r0 r1 r' step (Reaches-Keeps r1 r' more))
Reaches-Keeps r r' (round {r1} memory c e more) =
    let r0 : Router = record r { memory = memory } in
    let step = Holds-ok (Keeps r0) (send_round c r0) r1 (send_round-Keeps c r0) e in
    Keeps-trans r r0 r' (remember-Keeps r memory)
      (Keeps-trans r0 r1 r' step (Reaches-Keeps r1 r' more))

-- The neighbors of an interface have different addresses, each is sound, and the interface is settled.
abbrev pub IsGood : Interface → Type 0
IsGood i = IsDistinct (ips i.neighbors) × All IsSound i.neighbors × IsSettled i

NeighborsKeep-IsSound :
    (ns ns' : List Neighbor) → NeighborsKeep ns ns' → All IsSound ns → All IsSound ns'
NeighborsKeep-IsSound [] ns' (born new) h = new
NeighborsKeep-IsSound (n ∷ ns) [] k h = elim k [ ]
NeighborsKeep-IsSound (n ∷ ns) (n' ∷ ns') (kept m k) (h, hs) =
    (m.1 h, NeighborsKeep-IsSound ns ns' k hs)

InterfacesKeep-IsGood :
    (is is' : List Interface) → InterfacesKeep is is' → All IsGood is → All IsGood is'
InterfacesKeep-IsGood [] [] k h = tt
InterfacesKeep-IsGood [] (i' ∷ is') k h = absurd k
InterfacesKeep-IsGood (i ∷ is) [] k h = absurd k
InterfacesKeep-IsGood (i ∷ is) (i' ∷ is') (k, ks) (h, hs) = (
  (
    k.distinct h.0,
    NeighborsKeep-IsSound i.neighbors i'.neighbors k.neighbors_keep h.1,
    k.settled h.2,
  ),
  InterfacesKeep-IsGood is is' ks hs,
)

-- The steps keep this, whatever state they start from.
pub Reaches-IsGood :
    (r r' : Router) → Reaches r r' → All IsGood r.interfaces → All IsGood r'.interfaces
Reaches-IsGood r r' run h =
    InterfacesKeep-IsGood r.interfaces r'.interfaces (Reaches-Keeps r r' run).interfaces_keep h

boot-IsGood : (os : List Opened) → All IsFresh os → All IsGood (map (λ o. o.interface) os)
boot-IsGood [] h = tt
boot-IsGood (o ∷ os) (h, hs) = (rw h.0 (tt, tt, inl h.1), boot-IsGood os hs)

-- In every state that the daemon reaches from its start, whatever frames come and however the two
-- threads take turns: no two neighbors of an interface have the same address; no neighbor is in
-- Attempt; the lists of a neighbor below two-way communication are empty; nothing is ever waiting to
-- be retransmitted; a neighbor is Full only with nothing left to request; and from Exchange on its
-- description packets are not initial ones. An interface that no longer waits is DR exactly when its
-- own address is that of the DR, and else Backup exactly when it is that of the BDR.
pub boot-Reaches-IsGood :
    (ds : List Device) (os : List Opened) (router_id : ℕ) (memory : Neighbor) (r : Router)
    → OpenedFrom ds os
    → Reaches (boot router_id memory os) r
    → All IsGood r.interfaces
unfolding boot
boot-Reaches-IsGood ds os router_id memory r from run =
    Reaches-IsGood (boot router_id memory os) r run (boot-IsGood os (OpenedFrom-IsFresh ds os from))

-- The one list begins with the other.
abbrev pub Begins {ℓ} : {A : Type ℓ} → List A → List A → Type ℓ
Begins {A = A} xs ys = (more : List A) × (ys ≡ xs ++ more)

-- For each interface, what it was and what it is.
abbrev pub SameInterfaces : List Interface → List Interface → Type 0
SameInterfaces [] [] = Unit
SameInterfaces [] (i' ∷ is') = ⊥
SameInterfaces (i ∷ is) [] = ⊥
SameInterfaces (i ∷ is) (i' ∷ is') =
    ((config i ≡ config i') × Begins (ips i.neighbors) (ips i'.neighbors)) × SameInterfaces is is'

NeighborsKeep-Begins : (ns ns' : List Neighbor) → NeighborsKeep ns ns' → Begins (ips ns) (ips ns')
NeighborsKeep-Begins [] ns' (born new) = (ips ns', refl)
NeighborsKeep-Begins (n ∷ ns) [] k = elim k [ ]
NeighborsKeep-Begins (n ∷ ns) (n' ∷ ns') (kept m k) =
    let (more, e) = NeighborsKeep-Begins ns ns' k in
    (more, ap (λ (a : ℕ). a ∷ ips ns') (sym m.0) ∙ ap (λ (xs : List ℕ). n.ip_addr ∷ xs) e)

InterfacesKeep-SameInterfaces :
    (is is' : List Interface) → InterfacesKeep is is' → SameInterfaces is is'
InterfacesKeep-SameInterfaces [] [] k = tt
InterfacesKeep-SameInterfaces [] (i' ∷ is') k = absurd k
InterfacesKeep-SameInterfaces (i ∷ is) [] k = absurd k
InterfacesKeep-SameInterfaces (i ∷ is) (i' ∷ is') (k, ks) = (
  (k.same_config, NeighborsKeep-Begins i.neighbors i'.neighbors k.neighbors_keep),
  InterfacesKeep-SameInterfaces is is' ks,
)

-- However the daemon goes on from any state: the router's id stays; there are the same interfaces in
-- the same places, with the same type, addresses, area, intervals, priority and cost; each still has
-- its neighbors, in their order and under their addresses, and new ones come behind them; what was
-- sent stays sent; and everything that is sent from then on is an OSPF packet under the router's id,
-- of one of the five types.
pub Reaches-SameInterfaces :
    (r r' : Router)
    → Reaches r r'
    → (r.router_id ≡ r'.router_id)
      × SameInterfaces r.interfaces r'.interfaces
      × ((more : List Sent) × (r'.sent ≡ r.sent ++ more) × All (IsOwn r.router_id) more)
Reaches-SameInterfaces r r' run =
    let keeps = Reaches-Keeps r r' run in
    (
      keeps.same_id,
      InterfacesKeep-SameInterfaces r.interfaces r'.interfaces keeps.interfaces_keep,
      keeps.sent_more,
    )

occurs-Memᴰ : (ns : List Neighbor) (n : Neighbor) → Memᴰ n ns → occurs n.ip_addr (ips ns) ≡ true
occurs-Memᴰ [] n mem = absurd (Memᴰ.not-nil mem)
occurs-Memᴰ (m ∷ ns) n mem = elim (Memᴰ.cases_cons mem) [
  | inl same ↦ rw same (ground arith)
  | inr later ↦ ground (arith, occurs-Memᴰ ns n later)
]

find-IsDistinct :
    (ns : List Neighbor) (n : Neighbor)
    → IsDistinct (ips ns)
    → Memᴰ n ns
    → find (λ m. m.ip_addr == n.ip_addr) ns ≡ some n
find-IsDistinct [] n h mem = absurd (Memᴰ.not-nil mem)
find-IsDistinct (m ∷ ns) n (new, h) mem = elim (Memᴰ.cases_cons mem) [
  | inl same ↦ rw same (ground arith)
  | inr later ↦
      let there = occurs-Memᴰ ns n later in
      let other : (m.ip_addr == n.ip_addr) ≡ false = ground (arith, there, new) in
      rw other (find-IsDistinct ns n h later)
]

All-Memᴰ : (is : List Interface) (i : Interface) → All IsGood is → Memᴰ i is → IsGood i
All-Memᴰ [] i h mem = absurd (Memᴰ.not-nil mem)
All-Memᴰ (j ∷ is) i (h, hs) mem = elim (Memᴰ.cases_cons mem) [
  | inl same ↦ subst IsGood (sym same) h
  | inr later ↦ All-Memᴰ is i hs later
]

-- In every state that the daemon reaches from its start, get_neighbor_by_ip finds each neighbor of an
-- interface under its address, and not another one.
pub get_neighbor_by_ip-Reaches :
    (ds : List Device) (os : List Opened) (router_id : ℕ) (memory : Neighbor) (r : Router)
    (i : Interface) (n : Neighbor)
    → OpenedFrom ds os
    → Reaches (boot router_id memory os) r
    → Memᴰ i r.interfaces
    → Memᴰ n i.neighbors
    → get_neighbor_by_ip i n.ip_addr ≡ some n
unfolding get_neighbor_by_ip
get_neighbor_by_ip-Reaches ds os router_id memory r i n from run at_i at_n =
    find-IsDistinct i.neighbors n
      (All-Memᴰ r.interfaces i (boot-Reaches-IsGood ds os router_id memory r from run) at_i).0 at_n
