-- ===== src/Router/Neighbors.antt =====
-- The neighbors of an interface between two states of the router: none is lost or renamed, none
-- comes twice, and each stays sound.
use ospfd_rfc.Base.{
  ◌⊎◌, ℕ, ◌≡◌, refl, sym, ap, subst, ◌∙◌, inl, inr, Bool, true, false, none, some, List, [], ◌∷◌,
  ◌++◌, All, map, ◌==◌, if◌then◌else◌, find, find-holds, Bool-cases, arith,
}
use ospfd_rfc.Neighbor.{Neighbor, NetworkType}
use ospfd_rfc.Neighbor.Sound.{IsSound, ◌⟿◌, ⟿-refl, ⟿-trans}
use ospfd_rfc.Interface.{Interface, waiting, elected_state, get_neighbor_by_ip}
use ospfd_rfc.Router.{put_neighbor, replace_neighbor}

abbrev pub occurs : ℕ → List ℕ → Bool
occurs x [] = false
occurs x (y ∷ ys) = if y == x then true else occurs x ys

abbrev pub IsDistinct : List ℕ → Type 0
IsDistinct [] = Unit
IsDistinct (x ∷ xs) = (occurs x xs ≡ false) × IsDistinct xs

abbrev pub ips : List Neighbor → List ℕ
ips ns = map (λ n. n.ip_addr) ns

-- Each neighbor is sound if it was, and new ones that are have come behind them.
pub data NeighborsKeep : List Neighbor → List Neighbor → Type 0 where
  born : {ns : List Neighbor} → All IsSound ns → NeighborsKeep [] ns
  kept :
      {n n' : Neighbor} {ns ns' : List Neighbor}
      → n ⟿ n'
      → NeighborsKeep ns ns'
      → NeighborsKeep (n ∷ ns) (n' ∷ ns')

pub NeighborsKeep-refl : (ns : List Neighbor) → NeighborsKeep ns ns
NeighborsKeep-refl [] = born tt
NeighborsKeep-refl (n ∷ ns) = kept (⟿-refl n) (NeighborsKeep-refl ns)

born-NeighborsKeep :
    (ns ns' : List Neighbor) → All IsSound ns → NeighborsKeep ns ns' → All IsSound ns'
born-NeighborsKeep [] ns' h (born h') = h'
born-NeighborsKeep (n ∷ ns) [] h k = elim k [ ]
born-NeighborsKeep (n ∷ ns) (n' ∷ ns') (h, hs) (kept m k) = (m.1 h, born-NeighborsKeep ns ns' hs k)

pub NeighborsKeep-trans :
    (ns1 ns2 ns3 : List Neighbor)
    → NeighborsKeep ns1 ns2
    → NeighborsKeep ns2 ns3
    → NeighborsKeep ns1 ns3
NeighborsKeep-trans [] ns2 ns3 (born h) k = born (born-NeighborsKeep ns2 ns3 h k)
NeighborsKeep-trans (n1 ∷ ns1) [] ns3 k k' = elim k [ ]
NeighborsKeep-trans (n1 ∷ ns1) (n2 ∷ ns2) [] k k' = elim k' [ ]
NeighborsKeep-trans (n1 ∷ ns1) (n2 ∷ ns2) (n3 ∷ ns3) (kept m k) (kept m' k') =
    kept (⟿-trans n1 n2 n3 m m') (NeighborsKeep-trans ns1 ns2 ns3 k k')

pub NeighborsKeep-append :
    (ns : List Neighbor) (n : Neighbor) → IsSound n → NeighborsKeep ns (ns ++ (n ∷ []))
NeighborsKeep-append [] n h = born (h, tt)
NeighborsKeep-append (m ∷ ns) n h = kept (⟿-refl m) (NeighborsKeep-append ns n h)

NeighborsKeep-replace_neighbor :
    (ns : List Neighbor) (ip : ℕ) (n n' : Neighbor)
    → find (λ m. m.ip_addr == ip) ns ≡ some n
    → n ⟿ n'
    → NeighborsKeep ns (replace_neighbor n' ns) × (ips (replace_neighbor n' ns) ≡ ips ns)
NeighborsKeep-replace_neighbor [] ip n n' found m = cc
NeighborsKeep-replace_neighbor (x ∷ ns) ip n n' found m =
    let at_ip : (n.ip_addr == ip) ≡ true =
      find-holds (λ (y : Neighbor). y.ip_addr == ip) (x ∷ ns) n found in
    elim (Bool-cases (x.ip_addr == n'.ip_addr)) [
      | inl here ↦
          let is : x ≡ n = ground (arith, found, here, at_ip, m.0) in
          rw here (
            kept (subst (λ (y : Neighbor). y ⟿ n') (sym is) m) (NeighborsKeep-refl ns),
            ap (λ (a : ℕ). a ∷ ips ns) (sym (ground (arith, here))),
          )
      | inr later ↦
          let found' : find (λ y. y.ip_addr == ip) ns ≡ some n =
            ground (arith, found, later, at_ip, m.0) in
          let (k, same) = NeighborsKeep-replace_neighbor ns ip n n' found' m in
          rw later (kept (⟿-refl x) k, ap (λ (rest : List ℕ). x.ip_addr ∷ rest) same)
    ]

-- The members that are set once.
pub record Config : Type 0 where
  network_type : NetworkType
  ip_addr : ℕ
  mask : ℕ
  area_id : ℕ
  hello_interval : ℕ
  router_dead_interval : ℕ
  rxmt_interval : ℕ
  router_priority : ℕ
  cost : ℕ

abbrev pub config : Interface → Config
config i = record {
  network_type = i.network_type;
  ip_addr = i.ip_addr;
  mask = i.mask;
  area_id = i.area_id;
  hello_interval = i.hello_interval;
  router_dead_interval = i.router_dead_interval;
  rxmt_interval = i.rxmt_interval;
  router_priority = i.router_priority;
  cost = i.cost;
}

-- The interface waits, or has the state that its designated routers give it.
abbrev pub IsSettled : Interface → Type 0
IsSettled i = (i.state ≡ waiting) ⊎ (i.state ≡ elected_state i)

pub record InterfaceKeeps (i i' : Interface) : Type 0 where
  pub same_config : config i ≡ config i'
  pub neighbors_keep : NeighborsKeep i.neighbors i'.neighbors
  pub distinct : IsDistinct (ips i.neighbors) → IsDistinct (ips i'.neighbors)
  pub settled : IsSettled i → IsSettled i'

pub InterfaceKeeps-refl : (i : Interface) → InterfaceKeeps i i
InterfaceKeeps-refl i = record {
  same_config = refl;
  neighbors_keep = NeighborsKeep-refl i.neighbors;
  distinct = λ h. h;
  settled = λ h. h;
}

pub InterfaceKeeps-trans :
    (i1 i2 i3 : Interface) → InterfaceKeeps i1 i2 → InterfaceKeeps i2 i3 → InterfaceKeeps i1 i3
InterfaceKeeps-trans i1 i2 i3 a b = record {
  same_config = a.same_config ∙ b.same_config;
  neighbors_keep =
      NeighborsKeep-trans i1.neighbors i2.neighbors i3.neighbors a.neighbors_keep b.neighbors_keep;
  distinct = λ h. b.distinct (a.distinct h);
  settled = λ h. b.settled (a.settled h);
}

-- Nothing but members that are neither set once nor the neighbors.
pub InterfaceKeeps-same :
    (i i' : Interface)
    → config i ≡ config i'
    → i.neighbors ≡ i'.neighbors
    → (IsSettled i → IsSettled i')
    → InterfaceKeeps i i'
InterfaceKeeps-same i i' same same_neighbors settled = record {
  same_config = same;
  neighbors_keep =
      subst (NeighborsKeep i.neighbors) same_neighbors (NeighborsKeep-refl i.neighbors);
  distinct = λ h. subst (λ (ns : List Neighbor). IsDistinct (ips ns)) same_neighbors h;
  settled = settled;
}

-- A neighbor that was looked up is written back.
pub InterfaceKeeps-put_neighbor :
    (i : Interface) (ip : ℕ) (n n' : Neighbor)
    → get_neighbor_by_ip i ip ≡ some n
    → n ⟿ n'
    → InterfaceKeeps i (put_neighbor i n')
unfolding get_neighbor_by_ip elected_state
InterfaceKeeps-put_neighbor i ip n n' found m =
    let (keep, same) = NeighborsKeep-replace_neighbor i.neighbors ip n n' found m in
    record {
      same_config = refl;
      neighbors_keep = keep;
      distinct = λ h. subst IsDistinct (sym same) h;
      settled = λ h. h;
    }

occurs-append :
    (x a : ℕ) (xs : List ℕ)
    → occurs x xs ≡ false
    → (a == x) ≡ false
    → occurs x (xs ++ (a ∷ [])) ≡ false
occurs-append x a [] h other = rw other refl
occurs-append x a (y ∷ xs) h other = ground (arith, occurs-append x a xs)

IsDistinct-append :
    (a : ℕ) (xs : List ℕ) → occurs a xs ≡ false → IsDistinct xs → IsDistinct (xs ++ (a ∷ []))
IsDistinct-append a [] new h = (refl, tt)
IsDistinct-append a (x ∷ xs) new (h, hs) =
    (occurs-append x a xs h (ground arith), IsDistinct-append a xs (ground arith) hs)

occurs-ips :
    (ip : ℕ) (ns : List Neighbor)
    → find (λ n. n.ip_addr == ip) ns ≡ none
    → occurs ip (ips ns) ≡ false
occurs-ips ip [] missing = refl
occurs-ips ip (n ∷ ns) missing = ground (arith, occurs-ips ip ns)

ips-append : (ns : List Neighbor) (n : Neighbor) → ips (ns ++ (n ∷ [])) ≡ ips ns ++ (n.ip_addr ∷ [])
ips-append [] n = refl
ips-append (m ∷ ns) n = ap (λ (xs : List ℕ). m.ip_addr ∷ xs) (ips-append ns n)

-- A new neighbor whose address is not known yet.
pub InterfaceKeeps-append :
    (i : Interface) (n : Neighbor)
    → get_neighbor_by_ip i n.ip_addr ≡ none
    → IsSound n
    → InterfaceKeeps i (record i { neighbors = i.neighbors ++ (n ∷ []) })
unfolding get_neighbor_by_ip elected_state
InterfaceKeeps-append i n missing fresh = record {
  same_config = refl;
  neighbors_keep = NeighborsKeep-append i.neighbors n fresh;
  distinct = λ h.
      subst IsDistinct (sym (ips-append i.neighbors n)) (
        IsDistinct-append n.ip_addr (ips i.neighbors) (occurs-ips n.ip_addr i.neighbors missing) h);
  settled = λ h. h;
}
