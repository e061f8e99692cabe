-- ===== src/Routing/Graph/Built.antt =====
-- What the graph of a database is like: what dijkstra needs of it.
use Prim.Native.Nat.{bit_and}
use ospfd_rfc.Base.{
  ℕ, ◌≤◌, ◌≡◌, refl, ap, inl, inr, true, List, [], ◌∷◌, ◌==◌, Bool-cases, Option-cases, arith,
}
use mathlib.Core.List.{Memᴰ}
use mathlib.Core.List.Memᴰ
use ospfd_rfc.Base.Maps.{has_key, IsMap}
use ospfd_rfc.Lsa.{Link, RouterLsa, NetworkLsa}
use ospfd_rfc.Lsa.LinkType
use ospfd_rfc.Lsdb.{Lsdb, get_network_lsa_by_id}
use ospfd_rfc.Routing.{Node, Edge, unreachable}
use ospfd_rfc.Routing.Graph.{
  Graph, put_node, put_edge, add_transit, add_link, add_links, add_routers, add_attached,
  add_networks, build,
}
use ospfd_rfc.Routing.Dijkstra.{edge_count}
use ospfd_rfc.Routing.Dijkstra.Correct.{IsGraph}
use ospfd_rfc.Routing.Graph.Grows.{
  IsBuilt, Grows, IsBuilt-empty, Grows-refl, Grows-trans, put_node-Grows, put_node-key,
  put_edge-Grows,
}

add_transit-Grows :
    (src metric : ℕ) (ids : List ℕ) (g : Graph)
    → metric ≤ 65535
    → Grows g (add_transit src metric ids g)
unfolding add_transit
add_transit-Grows src metric [] g small = Grows-refl g
add_transit-Grows src metric (r ∷ rs) g small = elim (Bool-cases (r == src)) [
  | inl same ↦ rw same (add_transit-Grows src metric rs g small)
  | inr other ↦ rw other (
      Grows-trans (put_edge-Grows src (record { dst = r; metric = metric }) g small) (
        add_transit-Grows src metric rs (put_edge src (record { dst = r; metric = metric }) g)
          small))
]

add_link-Grows :
    (db : Lsdb) (src : ℕ) (l : Link) (g : Graph) → l.metric ≤ 65535 → Grows g (add_link db src l g)
unfolding add_link
add_link-Grows db src l g small =
    let e : Edge = record { dst = l.link_id; metric = l.metric } in
    elim (Bool-cases (l.link_type == LinkType.point2point)) [
      | inl p2p ↦ rw p2p (put_edge-Grows src e g small)
      | inr not_p2p ↦ rw not_p2p (elim (Bool-cases (l.link_type == LinkType.transit)) [
        | inl transit ↦ rw transit (elim (Option-cases (get_network_lsa_by_id db l.link_id)) [
          | inl missing ↦ rw missing (Grows-refl g)
          | inr (n, is_network) ↦
              rw is_network (add_transit-Grows src l.metric n.attached_routers g small)
        ])
        | inr not_transit ↦ rw not_transit (elim (Bool-cases (l.link_type == LinkType.stub)) [
          | inl stub ↦ rw stub (
              let net : Node = record { id = l.link_id; mask = l.link_data; dist = unreachable } in
              Grows-trans (put_node-Grows net g refl) (put_edge-Grows src e (put_node net g) small))
          | inr not_stub ↦ rw not_stub (Grows-refl g)
        ])
      ])
    ]

add_links-Grows :
    (db : Lsdb) (src : ℕ) (ls : List Link) (g : Graph)
    → ((l : Link) → Memᴰ l ls → l.metric ≤ 65535)
    → Grows g (add_links db src ls g)
unfolding add_links
add_links-Grows db src [] g small = Grows-refl g
add_links-Grows db src (l ∷ ls) g small =
    Grows-trans (add_link-Grows db src l g (small l (Memᴰ.head refl)))
      (add_links-Grows db src ls (add_link db src l g) (λ k m. small k (Memᴰ.tail m)))

-- The metrics of the links of the router LSAs have 16 bits.
abbrev pub HasMetric16 : List RouterLsa → Type 0
HasMetric16 ls = (r : RouterLsa) → Memᴰ r ls → (l : Link) → Memᴰ l r.links → l.metric ≤ 65535

add_router : Lsdb → RouterLsa → Graph → Graph
add_router db r g =
    let id = r.header.link_state_id in
    add_links db id r.links (put_node (record { id = id; mask = 0; dist = unreachable }) g)

add_routers-Grows :
    (db : Lsdb) (ls : List RouterLsa) (g : Graph)
    → HasMetric16 ls
    → Grows g (add_routers db ls g)
      × ((r : RouterLsa)
          → Memᴰ r ls
          → has_key r.header.link_state_id (add_routers db ls g).nodes ≡ true)
unfolding add_routers add_router
add_routers-Grows db [] g small = (Grows-refl g, λ r m. absurd (Memᴰ.not-nil m))
add_routers-Grows db (r ∷ rs) g small =
    let node : Node = record { id = r.header.link_state_id; mask = 0; dist = unreachable } in
    let links = add_links-Grows db node.id r.links (put_node node g) (small r (Memᴰ.head refl)) in
    let (rest, known) =
      add_routers-Grows db rs (add_router db r g) (λ r' m. small r' (Memᴰ.tail m)) in
    (
      Grows-trans (Grows-trans (put_node-Grows node g refl) links) rest,
      λ r' m. elim (Memᴰ.cases_cons m) [
        | inl same ↦
            let here : r'.header.link_state_id ≡ node.id =
              ap (λ (x : RouterLsa). x.header.link_state_id) same in
            rw here (rest.keeps node.id (links.keeps node.id (put_node-key node g)))
        | inr later ↦ known r' later
      ],
    )

add_attached-Grows : (net : ℕ) (ids : List ℕ) (g : Graph) → Grows g (add_attached net ids g)
unfolding add_attached
add_attached-Grows net [] g = Grows-refl g
add_attached-Grows net (r ∷ rs) g =
    let e : Edge = record { dst = net; metric = 0 } in
    Grows-trans (put_edge-Grows r e g (omega arith)) (add_attached-Grows net rs (put_edge r e g))

add_networks-Grows : (ls : List NetworkLsa) (g : Graph) → Grows g (add_networks ls g)
unfolding add_networks
add_networks-Grows [] g = Grows-refl g
add_networks-Grows (l ∷ ls) g =
    let net : Node = record {
      id = bit_and l.header.link_state_id l.network_mask;
      mask = l.network_mask;
      dist = unreachable;
    } in
    let attached = add_attached net.id l.attached_routers (put_node net g) in
    Grows-trans
      (Grows-trans (put_node-Grows net g refl)
        (add_attached-Grows net.id l.attached_routers (put_node net g)))
      (add_networks-Grows ls attached)

-- When the database has the router LSA of the root, the links' metrics have 16 bits and there are at
-- most 65534 edges, the graph that update_route makes of the database is one that dijkstra is right
-- on.
pub build-IsGraph :
    (db : Lsdb) (own : RouterLsa)
    → Memᴰ own db.router_lsas
    → HasMetric16 db.router_lsas
    → edge_count (build db).edges ≤ 65534
    → IsGraph own.header.link_state_id (build db).nodes (build db).edges
unfolding build
build-IsGraph db own m small few =
    let empty : Graph = record { nodes = []; edges = [] } in
    let (routers, known) = add_routers-Grows db db.router_lsas empty small in
    let networks = add_networks-Grows db.network_lsas (add_routers db db.router_lsas empty) in
    let h : IsBuilt (build db) = networks.built (routers.built IsBuilt-empty) in
    record {
      root_known = networks.keeps own.header.link_state_id (known own m);
      node_id = h.ids;
      node_dist = h.dists;
      metric16 = h.metrics;
      few_edges = few;
    }

-- A node of the graph has one place in its map.
pub build-IsMap : (db : Lsdb) → HasMetric16 db.router_lsas → IsMap (build db).nodes
unfolding build IsMap
build-IsMap db small =
    let empty : Graph = record { nodes = []; edges = [] } in
    let (routers, known) = add_routers-Grows db db.router_lsas empty small in
    let networks = add_networks-Grows db.network_lsas (add_routers db db.router_lsas empty) in
    networks.maps (routers.maps tt)
