-- ===== src/Routing/Graph.antt =====
-- src/route.cpp: the first part of update_route, which makes a graph of the router and network LSAs.
pub mod Grows
pub mod Built
use Prim.Native.Nat.{bit_and}
use ospfd_rfc.Base.{ℕ, none, some, List, [], ◌∷◌, ◌++◌, ◌==◌, if◌then◌else◌}
use ospfd_rfc.Base.Maps.{Map, index, insert}
use ospfd_rfc.Lsa.{Header, Link, RouterLsa, NetworkLsa}
use ospfd_rfc.Lsa.LinkType
use ospfd_rfc.Lsdb.{Lsdb, get_network_lsa_by_id}
use ospfd_rfc.Routing.{Node, Edge, unreachable}

-- `nodes` and `edges` while they are filled.
pub record Graph : Type 0 where
  pub nodes : Map Node
  pub edges : Map (List Edge)

abbrev pub put_node : Node → Graph → Graph
put_node n g = record g { nodes = insert n.id n g.nodes }

-- edges[src].push_back(edge)
abbrev pub put_edge : ℕ → Edge → Graph → Graph
put_edge src e g = record g { edges = insert src (index [] src g.edges ++ (e ∷ [])) g.edges }

-- The loop over the routers of a transit network.
unfoldable pub add_transit : ℕ → ℕ → List ℕ → Graph → Graph
add_transit src metric [] g = g
add_transit src metric (router_id ∷ ids) g =
    add_transit src metric ids
      (if router_id == src then g else put_edge src (record { dst = router_id; metric = metric }) g)

-- The loop's body over the links of a router LSA; virtual links are left out.
unfoldable pub add_link : Lsdb → ℕ → Link → Graph → Graph
add_link db src link g =
    if link.link_type == LinkType.point2point
    then put_edge src (record { dst = link.link_id; metric = link.metric }) g
    else if link.link_type == LinkType.transit
    then elim (get_network_lsa_by_id db link.link_id) [
      | none ↦ g
      | some l ↦ add_transit src link.metric l.attached_routers g
    ]
    else if link.link_type == LinkType.stub
    then put_edge src (record { dst = link.link_id; metric = link.metric })
        (put_node (record { id = link.link_id; mask = link.link_data; dist = unreachable }) g)
    else g

unfoldable pub add_links : Lsdb → ℕ → List Link → Graph → Graph
add_links db src [] g = g
add_links db src (l ∷ ls) g = add_links db src ls (add_link db src l g)

-- The loop over the router LSAs.
unfoldable pub add_routers : Lsdb → List RouterLsa → Graph → Graph
add_routers db [] g = g
add_routers db (l ∷ ls) g =
    let id = l.header.link_state_id in
    add_routers db ls
      (add_links db id l.links (put_node (record { id = id; mask = 0; dist = unreachable }) g))

unfoldable pub add_attached : ℕ → List ℕ → Graph → Graph
add_attached net [] g = g
add_attached net (router_id ∷ ids) g =
    add_attached net ids (put_edge router_id (record { dst = net; metric = 0 }) g)

-- The loop over the network LSAs.
unfoldable pub add_networks : List NetworkLsa → Graph → Graph
add_networks [] g = g
add_networks (l ∷ ls) g =
    let net = bit_and l.header.link_state_id l.network_mask in
    add_networks ls (
      add_attached net l.attached_routers
        (put_node (record { id = net; mask = l.network_mask; dist = unreachable }) g))

-- The graph of the database.
unfoldable pub build : Lsdb → Graph
build db =
    add_networks db.network_lsas (add_routers db db.router_lsas (record { nodes = []; edges = [] }))
