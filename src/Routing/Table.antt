-- ===== src/Routing/Table.antt =====
-- src/route.cpp: update_route. Nothing but the table changes. Reading `prevs[v]` leaves a 0 at a key
-- that was missing, which reads as before; it is not kept.
pub mod Chase
pub mod Routes
pub mod Parts
pub mod Shortest
pub mod Ends
pub mod Endless
pub mod Lookup
pub mod Summary
use Prim.Native.Nat.{bit_and}
use ospfd_rfc.Base.{
  ℕ, zero, suc, ◌+◌, Bool, ◌||◌, Option, none, some, List, [], ◌∷◌, ◌++◌, ◌==◌, if◌then◌else◌,
  length, Result, ok, fault, assertion_failed, endless, from_option, ◌>>=◌,
}
use ospfd_rfc.Base.Maps.{Map, has_key, index, insert, touch}
use ospfd_rfc.Lsa.{Header, SummaryLsa}
use ospfd_rfc.Lsdb.{Lsdb}
use ospfd_rfc.Neighbor.{Neighbor}
use ospfd_rfc.Interface.{Interface, get_neighbor_by_id}
use ospfd_rfc.Routing.{Node, zero_node, unreachable, Edge, Entry, RoutingTable, Choices}
use ospfd_rfc.Routing.Graph.{Graph, build}
use ospfd_rfc.Routing.Dijkstra.{Search, edge_count, dijkstra}

-- What the second part of update_route changes.
pub record Tree : Type 0 where
  pub nodes : Map Node
  pub prevs : Map ℕ
  pub edges : Map (List Edge)

-- The loop's body over the summary LSAs. The advertising router's node is copied, its distance is
-- read again under the copy's id, and that of the network does not count the LSA's metric.
unfoldable pub add_summary : ℕ → SummaryLsa → Tree → Tree
add_summary router_id l t =
    let adv_rtr = l.header.advertising_router in
    let abr = index zero_node adv_rtr t.nodes in
    let nodes = touch zero_node abr.id t.nodes in
    let net : Node = record {
      id = l.header.link_state_id;
      mask = l.network_mask;
      dist = (index zero_node abr.id nodes).dist;
    } in
    let e : Edge = record { dst = net.id; metric = l.metric } in
    if adv_rtr == router_id
    then t
    else if has_key adv_rtr t.nodes
    then (if abr.dist == unreachable then t else record {
      nodes = insert net.id net nodes;
      prevs = insert net.id abr.id t.prevs;
      edges = insert abr.id (index [] abr.id t.edges ++ (e ∷ [])) t.edges;
    })
    else t

unfoldable pub add_summaries : ℕ → List SummaryLsa → Tree → Tree
add_summaries router_id [] t = t
add_summaries router_id (l ∷ ls) t = add_summaries router_id ls (add_summary router_id l t)

-- The `while` loop back to the root, on fuel: the last values of prev_hop and next_id.
unfoldable pub chase : ℕ → Map ℕ → ℕ → ℕ → ℕ → Option (ℕ × ℕ)
chase root prevs zero prev_hop next_id = none
chase root prevs (suc fuel) prev_hop next_id =
    let more = chase root prevs fuel (index 0 prev_hop prevs) prev_hop in
    if prev_hop == root || prev_hop == 0 then some (prev_hop, next_id) else more

-- The interface that has the neighbor with this id, with the neighbor's address; `k` is the place of
-- the first interface of the list.
unfoldable pub find_hop : ℕ → ℕ → List Interface → Option (ℕ × ℕ)
find_hop id k [] = none
find_hop id k (i ∷ is) = elim (get_neighbor_by_id i id) [
  | some n ↦ some (n.ip_addr, k)
  | none ↦ find_hop id (suc k) is
]

-- The interface on the network `dst`.
unfoldable pub find_direct : ℕ → ℕ → List Interface → Option ℕ
find_direct dst k [] = none
find_direct dst k (i ∷ is) =
    if dst == bit_and i.ip_addr i.mask then some k else find_direct dst (suc k) is

-- Entry(dst, mask, next_hop, metric, interface)
abbrev pub route_entry : Node → ℕ → ℕ → Entry
route_entry node next_hop intf = record {
  dst = node.id;
  mask = node.mask;
  next_hop = next_hop;
  metric = node.dist;
  intf = intf;
}

-- The body of the loop that writes the routes, from the search for the next hop on: none where it
-- goes on with the next node.
unfoldable pub route_of : ℕ → ℕ → Map ℕ → List Interface → Node → Result (Option Entry)
route_of fuel root prevs interfaces node =
    let prev_hop = index 0 node.id prevs in
    if prev_hop == root
    then (from_option assertion_failed (find_direct node.id 0 interfaces) >>= λ k.
        ok (some (route_entry node 0 k)))
    else (from_option endless (chase root prevs fuel prev_hop node.id) >>= λ (last, next_id).
        if last == 0
        then ok none
        else (from_option assertion_failed (find_hop next_id 0 interfaces) >>= λ (ip, k).
            ok (some (route_entry node ip k))))

abbrev pub push_route : Option Entry → List Entry → List Entry
push_route none es = es
push_route (some e) es = e ∷ es

-- The loop over the nodes: only those with a mask get a route.
unfoldable pub write_routes : ℕ → ℕ → Map ℕ → List Interface → List Node → Result (List Entry)
write_routes fuel root prevs interfaces [] = ok []
write_routes fuel root prevs interfaces (n ∷ ns) = do
  e ← (if n.mask == 0 then ok none else route_of fuel root prevs interfaces n)
  es ← write_routes fuel root prevs interfaces ns
  ok (push_route e es)

-- RoutingTable::update_route
unfoldable pub update_route : Choices → Lsdb → List Interface → RoutingTable → Result RoutingTable
update_route c db interfaces table = do
  let g = build db
  s ← from_option endless (dijkstra c table.root_id g.nodes g.edges)
  let t =
      add_summaries table.root_id db.summary_lsas
        (record { nodes = s.nodes; prevs = s.prevs; edges = g.edges })
  routes ←
      write_routes (edge_count t.edges + 2) table.root_id t.prevs interfaces (c.iterate t.nodes)
  ok (record {
    routes = routes;
    root_id = table.root_id;
    nodes = t.nodes;
    prevs = t.prevs;
    edges = t.edges;
  })
