-- ===== src/Routing/Dijkstra.antt =====
-- src/route.cpp: RoutingTable::dijkstra. Reading `edges[v]` leaves an empty list at a key that was
-- missing, which reads as before; it is not kept.
pub mod Walks
pub mod Invariant
pub mod Step
pub mod Pop
pub mod Loop
pub mod Correct
pub mod Keys
use ospfd_rfc.Base.{
  ℕ, zero, suc, ◌+◌, ◌%◌, Bool, true, false, Option, none, some, List, [], ◌∷◌, ◌==◌, ltb,
  if◌then◌else◌, length,
}
use ospfd_rfc.Base.Maps.{Map, index, insert, touch}
use ospfd_rfc.Routing.{Node, zero_node, Edge, RoutingTable, Choices}

-- The members and locals that the loop changes; `vis` is the map of marks, false at first.
pub record Search : Type 0 where
  pub nodes : Map Node
  pub prevs : Map ℕ
  pub heap : List Node
  pub vis : ℕ → Bool

-- The distance of a node, as `nodes[v].dist` reads it.
abbrev pub dist_of : Map Node → ℕ → ℕ
dist_of nodes v = (index zero_node v nodes).dist

-- The body of the loop over the edges of `node`.
unfoldable pub relax : Node → Edge → Search → Search
relax node e s =
    let target = index zero_node e.dst s.nodes in
    let alt = (node.dist + e.metric) % 4294967296 in
    let nearer : Node = record target { dist = alt } in
    if ltb alt target.dist
    then record s {
      nodes = insert e.dst nearer s.nodes;
      prevs = insert e.dst node.id s.prevs;
      heap = nearer ∷ s.heap;
    }
    else record s { nodes = touch zero_node e.dst s.nodes }

unfoldable pub relax_all : Node → List Edge → Search → Search
relax_all node [] s = s
relax_all node (e ∷ es) s = relax_all node es (relax node e s)

-- `vis[v] = true`
abbrev pub mark : ℕ → (ℕ → Bool) → ℕ → Bool
mark v vis u = if u == v then true else vis u

-- The loop's body for the node that was popped: nothing if it is marked.
unfoldable pub visit : Map (List Edge) → Node → List Node → Search → Search
visit edges node rest s =
    if s.vis node.id
    then record s { heap = rest }
    else relax_all node (index [] node.id edges)
        (record s { heap = rest; vis = mark node.id s.vis })

-- The loop, on fuel: none where it runs out.
unfoldable pub search : Choices → Map (List Edge) → ℕ → Search → Option Search
search c edges zero s = none
search c edges (suc fuel) s = elim (c.pop s.heap) [
  | none ↦ some s
  | some (node, rest) ↦ search c edges fuel (visit edges node rest s)
]

-- The initial values: no previous node, the root at distance 0.
unfoldable pub no_prevs : Map Node → Map ℕ
no_prevs [] = []
no_prevs ((k, n) ∷ m) = (k, 0) ∷ no_prevs m

unfoldable pub start : ℕ → Map Node → Search
start root nodes =
    let at_root : Node = record (index zero_node root nodes) { dist = 0 } in
    record {
      nodes = insert root at_root nodes;
      prevs = no_prevs nodes;
      heap = at_root ∷ [];
      vis = λ v. false;
    }

unfoldable pub edge_count : Map (List Edge) → ℕ
edge_count [] = 0
edge_count ((k, es) ∷ m) = length es + edge_count m

-- dijkstra(): each round takes a node from the heap, and each edge puts at most one there.
unfoldable pub dijkstra : Choices → ℕ → Map Node → Map (List Edge) → Option Search
unfolding start
dijkstra c root nodes edges = search c edges (edge_count edges + 2) (start root nodes)
