-- ===== src/Routing.antt =====
-- src/route.hpp and src/route.cpp: the routing table. What the kernel is asked for is in Kernel; printing
-- is left out.
pub mod Graph
pub mod Dijkstra
pub mod Table
pub mod Kernel
use ospfd_rfc.Base.{
  ℕ, ◌+◌, ◌%◌, ◌≤◌, ◌≡◌, ◌⊎◌, ◌↔◌, Option, none, some, List, [], ◌∷◌, ◌==◌, if◌then◌else◌, length,
  map,
}
use Prim.Native.Nat.{bit_and}
use mathlib.Core.List.{Memᴰ}
use ospfd_rfc.Base.Maps.{Map}

-- RoutingTable::Node
pub record Node : Type 0 where
  pub id : ℕ
  pub mask : ℕ
  pub dist : ℕ

-- Node() as the map's operator[] makes it: all zero.
abbrev pub zero_node : Node
zero_node = record { id = 0; mask = 0; dist = 0 }

-- UINT32_MAX
abbrev pub unreachable : ℕ
unreachable = 4294967295

-- RoutingTable::Edge
pub record Edge : Type 0 where
  pub dst : ℕ
  pub metric : ℕ

-- RoutingTable::Entry; `intf` is the place of the interface in `this_interfaces`.
pub record Entry : Type 0 where
  pub dst : ℕ
  pub mask : ℕ
  pub next_hop : ℕ
  pub metric : ℕ
  pub intf : ℕ

-- RoutingTable
pub record RoutingTable : Type 0 where
  pub routes : List Entry
  pub root_id : ℕ
  pub nodes : Map Node
  pub prevs : Map ℕ
  pub edges : Map (List Edge)

-- RoutingTable()
abbrev pub new_table : ℕ → RoutingTable
new_table router_id = record {
  routes = [];
  root_id = router_id;
  nodes = [];
  prevs = [];
  edges = [];
}

-- What the C++ standard leaves open: which of several least elements a std::priority_queue yields,
-- and in which order a std::unordered_map is iterated. Each comes with what the standard does say.
pub record Choices : Type 0 where
  pub pop : List Node → Option (Node × List Node)
  pub pop-none : (heap : List Node) → pop heap ≡ none → heap ≡ []
  pub pop-least :
      (heap rest : List Node) (n m : Node)
      → pop heap ≡ some (n, rest)
      → Memᴰ m heap
      → n.dist ≤ m.dist
  pub pop-Mem :
      (heap rest : List Node) (n m : Node)
      → pop heap ≡ some (n, rest)
      → Memᴰ m heap ↔ ((m ≡ n) ⊎ Memᴰ m rest)
  pub pop-length :
      (heap rest : List Node) (n : Node) → pop heap ≡ some (n, rest) → length heap ≡ length rest + 1
  pub iterate : Map Node → List Node
  pub iterate-Mem :
      (m : Map Node) (n : Node) → Memᴰ n (iterate m) ↔ Memᴰ n (map (λ entry. entry.1) m)

-- RoutingTable::lookup_route: the next hop and the interface of the first route whose network has the
-- address, or 0 and a null pointer.
unfoldable pub lookup_route : List Entry → ℕ → ℕ × Option ℕ
lookup_route [] dst = (0, none)
lookup_route (e ∷ es) dst =
    if bit_and dst e.mask == e.dst then (e.next_hop, some e.intf) else lookup_route es dst
