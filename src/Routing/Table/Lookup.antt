-- ===== src/Routing/Table/Lookup.antt =====
-- What lookup_route answers from the table that update_route has written.
use Prim.Native.Nat.{bit_and}
use ospfd_rfc.Base.{
  ℕ, ◌≡◌, ◌≢◌, refl, ◌⊎◌, inl, inr, Option, none, some, List, [], ◌∷◌, All, ◌==◌, Bool-cases, ok,
  arith,
}
use mathlib.Core.List.{Memᴰ}
use ospfd_rfc.Base.Maps.{index}
use ospfd_rfc.Lsa.{RouterLsa}
use ospfd_rfc.Lsdb.{Lsdb}
use ospfd_rfc.Interface.{Interface}
use ospfd_rfc.Routing.{zero_node, Entry, RoutingTable, Choices, lookup_route}
use ospfd_rfc.Routing.Graph.{build}
use ospfd_rfc.Routing.Dijkstra.Walks.{Walk}
use ospfd_rfc.Routing.Table.{update_route}
use ospfd_rfc.Routing.Table.Parts.{IsOneArea}
use ospfd_rfc.Routing.Table.Shortest.{IsWay, update_route-mask, update_route-IsWay}

-- A route for the address, or the answer for none.
abbrev pub IsAnswer : List Entry → ℕ → ℕ × Option ℕ → Type 0
IsAnswer es dst answer =
    ((e : Entry) × Memᴰ e es × (bit_and dst e.mask ≡ e.dst) × (answer ≡ (e.next_hop, some e.intf)))
    ⊎ ((answer ≡ (0, none)) × All (λ e. bit_and dst e.mask ≢ e.dst) es)

lookup_route-IsAnswer : (es : List Entry) (dst : ℕ) → IsAnswer es dst (lookup_route es dst)
unfolding lookup_route
lookup_route-IsAnswer [] dst = inr (refl, tt)
lookup_route-IsAnswer (e ∷ es) dst = elim (Bool-cases (bit_and dst e.mask == e.dst)) [
  | inl matches ↦ rw matches (inl (e, Memᴰ.head refl, ground (arith, matches), refl))
  | inr differs ↦ rw differs (elim (lookup_route-IsAnswer es dst) [
    | inl (e', there, on_net, answer) ↦ inl (e', Memᴰ.tail there, on_net, answer)
    | inr (answer, others) ↦ inr (answer, (λ on_net. ground (arith, differs, on_net), others))
  ])
]

-- On the database of one area (IsOneArea: it has the router's own LSA and no summary LSA, the links'
-- metrics have 16 bits, and its graph has at most 65534 edges), when update_route has succeeded and
-- the router's id is not 0: either the address, under the mask of a route of the table, is this
-- route's network, the mask is the one that the graph has of that network and is not 0, and
-- lookup_route answers with this route's next hop and interface, which are those of a way of the
-- route's metric to its network; or the address is in the network of no route, and the answer is 0 and
-- a null pointer.
pub lookup_route-update_route :
    (c : Choices) (db : Lsdb) (interfaces : List Interface) (table : RoutingTable) (own : RouterLsa)
    → IsOneArea db table.root_id own
    → (table' : RoutingTable) → update_route c db interfaces table ≡ ok table'
    → table.root_id ≢ 0
    → (dst : ℕ)
    → ((e : Entry) × Memᴰ e table'.routes
        × (bit_and dst e.mask ≡ e.dst)
        × (e.mask ≡ (index zero_node e.dst (build db).nodes).mask)
        × (e.mask ≢ 0)
        × (lookup_route table'.routes dst ≡ (e.next_hop, some e.intf))
        × Walk table.root_id (build db).nodes (build db).edges e.dst e.metric
        × IsWay db interfaces table.root_id table'.nodes e)
      ⊎ ((lookup_route table'.routes dst ≡ (0, none))
          × All (λ e. bit_and dst e.mask ≢ e.dst) table'.routes)
lookup_route-update_route c db interfaces table own area table' result some_root dst =
    elim (lookup_route-IsAnswer table'.routes dst) [
      | inl (e, there, on_net, answer) ↦
          let (walk, way) =
            update_route-IsWay c db interfaces table own area table' result e some_root there in
          let (mask, some_mask) =
            update_route-mask c db interfaces table own area table' result e some_root there in
          inl (e, there, on_net, mask, some_mask, answer, walk, way)
      | inr missed ↦ inr missed
    ]
