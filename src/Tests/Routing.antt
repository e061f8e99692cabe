-- ===== src/Tests/Routing.antt =====
-- A point-to-point line between two routers: 1 is on the network 16, 2 is on the networks 16 and 32.
use Prim.Native.Nat.{bit_and}
use ospfd_rfc.Base.{
  ◌⊎◌, ℕ, ◌≤◌, ◌≡◌, ◌≢◌, refl, sym, subst, inl, inr, false, none, some, List, [], ◌∷◌, All, ok,
  fault, endless, arith,
}
use mathlib.Core.List.{Memᴰ}
use mathlib.Core.List.Memᴰ
use ospfd_rfc.Base.Maps.{Map, index, insert, touch, has_key}
use ospfd_rfc.Lsa.{Header, Link, RouterLsa, SummaryLsa}
use ospfd_rfc.Lsdb.{Lsdb}
use ospfd_rfc.Neighbor.{Neighbor}
use ospfd_rfc.Interface.{Interface}
use ospfd_rfc.Tests.Neighbor.{blank}
use ospfd_rfc.Tests.Interface.{lan}
use ospfd_rfc.Interface.{get_neighbor_by_id}
use ospfd_rfc.Routing.Graph.{Graph, build, add_networks, add_routers, add_links, add_link}
use ospfd_rfc.Routing.Dijkstra.{
  Search, dist_of, mark, dijkstra, search, start, no_prevs, edge_count, visit, relax, relax_all,
}
use ospfd_rfc.Routing.Dijkstra.Walks.{Walk, here, step}
use ospfd_rfc.Routing.Table.{
  update_route, write_routes, route_of, chase, find_direct, find_hop, add_summaries, add_summary,
  Tree,
}
use ospfd_rfc.Routing.Table.Parts.{IsOneArea}
use ospfd_rfc.Tests.Choices.{in_order, take_least, pick}
use ospfd_rfc.Routing.Table.Shortest.{IsWay, update_route-IsWay, update_route_shortest}
use ospfd_rfc.Routing.Table.Ends.{update_route_ends}
use ospfd_rfc.Routing.Table.Endless.{add_summary_endless}
use ospfd_rfc.Routing.Table.Summary.{add_summary-chase}
use ospfd_rfc.Routing.Table.Lookup.{lookup_route-update_route}
use ospfd_rfc.Routing.{Node, Edge, Entry, RoutingTable, new_table, zero_node, lookup_route}

abbrev own_header : ℕ → Header
own_header id = record {
  age = 0;
  options = 2;
  ls_type = 1;
  link_state_id = id;
  advertising_router = id;
  sequence_number = 2147483649;
  checksum = 0;
  length = 48;
}

abbrev line : ℕ → Link
line peer = record { link_id = peer; link_data = 0; link_type = 1; tos = 0; metric = 10 }

abbrev stub_net : ℕ → ℕ → Link
stub_net net cost = record { link_id = net; link_data = 240; link_type = 3; tos = 0; metric = cost }

abbrev own_lsa : RouterLsa
own_lsa = record {
  header = own_header 1;
  flags = 0;
  num_links = 2;
  links = line 2 ∷ stub_net 16 1 ∷ [];
}

abbrev peer_lsa : RouterLsa
peer_lsa = record {
  header = own_header 2;
  flags = 0;
  num_links = 3;
  links = line 1 ∷ stub_net 16 1 ∷ stub_net 32 5 ∷ [];
}

abbrev pub two_routers : Lsdb
two_routers = record {
  router_lsas = own_lsa ∷ peer_lsa ∷ [];
  network_lsas = [];
  summary_lsas = [];
  asbr_summary_lsas = [];
  as_external_lsas = [];
  max_age = 3600;
  max_age_diff = 900;
}

abbrev peer_2 : Neighbor
peer_2 = record blank { id = 2; ip_addr = 18 }

abbrev pub line_interface : Interface
line_interface = record (lan (peer_2 ∷ [])) { ip_addr = 17; mask = 240 }

abbrev both_lines : Map (List Edge)
both_lines =
    (1, record { dst = 2; metric = 10 } ∷ record { dst = 16; metric = 1 } ∷ [])
    ∷ (
      2,
      record { dst = 1; metric = 10 }
          ∷ record { dst = 16; metric = 1 }
          ∷ record { dst = 32; metric = 5 }
          ∷ [],
    )
    ∷ []

abbrev all_reached : Map Node
all_reached =
    (1, record { id = 1; mask = 0; dist = 0 })
    ∷ (16, record { id = 16; mask = 240; dist = 1 })
    ∷ (2, record { id = 2; mask = 0; dist = 10 })
    ∷ (32, record { id = 32; mask = 240; dist = 15 })
    ∷ []

abbrev far_route : Entry
far_route = record { dst = 32; mask = 240; next_hop = 18; metric = 15; intf = 0 }

abbrev pub updated : RoutingTable
updated = record {
  routes = record { dst = 16; mask = 240; next_hop = 0; metric = 1; intf = 0 } ∷ far_route ∷ [];
  root_id = 1;
  nodes = all_reached;
  prevs = (1, 0) ∷ (16, 1) ∷ (2, 1) ∷ (32, 2) ∷ [];
  edges = both_lines;
}

pub updated_is : update_route in_order two_routers (line_interface ∷ []) (new_table 1) ≡ ok updated
unfolding update_route write_routes route_of chase find_direct find_hop get_neighbor_by_id
    add_summaries dijkstra search start no_prevs edge_count visit relax relax_all build add_networks
    add_routers add_links add_link index insert touch take_least pick
updated_is = refl

All-Memᴰ : {A : Type 0} (P : A → Type 0) (xs : List A) (x : A) → All P xs → Memᴰ x xs → P x
All-Memᴰ P [] x h m = absurd (Memᴰ.not-nil m)
All-Memᴰ P (y ∷ ys) x h m = elim (Memᴰ.cases_cons m) [
  | inl same ↦ subst P (sym same) h.0
  | inr later ↦ All-Memᴰ P ys x h.1 later
]

abbrev unreached : Map Node
unreached =
    (1, record { id = 1; mask = 0; dist = 4294967295 })
    ∷ (16, record { id = 16; mask = 240; dist = 4294967295 })
    ∷ (2, record { id = 2; mask = 0; dist = 4294967295 })
    ∷ (32, record { id = 32; mask = 240; dist = 4294967295 })
    ∷ []

build_is : build two_routers ≡ record { nodes = unreached; edges = both_lines }
unfolding build add_networks add_routers add_links add_link index insert
build_is = refl

one_area : IsOneArea two_routers 1 own_lsa
unfolding edge_count
one_area = record {
  own_known = Memᴰ.head refl;
  own_id = refl;
  metric16 = λ r m l.
      All-Memᴰ (λ (x : Link). x.metric ≤ 65535) r.links l
        (All-Memᴰ (λ (x : RouterLsa). All (λ (y : Link). y.metric ≤ 65535) x.links)
          two_routers.router_lsas r (ground arith) m);
  few_edges = subst (λ (g : Graph). edge_count g.edges ≤ 65534) (sym build_is) (ground arith);
  no_summaries = refl;
}

-- To the other router, back, and over it to its network.
there_and_back : Walk 1 (build two_routers).nodes (build two_routers).edges 32 35
unfolding index has_key
there_and_back =
    subst (λ (g : Graph). Walk 1 g.nodes g.edges 32 35) (sym build_is)
      (step {u = 2} (record { dst = 32; metric = 5 })
        (step {u = 1} (record { dst = 2; metric = 10 })
          (step {u = 2} (record { dst = 1; metric = 10 })
            (step {u = 1} (record { dst = 2; metric = 10 }) (here refl refl) (Memᴰ.head refl) refl
              refl refl)
            (Memᴰ.head refl) refl refl refl)
          (Memᴰ.head refl) refl refl refl)
        (Memᴰ.tail (Memᴰ.tail (Memᴰ.head refl))) refl refl refl)

abbrev searched : Search
searched = record {
  nodes = all_reached;
  prevs = (1, 0) ∷ (16, 1) ∷ (2, 1) ∷ (32, 2) ∷ [];
  heap = [];
  vis = mark 32 (mark 2 (mark 16 (mark 1 (λ v. false))));
}

searched_is :
    dijkstra in_order 1 (build two_routers).nodes (build two_routers).edges ≡ some searched
unfolding dijkstra search start no_prevs edge_count visit relax relax_all build add_networks
    add_routers add_links add_link index insert touch take_least pick
searched_is = refl

update_route-IsWay_example :
    Walk 1 (build two_routers).nodes (build two_routers).edges 32 15
    × IsWay two_routers (line_interface ∷ []) 1 all_reached far_route
update_route-IsWay_example =
    update_route-IsWay in_order two_routers (line_interface ∷ []) (new_table 1) own_lsa one_area
      updated updated_is far_route (λ z. omega (arith, z)) (Memᴰ.tail (Memᴰ.head refl))

update_route_shortest_example : 15 ≤ 35
update_route_shortest_example =
    update_route_shortest in_order two_routers (line_interface ∷ []) (new_table 1) own_lsa one_area
      updated updated_is far_route 35 (λ z. omega (arith, z)) (Memᴰ.tail (Memᴰ.head refl))
      there_and_back

lookup_route-update_route_example :
    ((e : Entry) × Memᴰ e updated.routes
      × (bit_and 33 e.mask ≡ e.dst)
      × (e.mask ≡ (index zero_node e.dst (build two_routers).nodes).mask)
      × (e.mask ≢ 0)
      × (lookup_route updated.routes 33 ≡ (e.next_hop, some e.intf))
      × Walk 1 (build two_routers).nodes (build two_routers).edges e.dst e.metric
      × IsWay two_routers (line_interface ∷ []) 1 all_reached e)
    ⊎ ((lookup_route updated.routes 33 ≡ (0, none))
        × All (λ e. bit_and 33 e.mask ≢ e.dst) updated.routes)
lookup_route-update_route_example =
    lookup_route-update_route in_order two_routers (line_interface ∷ []) (new_table 1) own_lsa
      one_area updated updated_is (λ z. omega (arith, z)) 33

update_route_ends_example :
    update_route in_order two_routers (line_interface ∷ []) (new_table 1) ≢ fault endless
update_route_ends_example =
    update_route_ends in_order two_routers (line_interface ∷ []) (new_table 1) own_lsa one_area

-- A summary LSA of router 2 for a network that is called like the router.
abbrev own_summary : SummaryLsa
own_summary = record {
  header = record (own_header 2) { ls_type = 3 };
  network_mask = 240;
  tos = 0;
  metric = 1;
}

abbrev tree : Tree
tree = record { nodes = all_reached; prevs = searched.prevs; edges = both_lines }

reached_at_10 : (index zero_node 2 all_reached).dist ≡ 10
unfolding index
reached_at_10 = refl

add_summary_endless_example : chase 1 (add_summary 1 own_summary tree).prevs 100 2 32 ≡ none
add_summary_endless_example =
    add_summary_endless 1 own_summary tree 100 32 refl (λ e. omega (arith, e))
      (λ e. omega (arith, e)) (unfold has_key in refl) (unfold index in refl)
      (λ e. omega (arith, reached_at_10, e))

-- A summary LSA of router 2 for the network 64.
abbrev far_summary : SummaryLsa
far_summary = record own_summary {
  header = record (own_header 2) { ls_type = 3; link_state_id = 64 };
}

add_summary-chase_example :
    let t' = add_summary 1 far_summary tree in
    (index zero_node 64 t'.nodes ≡ record { id = 64; mask = 240; dist = dist_of all_reached 2 })
    × (chase 1 t'.prevs 11 (index 0 64 t'.prevs) 64 ≡ some (1, 2))
    × (chase 1 t'.prevs 10 2 32 ≡ some (1, 2))
add_summary-chase_example =
    add_summary-chase 1 far_summary tree 10 (1, 2) (λ e. omega (arith, e)) (λ e. omega (arith, e))
      (unfold has_key in refl) (unfold index in refl) (λ e. omega (arith, reached_at_10, e))
      (unfold index in refl) (unfold index chase in refl) (λ e. omega (arith, e)) 2 32 (1, 2)
      (unfold index chase in refl) (λ e. omega (arith, e))
