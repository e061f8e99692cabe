-- ===== src/Routing/Table/Endless.antt =====
-- A summary LSA that the loop over the predecessors does not come back from.
use ospfd_rfc.Base.{ℕ, zero, suc, ◌≡◌, ◌≢◌, refl, ap, ◌∙◌, true, false, ◌||◌, none, ◌==◌, arith}
use ospfd_rfc.Base.Maps.{Map, has_key, index, insert, index-insert}
use ospfd_rfc.Lsa.{SummaryLsa}
use ospfd_rfc.Routing.{zero_node, unreachable}
use ospfd_rfc.Routing.Table.{Tree, add_summary, chase}

-- A node that is its own predecessor, and neither the root nor 0.
chase_self :
    (root fuel v next : ℕ) (prevs : Map ℕ)
    → index 0 v prevs ≡ v
    → v ≢ root
    → v ≢ 0
    → chase root prevs fuel v next ≡ none
unfolding chase
chase_self root zero v next prevs self not_root some_hop = refl
chase_self root (suc fuel) v next prevs self not_root some_hop =
    let more : (v == root || v == 0) ≡ false = ground (arith, not_root, some_hop) in
    rw more (
      ap (λ (p : ℕ). chase root prevs fuel p v) self
      ∙ chase_self root fuel v v prevs self not_root some_hop)

-- A summary LSA whose link state id is the id of the router that advertises it, another router than
-- this one and one that is reached, makes that router its own predecessor: no fuel is enough for the
-- loop that looks for the first hop on the way over it, so the program's loop never ends.
pub add_summary_endless :
    (router_id : ℕ) (l : SummaryLsa) (t : Tree) (fuel next : ℕ)
    → l.header.link_state_id ≡ l.header.advertising_router
    → l.header.advertising_router ≢ router_id
    → l.header.advertising_router ≢ 0
    → has_key l.header.advertising_router t.nodes ≡ true
    → (index zero_node l.header.advertising_router t.nodes).id ≡ l.header.advertising_router
    → (index zero_node l.header.advertising_router t.nodes).dist ≢ unreachable
    → chase router_id (add_summary router_id l t).prevs fuel l.header.advertising_router next ≡ none
unfolding add_summary
add_summary_endless router_id l t fuel next self foreign nonzero known id reached =
    let a = l.header.advertising_router in
    let abr = index zero_node a t.nodes in
    let other : (a == router_id) ≡ false = ground (arith, foreign) in
    let near : (abr.dist == unreachable) ≡ false = ground (arith, reached) in
    rw other (
      rw known (
        rw near (
          chase_self router_id fuel a next (insert l.header.link_state_id abr.id t.prevs)
            (ground (arith, index-insert 0 a l.header.link_state_id abr.id t.prevs, self, id))
            foreign nonzero)))
