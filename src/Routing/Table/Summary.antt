-- ===== src/Routing/Table/Summary.antt =====
-- What a summary LSA adds to the routes: a network behind the router that advertises it.
use ospfd_rfc.Base.{
  ℕ, zero, suc, ◌≡◌, ◌≢◌, refl, sym, ap, subst, ◌∙◌, inl, inr, Bool, true, false, ◌||◌, some, ◌==◌,
  if◌then◌else◌, Bool-cases, arith,
}
use mathlib.Core.Option.{none-ne-some}
use ospfd_rfc.Base.Maps.{Map, has_key, index, insert, touch, index-insert, index-touch}
use ospfd_rfc.Lsa.{SummaryLsa}
use ospfd_rfc.Routing.{Node, zero_node, unreachable}
use ospfd_rfc.Routing.Table.{Tree, add_summary, chase}
use ospfd_rfc.Routing.Table.Chase.{chase_nonzero}

chase_goes :
    (root fuel v next : ℕ) (prevs : Map ℕ)
    → (v == root || v == 0) ≡ false
    → chase root prevs (suc fuel) v next ≡ chase root prevs fuel (index 0 v prevs) v
unfolding chase
chase_goes root fuel v next prevs more = rw more refl

chase_stops :
    (root fuel v next : ℕ) (prevs : Map ℕ)
    → (v == root || v == 0) ≡ true
    → chase root prevs (suc fuel) v next ≡ some (v, next)
unfolding chase
chase_stops root fuel v next prevs done = rw done refl

-- A node that had no predecessor is on no way back that ends at the root: giving it one changes no
-- such way.
chase-insert :
    (root fuel v next net p : ℕ) (prevs : Map ℕ) (r : ℕ × ℕ)
    → index 0 net prevs ≡ 0
    → chase root prevs fuel v next ≡ some r
    → r.0 ≢ 0
    → chase root (insert net p prevs) fuel v next ≡ some r
unfolding chase
chase-insert root zero v next net p prevs r fresh h some_hop = absurd (none-ne-some r h)
chase-insert root (suc fuel) v next net p prevs r fresh h some_hop =
    elim (Bool-cases (v == root || v == 0)) [
      | inl done ↦
          chase_stops root fuel v next (insert net p prevs) done
          ∙ sym (chase_stops root fuel v next prevs done)
          ∙ h
      | inr more ↦
          let rest : chase root prevs fuel (index 0 v prevs) v ≡ some r =
            sym (chase_goes root fuel v next prevs more) ∙ h in
          let on_way : index 0 v prevs ≢ 0 =
            chase_nonzero root fuel (index 0 v prevs) v prevs r rest some_hop in
          let same : index 0 v (insert net p prevs) ≡ index 0 v prevs =
            ground (arith, index-insert 0 v net p prevs, on_way, fresh) in
          chase_goes root fuel v next (insert net p prevs) more
          ∙ ap (λ (q : ℕ). chase root (insert net p prevs) fuel q v) same
          ∙ chase-insert root fuel (index 0 v prevs) v net p prevs r fresh rest some_hop
    ]

module _ (router_id : ℕ) (l : SummaryLsa) (t : Tree)
    (foreign : l.header.advertising_router ≢ router_id)
    (known : has_key l.header.advertising_router t.nodes ≡ true)
    (reached : (index zero_node l.header.advertising_router t.nodes).dist ≢ unreachable) where
  abbrev abr : Node
  abr = index zero_node l.header.advertising_router t.nodes

  other_router : (l.header.advertising_router == router_id) ≡ false
  other_router = ground (arith, foreign)

  near : (abr.dist == unreachable) ≡ false
  near = ground (arith, reached)

  add_summary_prevs :
      (add_summary router_id l t).prevs ≡ insert l.header.link_state_id abr.id t.prevs
  unfolding add_summary
  add_summary_prevs = rw other_router (rw known (rw near refl))

  abbrev network : ℕ → Node
  network dist = record { id = l.header.link_state_id; mask = l.network_mask; dist = dist }

  add_summary_nodes :
      (add_summary router_id l t).nodes
      ≡ insert l.header.link_state_id
          (network (index zero_node abr.id (touch zero_node abr.id t.nodes)).dist)
          (touch zero_node abr.id t.nodes)
  unfolding add_summary
  add_summary_nodes = rw other_router (rw known (rw near refl))

  add_summary_node :
      abr.id ≡ l.header.advertising_router
      → index zero_node l.header.link_state_id (add_summary router_id l t).nodes ≡ network abr.dist
  add_summary_node id =
      let net = l.header.link_state_id in
      let n : Node = network (index zero_node abr.id (touch zero_node abr.id t.nodes)).dist in
      let self : (net == net) ≡ true = ground arith in
      let read : (index zero_node abr.id (touch zero_node abr.id t.nodes)).dist ≡ abr.dist =
        ap (λ (x : Node). x.dist) (index-touch zero_node abr.id abr.id t.nodes)
        ∙ ap (λ (x : ℕ). (index zero_node x t.nodes).dist) id in
      ap (λ (m : Map Node). index zero_node net m) add_summary_nodes
      ∙ index-insert zero_node net net n (touch zero_node abr.id t.nodes)
      ∙ ap (λ (b : Bool). if b then n else index zero_node net (touch zero_node abr.id t.nodes))
          self
      ∙ ap network read

-- A summary LSA for a network that has no predecessor yet, advertised by another router, which is
-- known under its id, is reached, and whose way back ends at the root: the network gets the LSA's
-- mask and that router's distance, without the metric that the LSA gives, its way back ends as that
-- router's does, with the same first hop, and the ways back of all nodes that ended at the root end as
-- before.
pub add_summary-chase :
    (router_id : ℕ) (l : SummaryLsa) (t : Tree) (fuel : ℕ) (hop : ℕ × ℕ)
    → l.header.advertising_router ≢ router_id
    → l.header.advertising_router ≢ 0
    → has_key l.header.advertising_router t.nodes ≡ true
    → (index zero_node l.header.advertising_router t.nodes).id ≡ l.header.advertising_router
    → (index zero_node l.header.advertising_router t.nodes).dist ≢ unreachable
    → index 0 l.header.link_state_id t.prevs ≡ 0
    → chase router_id t.prevs fuel
        (index 0 l.header.advertising_router t.prevs)
        l.header.advertising_router
      ≡ some hop
    → hop.0 ≢ 0
    → (v next : ℕ) (other : ℕ × ℕ) → chase router_id t.prevs fuel v next ≡ some other
    → other.0 ≢ 0
    → let t' = add_summary router_id l t in
      let net = l.header.link_state_id in
      (index zero_node net t'.nodes ≡ record {
        id = net;
        mask = l.network_mask;
        dist = (index zero_node l.header.advertising_router t.nodes).dist;
      })
      × (chase router_id t'.prevs (suc fuel) (index 0 net t'.prevs) net ≡ some hop)
      × (chase router_id t'.prevs fuel v next ≡ some other)
add_summary-chase router_id l t fuel hop foreign nonzero known id reached fresh way some_hop v next
      other way' some_hop' =
    let a = l.header.advertising_router in
    let net = l.header.link_state_id in
    let prevs' = insert net a t.prevs in
    let is : (add_summary router_id l t).prevs ≡ prevs' =
      add_summary_prevs router_id l t foreign known reached
      ∙ ap (λ (x : ℕ). insert net x t.prevs) id in
    let start : index 0 net prevs' ≡ a = ground (arith, index-insert 0 net net a t.prevs) in
    let on_way : index 0 a t.prevs ≢ 0 =
      chase_nonzero router_id fuel (index 0 a t.prevs) a t.prevs hop way some_hop in
    let same : index 0 a prevs' ≡ index 0 a t.prevs =
      ground (arith, index-insert 0 a net a t.prevs, on_way, fresh) in
    let more : (a == router_id || a == 0) ≡ false = ground (arith, foreign, nonzero) in
    let net_way : chase router_id prevs' (suc fuel) (index 0 net prevs') net ≡ some hop =
      ap (λ (x : ℕ). chase router_id prevs' (suc fuel) x net) start
      ∙ chase_goes router_id fuel a net prevs' more
      ∙ ap (λ (x : ℕ). chase router_id prevs' fuel x a) same
      ∙ chase-insert router_id fuel (index 0 a t.prevs) a net a t.prevs hop fresh way some_hop in
    (
      add_summary_node router_id l t foreign known reached id,
      subst (λ (m : Map ℕ). chase router_id m (suc fuel) (index 0 net m) net ≡ some hop) (sym is)
          net_way,
      subst (λ (m : Map ℕ). chase router_id m fuel v next ≡ some other) (sym is)
          (chase-insert router_id fuel v next net a t.prevs other fresh way' some_hop'),
    )
