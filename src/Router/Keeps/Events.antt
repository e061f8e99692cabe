-- ===== src/Router/Keeps/Events.antt =====
-- The events that originate LSAs keep what no step changes.
use ospfd_rfc.Base.{
  set, set-set, ℕ, ◌≡◌, ◌∙◌, sym, subst, ap, Bool, ◌||◌, ◌==◌, List, [], if◌then◌else◌, Result, ok,
  fault, null_dereference, from_option-ok, assert, Holds, Holds-ok, Holds-from, Holds-if, Holds->>=,
  Holds->>,
}
use ospfd_rfc.Neighbor.{Neighbor, full, same_state, settle_exchange, settle_loading}
use ospfd_rfc.Neighbor.Sound.{◌⟿◌, settle_exchange-⟿, settle_loading-⟿}
use ospfd_rfc.Interface.{
  Interface, dr, dr_other, backup, host, elect_designated_router, elected_state, same_if_state,
  waiting, get_neighbor_by_ip,
}
use ospfd_rfc.Router.{Router, interface_at, put_interface, neighbor_at, put_neighbor}
use ospfd_rfc.Router.Events.{
  elect_and_originate, event_backup_seen, event_neighbor_change, originate_adjacency,
  event_exchange_done, event_loading_done,
}
use ospfd_rfc.Router.Originate.{make_lsa_router, make_lsa_network}
use ospfd_rfc.Router.Neighbors.{InterfaceKeeps, InterfaceKeeps-put_neighbor}
use ospfd_rfc.Router.Keeps.{
  InterfacesKeep, Keeps, Keeps-trans, Sends, Sends-Keeps, Sends-refl, Sends-trans,
  put_interface-Keeps,
}
use ospfd_rfc.Router.Keeps.Originate.{make_lsa_router-Sends, make_lsa_network-Sends}
use ospfd_rfc.Router.Keeps.Election.{elect_designated_router-keeps}

-- An interface that was read is written, and written again after the sending of packets.
put_again-Keeps :
    (r r' : Router) (k : ℕ) (i i' i'' : Interface)
    → interface_at r k ≡ ok i
    → Sends (put_interface r k i') r'
    → InterfaceKeeps i i''
    → Keeps r (put_interface r' k i'')
put_again-Keeps r r' k i i' i'' at_k sends h =
    let keeps = put_interface-Keeps r k i i'' at_k h in
    let same : set r'.interfaces k i'' ≡ set r.interfaces k i'' =
      ap (λ (is : List Interface). set is k i'') (sym sends.same_interfaces)
      ∙ set-set r.interfaces k i' i'' in
    record {
      same_id = sends.same_id;
      interfaces_keep = subst (InterfacesKeep r.interfaces) (sym same) keeps.interfaces_keep;
      sent_more = sends.sent_more;
    }

-- A step behind a step that keeps.
pub Holds-Keeps :
    (r r1 : Router) (res : Result Router) → Keeps r r1 → Holds (Keeps r1) res → Holds (Keeps r) res
Holds-Keeps r r1 (fault reason) h h' = tt
Holds-Keeps r r1 (ok r2) h h' = Keeps-trans r r1 r2 h h'

Holds-Sends-Keeps : (r : Router) (res : Result Router) → Holds (Sends r) res → Holds (Keeps r) res
Holds-Sends-Keeps r (fault reason) h = tt
Holds-Sends-Keeps r (ok r') h = Sends-Keeps r r' h

elect_and_originate-Keeps :
    (r : Router) (k : ℕ) (i : Interface)
    → interface_at r k ≡ ok i
    → Holds (Keeps r) (elect_and_originate r k i)
unfolding elect_and_originate
elect_and_originate-Keeps r k i at_k =
    Holds->>= (Keeps r) (elect_designated_router r.memory r.router_id i) _ (λ (i', network) e.
      let h =
        Holds-ok
          (λ (x : Interface × Bool). InterfaceKeeps i (record (x.0) { state = elected_state x.0 }))
          (elect_designated_router r.memory r.router_id i) (i', network)
          (elect_designated_router-keeps r.memory r.router_id i) e in
      let elected = put_interface r k i' in
      Holds->>= (Keeps r) (if network then make_lsa_network elected k else ok elected) _ (λ r' e'.
        let sends =
          Holds-ok (Sends elected) (if network then make_lsa_network elected k else ok elected) r'
            (originated elected network) e' in
        let i'' = record i' { state = elected_state i' } in
        Holds-Keeps r (put_interface r' k i'') (make_lsa_router (put_interface r' k i''))
          (put_again-Keeps r r' k i i' i'' at_k sends h)
          (Holds-Sends-Keeps (put_interface r' k i'') (make_lsa_router (put_interface r' k i''))
            (make_lsa_router-Sends (put_interface r' k i'')))))
  where
    originated :
        (elected : Router) (network : Bool)
        → Holds (Sends elected) (if network then make_lsa_network elected k else ok elected)
    originated elected network =
        Holds-if (Sends elected) network (make_lsa_network elected k) (ok elected)
          (λ e. make_lsa_network-Sends elected k) (λ e. Sends-refl elected)

pub event_backup_seen-Keeps : (r : Router) (k : ℕ) → Holds (Keeps r) (event_backup_seen r k)
unfolding event_backup_seen
event_backup_seen-Keeps r k = Holds->>= (Keeps r) (interface_at r k) _ (λ i at_k.
    Holds->> (Keeps r) (assert (same_if_state i.state waiting)) _
      (elect_and_originate-Keeps r k i at_k))

pub event_neighbor_change-Keeps : (r : Router) (k : ℕ) → Holds (Keeps r) (event_neighbor_change r k)
unfolding event_neighbor_change
event_neighbor_change-Keeps r k = Holds->>= (Keeps r) (interface_at r k) _ (λ i at_k.
    Holds->> (Keeps r)
      (assert (
        same_if_state i.state dr
        || (same_if_state i.state backup || same_if_state i.state dr_other)))
      _ (elect_and_originate-Keeps r k i at_k))

originate_adjacency-Sends :
    (r : Router) (k : ℕ) (i : Interface) → Holds (Sends r) (originate_adjacency r k i)
unfolding originate_adjacency
originate_adjacency-Sends r k i = Holds->>= (Sends r) (make_lsa_router r) _ (λ r' e.
    Holds-if (Sends r) (i.designated_router == i.ip_addr) (make_lsa_network r' k) (ok r')
      (λ e'. Holds-from (Sends r) (make_lsa_network r' k) (λ r'' e''.
        Sends-trans r r' r'' (Holds-ok (Sends r) (make_lsa_router r) r' (make_lsa_router-Sends r) e)
          (Holds-ok (Sends r') (make_lsa_network r' k) r'' (make_lsa_network-Sends r' k) e'')))
      (λ e'. Holds-ok (Sends r) (make_lsa_router r) r' (make_lsa_router-Sends r) e))

-- A neighbor that was looked up in the router is written back.
pub put_neighbor-Keeps :
    (r : Router) (k : ℕ) (i : Interface) (ip : ℕ) (n n' : Neighbor)
    → interface_at r k ≡ ok i
    → neighbor_at i ip ≡ ok n
    → n ⟿ n'
    → Keeps r (put_interface r k (put_neighbor i n'))
put_neighbor-Keeps r k i ip n n' at_k at_ip m = put_interface-Keeps r k i (put_neighbor i n') at_k (
    InterfaceKeeps-put_neighbor i ip n n'
      (from_option-ok null_dereference (get_neighbor_by_ip i ip) n at_ip) m)

pub event_exchange_done-Keeps :
    (r : Router) (k ip : ℕ) → Holds (Keeps r) (event_exchange_done r k ip)
unfolding event_exchange_done
event_exchange_done-Keeps r k ip = Holds->>= (Keeps r) (interface_at r k) _ (λ i at_k.
    Holds->>= (Keeps r) (neighbor_at i ip) _ (λ n at_ip.
      Holds->>= (Keeps r) (settle_exchange n) _ (λ n' e.
        let r' = put_interface r k (put_neighbor i n') in
        let h =
          put_neighbor-Keeps r k i ip n n' at_k at_ip
            (Holds-ok (λ n'. n ⟿ n') (settle_exchange n) n' (settle_exchange-⟿ (host i) n) e) in
        Holds-if (Keeps r) (same_state n'.state full) (originate_adjacency r' k i) (ok r')
          (λ e'.
            Holds-Keeps r r' (originate_adjacency r' k i) h (
              Holds-Sends-Keeps r' (originate_adjacency r' k i) (originate_adjacency-Sends r' k i)))
          (λ e'. h))))

-- It is raised only for a neighbor that has nothing left to request.
pub event_loading_done-Keeps :
    (r : Router) (k : ℕ) (i : Interface) (ip : ℕ) (n : Neighbor)
    → interface_at r k ≡ ok i
    → neighbor_at i ip ≡ ok n
    → n.link_state_request_list ≡ []
    → Holds (Keeps r) (event_loading_done r k ip)
unfolding event_loading_done
event_loading_done-Keeps r k i ip n at_k at_ip empty = rw at_k (
    rw at_ip (
      Holds->>= (Keeps r) (settle_loading n) _ (λ n' e.
        let r' = put_interface r k (put_neighbor i n') in
        Holds-Keeps r r' (make_lsa_router r')
          (put_neighbor-Keeps r k i ip n n' at_k at_ip
            (Holds-ok (λ n'. n ⟿ n') (settle_loading n) n' (settle_loading-⟿ (host i) n empty) e))
          (Holds-Sends-Keeps r' (make_lsa_router r') (make_lsa_router-Sends r')))))
