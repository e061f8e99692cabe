-- ===== src/Router/Keeps/Election.antt =====
-- An election keeps what no step changes of an interface.
use ospfd_rfc.Base.{
  inr, ℕ, ◌≡◌, refl, ◌∙◌, sym, subst, ap, Bool, not, ◌||◌, ◌==◌, List, [], ◌∷◌, if◌then◌else◌,
  Result, ok, null_dereference, from_option, Holds, Holds-ok, Holds-if, Holds->>=,
}
use ospfd_rfc.Neighbor.{Neighbor, Host, at_least, two_way, event_adj_ok}
use ospfd_rfc.Neighbor.Sound.{◌⟿◌, ⟿-refl, event_adj_ok-⟿}
use ospfd_rfc.Interface.{
  Interface, host, candidates, elect_bdr, elect_dr, adj_ok_all, elect_designated_router,
  elected_state,
}
use ospfd_rfc.Router.Neighbors.{
  ips, IsDistinct, NeighborsKeep, born, kept, NeighborsKeep-refl, InterfaceKeeps,
}

adj_ok_all-keeps :
    (h : Host) (ns : List Neighbor)
    → Holds (λ ns'. NeighborsKeep ns ns' × (ips ns' ≡ ips ns)) (adj_ok_all h ns)
unfolding adj_ok_all
adj_ok_all-keeps h [] = (born tt, refl)
adj_ok_all-keeps h (n ∷ ns) =
    Holds->>= Keep (if at_least two_way n.state then event_adj_ok h n else ok n) _ (λ n' e.
      Holds->>= Keep (adj_ok_all h ns) _ (λ ns' e'.
        let m : n ⟿ n' =
          Holds-ok (λ n'. n ⟿ n') (if at_least two_way n.state then event_adj_ok h n else ok n) n'
            adjusted e in
        let (k, same) =
          Holds-ok (λ ns'. NeighborsKeep ns ns' × (ips ns' ≡ ips ns)) (adj_ok_all h ns) ns'
            (adj_ok_all-keeps h ns) e' in
        (
          kept m k,
          ap (λ (a : ℕ). a ∷ ips ns') (sym m.0) ∙ ap (λ (rest : List ℕ). n.ip_addr ∷ rest) same,
        )))
  where
    Keep : List Neighbor → Type 0
    Keep ns' = NeighborsKeep (n ∷ ns) ns' × (ips ns' ≡ ips (n ∷ ns))

    adjusted : Holds (λ n'. n ⟿ n') (if at_least two_way n.state then event_adj_ok h n else ok n)
    adjusted =
        Holds-if (λ n'. n ⟿ n') (at_least two_way n.state) (event_adj_ok h n) (ok n)
          (λ e. event_adj_ok-⟿ h n) (λ e. ⟿-refl n)

pub elect_designated_router-keeps :
    (memory : Neighbor) (router_id : ℕ) (i : Interface)
    → Holds
        (λ (x : Interface × Bool). InterfaceKeeps i (record (x.0) { state = elected_state x.0 }))
        (elect_designated_router memory router_id i)
unfolding elect_designated_router elected_state
elect_designated_router-keeps memory router_id i =
    Holds->>= Keep (from_option null_dereference (elect_dr cs (elect_bdr cs))) _ (λ d ed.
      Holds->>= Keep (from_option null_dereference (elect_bdr cs)) _ (λ b eb.
        Holds->>= Keep (settle d b) _ (λ ns e.
          let (k, same) = Holds-ok Keep' (settle d b) ns (settle-keeps d b) e in
          record {
            same_config = refl;
            neighbors_keep = k;
            distinct = λ h. subst IsDistinct (sym same) h;
            settled = λ h. inr refl;
          })))
  where
    cs : List Neighbor
    cs = candidates memory router_id i

    Keep : Interface × Bool → Type 0
    Keep x = InterfaceKeeps i (record (x.0) { state = elected_state x.0 })

    Keep' : List Neighbor → Type 0
    Keep' ns = NeighborsKeep i.neighbors ns × (ips ns ≡ ips i.neighbors)

    changed : Neighbor → Neighbor → Bool
    changed d b =
        not (i.designated_router == d.ip_addr) || not (i.backup_designated_router == b.ip_addr)

    settle : Neighbor → Neighbor → Result (List Neighbor)
    settle d b = if changed d b then adj_ok_all (host i) i.neighbors else ok i.neighbors

    settle-keeps : (d b : Neighbor) → Holds Keep' (settle d b)
    settle-keeps d b =
        Holds-if Keep' (changed d b) (adj_ok_all (host i) i.neighbors) (ok i.neighbors)
          (λ e. adj_ok_all-keeps (host i) i.neighbors) (λ e. (NeighborsKeep-refl i.neighbors, refl))
