-- ===== src/Router/Keeps/Originate.antt =====
-- Originating an LSA leaves the interfaces alone.
use ospfd_rfc.Base.{
  arith, ℕ, suc, refl, true, false, Bool, none, some, List, [], ◌∷◌, ◌++◌, fault, Holds-ok, ◌%◌,
  ◌*◌, ◌+◌, if◌then◌else◌, length, Result, ok, Holds, Holds->>=, ◌>>=◌,
}
use ospfd_rfc.Lsa.{Lsa, router, network, RouterLsa, NetworkLsa}
use ospfd_rfc.Lsa.LsaType
use ospfd_rfc.Lsdb.{get, add}
use ospfd_rfc.Interface.{Interface}
use ospfd_rfc.Packet.{checked_body, produce_lsu}
use ospfd_rfc.Packet.PacketType
use ospfd_rfc.Router.{Router, interface_at, all_spf_routers}
use ospfd_rfc.Router.Originate.{
  make_router_lsa, make_network_lsa, make_lsa_router, make_lsa_network, flood_from, flood_lsa,
  router_links, own_header, full_ips,
}
use ospfd_rfc.Lsa.Codec.{router_make_checksum, network_make_checksum}
use ospfd_rfc.Router.Keeps.{Sends, Sends-refl, Sends-trans, Sends-same, send_packet-Sends}

flood_from-Sends :
    (k : ℕ) (is : List Interface) (body : List ℕ) (r : Router) → Sends r (flood_from k is body r)
unfolding flood_from
flood_from-Sends k [] body r = Sends-refl r
flood_from-Sends k (i ∷ is) body r =
    Sends-trans r _ _
      (Sends-if _
        (send_packet-Sends r k i PacketType.lsu body all_spf_routers (omega arith, omega arith)))
      (flood_from-Sends (suc k) is body _)
  where
    Sends-if : {r r' : Router} (b : Bool) → Sends r r' → Sends r (if b then r' else r)
    Sends-if true h = h
    Sends-if {r} false h = Sends-refl r

flood_lsa-Sends : (r : Router) (lsa : Lsa) → Holds (Sends r) (flood_lsa r lsa)
unfolding flood_lsa
flood_lsa-Sends r lsa =
    Holds->>= (Sends r) (checked_body (produce_lsu (lsa ∷ []))) _
      (λ body e. flood_from-Sends 0 r.interfaces body r)

add_and_flood-Sends :
    (r r' : Router) (lsa : Lsa)
    → Sends r r'
    → Holds (Sends r) (add r'.lsdb lsa >>= λ db. flood_lsa (record r' { lsdb = db }) lsa)
add_and_flood-Sends r r' lsa h = Holds->>= (Sends r) (add r'.lsdb lsa) _ (λ db e.
    Holds-map (record r' { lsdb = db }) (flood_lsa (record r' { lsdb = db }) lsa)
      (Sends-trans r r' (record r' { lsdb = db }) h (Sends-same r' _ refl refl refl))
      (flood_lsa-Sends (record r' { lsdb = db }) lsa))
  where
    Holds-map :
        (r1 : Router) (res : Result Router)
        → Sends r r1
        → Holds (Sends r1) res
        → Holds (Sends r) res
    Holds-map r1 (fault reason) h h' = tt
    Holds-map r1 (ok r2) h h' = Sends-trans r r1 r2 h h'

next : Router → Router
next r = record r { lsa_seq_num = (r.lsa_seq_num + 1) % 18446744073709551616 }

next-Sends : (r : Router) → Sends r (next r)
unfolding next
next-Sends r = Sends-same r _ refl refl refl

make_router_lsa-Sends :
    (r : Router) → Holds (λ (x : RouterLsa × Router). Sends r x.1) (make_router_lsa r)
unfolding make_router_lsa next
make_router_lsa-Sends r =
    Holds->>= (λ (x : RouterLsa × Router). Sends r x.1) (router_links r.interfaces) _
      (λ links e.
        Holds->>= (λ (x : RouterLsa × Router). Sends r x.1)
          (router_make_checksum (record {
            header = own_header r LsaType.router r.router_id (24 + 12 * length links);
            flags = 0;
            num_links = length links % 65536;
            links = links;
          }))
          (λ lsa. ok (lsa, next r)) (λ lsa e'. next-Sends r))

make_network_lsa-Sends :
    (r : Router) (i : Interface)
    → Holds (λ (x : NetworkLsa × Router). Sends r x.1) (make_network_lsa r i)
unfolding make_network_lsa next
make_network_lsa-Sends r i =
    Holds->>= (λ (x : NetworkLsa × Router). Sends r x.1)
      (network_make_checksum (record {
        header = own_header r LsaType.network i.ip_addr (24 + 4 * length (full_ips i.neighbors));
        network_mask = i.mask;
        attached_routers = full_ips i.neighbors;
      }))
      (λ lsa. ok (lsa, next r)) (λ lsa e'. next-Sends r)

pub make_lsa_router-Sends : (r : Router) → Holds (Sends r) (make_lsa_router r)
unfolding make_lsa_router
make_lsa_router-Sends r = Holds->>= (Sends r) (make_router_lsa r) _ (λ (lsa, r') e.
    let h =
      Holds-ok (λ (x : RouterLsa × Router). Sends r x.1) (make_router_lsa r) (lsa, r')
        (make_router_lsa-Sends r) e in
    elim (get r.lsdb LsaType.router r.router_id r.router_id)
      as (λ o. Holds (Sends r) (elim o [
        | none ↦ ok (record r' {
          lsdb = record (r'.lsdb) { router_lsas = r'.lsdb.router_lsas ++ (lsa ∷ []) };
        })
        | some old ↦
            add r'.lsdb (router lsa) >>= λ db. flood_lsa (record r' { lsdb = db }) (router lsa)
      ])) [
        | none ↦ Sends-trans r r' _ h (Sends-same r' _ refl refl refl)
        | some old ↦ add_and_flood-Sends r r' (router lsa) h
      ])

pub make_lsa_network-Sends : (r : Router) (k : ℕ) → Holds (Sends r) (make_lsa_network r k)
unfolding make_lsa_network
make_lsa_network-Sends r k = Holds->>= (Sends r) (interface_at r k) _ (λ i e.
    Holds->>= (Sends r) (make_network_lsa r i) _ (λ (lsa, r') e'.
      let h =
        Holds-ok (λ (x : NetworkLsa × Router). Sends r x.1) (make_network_lsa r i) (lsa, r')
          (make_network_lsa-Sends r i) e' in
      elim (get r.lsdb LsaType.network i.ip_addr r.router_id)
        as (λ o. Holds (Sends r) (elim o [
          | none ↦ ok (record r' {
            lsdb = record (r'.lsdb) { network_lsas = r'.lsdb.network_lsas ++ (lsa ∷ []) };
          })
          | some old ↦
              add r'.lsdb (network lsa) >>= λ db. flood_lsa (record r' { lsdb = db }) (network lsa)
        ])) [
          | none ↦ Sends-trans r r' _ h (Sends-same r' _ refl refl refl)
          | some old ↦ add_and_flood-Sends r r' (network lsa) h
        ]))
