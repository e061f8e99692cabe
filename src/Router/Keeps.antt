-- ===== src/Router/Keeps.antt =====
-- What no step of the router changes, and how its neighbors may change: a preorder on its states.
pub mod Originate
pub mod Election
pub mod Events
pub mod Hello
pub mod Answers
pub mod Exchange
pub mod Loops
pub mod Receive
use ospfd_rfc.Base.{
  All, ◌≤◌, ℕ, zero, suc, ◌≡◌, refl, sym, ap, subst, ◌∙◌, inl, inr, Bool, true, false, Option, none,
  some, List, [], ◌∷◌, ◌++◌, All, map, ◌==◌, if◌then◌else◌, find, find-holds, get_elem?, set,
  Bool-cases, ok, null_dereference, from_option, from_option-ok, arith,
}
use mathlib.Core.Option.{some-injective}
use ospfd_rfc.Neighbor.{Neighbor, NetworkType}
use ospfd_rfc.Neighbor.Sound.{IsSound, ◌⟿◌, ⟿-refl, ⟿-trans}
use ospfd_rfc.Interface.{Interface, get_neighbor_by_ip}
use ospfd_rfc.Packet.{packet_bytes}
use ospfd_rfc.Router.{
  Sent, Router, interface_at, put_interface, put_neighbor, replace_neighbor, send_packet,
}
use ospfd_rfc.Router.Neighbors.{
  occurs, IsDistinct, ips, NeighborsKeep, NeighborsKeep-refl, NeighborsKeep-trans,
  NeighborsKeep-append, Config, config, InterfaceKeeps, InterfaceKeeps-refl, InterfaceKeeps-trans,
  InterfaceKeeps-same, InterfaceKeeps-put_neighbor, InterfaceKeeps-append, born, kept,
}

abbrev pub InterfacesKeep : List Interface → List Interface → Type 0
InterfacesKeep [] [] = Unit
InterfacesKeep [] (i' ∷ is') = ⊥
InterfacesKeep (i ∷ is) [] = ⊥
InterfacesKeep (i ∷ is) (i' ∷ is') = InterfaceKeeps i i' × InterfacesKeep is is'

-- An OSPF packet of one of the five types under this router's id.
abbrev pub IsOwn : ℕ → Sent → Type 0
IsOwn router_id s =
    (packet_type : ℕ) × (area_id : ℕ) × (body : List ℕ) × (s.packet
      ≡ packet_bytes packet_type router_id area_id body)
    × (1 ≤ packet_type)
    × (packet_type ≤ 5)

pub record Keeps (r r' : Router) : Type 0 where
  pub same_id : r.router_id ≡ r'.router_id
  pub interfaces_keep : InterfacesKeep r.interfaces r'.interfaces
  pub sent_more : (more : List Sent) × (r'.sent ≡ r.sent ++ more) × All (IsOwn r.router_id) more

InterfacesKeep-refl : (is : List Interface) → InterfacesKeep is is
InterfacesKeep-refl [] = tt
InterfacesKeep-refl (i ∷ is) = (InterfaceKeeps-refl i, InterfacesKeep-refl is)

InterfacesKeep-trans :
    (is1 is2 is3 : List Interface)
    → InterfacesKeep is1 is2
    → InterfacesKeep is2 is3
    → InterfacesKeep is1 is3
InterfacesKeep-trans [] [] [] a b = tt
InterfacesKeep-trans [] [] (i3 ∷ is3) a b = b
InterfacesKeep-trans [] (i2 ∷ is2) is3 a b = absurd a
InterfacesKeep-trans (i1 ∷ is1) [] is3 a b = absurd a
InterfacesKeep-trans (i1 ∷ is1) (i2 ∷ is2) [] a b = absurd b
InterfacesKeep-trans (i1 ∷ is1) (i2 ∷ is2) (i3 ∷ is3) (a, as') (b, bs) =
    (InterfaceKeeps-trans i1 i2 i3 a b, InterfacesKeep-trans is1 is2 is3 as' bs)

InterfacesKeep-set :
    (is : List Interface) (k : ℕ) (i i' : Interface)
    → get_elem? is k ≡ some i
    → InterfaceKeeps i i'
    → InterfacesKeep is (set is k i')
InterfacesKeep-set [] k i i' found h = tt
InterfacesKeep-set (j ∷ is) zero i i' found h = (
  subst (λ (x : Interface). InterfaceKeeps x i') (sym (some-injective j i found)) h,
  InterfacesKeep-refl is,
)
InterfacesKeep-set (j ∷ is) (suc k) i i' found h =
    (InterfaceKeeps-refl j, InterfacesKeep-set is k i i' found h)

append_none : (xs : List Sent) → xs ≡ xs ++ []
append_none [] = refl
append_none (x ∷ xs) = ap (λ (ys : List Sent). x ∷ ys) (append_none xs)

append_assoc : (xs ys zs : List Sent) → (xs ++ ys) ++ zs ≡ xs ++ (ys ++ zs)
append_assoc [] ys zs = refl
append_assoc (x ∷ xs) ys zs = ap (λ (rest : List Sent). x ∷ rest) (append_assoc xs ys zs)

All-append : (P : Sent → Type 0) (xs ys : List Sent) → All P xs → All P ys → All P (xs ++ ys)
All-append P [] ys h hs = hs
All-append P (x ∷ xs) ys (h, hs) hs' = (h, All-append P xs ys hs hs')

-- What is sent in two steps.
both_sent :
    (r1 r2 r3 : Router)
    → r1.router_id ≡ r2.router_id
    → ((more : List Sent) × (r2.sent ≡ r1.sent ++ more) × All (IsOwn r1.router_id) more)
    → ((more : List Sent) × (r3.sent ≡ r2.sent ++ more) × All (IsOwn r2.router_id) more)
    → (more : List Sent) × (r3.sent ≡ r1.sent ++ more) × All (IsOwn r1.router_id) more
both_sent r1 r2 r3 same (more, first, own) (more', then', own') = (
  more ++ more',
  then' ∙ ap (λ (x : List Sent). x ++ more') first ∙ append_assoc r1.sent more more',
  All-append (IsOwn r1.router_id) more more' own
      (subst (λ (id : ℕ). All (IsOwn id) more') (sym same) own'),
)

pub Keeps-trans : (r1 r2 r3 : Router) → Keeps r1 r2 → Keeps r2 r3 → Keeps r1 r3
Keeps-trans r1 r2 r3 a b = record {
  same_id = a.same_id ∙ b.same_id;
  interfaces_keep =
      InterfacesKeep-trans r1.interfaces r2.interfaces r3.interfaces a.interfaces_keep
        b.interfaces_keep;
  sent_more = both_sent r1 r2 r3 a.same_id a.sent_more b.sent_more;
}

-- Nothing but the database, the sequence number, the table and what was sent may be new.
pub record Sends (r r' : Router) : Type 0 where
  pub same_id : r.router_id ≡ r'.router_id
  pub same_interfaces : r.interfaces ≡ r'.interfaces
  pub sent_more : (more : List Sent) × (r'.sent ≡ r.sent ++ more) × All (IsOwn r.router_id) more

pub Sends-Keeps : (r r' : Router) → Sends r r' → Keeps r r'
Sends-Keeps r r' h = record {
  same_id = h.same_id;
  interfaces_keep =
      subst (InterfacesKeep r.interfaces) h.same_interfaces (InterfacesKeep-refl r.interfaces);
  sent_more = h.sent_more;
}

pub Sends-trans : (r1 r2 r3 : Router) → Sends r1 r2 → Sends r2 r3 → Sends r1 r3
Sends-trans r1 r2 r3 a b = record {
  same_id = a.same_id ∙ b.same_id;
  same_interfaces = a.same_interfaces ∙ b.same_interfaces;
  sent_more = both_sent r1 r2 r3 a.same_id a.sent_more b.sent_more;
}

-- The same router but for members that the relation leaves free.
pub Sends-same :
    (r r' : Router)
    → r.router_id ≡ r'.router_id
    → r.interfaces ≡ r'.interfaces
    → r.sent ≡ r'.sent
    → Sends r r'
Sends-same r r' same_id same_interfaces same_sent = record {
  same_id = same_id;
  same_interfaces = same_interfaces;
  sent_more = ([], sym same_sent ∙ append_none r.sent, tt);
}

pub Sends-refl : (r : Router) → Sends r r
Sends-refl r = Sends-same r r refl refl refl

pub Keeps-refl : (r : Router) → Keeps r r
Keeps-refl r = Sends-Keeps r r (Sends-refl r)

pub send_packet-Sends :
    (r : Router) (k : ℕ) (i : Interface) (packet_type : ℕ) (body : List ℕ) (dst : ℕ)
    → (1 ≤ packet_type) × (packet_type ≤ 5)
    → Sends r (send_packet r k i packet_type body dst)
unfolding send_packet
send_packet-Sends r k i packet_type body dst (low, high) = record {
  same_id = refl;
  same_interfaces = refl;
  sent_more = (_, refl, ((packet_type, i.area_id, body, refl, low, high), tt));
}

-- An interface that was read is written back.
pub put_interface-Keeps :
    (r : Router) (k : ℕ) (i i' : Interface)
    → interface_at r k ≡ ok i
    → InterfaceKeeps i i'
    → Keeps r (put_interface r k i')
put_interface-Keeps r k i i' at_k h = record {
  same_id = refl;
  interfaces_keep =
      InterfacesKeep-set r.interfaces k i i'
        (from_option-ok null_dereference (get_elem? r.interfaces k) i at_k) h;
  sent_more = ([], append_none r.sent, tt);
}
