-- ===== src/Interface/Discovery/Start.antt =====
-- init_interfaces: which devices become interfaces, and in which state.
use Prim.Native.Nat.{bit_or}
use ospfd_rfc.Base.{
  ℕ, ◌≡◌, refl, true, false, some, List, [], ◌∷◌, All, ok, Option-cases, inl, inr, ap, sym, ◌∙◌,
  arith,
}
use mathlib.Core.Option.{bind}
use mathlib.Core.Option.{none-ne-some}
use ospfd_rfc.Neighbor.{broadcast}
use ospfd_rfc.Interface.{Interface, waiting, down, new_interface, event_interface_up}
use ospfd_rfc.Interface.Discovery.{
  Device, Opened, contains, lo, docker, iff_promisc, open_device, open_devices, bring_up,
  init_interfaces,
}

-- Every call for the device succeeds, and this is the interface.
pub record Opens (d : Device) (o : Opened) : Type 0 where
  pub no_lo : contains lo d.name ≡ false
  pub no_docker : contains docker d.name ≡ false
  pub address_is : d.address ≡ some o.interface.ip_addr
  pub netmask_is : d.netmask ≡ some o.interface.mask
  pub index_is : d.index ≡ some o.if_index
  pub promisc :
      (flags : ℕ) × (d.flags ≡ some flags) × (d.takes_flags (bit_or flags iff_promisc) ≡ true)
  pub send_is : d.send_socket ≡ some o.send_fd
  pub send_bound_is : d.send_bound ≡ true
  pub recv_is : d.recv_socket ≡ some o.recv_fd
  pub recv_bound_is : d.recv_bound ≡ true
  pub name_is : d.name ≡ o.name
  pub starts :
      o.interface
      ≡ record (new_interface o.interface.ip_addr o.interface.mask 0) { state = waiting }

-- The interfaces of the devices that open, in the devices' order.
pub data OpenedFrom : List Device → List Opened → Type 0 where
  no_more : OpenedFrom [] []
  opens :
      {d : Device} {o : Opened} {ds : List Device} {os : List Opened}
      → Opens d o
      → OpenedFrom ds os
      → OpenedFrom (d ∷ ds) (o ∷ os)
  left_out :
      {d : Device} {ds : List Device} {os : List Opened}
      → ¬ ((o : Opened) × Opens d o)
      → OpenedFrom ds os
      → OpenedFrom (d ∷ ds) os

abbrev up : Opened → Opened
up o = record o {
  interface = record (o.interface) { hello_timer = 0; wait_timer = 0; state = waiting };
}

open_device-Opens : (d : Device) (o : Opened) → open_device d ≡ some o → Opens d (up o)
unfolding open_device bind new_interface
open_device-Opens d o e = record {
  no_lo = ground arith;
  no_docker = ground arith;
  address_is = ground arith;
  netmask_is = ground arith;
  index_is = ground arith;
  promisc = elim (Option-cases d.flags) [
    | inl n ↦ absurd (ground arith)
    | inr (f, ef) ↦ (f, ef, ground arith)
  ];
  send_is = ground arith;
  send_bound_is = ground arith;
  recv_is = ground arith;
  recv_bound_is = ground arith;
  name_is = ground arith;
  starts = ground arith;
}

Opens-open_device :
    (d : Device) (o : Opened) → Opens d o → (o' : Opened) × (open_device d ≡ some o')
unfolding open_device bind
Opens-open_device d o h =
    let (flags, flags_are, taken) = h.promisc in
    (
      record {
        interface = new_interface o.interface.ip_addr o.interface.mask 0;
        name = d.name;
        if_index = o.if_index;
        send_fd = o.send_fd;
        recv_fd = o.recv_fd;
      },
      rw h.no_lo (
          rw h.no_docker (
            rw h.address_is (
              rw h.netmask_is (
                rw h.index_is (
                  rw flags_are (
                    rw taken (
                      rw h.send_is
                        (rw h.send_bound_is (rw h.recv_is (rw h.recv_bound_is refl)))))))))),
    )

up_lem :
    (d : Device) (o : Opened)
    → open_device d ≡ some o
    → event_interface_up (record (o.interface) { hello_timer = 0; wait_timer = 0 })
      ≡ ok (up o).interface
unfolding open_device bind new_interface event_interface_up
up_lem d o e =
    let is_down : o.interface.state ≡ down = ground arith in
    let is_broadcast : o.interface.network_type ≡ broadcast = ground arith in
    rw is_down (rw is_broadcast refl)

all_started :
    (ds : List Device)
    → (os : List Opened) × (bring_up (open_devices ds) ≡ ok os) × OpenedFrom ds os
unfolding open_devices bring_up
all_started [] = ([], refl, no_more)
all_started (d ∷ ds) =
    let (os, started, from) = all_started ds in
    elim (Option-cases (open_device d)) [
      | inl missing ↦ (
        os,
        rw (missing, open_devices) started,
        left_out
            (λ (o, h).
              let (o', e) = Opens-open_device d o h in absurd (none-ne-some o' (sym missing ∙ e)))
            from,
      )
      | inr (o, e) ↦ (
        up o ∷ os,
        rw (e, open_devices) (rw (up_lem d o e) (rw started refl)),
        opens (open_device-Opens d o e) from,
      )
    ]

-- The start never fails an assertion. Exactly the devices whose name has neither "lo" nor "docker" in
-- it, and for which no call fails, become interfaces, in the order in which the system lists them,
-- each with its own address, mask and sockets; each waits, has no neighbors and no designated routers,
-- and its timers are at 0.
pub init_interfaces-OpenedFrom :
    (ds : List Device)
    → (os : List Opened) × (init_interfaces (some ds) ≡ ok (some os)) × OpenedFrom ds os
unfolding init_interfaces
init_interfaces-OpenedFrom ds =
    let (os, started, from) = all_started ds in (os, rw started refl, from)

-- When the program starts, nobody is a neighbor, and every interface waits.
abbrev pub IsFresh : Opened → Type 0
IsFresh o = (o.interface.neighbors ≡ []) × (o.interface.state ≡ waiting)

pub OpenedFrom-IsFresh : (ds : List Device) (os : List Opened) → OpenedFrom ds os → All IsFresh os
unfolding new_interface
OpenedFrom-IsFresh [] os no_more = tt
OpenedFrom-IsFresh (d ∷ ds) os (opens {o} h from) = (fresh o h, OpenedFrom-IsFresh ds _ from)
  where
    fresh : (o : Opened) → Opens d o → IsFresh o
    fresh o h =
        (ap (λ (i : Interface). i.neighbors) h.starts, ap (λ (i : Interface). i.state) h.starts)
OpenedFrom-IsFresh (d ∷ ds) os (left_out closed from) = OpenedFrom-IsFresh ds os from
