-- ===== src/Interface/Discovery.antt =====
-- src/interface.cpp: init_interfaces. What the operating system answers is a parameter: a list of
-- devices, each with its name and the results of the calls that are made for it.
pub mod Start
use Prim.Native.Nat.{bit_or}
use ospfd_rfc.Base.{
  ℕ, ◌≡◌, refl, Bool, true, false, ◌&&◌, ◌||◌, not, Option, none, some, List, [], ◌∷◌, All, map,
  ◌==◌, if◌then◌else◌, select, Result, ok, ◌>>=◌, Bool-cases, Option-cases, inl, inr, ap, arith,
}
use mathlib.Core.Option.{bind}
use ospfd_rfc.Neighbor.{broadcast}
use ospfd_rfc.Interface.{Interface, waiting, down, new_interface, event_interface_up, state_up}

-- An entry of SIOCGIFCONF, which has at most MAX_INTERFACE_NUM of them, and what comes of each call for it: none where the call fails.
pub record Device : Type 0 where
  pub name : List ℕ
  pub address : Option ℕ
  pub netmask : Option ℕ
  pub index : Option ℕ
  pub flags : Option ℕ
  pub takes_flags : ℕ → Bool
  pub send_socket : Option ℕ
  pub send_bound : Bool
  pub recv_socket : Option ℕ
  pub recv_bound : Bool

-- An interface with the members that only the operating system's calls use.
pub record Opened : Type 0 where
  pub interface : Interface
  pub name : List ℕ
  pub if_index : ℕ
  pub send_fd : ℕ
  pub recv_fd : ℕ

abbrev is_prefix : List ℕ → List ℕ → Bool
is_prefix [] cs = true
is_prefix (p ∷ ps) [] = false
is_prefix (p ∷ ps) (c ∷ cs) = p == c && is_prefix ps cs

-- strstr(name, part) != nullptr
unfoldable pub contains : List ℕ → List ℕ → Bool
contains part [] = is_prefix part []
contains part (c ∷ cs) = is_prefix part (c ∷ cs) || contains part cs

-- "lo" and "docker"
abbrev pub lo : List ℕ
lo = 108 ∷ 111 ∷ []

abbrev pub docker : List ℕ
docker = 100 ∷ 111 ∷ 99 ∷ 107 ∷ 101 ∷ 114 ∷ []

abbrev is_skipped : List ℕ → Bool
is_skipped name = contains lo name || contains docker name

-- IFF_PROMISC
abbrev pub iff_promisc : ℕ
iff_promisc = 256

abbrev guard : Bool → Option Opened → Option Opened
guard b o = if b then o else none

-- The body of the loop over the devices: none where it goes on with the next one.
unfoldable pub open_device : Device → Option Opened
open_device d =
    if is_skipped d.name
    then none
    else bind d.address (λ ip. bind d.netmask (λ mask. bind d.index (λ if_index.
      bind d.flags (λ flags. guard (d.takes_flags (bit_or flags iff_promisc)) (
        bind d.send_socket (λ send_fd. guard d.send_bound (
          bind d.recv_socket (λ recv_fd. guard d.recv_bound (
            some (record {
              interface = new_interface ip mask 0;
              name = d.name;
              if_index = if_index;
              send_fd = send_fd;
              recv_fd = recv_fd;
            }))))))))))

unfoldable pub open_devices : List Device → List Opened
open_devices [] = []
open_devices (d ∷ ds) = elim (open_device d) [
  | none ↦ open_devices ds
  | some o ↦ o ∷ open_devices ds
]

-- The second loop.
unfoldable pub bring_up : List Opened → Result (List Opened)
bring_up [] = ok []
bring_up (o ∷ os) = do
  i ← event_interface_up (record (o.interface) { hello_timer = 0; wait_timer = 0 })
  os' ← bring_up os
  ok (record o { interface = i } ∷ os')

-- The devices, or none where the socket or SIOCGIFCONF fails, which ends the program.
unfoldable pub init_interfaces : Option (List Device) → Result (Option (List Opened))
init_interfaces none = ok none
init_interfaces (some ds) = do os ← bring_up (open_devices ds); ok (some os)
