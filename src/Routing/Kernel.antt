-- ===== src/Routing/Kernel.antt =====
-- src/route.cpp: update_kernel_route and reset_kernel_route. The kernel is a parameter: whether a call
-- succeeds, which may depend on all the calls before it.
pub mod Calls
use ospfd_rfc.Base.{
  ◌+◌, ℕ, ◌%◌, ◌/◌, Bool, true, false, not, List, [], ◌∷◌, ◌++◌, ◌==◌, if◌then◌else◌, Result, ok,
  ◌>>=◌,
}
use ospfd_rfc.Lsdb.{Lsdb}
use ospfd_rfc.Interface.{Interface}
use ospfd_rfc.Routing.{Entry, RoutingTable, Choices}
use ospfd_rfc.Routing.Table.{update_route}

-- The members of an rtentry that are set. The metric is a short, as its bit pattern; the device is
-- the place of the interface whose name it is.
pub record RtEntry : Type 0 where
  pub rt_dst : ℕ
  pub rt_genmask : ℕ
  pub rt_gateway : ℕ
  pub rt_metric : ℕ
  pub rt_flags : ℕ
  pub rt_dev : ℕ

-- SIOCADDRT and SIOCDELRT
pub data Call : Type 0 where
  add_route delete_route : RtEntry → Call

-- Whether a call succeeds after the calls before it.
pub record Kernel : Type 0 where
  pub accepts : List Call → Call → Bool

-- The member kernel_routes, and the calls that were made.
pub record KernelRoutes : Type 0 where
  pub kernel_routes : List RtEntry
  pub calls : List Call

-- RTF_UP and RTF_GATEWAY
abbrev pub rtf_up : ℕ
rtf_up = 1

abbrev pub rtf_gateway : ℕ
rtf_gateway = 2

-- The entry of the first loop: the flags stay 0 for a route over a gateway.
abbrev pub first_entry : Entry → RtEntry
first_entry e = record {
  rt_dst = e.dst;
  rt_genmask = e.mask;
  rt_gateway = e.next_hop;
  rt_metric = e.metric % 65536;
  rt_flags = if e.next_hop == 0 then rtf_up else 0;
  rt_dev = e.intf;
}

-- The entry of the second loop.
abbrev pub second_entry : Entry → RtEntry
second_entry e = record (first_entry e) { rt_flags = rtf_up + rtf_gateway }

-- The writing of an entry, which is kept if the kernel takes it.
unfoldable pub write_entry : Kernel → RtEntry → KernelRoutes → KernelRoutes
write_entry k e s = record {
  kernel_routes =
      if k.accepts s.calls (add_route e) then s.kernel_routes ++ (e ∷ []) else s.kernel_routes;
  calls = s.calls ++ (add_route e ∷ []);
}

unfoldable pub write_first : Kernel → List Entry → KernelRoutes → KernelRoutes
write_first k [] s = s
write_first k (e ∷ es) s = write_first k es (write_entry k (first_entry e) s)

unfoldable pub write_second : Kernel → List Entry → KernelRoutes → KernelRoutes
write_second k [] s = s
write_second k (e ∷ es) s =
    write_second k es (if e.next_hop == 0 then s else write_entry k (second_entry e) s)

unfoldable pub update_kernel_route : Kernel → List Entry → KernelRoutes → KernelRoutes
update_kernel_route k routes s = write_second k routes (write_first k routes s)

abbrev pub is_gateway : RtEntry → Bool
is_gateway e = e.rt_flags / 2 % 2 == 1

-- The loop of reset_kernel_route; an error is only printed.
unfoldable pub delete_entries : List RtEntry → List Call → List Call
delete_entries [] calls = calls
delete_entries (e ∷ es) calls =
    delete_entries es (if not (is_gateway e) then calls else calls ++ (delete_route e ∷ []))

unfoldable pub reset_kernel_route : KernelRoutes → KernelRoutes
reset_kernel_route s = record { kernel_routes = []; calls = delete_entries s.kernel_routes s.calls }

-- RoutingTable::update_route with its two calls for the kernel.
unfoldable pub update_route_kernel :
    Kernel
    → Choices
    → Lsdb
    → List Interface
    → RoutingTable
    → KernelRoutes
    → Result (RoutingTable × KernelRoutes)
update_route_kernel k c db interfaces table s = do
  let reset = reset_kernel_route s
  t ← update_route c db interfaces table
  ok (t, update_kernel_route k t.routes reset)
