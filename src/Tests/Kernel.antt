-- ===== src/Tests/Kernel.antt =====
-- The kernel's routes behind a refresh of the table, and an AS external LSA.
use ospfd_rfc.Base.{
  ℕ, ◌≡◌, refl, ◌⊎◌, true, List, [], ◌∷◌, ◌++◌, map, select, All, ok, fault, out_of_bounds, ◌==◌,
  ◌/◌, ◌%◌, if◌then◌else◌,
}
use ospfd_rfc.Lsa.{AsExternalLsa}
use ospfd_rfc.Lsa.Codec.External.{parse_as_external, parse_as_external_lem}
use ospfd_rfc.Routing.{new_table}
use ospfd_rfc.Routing.Table.{update_route}
use ospfd_rfc.Routing.Kernel.{
  add_route, delete_route, Kernel, KernelRoutes, update_kernel_route, reset_kernel_route,
  update_route_kernel,
}
use ospfd_rfc.Routing.Kernel.Calls.{is_indirect, entry_of, IsFor, update_route_kernel_lem}
use ospfd_rfc.Tests.Choices.{in_order}
use ospfd_rfc.Tests.Routing.{two_routers, line_interface, updated, updated_is}

-- A kernel that takes everything.
abbrev willing : Kernel
willing = record { accepts = λ calls call. true }

-- What an earlier refresh has left.
abbrev left_over : KernelRoutes
left_over = record {
  kernel_routes =
      record {
        rt_dst = 64;
        rt_genmask = 0;
        rt_gateway = 20;
        rt_metric = 1;
        rt_flags = 3;
        rt_dev = 0;
      }
      ∷ [];
  calls = [];
}

abbrev refreshed : KernelRoutes
refreshed = update_kernel_route willing updated.routes (reset_kernel_route left_over)

refreshed_is :
    update_route_kernel willing in_order two_routers (line_interface ∷ []) (new_table 1) left_over
    ≡ ok (updated, refreshed)
unfolding update_route_kernel
refreshed_is = rw updated_is refl

update_route_kernel_lem_example :
    (update_route in_order two_routers (line_interface ∷ []) (new_table 1) ≡ ok updated)
    × (refreshed.calls
        ≡ ((left_over.calls
              ++ map delete_route (select (λ x. x.rt_flags / 2 % 2 == 1) left_over.kernel_routes))
            ++ map (λ e. add_route (entry_of (if e.next_hop == 0 then 1 else 0) e)) updated.routes)
          ++ map (λ e. add_route (entry_of 3 e)) (select is_indirect updated.routes))
    × All (IsFor updated.routes) refreshed.kernel_routes
update_route_kernel_lem_example =
    update_route_kernel_lem willing in_order two_routers (line_interface ∷ []) (new_table 1) updated
      left_over refreshed refreshed_is

-- A header that states 36 bytes, a mask and a route of 12 bytes.
abbrev external_bytes : List ℕ
external_bytes =
    (0 ∷ 1 ∷ 2 ∷ 5 ∷ 10 ∷ 0 ∷ 0 ∷ 0 ∷ 1 ∷ 1 ∷ [])
    ++ (1 ∷ 1 ∷ 128 ∷ 0 ∷ 0 ∷ 1 ∷ 0 ∷ 0 ∷ 0 ∷ 36 ∷ [])
    ++ (255 ∷ 0 ∷ 0 ∷ 0 ∷ 128 ∷ 0 ∷ 0 ∷ 20 ∷ 0 ∷ 0 ∷ [])
    ++ (0 ∷ 0 ∷ 0 ∷ 0 ∷ 0 ∷ 0 ∷ [])

parse_as_external_lem_example :
    (parse_as_external external_bytes ≡ fault out_of_bounds)
    ⊎ ((l : AsExternalLsa) × (parse_as_external external_bytes ≡ ok l)
        × (l.header.length ≡ 0)
        × (l.routes ≡ []))
parse_as_external_lem_example = parse_as_external_lem external_bytes
