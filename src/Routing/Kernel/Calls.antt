-- ===== src/Routing/Kernel/Calls.antt =====
-- What the kernel is asked for, and what is kept of it.
use ospfd_rfc.Base.{
  ◌≡◌, ◌≢◌, refl, ap, subst, ◌∙◌, ◌⊎◌, inl, inr, Bool, true, false, not, List, [], ◌∷◌, ◌++◌, map,
  select, All, ◌==◌, if◌then◌else◌, ok, ok-injective, >>=-eq-ok, Bool-cases, ℕ, ◌%◌, ◌/◌, arith,
}
use ospfd_rfc.Lsdb.{Lsdb}
use ospfd_rfc.Interface.{Interface}
use ospfd_rfc.Routing.{Entry, RoutingTable, Choices}
use ospfd_rfc.Routing.Table.{update_route}
use ospfd_rfc.Routing.Kernel.{
  RtEntry, Call, add_route, delete_route, Kernel, KernelRoutes, first_entry, second_entry,
  write_entry, write_first, write_second, update_kernel_route, is_gateway, delete_entries,
  reset_kernel_route, update_route_kernel,
}

append_assoc : (xs ys zs : List Call) → (xs ++ ys) ++ zs ≡ xs ++ (ys ++ zs)
append_assoc [] ys zs = refl
append_assoc (x ∷ xs) ys zs = ap (λ (rest : List Call). x ∷ rest) (append_assoc xs ys zs)

append_none : (xs : List Call) → xs ≡ xs ++ []
append_none [] = refl
append_none (x ∷ xs) = ap (λ (ys : List Call). x ∷ ys) (append_none xs)

abbrev pub is_indirect : Entry → Bool
is_indirect e = not (e.next_hop == 0)

-- The entry of a route with these flags: its network, its gateway, its metric in a short, its device.
abbrev pub entry_of : ℕ → Entry → RtEntry
entry_of flags e = record {
  rt_dst = e.dst;
  rt_genmask = e.mask;
  rt_gateway = e.next_hop;
  rt_metric = e.metric % 65536;
  rt_flags = flags;
  rt_dev = e.intf;
}

write_first-calls :
    (k : Kernel) (es : List Entry) (s : KernelRoutes)
    → (write_first k es s).calls ≡ s.calls ++ map (λ e. add_route (first_entry e)) es
unfolding write_first write_entry
write_first-calls k [] s = append_none s.calls
write_first-calls k (e ∷ es) s =
    write_first-calls k es (write_entry k (first_entry e) s)
    ∙ append_assoc s.calls (add_route (first_entry e) ∷ [])
        (map (λ e. add_route (first_entry e)) es)

write_second-calls :
    (k : Kernel) (es : List Entry) (s : KernelRoutes)
    → (write_second k es s).calls
      ≡ s.calls ++ map (λ e. add_route (second_entry e)) (select is_indirect es)
unfolding write_second write_entry
write_second-calls k [] s = append_none s.calls
write_second-calls k (e ∷ es) s = elim (Bool-cases (e.next_hop == 0)) [
  | inl direct ↦ rw (direct, write_second) (write_second-calls k es s)
  | inr indirect ↦
      rw (indirect, write_second)
        (write_second-calls k es (write_entry k (second_entry e) s)
          ∙ append_assoc s.calls (add_route (second_entry e) ∷ [])
              (map (λ e. add_route (second_entry e)) (select is_indirect es)))
]

delete_entries-select :
    (es : List RtEntry) (calls : List Call)
    → delete_entries es calls ≡ calls ++ map delete_route (select is_gateway es)
unfolding delete_entries
delete_entries-select [] calls = append_none calls
delete_entries-select (e ∷ es) calls = elim (Bool-cases (is_gateway e)) [
  | inl gateway ↦ rw gateway (
      delete_entries-select es (calls ++ (delete_route e ∷ []))
      ∙ append_assoc calls (delete_route e ∷ []) (map delete_route (select is_gateway es)))
  | inr direct ↦ rw direct (delete_entries-select es calls)
]

All-append :
    (P : RtEntry → Type 0) (xs : List RtEntry) (x : RtEntry)
    → All P xs
    → P x
    → All P (xs ++ (x ∷ []))
All-append P [] x h hx = (hx, tt)
All-append P (y ∷ xs) x (h, hs) hx = (h, All-append P xs x hs hx)

module _ (P : RtEntry → Type 0) (k : Kernel) where
  All-write_entry :
      (e : RtEntry) (s : KernelRoutes)
      → All P s.kernel_routes
      → P e
      → All P (write_entry k e s).kernel_routes
  unfolding write_entry
  All-write_entry e s h he = elim (Bool-cases (k.accepts s.calls (add_route e))) [
    | inl taken ↦ rw (taken, write_entry) (All-append P s.kernel_routes e h he)
    | inr refused ↦ rw (refused, write_entry) h
  ]

  All-write_first :
      (es : List Entry) (s : KernelRoutes)
      → All P s.kernel_routes
      → All (λ e. P (first_entry e)) es
      → All P (write_first k es s).kernel_routes
  unfolding write_first
  All-write_first [] s h hs = h
  All-write_first (e ∷ es) s h (he, hs) =
      All-write_first es (write_entry k (first_entry e) s) (All-write_entry (first_entry e) s h he)
        hs

  All-write_second :
      (es : List Entry) (s : KernelRoutes)
      → All P s.kernel_routes
      → All (λ e. (e.next_hop ≡ 0) ⊎ P (second_entry e)) es
      → All P (write_second k es s).kernel_routes
  unfolding write_second
  All-write_second [] s h hs = h
  All-write_second (e ∷ es) s h (he, hs) =
      All-write_second es (if e.next_hop == 0 then s else write_entry k (second_entry e) s)
        (elim he [ inl direct ↦ rw direct h | inr made ↦ by_hop (e.next_hop == 0) made ]) hs
    where
      by_hop :
          (b : Bool)
          → P (second_entry e)
          → All P (if b then s else write_entry k (second_entry e) s).kernel_routes
      by_hop true made = h
      by_hop false made = All-write_entry (second_entry e) s h made

-- An entry that one of the two loops made for one of the routes: with RTF_UP alone for a direct route,
-- with no flag for a route over a gateway, and then with RTF_UP and RTF_GATEWAY for the latter.
abbrev pub IsFor : List Entry → RtEntry → Type 0
IsFor [] x = ⊥
IsFor (e ∷ es) x =
    (x ≡ entry_of (if e.next_hop == 0 then 1 else 0) e)
    ⊎ ((e.next_hop ≢ 0) × (x ≡ entry_of 3 e) ⊎ IsFor es x)

All-first :
    (all es : List Entry)
    → ((x : RtEntry) → IsFor es x → IsFor all x)
    → All (λ e. IsFor all (first_entry e)) es
All-first all [] into = tt
All-first all (e ∷ es) into =
    (into (first_entry e) (inl refl), All-first all es (λ x h. into x (inr (inr h))))

All-second :
    (all es : List Entry)
    → ((x : RtEntry) → IsFor es x → IsFor all x)
    → All (λ e. (e.next_hop ≡ 0) ⊎ IsFor all (second_entry e)) es
All-second all [] into = tt
All-second all (e ∷ es) into = (
  elim (Bool-cases (e.next_hop == 0)) [
    | inl direct ↦ inl (ground arith)
    | inr indirect ↦ inr (into (second_entry e) (inr (inl (ground arith, refl))))
  ],
  All-second all es (λ x h. into x (inr (inr h))),
)

-- A refresh of the routes that succeeds asks the kernel first to delete what it took before with
-- RTF_GATEWAY (2) set, and nothing else; then to add every route of the new table with its network,
-- mask, gateway, metric modulo 2^16 and device, with the flag RTF_UP (1) for a direct route and no flag
-- at all for one over a gateway; and then to add the routes over a gateway once more, the same but with
-- the flags RTF_UP and RTF_GATEWAY (3), whatever the kernel answers. What is kept for the next refresh
-- are such entries for routes of the new table.
pub update_route_kernel_lem :
    (k : Kernel) (c : Choices) (db : Lsdb) (interfaces : List Interface) (table t : RoutingTable)
    (s s' : KernelRoutes)
    → update_route_kernel k c db interfaces table s ≡ ok (t, s')
    → (update_route c db interfaces table ≡ ok t)
      × (s'.calls
          ≡ ((s.calls ++ map delete_route (select (λ x. x.rt_flags / 2 % 2 == 1) s.kernel_routes))
              ++ map (λ e. add_route (entry_of (if e.next_hop == 0 then 1 else 0) e)) t.routes)
            ++ map (λ e. add_route (entry_of 3 e)) (select is_indirect t.routes))
      × All (IsFor t.routes) s'.kernel_routes
unfolding update_route_kernel update_kernel_route reset_kernel_route
update_route_kernel_lem k c db interfaces table t s s' e =
    let (t1, updated, e') = >>=-eq-ok (update_route c db interfaces table) _ e in
    subst
      (λ (x : RoutingTable × KernelRoutes).
        (update_route c db interfaces table ≡ ok x.0)
        × (x.1.calls ≡ asked x.0.routes)
        × All (IsFor x.0.routes) x.1.kernel_routes)
      (ok-injective e') (updated, asks t1.routes, keeps t1.routes)
  where
    reset : KernelRoutes
    reset = reset_kernel_route s

    asked : List Entry → List Call
    asked es =
        ((s.calls ++ map delete_route (select (λ x. x.rt_flags / 2 % 2 == 1) s.kernel_routes))
          ++ map (λ e. add_route (entry_of (if e.next_hop == 0 then 1 else 0) e)) es)
        ++ map (λ e. add_route (entry_of 3 e)) (select is_indirect es)

    asks : (es : List Entry) → (update_kernel_route k es reset).calls ≡ asked es
    asks es =
        write_second-calls k es (write_first k es reset)
        ∙ ap (λ (x : List Call). x ++ map (λ e. add_route (entry_of 3 e)) (select is_indirect es))
            (write_first-calls k es reset
              ∙ ap
                  (λ (x : List Call).
                    x ++ map (λ e. add_route (entry_of (if e.next_hop == 0 then 1 else 0) e)) es)
                  (delete_entries-select s.kernel_routes s.calls))

    keeps : (es : List Entry) → All (IsFor es) (update_kernel_route k es reset).kernel_routes
    keeps es =
        All-write_second (IsFor es) k es (write_first k es reset)
          (All-write_first (IsFor es) k es reset tt (All-first es es (λ x h. h)))
          (All-second es es (λ x h. h))
