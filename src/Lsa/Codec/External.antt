-- ===== src/Lsa/Codec/External.antt =====
-- src/packet.hpp: the constructor of ASExternal that parses a buffer.
use ospfd_rfc.Base.{
  ℕ, ◌≡◌, refl, ◌⊎◌, inl, inr, false, List, [], ◌∷◌, ◌==◌, if◌then◌else◌, Result, ok, fault,
  out_of_bounds, ◌>>=◌, Bool-cases, arith,
}
use ospfd_rfc.Base.Bytes.{word24, word32}
use ospfd_rfc.Lsa.{Header, ExternRoute, AsExternalLsa}
use ospfd_rfc.Lsa.Codec.{get32, get_header}

-- The loop over the routes. Its condition compares the pointer with itself moved on by the LSA's
-- length, so it ends at once where the length is 0 and else runs on past the buffer.
unfoldable pub read_routes : ℕ → List ℕ → Result (List ExternRoute)
read_routes len (t ∷ m0 ∷ m1 ∷ m2 ∷ f0 ∷ f1 ∷ f2 ∷ f3 ∷ r0 ∷ r1 ∷ r2 ∷ r3 ∷ bytes) =
    let more = read_routes len bytes in
    let route : ExternRoute = record {
      tos = t;
      metric = word24 m0 m1 m2;
      forwarding_address = word32 f0 f1 f2 f3;
      external_router_tag = word32 r0 r1 r2 r3;
    } in
    if len == 0 then ok [] else (more >>= λ routes. ok (route ∷ routes))
read_routes len _ = if len == 0 then ok [] else fault out_of_bounds

unfoldable pub parse_as_external : List ℕ → Result AsExternalLsa
parse_as_external bytes = do
  (h, bytes) ← get_header bytes
  (network_mask, bytes) ← get32 bytes
  routes ← read_routes h.length bytes
  ok (record { header = h; network_mask = network_mask; routes = routes })

read_routes-zero : (bytes : List ℕ) → read_routes 0 bytes ≡ ok []
unfolding read_routes
read_routes-zero (t ∷ m0 ∷ m1 ∷ m2 ∷ f0 ∷ f1 ∷ f2 ∷ f3 ∷ r0 ∷ r1 ∷ r2 ∷ r3 ∷ bytes) = refl
read_routes-zero _ = refl

read_routes_fails :
    (len : ℕ) (bytes : List ℕ) → (len == 0) ≡ false → read_routes len bytes ≡ fault out_of_bounds
unfolding read_routes
read_routes_fails len (t ∷ m0 ∷ m1 ∷ m2 ∷ f0 ∷ f1 ∷ f2 ∷ f3 ∷ r0 ∷ r1 ∷ r2 ∷ r3 ∷ bytes) e =
    rw e (rw (read_routes_fails len bytes e) refl)
read_routes_fails len _ e = rw e refl

get_header_fails :
    (bytes : List ℕ)
    → ((x : Header × List ℕ) × (get_header bytes ≡ ok x)) ⊎ (get_header bytes ≡ fault out_of_bounds)
unfolding get_header
get_header_fails
      (a0 ∷ a1 ∷ b ∷ c ∷ d0 ∷ d1 ∷ d2 ∷ d3 ∷ e0 ∷ e1 ∷ e2 ∷ e3 ∷ f0 ∷ f1 ∷ f2 ∷ f3 ∷ g0 ∷ g1 ∷ h0
        ∷ h1 ∷ bytes) =
    inl (_, refl)
get_header_fails _ = inr refl

-- Whatever the buffer holds, the constructor either reads past its end, or the header states the
-- length 0 and the LSA has no routes: no AS external LSA that states its size is read.
pub parse_as_external_lem :
    (bytes : List ℕ)
    → (parse_as_external bytes ≡ fault out_of_bounds)
      ⊎ ((l : AsExternalLsa) × (parse_as_external bytes ≡ ok l)
          × (l.header.length ≡ 0)
          × (l.routes ≡ []))
unfolding parse_as_external
parse_as_external_lem bytes = elim (get_header_fails bytes) [
  | inr short ↦ inl (rw short refl)
  | inl ((h, []), e) ↦ inl (rw e refl)
  | inl ((h, a ∷ []), e) ↦ inl (rw e refl)
  | inl ((h, a ∷ b ∷ []), e) ↦ inl (rw e refl)
  | inl ((h, a ∷ b ∷ c ∷ []), e) ↦ inl (rw e refl)
  | inl ((h, a ∷ b ∷ c ∷ d ∷ body), e) ↦ elim (Bool-cases (h.length == 0)) [
    | inl nothing ↦
        let none_stated : h.length ≡ 0 = ground (arith, nothing) in
        inr (
          record { header = h; network_mask = word32 a b c d; routes = [] },
          rw e (rw none_stated (rw (read_routes-zero body) refl)),
          none_stated,
          refl,
        )
    | inr stated ↦ inl (rw e (rw (read_routes_fails h.length body stated) refl))
  ]
]
