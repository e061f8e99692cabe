-- ===== src/Lsa/Codec/Length.antt =====
-- `to_packet` fills exactly the `size()` bytes that its callers allot.
use ospfd_rfc.Base.{ℕ, ◌*◌, ◌≡◌, refl, List, [], ◌∷◌, length, arith}
use ospfd_rfc.Lsa.{Link, Lsa, router, network, summary, as_external, ExternRoute, lsa_size}
use ospfd_rfc.Lsa.Codec.{links_bytes, routers_bytes, routes_bytes, to_packet}

length-links_bytes : (ls : List Link) → length (links_bytes ls) ≡ 12 * length ls
unfolding links_bytes
length-links_bytes [] = refl
length-links_bytes (l ∷ ls) = omega (arith, length-links_bytes ls)

length-routers_bytes : (rs : List ℕ) → length (routers_bytes rs) ≡ 4 * length rs
unfolding routers_bytes
length-routers_bytes [] = refl
length-routers_bytes (r ∷ rs) = omega (arith, length-routers_bytes rs)

length-routes_bytes : (rs : List ExternRoute) → length (routes_bytes rs) ≡ 12 * length rs
unfolding routes_bytes
length-routes_bytes [] = refl
length-routes_bytes (r ∷ rs) = omega (arith, length-routes_bytes rs)

-- Each kind of LSA is written as exactly as many bytes as its `size` says.
pub length-to_packet : (l : Lsa) → length (to_packet l) ≡ lsa_size l
unfolding to_packet lsa_size
length-to_packet (router l) = omega (arith, length-links_bytes l.links)
length-to_packet (network l) = omega (arith, length-routers_bytes l.attached_routers)
length-to_packet (summary l) = omega arith
length-to_packet (as_external l) = omega (arith, length-routes_bytes l.routes)
