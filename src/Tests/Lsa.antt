-- ===== src/Tests/Lsa.antt =====
-- LSAs of the three kinds that are read and written.
use ospfd_rfc.Base.{ℕ, ◌≡◌, [], ◌∷◌, ◌++◌, length, ok, arith}
use ospfd_rfc.Lsa.{Header, Link, RouterLsa, NetworkLsa, SummaryLsa, router, lsa_size}
use ospfd_rfc.Lsa.Codec.{to_packet}
use ospfd_rfc.Lsa.Codec.Length.{length-to_packet}
use ospfd_rfc.Router.Update.{parse_lsa}
use ospfd_rfc.Router.Update.RoundTrip.{parse_lsa-to_packet}

abbrev pub header_of : ℕ → ℕ → ℕ → Header
header_of ls_type seq len = record {
  age = 0;
  options = 2;
  ls_type = ls_type;
  link_state_id = 16843009;
  advertising_router = 16843009;
  sequence_number = seq;
  checksum = 4660;
  length = len;
}

abbrev stub : Link
stub = record { link_id = 3232235776; link_data = 4294967040; link_type = 3; tos = 0; metric = 1 }

abbrev pub router_lsa : ℕ → RouterLsa
router_lsa seq = record { header = header_of 1 seq 36; flags = 0; num_links = 1; links = stub ∷ [] }

abbrev pub network_lsa : ℕ → NetworkLsa
network_lsa seq = record {
  header = header_of 2 seq 32;
  network_mask = 4294967040;
  attached_routers = 16843009 ∷ 33686018 ∷ [];
}

abbrev summary_lsa : SummaryLsa
summary_lsa = record {
  header = header_of 3 2147483649 28;
  network_mask = 4294967040;
  tos = 0;
  metric = 70000;
}

length-to_packet_example :
    length (to_packet (router (router_lsa 7))) ≡ lsa_size (router (router_lsa 7))
length-to_packet_example = length-to_packet (router (router_lsa 7))

parse_lsa-to_packet_example :
    parse_lsa (to_packet (router (router_lsa 7)) ++ (1 ∷ [])) ≡ ok (router (router_lsa 7))
parse_lsa-to_packet_example = parse_lsa-to_packet (router (router_lsa 7)) (1 ∷ []) (ground arith)
