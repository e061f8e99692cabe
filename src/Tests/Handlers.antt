-- ===== src/Tests/Handlers.antt =====
-- A router with one neighbor, and packets of that neighbor.
use ospfd_rfc.Base.{
  ℕ, ◌≡◌, ◌≢◌, refl, inl, false, List, [], ◌∷◌, ◌++◌, map, ok, fault, null_dereference, arith,
}
use ospfd_rfc.Base.Bytes.{word16, word32, be16, be32}
use ospfd_rfc.Lsa.{router}
use ospfd_rfc.Lsdb.{get_router_lsa}
use ospfd_rfc.Neighbor.{Neighbor, Request, ex_start, full}
use ospfd_rfc.Interface.{get_neighbor_by_ip}
use ospfd_rfc.Packet.{OspfHeader, lsr_bytes, produce_lsu}
use ospfd_rfc.Packet.PacketType
use ospfd_rfc.Router.{Router, put_interface, put_neighbor, send_packet}
use ospfd_rfc.Router.Exchange.{Dd, get_dd, store, process_dd}
use ospfd_rfc.Router.Exchange.Negotiation.{
  FirstAnswer, enslaved, process_dd_slave, process_dd_master,
}
use ospfd_rfc.Router.Requests.{process_lsr}
use ospfd_rfc.Router.Requests.Answers.{process_lsr-lsr_bytes, process_lsr-Lacks}
use ospfd_rfc.Tests.Neighbor.{peer}
use ospfd_rfc.Tests.Interface.{lan}
use ospfd_rfc.Tests.Lsa.{router_lsa, network_lsa}
use ospfd_rfc.Tests.Router.{with_interface}

abbrev between : Neighbor → Router
between n = with_interface (lan (n ∷ []))

abbrev header : ℕ → OspfHeader
header len = record {
  version = 2;
  packet_type = 4;
  length = len;
  router_id = 33686018;
  area_id = 0;
  checksum = 0;
  auth_type = 0;
}

-- The first packet of a database exchange: no flags, sequence number 7.
abbrev dd_packet : List ℕ
dd_packet = be16 1500 ++ (2 ∷ 0 ∷ be32 7)

abbrev first_dd : Dd
first_dd = record {
  options = 2;
  init_flag = false;
  more_flag = false;
  master_flag = false;
  sequence_number = 7;
}

-- Neighbors with a higher and with a lower router id than 1.1.1.1.
abbrev higher : Neighbor
higher = record (peer ex_start) { id = 33686018 }

abbrev lower : Neighbor
lower = record (peer ex_start) { id = 5; dd_seq_num = 7 }

process_dd_slave_example :
    FirstAnswer
      (store (between higher) 0 (lan (higher ∷ [])) (enslaved (between higher) higher first_dd))
      0
      (put_neighbor (lan (higher ∷ [])) (enslaved (between higher) higher first_dd))
      (enslaved (between higher) higher first_dd)
      (process_dd (between higher) 0 (header 32) dd_packet 20)
process_dd_slave_example =
    process_dd_slave (between higher) 0 (lan (higher ∷ [])) higher (header 32) dd_packet [] first_dd
      refl (unfold get_neighbor_by_ip in refl) (unfold get_dd word16 word32 in refl) refl
      (omega arith) refl refl

process_dd_master_example :
    process_dd (between lower) 0 (header 32) dd_packet 20 ≡ fault null_dereference
process_dd_master_example =
    process_dd_master (between lower) 0 (lan (lower ∷ [])) lower (header 32) dd_packet [] first_dd
      refl (unfold get_neighbor_by_ip in refl) (unfold get_dd word16 word32 in refl) refl
      (omega arith) refl refl refl (omega arith) refl

-- A database with a router LSA, and requests for that and for a network LSA.
abbrev known : Router
known = record (between (peer full)) {
  lsdb = record {
    router_lsas = router_lsa 7 ∷ [];
    network_lsas = network_lsa 7 ∷ [];
    summary_lsas = [];
    asbr_summary_lsas = [];
    as_external_lsas = [];
    max_age = 3600;
    max_age_diff = 900;
  };
}

abbrev request : ℕ → ℕ → Request
request ls_type id = record { ls_type = ls_type; link_state_id = id; advertising_router = 16843009 }

process_lsr-lsr_bytes_example :
    process_lsr known 0 (header 36) (lsr_bytes (request 1 16843009 ∷ [])) 20
    ≡ ok (
        send_packet
          (put_interface known 0 (put_neighbor (lan (peer full ∷ [])) (peer full)))
          0
          (put_neighbor (lan (peer full ∷ [])) (peer full))
          PacketType.lsu
          (produce_lsu (map router (router_lsa 7 ∷ [])))
          20)
process_lsr-lsr_bytes_example =
    process_lsr-lsr_bytes known 0 (lan (peer full ∷ [])) (peer full) (header 36)
      (request 1 16843009 ∷ []) (router_lsa 7 ∷ []) 20 refl (unfold get_neighbor_by_ip in refl)
      (omega arith) (omega arith) (unfold get_router_lsa in (refl, tt)) refl
      (unfold produce_lsu in omega arith)

process_lsr-Lacks_example :
    process_lsr known 0 (header 36) (lsr_bytes (request 2 10 ∷ [])) 20 ≢ ok known
process_lsr-Lacks_example =
    process_lsr-Lacks known 0 (lan (peer full ∷ [])) (peer full) (header 36) (request 2 10 ∷ []) 20
      known refl (unfold get_neighbor_by_ip in refl) (omega arith) (omega arith)
      (inl (unfold get_router_lsa in refl)) refl
