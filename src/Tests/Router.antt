-- ===== src/Tests/Router.antt =====
-- A router with one interface.
use ospfd_rfc.Base.{
  ℕ, ◌+◌, ◌%◌, ◌≡◌, refl, inr, inl, some, List, [], ◌∷◌, ◌++◌, length, ok, fault, assertion_failed,
  null_dereference, arith,
}
use ospfd_rfc.Base.Bytes.{word16, word32, be16, be32}
use ospfd_rfc.Lsa.{RouterLsa, router}
use ospfd_rfc.Lsdb.{empty, get}
use ospfd_rfc.Neighbor.{new_neighbor}
use ospfd_rfc.Interface.{Interface, point2point, dr, get_neighbor_by_ip}
use ospfd_rfc.Packet.{OspfHeader, Hello, get_hello}
use ospfd_rfc.Routing.{new_table}
use ospfd_rfc.Router.{Router}
use ospfd_rfc.Router.Originate.{make_lsa_router}
use ospfd_rfc.Router.Originate.Facts.{count_up, originate_unknown_dr, make_lsa_router_first}
use ospfd_rfc.Router.Hello.{lists_router, process_hello}
use ospfd_rfc.Router.Hello.Facts.{process_hello_waiting}
use ospfd_rfc.Tests.Neighbor.{blank}
use ospfd_rfc.Tests.Interface.{lan}

-- The router 1.1.1.1.
abbrev pub with_interface : Interface → Router
with_interface i = record {
  router_id = 16843009;
  interfaces = i ∷ [];
  lsdb = empty;
  lsa_seq_num = 2147483649;
  sent = [];
  routing = new_table 16843009;
  memory = blank;
}

abbrev dr_interface : Interface
dr_interface = record (lan []) { state = dr; designated_router = 10 }

make_lsa_router_first_example :
    let r = with_interface dr_interface in
    (r' : Router) × (lsa : RouterLsa) × (make_lsa_router r ≡ ok r')
    × (get r'.lsdb 1 r.router_id r.router_id ≡ some (router lsa))
    × (length lsa.links ≡ count_up r.interfaces)
    × (lsa.header.sequence_number ≡ r.lsa_seq_num % 4294967296)
    × (r'.lsa_seq_num ≡ (r.lsa_seq_num + 1) % 18446744073709551616)
    × (r'.sent ≡ r.sent)
make_lsa_router_first_example =
    make_lsa_router_first (with_interface dr_interface) (unfold get empty in refl)
      (inr (inr (inl refl)), tt) (omega arith)

abbrev p2p_interface : Interface
p2p_interface = record (lan []) { state = point2point }

originate_unknown_dr_example :
    make_lsa_router (with_interface p2p_interface) ≡ fault null_dereference
originate_unknown_dr_example =
    originate_unknown_dr (with_interface p2p_interface) [] [] p2p_interface refl (omega arith)
      (omega arith) (omega arith) (unfold get_neighbor_by_ip in refl)

abbrev ospf_header : ℕ → OspfHeader
ospf_header len = record {
  version = 2;
  packet_type = 1;
  length = len;
  router_id = 33686018;
  area_id = 0;
  checksum = 0;
  auth_type = 0;
}

-- A Hello of the neighbor with the address 20, which declares itself DR and names 30 as BDR, and then
-- lists `attached`.
abbrev hello_bytes : List ℕ → List ℕ
hello_bytes attached =
    be32 4294967040 ++ (be16 10 ++ (2 ∷ 1 ∷ (be32 40 ++ (be32 20 ++ (be32 30 ++ attached)))))

abbrev hello : Hello
hello = record {
  network_mask = 4294967040;
  hello_interval = 10;
  options = 2;
  router_priority = 1;
  router_dead_interval = 40;
  designated_router = 20;
  backup_designated_router = 30;
}

process_hello_waiting_example :
    process_hello (with_interface (lan [])) 0 (ospf_header 48) (hello_bytes (be32 16843009)) 20
    ≡ fault assertion_failed
process_hello_waiting_example =
    process_hello_waiting (with_interface (lan [])) 0 (lan []) (ospf_header 48)
      (hello_bytes (be32 16843009)) (be32 16843009) hello 20 refl
      (unfold get_hello word16 word32 in refl) (unfold lists_router word32 in refl) refl refl
      (omega arith) (unfold get_neighbor_by_ip new_neighbor in omega arith)
