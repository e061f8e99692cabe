-- ===== src/Lib.antt =====
-- An OSPFv2 router after RFC 2328, as a user space daemon: its link state database, its neighbor and
-- interface state machines with the election of the designated routers, the formats of its packets
-- and LSAs, and the handlers that tie them together.
--
-- Parts, and where they are modelled (paths from the repository's root):
--
-- Base         shared names, faults, lists and bytes. A run that ends in a failed assertion or in
--              undefined behaviour (a null pointer read through, a buffer overrun, a wrong downcast)
--              is a `fault` of the type Result.
-- Checksum     src/utils.hpp: fletcher16 for LSAs and crc_checksum for packets. 32-bit integers wrap,
--              an int32_t is its bit pattern, and the host is little-endian.
--              Checksum/Fletcher and Checksum/Crc take the receiver's side, and Checksum/Rfc1071 has
--              the sum of RFC 1071 beside that of the code.
-- Lsa          src/packet.hpp, namespace LSA: headers, router, network, summary and AS external LSAs,
--              size(), operator< and operator>. Lsa/Codec has the constructors that parse a buffer,
--              to_packet and make_checksum; Lsa/Codec/External the constructor of ASExternal. An
--              LSA::Base pointer is a value of the type Lsa: no code writes to an LSA after it is shared.
-- Lsdb         src/lsdb.hpp and src/lsdb.cpp: the class LSDB with its five lists, get, add and del.
--              Lsdb/Keys has the lemmas on lists that are searched by a header's key, Lsdb/Live what
--              `add` leaves allocated.
-- Neighbor     src/neighbor.hpp and src/neighbor.cpp: the class Neighbor, one function per event
--              (event_adj_ok for Neighbor::event_adj_ok and so on; of event_exchange_done and
--              event_loading_done, which Router/Events has whole, it has the state change as settle_exchange
--              and settle_loading). Neighbor/Machine puts the events
--              under one function, the change of the neighbor alone, and gives the table of their
--              transitions as a relation; Neighbor/Runs has sequences;
--              Neighbor/Sound what the router keeps of each neighbor.
-- Interface    src/interface.hpp and src/interface.cpp: the class Interface and the steps of
--              elect_designated_router (candidates, elect_bdr, elect_dr, adj_ok_all). The local `self`
--              of the election has members that the source never sets; they are those of the argument
--              `memory`, which may be anything. Interface/Discovery: init_interfaces. What the operating
--              system answers to its calls for a device is the parameter Device.
-- Packet       src/packet.hpp, namespace OSPF, and the produce_ functions and send_packet of
--              src/packet.cpp.
-- Routing      src/route.hpp and src/route.cpp: the class RoutingTable and lookup_route. Routing/Graph:
--              the graph that update_route makes of the database. Routing/Dijkstra: dijkstra.
--              Routing/Table: the inter-area part, the way back to the first hop, the routes, and
--              update_route. What the C++ standard leaves open, the order of an unordered_map and the
--              choice of a priority_queue among equals, is the parameter Choices, with what the
--              standard does say; Base/Maps has the maps.
--              Routing/Kernel: update_kernel_route and reset_kernel_route, with the kernel's answers as
--              the parameter Kernel. The handlers of Router refresh the table without these calls.
-- Router       the state that the handlers share (this_interfaces, this_lsdb, lsa_seq_num,
--              this_routing_table) and what was sent. Router/Originate: make_router_lsa,
--              make_network_lsa and LSDB::make_lsa of src/lsdb.cpp and flood_lsa of src/packet.cpp.
--              Router/Events: the events of interfaces and neighbors that also originate LSAs.
--              Router/Hello, Router/Exchange, Router/Requests and Router/Update: process_hello,
--              process_dd with produce_dd, process_lsr and process_lsu. Router/Loops:
--              src/transit.cpp, one round of send_loop with produce_lsr, and what recv_loop does
--              with a frame. Router/Store has the lemmas on what was written to a neighbor.
--              Router/Neighbors and Router/Keeps say what a step of the router leaves as it was, and
--              go through every handler.
-- System       the daemon as a whole: the start of src/main.cpp and the states that any frames and any
--              rounds of the timers reach from there, in any order. What uninitialised members hold
--              is open again in each step.
-- Tests        the theorems at concrete inputs.
--
-- How they interact: a Hello packet (Router/Hello) moves its sender by the events of Neighbor, and
-- raises events of the interface (Router/Events), which elect (Interface), adjust the adjacencies
-- (Neighbor), and originate the router's LSA (Router/Originate) into the database (Lsdb), with a
-- checksum (Checksum) over its packet form (Lsa/Codec), and flood it (Packet). The rounds of the timers
-- and the frames that come in (Router/Loops) call the handlers. When an exchange ends, the database is
-- made into a graph (Routing/Graph), shortest ways are looked for (Routing/Dijkstra), and the table of
-- routes is written (Routing/Table).
--
-- Bounds: the checksum theorems are for buffers of at most 1500 bytes, which is ETH_DATA_LEN, the
-- size of every buffer that a packet is built in. There every sum stays below 2 ^ 32. Most loops
-- are recursions on lists or on the number that a packet states. Two run on fuel. dijkstra has as
-- much as there are edges, and 2: each round takes a node from the heap, and each edge puts at most
-- one there. The way back to the first hop has as much as well, since each step back goes to a node
-- that was taken from the heap before, and each summary LSA comes with an edge. This is enough on the
-- database of one area. A loop that runs out of fuel ends in the fault `endless`. One area means that the database has the router's own LSA and no summary LSA, that the
-- links' metrics have 16 bits, and that the graph has at most 65534 edges, so that no sum wraps.
--
-- Not modelled: the mutexes and the interleaving of the two threads inside a handler, log output, what
-- the operating system does in its calls (sockets, ioctl, fork), the arguments, the daemon process and
-- the command loop of src/main.cpp, and process_lsack, which only asserts.
-- LSDB::del frees an LSA while other lists may still point to its header: here such a list holds the
-- header itself. The theorem on received updates therefore takes LSAs with different keys.
pub mod Base
pub mod Checksum
pub mod Lsa
pub mod Lsdb
pub mod Neighbor
pub mod Interface
pub mod Packet
pub mod Routing
pub mod Router
pub mod System
pub mod Tests
