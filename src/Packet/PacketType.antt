-- ===== src/Packet/PacketType.antt =====
-- src/packet.hpp: OSPF::Type, a byte on the wire.
use ospfd_rfc.Base.{ℕ}

abbrev pub hello : ℕ
hello = 1

abbrev pub dd : ℕ
dd = 2

abbrev pub lsr : ℕ
lsr = 3

abbrev pub lsu : ℕ
lsu = 4

abbrev pub lsack : ℕ
lsack = 5
