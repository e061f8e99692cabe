-- ===== src/Lsa/LinkType.antt =====
-- src/packet.hpp: LSA::LinkType, a byte on the wire.
use ospfd_rfc.Base.{ℕ}

abbrev pub point2point : ℕ
point2point = 1

abbrev pub transit : ℕ
transit = 2

abbrev pub stub : ℕ
stub = 3
