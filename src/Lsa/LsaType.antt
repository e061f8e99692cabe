-- ===== src/Lsa/LsaType.antt =====
-- src/packet.hpp: LSA::Type, a byte on the wire.
use ospfd_rfc.Base.{ℕ}

abbrev pub router : ℕ
router = 1

abbrev pub network : ℕ
network = 2

abbrev pub summary : ℕ
summary = 3

abbrev pub asbr_summary : ℕ
asbr_summary = 4

abbrev pub as_external : ℕ
as_external = 5
