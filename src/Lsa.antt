-- ===== src/Lsa.antt =====
-- src/packet.hpp, namespace LSA: the link state advertisements as values, their sizes, and the
-- order that says which of two instances is newer. A field is a number; its width is stated by the
-- predicates of the codec.
pub mod LsaType
pub mod LinkType
pub mod Codec
pub mod Age
use ospfd_rfc.Base.{
  ℕ, ◌+◌, ◌*◌, Bool, true, false, ◌&&◌, List, [], ◌∷◌, ◌==◌, ltb, if◌then◌else◌, length, Result, ok,
  fault, assert, ◌>>=◌, ◌>>◌,
}

pub record Header : Type 0 where
  pub age : ℕ
  pub options : ℕ
  pub ls_type : ℕ
  pub link_state_id : ℕ
  pub advertising_router : ℕ
  pub sequence_number : ℕ
  pub checksum : ℕ
  pub length : ℕ

pub record Link : Type 0 where
  pub link_id : ℕ
  pub link_data : ℕ
  pub link_type : ℕ
  pub tos : ℕ
  pub metric : ℕ

pub record RouterLsa : Type 0 where
  pub header : Header
  pub flags : ℕ
  pub num_links : ℕ
  pub links : List Link

pub record NetworkLsa : Type 0 where
  pub header : Header
  pub network_mask : ℕ
  pub attached_routers : List ℕ

pub record SummaryLsa : Type 0 where
  pub header : Header
  pub network_mask : ℕ
  pub tos : ℕ
  pub metric : ℕ

pub record ExternRoute : Type 0 where
  pub tos : ℕ
  pub metric : ℕ
  pub forwarding_address : ℕ
  pub external_router_tag : ℕ

pub record AsExternalLsa : Type 0 where
  pub header : Header
  pub network_mask : ℕ
  pub routes : List ExternRoute

-- What an LSA::Base pointer points to. An ASBR-summary-LSA is a Summary.
pub data Lsa : Type 0 where
  router : RouterLsa → Lsa
  network : NetworkLsa → Lsa
  summary : SummaryLsa → Lsa
  as_external : AsExternalLsa → Lsa

abbrev pub lsa_header : Lsa → Header
lsa_header (router l) = l.header
lsa_header (network l) = l.header
lsa_header (summary l) = l.header
lsa_header (as_external l) = l.header

-- Router::size, Network::size, Summary::size, ASExternal::size.
unfoldable pub router_size : RouterLsa → ℕ
router_size l = 20 + 2 + 2 + 12 * length l.links

unfoldable pub network_size : NetworkLsa → ℕ
network_size l = 20 + 4 + 4 * length l.attached_routers

unfoldable pub summary_size : SummaryLsa → ℕ
summary_size l = 20 + 4 + 4

unfoldable pub as_external_size : AsExternalLsa → ℕ
as_external_size l = 20 + 4 + 12 * length l.routes

unfoldable pub lsa_size : Lsa → ℕ
unfolding router_size network_size summary_size as_external_size
lsa_size (router l) = router_size l
lsa_size (network l) = network_size l
lsa_size (summary l) = summary_size l
lsa_size (as_external l) = as_external_size l

-- Base::operator<, with its assertions.
unfoldable pub base_lt : Header → Header → Result Bool
base_lt a b = do
  assert (a.link_state_id == b.link_state_id)
  assert (a.advertising_router == b.advertising_router)
  ok (
      if a.sequence_number == b.sequence_number
      then ltb a.checksum b.checksum
      else ltb a.sequence_number b.sequence_number)

-- Base::operator>
unfoldable pub base_gt : Header → Header → Result Bool
unfolding base_lt
base_gt a b = base_lt b a
