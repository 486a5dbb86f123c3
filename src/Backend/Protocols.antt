-- ===== src/Backend/Protocols.antt =====
-- src/backend/mockchain/types.rs: the protocols of the mock blockchain, and their names in the
-- user's code.
use text.Mathlib.Text.{◌==◌ as str_eq}
use text.Mathlib.TextEquality.{eq_iff}
use swarm_host.Prelude.{String, Option, none, some, ◌≡◌, ◌↔◌, refl, subst, arith, if◌then◌else◌}

pub data ProtocolId : Type 0 where
  transaction : ProtocolId
  block : ProtocolId
  peer_exchange : ProtocolId
  block_request : ProtocolId
  generic : ProtocolId

-- into_executor_object
unfoldable pub name : ProtocolId → String
name transaction = "Transaction"
name block = "Block"
name peer_exchange = "PeerExchange"
name block_request = "BlockRequest"
name generic = "Generic"

-- from_executor_object; `none` is the panic on another name.
unfoldable pub from_name : String → Option ProtocolId
from_name s =
    if str_eq s "Transaction"
    then some transaction
    else if str_eq s "Block"
    then some block
    else if str_eq s "PeerExchange"
    then some peer_exchange
    else if str_eq s "BlockRequest"
    then some block_request
    else if str_eq s "Generic"
    then some generic
    else none

from_name-name : (p : ProtocolId) → from_name (name p) ≡ some p
unfolding from_name name
from_name-name transaction = refl
from_name-name block = refl
from_name-name peer_exchange = refl
from_name-name block_request = refl
from_name-name generic = refl

name_of : (s : String) (p : ProtocolId) → from_name s ≡ some p → name p ≡ s
unfolding from_name name
name_of s p h = ground (
  arith,
  eq_iff s "Transaction",
  eq_iff s "Block",
  eq_iff s "PeerExchange",
  eq_iff s "BlockRequest",
  eq_iff s "Generic",
)

-- Each protocol is read back from its own name and from no other.
pub from_name_lem : (s : String) (p : ProtocolId) → (from_name s ≡ some p) ↔ (name p ≡ s)
from_name_lem s p = (name_of s p, λ e. subst (λ t. from_name t ≡ some p) e (from_name-name p))
