-- ===== src/Error.antt =====
-- src/error.rs: the error types, and the result type of the crate. The types of other crates that
-- an error carries (socket addresses, I/O, CBOR and network errors) are a parameter.
pub mod Equality
pub mod Display
use swarm_host.Prelude.{String, ◌≡◌, refl, ◌⊎◌, inl, inr}

pub record Foreign : Type 1 where
  pub SocketAddr : Type 0
  pub IoError : Type 0
  pub CborError : Type 0
  pub SubstrateError : Type 0

pub data ExecutorError : Type 0 where
  runtime_error : String → ExecutorError
  executor_doesnt_exist : ExecutorError
  filter_doesnt_exist : ExecutorError

pub data FilterError : Type 0 where
  invalid_filter : String → FilterError

pub data Error (F : Foreign) : Type 0 where
  invalid_address : String → Error F
  address_in_use : F.SocketAddr → Error F
  io : F.IoError → Error F
  serde_cbor : F.CborError → Error F
  interface_already_exists : Error F
  peer_already_exists : Error F
  interface_doesnt_exist : Error F
  peer_doesnt_exist : Error F
  link_doesnt_exist : Error F
  filter_already_exists : Error F
  filter_doesnt_exist : Error F
  request_doesnt_exist : Error F
  substrate : F.SubstrateError → Error F
  custom : String → Error F
  filter_error : FilterError → Error F
  executor_error : ExecutorError → Error F

-- crate::Result<A>
pub data Result (F : Foreign) (A : Type 0) : Type 0 where
  ok : A → Result F A
  err : Error F → Result F A

pub Result-cases : {F : Foreign} (r : Result F Unit) → (r ≡ ok tt) ⊎ ((e : Error F) × (r ≡ err e))
Result-cases (ok tt) = inl refl
Result-cases (err e) = inr (e, refl)
