-- ===== src/Error/Equality.antt =====
-- src/error.rs: `PartialEq` of Error, and its messages. How the values of other crates compare and
-- print is a parameter.
use text.Mathlib.Text.{◌==◌ as str_eq}
use text.Mathlib.TextEquality.{eq_iff}
use swarm_host.Prelude.{
  String, Bool, true, false, ◌≡◌, ◌↔◌, refl, arith, Option, none, some, ℕ, ℕ_discrete,
}
use swarm_host.Error.{
  Foreign, Error, invalid_address, address_in_use, io, serde_cbor, interface_already_exists,
  peer_already_exists, interface_doesnt_exist, peer_doesnt_exist, link_doesnt_exist,
  filter_already_exists, request_doesnt_exist, substrate, custom, filter_error, executor_error,
}

-- io::Error::kind and serde_cbor::Error::classify, as numbers; equality of addresses; and Display.
pub record Foreigners (F : Foreign) : Type 0 where
  pub address_eq : Discrete F.SocketAddr
  pub kind : F.IoError → ℕ
  pub classify : F.CborError → ℕ
  pub show_address : F.SocketAddr → String
  pub show_io : F.IoError → String
  pub show_cbor : F.CborError → String
  pub show_substrate : F.SubstrateError → String

abbrev pub same {ℓ} : {P : Type ℓ} → Dec P → Bool
same (yes p) = true
same (no n) = false

module _ {F : Foreign} (X : Foreigners F) where
  -- <Error as PartialEq>::eq
  unfoldable pub eq : Error F → Error F → Bool
  eq (invalid_address a) (invalid_address b) = str_eq a b
  eq (address_in_use a) (address_in_use b) = same (X.address_eq a b)
  eq (io a) (io b) = same (ℕ_discrete (X.kind a) (X.kind b))
  eq (serde_cbor a) (serde_cbor b) = same (ℕ_discrete (X.classify a) (X.classify b))
  eq interface_already_exists interface_already_exists = true
  eq peer_already_exists peer_already_exists = true
  eq interface_doesnt_exist interface_doesnt_exist = true
  eq peer_doesnt_exist peer_doesnt_exist = true
  eq link_doesnt_exist link_doesnt_exist = true
  eq filter_already_exists filter_already_exists = true
  eq Error.filter_doesnt_exist Error.filter_doesnt_exist = true
  eq request_doesnt_exist request_doesnt_exist = true
  eq a b = false

  -- An independent reading: each error that can be compared has a key; the others have none.
  pub data Key : Type 0 where
    address : String → Key
    in_use : F.SocketAddr → Key
    io_kind : ℕ → Key
    cbor_class : ℕ → Key
    unit : ℕ → Key

  abbrev pub key : Error F → Option Key
  key (invalid_address a) = some (address a)
  key (address_in_use a) = some (in_use a)
  key (io e) = some (io_kind (X.kind e))
  key (serde_cbor e) = some (cbor_class (X.classify e))
  key interface_already_exists = some (unit 0)
  key peer_already_exists = some (unit 1)
  key interface_doesnt_exist = some (unit 2)
  key peer_doesnt_exist = some (unit 3)
  key link_doesnt_exist = some (unit 4)
  key filter_already_exists = some (unit 5)
  key Error.filter_doesnt_exist = some (unit 6)
  key request_doesnt_exist = some (unit 7)
  key (substrate e) = none
  key (custom s) = none
  key (filter_error e) = none
  key (executor_error e) = none

  key_of_eq : (a b : Error F) → eq a b ≡ true → (k : Key) × (key a ≡ some k) × (key b ≡ some k)
  unfolding eq
  key_of_eq (invalid_address a) (invalid_address b) h =
      (address a, refl, ground (arith, eq_iff a b))
  key_of_eq (address_in_use a) (address_in_use b) h = (in_use a, refl, ground arith)
  key_of_eq (io a) (io b) h = (io_kind (X.kind a), refl, ground arith)
  key_of_eq (serde_cbor a) (serde_cbor b) h = (cbor_class (X.classify a), refl, ground arith)
  key_of_eq interface_already_exists interface_already_exists h = (unit 0, refl, refl)
  key_of_eq peer_already_exists peer_already_exists h = (unit 1, refl, refl)
  key_of_eq interface_doesnt_exist interface_doesnt_exist h = (unit 2, refl, refl)
  key_of_eq peer_doesnt_exist peer_doesnt_exist h = (unit 3, refl, refl)
  key_of_eq link_doesnt_exist link_doesnt_exist h = (unit 4, refl, refl)
  key_of_eq filter_already_exists filter_already_exists h = (unit 5, refl, refl)
  key_of_eq Error.filter_doesnt_exist Error.filter_doesnt_exist h = (unit 6, refl, refl)
  key_of_eq request_doesnt_exist request_doesnt_exist h = (unit 7, refl, refl)
  key_of_eq a b h = cc

  eq_of_key : (a b : Error F) (k : Key) → key a ≡ some k → key b ≡ some k → eq a b ≡ true
  unfolding eq
  eq_of_key (invalid_address a) (invalid_address b) k p q = ground (arith, eq_iff a b)
  eq_of_key (address_in_use a) (address_in_use b) k p q = ground arith
  eq_of_key (io a) (io b) k p q = ground arith
  eq_of_key (serde_cbor a) (serde_cbor b) k p q = ground arith
  eq_of_key a b k p q = ground arith

  -- Two errors are equal if and only if they have the same key; an error without a key, which is one
  -- of the network, of an executor or of a filter, or a custom one, is not even equal to itself.
  pub eq-key : (a b : Error F) → (eq a b ≡ true) ↔ ((k : Key) × (key a ≡ some k) × (key b ≡ some k))
  eq-key a b = (key_of_eq a b, λ x. eq_of_key a b x.0 x.1 x.2)
