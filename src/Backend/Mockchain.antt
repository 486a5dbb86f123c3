-- ===== src/Backend/Mockchain.antt =====
-- src/backend/mockchain/mod.rs: the interfaces that the mock blockchain hands out. What the operating
-- system answers to `TcpListener::bind` is an argument; the traffic generator behind an interface is
-- left out. Identifiers are `usize`, so they wrap around at 2^64.
use swarm_host.Prelude.{ℕ, ◌+◌, ◌%◌, ◌^◌, List, [], ◌∷◌, if◌then◌else◌}
use swarm_host.Map.{HashMap, contains_key, insert}
use swarm_host.Error.{Foreign, Result, ok, err, address_in_use}

pub record MockchainHandle : Type 0 where
  pub id : ℕ
  pub peer_id : ℕ

pub record MockchainBackend (F : Foreign) : Type 0 where
  pub next_iface_id : ℕ
  pub interfaces : HashMap F.SocketAddr ℕ

-- An address, and the answer of TcpListener::bind to it.
abbrev pub Bound : Foreign → Type 0
Bound F = F.SocketAddr × Result F Unit

module _ {F : Foreign} where
  -- MockchainBackend::new
  abbrev pub new : MockchainBackend F
  new = record { next_iface_id = 0; interfaces = [] }

  unfoldable pub next_interface_id : MockchainBackend F → ℕ × MockchainBackend F
  next_interface_id b =
      (b.next_iface_id, record b { next_iface_id = (b.next_iface_id + 1) % 2 ^ 64 })

  -- MockchainHandle::new
  unfoldable pub new_handle : ℕ → Result F Unit → Result F MockchainHandle
  new_handle id (err e) = err e
  new_handle id (ok listener) = ok (record { id = id; peer_id = id % 2 ^ 64 })

  -- The handles of a sequence of calls, without the errors.
  unfoldable pub handle_of : Result F MockchainHandle → List MockchainHandle → List MockchainHandle
  handle_of (err e) rest = rest
  handle_of (ok handle) rest = handle ∷ rest

module _ {F : Foreign} (address_eq : Discrete F.SocketAddr) where
  -- .map(|(handle, stream)| { self.interfaces.insert(address, id); … })
  unfoldable pub keep :
      F.SocketAddr
      → ℕ
      → Result F MockchainHandle
      → MockchainBackend F
      → Result F MockchainHandle × MockchainBackend F
  keep address id (err e) b = (err e, b)
  keep address id (ok handle) b =
      (ok handle, record b { interfaces = insert address_eq address id b.interfaces })

  unfoldable pub spawn_interface :
      Bound F → MockchainBackend F → Result F MockchainHandle × MockchainBackend F
  unfolding next_interface_id keep new_handle
  spawn_interface (address, bound) b =
      let (id, b') = next_interface_id b in
      if contains_key address_eq address b.interfaces
      then (err (address_in_use address), b)
      else keep address id (new_handle id bound) b'

  unfoldable pub spawn_all :
      List (Bound F) → MockchainBackend F → List MockchainHandle × MockchainBackend F
  unfolding handle_of
  spawn_all [] b = ([], b)
  spawn_all (x ∷ rest) b =
      let (r, b') = spawn_interface x b in
      let (handles, b'') = spawn_all rest b' in (handle_of r handles, b'')
