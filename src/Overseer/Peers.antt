-- ===== src/Overseer/Peers.antt =====
-- src/overseer.rs: what the network reports of its peers, and the filters that the user installs.
-- `none` is a panic of the source, at an `expect`.
use swarm_host.Prelude.{ℕ, String, Option, none, some, List, [], ◌∷◌, true, false}
use swarm_host.Map.{HashMap, get, insert, remove, contains, add, from_iter}
use swarm_host.Error.{Result, ok, err, interface_doesnt_exist, peer_doesnt_exist}
use swarm_host.Backend.{
  NetworkBackend, PacketSink, ConnectionUpgrade, protocol_opened, protocol_closed,
}
use swarm_host.Executor.{Executor}
use swarm_host.Heuristics.Handle
use swarm_host.Heuristics.Handle.{HeuristicsHandle}
use swarm_host.Filter.Handle.{FilterHandle}
use swarm_host.Filter.Handle as Commands
use swarm_host.Graph.{UnGraph}
use swarm_host.Overseer.{Overseer, InterfaceInfo}

-- The nodes that a search visits stand for these interfaces; `none` if one has no weight.
unfoldable pub weights {ℓ} : {A : Type ℓ} {N : Type ℓ} → (A → Option N) → List A → Option (List N)
weights weight [] = some []
weights weight (i ∷ rest) =
    let later = weights weight rest in
    elim (weight i) [ none ↦ none | some n ↦ elim later [ none ↦ none | some ns ↦ some (n ∷ ns) ] ]

module _ {T : NetworkBackend} {K : PacketSink T} where
  -- Sends a command to the filter of an interface.
  abbrev pub command : (FilterHandle T K → FilterHandle T K) → InterfaceInfo T K → InterfaceInfo T K
  command send info = record info { filter = send info.filter }

  -- for interface in linked_interfaces { … }
  unfoldable pub notify_each :
      List T.InterfaceId
      → (FilterHandle T K → FilterHandle T K)
      → HashMap T.InterfaceId (InterfaceInfo T K)
      → Option (HashMap T.InterfaceId (InterfaceInfo T K))
  notify_each [] send interfaces = some interfaces
  notify_each (interface ∷ rest) send interfaces = elim (get T.interface_eq interface interfaces) [
    | none ↦ none
    | some info ↦
        notify_each rest send (insert T.interface_eq interface (command send info) interfaces)
  ]

  -- for protocol in protocols { iface_info.filter.…; self.heuristics_handle.… }
  unfoldable pub upgrade_each :
      (T.Protocol → FilterHandle T K → FilterHandle T K)
      → (T.Protocol → HeuristicsHandle T → HeuristicsHandle T)
      → List T.Protocol
      → FilterHandle T K × HeuristicsHandle T
      → FilterHandle T K × HeuristicsHandle T
  upgrade_each send report [] (filter, tx) = (filter, tx)
  upgrade_each send report (protocol ∷ rest) (filter, tx) =
      upgrade_each send report rest (send protocol filter, report protocol tx)

  -- if info.discovered.insert(peer) { info.filter.discover_peer(peer).await; }
  unfoldable pub discover_at : T.PeerId → InterfaceInfo T K → InterfaceInfo T K
  discover_at peer info = elim (contains T.peer_eq peer info.discovered) [
    | true ↦ info
    | false ↦ record info {
      discovered = add T.peer_eq peer info.discovered;
      filter = Commands.discover_peer peer info.filter;
    }
  ]

  unfoldable pub discover_at_each :
      T.PeerId
      → HashMap T.InterfaceId (InterfaceInfo T K)
      → HashMap T.InterfaceId (InterfaceInfo T K)
  discover_at_each peer [] = []
  discover_at_each peer ((interface, info) ∷ rest) =
      (interface, discover_at peer info) ∷ discover_at_each peer rest

module _ {T : NetworkBackend} {E : Executor T} {K : PacketSink T} {G : UnGraph T.InterfaceId} where
  -- self.interfaces.get_mut(&interface), changed in place
  abbrev pub put_info : T.InterfaceId → InterfaceInfo T K → Overseer T E K G → Overseer T E K G
  put_info interface info o = record o {
    interfaces = insert T.interface_eq interface info o.interfaces;
  }

  -- A command for the filter of one interface, and nothing else.
  unfoldable pub command_filter :
      T.InterfaceId
      → (FilterHandle T K → FilterHandle T K)
      → Overseer T E K G
      → Result T.foreign Unit × Overseer T E K G
  command_filter interface send o = elim (get T.interface_eq interface o.interfaces) [
    | none ↦ (err interface_doesnt_exist, o)
    | some info ↦ (ok tt, put_info interface (command send info) o)
  ]

  unfoldable pub register_peer :
      T.InterfaceId
      → T.PeerId
      → List T.Protocol
      → K.Sink
      → Overseer T E K G
      → Result T.foreign Unit × Overseer T E K G
  register_peer interface peer protocols sink o = elim (get T.peer_eq peer o.interface_peer_ids) [
    | some id ↦ (ok tt, o)
    | none ↦ elim (get T.interface_eq interface o.interfaces) [
      | none ↦ (err interface_doesnt_exist, o)
      | some info ↦ (
        ok tt,
        record (put_info interface
            (record info {
              peers =
                  insert T.peer_eq peer (record { protocols = from_iter T.protocol_eq protocols })
                    info.peers;
              filter = Commands.register_peer peer sink info.filter;
            })
            o) { heuristics_handle = Handle.register_peer interface peer o.heuristics_handle },
      )
    ]
  ]

  unfoldable pub unregister_peer :
      T.InterfaceId → T.PeerId → Overseer T E K G → Result T.foreign Unit × Overseer T E K G
  unregister_peer interface peer o = elim (get T.peer_eq peer o.interface_peer_ids) [
    | some id ↦ (ok tt, o)
    | none ↦ elim (get T.interface_eq interface o.interfaces) [
      | none ↦ (err interface_doesnt_exist, o)
      | some info ↦ elim (get T.peer_eq peer info.peers) [
        | none ↦ (err peer_doesnt_exist, o)
        | some known ↦ (
          ok tt,
          record (put_info interface
              (record info {
                peers = remove T.peer_eq peer info.peers;
                filter = Commands.unregister_peer peer info.filter;
              })
              o) { heuristics_handle = Handle.unregister_peer interface peer o.heuristics_handle },
        )
      ]
    ]
  ]

  unfoldable pub install_notification_filter :
      T.InterfaceId
      → T.Protocol
      → String
      → String
      → Overseer T E K G
      → Result T.foreign Unit × Overseer T E K G
  install_notification_filter interface protocol filter_code context =
      command_filter interface
        (Commands.install_notification_filter protocol filter_code (some context))

  unfoldable pub install_request_response_filter :
      T.InterfaceId
      → T.Protocol
      → String
      → String
      → Overseer T E K G
      → Result T.foreign Unit × Overseer T E K G
  install_request_response_filter interface protocol filter_code context =
      command_filter interface
        (Commands.install_request_response_filter protocol filter_code (some context))

  -- The interfaces that a search of the link graph visits from `index`.
  unfoldable pub linked_interfaces : ℕ → Overseer T E K G → Option (List T.InterfaceId)
  linked_interfaces index o = weights (λ nx. G.node_weight nx o.links) (G.dfs index o.links)

  unfoldable pub inject_notification :
      T.InterfaceId
      → T.PeerId
      → T.Protocol
      → T.Message
      → Overseer T E K G
      → Option (Result T.foreign Unit × Overseer T E K G)
  unfolding linked_interfaces
  inject_notification interface peer protocol n o =
      elim (get T.interface_eq interface o.interfaces) [
        | none ↦ some (err interface_doesnt_exist, o)
        | some info ↦ elim (linked_interfaces info.index o) [
          | none ↦ none
          | some linked ↦
              elim (notify_each linked (Commands.inject_notification protocol peer n)
                o.interfaces) [
                  | none ↦ none
                  | some interfaces ↦ some (ok tt, record o { interfaces = interfaces })
                ]
        ]
      ]

  unfoldable pub inject_request :
      T.InterfaceId
      → T.PeerId
      → T.Protocol
      → T.Request
      → Overseer T E K G
      → Result T.foreign Unit × Overseer T E K G
  inject_request interface peer protocol r =
      command_filter interface (Commands.inject_request protocol peer r)

  unfoldable pub inject_response :
      T.InterfaceId
      → T.PeerId
      → T.Protocol
      → T.RequestId
      → T.Response
      → Overseer T E K G
      → Result T.foreign Unit × Overseer T E K G
  inject_response interface peer protocol request_id r =
      command_filter interface (Commands.inject_response protocol peer r)

  unfoldable pub apply_connection_upgrade :
      T.InterfaceId
      → T.PeerId
      → ConnectionUpgrade T
      → Overseer T E K G
      → Option (Result T.foreign Unit × Overseer T E K G)
  apply_connection_upgrade interface peer (protocol_opened protocols) o =
      elim (get T.interface_eq interface o.interfaces) [
        | none ↦ none
        | some info ↦
            let (filter, tx) =
              upgrade_each (Commands.protocol_opened peer)
                (Handle.register_protocol_opened interface peer) protocols
                (info.filter, o.heuristics_handle) in
            some (
              ok tt,
              record (put_info interface (record info { filter = filter }) o) {
                heuristics_handle = tx;
              },
            )
      ]
  apply_connection_upgrade interface peer (protocol_closed protocols) o =
      elim (get T.interface_eq interface o.interfaces) [
        | none ↦ none
        | some info ↦
            let (filter, tx) =
              upgrade_each (Commands.protocol_closed peer)
                (Handle.register_protocol_closed interface peer) protocols
                (info.filter, o.heuristics_handle) in
            some (
              ok tt,
              record (put_info interface (record info { filter = filter }) o) {
                heuristics_handle = tx;
              },
            )
      ]

  unfoldable pub discover_peer :
      T.PeerId → Overseer T E K G → Result T.foreign Unit × Overseer T E K G
  discover_peer peer o = elim (get T.peer_eq peer o.interface_peer_ids) [
    | some id ↦ (ok tt, o)
    | none ↦ (ok tt, record o { interfaces = discover_at_each peer o.interfaces })
  ]

  unfoldable pub connect_to_peer :
      T.InterfaceId → T.PeerId → Overseer T E K G → Result T.foreign Unit × Overseer T E K G
  connect_to_peer interface peer o = elim (get T.interface_eq interface o.interfaces) [
    | none ↦ (err interface_doesnt_exist, o)
    | some info ↦
        let (done, handle) = T.connect peer info.handle in
        (done, put_info interface (record info { handle = handle }) o)
  ]
