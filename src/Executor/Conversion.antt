-- ===== src/Executor/Conversion.antt =====
-- src/executor/pyo3/conversion.rs: reading the values that the user's Python code returns, and the
-- types of src/executor/mod.rs for what it decides. Python objects (pyo3) are a parameter, and so is
-- `from_executor_object` of the backend's types, which panics on an object of another type.
use swarm_host.Prelude.{
  ℕ, String, Bool, true, false, ◌⊎◌, inl, inr, Option, none, some, List, [], ◌∷◌, ◌++◌,
}
use swarm_host.Backend.{NetworkBackend}
use swarm_host.Executor.{ExecutorEvent, connect, send_request, send_response}

pub record Objects (T : NetworkBackend) : Type 1 where
  pub Any : Type 0
  pub Dict : Type 0
  pub PyErr : Type 0
  pub is_none : Any → Bool
  pub as_dict : Any → PyErr ⊎ Dict
  pub as_list : Any → PyErr ⊎ List Any
  pub get_item : String → Dict → Option Any
  pub bytes : Any → PyErr ⊎ List ℕ
  pub usize : Any → PyErr ⊎ ℕ
  -- PyErr::new::<PyTypeError, _>(…), and format!("Invalid type received: `{}`", dict)
  pub type_error : String → PyErr
  pub invalid : Dict → String
  -- from_executor_object
  pub peer : Any → Option T.PeerId
  pub protocol : Any → Option T.Protocol
  pub message : Any → Option T.Message

pub data NotificationHandlingResult : Type 0 where
  drop : NotificationHandlingResult
  delay : ℕ → NotificationHandlingResult
  forward : NotificationHandlingResult

pub data RequestHandlingResult (T : NetworkBackend) : Type 0 where
  do_nothing : RequestHandlingResult T
  request : T.PeerId → List ℕ → RequestHandlingResult T
  response : List (T.PeerId × List ℕ) → RequestHandlingResult T

pub data ResponseHandlingResult (T : NetworkBackend) : Type 0 where
  do_nothing : ResponseHandlingResult T
  response : List (T.PeerId × List ℕ) → Option (T.RequestId × List ℕ) → ResponseHandlingResult T

-- PyResult<A>, or a panic.
pub data Extract (X A : Type 0) : Type 0 where
  extracted : A → Extract X A
  raised : X → Extract X A
  panicked : Extract X A

module _ {X A B : Type 0} where
  -- `?`
  abbrev pub try : X ⊎ A → (A → Extract X B) → Extract X B
  try (inl e) k = raised e
  try (inr a) k = k a

  -- .ok_or(error)?
  abbrev pub ok_or : X → Option A → (A → Extract X B) → Extract X B
  ok_or e none k = raised e
  ok_or e (some a) k = k a

  -- .unwrap(), also the one inside a conversion
  abbrev pub unwrap : Option A → (A → Extract X B) → Extract X B
  unwrap none k = panicked
  unwrap (some a) k = k a

  abbrev pub after : Extract X A → (A → Extract X B) → Extract X B
  after (extracted a) k = k a
  after (raised e) k = raised e
  after panicked k = panicked

-- The body of a loop over the items, each of which adds some results.
unfoldable pub each : {X A B : Type 0} → (A → Extract X (List B)) → List A → Extract X (List B)
each f [] = extracted []
each f (a ∷ rest) =
    let others = each f rest in after (f a) (λ bs. after others (λ cs. extracted (bs ++ cs)))

-- downcast::<PyList>().unwrap()
abbrev pub listed : {X A : Type 0} → X ⊎ A → Option A
listed (inl e) = none
listed (inr a) = some a

module _ {T : NetworkBackend} (J : Objects T) where
  unfoldable pub extract_notification : J.Any → Extract J.PyErr NotificationHandlingResult
  extract_notification object = try (J.as_dict object) (λ dict. elim (J.get_item "Drop" dict) [
    | some x ↦ extracted drop
    | none ↦ elim (J.get_item "Forward" dict) [
      | some x ↦ extracted NotificationHandlingResult.forward
      | none ↦ elim (J.get_item "Delay" dict) [
        | some d ↦ try (J.usize d) (λ n. extracted (delay n))
        | none ↦ raised (J.type_error (J.invalid dict))
      ]
    ]
  ])

  -- A pair of a peer and a payload, and the error if there is no payload.
  unfoldable pub extract_pair : String → String → J.Dict → Extract J.PyErr (T.PeerId × List ℕ)
  extract_pair no_peer no_payload dict =
      ok_or (J.type_error no_peer) (J.get_item "peer" dict) (λ peer.
        ok_or (J.type_error no_payload) (J.get_item "payload" dict) (λ payload.
          try (J.bytes payload) (λ bytes. unwrap (J.peer peer) (λ p. extracted (p, bytes)))))

  unfoldable pub extract_responses :
      String → List J.Any → Extract J.PyErr (List (T.PeerId × List ℕ))
  unfolding extract_pair each
  extract_responses no_payload = each (λ item.
      try (J.as_dict item) (λ dict.
        after (extract_pair "Peer missing" no_payload dict) (λ pair. extracted (pair ∷ []))))

  unfoldable pub extract_request : J.Any → Extract J.PyErr (RequestHandlingResult T)
  unfolding extract_pair extract_responses
  extract_request object = try (J.as_dict object) (λ dict. elim (J.get_item "DoNothing" dict) [
    | some x ↦ extracted RequestHandlingResult.do_nothing
    | none ↦ elim (J.get_item "Request" dict) [
      | some r ↦ try (J.as_dict r) (λ fields.
          after (extract_pair "Peer ID missing" "Request missing" fields)
            (λ pair. extracted (RequestHandlingResult.request pair.0 pair.1)))
      | none ↦ elim (J.get_item "Response" dict) [
        | some rs ↦ try (J.as_list rs) (λ items.
            after (extract_responses "Response missing" items)
              (λ responses. extracted (RequestHandlingResult.response responses)))
        | none ↦ raised (J.type_error (J.invalid dict))
      ]
    ]
  ])

  unfoldable pub extract_response : J.Any → Extract J.PyErr (ResponseHandlingResult T)
  unfolding extract_responses
  extract_response object = try (J.as_dict object) (λ dict. elim (J.get_item "DoNothing" dict) [
    | some x ↦ extracted ResponseHandlingResult.do_nothing
    | none ↦ elim (J.get_item "Response" dict) [
      | some result ↦ try (J.as_dict result) (λ results.
          ok_or (J.type_error "Responses missing") (J.get_item "Responses" results) (λ rs.
            try (J.as_list rs) (λ items.
              after (extract_responses "Request missing" items)
                (λ responses. extracted (ResponseHandlingResult.response responses none)))))
      | none ↦ raised (J.type_error (J.invalid dict))
    ]
  ])

  -- .map(from_executor_object).collect()
  unfoldable pub extract_peers : List J.Any → Extract J.PyErr (List T.PeerId)
  unfolding each
  extract_peers = each (λ x. unwrap (J.peer x) (λ p. extracted (p ∷ [])))

  unfoldable pub extract_forward : J.Dict → Extract J.PyErr (ExecutorEvent T)
  unfolding extract_peers
  extract_forward info = unwrap (J.get_item "notification" info) (λ x.
      unwrap (J.message x) (λ notification. unwrap (J.get_item "peers" info) (λ y.
        try (J.as_list y) (λ items. after (extract_peers items) (λ peers.
          unwrap (J.get_item "protocol" info) (λ z.
            unwrap (J.protocol z)
              (λ protocol. extracted (ExecutorEvent.forward peers protocol notification))))))))

  unfoldable pub extract_send_request : J.Dict → Extract J.PyErr (ExecutorEvent T)
  extract_send_request info = unwrap (J.get_item "request" info) (λ x. try (J.bytes x) (λ payload.
      unwrap (J.get_item "peer" info) (λ y. unwrap (J.peer y) (λ peer.
        unwrap (J.get_item "protocol" info) (λ z.
          unwrap (J.protocol z) (λ protocol. extracted (send_request peer protocol payload)))))))

  unfoldable pub extract_send_response : J.Dict → Extract J.PyErr (ExecutorEvent T)
  extract_send_response info = unwrap (J.get_item "response" info) (λ x. try (J.bytes x) (λ payload.
      unwrap (J.get_item "peer" info)
        (λ y. unwrap (J.peer y) (λ peer. extracted (send_response peer payload)))))

  -- results.push(event)
  abbrev pub push : Extract J.PyErr (ExecutorEvent T) → Extract J.PyErr (List (ExecutorEvent T))
  push e = after e (λ event. extracted (event ∷ []))

  -- An item without any of the keys adds nothing.
  unfoldable pub extract_event : J.Any → Extract J.PyErr (List (ExecutorEvent T))
  unfolding extract_forward extract_send_request extract_send_response
  extract_event item = try (J.as_dict item) (λ dict. elim (J.get_item "Connect" dict) [
    | some x ↦ unwrap (J.peer x) (λ peer. extracted (connect peer ∷ []))
    | none ↦ elim (J.get_item "Forward" dict) [
      | some x ↦ try (J.as_dict x) (λ info. push (extract_forward info))
      | none ↦ elim (J.get_item "SendRequest" dict) [
        | some x ↦ try (J.as_dict x) (λ info. push (extract_send_request info))
        | none ↦ elim (J.get_item "SendResponse" dict) [
          | some x ↦ try (J.as_dict x) (λ info. push (extract_send_response info))
          | none ↦ extracted []
        ]
      ]
    ]
  ])

  unfoldable pub extract_events : J.Any → Extract J.PyErr (List (ExecutorEvent T))
  unfolding extract_event each
  extract_events object = elim (J.is_none object) [
    | true ↦ extracted []
    | false ↦ unwrap (listed (J.as_list object)) (λ items. each extract_event items)
  ]
