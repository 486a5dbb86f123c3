-- ===== src/Executor/Pyo3.antt =====
-- src/executor/pyo3/mod.rs: the executor that runs the user's code in a Python interpreter. The
-- interpreter is no part of the sources: it is a parameter, which may answer in any way. A value that
-- makes `extract` panic (see Executor/Conversion) is not among its answers.
use swarm_host.Prelude.{String, Option, none, some, List, [], ◌∷◌, ◌⊎◌, inl, inr}
use swarm_host.Map.{HashMap, get, insert}
use swarm_host.Error.{Result, ok, err, ExecutorError, executor_error}
use swarm_host.Backend.{NetworkBackend}
use swarm_host.Executor.{Executor, ExecutorEvent, Events}

pub record Python (T : NetworkBackend) : Type 1 where
  pub Interpreter : Type 0
  pub PyErr : Type 0
  pub Module : Type 0
  pub Object : Type 0
  pub to_string : PyErr → String
  -- PyModule::from_code: the module is named for the interface, or at random.
  pub from_code : Option T.InterfaceId → String → Interpreter → (PyErr ⊎ Module) × Interpreter
  pub getattr : Module → String → Interpreter → (PyErr ⊎ Object) × Interpreter
  pub call1 : Object → List Object → Interpreter → (PyErr ⊎ Object) × Interpreter
  -- extract::<ExecutorEvents<T>>
  pub extract : Object → Interpreter → (PyErr ⊎ List (ExecutorEvent T)) × Interpreter
  -- into_executor_object and from_executor_object, which each backend implements
  pub peer_object : T.PeerId → Object
  pub protocol_object : T.Protocol → Object
  pub message_object : T.Message → Object
  pub request_object : T.Request → Object
  pub response_object : T.Response → Object
  pub parameters_object : T.NetworkParameters → Object
  pub context_object : Option String → Object
  pub interface_parameters : Object → T.InterfaceParameters
  -- The interpreter as a preparation, or the executor of a new interface, finds it.
  pub before_preparation : Interpreter
  pub before_creation : T.InterfaceId → Interpreter

-- PyResult<A>, on the interpreter `W`, with the exceptions `X`; `?` ends a call early.
abbrev pub Py : Type 0 → Type 0 → Type 0 → Type 0
Py W X A = W → (X ⊎ A) × W

unfoldable pub continue : {W X A B : Type 0} → (X ⊎ A) → (A → Py W X B) → Py W X B
continue (inl e) next w = (inl e, w)
continue (inr a) next w = next a w

unfoldable pub bind : {W X A B : Type 0} → Py W X A → (A → Py W X B) → Py W X B
unfolding continue
bind step next w = let (r, w') = step w in continue r next w'

-- `interpreter` is what the calls of this executor find.
pub record Pyo3Executor (T : NetworkBackend) (P : Python T) : Type 0 where
  pub context : P.Object
  pub interface : T.InterfaceId
  pub code : String
  pub notification_filters : HashMap T.Protocol String
  pub request_response_filters : HashMap T.Protocol String
  pub interpreter : P.Interpreter

module _ {T : NetworkBackend} (P : Python T) where
  -- PyModule::from_code(…)?.getattr(…)?
  unfoldable pub load : Option T.InterfaceId → String → String → Py P.Interpreter P.PyErr P.Object
  load name code function = bind (P.from_code name code) (λ m. P.getattr m function)

  -- The call of a function whose result is not used, then the poll, by the same code.
  unfoldable pub call_executor :
      T.InterfaceId
      → String
      → String
      → P.Object
      → List P.Object
      → Py P.Interpreter P.PyErr (List (ExecutorEvent T))
  unfolding bind load
  call_executor interface code function ctx args = bind (load (some interface) code function) (λ f.
      bind (P.call1 f (ctx ∷ args)) (λ done.
        bind (load (some interface) code "poll")
          (λ poll. bind (P.call1 poll (ctx ∷ [])) (λ result. P.extract result))))

  -- impl From<pyo3::PyErr> for Error
  abbrev pub from_py : {A : Type 0} → (P.PyErr ⊎ A) → Result T.foreign A
  from_py (inl e) = err (executor_error (ExecutorError.runtime_error (P.to_string e)))
  from_py (inr a) = ok a

  -- Python::with_gil
  abbrev pub with_gil :
      {A : Type 0}
      → Py P.Interpreter P.PyErr A
      → Pyo3Executor T P
      → Result T.foreign A × Pyo3Executor T P
  with_gil call x = let (r, w) = call x.interpreter in (from_py r, record x { interpreter = w })

  unfoldable pub initialize_interface :
      String → T.NetworkParameters → Result T.foreign T.InterfaceParameters
  unfolding bind load
  initialize_interface code parameters =
      from_py
        (bind (load none code "initialize_interface")
          (λ f.
            bind (P.call1 f (P.parameters_object parameters ∷ []))
              (λ result w. (inr (P.interface_parameters result), w)))
          P.before_preparation).0

  -- The executor with the context that the user's code has created.
  unfoldable pub created :
      T.InterfaceId
      → String
      → (P.PyErr ⊎ P.Object) × P.Interpreter
      → Result T.foreign (Pyo3Executor T P)
  created interface code (inl e, w) = from_py (inl e)
  created interface code (inr context, w) = ok (record {
    context = context;
    interface = interface;
    code = code;
    notification_filters = [];
    request_response_filters = [];
    interpreter = w;
  })

  unfoldable pub create :
      T.InterfaceId → String → Option String → Result T.foreign (Pyo3Executor T P)
  unfolding bind load created
  create interface code context = created interface code (
      bind (load (some interface) code "initialize_ctx")
        (λ f. P.call1 f (P.context_object context ∷ [])) (P.before_creation interface))

  unfoldable pub poll : Pyo3Executor T P → Events T × Pyo3Executor T P
  unfolding bind load
  poll x =
      with_gil
        (bind (load none x.code "poll")
          (λ f. bind (P.call1 f (x.context ∷ [])) (λ result. P.extract result)))
        x

  -- The calls of the generic code.
  unfoldable pub call_code : String → List P.Object → Pyo3Executor T P → Events T × Pyo3Executor T P
  unfolding call_executor
  call_code function args x = with_gil (call_executor x.interface x.code function x.context args) x

  abbrev pub register_peer : T.PeerId → Pyo3Executor T P → Events T × Pyo3Executor T P
  register_peer peer = call_code "register_peer" (P.peer_object peer ∷ [])

  abbrev pub discover_peer : T.PeerId → Pyo3Executor T P → Events T × Pyo3Executor T P
  discover_peer peer = call_code "discover_peer" (P.peer_object peer ∷ [])

  abbrev pub unregister_peer : T.PeerId → Pyo3Executor T P → Events T × Pyo3Executor T P
  unregister_peer peer = call_code "unregister_peer" (P.peer_object peer ∷ [])

  abbrev pub protocol_opened :
      T.PeerId → T.Protocol → Pyo3Executor T P → Events T × Pyo3Executor T P
  protocol_opened peer protocol =
      call_code "protocol_opened" (P.peer_object peer ∷ P.protocol_object protocol ∷ [])

  abbrev pub protocol_closed :
      T.PeerId → T.Protocol → Pyo3Executor T P → Events T × Pyo3Executor T P
  protocol_closed peer protocol =
      call_code "protocol_closed" (P.peer_object peer ∷ P.protocol_object protocol ∷ [])

  -- let module = PyModule::from_code(…)?; module.getattr(…)?; for each of the functions
  unfoldable pub has_functions : P.Module → List String → Py P.Interpreter P.PyErr Unit
  unfolding bind
  has_functions m [] w = (inr tt, w)
  has_functions m (function ∷ rest) w =
      bind (P.getattr m function) (λ found. has_functions m rest) w

  unfoldable pub verify : T.InterfaceId → String → List String → Py P.Interpreter P.PyErr Unit
  unfolding bind has_functions
  verify interface code functions =
      bind (P.from_code (some interface) code) (λ m. has_functions m functions)

  unfoldable pub notification_filter_verified :
      T.Protocol
      → String
      → Result T.foreign Unit × Pyo3Executor T P
      → Result T.foreign Unit × Pyo3Executor T P
  notification_filter_verified protocol code (err e, x) = (err e, x)
  notification_filter_verified protocol code (ok done, x) = (
    ok tt,
    record x { notification_filters = insert T.protocol_eq protocol code x.notification_filters },
  )

  unfoldable pub install_notification_filter :
      T.Protocol → String → Pyo3Executor T P → Result T.foreign Unit × Pyo3Executor T P
  unfolding notification_filter_verified verify
  install_notification_filter protocol code x =
      notification_filter_verified protocol code
        (with_gil (verify x.interface code ("inject_notification" ∷ [])) x)

  unfoldable pub request_response_filter_verified :
      T.Protocol
      → String
      → Result T.foreign Unit × Pyo3Executor T P
      → Result T.foreign Unit × Pyo3Executor T P
  request_response_filter_verified protocol code (err e, x) = (err e, x)
  request_response_filter_verified protocol code (ok done, x) = (
    ok tt,
    record x {
      request_response_filters = insert T.protocol_eq protocol code x.request_response_filters;
    },
  )

  unfoldable pub install_request_response_filter :
      T.Protocol → String → Pyo3Executor T P → Result T.foreign Unit × Pyo3Executor T P
  unfolding request_response_filter_verified verify
  install_request_response_filter protocol code x =
      request_response_filter_verified protocol code
        (with_gil (verify x.interface code ("inject_request" ∷ "inject_response" ∷ [])) x)

  -- The code of the filter of a protocol, if one is installed, is called.
  unfoldable pub call_filter :
      Option String → String → List P.Object → Pyo3Executor T P → Events T × Pyo3Executor T P
  unfolding call_executor
  call_filter none function args x = (err (executor_error ExecutorError.filter_doesnt_exist), x)
  call_filter (some code) function args x =
      with_gil (call_executor x.interface code function x.context args) x

  unfoldable pub inject_notification :
      T.Protocol → T.PeerId → T.Message → Pyo3Executor T P → Events T × Pyo3Executor T P
  unfolding call_filter
  inject_notification protocol peer n x =
      call_filter (get T.protocol_eq protocol x.notification_filters) "inject_notification"
        (P.peer_object peer ∷ P.protocol_object protocol ∷ P.message_object n ∷ []) x

  unfoldable pub inject_request :
      T.Protocol → T.PeerId → T.Request → Pyo3Executor T P → Events T × Pyo3Executor T P
  unfolding call_filter
  inject_request protocol peer r x =
      call_filter (get T.protocol_eq protocol x.request_response_filters) "inject_request"
        (P.protocol_object protocol ∷ P.peer_object peer ∷ P.request_object r ∷ []) x

  unfoldable pub inject_response :
      T.Protocol → T.PeerId → T.Response → Pyo3Executor T P → Events T × Pyo3Executor T P
  unfolding call_filter
  inject_response protocol peer r x =
      call_filter (get T.protocol_eq protocol x.request_response_filters) "inject_response"
        (P.peer_object peer ∷ P.response_object r ∷ []) x

  -- impl Executor<T> for PyO3Executor<T>
  abbrev pub pyo3 : Executor T
  pyo3 = record {
    State = Pyo3Executor T P;
    initialize_interface = initialize_interface;
    create = create;
    poll = poll;
    register_peer = register_peer;
    discover_peer = discover_peer;
    unregister_peer = unregister_peer;
    protocol_opened = protocol_opened;
    protocol_closed = protocol_closed;
    install_notification_filter = install_notification_filter;
    install_request_response_filter = install_request_response_filter;
    inject_notification = inject_notification;
    inject_request = inject_request;
    inject_response = inject_response;
  }
