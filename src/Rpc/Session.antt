-- ===== src/Rpc/Session.antt =====
-- src/rpc.rs: a session of a client with the RPC server.
use swarm_host.Prelude.{String, ◌≡◌, refl, ap, inl, inr, Option, none, some, List, [], ◌∷◌, map}
use swarm_host.Error.{Result, ok, err}
use swarm_host.Error.Equality.{Foreigners}
use swarm_host.Backend.{NetworkBackend, PacketSink}
use swarm_host.Executor.{Executor}
use swarm_host.Graph.{UnGraph}
use swarm_host.Overseer.{Overseer}
use swarm_host.Overseer.Interfaces
use swarm_host.Overseer.Peers
use swarm_host.Overseer.Run
use swarm_host.Overseer.Run.{OverseerEvent, handle_rpc, handle_input}
use swarm_host.Rpc.{
  Params, Answer, decode, create_params, link_params, filter_params, answer, deliver, respond,
  serve, hear,
}
use swarm_host.Rpc.Client.{
  Encoder, EncoderLaws, Request, create, join, install, Cut, create_0, create_1, create_2, join_0,
  join_1, install_0, install_1, install_2, install_3, link, unlink, notification, request_response,
  Act, ask, ask_cut, network, filter, preinit_text, written, written_cut, step_of, missing,
  event_of, identified, finished, perform_on, play,
}

module _ (T : NetworkBackend) (X : Foreigners T.foreign) where
  answer-created :
      (r : Result T.foreign T.InterfaceId)
      → ◌≡◌ {A = Answer T} (answer X (Run.created r)) (identified T X r)
  unfolding answer
  answer-created (ok i) = refl
  answer-created (err e) = refl

  answer-finished :
      (r : Result T.foreign Unit) → ◌≡◌ {A = Answer T} (answer X (Run.finished r)) (finished T X r)
  unfolding answer
  answer-finished (ok done) = refl
  answer-finished (err e) = refl

module _ {T : NetworkBackend} {E : Executor T} {K : PacketSink T} {G : UnGraph T.InterfaceId}
    (P : Params T) (X : Foreigners T.foreign) where
  respond-perform :
      (r : Request T) (o : Option (Overseer T E K G))
      → respond P X (inr (event_of P r)) o ≡ perform_on P X r o
  unfolding respond deliver handle_rpc
  respond-perform r none = refl
  respond-perform (create a f n pre) (some o) =
      let (r, o') = Interfaces.create_interface a f (P.from_millis n) pre o in
      ap (λ x. (x, some o')) (answer-created T X r)
  respond-perform (join link i j) (some o) =
      let (r, o') = Interfaces.link_interfaces i j o in
      ap (λ x. (x, some o')) (answer-finished T X r)
  respond-perform (join unlink i j) (some o) =
      let (r, o') = Interfaces.unlink_interfaces i j o in
      ap (λ x. (x, some o')) (answer-finished T X r)
  respond-perform (install notification i p f c) (some o) =
      let (r, o') = Peers.install_notification_filter i p f c o in
      ap (λ x. (x, some o')) (answer-finished T X r)
  respond-perform (install request_response i p f c) (some o) =
      let (r, o') = Peers.install_request_response_filter i p f c o in
      ap (λ x. (x, some o')) (answer-finished T X r)

module _ {T : NetworkBackend} {P : Params T} (C : Encoder T P) (laws : EncoderLaws C) where
  preinit-read : (pre : Option String) → (P.next_string (preinit_text C pre)).0 ≡ pre
  preinit-read none = ap (λ r. r.0) laws.text_end
  preinit-read (some code) = ap (λ r. r.0) (laws.next-text code C.end)

  link_params-read :
      (event : T.InterfaceId → T.InterfaceId → OverseerEvent T) (i j : T.InterfaceId)
      → link_params P event (C.interface i (C.interface j C.end)) ≡ inr (event i j)
  unfolding link_params
  link_params-read event i j =
      rw (laws.next-interface i (C.interface j C.end), laws.next-interface j C.end, link_params)
        refl

  filter_params-read :
      (event : T.InterfaceId → T.Protocol → String → String → OverseerEvent T) (i : T.InterfaceId)
      (p : T.Protocol) (f c : String)
      → filter_params P event (C.interface i (C.protocol p (C.text f (C.text c C.end))))
        ≡ inr (event i p f c)
  unfolding filter_params
  filter_params-read event i p f c =
      rw
        (
          laws.next-interface i (C.protocol p (C.text f (C.text c C.end))),
          laws.next-protocol p (C.text f (C.text c C.end)),
          laws.next-text f (C.text c C.end),
          laws.next-text c C.end,
          filter_params,
        )
        refl

  decode-written : (r : Request T) → decode P (written C r).0 (written C r).1 ≡ inr (event_of P r)
  unfolding decode create_params
  decode-written (create a f n pre) =
      rw
        (
          laws.next-text (C.show_address a) (C.text f (C.number n (preinit_text C pre))),
          laws.parse-show a,
          laws.next-text f (C.number n (preinit_text C pre)),
          laws.next-number n (preinit_text C pre),
          preinit-read pre,
          create_params,
        )
        refl
  decode-written (join link i j) = link_params-read Run.link_interface i j
  decode-written (join unlink i j) = link_params-read Run.unlink_interface i j
  decode-written (install notification i p f c) =
      filter_params-read Run.install_notification_filter i p f c
  decode-written (install request_response i p f c) =
      filter_params-read Run.install_request_response_filter i p f c

  module _ (event : T.InterfaceId → T.InterfaceId → OverseerEvent T) where
    link_params_cut_0 : link_params P event C.end ≡ inl "RPC bind address missing"
    unfolding link_params
    link_params_cut_0 = rw (laws.interface_end, link_params) refl

    link_params_cut_1 :
        (i : T.InterfaceId)
        → link_params P event (C.interface i C.end) ≡ inl "RPC bind address missing"
    unfolding link_params
    link_params_cut_1 i = rw (laws.next-interface i C.end, laws.interface_end, link_params) refl

  module _ (event : T.InterfaceId → T.Protocol → String → String → OverseerEvent T) where
    filter_params_cut_0 : filter_params P event C.end ≡ inl "Interface ID missing"
    unfolding filter_params
    filter_params_cut_0 = rw (laws.interface_end, filter_params) refl

    filter_params_cut_1 :
        (i : T.InterfaceId) → filter_params P event (C.interface i C.end) ≡ inl "Protocol missing"
    unfolding filter_params
    filter_params_cut_1 i = rw (laws.next-interface i C.end, laws.protocol_end, filter_params) refl

    filter_params_cut_2 :
        (i : T.InterfaceId) (p : T.Protocol)
        → filter_params P event (C.interface i (C.protocol p C.end)) ≡ inl "Filter code missing"
    unfolding filter_params
    filter_params_cut_2 i p =
        rw
          (
            laws.next-interface i (C.protocol p C.end),
            laws.next-protocol p C.end,
            laws.text_end,
            filter_params,
          )
          refl

    filter_params_cut_3 :
        (i : T.InterfaceId) (p : T.Protocol) (f : String)
        → filter_params P event (C.interface i (C.protocol p (C.text f C.end)))
          ≡ inl "Context missing"
    unfolding filter_params
    filter_params_cut_3 i p f =
        rw
          (
            laws.next-interface i (C.protocol p (C.text f C.end)),
            laws.next-protocol p (C.text f C.end),
            laws.next-text f C.end,
            laws.text_end,
            filter_params,
          )
          refl

  decode-written_cut :
      (q : Cut T) → decode P (written_cut C q).0 (written_cut C q).1 ≡ inl (missing q)
  unfolding decode create_params
  decode-written_cut create_0 = rw (laws.text_end, create_params) refl
  decode-written_cut (create_1 a) =
      rw (laws.next-text (C.show_address a) C.end, laws.parse-show a, laws.text_end, create_params)
        refl
  decode-written_cut (create_2 a f) =
      rw
        (
          laws.next-text (C.show_address a) (C.text f C.end),
          laws.parse-show a,
          laws.next-text f C.end,
          laws.number_end,
          create_params,
        )
        refl
  decode-written_cut (join_0 link) = link_params_cut_0 Run.link_interface
  decode-written_cut (join_0 unlink) = link_params_cut_0 Run.unlink_interface
  decode-written_cut (join_1 link i) = link_params_cut_1 Run.link_interface i
  decode-written_cut (join_1 unlink i) = link_params_cut_1 Run.unlink_interface i
  decode-written_cut (install_0 notification) = filter_params_cut_0 Run.install_notification_filter
  decode-written_cut (install_0 request_response) =
      filter_params_cut_0 Run.install_request_response_filter
  decode-written_cut (install_1 notification i) =
      filter_params_cut_1 Run.install_notification_filter i
  decode-written_cut (install_1 request_response i) =
      filter_params_cut_1 Run.install_request_response_filter i
  decode-written_cut (install_2 notification i p) =
      filter_params_cut_2 Run.install_notification_filter i p
  decode-written_cut (install_2 request_response i p) =
      filter_params_cut_2 Run.install_request_response_filter i p
  decode-written_cut (install_3 notification i p f) =
      filter_params_cut_3 Run.install_notification_filter i p f
  decode-written_cut (install_3 request_response i p f) =
      filter_params_cut_3 Run.install_request_response_filter i p f

module _ {T : NetworkBackend} {E : Executor T} {K : PacketSink T} {G : UnGraph T.InterfaceId}
    {P : Params T} (X : Foreigners T.foreign) (C : Encoder T P) (laws : EncoderLaws C) where
  -- A session of whole calls, calls with too few parameters, network events and events of the
  -- filters, in any order, where the decoders read back what the client writes. Each whole call is
  -- answered with the result of the operation that it asks for, on the arguments that it gives, or
  -- with the message of its error; each call with too few parameters with the error of the first one
  -- missing, and it changes nothing; once the overseer has panicked, whole calls are answered that the
  -- task is closed. The overseer is left as the operations leave it.
  pub serve-play :
      (acts : List (Act T K)) (o : Option (Overseer T E K G))
      → serve P X (map (step_of C) acts) o ≡ play P X acts o
  unfolding serve
  serve-play [] o = refl
  serve-play (network event ∷ acts) o = serve-play acts (hear P X (Run.network event) o)
  serve-play (filter event ∷ acts) o = serve-play acts (hear P X (Run.filter event) o)
  serve-play (ask r ∷ acts) o =
      let (a, o') = perform_on P X r o in
      rw (decode-written C laws r, respond-perform P X r o, serve-play acts o') refl
  serve-play (ask_cut q ∷ acts) o = rw (decode-written_cut C laws q, serve-play acts o) refl
