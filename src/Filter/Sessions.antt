-- ===== src/Filter/Sessions.antt =====
-- src/filter/mod.rs, `run`: what a filter knows of a peer after any commands and any calls of the
-- timer, against the commands alone.
use swarm_host.Prelude.{
  ◌≡◌, refl, sym, ◌∙◌, ap, ite, Bool, true, false, Option, none, some, List, [], ◌∷◌, arith,
}
use swarm_host.Map.{HashSet, contained}
use swarm_host.Backend.{NetworkBackend, PacketSink}
use swarm_host.Executor.{Executor}
use swarm_host.Filter
use swarm_host.Filter.{Filter, FilterCommand}
use swarm_host.Filter.Commands.{poll_filter, handle_command}
use swarm_host.Filter.Members.{protocols_of, with_events-protocols}
use swarm_host.Filter.Membership.{entry_after, accepts, is_ok, handle_command-protocols}
use swarm_host.Filter.Run.{Wake, command_rx, sleep, wake, run}

module _ {T : NetworkBackend} {K : PacketSink T} where
  -- What is known of `p` after the commands, where each registration is accepted.
  unfoldable pub session :
      T.PeerId → List (Wake T K) → Option (HashSet T.Protocol) → Option (HashSet T.Protocol)
  session p [] o = o
  session p (command_rx c ∷ rest) o = session p rest (entry_after p c (λ q. true) o)
  session p (sleep ∷ rest) o = session p rest o

  -- Whether the last of a command and the commands before it (`b`) that registers or unregisters
  -- `p` registers it.
  unfoldable pub tell : T.PeerId → FilterCommand T K → Bool → Bool
  tell p (Filter.register_peer q sink) b = ite (T.peer_eq q p) true b
  tell p (Filter.unregister_peer q) b = ite (T.peer_eq q p) false b
  tell p (Filter.protocol_opened q pr) b = b
  tell p (Filter.protocol_closed q pr) b = b
  tell p (Filter.discover_peer q) b = b
  tell p (Filter.install_notification_filter pr filter context) b = b
  tell p (Filter.install_request_response_filter pr filter context) b = b
  tell p (Filter.inject_notification pr q n) b = b
  tell p (Filter.inject_request pr q r) b = b
  tell p (Filter.inject_response pr q r) b = b

  unfoldable pub registered : T.PeerId → List (Wake T K) → Bool → Bool
  registered p [] b = b
  registered p (command_rx c ∷ rest) b = registered p rest (tell p c b)
  registered p (sleep ∷ rest) b = registered p rest b

  entry_after-tell :
      (p : T.PeerId) (c : FilterCommand T K) (h : T.PeerId → Bool) (o : Option (HashSet T.Protocol))
      (b : Bool)
      → (contained o ≡ true → b ≡ true)
      → contained (entry_after p c h o) ≡ true
      → tell p c b ≡ true
  unfolding tell entry_after
  entry_after-tell p (Filter.register_peer q sink) h o b k e = ground arith
  entry_after-tell p (Filter.unregister_peer q) h o b k e = ground arith
  entry_after-tell p (Filter.protocol_opened q pr) h (some ps) b k e = k refl
  entry_after-tell p (Filter.protocol_opened q pr) h none b k e = ground arith
  entry_after-tell p (Filter.protocol_closed q pr) h (some ps) b k e = k refl
  entry_after-tell p (Filter.protocol_closed q pr) h none b k e = ground arith
  entry_after-tell p (Filter.discover_peer q) h o b k e = k e
  entry_after-tell p (Filter.install_notification_filter pr filter context) h o b k e = k e
  entry_after-tell p (Filter.install_request_response_filter pr filter context) h o b k e = k e
  entry_after-tell p (Filter.inject_notification pr q n) h o b k e = k e
  entry_after-tell p (Filter.inject_request pr q r) h o b k e = k e
  entry_after-tell p (Filter.inject_response pr q r) h o b k e = k e

module _ {T : NetworkBackend} {E : Executor T} {K : PacketSink T} (p : T.PeerId) where
  poll_filter-protocols : (f : Filter T E K) → protocols_of p (poll_filter f).1 ≡ protocols_of p f
  unfolding poll_filter
  poll_filter-protocols f = with_events-protocols p _ _ f

  -- If the executor accepts every registration, then after any commands and any calls of the timer
  -- the filter knows a peer, and its protocols, as the commands on that peer say, whatever events
  -- the executor returns.
  pub run-protocols :
      (ws : List (Wake T K)) (f : Filter T E K)
      → ((q : T.PeerId) (x : E.State) → is_ok (E.register_peer q x).0 ≡ true)
      → protocols_of p (run ws f) ≡ session p ws (protocols_of p f)
  unfolding run wake session
  run-protocols [] f a = refl
  run-protocols (command_rx c ∷ rest) f a =
      run-protocols rest _ a
      ∙ ap (session p rest) (
          handle_command-protocols p c f
          ∙ ap (λ h. entry_after p c h (protocols_of p f)) (λ i q. a q f.executor i))
  run-protocols (sleep ∷ rest) f a =
      run-protocols rest _ a ∙ ap (session p rest) (poll_filter-protocols f)

  -- Whatever the executor answers, a filter that knows a peer after any commands and any calls of
  -- the timer was told of it: the last command that registers or unregisters the peer registers it,
  -- or there is none, and the filter knew it before (`b`).
  pub run-registered :
      (ws : List (Wake T K)) (f : Filter T E K) (b : Bool)
      → (contained (protocols_of p f) ≡ true → b ≡ true)
      → contained (protocols_of p (run ws f)) ≡ true
      → registered p ws b ≡ true
  unfolding run wake registered
  run-registered [] f b before after = before after
  run-registered (sleep ∷ rest) f b before after =
      run-registered rest (poll_filter f).1 b
        (λ e. before (ap contained (sym (poll_filter-protocols f)) ∙ e)) after
  run-registered (command_rx c ∷ rest) f b before after =
      run-registered rest (handle_command c f).1 (tell p c b)
        (λ e.
          entry_after-tell p c (accepts f) (protocols_of p f) b before
            (ap contained (sym (handle_command-protocols p c f)) ∙ e))
        after
