-- ===== src/Heuristics/Updates.antt =====
-- src/heuristics/mod.rs, `HeuristicsBackend::run` with its timer: what is sent to the WebSocket server,
-- and when. The text of an update (serde_json) is left out: an update is the tables themselves. The
-- clock is an argument, in nanoseconds: its reading at the test, and the one that is kept.
use swarm_host.Prelude.{
  ℕ, ◌+◌, ◌-◌, ◌≤◌, ◌<◌, ◌≡◌, refl, sym, ap, ◌∙◌, List, [], ◌∷◌, ◌++◌, arith, Elem, Elem-cons,
  Elem-append, Elem-nil, length, length-append, inl, inr, Option, none, some, true, false,
  Bool-cases, ltb, append-nil, append_assoc, collect, ◌⊎◌,
}
use swarm_host.Backend.{NetworkBackend}
use swarm_host.Heuristics.{HeuristicsEvent, Peers, handle_event, run}

-- UPDATE_INTERVAL, of three seconds
abbrev pub update_interval : ℕ
update_interval = 3000000000

pub record HeuristicsBackend (T : NetworkBackend) : Type 0 where
  pub peers : Peers T
  pub ws_tx : List (Peers T)
  pub now : ℕ

-- An event, or `none` for the end of the sleep.
pub record Turn (T : NetworkBackend) : Type 0 where
  pub received : Option (HeuristicsEvent T)
  pub tested : ℕ
  pub kept : ℕ

module _ {T : NetworkBackend} where
  unfoldable pub select_event : Option (HeuristicsEvent T) → Peers T → Peers T
  select_event none peers = peers
  select_event (some event) peers = handle_event event peers

  -- The body of the loop.
  unfoldable pub turn : Turn T → HeuristicsBackend T → HeuristicsBackend T
  unfolding select_event
  turn t b =
      let peers = select_event t.received b.peers in
      elim (ltb (t.tested - b.now) update_interval) [
        | true ↦ record b { peers = peers }
        | false ↦ record { peers = peers; ws_tx = b.ws_tx ++ peers ∷ []; now = t.kept }
      ]

  unfoldable pub watch : List (Turn T) → HeuristicsBackend T → HeuristicsBackend T
  watch [] b = b
  watch (t ∷ rest) b = watch rest (turn t b)

  -- The events of the turns.
  abbrev pub events : List (Turn T) → List (HeuristicsEvent T)
  events ts = collect (λ t. elim t.received [ none ↦ [] | some event ↦ event ∷ [] ]) ts

  -- The clock does not run backwards: each reading is at least the one before it, the first `now`.
  abbrev pub Ticks : ℕ → List (Turn T) → Type 0
  Ticks now [] = Unit
  Ticks now (t ∷ ts) = (now ≤ t.tested) × (t.tested ≤ t.kept) × Ticks t.kept ts

  -- The tables after the first events.
  pub record IsPast (all : List (HeuristicsEvent T)) (start update : Peers T) : Type 0 where
    pub before : List (HeuristicsEvent T)
    pub after : List (HeuristicsEvent T)
    pub split : all ≡ before ++ after
    pub then : update ≡ run before start

  -- What a window of turns adds to the updates, and the tables that it leaves.
  pub record Updated (ts : List (Turn T)) (b b' : HeuristicsBackend T) : Type 0 where
    pub tables : b'.peers ≡ run (events ts) b.peers
    pub updates : List (Peers T)
    pub sent : b'.ws_tx ≡ b.ws_tx ++ updates
    pub past : (u : Peers T) → Elem u updates → IsPast (events ts) b.peers u

  select_event-run :
      (e : Option (HeuristicsEvent T)) (es : List (HeuristicsEvent T)) (peers : Peers T)
      → run es (select_event e peers)
        ≡ run (elim e [ none ↦ [] | some event ↦ event ∷ [] ] ++ es) peers
  unfolding select_event run
  select_event-run none es peers = refl
  select_event-run (some event) es peers = refl

  turn-peers :
      (t : Turn T) (b : HeuristicsBackend T) → (turn t b).peers ≡ select_event t.received b.peers
  unfolding turn
  turn-peers t b = ground arith

  -- What a turn sends.
  abbrev sent_by : Turn T → HeuristicsBackend T → List (Peers T)
  sent_by t b = elim (ltb (t.tested - b.now) update_interval) [
    | true ↦ []
    | false ↦ select_event t.received b.peers ∷ []
  ]

  turn-ws_tx : (t : Turn T) (b : HeuristicsBackend T) → (turn t b).ws_tx ≡ b.ws_tx ++ sent_by t b
  unfolding turn
  turn-ws_tx t b = elim (Bool-cases (ltb (t.tested - b.now) update_interval)) [
    | inl q ↦ rw (q, turn, sent_by) (sym (append-nil b.ws_tx))
    | inr q ↦ rw (q, turn, sent_by) refl
  ]

  sent_by-Elem :
      (t : Turn T) (b : HeuristicsBackend T) (u : Peers T)
      → Elem u (sent_by t b)
      → u ≡ select_event t.received b.peers
  sent_by-Elem t b u e = elim (Bool-cases (ltb (t.tested - b.now) update_interval)) [
    | inl q ↦ absurd (Elem-nil (rw (q, sent_by) at e))
    | inr q ↦ elim (Elem-cons (rw (q, sent_by) at e)) [ inl p ↦ p | inr k ↦ absurd (Elem-nil k) ]
  ]

  watch-tables :
      (ts : List (Turn T)) (b : HeuristicsBackend T) → (watch ts b).peers ≡ run (events ts) b.peers
  unfolding watch run
  watch-tables [] b = refl
  watch-tables (t ∷ ts) b =
      watch-tables ts (turn t b)
      ∙ (ap (run (events ts)) (turn-peers t b) ∙ select_event-run t.received (events ts) b.peers)

  -- The event of a turn, if there is one.
  abbrev event_of : Turn T → List (HeuristicsEvent T)
  event_of t = elim t.received [ none ↦ [] | some event ↦ event ∷ [] ]

  IsPast-now :
      (t : Turn T) (ts : List (Turn T)) (start u : Peers T)
      → u ≡ select_event t.received start
      → IsPast (events (t ∷ ts)) start u
  unfolding run
  IsPast-now t ts start u e = record {
    before = event_of t ++ [];
    after = events ts;
    split = ap (λ es. es ++ events ts) (sym (append-nil (event_of t)));
    then = e ∙ select_event-run t.received [] start;
  }

  IsPast-later :
      (t : Turn T) (ts : List (Turn T)) (b : HeuristicsBackend T) (u : Peers T)
      → IsPast (events ts) (turn t b).peers u
      → IsPast (events (t ∷ ts)) b.peers u
  IsPast-later t ts b u h = record {
    before = event_of t ++ h.before;
    after = h.after;
    split = ap (λ es. event_of t ++ es) h.split ∙ sym (append_assoc (event_of t) h.before h.after);
    then =
        h.then
        ∙ (ap (run h.before) (turn-peers t b) ∙ select_event-run t.received h.before b.peers);
  }

  watch-Updated : (ts : List (Turn T)) (b : HeuristicsBackend T) → Updated ts b (watch ts b)
  unfolding watch run
  watch-Updated [] b = record {
    tables = refl;
    updates = [];
    sent = sym (append-nil b.ws_tx);
    past = λ u e. absurd (Elem-nil e);
  }
  watch-Updated (t ∷ ts) b =
      let rest = watch-Updated ts (turn t b) in
      record {
        tables = watch-tables (t ∷ ts) b;
        updates = sent_by t b ++ rest.updates;
        sent =
            rest.sent
            ∙ (ap (λ us. us ++ rest.updates) (turn-ws_tx t b)
                ∙ append_assoc b.ws_tx (sent_by t b) rest.updates);
        past = λ u e. elim (Elem-append (sent_by t b) e) [
          | inl k ↦ IsPast-now t ts b.peers u (sent_by-Elem t b u k)
          | inr k ↦ IsPast-later t ts b u (rest.past u k)
        ];
      }

  -- The updates become no fewer.
  length-watch :
      (ts : List (Turn T)) (b : HeuristicsBackend T) → length b.ws_tx ≤ length (watch ts b).ws_tx
  length-watch ts b =
      let w = watch-Updated ts b in omega (arith, ap length w.sent, length-append b.ws_tx w.updates)

  -- A turn sends an update, or leaves the clock as it was, which is not due.
  turn-due :
      (t : Turn T) (b : HeuristicsBackend T)
      → (length b.ws_tx < length (turn t b).ws_tx)
        ⊎ (((turn t b).now ≡ b.now) × (t.tested - b.now < update_interval))
  unfolding turn
  turn-due t b = elim (Bool-cases (ltb (t.tested - b.now) update_interval)) [
    | inl q ↦ inr (rw (q, turn) refl, ground (arith, q))
    | inr q ↦
        let one_sent : length (sent_by t b) ≡ 1 = rw (q, sent_by) refl in
        inl
          (omega (arith, ap length (turn-ws_tx t b), length-append b.ws_tx (sent_by t b), one_sent))
  ]

  watch-due :
      (ts : List (Turn T)) (t : Turn T) (b : HeuristicsBackend T)
      → b.now + update_interval ≤ t.tested
      → length b.ws_tx < length (watch (ts ++ t ∷ []) b).ws_tx
  unfolding watch
  watch-due [] t b h = elim (turn-due t b) [ inl k ↦ k | inr k ↦ absurd (omega (arith, k.1, h)) ]
  watch-due (s ∷ ts) t b h = elim (turn-due s b) [
    | inl k ↦ omega (arith, k, length-watch (ts ++ t ∷ []) (turn s b))
    | inr k ↦
        omega (arith, watch-due ts t (turn s b) (omega (arith, h, k.0)), length-watch (s ∷ []) b)
  ]

  Ticks-earlier : (m n : ℕ) (ts : List (Turn T)) → m ≤ n → Ticks n ts → Ticks m ts
  Ticks-earlier m n [] h k = tt
  Ticks-earlier m n (t ∷ ts) h k = (omega (arith, h, k.0), k.1, k.2)

  turn-now :
      (t : Turn T) (b : HeuristicsBackend T)
      → b.now ≤ t.tested
      → t.tested ≤ t.kept
      → (turn t b).now ≤ t.kept
  unfolding turn
  turn-now t b h k = ground (arith, h, k)

  watch-now :
      (ts : List (Turn T)) (s : Turn T) (b : HeuristicsBackend T)
      → Ticks b.now (ts ++ s ∷ [])
      → (watch (ts ++ s ∷ []) b).now ≤ s.kept
  unfolding watch
  watch-now [] s b h = turn-now s b h.0 h.1
  watch-now (r ∷ ts) s b h =
      watch-now ts s (turn r b) (Ticks-earlier _ r.kept _ (turn-now r b h.0 h.1) h.2)

  -- Let the clock not run backwards up to some turn. A window of later turns, in any number, whose last
  -- one tests the clock at least the interval after it was read in that turn, sends an update or more.
  -- Each update of the window is the tables as they were after the first of the events of the window,
  -- some or all; what was sent before stays; and the window leaves the tables after all its events.
  pub watch-window :
      (before window : List (Turn T)) (s t : Turn T) (b : HeuristicsBackend T)
      → Ticks b.now (before ++ s ∷ [])
      → s.kept + update_interval ≤ t.tested
      → let start = watch (before ++ s ∷ []) b in
        let end = watch (window ++ t ∷ []) start in
        Updated (window ++ t ∷ []) start end × (length start.ws_tx < length end.ws_tx)
  watch-window before window s t b ticks h =
      let start = watch (before ++ s ∷ []) b in
      (
        watch-Updated (window ++ t ∷ []) start,
        watch-due window t start (omega (arith, h, watch-now before s b ticks)),
      )
