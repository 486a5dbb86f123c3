-- ===== src/Executor/Encoding.antt =====
-- src/executor/pyo3/conversion.rs: what the dictionaries and lists of the user's code stand for, as
-- relations on their entries, and that they are read as that.
use swarm_host.Prelude.{ℕ, String, ◌≡◌, refl, false, inr, none, some, List, [], ◌∷◌, ◌++◌}
use swarm_host.Backend.{NetworkBackend}
use swarm_host.Executor.{ExecutorEvent, connect, forward, send_request, send_response}
use swarm_host.Executor.Conversion.{
  Objects, Extract, extracted, each, RequestHandlingResult, ResponseHandlingResult, extract_pair,
  extract_responses, extract_request, extract_response, extract_peers, extract_forward,
  extract_send_request, extract_send_response, extract_event, extract_events,
}

module _ {T : NetworkBackend} (J : Objects T) where
  -- The entry under the key reads as this value.
  abbrev Peer : String → J.Dict → T.PeerId → Type 0
  Peer key d p = (x : J.Any) × (J.get_item key d ≡ some x) × (J.peer x ≡ some p)

  abbrev Protocol : String → J.Dict → T.Protocol → Type 0
  Protocol key d p = (x : J.Any) × (J.get_item key d ≡ some x) × (J.protocol x ≡ some p)

  abbrev Message : String → J.Dict → T.Message → Type 0
  Message key d m = (x : J.Any) × (J.get_item key d ≡ some x) × (J.message x ≡ some m)

  abbrev Bytes : String → J.Dict → List ℕ → Type 0
  Bytes key d b = (x : J.Any) × (J.get_item key d ≡ some x) × (J.bytes x ≡ inr b)

  -- A dictionary under the key.
  abbrev Inner : String → J.Dict → J.Dict → Type 0
  Inner key d d' = (x : J.Any) × (J.get_item key d ≡ some x) × (J.as_dict x ≡ inr d')

  abbrev Items : String → J.Dict → List J.Any → Type 0
  Items key d xs = (x : J.Any) × (J.get_item key d ≡ some x) × (J.as_list x ≡ inr xs)

  abbrev ArePeers : List J.Any → List T.PeerId → Type 0
  ArePeers [] [] = Unit
  ArePeers (x ∷ xs) (p ∷ ps) = (J.peer x ≡ some p) × ArePeers xs ps
  ArePeers xs ps = ⊥

  abbrev Lacks : String → J.Dict → Type 0
  Lacks key d = J.get_item key d ≡ none

  -- The event that a dictionary stands for, by the first of the keys that it has.
  pub data Says (d : J.Dict) : List (ExecutorEvent T) → Type 0 where
    connects : (p : T.PeerId) → Peer "Connect" d p → Says d (connect p ∷ [])
    forwards :
        (info : J.Dict) (xs : List J.Any) (ps : List T.PeerId) (pr : T.Protocol) (m : T.Message)
        → Lacks "Connect" d
        → Inner "Forward" d info
        → Message "notification" info m
        → Items "peers" info xs
        → ArePeers xs ps
        → Protocol "protocol" info pr
        → Says d (forward ps pr m ∷ [])
    requests :
        (info : J.Dict) (b : List ℕ) (p : T.PeerId) (pr : T.Protocol)
        → Lacks "Connect" d
        → Lacks "Forward" d
        → Inner "SendRequest" d info
        → Bytes "request" info b
        → Peer "peer" info p
        → Protocol "protocol" info pr
        → Says d (send_request p pr b ∷ [])
    responds :
        (info : J.Dict) (b : List ℕ) (p : T.PeerId)
        → Lacks "Connect" d
        → Lacks "Forward" d
        → Lacks "SendRequest" d
        → Inner "SendResponse" d info
        → Bytes "response" info b
        → Peer "peer" info p
        → Says d (send_response p b ∷ [])
    other :
        Lacks "Connect" d
        → Lacks "Forward" d
        → Lacks "SendRequest" d
        → Lacks "SendResponse" d
        → Says d []

  pub data AllSay : List J.Any → List (ExecutorEvent T) → Type 0 where
    done : AllSay [] []
    say :
        {x : J.Any} {xs : List J.Any} {es : List (ExecutorEvent T)} (d : J.Dict)
        (e : List (ExecutorEvent T))
        → J.as_dict x ≡ inr d
        → Says d e
        → AllSay xs es
        → AllSay (x ∷ xs) (e ++ es)

  -- Dictionaries of a peer and a payload.
  abbrev pub AreAnswers : List J.Any → List (T.PeerId × List ℕ) → Type 0
  AreAnswers [] [] = Unit
  AreAnswers (x ∷ xs) ((p, b) ∷ rest) =
      ((d : J.Dict) × (J.as_dict x ≡ inr d) × Peer "peer" d p × Bytes "payload" d b)
      × AreAnswers xs rest
  AreAnswers xs rest = ⊥

  each-cons :
      {A B : Type 0} (f : A → Extract J.PyErr (List B)) (a : A) (rest : List A) (bs cs : List B)
      → f a ≡ extracted bs
      → each f rest ≡ extracted cs
      → each f (a ∷ rest) ≡ extracted (bs ++ cs)
  unfolding each
  each-cons f a rest bs cs e e' = rw (e, e', each) refl

  extract_peers-ArePeers :
      (xs : List J.Any) (ps : List T.PeerId) → ArePeers xs ps → extract_peers J xs ≡ extracted ps
  unfolding extract_peers each
  extract_peers-ArePeers [] [] h = refl
  extract_peers-ArePeers (x ∷ xs) (p ∷ ps) h =
      each-cons _ x xs (p ∷ []) ps (rw (h.0) refl) (extract_peers-ArePeers xs ps h.1)
  extract_peers-ArePeers [] (p ∷ ps) h = absurd h
  extract_peers-ArePeers (x ∷ xs) [] h = absurd h

  extract_event-Says :
      (x : J.Any) (d : J.Dict) (e : List (ExecutorEvent T))
      → J.as_dict x ≡ inr d
      → Says d e
      → extract_event J x ≡ extracted e
  unfolding extract_event extract_forward extract_send_request extract_send_response
  extract_event-Says x d e h (connects p (y, k, v)) = rw (h, k, v, extract_event) refl
  extract_event-Says x d e h
        (forwards info xs ps pr m c (y, k, v) (n, n1, n2) (l, l1, l2) a (q, q1, q2)) =
      rw (h, c, k, v, n1, n2, l1, l2, extract_peers-ArePeers xs ps a, q1, q2, extract_event) refl
  extract_event-Says x d e h
        (requests info b p pr c f (y, k, v) (n, n1, n2) (l, l1, l2) (q, q1, q2)) =
      rw (h, c, f, k, v, n1, n2, l1, l2, q1, q2, extract_event) refl
  extract_event-Says x d e h (responds info b p c f s (y, k, v) (n, n1, n2) (l, l1, l2)) =
      rw (h, c, f, s, k, v, n1, n2, l1, l2, extract_event) refl
  extract_event-Says x d e h (other c f s r) = rw (h, c, f, s, r, extract_event) refl

  each-AllSay :
      (xs : List J.Any) (es : List (ExecutorEvent T))
      → AllSay xs es
      → each (extract_event J) xs ≡ extracted es
  unfolding each
  each-AllSay xs es done = refl
  each-AllSay xs es (say {x} {xs = ys} {es = es'} d e h s rest) =
      each-cons (extract_event J) x ys e es' (extract_event-Says x d e h s)
        (each-AllSay ys es' rest)

  -- A list of dictionaries that stand for events is read as these events, all of them and in the
  -- order of the list; a dictionary is read by the first of the keys Connect, Forward, SendRequest
  -- and SendResponse that it has, and one that has none of them stands for no event.
  pub extract_events-AllSay :
      (object : J.Any) (xs : List J.Any) (es : List (ExecutorEvent T))
      → J.is_none object ≡ false
      → J.as_list object ≡ inr xs
      → AllSay xs es
      → extract_events J object ≡ extracted es
  unfolding extract_events
  extract_events-AllSay object xs es n l h = rw (n, l, each-AllSay xs es h, extract_events) refl

  extract_responses-AreAnswers :
      (no_payload : String) (xs : List J.Any) (rs : List (T.PeerId × List ℕ))
      → AreAnswers xs rs
      → extract_responses J no_payload xs ≡ extracted rs
  unfolding extract_responses extract_pair each
  extract_responses-AreAnswers no_payload [] [] h = refl
  extract_responses-AreAnswers no_payload (x ∷ xs) ((p, b) ∷ rs)
        ((d, hd, (y, k, v), (z, k', v')), rest) =
      each-cons _ x xs ((p, b) ∷ []) rs (rw (hd, k, k', v, v', extract_pair) refl)
        (extract_responses-AreAnswers no_payload xs rs rest)
  extract_responses-AreAnswers no_payload [] (r ∷ rs) h = absurd h
  extract_responses-AreAnswers no_payload (x ∷ xs) [] h = absurd h

  -- A list of dictionaries of a peer and a payload is read in its order, both as the responses to a
  -- request (under Response) and as those to a response (under Response, then Responses), unless the
  -- outer dictionary has a key that comes before it.
  pub extract-AreAnswers :
      (object inner : J.Any) (d d' fields : J.Dict) (xs : List J.Any)
      (rs : List (T.PeerId × List ℕ))
      → J.as_dict object ≡ inr d
      → Lacks "DoNothing" d
      → Lacks "Request" d
      → Items "Response" d xs
      → J.as_dict inner ≡ inr d'
      → Lacks "DoNothing" d'
      → Inner "Response" d' fields
      → Items "Responses" fields xs
      → AreAnswers xs rs
      → (extract_request J object ≡ extracted (RequestHandlingResult.response rs))
        × (extract_response J inner ≡ extracted (ResponseHandlingResult.response rs none))
  unfolding extract_request extract_response
  extract-AreAnswers object inner d d' fields xs rs h dn rq (y, k, v) h' dn' (z, k', v') (w, j, u)
        a =
      (
        rw
            (
              h,
              dn,
              rq,
              k,
              v,
              extract_responses-AreAnswers "Response missing" xs rs a,
              extract_request,
            )
            refl,
        rw
            (
              h',
              dn',
              k',
              v',
              j,
              u,
              extract_responses-AreAnswers "Request missing" xs rs a,
              extract_response,
            )
            refl,
      )
