-- ===== src/Examples/Values.antt =====
-- Values of the user's Python code, as a tree.
use swarm_host.Prelude.{
  ℕ, ◌≡◌, refl, Bool, true, false, none, some, List, [], ◌∷◌, inl, inr, ◌⊎◌, Option, String,
  if◌then◌else◌,
}
use text.Mathlib.Text.{◌==◌ as str_eq}
use swarm_host.Executor.{connect, send_response}
use swarm_host.Executor.Conversion.{
  Objects, extracted, extract_events, extract_request, extract_response, RequestHandlingResult,
  ResponseHandlingResult,
}
use swarm_host.Executor.Encoding.{
  done, say, connects, responds, extract_events-AllSay, extract-AreAnswers,
}
use swarm_host.Demo.{network}

mutual
  data Value : Type 0 where
    nil : Value
    number : ℕ → Value
    raw : List ℕ → Value
    many : Values → Value
    dict : Fields → Value

  data Values : Type 0 where
    end : Values
    item : Value → Values → Values

  data Fields : Type 0 where
    empty : Fields
    field : String → Value → Fields → Fields

abbrev items : Values → List Value
items end = []
items (item v vs) = v ∷ items vs

abbrev is_nil : Value → Bool
is_nil nil = true
is_nil v = false

abbrev as_fields : Value → String ⊎ Fields
as_fields (dict d) = inr d
as_fields v = inl "no dictionary"

abbrev as_items : Value → String ⊎ List Value
as_items (many vs) = inr (items vs)
as_items v = inl "no list"

abbrev as_raw : Value → String ⊎ List ℕ
as_raw (raw b) = inr b
as_raw v = inl "no bytes"

abbrev as_number : Value → Option ℕ
as_number (number n) = some n
as_number v = none

abbrev as_usize : Value → String ⊎ ℕ
as_usize (number n) = inr n
as_usize v = inl "no number"

abbrev lookup : String → Fields → Option Value
lookup key empty = none
lookup key (field k v rest) = if str_eq k key then some v else lookup key rest

abbrev tree : Objects network
tree = record {
  Any = Value;
  Dict = Fields;
  PyErr = String;
  is_none = is_nil;
  as_dict = as_fields;
  as_list = as_items;
  get_item = lookup;
  bytes = as_raw;
  usize = as_usize;
  type_error = λ text. text;
  invalid = λ d. "Invalid type received";
  peer = as_number;
  protocol = as_number;
  message = as_number;
}

abbrev answer_fields : String → Fields
answer_fields key = field "peer" (number 7) (field key (raw (1 ∷ 2 ∷ [])) empty)

abbrev connect_fields : Fields
connect_fields = field "Connect" (number 9) empty

abbrev respond_fields : Fields
respond_fields = field "SendResponse" (dict (answer_fields "response")) empty

abbrev two_events : Value
two_events = many (item (dict connect_fields) (item (dict respond_fields) end))

extract_events-AllSay_example :
    extract_events tree two_events ≡ extracted (connect 9 ∷ send_response 7 (1 ∷ 2 ∷ []) ∷ [])
extract_events-AllSay_example =
    extract_events-AllSay tree two_events (dict connect_fields ∷ dict respond_fields ∷ [])
      (connect 9 ∷ send_response 7 (1 ∷ 2 ∷ []) ∷ []) refl refl
      (say connect_fields (connect 9 ∷ []) refl (connects 9 (number 9, refl, refl)) (
        say respond_fields (send_response 7 (1 ∷ 2 ∷ []) ∷ []) refl
          (responds (answer_fields "response") (1 ∷ 2 ∷ []) 7 refl refl refl
            (dict (answer_fields "response"), refl, refl) (raw (1 ∷ 2 ∷ []), refl, refl)
            (number 7, refl, refl))
          done))

abbrev answers : Value
answers = many (item (dict (answer_fields "payload")) end)

abbrev under : Fields
under = field "Responses" answers empty

abbrev to_request : Fields
to_request = field "Response" answers empty

abbrev to_response : Fields
to_response = field "Response" (dict under) empty

extract-AreAnswers_example :
    (extract_request tree (dict to_request)
      ≡ extracted (RequestHandlingResult.response ((7, 1 ∷ 2 ∷ []) ∷ [])))
    × (extract_response tree (dict to_response)
        ≡ extracted (ResponseHandlingResult.response ((7, 1 ∷ 2 ∷ []) ∷ []) none))
extract-AreAnswers_example =
    extract-AreAnswers tree (dict to_request) (dict to_response) to_request to_response under
      (dict (answer_fields "payload") ∷ []) ((7, 1 ∷ 2 ∷ []) ∷ []) refl refl refl
      (answers, refl, refl) refl refl (dict under, refl, refl) (answers, refl, refl)
      ((answer_fields "payload", refl, (number 7, refl, refl), (raw (1 ∷ 2 ∷ []), refl, refl)), tt)
