-- ===== src/Mediator.antt =====
-- The session of the hydrated mediator (entigram/governance/hydrated_mediator.py): the receipts of
-- tool calls, and the messages that they are read from.
pub mod Effects
pub mod Proposals
pub mod Receipts
pub mod Lifecycle
use entigram.Base.{
  ℕ, String, Bool, true, false, not, ◌+◌, ◌&&◌, ◌||◌, ◌==◌, ◌++◌, if◌then◌else◌, Option, none, some,
  List, [], ◌∷◌, any, contains, eqb, holds, lookup,
}
use entigram.Base.Json.{
  Json, null, boolean, number, string, array, object, Jsons, nil, cons, Entries, empty, entry, get,
  get_text, get_object,
}

-- an executed tool call and its output (`ToolResultProvenance`); `success` is its status
pub record Receipt : Type 0 where
  pub call_id : String
  pub tool_name : String
  pub arguments : Json
  pub output : Json
  pub success : Bool
  pub step_index : ℕ

pub record SessionState : Type 0 where
  pub executed_tools : List String
  pub tool_results : List Receipt
  pub recorded_call_ids : List String
  pub observed_facts : List (String × Json)
  pub step_counter : ℕ

abbrev pub new_session : SessionState
new_session = record {
  executed_tools = [];
  tool_results = [];
  recorded_call_ids = [];
  observed_facts = [];
  step_counter = 0;
}

-- a call that an assistant's message asks for
pub record Call : Type 0 where
  pub name : String
  pub arguments : Json

-- `json.loads`, where `none` is the error, and `casefold`
pub record Texts : Type 0 where
  pub parse_json : String → Option Json
  pub casefold : String → String

-- a set, in the order of insertion
abbrev pub with_name : String → List String → List String
with_name s set = if contains set s then set else set ++ s ∷ []

abbrev pub new_receipt : String → Call → Json → Bool → ℕ → Receipt
new_receipt call_id call output success step = record {
  call_id = call_id;
  tool_name = call.name;
  arguments = call.arguments;
  output = output;
  success = success;
  step_index = step;
}

unfoldable pub record_tool_result : String → Call → Json → Bool → SessionState → SessionState
record_tool_result call_id call output success s =
    if contains s.recorded_call_ids call_id then s else record {
      executed_tools = if success then with_name call.name s.executed_tools else s.executed_tools;
      tool_results =
          s.tool_results ++ new_receipt call_id call output success (s.step_counter + 1) ∷ [];
      recorded_call_ids = call_id ∷ s.recorded_call_ids;
      observed_facts = if success then (call.name, output) ∷ s.observed_facts else s.observed_facts;
      step_counter = s.step_counter + 1;
    }

-- `bool(value)`
abbrev pub truthy : Json → Bool
truthy null = false
truthy (boolean b) = b
truthy (number s n) = not (eqb n 0)
truthy (string s) = not (s == "")
truthy (array nil) = false
truthy (array (cons _ _)) = true
truthy (object empty) = false
truthy (object (entry _ _ _)) = true

abbrev is_true : Option Json → Bool
is_true (some (boolean true)) = true
is_true _ = false

abbrev is_false : Option Json → Bool
is_false (some (boolean false)) = true
is_false _ = false

abbrev given : Option Json → Bool
given none = false
given (some v) = truthy v

-- `a or b`, where both are texts or missing
abbrev or_text : Option String → String → String
or_text none s = s
or_text (some r) s = if r == "" then s else r

abbrev default : Option String → String
default none = ""
default (some s) = s

-- content or output
abbrev or_value : Option Json → Option Json → Json
or_value none (some w) = w
or_value none none = string ""
or_value (some v) w = if truthy v then v else elim w [ some x ↦ x | none ↦ string "" ]

abbrev or_object : Option Json → Entries
or_object (some (object e)) = e
or_object _ = empty

-- the calls that the messages so far asked for, by their ids
abbrev pub Calls : Type 0
Calls = List (String × Call)

-- what the loop over the messages carries
pub record Reading : Type 0 where
  pub calls : Calls
  pub state : SessionState

module _ (t : Texts) where
  -- content that an integration marks as untrusted, external, or an artifact
  unfoldable pub is_untrusted : Entries → Bool
  unfolding get_object get_text
  is_untrusted message = elim (get_object "provenance" message) [
    | none ↦ false
    | some provenance ↦ elim (get_text "trust" provenance) [
      | none ↦ false
      | some trust ↦ contains ("untrusted" ∷ "external" ∷ "artifact" ∷ []) (t.casefold trust)
    ]
  ]

  -- A text is parsed, whatever JSON it holds, and is taken as empty where it is none; of other values,
  -- those that are missing or empty are.
  abbrev arguments_of : Option Json → Json
  arguments_of none = object empty
  arguments_of (some (string s)) = elim (t.parse_json s) [ none ↦ object empty | some v ↦ v ]
  arguments_of (some v) = if truthy v then v else object empty

  abbrev either : Option Json → Option Json → Option Json
  either (some v) w = some v
  either none w = w

  -- a call with an id, of a message whose `tool_calls` hold it
  unfoldable pub call_of : Entries → Option (String × Call)
  unfolding get get_text get_object
  call_of call =
      let function = or_object (get "function" call) in
      let id = default (get_text "id" call) in
      if id == ""
      then none
      else some (
        id,
        record {
          name = elim (get "name" function) [
            | some (string s) ↦ s
            | some _ ↦ ""
            | none ↦ default (get_text "name" call)
          ];
          arguments = arguments_of (either (get "arguments" function) (get "arguments" call));
        },
      )

  abbrev add_call : Option (String × Call) → Calls → Calls
  add_call none calls = calls
  add_call (some c) calls = c ∷ calls

  unfoldable pub add_calls : Jsons → Calls → Calls
  unfolding call_of
  add_calls nil calls = calls
  add_calls (cons (object c) rest) calls = add_calls rest (add_call (call_of c) calls)
  add_calls (cons _ rest) calls = add_calls rest calls

  -- The outputs that tell of a failure. A denial or a cancellation may be an outcome of the business.
  unfoldable pub reports_failure : Json → Bool
  unfolding get get_text
  reports_failure (object e) =
      is_false (get "success" e)
      || (is_false (get "ok" e)
          || (is_true (get "isError" e)
              || (given (get "error" e) || elim (get_text "status" e) [
                | none ↦ false
                | some status ↦ contains ("failed" ∷ "failure" ∷ "error" ∷ []) (t.casefold status)
              ])))
  reports_failure _ = false

  abbrev parsed : Json → Json
  parsed (string s) = elim (t.parse_json s) [ none ↦ string s | some v ↦ v ]
  parsed v = v

  unfoldable pub result_id : Entries → String
  unfolding get_text
  result_id message =
      or_text (get_text "tool_call_id" message)
        (or_text (get_text "call_id" message) (default (get_text "id" message)))

  unfoldable pub result_output : Entries → Json
  unfolding get
  result_output message = or_value (get "content" message) (get "output" message)

  unfoldable pub result_success : Entries → Bool
  unfolding reports_failure result_output get
  result_success message = not (
      is_true (get "isError" message)
      || (is_true (get "error" message) || reports_failure (parsed (result_output message))))

  -- the result that a message reports, if its call is known
  unfoldable pub add_result : Entries → Calls → SessionState → SessionState
  unfolding record_tool_result result_id result_output result_success
  add_result message calls s =
      if result_id message == "" then s else elim (lookup (result_id message) calls) [
        | none ↦ s
        | some call ↦
            record_tool_result (result_id message) call (result_output message)
              (result_success message) s
      ]

  abbrev calls_in : Option Json → Calls → Calls
  calls_in (some (array calls)) known = add_calls calls known
  calls_in _ known = known

  -- the tests of the loop on the role and the type of a message
  unfoldable pub asks : Entries → Bool
  unfolding get get_text
  asks message = holds (get_text "role" message) "assistant" && given (get "tool_calls" message)

  unfoldable pub reports : Entries → Bool
  unfolding get_text
  reports message =
      holds (get_text "role" message) "tool"
      || holds (get_text "type" message) "function_call_output"

  -- the body of the loop, on a message that is a dict
  unfoldable pub read_entries : Entries → Reading → Reading
  unfolding is_untrusted asks reports add_calls add_result get
  read_entries message r =
      if is_untrusted message
      then r
      else if asks message
      then record r { calls = calls_in (get "tool_calls" message) r.calls }
      else if reports message
      then record r { state = add_result message r.calls r.state }
      else r

  unfoldable pub read_message : Json → Reading → Reading
  unfolding read_entries
  read_message (object message) r = read_entries message r
  read_message _ r = r

  unfoldable pub read_messages : List Json → Reading → Reading
  unfolding read_message
  read_messages [] r = r
  read_messages (m ∷ ms) r = read_messages ms (read_message m r)

  -- The calls are gathered anew each time, the state is that of the session.
  unfoldable pub update_state : List Json → SessionState → SessionState
  unfolding read_messages
  update_state messages s = (read_messages messages (record { calls = []; state = s })).state
