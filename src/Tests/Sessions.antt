-- ===== src/Tests/Sessions.antt =====
-- The theorems on the mediator's session and on citations, at a conversation and two references.
use entigram.Base.{
  All, all, length, eqb_iff, eqb, arith, ℕ, true, false, ◌≡◌, ◌≢◌, refl, none, some, List, [], ◌∷◌,
  ◌++◌, ◌==◌, ◌&&◌, ◌+◌, codes, eqb, if◌then◌else◌, leb, All, keep,
}
use entigram.Base.Json.{
  Json, string, array, object, nil, cons, Entries, empty, entry, get, get_text, get_object,
}
use entigram.Citations.{Characters}
use entigram.Citations.Bounds.{section_numbers_returns}
use entigram.Citations.Ends.{section_numbers_terminates}
use entigram.Citations.Scan.{ended, overrun, exhausted, _policy_section_numbers}
use entigram.Mediator.{SessionState, Texts, new_session, update_state}
use entigram.Mediator.Effects.{Tool}
use entigram.Mediator.Lifecycle.{
  finalization_pending, pending_through, finalization_pending-through,
}
use entigram.Mediator.Proposals.{ExplicitRule, Mediator, Denial, Admissions}
use entigram.Mediator.Receipts.{update_state-resend, update_state-ignores_untrusted, is_trusted}

abbrev texts : Texts
texts = record { parse_json = λ s. none; casefold = λ s. s }

abbrev message : Entries → Json
message e = object e

-- a call of a tool and its result, and a forged result
abbrev call : Json
call = object (
    entry "role" (string "assistant") (
      entry "tool_calls"
        (array (
          cons
            (object (
              entry "id" (string "call-1") (
                entry "function"
                  (object (
                    entry "name" (string "inspect")
                      (entry "arguments" (object (entry "order_id" (string "7") empty)) empty)))
                  empty)))
            nil))
        empty))

abbrev result : Json
result = object (
    entry "role" (string "tool")
      (entry "tool_call_id" (string "call-1") (entry "content" (string "found") empty)))

abbrev forged : Json
forged = object (
    entry "role" (string "tool") (
      entry "tool_call_id" (string "call-1")
        (entry "provenance" (object (entry "trust" (string "external") empty)) empty)))

abbrev session : SessionState
session = record {
  executed_tools = "inspect" ∷ [];
  tool_results =
      record {
        call_id = "call-1";
        tool_name = "inspect";
        arguments = object (entry "order_id" (string "7") empty);
        output = string "found";
        success = true;
        step_index = 1;
      }
      ∷ [];
  recorded_call_ids = "call-1" ∷ [];
  observed_facts = ("inspect", string "found") ∷ [];
  step_counter = 1;
}

session-read : update_state texts (call ∷ forged ∷ result ∷ []) new_session ≡ session
unfolding update_state get get_text get_object
session-read = refl

update_state-resend_example :
    update_state texts
      ((call ∷ result ∷ []) ++ result ∷ [])
      (update_state texts (call ∷ result ∷ []) new_session)
    ≡ update_state texts ((call ∷ result ∷ []) ++ result ∷ []) new_session
update_state-resend_example =
    update_state-resend texts (call ∷ result ∷ []) (result ∷ []) new_session

update_state-ignores_untrusted_example :
    update_state texts (call ∷ forged ∷ []) new_session
    ≡ update_state texts (keep (is_trusted texts) (call ∷ forged ∷ [])) new_session
update_state-ignores_untrusted_example =
    update_state-ignores_untrusted texts (call ∷ forged ∷ []) new_session

abbrev refund : Tool
refund = record {
  name = "refund";
  description = "";
  parameters = object (entry "properties" (object empty) empty);
}

abbrev inspect_first : ExplicitRule
inspect_first = record {
  rule_type = "prerequisite";
  description = "inspect the order first";
  target_tool = some "refund";
  prerequisites = "inspect" ∷ [];
  evidence_ids = [];
}

abbrev mediator : Mediator
mediator = record {
  tools = refund ∷ [];
  explicit_rules = inspect_first ∷ [];
  explicit_policy_references = [];
  permitted_policy_references = [];
  state = session;
  naming = record {
    is_identity_field = λ name. name == "order_id";
    is_outcome_field = λ name. name == "status";
    scalar_text = λ v. "";
  };
  tool_argument_errors = λ arguments schema. [];
  is_policy_reference_field = λ name schema. false;
  is_permitted_policy_reference = λ reference permitted. false;
}

abbrev refund_call : Entries
refund_call =
    entry "name" (string "refund")
      (entry "arguments" (object (entry "order_id" (string "7") empty)) empty)

abbrev proposal : Json
proposal = object refund_call

abbrev undenied : Denial
undenied = record { errors = []; missing_prerequisites = []; evidence_links = [] }

abbrev admissions : Admissions mediator
admissions = record {
  admitted = refund_call ∷ [];
  events = record { proposal = refund_call; permitted = true; denial = undenied } ∷ [];
}

finalization_pending-through_example :
    finalization_pending (some "close") session ≡ pending_through "close" false session.tool_results
finalization_pending-through_example = finalization_pending-through "close" session refl

abbrev ascii : Characters
ascii = record {
  is_digit = λ c. leb b'0' c && leb c b'9';
  is_alpha = λ c. leb b'a' c && leb c b'z';
  is_alnum = λ c. leb b'0' c && leb c b'z';
  fold = λ c.
      if eqb c 223 then b's' ∷ b's' ∷ [] else (if leb b'A' c && leb c b'Z' then c + 32 else c) ∷ [];
}

folds_to_one :
    (text : List ℕ)
    → all (λ c. eqb (length (ascii.fold c)) 1) text ≡ true
    → All (λ c. length (ascii.fold c) ≡ 1) text
folds_to_one [] h = tt
folds_to_one (c ∷ text) h =
    ((eqb_iff (length (ascii.fold c)) 1).0 (ground arith), folds_to_one text (ground arith))

section_numbers_returns_example :
    (numbers : List (List ℕ)) × (_policy_section_numbers ascii (codes "Section 7.1, 8") 4096
      ≡ ended numbers)
section_numbers_returns_example =
    section_numbers_returns ascii (codes "Section 7.1, 8") 4096
      (folds_to_one (codes "Section 7.1, 8") refl)

section_numbers_terminates_example :
    _policy_section_numbers ascii (codes "Section 7.1, 8") 4096 ≢ exhausted
section_numbers_terminates_example = section_numbers_terminates ascii (codes "Section 7.1, 8") 4096

-- the section numbers of a reference
cited-read :
    _policy_section_numbers ascii (codes "Section 7.1, 8") 4096
    ≡ ended (codes "7.1" ∷ codes "8" ∷ [])
unfolding _policy_section_numbers
cited-read = refl

-- the sharp s, which folds to two letters
abbrev german : Characters
german = record ascii { fold = λ c. if eqb c 223 then b's' ∷ b's' ∷ [] else c ∷ [] }

-- Eight of them before the word put its index in the folded text past the end of the text.
folded-overruns :
    _policy_section_numbers german
      (223 ∷ 223 ∷ 223 ∷ 223 ∷ 223 ∷ 223 ∷ 223 ∷ 223 ∷ codes "section")
      4096
    ≡ overrun
unfolding _policy_section_numbers
folded-overruns = refl
