-- ===== src/Mediator/Proposals.antt =====
-- The admission of proposed tool calls: readiness by explicit rules, `_proposal_denial_errors` and
-- `admit_proposals`.
pub mod Prerequisites
pub mod Events
pub mod Laws
use entigram.Base.{
  ℕ, String, Bool, true, false, not, ◌&&◌, ◌||◌, ◌==◌, ◌++◌, if◌then◌else◌, Option, none, some,
  List, [], ◌∷◌, all, any, contains, find_first, holds, keep, last_where, map,
}
use entigram.Base.Json.{
  Json, null, string, array, object, Jsons, nil, cons, Entries, empty, entry, get, get_text,
  get_object,
}
use entigram.Mediator.{SessionState, with_name}
use entigram.Mediator.Effects.{Tool, Naming, Search, absent, present, _completed_effect}
use entigram.Trust.Edits.{sort_texts}

pub record ExplicitRule : Type 0 where
  pub rule_type : String
  pub description : String
  pub target_tool : Option String
  pub prerequisites : List String
  pub evidence_ids : List String

-- What a hydrated mediator holds, and what it calls: the validator of JSON Schema, the search for
-- the fields of citations, and `is_permitted_policy_reference` on one reference.
pub record Mediator : Type 0 where
  pub tools : List Tool
  pub explicit_rules : List ExplicitRule
  pub explicit_policy_references : List String
  pub permitted_policy_references : List String
  pub state : SessionState
  pub naming : Naming
  pub tool_argument_errors : Entries → Json → List String
  pub is_policy_reference_field : String → Option Json → Bool
  pub is_permitted_policy_reference : Json → List String → Bool

pub data Readiness : Type 0 where
  undeclared enabled : Readiness
  prohibited : String → Readiness
  missing : List String → Readiness

pub data DenialCode : Type 0 where
  undeclared_tool missing_prerequisite prohibited_action invalid_arguments : DenialCode
  unverified_policy_reference duplicate_completed_action : DenialCode
  schema_error : String → DenialCode
  -- no code of the source: the comparison with a receipt raises, and ends the call
  comparison_error : DenialCode

pub record Denial : Type 0 where
  pub errors : List DenialCode
  pub missing_prerequisites : List String
  pub evidence_links : List String

abbrev pub union : List String → List String → List String
union set [] = set
union set (s ∷ ss) = union (with_name s set) ss

abbrev pub is_rule : String → String → ExplicitRule → Bool
is_rule kind name rule = holds rule.target_tool name && rule.rule_type == kind

abbrev pub all_prerequisites : List String → List ExplicitRule → List String
all_prerequisites set [] = set
all_prerequisites set (rule ∷ rules) = all_prerequisites (union set rule.prerequisites) rules

abbrev elements : Json → List Json
elements (array nil) = []
elements (array (cons v vs)) = v ∷ elements (array vs)
elements v = v ∷ []

-- the elements of a list, or the one value
abbrev pub cited : Json → List Json
cited v = elements v

module _ (m : Mediator) where
  unfoldable pub get_explicit_prerequisites : String → List String
  unfolding sort_texts
  get_explicit_prerequisites name =
      sort_texts (all_prerequisites [] (keep (is_rule "prerequisite" name) m.explicit_rules))

  abbrev pub lacking : List String → List String
  lacking names = keep (λ p. not (contains m.state.executed_tools p)) names

  abbrev pub settled : List String → Readiness
  settled [] = enabled
  settled (p ∷ ps) = missing (p ∷ ps)

  unfoldable pub evaluate_tool_readiness : String → Readiness
  unfolding get_explicit_prerequisites
  evaluate_tool_readiness name =
      if not (any (λ (t : Tool). t.name == name) m.tools)
      then undeclared
      else elim (find_first (is_rule "prohibition" name) m.explicit_rules) [
        | some rule ↦ prohibited rule.description
        | none ↦ settled (lacking (get_explicit_prerequisites name))
      ]

  abbrev is_enabled : Readiness → Bool
  is_enabled enabled = true
  is_enabled _ = false

  unfoldable pub get_enabled_tools : List Tool
  unfolding evaluate_tool_readiness
  get_enabled_tools = keep (λ (t : Tool). is_enabled (evaluate_tool_readiness t.name)) m.tools

  abbrev pub readiness_errors : Readiness → List DenialCode
  readiness_errors enabled = []
  readiness_errors (missing _) = missing_prerequisite ∷ []
  readiness_errors _ = prohibited_action ∷ []

  abbrev pub lacked : Readiness → List String
  lacked (missing ps) = ps
  lacked _ = []

  -- the evidence of the rules on a tool
  abbrev pub linked : String → List ExplicitRule → List String
  linked name [] = []
  linked name (rule ∷ rules) =
      let rest = linked name rules in
      if holds rule.target_tool name then rule.evidence_ids ++ rest else rest

  -- `explicit_policy_references or permitted_policy_references`
  abbrev or_permitted : List String → List String
  or_permitted [] = m.permitted_policy_references
  or_permitted (r ∷ rs) = r ∷ rs

  abbrev pub references : List String
  references = or_permitted m.explicit_policy_references

  abbrev is_some_list : List String → Bool
  is_some_list [] = false
  is_some_list (_ ∷ _) = true

  -- an argument that cites something that the policy does not supply
  unfoldable pub is_unverified : Entries → String → Json → Bool
  unfolding get
  is_unverified properties name value =
      m.is_policy_reference_field name (get name properties)
      && (is_some_list references
          && not (all (λ r. m.is_permitted_policy_reference r references) (cited value)))

  unfoldable pub citation_errors : Entries → Entries → List DenialCode
  unfolding is_unverified
  citation_errors properties empty = []
  citation_errors properties (entry name value rest) =
      let more = citation_errors properties rest in
      if is_unverified properties name value then unverified_policy_reference ∷ more else more

  abbrev pub coded : List String → List DenialCode
  coded codes = map schema_error codes

  abbrev pub duplicate : Search → List DenialCode
  duplicate present = duplicate_completed_action ∷ []
  duplicate absent = []
  duplicate Search.raises = comparison_error ∷ []

  -- The checks behind those of the schema, by its `properties`. Properties that are no object end
  -- the checks before that of the effect.
  abbrev pub property_denials : Tool → Entries → Option Json → List DenialCode
  property_denials tool arguments none =
      citation_errors empty arguments
      ++ duplicate (_completed_effect m.naming m.state tool arguments)
  property_denials tool arguments (some (object properties)) =
      citation_errors properties arguments
      ++ duplicate (_completed_effect m.naming m.state tool arguments)
  property_denials tool arguments (some _) = []

  abbrev pub schema_denials : Tool → Entries → Json → List DenialCode
  schema_denials tool arguments (object schema) =
      property_denials tool arguments (get "properties" schema)
  schema_denials tool arguments _ = duplicate (_completed_effect m.naming m.state tool arguments)

  unfoldable pub argument_denials : Tool → Entries → List DenialCode
  unfolding get citation_errors _completed_effect
  argument_denials tool arguments =
      coded (m.tool_argument_errors arguments tool.parameters)
      ++ schema_denials tool arguments tool.parameters

  unfoldable pub tool_denial : Tool → String → Option Entries → Denial
  unfolding argument_denials evaluate_tool_readiness sort_texts
  tool_denial tool name none = record {
    errors = readiness_errors (evaluate_tool_readiness name) ++ invalid_arguments ∷ [];
    missing_prerequisites = lacked (evaluate_tool_readiness name);
    evidence_links = linked name m.explicit_rules;
  }
  tool_denial tool name (some arguments) = record {
    errors = readiness_errors (evaluate_tool_readiness name) ++ argument_denials tool arguments;
    missing_prerequisites = lacked (evaluate_tool_readiness name);
    evidence_links = sort_texts (union [] (linked name m.explicit_rules));
  }

  -- the tool that a name declares: the last one, as in a dict
  abbrev pub declared : Option String → Option Tool
  declared none = none
  declared (some name) = last_where (λ (t : Tool). t.name == name) m.tools

  unfoldable pub _proposal_denial_errors : Entries → Denial
  unfolding tool_denial get_text get_object
  _proposal_denial_errors proposal = elim (declared (get_text "name" proposal)) [
    | none ↦ record {
      errors = undeclared_tool ∷ [];
      missing_prerequisites = [];
      evidence_links = [];
    }
    | some tool ↦ tool_denial tool tool.name (get_object "arguments" proposal)
  ]

  -- the event of a proposal, by the parts that others act on
  pub record ProposalEvent : Type 0 where
    pub proposal : Entries
    pub permitted : Bool
    pub denial : Denial

  abbrev pub is_allowed : List DenialCode → Bool
  is_allowed [] = true
  is_allowed (_ ∷ _) = false

  pub record Admissions : Type 0 where
    pub admitted : List Entries
    pub events : List ProposalEvent

  abbrev pub with_event : Entries → Denial → Admissions → Admissions
  with_event proposal denial rest = record {
    admitted = if is_allowed denial.errors then proposal ∷ rest.admitted else rest.admitted;
    events =
        record { proposal = proposal; permitted = is_allowed denial.errors; denial = denial }
        ∷ rest.events;
  }

  abbrev is_error : DenialCode → Bool
  is_error comparison_error = true
  is_error _ = false

  abbrev pub raises : List DenialCode → Bool
  raises es = any is_error es

  abbrev pub and_event : Entries → Denial → Option Admissions → Option Admissions
  and_event proposal denial none = none
  and_event proposal denial (some rest) =
      if raises denial.errors then none else some (with_event proposal denial rest)

  -- `none` is the error that a comparison with a receipt raises.
  unfoldable pub admit_proposals : List Json → Option Admissions
  unfolding _proposal_denial_errors
  admit_proposals [] = some (record { admitted = []; events = [] })
  admit_proposals (object proposal ∷ rest) =
      and_event proposal (_proposal_denial_errors proposal) (admit_proposals rest)
  admit_proposals (_ ∷ rest) = admit_proposals rest
