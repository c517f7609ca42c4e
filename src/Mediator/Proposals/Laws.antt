-- ===== src/Mediator/Proposals/Laws.antt =====
-- What an admitted proposal satisfies, and that each proposal has its event, in order.
use entigram.Base.{true, ◌≡◌, Option, none, some, [], all, find_first, All}
use entigram.Base.Json.{Json, object, Entries, empty, get, get_text, get_object, is_object}
use entigram.Mediator.Effects.{Tool, absent, _completed_effect}
use entigram.Mediator.Proposals.{Mediator, is_rule, citation_errors, declared, Admissions}
use entigram.Mediator.Proposals.Prerequisites.{follows}

-- the properties that a schema lists, where there are none if it has no such entry
pub data Lists : Option Json → Entries → Type 0 where
  no_properties : Lists none empty
  its_properties : (properties : Entries) → Lists (some (object properties)) properties

-- A schema whose `properties`, if it has any, are an object.
abbrev pub IsRegular : Json → Type 0
IsRegular parameters =
    (schema : Entries) (v : Json)
    → parameters ≡ object schema
    → get "properties" schema ≡ some v
    → is_object v ≡ true

-- A proposal that names a declared tool, which no rule prohibits, after every prerequisite that a
-- rule names for it; its arguments are an object that the schema accepts, no citation among them is
-- unverified, and unless the schema's properties are no object, its effect is not done.
pub record IsClean (m : Mediator) (proposal : Entries) : Type 0 where
  pub tool : Tool
  pub named : declared m (get_text "name" proposal) ≡ some tool
  pub unprohibited : find_first (is_rule "prohibition" tool.name) m.explicit_rules ≡ none
  pub prepared : all (follows m.state.executed_tools tool.name) m.explicit_rules ≡ true
  pub arguments : Entries
  pub given : get_object "arguments" proposal ≡ some arguments
  pub valid : m.tool_argument_errors arguments tool.parameters ≡ []
  pub cited :
      (schema properties : Entries)
      → tool.parameters ≡ object schema
      → Lists (get "properties" schema) properties
      → citation_errors m properties arguments ≡ []
  pub fresh : IsRegular tool.parameters → _completed_effect m.naming m.state tool arguments ≡ absent

module _ (m : Mediator) where
  abbrev AllClean : Option (Admissions m) → Type 0
  AllClean none = Unit
  AllClean (some r) = All (IsClean m) r.admitted
