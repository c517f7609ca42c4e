-- ===== src/Mediator/Effects.antt =====
-- What identifies a declared effect, and whether it is done already: `_effect_identity` and
-- `_completed_effect`.
use Prim.Native.Char.{Char}
use entigram.Base.{
  map, String, Bool, true, false, not, ◌&&◌, ◌==◌, ◌++◌, if◌then◌else◌, Option, none, some, List,
  [], ◌∷◌, any, keep,
}
use entigram.Base.Json.{
  Json, null, boolean, string, array, object, Jsons, nil, cons, Entries, empty, entry, get, json_eq,
}
use entigram.Mediator.{Receipt, SessionState}
use entigram.Trust.Edits.{sort_texts}

-- a tool of the normalized contract
pub record Tool : Type 0 where
  pub name : String
  pub description : String
  pub parameters : Json

-- The searches by regular expressions over names (`EFFECT_IDENTITY_FIELD_PATTERN`,
-- `EFFECT_OUTCOME_FIELD_PATTERN`), and `json.dumps` of a number or a Boolean.
pub record Naming : Type 0 where
  pub is_identity_field : String → Bool
  pub is_outcome_field : String → Bool
  pub scalar_text : Json → String

-- the keyword of a schema, if it is a dict
unfoldable pub keyword : String → Json → Option Json
unfolding get
keyword key (object schema) = get key schema
keyword key _ = none

abbrev pub is_marked : Option Json → Bool
is_marked (some (boolean true)) = true
is_marked _ = false

abbrev pub names_of : Entries → List String
names_of empty = []
names_of (entry k _ d) = k ∷ names_of d

-- a list that holds texts only
abbrev texts_of : Jsons → Option (List String)
texts_of nil = some []
texts_of (cons (string s) xs) = elim (texts_of xs) [ none ↦ none | some ss ↦ some (s ∷ ss) ]
texts_of (cons _ xs) = none

abbrev listed : Option Json → Option (List String)
listed (some (string s)) = some (s ∷ [])
listed (some (array xs)) = texts_of xs
listed _ = none

abbrev is_given : Option Json → Bool
is_given none = false
is_given (some null) = false
is_given (some _) = true

abbrev same_value : Option Json → Option Json → Bool
same_value none none = true
same_value none (some null) = true
same_value (some null) none = true
same_value (some v) (some w) = json_eq v w
same_value _ _ = false

-- What the search for a receipt of an effect answers, or the error that it raises.
pub data Search : Type 0 where
  absent present raises : Search

abbrev characters : String → List Char
characters String.[] = []
characters (String.◌∷◌ c s) = c ∷ characters s

module _ (n : Naming) where
  -- of `arguments.get(name)`, where a missing value is `None`
  unfoldable pub _identity_value : Option Json → Option String
  _identity_value none = none
  _identity_value (some null) = none
  _identity_value (some (object _)) = none
  _identity_value (some (array _)) = none
  _identity_value (some (string s)) = if s == "" then none else some s
  _identity_value (some v) = some (n.scalar_text v)

  -- The loop over the names. A configured name without a value makes the whole identity empty.
  unfoldable pub identity_values : Bool → Entries → List String → Option (List (String × String))
  unfolding _identity_value get
  identity_values configured arguments [] = some []
  identity_values configured arguments (name ∷ names) =
      elim (identity_values configured arguments names) [
        | none ↦ none
        | some rest ↦ elim (_identity_value (get name arguments)) [
          | some value ↦ some ((name, value) ∷ rest)
          | none ↦ if configured then none else some rest
        ]
      ]

  abbrev or_empty : Option (List (String × String)) → List (String × String)
  or_empty none = []
  or_empty (some values) = values

  abbrev identity_names : Option (List String) → Entries → List String
  identity_names (some names) arguments = names
  identity_names none arguments = sort_texts (keep n.is_identity_field (names_of arguments))

  unfoldable pub _effect_identity : Tool → Entries → List (String × String)
  unfolding keyword identity_values sort_texts
  _effect_identity tool arguments =
      let configured = keyword "x-entigram-idempotency-key" tool.parameters in
      or_empty (
        identity_values (is_given configured) arguments
          (identity_names (listed configured) arguments))

  abbrev same_identity : List (String × String) → List (String × String) → Bool
  same_identity [] [] = true
  same_identity ((k, v) ∷ a) ((j, w) ∷ b) = k == j && (v == w && same_identity a b)
  same_identity _ _ = false

  -- some outcome field of either side differs
  unfoldable pub outcome_differs : Entries → Entries → Bool
  unfolding get json_eq
  outcome_differs arguments others =
      any (λ name. not (same_value (get name arguments) (get name others)))
        (keep n.is_outcome_field (names_of arguments ++ names_of others))

  -- the elements of a value that Python iterates over, as texts; `none` is the `TypeError` of one that
  -- is not iterable, or of the pattern on an element that is no text
  abbrev iterated : Json → Option (List String)
  iterated (array xs) = texts_of xs
  iterated (string s) = some (map (λ c. String.◌∷◌ c "") (characters s))
  iterated _ = none

  -- `_effect_identity` of the arguments in a receipt, which may be no object: `none` is the error that
  -- `arguments.get` or the iteration then raises.
  unfoldable pub receipt_identity : Tool → Json → Option (List (String × String))
  unfolding _effect_identity keyword
  receipt_identity tool (object arguments) = some (_effect_identity tool arguments)
  receipt_identity tool v = elim (listed (keyword "x-entigram-idempotency-key" tool.parameters)) [
    | some [] ↦ some []
    | some (_ ∷ _) ↦ none
    | none ↦ elim (iterated v) [
      | none ↦ none
      | some names ↦ if any n.is_identity_field names then none else some []
    ]
  ]

  abbrev entries_of : Json → Entries
  entries_of (object e) = e
  entries_of _ = empty

  -- A receipt of the same effect: by its identity, or by equal arguments where there is none. `none` is
  -- an error.
  unfoldable pub is_same_effect : Tool → Entries → Receipt → Option Bool
  unfolding _effect_identity receipt_identity keyword outcome_differs json_eq
  is_same_effect tool arguments r = elim (_effect_identity tool arguments) [
    | [] ↦ some (json_eq r.arguments (object arguments))
    | i ∷ is ↦ elim (receipt_identity tool r.arguments) [
      | none ↦ none
      | some other ↦ some (
          same_identity other (i ∷ is)
          && not (
              is_marked (keyword "x-entigram-allow-correction" tool.parameters)
              && outcome_differs arguments (entries_of r.arguments)))
    ]
  ]

  unfoldable pub completes : Tool → Entries → Receipt → Option Bool
  unfolding is_same_effect
  completes tool arguments r =
      if r.success && r.tool_name == tool.name then is_same_effect tool arguments r else some false

  -- the loop of `_completed_effect` over the receipts
  unfoldable pub search : Tool → Entries → List Receipt → Search
  unfolding completes
  search tool arguments [] = absent
  search tool arguments (r ∷ rs) = elim (completes tool arguments r) [
    | none ↦ raises
    | some true ↦ present
    | some false ↦ search tool arguments rs
  ]

  unfoldable pub _completed_effect : SessionState → Tool → Entries → Search
  unfolding search keyword
  _completed_effect state tool arguments =
      if is_marked (keyword "x-entigram-repeatable" tool.parameters)
      then absent
      else search tool arguments state.tool_results
