-- ===== src/Citations/Scan.antt =====
-- The loops of `_policy_section_numbers` and `_policy_heading_numbers`, and
-- `is_permitted_policy_reference`.
use entigram.Base.{
  ℕ, Bool, true, false, not, zero, suc, ◌+◌, ◌||◌, ◌++◌, if◌then◌else◌, Option, none, some, List,
  [], ◌∷◌, all, any, eqb, length, ltb, leb, same_codes, take,
}
use entigram.Citations.{
  Characters, nth, drop, starts_with, find_from, passes, casefold, _skip_whitespace, Parsed,
  out_of_fuel, no_number, number, _parse_section_number,
}

-- what a loop comes to: its result, an `IndexError`, or no end within the fuel
pub data Run {ℓ} (A : Type ℓ) : Type ℓ where
  ended : A → Run A
  overrun : Run A
  exhausted : Run A

pub record Numbers : Type 0 where
  pub found : List (List ℕ)
  pub cursor : ℕ

-- one round of a loop: it goes on behind the index with what it found, or stops
pub data Round : Type 0 where
  stops : Round
  raises : Round
  starves : Round
  goes_on : List (List ℕ) → ℕ → Round

abbrev pub section : List ℕ
section = b's' ∷ b'e' ∷ b'c' ∷ b't' ∷ b'i' ∷ b'o' ∷ b'n' ∷ []

abbrev pub section_sign : ℕ
section_sign = 167

abbrev pub and_word : List ℕ
and_word = b'a' ∷ b'n' ∷ b'd' ∷ []

-- `min` of the indices that are found
abbrev pub first_of : Option ℕ → Option ℕ → Option ℕ
first_of none b = b
first_of (some a) none = some a
first_of (some a) (some b) = some (if leb a b then a else b)

module _ (u : Characters) (value lower : List ℕ) where
  abbrev pub parsed_part : Parsed u → Round
  parsed_part out_of_fuel = starves
  parsed_part (no_number _) = stops
  parsed_part (number n cursor) = goes_on (n ∷ []) cursor

  -- Behind a number: a separator at the index, and the number that follows it.
  unfoldable pub part : ℕ → Round
  unfolding nth drop starts_with _skip_whitespace _parse_section_number
  part separator_start =
      let cursor = _skip_whitespace u value separator_start in
      if passes (λ c. eqb c b',' || eqb c b'&') (nth value cursor)
      then parsed_part (_parse_section_number u value (cursor + 1))
      else if not (starts_with and_word (drop cursor lower))
      then stops
      else if eqb (cursor + 3) (length value)
      then parsed_part (_parse_section_number u value (cursor + 3))
      else elim (nth value (cursor + 3)) [
        | none ↦ raises
        | some c ↦
            if u.is_alnum c then stops else parsed_part (_parse_section_number u value (cursor + 3))
      ]

  abbrev pub joined : List (List ℕ) → Run Numbers → Run Numbers
  joined ns (ended r) = ended (record { found = ns ++ r.found; cursor = r.cursor })
  joined ns overrun = overrun
  joined ns exhausted = exhausted

  -- the inner loop, while the cursor is inside the text
  unfoldable pub parts : ℕ → ℕ → Run Numbers
  unfolding part
  parts zero cursor =
      if ltb cursor (length value)
      then exhausted
      else ended (record { found = []; cursor = cursor })
  parts (suc fuel) cursor = elim (ltb cursor (length value)) [
    | false ↦ ended (record { found = []; cursor = cursor })
    | true ↦ elim (part cursor) [
      | stops ↦ ended (record { found = []; cursor = cursor })
      | raises ↦ overrun
      | starves ↦ exhausted
      | goes_on ns next ↦ joined ns (parts fuel next)
    ]
  ]

  abbrev pub max : ℕ → ℕ → ℕ
  max a b = if leb a b then b else a

  abbrev pub listed : ℕ → List ℕ → Run Numbers → Round
  listed start n (ended r) = goes_on (n ∷ r.found) (max r.cursor (start + 1))
  listed start n overrun = raises
  listed start n exhausted = starves

  -- from the word or the sign on, with the cursor behind it
  unfoldable pub citation : ℕ → ℕ → Round
  unfolding nth parts _parse_section_number
  citation start cursor =
      if passes u.is_alpha (nth value cursor)
      then goes_on [] (cursor + 1)
      else elim (_parse_section_number u value cursor) [
        | out_of_fuel ↦ starves
        | no_number _ ↦ goes_on [] (start + 1)
        | number n next ↦ listed start n (parts (length value) next)
      ]

  -- the plural of the word
  unfoldable pub word_at : ℕ → Round
  unfolding nth citation
  word_at start =
      let cursor = start + 7 in
      if not (ltb cursor (length value)) then citation start cursor else elim (nth lower cursor) [
        | none ↦ raises
        | some c ↦ citation start (if eqb c b's' then cursor + 1 else cursor)
      ]

  unfoldable pub candidate : ℕ → Round
  unfolding nth word_at citation
  candidate start = elim (nth value start) [
    | none ↦ raises
    | some c ↦ if eqb c section_sign then citation start (start + 1) else word_at start
  ]

  unfoldable pub guarded : ℕ → Round
  unfolding nth candidate
  guarded zero = candidate zero
  guarded (suc before) = elim (nth value before) [
    | none ↦ raises
    | some c ↦ if u.is_alnum c then goes_on [] (suc before + 1) else candidate (suc before)
  ]

  unfoldable pub round : ℕ → Round
  unfolding find_from guarded
  round index =
      elim (first_of (find_from section lower index) (find_from (section_sign ∷ []) value index)) [
        | none ↦ stops
        | some start ↦ guarded start
      ]

  abbrev pub gathered : List (List ℕ) → Run (List (List ℕ)) → Run (List (List ℕ))
  gathered ns (ended r) = ended (ns ++ r)
  gathered ns overrun = overrun
  gathered ns exhausted = exhausted

  -- the outer loop, while the index is inside the text
  unfoldable pub scan : ℕ → ℕ → Run (List (List ℕ))
  unfolding round
  scan zero index = if ltb index (length value) then exhausted else ended []
  scan (suc fuel) index = elim (ltb index (length value)) [
    | false ↦ ended []
    | true ↦ elim (round index) [
      | stops ↦ ended []
      | raises ↦ overrun
      | starves ↦ exhausted
      | goes_on ns next ↦ gathered ns (scan fuel next)
    ]
  ]

module _ (u : Characters) where
  unfoldable pub _policy_section_numbers : List ℕ → ℕ → Run (List (List ℕ))
  unfolding scan casefold
  _policy_section_numbers text max_length =
      let value = take max_length text in scan u value (casefold u value) (length value) 0

  abbrev pub max_policy_citation_length : ℕ
  max_policy_citation_length = 4096

  abbrev is_bare_end : Option ℕ → Bool
  is_bare_end none = true
  is_bare_end (some c) = eqb c b'.' || eqb c b')'

  -- a reference that starts with its number
  unfoldable pub bare_number : List ℕ → List (List ℕ)
  unfolding nth _skip_whitespace _parse_section_number
  bare_number reference =
      elim (_parse_section_number u reference (_skip_whitespace u reference 0)) [
        | number n cursor ↦ if is_bare_end (nth reference cursor) then n ∷ [] else []
        | _ ↦ []
      ]

  -- `f"Section {number}"`
  abbrev pub labelled : List ℕ → List ℕ
  labelled n = b'S' ∷ b'e' ∷ b'c' ∷ b't' ∷ b'i' ∷ b'o' ∷ b'n' ∷ b' ' ∷ n

  abbrev pub is_listed : List (List ℕ) → List ℕ → Bool
  is_listed permitted s = any (same_codes s) permitted

  abbrev all_listed : List (List ℕ) → List (List ℕ) → Bool
  all_listed permitted [] = false
  all_listed permitted (n ∷ ns) = all (λ m. is_listed permitted (labelled m)) (n ∷ ns)

  abbrev cited : List ℕ → List (List ℕ) → List (List ℕ)
  cited reference [] = bare_number (take max_policy_citation_length reference)
  cited reference (n ∷ ns) = n ∷ ns

  -- of a reference that is a text
  unfoldable pub is_permitted_policy_reference : List ℕ → List (List ℕ) → Run Bool
  unfolding _policy_section_numbers bare_number
  is_permitted_policy_reference reference permitted =
      if is_listed permitted reference
      then ended true
      else elim (_policy_section_numbers reference max_policy_citation_length) [
        | overrun ↦ overrun
        | exhausted ↦ exhausted
        | ended ns ↦ ended (all_listed permitted (cited reference ns))
      ]
