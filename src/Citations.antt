-- ===== src/Citations.antt =====
-- Citations of policy sections (entigram/governance/action_admission.py): the scanner of section
-- numbers, with its indices into the text and into its case-folded copy, and what it permits.
pub mod Scan
pub mod Ends
pub mod Bounds
use entigram.Base.{
  ℕ, Bool, true, false, not, zero, suc, ◌+◌, ◌-◌, ◌&&◌, ◌||◌, ◌++◌, if◌then◌else◌, Option, none,
  some, List, [], ◌∷◌, eqb, is_space, length, ltb, take,
}

-- The classes of characters and the case folding of Unicode, which come with Python: `isdigit`,
-- `isalpha`, `isalnum`, and `casefold` of one character, which may yield several.
pub record Characters : Type 0 where
  pub is_digit : ℕ → Bool
  pub is_alpha : ℕ → Bool
  pub is_alnum : ℕ → Bool
  pub fold : ℕ → List ℕ

-- `s[i]`, where `none` is the `IndexError`
unfoldable pub nth : List ℕ → ℕ → Option ℕ
nth [] i = none
nth (c ∷ s) zero = some c
nth (c ∷ s) (suc i) = nth s i

-- `s[i:]`
unfoldable pub drop : ℕ → List ℕ → List ℕ
drop zero s = s
drop (suc n) [] = []
drop (suc n) (c ∷ s) = drop n s

-- how many characters at the start pass a test
unfoldable pub leading : (ℕ → Bool) → List ℕ → ℕ
leading p [] = 0
leading p (c ∷ s) = let rest = leading p s in if p c then suc rest else 0

unfoldable pub starts_with : List ℕ → List ℕ → Bool
starts_with [] s = true
starts_with (a ∷ p) [] = false
starts_with (a ∷ p) (c ∷ s) = eqb a c && starts_with p s

abbrev pub later : Option ℕ → Option ℕ
later none = none
later (some k) = some (suc k)

-- the offset at which a text that is not empty first stands
unfoldable pub find : List ℕ → List ℕ → Option ℕ
unfolding starts_with
find p [] = none
find p (c ∷ s) = let rest = later (find p s) in if starts_with p (c ∷ s) then some 0 else rest

abbrev pub shifted : ℕ → Option ℕ → Option ℕ
shifted i none = none
shifted i (some k) = some (i + k)

-- `s.find(p, i)`, where `none` is -1
unfoldable pub find_from : List ℕ → List ℕ → ℕ → Option ℕ
unfolding find drop
find_from p s i = shifted i (find p (drop i s))

abbrev pub passes : (ℕ → Bool) → Option ℕ → Bool
passes p none = false
passes p (some c) = p c

module _ (u : Characters) where
  unfoldable pub casefold : List ℕ → List ℕ
  casefold [] = []
  casefold (c ∷ s) = u.fold c ++ casefold s

  -- the loop moves to the first character that is not white space
  unfoldable pub _skip_whitespace : List ℕ → ℕ → ℕ
  unfolding is_space leading drop
  _skip_whitespace value index = index + leading is_space (drop index value)

  -- past the digits at an index
  unfoldable pub skip_digits : List ℕ → ℕ → ℕ
  unfolding leading drop
  skip_digits value index = index + leading u.is_digit (drop index value)

  -- The loop over the parts `.digits`, on fuel; the length of the text is enough, as each round passes
  -- a dot.
  unfoldable pub skip_parts : ℕ → List ℕ → ℕ → Option ℕ
  unfolding nth skip_digits
  skip_parts zero value index =
      if passes (eqb b'.') (nth value index) && passes u.is_digit (nth value (index + 1))
      then none
      else some index
  skip_parts (suc fuel) value index =
      elim (passes (eqb b'.') (nth value index) && passes u.is_digit (nth value (index + 1))) [
        | true ↦ skip_parts fuel value (skip_digits value (index + 1))
        | false ↦ some index
      ]

  -- a number that is found, or none, with the index behind
  pub data Parsed : Type 0 where
    out_of_fuel : Parsed
    no_number : ℕ → Parsed
    number : List ℕ → ℕ → Parsed

  abbrev with_letter : List ℕ → ℕ → ℕ
  with_letter value index = if passes u.is_alpha (nth value index) then index + 1 else index

  -- `value[start:index]`
  abbrev slice : List ℕ → ℕ → ℕ → List ℕ
  slice value start index = take (index - start) (drop start value)

  unfoldable pub _parse_section_number : List ℕ → ℕ → Parsed
  unfolding nth drop _skip_whitespace skip_digits skip_parts
  _parse_section_number value index =
      let start = _skip_whitespace value index in
      if not (passes u.is_digit (nth value start))
      then no_number start
      else elim (skip_parts (length value) value (skip_digits value start)) [
        | none ↦ out_of_fuel
        | some behind ↦
            number (slice value start (with_letter value behind)) (with_letter value behind)
      ]
