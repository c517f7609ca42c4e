-- ===== src/Base/Text.antt =====
-- What the source uses of Python's `str`: `strip`, `lower` and the tests on white space.
use Prim.Native.Nat.{ℕ, ◌+◌}
use Prim.Native.Char.{code}
use Prim.Native.String.{String}
use mathlib.Core.Bool.{Bool, true, false, ◌&&◌, ◌||◌}
use mathlib.Core.List.{List, [], ◌∷◌, ◌++◌, reverse}
use text.Mathlib.Text.{◌==◌}
use mathlib.Core.Path.{◌≡◌, refl}
use native.Mathlib.Omega.{arith}
use entigram.Base.Tests.{leb, eqb, eqb_iff, if◌then◌else◌}

-- The code points of a text. `String` has its own `[]` and `∷`.
abbrev pub codes : String → List ℕ
codes String.[] = []
codes (String.◌∷◌ c s) = code c ∷ codes s

-- `str.isspace` of one character
unfoldable pub is_space : ℕ → Bool
is_space c =
    (leb 9 c && leb c 13)
    || (leb 28 c && leb c 32)
    || eqb c 133
    || eqb c 160
    || eqb c 5760
    || (leb 8192 c && leb c 8202)
    || eqb c 8232
    || eqb c 8233
    || eqb c 8239
    || eqb c 8287
    || eqb c 12288

-- `str.lower` of one character, as far as it can yield an ASCII letter: the dotted capital I and
-- the Kelvin sign do, no other character outside ASCII does, and those are left as they are.
unfoldable pub lower_char : ℕ → List ℕ
lower_char c =
    if leb b'A' c && leb c b'Z'
    then (c + 32) ∷ []
    else if eqb c 304
    then b'i' ∷ 775 ∷ []
    else if eqb c 8490
    then b'k' ∷ []
    else c ∷ []

unfoldable pub lower : List ℕ → List ℕ
unfolding lower_char
lower [] = []
lower (c ∷ s) = lower_char c ++ lower s

unfoldable pub lstrip : List ℕ → List ℕ
unfolding is_space
lstrip [] = []
lstrip (c ∷ s) = let rest = lstrip s in if is_space c then rest else c ∷ s

unfoldable pub strip : List ℕ → List ℕ
unfolding lstrip
strip s = reverse (lstrip (reverse (lstrip s)))

-- `not s.strip()`
unfoldable pub is_blank : List ℕ → Bool
unfolding is_space
is_blank [] = true
is_blank (c ∷ s) = is_space c && is_blank s

abbrev pub same_codes : List ℕ → List ℕ → Bool
same_codes [] [] = true
same_codes (a ∷ s) (b ∷ t) = eqb a b && same_codes s t
same_codes _ _ = false

pub same_codes-eq : (s t : List ℕ) → same_codes s t ≡ true → s ≡ t
same_codes-eq [] [] h = refl
same_codes-eq (a ∷ s) (b ∷ t) h =
    rw ((eqb_iff a b).0 (ground arith), same_codes-eq s t (ground arith)) refl
same_codes-eq [] (b ∷ t) h = absurd (ground arith)
same_codes-eq (a ∷ s) [] h = absurd (ground arith)

pub same_codes_refl : (s : List ℕ) → same_codes s s ≡ true
same_codes_refl [] = refl
same_codes_refl (a ∷ s) = ground (arith, same_codes_refl s)

-- `s.replace(a, b)` for single characters
abbrev pub replace_char : ℕ → ℕ → List ℕ → List ℕ
replace_char a b [] = []
replace_char a b (c ∷ s) = (if eqb c a then b else c) ∷ replace_char a b s

-- `s + t`
unfoldable pub join : String → String → String
join String.[] t = t
join (String.◌∷◌ c s) t = String.◌∷◌ c (join s t)

abbrev cons_unless : Bool → String → String → String
cons_unless true s t = s
cons_unless false s t = t

unfoldable pub strip_start : String → String
unfolding is_space
strip_start String.[] = ""
strip_start (String.◌∷◌ c s) =
    let rest = strip_start s in cons_unless (is_space (code c)) rest (String.◌∷◌ c s)

unfoldable pub strip_end : String → String
unfolding is_space
strip_end String.[] = ""
strip_end (String.◌∷◌ c s) =
    let rest = strip_end s in cons_unless (is_space (code c) && rest == "") "" (String.◌∷◌ c rest)

-- `s.strip()`
unfoldable pub strip_text : String → String
unfolding strip_start strip_end
strip_text s = strip_end (strip_start s)
