-- ===== src/Base/Json.antt =====
-- JSON values as Python holds them, without floats: `isinstance` tests, `dict.get`, `==`.
use Prim.Native.Nat.{ℕ}
use Prim.Native.String.{String}
use mathlib.Core.Bool.{Bool, true, false, ◌&&◌, ◌||◌}
use mathlib.Core.Option.{Option, none, some}
use text.Mathlib.Text.{◌==◌}
use entigram.Base.Tests.{if◌then◌else◌, eqb}

-- An integer `n` is `number false n`, or `number true n` for `-n`.
mutual
  pub data Json : Type 0 where
    null : Json
    boolean : Bool → Json
    number : Bool → ℕ → Json
    string : String → Json
    array : Jsons → Json
    object : Entries → Json

  pub data Jsons : Type 0 where
    nil : Jsons
    cons : Json → Jsons → Jsons

  pub data Entries : Type 0 where
    empty : Entries
    entry : String → Json → Entries → Entries

-- `d.get(k)`
unfoldable pub get : String → Entries → Option Json
get k empty = none
get k (entry j v d) = if j == k then some v else get k d

-- `d.get(k)` where it is a text
unfoldable pub get_text : String → Entries → Option String
unfolding get
get_text k d = elim (get k d) [ some (string s) ↦ some s | _ ↦ none ]

unfoldable pub entry_count : Entries → ℕ
entry_count empty = 0
entry_count (entry k v d) = Prim.Native.Nat.suc (entry_count d)

abbrev same_sign : Bool → Bool → Bool
same_sign true b = b
same_sign false true = false
same_sign false false = true

abbrev bit : Bool → ℕ
bit true = 1
bit false = 0

-- `a == b` of two numbers: there is one zero
abbrev same_number : Bool → ℕ → Bool → ℕ → Bool
same_number s m t n = eqb m n && (eqb m 0 || same_sign s t)

-- Python's `==`: a Boolean equals the number 0 or 1, and a dict has no order.
unfoldable mutual
  unfolding get entry_count

  pub json_eq : Json → Json → Bool
  json_eq null null = true
  json_eq (boolean a) (boolean b) = eqb (bit a) (bit b)
  json_eq (boolean a) (number t n) = same_number false (bit a) t n
  json_eq (number s m) (boolean b) = same_number s m false (bit b)
  json_eq (number s m) (number t n) = same_number s m t n
  json_eq (string a) (string b) = a == b
  json_eq (array xs) (array ys) = jsons_eq xs ys
  json_eq (object d) (object e) = eqb (entry_count d) (entry_count e) && entries_within d e
  json_eq _ _ = false

  pub jsons_eq : Jsons → Jsons → Bool
  jsons_eq nil nil = true
  jsons_eq (cons x xs) (cons y ys) = json_eq x y && jsons_eq xs ys
  jsons_eq _ _ = false

  pub entries_within : Entries → Entries → Bool
  entries_within empty e = true
  entries_within (entry k v d) e =
      elim (get k e) [ none ↦ false | some w ↦ json_eq v w ] && entries_within d e

unfoldable pub entries_eq : Entries → Entries → Bool
unfolding entry_count entries_within
entries_eq d e = eqb (entry_count d) (entry_count e) && entries_within d e

abbrev pub is_text : Json → Bool
is_text (string s) = true
is_text _ = false

abbrev pub is_object : Json → Bool
is_object (object d) = true
is_object _ = false

-- `d.get(k)` where it is a dict
unfoldable pub get_object : String → Entries → Option Entries
unfolding get
get_object k d = elim (get k d) [ some (object e) ↦ some e | _ ↦ none ]
