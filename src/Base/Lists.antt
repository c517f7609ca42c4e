-- ===== src/Base/Lists.antt =====
-- Lists over the native numbers, membership of texts, and the predicate that holds all along a list.
use Prim.Native.Nat.{ℕ, zero, suc}
use Prim.Native.String.{String}
use mathlib.Core.Bool.{Bool, true, false, ◌||◌, ◌&&◌}
use mathlib.Core.Option.{Option, none, some}
use mathlib.Core.Path.{◌≡◌, refl}
use mathlib.Core.Logic.{◌↔◌, ◌⊎◌, inl, inr}
use mathlib.Core.List.{List, [], ◌∷◌, map}
use native.Mathlib.Omega.{arith}
use text.Mathlib.Text.{◌==◌}
use entigram.Base.Tests.{if◌then◌else◌, Bool-cases}

module _ {ℓ} {A : Type ℓ} where
  abbrev pub length : List A → ℕ
  length [] = 0
  length (x ∷ xs) = suc (length xs)

  abbrev pub take : ℕ → List A → List A
  take zero xs = []
  take (suc n) [] = []
  take (suc n) (x ∷ xs) = x ∷ take n xs

  abbrev pub any : (A → Bool) → List A → Bool
  any p [] = false
  any p (x ∷ xs) = p x || any p xs

  abbrev pub all : (A → Bool) → List A → Bool
  all p [] = true
  all p (x ∷ xs) = p x && all p xs

  -- the entries that pass a test, in order
  abbrev pub keep : (A → Bool) → List A → List A
  keep p [] = []
  keep p (x ∷ xs) = let rest = keep p xs in if p x then x ∷ rest else rest

  -- the last entry that passes a test
  abbrev pub last_where : (A → Bool) → List A → Option A
  last_where p [] = none
  last_where p (x ∷ xs) = elim (last_where p xs) [
    | some y ↦ some y
    | none ↦ if p x then some x else none
  ]

  -- `next((x for x in xs if p(x)), None)`
  abbrev pub find_first : (A → Bool) → List A → Option A
  find_first p [] = none
  find_first p (x ∷ xs) = if p x then some x else find_first p xs

  -- what `find_first` finds, changed in place
  abbrev pub change_first : (A → Bool) → (A → A) → List A → List A
  change_first p f [] = []
  change_first p f (x ∷ xs) = let rest = change_first p f xs in if p x then f x ∷ xs else x ∷ rest

  abbrev pub All {κ} : (A → Type κ) → List A → Type κ
  All P [] = Unit
  All P (x ∷ xs) = P x × All P xs

pub data Never {ℓ} : Type ℓ where

-- two lists of one length, related entry by entry
abbrev pub Pointwise {ℓ κ} : {A : Type ℓ} → (A → A → Type κ) → List A → List A → Type κ
Pointwise R [] [] = Unit
Pointwise R (x ∷ xs) (y ∷ ys) = R x y × Pointwise R xs ys
Pointwise R _ _ = Never

module _ {ℓ} {V : Type ℓ} where
  -- `d.get(k)` on the items of a dict
  abbrev pub lookup : String → List (String × V) → Option V
  lookup k [] = none
  lookup k ((j, v) ∷ d) = if j == k then some v else lookup k d

-- `s in xs`
abbrev pub contains : List String → String → Bool
contains [] s = false
contains (x ∷ xs) s = x == s || contains xs s

pub List-cases {ℓ} :
    {A : Type ℓ} (xs : List A) → (xs ≡ []) ⊎ ((x : A) × (ys : List A) × (xs ≡ x ∷ ys))
List-cases [] = inl refl
List-cases (x ∷ xs) = inr (x, xs, refl)

pub All-map {ℓ κ μ} :
    {A : Type ℓ} (P : A → Type κ) (Q : A → Type μ) (xs : List A)
    → ((x : A) → P x → Q x)
    → All P xs
    → All Q xs
All-map P Q [] f a = tt
All-map P Q (x ∷ xs) f a = (f x a.0, All-map P Q xs f a.1)

pub All-zip {ℓ κ μ ν} :
    {A : Type ℓ} (P : A → Type κ) (Q : A → Type μ) (R : A → Type ν) (xs : List A)
    → ((x : A) → P x → Q x → R x)
    → All P xs
    → All Q xs
    → All R xs
All-zip P Q R [] f a b = tt
All-zip P Q R (x ∷ xs) f a b = (f x a.0 b.0, All-zip P Q R xs f a.1 b.1)

-- some entry satisfies the predicate
abbrev pub Some {ℓ κ} : {A : Type ℓ} → (A → Type κ) → List A → Type κ
Some P [] = Never
Some P (x ∷ xs) = P x ⊎ Some P xs

-- a test that holds of all images, as a predicate on the entries; and one that holds of some
pub all-map {ℓ κ μ} :
    {A : Type ℓ} {B : Type κ} {P : A → Type μ} (p : B → Bool) (f : A → B) (xs : List A)
    → ((x : A) → (p (f x) ≡ true) ↔ P x)
    → (all p (map f xs) ≡ true) ↔ All P xs
all-map p f [] h = (λ _. tt, λ _. refl)
all-map p f (x ∷ xs) h =
    let rest = all-map p f xs h in
    (λ e. ((h x).0 (ground arith), rest.0 (ground arith)), λ a. rw ((h x).1 a.0, rest.1 a.1) refl)

pub any-map {ℓ κ μ} :
    {A : Type ℓ} {B : Type κ} {P : A → Type μ} (p : B → Bool) (f : A → B) (xs : List A)
    → ((x : A) → p (f x) ≡ true → P x)
    → any p (map f xs) ≡ true
    → Some P xs
any-map p f [] h e = absurd (ground arith)
any-map p f (x ∷ xs) h e = elim (Bool-cases (p (f x))) [
  | inl t ↦ inl (h x t)
  | inr t ↦ inr (any-map p f xs h (ground arith))
]
