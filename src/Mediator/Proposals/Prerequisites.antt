-- ===== src/Mediator/Proposals/Prerequisites.antt =====
-- The prerequisites of a tool that the readiness of a proposal looks at.
use entigram.Base.{
  String, Bool, true, not, ◌≡◌, refl, ◌||◌, ◌==◌, ◌++◌, List, [], ◌∷◌, all, arith, contains, eq_iff,
  eq_refl, keep, Bool-cases, inl, inr,
}
use entigram.Mediator.{with_name}
use entigram.Mediator.Proposals.{ExplicitRule, union, is_rule, all_prerequisites}
use entigram.Trust.Edits.{insert_text, sort_texts}

contains-insert :
    (s x : String) (ts : List String)
    → contains ts x || s == x ≡ true
    → contains (insert_text s ts) x ≡ true
contains-insert s x [] h = ground arith
contains-insert s x (t ∷ ts) h = ground (arith, contains-insert s x ts)

pub contains-sort :
    (x : String) (ss : List String) → contains ss x ≡ true → contains (sort_texts ss) x ≡ true
unfolding sort_texts
contains-sort x [] h = h
contains-sort x (s ∷ ss) h =
    contains-insert s x (sort_texts ss) (ground (arith, contains-sort x ss))

contains-append_left :
    (xs : List String) (y x : String) → contains xs x ≡ true → contains (xs ++ y ∷ []) x ≡ true
contains-append_left [] y x h = absurd (ground arith)
contains-append_left (z ∷ xs) y x h = ground (arith, contains-append_left xs y x)

contains-append_new :
    (xs : List String) (y x : String) → y == x ≡ true → contains (xs ++ y ∷ []) x ≡ true
contains-append_new [] y x h = ground arith
contains-append_new (z ∷ xs) y x h = ground (arith, contains-append_new xs y x)

contains-with_name :
    (set : List String) (s x : String)
    → contains set x || s == x ≡ true
    → contains (with_name s set) x ≡ true
contains-with_name set s x h =
    ground (arith, contains-append_left set s x, contains-append_new set s x, eq_iff s x)

contains-union :
    (set ss : List String) (x : String)
    → contains set x || contains ss x ≡ true
    → contains (union set ss) x ≡ true
contains-union set [] x h = ground arith
contains-union set (s ∷ ss) x h =
    contains-union (with_name s set) ss x (ground (arith, contains-with_name set s x))

-- every entry of a list of names is in another
abbrev within : List String → List String → Bool
within names set = all (λ p. contains set p) names

abbrev Kept : List String → List ExplicitRule → String → Type 0
Kept set rules x = contains set x ≡ true

all_prerequisites-set :
    (set : List String) (rules : List ExplicitRule) (x : String)
    → contains set x ≡ true
    → contains (all_prerequisites set rules) x ≡ true
all_prerequisites-set set [] x h = h
all_prerequisites-set set (r ∷ rules) x h =
    all_prerequisites-set (union set r.prerequisites) rules x
      (contains-union set r.prerequisites x (ground arith))

-- names that a test lets through nowhere are all in the set
pub lacking-within :
    (executed names : List String)
    → keep (λ p. not (contains executed p)) names ≡ []
    → (x : String) → contains names x ≡ true
    → contains executed x ≡ true
lacking-within executed [] h x c = absurd (ground arith)
lacking-within executed (n ∷ names) h x c = elim (Bool-cases (contains executed n)) [
  | inl e ↦ elim (Bool-cases (n == x)) [
    | inl q ↦ let same : n ≡ x = (eq_iff n x).0 q in rw⁻¹ same e
    | inr q ↦ lacking-within executed names (ground arith) x (ground arith)
  ]
  | inr e ↦ absurd (ground arith)
]

within-of :
    (names set : List String)
    → ((x : String) → contains names x ≡ true → contains set x ≡ true)
    → within names set ≡ true
within-of [] set h = refl
within-of (n ∷ names) set h =
    ground (arith, h n, eq_refl n, within-of names set (λ x c. h x (ground arith)))

-- the rules that name prerequisites of a tool, each with all of them executed
abbrev pub follows : List String → String → ExplicitRule → Bool
follows executed name rule =
    not (is_rule "prerequisite" name rule) || within rule.prerequisites executed

pub rules-follow :
    (executed : List String) (name : String) (set : List String) (rules : List ExplicitRule)
    → ((x : String)
        → contains (all_prerequisites set (keep (is_rule "prerequisite" name) rules)) x ≡ true
        → contains executed x ≡ true)
    → all (follows executed name) rules ≡ true
rules-follow executed name set [] h = refl
rules-follow executed name set (r ∷ rules) h = elim (Bool-cases (is_rule "prerequisite" name r)) [
  | inl e ↦
      let kept = keep (is_rule "prerequisite" name) rules in
      let this = within-of r.prerequisites executed (λ x c. h x (
        rw e (
          all_prerequisites-set (union set r.prerequisites) kept x
            (contains-union set r.prerequisites x (ground arith))))) in
      let rest =
        rules-follow executed name (union set r.prerequisites) rules (λ x c. h x (rw e c)) in
      ground arith
  | inr e ↦ let rest = rules-follow executed name set rules (λ x c. h x (rw e c)) in ground arith
]
