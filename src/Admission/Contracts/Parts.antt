-- ===== src/Admission/Contracts/Parts.antt =====
-- What each check of a contract tells of the part that it is about.
use entigram.Base.{
  String, Bool, true, false, not, ◌≡◌, ◌≤◌, Option, none, some, List, [], ◌∷◌, refl, eq_iff, arith,
  codes, is_blank, map, all, length, All,
}
use entigram.Base.Json.{Json, boolean, number, string, array, object, null, nil, cons, Entries, get}
use entigram.Admission.{Contract, Predicate, Requirement, approval_required, is_identifier}
use entigram.Admission.Contracts.{
  Fault, unless, first_fault, absent_or, present_and, is_set, is_filled_text, is_filled_list,
  is_identifier_text, is_requirement, _validate_predicate, is_authority, is_approval, is_list_of,
  inside, contract_checks, contract_fault, to_list, part, decides_approval, asks_for_approval,
}
use entigram.Admission.Contracts.Loading.{
  contract_of, items, text_of, policy_of, audience_of, predicate_of, requirement_of,
}

abbrev pub HasPath : Predicate → Type 0
HasPath p = is_blank (codes p.path) ≡ false

abbrev pub HasId : Requirement → Type 0
HasId r = is_identifier (codes r.id) ≡ true

-- what each part of a contract has, whichever action it is for
pub record IsWellFormed (c : Contract) : Type 0 where
  pub has_scope : 1 ≤ length c.scopes
  pub names_audience : (a : String) → c.audience ≡ some a → is_identifier (codes a) ≡ true
  pub have_paths : All HasPath c.preconditions
  pub have_ids : All HasId c.evidence
  pub asks_approval : c.policy ≡ approval_required → c.needs_approval ≡ true
  pub has_role : c.needs_approval ≡ true → 1 ≤ length c.approval_roles

first_fault-All :
    (checks : List (Option Fault)) → first_fault checks ≡ none → All (λ check. check ≡ none) checks
unfolding first_fault
first_fault-All [] h = tt
first_fault-All (none ∷ checks) h = (refl, first_fault-All checks h)
first_fault-All (some fault ∷ checks) h = absurd (ground arith)

unless-passed : (b : Bool) → unless b ≡ none → b ≡ true
unless-passed true h = refl
unless-passed false h = absurd (ground arith)

all-All :
    {A : Type 0} (P : A → Type 0) (test : Json → Bool) (f : Json → A) (vs : List Json)
    → ((v : Json) → test v ≡ true → P (f v))
    → all test vs ≡ true
    → All P (map f vs)
all-All P test f [] h e = tt
all-All P test f (v ∷ vs) h e = (h v (ground arith), all-All P test f vs h (ground arith))

items-All :
    {A : Type 0} (P : A → Type 0) (test : Json → Bool) (f : Json → A) (o : Option Json)
    → ((v : Json) → test v ≡ true → P (f v))
    → absent_or (is_list_of test) o ≡ true
    → All P (map f (items o))
items-All P test f none h e = tt
items-All P test f (some (array vs)) h e = all-All P test f (to_list vs) h e
items-All P test f (some null) h e = tt
items-All P test f (some (boolean b)) h e = tt
items-All P test f (some (number s n)) h e = tt
items-All P test f (some (string s)) h e = tt
items-All P test f (some (object d)) h e = tt

filled-length :
    {A : Type 0} (f : Json → A) (o : Option Json)
    → present_and is_filled_list o ≡ true
    → 1 ≤ length (map f (items o))
filled-length f (some (array (cons x xs))) h = omega arith
filled-length f (some (array nil)) h = absurd (ground arith)
filled-length f none h = absurd (ground arith)
filled-length f (some null) h = absurd (ground arith)
filled-length f (some (boolean b)) h = absurd (ground arith)
filled-length f (some (number s n)) h = absurd (ground arith)
filled-length f (some (string s)) h = absurd (ground arith)
filled-length f (some (object d)) h = absurd (ground arith)

filled-not_blank : (s : String) → is_filled_text (string s) ≡ true → is_blank (codes s) ≡ false
filled-not_blank s h = ground arith

predicate-HasPath : (v : Json) → _validate_predicate v ≡ true → HasPath (predicate_of v)
unfolding _validate_predicate
predicate-HasPath (object d) h = path-filled (get "path" d) (ground arith)
  where
    path-filled :
        (o : Option Json)
        → present_and is_filled_text o ≡ true
        → is_blank (codes (elim o [ none ↦ "" | some v ↦ text_of v ])) ≡ false
    path-filled none e = absurd (ground arith)
    path-filled (some (string s)) e = filled-not_blank s e
    path-filled (some null) e = absurd (ground arith)
    path-filled (some (boolean b)) e = absurd (ground arith)
    path-filled (some (number s n)) e = absurd (ground arith)
    path-filled (some (array xs)) e = absurd (ground arith)
    path-filled (some (object e')) e = absurd (ground arith)
predicate-HasPath null h = absurd (ground arith)
predicate-HasPath (boolean b) h = absurd (ground arith)
predicate-HasPath (number s n) h = absurd (ground arith)
predicate-HasPath (string s) h = absurd (ground arith)
predicate-HasPath (array xs) h = absurd (ground arith)

identifies :
    (o : Option Json)
    → present_and is_identifier_text o ≡ true
    → is_identifier (codes (elim o [ none ↦ "" | some v ↦ text_of v ])) ≡ true
identifies (some (string s)) h = h
identifies none h = absurd (ground arith)
identifies (some null) h = absurd (ground arith)
identifies (some (boolean b)) h = absurd (ground arith)
identifies (some (number s n)) h = absurd (ground arith)
identifies (some (array xs)) h = absurd (ground arith)
identifies (some (object d)) h = absurd (ground arith)

requirement-HasId : (v : Json) → is_requirement v ≡ true → HasId (requirement_of v)
unfolding is_requirement
requirement-HasId (object d) h = identifies (get "id" d) (ground arith)
requirement-HasId null h = absurd (ground arith)
requirement-HasId (boolean b) h = absurd (ground arith)
requirement-HasId (number s n) h = absurd (ground arith)
requirement-HasId (string s) h = absurd (ground arith)
requirement-HasId (array xs) h = absurd (ground arith)

-- an object that passes a test that no other value passes
authority-scopes :
    (o : Option Json)
    → present_and is_authority o ≡ true
    → (present_and is_filled_list (get "scopes" (inside o)) ≡ true)
      × (absent_or is_identifier_text (get "audience" (inside o)) ≡ true)
unfolding is_authority
authority-scopes (some (object a)) h = (ground arith, ground arith)
authority-scopes none h = absurd (ground arith)
authority-scopes (some null) h = absurd (ground arith)
authority-scopes (some (boolean b)) h = absurd (ground arith)
authority-scopes (some (number s n)) h = absurd (ground arith)
authority-scopes (some (string s)) h = absurd (ground arith)
authority-scopes (some (array xs)) h = absurd (ground arith)

audience-identified :
    (o : Option Json) (a : String)
    → absent_or is_identifier_text o ≡ true
    → audience_of o ≡ some a
    → is_identifier (codes a) ≡ true
audience-identified none a h e = absurd (ground arith)
audience-identified (some (string s)) a h e = cc
audience-identified (some null) a h e = absurd (ground arith)
audience-identified (some (boolean b)) a h e = absurd (ground arith)
audience-identified (some (number s n)) a h e = absurd (ground arith)
audience-identified (some (array xs)) a h e = absurd (ground arith)
audience-identified (some (object d)) a h e = absurd (ground arith)

approval-roles :
    (o : Option Json) (asked : Bool)
    → elim o [ none ↦ unless (not asked) | some a ↦ unless (is_approval asked a) ] ≡ none
    → (asked ≡ true → is_set (get "required" (inside o)) ≡ true)
      × (is_set (get "required" (inside o)) ≡ true
          → present_and is_filled_list (get "roles" (inside o)) ≡ true)
unfolding is_approval get
approval-roles none true h = absurd (ground arith)
approval-roles none false h = (λ e. absurd (ground arith), λ e. absurd (ground arith))
approval-roles (some (object a)) asked h = (λ e. ground arith, λ e. ground arith)
approval-roles (some null) asked h = absurd (ground arith)
approval-roles (some (boolean b)) asked h = absurd (ground arith)
approval-roles (some (number s n)) asked h = absurd (ground arith)
approval-roles (some (string s)) asked h = absurd (ground arith)
approval-roles (some (array xs)) asked h = absurd (ground arith)

-- the policy of a contract that asks for approval
policy-asks :
    (o : Option Json)
    → policy_of (elim o [ none ↦ "" | some v ↦ text_of v ]) ≡ approval_required
    → decides_approval o ≡ true
policy-asks (some (string s)) h = ground (arith, eq_iff s "approval_required")
policy-asks none h = absurd (ground arith)
policy-asks (some null) h = absurd (ground arith)
policy-asks (some (boolean b)) h = absurd (ground arith)
policy-asks (some (number s n)) h = absurd (ground arith)
policy-asks (some (array xs)) h = absurd (ground arith)
policy-asks (some (object d)) h = absurd (ground arith)

-- the checks that the engine relies on
abbrev Checks : Entries → Type 0
Checks d =
    (unless (present_and is_authority (get "authority" d)) ≡ none)
    × (unless (absent_or (is_list_of _validate_predicate) (get "preconditions" d)) ≡ none)
    × (unless (absent_or (is_list_of is_requirement) (get "evidence" d)) ≡ none)
    × (elim (get "approval" d) [
      | none ↦ unless (not (asks_for_approval d))
      | some a ↦ unless (is_approval (asks_for_approval d) a)
    ]
        ≡ none)

pub contract_fault-Checks : (d : Entries) → contract_fault d ≡ none → Checks d
unfolding contract_fault
contract_fault-Checks d h =
    let passed = first_fault-All (contract_checks d) h in
    let authority = passed.1.1.1.1.1 in
    (authority.0, authority.1.0, authority.1.1.0, authority.1.1.1.1.0)

pub contract_of-IsWellFormed : (d : Entries) → Checks d → IsWellFormed (contract_of d)
unfolding contract_of
contract_of-IsWellFormed d (authority, preconditions, evidence, approval) =
    let scopes = authority-scopes (get "authority" d) (unless-passed _ authority) in
    let roles = approval-roles (get "approval" d) (asks_for_approval d) approval in
    record {
      has_scope = filled-length _ _ scopes.0;
      names_audience = λ a e. audience-identified _ a scopes.1 e;
      have_paths =
          items-All HasPath _validate_predicate predicate_of (get "preconditions" d)
            predicate-HasPath (unless-passed _ preconditions);
      have_ids =
          items-All HasId is_requirement requirement_of (get "evidence" d) requirement-HasId
            (unless-passed _ evidence);
      asks_approval = λ e. roles.0 (policy-asks (get "decision" (part "policy" d)) e);
      has_role = λ e. filled-length _ _ (roles.1 e);
    }
