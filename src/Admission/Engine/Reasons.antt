-- ===== src/Admission/Engine/Reasons.antt =====
-- Every refusal says why: the reasons of a decision, and the event that is made of it.
use entigram.Base.{
  ℕ, String, true, false, not, ◌≡◌, ◌≢◌, ◌↔◌, refl, none, List, [], ◌∷◌, ◌++◌, arith, Bool-cases,
  inl, inr, all, keep, if-elim, option-elim, if◌then◌else◌,
}
use entigram.Admission.{Code, Policy, Contract, Request, Collaborators, Observed, validate_request}
use entigram.Admission.Facts.{is_satisfied}
use entigram.Admission.Approvals.{asks_approval}
use entigram.Admission.Engine.{
  Status, Decision, Findings, examine, decide, conclude, validate, grounds, is_clear,
  decision_event, EventOutcome, coded, unsatisfied, settled,
}
use entigram.Admission.Engine.Laws.{conclude-ok}

append-empty : (xs ys : List Code) → xs ++ ys ≡ [] → (xs ≡ []) × (ys ≡ [])
append-empty [] ys h = (refl, h)
append-empty (x ∷ xs) ys h = absurd (ground arith)

unsatisfied-all :
    (codes : List Code)
    → keep (λ code. not (is_satisfied code)) codes ≡ []
    → all is_satisfied codes ≡ true
unsatisfied-all [] h = refl
unsatisfied-all (x ∷ xs) h = elim (Bool-cases (is_satisfied x)) [
  | inl e ↦ let k = rw e at h in rw (e, unsatisfied-all xs k) refl
  | inr e ↦ let k = rw e at h in absurd (ground arith)
]

all-unsatisfied :
    (codes : List Code)
    → all is_satisfied codes ≡ true
    → keep (λ code. not (is_satisfied code)) codes ≡ []
all-unsatisfied [] h = refl
all-unsatisfied (x ∷ xs) h =
    let e : is_satisfied x ≡ true = ground arith in rw e (all-unsatisfied xs (ground arith))

grounds-empty : (f : Findings) → grounds f ≡ [] → (is_clear f ≡ true) × (f.approved ≡ true)
grounds-empty f h =
    let (a, h1) = append-empty (coded f.authority) _ h in
    let (i, h2) = append-empty (coded f.identity) _ h1 in
    let (p, h3) = append-empty (unsatisfied f.preconditions) _ h2 in
    let (e, h4) = append-empty (unsatisfied f.evidence) _ h3 in
    (ground (arith, unsatisfied-all f.preconditions p, unsatisfied-all f.evidence e), ground arith)

clear-grounds : (f : Findings) → is_clear f ≡ true → f.approved ≡ true → grounds f ≡ []
clear-grounds f h a =
    let p = all-unsatisfied f.preconditions (ground arith) in
    let e = all-unsatisfied f.evidence (ground arith) in
    let i : f.authority ≡ none = ground arith in
    let j : f.identity ≡ none = ground arith in rw (i, j, p, e, a) refl

settled-explains :
    (policy : Policy) (f : Findings)
    → (settled policy f).ok ≡ false
    → (settled policy f).reasons ≢ []
settled-explains policy f h r = elim (Bool-cases (is_clear f)) [
  | inl k ↦ elim (Bool-cases f.approved) [
    | inl a ↦ absurd (ground arith)
    | inr a ↦
        let more = if asks_approval policy then Code.policy_requires_approval ∷ [] else [] in
        let r' : grounds f ++ more ≡ [] = ground arith in
        absurd (ground (arith, grounds-empty f (append-empty (grounds f) more r').0))
  ]
  | inr k ↦ let r' = rw k at r in absurd (ground (arith, grounds-empty f r'))
]

conclude-explains :
    (policy : Policy) (f : Findings)
    → (conclude policy f).ok ≡ false
    → (conclude policy f).reasons ≢ []
unfolding conclude
conclude-explains Policy.conflicted f h e = absurd (ground (arith, append-empty (grounds f) _ e))
conclude-explains Policy.deny f h e = absurd (ground (arith, append-empty (grounds f) _ e))
conclude-explains Policy.allow f h e = absurd (settled-explains Policy.allow f h e)
conclude-explains Policy.approval_required f h e =
    absurd (settled-explains Policy.approval_required f h e)

conclude-silent :
    (policy : Policy) (f : Findings)
    → (conclude policy f).ok ≡ true
    → (conclude policy f).reasons ≡ []
unfolding conclude
conclude-silent policy f h =
    let q = conclude-ok policy f h in ground (arith, clear-grounds f q.1 q.2)

-- reasons exactly where the decision is a refusal
abbrev Explained : Decision → Type 0
Explained d = ((d.ok ≡ false) → d.reasons ≢ []) × ((d.ok ≡ true) → d.reasons ≡ [])

module _ (c : Collaborators) (action_name : String) (request : Request) (now : ℕ) where
  decide-Explained :
      (contract : Contract) (os : List Observed)
      → Explained (decide c action_name request now contract os)
  unfolding decide
  decide-Explained contract os =
      let f = examine c action_name request now contract os in
      if-elim Explained (not c.intact) (λ _. (λ h r. ground arith, λ h. ground arith))
        λ _. (conclude-explains contract.policy f, conclude-silent contract.policy f)

  validate-Explained : Explained (validate c action_name request now)
  unfolding validate
  validate-Explained =
      option-elim Explained (c.get_contract action_name)
        (λ _. (λ h r. ground arith, λ h. ground arith))
        λ contract _.
          option-elim Explained (validate_request c request)
            (λ _. (λ h r. ground arith, λ h. ground arith)) λ os _. decide-Explained contract os

  -- A refusal is never silent and an admission has nothing against it: the event permits a side effect
  -- exactly when the decision gives no reason.
  pub decision_event-permits_iff :
      let e = decision_event (validate c action_name request now) in
      (e.outcome ≡ EventOutcome.permit) ↔ (e.reason_codes ≡ [])
  unfolding decision_event
  decision_event-permits_iff =
      let d = validate c action_name request now in
      let x = validate-Explained in
      elim (Bool-cases d.ok) [
        | inl e ↦ (λ h. x.1 e, λ r. rw e refl)
        | inr e ↦ (λ h. absurd (ground arith), λ r. absurd (x.0 e r))
      ]

-- The event escalates exactly when the decision waits for an approval, and permits exactly when the
-- action is admitted.
pub decision_event-status :
    (c : Collaborators) (action_name : String) (request : Request) (now : ℕ)
    → let d = validate c action_name request now in
      (((decision_event d).outcome ≡ EventOutcome.permit) ↔ (d.status ≡ Status.admitted))
      × (((decision_event d).outcome ≡ EventOutcome.escalate)
          ↔ (d.status ≡ Status.approval_required))
unfolding validate decision_event decide conclude
decision_event-status c action_name request now = ground arith
