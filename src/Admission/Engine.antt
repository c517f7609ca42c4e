-- ===== src/Admission/Engine.antt =====
-- The decision on an action: `ActionAdmissionEngine.validate`, and the event that `decision_event`
-- makes of it.
pub mod Laws
pub mod Reasons
use entigram.Base.{
  ℕ, String, Bool, true, false, not, ◌&&◌, ◌||◌, if◌then◌else◌, Option, none, some, List, [], ◌∷◌,
  ◌++◌, all, keep, is_none,
}
use entigram.Admission.{
  Code, Policy, Contract, Request, Collaborators, Observed, validate_request,
  contract_or_request_invalid, model_integrity_failed, policy_conflicted, policy_denied,
  policy_requires_approval, approval_missing_or_invalid,
}
use entigram.Admission.Authority.{validate_authority, validate_agent_identity}
use entigram.Admission.Facts.{validate_preconditions, validate_evidence, is_satisfied}
use entigram.Admission.Approvals.{is_approved, asks_approval, validate_approvals}

pub data Status : Type 0 where
  preflight_denied approval_required conflicted admitted : Status

-- The parts of a decision that others act on; `reasons` by their codes, in order. The remediation
-- texts, the provenance and the fingerprints that it also carries are left out.
pub record Decision : Type 0 where
  pub ok : Bool
  pub status : Status
  pub reasons : List Code

abbrev pub coded : Option Code → List Code
coded none = []
coded (some code) = code ∷ []

abbrev pub unsatisfied : List Code → List Code
unsatisfied codes = keep (λ code. not (is_satisfied code)) codes

abbrev denied : List Code → Decision
denied reasons = record { ok = false; status = Status.preflight_denied; reasons = reasons }

-- what the checks of a request found, before the policy is applied
pub record Findings : Type 0 where
  pub authority : Option Code
  pub identity : Option Code
  pub preconditions : List Code
  pub evidence : List Code
  pub approved : Bool

abbrev pub grounds : Findings → List Code
grounds f =
    coded f.authority
    ++ (coded f.identity
        ++ (unsatisfied f.preconditions
            ++ (unsatisfied f.evidence
                ++ (if f.approved then [] else approval_missing_or_invalid ∷ []))))

abbrev pub is_clear : Findings → Bool
is_clear f =
    is_none f.authority
    && (is_none f.identity && (all is_satisfied f.preconditions && all is_satisfied f.evidence))

abbrev pub settled : Policy → Findings → Decision
settled policy f =
    if not (is_clear f)
    then denied (grounds f)
    else if not f.approved
    then record {
      ok = false;
      status = Status.approval_required;
      reasons = grounds f ++ (if asks_approval policy then policy_requires_approval ∷ [] else []);
    }
    else record { ok = true; status = Status.admitted; reasons = grounds f }

-- the end of `validate`: the policy of the contract, applied to the findings
unfoldable pub conclude : Policy → Findings → Decision
conclude Policy.conflicted f = record {
  ok = false;
  status = Status.conflicted;
  reasons = grounds f ++ (policy_conflicted ∷ []);
}
conclude Policy.deny f = denied (grounds f ++ (policy_denied ∷ []))
conclude policy f = settled policy f

module _ (c : Collaborators) (action_name : String) (request : Request) (now : ℕ) where
  unfoldable pub examine : Contract → List Observed → Findings
  examine contract os = record {
    authority = validate_authority c contract request now;
    identity = validate_agent_identity c action_name request now;
    preconditions = validate_preconditions contract request;
    evidence = validate_evidence c contract now os;
    approved = is_approved c action_name contract request now;
  }

  unfoldable pub decide : Contract → List Observed → Decision
  unfolding conclude examine
  decide contract os =
      if not c.intact
      then denied (model_integrity_failed ∷ [])
      else conclude contract.policy (examine contract os)

  unfoldable pub validate : Decision
  unfolding decide
  validate = elim (c.get_contract action_name) [
    | none ↦ denied (contract_or_request_invalid ∷ [])
    | some contract ↦ elim (validate_request c request) [
      | none ↦ denied (contract_or_request_invalid ∷ [])
      | some os ↦ decide contract os
    ]
  ]

pub data EventOutcome : Type 0 where
  permit escalate refuse : EventOutcome

pub record DecisionEvent : Type 0 where
  pub outcome : EventOutcome
  pub side_effect_permitted : Bool
  pub reason_codes : List Code

abbrev asks : Status → Bool
asks Status.approval_required = true
asks _ = false

-- `ALLOW`, `ESCALATE` and `DENY`
unfoldable pub decision_event : Decision → DecisionEvent
decision_event d = record {
  outcome =
      if d.ok
      then EventOutcome.permit
      else if asks d.status
      then EventOutcome.escalate
      else EventOutcome.refuse;
  side_effect_permitted = d.ok;
  reason_codes = d.reasons;
}
