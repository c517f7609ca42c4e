-- ===== src/Admission/Approvals.antt =====
-- Signed approvals of an action: `_validate_approvals`.
use entigram.Base.{
  ℕ, String, Bool, true, false, not, ◌&&◌, ◌||◌, if◌then◌else◌, leb, Option, none, some, List, [],
  ◌∷◌, any, holds, contains, map,
}
use entigram.Base.Json.{Json, Entries, get_text, json_eq}
use entigram.Admission.{
  Code, Policy, Contract, Request, Collaborators, claim, approval_unverified,
  approval_signer_mismatch, approval_role_unqualified, approval_request_mismatch,
  approval_digest_mismatch, approval_expired, approval_valid, approval_invalid,
}

abbrev pub asks_approval : Policy → Bool
asks_approval Policy.approval_required = true
asks_approval _ = false

abbrev pub is_required : Contract → Bool
is_required contract = contract.needs_approval || asks_approval contract.policy

abbrev pub has_role : List String → Option String → Bool
has_role [] role = true
has_role (x ∷ xs) none = false
has_role (x ∷ xs) (some role) = contains (x ∷ xs) role

abbrev pub is_valid : Code → Bool
is_valid Code.approval_valid = true
is_valid _ = false

module _ (c : Collaborators) (action_name : String) (contract : Contract) (request : Request)
    (now : ℕ) where
  unfoldable pub check_claims : Entries → Code
  check_claims claims =
      if c.project && not (json_eq (claim "approver_id" claims) (claim "_signer_id" claims))
      then approval_signer_mismatch
      else if c.project && not (c.signer_has_role (claim "_signer_id" claims) (claim "role" claims))
      then approval_role_unqualified
      else if not (
          holds (get_text "action_name" claims) action_name
          && holds (get_text "request_id" claims) request.request_id)
      then approval_request_mismatch
      else if not (
          holds (get_text "action_digest" claims) (c.request_digest action_name request)
          && holds (get_text "evidence_digest" claims) (c.evidence_digest request))
      then approval_digest_mismatch
      else elim (c.parse_timestamp (claim "expires_at" claims)) [
        | none ↦ approval_invalid
        | some expires ↦
            if leb expires now
            then approval_expired
            else if not (has_role contract.approval_roles (get_text "role" claims))
            then approval_role_unqualified
            else approval_valid
      ]

  unfoldable pub check_approval : Json → Code
  unfolding check_claims
  check_approval artifact = elim (c.verify artifact "action_approval") [
    | none ↦ approval_unverified
    | some claims ↦ check_claims claims
  ]

  -- `decision["approval"]["checks"]`
  unfoldable pub validate_approvals : List Code
  unfolding check_approval
  validate_approvals = if is_required contract then map check_approval request.approvals else []

  abbrev pub is_approved : Bool
  is_approved = not (is_required contract) || any is_valid validate_approvals
