-- ===== src/Admission/Engine/Laws.antt =====
-- The decision of `validate`: admitted exactly when every check passes.
use entigram.Base.{
  ℕ, String, Bool, true, false, not, ◌≡◌, ◌↔◌, ◌<◌, ◌||◌, ◌&&◌, none, some, List, arith,
  Option-cases, inl, inr, holds, all, Some, any-map,
}
use entigram.Base.Json.{Json, Entries, get_text, json_eq}
use entigram.Admission.{Policy, Contract, Request, Collaborators, Observed, validate_request, claim}
use entigram.Admission.Authority.{validate_authority, validate_agent_identity}
use entigram.Admission.Facts.{validate_preconditions, validate_evidence, is_satisfied}
use entigram.Admission.Approvals.{
  is_approved, is_required, validate_approvals, is_valid, check_approval, check_claims, has_role,
}
use entigram.Admission.Engine.{Findings, examine, decide, conclude, validate, is_clear}

-- the policies under which an action can be admitted
abbrev pub is_open : Policy → Bool
is_open Policy.allow = true
is_open Policy.approval_required = true
is_open _ = false

-- Everything that an admission stands on.
pub record IsAdmissible (c : Collaborators) (action_name : String) (request : Request) (now : ℕ)
    : Type 0 where
  pub contract : Contract
  pub known : c.get_contract action_name ≡ some contract
  pub observed : List Observed
  pub well_formed : validate_request c request ≡ some observed
  pub intact : c.intact ≡ true
  pub authorized : validate_authority c contract request now ≡ none
  pub identified : validate_agent_identity c action_name request now ≡ none
  pub met : all is_satisfied (validate_preconditions contract request) ≡ true
  pub supported : all is_satisfied (validate_evidence c contract now observed) ≡ true
  pub open_policy : is_open contract.policy ≡ true
  pub approved : is_approved c action_name contract request now ≡ true

pub conclude-ok :
    (policy : Policy) (f : Findings)
    → (conclude policy f).ok ≡ true
    → (is_open policy ≡ true) × (is_clear f ≡ true) × (f.approved ≡ true)
unfolding conclude
conclude-ok policy f h = ground arith

module _ (c : Collaborators) (action_name : String) (request : Request) (now : ℕ) where
  decide-IsAdmissible :
      (contract : Contract) (os : List Observed)
      → c.get_contract action_name ≡ some contract
      → validate_request c request ≡ some os
      → (decide c action_name request now contract os).ok ≡ true
      → IsAdmissible c action_name request now
  unfolding decide examine
  decide-IsAdmissible contract os k w h =
      let f = examine c action_name request now contract os in
      let g : (conclude contract.policy f).ok ≡ true = ground arith in
      let q = conclude-ok contract.policy f g in
      record {
        contract = contract;
        known = k;
        observed = os;
        well_formed = w;
        intact = ground arith;
        authorized = ground arith;
        identified = ground arith;
        met = ground arith;
        supported = ground arith;
        open_policy = q.0;
        approved = q.2;
      }

  validate-IsAdmissible :
      (validate c action_name request now).ok ≡ true → IsAdmissible c action_name request now
  unfolding validate
  validate-IsAdmissible h = elim (Option-cases (c.get_contract action_name)) [
    | inl e ↦ absurd (ground arith)
    | inr (contract, e) ↦ elim (Option-cases (validate_request c request)) [
      | inl w ↦ absurd (ground arith)
      | inr (os, w) ↦ decide-IsAdmissible contract os e w (ground arith)
    ]
  ]

  IsAdmissible-validate :
      IsAdmissible c action_name request now → (validate c action_name request now).ok ≡ true
  unfolding validate decide examine conclude
  IsAdmissible-validate a = ground arith

  -- An action is admitted exactly when its contract is known, the request is well formed, the schema is
  -- intact, the authority and the agent's identity are taken, every precondition and every requirement
  -- of evidence is satisfied, the policy neither denies nor conflicts, and any approval that is
  -- required is there.
  pub validate-ok_iff :
      ((validate c action_name request now).ok ≡ true) ↔ IsAdmissible c action_name request now
  validate-ok_iff = (validate-IsAdmissible, IsAdmissible-validate)

-- An approval that binds: verified, of this action and request by both digests, not expired, in a role
-- that the contract asks for, and under a registry signed by the approver, who has that role.
pub record IsBinding (c : Collaborators) (action_name : String) (contract : Contract)
    (request : Request) (now : ℕ) (artifact : Json) : Type 0 where
  pub claims : Entries
  pub signed : c.verify artifact "action_approval" ≡ some claims
  pub self_signed :
      not c.project
        || (json_eq (claim "approver_id" claims) (claim "_signer_id" claims)
            && c.signer_has_role (claim "_signer_id" claims) (claim "role" claims))
      ≡ true
  pub same_action : holds (get_text "action_name" claims) action_name ≡ true
  pub same_request : holds (get_text "request_id" claims) request.request_id ≡ true
  pub same_digest :
      holds (get_text "action_digest" claims) (c.request_digest action_name request) ≡ true
  pub same_evidence : holds (get_text "evidence_digest" claims) (c.evidence_digest request) ≡ true
  pub expires : ℕ
  pub dated : c.parse_timestamp (claim "expires_at" claims) ≡ some expires
  pub current : now < expires
  pub in_role : has_role contract.approval_roles (get_text "role" claims) ≡ true

module _ (c : Collaborators) (action_name : String) (contract : Contract) (request : Request)
    (now : ℕ) where
  check_approval-IsBinding :
      (artifact : Json)
      → is_valid (check_approval c action_name contract request now artifact) ≡ true
      → IsBinding c action_name contract request now artifact
  unfolding check_approval check_claims
  check_approval-IsBinding artifact h = elim (Option-cases (c.verify artifact "action_approval")) [
    | inl e ↦ absurd (ground arith)
    | inr (claims, e) ↦ elim (Option-cases (c.parse_timestamp (claim "expires_at" claims))) [
      | inl x ↦ absurd (ground arith)
      | inr (expires, x) ↦ record {
        claims = claims;
        signed = e;
        self_signed = ground arith;
        same_action = ground arith;
        same_request = ground arith;
        same_digest = ground arith;
        same_evidence = ground arith;
        expires = expires;
        dated = x;
        current = ground arith;
        in_role = ground arith;
      }
    ]
  ]

  -- Where an approval is required, by the contract or by its policy, the approvals pass only if one of
  -- those supplied binds.
  pub approvals-IsBinding :
      is_required contract ≡ true
      → is_approved c action_name contract request now ≡ true
      → Some (IsBinding c action_name contract request now) request.approvals
  unfolding validate_approvals
  approvals-IsBinding required h =
      any-map is_valid (check_approval c action_name contract request now) request.approvals
        check_approval-IsBinding (ground arith)
