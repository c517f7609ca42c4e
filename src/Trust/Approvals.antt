-- ===== src/Trust/Approvals.antt =====
-- Who stands behind a change: `_validate_change`, `_validate_approvals`, `_require_quorum`.
pub mod Laws
use entigram.Base.{
  ℕ, String, Bool, true, false, not, ◌&&◌, ◌||◌, ◌==◌, ◌++◌, if◌then◌else◌, Option, none, some,
  List, [], ◌∷◌, any, codes, contains, holds, keep, length, ltb,
}
use entigram.Base.Json.{Json, object, Entries, get_text}
use entigram.Admission.{is_identifier}
use entigram.Trust.{
  Crypto, Document, Rule, Operation, Change, AgentRecord, PublicRecord, Fault, Result, ok, failed,
  is_version, _signer_has_role, add_signer, rotate_key, recover_key, revoke_key, revoke_grant,
  enroll_agent, add_agent_version, remove_agent_version, rotate_agent_key, revoke_agent_key,
  change_invalid, change_digest_mismatch, quorum_missing,
}
use entigram.Trust.Assertions.{_verify_personal_assertion}

-- the text of the `operation`
unfoldable pub operation_name : Operation → String
operation_name (add_signer _ _ _) = "add_signer"
operation_name (rotate_key _ _) = "rotate_key"
operation_name (recover_key _ _) = "recover_key"
operation_name (revoke_key _ _) = "revoke_key"
operation_name (revoke_grant _ _ _) = "revoke_grant"
operation_name (enroll_agent _ _ _ _ _) = "enroll_agent"
operation_name (add_agent_version _ _) = "add_agent_version"
operation_name (remove_agent_version _ _) = "remove_agent_version"
operation_name (rotate_agent_key _ _) = "rotate_agent_key"
operation_name (revoke_agent_key _ _) = "revoke_agent_key"

module _ (c : Crypto) where
  abbrev is_key_of : String → String → Bool
  is_key_of public_key key_id = holds (c.public_key_id public_key) key_id

  -- `_public_record` does not raise
  unfoldable pub _public_record : PublicRecord → Bool
  _public_record r =
      r.type_name == "entigram.identity-public-key.v1"
      && (is_identifier (codes r.signer_id) && is_key_of r.public_key r.key_id)

  -- `_agent_public_record` does not raise
  unfoldable pub _agent_public_record : AgentRecord → Bool
  _agent_public_record r =
      r.type_name == "entigram.agent-public-key.v1"
      && (is_identifier (codes r.agent_id)
          && (is_identifier (codes r.runtime) && is_key_of r.public_key r.key_id))

  -- the checks of `_validate_change` that depend on the operation
  unfoldable pub is_operation : Operation → Bool
  unfolding _agent_public_record is_version is_identifier
  is_operation (add_signer id _ _) = is_identifier (codes id)
  is_operation (rotate_key id _) = is_identifier (codes id)
  is_operation (recover_key id _) = is_identifier (codes id)
  is_operation (revoke_key id key_id) = is_identifier (codes id) && not (key_id == "")
  is_operation (revoke_grant id grant_id _) =
      is_identifier (codes id) && is_identifier (codes grant_id)
  is_operation (enroll_agent id owner_id runtime version record_of) =
      is_identifier (codes id)
      && (is_identifier (codes owner_id)
          && (is_identifier (codes runtime)
              && (is_version (codes version) && _agent_public_record record_of)))
  is_operation (add_agent_version id version) =
      is_identifier (codes id) && is_version (codes version)
  is_operation (remove_agent_version id version) =
      is_identifier (codes id) && is_version (codes version)
  is_operation (rotate_agent_key id record_of) =
      is_identifier (codes id) && _agent_public_record record_of
  is_operation (revoke_agent_key id key_id) = is_identifier (codes id) && not (key_id == "")

  unfoldable pub _validate_change : Change → Option Fault
  unfolding is_operation
  _validate_change change =
      if not (change.type_name == "entigram.trust-change.v1")
        || (change.change_id == ""
            || (change.project_id == ""
                || (change.registry_digest == ""
                    || (change.created_at == "" || change.change_digest == ""))))
      then some change_invalid
      else if not (is_operation change.operation)
      then some change_invalid
      else if not (change.change_digest == c.change_digest change)
      then some change_digest_mismatch
      else none

  module _ (change : Change) where
    -- an approval that claims this very change
    unfoldable pub binds : Entries → Bool
    unfolding operation_name
    binds claims =
        holds (get_text "change_id" claims) change.change_id
        && (holds (get_text "change_digest" claims) change.change_digest
            && (holds (get_text "registry_digest" claims) change.registry_digest
                && holds (get_text "operation" claims) (operation_name change.operation)))

    abbrev pub with_approver : List String → Option String → List String
    with_approver approvers none = approvers
    with_approver approvers (some signer_id) =
        if contains approvers signer_id then approvers else approvers ++ signer_id ∷ []

    -- one round of the loop of `_validate_approvals`
    unfoldable pub add_approver : Document → List String → Json → List String
    unfolding binds _verify_personal_assertion
    add_approver document approvers artifact =
        elim (_verify_personal_assertion c artifact "trust_change_approval" document true) [
          | failed _ ↦ approvers
          | ok claims ↦
              if binds claims
              then with_approver approvers (get_text "_signer_id" claims)
              else approvers
        ]

    -- The approvers of the change, in order. The source raises where there are none.
    unfoldable pub _validate_approvals : Document → List String → List Json → List String
    unfolding add_approver
    _validate_approvals document approvers [] = approvers
    _validate_approvals document approvers (artifact ∷ rest) =
        _validate_approvals document (add_approver document approvers artifact) rest

  abbrev pub is_qualified : Document → List String → String → Bool
  is_qualified document roles id = any (λ role. _signer_has_role document id role) roles

unfoldable pub _require_quorum : Document → List String → Rule → Option Fault
_require_quorum document approvers rule =
    if ltb
      (length (keep (λ id. any (λ role. _signer_has_role document id role) rule.roles) approvers))
      rule.minimum
    then some quorum_missing
    else none
