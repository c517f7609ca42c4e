-- ===== src/Trust/Changes.antt =====
-- How a change alters the document: `_apply_state_change`.
pub mod Keys
pub mod Consent
pub mod Moves
pub mod Frame
use entigram.Base.{
  ℕ, String, Bool, true, false, not, ◌+◌, ◌&&◌, ◌||◌, ◌==◌, ◌++◌, if◌then◌else◌, Option, none, some,
  List, [], ◌∷◌, all, any, change_first, codes, contains, eqb, find_first, holds, is_blank, is_none,
  is_some, length, ltb, map, strip_text,
}
use entigram.Base.Json.{Json, object, Entries, get_text}
use entigram.Trust.{
  Crypto, Document, Signer, Agent, Key, KeyState, RevokedGrant, PublicRecord, AgentRecord,
  Operation, Change, Fault, Result, ok, failed, is_active, _find_signer, _find_agent,
  _signer_has_role, add_signer, rotate_key, recover_key, revoke_key, revoke_grant, enroll_agent,
  add_agent_version, remove_agent_version, rotate_agent_key, revoke_agent_key,
  change_project_mismatch, registry_changed, no_approver, rotation_unsigned, grant_issuer_unsigned,
  grant_issuer_unqualified, grant_invalid, grant_mismatch, grant_issuer_mismatch, signer_exists,
  signer_missing, key_exists, key_missing, grant_already_revoked, agent_exists, agent_missing,
  owner_missing, version_allowed, version_not_allowed, version_final, public_record_invalid,
  roles_invalid, runtime_mismatch,
}
use entigram.Trust.Approvals.{
  _public_record, _agent_public_record, _validate_change, _validate_approvals, _require_quorum,
}
use entigram.Trust.Edits.{
  end_active, sort_texts, enrolled_signer, replaced_key, revoked_key, revoked_grant, enrolled_agent,
  added_version, removed_version, replaced_agent_key, revoked_agent_key,
}
use entigram.Trust.Assertions.{_verify_personal_assertion}

module _ (c : Crypto) (document : Document) where
  unfoldable pub grant_fault : String → String → Entries → List String → Option Fault
  grant_fault issuer_id grant_id grant approvers =
      if not (contains approvers issuer_id)
      then some grant_issuer_unsigned
      else if not (_signer_has_role document issuer_id "authority_issuer")
      then some grant_issuer_unqualified
      else elim (_verify_personal_assertion c (object grant) "authority_grant" document false) [
        | failed _ ↦ some grant_invalid
        | ok claims ↦
            if not (holds (get_text "grant_id" claims) grant_id)
            then some grant_mismatch
            else if not (
                holds (get_text "issuer_id" claims) issuer_id
                && holds (get_text "_signer_id" claims) issuer_id)
            then some grant_issuer_mismatch
            else none
      ]

  -- what the operation asks of its approvers
  unfoldable pub consent_fault : Operation → List String → Option Fault
  unfolding grant_fault _require_quorum
  consent_fault (rotate_key subject _) approvers =
      if not (contains approvers subject) then some rotation_unsigned else none
  consent_fault (recover_key _ _) approvers =
      _require_quorum document approvers document.quorum.recovery
  consent_fault (revoke_grant issuer_id grant_id grant) approvers =
      grant_fault issuer_id grant_id grant approvers
  consent_fault _ approvers = _require_quorum document approvers document.quorum.trust_change

  module _ (at : String) where
    -- the branches on the operation
    unfoldable pub altered : String → Operation → Result Document
    unfolding enrolled_signer replaced_key revoked_key revoked_grant enrolled_agent added_version
        removed_version replaced_agent_key revoked_agent_key
    altered change_id (add_signer subject r roles) = enrolled_signer c document at subject r roles
    altered change_id (rotate_key subject r) = replaced_key c document at KeyState.retired subject r
    altered change_id (recover_key subject r) =
        replaced_key c document at KeyState.revoked subject r
    altered change_id (revoke_key subject key_id) = revoked_key c document at subject key_id
    altered change_id (revoke_grant issuer_id grant_id grant) =
        revoked_grant c document at change_id issuer_id grant_id grant
    altered change_id (enroll_agent subject owner_id runtime version r) =
        enrolled_agent c document at subject owner_id runtime version r
    altered change_id (add_agent_version subject version) =
        added_version c document at subject version
    altered change_id (remove_agent_version subject version) =
        removed_version c document at subject version
    altered change_id (rotate_agent_key subject r) = replaced_agent_key c document at subject r
    altered change_id (revoke_agent_key subject key_id) =
        revoked_agent_key c document at subject key_id

-- `change.get("signer_id") or change.get("agent_id")`
abbrev pub subject_of : Option String → String → String
subject_of none agent_id = agent_id
subject_of (some s) agent_id = if s == "" then agent_id else s

-- the operation on the subject that the branches take
abbrev pub acting : Option String → Operation → Operation
acting o (enroll_agent id owner_id runtime version r) =
    enroll_agent (subject_of o id) owner_id runtime version r
acting o (add_agent_version id version) = add_agent_version (subject_of o id) version
acting o (remove_agent_version id version) = remove_agent_version (subject_of o id) version
acting o (rotate_agent_key id r) = rotate_agent_key (subject_of o id) r
acting o (revoke_agent_key id key_id) = revoke_agent_key (subject_of o id) key_id
acting o op = op

-- the document after a change, and who approved it
pub record Applied : Type 0 where
  pub document : Document
  pub approvers : List String

abbrev pub bumped : List String → Result Document → Result Applied
bumped approvers (failed fault) = failed fault
bumped approvers (ok d) =
    ok (record { document = record d { version = d.version + 1 }; approvers = approvers })

unfoldable pub _apply_state_change :
    Crypto → Document → Change → List Json → String → Result Applied
unfolding _validate_change _validate_approvals consent_fault altered
_apply_state_change c document change approvals at = elim (_validate_change c change) [
  | some fault ↦ failed fault
  | none ↦
      if not (change.project_id == document.project_id)
      then failed change_project_mismatch
      else if not (change.registry_digest == c.document_digest document)
      then failed registry_changed
      else elim (_validate_approvals c change document [] approvals) [
        | [] ↦ failed no_approver
        | a ∷ more ↦ elim (consent_fault c document change.operation (a ∷ more)) [
          | some fault ↦ failed fault
          | none ↦
              bumped (a ∷ more)
                (altered c document at change.change_id (acting change.signer_id change.operation))
        ]
      ]
]
