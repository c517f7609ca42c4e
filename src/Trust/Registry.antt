-- ===== src/Trust/Registry.antt =====
-- What others call of the registry: roles and revocations, identities that sign, the making of
-- changes and their approvals, the first document of a project and the pin of its root.
pub mod Signing
pub mod Requests
pub mod Admission
use entigram.Base.{
  ℕ, String, Bool, true, false, not, ◌&&◌, ◌||◌, ◌==◌, if◌then◌else◌, Option, none, some, List, [],
  ◌∷◌, any, codes, contains, find_first, is_blank, is_none, is_some, join, ltb, map, strip_text,
}
use entigram.Base.Json.{Json, string, object, Entries, empty, entry}
use entigram.Admission.{is_identifier}
use entigram.Trust.{
  Crypto, Document, Root, Rule, Quorum, Anchor, Signer, RevokedGrant, PublicRecord, AgentRecord,
  Operation, Change, Fault, Result, ok, failed, is_active, is_version, _find_signer, add_signer,
  rotate_key, recover_key, revoke_key, revoke_grant, enroll_agent, add_agent_version,
  remove_agent_version, rotate_agent_key, revoke_agent_key, change_invalid, public_record_invalid,
  roles_invalid, anchor_mismatch, root_invalid, state_invalid,
}
use entigram.Trust.Approvals.{
  _public_record, _agent_public_record, _validate_change, operation_name,
}
use entigram.Trust.Assertions.{payload_of}
use entigram.Trust.Attestations.{agent_payload}
use entigram.Trust.Edits.{new_key}
use entigram.Trust.History.{state_of, _validate_root, _validate_document}
use entigram.Trust.State.{_string_list, _validate_state}

module _ (document : Document) where
  unfoldable pub signer_has_role : String → String → Bool → Bool
  signer_has_role signer_id role active_only = elim (_find_signer document.signers signer_id) [
    | none ↦ false
    | some signer ↦
        if not (contains signer.roles role)
        then false
        else if not active_only
        then true
        else any is_active signer.keys
  ]

  unfoldable pub get_grant_revocation : String → Option RevokedGrant
  get_grant_revocation grant_id =
      if grant_id == ""
      then none
      else find_first (λ (g : RevokedGrant). g.grant_id == grant_id) document.revoked_grants

  unfoldable pub is_grant_revoked : String → Bool
  unfolding get_grant_revocation
  is_grant_revoked grant_id = is_some (get_grant_revocation grant_id)

-- A person's key outside the workspace: its public record, and the signature, in base64, that the
-- private key makes over the canonical JSON of a payload.
pub record PersonalIdentity : Type 0 where
  pub public_record : PublicRecord
  pub signature_of : Json → String

pub record AgentIdentity : Type 0 where
  pub public_record : AgentRecord
  pub signature_of : Json → String

-- `PersonalIdentity.sign`, for a kind that is an identifier
unfoldable pub sign : PersonalIdentity → String → Entries → Json
sign identity kind claims =
    let r = identity.public_record in
    object (
      entry "type" (string "entigram.identity.ed25519.v1") (
        entry "kind" (string kind) (
          entry "signer_id" (string r.signer_id) (
            entry "key_id" (string r.key_id) (
              entry "claims" (object claims) (
                entry "signature"
                  (string
                    (identity.signature_of (payload_of kind r.signer_id (string r.key_id) claims)))
                  empty))))))

-- `AgentIdentity.sign` of an `action_request`
unfoldable pub sign_request : AgentIdentity → Entries → Json
sign_request identity claims =
    let r = identity.public_record in
    object (
      entry "type" (string "entigram.agent-attestation.ed25519.v1") (
        entry "kind" (string "action_request") (
          entry "agent_id" (string r.agent_id) (
            entry "runtime" (string r.runtime) (
              entry "key_id" (string r.key_id) (
                entry "claims" (object claims) (
                  entry "signature"
                    (string (
                      identity.signature_of
                        (agent_payload r.agent_id r.runtime (string r.key_id) claims)))
                    empty)))))))

-- the tests of `make_change` on the arguments of an operation
unfoldable pub argument_fault : Crypto → Operation → Option Fault
argument_fault c (add_signer id r roles) =
    if not (is_identifier (codes id))
    then some change_invalid
    else if not (_public_record c r && r.signer_id == id)
    then some public_record_invalid
    else if not (_string_list roles)
    then some roles_invalid
    else none
argument_fault c (rotate_key id r) =
    if not (is_identifier (codes id))
    then some change_invalid
    else if not (_public_record c r && r.signer_id == id)
    then some public_record_invalid
    else none
argument_fault c (recover_key id r) =
    if not (is_identifier (codes id))
    then some change_invalid
    else if not (_public_record c r && r.signer_id == id)
    then some public_record_invalid
    else none
argument_fault c (revoke_key id key_id) =
    if is_identifier (codes id) && not (key_id == "") then none else some change_invalid
argument_fault c (revoke_grant id grant_id grant) =
    if is_identifier (codes id) && is_identifier (codes grant_id) then none else some change_invalid
argument_fault c (enroll_agent id owner_id runtime version r) =
    if not (is_identifier (codes id))
    then some change_invalid
    else if not (_agent_public_record c r && r.agent_id == id)
    then some public_record_invalid
    else if not (is_identifier (codes owner_id) && is_identifier (codes runtime))
    then some change_invalid
    else if not (r.runtime == runtime)
    then some public_record_invalid
    else if not (is_version (codes version))
    then some change_invalid
    else none
argument_fault c (add_agent_version id version) =
    if is_identifier (codes id) && is_version (codes version) then none else some change_invalid
argument_fault c (remove_agent_version id version) =
    if is_identifier (codes id) && is_version (codes version) then none else some change_invalid
argument_fault c (rotate_agent_key id r) =
    if not (is_identifier (codes id))
    then some change_invalid
    else if not (_agent_public_record c r && r.agent_id == id)
    then some public_record_invalid
    else none
argument_fault c (revoke_agent_key id key_id) =
    if is_identifier (codes id) && not (key_id == "") then none else some change_invalid

-- the roles of a change are stripped
abbrev pub normalized : Operation → Operation
normalized (add_signer id r roles) = add_signer id r (map strip_text roles)
normalized op = op

module _ (c : Crypto) where
  -- `make_change` on the loaded document, with the UUID and the time that it draws
  unfoldable pub make_change : Document → Operation → String → String → Result Change
  unfolding argument_fault
  make_change document op uuid created_at = elim (argument_fault c op) [
    | some fault ↦ failed fault
    | none ↦
        let change : Change = record {
          type_name = "entigram.trust-change.v1";
          change_id = join "trust-change-" uuid;
          project_id = document.project_id;
          registry_digest = c.document_digest document;
          operation = normalized op;
          signer_id = none;
          created_at = created_at;
          change_digest = "";
        } in
        ok (record change { change_digest = c.change_digest change })
  ]

  -- the claims of an approval
  abbrev pub approval_claims : Change → String → String → Entries
  approval_claims change uuid approved_at =
      entry "approval_id" (string (join "trust-approval-" uuid)) (
        entry "change_id" (string change.change_id) (
          entry "change_digest" (string change.change_digest) (
            entry "registry_digest" (string change.registry_digest) (
              entry "operation" (string (operation_name change.operation))
                (entry "approved_at" (string approved_at) empty)))))

  unfoldable pub approve_change : Change → PersonalIdentity → String → String → Result Json
  unfolding _validate_change sign operation_name
  approve_change change identity uuid approved_at = elim (_validate_change c change) [
    | some fault ↦ failed fault
    | none ↦ ok (sign identity "trust_change_approval" (approval_claims change uuid approved_at))
  ]

  abbrev pub anchor_of : Document → Anchor
  anchor_of d = record {
    format = "entigram.project-trust-anchor.v1";
    project_id = d.project_id;
    root_digest = c.root_digest d.root;
    root_signature_digest = c.digest d.root_signature;
  }

  abbrev pub same_anchor : Anchor → Anchor → Bool
  same_anchor a b =
      a.format == b.format
      && (a.project_id == b.project_id
          && (a.root_digest == b.root_digest && a.root_signature_digest == b.root_signature_digest))

  -- The anchor on file after `_write_anchor`: one that is there is kept if it pins the same root, and
  -- is never overwritten.
  unfoldable pub _write_anchor : Option Anchor → Document → Result Anchor
  _write_anchor none d = ok (anchor_of d)
  _write_anchor (some existing) d =
      if same_anchor existing (anchor_of d) then ok existing else failed anchor_mismatch

  unfoldable pub pin_root : Option Anchor → Document → String → Result Anchor
  unfolding _validate_root _write_anchor
  pin_root existing d expected_root_digest = elim (_validate_root c d) [
    | some fault ↦ failed fault
    | none ↦
        if not (expected_root_digest == c.root_digest d.root)
        then failed root_invalid
        else _write_anchor existing d
  ]
