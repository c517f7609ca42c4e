-- ===== src/Trust/Changes/Consent.antt =====
-- Whose consent a change needs: what a change that is applied tells of its approvals.
use entigram.Base.{
  String, true, false, ◌≡◌, ◌≤◌, ◌+◌, ◌==◌, Option, none, some, List, [], arith, contains, holds,
  inl, inr, All, List-cases, eq_iff, keep, length, any,
}
use entigram.Base.Json.{Json, object, Entries, get_text}
use entigram.Trust.{
  Crypto, Document, Change, Rule, Operation, ok, Result-cases, _signer_has_role, add_signer,
  rotate_key, recover_key, revoke_key, revoke_grant, enroll_agent, add_agent_version,
  remove_agent_version, rotate_agent_key, revoke_agent_key,
}
use entigram.Trust.Approvals.{_validate_change, _validate_approvals, _require_quorum}
use entigram.Trust.Approvals.Laws.{IsDistinct, Backed, validate_approvals-Backed}
use entigram.Trust.Assertions.Laws.{IsSigned, verify-IsSigned_iff}
use entigram.Trust.Changes.{
  Applied, grant_fault, consent_fault, altered, acting, _apply_state_change,
}
use entigram.Trust.Assertions.{_verify_personal_assertion}

-- at least the minimum of the approvers have a role of the rule, and an active key
abbrev pub IsQuorum : Document → Rule → List String → Type 0
IsQuorum document rule approvers =
    rule.minimum
    ≤ length (keep (λ id. any (λ role. _signer_has_role document id role) rule.roles) approvers)

-- a grant of that id, signed by the signer who revokes it
pub record IsIssued (c : Crypto) (document : Document) (issuer_id grant_id : String)
    (grant : Entries) : Type 0 where
  pub claims : Entries
  pub signed : IsSigned c "authority_grant" false document (object grant) claims
  pub same_grant : get_text "grant_id" claims ≡ some grant_id
  pub issued_by : get_text "issuer_id" claims ≡ some issuer_id

-- what the operation asks of those who approve it
abbrev pub Consents : Crypto → Document → Operation → List String → Type 0
Consents c document (rotate_key subject _) approvers = contains approvers subject ≡ true
Consents c document (recover_key _ _) approvers =
    IsQuorum document document.quorum.recovery approvers
Consents c document (revoke_grant issuer_id grant_id grant) approvers =
    (contains approvers issuer_id ≡ true)
    × (_signer_has_role document issuer_id "authority_issuer" ≡ true)
    × IsIssued c document issuer_id grant_id grant
Consents c document (add_signer _ _ _) approvers =
    IsQuorum document document.quorum.trust_change approvers
Consents c document (revoke_key _ _) approvers =
    IsQuorum document document.quorum.trust_change approvers
Consents c document (enroll_agent _ _ _ _ _) approvers =
    IsQuorum document document.quorum.trust_change approvers
Consents c document (add_agent_version _ _) approvers =
    IsQuorum document document.quorum.trust_change approvers
Consents c document (remove_agent_version _ _) approvers =
    IsQuorum document document.quorum.trust_change approvers
Consents c document (rotate_agent_key _ _) approvers =
    IsQuorum document document.quorum.trust_change approvers
Consents c document (revoke_agent_key _ _) approvers =
    IsQuorum document document.quorum.trust_change approvers

holds_text : (o : Option String) (s : String) → holds o s ≡ true → o ≡ some s
holds_text none s h = ground arith
holds_text (some r) s h = ground (arith, eq_iff r s)

module _ (c : Crypto) (document : Document) where
  enough-IsQuorum :
      (approvers : List String) (rule : Rule)
      → _require_quorum document approvers rule ≡ none
      → IsQuorum document rule approvers
  unfolding _require_quorum
  enough-IsQuorum approvers rule h = ground arith

  grant-IsIssued :
      (issuer_id grant_id : String) (grant : Entries) (approvers : List String)
      → grant_fault c document issuer_id grant_id grant approvers ≡ none
      → Consents c document (revoke_grant issuer_id grant_id grant) approvers
  unfolding grant_fault
  grant-IsIssued issuer_id grant_id grant approvers h =
      elim (Result-cases
        (_verify_personal_assertion c (object grant) "authority_grant" document false)) [
          | inl (f, e) ↦ absurd (ground arith)
          | inr (claims, e) ↦ (
            ground arith,
            ground arith,
            record {
              claims = claims;
              signed =
                  (verify-IsSigned_iff c "authority_grant" false document (object grant) claims).0
                    e;
              same_grant = holds_text (get_text "grant_id" claims) grant_id (ground arith);
              issued_by = holds_text (get_text "issuer_id" claims) issuer_id (ground arith);
            },
          )
        ]

  consent-Consents :
      (op : Operation) (approvers : List String)
      → consent_fault c document op approvers ≡ none
      → Consents c document op approvers
  unfolding consent_fault
  consent-Consents (add_signer _ _ _) approvers h = enough-IsQuorum approvers _ h
  consent-Consents (rotate_key subject _) approvers h = ground arith
  consent-Consents (recover_key _ _) approvers h = enough-IsQuorum approvers _ h
  consent-Consents (revoke_key _ _) approvers h = enough-IsQuorum approvers _ h
  consent-Consents (revoke_grant issuer_id grant_id grant) approvers h =
      grant-IsIssued issuer_id grant_id grant approvers h
  consent-Consents (enroll_agent _ _ _ _ _) approvers h = enough-IsQuorum approvers _ h
  consent-Consents (add_agent_version _ _) approvers h = enough-IsQuorum approvers _ h
  consent-Consents (remove_agent_version _ _) approvers h = enough-IsQuorum approvers _ h
  consent-Consents (rotate_agent_key _ _) approvers h = enough-IsQuorum approvers _ h
  consent-Consents (revoke_agent_key _ _) approvers h = enough-IsQuorum approvers _ h

-- what an applied change tells
pub record IsConsented (c : Crypto) (document : Document) (change : Change) (approvals : List Json)
    (at : String) (applied : Applied) : Type 0 where
  pub well_formed : _validate_change c change ≡ none
  pub project : change.project_id == document.project_id ≡ true
  pub current : change.registry_digest == c.document_digest document ≡ true
  pub approved : applied.approvers ≡ _validate_approvals c change document [] approvals
  pub distinct : IsDistinct applied.approvers
  pub backed : All (Backed c document change approvals) applied.approvers
  pub consented : Consents c document change.operation applied.approvers
  pub next : Document
  pub edited :
      altered c document at change.change_id (acting change.signer_id change.operation) ≡ ok next
  pub result : applied.document ≡ record next { version = next.version + 1 }

-- A change is applied only if it is well formed, was made for this project and this very state of
-- the registry, and its approvers (distinct signers, each of whom signed an approval of it with an
-- active key) give the consent that its operation needs: the signer whose key rotates; the issuer
-- of a revoked grant, with the role of an issuer and the signed grant itself; a recovery quorum
-- for a recovered key; a trust-change quorum for any other operation.
pub apply-IsConsented :
    (c : Crypto) (document : Document) (change : Change) (approvals : List Json) (at : String)
    (applied : Applied)
    → _apply_state_change c document change approvals at ≡ ok applied
    → IsConsented c document change approvals at applied
unfolding _apply_state_change
apply-IsConsented c document change approvals at applied h =
    let backed = validate_approvals-Backed c document change approvals in
    elim (List-cases (_validate_approvals c change document [] approvals)) [
      | inl e ↦ absurd (ground arith)
      | inr (a, more, e) ↦
          elim (Result-cases
            (altered c document at change.change_id (acting change.signer_id change.operation))) [
              | inl (f, x) ↦ absurd (ground arith)
              | inr (next, x) ↦
                  let who : applied.approvers ≡ _validate_approvals c change document [] approvals =
                    ground arith in
                  record {
                    well_formed = ground arith;
                    project = ground arith;
                    current = ground arith;
                    approved = who;
                    distinct = rw who backed.0;
                    backed = rw who backed.1;
                    consented =
                        consent-Consents c document change.operation applied.approvers
                          (ground arith);
                    next = next;
                    edited = x;
                    result = ground arith;
                  }
            ]
    ]
