-- ===== src/Decisions/Guards.antt =====
-- The engine with the checkers of the local ledger, as the command line and the services build it:
-- what the record refuses, the engine does not admit.
use entigram.Base.{ℕ, String, Bool, true, false, ◌≡◌, some, List, arith, Bool-cases, inl, inr}
use entigram.Base.Json.{Json, string, Entries, get_text}
use entigram.Admission.{Request, Collaborators, claim}
use entigram.Admission.Authority.{validate_agent_identity, is_revoked}
use entigram.Admission.Authority.Laws.{validate_authority_iff}
use entigram.Admission.Engine.{validate}
use entigram.Admission.Engine.Laws.{validate-ok_iff}
use entigram.Decisions.{
  DecisionLedger, DecisionCall, history, revoke_action_grant, is_action_grant_revoked,
  is_action_attestation_consumed,
}
use entigram.Decisions.Laws.{revoke-for_good}

-- In a workspace without a trust registry, a grant that was revoked in the ledger admits no action,
-- whatever calls came after the revocation.
pub validate-revoked :
    (c : Collaborators) (action_name : String) (request : Request) (now : ℕ) (claims : Entries)
    (grant_id revoked_by rationale : String) (calls : List DecisionCall) (l : DecisionLedger)
    {fresh : Bool}
    → c.project ≡ false
    → c.verify request.authority "authority_grant" ≡ some claims
    → get_text "grant_id" claims ≡ some grant_id
    → (revoke_action_grant grant_id revoked_by rationale l).0 ≡ some fresh
    → let r = history calls (revoke_action_grant grant_id revoked_by rationale l).1 in
      c.revocation_checker ≡ some (λ g. is_action_grant_revoked g r)
      → (validate c action_name request now).ok ≡ false
validate-revoked c action_name request now claims grant_id revoked_by rationale calls l p v n h k =
    elim (Bool-cases (validate c action_name request now).ok) [
      | inr e ↦ e
      | inl e ↦
          let m = (validate-ok_iff c action_name request now).0 e in
          let a = (validate_authority_iff c m.contract request now).0 m.authorized in
          let good = revoke-for_good grant_id revoked_by rationale calls l h in
          let same : a.claims ≡ claims = ground (arith, v, a.signed) in
          let named : get_text "grant_id" claims ≡ some a.grant_id = rw⁻¹ same a.named in
          let id : a.grant_id ≡ grant_id = ground (arith, named, n) in
          let u : is_revoked c m.contract request now grant_id ≡ false = rw⁻¹ id a.unrevoked in
          let z = rw (p, k) at u in absurd (ground (arith, z, good))
    ]

-- the ledger's checker, on the values of the claims
abbrev pub consumed_checker : DecisionLedger → Json → Json → Json → Bool
consumed_checker l (string a) (string t) (string n) = is_action_attestation_consumed a t n l
consumed_checker l _ _ _ = false

-- Under a trust registry, a request whose attestation or nonce the ledger has as consumed by its agent
-- is not admitted, even if the registry verifies the attestation.
pub validate-replayed :
    (c : Collaborators) (action_name : String) (request : Request) (now : ℕ) (claims : Entries)
    (agent_id attestation_id nonce : String) (l : DecisionLedger)
    → c.project ≡ true
    → c.verify_agent_attestation request.agent_attestation action_name request.request_id
        (c.request_digest action_name request)
        now
      ≡ some claims
    → claim "_agent_id" claims ≡ string agent_id
    → claim "attestation_id" claims ≡ string attestation_id
    → claim "nonce" claims ≡ string nonce
    → c.attestation_consumed_checker ≡ some (consumed_checker l)
    → is_action_attestation_consumed agent_id attestation_id nonce l ≡ true
    → (validate c action_name request now).ok ≡ false
unfolding validate_agent_identity
validate-replayed c action_name request now claims a t n l p v ea et en k u =
    elim (Bool-cases (validate c action_name request now).ok) [
      | inr e ↦ e
      | inl e ↦
          let m = (validate-ok_iff c action_name request now).0 e in
          let z = rw (p, v, k, ea, et, en, u) at m.identified in absurd (ground (arith, z))
    ]
