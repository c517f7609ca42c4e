-- ===== src/Admission/Authority/Laws.antt =====
-- A grant is taken exactly when it is signed by a proper issuer, names the request's subject, covers
-- every scope of the contract, and is neither revoked nor expired nor outside the contract's limits.
use entigram.Base.{
  ℕ, String, true, false, not, ◌≡◌, ◌↔◌, ◌||◌, ◌&&◌, ◌<◌, none, some, List, arith, Option-cases,
  inl, inr, holds, codes,
}
use entigram.Base.Json.{Entries, string, get_text, json_eq}
use entigram.Admission.{Contract, Request, Collaborators, claim, is_identifier}
use entigram.Admission.Authority.{
  require_string_list, covers, is_true, allows, heard, is_revoked, authority_limits,
  authority_grant, authority_issuer, authority_claims, validate_authority,
}

pub record IsAuthorized (c : Collaborators) (contract : Contract) (request : Request) (now : ℕ)
    : Type 0 where
  pub claims : Entries
  pub signed : c.verify request.authority "authority_grant" ≡ some claims
  pub grant_id : String
  pub named : get_text "grant_id" claims ≡ some grant_id
  pub well_named : is_identifier (codes grant_id) ≡ true
  pub issued :
      not c.project
        || (json_eq (claim "issuer_id" claims) (claim "_signer_id" claims)
            && c.signer_has_role (claim "_signer_id" claims) (string "authority_issuer"))
      ≡ true
  pub principal : holds (get_text "principal" claims) request.principal ≡ true
  pub agent : holds (get_text "agent_id" claims) request.agent_id ≡ true
  pub scopes : List (List ℕ)
  pub listed : require_string_list (claim "scopes" claims) ≡ some scopes
  pub covered : covers scopes contract.scopes ≡ true
  pub unmarked : is_true (claim "revoked" claims) ≡ false
  pub unrevoked : is_revoked c contract request now grant_id ≡ false
  pub expires : ℕ
  pub dated : c.parse_timestamp (claim "expires_at" claims) ≡ some expires
  pub current : now < expires
  pub principal_allowed : allows contract.principals request.principal ≡ true
  pub agent_allowed : allows contract.agents request.agent_id ≡ true
  pub audience : heard contract.audience claims ≡ true

module _ (c : Collaborators) (contract : Contract) (request : Request) (now : ℕ) where
  claims-IsAuthorized :
      (claims : Entries)
      → c.verify request.authority "authority_grant" ≡ some claims
      → authority_claims c contract request now claims ≡ none
      → IsAuthorized c contract request now
  unfolding authority_claims authority_issuer authority_grant authority_limits
  claims-IsAuthorized claims v h = elim (Option-cases (get_text "grant_id" claims)) [
    | inl e ↦ absurd (ground arith)
    | inr (grant_id, g) ↦ elim (Option-cases (require_string_list (claim "scopes" claims))) [
      | inl e ↦ absurd (ground arith)
      | inr (scopes, s) ↦ elim (Option-cases (c.parse_timestamp (claim "expires_at" claims))) [
        | inl e ↦ absurd (ground arith)
        | inr (expires, x) ↦ record {
          claims = claims;
          signed = v;
          grant_id = grant_id;
          named = g;
          well_named = ground arith;
          issued = ground arith;
          principal = ground arith;
          agent = ground arith;
          scopes = scopes;
          listed = s;
          covered = ground arith;
          unmarked = ground arith;
          unrevoked = ground arith;
          expires = expires;
          dated = x;
          current = ground arith;
          principal_allowed = ground arith;
          agent_allowed = ground arith;
          audience = ground arith;
        }
      ]
    ]
  ]

  validate-IsAuthorized :
      validate_authority c contract request now ≡ none → IsAuthorized c contract request now
  unfolding validate_authority
  validate-IsAuthorized h = elim (Option-cases (c.verify request.authority "authority_grant")) [
    | inl e ↦ absurd (ground arith)
    | inr (claims, e) ↦ claims-IsAuthorized claims e (ground arith)
  ]

  IsAuthorized-validate :
      IsAuthorized c contract request now → validate_authority c contract request now ≡ none
  unfolding validate_authority authority_claims authority_issuer authority_grant authority_limits
  IsAuthorized-validate a = ground arith

  -- The authority of a request is taken exactly when its grant is verified and well named, issued by a
  -- signer with that role where the project has a registry, made out to the request's principal and
  -- agent, covers every scope of the contract, is neither revoked nor expired, and keeps to the
  -- contract's allowlists and audience.
  pub validate_authority_iff :
      (validate_authority c contract request now ≡ none) ↔ IsAuthorized c contract request now
  validate_authority_iff = (validate-IsAuthorized, IsAuthorized-validate)
