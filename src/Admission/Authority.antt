-- ===== src/Admission/Authority.antt =====
-- Who may act: `_validate_authority` and `_validate_agent_identity`.
pub mod Laws
use entigram.Base.{
  ℕ, String, Bool, true, false, not, ◌&&◌, ◌||◌, ◌==◌, if◌then◌else◌, Option, none, some, List, [],
  ◌∷◌, any, all, leb, codes, same_codes, strip, is_blank, holds, contains, is_none, Never,
}
use entigram.Base.Json.{
  Json, null, boolean, string, array, Jsons, nil, cons, Entries, get, get_text, json_eq,
}
use entigram.Admission.{
  Code, Contract, Request, Collaborators, claim, is_identifier, authority_unverified,
  authority_grant_id_invalid, authority_issuer_mismatch, authority_issuer_unqualified,
  authority_subject_mismatch, authority_scope_missing, authority_revoked, authority_expired,
  authority_not_allowed, authority_audience_mismatch, authority_invalid, agent_attestation_refused,
  agent_attestation_agent_mismatch, agent_attestation_replayed,
}

-- `[item.strip() for item in value]`, if all are texts that are not blank
unfoldable pub stripped_texts : Jsons → Option (List (List ℕ))
stripped_texts nil = some []
stripped_texts (cons (string s) xs) = elim (stripped_texts xs) [
  | none ↦ none
  | some rest ↦ if is_blank (codes s) then none else some (strip (codes s) ∷ rest)
]
stripped_texts (cons _ xs) = none

-- `_require_string_list(value, …, allow_empty=False)`, where `none` is the error
unfoldable pub require_string_list : Json → Option (List (List ℕ))
unfolding stripped_texts
require_string_list (array nil) = none
require_string_list (array (cons x xs)) = stripped_texts (cons x xs)
require_string_list _ = none

-- `required_scopes.issubset(scopes)`
abbrev pub covers : List (List ℕ) → List String → Bool
covers scopes required = all (λ r. any (same_codes (codes r)) scopes) required

abbrev pub is_true : Json → Bool
is_true (boolean true) = true
is_true _ = false

-- an allowlist that is empty or has the entry
abbrev pub allows : List String → String → Bool
allows [] s = true
allows (x ∷ xs) s = contains (x ∷ xs) s

-- an audience that is not asked for, or is the one claimed
abbrev pub heard : Option String → Entries → Bool
heard none claims = true
heard (some audience) claims =
    if audience == "" then true else holds (get_text "audience" claims) audience

abbrev checked : Option (String → Bool) → String → Bool
checked none grant_id = false
checked (some checker) grant_id = checker grant_id

module _ (c : Collaborators) (contract : Contract) (request : Request) (now : ℕ) where
  -- the history of revocations that applies: the project's, or the local ledger's
  abbrev pub is_revoked : String → Bool
  is_revoked grant_id =
      (c.project && c.revoked_in_project grant_id)
      || (not c.project && checked c.revocation_checker grant_id)

  unfoldable pub authority_limits : Entries → Option Code
  authority_limits claims = elim (c.parse_timestamp (claim "expires_at" claims)) [
    | none ↦ some authority_invalid
    | some expires ↦
        if leb expires now
        then some authority_expired
        else if not (
            allows contract.principals request.principal && allows contract.agents request.agent_id)
        then some authority_not_allowed
        else if not (heard contract.audience claims)
        then some authority_audience_mismatch
        else none
  ]

  unfoldable pub authority_grant : String → Entries → Option Code
  unfolding authority_limits require_string_list
  authority_grant grant_id claims =
      if not (
        holds (get_text "principal" claims) request.principal
        && holds (get_text "agent_id" claims) request.agent_id)
      then some authority_subject_mismatch
      else elim (require_string_list (claim "scopes" claims)) [
        | none ↦ some authority_invalid
        | some scopes ↦
            if not (covers scopes contract.scopes)
            then some authority_scope_missing
            else if is_true (claim "revoked" claims) || is_revoked grant_id
            then some authority_revoked
            else authority_limits claims
      ]

  unfoldable pub authority_issuer : String → Entries → Option Code
  unfolding authority_grant
  authority_issuer grant_id claims =
      if c.project && not (json_eq (claim "issuer_id" claims) (claim "_signer_id" claims))
      then some authority_issuer_mismatch
      else if c.project
          && not (c.signer_has_role (claim "_signer_id" claims) (string "authority_issuer"))
      then some authority_issuer_unqualified
      else authority_grant grant_id claims

  unfoldable pub authority_claims : Entries → Option Code
  unfolding authority_issuer
  authority_claims claims = elim (get_text "grant_id" claims) [
    | none ↦ some authority_grant_id_invalid
    | some grant_id ↦
        if not (is_identifier (codes grant_id))
        then some authority_grant_id_invalid
        else authority_issuer grant_id claims
  ]

  -- The code of a refusal; `none` is `authority_valid`.
  unfoldable pub validate_authority : Option Code
  unfolding authority_claims
  validate_authority = elim (c.verify request.authority "authority_grant") [
    | none ↦ some authority_unverified
    | some claims ↦ authority_claims claims
  ]

abbrev consumed : Option (Json → Json → Json → Bool) → Entries → Bool
consumed none claims = false
consumed (some checker) claims =
    checker (claim "_agent_id" claims) (claim "attestation_id" claims) (claim "nonce" claims)

-- The code of a refusal; `none` is an identity that is verified, or not required.
unfoldable pub validate_agent_identity : Collaborators → String → Request → ℕ → Option Code
validate_agent_identity c action_name request now =
    if not c.project
    then none
    else elim (c.verify_agent_attestation request.agent_attestation action_name request.request_id
        (c.request_digest action_name request) now) [
          | none ↦ some agent_attestation_refused
          | some claims ↦
              if not (holds (get_text "_agent_id" claims) request.agent_id)
              then some agent_attestation_agent_mismatch
              else if consumed c.attestation_consumed_checker claims
              then some agent_attestation_replayed
              else none
        ]
