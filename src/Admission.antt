-- ===== src/Admission.antt =====
-- Admission of consequential actions (entigram/governance/action_admission.py): the contract, the
-- request, and what the engine asks of its collaborators.
pub mod Authority
pub mod Facts
pub mod Approvals
pub mod Contracts
pub mod Engine
use entigram.Base.{
  ℕ, String, Bool, true, false, ◌&&◌, ◌||◌, ◌==◌, if◌then◌else◌, Option, none, some, List, [], ◌∷◌,
  any, all, leb, eqb, codes, length, holds, map,
}
use entigram.Base.Json.{Json, null, boolean, Entries, get, is_object}

-- the `code` of a check or a reason
pub data Code : Type 0 where
  contract_or_request_invalid model_integrity_failed : Code
  authority_unverified authority_grant_id_invalid authority_issuer_mismatch : Code
  authority_issuer_unqualified authority_subject_mismatch authority_scope_missing : Code
  authority_revoked authority_expired authority_not_allowed authority_audience_mismatch : Code
  authority_invalid : Code
  agent_attestation_refused agent_attestation_agent_mismatch agent_attestation_replayed : Code
  precondition_unknown precondition_failed precondition_satisfied : Code
  evidence_duplicate evidence_missing evidence_observed_in_future evidence_unverified : Code
  evidence_stale evidence_issuer_unverified evidence_attestation_id_mismatch : Code
  evidence_attestation_digest_mismatch evidence_attestation_time_mismatch : Code
  evidence_source_missing evidence_source_untrusted evidence_issuer_unqualified : Code
  evidence_satisfied : Code
  approval_unverified approval_signer_mismatch approval_role_unqualified : Code
  approval_request_mismatch approval_digest_mismatch approval_expired approval_valid : Code
  approval_invalid approval_missing_or_invalid : Code
  policy_conflicted policy_denied policy_requires_approval : Code

pub data Policy : Type 0 where
  allow deny approval_required conflicted : Policy

-- A predicate on the context of the request. One with neither `equals` nor `one_of` asks for presence.
pub record Predicate : Type 0 where
  pub path : String
  pub equals : Option Json
  pub one_of : Option (List Json)

pub record Requirement : Type 0 where
  pub id : String
  pub freshness_seconds : Option ℕ
  pub verified : Bool
  pub issuer_roles : List String
  pub source_kinds : List String

-- A contract that `_validate_contract` took. A list that the contract leaves out is empty, as the
-- code treats both alike; `approval_roles` are those of its `approval`.
pub record Contract : Type 0 where
  pub scopes : List String
  pub principals : List String
  pub agents : List String
  pub audience : Option String
  pub preconditions : List Predicate
  pub evidence : List Requirement
  pub policy : Policy
  pub needs_approval : Bool
  pub approval_roles : List String

pub record Evidence : Type 0 where
  pub id : String
  pub sha256 : String
  pub observed_at : Json
  pub verified : Option Json
  pub attestation : Json

-- A missing assertion is `null`.
pub record Request : Type 0 where
  pub request_id : String
  pub principal : String
  pub agent_id : String
  pub target : Option Json
  pub context : Json
  pub evidence : List Evidence
  pub authority : Json
  pub approvals : List Json
  pub agent_attestation : Json

-- The collaborators of an engine: the trust registry of the project or the local authority, the
-- checkers that it was built with, the integrity check of the schema, the contracts on file, the
-- digests, and the timestamps of RFC 3339 in microseconds.
pub record Collaborators : Type 0 where
  -- `project_trust.exists()`
  pub project : Bool
  -- `_verify_assertion(artifact, kind)`: the claims of a verified assertion
  pub verify : Json → String → Option Entries
  -- `signer_has_role(str(signer), str(role))`
  pub signer_has_role : Json → Json → Bool
  -- `get_grant_revocation(grant_id) is not None`
  pub revoked_in_project : String → Bool
  -- `verify_agent_attestation(attestation, action_name, request_id, request_digest, now)`
  pub verify_agent_attestation : Json → String → String → String → ℕ → Option Entries
  pub revocation_checker : Option (String → Bool)
  pub attestation_consumed_checker : Option (Json → Json → Json → Bool)
  -- `none` is the `ValueError`
  pub parse_timestamp : Json → Option ℕ
  pub isoformat : ℕ → String
  -- `get_contract(action_name)`, where `none` is the `ActionContractError`
  pub get_contract : String → Option Contract
  pub request_digest : String → Request → String
  pub evidence_digest : Request → String
  -- `warden.verify_integrity(emit_human=False)`
  pub intact : Bool

-- `claims.get(key)`, where `None` is `null`
abbrev pub claim : String → Entries → Json
claim key claims = elim (get key claims) [ none ↦ null | some v ↦ v ]

abbrev pub is_letter : ℕ → Bool
is_letter c = (leb b'A' c && leb c b'Z') || (leb b'a' c && leb c b'z')

abbrev pub is_digit : ℕ → Bool
is_digit c = leb b'0' c && leb c b'9'

-- `[A-Za-z0-9_.:-]`
abbrev pub is_identifier_char : ℕ → Bool
is_identifier_char c =
    is_letter c || is_digit c || eqb c b'_' || eqb c b'.' || eqb c b':' || eqb c b'-'

-- `_IDENTIFIER.fullmatch`
unfoldable pub is_identifier : List ℕ → Bool
is_identifier [] = false
is_identifier (c ∷ s) = is_letter c && all is_identifier_char s

abbrev is_hex_digit : ℕ → Bool
is_hex_digit c = is_digit c || (leb b'a' c && leb c b'f') || (leb b'A' c && leb c b'F')

-- `_SHA256.fullmatch`
unfoldable pub is_sha256 : List ℕ → Bool
is_sha256 s = eqb (length s) 64 && all is_hex_digit s

-- an evidence record with the time that its `observed_at` says
pub record Observed : Type 0 where
  pub item : Evidence
  pub time : ℕ

abbrev is_flag : Option Json → Bool
is_flag none = true
is_flag (some (boolean b)) = true
is_flag (some _) = false

abbrev observed : Evidence → Option ℕ → Option (List Observed) → Option (List Observed)
observed e (some time) (some rest) = some (record { item = e; time = time } ∷ rest)
observed e _ _ = none

module _ (c : Collaborators) where
  -- The loop of `_validate_request` over the evidence. The times that it parses are kept for the
  -- checks, which parse the same texts again.
  unfoldable pub validate_items : List Evidence → Option (List Observed)
  unfolding is_identifier is_sha256
  validate_items [] = some []
  validate_items (e ∷ es) =
      let rest = validate_items es in
      if is_identifier (codes e.id) && (is_sha256 (codes e.sha256) && is_flag e.verified)
      then observed e (c.parse_timestamp e.observed_at) rest
      else none

  abbrev pub is_present : Option Json → Bool
  is_present none = false
  is_present (some v) = true

  -- `_validate_request`, where `none` is the `ValueError`
  unfoldable pub validate_request : Request → Option (List Observed)
  unfolding validate_items
  validate_request r =
      if is_identifier (codes r.request_id)
        && (is_identifier (codes r.principal)
            && (is_identifier (codes r.agent_id) && (is_present r.target && is_object r.context)))
      then validate_items r.evidence
      else none
