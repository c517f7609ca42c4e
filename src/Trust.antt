-- ===== src/Trust.antt =====
-- The project's trust registry (entigram/governance/trust.py): the document that a workspace
-- commits, the changes to it, and what the registry takes from cryptography.
pub mod Assertions
pub mod Attestations
pub mod Approvals
pub mod Edits
pub mod Changes
pub mod State
pub mod History
pub mod Registry
use entigram.Base.{
  ℕ, String, Bool, true, false, ◌&&◌, ◌||◌, ◌==◌, Option, none, some, List, [], ◌∷◌, any, all, eqb,
  codes, contains, find_first, holds, ◌≡◌, refl, ◌⊎◌, inl, inr,
}
use entigram.Base.Json.{Json, Entries, empty, entry, get_text}
use entigram.Admission.{is_letter, is_digit, is_identifier_char}

pub data KeyState : Type 0 where
  active retired revoked : KeyState

pub record Key : Type 0 where
  pub key_id : String
  pub public_key : String
  pub state : KeyState
  pub registered_at : String
  pub ended_at : Option String

pub record Signer : Type 0 where
  pub signer_id : String
  pub roles : List String
  pub keys : List Key

pub record Agent : Type 0 where
  pub agent_id : String
  pub owner_id : String
  pub runtime : String
  pub allowed_versions : List String
  pub keys : List Key

pub record RevokedGrant : Type 0 where
  pub grant_id : String
  pub issuer_id : String
  pub grant_digest : String
  pub revoked_at : String
  pub change_id : String

pub record Rule : Type 0 where
  pub minimum : ℕ
  pub roles : List String

pub record Quorum : Type 0 where
  pub trust_change : Rule
  pub recovery : Rule

-- what `public_record` of a personal identity exports
pub record PublicRecord : Type 0 where
  pub type_name : String
  pub signer_id : String
  pub key_id : String
  pub public_key : String

-- what `public_record` of an agent's identity exports
pub record AgentRecord : Type 0 where
  pub type_name : String
  pub agent_id : String
  pub runtime : String
  pub key_id : String
  pub public_key : String

-- the `operation` of a change with the fields that go with it
pub data Operation : Type 0 where
  add_signer : String → PublicRecord → List String → Operation
  rotate_key : String → PublicRecord → Operation
  recover_key : String → PublicRecord → Operation
  revoke_key : String → String → Operation
  revoke_grant : String → String → Entries → Operation
  enroll_agent : String → String → String → String → AgentRecord → Operation
  add_agent_version : String → String → Operation
  remove_agent_version : String → String → Operation
  rotate_agent_key : String → AgentRecord → Operation
  revoke_agent_key : String → String → Operation

-- `signer_id` is that of a change which is an operation on an agent, where it has one beside the
-- `agent_id`; the digest of a change is over it as well.
pub record Change : Type 0 where
  pub type_name : String
  pub change_id : String
  pub project_id : String
  pub registry_digest : String
  pub operation : Operation
  pub signer_id : Option String
  pub created_at : String
  pub change_digest : String

pub record Event : Type 0 where
  pub event_id : String
  pub event_type : String
  pub change : Change
  pub approvals : List Json
  pub approvers : List String
  pub applied_at : String
  pub event_digest : String

pub record Root : Type 0 where
  pub project_id : String
  pub created_at : String
  pub quorum : Quorum
  pub signers : List Signer
  pub agents : List Agent
  pub revoked_grants : List RevokedGrant

-- The content of `.etg/trust.yaml`, once its fields have their types.
pub record Document : Type 0 where
  pub format : String
  pub project_id : String
  pub version : ℕ
  pub root : Root
  pub root_signature : Entries
  pub quorum : Quorum
  pub signers : List Signer
  pub agents : List Agent
  pub revoked_grants : List RevokedGrant
  pub events : List Event

-- the pin of a project's root outside the workspace
pub record Anchor : Type 0 where
  pub format : String
  pub project_id : String
  pub root_digest : String
  pub root_signature_digest : String

-- What the registry takes from others: Ed25519 and base64, SHA-256 over canonical JSON, and the
-- timestamps of RFC 3339 in microseconds.
pub record Crypto : Type 0 where
  -- decode the signature, load the key and verify the payload: nothing of this raises
  pub verifies : String → Option Json → Json → Bool
  -- `key_id(_raw_public_key(encoded))`, where `none` is the error
  pub public_key_id : String → Option String
  pub digest : Entries → String
  pub document_digest : Document → String
  pub root_digest : Root → String
  -- of a change, or an event, without the digest that it carries
  pub change_digest : Change → String
  pub event_digest : Event → String
  -- canonical JSON of the parts of a document
  pub canonical_quorum : Quorum → String
  pub canonical_signers : List Signer → String
  pub canonical_agents : List Agent → String
  pub canonical_grants : List RevokedGrant → String
  pub parse_timestamp : Option Json → Option ℕ

-- The first reason that stops an operation of the registry. The messages on one malformed value
-- (a change, a record, a state, a root) share a constructor.
pub data Fault : Type 0 where
  -- assertions and attestations
  assertion_missing assertion_type_unsupported signer_untrusted key_untrusted : Fault
  key_not_active : KeyState → Fault
  claims_not_object assertion_invalid : Fault
  agent_unenrolled agent_runtime_mismatch agent_owner_inactive agent_key_unenrolled : Fault
  agent_subject_mismatch agent_version_unenrolled agent_request_mismatch : Fault
  agent_digest_mismatch agent_issued_in_future agent_ttl_exceeded agent_expiry_invalid : Fault
  agent_expired agent_attestation_invalid : Fault
  -- changes
  change_invalid change_digest_mismatch change_project_mismatch registry_changed : Fault
  no_approver rotation_unsigned quorum_missing grant_issuer_unsigned : Fault
  grant_issuer_unqualified grant_invalid grant_mismatch grant_issuer_mismatch : Fault
  signer_exists signer_missing key_exists key_missing grant_already_revoked : Fault
  agent_exists agent_missing owner_missing version_allowed version_not_allowed : Fault
  version_final public_record_invalid roles_invalid runtime_mismatch : Fault
  -- documents
  state_invalid root_invalid anchor_missing anchor_mismatch history_invalid : Fault
  history_mismatch document_missing : Fault

pub data Result {ℓ} (A : Type ℓ) : Type ℓ where
  ok : A → Result A
  failed : Fault → Result A

-- which of the two a result is
pub Result-cases {ℓ} :
    {A : Type ℓ} (r : Result A) → ((f : Fault) × (r ≡ failed f)) ⊎ ((a : A) × (r ≡ ok a))
Result-cases (failed f) = inl (f, refl)
Result-cases (ok a) = inr (a, refl)

abbrev pub is_active : Key → Bool
is_active k = elim k.state [ KeyState.active ↦ true | _ ↦ false ]

-- a key of that id, which is `none` where the artifact gives no text
abbrev pub has_key_id : Option String → Key → Bool
has_key_id none k = false
has_key_id (some id) k = k.key_id == id

abbrev pub _find_signer : List Signer → String → Option Signer
_find_signer signers id = find_first (λ (s : Signer). s.signer_id == id) signers

abbrev pub _find_agent : List Agent → String → Option Agent
_find_agent agents id = find_first (λ (a : Agent). a.agent_id == id) agents

unfoldable pub _signer_has_role : Document → String → String → Bool
_signer_has_role document id role = elim (_find_signer document.signers id) [
  | none ↦ false
  | some signer ↦ contains signer.roles role && any is_active signer.keys
]

-- `_VERSION.fullmatch`
abbrev is_version_char : ℕ → Bool
is_version_char c = is_identifier_char c || eqb c b'+'

unfoldable pub is_version : List ℕ → Bool
is_version [] = false
is_version (c ∷ s) = (is_letter c || is_digit c) && all is_version_char s

-- `{**d, k: v}`
unfoldable pub put : String → Json → Entries → Entries
put k v empty = entry k v empty
put k v (entry j w d) =
    let rest = put k v d in elim (j == k) [ true ↦ entry j v d | false ↦ entry j w rest ]
