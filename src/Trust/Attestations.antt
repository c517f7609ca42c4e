-- ===== src/Trust/Attestations.antt =====
-- Action requests that an enrolled agent signed: `verify_agent_attestation`.
pub mod Laws
use entigram.Base.{
  ℕ, String, Bool, true, false, not, ◌+◌, ◌-◌, ◌&&◌, ◌||◌, ◌==◌, if◌then◌else◌, Option, none, some,
  any, codes, contains, find_first, holds, leb, ltb,
}
use entigram.Base.Json.{
  Json, string, object, null, Entries, empty, entry, get, get_text, get_object,
}
use entigram.Admission.{is_identifier}
use entigram.Trust.{
  Crypto, Document, Agent, Signer, Key, Fault, Result, ok, failed, is_active, has_key_id,
  is_version, _find_signer, _find_agent, put, key_not_active, assertion_missing,
  assertion_type_unsupported, claims_not_object, agent_unenrolled, agent_runtime_mismatch,
  agent_owner_inactive, agent_key_unenrolled, agent_subject_mismatch, agent_version_unenrolled,
  agent_request_mismatch, agent_digest_mismatch, agent_issued_in_future, agent_ttl_exceeded,
  agent_expiry_invalid, agent_expired, agent_attestation_invalid,
}

-- `MAX_AGENT_ATTESTATION_TTL_SECONDS` and `MAX_AGENT_ATTESTATION_FUTURE_SKEW_SECONDS`
abbrev pub max_agent_attestation_ttl : ℕ
max_agent_attestation_ttl = 900000000

abbrev pub max_agent_attestation_future_skew : ℕ
max_agent_attestation_future_skew = 60000000

-- the request that an attestation is checked against
pub record Attested : Type 0 where
  pub action_name : String
  pub request_id : String
  pub request_digest : String
  pub now : ℕ

abbrev pub agent_payload : String → String → Json → Entries → Json
agent_payload agent_id runtime key_id claims = object (
    entry "type" (string "entigram.agent-attestation.ed25519.v1") (
      entry "kind" (string "action_request") (
        entry "agent_id" (string agent_id) (
          entry "runtime" (string runtime)
            (entry "key_id" key_id (entry "claims" (object claims) empty))))))

abbrev supplied : Option Json → Json
supplied none = null
supplied (some v) = v

abbrev pub attested_claims : Agent → String → String → Json → Entries → Entries
attested_claims agent agent_id runtime key_id claims = put "_owner_id" (string agent.owner_id) (
    put "_key_id" key_id
      (put "_runtime" (string runtime) (put "_agent_id" (string agent_id) claims)))

abbrev pub is_named : Option String → Bool
is_named none = false
is_named (some s) = is_identifier (codes s)

-- an owner that is enrolled and has a key in use
abbrev pub is_owner_active : Option Signer → Bool
is_owner_active none = false
is_owner_active (some owner) = any is_active owner.keys

-- The life of an attestation. Where it ends before it starts, Python's difference is negative and
-- this one 0: neither is above the limit.
unfoldable pub time_fault : ℕ → ℕ → ℕ → Option Fault
time_fault issued expires now =
    if ltb (now + max_agent_attestation_future_skew) issued
    then some agent_issued_in_future
    else if ltb max_agent_attestation_ttl (expires - issued)
    then some agent_ttl_exceeded
    else if leb expires issued
    then some agent_expiry_invalid
    else if leb expires now
    then some agent_expired
    else none

module _ (c : Crypto) (request : Attested) where
  unfoldable pub period_fault : Entries → Option Fault
  unfolding time_fault
  period_fault claims = elim (c.parse_timestamp (get "issued_at" claims)) [
    | none ↦ some agent_attestation_invalid
    | some issued ↦ elim (c.parse_timestamp (get "expires_at" claims)) [
      | none ↦ some agent_attestation_invalid
      | some expires ↦ time_fault issued expires request.now
    ]
  ]

  unfoldable pub request_fault : Entries → Option Fault
  unfolding period_fault
  request_fault claims =
      if not (
        holds (get_text "action_name" claims) request.action_name
        && holds (get_text "request_id" claims) request.request_id)
      then some agent_request_mismatch
      else if not (holds (get_text "request_digest" claims) request.request_digest)
      then some agent_digest_mismatch
      else if not
          (is_named (get_text "attestation_id" claims) && is_named (get_text "nonce" claims))
      then some agent_attestation_invalid
      else period_fault claims

  -- The checks on the claims, once the signature is verified.
  unfoldable pub claims_fault : Agent → String → String → Entries → Option Fault
  unfolding request_fault
  claims_fault agent agent_id runtime claims =
      if not
        (holds (get_text "agent_id" claims) agent_id && holds (get_text "runtime" claims) runtime)
      then some agent_subject_mismatch
      else elim (get_text "version" claims) [
        | none ↦ some agent_attestation_invalid
        | some version ↦
            if not (is_version (codes version))
            then some agent_attestation_invalid
            else if not (contains agent.allowed_versions version)
            then some agent_version_unenrolled
            else request_fault claims
      ]

  module _ (artifact : Entries) where
    unfoldable pub attested_by : Agent → String → String → Key → Result Entries
    unfolding claims_fault put
    attested_by agent agent_id runtime key = elim (get_object "claims" artifact) [
      | none ↦ failed claims_not_object
      | some claims ↦
          if not (
            c.verifies key.public_key (get "signature" artifact)
              (agent_payload agent_id runtime (supplied (get "key_id" artifact)) claims))
          then failed agent_attestation_invalid
          else elim (claims_fault agent agent_id runtime claims) [
            | some fault ↦ failed fault
            | none ↦
                ok
                  (attested_claims agent agent_id runtime (supplied (get "key_id" artifact)) claims)
          ]
    ]

    unfoldable pub attesting_key : Agent → String → String → Result Entries
    unfolding attested_by
    attesting_key agent agent_id runtime =
        elim (find_first (has_key_id (get_text "key_id" artifact)) agent.keys) [
          | none ↦ failed agent_key_unenrolled
          | some key ↦
              if not (is_active key)
              then failed (key_not_active key.state)
              else attested_by agent agent_id runtime key
        ]

    unfoldable pub attesting_agent : Document → String → String → Result Entries
    unfolding attesting_key
    attesting_agent document agent_id runtime = elim (_find_agent document.agents agent_id) [
      | none ↦ failed agent_unenrolled
      | some agent ↦
          if not (agent.runtime == runtime)
          then failed agent_runtime_mismatch
          else if not (is_owner_active (_find_signer document.signers agent.owner_id))
          then failed agent_owner_inactive
          else attesting_key agent agent_id runtime
    ]

    abbrev named_agent : Option String → Option String → Result Document → Result Entries
    named_agent (some agent_id) (some runtime) (ok document) =
        if is_identifier (codes agent_id) && is_identifier (codes runtime)
        then attesting_agent document agent_id runtime
        else failed agent_attestation_invalid
    named_agent _ _ _ = failed agent_attestation_invalid

    unfoldable pub attestation_of : Result Document → Result Entries
    unfolding attesting_agent
    attestation_of loaded =
        if not (
          holds (get_text "type" artifact) "entigram.agent-attestation.ed25519.v1"
          && holds (get_text "kind" artifact) "action_request")
        then failed assertion_type_unsupported
        else named_agent (get_text "agent_id" artifact) (get_text "runtime" artifact) loaded

  unfoldable pub verify_agent_attestation : Json → Result Document → Result Entries
  unfolding attestation_of
  verify_agent_attestation (object artifact) loaded = attestation_of artifact loaded
  verify_agent_attestation _ loaded = failed assertion_missing
