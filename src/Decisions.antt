-- ===== src/Decisions.antt =====
-- The record of admission decisions in the local ledger (entigram/sqlite_ledger/manager.py):
-- `record_action_decision` with the attestations that it consumes, and revocations of grants. Rows
-- stand with the newest first.
pub mod Laws
pub mod Guards
use entigram.Base.{
  String, Bool, true, false, not, ◌&&◌, ◌||◌, ◌==◌, if◌then◌else◌, Option, none, some, List, [],
  ◌∷◌, any, contains,
}
use entigram.Admission.Engine.{Status}

-- an entry of a dict: missing, `None`, or a text
pub data Field : Type 0 where
  missing null : Field
  text : String → Field

-- what `provenance.agent_attestation.claims` says
pub record Attestation : Type 0 where
  pub attestation_id : Field
  pub nonce : Field

-- The parts of a decision that the call reads; its other columns are only stored.
pub record ActionDecision : Type 0 where
  pub decision_id : String
  pub request_id : String
  pub action_name : String
  pub status : Status
  pub observed_at : String
  pub identity_required : Bool
  pub agent_id : Field
  pub request_digest : Field
  pub attestation : Option Attestation

-- a row of `action_attestation_consumptions`
pub record Consumption : Type 0 where
  pub agent_id : String
  pub attestation_id : String
  pub nonce : String
  pub request_digest : String
  pub decision_id : String

pub record DecisionLedger : Type 0 where
  pub decisions : List ActionDecision
  pub consumptions : List Consumption
  pub revocations : List String

-- A row id, a `ValueError` or an `ActionAttestationReplayError`.
pub data Recording : Type 0 where
  recorded value_error replay_error : Recording

abbrev pub is_admitted : Status → Bool
is_admitted Status.admitted = true
is_admitted _ = false

abbrev pub misses_field : ActionDecision → Bool
misses_field d =
    d.decision_id == "" || d.request_id == "" || d.action_name == "" || d.observed_at == ""

abbrev is_missing : Field → Bool
is_missing missing = true
is_missing _ = false

abbrev is_null : Field → Bool
is_null null = true
is_null _ = false

abbrev text_of : Field → String
text_of (text s) = s
text_of _ = ""

-- What an admitted decision inserts: an entry that is missing is a `KeyError`, and a column that may
-- not be NULL is an `IntegrityError` where it would be.
pub data Insertion : Type 0 where
  incomplete null_column : Insertion
  row : Consumption → Insertion

abbrev columns : Field → Field → Field → Field → String → Insertion
columns agent_id attestation_id nonce request_digest decision_id =
    if is_missing agent_id
      || (is_missing attestation_id || (is_missing nonce || is_missing request_digest))
    then incomplete
    else if is_null agent_id
        || (is_null attestation_id || (is_null nonce || is_null request_digest))
    then null_column
    else row (record {
      agent_id = text_of agent_id;
      attestation_id = text_of attestation_id;
      nonce = text_of nonce;
      request_digest = text_of request_digest;
      decision_id = decision_id;
    })

unfoldable pub consumption_of : ActionDecision → Insertion
consumption_of d = elim d.attestation [
  | none ↦ incomplete
  | some a ↦ columns d.agent_id a.attestation_id a.nonce d.request_digest d.decision_id
]

-- the `WHERE` of `is_action_attestation_consumed`
abbrev pub uses : String → String → String → Consumption → Bool
uses agent_id attestation_id nonce c =
    c.agent_id == agent_id && (c.attestation_id == attestation_id || c.nonce == nonce)

unfoldable pub is_action_attestation_consumed : String → String → String → DecisionLedger → Bool
is_action_attestation_consumed agent_id attestation_id nonce l =
    any (uses agent_id attestation_id nonce) l.consumptions

-- the unique columns of the table: the agent with the attestation, the agent with the nonce, the decision
abbrev pub collides : Consumption → Consumption → Bool
collides c old = uses c.agent_id c.attestation_id c.nonce old || old.decision_id == c.decision_id

abbrev pub refused_insert : Status → Recording
refused_insert status = if is_admitted status then replay_error else value_error

-- The insertion of the decision into a ledger that may have its attestation consumed; a refusal rolls
-- the transaction back to the ledger before.
unfoldable pub insert_decision :
    ActionDecision → DecisionLedger → DecisionLedger → Recording × DecisionLedger
insert_decision d next before =
    if any (λ old. old.decision_id == d.decision_id) before.decisions
    then (refused_insert d.status, before)
    else (recorded, record next { decisions = d ∷ next.decisions })

unfoldable pub record_action_decision :
    ActionDecision → Bool → DecisionLedger → Recording × DecisionLedger
unfolding insert_decision consumption_of
record_action_decision d consume l =
    if misses_field d
    then (value_error, l)
    else if consume && (is_admitted d.status && d.identity_required)
    then elim (consumption_of d) [
      | incomplete ↦ (value_error, l)
      | null_column ↦ (replay_error, l)
      | row c ↦
          if any (collides c) l.consumptions
          then (replay_error, l)
          else insert_decision d (record l { consumptions = c ∷ l.consumptions }) l
    ]
    else insert_decision d l l

-- `none` is the `ValueError`
unfoldable pub revoke_action_grant :
    String → String → String → DecisionLedger → Option Bool × DecisionLedger
revoke_action_grant grant_id revoked_by rationale l =
    if grant_id == "" || revoked_by == "" || rationale == ""
    then (none, l)
    else if contains l.revocations grant_id
    then (some false, l)
    else (some true, record l { revocations = grant_id ∷ l.revocations })

unfoldable pub is_action_grant_revoked : String → DecisionLedger → Bool
is_action_grant_revoked grant_id l = contains l.revocations grant_id

-- the calls that change the record, and a history of them
pub data DecisionCall : Type 0 where
  record_decision : ActionDecision → Bool → DecisionCall
  revoke : String → String → String → DecisionCall

unfoldable pub perform : DecisionCall → DecisionLedger → DecisionLedger
perform (record_decision d consume) l = (record_action_decision d consume l).1
perform (revoke grant_id revoked_by rationale) l =
    (revoke_action_grant grant_id revoked_by rationale l).1

unfoldable pub history : List DecisionCall → DecisionLedger → DecisionLedger
unfolding perform
history [] l = l
history (call ∷ calls) l = history calls (perform call l)
