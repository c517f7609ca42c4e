-- ===== src/Trust/History.antt =====
-- The signed root, its pin, and the history of changes: `load`, `apply_change`, `initialize`'s checks.
pub mod Replay
pub mod Permanence
pub mod Selfcheck
use entigram.Base.{
  ℕ, String, Bool, true, false, not, ◌&&◌, ◌||◌, ◌==◌, ◌++◌, if◌then◌else◌, Option, none, some,
  List, [], ◌∷◌, codes, contains, eqb, holds, is_none,
}
use entigram.Base.Json.{Json, string, object, Entries, get_text}
use entigram.Trust.{
  Crypto, Document, Root, Anchor, Event, Change, Signer, Fault, Result, ok, failed, _find_signer,
  state_invalid, root_invalid, anchor_missing, anchor_mismatch, history_invalid, history_mismatch,
  document_missing,
}
use entigram.Trust.Approvals.{operation_name}
use entigram.Trust.Assertions.{_verify_personal_assertion}
use entigram.Trust.Changes.{Applied, _apply_state_change}
use entigram.Trust.Edits.{sort_texts}
use entigram.Trust.State.{_validate_state}

-- the state before any change
abbrev pub state_of : Root → String → Entries → Document
state_of root project_id root_signature = record {
  format = "entigram.project-trust.v2";
  project_id = project_id;
  version = 1;
  root = root;
  root_signature = root_signature;
  quorum = root.quorum;
  signers = root.signers;
  agents = root.agents;
  revoked_grants = root.revoked_grants;
  events = [];
}

abbrev pub _root_state : Document → Document
_root_state d = state_of d.root d.project_id d.root_signature

abbrev pub same_texts : List String → List String → Bool
same_texts [] [] = true
same_texts (s ∷ ss) (t ∷ ts) = s == t && same_texts ss ts
same_texts _ _ = false

abbrev is_root_admin : Option Signer → Bool
is_root_admin none = false
is_root_admin (some s) = contains s.roles "trust_admin" && contains s.roles "recovery_admin"

module _ (c : Crypto) where
  -- what the signature of the root has to claim, and who made it
  unfoldable pub is_root_claim : Document → Entries → Bool
  is_root_claim d claims =
      holds (get_text "project_id" claims) d.project_id
      && (holds (get_text "root_digest" claims) (c.root_digest d.root)
          && (holds (get_text "created_at" claims) d.root.created_at
              && elim (get_text "_signer_id" claims) [
                | none ↦ false
                | some id ↦ is_root_admin (_find_signer d.root.signers id)
              ]))

  unfoldable pub _validate_root : Document → Option Fault
  unfolding _validate_state is_root_claim _verify_personal_assertion
  _validate_root d =
      let root_state = state_of d.root d.root.project_id d.root_signature in
      if not (d.root.project_id == d.project_id)
      then some root_invalid
      else if not (_validate_state c root_state)
      then some state_invalid
      else elim (_verify_personal_assertion c (object d.root_signature) "trust_root" root_state
          true) [
            | failed _ ↦ some root_invalid
            | ok claims ↦ if is_root_claim d claims then none else some root_invalid
          ]

  -- The anchor that the file holds; `none` is a missing file.
  unfoldable pub _verify_anchor : Option Anchor → Document → Option Fault
  _verify_anchor none d = some anchor_missing
  _verify_anchor (some anchor) d =
      if anchor.format == "entigram.project-trust-anchor.v1"
        && (anchor.project_id == d.project_id
            && (anchor.root_digest == c.root_digest d.root
                && anchor.root_signature_digest == c.digest d.root_signature))
      then none
      else some anchor_mismatch

  abbrev pub recorded : Event → Result Applied → Result Document
  recorded e (failed fault) = failed fault
  recorded e (ok applied) =
      if not (same_texts (sort_texts applied.approvers) e.approvers)
      then failed history_mismatch
      else ok (record applied.document { events = applied.document.events ++ e ∷ [] })

  -- one round of the loop of `_verify_history`
  unfoldable pub replay_event : Document → Event → Result Document
  unfolding _apply_state_change sort_texts operation_name
  replay_event d e =
      if not (e.event_digest == c.event_digest e)
      then failed history_invalid
      else if is_none (c.parse_timestamp (some (string e.applied_at)))
      then failed history_invalid
      else if not (e.event_type == operation_name e.change.operation)
      then failed history_invalid
      else recorded e (_apply_state_change c d e.change e.approvals e.applied_at)

  unfoldable pub replay : Document → List Event → Result Document
  unfolding replay_event
  replay d [] = ok d
  replay d (e ∷ es) = elim (replay_event d e) [
    | failed fault ↦ failed fault
    | ok next ↦ replay next es
  ]

  -- canonical JSON of each field that the history determines
  unfoldable pub matches_history : Document → Document → Bool
  matches_history d replayed =
      eqb d.version replayed.version
      && (c.canonical_quorum d.quorum == c.canonical_quorum replayed.quorum
          && (c.canonical_signers d.signers == c.canonical_signers replayed.signers
              && (c.canonical_agents d.agents == c.canonical_agents replayed.agents
                  && c.canonical_grants d.revoked_grants
                    == c.canonical_grants replayed.revoked_grants)))

  unfoldable pub _verify_history : Document → Option Fault
  unfolding replay matches_history
  _verify_history d = elim (replay (_root_state d) d.events) [
    | failed fault ↦ some fault
    | ok replayed ↦ if matches_history d replayed then none else some history_mismatch
  ]

  module _ (anchor : Option Anchor) where
    unfoldable pub _validate_document : Document → Option Fault
    unfolding _validate_state _validate_root _verify_anchor _verify_history
    _validate_document d =
        if not (_validate_state c d) then some state_invalid else elim (_validate_root d) [
          | some fault ↦ some fault
          | none ↦ elim (_verify_anchor anchor d) [
            | some fault ↦ some fault
            | none ↦ _verify_history d
          ]
        ]

    -- the file of the workspace, if there is one, as a document that may be relied on
    unfoldable pub load : Option Document → Result Document
    unfolding _validate_document
    load none = failed document_missing
    load (some d) = elim (_validate_document d) [ some fault ↦ failed fault | none ↦ ok d ]

    -- The event that records a change; its digest is over the other fields.
    abbrev pub event_of : String → String → Change → List Json → List String → Event
    event_of event_id at change approvals approvers =
        let unsigned : Event = record {
          event_id = event_id;
          event_type = operation_name change.operation;
          change = change;
          approvals = approvals;
          approvers = sort_texts approvers;
          applied_at = at;
          event_digest = "";
        } in
        record unsigned { event_digest = c.event_digest unsigned }

    abbrev pub written : Event → Document → Result Document
    written e d =
        let next : Document = record d { events = d.events ++ e ∷ [] } in
        elim (_validate_document next) [ some fault ↦ failed fault | none ↦ ok next ]

    -- `apply_change` under the lock: the document that it writes, with the id and the time that
    -- the source draws
    unfoldable pub apply_change :
        Option Document → Change → List Json → String → String → Result Document
    unfolding load _apply_state_change sort_texts operation_name
    apply_change file change approvals event_id at = elim (load file) [
      | failed fault ↦ failed fault
      | ok d ↦ elim (_apply_state_change c d change approvals at) [
        | failed fault ↦ failed fault
        | ok applied ↦
            written (event_of event_id at change approvals applied.approvers) applied.document
      ]
    ]
