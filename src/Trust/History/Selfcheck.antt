-- ===== src/Trust/History/Selfcheck.antt =====
-- The checks that `apply_change` makes of the document that it is about to write.
use entigram.Base.{
  Bool-cases, inl, inr, if◌then◌else◌, String, true, false, ◌≡◌, refl, ◌∙◌, ◌++◌, Option, none,
  some, List, [], ◌∷◌, arith, eq_refl, is_none,
}
use entigram.Base.Json.{Json, string}
use entigram.Trust.{Crypto, Document, Anchor, Event, Change, ok, failed, state_invalid}
use entigram.Trust.Approvals.{operation_name}
use entigram.Trust.Changes.{Applied, _apply_state_change}
use entigram.Trust.Changes.Frame.{apply-IsFramed}
use entigram.Trust.Edits.{sort_texts}
use entigram.Trust.History.{
  state_of, _root_state, same_texts, replay_event, replay, matches_history, _verify_history,
  _validate_root, is_root_claim, _verify_anchor, _validate_document, load, event_of, apply_change,
}
use entigram.Trust.History.Permanence.{IsOwnHistory}
use entigram.Trust.History.Replay.{replay-append}
use entigram.Trust.State.{_validate_state}

-- the document after an event
abbrev pub with_event : Event → Document → Document
with_event e d = record d { events = d.events ++ e ∷ [] }

same_texts_refl : (ss : List String) → same_texts ss ss ≡ true
same_texts_refl [] = refl
same_texts_refl (s ∷ ss) = rw (eq_refl s, same_texts_refl ss) refl

-- a document that passes every check, and is what its history gives
pub record IsSound (c : Crypto) (anchor : Option Anchor) (d : Document) : Type 0 where
  pub state : _validate_state c d ≡ true
  pub root : _validate_root c d ≡ none
  pub anchored : _verify_anchor c anchor d ≡ none
  pub history : IsOwnHistory c d

anchor-same :
    (c : Crypto) (anchor : Option Anchor) (d e : Document)
    → e.root ≡ d.root
    → e.project_id ≡ d.project_id
    → e.root_signature ≡ d.root_signature
    → _verify_anchor c anchor e ≡ _verify_anchor c anchor d
unfolding _verify_anchor
anchor-same c none d e p q r = refl
anchor-same c (some a) d e p q r =
    λ i. _verify_anchor c (some a) (record e { root = p i; project_id = q i; root_signature = r i })

module _ (c : Crypto) (anchor : Option Anchor) where
  own-verify_history : (d : Document) → IsOwnHistory c d → _verify_history c d ≡ none
  unfolding _verify_history matches_history
  own-verify_history d h = ground (
    arith,
    h,
    eq_refl (c.canonical_quorum d.quorum),
    eq_refl (c.canonical_signers d.signers),
    eq_refl (c.canonical_agents d.agents),
    eq_refl (c.canonical_grants d.revoked_grants),
  )

  sound-validate : (d : Document) → IsSound c anchor d → _validate_document c anchor d ≡ none
  unfolding _validate_document
  sound-validate d s = ground (arith, own-verify_history d s.history)

  -- the root's checks read nothing that a change alters
  root-same :
      (d e : Document)
      → e.root ≡ d.root
      → e.project_id ≡ d.project_id
      → e.root_signature ≡ d.root_signature
      → _validate_root c e ≡ _validate_root c d
  unfolding _validate_root is_root_claim
  root-same d e p q r =
      λ i. _validate_root c (record e { root = p i; project_id = q i; root_signature = r i })

  module _ (d : Document) (change : Change) (approvals : List Json) (event_id at : String)
      (applied : Applied) where
    abbrev event : Event
    event = event_of c anchor event_id at change approvals applied.approvers

    once :
        ((e : Event) (s : String)
          → c.event_digest (record e { event_digest = s }) ≡ c.event_digest e)
        → _apply_state_change c d change approvals at ≡ ok applied
        → is_none (c.parse_timestamp (some (string at))) ≡ false
        → replay c d (event ∷ []) ≡ ok (with_event event applied.document)
    unfolding replay replay_event
    once digest k t = ground (
      arith,
      digest event event.event_digest,
      digest event "",
      eq_refl event.event_digest,
      eq_refl (operation_name change.operation),
      same_texts_refl (sort_texts applied.approvers),
    )

    next-IsOwnHistory :
        ((e : Event) (s : String)
          → c.event_digest (record e { event_digest = s }) ≡ c.event_digest e)
        → IsOwnHistory c d
        → _apply_state_change c d change approvals at ≡ ok applied
        → is_none (c.parse_timestamp (some (string at))) ≡ false
        → IsOwnHistory c (with_event event applied.document)
    next-IsOwnHistory digest h k t =
        let f = apply-IsFramed c d change approvals at applied k in
        let same : _root_state applied.document ≡ _root_state d =
          λ i. state_of (f.root i) (f.project i) (f.root_signature i) in
        let first : replay c (_root_state applied.document) (applied.document.events ++ event ∷ [])
            ≡ replay c d (event ∷ []) =
          (λ i. replay c (same i) (f.events i ++ event ∷ []))
          ∙ replay-append c (_root_state d) d d.events (event ∷ []) h in
        first ∙ once digest k t

    -- Where the registry's document passes every check, a change applies to it at a time that parses,
    -- and the digest of an event does not read the one that the event carries, `apply_change` writes
    -- the document with the change and its event if that is a well-formed state, and refuses it as an
    -- invalid state otherwise: no check of the root, the anchor or the history ever refuses it. A
    -- document that is written passes every check again.
    pub apply_change-settles :
        ((e : Event) (s : String)
          → c.event_digest (record e { event_digest = s }) ≡ c.event_digest e)
        → IsSound c anchor d
        → _apply_state_change c d change approvals at ≡ ok applied
        → is_none (c.parse_timestamp (some (string at))) ≡ false
        → (apply_change c anchor (some d) change approvals event_id at ≡ (
            if _validate_state c (with_event event applied.document)
            then ok (with_event event applied.document)
            else failed state_invalid))
          × (_validate_state c (with_event event applied.document) ≡ true
              → IsSound c anchor (with_event event applied.document))
    unfolding apply_change load _validate_document
    apply_change-settles digest s k t =
        let f = apply-IsFramed c d change approvals at applied k in
        let sound : _validate_state c (with_event event applied.document) ≡ true
            → IsSound c anchor (with_event event applied.document) =
          λ valid. record {
            state = valid;
            root =
                root-same d (with_event event applied.document) f.root f.project f.root_signature
                ∙ s.root;
            anchored =
                anchor-same c anchor d (with_event event applied.document) f.root f.project
                  f.root_signature
                ∙ s.anchored;
            history = next-IsOwnHistory digest s.history k t;
          } in
        let before = sound-validate d s in
        (
          elim (Bool-cases (_validate_state c (with_event event applied.document))) [
            | inl e ↦
                (let after = sound-validate (with_event event applied.document) (sound e) in
                  ground arith)
            | inr e ↦ ground arith
          ],
          sound,
        )
