-- ===== src/Trust/History/Replay.antt =====
-- The replay of the events: what it determines, and that a change that applies replays.
use mathlib.Core.List.{append_assoc, append-nil}
use entigram.Base.{◌≡◌, refl, sym, ap, ◌∙◌, ◌++◌, ◌+◌, List, [], ◌∷◌, arith, length, inl, inr}
use entigram.Trust.{Crypto, Document, Event, ok, Result-cases}
use entigram.Trust.Changes.{Applied, _apply_state_change}
use entigram.Trust.Changes.Frame.{
  apply-IsFramed, Ended, signer_key, agent_key, grant, IsEnded, apply-IsEnded,
}
use entigram.Trust.History.{replay_event, replay}

module _ (c : Crypto) where
  -- a change with the event that records it
  record IsRecorded (d : Document) (e : Event) (next : Document) : Type 0 where
    applied : Applied
    is_applied : _apply_state_change c d e.change e.approvals e.applied_at ≡ ok applied
    is_next : next ≡ record applied.document { events = applied.document.events ++ e ∷ [] }

  event-IsRecorded :
      (d : Document) (e : Event) (next : Document)
      → replay_event c d e ≡ ok next
      → IsRecorded d e next
  unfolding replay_event
  event-IsRecorded d e next h =
      elim (Result-cases (_apply_state_change c d e.change e.approvals e.applied_at)) [
        | inl (f, p) ↦ absurd (ground arith)
        | inr (applied, p) ↦ record { applied = applied; is_applied = p; is_next = ground arith }
      ]

  -- what a replay leaves as it was, and what it counts
  pub record IsReplayed (d : Document) (es : List Event) (r : Document) : Type 0 where
    pub root : r.root ≡ d.root
    pub project : r.project_id ≡ d.project_id
    pub root_signature : r.root_signature ≡ d.root_signature
    pub quorum : r.quorum ≡ d.quorum
    pub format : r.format ≡ d.format
    pub events : r.events ≡ d.events ++ es
    pub version : r.version ≡ d.version + length es

  nothing-IsReplayed : (d : Document) → IsReplayed d [] d
  nothing-IsReplayed d = record {
    root = refl;
    project = refl;
    root_signature = refl;
    quorum = refl;
    format = refl;
    events = sym (append-nil d.events);
    version = omega arith;
  }

  IsReplayed-event :
      (d next r : Document) (e : Event) (es : List Event)
      → IsRecorded d e next
      → IsReplayed next es r
      → IsReplayed d (e ∷ es) r
  IsReplayed-event d next r e es k h =
      let f = apply-IsFramed c d e.change e.approvals e.applied_at k.applied k.is_applied in
      let n = k.is_next in
      record {
        root = h.root ∙ (ap (λ t. t.root) n ∙ f.root);
        project = h.project ∙ (ap (λ t. t.project_id) n ∙ f.project);
        root_signature = h.root_signature ∙ (ap (λ t. t.root_signature) n ∙ f.root_signature);
        quorum = h.quorum ∙ (ap (λ t. t.quorum) n ∙ f.quorum);
        format = h.format ∙ (ap (λ t. t.format) n ∙ f.format);
        events =
            h.events
            ∙ (ap (λ t. t.events ++ es) n ∙ (rw f.events (append_assoc d.events (e ∷ []) es)));
        version = omega (arith, h.version, ap (λ t. t.version) n, f.version);
      }

  -- The replay of a history leaves the root, the project, the rules and the format as they were,
  -- records the events in order, and counts them in the version.
  pub replay-IsReplayed :
      (d : Document) (es : List Event) (r : Document) → replay c d es ≡ ok r → IsReplayed d es r
  unfolding replay
  replay-IsReplayed d [] r h = let p : d ≡ r = ground arith in rw⁻¹ p (nothing-IsReplayed d)
  replay-IsReplayed d (e ∷ es) r h = elim (Result-cases (replay_event c d e)) [
    | inl (f, p) ↦ absurd (ground arith)
    | inr (next, p) ↦
        IsReplayed-event d next r e es (event-IsRecorded d e next p)
          (replay-IsReplayed next es r (ground arith))
  ]

  -- recording an event brings nothing back
  IsEnded-recorded :
      (x : Ended) (d : Document) (es : List Event)
      → IsEnded x d
      → IsEnded x (record d { events = es })
  IsEnded-recorded (signer_key _ _) d es o = o
  IsEnded-recorded (agent_key _ _) d es o = o
  IsEnded-recorded (grant _) d es o = o

  pub replay-IsEnded :
      (x : Ended) (d : Document) (es : List Event) (r : Document)
      → replay c d es ≡ ok r
      → IsEnded x d
      → IsEnded x r
  unfolding replay
  replay-IsEnded x d [] r h o = let p : d ≡ r = ground arith in rw⁻¹ p o
  replay-IsEnded x d (e ∷ es) r h o = elim (Result-cases (replay_event c d e)) [
    | inl (f, p) ↦ absurd (ground arith)
    | inr (next, p) ↦
        let k = event-IsRecorded d e next p in
        replay-IsEnded x next es r (ground arith) (
          rw k.is_next (
            IsEnded-recorded x k.applied.document _
              (apply-IsEnded c d e.change e.approvals e.applied_at k.applied x k.is_applied o)))
  ]

  pub replay-append :
      (d r : Document) (es fs : List Event)
      → replay c d es ≡ ok r
      → replay c d (es ++ fs) ≡ replay c r fs
  unfolding replay
  replay-append d r [] fs h = let p : d ≡ r = ground arith in rw p refl
  replay-append d r (e ∷ es) fs h = elim (Result-cases (replay_event c d e)) [
    | inl (f, p) ↦ absurd (ground arith)
    | inr (next, p) ↦ let ih = replay-append next r es fs (ground arith) in rw (p, replay) ih
  ]
