-- ===== src/Trust/History/Permanence.antt =====
-- Documents of which one continues the signed history of the other (entigram/governance/trust.py).
use entigram.Base.{String, ◌≡◌, ◌≢◌, refl, sym, ◌∙◌, ◌++◌, List, [], ◌∷◌, arith, length, eq_iff}
use entigram.Base.Json.{Json}
use entigram.Trust.{Crypto, Document, Event, Change, ok, failed, registry_changed}
use entigram.Trust.Changes.{Applied, _apply_state_change}
use entigram.Trust.Changes.Consent.{apply-IsConsented}
use entigram.Trust.Changes.Frame.{Ended, IsEnded}
use entigram.Trust.History.{state_of, _root_state, replay}
use entigram.Trust.History.Replay.{replay-IsReplayed, replay-append, replay-IsEnded}

-- a document that is exactly what its root and its events give
abbrev pub IsOwnHistory : Crypto → Document → Type 0
IsOwnHistory c d = replay c (_root_state d) d.events ≡ ok d

-- Two documents of one root, of which the later continues the history of the earlier.
pub record IsLater (d e : Document) : Type 0 where
  pub root : e.root ≡ d.root
  pub project : e.project_id ≡ d.project_id
  pub root_signature : e.root_signature ≡ d.root_signature
  pub more : List Event
  pub events : e.events ≡ d.events ++ more

no_events : (es : List Event) → length es ≡ 0 → es ≡ []
no_events [] h = refl
no_events (e ∷ es) h = absurd (omega (arith, h))

module _ (c : Crypto) where
  later-replay :
      (d e : Document)
      → IsOwnHistory c d
      → IsOwnHistory c e
      → (l : IsLater d e) → replay c d l.more ≡ ok e
  later-replay d e hd he l =
      let same : _root_state e ≡ _root_state d =
        λ i. state_of (l.root i) (l.project i) (l.root_signature i) in
      sym (replay-append c (_root_state d) d d.events l.more hd)
      ∙ (sym (λ i. replay c (same i) (l.events i)) ∙ he)

  -- Whatever has ended, ends for good: a signer's or an agent's key that is retired or revoked, and a
  -- grant that is revoked, are so in every document whose history continues that of this one.
  pub later-IsEnded :
      (x : Ended) (d e : Document)
      → IsOwnHistory c d
      → IsOwnHistory c e
      → IsLater d e
      → IsEnded x d
      → IsEnded x e
  later-IsEnded x d e hd he l o = replay-IsEnded c x d l.more e (later-replay d e hd he l) o

  -- A change that was applied to a document is refused by every document whose history continues that
  -- one's by an event or more, unless their digests collide.
  pub apply-once :
      (d e : Document) (change : Change) (approvals again : List Json) (at now : String)
      (applied : Applied) (l : IsLater d e)
      → IsOwnHistory c d
      → IsOwnHistory c e
      → l.more ≢ []
      → (c.document_digest d ≡ c.document_digest e → d.version ≡ e.version)
      → _apply_state_change c d change approvals at ≡ ok applied
      → _apply_state_change c e change again now ≡ failed registry_changed
  unfolding _apply_state_change
  apply-once d e change approvals again at now applied l hd he some_more distinct h =
      let k = apply-IsConsented c d change approvals at applied h in
      let r = replay-IsReplayed c d l.more e (later-replay d e hd he l) in
      let longer : c.document_digest d ≢ c.document_digest e =
        λ same. some_more (no_events l.more (omega (arith, r.version, distinct same))) in
      ground (
        arith,
        k.well_formed,
        k.project,
        k.current,
        longer,
        r.project,
        eq_iff change.registry_digest (c.document_digest d),
        eq_iff change.registry_digest (c.document_digest e),
      )
