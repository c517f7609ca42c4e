-- ===== src/Mediator/Proposals/Events.antt =====
-- The answer of `admit_proposals`: whether it has one, and its events.
use entigram.Base.{Bool, true, ◌≡◌, some, List, [], ◌∷◌, keep, map}
use entigram.Base.Json.{Json, object, Entries, is_object}
use entigram.Mediator.{Receipt}
use entigram.Mediator.Proposals.{Mediator, ProposalEvent, Admissions, admit_proposals}

-- a receipt whose arguments are an object
abbrev pub IsPlain : Receipt → Type 0
IsPlain r = is_object r.arguments ≡ true

-- the proposals that are dicts
abbrev pub objects : List Json → List Entries
objects [] = []
objects (object p ∷ rest) = p ∷ objects rest
objects (_ ∷ rest) = objects rest

module _ (m : Mediator) where
  abbrev pub proposal_of : ProposalEvent m → Entries
  proposal_of e = e.proposal

  abbrev pub permits : ProposalEvent m → Bool
  permits e = e.permitted

  -- one event for each proposal, in order, and the calls of the events that permit
  pub record IsAnswer (proposals : List Json) : Type 0 where
    pub admissions : Admissions m
    pub given : admit_proposals m proposals ≡ some admissions
    pub in_order : map proposal_of admissions.events ≡ objects proposals
    pub permitted : admissions.admitted ≡ map proposal_of (keep permits admissions.events)
