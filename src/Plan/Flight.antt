-- ===== src/Plan/Flight.antt =====
-- One action in flight at a time, no failure on a plan that `WorkflowPlan` made, and no release after
-- the request has changed.
use entigram.Base.{
  String, Bool, true, false, not, ◌≡◌, ◌≢◌, refl, Option, none, some, is_some, List, [], ◌∷◌, arith,
  List-cases, Bool-cases, inl, inr, ◌&&◌, ◌||◌, if-elim, option-elim,
}
use entigram.Base.Json.{Entries}
use entigram.Plan.{
  WorkflowPlan, Receipt, Outcome, PlanStatus, PlanCall, ask, dispatch, cancel, released, nothing,
  index_error, reached, new_plan, next_proposal, mark_dispatched, offer, receive, noted,
  find_receipt, invalidate, request_changed, is_completed, is_closed, fulfils, is_empty,
}

-- A closed plan that was not completed, or one that only waits for a receipt to be closed.
abbrev pub is_doomed : WorkflowPlan → Bool
is_doomed p = elim p.status [
  | PlanStatus.invalidated ↦ true
  | PlanStatus.awaiting_result ↦ p.cancel_after_receipt && is_some p.awaiting
  | _ ↦ false
]

abbrev is_invalidated : PlanStatus → Bool
is_invalidated PlanStatus.invalidated = true
is_invalidated _ = false

-- while a receipt is awaited on an open plan, something remains
abbrev pub is_sound : WorkflowPlan → Bool
is_sound p = not (is_some p.awaiting) || (not (is_empty p.remaining) || is_invalidated p.status)

offer-doomed :
    (p : WorkflowPlan) → ((offer true p).0 ≡ nothing) × (is_doomed (offer true p).1 ≡ true)
unfolding offer
offer-doomed p = (refl, refl)

receive-doomed :
    (changed : Bool) (o : Option Receipt) (p : WorkflowPlan)
    → p.cancel_after_receipt ≡ true
    → is_some p.awaiting ≡ true
    → is_empty p.remaining ≡ false
    → ((receive changed o p).0 ≡ nothing) × (is_doomed (receive changed o p).1 ≡ true)
unfolding receive offer
receive-doomed changed none p c w n = (refl, ground arith)
receive-doomed changed (some r) p c w n = elim (List-cases p.remaining) [
  | inl e ↦ absurd (ground arith)
  | inr (x, xs, e) ↦ elim (Bool-cases (fulfils r x)) [
    | inl f ↦ rw (e, f) (ground arith)
    | inr f ↦ rw (e, f) (refl, refl)
  ]
]

offer_sound :
    (changed : Bool) (p : WorkflowPlan)
    → p.awaiting ≡ none
    → (is_sound (offer changed p).1 ≡ true) × ((offer changed p).0 ≢ index_error)
unfolding offer
offer_sound changed p h = ground arith

receive_sound :
    (changed : Bool) (o : Option Receipt) (p : WorkflowPlan)
    → is_empty p.remaining ≡ false
    → (is_sound (receive changed o p).1 ≡ true) × ((receive changed o p).0 ≢ index_error)
unfolding receive
receive_sound changed none p n = ground arith
receive_sound changed (some r) p n = elim (List-cases p.remaining) [
  | inl e ↦ absurd (ground arith)
  | inr (x, xs, e) ↦ elim (Bool-cases (fulfils r x)) [
    | inl f ↦ rw (e, f) (offer_sound changed (record p { awaiting = none; remaining = xs }) refl)
    | inr f ↦ rw (e, f) (ground arith)
  ]
]

mark_sound : (d : Entries) (p q : WorkflowPlan) → mark_dispatched d p ≡ some q → is_sound q ≡ true
unfolding mark_dispatched
mark_sound d p q h = ground arith

mark-doomed : (d : Entries) (p : WorkflowPlan) → is_doomed p ≡ true → mark_dispatched d p ≡ none
unfolding mark_dispatched
mark-doomed d p h = ground arith

module _ (digest : List Entries → String) where
  module _ (messages : List Entries) (receipts : List Receipt) (p : WorkflowPlan)
      (sound : is_sound p ≡ true) where
    next_sound :
        (is_sound (next_proposal digest messages receipts p).1 ≡ true)
        × ((next_proposal digest messages receipts p).0 ≢ index_error)
    unfolding next_proposal
    next_sound =
        let changed = request_changed digest messages p in
        let P : Outcome × WorkflowPlan → Type 0 =
          λ r. (is_sound r.1 ≡ true) × (r.0 ≢ index_error) in
        if-elim P (is_completed p.status && changed) (λ _. ground arith)
          λ _.
            if-elim P (is_closed p.status) (λ _. ground arith)
              λ c.
                option-elim P p.awaiting (λ e. offer_sound changed p e)
                  λ id e.
                    receive_sound changed (find_receipt id receipts) (noted changed p)
                      (ground arith)

    next-doomed : is_doomed p ≡ true → is_doomed (next_proposal digest messages receipts p).1 ≡ true
    unfolding next_proposal
    next-doomed h =
        let changed = request_changed digest messages p in
        let P : Outcome × WorkflowPlan → Type 0 = λ r. is_doomed r.1 ≡ true in
        if-elim P (is_completed p.status && changed) (λ _. refl)
          λ _.
            if-elim P (is_closed p.status) (λ _. h)
              λ c.
                option-elim P p.awaiting (λ e. absurd (ground arith))
                  λ id e.
                    (receive-doomed changed (find_receipt id receipts) (noted changed p)
                      (ground arith) (ground arith) (ground arith)).1

    next-changed :
        request_changed digest messages p ≡ true
        → ((next_proposal digest messages receipts p).0 ≡ nothing)
          × (is_doomed (next_proposal digest messages receipts p).1 ≡ true)
    unfolding next_proposal
    next-changed h =
        let P : Outcome × WorkflowPlan → Type 0 = λ r. (r.0 ≡ nothing) × (is_doomed r.1 ≡ true) in
        if-elim P (is_completed p.status && request_changed digest messages p) (λ _. (refl, refl))
          λ n.
            if-elim P (is_closed p.status) (λ c. (refl, ground arith))
              λ c.
                option-elim P p.awaiting (λ e. rw h (offer-doomed p))
                  λ id e.
                    receive-doomed (request_changed digest messages p) (find_receipt id receipts)
                      (noted (request_changed digest messages p) p) (ground arith) (ground arith)
                      (ground arith)

  reached_sound :
      (calls : List PlanCall) (p : WorkflowPlan)
      → is_sound p ≡ true
      → is_sound (reached digest calls p) ≡ true
  unfolding reached
  reached_sound [] p h = h
  reached_sound (ask messages receipts ∷ calls) p h =
      reached_sound calls (next_proposal digest messages receipts p).1
        (next_sound messages receipts p h).0
  reached_sound (cancel reason ∷ calls) p h =
      reached_sound calls (invalidate reason p) (ground arith)
  reached_sound (dispatch d ∷ calls) p h =
      option-elim (λ q. is_sound q ≡ true) (mark_dispatched d p) (λ _. reached_sound calls p h)
        λ q e. reached_sound calls q (mark_sound d p q e)

  released-doomed :
      (calls : List PlanCall) (p : WorkflowPlan)
      → is_sound p ≡ true
      → is_doomed p ≡ true
      → released digest calls p ≡ []
  unfolding released
  released-doomed [] p s h = refl
  released-doomed (ask messages receipts ∷ calls) p s h =
      released-doomed calls (next_proposal digest messages receipts p).1
        (next_sound messages receipts p s).0 (next-doomed messages receipts p s h)
  released-doomed (cancel reason ∷ calls) p s h =
      released-doomed calls (invalidate reason p) (ground arith) refl
  released-doomed (dispatch d ∷ calls) p s h =
      option-elim (λ ds. ds ≡ []) (mark_dispatched d p) (λ _. released-doomed calls p s h)
        λ q e. absurd (ground (arith, mark-doomed d p h))

  new_sound :
      (proposals messages : List Entries) (p : WorkflowPlan)
      → new_plan digest proposals messages ≡ some p
      → is_sound p ≡ true
  unfolding new_plan
  new_sound proposals messages p h = ground arith

  module _ (proposals first : List Entries) (calls : List PlanCall) (plan : WorkflowPlan)
      (made : new_plan digest proposals first ≡ some plan) where
    -- `next_proposal` never fails on a plan that was made and used in any way: where it reads the first
    -- of the remaining actions, there is one.
    pub next-never_fails :
        (messages : List Entries) (receipts : List Receipt)
        → (next_proposal digest messages receipts (reached digest calls plan)).0 ≢ index_error
    next-never_fails messages receipts =
        (next_sound messages receipts (reached digest calls plan)
          (reached_sound calls plan (new_sound proposals first plan made))).1

    -- Once a session has asked with instructions other than the plan's, it is offered nothing, and
    -- whatever it does afterwards, it releases no action any more.
    pub next-stops :
        (messages : List Entries) (receipts : List Receipt) (later : List PlanCall)
        → request_changed digest messages (reached digest calls plan) ≡ true
        → let r = next_proposal digest messages receipts (reached digest calls plan) in
          (r.0 ≡ nothing) × (released digest later r.1 ≡ [])
    next-stops messages receipts later h =
        let p = reached digest calls plan in
        let s = reached_sound calls plan (new_sound proposals first plan made) in
        let c = next-changed messages receipts p s h in
        (
          c.0,
          released-doomed later (next_proposal digest messages receipts p).1
              (next_sound messages receipts p s).0 c.1,
        )

-- One action is in flight at a time: after a dispatch no other is taken, and while the receipts lack
-- one for its id, the plan offers nothing and takes nothing.
pub mark-one_in_flight :
    (digest : List Entries → String) (d other : Entries) (p q : WorkflowPlan) (id : String)
    (messages : List Entries) (receipts : List Receipt)
    → mark_dispatched d p ≡ some q
    → q.awaiting ≡ some id
    → find_receipt id receipts ≡ none
    → let r = next_proposal digest messages receipts q in
      (mark_dispatched other q ≡ none) × (r.0 ≡ nothing) × (mark_dispatched other r.1 ≡ none)
unfolding mark_dispatched next_proposal receive
mark-one_in_flight digest d other p q id messages receipts h a n =
    let w : q.status ≡ PlanStatus.awaiting_result = ground arith in
    let changed = request_changed digest messages q in
    let P : Outcome × WorkflowPlan → Type 0 =
      λ r. (r.0 ≡ nothing) × (mark_dispatched other r.1 ≡ none) in
    let waits : P (next_proposal digest messages receipts q) =
      if-elim P (is_completed q.status && changed) (λ x. absurd (ground arith))
        λ _.
          if-elim P (is_closed q.status) (λ x. absurd (ground arith))
            λ _.
              option-elim P q.awaiting (λ x. absurd (ground arith))
                λ i e.
                  let m : find_receipt i receipts ≡ none = ground arith in
                  rw m (refl, ground arith) in
    (ground arith, waits.0, waits.1)
