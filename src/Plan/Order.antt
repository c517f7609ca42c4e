-- ===== src/Plan/Order.antt =====
-- What a session releases is its plan, in order: nothing is skipped, changed or released twice.
use entigram.Base.{
  String, Bool, true, false, ◌≡◌, refl, ◌⊎◌, inl, inr, Option, none, some, List, [], ◌∷◌, arith,
  Bool-cases, List-cases, ◌&&◌, ◌||◌, if-elim, option-elim,
}
use entigram.Base.Json.{Entries, entries_eq}
use entigram.Plan.{
  WorkflowPlan, Receipt, Outcome, PlanCall, ask, dispatch, cancel, released, new_plan,
  next_proposal, mark_dispatched, offer, receive, noted, find_receipt, invalidate, request_changed,
  is_completed, is_closed, fulfils,
}

-- the first list stands, entry by entry, at the start of the second
unfoldable pub follows : List Entries → List Entries → Bool
follows [] ps = true
follows (d ∷ ds) [] = false
follows (d ∷ ds) (p ∷ ps) = entries_eq d p && follows ds ps

-- what the plan has not released: the first of what remains is, while its receipt is awaited
abbrev undispatched : WorkflowPlan → List Entries
undispatched p = elim p.awaiting [
  | none ↦ p.remaining
  | some id ↦ elim p.remaining [ [] ↦ [] | _ ∷ rest ↦ rest ]
]

-- a plan that has released no less than another, or nothing left to release
abbrev Onward : List Entries → WorkflowPlan → Type 0
Onward ps q = (undispatched q ≡ ps) ⊎ (undispatched q ≡ [])

invalidate-Onward :
    (reason : String) (ps : List Entries) (p : WorkflowPlan) → Onward ps (invalidate reason p)
invalidate-Onward reason ps p = inr (ground arith)

offer-Onward :
    (changed : Bool) (p : WorkflowPlan)
    → p.awaiting ≡ none
    → Onward (undispatched p) (offer changed p).1
unfolding offer
offer-Onward changed p h = elim (Bool-cases (changed || p.cancel_after_receipt)) [
  | inl e ↦ rw e (invalidate-Onward "request_changed" (undispatched p) p)
  | inr e ↦ elim (List-cases p.remaining) [
    | inl n ↦ inl (ground arith)
    | inr (x, xs, n) ↦ inl (ground arith)
  ]
]

receive-Onward :
    (changed : Bool) (o : Option Receipt) (p : WorkflowPlan) (id : String)
    → p.awaiting ≡ some id
    → Onward (undispatched p) (receive changed o p).1
unfolding receive
receive-Onward changed none p id h = inl refl
receive-Onward changed (some r) p id h = elim (List-cases p.remaining) [
  | inl n ↦ rw n (inl refl)
  | inr (x, xs, n) ↦ elim (Bool-cases (fulfils r x)) [
    | inl e ↦
        rw (n, e, h) (offer-Onward changed (record p { awaiting = none; remaining = xs }) refl)
    | inr e ↦ rw (n, e) (inr refl)
  ]
]

next-Onward :
    (digest : List Entries → String) (messages : List Entries) (receipts : List Receipt)
    (p : WorkflowPlan)
    → Onward (undispatched p) (next_proposal digest messages receipts p).1
unfolding next_proposal
next-Onward digest messages receipts p =
    let changed = request_changed digest messages p in
    let P : Outcome × WorkflowPlan → Type 0 = λ r. Onward (undispatched p) r.1 in
    if-elim P (is_completed p.status && changed) (λ _. invalidate-Onward "request_changed" _ p)
      λ _.
        if-elim P (is_closed p.status) (λ _. inl refl)
          λ _.
            option-elim P p.awaiting (λ e. offer-Onward changed p e)
              λ id e. receive-Onward changed (find_receipt id receipts) (noted changed p) id e

-- A dispatch that is taken releases the first proposal that was not released.
mark-next :
    (d : Entries) (p q : WorkflowPlan)
    → mark_dispatched d p ≡ some q
    → (x : Entries) × (undispatched p ≡ x ∷ undispatched q) × (entries_eq d x ≡ true)
unfolding mark_dispatched
mark-next d p q h = elim (List-cases p.remaining) [
  | inl n ↦ absurd (ground arith)
  | inr (x, xs, n) ↦ (x, ground arith, ground arith)
]

follows-nil :
    (ds : List Entries) → follows ds [] ≡ true → (ps : List Entries) → follows ds ps ≡ true
unfolding follows
follows-nil [] h ps = refl
follows-nil (d ∷ ds) h ps = absurd (ground arith)

Onward-follows :
    (ds : List Entries) (p q : WorkflowPlan)
    → Onward (undispatched p) q
    → follows ds (undispatched q) ≡ true
    → follows ds (undispatched p) ≡ true
Onward-follows ds p q (inl e) h = rw⁻¹ e h
Onward-follows ds p q (inr e) h = follows-nil ds (rw e at h) (undispatched p)

released-follows :
    (digest : List Entries → String) (calls : List PlanCall) (p : WorkflowPlan)
    → follows (released digest calls p) (undispatched p) ≡ true
unfolding released follows
released-follows digest [] p = refl
released-follows digest (ask messages receipts ∷ calls) p =
    Onward-follows (released digest calls (next_proposal digest messages receipts p).1) p
      (next_proposal digest messages receipts p).1 (next-Onward digest messages receipts p)
      (released-follows digest calls (next_proposal digest messages receipts p).1)
released-follows digest (cancel reason ∷ calls) p =
    Onward-follows (released digest calls (invalidate reason p)) p (invalidate reason p)
      (invalidate-Onward reason (undispatched p) p)
      (released-follows digest calls (invalidate reason p))
released-follows digest (dispatch d ∷ calls) p =
    option-elim (λ ds. follows ds (undispatched p) ≡ true) (mark_dispatched d p)
      (λ _. released-follows digest calls p)
      λ q e. let (x, u, m) = mark-next d p q e in rw u (rw m (released-follows digest calls q))

-- Whatever a session does, the actions that it releases are the first actions of its plan, in the
-- plan's order and unchanged: none is skipped, altered, or released a second time.
pub plan-follows :
    (digest : List Entries → String) (proposals messages : List Entries) (calls : List PlanCall)
    (plan : WorkflowPlan)
    → new_plan digest proposals messages ≡ some plan
    → follows (released digest calls plan) proposals ≡ true
unfolding new_plan
plan-follows digest proposals messages calls plan h =
    let u : undispatched plan ≡ proposals = ground arith in
    rw⁻¹ u (released-follows digest calls plan)
