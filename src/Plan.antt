-- ===== src/Plan.antt =====
-- Ordered proposed work of one session: `WorkflowPlan` (entigram/governance/workflow_plan.py). The
-- digest of the messages (SHA-256 over their JSON) is a parameter.
pub mod Order
pub mod Flight
use entigram.Base.{
  String, Bool, true, false, not, ◌&&◌, ◌||◌, ◌==◌, if◌then◌else◌, Option, none, some, is_some,
  List, [], ◌∷◌, any, all, keep, contains, ℕ, length,
}
use entigram.Base.Json.{
  Json, string, Entries, get, get_text, json_eq, entries_eq, is_text, is_object,
}

pub data PlanStatus : Type 0 where
  ready awaiting_result completed invalidated : PlanStatus

pub record Receipt : Type 0 where
  pub call_id : String
  pub tool_name : String
  pub arguments : Json
  pub status : String

pub record WorkflowPlan : Type 0 where
  pub remaining : List Entries
  pub fingerprint : String
  pub awaiting : Option String
  pub cancel_after_receipt : Bool
  pub status : PlanStatus
  pub reason : Option String

-- `none` is an absent value or one that fails its test
abbrev passes : (Json → Bool) → Option Json → Bool
passes test none = false
passes test (some v) = test v

abbrev nonempty_text : Option String → Bool
nonempty_text none = false
nonempty_text (some s) = not (s == "")

abbrev has_id : Option String → Entries → Bool
has_id none p = false
has_id (some id) p = elim (get_text "id" p) [ none ↦ false | some other ↦ id == other ]

unfoldable pub unique_ids : List Entries → Bool
unique_ids [] = true
unique_ids (p ∷ ps) = not (any (has_id (get_text "id" p)) ps) && unique_ids ps

abbrev well_formed : Entries → Bool
well_formed p =
    nonempty_text (get_text "id" p)
    && (passes is_text (get "name" p) && passes is_object (get "arguments" p))

abbrev is_input : Entries → Bool
is_input message = elim (get_text "role" message) [
  | none ↦ false
  | some role ↦ contains ("system" ∷ "developer" ∷ "user" ∷ []) role
]

abbrev pub is_empty : List Entries → Bool
is_empty [] = true
is_empty (p ∷ ps) = false

abbrev pub invalidate : String → WorkflowPlan → WorkflowPlan
invalidate reason p = record p {
  remaining = [];
  status = PlanStatus.invalidated;
  reason = some reason;
}

-- What a call of `next_proposal` returns: a proposal, `None`, or the `IndexError` of `_remaining[0]`.
pub data Outcome : Type 0 where
  offered : Entries → Outcome
  nothing : Outcome
  index_error : Outcome

abbrev same_text : String → Option Json → Bool
same_text s none = false
same_text s (some v) = json_eq (string s) v

abbrev same_value : Json → Option Json → Bool
same_value v none = false
same_value v (some w) = json_eq v w

-- the receipt is a success of the expected call
abbrev pub fulfils : Receipt → Entries → Bool
fulfils r expected =
    same_text r.tool_name (get "name" expected)
    && (same_value r.arguments (get "arguments" expected) && r.status == "success")

unfoldable pub find_receipt : String → List Receipt → Option Receipt
find_receipt id [] = none
find_receipt id (r ∷ rs) = if r.call_id == id then some r else find_receipt id rs

abbrev pub is_completed : PlanStatus → Bool
is_completed PlanStatus.completed = true
is_completed _ = false

abbrev pub is_closed : PlanStatus → Bool
is_closed PlanStatus.completed = true
is_closed PlanStatus.invalidated = true
is_closed _ = false

abbrev pub is_ready : PlanStatus → Bool
is_ready PlanStatus.ready = true
is_ready _ = false

-- the end of `next_proposal`, once no receipt is awaited
unfoldable pub offer : Bool → WorkflowPlan → Outcome × WorkflowPlan
offer changed p =
    if changed || p.cancel_after_receipt
    then (nothing, invalidate "request_changed" p)
    else elim p.remaining [
      | [] ↦ (nothing, record p { status = PlanStatus.completed })
      | first ∷ _ ↦ (offered first, record p { status = PlanStatus.ready })
    ]

-- its middle, on a plan that awaits a receipt and has the cancellation noted
unfoldable pub receive : Bool → Option Receipt → WorkflowPlan → Outcome × WorkflowPlan
unfolding offer
receive changed none p = (nothing, record p { status = PlanStatus.awaiting_result })
receive changed (some r) p = elim p.remaining [
  | [] ↦ (index_error, p)
  | expected ∷ rest ↦
      if fulfils r expected
      then offer changed (record p { awaiting = none; remaining = rest })
      else (nothing, invalidate "unsuccessful_or_mismatched_result" (record p { awaiting = none }))
]

abbrev pub noted : Bool → WorkflowPlan → WorkflowPlan
noted changed p = record p { cancel_after_receipt = p.cancel_after_receipt || changed }

module _ (digest : List Entries → String) where
  unfoldable pub request_fingerprint : List Entries → String
  request_fingerprint messages = digest (keep is_input messages)

  -- `none` is the `ValueError`
  unfoldable pub new_plan : List Entries → List Entries → Option WorkflowPlan
  unfolding request_fingerprint unique_ids
  new_plan proposals messages =
      if is_empty proposals || not (all well_formed proposals && unique_ids proposals)
      then none
      else some (record {
        remaining = proposals;
        fingerprint = request_fingerprint messages;
        awaiting = none;
        cancel_after_receipt = false;
        status = PlanStatus.ready;
        reason = none;
      })

  abbrev pub request_changed : List Entries → WorkflowPlan → Bool
  request_changed messages p = not (request_fingerprint messages == p.fingerprint)

  unfoldable pub next_proposal : List Entries → List Receipt → WorkflowPlan → Outcome × WorkflowPlan
  unfolding receive find_receipt
  next_proposal messages receipts p =
      let changed = request_changed messages p in
      if is_completed p.status && changed
      then (nothing, invalidate "request_changed" p)
      else if is_closed p.status
      then (nothing, p)
      else elim p.awaiting [
        | none ↦ offer changed p
        | some id ↦ receive changed (find_receipt id receipts) (noted changed p)
      ]

-- `none` is the `ValueError`. A proposal that equals the plan's first has a text `id`, since that has.
unfoldable pub mark_dispatched : Entries → WorkflowPlan → Option WorkflowPlan
mark_dispatched admitted p =
    if not (is_ready p.status) || is_some p.awaiting then none else elim p.remaining [
      | [] ↦ none
      | first ∷ _ ↦
          if not (entries_eq admitted first) then none else elim (get_text "id" admitted) [
            | none ↦ none
            | some id ↦ some (record p { awaiting = some id; status = PlanStatus.awaiting_result })
          ]
    ]

unfoldable pub telemetry : WorkflowPlan → PlanStatus × ℕ × Option String
telemetry p = (p.status, length p.remaining, p.reason)

-- what a session does with its plan
pub data PlanCall : Type 0 where
  ask : List Entries → List Receipt → PlanCall
  dispatch : Entries → PlanCall
  cancel : String → PlanCall

-- The proposals that a session releases, in order: those that `mark_dispatched` takes.
unfoldable pub released : (List Entries → String) → List PlanCall → WorkflowPlan → List Entries
unfolding next_proposal mark_dispatched
released digest [] p = []
released digest (ask messages receipts ∷ calls) p =
    released digest calls (next_proposal digest messages receipts p).1
released digest (dispatch admitted ∷ calls) p = elim (mark_dispatched admitted p) [
  | none ↦ released digest calls p
  | some q ↦ admitted ∷ released digest calls q
]
released digest (cancel reason ∷ calls) p = released digest calls (invalidate reason p)

-- the plan after the calls
unfoldable pub reached : (List Entries → String) → List PlanCall → WorkflowPlan → WorkflowPlan
unfolding next_proposal mark_dispatched
reached digest [] p = p
reached digest (ask messages receipts ∷ calls) p =
    reached digest calls (next_proposal digest messages receipts p).1
reached digest (dispatch admitted ∷ calls) p = elim (mark_dispatched admitted p) [
  | none ↦ reached digest calls p
  | some q ↦ reached digest calls q
]
reached digest (cancel reason ∷ calls) p = reached digest calls (invalidate reason p)
