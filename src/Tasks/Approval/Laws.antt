-- ===== src/Tasks/Approval/Laws.antt =====
-- Approvals of high-risk work: what a claim re-verifies, and which approval it reads.
use entigram.Base.{
  ℕ, String, Bool, true, zero, suc, ◌≡◌, ◌≤◌, refl, ◌==◌, none, some, List, [], ◌∷◌, ◌++◌, arith,
  length, take, keep, last_where, Option-cases, Bool-cases, inl, inr,
}
use entigram.Tasks.Types.{Task, TaskEvent}
use entigram.Tasks.Rows.{is_high}
use entigram.Tasks.Approval.{
  Trust, Claims, Registry, Verification, unverified, unreadable, verified, claims_fault,
  verify_task_approval, get_agent_task_events, assertion_fault, is_approval, task_approval_claims,
  Expected, matches, has_role, recorded_fault,
}

take-append_long : (n : ℕ) (xs ys : List TaskEvent) → n ≤ length xs → take n (xs ++ ys) ≡ take n xs
take-append_long zero xs ys h = refl
take-append_long (suc n) [] ys h = elim h [ ]
take-append_long (suc n) (x ∷ xs) ys h = rw (take-append_long n xs ys (omega arith))

keep-append :
    (p : TaskEvent → Bool) (xs ys : List TaskEvent) → keep p (xs ++ ys) ≡ keep p xs ++ keep p ys
keep-append p [] ys = refl
keep-append p (x ∷ xs) ys = elim (Bool-cases (p x)) [
  | inl e ↦ rw (e, keep-append p xs ys)
  | inr e ↦ rw (e, keep-append p xs ys)
]

-- Once a hundred events of a task are recorded, no later event counts: whatever is recorded after
-- them, a new approval included, the verification has the outcome that it had before.
pub verify-ignores_late :
    (trust : Trust) (task : Task) (events later : List TaskEvent)
    → 100 ≤ length (keep (λ e. e.task_id == task.task_id) events)
    → verify_task_approval trust task (events ++ later) ≡ verify_task_approval trust task events
unfolding verify_task_approval get_agent_task_events
verify-ignores_late trust task events later h =
    rw (keep-append, take-append_long 100 (keep (λ e. e.task_id == task.task_id) events) _ h) refl

-- What makes an approval good: the registry verifies the assertion, its signer has the role of a
-- task approver, and the claims name this task, the digest of its request and of this note.
pub record IsEndorsed (trust : Trust) (task : Task) (summary assertion : String) : Type 0 where
  pub registry : Registry
  pub configured : trust.registry ≡ some registry
  pub claims : Claims
  pub verified : registry.verify assertion ≡ Verification.verified claims
  pub authorized : has_role trust registry claims.signer_id ≡ some true
  pub expected : Expected
  pub projected : task_approval_claims trust task summary claims.approval_id ≡ some expected
  pub bound : matches trust claims expected ≡ true

claims_fault-IsEndorsed :
    (trust : Trust) (registry : Registry) (task : Task) (summary assertion : String)
    (claims : Claims)
    → trust.registry ≡ some registry
    → registry.verify assertion ≡ Verification.verified claims
    → claims_fault trust registry task summary claims ≡ none
    → IsEndorsed trust task summary assertion
unfolding claims_fault
claims_fault-IsEndorsed trust registry task summary assertion claims c v h =
    elim (Option-cases (has_role trust registry claims.signer_id)) [
      | inl r ↦ absurd (ground arith)
      | inr (qualified, r) ↦
          elim (Option-cases (task_approval_claims trust task summary claims.approval_id)) [
            | inl p ↦ absurd (ground arith)
            | inr (expected, p) ↦ record {
              registry = registry;
              configured = c;
              claims = claims;
              verified = v;
              authorized = ground arith;
              expected = expected;
              projected = p;
              bound = ground arith;
            }
          ]
    ]

registry_fault-IsEndorsed :
    (trust : Trust) (registry : Registry) (task : Task) (summary assertion : String)
    (answer : Verification)
    → trust.registry ≡ some registry
    → registry.verify assertion ≡ answer
    → assertion_fault trust (some registry) task summary assertion ≡ none
    → IsEndorsed trust task summary assertion
unfolding assertion_fault
registry_fault-IsEndorsed trust registry task summary assertion unverified c v h =
    absurd (ground arith)
registry_fault-IsEndorsed trust registry task summary assertion unreadable c v h =
    absurd (ground arith)
registry_fault-IsEndorsed trust registry task summary assertion (verified claims) c v h =
    claims_fault-IsEndorsed trust registry task summary assertion claims c v (ground arith)

-- an assertion without a fault is an endorsement
pub assertion_fault-IsEndorsed :
    (trust : Trust) (task : Task) (summary assertion : String)
    → assertion_fault trust trust.registry task summary assertion ≡ none
    → IsEndorsed trust task summary assertion
unfolding assertion_fault
assertion_fault-IsEndorsed trust task summary assertion h = elim (Option-cases trust.registry) [
  | inl e ↦ absurd (ground arith)
  | inr (registry, e) ↦
      registry_fault-IsEndorsed trust registry task summary assertion _ e refl (rw e at h)
]

-- an approval of the task, on record, that is good under the registry
pub record IsOnRecord (trust : Trust) (task : Task) (events : List TaskEvent) : Type 0 where
  pub entry : TaskEvent
  pub latest : last_where is_approval (get_agent_task_events task.task_id events) ≡ some entry
  pub assertion : String
  pub kept : entry.assertion ≡ some assertion
  pub endorsed : IsEndorsed trust task entry.summary assertion

-- The re-verification of high-risk work passes only on a good approval that is on record.
pub verify-IsOnRecord :
    (trust : Trust) (task : Task) (events : List TaskEvent)
    → is_high task.risk_level ≡ true
    → verify_task_approval trust task events ≡ none
    → IsOnRecord trust task events
unfolding verify_task_approval recorded_fault
verify-IsOnRecord trust task events high h =
    elim (Option-cases (last_where is_approval (get_agent_task_events task.task_id events))) [
      | inl e ↦ absurd (ground arith)
      | inr (entry, e) ↦ elim (Option-cases entry.assertion) [
        | inl a ↦ absurd (ground arith)
        | inr (assertion, a) ↦ record {
          entry = entry;
          latest = e;
          assertion = assertion;
          kept = a;
          endorsed = assertion_fault-IsEndorsed trust task entry.summary assertion (ground arith);
        }
      ]
    ]
