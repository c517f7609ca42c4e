-- ===== src/Tasks/Queue/Laws.antt =====
-- Requests are idempotent, and a requester cannot approve its own work.
use entigram.Base.{true, false, ◌≡◌, Option, arith, eq_refl, Option-cases, Bool-cases, inl, inr}
use entigram.Tasks.Types.{Approval, Risk, Task, Ledger, created}
use entigram.Tasks.Gate.{normalize_risk_level}
use entigram.Tasks.Queue.{
  NewRequest, request_agent_task, insert_request, find_key, fields_missing, asks_approved,
}

insert_request-again :
    (r : NewRequest) (risk : Risk) (a : Approval) (l : Ledger) {o : Option Task}
    → (insert_request r risk a l).0 ≡ created true o
    → let l' = (insert_request r risk a l).1 in insert_request r risk a l' ≡ (created false o, l')
unfolding insert_request find_key
insert_request-again r risk a l h = ground (arith, eq_refl r.idempotency_key)

-- the checks before the insertion do not read the ledger
request-form :
    (r : NewRequest) (l : Ledger) {o : Option Task}
    → (request_agent_task r l).0 ≡ created true o
    → (risk : Risk) × (a : Approval) × ((m : Ledger)
        → request_agent_task r m ≡ insert_request r risk a m)
unfolding request_agent_task
request-form r l h = elim (Bool-cases (fields_missing r)) [
  | inl missing ↦ absurd (ground arith)
  | inr given ↦ elim (Option-cases r.approval_status) [
    | inl e ↦ absurd (ground arith)
    | inr (a, ea) ↦ elim (Option-cases (normalize_risk_level r.risk_level)) [
      | inl e ↦ absurd (ground arith)
      | inr (risk, er) ↦ elim (Bool-cases (asks_approved a)) [
        | inl yes' ↦ absurd (ground arith)
        | inr no' ↦ (risk, a, λ m. ground arith)
      ]
    ]
  ]
]

-- A request that created a task can be sent again: the second one creates nothing, changes nothing
-- in the ledger, and answers with the task that the first one created.
pub request-again :
    (r : NewRequest) (l : Ledger) {o : Option Task}
    → (request_agent_task r l).0 ≡ created true o
    → let l' = (request_agent_task r l).1 in request_agent_task r l' ≡ (created false o, l')
request-again r l h =
    let (risk, a, form) = request-form r l h in
    rw (form l, form (insert_request r risk a l).1)
      (insert_request-again r risk a l (rw (← form l) h))
