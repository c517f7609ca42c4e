-- ===== src/Tests/Leases.antt =====
-- The theorems on leases, recovery and the queue at concrete ledgers.
use entigram.Base.{true, ◌≡◌, refl, none, some, List, [], ◌∷◌, arith, eq_iff, All, is_blank, ◌↔◌}
use entigram.Tasks.Types.{Approval, Risk, Ledger, Reason, refused, done, created}
use entigram.Tasks.Rows.{find_task, get_agent_task, transact, count_where, update_where}
use entigram.Tasks.Rows.Laws.{Unique}
use entigram.Tasks.Gate.{evaluate_agent_assignment, normalize_risk_level}
use entigram.Tasks.Gate.Laws.{IsQualified, evaluate-ok_iff}
use entigram.Tasks.Queue.{request_agent_task, insert_request, fields_missing, blank, find_key}
use entigram.Tasks.Lease.{
  claim_agent_task, claim_commit, heartbeat_agent_task, complete_agent_task, fail_agent_task,
}
use entigram.Tasks.Handoff.{handoff_agent_task, handoff_commit, recover_expired_agent_tasks}
use entigram.Tasks.Op.{Op, step, run}
use entigram.Tasks.Machine.{Steps}
use entigram.Tasks.Machine.Refines.{step-Steps}
use entigram.Tasks.Machine.Safety.{AllSafe, run-AllSafe}
use entigram.Tasks.Machine.Frozen.{Found, run-Later}
use entigram.Tasks.Ownership.{Unchanged, claim-leased, lease_exclusive}
use entigram.Tasks.Grants.{handoff-reserves}
use entigram.Tasks.Recovery.{IsFresh, recover-IsFresh}
use entigram.Tests.Ledgers.{ledger_of, leased_task, queued_task, builder, new_request, trust}

abbrev leased : Ledger
leased = ledger_of leased_task

abbrev calls : List Op
calls =
    Op.heartbeat "task-1" "builder" 60 "" (some "desk") 1100000000
    ∷ Op.complete "task-1" "builder" "Parser patched" none (some "desk")
    ∷ []

leased-Unique : Unique leased.tasks
unfolding find_task
leased-Unique = (refl, tt)

leased-found : find_task "task-1" leased.tasks ≡ some leased_task
unfolding find_task
leased-found = refl

leased-AllSafe : AllSafe leased
leased-AllSafe = (ground arith, tt)

step-Steps_example :
    Steps leased.tasks
      (step (Op.heartbeat "task-1" "builder" 60 "" (some "desk") 1100000000) leased).1.tasks
step-Steps_example =
    step-Steps (Op.heartbeat "task-1" "builder" 60 "" (some "desk") 1100000000) leased

claim-leased_example :
    Unchanged leased (claim_agent_task trust "task-1" "reviewer" 60 none 1100000000 leased)
    × (claim_commit "task-1" "reviewer" 60 none 1100000000 leased
        ≡ (refused Reason.task_not_claimable, leased))
claim-leased_example =
    claim-leased leased "task-1" leased-Unique leased-found refl trust "reviewer" 60 none 1100000000

lease_exclusive_example :
    Unchanged leased (heartbeat_agent_task "task-1" "reviewer" 60 "Done" none 1100000000 leased)
    × Unchanged leased (complete_agent_task "task-1" "reviewer" "Done" none none leased)
    × Unchanged leased (fail_agent_task "task-1" "reviewer" "Done" true none leased)
    × Unchanged leased (
        handoff_agent_task trust "task-1" "reviewer" "desk" "builder" "bench" "Done" 1100000000
          leased)
lease_exclusive_example =
    lease_exclusive leased "task-1" leased-Unique leased-found refl "reviewer"
      (ground (arith, eq_iff "builder" "reviewer")) trust 60 1100000000 none none "Done" "desk"
      "builder" "bench" true

run-AllSafe_example : AllSafe (run calls leased)
run-AllSafe_example = run-AllSafe calls leased leased-AllSafe

run-Later_example : Found "task-1" leased_task (run calls leased).tasks
run-Later_example = run-Later calls leased "task-1" leased_task leased-found

recover-IsFresh_example :
    All (IsFresh 2000000000 leased) (recover_expired_agent_tasks 2000000000 leased).1.tasks
recover-IsFresh_example = recover-IsFresh 2000000000 leased

handoff-done :
    (handoff_commit "task-1" "builder" "desk" "builder" "bench" "Over to you" leased).0
    ≡ done (
        get_agent_task "task-1"
          (handoff_commit "task-1" "builder" "desk" "builder" "bench" "Over to you" leased).1)
unfolding handoff_commit transact count_where update_where
handoff-done = refl

handoff-reserves_example :
    let l = (handoff_commit "task-1" "builder" "desk" "builder" "bench" "Over to you" leased).1 in
    claim_commit "task-1" "builder" 60 (some "desk") 1100000000 l
    ≡ (refused Reason.task_not_claimable, l)
handoff-reserves_example =
    handoff-reserves "task-1" "builder" "desk" "builder" "bench" "Over to you" leased "builder"
      (some "desk") 60 1100000000 leased-Unique handoff-done refl

request-created :
    (request_agent_task new_request leased).0
    ≡ created true (get_agent_task "task-2" (request_agent_task new_request leased).1)
unfolding request_agent_task insert_request fields_missing blank find_key find_task is_blank
    normalize_risk_level
request-created = refl

evaluate-ok_iff_example :
    let t = queued_task Risk.low_risk Approval.not_required in
    ((evaluate_agent_assignment builder t).ok ≡ true) ↔ IsQualified builder t
evaluate-ok_iff_example = evaluate-ok_iff builder (queued_task Risk.low_risk Approval.not_required)
