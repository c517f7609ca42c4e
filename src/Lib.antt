-- ===== src/Lib.antt =====
-- A model of the decision-making core of Entigram, with its correctness theorems.
--
-- Entigram lets agents work on a shared repository under governance. The parts that decide are
-- modelled here:
--   * the task ledger (entigram/sqlite_ledger/manager.py): people and agents request tasks, agents
--     lease them, hand them over and finish them, people approve, review and dismiss them;
--   * the admission of consequential actions (entigram/governance/action_admission.py): a request is
--     held against a contract, its grant, its evidence and its approvals;
--   * the project's trust registry (entigram/governance/trust.py): signers and agents with their
--     keys, changed only by approved changes that a signed history records;
--   * the mediator of a session (entigram/governance/hydrated_mediator.py), which reads receipts from
--     messages and admits proposed tool calls, with the citations that they may make
--     (entigram/governance/action_admission.py);
--   * the workflow plan of a session (entigram/governance/workflow_plan.py), which offers proposed
--     actions one at a time;
--   * the record of admission decisions (entigram/sqlite_ledger/manager.py), which lets an agent's
--     attestation admit one action only and keeps revocations for good;
--   * the checklist of modeled expectations (entigram/governance/commissioner.py);
--   * the trust in ontology alignments (entigram/governance/grounding.py);
--   * task envelopes (entigram/governance/task_envelope.py), which an agent proposes and a person
--     accepts.
-- The ledger and the admission engine verify signed assertions by the same trust registry. Each takes
-- it as an interface of a few calls; Trust/Registry/Admission fills the one of the engine. An admission
-- also reads the revocations that the ledger keeps.
--
-- Base: the names that the modules share. Base/Json has JSON values with Python's `==`, without
--   floats; Base/Text has `strip`, `lower` and `isspace`; Base/Lists and Base/Tests have lists and
--   Boolean tests over the native numbers.
-- Tasks: the class LedgerManager, as far as tasks, sessions and agents go. Tasks/Types has the rows,
--   Tasks/Rows the SQL statements, Tasks/Gate `evaluate_agent_assignment`, Tasks/Approval
--   `task_approval_claims` and `verify_task_approval`, Tasks/Queue `register_agent_session`,
--   `request_agent_task`, `enqueue_agent_task` and `assign_agent_task`, Tasks/Lease the claim, the
--   heartbeat and the end of a lease, Tasks/Handoff `handoff_agent_task` and
--   `recover_expired_agent_tasks`, Tasks/Review the calls of a person. A call is a function from its
--   arguments and the ledger to a reply and the ledger. Tasks/Op has the calls as data and histories
--   of them. Tasks/Machine is the abstract life of a task, of which every call is a step, with what
--   follows for every history; Tasks/Ownership, Tasks/Grants and Tasks/Recovery have the theorems on
--   single calls.
-- Admission: the class ActionAdmissionEngine. Admission.antt has the contract, the request and the
--   collaborators, Admission/Contracts the checks of `_validate_contract` on what actions.yaml holds,
--   Admission/Contracts/Loading `load_contracts` and `get_contract`, Admission/Contracts/Admitted the
--   engine on that file,
--   Admission/Authority `_validate_authority` and `_validate_agent_identity`,
--   Admission/Facts `_validate_preconditions` and `_validate_evidence`, Admission/Approvals
--   `_validate_approvals`, Admission/Engine `validate` and `decision_event`.
-- Trust: the class ProjectTrustRegistry. Trust.antt has the document, the changes and what is taken
--   from cryptography; Trust/Assertions `verify` and `_verify_personal_assertion`, Trust/Attestations
--   `verify_agent_attestation`, Trust/Approvals `_validate_change`, `_validate_approvals` and
--   `_require_quorum`, Trust/Edits and Trust/Changes `_apply_state_change`, Trust/State
--   `_validate_state`, Trust/History `_validate_root`, `_verify_anchor`, `_verify_history`, `load`
--   and `apply_change`, Trust/Registry the other public methods and the identities that sign.
-- Citations: `_parse_section_number` and what it calls; Citations/Scan `_policy_section_numbers` and
--   `is_permitted_policy_reference`, with an index out of range as a result.
-- Mediator: the classes SessionState and HydratedPolicyMediator. Mediator.antt has
--   `record_tool_result` and `update_state`, Mediator/Effects `_effect_identity` and
--   `_completed_effect`, Mediator/Proposals `evaluate_tool_readiness`, `_proposal_denial_errors` and
--   `admit_proposals`, Mediator/Lifecycle inspection and finalization. Where the comparison of a proposal
--   with a recorded receipt raises, `admit_proposals` has no answer.
-- Decisions: `record_action_decision`, `revoke_action_grant` and the two checkers of LedgerManager
--   that an engine is built with (entigram/broker.py), over the tables that they write;
--   Decisions/Guards has the engine and the record together.
-- Commissioner: `to_checklist_item` and `build_checklist`, without the evidence that a valid
--   checklist leaves on record.
-- Grounding: every function of grounding.py.
-- The module Plan has the class WorkflowPlan, with the session that uses it as a list of calls.
-- Envelope: the functions of task_envelope.py over the directory of files.
-- Tests: concrete ledgers, requests and sessions, and the theorems there.
--
-- Conventions. A time is a number of microseconds, and a call reads the clock once; the code reads it
-- again at some places of one call. A score is a number of hundredths. An empty task id selects the
-- newest task, as in the code. The update of a claim or of a handoff is a function of its own, since
-- other connections may write between the reads and it; each update is one transaction of SQLite.
-- The printing of a score runs on fuel, which is the number itself plus one, more than its digits, and
-- the loops of the citation scanner on the length of the text, as each round moves on by a character
-- or more; every other function is structural. A document of the trust registry is read once its
-- fields have their types, and a call id, a tool's name and a key id are texts.
--
-- Not modelled: the digests (SHA-256 over canonical JSON) and the parsing of timestamps, which are
-- arguments; event ids and the metadata that the code never reads back; `created_at` and `updated_at`
-- but for the order of rows; `str.lower` outside ASCII, but for the two characters that yield ASCII
-- letters; floats; the remediation texts of a decision; the parser of YAML; Ed25519,
-- base64, JSON Schema, and the regular expressions over the names of tools and arguments, which are
-- arguments; Unicode's classes of characters; the reading of rules from policy prose; the files of
-- keys, documents and locks; the other tables of the ledger; columns of the decision
-- tables that are only stored; servers, the command line, packages and the schema compiler. Histories of
-- calls are of the model: the code has the calls alone.
pub mod Base
pub mod Admission
pub mod Citations
pub mod Commissioner
pub mod Decisions
pub mod Envelope
pub mod Grounding
pub mod Mediator
pub mod Plan
pub mod Tasks
pub mod Trust
pub mod Tests
