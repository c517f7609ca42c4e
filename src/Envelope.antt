-- ===== src/Envelope.antt =====
-- Task envelopes (entigram/governance/task_envelope.py): the directory of envelope files as a list of
-- names and contents, `create_envelope`, `accept_envelope`, `authorize_execution` and
-- `propose_task_envelope`. Ids (UUIDs), the times and the digest of a proposal are arguments.
pub mod Laws
use entigram.Base.{
  ℕ, String, Bool, true, false, not, ◌&&◌, ◌||◌, ◌==◌, if◌then◌else◌, Option, none, some, List, [],
  ◌∷◌, ◌++◌, all, leb, eqb, codes, strip_text, join, is_blank, holds, same_codes, is_some, take,
  lookup,
}
use entigram.Base.Json.{
  Json, Jsons, nil, cons, string, array, object, Entries, empty, entry, get, get_text, is_text,
}

-- An envelope file: text that is no JSON, or a JSON object.
pub data File : Type 0 where
  malformed : File
  document : Entries → File

-- `d[k] = v`
unfoldable pub put : String → Json → Entries → Entries
put k v empty = entry k v empty
put k v (entry j w d) = if j == k then entry j v d else entry j w (put k v d)

-- `_atomic_write`
unfoldable pub write : String → File → List (String × File) → List (String × File)
write id f [] = (id, f) ∷ []
write id f ((j, g) ∷ fs) = if j == id then (j, f) ∷ fs else (j, g) ∷ write id f fs

-- `[a-zA-Z0-9-]`
abbrev is_id_char : ℕ → Bool
is_id_char c =
    (leb b'a' c && leb c b'z')
    || (leb b'A' c && leb c b'Z')
    || (leb b'0' c && leb c b'9')
    || eqb c b'-'

abbrev is_end : List ℕ → Bool
is_end s = same_codes s (10 ∷ [])

-- `[a-zA-Z0-9-]+$`, where `$` also matches before a last line feed
unfoldable pub is_id_tail : List ℕ → Bool
is_id_tail [] = false
is_id_tail (c ∷ []) = is_id_char c
is_id_tail (c ∷ d ∷ s) = is_id_char c && (is_id_tail (d ∷ s) || is_end (d ∷ s))

unfoldable pub after_prefix : List ℕ → List ℕ → Option (List ℕ)
after_prefix [] s = some s
after_prefix (p ∷ ps) [] = none
after_prefix (p ∷ ps) (c ∷ s) = if eqb p c then after_prefix ps s else none

-- `_validate_envelope_id`
unfoldable pub validate_envelope_id : String → Bool
unfolding is_id_tail after_prefix
validate_envelope_id id = elim (after_prefix (codes "task-envelope-") (codes id)) [
  | none ↦ false
  | some rest ↦ is_id_tail rest
]

unfoldable pub all_texts : Jsons → Bool
all_texts nil = true
all_texts (cons x xs) = is_text x && all_texts xs

-- `_require_string_list`
abbrev pub is_text_list : Json → Bool
is_text_list (array xs) = all_texts xs
is_text_list _ = false

-- What a proposer, or an agent, fills in.
pub record Proposal : Type 0 where
  pub proposed_entities : Json
  pub invariants : Json
  pub affected_paths : Json
  pub validation_commands : Json
  pub uncertainty_unknowns : Json

abbrev pub is_well_formed : Proposal → Bool
is_well_formed p =
    is_text_list p.proposed_entities
    && (is_text_list p.invariants
        && (is_text_list p.affected_paths
            && (is_text_list p.validation_commands && is_text_list p.uncertainty_unknowns)))

unfoldable pub new_envelope : String → String → String → Proposal → String → Option Json → Entries
unfolding strip_text
new_envelope id agent_id intent p created_at provenance = entry "envelope_id" (string id) (
    entry "agent_id" (string agent_id) (
      entry "intent" (string (strip_text intent)) (
        entry "proposed_entities_and_relationships" p.proposed_entities (
          entry "invariants" p.invariants (
            entry "affected_paths" p.affected_paths (
              entry "validation_commands" p.validation_commands (
                entry "uncertainty_unknowns" p.uncertainty_unknowns (
                  entry "status" (string "proposed") (
                    entry "created_at" (string created_at) (elim provenance [
                      | none ↦ empty
                      | some v ↦ entry "provenance" v empty
                    ]))))))))))

pub data Reply : Type 0 where
  invalid_id not_found malformed_file not_proposed not_accepted : Reply
  invalid_envelope no_proposer invalid_proposal : Reply
  enveloped : Entries → Reply

abbrev pub Files : Type 0
Files = List (String × File)

-- The call's reply and the files after it; a reply other than `enveloped` is a `TaskEnvelopeError`.
unfoldable pub create_envelope :
    String → String → String → Proposal → String → Option Json → Files → Reply × Files
unfolding new_envelope write
create_envelope id agent_id intent p created_at provenance files =
    if is_blank (codes intent) || not (is_well_formed p)
    then (invalid_envelope, files)
    else (let e = new_envelope id agent_id intent p created_at provenance in
        (enveloped e, write id (document e) files))

abbrev pub accepted_by : String → String → Entries → Entries
accepted_by approver_id now e =
    put "accepted_at" (string now)
      (put "accepted_by" (string approver_id) (put "status" (string "accepted") e))

unfoldable pub accept_envelope : String → String → String → Files → Reply × Files
unfolding put write validate_envelope_id
accept_envelope id approver_id now files =
    if not (validate_envelope_id id) then (invalid_id, files) else elim (lookup id files) [
      | none ↦ (not_found, files)
      | some malformed ↦ (malformed_file, files)
      | some (document e) ↦
          if not (holds (get_text "status" e) "proposed")
          then (not_proposed, files)
          else (let a = accepted_by approver_id now e in (enveloped a, write id (document a) files))
    ]

-- `enveloped e` is `{"authorized": True, "envelope": e}`.
unfoldable pub authorize_execution : String → Files → Reply
unfolding validate_envelope_id
authorize_execution id files =
    if not (validate_envelope_id id) then invalid_id else elim (lookup id files) [
      | none ↦ not_found
      | some malformed ↦ malformed_file
      | some (document e) ↦
          if holds (get_text "status" e) "accepted" then enveloped e else not_accepted
    ]

abbrev is_list : Json → Bool
is_list (array xs) = true
is_list _ = false

abbrev has_lists : Proposal → Bool
has_lists p =
    is_list p.proposed_entities
    && (is_list p.invariants
        && (is_list p.affected_paths
            && (is_list p.validation_commands && is_list p.uncertainty_unknowns)))

-- What the registered adapter answers to an intent: `none` is a failure, or an answer without one of
-- the five fields.
pub record Proposer : Type 0 where
  pub name : String
  pub propose : String → Option Proposal
  pub provenance : Proposal → Json

abbrev accepted_if : String → String → String → String → Reply × Files → Reply × Files
accepted_if policy id name now (enveloped e, files) =
    if policy == "auto-accept" then accept_envelope id name now files else (enveloped e, files)
accepted_if policy id name now r = r

unfoldable pub propose_task_envelope :
    Option Proposer → String → String → String → String → String → Files → Reply × Files
unfolding create_envelope accept_envelope join
propose_task_envelope none id agent_id intent policy now files = (no_proposer, files)
propose_task_envelope (some a) id agent_id intent policy now files = elim (a.propose intent) [
  | none ↦ (invalid_proposal, files)
  | some p ↦
      if not (has_lists p)
      then (invalid_proposal, files)
      else accepted_if policy id (join "auto-policy:" a.name) now
          (create_envelope id agent_id intent p now (some (a.provenance p)) files)
]

-- the calls that change the files, and a history of them
pub data EnvelopeCall : Type 0 where
  create : String → String → String → Proposal → String → Option Json → EnvelopeCall
  accept : String → String → String → EnvelopeCall

unfoldable pub perform : EnvelopeCall → Files → Files
unfolding create_envelope accept_envelope
perform (create id agent_id intent p created_at provenance) files =
    (create_envelope id agent_id intent p created_at provenance files).1
perform (accept id approver_id now) files = (accept_envelope id approver_id now files).1

unfoldable pub history : List EnvelopeCall → Files → Files
unfolding perform
history [] files = files
history (call ∷ calls) files = history calls (perform call files)

-- some call of the history accepts the envelope
unfoldable pub accepts : String → List EnvelopeCall → Bool
accepts id [] = false
accepts id (create _ _ _ _ _ _ ∷ calls) = accepts id calls
accepts id (accept other _ _ ∷ calls) = other == id || accepts id calls
