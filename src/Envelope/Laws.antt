-- ===== src/Envelope/Laws.antt =====
-- Only an acceptance authorizes: what is proposed is not, what is accepted is, once.
use entigram.Base.{
  String, true, false, not, ◌≡◌, ◌≢◌, refl, ◌∙◌, inl, inr, ◌||◌, ◌==◌, Option, some, List, [], ◌∷◌,
  arith, eq_iff, eq_refl, Bool-cases, Option-cases, lookup, holds, if-elim, codes, is_blank,
}
use entigram.Base.Json.{Json, string, Entries, empty, entry, get, get_text}
use entigram.Envelope.{
  File, malformed, document, put, write, Reply, enveloped, not_proposed, Files,
  validate_envelope_id, new_envelope, Proposal, is_well_formed, create_envelope, accepted_by,
  accept_envelope, authorize_execution, EnvelopeCall, create, accept, perform, history, accepts,
}

get-put_same : (k : String) (v : Json) (d : Entries) → get k (put k v d) ≡ some v
unfolding get put
get-put_same k v empty = rw (eq_refl k) refl
get-put_same k v (entry j w d) = elim (Bool-cases (j == k)) [
  | inl e ↦ ground (arith, eq_iff j k)
  | inr e ↦ ground (arith, get-put_same k v d)
]

get-put_other :
    (k j : String) (v : Json) (d : Entries) → (k == j) ≡ false → get j (put k v d) ≡ get j d
unfolding get put
get-put_other k j v empty h = ground arith
get-put_other k j v (entry i w d) h = ground (arith, get-put_other k j v d h, eq_iff i k)

lookup-write_same : (id : String) (f : File) (files : Files) → lookup id (write id f files) ≡ some f
unfolding write
lookup-write_same id f [] = rw (eq_refl id) refl
lookup-write_same id f ((j, g) ∷ fs) = ground (arith, lookup-write_same id f fs)

lookup-write_other :
    (id other : String) (f : File) (files : Files)
    → (id == other) ≡ false
    → lookup other (write id f files) ≡ lookup other files
unfolding write
lookup-write_other id other f [] h = ground arith
lookup-write_other id other f ((j, g) ∷ fs) h =
    ground (arith, lookup-write_other id other f fs h, eq_iff j id)

accepted_by-status :
    (approver now : String) (e : Entries)
    → get "status" (accepted_by approver now e) ≡ some (string "accepted")
accepted_by-status approver now e =
    get-put_other "accepted_at" "status" (string now)
      (put "accepted_by" (string approver) (put "status" (string "accepted") e)) refl
    ∙ (get-put_other "accepted_by" "status" (string approver) (put "status" (string "accepted") e)
          refl
        ∙ get-put_same "status" (string "accepted") e)

-- what an acceptance that succeeds has written
accept-written :
    (id approver now : String) (files files' : Files) (e : Entries)
    → accept_envelope id approver now files ≡ (enveloped e, files')
    → (validate_envelope_id id ≡ true)
      × (lookup id files' ≡ some (document e))
      × (get "status" e ≡ some (string "accepted"))
unfolding accept_envelope
accept-written id approver now files files' e h = elim (Option-cases (lookup id files)) [
  | inl n ↦ absurd (ground arith)
  | inr (malformed, n) ↦ absurd (ground arith)
  | inr (document d, n) ↦
      let a = accepted_by approver now d in
      let x : e ≡ a = ground arith in
      let y : files' ≡ write id (document a) files = ground arith in
      (
        ground arith,
        rw (y, x) (lookup-write_same id (document a) files),
        rw x (accepted_by-status approver now d),
      )
]

-- An acceptance that succeeds authorizes exactly the envelope that it returns, and no second one does:
-- the envelope is not proposed any more, and the files stay as they are.
pub accept-authorizes :
    (id approver now other later : String) (files files' : Files) (e : Entries)
    → accept_envelope id approver now files ≡ (enveloped e, files')
    → (authorize_execution id files' ≡ enveloped e)
      × (accept_envelope id other later files' ≡ (not_proposed, files'))
unfolding authorize_execution accept_envelope get_text
accept-authorizes id approver now other later files files' e h =
    let (v, f, s) = accept-written id approver now files files' e h in
    let g : get_text "status" e ≡ some "accepted" = rw (s, get_text) refl in
    (rw (v, f, g) refl, rw (v, f, g) refl)

same_authority :
    (id : String) (fs gs : Files)
    → lookup id fs ≡ lookup id gs
    → authorize_execution id fs ≡ authorize_execution id gs
unfolding authorize_execution
same_authority id fs gs h = rw h refl

new_envelope-status :
    (id agent intent at : String) (p : Proposal) (prov : Option Json)
    → get_text "status" (new_envelope id agent intent p at prov) ≡ some "proposed"
unfolding new_envelope get_text get
new_envelope-status id agent intent at p prov = refl

proposed-unauthorized :
    (id : String) (fs : Files) (d e : Entries)
    → lookup id fs ≡ some (document d)
    → get_text "status" d ≡ some "proposed"
    → authorize_execution id fs ≢ enveloped e
unfolding authorize_execution
proposed-unauthorized id fs d e f s = ground arith

create-unauthorized :
    (other id agent intent at : String) (p : Proposal) (prov : Option Json) (files : Files)
    (e : Entries)
    → authorize_execution other (create_envelope id agent intent p at prov files).1 ≡ enveloped e
    → authorize_execution other files ≡ enveloped e
unfolding create_envelope authorize_execution
create-unauthorized other id agent intent at p prov files e h =
    elim (Bool-cases (is_blank (codes intent) || not (is_well_formed p))) [
      | inl b ↦ ground arith
      | inr b ↦
          let d = document (new_envelope id agent intent p at prov) in
          let k : authorize_execution other (write id d files) ≡ enveloped e = rw b at h in
          elim (Bool-cases (id == other)) [
            | inl x ↦
                let same : id ≡ other = (eq_iff id other).0 x in
                let found : lookup other (write id d files) ≡ some d =
                  rw⁻¹ same (lookup-write_same id d files) in
                absurd (
                  proposed-unauthorized other (write id d files)
                    (new_envelope id agent intent p at prov) e found
                    (new_envelope-status id agent intent at p prov) k)
            | inr x ↦
                (rw⁻¹ (same_authority other _ files (lookup-write_other id other d files x)) k)
          ]
    ]

accept-other :
    (other id approver now : String) (files : Files)
    → (id == other) ≡ false
    → lookup other (accept_envelope id approver now files).1 ≡ lookup other files
unfolding accept_envelope
accept-other other id approver now files h =
    let P : Reply × Files → Type 0 = λ r. lookup other r.1 ≡ lookup other files in
    if-elim P (not (validate_envelope_id id)) (λ _. refl)
      λ _. elim (Option-cases (lookup id files)) [
        | inl n ↦ rw n refl
        | inr (malformed, n) ↦ rw n refl
        | inr (document d, n) ↦ rw n (
            if-elim P (not (holds (get_text "status" d) "proposed")) (λ _. refl)
              λ _. lookup-write_other id other (document (accepted_by approver now d)) files h)
      ]

-- Without an acceptance of it, an envelope is authorized after a history of calls only if it was
-- before: creating envelopes, or accepting others, authorizes nothing.
pub history-unauthorized :
    (id : String) (calls : List EnvelopeCall) (files : Files) (e : Entries)
    → accepts id calls ≡ false
    → authorize_execution id (history calls files) ≡ enveloped e
    → authorize_execution id files ≡ enveloped e
unfolding history accepts perform
history-unauthorized id [] files e n h = h
history-unauthorized id (create i a t p c v ∷ calls) files e n h =
    create-unauthorized id i a t c p v files e
      (history-unauthorized id calls (create_envelope i a t p c v files).1 e n h)
history-unauthorized id (accept i a now ∷ calls) files e n h =
    let k = history-unauthorized id calls (accept_envelope i a now files).1 e (ground arith) h in
    rw⁻¹ (same_authority id _ files (accept-other id i a now files (ground arith))) k
