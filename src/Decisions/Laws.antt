-- ===== src/Decisions/Laws.antt =====
-- An attestation is consumed once, and a revocation is for good.
use entigram.Base.{
  String, Bool, true, false, ◌≡◌, ◌≢◌, refl, ap, ◌&&◌, ◌||◌, ◌==◌, Option, some, List, [], ◌∷◌,
  arith, any, contains, eq_refl, if-elim,
}
use entigram.Decisions.{
  ActionDecision, Consumption, Insertion, incomplete, null_column, row, DecisionLedger, Recording,
  recorded, is_admitted, consumption_of, uses, is_action_attestation_consumed, collides,
  insert_decision, record_action_decision, revoke_action_grant, is_action_grant_revoked,
  DecisionCall, record_decision, revoke, perform, history, misses_field,
}

-- a property of what a recording does, from that of each insertion
insertion-elim :
    {B : Type 0} (P : B → Type 0) (o : Insertion) {i n : B} {f : Consumption → B}
    → P i
    → P n
    → ((c : Consumption) → o ≡ row c → P (f c))
    → P (elim o [ incomplete ↦ i | null_column ↦ n | row c ↦ f c ])
insertion-elim P incomplete pi pn pf = pi
insertion-elim P null_column pi pn pf = pn
insertion-elim P (row c) pi pn pf = pf c refl

-- no two rows share an agent's attestation, an agent's nonce, or a decision
abbrev pub Distinct : List Consumption → Type 0
Distinct [] = Unit
Distinct (c ∷ cs) = (any (collides c) cs ≡ false) × Distinct cs

-- what a call may do: keep the rows, or put one row that collides with none before them
record Grows (l r : DecisionLedger) : Type 0 where
  distinct : Distinct l.consumptions → Distinct r.consumptions
  consumed :
      (a t n : String)
      → is_action_attestation_consumed a t n l ≡ true
      → is_action_attestation_consumed a t n r ≡ true
  revoked : (g : String) → is_action_grant_revoked g l ≡ true → is_action_grant_revoked g r ≡ true

Grows-refl : (l : DecisionLedger) → Grows l l
Grows-refl l = record { distinct = λ h. h; consumed = λ a t n h. h; revoked = λ g h. h }

insert-Grows :
    (d : ActionDecision) (next l : DecisionLedger)
    → Grows l next
    → Grows l (insert_decision d next l).1
unfolding insert_decision is_action_attestation_consumed is_action_grant_revoked
insert-Grows d next l g =
    let P : Recording × DecisionLedger → Type 0 = λ r. Grows l r.1 in
    if-elim P (any (λ old. old.decision_id == d.decision_id) l.decisions) (λ _. Grows-refl l)
      λ _. record { distinct = g.distinct; consumed = g.consumed; revoked = g.revoked }

consume-Grows :
    (c : Consumption) (l : DecisionLedger)
    → any (collides c) l.consumptions ≡ false
    → Grows l (record l { consumptions = c ∷ l.consumptions })
unfolding is_action_attestation_consumed is_action_grant_revoked
consume-Grows c l free = record {
  distinct = λ h. (free, h);
  consumed = λ a t n h. ground arith;
  revoked = λ g h. h;
}

record-Grows :
    (d : ActionDecision) (consume : Bool) (l : DecisionLedger)
    → Grows l (record_action_decision d consume l).1
unfolding record_action_decision
record-Grows d consume l =
    let P : Recording × DecisionLedger → Type 0 = λ r. Grows l r.1 in
    if-elim P (misses_field d) (λ _. Grows-refl l)
      λ _.
        if-elim P (consume && (is_admitted d.status && d.identity_required))
          (λ _. insertion-elim P (consumption_of d) (Grows-refl l) (Grows-refl l) λ c _.
            if-elim P (any (collides c) l.consumptions) (λ _. Grows-refl l)
              λ free.
                insert-Grows d (record l { consumptions = c ∷ l.consumptions }) l
                  (consume-Grows c l free))
          λ _. insert-Grows d l l (Grows-refl l)

revoke-Grows : (g b w : String) (l : DecisionLedger) → Grows l (revoke_action_grant g b w l).1
unfolding revoke_action_grant is_action_attestation_consumed is_action_grant_revoked
revoke-Grows g b w l =
    let P : Option Bool × DecisionLedger → Type 0 = λ r. Grows l r.1 in
    if-elim P (g == "" || b == "" || w == "") (λ _. Grows-refl l)
      λ _.
        if-elim P (contains l.revocations g) (λ _. Grows-refl l)
          λ _. record { distinct = λ h. h; consumed = λ a t n h. h; revoked = λ k h. ground arith }

Grows-trans : (l m r : DecisionLedger) → Grows l m → Grows m r → Grows l r
Grows-trans l m r g h = record {
  distinct = λ d. h.distinct (g.distinct d);
  consumed = λ a t n e. h.consumed a t n (g.consumed a t n e);
  revoked = λ k e. h.revoked k (g.revoked k e);
}

history-Grows : (calls : List DecisionCall) (l : DecisionLedger) → Grows l (history calls l)
unfolding history perform
history-Grows [] l = Grows-refl l
history-Grows (record_decision d consume ∷ calls) l =
    let m = (record_action_decision d consume l).1 in
    Grows-trans l m (history calls m) (record-Grows d consume l) (history-Grows calls m)
history-Grows (revoke g b w ∷ calls) l =
    let m = (revoke_action_grant g b w l).1 in
    Grows-trans l m (history calls m) (revoke-Grows g b w l) (history-Grows calls m)

-- From a record in which each attestation, nonce and decision is consumed once, every history of calls
-- leads to one of which the same holds.
pub history-Distinct :
    (calls : List DecisionCall) (l : DecisionLedger)
    → Distinct l.consumptions
    → Distinct (history calls l).consumptions
history-Distinct calls l h = (history-Grows calls l).distinct h

-- A grant that was revoked, now or before, is revoked after every history of calls.
pub revoke-for_good :
    (grant_id revoked_by rationale : String) (calls : List DecisionCall) (l : DecisionLedger)
    {fresh : Bool}
    → (revoke_action_grant grant_id revoked_by rationale l).0 ≡ some fresh
    → let r = (revoke_action_grant grant_id revoked_by rationale l).1 in
      is_action_grant_revoked grant_id (history calls r) ≡ true
unfolding revoke_action_grant is_action_grant_revoked
revoke-for_good grant_id revoked_by rationale calls l h =
    let r = (revoke_action_grant grant_id revoked_by rationale l).1 in
    (history-Grows calls r).revoked grant_id (ground (arith, eq_refl grant_id))

uses-collides :
    (c : Consumption) (cs : List Consumption)
    → any (uses c.agent_id c.attestation_id c.nonce) cs ≡ true
    → any (collides c) cs ≡ true
uses-collides c [] h = h
uses-collides c (old ∷ cs) h = ground (arith, uses-collides c cs)

module _ (e : ActionDecision) (x : Consumption) (admitted : is_admitted e.status ≡ true)
    (required : e.identity_required ≡ true) (shown : consumption_of e ≡ row x) where
  same_row : (c : Consumption) → consumption_of e ≡ row c → c ≡ x
  same_row c s = ground arith

  consumed-refused :
      (l : DecisionLedger)
      → is_action_attestation_consumed x.agent_id x.attestation_id x.nonce l ≡ true
      → ((record_action_decision e true l).0 ≢ recorded) × ((record_action_decision e true l).1 ≡ l)
  unfolding record_action_decision is_action_attestation_consumed
  consumed-refused l h =
      let k = uses-collides x l.consumptions h in
      let P : Recording × DecisionLedger → Type 0 = λ r. (r.0 ≢ recorded) × (r.1 ≡ l) in
      if-elim P (misses_field e) (λ _. (λ r. ground arith, refl))
        λ _.
          if-elim P (is_admitted e.status && e.identity_required)
            (λ _.
              insertion-elim P (consumption_of e) (λ r. ground arith, refl)
                (λ r. ground arith, refl)
                λ c s.
                  if-elim P (any (collides c) l.consumptions) (λ _. (λ r. ground arith, refl))
                    λ free. (let f = rw (same_row c s) at free in absurd (ground arith)))
            λ no'. absurd (ground arith)

  record-consumes :
      (l : DecisionLedger)
      → (record_action_decision e true l).0 ≡ recorded
      → (record_action_decision e true l).1.consumptions ≡ x ∷ l.consumptions
  unfolding record_action_decision insert_decision
  record-consumes l h =
      let P : Recording × DecisionLedger → Type 0 =
        λ r. r.0 ≡ recorded → r.1.consumptions ≡ x ∷ l.consumptions in
      (if-elim P (misses_field e) (λ _ r. ground arith)
          λ _.
            if-elim P (true && (is_admitted e.status && e.identity_required))
              (λ _.
                insertion-elim P (consumption_of e) (λ r. ground arith) (λ r. ground arith)
                  λ c s.
                    if-elim P (any (collides c) l.consumptions) (λ _ r. ground arith)
                      λ _.
                        if-elim P (any (λ old. old.decision_id == e.decision_id) l.decisions)
                          (λ _ r. ground arith) λ _ r. ap (λ k. k ∷ l.consumptions) (same_row c s))
              λ no' r. absurd (ground arith))
        h

-- Once an admitted decision that requires identity is recorded with its attestation consumed, no other
-- such recording shows the same attestation or nonce of that agent, whatever calls come between: an
-- admitted decision that requires identity, shows them and would consume them is refused, and the
-- record stays as it was.
pub record-once :
    (d e : ActionDecision) (x y : Consumption) (calls : List DecisionCall) (l : DecisionLedger)
    → is_admitted d.status ≡ true
    → d.identity_required ≡ true
    → consumption_of d ≡ row x
    → is_admitted e.status ≡ true
    → e.identity_required ≡ true
    → consumption_of e ≡ row y
    → uses y.agent_id y.attestation_id y.nonce x ≡ true
    → (record_action_decision d true l).0 ≡ recorded
    → let r = history calls (record_action_decision d true l).1 in
      ((record_action_decision e true r).0 ≢ recorded) × ((record_action_decision e true r).1 ≡ r)
unfolding is_action_attestation_consumed
record-once d e x y calls l a i s b j t u h =
    let m = (record_action_decision d true l).1 in
    let k = record-consumes d x a i s l h in
    let q : is_action_attestation_consumed y.agent_id y.attestation_id y.nonce m ≡ true =
      rw k (ground arith) in
    consumed-refused e y b j t (history calls m)
      ((history-Grows calls m).consumed y.agent_id y.attestation_id y.nonce q)
