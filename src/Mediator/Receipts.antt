-- ===== src/Mediator/Receipts.antt =====
-- What the session records: each result once, however often a conversation is sent again, and nothing
-- that an untrusted message says.
use entigram.Base.{
  String, Bool, true, false, not, ◌+◌, ◌&&◌, ◌||◌, ◌==◌, ◌++◌, ◌≡◌, refl, sym, ap, ◌∙◌, List, [],
  ◌∷◌, any, arith, contains, eq_iff, eq_refl, if-elim, keep, length, lookup, option-elim,
  Bool-cases, Option-cases, inl, inr,
}
use entigram.Base.Json.{Json, null, boolean, number, string, array, object, Entries}
use entigram.Mediator.{
  Receipt, SessionState, Call, Calls, Texts, Reading, with_name, record_tool_result, is_untrusted,
  asks, reports, new_receipt, result_id, result_output, result_success, add_result, read_entries,
  read_message, read_messages, update_state,
}

-- the parts of a session agree with its receipts
pub record IsSession (s : SessionState) : Type 0 where
  pub counted : s.step_counter ≡ length s.tool_results
  pub recorded :
      (id : String)
      → contains s.recorded_call_ids id ≡ any (λ (r : Receipt). r.call_id == id) s.tool_results
  pub executed :
      (name : String)
      → contains s.executed_tools name
        ≡ any (λ (r : Receipt). r.success && r.tool_name == name) s.tool_results

any-append {ℓ} :
    {A : Type ℓ} (p : A → Bool) (xs : List A) (x : A) → any p (xs ++ x ∷ []) ≡ any p xs || p x
any-append p [] x = ground arith
any-append p (y ∷ xs) x = ground (arith, any-append p xs x)

length-snoc {ℓ} : {A : Type ℓ} (xs : List A) (x : A) → length (xs ++ x ∷ []) ≡ length xs + 1
length-snoc [] x = refl
length-snoc (y ∷ xs) x = omega (arith, length-snoc xs x)

contains-append :
    (xs : List String) (x s : String) → contains (xs ++ x ∷ []) s ≡ contains xs s || x == s
contains-append [] x s = ground arith
contains-append (y ∷ xs) x s = ground (arith, contains-append xs x s)

contains-with_name :
    (s : String) (set : List String) (name : String)
    → contains (with_name s set) name ≡ contains set name || s == name
contains-with_name s set name = ground (arith, contains-append set s name, eq_iff s name)

record-IsSession :
    (id : String) (call : Call) (output : Json) (success : Bool) (s : SessionState)
    → IsSession s
    → IsSession (record_tool_result id call output success s)
unfolding record_tool_result
record-IsSession id call output success s h =
    let new = new_receipt id call output success (s.step_counter + 1) in
    if-elim IsSession (contains s.recorded_call_ids id) (λ e. h)
      (λ e. record {
        counted = omega (arith, h.counted, length-snoc s.tool_results new);
        recorded = λ other. ground (
          arith,
          h.recorded other,
          any-append (λ (r : Receipt). r.call_id == other) s.tool_results new,
        );
        executed = λ name. ground (
          arith,
          h.executed name,
          contains-with_name call.name s.executed_tools name,
          any-append (λ (r : Receipt). r.success && r.tool_name == name) s.tool_results new,
        );
      })

module _ (t : Texts) where
  result-IsSession :
      (m : Entries) (calls : Calls) (s : SessionState)
      → IsSession s
      → IsSession (add_result t m calls s)
  unfolding add_result
  result-IsSession m calls s h =
      if-elim IsSession (result_id t m == "") (λ e. h)
        (λ e.
          option-elim IsSession (lookup (result_id t m) calls) (λ n. h)
            (λ call n.
              record-IsSession (result_id t m) call (result_output t m) (result_success t m) s h))

  message-IsSession :
      (m : Json) (r : Reading) → IsSession r.state → IsSession (read_message t m r).state
  unfolding read_message read_entries
  message-IsSession (object m) r h =
      let P : Reading → Type 0 = λ q. IsSession q.state in
      if-elim P (is_untrusted t m) (λ e. h)
        (λ e.
          if-elim P (asks t m) (λ a. h)
            (λ a. if-elim P (reports t m) (λ b. result-IsSession m r.calls r.state h) (λ b. h)))
  message-IsSession null r h = h
  message-IsSession (boolean _) r h = h
  message-IsSession (number _ _) r h = h
  message-IsSession (string _) r h = h
  message-IsSession (array _) r h = h

  messages-IsSession :
      (ms : List Json) (r : Reading) → IsSession r.state → IsSession (read_messages t ms r).state
  unfolding read_messages
  messages-IsSession [] r h = h
  messages-IsSession (m ∷ ms) r h =
      messages-IsSession ms (read_message t m r) (message-IsSession m r h)

  -- A session stays consistent whatever messages it reads: the steps count its receipts, a call id is
  -- recorded exactly when a receipt has it, and a tool counts as executed exactly when a receipt of it
  -- tells of success.
  pub update_state-IsSession :
      (ms : List Json) (s : SessionState) → IsSession s → IsSession (update_state t ms s)
  unfolding update_state
  update_state-IsSession ms s h = messages-IsSession ms (record { calls = []; state = s }) h

  abbrev pub is_trusted : Json → Bool
  is_trusted (object m) = not (is_untrusted t m)
  is_trusted _ = true

  untrusted-nothing : (m : Json) (r : Reading) → is_trusted m ≡ false → read_message t m r ≡ r
  unfolding read_message read_entries
  untrusted-nothing (object m) r h = ground arith
  untrusted-nothing null r h = absurd (ground arith)
  untrusted-nothing (boolean _) r h = absurd (ground arith)
  untrusted-nothing (number _ _) r h = absurd (ground arith)
  untrusted-nothing (string _) r h = absurd (ground arith)
  untrusted-nothing (array _) r h = absurd (ground arith)

  untrusted-skipped :
      (ms : List Json) (r : Reading) → read_messages t ms r ≡ read_messages t (keep is_trusted ms) r
  unfolding read_messages
  untrusted-skipped [] r = refl
  untrusted-skipped (m ∷ ms) r = elim (Bool-cases (is_trusted m)) [
    | inl e ↦ rw e (untrusted-skipped ms (read_message t m r))
    | inr e ↦ rw (e, untrusted-nothing m r e) (untrusted-skipped ms r)
  ]

  -- Messages that carry an untrusted provenance change nothing: a conversation with them leaves the
  -- session as the conversation without them does.
  pub update_state-ignores_untrusted :
      (ms : List Json) (s : SessionState)
      → update_state t ms s ≡ update_state t (keep is_trusted ms) s
  unfolding update_state
  update_state-ignores_untrusted ms s =
      ap (λ (r : Reading). r.state) (untrusted-skipped ms (record { calls = []; state = s }))

  -- every id that one session has recorded, the other has
  abbrev Within : SessionState → SessionState → Type 0
  Within s z =
      (id : String)
      → contains s.recorded_call_ids id ≡ true
      → contains z.recorded_call_ids id ≡ true

  record-kept :
      (id : String) (call : Call) (output : Json) (success : Bool) (s z : SessionState)
      → Within (record_tool_result id call output success s) z
      → (record_tool_result id call output success z ≡ z) × Within s z
  unfolding record_tool_result
  record-kept id call output success s z w = elim (Bool-cases (contains s.recorded_call_ids id)) [
    | inl e ↦ (ground (arith, w id), λ j c. w j (ground arith))
    | inr e ↦ (ground (arith, w id, eq_refl id), λ j c. w j (ground arith))
  ]

  result-kept :
      (m : Entries) (calls : Calls) (s z : SessionState)
      → Within (add_result t m calls s) z
      → (add_result t m calls z ≡ z) × Within s z
  unfolding add_result
  result-kept m calls s z w = elim (Bool-cases (result_id t m == "")) [
    | inl e ↦ (ground arith, λ j c. w j (ground arith))
    | inr e ↦ elim (Option-cases (lookup (result_id t m) calls)) [
      | inl n ↦ (ground arith, λ j c. w j (ground arith))
      | inr (call, n) ↦
          let k =
            record-kept (result_id t m) call (result_output t m) (result_success t m) s z
              (λ j c. w j (ground arith)) in
          (ground (arith, k.0), k.1)
    ]
  ]

  abbrev with_state : SessionState → Reading → Reading
  with_state z r = record r { state = z }

  entries-kept :
      (m : Entries) (r : Reading) (z : SessionState)
      → Within (read_entries t m r).state z
      → (read_entries t m (with_state z r) ≡ with_state z (read_entries t m r)) × Within r.state z
  unfolding read_entries
  entries-kept m r z w = elim (Bool-cases (is_untrusted t m)) [
    | inl e ↦ (ground arith, λ j c. w j (ground arith))
    | inr e ↦ elim (Bool-cases (asks t m)) [
      | inl a ↦ (ground arith, λ j c. w j (ground arith))
      | inr a ↦ elim (Bool-cases (reports t m)) [
        | inl b ↦
            let k = result-kept m r.calls r.state z (λ j c. w j (ground arith)) in
            (ground (arith, k.0), k.1)
        | inr b ↦ (ground arith, λ j c. w j (ground arith))
      ]
    ]
  ]

  message-kept :
      (m : Json) (r : Reading) (z : SessionState)
      → Within (read_message t m r).state z
      → (read_message t m (with_state z r) ≡ with_state z (read_message t m r)) × Within r.state z
  unfolding read_message
  message-kept (object m) r z w = entries-kept m r z w
  message-kept null r z w = (refl, w)
  message-kept (boolean _) r z w = (refl, w)
  message-kept (number _ _) r z w = (refl, w)
  message-kept (string _) r z w = (refl, w)
  message-kept (array _) r z w = (refl, w)

  messages-kept :
      (ms : List Json) (r : Reading) (z : SessionState)
      → Within (read_messages t ms r).state z
      → (read_messages t ms (with_state z r) ≡ with_state z (read_messages t ms r))
        × Within r.state z
  unfolding read_messages
  messages-kept [] r z w = (refl, w)
  messages-kept (m ∷ ms) r z w =
      let later = messages-kept ms (read_message t m r) z w in
      let now = message-kept m r z later.1 in
      (ap (λ q. read_messages t ms q) now.0 ∙ later.0, now.1)

  messages-append :
      (ms more : List Json) (r : Reading)
      → read_messages t (ms ++ more) r ≡ read_messages t more (read_messages t ms r)
  unfolding read_messages
  messages-append [] more r = refl
  messages-append (m ∷ ms) more r = messages-append ms more (read_message t m r)

  -- A conversation that is sent again, with more behind it, leaves the session as it would be had the
  -- whole been sent once: no result counts twice.
  pub update_state-resend :
      (ms more : List Json) (s : SessionState)
      → update_state t (ms ++ more) (update_state t ms s) ≡ update_state t (ms ++ more) s
  unfolding update_state
  update_state-resend ms more s =
      let start : Reading = record { calls = []; state = s } in
      let once = read_messages t ms start in
      let again = messages-kept ms start once.state (λ j c. c) in
      ap (λ (r : Reading). r.state)
        (messages-append ms more (with_state once.state start)
          ∙ (ap (λ q. read_messages t more q) again.0 ∙ sym (messages-append ms more start)))
