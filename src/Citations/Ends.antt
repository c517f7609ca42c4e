-- ===== src/Citations/Ends.antt =====
-- The loops of the scanner end: each round moves the index on, so the length of the text is fuel
-- enough.
use entigram.Base.{
  ℕ, Bool, true, false, not, zero, suc, ◌+◌, ◌≤◌, ◌<◌, ◌&&◌, ◌||◌, ◌≡◌, ◌≢◌, if◌then◌else◌, Option,
  some, List, [], ◌∷◌, arith, eqb, if-elim, inl, inr, length, ltb, option-elim, Bool-cases, Never,
  take,
}
use entigram.Citations.{
  Characters, nth, drop, leading, starts_with, shifted, find_from, passes, casefold,
  _skip_whitespace, skip_digits, skip_parts, Parsed, out_of_fuel, no_number, number,
  _parse_section_number,
}
use entigram.Citations.Scan.{
  Run, ended, overrun, exhausted, Numbers, Round, stops, raises, starves, goes_on, part,
  parsed_part, parts, joined, listed, citation, word_at, candidate, guarded, first_of, section_sign,
  and_word, round, gathered, scan, _policy_section_numbers,
}

-- a run that ends, with a result or an `IndexError`
pub data Ends {ℓ} {A : Type ℓ} : Run A → Type ℓ where
  at_end : (a : A) → Ends (ended a)
  out : Ends overrun

nth-bound : (p : ℕ → Bool) (v : List ℕ) (i : ℕ) → passes p (nth v i) ≡ true → i < length v
unfolding nth
nth-bound p [] i h = absurd (ground arith)
nth-bound p (c ∷ v) zero h = omega arith
nth-bound p (c ∷ v) (suc i) h = omega (arith, nth-bound p v i h)

leading-positive :
    (p : ℕ → Bool) (v : List ℕ) (i : ℕ) → passes p (nth v i) ≡ true → 0 < leading p (drop i v)
unfolding nth drop leading
leading-positive p [] i h = absurd (ground arith)
leading-positive p (c ∷ v) zero h = ground arith
leading-positive p (c ∷ v) (suc i) h = leading-positive p v i h

module _ (u : Characters) where
  digits_after : (v : List ℕ) (i : ℕ) → i ≤ skip_digits u v i
  unfolding skip_digits
  digits_after v i = omega arith

  digits_past : (v : List ℕ) (i : ℕ) → passes u.is_digit (nth v i) ≡ true → i < skip_digits u v i
  unfolding skip_digits
  digits_past v i h = omega (arith, leading-positive u.is_digit v i h)

  -- the loop over the parts ends, at or behind the index
  skip_parts_ends :
      (fuel : ℕ) (v : List ℕ) (i : ℕ)
      → length v ≤ i + fuel
      → (j : ℕ) × (skip_parts u fuel v i ≡ some j) × (i ≤ j)
  unfolding skip_parts
  skip_parts_ends zero v i h =
      elim (Bool-cases (passes (eqb b'.') (nth v i) && passes u.is_digit (nth v (i + 1)))) [
        | inl e ↦ absurd (omega (arith, nth-bound (eqb b'.') v i (ground arith)))
        | inr e ↦ (i, ground arith, omega arith)
      ]
  skip_parts_ends (suc fuel) v i h =
      elim (Bool-cases (passes (eqb b'.') (nth v i) && passes u.is_digit (nth v (i + 1)))) [
        | inl e ↦
            let after = digits_after v (i + 1) in
            let (j, ends, past) = skip_parts_ends fuel v (skip_digits u v (i + 1)) (omega arith) in
            (j, ground arith, omega arith)
        | inr e ↦ (i, ground arith, omega arith)
      ]

  -- what a parse has to be: no end of fuel, and a number only behind the index
  abbrev Behind : ℕ → Parsed u → Type 0
  Behind i out_of_fuel = Never
  Behind i (no_number _) = Unit
  Behind i (number _ j) = i < j

  pub parse-Behind : (v : List ℕ) (i : ℕ) → Behind i (_parse_section_number u v i)
  unfolding _parse_section_number _skip_whitespace
  parse-Behind v i =
      let start = _skip_whitespace u v i in
      if-elim (Behind i) (not (passes u.is_digit (nth v start))) (λ e. tt)
        (λ e.
          let past = digits_past v start (ground arith) in
          let (j, ends, behind) =
            skip_parts_ends (length v) v (skip_digits u v start) (omega arith) in
          rw (ends) (
            if-elim (λ k. i < k) (passes u.is_alpha (nth v j)) (λ a. omega arith)
              (λ a. omega arith)))

  module _ (v lower : List ℕ) where
    -- a round goes on only behind the index, and never for want of fuel
    pub data Progress (i : ℕ) : Round → Type 0 where
      stop : Progress i stops
      raise : Progress i raises
      go : (ns : List (List ℕ)) (j : ℕ) → i < j → Progress i (goes_on ns j)

    parsed-Progress :
        (i j : ℕ) (r : Parsed u) → i ≤ j → Behind j r → Progress i (parsed_part u v lower r)
    parsed-Progress i j out_of_fuel h b = elim b [ ]
    parsed-Progress i j (no_number _) h b = stop
    parsed-Progress i j (number _ k) h b = go _ k (omega arith)

    part-Progress : (i : ℕ) → Progress i (part u v lower i)
    unfolding part _skip_whitespace
    part-Progress i =
        let cursor = _skip_whitespace u v i in
        let one =
          parsed-Progress i (cursor + 1) (_parse_section_number u v (cursor + 1)) (omega arith)
            (parse-Behind v (cursor + 1)) in
        let three =
          parsed-Progress i (cursor + 3) (_parse_section_number u v (cursor + 3)) (omega arith)
            (parse-Behind v (cursor + 3)) in
        if-elim (Progress i) (passes (λ c. eqb c b',' || eqb c b'&') (nth v cursor)) (λ e. one)
          (λ e.
            if-elim (Progress i) (not (starts_with and_word (drop cursor lower))) (λ f. stop)
              (λ f.
                if-elim (Progress i) (eqb (cursor + 3) (length v)) (λ g. three)
                  (λ g.
                    option-elim (Progress i) (nth v (cursor + 3)) (λ n. raise)
                      (λ c n. if-elim (Progress i) (u.is_alnum c) (λ a. stop) (λ a. three)))))

    -- an inner loop ends, at or behind the index
    data AtOrBehind (i : ℕ) : Run Numbers → Type 0 where
      at : (r : Numbers) → i ≤ r.cursor → AtOrBehind i (ended r)
      over : AtOrBehind i overrun

    joined-AtOrBehind :
        (i j : ℕ) (ns : List (List ℕ)) (r : Run Numbers)
        → i ≤ j
        → AtOrBehind j r
        → AtOrBehind i (joined u v lower ns r)
    joined-AtOrBehind i j ns _ h (at r b) = at _ (omega arith)
    joined-AtOrBehind i j ns _ h over = over

    abbrev inner : ℕ → ℕ → Round → Run Numbers
    inner fuel i r = elim r [
      | stops ↦ ended (record { found = []; cursor = i })
      | raises ↦ overrun
      | starves ↦ exhausted
      | goes_on ns next ↦ joined u v lower ns (parts u v lower fuel next)
    ]

    inner-AtOrBehind :
        (fuel i : ℕ) (r : Round)
        → Progress i r
        → ((j : ℕ) → i < j → AtOrBehind j (parts u v lower fuel j))
        → AtOrBehind i (inner fuel i r)
    inner-AtOrBehind fuel i _ stop ih = at _ (omega arith)
    inner-AtOrBehind fuel i _ raise ih = over
    inner-AtOrBehind fuel i _ (go ns j b) ih =
        joined-AtOrBehind i j ns (parts u v lower fuel j) (omega arith) (ih j b)

    parts-AtOrBehind : (fuel i : ℕ) → length v ≤ i + fuel → AtOrBehind i (parts u v lower fuel i)
    unfolding parts
    parts-AtOrBehind zero i h =
        if-elim (AtOrBehind i) (ltb i (length v)) (λ e. absurd (ground arith))
          (λ e. at _ (omega arith))
    parts-AtOrBehind (suc fuel) i h = elim (Bool-cases (ltb i (length v))) [
      | inr e ↦ rw (e, parts) (at _ (omega arith))
      | inl e ↦
          rw (e, parts)
            (inner-AtOrBehind fuel i (part u v lower i) (part-Progress i)
              (λ j b. parts-AtOrBehind fuel j (omega arith)))
    ]

    listed-Progress :
        (i start : ℕ) (n : List ℕ) (r : Run Numbers) (k : ℕ)
        → i ≤ start
        → AtOrBehind k r
        → Progress i (listed u v lower start n r)
    listed-Progress i start n _ k h (at r b) = go _ _ (ground arith)
    listed-Progress i start n _ k h over = raise

    numbered-Progress :
        (i start : ℕ) (r : Parsed u)
        → i ≤ start
        → Behind start r
        → Progress i (elim r [
          | out_of_fuel ↦ starves
          | no_number _ ↦ goes_on [] (start + 1)
          | number n next ↦ listed u v lower start n (parts u v lower (length v) next)
        ])
    numbered-Progress i start out_of_fuel h b = elim b [ ]
    numbered-Progress i start (no_number _) h b = go _ _ (omega arith)
    numbered-Progress i start (number n next) h b =
        listed-Progress i start n _ next h (parts-AtOrBehind (length v) next (omega arith))

    earlier_start : (i j : ℕ) (r : Parsed u) → i < j → Behind j r → Behind i r
    earlier_start i j out_of_fuel h b = b
    earlier_start i j (no_number _) h b = tt
    earlier_start i j (number _ k) h b = omega arith

    plural_past : (start : ℕ) (b : Bool) → start < (if b then start + 7 + 1 else start + 7)
    plural_past start true = omega arith
    plural_past start false = omega arith

    citation-Progress :
        (i start cursor : ℕ)
        → i ≤ start
        → start < cursor
        → Progress i (citation u v lower start cursor)
    unfolding citation
    citation-Progress i start cursor h k =
        if-elim (Progress i) (passes u.is_alpha (nth v cursor)) (λ e. go _ _ (omega arith))
          (λ e. numbered-Progress i start (_parse_section_number u v cursor) h (
            earlier_start start cursor (_parse_section_number u v cursor) k
              (parse-Behind v cursor)))

    candidate-Progress : (i start : ℕ) → i ≤ start → Progress i (candidate u v lower start)
    unfolding candidate word_at
    candidate-Progress i start h =
        option-elim (Progress i) (nth v start) (λ n. raise)
          (λ c n.
            if-elim (Progress i) (eqb c section_sign)
              (λ e. citation-Progress i start (start + 1) h (omega arith))
              (λ e.
                if-elim (Progress i) (not (ltb (start + 7) (length v)))
                  (λ f. citation-Progress i start (start + 7) h (omega arith))
                  (λ f.
                    option-elim (Progress i) (nth lower (start + 7)) (λ m. raise)
                      (λ d m. citation-Progress i start _ h (plural_past start (eqb d b's'))))))

    guarded-Progress : (i start : ℕ) → i ≤ start → Progress i (guarded u v lower start)
    unfolding guarded
    guarded-Progress i zero h = candidate-Progress i zero h
    guarded-Progress i (suc before) h =
        option-elim (Progress i) (nth v before) (λ n. raise)
          (λ c n.
            if-elim (Progress i) (u.is_alnum c) (λ a. go _ _ (omega arith))
              (λ a. candidate-Progress i (suc before) h))

    found_behind :
        (i : ℕ) (a b : Option ℕ) (start : ℕ)
        → first_of (shifted i a) (shifted i b) ≡ some start
        → i ≤ start
    found_behind i a b start h = ground arith

    round-Progress : (i : ℕ) → Progress i (round u v lower i)
    unfolding round find_from
    round-Progress i =
        option-elim (Progress i) _ (λ n. stop)
          (λ start e. guarded-Progress i start (found_behind i _ _ start e))

    gathered-Ends :
        (ns : List (List ℕ)) (r : Run (List (List ℕ))) → Ends r → Ends (gathered u v lower ns r)
    gathered-Ends ns _ (at_end r) = at_end _
    gathered-Ends ns _ out = out

    outer-Ends :
        (fuel i : ℕ) (r : Round)
        → Progress i r
        → ((j : ℕ) → i < j → Ends (scan u v lower fuel j))
        → Ends (elim r as (λ x. Run (List (List ℕ))) [
          | stops ↦ ended []
          | raises ↦ overrun
          | starves ↦ exhausted
          | goes_on ns next ↦ gathered u v lower ns (scan u v lower fuel next)
        ])
    outer-Ends fuel i _ stop ih = at_end _
    outer-Ends fuel i _ raise ih = out
    outer-Ends fuel i _ (go ns j b) ih = gathered-Ends ns _ (ih j b)

    pub scan-Ends : (fuel i : ℕ) → length v ≤ i + fuel → Ends (scan u v lower fuel i)
    unfolding scan
    scan-Ends zero i h =
        if-elim Ends (ltb i (length v)) (λ e. absurd (ground arith)) (λ e. at_end _)
    scan-Ends (suc fuel) i h = elim (Bool-cases (ltb i (length v))) [
      | inr e ↦ rw (e, scan) (at_end [])
      | inl e ↦
          rw (e, scan)
            (outer-Ends fuel i (round u v lower i) (round-Progress i)
              (λ j b. scan-Ends fuel j (omega arith)))
    ]

Ends-contra : {r : Run (List (List ℕ))} → Ends r → r ≢ exhausted
Ends-contra (at_end _) = λ e. ground arith
Ends-contra out = λ e. ground arith

-- The scan of a text for section numbers ends: its loops never want for more rounds than the text
-- has characters, whatever the text and the limit on its length.
pub section_numbers_terminates :
    (u : Characters) (text : List ℕ) (max_length : ℕ)
    → _policy_section_numbers u text max_length ≢ exhausted
unfolding _policy_section_numbers
section_numbers_terminates u text max_length =
    let value = take max_length text in
    Ends-contra (scan-Ends u value (casefold u value) (length value) 0 (omega arith))
