-- ===== src/Citations/Bounds.antt =====
-- The indices of the scanner stay inside the text where case folding keeps its length.
use entigram.Base.{
  ℕ, true, false, not, zero, suc, ◌+◌, ◌≤◌, ◌<◌, ◌||◌, ◌++◌, ◌≡◌, ◌≢◌, refl, Option, none, some,
  List, [], ◌∷◌, arith, eqb, if-elim, inl, inr, length, ltb, option-elim, Bool-cases, Option-cases,
  take, All,
}
use entigram.Citations.{
  Characters, nth, drop, starts_with, find, find_from, passes, casefold, _skip_whitespace, Parsed,
  out_of_fuel, no_number, number, _parse_section_number,
}
use entigram.Citations.Ends.{Ends, at_end, out, scan-Ends}
use entigram.Citations.Scan.{
  Run, ended, overrun, exhausted, Numbers, Round, stops, raises, starves, goes_on, part,
  parsed_part, parts, joined, listed, citation, word_at, candidate, guarded, first_of, section,
  section_sign, and_word, round, gathered, scan, _policy_section_numbers,
}

nth-none : (v : List ℕ) (i : ℕ) → nth v i ≡ none → length v ≤ i
unfolding nth
nth-none [] i h = omega arith
nth-none (c ∷ v) zero h = absurd (ground arith)
nth-none (c ∷ v) (suc i) h = omega (arith, nth-none v i h)

starts_with-length : (p s : List ℕ) → starts_with p s ≡ true → length p ≤ length s
unfolding starts_with
starts_with-length [] s h = omega arith
starts_with-length (a ∷ p) [] h = absurd (ground arith)
starts_with-length (a ∷ p) (c ∷ s) h = omega (arith, starts_with-length p s (ground arith))

length-drop : (i : ℕ) (s : List ℕ) → 0 < length (drop i s) → i + length (drop i s) ≡ length s
unfolding drop
length-drop zero s h = omega arith
length-drop (suc i) [] h = absurd (omega (arith, h))
length-drop (suc i) (c ∷ s) h = omega (arith, length-drop i s h)

find-length : (p s : List ℕ) (k : ℕ) → find p s ≡ some k → k + length p ≤ length s
unfolding find
find-length p [] k h = absurd (ground arith)
find-length p (c ∷ s) k h = elim (Bool-cases (starts_with p (c ∷ s))) [
  | inl e ↦ ground (arith, starts_with-length p (c ∷ s) e)
  | inr e ↦ elim (Option-cases (find p s)) [
    | inl n ↦ absurd (ground arith)
    | inr (j, n) ↦ ground (arith, find-length p s j n)
  ]
]

find_from-length :
    (p s : List ℕ) (i k : ℕ) → 0 < length p → find_from p s i ≡ some k → k + length p ≤ length s
unfolding find_from
find_from-length p s i k q h = elim (Option-cases (find p (drop i s))) [
  | inl n ↦ absurd (ground arith)
  | inr (j, n) ↦
      let b = find-length p (drop i s) j n in let d = length-drop i s (omega arith) in ground arith
]

module _ (u : Characters) (v lower : List ℕ) (same : length lower ≡ length v) where
  data Safe : Round → Type 0 where
    stop : Safe stops
    starve : Safe starves
    go : (ns : List (List ℕ)) (j : ℕ) → Safe (goes_on ns j)

  parsed-Safe : (r : Parsed u) → Safe (parsed_part u v lower r)
  parsed-Safe out_of_fuel = starve
  parsed-Safe (no_number _) = stop
  parsed-Safe (number _ k) = go _ k

  -- the word `and` is whole, so what is behind it is inside the text, or its end
  and_inside :
      (cursor : ℕ)
      → not (starts_with and_word (drop cursor lower)) ≡ false
      → eqb (cursor + 3) (length v) ≡ false
      → nth v (cursor + 3) ≡ none
      → Safe raises
  and_inside cursor h n e =
      let w = starts_with-length and_word (drop cursor lower) (ground arith) in
      let d = length-drop cursor lower (omega arith) in
      let b = nth-none v (cursor + 3) e in absurd (ground arith)

  part-Safe : (i : ℕ) → Safe (part u v lower i)
  unfolding part
  part-Safe i =
      let cursor = _skip_whitespace u v i in
      if-elim Safe (passes (λ c. eqb c b',' || eqb c b'&') (nth v cursor)) (λ e. parsed-Safe _)
        (λ e.
          if-elim Safe (not (starts_with and_word (drop cursor lower))) (λ f. stop)
            (λ f.
              if-elim Safe (eqb (cursor + 3) (length v)) (λ g. parsed-Safe _)
                (λ g.
                  option-elim Safe (nth v (cursor + 3)) (λ n. and_inside cursor f g n)
                    (λ c n. if-elim Safe (u.is_alnum c) (λ a. stop) (λ a. parsed-Safe _)))))

  data Inside : Run Numbers → Type 0 where
    at : (r : Numbers) → Inside (ended r)
    wants : Inside exhausted

  joined-Inside : (ns : List (List ℕ)) (r : Run Numbers) → Inside r → Inside (joined u v lower ns r)
  joined-Inside ns _ (at r) = at _
  joined-Inside ns _ wants = wants

  inner-Inside :
      (fuel i : ℕ) (r : Round)
      → Safe r
      → ((j : ℕ) → Inside (parts u v lower fuel j))
      → Inside (elim r as (λ x. Run Numbers) [
        | stops ↦ ended (record { found = []; cursor = i })
        | raises ↦ overrun
        | starves ↦ exhausted
        | goes_on ns next ↦ joined u v lower ns (parts u v lower fuel next)
      ])
  inner-Inside fuel i _ stop ih = at _
  inner-Inside fuel i _ starve ih = wants
  inner-Inside fuel i _ (go ns j) ih = joined-Inside ns _ (ih j)

  parts-Inside : (fuel i : ℕ) → Inside (parts u v lower fuel i)
  unfolding parts
  parts-Inside zero i = if-elim Inside (ltb i (length v)) (λ e. wants) (λ e. at _)
  parts-Inside (suc fuel) i = elim (Bool-cases (ltb i (length v))) [
    | inr e ↦ rw (e, parts) (at _)
    | inl e ↦
        rw (e, parts)
          (inner-Inside fuel i (part u v lower i) (part-Safe i) (λ j. parts-Inside fuel j))
  ]

  listed-Safe :
      (start : ℕ) (n : List ℕ) (r : Run Numbers) → Inside r → Safe (listed u v lower start n r)
  listed-Safe start n _ (at r) = go _ _
  listed-Safe start n _ wants = starve

  numbered-Safe :
      (start : ℕ) (r : Parsed u)
      → Safe (elim r [
        | out_of_fuel ↦ starves
        | no_number _ ↦ goes_on [] (start + 1)
        | number n next ↦ listed u v lower start n (parts u v lower (length v) next)
      ])
  numbered-Safe start out_of_fuel = starve
  numbered-Safe start (no_number _) = go _ _
  numbered-Safe start (number n next) = listed-Safe start n _ (parts-Inside (length v) next)

  citation-Safe : (start cursor : ℕ) → Safe (citation u v lower start cursor)
  unfolding citation
  citation-Safe start cursor =
      if-elim Safe (passes u.is_alpha (nth v cursor)) (λ e. go _ _)
        (λ e. numbered-Safe start (_parse_section_number u v cursor))

  outside : (w : List ℕ) (i : ℕ) → length w ≡ length v → i < length v → nth w i ≡ none → Safe raises
  outside w i h b n = absurd (omega (arith, nth-none w i n))

  candidate-Safe : (start : ℕ) → start < length v → Safe (candidate u v lower start)
  unfolding candidate word_at
  candidate-Safe start b =
      option-elim Safe (nth v start) (λ n. outside v start refl b n)
        (λ c n.
          if-elim Safe (eqb c section_sign) (λ e. citation-Safe start (start + 1))
            (λ e.
              if-elim Safe (not (ltb (start + 7) (length v))) (λ f. citation-Safe start (start + 7))
                (λ f.
                  option-elim Safe (nth lower (start + 7))
                    (λ m. outside lower (start + 7) same (ground arith) m)
                    (λ d m. citation-Safe start _))))

  guarded-Safe : (start : ℕ) → start < length v → Safe (guarded u v lower start)
  unfolding guarded
  guarded-Safe zero b = candidate-Safe zero b
  guarded-Safe (suc before) b =
      option-elim Safe (nth v before) (λ n. outside v before refl (omega arith) n)
        (λ c n. if-elim Safe (u.is_alnum c) (λ a. go _ _) (λ a. candidate-Safe (suc before) b))

  first_inside :
      (a b : Option ℕ) (start : ℕ)
      → ((k : ℕ) → a ≡ some k → k < length v)
      → ((k : ℕ) → b ≡ some k → k < length v)
      → first_of a b ≡ some start
      → start < length v
  first_inside none b start f g h = g start h
  first_inside (some k) none start f g h = f start h
  first_inside (some k) (some j) start f g h = ground (arith, f k refl, g j refl)

  round-Safe : (i : ℕ) → Safe (round u v lower i)
  unfolding round
  round-Safe i =
      option-elim Safe (first_of (find_from section lower i) (find_from (section_sign ∷ []) v i))
        (λ n. stop)
        (λ start e. guarded-Safe start (
          first_inside (find_from section lower i) (find_from (section_sign ∷ []) v i) start
            (λ k p. omega (arith, find_from-length section lower i k (omega arith) p))
            (λ k p. omega (arith, find_from-length (section_sign ∷ []) v i k (omega arith) p)) e))

  gathered-contra :
      (ns : List (List ℕ)) (r : Run (List (List ℕ)))
      → r ≢ overrun
      → gathered u v lower ns r ≢ overrun
  gathered-contra ns (ended r) h = λ e. ground arith
  gathered-contra ns overrun h = h
  gathered-contra ns exhausted h = λ e. ground arith

  outer-inside :
      (fuel : ℕ) (r : Round)
      → Safe r
      → ((j : ℕ) → scan u v lower fuel j ≢ overrun)
      → (elim r as (λ x. Run (List (List ℕ))) [
        | stops ↦ ended []
        | raises ↦ overrun
        | starves ↦ exhausted
        | goes_on ns next ↦ gathered u v lower ns (scan u v lower fuel next)
      ])
        ≢ overrun
  outer-inside fuel _ stop ih = λ e. ground arith
  outer-inside fuel _ starve ih = λ e. ground arith
  outer-inside fuel _ (go ns j) ih = gathered-contra ns _ (ih j)

  scan-inside : (fuel i : ℕ) → scan u v lower fuel i ≢ overrun
  unfolding scan
  scan-inside zero i =
      if-elim (λ r. r ≢ overrun) (ltb i (length v)) (λ e f. ground arith) (λ e f. ground arith)
  scan-inside (suc fuel) i = elim (Bool-cases (ltb i (length v))) [
    | inr e ↦ rw (e, scan) (λ f. ground arith)
    | inl e ↦
        rw (e, scan)
          (outer-inside fuel (round u v lower i) (round-Safe i) (λ j. scan-inside fuel j))
  ]

length-append : (s t : List ℕ) → length (s ++ t) ≡ length s + length t
length-append [] t = omega arith
length-append (c ∷ s) t = omega (arith, length-append s t)

length-casefold :
    (u : Characters) (s : List ℕ)
    → All (λ c. length (u.fold c) ≡ 1) s
    → length (casefold u s) ≡ length s
unfolding casefold
length-casefold u [] h = refl
length-casefold u (c ∷ s) h =
    omega (arith, length-append (u.fold c) (casefold u s), h.0, length-casefold u s h.1)

returns_inside :
    {r : Run (List (List ℕ))} → Ends r → r ≢ overrun → (ns : List (List ℕ)) × (r ≡ ended ns)
returns_inside (at_end ns) h = (ns, refl)
returns_inside out h = absurd (h refl)

-- Where case folding turns each character of the text that is read into one, the scan for section numbers returns: no loop is
-- cut short, and no index into the text or into its folded copy is out of range.
pub section_numbers_returns :
    (u : Characters) (text : List ℕ) (max_length : ℕ)
    → All (λ c. length (u.fold c) ≡ 1) (take max_length text)
    → (numbers : List (List ℕ)) × (_policy_section_numbers u text max_length ≡ ended numbers)
unfolding _policy_section_numbers
section_numbers_returns u text max_length h =
    let value = take max_length text in
    let lower = casefold u value in
    returns_inside (scan-Ends u value lower (length value) 0 (omega arith))
      (scan-inside u value lower (length-casefold u value h) (length value) 0)
