-- ===== src/Trust/Approvals/Laws.antt =====
-- The approvers of a change are distinct signers who each signed an approval of it.
use entigram.Base.{
  String, true, false, ◌≡◌, refl, ◌==◌, ◌++◌, some, List, [], ◌∷◌, arith, contains, inl, inr, All,
  Some, Bool-cases, eq_iff, eq_refl, ◌⊎◌,
}
use entigram.Base.Json.{Json, Entries, get_text}
use entigram.Trust.{Crypto, Document, Change, Result-cases}
use entigram.Trust.Approvals.{binds, add_approver, _validate_approvals}
use entigram.Trust.Assertions.{_verify_personal_assertion}
use entigram.Trust.Assertions.Laws.{IsSigned, verify-IsSigned_iff, get_text-enriched}

-- An active key of this signer signed an approval of the change: it claims the change's id and
-- digest, the registry it was made for, and its operation.
pub record IsApproval (c : Crypto) (document : Document) (change : Change) (id : String)
    (artifact : Json) : Type 0 where
  pub claims : Entries
  pub signed : IsSigned c "trust_change_approval" true document artifact claims
  pub by : signed.signer_id ≡ id
  pub bound : binds c change claims ≡ true

-- no text stands twice
abbrev pub IsDistinct : List String → Type 0
IsDistinct [] = Unit
IsDistinct (x ∷ xs) = (contains xs x ≡ false) × IsDistinct xs

contains-snoc :
    (xs : List String) (s t : String)
    → contains xs s ≡ false
    → t == s ≡ false
    → contains (xs ++ t ∷ []) s ≡ false
contains-snoc [] s t h e = ground arith
contains-snoc (x ∷ xs) s t h e = ground (arith, contains-snoc xs s t)

IsDistinct-snoc :
    (xs : List String) (s : String)
    → IsDistinct xs
    → contains xs s ≡ false
    → IsDistinct (xs ++ s ∷ [])
IsDistinct-snoc [] s d h = (refl, tt)
IsDistinct-snoc (x ∷ xs) s d h = (
  contains-snoc xs x s d.0 (ground (arith, eq_iff x s, eq_iff s x, eq_refl s)),
  IsDistinct-snoc xs s d.1 (ground arith),
)

All-snoc {ℓ} :
    (P : String → Type ℓ) (xs : List String) (s : String) → All P xs → P s → All P (xs ++ s ∷ [])
All-snoc P [] s a p = (p, tt)
All-snoc P (x ∷ xs) s a p = (a.0, All-snoc P xs s a.1 p)

module _ (c : Crypto) (document : Document) (change : Change) where
  abbrev pub Backed : List Json → String → Type 0
  Backed artifacts id = Some (IsApproval c document change id) artifacts

  -- one round adds at most one approver, who is new and signed the artifact
  round-cases :
      (approvers : List String) (artifact : Json)
      → (add_approver c change document approvers artifact ≡ approvers)
        ⊎ ((id : String) × IsApproval c document change id artifact
            × (contains approvers id ≡ false)
            × (add_approver c change document approvers artifact ≡ approvers ++ id ∷ []))
  unfolding add_approver
  round-cases approvers artifact =
      elim (Result-cases
        (_verify_personal_assertion c artifact "trust_change_approval" document true)) [
          | inl (f, e) ↦ inl (ground arith)
          | inr (claims, e) ↦
              let s =
                (verify-IsSigned_iff c "trust_change_approval" true document artifact claims).0 e in
              let t : get_text "_signer_id" claims ≡ some s.signer_id =
                rw s.result (get_text-enriched s.signer_id _ s.body) in
              elim (Bool-cases (binds c change claims)) [
                | inl b ↦ elim (Bool-cases (contains approvers s.signer_id)) [
                  | inl m ↦ inl (ground arith)
                  | inr m ↦ inr (
                    s.signer_id,
                    record { claims = claims; signed = s; by = refl; bound = b },
                    m,
                    ground arith,
                  )
                ]
                | inr b ↦ inl (ground arith)
              ]
        ]

  -- the loop, from approvers that are distinct and have the property
  loop-Good :
      (P : String → Type 0) (approvers : List String) (artifacts : List Json)
      → IsDistinct approvers
      → All P approvers
      → ((id : String) → Backed artifacts id → P id)
      → IsDistinct (_validate_approvals c change document approvers artifacts)
        × All P (_validate_approvals c change document approvers artifacts)
  unfolding _validate_approvals
  loop-Good P approvers [] d a f = (d, a)
  loop-Good P approvers (artifact ∷ rest) d a f = elim (round-cases approvers artifact) [
    | inl e ↦ rw e (loop-Good P approvers rest d a (λ id b. f id (inr b)))
    | inr (id, signed, fresh, e) ↦ rw e (
        loop-Good P (approvers ++ id ∷ []) rest (IsDistinct-snoc approvers id d fresh)
          (All-snoc P approvers id a (f id (inl signed))) (λ j b. f j (inr b)))
  ]

  -- Every approver of a change is the signer of one of the approvals handed in, with an active key of
  -- the document, over this change, its digest and the registry; and no signer counts twice.
  pub validate_approvals-Backed :
      (artifacts : List Json)
      → IsDistinct (_validate_approvals c change document [] artifacts)
        × All (Backed artifacts) (_validate_approvals c change document [] artifacts)
  validate_approvals-Backed artifacts = loop-Good (Backed artifacts) [] artifacts tt tt (λ id b. b)
