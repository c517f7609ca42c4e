-- ===== src/Trust/Assertions/Laws.antt =====
-- When an assertion is verified, and what its claims then say of the signer.
use entigram.Base.{
  String, Bool, true, false, ◌≡◌, ◌↔◌, refl, ◌∙◌, ◌==◌, some, arith, codes, find_first, holds, inl,
  inr, Option-cases, eq_iff, eq_refl,
}
use entigram.Base.Json.{
  Json, null, boolean, number, string, array, object, Entries, empty, entry, get, get_text,
  get_object,
}
use entigram.Admission.{is_identifier}
use entigram.Trust.{Crypto, Document, Signer, Key, ok, is_active, has_key_id, _find_signer, put}
use entigram.Trust.Assertions.{
  payload_of, enriched, supplied, verify_claims, verify_key, verify_signer, verify_entries,
  _verify_personal_assertion,
}

-- An assertion of the kind that a key of the document signed; the key is in use, if that is
-- required.
pub record IsSigned (c : Crypto) (kind : String) (require_active : Bool) (document : Document)
    (artifact : Json) (claims : Entries) : Type 0 where
  pub entries : Entries
  pub is_object : artifact ≡ object entries
  pub typed : holds (get_text "type" entries) "entigram.identity.ed25519.v1" ≡ true
  pub of_kind : holds (get_text "kind" entries) kind ≡ true
  pub signer_id : String
  pub named : get_text "signer_id" entries ≡ some signer_id
  pub identifier : is_identifier (codes signer_id) ≡ true
  pub signer : Signer
  pub enrolled : _find_signer document.signers signer_id ≡ some signer
  pub key : Key
  pub registered : find_first (has_key_id (get_text "key_id" entries)) signer.keys ≡ some key
  pub in_use : require_active ≡ true → is_active key ≡ true
  pub body : Entries
  pub claimed : get_object "claims" entries ≡ some body
  pub signed :
      c.verifies key.public_key
        (get "signature" entries)
        (payload_of kind signer_id (supplied (get "key_id" entries)) body)
      ≡ true
  pub result : claims ≡ enriched signer_id (supplied (get "key_id" entries)) body

module _ (c : Crypto) (kind : String) (require_active : Bool) (document : Document) where
  entries-IsSigned :
      (entries claims : Entries)
      → verify_entries c kind require_active entries (ok document) ≡ ok claims
      → IsSigned c kind require_active document (object entries) claims
  unfolding verify_entries verify_signer verify_key verify_claims
  entries-IsSigned entries claims h = elim (Option-cases (get_text "signer_id" entries)) [
    | inl e ↦ absurd (ground arith)
    | inr (signer_id, n) ↦ elim (Option-cases (_find_signer document.signers signer_id)) [
      | inl e ↦ absurd (ground arith)
      | inr (signer, s) ↦
          elim (Option-cases (find_first (has_key_id (get_text "key_id" entries)) signer.keys)) [
            | inl e ↦ absurd (ground arith)
            | inr (key, k) ↦ elim (Option-cases (get_object "claims" entries)) [
              | inl e ↦ absurd (ground arith)
              | inr (body, b) ↦ record {
                entries = entries;
                is_object = refl;
                typed = ground arith;
                of_kind = ground arith;
                signer_id = signer_id;
                named = n;
                identifier = ground arith;
                signer = signer;
                enrolled = s;
                key = key;
                registered = k;
                in_use = λ e. ground arith;
                body = body;
                claimed = b;
                signed = ground arith;
                result = ground arith;
              }
            ]
          ]
    ]
  ]

  verify-IsSigned :
      (artifact : Json) (claims : Entries)
      → _verify_personal_assertion c artifact kind document require_active ≡ ok claims
      → IsSigned c kind require_active document artifact claims
  unfolding _verify_personal_assertion
  verify-IsSigned null claims h = absurd (cc)
  verify-IsSigned (boolean _) claims h = absurd (cc)
  verify-IsSigned (number _ _) claims h = absurd (cc)
  verify-IsSigned (string _) claims h = absurd (cc)
  verify-IsSigned (array _) claims h = absurd (cc)
  verify-IsSigned (object entries) claims h = entries-IsSigned entries claims h

  IsSigned-verify :
      (artifact : Json) (claims : Entries)
      → IsSigned c kind require_active document artifact claims
      → _verify_personal_assertion c artifact kind document require_active ≡ ok claims
  unfolding _verify_personal_assertion verify_entries verify_signer verify_key verify_claims
  IsSigned-verify artifact claims s = rw s.is_object (ground arith)

  -- An assertion is verified exactly when it has the type and the kind, names a signer of the
  -- document and one of that signer's keys, which is in use if that is required, and that key
  -- signed the payload; its claims are then those signed, with the signer and the key added.
  pub verify-IsSigned_iff :
      (artifact : Json) (claims : Entries)
      → (_verify_personal_assertion c artifact kind document require_active ≡ ok claims)
        ↔ IsSigned c kind require_active document artifact claims
  verify-IsSigned_iff artifact claims =
      (verify-IsSigned artifact claims, IsSigned-verify artifact claims)

get-put : (k : String) (v : Json) (d : Entries) → get k (put k v d) ≡ some v
unfolding get put
get-put k v empty = ground (arith, eq_refl k)
get-put k v (entry j w d) = ground (arith, get-put k v d)

get-put_other :
    (k j : String) (v : Json) (d : Entries) → k == j ≡ false → get j (put k v d) ≡ get j d
unfolding get put
get-put_other k j v empty h = ground arith
get-put_other k j v (entry i w d) h = ground (arith, get-put_other k j v d h, eq_iff i k)

-- the signer that the claims of a verified assertion name
pub get_text-enriched :
    (signer_id : String) (key_id : Json) (claims : Entries)
    → get_text "_signer_id" (enriched signer_id key_id claims) ≡ some signer_id
unfolding get_text
get_text-enriched signer_id key_id claims =
    let e =
      get-put_other "_key_id" "_signer_id" key_id (put "_signer_id" (string signer_id) claims)
        refl in
    let f = get-put "_signer_id" (string signer_id) claims in ground arith

-- the claims that are neither added nor replaced
pub get_text-enriched_other :
    (key signer_id : String) (key_id : Json) (claims : Entries)
    → "_signer_id" == key ≡ false
    → "_key_id" == key ≡ false
    → get_text key (enriched signer_id key_id claims) ≡ get_text key claims
unfolding get_text
get_text-enriched_other key signer_id key_id claims p q =
    let e =
      get-put_other "_key_id" key key_id (put "_signer_id" (string signer_id) claims) q
      ∙ get-put_other "_signer_id" key (string signer_id) claims p in
    ground arith
