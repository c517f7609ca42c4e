-- ===== src/Trust/Assertions.antt =====
-- Assertions that a person signed: `_verify_personal_assertion`, and `verify` on the loaded document.
pub mod Laws
use entigram.Base.{
  String, Bool, true, false, not, ◌&&◌, if◌then◌else◌, Option, none, some, codes, find_first, holds,
}
use entigram.Base.Json.{
  Json, string, object, null, Entries, empty, entry, get, get_text, get_object,
}
use entigram.Admission.{is_identifier}
use entigram.Trust.{
  Crypto, Document, Signer, Key, Fault, Result, ok, failed, is_active, has_key_id, _find_signer,
  put, assertion_missing, assertion_type_unsupported, signer_untrusted, key_untrusted,
  key_not_active, claims_not_object, assertion_invalid,
}

-- the `payload` of an assertion, over which its signature is
abbrev pub payload_of : String → String → Json → Entries → Json
payload_of kind signer_id key_id claims = object (
    entry "type" (string "entigram.identity.ed25519.v1") (
      entry "kind" (string kind) (
        entry "signer_id" (string signer_id)
          (entry "key_id" key_id (entry "claims" (object claims) empty)))))

abbrev pub enriched : String → Json → Entries → Entries
enriched signer_id key_id claims = put "_key_id" key_id (put "_signer_id" (string signer_id) claims)

abbrev supplied : Option Json → Json
supplied none = null
supplied (some v) = v

module _ (c : Crypto) (kind : String) (require_active : Bool) (artifact : Entries) where
  unfoldable pub verify_claims : String → Key → Result Entries
  unfolding put
  verify_claims signer_id key = elim (get_object "claims" artifact) [
    | none ↦ failed claims_not_object
    | some claims ↦
        if c.verifies key.public_key (get "signature" artifact)
          (payload_of kind signer_id (supplied (get "key_id" artifact)) claims)
        then ok (enriched signer_id (supplied (get "key_id" artifact)) claims)
        else failed assertion_invalid
  ]

  unfoldable pub verify_key : String → Signer → Result Entries
  unfolding verify_claims
  verify_key signer_id signer =
      elim (find_first (has_key_id (get_text "key_id" artifact)) signer.keys) [
        | none ↦ failed key_untrusted
        | some key ↦
            if require_active && not (is_active key)
            then failed (key_not_active key.state)
            else verify_claims signer_id key
      ]

  unfoldable pub verify_signer : Document → String → Result Entries
  unfolding verify_key
  verify_signer document signer_id = elim (_find_signer document.signers signer_id) [
    | none ↦ failed signer_untrusted
    | some signer ↦ verify_key signer_id signer
  ]

  -- The checks behind the guards on type and kind. `loaded` is the document, or the fault that
  -- `load` raised, which is caught.
  unfoldable pub verify_entries : Result Document → Result Entries
  unfolding verify_signer
  verify_entries loaded =
      if not (
        holds (get_text "type" artifact) "entigram.identity.ed25519.v1"
        && holds (get_text "kind" artifact) kind)
      then failed assertion_type_unsupported
      else elim (get_text "signer_id" artifact) [
        | none ↦ failed assertion_invalid
        | some signer_id ↦
            if not (is_identifier (codes signer_id))
            then failed assertion_invalid
            else elim loaded [
              | failed _ ↦ failed assertion_invalid
              | ok document ↦ verify_signer document signer_id
            ]
      ]

unfoldable pub _verify_personal_assertion :
    Crypto → Json → String → Document → Bool → Result Entries
unfolding verify_entries
_verify_personal_assertion c (object artifact) kind document require_active =
    verify_entries c kind require_active artifact (ok document)
_verify_personal_assertion c _ kind document require_active = failed assertion_missing

-- `verify(artifact, kind)`; the document is loaded again at each call
unfoldable pub verify : Crypto → Json → String → Result Document → Result Entries
unfolding verify_entries
verify c (object artifact) kind loaded = verify_entries c kind true artifact loaded
verify c _ kind loaded = failed assertion_missing
