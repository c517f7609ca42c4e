-- ===== src/Trust/Registry/Signing.antt =====
-- What an identity signs, the registry verifies.
use entigram.Base.{
  String, true, ◌≡◌, refl, ◌==◌, ◌&&◌, some, [], ◌∷◌, arith, codes, find_first, eq_refl,
}
use entigram.Base.Json.{Json, string, Entries, get, get_text, get_object}
use entigram.Admission.{is_identifier}
use entigram.Trust.{
  Crypto, Document, Signer, Agent, Key, Change, ok, has_key_id, is_active, _find_signer,
  _find_agent,
}
use entigram.Trust.Approvals.{binds, operation_name, add_approver, _validate_approvals}
use entigram.Trust.Assertions.{payload_of, enriched, _verify_personal_assertion}
use entigram.Trust.Assertions.Laws.{
  IsSigned, verify-IsSigned_iff, get_text-enriched, get_text-enriched_other,
}
use entigram.Trust.Attestations.{
  Attested, agent_payload, attested_claims, is_owner_active, verify_agent_attestation,
}
use entigram.Trust.Attestations.Laws.{IsClaim, attest-IsAttested_iff}
use entigram.Trust.Registry.{
  PersonalIdentity, AgentIdentity, sign, sign_request, approval_claims, approve_change,
}

-- an identity whose public key is enrolled for its signer and in use
pub record IsEnrolled (d : Document) (identity : PersonalIdentity) : Type 0 where
  pub identifier : is_identifier (codes identity.public_record.signer_id) ≡ true
  pub signer : Signer
  pub enrolled : _find_signer d.signers identity.public_record.signer_id ≡ some signer
  pub key : Key
  pub registered :
      find_first (has_key_id (some identity.public_record.key_id)) signer.keys ≡ some key
  pub same_key : key.public_key ≡ identity.public_record.public_key
  pub in_use : is_active key ≡ true

-- the same of an agent
pub record IsAgentEnrolled (d : Document) (identity : AgentIdentity) : Type 0 where
  pub identifiers :
      is_identifier (codes identity.public_record.agent_id)
        && is_identifier (codes identity.public_record.runtime)
      ≡ true
  pub agent : Agent
  pub enrolled : _find_agent d.agents identity.public_record.agent_id ≡ some agent
  pub runtime : agent.runtime == identity.public_record.runtime ≡ true
  pub owner_active : is_owner_active (_find_signer d.signers agent.owner_id) ≡ true
  pub key : Key
  pub registered :
      find_first (has_key_id (some identity.public_record.key_id)) agent.keys ≡ some key
  pub same_key : key.public_key ≡ identity.public_record.public_key
  pub in_use : is_active key ≡ true

module _ (c : Crypto) (d : Document) where
  -- the claims that `approve_change` signs are those of its change
  enriched-binds :
      (change : Change) (uuid at signer_id : String) (key_id : Json)
      → binds c change (enriched signer_id key_id (approval_claims c change uuid at)) ≡ true
  unfolding binds get_text get
  enriched-binds change uuid at signer_id key_id =
      let claims = approval_claims c change uuid at in
      rw
        (
          get_text-enriched_other "change_id" signer_id key_id claims refl refl,
          get_text-enriched_other "change_digest" signer_id key_id claims refl refl,
          get_text-enriched_other "registry_digest" signer_id key_id claims refl refl,
          get_text-enriched_other "operation" signer_id key_id claims refl refl,
        )
        (ground (
          arith,
          eq_refl change.change_id,
          eq_refl change.change_digest,
          eq_refl change.registry_digest,
          eq_refl (operation_name change.operation),
        ))

  module _ (identity : PersonalIdentity) where
    sign-IsSigned :
        (kind : String) (claims : Entries)
        → ((payload : Json)
            → c.verifies identity.public_record.public_key
                (some (string (identity.signature_of payload)))
                payload
              ≡ true)
        → IsEnrolled d identity
        → IsSigned c kind true d (sign identity kind claims) (
            enriched identity.public_record.signer_id (string identity.public_record.key_id) claims)
    unfolding sign get_text get_object get
    sign-IsSigned kind claims honest k =
        let r = identity.public_record in
        record {
          entries = _;
          is_object = refl;
          typed = refl;
          of_kind = eq_refl kind;
          signer_id = r.signer_id;
          named = refl;
          identifier = k.identifier;
          signer = k.signer;
          enrolled = k.enrolled;
          key = k.key;
          registered = k.registered;
          in_use = λ _. k.in_use;
          body = claims;
          claimed = refl;
          signed = rw k.same_key (honest (payload_of kind r.signer_id (string r.key_id) claims));
          result = refl;
        }

    -- What a person signs with a key that the document enrolls and has in use is verified, for any kind
    -- and claims, and comes back with the signer and the key; if the signature is one that the public
    -- key verifies.
    pub sign-verified :
        (kind : String) (claims : Entries)
        → ((payload : Json)
            → c.verifies identity.public_record.public_key
                (some (string (identity.signature_of payload)))
                payload
              ≡ true)
        → IsEnrolled d identity
        → _verify_personal_assertion c (sign identity kind claims) kind d true
          ≡ ok (
              enriched identity.public_record.signer_id
                (string identity.public_record.key_id)
                claims)
    sign-verified kind claims honest k =
        (verify-IsSigned_iff c kind true d (sign identity kind claims) _).1
          (sign-IsSigned kind claims honest k)

    -- An approval that `approve_change` makes counts: its signer is an approver of that change, if the key
    -- is enrolled and in use and its signatures verify.
    pub approve_change-counts :
        (change : Change) (uuid at : String) (artifact : Json)
        → ((payload : Json)
            → c.verifies identity.public_record.public_key
                (some (string (identity.signature_of payload)))
                payload
              ≡ true)
        → IsEnrolled d identity
        → approve_change c change identity uuid at ≡ ok artifact
        → _validate_approvals c change d [] (artifact ∷ []) ≡ identity.public_record.signer_id ∷ []
    unfolding approve_change _validate_approvals add_approver
    approve_change-counts change uuid at artifact honest k h =
        let v = sign-verified "trust_change_approval" (approval_claims c change uuid at) honest k in
        let a : artifact
            ≡ sign identity "trust_change_approval" (approval_claims c change uuid at) =
          ground arith in
        let r = identity.public_record in
        let b = enriched-binds change uuid at r.signer_id (string r.key_id) in
        let n =
          get_text-enriched r.signer_id (string r.key_id) (approval_claims c change uuid at) in
        rw a (ground arith)

  -- An action request that an enrolled agent signs is taken, if its claims are for this request and
  -- current, its key is in use, its owner active, and its signatures verify.
  pub sign_request-verified :
      (request : Attested) (identity : AgentIdentity) (claims : Entries)
      → ((payload : Json)
          → c.verifies identity.public_record.public_key
              (some (string (identity.signature_of payload)))
              payload
            ≡ true)
      → (k : IsAgentEnrolled d identity)
      → IsClaim c request k.agent identity.public_record.agent_id identity.public_record.runtime
          claims
      → verify_agent_attestation c request (sign_request identity claims) (ok d)
        ≡ ok (
            attested_claims k.agent identity.public_record.agent_id identity.public_record.runtime
              (string identity.public_record.key_id)
              claims)
  unfolding sign_request get_text get_object get
  sign_request-verified request identity claims honest k claim =
      let r = identity.public_record in
      (attest-IsAttested_iff c request d (sign_request identity claims) _).1 (record {
        entries = _;
        is_object = refl;
        typed = refl;
        of_kind = refl;
        agent_id = r.agent_id;
        named = refl;
        runtime = r.runtime;
        run_on = refl;
        identifiers = k.identifiers;
        agent = k.agent;
        enrolled = k.enrolled;
        same_runtime = k.runtime;
        owner_active = k.owner_active;
        key = k.key;
        registered = k.registered;
        in_use = k.in_use;
        body = claims;
        claimed = refl;
        signed =
            rw k.same_key (honest (agent_payload r.agent_id r.runtime (string r.key_id) claims));
        claims = claim;
        returned = refl;
      })
