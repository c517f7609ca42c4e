-- ===== src/Trust/Attestations/Laws.antt =====
-- When the attestation of an agent is taken.
use entigram.Base.{
  ℕ, String, true, ◌≡◌, ◌↔◌, ◌≤◌, ◌<◌, ◌+◌, refl, ◌==◌, ◌&&◌, none, some, arith, codes, find_first,
  holds, contains, inl, inr, Option-cases,
}
use entigram.Base.Json.{
  Json, null, boolean, number, string, array, object, Entries, get, get_text, get_object,
}
use entigram.Admission.{is_identifier}
use entigram.Trust.{
  Crypto, Document, Agent, Key, ok, is_active, has_key_id, is_version, _find_signer, _find_agent,
}
use entigram.Trust.Attestations.{
  Attested, agent_payload, supplied, attested_claims, is_named, is_owner_active, time_fault,
  period_fault, request_fault, claims_fault, attested_by, attesting_key, attesting_agent,
  attestation_of, verify_agent_attestation,
}

-- claims for this request, that are current, and a version that is enrolled
pub record IsClaim (c : Crypto) (request : Attested) (agent : Agent) (agent_id runtime : String)
    (claims : Entries) : Type 0 where
  pub subject :
      holds (get_text "agent_id" claims) agent_id && holds (get_text "runtime" claims) runtime
      ≡ true
  pub version : String
  pub versioned : get_text "version" claims ≡ some version
  pub well_formed : is_version (codes version) ≡ true
  pub allowed : contains agent.allowed_versions version ≡ true
  pub action : holds (get_text "action_name" claims) request.action_name ≡ true
  pub request_named : holds (get_text "request_id" claims) request.request_id ≡ true
  pub digest : holds (get_text "request_digest" claims) request.request_digest ≡ true
  pub names :
      is_named (get_text "attestation_id" claims) && is_named (get_text "nonce" claims) ≡ true
  pub issued : ℕ
  pub issued_at : c.parse_timestamp (get "issued_at" claims) ≡ some issued
  pub expires : ℕ
  pub expires_at : c.parse_timestamp (get "expires_at" claims) ≡ some expires
  pub not_future : issued ≤ request.now + 60000000
  pub short_lived : expires ≤ issued + 900000000
  pub later : issued < expires
  pub current : request.now < expires

-- an artifact that an enrolled agent's active key signed over such claims
pub record IsAttested (c : Crypto) (request : Attested) (document : Document) (artifact : Json)
    (result : Entries) : Type 0 where
  pub entries : Entries
  pub is_object : artifact ≡ object entries
  pub typed : holds (get_text "type" entries) "entigram.agent-attestation.ed25519.v1" ≡ true
  pub of_kind : holds (get_text "kind" entries) "action_request" ≡ true
  pub agent_id : String
  pub named : get_text "agent_id" entries ≡ some agent_id
  pub runtime : String
  pub run_on : get_text "runtime" entries ≡ some runtime
  pub identifiers : is_identifier (codes agent_id) && is_identifier (codes runtime) ≡ true
  pub agent : Agent
  pub enrolled : _find_agent document.agents agent_id ≡ some agent
  pub same_runtime : agent.runtime == runtime ≡ true
  pub owner_active : is_owner_active (_find_signer document.signers agent.owner_id) ≡ true
  pub key : Key
  pub registered : find_first (has_key_id (get_text "key_id" entries)) agent.keys ≡ some key
  pub in_use : is_active key ≡ true
  pub body : Entries
  pub claimed : get_object "claims" entries ≡ some body
  pub signed :
      c.verifies key.public_key
        (get "signature" entries)
        (agent_payload agent_id runtime (supplied (get "key_id" entries)) body)
      ≡ true
  pub claims : IsClaim c request agent agent_id runtime body
  pub returned :
      result ≡ attested_claims agent agent_id runtime (supplied (get "key_id" entries)) body

module _ (c : Crypto) (request : Attested) where
  claims-IsClaim :
      (agent : Agent) (agent_id runtime : String) (claims : Entries)
      → claims_fault c request agent agent_id runtime claims ≡ none
      → IsClaim c request agent agent_id runtime claims
  unfolding claims_fault request_fault period_fault time_fault
  claims-IsClaim agent agent_id runtime claims h = elim (Option-cases (get_text "version" claims)) [
    | inl e ↦ absurd (ground arith)
    | inr (version, v) ↦ elim (Option-cases (c.parse_timestamp (get "issued_at" claims))) [
      | inl e ↦ absurd (ground arith)
      | inr (issued, i) ↦ elim (Option-cases (c.parse_timestamp (get "expires_at" claims))) [
        | inl e ↦ absurd (ground arith)
        | inr (expires, x) ↦ record {
          subject = ground arith;
          version = version;
          versioned = v;
          well_formed = ground arith;
          allowed = ground arith;
          action = ground arith;
          request_named = ground arith;
          digest = ground arith;
          names = ground arith;
          issued = issued;
          issued_at = i;
          expires = expires;
          expires_at = x;
          not_future = ground arith;
          short_lived = ground arith;
          later = ground arith;
          current = ground arith;
        }
      ]
    ]
  ]

  IsClaim-claims :
      (agent : Agent) (agent_id runtime : String) (claims : Entries)
      → IsClaim c request agent agent_id runtime claims
      → claims_fault c request agent agent_id runtime claims ≡ none
  unfolding claims_fault request_fault period_fault time_fault
  IsClaim-claims agent agent_id runtime claims h = ground arith

  module _ (document : Document) where
    agent-IsAttested :
        (entries result : Entries) (agent_id runtime : String)
        → get_text "agent_id" entries ≡ some agent_id
        → get_text "runtime" entries ≡ some runtime
        → attestation_of c request entries (ok document) ≡ ok result
        → IsAttested c request document (object entries) result
    unfolding attestation_of attesting_agent attesting_key attested_by
    agent-IsAttested entries result agent_id runtime n r h =
        elim (Option-cases (_find_agent document.agents agent_id)) [
          | inl e ↦ absurd (ground arith)
          | inr (agent, a) ↦
              elim (Option-cases (find_first (has_key_id (get_text "key_id" entries)) agent.keys)) [
                | inl e ↦ absurd (ground arith)
                | inr (key, k) ↦ elim (Option-cases (get_object "claims" entries)) [
                  | inl e ↦ absurd (ground arith)
                  | inr (body, b) ↦ record {
                    entries = entries;
                    is_object = refl;
                    typed = ground arith;
                    of_kind = ground arith;
                    agent_id = agent_id;
                    named = n;
                    runtime = runtime;
                    run_on = r;
                    identifiers = ground arith;
                    agent = agent;
                    enrolled = a;
                    same_runtime = ground arith;
                    owner_active = ground arith;
                    key = key;
                    registered = k;
                    in_use = ground arith;
                    body = body;
                    claimed = b;
                    signed = ground arith;
                    claims = claims-IsClaim agent agent_id runtime body (ground arith);
                    returned = ground arith;
                  }
                ]
              ]
        ]

    entries-IsAttested :
        (entries result : Entries)
        → attestation_of c request entries (ok document) ≡ ok result
        → IsAttested c request document (object entries) result
    unfolding attestation_of
    entries-IsAttested entries result h = elim (Option-cases (get_text "agent_id" entries)) [
      | inl e ↦ absurd (ground arith)
      | inr (agent_id, n) ↦ elim (Option-cases (get_text "runtime" entries)) [
        | inl e ↦ absurd (ground arith)
        | inr (runtime, r) ↦ agent-IsAttested entries result agent_id runtime n r h
      ]
    ]

    attest-IsAttested :
        (artifact : Json) (result : Entries)
        → verify_agent_attestation c request artifact (ok document) ≡ ok result
        → IsAttested c request document artifact result
    unfolding verify_agent_attestation
    attest-IsAttested null result h = absurd (cc)
    attest-IsAttested (boolean _) result h = absurd (cc)
    attest-IsAttested (number _ _) result h = absurd (cc)
    attest-IsAttested (string _) result h = absurd (cc)
    attest-IsAttested (array _) result h = absurd (cc)
    attest-IsAttested (object entries) result h = entries-IsAttested entries result h

    IsAttested-attest :
        (artifact : Json) (result : Entries)
        → IsAttested c request document artifact result
        → verify_agent_attestation c request artifact (ok document) ≡ ok result
    unfolding verify_agent_attestation attestation_of attesting_agent attesting_key attested_by
    IsAttested-attest artifact result s =
        let e = IsClaim-claims s.agent s.agent_id s.runtime s.body s.claims in
        rw s.is_object (ground arith)

    -- An attestation is taken exactly when it names an enrolled agent on its enrolled runtime, whose
    -- owner has an active key; an active key of the agent signed it; and its claims name this
    -- subject, an allowed version, this action and request with this digest, an attestation id and
    -- a nonce, and a life of at most 900 seconds that began at most 60 seconds from now and has not
    -- ended. What is returned are these claims, with the agent, the runtime, the key and the owner.
    pub attest-IsAttested_iff :
        (artifact : Json) (result : Entries)
        → (verify_agent_attestation c request artifact (ok document) ≡ ok result)
          ↔ IsAttested c request document artifact result
    attest-IsAttested_iff artifact result =
        (attest-IsAttested artifact result, IsAttested-attest artifact result)
