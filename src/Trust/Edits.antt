-- ===== src/Trust/Edits.antt =====
-- What each operation does to the document: the branches of `_apply_state_change`.
use entigram.Base.{
  ℕ, String, Bool, true, false, not, ◌&&◌, ◌||◌, ◌==◌, ◌++◌, if◌then◌else◌, none, some, List, [],
  ◌∷◌, any, change_first, codes, contains, eqb, find_first, is_blank, is_none, is_some, length, ltb,
  map, strip_text,
}
use entigram.Base.Json.{Entries}
use entigram.Trust.{
  Crypto, Document, Signer, Agent, Key, KeyState, RevokedGrant, PublicRecord, AgentRecord, Result,
  ok, failed, is_active, _find_signer, _find_agent, signer_exists, signer_missing, key_exists,
  key_missing, grant_already_revoked, agent_exists, agent_missing, owner_missing, version_allowed,
  version_not_allowed, version_final, public_record_invalid, roles_invalid, runtime_mismatch,
}
use entigram.Trust.Approvals.{_public_record, _agent_public_record}

-- `<=` of two texts, by code points
abbrev pub text_leb : List ℕ → List ℕ → Bool
text_leb [] t = true
text_leb (a ∷ s) [] = false
text_leb (a ∷ s) (b ∷ t) = ltb a b || (eqb a b && text_leb s t)

abbrev pub insert_text : String → List String → List String
insert_text s [] = s ∷ []
insert_text s (t ∷ ts) =
    let rest = insert_text s ts in if text_leb (codes s) (codes t) then s ∷ t ∷ ts else t ∷ rest

-- `sorted` of texts
unfoldable pub sort_texts : List String → List String
sort_texts [] = []
sort_texts (s ∷ ss) = insert_text s (sort_texts ss)

-- `list.remove`
abbrev pub remove_first : String → List String → List String
remove_first v [] = []
remove_first v (w ∷ ws) = let rest = remove_first v ws in if w == v then ws else w ∷ rest

abbrev pub new_key : String → String → String → Key
new_key key_id public_key at = record {
  key_id = key_id;
  public_key = public_key;
  state = KeyState.active;
  registered_at = at;
  ended_at = none;
}

abbrev pub ended : KeyState → String → Key → Key
ended state at k = record k { state = state; ended_at = some at }

-- the loop that ends the keys in use
abbrev pub end_active : KeyState → String → List Key → List Key
end_active state at keys = map (λ (k : Key). if is_active k then ended state at k else k) keys

abbrev pub is_key : String → Key → Bool
is_key id k = k.key_id == id

module _ (c : Crypto) (document : Document) where
  abbrev pub with_signer : String → (Signer → Signer) → Document
  with_signer id f = record document {
    signers = change_first (λ (s : Signer). s.signer_id == id) f document.signers;
  }

  abbrev pub with_agent : String → (Agent → Agent) → Document
  with_agent id f = record document {
    agents = change_first (λ (a : Agent). a.agent_id == id) f document.agents;
  }

  module _ (at : String) where
    -- `_signer_from_public_record` too, with the `_string_list` of the roles
    unfoldable pub enrolled_signer : String → PublicRecord → List String → Result Document
    enrolled_signer subject r roles =
        if is_some (_find_signer document.signers subject)
        then failed signer_exists
        else if not (_public_record c r)
        then failed public_record_invalid
        else if is_none (find_first (λ s. true) roles) || any (λ s. is_blank (codes s)) roles
        then failed roles_invalid
        else ok (record document {
          signers =
              document.signers
              ++ record {
                signer_id = r.signer_id;
                roles = map strip_text roles;
                keys = new_key r.key_id r.public_key at ∷ [];
              }
                ∷ [];
        })

    -- `rotate_key` retires the keys in use, `recover_key` revokes them
    unfoldable pub replaced_key : KeyState → String → PublicRecord → Result Document
    replaced_key state subject r = elim (_find_signer document.signers subject) [
      | none ↦ failed signer_missing
      | some signer ↦
          if any (is_key r.key_id) signer.keys
          then failed key_exists
          else if not (_public_record c r)
          then failed public_record_invalid
          else ok (
              with_signer subject (λ (s : Signer). record s {
                keys = end_active state at s.keys ++ new_key r.key_id r.public_key at ∷ [];
              }))
    ]

    unfoldable pub revoked_key : String → String → Result Document
    revoked_key subject key_id = elim (_find_signer document.signers subject) [
      | none ↦ failed signer_missing
      | some signer ↦
          if is_none (find_first (is_key key_id) signer.keys)
          then failed key_missing
          else ok (
              with_signer subject (λ (s : Signer). record s {
                keys = change_first (is_key key_id) (ended KeyState.revoked at) s.keys;
              }))
    ]

    unfoldable pub revoked_grant : String → String → String → Entries → Result Document
    revoked_grant change_id issuer_id grant_id grant =
        if any (λ (g : RevokedGrant). g.grant_id == grant_id) document.revoked_grants
        then failed grant_already_revoked
        else ok (record document {
          revoked_grants =
              document.revoked_grants
              ++ record {
                grant_id = grant_id;
                issuer_id = issuer_id;
                grant_digest = c.digest grant;
                revoked_at = at;
                change_id = change_id;
              }
                ∷ [];
        })

    unfoldable pub enrolled_agent :
        String → String → String → String → AgentRecord → Result Document
    enrolled_agent subject owner_id runtime version r =
        if is_some (_find_agent document.agents subject)
        then failed agent_exists
        else if is_none (_find_signer document.signers owner_id)
        then failed owner_missing
        else if not (_agent_public_record c r)
        then failed public_record_invalid
        else if not (r.runtime == runtime)
        then failed runtime_mismatch
        else ok (record document {
          agents =
              document.agents
              ++ record {
                agent_id = r.agent_id;
                owner_id = owner_id;
                runtime = runtime;
                allowed_versions = version ∷ [];
                keys = new_key r.key_id r.public_key at ∷ [];
              }
                ∷ [];
        })

    unfoldable pub added_version : String → String → Result Document
    unfolding sort_texts
    added_version subject version = elim (_find_agent document.agents subject) [
      | none ↦ failed agent_missing
      | some agent ↦
          if contains agent.allowed_versions version
          then failed version_allowed
          else ok (
              with_agent subject (λ (a : Agent). record a {
                allowed_versions = sort_texts (a.allowed_versions ++ version ∷ []);
              }))
    ]

    unfoldable pub removed_version : String → String → Result Document
    removed_version subject version = elim (_find_agent document.agents subject) [
      | none ↦ failed agent_missing
      | some agent ↦
          if not (contains agent.allowed_versions version)
          then failed version_not_allowed
          else if eqb (length agent.allowed_versions) 1
          then failed version_final
          else ok (
              with_agent subject (λ (a : Agent). record a {
                allowed_versions = remove_first version a.allowed_versions;
              }))
    ]

    unfoldable pub replaced_agent_key : String → AgentRecord → Result Document
    replaced_agent_key subject r = elim (_find_agent document.agents subject) [
      | none ↦ failed agent_missing
      | some agent ↦
          if not (_agent_public_record c r)
          then failed public_record_invalid
          else if not (r.runtime == agent.runtime)
          then failed runtime_mismatch
          else if any (is_key r.key_id) agent.keys
          then failed key_exists
          else ok (
              with_agent subject (λ (a : Agent). record a {
                keys =
                    end_active KeyState.retired at a.keys ++ new_key r.key_id r.public_key at ∷ [];
              }))
    ]

    unfoldable pub revoked_agent_key : String → String → Result Document
    revoked_agent_key subject key_id = elim (_find_agent document.agents subject) [
      | none ↦ failed agent_missing
      | some agent ↦
          if is_none (find_first (is_key key_id) agent.keys)
          then failed key_missing
          else ok (
              with_agent subject (λ (a : Agent). record a {
                keys = change_first (is_key key_id) (ended KeyState.revoked at) a.keys;
              }))
    ]
