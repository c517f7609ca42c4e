-- ===== src/Trust/Changes/Moves.antt =====
-- What a change can do to a document: it adds or alters one signer or one agent, or revokes a grant.
use entigram.Base.{
  String, ◌≡◌, refl, ◌++◌, List, [], ◌∷◌, arith, change_first, map, strip_text, inl, inr,
  Option-cases,
}
use entigram.Trust.{
  Crypto, Document, Signer, Agent, Key, KeyState, RevokedGrant, Operation, ok, _find_signer,
  _find_agent, add_signer, rotate_key, recover_key, revoke_key, revoke_grant, enroll_agent,
  add_agent_version, remove_agent_version, rotate_agent_key, revoke_agent_key,
}
use entigram.Trust.Edits.{
  is_key, new_key, sort_texts, remove_first, ended, end_active, with_signer, with_agent,
  enrolled_signer, replaced_key, revoked_key, revoked_grant, enrolled_agent, added_version,
  removed_version, replaced_agent_key, revoked_agent_key,
}
use entigram.Trust.Changes.{altered}
use entigram.Trust.Changes.Keys.{IsOut, IsOut-append, end_active-IsOut, change_first-IsOut}

-- an edit of a holder that keeps the name, and revives no key
pub record IsCareful {H : Type 0} (name : H → String) (keys : H → List Key) (f : H → H)
    : Type 0 where
  pub same_name : (h : H) → name (f h) ≡ name h
  pub keeps_out : (id : String) (h : H) → IsOut id (keys h) → IsOut id (keys (f h))

pub data Move (c : Crypto) (d e : Document) : Type 0 where
  signer_added : (s : Signer) → e ≡ record d { signers = d.signers ++ s ∷ [] } → Move c d e
  signer_changed :
      (id : String) (f : Signer → Signer)
      → IsCareful (λ (s : Signer). s.signer_id) (λ (s : Signer). s.keys) f
      → e ≡ with_signer c d id f
      → Move c d e
  agent_added : (a : Agent) → e ≡ record d { agents = d.agents ++ a ∷ [] } → Move c d e
  agent_changed :
      (id : String) (f : Agent → Agent)
      → IsCareful (λ (a : Agent). a.agent_id) (λ (a : Agent). a.keys) f
      → e ≡ with_agent c d id f
      → Move c d e
  grant_revoked :
      (g : RevokedGrant) → e ≡ record d { revoked_grants = d.revoked_grants ++ g ∷ [] } → Move c d e

IsCareful-replaced :
    (state : KeyState) (at : String) (k : Key)
    → IsCareful
        (λ (s : Signer). s.signer_id)
        (λ (s : Signer). s.keys)
        (λ (s : Signer). record s { keys = end_active state at s.keys ++ k ∷ [] })
IsCareful-replaced state at k = record {
  same_name = λ s. refl;
  keeps_out = λ id s h. IsOut-append id _ k (end_active-IsOut state at id s.keys h);
}

IsCareful-revoked :
    (at key_id : String)
    → IsCareful
        (λ (s : Signer). s.signer_id)
        (λ (s : Signer). s.keys)
        (λ (s : Signer). record s {
          keys = change_first (is_key key_id) (ended KeyState.revoked at) s.keys;
        })
IsCareful-revoked at key_id = record {
  same_name = λ s. refl;
  keeps_out = λ id s h. change_first-IsOut at key_id id s.keys h;
}

IsCareful-replaced_agent :
    (at : String) (k : Key)
    → IsCareful
        (λ (a : Agent). a.agent_id)
        (λ (a : Agent). a.keys)
        (λ (a : Agent). record a { keys = end_active KeyState.retired at a.keys ++ k ∷ [] })
IsCareful-replaced_agent at k = record {
  same_name = λ s. refl;
  keeps_out = λ id s h. IsOut-append id _ k (end_active-IsOut KeyState.retired at id s.keys h);
}

IsCareful-revoked_agent :
    (at key_id : String)
    → IsCareful
        (λ (a : Agent). a.agent_id)
        (λ (a : Agent). a.keys)
        (λ (a : Agent). record a {
          keys = change_first (is_key key_id) (ended KeyState.revoked at) a.keys;
        })
IsCareful-revoked_agent at key_id = record {
  same_name = λ s. refl;
  keeps_out = λ id s h. change_first-IsOut at key_id id s.keys h;
}

IsCareful-versions :
    (f : List String → List String)
    → IsCareful
        (λ (a : Agent). a.agent_id)
        (λ (a : Agent). a.keys)
        (λ (a : Agent). record a { allowed_versions = f a.allowed_versions })
IsCareful-versions f = record { same_name = λ s. refl; keeps_out = λ id s h. h }

module _ (c : Crypto) (d : Document) (at : String) (e : Document) where
  pub altered-Move :
      (change_id : String) (op : Operation) → altered c d at change_id op ≡ ok e → Move c d e
  unfolding altered enrolled_signer replaced_key revoked_key revoked_grant enrolled_agent
      added_version removed_version replaced_agent_key revoked_agent_key
  altered-Move change_id (add_signer subject r roles) h =
      signer_added
        (record {
          signer_id = r.signer_id;
          roles = map strip_text roles;
          keys = new_key r.key_id r.public_key at ∷ [];
        })
        (ground arith)
  altered-Move change_id (rotate_key subject r) h =
      elim (Option-cases (_find_signer d.signers subject)) [
        | inl n ↦ absurd (ground arith)
        | inr (s, n) ↦
            signer_changed subject
              (λ (s : Signer). record s {
                keys =
                    end_active KeyState.retired at s.keys ++ new_key r.key_id r.public_key at ∷ [];
              })
              (IsCareful-replaced KeyState.retired at (new_key r.key_id r.public_key at))
              (ground arith)
      ]
  altered-Move change_id (recover_key subject r) h =
      elim (Option-cases (_find_signer d.signers subject)) [
        | inl n ↦ absurd (ground arith)
        | inr (s, n) ↦
            signer_changed subject
              (λ (s : Signer). record s {
                keys =
                    end_active KeyState.revoked at s.keys ++ new_key r.key_id r.public_key at ∷ [];
              })
              (IsCareful-replaced KeyState.revoked at (new_key r.key_id r.public_key at))
              (ground arith)
      ]
  altered-Move change_id (revoke_key subject key_id) h =
      elim (Option-cases (_find_signer d.signers subject)) [
        | inl n ↦ absurd (ground arith)
        | inr (s, n) ↦
            signer_changed subject
              (λ (s : Signer). record s {
                keys = change_first (is_key key_id) (ended KeyState.revoked at) s.keys;
              })
              (IsCareful-revoked at key_id) (ground arith)
      ]
  altered-Move change_id (revoke_grant issuer_id grant_id grant) h =
      grant_revoked
        (record {
          grant_id = grant_id;
          issuer_id = issuer_id;
          grant_digest = c.digest grant;
          revoked_at = at;
          change_id = change_id;
        })
        (ground arith)
  altered-Move change_id (enroll_agent subject owner_id runtime version r) h =
      agent_added
        (record {
          agent_id = r.agent_id;
          owner_id = owner_id;
          runtime = runtime;
          allowed_versions = version ∷ [];
          keys = new_key r.key_id r.public_key at ∷ [];
        })
        (ground arith)
  altered-Move change_id (add_agent_version subject version) h =
      elim (Option-cases (_find_agent d.agents subject)) [
        | inl n ↦ absurd (ground arith)
        | inr (s, n) ↦
            agent_changed subject
              (λ (a : Agent). record a {
                allowed_versions = sort_texts (a.allowed_versions ++ version ∷ []);
              })
              (IsCareful-versions (λ vs. sort_texts (vs ++ version ∷ []))) (ground arith)
      ]
  altered-Move change_id (remove_agent_version subject version) h =
      elim (Option-cases (_find_agent d.agents subject)) [
        | inl n ↦ absurd (ground arith)
        | inr (s, n) ↦
            agent_changed subject
              (λ (a : Agent). record a {
                allowed_versions = remove_first version a.allowed_versions;
              })
              (IsCareful-versions (λ vs. remove_first version vs)) (ground arith)
      ]
  altered-Move change_id (rotate_agent_key subject r) h =
      elim (Option-cases (_find_agent d.agents subject)) [
        | inl n ↦ absurd (ground arith)
        | inr (s, n) ↦
            agent_changed subject
              (λ (s : Agent). record s {
                keys =
                    end_active KeyState.retired at s.keys ++ new_key r.key_id r.public_key at ∷ [];
              })
              (IsCareful-replaced_agent at (new_key r.key_id r.public_key at)) (ground arith)
      ]
  altered-Move change_id (revoke_agent_key subject key_id) h =
      elim (Option-cases (_find_agent d.agents subject)) [
        | inl n ↦ absurd (ground arith)
        | inr (s, n) ↦
            agent_changed subject
              (λ (s : Agent). record s {
                keys = change_first (is_key key_id) (ended KeyState.revoked at) s.keys;
              })
              (IsCareful-revoked_agent at key_id) (ground arith)
      ]
