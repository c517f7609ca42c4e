-- ===== src/Trust/Changes/Frame.antt =====
-- What an applied change leaves as it was: the root and the rules, keys that are out of use, and
-- the grants that are revoked.
use entigram.Base.{
  String, Bool, true, ◌≡◌, ap, ◌==◌, ◌++◌, ◌+◌, List, [], ◌∷◌, arith, is_some, find_first,
}
use entigram.Base.Json.{Json}
use entigram.Trust.{Crypto, Document, Signer, Agent, RevokedGrant, Change, ok}
use entigram.Trust.Changes.{Applied, acting, _apply_state_change}
use entigram.Trust.Changes.Consent.{apply-IsConsented}
use entigram.Trust.Changes.Keys.{IsOutOf, IsOutOf-append, change_first-IsOutOf}
use entigram.Trust.Changes.Moves.{
  Move, signer_added, signer_changed, agent_added, agent_changed, grant_revoked, altered-Move,
}

-- a key of that id is enrolled for that signer, or that agent, and is retired or revoked
abbrev pub IsSignerKeyOut : String → String → Document → Type 0
IsSignerKeyOut holder id d =
    IsOutOf (λ (s : Signer). s.signer_id) (λ (s : Signer). s.keys) holder id d.signers

abbrev pub IsAgentKeyOut : String → String → Document → Type 0
IsAgentKeyOut holder id d =
    IsOutOf (λ (a : Agent). a.agent_id) (λ (a : Agent). a.keys) holder id d.agents

abbrev pub is_listed : String → List RevokedGrant → Bool
is_listed grant_id gs = is_some (find_first (λ (g : RevokedGrant). g.grant_id == grant_id) gs)

-- what ends for good: a key of a signer or of an agent, by the ids of holder and key, or a grant
pub data Ended : Type 0 where
  signer_key agent_key : String → String → Ended
  grant : String → Ended

abbrev pub IsEnded : Ended → Document → Type 0
IsEnded (signer_key holder id) d = IsSignerKeyOut holder id d
IsEnded (agent_key holder id) d = IsAgentKeyOut holder id d
IsEnded (grant id) d = is_listed id d.revoked_grants ≡ true

-- the parts that no change touches, and the version, which counts the changes
pub record IsFramed (d e : Document) : Type 0 where
  pub root : e.root ≡ d.root
  pub project : e.project_id ≡ d.project_id
  pub root_signature : e.root_signature ≡ d.root_signature
  pub quorum : e.quorum ≡ d.quorum
  pub format : e.format ≡ d.format
  pub events : e.events ≡ d.events
  pub version : e.version ≡ d.version + 1

-- the document without its signers, agents and revoked grants
abbrev parts : Document → Document
parts d = record d { signers = []; agents = []; revoked_grants = [] }

is_listed-append :
    (grant_id : String) (gs : List RevokedGrant) (g : RevokedGrant)
    → is_listed grant_id gs ≡ true
    → is_listed grant_id (gs ++ g ∷ []) ≡ true
is_listed-append grant_id [] g h = ground arith
is_listed-append grant_id (f ∷ gs) g h = ground (arith, is_listed-append grant_id gs g)

module _ (c : Crypto) (d e : Document) where
  edit-IsSignerKeyOut :
      (holder id : String) → Move c d e → IsSignerKeyOut holder id d → IsSignerKeyOut holder id e
  edit-IsSignerKeyOut holder id (signer_added s p) h =
      rw p (IsOutOf-append _ _ holder id d.signers s h)
  edit-IsSignerKeyOut holder id (signer_changed other f careful p) h = rw p (
      change_first-IsOutOf _ _ f careful.same_name holder id (careful.keeps_out id) other d.signers
        h)
  edit-IsSignerKeyOut holder id (agent_added a p) h = rw p h
  edit-IsSignerKeyOut holder id (agent_changed _ _ _ p) h = rw p h
  edit-IsSignerKeyOut holder id (grant_revoked _ p) h = rw p h

  edit-IsAgentKeyOut :
      (holder id : String) → Move c d e → IsAgentKeyOut holder id d → IsAgentKeyOut holder id e
  edit-IsAgentKeyOut holder id (signer_added s p) h = rw p h
  edit-IsAgentKeyOut holder id (signer_changed _ _ _ p) h = rw p h
  edit-IsAgentKeyOut holder id (agent_added a p) h =
      rw p (IsOutOf-append _ _ holder id d.agents a h)
  edit-IsAgentKeyOut holder id (agent_changed other f careful p) h = rw p (
      change_first-IsOutOf _ _ f careful.same_name holder id (careful.keeps_out id) other d.agents
        h)
  edit-IsAgentKeyOut holder id (grant_revoked _ p) h = rw p h

  edit-is_listed :
      (grant_id : String)
      → Move c d e
      → is_listed grant_id d.revoked_grants ≡ true
      → is_listed grant_id e.revoked_grants ≡ true
  edit-is_listed grant_id (signer_added s p) h = rw p h
  edit-is_listed grant_id (signer_changed _ _ _ p) h = rw p h
  edit-is_listed grant_id (agent_added a p) h = rw p h
  edit-is_listed grant_id (agent_changed _ _ _ p) h = rw p h
  edit-is_listed grant_id (grant_revoked g p) h =
      rw p (is_listed-append grant_id d.revoked_grants g h)

  edit-IsEnded :
      (x : Ended) → Move c d e → IsEnded x d → IsEnded x (record e { version = e.version + 1 })
  edit-IsEnded (signer_key holder id) m o = edit-IsSignerKeyOut holder id m o
  edit-IsEnded (agent_key holder id) m o = edit-IsAgentKeyOut holder id m o
  edit-IsEnded (grant id) m o = edit-is_listed id m o

  edit-parts : Move c d e → parts e ≡ parts d
  edit-parts (signer_added _ p) = ap parts p
  edit-parts (signer_changed _ _ _ p) = ap parts p
  edit-parts (agent_added _ p) = ap parts p
  edit-parts (agent_changed _ _ _ p) = ap parts p
  edit-parts (grant_revoked _ p) = ap parts p

  edit-IsFramed : Move c d e → IsFramed d (record e { version = e.version + 1 })
  edit-IsFramed m =
      let q = edit-parts m in
      record {
        root = ap (λ t. t.root) q;
        project = ap (λ t. t.project_id) q;
        root_signature = ap (λ t. t.root_signature) q;
        quorum = ap (λ t. t.quorum) q;
        format = ap (λ t. t.format) q;
        events = ap (λ t. t.events) q;
        version = ap (λ t. t.version + 1) q;
      }

module _ (c : Crypto) (d : Document) (change : Change) (approvals : List Json) (at : String)
    (applied : Applied) where
  pub apply-IsEnded :
      (x : Ended)
      → _apply_state_change c d change approvals at ≡ ok applied
      → IsEnded x d
      → IsEnded x applied.document
  apply-IsEnded x h o =
      let k = apply-IsConsented c d change approvals at applied h in
      let m =
        altered-Move c d at k.next change.change_id (acting change.signer_id change.operation)
          k.edited in
      rw k.result (edit-IsEnded c d k.next x m o)

  pub apply-IsFramed :
      _apply_state_change c d change approvals at ≡ ok applied → IsFramed d applied.document
  apply-IsFramed h =
      let k = apply-IsConsented c d change approvals at applied h in
      let m =
        altered-Move c d at k.next change.change_id (acting change.signer_id change.operation)
          k.edited in
      rw k.result (edit-IsFramed c d k.next m)
