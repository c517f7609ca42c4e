-- ===== src/Tests/Registries.antt =====
-- A project with one signer and one agent, whose history revokes a grant and then a key.
use entigram.Base.{
  ℕ, String, Bool, false, ◌≡◌, refl, Option, none, some, [], ◌∷◌, ◌==◌, eqb, if◌then◌else◌,
}
use entigram.Base.Json.{Json, string, object, Entries, empty, entry, get_text, get_object}
use entigram.Trust.{
  KeyState, Key, Signer, Agent, Rule, Change, Event, Root, Document, Crypto, revoke_grant,
  revoke_key, ok, _signer_has_role,
}
use entigram.Trust.Changes.{Applied, _apply_state_change}
use entigram.Trust.Edits.{new_key}
use entigram.Trust.History.{state_of, replay}
use entigram.Trust.History.Permanence.{IsOwnHistory}
use entigram.Trust.Registry.{PersonalIdentity, AgentIdentity}

abbrev pub grant_rule : Rule
grant_rule = record { minimum = 1; roles = "trust_admin" ∷ [] }

abbrev pub alice_key : Key
alice_key = new_key "key-a" "public-a" "t0"

abbrev pub alice : Signer
alice = record {
  signer_id = "alice";
  roles = "trust_admin" ∷ "recovery_admin" ∷ "authority_issuer" ∷ [];
  keys = alice_key ∷ [];
}

abbrev pub bot : Agent
bot = record {
  agent_id = "bot";
  owner_id = "alice";
  runtime = "cli";
  allowed_versions = "1.0" ∷ [];
  keys = new_key "key-b" "public-b" "t0" ∷ [];
}

abbrev pub root : Root
root = record {
  project_id = "project";
  created_at = "t0";
  quorum = record { trust_change = grant_rule; recovery = grant_rule };
  signers = alice ∷ [];
  agents = bot ∷ [];
  revoked_grants = [];
}

-- Signatures verify when they name the public key. Digests tell the versions of a document apart.
abbrev pub times : Option Json → Option ℕ
times (some (string s)) = some (if s == "t0" then 1000000000 else 1500000000)
times _ = none

abbrev pub signature_is : String → Option Json → Json → Bool
signature_is key (some (string s)) payload = s == key
signature_is key _ payload = false

abbrev pub crypto : Crypto
crypto = record {
  verifies = signature_is;
  public_key_id = λ key. some (if key == "public-a" then "key-a" else "key-b");
  digest = λ e. "0123456789abcdef0123456789abcdef0123456789abcdef0123456789abcdef";
  document_digest = λ d. if eqb d.version 1 then "digest-1" else "digest-2";
  root_digest = λ r. "digest-r";
  change_digest = λ ch. ch.change_id;
  event_digest = λ e. e.event_id;
  canonical_quorum = λ q. "quorum";
  canonical_signers = λ s. "signers";
  canonical_agents = λ a. "agents";
  canonical_grants = λ g. "grants";
  parse_timestamp = times;
}

abbrev pub alice_identity : PersonalIdentity
alice_identity = record {
  public_record = record {
    type_name = "entigram.identity-public-key.v1";
    signer_id = "alice";
    key_id = "key-a";
    public_key = "public-a";
  };
  signature_of = λ payload. "public-a";
}

abbrev pub bot_identity : AgentIdentity
bot_identity = record {
  public_record = record {
    type_name = "entigram.agent-public-key.v1";
    agent_id = "bot";
    runtime = "cli";
    key_id = "key-b";
    public_key = "public-b";
  };
  signature_of = λ payload. "public-b";
}

-- what `alice` signs, as an artifact
abbrev pub by_alice : String → Entries → Entries
by_alice kind claims = entry "type" (string "entigram.identity.ed25519.v1") (
    entry "kind" (string kind) (
      entry "signer_id" (string "alice") (
        entry "key_id" (string "key-a")
          (entry "claims" (object claims) (entry "signature" (string "public-a") empty)))))

abbrev pub start : Document
start = state_of root "project" (
    by_alice "trust_root" (
      entry "project_id" (string "project")
        (entry "root_digest" (string "digest-r") (entry "created_at" (string "t0") empty))))

abbrev pub grant_claims : Entries
grant_claims = entry "grant_id" (string "grant-1") (entry "issuer_id" (string "alice") empty)

abbrev pub revocation : Change
revocation = record {
  type_name = "entigram.trust-change.v1";
  change_id = "change-1";
  project_id = "project";
  registry_digest = "digest-1";
  operation = revoke_grant "alice" "grant-1" (by_alice "authority_grant" grant_claims);
  signer_id = none;
  created_at = "t0";
  change_digest = "change-1";
}

abbrev pub key_revocation : Change
key_revocation = record {
  type_name = "entigram.trust-change.v1";
  change_id = "change-2";
  project_id = "project";
  registry_digest = "digest-2";
  operation = revoke_key "alice" "key-a";
  signer_id = none;
  created_at = "t0";
  change_digest = "change-2";
}

abbrev pub approval_of : Change → String → Json
approval_of change operation = object (
    by_alice "trust_change_approval" (
      entry "change_id" (string change.change_id) (
        entry "change_digest" (string change.change_digest) (
          entry "registry_digest" (string change.registry_digest)
            (entry "operation" (string operation) empty)))))

abbrev pub event_1 : Event
event_1 = record {
  event_id = "event-1";
  event_type = "revoke_grant";
  change = revocation;
  approvals = approval_of revocation "revoke_grant" ∷ [];
  approvers = "alice" ∷ [];
  applied_at = "t1";
  event_digest = "event-1";
}

abbrev pub event_2 : Event
event_2 = record {
  event_id = "event-2";
  event_type = "revoke_key";
  change = key_revocation;
  approvals = approval_of key_revocation "revoke_key" ∷ [];
  approvers = "alice" ∷ [];
  applied_at = "t2";
  event_digest = "event-2";
}

abbrev pub revoked_1 : Document
revoked_1 = record start {
  version = 2;
  revoked_grants =
      record {
        grant_id = "grant-1";
        issuer_id = "alice";
        grant_digest = "0123456789abcdef0123456789abcdef0123456789abcdef0123456789abcdef";
        revoked_at = "t1";
        change_id = "change-1";
      }
      ∷ [];
}

abbrev pub after_grant : Document
after_grant = record revoked_1 { events = event_1 ∷ [] }

abbrev pub after_key : Document
after_key = record revoked_1 {
  version = 3;
  signers =
      record alice {
        keys = record alice_key { state = KeyState.revoked; ended_at = some "t2" } ∷ [];
      }
      ∷ [];
  events = event_1 ∷ event_2 ∷ [];
}

abbrev pub applied_1 : Applied
applied_1 = record { document = revoked_1; approvers = "alice" ∷ [] }

pub revocation-applies :
    _apply_state_change crypto start revocation (approval_of revocation "revoke_grant" ∷ []) "t1"
    ≡ ok applied_1
unfolding _apply_state_change get_text get_object _signer_has_role
revocation-applies = refl

pub start-IsOwnHistory : IsOwnHistory crypto start
unfolding replay
start-IsOwnHistory = refl

pub after_grant-IsOwnHistory : IsOwnHistory crypto after_grant
unfolding replay get_text get_object _signer_has_role
after_grant-IsOwnHistory = refl

pub after_key-IsOwnHistory : IsOwnHistory crypto after_key
unfolding replay get_text get_object _signer_has_role
after_key-IsOwnHistory = refl
