-- ===== src/Tests/Trusts.antt =====
-- The theorems on the trust registry, at a project that revokes a grant and then a signer's key.
use entigram.Base.{
  if◌then◌else◌, true, false, ◌≡◌, ◌↔◌, refl, none, some, [], ◌∷◌, arith, eq_iff, is_blank,
  strip_text,
}
use entigram.Base.Json.{Json, string, object, Entries, empty, entry, get_text, get_object}
use entigram.Admission.{Request, is_identifier}
use entigram.Admission.Engine.{validate}
use entigram.Tests.Actions.{local, request}
use entigram.Tests.Registries.{
  crypto, start, after_grant, after_key, revoked_1, applied_1, revocation, approval_of, alice,
  alice_key, bot, by_alice, grant_claims, alice_identity, bot_identity, event_1, event_2,
  revocation-applies, start-IsOwnHistory, after_grant-IsOwnHistory, after_key-IsOwnHistory,
}
use entigram.Trust.{
  failed, state_invalid, Anchor, Document, ok, failed, registry_changed, _signer_has_role,
  is_version,
}
use entigram.Trust.Approvals.{_validate_approvals}
use entigram.Trust.Attestations.{Attested, verify_agent_attestation, attested_claims}
use entigram.Trust.Attestations.Laws.{IsClaim, IsAttested, attest-IsAttested_iff}
use entigram.Trust.Changes.{_apply_state_change}
use entigram.Trust.Changes.Consent.{IsConsented, apply-IsConsented}
use entigram.Trust.Changes.Frame.{grant, IsEnded}
use entigram.Trust.History.{_verify_history, apply_change, event_of, _validate_root, _verify_anchor}
use entigram.Trust.History.Permanence.{IsLater, later-IsEnded, apply-once}
use entigram.Trust.History.Selfcheck.{IsSound, with_event, apply_change-settles}
use entigram.Trust.Registry.{sign, sign_request, approve_change, anchor_of, approval_claims}
use entigram.Trust.Registry.Admission.{with_registry, RestsOn, ended-never_admits}
use entigram.Trust.Registry.Signing.{
  IsEnrolled, IsAgentEnrolled, approve_change-counts, sign_request-verified,
}
use entigram.Trust.State.{_validate_state}

abbrev later : IsLater after_grant after_key
later = record {
  root = refl;
  project = refl;
  root_signature = refl;
  more = event_2 ∷ [];
  events = refl;
}

abbrev from_start : IsLater start after_grant
from_start = record {
  root = refl;
  project = refl;
  root_signature = refl;
  more = event_1 ∷ [];
  events = refl;
}

-- a request whose authority is the grant that `alice` signed, which is revoked
abbrev on_grant : Request
on_grant = record request { authority = object (by_alice "authority_grant" grant_claims) }

on_grant-RestsOn : RestsOn (grant "grant-1") on_grant
unfolding get_object get_text
on_grant-RestsOn = (by_alice "authority_grant" grant_claims, grant_claims, refl, refl, refl, refl)

ended-never_admits_example :
    (validate (with_registry crypto after_key local) "release" on_grant 1000000000).ok ≡ false
ended-never_admits_example =
    ended-never_admits crypto local "release" on_grant 1000000000 (grant "grant-1") after_grant
      after_key after_grant-IsOwnHistory after_key-IsOwnHistory later refl on_grant-RestsOn

apply-IsConsented_example :
    IsConsented crypto start revocation (approval_of revocation "revoke_grant" ∷ []) "t1" applied_1
apply-IsConsented_example =
    apply-IsConsented crypto start revocation (approval_of revocation "revoke_grant" ∷ []) "t1"
      applied_1 revocation-applies

later-IsEnded_example : IsEnded (grant "grant-1") after_key
later-IsEnded_example =
    later-IsEnded crypto (grant "grant-1") after_grant after_key after_grant-IsOwnHistory
      after_key-IsOwnHistory later refl

apply-once_example :
    _apply_state_change crypto after_grant revocation
      (approval_of revocation "revoke_grant" ∷ [])
      "t9"
    ≡ failed registry_changed
apply-once_example =
    apply-once crypto start after_grant revocation (approval_of revocation "revoke_grant" ∷ [])
      (approval_of revocation "revoke_grant" ∷ []) "t1" "t9" applied_1 from_start start-IsOwnHistory
      after_grant-IsOwnHistory (λ e. ground arith)
      (λ e. ground (arith, (eq_iff "digest-1" "digest-2").1 e)) revocation-applies

after_key-verified : _verify_history crypto after_key ≡ none
unfolding _verify_history get_text get_object _signer_has_role
after_key-verified = refl

abbrev attested : Attested
attested = record {
  action_name = "release";
  request_id = "request-1";
  request_digest = "digest-r";
  now = 1200000000;
}

abbrev bot_claims : Entries
bot_claims = entry "agent_id" (string "bot") (
    entry "runtime" (string "cli") (
      entry "version" (string "1.0") (
        entry "action_name" (string "release") (
          entry "request_id" (string "request-1") (
            entry "request_digest" (string "digest-r") (
              entry "attestation_id" (string "attestation-1") (
                entry "nonce" (string "nonce-1")
                  (entry "issued_at" (string "t0") (entry "expires_at" (string "t1") empty)))))))))

attest-IsAttested_iff_example :
    (verify_agent_attestation crypto attested (sign_request bot_identity bot_claims) (ok start)
      ≡ ok (attested_claims bot "bot" "cli" (string "key-b") bot_claims))
    ↔ IsAttested crypto attested start
        (sign_request bot_identity bot_claims)
        (attested_claims bot "bot" "cli" (string "key-b") bot_claims)
attest-IsAttested_iff_example =
    attest-IsAttested_iff crypto attested start (sign_request bot_identity bot_claims)
      (attested_claims bot "bot" "cli" (string "key-b") bot_claims)

abbrev anchor : Anchor
anchor = anchor_of crypto start

start-IsSound : IsSound crypto (some anchor) start
unfolding _validate_state _validate_root _verify_anchor get_text get_object is_blank strip_text
start-IsSound = record { state = refl; root = refl; anchored = refl; history = start-IsOwnHistory }

abbrev next : Document
next =
    with_event
      (event_of crypto (some anchor) "event-1" "t1" revocation
        (approval_of revocation "revoke_grant" ∷ []) ("alice" ∷ []))
      revoked_1

next-valid : _validate_state crypto next ≡ true
unfolding _validate_state is_blank strip_text
next-valid = refl

apply_change-settles_example :
    (apply_change crypto
        (some anchor)
        (some start)
        revocation
        (approval_of revocation "revoke_grant" ∷ [])
        "event-1"
        "t1"
      ≡ (if _validate_state crypto next then ok next else failed state_invalid))
    × (_validate_state crypto next ≡ true → IsSound crypto (some anchor) next)
apply_change-settles_example =
    apply_change-settles crypto (some anchor) start revocation
      (approval_of revocation "revoke_grant" ∷ []) "event-1" "t1" applied_1 (λ e s. refl)
      start-IsSound revocation-applies refl

bot-IsAgentEnrolled : IsAgentEnrolled start bot_identity
unfolding is_identifier
bot-IsAgentEnrolled = record {
  identifiers = refl;
  agent = bot;
  enrolled = refl;
  runtime = refl;
  owner_active = refl;
  key = _;
  registered = refl;
  same_key = refl;
  in_use = refl;
}

alice-IsEnrolled : IsEnrolled start alice_identity
unfolding is_identifier
alice-IsEnrolled = record {
  identifier = refl;
  signer = alice;
  enrolled = refl;
  key = alice_key;
  registered = refl;
  same_key = refl;
  in_use = refl;
}

bot_claims-IsClaim : IsClaim crypto attested bot "bot" "cli" bot_claims
unfolding get_text is_version is_identifier
bot_claims-IsClaim = record {
  subject = refl;
  version = "1.0";
  versioned = refl;
  well_formed = refl;
  allowed = refl;
  action = refl;
  request_named = refl;
  digest = refl;
  names = refl;
  issued = 1000000000;
  issued_at = refl;
  expires = 1500000000;
  expires_at = refl;
  not_future = omega arith;
  short_lived = omega arith;
  later = omega arith;
  current = omega arith;
}

sign_request-verified_example :
    verify_agent_attestation crypto attested (sign_request bot_identity bot_claims) (ok start)
    ≡ ok (attested_claims bot "bot" "cli" (string "key-b") bot_claims)
unfolding bot-IsAgentEnrolled
sign_request-verified_example =
    sign_request-verified crypto start attested bot_identity bot_claims (λ p. refl)
      bot-IsAgentEnrolled bot_claims-IsClaim

abbrev signed_approval : Json
signed_approval =
    sign alice_identity "trust_change_approval" (approval_claims crypto revocation "u" "t0")

signed_approval-made : approve_change crypto revocation alice_identity "u" "t0" ≡ ok signed_approval
unfolding approve_change
signed_approval-made = refl

approve_change-counts_example :
    _validate_approvals crypto revocation start [] (signed_approval ∷ []) ≡ "alice" ∷ []
approve_change-counts_example =
    approve_change-counts crypto start alice_identity revocation "u" "t0" signed_approval
      (λ p. refl) alice-IsEnrolled signed_approval-made
