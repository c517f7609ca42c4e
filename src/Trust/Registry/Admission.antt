-- ===== src/Trust/Registry/Admission.antt =====
-- The registry of a project as the collaborator of the action engine: nothing that has ended in the
-- registry's history supports an action again.
use entigram.Base.{
  ℕ, String, Bool, true, false, ◌≡◌, refl, ◌==◌, sym, ap, ◌∙◌, Option, none, some, arith, inl, inr,
  Bool-cases, find_first,
}
use entigram.Base.Json.{
  Json, null, boolean, number, array, string, object, Entries, get_text, get_object,
}
use entigram.Admission.{Collaborators, Request, Contract}
use entigram.Admission.Authority.{validate_agent_identity, is_revoked}
use entigram.Admission.Authority.Laws.{IsAuthorized, validate_authority_iff}
use entigram.Admission.Engine.{validate}
use entigram.Admission.Engine.Laws.{validate-ok_iff}
use entigram.Trust.{
  Crypto, Document, Result, ok, failed, Result-cases, _find_signer, _find_agent, has_key_id,
  is_active,
}
use entigram.Trust.Assertions.{verify, _verify_personal_assertion}
use entigram.Trust.Assertions.Laws.{IsSigned, verify-IsSigned_iff, get_text-enriched_other}
use entigram.Trust.Attestations.{Attested, verify_agent_attestation}
use entigram.Trust.Attestations.Laws.{IsAttested, attest-IsAttested_iff}
use entigram.Trust.Changes.Frame.{Ended, signer_key, agent_key, grant, IsEnded}
use entigram.Trust.History.Permanence.{IsOwnHistory, IsLater, later-IsEnded}
use entigram.Trust.Registry.{signer_has_role, get_grant_revocation, is_grant_revoked}

abbrev accepted : Result Entries → Option Entries
accepted (ok claims) = some claims
accepted (failed _) = none

-- `str` of a claim, which is a text wherever the engine passes one on
abbrev role_test : Document → Json → Json → Bool
role_test d (string signer) (string role) = signer_has_role d signer role true
role_test d _ _ = false

-- The engine's collaborators, with the registry `d` that `load` returns in a project that has one.
unfoldable pub with_registry : Crypto → Document → Collaborators → Collaborators
unfolding verify verify_agent_attestation signer_has_role is_grant_revoked
with_registry c d others = record others {
  project = true;
  verify = λ artifact kind. accepted (verify c artifact kind (ok d));
  signer_has_role = role_test d;
  revoked_in_project = is_grant_revoked d;
  verify_agent_attestation = λ artifact action_name request_id request_digest now. accepted (
      verify_agent_attestation c
        (record {
          action_name = action_name;
          request_id = request_id;
          request_digest = request_digest;
          now = now;
        })
        artifact (ok d));
}

-- A request that stands on the key, or on the grant: what its authority or its attestation says.
abbrev pub RestsOn : Ended → Request → Type 0
RestsOn (signer_key holder id) request =
    (e : Entries) × (request.authority ≡ object e)
    × (get_text "signer_id" e ≡ some holder)
    × (get_text "key_id" e ≡ some id)
RestsOn (agent_key holder id) request =
    (e : Entries) × (request.agent_attestation ≡ object e)
    × (get_text "agent_id" e ≡ some holder)
    × (get_text "key_id" e ≡ some id)
RestsOn (grant id) request =
    (e : Entries) × (body : Entries) × (request.authority ≡ object e)
    × (get_object "claims" e ≡ some body)
    × (get_text "grant_id" body ≡ some id)
    × ((id == "") ≡ false)

verify-personal :
    (c : Crypto) (artifact : Json) (kind : String) (d : Document)
    → verify c artifact kind (ok d) ≡ _verify_personal_assertion c artifact kind d true
unfolding verify _verify_personal_assertion
verify-personal c null kind d = refl
verify-personal c (boolean _) kind d = refl
verify-personal c (number _ _) kind d = refl
verify-personal c (string _) kind d = refl
verify-personal c (array _) kind d = refl
verify-personal c (object _) kind d = refl

accepted-ok : (r : Result Entries) (claims : Entries) → accepted r ≡ some claims → r ≡ ok claims
accepted-ok (ok _) claims h = ground arith
accepted-ok (failed _) claims h = absurd (ground arith)

-- an artifact signed with a key that is out of use is no verified assertion
signed-contra :
    (c : Crypto) (d : Document) (kind : String) (artifact : Json) (claims e : Entries)
    (holder id : String)
    → IsSigned c kind true d artifact claims
    → artifact ≡ object e
    → get_text "signer_id" e ≡ some holder
    → get_text "key_id" e ≡ some id
    → IsEnded (signer_key holder id) d
    → ⊥
signed-contra c d kind artifact claims e holder id s a n k out =
    let same : s.entries ≡ e = ground (arith, s.is_object) in
    let who : s.signer_id ≡ holder = ground (arith, ap (get_text "signer_id") same, s.named) in
    let found : s.signer ≡ out.found =
      ground (arith, sym s.enrolled ∙ ap (_find_signer d.signers) who, out.enrolled) in
    let key : s.key ≡ out.key_out.key = ground (
      arith,
      sym s.registered
          ∙ (λ i. find_first (has_key_id ((ap (get_text "key_id") same ∙ k) i)) (found i).keys),
      out.key_out.registered,
    ) in
    absurd (ground (arith, ap is_active key, s.in_use refl, out.key_out.out))

attested-contra :
    (c : Crypto) (request : Attested) (d : Document) (artifact : Json) (result e : Entries)
    (holder id : String)
    → IsAttested c request d artifact result
    → artifact ≡ object e
    → get_text "agent_id" e ≡ some holder
    → get_text "key_id" e ≡ some id
    → IsEnded (agent_key holder id) d
    → ⊥
attested-contra c request d artifact result e holder id s a n k out =
    let same : s.entries ≡ e = ground (arith, s.is_object) in
    let who : s.agent_id ≡ holder = ground (arith, ap (get_text "agent_id") same, s.named) in
    let found : s.agent ≡ out.found =
      ground (arith, sym s.enrolled ∙ ap (_find_agent d.agents) who, out.enrolled) in
    let key : s.key ≡ out.key_out.key = ground (
      arith,
      sym s.registered
          ∙ (λ i. find_first (has_key_id ((ap (get_text "key_id") same ∙ k) i)) (found i).keys),
      out.key_out.registered,
    ) in
    absurd (ground (arith, ap is_active key, s.in_use, out.key_out.out))

module _ (c : Crypto) (others : Collaborators) (action_name : String) (request : Request) (now : ℕ)
    (d : Document) where
  abbrev engine : Collaborators
  engine = with_registry c d others

  authority-IsSigned :
      (claims : Entries)
      → engine.verify request.authority "authority_grant" ≡ some claims
      → IsSigned c "authority_grant" true d request.authority claims
  unfolding with_registry
  authority-IsSigned claims h =
      (verify-IsSigned_iff c "authority_grant" true d request.authority claims).0 (
        sym (verify-personal c request.authority "authority_grant" d)
        ∙ accepted-ok (verify c request.authority "authority_grant" (ok d)) claims h)

  abbrev attested : Attested
  attested = record {
    action_name = action_name;
    request_id = request.request_id;
    request_digest = others.request_digest action_name request;
    now = now;
  }

  identity-IsAttested :
      validate_agent_identity engine action_name request now ≡ none
      → (result : Entries) × IsAttested c attested d request.agent_attestation result
  unfolding with_registry validate_agent_identity
  identity-IsAttested h =
      elim (Result-cases (verify_agent_attestation c attested request.agent_attestation (ok d))) [
        | inl (f, p) ↦ absurd (ground arith)
        | inr (result, p) ↦
            (result, (attest-IsAttested_iff c attested d request.agent_attestation result).0 p)
      ]

  grant-contra :
      (contract : Contract) (id : String) (e body : Entries)
      → IsAuthorized engine contract request now
      → request.authority ≡ object e
      → get_object "claims" e ≡ some body
      → get_text "grant_id" body ≡ some id
      → id == "" ≡ false
      → IsEnded (grant id) d
      → ⊥
  unfolding with_registry is_grant_revoked get_grant_revocation
  grant-contra contract id e body u a b g n out =
      let s = authority-IsSigned u.claims u.signed in
      let same : s.entries ≡ e = ground (arith, s.is_object) in
      let claims : s.body ≡ body = ground (arith, ap (get_object "claims") same, s.claimed) in
      let named : get_text "grant_id" u.claims ≡ some id =
        ap (get_text "grant_id") s.result
        ∙ (get_text-enriched_other "grant_id" s.signer_id _ s.body refl refl
            ∙ (ap (get_text "grant_id") claims ∙ g)) in
      let this : u.grant_id ≡ id = ground (arith, u.named) in
      absurd (ground (arith, ap (λ t. is_revoked engine contract request now t) this, u.unrevoked))

  rests-contra :
      (x : Ended)
      → (validate engine action_name request now).ok ≡ true
      → RestsOn x request
      → IsEnded x d
      → ⊥
  rests-contra (signer_key holder id) h (e, a, n, k) out =
      let m = (validate-ok_iff engine action_name request now).0 h in
      let u = (validate_authority_iff engine m.contract request now).0 m.authorized in
      signed-contra c d "authority_grant" request.authority u.claims e holder id
        (authority-IsSigned u.claims u.signed) a n k out
  rests-contra (agent_key holder id) h (e, a, n, k) out =
      let m = (validate-ok_iff engine action_name request now).0 h in
      let (result, s) = identity-IsAttested m.identified in
      attested-contra c attested d request.agent_attestation result e holder id s a n k out
  rests-contra (grant id) h (e, body, a, b, g, n) out =
      let m = (validate-ok_iff engine action_name request now).0 h in
      let u = (validate_authority_iff engine m.contract request now).0 m.authorized in
      grant-contra m.contract id e body u a b g n out

-- Once a signer's key or an agent's key is retired or revoked, or a grant revoked, no action is admitted
-- that rests on it, in a project whose registry then or later is the collaborator of the engine.
pub ended-never_admits :
    (c : Crypto) (others : Collaborators) (action_name : String) (request : Request) (now : ℕ)
    (x : Ended) (d e : Document)
    → IsOwnHistory c d
    → IsOwnHistory c e
    → IsLater d e
    → IsEnded x d
    → RestsOn x request
    → (validate (with_registry c e others) action_name request now).ok ≡ false
ended-never_admits c others action_name request now x d e hd he l out r =
    elim (Bool-cases (validate (with_registry c e others) action_name request now).ok) [
      | inl h ↦ absurd (
          rests-contra c others action_name request now e x h r (later-IsEnded c x d e hd he l out))
      | inr h ↦ h
    ]
