-- ===== src/Trust/State.antt =====
-- A well-formed document: `_validate_state`, without the tests of the types of its fields.
use entigram.Base.{
  String, Bool, true, false, not, ◌&&◌, ◌==◌, if◌then◌else◌, Option, none, some, List, [], ◌∷◌, all,
  codes, contains, eqb, find_first, holds, is_blank, is_some, length, ltb, map, strip_text,
}
use entigram.Base.Json.{string}
use entigram.Admission.{is_identifier}
use entigram.Trust.{Crypto, Document, Rule, Signer, Agent, Key, RevokedGrant, is_version}

-- `_string_list` does not raise
unfoldable pub _string_list : List String → Bool
_string_list [] = false
_string_list (s ∷ ss) = all (λ t. not (is_blank (codes t))) (s ∷ ss)

abbrev pub is_rule : Rule → Bool
is_rule rule = ltb 0 rule.minimum && _string_list rule.roles

-- `len(set(xs)) == len(xs)`
abbrev pub is_distinct : List String → Bool
is_distinct [] = true
is_distinct (x ∷ xs) = not (contains xs x) && is_distinct xs

-- the versions of an agent, stripped by `_string_list`
abbrev pub are_versions : List String → Bool
are_versions versions =
    _string_list versions
    && (all (λ v. is_version (codes (strip_text v))) versions
        && is_distinct (map strip_text versions))

module _ (c : Crypto) where
  -- The loop over the keys of one holder: the ids seen so far, extended, or `none` at a fault.
  unfoldable pub seen_keys : List String → List Key → Option (List String)
  seen_keys seen [] = some seen
  seen_keys seen (k ∷ ks) =
      let rest = seen_keys (k.key_id ∷ seen) ks in
      if holds (c.public_key_id k.public_key) k.key_id && not (contains seen k.key_id)
      then rest
      else none

  abbrev pub holder_keys : List String → List Key → Option (List String)
  holder_keys seen [] = none
  holder_keys seen (k ∷ ks) = seen_keys seen (k ∷ ks)

  -- The loop over the signers. The keys seen are shared with the loop over the agents.
  unfoldable pub validate_signers :
      List String → List String → List Signer → Option (List String × List String)
  unfolding seen_keys is_identifier _string_list
  validate_signers seen keys [] = some (seen, keys)
  validate_signers seen keys (s ∷ ss) = elim (holder_keys keys s.keys) [
    | none ↦ none
    | some more ↦
        let rest = validate_signers (s.signer_id ∷ seen) more ss in
        if is_identifier (codes s.signer_id)
          && (not (contains seen s.signer_id) && _string_list s.roles)
        then rest
        else none
  ]

  unfoldable pub validate_agents :
      List String → List String → List String → List Agent → Option (List String)
  unfolding seen_keys is_identifier is_version _string_list
  validate_agents signers seen keys [] = some keys
  validate_agents signers seen keys (a ∷ as_rest) = elim (holder_keys keys a.keys) [
    | none ↦ none
    | some more ↦
        let rest = validate_agents signers (a.agent_id ∷ seen) more as_rest in
        if is_identifier (codes a.agent_id)
          && (not (contains seen a.agent_id)
              && (is_identifier (codes a.owner_id)
                  && (contains signers a.owner_id
                      && (is_identifier (codes a.runtime) && are_versions a.allowed_versions))))
        then rest
        else none
  ]

  unfoldable pub validate_grants : List String → List RevokedGrant → Bool
  unfolding is_identifier
  validate_grants seen [] = true
  validate_grants seen (g ∷ gs) =
      is_identifier (codes g.grant_id)
      && (not (contains seen g.grant_id)
          && (is_identifier (codes g.issuer_id)
              && (eqb (length (codes g.grant_digest)) 64
                  && (is_some (c.parse_timestamp (some (string g.revoked_at)))
                      && (is_identifier (codes g.change_id)
                          && validate_grants (g.grant_id ∷ seen) gs)))))

  abbrev pub validate_holders : List Signer → List Agent → Bool
  validate_holders signers agents = elim (validate_signers [] [] signers) [
    | none ↦ false
    | some (ids, keys) ↦ is_some (validate_agents ids [] keys agents)
  ]

  unfoldable pub _validate_state : Document → Bool
  unfolding validate_signers validate_agents validate_grants is_identifier
  _validate_state d =
      d.format == "entigram.project-trust.v2"
      && (is_identifier (codes d.project_id)
          && (ltb 0 d.version
              && (is_rule d.quorum.trust_change
                  && (is_rule d.quorum.recovery
                      && (is_some (find_first (λ s. true) d.signers)
                          && (validate_holders d.signers d.agents
                              && validate_grants [] d.revoked_grants))))))
