-- ===== src/Trust/Registry/Requests.antt =====
-- A change that `make_change` makes is well formed, and pinning a root never replaces a pin.
use entigram.Base.{
  String, true, false, ◌≡◌, ap, refl, ◌==◌, Option, none, some, arith, codes, eq_iff, eq_refl, join,
  Option-cases, Bool-cases, inl, inr, ◌⊎◌,
}
use entigram.Trust.{
  Crypto, Document, Anchor, Operation, Change, ok, add_signer, rotate_key, recover_key, revoke_key,
  revoke_grant, enroll_agent, add_agent_version, remove_agent_version, rotate_agent_key,
  revoke_agent_key,
}
use entigram.Trust.Approvals.{is_operation, _validate_change}
use entigram.Trust.History.{_verify_anchor, _validate_root}
use entigram.Trust.Registry.{
  argument_fault, normalized, make_change, anchor_of, _write_anchor, pin_root,
}

named_text : (uuid : String) → join "trust-change-" uuid == "" ≡ false
unfolding join
named_text uuid = elim (Bool-cases (join "trust-change-" uuid == "")) [
  | inl h ↦ absurd (ground (arith, ap codes ((eq_iff (join "trust-change-" uuid) "").0 h)))
  | inr h ↦ h
]

module _ (c : Crypto) where
  argument-is_operation :
      (op : Operation) → argument_fault c op ≡ none → is_operation c (normalized op) ≡ true
  unfolding argument_fault is_operation
  argument-is_operation (add_signer _ _ _) h = ground arith
  argument-is_operation (rotate_key _ _) h = ground arith
  argument-is_operation (recover_key _ _) h = ground arith
  argument-is_operation (revoke_key _ _) h = ground arith
  argument-is_operation (revoke_grant _ _ _) h = ground arith
  argument-is_operation (enroll_agent _ _ _ _ _) h = ground arith
  argument-is_operation (add_agent_version _ _) h = ground arith
  argument-is_operation (remove_agent_version _ _) h = ground arith
  argument-is_operation (rotate_agent_key _ _) h = ground arith
  argument-is_operation (revoke_agent_key _ _) h = ground arith

  -- the change before its digest is set
  abbrev unsigned : Document → Operation → String → String → Change
  unsigned d op uuid created_at = record {
    type_name = "entigram.trust-change.v1";
    change_id = join "trust-change-" uuid;
    project_id = d.project_id;
    registry_digest = c.document_digest d;
    operation = normalized op;
    signer_id = none;
    created_at = created_at;
    change_digest = "";
  }

  -- What `make_change` returns passes `_validate_change`, and is for the project and the state of the
  -- document that it was made from; given a document with an id, a time, and digests that are no
  -- empty text and do not read the digest that a change carries.
  pub make_change-IsValid :
      (d : Document) (op : Operation) (uuid created_at : String) (change : Change)
      → d.project_id == "" ≡ false
      → created_at == "" ≡ false
      → c.document_digest d == "" ≡ false
      → ((ch : Change) → c.change_digest ch == "" ≡ false)
      → ((ch : Change) (s : String)
          → c.change_digest (record ch { change_digest = s }) ≡ c.change_digest ch)
      → make_change c d op uuid created_at ≡ ok change
      → (_validate_change c change ≡ none)
        × (change.project_id ≡ d.project_id)
        × (change.registry_digest ≡ c.document_digest d)
        × (change.operation ≡ normalized op)
  unfolding make_change _validate_change join
  make_change-IsValid d op uuid created_at change p t q n digest h =
      elim (Option-cases (argument_fault c op)) [
        | inl e ↦
            let v = argument-is_operation op e in
            let made = unsigned d op uuid created_at in
            let m : change ≡ record made { change_digest = c.change_digest made } = ground arith in
            rw m (
              ground (
                arith,
                named_text uuid,
                n made,
                digest made (c.change_digest made),
                eq_refl (c.change_digest made),
              ),
              refl,
              refl,
              refl,
            )
        | inr (f, e) ↦ absurd (ground arith)
      ]

pinned : (c : Crypto) (d : Document) → _verify_anchor c (some (anchor_of c d)) d ≡ none
unfolding _verify_anchor
pinned c d = ground (
  arith,
  eq_refl d.project_id,
  eq_refl (c.root_digest d.root),
  eq_refl (c.digest d.root_signature),
)

-- A root is pinned only if its signature is valid and its digest is the one expected, the pin then
-- passes the check that `load` makes of it, and a pin that was there is the one that stays.
pub pin_root-keeps :
    (c : Crypto) (existing : Option Anchor) (d : Document) (expected : String) (anchor : Anchor)
    → pin_root c existing d expected ≡ ok anchor
    → (_validate_root c d ≡ none)
      × (expected ≡ c.root_digest d.root)
      × (_verify_anchor c (some anchor) d ≡ none)
      × ((existing ≡ none) ⊎ (existing ≡ some anchor))
unfolding pin_root _write_anchor _verify_anchor
pin_root-keeps c none d expected anchor h =
    let m : anchor ≡ anchor_of c d = ground arith in
    (
      ground arith,
      ground (arith, eq_iff expected (c.root_digest d.root)),
      rw m (pinned c d),
      inl refl,
    )
pin_root-keeps c (some existing) d expected anchor h = (
  ground arith,
  ground (arith, eq_iff expected (c.root_digest d.root)),
  ground arith,
  inr (ground arith),
)
