-- ===== src/Trust/Changes/Keys.antt =====
-- A key on a list that is retired or revoked stays so, whatever an operation does to the list.
use mathlib.Core.Path.{subst}
use entigram.Base.{
  String, false, ◌≡◌, refl, ◌==◌, ◌++◌, some, List, [], ◌∷◌, arith, change_first, find_first, inl,
  inr, Bool-cases,
}
use entigram.Trust.{Key, KeyState, is_active}
use entigram.Trust.Edits.{is_key, ended, end_active}

-- the key of that id is on the list and not in use
pub record IsOut (id : String) (keys : List Key) : Type 0 where
  pub key : Key
  pub registered : find_first (is_key id) keys ≡ some key
  pub out : is_active key ≡ false

pub IsOut-append :
    (id : String) (keys : List Key) (k : Key) → IsOut id keys → IsOut id (keys ++ k ∷ [])
IsOut-append id [] k h = absurd (ground (arith, h.registered))
IsOut-append id (j ∷ keys) k h = elim (Bool-cases (is_key id j)) [
  | inl e ↦ record { key = j; registered = ground arith; out = ground arith }
  | inr e ↦
      let t =
        IsOut-append id keys k (record { key = h.key; registered = ground arith; out = h.out }) in
      record { key = t.key; registered = ground arith; out = t.out }
]

pub end_active-IsOut :
    (state : KeyState) (at id : String) (keys : List Key)
    → IsOut id keys
    → IsOut id (end_active state at keys)
end_active-IsOut state at id [] h = absurd (ground (arith, h.registered))
end_active-IsOut state at id (j ∷ keys) h = elim (Bool-cases (is_key id j)) [
  | inl e ↦ record { key = j; registered = ground arith; out = ground arith }
  | inr e ↦
      let t =
        end_active-IsOut state at id keys
          (record { key = h.key; registered = ground arith; out = h.out }) in
      record { key = t.key; registered = ground arith; out = t.out }
]

pub change_first-IsOut :
    (at other id : String) (keys : List Key)
    → IsOut id keys
    → IsOut id (change_first (is_key other) (ended KeyState.revoked at) keys)
change_first-IsOut at other id [] h = absurd (ground (arith, h.registered))
change_first-IsOut at other id (j ∷ keys) h = elim (Bool-cases (is_key id j)) [
  | inl e ↦ elim (Bool-cases (is_key other j)) [
    | inl o ↦ record { key = ended KeyState.revoked at j; registered = ground arith; out = refl }
    | inr o ↦ record { key = j; registered = ground arith; out = ground arith }
  ]
  | inr e ↦
      let t =
        change_first-IsOut at other id keys
          (record { key = h.key; registered = ground arith; out = h.out }) in
      elim (Bool-cases (is_key other j)) [
        | inl o ↦ record { key = h.key; registered = ground arith; out = h.out }
        | inr o ↦ record { key = t.key; registered = ground arith; out = t.out }
      ]
]

-- The same for the holders of keys: signers, or agents.
module _ {H : Type 0} (name : H → String) (keys : H → List Key) where
  pub record IsOutOf (holder id : String) (hs : List H) : Type 0 where
    pub found : H
    pub enrolled : find_first (λ h. name h == holder) hs ≡ some found
    pub key_out : IsOut id (keys found)

  pub IsOutOf-append :
      (holder id : String) (hs : List H) (n : H)
      → IsOutOf holder id hs
      → IsOutOf holder id (hs ++ n ∷ [])
  IsOutOf-append holder id [] n h = absurd (ground (arith, h.enrolled))
  IsOutOf-append holder id (j ∷ hs) n h = elim (Bool-cases (name j == holder)) [
    | inl e ↦ record { found = h.found; enrolled = ground (arith, h.enrolled); key_out = h.key_out }
    | inr e ↦
        let t = IsOutOf-append holder id hs n (record {
          found = h.found;
          enrolled = ground (arith, h.enrolled);
          key_out = h.key_out;
        }) in
        record { found = t.found; enrolled = ground (arith, t.enrolled); key_out = t.key_out }
  ]

  pub change_first-IsOutOf :
      (f : H → H)
      → ((h : H) → name (f h) ≡ name h)
      → (holder id : String) → ((h : H) → IsOut id (keys h) → IsOut id (keys (f h)))
      → (other : String) (hs : List H) → IsOutOf holder id hs
      → IsOutOf holder id (change_first (λ h. name h == other) f hs)
  change_first-IsOutOf f same holder id keep other [] h = absurd (ground (arith, h.enrolled))
  change_first-IsOutOf f same holder id keep other (j ∷ hs) h =
      elim (Bool-cases (name j == holder)) [
        | inl e ↦
            let out : IsOut id (keys j) =
              subst (λ x. IsOut id (keys x)) (ground (arith, h.enrolled)) h.key_out in
            elim (Bool-cases (name j == other)) [
              | inl o ↦ record {
                found = f j;
                enrolled = ground (arith, same j);
                key_out = keep j out;
              }
              | inr o ↦ record { found = j; enrolled = ground arith; key_out = out }
            ]
        | inr e ↦
            let t = change_first-IsOutOf f same holder id keep other hs (record {
              found = h.found;
              enrolled = ground (arith, h.enrolled);
              key_out = h.key_out;
            }) in
            elim (Bool-cases (name j == other)) [
              | inl o ↦ record {
                found = h.found;
                enrolled = ground (arith, same j, h.enrolled);
                key_out = h.key_out;
              }
              | inr o ↦ record {
                found = t.found;
                enrolled = ground (arith, t.enrolled);
                key_out = t.key_out;
              }
            ]
      ]
