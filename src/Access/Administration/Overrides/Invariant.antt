-- ===== src/Access/Administration/Overrides/Invariant.antt =====
-- A membership has at most one override in force for each permission, whatever the administration
-- does; this is the table's partial unique index.
use balanz.Prelude.{
  ℕ, String, ◌+◌, ◌≤◌, ◌≡◌, refl, ap, ◌∙◌, Bool, true, false, List, [], ◌∷◌, ◌++◌, Option, none,
  some, arith, find, count, update_where, ◌==◌, eq_iff, eq_refl, Option-cases, Bool-cases, inl, inr,
  ◌⊎◌,
}
use mathlib.Core.Option
use balanz.Http.{ok, err, not_found}
use balanz.Store.{MembershipPermission, Permission, PermissionEffect, same_effect}
use balanz.Access.Administration.Overrides.{
  is_open_for, find_active_override, revoked, revoke, revoke_current, new_override, has_effect,
  set_override, revoke_override,
}

-- No triple of organization, membership and permission has two open overrides.
abbrev pub UniqueOpen : List MembershipPermission → Type 0
UniqueOpen os = (oid mid pid : String) → count (is_open_for oid mid pid) os ≤ 1

module _ {A : Type 0} (p : A → Bool) where
  count-append : (xs ys : List A) → count p (xs ++ ys) ≡ count p xs + count p ys
  count-append [] ys = omega arith
  count-append (x ∷ xs) ys = omega (arith, count-append xs ys)

  -- Replacing rows by one that the test rejects adds nothing to a count.
  count-update_le :
      (q : A → Bool) (c : A) (xs : List A)
      → p c ≡ false
      → count p (update_where q (λ x. c) xs) ≤ count p xs
  count-update_le q c [] h = omega arith
  count-update_le q c (x ∷ xs) h = ground (arith, count-update_le q c xs)

  -- If at most one row fits, and the row found is replaced by one that does not fit, none is left.
  count-update_zero :
      (q : A → Bool) (c : A) {found : A} (xs : List A)
      → find p xs ≡ some found
      → q found ≡ true
      → p c ≡ false
      → count p xs ≤ 1
      → count p (update_where q (λ x. c) xs) ≡ 0
  count-update_zero q c [] f g h u = absurd (ground arith)
  count-update_zero q c {found} (x ∷ xs) f g h u =
      ground (arith, count-update_le q c xs, count-update_zero q c {found = found} xs)

  find-none_of_count : (xs : List A) → count p xs ≡ 0 → find p xs ≡ none
  find-none_of_count [] h = refl
  find-none_of_count (x ∷ xs) h = ground (arith, find-none_of_count xs)

  find-append_none : (xs ys : List A) → find p xs ≡ none → find p (xs ++ ys) ≡ find p ys
  find-append_none [] ys h = refl
  find-append_none (x ∷ xs) ys h = ground (arith, find-append_none xs ys)

  count-zero_of_find : (xs : List A) → find p xs ≡ none → count p xs ≡ 0
  count-zero_of_find [] h = refl
  count-zero_of_find (x ∷ xs) h = ground (arith, count-zero_of_find xs)

module _ (now : ℕ) (actor : String) where
  revoked-shut :
      (a b c : String) (o : MembershipPermission) → is_open_for a b c (revoked now actor o) ≡ false
  revoked-shut a b c o = ground arith

  -- Revoking the override in force leaves no open one for its triple.
  revoke-shuts :
      (oid mid pid : String) (os : List MembershipPermission) (c : MembershipPermission)
      → find (is_open_for oid mid pid) os ≡ some c
      → UniqueOpen os
      → count (is_open_for oid mid pid) (revoke now actor c os) ≡ 0
  unfolding revoke
  revoke-shuts oid mid pid os c found unique =
      count-update_zero (is_open_for oid mid pid) (λ o. o.id == c.id) (revoked now actor c) os found
        (eq_refl c.id) (revoked-shut oid mid pid c) (unique oid mid pid)

  revoke-le :
      (c : MembershipPermission) (oid mid pid : String) (os : List MembershipPermission)
      → count (is_open_for oid mid pid) (revoke now actor c os) ≤ count (is_open_for oid mid pid) os
  unfolding revoke
  revoke-le c oid mid pid os =
      count-update_le (is_open_for oid mid pid) (λ x. x.id == c.id) (revoked now actor c) os
        (revoked-shut oid mid pid c)

  revoke_current-shuts :
      (oid mid pid : String) (os : List MembershipPermission)
      → UniqueOpen os
      → count
          (is_open_for oid mid pid)
          (revoke_current now actor (find_active_override oid mid pid os) os)
        ≡ 0
  unfolding revoke_current find_active_override
  revoke_current-shuts oid mid pid os unique =
      elim (Option-cases (find (is_open_for oid mid pid) os)) [
        | inl missing ↦
            rw (missing, revoke_current) (count-zero_of_find (is_open_for oid mid pid) os missing)
        | inr (c, found) ↦ rw (found, revoke_current) (revoke-shuts oid mid pid os c found unique)
      ]

  revoke_current-le :
      (current : Option MembershipPermission) (oid mid pid : String)
      (os : List MembershipPermission)
      → count (is_open_for oid mid pid) (revoke_current now actor current os)
        ≤ count (is_open_for oid mid pid) os
  unfolding revoke_current
  revoke_current-le none oid mid pid os = omega arith
  revoke_current-le (some c) oid mid pid os = revoke-le c oid mid pid os

same_effect-eq : (a b : PermissionEffect) → same_effect a b ≡ true → a ≡ b
same_effect-eq PermissionEffect.grant PermissionEffect.grant h = refl
same_effect-eq PermissionEffect.deny PermissionEffect.deny h = refl
same_effect-eq PermissionEffect.grant PermissionEffect.deny h = cc
same_effect-eq PermissionEffect.deny PermissionEffect.grant h = cc

-- The override in force of the triple.
abbrev pub effect_of :
    String → String → String → List MembershipPermission → Option PermissionEffect
effect_of oid mid pid os = Option.map (λ o. o.effect) (find (is_open_for oid mid pid) os)

module _ (now : ℕ) (actor id oid mid : String) (permission : Permission) (effect : PermissionEffect)
    (os : List MembershipPermission) where
  abbrev left : List MembershipPermission
  left = revoke_current now actor (find_active_override oid mid permission.id os) os

  abbrev fresh : MembershipPermission
  fresh = new_override id oid mid permission effect now actor

  fresh-open :
      (a b c : String)
      → is_open_for a b c fresh ≡ true
      → (oid ≡ a) × (mid ≡ b) × (permission.id ≡ c)
  fresh-open a b c h = ground (arith, eq_iff oid a, eq_iff mid b, eq_iff permission.id c)

  fresh-fits : is_open_for oid mid permission.id fresh ≡ true
  fresh-fits = ground (arith, eq_refl oid, eq_refl mid, eq_refl permission.id)

  count-own : UniqueOpen os → count (is_open_for oid mid permission.id) (left ++ fresh ∷ []) ≡ 1
  count-own unique =
      let p = is_open_for oid mid permission.id in
      count-append p left (fresh ∷ [])
      ∙ ground (arith, revoke_current-shuts now actor oid mid permission.id os unique, fresh-fits)

  set_unique : UniqueOpen os → UniqueOpen (left ++ fresh ∷ [])
  set_unique unique a b c = elim (Bool-cases (is_open_for a b c fresh)) [
    | inl same ↦
        let (p, q, r) = fresh-open a b c same in
        rw (← p, ← q, ← r) (omega (arith, count-own unique))
    | inr other ↦ ground (
      arith,
      count-append (is_open_for a b c) left (fresh ∷ []),
      revoke_current-le now actor (find_active_override oid mid permission.id os) a b c os,
      unique a b c,
    )
  ]

  set-effect : UniqueOpen os → effect_of oid mid permission.id (left ++ fresh ∷ []) ≡ some effect
  set-effect unique =
      let p = is_open_for oid mid permission.id in
      let shut =
        find-none_of_count p left
          (revoke_current-shuts now actor oid mid permission.id os unique) in
      ground (arith, find-append_none p left (fresh ∷ []) shut, fresh-fits)

  has_effect-kept :
      has_effect effect (find_active_override oid mid permission.id os) ≡ true
      → effect_of oid mid permission.id os ≡ some effect
  unfolding find_active_override
  has_effect-kept h = elim (Option-cases (find (is_open_for oid mid permission.id) os)) [
    | inl missing ↦ absurd (ground arith)
    | inr (c, found) ↦ ground (arith, same_effect-eq c.effect effect)
  ]

  -- Setting an override keeps at most one in force for each permission, and afterwards the one in
  -- force has the effect asked for; where it had that effect already, nothing is written.
  pub set_override-lem :
      UniqueOpen os
      → ((set_override now actor id oid mid permission effect os ≡ none)
          × (effect_of oid mid permission.id os ≡ some effect))
        ⊎ ((os' : List MembershipPermission) × (set_override now actor id oid mid permission effect
                os
              ≡ some os')
            × UniqueOpen os'
            × (effect_of oid mid permission.id os' ≡ some effect))
  unfolding set_override
  set_override-lem unique =
      elim (Bool-cases (has_effect effect (find_active_override oid mid permission.id os))) [
        | inl kept ↦ inl (rw kept, has_effect-kept kept)
        | inr changed ↦ inr (left ++ fresh ∷ [], rw changed, set_unique unique, set-effect unique)
      ]

-- Revoking keeps at most one override in force for each permission and leaves none in force for
-- the permission revoked; it fails exactly if none was.
pub revoke_override-lem :
    (now : ℕ) (actor oid mid : String) (permission : Permission) (os : List MembershipPermission)
    → UniqueOpen os
    → ((effect_of oid mid permission.id os ≡ none)
        × (revoke_override now actor oid mid permission os
            ≡ err (not_found "Active override not found")))
      ⊎ ((os' : List MembershipPermission) × (revoke_override now actor oid mid permission os
            ≡ ok os')
          × UniqueOpen os'
          × (effect_of oid mid permission.id os' ≡ none))
unfolding revoke_override find_active_override
revoke_override-lem now actor oid mid permission os unique =
    elim (Option-cases (find (is_open_for oid mid permission.id) os)) [
      | inl missing ↦ inl (ground arith, ground arith)
      | inr (c, found) ↦ inr (
        revoke now actor c os,
        ground arith,
        λ a b d. omega (arith, revoke-le now actor c a b d os, unique a b d),
        ap (Option.map (λ o. o.effect)) (
            find-none_of_count (is_open_for oid mid permission.id) (revoke now actor c os)
              (revoke-shuts now actor oid mid permission.id os c found unique)),
      )
    ]
