-- ===== src/Invitations/Edits.antt =====
-- The changes that the operations make to the table of invitations, as a relation, and what each
-- keeps of keys and statuses.
use balanz.Prelude.{
  String, ◌≡◌, refl, sym, ap, subst, inl, inr, arith, Bool, true, false, not, ◌&&◌, ◌||◌, List, [],
  ◌∷◌, ◌++◌, map, some, find, update_where, includes, eq_iff, eq_refl, ◌==◌, Bool-cases,
}
use balanz.Invitations.Table.{
  Invitation, InvitationStatus, can_transition_invitation, save_invitation,
}

abbrev pub ids : List Invitation → List String
ids invitations = map (λ i. i.id) invitations

abbrev pub distinct : List String → Bool
distinct [] = true
distinct (k ∷ ks) = not (includes ks k) && distinct ks

abbrev pub is_same_status : InvitationStatus → InvitationStatus → Bool
is_same_status InvitationStatus.pending InvitationStatus.pending = true
is_same_status InvitationStatus.accepted InvitationStatus.accepted = true
is_same_status InvitationStatus.expired InvitationStatus.expired = true
is_same_status InvitationStatus.revoked InvitationStatus.revoked = true
is_same_status _ _ = false

-- The status stays or makes a transition that invitation-state.ts allows.
unfoldable pub moves : InvitationStatus → InvitationStatus → Bool
moves before after = is_same_status before after || can_transition_invitation before after

-- Every row is still there, under its key, and its status has moved or stayed; rows may be added.
abbrev pub follows : List Invitation → List Invitation → Bool
follows [] after = true
follows (x ∷ xs) [] = false
follows (x ∷ xs) (y ∷ ys) = (x.id == y.id && moves x.status y.status) && follows xs ys

pub data Edit : List Invitation → List Invitation → Type 0 where
  saves :
      (p : Invitation → Bool) (xs : List Invitation) (i j : Invitation)
      → find p xs ≡ some i
      → j.id ≡ i.id
      → moves i.status j.status ≡ true
      → Edit xs (save_invitation j xs)
  marks :
      (p : Invitation → Bool) (g : Invitation → Invitation) (xs : List Invitation)
      → ((i : Invitation) → (g i).id ≡ i.id)
      → ((i : Invitation) → (g i).status ≡ i.status)
      → Edit xs (update_where p g xs)
  adds :
      (xs : List Invitation) (i : Invitation)
      → includes (ids xs) i.id ≡ false
      → Edit xs (xs ++ i ∷ [])

pub data Edits : List Invitation → List Invitation → Type 0 where
  nothing : {xs : List Invitation} → Edits xs xs
  then : {xs ys zs : List Invitation} → Edits xs ys → Edit ys zs → Edits xs zs

pub moves_refl : (s : InvitationStatus) → moves s s ≡ true
unfolding moves
moves_refl InvitationStatus.pending = refl
moves_refl InvitationStatus.accepted = refl
moves_refl InvitationStatus.expired = refl
moves_refl InvitationStatus.revoked = refl

moves_trans : (s t u : InvitationStatus) → moves s t ≡ true → moves t u ≡ true → moves s u ≡ true
unfolding moves can_transition_invitation
moves_trans s t u h k = ground arith

follows_refl : (xs : List Invitation) → follows xs xs ≡ true
follows_refl [] = refl
follows_refl (x ∷ xs) = ground (arith, eq_refl x.id, moves_refl x.status, follows_refl xs)

follows_trans :
    (xs ys zs : List Invitation)
    → follows xs ys ≡ true
    → follows ys zs ≡ true
    → follows xs zs ≡ true
follows_trans [] ys zs h k = refl
follows_trans (x ∷ xs) [] zs h k = absurd (ground arith)
follows_trans (x ∷ xs) (y ∷ ys) [] h k = absurd (ground arith)
follows_trans (x ∷ xs) (y ∷ ys) (z ∷ zs) h k =
    ground (arith, eq_iff x.id y.id, moves_trans x.status y.status z.status, follows_trans xs ys zs)

pub ids-save : (j : Invitation) (xs : List Invitation) → ids (save_invitation j xs) ≡ ids xs
unfolding save_invitation
ids-save j [] = refl
ids-save j (x ∷ xs) = ground (arith, eq_iff x.id j.id, ids-save j xs)

ids-update_where :
    (p : Invitation → Bool) (g : Invitation → Invitation) (xs : List Invitation)
    → ((i : Invitation) → (g i).id ≡ i.id)
    → ids (update_where p g xs) ≡ ids xs
ids-update_where p g [] kept = refl
ids-update_where p g (x ∷ xs) kept = ground (arith, kept x, ids-update_where p g xs kept)

find-includes :
    (p : Invitation → Bool) (xs : List Invitation) (i : Invitation)
    → find p xs ≡ some i
    → includes (ids xs) i.id ≡ true
find-includes p [] i found = absurd (ground arith)
find-includes p (x ∷ xs) i found = ground (arith, eq_refl x.id, find-includes p xs i)

save_absent :
    (j : Invitation) (xs : List Invitation)
    → includes (ids xs) j.id ≡ false
    → save_invitation j xs ≡ xs
unfolding save_invitation
save_absent j [] h = refl
save_absent j (x ∷ xs) h = ground (arith, save_absent j xs)

follows-save :
    (p : Invitation → Bool) (xs : List Invitation) (i j : Invitation)
    → find p xs ≡ some i
    → j.id ≡ i.id
    → moves i.status j.status ≡ true
    → distinct (ids xs) ≡ true
    → follows xs (save_invitation j xs) ≡ true
unfolding save_invitation
follows-save p [] i j found same moved d = refl
follows-save p (x ∷ xs) i j found same moved d = elim (Bool-cases (p x)) [
  | inl here ↦
      let first : x ≡ i = ground arith in
      let rest = save_absent j xs (ground (arith, same, first)) in
      ground (arith, rest, first, same, moved, eq_refl x.id, eq_iff x.id j.id, follows_refl xs)
  | inr later ↦
      let found' : find p xs ≡ some i = ground arith in
      let other = find-includes p xs i found' in
      ground (
        arith,
        other,
        same,
        eq_iff x.id j.id,
        eq_refl x.id,
        moves_refl x.status,
        follows-save p xs i j found' same moved,
      )
]

follows-update_where :
    (p : Invitation → Bool) (g : Invitation → Invitation) (xs : List Invitation)
    → ((i : Invitation) → (g i).id ≡ i.id)
    → ((i : Invitation) → (g i).status ≡ i.status)
    → follows xs (update_where p g xs) ≡ true
follows-update_where p g [] kept still = refl
follows-update_where p g (x ∷ xs) kept still = ground (
  arith,
  kept x,
  still x,
  eq_refl x.id,
  moves_refl x.status,
  follows-update_where p g xs kept still,
)

follows-append : (xs : List Invitation) (i : Invitation) → follows xs (xs ++ i ∷ []) ≡ true
follows-append [] i = refl
follows-append (x ∷ xs) i = ground (arith, eq_refl x.id, moves_refl x.status, follows-append xs i)

includes-append :
    (ks : List String) (k l : String) → includes (ks ++ k ∷ []) l ≡ (includes ks l || k == l)
includes-append [] k l = ground arith
includes-append (m ∷ ks) k l = ground (arith, includes-append ks k l)

distinct-append :
    (ks : List String) (k : String)
    → distinct ks ≡ true
    → includes ks k ≡ false
    → distinct (ks ++ k ∷ []) ≡ true
distinct-append [] k d fresh = refl
distinct-append (l ∷ ks) k d fresh =
    ground (arith, distinct-append ks k, includes-append ks k l, eq_iff l k, eq_iff k l)

ids-append : (xs : List Invitation) (i : Invitation) → ids (xs ++ i ∷ []) ≡ ids xs ++ i.id ∷ []
ids-append [] i = refl
ids-append (x ∷ xs) i = ap (λ ks. x.id ∷ ks) (ids-append xs i)

abbrev Keeps : List Invitation → List Invitation → Type 0
Keeps xs ys = (follows xs ys ≡ true) × (distinct (ids ys) ≡ true)

Edit-Keeps : (xs ys : List Invitation) → Edit xs ys → distinct (ids xs) ≡ true → Keeps xs ys
Edit-Keeps xs ys (Edit.saves p _ i j found same moved) d = (
  follows-save p xs i j found same moved d,
  subst (λ ks. distinct ks ≡ true) (sym (ids-save j xs)) d,
)
Edit-Keeps xs ys (Edit.marks p g _ kept still) d = (
  follows-update_where p g xs kept still,
  subst (λ ks. distinct ks ≡ true) (sym (ids-update_where p g xs kept)) d,
)
Edit-Keeps xs ys (Edit.adds _ i fresh) d = (
  follows-append xs i,
  subst (λ ks. distinct ks ≡ true) (sym (ids-append xs i)) (distinct-append (ids xs) i.id d fresh),
)

pub Edits-Keeps : (xs ys : List Invitation) → Edits xs ys → distinct (ids xs) ≡ true → Keeps xs ys
Edits-Keeps xs ys Edits.nothing d = (follows_refl xs, d)
Edits-Keeps xs zs (Edits.then {ys = ys} first last) d =
    let (before, d') = Edits-Keeps xs ys first d in
    let (after, d'') = Edit-Keeps ys zs last d' in (follows_trans xs ys zs before after, d'')

pub Edits-trans : {xs ys zs : List Invitation} → Edits xs ys → Edits ys zs → Edits xs zs
Edits-trans first Edits.nothing = first
Edits-trans first (Edits.then more last) = Edits.then (Edits-trans first more) last
