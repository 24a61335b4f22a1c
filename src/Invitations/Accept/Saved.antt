-- ===== src/Invitations/Accept/Saved.antt =====
-- The membership that `accept` saves.
use balanz.Prelude.{
  ℕ, String, ◌≡◌, inl, inr, arith, ◌&&◌, List, some, find, Option-cases, eq_refl, ◌==◌,
  find-update_saved, find-append_none,
}
use balanz.Store.{Db, User, Membership, MembershipStatus}
use balanz.Invitations.Table.{Invitation}
use balanz.Invitations.Accept.{find_member, save_membership, revoke_grants, joined}

-- The saved membership is the one of the organization and the user, with the invitation's role.
pub record Saved (i : Invitation) (user_id : String) (status : MembershipStatus) (m : Membership)
    (memberships : List Membership) : Type 0 where
  pub found : find_member i.organization_id user_id memberships ≡ some m
  pub role : m.role ≡ i.role
  pub in_status : m.status ≡ status
  pub user : m.user_id ≡ user_id

pub save_membership-Saved :
    (i : Invitation) (user : User) (new_id : String) (status : MembershipStatus) (now : ℕ) (db : Db)
    → let (m, db') =
        save_membership i user new_id status now
          (find_member i.organization_id user.id db.memberships)
          db in
      Saved i user.id status m db'.memberships
unfolding save_membership find_member revoke_grants
save_membership-Saved i user new_id status now db =
    let mine = λ (m : Membership). m.organization_id == i.organization_id && m.user_id == user.id in
    elim (Option-cases (find mine db.memberships)) [
      | inl new ↦
          let m = joined i new_id user.id now status now in
          let found =
            find-append_none mine db.memberships m new
              (ground (arith, eq_refl i.organization_id, eq_refl user.id)) in
          record {
            found = ground (arith, found, new);
            role = ground (arith, new);
            in_status = ground (arith, new);
            user = ground (arith, new);
          }
      | inr (existing, old) ↦
          let m = joined i existing.id user.id existing.created_at status now in
          let found =
            find-update_saved mine (λ x. x.id == existing.id) m db.memberships old
              (eq_refl existing.id) (ground (arith, eq_refl i.organization_id, eq_refl user.id)) in
          record {
            found = ground (arith, found, old);
            role = ground (arith, old);
            in_status = ground (arith, old);
            user = ground (arith, old);
          }
    ]
