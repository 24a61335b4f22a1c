-- ===== src/Invitations/Create/Grants.antt =====
-- What the checked role and permissions of a new invitation guarantee.
use balanz.Prelude.{
  String, ◌≡◌, inl, inr, arith, true, not, ◌&&◌, ◌||◌, List, all, any, filter, count, length,
  includes, is_empty, eqb, Bool-cases, ◌==◌, any-filter, any-not,
}
use balanz.Http.{ok}
use balanz.Store.{Db, Role, RolePermission, permission_active}
use balanz.Access.Context.{SessionContext}
use balanz.Invitations.Create.{validate_grantable_permissions}

-- The checked permissions are all the caller's.
pub record Grantable (role : Role) (proposed : List String) (tenant : SessionContext) (db : Db)
    : Type 0 where
  pub defaults :
      all
        (λ r. not (
          (r.role_id == role.id && r.enabled)
          && not (includes tenant.permissions r.permission.key)))
        db.role_permissions
      ≡ true
  pub proposals : all (λ key. includes tenant.permissions key) proposed ≡ true
  pub known :
      is_empty proposed
        || eqb
            (count (λ p. includes proposed p.key && permission_active p.status) db.permissions)
            (length proposed)
      ≡ true

pub validate-Grantable :
    (role : Role) (proposed : List String) (tenant : SessionContext) (db : Db)
    → validate_grantable_permissions role proposed tenant db ≡ ok tt
    → Grantable role proposed tenant db
unfolding validate_grantable_permissions
validate-Grantable role proposed tenant db h =
    let defaults =
      filter (λ (r : RolePermission). r.role_id == role.id && r.enabled) db.role_permissions in
    elim (Bool-cases (any (λ r. not (includes tenant.permissions r.permission.key)) defaults)) [
      | inl above ↦ absurd (ground arith)
      | inr fine ↦ elim (Bool-cases (any (λ key. not (includes tenant.permissions key)) proposed)) [
        | inl above ↦ absurd (ground arith)
        | inr own ↦ record {
          defaults = any-filter _ _ db.role_permissions fine;
          proposals = any-not _ proposed own;
          known = ground arith;
        }
      ]
    ]
