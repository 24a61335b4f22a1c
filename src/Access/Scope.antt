-- ===== src/Access/Scope.antt =====
-- modules/client-accounts/client-account-scope.service.ts: ClientAccountScopeService. The variant
-- over an entity manager reads the same rows under an optional lock, and is the same function.
pub mod Laws
use balanz.Prelude.{
  String, Bool, true, false, not, ◌&&◌, ◌||◌, Option, none, some, any, find, truthy, if◌then◌else◌,
  ◌==◌,
}
use balanz.Http.{Result, ok, err, not_found, ◌>>=◌, ◌>>◌, or_throw, throw_if}
use balanz.Store.{Db, ClientAccount, assignment_active, is_archived}
use balanz.Access.Context.{SessionContext, AccountAccessMode, tenant, assigned}

-- the account of an organization, by its identifier
unfoldable pub find_account : Db → String → String → Option ClientAccount
find_account db account_id organization_id =
    find (λ a. a.id == account_id && a.organization_id == organization_id) db.client_accounts

-- `assignments.existsBy({ …, status: ACTIVE })`
unfoldable pub is_assigned : Db → String → String → String → Bool
is_assigned db organization_id account_id membership_id =
    any
      (λ a.
        a.organization_id == organization_id
        && a.client_account_id == account_id
        && a.membership_id == membership_id
        && assignment_active a.status)
      db.account_assignments

-- `if (context.accountAccessMode === 'assigned')`
abbrev pub in_scope : AccountAccessMode → Bool → Bool
in_scope tenant assignment = true
in_scope assigned assignment = assignment

abbrev account_not_found {ℓ} : {A : Type ℓ} → Result A
account_not_found = err (not_found "CLIENT_ACCOUNT_NOT_FOUND")

-- requireAccessibleAccount and requireAccessibleAccountWithManager
unfoldable pub require_accessible_account :
    Db → String → SessionContext → Bool → Result ClientAccount
require_accessible_account db account_id context allow_archived = elim context.organization_id [
  | none ↦ account_not_found
  | some organization_id ↦ elim context.membership_id [
    | none ↦ account_not_found
    | some membership_id ↦
        if not (truthy (some organization_id)) || not (truthy (some membership_id))
        then account_not_found
        else (do
          account ←
              or_throw (find_account db account_id organization_id)
                (not_found "CLIENT_ACCOUNT_NOT_FOUND")
          throw_if (is_archived account.status && not allow_archived)
              (not_found "CLIENT_ACCOUNT_NOT_FOUND")
          throw_if
              (not (
                in_scope context.account_access_mode
                  (is_assigned db organization_id account_id membership_id)))
              (not_found "CLIENT_ACCOUNT_NOT_FOUND")
          ok account)
  ]
]

-- canIncludeArchived
pub can_include_archived : SessionContext → Bool
can_include_archived context = elim context.account_access_mode [ tenant ↦ true | assigned ↦ false ]
