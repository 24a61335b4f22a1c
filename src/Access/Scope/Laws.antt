-- ===== src/Access/Scope/Laws.antt =====
-- Which accounts are in the scope of a context.
use balanz.Prelude.{String, ◌≡◌, ◌↔◌, inl, inr, Bool, true, some, arith, truthy, Option-cases}
use balanz.Http.{ok, err, Failure, not_found}
use balanz.Store.{Db, ClientAccount, is_archived}
use balanz.Access.Context.{SessionContext, assigned}
use balanz.Access.Scope.{find_account, is_assigned, require_accessible_account}

-- The account is the one asked for, of the context's own organization, not archived unless that is
-- allowed, and assigned to the context's membership unless the context is the owner's.
pub record InScope (db : Db) (account_id : String) (context : SessionContext)
    (allow_archived : Bool) (account : ClientAccount) : Type 0 where
  pub organization_id : String
  pub membership_id : String
  pub own_organization : context.organization_id ≡ some organization_id
  pub own_membership : context.membership_id ≡ some membership_id
  pub not_blank : (truthy (some organization_id) ≡ true) × (truthy (some membership_id) ≡ true)
  pub found : find_account db account_id organization_id ≡ some account
  pub status : is_archived account.status ≡ true → allow_archived ≡ true
  pub scope :
      context.account_access_mode ≡ assigned
      → is_assigned db organization_id account_id membership_id ≡ true

module _ (db : Db) (account_id : String) (context : SessionContext) (allow_archived : Bool) where
  pub require_accessible_account-InScope :
      (account : ClientAccount)
      → require_accessible_account db account_id context allow_archived ≡ ok account
      → InScope db account_id context allow_archived account
  unfolding require_accessible_account
  require_accessible_account-InScope account h = elim (Option-cases context.organization_id) [
    | inl missing ↦ absurd (ground arith)
    | inr (oid, org) ↦ elim (Option-cases context.membership_id) [
      | inl missing ↦ absurd (ground arith)
      | inr (mid, mem) ↦ elim (Option-cases (find_account db account_id oid)) [
        | inl missing ↦ absurd (ground arith)
        | inr (a, found) ↦ record {
          organization_id = oid;
          membership_id = mid;
          own_organization = org;
          own_membership = mem;
          not_blank = ground arith;
          found = ground arith;
          status = ground arith;
          scope = ground arith;
        }
      ]
    ]
  ]

  pub InScope-require_accessible_account :
      (account : ClientAccount)
      → InScope db account_id context allow_archived account
      → require_accessible_account db account_id context allow_archived ≡ ok account
  unfolding require_accessible_account
  InScope-require_accessible_account account s = ground arith

  one_error :
      (e : Failure)
      → require_accessible_account db account_id context allow_archived ≡ err e
      → e ≡ not_found "CLIENT_ACCOUNT_NOT_FOUND"
  unfolding require_accessible_account
  one_error e h = ground arith

  -- `requireAccessibleAccount` returns an account exactly if it is in the context's scope; in every
  -- other case it throws one and the same error, which does not tell a foreign account from an
  -- absent one.
  pub require_accessible_account_iff :
      ((account : ClientAccount)
        → (require_accessible_account db account_id context allow_archived ≡ ok account)
          ↔ InScope db account_id context allow_archived account)
      × ((e : Failure)
          → require_accessible_account db account_id context allow_archived ≡ err e
          → e ≡ not_found "CLIENT_ACCOUNT_NOT_FOUND")
  require_accessible_account_iff = (
    λ account.
        (require_accessible_account-InScope account, InScope-require_accessible_account account),
    one_error,
  )
