-- ===== src/Catalog/Keys.antt =====
-- The constants of common/auth/permission-catalog.ts but for the metadata.
use balanz.Prelude.{String, List, [], ◌∷◌}

-- PERMISSION_CATALOG
unfoldable pub permission_catalog : List String
permission_catalog =
    "periods.view" ∷ "periods.review" ∷ "periods.ready" ∷ "periods.takeover" ∷ "cfdi.review"
    ∷ "cfdi.classify" ∷ "cfdi.bulk_action" ∷ "cfdi.categories.manage" ∷ "checklist.view"
    ∷ "checklist.complete" ∷ "checklist.configure" ∷ "organization.view" ∷ "organization.manage"
    ∷ "ownership.manage" ∷ "billing.manage" ∷ "team.view" ∷ "clients.view" ∷ "clients.manage"
    ∷ "clients.assign" ∷ "fiscal_entities.view" ∷ "fiscal_entities.manage" ∷ "fiscal_years.view"
    ∷ "fiscal_years.manage" ∷ "credentials.manage" ∷ "sat.download" ∷ "payroll.view"
    ∷ "cfdi.exclude" ∷ "ingestion.view" ∷ "ingestion.create" ∷ "ingestion.retry"
    ∷ "ingestion.cancel" ∷ "processes.view" ∷ "processes.retry" ∷ "processes.cancel" ∷ "cfdi.view"
    ∷ "cfdi.download" ∷ "incidents.view" ∷ "incidents.manage" ∷ "exceptions.accept"
    ∷ "periods.close" ∷ "periods.reopen" ∷ "exports.generate" ∷ "support.authorize"
    ∷ "members.manage" ∷ "permissions.manage" ∷ []

-- HU_P0_003_PERMISSION_KEYS
unfoldable pub hu_p0_003_permission_keys : List String
hu_p0_003_permission_keys =
    "periods.takeover" ∷ "checklist.configure" ∷ "credentials.manage" ∷ "sat.download"
    ∷ "payroll.view" ∷ "cfdi.exclude" ∷ "exceptions.accept" ∷ "periods.close" ∷ "periods.reopen"
    ∷ "exports.generate" ∷ "support.authorize" ∷ "members.manage" ∷ "permissions.manage" ∷ []

-- LEGACY_MFA_PERMISSION_KEYS
unfoldable pub legacy_mfa_permission_keys : List String
legacy_mfa_permission_keys =
    "organization.manage" ∷ "ownership.manage" ∷ "billing.manage" ∷ "clients.assign"
    ∷ "fiscal_entities.manage" ∷ "cfdi.download" ∷ []

pub data RoleKey : Type 0 where
  admin accountant collaborator : RoleKey

-- ROLE_PERMISSION_KEYS
unfoldable pub role_permission_keys : RoleKey → List String
role_permission_keys admin = permission_catalog
role_permission_keys accountant =
    "periods.takeover" ∷ "periods.view" ∷ "periods.review" ∷ "periods.ready" ∷ "cfdi.review"
    ∷ "cfdi.classify" ∷ "cfdi.bulk_action" ∷ "checklist.view" ∷ "checklist.complete"
    ∷ "organization.view" ∷ "team.view" ∷ "clients.view" ∷ "clients.manage" ∷ "clients.assign"
    ∷ "fiscal_entities.view" ∷ "fiscal_entities.manage" ∷ "fiscal_years.view"
    ∷ "fiscal_years.manage" ∷ "credentials.manage" ∷ "sat.download" ∷ "payroll.view"
    ∷ "cfdi.exclude" ∷ "ingestion.view" ∷ "ingestion.create" ∷ "ingestion.retry"
    ∷ "ingestion.cancel" ∷ "processes.view" ∷ "processes.retry" ∷ "processes.cancel" ∷ "cfdi.view"
    ∷ "cfdi.download" ∷ "incidents.view" ∷ "incidents.manage" ∷ "exceptions.accept"
    ∷ "periods.close" ∷ "periods.reopen" ∷ "exports.generate" ∷ []
role_permission_keys collaborator =
    "periods.view" ∷ "periods.review" ∷ "periods.ready" ∷ "cfdi.review" ∷ "cfdi.classify"
    ∷ "cfdi.bulk_action" ∷ "checklist.view" ∷ "checklist.complete" ∷ "organization.view"
    ∷ "clients.view" ∷ "fiscal_entities.view" ∷ "fiscal_years.view" ∷ "ingestion.view"
    ∷ "ingestion.create" ∷ "ingestion.retry" ∷ "ingestion.cancel" ∷ "processes.view" ∷ "cfdi.view"
    ∷ "cfdi.download" ∷ "incidents.view" ∷ "incidents.manage" ∷ []
