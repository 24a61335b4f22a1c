-- ===== src/Access/Guard/Trail.antt =====
-- What the guard records of a refusal.
use balanz.Prelude.{
  String, ◌≡◌, ◌≢◌, Bool, true, List, [], ◌∷◌, ◌++◌, Option, some, arith, find, includes, truthy,
  eq_refl, eq_iff, Option-cases, inl, inr,
}
use balanz.Http.{ok}
use balanz.Store.{Db, AuditEvent, AuditDecision}
use balanz.Access.Audit.{record_event, with_request_correlation}
use balanz.Access.Context.{SessionContext}
use balanz.Access.Guard.{
  Request, is_sensitive, audit_denial, denial, denied_key, mfa_gate, check_permissions,
  authorize_request,
}

-- The tables after one more event.
abbrev pub with_event : AuditEvent → Db → Db
with_event event db = record db { audit_events = db.audit_events ++ event ∷ [] }

find-includes :
    (p : String → Bool) (keys : List String) {key : String}
    → find p keys ≡ some key
    → includes keys key ≡ true
find-includes p [] {key} h = ground arith
find-includes p (k ∷ ks) {key} h = ground (arith, eq_iff k key, find-includes p ks {key = key})

-- The key that an event names is one of the keys required.
denied_key-required :
    (key : String) (keys : List String)
    → (k : String) × (denied_key (key ∷ keys) ≡ some k) × (includes (key ∷ keys) k ≡ true)
denied_key-required key keys = elim (Option-cases (find is_sensitive (key ∷ keys))) [
  | inl plain ↦ (key, ground arith, ground (arith, eq_refl key))
  | inr (k, sensitive) ↦ (k, ground arith, find-includes is_sensitive (key ∷ keys) sensitive)
]

-- What a refusal's event says: who, for which organization, and a required key; it never allows.
pub record Reports (tenant : SessionContext) (keys : List String) (event : AuditEvent)
    : Type 0 where
  pub organization : event.organization_id ≡ tenant.organization_id
  pub actor : event.actor_user_id ≡ some tenant.user_id
  pub member : event.actor_membership_id ≡ tenant.membership_id
  pub key : String
  pub names : event.permission_key ≡ some key
  pub required : includes keys key ≡ true
  pub refused : event.decision ≢ AuditDecision.allow

module _ (current : Option String) (request : Request) (key : String) (keys : List String) (db : Db)
    (tenant : SessionContext) (id : String) (in_tenant : request.tenant_context ≡ some tenant)
    (correlated : request.correlation_id ≡ some id)
    (organization : truthy tenant.organization_id ≡ true)
    (not_empty : truthy (some id) ≡ true) where
  denial-Reports :
      (decision : AuditDecision) (reason : String)
      → decision ≢ AuditDecision.allow
      → Reports tenant
          (key ∷ keys)
          (with_request_correlation current (denial tenant id request (key ∷ keys) decision reason))
  denial-Reports decision reason ne =
      let (k, names, required) = denied_key-required key keys in
      record {
        organization = ground arith;
        actor = ground arith;
        member = ground arith;
        key = k;
        names = ground arith;
        required = required;
        refused = ground arith;
      }

  audit_denial-eq :
      (decision : AuditDecision) (reason : String)
      → audit_denial current request (some tenant) (some id) (key ∷ keys) decision reason db
        ≡ with_event
            (with_request_correlation current
              (denial tenant id request (key ∷ keys) decision reason))
            db
  unfolding audit_denial record_event
  audit_denial-eq decision reason = ground arith

  gate-ne-allow :
      (decision : AuditDecision) (reason : String)
      → mfa_gate request.auth_session (key ∷ keys) ≡ some (decision, reason)
      → decision ≢ AuditDecision.allow
  unfolding mfa_gate
  gate-ne-allow decision reason h e = absurd (ground arith)

  -- A request of a tenant, with a correlation, that the guard refuses leaves exactly one event more,
  -- which reports the tenant's member and a required key, and touches nothing else.
  pub authorize_request-denied :
      (authorize_request current request (some (key ∷ keys)) db).0 ≢ ok true
      → (event : AuditEvent) × Reports tenant (key ∷ keys) event
        × ((authorize_request current request (some (key ∷ keys)) db).1 ≡ with_event event db)
  unfolding authorize_request check_permissions
  authorize_request-denied refused =
      elim (Option-cases (mfa_gate request.auth_session (key ∷ keys))) [
        | inr ((decision, reason), shut) ↦ (
          with_request_correlation current (denial tenant id request (key ∷ keys) decision reason),
          denial-Reports decision reason (gate-ne-allow decision reason shut),
          ground (arith, audit_denial-eq decision reason),
        )
        | inl open_gate ↦ (
          with_request_correlation current
              (denial tenant id request (key ∷ keys) AuditDecision.deny "INSUFFICIENT_PERMISSION"),
          denial-Reports AuditDecision.deny "INSUFFICIENT_PERMISSION" (cc),
          ground (arith, audit_denial-eq AuditDecision.deny "INSUFFICIENT_PERMISSION"),
        )
      ]
