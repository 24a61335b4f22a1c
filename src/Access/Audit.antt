-- ===== src/Access/Audit.antt =====
-- modules/audit/audit.service.ts: an event is inserted with the correlation of the running request,
-- if there is one. The repository is configured, as in the running application.
use balanz.Prelude.{String, Option, none, some, [], ◌∷◌, ◌++◌}
use balanz.Store.{Db, AuditEvent}

-- `this.correlation?.current() ?? event.correlationId`
abbrev pub with_request_correlation : Option String → AuditEvent → AuditEvent
with_request_correlation none event = event
with_request_correlation (some id) event = record event { correlation_id = id }

-- `record` and `recordDirect`; `current` is the correlation of the running request.
unfoldable pub record_event : Option String → AuditEvent → Db → Db
record_event current event db = record db {
  audit_events = db.audit_events ++ with_request_correlation current event ∷ [];
}
