-- ===== src/Access/Fiscal/Laws.antt =====
-- When a fiscal operation is authorized, and what a refusal records.
use balanz.Prelude.{
  ℕ, String, ◌<◌, ◌≡◌, sym, ◌∙◌, ◌≢◌, ◌⊎◌, inl, inr, true, false, Option, none, some, arith,
  Option-cases,
}
use balanz.Http.{ok, err, Failure, Result-cases}
use balanz.Store.{Db, AuditEvent, AuditDecision, AuthSession}
use balanz.Access.Audit.{record_event, with_request_correlation}
use balanz.Access.Context.{SessionContext}
use balanz.Access.Guard.Trail.{with_event}
use balanz.Access.Resolve.{find_active_session, revalidate_session}
use balanz.Access.Resolve.Laws.{
  ActiveTenant, is_effective, resolve-active, revalidate_session-active,
}
use balanz.Access.Scope.{require_accessible_account}
use balanz.Access.Scope.Laws.{require_accessible_account_iff}
use balanz.Access.Fiscal.Authorized.{Authorized, reauthenticated_iff, Reaches, Authorized-Reaches}
use balanz.Access.Fiscal.{
  Input, RequestContext, denied_event, refusal, authorize, worker_request, authorize_worker,
}

module _ (current : Option String) (db : Db) (now : ℕ) (session : AuthSession)
    (context : SessionContext) (request : RequestContext) (input : Input) where
  refusal-none :
      refusal db now session context input ≡ none → Authorized db now session context input
  unfolding refusal
  refusal-none h =
      elim (Result-cases (require_accessible_account db input.client_account_id context false)) [
        | inl (e, out) ↦ absurd (ground arith)
        | inr (a, inside) ↦ record {
          tenant = ground arith;
          mfa_verified = ground arith;
          mfa_enrolled = ground arith;
          permitted = ground arith;
          account = a;
          scope =
              ((require_accessible_account_iff db input.client_account_id context false).0 a).0
                inside;
          recent =
              (reauthenticated_iff input.require_reauthentication session.reauthenticated_at now).0
                (ground arith);
        }
      ]

  Authorized-refusal :
      Authorized db now session context input → refusal db now session context input ≡ none
  unfolding refusal
  Authorized-refusal a =
      let inside =
        ((require_accessible_account_iff db input.client_account_id context false).0 a.account).1
          a.scope in
      let fresh =
        (reauthenticated_iff input.require_reauthentication session.reauthenticated_at now).1
          a.recent in
      let (oid, mid) = a.scope.not_blank in ground arith

  -- The event of a refusal: the member and the permission refused, never an approval, and nothing
  -- of the account or the object if these are out of scope.
  abbrev pub Refused : AuditEvent → Type 0
  Refused event =
      (event.organization_id ≡ context.organization_id)
      × (event.actor_user_id ≡ some context.user_id)
      × (event.permission_key ≡ some input.permission)
      × (event.decision ≢ AuditDecision.allow)
      × (event.decision ≡ AuditDecision.out_of_scope
          → (event.client_account_id ≡ none) × (event.object_id ≡ none))

  kept-decision :
      (event : AuditEvent) → (with_request_correlation current event).decision ≡ event.decision
  kept-decision event = ground arith

  refusal-ne-allow :
      (decision : AuditDecision) (reason : String) (failure : Failure)
      → refusal db now session context input ≡ some (decision, reason, failure)
      → decision ≢ AuditDecision.allow
  unfolding refusal
  refusal-ne-allow decision reason failure h e = absurd (ground arith)

  refusal-Refused :
      (decision : AuditDecision) (reason : String) (failure : Failure)
      → refusal db now session context input ≡ some (decision, reason, failure)
      → Refused
          (with_request_correlation current (denied_event context request input decision reason))
  refusal-Refused decision reason failure h = (
    ground arith,
    ground arith,
    ground arith,
    λ e.
        refusal-ne-allow decision reason failure h
          (sym (kept-decision (denied_event context request input decision reason)) ∙ e),
    λ e. (ground arith, ground arith),
  )

  -- `authorize` succeeds and changes nothing if all its demands hold; otherwise it throws, with
  -- exactly one event more that reports the refusal.
  pub authorize-outcome :
      ((authorize current db now session context request input ≡ (ok tt, db))
        × Authorized db now session context input)
      ⊎ ((failure : Failure) × (event : AuditEvent) × (authorize current db now session context
              request input
            ≡ (err failure, with_event event db))
          × Refused event
          × ¬ Authorized db now session context input)
  unfolding authorize record_event
  authorize-outcome = elim (Option-cases (refusal db now session context input)) [
    | inl allowed ↦ inl (ground arith, refusal-none allowed)
    | inr ((decision, reason, failure), refused) ↦ inr (
      failure,
      with_request_correlation current (denied_event context request input decision reason),
      ground arith,
      refusal-Refused decision reason failure refused,
      λ a. ground (arith, Authorized-refusal a),
    )
  ]

authorize_worker-revalidated :
    (current : Option String) (db db' : Db) (at now later last : ℕ)
    (session_id correlation_id : String) (input : Input) (session : AuthSession)
    (context : SessionContext)
    → authorize_worker current db at now later last session_id correlation_id input
      ≡ (ok (session, context), db')
    → revalidate_session db at now later session_id ≡ ok (session, context)
unfolding authorize_worker
authorize_worker-revalidated current db db' at now later last session_id correlation_id input
      session context h =
    elim (Result-cases (revalidate_session db at now later session_id)) [
      | inl (e, failed) ↦ absurd (ground arith)
      | inr ((s, c), valid) ↦
          elim (Result-cases
            (authorize current db last s c (worker_request correlation_id) input).0) [
              | inl (e, refused) ↦ absurd (ground arith)
              | inr (_, allowed) ↦ ground arith
            ]
    ]

authorize_worker-Authorized :
    (current : Option String) (db db' : Db) (at now later last : ℕ)
    (session_id correlation_id : String) (input : Input) (session : AuthSession)
    (context : SessionContext)
    → authorize_worker current db at now later last session_id correlation_id input
      ≡ (ok (session, context), db')
    → revalidate_session db at now later session_id ≡ ok (session, context)
    → (db' ≡ db) × Authorized db last session context input
unfolding authorize_worker
authorize_worker-Authorized current db db' at now later last session_id correlation_id input session
      context h valid =
    elim (authorize-outcome current db last session context (worker_request correlation_id) input) [
      | inr (failure, event, refused, _, _) ↦ absurd (ground arith)
      | inl (allowed, good) ↦ (ground arith, good)
    ]

-- A worker is authorized only by a session that is active and unexpired in the table, whose user,
-- organization and membership are active, whose membership holds the permission by the contract's
-- precedence, whose user has an active second factor that was verified in this session, and to whom
-- the account is open by these rows: it is of the organization, is not archived, and is assigned to
-- the membership unless the user owns the organization; the tables stay as they were.
pub authorize_worker-ok :
    (current : Option String) (db db' : Db) (at now later last : ℕ)
    (session_id correlation_id : String) (input : Input) (session : AuthSession)
    (context : SessionContext)
    → authorize_worker current db at now later last session_id correlation_id input
      ≡ (ok (session, context), db')
    → (find_active_session db session_id ≡ some session)
      × (at < session.expires_at)
      × (db' ≡ db)
      × Authorized db last session context input
      × ((rows : ActiveTenant db later session) × (is_effective db now rows.user rows.organization
              rows.membership input.permission
            ≡ true)
          × Reaches db input later session rows)
authorize_worker-ok current db db' at now later last session_id correlation_id input session context
      h =
    let valid =
      authorize_worker-revalidated current db db' at now later last session_id correlation_id input
        session context h in
    let (same, good) =
      authorize_worker-Authorized current db db' at now later last session_id correlation_id input
        session context h valid in
    let (found, fresh, resolved, active) =
      revalidate_session-active db at now later session_id session context valid in
    let (rows, effective) = resolve-active db now later session context resolved active in
    (
      found,
      fresh,
      same,
      good,
      (
        rows,
        sym (effective input.permission) ∙ good.permitted,
        Authorized-Reaches db now later last session context input rows resolved good,
      ),
    )
