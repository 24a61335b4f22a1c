-- ===== src/Access/Guard/Laws.antt =====
-- Whom the guard lets through, and what it records.
use balanz.Prelude.{
  String, ◌≡◌, refl, inl, inr, ◌↔◌, ◌≢◌, true, false, List, [], ◌∷◌, Option, none, some, arith, any,
  sym, ◌∙◌, all-includes, all_of_includes, includes, is_some, Option-cases, Bool-cases,
}
use balanz.Http.{ok}
use balanz.Store.{Db, AuditDecision, AuthSession}
use balanz.Access.Contract.{has_permission, has_all_permissions}
use balanz.Access.Guard.{
  Request, is_sensitive, gate_failure, mfa_gate, check_permissions, authorize_request,
}

has_permission-eq :
    (granted : List String) (key : String) → has_permission granted key ≡ includes granted key
unfolding has_permission
has_permission-eq [] key = refl
has_permission-eq (g ∷ gs) key = ground (arith, has_permission-eq gs key)

-- Every required permission is one of those granted.
abbrev pub Covers : List String → List String → Type 0
Covers granted required =
    (key : String) → includes required key ≡ true → includes granted key ≡ true

has_all_permissions-Covers :
    (granted required : List String)
    → has_all_permissions granted required ≡ true
    → Covers granted required
unfolding has_all_permissions
has_all_permissions-Covers granted required h key k =
    sym (has_permission-eq granted key) ∙ all-includes (has_permission granted) required key h k

Covers-has_all_permissions :
    (granted required : List String)
    → Covers granted required
    → has_all_permissions granted required ≡ true
unfolding has_all_permissions
Covers-has_all_permissions granted required h =
    all_of_includes (has_permission granted) required
      (λ key k. has_permission-eq granted key ∙ h key k)

pub has_all_permissions_iff :
    (granted required : List String)
    → (has_all_permissions granted required ≡ true) ↔ Covers granted required
has_all_permissions_iff granted required =
    (has_all_permissions-Covers granted required, Covers-has_all_permissions granted required)

-- The permissions that the guard compares with: the tenant's, or those of the user if there is no
-- tenant.
abbrev pub granted_to : Request → List String
granted_to request = elim request.tenant_context [
  | some tenant ↦ tenant.permissions
  | none ↦ elim request.user_permissions [ some keys ↦ keys | none ↦ [] ]
]

-- A request with a session demands a second factor for sensitive keys, set up and verified.
abbrev pub SecondFactor : Option AuthSession → List String → Type 0
SecondFactor none required = Unit
SecondFactor (some s) required =
    any is_sensitive required ≡ true → (s.requires_mfa ≡ true) × (is_some s.mfa_verified_at ≡ true)

mfa_gate-none :
    (session : Option AuthSession) (required : List String)
    → (mfa_gate session required ≡ none) ↔ SecondFactor session required
unfolding mfa_gate
mfa_gate-none none required = (λ _. tt, λ _. refl)
mfa_gate-none (some s) required = (
  λ h k. ground arith,
  λ h. elim (Bool-cases (any is_sensitive required)) [
    | inl sensitive ↦ let (a, b) = h sensitive in ground arith
    | inr plain ↦ ground arith
  ],
)

nothing_granted : (key : String) (keys : List String) → has_all_permissions [] (key ∷ keys) ≡ false
unfolding has_all_permissions has_permission
nothing_granted key keys = refl

gate_refuses : (decision : AuditDecision) (reason : String) → gate_failure decision reason ≢ ok true
gate_refuses AuditDecision.mfa_required reason h = cc
gate_refuses AuditDecision.allow reason h = cc
gate_refuses AuditDecision.deny reason h = cc
gate_refuses AuditDecision.reauthentication_required reason h = cc
gate_refuses AuditDecision.out_of_scope reason h = cc

no_factor : (session : Option AuthSession) → SecondFactor session []
no_factor none = tt
no_factor (some s) = λ h. absurd (ground arith)

check_permissions-ok :
    (current : Option String) (request : Request) (key : String) (keys : List String) (db : Db)
    → ((check_permissions current request (key ∷ keys) db).0 ≡ ok true)
      ↔ (has_all_permissions (granted_to request) (key ∷ keys) ≡ true)
unfolding check_permissions
check_permissions-ok current request key keys db = elim (Option-cases request.tenant_context) [
  | inl no_tenant ↦ elim (Option-cases request.user_permissions) [
    | inl no_user ↦ (λ h. ground arith, λ h. absurd (ground (arith, nothing_granted key keys)))
    | inr (ps, user) ↦ (λ h. ground arith, λ h. ground arith)
  ]
  | inr (t, tenant) ↦ (λ h. ground arith, λ h. ground arith)
]

abbrev pub required_keys : Option (List String) → List String
required_keys none = []
required_keys (some keys) = keys

-- The guard lets a request through exactly if the second factor suffices for the required keys and
-- each of them is granted; an empty or absent list demands neither.
pub authorize_request_iff :
    (current : Option String) (request : Request) (required : Option (List String)) (db : Db)
    → ((authorize_request current request required db).0 ≡ ok true) ↔ (
        SecondFactor request.auth_session (required_keys required)
        × Covers (granted_to request) (required_keys required))
unfolding authorize_request
authorize_request_iff current request none db =
    (λ h. (no_factor request.auth_session, λ key k. cc), λ h. refl)
authorize_request_iff current request (some []) db =
    (λ h. (no_factor request.auth_session, λ key k. cc), λ h. refl)
authorize_request_iff current request (some (key ∷ keys)) db =
    elim (Option-cases (mfa_gate request.auth_session (key ∷ keys))) [
      | inl open_gate ↦ (
        λ h. (
          (mfa_gate-none request.auth_session (key ∷ keys)).0 open_gate,
          has_all_permissions-Covers _ _
              ((check_permissions-ok current request key keys db).0 (ground arith)),
        ),
        λ h.
            let good =
              (check_permissions-ok current request key keys db).1
                (Covers-has_all_permissions (granted_to request) (key ∷ keys) h.1) in
            ground arith,
      )
      | inr ((decision, reason), shut) ↦ (
        λ h. absurd (gate_refuses decision reason (ground arith)),
        λ h. absurd (ground (arith, (mfa_gate-none request.auth_session (key ∷ keys)).1 h.0)),
      )
    ]
