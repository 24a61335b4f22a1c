-- ===== src/Invitations/Calls.antt =====
-- Sequences of calls of the operations of invitations.service.ts on the tables, by one caller after
-- the other: each runs in a transaction that locks the rows that it reads.
mod Writes
mod Created
pub mod Statuses
use balanz.Prelude.{ℕ, String, Bool, true, not, ◌&&◌, List, [], ◌∷◌, Option, includes}
use balanz.Http.{Result}
use balanz.Access.Context.{SessionContext}
use balanz.Access.Fiscal.{RequestContext}
use balanz.Invitations.Table.{Tables}
use balanz.Invitations.Accept.{AcceptInput, NewKeys, accept}
use balanz.Invitations.Create.{CreateInput, create}
use balanz.Invitations.Pending.{resend_invitation, revoke_invitation}
use balanz.Invitations.Edits.{ids}

-- What a call is given: the arguments of its request, and the keys, digests and times it reads.
pub data Call : Type 0 where
  accepts : Result (Unit {0}) → NewKeys → ℕ → String → AcceptInput → RequestContext → Call
  creates :
      Result (Unit {0})
      → ℕ
      → ℕ
      → ℕ
      → ℕ
      → ℕ
      → String
      → String
      → String
      → CreateInput
      → SessionContext
      → RequestContext
      → Call
  resends : Result (Unit {0}) → ℕ → ℕ → ℕ → String → String → SessionContext → RequestContext → Call
  revokes : ℕ → ℕ → String → SessionContext → RequestContext → Call

unfoldable pub run_call : Option String → Call → Tables → Tables
run_call current (Call.accepts delivery keys now id input request) t =
    (accept current delivery keys t now id input request).1
run_call current
      (Call.creates delivery sent_at at checked now created_at id hash organization_id input tenant
        request)
      t =
    (create current delivery sent_at t at checked now created_at id hash organization_id input
      tenant request).1
run_call current (Call.resends delivery sent_at at now hash id tenant request) t =
    (resend_invitation current delivery sent_at t at now hash id tenant request).1
run_call current (Call.revokes at now id tenant request) t =
    (revoke_invitation current t at now id tenant request).1

unfoldable pub run_calls : Option String → List Call → Tables → Tables
run_calls current [] t = t
run_calls current (c ∷ cs) t = run_calls current cs (run_call current c t)

-- the key of the row that a call may create is not one of the table
abbrev pub is_fresh : Call → Tables → Bool
is_fresh
      (Call.creates delivery sent_at at checked now created_at id hash organization_id input tenant
        request)
      t =
    not (includes (ids t.invitations) id)
is_fresh _ t = true

unfoldable pub are_fresh : Option String → List Call → Tables → Bool
are_fresh current [] t = true
are_fresh current (c ∷ cs) t = is_fresh c t && are_fresh current cs (run_call current c t)
