-- ===== src/Invitations/Calls/Statuses.antt =====
-- The keys and statuses of invitations over sequences of calls.
use balanz.Prelude.{String, ◌≡◌, arith, true, List, [], ◌∷◌, Option}
use balanz.Invitations.Table.{Tables}
use balanz.Invitations.Edits.{Edits, Edits-trans, Edits-Keeps, ids, distinct, follows}
use balanz.Invitations.Calls.{Call, run_call, run_calls, is_fresh, are_fresh}
use balanz.Invitations.Calls.Writes.{accept-Edits, resend-Edits, revoke-Edits}
use balanz.Invitations.Calls.Created.{create-Edits}

run_call-Edits :
    (current : Option String) (c : Call) (t : Tables)
    → is_fresh c t ≡ true
    → Edits t.invitations (run_call current c t).invitations
unfolding run_call
run_call-Edits current (Call.accepts delivery keys now id input request) t fresh =
    accept-Edits current delivery keys t now id input request
run_call-Edits current
      (Call.creates delivery sent_at at checked now created_at id hash organization_id input tenant
        request)
      t fresh =
    create-Edits current delivery sent_at t at checked now created_at id hash organization_id input
      tenant request (ground arith)
run_call-Edits current (Call.resends delivery sent_at at now hash id tenant request) t fresh =
    resend-Edits current delivery sent_at t at now hash id tenant request
run_call-Edits current (Call.revokes at now id tenant request) t fresh =
    revoke-Edits current t at now id tenant request

run_calls-Edits :
    (current : Option String) (cs : List Call) (t : Tables)
    → are_fresh current cs t ≡ true
    → Edits t.invitations (run_calls current cs t).invitations
unfolding run_calls are_fresh
run_calls-Edits current [] t fresh = Edits.nothing
run_calls-Edits current (c ∷ cs) t fresh =
    Edits-trans (run_call-Edits current c t (ground arith))
      (run_calls-Edits current cs (run_call current c t) (ground arith))

-- Whatever calls the invitations receive, each with a fresh key for a row that it may create, the
-- keys stay distinct, every row stays under its key, and its status is then the one before or what
-- `canTransitionInvitation` allows from it.
pub run_calls-follows :
    (current : Option String) (calls : List Call) (t : Tables)
    → distinct (ids t.invitations) ≡ true
    → are_fresh current calls t ≡ true
    → (follows t.invitations (run_calls current calls t).invitations ≡ true)
      × (distinct (ids (run_calls current calls t).invitations) ≡ true)
run_calls-follows current calls t keys fresh =
    Edits-Keeps _ _ (run_calls-Edits current calls t fresh) keys
