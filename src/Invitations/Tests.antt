-- ===== src/Invitations/Tests.antt =====
-- Bruno invites Carla as an accountant, she accepts, and Ana's membership is suspended.
use balanz.Prelude.{◌≡◌, refl, true, false, List, [], ◌∷◌, none, some, is_some_of}
use balanz.Http.{Result, ok, err, Failure}
use balanz.Store.{Organization, OrganizationStatus, MembershipStatus}
use balanz.Access.Audit.{record_event}
use balanz.Access.Context.{SessionContext}
use balanz.Access.Contract.{has_recent_reauthentication}
use balanz.Access.Fiscal.{RequestContext}
use balanz.Access.Sample.{user, tables, ana, member}
use balanz.Sessions.Activity.{State}
use balanz.Sessions.Service.{resolve}
use balanz.Sessions.Revocation.{
  delete_sessions, revoke_where, revoke_selected, revoke_membership_sessions,
}
use balanz.Sessions.Sample.{settings, run, hash_token, st}
use balanz.Invitations.Table.{
  can_accept_invitation, Invitation, InvitationStatus, DeliveryStatus, Tables, save_invitation,
  can_transition_invitation, require_reauthentication,
}
use balanz.Invitations.Accept.{
  is_taken, AcceptInput, NewKeys, Accepted, find_or_create_user, membership_status_of, find_member,
  save_membership, renew_verification, finish_acceptance, accept_pending, find_invitation, accept,
}
use balanz.Invitations.Accept.Laws.{Joined, accept-Joined, accept-accept}
use balanz.Invitations.Accept.Completes.{accept_completes}
use balanz.Invitations.Create.{
  CreateInput, validate_grantable_permissions, expire_previous, create_in_transaction,
  deliver_invitation, create,
}
use balanz.Invitations.Create.Laws.{Created, create-Created}
use balanz.Invitations.Pending.{
  find_own, resend_in_transaction, resend_invitation, revoke_in_transaction, revoke_invitation,
}
use balanz.Invitations.Edits.{ids, distinct, follows, moves}
use balanz.Invitations.Calls.{Call, run_call, run_calls, are_fresh}
use balanz.Invitations.Calls.Statuses.{run_calls-follows}
use balanz.Invitations.Members as Members
use balanz.Invitations.Members.{
  MembershipAction, valid_membership_action, find_membership, change_in_transaction, admit_change,
  change_membership_status,
}
use balanz.Invitations.Members.Laws.{Changed, change_membership_status-Changed}
use balanz.Invitations.Members.Ended.{change_membership_status-resolve}

abbrev bruno : SessionContext
bruno = record ana {
  user_id = "bruno";
  membership_id = some "m-bruno";
  permissions = "periods.close" ∷ "cfdi.view" ∷ [];
}

abbrev request : RequestContext
request = record { correlation_id = "c1"; ip_address = none }

abbrev start : Tables
start = record {
  db = tables;
  roles = record { id = "accountant"; key = "accountant" } ∷ [];
  invitations = [];
  verification_tokens = [];
}

abbrev to_carla : CreateInput
to_carla = record {
  email_normalized = "carla";
  role = "accountant";
  expires_at = 5000;
  proposed_permissions = "cfdi.view" ∷ [];
}

abbrev invited : Invitation
invited = record {
  id = "i1";
  organization_id = "org";
  email = "carla";
  email_normalized = "carla";
  user_id = none;
  role = record { id = "accountant"; key = "accountant" };
  proposed_permissions = "cfdi.view" ∷ [];
  token_hash = "digest";
  status = InvitationStatus.pending;
  invited_by_membership_id = "m-bruno";
  accepted_membership_id = none;
  expires_at = 5000;
  last_sent_at = 300;
  send_count = 1;
  delivery_status = DeliveryStatus.sent;
  accepted_at = none;
  revoked_at = none;
  created_at = 300;
}

-- What the runs below compute with.
runs : Unit {0}
unfolding record_event has_recent_reauthentication delete_sessions revoke_where revoke_selected
    revoke_membership_sessions save_invitation can_transition_invitation find_or_create_user
    membership_status_of find_member save_membership renew_verification finish_acceptance
    accept_pending find_invitation accept validate_grantable_permissions expire_previous
    create_in_transaction deliver_invitation create find_own resend_in_transaction resend_invitation
    revoke_in_transaction revoke_invitation moves run_call run_calls are_fresh
    valid_membership_action find_membership Members.save_membership change_in_transaction
    admit_change change_membership_status
runs = tt

abbrev created : Result Invitation × Tables
created = create none (ok tt) 310 start 300 300 300 300 "i1" "digest" "org" to_carla bruno request

creates : created ≡ (ok invited, created.1)
unfolding runs
creates = refl

create-Created_example :
    Created start 300 300 "i1" "digest" "org" to_carla bruno invited created.1
    × (require_reauthentication bruno 300 ≡ ok tt)
create-Created_example =
    create-Created none (ok tt) 310 start created.1 300 300 300 300 "i1" "digest" "org" to_carla
      bruno request invited creates

abbrev keys : NewKeys
keys = record {
  user_id = "carla-id";
  membership_id = "m-carla";
  verification_hash = "verify";
  verification_ttl_minutes = 60;
}

abbrev answer : AcceptInput
answer = record {
  token_hash = "digest";
  email_normalized = "carla";
  first_name = some "Carla";
  last_name = some "Paz";
  password = some "secret";
}

abbrev acceptance : Result Accepted × Tables
acceptance = accept none (ok tt) keys created.1 400 "i1" answer request

abbrev accepted : Accepted
accepted = record {
  invitation_id = "i1";
  user_id = "carla-id";
  membership_id = "m-carla";
  membership_status = MembershipStatus.pending;
  role = "accountant";
}

accepts : acceptance ≡ (ok accepted, acceptance.1)
unfolding runs
accepts = refl

accept-Joined_example : Joined created.1 400 "i1" answer accepted acceptance.1
accept-Joined_example =
    accept-Joined none (ok tt) keys created.1 acceptance.1 400 "i1" answer request accepted accepts

accept-accept_example :
    (e : Failure) × (accept none (ok tt) keys acceptance.1 500 "i1" answer request
      ≡ (err e, acceptance.1))
accept-accept_example =
    accept-accept none (ok tt) keys created.1 acceptance.1 400 "i1" answer request accepted none
      (ok tt) keys 500 answer request accepts

-- The invitation is sent again and accepted; a second one is created and revoked.
abbrev calls : List Call
calls =
    Call.resends (ok tt) 330 320 320 "digest-2" "i1" bruno request
    ∷ Call.accepts (ok tt) keys 400 "i1" (record answer { token_hash = "digest-2" }) request
    ∷ Call.creates (ok tt) 420 410 410 410 410 "i2" "digest-3" "org"
        (record to_carla { email_normalized = "dora" }) bruno request
    ∷ Call.revokes 430 430 "i2" bruno request
    ∷ []

fresh : are_fresh none calls created.1 ≡ true
unfolding runs
fresh = refl

different_keys : distinct (ids created.1.invitations) ≡ true
unfolding runs
different_keys = refl

run_calls-follows_example :
    (follows created.1.invitations (run_calls none calls created.1).invitations ≡ true)
    × (distinct (ids (run_calls none calls created.1).invitations) ≡ true)
run_calls-follows_example = run_calls-follows none calls created.1 different_keys fresh

abbrev suspension : Result (Unit {0}) × State
suspension =
    change_membership_status none (λ s. false) st 300 300 300 "m-ana" MembershipAction.suspend bruno
      request

suspends : suspension ≡ (ok tt, suspension.1)
unfolding runs
suspends = refl

change_membership_status-Changed_example :
    (require_reauthentication bruno 300 ≡ ok tt)
    × (is_some_of bruno.membership_id "m-ana" ≡ false)
    × Changed "org" "m-ana" MembershipAction.suspend st.db suspension.1.db
change_membership_status-Changed_example =
    change_membership_status-Changed none (λ s. false) st suspension.1 300 300 300 "m-ana" "org"
      MembershipAction.suspend bruno request refl suspends

finds-ana :
    find_membership "m-ana" "org" st.db.memberships ≡ some (member "m-ana" "ana" "accountant")
unfolding runs
finds-ana = refl

change_membership_status-resolve_example :
    (e : Failure) × ((resolve hash_token settings run (some "hash") suspension.1).0 ≡ err e)
change_membership_status-resolve_example =
    change_membership_status-resolve hash_token settings run "hash" none (λ s. false) st
      suspension.1 300 300 300 "m-ana" "org" MembershipAction.suspend bruno request
      (member "m-ana" "ana" "accountant") refl suspends finds-ana refl refl refl

-- Ana, who is registered and has a second factor, is invited to another organization.
abbrev other : Organization
other = record {
  id = "org-2";
  name = "Otra";
  slug = "otra";
  owner_user_id = "olga";
  status = OrganizationStatus.active;
}

abbrev to_ana : Invitation
to_ana = record invited { organization_id = "org-2"; email = "ana"; email_normalized = "ana" }

abbrev two_organizations : Tables
two_organizations = record start {
  db = record tables { organizations = other ∷ [] };
  invitations = to_ana ∷ [];
}

abbrev ana_answer : AcceptInput
ana_answer = record answer { email_normalized = "ana" }

finds : find_invitation "i1" two_organizations.invitations ≡ some to_ana
unfolding runs
finds = refl

vacant :
    is_taken (find_member to_ana.organization_id "ana" two_organizations.db.memberships) ≡ false
unfolding runs
vacant = refl

in_time : can_accept_invitation to_ana.status to_ana.expires_at 400 ≡ true
in_time = refl

accept_completes_example :
    (r : Accepted) × (t' : Tables) × (accept none
        (ok tt)
        keys
        two_organizations
        400
        "i1"
        ana_answer
        request
      ≡ (ok r, t'))
    × Joined two_organizations 400 "i1" ana_answer r t'
    × (r.invitation_id ≡ "i1")
    × (r.user_id ≡ "ana")
    × (r.membership_status ≡ membership_status_of two_organizations.db (user "ana"))
    × (r.role ≡ "accountant")
accept_completes_example =
    accept_completes none keys two_organizations 400 "i1" ana_answer request to_ana other
      (user "ana") finds refl in_time refl refl refl vacant

ana_status : membership_status_of two_organizations.db (user "ana") ≡ MembershipStatus.active
unfolding runs
ana_status = refl
