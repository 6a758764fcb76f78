-- ===== src/Crew/Tests.antt =====
-- Runs of the operations on assignments, and their theorems at concrete inputs.
use racetify_api.Base.{ℕ, String, true, false, List, [], ◌∷◌, Option, none, some, ◌≡◌, refl}
use racetify_api.Text.{Unicode, map_text, trim_space, trim_left, trim_right, is_space}
use racetify_api.Domain.{Error, ok, err}
use racetify_api.Auth.{User}
use racetify_api.Tenant.{is_at_least, get_row, update_row, active_role}
use racetify_api.Tenant.Invitations.{normalize_email}
use racetify_api.Event.{Event}
use racetify_api.Crew.{
  EventAssignment, EventInvitation, Store, is_usable, get_assignment_for_user, tenant_id_for_event,
  create_assignment, mark_event_invitation_accepted, get_event_invitation_by_token_hash,
  revoke_assignment_row,
}
use racetify_api.Crew.Service.{
  Draw, revoke_assignment, revoke_assignment_tx, assign_to_event, accept_event_invitation,
  accept_tx, check_acceptance,
}
use racetify_api.Crew.Access.{as_crew, claims, require_event_access}
use racetify_api.Crew.Gate.{IsAllowed, require_event_access-IsAllowed}
use racetify_api.Crew.Revocation.{as_staff, revoke_assignment-denied, assign_to_event-taken}
use racetify_api.Crew.Acceptance.{IsOpen, grant_of, accept_event_invitation-IsOpen}

abbrev plain : Unicode
plain = record { to_upper = λ c. c; to_lower = λ c. c }

abbrev hash : String → String
hash s = s

abbrev ana : User
ana = record {
  id = "u3";
  email = "ana@x.org";
  password_hash = none;
  first_name = "Ana";
  last_name = "";
  phone = none;
  is_email_verified = true;
  is_super_admin = false;
  status = "active";
  terms_accepted_at = none;
  created_at = 1;
  updated_at = 1;
}

abbrev run : Event
run = record {
  id = "e1";
  tenant_id = "t1";
  name = "Lari Pagi";
  slug = "lari-pagi";
  venue = none;
  start_date = none;
  end_date = none;
  logo_storage_id = none;
  thumbnail_storage_id = none;
  primary_color = none;
  status = "draft";
  created_by = "u1";
  created_at = 100;
  updated_at = 100;
}

abbrev grant : EventAssignment
grant = record {
  id = "a1";
  tenant_id = "t1";
  event_id = "e1";
  user_id = "u3";
  label = "crew";
  capabilities = "rpc:checkin" ∷ [];
  status = "active";
  assigned_by = "u1";
  expires_at = some 500;
  created_at = 200;
  updated_at = 200;
}

abbrev offer : EventInvitation
offer = record {
  id = "i1";
  tenant_id = "t1";
  event_id = "e1";
  email = "ana@x.org";
  label = "crew";
  capabilities = "rpc:checkin" ∷ [];
  token_hash = "secret";
  invited_by = "u1";
  status = "pending";
  expires_at = 300;
  assignment_expires_at = some 500;
  accepted_at = none;
  created_at = 150;
}

abbrev with_rows : List EventAssignment → List EventInvitation → List String → Store
with_rows assignments invitations audit = record {
  workspaces = record {
    tenants = [];
    members = [];
    invitations = [];
    users = ana ∷ [];
    audit = audit;
  };
  events = run ∷ [];
  assignments = assignments;
  invitations = invitations;
}

abbrev staffed : Store
staffed = with_rows (grant ∷ []) [] []

gate_test :
    require_event_access "rpc:checkin" 400 none (some "u3") "e1" staffed
    ≡ as_crew "t1" ("rpc:checkin" ∷ [])
unfolding require_event_access tenant_id_for_event get_row get_assignment_for_user active_role
    is_usable
gate_test = refl

require_event_access-IsAllowed_example :
    IsAllowed "rpc:checkin" 400 none "e1" staffed
      (some "u3")
      (require_event_access "rpc:checkin" 400 none (some "u3") "e1" staffed)
require_event_access-IsAllowed_example =
    require_event_access-IsAllowed "rpc:checkin" 400 none "e1" staffed (some "u3")

abbrev closed : Store
closed = with_rows (record grant { status = "revoked" } ∷ []) [] ("event_assignment.revoked" ∷ [])

revoke_assignment-denied_example :
    (is_at_least "staff" "staff" ≡ true)
    × (◌≡◌ {A = String} "active" "active")
    × (closed.workspaces.members ≡ staffed.workspaces.members)
    × ((capability : String) (now : ℕ) (claim : Option String)
        → require_event_access capability now claim (some "u3") "e1" closed
          ≡ as_staff "t1" (claims claim "t1") (active_role "t1" "u3" closed.workspaces))
unfolding revoke_assignment revoke_assignment_tx revoke_assignment_row update_row is_at_least
    get_assignment_for_user tenant_id_for_event get_row
revoke_assignment-denied_example =
    revoke_assignment-denied "t1" "e1" "staff" "a1" staffed closed grant refl refl refl refl

assign_to_event-taken_example :
    (e : Error) × (assign_to_event plain hash 100
        (record { raw = ok "r"; id = "a2"; now = 600 })
        "t1"
        "e1"
        "u1"
        "owner"
        "ana@x.org"
        "crew"
        ("rpc:checkin" ∷ [])
        none
        closed
      ≡ (err e, closed))
unfolding normalize_email map_text trim_space trim_left trim_right is_space
assign_to_event-taken_example =
    assign_to_event-taken plain hash 100 (record { raw = ok "r"; id = "a2"; now = 600 }) "t1" "e1"
      "u1" "owner" "ana@x.org" "crew" ("rpc:checkin" ∷ []) none ana closed refl refl

abbrev draw : Draw
draw = record { raw = ok "r"; id = "a1"; now = 200 }

abbrev offered : Store
offered = with_rows [] (offer ∷ []) []

abbrev taken : Store
taken =
    with_rows (grant ∷ []) (record offer { status = "accepted"; accepted_at = some 200 } ∷ [])
      ("event_assignment.accepted" ∷ [])

accept_event_invitation-IsOpen_example :
    (inv : EventInvitation) × IsOpen plain hash 100 draw "secret" "u3" offered inv
    × (grant ≡ grant_of plain hash 100 draw "secret" "u3" offered inv)
    × (get_assignment_for_user inv.tenant_id inv.event_id "u3" taken ≡ some grant)
unfolding accept_event_invitation accept_tx check_acceptance normalize_email map_text trim_space
    trim_left trim_right is_space get_event_invitation_by_token_hash mark_event_invitation_accepted
    create_assignment update_row get_row
accept_event_invitation-IsOpen_example =
    accept_event_invitation-IsOpen plain hash 100 draw "secret" "u3" offered taken grant refl
