-- ===== src/Crew.antt =====
-- internal/event: who works on an event without being a member of its workspace: assignments and
-- invitations, with their capabilities (assignment.go, capability.go, assignment_repository.go).
--
-- The tables of users, members and the audit log are those of the workspaces (Tenant). The paged lists
-- are not modelled.
pub mod Service
pub mod Access
pub mod Gate
pub mod Revocation
pub mod Acceptance
mod Tests
use racetify_api.Base.{
  ℕ, ltb, String, Bool, true, false, not, ◌&&◌, ◌||◌, List, [], ◌∷◌, ◌++◌, Option, none, some, ◌==◌,
  if◌then◌else◌, any, find,
}
use racetify_api.Domain.{not_found, already_exists, Result, ok, err, and_then}
use racetify_api.Text.{Unicode}
use racetify_api.Auth.{User, same_citext}
use racetify_api.Tenant
use racetify_api.Tenant.{update_row, get_row}
use racetify_api.Event.{Event}

abbrev pub capabilities_known : List String
capabilities_known =
    "participants:read" ∷ "rpc:checkin" ∷ "results:write" ∷ "gallery:upload" ∷ "gallery:review"
    ∷ "gallery:face_search" ∷ []

abbrev pub is_valid_capability : String → Bool
is_valid_capability c = any (λ k. k == c) capabilities_known

abbrev pub is_valid_label : String → Bool
is_valid_label l = l == "crew" || l == "volunteer" || l == "photographer" || l == "timing"

abbrev pub assignment_active : String
assignment_active = "active"

abbrev pub assignment_revoked : String
assignment_revoked = "revoked"

pub record EventAssignment : Type 0 where
  pub id : String
  pub tenant_id : String
  pub event_id : String
  pub user_id : String
  pub label : String
  pub capabilities : List String
  pub status : String
  pub assigned_by : String
  pub expires_at : Option ℕ
  pub created_at : ℕ
  pub updated_at : ℕ

abbrev pub has_capability : EventAssignment → String → Bool
has_capability a capability = any (λ c. c == capability) a.capabilities

abbrev pub is_past : Option ℕ → ℕ → Bool
is_past none now = false
is_past (some at) now = ltb at now

unfoldable pub is_usable : EventAssignment → ℕ → Bool
is_usable a now = a.status == assignment_active && not (is_past a.expires_at now)

pub record EventInvitation : Type 0 where
  pub id : String
  pub tenant_id : String
  pub event_id : String
  pub email : String
  pub label : String
  pub capabilities : List String
  pub token_hash : String
  pub invited_by : String
  pub status : String
  pub expires_at : ℕ
  pub assignment_expires_at : Option ℕ
  pub accepted_at : Option ℕ
  pub created_at : ℕ

pub record Store : Type 0 where
  pub workspaces : Tenant.Store
  pub events : List Event
  pub assignments : List EventAssignment
  pub invitations : List EventInvitation

abbrev pub record_audit : String → Store → Store
record_audit action s = record s { workspaces = Tenant.record_audit action s.workspaces }

abbrev pub user_by_email : Unicode → String → Store → Option User
user_by_email u email s = find (λ x. same_citext u x.email email) s.workspaces.users

abbrev pub user_by_id : String → Store → Result User
user_by_id id s = get_row (λ u. u.id == id) s.workspaces.users

abbrev pub get_event_by_id : String → String → Store → Result Event
get_event_by_id tenant_id id s = get_row (λ e. e.tenant_id == tenant_id && e.id == id) s.events

-- A person has one assignment to an event.
abbrev pub same_grant : EventAssignment → EventAssignment → Bool
same_grant a x = x.event_id == a.event_id && x.user_id == a.user_id

unfoldable pub create_assignment : EventAssignment → Store → Result Store
create_assignment a s =
    if any (λ x. x.id == a.id || same_grant a x) s.assignments
    then err already_exists
    else ok (record s { assignments = s.assignments ++ (a ∷ []) })

abbrev pub is_assignment : String → String → String → EventAssignment → Bool
is_assignment tenant_id event_id id a =
    a.tenant_id == tenant_id && a.event_id == event_id && a.id == id

abbrev pub get_assignment_by_id : String → String → String → Store → Result EventAssignment
get_assignment_by_id tenant_id event_id id s =
    get_row (is_assignment tenant_id event_id id) s.assignments

abbrev pub is_grant_of : String → String → String → EventAssignment → Bool
is_grant_of tenant_id event_id user_id a =
    a.tenant_id == tenant_id && a.event_id == event_id && a.user_id == user_id

unfoldable pub get_assignment_for_user : String → String → String → Store → Option EventAssignment
get_assignment_for_user tenant_id event_id user_id s =
    find (is_grant_of tenant_id event_id user_id) s.assignments

abbrev pub with_terms : EventAssignment → EventAssignment → EventAssignment
with_terms a x = record x {
  label = a.label;
  capabilities = a.capabilities;
  expires_at = a.expires_at;
}

unfoldable pub update_assignment_row : EventAssignment → Store → Result Store
update_assignment_row a s =
    and_then
      (update_row (is_assignment a.tenant_id a.event_id a.id) (λ _. true) (with_terms a)
        s.assignments)
      λ rows. ok (record s { assignments = rows })

abbrev pub revoked : EventAssignment → EventAssignment
revoked x = record x { status = assignment_revoked }

unfoldable pub revoke_assignment_row : String → String → String → Store → Result Store
revoke_assignment_row tenant_id event_id id s =
    and_then
      (update_row (is_assignment tenant_id event_id id) (λ a. a.status == assignment_active) revoked
        s.assignments)
      λ rows. ok (record s { assignments = rows })

-- On the connection that sees every tenant.
unfoldable pub tenant_id_for_event : String → Store → Result String
tenant_id_for_event event_id s =
    and_then (get_row (λ e. e.id == event_id) s.events) λ e. ok e.tenant_id

unfoldable pub create_event_invitation : EventInvitation → Store → Result Store
create_event_invitation i s =
    if any (λ x. x.id == i.id || x.token_hash == i.token_hash) s.invitations
    then err already_exists
    else ok (record s { invitations = s.invitations ++ (i ∷ []) })

unfoldable pub get_event_invitation_by_token_hash : String → Store → Result EventInvitation
get_event_invitation_by_token_hash hash s = get_row (λ i. i.token_hash == hash) s.invitations

abbrev pub accepted : ℕ → EventInvitation → EventInvitation
accepted at x = record x { status = "accepted"; accepted_at = some at }

-- Row level security keeps the UPDATE in the tenant of its transaction.
unfoldable pub mark_event_invitation_accepted : String → String → ℕ → Store → Result Store
mark_event_invitation_accepted tenant_id id at s =
    and_then
      (update_row (λ x. x.id == id) (λ x. x.status == "pending" && x.tenant_id == tenant_id)
        (accepted at) s.invitations)
      λ rows. ok (record s { invitations = rows })
