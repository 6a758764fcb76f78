-- ===== src/Crew/Access.antt =====
-- internal/event/access.go: the gate of the routes of an event (RequireEventAccess).
use racetify_api.Base.{
  ℕ, String, Bool, false, not, ◌&&◌, ◌||◌, List, Option, none, some, ◌==◌, if◌then◌else◌,
}
use racetify_api.Domain.{Result, ok, err}
use racetify_api.Tenant.{role_staff, is_at_least, active_role}
use racetify_api.Crew.{
  EventAssignment, Store, has_capability, is_usable, get_assignment_for_user, tenant_id_for_event,
}

-- What the gate answers: 401, 404, 500, 403, or the tenant and what the caller may do.
pub data Access : Type 0 where
  unauthorized no_event failed denied : Access
  as_member : (tenant_id role : String) → Access
  as_crew : (tenant_id : String) (capabilities : List String) → Access

-- The claim of the token is for the tenant of the event.
abbrev pub claims : Option String → String → Bool
claims none tenant_id = false
claims (some claimed) tenant_id = claimed == tenant_id

-- Path B: the assignment of the caller.
abbrev pub crew_access : String → ℕ → String → Option EventAssignment → Access
crew_access capability now tenant_id none = denied
crew_access capability now tenant_id (some a) =
    if not (is_usable a now) || (not (capability == "") && not (has_capability a capability))
    then denied
    else as_crew tenant_id a.capabilities

-- Path A: the membership of the caller, read again.
abbrev pub member_access : Bool → String × Bool → String → Access → Access
member_access claimed (role, active) tenant_id otherwise =
    if claimed && active && is_at_least role role_staff then as_member tenant_id role else otherwise

abbrev pub access_to : String → ℕ → Option String → String → String → Result String → Store → Access
access_to capability now claim user_id event_id (err e) s = no_event
access_to capability now claim user_id event_id (ok tenant_id) s =
    if tenant_id == ""
    then failed
    else member_access (claims claim tenant_id) (active_role tenant_id user_id s.workspaces)
        tenant_id
        (crew_access capability now tenant_id
          (get_assignment_for_user tenant_id event_id user_id s))

-- RequireEventAccess
unfoldable pub require_event_access :
    String → ℕ → Option String → Option String → String → Store → Access
unfolding tenant_id_for_event get_assignment_for_user
require_event_access capability now claim none event_id s = unauthorized
require_event_access capability now claim (some user_id) event_id s =
    access_to capability now claim user_id event_id (tenant_id_for_event event_id s) s
