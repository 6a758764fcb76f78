-- ===== src/Crew/Service.antt =====
-- internal/event/assignment_service.go: assigning people to an event, changing and revoking what they
-- were granted, and accepting an invitation. The mail that carries the link is left out.
use racetify_api.Base.{
  ℕ, ltb, ◌+◌, String, Bool, not, List, Option, none, some, ◌==◌, if◌then◌else◌, any, is_empty,
}
use racetify_api.Text.{Unicode}
use racetify_api.Domain.{forbidden, invalid_state, token_expired, Result, ok, err, and_then}
use racetify_api.Database.{Tx, with_tenant_tx}
use racetify_api.Auth.{User}
use racetify_api.Tenant.{role_staff, is_at_least}
use racetify_api.Tenant.Invitations.{normalize_email}
use racetify_api.Event.Events.{or_kept}
use racetify_api.Crew.{
  EventAssignment, EventInvitation, Store, assignment_active, is_valid_label, is_valid_capability,
  create_assignment, get_event_by_id, create_event_invitation, user_by_email, user_by_id,
  record_audit, get_assignment_by_id, update_assignment_row, revoke_assignment_row,
  get_event_invitation_by_token_hash, mark_event_invitation_accepted,
}

unfoldable pub validate_assignment_input : String → List String → Result (Unit {0})
validate_assignment_input label capabilities =
    if not (is_valid_label label)
    then err invalid_state
    else if is_empty capabilities
    then err invalid_state
    else if any (λ c. not (is_valid_capability c)) capabilities
    then err invalid_state
    else ok tt

-- What the random sources and the clock give to a request.
pub record Draw : Type 0 where
  pub raw : Result String
  pub id : String
  pub now : ℕ

pub data Assigned : Type 0 where
  granted : EventAssignment → Assigned
  invited : EventInvitation → String → Assigned

abbrev pub new_assignment :
    Draw → String → String → String → String → List String → String → Option ℕ → EventAssignment
new_assignment draw tenant_id event_id user_id label capabilities actor expires_at = record {
  id = draw.id;
  tenant_id = tenant_id;
  event_id = event_id;
  user_id = user_id;
  label = label;
  capabilities = capabilities;
  status = assignment_active;
  assigned_by = actor;
  expires_at = expires_at;
  created_at = draw.now;
  updated_at = draw.now;
}

unfoldable pub grant_tx : EventAssignment → Tx Store Assigned
grant_tx a s = and_then (get_event_by_id a.tenant_id a.event_id s) λ _.
    and_then (create_assignment a s)
      λ s'. ok (granted a, record_audit "event_assignment.created" s')

unfoldable pub invite_tx : EventInvitation → String → String → Tx Store Assigned
invite_tx inv raw actor s = and_then (get_event_by_id inv.tenant_id inv.event_id s) λ _.
    and_then (create_event_invitation inv s) λ s'.
      and_then (user_by_id actor s')
        λ _. ok (invited inv raw, record_audit "event_assignment.invited" s')

module _ (u : Unicode) (hash_token : String → String) (ttl : ℕ) where
  abbrev pub new_invitation :
      Draw
      → String
      → String
      → String
      → String
      → List String
      → String
      → Option ℕ
      → String
      → EventInvitation
  new_invitation draw tenant_id event_id email label capabilities actor expires_at raw = record {
    id = draw.id;
    tenant_id = tenant_id;
    event_id = event_id;
    email = email;
    label = label;
    capabilities = capabilities;
    token_hash = hash_token raw;
    invited_by = actor;
    status = "pending";
    expires_at = draw.now + ttl;
    assignment_expires_at = expires_at;
    accepted_at = none;
    created_at = draw.now;
  }

  -- A person without an account is invited.
  abbrev pub invite :
      Draw
      → String
      → String
      → String
      → String
      → List String
      → String
      → Option ℕ
      → Result String
      → Store
      → Result Assigned × Store
  invite draw tenant_id event_id email label capabilities actor expires_at (err e) s = (err e, s)
  invite draw tenant_id event_id email label capabilities actor expires_at (ok raw) s =
      with_tenant_tx tenant_id
        (invite_tx
          (new_invitation draw tenant_id event_id email label capabilities actor expires_at raw) raw
          actor)
        s

  -- A person with an account is granted access at once.
  abbrev pub assign_person :
      Draw
      → String
      → String
      → String
      → String
      → List String
      → String
      → Option ℕ
      → Option User
      → Store
      → Result Assigned × Store
  assign_person draw tenant_id event_id email label capabilities actor expires_at (some person) s =
      with_tenant_tx tenant_id
        (grant_tx
          (new_assignment draw tenant_id event_id person.id label capabilities actor expires_at))
        s
  assign_person draw tenant_id event_id email label capabilities actor expires_at none s =
      invite draw tenant_id event_id email label capabilities actor expires_at draw.raw s

  abbrev pub assign_checked :
      Draw
      → String
      → String
      → String
      → String
      → List String
      → String
      → Option ℕ
      → Result (Unit {0})
      → Store
      → Result Assigned × Store
  assign_checked draw tenant_id event_id email label capabilities actor expires_at (err e) s =
      (err e, s)
  assign_checked draw tenant_id event_id email label capabilities actor expires_at (ok _) s =
      assign_person draw tenant_id event_id (normalize_email u email) label capabilities actor
        expires_at (user_by_email u (normalize_email u email) s) s

  -- AssignToEvent
  unfoldable pub assign_to_event :
      Draw
      → String
      → String
      → String
      → String
      → String
      → String
      → List String
      → Option ℕ
      → Store
      → Result Assigned × Store
  unfolding grant_tx invite_tx
  assign_to_event draw tenant_id event_id actor role email label capabilities expires_at s =
      if not (is_at_least role role_staff)
      then (err forbidden, s)
      else assign_checked draw tenant_id event_id email label capabilities actor expires_at
          (validate_assignment_input label capabilities) s

  unfoldable pub accept_tx : Draw → EventInvitation → String → Tx Store EventAssignment
  accept_tx draw inv user_id s =
      let a =
        new_assignment draw inv.tenant_id inv.event_id user_id inv.label inv.capabilities
          inv.invited_by inv.assignment_expires_at in
      and_then (mark_event_invitation_accepted inv.tenant_id inv.id draw.now s) λ s'.
        and_then (create_assignment a s')
          λ s''. ok (a, record_audit "event_assignment.accepted" s'')

  unfoldable pub check_acceptance : ℕ → String → String → Store → Result EventInvitation
  check_acceptance now raw user_id s =
      and_then (get_event_invitation_by_token_hash (hash_token raw) s) λ inv.
        if not (inv.status == "pending")
        then err invalid_state
        else if ltb inv.expires_at now
        then err token_expired
        else and_then (user_by_id user_id s) λ person.
          if not (normalize_email u person.email == normalize_email u inv.email)
          then err forbidden
          else ok inv

  abbrev pub accept_checked :
      Draw → String → Result EventInvitation → Store → Result EventAssignment × Store
  accept_checked draw user_id (err e) s = (err e, s)
  accept_checked draw user_id (ok inv) s =
      with_tenant_tx inv.tenant_id (accept_tx draw inv user_id) s

  -- AcceptEventInvitation
  unfoldable pub accept_event_invitation :
      Draw → String → String → Store → Result EventAssignment × Store
  unfolding accept_tx check_acceptance
  accept_event_invitation draw raw user_id s =
      accept_checked draw user_id (check_acceptance draw.now raw user_id s) s

pub record AssignmentPatch : Type 0 where
  pub label : Option String
  pub capabilities : Option (List String)
  pub expires_at : Option ℕ
  pub clear_expiry : Bool

abbrev pub or_given {ℓ} : {A : Type ℓ} → Option A → A → A
or_given none kept = kept
or_given (some a) kept = a

abbrev pub with_patch : AssignmentPatch → EventAssignment → EventAssignment
with_patch patch a = record a {
  label = or_given patch.label a.label;
  capabilities = or_given patch.capabilities a.capabilities;
  expires_at = if patch.clear_expiry then none else or_kept patch.expires_at a.expires_at;
}

unfoldable pub update_assignment_tx :
    String → String → String → AssignmentPatch → Tx Store EventAssignment
update_assignment_tx tenant_id event_id id patch s =
    and_then (get_assignment_by_id tenant_id event_id id s) λ current.
      let changed = with_patch patch current in
      and_then (validate_assignment_input changed.label changed.capabilities) λ _.
        and_then (update_assignment_row changed s)
          λ s'. ok (changed, record_audit "event_assignment.updated" s')

-- UpdateAssignment
unfoldable pub update_assignment :
    String → String → String → String → AssignmentPatch → Store → Result EventAssignment × Store
unfolding update_assignment_tx
update_assignment tenant_id event_id role id patch s =
    if not (is_at_least role role_staff)
    then (err forbidden, s)
    else with_tenant_tx tenant_id (update_assignment_tx tenant_id event_id id patch) s

unfoldable pub revoke_assignment_tx : String → String → String → Tx Store (Unit {0})
revoke_assignment_tx tenant_id event_id id s =
    and_then (revoke_assignment_row tenant_id event_id id s)
      λ s'. ok (tt, record_audit "event_assignment.revoked" s')

-- RevokeAssignment
unfoldable pub revoke_assignment :
    String → String → String → String → Store → Result (Unit {0}) × Store
unfolding revoke_assignment_tx
revoke_assignment tenant_id event_id role id s =
    if not (is_at_least role role_staff)
    then (err forbidden, s)
    else with_tenant_tx tenant_id (revoke_assignment_tx tenant_id event_id id) s
