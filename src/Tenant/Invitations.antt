-- ===== src/Tenant/Invitations.antt =====
-- internal/tenant/service.go, internal/tenant/members.go: inviting people to a workspace
-- (InviteStaff, ResendInvitation, RevokeInvitation, AcceptInvitation).
--
-- The e-mail that InviteStaff and ResendInvitation send last, whose error is dropped, is left out.
use racetify_api.Base.{ℕ, ◌+◌, String, Bool, not, ◌&&◌, none, ◌==◌, if◌then◌else◌}
use racetify_api.Text.{Unicode, trim_space, map_text}
use racetify_api.Domain.{forbidden, invalid_state, token_expired, Result, ok, err, and_then}
use racetify_api.Database.{Tx, with_tenant_tx}
use racetify_api.Auth.{User}
use racetify_api.Tenant.{
  role_owner, role_admin, is_at_least, member_active, TenantMember, Invitation, invitation_pending,
  is_expired, is_pending, Store, get_row, get_tenant_by_id, create_or_reactivate_member,
  create_invitation, get_invitation_by_id, get_invitation_by_token_hash, update_pending,
  mark_accepted, mark_invitation_revoked, with_token, record_audit,
}
use racetify_api.Tenant.Members.{is_grantable}

unfoldable pub normalize_email : Unicode → String → String
normalize_email u email = map_text u.to_lower (trim_space email)

abbrev pub get_user : String → Store → Result User
get_user id s = get_row (λ u. u.id == id) s.users

-- Only the owner may grant the admin role.
abbrev pub is_above : String → String → Bool
is_above actor_role role = role == role_admin && not (actor_role == role_owner)

-- What an operation draws: the raw token of the link, a row id and the clock.
pub record Draw : Type 0 where
  pub raw : Result String
  pub id : String
  pub now : ℕ

module _ (u : Unicode) (hash_token : String → String) (ttl : ℕ) where
  unfoldable pub invite_tx : String → Invitation → Tx Store Invitation
  invite_tx actor_user_id inv s = and_then (create_invitation inv s) λ s'.
      and_then (get_tenant_by_id inv.tenant_id s') λ _.
        and_then (get_user actor_user_id s') λ _. ok (inv, record_audit "invitation.created" s')

  abbrev pub new_invitation : Draw → String → String → String → String → String → Invitation
  new_invitation draw tenant_id actor_user_id role email raw = record {
    id = draw.id;
    tenant_id = tenant_id;
    email = normalize_email u email;
    role = role;
    token_hash = hash_token raw;
    invited_by = actor_user_id;
    status = invitation_pending;
    expires_at = draw.now + ttl;
    accepted_at = none;
    created_at = draw.now;
  }

  unfoldable pub send :
      Draw → String → String → String → String → Result String → Store → Result Invitation × Store
  unfolding invite_tx
  send draw tenant_id actor_user_id role email (err e) s = (err e, s)
  send draw tenant_id actor_user_id role email (ok raw) s =
      with_tenant_tx tenant_id
        (invite_tx actor_user_id (new_invitation draw tenant_id actor_user_id role email raw)) s

  -- InviteStaff.
  unfoldable pub invite_staff :
      Draw → String → String → String → String → String → Store → Result Invitation × Store
  unfolding send is_at_least
  invite_staff draw tenant_id actor_user_id actor_role role email s =
      if not (is_at_least actor_role role_admin)
      then (err forbidden, s)
      else if not (is_grantable role)
      then (err invalid_state, s)
      else if is_above actor_role role
      then (err forbidden, s)
      else send draw tenant_id actor_user_id role email draw.raw s

  -- From the new token on.
  unfoldable pub rotate_tx : ℕ → String → String → String → Invitation → Tx Store Invitation
  rotate_tx now raw tenant_id actor_user_id inv s =
      and_then (update_pending tenant_id inv.id (with_token (hash_token raw) (now + ttl)) s) λ s'.
        and_then (get_tenant_by_id tenant_id s') λ _.
          and_then (get_user actor_user_id s')
            λ _. ok (record inv { expires_at = now + ttl }, record_audit "invitation.resent" s')

  unfoldable pub resend_tx : ℕ → String → String → String → String → String → Tx Store Invitation
  unfolding rotate_tx
  resend_tx now raw tenant_id actor_user_id actor_role invitation_id s =
      and_then (get_invitation_by_id tenant_id invitation_id s) λ inv.
        if is_above actor_role inv.role
        then err forbidden
        else if not (is_pending inv)
        then err invalid_state
        else rotate_tx now raw tenant_id actor_user_id inv s

  unfoldable pub resend :
      Draw → String → String → String → String → Result String → Store → Result Invitation × Store
  unfolding resend_tx
  resend draw tenant_id actor_user_id actor_role invitation_id (err e) s = (err e, s)
  resend draw tenant_id actor_user_id actor_role invitation_id (ok raw) s =
      with_tenant_tx tenant_id
        (resend_tx draw.now raw tenant_id actor_user_id actor_role invitation_id) s

  -- ResendInvitation. (The UNIQUE of token_hash, which a fresh token does not meet, is not checked.)
  unfoldable pub resend_invitation :
      Draw → String → String → String → String → Store → Result Invitation × Store
  unfolding resend is_at_least
  resend_invitation draw tenant_id actor_user_id actor_role invitation_id s =
      if not (is_at_least actor_role role_admin)
      then (err forbidden, s)
      else resend draw tenant_id actor_user_id actor_role invitation_id draw.raw s

  unfoldable pub revoke_tx : String → String → Tx Store (Unit {0})
  revoke_tx tenant_id invitation_id s =
      and_then (update_pending tenant_id invitation_id mark_invitation_revoked s)
        λ s'. ok (tt, record_audit "invitation.revoked" s')

  -- RevokeInvitation.
  unfoldable pub revoke_invitation : String → String → String → Store → Result (Unit {0}) × Store
  unfolding revoke_tx is_at_least
  revoke_invitation tenant_id actor_role invitation_id s =
      if not (is_at_least actor_role role_admin)
      then (err forbidden, s)
      else with_tenant_tx tenant_id (revoke_tx tenant_id invitation_id) s

  abbrev pub new_member : Draw → Invitation → String → TenantMember
  new_member draw inv user_id = record {
    id = draw.id;
    tenant_id = inv.tenant_id;
    user_id = user_id;
    role = inv.role;
    status = member_active;
    created_at = draw.now;
    updated_at = draw.now;
  }

  unfoldable pub accept_tx : Draw → Invitation → String → Tx Store TenantMember
  accept_tx draw inv user_id s =
      and_then (update_pending inv.tenant_id inv.id (mark_accepted draw.now) s) λ s'.
        and_then (create_or_reactivate_member (new_member draw inv user_id) s')
          λ joined. ok (joined.0, record_audit "invitation.accepted" joined.1)

  -- The checks before the transaction of AcceptInvitation.
  unfoldable pub check_invitation : ℕ → Invitation → String → Store → Result (Unit {0})
  check_invitation now inv user_id s =
      if not (is_pending inv)
      then err invalid_state
      else if is_expired inv now
      then err token_expired
      else and_then (get_user user_id s) λ user.
        if normalize_email u user.email == normalize_email u inv.email then ok tt else err forbidden

  unfoldable pub accept_checked :
      Draw → Invitation → String → Result (Unit {0}) → Store → Result TenantMember × Store
  unfolding accept_tx
  accept_checked draw inv user_id (err e) s = (err e, s)
  accept_checked draw inv user_id (ok _) s =
      with_tenant_tx inv.tenant_id (accept_tx draw inv user_id) s

  unfoldable pub accept_found :
      Draw → Result Invitation → String → Store → Result TenantMember × Store
  unfolding accept_checked check_invitation
  accept_found draw (err e) user_id s = (err e, s)
  accept_found draw (ok inv) user_id s =
      accept_checked draw inv user_id (check_invitation draw.now inv user_id s) s

  -- AcceptInvitation.
  unfoldable pub accept_invitation : Draw → String → String → Store → Result TenantMember × Store
  unfolding accept_found
  accept_invitation draw raw user_id s =
      accept_found draw (get_invitation_by_token_hash (hash_token raw) s) user_id s
