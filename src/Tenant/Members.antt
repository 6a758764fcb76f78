-- ===== src/Tenant/Members.antt =====
-- internal/tenant/members.go: changing and removing members.
use racetify_api.Base.{ℕ, String, Bool, not, ◌&&◌, ◌||◌, Option, none, some, ◌==◌, if◌then◌else◌}
use racetify_api.Domain.{not_found, forbidden, invalid_state, Result, ok, err, and_then}
use racetify_api.Database.{Tx, with_tenant_tx}
use racetify_api.Tenant.{
  role_owner, role_admin, role_staff, is_at_least, member_active, member_removed, TenantMember,
  Store, get_member_by_id, update_role, set_member_status, record_audit,
}

abbrev pub is_grantable : String → Bool
is_grantable role = role == role_admin || role == role_staff

-- The rule of a role change.
unfoldable pub authorize_role : String → String → Result (Unit {0})
authorize_role actor_role new_role =
    if not (is_grantable new_role)
    then err invalid_state
    else if actor_role == role_owner
    then ok tt
    else err forbidden

-- The rule of a removal.
unfoldable pub authorize_removal : String → TenantMember → Result (Unit {0})
authorize_removal actor_role target =
    if actor_role == role_admin && not (target.role == role_staff) then err forbidden else ok tt

-- `none` is a removal.
unfoldable pub authorize_change : String → TenantMember → Option String → Result (Unit {0})
unfolding authorize_role authorize_removal
authorize_change actor_role target none = authorize_removal actor_role target
authorize_change actor_role target (some new_role) = authorize_role actor_role new_role

unfoldable pub authorize_member_change : String → TenantMember → Option String → Result (Unit {0})
unfolding authorize_change is_at_least
authorize_member_change actor_role target new_role =
    if not (is_at_least actor_role role_admin)
    then err forbidden
    else if not (target.status == member_active)
    then err not_found
    else if target.role == role_owner
    then err forbidden
    else authorize_change actor_role target new_role

-- The transactions.
unfoldable pub update_member_role_tx : ℕ → String → String → String → String → Tx Store TenantMember
update_member_role_tx now tenant_id actor_role member_id new_role s =
    and_then (get_member_by_id tenant_id member_id s) λ target.
      and_then (authorize_member_change actor_role target (some new_role)) λ _.
        and_then (update_role now tenant_id member_id new_role s)
          λ s'. ok (record target { role = new_role }, record_audit "member.role_changed" s')

unfoldable pub remove_member_tx : ℕ → String → String → String → Tx Store (Unit {0})
remove_member_tx now tenant_id actor_role member_id s =
    and_then (get_member_by_id tenant_id member_id s) λ target.
      and_then (authorize_member_change actor_role target none) λ _.
        and_then (set_member_status now tenant_id member_id member_removed s)
          λ s'. ok (tt, record_audit "member.removed" s')

unfoldable pub update_member_role :
    ℕ → String → String → String → String → Store → Result TenantMember × Store
unfolding update_member_role_tx
update_member_role now tenant_id actor_role member_id new_role =
    with_tenant_tx tenant_id (update_member_role_tx now tenant_id actor_role member_id new_role)

unfoldable pub remove_member : ℕ → String → String → String → Store → Result (Unit {0}) × Store
unfolding remove_member_tx
remove_member now tenant_id actor_role member_id =
    with_tenant_tx tenant_id (remove_member_tx now tenant_id actor_role member_id)
