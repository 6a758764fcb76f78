-- ===== src/Tenant/Workspaces.antt =====
-- internal/tenant/service.go: creating a workspace, and its platform status (CreateTenant,
-- SetTenantStatus).
use Prim.Native.Char.{Char, code}
use racetify_api.Base.{
  ℕ, leb, nat_eq, String, Bool, true, false, not, ◌&&◌, ◌||◌, Option, none, some, ◌==◌,
  if◌then◌else◌,
}
use racetify_api.Text.{Unicode, no_text, trim_space, map_text}
use racetify_api.Domain.{forbidden, invalid_state, Result, ok, err, and_then}
use racetify_api.Database.{Tx, with_tenant_tx}
use racetify_api.Tenant.{
  role_owner, TenantMember, tenant_pending, tenant_active, tenant_rejected, tenant_suspended,
  Tenant, member_active, Store, create_tenant_row, get_tenant_by_id, update_tenant_status,
  create_member, record_audit,
}

-- [a-z0-9]
abbrev pub is_slug_char : Char → Bool
is_slug_char c = let n = code c in (leb 97 n && leb n 122) || (leb 48 n && leb n 57)

-- Every run of other characters becomes one dash.
unfoldable pub dash_runs : Bool → String → String
dash_runs in_run String.[] = ""
dash_runs in_run (String.◌∷◌ c s) =
    let rest = dash_runs (not (is_slug_char c)) s in
    if is_slug_char c then String.◌∷◌ c rest else if in_run then rest else String.◌∷◌ "-" rest

abbrev pub is_dash : Char → Bool
is_dash c = nat_eq (code c) 45

unfoldable pub trim_dashes_left : String → String
trim_dashes_left String.[] = ""
trim_dashes_left (String.◌∷◌ c s) =
    let rest = trim_dashes_left s in if is_dash c then rest else String.◌∷◌ c s

unfoldable pub trim_dashes_right : String → String
trim_dashes_right String.[] = ""
trim_dashes_right (String.◌∷◌ c s) =
    let rest = trim_dashes_right s in if is_dash c && no_text rest then "" else String.◌∷◌ c rest

unfoldable pub slugify : Unicode → String → String
unfolding dash_runs trim_dashes_left trim_dashes_right
slugify u s =
    trim_dashes_right (trim_dashes_left (dash_runs false (map_text u.to_lower (trim_space s))))

abbrev pub with_reason : String → Option String → Option String
with_reason status reason = if status == tenant_active then none else reason

abbrev pub is_blank : Option String → Bool
is_blank none = true
is_blank (some s) = trim_space s == ""

unfoldable pub set_status_tx : String → String → Option String → Tx Store Tenant
set_status_tx tenant_id status reason s =
    and_then (update_tenant_status tenant_id status reason s) λ s'.
      and_then (get_tenant_by_id tenant_id s') λ t. ok (t, record_audit "tenant.status_changed" s')

-- SetTenantStatus.
unfoldable pub set_tenant_status :
    Bool → String → String → Option String → Store → Result Tenant × Store
unfolding set_status_tx
set_tenant_status is_super_admin tenant_id status reason s =
    if not is_super_admin
    then (err forbidden, s)
    else if not (status == tenant_active || status == tenant_rejected || status == tenant_suspended)
    then (err invalid_state, s)
    else if not (status == tenant_active) && is_blank reason
    then (err invalid_state, s)
    else with_tenant_tx tenant_id (set_status_tx tenant_id status (with_reason status reason)) s

-- The membership of the owner.
abbrev pub owner_row : Tenant → String → TenantMember
owner_row t member_id = record {
  id = member_id;
  tenant_id = t.id;
  user_id = t.owner_user_id;
  role = role_owner;
  status = member_active;
  created_at = t.created_at;
  updated_at = t.created_at;
}

unfoldable pub create_tx : Tenant → String → Tx Store Tenant
create_tx t member_id s = and_then (create_tenant_row t s) λ s'.
    and_then (create_member (owner_row t member_id) s')
      λ s''. ok (t, record_audit "tenant.created" s'')

-- CreateTenant.
unfoldable pub create_tenant :
    Unicode → String → String → ℕ → String → String → String → Store → Result Tenant × Store
unfolding create_tx slugify
create_tenant u id member_id now owner_user_id name stated s =
    let slug = slugify u (if stated == "" then name else stated) in
    if slug == ""
    then (err invalid_state, s)
    else let t : Tenant = record {
      id = id;
      name = name;
      slug = slug;
      owner_user_id = owner_user_id;
      status = tenant_pending;
      status_reason = none;
      created_at = now;
      updated_at = now;
    } in
      with_tenant_tx id (create_tx t member_id) s
