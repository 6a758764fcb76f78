-- ===== src/Tenant.antt =====
-- internal/platform/rbac, internal/tenant: roles, and the tables of tenants, memberships and
-- invitations (tenant.go, invitation.go, repository.go).
--
-- `id` is the primary key of each table, so an UPDATE by id changes at most one row. Foreign keys,
-- the triggers that set updated_at of the other tables and the reads of pages are not modelled.
pub mod Members
pub mod Invitations
pub mod Workspaces
pub mod Rows
pub mod Owners
pub mod Joining
pub mod Permissions
mod Tests
use racetify_api.Base.{
  ℕ, ltb, leb, String, Bool, true, false, not, ◌&&◌, ◌||◌, List, [], ◌∷◌, ◌++◌, Option, none, some,
  ◌==◌, if◌then◌else◌, any, find, modify_first,
}
use racetify_api.Domain.{Error, not_found, already_exists, other, Result, ok, err, and_then}
use racetify_api.Auth.{User}

abbrev pub role_owner : String
role_owner = "owner"

abbrev pub role_admin : String
role_admin = "admin"

abbrev pub role_staff : String
role_staff = "staff"

-- A role that is not in the map has rank 0.
abbrev pub rank : String → ℕ
rank r =
    if r == role_owner then 3 else if r == role_admin then 2 else if r == role_staff then 1 else 0

unfoldable pub is_at_least : String → String → Bool
is_at_least r min = leb (rank min) (rank r)

abbrev pub tenant_pending : String
tenant_pending = "pending_verification"

abbrev pub tenant_active : String
tenant_active = "active"

abbrev pub tenant_rejected : String
tenant_rejected = "rejected"

abbrev pub tenant_suspended : String
tenant_suspended = "suspended"

pub record Tenant : Type 0 where
  pub id : String
  pub name : String
  pub slug : String
  pub owner_user_id : String
  pub status : String
  pub status_reason : Option String
  pub created_at : ℕ
  pub updated_at : ℕ

abbrev pub member_active : String
member_active = "active"

abbrev pub member_removed : String
member_removed = "removed"

pub record TenantMember : Type 0 where
  pub id : String
  pub tenant_id : String
  pub user_id : String
  pub role : String
  pub status : String
  pub created_at : ℕ
  pub updated_at : ℕ

abbrev pub invitation_pending : String
invitation_pending = "pending"

abbrev pub invitation_accepted : String
invitation_accepted = "accepted"

abbrev pub invitation_revoked : String
invitation_revoked = "revoked"

pub record Invitation : Type 0 where
  pub id : String
  pub tenant_id : String
  pub email : String
  pub role : String
  pub token_hash : String
  pub invited_by : String
  pub status : String
  pub expires_at : ℕ
  pub accepted_at : Option ℕ
  pub created_at : ℕ

abbrev pub is_expired : Invitation → ℕ → Bool
is_expired i now = ltb i.expires_at now

-- The tables. `audit` holds the actions that were recorded, newest first.
pub record Store : Type 0 where
  pub tenants : List Tenant
  pub members : List TenantMember
  pub invitations : List Invitation
  pub users : List User
  pub audit : List String

-- An UPDATE of the row that has the key, if it passes the rest of the WHERE clause; no row is
-- an error (dbutil.CheckRowsAffected).
unfoldable pub update_row {ℓ} :
    {A : Type ℓ} → (A → Bool) → (A → Bool) → (A → A) → List A → Result (List A)
update_row key where_ change rows = elim (find key rows) [
  | none ↦ err not_found
  | some a ↦ if where_ a then ok (modify_first key change rows) else err not_found
]

-- A SELECT of one row (dbutil.MapNotFound).
unfoldable pub get_row {ℓ} : {A : Type ℓ} → (A → Bool) → List A → Result A
get_row key rows = elim (find key rows) [ none ↦ err not_found | some a ↦ ok a ]

unfoldable pub create_tenant_row : Tenant → Store → Result Store
create_tenant_row t s =
    if any (λ x. x.id == t.id || x.slug == t.slug) s.tenants
    then err already_exists
    else ok (record s { tenants = s.tenants ++ (t ∷ []) })

abbrev pub get_tenant_by_id : String → Store → Result Tenant
get_tenant_by_id id s = get_row (λ t. t.id == id) s.tenants

unfoldable pub update_tenant_status : String → String → Option String → Store → Result Store
update_tenant_status id status reason s =
    and_then
      (update_row (λ t. t.id == id) (λ _. true)
        (λ t. record t { status = status; status_reason = reason }) s.tenants)
      λ rows. ok (record s { tenants = rows })

-- (tenant_id, user_id) is unique.
abbrev pub same_person : TenantMember → TenantMember → Bool
same_person m x = x.tenant_id == m.tenant_id && x.user_id == m.user_id

unfoldable pub create_member : TenantMember → Store → Result Store
create_member m s =
    if any (λ x. x.id == m.id || same_person m x) s.members
    then err already_exists
    else ok (record s { members = s.members ++ (m ∷ []) })

abbrev pub get_member : String → String → Store → Result TenantMember
get_member tenant_id user_id s =
    get_row (λ x. x.tenant_id == tenant_id && x.user_id == user_id) s.members

-- ActiveRole: the role, and whether the membership is active.
unfoldable pub active_role : String → String → Store → String × Bool
active_role tenant_id user_id s =
    elim (find (λ x. x.tenant_id == tenant_id && x.user_id == user_id) s.members) [
      | none ↦ ("", false)
      | some m ↦ (m.role, m.status == member_active)
    ]

abbrev pub is_member_row : String → String → TenantMember → Bool
is_member_row tenant_id id m = m.tenant_id == tenant_id && m.id == id

abbrev pub get_member_by_id : String → String → Store → Result TenantMember
get_member_by_id tenant_id id s = get_row (is_member_row tenant_id id) s.members

unfoldable pub update_role : ℕ → String → String → String → Store → Result Store
update_role now tenant_id id role s =
    and_then
      (update_row (is_member_row tenant_id id) (λ m. m.status == member_active)
        (λ m. record m { role = role; updated_at = now }) s.members)
      λ rows. ok (record s { members = rows })

unfoldable pub set_member_status : ℕ → String → String → String → Store → Result Store
set_member_status now tenant_id id status s =
    and_then
      (update_row (is_member_row tenant_id id) (λ _. true)
        (λ m. record m { status = status; updated_at = now }) s.members)
      λ rows. ok (record s { members = rows })

abbrev pub reactivate : TenantMember → TenantMember → TenantMember
reactivate m x = record x { role = m.role; status = m.status; updated_at = m.updated_at }

-- The conflict of (tenant_id, user_id), and the id of the row that stands for the membership.
unfoldable pub put_member :
    TenantMember → Option TenantMember → Store → Result (TenantMember × Store)
put_member m none s =
    if any (λ x. x.id == m.id) s.members
    then err (other "duplicate key")
    else ok (m, record s { members = s.members ++ (m ∷ []) })
put_member m (some x) s =
    if x.status == member_removed
    then ok (
      record m { id = x.id },
      record s { members = modify_first (same_person m) (reactivate m) s.members },
    )
    else err already_exists

unfoldable pub create_or_reactivate_member : TenantMember → Store → Result (TenantMember × Store)
unfolding put_member
create_or_reactivate_member m s = put_member m (find (same_person m) s.members) s

unfoldable pub create_invitation : Invitation → Store → Result Store
create_invitation i s =
    if any (λ x. x.id == i.id || x.token_hash == i.token_hash) s.invitations
    then err already_exists
    else ok (record s { invitations = s.invitations ++ (i ∷ []) })

abbrev pub is_invitation_row : String → String → Invitation → Bool
is_invitation_row tenant_id id i = i.tenant_id == tenant_id && i.id == id

abbrev pub get_invitation_by_id : String → String → Store → Result Invitation
get_invitation_by_id tenant_id id s = get_row (is_invitation_row tenant_id id) s.invitations

unfoldable pub get_invitation_by_token_hash : String → Store → Result Invitation
get_invitation_by_token_hash hash s = get_row (λ i. i.token_hash == hash) s.invitations

abbrev pub is_pending : Invitation → Bool
is_pending i = i.status == invitation_pending

-- An UPDATE of a pending invitation of the tenant. (MarkInvitationAccepted names no tenant; the row
-- level security of its transaction does.)
unfoldable pub update_pending : String → String → (Invitation → Invitation) → Store → Result Store
update_pending tenant_id id change s =
    and_then (update_row (is_invitation_row tenant_id id) is_pending change s.invitations)
      λ rows. ok (record s { invitations = rows })

abbrev pub mark_accepted : ℕ → Invitation → Invitation
mark_accepted at i = record i { status = invitation_accepted; accepted_at = some at }

abbrev pub mark_invitation_revoked : Invitation → Invitation
mark_invitation_revoked i = record i { status = invitation_revoked }

abbrev pub with_token : String → ℕ → Invitation → Invitation
with_token hash expires_at i = record i { token_hash = hash; expires_at = expires_at }

abbrev pub record_audit : String → Store → Store
record_audit action s = record s { audit = action ∷ s.audit }
