-- ===== src/Tenant/Tests.antt =====
-- Runs of the workspace operations, and their theorems at concrete inputs.
use racetify_api.Base.{
  ◌≡◌, refl, String, true, false, [], ◌∷◌, none, some, keep, find, subst, arith, ◌↔◌,
}
use racetify_api.Text.{Unicode, map_text, trim_space, trim_left, trim_right, is_space}
use racetify_api.Domain.{ok}
use racetify_api.Auth.{User}
use racetify_api.Tenant.{
  TenantMember, Invitation, Store, is_at_least, update_row, get_row, get_invitation_by_token_hash,
  is_invitation_row, get_member_by_id, create_or_reactivate_member, put_member, update_pending,
  set_member_status, member_removed,
}
use racetify_api.Tenant.Members.{
  authorize_member_change, authorize_removal, authorize_change, remove_member, remove_member_tx,
}
use racetify_api.Tenant.Invitations.{
  Draw, normalize_email, accept_invitation, accept_found, accept_checked, check_invitation,
  accept_tx,
}
use racetify_api.Tenant.Owners.Creation.{IsFounded, create_tenant-IsFounded}
use racetify_api.Tenant.{Tenant, create_tenant_row, create_member}
use racetify_api.Base.{◌==◌}
use racetify_api.Tenant.Workspaces.{
  owner_row, create_tx, create_tenant, slugify, dash_runs, trim_dashes_left, trim_dashes_right,
}
use racetify_api.Tenant.Owners.{is_owner, HasOwners}
use racetify_api.Tenant.Owners.Runs.{change_role, remove, accept, run, run-HasOwners}
use racetify_api.Tenant.Joining.{IsJoined, accept_invitation-IsJoined}
use racetify_api.Tenant.Permissions.{is_allowed, authorize_member_change_lem, remove_member_lem}

abbrev plain : Unicode
plain = record { to_upper = λ c. c; to_lower = λ c. c }

abbrev hash : String → String
hash s = s

slug_test : slugify plain " lari & pagi! " ≡ "lari-pagi"
unfolding slugify dash_runs trim_dashes_left trim_dashes_right map_text trim_space trim_left
    trim_right is_space
slug_test = refl

abbrev member : String → String → String → TenantMember
member id user role = record {
  id = id;
  tenant_id = "t";
  user_id = user;
  role = role;
  status = "active";
  created_at = 1;
  updated_at = 1;
}

abbrev guest : User
guest = record {
  id = "u3";
  email = "ana@x.org";
  password_hash = none;
  first_name = "Ana";
  last_name = "";
  phone = none;
  is_email_verified = true;
  is_super_admin = false;
  status = "active";
  terms_accepted_at = none;
  created_at = 1;
  updated_at = 1;
}

abbrev link_invitation : Invitation
link_invitation = record {
  id = "i1";
  tenant_id = "t";
  email = "ana@x.org ";
  role = "admin";
  token_hash = "link";
  invited_by = "u1";
  status = "pending";
  expires_at = 100;
  accepted_at = none;
  created_at = 5;
}

abbrev tables : Store
tables = record {
  tenants = [];
  members = member "m1" "u1" "owner" ∷ member "m2" "u2" "staff" ∷ [];
  invitations = link_invitation ∷ [];
  users = guest ∷ [];
  audit = [];
}

abbrev draw : Draw
draw = record { raw = ok "fresh"; id = "m3"; now = 50 }

run-HasOwners_example : HasOwners (keep is_owner tables.members) (
    run plain hash 10
      (accept draw "link" "u3"
        ∷ change_role 60 "t" "owner" "m3" "staff"
        ∷ remove 70 "t" "admin" "m1"
        ∷ [])
      tables)
run-HasOwners_example =
    run-HasOwners plain hash 10
      (accept draw "link" "u3"
        ∷ change_role 60 "t" "owner" "m3" "staff"
        ∷ remove 70 "t" "admin" "m1"
        ∷ [])
      tables (refl, tt)

abbrev after : Store
after = record {
  tenants = [];
  members =
      member "m1" "u1" "owner"
      ∷ member "m2" "u2" "staff"
      ∷ record (member "m3" "u3" "admin") { created_at = 50; updated_at = 50 }
      ∷ [];
  invitations =
      record {
        id = "i1";
        tenant_id = "t";
        email = "ana@x.org ";
        role = "admin";
        token_hash = "link";
        invited_by = "u1";
        status = "accepted";
        expires_at = 100;
        accepted_at = some 50;
        created_at = 5;
      }
      ∷ [];
  users = guest ∷ [];
  audit = "invitation.accepted" ∷ [];
}

is_key :
    (i : Invitation)
    → get_invitation_by_token_hash "link" tables ≡ ok i
    → find (is_invitation_row i.tenant_id i.id) tables.invitations ≡ some i
unfolding get_invitation_by_token_hash get_row
is_key i e =
    let same : link_invitation ≡ i = ground arith in
    subst (λ j. find (is_invitation_row j.tenant_id j.id) tables.invitations ≡ some j) same refl

accept_invitation-IsJoined_example : IsJoined plain hash 10 50 "link" "u3" tables after
unfolding accept_invitation accept_found accept_checked check_invitation accept_tx update_pending
    update_row create_or_reactivate_member put_member get_invitation_by_token_hash get_row
    normalize_email map_text trim_space trim_left trim_right is_space
accept_invitation-IsJoined_example =
    accept_invitation-IsJoined plain hash 10 draw "link" "u3" tables after
      (record (member "m3" "u3" "admin") { created_at = 50; updated_at = 50 }) is_key refl

authorize_member_change_lem_example :
    (authorize_member_change "admin" (member "m2" "u2" "staff") none ≡ ok tt)
    ↔ (is_allowed "admin" (member "m2" "u2" "staff") none ≡ true)
authorize_member_change_lem_example =
    authorize_member_change_lem "admin" (member "m2" "u2" "staff") none

abbrev removed : Store
removed = record tables {
  members =
      member "m1" "u1" "owner"
      ∷ record (member "m2" "u2" "staff") { status = "removed"; updated_at = 80 }
      ∷ [];
  audit = "member.removed" ∷ [];
}

remove_member_lem_example :
    (target : TenantMember) × (get_member_by_id "t" "m2" tables ≡ ok target)
    × (is_allowed "admin" target none ≡ true)
    × (get_member_by_id "t" "m2" removed
        ≡ ok (record target { status = member_removed; updated_at = 80 }))
unfolding remove_member remove_member_tx set_member_status authorize_member_change authorize_change
    authorize_removal is_at_least get_row update_row
remove_member_lem_example = remove_member_lem 80 "t" "admin" "m2" tables removed refl

abbrev lari : Tenant
lari = record {
  id = "t2";
  name = "Lari";
  slug = "lari-pagi";
  owner_user_id = "u3";
  status = "pending_verification";
  status_reason = none;
  created_at = 60;
  updated_at = 60;
}

abbrev founded : Store
founded = record tables {
  tenants = lari ∷ [];
  members = member "m1" "u1" "owner" ∷ member "m2" "u2" "staff" ∷ owner_row lari "m9" ∷ [];
  audit = "tenant.created" ∷ [];
}

create_tenant-IsFounded_example :
    (lari.slug ≡ slugify plain "lari pagi")
    × ((lari.slug == "") ≡ false)
    × (lari.status ≡ "pending_verification")
    × (lari.owner_user_id ≡ "u3")
    × IsFounded lari "m9" tables founded
unfolding create_tenant create_tx create_tenant_row create_member slugify dash_runs trim_dashes_left
    trim_dashes_right map_text trim_space trim_left trim_right is_space
create_tenant-IsFounded_example =
    create_tenant-IsFounded plain "t2" "m9" 60 "u3" "Lari" "lari pagi" tables founded lari refl
