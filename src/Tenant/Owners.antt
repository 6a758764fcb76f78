-- ===== src/Tenant/Owners.antt =====
-- internal/tenant: the owners of the workspaces, over the changes of a row.
pub mod Transactions
pub mod Runs
pub mod Creation
use racetify_api.Base.{
  ℕ, ℕ, String, ◌≡◌, refl, sym, ap, ◌∙◌, Bool, true, false, not, ◌&&◌, ◌||◌, List, [], ◌∷◌, ◌++◌,
  Option, none, some, inl, inr, if◌then◌else◌, ◌==◌, arith, eq_iff, Bool-cases, Option-cases, any,
  find, keep, modify_first, subst, All, All-append, All-modify_first, find-All,
}
use racetify_api.Text.{Unicode}
use racetify_api.Domain.{Error, Result, ok, err, Result-cases, and_then, and_then-eq-ok}
use racetify_api.Database.{Tx, with_tenant_tx}
use racetify_api.Tenant.{
  role_owner, role_admin, role_staff, is_at_least, member_active, member_removed, Tenant,
  TenantMember, Invitation, Store, update_row, get_row, get_tenant_by_id, update_tenant_status,
  is_member_row, get_member_by_id, update_role, set_member_status, same_person, reactivate,
  put_member, create_or_reactivate_member, create_invitation, get_invitation_by_id,
  get_invitation_by_token_hash, is_invitation_row, is_pending, update_pending, mark_accepted,
  mark_invitation_revoked, with_token, record_audit,
}
use racetify_api.Tenant.Members.{
  is_grantable, authorize_member_change, update_member_role_tx, remove_member_tx,
  update_member_role, remove_member,
}
use racetify_api.Tenant.Invitations.{
  get_user, is_above, Draw, invite_tx, new_invitation, send, invite_staff, resend_tx, resend,
  resend_invitation, revoke_tx, revoke_invitation, new_member, accept_tx, check_invitation,
  accept_checked, accept_found, accept_invitation,
}
use racetify_api.Tenant.Workspaces.{set_status_tx, set_tenant_status, with_reason, is_blank}
use racetify_api.Tenant.Rows.{
  with_tenant_tx-kept, update_row-eq-ok, get_row-eq-ok, keep-modify_first_found,
}

abbrev pub is_owner : TenantMember → Bool
is_owner m = m.role == role_owner && m.status == member_active

abbrev pub IsGrantable : Invitation → Type 0
IsGrantable i = is_grantable i.role ≡ true

-- The active owners, and that no invitation grants the owner role.
pub record HasOwners (owners : List TenantMember) (s : Store) : Type 0 where
  pub owned : keep is_owner s.members ≡ owners
  pub granted : All IsGrantable s.invitations

pub grantable-not_owner : (role : String) → is_grantable role ≡ true → (role == role_owner) ≡ false
grantable-not_owner role h = elim (Bool-cases (role == role_admin)) [
  | inl t ↦ rw ((eq_iff role role_admin).0 t) refl
  | inr t ↦ rw ((eq_iff role role_staff).0 (rw t at h)) refl
]

pub authorized_target :
    (actor : String) (target : TenantMember) (change : Option String)
    → authorize_member_change actor target change ≡ ok tt
    → (target.role == role_owner) ≡ false
unfolding authorize_member_change
authorized_target actor target change h = ground arith

pub authorized_role :
    (actor : String) (target : TenantMember) (role : String)
    → authorize_member_change actor target (some role) ≡ ok tt
    → is_grantable role ≡ true
unfolding authorize_member_change
authorized_role actor target role h = ground arith

pub update_role-owned :
    (now : ℕ) (tenant id role : String) (s s' : Store) (target : TenantMember)
    → get_member_by_id tenant id s ≡ ok target
    → (target.role == role_owner) ≡ false
    → is_grantable role ≡ true
    → update_role now tenant id role s ≡ ok s'
    → (keep is_owner s'.members ≡ keep is_owner s.members) × (s'.invitations ≡ s.invitations)
unfolding update_role
update_role-owned now tenant id role s s' target found off grant h =
    let (rows, e, out) = and_then-eq-ok (update_row _ _ _ s.members) _ h in
    let (a, found', on, same) = update_row-eq-ok (is_member_row tenant id) _ _ s.members rows e in
    let held = get_row-eq-ok (is_member_row tenant id) s.members target found in
    let was : a ≡ target = ground arith in
    let before : is_owner a ≡ false = rw was (ground arith) in
    let after : is_owner (record a { role = role; updated_at = now }) ≡ false =
      ground (arith, grantable-not_owner role grant) in
    let kept =
      keep-modify_first_found is_owner (is_member_row tenant id)
        (λ m. record m { role = role; updated_at = now }) s.members a found' before after in
    let s'_eq : record s { members = rows } ≡ s' = ground arith in
    (
      ap (λ (x : Store). keep is_owner x.members) (sym s'_eq) ∙ ap (keep is_owner) same ∙ kept,
      ap (λ (x : Store). x.invitations) (sym s'_eq),
    )

pub set_member_status-owned :
    (now : ℕ) (tenant id : String) (s s' : Store) (target : TenantMember)
    → get_member_by_id tenant id s ≡ ok target
    → (target.role == role_owner) ≡ false
    → set_member_status now tenant id member_removed s ≡ ok s'
    → (keep is_owner s'.members ≡ keep is_owner s.members) × (s'.invitations ≡ s.invitations)
unfolding set_member_status
set_member_status-owned now tenant id s s' target found off h =
    let (rows, e, out) = and_then-eq-ok (update_row _ _ _ s.members) _ h in
    let (a, found', on, same) = update_row-eq-ok (is_member_row tenant id) _ _ s.members rows e in
    let held = get_row-eq-ok (is_member_row tenant id) s.members target found in
    let was : a ≡ target = ground arith in
    let before : is_owner a ≡ false = rw was (ground arith) in
    let after : is_owner (record a { status = member_removed; updated_at = now }) ≡ false =
      ground arith in
    let kept =
      keep-modify_first_found is_owner (is_member_row tenant id)
        (λ m. record m { status = member_removed; updated_at = now }) s.members a found' before
        after in
    let s'_eq : record s { members = rows } ≡ s' = ground arith in
    (
      ap (λ (x : Store). keep is_owner x.members) (sym s'_eq) ∙ ap (keep is_owner) same ∙ kept,
      ap (λ (x : Store). x.invitations) (sym s'_eq),
    )

pub update_pending-owned :
    (tenant id : String) (change : Invitation → Invitation) (s s' : Store)
    → ((i : Invitation) → IsGrantable i → IsGrantable (change i))
    → All IsGrantable s.invitations
    → update_pending tenant id change s ≡ ok s'
    → (s'.members ≡ s.members) × All IsGrantable s'.invitations
unfolding update_pending
update_pending-owned tenant id change s s' keeps all h =
    let (rows, e, out) = and_then-eq-ok (update_row _ _ _ s.invitations) _ h in
    let (a, found', on, same) =
      update_row-eq-ok (is_invitation_row tenant id) _ _ s.invitations rows e in
    let s'_eq : record s { invitations = rows } ≡ s' = ground arith in
    (
      ap (λ (x : Store). x.members) (sym s'_eq),
      subst (λ (x : Store). All IsGrantable x.invitations) s'_eq
          (subst (All IsGrantable) (sym same) (
            All-modify_first IsGrantable (is_invitation_row tenant id) change (λ i _ q. keeps i q)
              s.invitations all)),
    )

pub keep-append_off {ℓ} :
    {A : Type ℓ} (p : A → Bool) (xs : List A) (a : A)
    → p a ≡ false
    → keep p (xs ++ (a ∷ [])) ≡ keep p xs
keep-append_off p [] a off = rw off refl
keep-append_off p (x ∷ xs) a off = ground (arith, off, keep-append_off p xs a off)

pub put_member-owned :
    (m joined : TenantMember) (found : Option TenantMember) (s s' : Store)
    → find (same_person m) s.members ≡ found
    → (m.role == role_owner) ≡ false
    → put_member m found s ≡ ok (joined, s')
    → (keep is_owner s'.members ≡ keep is_owner s.members) × (s'.invitations ≡ s.invitations)
unfolding put_member
put_member-owned m joined none s s' found off h =
    let s'_eq : record s { members = s.members ++ (m ∷ []) } ≡ s' = ground arith in
    let gone : is_owner m ≡ false = ground arith in
    (
      ap (λ (x : Store). keep is_owner x.members) (sym s'_eq)
          ∙ keep-append_off is_owner s.members m gone,
      ap (λ (x : Store). x.invitations) (sym s'_eq),
    )
put_member-owned m joined (some x) s s' found off h =
    let s'_eq : record s { members = modify_first (same_person m) (reactivate m) s.members } ≡ s' =
      ground arith in
    let removed : (x.status == member_removed) ≡ true = ground arith in
    let before : is_owner x ≡ false =
      rw ((eq_iff x.status member_removed).0 removed) (ground arith) in
    let after : is_owner (reactivate m x) ≡ false = ground arith in
    (
      ap (λ (y : Store). keep is_owner y.members) (sym s'_eq)
          ∙ keep-modify_first_found is_owner (same_person m) (reactivate m) s.members x found before
              after,
      ap (λ (y : Store). y.invitations) (sym s'_eq),
    )
