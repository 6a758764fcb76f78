-- ===== src/Tenant/Permissions.antt =====
-- internal/tenant/members.go: who may change or remove whom (authorizeMemberChange).
use racetify_api.Base.{
  ℕ, ◌≡◌, refl, ◌↔◌, String, Bool, true, not, ◌&&◌, ◌||◌, Option, none, some, ◌==◌, arith, inl, inr,
  eq_iff, Bool-cases, subst, find, find_sound, modify_first,
}
use racetify_api.Domain.{ok, and_then-eq-ok}
use racetify_api.Tenant.{
  role_owner, role_admin, role_staff, is_at_least, member_active, member_removed, TenantMember,
  Store, is_member_row, get_member_by_id, set_member_status, update_row, get_row, record_audit,
}
use racetify_api.Tenant.Members.{
  is_grantable, authorize_role, authorize_removal, authorize_change, authorize_member_change,
  remove_member_tx, remove_member,
}
use racetify_api.Tenant.Rows.{
  with_tenant_tx-eq-ok, update_row-eq-ok, get_row-eq-ok, find-modify_first_found,
}

-- The owner grants and removes; an admin removes staff. Nobody touches an owner.
abbrev pub is_allowed : String → TenantMember → Option String → Bool
is_allowed actor target (some role) =
    target.status == member_active
    && not (target.role == role_owner)
    && actor == role_owner
    && is_grantable role
is_allowed actor target none =
    target.status == member_active
    && not (target.role == role_owner)
    && (actor == role_owner || (actor == role_admin && target.role == role_staff))

-- A change of a member is allowed just when the member is active and not an owner, and an owner gives
-- it the admin or the staff role, or an owner removes it, or an admin removes it and it is staff.
pub authorize_member_change_lem :
    (actor : String) (target : TenantMember) (change : Option String)
    → (authorize_member_change actor target change ≡ ok tt)
      ↔ (is_allowed actor target change ≡ true)
unfolding authorize_member_change authorize_change authorize_role authorize_removal is_at_least
authorize_member_change_lem actor target (some role) = elim (Bool-cases (actor == role_owner)) [
  | inl t ↦ let is = (eq_iff actor role_owner).0 t in rw is (λ h. ground arith, λ h. ground arith)
  | inr t ↦ elim (Bool-cases (actor == role_admin)) [
    | inl a ↦ rw (t, a) (λ h. ground arith, λ h. ground arith)
    | inr a ↦ elim (Bool-cases (actor == role_staff)) [
      | inl b ↦ rw (t, a, b) (λ h. ground arith, λ h. ground arith)
      | inr b ↦ rw (t, a, b) (λ h. ground arith, λ h. ground arith)
    ]
  ]
]
authorize_member_change_lem actor target none = elim (Bool-cases (actor == role_owner)) [
  | inl t ↦ let is = (eq_iff actor role_owner).0 t in rw is (λ h. ground arith, λ h. ground arith)
  | inr t ↦ elim (Bool-cases (actor == role_admin)) [
    | inl a ↦ rw (t, a) (λ h. ground arith, λ h. ground arith)
    | inr a ↦ elim (Bool-cases (actor == role_staff)) [
      | inl b ↦ rw (t, a, b) (λ h. ground arith, λ h. ground arith)
      | inr b ↦ rw (t, a, b) (λ h. ground arith, λ h. ground arith)
    ]
  ]
]

-- A removal that succeeds was allowed, and leaves the member's row removed and every other field of
-- it as it was, but for updated_at, which is the time of the removal.
pub remove_member_lem :
    (now : ℕ) (tenant_id actor id : String) (s s' : Store)
    → remove_member now tenant_id actor id s ≡ (ok tt, s')
    → (target : TenantMember) × (get_member_by_id tenant_id id s ≡ ok target)
      × (is_allowed actor target none ≡ true)
      × (get_member_by_id tenant_id id s'
          ≡ ok (record target { status = member_removed; updated_at = now }))
unfolding remove_member remove_member_tx set_member_status get_row
remove_member_lem now tenant_id actor id s s' h =
    let key = is_member_row tenant_id id in
    let (target, found, e1) =
      and_then-eq-ok (get_member_by_id tenant_id id s) _
        (with_tenant_tx-eq-ok tenant_id (remove_member_tx now tenant_id actor id) s s' tt h) in
    let (_, allowed, e2) = and_then-eq-ok (authorize_member_change actor target none) _ e1 in
    let (mid, done, e3) =
      and_then-eq-ok (set_member_status now tenant_id id member_removed s) _ e2 in
    let (rows, e, out) = and_then-eq-ok (update_row _ _ _ s.members) _ done in
    let (a, found', on, same) = update_row-eq-ok key _ _ s.members rows e in
    let held = get_row-eq-ok key s.members target found in
    let mid_eq : record s { members = rows } ≡ mid = ground arith in
    let s'_eq : record_audit "member.removed" mid ≡ s' = ground arith in
    let written : find key
          (modify_first key (λ m. record m { status = member_removed; updated_at = now }) s.members)
        ≡ some (record target { status = member_removed; updated_at = now }) =
      find-modify_first_found key (λ m. record m { status = member_removed; updated_at = now })
        s.members target held (find_sound key s.members target held) in
    (
      target,
      found,
      (authorize_member_change_lem actor target none).0 allowed,
      subst
          (λ (x : Store).
            get_row key x.members
            ≡ ok (record target { status = member_removed; updated_at = now }))
          s'_eq
          (subst
            (λ (x : Store).
              get_row key x.members
              ≡ ok (record target { status = member_removed; updated_at = now }))
            mid_eq (rw (same, written, get_row) refl)),
    )
