-- ===== src/Tenant/Owners/Creation.antt =====
-- internal/tenant/service.go: the owner of a new workspace (CreateTenant).
use racetify_api.Base.{
  ℕ, String, ◌≡◌, refl, sym, ap, ◌∙◌, Bool, true, false, ◌||◌, List, [], ◌∷◌, ◌++◌, none, some, inl,
  inr, if◌then◌else◌, ◌==◌, arith, eq_refl, Bool-cases, any, find, keep, subst,
}
use racetify_api.Text.{Unicode}
use racetify_api.Domain.{ok, and_then-eq-ok}
use racetify_api.Tenant.{
  role_owner, tenant_pending, Tenant, TenantMember, Store, active_role, same_person,
  create_tenant_row, create_member, record_audit,
}
use racetify_api.Tenant.Workspaces.{owner_row, create_tx, create_tenant, slugify}
use racetify_api.Tenant.Rows.{with_tenant_tx-eq-ok}
use racetify_api.Tenant.Owners.{is_owner}

keep-append_on {ℓ} :
    {A : Type ℓ} (p : A → Bool) (xs : List A) (a : A)
    → p a ≡ true
    → keep p (xs ++ (a ∷ [])) ≡ keep p xs ++ (a ∷ [])
keep-append_on p [] a on = rw on refl
keep-append_on p (x ∷ xs) a on = elim (Bool-cases (p x)) [
  | inl t ↦ rw t (ap (λ ys. x ∷ ys) (keep-append_on p xs a on))
  | inr t ↦ rw t (keep-append_on p xs a on)
]

-- A row that no row clashes with is the one found.
find-append_apart {ℓ} :
    {A : Type ℓ} (p q : A → Bool) (xs : List A) (a : A)
    → any (λ x. q x || p x) xs ≡ false
    → p a ≡ true
    → find p (xs ++ (a ∷ [])) ≡ some a
find-append_apart p q [] a apart on = rw on refl
find-append_apart p q (x ∷ xs) a apart on = elim (Bool-cases (p x)) [
  | inl t ↦ ground arith
  | inr t ↦ rw t (find-append_apart p q xs a (ground arith) on)
]

create_member-eq-ok :
    (m : TenantMember) (s s' : Store)
    → create_member m s ≡ ok s'
    → is_owner m ≡ true
    → (keep is_owner s'.members ≡ keep is_owner s.members ++ (m ∷ []))
      × (find (same_person m) s'.members ≡ some m)
      × (s'.invitations ≡ s.invitations)
unfolding create_member
create_member-eq-ok m s s' h on =
    elim (Bool-cases (any (λ x. x.id == m.id || same_person m x) s.members)) [
      | inl t ↦ let out = rw t at h in cc (out)
      | inr t ↦
          let s'_eq : record s { members = s.members ++ (m ∷ []) } ≡ s' = ground arith in
          let mine : same_person m m ≡ true =
            ground (arith, eq_refl m.tenant_id, eq_refl m.user_id) in
          (
            ap (λ (x : Store). keep is_owner x.members) (sym s'_eq)
                ∙ keep-append_on is_owner s.members m on,
            ap (λ (x : Store). find (same_person m) x.members) (sym s'_eq)
                ∙ find-append_apart (same_person m) (λ x. x.id == m.id) s.members m t mine,
            ap (λ (x : Store). x.invitations) (sym s'_eq),
          )
    ]

create_tenant_row-kept :
    (t : Tenant) (s s' : Store)
    → create_tenant_row t s ≡ ok s'
    → (s'.members ≡ s.members) × (s'.invitations ≡ s.invitations)
unfolding create_tenant_row
create_tenant_row-kept t s s' h =
    elim (Bool-cases (any (λ x. x.id == t.id || x.slug == t.slug) s.tenants)) [
      | inl b ↦ let out = rw b at h in cc (out)
      | inr b ↦
          let s'_eq : record s { tenants = s.tenants ++ (t ∷ []) } ≡ s' = ground arith in
          (ap (λ (x : Store). x.members) (sym s'_eq), ap (λ (x : Store). x.invitations) (sym s'_eq))
    ]

-- What the creation of a workspace leaves.
pub record IsFounded (t : Tenant) (member_id : String) (s s' : Store) : Type 0 where
  pub owned : keep is_owner s'.members ≡ keep is_owner s.members ++ (owner_row t member_id ∷ [])
  pub active : active_role t.id t.owner_user_id s' ≡ (role_owner, true)
  pub invitations : s'.invitations ≡ s.invitations

create_tx-IsFounded :
    (t t' : Tenant) (member_id : String) (s s' : Store)
    → create_tx t member_id s ≡ ok (t', s')
    → (t ≡ t') × IsFounded t member_id s s'
unfolding create_tx active_role
create_tx-IsFounded t t' member_id s s' h =
    let (mid, made, e1) = and_then-eq-ok (create_tenant_row t s) _ h in
    let (last, joined, e2) = and_then-eq-ok (create_member (owner_row t member_id) mid) _ e1 in
    let (members, invitations) = create_tenant_row-kept t s mid made in
    let (owned, mine, same) = create_member-eq-ok (owner_row t member_id) mid last joined refl in
    let t_eq : t ≡ t' = ground arith in
    let s'_eq : record_audit "tenant.created" last ≡ s' = ground arith in
    (
      t_eq,
      subst (IsFounded t member_id s) s'_eq (record {
        owned = owned ∙ ap (λ xs. keep is_owner xs ++ (owner_row t member_id ∷ [])) members;
        active = rw (mine, active_role) refl;
        invitations = same ∙ invitations;
      }),
    )

-- A workspace that is created has the slug that its stated slug, or its name, gives, which is not
-- empty, and waits for verification; its creator is its active owner, and no other owner or
-- invitation comes or goes.
pub create_tenant-IsFounded :
    (u : Unicode) (id member_id : String) (now : ℕ) (user_id name stated : String) (s s' : Store)
    (t : Tenant)
    → create_tenant u id member_id now user_id name stated s ≡ (ok t, s')
    → (t.slug ≡ slugify u (if stated == "" then name else stated))
      × ((t.slug == "") ≡ false)
      × (t.status ≡ tenant_pending)
      × (t.owner_user_id ≡ user_id)
      × IsFounded t member_id s s'
unfolding create_tenant
create_tenant-IsFounded u id member_id now user_id name stated s s' t h =
    let slug = slugify u (if stated == "" then name else stated) in
    elim (Bool-cases (slug == "")) [
      | inl b ↦ let out = rw b at h in cc (out)
      | inr b ↦
          let made : Tenant = record {
            id = id;
            name = name;
            slug = slug;
            owner_user_id = user_id;
            status = tenant_pending;
            status_reason = none;
            created_at = now;
            updated_at = now;
          } in
          let (same, founded) =
            create_tx-IsFounded made t member_id s s'
              (with_tenant_tx-eq-ok id (create_tx made member_id) s s' t (rw b at h)) in
          subst
            (λ (x : Tenant).
              (x.slug ≡ slug)
              × ((x.slug == "") ≡ false)
              × (x.status ≡ tenant_pending)
              × (x.owner_user_id ≡ user_id)
              × IsFounded x member_id s s')
            same (refl, b, refl, refl, founded)
    ]
