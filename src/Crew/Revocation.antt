-- ===== src/Crew/Revocation.antt =====
-- internal/event: what a revocation does to the access of a person, and that it is for good.
use racetify_api.Base.{
  ℕ, String, Bool, true, false, if◌then◌else◌, ◌&&◌, ◌||◌, List, Option, some, ◌==◌, ◌≡◌, refl, sym,
  ap, ◌∙◌, inl, inr, Bool-cases, arith, eq_iff, any, find, find-modify_first_both, any-weaken,
}
use racetify_api.Text.{Unicode}
use racetify_api.Domain.{
  Error, other, already_exists, forbidden, Result, ok, err, and_then, and_then-eq-ok, ok-injective,
  Result-cases,
}
use racetify_api.Database.{with_tx, with_tenant_tx}
use racetify_api.Auth.{User}
use racetify_api.Tenant.{role_staff, is_at_least, active_role, update_row, get_row}
use racetify_api.Tenant.Rows.{with_tenant_tx-eq-ok, update_row-eq-ok}
use racetify_api.Tenant.Invitations.{normalize_email}
use racetify_api.Crew.{
  EventAssignment, Store, assignment_active, is_usable, get_assignment_for_user,
  tenant_id_for_event, is_grant_of, is_assignment, revoked, revoke_assignment_row, record_audit,
  get_event_by_id, create_assignment, user_by_email, same_grant,
}
use racetify_api.Crew.Service.{
  Draw, revoke_assignment, revoke_assignment_tx, assign_to_event, assign_checked, assign_person,
  new_assignment, grant_tx, validate_assignment_input,
}
use racetify_api.Crew.Access.{
  Access, as_member, denied, claims, require_event_access, access_to, member_access, crew_access,
}

same_tenant :
    (event_id : String) (s s' : Store)
    → s.events ≡ s'.events
    → tenant_id_for_event event_id s ≡ tenant_id_for_event event_id s'
unfolding tenant_id_for_event
same_tenant event_id s s' same =
    ap (λ es. and_then (get_row (λ e. e.id == event_id) es) (λ e. ok e.tenant_id)) same

-- What is left to a person whose assignment is revoked: the membership in the workspace.
abbrev pub as_staff : String → Bool → String × Bool → Access
as_staff tenant_id claimed (r, active) =
    if claimed && active && is_at_least r role_staff then as_member tenant_id r else denied

module _ (tenant_id event_id role id : String) (s s' : Store) (a : EventAssignment) where
  revoke_assignment-row :
      revoke_assignment tenant_id event_id role id s ≡ (ok tt, s')
      → find (is_assignment tenant_id event_id id) s.assignments ≡ some a
      → get_assignment_for_user tenant_id event_id a.user_id s ≡ some a
      → (is_at_least role role_staff ≡ true)
        × (a.status ≡ assignment_active)
        × (get_assignment_for_user tenant_id event_id a.user_id s' ≡ some (revoked a))
        × (s'.events ≡ s.events)
        × (s'.workspaces.members ≡ s.workspaces.members)
  unfolding revoke_assignment revoke_assignment_tx revoke_assignment_row get_assignment_for_user
  revoke_assignment-row h by_id by_user = elim (Bool-cases (is_at_least role role_staff)) [
    | inr n ↦ absurd (let out : err forbidden ≡ ok tt = ap (λ r. r.0) (rw n at h) in cc)
    | inl staff ↦
        let tx : with_tenant_tx tenant_id (revoke_assignment_tx tenant_id event_id id) s
            ≡ (ok tt, s') =
          rw staff at h in
        let out =
          with_tenant_tx-eq-ok tenant_id (revoke_assignment_tx tenant_id event_id id) s s' tt tx in
        let (s1, w, o) = and_then-eq-ok (revoke_assignment_row tenant_id event_id id s) _ out in
        let (rows, upd, o') =
          and_then-eq-ok
            (update_row (is_assignment tenant_id event_id id) (λ x. x.status == assignment_active)
              revoked s.assignments)
            _ w in
        let (b, found, was_active, changed) =
          update_row-eq-ok (is_assignment tenant_id event_id id)
            (λ x. x.status == assignment_active) revoked s.assignments rows upd in
        let same : b ≡ a = let hit : some b ≡ some a = sym found ∙ by_id in cc in
        let s1_is : record s { assignments = rows } ≡ s1 = ok-injective _ _ o' in
        let final : record_audit "event_assignment.revoked" s1 ≡ s' =
          ap (λ r. r.1) (ok-injective _ _ o) in
        let list : s'.assignments ≡ rows =
          ap (λ t. t.assignments) (sym final) ∙ ap (λ t. t.assignments) (sym s1_is) in
        let active : (a.status == assignment_active) ≡ true =
          ap (λ x. x.status == assignment_active) (sym same) ∙ was_active in
        (
          staff,
          (eq_iff a.status assignment_active).0 active,
          ap (find (is_grant_of tenant_id event_id a.user_id)) (list ∙ changed)
              ∙ find-modify_first_both (is_grant_of tenant_id event_id a.user_id)
                  (is_assignment tenant_id event_id id) revoked (λ x. refl) s.assignments a by_user
                  by_id,
          ap (λ t. t.events) (sym final) ∙ ap (λ t. t.events) (sym s1_is),
          ap (λ t. t.workspaces.members) (sym final) ∙ ap (λ t. t.workspaces.members) (sym s1_is),
        )
  ]

  revoke_assignment-named :
      revoke_assignment tenant_id event_id role id s ≡ (ok tt, s') → (tenant_id == "") ≡ false
  unfolding revoke_assignment
  revoke_assignment-named h = elim (Bool-cases (tenant_id == "")) [
    | inr f ↦ f
    | inl t ↦ elim (Bool-cases (is_at_least role role_staff)) [
      | inl staff ↦ absurd (
          let out = rw (staff, t) at h in
          let d : err (other "database: WithTenantTx called with empty tenantID") ≡ ok tt =
            ap (λ r. r.0) out in
          cc)
      | inr n ↦ absurd (let out : err forbidden ≡ ok tt = ap (λ r. r.0) (rw n at h) in cc)
    ]
  ]

  outsider :
      (capability : String) (now : ℕ) (claimed : Bool) (m : String × Bool)
      (o : Option EventAssignment)
      → o ≡ some (revoked a)
      → member_access claimed m tenant_id (crew_access capability now tenant_id o)
        ≡ as_staff tenant_id claimed m
  unfolding is_usable
  outsider capability now claimed (r, active) o row =
      ap (λ x. member_access claimed (r, active) tenant_id (crew_access capability now tenant_id x))
        row

  -- A revocation that succeeds was asked for by staff at least and found the assignment active; after
  -- it, the gate of the event lets the person through only as a member, if their token is for the
  -- workspace of the event and their membership there, which is as it was before, is active and of
  -- staff at least; it denies them every capability at every time otherwise.
  pub revoke_assignment-denied :
      revoke_assignment tenant_id event_id role id s ≡ (ok tt, s')
      → find (is_assignment tenant_id event_id id) s.assignments ≡ some a
      → get_assignment_for_user tenant_id event_id a.user_id s ≡ some a
      → tenant_id_for_event event_id s ≡ ok tenant_id
      → (is_at_least role role_staff ≡ true)
        × (a.status ≡ assignment_active)
        × (s'.workspaces.members ≡ s.workspaces.members)
        × ((capability : String) (now : ℕ) (claim : Option String)
            → require_event_access capability now claim (some a.user_id) event_id s'
              ≡ as_staff tenant_id
                  (claims claim tenant_id)
                  (active_role tenant_id a.user_id s'.workspaces))
  unfolding require_event_access
  revoke_assignment-denied h by_id by_user of_tenant =
      let (staff, active, row, events, members) = revoke_assignment-row h by_id by_user in
      let tenant : tenant_id_for_event event_id s' ≡ ok tenant_id =
        same_tenant event_id s' s events ∙ of_tenant in
      let named = revoke_assignment-named h in
      (
        staff,
        active,
        members,
        λ capability now claim.
            ap (λ r. access_to capability now claim a.user_id event_id r s') tenant
            ∙ rw named (
                outsider capability now (claims claim tenant_id)
                  (active_role tenant_id a.user_id s'.workspaces)
                  (get_assignment_for_user tenant_id event_id a.user_id s') row),
      )

-- A transaction that cannot succeed gives an error and leaves the store.
failing :
    {S A : Type 0} (tenant_id : String) (m : S → Result (A × S)) (s : S)
    → ((e : Error) × (m s ≡ err e))
    → (e : Error) × (with_tenant_tx tenant_id m s ≡ (err e, s))
failing tenant_id m s (e, h) = elim (Bool-cases (tenant_id == "")) [
  | inl t ↦ (other "database: WithTenantTx called with empty tenantID", rw t refl)
  | inr t ↦ (e, rw (t, with_tx, h) refl)
]

grant_tx-taken :
    (a : EventAssignment) (s : Store)
    → any (same_grant a) s.assignments ≡ true
    → (e : Error) × (grant_tx a s ≡ err e)
unfolding grant_tx create_assignment
grant_tx-taken a s taken = elim (Result-cases (get_event_by_id a.tenant_id a.event_id s)) [
  | inr (e, h) ↦ (e, rw (h, and_then) refl)
  | inl (ev, h) ↦
      let clash : any (λ x. x.id == a.id || same_grant a x) s.assignments ≡ true =
        elim (Bool-cases (any (λ x. x.id == a.id || same_grant a x) s.assignments)) [
          | inl t ↦ t
          | inr f ↦ absurd (
              let gone =
                any-weaken (same_grant a) (λ x. x.id == a.id || same_grant a x)
                  (λ x g. ground arith) s.assignments f in
              cc)
        ] in
      (already_exists, rw (h, and_then, clash) refl)
]

-- A person with an account who has an assignment to the event, be it revoked or expired, cannot be
-- assigned to it again: whoever asks gets an error, and nothing changes.
pub assign_to_event-taken :
    (u : Unicode) (hash_token : String → String) (ttl : ℕ) (draw : Draw)
    (tenant_id event_id actor role email label : String) (capabilities : List String)
    (expires_at : Option ℕ) (person : User) (s : Store)
    → user_by_email u (normalize_email u email) s ≡ some person
    → any (λ x. x.event_id == event_id && x.user_id == person.id) s.assignments ≡ true
    → (e : Error) × (assign_to_event u hash_token ttl draw tenant_id event_id actor role email label
          capabilities expires_at s
        ≡ (err e, s))
unfolding assign_to_event
assign_to_event-taken u hash_token ttl draw tenant_id event_id actor role email label capabilities
      expires_at person s known taken =
    elim (Bool-cases (is_at_least role role_staff)) [
      | inr n ↦ rw n (forbidden, refl)
      | inl staff ↦ rw staff (checked (validate_assignment_input label capabilities))
    ]
  where
    a : EventAssignment
    a = new_assignment draw tenant_id event_id person.id label capabilities actor expires_at

    checked :
        (v : Result (Unit {0}))
        → (e : Error) × (assign_checked u hash_token ttl draw tenant_id event_id email label
              capabilities actor expires_at v s
            ≡ (err e, s))
    checked (err e) = (e, refl)
    checked (ok _) =
        let (e, h) = failing tenant_id (grant_tx a) s (grant_tx-taken a s taken) in
        (
          e,
          ap
                (λ o.
                  assign_person u hash_token ttl draw tenant_id event_id (normalize_email u email)
                    label capabilities actor expires_at o s)
                known
              ∙ h,
        )
