-- ===== src/Crew/Acceptance.antt =====
-- internal/event: what accepting an invitation to an event needs, and the access that it gives.
use racetify_api.Base.{
  ℕ, ltb, String, Bool, true, false, not, ◌||◌, [], ◌∷◌, ◌++◌, some, ◌==◌, if◌then◌else◌, ◌≡◌, refl,
  sym, ap, ◌∙◌, subst, arith, eq_iff, eq_refl, any, find, find-append, any-weaken,
}
use racetify_api.Text.{Unicode}
use racetify_api.Domain.{
  Error, already_exists, forbidden, invalid_state, token_expired, Result, ok, err, and_then-eq-ok,
  ok-injective,
}
use racetify_api.Auth.{User}
use racetify_api.Tenant.Rows.{with_tenant_tx-eq-ok}
use racetify_api.Tenant.Invitations.{normalize_email}
use racetify_api.Crew.{
  EventAssignment, EventInvitation, Store, get_assignment_for_user, is_grant_of, record_audit,
  create_assignment, user_by_id, same_grant, get_event_invitation_by_token_hash,
  mark_event_invitation_accepted,
}
use racetify_api.Crew.Service.{
  Draw, new_assignment, accept_event_invitation, accept_checked, accept_tx, check_acceptance,
}

-- What passes a guard.
unless-ok :
    {A : Type 0} (b : Bool) (e : Error) (r : Result A) (a : A)
    → (if b then err e else r) ≡ ok a
    → (b ≡ false) × (r ≡ ok a)
unless-ok true e r a h = absurd cc
unless-ok false e r a h = (refl, h)

create_assignment-ok :
    (a : EventAssignment) (s s' : Store)
    → create_assignment a s ≡ ok s'
    → get_assignment_for_user a.tenant_id a.event_id a.user_id s' ≡ some a
unfolding create_assignment get_assignment_for_user
create_assignment-ok a s s' h =
    let (free, out) =
      unless-ok (any (λ x. x.id == a.id || same_grant a x) s.assignments) already_exists
        (ok (record s { assignments = s.assignments ++ (a ∷ []) })) s' h in
    let nobody : any (is_grant_of a.tenant_id a.event_id a.user_id) s.assignments ≡ false =
      any-weaken (is_grant_of a.tenant_id a.event_id a.user_id)
        (λ x. x.id == a.id || same_grant a x) (λ x g. ground arith) s.assignments free in
    let own : is_grant_of a.tenant_id a.event_id a.user_id a ≡ true =
      rw (eq_refl a.tenant_id, eq_refl a.event_id, eq_refl a.user_id) refl in
    let same = ok-injective (record s { assignments = s.assignments ++ (a ∷ []) }) s' out in
    ap (λ t. find (is_grant_of a.tenant_id a.event_id a.user_id) t.assignments) (sym same)
    ∙ find-append (is_grant_of a.tenant_id a.event_id a.user_id) s.assignments (a ∷ []) nobody
    ∙ rw own refl

module _ (u : Unicode) (hash_token : String → String) (ttl : ℕ) (draw : Draw) (raw user_id : String)
    (s : Store) where
  -- What an invitation that can be accepted is.
  abbrev pub IsOpen : EventInvitation → Type 0
  IsOpen inv =
      (get_event_invitation_by_token_hash (hash_token raw) s ≡ ok inv)
      × (inv.status ≡ "pending")
      × (ltb inv.expires_at draw.now ≡ false)
      × (person : User) × (user_by_id user_id s ≡ ok person)
      × (normalize_email u person.email ≡ normalize_email u inv.email)

  check_acceptance-IsOpen :
      (inv : EventInvitation)
      → check_acceptance u hash_token ttl draw.now raw user_id s ≡ ok inv
      → IsOpen inv
  unfolding check_acceptance
  check_acceptance-IsOpen inv h =
      let (i, found, h1) =
        and_then-eq-ok (get_event_invitation_by_token_hash (hash_token raw) s) _ h in
      let (pending, h2) = unless-ok (not (i.status == "pending")) invalid_state _ inv h1 in
      let (fresh, h3) = unless-ok (ltb i.expires_at draw.now) token_expired _ inv h2 in
      let (person, known, h4) = and_then-eq-ok (user_by_id user_id s) _ h3 in
      let (mine, h5) =
        unless-ok (not (normalize_email u person.email == normalize_email u i.email)) forbidden
          (ok i) inv h4 in
      subst IsOpen (ok-injective i inv h5) (
        found,
        (eq_iff i.status "pending").0 (ground arith),
        fresh,
        person,
        known,
        (eq_iff (normalize_email u person.email) (normalize_email u i.email)).0 (ground arith),
      )

  abbrev pub grant_of : EventInvitation → EventAssignment
  grant_of inv =
      new_assignment draw inv.tenant_id inv.event_id user_id inv.label inv.capabilities
        inv.invited_by inv.assignment_expires_at

  accept_checked-ok :
      (r : Result EventInvitation) (s' : Store) (a : EventAssignment)
      → accept_checked u hash_token ttl draw user_id r s ≡ (ok a, s')
      → (inv : EventInvitation) × (r ≡ ok inv)
        × (accept_tx u hash_token ttl draw inv user_id s ≡ ok (a, s'))
  accept_checked-ok (err e) s' a h = absurd (let d : err e ≡ ok a = ap (λ x. x.0) h in cc)
  accept_checked-ok (ok inv) s' a h = (
    inv,
    refl,
    with_tenant_tx-eq-ok inv.tenant_id (accept_tx u hash_token ttl draw inv user_id) s s' a h,
  )

  -- An invitation to an event that is accepted was pending and not expired, and it was sent to the
  -- e-mail address of the account that accepts it; the person then has the assignment that it
  -- offers, with its label, its capabilities and its expiry.
  pub accept_event_invitation-IsOpen :
      (s' : Store) (a : EventAssignment)
      → accept_event_invitation u hash_token ttl draw raw user_id s ≡ (ok a, s')
      → (inv : EventInvitation) × IsOpen inv
        × (a ≡ grant_of inv)
        × (get_assignment_for_user inv.tenant_id inv.event_id user_id s' ≡ some a)
  unfolding accept_event_invitation accept_tx get_assignment_for_user
  accept_event_invitation-IsOpen s' a h =
      let (inv, checked, tx) =
        accept_checked-ok (check_acceptance u hash_token ttl draw.now raw user_id s) s' a h in
      let (s1, _, h1) =
        and_then-eq-ok (mark_event_invitation_accepted inv.tenant_id inv.id draw.now s) _ tx in
      let (s2, made, out) = and_then-eq-ok (create_assignment (grant_of inv) s1) _ h1 in
      let same : grant_of inv ≡ a = ap (λ r. r.0) (ok-injective _ _ out) in
      let final : record_audit "event_assignment.accepted" s2 ≡ s' =
        ap (λ r. r.1) (ok-injective _ _ out) in
      (
        inv,
        check_acceptance-IsOpen inv checked,
        sym same,
        ap (λ t. find (is_grant_of inv.tenant_id inv.event_id user_id) t.assignments) (sym final)
            ∙ create_assignment-ok (grant_of inv) s1 s2 made
            ∙ ap (λ x. some x) same,
      )
