-- ===== src/Tenant/Joining.antt =====
-- internal/tenant/service.go: what an accepted invitation was, and what it leaves
-- (AcceptInvitation).
use racetify_api.Base.{
  ℕ, String, ◌≡◌, refl, sym, ap, ◌∙◌, Bool, true, false, List, [], ◌∷◌, ◌++◌, Option, none, some,
  inl, inr, ◌==◌, arith, eq_refl, Bool-cases, find, find_sound, modify_first, subst,
}
use racetify_api.Text.{Unicode}
use racetify_api.Domain.{invalid_state, Result, ok, err, and_then-eq-ok}
use racetify_api.Auth.{User}
use racetify_api.Tenant.{
  member_active, TenantMember, Invitation, Store, update_row, get_row, is_expired, active_role,
  same_person, reactivate, put_member, create_or_reactivate_member, get_invitation_by_token_hash,
  is_invitation_row, is_pending, update_pending, mark_accepted, record_audit,
}
use racetify_api.Tenant.Invitations.{
  normalize_email, get_user, Draw, new_member, accept_tx, check_invitation, accept_checked,
  accept_found, accept_invitation,
}
use racetify_api.Tenant.Rows.{
  with_tenant_tx-eq-ok, update_row-eq-ok, get_row-eq-ok, find-modify_first_found,
}

-- The two tests find the same row, which passes the first one after the change too.
find-modify_first :
    {A : Type 0} (p q : A → Bool) (f : A → A) (xs : List A) (a : A)
    → find p xs ≡ some a
    → find q xs ≡ some a
    → p (f a) ≡ true
    → find p (modify_first q f xs) ≡ some (f a)
find-modify_first p q f [] a found found' on = cc
find-modify_first p q f (x ∷ xs) a found found' on = elim (Bool-cases (q x)) [
  | inl t ↦
      let same : x ≡ a = ground arith in
      let here : p (f x) ≡ true = rw same on in rw (sym same) (ground (arith, here))
  | inr t ↦ elim (Bool-cases (p x)) [
    | inl b ↦
        let same : x ≡ a = ground arith in
        let sound : q x ≡ true = rw same (find_sound q xs a (ground arith)) in ground (arith, sound)
    | inr b ↦ ground (arith, find-modify_first p q f xs a (ground arith) (ground arith) on)
  ]
]

find-append_new :
    {A : Type 0} (p : A → Bool) (xs : List A) (a : A)
    → find p xs ≡ none
    → p a ≡ true
    → find p (xs ++ (a ∷ [])) ≡ some a
find-append_new p [] a off on = rw on refl
find-append_new p (x ∷ xs) a off on = elim (Bool-cases (p x)) [
  | inl t ↦ ground arith
  | inr t ↦ rw t (find-append_new p xs a (ground arith) on)
]

-- The person of a membership that was put is active, with its role.
put_member-active :
    (m joined : TenantMember) (found : Option TenantMember) (s s' : Store)
    → find (same_person m) s.members ≡ found
    → m.status ≡ member_active
    → put_member m found s ≡ ok (joined, s')
    → active_role m.tenant_id m.user_id s' ≡ (m.role, true)
unfolding put_member active_role
put_member-active m joined none s s' found on h =
    let rows = s.members ++ (m ∷ []) in
    let s'_eq : record s { members = rows } ≡ s' = ground arith in
    let held : find (same_person m) rows ≡ some m =
      find-append_new (same_person m) s.members m found
        (ground (arith, eq_refl m.tenant_id, eq_refl m.user_id)) in
    subst (λ x. active_role m.tenant_id m.user_id x ≡ (m.role, true)) s'_eq
      (rw (held, active_role) (rw on refl))
put_member-active m joined (some x) s s' found on h =
    let rows = modify_first (same_person m) (reactivate m) s.members in
    let s'_eq : record s { members = rows } ≡ s' = ground arith in
    let held : find (same_person m) rows ≡ some (reactivate m x) =
      find-modify_first_found (same_person m) (reactivate m) s.members x found
        (find_sound (same_person m) s.members x found) in
    subst (λ x. active_role m.tenant_id m.user_id x ≡ (m.role, true)) s'_eq
      (rw (held, active_role) (rw on refl))

put_member-invitations :
    (m joined : TenantMember) (found : Option TenantMember) (s s' : Store)
    → put_member m found s ≡ ok (joined, s')
    → s'.invitations ≡ s.invitations
unfolding put_member
put_member-invitations m joined none s s' h =
    let s'_eq : record s { members = s.members ++ (m ∷ []) } ≡ s' = ground arith in
    ap (λ (x : Store). x.invitations) (sym s'_eq)
put_member-invitations m joined (some x) s s' h =
    let s'_eq : record s { members = modify_first (same_person m) (reactivate m) s.members } ≡ s' =
      ground arith in
    ap (λ (y : Store). y.invitations) (sym s'_eq)

-- The token finds the accepted invitation after the change, if the id is the key of the table.
marked_invitation :
    (hash : String) (now : ℕ) (inv : Invitation) (s s' : Store)
    → get_invitation_by_token_hash hash s ≡ ok inv
    → find (is_invitation_row inv.tenant_id inv.id) s.invitations ≡ some inv
    → update_pending inv.tenant_id inv.id (mark_accepted now) s ≡ ok s'
    → find (λ i. i.token_hash == hash) s'.invitations ≡ some (mark_accepted now inv)
unfolding update_pending get_invitation_by_token_hash
marked_invitation hash now inv s s' stored keyed h =
    let key = is_invitation_row inv.tenant_id inv.id in
    let token : Invitation → Bool = λ i. i.token_hash == hash in
    let (rows, e, out) = and_then-eq-ok (update_row _ _ _ s.invitations) _ h in
    let (a, found, on, same) =
      update_row-eq-ok key is_pending (mark_accepted now) s.invitations rows e in
    let s'_eq : record s { invitations = rows } ≡ s' = ground arith in
    let held = get_row-eq-ok token s.invitations inv stored in
    ap (λ (x : Store). find token x.invitations) (sym s'_eq)
    ∙ ap (find token) same
    ∙ find-modify_first token key (mark_accepted now) s.invitations inv held keyed
        (find_sound token s.invitations inv held)

-- What an accepted invitation was, and what the store says after it.
pub record IsJoined (u : Unicode) (hash_token : String → String) (ttl : ℕ) (now : ℕ)
    (raw user_id : String) (s s' : Store) : Type 0 where
  pub invitation : Invitation
  pub stored : get_invitation_by_token_hash (hash_token raw) s ≡ ok invitation
  pub pending : is_pending invitation ≡ true
  pub in_time : is_expired invitation now ≡ false
  pub account : User
  pub known : get_user user_id s ≡ ok account
  pub addressed : (normalize_email u account.email == normalize_email u invitation.email) ≡ true
  pub joined : active_role invitation.tenant_id user_id s' ≡ (invitation.role, true)
  pub spent :
      (draw : Draw) (other_id : String)
      → accept_invitation u hash_token ttl draw raw other_id s' ≡ (err invalid_state, s')

module _ (u : Unicode) (hash_token : String → String) (ttl : ℕ) where
  checked_invitation :
      (now : ℕ) (inv : Invitation) (user_id : String) (s : Store)
      → check_invitation u hash_token ttl now inv user_id s ≡ ok tt
      → (is_pending inv ≡ true)
        × (is_expired inv now ≡ false)
        × ((account : User) × (get_user user_id s ≡ ok account)
            × ((normalize_email u account.email == normalize_email u inv.email) ≡ true))
  unfolding check_invitation
  checked_invitation now inv user_id s h = elim (Bool-cases (is_pending inv)) [
    | inr t ↦ let out = rw t at h in cc (out)
    | inl t ↦ elim (Bool-cases (is_expired inv now)) [
      | inl x ↦ let out = rw x at (rw t at h) in cc (out)
      | inr x ↦
          let (account, e, out) = and_then-eq-ok (get_user user_id s) _ (rw x at (rw t at h)) in
          (t, x, (account, e, ground arith))
    ]
  ]

  -- The token of an accepted invitation opens nothing.
  spent_invitation :
      (raw user_id : String) (draw : Draw) (inv : Invitation) (s : Store)
      → get_invitation_by_token_hash (hash_token raw) s ≡ ok inv
      → is_pending inv ≡ false
      → accept_invitation u hash_token ttl draw raw user_id s ≡ (err invalid_state, s)
  unfolding accept_invitation accept_found accept_checked check_invitation
  spent_invitation raw user_id draw inv s stored off = rw stored (rw off refl)

  accepted_checked :
      (draw : Draw) (inv : Invitation) (user_id : String) (checked : Result (Unit {0}))
      (s s' : Store) (m : TenantMember)
      → accept_checked u hash_token ttl draw inv user_id checked s ≡ (ok m, s')
      → (checked ≡ ok tt) × (accept_tx u hash_token ttl draw inv user_id s ≡ ok (m, s'))
  unfolding accept_checked
  accepted_checked draw inv user_id (err e) s s' m h = cc
  accepted_checked draw inv user_id (ok x) s s' m h = (
    refl,
    with_tenant_tx-eq-ok inv.tenant_id (accept_tx u hash_token ttl draw inv user_id) s s' m h,
  )

  accepted_found :
      (draw : Draw) (found : Result Invitation) (user_id : String) (s s' : Store) (m : TenantMember)
      → accept_found u hash_token ttl draw found user_id s ≡ (ok m, s')
      → (inv : Invitation) × (found ≡ ok inv)
        × (check_invitation u hash_token ttl draw.now inv user_id s ≡ ok tt)
        × (accept_tx u hash_token ttl draw inv user_id s ≡ ok (m, s'))
  unfolding accept_found
  accepted_found draw (err e) user_id s s' m h = cc
  accepted_found draw (ok inv) user_id s s' m h =
      let (checked, done) =
        accepted_checked draw inv user_id (check_invitation u hash_token ttl draw.now inv user_id s)
          s s' m h in
      (inv, refl, checked, done)

  -- The transaction: the invitation is accepted, and the person is a member.
  accept_tx-joined :
      (draw : Draw) (raw user_id : String) (inv : Invitation) (s s' : Store) (m : TenantMember)
      → get_invitation_by_token_hash (hash_token raw) s ≡ ok inv
      → find (is_invitation_row inv.tenant_id inv.id) s.invitations ≡ some inv
      → accept_tx u hash_token ttl draw inv user_id s ≡ ok (m, s')
      → (active_role inv.tenant_id user_id s' ≡ (inv.role, true))
        × (get_invitation_by_token_hash (hash_token raw) s' ≡ ok (mark_accepted draw.now inv))
  unfolding accept_tx create_or_reactivate_member update_pending get_invitation_by_token_hash
      get_row
  accept_tx-joined draw raw user_id inv s s' m stored keyed h =
      let new = new_member u hash_token ttl draw inv user_id in
      let (mid, marked, e1) =
        and_then-eq-ok (update_pending inv.tenant_id inv.id (mark_accepted draw.now) s) _ h in
      let (joined, put, e2) =
        and_then-eq-ok (put_member new (find (same_person new) mid.members) mid) _ e1 in
      let s'_eq : record_audit "invitation.accepted" joined.1 ≡ s' = ground arith in
      let held = marked_invitation (hash_token raw) draw.now inv s mid stored keyed marked in
      let kept =
        put_member-invitations new joined.0 (find (same_person new) mid.members) mid joined.1 put in
      let active =
        put_member-active new joined.0 (find (same_person new) mid.members) mid joined.1 refl refl
          put in
      (
        subst (λ x. active_role inv.tenant_id user_id x ≡ (inv.role, true)) s'_eq
            (unfold active_role in active),
        subst
            (λ (x : Store).
              get_row (λ i. i.token_hash == hash_token raw) x.invitations
              ≡ ok (mark_accepted draw.now inv))
            s'_eq (rw (kept, held, get_row) refl),
      )

-- An invitation that was accepted was pending, in time, and sent to the address of the account that
-- accepts it (up to case and outer spaces); after it, the account is an active member of the
-- invitation's workspace with the invitation's role, and the same token is refused for everyone, if
-- the id is the key of the invitations.
pub accept_invitation-IsJoined :
    (u : Unicode) (hash_token : String → String) (ttl : ℕ) (draw : Draw) (raw user_id : String)
    (s s' : Store) (m : TenantMember)
    → ((i : Invitation)
        → get_invitation_by_token_hash (hash_token raw) s ≡ ok i
        → find (is_invitation_row i.tenant_id i.id) s.invitations ≡ some i)
    → accept_invitation u hash_token ttl draw raw user_id s ≡ (ok m, s')
    → IsJoined u hash_token ttl draw.now raw user_id s s'
unfolding accept_invitation
accept_invitation-IsJoined u hash_token ttl draw raw user_id s s' m keyed h =
    let (inv, stored, checked, done) =
      accepted_found u hash_token ttl draw (get_invitation_by_token_hash (hash_token raw) s) user_id
        s s' m h in
    let (pending, in_time, (account, known, addressed)) =
      checked_invitation u hash_token ttl draw.now inv user_id s checked in
    let (joined, gone) =
      accept_tx-joined u hash_token ttl draw raw user_id inv s s' m stored (keyed inv stored)
        done in
    record {
      invitation = inv;
      stored = stored;
      pending = pending;
      in_time = in_time;
      account = account;
      known = known;
      addressed = addressed;
      joined = joined;
      spent = λ draw' other_id.
          spent_invitation u hash_token ttl raw other_id draw' (mark_accepted draw.now inv) s' gone
            refl;
    }
