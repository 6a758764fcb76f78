-- ===== src/Tenant/Owners/Runs.antt =====
-- internal/tenant: the owners of the workspaces, over any sequence of operations.
use racetify_api.Base.{
  ℕ, String, ◌≡◌, refl, Bool, true, not, ◌&&◌, ◌||◌, List, [], ◌∷◌, Option, inl, inr, ◌==◌,
  Bool-cases, keep, All, find-All,
}
use racetify_api.Text.{Unicode}
use racetify_api.Domain.{Result, ok, err}
use racetify_api.Tenant.{
  role_admin, is_at_least, TenantMember, Invitation, Store, get_row, get_invitation_by_token_hash,
}
use racetify_api.Tenant.Members.{
  is_grantable, update_member_role_tx, remove_member_tx, update_member_role, remove_member,
}
use racetify_api.Tenant.Invitations.{
  is_above, Draw, invite_tx, new_invitation, send, invite_staff, resend_tx, resend,
  resend_invitation, revoke_tx, revoke_invitation, accept_tx, check_invitation, accept_checked,
  accept_found, accept_invitation,
}
use racetify_api.Tenant.Workspaces.{set_status_tx, set_tenant_status, with_reason, is_blank}
use racetify_api.Tenant.{tenant_active, tenant_rejected, tenant_suspended}
use racetify_api.Tenant.Rows.{with_tenant_tx-kept, get_row-eq-ok}
use racetify_api.Tenant.Owners.{is_owner, IsGrantable, HasOwners}
use racetify_api.Tenant.Owners.Transactions.{
  update_member_role_tx-HasOwners, remove_member_tx-HasOwners, accept_tx-HasOwners,
  invite_tx-HasOwners, resend_tx-HasOwners, revoke_tx-HasOwners, set_status_tx-HasOwners,
}

-- An operation, with its arguments.
pub data Operation : Type 0 where
  change_role : ℕ → String → String → String → String → Operation
  remove : ℕ → String → String → String → Operation
  invite : Draw → String → String → String → String → String → Operation
  resend_link : Draw → String → String → String → String → Operation
  revoke : String → String → String → Operation
  accept : Draw → String → String → Operation
  set_status : Bool → String → String → Option String → Operation

module _ (u : Unicode) (hash_token : String → String) (ttl : ℕ) where
  abbrev pub step : Operation → Store → Store
  step (change_role now tenant actor member role) s =
      (update_member_role now tenant actor member role s).1
  step (remove now tenant actor member) s = (remove_member now tenant actor member s).1
  step (invite draw tenant actor actor_role role email) s =
      (invite_staff u hash_token ttl draw tenant actor actor_role role email s).1
  step (resend_link draw tenant actor actor_role id) s =
      (resend_invitation u hash_token ttl draw tenant actor actor_role id s).1
  step (revoke tenant actor_role id) s =
      (revoke_invitation u hash_token ttl tenant actor_role id s).1
  step (accept draw raw user) s = (accept_invitation u hash_token ttl draw raw user s).1
  step (set_status super tenant status reason) s =
      (set_tenant_status super tenant status reason s).1

  abbrev pub run : List Operation → Store → Store
  run [] s = s
  run (o ∷ os) s = run os (step o s)

module _ (u : Unicode) (hash_token : String → String) (ttl : ℕ) (owners : List TenantMember) where
  send-HasOwners :
      (draw : Draw) (tenant actor role email : String) (raw : Result String) (s : Store)
      → is_grantable role ≡ true
      → HasOwners owners s
      → HasOwners owners (send u hash_token ttl draw tenant actor role email raw s).1
  unfolding send
  send-HasOwners draw tenant actor role email (err e) s grant h = h
  send-HasOwners draw tenant actor role email (ok raw) s grant h =
      let inv = new_invitation u hash_token ttl draw tenant actor role email raw in
      with_tenant_tx-kept (HasOwners owners) tenant (invite_tx u hash_token ttl actor inv) s h
        (invite_tx-HasOwners owners u hash_token ttl actor inv s grant h)

  invite_staff-HasOwners :
      (draw : Draw) (tenant actor actor_role role email : String) (s : Store)
      → HasOwners owners s
      → HasOwners owners (invite_staff u hash_token ttl draw tenant actor actor_role role email s).1
  unfolding invite_staff
  invite_staff-HasOwners draw tenant actor actor_role role email s h =
      elim (Bool-cases (is_at_least actor_role role_admin)) [
        | inr t ↦ rw t h
        | inl t ↦ rw t (elim (Bool-cases (is_grantable role)) [
          | inr g ↦ rw g h
          | inl g ↦ rw g (elim (Bool-cases (is_above actor_role role)) [
            | inl a ↦ rw a h
            | inr a ↦ rw a (send-HasOwners draw tenant actor role email draw.raw s g h)
          ])
        ])
      ]

  resend-HasOwners :
      (draw : Draw) (tenant actor role id : String) (raw : Result String) (s : Store)
      → HasOwners owners s
      → HasOwners owners (resend u hash_token ttl draw tenant actor role id raw s).1
  unfolding resend
  resend-HasOwners draw tenant actor role id (err e) s h = h
  resend-HasOwners draw tenant actor role id (ok raw) s h =
      with_tenant_tx-kept (HasOwners owners) tenant
        (resend_tx u hash_token ttl draw.now raw tenant actor role id) s h
        (resend_tx-HasOwners owners u hash_token ttl draw.now raw tenant actor role id s h)

  resend_invitation-HasOwners :
      (draw : Draw) (tenant actor role id : String) (s : Store)
      → HasOwners owners s
      → HasOwners owners (resend_invitation u hash_token ttl draw tenant actor role id s).1
  unfolding resend_invitation
  resend_invitation-HasOwners draw tenant actor role id s h =
      elim (Bool-cases (is_at_least role role_admin)) [
        | inr t ↦ rw t h
        | inl t ↦ rw t (resend-HasOwners draw tenant actor role id draw.raw s h)
      ]

  revoke_invitation-HasOwners :
      (tenant role id : String) (s : Store)
      → HasOwners owners s
      → HasOwners owners (revoke_invitation u hash_token ttl tenant role id s).1
  unfolding revoke_invitation
  revoke_invitation-HasOwners tenant role id s h = elim (Bool-cases (is_at_least role role_admin)) [
    | inr t ↦ rw t h
    | inl t ↦ rw t (
        with_tenant_tx-kept (HasOwners owners) tenant (revoke_tx u hash_token ttl tenant id) s h
          (revoke_tx-HasOwners owners u hash_token ttl tenant id s h))
  ]

  accept_checked-HasOwners :
      (draw : Draw) (inv : Invitation) (user : String) (checked : Result (Unit {0})) (s : Store)
      → IsGrantable inv
      → HasOwners owners s
      → HasOwners owners (accept_checked u hash_token ttl draw inv user checked s).1
  unfolding accept_checked
  accept_checked-HasOwners draw inv user (err e) s grant h = h
  accept_checked-HasOwners draw inv user (ok x) s grant h =
      with_tenant_tx-kept (HasOwners owners) inv.tenant_id
        (accept_tx u hash_token ttl draw inv user) s h
        (accept_tx-HasOwners owners u hash_token ttl draw inv user s grant h)

  accept_found-HasOwners :
      (draw : Draw) (found : Result Invitation) (user : String) (s : Store)
      → ((inv : Invitation) → found ≡ ok inv → IsGrantable inv)
      → HasOwners owners s
      → HasOwners owners (accept_found u hash_token ttl draw found user s).1
  unfolding accept_found
  accept_found-HasOwners draw (err e) user s grant h = h
  accept_found-HasOwners draw (ok inv) user s grant h =
      accept_checked-HasOwners draw inv user (check_invitation u hash_token ttl draw.now inv user s)
        s (grant inv refl) h

  accept_invitation-HasOwners :
      (draw : Draw) (raw user : String) (s : Store)
      → HasOwners owners s
      → HasOwners owners (accept_invitation u hash_token ttl draw raw user s).1
  unfolding accept_invitation get_invitation_by_token_hash
  accept_invitation-HasOwners draw raw user s h =
      accept_found-HasOwners draw (get_row (λ i. i.token_hash == hash_token raw) s.invitations) user
        s
        (λ inv e.
          find-All (λ i. i.token_hash == hash_token raw) IsGrantable s.invitations inv h.granted
            (get_row-eq-ok (λ i. i.token_hash == hash_token raw) s.invitations inv e))
        h

  set_tenant_status-HasOwners :
      (super : Bool) (tenant status : String) (reason : Option String) (s : Store)
      → HasOwners owners s
      → HasOwners owners (set_tenant_status super tenant status reason s).1
  unfolding set_tenant_status
  set_tenant_status-HasOwners super tenant status reason s h =
      let kept =
        with_tenant_tx-kept (HasOwners owners) tenant
          (set_status_tx tenant status (with_reason status reason)) s h
          (set_status_tx-HasOwners owners tenant status (with_reason status reason) s h) in
      let known =
        status == tenant_active || status == tenant_rejected || status == tenant_suspended in
      elim (Bool-cases super) [
        | inr t ↦ rw t h
        | inl t ↦ rw t (elim (Bool-cases known) [
          | inr k ↦ rw k h
          | inl k ↦ rw k (elim (Bool-cases (not (status == tenant_active) && is_blank reason)) [
            | inl b ↦ rw b h
            | inr b ↦ rw b kept
          ])
        ])
      ]

  step-HasOwners :
      (o : Operation) (s : Store)
      → HasOwners owners s
      → HasOwners owners (step u hash_token ttl o s)
  unfolding update_member_role remove_member
  step-HasOwners (change_role now tenant actor member role) s h =
      with_tenant_tx-kept (HasOwners owners) tenant
        (update_member_role_tx now tenant actor member role) s h
        (update_member_role_tx-HasOwners owners now tenant actor member role s h)
  step-HasOwners (remove now tenant actor member) s h =
      with_tenant_tx-kept (HasOwners owners) tenant (remove_member_tx now tenant actor member) s h
        (remove_member_tx-HasOwners owners now tenant actor member s h)
  step-HasOwners (invite draw tenant actor actor_role role email) s h =
      invite_staff-HasOwners draw tenant actor actor_role role email s h
  step-HasOwners (resend_link draw tenant actor role id) s h =
      resend_invitation-HasOwners draw tenant actor role id s h
  step-HasOwners (revoke tenant role id) s h = revoke_invitation-HasOwners tenant role id s h
  step-HasOwners (accept draw raw user) s h = accept_invitation-HasOwners draw raw user s h
  step-HasOwners (set_status super tenant status reason) s h =
      set_tenant_status-HasOwners super tenant status reason s h

  run_from :
      (os : List Operation) (s : Store)
      → HasOwners owners s
      → HasOwners owners (run u hash_token ttl os s)
  run_from [] s h = h
  run_from (o ∷ os) s h = run_from os (step u hash_token ttl o s) (step-HasOwners o s h)

-- Nothing but the creation of a workspace makes or unmakes an owner: after any sequence of role
-- changes, removals, invitations, resends, revocations, acceptances and status changes, by actors of
-- any role, the active owners of the workspaces are the same, and no invitation grants the owner
-- role, if none did before.
pub run-HasOwners :
    (u : Unicode) (hash_token : String → String) (ttl : ℕ) (os : List Operation) (s : Store)
    → All IsGrantable s.invitations
    → HasOwners (keep is_owner s.members) (run u hash_token ttl os s)
run-HasOwners u hash_token ttl os s granted =
    run_from u hash_token ttl (keep is_owner s.members) os s
      (record { owned = refl; granted = granted })
