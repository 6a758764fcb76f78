-- ===== src/Tenant/Owners/Transactions.antt =====
-- internal/tenant: the owners of the workspaces, over a transaction.
use racetify_api.Base.{
  ℕ, ◌+◌, String, ◌≡◌, refl, ap, ◌∙◌, List, [], ◌∷◌, ◌++◌, Option, none, some, arith, find, keep,
  subst, All-append,
}
use racetify_api.Text.{Unicode}
use racetify_api.Domain.{ok, and_then-eq-ok}
use racetify_api.Tenant.{
  member_removed, Tenant, TenantMember, Invitation, Store, update_row, get_tenant_by_id,
  update_tenant_status, get_member_by_id, update_role, set_member_status, same_person, put_member,
  create_or_reactivate_member, create_invitation, get_invitation_by_id, update_pending,
  mark_accepted, mark_invitation_revoked, with_token, record_audit,
}
use racetify_api.Tenant.Members.{authorize_member_change, update_member_role_tx, remove_member_tx}
use racetify_api.Tenant.Invitations.{
  get_user, Draw, invite_tx, rotate_tx, resend_tx, revoke_tx, new_member, accept_tx,
}
use racetify_api.Tenant.Workspaces.{set_status_tx}
use racetify_api.Tenant.Owners.{
  is_owner, IsGrantable, HasOwners, grantable-not_owner, authorized_target, authorized_role,
  update_role-owned, set_member_status-owned, update_pending-owned, put_member-owned,
}

module _ (owners : List TenantMember) where
  pub update_member_role_tx-HasOwners :
      (now : ℕ) (tenant actor id role : String) (s : Store)
      → HasOwners owners s
      → (m : TenantMember) (s' : Store)
      → update_member_role_tx now tenant actor id role s ≡ ok (m, s')
      → HasOwners owners s'
  unfolding update_member_role_tx
  update_member_role_tx-HasOwners now tenant actor id role s h m s' e =
      let (target, found, e1) = and_then-eq-ok (get_member_by_id tenant id s) _ e in
      let (_, allowed, e2) =
        and_then-eq-ok (authorize_member_change actor target (some role)) _ e1 in
      let (mid, done, e3) = and_then-eq-ok (update_role now tenant id role s) _ e2 in
      let s'_eq : record_audit "member.role_changed" mid ≡ s' = ground arith in
      let (same, invitations) =
        update_role-owned now tenant id role s mid target found
          (authorized_target actor target (some role) allowed)
          (authorized_role actor target role allowed) done in
      subst (HasOwners owners) s'_eq
        (record { owned = same ∙ h.owned; granted = rw invitations h.granted })

  pub remove_member_tx-HasOwners :
      (now : ℕ) (tenant actor id : String) (s : Store)
      → HasOwners owners s
      → (m : Unit {0}) (s' : Store) → remove_member_tx now tenant actor id s ≡ ok (m, s')
      → HasOwners owners s'
  unfolding remove_member_tx
  remove_member_tx-HasOwners now tenant actor id s h m s' e =
      let (target, found, e1) = and_then-eq-ok (get_member_by_id tenant id s) _ e in
      let (_, allowed, e2) = and_then-eq-ok (authorize_member_change actor target none) _ e1 in
      let (mid, done, e3) =
        and_then-eq-ok (set_member_status now tenant id member_removed s) _ e2 in
      let s'_eq : record_audit "member.removed" mid ≡ s' = ground arith in
      let (same, invitations) =
        set_member_status-owned now tenant id s mid target found
          (authorized_target actor target none allowed) done in
      subst (HasOwners owners) s'_eq
        (record { owned = same ∙ h.owned; granted = rw invitations h.granted })

  module _ (u : Unicode) (hash_token : String → String) (ttl : ℕ) where
    pub accept_tx-HasOwners :
        (draw : Draw) (inv : Invitation) (user : String) (s : Store)
        → IsGrantable inv
        → HasOwners owners s
        → (m : TenantMember) (s' : Store) → accept_tx u hash_token ttl draw inv user s ≡ ok (m, s')
        → HasOwners owners s'
    unfolding accept_tx create_or_reactivate_member
    accept_tx-HasOwners draw inv user s grant h m s' e =
        let (mid, marked, e1) =
          and_then-eq-ok (update_pending inv.tenant_id inv.id (mark_accepted draw.now) s) _ e in
        let new = new_member u hash_token ttl draw inv user in
        let (joined, put, e2) =
          and_then-eq-ok (put_member new (find (same_person new) mid.members) mid) _ e1 in
        let s'_eq : record_audit "invitation.accepted" joined.1 ≡ s' = ground arith in
        let (members, all) =
          update_pending-owned inv.tenant_id inv.id (mark_accepted draw.now) s mid (λ i q. q)
            h.granted marked in
        let (same, invitations) =
          put_member-owned new joined.0 (find (same_person new) mid.members) mid joined.1 refl
            (grantable-not_owner inv.role grant) put in
        subst (HasOwners owners) s'_eq (record {
          owned = same ∙ ap (keep is_owner) members ∙ h.owned;
          granted = rw invitations all;
        })

    pub invite_tx-HasOwners :
        (actor : String) (inv : Invitation) (s : Store)
        → IsGrantable inv
        → HasOwners owners s
        → (i : Invitation) (s' : Store) → invite_tx u hash_token ttl actor inv s ≡ ok (i, s')
        → HasOwners owners s'
    unfolding invite_tx create_invitation
    invite_tx-HasOwners actor inv s grant h i s' e =
        let (mid, made, e1) = and_then-eq-ok (create_invitation inv s) _ e in
        let (_, _, e2) = and_then-eq-ok (get_tenant_by_id inv.tenant_id mid) _ e1 in
        let (_, _, e3) = and_then-eq-ok (get_user actor mid) _ e2 in
        let mid_eq : record s { invitations = s.invitations ++ (inv ∷ []) } ≡ mid = ground arith in
        let s'_eq : record_audit "invitation.created" mid ≡ s' = ground arith in
        subst (HasOwners owners) s'_eq (
          subst (λ x. HasOwners owners (record_audit "invitation.created" x)) mid_eq
            (record {
              owned = h.owned;
              granted = All-append IsGrantable s.invitations (inv ∷ []) h.granted (grant, tt);
            }))

    rotate_tx-HasOwners :
        (now : ℕ) (raw tenant actor : String) (inv : Invitation) (s : Store)
        → HasOwners owners s
        → (i : Invitation) (s' : Store)
        → rotate_tx u hash_token ttl now raw tenant actor inv s ≡ ok (i, s')
        → HasOwners owners s'
    unfolding rotate_tx
    rotate_tx-HasOwners now raw tenant actor inv s h i s' e =
        let change = with_token (hash_token raw) (now + ttl) in
        let (mid, marked, e1) = and_then-eq-ok (update_pending tenant inv.id change s) _ e in
        let (_, _, e2) = and_then-eq-ok (get_tenant_by_id tenant mid) _ e1 in
        let (_, _, e3) = and_then-eq-ok (get_user actor mid) _ e2 in
        let s'_eq : record_audit "invitation.resent" mid ≡ s' = ground arith in
        let (members, all) =
          update_pending-owned tenant inv.id change s mid (λ i q. q) h.granted marked in
        subst (HasOwners owners) s'_eq
          (record { owned = ap (keep is_owner) members ∙ h.owned; granted = all })

    pub resend_tx-HasOwners :
        (now : ℕ) (raw tenant actor role id : String) (s : Store)
        → HasOwners owners s
        → (i : Invitation) (s' : Store)
        → resend_tx u hash_token ttl now raw tenant actor role id s ≡ ok (i, s')
        → HasOwners owners s'
    unfolding resend_tx
    resend_tx-HasOwners now raw tenant actor role id s h i s' e =
        let (inv, found, e1) = and_then-eq-ok (get_invitation_by_id tenant id s) _ e in
        let e2 : rotate_tx u hash_token ttl now raw tenant actor inv s ≡ ok (i, s') =
          ground arith in
        rotate_tx-HasOwners now raw tenant actor inv s h i s' e2

    pub revoke_tx-HasOwners :
        (tenant id : String) (s : Store)
        → HasOwners owners s
        → (x : Unit {0}) (s' : Store) → revoke_tx u hash_token ttl tenant id s ≡ ok (x, s')
        → HasOwners owners s'
    unfolding revoke_tx
    revoke_tx-HasOwners tenant id s h x s' e =
        let (mid, marked, e1) =
          and_then-eq-ok (update_pending tenant id mark_invitation_revoked s) _ e in
        let s'_eq : record_audit "invitation.revoked" mid ≡ s' = ground arith in
        let (members, all) =
          update_pending-owned tenant id mark_invitation_revoked s mid (λ i q. q) h.granted
            marked in
        subst (HasOwners owners) s'_eq
          (record { owned = ap (keep is_owner) members ∙ h.owned; granted = all })

  pub set_status_tx-HasOwners :
      (tenant status : String) (reason : Option String) (s : Store)
      → HasOwners owners s
      → (t : Tenant) (s' : Store) → set_status_tx tenant status reason s ≡ ok (t, s')
      → HasOwners owners s'
  unfolding set_status_tx update_tenant_status
  set_status_tx-HasOwners tenant status reason s h t s' e =
      let (mid, done, e1) = and_then-eq-ok (update_tenant_status tenant status reason s) _ e in
      let (rows, up, e2) = and_then-eq-ok (update_row _ _ _ s.tenants) _ done in
      let (_, _, e3) = and_then-eq-ok (get_tenant_by_id tenant mid) _ e1 in
      let mid_eq : record s { tenants = rows } ≡ mid = ground arith in
      let s'_eq : record_audit "tenant.status_changed" mid ≡ s' = ground arith in
      subst (HasOwners owners) s'_eq (
        subst (λ x. HasOwners owners (record_audit "tenant.status_changed" x)) mid_eq
          (record { owned = h.owned; granted = h.granted }))
