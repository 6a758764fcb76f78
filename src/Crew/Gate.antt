-- ===== src/Crew/Gate.antt =====
-- internal/event: whom the gate of an event lets through, and what a revocation does to it.
use racetify_api.Base.{
  ℕ, String, Bool, true, not, ◌&&◌, ◌||◌, Option, none, some, ◌==◌, ◌≡◌, refl, ap, ◌∙◌, inl, inr,
  ◌⊎◌, ◌≢◌, false, sym, subst, Bool-cases, arith, eq_iff,
}
use racetify_api.Domain.{Error, Result, ok, err}
use racetify_api.Tenant.{role_staff, is_at_least, active_role}
use racetify_api.Crew.{
  EventAssignment, Store, has_capability, is_usable, get_assignment_for_user, tenant_id_for_event,
}
use racetify_api.Crew.Access.{
  Access, unauthorized, no_event, failed, denied, as_member, as_crew, claims, crew_access,
  member_access, access_to, require_event_access,
}

module _ (capability : String) (now : ℕ) (claim : Option String) (event_id : String)
    (s : Store) where
  -- The token is for another workspace, or the membership is not active or below staff.
  abbrev pub IsNoMember : String → String × Bool → Type 0
  IsNoMember tenant_id (role, active) =
      (claim ≢ some tenant_id) ⊎ (active ≡ false) ⊎ (is_at_least role role_staff ≡ false)

  -- There is no assignment, or it is not usable now, or lacks the capability that was asked for.
  abbrev pub IsNoCrew : Option EventAssignment → Type 0
  IsNoCrew none = Unit
  IsNoCrew (some a) =
      (is_usable a now ≡ false) ⊎ ((capability ≢ "") × (has_capability a capability ≡ false))

  -- What the gate has seen of a caller, by its answer.
  abbrev pub IsAllowed : Option String → Access → Type 0
  IsAllowed caller (as_member tenant_id role) =
      (user : String) × (caller ≡ some user)
      × (tenant_id_for_event event_id s ≡ ok tenant_id)
      × (claim ≡ some tenant_id)
      × (active_role tenant_id user s.workspaces ≡ (role, true))
      × (is_at_least role role_staff ≡ true)
  IsAllowed caller (as_crew tenant_id capabilities) =
      (user : String) × (caller ≡ some user)
      × (tenant_id_for_event event_id s ≡ ok tenant_id)
      × (a : EventAssignment) × (get_assignment_for_user tenant_id event_id user s ≡ some a)
      × (is_usable a now ≡ true)
      × (capabilities ≡ a.capabilities)
      × ((capability ≡ "") ⊎ (has_capability a capability ≡ true))
  IsAllowed caller unauthorized = caller ≡ none
  IsAllowed caller no_event =
      (user : String) × (caller ≡ some user)
      × (e : Error) × (tenant_id_for_event event_id s ≡ err e)
  IsAllowed caller failed =
      (user : String) × (caller ≡ some user) × (tenant_id_for_event event_id s ≡ ok "")
  IsAllowed caller denied =
      (user : String) × (caller ≡ some user)
      × (tenant_id : String) × (tenant_id_for_event event_id s ≡ ok tenant_id)
      × IsNoMember tenant_id (active_role tenant_id user s.workspaces)
      × IsNoCrew (get_assignment_for_user tenant_id event_id user s)

  claims-eq :
      (c : Option String) (tenant_id : String) → claims c tenant_id ≡ true → c ≡ some tenant_id
  claims-eq none tenant_id h = absurd cc
  claims-eq (some claimed) tenant_id h = ap (λ x. some x) ((eq_iff claimed tenant_id).0 h)

  claims-neq :
      (c : Option String) (tenant_id : String) → claims c tenant_id ≡ false → c ≢ some tenant_id
  claims-neq none tenant_id h e = absurd cc
  claims-neq (some claimed) tenant_id h e =
      let same : claimed ≡ tenant_id = cc in let t = (eq_iff claimed tenant_id).1 same in cc

  crew-IsAllowed :
      (user tenant_id : String) (o : Option EventAssignment)
      → tenant_id_for_event event_id s ≡ ok tenant_id
      → get_assignment_for_user tenant_id event_id user s ≡ o
      → IsNoMember tenant_id (active_role tenant_id user s.workspaces)
      → IsAllowed (some user) (crew_access capability now tenant_id o)
  crew-IsAllowed user tenant_id none t e outside =
      (user, refl, tenant_id, t, outside, subst IsNoCrew (sym e) tt)
  crew-IsAllowed user tenant_id (some a) t e outside =
      elim (Bool-cases
        (not (is_usable a now) || (not (capability == "") && not (has_capability a capability)))) [
          | inl refused ↦
              let why : (is_usable a now ≡ false)
                  ⊎ ((capability ≢ "") × (has_capability a capability ≡ false)) =
                elim (Bool-cases (is_usable a now)) [
                  | inr stale ↦ inl stale
                  | inl usable ↦ inr (
                    λ none_asked. let t = (eq_iff capability "").1 none_asked in ground arith,
                    ground arith,
                  )
                ] in
              rw refused (user, refl, tenant_id, t, outside, subst IsNoCrew (sym e) why)
          | inr passed ↦
              let usable : is_usable a now ≡ true = ground arith in
              let capable : (capability ≡ "") ⊎ (has_capability a capability ≡ true) =
                elim (Bool-cases (capability == "")) [
                  | inl none_asked ↦ inl ((eq_iff capability "").0 none_asked)
                  | inr asked ↦ inr (ground arith)
                ] in
              rw passed (user, refl, t, a, e, usable, refl, capable)
        ]

  member-IsAllowed :
      (user tenant_id : String) (m : String × Bool) (otherwise : Access)
      → tenant_id_for_event event_id s ≡ ok tenant_id
      → active_role tenant_id user s.workspaces ≡ m
      → (IsNoMember tenant_id m → IsAllowed (some user) otherwise)
      → IsAllowed (some user) (member_access (claims claim tenant_id) m tenant_id otherwise)
  member-IsAllowed user tenant_id (role, active) otherwise t e h =
      elim (Bool-cases (claims claim tenant_id && active && is_at_least role role_staff)) [
        | inr no_member ↦
            let why : IsNoMember tenant_id (role, active) =
              elim (Bool-cases (claims claim tenant_id)) [
                | inr foreign ↦ inl (claims-neq claim tenant_id foreign)
                | inl own ↦ elim (Bool-cases active) [
                  | inr off ↦ inr (inl off)
                  | inl on ↦ inr (inr (ground arith))
                ]
              ] in
            rw no_member (h why)
        | inl yes_member ↦
            let on : active ≡ true = ground arith in
            let staff : is_at_least role role_staff ≡ true = ground arith in
            rw yes_member (
              user,
              refl,
              t,
              claims-eq claim tenant_id (ground arith),
              e ∙ ap (λ b. (role, b)) on,
              staff,
            )
      ]

  access-IsAllowed :
      (user : String) (r : Result String)
      → tenant_id_for_event event_id s ≡ r
      → IsAllowed (some user) (access_to capability now claim user event_id r s)
  access-IsAllowed user (err e) t = (user, refl, e, t)
  access-IsAllowed user (ok tenant_id) t = elim (Bool-cases (tenant_id == "")) [
    | inl empty ↦ rw empty (user, refl, t ∙ ap (λ x. ok x) ((eq_iff tenant_id "").0 empty))
    | inr named ↦ rw named (
        member-IsAllowed user tenant_id (active_role tenant_id user s.workspaces)
          (crew_access capability now tenant_id (get_assignment_for_user tenant_id event_id user s))
          t refl
          (crew-IsAllowed user tenant_id (get_assignment_for_user tenant_id event_id user s) t
            refl))
  ]

  -- What each answer of the gate of an event says. As a member it lets through a caller whose token is
  -- for the workspace of the event and whose membership there is active, as staff at least; as crew, a
  -- caller who has an assignment to the event that is active and not expired, with the capability that
  -- was asked for if one was, and with the capabilities of the assignment. A caller who is denied has
  -- neither. It asks for a login only when there is no caller; a caller gets `no_event` only when the
  -- event is not found, and `failed` only when its workspace has no id.
  pub require_event_access-IsAllowed :
      (caller : Option String)
      → IsAllowed caller (require_event_access capability now claim caller event_id s)
  unfolding require_event_access
  require_event_access-IsAllowed none = refl
  require_event_access-IsAllowed (some user) =
      access-IsAllowed user (tenant_id_for_event event_id s) refl
