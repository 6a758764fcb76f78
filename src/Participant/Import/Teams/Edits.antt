-- ===== src/Participant/Import/Teams/Edits.antt =====
-- What planTeams can do to a row: every round is made of three edits of a row's plan.
use racetify_api.Base.{
  ℕ, ℤ, String, Bool, inl, inr, List, [], ◌∷◌, Option, none, some, ◌&&◌, not, Bool-cases, keep,
  modify, All, All-modify, All-modify_first, suc, length, head?, pos, leb_ℤ, ◌+◌, is_empty,
}
use racetify_api.Text.{Unicode}
use racetify_api.Participant.{valid_category}
use racetify_api.Participant.Rules.{
  Composition, fine, warned, refused, check_team_composition, is_set,
}
use racetify_api.Participant.Import.{
  ExistingParticipant, ExistingTeam, PlanInput, TeamRef, add_error, add_warning,
}
use racetify_api.Participant.Import.Teams.{
  Entry, Plan, on_plan, in_group, is_accepted, seat_row, seat, legs_of, add_leg, leg_used, is_full,
  genders_of, with_team, warn_composition, warn_size, assign, admit, conclude, place, fill,
  plan_group, plan_team, plan_each, team_by_key, category_of, staying_of, size_of,
}

pub data Edit : Type 0 where
  an_error a_warning : String → Edit
  a_team : TeamRef → Edit

abbrev pub edit : Edit → Entry → Entry
edit (an_error field) = on_plan (add_error field)
edit (a_warning field) = on_plan (add_warning field)
edit (a_team ref) = with_team ref

-- A property that every edit keeps is kept by every round.
module _ (P : Entry → Type 0) (closed : (d : Edit) (e : Entry) → P e → P (edit d e)) where
  seat_row-closed :
      (size : ℤ) (legs : List ℤ) (taken : ℕ) (e : Entry) → P e → P (seat_row size legs taken e)
  unfolding seat_row
  seat_row-closed size legs taken e h = elim (Bool-cases (leg_used e.row.input.leg_order legs)) [
    | inl t ↦ rw t (elim (Bool-cases (is_full size taken)) [
      | inl f ↦ rw f (closed (an_error "team_name") _ (closed (an_error "leg_order") e h))
      | inr f ↦ rw f (closed (an_error "leg_order") e h)
    ])
    | inr t ↦ rw t (elim (Bool-cases (is_full size taken)) [
      | inl f ↦ rw f (closed (an_error "team_name") e h)
      | inr f ↦ rw f h
    ])
  ]

  seat-closed :
      (here : Entry → Bool) (size : ℤ) (legs : List ℤ) (taken : ℕ) (es : List Entry)
      → All P es
      → All P (seat here size legs taken es)
  unfolding seat
  seat-closed here size legs taken [] h = tt
  seat-closed here size legs taken (e ∷ es) (q, h) = elim (Bool-cases (here e)) [
    | inl t ↦ rw t (
      seat_row-closed size legs taken e q,
      seat-closed here size (add_leg e.row.input.leg_order legs) (suc taken) es h,
    )
    | inr t ↦ rw t (q, seat-closed here size legs taken es h)
  ]

  modify-closed :
      (here : Entry → Bool) (d : Edit) (es : List Entry)
      → All P es
      → All P (modify here (edit d) es)
  modify-closed here d es h = All-modify P here (edit d) (λ e _ q. closed d e q) es h

  warn_composition-closed :
      (here : Entry → Bool) (outcome : Composition) (es : List Entry)
      → All P es
      → All P (warn_composition here outcome es)
  unfolding warn_composition
  warn_composition-closed here warned es h =
      All-modify_first P here (edit (a_warning "gender")) (λ e _ q. closed (a_warning "gender") e q)
        es h
  warn_composition-closed here fine es h = h
  warn_composition-closed here (refused x) es h = h

  warn_size-closed :
      (here : Entry → Bool) (size : ℤ) (total : ℕ) (es : List Entry)
      → All P es
      → All P (warn_size here size total es)
  unfolding warn_size
  warn_size-closed here size total es h = elim (Bool-cases (leb_ℤ size (pos total))) [
    | inl t ↦ rw t h
    | inr t ↦ rw t (
        All-modify_first P here (edit (a_warning "team_name"))
          (λ e _ q. closed (a_warning "team_name") e q) es h)
  ]

  assign-closed :
      (here : Entry → Bool) (key : String) (first : Entry) (team : Option ExistingTeam)
      (category : String) (p : Plan)
      → All P p.rows
      → All P (assign here key first team category p).rows
  unfolding assign
  assign-closed here key first (some t) category p h =
      modify-closed here (a_team (record { existing_id = t.id; new_key = "" })) p.rows h
  assign-closed here key first none category p h =
      modify-closed here (a_team (record { existing_id = ""; new_key = key })) p.rows h

  admit-closed :
      (here : Entry → Bool) (key : String) (first : Entry) (team : Option ExistingTeam)
      (category : String) (size : ℤ) (total : ℕ) (outcome : Composition) (p : Plan)
      → All P p.rows
      → All P (admit here key first team category size total outcome p).rows
  unfolding admit
  admit-closed here key first team category size total outcome p h =
      assign-closed here key first team category
        (record p { rows = warn_size here size total (warn_composition here outcome p.rows) })
        (warn_size-closed here size total (warn_composition here outcome p.rows)
          (warn_composition-closed here outcome p.rows h))

  conclude-closed :
      (here : Entry → Bool) (key : String) (first : Entry) (team : Option ExistingTeam)
      (category : String) (size : ℤ) (total : ℕ) (outcome : Composition) (p : Plan)
      → All P p.rows
      → All P (conclude here key first team category size total outcome p).rows
  unfolding conclude
  conclude-closed here key first team category size total (refused x) p h =
      modify-closed here (an_error x.field) p.rows h
  conclude-closed here key first team category size total warned p h =
      admit-closed here key first team category size total warned p h
  conclude-closed here key first team category size total fine p h =
      admit-closed here key first team category size total fine p h

  module _ (u : Unicode) (input : PlanInput) where
    place-closed :
        (key : String) (first : Entry) (team : Option ExistingTeam) (category : String) (size : ℤ)
        (staying : List ExistingParticipant) (p : Plan)
        → All P p.rows
        → All P (place u input key first team category size staying p).rows
    unfolding place
    place-closed key first team category size staying p h =
        let accepted = keep (is_accepted u input key) p.rows in
        conclude-closed (is_accepted u input key) key first team category size
          (length staying + length accepted)
          (check_team_composition category size (genders_of staying accepted)) p h

    fill-closed :
        (key : String) (first : Entry) (team : Option ExistingTeam) (category : String) (size : ℤ)
        (staying : List ExistingParticipant) (p : Plan)
        → All P p.rows
        → All P (fill u input key first team category size staying p).rows
    unfolding fill
    fill-closed key first team category size staying p h =
        let seated = seat (in_group u input key) size (legs_of staying) (length staying) p.rows in
        let good =
          seat-closed (in_group u input key) size (legs_of staying) (length staying) p.rows h in
        elim (Bool-cases (is_empty (keep (is_accepted u input key) seated))) [
          | inl t ↦ rw t good
          | inr t ↦
              rw t (
                place-closed key first team category size staying (record p { rows = seated }) good)
        ]

    plan_group-closed :
        (key : String) (group : List Entry) (team : Option ExistingTeam) (first : Option Entry)
        (p : Plan)
        → All P p.rows
        → All P (plan_group u input key group team first p).rows
    unfolding plan_group
    plan_group-closed key group team none p h = h
    plan_group-closed key group team (some first) p h =
        let category = category_of u input team group in
        elim (Bool-cases (not (is_set team) && not (valid_category category))) [
          | inl t ↦ rw t (modify-closed (in_group u input key) (an_error "team_category") p.rows h)
          | inr t ↦ rw t (
              fill-closed key first team category (size_of u input first)
                (staying_of u input team group) p h)
        ]

    plan_team-closed :
        (key : String) (p : Plan) → All P p.rows → All P (plan_team u input key p).rows
    unfolding plan_team
    plan_team-closed key p h =
        let group = keep (in_group u input key) p.rows in
        plan_group-closed key group (team_by_key u input key) (head? group) p h

    pub plan_each-closed :
        (keys : List String) (p : Plan) → All P p.rows → All P (plan_each u input keys p).rows
    unfolding plan_each
    plan_each-closed [] p h = h
    plan_each-closed (k ∷ ks) p h =
        plan_each-closed ks (plan_team u input k p) (plan_team-closed k p h)
