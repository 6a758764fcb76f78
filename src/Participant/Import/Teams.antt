-- ===== src/Participant/Import/Teams.antt =====
-- internal/participant/import.go: the second pass (planTeams), and the whole plan.
--
-- The rows and their plans are walked together (`Entry`). `groups[key]` is the entries that pass
-- `in_group`, in file order, and `order` is `group_keys`; neither changes while the teams are
-- worked through, since only the end of the pass rewrites an action. `capacity` is the team size
-- less the members that stay and the rows seated so far, so `capacity <= 0` is `is_full`.
pub mod Edits
use Prim.Native.String
use racetify_api.Base.{
  ℕ, ltb, suc, ◌+◌, ℤ, pos, int_eq, leb_ℤ, String, Bool, true, false, not, List, [], ◌∷◌, ◌++◌,
  Option, none, some, map, ◌==◌, ◌||◌, ◌&&◌, if◌then◌else◌, any, head?, find_last, keep, modify,
  modify_first, length, is_empty,
}
use racetify_api.Text.{Unicode, trim_space, map_text}
use racetify_api.Participant.{RaceFormat, is_team, Error, valid_category, size_or_zero}
use racetify_api.Participant.Rules.{
  is_set, Composition, fine, warned, refused, check_team_composition,
}
use racetify_api.Participant.Import.{
  RowAction, create, update, skip, ImportRow, ExistingParticipant, ExistingTeam, PlanInput, TeamRef,
  RowPlan, has_error, add_error, add_warning, with_action, race_of, plan_row,
}

-- A team that the import will create.
pub record PlannedTeam : Type 0 where
  pub key : String
  pub race_id : String
  pub name : String
  pub category : String

pub record Entry : Type 0 where
  pub row : ImportRow
  pub plan : RowPlan

-- What pass 2 rewrites.
pub record Plan : Type 0 where
  pub rows : List Entry
  pub new_teams : List PlannedTeam

abbrev pub is_applied : RowAction → Bool
is_applied create = true
is_applied update = true
is_applied skip = false
is_applied RowAction.error = false

abbrev pub in_team_race : PlanInput → ImportRow → Bool
in_team_race input row = elim (race_of input row.race_id) [
  | none ↦ false
  | some race ↦ is_team race
]

abbrev pub on_plan : (RowPlan → RowPlan) → Entry → Entry
on_plan f e = record e { plan = f e.plan }

module _ (u : Unicode) (input : PlanInput) where
  unfoldable pub team_key : String → String → String
  team_key race_id name =
      String.◌++◌ race_id (String.◌++◌ "|" (map_text u.to_lower (trim_space name)))

  -- The row joins a team.
  abbrev pub joins : Entry → Bool
  joins e = is_applied e.plan.action && in_team_race input e.row && not (e.row.team_name == "")

  abbrev pub entry_key : Entry → String
  entry_key e = team_key e.row.race_id e.row.team_name

  unfoldable pub in_group : String → Entry → Bool
  in_group key e = joins e && entry_key e == key

  -- A row of the group that has no error: after the seating, one of `accepted`.
  unfoldable pub is_accepted : String → Entry → Bool
  is_accepted key e = in_group key e && not (has_error e.plan)

  -- `order`: the keys by first appearance.
  unfoldable pub group_keys : List String → List Entry → List String
  group_keys seen [] = []
  group_keys seen (e ∷ es) =
      let key = entry_key e in
      let new = joins e && not (any (λ k. k == key) seen) in
      let later = group_keys (if new then key ∷ seen else seen) es in
      if new then key ∷ later else later

  abbrev pub team_by_key : String → Option ExistingTeam
  team_by_key key = find_last (λ t. team_key t.race_id t.name == key) input.teams

  -- The first category that a row of the group states.
  abbrev pub stated_category : List Entry → String
  stated_category [] = ""
  stated_category (e ∷ es) =
      if e.row.team_category == "" then stated_category es else e.row.team_category

  abbrev pub category_of : Option ExistingTeam → List Entry → String
  category_of (some team) group = team.category
  category_of none group = stated_category group

  abbrev pub members_of : Option ExistingTeam → List ExistingParticipant
  members_of none = []
  members_of (some team) = team.members

  -- `importing[id]`
  abbrev pub is_importing : List Entry → String → Bool
  is_importing group id =
      any (λ e. not (e.plan.existing_id == "") && e.plan.existing_id == id) group

  -- The members that this file does not re-register.
  abbrev pub staying_of : Option ExistingTeam → List Entry → List ExistingParticipant
  staying_of team group = keep (λ m. not (is_importing group m.id)) (members_of team)

  abbrev pub size_of : Entry → ℤ
  size_of first = elim (race_of input first.row.race_id) [
    | none ↦ pos 0
    | some race ↦ size_or_zero race.team_size
  ]

-- `usedLegs`
abbrev pub legs_of : List ExistingParticipant → List ℤ
legs_of [] = []
legs_of (m ∷ ms) = elim m.leg_order [ none ↦ legs_of ms | some leg ↦ leg ∷ legs_of ms ]

abbrev pub add_leg : Option ℤ → List ℤ → List ℤ
add_leg none legs = legs
add_leg (some leg) legs = leg ∷ legs

abbrev pub leg_used : Option ℤ → List ℤ → Bool
leg_used none legs = false
leg_used (some leg) legs = any (λ l. int_eq l leg) legs

abbrev pub is_full : ℤ → ℕ → Bool
is_full size taken = leb_ℤ size (pos taken)

-- A row takes its leg and its place, or gets an error for either.
unfoldable pub seat_row : ℤ → List ℤ → ℕ → Entry → Entry
seat_row size legs taken e =
    let on_leg =
      if leg_used e.row.input.leg_order legs then on_plan (add_error "leg_order") e else e in
    if is_full size taken then on_plan (add_error "team_name") on_leg else on_leg

-- The loop over the group's rows. The rows outside the group are passed over.
unfoldable pub seat : (Entry → Bool) → ℤ → List ℤ → ℕ → List Entry → List Entry
seat here size legs taken [] = []
seat here size legs taken (e ∷ es) =
    let rest =
      seat here size (if here e then add_leg e.row.input.leg_order legs else legs)
        (if here e then suc taken else taken) es in
    (if here e then seat_row size legs taken e else e) ∷ rest

abbrev pub genders_of : List ExistingParticipant → List Entry → List String
genders_of staying accepted = map (λ m. m.gender) staying ++ map (λ e. e.row.input.gender) accepted

abbrev pub with_team : TeamRef → Entry → Entry
with_team ref = on_plan (λ rp. record rp { team = some ref })

-- The warnings go to the first accepted row.
unfoldable pub warn_composition : (Entry → Bool) → Composition → List Entry → List Entry
warn_composition here warned rows = modify_first here (on_plan (add_warning "gender")) rows
warn_composition here fine rows = rows
warn_composition here (refused e) rows = rows

unfoldable pub warn_size : (Entry → Bool) → ℤ → ℕ → List Entry → List Entry
warn_size here size total rows =
    if leb_ℤ size (pos total)
    then rows
    else modify_first here (on_plan (add_warning "team_name")) rows

-- The accepted rows get their team, which is created if it is new.
unfoldable pub assign : (Entry → Bool) → String → Entry → Option ExistingTeam → String → Plan → Plan
assign here key first (some t) category p = record p {
  rows = modify here (with_team (record { existing_id = t.id; new_key = "" })) p.rows;
}
assign here key first none category p = record {
  rows = modify here (with_team (record { existing_id = ""; new_key = key })) p.rows;
  new_teams =
      p.new_teams
      ++ (record {
        key = key;
        race_id = first.row.race_id;
        name = trim_space first.row.team_name;
        category = category;
      }
          ∷ []);
}

-- What a composition that is not refused leads to.
unfoldable pub admit :
    (Entry → Bool)
    → String
    → Entry
    → Option ExistingTeam
    → String
    → ℤ
    → ℕ
    → Composition
    → Plan
    → Plan
unfolding warn_composition warn_size assign
admit here key first team category size total outcome p =
    assign here key first team category
      (record p { rows = warn_size here size total (warn_composition here outcome p.rows) })

-- The accepted rows are refused together, or get their team.
unfoldable pub conclude :
    (Entry → Bool)
    → String
    → Entry
    → Option ExistingTeam
    → String
    → ℤ
    → ℕ
    → Composition
    → Plan
    → Plan
unfolding admit
conclude here key first team category size total (refused e) p = record p {
  rows = modify here (on_plan (add_error e.field)) p.rows;
}
conclude here key first team category size total warned p =
    admit here key first team category size total warned p
conclude here key first team category size total fine p =
    admit here key first team category size total fine p

module _ (u : Unicode) (input : PlanInput) where
  -- From the composition check on.
  unfoldable pub place :
      String → Entry → Option ExistingTeam → String → ℤ → List ExistingParticipant → Plan → Plan
  unfolding conclude
  place key first team category size staying p =
      let accepted = keep (is_accepted u input key) p.rows in
      conclude (is_accepted u input key) key first team category size
        (length staying + length accepted)
        (check_team_composition category size (genders_of staying accepted)) p

  -- The seating, and what follows it if a row was accepted.
  unfoldable pub fill :
      String → Entry → Option ExistingTeam → String → ℤ → List ExistingParticipant → Plan → Plan
  unfolding place
  fill key first team category size staying p =
      let seated = seat (in_group u input key) size (legs_of staying) (length staying) p.rows in
      if is_empty (keep (is_accepted u input key) seated)
      then record p { rows = seated }
      else place key first team category size staying (record p { rows = seated })

  -- The round of a group: a new team needs a valid category. (The code reports a missing one and
  -- a wrong one apart, by the same field.)
  unfoldable pub plan_group : String → List Entry → Option ExistingTeam → Option Entry → Plan → Plan
  unfolding fill
  plan_group key group team none p = p
  plan_group key group team (some first) p =
      let category = category_of u input team group in
      if not (is_set team) && not (valid_category category)
      then record p {
        rows = modify (in_group u input key) (on_plan (add_error "team_category")) p.rows;
      }
      else fill key first team category (size_of u input first) (staying_of u input team group) p

  -- One round of the loop over `order`.
  unfoldable pub plan_team : String → Plan → Plan
  unfolding plan_group
  plan_team key p =
      let group = keep (in_group u input key) p.rows in
      plan_group key group (team_by_key u input key) (head? group) p

  unfoldable pub plan_each : List String → Plan → Plan
  unfolding plan_team
  plan_each [] p = p
  plan_each (k ∷ ks) p = plan_each ks (plan_team k p)

-- A row that picked up an error no longer applies.
unfoldable pub settle : Entry → Entry
settle e =
    if has_error e.plan
    then on_plan (λ rp. record rp { action = RowAction.error; team = none }) e
    else e

abbrev pub team_is : String → Option TeamRef → Bool
team_is key none = false
team_is key (some ref) = not (ref.new_key == "") && ref.new_key == key

-- The end of planTeams: a team that nobody could join is not created.
unfoldable pub finish : Plan → Plan
unfolding settle
finish p =
    let rows = map settle p.rows in
    record {
      rows = rows;
      new_teams = keep (λ t. any (λ e. team_is t.key e.plan.team) rows) p.new_teams;
    }

abbrev pub entries : PlanInput → List Entry
entries input = map (λ row. record { row = row; plan = plan_row input row }) input.rows

-- PlanImport.
unfoldable pub plan_import : Unicode → PlanInput → Plan
unfolding plan_each finish
plan_import u input =
    let first = entries input in
    finish
      (plan_each u input (group_keys u input [] first) (record { rows = first; new_teams = [] }))
