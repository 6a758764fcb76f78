-- ===== src/Event/Races.antt =====
-- internal/event/service.go: the races of an event.
use racetify_api.Base.{
  ℕ, ℤ, String, Bool, false, not, ◌&&◌, Option, none, some, ◌==◌, if◌then◌else◌,
}
use racetify_api.Text.{Unicode, trim_space}
use racetify_api.Domain.{forbidden, invalid_state, Result, ok, err, and_then}
use racetify_api.Database.{Tx, with_tenant_tx}
use racetify_api.Tenant.{role_admin, is_at_least}
use racetify_api.Event.{
  Race, Store, get_event_by_id, create_race_row, get_race_by_id, update_race_row,
  race_has_participants, delete_race_row, record_audit,
}
use racetify_api.Event.Format.{
  Floats, RaceFormat, course_loop, mode_time_limit, normalize_format, validate_format,
  equal_formats,
}
use racetify_api.Event.Events.{slug_for, or_kept, patch_name, patch_slug}

pub record RacePatch (F : Type 0) : Type 0 where
  pub name : Option String
  pub slug : Option String
  pub distance_km : Option F
  pub entry_type : Option String
  pub course_type : Option String
  pub team_size : Option ℤ
  pub loop_mode : Option String
  pub loop_length_km : Option F
  pub loop_target_laps : Option ℤ
  pub loop_time_limit_ms : Option ℤ

abbrev pub or_text : Option String → String → String
or_text none kept = kept
or_text (some t) kept = t

abbrev pub is_timed_mode : Option String → Bool
is_timed_mode none = false
is_timed_mode (some m) = m == mode_time_limit

module _ {F : Type 0} where
  -- applyFormat
  abbrev pub apply_format : RacePatch F → RaceFormat F → RaceFormat F
  apply_format p f = record {
    entry_type = or_text p.entry_type f.entry_type;
    course_type = or_text p.course_type f.course_type;
    team_size = or_kept p.team_size f.team_size;
    loop_mode = or_kept p.loop_mode f.loop_mode;
    loop_length_km = or_kept p.loop_length_km f.loop_length_km;
    loop_target_laps = or_kept p.loop_target_laps f.loop_target_laps;
    loop_time_limit_ms = or_kept p.loop_time_limit_ms f.loop_time_limit_ms;
  }

  -- A loop that is run against the clock.
  abbrev pub is_timed : RaceFormat F → Bool
  is_timed f = f.course_type == course_loop && is_timed_mode f.loop_mode

  -- clearUnfixedDistance
  abbrev pub clear_unfixed_distance : Race F → Race F
  clear_unfixed_distance r = record r {
    distance_km = if is_timed r.format then none else r.distance_km;
  }

  module _ (fl : Floats F) where
    unfoldable pub create_race_tx : Race F → Tx (Store F) (Race F)
    create_race_tx r s =
        and_then (get_event_by_id r.tenant_id r.event_id s)
          λ _. and_then (create_race_row fl r s) λ s'. ok (r, record_audit "race.created" s')

    abbrev pub stated_race :
        String → ℕ → String → String → String → String → Option F → RaceFormat F → Race F
    stated_race id now tenant_id event_id name slug distance_km format = record {
      id = id;
      tenant_id = tenant_id;
      event_id = event_id;
      name = name;
      slug = slug;
      distance_km = distance_km;
      format = format;
      created_at = now;
      updated_at = now;
    }

    abbrev pub new_race :
        String → ℕ → String → String → String → String → Option F → RaceFormat F → Race F
    new_race id now tenant_id event_id name slug distance_km format =
        clear_unfixed_distance (stated_race id now tenant_id event_id name slug distance_km format)

    abbrev pub create_checked : Result (Unit {0}) → Race F → Store F → Result (Race F) × Store F
    create_checked (err e) r s = (err e, s)
    create_checked (ok _) r s = with_tenant_tx r.tenant_id (create_race_tx r) s

    -- CreateRace
    unfoldable pub create_race :
        Unicode
        → String
        → ℕ
        → String
        → String
        → String
        → String
        → String
        → Option F
        → RaceFormat F
        → Store F
        → Result (Race F) × Store F
    unfolding create_race_tx
    create_race u id now tenant_id event_id role name stated distance_km stated_format s =
        let slug = slug_for u name stated in
        let format = normalize_format stated_format in
        if not (is_at_least role role_admin)
        then (err forbidden, s)
        else if trim_space name == ""
        then (err invalid_state, s)
        else if slug == ""
        then (err invalid_state, s)
        else create_checked (validate_format fl format)
            (new_race id now tenant_id event_id name slug distance_km format) s

    -- The format of a race changes only before it has participants.
    abbrev pub change_format : Bool → Race F → RaceFormat F → Result (Race F)
    change_format has_participants r format =
        if equal_formats fl format r.format
        then ok r
        else if has_participants
        then err invalid_state
        else ok (record r { format = format })

    unfoldable pub patch_race : Unicode → RacePatch F → Bool → Race F → Result (Race F)
    patch_race u patch has_participants current =
        let format = normalize_format (apply_format patch current.format) in
        and_then (patch_name patch.name current.name) λ name.
          and_then (patch_slug u patch.slug current.slug) λ slug.
            and_then (validate_format fl format) λ _.
              and_then
                (change_format has_participants
                  (record current {
                    name = name;
                    slug = slug;
                    distance_km = or_kept patch.distance_km current.distance_km;
                  })
                  format)
                λ changed. ok (clear_unfixed_distance changed)

    unfoldable pub update_race_tx :
        Unicode → String → String → String → RacePatch F → Tx (Store F) (Race F)
    unfolding patch_race
    update_race_tx u tenant_id event_id id patch s =
        and_then (get_race_by_id tenant_id event_id id s) λ current.
          and_then (patch_race u patch (race_has_participants tenant_id current.id s) current)
            λ changed. and_then (update_race_row fl changed s) λ s'. ok (changed, s')

    -- UpdateRace
    unfoldable pub update_race :
        Unicode
        → String
        → String
        → String
        → String
        → RacePatch F
        → Store F
        → Result (Race F) × Store F
    unfolding update_race_tx
    update_race u tenant_id event_id role id patch s =
        if not (is_at_least role role_admin)
        then (err forbidden, s)
        else with_tenant_tx tenant_id (update_race_tx u tenant_id event_id id patch) s

    unfoldable pub delete_race_tx : String → String → String → Tx (Store F) (Unit {0})
    delete_race_tx tenant_id event_id id s =
        and_then (delete_race_row tenant_id event_id id s) λ s'. ok (tt, s')

    -- DeleteRace
    unfoldable pub delete_race :
        String → String → String → String → Store F → Result (Unit {0}) × Store F
    unfolding delete_race_tx
    delete_race tenant_id event_id role id s =
        if not (is_at_least role role_admin)
        then (err forbidden, s)
        else with_tenant_tx tenant_id (delete_race_tx tenant_id event_id id) s
