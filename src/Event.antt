-- ===== src/Event.antt =====
-- internal/event: events, the races under them, and how races are run (event.go, repository.go).
--
-- Each table is a list of rows with the constraints that its migrations give it, and a row holds what
-- its columns keep of the values. Of the participants, the teams and the generator templates only the
-- race that they belong to matters; a member of a team is in the race of the team. The triggers that
-- set updated_at are not modelled.
pub mod Format
pub mod Legal
pub mod Events
pub mod Races
pub mod Sound
pub mod Patches
pub mod Commits
pub mod Requests
pub mod Fixed
mod Tests
use racetify_api.Base.{
  ℕ, String, Bool, true, false, not, ◌&&◌, ◌||◌, List, [], ◌∷◌, ◌++◌, Option, none, some, ◌==◌,
  if◌then◌else◌, any, find, keep,
}
use racetify_api.Domain.{not_found, already_exists, Result, ok, err, and_then}
use racetify_api.Tenant.{update_row, get_row}
use racetify_api.Event.Format.{Floats, RaceFormat, store_length, store_format}

abbrev pub status_draft : String
status_draft = "draft"

abbrev pub status_published : String
status_published = "published"

abbrev pub status_archived : String
status_archived = "archived"

pub record Event : Type 0 where
  pub id : String
  pub tenant_id : String
  pub name : String
  pub slug : String
  pub venue : Option String
  pub start_date : Option ℕ
  pub end_date : Option ℕ
  pub logo_storage_id : Option String
  pub thumbnail_storage_id : Option String
  pub primary_color : Option String
  pub status : String
  pub created_by : String
  pub created_at : ℕ
  pub updated_at : ℕ

pub record Race (F : Type 0) : Type 0 where
  pub id : String
  pub tenant_id : String
  pub event_id : String
  pub name : String
  pub slug : String
  pub distance_km : Option F
  pub format : RaceFormat F
  pub created_at : ℕ
  pub updated_at : ℕ

-- A participant or a team.
pub record Entrant : Type 0 where
  pub tenant_id : String
  pub race_id : String

-- A generator template: for one race, or for all of its event.
pub record RaceTemplate : Type 0 where
  pub tenant_id : String
  pub race_id : Option String

abbrev pub is_of_race : String → Entrant → Bool
is_of_race id p = p.race_id == id

abbrev pub is_for_race : String → RaceTemplate → Bool
is_for_race id t = elim t.race_id [ none ↦ false | some race_id ↦ race_id == id ]

pub record Store (F : Type 0) : Type 0 where
  pub events : List Event
  pub races : List (Race F)
  pub participants : List Entrant
  pub teams : List Entrant
  pub templates : List RaceTemplate
  pub audit : List String

abbrev pub is_event : String → String → Event → Bool
is_event tenant_id id e = e.tenant_id == tenant_id && e.id == id

-- What UPDATE writes of an event.
abbrev pub with_fields : Event → Event → Event
with_fields e x = record x {
  name = e.name;
  slug = e.slug;
  venue = e.venue;
  start_date = e.start_date;
  end_date = e.end_date;
  logo_storage_id = e.logo_storage_id;
  thumbnail_storage_id = e.thumbnail_storage_id;
  primary_color = e.primary_color;
}

module _ {F : Type 0} where
  -- The slug of an event is unique, in all tenants.
  unfoldable pub create_event_row : Event → Store F → Result (Store F)
  create_event_row e s =
      if any (λ x. x.id == e.id || x.slug == e.slug) s.events
      then err already_exists
      else ok (record s { events = s.events ++ (e ∷ []) })

  abbrev pub get_event_by_id : String → String → Store F → Result Event
  get_event_by_id tenant_id id s = get_row (is_event tenant_id id) s.events

  abbrev pub get_published_event_by_slug : String → Store F → Result Event
  get_published_event_by_slug slug s =
      get_row (λ e. e.slug == slug && e.status == status_published) s.events

  unfoldable pub update_event_row : Event → Store F → Result (Store F)
  update_event_row e s =
      and_then (update_row (is_event e.tenant_id e.id) (λ _. true) (with_fields e) s.events) λ rows.
        if any (λ x. x.slug == e.slug && not (x.id == e.id)) s.events
        then err already_exists
        else ok (record s { events = rows })

  unfoldable pub update_event_status : String → String → String → Store F → Result (Store F)
  update_event_status tenant_id id status s =
      and_then
        (update_row (is_event tenant_id id) (λ _. true) (λ e. record e { status = status })
          s.events)
        λ rows. ok (record s { events = rows })

  -- A race in its columns.
  unfoldable pub store_race : Floats F → Race F → Result (Race F)
  store_race fl r = and_then (store_length fl r.distance_km) λ km.
      and_then (store_format fl r.format)
        λ format. ok (record r { distance_km = km; format = format })

  -- (event_id, slug) is unique.
  unfoldable pub create_race_row : Floats F → Race F → Store F → Result (Store F)
  unfolding store_race
  create_race_row fl r s = and_then (store_race fl r) λ row.
      if any (λ x. x.id == r.id || (x.event_id == r.event_id && x.slug == r.slug)) s.races
      then err already_exists
      else ok (record s { races = s.races ++ (row ∷ []) })

  abbrev pub is_race : String → String → String → Race F → Bool
  is_race tenant_id event_id id r = r.tenant_id == tenant_id && r.event_id == event_id && r.id == id

  abbrev pub get_race_by_id : String → String → String → Store F → Result (Race F)
  get_race_by_id tenant_id event_id id s = get_row (is_race tenant_id event_id id) s.races

  -- What UPDATE writes of a race.
  abbrev pub with_race_fields : Race F → Race F → Race F
  with_race_fields r x = record x {
    name = r.name;
    slug = r.slug;
    distance_km = r.distance_km;
    format = r.format;
  }

  unfoldable pub update_race_row : Floats F → Race F → Store F → Result (Store F)
  unfolding store_race
  update_race_row fl r s = and_then (store_race fl r) λ row.
      and_then
        (update_row (is_race r.tenant_id r.event_id r.id) (λ _. true) (with_race_fields row)
          s.races)
        λ rows.
          if any (λ x. x.event_id == r.event_id && x.slug == r.slug && not (x.id == r.id)) s.races
          then err already_exists
          else ok (record s { races = rows })

  abbrev pub race_has_participants : String → String → Store F → Bool
  race_has_participants tenant_id race_id s =
      any (λ p. p.tenant_id == tenant_id && p.race_id == race_id) s.participants

  -- Participants, teams and templates go with their race (ON DELETE CASCADE).
  unfoldable pub delete_race_row : String → String → String → Store F → Result (Store F)
  delete_race_row tenant_id event_id id s = and_then (get_race_by_id tenant_id event_id id s) λ _.
      ok (record s {
        races = keep (λ x. not (is_race tenant_id event_id id x)) s.races;
        participants = keep (λ p. not (is_of_race id p)) s.participants;
        teams = keep (λ p. not (is_of_race id p)) s.teams;
        templates = keep (λ t. not (is_for_race id t)) s.templates;
      })

  abbrev pub record_audit : String → Store F → Store F
  record_audit action s = record s { audit = action ∷ s.audit }
