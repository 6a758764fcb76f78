-- ===== src/Event/Sound.antt =====
-- internal/event: what holds of every stored event and race.
use racetify_api.Base.{
  String, Bool, true, false, not, ◌&&◌, ◌||◌, [], ◌∷◌, ◌++◌, Option, none, some, ◌==◌,
  if◌then◌else◌, ◌≡◌, refl, sym, ap, ◌∙◌, inl, inr, Bool-cases, Option-cases, subst, any, All,
  All-append, All-keep, All-modify_first,
}
use racetify_api.Domain.{
  Error, other, already_exists, Result, ok, err, and_then-eq-ok, ok-injective,
}
use racetify_api.Tenant.{update_row}
use racetify_api.Tenant.Rows.{update_row-eq-ok}
use racetify_api.Event.{
  Event, Race, Store, is_event, is_race, with_fields, with_race_fields, store_race,
  create_event_row, update_event_row, update_event_status, create_race_row, get_race_by_id,
  update_race_row, delete_race_row,
}
use racetify_api.Event.Format.{Floats, RaceFormat, fits_integer, store_length, store_format}
use racetify_api.Event.Legal.{IsLegal}
use racetify_api.Event.Events.{is_event_status}
use racetify_api.Event.Races.{is_timed}

-- An event has a slug and one of the statuses.
abbrev pub IsGoodEvent : Event → Type 0
IsGoodEvent e = ((e.slug == "") ≡ false) × (is_event_status e.status ≡ true)

-- What passes a guard.
pub guarded {ℓ} :
    {A : Type ℓ} (b : Bool) (e : Error) (a a' : A) → (if b then err e else ok a) ≡ ok a' → a ≡ a'
guarded true e a a' h = absurd cc
guarded false e a a' h = cc

module _ {F : Type 0} (fl : Floats F) where
  -- A column keeps a length that it holds as it is.
  abbrev pub KeepsStored : Type 0
  KeepsStored = (km kept : F) → fl.stored km ≡ some kept → fl.stored kept ≡ some kept

  -- A format is what the columns keep of a legal one.
  abbrev pub IsLegalStored : RaceFormat F → Type 0
  IsLegalStored g = (f : RaceFormat F) × IsLegal fl f × (store_format fl f ≡ ok g)

  -- A stored race has a slug and what the columns keep of a legal format, and no distance if that is
  -- decided by the clock.
  abbrev pub IsGoodRace : Race F → Type 0
  IsGoodRace r =
      ((r.slug == "") ≡ false)
      × IsLegalStored r.format
      × (is_timed r.format ≡ true → r.distance_km ≡ none)

  -- The same of a race that is about to be stored.
  abbrev pub IsMadeRace : Race F → Type 0
  IsMadeRace r =
      ((r.slug == "") ≡ false)
      × ((f : RaceFormat F) × IsLegal fl f × (store_format fl f ≡ store_format fl r.format))
      × (is_timed r.format ≡ true → r.distance_km ≡ none)

  -- The columns change only the length of a lap.
  pub store_format-eq-ok :
      (f g : RaceFormat F)
      → store_format fl f ≡ ok g
      → (km : Option F) × (store_length fl f.loop_length_km ≡ ok km)
        × ((fits_integer f.team_size && fits_integer f.loop_target_laps) ≡ true)
        × (record f { loop_length_km = km } ≡ g)
  unfolding store_format
  store_format-eq-ok f g h =
      let (km, kept, out) = and_then-eq-ok (store_length fl f.loop_length_km) _ h in
      elim (Bool-cases (fits_integer f.team_size && fits_integer f.loop_target_laps)) [
        | inl t ↦
            let same : ok (record f { loop_length_km = km }) ≡ ok g = rw t at out in
            (km, kept, t, ok-injective _ _ same)
        | inr n ↦ absurd (
            let bad : ◌≡◌ {A = Result (RaceFormat F)} (err (other "pq: value out of range"))
                (ok g) =
              rw n at out in
            cc)
      ]

  store_length-again :
      KeepsStored
      → (o kept : Option F) → store_length fl o ≡ ok kept
      → store_length fl kept ≡ ok kept
  store_length-again keeps none kept h = let same : none ≡ kept = cc in rw (sym same) refl
  store_length-again keeps (some km) kept h = elim (Option-cases (fl.stored km)) [
    | inl n ↦ absurd (let bad = rw (store_length, n) at h in cc)
    | inr (x, e) ↦
        let out : ok (some x) ≡ ok kept = rw (store_length, e) at h in
        let same : some x ≡ kept = ok-injective _ _ out in
        subst (λ o. store_length fl o ≡ ok o) same (rw (store_length, keeps km x e) refl)
  ]

  -- What the columns hold they keep.
  pub store_format-again :
      KeepsStored → (f g : RaceFormat F) → store_format fl f ≡ ok g → store_format fl g ≡ ok g
  unfolding store_format
  store_format-again keeps f g h =
      let (km, kept, fits, same) = store_format-eq-ok f g h in
      subst (λ x. store_format fl x ≡ ok x) same
        (rw (store_length-again keeps f.loop_length_km km kept, fits) refl)

  -- The format of a race that is stored is its format in the columns.
  pub store_race-format :
      (r row : Race F) (g : RaceFormat F)
      → store_race fl r ≡ ok row
      → store_format fl r.format ≡ ok g
      → row.format ≡ g
  unfolding store_race
  store_race-format r row g h held =
      let (km, _, h1) = and_then-eq-ok (store_length fl r.distance_km) _ h in
      let (format, kept, h2) = and_then-eq-ok (store_format fl r.format) _ h1 in
      ap (λ x. x.format) (sym (ok-injective _ _ h2)) ∙ ok-injective _ _ (sym kept ∙ held)

  -- What is stored of a race that was made well.
  pub store_race-IsGood :
      (r row : Race F) → store_race fl r ≡ ok row → IsMadeRace r → IsGoodRace row
  unfolding store_race
  store_race-IsGood r row h (named, (f, legal, alike), unfixed) =
      let (km, length, h1) = and_then-eq-ok (store_length fl r.distance_km) _ h in
      let (format, kept, h2) = and_then-eq-ok (store_format fl r.format) _ h1 in
      let (lap, _, _, same) = store_format-eq-ok r.format format kept in
      let out : record r { distance_km = km; format = format } ≡ row = ok-injective _ _ h2 in
      let timed : is_timed format ≡ is_timed r.format = ap is_timed (sym same) in
      subst IsGoodRace out (
        named,
        (f, legal, alike ∙ kept),
        λ t.
            let none_stated : r.distance_km ≡ none = unfixed (sym timed ∙ t) in
            let stored : ok none ≡ ok km = ap (store_length fl) (sym none_stated) ∙ length in
            sym (ok-injective _ _ stored),
      )

  abbrev pub IsSound : Store F → Type 0
  IsSound s = All IsGoodEvent s.events × All IsGoodRace s.races

  pub create_event_row-IsSound :
      (e : Event) (s s' : Store F)
      → create_event_row e s ≡ ok s'
      → IsGoodEvent e
      → IsSound s
      → IsSound s'
  unfolding create_event_row
  create_event_row-IsSound e s s' h good (events, races) =
      let same =
        guarded (any (λ x. x.id == e.id || x.slug == e.slug) s.events) already_exists
          (record s { events = s.events ++ (e ∷ []) }) s' h in
      subst IsSound same (All-append IsGoodEvent s.events (e ∷ []) events (good, tt), races)

  pub update_event_row-IsSound :
      (e : Event) (s s' : Store F)
      → update_event_row e s ≡ ok s'
      → ((e.slug == "") ≡ false)
      → IsSound s
      → IsSound s'
  unfolding update_event_row
  update_event_row-IsSound e s s' h named (events, races) =
      let clash = any (λ x. x.slug == e.slug && not (x.id == e.id)) s.events in
      let (rows, upd, out) =
        and_then-eq-ok (update_row (is_event e.tenant_id e.id) (λ _. true) (with_fields e) s.events)
          (λ rows. if clash then err already_exists else ok (record s { events = rows })) h in
      let (_, _, _, changed) =
        update_row-eq-ok (is_event e.tenant_id e.id) (λ _. true) (with_fields e) s.events rows
          upd in
      let same = guarded clash already_exists (record s { events = rows }) s' out in
      subst IsSound same (
        subst (All IsGoodEvent) (sym changed) (
            All-modify_first IsGoodEvent (is_event e.tenant_id e.id) (with_fields e)
              (λ x _ (_, known). (named, known)) s.events events),
        races,
      )

  pub update_event_status-IsSound :
      (tenant_id id status : String) (s s' : Store F)
      → update_event_status tenant_id id status s ≡ ok s'
      → is_event_status status ≡ true
      → IsSound s
      → IsSound s'
  unfolding update_event_status
  update_event_status-IsSound tenant_id id status s s' h known (events, races) =
      let (rows, upd, out) =
        and_then-eq-ok
          (update_row (is_event tenant_id id) (λ _. true) (λ e. record e { status = status })
            s.events)
          (λ rows. ok (record s { events = rows })) h in
      let (_, _, _, changed) =
        update_row-eq-ok (is_event tenant_id id) (λ _. true) (λ e. record e { status = status })
          s.events rows upd in
      let same : record s { events = rows } ≡ s' = cc in
      subst IsSound same (
        subst (All IsGoodEvent) (sym changed) (
            All-modify_first IsGoodEvent (is_event tenant_id id) (λ e. record e { status = status })
              (λ e _ (named, _). (named, known)) s.events events),
        races,
      )

  pub create_race_row-IsSound :
      (r : Race F) (s s' : Store F)
      → create_race_row fl r s ≡ ok s'
      → IsMadeRace r
      → IsSound s
      → IsSound s'
  unfolding create_race_row
  create_race_row-IsSound r s s' h good (events, races) =
      let (row, kept, h1) = and_then-eq-ok (store_race fl r) _ h in
      let same =
        guarded (any (λ x. x.id == r.id || (x.event_id == r.event_id && x.slug == r.slug)) s.races)
          already_exists (record s { races = s.races ++ (row ∷ []) }) s' h1 in
      subst IsSound same (
        events,
        All-append IsGoodRace s.races (row ∷ []) races (store_race-IsGood r row kept good, tt),
      )

  pub update_race_row-IsSound :
      (r : Race F) (s s' : Store F)
      → update_race_row fl r s ≡ ok s'
      → IsMadeRace r
      → IsSound s
      → IsSound s'
  unfolding update_race_row
  update_race_row-IsSound r s s' h good (events, races) =
      let key = is_race r.tenant_id r.event_id r.id in
      let clash =
        any (λ x. x.event_id == r.event_id && x.slug == r.slug && not (x.id == r.id)) s.races in
      let (row, kept, h1) = and_then-eq-ok (store_race fl r) _ h in
      let (rows, upd, out) =
        and_then-eq-ok (update_row key (λ _. true) (with_race_fields row) s.races)
          (λ rows. if clash then err already_exists else ok (record s { races = rows })) h1 in
      let (_, _, _, changed) =
        update_row-eq-ok key (λ _. true) (with_race_fields row) s.races rows upd in
      let same = guarded clash already_exists (record s { races = rows }) s' out in
      subst IsSound same (
        events,
        subst (All IsGoodRace) (sym changed) (
            All-modify_first IsGoodRace key (with_race_fields row)
              (λ x _ _. store_race-IsGood r row kept good) s.races races),
      )

  pub delete_race_row-IsSound :
      (tenant_id event_id id : String) (s s' : Store F)
      → delete_race_row tenant_id event_id id s ≡ ok s'
      → IsSound s
      → IsSound s'
  unfolding delete_race_row
  delete_race_row-IsSound tenant_id event_id id s s' h (events, races) =
      let (_, _, out) = and_then-eq-ok (get_race_by_id tenant_id event_id id s) _ h in
      subst IsSound (ok-injective _ _ out)
        (events, All-keep IsGoodRace (λ x. not (is_race tenant_id event_id id x)) s.races races)
