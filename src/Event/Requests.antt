-- ===== src/Event/Requests.antt =====
-- internal/event/service.go: the requests that change events and races, in any order.
use racetify_api.Base.{
  ℕ, String, Bool, true, false, not, List, [], ◌∷◌, Option, ◌==◌, if◌then◌else◌, ◌≡◌, refl, arith,
}
use racetify_api.Text.{Unicode, trim_space}
use racetify_api.Domain.{Error, forbidden, invalid_state, Result, ok, err}
use racetify_api.Tenant.{role_admin, is_at_least}
use racetify_api.Tenant.Rows.{with_tenant_tx-kept}
use racetify_api.Event.{Race, Store}
use racetify_api.Event.Format.{Floats, RaceFormat, normalize_format, validate_format}
use racetify_api.Event.Legal.{normalize_format-IsLegal}
use racetify_api.Event.Events.{
  is_event_status, slug_for, EventPatch, create_event, create_event_tx, update_event,
  update_event_tx, set_event_status, set_event_status_tx,
}
use racetify_api.Event.Races.{
  RacePatch, stated_race, create_race, create_race_tx, create_checked, update_race, update_race_tx,
  delete_race, delete_race_tx,
}
use racetify_api.Event.Sound.{KeepsStored, IsMadeRace, IsSound}
use racetify_api.Event.Patches.{clear-IsMade}
use racetify_api.Event.Commits.{
  create_event_tx-IsSound, update_event_tx-IsSound, set_event_status_tx-IsSound,
  create_race_tx-IsSound, update_race_tx-IsSound, delete_race_tx-IsSound,
}

module _ {F : Type 0} (fl : Floats F) where
  -- The requests.
  pub data Request : Type 0 where
    creating_event :
        (u : Unicode) (id : String) (now : ℕ) (tenant_id actor role name slug : String)
        (venue : Option String) (start_date end_date : Option ℕ)
        → Request
    updating_event : (u : Unicode) (tenant_id role id : String) (patch : EventPatch) → Request
    setting_status : (tenant_id role id status : String) → Request
    creating_race :
        (u : Unicode) (id : String) (now : ℕ) (tenant_id event_id role name slug : String)
        (distance_km : Option F) (format : RaceFormat F)
        → Request
    updating_race :
        (u : Unicode) (tenant_id event_id role id : String) (patch : RacePatch F) → Request
    deleting_race : (tenant_id event_id role id : String) → Request

  unfoldable pub handle : Request → Store F → Store F
  handle (creating_event u id now tenant_id actor role name slug venue start_date end_date) s =
      (create_event u id now tenant_id actor role name slug venue start_date end_date s).1
  handle (updating_event u tenant_id role id patch) s = (update_event u tenant_id role id patch s).1
  handle (setting_status tenant_id role id status) s =
      (set_event_status tenant_id role id status s).1
  handle (creating_race u id now tenant_id event_id role name slug distance_km format) s =
      (create_race fl u id now tenant_id event_id role name slug distance_km format s).1
  handle (updating_race u tenant_id event_id role id patch) s =
      (update_race fl u tenant_id event_id role id patch s).1
  handle (deleting_race tenant_id event_id role id) s =
      (delete_race fl tenant_id event_id role id s).1

  -- A request that a guard refuses changes nothing.
  guard-kept :
      {A : Type 0} (b : Bool) (e : Error) (s : Store F) (r : Result A × Store F)
      → IsSound fl s
      → (b ≡ false → IsSound fl r.1)
      → IsSound fl (if b then (err e, s) else r).1
  guard-kept true e s r before after = before
  guard-kept false e s r before after = after refl

  create_checked-IsSound :
      (v : Result (Unit {0})) (r : Race F) (s : Store F)
      → IsSound fl s
      → (v ≡ ok tt → IsMadeRace fl r)
      → IsSound fl (create_checked fl v r s).1
  create_checked-IsSound (err e) r s sound good = sound
  create_checked-IsSound (ok _) r s sound good =
      with_tenant_tx-kept (IsSound fl) r.tenant_id (create_race_tx fl r) s sound
        (λ a s' h. create_race_tx-IsSound fl r s s' a (good refl) sound h)

  handle-IsSound :
      KeepsStored fl → (q : Request) (s : Store F) → IsSound fl s → IsSound fl (handle q s)
  unfolding handle create_event update_event set_event_status create_race update_race delete_race
  handle-IsSound keeps
        (creating_event u id now tenant_id actor role name stated venue start_date end_date) s
        sound =
      guard-kept (not (is_at_least role role_admin)) forbidden s _ sound (λ _.
        guard-kept (trim_space name == "") invalid_state s _ sound (λ _.
          guard-kept (slug_for u name stated == "") invalid_state s _ sound (λ named.
            with_tenant_tx-kept (IsSound fl) tenant_id (create_event_tx _) s sound
              (λ a s' h. create_event_tx-IsSound fl _ s s' a (named, refl) sound h))))
  handle-IsSound keeps (updating_event u tenant_id role id patch) s sound =
      guard-kept (not (is_at_least role role_admin)) forbidden s _ sound (λ _.
        with_tenant_tx-kept (IsSound fl) tenant_id (update_event_tx u tenant_id id patch) s sound
          (λ a s' h. update_event_tx-IsSound fl u tenant_id id patch s s' a sound h))
  handle-IsSound keeps (setting_status tenant_id role id status) s sound =
      guard-kept (not (is_at_least role role_admin)) forbidden s _ sound (λ _.
        guard-kept (not (is_event_status status)) invalid_state s _ sound (λ known.
          with_tenant_tx-kept (IsSound fl) tenant_id (set_event_status_tx tenant_id id status) s
            sound
            (λ a s' h.
              set_event_status_tx-IsSound fl tenant_id id status s s' a (ground arith) sound h)))
  handle-IsSound keeps
        (creating_race u id now tenant_id event_id role name stated distance_km format) s sound =
      guard-kept (not (is_at_least role role_admin)) forbidden s _ sound (λ _.
        guard-kept (trim_space name == "") invalid_state s _ sound (λ _.
          guard-kept (slug_for u name stated == "") invalid_state s _ sound (λ named.
            create_checked-IsSound (validate_format fl (normalize_format format)) _ s sound (λ v.
              clear-IsMade fl
                (stated_race fl id now tenant_id event_id name (slug_for u name stated) distance_km
                  (normalize_format format))
                named (normalize_format format, (normalize_format-IsLegal fl format).0 v, refl)))))
  handle-IsSound keeps (updating_race u tenant_id event_id role id patch) s sound =
      guard-kept (not (is_at_least role role_admin)) forbidden s _ sound (λ _.
        with_tenant_tx-kept (IsSound fl) tenant_id (update_race_tx fl u tenant_id event_id id patch)
          s sound
          (λ a s' h. update_race_tx-IsSound fl keeps u tenant_id event_id id patch s s' a sound h))
  handle-IsSound keeps (deleting_race tenant_id event_id role id) s sound =
      guard-kept (not (is_at_least role role_admin)) forbidden s _ sound (λ _.
        with_tenant_tx-kept (IsSound fl) tenant_id (delete_race_tx fl tenant_id event_id id) s sound
          (λ a s' h. delete_race_tx-IsSound fl tenant_id event_id id s s' a sound h))

  unfoldable pub serve : List Request → Store F → Store F
  serve [] s = s
  serve (q ∷ qs) s = serve qs (handle q s)

  -- Whatever requests are served, by whom and in whatever order, if a length that a column holds is kept
  -- by it as it is: every stored event has a slug and one of the three statuses, and every stored race
  -- has a slug, a format that is what the columns keep of a legal one, and no distance if it is a loop
  -- against the clock.
  pub serve-IsSound :
      KeepsStored fl → (qs : List Request) (s : Store F) → IsSound fl s → IsSound fl (serve qs s)
  unfolding serve
  serve-IsSound keeps [] s sound = sound
  serve-IsSound keeps (q ∷ qs) s sound =
      serve-IsSound keeps qs (handle q s) (handle-IsSound keeps q s sound)
