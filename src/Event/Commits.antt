-- ===== src/Event/Commits.antt =====
-- internal/event/service.go: what the transactions on events and races commit.
use racetify_api.Base.{String, true, ◌≡◌, ap, subst, find-All}
use racetify_api.Text.{Unicode}
use racetify_api.Domain.{ok, and_then-eq-ok, ok-injective}
use racetify_api.Tenant.Rows.{get_row-eq-ok}
use racetify_api.Event.{
  Event, Race, Store, is_event, is_race, create_event_row, get_event_by_id, update_event_row,
  update_event_status, create_race_row, get_race_by_id, update_race_row, race_has_participants,
  delete_race_row, record_audit,
}
use racetify_api.Event.Format.{Floats}
use racetify_api.Event.Events.{
  is_event_status, EventPatch, apply_event_patch, create_event_tx, update_event_tx,
  set_event_status_tx,
}
use racetify_api.Event.Races.{RacePatch, create_race_tx, patch_race, update_race_tx, delete_race_tx}
use racetify_api.Event.Sound.{
  IsGoodEvent, KeepsStored, IsGoodRace, IsMadeRace, IsSound, create_event_row-IsSound,
  update_event_row-IsSound, update_event_status-IsSound, create_race_row-IsSound,
  update_race_row-IsSound, delete_race_row-IsSound,
}
use racetify_api.Event.Patches.{apply_event_patch-slug, patch_race-IsGood}

module _ {F : Type 0} (fl : Floats F) where
  pub create_event_tx-IsSound :
      (e : Event) (s s' : Store F) (a : Event)
      → IsGoodEvent e
      → IsSound fl s
      → create_event_tx e s ≡ ok (a, s')
      → IsSound fl s'
  unfolding create_event_tx
  create_event_tx-IsSound e s s' a good sound h =
      let (s1, c, out) = and_then-eq-ok (create_event_row e s) _ h in
      let sound1 = create_event_row-IsSound fl e s s1 c good sound in
      let same : record_audit "event.created" s1 ≡ s' = ap (λ r. r.1) (ok-injective _ _ out) in
      subst (IsSound fl) same sound1

  pub update_event_tx-IsSound :
      (u : Unicode) (tenant_id id : String) (patch : EventPatch) (s s' : Store F) (a : Event)
      → IsSound fl s
      → update_event_tx u tenant_id id patch s ≡ ok (a, s')
      → IsSound fl s'
  unfolding update_event_tx
  update_event_tx-IsSound u tenant_id id patch s s' a (events, races) h =
      let (current, g, h1) = and_then-eq-ok (get_event_by_id tenant_id id s) _ h in
      let (changed, p, h2) = and_then-eq-ok (apply_event_patch u patch current) _ h1 in
      let (s1, w, out) = and_then-eq-ok (update_event_row changed s) _ h2 in
      let (named, _) =
        find-All (is_event tenant_id id) IsGoodEvent s.events current events
          (get_row-eq-ok (is_event tenant_id id) s.events current g) in
      let sound1 =
        update_event_row-IsSound fl changed s s1 w
          (apply_event_patch-slug u patch current changed p named) (events, races) in
      subst (IsSound fl) (ap (λ r. r.1) (ok-injective _ _ out)) sound1

  pub set_event_status_tx-IsSound :
      (tenant_id id status : String) (s s' : Store F) (a : Event)
      → is_event_status status ≡ true
      → IsSound fl s
      → set_event_status_tx tenant_id id status s ≡ ok (a, s')
      → IsSound fl s'
  unfolding set_event_status_tx
  set_event_status_tx-IsSound tenant_id id status s s' a known sound h =
      let (s1, w, h1) = and_then-eq-ok (update_event_status tenant_id id status s) _ h in
      let (ev, _, out) = and_then-eq-ok (get_event_by_id tenant_id id s1) _ h1 in
      let sound1 = update_event_status-IsSound fl tenant_id id status s s1 w known sound in
      let same : record_audit "event.status_changed" s1 ≡ s' =
        ap (λ r. r.1) (ok-injective _ _ out) in
      subst (IsSound fl) same sound1

  pub create_race_tx-IsSound :
      (r : Race F) (s s' : Store F) (a : Race F)
      → IsMadeRace fl r
      → IsSound fl s
      → create_race_tx fl r s ≡ ok (a, s')
      → IsSound fl s'
  unfolding create_race_tx
  create_race_tx-IsSound r s s' a good sound h =
      let (ev, _, h1) = and_then-eq-ok (get_event_by_id r.tenant_id r.event_id s) _ h in
      let (s1, w, out) = and_then-eq-ok (create_race_row fl r s) _ h1 in
      let sound1 = create_race_row-IsSound fl r s s1 w good sound in
      let same : record_audit "race.created" s1 ≡ s' = ap (λ r. r.1) (ok-injective _ _ out) in
      subst (IsSound fl) same sound1

  pub update_race_tx-IsSound :
      KeepsStored fl
      → (u : Unicode) (tenant_id event_id id : String) (patch : RacePatch F) (s s' : Store F)
        (a : Race F)
      → IsSound fl s
      → update_race_tx fl u tenant_id event_id id patch s ≡ ok (a, s')
      → IsSound fl s'
  unfolding update_race_tx
  update_race_tx-IsSound keeps u tenant_id event_id id patch s s' a (events, races) h =
      let (current, g, h1) = and_then-eq-ok (get_race_by_id tenant_id event_id id s) _ h in
      let (changed, p, h2) =
        and_then-eq-ok
          (patch_race fl u patch (race_has_participants tenant_id current.id s) current) _ h1 in
      let (s1, w, out) = and_then-eq-ok (update_race_row fl changed s) _ h2 in
      let good =
        find-All (is_race tenant_id event_id id) (IsGoodRace fl) s.races current races
          (get_row-eq-ok (is_race tenant_id event_id id) s.races current g) in
      let sound1 =
        update_race_row-IsSound fl changed s s1 w
          (patch_race-IsGood fl keeps u patch (race_has_participants tenant_id current.id s) current
            changed p good)
          (events, races) in
      subst (IsSound fl) (ap (λ r. r.1) (ok-injective _ _ out)) sound1

  pub delete_race_tx-IsSound :
      (tenant_id event_id id : String) (s s' : Store F) (a : Unit {0})
      → IsSound fl s
      → delete_race_tx fl tenant_id event_id id s ≡ ok (a, s')
      → IsSound fl s'
  unfolding delete_race_tx
  delete_race_tx-IsSound tenant_id event_id id s s' a sound h =
      let (s1, w, out) = and_then-eq-ok (delete_race_row tenant_id event_id id s) _ h in
      subst (IsSound fl) (ap (λ r. r.1) (ok-injective _ _ out))
        (delete_race_row-IsSound fl tenant_id event_id id s s1 w sound)
