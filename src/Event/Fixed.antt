-- ===== src/Event/Fixed.antt =====
-- internal/event/service.go: a race that has participants keeps its format, and takes them along when
-- it is deleted.
use racetify_api.Base.{
  String, Bool, true, false, not, ◌&&◌, some, ◌==◌, if◌then◌else◌, ◌≡◌, refl, sym, ap, ◌∙◌, subst,
  inl, inr, arith, eq_iff, any, find, find_sound, modify_first,
}
use racetify_api.Text.{Unicode}
use racetify_api.Domain.{
  Error, forbidden, already_exists, Result, ok, err, and_then-eq-ok, ok-injective,
}
use racetify_api.Tenant.{role_admin, is_at_least, update_row}
use racetify_api.Tenant.Rows.{
  with_tenant_tx-eq-ok, get_row-eq-ok, update_row-eq-ok, find-modify_first_found,
}
use racetify_api.Event.{
  Race, Store, is_race, with_race_fields, store_race, get_race_by_id, update_race_row,
  race_has_participants,
}
use racetify_api.Event.Format.{Floats, normalize_format, validate_format, store_format}
use racetify_api.Event.Events.{patch_name, patch_slug, or_kept}
use racetify_api.Event.Races.{
  RacePatch, apply_format, clear_unfixed_distance, change_format, patch_race, update_race,
  update_race_tx,
}
use racetify_api.Event.Sound.{guarded, store_race-format}
use racetify_api.Event.Patches.{change_format-ok}

module _ {F : Type 0} (fl : Floats F) where
  -- What a guard lets through.
  guard-passed :
      {A : Type 0} (b : Bool) (e : Error) (s s' : Store F) (r : Result A × Store F) (a : A)
      → (if b then (err e, s) else r) ≡ (ok a, s')
      → (b ≡ false) × (r ≡ (ok a, s'))
  guard-passed true e s s' r a h = absurd (let d : err e ≡ ok a = ap (λ x. x.0) h in cc)
  guard-passed false e s s' r a h = (refl, h)

  patch_race-format :
      (u : Unicode) (patch : RacePatch F) (r r' : Race F)
      → patch_race fl u patch true r ≡ ok r'
      → (r'.format ≡ r.format)
        × (r'.tenant_id ≡ r.tenant_id)
        × (r'.event_id ≡ r.event_id)
        × (r'.id ≡ r.id)
  unfolding patch_race
  patch_race-format u patch r r' h =
      let format = normalize_format (apply_format patch r.format) in
      let (name, _, h1) = and_then-eq-ok (patch_name patch.name r.name) _ h in
      let (slug, _, h2) = and_then-eq-ok (patch_slug u patch.slug r.slug) _ h1 in
      let (_, _, h3) = and_then-eq-ok (validate_format fl format) _ h2 in
      let patched : Race F = record r {
        name = name;
        slug = slug;
        distance_km = or_kept patch.distance_km r.distance_km;
      } in
      let (changed, c, h4) = and_then-eq-ok (change_format fl true patched format) _ h3 in
      let same = ok-injective (clear_unfixed_distance changed) r' h4 in
      elim (change_format-ok fl true patched changed format c) [
        | inl e ↦ (
          ap (λ x. x.format) (sym same) ∙ ap (λ x. x.format) e,
          ap (λ x. x.tenant_id) (sym same) ∙ ap (λ x. x.tenant_id) e,
          ap (λ x. x.event_id) (sym same) ∙ ap (λ x. x.event_id) e,
          ap (λ x. x.id) (sym same) ∙ ap (λ x. x.id) e,
        )
        | inr (no_one, _) ↦ absurd cc
      ]

  -- What an update writes over the row that it found.
  update_race_row-written :
      (r changed : Race F) (tenant_id event_id id : String) (s s' : Store F)
      → ◌≡◌ {A = Race F → Bool}
          (is_race changed.tenant_id changed.event_id changed.id)
          (is_race tenant_id event_id id)
      → find (is_race tenant_id event_id id) s.races ≡ some r
      → is_race tenant_id event_id id r ≡ true
      → store_format fl changed.format ≡ ok r.format
      → update_race_row fl changed s ≡ ok s'
      → (row : Race F) × (find (is_race tenant_id event_id id) s'.races ≡ some row)
        × (row.format ≡ r.format)
  unfolding update_race_row
  update_race_row-written r changed tenant_id event_id id s s' same found is_it kept h =
      let (row, made, h1) = and_then-eq-ok (store_race fl changed) _ h in
      let key : Race F → Bool = is_race tenant_id event_id id in
      let own : Race F → Bool = is_race changed.tenant_id changed.event_id changed.id in
      let clash =
        any
          (λ x.
            x.event_id == changed.event_id && x.slug == changed.slug && not (x.id == changed.id))
          s.races in
      let (rows, upd, out) =
        and_then-eq-ok (update_row own (λ _. true) (with_race_fields row) s.races)
          (λ rows. if clash then err already_exists else ok (record s { races = rows })) h1 in
      let (_, _, _, written) =
        update_row-eq-ok own (λ _. true) (with_race_fields row) s.races rows upd in
      let final = guarded clash already_exists (record s { races = rows }) s' out in
      (
        with_race_fields row r,
        ap (λ t. find key t.races) (sym final)
            ∙ ap (find key) (written ∙ ap (λ k. modify_first k (with_race_fields row) s.races) same)
            ∙ find-modify_first_found key (with_race_fields row) s.races r found is_it,
        store_race-format fl changed row r.format made kept,
      )

  -- An update of a race that succeeds was asked for by an admin at least, and if the race has
  -- participants, and its row holds its format as the columns keep it, it leaves the format of the race
  -- as it is: in the answer and in the row.
  pub update_race-IsFixed :
      (u : Unicode) (tenant_id event_id role id : String) (patch : RacePatch F) (s s' : Store F)
      (r r' : Race F)
      → update_race fl u tenant_id event_id role id patch s ≡ (ok r', s')
      → find (is_race tenant_id event_id id) s.races ≡ some r
      → race_has_participants tenant_id r.id s ≡ true
      → store_format fl r.format ≡ ok r.format
      → (is_at_least role role_admin ≡ true)
        × (r'.format ≡ r.format)
        × ((row : Race F) × (find (is_race tenant_id event_id id) s'.races ≡ some row)
            × (row.format ≡ r.format))
  unfolding update_race update_race_tx
  update_race-IsFixed u tenant_id event_id role id patch s s' r r' h found taken held =
      let key : Race F → Bool = is_race tenant_id event_id id in
      let (passed, tx) = guard-passed (not (is_at_least role role_admin)) forbidden s s' _ r' h in
      let out =
        with_tenant_tx-eq-ok tenant_id (update_race_tx fl u tenant_id event_id id patch) s s' r'
          tx in
      let (current, g, h1) = and_then-eq-ok (get_race_by_id tenant_id event_id id s) _ out in
      let (changed, p, h2) =
        and_then-eq-ok
          (patch_race fl u patch (race_has_participants tenant_id current.id s) current) _ h1 in
      let (s1, w, o) = and_then-eq-ok (update_race_row fl changed s) _ h2 in
      let it : current ≡ r =
        let hit : some current ≡ some r =
          sym (get_row-eq-ok (is_race tenant_id event_id id) s.races current g) ∙ found in
        cc in
      let full : race_has_participants tenant_id current.id s ≡ true =
        ap (λ x. race_has_participants tenant_id x.id s) it ∙ taken in
      let (format, tenants, events, ids) =
        patch_race-format u patch current changed
          (subst (λ b. patch_race fl u patch b current ≡ ok changed) full p) in
      let same : changed.format ≡ r.format = format ∙ ap (λ x. x.format) it in
      let is_it : key r ≡ true = find_sound key s.races r found in
      let of_tenant : r.tenant_id ≡ tenant_id = (eq_iff r.tenant_id tenant_id).0 (ground arith) in
      let of_event : r.event_id ≡ event_id = (eq_iff r.event_id event_id).0 (ground arith) in
      let of_id : r.id ≡ id = (eq_iff r.id id).0 (ground arith) in
      let keys : is_race changed.tenant_id changed.event_id changed.id ≡ key =
        rw
          (
            tenants ∙ ap (λ x. x.tenant_id) it ∙ of_tenant,
            events ∙ ap (λ x. x.event_id) it ∙ of_event,
            ids ∙ ap (λ x. x.id) it ∙ of_id,
          )
          refl in
      let stays =
        update_race_row-written r changed tenant_id event_id id s s1 keys found is_it
          (ap (store_format fl) same ∙ held) w in
      (
        ground arith,
        ap (λ x. x.0.format) (sym (ok-injective _ _ o)) ∙ same,
        subst (λ t. (row : Race F) × (find key t.races ≡ some row) × (row.format ≡ r.format))
            (ap (λ x. x.1) (ok-injective _ _ o)) stays,
      )
