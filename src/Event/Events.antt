-- ===== src/Event/Events.antt =====
-- internal/event/service.go: creating and changing events, and their status.
use Prim.Native.Char.{Char, code}
use racetify_api.Base.{
  ℕ, suc, leb, nat_eq, String, Bool, false, not, ◌&&◌, ◌||◌, Option, none, some, ◌==◌,
  if◌then◌else◌,
}
use racetify_api.Text.{Unicode, trim_space}
use racetify_api.Domain.{forbidden, invalid_state, Result, ok, err, and_then}
use racetify_api.Database.{Tx, with_tenant_tx}
use racetify_api.Tenant.{role_admin, is_at_least}
use racetify_api.Tenant.Workspaces.{slugify}
use racetify_api.Event.{
  status_draft, status_published, status_archived, Event, Store, create_event_row, get_event_by_id,
  update_event_row, update_event_status, record_audit,
}

-- [0-9a-fA-F]
abbrev pub is_hex : Char → Bool
is_hex c =
    let n = code c in (leb 48 n && leb n 57) || (leb 97 n && leb n 102) || (leb 65 n && leb n 70)

-- The hex digits of a text, if it has no other characters.
unfoldable pub hex_digits : String → Option ℕ
hex_digits String.[] = some 0
hex_digits (String.◌∷◌ c s) =
    let rest = hex_digits s in
    if is_hex c then elim rest [ none ↦ none | some n ↦ some (suc n) ] else none

abbrev is_color_length : Option ℕ → Bool
is_color_length none = false
is_color_length (some n) = nat_eq n 3 || nat_eq n 6

-- hexColorPattern
unfoldable pub is_hex_color : String → Bool
unfolding hex_digits
is_hex_color String.[] = false
is_hex_color (String.◌∷◌ c s) = nat_eq (code c) 35 && is_color_length (hex_digits s)

abbrev pub is_event_status : String → Bool
is_event_status status =
    status == status_draft || status == status_published || status == status_archived

-- The slug that is given, or that of the name.
abbrev pub slug_for : Unicode → String → String → String
slug_for u name slug = slugify u (if slug == "" then name else slug)

module _ {F : Type 0} where
  unfoldable pub create_event_tx : Event → Tx (Store F) Event
  create_event_tx ev s =
      and_then (create_event_row ev s) λ s'. ok (ev, record_audit "event.created" s')

  -- CreateEvent
  unfoldable pub create_event :
      Unicode
      → String
      → ℕ
      → String
      → String
      → String
      → String
      → String
      → Option String
      → Option ℕ
      → Option ℕ
      → Store F
      → Result Event × Store F
  unfolding create_event_tx
  create_event u id now tenant_id actor role name stated venue start_date end_date s =
      let slug = slug_for u name stated in
      if not (is_at_least role role_admin)
      then (err forbidden, s)
      else if trim_space name == ""
      then (err invalid_state, s)
      else if slug == ""
      then (err invalid_state, s)
      else let ev : Event = record {
        id = id;
        tenant_id = tenant_id;
        name = name;
        slug = slug;
        venue = venue;
        start_date = start_date;
        end_date = end_date;
        logo_storage_id = none;
        thumbnail_storage_id = none;
        primary_color = none;
        status = status_draft;
        created_by = actor;
        created_at = now;
        updated_at = now;
      } in
        with_tenant_tx tenant_id (create_event_tx ev) s

pub record EventPatch : Type 0 where
  pub name : Option String
  pub slug : Option String
  pub venue : Option String
  pub start_date : Option ℕ
  pub end_date : Option ℕ
  pub logo_storage_id : Option String
  pub thumbnail_storage_id : Option String
  pub primary_color : Option String

-- A field that a patch does not give stays.
abbrev pub or_kept {ℓ} : {A : Type ℓ} → Option A → Option A → Option A
or_kept none kept = kept
or_kept (some a) kept = some a

unfoldable pub patch_name : Option String → String → Result String
patch_name none kept = ok kept
patch_name (some name) kept = if trim_space name == "" then err invalid_state else ok name

unfoldable pub patch_slug : Unicode → Option String → String → Result String
patch_slug u none kept = ok kept
patch_slug u (some stated) kept =
    let slug = slugify u stated in if slug == "" then err invalid_state else ok slug

unfoldable pub patch_color : Option String → Option String → Result (Option String)
patch_color none kept = ok kept
patch_color (some stated) kept =
    let color = trim_space stated in
    if not (color == "") && not (is_hex_color color)
    then err invalid_state
    else ok (if color == "" then none else some color)

unfoldable pub apply_event_patch : Unicode → EventPatch → Event → Result Event
unfolding patch_name patch_slug patch_color
apply_event_patch u patch e = and_then (patch_name patch.name e.name) λ name.
    and_then (patch_slug u patch.slug e.slug) λ slug.
      and_then (patch_color patch.primary_color e.primary_color) λ color. ok (record e {
        name = name;
        slug = slug;
        venue = or_kept patch.venue e.venue;
        start_date = or_kept patch.start_date e.start_date;
        end_date = or_kept patch.end_date e.end_date;
        logo_storage_id = or_kept patch.logo_storage_id e.logo_storage_id;
        thumbnail_storage_id = or_kept patch.thumbnail_storage_id e.thumbnail_storage_id;
        primary_color = color;
      })

module _ {F : Type 0} where
  unfoldable pub update_event_tx : Unicode → String → String → EventPatch → Tx (Store F) Event
  unfolding apply_event_patch
  update_event_tx u tenant_id id patch s = and_then (get_event_by_id tenant_id id s) λ current.
      and_then (apply_event_patch u patch current)
        λ changed. and_then (update_event_row changed s) λ s'. ok (changed, s')

  -- UpdateEvent
  unfoldable pub update_event :
      Unicode → String → String → String → EventPatch → Store F → Result Event × Store F
  unfolding update_event_tx
  update_event u tenant_id role id patch s =
      if not (is_at_least role role_admin)
      then (err forbidden, s)
      else with_tenant_tx tenant_id (update_event_tx u tenant_id id patch) s

  unfoldable pub set_event_status_tx : String → String → String → Tx (Store F) Event
  set_event_status_tx tenant_id id status s =
      and_then (update_event_status tenant_id id status s) λ s'.
        and_then (get_event_by_id tenant_id id s')
          λ ev. ok (ev, record_audit "event.status_changed" s')

  -- SetEventStatus
  unfoldable pub set_event_status :
      String → String → String → String → Store F → Result Event × Store F
  unfolding set_event_status_tx
  set_event_status tenant_id role id status s =
      if not (is_at_least role role_admin)
      then (err forbidden, s)
      else if not (is_event_status status)
      then (err invalid_state, s)
      else with_tenant_tx tenant_id (set_event_status_tx tenant_id id status) s
