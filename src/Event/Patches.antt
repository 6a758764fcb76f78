-- ===== src/Event/Patches.antt =====
-- internal/event/service.go: what a patch makes of an event and of a race.
use racetify_api.Base.{
  String, Bool, false, Option, none, some, ◌==◌, ◌≡◌, refl, sym, ap, ◌∙◌, subst, inl, inr, ◌⊎◌,
  Bool-cases,
}
use racetify_api.Text.{Unicode}
use racetify_api.Domain.{invalid_state, Result, ok, err, and_then-eq-ok, ok-injective, Result-cases}
use racetify_api.Tenant.Workspaces.{slugify}
use racetify_api.Event.{Event, Race}
use racetify_api.Event.Format.{
  Floats, RaceFormat, normalize_format, validate_format, equal_formats, store_format,
}
use racetify_api.Event.Legal.{IsLegal, normalize_format-IsLegal}
use racetify_api.Event.Events.{
  EventPatch, patch_name, patch_slug, patch_color, apply_event_patch, or_kept,
}
use racetify_api.Event.Races.{
  RacePatch, apply_format, clear_unfixed_distance, change_format, patch_race,
}
use racetify_api.Event.Sound.{KeepsStored, IsGoodRace, IsMadeRace, store_format-again}

patch_slug-ok :
    (u : Unicode) (o : Option String) (kept slug : String)
    → patch_slug u o kept ≡ ok slug
    → (kept == "") ≡ false
    → (slug == "") ≡ false
unfolding patch_slug
patch_slug-ok u none kept slug h named =
    let same : kept ≡ slug = cc in ap (λ x. x == "") (sym same) ∙ named
patch_slug-ok u (some stated) kept slug h named = elim (Bool-cases (slugify u stated == "")) [
  | inl t ↦
      absurd (let out : ◌≡◌ {A = Result String} (err invalid_state) (ok slug) = rw t at h in cc)
  | inr f ↦
      let out : ok (slugify u stated) ≡ ok slug = rw f at h in
      let same : slugify u stated ≡ slug = cc in ap (λ x. x == "") (sym same) ∙ f
]

-- A patch of an event leaves its slug non-empty.
pub apply_event_patch-slug :
    (u : Unicode) (patch : EventPatch) (e e' : Event)
    → apply_event_patch u patch e ≡ ok e'
    → (e.slug == "") ≡ false
    → (e'.slug == "") ≡ false
unfolding apply_event_patch
apply_event_patch-slug u patch e e' h named = elim (Result-cases (patch_name patch.name e.name)) [
  | inr (x, n) ↦ absurd (let out = rw n at h in cc)
  | inl (name, n) ↦ elim (Result-cases (patch_slug u patch.slug e.slug)) [
    | inr (x, k) ↦ absurd (let out = rw (n, k) at h in cc)
    | inl (slug, k) ↦ elim (Result-cases (patch_color patch.primary_color e.primary_color)) [
      | inr (x, c) ↦ absurd (let out = rw (n, k, c) at h in cc)
      | inl (color, c) ↦
          let out = rw (n, k, c) at h in
          let slug_in : Result Event → String = λ r. elim r [ ok x ↦ x.slug | err _ ↦ slug ] in
          let same : slug ≡ e'.slug = ap slug_in out in
          ap (λ x. x == "") (sym same) ∙ patch_slug-ok u patch.slug e.slug slug k named
    ]
  ]
]

module _ {F : Type 0} (fl : Floats F) where
  pub clear-IsMade :
      (r : Race F)
      → (r.slug == "") ≡ false
      → ((f : RaceFormat F) × IsLegal fl f × (store_format fl f ≡ store_format fl r.format))
      → IsMadeRace fl (clear_unfixed_distance r)
  clear-IsMade r named legal = (named, legal, λ t. rw t refl)

  -- What becomes of the format of a race.
  pub change_format-ok :
      (has_participants : Bool) (r r' : Race F) (format : RaceFormat F)
      → change_format fl has_participants r format ≡ ok r'
      → (r' ≡ r) ⊎ ((has_participants ≡ false) × (r' ≡ record r { format = format }))
  change_format-ok hp r r' format h = elim (Bool-cases (equal_formats fl format r.format)) [
    | inl t ↦ let out : ok r ≡ ok r' = rw t at h in inl (sym cc)
    | inr f ↦ elim (Bool-cases hp) [
      | inl t ↦
          absurd
            (let out : ◌≡◌ {A = Result (Race F)} (err invalid_state) (ok r') = rw (f, t) at h in cc)
      | inr n ↦
          let out : ok (record r { format = format }) ≡ ok r' = rw (f, n) at h in inr (n, sym cc)
    ]
  ]

  pub patch_race-IsGood :
      KeepsStored fl
      → (u : Unicode) (patch : RacePatch F) (hp : Bool) (r r' : Race F)
      → patch_race fl u patch hp r ≡ ok r'
      → IsGoodRace fl r
      → IsMadeRace fl r'
  unfolding patch_race
  patch_race-IsGood keeps u patch hp r r' h (named, (f, legal, kept), _) =
      let format = normalize_format (apply_format patch r.format) in
      let (name, _, h1) = and_then-eq-ok (patch_name patch.name r.name) _ h in
      let (slug, k, h2) = and_then-eq-ok (patch_slug u patch.slug r.slug) _ h1 in
      let (_, v, h3) = and_then-eq-ok (validate_format fl format) _ h2 in
      let patched : Race F = record r {
        name = name;
        slug = slug;
        distance_km = or_kept patch.distance_km r.distance_km;
      } in
      let (changed, c, h4) = and_then-eq-ok (change_format fl hp patched format) _ h3 in
      let same : clear_unfixed_distance changed ≡ r' =
        ok-injective (clear_unfixed_distance changed) r' h4 in
      let still = patch_slug-ok u patch.slug r.slug slug k named in
      subst (IsMadeRace fl) same (elim (change_format-ok hp patched changed format c) [
        | inl e ↦ clear-IsMade changed (ap (λ x. x.slug == "") e ∙ still) (
          f,
          legal,
          kept
              ∙ sym (store_format-again fl keeps f r.format kept)
              ∙ ap (λ x. store_format fl x.format) (sym e),
        )
        | inr (_, e) ↦ clear-IsMade changed (ap (λ x. x.slug == "") e ∙ still) (
          format,
          (normalize_format-IsLegal fl (apply_format patch r.format)).0 v,
          ap (λ x. store_format fl x.format) (sym e),
        )
      ])
