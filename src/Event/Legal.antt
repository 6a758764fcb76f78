-- ===== src/Event/Legal.antt =====
-- internal/event/event.go: which formats of a race the normal form and the rules leave.
use racetify_api.Base.{
  ℤ, pos, leb_ℤ, String, true, false, Option, none, some, ◌==◌, ◌≡◌, ◌≢◌, ◌↔◌, refl, sym, ap, ◌∙◌,
  inl, inr, ◌⊎◌, Bool-cases, arith, eq_iff,
}
use racetify_api.Domain.{invalid_state, ok, err, and_then, and_then-eq-ok}
use racetify_api.Event.Format.{
  RaceFormat, Floats, entry_individual, entry_team, course_standard, course_relay, course_loop,
  mode_target_laps, mode_time_limit, normalize_format, validate_format, with_defaults, only_team,
  only_loop, only_mode, check_axes, check_team, check_mode, check_loop, is_at_least_opt,
  is_positive_opt, refuse_unless,
}

-- A number that is given and is at least so much.
abbrev pub IsAtLeast : ℤ → Option ℤ → Type 0
IsAtLeast least o = (n : ℤ) × (o ≡ some n) × (leb_ℤ least n ≡ true)

module _ {F : Type 0} where
  -- A team has its size, at least 2, and a person has none; a relay is for teams, and a standard
  -- course for persons.
  abbrev pub IsEntered : RaceFormat F → Type 0
  IsEntered f =
      ((f.entry_type ≡ entry_individual)
        × (f.team_size ≡ none)
        × ((f.course_type ≡ course_standard) ⊎ (f.course_type ≡ course_loop)))
      ⊎ ((f.entry_type ≡ entry_team)
          × IsAtLeast (pos 2) f.team_size
          × ((f.course_type ≡ course_relay) ⊎ (f.course_type ≡ course_loop)))

  abbrev pub HasNoLoop : RaceFormat F → Type 0
  HasNoLoop f =
      (f.loop_mode ≡ none)
      × (f.loop_length_km ≡ none)
      × (f.loop_target_laps ≡ none)
      × (f.loop_time_limit_ms ≡ none)

  module _ (fl : Floats F) where
    -- A lap has a length, and the loop is won by laps or by time, of which it has just that one.
    abbrev pub HasLoop : RaceFormat F → Type 0
    HasLoop f =
        (is_positive_opt fl f.loop_length_km ≡ true)
        × (((f.loop_mode ≡ some mode_target_laps)
              × IsAtLeast (pos 1) f.loop_target_laps
              × (f.loop_time_limit_ms ≡ none))
            ⊎ ((f.loop_mode ≡ some mode_time_limit)
                × IsAtLeast (pos 1) f.loop_time_limit_ms
                × (f.loop_target_laps ≡ none)))

    abbrev pub IsLegal : RaceFormat F → Type 0
    IsLegal f =
        IsEntered f
        × (((f.course_type ≡ course_loop) × HasLoop f)
            ⊎ ((f.course_type ≢ course_loop) × HasNoLoop f))

    -- What the normal form leaves of the settings that do not apply.
    abbrev IsNormal : RaceFormat F → Type 0
    IsNormal f =
        ((f.entry_type == entry_team) ≡ false → f.team_size ≡ none)
        × ((f.course_type == course_loop) ≡ false → HasNoLoop f)
        × (f.loop_mode ≡ some mode_target_laps → f.loop_time_limit_ms ≡ none)
        × (f.loop_mode ≡ some mode_time_limit → f.loop_target_laps ≡ none)

    only_mode-IsNormal :
        (o : Option String) (f : RaceFormat F)
        → f.loop_mode ≡ o
        → (f.course_type == course_loop) ≡ true
        → ((f.entry_type == entry_team) ≡ false → f.team_size ≡ none)
        → IsNormal (only_mode o f)
    only_mode-IsNormal none f at loop sized =
        (sized, λ n. absurd cc, λ e. absurd cc, λ e. absurd cc)
    only_mode-IsNormal (some m) f at loop sized = elim (Bool-cases (m == mode_target_laps)) [
      | inl t ↦ rw t (
        sized,
        λ n. absurd cc,
        λ e. refl,
        λ e. absurd (
            let d : some m ≡ some mode_time_limit = sym at ∙ e in
            let same : m ≡ mode_time_limit = cc in
            let other : (mode_time_limit == mode_target_laps) ≡ true =
              ap (λ x. x == mode_target_laps) (sym same) ∙ t in
            cc),
      )
      | inr n ↦ elim (Bool-cases (m == mode_time_limit)) [
        | inl t ↦
            rw (n, t)
              (
                sized,
                λ x. absurd cc,
                λ e. absurd (
                    let d : some m ≡ some mode_target_laps = sym at ∙ e in
                    let same : m ≡ mode_target_laps = cc in
                    let other : (mode_target_laps == mode_time_limit) ≡ true =
                      ap (λ x. x == mode_time_limit) (sym same) ∙ t in
                    cc),
                λ e. refl,
              )
        | inr n' ↦
            rw (n, n')
              (
                sized,
                λ x. absurd cc,
                λ e. absurd (
                    let d : some m ≡ some mode_target_laps = sym at ∙ e in
                    let same : m ≡ mode_target_laps = cc in
                    let t = (eq_iff m mode_target_laps).1 same in cc),
                λ e. absurd (
                    let d : some m ≡ some mode_time_limit = sym at ∙ e in
                    let same : m ≡ mode_time_limit = cc in
                    let t = (eq_iff m mode_time_limit).1 same in cc),
              )
      ]
    ]

    only_loop-IsNormal :
        (f : RaceFormat F)
        → ((f.entry_type == entry_team) ≡ false → f.team_size ≡ none)
        → IsNormal (only_loop f)
    only_loop-IsNormal f sized = elim (Bool-cases (f.course_type == course_loop)) [
      | inr n ↦ rw n (sized, λ _. (refl, refl, refl, refl), λ e. cc, λ e. cc)
      | inl t ↦ rw t (only_mode-IsNormal f.loop_mode f refl t sized)
    ]

    normalize_format-IsNormal : (f : RaceFormat F) → IsNormal (normalize_format f)
    unfolding normalize_format
    normalize_format-IsNormal f = only_loop-IsNormal (only_team (with_defaults f)) (λ n. rw n refl)

    at_least :
        (least : ℤ) (o : Option ℤ)
        → refuse_unless (is_at_least_opt least o) ≡ ok tt
        → IsAtLeast least o
    at_least least none h = absurd cc
    at_least least (some n) h = elim (Bool-cases (leb_ℤ least n)) [
      | inl t ↦ (n, refl, t)
      | inr f ↦ absurd (let r : err invalid_state ≡ ok tt = rw f at h in cc)
    ]

    check_axes-ok :
        (f : RaceFormat F) (u : Unit {0})
        → check_axes fl f ≡ ok u
        → (((f.entry_type == entry_individual) ≡ true)
            × (((f.course_type == course_standard) ≡ true)
                ⊎ ((f.course_type == course_loop) ≡ true)))
          ⊎ (((f.entry_type == entry_team) ≡ true)
              × (((f.course_type == course_relay) ≡ true)
                  ⊎ ((f.course_type == course_loop) ≡ true)))
    check_axes-ok f u h = elim (Bool-cases (f.course_type == course_loop)) [
      | inl l ↦ elim (Bool-cases (f.entry_type == entry_team)) [
        | inl t ↦ inr (t, inr l)
        | inr t ↦ elim (Bool-cases (f.entry_type == entry_individual)) [
          | inl i ↦ inl (i, inr l)
          | inr i ↦ absurd (ground arith)
        ]
      ]
      | inr l ↦ elim (Bool-cases (f.entry_type == entry_team)) [
        | inl t ↦ elim (Bool-cases (f.course_type == course_relay)) [
          | inl r ↦ inr (t, inl r)
          | inr r ↦ absurd (ground arith)
        ]
        | inr t ↦ elim (Bool-cases (f.course_type == course_standard)) [
          | inl c ↦ inl (ground arith, inl c)
          | inr c ↦ absurd (ground arith)
        ]
      ]
    ]

    check_mode-ok :
        (o : Option String) (f : RaceFormat F)
        → f.loop_mode ≡ o
        → (f.loop_mode ≡ some mode_target_laps → f.loop_time_limit_ms ≡ none)
        → (f.loop_mode ≡ some mode_time_limit → f.loop_target_laps ≡ none)
        → check_mode fl o f ≡ ok tt
        → HasLoop f
    check_mode-ok none f at by_laps by_time h = absurd cc
    check_mode-ok (some m) f at by_laps by_time h =
        let long : is_positive_opt fl f.loop_length_km ≡ true = ground arith in
        elim (Bool-cases (m == mode_target_laps)) [
          | inl t ↦
              let same : f.loop_mode ≡ some mode_target_laps =
                at ∙ ap (λ x. some x) ((eq_iff m mode_target_laps).0 t) in
              let given : refuse_unless (is_at_least_opt (pos 1) f.loop_target_laps) ≡ ok tt =
                rw (long, t) at h in
              (long, inl (same, at_least (pos 1) f.loop_target_laps given, by_laps same))
          | inr n ↦ elim (Bool-cases (m == mode_time_limit)) [
            | inl t ↦
                let same : f.loop_mode ≡ some mode_time_limit =
                  at ∙ ap (λ x. some x) ((eq_iff m mode_time_limit).0 t) in
                let given : refuse_unless (is_at_least_opt (pos 1) f.loop_time_limit_ms) ≡ ok tt =
                  rw (long, n, t) at h in
                (long, inr (same, at_least (pos 1) f.loop_time_limit_ms given, by_time same))
            | inr n' ↦ absurd (ground arith)
          ]
        ]

    validated : (f : RaceFormat F) → IsNormal f → validate_format fl f ≡ ok tt → IsLegal f
    unfolding validate_format
    validated f (sized, unlooped, by_laps, by_time) h =
        let (_, axes, h1) =
          and_then-eq-ok (check_axes fl f) (λ _. and_then (check_team fl f) λ _. check_loop fl f)
            h in
        let (_, team, loop) = and_then-eq-ok (check_team fl f) (λ _. check_loop fl f) h1 in
        let run : ((f.course_type ≡ course_loop) × HasLoop f)
            ⊎ ((f.course_type ≢ course_loop) × HasNoLoop f) =
          elim (Bool-cases (f.course_type == course_loop)) [
            | inl t ↦ inl (
              (eq_iff f.course_type course_loop).0 t,
              check_mode-ok f.loop_mode f refl by_laps by_time (rw t at loop),
            )
            | inr n ↦ inr (λ e. let t = (eq_iff f.course_type course_loop).1 e in cc, unlooped n)
          ] in
        elim (check_axes-ok f tt axes) [
          | inl (i, c) ↦
              let alone : f.team_size ≡ none =
                sized (ap (λ x. x == entry_team) ((eq_iff f.entry_type entry_individual).0 i)) in
              (inl ((eq_iff f.entry_type entry_individual).0 i, alone, course_of c), run)
          | inr (t, c) ↦
              let given : refuse_unless (is_at_least_opt (pos 2) f.team_size) ≡ ok tt =
                rw t at team in
              (
                inr (
                  (eq_iff f.entry_type entry_team).0 t,
                  at_least (pos 2) f.team_size given,
                  course_of c,
                ),
                run,
              )
        ]
      where
        course_of :
            {a b : String}
            → ((f.course_type == a) ≡ true) ⊎ ((f.course_type == b) ≡ true)
            → (f.course_type ≡ a) ⊎ (f.course_type ≡ b)
        course_of {a} {b} (inl e) = inl ((eq_iff f.course_type a).0 e)
        course_of {a} {b} (inr e) = inr ((eq_iff f.course_type b).0 e)

    legal-check_loop :
        (f : RaceFormat F)
        → ((f.course_type ≡ course_loop) × HasLoop f)
          ⊎ ((f.course_type ≢ course_loop) × HasNoLoop f)
        → check_loop fl f ≡ ok tt
    legal-check_loop f (inl (c, (long, inl (m, (n, e, ge), _)))) = rw (c, m, long, e, ge) refl
    legal-check_loop f (inl (c, (long, inr (m, (n, e, ge), _)))) = rw (c, m, long, e, ge) refl
    legal-check_loop f (inr (c, l)) = elim (Bool-cases (f.course_type == course_loop)) [
      | inl t ↦ absurd (c ((eq_iff f.course_type course_loop).0 t))
      | inr n ↦ rw n refl
    ]

    legal-check_axes : (f : RaceFormat F) → IsEntered f → check_axes fl f ≡ ok tt
    legal-check_axes f (inl (i, z, inl c)) = rw (i, c) refl
    legal-check_axes f (inl (i, z, inr c)) = rw (i, c) refl
    legal-check_axes f (inr (t, z, inl c)) = rw (t, c) refl
    legal-check_axes f (inr (t, z, inr c)) = rw (t, c) refl

    legal-check_team : (f : RaceFormat F) → IsEntered f → check_team fl f ≡ ok tt
    legal-check_team f (inl (i, z, c)) = rw i refl
    legal-check_team f (inr (t, (n, e, ge), c)) = rw (t, e, ge) refl

    -- A legal format passes the rules.
    legal-validated : (f : RaceFormat F) → IsLegal f → validate_format fl f ≡ ok tt
    unfolding validate_format
    legal-validated f (entered, run) =
        rw (legal-check_axes f entered, and_then, legal-check_team f entered)
          (legal-check_loop f run)

    -- The formats that a race can have, by the normal form and the rules: a normalised format that
    -- passes the rules is legal, and a legal format passes the rules.
    pub normalize_format-IsLegal :
        (f : RaceFormat F)
        → (validate_format fl (normalize_format f) ≡ ok tt) ↔ IsLegal (normalize_format f)
    normalize_format-IsLegal f = (
      validated (normalize_format f) (normalize_format-IsNormal f),
      legal-validated (normalize_format f),
    )
