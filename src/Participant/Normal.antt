-- ===== src/Participant/Normal.antt =====
-- internal/participant/rules.go: a normalised input is in its final form (Normalize).
use racetify_api.Base.{
  String, ◌≡◌, refl, ap, ◌∙◌, Bool, true, Option, none, some, inl, inr, if◌then◌else◌, ◌==◌,
  Bool-cases, All, All-eq,
}
use racetify_api.Text.{Unicode, is_space, trim_left, trim_right, trim_space}
use racetify_api.Text.Laws.{trim_space-trim_space}
use racetify_api.Participant.BloodType.{
  blood_types, normalize_blood_type, KeepsStored, normalize_blood_type-normalize_blood_type,
}
use racetify_api.Participant.Rules.{Input, trim_ptr, normalize_blood, normalize}

trim_ptr-trim_ptr : (o : Option String) → trim_ptr (trim_ptr o) ≡ trim_ptr o
unfolding trim_ptr
trim_ptr-trim_ptr none = refl
trim_ptr-trim_ptr (some p) = elim (Bool-cases (trim_space p == "")) [
  | inl t ↦ rw t refl
  | inr t ↦ rw t (rw (trim_space-trim_space p, t) refl)
]

abbrev IsTrimmed : String → Type 0
IsTrimmed s = trim_ptr (some s) ≡ some s

stored-IsTrimmed : All IsTrimmed blood_types
unfolding trim_ptr trim_space trim_left trim_right is_space
stored-IsTrimmed = (
  refl,
  (refl, (refl, (refl, (refl, (refl, (refl, (refl, (refl, (refl, (refl, (refl, tt))))))))))),
)

normalize_blood-normalize_blood :
    (u : Unicode) (o : Option String)
    → KeepsStored u
    → normalize_blood u (trim_ptr (normalize_blood u o).0) ≡ ((normalize_blood u o).0, "")
unfolding normalize_blood trim_ptr
normalize_blood-normalize_blood u none k = refl
normalize_blood-normalize_blood u (some bt) k = elim (Bool-cases (normalize_blood_type u bt).1) [
  | inr t ↦ rw t refl
  | inl t ↦
      let norm = (normalize_blood_type u bt).0 in
      let known : normalize_blood_type u bt ≡ (norm, true) = ap (λ (b : Bool). (norm, b)) t in
      let (stored, again) = normalize_blood_type-normalize_blood_type u bt norm k known in
      let trimmed = All-eq IsTrimmed blood_types norm stored-IsTrimmed stored in
      let kept : normalize_blood u (some norm) ≡ (some norm, "") = rw again refl in
      rw t (ap (normalize_blood u) trimmed ∙ kept)
]

normal_status :
    (status : String)
    → (if (if status == "" then "registered" else status) == ""
        then "registered"
        else if status == ""
        then "registered"
        else status)
      ≡ (if status == "" then "registered" else status)
normal_status status = elim (Bool-cases (status == "")) [
  | inl t ↦ rw t refl
  | inr t ↦ rw (t, t) refl
]

-- Normalising a participant's input twice is normalising it once, and the second time no blood type
-- is reported as bad, if upper-casing leaves the characters of the stored blood types as they are.
pub normalize-normalize :
    (u : Unicode) (i : Input)
    → KeepsStored u
    → normalize u (normalize u i).0 ≡ ((normalize u i).0, "")
unfolding normalize
normalize-normalize u i k =
    rw
      (
        trim_space-trim_space i.first_name,
        trim_ptr-trim_ptr i.last_name,
        trim_ptr-trim_ptr i.bib_name,
        trim_ptr-trim_ptr i.ref_id,
        trim_ptr-trim_ptr i.email,
        trim_ptr-trim_ptr i.club,
        trim_ptr-trim_ptr i.emergency_contact_name,
        trim_ptr-trim_ptr i.emergency_contact_phone,
        trim_ptr-trim_ptr i.team_id,
        normalize_blood-normalize_blood u (trim_ptr i.blood_type) k,
        normal_status i.status,
      )
      refl
