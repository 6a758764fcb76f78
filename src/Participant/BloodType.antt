-- ===== src/Participant/BloodType.antt =====
-- internal/participant/participant.go: NormalizeBloodType, and what it owes to the stored spellings.
use Prim.Native.String
use racetify_api.Base.{
  String, ◌≡◌, refl, ap, subst, inl, inr, Bool, true, false, Option, none, some, List, [], ◌∷◌,
  ◌==◌, ◌||◌, if◌then◌else◌, any, Option-cases, All, All-eq,
}
use racetify_api.Text.{Unicode, without_spaces, map_text, cut_prefix, trim_prefix, is_space}

-- The accepted stored spellings.
abbrev pub blood_types : List String
blood_types = "A+" ∷ "A-" ∷ "B+" ∷ "B-" ∷ "AB+" ∷ "AB-" ∷ "O+" ∷ "O-" ∷ "A" ∷ "B" ∷ "AB" ∷ "O" ∷ []

-- The first group that is a prefix, and what stands behind it. AB comes before its prefix A.
unfoldable pub find_group : List String → String → Option (String × String)
find_group [] s = none
find_group (g ∷ gs) s =
    let later = find_group gs s in
    elim (cut_prefix g s) [ some rest ↦ some (g, rest) | none ↦ later ]

abbrev pub groups : List String
groups = "AB" ∷ "A" ∷ "B" ∷ "O" ∷ []

-- The rhesus sign that the rest spells.
unfoldable pub read_sign : String → Option String
read_sign s =
    if s == ""
    then some ""
    else if s == "+" || s == "POS" || s == "POSITIF" || s == "POSITIVE"
    then some "+"
    else if s == "-" || s == "NEG" || s == "NEGATIF" || s == "NEGATIVE"
    then some "-"
    else none

-- From the upper-case text without blanks on.
unfoldable pub read_blood_type : String → String × Bool
unfolding find_group read_sign
read_blood_type s = elim (find_group groups s) [
  | none ↦ ("", false)
  | some (group, rest) ↦ elim (read_sign (trim_prefix "RH" rest)) [
    | none ↦ ("", false)
    | some sign ↦ let out = String.◌++◌ group sign in (out, any (λ t. t == out) blood_types)
  ]
]

unfoldable pub normalize_blood_type : Unicode → String → String × Bool
unfolding read_blood_type
normalize_blood_type u raw = read_blood_type (map_text u.to_upper (without_spaces raw))

-- What the round trip needs of unicode.ToUpper: the characters of the stored spellings are upper case.
pub record KeepsStored (u : Unicode) : Type 0 where
  pub keeps_a : u.to_upper "A" ≡ "A"
  pub keeps_b : u.to_upper "B" ≡ "B"
  pub keeps_o : u.to_upper "O" ≡ "O"
  pub keeps_plus : u.to_upper "+" ≡ "+"
  pub keeps_minus : u.to_upper "-" ≡ "-"

abbrev IsUpper : Unicode → String → Type 0
IsUpper u t = map_text u.to_upper (without_spaces t) ≡ t

stored-IsUpper : (u : Unicode) → KeepsStored u → All (IsUpper u) blood_types
unfolding map_text without_spaces is_space
stored-IsUpper u k = (
  cc (k.keeps_a, k.keeps_plus),
  (
    cc (k.keeps_a, k.keeps_minus),
    (
      cc (k.keeps_b, k.keeps_plus),
      (
        cc (k.keeps_b, k.keeps_minus),
        (
          cc (k.keeps_a, k.keeps_b, k.keeps_plus),
          (
            cc (k.keeps_a, k.keeps_b, k.keeps_minus),
            (
              cc (k.keeps_o, k.keeps_plus),
              (
                cc (k.keeps_o, k.keeps_minus),
                (cc k.keeps_a, (cc k.keeps_b, (cc (k.keeps_a, k.keeps_b), (cc k.keeps_o, tt)))),
              ),
            ),
          ),
        ),
      ),
    ),
  ),
)

abbrev IsRead : String → Type 0
IsRead t = read_blood_type t ≡ (t, true)

stored-IsRead : All IsRead blood_types
unfolding read_blood_type cut_prefix trim_prefix
stored-IsRead = (
  refl,
  (refl, (refl, (refl, (refl, (refl, (refl, (refl, (refl, (refl, (refl, (refl, tt))))))))))),
)

-- A text that is recognised is read as one of the stored spellings.
read_blood_type_known :
    (s out : String) → read_blood_type s ≡ (out, true) → any (λ t. t == out) blood_types ≡ true
unfolding read_blood_type
read_blood_type_known s out h = elim (Option-cases (find_group groups s)) [
  | inl e ↦ let bad = rw (e, read_blood_type) at h in cc
  | inr ((group, rest), e) ↦ elim (Option-cases (read_sign (trim_prefix "RH" rest))) [
    | inl n ↦ let bad = rw (n, read_blood_type) at (rw (e, read_blood_type) at h) in cc
    | inr (sign, n) ↦
        let good = rw (n, read_blood_type) at (rw (e, read_blood_type) at h) in
        subst (λ o. any (λ t. t == o) blood_types ≡ true) (ap (λ (p : String × Bool). p.0) good)
          (ap (λ (p : String × Bool). p.1) good)
  ]
]

-- A blood type that is recognised is one of the stored spellings, and normalising it again gives it
-- back, if upper-casing leaves the characters of those spellings as they are.
pub normalize_blood_type-normalize_blood_type :
    (u : Unicode) (raw out : String)
    → KeepsStored u
    → normalize_blood_type u raw ≡ (out, true)
    → (any (λ t. t == out) blood_types ≡ true) × (normalize_blood_type u out ≡ (out, true))
unfolding normalize_blood_type
normalize_blood_type-normalize_blood_type u raw out k h =
    let known = read_blood_type_known (map_text u.to_upper (without_spaces raw)) out h in
    let up = All-eq (IsUpper u) blood_types out (stored-IsUpper u k) known in
    (known, rw up (All-eq IsRead blood_types out stored-IsRead known))
