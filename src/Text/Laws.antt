-- ===== src/Text/Laws.antt =====
-- Trimming, as the code relies on it.
use Prim.Native.Char.{Char}
use racetify_api.Base.{◌≡◌, refl, ap, ◌∙◌, String, false, inl, inr, ◌⊎◌, ◌&&◌, Bool-cases}
use racetify_api.Text.{is_space, no_text, trim_left, trim_right, trim_space}

pub trim_right-trim_right : (s : String) → trim_right (trim_right s) ≡ trim_right s
unfolding trim_right
trim_right-trim_right String.[] = refl
trim_right-trim_right (String.◌∷◌ c s) = elim (Bool-cases (is_space c && no_text (trim_right s))) [
  | inl t ↦ rw t refl
  | inr f ↦ rw f (rw (trim_right-trim_right s, f) refl)
]

trim_left-trim_right :
    (c : Char) (s : String)
    → is_space c ≡ false
    → trim_left (trim_right (String.◌∷◌ c s)) ≡ trim_right (String.◌∷◌ c s)
unfolding trim_left trim_right
trim_left-trim_right c s h = elim (Bool-cases (no_text (trim_right s))) [
  | inl t ↦ rw h (rw h refl)
  | inr f ↦ rw h (rw h refl)
]

-- What is left begins with no space.
trim_left-cases :
    (s : String)
    → (trim_left s ≡ "")
      ⊎ ((c : Char) × (t : String) × (trim_left s ≡ String.◌∷◌ c t) × (is_space c ≡ false))
unfolding trim_left
trim_left-cases String.[] = inl refl
trim_left-cases (String.◌∷◌ c s) = elim (Bool-cases (is_space c)) [
  | inl t ↦ rw t (trim_left-cases s)
  | inr f ↦ inr (c, s, rw f refl, f)
]

-- A trimmed text has nothing to trim.
pub trim_space-trim_space : (s : String) → trim_space (trim_space s) ≡ trim_space s
unfolding trim_space
trim_space-trim_space s = elim (trim_left-cases s) [
  | inl e ↦ rw e (unfold trim_left trim_right in refl)
  | inr (c, t, e, f) ↦
      rw e (ap trim_right (trim_left-trim_right c t f) ∙ trim_right-trim_right (String.◌∷◌ c t))
]
