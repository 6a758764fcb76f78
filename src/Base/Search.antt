-- ===== src/Base/Search.antt =====
-- Lemmas on searching, testing and updating lists.
use racetify_api.Base.Tests.{if◌then◌else◌, Bool-cases}
use Prim.Native.Nat.{◌+◌}
use racetify_api.Base.Lists.{find, any, keep, count_if, modify, modify_first, All}
use mathlib.Core.Path.{◌≡◌, refl, ap, ◌∙◌, subst}
use mathlib.Core.Logic.{inl, inr}
use mathlib.Core.Bool.{Bool, true, false, ◌||◌}
use mathlib.Core.Option.{none, some}
use mathlib.Core.List.{List, [], ◌∷◌, ◌++◌, map}
use Prim.Native.String.{String}
use native.Mathlib.Omega.{arith}
use text.Mathlib.Text.{◌==◌}
use text.Mathlib.TextEquality.{eq_iff}

module _ {ℓ} {A : Type ℓ} (p : A → Bool) where
  pub find_sound : (xs : List A) (a : A) → find p xs ≡ some a → p a ≡ true
  find_sound [] a h = cc
  find_sound (x ∷ xs) a h = elim (Bool-cases (p x)) [
    | inl e ↦ let same : some x ≡ some a = ground arith in ground arith
    | inr e ↦ find_sound xs a (ground arith)
  ]

  pub find-All {κ} : (P : A → Type κ) (xs : List A) (a : A) → All P xs → find p xs ≡ some a → P a
  find-All P [] a h e = cc
  find-All P (x ∷ xs) a (q, h) e = elim (Bool-cases (p x)) [
    | inl t ↦ let same : x ≡ a = ground arith in subst P same q
    | inr t ↦ find-All P xs a h (ground arith)
  ]

  -- A search goes on in the second list if the first has no match.
  pub find-append : (xs ys : List A) → any p xs ≡ false → find p (xs ++ ys) ≡ find p ys
  find-append [] ys h = refl
  find-append (x ∷ xs) ys h = elim (Bool-cases (p x)) [
    | inl t ↦ ground arith
    | inr t ↦ rw t (find-append xs ys (ground arith))
  ]

  pub find-append_some : (xs ys : List A) (a : A) → find p xs ≡ some a → find p (xs ++ ys) ≡ some a
  find-append_some [] ys a h = cc
  find-append_some (x ∷ xs) ys a h = ground (arith, find-append_some xs ys a)

  pub find_of_any : (xs : List A) (a : A) → find p xs ≡ some a → any p xs ≡ true
  find_of_any [] a h = cc
  find_of_any (x ∷ xs) a h = elim (Bool-cases (p x)) [
    | inl t ↦ rw t refl
    | inr t ↦ rw t (find_of_any xs a (ground arith))
  ]

  -- A search whose test an update does not touch finds the updated element.
  module _ (q : A → Bool) (f : A → A) (same : (a : A) → p (f a) ≡ p a) where
    pub find-modify :
        (xs : List A) (a : A)
        → find p xs ≡ some a
        → find p (modify q f xs) ≡ some (if q a then f a else a)
    find-modify [] a h = cc
    find-modify (x ∷ xs) a h = elim (Bool-cases (p x)) [
      | inl t ↦ ground (arith, same x)
      | inr t ↦ ground (arith, same x, find-modify xs a)
    ]

    pub any-modify : (xs : List A) → any p (modify q f xs) ≡ any p xs
    any-modify [] = refl
    any-modify (x ∷ xs) = ground (arith, same x, any-modify xs)

    pub keep-modify :
        ((a : A) → q a ≡ true → p a ≡ false) → (xs : List A) → keep p (modify q f xs) ≡ keep p xs
    keep-modify out [] = refl
    keep-modify out (x ∷ xs) = ground (arith, same x, out x, keep-modify out xs)

  pub any-append : (xs ys : List A) → any p (xs ++ ys) ≡ (any p xs || any p ys)
  any-append [] ys = refl
  any-append (x ∷ xs) ys = ground (arith, any-append xs ys)

  pub any_of_append : (xs ys : List A) → any p ys ≡ true → any p (xs ++ ys) ≡ true
  any_of_append [] ys h = h
  any_of_append (x ∷ xs) ys h = ground (arith, any_of_append xs ys)

  -- An update that makes the test fail where it passed leaves nothing that passes.
  pub any-update_off :
      (f : A → A)
      → ((a : A) → p a ≡ true → p (f a) ≡ false)
      → (xs : List A) → any p (modify p f xs) ≡ false
  any-update_off f off [] = refl
  any-update_off f off (x ∷ xs) = ground (arith, off x, any-update_off f off xs)

  pub any-weaken :
      (q : A → Bool)
      → ((a : A) → p a ≡ true → q a ≡ true)
      → (xs : List A) → any q xs ≡ false
      → any p xs ≡ false
  any-weaken q imp [] h = refl
  any-weaken q imp (x ∷ xs) h = ground (arith, imp x, any-weaken q imp xs)

  pub any-All-false : (xs : List A) → any p xs ≡ false → All (λ a. p a ≡ false) xs
  any-All-false [] h = tt
  any-All-false (x ∷ xs) h = (ground arith, any-All-false xs (ground arith))

module _ {ℓ κ} {A : Type ℓ} (P : A → Type κ) where
  pub All-modify :
      (p : A → Bool) (f : A → A)
      → ((a : A) → p a ≡ true → P a → P (f a))
      → (xs : List A) → All P xs
      → All P (modify p f xs)
  All-modify p f g [] h = tt
  All-modify p f g (x ∷ xs) (q, h) =
      (elim (Bool-cases (p x)) [ inl e ↦ rw e (g x e q) | inr e ↦ rw e q ], All-modify p f g xs h)

  pub All-of : ((a : A) → P a) → (xs : List A) → All P xs
  All-of f [] = tt
  All-of f (x ∷ xs) = (f x, All-of f xs)

module _ {ℓ κ} {A : Type ℓ} (P : A → Type κ) where
  pub All-modify_first :
      (p : A → Bool) (f : A → A)
      → ((a : A) → p a ≡ true → P a → P (f a))
      → (xs : List A) → All P xs
      → All P (modify_first p f xs)
  All-modify_first p f g [] h = tt
  All-modify_first p f g (x ∷ xs) (q, h) = elim (Bool-cases (p x)) [
    | inl e ↦ rw e (g x e q, h)
    | inr e ↦ rw e (q, All-modify_first p f g xs h)
  ]

-- Edits that a test and a view do not see leave what the test keeps, as viewed, alone.
module _ {ℓ κ} {A : Type ℓ} {B : Type κ} (p q : A → Bool) (f : A → A) (view : A → B)
    (same : (a : A) → p (f a) ≡ p a) (seen : (a : A) → view (f a) ≡ view a) where
  pub map-keep-modify : (xs : List A) → map view (keep p (modify q f xs)) ≡ map view (keep p xs)
  map-keep-modify [] = refl
  map-keep-modify (x ∷ xs) = ground (arith, same x, seen x, map-keep-modify xs)

  pub map-keep-modify_first :
      (xs : List A) → map view (keep p (modify_first q f xs)) ≡ map view (keep p xs)
  map-keep-modify_first [] = refl
  map-keep-modify_first (x ∷ xs) = ground (arith, same x, seen x, map-keep-modify_first xs)

module _ {ℓ} {A : Type ℓ} (p q : A → Bool) (f : A → A) (same : (a : A) → p (f a) ≡ p a)
    (apart : (a : A) → q a ≡ true → p a ≡ false) where
  pub keep-modify_first : (xs : List A) → keep p (modify_first q f xs) ≡ keep p xs
  keep-modify_first [] = refl
  keep-modify_first (x ∷ xs) = ground (arith, same x, apart x, keep-modify_first xs)

-- An edit that makes the test fail leaves nothing of what passed.
pub keep-modify_off {ℓ} :
    {A : Type ℓ} (p q : A → Bool) (f : A → A)
    → ((a : A) → q a ≡ true → p (f a) ≡ false)
    → ((a : A) → p a ≡ true → q a ≡ true)
    → (xs : List A) → keep p (modify q f xs) ≡ []
keep-modify_off p q f off all [] = refl
keep-modify_off p q f off all (x ∷ xs) =
    ground (arith, off x, all x, keep-modify_off p q f off all xs)

-- What holds of every listed text holds of a text that the list has.
pub All-eq :
    (P : String → Type 0) (xs : List String) (out : String)
    → All P xs
    → any (λ t. t == out) xs ≡ true
    → P out
All-eq P [] out h e = absurd (ground arith)
All-eq P (x ∷ xs) out (q, h) e = elim (Bool-cases (x == out)) [
  | inl t ↦ subst P ((eq_iff x out).0 t) q
  | inr f ↦ All-eq P xs out h (ground arith)
]

-- An update of the first row that has a key, seen by a search.
module _ {ℓ} {A : Type ℓ} (p : A → Bool) (f : A → A) (same : (a : A) → p (f a) ≡ p a) where
  pub find-modify_first_same :
      (xs : List A) (a : A) → find p xs ≡ some a → find p (modify_first p f xs) ≡ some (f a)
  find-modify_first_same [] a h = cc
  find-modify_first_same (x ∷ xs) a h = elim (Bool-cases (p x)) [
    | inl t ↦
        let e : x ≡ a = ground arith in
        let k : p (f x) ≡ true = same x ∙ t in rw (t, k) (ap (λ y. some (f y)) e)
    | inr t ↦ rw (t, t) (find-modify_first_same xs a (ground arith))
  ]

  pub any-modify_first : (q : A → Bool) (xs : List A) → any p (modify_first q f xs) ≡ any p xs
  any-modify_first q [] = refl
  any-modify_first q (x ∷ xs) = ground (arith, same x, any-modify_first q xs)

  pub find-modify_first_other :
      (q : A → Bool)
      → ((a : A) → q a ≡ true → p a ≡ false)
      → (xs : List A) → find p (modify_first q f xs) ≡ find p xs
  find-modify_first_other q apart [] = refl
  find-modify_first_other q apart (x ∷ xs) =
      ground (arith, same x, apart x, find-modify_first_other q apart xs)

-- How many elements pass a test, in two lists and in one whose element is taken out.
module _ {ℓ} {A : Type ℓ} (p : A → Bool) where
  pub count_if-append : (xs ys : List A) → count_if p (xs ++ ys) ≡ count_if p xs + count_if p ys
  count_if-append [] ys = omega arith
  count_if-append (x ∷ xs) ys = ground (arith, count_if-append xs ys)

  pub count_if-between :
      (xs ys zs : List A) (x : A)
      → xs ≡ ys ++ (x ∷ zs)
      → count_if p xs ≡ count_if p (ys ++ zs) + (if p x then 1 else 0)
  count_if-between xs ys zs x e =
      let whole : count_if p xs ≡ count_if p ys + count_if p (x ∷ zs) =
        ap (count_if p) e ∙ count_if-append ys (x ∷ zs) in
      ground (arith, whole, count_if-append ys zs)

  pub modify_first-none : (f : A → A) (xs : List A) → find p xs ≡ none → modify_first p f xs ≡ xs
  modify_first-none f [] h = refl
  modify_first-none f (x ∷ xs) h = elim (Bool-cases (p x)) [
    | inl t ↦ absurd (ground arith)
    | inr t ↦ rw t (ap (λ ys. x ∷ ys) (modify_first-none f xs (ground arith)))
  ]

  pub find-none : (xs : List A) → any p xs ≡ false → find p xs ≡ none
  find-none [] h = refl
  find-none (x ∷ xs) h = ground (arith, find-none xs)

  pub find-append_off : (xs : List A) (y : A) → p y ≡ false → find p (xs ++ (y ∷ [])) ≡ find p xs
  find-append_off [] y h = rw h refl
  find-append_off (x ∷ xs) y h = ground (arith, find-append_off xs y h)

-- An update of the row that a key finds, seen by a search that finds the same row.
pub find-modify_first_both {ℓ} :
    {A : Type ℓ} (p q : A → Bool) (f : A → A)
    → ((a : A) → p (f a) ≡ p a)
    → (xs : List A) (a : A) → find p xs ≡ some a
    → find q xs ≡ some a
    → find p (modify_first q f xs) ≡ some (f a)
find-modify_first_both p q f same [] a h k = cc
find-modify_first_both p q f same (x ∷ xs) a h k = elim (Bool-cases (q x)) [
  | inl t ↦
      let e : x ≡ a = ground arith in
      let hit : p (f x) ≡ true = same x ∙ ap p e ∙ find_sound p (x ∷ xs) a h in
      rw (t, hit) (ap (λ y. some (f y)) e)
  | inr t ↦ elim (Bool-cases (p x)) [
    | inl u ↦ absurd (
        let e : x ≡ a = ground arith in
        let hit : q a ≡ true = find_sound q (x ∷ xs) a k in
        let hit' : q x ≡ true = ap q e ∙ hit in cc)
    | inr u ↦
        let miss : p x ≡ false = u in
        rw (t, u) (find-modify_first_both p q f same xs a (ground arith) (ground arith))
  ]
]
