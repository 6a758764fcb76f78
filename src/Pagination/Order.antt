-- ===== src/Pagination/Order.antt =====
-- internal/platform/pagination: a table in its listed order, and what a filter leaves of it.
use racetify_api.Base.{
  All-keep, ◌≡◌, ◌≢◌, refl, sym, ap, ◌∙◌, Bool, true, false, List, [], ◌∷◌, inl, inr, if◌then◌else◌,
  arith, Bool-cases, keep, All,
}
use racetify_api.Pagination.{Position, IdOrder, precedes, insert_row, order_by}

module _ (o : IdOrder) where
  pub precedes_irrefl : (p : Position) → precedes o p p ≡ false
  unfolding precedes
  precedes_irrefl p = ground (arith, o.irrefl p.id)

  pub precedes_trans :
      (p q r : Position) → precedes o p q ≡ true → precedes o q r ≡ true → precedes o p r ≡ true
  unfolding precedes
  precedes_trans p q r h k = ground (arith, o.trans r.id q.id p.id)

  pub precedes_asymm : (p q : Position) → precedes o p q ≡ true → precedes o q p ≡ false
  precedes_asymm p q h = elim (Bool-cases (precedes o q p)) [
    | inl k ↦ ground (arith, precedes_trans p q p h k, precedes_irrefl p)
    | inr k ↦ k
  ]

  -- Rows with different ids are in one order or the other.
  pub precedes_total :
      (p q : Position) → p.id ≢ q.id → precedes o p q ≡ false → precedes o q p ≡ true
  unfolding precedes
  precedes_total p q ne h = ground (arith, o.total p.id q.id, o.total q.id p.id)

module _ {A : Type 0} (o : IdOrder) (position : A → Position) where
  abbrev pub comes : A → A → Bool
  comes x y = precedes o (position x) (position y)

  abbrev pub IsDescending : List A → Type 0
  IsDescending [] = Unit
  IsDescending (x ∷ xs) = All (λ y. comes x y ≡ true) xs × IsDescending xs

  -- The ids are a key of the table.
  abbrev pub IsKeyed : List A → Type 0
  IsKeyed [] = Unit
  IsKeyed (x ∷ xs) = All (λ y. (position x).id ≢ (position y).id) xs × IsKeyed xs

  All-insert :
      (P : A → Type 0) (x : A) (ys : List A) → P x → All P ys → All P (insert_row o position x ys)
  unfolding insert_row
  All-insert P x [] h hs = (h, tt)
  All-insert P x (y ∷ ys) h (k, ks) = elim (Bool-cases (comes x y)) [
    | inl t ↦ rw t (h, (k, ks))
    | inr t ↦ rw t (k, All-insert P x ys h ks)
  ]

  pub All-order_by : (P : A → Type 0) (xs : List A) → All P xs → All P (order_by o position xs)
  unfolding order_by
  All-order_by P [] h = tt
  All-order_by P (x ∷ xs) (h, hs) = All-insert P x (order_by o position xs) h (All-order_by P xs hs)

  All-trans :
      (x y : A) (ys : List A)
      → comes x y ≡ true
      → All (λ z. comes y z ≡ true) ys
      → All (λ z. comes x z ≡ true) ys
  All-trans x y [] h hs = tt
  All-trans x y (z ∷ zs) h (k, ks) =
      (precedes_trans o (position x) (position y) (position z) h k, All-trans x y zs h ks)

  insert-IsDescending :
      (x : A) (ys : List A)
      → All (λ y. (position x).id ≢ (position y).id) ys
      → IsDescending ys
      → IsDescending (insert_row o position x ys)
  unfolding insert_row
  insert-IsDescending x [] ne d = (tt, tt)
  insert-IsDescending x (y ∷ ys) (ne, nes) (h, d) = elim (Bool-cases (comes x y)) [
    | inl t ↦ rw t ((t, All-trans x y ys t h), (h, d))
    | inr t ↦ rw t (
      All-insert (λ z. comes y z ≡ true) x ys (precedes_total o (position x) (position y) ne t) h,
      insert-IsDescending x ys nes d,
    )
  ]

  pub order_by-IsDescending : (xs : List A) → IsKeyed xs → IsDescending (order_by o position xs)
  unfolding order_by
  order_by-IsDescending [] k = tt
  order_by-IsDescending (x ∷ xs) (k, ks) =
      insert-IsDescending x (order_by o position xs)
        (All-order_by (λ y. (position x).id ≢ (position y).id) xs k) (order_by-IsDescending xs ks)

  pub keep-IsKeyed : (p : A → Bool) (xs : List A) → IsKeyed xs → IsKeyed (keep p xs)
  keep-IsKeyed p [] k = tt
  keep-IsKeyed p (x ∷ xs) (k, ks) = elim (Bool-cases (p x)) [
    | inl t ↦ rw t (All-keep (λ y. (position x).id ≢ (position y).id) p xs k, keep-IsKeyed p xs ks)
    | inr t ↦ rw t (keep-IsKeyed p xs ks)
  ]

  insert_first :
      (x : A) (ys : List A) → All (λ y. comes x y ≡ true) ys → insert_row o position x ys ≡ x ∷ ys
  unfolding insert_row
  insert_first x [] h = refl
  insert_first x (y ∷ ys) (h, hs) = rw h refl

  keep-insert :
      (p : A → Bool) (x : A) (ys : List A)
      → IsDescending ys
      → keep p (insert_row o position x ys)
        ≡ (if p x then insert_row o position x (keep p ys) else keep p ys)
  unfolding insert_row
  keep-insert p x [] d = refl
  keep-insert p x (y ∷ ys) (h, d) = elim (Bool-cases (comes x y)) [
    | inl t ↦ elim (Bool-cases (p x)) [
      | inl b ↦
          rw (t, b)
            (sym (
              insert_first x (keep p (y ∷ ys))
                (All-keep (λ z. comes x z ≡ true) p (y ∷ ys) (t, All-trans x y ys t h))))
      | inr b ↦ rw (t, b) refl
    ]
    | inr t ↦ ground (arith, t, keep-insert p x ys d)
  ]

  -- Filtering and ordering are independent.
  pub keep-order_by :
      (p : A → Bool) (xs : List A)
      → IsKeyed xs
      → order_by o position (keep p xs) ≡ keep p (order_by o position xs)
  unfolding order_by
  keep-order_by p [] k = refl
  keep-order_by p (x ∷ xs) (k, ks) = elim (Bool-cases (p x)) [
    | inl t ↦ rw t (
        ap (insert_row o position x) (keep-order_by p xs ks)
        ∙ sym (keep-insert p x (order_by o position xs) (order_by-IsDescending xs ks) ∙ rw t refl))
    | inr t ↦ rw t (
        keep-order_by p xs ks
        ∙ sym (keep-insert p x (order_by o position xs) (order_by-IsDescending xs ks) ∙ rw t refl))
  ]
