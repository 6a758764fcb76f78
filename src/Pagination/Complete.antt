-- ===== src/Pagination/Complete.antt =====
-- internal/platform/pagination: a client that follows the cursors reads the whole table, once.
use racetify_api.Base.{
  All-keep, ℕ, zero, suc, ◌++◌, ◌+◌, ◌-◌, ◌≤◌, ◌<◌, ltb, ltb→lt, ℤ, ◌≡◌, refl, sym, ap, ◌∙◌, Bool,
  true, false, List, [], ◌∷◌, Option, none, some, inl, inr, pos, negsuc, length-keep, length-take,
  All-of, arith, Bool-cases, keep, length, take, drop, get_elem?, subst, keep-All, All, All-get,
  All-take, All-kept, get-drop, drop-drop, take-append-drop, length-drop, get_below, take_all,
  length-take_more, take-take, get-take,
}
use racetify_api.Pagination.{
  Position, IdOrder, order_by, select, is_after, page_of, list_page, read_pages, read_on,
  normalize_limit, insert_row,
}
use racetify_api.Pagination.Order.{
  precedes_irrefl, precedes_asymm, comes, IsDescending, IsKeyed, order_by-IsDescending,
  keep-IsKeyed, keep-order_by, All-order_by,
}

-- The rows after the one at an index are those behind it.
module _ {A : Type 0} (o : IdOrder) (position : A → Position) where
  keep-drop :
      (s : List A) (n : ℕ) (a : A)
      → IsDescending o position s
      → get_elem? s n ≡ some a
      → keep (is_after o position (some (position a))) s ≡ drop (suc n) s
  keep-drop [] n a d e = refl
  keep-drop (x ∷ xs) zero a (h, d) e =
      let same : x ≡ a = ground arith in
      let self = precedes_irrefl o (position x) in
      subst (λ z. keep (is_after o position (some (position z))) (x ∷ xs) ≡ xs) same
        (rw self (keep-All (comes o position x) xs h))
  keep-drop (x ∷ xs) (suc n) a (h, d) e =
      let before = All-get (λ y. comes o position x y ≡ true) xs n a h e in
      rw (precedes_asymm o (position x) (position a) before) (keep-drop xs n a d e)

  -- A page that the rest of the query fits on is the last one.
  list_page_last :
      (mine : A → Bool) (limit : ℕ) (rows : List A) (cursor : Option Position) (out : List A)
      → select o position mine cursor rows ≡ out
      → length out ≤ limit
      → list_page o position mine limit cursor rows ≡ record { items = out; next_cursor = none }
  unfolding list_page page_of
  list_page_last mine limit rows cursor out at short =
      let whole : take (limit + 1) out ≡ out = take_all (limit + 1) out (omega arith) in
      let fits : ltb limit (length out) ≡ false = ground arith in rw (at, whole, fits) refl

  -- A page that is full names its last row.
  list_page_full :
      (mine : A → Bool) (limit : ℕ) (rows : List A) (cursor : Option Position) (out : List A)
      → select o position mine cursor rows ≡ out
      → 0 < limit
      → limit < length out
      → (last : A) × (get_elem? out (limit - 1) ≡ some last)
        × (list_page o position mine limit cursor rows
            ≡ record { items = take limit out; next_cursor = some (position last) })
  unfolding list_page page_of
  list_page_full mine limit rows cursor out at some_rows long =
      let (last, found) = get_below out (limit - 1) (omega arith) in
      let one_more : limit + 1 ≡ suc limit = omega arith in
      let more : length (take (suc limit) out) ≡ suc limit = length-take_more limit out long in
      let over : ltb limit (suc limit) ≡ true = ground arith in
      let seen : get_elem? (take (suc limit) out) (limit - 1) ≡ some last =
        get-take (limit - 1) (suc limit) out (omega arith) ∙ found in
      (last, found, rw (at, one_more, more, over, seen, take-take limit out) refl)

  module _ (mine : A → Bool) (rows : List A) (keyed : IsKeyed o position rows) where
    -- The rows that a reader is to see, in order.
    abbrev listed : List A
    listed = order_by o position (keep mine rows)

    select-some :
        (n : ℕ) (a : A)
        → get_elem? listed n ≡ some a
        → select o position mine (some (position a)) rows ≡ drop (suc n) listed
    unfolding select
    select-some n a e =
        let kept = keep-IsKeyed o position mine rows keyed in
        keep-order_by o position (is_after o position (some (position a))) (keep mine rows) kept
        ∙ keep-drop listed n a (order_by-IsDescending o position (keep mine rows) kept) e

    -- Reading on from a place in the order gives what is behind it.
    read_pages-drop :
        (limit fuel k : ℕ) (cursor : Option Position)
        → 0 < limit
        → length (drop k listed) < fuel
        → select o position mine cursor rows ≡ drop k listed
        → read_pages o position mine limit rows fuel cursor ≡ drop k listed
    unfolding read_pages
    read_pages-drop limit zero k cursor some_rows enough at = absurd (omega arith)
    read_pages-drop limit (suc fuel) k cursor some_rows enough at =
        let next : Position → List A = λ c. read_pages o position mine limit rows fuel (some c) in
        elim (Bool-cases (ltb limit (length (drop k listed)))) [
          | inr short ↦
              ap (λ p. read_on o position p next)
                (list_page_last mine limit rows cursor (drop k listed) at (ground arith))
          | inl long ↦
              let (last, found, page) =
                list_page_full mine limit rows cursor (drop k listed) at some_rows (ground arith) in
              let here : get_elem? listed (k + (limit - 1)) ≡ some last =
                sym (get-drop k (limit - 1) listed) ∙ found in
              let place : suc (k + (limit - 1)) ≡ k + limit = omega arith in
              let later : select o position mine (some (position last)) rows
                  ≡ drop (k + limit) listed =
                select-some (k + (limit - 1)) last here ∙ ap (λ m. drop m listed) place in
              let smaller : length (drop (k + limit) listed) < fuel = omega (
                arith,
                length-drop {0} (k + limit) listed,
                length-drop {0} k listed,
                ltb→lt limit (length (drop k listed)) long,
              ) in
              let rest =
                read_pages-drop limit fuel (k + limit) (some (position last)) some_rows smaller
                  later in
              ap (λ p. read_on o position p next) page
              ∙ ap (λ ys. take limit (drop k listed) ++ ys) (rest ∙ sym (drop-drop k limit listed))
              ∙ take-append-drop limit (drop k listed)
        ]

pub normalize_limit_lem : (limit : ℤ) → (1 ≤ normalize_limit limit) × (normalize_limit limit ≤ 100)
unfolding normalize_limit
normalize_limit_lem (pos n) = ground arith
normalize_limit_lem (negsuc n) = ground arith

module _ {A : Type 0} (o : IdOrder) (position : A → Position) where
  length-insert : (x : A) (ys : List A) → length (insert_row o position x ys) ≡ suc (length ys)
  unfolding insert_row
  length-insert x [] = refl
  length-insert x (y ∷ ys) = ground (arith, length-insert x ys)

  length-order_by : (xs : List A) → length (order_by o position xs) ≡ length xs
  unfolding order_by
  length-order_by [] = refl
  length-order_by (x ∷ xs) = length-insert x (order_by o position xs) ∙ ap suc (length-order_by xs)

  select-none :
      (mine : A → Bool) (rows : List A)
      → select o position mine none rows ≡ order_by o position (keep mine rows)
  unfolding select
  select-none mine rows = ap (order_by o position) (
      keep-All (λ x. true) (keep mine rows)
        (All-of (λ x. true ≡ true) (λ x. refl) (keep mine rows)))

  -- A client that follows the cursors from the first page on, by any limit, reads every row of the
  -- query once, in the listed order, if the ids are a key: reading at most as many pages as there are
  -- rows, and one more, is enough.
  pub read_pages-eq-order_by :
      (mine : A → Bool) (limit : ℤ) (rows : List A)
      → IsKeyed o position rows
      → read_pages o position mine (normalize_limit limit) rows (suc (length rows)) none
        ≡ order_by o position (keep mine rows)
  read_pages-eq-order_by mine limit rows keyed =
      let (low, high) = normalize_limit_lem limit in
      let size : length (order_by o position (keep mine rows)) < suc (length rows) =
        omega (arith, length-order_by (keep mine rows), length-keep mine rows) in
      read_pages-drop o position mine rows keyed (normalize_limit limit) (suc (length rows)) 0 none
        (omega arith) size (select-none mine rows)

  -- A page holds at most as many rows as the limit that was asked for, and never more than 100.
  pub list_page_bounds :
      (mine : A → Bool) (limit : ℤ) (cursor : Option Position) (rows : List A)
      → (length (list_page o position mine (normalize_limit limit) cursor rows).items
          ≤ normalize_limit limit)
        × (length (list_page o position mine (normalize_limit limit) cursor rows).items ≤ 100)
  unfolding list_page page_of
  list_page_bounds mine limit cursor rows =
      let (low, high) = normalize_limit_lem limit in
      let out = take (normalize_limit limit + 1) (select o position mine cursor rows) in
      elim (Bool-cases (ltb (normalize_limit limit) (length out))) [
        | inl t ↦ rw t (
          omega (arith, length-take (normalize_limit limit) out),
          omega (arith, length-take (normalize_limit limit) out),
        )
        | inr t ↦
            let short : length out ≤ normalize_limit limit = ground arith in
            rw t (short, omega arith)
      ]

  -- Every row of a page passes the filter of the query.
  pub list_page-All :
      (mine : A → Bool) (limit : ℕ) (cursor : Option Position) (rows : List A)
      → All (λ a. mine a ≡ true) (list_page o position mine limit cursor rows).items
  unfolding list_page page_of select
  list_page-All mine limit cursor rows =
      let P : A → Type 0 = λ a. mine a ≡ true in
      let out = take (limit + 1) (select o position mine cursor rows) in
      let own : All P out = All-take P (limit + 1) (select o position mine cursor rows) (
        All-order_by o position P (keep (is_after o position cursor) (keep mine rows))
          (All-keep P (is_after o position cursor) (keep mine rows) (All-kept mine rows))) in
      elim (Bool-cases (ltb limit (length out))) [
        | inl t ↦ rw t (All-take P limit out own)
        | inr t ↦ rw t own
      ]
