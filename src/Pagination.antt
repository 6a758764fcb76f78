-- ===== src/Pagination.antt =====
-- internal/platform/pagination/pagination.go: pages of a table by keyset, newest first; and the
-- query that every repository's List makes with it.
--
-- A table is ordered by (created_at, id), both descending. The order that Postgres has on ids is a
-- parameter (`IdOrder`). A cursor stands for the position of the last row of a page.
pub mod Order
pub mod Complete
pub mod CodePoints
mod Tests
use racetify_api.Base.{
  ℕ, zero, suc, ◌++◌, ◌+◌, ◌-◌, ltb, nat_eq, ℤ, pos, leb_ℤ, pos_part, String, Bool, true, false,
  not, ◌&&◌, ◌||◌, List, [], ◌∷◌, Option, none, some, ◌≡◌, if◌then◌else◌, keep, length, take,
  get_elem?,
}

abbrev pub default_page_limit : ℕ
default_page_limit = 20

abbrev pub max_page_limit : ℕ
max_page_limit = 100

unfoldable pub normalize_limit : ℤ → ℕ
normalize_limit limit =
    if leb_ℤ limit (pos 0)
    then default_page_limit
    else if not (leb_ℤ limit (pos max_page_limit))
    then max_page_limit
    else pos_part limit

-- Cursor.
pub record Position : Type 0 where
  pub created_at : ℕ
  pub id : String

-- The comparison of ids of the database.
pub record IdOrder : Type 0 where
  pub lt : String → String → Bool
  pub irrefl : (a : String) → lt a a ≡ false
  pub trans : (a b c : String) → lt a b ≡ true → lt b c ≡ true → lt a c ≡ true
  pub total : (a b : String) → lt a b ≡ false → lt b a ≡ false → a ≡ b

pub record Page {ℓ} (A : Type ℓ) : Type ℓ where
  pub items : List A
  pub next_cursor : Option Position

-- (q.created_at, q.id) < (p.created_at, p.id): the row at `p` is listed before the one at `q`.
unfoldable pub precedes : IdOrder → Position → Position → Bool
precedes o p q =
    ltb q.created_at p.created_at || (nat_eq q.created_at p.created_at && o.lt q.id p.id)

module _ {ℓ} {A : Type ℓ} (o : IdOrder) (position : A → Position) where
  unfoldable pub insert_row : A → List A → List A
  insert_row x [] = x ∷ []
  insert_row x (y ∷ ys) =
      let later = insert_row x ys in
      if precedes o (position x) (position y) then x ∷ y ∷ ys else y ∷ later

  -- ORDER BY created_at DESC, id DESC
  unfoldable pub order_by : List A → List A
  unfolding insert_row
  order_by [] = []
  order_by (x ∷ xs) = insert_row x (order_by xs)

  -- The WHERE clause of the cursor.
  abbrev pub is_after : Option Position → A → Bool
  is_after none row = true
  is_after (some c) row = precedes o c (position row)

  -- The rows of the query, without its LIMIT.
  unfoldable pub select : (A → Bool) → Option Position → List A → List A
  unfolding order_by
  select mine cursor rows = order_by (keep (is_after cursor) (keep mine rows))

  -- One row more than the page holds tells whether another page follows.
  unfoldable pub page_of : ℕ → List A → Page A
  page_of limit out =
      if ltb limit (length out)
      then record {
        items = take limit out;
        next_cursor = elim (get_elem? out (limit - 1)) [
          | none ↦ none
          | some last ↦ some (position last)
        ];
      }
      else record { items = out; next_cursor = none }

  unfoldable pub list_page : (A → Bool) → ℕ → Option Position → List A → Page A
  unfolding select page_of
  list_page mine limit cursor rows = page_of limit (take (limit + 1) (select mine cursor rows))

  -- The rows of a page, and what is read from its cursor on.
  abbrev pub read_on : Page A → (Position → List A) → List A
  read_on page next = elim page.next_cursor [ none ↦ page.items | some c ↦ page.items ++ next c ]

  -- What a client reads that follows the cursors, for at most so many pages.
  unfoldable pub read_pages : (A → Bool) → ℕ → List A → ℕ → Option Position → List A
  read_pages mine limit rows zero cursor = []
  read_pages mine limit rows (suc fuel) cursor =
      read_on (list_page mine limit cursor rows) (λ c. read_pages mine limit rows fuel (some c))
