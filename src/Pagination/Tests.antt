-- ===== src/Pagination/Tests.antt =====
-- A run of the pages over a small table, whose ids are ordered by their code points.
use racetify_api.Base.{
  ℕ, pos, String, Bool, true, false, not, ◌≡◌, ◌≢◌, refl, ◌≤◌, List, [], ◌∷◌, none, length, ◌==◌,
  eq_iff, keep,
}
use racetify_api.Pagination.{
  Position, precedes, order_by, insert_row, select, page_of, list_page, read_pages, normalize_limit,
}
use racetify_api.Pagination.Complete.{read_pages-eq-order_by, list_page_bounds}
use racetify_api.Pagination.CodePoints.{text_order}

abbrev at : ℕ → String → Position
at time id = record { created_at = time; id = id }

differ : (a b : String) → (a == b) ≡ false → a ≢ b
differ a b h e = let t : (a == b) ≡ true = (eq_iff a b).1 e in cc

abbrev rows : List Position
rows = at 1 "b" ∷ at 3 "a" ∷ at 1 "c" ∷ []

abbrev not_c : Position → Bool
not_c p = not (p.id == "c")

abbrev own : Position → Position
own p = p

two_pages_test :
    read_pages text_order own (λ p. true) 2 rows 2 none ≡ at 3 "a" ∷ at 1 "c" ∷ at 1 "b" ∷ []
unfolding read_pages list_page page_of select order_by insert_row precedes
two_pages_test = refl

read_pages-eq-order_by_example :
    read_pages text_order own not_c (normalize_limit (pos 1)) rows 4 none
    ≡ order_by text_order own (keep not_c rows)
read_pages-eq-order_by_example =
    read_pages-eq-order_by text_order own not_c (pos 1) rows
      ((differ "b" "a" refl, (differ "b" "c" refl, tt)), ((differ "a" "c" refl, tt), (tt, tt)))

list_page_bounds_example :
    (length (list_page text_order own not_c (normalize_limit (pos 1)) none rows).items
      ≤ normalize_limit (pos 1))
    × (length (list_page text_order own not_c (normalize_limit (pos 1)) none rows).items ≤ 100)
list_page_bounds_example = list_page_bounds text_order own not_c (pos 1) none rows
