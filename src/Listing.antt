-- ===== src/Listing.antt =====
-- The paginated listings of app/routes: newest rows first, and one page of them. Ties in time keep the
-- order of the table, which the program leaves to the database.
pub mod Pages
use bank_flow_digital_bankin.Base.{
  ℕ, zero, suc, ◌+◌, ◌-◌, ◌*◌, ◌/◌, Option, none, some, Bool, List, [], ◌∷◌, ◌==◌, leb, min, length,
  take, drop, if◌then◌else◌,
}
use bank_flow_digital_bankin.Database.{Result, ok, err, Error, zero_division, sql_error}
use bank_flow_digital_bankin.Http.{Page}

module _ {A : Type 0} (time : A → ℕ) where
  abbrev pub insert_by_time : A → List A → List A
  insert_by_time a [] = a ∷ []
  insert_by_time a (b ∷ rows) =
      if leb (time b) (time a) then a ∷ b ∷ rows else b ∷ insert_by_time a rows

  -- `order_by(desc(created_at))`
  unfoldable pub newest_first : List A → List A
  newest_first [] = []
  newest_first (a ∷ rows) = insert_by_time a (newest_first rows)

abbrev pub max_per_page : ℕ
max_per_page = 100

-- `(total_items + per_page - 1) // per_page if total_items > 0 else 0`
abbrev pub page_count : ℕ → ℕ → Result ℕ
page_count zero per_page = ok 0
page_count (suc n) zero = err zero_division
page_count (suc n) (suc m) = ok ((suc n + suc m - 1) / suc m)

-- `offset((page - 1) * per_page).limit(per_page)`; the database refuses a negative offset.
abbrev pub window : {A : Type 0} → ℕ → ℕ → List A → Result (List A)
window zero zero rows = ok []
window zero (suc m) rows = err sql_error
window (suc p) per_page rows = ok (take per_page (drop (p * per_page) rows))

abbrev pub page_of : {A : Type 0} → ℕ → ℕ → List A → Result ℕ → Result (List A) → Result (Page A)
page_of page per_page rows (err e) items = err e
page_of page per_page rows (ok pages) (err e) = err e
page_of page per_page rows (ok pages) (ok items) = ok (record {
  items = items;
  page = page;
  per_page = per_page;
  total_items = length rows;
  total_pages = pages;
})

-- One page of the ordered rows, for the `page` and `per_page` of the query.
unfoldable pub paginate : {A : Type 0} → ℕ → ℕ → List A → Result (Page A)
paginate page per_page rows =
    let size = min per_page max_per_page in
    page_of page size rows (page_count (length rows) size) (window page size rows)
