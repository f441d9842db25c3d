-- ===== src/Listing/Pages.antt =====
-- What a page holds.
use bank_flow_digital_bankin.Base.{
  ℕ, zero, suc, ◌*◌, Bool, true, List, [], ◌∷◌, ◌≡◌, refl, arith, all, length, take, drop, min,
}
use bank_flow_digital_bankin.Database.{Result, ok, err}
use bank_flow_digital_bankin.Http.{Page}
use bank_flow_digital_bankin.Listing.{
  insert_by_time, newest_first, page_count, window, page_of, paginate, max_per_page,
}

module _ {A : Type 0} (p : A → Bool) where
  all-take : (n : ℕ) (rows : List A) → all p rows ≡ true → all p (take n rows) ≡ true
  all-take zero rows h = refl
  all-take (suc n) [] h = refl
  all-take (suc n) (a ∷ rows) h = ground (arith, all-take n rows)

  all-drop : (n : ℕ) (rows : List A) → all p rows ≡ true → all p (drop n rows) ≡ true
  all-drop zero rows h = h
  all-drop (suc n) [] h = refl
  all-drop (suc n) (a ∷ rows) h = ground (arith, all-drop n rows)

  all-insert :
      (time : A → ℕ) (a : A) (rows : List A)
      → p a ≡ true
      → all p rows ≡ true
      → all p (insert_by_time time a rows) ≡ true
  all-insert time a [] h e = ground arith
  all-insert time a (b ∷ rows) h e = ground (arith, all-insert time a rows)

  pub all-newest_first :
      (time : A → ℕ) (rows : List A) → all p rows ≡ true → all p (newest_first time rows) ≡ true
  unfolding newest_first
  all-newest_first time [] h = refl
  all-newest_first time (a ∷ rows) h =
      ground (arith, all-newest_first time rows, all-insert time a (newest_first time rows))

  all-window :
      (page per_page : ℕ) (rows items : List A)
      → all p rows ≡ true
      → window page per_page rows ≡ ok items
      → all p items ≡ true
  all-window zero zero rows items h e = ground arith
  all-window zero (suc m) rows items h e = ground arith
  all-window (suc q) m rows items h e =
      ground (arith, all-take m (drop (q * m) rows), all-drop (q * m) rows)

  all-page_of :
      (page size : ℕ) (rows : List A) (pages : Result ℕ) (w : Result (List A)) {x : Page A}
      → ((items : List A) → w ≡ ok items → all p items ≡ true)
      → page_of page size rows pages w ≡ ok x
      → all p x.items ≡ true
  all-page_of page size rows (err f) w h e = ground arith
  all-page_of page size rows (ok n) (err f) h e = ground arith
  all-page_of page size rows (ok n) (ok items) {x} h e =
      let q : x.items ≡ items = ground arith in rw q (h items refl)

  -- A test that all rows pass is passed by all items of a page.
  pub all-paginate :
      (page per_page : ℕ) (rows : List A) {x : Page A}
      → all p rows ≡ true
      → paginate page per_page rows ≡ ok x
      → all p x.items ≡ true
  unfolding paginate
  all-paginate page per_page rows h e =
      all-page_of page (min per_page max_per_page) rows
        (page_count (length rows) (min per_page max_per_page))
        (window page (min per_page max_per_page) rows)
        (λ items q. all-window page (min per_page max_per_page) rows items h q) e
