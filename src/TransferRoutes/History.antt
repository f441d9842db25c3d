-- ===== src/TransferRoutes/History.antt =====
-- app/routes/transfer_routes.py: `get_transaction_history`. A query parameter that is absent or does not
-- read as a number has its default, so the model takes the numbers; `status` is the text's value in
-- TransactionStatus, if it has one. A page of zero is a negative offset.
use bank_flow_digital_bankin.Base.{
  ℕ, zero, suc, Option, none, some, Bool, true, false, not, ◌&&◌, ◌||◌, List, [], ◌∷◌, ◌==◌, keep,
  any, map, min, if◌then◌else◌, ◌≡◌, ◌∙◌, ap, sym, refl, arith, all, inl, inr, Bool-cases,
}
use bank_flow_digital_bankin.Models.{
  Account, Transaction, TransactionStatus, pending, completed, failed, UserRole, is_admin,
}
use bank_flow_digital_bankin.Database.{Session, Action, Result, ok, err, pure, gets, ◌>>=◌}
use bank_flow_digital_bankin.Http.{
  Caller, Page, Body, Response, respond, refuse, account_id_not_found,
}
use bank_flow_digital_bankin.Listing.{paginate, newest_first, max_per_page}
use bank_flow_digital_bankin.Listing.Pages.{all-paginate, all-newest_first}

-- `request.args.get("type", "ALL").upper()`: any text but SENT and RECEIVED means both
pub data TypeFilter : Type 0 where
  sent received both : TypeFilter

pub record HistoryArgs : Type 0 where
  pub page : ℕ
  pub per_page : ℕ
  pub status_filter : Option TransactionStatus
  pub type_filter : TypeFilter
  pub target_account_id : Option ℕ

-- `user_account_ids`
abbrev pub own_ids : ℕ → List Account → List ℕ
own_ids k rows = map (λ (a : Account). a.account_id) (keep (λ (a : Account). a.user_id == k) rows)

abbrev pub in_ids : ℕ → List ℕ → Bool
in_ids k ids = any (λ j. j == k) ids

-- The filter on the two ends of a transaction.
abbrev pub matches_type : TypeFilter → (ℕ → Bool) → Transaction → Bool
matches_type sent p t = p t.sender_account_id
matches_type received p t = p t.receiver_account_id
matches_type both p t = p t.sender_account_id || p t.receiver_account_id

abbrev pub same_status : TransactionStatus → TransactionStatus → Bool
same_status pending pending = true
same_status completed completed = true
same_status failed failed = true
same_status _ _ = false

abbrev pub matches_status : Option TransactionStatus → Transaction → Bool
matches_status none t = true
matches_status (some st) t = same_status t.status st

-- `if target_account_id:` - None and zero are false
abbrev pub given_target : Option ℕ → Option ℕ
given_target none = none
given_target (some zero) = none
given_target (some (suc k)) = some (suc k)

-- The rows that pass the filters, newest first, one page of them.
unfoldable pub page_where : (Transaction → Bool) → HistoryArgs → Session → Result (Page Transaction)
page_where p q s = paginate q.page q.per_page (
    newest_first (λ (t : Transaction). t.created_at)
      (keep (λ t. p t && matches_status q.status_filter t) s.working.transactions))

abbrev pub empty_page : HistoryArgs → Page Transaction
empty_page q = record {
  items = [];
  page = q.page;
  per_page = min q.per_page max_per_page;
  total_items = 0;
  total_pages = 0;
}

-- What an admin and what a customer may list; `none` is the refusal of a foreign account.
abbrev pub admin_filter : HistoryArgs → Option ℕ → Transaction → Bool
admin_filter q none t = true
admin_filter q (some k) t = matches_type q.type_filter (λ j. j == k) t

abbrev pub customer_filter : List ℕ → HistoryArgs → Option ℕ → Option (Transaction → Bool)
customer_filter ids q none = some (matches_type q.type_filter (λ j. in_ids j ids))
customer_filter ids q (some k) =
    if not (in_ids k ids) then none else some (matches_type q.type_filter (λ j. j == k))

abbrev pub answer_history : Result (Page Transaction) → Result Response
answer_history (ok x) = ok (respond 200 (Body.history x))
answer_history (err e) = err e

abbrev pub list_where : Option (Transaction → Bool) → ℕ → HistoryArgs → Action Response
list_where none k q s = (ok (refuse 404 (account_id_not_found k)), s)
list_where (some p) k q s = (answer_history (page_where p q s), s)

abbrev pub target_number : Option ℕ → ℕ
target_number none = 0
target_number (some k) = k

abbrev pub customer_history : List ℕ → HistoryArgs → Action Response
customer_history [] q = pure (respond 200 (Body.history (empty_page q)))
customer_history (i ∷ ids) q =
    list_where (customer_filter (i ∷ ids) q (given_target q.target_account_id))
      (target_number q.target_account_id) q

unfoldable pub get_transaction_history : Caller → HistoryArgs → Action Response
unfolding page_where
get_transaction_history c q = do
  ids ← gets (λ s. own_ids c.user_id s.working.accounts)
  if is_admin c.role
      then list_where (some (admin_filter q (given_target q.target_account_id))) 0 q
      else customer_history ids q

-- The transaction has one of the accounts at one of its ends.
abbrev pub involves : List ℕ → Transaction → Bool
involves ids t = in_ids t.sender_account_id ids || in_ids t.receiver_account_id ids

module _ (inv : Transaction → Bool) where
  all-keep :
      (p : Transaction → Bool) (rows : List Transaction)
      → ((t : Transaction) → p t ≡ true → inv t ≡ true)
      → all inv (keep p rows) ≡ true
  all-keep p [] h = refl
  all-keep p (t ∷ rows) h = ground (arith, h t, all-keep p rows h)

  page_where-all :
      (p : Transaction → Bool) (q : HistoryArgs) (s : Session) {x : Page Transaction}
      → ((t : Transaction) → p t ≡ true → inv t ≡ true)
      → page_where p q s ≡ ok x
      → all inv x.items ≡ true
  unfolding page_where
  page_where-all p q s h e =
      all-paginate inv q.page q.per_page _
        (all-newest_first inv (λ (t : Transaction). t.created_at) _
          (all-keep (λ t. p t && matches_status q.status_filter t) s.working.transactions
            (λ t w. h t (ground (arith, w)))))
        e

  list_where-all :
      (o : Option (Transaction → Bool)) (k : ℕ) (q : HistoryArgs) (s : Session)
      {x : Page Transaction}
      → ((p : Transaction → Bool) → o ≡ some p → (t : Transaction) → p t ≡ true → inv t ≡ true)
      → (list_where o k q s).0 ≡ ok (respond 200 (Body.history x))
      → all inv x.items ≡ true
  list_where-all none k q s h e = absurd (ground (arith, e))
  list_where-all (some p) k q s {x} h e = go (page_where p q s) refl e
    where
      go :
          (w : Result (Page Transaction))
          → page_where p q s ≡ w
          → answer_history w ≡ ok (respond 200 (Body.history x))
          → all inv x.items ≡ true
      go (ok y) u g =
          let same : y.items ≡ x.items = ground (arith, g) in
          rw (← same) (page_where-all p q s {x = y} (h p refl) u)
      go (err f) u g = absurd (ground (arith, g))

-- A type filter on some of the ids passes only what involves them.
matches_type-involves :
    (ty : TypeFilter) (p : ℕ → Bool) (ids : List ℕ) (t : Transaction)
    → ((j : ℕ) → p j ≡ true → in_ids j ids ≡ true)
    → matches_type ty p t ≡ true
    → involves ids t ≡ true
matches_type-involves sent p ids t h e = ground (arith, h t.sender_account_id)
matches_type-involves received p ids t h e = ground (arith, h t.receiver_account_id)
matches_type-involves both p ids t h e =
    ground (arith, h t.sender_account_id, h t.receiver_account_id)

in_ids-eq : (j k : ℕ) (ids : List ℕ) → (j == k) ≡ true → in_ids k ids ≡ true → in_ids j ids ≡ true
in_ids-eq j k ids e h = let q : j ≡ k = ground arith in rw q h

filter-involves :
    (ids : List ℕ) (ty : TypeFilter) (f p : Transaction → Bool) (q : ℕ → Bool)
    → f ≡ matches_type ty q
    → f ≡ p
    → ((j : ℕ) → q j ≡ true → in_ids j ids ≡ true)
    → (t : Transaction) → p t ≡ true
    → involves ids t ≡ true
filter-involves ids ty f p q e u h t w =
    matches_type-involves ty q ids t h (ap (λ (g : Transaction → Bool). g t) (sym e ∙ u) ∙ w)

customer_filter-involves :
    (ids : List ℕ) (q : HistoryArgs) (o : Option ℕ) (p : Transaction → Bool)
    → customer_filter ids q o ≡ some p
    → (t : Transaction) → p t ≡ true
    → involves ids t ≡ true
customer_filter-involves ids q none p e =
    filter-involves ids q.type_filter (matches_type q.type_filter (λ j. in_ids j ids)) p
      (λ j. in_ids j ids) refl (cc e) (λ j h. h)
customer_filter-involves ids q (some k) p e = elim (Bool-cases (in_ids k ids)) [
  | inl own ↦
      filter-involves ids q.type_filter (matches_type q.type_filter (λ j. j == k)) p (λ j. j == k)
        refl (ground (arith, e, own)) (λ j h. in_ids-eq j k ids h own)
  | inr other ↦ absurd (ground (arith, e, other))
]

customer_history-own :
    (ids : List ℕ) (q : HistoryArgs) (s : Session) {x : Page Transaction}
    → (customer_history ids q s).0 ≡ ok (respond 200 (Body.history x))
    → all (involves ids) x.items ≡ true
customer_history-own [] q s {x} e = let h : x.items ≡ [] = ground (arith, e) in rw h refl
customer_history-own (i ∷ ids) q s e =
    list_where-all (involves (i ∷ ids))
      (customer_filter (i ∷ ids) q (given_target q.target_account_id))
      (target_number q.target_account_id) q s
      (customer_filter-involves (i ∷ ids) q (given_target q.target_account_id)) e

-- A page of a customer's history holds no transaction but those of the customer's own accounts,
-- whatever the query.
pub get_transaction_history-own :
    (c : Caller) (q : HistoryArgs) (s : Session) {x : Page Transaction}
    → c.role ≡ UserRole.customer
    → (get_transaction_history c q s).0 ≡ ok (respond 200 (Body.history x))
    → all (involves (own_ids c.user_id s.working.accounts)) x.items ≡ true
unfolding get_transaction_history
get_transaction_history-own c q s {x} role e =
    customer_history-own (own_ids c.user_id s.working.accounts) q s {x = x} (rw role at e)
