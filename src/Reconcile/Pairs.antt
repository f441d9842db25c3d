-- ===== src/Reconcile/Pairs.antt =====
-- The pairing of ledger entries with transactions: what the discrepancy count sees of a new entry, and
-- of a new pair.
use bank_flow_digital_bankin.Base.{
  ℕ, ◌+◌, ◌<◌, ◌≤◌, Option, none, some, false, List, [], ◌∷◌, ◌++◌, ◌≡◌, refl, keep,
  keep-append_true, keep-append_false, arith,
}
use bank_flow_digital_bankin.Base.Rows.{Below}
use bank_flow_digital_bankin.Models.{Transaction, LedgerEntry, debit, credit, is_completed}
use bank_flow_digital_bankin.Database.{Db}
use bank_flow_digital_bankin.Reconcile.{
  links, tx_discrepancy, count_discrepancies, transfer_discrepancies,
}

-- An entry that belongs to a transaction belongs to one that was given its key before.
abbrev pub LinkBelow : ℕ → Option ℕ → Type 0
LinkBelow n none = Unit
LinkBelow n (some j) = j < n

abbrev pub LinksBelow : ℕ → List LedgerEntry → Type 0
LinksBelow n [] = Unit
LinksBelow n (e ∷ es) = LinkBelow n e.transaction_id × LinksBelow n es

-- Every transaction agrees with its entries.
abbrev pub Paired : List Transaction → List LedgerEntry → Type 0
Paired [] es = Unit
Paired (t ∷ ts) es = (tx_discrepancy t es ≡ 0) × Paired ts es

pub LinksBelow-append :
    (n : ℕ) (es : List LedgerEntry) (e : LedgerEntry)
    → LinksBelow n es
    → LinkBelow n e.transaction_id
    → LinksBelow n (es ++ e ∷ [])
LinksBelow-append n [] e h p = (p, tt)
LinksBelow-append n (d ∷ es) e h p = (h.0, LinksBelow-append n es e h.1 p)

LinkBelow-mono : (n m : ℕ) (o : Option ℕ) → n ≤ m → LinkBelow n o → LinkBelow m o
LinkBelow-mono n m none le h = tt
LinkBelow-mono n m (some j) le h = omega arith

pub LinksBelow-mono : (n m : ℕ) (es : List LedgerEntry) → n ≤ m → LinksBelow n es → LinksBelow m es
LinksBelow-mono n m [] le h = tt
LinksBelow-mono n m (e ∷ es) le h =
    (LinkBelow-mono n m e.transaction_id le h.0, LinksBelow-mono n m es le h.1)

links-LinkBelow :
    (n : ℕ) (e : LedgerEntry) (o : Option ℕ)
    → e.transaction_id ≡ o
    → LinkBelow n o
    → links n e ≡ false
links-LinkBelow n e none q h = ground arith
links-LinkBelow n e (some j) q h = ground arith

keep-LinksBelow : (n : ℕ) (es : List LedgerEntry) → LinksBelow n es → keep (links n) es ≡ []
keep-LinksBelow n [] h = refl
keep-LinksBelow n (e ∷ es) h =
    ground (arith, links-LinkBelow n e e.transaction_id refl h.0, keep-LinksBelow n es h.1)

-- An entry of another transaction, or of none, changes no pairing.
tx_discrepancy-append_other :
    (t : Transaction) (es : List LedgerEntry) (e : LedgerEntry)
    → links t.transaction_id e ≡ false
    → tx_discrepancy t (es ++ e ∷ []) ≡ tx_discrepancy t es
unfolding tx_discrepancy
tx_discrepancy-append_other t es e h = rw (keep-append_false (links t.transaction_id) es e h)

pub Paired-append_free :
    (ts : List Transaction) (es : List LedgerEntry) (e : LedgerEntry)
    → e.transaction_id ≡ none
    → Paired ts es
    → Paired ts (es ++ e ∷ [])
Paired-append_free [] es e q h = tt
Paired-append_free (t ∷ ts) es e q h =
    (rw (tx_discrepancy-append_other t es e (ground arith)) h.0, Paired-append_free ts es e q h.1)

-- The pair of a new transaction leaves the old ones as they were.
Paired-append_old :
    (n : ℕ) (ts : List Transaction) (es : List LedgerEntry) (e : LedgerEntry)
    → Below (λ (t : Transaction). t.transaction_id) n ts
    → e.transaction_id ≡ some n
    → Paired ts es
    → Paired ts (es ++ e ∷ [])
Paired-append_old n [] es e below q h = tt
Paired-append_old n (t ∷ ts) es e below q h =
    let old = below.0 in
    (
      rw (tx_discrepancy-append_other t es e (ground arith)) h.0,
      Paired-append_old n ts es e below.1 q h.1,
    )

Paired-append_tx :
    (ts : List Transaction) (es : List LedgerEntry) (t : Transaction)
    → Paired ts es
    → tx_discrepancy t es ≡ 0
    → Paired (ts ++ t ∷ []) es
Paired-append_tx [] es t h p = (p, tt)
Paired-append_tx (u ∷ ts) es t h p = (h.0, Paired-append_tx ts es t h.1 p)

-- A debit and a credit of the amount of a transaction that had no entries.
tx_discrepancy-pair :
    (t : Transaction) (es : List LedgerEntry) (d c : LedgerEntry)
    → LinksBelow t.transaction_id es
    → d.transaction_id ≡ some t.transaction_id
    → c.transaction_id ≡ some t.transaction_id
    → d.entry_type ≡ debit
    → c.entry_type ≡ credit
    → d.amount ≡ t.amount
    → c.amount ≡ t.amount
    → tx_discrepancy t ((es ++ d ∷ []) ++ c ∷ []) ≡ 0
unfolding tx_discrepancy
tx_discrepancy-pair t es d c below qd qc kd kc ad ac =
    rw
      (
        keep-append_true (links t.transaction_id) (es ++ d ∷ []) c (ground arith),
        keep-append_true (links t.transaction_id) es d (ground arith),
        keep-LinksBelow t.transaction_id es below,
      )
      (ground arith)

pub Paired-append_pair :
    (ts : List Transaction) (es : List LedgerEntry) (t : Transaction) (d c : LedgerEntry)
    → Below (λ (t : Transaction). t.transaction_id) t.transaction_id ts
    → LinksBelow t.transaction_id es
    → Paired ts es
    → d.transaction_id ≡ some t.transaction_id
    → c.transaction_id ≡ some t.transaction_id
    → d.entry_type ≡ debit
    → c.entry_type ≡ credit
    → d.amount ≡ t.amount
    → c.amount ≡ t.amount
    → Paired (ts ++ t ∷ []) ((es ++ d ∷ []) ++ c ∷ [])
Paired-append_pair ts es t d c old below h qd qc kd kc ad ac =
    Paired-append_tx ts ((es ++ d ∷ []) ++ c ∷ []) t
      (Paired-append_old t.transaction_id ts (es ++ d ∷ []) c old qc
        (Paired-append_old t.transaction_id ts es d old qd h))
      (tx_discrepancy-pair t es d c below qd qc kd kc ad ac)

count_discrepancies-Paired :
    (ts : List Transaction) (es : List LedgerEntry) (found : ℕ)
    → Paired ts es
    → count_discrepancies found (keep (λ (t : Transaction). is_completed t.status) ts) es ≡ found
unfolding count_discrepancies
count_discrepancies-Paired [] es found h = refl
count_discrepancies-Paired (t ∷ ts) es found h = ground (
  arith,
  count_discrepancies-Paired ts es found h.1,
  count_discrepancies-Paired ts es (found + tx_discrepancy t es) h.1,
)

pub transfer_discrepancies-Paired :
    (d : Db) → Paired d.transactions d.ledger_entries → transfer_discrepancies d ≡ 0
unfolding transfer_discrepancies
transfer_discrepancies-Paired d h = count_discrepancies-Paired d.transactions d.ledger_entries 0 h
