-- ===== src/Locking/Termination.antt =====
-- How long a schedule of transfers can be, and how it can end.
use bank_flow_digital_bankin.Base.{
  ℕ, zero, suc, ◌+◌, ◌<◌, ◌≤◌, ◌≡◌, ◌≢◌, ◌⊎◌, inl, inr, refl, arith, ◌==◌, Bool-cases,
}
use bank_flow_digital_bankin.Transfer.{TransferRequest}
use bank_flow_digital_bankin.Locking.{
  Phase, waiting, first_locked, both_locked, finished, update, Step, lock_first, lock_second,
  finish, Run, here, later,
}
use bank_flow_digital_bankin.Locking.Progress.{no_deadlock}

-- The steps that a transfer has left.
abbrev pub remaining : Phase → ℕ
remaining waiting = 3
remaining first_locked = 2
remaining both_locked = 1
remaining finished = 0

abbrev pub total_remaining : ℕ → (ℕ → Phase) → ℕ
total_remaining zero phase = 0
total_remaining (suc n) phase = total_remaining n phase + remaining (phase n)

total-update_beyond :
    (n : ℕ) (f : ℕ → Phase) (i : ℕ) (p : Phase)
    → n ≤ i
    → total_remaining n (update f i p) ≡ total_remaining n f
total-update_beyond zero f i p le = refl
total-update_beyond (suc n) f i p le = ground (arith, total-update_beyond n f i p)

total-update :
    (n : ℕ) (f : ℕ → Phase) (i : ℕ) (p : Phase)
    → i < n
    → total_remaining n (update f i p) + remaining (f i) ≡ total_remaining n f + remaining p
total-update zero f i p lt = absurd (omega arith)
total-update (suc n) f i p lt = elim (Bool-cases (i == n)) [
  | inl last ↦ let e : i ≡ n = ground arith in ground (arith, total-update_beyond n f i p)
  | inr before ↦ ground (arith, total-update n f i p)
]

-- Every step brings the end nearer by one.
Step-remaining :
    (n : ℕ) (r : ℕ → TransferRequest) (p q : ℕ → Phase)
    → Step n r p q
    → total_remaining n p ≡ suc (total_remaining n q)
Step-remaining n r p q (lock_first i lt e free) = ground (arith, total-update n p i first_locked lt)
Step-remaining n r p q (lock_second i lt e free) = ground (arith, total-update n p i both_locked lt)
Step-remaining n r p q (finish i lt e) = ground (arith, total-update n p i finished lt)

remaining-zero : (p : Phase) → remaining p ≡ 0 → p ≡ finished
remaining-zero p h = ground arith

-- Either every transfer below `m` has finished, or one has not.
unfinished :
    (phase : ℕ → Phase) (m : ℕ)
    → ((i : ℕ) → i < m → phase i ≡ finished) ⊎ ((i : ℕ) × (i < m) × (phase i ≢ finished))
unfinished phase zero = inl (λ i lt. absurd (omega arith))
unfinished phase (suc m) = elim (Bool-cases (remaining (phase m) == 0)) [
  | inr more ↦ inr (m, omega arith, λ e. ground arith)
  | inl done ↦ elim (unfinished phase m) [
    | inl rest ↦ inl (λ i lt. ground (arith, rest i, remaining-zero (phase m)))
    | inr (i, lt, ne) ↦ inr (i, omega arith, ne)
  ]
]

remaining-le-total :
    (n i : ℕ) (phase : ℕ → Phase) → i < n → remaining (phase i) ≤ total_remaining n phase
remaining-le-total zero i phase lt = absurd (omega arith)
remaining-le-total (suc n) i phase lt = elim (Bool-cases (i == n)) [
  | inl last ↦ let e : i ≡ n = ground arith in rw e (omega arith)
  | inr before ↦ omega (arith, remaining-le-total n i phase (ground arith))
]

module _ (n : ℕ) (r : ℕ → TransferRequest)
    (distinct : (i : ℕ) → i < n → (r i).sender_id ≢ (r i).receiver_id) (p : ℕ → Phase) where
  abbrev Finishes : Type 0
  Finishes = (q : ℕ → Phase) × Run n r p q × ((i : ℕ) → i < n → q i ≡ finished)

  go_on : (fuel : ℕ) (u : ℕ → Phase) → Run n r p u → total_remaining n u ≤ fuel → Finishes
  go_on zero u h le =
      (u, h, λ i lt. remaining-zero (u i) (omega (arith, remaining-le-total n i u lt)))
  go_on (suc fuel) u h le = elim (unfinished u n) [
    | inl all_done ↦ (u, h, all_done)
    | inr (i, lt, ne) ↦
        let (q, st) = no_deadlock n r distinct u i lt ne in
        go_on fuel q (later h st) (omega (arith, Step-remaining n r u q st))
  ]

-- From any state of transfers between different accounts some schedule leads to one in which every
-- transfer has finished.
pub transfers_can_finish :
    (n : ℕ) (r : ℕ → TransferRequest)
    → ((i : ℕ) → i < n → (r i).sender_id ≢ (r i).receiver_id)
    → (p : ℕ → Phase) → (q : ℕ → Phase) × Run n r p q × ((i : ℕ) → i < n → q i ≡ finished)
transfers_can_finish n r distinct p =
    go_on n r distinct p (total_remaining n p) p here (omega arith)
