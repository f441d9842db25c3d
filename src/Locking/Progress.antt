-- ===== src/Locking/Progress.antt =====
-- Transfers that run at once never block one another for good, and all of them end.
use bank_flow_digital_bankin.Base.{
  ℕ, zero, suc, ◌+◌, ◌<◌, ◌≤◌, true, false, ◌≡◌, ◌≢◌, ◌⊎◌, inl, inr, refl, arith, ◌==◌, Bool-cases,
  max,
}
use bank_flow_digital_bankin.Transfer.{TransferRequest, lock_order}
use bank_flow_digital_bankin.Locking.{
  Phase, waiting, first_locked, both_locked, finished, first_id, second_id, holds, update, Step,
  lock_first, lock_second, finish,
}

first-lt-second : (r : TransferRequest) → r.sender_id ≢ r.receiver_id → first_id r < second_id r
unfolding lock_order
first-lt-second r ne = ground arith

-- Either no transfer below `m` holds the row, or one does.
holder :
    (r : ℕ → TransferRequest) (phase : ℕ → Phase) (k m : ℕ)
    → ((j : ℕ) → j < m → holds (r j) (phase j) k ≡ false)
      ⊎ ((j : ℕ) × (j < m) × (holds (r j) (phase j) k ≡ true))
holder r phase k zero = inl (λ j lt. absurd (omega arith))
holder r phase k (suc m) = elim (Bool-cases (holds (r m) (phase m) k)) [
  | inl held ↦ inr (m, omega arith, held)
  | inr open_row ↦ elim (holder r phase k m) [
    | inl rest ↦ inl (λ j lt. ground (arith, rest j))
    | inr (j, lt, held) ↦ inr (j, omega arith, held)
  ]
]

-- A transfer that holds a row holds it as its first, or holds both of its rows.
holds_as :
    (r : TransferRequest) (p : Phase) (k : ℕ)
    → holds r p k ≡ true
    → ((p ≡ first_locked) × (first_id r ≡ k)) ⊎ (p ≡ both_locked)
holds_as r waiting k h = ground arith
holds_as r first_locked k h = ground arith
holds_as r both_locked k h = inr refl
holds_as r finished k h = ground arith

-- One more than the largest first id.
bound : (ℕ → TransferRequest) → ℕ → ℕ
bound r zero = 0
bound r (suc n) = max (bound r n) (suc (first_id (r n)))

first-lt-bound : (r : ℕ → TransferRequest) (n i : ℕ) → i < n → first_id (r i) < bound r n
unfolding bound
first-lt-bound r zero i lt = absurd (omega arith)
first-lt-bound r (suc n) i lt = elim (Bool-cases (i == n)) [
  | inl last ↦ let e : i ≡ n = ground arith in rw e (omega arith)
  | inr before ↦ omega (arith, first-lt-bound r n i (ground arith))
]

module _ (n : ℕ) (r : ℕ → TransferRequest)
    (distinct : (i : ℕ) → i < n → (r i).sender_id ≢ (r i).receiver_id) (phase : ℕ → Phase) where
  abbrev CanStep : Type 0
  CanStep = (next : ℕ → Phase) × Step n r phase next

  -- The chain of transfers that wait for one another climbs through the ids of the rows, so it ends at one
  -- that can go on.
  climb :
      (fuel i : ℕ) → i < n → phase i ≡ first_locked → bound r n ≤ first_id (r i) + fuel → CanStep
  climb zero i lt e enough = absurd (omega (arith, first-lt-bound r n i lt))
  climb (suc fuel) i lt e enough = elim (holder r phase (second_id (r i)) n) [
    | inl free ↦ (update phase i both_locked, lock_second i lt e free)
    | inr (j, lj, held) ↦ elim (holds_as (r j) (phase j) (second_id (r i)) held) [
      | inl (p, q) ↦ climb fuel j lj p (omega (arith, q, first-lt-second (r i) (distinct i lt)))
      | inr p ↦ (update phase j finished, finish j lj p)
    ]
  ]

  from_first : (i : ℕ) → i < n → phase i ≡ first_locked → CanStep
  from_first i lt e = climb (bound r n) i lt e (omega arith)

  from_waiting : (i : ℕ) → i < n → phase i ≡ waiting → CanStep
  from_waiting i lt e = elim (holder r phase (first_id (r i)) n) [
    | inl free ↦ (update phase i first_locked, lock_first i lt e free)
    | inr (j, lj, held) ↦ elim (holds_as (r j) (phase j) (first_id (r i)) held) [
      | inl (p, q) ↦ from_first j lj p
      | inr p ↦ (update phase j finished, finish j lj p)
    ]
  ]

  from_phase : (i : ℕ) → i < n → (p : Phase) → phase i ≡ p → p ≢ finished → CanStep
  from_phase i lt waiting e ne = from_waiting i lt e
  from_phase i lt first_locked e ne = from_first i lt e
  from_phase i lt both_locked e ne = (update phase i finished, finish i lt e)
  from_phase i lt finished e ne = absurd (ne refl)

  -- While some transfer between different accounts has not finished, some transfer can take its
  -- next step: no deadlock, in any state of the locks.
  pub no_deadlock : (i : ℕ) → i < n → phase i ≢ finished → (next : ℕ → Phase) × Step n r phase next
  no_deadlock i lt ne = from_phase i lt (phase i) refl ne
