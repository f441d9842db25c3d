-- ===== src/Locking.antt =====
-- Transfers that run at once (app/services/transfer_service.py, steps 3 to 12): each takes the row
-- locks of its two accounts by SELECT ... FOR UPDATE in the order of `lock_order`, and holds them to the
-- end of its database transaction. Rows that do not exist, the locks that other statements take and
-- timeouts are left out.
pub mod Progress
pub mod Termination
use bank_flow_digital_bankin.Base.{
  ℕ, zero, suc, ◌+◌, ◌<◌, Bool, true, false, ◌||◌, ◌==◌, ◌≡◌, ◌≢◌, if◌then◌else◌,
}
use bank_flow_digital_bankin.Transfer.{TransferRequest, lock_order}

-- Where a transfer stands: before its first lock, between the two, under both, and after its commit
-- or rollback.
pub data Phase : Type 0 where
  waiting first_locked both_locked finished : Phase

abbrev pub first_id : TransferRequest → ℕ
first_id r = (lock_order r.sender_id r.receiver_id).0

abbrev pub second_id : TransferRequest → ℕ
second_id r = (lock_order r.sender_id r.receiver_id).1

-- The rows that a transfer has locked.
abbrev pub holds : TransferRequest → Phase → ℕ → Bool
holds r waiting k = false
holds r first_locked k = first_id r == k
holds r both_locked k = first_id r == k || second_id r == k
holds r finished k = false

abbrev pub update : (ℕ → Phase) → ℕ → Phase → ℕ → Phase
update f i p j = if i == j then p else f j

-- `n` transfers, of which the `i`th has the request `r i`. No request is from an account to itself: that
-- one is refused before it locks.
module _ (n : ℕ) (r : ℕ → TransferRequest) where
  -- No transfer has locked the row.
  abbrev pub Free : (ℕ → Phase) → ℕ → Type 0
  Free phase k = (j : ℕ) → j < n → holds (r j) (phase j) k ≡ false

  -- One statement of one transfer. A lock is granted when the row is free.
  pub data Step (phase : ℕ → Phase) : (ℕ → Phase) → Type 0 where
    lock_first :
        (i : ℕ)
        → i < n
        → phase i ≡ waiting
        → Free phase (first_id (r i))
        → Step phase (update phase i first_locked)
    lock_second :
        (i : ℕ)
        → i < n
        → phase i ≡ first_locked
        → Free phase (second_id (r i))
        → Step phase (update phase i both_locked)
    finish : (i : ℕ) → i < n → phase i ≡ both_locked → Step phase (update phase i finished)

  -- A schedule from one state to another.
  pub data Run (start : ℕ → Phase) : (ℕ → Phase) → Type 0 where
    here : Run start start
    later : {p q : ℕ → Phase} → Run start p → Step p q → Run start q

  -- A schedule of transfers that have not begun.
  abbrev pub Reach : (ℕ → Phase) → Type 0
  Reach = Run (λ _. waiting)
