-- ===== src/Examples/Locks.antt =====
-- Two transfers in opposite directions that run at once.
use bank_flow_digital_bankin.Base.{ℕ, zero, suc, ◌<◌, none, true, false, ◌≡◌, ◌≢◌, refl, arith}
use bank_flow_digital_bankin.Base.Int.{pos}
use bank_flow_digital_bankin.Base.Decimal.{whole}
use bank_flow_digital_bankin.Transfer.{TransferRequest, lock_order}
use bank_flow_digital_bankin.Locking.{
  Phase, waiting, first_locked, finished, holds, update, first_id, Step, lock_first, Run, Reach,
  here, later,
}
use bank_flow_digital_bankin.Locking.Progress.{no_deadlock}
use bank_flow_digital_bankin.Locking.Termination.{transfers_can_finish}

abbrev request : ℕ → TransferRequest
request zero = record {
  sender_id = 1;
  receiver_id = 2;
  amount = whole (pos 5);
  idempotency_key = none;
}
request (suc i) = record {
  sender_id = 2;
  receiver_id = 1;
  amount = whole (pos 9);
  idempotency_key = none;
}

abbrev both_wait : ℕ → Phase
both_wait i = waiting

abbrev one_locked : ℕ → Phase
one_locked = update both_wait 0 first_locked

row_free : (j : ℕ) → j < 2 → holds (request j) (both_wait j) (first_id (request 0)) ≡ false
row_free j lt = refl

locked : Reach 2 request one_locked
locked = later here (lock_first 0 (omega arith) refl row_free)

distinct : (i : ℕ) → i < 2 → (request i).sender_id ≢ (request i).receiver_id
distinct zero lt = λ e. omega (arith, e)
distinct (suc i) lt = λ e. omega (arith, e)

holds_one : holds (request 0) (one_locked 0) 1 ≡ true
unfolding lock_order
holds_one = refl

unfinished_one : one_locked 1 ≢ finished
unfinished_one = λ e. ground arith

no_deadlock_example : (next : ℕ → Phase) × Step 2 request one_locked next
no_deadlock_example = no_deadlock 2 request distinct one_locked 1 (omega arith) unfinished_one

transfers_can_finish_example :
    (q : ℕ → Phase) × Run 2 request one_locked q × ((i : ℕ) → i < 2 → q i ≡ finished)
transfers_can_finish_example = transfers_can_finish 2 request distinct one_locked
