-- ===== src/Transfer/EmptyKey.antt =====
-- The empty idempotency key: `if idempotency_key:` passes it over, the unique column does not.
use bank_flow_digital_bankin.Base.{none, some, true, false, ◌≡◌, ◌≢◌, inl, inr, refl}
use bank_flow_digital_bankin.Models.{Transaction}
use bank_flow_digital_bankin.Database.{Session, ok, key_free}
use bank_flow_digital_bankin.Database.Sound.{sound}
use bank_flow_digital_bankin.Database.Unique.{unique_keys-last}
use bank_flow_digital_bankin.Invariant.{IsValid}
use bank_flow_digital_bankin.Transfer.{TransferRequest, existing_transfer, execute_transfer}
use bank_flow_digital_bankin.Transfer.Booking.{tx, booked_db}
use bank_flow_digital_bankin.Transfer.Cases.{Booked, transfer_cases}

-- The lookup by key passes the empty key over.
existing_transfer-empty : (s : Session) → existing_transfer (some "") s.working ≡ none
unfolding existing_transfer
existing_transfer-empty s = refl

-- A booking's key was free in the unique column.
pub Booked-free :
    (r : TransferRequest) (s : Session)
    → Booked r s
    → key_free r.idempotency_key s.working.transactions ≡ true
Booked-free r s b =
    unique_keys-last s.working.transactions (tx r b.sender b.receiver s)
      (sound (booked_db r b.sender b.receiver s) b.checked).keys_unique

-- In a valid session that has stored one transfer with the empty key, every further one is
-- refused: it is neither replayed nor booked, whatever its parameters, and nothing is stored.
pub empty_key_blocks :
    (r : TransferRequest) (s : Session)
    → IsValid s
    → r.idempotency_key ≡ some ""
    → key_free (some "") s.working.transactions ≡ false
    → ((t : Transaction) → (execute_transfer r s).0 ≢ ok t)
      × ((execute_transfer r s).1.committed ≡ s.committed)
empty_key_blocks r s v empty taken = elim (transfer_cases r s v) [
  | inl b ↦ absurd (cc (Booked-free r s b))
  | inr (inl k) ↦ absurd (cc (k.found, existing_transfer-empty s))
  | inr (inr n) ↦ (λ t h. cc (n.raised, h), n.committed)
]
