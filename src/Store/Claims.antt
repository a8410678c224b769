-- ===== src/Store/Claims.antt =====
-- Claims of `SQLiteIntentRecordStore` that are granted.
use jqe.Prelude.{ℕ, ◌≡◌, refl, true, false, Option, some, arith, is_some}
use jqe.Text.{Text}
use jqe.Text.Laws.{text_eq_refl}
use jqe.Number.{Float}
use jqe.Intent.{IntentRecord, claimed}
use jqe.Store.{
  Store, DateTime, ok, find_row, try_claim_under_reservation, claim_at, insert_claim, claim_row,
  account_or,
}
use jqe.Store.Lookup.{find_row-append}

module _ {F : Type 0} ⦃o : Float F⦄ where
  insert_claim_fresh :
      (r : IntentRecord F) (account_id : Option Text) (now : ℕ) (s : Store F)
      → (insert_claim r account_id now s).0 ≡ ok claimed
      → (is_some (find_row r.idempotency_key s.intents) ≡ false)
        × (is_some (find_row r.idempotency_key (insert_claim r account_id now s).1.intents) ≡ true)
  unfolding insert_claim claim_row
  insert_claim_fresh r account_id now s h = ground (
    arith,
    find_row-append r.idempotency_key s.intents (claim_row r account_id now),
    text_eq_refl r.idempotency_key,
  )

  -- A claim that reports success is the INSERT, at an aware instant, under a reservation that the
  -- owner holds and that has not expired.
  pub claim_granted :
      (r : IntentRecord F) (scope owner_id : Text) (clock : DateTime) (s : Store F)
      → (try_claim_under_reservation r scope owner_id clock s).0 ≡ ok claimed
      → (now : ℕ) × (clock ≡ DateTime.aware now)
        × (try_claim_under_reservation r scope owner_id clock s
            ≡ insert_claim r (some (account_or r.account_id scope)) now s)
  unfolding try_claim_under_reservation claim_at
  claim_granted r scope owner_id (DateTime.naive t) s h = absurd (ground arith)
  claim_granted r scope owner_id (DateTime.aware now) s h = (now, refl, ground arith)

  pub claim_fresh :
      (r : IntentRecord F) (scope owner_id : Text) (clock : DateTime) (s : Store F)
      → (try_claim_under_reservation r scope owner_id clock s).0 ≡ ok claimed
      → (is_some (find_row r.idempotency_key s.intents) ≡ false)
        × (is_some (
              find_row r.idempotency_key
                (try_claim_under_reservation r scope owner_id clock s).1.intents)
            ≡ true)
  claim_fresh r scope owner_id clock s h =
      let (now, _, inserted) = claim_granted r scope owner_id clock s h in
      rw inserted
        (insert_claim_fresh r (some (account_or r.account_id scope)) now s (rw inserted at h))
