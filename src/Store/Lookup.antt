-- ===== src/Store/Lookup.antt =====
-- A row that is looked up after an INSERT or an UPDATE, and what the encodings give back.
use jqe.Prelude.{
  ℕ, ◌≡◌, refl, true, Option, none, some, List, [], ◌∷◌, ◌++◌, ◌>>=◌, arith, if◌then◌else◌, is_some,
}
use jqe.Text.{Text, text_eq}
use jqe.Text.Laws.{text_eq_iff}
use jqe.Number.{Float, float}
use jqe.Broker.{
  ExecutionQuantity, OrderSide, side_value, ExecutionQuantityUnit, unit_value, buy, sell,
}
use jqe.Intent.{IntentRecord, IntentRecordStatus, pending, accepted, rejected, unknown}
use jqe.Store.{
  Row, status_value, status_of, side_of, unit_of, find_row, update_row, has_key, decode,
  decode_quantity, decode_side, claim_row, column, valid_value,
}

pub status_of-status_value : (s : IntentRecordStatus) → status_of (status_value s) ≡ some s
unfolding status_of
status_of-status_value pending = refl
status_of-status_value accepted = refl
status_of-status_value rejected = refl
status_of-status_value unknown = refl

pub side_of-side_value : (s : OrderSide) → side_of (side_value s) ≡ some s
unfolding side_of
side_of-side_value buy = refl
side_of-side_value sell = refl

pub unit_of-unit_value : (u : ExecutionQuantityUnit) → unit_of (unit_value u) ≡ some u
unfolding unit_of
unit_of-unit_value ExecutionQuantityUnit.simulation_units = refl
unit_of-unit_value ExecutionQuantityUnit.deriv_stake = refl
unit_of-unit_value ExecutionQuantityUnit.mt5_lots = refl

module _ {F : Type 0} where
  -- The row that a lookup of `k` finds in `xs` and then `r`.
  pub find_row-append :
      (k : Text) (xs : List (Row F)) (r : Row F)
      → find_row k (xs ++ r ∷ [])
        ≡ (if is_some (find_row k xs) then find_row k xs else if has_key k r then some r else none)
  unfolding find_row
  find_row-append k [] r = refl
  find_row-append k (x ∷ xs) r = ground (arith, find_row-append k xs r)

  -- `f` leaves the primary key alone.
  abbrev pub KeepsKey : (Row F → Row F) → Type 0
  KeepsKey f = (r : Row F) → (f r).idempotency_key ≡ r.idempotency_key

  abbrev pub changed : (Row F → Row F) → Option (Row F) → Option (Row F)
  changed f none = none
  changed f (some r) = some (f r)

  pub find_row-update_row :
      (k j : Text) (f : Row F → Row F) (rs : List (Row F))
      → KeepsKey f
      → find_row k (update_row j f rs)
        ≡ (if text_eq j k then changed f (find_row k rs) else find_row k rs)
  unfolding find_row update_row
  find_row-update_row k j f [] keeps = ground arith
  find_row-update_row k j f (r ∷ rs) keeps = ground (
    arith,
    keeps r,
    text_eq_iff r.idempotency_key j,
    text_eq_iff r.idempotency_key k,
    text_eq_iff j k,
    find_row-update_row k j f rs keeps,
  )

  pub find_row-key :
      (k : Text) (rs : List (Row F)) (r : Row F) → find_row k rs ≡ some r → r.idempotency_key ≡ k
  unfolding find_row
  find_row-key k [] r h = cc
  find_row-key k (x ∷ xs) r h = ground (arith, find_row-key k xs r, text_eq_iff x.idempotency_key k)

decode_side-encode :
    (side : Option OrderSide) → decode_side (do s ← side; some (side_value s)) ≡ some side
unfolding decode_side
decode_side-encode none = refl
decode_side-encode (some s) = rw side_of-side_value

module _ {F : Type 0} ⦃o : Float F⦄ where
  -- The quantity, if there is one, passes the validator of its class.
  abbrev pub ValidQuantity : Option (ExecutionQuantity F) → Type 0
  ValidQuantity none = Unit
  ValidQuantity (some q) = valid_value q.value ≡ true

  decode_quantity-encode :
      (quantity : Option (ExecutionQuantity F))
      → ValidQuantity quantity
      → decode_quantity (do q ← quantity; some q.value) (do q ← quantity; some (unit_value q.unit))
        ≡ some quantity
  unfolding decode_quantity
  decode_quantity-encode none valid = refl
  decode_quantity-encode (some q) valid = rw unit_of-unit_value (rw valid)

  -- A float as SQLite gives it back: a NaN, which is the float that is not at most itself, as None.
  abbrev pub without_nan : Option F → Option F
  without_nan none = none
  without_nan (some x) = if o.le (float x) (float x) then some x else none

  -- The record as a claim stores it.
  abbrev pub stored : IntentRecord F → IntentRecord F
  stored r = record r {
    entry = without_nan r.entry;
    stop_loss = without_nan r.stop_loss;
    take_profit = without_nan r.take_profit;
    authorized_risk_amount = without_nan r.authorized_risk_amount;
    expected_loss_at_stop = without_nan r.expected_loss_at_stop;
  }

  column_lem : (x : Option F) → column x ≡ without_nan x
  column_lem none = refl
  column_lem (some x) = refl

  -- Decoding the row of a claim gives the record as it is stored, with the account of the claim.
  pub decode-claim_row :
      (r : IntentRecord F) (account_id : Option Text) (now : ℕ)
      → ValidQuantity r.quantity
      → decode (claim_row r account_id now) ≡ some (record (stored r) { account_id = account_id })
  unfolding decode claim_row
  decode-claim_row r account_id now valid =
      rw
        (
          column_lem r.entry,
          column_lem r.stop_loss,
          column_lem r.take_profit,
          column_lem r.authorized_risk_amount,
          column_lem r.expected_loss_at_stop,
        )
        (rw (decode_quantity-encode r.quantity valid)
          (rw (decode_side-encode r.side) (rw (status_of-status_value r.status))))
