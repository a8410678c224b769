-- ===== src/Store/Rows.antt =====
-- execution/persistence.py: the rows of the two tables of `SQLiteIntentRecordStore`, and their
-- decoding. A stored time is the number of microseconds since the epoch.
use jqe.Prelude.{
  ◌≡◌, refl, ◌⊎◌, inl, inr, ℕ, Bool, true, false, ◌&&◌, Option, none, some, ◌>>=◌, ltb,
  if◌then◌else◌,
}
use jqe.Text.{Text, text, text_eq, nonblank}
use jqe.Number.{float, Float, zero_float}
use jqe.Broker.{
  OrderSide, buy, sell, side_value, ExecutionQuantity, ExecutionQuantityUnit, simulation_units,
  deriv_stake, mt5_lots, unit_value,
}
use jqe.Intent.{IntentRecord, IntentRecordStatus, pending, accepted, rejected, unknown}

-- What a statement or a method may raise: a ValueError, or an error of the database.
pub data Error : Type 0 where
  value_error database_error : Error

pub data Result (A : Type 0) : Type 0 where
  ok : A → Result A
  raised : Error → Result A

pub Result-cases :
    {A : Type 0} (r : Result A) → ((a : A) × (r ≡ ok a)) ⊎ ((e : Error) × (r ≡ raised e))
Result-cases (ok a) = inl (a, refl)
Result-cases (raised e) = inr (e, refl)

-- An aware datetime is given by its instant in UTC.
pub data DateTime : Type 0 where
  naive : ℕ → DateTime
  aware : ℕ → DateTime

-- A row of `intent_records`.
pub record Row (F : Type 0) : Type 0 where
  pub idempotency_key : Text
  pub state : Text
  pub order_id : Option Text
  pub transaction_id : Option Text
  pub created_at : ℕ
  pub updated_at : ℕ
  pub symbol : Option Text
  pub side : Option Text
  pub quantity_value : Option F
  pub quantity_unit : Option Text
  pub entry : Option F
  pub stop_loss : Option F
  pub take_profit : Option F
  pub authorized_risk_amount : Option F
  pub expected_loss_at_stop : Option F
  pub broker : Option Text
  pub account_id : Option Text
  pub recovery_outcome : Option Text
  pub reconciliation_state : Option Text
  pub recovery_reason : Option Text

-- A row of `execution_reservations`; `none` is a text that `fromisoformat` refuses.
pub record ReservationRow : Type 0 where
  pub scope : Text
  pub owner_id : Text
  pub acquired_at : Option DateTime
  pub expires_at : Option DateTime

-- A decoded reservation, at its two instants.
pub record ExecutionReservation : Type 0 where
  pub scope : Text
  pub owner_id : Text
  pub acquired_at : ℕ
  pub expires_at : ℕ

-- `status.value` and `IntentRecordStatus(...)`
abbrev pub status_value : IntentRecordStatus → Text
status_value pending = text "PENDING"
status_value accepted = text "ACCEPTED"
status_value rejected = text "REJECTED"
status_value unknown = text "UNKNOWN"

unfoldable pub status_of : Text → Option IntentRecordStatus
unfolding text_eq
status_of t =
    if text_eq t (text "PENDING")
    then some pending
    else if text_eq t (text "ACCEPTED")
    then some accepted
    else if text_eq t (text "REJECTED")
    then some rejected
    else if text_eq t (text "UNKNOWN")
    then some unknown
    else none

unfoldable pub side_of : Text → Option OrderSide
unfolding text_eq
side_of t =
    if text_eq t (text "BUY") then some buy else if text_eq t (text "SELL") then some sell else none

unfoldable pub unit_of : Text → Option ExecutionQuantityUnit
unfolding text_eq
unit_of t =
    if text_eq t (text "SIMULATION_UNITS")
    then some simulation_units
    else if text_eq t (text "DERIV_STAKE")
    then some deriv_stake
    else if text_eq t (text "MT5_LOTS")
    then some mt5_lots
    else none

-- `state in {PENDING, UNKNOWN}`
abbrev pub is_unresolved : IntentRecordStatus → Bool
is_unresolved pending = true
is_unresolved unknown = true
is_unresolved _ = false

-- A column that is None stays None; `none` at the outside is a ValueError.
unfoldable pub decode_side : Option Text → Option (Option OrderSide)
unfolding side_of
decode_side none = some none
decode_side (some t) = do s ← side_of t; some (some s)

module _ {F : Type 0} ⦃o : Float F⦄ where
  -- The validator of `ExecutionQuantity`: `gt=0, allow_inf_nan=False`.
  abbrev pub valid_value : F → Bool
  valid_value v = o.is_finite v && o.lt zero_float (float v)

  unfoldable pub decode_quantity : Option F → Option Text → Option (Option (ExecutionQuantity F))
  unfolding unit_of
  decode_quantity none unit = some none
  decode_quantity (some v) none = none
  decode_quantity (some v) (some t) = do
    u ← unit_of t
    if valid_value v then some (some (record { value = v; unit = u })) else none

  -- `_decode`, where `none` is its ValueError.
  unfoldable pub decode : Row F → Option (IntentRecord F)
  decode row = do
    quantity ← decode_quantity row.quantity_value row.quantity_unit
    side ← decode_side row.side
    status ← status_of row.state
    some (record {
      idempotency_key = row.idempotency_key;
      status = status;
      order_id = row.order_id;
      transaction_id = row.transaction_id;
      symbol = row.symbol;
      side = side;
      quantity = quantity;
      entry = row.entry;
      stop_loss = row.stop_loss;
      take_profit = row.take_profit;
      authorized_risk_amount = row.authorized_risk_amount;
      expected_loss_at_stop = row.expected_loss_at_stop;
      broker = row.broker;
      account_id = row.account_id;
    })

module _ {F : Type 0} ⦃o : Float F⦄ where
  -- A float that is bound to a column: SQLite stores a NaN as NULL.
  abbrev pub column : Option F → Option F
  column none = none
  column (some x) = if o.le (float x) (float x) then some x else none

  -- The values that the INSERT of a claim binds, at the time `now`. The value of a quantity is finite.
  unfoldable pub claim_row : IntentRecord F → Option Text → ℕ → Row F
  claim_row r account_id now = record {
    idempotency_key = r.idempotency_key;
    state = status_value r.status;
    order_id = r.order_id;
    transaction_id = r.transaction_id;
    created_at = now;
    updated_at = now;
    symbol = r.symbol;
    side = (do s ← r.side; some (side_value s));
    quantity_value = (do q ← r.quantity; some q.value);
    quantity_unit = (do q ← r.quantity; some (unit_value q.unit));
    entry = column r.entry;
    stop_loss = column r.stop_loss;
    take_profit = column r.take_profit;
    authorized_risk_amount = column r.authorized_risk_amount;
    expected_loss_at_stop = column r.expected_loss_at_stop;
    broker = r.broker;
    account_id = account_id;
    recovery_outcome = none;
    reconciliation_state = none;
    recovery_reason = none;
  }

-- `_decode_reservation`, where `none` is its ValueError.
unfoldable pub decode_reservation : ReservationRow → Option ExecutionReservation
decode_reservation row =
    let reserved = λ (a e : ℕ).
      if nonblank row.scope && nonblank row.owner_id && ltb a e
      then some
          (record { scope = row.scope; owner_id = row.owner_id; acquired_at = a; expires_at = e })
      else none in
    elim row.acquired_at [
      | some (aware a) ↦ elim row.expires_at [ some (aware e) ↦ reserved a e | _ ↦ none ]
      | _ ↦ none
    ]
