-- ===== src/Intent.antt =====
-- execution/models.py: the durable state of one intent, shared by the executor and the store.
pub mod Roundtrip
use jqe.Prelude.{Bool, true, false, Option, none, some, ◌>>=◌, if◌then◌else◌}
use jqe.Text.{Text}
use jqe.Number.{Num, float, Float, to_float}
use jqe.Broker.{OrderSide, side_value, buy, sell, ExecutionQuantity}
use jqe.Value.{Value, null, bool, num, str, side, object, chars, is_side}
use jqe.Policy.{ExecutionIntent}

pub data IntentRecordStatus : Type 0 where
  pending accepted rejected unknown : IntentRecordStatus

pub data ClaimState : Type 0 where
  claimed already_exists conflict : ClaimState

pub data ReservationState : Type 0 where
  acquired held unresolved_intent : ReservationState

-- The prices and amounts are those of REAL columns: an `int` is taken as its float.
pub record IntentRecord (F : Type 0) : Type 0 where
  pub idempotency_key : Text
  pub status : IntentRecordStatus
  pub order_id : Option Text
  pub transaction_id : Option Text
  pub symbol : Option Text
  pub side : Option OrderSide
  pub quantity : Option (ExecutionQuantity F)
  pub entry : Option F
  pub stop_loss : Option F
  pub take_profit : Option F
  pub authorized_risk_amount : Option F
  pub expected_loss_at_stop : Option F
  pub broker : Option Text
  pub account_id : Option Text

-- `IntentRecord(key, status, order_id, transaction_id)`
abbrev pub bare_record :
    {F : Type 0} → Text → IntentRecordStatus → Option Text → Option Text → IntentRecord F
bare_record key status order_id transaction_id = record {
  idempotency_key = key;
  status = status;
  order_id = order_id;
  transaction_id = transaction_id;
  symbol = none;
  side = none;
  quantity = none;
  entry = none;
  stop_loss = none;
  take_profit = none;
  authorized_risk_amount = none;
  expected_loss_at_stop = none;
  broker = none;
  account_id = none;
}

module _ {F : Type 0} where
  -- A value as a TEXT column.
  abbrev pub as_text : Value F → Option Text
  as_text (str t) = some t
  as_text (side s) = some (side_value s)
  as_text _ = none

  -- `intent.side if isinstance(intent.side, OrderSide) else OrderSide(intent.side)`, where `none`
  -- is the ValueError of the second case.
  unfoldable pub order_side : Value F → Option OrderSide
  order_side v = if is_side buy v then some buy else if is_side sell v then some sell else none

module _ {F : Type 0} ⦃o : Float F⦄ where
  -- A value as a REAL column.
  abbrev pub as_float : Value F → Option F
  as_float (num n) = some (to_float n)
  as_float _ = none

  -- `from_execution_intent`, where `none` is the ValueError of a side that is none.
  unfoldable pub from_execution_intent :
      ExecutionIntent F → IntentRecordStatus → Option Text → Option Text → Option (IntentRecord F)
  unfolding order_side
  from_execution_intent intent status broker account_id = elim (order_side intent.side) [
    | none ↦ none
    | some s ↦ some (record {
      idempotency_key = chars intent.idempotency_key;
      status = status;
      order_id = none;
      transaction_id = none;
      symbol = as_text intent.symbol;
      side = some s;
      quantity = intent.quantity;
      entry = as_float intent.entry;
      stop_loss = as_float intent.stop_loss;
      take_profit = as_float intent.take_profit;
      authorized_risk_amount = as_float intent.authorized_risk_amount;
      expected_loss_at_stop = as_float intent.expected_loss_at_stop;
      broker = broker;
      account_id = account_id;
    })
  ]

  -- `to_execution_intent`
  unfoldable pub to_execution_intent : IntentRecord F → Option (ExecutionIntent F)
  to_execution_intent r = do
    symbol ← r.symbol
    s ← r.side
    quantity ← r.quantity
    entry ← r.entry
    stop_loss ← r.stop_loss
    take_profit ← r.take_profit
    risk ← r.authorized_risk_amount
    loss ← r.expected_loss_at_stop
    some (record {
      symbol = str symbol;
      side = side s;
      quantity = some quantity;
      authorized_risk_amount = num (float risk);
      expected_loss_at_stop = num (float loss);
      quantity_risk_verified = bool true;
      entry = num (float entry);
      stop_loss = num (float stop_loss);
      take_profit = num (float take_profit);
      idempotency_key = str r.idempotency_key;
      risk_approved = bool true;
      magic_number = none;
      order_comment = none;
    })
