-- ===== src/Samples.antt =====
-- Concrete values that the witnesses run on: one BUY of a Deriv demo account.
use jqe.Prelude.{ℕ, true, false, pos, Option, none, some, List, [], ◌∷◌}
use jqe.Text.{text}
use jqe.Number.{int, float}
use jqe.Number.Fixed.{Fixed, fixed, fixed_float}
use jqe.Broker.{buy, ExecutionQuantity, deriv_stake, OrderStatus}
use jqe.Value.{Value, bool, num, str, side}
use jqe.Policy.{ExecutionIntent, ExecutionContext, PositionSnapshot}
use jqe.Intent.{IntentRecord, pending}
use jqe.Store.{Store, claim_row, DateTime}
use jqe.Executor.{Surroundings, World, replied}

abbrev pub price : ℕ → Fixed
price n = fixed (pos n)

abbrev pub amount : ℕ → Value Fixed
amount n = num (float (price n))

abbrev pub stake : ExecutionQuantity Fixed
stake = record { value = price 10000; unit = deriv_stake }

abbrev pub buy_intent : ExecutionIntent Fixed
buy_intent = record {
  symbol = str (text "R_75");
  side = side buy;
  quantity = some stake;
  authorized_risk_amount = amount 2000;
  expected_loss_at_stop = amount 1000;
  quantity_risk_verified = bool true;
  entry = amount 100000;
  stop_loss = amount 99000;
  take_profit = amount 103000;
  idempotency_key = str (text "k1");
  risk_approved = bool true;
  magic_number = none;
  order_comment = none;
}

abbrev pub demo_context :
    Option (List (Option (PositionSnapshot Fixed)))
    → Option (List (Value Fixed))
    → ExecutionContext Fixed
demo_context positions keys = record {
  emergency_stop = bool false;
  daily_loss_percent = amount 500;
  max_daily_loss_percent = amount 3000;
  daily_trade_count = num (int (pos 1));
  max_daily_trades = num (int (pos 10));
  open_positions = positions;
  max_open_positions = num (int (pos 3));
  used_idempotency_keys = keys;
  execution_enabled = bool true;
  dry_run = bool false;
  broker = str (text "deriv_demo");
  environment = str (text "demo");
  account_id = str (text "VRTC1");
  approved_brokers = some (str (text "deriv_demo") ∷ []);
  approved_environments = some (str (text "demo") ∷ []);
  approved_accounts = some (str (text "VRTC1") ∷ []);
  approved_symbols = some (str (text "R_75") ∷ []);
  daily_state_authoritative = bool true;
}

abbrev pub quiet_context : ExecutionContext Fixed
quiet_context = demo_context (some []) (some [])

abbrev pub pending_record : IntentRecord Fixed
pending_record = record {
  idempotency_key = text "k1";
  status = pending;
  order_id = none;
  transaction_id = none;
  symbol = some (text "R_75");
  side = some buy;
  quantity = some stake;
  entry = some (price 100000);
  stop_loss = some (price 99000);
  take_profit = some (price 103000);
  authorized_risk_amount = some (price 2000);
  expected_loss_at_stop = some (price 1000);
  broker = some (text "deriv_demo");
  account_id = some (text "VRTC1");
}

abbrev pub empty_store : Store Fixed
empty_store = record { intents = []; reservations = []; halt = none }

-- A store with one pending intent.
abbrev pub pending_store : Store Fixed
pending_store = record empty_store {
  intents = claim_row pending_record (some (text "VRTC1")) 5 ∷ [];
}

abbrev pub new_world : World Fixed
new_world = record { store = empty_store; sent = []; elsewhere = [] }

-- A process alone, whose broker fills what it is given.
abbrev pub alone : Surroundings Fixed
alone = record {
  owner_id = text "me";
  lease_seconds = pos 30;
  clock = λ c. DateTime.aware 1000;
  utc_now = λ c. 1000;
  outage = λ c. false;
  meanwhile = λ c w. w;
  recovery_mode = false;
  context_provider = none;
  positions = some [];
  follow_up_positions = some [];
  reconciler = none;
  before_submit_raises = false;
  after_submit_raises = false;
  submit_order = λ o.
      replied (record { order_id = text "o1"; status = OrderStatus.filled; transaction_id = none });
}
