-- ===== src/Safety/Rows.antt =====
-- execution/safety.py: `SQLiteExecutionSafetyStore`. Either table has one row at most, and a stored
-- time is the number of microseconds since the epoch.
use jqe.Prelude.{
  ℕ, Bool, true, false, not, Option, none, some, ℤ, List, [], ◌∷◌, ◌++◌, ◌>>=◌, filter, ◌==◌,
  if◌then◌else◌,
}
use jqe.Text.{Text, nonempty}
use jqe.Number.{Float}
use jqe.Store.{DateTime, naive, aware, Result, ok, raised, value_error}
use jqe.Safety.Data.{
  ExecutionAuthorization, stop_value, stop_of, mode_value, mode_of, authority_value, authority_of,
  authorization_value, authorization_of, ExecutionSafetySnapshot, valid_snapshot,
  RiskAuthorizationSnapshot, valid_risk,
}

-- A row of `execution_safety_snapshot`.
pub record SafetyRow : Type 0 where
  pub schema_version : ℕ
  pub observed_at : ℕ
  pub emergency_stop_state : Text
  pub execution_mode : Text
  pub broker : Text
  pub environment : Text
  pub durable_executor_enabled : ℕ
  pub daily_state_authority : Text
  pub unresolved_intent_count : ℤ
  pub unresolved_intent_blocked : ℕ
  pub execution_authorization : Text
  pub reason_codes : Text

-- A row of `risk_authorization_snapshot`.
pub record RiskRow (F : Type 0) : Type 0 where
  pub schema_version : ℕ
  pub observed_at : ℕ
  pub broker : Text
  pub environment : Text
  pub account_id : Option Text
  pub evaluation_state : Text
  pub balance : Option F
  pub equity : Option F
  pub currency : Option Text
  pub max_daily_loss : Option F
  pub max_trades_daily : Option ℤ
  pub daily_trades_count : Option ℤ
  pub daily_loss_percent : Option F
  pub risk_allowed : Option ℕ
  pub risk_message : Text
  pub rejection_reason : Text
  pub authorized_risk_amount : Option F
  pub authorized_risk_percent : Option F
  pub execution_quantity_available : ℕ
  pub execution_quantity_value : Option F
  pub execution_quantity_unit : Option Text
  pub execution_quantity_reason : Text

pub record SafetyStore (F : Type 0) : Type 0 where
  pub safety : Option SafetyRow
  pub risk : Option (RiskRow F)

-- The instant of `astimezone(timezone.utc)`. A constructed snapshot holds no naive time.
abbrev pub instant : DateTime → ℕ
instant (naive t) = t
instant (aware t) = t

-- `int(b)` and `bool(n)`
abbrev pub bit : Bool → ℕ
bit true = 1
bit false = 0

abbrev pub nonzero : ℕ → Bool
nonzero n = not (n == 0)

-- `"\n".join(lines)`
unfoldable pub join_lines : List Text → Text
join_lines [] = []
join_lines (l ∷ []) = l
join_lines (l ∷ m ∷ ls) = l ++ 10 ∷ join_lines (m ∷ ls)

-- One more character of the first line.
abbrev pub onto_first : ℕ → List Text → List Text
onto_first c [] = (c ∷ []) ∷ []
onto_first c (l ∷ ls) = (c ∷ l) ∷ ls

-- `t.split("\n")`
unfoldable pub split_lines : Text → List Text
split_lines [] = [] ∷ []
split_lines (c ∷ s) = let rest = split_lines s in if c == 10 then [] ∷ rest else onto_first c rest

abbrev pub safety_row : ExecutionSafetySnapshot → SafetyRow
safety_row s = record {
  schema_version = s.schema_version;
  observed_at = instant s.observed_at;
  emergency_stop_state = stop_value s.emergency_stop_state;
  execution_mode = mode_value s.execution_mode;
  broker = s.broker;
  environment = s.environment;
  durable_executor_enabled = bit s.durable_executor_enabled;
  daily_state_authority = authority_value s.daily_state_authority;
  unresolved_intent_count = s.unresolved_intent_count;
  unresolved_intent_blocked = bit s.unresolved_intent_blocked;
  execution_authorization = authorization_value s.execution_authorization;
  reason_codes = join_lines s.reason_codes;
}

-- The snapshot of a row, before the conditions of its constructor.
unfoldable pub decode_safety : SafetyRow → Option ExecutionSafetySnapshot
decode_safety row = do
  stop ← stop_of row.emergency_stop_state
  mode ← mode_of row.execution_mode
  authority ← authority_of row.daily_state_authority
  authorization ← authorization_of row.execution_authorization
  some (record {
    observed_at = aware row.observed_at;
    emergency_stop_state = stop;
    execution_mode = mode;
    broker = row.broker;
    environment = row.environment;
    durable_executor_enabled = nonzero row.durable_executor_enabled;
    daily_state_authority = authority;
    unresolved_intent_count = row.unresolved_intent_count;
    unresolved_intent_blocked = nonzero row.unresolved_intent_blocked;
    execution_authorization = authorization;
    reason_codes = filter nonempty (split_lines row.reason_codes);
    schema_version = row.schema_version;
  })

abbrev pub map_optional : {A B : Type 0} → (A → B) → Option A → Option B
map_optional f none = none
map_optional f (some a) = some (f a)

module _ {F : Type 0} where
  -- `publish` of a constructed snapshot
  unfoldable pub publish : ExecutionSafetySnapshot → SafetyStore F → SafetyStore F
  publish s store = record store { safety = some (safety_row s) }

  -- `read`
  unfoldable pub read : SafetyStore F → Result (Option ExecutionSafetySnapshot)
  read store = elim store.safety [
    | none ↦ ok none
    | some row ↦ elim (decode_safety row) [
      | none ↦ raised value_error
      | some s ↦ if valid_snapshot s then ok (some s) else raised value_error
    ]
  ]

  abbrev pub risk_row : RiskAuthorizationSnapshot F → RiskRow F
  risk_row s = record {
    schema_version = s.schema_version;
    observed_at = instant s.observed_at;
    broker = s.broker;
    environment = s.environment;
    account_id = s.account_id;
    evaluation_state = authorization_value s.evaluation_state;
    balance = s.balance;
    equity = s.equity;
    currency = s.currency;
    max_daily_loss = s.max_daily_loss;
    max_trades_daily = s.max_trades_daily;
    daily_trades_count = s.daily_trades_count;
    daily_loss_percent = s.daily_loss_percent;
    risk_allowed = map_optional bit s.risk_allowed;
    risk_message = s.risk_message;
    rejection_reason = s.rejection_reason;
    authorized_risk_amount = s.authorized_risk_amount;
    authorized_risk_percent = s.authorized_risk_percent;
    execution_quantity_available = bit s.execution_quantity_available;
    execution_quantity_value = s.execution_quantity_value;
    execution_quantity_unit = s.execution_quantity_unit;
    execution_quantity_reason = s.execution_quantity_reason;
  }

  -- The snapshot of a row with its evaluation state.
  abbrev pub risk_snapshot : RiskRow F → ExecutionAuthorization → RiskAuthorizationSnapshot F
  risk_snapshot row state = record {
    observed_at = aware row.observed_at;
    broker = row.broker;
    environment = row.environment;
    account_id = row.account_id;
    evaluation_state = state;
    balance = row.balance;
    equity = row.equity;
    currency = row.currency;
    max_daily_loss = row.max_daily_loss;
    max_trades_daily = row.max_trades_daily;
    daily_trades_count = row.daily_trades_count;
    daily_loss_percent = row.daily_loss_percent;
    risk_allowed = map_optional nonzero row.risk_allowed;
    risk_message = row.risk_message;
    rejection_reason = row.rejection_reason;
    authorized_risk_amount = row.authorized_risk_amount;
    authorized_risk_percent = row.authorized_risk_percent;
    execution_quantity_available = nonzero row.execution_quantity_available;
    execution_quantity_value = row.execution_quantity_value;
    execution_quantity_unit = row.execution_quantity_unit;
    execution_quantity_reason = row.execution_quantity_reason;
    schema_version = row.schema_version;
  }

  -- `publish_risk` of a constructed snapshot
  unfoldable pub publish_risk : RiskAuthorizationSnapshot F → SafetyStore F → SafetyStore F
  publish_risk s store = record store { risk = some (risk_row s) }

module _ {F : Type 0} ⦃o : Float F⦄ where
  -- `read_risk`
  unfoldable pub read_risk : SafetyStore F → Result (Option (RiskAuthorizationSnapshot F))
  read_risk store = elim store.risk [
    | none ↦ ok none
    | some row ↦ elim (authorization_of row.evaluation_state) [
      | none ↦ raised value_error
      | some state ↦
          if valid_risk (risk_snapshot row state)
          then ok (some (risk_snapshot row state))
          else raised value_error
    ]
  ]
