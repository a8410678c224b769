-- ===== src/Policy/Checks.antt =====
-- execution/policy.py: the conditions that `evaluate` tests.
use jqe.Prelude.{
  Bool, true, false, ◌&&◌, ◌||◌, pos, Option, none, some, List, any, all, length, if◌then◌else◌,
}
use jqe.Text.{Text, text, text_eq, normalize}
use jqe.Number.{Num, int, float, Float, finite, to_float, zero_float}
use jqe.Broker.{buy, sell, ExecutionQuantityUnit, simulation_units, deriv_stake, mt5_lots, unit_eq}
use jqe.Value.{
  Value, null, num, is_true, is_false, is_bool, is_nonblank, chars, is_side, is_int_from, has_text,
}
use jqe.Policy.Data.{ExecutionIntent, PositionSnapshot, ExecutionContext}

-- The table `expected_unit`, at a broker's name.
unfoldable pub expected_unit : Text → Option ExecutionQuantityUnit
expected_unit broker =
    if text_eq broker (text "simulation")
    then some simulation_units
    else if text_eq broker (text "deriv") || text_eq broker (text "deriv_demo")
    then some deriv_stake
    else if text_eq broker (text "mt5")
        || text_eq broker (text "mt5_demo")
        || text_eq broker (text "weltrade")
        || text_eq broker (text "weltrade_demo")
    then some mt5_lots
    else none

abbrev same_unit : Option ExecutionQuantityUnit → Option ExecutionQuantityUnit → Bool
same_unit (some a) (some b) = unit_eq a b
same_unit _ _ = false

module _ {F : Type 0} where
  -- `_valid_position_snapshot`
  abbrev pub valid_position_snapshot : Option (PositionSnapshot F) → Bool
  valid_position_snapshot none = false
  valid_position_snapshot (some p) =
      is_nonblank p.symbol && (is_side buy p.side || is_side sell p.side)

  -- `isinstance(values, frozenset) and all(...)`
  abbrev pub valid_names : Option (List (Value F)) → Bool
  valid_names none = false
  valid_names (some vs) = all is_nonblank vs

  abbrev pub valid_positions : Option (List (Option (PositionSnapshot F))) → Bool
  valid_positions none = false
  valid_positions (some ps) = all valid_position_snapshot ps

  -- `t in values`
  abbrev pub in_names : Text → Option (List (Value F)) → Bool
  in_names t none = false
  in_names t (some vs) = has_text t vs

  abbrev pub names_symbol : Text → Option (PositionSnapshot F) → Bool
  names_symbol t none = false
  names_symbol t (some p) = text_eq (normalize (chars p.symbol)) t

  -- `any(position.symbol.strip().upper() == normalized_symbol for position in positions)`
  abbrev pub names_symbol_of : Text → Option (List (Option (PositionSnapshot F))) → Bool
  names_symbol_of t none = false
  names_symbol_of t (some ps) = any (names_symbol t) ps

  -- `len(context.open_positions)`, as a value
  abbrev pub position_count : ExecutionContext F → Value F
  position_count context = elim context.open_positions [
    | none ↦ null
    | some ps ↦ num (int (pos (length ps)))
  ]

  unfoldable pub same_symbol_open : ExecutionIntent F → ExecutionContext F → Bool
  same_symbol_open intent context =
      names_symbol_of (normalize (chars intent.symbol)) context.open_positions

  unfoldable pub key_used : ExecutionIntent F → ExecutionContext F → Bool
  key_used intent context = in_names (chars intent.idempotency_key) context.used_idempotency_keys

  unfoldable pub has_quantity : ExecutionIntent F → Bool
  has_quantity intent = elim intent.quantity [ none ↦ false | some q ↦ true ]

  unfoldable pub unit_matches : ExecutionIntent F → ExecutionContext F → Bool
  unit_matches intent context = elim intent.quantity [
    | none ↦ false
    | some q ↦ same_unit (some q.unit) (expected_unit (chars context.broker))
  ]

  unfoldable pub deployment_authorized : ExecutionIntent F → ExecutionContext F → Bool
  deployment_authorized intent context =
      is_true context.execution_enabled
      && is_false context.dry_run
      && in_names (chars context.broker) context.approved_brokers
      && in_names (chars context.environment) context.approved_environments
      && in_names (chars context.account_id) context.approved_accounts
      && in_names (normalize (chars intent.symbol)) context.approved_symbols

module _ {F : Type 0} ⦃o : Float F⦄ where
  -- `_is_finite_number`
  abbrev pub is_finite_number : Value F → Bool
  is_finite_number (num n) = finite n
  is_finite_number _ = false

  -- `_is_finite_number(v) and float(v) > 0`
  abbrev pub positive : Value F → Bool
  positive (num n) = finite n && o.lt zero_float (float (to_float n))
  positive _ = false

  -- `_is_finite_number(v) and float(v) >= 0`
  abbrev pub nonnegative : Value F → Bool
  nonnegative (num n) = finite n && o.le zero_float (float (to_float n))
  nonnegative _ = false

  -- `a < b` and `a <= b`. Of other values than numbers the operators raise; `evaluate` compares
  -- only what it has found to be numbers.
  abbrev pub value_lt : Value F → Value F → Bool
  value_lt (num a) (num b) = o.lt a b
  value_lt _ _ = false

  abbrev pub value_le : Value F → Value F → Bool
  value_le (num a) (num b) = o.le a b
  value_le _ _ = false

  -- `intent.stop_loss < intent.entry < intent.take_profit`
  unfoldable pub buy_levels : ExecutionIntent F → Bool
  buy_levels intent =
      value_lt intent.stop_loss intent.entry && value_lt intent.entry intent.take_profit

  -- `intent.take_profit < intent.entry < intent.stop_loss`
  unfoldable pub sell_levels : ExecutionIntent F → Bool
  sell_levels intent =
      value_lt intent.take_profit intent.entry && value_lt intent.entry intent.stop_loss

  -- `float(a) * (1.0 + 1e-12)`, for the authorised risk `a`
  abbrev pub risk_ceiling : Num F → Num F
  risk_ceiling a = float (o.times (to_float a) (o.plus (o.decimal 1 0) (o.decimal 1 12)))

  -- `float(expected) > float(authorized) * (1.0 + 1e-12)`
  abbrev pub above_ceiling : Value F → Value F → Bool
  above_ceiling (num loss) (num risk) = o.lt (risk_ceiling risk) (float (to_float loss))
  above_ceiling _ _ = false

  unfoldable pub exceeds_authorized_risk : ExecutionIntent F → Bool
  exceeds_authorized_risk intent =
      above_ceiling intent.expected_loss_at_stop intent.authorized_risk_amount

  -- The three parts of `context_valid`: the counters and limits, the collections of state, and
  -- the deployment with the identity of the intent.
  unfoldable pub counters_valid : ExecutionContext F → Bool
  counters_valid context =
      is_bool context.emergency_stop
      && nonnegative context.daily_loss_percent
      && positive context.max_daily_loss_percent
      && is_int_from (pos 0) context.daily_trade_count
      && is_int_from (pos 1) context.max_daily_trades
      && is_int_from (pos 1) context.max_open_positions

  unfoldable pub state_valid : ExecutionContext F → Bool
  state_valid context =
      valid_positions context.open_positions && valid_names context.used_idempotency_keys

  unfoldable pub deployment_valid : ExecutionContext F → Bool
  deployment_valid context =
      is_bool context.execution_enabled
      && is_bool context.dry_run
      && is_nonblank context.broker
      && is_nonblank context.environment
      && is_nonblank context.account_id
      && valid_names context.approved_brokers
      && valid_names context.approved_environments
      && valid_names context.approved_accounts
      && valid_names context.approved_symbols
      && is_bool context.daily_state_authoritative

  unfoldable pub context_valid : ExecutionIntent F → ExecutionContext F → Bool
  unfolding counters_valid state_valid deployment_valid
  context_valid intent context =
      counters_valid context
      && state_valid context
      && deployment_valid context
      && is_nonblank intent.symbol
      && is_nonblank intent.idempotency_key
