-- ===== src/Policy.antt =====
-- execution/policy.py: the pure policy that authorises a new execution intent. The data and the
-- tests of single values are in Policy/Data.antt and Policy/Checks.antt.
mod Data
pub mod Meaning
pub mod Allowed
pub mod Listed
pub mod Conditions
pub mod Forth
pub mod Permitted
pub mod Monotone
mod Tests
mod Checks
unfoldable pub use Data.*
unfoldable pub use Checks.*
use jqe.Prelude.{
  Bool, true, false, not, ◌&&◌, ◌||◌, ℤ, pos, Option, none, some, String, ltb_ℤ, leb_ℤ,
  if◌then◌else◌,
}
use jqe.Number.{Float}
use jqe.Value.{Value, is_true, is_side}
use jqe.Broker.{buy, sell}

module _ {F : Type 0} ⦃o : Float F⦄ where
  -- Steps 7 to 11 of `evaluate`: the limits, the symbol and the key.
  unfoldable pub check_limits : ExecutionIntent F → ExecutionContext F → ExecutionDecision
  check_limits intent context =
      if value_le context.max_daily_loss_percent context.daily_loss_percent
      then reject daily_loss_limit "Daily loss limit reached"
      else if value_le context.max_daily_trades context.daily_trade_count
      then reject daily_trade_limit "Daily trade limit reached"
      else if value_le context.max_open_positions (position_count context)
      then reject max_open_positions "Maximum open positions reached"
      else if same_symbol_open intent context
      then reject duplicate_symbol_position "An open position already exists for this symbol"
      else if key_used intent context
      then reject idempotency_key_reused "Idempotency key has already been used"
      else allow "Execution policy passed"

  -- Step 6: the price levels.
  unfoldable pub check_levels : ExecutionIntent F → ExecutionContext F → ExecutionDecision
  check_levels intent context =
      if not (positive intent.entry && positive intent.stop_loss && positive intent.take_profit)
      then reject invalid_price_levels
          "Entry, stop loss, and take profit must be positive and finite"
      else if is_side buy intent.side && not (buy_levels intent)
      then reject buy_level_invariant "BUY requires stop_loss < entry < take_profit"
      else if is_side sell intent.side && not (sell_levels intent)
      then reject sell_level_invariant "SELL requires take_profit < entry < stop_loss"
      else check_limits intent context

  -- Step 5: the quantity, its unit and its risk.
  unfoldable pub check_quantity : ExecutionIntent F → ExecutionContext F → ExecutionDecision
  check_quantity intent context =
      if not (is_true intent.quantity_risk_verified)
      then reject unverifiable_broker_risk
          "Broker quantity risk at the configured stop is not verifiable"
      else if not (has_quantity intent)
      then reject invalid_execution_quantity "Execution quantity is missing or invalid"
      else if not (unit_matches intent context)
      then reject broker_quantity_mismatch
          "Execution quantity unit does not match the configured broker"
      else if not (positive intent.authorized_risk_amount)
      then reject invalid_execution_quantity "Authorized risk must be positive and finite"
      else if not (nonnegative intent.expected_loss_at_stop)
      then reject invalid_execution_quantity "Expected stop loss must be finite and non-negative"
      else if exceeds_authorized_risk intent
      then reject invalid_execution_quantity "Expected stop loss exceeds authorized risk"
      else check_levels intent context

  -- Steps 3 and 4: the context, the deployment and the direction.
  unfoldable pub check_context : ExecutionIntent F → ExecutionContext F → ExecutionDecision
  check_context intent context =
      if not (context_valid intent context)
      then reject safety_context_invalid "Execution safety context is incomplete or invalid"
      else if not (deployment_authorized intent context)
      then reject deployment_not_authorized "Deployment authorization is incomplete or denied"
      else if not (is_true context.daily_state_authoritative)
      then reject daily_state_not_authoritative
          "Daily loss and trade counters are not authoritative"
      else if not (is_side buy intent.side || is_side sell intent.side)
      then reject invalid_direction "Direction must be BUY or SELL"
      else check_quantity intent context

  -- `ExecutionPolicy.evaluate`
  unfoldable pub evaluate : ExecutionIntent F → Option (ExecutionContext F) → ExecutionDecision
  evaluate intent none =
      if not (is_true intent.risk_approved)
      then reject risk_not_approved "Explicit upstream risk approval is required"
      else reject safety_context_missing "Execution safety context is missing"
  evaluate intent (some context) =
      if is_true context.emergency_stop
      then reject emergency_stop "Emergency stop is active"
      else if not (is_true intent.risk_approved)
      then reject risk_not_approved "Explicit upstream risk approval is required"
      else check_context intent context
