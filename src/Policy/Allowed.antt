-- ===== src/Policy/Allowed.antt =====
-- The conditions under which `evaluate` of execution/policy.py allows an intent, as records.
use jqe.Prelude.{◌≡◌, refl, ◌↔◌, ◌⊎◌, true, false, ◌||◌, some, arith}
use jqe.Text.{text}
use jqe.Text.Laws.{text_eq_iff}
use jqe.Number.{Float}
use jqe.Value.{Value, bool, str, side, is_true, is_bool, is_side}
use jqe.Broker.{buy, sell}
use jqe.Policy.{
  ExecutionIntent, ExecutionContext, evaluate, check_context, check_quantity, check_levels,
  check_limits, context_valid, deployment_authorized, has_quantity, unit_matches, positive,
  nonnegative, exceeds_authorized_risk, buy_levels, sell_levels, value_lt, value_le, position_count,
  same_symbol_open, key_used,
}

module _ {F : Type 0} ⦃o : Float F⦄ (intent : ExecutionIntent F)
    (context : ExecutionContext F) where
  -- The day's counters and the positions are below their limits, and symbol and key are free.
  pub record WithinLimits : Type 0 where
    pub loss : value_le context.max_daily_loss_percent context.daily_loss_percent ≡ false
    pub trades : value_le context.max_daily_trades context.daily_trade_count ≡ false
    pub positions : value_le context.max_open_positions (position_count context) ≡ false
    pub symbol : same_symbol_open intent context ≡ false
    pub key : key_used intent context ≡ false

  -- The stop and the target stand on their sides of the entry.
  abbrev pub Protected : Type 0
  Protected =
      (is_side buy intent.side ≡ true)
        × (value_lt intent.stop_loss intent.entry ≡ true)
        × (value_lt intent.entry intent.take_profit ≡ true)
      ⊎ (is_side sell intent.side ≡ true)
        × (value_lt intent.take_profit intent.entry ≡ true)
        × (value_lt intent.entry intent.stop_loss ≡ true)

  pub record HasLevels : Type 0 where
    pub entry : positive intent.entry ≡ true
    pub stop_loss : positive intent.stop_loss ≡ true
    pub take_profit : positive intent.take_profit ≡ true
    pub protected : Protected

  -- The quantity is one of the broker's unit, and its loss at the stop is within the authorised
  -- risk.
  pub record HasQuantity : Type 0 where
    pub verified : intent.quantity_risk_verified ≡ bool true
    pub present : has_quantity intent ≡ true
    pub unit : unit_matches intent context ≡ true
    pub risk : positive intent.authorized_risk_amount ≡ true
    pub loss : nonnegative intent.expected_loss_at_stop ≡ true
    pub bounded : exceeds_authorized_risk intent ≡ false

  pub record IsDeployed : Type 0 where
    pub running : context.emergency_stop ≡ bool false
    pub approved : intent.risk_approved ≡ bool true
    pub valid : context_valid intent context ≡ true
    pub deployment : deployment_authorized intent context ≡ true
    pub authoritative : context.daily_state_authoritative ≡ bool true

  -- All that a new order has to satisfy.
  pub record IsAuthorized : Type 0 where
    pub deployed : IsDeployed
    pub quantity : HasQuantity
    pub levels : HasLevels
    pub limits : WithinLimits

  check_limits-allowed : ((check_limits intent context).allowed ≡ true) ↔ WithinLimits
  unfolding check_limits
  check_limits-allowed = (λ h. ground arith, λ h. ground arith)

module _ {F : Type 0} where
  eq_of_is_true : (v : Value F) → is_true v ≡ true → v ≡ bool true
  eq_of_is_true v h = ground arith

  eq_of_is_bool : (v : Value F) → is_bool v ≡ true → is_true v ≡ false → v ≡ bool false
  eq_of_is_bool v h k = ground arith

  -- No value is both sides.
  pub is_side_one : (v : Value F) → is_side buy v ≡ true → is_side sell v ≡ false
  is_side_one v h = ground (arith, str_one v h)
    where
      str_one : (v : Value F) → is_side buy v ≡ true → is_side sell v ≡ false
      str_one (str t) h = ground (arith, text_eq_iff t (text "BUY"), text_eq_iff t (text "SELL"))
      str_one (side s) h = ground arith
      str_one _ h = refl

module _ {F : Type 0} ⦃o : Float F⦄ (intent : ExecutionIntent F)
    (context : ExecutionContext F) where
  check_levels-allowed :
      (is_side buy intent.side || is_side sell intent.side) ≡ true
      → ((check_levels intent context).allowed ≡ true)
        ↔ (HasLevels intent context × WithinLimits intent context)
  unfolding check_levels buy_levels sell_levels
  check_levels-allowed directed = (
    λ h. ground (arith, check_limits-allowed intent context, is_side_one intent.side),
    λ h. ground (arith, check_limits-allowed intent context, is_side_one intent.side),
  )

  check_quantity-allowed :
      (is_side buy intent.side || is_side sell intent.side) ≡ true
      → ((check_quantity intent context).allowed ≡ true)
        ↔ (HasQuantity intent context × HasLevels intent context × WithinLimits intent context)
  unfolding check_quantity
  check_quantity-allowed directed = (
    λ h. ground (arith, check_levels-allowed directed, eq_of_is_true intent.quantity_risk_verified),
    λ h. ground (arith, check_levels-allowed directed),
  )

  directed_of_levels :
      HasLevels intent context → (is_side buy intent.side || is_side sell intent.side) ≡ true
  directed_of_levels h = ground arith

  running_of_valid : context_valid intent context ≡ true → is_bool context.emergency_stop ≡ true
  unfolding context_valid
  running_of_valid h = ground arith

  -- `evaluate` allows an intent exactly when the emergency stop is off, risk approved it, the
  -- context is valid, authoritative and authorises the deployment, the quantity is verified, of
  -- the broker's unit and within the authorised risk, the price levels are positive and protect
  -- the position on its side, and the day's limits, the symbol and the key are free.
  pub evaluate-allowed_iff :
      ((evaluate intent (some context)).allowed ≡ true) ↔ IsAuthorized intent context
  unfolding evaluate check_context
  evaluate-allowed_iff = (
    λ h. ground (
      arith,
      check_quantity-allowed,
      eq_of_is_true intent.risk_approved,
      eq_of_is_true context.daily_state_authoritative,
      eq_of_is_bool context.emergency_stop,
      running_of_valid,
    ),
    λ h. ground (arith, check_quantity-allowed, directed_of_levels h.levels),
  )
