-- ===== src/Policy/Conditions.antt =====
-- The conditions under which `evaluate` of execution/policy.py allows an intent, spelled out on its
-- fields and those of the context.
use jqe.Prelude.{◌≡◌, ◌⊎◌, true, false, pos, Option, some, List, length, All}
use jqe.Text.{normalize}
use jqe.Number.{int, float, Float, to_float}
use jqe.Broker.{buy, sell, ExecutionQuantity}
use jqe.Value.{bool, num, is_nonblank, chars}
use jqe.Policy.{ExecutionIntent, ExecutionContext, PositionSnapshot, value_le}
use jqe.Policy.Meaning.{IsSide, IsIntFrom, IsUnitOf, IsPositive, IsNonnegative}
use jqe.Policy.Listed.{IsListed, IsUnlisted, IsElsewhere}

module _ {F : Type 0} ⦃o : Float F⦄ (intent : ExecutionIntent F)
    (context : ExecutionContext F) where
  -- The service may send to this broker, environment and account, and this symbol.
  pub record IsDeployable : Type 0 where
    pub stop_off : context.emergency_stop ≡ bool false
    pub approved : intent.risk_approved ≡ bool true
    pub authoritative : context.daily_state_authoritative ≡ bool true
    pub enabled : context.execution_enabled ≡ bool true
    pub live : context.dry_run ≡ bool false
    pub broker : IsListed (chars context.broker) context.broker context.approved_brokers
    pub environment :
        IsListed (chars context.environment) context.environment context.approved_environments
    pub account : IsListed (chars context.account_id) context.account_id context.approved_accounts
    pub symbol : IsListed (normalize (chars intent.symbol)) intent.symbol context.approved_symbols

  -- The day's loss and number of trades are below their limits.
  pub record IsWithinDay : Type 0 where
    pub loss : IsNonnegative context.daily_loss_percent
    pub loss_limit : IsPositive context.max_daily_loss_percent
    pub below_loss : value_le context.max_daily_loss_percent context.daily_loss_percent ≡ false
    pub trades : IsIntFrom (pos 0) context.daily_trade_count
    pub trades_limit : IsIntFrom (pos 1) context.max_daily_trades
    pub below_trades : value_le context.max_daily_trades context.daily_trade_count ≡ false

  -- Fewer positions than the limit are open, each in another symbol, and the key is unused.
  pub record IsFree : Type 0 where
    pub positions : List (Option (PositionSnapshot F))
    pub read : context.open_positions ≡ some positions
    pub others : All (IsElsewhere (normalize (chars intent.symbol))) positions
    pub limit : IsIntFrom (pos 1) context.max_open_positions
    pub below : value_le context.max_open_positions (num (int (pos (length positions)))) ≡ false
    pub named : is_nonblank intent.idempotency_key ≡ true
    pub unused : IsUnlisted (chars intent.idempotency_key) context.used_idempotency_keys

  -- The quantity is in the broker's unit, and its verified loss at the stop is not above the ceiling
  -- of the authorised risk.
  pub record IsSized : Type 0 where
    pub verified : intent.quantity_risk_verified ≡ bool true
    pub quantity : ExecutionQuantity F
    pub present : intent.quantity ≡ some quantity
    pub unit : IsUnitOf (chars context.broker) quantity.unit
    pub risk : IsPositive intent.authorized_risk_amount
    pub loss : IsNonnegative intent.expected_loss_at_stop
    pub bounded :
        o.lt
          (float (o.times (to_float risk.0) (o.plus (o.decimal 1 0) (o.decimal 1 12))))
          (float (to_float loss.0))
        ≡ false

  pub record IsProtected : Type 0 where
    pub entry : IsPositive intent.entry
    pub stop_loss : IsPositive intent.stop_loss
    pub take_profit : IsPositive intent.take_profit
    pub levels :
        IsSide buy intent.side
          × (o.lt stop_loss.0 entry.0 ≡ true)
          × (o.lt entry.0 take_profit.0 ≡ true)
        ⊎ IsSide sell intent.side
          × (o.lt take_profit.0 entry.0 ≡ true)
          × (o.lt entry.0 stop_loss.0 ≡ true)

  pub record IsPermitted : Type 0 where
    pub deployable : IsDeployable
    pub day : IsWithinDay
    pub free : IsFree
    pub sized : IsSized
    pub protected : IsProtected
