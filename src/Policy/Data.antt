-- ===== src/Policy/Data.antt =====
-- execution/policy.py: the intent, the context and the decision. A field is a value of any type
-- where `evaluate` tests the type at run time.
use jqe.Prelude.{Bool, true, false, Option, List, String, ℤ}
use jqe.Text.{Text}
use jqe.Value.{Value}
use jqe.Broker.{ExecutionQuantity}

pub data ExecutionDecisionCode : Type 0 where
  allowed emergency_stop risk_not_approved safety_context_missing : ExecutionDecisionCode
  safety_context_invalid invalid_direction invalid_execution_quantity : ExecutionDecisionCode
  broker_quantity_mismatch unverifiable_broker_risk invalid_price_levels : ExecutionDecisionCode
  buy_level_invariant sell_level_invariant daily_loss_limit : ExecutionDecisionCode
  daily_trade_limit max_open_positions duplicate_symbol_position : ExecutionDecisionCode
  idempotency_key_reused deployment_not_authorized : ExecutionDecisionCode
  daily_state_not_authoritative execution_reservation_held : ExecutionDecisionCode
  execution_reservation_unavailable unresolved_durable_intent : ExecutionDecisionCode

pub record ExecutionIntent (F : Type 0) : Type 0 where
  pub symbol : Value F
  pub side : Value F
  -- `none` is anything that is no `ExecutionQuantity`.
  pub quantity : Option (ExecutionQuantity F)
  pub authorized_risk_amount : Value F
  pub expected_loss_at_stop : Value F
  pub quantity_risk_verified : Value F
  pub entry : Value F
  pub stop_loss : Value F
  pub take_profit : Value F
  pub idempotency_key : Value F
  pub risk_approved : Value F
  pub magic_number : Option ℤ
  pub order_comment : Option Text

pub record PositionSnapshot (F : Type 0) : Type 0 where
  pub symbol : Value F
  pub side : Value F

-- `none` in a field of collections is anything that is no tuple, or no frozenset. An entry `none`
-- of `open_positions` is anything that is no `PositionSnapshot`.
pub record ExecutionContext (F : Type 0) : Type 0 where
  pub emergency_stop : Value F
  pub daily_loss_percent : Value F
  pub max_daily_loss_percent : Value F
  pub daily_trade_count : Value F
  pub max_daily_trades : Value F
  pub open_positions : Option (List (Option (PositionSnapshot F)))
  pub max_open_positions : Value F
  pub used_idempotency_keys : Option (List (Value F))
  pub execution_enabled : Value F
  pub dry_run : Value F
  pub broker : Value F
  pub environment : Value F
  pub account_id : Value F
  pub approved_brokers : Option (List (Value F))
  pub approved_environments : Option (List (Value F))
  pub approved_accounts : Option (List (Value F))
  pub approved_symbols : Option (List (Value F))
  pub daily_state_authoritative : Value F

pub record ExecutionDecision : Type 0 where
  pub allowed : Bool
  pub code : ExecutionDecisionCode
  pub reason : String

-- `_reject`
abbrev pub reject : ExecutionDecisionCode → String → ExecutionDecision
reject c r = record { allowed = false; code = c; reason = r }

abbrev pub allow : String → ExecutionDecision
allow r = record { allowed = true; code = allowed; reason = r }
