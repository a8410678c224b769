-- ===== src/Audit/Data.antt =====
-- execution/continuous_reconciliation.py: discrepancies, the trades that are tracked and where they
-- come from, and the report. The messages and times of the discrepancies are left out.
use jqe.Prelude.{
  ℕ, Bool, true, false, ℤ, Option, none, some, List, [], ◌∷◌, ◌++◌, map, if◌then◌else◌,
}
use jqe.Text.{Text, text, text_eq, normalize}
use jqe.Number.{Float}
use jqe.Broker.{OrderSide, buy, sell}
use jqe.Intent.{IntentRecord, IntentRecordStatus, accepted}
use jqe.Store.{Store, ok, raised, list_unresolved}
use jqe.Ledger.{Entry}
use jqe.Reconciliation.{LedgerView, ledger_entries, map_option}

pub data ReconciliationDiscrepancyType : Type 0 where
  untracked_broker_position external_manual_trade volume_mismatch : ReconciliationDiscrepancyType
  symbol_mismatch side_mismatch protective_stop_altered : ReconciliationDiscrepancyType
  phantom_internal_position broker_unavailable malformed_broker_data : ReconciliationDiscrepancyType

abbrev pub discrepancy_value : ReconciliationDiscrepancyType → Text
discrepancy_value untracked_broker_position = text "UNTRACKED_BROKER_POSITION"
discrepancy_value external_manual_trade = text "EXTERNAL_MANUAL_TRADE"
discrepancy_value volume_mismatch = text "VOLUME_MISMATCH"
discrepancy_value symbol_mismatch = text "SYMBOL_MISMATCH"
discrepancy_value side_mismatch = text "SIDE_MISMATCH"
discrepancy_value protective_stop_altered = text "PROTECTIVE_STOP_ALTERED"
discrepancy_value phantom_internal_position = text "PHANTOM_INTERNAL_POSITION"
discrepancy_value broker_unavailable = text "BROKER_UNAVAILABLE"
discrepancy_value malformed_broker_data = text "MALFORMED_BROKER_DATA"

pub record ReconciliationDiscrepancy (F : Type 0) : Type 0 where
  pub discrepancy_type : ReconciliationDiscrepancyType
  pub symbol : Option Text
  pub position_id : Option Text
  pub broker_volume : Option F
  pub internal_volume : Option F

pub record TrackedTradeState (F : Type 0) : Type 0 where
  pub symbol : Text
  pub side : OrderSide
  pub volume : Option F
  pub position_id : Option Text
  pub order_id : Option Text
  pub stop_loss : Option F
  pub take_profit : Option F
  pub magic_number : Option ℤ
  pub source : Text

-- intelligence/trade_plan.py: the fields of `TradePlan` that are read.
pub record TradePlan (F : Type 0) : Type 0 where
  pub symbol : Text
  pub signal : Text
  pub stop_loss : Option F
  pub take_profit : Option F

-- broker/types.py: the fields of `Position` that are read.
pub record BrokerPosition (F : Type 0) : Type 0 where
  pub position_id : Text
  pub symbol : Text
  pub side : OrderSide
  pub volume : F
  pub magic : Option ℤ

pub data AuditAction : Type 0 where
  clean discrepancies_detected audit_failed emergency_stop_tripped : AuditAction

pub record AuditReconciliationReport (F : Type 0) : Type 0 where
  pub reconciled_at : ℕ
  pub broker : Text
  pub is_clean : Bool
  pub stop_tripped : Bool
  pub discrepancies : List (ReconciliationDiscrepancy F)
  pub broker_positions_count : ℕ
  pub tracked_positions_count : ℕ
  pub action_taken : AuditAction

-- The fields of the auditor and the arguments of `audit`. A store without a value is not
-- configured.
pub record Sources (F : Type 0) : Type 0 where
  pub broker : Text
  pub expected_magic_number : Option ℤ
  pub explicit_tracked : List (TrackedTradeState F)
  pub active_plans : List (TradePlan F)
  pub ledger : LedgerView F
  pub intent_store : Option (Store F)

-- `record.status is IntentRecordStatus.ACCEPTED`
abbrev pub is_accepted_status : IntentRecordStatus → Bool
is_accepted_status accepted = true
is_accepted_status _ = false

module _ {F : Type 0} where
  -- `TrackedTradeState.from_trade_plan` with its default arguments
  abbrev pub from_trade_plan : TradePlan F → TrackedTradeState F
  from_trade_plan plan = record {
    symbol = normalize plan.symbol;
    side = if text_eq plan.signal (text "BUY") then buy else sell;
    volume = none;
    position_id = none;
    order_id = none;
    stop_loss = plan.stop_loss;
    take_profit = plan.take_profit;
    magic_number = none;
    source = text "trade_plan";
  }

  -- `TrackedTradeState.from_intent_record`
  unfoldable pub from_intent_record : IntentRecord F → Option (TrackedTradeState F)
  from_intent_record r = elim r.symbol [
    | none ↦ none
    | some symbol ↦ elim r.side [
      | none ↦ none
      | some side ↦ some (record {
        symbol = normalize symbol;
        side = side;
        volume = map_option (λ q. q.value) r.quantity;
        position_id = r.order_id;
        order_id = r.order_id;
        stop_loss = r.stop_loss;
        take_profit = r.take_profit;
        magic_number = none;
        source = text "intent_record";
      })
    ]
  ]

  -- `TrackedTradeState.from_ledger_entry` with its default arguments
  abbrev pub from_ledger_entry : Entry F → TrackedTradeState F
  from_ledger_entry entry = record {
    symbol = normalize entry.symbol;
    side = buy;
    volume = none;
    position_id = some entry.position_id;
    order_id = some entry.order_id;
    stop_loss = none;
    take_profit = none;
    magic_number = none;
    source = text "ledger_entry";
  }

  -- The trades of the ledger, none where it cannot be read.
  unfoldable pub ledger_trades : Text → LedgerView F → List (TrackedTradeState F)
  ledger_trades broker view = elim (ledger_entries broker view) [
    | none ↦ []
    | some entries ↦ map from_ledger_entry entries
  ]

  -- The loop over `list_unresolved`.
  unfoldable pub accepted_trades : List (IntentRecord F) → List (TrackedTradeState F)
  accepted_trades [] = []
  accepted_trades (r ∷ rs) =
      let rest = accepted_trades rs in
      if is_accepted_status r.status
      then elim (from_intent_record r) [ none ↦ rest | some t ↦ t ∷ rest ]
      else rest

module _ {F : Type 0} ⦃o : Float F⦄ where
  -- The trades of the intent store, none where it cannot be read.
  unfoldable pub intent_trades : Option (Store F) → List (TrackedTradeState F)
  unfolding accepted_trades
  intent_trades none = []
  intent_trades (some store) = elim (list_unresolved store).0 [
    | raised e ↦ []
    | ok records ↦ accepted_trades records
  ]

  -- All trades in the order of `_add_tracked`.
  unfoldable pub tracked_trades : Sources F → List (TrackedTradeState F)
  tracked_trades s =
      s.explicit_tracked
      ++ map from_trade_plan s.active_plans
      ++ ledger_trades s.broker s.ledger
      ++ intent_trades s.intent_store
