-- ===== src/Reconciliation/Evidence.antt =====
-- execution/reconciliation.py: `_result` and `classify_observation`.
use jqe.Prelude.{Bool, not, Option, none, some, [], ◌++◌, if◌then◌else◌}
use jqe.Text.{Text, text, or_text}
use jqe.Number.{Float, to_float}
use jqe.Broker.{side_value}
use jqe.Executor.{BrokerReconciliationState, ambiguous, unavailable}
use jqe.Reconciliation.Data.{
  CorrelationEvidence, BrokerReconciliationResult, Observation, strength, moments, item_position_id,
}

-- The keyword arguments of `_result` behind `broker` and `idempotency_key`, all but the item.
pub record Identifiers : Type 0 where
  pub contract_id : Option Text
  pub transaction_id : Option Text
  pub order_id : Option Text
  pub deal_id : Option Text
  pub position_id : Option Text
  pub request_id : Option Text
  pub symbol : Option Text

abbrev pub no_identifiers : Identifiers
no_identifiers = record {
  contract_id = none;
  transaction_id = none;
  order_id = none;
  deal_id = none;
  position_id = none;
  request_id = none;
  symbol = none;
}

abbrev pub map_option : {A B : Type 0} → (A → B) → Option A → Option B
map_option f none = none
map_option f (some a) = some (f a)

module _ {F : Type 0} ⦃o : Float F⦄ where
  -- The evidence that `_result` builds.
  abbrev pub result_evidence :
      BrokerReconciliationState
      → Text
      → Text
      → Option Text
      → Option (Observation F)
      → Identifiers
      → CorrelationEvidence F
  result_evidence state reason broker idempotency_key item ids = record {
    broker = broker;
    correlation_strength = strength state;
    idempotency_key = idempotency_key;
    order_id = ids.order_id;
    deal_id = ids.deal_id;
    position_id = or_text ids.position_id (elim item [ none ↦ none | some i ↦ item_position_id i ]);
    transaction_id = ids.transaction_id;
    contract_id = ids.contract_id;
    request_id = ids.request_id;
    symbol = or_text ids.symbol (elim item [ none ↦ none | some i ↦ i.symbol ]);
    side = elim item [ none ↦ none | some i ↦ map_option side_value i.side ];
    volume = elim item [ none ↦ none | some i ↦ map_option to_float i.volume ];
    timestamps = elim item [ none ↦ [] | some i ↦ moments i.opened_at ++ moments i.closed_at ];
    source = map_option (λ i. i.kind) item;
    reason = reason;
  }

  -- `_result`
  unfoldable pub result :
      BrokerReconciliationState
      → Text
      → Text
      → Option Text
      → Option (Observation F)
      → Identifiers
      → BrokerReconciliationResult F
  result state reason broker idempotency_key item ids = record {
    state = state;
    reason = reason;
    contract_id = ids.contract_id;
    transaction_id = ids.transaction_id;
    evidence = some (result_evidence state reason broker idempotency_key item ids);
  }

  -- `classify_observation`
  unfoldable pub classify_observation :
      Bool → Bool → Text → Option Text → BrokerReconciliationResult F
  unfolding result
  classify_observation broker_available symbol_match broker idempotency_key =
      if not broker_available
      then result unavailable (text "Broker state unavailable") broker idempotency_key none
          no_identifiers
      else if symbol_match
      then result ambiguous (text "Symbol match lacks intent correlation") broker idempotency_key
          none no_identifiers
      else result ambiguous (text "Broker absence does not prove non-execution") broker
          idempotency_key none no_identifiers
