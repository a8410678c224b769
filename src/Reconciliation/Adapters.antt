-- ===== src/Reconciliation/Adapters.antt =====
-- execution/reconciliation.py: `SimulationReconciliationAdapter`, the `reconcile` methods of all
-- adapters, and the choice of one. `WeltradeReconciliationAdapter` is a subclass of the adapter for
-- MT5.
use jqe.Prelude.{Bool, true, false, ◌||◌, Option, none, some, List, [], ◌∷◌, ◌++◌, if◌then◌else◌}
use jqe.Text.{Text, text, text_eq, strip, lower}
use jqe.Number.{Float}
use jqe.Executor.{confirmed_match, unavailable}
use jqe.Reconciliation.Data.{
  BrokerReconciliationResult, Observation, Query, holds_text, shown, broker_id, symbol_match,
  Gateway,
}
use jqe.Reconciliation.Evidence.{no_identifiers, result, classify_observation}
use jqe.Reconciliation.Deriv.{reconcile_deriv}
use jqe.Reconciliation.Mt5.{LedgerView, ledger_entries, reconcile_terminal}

-- The adapters, that of MT5 with its broker's name.
pub data Adapter : Type 0 where
  simulation deriv : Adapter
  mt5 weltrade : Text → Adapter

-- `get_reconciliation_adapter`, where `none` is its ValueError.
unfoldable pub get_reconciliation_adapter : Text → Option Adapter
get_reconciliation_adapter broker =
    let normalized = lower (strip broker) in
    if text_eq normalized (text "simulation")
    then some simulation
    else if text_eq normalized (text "mt5") || text_eq normalized (text "mt5_demo")
    then some (mt5 normalized)
    else if text_eq normalized (text "weltrade") || text_eq normalized (text "weltrade_demo")
    then some (weltrade normalized)
    else if text_eq normalized (text "deriv") || text_eq normalized (text "deriv_demo")
    then some deriv
    else none

module _ {F : Type 0} where
  -- `order_id is not None and str(item_order_id) == str(order_id)`
  abbrev pub same_order : Query → Observation F → Bool
  same_order q item = holds_text q.order_id (shown (broker_id item))

  -- The test of the transaction's id in the simulation's loop.
  abbrev pub same_transaction : Query → Observation F → Bool
  same_transaction q item = elim item.transaction_id [
    | none ↦ false
    | some t ↦ holds_text q.transaction_id t
  ]

  -- `positions` and `history` in one list, where `none` is an exception.
  unfoldable pub observed : Gateway F → Option (List (Observation F))
  observed gateway = elim gateway.positions [
    | none ↦ none
    | some positions ↦ elim gateway.trade_history [
      | none ↦ none
      | some history ↦ some (positions ++ history)
    ]
  ]

module _ {F : Type 0} ⦃o : Float F⦄ where
  -- The loop of `SimulationReconciliationAdapter.reconcile`.
  unfoldable pub simulation_scan :
      Query → List (Observation F) → Option (BrokerReconciliationResult F)
  unfolding result
  simulation_scan q [] = none
  simulation_scan q (item ∷ items) =
      let rest = simulation_scan q items in
      if same_order q item
      then some (
          result confirmed_match (text "Simulation order ID matched") (text "simulation")
            q.idempotency_key (some item)
            (record no_identifiers {
              order_id = some (shown (broker_id item));
              transaction_id = item.transaction_id;
            }))
      else if same_transaction q item
      then some (
          result confirmed_match (text "Simulation transaction ID matched") (text "simulation")
            q.idempotency_key (some item)
            (record no_identifiers { transaction_id = item.transaction_id }))
      else rest

  unfoldable pub reconcile_simulation : List (Observation F) → Query → BrokerReconciliationResult F
  reconcile_simulation items q = elim (simulation_scan q items) [
    | some found ↦ found
    | none ↦
        classify_observation true (symbol_match q.symbol items) (text "simulation")
          q.idempotency_key
  ]

  -- The `reconcile` method of an adapter.
  unfoldable pub reconcile :
      Adapter → LedgerView F → Gateway F → Query → BrokerReconciliationResult F
  unfolding result
  reconcile simulation view gateway q = elim (observed gateway) [
    | some items ↦ reconcile_simulation items q
    | none ↦
        result unavailable (text "Simulation state unavailable") (text "simulation")
          q.idempotency_key none no_identifiers
  ]
  reconcile deriv view gateway q = elim (observed gateway) [
    | some items ↦ reconcile_deriv items q
    | none ↦
        result unavailable (text "Deriv state unavailable") (text "deriv") q.idempotency_key none
          no_identifiers
  ]
  reconcile (mt5 broker) view gateway q =
      reconcile_terminal broker (observed gateway) (ledger_entries broker view) q
  reconcile (weltrade broker) view gateway q =
      reconcile_terminal broker (observed gateway) (ledger_entries broker view) q
