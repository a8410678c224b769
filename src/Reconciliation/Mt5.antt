-- ===== src/Reconciliation/Mt5.antt =====
-- execution/reconciliation.py: `MT5ReconciliationAdapter`.
use jqe.Prelude.{
  Bool, false, ◌&&◌, ◌||◌, Option, none, some, List, [], ◌∷◌, ◌++◌, any, if◌then◌else◌, or_else,
}
use jqe.Text.{Text, text, text_eq, nonempty}
use jqe.Number.{Float}
use jqe.Executor.{confirmed_match, confirmed_absence, ambiguous, unavailable}
use jqe.Store.{ok, raised}
use jqe.Ledger.{Entry, open_entries}
use jqe.Reconciliation.Data.{
  BrokerReconciliationResult, Observation, Query, optional, matches_id, broker_id, has_evidence,
}
use jqe.Reconciliation.Evidence.{no_identifiers, result}

-- The ledger of an MT5 adapter: its rows, or an exception of its database.
pub data LedgerView (F : Type 0) : Type 0 where
  no_ledger broken_ledger : LedgerView F
  ledger_rows : List (Entry F) → LedgerView F

module _ {F : Type 0} where
  -- The test of the four identifiers of MT5.
  unfoldable pub mt5_identified : Query → Observation F → Bool
  unfolding matches_id
  mt5_identified q item =
      matches_id q.order_id (item.order_id ∷ item.order ∷ [])
      || matches_id q.deal_id (item.deal_id ∷ item.deal ∷ item.trade_id ∷ [])
      || matches_id q.position_id (optional item.position_id ∷ item.position_identifier ∷ [])
      || matches_id q.request_id (item.request_id ∷ [])

  -- `ledger_entries`, where `none` is an exception.
  unfoldable pub ledger_entries : Text → LedgerView F → Option (List (Entry F))
  ledger_entries broker no_ledger = some []
  ledger_entries broker broken_ledger = none
  ledger_entries broker (ledger_rows rows) = elim (open_entries broker rows) [
    | raised e ↦ none
    | ok entries ↦ some entries
  ]

  -- `str(observed_position) in ledger_positions`
  abbrev pub in_ledger : Text → List (Entry F) → Observation F → Bool
  in_ledger order_id entries item = elim (broker_id item) [
    | none ↦ false
    | some p ↦ any (λ e. text_eq e.order_id order_id && text_eq e.position_id p) entries
  ]

module _ {F : Type 0} ⦃o : Float F⦄ where
  -- The loop over the ledger's orders, if an order is asked for.
  unfoldable pub ledger_scan :
      Text
      → Query
      → Text
      → List (Entry F)
      → List (Observation F)
      → Option (BrokerReconciliationResult F)
  unfolding result
  ledger_scan broker q order_id entries [] = none
  ledger_scan broker q order_id entries (item ∷ items) =
      let rest = ledger_scan broker q order_id entries items in
      if in_ledger order_id entries item
      then some (
          result confirmed_match (text "MT5 ledger order mapped to authoritative broker position")
            broker q.idempotency_key (some item)
            (record no_identifiers { order_id = some order_id; position_id = broker_id item }))
      else rest

  -- The loop over the identifiers.
  unfoldable pub mt5_scan :
      Text → Query → List (Observation F) → Option (BrokerReconciliationResult F)
  unfolding result
  mt5_scan broker q [] = none
  mt5_scan broker q (item ∷ items) =
      let rest = mt5_scan broker q items in
      if mt5_identified q item
      then some (
          result confirmed_match (broker ++ text " broker identifier matched") broker
            q.idempotency_key (some item)
            (record no_identifiers {
              order_id = q.order_id;
              deal_id = q.deal_id;
              position_id = q.position_id;
              request_id = q.request_id;
            }))
      else rest

  -- The end of `MT5ReconciliationAdapter.reconcile`, where no item is identified.
  unfoldable pub mt5_unidentified :
      Text → List (Observation F) → Query → BrokerReconciliationResult F
  unfolding result
  mt5_unidentified broker items q =
      if any has_evidence items || (elim q.symbol [ none ↦ false | some t ↦ nonempty t ])
      then result ambiguous (broker ++ text " evidence lacks intent correlation") broker
          q.idempotency_key none (record no_identifiers { symbol = q.symbol })
      else result confirmed_absence (broker ++ text " query returned no usable evidence") broker
          q.idempotency_key none no_identifiers

  unfoldable pub reconcile_mt5 :
      Text → List (Entry F) → List (Observation F) → Query → BrokerReconciliationResult F
  reconcile_mt5 broker entries items q =
      elim (or_else
        (elim q.order_id [
          | none ↦ none
          | some order_id ↦ ledger_scan broker q order_id entries items
        ])
        (mt5_scan broker q items)) [ some found ↦ found | none ↦ mt5_unidentified broker items q ]

  -- The two answers of the MT5 adapter, by what it could read.
  unfoldable pub reconcile_terminal :
      Text
      → Option (List (Observation F))
      → Option (List (Entry F))
      → Query
      → BrokerReconciliationResult F
  unfolding result
  reconcile_terminal broker (some items) (some entries) q = reconcile_mt5 broker entries items q
  reconcile_terminal broker _ _ q =
      result unavailable (broker ++ text " state unavailable") broker q.idempotency_key none
        no_identifiers
