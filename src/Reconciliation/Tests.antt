-- ===== src/Reconciliation/Tests.antt =====
-- The adapters on concrete observations.
use jqe.Prelude.{◌≡◌, refl, true, false, Option, none, some, List, [], ◌∷◌, pos, inl, inr, Any, All}
use jqe.Text.{Text, text}
use jqe.Number.{int}
use jqe.Number.Fixed.{Fixed, fixed_float}
use jqe.Broker.{buy}
use jqe.Store.{DateTime}
use jqe.Executor.{confirmed_match, confirmed_absence, ambiguous}
use jqe.Reconciliation.{
  Adapter, simulation, deriv, mt5, no_ledger, ledger_rows, Gateway, Query, Observation, reconcile,
  observed, wanted_contract, wanted_transaction, has_evidence, broker_id, normalize_identifier,
  get_reconciliation_adapter,
}
use jqe.Reconciliation.Matches.{Carries}
use jqe.Reconciliation.Confirmed.{HasRead, Contradicts, reconcile-confirmed_match}
use jqe.Reconciliation.Absence.{is_terminal, asks_symbol, reconcile-confirmed_absence}
use jqe.Reconciliation.Conflict.{reconcile_conflict}

-- A bought contract, by its identifier and its transaction.
abbrev contract : Text → Option Text → Observation Fixed
contract id transaction = record {
  kind = text "Position";
  position_id = some (some id);
  trade_id = none;
  transaction_id = transaction;
  order_id = none;
  order = none;
  deal_id = none;
  deal = none;
  position_identifier = none;
  request_id = none;
  symbol = some (text "R_75");
  magic = none;
  comment = none;
  side = some buy;
  volume = some (int (pos 1));
  opened_at = some (DateTime.aware 5);
  closed_at = none;
}

abbrev shows : List (Observation Fixed) → Gateway Fixed
shows items = record { positions = some items; trade_history = some [] }

abbrev asks : Option Text → Option Text → Query
asks order_id transaction_id = record {
  order_id = order_id;
  contract_id = none;
  deal_id = none;
  position_id = none;
  request_id = none;
  transaction_id = transaction_id;
  symbol = none;
  idempotency_key = some (text "k1");
}

abbrev one : Gateway Fixed
one = shows (contract (text "c1") (some (text "t1")) ∷ [])

adapter_of : get_reconciliation_adapter (text " MT5_Demo ") ≡ some (mt5 (text "mt5_demo"))
unfolding get_reconciliation_adapter jqe.Text.text_eq jqe.Text.lower jqe.Text.strip
adapter_of = refl

matched : (reconcile deriv no_ledger one (asks (some (text " c1")) none)).state ≡ confirmed_match
unfolding reconcile observed jqe.Reconciliation.reconcile_deriv normalize_identifier jqe.Text.strip
    jqe.Reconciliation.deriv_contract jqe.Reconciliation.correlated jqe.Text.text_eq
    jqe.Reconciliation.several_values
matched = refl

reconcile-confirmed_match_example :
    HasRead deriv no_ledger one
      (λ entries items. Any (Carries deriv entries (asks (some (text " c1")) none)) items)
reconcile-confirmed_match_example =
    reconcile-confirmed_match deriv no_ledger one (asks (some (text " c1")) none) matched

absent :
    (reconcile (mt5 (text "mt5")) (ledger_rows []) (shows []) (asks (some (text "7")) none)).state
    ≡ confirmed_absence
unfolding reconcile jqe.Reconciliation.reconcile_terminal observed jqe.Reconciliation.ledger_entries
    jqe.Ledger.open_entries jqe.Ledger.required_text jqe.Text.nonblank
    jqe.Reconciliation.reconcile_mt5 jqe.Reconciliation.ledger_scan jqe.Reconciliation.mt5_scan
    jqe.Reconciliation.mt5_unidentified
absent = refl

reconcile-confirmed_absence_example :
    (is_terminal (mt5 (text "mt5")) ≡ true)
    × (asks_symbol (asks (some (text "7")) none) ≡ false)
    × HasRead
        (mt5 (text "mt5"))
        (ledger_rows [])
        (shows [])
        (λ entries items. All (λ i. has_evidence i ≡ false) items)
reconcile-confirmed_absence_example =
    reconcile-confirmed_absence (mt5 (text "mt5")) (ledger_rows []) (shows [])
      (asks (some (text "7")) none) absent

abbrev both : Query
both = asks (some (text "c1")) (some (text "t1"))

abbrev torn : List (Observation Fixed)
torn = contract (text "c1") (some (text "t1")) ∷ contract (text "c1") (some (text "t2")) ∷ []

wants_contract : wanted_contract both ≡ some (text "c1")
unfolding normalize_identifier jqe.Text.strip
wants_contract = refl

wants_transaction : wanted_transaction both ≡ some (text "t1")
unfolding normalize_identifier jqe.Text.strip
wants_transaction = refl

torn_seen : observed (shows torn) ≡ some torn
unfolding observed
torn_seen = refl

contradicted :
    Any
      (λ i.
        Contradicts
          (text "c1")
          (text "t1")
          (normalize_identifier (broker_id i))
          (normalize_identifier i.transaction_id))
      torn
unfolding normalize_identifier jqe.Text.strip jqe.Text.text_eq
contradicted = inr (inl (inl (refl, refl)))

reconcile_conflict_example : (reconcile deriv no_ledger (shows torn) both).state ≡ ambiguous
reconcile_conflict_example =
    reconcile_conflict no_ledger (shows torn) both (text "c1") (text "t1") torn wants_contract
      wants_transaction torn_seen contradicted
