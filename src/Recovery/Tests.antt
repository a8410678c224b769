-- ===== src/Recovery/Tests.antt =====
-- A recovery of one pending intent.
use jqe.Prelude.{◌≡◌, ◌⊎◌, refl, true, false, some, none, [], ◌∷◌, List, map, Any}
use jqe.Text.{Text, text, nonblank, nonempty}
use jqe.Number.Fixed.{Fixed, fixed_float}
use jqe.Intent.{IntentRecord, IntentRecordStatus}
use jqe.Broker.{buy}
use jqe.Store.{claim_row, Store, ok, get, list_unresolved}
use jqe.Store.Steps.{Steps}
use jqe.Executor.{confirmed_match, confirmed_absence}
use jqe.Reconciliation.{BrokerReconciliationResult}
use jqe.Recovery.{
  Service, StartupRecoveryResult, is_resolved, in_scope, recover_record, recover, recovered,
}
use jqe.Recovery.Evidence.{recover_record_resolved, IsScoped, as_accepted, as_rejected}
use jqe.Recovery.Progress.{recover-Steps}
use jqe.Recovery.Adapted.{adapted, recovery_query, recover_record-adapted}
use jqe.Reconciliation.{deriv, no_ledger, Gateway, Observation, reconcile}
use jqe.Reconciliation.Matches.{Carries}
use jqe.Reconciliation.Confirmed.{HasRead}
use jqe.Samples.{pending_record, pending_store}

abbrev matched : BrokerReconciliationResult Fixed
matched = record {
  state = confirmed_match;
  reason = text "found";
  contract_id = some (text "c1");
  transaction_id = some (text "t1");
  evidence = none;
}

abbrev service : Service Fixed
service = record {
  broker = text " Deriv_Demo";
  account_id = text "VRTC1";
  reconciler = λ r. some matched;
  transition_fails = λ k. false;
  diagnostic_fails = λ k. false;
  failure = [];
  utc_now = 9;
}

key_named : nonblank (text "k1") ≡ true
unfolding nonblank
key_named = refl

pending_read : (get (text "k1") pending_store).0 ≡ ok (some pending_record)
unfolding get nonblank jqe.Store.find_row jqe.Text.text_eq jqe.Store.claim_row jqe.Store.decode
    jqe.Store.decode_quantity jqe.Store.decode_side jqe.Store.status_of
pending_read = refl

resolves : is_resolved (recover_record service pending_record pending_store).0.outcome ≡ true
unfolding recover_record jqe.Intent.to_execution_intent in_scope jqe.Text.text_eq jqe.Text.lower
    jqe.Text.strip jqe.Recovery.recover_evidence jqe.Recovery.persist jqe.Recovery.try_transition
    jqe.Store.transition nonblank jqe.Store.find_row jqe.Store.claim_row jqe.Store.decode
    jqe.Store.decode_quantity jqe.Store.decode_side jqe.Store.status_of jqe.Store.allowed_transition
resolves = refl

recover_record_resolved_example :
    IsScoped service pending_record
    × ((evidence : BrokerReconciliationResult Fixed) × (service.reconciler pending_record
          ≡ some evidence)
        × ((evidence.state ≡ confirmed_match)
              × ((get (text "k1") (recover_record service pending_record pending_store).2).0
                  ≡ ok (some (as_accepted pending_record evidence)))
            ⊎ (evidence.state ≡ confirmed_absence)
              × ((get (text "k1") (recover_record service pending_record pending_store).2).0
                  ≡ ok (some (as_rejected pending_record evidence)))))
recover_record_resolved_example =
    recover_record_resolved service pending_record pending_store key_named pending_read resolves

listed : (list_unresolved pending_store).0 ≡ ok (pending_record ∷ [])
unfolding list_unresolved jqe.Store.decode_unresolved jqe.Store.order_rows jqe.Store.decode
    jqe.Store.decode_quantity jqe.Store.claim_row jqe.Store.decode_side jqe.Store.status_of
listed = refl

recover-Steps_example :
    Steps pending_store (recover service pending_store).1
    × ((results : List StartupRecoveryResult) × ((recover service pending_store).0 ≡ ok results)
        × (map (λ x. x.idempotency_key) results ≡ text "k1" ∷ []))
recover-Steps_example = recover-Steps service (pending_record ∷ []) pending_store listed

-- A pending intent whose transaction is known, and the contract that Deriv shows for it.
abbrev known_record : IntentRecord Fixed
known_record = record pending_record { transaction_id = some (text "t1") }

abbrev known_store : Store Fixed
known_store = record pending_store { intents = claim_row known_record (some (text "VRTC1")) 5 ∷ [] }

abbrev shown_contract : Observation Fixed
shown_contract = record {
  kind = text "Position";
  position_id = some (some (text "c1"));
  trade_id = none;
  transaction_id = some (text "t1");
  order_id = none;
  order = none;
  deal_id = none;
  deal = none;
  position_identifier = none;
  request_id = none;
  symbol = some (text "R_75");
  magic = none;
  comment = none;
  side = some buy;
  volume = none;
  opened_at = none;
  closed_at = none;
}

abbrev shows_contract : Gateway Fixed
shows_contract = record { positions = some (shown_contract ∷ []); trade_history = some [] }

known_read : (get (text "k1") known_store).0 ≡ ok (some known_record)
unfolding get nonblank jqe.Store.find_row jqe.Text.text_eq claim_row jqe.Store.decode
    jqe.Store.decode_quantity jqe.Store.decode_side jqe.Store.status_of
known_read = refl

adapted_resolves :
    is_resolved
      (recover_record
        (adapted service deriv no_ledger shows_contract)
        known_record
        known_store).0.outcome
    ≡ true
unfolding recover_record jqe.Intent.to_execution_intent in_scope jqe.Text.text_eq jqe.Text.lower
    jqe.Text.strip jqe.Recovery.recover_evidence reconcile jqe.Reconciliation.observed
    jqe.Reconciliation.reconcile_deriv jqe.Reconciliation.normalize_identifier
    jqe.Reconciliation.deriv_transaction jqe.Reconciliation.correlated
    jqe.Reconciliation.several_values jqe.Recovery.persist jqe.Recovery.try_transition
    jqe.Store.transition nonblank jqe.Store.find_row jqe.Store.decode jqe.Store.decode_quantity
    jqe.Store.decode_side jqe.Store.status_of jqe.Store.allowed_transition claim_row
adapted_resolves = refl

symbol_given : nonempty (text "R_75") ≡ true
symbol_given = refl

recover_record-adapted_example :
    ((get
        (text "k1")
        (recover_record
          (adapted service deriv no_ledger shows_contract)
          known_record
          known_store).2).0
      ≡ ok (
          some (
            as_accepted known_record
              (reconcile deriv no_ledger shows_contract (recovery_query known_record)))))
    × HasRead deriv no_ledger shows_contract
        (λ entries items. Any (Carries deriv entries (recovery_query known_record)) items)
recover_record-adapted_example =
    recover_record-adapted service deriv no_ledger shows_contract known_record (text "R_75")
      known_store key_named known_read refl symbol_given adapted_resolves
