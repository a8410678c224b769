-- ===== src/Recovery/Data.antt =====
-- execution/recovery.py: results, the service and its surroundings, and the values that it stores.
use jqe.Prelude.{suc, ℕ, Bool, true, false, ◌&&◌, Option, none, some, List, [], ◌∷◌, if◌then◌else◌}
use jqe.Text.{Text, text, text_eq, strip, lower, nonempty, or_text}
use jqe.Intent.{IntentRecord, IntentRecordStatus, accepted}
use jqe.Reconciliation.{BrokerReconciliationResult}
use jqe.Executor.{
  BrokerReconciliationState, confirmed_match, confirmed_absence, ambiguous, unavailable,
}

pub data StartupRecoveryOutcome : Type 0 where
  resolved_accepted resolved_rejected remains_unknown malformed_record : StartupRecoveryOutcome
  scope_mismatch reconciliation_unavailable reconciliation_error : StartupRecoveryOutcome
  persistence_error : StartupRecoveryOutcome

abbrev pub outcome_value : StartupRecoveryOutcome → Text
outcome_value resolved_accepted = text "RESOLVED_ACCEPTED"
outcome_value resolved_rejected = text "RESOLVED_REJECTED"
outcome_value remains_unknown = text "REMAINS_UNKNOWN"
outcome_value malformed_record = text "MALFORMED_RECORD"
outcome_value scope_mismatch = text "SCOPE_MISMATCH"
outcome_value reconciliation_unavailable = text "RECONCILIATION_UNAVAILABLE"
outcome_value reconciliation_error = text "RECONCILIATION_ERROR"
outcome_value persistence_error = text "PERSISTENCE_ERROR"

abbrev pub evidence_value : BrokerReconciliationState → Text
evidence_value confirmed_match = text "CONFIRMED_MATCH"
evidence_value confirmed_absence = text "CONFIRMED_ABSENCE"
evidence_value ambiguous = text "AMBIGUOUS"
evidence_value unavailable = text "UNAVAILABLE"

pub record StartupRecoveryResult : Type 0 where
  pub idempotency_key : Text
  pub outcome : StartupRecoveryOutcome
  pub reason : Text

-- `resolved`
abbrev pub is_resolved : StartupRecoveryOutcome → Bool
is_resolved resolved_accepted = true
is_resolved resolved_rejected = true
is_resolved _ = false

-- `unresolved_count`
unfoldable pub unresolved_count : List StartupRecoveryResult → ℕ
unresolved_count [] = 0
unresolved_count (r ∷ rs) =
    let rest = unresolved_count rs in if is_resolved r.outcome then rest else suc rest

-- The arguments of the service's scope, the broker's reconciler (`none` is an exception), the database, and the
-- clock of its UPDATEs. `failure` is the text of an exception of a transition.
pub record Service (F : Type 0) : Type 0 where
  pub broker : Text
  pub account_id : Text
  pub reconciler : IntentRecord F → Option (BrokerReconciliationResult F)
  pub transition_fails : Text → Bool
  pub diagnostic_fails : Text → Bool
  pub failure : Text
  pub utc_now : ℕ

abbrev pub recovery_result : Text → StartupRecoveryOutcome → Text → StartupRecoveryResult
recovery_result key outcome reason = record {
  idempotency_key = key;
  outcome = outcome;
  reason = reason;
}

-- `not value or value.strip() != expected`, negated
abbrev same_text : Option Text → (Text → Text) → Text → Bool
same_text none f expected = false
same_text (some t) f expected = nonempty t && text_eq (f t) expected

module _ {F : Type 0} where
  -- The test of the record's broker and account.
  unfoldable pub in_scope : Service F → IntentRecord F → Bool
  in_scope service r =
      same_text r.broker (λ t. lower (strip t)) (lower (strip service.broker))
      && same_text r.account_id strip (strip service.account_id)

  -- The identifiers that `_persist` stores.
  abbrev pub recovered_order_id : IntentRecord F → BrokerReconciliationResult F → Option Text
  recovered_order_id r evidence =
      or_text
        (elim evidence.evidence [
          | none ↦ r.order_id
          | some e ↦ or_text (or_text r.order_id e.order_id) e.contract_id
        ])
        evidence.contract_id

  abbrev pub recovered_transaction_id : IntentRecord F → BrokerReconciliationResult F → Option Text
  recovered_transaction_id r evidence =
      or_text
        (elim evidence.evidence [
          | none ↦ r.transaction_id
          | some e ↦ or_text r.transaction_id e.transaction_id
        ])
        evidence.transaction_id

  -- The record that `_persist` stores.
  abbrev pub recovered :
      IntentRecord F → IntentRecordStatus → BrokerReconciliationResult F → IntentRecord F
  recovered r status evidence = record r {
    status = status;
    order_id = elim status [ accepted ↦ recovered_order_id r evidence | _ ↦ none ];
    transaction_id = recovered_transaction_id r evidence;
  }
