-- ===== src/Recovery.antt =====
-- execution/recovery.py: `StartupRecoveryService`, which resolves the intents that a former process
-- left pending or unknown. It has no gateway and so submits nothing. The data are in
-- Recovery/Data.antt.
mod Data
pub mod Evidence
pub mod Adapted
pub mod Progress
mod Tests
unfoldable pub use Data.*
use jqe.Prelude.{
  suc, ℕ, Bool, true, false, not, ◌&&◌, ◌||◌, Option, none, some, List, [], ◌∷◌, if◌then◌else◌,
  is_some, String,
}
use jqe.Text.{Text, text, text_eq, strip, lower, nonempty, or_text}
use jqe.Number.{Float}
use jqe.Intent.{
  IntentRecord, IntentRecordStatus, pending, accepted, rejected, unknown, to_execution_intent,
}
use jqe.Store.{
  Store, Result, ok, raised, Error, list_unresolved, transition, record_recovery_diagnostic,
}
use jqe.Reconciliation.{BrokerReconciliationResult}
use jqe.Executor.{
  BrokerReconciliationState, confirmed_match, confirmed_absence, ambiguous, unavailable, succeeded,
}

module _ {F : Type 0} ⦃o : Float F⦄ where
  -- A transition of the service, in which an exception leaves the store as it is.
  unfoldable pub try_transition : Service F → IntentRecord F → Store F → Result Bool × Store F
  try_transition service r s =
      let (result, s') = transition r service.utc_now s in
      if service.transition_fails r.idempotency_key
      then (raised Error.database_error, s)
      else (result, s')

  -- `_remain_unresolved`
  unfoldable pub remain_unresolved :
      Service F
      → IntentRecord F
      → StartupRecoveryOutcome
      → Text
      → Store F
      → StartupRecoveryResult × Store F
  remain_unresolved service r outcome reason s = elim r.status [
    | pending ↦
        let (moved, s') = try_transition service (record r { status = unknown }) s in
        elim moved [
          | ok true ↦ (recovery_result r.idempotency_key outcome reason, s')
          | ok false ↦ (
            recovery_result r.idempotency_key persistence_error
                (text "Ambiguous PENDING state could not be persisted as UNKNOWN"),
            s',
          )
          | raised e ↦ (recovery_result r.idempotency_key persistence_error service.failure, s')
        ]
    | _ ↦ (recovery_result r.idempotency_key outcome reason, s)
  ]

  -- `_persist`
  unfoldable pub persist :
      Service F
      → IntentRecord F
      → IntentRecordStatus
      → StartupRecoveryOutcome
      → BrokerReconciliationResult F
      → Store F
      → StartupRecoveryResult × Store F
  persist service r status outcome evidence s =
      let (persisted, s') = try_transition service (recovered r status evidence) s in
      elim persisted [
        | ok true ↦ (recovery_result r.idempotency_key outcome evidence.reason, s')
        | ok false ↦ (
          recovery_result r.idempotency_key persistence_error
              (text "Recovered terminal outcome could not be persisted"),
          s',
        )
        | raised e ↦ (recovery_result r.idempotency_key persistence_error service.failure, s')
      ]

  -- The part of `_recover_record` behind the reconciler's answer, by the state of the evidence.
  unfoldable pub recover_evidence :
      Service F
      → IntentRecord F
      → BrokerReconciliationResult F
      → BrokerReconciliationState
      → Store F
      → StartupRecoveryResult × Store F
  recover_evidence service r evidence unavailable s =
      remain_unresolved service r reconciliation_unavailable evidence.reason s
  recover_evidence service r evidence confirmed_match s =
      persist service r accepted resolved_accepted evidence s
  recover_evidence service r evidence confirmed_absence s =
      persist service r rejected resolved_rejected evidence s
  recover_evidence service r evidence ambiguous s =
      remain_unresolved service r remains_unknown evidence.reason s

  -- `_recover_record`: the result, the state for the diagnostic, and the store.
  unfoldable pub recover_record :
      Service F → IntentRecord F → Store F → StartupRecoveryResult × Option Text × Store F
  recover_record service r s = elim (to_execution_intent r) [
    | none ↦ (
      recovery_result r.idempotency_key malformed_record
          (text "Canonical execution intent payload is incomplete"),
      none,
      s,
    )
    | some intent ↦
        if not (in_scope service r)
        then (
          recovery_result r.idempotency_key scope_mismatch
              (text "Persisted broker/account scope does not match startup scope"),
          none,
          s,
        )
        else elim (service.reconciler r) [
          | none ↦
              let (result, s') =
                remain_unresolved service r reconciliation_error
                  (text "Recovery reconciliation failed") s in
              (result, some (text "ERROR"), s')
          | some evidence ↦
              let (result, s') = recover_evidence service r evidence evidence.state s in
              (result, some (evidence_value evidence.state), s')
        ]
  ]

  -- One round of the loop in `recover`.
  unfoldable pub recover_one :
      Service F → IntentRecord F → Store F → StartupRecoveryResult × Store F
  recover_one service r s =
      let (result, state, s') = recover_record service r s in
      let (published, s'') =
        record_recovery_diagnostic r.idempotency_key (outcome_value result.outcome) state
          result.reason s' in
      if service.diagnostic_fails r.idempotency_key
      then (
        recovery_result r.idempotency_key persistence_error
            (text "Recovery diagnostic could not be persisted"),
        s',
      )
      else if succeeded published
      then (result, s'')
      else (
        recovery_result r.idempotency_key persistence_error
            (text "Recovery diagnostic could not be persisted"),
        s'',
      )

  unfoldable pub recover_each :
      Service F → List (IntentRecord F) → Store F → List StartupRecoveryResult × Store F
  recover_each service [] s = ([], s)
  recover_each service (r ∷ rs) s =
      let (result, s') = recover_one service r s in
      let (results, s'') = recover_each service rs s' in (result ∷ results, s'')

  -- `recover`, where an exception of `list_unresolved` escapes
  unfoldable pub recover : Service F → Store F → Result (List StartupRecoveryResult) × Store F
  recover service s = elim (list_unresolved s).0 [
    | raised e ↦ (raised e, s)
    | ok records ↦ let (results, s') = recover_each service records s in (ok results, s')
  ]
