-- ===== src/Audit/Tripped.antt =====
-- When the circuit breaker of execution/continuous_reconciliation.py trips, and what it leaves.
use jqe.Prelude.{
  ◌≡◌, refl, Bool, true, false, some, List, [], ◌∷◌, all, map, arith, inl, inr, Option-cases,
}
use jqe.Text.{Text, nonblank}
use jqe.Number.{Float}
use jqe.Store.{ok}
use jqe.Safety.{
  active, blocked, ExecutionSafetySnapshot, valid_snapshot, SafetyStore, read, publish,
}
use jqe.Safety.Roundtrip.{on_one_line, read-publish}
use jqe.Audit.{
  ReconciliationDiscrepancyType, discrepancy_value, ReconciliationDiscrepancy,
  AuditReconciliationReport, audit, Settings, Monitor, Round, breach_snapshot, publish_breach,
  protect, reconcile_and_protect,
}

discrepancy_value-nonblank :
    (d : ReconciliationDiscrepancyType) → nonblank (discrepancy_value d) ≡ true
unfolding nonblank
discrepancy_value-nonblank ReconciliationDiscrepancyType.untracked_broker_position = refl
discrepancy_value-nonblank ReconciliationDiscrepancyType.external_manual_trade = refl
discrepancy_value-nonblank ReconciliationDiscrepancyType.volume_mismatch = refl
discrepancy_value-nonblank ReconciliationDiscrepancyType.symbol_mismatch = refl
discrepancy_value-nonblank ReconciliationDiscrepancyType.side_mismatch = refl
discrepancy_value-nonblank ReconciliationDiscrepancyType.protective_stop_altered = refl
discrepancy_value-nonblank ReconciliationDiscrepancyType.phantom_internal_position = refl
discrepancy_value-nonblank ReconciliationDiscrepancyType.broker_unavailable = refl
discrepancy_value-nonblank ReconciliationDiscrepancyType.malformed_broker_data = refl

discrepancy_value-on_one_line :
    (d : ReconciliationDiscrepancyType) → on_one_line (discrepancy_value d) ≡ true
discrepancy_value-on_one_line ReconciliationDiscrepancyType.untracked_broker_position = refl
discrepancy_value-on_one_line ReconciliationDiscrepancyType.external_manual_trade = refl
discrepancy_value-on_one_line ReconciliationDiscrepancyType.volume_mismatch = refl
discrepancy_value-on_one_line ReconciliationDiscrepancyType.symbol_mismatch = refl
discrepancy_value-on_one_line ReconciliationDiscrepancyType.side_mismatch = refl
discrepancy_value-on_one_line ReconciliationDiscrepancyType.protective_stop_altered = refl
discrepancy_value-on_one_line ReconciliationDiscrepancyType.phantom_internal_position = refl
discrepancy_value-on_one_line ReconciliationDiscrepancyType.broker_unavailable = refl
discrepancy_value-on_one_line ReconciliationDiscrepancyType.malformed_broker_data = refl

module _ {F : Type 0} where
  codes_nonblank :
      (ds : List (ReconciliationDiscrepancy F))
      → all nonblank (map (λ d. discrepancy_value d.discrepancy_type) ds) ≡ true
  codes_nonblank [] = refl
  codes_nonblank (d ∷ ds) =
      ground (arith, discrepancy_value-nonblank d.discrepancy_type, codes_nonblank ds)

  codes_on_one_line :
      (ds : List (ReconciliationDiscrepancy F))
      → all on_one_line (map (λ d. discrepancy_value d.discrepancy_type) ds) ≡ true
  codes_on_one_line [] = refl
  codes_on_one_line (d ∷ ds) =
      ground (arith, discrepancy_value-on_one_line d.discrepancy_type, codes_on_one_line ds)

  breach_snapshot-valid :
      (environment : Text) (report : AuditReconciliationReport F)
      → nonblank report.broker ≡ true
      → nonblank environment ≡ true
      → valid_snapshot (breach_snapshot environment report) ≡ true
  unfolding valid_snapshot
  breach_snapshot-valid environment report broker named =
      ground (arith, codes_nonblank report.discrepancies)

  -- The snapshot blocks execution, and gives the types of the discrepancies as its reasons.
  abbrev pub IsBlocked : Text → AuditReconciliationReport F → ExecutionSafetySnapshot → Type 0
  IsBlocked environment report snapshot =
      (snapshot.emergency_stop_state ≡ active)
      × (snapshot.execution_authorization ≡ blocked)
      × (snapshot.durable_executor_enabled ≡ false)
      × (snapshot.unresolved_intent_blocked ≡ true)
      × (snapshot.broker ≡ report.broker)
      × (snapshot.environment ≡ environment)
      × (snapshot.reason_codes
          ≡ map (λ d. discrepancy_value d.discrepancy_type) report.discrepancies)

  protect-unclean :
      (environment : Text) (outage : Bool) (report : AuditReconciliationReport F) (m : Monitor F)
      → report.is_clean ≡ false
      → ((protect environment outage report m).0.stop_tripped ≡ true)
        × ((protect environment outage report m).1.emergency_stop_latched ≡ true)
  unfolding protect
  protect-unclean environment outage report m unclean = (ground arith, ground arith)

  protect-settings :
      (environment : Text) (outage : Bool) (report : AuditReconciliationReport F) (m : Monitor F)
      (settings : Settings)
      → report.is_clean ≡ false
      → m.settings ≡ some settings
      → (protect environment outage report m).1.settings
        ≡ some (record { emergency_stop = active; broker_execution_enabled = false })
  unfolding protect
  protect-settings environment outage report m settings unclean configured = ground arith

  protect-read :
      (environment : Text) (report : AuditReconciliationReport F) (m : Monitor F)
      (store : SafetyStore F)
      → report.is_clean ≡ false
      → m.safety_store ≡ some store
      → nonblank report.broker ≡ true
      → nonblank environment ≡ true
      → (left : SafetyStore F) × ((protect environment false report m).1.safety_store ≡ some left)
        × (snapshot : ExecutionSafetySnapshot) × (read left ≡ ok (some snapshot))
        × IsBlocked environment report snapshot
  unfolding protect publish_breach
  protect-read environment report m store unclean configured broker named =
      let snapshot = breach_snapshot environment report in
      let valid = breach_snapshot-valid environment report broker named in
      (
        publish snapshot store,
        ground (arith, valid),
        snapshot,
        read-publish snapshot store valid (codes_on_one_line report.discrepancies),
        (refl, refl, refl, refl, refl, refl, refl),
      )

module _ {F : Type 0} ⦃o : Float F⦄ where
  audit-broker :
      (round : Round F)
      → (audit round.sources round.positions round.now).broker ≡ round.sources.broker
  unfolding audit
  audit-broker round = elim (Option-cases round.positions) [
    | inl h ↦ ground arith
    | inr (items, h) ↦ ground arith
  ]

  -- A round whose audit is not clean reports the stop as tripped and latches it. The settings that
  -- are configured have the emergency stop active and execution disabled, and the safety store that
  -- is configured is read as a snapshot with the stop active, the execution blocked and the durable
  -- executor disabled, for that broker and environment, with the types of the discrepancies as its
  -- reasons. The broker's and the environment's names are nonblank, and
  -- the safety store's database does not fail.
  pub reconcile_and_protect_breach :
      (environment : Text) (round : Round F) (m : Monitor F) (settings : Settings)
      (store : SafetyStore F)
      → (audit round.sources round.positions round.now).is_clean ≡ false
      → round.outage ≡ false
      → nonblank round.sources.broker ≡ true
      → nonblank environment ≡ true
      → m.settings ≡ some settings
      → m.safety_store ≡ some store
      → ((reconcile_and_protect environment round m).0.stop_tripped ≡ true)
        × ((reconcile_and_protect environment round m).1.emergency_stop_latched ≡ true)
        × ((reconcile_and_protect environment round m).1.settings
            ≡ some (record { emergency_stop = active; broker_execution_enabled = false }))
        × ((left : SafetyStore F) × ((reconcile_and_protect environment round m).1.safety_store
              ≡ some left)
            × (snapshot : ExecutionSafetySnapshot) × (read left ≡ ok (some snapshot))
            × IsBlocked environment (audit round.sources round.positions round.now) snapshot)
  unfolding reconcile_and_protect
  reconcile_and_protect_breach environment round m settings store unclean runs broker named s1 s2 =
      let report = audit round.sources round.positions round.now in
      let (tripped, latched) = protect-unclean environment round.outage report m unclean in
      (
        tripped,
        latched,
        protect-settings environment round.outage report m settings unclean s1,
        rw runs (
            protect-read environment report m store unclean s2 (rw (audit-broker round) broker)
              named),
      )
