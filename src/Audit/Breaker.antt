-- ===== src/Audit/Breaker.antt =====
-- execution/continuous_reconciliation.py: `ContinuousTerminalReconciliationService`, which audits in
-- a loop and trips the emergency stop.
use jqe.Prelude.{
  ℕ, Bool, true, false, not, ◌&&◌, Option, none, some, pos, List, [], ◌∷◌, length, map,
  if◌then◌else◌,
}
use jqe.Text.{Text}
use jqe.Number.{Float}
use jqe.Store.{aware}
use jqe.Safety.{
  EmergencyStopState, active, durable, authoritative, blocked, ExecutionSafetySnapshot,
  valid_snapshot, SafetyStore, publish,
}
use jqe.Audit.Data.{
  discrepancy_value, BrokerPosition, AuditReconciliationReport, emergency_stop_tripped, Sources,
}
use jqe.Audit.Cycle.{audit}

-- The two settings that a breach overwrites.
pub record Settings : Type 0 where
  pub emergency_stop : EmergencyStopState
  pub broker_execution_enabled : Bool

-- The service's fields that change, with the settings and the safety store, where they are
-- configured.
pub record Monitor (F : Type 0) : Type 0 where
  pub running : Bool
  pub last_report : Option (AuditReconciliationReport F)
  pub emergency_stop_latched : Bool
  pub settings : Option Settings
  pub safety_store : Option (SafetyStore F)

-- What one round of the loop meets: whether the stop event is set before it, the auditor's sources,
-- the broker's answer, the time, whether the safety store's database fails, and whether `stop` is
-- called before the next round.
pub record Round (F : Type 0) : Type 0 where
  pub stop_event : Bool
  pub sources : Sources F
  pub positions : Option (List (Option (BrokerPosition F)))
  pub now : ℕ
  pub outage : Bool
  pub stopped : Bool

abbrev stopped_settings : Option Settings → Option Settings
stopped_settings none = none
stopped_settings (some s) =
    some (record { emergency_stop = active; broker_execution_enabled = false })

module _ {F : Type 0} where
  -- The snapshot that a breach publishes.
  abbrev pub breach_snapshot : Text → AuditReconciliationReport F → ExecutionSafetySnapshot
  breach_snapshot environment report = record {
    observed_at = aware report.reconciled_at;
    emergency_stop_state = active;
    execution_mode = durable;
    broker = report.broker;
    environment = environment;
    durable_executor_enabled = false;
    daily_state_authority = authoritative;
    unresolved_intent_count = pos (length report.discrepancies);
    unresolved_intent_blocked = true;
    execution_authorization = blocked;
    reason_codes = map (λ d. discrepancy_value d.discrepancy_type) report.discrepancies;
    schema_version = 1;
  }

  -- Its publication, of which every exception is swallowed.
  unfoldable pub publish_breach :
      Text → Bool → AuditReconciliationReport F → Option (SafetyStore F) → Option (SafetyStore F)
  publish_breach environment outage report none = none
  publish_breach environment outage report (some store) = some (
      if valid_snapshot (breach_snapshot environment report) && not outage
      then publish (breach_snapshot environment report) store
      else store)

  -- `reconcile_and_protect` behind the audit. The callback `on_circuit_break` is left out: it gets
  -- the report, and its exceptions are swallowed.
  unfoldable pub protect :
      Text
      → Bool
      → AuditReconciliationReport F
      → Monitor F
      → AuditReconciliationReport F × Monitor F
  unfolding publish_breach
  protect environment outage report m =
      if report.is_clean then (report, record m { last_report = some report }) else (
        record report { stop_tripped = true; action_taken = emergency_stop_tripped },
        record m {
          last_report =
              some (record report { stop_tripped = true; action_taken = emergency_stop_tripped });
          emergency_stop_latched = true;
          settings = stopped_settings m.settings;
          safety_store = publish_breach environment outage report m.safety_store;
        },
      )

module _ {F : Type 0} ⦃o : Float F⦄ where
  -- `reconcile_and_protect`
  unfoldable pub reconcile_and_protect :
      Text → Round F → Monitor F → AuditReconciliationReport F × Monitor F
  reconcile_and_protect environment round m =
      protect environment round.outage (audit round.sources round.positions round.now) m

  -- The loop of `run_loop`, with the reports of its rounds. It is cancelled behind the last round.
  unfoldable pub run_rounds :
      Text → List (Round F) → Monitor F → List (AuditReconciliationReport F) × Monitor F
  run_rounds environment [] m = ([], record m { running = false })
  run_rounds environment (round ∷ rounds) m =
      let (report, m') = reconcile_and_protect environment round m in
      let (reports, m'') = run_rounds environment rounds m' in
      if round.stop_event
      then ([], record m { running = false })
      else if report.stop_tripped
      then (report ∷ [], record m' { running = false })
      else if round.stopped
      then (report ∷ [], record m' { running = false })
      else (report ∷ reports, m'')

  -- `run_loop`
  unfoldable pub run_loop :
      Text → List (Round F) → Monitor F → List (AuditReconciliationReport F) × Monitor F
  run_loop environment rounds m = run_rounds environment rounds (record m { running = true })
