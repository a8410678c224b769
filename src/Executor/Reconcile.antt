-- ===== src/Executor/Reconcile.antt =====
-- execution/executor.py: `reconcile` and `_transition`.
use jqe.Prelude.{Bool, true, false, Option, none, some, List, any, if◌then◌else◌, String}
use jqe.Text.{Text, normalize, or_text, text_eq}
use jqe.Number.{Float}
use jqe.Value.{chars}
use jqe.Policy.{ExecutionIntent, PositionSnapshot}
use jqe.Intent.{IntentRecord, IntentRecordStatus, bare_record}
use jqe.Store.{Store, Result, ok, raised, database_error, get, transition}
use jqe.Executor.Data.{
  ReconciliationState, ReconciliationResult, BrokerReconciliationState, confirmed_match, Position,
  Evidence, Call, Surroundings, World, Outcome, returned, escaped,
}
use jqe.Executor.Positions.{from_positions}

module _ {F : Type 0} where
  -- One call of the store: others have acted, then the database fails or the method runs.
  unfoldable pub call :
      {A : Type 0}
      → Surroundings F
      → Call
      → (Store F → Result A × Store F)
      → World F
      → Result A × World F
  call env c method w =
      let w' = env.meanwhile c w in
      let (r, s) = method w'.store in
      if env.outage c then (raised database_error, w') else (r, record w' { store = s })

  abbrev pub intent_key : ExecutionIntent F → Text
  intent_key intent = chars intent.idempotency_key

  -- `any(position.symbol.strip().upper() == symbol for position in snapshots)`
  abbrev pub symbol_match : Text → List (PositionSnapshot F) → Bool
  symbol_match symbol ps = any (λ p. text_eq (normalize (chars p.symbol)) symbol) ps

abbrev pub reconciled_as : ReconciliationState → String → Outcome ReconciliationResult
reconciled_as state reason = returned (record { state = state; reason = reason })

-- `bool(...)` of a call in which an exception counts as False
abbrev pub succeeded : Result Bool → Bool
succeeded (ok b) = b
succeeded (raised e) = false

abbrev pub confirms : BrokerReconciliationState → Bool
confirms confirmed_match = true
confirms _ = false

-- The reason where there are no snapshots: the call raised, or a position is malformed.
abbrev unreadable_reason : Option (List (Option Position)) → String
unreadable_reason none = "Broker state unavailable"
unreadable_reason (some ps) = "Broker state malformed"

abbrev pub is_pending : IntentRecordStatus → Bool
is_pending IntentRecordStatus.pending = true
is_pending _ = false

module _ {F : Type 0} ⦃o : Float F⦄ where
  -- `_transition`
  unfoldable pub transition_intent :
      Surroundings F
      → Call
      → ExecutionIntent F
      → IntentRecordStatus
      → Option Text
      → Option Text
      → World F
      → Bool × World F
  transition_intent env c intent status order_id transaction_id w =
      let (r, w') =
        call env c
          (transition (bare_record (intent_key intent) status order_id transaction_id)
            (env.utc_now c))
          w in
      (succeeded r, w')

  -- The part of `reconcile` behind the answer of the broker's reconciler.
  unfoldable pub reconcile_evidence :
      Surroundings F
      → Call
      → ExecutionIntent F
      → IntentRecord F
      → Evidence
      → World F
      → Outcome ReconciliationResult × World F
  reconcile_evidence env c intent r evidence w =
      if confirms evidence.state
      then (let (persisted, w') =
            transition_intent env c intent IntentRecordStatus.accepted
              (or_text r.order_id evidence.contract_id)
              (or_text r.transaction_id evidence.transaction_id) w in
          if persisted
          then (reconciled_as ReconciliationState.already_executed evidence.reason, w')
          else (
            reconciled_as ReconciliationState.unknown "Reconciled outcome could not be persisted",
            w',
          ))
      else if is_pending r.status
      then (let (persisted, w') =
            transition_intent env c intent IntentRecordStatus.unknown none none w in
          if persisted then (reconciled_as ReconciliationState.unknown evidence.reason, w') else (
            reconciled_as ReconciliationState.unknown
                "Uncertain recovery state could not be persisted",
            w',
          ))
      else (reconciled_as ReconciliationState.unknown evidence.reason, w)

  -- The part for a record that is pending or unknown.
  unfoldable pub reconcile_unresolved :
      Surroundings F
      → Call
      → ExecutionIntent F
      → IntentRecord F
      → World F
      → Outcome ReconciliationResult × World F
  reconcile_unresolved env c intent r w = elim env.reconciler [
    | none ↦ (
      reconciled_as
          (if is_pending r.status then ReconciliationState.pending else ReconciliationState.unknown)
          "Broker reconciler is not configured",
      w,
    )
    | some ask ↦ elim (ask r) [
      | none ↦ (escaped, w)
      | some evidence ↦ reconcile_evidence env c intent r evidence w
    ]
  ]

  -- The part behind the lookup of the record, with the positions that were observed.
  unfoldable pub reconcile_record :
      Surroundings F
      → Call
      → Option (List (Option Position))
      → ExecutionIntent F
      → Option (IntentRecord F)
      → World F
      → Outcome ReconciliationResult × World F
  reconcile_record env c observed intent none w = elim (from_positions {F = F} observed) [
    | none ↦ (reconciled_as ReconciliationState.unknown (unreadable_reason observed), w)
    | some snapshots ↦
        if symbol_match (normalize (chars intent.symbol)) snapshots
        then (reconciled_as ReconciliationState.already_executed "Symbol has an open position", w)
        else if env.recovery_mode
        then (
          reconciled_as ReconciliationState.unknown "Recovery mode cannot prove intent absence",
          w,
        )
        else (
          reconciled_as ReconciliationState.ready_to_submit "No prior intent or position found",
          w,
        )
  ]
  reconcile_record env c observed intent (some r) w = elim r.status [
    | IntentRecordStatus.rejected ↦
        (reconciled_as ReconciliationState.rejected "Intent was rejected", w)
    | IntentRecordStatus.accepted ↦
        (reconciled_as ReconciliationState.already_executed "Intent was already accepted", w)
    | _ ↦ elim (from_positions {F = F} observed) [
      | none ↦ (reconciled_as ReconciliationState.unknown (unreadable_reason observed), w)
      | some snapshots ↦ reconcile_unresolved env c intent r w
    ]
  ]

  -- `reconcile`, whose store calls are `looked` and `c`.
  unfoldable pub reconcile :
      Surroundings F
      → Call
      → Call
      → Option (List (Option Position))
      → ExecutionIntent F
      → World F
      → Outcome ReconciliationResult × World F
  reconcile env looked c observed intent w =
      let (found, w') = call env looked (get (intent_key intent)) w in
      elim found [
        | raised e ↦ (reconciled_as ReconciliationState.unknown "Intent records unavailable", w')
        | ok r ↦ reconcile_record env c observed intent r w'
      ]
