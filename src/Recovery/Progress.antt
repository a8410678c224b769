-- ===== src/Recovery/Progress.antt =====
-- Whole runs of `StartupRecoveryService.recover`, as steps of the store.
use jqe.Prelude.{
  ◌≡◌, refl, arith, Bool-cases, inl, inr, List, [], ◌∷◌, map, Bool, true, false, Option-cases,
}
use jqe.Text.{Text, text}
use jqe.Number.{Float}
use jqe.Intent.{
  IntentRecord, IntentRecordStatus, pending, accepted, rejected, unknown, to_execution_intent,
}
use jqe.Store.{Store, ok, list_unresolved, record_recovery_diagnostic}
use jqe.Store.Steps.{Step, Steps}
use jqe.Executor.{
  BrokerReconciliationState, confirmed_match, confirmed_absence, ambiguous, unavailable,
}
use jqe.Reconciliation.{BrokerReconciliationResult}
use jqe.Recovery.{
  Service, StartupRecoveryResult, try_transition, remain_unresolved, persist, recover_evidence,
  recover_record, recover_one, recover_each, recover, recovered, StartupRecoveryOutcome,
  outcome_value, in_scope,
}

abbrev awaiting : IntentRecordStatus → Bool
awaiting pending = true
awaiting _ = false

module _ {F : Type 0} ⦃o : Float F⦄ where
  pub Steps-trans : (s t u : Store F) → Steps s t → Steps t u → Steps s u
  Steps-trans s t u p Steps.done = p
  Steps-trans s t u p (Steps.next {t = v} q step) = Steps.next (Steps-trans s t v p q) step

  -- The same steps lead to an equal store.
  Steps-to : (s t u : Store F) → u ≡ t → Steps s t → Steps s u
  Steps-to s t u same p = rw same p

  module _ (service : Service F) where
    try_transition-Steps :
        (r : IntentRecord F) (s : Store F) → Steps s (try_transition service r s).1
    unfolding try_transition
    try_transition-Steps r s = elim (Bool-cases (service.transition_fails r.idempotency_key)) [
      | inl fails ↦ rw fails Steps.done
      | inr runs ↦ rw runs (Steps.next Steps.done (Step.resolve r service.utc_now))
    ]

    remain_unresolved-Steps :
        (r : IntentRecord F) (outcome : StartupRecoveryOutcome) (reason : Text) (s : Store F)
        → Steps s (remain_unresolved service r outcome reason s).1
    unfolding remain_unresolved
    remain_unresolved-Steps r outcome reason s =
        let undecided_record : IntentRecord F = record r { status = unknown } in
        let moved = try_transition-Steps undecided_record s in
        let t = (try_transition service undecided_record s).1 in
        elim (Bool-cases (awaiting r.status)) [
          | inl waits ↦ Steps-to s t _ (ground arith) moved
          | inr other ↦ Steps-to s s _ (ground arith) Steps.done
        ]

    persist-Steps :
        (r : IntentRecord F) (status : IntentRecordStatus) (outcome : StartupRecoveryOutcome)
        (evidence : BrokerReconciliationResult F) (s : Store F)
        → Steps s (persist service r status outcome evidence s).1
    unfolding persist
    persist-Steps r status outcome evidence s =
        let moved = try_transition-Steps (recovered r status evidence) s in
        Steps-to s (try_transition service (recovered r status evidence) s).1 _ (ground arith) moved

    recover_evidence-Steps :
        (r : IntentRecord F) (evidence : BrokerReconciliationResult F)
        (state : BrokerReconciliationState) (s : Store F)
        → Steps s (recover_evidence service r evidence state s).1
    unfolding recover_evidence
    recover_evidence-Steps r evidence unavailable s =
        remain_unresolved-Steps r StartupRecoveryOutcome.reconciliation_unavailable evidence.reason
          s
    recover_evidence-Steps r evidence ambiguous s =
        remain_unresolved-Steps r StartupRecoveryOutcome.remains_unknown evidence.reason s
    recover_evidence-Steps r evidence confirmed_match s =
        persist-Steps r accepted StartupRecoveryOutcome.resolved_accepted evidence s
    recover_evidence-Steps r evidence confirmed_absence s =
        persist-Steps r rejected StartupRecoveryOutcome.resolved_rejected evidence s

    recover_record-Steps :
        (r : IntentRecord F) (s : Store F) → Steps s (recover_record service r s).2
    unfolding recover_record
    recover_record-Steps r s = elim (Option-cases (to_execution_intent r)) [
      | inl malformed ↦ Steps-to s s _ (ground arith) Steps.done
      | inr (intent, complete) ↦ elim (Bool-cases (in_scope service r)) [
        | inr foreign ↦ Steps-to s s _ (ground arith) Steps.done
        | inl scoped ↦ elim (Option-cases (service.reconciler r)) [
          | inl broken ↦ Steps-to s _ _ (ground arith) (
              remain_unresolved-Steps r StartupRecoveryOutcome.reconciliation_error
                (text "Recovery reconciliation failed") s)
          | inr (evidence, answered) ↦
              Steps-to s _ _ (ground arith) (recover_evidence-Steps r evidence evidence.state s)
        ]
      ]
    ]

    recover_one-Steps : (r : IntentRecord F) (s : Store F) → Steps s (recover_one service r s).1
    unfolding recover_one
    recover_one-Steps r s =
        let left = recover_record service r s in
        let path : Steps s left.2 = recover_record-Steps r s in
        let diagnosed =
          record_recovery_diagnostic r.idempotency_key (outcome_value left.0.outcome) left.1
            left.0.reason left.2 in
        let written : Steps s diagnosed.1 =
          Steps.next path (Step.diagnose r.idempotency_key _ left.1 _) in
        elim (Bool-cases (service.diagnostic_fails r.idempotency_key)) [
          | inl fails ↦ Steps-to s left.2 _ (ground arith) path
          | inr runs ↦ Steps-to s diagnosed.1 _ (ground arith) written
        ]

    recover_each-Steps :
        (rs : List (IntentRecord F)) (s : Store F) → Steps s (recover_each service rs s).1
    unfolding recover_each
    recover_each-Steps [] s = Steps.done
    recover_each-Steps (r ∷ rs) s =
        let t = (recover_one service r s).1 in
        Steps-trans s t (recover_each service rs t).1 (recover_one-Steps r s)
          (recover_each-Steps rs t)

    key_of_result :
        (r : IntentRecord F) (s : Store F)
        → (recover_one service r s).0.idempotency_key ≡ r.idempotency_key
    unfolding recover_one recover_record recover_evidence remain_unresolved persist
    key_of_result r s = ground arith

    recover_each-keys :
        (rs : List (IntentRecord F)) (s : Store F)
        → map (λ x. x.idempotency_key) (recover_each service rs s).0
          ≡ map (λ r. r.idempotency_key) rs
    unfolding recover_each
    recover_each-keys [] s = refl
    recover_each-keys (r ∷ rs) s =
        ground (arith, key_of_result r s, recover_each-keys rs (recover_one service r s).1)

    -- A startup recovery that can read the unresolved records gives one result for each of them, in
    -- their order, and changes the store by steps only: whatever the reconciler answers and
    -- whichever writes fail.
    pub recover-Steps :
        (records : List (IntentRecord F)) (s : Store F)
        → (list_unresolved s).0 ≡ ok records
        → Steps s (recover service s).1
          × ((results : List StartupRecoveryResult) × ((recover service s).0 ≡ ok results)
              × (map (λ x. x.idempotency_key) results ≡ map (λ r. r.idempotency_key) records))
    unfolding recover
    recover-Steps records s read = (
      Steps-to s (recover_each service records s).1 _ (ground arith) (recover_each-Steps records s),
      ((recover_each service records s).0, ground arith, recover_each-keys records s),
    )
