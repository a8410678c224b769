-- ===== src/Executor/Submit.antt =====
-- execution/executor.py: `submit` and `_submit_reserved`.
use jqe.Prelude.{not, Option, none, some, ◌>>=◌, List, [], map, is_some, if◌then◌else◌, String}
use jqe.Text.{Text, strip, nonempty}
use jqe.Number.{Float}
use jqe.Value.{chars}
use jqe.Policy.{
  ExecutionIntent, ExecutionContext, PositionSnapshot, ExecutionDecision, ExecutionDecisionCode,
  reject, evaluate, safety_context_invalid, execution_reservation_unavailable,
  execution_reservation_held, unresolved_durable_intent,
}
use jqe.Intent.{IntentRecordStatus, ReservationState, ClaimState, from_execution_intent, as_text}
use jqe.Store.{ok, raised, acquire_reservation, release_reservation, try_claim_under_reservation}
use jqe.Executor.Data.{
  ReconciliationState, ReconciliationResult, ExecutionResult, Call, Surroundings, World, Outcome,
  returned, escaped,
}
use jqe.Executor.Positions.{from_positions}
use jqe.Executor.Reconcile.{call, intent_key, reconcile}
use jqe.Executor.Send.{plain_result, send_order}

abbrev not_acquired : ReservationState → ExecutionDecisionCode
not_acquired ReservationState.unresolved_intent = unresolved_durable_intent
not_acquired _ = execution_reservation_held

abbrev pub undecided : ExecutionDecisionCode → String → Outcome ExecutionResult
undecided code reason =
    returned (plain_result ReconciliationState.unknown (reject code reason) reason)

module _ {F : Type 0} ⦃o : Float F⦄ where
  -- `follow_up = await self.reconcile(intent)`
  unfoldable pub reconcile_again :
      Surroundings F
      → ExecutionIntent F
      → ExecutionDecision
      → World F
      → Outcome ExecutionResult × World F
  reconcile_again env intent decision w =
      let (again, w') =
        reconcile env Call.follow_up Call.follow_up_reconciled env.follow_up_positions intent w in
      elim again [
        | escaped ↦ (escaped, w')
        | returned r ↦ (returned (plain_result r.state decision r.reason), w')
      ]

  -- The claim of the intent, and what follows it.
  unfoldable pub claim_and_send :
      Surroundings F
      → ExecutionIntent F
      → Option (ExecutionContext F)
      → Text
      → ExecutionDecision
      → World F
      → Outcome ExecutionResult × World F
  claim_and_send env intent context scope decision w =
      elim (from_execution_intent intent IntentRecordStatus.pending
        (do c ← context; as_text c.broker) (some scope)) [
          | none ↦ (
            returned
                (plain_result ReconciliationState.unknown decision "Intent records unavailable"),
            w,
          )
          | some r ↦
              let (granted, w') =
                call env Call.claim
                  (try_claim_under_reservation r scope env.owner_id (env.clock Call.claim)) w in
              elim granted [
                | raised e ↦ (
                  returned (
                      plain_result ReconciliationState.unknown decision
                        "Intent records unavailable"),
                  w',
                )
                | ok ClaimState.claimed ↦ send_order env intent decision w'
                | ok _ ↦ reconcile_again env intent decision w'
              ]
        ]

  -- The context with the positions that the broker reports now.
  abbrev pub effective_context :
      Option (ExecutionContext F) → Option (List (PositionSnapshot F)) → Option (ExecutionContext F)
  effective_context (some c) (some ps) = some (record c { open_positions = some (map some ps) })
  effective_context _ _ = none

  -- The decision of `_submit_reserved`.
  abbrev pub fresh_decision :
      Surroundings F → ExecutionIntent F → Option (ExecutionContext F) → ExecutionDecision
  fresh_decision env intent context =
      evaluate intent (effective_context context (from_positions env.positions))

  -- The part behind the first reconciliation.
  unfoldable pub after_reconcile :
      Surroundings F
      → ExecutionIntent F
      → Option (ExecutionContext F)
      → Text
      → ExecutionDecision
      → Outcome ReconciliationResult
      → World F
      → Outcome ExecutionResult × World F
  after_reconcile env intent context scope decision escaped w = (escaped, w)
  after_reconcile env intent context scope decision (returned r) w = elim r.state [
    | ReconciliationState.ready_to_submit ↦
        if env.before_submit_raises
        then (escaped, w)
        else claim_and_send env intent context scope decision w
    | _ ↦ (returned (plain_result r.state decision r.reason), w)
  ]

  -- `_submit_reserved`
  unfoldable pub submit_reserved :
      Surroundings F
      → ExecutionIntent F
      → Option (ExecutionContext F)
      → Text
      → World F
      → Outcome ExecutionResult × World F
  submit_reserved env intent context scope w =
      let decision = fresh_decision env intent context in
      if not decision.allowed
      then (
        returned (
            plain_result
              (if is_some env.positions
                then ReconciliationState.rejected
                else ReconciliationState.unknown)
              decision decision.reason),
        w,
      )
      else (let (seen, w') = reconcile env Call.lookup Call.reconciled env.positions intent w in
          after_reconcile env intent context scope decision seen w')

  -- `after_submit`, and `release_reservation` in the `finally`.
  unfoldable pub finish :
      Surroundings F → Text → Outcome ExecutionResult → World F → Outcome ExecutionResult × World F
  finish env scope result w =
      let (released, w') = call env Call.release (release_reservation scope env.owner_id) w in
      elim released [
        | raised e ↦ (escaped, w')
        | ok b ↦ (if env.after_submit_raises then escaped else result, w')
      ]

  -- `context.account_id.strip()`, or nothing
  abbrev pub account_scope : Option (ExecutionContext F) → Text
  account_scope none = []
  account_scope (some c) = strip (chars c.account_id)

  -- The context that `submit` goes on with, once it holds the reservation.
  abbrev pub provided : Surroundings F → Option (ExecutionContext F) → Option (ExecutionContext F)
  provided env context = elim env.context_provider [ none ↦ context | some c ↦ c ]

  -- The part of `submit` that holds the reservation.
  unfoldable pub submit_held :
      Surroundings F
      → ExecutionIntent F
      → Option (ExecutionContext F)
      → Text
      → World F
      → Outcome ExecutionResult × World F
  submit_held env intent context scope w =
      let (result, w') = submit_reserved env intent (provided env context) scope w in
      finish env scope result w'

  -- `submit`
  unfoldable pub submit :
      Surroundings F
      → ExecutionIntent F
      → Option (ExecutionContext F)
      → World F
      → Outcome ExecutionResult × World F
  submit env intent context w =
      let scope = account_scope context in
      if not (nonempty scope)
      then (
        undecided safety_context_invalid "Execution reservation requires an account identity",
        w,
      )
      else (let (reservation, w') =
            call env Call.acquire
              (acquire_reservation scope env.owner_id env.lease_seconds (intent_key intent)
                (env.clock Call.acquire))
              w in
          elim reservation [
            | raised e ↦ (
              undecided execution_reservation_unavailable "Execution reservation is unavailable",
              w',
            )
            | ok ReservationState.acquired ↦ submit_held env intent context scope w'
            | ok state ↦
                (undecided (not_acquired state) "Execution reservation was not acquired", w')
          ])
