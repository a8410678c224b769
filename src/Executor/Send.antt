-- ===== src/Executor/Send.antt =====
-- execution/executor.py: what `_submit_reserved` does once the claim of the
-- intent is granted.
use jqe.Prelude.{
  Bool, true, false, not, ◌&&◌, Option, none, some, ◌>>=◌, [], ◌∷◌, ◌++◌, if◌then◌else◌, String,
}
use jqe.Text.{strip, nonblank}
use jqe.Number.{Float}
use jqe.Broker.{OrderStatus}
use jqe.Policy.{ExecutionIntent, ExecutionDecision, positive}
use jqe.Intent.{IntentRecordStatus, as_text, as_float, order_side}
use jqe.Executor.Data.{
  ReconciliationState, OrderRequest, ExecutionResult, Submission, replied, pre_submit_rejected,
  failed, Call, Surroundings, World, Outcome, returned, escaped,
}
use jqe.Executor.Reconcile.{intent_key, transition_intent}

-- A result that carries no order.
abbrev pub plain_result : ReconciliationState → ExecutionDecision → String → ExecutionResult
plain_result state decision reason = record {
  state = state;
  decision = decision;
  order_id = none;
  reason = reason;
  order_status = none;
  broker_result = none;
  rejection_code = none;
}

-- `status_value in {"FILLED", "SUBMITTED"}`
abbrev pub is_accepted : OrderStatus → Bool
is_accepted OrderStatus.rejected = false
is_accepted _ = true

-- The tests of the gateway's result: an accepted order must name its identity.
abbrev pub checked : Submission → Submission
checked (replied r) =
    if is_accepted r.status && not (nonblank r.order_id)
    then failed "Gateway accepted an order without broker identity"
    else replied r
checked outcome = outcome

-- A value that passes its validators.
abbrev only_if : {A : Type 0} → Bool → A → Option A
only_if true a = some a
only_if false a = none

module _ {F : Type 0} ⦃o : Float F⦄ where
  -- `OrderRequest(...)`, where `none` is its ValidationError.
  unfoldable pub order_request : ExecutionIntent F → Option (OrderRequest F)
  order_request intent = do
    symbol ← as_text intent.symbol
    side ← order_side intent.side
    quantity ← intent.quantity
    stop_loss ← as_float intent.stop_loss
    take_profit ← as_float intent.take_profit
    only_if (positive intent.stop_loss && positive intent.take_profit) (record {
      symbol = strip symbol;
      side = side;
      quantity = quantity;
      stop_loss = stop_loss;
      take_profit = take_profit;
      idempotency_key = intent_key intent;
      magic_number = intent.magic_number;
      order_comment = intent.order_comment;
    })

  -- What is stored and answered once the gateway has ended.
  unfoldable pub record_outcome :
      Surroundings F
      → ExecutionIntent F
      → ExecutionDecision
      → Submission
      → World F
      → ExecutionResult × World F
  record_outcome env intent decision (pre_submit_rejected reason) w =
      let (persisted, w') =
        transition_intent env Call.outcome intent IntentRecordStatus.rejected none none w in
      if persisted
      then (
        record (plain_result ReconciliationState.rejected decision reason) {
          order_status = some OrderStatus.rejected;
          rejection_code = some "PRE_SUBMIT_VALIDATION_REJECTED";
        },
        w',
      )
      else (
        plain_result ReconciliationState.unknown decision
            "Pre-submit rejection could not be persisted",
        w',
      )
  record_outcome env intent decision (failed reason) w =
      let (persisted, w') =
        transition_intent env Call.outcome intent IntentRecordStatus.unknown none none w in
      (plain_result ReconciliationState.unknown decision reason, w')
  record_outcome env intent decision (replied r) w =
      let admitted = is_accepted r.status in
      let status = if admitted then IntentRecordStatus.accepted else IntentRecordStatus.rejected in
      let order_id = if admitted then some r.order_id else none in
      let (persisted, w') =
        transition_intent env Call.outcome intent status order_id r.transaction_id w in
      if persisted
      then (
        record {
          state =
              if admitted
              then ReconciliationState.already_executed
              else ReconciliationState.rejected;
          decision = decision;
          order_id = order_id;
          reason = if admitted then "Order accepted" else "Broker rejected order";
          order_status = some r.status;
          broker_result = some r;
          rejection_code = none;
        },
        w',
      )
      else (
        record (plain_result ReconciliationState.unknown decision
            "Outcome could not be persisted") { order_id = some r.order_id },
        w',
      )

  -- `gateway.submit_order(order)`, as far as the world sees it
  abbrev pub hand_over : OrderRequest F → World F → World F
  hand_over order w = record w { sent = w.sent ++ order ∷ [] }

  -- The part behind a claim that was granted: the order is built and handed to the gateway.
  unfoldable pub send_order :
      Surroundings F
      → ExecutionIntent F
      → ExecutionDecision
      → World F
      → Outcome ExecutionResult × World F
  send_order env intent decision w = elim (order_request intent) [
    | none ↦ (escaped, w)
    | some order ↦
        let (result, w') =
          record_outcome env intent decision (checked (env.submit_order order))
            (hand_over order (env.meanwhile Call.send w)) in
        (returned result, w')
  ]
