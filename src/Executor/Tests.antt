-- ===== src/Executor/Tests.antt =====
-- The executor on concrete submissions.
use jqe.Prelude.{◌≡◌, refl, true, false, none, some, List, [], ◌∷◌, All, length}
use jqe.Number.Fixed.{Fixed, fixed_float}
use jqe.Executor.{OrderRequest, submit, Surroundings, fresh_decision, provided}
use jqe.Executor.Allowed.{submit_refused}
use jqe.Broker.{buy}
use jqe.Text.{text}
use jqe.Executor.Guarantee.{has_claim, Distinct}
use jqe.Executor.Neighbour.{neighbour, neighbour-Guarantee}
use jqe.Intent.{IntentRecord}
use jqe.Executor.AtMostOnce.{Submit, submit_all, submit_all-Distinct}
use jqe.Samples.{pending_record, stake, price, buy_intent, quiet_context, alone, new_world}

abbrev other_record : IntentRecord Fixed
other_record = record pending_record { idempotency_key = text "k2" }

abbrev other_order : OrderRequest Fixed
other_order = record {
  symbol = text "R_75";
  side = buy;
  quantity = stake;
  stop_loss = price 99000;
  take_profit = price 103000;
  idempotency_key = text "k2";
  magic_number = none;
  order_comment = none;
}

-- Another process claims "k2" before the lookup, and sends before the order is handed over.
abbrev beside : Surroundings Fixed
beside = record alone { meanwhile = neighbour other_record other_order }

-- The same intent, twice.
abbrev twice : List (Submit Fixed)
twice =
    record { surroundings = beside; intent = buy_intent; context = some quiet_context }
    ∷ record { surroundings = beside; intent = buy_intent; context = some quiet_context }
    ∷ []

sent_two : length (submit_all twice new_world).sent ≡ 2
unfolding submit_all submit jqe.Text.strip jqe.Executor.call jqe.Store.acquire_reservation
    jqe.Text.nonblank jqe.Store.acquire_at jqe.Store.find_reservation jqe.Store.take_reservation
    jqe.Store.states jqe.Store.other_unresolved jqe.Executor.submit_held jqe.Executor.finish
    jqe.Store.release_reservation jqe.Store.delete_reservation jqe.Executor.submit_reserved
    jqe.Policy.evaluate jqe.Executor.from_positions jqe.Executor.snapshots_of jqe.Executor.reconcile
    jqe.Executor.reconcile_evidence jqe.Executor.reconcile_record jqe.Executor.reconcile_unresolved
    jqe.Executor.transition_intent jqe.Executor.order_request jqe.Executor.record_outcome
    jqe.Executor.send_order jqe.Executor.after_reconcile jqe.Executor.claim_and_send
    jqe.Executor.reconcile_again jqe.Intent.from_execution_intent jqe.Intent.order_side
    jqe.Policy.buy_levels jqe.Policy.context_valid jqe.Policy.deployment_authorized
    jqe.Policy.exceeds_authorized_risk jqe.Policy.expected_unit jqe.Policy.has_quantity
    jqe.Policy.key_used jqe.Policy.same_symbol_open jqe.Policy.unit_matches jqe.Policy.check_context
    jqe.Policy.check_levels jqe.Policy.check_limits jqe.Policy.check_quantity jqe.Store.claim_at
    jqe.Store.insert_claim jqe.Store.try_claim_under_reservation jqe.Store.get jqe.Store.transition
    jqe.Store.claim_row jqe.Store.decode jqe.Store.decode_quantity jqe.Store.decode_reservation
    jqe.Store.decode_side jqe.Store.status_of jqe.Store.allowed_transition jqe.Store.count_owned
    jqe.Store.find_row jqe.Store.update_row jqe.Store.upsert_reservation jqe.Text.normalize
    jqe.Text.text_eq
sent_two = refl

submit_all-Distinct_example :
    Distinct (submit_all twice new_world).sent
    × All
        (λ x. has_claim x.idempotency_key (submit_all twice new_world) ≡ true)
        (submit_all twice new_world).sent
submit_all-Distinct_example =
    submit_all-Distinct twice new_world
      (
        neighbour-Guarantee other_record other_order,
        (neighbour-Guarantee other_record other_order, tt),
      )
      tt tt tt

-- The broker reports a position in the same symbol.
abbrev occupied : Surroundings Fixed
occupied = record alone {
  positions = some (some (record { symbol = text "r_75"; side = buy }) ∷ []);
}

occupied_refused :
    (fresh_decision occupied buy_intent (provided occupied (some quiet_context))).allowed ≡ false
unfolding jqe.Policy.evaluate jqe.Executor.from_positions jqe.Executor.snapshots_of
    jqe.Text.nonblank jqe.Policy.check_context jqe.Policy.context_valid
    jqe.Policy.deployment_authorized jqe.Text.text_eq jqe.Text.normalize jqe.Policy.check_quantity
    jqe.Policy.has_quantity jqe.Policy.unit_matches jqe.Policy.expected_unit
    jqe.Policy.exceeds_authorized_risk jqe.Policy.check_levels jqe.Policy.buy_levels
    jqe.Policy.check_limits jqe.Policy.same_symbol_open jqe.Text.strip
occupied_refused = refl

submit_refused_example :
    ((submit occupied buy_intent (some quiet_context) new_world).1.sent ≡ [])
    × ((submit occupied buy_intent (some quiet_context) new_world).1.store.intents ≡ [])
submit_refused_example =
    submit_refused occupied (λ c w. refl) buy_intent (some quiet_context) new_world occupied_refused
