-- ===== src/Policy/Tests.antt =====
-- The policy on concrete intents.
use jqe.Prelude.{◌≡◌, refl, ◌↔◌, true, some, none, [], ◌∷◌, ◌>>=◌, Option}
use jqe.Text.{Text, text}
use jqe.Number.Fixed.{Fixed, fixed_float, Fixed-IsOrdered}
use jqe.Broker.{buy, sell}
use jqe.Value.{Value, str, side}
use jqe.Policy.{
  evaluate, PositionSnapshot, check_context, check_quantity, check_levels, check_limits,
  duplicate_symbol_position, allowed,
}
use jqe.Policy.Conditions.{IsPermitted}
use jqe.Policy.Permitted.{evaluate-IsPermitted_iff}
use jqe.Policy.Monotone.{evaluate_antitone, observing}
use jqe.Intent.{pending, from_execution_intent, to_execution_intent}
use jqe.Intent.Roundtrip.{IsTyped, to_execution_intent-from_execution_intent}
use jqe.Samples.{buy_intent, quiet_context, demo_context, price}

abbrev eurusd : Option (PositionSnapshot Fixed)
eurusd = some (record { symbol = str (text "R_100"); side = side sell })

abbrev other_key : Value Fixed
other_key = str (text "k0")

allowed_test : (evaluate buy_intent (some quiet_context)).code ≡ allowed
unfolding evaluate check_context jqe.Policy.context_valid jqe.Text.nonblank
    jqe.Policy.deployment_authorized jqe.Text.text_eq jqe.Text.normalize check_quantity
    jqe.Policy.has_quantity jqe.Policy.unit_matches jqe.Policy.expected_unit
    jqe.Policy.exceeds_authorized_risk check_levels jqe.Policy.buy_levels check_limits
    jqe.Policy.same_symbol_open jqe.Policy.key_used
allowed_test = refl

duplicate_test :
    (evaluate buy_intent (
      some (
        demo_context
          (some (some (record { symbol = str (text " r_75 "); side = side buy }) ∷ []))
          (some [])))).code
    ≡ duplicate_symbol_position
unfolding evaluate check_context jqe.Policy.context_valid jqe.Text.nonblank
    jqe.Policy.deployment_authorized jqe.Text.text_eq jqe.Text.normalize check_quantity
    jqe.Policy.has_quantity jqe.Policy.unit_matches jqe.Policy.expected_unit
    jqe.Policy.exceeds_authorized_risk check_levels jqe.Policy.buy_levels check_limits
    jqe.Policy.same_symbol_open
duplicate_test = refl

evaluate-IsPermitted_iff_example :
    ((evaluate buy_intent (some quiet_context)).allowed ≡ true)
    ↔ IsPermitted buy_intent quiet_context
evaluate-IsPermitted_iff_example = evaluate-IsPermitted_iff buy_intent quiet_context

crowded_allowed :
    (evaluate buy_intent (some (observing quiet_context (eurusd ∷ []) (other_key ∷ [])))).allowed
    ≡ true
unfolding evaluate check_context jqe.Policy.context_valid jqe.Text.nonblank
    jqe.Policy.deployment_authorized jqe.Text.text_eq jqe.Text.normalize check_quantity
    jqe.Policy.has_quantity jqe.Policy.unit_matches jqe.Policy.expected_unit
    jqe.Policy.exceeds_authorized_risk check_levels jqe.Policy.buy_levels check_limits
    jqe.Policy.same_symbol_open jqe.Policy.key_used
crowded_allowed = refl

evaluate_antitone_example :
    (evaluate buy_intent (some (observing quiet_context [] []))).allowed ≡ true
evaluate_antitone_example =
    evaluate_antitone Fixed-IsOrdered buy_intent quiet_context [] (eurusd ∷ []) [] (other_key ∷ [])
      crowded_allowed

buy_intent-IsTyped : IsTyped Fixed buy_intent
buy_intent-IsTyped = record {
  symbol = text "R_75";
  symbol_eq = refl;
  typed_side = buy;
  side_eq = refl;
  entry = price 100000;
  entry_eq = refl;
  stop_loss = price 99000;
  stop_loss_eq = refl;
  take_profit = price 103000;
  take_profit_eq = refl;
  risk = price 2000;
  risk_eq = refl;
  loss = price 1000;
  loss_eq = refl;
  key = text "k1";
  key_eq = refl;
}

quiet_allowed : (evaluate buy_intent (some quiet_context)).allowed ≡ true
unfolding evaluate check_context jqe.Policy.context_valid jqe.Text.nonblank
    jqe.Policy.deployment_authorized jqe.Text.text_eq jqe.Text.normalize check_quantity
    jqe.Policy.has_quantity jqe.Policy.unit_matches jqe.Policy.expected_unit
    jqe.Policy.exceeds_authorized_risk check_levels jqe.Policy.buy_levels check_limits
    jqe.Policy.same_symbol_open jqe.Policy.key_used
quiet_allowed = refl

to_execution_intent-from_execution_intent_example :
    (from_execution_intent buy_intent pending (some (text "deriv_demo")) (some (text "VRTC1"))
      >>= to_execution_intent)
    ≡ some (record buy_intent { magic_number = none; order_comment = none })
to_execution_intent-from_execution_intent_example =
    to_execution_intent-from_execution_intent buy_intent quiet_context pending
      (some (text "deriv_demo")) (some (text "VRTC1")) buy_intent-IsTyped quiet_allowed
