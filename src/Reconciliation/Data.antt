-- ===== src/Reconciliation/Data.antt =====
-- execution/reconciliation.py: what the brokers' gateways show, the evidence that is drawn from it,
-- and the helpers on identifiers.
use jqe.Prelude.{
  Bool, false, ◌&&◌, ◌||◌, ℤ, Option, none, some, List, [], ◌∷◌, any, is_some, if◌then◌else◌,
}
use jqe.Text.{Text, text, text_eq, strip, normalize, nonempty, or_text}
use jqe.Number.{Num}
use jqe.Broker.{OrderSide}
use jqe.Store.{DateTime}
use jqe.Executor.{
  BrokerReconciliationState, confirmed_match, confirmed_absence, ambiguous, unavailable,
}

pub data CorrelationStrength : Type 0 where
  exact uncertain absent out_of_reach : CorrelationStrength

pub record CorrelationEvidence (F : Type 0) : Type 0 where
  pub broker : Text
  pub correlation_strength : CorrelationStrength
  pub idempotency_key : Option Text
  pub order_id : Option Text
  pub deal_id : Option Text
  pub position_id : Option Text
  pub transaction_id : Option Text
  pub contract_id : Option Text
  pub request_id : Option Text
  pub symbol : Option Text
  pub side : Option Text
  pub volume : Option F
  pub timestamps : List DateTime
  pub source : Option Text
  pub reason : Text

pub record BrokerReconciliationResult (F : Type 0) : Type 0 where
  pub state : BrokerReconciliationState
  pub reason : Text
  pub contract_id : Option Text
  pub transaction_id : Option Text
  pub evidence : Option (CorrelationEvidence F)

-- A position or a closed trade of a gateway, by the attributes that the adapters read with
-- `getattr`. An attribute that is missing is None, but for `position_id`, where `none` is a missing
-- attribute and `some none` is None. Identifiers are their `str`; a side is an `OrderSide`.
pub record Observation (F : Type 0) : Type 0 where
  pub kind : Text
  pub position_id : Option (Option Text)
  pub trade_id : Option Text
  pub transaction_id : Option Text
  pub order_id : Option Text
  pub order : Option Text
  pub deal_id : Option Text
  pub deal : Option Text
  pub position_identifier : Option Text
  pub request_id : Option Text
  pub symbol : Option Text
  pub magic : Option ℤ
  pub comment : Option Text
  pub side : Option OrderSide
  pub volume : Option (Num F)
  pub opened_at : Option DateTime
  pub closed_at : Option DateTime

-- The keyword arguments of the `reconcile` methods, each of which reads its own.
pub record Query : Type 0 where
  pub order_id : Option Text
  pub contract_id : Option Text
  pub deal_id : Option Text
  pub position_id : Option Text
  pub request_id : Option Text
  pub transaction_id : Option Text
  pub symbol : Option Text
  pub idempotency_key : Option Text

-- The answers of a gateway's `get_positions` and `get_trade_history`, where `none` is an exception.
pub record Gateway (F : Type 0) : Type 0 where
  pub positions : Option (List (Observation F))
  pub trade_history : Option (List (Observation F))

-- `_normalize_identifier`
unfoldable pub normalize_identifier : Option Text → Option Text
normalize_identifier none = none
normalize_identifier (some t) =
    let normalized = strip t in if nonempty normalized then some normalized else none

-- `x is not None and x == t`
abbrev pub holds_text : Option Text → Text → Bool
holds_text none t = false
holds_text (some s) t = text_eq s t

abbrev pub optional : {A : Type 0} → Option (Option A) → Option A
optional none = none
optional (some a) = a

-- `str` of an optional text
abbrev pub shown : Option Text → Text
shown none = text "None"
shown (some t) = t

-- `_matches_id`, on the values of the item's fields
unfoldable pub matches_id : Option Text → List (Option Text) → Bool
matches_id none values = false
matches_id (some expected) values = any (λ v. holds_text v expected) values

-- `not in (None, "")`
abbrev pub filled : Option Text → Bool
filled none = false
filled (some t) = nonempty t

abbrev pub strength : BrokerReconciliationState → CorrelationStrength
strength confirmed_match = exact
strength unavailable = out_of_reach
strength confirmed_absence = absent
strength ambiguous = uncertain

abbrev pub moments : Option DateTime → List DateTime
moments none = []
moments (some t) = t ∷ []

module _ {F : Type 0} where
  -- `getattr(item, "position_id", None) or getattr(item, "trade_id", None)`
  abbrev pub broker_id : Observation F → Option Text
  broker_id item = or_text (optional item.position_id) item.trade_id

  -- `_has_evidence`
  unfoldable pub has_evidence : Observation F → Bool
  has_evidence item =
      filled item.order_id
      || filled item.order
      || filled item.deal_id
      || filled item.deal
      || filled (optional item.position_id)
      || filled item.position_identifier
      || filled item.trade_id
      || filled item.symbol
      || is_some item.magic
      || filled item.comment

  -- The test for any item of the symbol.
  unfoldable pub symbol_match : Option Text → List (Observation F) → Bool
  symbol_match none items = false
  symbol_match (some symbol) items =
      nonempty symbol
      && any
          (λ item.
            text_eq (normalize (elim item.symbol [ none ↦ [] | some t ↦ t ])) (normalize symbol))
          items

  -- `str(getattr(item, "position_id", "")) or None`
  abbrev pub item_position_id : Observation F → Option Text
  item_position_id item = elim item.position_id [
    | none ↦ none
    | some p ↦ or_text (some (shown p)) none
  ]
