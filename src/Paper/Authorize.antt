-- ===== src/Paper/Authorize.antt =====
-- execution/paper_contract.py: `authorize_and_propose` of `PaperContractEngine`.
use jqe.Prelude.{ℕ, Bool, true, false, not, ◌&&◌, Option, none, some, leb, if◌then◌else◌, ◌>>=◌}
use jqe.Text.{text_eq, normalize}
use jqe.Number.{Float, float}
use jqe.Broker.{OrderSide}
use jqe.Value.{Value, null, num, side, chars}
use jqe.Policy.{ExecutionIntent, ExecutionContext, evaluate}
use jqe.Risk.{Decimal}
use jqe.Paper.Data.{Observed, PaperProposal, Engine, same}
use jqe.Paper.Orders.{propose}

-- The arguments that `authorize_and_propose` makes of an intent.
pub record PaperTerms (D : Type 0) : Type 0 where
  pub side : OrderSide
  pub stake : D
  pub stop_loss : D
  pub take_profit : D

abbrev pub is_null : {F : Type 0} → Value F → Bool
is_null null = true
is_null _ = false

-- A side that is no `OrderSide` is not modelled.
abbrev pub order_side : {F : Type 0} → Value F → Option OrderSide
order_side (side s) = some s
order_side _ = none

module _ {F D : Type 0} ⦃o : Float F⦄ ⦃d : Decimal D⦄ where
  -- `read` is `Decimal(str(x))`, where `none` is what raises.
  unfoldable pub terms_of : (Value F → Option D) → ExecutionIntent F → Option (PaperTerms D)
  terms_of read intent = do
    direction ← order_side intent.side
    quantity ← intent.quantity
    stake ← read (num (float quantity.value))
    stop ← read intent.stop_loss
    target ← read intent.take_profit
    some (record { side = direction; stake = stake; stop_loss = stop; take_profit = target })

  -- The two conditions that are tested on the proposal, which is kept although one of them fails.
  unfoldable pub within_intent : (Value F → Option D) → ExecutionIntent F → PaperProposal D → Bool
  within_intent read intent p = elim (read intent.entry) [
    | none ↦ false
    | some entry ↦ elim (read intent.authorized_risk_amount) [
      | none ↦ false
      | some risk ↦
          same p.entry entry
          && not (is_null intent.authorized_risk_amount)
          && not (d.lt risk p.maximum_loss)
    ]
  ]

  -- `authorize_and_propose`
  unfoldable pub authorize_and_propose :
      (Value F → Option D)
      → ExecutionIntent F
      → ExecutionContext F
      → Observed D
      → ℕ
      → Engine D
      → Option (PaperProposal D) × Engine D
  authorize_and_propose read intent context observation observed_at e =
      if not (evaluate intent (some context)).allowed
      then (none, e)
      else if not
          (text_eq (normalize (chars intent.symbol)) (normalize observation.canonical_symbol))
      then (none, e)
      else if not (leb observation.closed_at observed_at)
      then (none, e)
      else elim (terms_of read intent) [
        | none ↦ (none, e)
        | some t ↦
            elim (propose (chars intent.idempotency_key) t.side t.stake t.stop_loss t.take_profit
              observation none e) [
                | none ↦ (none, e)
                | some (p, e') ↦ (if within_intent read intent p then some p else none, e')
              ]
      ]
