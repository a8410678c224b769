-- ===== src/Paper/Observe.antt =====
-- execution/paper_contract.py: `observe`, `replay` and `reconcile` of `PaperContractEngine`.
use jqe.Prelude.{
  Bool, true, false, not, ◌&&◌, Option, none, some, List, [], ◌∷◌, ◌++◌, leb, is_some,
  if◌then◌else◌,
}
use jqe.Text.{Text, text, text_eq}
use jqe.Broker.{OrderSide, buy, sell}
use jqe.Risk.{Decimal}
use jqe.Paper.Data.{
  submission_unknown, closed, PaperExitReason, stop_loss, take_profit, strategy_exit, end_of_test,
  PaperContractSpecification, Observed, PaperPosition, PaperClose, PaperReconciliation, find_item,
  put_item, is_last, Engine, zero_decimal, fee,
}
use jqe.Paper.Orders.{slipped, put_position}

module _ {D : Type 0} ⦃d : Decimal D⦄ where
  -- The stop or the target that an observation reaches, at the price of the exit.
  unfoldable pub level_exit : PaperPosition D → Observed D → Option (PaperExitReason × D)
  level_exit p o = elim p.side [
    | buy ↦
        if d.le o.opening p.stop_loss
        then some (stop_loss, o.opening)
        else if d.le p.take_profit o.opening
        then some (take_profit, o.opening)
        else if d.le o.low p.stop_loss
        then some (stop_loss, p.stop_loss)
        else if d.le p.take_profit o.high
        then some (take_profit, p.take_profit)
        else none
    | sell ↦
        if d.le p.stop_loss o.opening
        then some (stop_loss, o.opening)
        else if d.le o.opening p.take_profit
        then some (take_profit, o.opening)
        else if d.le p.stop_loss o.high
        then some (stop_loss, p.stop_loss)
        else if d.le o.low p.take_profit
        then some (take_profit, p.take_profit)
        else none
  ]

  unfoldable pub exit_of : PaperPosition D → Observed D → Bool → Bool → Option (PaperExitReason × D)
  exit_of p o by_strategy force = elim (level_exit p o) [
    | some x ↦ some x
    | none ↦
        if by_strategy
        then some (strategy_exit, o.close)
        else if force
        then some (end_of_test, o.close)
        else none
  ]

  abbrev pub direction : OrderSide → D
  direction buy = d.decimal 1 0
  direction sell = d.minus zero_decimal (d.decimal 1 0)

  unfoldable pub close_of :
      Text
      → PaperPosition D
      → Observed D
      → PaperExitReason
      → D
      → PaperContractSpecification D
      → PaperClose D
  close_of id p o reason level s =
      let price = slipped p.side level s in
      let gross = d.times (d.times (d.minus price p.entry) p.stake) (direction p.side) in
      let fees = d.plus (fee p.entry p.stake s) (fee price p.stake s) in
      record {
        contract_id = id;
        close_id = text "PAPER-X-" ++ p.idempotency_key;
        reason = reason;
        exit_price = price;
        closed_at = o.closed_at;
        gross_profit = gross;
        fees = fees;
        realized_profit = d.minus gross fees;
      }

  -- What `observe` does to a position that may be observed.
  unfoldable pub settle :
      Text
      → PaperPosition D
      → Observed D
      → Option (PaperExitReason × D)
      → Engine D
      → Option (PaperClose D) × Engine D
  settle id p o none e = (none, put_position id (record p { last_observed_at = o.closed_at }) e)
  settle id p o (some (reason, level)) e =
      let c = close_of id p o reason level e.specification in
      let p' = record p {
        last_observed_at = o.closed_at;
        is_close_requested = true;
        state = closed;
      } in
      (some c, record e { closes = put_item id c e.closes; positions = put_item id p' e.positions })

  -- `observe`
  unfoldable pub observe :
      Text → Observed D → Bool → Bool → Engine D → Option (Option (PaperClose D) × Engine D)
  observe id o by_strategy force e = elim (find_item id e.positions) [
    | none ↦ none
    | some p ↦
        if is_some (find_item id e.closes)
        then none
        else if not (text_eq o.canonical_symbol p.symbol)
        then none
        else if leb o.closed_at p.last_observed_at
        then none
        else some (settle id p o (exit_of p o by_strategy force) e)
  ]

  -- `replay`: the observations in their order until one closes the contract or raises; whether it
  -- raised, the close, and the engine that is left.
  unfoldable pub replay :
      Text → List (Observed D) → Bool → Engine D → Bool × Option (PaperClose D) × Engine D
  replay id [] force e = (false, none, e)
  replay id (o ∷ os) force e = elim (observe id o false (force && is_last os) e) [
    | none ↦ (true, none, e)
    | some (some c, e') ↦ (false, some c, e')
    | some (none, e') ↦ replay id os force e'
  ]

  -- `reconcile`
  unfoldable pub reconcile : Text → Engine D → PaperReconciliation D
  reconcile id e = elim (find_item id e.positions) [
    | none ↦ record {
      state = submission_unknown;
      contract_id = id;
      close_id = none;
      realized_profit = none;
    }
    | some p ↦ elim (find_item id e.closes) [
      | some c ↦ record {
        state = closed;
        contract_id = id;
        close_id = some c.close_id;
        realized_profit = some c.realized_profit;
      }
      | none ↦ record { state = p.state; contract_id = id; close_id = none; realized_profit = none }
    ]
  ]
