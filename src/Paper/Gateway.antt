-- ===== src/Paper/Gateway.antt =====
-- execution/paper_contract.py: `PaperContractExecutionGateway`.
use jqe.Prelude.{not, Option, none, some, List, map, filter, if◌then◌else◌}
use jqe.Text.{Text, text_eq, normalize}
use jqe.Broker.{OrderSide}
use jqe.Risk.{Decimal}
use jqe.Paper.Data.{Observed, PaperPosition, is_closed, Engine}
use jqe.Paper.Orders.{propose, open_contract}

module _ {D : Type 0} ⦃d : Decimal D⦄ where
  -- `get_positions` of the gateway: the positions that are not closed.
  unfoldable pub get_positions : Engine D → List (PaperPosition D)
  get_positions e = filter (λ p. not (is_closed p.state)) (map (λ item. item.1) e.positions)

  -- `submit_order` of the gateway. A proposal is kept although its loss is above the risk.
  unfoldable pub submit_order :
      Text
      → Text
      → OrderSide
      → D
      → D
      → D
      → Observed D
      → Option D
      → D
      → Engine D
      → Option (PaperPosition D) × Engine D
  submit_order key symbol side stake stop target o price risk e =
      if not (text_eq (normalize symbol) (normalize o.canonical_symbol))
      then (none, e)
      else elim (propose key side stake stop target o price e) [
        | none ↦ (none, e)
        | some (p, e') ↦
            if d.lt risk p.maximum_loss then (none, e') else elim (open_contract p e') [
              | none ↦ (none, e')
              | some (position, e'') ↦ (some position, e'')
            ]
      ]
