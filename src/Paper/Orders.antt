-- ===== src/Paper/Orders.antt =====
-- execution/paper_contract.py: `propose`, `open` and `request_close` of `PaperContractEngine`. A
-- method that raises changes nothing, and gives `none`. Times are whole numbers.
use jqe.Prelude.{
  Bool, true, false, not, ◌&&◌, ◌||◌, Option, none, some, ◌++◌, ◌==◌, is_some, if◌then◌else◌,
}
use jqe.Text.{Text, text, text_eq}
use jqe.Broker.{OrderSide, buy, sell, side_eq}
use jqe.Risk.{Decimal}
use jqe.Paper.Data.{
  purchased_open, close_requested, PaperContractSpecification, Observed, PaperProposal,
  PaperPosition, find_item, put_item, Engine, zero_decimal, same, validate_stake, fee,
}

abbrev pub contract_of : Text → Text
contract_of key = text "PAPER-C-" ++ key

module _ {D : Type 0} ⦃d : Decimal D⦄ where
  -- `slipped_stop`, and the price of a close: `price` made worse by the slippage.
  unfoldable pub slipped : OrderSide → D → PaperContractSpecification D → D
  slipped buy price s = d.minus price s.slippage
  slipped sell price s = d.plus price s.slippage

  -- The levels of a proposal are on their sides of the entry.
  unfoldable pub valid_levels : OrderSide → D → D → D → Bool
  valid_levels buy stop entry target = d.lt stop entry && d.lt entry target
  valid_levels sell stop entry target = d.lt target entry && d.lt entry stop

  -- The entry of a proposal: the given price, or the candle's close.
  unfoldable pub entry_of : Option D → Observed D → Option D
  entry_of none o = if d.le o.close zero_decimal then none else some o.close
  entry_of (some p) o =
      if not (d.is_finite p) then none else if d.le p zero_decimal then none else some p

  unfoldable pub proposal_of :
      Text → OrderSide → D → D → D → D → Observed D → PaperContractSpecification D → PaperProposal D
  proposal_of key side stake entry stop target o s =
      let out = slipped side stop s in
      record {
        proposal_id = text "PAPER-P-" ++ key;
        idempotency_key = key;
        symbol = o.canonical_symbol;
        side = side;
        stake = stake;
        entry = entry;
        stop_loss = stop;
        take_profit = target;
        observation_closed_at = o.closed_at;
        maximum_loss =
            d.plus (d.times (d.absolute (d.minus entry out)) stake)
              (d.plus (fee entry stake s) (fee out stake s));
      }

  -- `existing == proposal`
  unfoldable pub same_proposal : PaperProposal D → PaperProposal D → Bool
  same_proposal p q =
      text_eq p.proposal_id q.proposal_id
      && text_eq p.idempotency_key q.idempotency_key
      && text_eq p.symbol q.symbol
      && side_eq p.side q.side
      && same p.stake q.stake
      && same p.entry q.entry
      && same p.stop_loss q.stop_loss
      && same p.take_profit q.take_profit
      && (p.observation_closed_at == q.observation_closed_at)
      && same p.maximum_loss q.maximum_loss

  -- The proposal is stored under its key, where an equal one is returned.
  unfoldable pub keep_proposal : PaperProposal D → Engine D → Option (PaperProposal D × Engine D)
  keep_proposal p e = elim (find_item p.idempotency_key e.proposals) [
    | none ↦ some (p, record e { proposals = put_item p.idempotency_key p e.proposals })
    | some existing ↦ if same_proposal existing p then some (existing, e) else none
  ]

  -- `propose`
  unfoldable pub propose :
      Text
      → OrderSide
      → D
      → D
      → D
      → Observed D
      → Option D
      → Engine D
      → Option (PaperProposal D × Engine D)
  propose key side stake stop target o price e =
      if not (validate_stake stake e.specification) then none else elim (entry_of price o) [
        | none ↦ none
        | some entry ↦
            if not (valid_levels side stop entry target)
            then none
            else keep_proposal (proposal_of key side stake entry stop target o e.specification) e
      ]

  unfoldable pub position_of : PaperProposal D → PaperPosition D
  position_of p = record {
    contract_id = contract_of p.idempotency_key;
    proposal_id = p.proposal_id;
    idempotency_key = p.idempotency_key;
    symbol = p.symbol;
    side = p.side;
    stake = p.stake;
    entry = p.entry;
    stop_loss = p.stop_loss;
    take_profit = p.take_profit;
    opened_at = p.observation_closed_at;
    last_observed_at = p.observation_closed_at;
    state = purchased_open;
    is_close_requested = false;
  }

  abbrev pub put_position : Text → PaperPosition D → Engine D → Engine D
  put_position id p e = record e { positions = put_item id p e.positions }

  -- `open`
  unfoldable pub open_contract : PaperProposal D → Engine D → Option (PaperPosition D × Engine D)
  open_contract p e =
      let id = contract_of p.idempotency_key in
      if is_some (find_item id e.positions)
      then none
      else some (position_of p, put_position id (position_of p) e)

  -- `request_close`
  unfoldable pub request_close : Text → Engine D → Option (PaperPosition D × Engine D)
  request_close id e = elim (find_item id e.positions) [
    | none ↦ none
    | some p ↦
        let updated = record p { is_close_requested = true; state = close_requested } in
        if is_some (find_item id e.closes) || p.is_close_requested
        then none
        else some (updated, put_position id updated e)
  ]
