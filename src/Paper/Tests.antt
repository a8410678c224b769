-- ===== src/Paper/Tests.antt =====
-- One BUY contract of the paper venue.
use jqe.Prelude.{length, pos, ℕ, ◌*◌, ◌≡◌, refl, true, false, Option, none, some, List, [], ◌∷◌}
use jqe.Text.{Text, text}
use jqe.Broker.{buy, sell}
use jqe.Number.{float}
use jqe.Number.Fixed.{Fixed, fixed, fixed_float}
use jqe.Value.{Value, num}
use jqe.Policy.{ExecutionIntent}
use jqe.Samples.{amount, buy_intent, quiet_context}
use jqe.Number.Natural.{one, natural_decimal}
use jqe.Paper.{
  closed, end_of_test, stop_loss, take_profit, PaperContractSpecification, Observed, PaperPosition,
  PaperProposal, PaperClose, Engine, find_item, contract_of, authorize_and_propose, submit_order,
  observe, replay, reconcile, get_positions,
}
use jqe.Paper.Kept.{IsConsistent}
use jqe.Paper.Final.{
  Call, requests, observes, replays, submits, call, call_all, call_all-final, call_all-IsConsistent,
}
use jqe.Paper.Once.{submit_order-once}

abbrev engine : Engine ℕ
engine = record {
  specification = record {
    minimum_stake = 10000000000;
    maximum_stake = 1000000 * one;
    stake_increment = 10000000000;
    fee_rate = 10000000000;
    slippage = one;
  };
  proposals = [];
  positions = [];
  closes = [];
}

-- The candle that closes at a time, and its four prices in units.
abbrev candle : ℕ → ℕ → ℕ → ℕ → ℕ → Observed ℕ
candle time opening high low close = record {
  canonical_symbol = text "R_75";
  closed_at = time;
  opening = opening * one;
  high = high * one;
  low = low * one;
  close = close * one;
}

abbrev key : Text
key = text "k1"

abbrev submitted : Option (PaperPosition ℕ) × Engine ℕ
submitted =
    submit_order key (text " r_75") buy (2 * one) (90 * one) (120 * one) (candle 5 99 101 98 100)
      none (30 * one) engine

abbrev opened : PaperPosition ℕ
opened = record {
  contract_id = text "PAPER-C-k1";
  proposal_id = text "PAPER-P-k1";
  idempotency_key = key;
  symbol = text "R_75";
  side = buy;
  stake = 2 * one;
  entry = 100 * one;
  stop_loss = 90 * one;
  take_profit = 120 * one;
  opened_at = 5;
  last_observed_at = 5;
  state = jqe.Paper.purchased_open;
  is_close_requested = false;
}

abbrev proposal : PaperProposal ℕ
proposal = record {
  proposal_id = text "PAPER-P-k1";
  idempotency_key = key;
  symbol = text "R_75";
  side = buy;
  stake = 2 * one;
  entry = 100 * one;
  stop_loss = 90 * one;
  take_profit = 120 * one;
  observation_closed_at = 5;
  maximum_loss = 25780000000000;
}

abbrev open_engine : Engine ℕ
open_engine = record engine {
  proposals = (key, proposal) ∷ [];
  positions = (contract_of key, opened) ∷ [];
}

submitted_engine : submitted.1 ≡ open_engine
unfolding submit_order jqe.Text.text_eq jqe.Text.normalize jqe.Paper.propose
    jqe.Paper.validate_stake jqe.Paper.entry_of jqe.Paper.valid_levels jqe.Paper.keep_proposal
    find_item jqe.Paper.proposal_of jqe.Paper.slipped jqe.Paper.fee jqe.Paper.open_contract
    jqe.Paper.put_item jqe.Paper.position_of
submitted_engine = refl

submitted_opens : submitted.0 ≡ some opened
unfolding submit_order jqe.Text.text_eq jqe.Text.normalize jqe.Paper.propose
    jqe.Paper.validate_stake jqe.Paper.entry_of jqe.Paper.valid_levels jqe.Paper.keep_proposal
    find_item jqe.Paper.proposal_of jqe.Paper.slipped jqe.Paper.fee jqe.Paper.open_contract
    jqe.Paper.position_of
submitted_opens = refl

-- The loss at the stop, 22, and the fees, 2 and 1.78, are above this risk.
submit_above_risk :
    (submit_order key
      (text "R_75")
      buy
      (2 * one)
      (90 * one)
      (120 * one)
      (candle 5 99 101 98 100)
      none
      (25 * one)
      engine).0
    ≡ none
unfolding submit_order jqe.Text.text_eq jqe.Text.normalize jqe.Paper.propose
    jqe.Paper.validate_stake jqe.Paper.entry_of jqe.Paper.valid_levels jqe.Paper.keep_proposal
    find_item jqe.Paper.proposal_of jqe.Paper.slipped jqe.Paper.fee
submit_above_risk = refl

-- The second candle reaches the target.
abbrev replayed : Engine ℕ
replayed =
    call {F = Fixed}
      (replays (contract_of key) (candle 6 101 110 95 105 ∷ candle 7 105 125 100 110 ∷ []) true)
      open_engine

abbrev target_close : PaperClose ℕ
target_close = record {
  contract_id = text "PAPER-C-k1";
  close_id = text "PAPER-X-k1";
  reason = take_profit;
  exit_price = 119 * one;
  closed_at = 7;
  gross_profit = 38 * one;
  fees = 4380000000000;
  realized_profit = 33620000000000;
}

abbrev closed_engine : Engine ℕ
closed_engine = record open_engine {
  positions =
      (
        contract_of key,
        record opened { last_observed_at = 7; is_close_requested = true; state = closed },
      )
      ∷ [];
  closes = (contract_of key, target_close) ∷ [];
}

replayed_engine : replayed ≡ closed_engine
unfolding call replay observe find_item jqe.Text.text_eq jqe.Paper.settle jqe.Paper.exit_of
    jqe.Paper.level_exit jqe.Paper.put_item jqe.Paper.close_of jqe.Paper.slipped jqe.Paper.fee
replayed_engine = refl

closed_closes : find_item (contract_of key) closed_engine.closes ≡ some target_close
unfolding find_item jqe.Text.text_eq
closed_closes = refl

closed_positions : get_positions closed_engine ≡ []
unfolding get_positions
closed_positions = refl

abbrev further : List (Call Fixed ℕ)
further =
    observes (contract_of key) (candle 8 80 80 80 80) false false
    ∷ requests (contract_of key)
    ∷ submits key (text "R_75") buy (2 * one) (90 * one) (120 * one) (candle 5 99 101 98 100) none
        (30 * one)
    ∷ submits (text "k2") (text "R_75") buy (2 * one) (90 * one) (120 * one)
        (candle 9 99 101 98 100) none (30 * one)
    ∷ []

closed_state : (reconcile (contract_of key) closed_engine).state ≡ closed
unfolding reconcile find_item jqe.Text.text_eq
closed_state = refl

call_all-final_example :
    find_item (contract_of key) (call_all further closed_engine).closes ≡ some target_close
call_all-final_example =
    call_all-final further closed_engine (contract_of key) target_close closed_closes

engine-IsConsistent : IsConsistent engine
unfolding find_item
engine-IsConsistent id = refl

call_all-IsConsistent_example : IsConsistent (call_all further engine)
call_all-IsConsistent_example = call_all-IsConsistent further engine engine-IsConsistent

submit_order-once_example :
    (submit_order key
      (text "R_75")
      sell
      (3 * one)
      (110 * one)
      (80 * one)
      (candle 9 99 101 98 100)
      none
      (99 * one)
      (call_all further submitted.1)).0
    ≡ none
submit_order-once_example =
    submit_order-once key (text " r_75") (text "R_75") buy sell (2 * one) (90 * one) (120 * one)
      (30 * one) (3 * one) (110 * one) (80 * one) (99 * one) (candle 5 99 101 98 100)
      (candle 9 99 101 98 100) none none engine opened further submitted_opens

abbrev decimal_of : Value Fixed → Option ℕ
decimal_of (num (float (fixed (pos n)))) = some (n * 1000000000)
decimal_of _ = none

abbrev free_engine : Engine ℕ
free_engine = record engine {
  specification = record engine.specification { fee_rate = 0; slippage = 0 };
}

abbrev risked : ℕ → ExecutionIntent Fixed
risked n = record buy_intent { authorized_risk_amount = amount n }

abbrev authorized : ℕ → Option (PaperProposal ℕ) × Engine ℕ
authorized n =
    authorize_and_propose decimal_of (risked n) quiet_context (candle 5 99 101 98 100) 5 free_engine

abbrev loss_of : Option (PaperProposal ℕ) → ℕ
loss_of none = 0
loss_of (some p) = p.maximum_loss

authorized_loss : loss_of (authorized 20000).0 ≡ 10 * one
unfolding authorize_and_propose jqe.Policy.evaluate jqe.Policy.check_context
    jqe.Policy.context_valid jqe.Text.nonblank jqe.Policy.deployment_authorized jqe.Text.text_eq
    jqe.Text.normalize jqe.Policy.check_quantity jqe.Policy.has_quantity jqe.Policy.unit_matches
    jqe.Policy.expected_unit jqe.Policy.exceeds_authorized_risk jqe.Policy.check_levels
    jqe.Policy.buy_levels jqe.Policy.check_limits jqe.Policy.same_symbol_open jqe.Paper.terms_of
    jqe.Paper.within_intent jqe.Paper.fee find_item jqe.Paper.put_item jqe.Paper.validate_stake
    jqe.Paper.entry_of jqe.Paper.keep_proposal jqe.Paper.proposal_of jqe.Paper.propose
    jqe.Paper.slipped jqe.Paper.valid_levels jqe.Policy.counters_valid jqe.Policy.deployment_valid
    jqe.Policy.key_used jqe.Policy.state_valid jqe.Text.is_space jqe.Text.lstrip jqe.Text.rstrip
    jqe.Text.strip jqe.Text.upper jqe.Text.upper_char
authorized_loss = refl

-- The intent is refused, and its proposal is kept.
refused_kept : ((authorized 2000).0 ≡ none) × (length (authorized 2000).1.proposals ≡ 1)
unfolding authorize_and_propose jqe.Policy.evaluate jqe.Policy.check_context
    jqe.Policy.context_valid jqe.Text.nonblank jqe.Policy.deployment_authorized jqe.Text.text_eq
    jqe.Text.normalize jqe.Policy.check_quantity jqe.Policy.has_quantity jqe.Policy.unit_matches
    jqe.Policy.expected_unit jqe.Policy.exceeds_authorized_risk jqe.Policy.check_levels
    jqe.Policy.buy_levels jqe.Policy.check_limits jqe.Policy.same_symbol_open jqe.Paper.terms_of
    jqe.Paper.within_intent jqe.Paper.fee find_item jqe.Paper.put_item jqe.Paper.validate_stake
    jqe.Paper.entry_of jqe.Paper.keep_proposal jqe.Paper.proposal_of jqe.Paper.propose
    jqe.Paper.slipped jqe.Paper.valid_levels jqe.Policy.counters_valid jqe.Policy.deployment_valid
    jqe.Policy.key_used jqe.Policy.state_valid jqe.Text.is_space jqe.Text.lstrip jqe.Text.rstrip
    jqe.Text.strip jqe.Text.upper jqe.Text.upper_char
refused_kept = (refl, refl)
