-- ===== src/Paper/Data.antt =====
-- execution/paper_contract.py and execution/contract_lifecycle.py: the records of the paper venue,
-- and its dictionaries. Prices are Decimals; those of an observation are `Decimal(str(x))` of its
-- floats.
use jqe.Prelude.{ℕ, Bool, true, false, not, ◌&&◌, Option, none, some, List, [], ◌∷◌, if◌then◌else◌}
use jqe.Text.{Text, text_eq}
use jqe.Broker.{OrderSide}
use jqe.Risk.{Decimal}

pub data ContractLifecycleState : Type 0 where
  submission_unknown proposed purchased_open sellable close_requested : ContractLifecycleState
  closed expired cancelled rejected reconciliation_mismatch : ContractLifecycleState
  broker_state_unavailable : ContractLifecycleState

pub data PaperExitReason : Type 0 where
  stop_loss take_profit strategy_exit end_of_test : PaperExitReason

pub record PaperContractSpecification (D : Type 0) : Type 0 where
  pub minimum_stake : D
  pub maximum_stake : D
  pub stake_increment : D
  pub fee_rate : D
  pub slippage : D

-- broker/types.py: the fields of `ClosedMarketObservation` that are read.
pub record Observed (D : Type 0) : Type 0 where
  pub canonical_symbol : Text
  pub closed_at : ℕ
  pub opening : D
  pub high : D
  pub low : D
  pub close : D

pub record PaperProposal (D : Type 0) : Type 0 where
  pub proposal_id : Text
  pub idempotency_key : Text
  pub symbol : Text
  pub side : OrderSide
  pub stake : D
  pub entry : D
  pub stop_loss : D
  pub take_profit : D
  pub observation_closed_at : ℕ
  pub maximum_loss : D

pub record PaperPosition (D : Type 0) : Type 0 where
  pub contract_id : Text
  pub proposal_id : Text
  pub idempotency_key : Text
  pub symbol : Text
  pub side : OrderSide
  pub stake : D
  pub entry : D
  pub stop_loss : D
  pub take_profit : D
  pub opened_at : ℕ
  pub last_observed_at : ℕ
  pub state : ContractLifecycleState
  pub is_close_requested : Bool

pub record PaperClose (D : Type 0) : Type 0 where
  pub contract_id : Text
  pub close_id : Text
  pub reason : PaperExitReason
  pub exit_price : D
  pub closed_at : ℕ
  pub gross_profit : D
  pub fees : D
  pub realized_profit : D

pub record PaperReconciliation (D : Type 0) : Type 0 where
  pub state : ContractLifecycleState
  pub contract_id : Text
  pub close_id : Option Text
  pub realized_profit : Option D

-- A dictionary with texts as its keys, in the order of insertion.
abbrev pub Table : Type 0 → Type 0
Table A = List (Text × A)

module _ {A : Type 0} where
  -- `table.get(key)`
  unfoldable pub find_item : Text → Table A → Option A
  find_item key [] = none
  find_item key (item ∷ items) = if text_eq item.0 key then some item.1 else find_item key items

  -- `table[key] = value`
  unfoldable pub put_item : Text → A → Table A → Table A
  put_item key value [] = (key, value) ∷ []
  put_item key value (item ∷ items) =
      if text_eq item.0 key then (key, value) ∷ items else item ∷ put_item key value items

abbrev pub is_closed : ContractLifecycleState → Bool
is_closed closed = true
is_closed _ = false

-- `index == len(ordered) - 1`: no items are left.
abbrev pub is_last : {A : Type 0} → List A → Bool
is_last [] = true
is_last (x ∷ xs) = false

-- `PaperContractEngine`
pub record Engine (D : Type 0) : Type 0 where
  pub specification : PaperContractSpecification D
  pub proposals : Table (PaperProposal D)
  pub positions : Table (PaperPosition D)
  pub closes : Table (PaperClose D)

module _ {D : Type 0} ⦃d : Decimal D⦄ where
  abbrev pub zero_decimal : D
  zero_decimal = d.decimal 0 0

  -- `a == b`
  abbrev pub same : D → D → Bool
  same a b = d.le a b && d.le b a

  -- `validate_stake`: whether it raises nothing.
  unfoldable pub validate_stake : D → PaperContractSpecification D → Bool
  validate_stake stake s =
      d.is_finite stake
      && not (d.lt stake s.minimum_stake)
      && not (d.lt s.maximum_stake stake)
      && same (d.remainder (d.minus stake s.minimum_stake) s.stake_increment) zero_decimal

  -- `fee`
  unfoldable pub fee : D → D → PaperContractSpecification D → D
  fee price stake s = d.times (d.absolute (d.times price stake)) s.fee_rate
