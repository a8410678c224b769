-- ===== src/Broker.antt =====
-- broker/types.py: the values that cross the broker boundary. Only the fields that the modelled
-- code reads are kept.
use jqe.Prelude.{Bool, true, false}
use jqe.Text.{Text, text}

pub data OrderSide : Type 0 where
  buy sell : OrderSide

pub data ExecutionQuantityUnit : Type 0 where
  simulation_units deriv_stake mt5_lots : ExecutionQuantityUnit

pub data OrderStatus : Type 0 where
  submitted filled rejected : OrderStatus

-- The validator of the class, `gt=0` and no infinities, is a fact about its values that no
-- modelled operation reads.
pub record ExecutionQuantity (F : Type 0) : Type 0 where
  pub value : F
  pub unit : ExecutionQuantityUnit

-- `OrderSide(...).value`
abbrev pub side_value : OrderSide → Text
side_value buy = text "BUY"
side_value sell = text "SELL"

abbrev pub unit_value : ExecutionQuantityUnit → Text
unit_value simulation_units = text "SIMULATION_UNITS"
unit_value deriv_stake = text "DERIV_STAKE"
unit_value mt5_lots = text "MT5_LOTS"

abbrev pub side_eq : OrderSide → OrderSide → Bool
side_eq buy buy = true
side_eq sell sell = true
side_eq _ _ = false

abbrev pub unit_eq : ExecutionQuantityUnit → ExecutionQuantityUnit → Bool
unit_eq simulation_units simulation_units = true
unit_eq deriv_stake deriv_stake = true
unit_eq mt5_lots mt5_lots = true
unit_eq _ _ = false
