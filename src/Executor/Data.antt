-- ===== src/Executor/Data.antt =====
-- execution/executor.py: results, orders, and the surroundings of one call of `submit`.
use jqe.Prelude.{ℕ, Bool, ℤ, Option, List, String}
use jqe.Text.{Text}
use jqe.Broker.{OrderSide, OrderStatus, ExecutionQuantity}
use jqe.Policy.{ExecutionContext, ExecutionDecision}
use jqe.Intent.{IntentRecord}
use jqe.Store.{Store, DateTime}

pub data ReconciliationState : Type 0 where
  not_found already_executed pending rejected unknown ready_to_submit : ReconciliationState

pub record ReconciliationResult : Type 0 where
  pub state : ReconciliationState
  pub reason : String

pub data BrokerReconciliationState : Type 0 where
  confirmed_match confirmed_absence ambiguous unavailable : BrokerReconciliationState

-- broker/types.py: `Position`, and a reply `none` in its place is anything else.
pub record Position : Type 0 where
  pub symbol : Text
  pub side : OrderSide

pub record OrderRequest (F : Type 0) : Type 0 where
  pub symbol : Text
  pub side : OrderSide
  pub quantity : ExecutionQuantity F
  pub stop_loss : F
  pub take_profit : F
  pub idempotency_key : Text
  pub magic_number : Option ℤ
  pub order_comment : Option Text

pub record OrderResult : Type 0 where
  pub order_id : Text
  pub status : OrderStatus
  pub transaction_id : Option Text

pub record ExecutionResult : Type 0 where
  pub state : ReconciliationState
  pub decision : ExecutionDecision
  pub order_id : Option Text
  pub reason : String
  pub order_status : Option OrderStatus
  pub broker_result : Option OrderResult
  pub rejection_code : Option String

-- How `gateway.submit_order` ends: with a result, with `PreSubmitOrderRejected`, or with any other
-- exception or a value that is no `OrderResult`.
pub data Submission : Type 0 where
  replied : OrderResult → Submission
  pre_submit_rejected : String → Submission
  failed : String → Submission

-- The evidence of a broker reconciler, as far as the executor reads it.
pub record Evidence : Type 0 where
  pub state : BrokerReconciliationState
  pub reason : String
  pub contract_id : Option Text
  pub transaction_id : Option Text

-- The calls of the store, and of the gateway, in one `submit`. `follow_up` is the second `reconcile`, after a claim that
-- was not granted.
pub data Call : Type 0 where
  acquire lookup reconciled claim send follow_up follow_up_reconciled outcome release : Call

-- The store, the orders that have been handed to the gateway, and the keys that other processes have
-- claimed and not handed an order over for yet. A submission neither reads nor changes the last.
pub record World (F : Type 0) : Type 0 where
  pub store : Store F
  pub sent : List (OrderRequest F)
  pub elsewhere : List Text

-- What the rest of the world does in one `submit`: the answers of broker, clock and callbacks, and
-- what other processes do before each of its calls.
pub record Surroundings (F : Type 0) : Type 0 where
  pub owner_id : Text
  pub lease_seconds : ℤ
  pub clock : Call → DateTime
  pub utc_now : Call → ℕ
  pub outage : Call → Bool
  pub meanwhile : Call → World F → World F
  pub recovery_mode : Bool
  -- `none`: there is no provider; `some none`: it raised or gave None.
  pub context_provider : Option (Option (ExecutionContext F))
  -- `none`: the call raised.
  pub positions : Option (List (Option Position))
  pub follow_up_positions : Option (List (Option Position))
  -- `none`: there is no reconciler; its answer `none`: it raised.
  pub reconciler : Option (IntentRecord F → Option Evidence)
  pub before_submit_raises : Bool
  pub after_submit_raises : Bool
  pub submit_order : OrderRequest F → Submission

-- A call that gives a result, or lets an exception through.
pub data Outcome (A : Type 0) : Type 0 where
  returned : A → Outcome A
  escaped : Outcome A
