-- ===== src/Intent/Roundtrip.antt =====
-- Reconstruction of an intent from its record.
use jqe.Prelude.{◌≡◌, true, Option, none, some, ◌>>=◌, arith}
use jqe.Text.{Text}
use jqe.Number.{Float, float}
use jqe.Broker.{OrderSide}
use jqe.Value.{num, str, side}
use jqe.Policy.{ExecutionIntent, ExecutionContext, evaluate, has_quantity}
use jqe.Policy.Allowed.{evaluate-allowed_iff}
use jqe.Intent.{IntentRecordStatus, from_execution_intent, to_execution_intent}

-- The intent's fields have their annotated types.
pub record IsTyped (F : Type 0) (intent : ExecutionIntent F) : Type 0 where
  pub symbol : Text
  pub symbol_eq : intent.symbol ≡ str symbol
  pub typed_side : OrderSide
  pub side_eq : intent.side ≡ side typed_side
  pub entry : F
  pub entry_eq : intent.entry ≡ num (float entry)
  pub stop_loss : F
  pub stop_loss_eq : intent.stop_loss ≡ num (float stop_loss)
  pub take_profit : F
  pub take_profit_eq : intent.take_profit ≡ num (float take_profit)
  pub risk : F
  pub risk_eq : intent.authorized_risk_amount ≡ num (float risk)
  pub loss : F
  pub loss_eq : intent.expected_loss_at_stop ≡ num (float loss)
  pub key : Text
  pub key_eq : intent.idempotency_key ≡ str key

module _ {F : Type 0} ⦃o : Float F⦄ (intent : ExecutionIntent F)
    (context : ExecutionContext F) where
  -- The record of an intent that the policy allows gives the same intent back, but for the magic
  -- number and the comment, which are not persisted. The fields have their annotated types.
  pub to_execution_intent-from_execution_intent :
      (status : IntentRecordStatus) (broker account_id : Option Text)
      → IsTyped F intent
      → (evaluate intent (some context)).allowed ≡ true
      → (from_execution_intent intent status broker account_id >>= to_execution_intent)
        ≡ some (record intent { magic_number = none; order_comment = none })
  unfolding from_execution_intent to_execution_intent has_quantity
  to_execution_intent-from_execution_intent status broker account_id t allowed =
      let h = (evaluate-allowed_iff intent context).0 allowed in ground arith
