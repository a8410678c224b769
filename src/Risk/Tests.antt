-- ===== src/Risk/Tests.antt =====
-- The risk package on concrete values.
use jqe.Prelude.{
  ℕ, ◌+◌, ◌-◌, ◌*◌, ◌/◌, ◌^◌, ◌≡◌, ◌↔◌, ◌⊎◌, refl, true, false, not, Option, none, some, pos,
  pos_part, length, filter, any, List, [], ◌∷◌, ltb, leb,
}
use jqe.Text.{Text, text}
use jqe.Broker.{simulation_units}
use jqe.Number.{int, float, zero_float}
use jqe.Number.Fixed.{Fixed, fixed, fixed_float}
use jqe.Risk.{
  ExecutionSizingDecision, RiskEngine, ClosedTrade, Signal, Candle, approve_trade, is_zero, nought,
  reconcile_daily_history, Decimal, Conversion, SimulationContractSpecification,
  canonical_simulation_specification, canonical_simulation_proof, identity, registered,
  floor_synthetic_quantity_exact, authorized_risk, stop_distance, authorize_execution_quantity,
}
use jqe.Risk.Daily.{closed_on, is_loss, add_losses, reconcile_daily_history-counted}
use jqe.Risk.Approved.{IsApprovable, approve_trade-approved_iff}
use jqe.Risk.Registry.{
  Change, registers, unregisters, change_all, decides_all, registered-change_all,
}
use jqe.Risk.Bounded.{IsSized, authorize_execution_quantity-verifiable}
use jqe.Number.Natural.{one, natural_decimal}
use jqe.Samples.{price}

abbrev engine : RiskEngine Fixed
engine = record {
  min_confidence = pos 75;
  max_risk_percent = price 500;
  min_atr = price 1000;
  max_spread = price 30000;
  max_daily_loss = price 3000;
  max_trades_daily = pos 10;
  daily_trades_count = 4;
  daily_realized_loss_percent = price 0;
}

abbrev history : List (ClosedTrade Fixed)
history =
    record { closed_date = 3; profit = fixed (pos 500) }
    ∷ record { closed_date = 4; profit = fixed (jqe.Prelude.negsuc 499) }
    ∷ record { closed_date = 4; profit = fixed (pos 200) }
    ∷ []

balance_is_some : is_zero (price 50000) ≡ false
balance_is_some = refl

reconcile_daily_history-counted_example : reconcile_daily_history history (price 50000) 4 engine ≡ (
  true,
  record engine {
    daily_trades_count = length (filter (closed_on 4) history);
    daily_realized_loss_percent =
        add_losses (price 50000) (filter is_loss (filter (closed_on 4) history)) nought;
  },
)
reconcile_daily_history-counted_example =
    reconcile_daily_history-counted history (price 50000) 4 engine balance_is_some

no_balance : is_zero (price 0) ≡ true
no_balance = refl

abbrev buys : Signal Fixed
buys = record { signal = text "BUY"; confidence = int (pos 80) }

abbrev calm : Candle Fixed
calm = record { atr = float (price 2000); spread = int (pos 5) }

approves : (approve_trade (some buys) (some calm) (price 50000) true engine).approved ≡ true
unfolding approve_trade jqe.Risk.is_direction jqe.Text.text_eq
approves = refl

approve_trade-approved_iff_example :
    ((approve_trade (some buys) (some calm) (price 50000) true engine).approved ≡ true)
    ↔ IsApprovable (some buys) (some calm) true engine
approve_trade-approved_iff_example =
    approve_trade-approved_iff (some buys) (some calm) (price 50000) true engine

abbrev changes : List Change
changes = unregisters canonical_simulation_proof ∷ registers canonical_simulation_proof ∷ []

registered-change_all_example :
    registered
      (identity canonical_simulation_proof)
      (change_all changes (record { identities = [] }))
    ≡ decides_all (identity canonical_simulation_proof) changes false
registered-change_all_example =
    registered-change_all (identity canonical_simulation_proof) changes (record { identities = [] })

abbrev of_fixed : Fixed → ℕ
of_fixed (fixed n) = pos_part n * 1000000000
of_fixed _ = 0

abbrev conversion : Conversion Fixed ℕ
conversion = record {
  of_float = of_fixed;
  to_float = λ a. fixed (pos (a / 1000000000));
  round2 = λ x. x;
}

-- A risk of a quarter at a distance of one.
floors :
    floor_synthetic_quantity_exact 250000000000 (canonical_simulation_specification one)
    ≡ some 250000000000
unfolding floor_synthetic_quantity_exact canonical_simulation_specification
floors = refl

abbrev decision : ExecutionSizingDecision Fixed
decision = record {
  authorized_risk_amount = price 2500;
  quantity = some (record { value = price 2500; unit = simulation_units });
  expected_loss_at_stop = some (price 2500);
  risk_verifiable = true;
}

verifiable :
    authorize_execution_quantity conversion
      (text "simulation")
      (price 500000)
      (price 500)
      (price 100000)
      (price 99000)
    ≡ some decision
unfolding authorize_execution_quantity jqe.Risk.sizing_route jqe.Text.text_eq
    jqe.Risk.evaluate_simulation_capability jqe.Risk.same_identity jqe.Risk.bindings_hold
    canonical_simulation_specification floor_synthetic_quantity_exact jqe.Risk.size_simulation
    jqe.Risk.sized_decision
verifiable = refl

authorize_execution_quantity-verifiable_example :
    (fixed_float.le
        (float (conversion.to_float (authorized_risk conversion (price 500000) (price 500))))
        zero_float
      ≡ false)
    × (fixed_float.le
          (float (conversion.to_float (stop_distance conversion (price 100000) (price 99000))))
          zero_float
        ≡ false)
    × IsSized conversion
        (text "simulation")
        (authorized_risk conversion (price 500000) (price 500))
        (stop_distance conversion (price 100000) (price 99000))
        decision
authorize_execution_quantity-verifiable_example =
    authorize_execution_quantity-verifiable conversion (text "simulation") (price 500000)
      (price 500) (price 100000) (price 99000) decision verifiable refl
