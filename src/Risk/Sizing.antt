-- ===== src/Risk/Sizing.antt =====
-- risk/position_sizing.py: `authorize_execution_quantity`. The texts of the reasons are left out, and
-- the conversions between floats and Decimals are parameters.
use jqe.Prelude.{Bool, true, false, not, ◌||◌, Option, none, some, if◌then◌else◌}
use jqe.Text.{Text, text, text_eq}
use jqe.Number.{float, Float, zero_float}
use jqe.Store.{valid_value}
use jqe.Broker.{ExecutionQuantity, ExecutionQuantityUnit, simulation_units, deriv_stake}
use jqe.Risk.Contract.{
  Decimal, canonical_simulation_proof, authoritative_simulation_registry,
  canonical_simulation_specification, evaluate_simulation_capability,
  floor_synthetic_quantity_exact,
}

-- `Decimal(str(x))`, `float(d)` and `round(x, 2)`
pub record Conversion (F D : Type 0) : Type 0 where
  pub of_float : F → D
  pub to_float : D → F
  pub round2 : F → F

pub record ExecutionSizingDecision (F : Type 0) : Type 0 where
  pub authorized_risk_amount : F
  pub quantity : Option (ExecutionQuantity F)
  pub expected_loss_at_stop : Option F
  pub risk_verifiable : Bool

-- What the tests of the broker's name lead to.
pub data SizingRoute : Type 0 where
  unproven stake synthetic : SizingRoute

unfoldable pub sizing_route : Text → SizingRoute
sizing_route broker =
    if text_eq broker (text "deriv")
      || text_eq broker (text "mt5")
      || text_eq broker (text "mt5_demo")
    then unproven
    else if text_eq broker (text "deriv_demo")
    then stake
    else if not (text_eq broker (text "simulation"))
    then unproven
    else synthetic

module _ {F : Type 0} where
  -- A decision without a quantity.
  abbrev pub unsized : F → ExecutionSizingDecision F
  unsized risk = record {
    authorized_risk_amount = risk;
    quantity = none;
    expected_loss_at_stop = none;
    risk_verifiable = false;
  }

module _ {F : Type 0} ⦃o : Float F⦄ where
  -- A decision with a quantity, where `none` is the error of its validator.
  unfoldable pub sized_decision :
      F → F → ExecutionQuantityUnit → F → Option (ExecutionSizingDecision F)
  sized_decision risk value unit loss =
      if valid_value value
      then some (record {
        authorized_risk_amount = risk;
        quantity = some (record { value = value; unit = unit });
        expected_loss_at_stop = some loss;
        risk_verifiable = true;
      })
      else none

  -- The part for a Deriv demo account.
  unfoldable pub size_stake : (F → F) → F → Option (ExecutionSizingDecision F)
  size_stake round2 risk =
      if o.le (float (round2 risk)) zero_float
      then some (unsized risk)
      else sized_decision risk (round2 risk) deriv_stake (round2 risk)

module _ {F D : Type 0} ⦃o : Float F⦄ ⦃d : Decimal D⦄ where
  -- `authorized_risk_decimal` and `stop_distance_decimal`
  abbrev pub authorized_risk : Conversion F D → F → F → D
  authorized_risk c balance risk_percent =
      d.over (d.times (c.of_float balance) (c.of_float risk_percent)) (d.decimal 100 0)

  abbrev pub stop_distance : Conversion F D → F → F → D
  stop_distance c entry stop_loss = d.absolute (d.minus (c.of_float entry) (c.of_float stop_loss))

  -- The part for the simulation.
  unfoldable pub size_simulation : Conversion F D → D → D → Option (ExecutionSizingDecision F)
  size_simulation c risk distance =
      let specification = canonical_simulation_specification distance in
      if not (
        evaluate_simulation_capability specification (some canonical_simulation_proof)
          authoritative_simulation_registry)
      then some (unsized (c.to_float risk))
      else elim (floor_synthetic_quantity_exact risk specification) [
        | none ↦ some (unsized (c.to_float risk))
        | some quantity ↦
            if d.lt risk (d.times quantity distance)
            then some (unsized (c.to_float risk))
            else sized_decision (c.to_float risk) (c.to_float quantity) simulation_units
                (c.to_float (d.times quantity distance))
      ]

  -- `authorize_execution_quantity`, where `none` is the error of a quantity's validator.
  unfoldable pub authorize_execution_quantity :
      Conversion F D → Text → F → F → F → F → Option (ExecutionSizingDecision F)
  unfolding size_simulation size_stake sized_decision
  authorize_execution_quantity c broker balance risk_percent entry stop_loss =
      let risk = authorized_risk c balance risk_percent in
      let distance = stop_distance c entry stop_loss in
      if o.le (float (c.to_float risk)) zero_float || o.le (float (c.to_float distance)) zero_float
      then some (unsized (c.to_float risk))
      else elim (sizing_route broker) [
        | unproven ↦ some (unsized (c.to_float risk))
        | stake ↦ size_stake c.round2 (c.to_float risk)
        | synthetic ↦ size_simulation c risk distance
      ]
