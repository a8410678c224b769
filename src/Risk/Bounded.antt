-- ===== src/Risk/Bounded.antt =====
-- The quantities that risk/position_sizing.py and risk/simulation_contract.py authorize.
use jqe.Prelude.{
  ◌≡◌, ◌⊎◌, subst, refl, true, false, some, arith, Bool-cases, Option-cases, inl, inr,
}
use jqe.Text.{Text, text, text_eq}
use jqe.Text.Laws.{text_eq_iff}
use jqe.Number.{float, Float, zero_float}
use jqe.Broker.{simulation_units, deriv_stake}
use jqe.Risk.{
  SizingRoute, unproven, stake, synthetic, sizing_route, Decimal, Conversion,
  SimulationContractSpecification, canonical_simulation_specification, floored,
  floor_synthetic_quantity_exact, ExecutionSizingDecision, authorized_risk, stop_distance,
  sized_decision, size_simulation, size_stake, authorize_execution_quantity,
}

sizing_route-stake : (broker : Text) → sizing_route broker ≡ stake → broker ≡ text "deriv_demo"
unfolding sizing_route
sizing_route-stake broker h = elim (Bool-cases (text_eq broker (text "deriv_demo"))) [
  | inl same ↦ (text_eq_iff broker (text "deriv_demo")).0 same
  | inr other ↦ absurd (ground arith)
]

sizing_route-synthetic :
    (broker : Text) → sizing_route broker ≡ synthetic → broker ≡ text "simulation"
unfolding sizing_route
sizing_route-synthetic broker h = elim (Bool-cases (text_eq broker (text "simulation"))) [
  | inl same ↦ (text_eq_iff broker (text "simulation")).0 same
  | inr other ↦ absurd (ground arith)
]

module _ {D : Type 0} ⦃d : Decimal D⦄ where
  -- A quantity that is not below the minimum and whose loss at the stop is not above the risk.
  abbrev pub IsBounded : D → SimulationContractSpecification D → D → Type 0
  IsBounded risk s quantity =
      (d.lt quantity s.minimum_quantity ≡ false)
      × (d.lt risk (d.times quantity s.stop_risk_per_unit) ≡ false)

  -- A synthetic quantity is returned only for a finite risk above zero; it is not below the minimum
  -- quantity, and its loss at the stop is not above the risk.
  floor_synthetic_quantity_exact-IsBounded :
      (risk quantity : D) (s : SimulationContractSpecification D)
      → floor_synthetic_quantity_exact risk s ≡ some quantity
      → (d.is_finite risk ≡ true) × (d.le risk (d.decimal 0 0) ≡ false) × IsBounded risk s quantity
  unfolding floor_synthetic_quantity_exact
  floor_synthetic_quantity_exact-IsBounded risk quantity s h =
      let q = floored risk s in
      let less = d.minus q s.quantity_increment in
      elim (Bool-cases (d.lt risk (d.times q s.stop_risk_per_unit))) [
        | inl over ↦
            let same : less ≡ quantity = ground arith in
            (
              ground arith,
              ground arith,
              (
                subst (λ x. d.lt x s.minimum_quantity ≡ false) same (ground arith),
                subst (λ x. d.lt risk (d.times x s.stop_risk_per_unit) ≡ false) same (ground arith),
              ),
            )
        | inr within ↦
            let same : q ≡ quantity = ground arith in
            (
              ground arith,
              ground arith,
              (
                subst (λ x. d.lt x s.minimum_quantity ≡ false) same (ground arith),
                subst (λ x. d.lt risk (d.times x s.stop_risk_per_unit) ≡ false) same within,
              ),
            )
      ]

module _ {F D : Type 0} ⦃o : Float F⦄ ⦃d : Decimal D⦄ where
  -- The decision is the stake of a Deriv demo account: the rounded risk, finite and above zero, and
  -- it is the expected loss.
  abbrev pub IsStake : Conversion F D → D → ExecutionSizingDecision F → Type 0
  IsStake c risk decision =
      (decision.quantity ≡ some (record { value = c.round2 (c.to_float risk); unit = deriv_stake }))
      × (decision.expected_loss_at_stop ≡ some (c.round2 (c.to_float risk)))
      × (o.is_finite (c.round2 (c.to_float risk)) ≡ true)
      × (o.lt zero_float (float (c.round2 (c.to_float risk))) ≡ true)

  -- The decision is a synthetic quantity, finite and above zero, that is not below the minimum, and
  -- whose product with the stop distance, as `Decimal` computes it, is the expected loss and not
  -- above the risk.
  abbrev pub IsSynthetic : Conversion F D → D → D → ExecutionSizingDecision F → Type 0
  IsSynthetic c risk distance decision =
      (quantity : D) × (decision.quantity
        ≡ some (record { value = c.to_float quantity; unit = simulation_units }))
      × (decision.expected_loss_at_stop ≡ some (c.to_float (d.times quantity distance)))
      × (o.is_finite (c.to_float quantity) ≡ true)
      × (o.lt zero_float (float (c.to_float quantity)) ≡ true)
      × (d.lt quantity (d.decimal 1 12) ≡ false)
      × (d.lt risk (d.times quantity distance) ≡ false)

  size_stake-IsStake :
      (c : Conversion F D) (risk : D) (decision : ExecutionSizingDecision F)
      → size_stake c.round2 (c.to_float risk) ≡ some decision
      → decision.risk_verifiable ≡ true
      → IsStake c risk decision
  unfolding size_stake sized_decision
  size_stake-IsStake c risk decision h verified =
      let stake = c.round2 (c.to_float risk) in
      elim (Bool-cases (o.le (float stake) zero_float)) [
        | inl nothing ↦ absurd (ground arith)
        | inr above ↦ (ground arith, ground arith, ground arith, ground arith)
      ]

  size_simulation-IsSynthetic :
      (c : Conversion F D) (risk distance : D) (decision : ExecutionSizingDecision F)
      → size_simulation c risk distance ≡ some decision
      → decision.risk_verifiable ≡ true
      → IsSynthetic c risk distance decision
  unfolding size_simulation sized_decision canonical_simulation_specification
  size_simulation-IsSynthetic c risk distance decision h verified =
      let specification = canonical_simulation_specification distance in
      elim (Option-cases (floor_synthetic_quantity_exact risk specification)) [
        | inl below ↦ absurd (ground arith)
        | inr (quantity, floor) ↦
            let bounds =
              floor_synthetic_quantity_exact-IsBounded risk quantity specification floor in
            (
              quantity,
              ground arith,
              ground arith,
              ground arith,
              ground arith,
              bounds.2.0,
              ground arith,
            )
      ]

  -- A verifiable decision, by the broker.
  abbrev pub IsSized : Conversion F D → Text → D → D → ExecutionSizingDecision F → Type 0
  IsSized c broker risk distance decision =
      ((broker ≡ text "deriv_demo") × IsStake c risk decision)
      ⊎ ((broker ≡ text "simulation") × IsSynthetic c risk distance decision)

  by_route :
      (c : Conversion F D) (broker : Text) (balance risk_percent entry stop_loss : F)
      (decision : ExecutionSizingDecision F) (route : SizingRoute)
      → sizing_route broker ≡ route
      → authorize_execution_quantity c broker balance risk_percent entry stop_loss ≡ some decision
      → decision.risk_verifiable ≡ true
      → (o.le (float (c.to_float (authorized_risk c balance risk_percent))) zero_float ≡ false)
        × (o.le (float (c.to_float (stop_distance c entry stop_loss))) zero_float ≡ false)
        × IsSized c broker
            (authorized_risk c balance risk_percent)
            (stop_distance c entry stop_loss)
            decision
  unfolding authorize_execution_quantity
  by_route c broker balance risk_percent entry stop_loss decision unproven by h verified =
      absurd (ground arith)
  by_route c broker balance risk_percent entry stop_loss decision stake by h verified =
      let risk = authorized_risk c balance risk_percent in
      (
        ground arith,
        ground arith,
        inl (
          sizing_route-stake broker by,
          size_stake-IsStake c risk decision (ground arith) verified,
        ),
      )
  by_route c broker balance risk_percent entry stop_loss decision synthetic by h verified =
      let risk = authorized_risk c balance risk_percent in
      let distance = stop_distance c entry stop_loss in
      (
        ground arith,
        ground arith,
        inr (
          sizing_route-synthetic broker by,
          size_simulation-IsSynthetic c risk distance decision (ground arith) verified,
        ),
      )

  -- A decision that says that its risk is verifiable is made only for an authorized risk and a stop
  -- distance above zero as floats, and only for two brokers. For a Deriv demo account its quantity
  -- and its expected loss are the risk rounded to cents. For the simulation its quantity is not below
  -- 10⁻¹², and its expected loss is the product of the quantity and the stop distance as `Decimal`
  -- computes it, rounding included, which is not above the risk as `Decimal` computes it. Either
  -- quantity is finite and above zero.
  pub authorize_execution_quantity-verifiable :
      (c : Conversion F D) (broker : Text) (balance risk_percent entry stop_loss : F)
      (decision : ExecutionSizingDecision F)
      → authorize_execution_quantity c broker balance risk_percent entry stop_loss ≡ some decision
      → decision.risk_verifiable ≡ true
      → (o.le (float (c.to_float (authorized_risk c balance risk_percent))) zero_float ≡ false)
        × (o.le (float (c.to_float (stop_distance c entry stop_loss))) zero_float ≡ false)
        × IsSized c broker
            (authorized_risk c balance risk_percent)
            (stop_distance c entry stop_loss)
            decision
  authorize_execution_quantity-verifiable c broker balance risk_percent entry stop_loss decision h
        verified =
      by_route c broker balance risk_percent entry stop_loss decision (sizing_route broker) refl h
        verified
