-- ===== src/Risk/Contract.antt =====
-- risk/simulation_contract.py: the synthetic loss model, the registry of its proofs, and the
-- quantity that a risk buys. Python's `decimal` is a parameter, and a set of identities is a list
-- that is read by membership alone.
use jqe.Prelude.{
  ℕ, Bool, true, false, not, ◌&&◌, ◌||◌, ℤ, pos, Option, none, some, List, [], ◌∷◌, any, filter,
  leb_ℤ, if◌then◌else◌,
}
use jqe.Text.{Text, text, text_eq}

-- Python's `Decimal` under its context: `over` is the rounded quotient by a number that is not 0,
-- `remainder` is `%`, `floor` is `to_integral_value(rounding=ROUND_FLOOR)`, and `decimal m k` is the literal m·10⁻ᵏ.
pub record Decimal (D : Type 0) : Type 0 where
  pub decimal : ℕ → ℕ → D
  pub is_finite : D → Bool
  pub times : D → D → D
  pub over : D → D → D
  pub plus : D → D → D
  pub minus : D → D → D
  pub remainder : D → D → D
  pub absolute : D → D
  pub floor : D → D
  pub lt : D → D → Bool
  pub le : D → D → Bool

pub data SimulationProofState : Type 0 where
  unverified verified : SimulationProofState

pub record SimulationLossModelProof : Type 0 where
  pub schema_version : ℤ
  pub loss_model_id : Text
  pub loss_model_version : ℤ
  pub evidence_id : Text
  pub state : SimulationProofState
  pub broker : Text
  pub contract_family : Text
  pub quantity_basis : Text
  pub stop_semantic : Text

pub record SimulationContractSpecification (D : Type 0) : Type 0 where
  pub broker : Text
  pub contract_family : Text
  pub quantity_basis : Text
  pub stop_semantic : Text
  pub loss_model_id : Text
  pub loss_model_version : ℤ
  pub evidence_id : Text
  pub stop_risk_per_unit : D
  pub minimum_quantity : D
  pub quantity_increment : D

-- `identity`
abbrev pub Identity : Type 0
Identity = Text × ℤ × Text

abbrev pub identity : SimulationLossModelProof → Identity
identity p = (p.loss_model_id, p.loss_model_version, p.evidence_id)

abbrev pub same_int : ℤ → ℤ → Bool
same_int a b = leb_ℤ a b && leb_ℤ b a

unfoldable pub same_identity : Identity → Identity → Bool
same_identity a b = text_eq a.0 b.0 && same_int a.1 b.1 && text_eq a.2 b.2

abbrev pub is_verified : SimulationProofState → Bool
is_verified verified = true
is_verified unverified = false

pub record SimulationProofRegistry : Type 0 where
  pub identities : List Identity

-- `identity in registry.identities`
abbrev pub registered : Identity → SimulationProofRegistry → Bool
registered i registry = any (same_identity i) registry.identities

-- `register`, where `none` is its ValueError.
unfoldable pub register :
    SimulationLossModelProof → SimulationProofRegistry → Option SimulationProofRegistry
register proof registry =
    if is_verified proof.state
    then some (record { identities = identity proof ∷ registry.identities })
    else none

-- `unregister`
unfoldable pub unregister :
    SimulationLossModelProof → SimulationProofRegistry → SimulationProofRegistry
unregister proof registry = record {
  identities = filter (λ i. not (same_identity i (identity proof))) registry.identities;
}

module _ {D : Type 0} where
  -- `not any(actual != expected for actual, expected in bindings)`
  unfoldable pub bindings_hold : SimulationLossModelProof → SimulationContractSpecification D → Bool
  bindings_hold proof specification =
      text_eq proof.broker specification.broker
      && text_eq proof.contract_family specification.contract_family
      && text_eq proof.quantity_basis specification.quantity_basis
      && text_eq proof.stop_semantic specification.stop_semantic
      && text_eq proof.loss_model_id specification.loss_model_id
      && same_int proof.loss_model_version specification.loss_model_version
      && text_eq proof.evidence_id specification.evidence_id

  -- `evaluate_simulation_capability`: its field `stop_risk_authorizable`.
  unfoldable pub evaluate_simulation_capability :
      SimulationContractSpecification D
      → Option SimulationLossModelProof
      → SimulationProofRegistry
      → Bool
  evaluate_simulation_capability specification none registry = false
  evaluate_simulation_capability specification (some proof) registry =
      if not (is_verified proof.state) || not (registered (identity proof) registry)
      then false
      else bindings_hold proof specification

-- `canonical_simulation_proof`
abbrev pub canonical_simulation_proof : SimulationLossModelProof
canonical_simulation_proof = record {
  schema_version = pos 1;
  loss_model_id = text "jqe:simulation-linear-loss";
  loss_model_version = pos 1;
  evidence_id = text "jqe-owned:simulation-contract-v1";
  state = verified;
  broker = text "simulation";
  contract_family = text "JQE_SYNTHETIC_LINEAR";
  quantity_basis = text "SIMULATION_UNITS";
  stop_semantic = text "PRICE_DISTANCE_CASH_PER_UNIT";
}

-- `authoritative_simulation_registry`
abbrev pub authoritative_simulation_registry : SimulationProofRegistry
authoritative_simulation_registry = record { identities = identity canonical_simulation_proof ∷ [] }

module _ {D : Type 0} ⦃d : Decimal D⦄ where
  -- `canonical_simulation_specification`
  unfoldable pub canonical_simulation_specification : D → SimulationContractSpecification D
  canonical_simulation_specification stop_risk_per_unit = record {
    broker = text "simulation";
    contract_family = text "JQE_SYNTHETIC_LINEAR";
    quantity_basis = text "SIMULATION_UNITS";
    stop_semantic = text "PRICE_DISTANCE_CASH_PER_UNIT";
    loss_model_id = text "jqe:simulation-linear-loss";
    loss_model_version = pos 1;
    evidence_id = text "jqe-owned:simulation-contract-v1";
    stop_risk_per_unit = stop_risk_per_unit;
    minimum_quantity = d.decimal 1 12;
    quantity_increment = d.decimal 1 12;
  }

  -- `quantity` after the flooring.
  abbrev pub floored : D → SimulationContractSpecification D → D
  floored risk s =
      d.times (d.floor (d.over (d.over risk s.stop_risk_per_unit) s.quantity_increment))
        s.quantity_increment

  -- `floor_synthetic_quantity_exact` of Decimals
  unfoldable pub floor_synthetic_quantity_exact : D → SimulationContractSpecification D → Option D
  floor_synthetic_quantity_exact risk s =
      let quantity = floored risk s in
      let less = d.minus quantity s.quantity_increment in
      if not (d.is_finite risk) || d.le risk (d.decimal 0 0)
      then none
      else if d.lt quantity s.minimum_quantity
      then none
      else if d.lt risk (d.times quantity s.stop_risk_per_unit)
      then (if d.lt less s.minimum_quantity || d.lt risk (d.times less s.stop_risk_per_unit)
          then none
          else some less)
      else some quantity
