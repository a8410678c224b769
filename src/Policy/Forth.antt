-- ===== src/Policy/Forth.antt =====
-- The conditions of execution/policy.py hold of an intent that `evaluate` allows.
use jqe.Prelude.{
  ◌∙◌, ◌≡◌, refl, Bool, true, false, ◌&&◌, pos, some, arith, inl, inr, Option-cases, sym,
}
use jqe.Text.{normalize}
use jqe.Number.{float, Float, to_float}
use jqe.Broker.{buy, sell, ExecutionQuantity, ExecutionQuantityUnit, unit_eq}
use jqe.Value.{Value, bool, is_nonblank, chars, is_true, is_false}
use jqe.Policy.{
  ExecutionIntent, ExecutionContext, value_le, risk_ceiling, expected_unit, counters_valid,
  state_valid, deployment_valid, context_valid, deployment_authorized, unit_matches, has_quantity,
  same_symbol_open, key_used, exceeds_authorized_risk, in_names, valid_names, valid_positions,
  names_symbol_of, position_count,
}
use jqe.Policy.Meaning.{
  is_side-IsSide, IsIntFrom, is_int_from-IsIntFrom, IsUnitOf, expected_unit-IsUnitOf, IsPositive,
  positive-IsPositive, IsNonnegative, nonnegative-IsNonnegative,
}
use jqe.Policy.Allowed.{IsAuthorized}
use jqe.Policy.Listed.{IsUnlisted, in_names-IsListed, in_names-IsUnlisted, snapshots-IsElsewhere}
use jqe.Policy.Conditions.{IsDeployable, IsWithinDay, IsFree, IsSized, IsProtected}

reorder5 :
    (a b c d e : Bool)
    → (a && b && c && d && e) ≡ true
    → (c ≡ true) × (b ≡ true) × (a ≡ true) × (d ≡ true) × (e ≡ true)
reorder5 a b c d e h = (ground arith, ground arith, ground arith, ground arith, ground arith)

units_equal : (a b : ExecutionQuantityUnit) → unit_eq a b ≡ true → some b ≡ some a
units_equal a b h = ground arith

pub join3 : {a b c : Bool} → a ≡ true → b ≡ true → c ≡ true → (a && b && c) ≡ true
join3 x y z = ground arith

of_is_true : {F : Type 0} → (v : Value F) → is_true v ≡ true → v ≡ bool true
of_is_true v h = ground arith

of_is_false : {F : Type 0} → (v : Value F) → is_false v ≡ true → v ≡ bool false
of_is_false v h = ground arith

module _ {F : Type 0} ⦃o : Float F⦄ (intent : ExecutionIntent F)
    (context : ExecutionContext F) where
  free_at :
      valid_positions context.open_positions ≡ true
      → names_symbol_of (normalize (chars intent.symbol)) context.open_positions ≡ false
      → value_le context.max_open_positions (position_count context) ≡ false
      → IsIntFrom (pos 1) context.max_open_positions
      → is_nonblank intent.idempotency_key ≡ true
      → IsUnlisted (chars intent.idempotency_key) context.used_idempotency_keys
      → IsFree intent context
  free_at valid other below limit named unused = elim (Option-cases context.open_positions) [
    | inl nothing ↦ absurd (ground (arith, valid, nothing))
    | inr (ps, read) ↦ record {
      positions = ps;
      read = read;
      others =
          (snapshots-IsElsewhere (normalize (chars intent.symbol)) ps).0
            (rw read at valid, rw read at other);
      limit = limit;
      below = rw read at below;
      named = named;
      unused = unused;
    }
  ]

  deployment_parts :
      deployment_authorized intent context ≡ true
      → (is_true context.execution_enabled ≡ true)
        × (is_false context.dry_run ≡ true)
        × (in_names (chars context.broker) context.approved_brokers ≡ true)
        × (in_names (chars context.environment) context.approved_environments ≡ true)
        × (in_names (chars context.account_id) context.approved_accounts ≡ true)
        × (in_names (normalize (chars intent.symbol)) context.approved_symbols ≡ true)
  unfolding deployment_authorized
  deployment_parts h =
      (ground arith, ground arith, ground arith, ground arith, ground arith, ground arith)

  valid_parts :
      context_valid intent context ≡ true
      → (deployment_valid context ≡ true)
        × (state_valid context ≡ true)
        × (counters_valid context ≡ true)
        × (is_nonblank intent.symbol ≡ true)
        × (is_nonblank intent.idempotency_key ≡ true)
  unfolding context_valid
  valid_parts h =
      reorder5 (counters_valid context) (state_valid context) (deployment_valid context)
        (is_nonblank intent.symbol) (is_nonblank intent.idempotency_key) h

  named_parts :
      deployment_valid context ≡ true
      → (is_nonblank context.broker ≡ true)
        × (is_nonblank context.environment ≡ true)
        × (is_nonblank context.account_id ≡ true)
        × (valid_names context.approved_brokers ≡ true)
        × (valid_names context.approved_environments ≡ true)
        × (valid_names context.approved_accounts ≡ true)
        × (valid_names context.approved_symbols ≡ true)
  unfolding deployment_valid
  named_parts h = (
    ground arith,
    ground arith,
    ground arith,
    ground arith,
    ground arith,
    ground arith,
    ground arith,
  )

  pub deployable_of : IsAuthorized intent context → IsDeployable intent context
  deployable_of h =
      let d = deployment_parts h.deployed.deployment in
      let v = valid_parts h.deployed.valid in
      let n = named_parts v.0 in
      record {
        stop_off = h.deployed.running;
        approved = h.deployed.approved;
        authoritative = h.deployed.authoritative;
        enabled = of_is_true context.execution_enabled d.0;
        live = of_is_false context.dry_run d.1;
        broker = (in_names-IsListed _ _ _).0 (join3 n.0 n.3 d.2);
        environment = (in_names-IsListed _ _ _).0 (join3 n.1 n.4 d.3);
        account = (in_names-IsListed _ _ _).0 (join3 n.2 n.5 d.4);
        symbol = (in_names-IsListed _ _ _).0 (join3 v.3 n.6 d.5);
      }

  pub day_of : IsAuthorized intent context → IsWithinDay intent context
  unfolding context_valid counters_valid
  day_of h =
      let valid = h.deployed.valid in
      record {
        loss = (nonnegative-IsNonnegative context.daily_loss_percent).0 (ground arith);
        loss_limit = (positive-IsPositive context.max_daily_loss_percent).0 (ground arith);
        below_loss = h.limits.loss;
        trades = (is_int_from-IsIntFrom (pos 0) context.daily_trade_count).0 (ground arith);
        trades_limit = (is_int_from-IsIntFrom (pos 1) context.max_daily_trades).0 (ground arith);
        below_trades = h.limits.trades;
      }

  state_parts :
      state_valid context ≡ true
      → (valid_positions context.open_positions ≡ true)
        × (valid_names context.used_idempotency_keys ≡ true)
  unfolding state_valid
  state_parts h = (ground arith, ground arith)

  limit_part : counters_valid context ≡ true → IsIntFrom (pos 1) context.max_open_positions
  unfolding counters_valid
  limit_part h = (is_int_from-IsIntFrom (pos 1) context.max_open_positions).0 (ground arith)

  pub free_of : IsAuthorized intent context → IsFree intent context
  unfolding same_symbol_open key_used
  free_of h =
      let v = valid_parts h.deployed.valid in
      let s = state_parts v.1 in
      free_at s.0 h.limits.symbol h.limits.positions (limit_part v.2) v.4
        ((in_names-IsUnlisted _ _).0 (s.1, h.limits.key))

  unit_found :
      (q : ExecutionQuantity F)
      → intent.quantity ≡ some q
      → unit_matches intent context ≡ true
      → expected_unit (chars context.broker) ≡ some q.unit
  unfolding unit_matches
  unit_found q present h = elim (Option-cases (expected_unit (chars context.broker))) [
    | inl absent ↦ absurd (ground (arith, rw (present, absent) at h))
    | inr (u, e) ↦ e ∙ units_equal q.unit u (rw (present, e) at h)
  ]

  unit_read :
      (q : ExecutionQuantity F)
      → intent.quantity ≡ some q
      → unit_matches intent context ≡ true
      → IsUnitOf (chars context.broker) q.unit
  unfolding unit_matches
  unit_read q present h =
      (expected_unit-IsUnitOf (chars context.broker) q.unit).0 (unit_found q present h)

  pub bounded_of :
      (loss : IsNonnegative intent.expected_loss_at_stop)
      (risk : IsPositive intent.authorized_risk_amount)
      → exceeds_authorized_risk intent ≡ o.lt (risk_ceiling risk.0) (float (to_float loss.0))
  unfolding exceeds_authorized_risk
  bounded_of loss risk = rw (loss.1, risk.1) refl

  pub sized_of : IsAuthorized intent context → IsSized intent context
  unfolding has_quantity
  sized_of h =
      let q = h.quantity in
      let risk = (positive-IsPositive intent.authorized_risk_amount).0 q.risk in
      let loss = (nonnegative-IsNonnegative intent.expected_loss_at_stop).0 q.loss in
      elim (Option-cases intent.quantity) [
        | inl absent ↦ absurd (ground (arith, q.present, absent))
        | inr (quantity, present) ↦ record {
          verified = q.verified;
          quantity = quantity;
          present = present;
          unit = unit_read quantity present q.unit;
          risk = risk;
          loss = loss;
          bounded = sym (bounded_of loss risk) ∙ q.bounded;
        }
      ]

  pub protected_of : IsAuthorized intent context → IsProtected intent context
  protected_of h =
      let l = h.levels in
      let entry = (positive-IsPositive intent.entry).0 l.entry in
      let stop = (positive-IsPositive intent.stop_loss).0 l.stop_loss in
      let target = (positive-IsPositive intent.take_profit).0 l.take_profit in
      record {
        entry = entry;
        stop_loss = stop;
        take_profit = target;
        levels = elim l.protected [
          | inl (b, x, y) ↦ inl (
            (is_side-IsSide buy intent.side).0 b,
            rw (stop.1, entry.1) at x,
            rw (entry.1, target.1) at y,
          )
          | inr (b, x, y) ↦ inr (
            (is_side-IsSide sell intent.side).0 b,
            rw (target.1, entry.1) at x,
            rw (entry.1, stop.1) at y,
          )
        ];
      }
