-- ===== src/Policy/Permitted.antt =====
-- `evaluate` of execution/policy.py allows an intent exactly under the conditions of
-- Policy/Conditions.antt.
use jqe.Prelude.{
  ◌∙◌, ◌≡◌, ◌↔◌, refl, Bool, true, false, ◌&&◌, pos, Option, some, List, arith, inl, inr,
}
use jqe.Text.{Text, normalize}
use jqe.Number.{Float}
use jqe.Broker.{buy, sell, ExecutionQuantityUnit, unit_eq}
use jqe.Value.{Value, is_nonblank, chars}
use jqe.Policy.{
  ExecutionIntent, ExecutionContext, evaluate, counters_valid, state_valid, deployment_valid,
  context_valid, deployment_authorized, unit_matches, has_quantity, same_symbol_open, key_used,
  in_names, valid_names,
}
use jqe.Policy.Meaning.{
  is_side-IsSide, is_int_from-IsIntFrom, expected_unit-IsUnitOf, positive-IsPositive,
  nonnegative-IsNonnegative,
}
use jqe.Policy.Allowed.{Protected, IsAuthorized, evaluate-allowed_iff}
use jqe.Policy.Listed.{IsListed, in_names-IsListed, in_names-IsUnlisted, snapshots-IsElsewhere}
use jqe.Policy.Conditions.{IsPermitted}
use jqe.Policy.Forth.{deployable_of, day_of, free_of, sized_of, protected_of, bounded_of}

unit_eq_own : (u : ExecutionQuantityUnit) → unit_eq u u ≡ true
unit_eq_own u = ground arith

pub three : (a b c : Bool) → (a && b && c) ≡ true → (a ≡ true) × (b ≡ true) × (c ≡ true)
three a b c h = (ground arith, ground arith, ground arith)

module _ {F : Type 0} ⦃o : Float F⦄ (intent : ExecutionIntent F)
    (context : ExecutionContext F) where
  listed_parts :
      (t : Text) (v : Value F) (names : Option (List (Value F)))
      → IsListed t v names
      → (is_nonblank v ≡ true) × (valid_names names ≡ true) × (in_names t names ≡ true)
  listed_parts t v names h =
      three (is_nonblank v) (valid_names names) (in_names t names)
        ((in_names-IsListed t v names).1 h)

  deployment_back : IsPermitted intent context → deployment_authorized intent context ≡ true
  unfolding deployment_authorized
  deployment_back p =
      let d = p.deployable in
      let b = listed_parts _ _ _ d.broker in
      let e = listed_parts _ _ _ d.environment in
      let a = listed_parts _ _ _ d.account in
      let s = listed_parts _ _ _ d.symbol in rw (d.enabled, d.live, b.2, e.2, a.2, s.2) refl

  deployment_valid_back : IsPermitted intent context → deployment_valid context ≡ true
  unfolding deployment_valid
  deployment_valid_back p =
      let d = p.deployable in
      let b = listed_parts _ _ _ d.broker in
      let e = listed_parts _ _ _ d.environment in
      let a = listed_parts _ _ _ d.account in
      let s = listed_parts _ _ _ d.symbol in
      rw (d.enabled, d.live, d.authoritative, b.0, b.1, e.0, e.1, a.0, a.1, s.1) refl

  counters_valid_back : IsPermitted intent context → counters_valid context ≡ true
  unfolding counters_valid
  counters_valid_back p =
      let d = p.day in
      let loss = (nonnegative-IsNonnegative context.daily_loss_percent).1 d.loss in
      let loss_limit = (positive-IsPositive context.max_daily_loss_percent).1 d.loss_limit in
      let trades = (is_int_from-IsIntFrom (pos 0) context.daily_trade_count).1 d.trades in
      let trades_limit =
        (is_int_from-IsIntFrom (pos 1) context.max_daily_trades).1 d.trades_limit in
      let limit = (is_int_from-IsIntFrom (pos 1) context.max_open_positions).1 p.free.limit in
      rw (p.deployable.stop_off, loss, loss_limit, trades, trades_limit, limit) refl

  free_back :
      IsPermitted intent context
      → (state_valid context ≡ true)
        × (same_symbol_open intent context ≡ false)
        × (key_used intent context ≡ false)
  unfolding state_valid same_symbol_open key_used
  free_back p =
      let others =
        (snapshots-IsElsewhere (normalize (chars intent.symbol)) p.free.positions).1
          p.free.others in
      let unused = (in_names-IsUnlisted _ _).1 p.free.unused in
      (rw (p.free.read, others.0, unused.0) refl, rw p.free.read others.1, unused.1)

  valid_back : IsPermitted intent context → context_valid intent context ≡ true
  unfolding context_valid
  valid_back p =
      let s = listed_parts _ _ _ p.deployable.symbol in
      rw (counters_valid_back p, (free_back p).0, deployment_valid_back p, s.0, p.free.named) refl

  unit_back : IsPermitted intent context → unit_matches intent context ≡ true
  unfolding unit_matches
  unit_back p =
      let known =
        (expected_unit-IsUnitOf (chars context.broker) p.sized.quantity.unit).1 p.sized.unit in
      rw (p.sized.present, known) (unit_eq_own p.sized.quantity.unit)

  levels_back : IsPermitted intent context → Protected intent context
  levels_back p =
      let l = p.protected in
      elim l.levels [
        | inl (b, x, y) ↦ inl (
          (is_side-IsSide buy intent.side).1 b,
          rw (l.stop_loss.1, l.entry.1) x,
          rw (l.entry.1, l.take_profit.1) y,
        )
        | inr (b, x, y) ↦ inr (
          (is_side-IsSide sell intent.side).1 b,
          rw (l.take_profit.1, l.entry.1) x,
          rw (l.entry.1, l.stop_loss.1) y,
        )
      ]

  -- And back.
  authorized_of : IsPermitted intent context → IsAuthorized intent context
  authorized_of p = record {
    deployed = record {
      running = p.deployable.stop_off;
      approved = p.deployable.approved;
      valid = valid_back p;
      deployment = deployment_back p;
      authoritative = p.deployable.authoritative;
    };
    quantity = record {
      verified = p.sized.verified;
      present = unfold has_quantity in ground (arith, p.sized.present);
      unit = unit_back p;
      risk = (positive-IsPositive intent.authorized_risk_amount).1 p.sized.risk;
      loss = (nonnegative-IsNonnegative intent.expected_loss_at_stop).1 p.sized.loss;
      bounded = bounded_of intent context p.sized.loss p.sized.risk ∙ p.sized.bounded;
    };
    levels = record {
      entry = (positive-IsPositive intent.entry).1 p.protected.entry;
      stop_loss = (positive-IsPositive intent.stop_loss).1 p.protected.stop_loss;
      take_profit = (positive-IsPositive intent.take_profit).1 p.protected.take_profit;
      protected = levels_back p;
    };
    limits = record {
      loss = p.day.below_loss;
      trades = p.day.below_trades;
      positions = rw p.free.read p.free.below;
      symbol = (free_back p).1;
      key = (free_back p).2;
    };
  }

  -- `evaluate` allows an intent exactly when all of these hold. The emergency stop is off, the risk is
  -- approved, the day's counters are authoritative, execution is enabled and no dry run; the
  -- broker, the environment, the account and the normalised symbol are nonblank and in their approved
  -- collections of nonblank names. The day's loss is a finite number from 0 and its limit one above 0,
  -- which is not at most the loss; the number of trades is an `int` from 0 and its limit one from 1,
  -- which is not at most the number. The open positions are snapshots of either side in other
  -- symbols, fewer than their limit; the key is nonblank and not among the used ones. The quantity is
  -- verified and in the unit of its broker; the authorised risk is finite and above 0, the expected
  -- loss finite and from 0, and not above the authorised risk with its tolerance. Entry, stop and
  -- target are finite and above 0, in this order: stop, entry, target for BUY, and reversed for SELL.
  pub evaluate-IsPermitted_iff :
      ((evaluate intent (some context)).allowed ≡ true) ↔ IsPermitted intent context
  evaluate-IsPermitted_iff =
      let passes = evaluate-allowed_iff intent context in
      (
        λ h.
            let a = passes.0 h in
            record {
              deployable = deployable_of intent context a;
              day = day_of intent context a;
              free = free_of intent context a;
              sized = sized_of intent context a;
              protected = protected_of intent context a;
            },
        λ p. passes.1 (authorized_of p),
      )
