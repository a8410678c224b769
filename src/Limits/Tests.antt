-- ===== src/Limits/Tests.antt =====
-- The caps and a limit draft on concrete values.
use jqe.Prelude.{
  ◌+◌, ◌≤◌, ◌≡◌, ◌↔◌, refl, true, false, some, none, pos, [], ◌∷◌, length, leb_ℤ, List, Option,
}
use jqe.Text.{Text, text}
use jqe.Number.{int}
use jqe.Number.Fixed.{Fixed, fixed_float}
use jqe.Broker.{buy}
use jqe.Value.{has_text, Value, num, bool, str, side}
use jqe.Policy.{value_lt}
use jqe.Limits.{
  in_bounds, demo_position_cap, is_amount, floor_setting, LimitDraft, LimitEvidence, prepare_limit,
}
use jqe.Limits.Prepared.{IsPrepared, prepare_limit-ready_iff}
use jqe.Limits.Ready.{prepare_limit_bounded, demo_position_cap_bounded, demo_position_cap_raised}
use jqe.Samples.{amount}

abbrev draft : LimitDraft Fixed
draft = record {
  symbol = str (text "EURUSD");
  side = side buy;
  entry = amount 1100;
  stop_loss = amount 1090;
  take_profit = amount 1130;
  risk_amount = amount 500;
  idempotency_key = str (text "k1");
}

abbrev opened : List (Value Fixed)
opened = str (text "GBPUSD") ∷ []

abbrev evidence : LimitEvidence Fixed
evidence = record {
  bid = amount 1105;
  ask = amount 1106;
  open_symbols = some opened;
  pending_symbols = some [];
  snapshots_complete = bool true;
  risk_approved = bool true;
  authorized_risk_amount = amount 1000;
  total_cap = num (int (pos 3));
  used_keys = some [];
}

prepared : (prepare_limit (some draft) evidence).ready ≡ true
unfolding prepare_limit jqe.Limits.prepare_snapshots jqe.Text.nonblank jqe.Limits.prepare_draft
    jqe.Text.text_eq jqe.Text.normalize jqe.Limits.valid_levels
prepared = refl

prepare_limit-ready_iff_example :
    ((prepare_limit (some draft) evidence).ready ≡ true) ↔ IsPrepared draft evidence
prepare_limit-ready_iff_example = prepare_limit-ready_iff draft evidence

prepare_limit_bounded_example : length opened + 0 + 1 ≤ 5
prepare_limit_bounded_example = prepare_limit_bounded draft evidence opened [] refl refl prepared

abbrev four : Option (Value Fixed)
four = some (num (int (pos 4)))

abbrev usd : Value Fixed
usd = str (text "USD")

cap_test : demo_position_cap four none (amount 80000) usd ≡ pos 4
unfolding demo_position_cap
cap_test = refl

demo_position_cap_bounded_example :
    (leb_ℤ (pos 1) (demo_position_cap four none (amount 80000) usd) ≡ true)
    × (leb_ℤ (demo_position_cap four none (amount 80000) usd) (pos 5) ≡ true)
demo_position_cap_bounded_example = demo_position_cap_bounded four none (amount 80000) usd

raised_test : leb_ℤ (pos 2) (demo_position_cap four none (amount 80000) usd) ≡ true
unfolding demo_position_cap
raised_test = refl

demo_position_cap_raised_example :
    (four ≡ some (num (int (demo_position_cap four none (amount 80000) usd))))
    × (is_amount (amount 80000) ≡ true)
    × (value_lt (amount 80000) (floor_setting none) ≡ false)
    × (value_lt {F = Fixed} (floor_setting none) (num (int (pos 50))) ≡ false)
    × (has_text {F = Fixed} (text "USD") (usd ∷ []) ≡ true)
demo_position_cap_raised_example = demo_position_cap_raised four none (amount 80000) usd raised_test
