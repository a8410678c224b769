-- ===== src/Risk/Engine.antt =====
-- risk/risk_engine.py: `RiskEngine`, its daily counters and its decision on a trade. The texts of
-- the reasons are left out; their codes are kept.
use jqe.Prelude.{
  ℕ, suc, ◌==◌, Bool, true, false, not, ◌&&◌, ◌||◌, ℤ, pos, Option, none, some, List, [], ◌∷◌,
  leb_ℤ, if◌then◌else◌,
}
use jqe.Text.{Text, text, text_eq}
use jqe.Number.{Num, int, float, Float, zero_float}

pub data RiskDecisionCode : Type 0 where
  missing_signal no_trade_signal confidence_too_low daily_trade_limit_reached : RiskDecisionCode
  daily_loss_limit_reached invalid_market_data low_volatility spread_too_high : RiskDecisionCode
  risk_approved : RiskDecisionCode

pub record DailyRiskState (F : Type 0) : Type 0 where
  pub daily_realized_loss_percent : F
  pub daily_trades_count : ℕ
  pub max_daily_loss : F
  pub max_trades_daily : ℤ

pub record RiskEngine (F : Type 0) : Type 0 where
  pub min_confidence : ℤ
  pub max_risk_percent : F
  pub min_atr : F
  pub max_spread : F
  pub max_daily_loss : F
  pub max_trades_daily : ℤ
  pub daily_trades_count : ℕ
  pub daily_realized_loss_percent : F

-- A closed trade by the date of its `closed_at`, in days, and its profit.
pub record ClosedTrade (F : Type 0) : Type 0 where
  pub closed_date : ℕ
  pub profit : F

-- The entries of a signal; a missing confidence is 0.
pub record Signal (F : Type 0) : Type 0 where
  pub signal : Text
  pub confidence : Num F

-- The entries of the last candle; a missing one is 0.
pub record Candle (F : Type 0) : Type 0 where
  pub atr : Num F
  pub spread : Num F

pub record RiskDecision (F : Type 0) : Type 0 where
  pub approved : Bool
  pub reason_code : RiskDecisionCode
  pub risk_percent : F
  pub authorized_risk_amount : F

pub data Limits : Type 0 where
  limits_ok trade_limit loss_limit : Limits

-- `direction in ("BUY", "SELL")`
unfoldable pub is_direction : Text → Bool
is_direction t = text_eq t (text "BUY") || text_eq t (text "SELL")

module _ {F : Type 0} where
  -- `record_trade_execution`
  unfoldable pub record_trade_execution : RiskEngine F → RiskEngine F
  record_trade_execution e = record e { daily_trades_count = suc e.daily_trades_count }

  -- `get_daily_state`
  abbrev pub get_daily_state : RiskEngine F → DailyRiskState F
  get_daily_state e = record {
    daily_realized_loss_percent = e.daily_realized_loss_percent;
    daily_trades_count = e.daily_trades_count;
    max_daily_loss = e.max_daily_loss;
    max_trades_daily = e.max_trades_daily;
  }

module _ {F : Type 0} ⦃o : Float F⦄ where
  -- The literals 0.0 and 100.0
  abbrev pub nought : F
  nought = o.decimal 0 0

  abbrev pub hundred : F
  hundred = o.decimal 100 0

  -- `max(0.0, x)`
  unfoldable pub at_least_zero : F → F
  at_least_zero x = if o.lt (float nought) (float x) then x else nought

  -- `record_loss`
  unfoldable pub record_loss : F → RiskEngine F → RiskEngine F
  unfolding at_least_zero
  record_loss loss_percent e = record e {
    daily_realized_loss_percent = o.plus e.daily_realized_loss_percent (at_least_zero loss_percent);
  }

  -- `reset_daily_stats`
  unfoldable pub reset_daily_stats : RiskEngine F → RiskEngine F
  reset_daily_stats e = record e { daily_trades_count = 0; daily_realized_loss_percent = nought }

  -- `balance == 0`, by which a division raises
  abbrev pub is_zero : F → Bool
  is_zero balance = o.le (float balance) zero_float && o.le zero_float (float balance)

  -- `(abs(profit) / balance) * 100`
  abbrev pub loss_percent_of : F → F → F
  loss_percent_of balance profit = o.times (o.over (o.absolute profit) balance) (o.of_int (pos 100))

  -- One trade of the loop of `reconcile_daily_history`, and whether it raises nothing.
  unfoldable pub reconcile_trade : F → ℕ → ClosedTrade F → RiskEngine F → Bool × RiskEngine F
  unfolding record_trade_execution record_loss
  reconcile_trade balance today trade e =
      if not (trade.closed_date == today)
      then (true, e)
      else if not (o.lt (float trade.profit) zero_float)
      then (true, record_trade_execution e)
      else if is_zero balance
      then (false, record_trade_execution e)
      else (true, record_loss (loss_percent_of balance trade.profit) (record_trade_execution e))

  unfoldable pub reconcile_trades :
      F → ℕ → List (ClosedTrade F) → RiskEngine F → Bool × RiskEngine F
  unfolding reconcile_trade
  reconcile_trades balance today [] e = (true, e)
  reconcile_trades balance today (trade ∷ trades) e =
      let (fine, e') = reconcile_trade balance today trade e in
      let rest = reconcile_trades balance today trades e' in if fine then rest else (false, e')

  -- `reconcile_daily_history` on the day `today`: whether it raises nothing, and the engine.
  unfoldable pub reconcile_daily_history :
      List (ClosedTrade F) → F → ℕ → RiskEngine F → Bool × RiskEngine F
  unfolding reset_daily_stats reconcile_trades
  reconcile_daily_history trades balance today e =
      reconcile_trades balance today trades (reset_daily_stats e)

  -- `evaluate_limits`
  unfoldable pub evaluate_limits : RiskEngine F → Limits
  evaluate_limits e =
      if leb_ℤ e.max_trades_daily (pos e.daily_trades_count)
      then trade_limit
      else if o.le (float e.max_daily_loss) (float e.daily_realized_loss_percent)
      then loss_limit
      else limits_ok

  abbrev pub reject : RiskDecisionCode → RiskDecision F
  reject code = record {
    approved = false;
    reason_code = code;
    risk_percent = nought;
    authorized_risk_amount = nought;
  }

  -- Parts 4 and 5 of `approve_trade`, where `none` is market data without a last row.
  unfoldable pub approve_market : Option (Candle F) → F → RiskEngine F → RiskDecision F
  approve_market none balance e = reject invalid_market_data
  approve_market (some candle) balance e =
      if o.lt candle.atr (float e.min_atr)
      then reject low_volatility
      else if o.lt (float e.max_spread) candle.spread
      then reject spread_too_high
      else record {
        approved = true;
        reason_code = risk_approved;
        risk_percent = e.max_risk_percent;
        authorized_risk_amount = o.times balance (o.over e.max_risk_percent hundred);
      }

  -- Part 3 of `approve_trade`
  unfoldable pub approve_limits : Bool → Option (Candle F) → F → RiskEngine F → RiskDecision F
  unfolding approve_market evaluate_limits
  approve_limits enforce_limits market_data balance e =
      if enforce_limits
      then elim (evaluate_limits e) [
        | limits_ok ↦ approve_market market_data balance e
        | trade_limit ↦ reject daily_trade_limit_reached
        | loss_limit ↦ reject daily_loss_limit_reached
      ]
      else approve_market market_data balance e

  -- `approve_trade`
  unfoldable pub approve_trade :
      Option (Signal F) → Option (Candle F) → F → Bool → RiskEngine F → RiskDecision F
  unfolding approve_limits
  approve_trade none market_data balance enforce_limits e = reject missing_signal
  approve_trade (some signal) market_data balance enforce_limits e =
      if not (is_direction signal.signal)
      then reject no_trade_signal
      else if o.lt signal.confidence (int e.min_confidence)
      then reject confidence_too_low
      else approve_limits enforce_limits market_data balance e
