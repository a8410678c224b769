-- ===== src/Risk/Approved.antt =====
-- When risk/risk_engine.py approves a trade.
use jqe.Prelude.{
  ◌≡◌, ◌↔◌, ◌⊎◌, refl, Bool, true, false, ◌||◌, pos, Option, none, some, leb_ℤ, arith, inl, inr,
  ||-eq-true,
}
use jqe.Text.{Text, text, text_eq}
use jqe.Text.Laws.{text_eq_iff}
use jqe.Number.{int, float, Float}
use jqe.Risk.{
  RiskEngine, Signal, Candle, is_direction, limits_ok, evaluate_limits, approve_market,
  approve_limits, approve_trade,
}

or_left : (a b : Bool) → a ≡ true → (a || b) ≡ true
or_left a b h = ground arith

or_right : (a b : Bool) → b ≡ true → (a || b) ≡ true
or_right a b h = ground arith

is_direction_iff : (t : Text) → (is_direction t ≡ true) ↔ ((t ≡ text "BUY") ⊎ (t ≡ text "SELL"))
unfolding is_direction
is_direction_iff t = (
  λ h. elim (||-eq-true (text_eq t (text "BUY")) (text_eq t (text "SELL")) h) [
    | inl buys ↦ inl ((text_eq_iff t (text "BUY")).0 buys)
    | inr sells ↦ inr ((text_eq_iff t (text "SELL")).0 sells)
  ],
  λ h. elim h [
    | inl buys ↦ or_left _ _ ((text_eq_iff t (text "BUY")).1 buys)
    | inr sells ↦ or_right _ _ ((text_eq_iff t (text "SELL")).1 sells)
  ],
)

module _ {F : Type 0} ⦃o : Float F⦄ where
  -- The daily limits leave room for a trade.
  pub record HasRoom (e : RiskEngine F) : Type 0 where
    pub trades_left : leb_ℤ e.max_trades_daily (pos e.daily_trades_count) ≡ false
    pub loss_left : o.le (float e.max_daily_loss) (float e.daily_realized_loss_percent) ≡ false

  -- The conditions of an approval.
  pub record IsApprovable (signal : Option (Signal F)) (market_data : Option (Candle F))
      (enforce_limits : Bool) (e : RiskEngine F) : Type 0 where
    pub given : Signal F
    pub is_given : signal ≡ some given
    pub directed : (given.signal ≡ text "BUY") ⊎ (given.signal ≡ text "SELL")
    pub confident : o.lt given.confidence (int e.min_confidence) ≡ false
    pub room : (enforce_limits ≡ false) ⊎ HasRoom e
    pub candle : Candle F
    pub is_read : market_data ≡ some candle
    pub volatile : o.lt candle.atr (float e.min_atr) ≡ false
    pub narrow : o.lt (float e.max_spread) candle.spread ≡ false

  HasRoom-of : (e : RiskEngine F) → evaluate_limits e ≡ limits_ok → HasRoom e
  unfolding evaluate_limits
  HasRoom-of e h = record { trades_left = ground arith; loss_left = ground arith }

  of-HasRoom : (e : RiskEngine F) → HasRoom e → evaluate_limits e ≡ limits_ok
  unfolding evaluate_limits
  of-HasRoom e h = ground (arith, h.trades_left, h.loss_left)

  approve_market-approved :
      (market_data : Option (Candle F)) (balance : F) (e : RiskEngine F)
      → (approve_market market_data balance e).approved ≡ true
      → (candle : Candle F) × (market_data ≡ some candle)
        × (o.lt candle.atr (float e.min_atr) ≡ false)
        × (o.lt (float e.max_spread) candle.spread ≡ false)
  unfolding approve_market
  approve_market-approved none balance e h = absurd (ground arith)
  approve_market-approved (some candle) balance e h = (candle, refl, ground arith, ground arith)

  approve_limits-approved :
      (enforce : Bool) (market_data : Option (Candle F)) (balance : F) (e : RiskEngine F)
      → (approve_limits enforce market_data balance e).approved ≡ true
      → ((enforce ≡ false) ⊎ HasRoom e) × ((approve_market market_data balance e).approved ≡ true)
  unfolding approve_limits
  approve_limits-approved false market_data balance e h = (inl refl, h)
  approve_limits-approved true market_data balance e h =
      let open_limits : evaluate_limits e ≡ limits_ok = ground arith in
      (inr (HasRoom-of e open_limits), ground (arith, open_limits))

  approve_trade-signal :
      (signal : Signal F) (market_data : Option (Candle F)) (balance : F) (enforce : Bool)
      (e : RiskEngine F)
      → (approve_trade (some signal) market_data balance enforce e).approved ≡ true
      → (is_direction signal.signal ≡ true)
        × (o.lt signal.confidence (int e.min_confidence) ≡ false)
        × ((approve_limits enforce market_data balance e).approved ≡ true)
  unfolding approve_trade
  approve_trade-signal signal market_data balance enforce e h =
      (ground arith, ground arith, ground arith)

  approvable :
      (signal : Option (Signal F)) (market_data : Option (Candle F)) (balance : F) (enforce : Bool)
      (e : RiskEngine F)
      → (approve_trade signal market_data balance enforce e).approved ≡ true
      → IsApprovable signal market_data enforce e
  approvable none market_data balance enforce e h = absurd (unfold approve_trade in ground arith)
  approvable (some signal) market_data balance enforce e h =
      let (directed, confident, passed) =
        approve_trade-signal signal market_data balance enforce e h in
      let (room, quoted) = approve_limits-approved enforce market_data balance e passed in
      let (candle, is_read, volatile, narrow) =
        approve_market-approved market_data balance e quoted in
      record {
        given = signal;
        is_given = refl;
        directed = (is_direction_iff signal.signal).0 directed;
        confident = confident;
        room = room;
        candle = candle;
        is_read = is_read;
        volatile = volatile;
        narrow = narrow;
      }

  of-room :
      (enforce : Bool) (market_data : Option (Candle F)) (balance : F) (e : RiskEngine F)
      → (enforce ≡ false) ⊎ HasRoom e
      → approve_limits enforce market_data balance e ≡ approve_market market_data balance e
  unfolding approve_limits
  of-room enforce market_data balance e (inl lax) = ground arith
  of-room false market_data balance e (inr room) = refl
  of-room true market_data balance e (inr room) = ground (arith, of-HasRoom e room)

  approved :
      (signal : Option (Signal F)) (market_data : Option (Candle F)) (balance : F) (enforce : Bool)
      (e : RiskEngine F)
      → IsApprovable signal market_data enforce e
      → (approve_trade signal market_data balance enforce e).approved ≡ true
  unfolding approve_trade approve_market
  approved signal market_data balance enforce e h =
      let directed = (is_direction_iff h.given.signal).1 h.directed in
      let onwards = of-room enforce market_data balance e h.room in
      ground (arith, h.is_given, directed, h.confident, onwards, h.is_read, h.volatile, h.narrow)

  -- A trade is approved exactly if there is a signal to buy or to sell whose confidence is not below
  -- the minimum, the daily limits leave room for a trade or are not enforced, and the market data
  -- have a last row whose ATR is not below the minimum and whose spread is not above the maximum.
  pub approve_trade-approved_iff :
      (signal : Option (Signal F)) (market_data : Option (Candle F)) (balance : F) (enforce : Bool)
      (e : RiskEngine F)
      → ((approve_trade signal market_data balance enforce e).approved ≡ true)
        ↔ IsApprovable signal market_data enforce e
  approve_trade-approved_iff signal market_data balance enforce e = (
    approvable signal market_data balance enforce e,
    approved signal market_data balance enforce e,
  )
