-- ===== src/Risk/Daily.antt =====
-- The daily counters of risk/risk_engine.py after they have been rebuilt from the history of trades.
use jqe.Prelude.{
  ℕ, suc, ◌+◌, ◌==◌, ◌≡◌, refl, ap, ◌∙◌, Bool, true, false, not, List, [], ◌∷◌, any, filter, length,
  arith, Bool-cases, inl, inr,
}
use jqe.Number.{float, Float, zero_float}
use jqe.Risk.{
  ClosedTrade, RiskEngine, at_least_zero, is_zero, loss_percent_of, nought, record_loss,
  record_trade_execution, reset_daily_stats, reconcile_trade, reconcile_trades,
  reconcile_daily_history,
}

module _ {F : Type 0} where
  abbrev pub closed_on : ℕ → ClosedTrade F → Bool
  closed_on today trade = trade.closed_date == today

module _ {F : Type 0} ⦃o : Float F⦄ where
  abbrev pub is_loss : ClosedTrade F → Bool
  is_loss trade = o.lt (float trade.profit) zero_float

  -- The losses of the trades in percent of the balance, added to `x` in their order.
  abbrev pub add_losses : F → List (ClosedTrade F) → F → F
  add_losses balance [] x = x
  add_losses balance (trade ∷ trades) x =
      add_losses balance trades (o.plus x (at_least_zero (loss_percent_of balance trade.profit)))

  -- The engine that has counted `n` more trades and reached the loss `x`.
  abbrev pub counted : ℕ → F → RiskEngine F → RiskEngine F
  counted n x e = record e {
    daily_trades_count = e.daily_trades_count + n;
    daily_realized_loss_percent = x;
  }

  counted-suc :
      (n : ℕ) (x y : F) (e : RiskEngine F)
      → counted n x (record e {
        daily_trades_count = suc e.daily_trades_count;
        daily_realized_loss_percent = y;
      })
        ≡ counted (suc n) x e
  counted-suc n x y e =
      let sum : suc e.daily_trades_count + n ≡ e.daily_trades_count + suc n = omega arith in
      ap (λ k. record e { daily_trades_count = k; daily_realized_loss_percent = x }) sum

  reconcile_trades-counted :
      (balance : F) (today : ℕ) (trades : List (ClosedTrade F)) (e : RiskEngine F)
      → is_zero balance ≡ false
      → reconcile_trades balance today trades e ≡ (
        true,
        counted
            (length (filter (closed_on today) trades))
            (add_losses balance
              (filter is_loss (filter (closed_on today) trades))
              e.daily_realized_loss_percent)
            e,
      )
  unfolding reconcile_trades reconcile_trade record_trade_execution record_loss
  reconcile_trades-counted balance today [] e nonzero =
      let sum : e.daily_trades_count ≡ e.daily_trades_count + 0 = omega arith in
      ap (λ k. (true, record e { daily_trades_count = k })) sum
  reconcile_trades-counted balance today (trade ∷ trades) e nonzero =
      let e' = record_trade_execution e in
      let loss = loss_percent_of balance trade.profit in
      let gaining = reconcile_trades-counted balance today trades e' nonzero in
      let losing = reconcile_trades-counted balance today trades (record_loss loss e') nonzero in
      let rest = filter (closed_on today) trades in
      let n = length rest in
      let x = e.daily_realized_loss_percent in
      let y = o.plus x (at_least_zero loss) in
      elim (Bool-cases (trade.closed_date == today)) [
        | inr other ↦ ground (arith, reconcile_trades-counted balance today trades e nonzero)
        | inl now ↦ elim (Bool-cases (is_loss trade)) [
          | inr gain ↦
              ground
                (arith, gaining, counted-suc n (add_losses balance (filter is_loss rest) x) x e)
          | inl sinks ↦
              ground (arith, losing, counted-suc n (add_losses balance (filter is_loss rest) y) y e)
        ]
      ]

  -- If the balance is not zero, then the counters that are rebuilt from the history are those of
  -- today's trades alone, whatever the engine held before: their number, and the sum of the losses of
  -- the losing ones in percent of the balance, in their order. Nothing is raised, and no setting of
  -- the engine changes.
  pub reconcile_daily_history-counted :
      (trades : List (ClosedTrade F)) (balance : F) (today : ℕ) (e : RiskEngine F)
      → is_zero balance ≡ false
      → reconcile_daily_history trades balance today e ≡ (
        true,
        record e {
          daily_trades_count = length (filter (closed_on today) trades);
          daily_realized_loss_percent =
              add_losses balance (filter is_loss (filter (closed_on today) trades)) nought;
        },
      )
  unfolding reconcile_daily_history reset_daily_stats
  reconcile_daily_history-counted trades balance today e nonzero =
      let todays = filter (closed_on today) trades in
      let x = add_losses balance (filter is_loss todays) nought in
      let count : 0 + length todays ≡ length todays = omega arith in
      reconcile_trades-counted balance today trades (reset_daily_stats e) nonzero
      ∙ ap (λ k. (true, record e { daily_trades_count = k; daily_realized_loss_percent = x })) count

  reconcile_trades-raises :
      (balance : F) (today : ℕ) (trades : List (ClosedTrade F)) (e : RiskEngine F)
      → is_zero balance ≡ true
      → (reconcile_trades balance today trades e).0
        ≡ not (any is_loss (filter (closed_on today) trades))
  unfolding reconcile_trades reconcile_trade
  reconcile_trades-raises balance today [] e zero = refl
  reconcile_trades-raises balance today (trade ∷ trades) e zero =
      elim (Bool-cases (trade.closed_date == today)) [
        | inr other ↦ ground (arith, reconcile_trades-raises balance today trades e zero)
        | inl now ↦ elim (Bool-cases (is_loss trade)) [
          | inr gain ↦
              ground (
                arith,
                reconcile_trades-raises balance today trades (record_trade_execution e) zero,
              )
          | inl sinks ↦ ground arith
        ]
      ]

  -- With a balance of zero, the rebuilding raises exactly if a trade of today is a loss.
  reconcile_daily_history-raises :
      (trades : List (ClosedTrade F)) (balance : F) (today : ℕ) (e : RiskEngine F)
      → is_zero balance ≡ true
      → (reconcile_daily_history trades balance today e).0
        ≡ not (any is_loss (filter (closed_on today) trades))
  unfolding reconcile_daily_history
  reconcile_daily_history-raises trades balance today e zero =
      reconcile_trades-raises balance today trades (reset_daily_stats e) zero
