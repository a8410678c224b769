-- ===== src/Ledger/Closes.antt =====
-- The methods that close a position or claim a notification of it.
use jqe.Prelude.{ℕ, Bool, not, ◌&&◌, ◌||◌, pos, Option, none, some, List, if◌then◌else◌, is_some}
use jqe.Text.{Text, text}
use jqe.Number.{float, Float, zero_float}
use jqe.Store.{column, Result, ok, raised, value_error, DateTime, naive, aware}
use jqe.Ledger.Rows.{Entry, required_text, text_is, float_is, update_entry}

-- What `mark_closed` stores.
pub record Close (F : Type 0) : Type 0 where
  pub close_price : Option F
  pub realized_pnl : Option F
  pub currency : Option Text
  pub reconciliation_state : Option Text
  pub close_reason : Option Text

module _ {F : Type 0} where
  abbrev pub is_open : Entry F → Bool
  is_open e = not (is_some e.closed_at)

  -- `claim_open_notification_once`
  unfoldable pub claim_open_notification_once :
      Text → Text → ℕ → List (Entry F) → Bool × List (Entry F)
  claim_open_notification_once broker position_id now =
      update_entry broker position_id (λ e. not (is_some e.notification_claimed_at))
        (λ e. record e { notification_claimed_at = some now })

  -- `mark_close_unconfirmed`
  unfoldable pub mark_close_unconfirmed : Text → Text → List (Entry F) → Bool × List (Entry F)
  mark_close_unconfirmed broker position_id =
      update_entry broker position_id
        (λ e. is_open e && not (text_is e.reconciliation_state (text "CLOSE_UNCONFIRMED")))
        (λ e. record e { reconciliation_state = some (text "CLOSE_UNCONFIRMED") })

  -- `claim_close_notification_once`
  unfoldable pub claim_close_notification_once :
      Text → Text → ℕ → List (Entry F) → Bool × List (Entry F)
  claim_close_notification_once broker position_id now =
      update_entry broker position_id
        (λ e. is_some e.closed_at && not (is_some e.close_notification_claimed_at))
        (λ e. record e { close_notification_claimed_at = some now })

  -- `claim_close_unconfirmed_notification_once`
  unfoldable pub claim_close_unconfirmed_notification_once :
      Text → Text → ℕ → List (Entry F) → Bool × List (Entry F)
  claim_close_unconfirmed_notification_once broker position_id now =
      update_entry broker position_id
        (λ e.
          text_is e.reconciliation_state (text "CLOSE_UNCONFIRMED")
          && not (is_some e.close_unconfirmed_notification_claimed_at))
        (λ e. record e { close_unconfirmed_notification_claimed_at = some now })

module _ {F : Type 0} ⦃o : Float F⦄ where
  abbrev pub closed_entry : Close F → ℕ → Entry F → Entry F
  closed_entry c t e = record e {
    closed_at = some t;
    close_price = column c.close_price;
    realized_pnl = column c.realized_pnl;
    currency = c.currency;
    reconciliation_state = c.reconciliation_state;
    close_reason = c.close_reason;
    remaining_volume = some (o.of_int (pos 0));
  }

  -- `mark_closed`
  unfoldable pub mark_closed :
      Text → Text → DateTime → Close F → List (Entry F) → Result Bool × List (Entry F)
  mark_closed broker position_id (naive t) c es = (raised value_error, es)
  mark_closed broker position_id (aware t) c es = elim (required_text broker) [
    | none ↦ (raised value_error, es)
    | some b ↦ elim (required_text position_id) [
      | none ↦ (raised value_error, es)
      | some p ↦
          let (changed, es') = update_entry b p is_open (closed_entry c t) es in (ok changed, es')
    ]
  ]

  -- A position remains, and both figures are finite.
  abbrev pub valid_partial : F → F → Bool
  valid_partial remaining_volume realized_pnl =
      o.is_finite remaining_volume
      && o.lt zero_float (float remaining_volume)
      && o.is_finite realized_pnl

  -- The row is open and has other figures.
  abbrev pub partial_differs : F → F → Entry F → Bool
  partial_differs remaining_volume realized_pnl e =
      is_open e
      && (not (float_is e.remaining_volume remaining_volume)
          || not (float_is e.realized_pnl realized_pnl))

  abbrev pub partial_entry : F → F → Entry F → Entry F
  partial_entry remaining_volume realized_pnl e = record e {
    remaining_volume = some remaining_volume;
    realized_pnl = some realized_pnl;
    reconciliation_state = some (text "PARTIAL_CLOSE_CONFIRMED");
  }

  -- `mark_partial_close`
  unfoldable pub mark_partial_close :
      Text → Text → F → F → List (Entry F) → Result Bool × List (Entry F)
  mark_partial_close broker position_id remaining_volume realized_pnl es =
      if not (valid_partial remaining_volume realized_pnl)
      then (raised value_error, es)
      else let (changed, es') =
          update_entry broker position_id (partial_differs remaining_volume realized_pnl)
            (partial_entry remaining_volume realized_pnl) es in
        (ok changed, es')
