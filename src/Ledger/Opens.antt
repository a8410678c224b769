-- ===== src/Ledger/Opens.antt =====
-- The methods that open a position: `record_open` and `record_confirmed_fill_once`.
use jqe.Prelude.{
  ℕ, Bool, true, false, not, ◌&&◌, Option, none, some, List, [], ◌∷◌, ◌++◌, ◌>>=◌, if◌then◌else◌,
}
use jqe.Text.{Text, text_eq}
use jqe.Number.{float, Float, zero_float}
use jqe.Broker.{OrderSide, buy, sell, side_value}
use jqe.Store.{Result, ok, raised, value_error, DateTime, naive, aware}
use jqe.Ledger.Rows.{Entry, required_text, text_is, float_is, find_entry, put_entry}

-- The four texts that identify an opened position.
pub record Identity : Type 0 where
  pub broker : Text
  pub symbol : Text
  pub position_id : Text
  pub order_id : Text

unfoldable pub required_identity : Identity → Option Identity
unfolding required_text
required_identity i = do
  broker ← required_text i.broker
  symbol ← required_text i.symbol
  position_id ← required_text i.position_id
  order_id ← required_text i.order_id
  some (record { broker = broker; symbol = symbol; position_id = position_id; order_id = order_id })

module _ {F : Type 0} where
  -- A row of an INSERT that names these columns only.
  abbrev pub new_entry : Identity → ℕ → Entry F
  new_entry i opened_at = record {
    broker = i.broker;
    symbol = i.symbol;
    position_id = i.position_id;
    order_id = i.order_id;
    opened_at = opened_at;
    closed_at = none;
    close_price = none;
    realized_pnl = none;
    currency = none;
    reconciliation_state = none;
    side = none;
    volume = none;
    entry_price = none;
    stop_loss = none;
    notification_claimed_at = none;
    remaining_volume = none;
    close_reason = none;
    close_notification_claimed_at = none;
    close_unconfirmed_notification_claimed_at = none;
    expected_lifetime_at = none;
    timeframe = none;
  }

  -- The DO UPDATE of `record_open`.
  abbrev pub reopened : Identity → ℕ → Entry F → Entry F
  reopened i opened_at e = record e {
    symbol = i.symbol;
    order_id = i.order_id;
    opened_at = opened_at;
    closed_at = none;
  }

  -- `record_open`
  unfoldable pub record_open : Identity → DateTime → List (Entry F) → Result Unit × List (Entry F)
  record_open identity (naive t) es = (raised value_error, es)
  record_open identity (aware t) es = elim (required_identity identity) [
    | none ↦ (raised value_error, es)
    | some i ↦ elim (find_entry i.broker i.position_id es) [
      | none ↦ (ok tt, es ++ new_entry i t ∷ [])
      | some e ↦ (ok tt, put_entry i.broker i.position_id (reopened i t) es)
    ]
  ]

-- `astimezone(timezone.utc)`; `local` gives the instant of a naive local time.
abbrev pub as_utc : (ℕ → ℕ) → Option DateTime → Option ℕ
as_utc local none = none
as_utc local (some (naive t)) = some (local t)
as_utc local (some (aware t)) = some t

-- The facts of a confirmed fill.
pub record Fill (F : Type 0) : Type 0 where
  pub side : OrderSide
  pub volume : F
  pub entry_price : F
  pub stop_loss : F
  pub expected_lifetime_at : Option DateTime
  pub timeframe : Option Text

module _ {F : Type 0} ⦃o : Float F⦄ where
  abbrev pub positive : F → Bool
  positive x = o.is_finite x && o.lt zero_float (float x)

  -- The stop is on the protective side of the entry.
  abbrev pub protective : Fill F → Bool
  protective f = elim f.side [
    | buy ↦ o.lt (float f.stop_loss) (float f.entry_price)
    | sell ↦ o.lt (float f.entry_price) (float f.stop_loss)
  ]

  unfoldable pub valid_fill : Fill F → Bool
  valid_fill f = positive f.volume && positive f.entry_price && positive f.stop_loss && protective f

  -- The row that the INSERT of a confirmed fill writes.
  unfoldable pub fill_entry : (ℕ → ℕ) → Identity → ℕ → Fill F → Entry F
  fill_entry local i opened_at f = record (new_entry i opened_at) {
    side = some (side_value f.side);
    volume = some f.volume;
    entry_price = some f.entry_price;
    stop_loss = some f.stop_loss;
    remaining_volume = some f.volume;
    expected_lifetime_at = as_utc local f.expected_lifetime_at;
    timeframe = f.timeframe;
  }

  -- The stored row has the same evidence.
  unfoldable pub same_fill : Identity → Fill F → Entry F → Bool
  same_fill i f e =
      text_eq e.symbol i.symbol
      && text_eq e.order_id i.order_id
      && text_is e.side (side_value f.side)
      && float_is e.volume f.volume
      && float_is e.entry_price f.entry_price
      && float_is e.stop_loss f.stop_loss

  -- `record_confirmed_fill_once`
  unfoldable pub record_confirmed_fill_once :
      (ℕ → ℕ) → Identity → DateTime → Fill F → List (Entry F) → Result Bool × List (Entry F)
  record_confirmed_fill_once local identity (naive t) f es = (raised value_error, es)
  record_confirmed_fill_once local identity (aware t) f es =
      if not (valid_fill f) then (raised value_error, es) else elim (required_identity identity) [
        | none ↦ (raised value_error, es)
        | some i ↦ elim (find_entry i.broker i.position_id es) [
          | none ↦ (ok true, es ++ fill_entry local i t f ∷ [])
          | some e ↦ if same_fill i f e then (ok false, es) else (raised value_error, es)
        ]
      ]
