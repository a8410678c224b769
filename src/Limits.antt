-- ===== src/Limits.antt =====
-- execution/position_limits.py (`demo_position_cap`) and execution/pending_limits.py
-- (`prepare_limit`): the cap on positions, and the preparation of a limit order.
pub mod Ready
pub mod Prepared
mod Tests
use jqe.Prelude.{
  ℕ, ◌+◌, Bool, true, false, not, ◌&&◌, ◌||◌, ℤ, pos, leb_ℤ, Option, none, some, List, [], ◌∷◌,
  ◌++◌, any, all, length, leb, String, if◌then◌else◌,
}
use jqe.Text.{Text, text, text_eq, normalize}
use jqe.Number.{int, float, Num, Float, finite, zero_float}
use jqe.Broker.{buy, sell}
use jqe.Value.{Value, num, bool, str, side, is_true, is_nonblank, chars, is_side, has_text}
use jqe.Policy.{value_lt, value_le}

-- The bounds of the cap, `1 <= n <= 5`.
abbrev pub in_bounds : ℤ → Bool
in_bounds n = leb_ℤ (pos 1) n && leb_ℤ n (pos 5)

module _ {F : Type 0} where
  -- An `int` and no `bool` within the bounds.
  abbrev pub is_cap : Value F → Bool
  is_cap (num (int n)) = in_bounds n
  is_cap _ = false

  abbrev pub cap_value : Value F → ℤ
  cap_value (num (int n)) = n
  cap_value _ = pos 1

module _ {F : Type 0} ⦃o : Float F⦄ where
  abbrev fifty : Value F
  fifty = num (int (pos 50))

  -- The settings of the cap, with the defaults of `getattr`.
  abbrev limit_setting : Option (Value F) → Value F
  limit_setting none = num (int (pos 1))
  limit_setting (some v) = v

  abbrev pub floor_setting : Option (Value F) → Value F
  floor_setting none = num (float (o.decimal 50 0))
  floor_setting (some v) = v

  -- A finite number; a `bool`, which is below 50, is none here.
  abbrev pub is_amount : Value F → Bool
  is_amount (num n) = finite n
  is_amount _ = false

  -- `demo_position_cap`
  unfoldable pub demo_position_cap : Option (Value F) → Option (Value F) → Value F → Value F → ℤ
  unfolding text_eq
  demo_position_cap max_open_positions equity_floor equity currency =
      let limit = limit_setting max_open_positions in
      let floor = floor_setting equity_floor in
      if not (is_cap limit) || not (is_amount floor) || value_lt floor fifty
      then pos 1
      else if not (has_text (text "USD") (currency ∷ []))
          || not (is_amount equity)
          || value_lt equity floor
      then pos 1
      else cap_value limit

pub record LimitDraft (F : Type 0) : Type 0 where
  pub symbol : Value F
  pub side : Value F
  pub entry : Value F
  pub stop_loss : Value F
  pub take_profit : Value F
  pub risk_amount : Value F
  pub idempotency_key : Value F

pub record LimitPreparation : Type 0 where
  pub ready : Bool
  pub reason : String

-- The evidence that a draft is validated against. A collection `none` is None, or no tuple or
-- frozenset.
pub record LimitEvidence (F : Type 0) : Type 0 where
  pub bid : Value F
  pub ask : Value F
  pub open_symbols : Option (List (Value F))
  pub pending_symbols : Option (List (Value F))
  pub snapshots_complete : Value F
  pub risk_approved : Value F
  pub authorized_risk_amount : Value F
  pub total_cap : Value F
  pub used_keys : Option (List (Value F))

abbrev pub refuse : String → LimitPreparation
refuse reason = record { ready = false; reason = reason }

module _ {F : Type 0} where
  -- `len(open_symbols) + len(pending_symbols) >= total_cap`
  abbrev pub reaches_cap : Value F → List (Value F) → List (Value F) → Bool
  reaches_cap cap opened resting = leb_ℤ (cap_value cap) (pos (length opened + length resting))

  -- `normalized in {s.strip().upper() for s in (*open_symbols, *pending_symbols)}`
  abbrev pub holds_symbol : LimitDraft F → List (Value F) → Bool
  holds_symbol d symbols =
      any (λ s. text_eq (normalize (chars s)) (normalize (chars d.symbol))) symbols

module _ {F : Type 0} ⦃o : Float F⦄ where
  -- `type(v) in (int, float)`, finite and not `<= 0`
  abbrev pub is_positive : Value F → Bool
  is_positive (num n) = finite n && not (o.le n zero_float)
  is_positive _ = false

  abbrev pub valid_amounts : LimitDraft F → LimitEvidence F → Bool
  valid_amounts d e =
      is_positive e.bid
      && is_positive e.ask
      && is_positive d.entry
      && is_positive d.stop_loss
      && is_positive d.take_profit
      && is_positive d.risk_amount
      && is_positive e.authorized_risk_amount

  -- The levels of a limit order on its side of the market.
  unfoldable pub valid_levels : LimitDraft F → LimitEvidence F → Bool
  valid_levels d e =
      if is_side buy d.side
      then value_lt d.stop_loss d.entry && value_lt d.entry d.take_profit && value_lt d.entry e.ask
      else if is_side sell d.side
      then value_lt d.take_profit d.entry && value_lt d.entry d.stop_loss && value_lt e.bid d.entry
      else false

  -- The checks of the draft, behind those of the broker's state and of the caps.
  unfoldable pub prepare_draft :
      LimitDraft F → LimitEvidence F → List (Value F) → List (Value F) → LimitPreparation
  prepare_draft d e symbols keys =
      if not (is_nonblank d.symbol && is_nonblank d.idempotency_key)
      then refuse "INVALID_DRAFT"
      else if has_text (chars d.idempotency_key) keys
      then refuse "DUPLICATE_DRAFT"
      else if holds_symbol d symbols
      then refuse "SAME_SYMBOL_BLOCKED"
      else if not (valid_amounts d e) || value_lt e.ask e.bid
      then refuse "PRICE_OR_RISK_UNAVAILABLE"
      else if not (is_true e.risk_approved) || value_lt e.authorized_risk_amount d.risk_amount
      then refuse "RISK_NOT_APPROVED"
      else if valid_levels d e
      then record { ready = true; reason = "DRAFT_READY_NOT_AUTHORIZED_FOR_SUBMISSION" }
      else refuse "INVALID_LIMIT_LEVELS"

  -- The checks of the broker's state and of the caps. A draft `none` is no `LimitDraft`.
  unfoldable pub prepare_snapshots :
      Option (LimitDraft F)
      → LimitEvidence F
      → List (Value F)
      → List (Value F)
      → List (Value F)
      → LimitPreparation
  prepare_snapshots draft e opened resting keys =
      if not (all is_nonblank opened && all is_nonblank resting && all is_nonblank keys)
      then refuse "BROKER_STATE_UNAVAILABLE"
      else if not (is_cap e.total_cap)
      then refuse "CAP_UNAVAILABLE"
      else if leb 2 (length resting)
      then refuse "PENDING_LIMIT_REACHED"
      else if reaches_cap e.total_cap opened resting
      then refuse "TOTAL_CAP_REACHED"
      else elim draft [
        | none ↦ refuse "INVALID_DRAFT"
        | some d ↦ prepare_draft d e (opened ++ resting) keys
      ]

  -- `prepare_limit`
  unfoldable pub prepare_limit : Option (LimitDraft F) → LimitEvidence F → LimitPreparation
  prepare_limit draft e =
      if not (is_true e.snapshots_complete)
      then refuse "BROKER_STATE_UNAVAILABLE"
      else elim e.open_symbols [
        | none ↦ refuse "BROKER_STATE_UNAVAILABLE"
        | some opened ↦ elim e.pending_symbols [
          | none ↦ refuse "BROKER_STATE_UNAVAILABLE"
          | some resting ↦ elim e.used_keys [
            | none ↦ refuse "BROKER_STATE_UNAVAILABLE"
            | some keys ↦ prepare_snapshots draft e opened resting keys
          ]
        ]
      ]
