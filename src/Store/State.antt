-- ===== src/Store/State.antt =====
-- execution/persistence.py: the contents of the database file of `SQLiteIntentRecordStore`, the
-- transitions that it admits, and the integrity halt.
use jqe.Prelude.{
  ℕ, ◌*◌, Bool, true, false, not, ℤ, pos_part, Option, some, List, or_else, if◌then◌else◌,
}
use jqe.Text.{Text, strip, nonblank}
use jqe.Intent.{IntentRecordStatus, pending, accepted, rejected, unknown}
use jqe.Store.Rows.{Row, ReservationRow, Result, ok, raised, value_error}

pub record Store (F : Type 0) : Type 0 where
  pub intents : List (Row F)
  pub reservations : List ReservationRow
  pub halt : Option Text

-- `_ALLOWED_TRANSITIONS`
unfoldable pub allowed_transition : IntentRecordStatus → IntentRecordStatus → Bool
allowed_transition pending pending = false
allowed_transition pending _ = true
allowed_transition unknown pending = false
allowed_transition unknown _ = true
allowed_transition accepted accepted = true
allowed_transition accepted _ = false
allowed_transition rejected rejected = true
allowed_transition rejected _ = false

-- `lease_seconds` in microseconds
abbrev pub microseconds : ℤ → ℕ
microseconds seconds = pos_part seconds * 1000000

module _ {F : Type 0} where
  -- `post_fill_integrity_halt`
  unfoldable pub post_fill_integrity_halt : Store F → Result (Option Text) × Store F
  post_fill_integrity_halt s = (ok s.halt, s)

  -- `record_post_fill_integrity_halt`: INSERT OR IGNORE of the single row
  unfoldable pub record_post_fill_integrity_halt : Text → Store F → Result Unit × Store F
  record_post_fill_integrity_halt reason s =
      if not (nonblank reason)
      then (raised value_error, s)
      else (ok tt, record s { halt = or_else s.halt (some (strip reason)) })
