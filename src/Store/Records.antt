-- ===== src/Store/Records.antt =====
-- execution/persistence.py: reading, listing and resolving intent records.
use jqe.Prelude.{
  ℕ, Bool, true, false, not, Option, none, some, List, [], ◌∷◌, is_some, if◌then◌else◌,
}
use jqe.Text.{Text, nonblank}
use jqe.Number.{Float}
use jqe.Intent.{IntentRecord}
use jqe.Store.Rows.{Row, Result, ok, raised, value_error, status_value, decode, is_unresolved}
use jqe.Store.Tables.{find_row, update_row, order_rows}
use jqe.Store.State.{Store, allowed_transition}

module _ {F : Type 0} where
  -- `record_recovery_diagnostic`
  unfoldable pub record_recovery_diagnostic :
      Text → Text → Option Text → Text → Store F → Result Bool × Store F
  record_recovery_diagnostic key outcome reconciliation reason s =
      if not (nonblank key) then (raised value_error, s) else (
        ok (is_some (find_row key s.intents)),
        record s {
          intents =
              update_row key
                (λ r. record r {
                  recovery_outcome = some outcome;
                  reconciliation_state = reconciliation;
                  recovery_reason = some reason;
                })
                s.intents;
        },
      )

module _ {F : Type 0} ⦃o : Float F⦄ where
  -- `get`
  unfoldable pub get : Text → Store F → Result (Option (IntentRecord F)) × Store F
  get key s =
      if not (nonblank key) then (raised value_error, s) else elim (find_row key s.intents) [
        | none ↦ (ok none, s)
        | some row ↦ elim (decode row) [
          | none ↦ (raised value_error, s)
          | some r ↦ (ok (some r), s)
        ]
      ]

  -- The decoded rows that are unresolved, in the order of the list.
  unfoldable pub decode_unresolved : List (Row F) → Option (List (IntentRecord F))
  decode_unresolved [] = some []
  decode_unresolved (row ∷ rows) = elim (decode row) [
    | none ↦ none
    | some r ↦ elim (decode_unresolved rows) [
      | none ↦ none
      | some rest ↦ some (if is_unresolved r.status then r ∷ rest else rest)
    ]
  ]

  -- `list_unresolved`
  unfoldable pub list_unresolved : Store F → Result (List (IntentRecord F)) × Store F
  list_unresolved s = elim (decode_unresolved (order_rows s.intents)) [
    | none ↦ (raised value_error, s)
    | some records ↦ (ok records, s)
  ]

  -- The UPDATE of `transition`, at the time `now`.
  abbrev pub resolve_row : IntentRecord F → ℕ → Row F → Row F
  resolve_row r now row = record row {
    state = status_value r.status;
    order_id = r.order_id;
    transaction_id = r.transaction_id;
    updated_at = now;
  }

  -- `transition`
  unfoldable pub transition : IntentRecord F → ℕ → Store F → Result Bool × Store F
  transition r now s =
      if not (nonblank r.idempotency_key)
      then (raised value_error, s)
      else elim (find_row r.idempotency_key s.intents) [
        | none ↦ (ok false, s)
        | some row ↦ elim (decode row) [
          | none ↦ (raised value_error, s)
          | some current ↦
              if not (allowed_transition current.status r.status) then (ok false, s) else (
                ok true,
                record s { intents = update_row r.idempotency_key (resolve_row r now) s.intents },
              )
        ]
      ]
