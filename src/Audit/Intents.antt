-- ===== src/Audit/Intents.antt =====
-- The intents that the audit of execution/continuous_reconciliation.py takes from the store.
use jqe.Prelude.{
  ◌≡◌, refl, true, false, Option, none, some, List, [], ◌∷◌, arith, Option-cases, inl, inr,
}
use jqe.Number.{Float}
use jqe.Intent.{IntentRecord, IntentRecordStatus}
use jqe.Store.{Store, decode_unresolved, list_unresolved, Row, decode, is_unresolved, order_rows}
use jqe.Audit.{is_accepted_status, accepted_trades, intent_trades}

unresolved-accepted :
    (status : IntentRecordStatus) → is_unresolved status ≡ true → is_accepted_status status ≡ false
unresolved-accepted IntentRecordStatus.pending h = refl
unresolved-accepted IntentRecordStatus.accepted h = absurd (ground arith)
unresolved-accepted IntentRecordStatus.rejected h = refl
unresolved-accepted IntentRecordStatus.unknown h = refl

module _ {F : Type 0} ⦃o : Float F⦄ where
  decode_unresolved-none :
      (rows : List (Row F)) (records : List (IntentRecord F))
      → decode_unresolved rows ≡ some records
      → accepted_trades records ≡ []
  unfolding decode_unresolved accepted_trades
  decode_unresolved-none [] records h = ground arith
  decode_unresolved-none (row ∷ rows) records h = elim (Option-cases (decode row)) [
    | inl malformed ↦ absurd (ground arith)
    | inr (r, decoded) ↦ elim (Option-cases (decode_unresolved rows)) [
      | inl broken ↦ absurd (ground arith)
      | inr (rest, listed) ↦
          ground (arith, decode_unresolved-none rows rest listed, unresolved-accepted r.status)
    ]
  ]

  -- The audit tracks no trade of the intent store, whatever the store holds: it keeps the accepted
  -- ones of its unresolved records, and an unresolved record is pending or unknown.
  pub intent_trades-none : (store : Option (Store F)) → intent_trades store ≡ []
  unfolding intent_trades list_unresolved
  intent_trades-none none = refl
  intent_trades-none (some store) =
      elim (Option-cases (decode_unresolved (order_rows store.intents))) [
        | inl broken ↦ ground arith
        | inr (records, listed) ↦
            ground (arith, decode_unresolved-none (order_rows store.intents) records listed)
      ]
