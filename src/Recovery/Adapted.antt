-- ===== src/Recovery/Adapted.antt =====
-- execution/recovery.py with the reconcilers of execution/reconciliation.py.
use jqe.Prelude.{subst, ◌≡◌, true, none, some, arith, inl, inr, Any}
use jqe.Text.{Text, nonblank, nonempty}
use jqe.Number.{Float}
use jqe.Intent.{IntentRecord}
use jqe.Store.{Store, ok, get}
use jqe.Executor.{confirmed_match, confirmed_absence}
use jqe.Reconciliation.{Adapter, LedgerView, Gateway, Query, reconcile}
use jqe.Reconciliation.Matches.{Carries}
use jqe.Reconciliation.Confirmed.{HasRead, reconcile-confirmed_match}
use jqe.Reconciliation.Absence.{reconcile-confirmed_absence}
use jqe.Recovery.{Service, is_resolved, recover_record}
use jqe.Recovery.Evidence.{as_accepted, recover_record_resolved}

-- The arguments that `_recover_record` passes to its reconciler.
abbrev pub recovery_query : {F : Type 0} → IntentRecord F → Query
recovery_query r = record {
  order_id = r.order_id;
  contract_id = none;
  deal_id = none;
  position_id = none;
  request_id = none;
  transaction_id = r.transaction_id;
  symbol = r.symbol;
  idempotency_key = some r.idempotency_key;
}

-- The service with an adapter over a gateway and a ledger as its reconciler.
abbrev pub adapted :
    {F : Type 0} ⦃o : Float F⦄ → Service F → Adapter → LedgerView F → Gateway F → Service F
adapted service adapter view gateway = record service {
  reconciler = λ r. some (reconcile adapter view gateway (recovery_query r));
}

module _ {F : Type 0} ⦃o : Float F⦄ where
  -- If the reconciler is one of the adapters and the record's symbol is not empty, then an intent
  -- that is reported as resolved is stored as ACCEPTED and never as REJECTED: with the first nonempty
  -- order id and transaction id among the record's own and those of the adapter's evidence. An item that the broker shows carries an identifier of the record,
  -- by the rules of the adapter. The record is the one that is stored under its key, and the key is
  -- nonblank.
  pub recover_record-adapted :
      (service : Service F) (adapter : Adapter) (view : LedgerView F) (gateway : Gateway F)
      (r : IntentRecord F) (symbol : Text) (s : Store F)
      → nonblank r.idempotency_key ≡ true
      → (get r.idempotency_key s).0 ≡ ok (some r)
      → r.symbol ≡ some symbol
      → nonempty symbol ≡ true
      → is_resolved (recover_record (adapted service adapter view gateway) r s).0.outcome ≡ true
      → ((get r.idempotency_key (recover_record (adapted service adapter view gateway) r s).2).0
          ≡ ok (some (as_accepted r (reconcile adapter view gateway (recovery_query r)))))
        × HasRead adapter view gateway
            (λ entries items. Any (Carries adapter entries (recovery_query r)) items)
  recover_record-adapted service adapter view gateway r symbol s named read of_symbol given h =
      let resolved =
        recover_record_resolved (adapted service adapter view gateway) r s named read h in
      let left =
        (get r.idempotency_key (recover_record (adapted service adapter view gateway) r s).2).0 in
      let answer = reconcile adapter view gateway (recovery_query r) in
      let same : resolved.1.0 ≡ answer = ground (arith, resolved.1.1) in
      elim resolved.1.2 [
        | inl (m, stored) ↦ (
          subst (λ e. left ≡ ok (some (as_accepted r e))) same stored,
          reconcile-confirmed_match adapter view gateway (recovery_query r)
              (subst (λ e. e.state ≡ confirmed_match) same m),
        )
        | inr (m, stored) ↦ absurd (
            ground (
              arith,
              (reconcile-confirmed_absence adapter view gateway (recovery_query r)
                  (subst (λ e. e.state ≡ confirmed_absence) same m)).1,
              of_symbol,
              given,
            ))
      ]
