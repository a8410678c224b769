-- ===== src/Recovery/Evidence.antt =====
-- The answers of the broker's reconciler in execution/recovery.py, and what they leave in the
-- store.
use jqe.Prelude.{
  ◌≡◌, ◌⊎◌, ◌∙◌, ap, [], ◌∷◌, refl, true, false, Option, none, some, arith, Option-cases,
  Bool-cases, inl, inr,
}
use jqe.Text.{Text, text, nonblank, nonempty, lower, strip, or_text}
use jqe.Text.Laws.{text_eq_iff}
use jqe.Number.{Float}
use jqe.Intent.{IntentRecord, IntentRecordStatus, accepted, rejected}
use jqe.Store.{Store, ok, get, allowed_transition}
use jqe.Store.Reads.{get-transition, transition_refused, resolved}
use jqe.Executor.{
  BrokerReconciliationState, confirmed_match, confirmed_absence, ambiguous, unavailable,
}
use jqe.Reconciliation.{BrokerReconciliationResult}
use jqe.Recovery.{
  Service, is_resolved, in_scope, try_transition, remain_unresolved, persist, recover_evidence,
  recover_record, recovered, recovered_order_id, recovered_transaction_id, StartupRecoveryOutcome,
}

-- The status that evidence decides, if it decides one.
abbrev pub decided : BrokerReconciliationState → Option IntentRecordStatus
decided confirmed_match = some accepted
decided confirmed_absence = some rejected
decided _ = none

-- A state that decides is a match or an absence.
state-cases :
    (state : BrokerReconciliationState)
    → (state ≡ confirmed_match) ⊎ ((state ≡ confirmed_absence) ⊎ (decided state ≡ none))
state-cases confirmed_match = inl refl
state-cases confirmed_absence = inr (inl refl)
state-cases ambiguous = inr (inr refl)
state-cases unavailable = inr (inr refl)

or_text_assoc : (a b c : Option Text) → or_text (or_text a b) c ≡ or_text a (or_text b c)
or_text_assoc (some (x ∷ xs)) b c = refl
or_text_assoc (some []) b c = refl
or_text_assoc none b c = refl

module _ {F : Type 0} where
  -- The identifiers of the item that the evidence shows.
  abbrev shown_order : BrokerReconciliationResult F → Option Text
  shown_order e = elim e.evidence [ none ↦ none | some x ↦ or_text x.order_id x.contract_id ]

  abbrev shown_transaction : BrokerReconciliationResult F → Option Text
  shown_transaction e = elim e.evidence [ none ↦ none | some x ↦ x.transaction_id ]

  abbrev first_transaction : IntentRecord F → BrokerReconciliationResult F → Option Text
  first_transaction r e = or_text r.transaction_id (or_text (shown_transaction e) e.transaction_id)

  -- The record as ACCEPTED, and as REJECTED.
  abbrev pub as_accepted : IntentRecord F → BrokerReconciliationResult F → IntentRecord F
  as_accepted r e = record r {
    status = accepted;
    order_id = or_text r.order_id (or_text (shown_order e) e.contract_id);
    transaction_id = first_transaction r e;
  }

  abbrev pub as_rejected : IntentRecord F → BrokerReconciliationResult F → IntentRecord F
  as_rejected r e = record r {
    status = rejected;
    order_id = none;
    transaction_id = first_transaction r e;
  }

  order_first :
      (r : IntentRecord F) (e : BrokerReconciliationResult F)
      → recovered_order_id r e ≡ or_text r.order_id (or_text (shown_order e) e.contract_id)
  order_first r e = elim (Option-cases e.evidence) [
    | inl absent ↦ rw absent refl
    | inr (x, shown) ↦ rw shown (
        ap (λ t. or_text t e.contract_id) (or_text_assoc r.order_id x.order_id x.contract_id)
        ∙ or_text_assoc r.order_id (or_text x.order_id x.contract_id) e.contract_id)
  ]

  transaction_first :
      (r : IntentRecord F) (e : BrokerReconciliationResult F)
      → recovered_transaction_id r e ≡ first_transaction r e
  transaction_first r e = elim (Option-cases e.evidence) [
    | inl absent ↦ rw absent refl
    | inr (x, shown) ↦ rw shown (or_text_assoc r.transaction_id x.transaction_id e.transaction_id)
  ]

  recovered-accepted :
      (r : IntentRecord F) (e : BrokerReconciliationResult F)
      → recovered r accepted e ≡ as_accepted r e
  recovered-accepted r e = rw (order_first r e, transaction_first r e) refl

  recovered-rejected :
      (r : IntentRecord F) (e : BrokerReconciliationResult F)
      → recovered r rejected e ≡ as_rejected r e
  recovered-rejected r e = rw (transaction_first r e) refl

module _ {F : Type 0} ⦃o : Float F⦄ (service : Service F) where
  -- A transition that reports success was admitted, and `get` reads the new record.
  try_transition_done :
      (r current : IntentRecord F) (s : Store F)
      → nonblank r.idempotency_key ≡ true
      → (get r.idempotency_key s).0 ≡ ok (some current)
      → (try_transition service r s).0 ≡ ok true
      → (get r.idempotency_key (try_transition service r s).1).0 ≡ ok (some (resolved current r))
  unfolding try_transition
  try_transition_done r current s named read done =
      elim (Bool-cases (service.transition_fails r.idempotency_key)) [
        | inl fails ↦ absurd (ground arith)
        | inr runs ↦ rw runs (elim (Bool-cases (allowed_transition current.status r.status)) [
          | inl allowed ↦ (get-transition r current service.utc_now s named read allowed).1
          | inr refused ↦ absurd (
              ground (
                arith,
                transition_refused r service.utc_now s named (inr (current, read, refused)),
              ))
        ])
      ]

  remain_unresolved_never :
      (r : IntentRecord F) (outcome : StartupRecoveryOutcome) (reason : Text) (s : Store F)
      → is_resolved outcome ≡ false
      → is_resolved (remain_unresolved service r outcome reason s).0.outcome ≡ false
  unfolding remain_unresolved
  remain_unresolved_never r outcome reason s h = ground arith

  persist_done :
      (r : IntentRecord F) (status : IntentRecordStatus) (outcome : StartupRecoveryOutcome)
      (evidence : BrokerReconciliationResult F) (s : Store F)
      → nonblank r.idempotency_key ≡ true
      → (get r.idempotency_key s).0 ≡ ok (some r)
      → is_resolved (persist service r status outcome evidence s).0.outcome ≡ true
      → (get r.idempotency_key (persist service r status outcome evidence s).1).0
        ≡ ok (some (recovered r status evidence))
  unfolding persist
  persist_done r status outcome evidence s named read h =
      let moved = try_transition service (recovered r status evidence) s in
      let done : moved.0 ≡ ok true = ground arith in
      rw (done, persist) (try_transition_done (recovered r status evidence) r s named read done)

  -- A record that is reported as resolved has been decided by the reconciler's answer.
  recover_record_asked :
      (r : IntentRecord F) (s : Store F)
      → is_resolved (recover_record service r s).0.outcome ≡ true
      → (in_scope service r ≡ true)
        × ((evidence : BrokerReconciliationResult F) × (service.reconciler r ≡ some evidence)
            × ((recover_record service r s).0
                ≡ (recover_evidence service r evidence evidence.state s).0)
            × ((recover_record service r s).2
                ≡ (recover_evidence service r evidence evidence.state s).1))
  unfolding recover_record
  recover_record_asked r s h = elim (Option-cases (service.reconciler r)) [
    | inl broken ↦ absurd (
        ground (
          arith,
          remain_unresolved_never r StartupRecoveryOutcome.reconciliation_error
              (text "Recovery reconciliation failed") s refl,
        ))
    | inr (evidence, answered) ↦ (ground arith, (evidence, answered, ground arith, ground arith))
  ]

  recover_evidence_resolved :
      (r : IntentRecord F) (evidence : BrokerReconciliationResult F)
      (state : BrokerReconciliationState) (s : Store F)
      → nonblank r.idempotency_key ≡ true
      → (get r.idempotency_key s).0 ≡ ok (some r)
      → is_resolved (recover_evidence service r evidence state s).0.outcome ≡ true
      → (status : IntentRecordStatus) × (decided state ≡ some status)
        × ((get r.idempotency_key (recover_evidence service r evidence state s).1).0
            ≡ ok (some (recovered r status evidence)))
  unfolding recover_evidence
  recover_evidence_resolved r evidence unavailable s named read h = absurd (
      ground (
        arith,
        remain_unresolved_never r StartupRecoveryOutcome.reconciliation_unavailable evidence.reason
            s refl,
      ))
  recover_evidence_resolved r evidence ambiguous s named read h = absurd (
      ground (
        arith,
        remain_unresolved_never r StartupRecoveryOutcome.remains_unknown evidence.reason s refl,
      ))
  recover_evidence_resolved r evidence confirmed_match s named read h = (
    accepted,
    refl,
    persist_done r accepted StartupRecoveryOutcome.resolved_accepted evidence s named read h,
  )
  recover_evidence_resolved r evidence confirmed_absence s named read h = (
    rejected,
    refl,
    persist_done r rejected StartupRecoveryOutcome.resolved_rejected evidence s named read h,
  )

  abbrev Decides : IntentRecord F → Store F → Type 0
  Decides r s =
      (in_scope service r ≡ true)
      × ((evidence : BrokerReconciliationResult F) × (service.reconciler r ≡ some evidence)
          × ((status : IntentRecordStatus) × (decided evidence.state ≡ some status)
              × ((get r.idempotency_key (recover_record service r s).2).0
                  ≡ ok (some (recovered r status evidence)))))

  recover_record_decided :
      (r : IntentRecord F) (s : Store F)
      → nonblank r.idempotency_key ≡ true
      → (get r.idempotency_key s).0 ≡ ok (some r)
      → is_resolved (recover_record service r s).0.outcome ≡ true
      → Decides r s
  recover_record_decided r s named read h =
      let (scoped, (evidence, answered, result, left)) = recover_record_asked r s h in
      (
        scoped,
        (
          evidence,
          answered,
          rw left
              (recover_evidence_resolved r evidence evidence.state s named read (rw result at h)),
        ),
      )

  -- The record names the broker and the account of the service.
  abbrev pub IsScoped : IntentRecord F → Type 0
  IsScoped r =
      (broker : Text) × (r.broker ≡ some broker)
      × (nonempty broker ≡ true)
      × (lower (strip broker) ≡ lower (strip service.broker))
      × (account : Text) × (r.account_id ≡ some account)
      × (nonempty account ≡ true)
      × (strip account ≡ strip service.account_id)

  in_scope-IsScoped : (r : IntentRecord F) → in_scope service r ≡ true → IsScoped r
  unfolding in_scope
  in_scope-IsScoped r h = elim (Option-cases r.broker) [
    | inl absent ↦ absurd (ground arith)
    | inr (broker, named) ↦ elim (Option-cases r.account_id) [
      | inl absent ↦ absurd (ground arith)
      | inr (account, held) ↦ (
        broker,
        named,
        ground arith,
        (text_eq_iff (lower (strip broker)) (lower (strip service.broker))).0 (ground arith),
        account,
        held,
        ground arith,
        (text_eq_iff (strip account) (strip service.account_id)).0 (ground arith),
      )
    ]
  ]

  -- An intent is reported as resolved only if its record names the service's broker, apart from case
  -- and surrounding space, and its account, and the reconciler gave evidence. With a confirmed match
  -- the store then holds the record as ACCEPTED, with the first nonempty order id among its own and
  -- those of the evidence; with a confirmed absence it holds it as REJECTED without an order id; in
  -- both cases with the first nonempty transaction id, and all else unchanged. The record is the one
  -- that is stored under its key, and the key is nonblank.
  pub recover_record_resolved :
      (r : IntentRecord F) (s : Store F)
      → nonblank r.idempotency_key ≡ true
      → (get r.idempotency_key s).0 ≡ ok (some r)
      → is_resolved (recover_record service r s).0.outcome ≡ true
      → IsScoped r
        × ((evidence : BrokerReconciliationResult F) × (service.reconciler r ≡ some evidence)
            × ((evidence.state ≡ confirmed_match)
                  × ((get r.idempotency_key (recover_record service r s).2).0
                      ≡ ok (some (as_accepted r evidence)))
                ⊎ (evidence.state ≡ confirmed_absence)
                  × ((get r.idempotency_key (recover_record service r s).2).0
                      ≡ ok (some (as_rejected r evidence)))))
  recover_record_resolved r s named read h =
      let d : Decides r s = recover_record_decided r s named read h in
      let (scoped, (evidence, answered, (status, decisive, stored))) = d in
      let left = (get r.idempotency_key (recover_record service r s).2).0 in
      (
        in_scope-IsScoped r scoped,
        (
          evidence,
          answered,
          elim (state-cases evidence.state) [
            | inl m ↦
                let is : status ≡ accepted = ground (arith, m, decisive) in
                inl (
                  m,
                  stored
                      ∙ ap (λ x. ok (some (recovered r x evidence))) is
                      ∙ ap (λ x. ok (some x)) (recovered-accepted r evidence),
                )
            | inr (inl m) ↦
                let is : status ≡ rejected = ground (arith, m, decisive) in
                inr (
                  m,
                  stored
                      ∙ ap (λ x. ok (some (recovered r x evidence))) is
                      ∙ ap (λ x. ok (some x)) (recovered-rejected r evidence),
                )
            | inr (inr none_decided) ↦ absurd (ground (arith, decisive, none_decided))
          ],
        ),
      )
