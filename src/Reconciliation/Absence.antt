-- ===== src/Reconciliation/Absence.antt =====
-- When the adapters of execution/reconciliation.py confirm an absence.
use jqe.Prelude.{
  ◌≡◌, ◌≢◌, ◌⊎◌, refl, Bool, true, false, Option, none, some, List, [], ◌∷◌, any, map, inl, inr,
  arith, Bool-cases, Option-cases, All,
}
use jqe.Text.{Text, text, nonempty}
use jqe.Number.{Float}
use jqe.Executor.{confirmed_match, confirmed_absence, ambiguous}
use jqe.Ledger.{Entry}
use jqe.Reconciliation.{
  Adapter, simulation, deriv, mt5, weltrade, LedgerView, Gateway, Query, Observation, Correlated,
  BrokerReconciliationResult, reconcile, observed, ledger_entries, reconcile_terminal,
  reconcile_mt5, reconcile_simulation, reconcile_deriv, simulation_scan, ledger_scan, mt5_scan,
  mt5_unidentified, deriv_answer, deriv_both, deriv_contract, deriv_transaction, result, correlated,
  wanted_contract, wanted_transaction, symbol_match, has_evidence,
}
use jqe.Reconciliation.Confirmed.{HasRead, classify_observation-state}

abbrev pub is_terminal : Adapter → Bool
is_terminal (mt5 broker) = true
is_terminal (weltrade broker) = true
is_terminal _ = false

-- `bool(symbol)`
abbrev pub asks_symbol : Query → Bool
asks_symbol q = elim q.symbol [ none ↦ false | some t ↦ nonempty t ]

any-none : {A : Type 0} (p : A → Bool) (xs : List A) → any p xs ≡ false → All (λ x. p x ≡ false) xs
any-none p [] h = tt
any-none p (x ∷ xs) h = elim (Bool-cases (p x)) [
  | inl h1 ↦ absurd (ground arith)
  | inr h0 ↦ (h0, any-none p xs (ground arith))
]

module _ {F : Type 0} ⦃o : Float F⦄ where
  simulation_scan-match :
      (q : Query) (items : List (Observation F)) (found : BrokerReconciliationResult F)
      → simulation_scan q items ≡ some found
      → found.state ≡ confirmed_match
  unfolding simulation_scan result
  simulation_scan-match q [] found h = absurd (ground arith)
  simulation_scan-match q (item ∷ items) found h =
      ground (arith, simulation_scan-match q items found)

  ledger_scan-match :
      (broker : Text) (q : Query) (order_id : Text) (entries : List (Entry F))
      (items : List (Observation F)) (found : BrokerReconciliationResult F)
      → ledger_scan broker q order_id entries items ≡ some found
      → found.state ≡ confirmed_match
  unfolding ledger_scan result
  ledger_scan-match broker q order_id entries [] found h = absurd (ground arith)
  ledger_scan-match broker q order_id entries (item ∷ items) found h =
      ground (arith, ledger_scan-match broker q order_id entries items found)

  mt5_scan-match :
      (broker : Text) (q : Query) (items : List (Observation F))
      (found : BrokerReconciliationResult F)
      → mt5_scan broker q items ≡ some found
      → found.state ≡ confirmed_match
  unfolding mt5_scan result
  mt5_scan-match broker q [] found h = absurd (ground arith)
  mt5_scan-match broker q (item ∷ items) found h =
      ground (arith, mt5_scan-match broker q items found)

  -- The identifiers of Deriv decide a match or leave a doubt.
  deriv_answer-state :
      (key c t : Option Text) (xs : List (Correlated F)) (found : BrokerReconciliationResult F)
      → deriv_answer key c t xs ≡ some found
      → (found.state ≡ confirmed_match) ⊎ (found.state ≡ ambiguous)
  unfolding deriv_answer deriv_both deriv_contract deriv_transaction result
  deriv_answer-state key (some c) (some t) xs found h = ground arith
  deriv_answer-state key (some c) none xs found h = ground arith
  deriv_answer-state key none (some t) xs found h = ground arith
  deriv_answer-state key none none xs found h = absurd (ground arith)

  deriv_undecided :
      (items : List (Observation F)) (q : Query)
      → (reconcile_deriv items q).state ≢ confirmed_absence
  unfolding reconcile_deriv
  deriv_undecided items q m =
      elim (Option-cases (
        deriv_answer q.idempotency_key (wanted_contract q) (wanted_transaction q)
          (map correlated items))) [
            | inl undecided ↦ ground (
              arith,
              classify_observation-state F true (symbol_match q.symbol items) (text "deriv")
                  q.idempotency_key,
            )
            | inr (found, answered) ↦ ground (
              arith,
              deriv_answer-state q.idempotency_key (wanted_contract q) (wanted_transaction q)
                  (map correlated items) found answered,
            )
          ]

  simulation_undecided :
      (items : List (Observation F)) (q : Query)
      → (reconcile_simulation items q).state ≢ confirmed_absence
  unfolding reconcile_simulation
  simulation_undecided items q m = elim (Option-cases (simulation_scan q items)) [
    | inl undecided ↦ ground (
      arith,
      classify_observation-state F true (symbol_match q.symbol items) (text "simulation")
          q.idempotency_key,
    )
    | inr (found, answered) ↦ ground (arith, simulation_scan-match q items found answered)
  ]

  mt5_undecided :
      (broker : Text) (entries : List (Entry F)) (items : List (Observation F)) (q : Query)
      → (reconcile_mt5 broker entries items q).state ≡ confirmed_absence
      → (any has_evidence items ≡ false) × (asks_symbol q ≡ false)
  unfolding reconcile_mt5 mt5_unidentified result
  mt5_undecided broker entries items q m = elim (Option-cases (mt5_scan broker q items)) [
    | inr (found, answered) ↦
        let state = mt5_scan-match broker q items found answered in
        elim (Option-cases q.order_id) [
          | inl unasked ↦ absurd (ground arith)
          | inr (order_id, asked) ↦
              elim (Option-cases (ledger_scan broker q order_id entries items)) [
                | inl unmapped ↦ absurd (ground arith)
                | inr (mapped, m2) ↦
                    absurd
                      (ground (arith, ledger_scan-match broker q order_id entries items mapped m2))
              ]
        ]
    | inl unseen ↦ elim (Option-cases q.order_id) [
      | inl unasked ↦ (ground arith, ground arith)
      | inr (order_id, asked) ↦ elim (Option-cases (ledger_scan broker q order_id entries items)) [
        | inl unmapped ↦ (ground arith, ground arith)
        | inr (mapped, m2) ↦
            absurd (ground (arith, ledger_scan-match broker q order_id entries items mapped m2))
      ]
    ]
  ]

  terminal_absent :
      (broker : Text) (view : LedgerView F) (gateway : Gateway F) (q : Query)
      → (reconcile_terminal broker (observed gateway) (ledger_entries broker view) q).state
        ≡ confirmed_absence
      → (asks_symbol q ≡ false)
        × HasRead
            (mt5 broker)
            view
            gateway
            (λ entries items. All (λ i. has_evidence i ≡ false) items)
  unfolding reconcile_terminal result
  terminal_absent broker view gateway q m = elim (Option-cases (observed gateway)) [
    | inl unseen ↦ absurd (ground arith)
    | inr (items, seen) ↦ elim (Option-cases (ledger_entries broker view)) [
      | inl unread ↦ absurd (ground arith)
      | inr (entries, read) ↦
          let (empty, unnamed) = mt5_undecided broker entries items q (ground arith) in
          (unnamed, (items, entries, seen, read, any-none has_evidence items empty))
    ]
  ]

  -- An absence is confirmed only by the adapter of MT5 or Weltrade, for a query without a symbol,
  -- and only if the broker's positions and trades and the ledger could be read and no item carries
  -- any evidence.
  pub reconcile-confirmed_absence :
      (adapter : Adapter) (view : LedgerView F) (gateway : Gateway F) (q : Query)
      → (reconcile adapter view gateway q).state ≡ confirmed_absence
      → (is_terminal adapter ≡ true)
        × (asks_symbol q ≡ false)
        × HasRead adapter view gateway (λ entries items. All (λ i. has_evidence i ≡ false) items)
  unfolding reconcile result
  reconcile-confirmed_absence simulation view gateway q m = elim (Option-cases (observed gateway)) [
    | inl unseen ↦ absurd (ground arith)
    | inr (items, seen) ↦ absurd (simulation_undecided items q (ground arith))
  ]
  reconcile-confirmed_absence deriv view gateway q m = elim (Option-cases (observed gateway)) [
    | inl unseen ↦ absurd (ground arith)
    | inr (items, seen) ↦ absurd (deriv_undecided items q (ground arith))
  ]
  reconcile-confirmed_absence (mt5 broker) view gateway q m =
      let (unnamed, empty) = terminal_absent broker view gateway q m in (refl, unnamed, empty)
  reconcile-confirmed_absence (weltrade broker) view gateway q m =
      let (unnamed, empty) = terminal_absent broker view gateway q m in (refl, unnamed, empty)
