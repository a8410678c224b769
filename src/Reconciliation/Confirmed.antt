-- ===== src/Reconciliation/Confirmed.antt =====
-- What the answers of the adapters of execution/reconciliation.py rest on.
use jqe.Prelude.{
  ◌≡◌, ◌⊎◌, refl, Bool, true, false, Option, none, some, List, [], ◌∷◌, filter, map, inl, inr,
  arith, Option-cases, List-cases, Any, Any-map, filter-Any, Any-of-map, &&-eq-true,
}
use jqe.Text.{Text, text}
use jqe.Number.{Float}
use jqe.Executor.{confirmed_match, ambiguous, unavailable}
use jqe.Ledger.{Entry}
use jqe.Reconciliation.{
  Adapter, simulation, deriv, mt5, weltrade, LedgerView, Gateway, Query, Observation, Correlated,
  BrokerReconciliationResult, reconcile, observed, ledger_entries, reconcile_terminal,
  reconcile_mt5, reconcile_simulation, reconcile_deriv, simulation_scan, ledger_scan, mt5_scan,
  mt5_unidentified, deriv_answer, deriv_both, deriv_contract, deriv_transaction,
  classify_observation, result, correlated, wanted_contract, wanted_transaction, symbol_match,
  contract_is, transaction_is, differs, is_exact,
}
use jqe.Reconciliation.Matches.{
  Correlates, HasTicket, Carries, holds_text_iff, simulation_scan-Carries, ledger_scan-IsMapped,
  mt5_scan-HasTicket,
}

-- The entries of the ledger that an adapter reads.
abbrev pub read_entries : {F : Type 0} → Adapter → LedgerView F → Option (List (Entry F))
read_entries (mt5 broker) view = ledger_entries broker view
read_entries (weltrade broker) view = ledger_entries broker view
read_entries _ view = some []

-- An identifier is the one that is asked for, and the other one is another.
abbrev pub Contradicts : Text → Text → Option Text → Option Text → Type 0
Contradicts c t contract transaction =
    ((contract ≡ some c) × (differs transaction t ≡ true))
    ⊎ ((transaction ≡ some t) × (differs contract c ≡ true))

module _ {F : Type 0} where
  -- The identifiers of an item after their normalization.
  abbrev Agrees : Option Text → Option Text → Correlated F → Type 0
  Agrees c t x = Correlates c t x.contract x.transaction

  filter-Agrees :
      (p : Correlated F → Bool) (c t : Option Text) (xs ys : List (Correlated F)) (y : Correlated F)
      → filter p xs ≡ y ∷ ys
      → ((x : Correlated F) → p x ≡ true → Agrees c t x)
      → Any (Agrees c t) xs
  filter-Agrees p c t xs ys y h f = Any-map _ _ xs (λ x e. f x e.1) (filter-Any p xs ys y h)

  is_exact-Agrees :
      (c t : Text) (x : Correlated F) → is_exact c t x ≡ true → Agrees (some c) (some t) x
  is_exact-Agrees c t x h =
      let both = &&-eq-true (contract_is c x) (transaction_is t x) h in
      (holds_text_iff x.contract c both.0, holds_text_iff x.transaction t both.1)

-- The classification behind the lookups decides nothing.
pub classify_observation-state :
    (F : Type 0) ⦃o : Float F⦄ (available symbol : Bool) (broker : Text) (key : Option Text)
    → ((classify_observation {F = F} available symbol broker key).state ≡ ambiguous)
      ⊎ ((classify_observation {F = F} available symbol broker key).state ≡ unavailable)
unfolding classify_observation result
classify_observation-state F true true broker key = inl refl
classify_observation-state F true false broker key = inl refl
classify_observation-state F false symbol broker key = inr refl

module _ {F : Type 0} ⦃o : Float F⦄ where
  deriv_answer-Agrees :
      (key c t : Option Text) (xs : List (Correlated F)) (found : BrokerReconciliationResult F)
      → deriv_answer key c t xs ≡ some found
      → found.state ≡ confirmed_match
      → Any (Agrees c t) xs
  unfolding deriv_answer deriv_both deriv_contract deriv_transaction result
  deriv_answer-Agrees key (some c) (some t) xs found h m =
      elim (List-cases (filter (is_exact c t) xs)) [
        | inl nothing ↦ absurd (ground arith)
        | inr (y, ys, some_match) ↦
            filter-Agrees (is_exact c t) (some c) (some t) xs ys y some_match (is_exact-Agrees c t)
      ]
  deriv_answer-Agrees key (some c) none xs found h m =
      elim (List-cases (filter (contract_is c) xs)) [
        | inl nothing ↦ absurd (ground arith)
        | inr (y, ys, some_match) ↦
            filter-Agrees (contract_is c) (some c) none xs ys y some_match
              (λ x. holds_text_iff x.contract c)
      ]
  deriv_answer-Agrees key none (some t) xs found h m =
      elim (List-cases (filter (transaction_is t) xs)) [
        | inl nothing ↦ absurd (ground arith)
        | inr (y, ys, some_match) ↦
            filter-Agrees (transaction_is t) none (some t) xs ys y some_match
              (λ x. holds_text_iff x.transaction t)
      ]
  deriv_answer-Agrees key none none xs found h m = absurd (ground arith)

  reconcile_deriv-Carries :
      (items : List (Observation F)) (q : Query)
      → (reconcile_deriv items q).state ≡ confirmed_match
      → Any (Carries deriv [] q) items
  unfolding reconcile_deriv correlated
  reconcile_deriv-Carries items q m =
      elim (Option-cases (
        deriv_answer q.idempotency_key (wanted_contract q) (wanted_transaction q)
          (map correlated items))) [
            | inl undecided ↦ absurd (
                ground (
                  arith,
                  classify_observation-state F true (symbol_match q.symbol items) (text "deriv")
                      q.idempotency_key,
                ))
            | inr (found, answered) ↦ Any-of-map correlated _ items (
                deriv_answer-Agrees q.idempotency_key (wanted_contract q) (wanted_transaction q)
                  (map correlated items) found answered (ground arith))
          ]

  simulation-Carries :
      (items : List (Observation F)) (q : Query)
      → (reconcile_simulation items q).state ≡ confirmed_match
      → Any (Carries simulation [] q) items
  unfolding reconcile_simulation
  simulation-Carries items q m = elim (Option-cases (simulation_scan q items)) [
    | inl undecided ↦ absurd (
        ground (
          arith,
          classify_observation-state F true (symbol_match q.symbol items) (text "simulation")
              q.idempotency_key,
        ))
    | inr (found, answered) ↦ simulation_scan-Carries q items found answered
  ]

  mt5-HasTicket :
      (broker : Text) (entries : List (Entry F)) (items : List (Observation F)) (q : Query)
      → (reconcile_mt5 broker entries items q).state ≡ confirmed_match
      → Any (HasTicket entries q) items
  unfolding reconcile_mt5 mt5_unidentified result
  mt5-HasTicket broker entries items q m = elim (Option-cases (mt5_scan broker q items)) [
    | inr (found, answered) ↦ mt5_scan-HasTicket broker q entries items found answered
    | inl unseen ↦ elim (Option-cases q.order_id) [
      | inl unasked ↦ absurd (ground arith)
      | inr (order_id, asked) ↦ elim (Option-cases (ledger_scan broker q order_id entries items)) [
        | inl unmapped ↦ absurd (ground arith)
        | inr (found, answered) ↦
            Any-map _ _ items (λ item h. inl (rw asked h))
              (ledger_scan-IsMapped broker q order_id entries items found answered)
      ]
    ]
  ]

  -- What an adapter has read before it answers.
  abbrev pub HasRead :
      Adapter → LedgerView F → Gateway F → (List (Entry F) → List (Observation F) → Type 0) → Type 0
  HasRead adapter view gateway P =
      (items : List (Observation F)) × (entries : List (Entry F)) × (observed gateway ≡ some items)
      × (read_entries adapter view ≡ some entries)
      × P entries items

  terminal-HasRead :
      (broker : Text) (view : LedgerView F) (gateway : Gateway F) (q : Query)
      → (reconcile_terminal broker (observed gateway) (ledger_entries broker view) q).state
        ≡ confirmed_match
      → HasRead (mt5 broker) view gateway (λ entries items. Any (HasTicket entries q) items)
  unfolding reconcile_terminal result
  terminal-HasRead broker view gateway q m = elim (Option-cases (observed gateway)) [
    | inl unseen ↦ absurd (ground arith)
    | inr (items, seen) ↦ elim (Option-cases (ledger_entries broker view)) [
      | inl unread ↦ absurd (ground arith)
      | inr (entries, read) ↦
          (items, entries, seen, read, mt5-HasTicket broker entries items q (ground arith))
    ]
  ]

  -- A match is confirmed only if the broker's positions and trades, and the ledger for MT5, could
  -- be read, and one of these items carries an identifier that the query asks for: for the
  -- simulator the order's or the transaction's, for Deriv every one of contract and transaction that
  -- is asked for, and for MT5 and Weltrade an order, deal, position or request, or the position that
  -- the ledger's open entries hold for the order.
  pub reconcile-confirmed_match :
      (adapter : Adapter) (view : LedgerView F) (gateway : Gateway F) (q : Query)
      → (reconcile adapter view gateway q).state ≡ confirmed_match
      → HasRead adapter view gateway (λ entries items. Any (Carries adapter entries q) items)
  unfolding reconcile result
  reconcile-confirmed_match simulation view gateway q m = elim (Option-cases (observed gateway)) [
    | inl unseen ↦ absurd (ground arith)
    | inr (items, seen) ↦ (items, [], seen, refl, simulation-Carries items q (ground arith))
  ]
  reconcile-confirmed_match deriv view gateway q m = elim (Option-cases (observed gateway)) [
    | inl unseen ↦ absurd (ground arith)
    | inr (items, seen) ↦ (items, [], seen, refl, reconcile_deriv-Carries items q (ground arith))
  ]
  reconcile-confirmed_match (mt5 broker) view gateway q m = terminal-HasRead broker view gateway q m
  reconcile-confirmed_match (weltrade broker) view gateway q m =
      terminal-HasRead broker view gateway q m
