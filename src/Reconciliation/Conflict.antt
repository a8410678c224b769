-- ===== src/Reconciliation/Conflict.antt =====
-- What the Deriv adapter of execution/reconciliation.py answers to identifiers that conflict.
use jqe.Prelude.{
  ◌≡◌, ◌≢◌, true, Option, none, some, List, [], ◌∷◌, any, filter, map, inl, inr, arith,
  Option-cases, List-cases, Any, Any-to-map, ◌||◌,
}
use jqe.Text.{Text}
use jqe.Text.Laws.{text_eq_refl}
use jqe.Number.{Float}
use jqe.Executor.{ambiguous}
use jqe.Reconciliation.{
  deriv, LedgerView, Gateway, Query, Observation, Correlated, BrokerReconciliationResult, reconcile,
  observed, reconcile_deriv, deriv_answer, deriv_both, result, correlated, wanted_contract,
  wanted_transaction, normalize_identifier, broker_id, contract_is, transaction_is, is_exact,
  conflicting,
}
use jqe.Reconciliation.Confirmed.{Contradicts}

module _ {F : Type 0} where
  -- An item that contradicts is counted as one by both tests of the lookup.
  conflict_seen :
      (c t : Text) (xs : List (Correlated F))
      → Any (λ x. Contradicts c t x.contract x.transaction) xs
      → (conflicting c t xs ≡ true) × ((any (contract_is c) xs || any (transaction_is t) xs) ≡ true)
  unfolding conflicting
  conflict_seen c t [] e = elim e [ ]
  conflict_seen c t (x ∷ xs) (inl (inl h)) =
      (ground (arith, h.0, h.1, text_eq_refl c), ground (arith, h.0, text_eq_refl c))
  conflict_seen c t (x ∷ xs) (inl (inr h)) =
      (ground (arith, h.0, h.1, text_eq_refl t), ground (arith, h.0, text_eq_refl t))
  conflict_seen c t (x ∷ xs) (inr h) =
      (ground (arith, conflict_seen c t xs h), ground (arith, conflict_seen c t xs h))

module _ {F : Type 0} ⦃o : Float F⦄ where
  deriv_both-some :
      (key : Option Text) (c t : Text) (xs : List (Correlated F))
      → conflicting c t xs ≡ true
      → (any (contract_is c) xs || any (transaction_is t) xs) ≡ true
      → deriv_both key c t xs ≢ none
  unfolding deriv_both
  deriv_both-some key c t xs conflict named undecided =
      elim (List-cases (filter (is_exact c t) xs)) [
        | inl nothing ↦ ground arith
        | inr (y, ys, listed) ↦ ground arith
      ]

  deriv_both-ambiguous :
      (key : Option Text) (c t : Text) (xs : List (Correlated F))
      (found : BrokerReconciliationResult F)
      → conflicting c t xs ≡ true
      → deriv_both key c t xs ≡ some found
      → found.state ≡ ambiguous
  unfolding deriv_both result
  deriv_both-ambiguous key c t xs found conflict answered =
      elim (List-cases (filter (is_exact c t) xs)) [
        | inl nothing ↦ ground arith
        | inr (y, ys, listed) ↦ ground arith
      ]

  deriv_both-conflict :
      (key : Option Text) (c t : Text) (xs : List (Correlated F))
      → Any (λ x. Contradicts c t x.contract x.transaction) xs
      → (found : BrokerReconciliationResult F) × (deriv_both key c t xs ≡ some found)
        × (found.state ≡ ambiguous)
  unfolding deriv_both result
  deriv_both-conflict key c t xs h =
      let (conflict, named) = conflict_seen c t xs h in
      elim (Option-cases (deriv_both key c t xs)) [
        | inl undecided ↦ absurd (deriv_both-some key c t xs conflict named undecided)
        | inr (found, answered) ↦
            (found, answered, deriv_both-ambiguous key c t xs found conflict answered)
      ]

  -- If both a contract (or an order) and a transaction are asked for, and Deriv shows an item that
  -- has one of the two identifiers and another value for the other, then the answer is ambiguous,
  -- whatever else is shown. The positions and the history could be read.
  pub reconcile_conflict :
      (view : LedgerView F) (gateway : Gateway F) (q : Query) (c t : Text)
      (items : List (Observation F))
      → wanted_contract q ≡ some c
      → wanted_transaction q ≡ some t
      → observed gateway ≡ some items
      → Any
          (λ i.
            Contradicts c t
              (normalize_identifier (broker_id i))
              (normalize_identifier i.transaction_id))
          items
      → (reconcile deriv view gateway q).state ≡ ambiguous
  unfolding reconcile reconcile_deriv deriv_answer correlated
  reconcile_conflict view gateway q c t items asks_c asks_t seen h =
      let (found, answer, state) =
        deriv_both-conflict q.idempotency_key c t (map correlated items)
          (Any-to-map correlated _ items h) in
      ground (arith, seen, asks_c, asks_t, answer, state)
