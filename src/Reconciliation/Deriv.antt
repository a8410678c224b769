-- ===== src/Reconciliation/Deriv.antt =====
-- execution/reconciliation.py: `DerivReconciliationAdapter.reconcile` behind its two reads of the
-- gateway.
use jqe.Prelude.{
  Bool, true, false, not, ◌&&◌, ◌||◌, Option, none, some, List, [], ◌∷◌, any, filter, map,
  if◌then◌else◌, or_else,
}
use jqe.Text.{Text, text, text_eq}
use jqe.Number.{Float}
use jqe.Executor.{confirmed_match, ambiguous}
use jqe.Reconciliation.Data.{
  BrokerReconciliationResult, Observation, Query, normalize_identifier, holds_text, broker_id,
  symbol_match,
}
use jqe.Reconciliation.Evidence.{no_identifiers, result, classify_observation}

-- An item with its normalized contract and transaction.
pub record Correlated (F : Type 0) : Type 0 where
  pub item : Observation F
  pub contract : Option Text
  pub transaction : Option Text

-- `len({value for value in … if value is not None}) > 1`
unfoldable pub several_values : List (Option Text) → Bool
several_values [] = false
several_values (none ∷ vs) = several_values vs
several_values (some t ∷ vs) = any (λ v. elim v [ none ↦ false | some u ↦ not (text_eq u t) ]) vs

-- `x is not None and x != t`
abbrev pub differs : Option Text → Text → Bool
differs none t = false
differs (some x) t = not (text_eq x t)

-- `contract_id` and `transaction_id` after their normalization.
abbrev pub wanted_contract : Query → Option Text
wanted_contract q = or_else (normalize_identifier q.contract_id) (normalize_identifier q.order_id)

abbrev pub wanted_transaction : Query → Option Text
wanted_transaction q = normalize_identifier q.transaction_id

module _ {F : Type 0} where
  -- The normalized identifiers of an item.
  unfoldable pub correlated : Observation F → Correlated F
  correlated item = record {
    item = item;
    contract = normalize_identifier (broker_id item);
    transaction = normalize_identifier item.transaction_id;
  }

  abbrev pub contract_is : Text → Correlated F → Bool
  contract_is contract x = holds_text x.contract contract

  abbrev pub transaction_is : Text → Correlated F → Bool
  transaction_is transaction x = holds_text x.transaction transaction

  abbrev pub is_exact : Text → Text → Correlated F → Bool
  is_exact contract transaction x = contract_is contract x && transaction_is transaction x

  -- `conflicting`
  unfoldable pub conflicting : Text → Text → List (Correlated F) → Bool
  conflicting contract transaction xs =
      any (λ x. differs x.transaction transaction) (filter (contract_is contract) xs)
      || any (λ x. differs x.contract contract) (filter (transaction_is transaction) xs)

module _ {F : Type 0} ⦃o : Float F⦄ where
  -- The answer where both identifiers are known, if it is decided by them.
  unfoldable pub deriv_both :
      Option Text → Text → Text → List (Correlated F) → Option (BrokerReconciliationResult F)
  unfolding result
  deriv_both key contract transaction xs =
      let ids = record no_identifiers {
        contract_id = some contract;
        transaction_id = some transaction;
      } in
      let doubt =
        if any (contract_is contract) xs || any (transaction_is transaction) xs
        then some (
            result ambiguous (text "Deriv authoritative identifiers conflict") (text "deriv") key
              none ids)
        else none in
      elim (filter (is_exact contract transaction) xs) [
        | [] ↦ doubt
        | x ∷ _ ↦
            if conflicting contract transaction xs
            then doubt
            else some (
                result confirmed_match (text "Contract and transaction IDs matched") (text "deriv")
                  key (some x.item) ids)
      ]

  -- The answer where only a contract is known, by `contract_matches`.
  unfoldable pub deriv_contract :
      Option Text → Text → List (Correlated F) → Option (BrokerReconciliationResult F)
  unfolding result
  deriv_contract key contract [] = none
  deriv_contract key contract (x ∷ xs) =
      if several_values (map (λ y. y.transaction) (x ∷ xs))
      then some (
          result ambiguous (text "Deriv contract observations conflict") (text "deriv") key none
            (record no_identifiers { contract_id = some contract }))
      else some (
          result confirmed_match (text "Contract ID matched") (text "deriv") key (some x.item)
            (record no_identifiers { contract_id = x.contract; transaction_id = x.transaction }))

  -- The answer where only a transaction is known, by `transaction_matches`.
  unfoldable pub deriv_transaction :
      Option Text → Text → List (Correlated F) → Option (BrokerReconciliationResult F)
  unfolding result
  deriv_transaction key transaction [] = none
  deriv_transaction key transaction (x ∷ xs) =
      if several_values (map (λ y. y.contract) (x ∷ xs))
      then some (
          result ambiguous (text "Deriv transaction observations conflict") (text "deriv") key none
            (record no_identifiers { transaction_id = some transaction }))
      else some (
          result confirmed_match (text "Transaction ID matched") (text "deriv") key (some x.item)
            (record no_identifiers { contract_id = x.contract; transaction_id = x.transaction }))

  -- The answer by the identifiers that are known.
  unfoldable pub deriv_answer :
      Option Text
      → Option Text
      → Option Text
      → List (Correlated F)
      → Option (BrokerReconciliationResult F)
  deriv_answer key (some contract) (some transaction) xs = deriv_both key contract transaction xs
  deriv_answer key (some contract) none xs =
      deriv_contract key contract (filter (contract_is contract) xs)
  deriv_answer key none (some transaction) xs =
      deriv_transaction key transaction (filter (transaction_is transaction) xs)
  deriv_answer key none none xs = none

  unfoldable pub reconcile_deriv : List (Observation F) → Query → BrokerReconciliationResult F
  unfolding deriv_answer
  reconcile_deriv items q =
      elim (deriv_answer q.idempotency_key (wanted_contract q) (wanted_transaction q)
        (map correlated items)) [
          | some answer ↦ answer
          | none ↦
              classify_observation true (symbol_match q.symbol items) (text "deriv")
                q.idempotency_key
        ]
