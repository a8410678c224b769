-- ===== src/Reconciliation/Matches.antt =====
-- When the adapters of execution/reconciliation.py confirm a match.
use jqe.Prelude.{
  ◌≡◌, ◌⊎◌, refl, true, Option, none, some, List, [], ◌∷◌, inl, inr, arith, Bool-cases,
  Option-cases, Any, any-Any, Any-map, ◌&&◌,
}
use jqe.Text.{Text, text_eq}
use jqe.Text.Laws.{text_eq_iff}
use jqe.Number.{Float}
use jqe.Ledger.{Entry}
use jqe.Reconciliation.{
  Adapter, simulation, deriv, mt5, weltrade, Query, Observation, BrokerReconciliationResult,
  simulation_scan, ledger_scan, mt5_scan, wanted_contract, wanted_transaction, normalize_identifier,
  broker_id, shown, optional, holds_text, same_order, same_transaction, mt5_identified, matches_id,
  in_ledger,
}

-- One of the values is the text that is asked for.
abbrev pub Shares : Option Text → List (Option Text) → Type 0
Shares wanted values = (t : Text) × (wanted ≡ some t) × Any (λ v. v ≡ some t) values

-- The identifiers of an item, its contract and its transaction, are those that are asked for.
abbrev pub Correlates : Option Text → Option Text → Option Text → Option Text → Type 0
Correlates (some c) (some t) contract transaction = (contract ≡ some c) × (transaction ≡ some t)
Correlates (some c) none contract transaction = contract ≡ some c
Correlates none (some t) contract transaction = transaction ≡ some t
Correlates none none contract transaction = ⊥

module _ {F : Type 0} where
  -- An order of the ledger's entries has its position on the item.
  abbrev pub IsMapped : Option Text → List (Entry F) → Observation F → Type 0
  IsMapped order_id entries item =
      Any (λ e. (order_id ≡ some e.order_id) × (broker_id item ≡ some e.position_id)) entries

  -- The item has an identifier that is asked for, or the position of the order in the ledger.
  abbrev pub HasTicket : List (Entry F) → Query → Observation F → Type 0
  HasTicket entries q item =
      IsMapped q.order_id entries item
      ⊎ (Shares q.order_id (item.order_id ∷ item.order ∷ [])
          ⊎ (Shares q.deal_id (item.deal_id ∷ item.deal ∷ item.trade_id ∷ [])
              ⊎ (Shares q.position_id (optional item.position_id ∷ item.position_identifier ∷ [])
                  ⊎ Shares q.request_id (item.request_id ∷ []))))

  -- The item carries an identifier that is asked for, by the rules of the adapter.
  abbrev pub Carries : Adapter → List (Entry F) → Query → Observation F → Type 0
  Carries simulation entries q item =
      (q.order_id ≡ some (shown (broker_id item)))
      ⊎ Shares q.transaction_id (item.transaction_id ∷ [])
  Carries deriv entries q item =
      Correlates (wanted_contract q) (wanted_transaction q) (normalize_identifier (broker_id item))
        (normalize_identifier item.transaction_id)
  Carries (mt5 broker) entries q item = HasTicket entries q item
  Carries (weltrade broker) entries q item = HasTicket entries q item

pub holds_text_iff : (v : Option Text) (t : Text) → holds_text v t ≡ true → v ≡ some t
holds_text_iff none t h = absurd (ground arith)
holds_text_iff (some s) t h = ground (arith, text_eq_iff s t)

matches_id-Shares :
    (wanted : Option Text) (values : List (Option Text))
    → matches_id wanted values ≡ true
    → Shares wanted values
unfolding matches_id
matches_id-Shares none values h = absurd (ground arith)
matches_id-Shares (some t) values h =
    (t, refl, Any-map _ _ values (λ v e. holds_text_iff v t e) (any-Any _ values h))

module _ {F : Type 0} where
  same_transaction-Shares :
      (q : Query) (item : Observation F)
      → same_transaction q item ≡ true
      → Shares q.transaction_id (item.transaction_id ∷ [])
  same_transaction-Shares q item h = elim (Option-cases item.transaction_id) [
    | inl missing ↦ absurd (ground arith)
    | inr (t, shows) ↦ (t, holds_text_iff q.transaction_id t (ground arith), inl shows)
  ]

  in_ledger-IsMapped :
      (order_id : Text) (entries : List (Entry F)) (item : Observation F)
      → in_ledger order_id entries item ≡ true
      → IsMapped (some order_id) entries item
  in_ledger-IsMapped order_id entries item h = elim (Option-cases (broker_id item)) [
    | inl missing ↦ absurd (ground arith)
    | inr (p, shows) ↦
        Any-map _ _ entries
          (λ e both. (
            ground (arith, text_eq_iff e.order_id order_id),
            ground (arith, text_eq_iff e.position_id p),
          ))
          (any-Any (λ e. text_eq e.order_id order_id && text_eq e.position_id p) entries
            (ground arith))
  ]

  mt5_identified-Shares :
      (q : Query) (item : Observation F)
      → mt5_identified q item ≡ true
      → Shares q.order_id (item.order_id ∷ item.order ∷ [])
        ⊎ (Shares q.deal_id (item.deal_id ∷ item.deal ∷ item.trade_id ∷ [])
            ⊎ (Shares q.position_id (optional item.position_id ∷ item.position_identifier ∷ [])
                ⊎ Shares q.request_id (item.request_id ∷ [])))
  unfolding mt5_identified
  mt5_identified-Shares q item h =
      let orders = item.order_id ∷ item.order ∷ [] in
      let deals = item.deal_id ∷ item.deal ∷ item.trade_id ∷ [] in
      let positions = optional item.position_id ∷ item.position_identifier ∷ [] in
      elim (Bool-cases (matches_id q.order_id orders)) [
        | inl order ↦ inl (matches_id-Shares q.order_id orders order)
        | inr h1 ↦ elim (Bool-cases (matches_id q.deal_id deals)) [
          | inl deal ↦ inr (inl (matches_id-Shares q.deal_id deals deal))
          | inr h2 ↦ elim (Bool-cases (matches_id q.position_id positions)) [
            | inl position ↦ inr (inr (inl (matches_id-Shares q.position_id positions position)))
            | inr h3 ↦
                inr
                  (inr (inr (matches_id-Shares q.request_id (item.request_id ∷ []) (ground arith))))
          ]
        ]
      ]

module _ {F : Type 0} ⦃o : Float F⦄ where
  pub simulation_scan-Carries :
      (q : Query) (items : List (Observation F)) (found : BrokerReconciliationResult F)
      → simulation_scan q items ≡ some found
      → Any (Carries simulation [] q) items
  unfolding simulation_scan
  simulation_scan-Carries q [] found h = absurd (ground arith)
  simulation_scan-Carries q (item ∷ items) found h = elim (Bool-cases (same_order q item)) [
    | inl order ↦ inl (inl (holds_text_iff q.order_id (shown (broker_id item)) order))
    | inr other ↦ elim (Bool-cases (same_transaction q item)) [
      | inl same ↦ inl (inr (same_transaction-Shares q item same))
      | inr neither ↦ inr (simulation_scan-Carries q items found (ground arith))
    ]
  ]

  pub ledger_scan-IsMapped :
      (broker : Text) (q : Query) (order_id : Text) (entries : List (Entry F))
      (items : List (Observation F)) (found : BrokerReconciliationResult F)
      → ledger_scan broker q order_id entries items ≡ some found
      → Any (IsMapped (some order_id) entries) items
  unfolding ledger_scan
  ledger_scan-IsMapped broker q order_id entries [] found h = absurd (ground arith)
  ledger_scan-IsMapped broker q order_id entries (item ∷ items) found h =
      elim (Bool-cases (in_ledger order_id entries item)) [
        | inl mapped ↦ inl (in_ledger-IsMapped order_id entries item mapped)
        | inr other ↦
            inr (ledger_scan-IsMapped broker q order_id entries items found (ground arith))
      ]

  pub mt5_scan-HasTicket :
      (broker : Text) (q : Query) (entries : List (Entry F)) (items : List (Observation F))
      (found : BrokerReconciliationResult F)
      → mt5_scan broker q items ≡ some found
      → Any (HasTicket entries q) items
  unfolding mt5_scan
  mt5_scan-HasTicket broker q entries [] found h = absurd (ground arith)
  mt5_scan-HasTicket broker q entries (item ∷ items) found h =
      elim (Bool-cases (mt5_identified q item)) [
        | inl here ↦ inl (inr (mt5_identified-Shares q item here))
        | inr other ↦ inr (mt5_scan-HasTicket broker q entries items found (ground arith))
      ]
