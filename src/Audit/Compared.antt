-- ===== src/Audit/Compared.antt =====
-- What the trade is that a position is compared with in the audit of
-- execution/continuous_reconciliation.py.
use jqe.Prelude.{
  ◌≡◌, ◌⊎◌, refl, ap, true, Option, none, some, List, [], ◌∷◌, filter, map, inl, inr, arith,
  Bool-cases, Option-cases, List-cases, Any, All, Any-map, filter-Any, &&-eq-true,
}
use jqe.Text.{Text, text_eq, normalize}
use jqe.Text.Laws.{text_eq_iff}
use jqe.Audit.{
  TrackedTradeState, BrokerPosition, contains, find_tracked, is_unmatched, match_position,
  read_positions,
}
use jqe.Audit.Matching.{Shows, IsKeyed}

module _ {F : Type 0} where
  pub find_tracked-tracked :
      (trades : List (TrackedTradeState F)) (key : Text)
      (entries : List (Text × TrackedTradeState F)) (found : TrackedTradeState F)
      → All (IsKeyed trades) entries
      → find_tracked key entries ≡ some found
      → Any (λ t. t ≡ found) trades
  unfolding find_tracked
  find_tracked-tracked trades key [] found keyed h = absurd (ground arith)
  find_tracked-tracked trades key (entry ∷ entries) found (first, rest) h =
      elim (Bool-cases (text_eq entry.0 key)) [
        | inl same ↦
            let here : entry.1 ≡ found = ground arith in
            Any-map _ _ trades (λ t e. rw e here) first.0
        | inr other ↦ find_tracked-tracked trades key entries found rest (ground arith)
      ]

  -- The trade that a position is compared with is tracked.
  pub match_position-tracked :
      (trades : List (TrackedTradeState F)) (entries : List (Text × TrackedTradeState F))
      (matched : List Text) (p : BrokerPosition F) (found : TrackedTradeState F)
      → All (IsKeyed trades) entries
      → (match_position trades entries matched p).0 ≡ some found
      → Any (λ t. t ≡ found) trades
  unfolding match_position
  match_position-tracked trades entries matched p found keyed h =
      elim (Option-cases (find_tracked p.position_id entries)) [
        | inr (t, mapped) ↦
            find_tracked-tracked trades p.position_id entries found keyed (ground arith)
        | inl unmapped ↦
            elim (List-cases (filter (is_unmatched (normalize p.symbol) matched) trades)) [
              | inl nothing ↦ absurd (ground arith)
              | inr (t, ts, listed) ↦
                  let same : t ≡ found = ground arith in
                  Any-map _ _ trades (λ x e. rw e.0 same)
                    (filter-Any (is_unmatched (normalize p.symbol) matched) trades ts t listed)
            ]
      ]

  -- A key that a position matches is shown by it.
  pub match_position-Shows :
      (trades : List (TrackedTradeState F)) (entries : List (Text × TrackedTradeState F))
      (matched : List Text) (p : BrokerPosition F) (key : Text)
      → contains key (match_position trades entries matched p).1 ≡ true
      → (contains key matched ≡ true) ⊎ Shows trades key p
  unfolding match_position
  match_position-Shows trades entries matched p key h =
      elim (Option-cases (find_tracked p.position_id entries)) [
        | inr (t, mapped) ↦ elim (Bool-cases (contains key matched)) [
          | inl before ↦ inl before
          | inr fresh ↦ inr (inl (ground (arith, text_eq_iff key p.position_id)))
        ]
        | inl unmapped ↦ elim (Bool-cases (contains key matched)) [
          | inl before ↦ inl before
          | inr fresh ↦
              elim (List-cases (filter (is_unmatched (normalize p.symbol) matched) trades)) [
                | inl nothing ↦ absurd (ground arith)
                | inr (t, ts, listed) ↦ elim (Option-cases t.position_id) [
                  | inl unnamed ↦ absurd (ground arith)
                  | inr (k, named) ↦
                      let same : k ≡ key = ground (arith, text_eq_iff key k) in
                      inr (
                        inr (
                          Any-map _ _ trades
                            (λ x e. (
                              rw e.0 (rw named (ap some same)),
                              (text_eq_iff x.symbol (normalize p.symbol)).0
                                  ((&&-eq-true _ _ e.1).0),
                            ))
                            (filter-Any (is_unmatched (normalize p.symbol) matched) trades ts t
                              listed)))
                ]
              ]
        ]
      ]

  pub read_positions-clean :
      (items : List (Option (BrokerPosition F)))
      → (read_positions items).0 ≡ []
      → items ≡ map some (read_positions items).1
  unfolding read_positions
  read_positions-clean [] h = refl
  read_positions-clean (none ∷ items) h = absurd (ground arith)
  read_positions-clean (some p ∷ items) h = ground (arith, read_positions-clean items)
