-- ===== src/Paper/Watched.antt =====
-- What `observe` and `replay` of execution/paper_contract.py keep of the engine.
use jqe.Prelude.{
  ◌≡◌, subst, Bool, true, false, ◌&&◌, Option, none, some, List, [], ◌∷◌, leb, arith, Option-cases,
  Bool-cases, inl, inr,
}
use jqe.Text.{Text, text_eq}
use jqe.Text.Laws.{text_eq_iff}
use jqe.Risk.{Decimal}
use jqe.Paper.{
  closed, PaperExitReason, Observed, PaperPosition, find_item, is_last, Engine, exit_of, close_of,
  settle, observe, replay,
}
use jqe.Paper.Kept.{find_item-put_item, left, IsKept, IsKept-refl, IsKept-trans}

module _ {D : Type 0} ⦃d : Decimal D⦄ where
  settle-IsKept :
      (id : Text) (p : PaperPosition D) (o : Observed D) (x : Option (PaperExitReason × D))
      (e : Engine D)
      → find_item id e.positions ≡ some p
      → find_item id e.closes ≡ none
      → IsKept e (settle id p o x e).1
  unfolding settle
  settle-IsKept id p o none e found unclosed = record {
    consistent = λ h other. ground (
      arith,
      h id,
      h other,
      text_eq_iff id other,
      find_item-put_item other id (record p { last_observed_at = o.closed_at }) e.positions,
    );
    held = λ other h. ground (
      arith,
      find_item-put_item other id (record p { last_observed_at = o.closed_at }) e.positions,
    );
    final = λ other c h. h;
  }
  settle-IsKept id p o (some (reason, level)) e found unclosed =
      let c = close_of id p o reason level e.specification in
      let p' = record p {
        last_observed_at = o.closed_at;
        is_close_requested = true;
        state = closed;
      } in
      record {
        consistent = λ h other. ground (
          arith,
          h other,
          find_item-put_item other id p' e.positions,
          find_item-put_item other id c e.closes,
        );
        held = λ other h. ground (arith, find_item-put_item other id p' e.positions);
        final = λ other c' h.
            ground (arith, text_eq_iff id other, find_item-put_item other id c e.closes);
      }

  pub observe-IsKept :
      (id : Text) (o : Observed D) (by_strategy force : Bool) (e : Engine D)
      → IsKept e (left e (observe id o by_strategy force e))
  unfolding observe
  observe-IsKept id o by_strategy force e = elim (Option-cases (find_item id e.positions)) [
    | inl absent ↦ rw (left, absent) (IsKept-refl e)
    | inr (p, found) ↦ elim (Option-cases (find_item id e.closes)) [
      | inr (c, done) ↦ rw (left, found, done) (IsKept-refl e)
      | inl unclosed ↦ elim (Bool-cases (text_eq o.canonical_symbol p.symbol)) [
        | inr wrong ↦ rw (left, found, unclosed, wrong) (IsKept-refl e)
        | inl right ↦ elim (Bool-cases (leb o.closed_at p.last_observed_at)) [
          | inl stale ↦ rw (left, found, unclosed, right, stale) (IsKept-refl e)
          | inr later ↦
              rw (left, found, unclosed, right, later)
                (settle-IsKept id p o (exit_of p o by_strategy force) e found unclosed)
        ]
      ]
    ]
  ]

  pub replay-IsKept :
      (id : Text) (os : List (Observed D)) (force : Bool) (e : Engine D)
      → IsKept e (replay id os force e).2
  unfolding replay
  replay-IsKept id [] force e = IsKept-refl e
  replay-IsKept id (o ∷ os) force e =
      let rest = replay-IsKept id os force in
      let observed = observe-IsKept id o false (force && is_last os) e in
      let of_result : (r : _)
          → observe id o false (force && is_last os) e ≡ r
          → IsKept e (left e r) =
        λ r by. subst (λ r. IsKept e (left e r)) by observed in
      elim (Option-cases (observe id o false (force && is_last os) e)) [
        | inl raised ↦ rw (replay, raised) (IsKept-refl e)
        | inr ((some c, e'), seen) ↦ rw (replay, seen) (of_result (some (some c, e')) seen)
        | inr ((none, e'), seen) ↦
            rw (replay, seen)
              (IsKept-trans e e' (replay id os force e').2 (of_result (some (none, e')) seen)
                (rest e'))
      ]
