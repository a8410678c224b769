-- ===== src/Executor/Neighbour.antt =====
-- Another process beside a submission of execution/executor.py, which claims a key before one call and
-- hands its order over before a later one.
use jqe.Prelude.{
  ◌≡◌, ◌≢◌, refl, true, not, ◌&&◌, none, List, [], ◌∷◌, ◌++◌, Any, any, filter, arith, Bool-cases,
  inl, inr, if◌then◌else◌,
}
use jqe.Text.{Text, text_eq}
use jqe.Text.Laws.{text_eq_iff}
use jqe.Number.{Float}
use jqe.Intent.{IntentRecord}
use jqe.Store.{claim_row}
use jqe.Store.Lookup.{find_row-append}
use mathlib.Core.List.{append-nil}
use jqe.Executor.{World, OrderRequest, Call}
use jqe.Executor.Guarantee.{Guarantee, Guarantee-refl, has_claim}

Held-any :
    (key : Text) (ks : List Text) → any (λ k. text_eq k key) ks ≡ true → Any (λ k. k ≡ key) ks
Held-any key [] h = absurd (ground arith)
Held-any key (k ∷ ks) h = elim (Bool-cases (text_eq k key)) [
  | inl same ↦ inl ((text_eq_iff k key).0 same)
  | inr other ↦ inr (Held-any key ks (ground arith))
]

-- A key that is left after another is taken out was there before, and is not that one.
Any-without :
    (key other : Text) (ks : List Text)
    → Any (λ k. k ≡ key) (filter (λ k. not (text_eq k other)) ks)
    → Any (λ k. k ≡ key) ks × (other ≢ key)
Any-without key other [] h = elim h [ ]
Any-without key other (k ∷ ks) h = elim (Bool-cases (text_eq k other)) [
  | inl same ↦
      let (there, differs) = Any-without key other ks (rw same at h) in (inr there, differs)
  | inr differs ↦ elim (rw differs at h) [
    | inl here ↦ (inl here, λ e. ground (arith, text_eq_iff k other))
    | inr later ↦ let (there, apart) = Any-without key other ks later in (inr there, apart)
  ]
]

module _ {F : Type 0} ⦃o : Float F⦄ (r : IntentRecord F) (order : OrderRequest F) where
  abbrev pub claims : World F → World F
  claims w = if has_claim r.idempotency_key w then w else record w {
    store = record w.store { intents = w.store.intents ++ claim_row r none 3 ∷ [] };
    elsewhere = r.idempotency_key ∷ w.elsewhere;
  }

  abbrev pub sends : World F → World F
  sends w =
      if has_claim order.idempotency_key w && any (λ k. text_eq k order.idempotency_key) w.elsewhere
      then record w {
        sent = w.sent ++ order ∷ [];
        elsewhere = filter (λ k. not (text_eq k order.idempotency_key)) w.elsewhere;
      }
      else w

  -- It claims before the record is looked up, and sends before the order is handed over.
  abbrev pub neighbour : Call → World F → World F
  neighbour Call.lookup w = claims w
  neighbour Call.send w = sends w
  neighbour _ w = w

  claims-Guarantee : (w : World F) → Guarantee w (claims w)
  claims-Guarantee w = elim (Bool-cases (has_claim r.idempotency_key w)) [
    | inl taken ↦ rw taken (Guarantee-refl w)
    | inr free ↦ rw free (record {
      kept = λ key h. ground (arith, find_row-append key w.store.intents (claim_row r none 3));
      news = [];
      appended = rw append-nil refl;
      fresh = tt;
      recorded = tt;
      distinct = tt;
      held = λ key h. elim h [
        | inl here ↦ inr (
          rw (← here) free,
          unfold claim_row in
              ground (
                arith,
                find_row-append key w.store.intents (claim_row r none 3),
                text_eq_iff r.idempotency_key key,
              ),
        )
        | inr before ↦ inl before
      ];
      unsent = λ key h. tt;
    })
  ]

  sends-Guarantee : (w : World F) → Guarantee w (sends w)
  sends-Guarantee w =
      let key = order.idempotency_key in
      elim (Bool-cases (has_claim key w && any (λ k. text_eq k key) w.elsewhere)) [
        | inr idle ↦ rw idle (Guarantee-refl w)
        | inl ready ↦ rw ready (record {
          kept = λ key h. h;
          news = order ∷ [];
          appended = refl;
          fresh = (inl (Held-any key w.elsewhere (ground arith)), tt);
          recorded = (ground arith, tt);
          distinct = (tt, tt);
          held = λ k h. inl (Any-without k key w.elsewhere h).0;
          unsent = λ k h. ((Any-without k key w.elsewhere h).1, tt);
        })
      ]

  pub neighbour-Guarantee : (c : Call) (w : World F) → Guarantee w (neighbour c w)
  neighbour-Guarantee Call.lookup w = claims-Guarantee w
  neighbour-Guarantee Call.send w = sends-Guarantee w
  neighbour-Guarantee _ w = Guarantee-refl w
