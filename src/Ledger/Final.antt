-- ===== src/Ledger/Final.antt =====
-- The rows of the ledger of execution/persistence.py after a close, over further calls.
use jqe.Prelude.{
  ℕ, ◌≡◌, refl, Bool, true, false, ◌&&◌, none, some, List, [], ◌∷◌, All, arith, Option-cases,
  Bool-cases, inl, inr, ◌∙◌,
}
use jqe.Text.{Text, text_eq}
use jqe.Text.Laws.{text_eq_refl}
use jqe.Number.{Float}
use jqe.Store.{ok, naive, aware, DateTime}
use jqe.Ledger.{
  Entry, Identity, Fill, Close, find_entry, required_identity, required_text, is_open,
  record_confirmed_fill_once, mark_closed, mark_partial_close, mark_close_unconfirmed, update_entry,
  fill_entry, closed_entry, partial_entry, partial_differs, valid_partial,
}
use jqe.Ledger.Lookup.{KeepsKey, find_entry-append, find_entry-update_entry}
use jqe.Ledger.Calls.{
  Call, record_position, confirm_fill, claim, close, partial_close, close_unconfirmed, run, run_all,
}
use jqe.Ledger.Claimed.{claim_notice-update_entry, stamp-KeepsKey, stamp, may_claim}

module _ {F : Type 0} where
  -- A row without its claims of notifications.
  abbrev pub facts : Entry F → Entry F
  facts e = record e {
    notification_claimed_at = none;
    close_notification_claimed_at = none;
    close_unconfirmed_notification_claimed_at = none;
  }

  -- The table has a closed row with these facts.
  pub record IsFinal (b p : Text) (e : Entry F) (es : List (Entry F)) : Type 0 where
    pub row : Entry F
    pub found : find_entry b p es ≡ some row
    pub is_closed : is_open row ≡ false
    pub same : facts row ≡ facts e

  IsFinal-of :
      {b p : Text} {e : Entry F} {es es' : List (Entry F)}
      → es' ≡ es
      → IsFinal b p e es
      → IsFinal b p e es'
  IsFinal-of same h = rw same h

  -- An UPDATE of open rows only, or of columns that are no facts.
  update_entry-IsFinal :
      (b p c q : Text) (e : Entry F) (where_ : Entry F → Bool) (f : Entry F → Entry F)
      (es : List (Entry F))
      → KeepsKey f
      → ((x : Entry F)
          → is_open x ≡ false
          → where_ x ≡ true
          → (is_open (f x) ≡ false) × (facts (f x) ≡ facts x))
      → IsFinal b p e es
      → IsFinal b p e (update_entry c q where_ f es).1
  update_entry-IsFinal b p c q e where_ f es keeps spares h =
      let found = (find_entry-update_entry b p c q where_ f es keeps).0 in
      elim (Bool-cases (text_eq c b && text_eq q p && where_ h.row)) [
        | inl here ↦
            let spared = spares h.row h.is_closed (ground arith) in
            record {
              row = f h.row;
              found = ground (arith, found, h.found);
              is_closed = spared.0;
              same = spared.1 ∙ h.same;
            }
        | inr elsewhere ↦ record {
          row = h.row;
          found = ground (arith, found, h.found);
          is_closed = h.is_closed;
          same = h.same;
        }
      ]

-- Every call but `record_open`, which opens a position anew.
abbrev pub leaves_closed : {F : Type 0} → Call F → Bool
leaves_closed (record_position i t) = false
leaves_closed _ = true

module _ {F : Type 0} ⦃o : Float F⦄ where
  fill-IsFinal :
      (b p : Text) (e : Entry F) (local : ℕ → ℕ) (i : Identity) (t : DateTime) (f : Fill F)
      (es : List (Entry F))
      → IsFinal b p e es
      → IsFinal b p e (record_confirmed_fill_once local i t f es).1
  unfolding record_confirmed_fill_once
  fill-IsFinal b p e local i (naive t) f es h = h
  fill-IsFinal b p e local i (aware t) f es h = record {
    row = h.row;
    found = elim (Option-cases (required_identity i)) [
      | inl blank ↦ ground (arith, h.found)
      | inr (j, named) ↦
          let added = find_entry-append b p es (fill_entry local j t f) in ground (arith, h.found)
    ];
    is_closed = h.is_closed;
    same = h.same;
  }

  mark_closed-IsFinal :
      (b p c q : Text) (e : Entry F) (t : DateTime) (x : Close F) (es : List (Entry F))
      → IsFinal b p e es
      → IsFinal b p e (mark_closed c q t x es).1
  unfolding mark_closed
  mark_closed-IsFinal b p c q e (naive t) x es h = h
  mark_closed-IsFinal b p c q e (aware t) x es h = elim (Option-cases (required_text c)) [
    | inl blank ↦ IsFinal-of (ground arith) h
    | inr (c', named) ↦ elim (Option-cases (required_text q)) [
      | inl blank ↦ IsFinal-of (ground arith) h
      | inr (q', named') ↦ IsFinal-of (ground arith) (
          update_entry-IsFinal b p c' q' e is_open (closed_entry x t) es
            (record { broker = λ e. refl; position_id = λ e. refl })
            (λ y shut open_. absurd (ground arith)) h)
    ]
  ]

  mark_partial_close-IsFinal :
      (b p c q : Text) (e : Entry F) (v x : F) (es : List (Entry F))
      → IsFinal b p e es
      → IsFinal b p e (mark_partial_close c q v x es).1
  unfolding mark_partial_close
  mark_partial_close-IsFinal b p c q e v x es h = elim (Bool-cases (valid_partial v x)) [
    | inr invalid ↦ rw invalid h
    | inl valid ↦ rw valid (
        update_entry-IsFinal b p c q e (partial_differs v x) (partial_entry v x) es
          (record { broker = λ e. refl; position_id = λ e. refl })
          (λ y shut open_. absurd (ground arith)) h)
  ]

  run-IsFinal :
      (b p : Text) (e : Entry F) (c : Call F) (es : List (Entry F))
      → leaves_closed c ≡ true
      → IsFinal b p e es
      → IsFinal b p e (run c es).1
  unfolding run mark_close_unconfirmed
  run-IsFinal b p e (record_position i t) es k h = absurd (ground arith)
  run-IsFinal b p e (confirm_fill local i t f) es k h = fill-IsFinal b p e local i t f es h
  run-IsFinal b p e (claim m c q now) es k h = rw (claim_notice-update_entry m c q now es) (
      update_entry-IsFinal b p c q e (may_claim m) (stamp m now) es (stamp-KeepsKey m now)
        (λ y shut may. (ground arith, ground arith)) h)
  run-IsFinal b p e (close c q t x) es k h = mark_closed-IsFinal b p c q e t x es h
  run-IsFinal b p e (partial_close c q v x) es k h = mark_partial_close-IsFinal b p c q e v x es h
  run-IsFinal b p e (close_unconfirmed c q) es k h =
      update_entry-IsFinal b p c q e _ _ es (record { broker = λ e. refl; position_id = λ e. refl })
        (λ y shut open_. absurd (ground arith)) h

  run_all-IsFinal :
      (b p : Text) (e : Entry F) (cs : List (Call F)) (es : List (Entry F))
      → All (λ c. leaves_closed c ≡ true) cs
      → IsFinal b p e es
      → IsFinal b p e (run_all cs es)
  unfolding run_all
  run_all-IsFinal b p e [] es k h = h
  run_all-IsFinal b p e (c ∷ cs) es k h =
      run_all-IsFinal b p e cs (run c es).1 k.1 (run-IsFinal b p e c es k.0 h)

  -- If `mark_closed` returns True, the position was open before, and the row has the close and all
  -- its other facts, the claims of notifications apart, after any further calls of the ledger's
  -- methods but `record_open`: no second close and no partial close alters it.
  pub mark_closed-run_all :
      (broker position_id b p : Text) (t : ℕ) (c : Close F) (cs : List (Call F))
      (es : List (Entry F))
      → required_text broker ≡ some b
      → required_text position_id ≡ some p
      → All (λ x. leaves_closed x ≡ true) cs
      → (mark_closed broker position_id (aware t) c es).0 ≡ ok true
      → (e : Entry F) × (find_entry b p es ≡ some e)
        × (is_open e ≡ true)
        × IsFinal b p
            (closed_entry c t e)
            (run_all cs (mark_closed broker position_id (aware t) c es).1)
  unfolding mark_closed
  mark_closed-run_all broker position_id b p t c cs es named named' kept done =
      let keeps : KeepsKey (closed_entry c t) = record {
        broker = λ e. refl;
        position_id = λ e. refl;
      } in
      let found = find_entry-update_entry b p b p is_open (closed_entry c t) es keeps in
      let updated : (update_entry b p is_open (closed_entry c t) es).0 ≡ true = ground arith in
      elim (Option-cases (find_entry b p es)) [
        | inl absent ↦ absurd (ground arith)
        | inr (e, here) ↦ (
          e,
          here,
          ground arith,
          run_all-IsFinal b p (closed_entry c t e) cs _ kept (record {
            row = closed_entry c t e;
            found = ground (arith, text_eq_refl b, text_eq_refl p);
            is_closed = refl;
            same = refl;
          }),
        )
      ]
