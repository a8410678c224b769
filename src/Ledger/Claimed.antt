-- ===== src/Ledger/Claimed.antt =====
-- The columns of the claimed notifications under each method of the ledger of
-- execution/persistence.py.
use jqe.Prelude.{
  ℕ, ◌≡◌, refl, Bool, true, false, ◌&&◌, not, Option, some, List, arith, is_some, Option-cases,
  Bool-cases, inl, inr,
}
use jqe.Text.{text, Text}
use jqe.Text.Laws.{text_eq_refl}
use jqe.Number.{Float}
use jqe.Store.{naive, aware, DateTime}
use jqe.Ledger.{
  Entry, text_is, is_open, Identity, Fill, Close, find_entry, required_identity, required_text,
  record_open, record_confirmed_fill_once, claim_open_notification_once,
  claim_close_notification_once, claim_close_unconfirmed_notification_once, mark_closed,
  mark_partial_close, mark_close_unconfirmed, update_entry, fill_entry, new_entry, reopened,
  closed_entry, partial_entry, partial_differs, valid_partial,
}
use jqe.Ledger.Lookup.{
  KeepsKey, find_entry-append, find_entry-put_entry, find_entry-update_entry, holds_in,
}
use jqe.Ledger.Calls.{
  Notice, opened, closed, unconfirmed, Call, record_position, confirm_fill, claim, close,
  partial_close, close_unconfirmed, claim_notice, run,
}

module _ {F : Type 0} where
  -- The column that a claim of the notification fills.
  abbrev slot : Notice → Entry F → Option ℕ
  slot opened e = e.notification_claimed_at
  slot closed e = e.close_notification_claimed_at
  slot unconfirmed e = e.close_unconfirmed_notification_claimed_at

  abbrev pub is_claimed : Notice → Text → Text → List (Entry F) → Bool
  is_claimed n b p es = holds_in (λ e. is_some (slot n e)) (find_entry b p es)

  -- A change that leaves the key and the claims alone.
  record KeepsClaims (f : Entry F → Entry F) : Type 0 where
    key : KeepsKey f
    claims : (n : Notice) (e : Entry F) → is_some (slot n e) ≡ true → is_some (slot n (f e)) ≡ true

  update_entry-is_claimed :
      (n : Notice) (b p c q : Text) (where_ : Entry F → Bool) (f : Entry F → Entry F)
      (es : List (Entry F))
      → KeepsClaims f
      → is_claimed n b p es ≡ true
      → is_claimed n b p (update_entry c q where_ f es).1 ≡ true
  update_entry-is_claimed n b p c q where_ f es keeps h =
      let found = (find_entry-update_entry b p c q where_ f es keeps.key).0 in
      elim (Option-cases (find_entry b p es)) [
        | inl absent ↦ absurd (ground arith)
        | inr (e, here) ↦ ground (arith, found, keeps.claims n e)
      ]

  -- The condition and the change of the UPDATE of a claim.
  abbrev pub may_claim : Notice → Entry F → Bool
  may_claim opened e = not (is_some e.notification_claimed_at)
  may_claim closed e = is_some e.closed_at && not (is_some e.close_notification_claimed_at)
  may_claim unconfirmed e =
      text_is e.reconciliation_state (text "CLOSE_UNCONFIRMED")
      && not (is_some e.close_unconfirmed_notification_claimed_at)

  abbrev pub stamp : Notice → ℕ → Entry F → Entry F
  stamp opened now e = record e { notification_claimed_at = some now }
  stamp closed now e = record e { close_notification_claimed_at = some now }
  stamp unconfirmed now e = record e { close_unconfirmed_notification_claimed_at = some now }

  pub claim_notice-update_entry :
      (n : Notice) (b p : Text) (now : ℕ) (es : List (Entry F))
      → claim_notice n b p now es ≡ update_entry b p (may_claim n) (stamp n now) es
  unfolding claim_notice claim_open_notification_once claim_close_notification_once
      claim_close_unconfirmed_notification_once
  claim_notice-update_entry opened b p now es = refl
  claim_notice-update_entry closed b p now es = refl
  claim_notice-update_entry unconfirmed b p now es = refl

  pub stamp-KeepsKey : (n : Notice) (now : ℕ) → KeepsKey (stamp n now)
  stamp-KeepsKey n now = record { broker = λ e. ground arith; position_id = λ e. ground arith }

  stamp-KeepsClaims : (n : Notice) (now : ℕ) → KeepsClaims (stamp n now)
  stamp-KeepsClaims n now = record { key = stamp-KeepsKey n now; claims = λ m e h. ground arith }

  -- A claim succeeds only where the notification is unclaimed, and claims it.
  pub claim_notice-done :
      (n : Notice) (b p : Text) (now : ℕ) (es : List (Entry F))
      → (claim_notice n b p now es).0 ≡ true
      → (is_claimed n b p es ≡ false) × (is_claimed n b p (claim_notice n b p now es).1 ≡ true)
  claim_notice-done n b p now es h =
      let found =
        find_entry-update_entry b p b p (may_claim n) (stamp n now) es (stamp-KeepsKey n now) in
      let same = claim_notice-update_entry n b p now es in
      elim (Option-cases (find_entry b p es)) [
        | inl absent ↦ absurd (ground arith)
        | inr (e, here) ↦ (ground arith, ground (arith, text_eq_refl b, text_eq_refl p))
      ]

module _ {F : Type 0} ⦃o : Float F⦄ where
  record_open-is_claimed :
      (n : Notice) (b p : Text) (i : Identity) (t : DateTime) (es : List (Entry F))
      → is_claimed n b p es ≡ true
      → is_claimed n b p (record_open i t es).1 ≡ true
  unfolding record_open
  record_open-is_claimed n b p i (naive t) es h = h
  record_open-is_claimed n b p i (aware t) es h = elim (Option-cases (required_identity i)) [
    | inl blank ↦ ground arith
    | inr (j, named) ↦
        let added = find_entry-append b p es (new_entry j t) in
        let kept : KeepsKey (reopened j t) = record {
          broker = λ e. refl;
          position_id = λ e. refl;
        } in
        let put = find_entry-put_entry b p j.broker j.position_id (reopened j t) es kept in
        elim (Option-cases (find_entry j.broker j.position_id es)) [
          | inl absent ↦ ground arith
          | inr (e, found) ↦ ground arith
        ]
  ]

  fill-is_claimed :
      (n : Notice) (b p : Text) (local : ℕ → ℕ) (i : Identity) (t : DateTime) (f : Fill F)
      (es : List (Entry F))
      → is_claimed n b p es ≡ true
      → is_claimed n b p (record_confirmed_fill_once local i t f es).1 ≡ true
  unfolding record_confirmed_fill_once
  fill-is_claimed n b p local i (naive t) f es h = h
  fill-is_claimed n b p local i (aware t) f es h = elim (Option-cases (required_identity i)) [
    | inl blank ↦ ground arith
    | inr (j, named) ↦ let added = find_entry-append b p es (fill_entry local j t f) in ground arith
  ]

  mark_closed-is_claimed :
      (n : Notice) (b p c q : Text) (t : DateTime) (x : Close F) (es : List (Entry F))
      → is_claimed n b p es ≡ true
      → is_claimed n b p (mark_closed c q t x es).1 ≡ true
  unfolding mark_closed
  mark_closed-is_claimed n b p c q (naive t) x es h = h
  mark_closed-is_claimed n b p c q (aware t) x es h =
      let keeps : KeepsClaims (closed_entry x t) = record {
        key = record { broker = λ e. refl; position_id = λ e. refl };
        claims = λ m e k. ground arith;
      } in
      elim (Option-cases (required_text c)) [
        | inl blank ↦ ground arith
        | inr (c', named) ↦ elim (Option-cases (required_text q)) [
          | inl blank ↦ ground arith
          | inr (q', named') ↦
              ground
                (arith, update_entry-is_claimed n b p c' q' is_open (closed_entry x t) es keeps h)
        ]
      ]

  mark_partial_close-is_claimed :
      (n : Notice) (b p c q : Text) (v x : F) (es : List (Entry F))
      → is_claimed n b p es ≡ true
      → is_claimed n b p (mark_partial_close c q v x es).1 ≡ true
  unfolding mark_partial_close
  mark_partial_close-is_claimed n b p c q v x es h =
      let keeps : KeepsClaims (partial_entry v x) = record {
        key = record { broker = λ e. refl; position_id = λ e. refl };
        claims = λ m e k. ground arith;
      } in
      let kept =
        update_entry-is_claimed n b p c q (partial_differs v x) (partial_entry v x) es keeps h in
      elim (Bool-cases (valid_partial v x)) [
        | inl valid ↦ rw valid kept
        | inr invalid ↦ rw invalid h
      ]

  pub run-is_claimed :
      (n : Notice) (b p : Text) (c : Call F) (es : List (Entry F))
      → is_claimed n b p es ≡ true
      → is_claimed n b p (run c es).1 ≡ true
  unfolding run mark_close_unconfirmed
  run-is_claimed n b p (record_position i t) es h = record_open-is_claimed n b p i t es h
  run-is_claimed n b p (confirm_fill local i t f) es h = fill-is_claimed n b p local i t f es h
  run-is_claimed n b p (claim m c q now) es h =
      rw (claim_notice-update_entry m c q now es) (
        update_entry-is_claimed n b p c q (may_claim m) (stamp m now) es (stamp-KeepsClaims m now)
          h)
  run-is_claimed n b p (close c q t x) es h = mark_closed-is_claimed n b p c q t x es h
  run-is_claimed n b p (partial_close c q v x) es h =
      mark_partial_close-is_claimed n b p c q v x es h
  run-is_claimed n b p (close_unconfirmed c q) es h =
      update_entry-is_claimed n b p c q _ _ es
        (record {
          key = record { broker = λ e. refl; position_id = λ e. refl };
          claims = λ m e k. ground arith;
        })
        h
