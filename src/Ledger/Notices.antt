-- ===== src/Ledger/Notices.antt =====
-- The claims of a position's notifications in the ledger of execution/persistence.py, counted over
-- calls.
use jqe.Prelude.{
  ℕ, ◌+◌, ◌≤◌, ◌≡◌, Bool, true, false, ◌&&◌, List, [], ◌∷◌, arith, Bool-cases, inl, inr,
  if◌then◌else◌,
}
use jqe.Text.{Text, text_eq}
use jqe.Text.Laws.{text_eq_iff}
use jqe.Number.{Float}
use jqe.Ledger.{Entry}
use jqe.Ledger.Calls.{
  Notice, opened, closed, unconfirmed, Call, record_position, confirm_fill, claim, close,
  partial_close, close_unconfirmed, run,
}
use jqe.Ledger.Claimed.{is_claimed, claim_notice-done, run-is_claimed}

abbrev same_notice : Notice → Notice → Bool
same_notice opened opened = true
same_notice closed closed = true
same_notice unconfirmed unconfirmed = true
same_notice _ _ = false

same_notice_eq : (n m : Notice) → same_notice n m ≡ true → n ≡ m
same_notice_eq n m h = ground arith

module _ {F : Type 0} ⦃o : Float F⦄ where
  -- Whether a call is a claim of the notification for the position.
  abbrev claims : Notice → Text → Text → Call F → Bool
  claims n b p (claim m c q now) = same_notice n m && text_eq c b && text_eq q p
  claims n b p _ = false

  -- How many of the calls claim the notification with success.
  unfoldable pub deliveries : Notice → Text → Text → List (Call F) → List (Entry F) → ℕ
  deliveries n b p [] es = 0
  deliveries n b p (c ∷ cs) es =
      let (result, es') = run c es in
      let later = deliveries n b p cs es' in if claims n b p c && result then 1 + later else later

  claims-done :
      (n : Notice) (b p : Text) (c : Call F) (es : List (Entry F))
      → (claims n b p c && (run c es).0) ≡ true
      → (is_claimed n b p es ≡ false) × (is_claimed n b p (run c es).1 ≡ true)
  unfolding run
  claims-done n b p (claim m c q now) es h =
      ground (
        arith,
        same_notice_eq n m,
        text_eq_iff c b,
        text_eq_iff q p,
        claim_notice-done n b p now es,
      )
  claims-done n b p (record_position i t) es h = absurd (ground arith)
  claims-done n b p (confirm_fill local i t f) es h = absurd (ground arith)
  claims-done n b p (close c q t x) es h = absurd (ground arith)
  claims-done n b p (partial_close c q v x) es h = absurd (ground arith)
  claims-done n b p (close_unconfirmed c q) es h = absurd (ground arith)

  -- Over any sequence of calls of the ledger's methods, each of the three notifications of a
  -- position is claimed with success at most once, and never if it has been claimed before.
  pub deliveries-once :
      (n : Notice) (b p : Text) (cs : List (Call F)) (es : List (Entry F))
      → deliveries n b p cs es + (if is_claimed n b p es then 1 else 0) ≤ 1
  unfolding deliveries
  deliveries-once n b p [] es = ground arith
  deliveries-once n b p (c ∷ cs) es =
      let later = deliveries-once n b p cs (run c es).1 in
      elim (Bool-cases (claims n b p c && (run c es).0)) [
        | inl delivered ↦
            let first = claims-done n b p c es delivered in ground (arith, first.0, first.1, later)
        | inr other ↦ ground (arith, later, run-is_claimed n b p c es)
      ]
