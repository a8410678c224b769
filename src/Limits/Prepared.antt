-- ===== src/Limits/Prepared.antt =====
-- The conditions of `prepare_limit` of execution/pending_limits.py, spelled out on the draft and on the
-- broker's evidence.
use jqe.Prelude.{
  ◌≡◌, ◌≢◌, ◌↔◌, ◌⊎◌, ◌+◌, ◌≤◌, suc, refl, Bool, true, false, ◌&&◌, pos, ℤ, leb_ℤ, some, List, [],
  ◌∷◌, ◌++◌, all, any, length, arith, inl, inr, All, Bool-cases, if◌then◌else◌,
}
use jqe.Text.{Text, text_eq, normalize}
use jqe.Text.Laws.{text_eq_iff}
use jqe.Number.{Num, int, Float, finite, zero_float}
use jqe.Broker.{buy, sell}
use jqe.Value.{Value, bool, num, is_true, is_nonblank, chars, is_side}
use jqe.Limits.{is_cap, is_positive, valid_levels, LimitDraft, LimitEvidence, prepare_limit}
use jqe.Policy.Allowed.{is_side_one}
use jqe.Policy.Meaning.{IsSide, is_side-IsSide}
use jqe.Policy.Listed.{has_text_unlisted, read_names, names_back}
use jqe.Policy.Forth.{join3}
use jqe.Policy.Permitted.{three}
use jqe.Limits.Ready.{Passes, prepare_limit_ready, prepare_limit_of}

two : (a b : Bool) → (a && b) ≡ true → (a ≡ true) × (b ≡ true)
two a b h = (ground arith, ground arith)

choose :
    {B S : Type 0}
    → (b s x y z x' y' z' : Bool) → (b ≡ true) ↔ B
    → (s ≡ true) ↔ S
    → (b ≡ true → s ≡ false)
    → ((if b then x && y && z else if s then x' && y' && z' else false) ≡ true)
      ↔ (B × (x ≡ true) × (y ≡ true) × (z ≡ true) ⊎ S × (x' ≡ true) × (y' ≡ true) × (z' ≡ true))
choose true s x y z x' y' z' of_b of_s one = (
  λ h. inl (of_b.0 refl, ground arith, ground arith, ground arith),
  λ h. elim h [
    | inl (_, p, q, r) ↦ ground arith
    | inr (k, p, q, r) ↦ absurd (ground (arith, of_s.1 k, one refl))
  ],
)
choose false true x y z x' y' z' of_b of_s one = (
  λ h. inr (of_s.0 refl, ground arith, ground arith, ground arith),
  λ h. elim h [
    | inl (k, p, q, r) ↦ absurd (ground (arith, of_b.1 k))
    | inr (_, p, q, r) ↦ ground arith
  ],
)
choose false false x y z x' y' z' of_b of_s one = (
  λ h. absurd (ground arith),
  λ h. elim h [
    | inl (k, p, q, r) ↦ absurd (ground (arith, of_b.1 k))
    | inr (k, p, q, r) ↦ absurd (ground (arith, of_s.1 k))
  ],
)

seven :
    (a b c d e f g : Bool)
    → (a && b && c && d && e && f && g) ≡ true
    → (a ≡ true) × (b ≡ true) × (c ≡ true) × (d ≡ true) × (e ≡ true) × (f ≡ true) × (g ≡ true)
seven a b c d e f g h = (
  ground arith,
  ground arith,
  ground arith,
  ground arith,
  ground arith,
  ground arith,
  ground arith,
)

module _ {F : Type 0} ⦃o : Float F⦄ where
  -- A number that is finite and not at most zero.
  abbrev pub IsAmount : Value F → Type 0
  IsAmount v = (n : Num F) × (v ≡ num n) × (finite n ≡ true) × (o.le n zero_float ≡ false)

  is_positive_read : (v : Value F) → is_positive v ≡ true → IsAmount v
  is_positive_read (num n) h = (n, refl, ground arith, ground arith)
  is_positive_read _ h = absurd (ground arith)

  is_positive_back : (v : Value F) → IsAmount v → is_positive v ≡ true
  is_positive_back v (n, e, f, h) = rw e (ground arith)

  -- All that a draft has to satisfy, against collections that the broker reported.
  pub record IsPrepared (d : LimitDraft F) (e : LimitEvidence F) : Type 0 where
    pub opened : List (Value F)
    pub opened_eq : e.open_symbols ≡ some opened
    pub opened_named : All (λ v. is_nonblank v ≡ true) opened
    pub resting : List (Value F)
    pub resting_eq : e.pending_symbols ≡ some resting
    pub resting_named : All (λ v. is_nonblank v ≡ true) resting
    pub keys : List (Value F)
    pub keys_eq : e.used_keys ≡ some keys
    pub keys_named : All (λ v. is_nonblank v ≡ true) keys
    pub complete : e.snapshots_complete ≡ bool true
    pub cap : ℤ
    pub cap_eq : e.total_cap ≡ num (int cap)
    pub cap_least : leb_ℤ (pos 1) cap ≡ true
    pub cap_most : leb_ℤ cap (pos 5) ≡ true
    pub few_pending : suc (length resting) ≤ 2
    pub below_cap : leb_ℤ cap (pos (length opened + length resting)) ≡ false
    pub symbol_named : is_nonblank d.symbol ≡ true
    pub key_named : is_nonblank d.idempotency_key ≡ true
    pub fresh_key : All (λ k. chars k ≢ chars d.idempotency_key) keys
    pub fresh_symbol :
        All (λ s. normalize (chars s) ≢ normalize (chars d.symbol)) (opened ++ resting)
    pub bid : IsAmount e.bid
    pub ask : IsAmount e.ask
    pub entry : IsAmount d.entry
    pub stop_loss : IsAmount d.stop_loss
    pub take_profit : IsAmount d.take_profit
    pub risk_amount : IsAmount d.risk_amount
    pub authorized : IsAmount e.authorized_risk_amount
    pub spread : o.lt ask.0 bid.0 ≡ false
    pub approved : e.risk_approved ≡ bool true
    pub risk : o.lt authorized.0 risk_amount.0 ≡ false
    pub levels :
        IsSide buy d.side
          × (o.lt stop_loss.0 entry.0 ≡ true)
          × (o.lt entry.0 take_profit.0 ≡ true)
          × (o.lt entry.0 ask.0 ≡ true)
        ⊎ IsSide sell d.side
          × (o.lt take_profit.0 entry.0 ≡ true)
          × (o.lt entry.0 stop_loss.0 ≡ true)
          × (o.lt bid.0 entry.0 ≡ true)

  cap_read :
      (v : Value F)
      → is_cap v ≡ true
      → (n : ℤ) × (v ≡ num (int n)) × (leb_ℤ (pos 1) n ≡ true) × (leb_ℤ n (pos 5) ≡ true)
  cap_read (num (int n)) h = (n, refl, ground arith, ground arith)
  cap_read _ h = absurd (ground arith)

  symbols_unlisted :
      (t : Text) (vs : List (Value F))
      → (any (λ s. text_eq (normalize (chars s)) t) vs ≡ false)
        ↔ All (λ s. normalize (chars s) ≢ t) vs
  symbols_unlisted t [] = (λ h. tt, λ h. refl)
  symbols_unlisted t (v ∷ vs) =
      let same = text_eq_iff (normalize (chars v)) t in
      let rest = symbols_unlisted t vs in
      (
        λ h. (λ e. ground (arith, same.1 e), rest.0 (ground arith)),
        λ h. elim (Bool-cases (text_eq (normalize (chars v)) t)) [
          | inl e ↦ absurd (h.0 (same.0 e))
          | inr n ↦ let others = rest.1 h.1 in ground arith
        ],
      )

  is_true_read : (v : Value F) → is_true v ≡ true → v ≡ bool true
  is_true_read v h = ground arith

  levels_read :
      (d : LimitDraft F) (e : LimitEvidence F) (ask : IsAmount e.ask) (bid : IsAmount e.bid)
      (entry : IsAmount d.entry) (stop : IsAmount d.stop_loss) (target : IsAmount d.take_profit)
      → (valid_levels d e ≡ true) ↔ (
          IsSide buy d.side
            × (o.lt stop.0 entry.0 ≡ true)
            × (o.lt entry.0 target.0 ≡ true)
            × (o.lt entry.0 ask.0 ≡ true)
          ⊎ IsSide sell d.side
            × (o.lt target.0 entry.0 ≡ true)
            × (o.lt entry.0 stop.0 ≡ true)
            × (o.lt bid.0 entry.0 ≡ true))
  unfolding valid_levels
  levels_read d e ask bid entry stop target =
      let b = is_side-IsSide buy d.side in
      let s = is_side-IsSide sell d.side in
      rw (ask.1, bid.1, entry.1, stop.1, target.1)
        (choose (is_side buy d.side) (is_side sell d.side) (o.lt stop.0 entry.0)
          (o.lt entry.0 target.0) (o.lt entry.0 ask.0) (o.lt target.0 entry.0) (o.lt entry.0 stop.0)
          (o.lt bid.0 entry.0) b s (is_side_one d.side))

  IsPrepared-of : (d : LimitDraft F) (e : LimitEvidence F) → Passes d e → IsPrepared d e
  IsPrepared-of d e p =
      let r =
        three (all is_nonblank p.opened) (all is_nonblank p.resting) (all is_nonblank p.keys)
          p.readable in
      let cap = cap_read e.total_cap p.cap in
      let a =
        seven (is_positive e.bid) (is_positive e.ask) (is_positive d.entry)
          (is_positive d.stop_loss) (is_positive d.take_profit) (is_positive d.risk_amount)
          (is_positive e.authorized_risk_amount) p.amounts in
      let bid = is_positive_read e.bid a.0 in
      let ask = is_positive_read e.ask a.1 in
      let entry = is_positive_read d.entry a.2 in
      let stop = is_positive_read d.stop_loss a.3 in
      let target = is_positive_read d.take_profit a.4 in
      let amount = is_positive_read d.risk_amount a.5 in
      let authorized = is_positive_read e.authorized_risk_amount a.6 in
      record {
        opened = p.opened;
        opened_eq = p.opened_eq;
        opened_named = (read_names p.opened r.0).1;
        resting = p.resting;
        resting_eq = p.pending_eq;
        resting_named = (read_names p.resting r.1).1;
        keys = p.keys;
        keys_eq = p.keys_eq;
        keys_named = (read_names p.keys r.2).1;
        complete = is_true_read e.snapshots_complete p.complete;
        cap = cap.0;
        cap_eq = cap.1;
        cap_least = cap.2;
        cap_most = cap.3;
        few_pending = p.few_pending;
        below_cap = rw cap.1 at p.below_cap;
        symbol_named = (two (is_nonblank d.symbol) (is_nonblank d.idempotency_key) p.named).0;
        key_named = (two (is_nonblank d.symbol) (is_nonblank d.idempotency_key) p.named).1;
        fresh_key =
            (has_text_unlisted (chars d.idempotency_key) p.keys (read_names p.keys r.2).1).0
              p.fresh_key;
        fresh_symbol =
            (symbols_unlisted (normalize (chars d.symbol)) (p.opened ++ p.resting)).0
              p.fresh_symbol;
        bid = bid;
        ask = ask;
        entry = entry;
        stop_loss = stop;
        take_profit = target;
        risk_amount = amount;
        authorized = authorized;
        spread = rw (ask.1, bid.1) at p.spread;
        approved = is_true_read e.risk_approved p.approved;
        risk = rw (authorized.1, amount.1) at p.risk;
        levels = (levels_read d e ask bid entry stop target).0 p.levels;
      }

  Passes-of : (d : LimitDraft F) (e : LimitEvidence F) → IsPrepared d e → Passes d e
  Passes-of d e p = record {
    opened = p.opened;
    opened_eq = p.opened_eq;
    resting = p.resting;
    pending_eq = p.resting_eq;
    keys = p.keys;
    keys_eq = p.keys_eq;
    complete = rw p.complete refl;
    readable =
        join3 (names_back p.opened p.opened_named) (names_back p.resting p.resting_named)
          (names_back p.keys p.keys_named);
    cap = rw p.cap_eq (ground (arith, p.cap_least, p.cap_most));
    few_pending = p.few_pending;
    below_cap = rw p.cap_eq p.below_cap;
    named = rw (p.symbol_named, p.key_named) refl;
    fresh_key = (has_text_unlisted (chars d.idempotency_key) p.keys p.keys_named).1 p.fresh_key;
    fresh_symbol =
        (symbols_unlisted (normalize (chars d.symbol)) (p.opened ++ p.resting)).1 p.fresh_symbol;
    amounts =
        rw
          (
            is_positive_back e.bid p.bid,
            is_positive_back e.ask p.ask,
            is_positive_back d.entry p.entry,
            is_positive_back d.stop_loss p.stop_loss,
            is_positive_back d.take_profit p.take_profit,
            is_positive_back d.risk_amount p.risk_amount,
            is_positive_back e.authorized_risk_amount p.authorized,
          )
          refl;
    spread = rw (p.ask.1, p.bid.1) p.spread;
    approved = rw p.approved refl;
    risk = rw (p.authorized.1, p.risk_amount.1) p.risk;
    levels = (levels_read d e p.ask p.bid p.entry p.stop_loss p.take_profit).1 p.levels;
  }

  -- `prepare_limit` reports a draft ready exactly when the snapshots are complete, and the
  -- open and pending symbols and the used keys are collections of nonblank strings, the cap is an `int` from 1 to 5, fewer than two limit orders are pending and open and pending
  -- together are below the cap, the key and the normalised symbol are not in use, all amounts are
  -- positive and finite, the bid is not above the ask, the risk is approved and within what is
  -- authorised, and stop, entry and target stand in this order with the entry below the ask for
  -- BUY, and reversed with the entry above the bid for SELL. The draft's symbol and key are nonblank.
  pub prepare_limit-ready_iff :
      (d : LimitDraft F) (e : LimitEvidence F)
      → ((prepare_limit (some d) e).ready ≡ true) ↔ IsPrepared d e
  prepare_limit-ready_iff d e = (
    λ h. IsPrepared-of d e (prepare_limit_ready d e h),
    λ p. prepare_limit_of d e (Passes-of d e p),
  )
