-- ===== src/Limits/Ready.antt =====
-- The conditions of `prepare_limit` and the values of `demo_position_cap`.
use jqe.Prelude.{
  [], ◌∷◌, suc, ◌+◌, ◌≤◌, ◌≡◌, true, false, ◌&&◌, Option, some, List, ◌++◌, all, length, arith, pos,
  leb_ℤ,
}
use jqe.Text.{text}
use jqe.Number.{Float, int}
use jqe.Value.{Value, num, is_true, is_nonblank, chars, has_text}
use jqe.Policy.{value_lt}
use jqe.Limits.{
  is_amount, floor_setting, is_cap, demo_position_cap, LimitDraft, LimitEvidence, reaches_cap,
  holds_symbol, valid_amounts, valid_levels, prepare_draft, prepare_snapshots, prepare_limit,
}

some_eq : {A : Type 0} (a b : A) (x : Option A) → x ≡ some a → x ≡ some b → a ≡ b
some_eq a b x h k = ground arith

module _ {F : Type 0} ⦃o : Float F⦄ where
  -- The tests that a draft passes, against collections that the broker reported.
  pub record Passes (d : LimitDraft F) (e : LimitEvidence F) : Type 0 where
    pub opened : List (Value F)
    pub opened_eq : e.open_symbols ≡ some opened
    pub resting : List (Value F)
    pub pending_eq : e.pending_symbols ≡ some resting
    pub keys : List (Value F)
    pub keys_eq : e.used_keys ≡ some keys
    pub complete : is_true e.snapshots_complete ≡ true
    pub readable :
        (all is_nonblank opened && all is_nonblank resting && all is_nonblank keys) ≡ true
    pub cap : is_cap e.total_cap ≡ true
    pub few_pending : suc (length resting) ≤ 2
    pub below_cap : reaches_cap e.total_cap opened resting ≡ false
    pub named : (is_nonblank d.symbol && is_nonblank d.idempotency_key) ≡ true
    pub fresh_key : has_text (chars d.idempotency_key) keys ≡ false
    pub fresh_symbol : holds_symbol d (opened ++ resting) ≡ false
    pub amounts : valid_amounts d e ≡ true
    pub spread : value_lt e.ask e.bid ≡ false
    pub approved : is_true e.risk_approved ≡ true
    pub risk : value_lt e.authorized_risk_amount d.risk_amount ≡ false
    pub levels : valid_levels d e ≡ true

  pub prepare_limit_ready :
      (d : LimitDraft F) (e : LimitEvidence F)
      → (prepare_limit (some d) e).ready ≡ true
      → Passes d e
  unfolding prepare_limit prepare_snapshots prepare_draft
  prepare_limit_ready d e h = ground arith

  pub prepare_limit_of :
      (d : LimitDraft F) (e : LimitEvidence F)
      → Passes d e
      → (prepare_limit (some d) e).ready ≡ true
  unfolding prepare_limit prepare_snapshots prepare_draft
  prepare_limit_of d e h = ground arith

  -- Below a cap there is room for one more, among five.
  room_below_cap :
      (cap : Value F) (opened resting : List (Value F))
      → is_cap cap ≡ true
      → reaches_cap cap opened resting ≡ false
      → length opened + length resting + 1 ≤ 5
  room_below_cap cap opened resting h k = ground arith

  -- If a draft is ready, the open and the pending positions are at most five with it.
  pub prepare_limit_bounded :
      (d : LimitDraft F) (e : LimitEvidence F) (opened resting : List (Value F))
      → e.open_symbols ≡ some opened
      → e.pending_symbols ≡ some resting
      → (prepare_limit (some d) e).ready ≡ true
      → length opened + length resting + 1 ≤ 5
  prepare_limit_bounded d e opened resting seen waiting h =
      let p = prepare_limit_ready d e h in
      rw (some_eq opened p.opened e.open_symbols seen p.opened_eq) (
        rw (some_eq resting p.resting e.pending_symbols waiting p.pending_eq)
          (room_below_cap e.total_cap p.opened p.resting p.cap p.below_cap))

  -- Whatever the settings and the account's evidence are, the cap that `demo_position_cap` gives is
  -- from 1 to 5.
  pub demo_position_cap_bounded :
      (max_open_positions equity_floor : Option (Value F)) (equity currency : Value F)
      → (leb_ℤ (pos 1) (demo_position_cap max_open_positions equity_floor equity currency) ≡ true)
        × (leb_ℤ (demo_position_cap max_open_positions equity_floor equity currency) (pos 5) ≡ true)
  unfolding demo_position_cap
  demo_position_cap_bounded max_open_positions equity_floor equity currency =
      (ground arith, ground arith)

  -- A cap above 1 is the configured limit, and then the equity is a finite amount that is not below
  -- the floor, which is itself not below 50, and the currency is USD.
  pub demo_position_cap_raised :
      (max_open_positions equity_floor : Option (Value F)) (equity currency : Value F)
      → leb_ℤ (pos 2) (demo_position_cap max_open_positions equity_floor equity currency) ≡ true
      → (max_open_positions
          ≡ some (num (int (demo_position_cap max_open_positions equity_floor equity currency))))
        × (is_amount equity ≡ true)
        × (value_lt equity (floor_setting equity_floor) ≡ false)
        × (value_lt (floor_setting equity_floor) (num (int (pos 50))) ≡ false)
        × (has_text (text "USD") (currency ∷ []) ≡ true)
  unfolding demo_position_cap
  demo_position_cap_raised max_open_positions equity_floor equity currency h = ground arith
