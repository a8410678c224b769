-- ===== src/Audit/Matching.antt =====
-- The matching of the audit of execution/continuous_reconciliation.py: which trades positions are
-- compared with, and which keys are matched.
use jqe.Prelude.{
  ◌≡◌, ◌⊎◌, refl, sym, subst, Bool, true, false, none, some, List, [], ◌∷◌, ◌++◌, inl, inr, arith,
  Bool-cases, Option-cases, Any, All,
}
use jqe.Text.{Text, text_eq, normalize}
use jqe.Text.Laws.{text_eq_iff}
use jqe.Broker.{OrderSide, buy, sell, side_eq}
use jqe.Audit.{TrackedTradeState, BrokerPosition, put_tracked, tracked_map, only_if}

pub append_nil : {A : Type 0} (xs ys : List A) → (xs ++ ys) ≡ [] → (xs ≡ []) × (ys ≡ [])
append_nil [] ys h = (refl, h)
append_nil (x ∷ xs) ys h = absurd (ground arith)

pub only_if_nil : {A : Type 0} (b : Bool) (a : A) → only_if b a ≡ [] → b ≡ false
only_if_nil true a h = absurd (ground arith)
only_if_nil false a h = refl

pub side_eq_iff : (a b : OrderSide) → side_eq a b ≡ true → a ≡ b
side_eq_iff buy buy h = refl
side_eq_iff buy sell h = absurd (ground arith)
side_eq_iff sell buy h = absurd (ground arith)
side_eq_iff sell sell h = refl

module _ {F : Type 0} where
  -- The position, or a tracked trade of its symbol, has the key.
  abbrev pub Shows : List (TrackedTradeState F) → Text → BrokerPosition F → Type 0
  Shows trades key p =
      (p.position_id ≡ key)
      ⊎ Any (λ t. (t.position_id ≡ some key) × (t.symbol ≡ normalize p.symbol)) trades

  -- The trades of the map are tracked, each under its own key.
  abbrev pub IsKeyed : List (TrackedTradeState F) → Text × TrackedTradeState F → Type 0
  IsKeyed trades entry = Any (λ t. t ≡ entry.1) trades × (entry.1.position_id ≡ some entry.0)

  put_tracked-All :
      (P : Text × TrackedTradeState F → Type 0) (key : Text) (trade : TrackedTradeState F)
      (entries : List (Text × TrackedTradeState F))
      → P (key, trade)
      → All P entries
      → All P (put_tracked key trade entries)
  unfolding put_tracked
  put_tracked-All P key trade [] h all = (h, tt)
  put_tracked-All P key trade (entry ∷ entries) h (first, rest) =
      elim (Bool-cases (text_eq entry.0 key)) [
        | inl same ↦ rw same (h, rest)
        | inr other ↦ rw other (first, put_tracked-All P key trade entries h rest)
      ]

  tracked_map-All :
      (P : Text × TrackedTradeState F → Type 0) (trades : List (TrackedTradeState F))
      (entries : List (Text × TrackedTradeState F))
      → ((key : Text) (trade : TrackedTradeState F)
          → Any (λ t. t ≡ trade) trades
          → trade.position_id ≡ some key
          → P (key, trade))
      → All P entries
      → All P (tracked_map trades entries)
  unfolding tracked_map
  tracked_map-All P [] entries h all = all
  tracked_map-All P (trade ∷ trades) entries h all = elim (Option-cases trade.position_id) [
    | inl unnamed ↦
        rw unnamed (tracked_map-All P trades entries (λ key t here. h key t (inr here)) all)
    | inr (key, named) ↦ rw named (
        tracked_map-All P trades (put_tracked key trade entries) (λ k t here. h k t (inr here))
          (put_tracked-All P key trade entries (h key trade (inl refl) named) all))
  ]

  pub tracked_map-IsKeyed :
      (trades : List (TrackedTradeState F)) → All (IsKeyed trades) (tracked_map trades [])
  tracked_map-IsKeyed trades =
      tracked_map-All (IsKeyed trades) trades [] (λ key trade here named. (here, named)) tt

  -- A key of the map.
  abbrev pub HasKey : Text → List (Text × TrackedTradeState F) → Type 0
  HasKey key entries = Any (λ e. e.0 ≡ key) entries

  put_tracked-own :
      (key : Text) (trade : TrackedTradeState F) (entries : List (Text × TrackedTradeState F))
      → HasKey key (put_tracked key trade entries)
  unfolding put_tracked
  put_tracked-own key trade [] = inl refl
  put_tracked-own key trade (entry ∷ entries) = elim (Bool-cases (text_eq entry.0 key)) [
    | inl same ↦ rw same (inl refl)
    | inr other ↦ rw other (inr (put_tracked-own key trade entries))
  ]

  put_tracked-HasKey :
      (k key : Text) (trade : TrackedTradeState F) (entries : List (Text × TrackedTradeState F))
      → HasKey k entries
      → HasKey k (put_tracked key trade entries)
  unfolding put_tracked
  put_tracked-HasKey k key trade [] e = elim e [ ]
  put_tracked-HasKey k key trade (entry ∷ entries) h = elim (Bool-cases (text_eq entry.0 key)) [
    | inl same ↦ rw same (elim h [
      | inl here ↦ inl (ground (arith, text_eq_iff entry.0 key))
      | inr there ↦ inr there
    ])
    | inr other ↦ rw other (elim h [
      | inl here ↦ inl here
      | inr there ↦ inr (put_tracked-HasKey k key trade entries there)
    ])
  ]

  tracked_map-HasKey :
      (k : Text) (trades : List (TrackedTradeState F)) (entries : List (Text × TrackedTradeState F))
      → HasKey k entries
      → HasKey k (tracked_map trades entries)
  unfolding tracked_map
  tracked_map-HasKey k [] entries h = h
  tracked_map-HasKey k (trade ∷ trades) entries h = elim (Option-cases trade.position_id) [
    | inl unnamed ↦ rw unnamed (tracked_map-HasKey k trades entries h)
    | inr (key, named) ↦ rw named (
        tracked_map-HasKey k trades (put_tracked key trade entries)
          (put_tracked-HasKey k key trade entries h))
  ]

  -- The trade has no position, or its key is in the map.
  abbrev pub IsMapped : List (Text × TrackedTradeState F) → TrackedTradeState F → Type 0
  IsMapped entries t =
      (t.position_id ≡ none) ⊎ ((key : Text) × (t.position_id ≡ some key) × HasKey key entries)

  tracked_map-unnamed :
      (trade : TrackedTradeState F) (trades : List (TrackedTradeState F))
      (entries : List (Text × TrackedTradeState F))
      → trade.position_id ≡ none
      → tracked_map (trade ∷ trades) entries ≡ tracked_map trades entries
  unfolding tracked_map
  tracked_map-unnamed trade trades entries unnamed = rw unnamed

  tracked_map-named :
      (key : Text) (trade : TrackedTradeState F) (trades : List (TrackedTradeState F))
      (entries : List (Text × TrackedTradeState F))
      → trade.position_id ≡ some key
      → tracked_map (trade ∷ trades) entries ≡ tracked_map trades (put_tracked key trade entries)
  unfolding tracked_map
  tracked_map-named key trade trades entries named = ground arith

  pub tracked_map-keys :
      (trades : List (TrackedTradeState F)) (entries : List (Text × TrackedTradeState F))
      → All (IsMapped (tracked_map trades entries)) trades
  tracked_map-keys [] entries = tt
  tracked_map-keys (trade ∷ trades) entries = elim (Option-cases trade.position_id) [
    | inl unnamed ↦
        subst (λ m. All (IsMapped m) (trade ∷ trades))
          (sym (tracked_map-unnamed trade trades entries unnamed))
          (inl unnamed, tracked_map-keys trades entries)
    | inr (key, named) ↦
        let entries' = put_tracked key trade entries in
        subst (λ m. All (IsMapped m) (trade ∷ trades))
          (sym (tracked_map-named key trade trades entries named))
          (
            inr (
              key,
              named,
              tracked_map-HasKey key trades entries' (put_tracked-own key trade entries),
            ),
            tracked_map-keys trades entries',
          )
  ]
