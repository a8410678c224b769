-- ===== src/Executor/Guarantee.antt =====
-- What the submissions of execution/executor.py assume of each other, on one store.
use jqe.Prelude.{
  ◌≡◌, ◌≢◌, refl, ap, ◌∙◌, Bool, true, false, List, [], ◌∷◌, ◌++◌, All, arith, is_some, Bool-cases,
  inl, inr, ◌⊎◌, Any, subst, sym,
}
use jqe.Text.{Text}
use jqe.Number.{Float}
use jqe.Store.{Store, Result, find_row}
use jqe.Store.Steps.{Steps}
use jqe.Store.Forward.{Steps-Keeps}
use jqe.Executor.{World, OrderRequest, Surroundings, Call, call, hand_over}
use mathlib.Core.List.{append-nil, append_assoc}

module _ {F : Type 0} where
  -- The key has a row.
  abbrev pub has_claim : Text → World F → Bool
  has_claim key w = is_some (find_row key w.store.intents)

  -- No two orders have one key.
  abbrev pub Distinct : List (OrderRequest F) → Type 0
  Distinct [] = Unit
  Distinct (x ∷ xs) = All (λ y. x.idempotency_key ≢ y.idempotency_key) xs × Distinct xs

  -- Another process has claimed the key, and has not handed its order over.
  abbrev pub Held : Text → World F → Type 0
  Held key w = Any (λ k. k ≡ key) w.elsewhere

  abbrev pub IsOthers : Text → World F → Type 0
  IsOthers key w = Held key w ⊎ (has_claim key w ≡ false)

  -- No row is lost. Each new order has a key that was held by another process, or that had no row;
  -- it has one afterwards, and no two have one key. A key that is held was so, or got its row now,
  -- and has no order among the new ones.
  pub record Guarantee (w w' : World F) : Type 0 where
    pub kept : (key : Text) → has_claim key w ≡ true → has_claim key w' ≡ true
    pub news : List (OrderRequest F)
    pub appended : w'.sent ≡ w.sent ++ news
    pub fresh : All (λ x. IsOthers x.idempotency_key w) news
    pub recorded : All (λ x. has_claim x.idempotency_key w' ≡ true) news
    pub distinct : Distinct news
    pub held :
        (key : Text)
        → Held key w'
        → Held key w ⊎ ((has_claim key w ≡ false) × (has_claim key w' ≡ true))
    pub unsent : (key : Text) → Held key w' → All (λ x. x.idempotency_key ≢ key) news

  -- The keys that others hold have rows.
  abbrev pub Owned : World F → Type 0
  Owned w = (key : Text) → Held key w → has_claim key w ≡ true

  -- Before each call other processes may claim keys that have no row, and hand over orders, each
  -- under a key that they have claimed, there or before an earlier call, and once.
  abbrev pub IsFair : Surroundings F → Type 0
  IsFair env = (c : Call) (w : World F) → Guarantee w (env.meanwhile c w)

  -- A change that hands nothing over and keeps the rows.
  pub Guarantee-quiet :
      (w w' : World F)
      → ((key : Text) → has_claim key w ≡ true → has_claim key w' ≡ true)
      → w'.sent ≡ w.sent
      → w'.elsewhere ≡ w.elsewhere
      → Guarantee w w'
  Guarantee-quiet w w' kept same others = record {
    kept = kept;
    news = [];
    appended = rw append-nil same;
    fresh = tt;
    recorded = tt;
    distinct = tt;
    held = λ key h. inl (subst (λ ks. Any (λ k. k ≡ key) ks) others h);
    unsent = λ key h. tt;
  }

  pub Owned-kept : (u v : World F) → Guarantee u v → Owned u → Owned v
  Owned-kept u v g owned key h = elim (g.held key h) [
    | inl before ↦ g.kept key (owned key before)
    | inr (new, row) ↦ row
  ]

  -- A key that had no row, or that others held, at a later time, was so before.
  earlier : (u v : World F) (key : Text) → Guarantee u v → IsOthers key v → IsOthers key u
  earlier u v key g (inl h) = elim (g.held key h) [
    | inl before ↦ inl before
    | inr (new, row) ↦ inr new
  ]
  earlier u v key g (inr new) = inr (ground (arith, g.kept key))

  pub Guarantee-refl : (w : World F) → Guarantee w w
  Guarantee-refl w = Guarantee-quiet w w (λ key h. h) refl refl

  pub All-map :
      (P Q : OrderRequest F → Type 0) (xs : List (OrderRequest F))
      → ((x : OrderRequest F) → P x → Q x)
      → All P xs
      → All Q xs
  All-map P Q [] f h = tt
  All-map P Q (x ∷ xs) f h = (f x h.0, All-map P Q xs f h.1)

  pub All-append :
      (P : OrderRequest F → Type 0) (xs ys : List (OrderRequest F))
      → All P xs
      → All P ys
      → All P (xs ++ ys)
  All-append P [] ys h k = k
  All-append P (x ∷ xs) ys h k = (h.0, All-append P xs ys h.1 k)

  -- Orders under keys that had rows and that nobody holds, and then orders of others.
  pub Distinct-append :
      (w : World F) (xs ys : List (OrderRequest F))
      → Distinct xs
      → Distinct ys
      → All (λ x. has_claim x.idempotency_key w ≡ true) xs
      → All (λ y. IsOthers y.idempotency_key w) ys
      → ((key : Text) → Held key w → All (λ x. x.idempotency_key ≢ key) xs)
      → Distinct (xs ++ ys)
  Distinct-append w [] ys dx dy old new unsent = dy
  Distinct-append w (x ∷ xs) ys dx dy old new unsent = (
    All-append (λ y. x.idempotency_key ≢ y.idempotency_key) xs ys dx.0
        (All-map (λ y. IsOthers y.idempotency_key w) (λ y. x.idempotency_key ≢ y.idempotency_key) ys
          (λ y other. elim other [
            | inl h ↦ (unsent y.idempotency_key h).0
            | inr n ↦ λ e. ground (arith, old.0)
          ])
          new),
    Distinct-append w xs ys dx.1 dy old.1 new (λ key h. (unsent key h).1),
  )

  pub Distinct-snoc :
      (y : OrderRequest F) (xs : List (OrderRequest F))
      → Distinct xs
      → All (λ x. x.idempotency_key ≢ y.idempotency_key) xs
      → Distinct (xs ++ y ∷ [])
  Distinct-snoc y [] dx ne = (tt, tt)
  Distinct-snoc y (x ∷ xs) dx ne =
      (All-append _ xs (y ∷ []) dx.0 (ne.0, tt), Distinct-snoc y xs dx.1 ne.1)

  pub Guarantee-trans : (u v w : World F) → Guarantee u v → Guarantee v w → Guarantee u w
  Guarantee-trans u v w g h = record {
    kept = λ key p. h.kept key (g.kept key p);
    news = g.news ++ h.news;
    appended = h.appended ∙ ap (λ xs. xs ++ h.news) g.appended ∙ append_assoc u.sent g.news h.news;
    fresh =
        All-append _ g.news h.news g.fresh
          (All-map _ _ h.news (λ x n. earlier u v x.idempotency_key g n) h.fresh);
    recorded =
        All-append _ g.news h.news
          (All-map _ _ g.news (λ x p. h.kept x.idempotency_key p) g.recorded) h.recorded;
    distinct = Distinct-append v g.news h.news g.distinct h.distinct g.recorded h.fresh g.unsent;
    held = λ key k. elim (h.held key k) [
      | inl at_v ↦ elim (g.held key at_v) [
        | inl at_u ↦ inl at_u
        | inr (new, row) ↦ inr (new, h.kept key row)
      ]
      | inr (new, row) ↦ inr (ground (arith, g.kept key), row)
    ];
    unsent = λ key k.
        All-append (λ x. x.idempotency_key ≢ key) g.news h.news
          (elim (h.held key k) [
            | inl at_v ↦ g.unsent key at_v
            | inr (new, row) ↦
                All-map _ (λ x. x.idempotency_key ≢ key) g.news (λ x p e. ground arith) g.recorded
          ])
          (h.unsent key k);
  }

module _ {F : Type 0} ⦃o : Float F⦄ where
  -- A method of the store that is a step.
  abbrev pub IsStep : {A : Type 0} → (Store F → Result A × Store F) → Type 0
  IsStep method = (s : Store F) → Steps s (method s).1

  pub Guarantee-call :
      {A : Type 0} (env : Surroundings F) (c : Call) (method : Store F → Result A × Store F)
      (w : World F)
      → IsFair env
      → IsStep method
      → Guarantee w (call env c method w).1
  unfolding call
  Guarantee-call env c method w fair step = elim (Bool-cases (env.outage c)) [
    | inl failing ↦ rw failing (fair c w)
    | inr running ↦ rw running (
        Guarantee-trans w (env.meanwhile c w) _ (fair c w) (
          Guarantee-quiet (env.meanwhile c w) _
            (λ key p. (Steps-Keeps key (step (env.meanwhile c w).store)).present p) refl refl))
  ]

  -- A key that was claimed from `u` to `v` by this process is no other's.
  not_ours :
      (order : OrderRequest F) (u v : World F) (key : Text)
      → (Held key v → Held key u)
      → Owned u
      → has_claim order.idempotency_key u ≡ false
      → has_claim order.idempotency_key v ≡ true
      → IsOthers key v
      → order.idempotency_key ≢ key
  not_ours order u v key at_u owned new old (inl k) e = ground (arith, owned key (at_u k))
  not_ours order u v key at_u owned new old (inr late) e = ground arith

  -- An order is handed over under a key that had no row at `u` and has one at `v`, with nothing
  -- handed over in between, and others acting from `v` to `w`.
  pub Guarantee-hand_over :
      (order : OrderRequest F) (u v w : World F)
      → Owned u
      → Guarantee u v
      → v.sent ≡ u.sent
      → v.elsewhere ≡ u.elsewhere
      → has_claim order.idempotency_key u ≡ false
      → has_claim order.idempotency_key v ≡ true
      → Guarantee v w
      → Guarantee u (hand_over order w)
  Guarantee-hand_over order u v w owned g same others new old h =
      let at_u = λ (key : Text) (k : Held key v). subst (λ ks. Any (λ k. k ≡ key) ks) others k in
      let ours = λ (key : Text) (k : IsOthers key v) (e : order.idempotency_key ≡ key).
        not_ours order u v key (λ k. at_u key k) owned new old k e in
      record {
        kept = λ key p. h.kept key (g.kept key p);
        news = h.news ++ order ∷ [];
        appended =
            ap (λ xs. xs ++ order ∷ []) h.appended
            ∙ append_assoc v.sent h.news (order ∷ [])
            ∙ ap (λ xs. xs ++ (h.news ++ order ∷ [])) same;
        fresh =
            All-append _ h.news (order ∷ [])
              (All-map _ _ h.news (λ x n. earlier u v x.idempotency_key g n) h.fresh) (inr new, tt);
        recorded =
            All-append _ h.news (order ∷ []) h.recorded (h.kept order.idempotency_key old, tt);
        distinct =
            Distinct-snoc order h.news h.distinct
              (All-map _ _ h.news (λ x n e. ours x.idempotency_key n (sym e)) h.fresh);
        held = λ key k. elim (h.held key k) [
          | inl at_v ↦ inl (at_u key at_v)
          | inr (late, row) ↦ inr (ground (arith, g.kept key), row)
        ];
        unsent = λ key k.
            All-append (λ x. x.idempotency_key ≢ key) h.news (order ∷ []) (h.unsent key k)
              (
                (λ e. elim (h.held key k) [
                  | inl at_v ↦ ours key (inl at_v) e
                  | inr (late, row) ↦ ours key (inr late) e
                ]),
                tt,
              );
      }
