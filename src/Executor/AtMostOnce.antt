-- ===== src/Executor/AtMostOnce.antt =====
-- Sequences of submissions of `AsyncTradeExecutor`, with other processes on the same store.
use jqe.Prelude.{
  ◌≡◌, refl, Bool, true, false, not, ◌&&◌, Option, List, [], ◌∷◌, All, arith, Bool-cases, inl, inr,
  ◌⊎◌, ◌≢◌, Any, subst,
}
use jqe.Text.{Text, nonempty}
use jqe.Number.{Float}
use jqe.Policy.{ExecutionIntent, ExecutionContext, ExecutionDecision}
use jqe.Intent.{ReservationState}
use jqe.Store.{Error, Result, ok, raised, acquire_reservation, release_reservation, Result-cases}
use jqe.Store.Steps.{Step, Steps}
use jqe.Executor.{
  World, Surroundings, Call, Outcome, returned, escaped, ReconciliationResult, ReconciliationState,
  ExecutionResult, call, intent_key, reconcile, after_reconcile, submit_reserved, finish,
  submit_held, submit, account_scope, fresh_decision, provided,
}
use jqe.Executor.Guarantee.{
  Guarantee, Guarantee-refl, Guarantee-trans, Guarantee-call, IsFair, has_claim, Distinct,
  Distinct-append, All-map, All-append, Owned, Owned-kept, Held,
}
use jqe.Executor.Rely.{Guarantee-of, reconcile-Guarantee}
use jqe.Executor.Once.{claim_and_send-Guarantee}

abbrev ready : ReconciliationState → Bool
ready ReconciliationState.ready_to_submit = true
ready _ = false

Acquire-cases :
    (r : Result ReservationState)
    → (r ≡ ok ReservationState.acquired)
      ⊎ ((r ≡ ok ReservationState.held) ⊎ (r ≡ ok ReservationState.unresolved_intent))
      ⊎ ((x : Error) × (r ≡ raised x))
Acquire-cases (ok ReservationState.acquired) = inl refl
Acquire-cases (ok ReservationState.held) = inr (inl (inl refl))
Acquire-cases (ok ReservationState.unresolved_intent) = inr (inl (inr refl))
Acquire-cases (raised x) = inr (inr (x, refl))

module _ {F : Type 0} ⦃o : Float F⦄ (env : Surroundings F) (fair : IsFair env)
    (intent : ExecutionIntent F) where
  after_reconcile-Guarantee :
      (context : Option (ExecutionContext F)) (scope : Text) (decision : ExecutionDecision)
      (seen : Outcome ReconciliationResult) (w : World F)
      → Owned w
      → Guarantee w (after_reconcile env intent context scope decision seen w).1
  unfolding after_reconcile
  after_reconcile-Guarantee context scope decision escaped w owned = Guarantee-refl w
  after_reconcile-Guarantee context scope decision (returned r) w owned =
      elim (Bool-cases (ready r.state && not env.before_submit_raises)) [
        | inl goes ↦
            Guarantee-of (ground arith)
              (claim_and_send-Guarantee env fair intent context scope decision w owned)
        | inr stops ↦ Guarantee-of (ground arith) (Guarantee-refl w)
      ]

  submit_reserved-Guarantee :
      (context : Option (ExecutionContext F)) (scope : Text) (w : World F)
      → Owned w
      → Guarantee w (submit_reserved env intent context scope w).1
  unfolding submit_reserved
  submit_reserved-Guarantee context scope w owned =
      let decision = fresh_decision env intent context in
      let seen = reconcile env Call.lookup Call.reconciled env.positions intent w in
      elim (Bool-cases decision.allowed) [
        | inl allowed ↦ Guarantee-of (ground arith) (
            let g =
              reconcile-Guarantee env fair intent Call.lookup Call.reconciled env.positions w in
            Guarantee-trans w seen.1 _ g (
              after_reconcile-Guarantee context scope decision seen.0 seen.1
                (Owned-kept w seen.1 g owned)))
        | inr refused ↦ Guarantee-of (ground arith) (Guarantee-refl w)
      ]

  finish-Guarantee :
      (scope : Text) (result : Outcome ExecutionResult) (w : World F)
      → Guarantee w (finish env scope result w).1
  unfolding finish
  finish-Guarantee scope result w =
      let released = call env Call.release (release_reservation scope env.owner_id) w in
      let g : Guarantee w released.1 =
        Guarantee-call env Call.release (release_reservation scope env.owner_id) w fair
          (λ s. Steps.next Steps.done (Step.release scope env.owner_id)) in
      elim (Result-cases released.0) [
        | inl (b, done) ↦ Guarantee-of (ground arith) g
        | inr (x, failed) ↦ Guarantee-of (ground arith) g
      ]

  submit_held-Guarantee :
      (context : Option (ExecutionContext F)) (scope : Text) (w : World F)
      → Owned w
      → Guarantee w (submit_held env intent context scope w).1
  unfolding submit_held
  submit_held-Guarantee context scope w owned =
      let inner = submit_reserved env intent (provided env context) scope w in
      Guarantee-trans w inner.1 _ (submit_reserved-Guarantee (provided env context) scope w owned)
        (finish-Guarantee scope inner.0 inner.1)

  -- A submission loses no row, and each order that is handed over in it is under a key that had no row
  -- before, or that another process had claimed.
  pub submit-Guarantee :
      (context : Option (ExecutionContext F)) (w : World F)
      → Owned w
      → Guarantee w (submit env intent context w).1
  unfolding submit
  submit-Guarantee context w owned =
      let scope = account_scope context in
      let method =
        acquire_reservation scope env.owner_id env.lease_seconds (intent_key intent)
          (env.clock Call.acquire) in
      let taken = call env Call.acquire method w in
      let g : Guarantee w taken.1 = Guarantee-call env Call.acquire method w fair (λ s.
        Steps.next Steps.done (
          Step.acquire scope env.owner_id env.lease_seconds (intent_key intent)
            (env.clock Call.acquire))) in
      elim (Bool-cases (nonempty scope)) [
        | inr unnamed ↦ Guarantee-of (ground arith) (Guarantee-refl w)
        | inl named ↦ elim (Acquire-cases taken.0) [
          | inl obtained ↦ Guarantee-of (ground arith) (
              Guarantee-trans w taken.1 _ g
                (submit_held-Guarantee context scope taken.1 (Owned-kept w taken.1 g owned)))
          | inr (inl refused) ↦ Guarantee-of (ground arith) g
          | inr (inr (x, failed)) ↦ Guarantee-of (ground arith) g
        ]
      ]

-- What holds of the keys that other processes have claimed holds of each.
All-Held :
    (P : Text → Type 0) (ks : List Text) (key : Text) → All P ks → Any (λ k. k ≡ key) ks → P key
All-Held P [] key all h = elim h [ ]
All-Held P (k ∷ ks) key all (inl here) = subst P here all.0
All-Held P (k ∷ ks) key all (inr there) = All-Held P ks key all.1 there

-- One call of `submit`, with what surrounds it.
pub record Submit (F : Type 0) : Type 0 where
  pub surroundings : Surroundings F
  pub intent : ExecutionIntent F
  pub context : Option (ExecutionContext F)

module _ {F : Type 0} ⦃o : Float F⦄ where
  -- Submissions one after the other, of one process or of several and after restarts.
  unfoldable pub submit_all : List (Submit F) → World F → World F
  submit_all [] w = w
  submit_all (c ∷ cs) w = submit_all cs (submit c.surroundings c.intent c.context w).1

  submit_all-Guarantee :
      (cs : List (Submit F)) (w : World F)
      → All (λ c. IsFair c.surroundings) cs
      → Owned w
      → Guarantee w (submit_all cs w)
  unfolding submit_all
  submit_all-Guarantee [] w fair owned = Guarantee-refl w
  submit_all-Guarantee (c ∷ cs) w fair owned =
      let next : World F = (submit c.surroundings c.intent c.context w).1 in
      let g : Guarantee w next =
        submit-Guarantee c.surroundings fair.0 c.intent c.context w owned in
      Guarantee-trans w next _ g (submit_all-Guarantee cs next fair.1 (Owned-kept w next g owned))

  -- Over any sequence of submissions, no two orders are ever handed to the broker under one
  -- idempotency key, and each order's key has a row in the store. Other processes that share the
  -- store act before any call of a submission: they may claim keys that have no row, and hand over
  -- orders under keys that they have claimed, there or before an earlier call, each key once. At the
  -- start the orders handed over have rows and distinct keys, and so have the keys that other
  -- processes have claimed without having handed an order over.
  pub submit_all-Distinct :
      (cs : List (Submit F)) (w : World F)
      → All (λ c. IsFair c.surroundings) cs
      → Distinct w.sent
      → All (λ x. has_claim x.idempotency_key w ≡ true) w.sent
      → All (λ k. (has_claim k w ≡ true) × All (λ x. x.idempotency_key ≢ k) w.sent) w.elsewhere
      → Distinct (submit_all cs w).sent
        × All (λ x. has_claim x.idempotency_key (submit_all cs w) ≡ true) (submit_all cs w).sent
  submit_all-Distinct cs w fair distinct rows others =
      let other = λ (key : Text) (h : Held key w).
        All-Held (λ k. (has_claim k w ≡ true) × All (λ x. x.idempotency_key ≢ k) w.sent) w.elsewhere
          key others h in
      let g : Guarantee w (submit_all cs w) =
        submit_all-Guarantee cs w fair (λ key h. (other key h).0) in
      rw g.appended (
        Distinct-append w w.sent g.news distinct g.distinct rows g.fresh (λ key h. (other key h).1),
        All-append _ w.sent g.news (All-map _ _ w.sent (λ x p. g.kept x.idempotency_key p) rows)
            g.recorded,
      )
