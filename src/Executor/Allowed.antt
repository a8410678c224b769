-- ===== src/Executor/Allowed.antt =====
-- Submissions of `AsyncTradeExecutor` that the policy refuses.
use jqe.Prelude.{◌≡◌, false, Option, arith, ap, ◌∙◌}
use jqe.Text.{Text}
use jqe.Number.{Float}
use jqe.Policy.{ExecutionIntent, ExecutionContext}
use jqe.Store.{acquire_reservation, release_reservation, acquire_at, take_reservation}
use jqe.Executor.{
  World, Surroundings, Call, Outcome, ExecutionResult, call, intent_key, submit_reserved, finish,
  submit_held, submit, account_scope, fresh_decision, provided,
}

module _ {F : Type 0} ⦃o : Float F⦄ (env : Surroundings F) where
  -- No other process acts during the submission.
  abbrev pub IsAlone : Type 0
  IsAlone = (c : Call) (w : World F) → env.meanwhile c w ≡ w

  module _ (alone : IsAlone) where
    finish_same :
        (scope : Text) (result : Outcome ExecutionResult) (w : World F)
        → ((finish env scope result w).1.sent ≡ w.sent)
          × ((finish env scope result w).1.store.intents ≡ w.store.intents)
    unfolding finish call release_reservation
    finish_same scope result w =
        (ground (arith, alone Call.release w), ground (arith, alone Call.release w))

    acquire_same :
        (scope key : Text) (w : World F)
        → ((call env Call.acquire
              (acquire_reservation scope env.owner_id env.lease_seconds key
                (env.clock Call.acquire))
              w).1.sent
            ≡ w.sent)
          × ((call env Call.acquire
                (acquire_reservation scope env.owner_id env.lease_seconds key
                  (env.clock Call.acquire))
                w).1.store.intents
              ≡ w.store.intents)
    unfolding call acquire_reservation acquire_at take_reservation
    acquire_same scope key w =
        (ground (arith, alone Call.acquire w), ground (arith, alone Call.acquire w))

    submit_reserved_refused :
        (intent : ExecutionIntent F) (context : Option (ExecutionContext F)) (scope : Text)
        (w : World F)
        → (fresh_decision env intent context).allowed ≡ false
        → (submit_reserved env intent context scope w).1 ≡ w
    unfolding submit_reserved
    submit_reserved_refused intent context scope w h = ground arith

    submit_held_refused :
        (intent : ExecutionIntent F) (context : Option (ExecutionContext F)) (scope : Text)
        (w : World F)
        → (fresh_decision env intent (provided env context)).allowed ≡ false
        → ((submit_held env intent context scope w).1.sent ≡ w.sent)
          × ((submit_held env intent context scope w).1.store.intents ≡ w.store.intents)
    unfolding submit_held
    submit_held_refused intent context scope w h =
        let inner = submit_reserved env intent (provided env context) scope w in
        let same : inner.1 ≡ w = submit_reserved_refused intent (provided env context) scope w h in
        let left = finish_same scope inner.0 inner.1 in
        (
          left.0 ∙ ap (λ (x : World F). x.sent) same,
          left.1 ∙ ap (λ (x : World F). x.store.intents) same,
        )

    -- A submission whose context, with the positions that the broker reports now, the policy does
    -- not allow hands no order to the broker and records no intent, whatever the broker, the clock,
    -- the callbacks and the database do. No other process acts during it.
    pub submit_refused :
        (intent : ExecutionIntent F) (context : Option (ExecutionContext F)) (w : World F)
        → (fresh_decision env intent (provided env context)).allowed ≡ false
        → ((submit env intent context w).1.sent ≡ w.sent)
          × ((submit env intent context w).1.store.intents ≡ w.store.intents)
    unfolding submit
    submit_refused intent context w h =
        let scope = account_scope context in
        let taken =
          call env Call.acquire
            (acquire_reservation scope env.owner_id env.lease_seconds (intent_key intent)
              (env.clock Call.acquire))
            w in
        let first = acquire_same scope (intent_key intent) w in
        let then_ = submit_held_refused intent context scope taken.1 h in
        (ground (arith, first.0, then_.0), ground (arith, first.1, then_.1))
