-- ===== src/Executor/Once.antt =====
-- The claim of an intent and the order that follows it, in execution/executor.py, as seen by the
-- other processes.
use jqe.Prelude.{
  ◌⊎◌, ◌≡◌, refl, true, false, Option, some, ◌>>=◌, arith, Bool-cases, Option-cases, inl, inr,
}
use jqe.Text.{Text}
use jqe.Number.{Float}
use jqe.Policy.{ExecutionIntent, ExecutionContext, ExecutionDecision}
use jqe.Intent.{IntentRecord, IntentRecordStatus, ClaimState, from_execution_intent, as_text}
use jqe.Store.{Error, Result, ok, raised, try_claim_under_reservation}
use jqe.Store.Steps.{Step, Steps}
use jqe.Store.Forward.{Steps-Keeps}
use jqe.Store.Claims.{claim_fresh}
use jqe.Executor.{
  World, OrderRequest, Surroundings, Call, call, hand_over, intent_key, record_outcome, send_order,
  order_request, checked, reconcile_again, claim_and_send,
}
use jqe.Executor.Guarantee.{
  Guarantee, Guarantee-refl, Guarantee-trans, Guarantee-call, Guarantee-hand_over, Guarantee-quiet,
  IsFair, has_claim, Owned, Owned-kept,
}
use jqe.Executor.Rely.{Guarantee-of, reconcile-Guarantee, record_outcome-Guarantee}

-- The answers to a claim: granted, one of the two refusals, or an error.
Claim-cases :
    (r : Result ClaimState)
    → (r ≡ ok ClaimState.claimed)
      ⊎ ((r ≡ ok ClaimState.already_exists) ⊎ (r ≡ ok ClaimState.conflict))
      ⊎ ((x : Error) × (r ≡ raised x))
Claim-cases (ok ClaimState.claimed) = inl refl
Claim-cases (ok ClaimState.already_exists) = inr (inl (inl refl))
Claim-cases (ok ClaimState.conflict) = inr (inl (inr refl))
Claim-cases (raised x) = inr (inr (x, refl))

module _ {F : Type 0} ⦃o : Float F⦄ where
  from_execution_intent-key :
      (intent : ExecutionIntent F) (status : IntentRecordStatus) (broker account_id : Option Text)
      (r : IntentRecord F)
      → from_execution_intent intent status broker account_id ≡ some r
      → r.idempotency_key ≡ intent_key intent
  unfolding from_execution_intent
  from_execution_intent-key intent status broker account_id r h = ground arith

  order_request-key :
      (intent : ExecutionIntent F) (order : OrderRequest F)
      → order_request intent ≡ some order
      → order.idempotency_key ≡ intent_key intent
  unfolding order_request
  order_request-key intent order h = ground arith

module _ {F : Type 0} ⦃o : Float F⦄ (env : Surroundings F) (fair : IsFair env)
    (intent : ExecutionIntent F) where
  reconcile_again-Guarantee :
      (decision : ExecutionDecision) (w : World F)
      → Guarantee w (reconcile_again env intent decision w).1
  unfolding reconcile_again
  reconcile_again-Guarantee decision w = Guarantee-of (ground arith) (
      reconcile-Guarantee env fair intent Call.follow_up Call.follow_up_reconciled
        env.follow_up_positions w)

  -- What has happened between two worlds when a claim was granted in between.
  record Claimed (u v : World F) : Type 0 where
    guarantee : Guarantee u v
    same : v.sent ≡ u.sent
    others : v.elsewhere ≡ u.elsewhere
    owned : Owned u
    new : has_claim (intent_key intent) u ≡ false
    old : has_claim (intent_key intent) v ≡ true

  world-send_order :
      (decision : ExecutionDecision) (order : OrderRequest F) (v : World F)
      → order_request intent ≡ some order
      → (send_order env intent decision v).1
        ≡ (record_outcome env intent decision
            (checked (env.submit_order order))
            (hand_over order (env.meanwhile Call.send v))).1
  unfolding send_order
  world-send_order decision order v e = rw (e, send_order)

  send_order-Guarantee :
      (decision : ExecutionDecision) (u v : World F)
      → Claimed u v
      → Guarantee u (send_order env intent decision v).1
  unfolding send_order
  send_order-Guarantee decision u v c = elim (Option-cases (order_request intent)) [
    | inl invalid ↦ Guarantee-of (ground arith) c.guarantee
    | inr (order, e) ↦
        let key : order.idempotency_key ≡ intent_key intent = order_request-key intent order e in
        let sent : World F = hand_over order (env.meanwhile Call.send v) in
        Guarantee-of (world-send_order decision order v e) (
          Guarantee-trans u sent _
            (Guarantee-hand_over order u v (env.meanwhile Call.send v) c.owned c.guarantee c.same
              c.others (rw key c.new) (rw key c.old) (fair Call.send v))
            (record_outcome-Guarantee env fair intent decision (checked (env.submit_order order))
              sent))
  ]

  -- The claim of a record, as a call of the store.
  abbrev claim_call : IntentRecord F → Text → World F → Result ClaimState × World F
  claim_call r scope w =
      call env Call.claim (try_claim_under_reservation r scope env.owner_id (env.clock Call.claim))
        w

  claim_call-Guarantee :
      (r : IntentRecord F) (scope : Text) (w : World F) → Guarantee w (claim_call r scope w).1
  claim_call-Guarantee r scope w =
      Guarantee-call env Call.claim _ w fair (λ s.
        Steps.next Steps.done (Step.claim_reserved r scope env.owner_id (env.clock Call.claim)))

  -- A granted claim: the database ran, and the store is what the method left.
  claim_call_granted :
      (r : IntentRecord F) (scope : Text) (w : World F)
      → (claim_call r scope w).0 ≡ ok ClaimState.claimed
      → let before = env.meanwhile Call.claim w in
        let method = try_claim_under_reservation r scope env.owner_id (env.clock Call.claim) in
        ((method before.store).0 ≡ ok ClaimState.claimed)
        × ((claim_call r scope w).1 ≡ record before { store = (method before.store).1 })
  unfolding call
  claim_call_granted r scope w granted = elim (Bool-cases (env.outage Call.claim)) [
    | inl failing ↦ absurd (ground arith)
    | inr running ↦ (rw running at granted, rw running)
  ]

  claim_call-Claimed :
      (r : IntentRecord F) (scope : Text) (w : World F)
      → r.idempotency_key ≡ intent_key intent
      → Owned w
      → (claim_call r scope w).0 ≡ ok ClaimState.claimed
      → Claimed (env.meanwhile Call.claim w) (claim_call r scope w).1
  claim_call-Claimed r scope w key owned granted =
      let before : World F = env.meanwhile Call.claim w in
      let (won, left) = claim_call_granted r scope w granted in
      let (new, old) = claim_fresh r scope env.owner_id (env.clock Call.claim) before.store won in
      record {
        guarantee = Guarantee-of left (
            Guarantee-quiet before _
              (λ k p.
                (Steps-Keeps k (
                    Steps.next Steps.done
                      (Step.claim_reserved r scope env.owner_id (env.clock Call.claim)))).present
                  p)
              refl refl);
        same = rw left;
        others = rw left;
        owned = Owned-kept w before (fair Call.claim w) owned;
        new = rw (← key) new;
        old = rw (left, ← key) old;
      }

  pub claim_and_send-Guarantee :
      (context : Option (ExecutionContext F)) (scope : Text) (decision : ExecutionDecision)
      (w : World F)
      → Owned w
      → Guarantee w (claim_and_send env intent context scope decision w).1
  unfolding claim_and_send
  claim_and_send-Guarantee context scope decision w owned =
      elim (Option-cases (
        from_execution_intent intent IntentRecordStatus.pending (do c ← context; as_text c.broker)
          (some scope))) [
            | inl invalid ↦ Guarantee-of (ground arith) (Guarantee-refl w)
            | inr (r, e) ↦
                let has_claim : World F = (claim_call r scope w).1 in
                let g : Guarantee w has_claim = claim_call-Guarantee r scope w in
                let key : r.idempotency_key ≡ intent_key intent =
                  from_execution_intent-key intent _ _ _ r e in
                elim (Claim-cases (claim_call r scope w).0) [
                  | inl granted ↦ Guarantee-of (ground arith) (
                      Guarantee-trans w (env.meanwhile Call.claim w) _ (fair Call.claim w) (
                        send_order-Guarantee decision (env.meanwhile Call.claim w) has_claim
                          (claim_call-Claimed r scope w key owned granted)))
                  | inr (inl refused) ↦ Guarantee-of (ground arith) (
                      Guarantee-trans w has_claim _ g
                        (reconcile_again-Guarantee decision has_claim))
                  | inr (inr (x, failed)) ↦ Guarantee-of (ground arith) g
                ]
          ]
