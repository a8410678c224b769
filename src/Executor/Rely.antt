-- ===== src/Executor/Rely.antt =====
-- The calls of `reconcile` in execution/executor.py as seen by the other processes.
use jqe.Prelude.{
  subst, ◌≡◌, sym, ◌&&◌, Option, none, some, List, arith, is_some, Bool-cases, Option-cases, inl,
  inr, if◌then◌else◌,
}
use jqe.Text.{Text, or_text}
use jqe.Number.{Float}
use jqe.Policy.{ExecutionIntent, ExecutionDecision}
use jqe.Intent.{IntentRecord, IntentRecordStatus}
use jqe.Store.{Store, get, is_unresolved, Result-cases}
use jqe.Store.Steps.{Step, Steps}
use jqe.Executor.{
  World, Surroundings, Call, Submission, Evidence, Position, call, intent_key, transition_intent,
  reconcile_evidence, reconcile_unresolved, reconcile_record, reconcile, record_outcome, confirms,
  is_pending, from_positions, is_accepted,
}
use jqe.Executor.Guarantee.{Guarantee, Guarantee-refl, Guarantee-trans, Guarantee-call, IsFair}

module _ {F : Type 0} where
  -- A world that is known to be another one.
  pub Guarantee-of : {w v v' : World F} → v' ≡ v → Guarantee w v → Guarantee w v'
  Guarantee-of {w} e g = subst (λ x. Guarantee w x) (sym e) g

module _ {F : Type 0} ⦃o : Float F⦄ (env : Surroundings F) (fair : IsFair env)
    (intent : ExecutionIntent F) where
  get-world : (key : Text) (s : Store F) → (get key s).1 ≡ s
  unfolding get
  get-world key s = ground arith

  pub transition_intent-Guarantee :
      (c : Call) (status : IntentRecordStatus) (order_id transaction_id : Option Text) (w : World F)
      → Guarantee w (transition_intent env c intent status order_id transaction_id w).1
  unfolding transition_intent
  transition_intent-Guarantee c status order_id transaction_id w =
      Guarantee-call env c _ w fair (λ s. Steps.next Steps.done (Step.resolve _ _))

  pub reconcile_evidence-Guarantee :
      (c : Call) (r : IntentRecord F) (evidence : Evidence) (w : World F)
      → Guarantee w (reconcile_evidence env c intent r evidence w).1
  unfolding reconcile_evidence
  reconcile_evidence-Guarantee c r evidence w = elim (Bool-cases (confirms evidence.state)) [
    | inl match ↦ Guarantee-of (ground arith) (
        transition_intent-Guarantee c IntentRecordStatus.accepted
          (or_text r.order_id evidence.contract_id)
          (or_text r.transaction_id evidence.transaction_id) w)
    | inr unsure ↦ elim (Bool-cases (is_pending r.status)) [
      | inl fresh ↦
          Guarantee-of (ground arith)
            (transition_intent-Guarantee c IntentRecordStatus.unknown none none w)
      | inr known ↦ Guarantee-of (ground arith) (Guarantee-refl w)
    ]
  ]

  pub reconcile_unresolved-Guarantee :
      (c : Call) (r : IntentRecord F) (w : World F)
      → Guarantee w (reconcile_unresolved env c intent r w).1
  unfolding reconcile_unresolved
  reconcile_unresolved-Guarantee c r w = elim (Option-cases env.reconciler) [
    | inl absent ↦ Guarantee-of (ground arith) (Guarantee-refl w)
    | inr (ask, e) ↦ elim (Option-cases (ask r)) [
      | inl broken ↦ Guarantee-of (ground arith) (Guarantee-refl w)
      | inr (evidence, answer) ↦
          Guarantee-of (ground arith) (reconcile_evidence-Guarantee c r evidence w)
    ]
  ]

  pub reconcile_record-Guarantee :
      (c : Call) (observed : Option (List (Option Position))) (r : Option (IntentRecord F))
      (w : World F)
      → Guarantee w (reconcile_record env c observed intent r w).1
  unfolding reconcile_record
  reconcile_record-Guarantee c observed none w = Guarantee-of (ground arith) (Guarantee-refl w)
  reconcile_record-Guarantee c observed (some r) w =
      elim (Bool-cases (is_unresolved r.status && is_some (from_positions {F = F} observed))) [
        | inl asked ↦ Guarantee-of (ground arith) (reconcile_unresolved-Guarantee c r w)
        | inr settled ↦ Guarantee-of (ground arith) (Guarantee-refl w)
      ]

  get-IsStep : (key : Text) (s : Store F) → Steps s (get key s).1
  get-IsStep key s = subst (λ t. Steps s t) (sym (get-world key s)) Steps.done

  pub reconcile-Guarantee :
      (looked c : Call) (observed : Option (List (Option Position))) (w : World F)
      → Guarantee w (reconcile env looked c observed intent w).1
  unfolding reconcile
  reconcile-Guarantee looked c observed w =
      let found = call env looked (get (intent_key intent)) w in
      let g : Guarantee w found.1 =
        Guarantee-call env looked (get (intent_key intent)) w fair
          (get-IsStep (intent_key intent)) in
      elim (Result-cases found.0) [
        | inl (r, e) ↦
            Guarantee-of (ground arith)
              (Guarantee-trans w found.1 _ g (reconcile_record-Guarantee c observed r found.1))
        | inr (x, e) ↦ Guarantee-of (ground arith) g
      ]

  pub record_outcome-Guarantee :
      (decision : ExecutionDecision) (outcome : Submission) (w : World F)
      → Guarantee w (record_outcome env intent decision outcome w).1
  unfolding record_outcome
  record_outcome-Guarantee decision (Submission.replied r) w = Guarantee-of (ground arith) (
      transition_intent-Guarantee Call.outcome
        (if is_accepted r.status then IntentRecordStatus.accepted else IntentRecordStatus.rejected)
        (if is_accepted r.status then some r.order_id else none) r.transaction_id w)
  record_outcome-Guarantee decision (Submission.pre_submit_rejected reason) w =
      Guarantee-of (ground arith)
        (transition_intent-Guarantee Call.outcome IntentRecordStatus.rejected none none w)
  record_outcome-Guarantee decision (Submission.failed reason) w =
      transition_intent-Guarantee Call.outcome _ _ _ w
