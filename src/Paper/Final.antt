-- ===== src/Paper/Final.antt =====
-- What any calls of the paper venue of execution/paper_contract.py leave of its contracts.
use jqe.Prelude.{
  ℕ, ◌≡◌, subst, Bool, Option, none, some, List, [], ◌∷◌, leb, Option-cases, Bool-cases, inl, inr,
  if◌then◌else◌,
}
use jqe.Number.{Float}
use jqe.Value.{Value, chars}
use jqe.Policy.{ExecutionIntent, ExecutionContext, evaluate}
use jqe.Text.{Text, text_eq, normalize}
use jqe.Broker.{OrderSide}
use jqe.Risk.{Decimal}
use jqe.Paper.{
  terms_of, within_intent, authorize_and_propose, Observed, PaperProposal, PaperClose, find_item,
  Engine, propose, open_contract, request_close, observe, replay, submit_order,
}
use jqe.Paper.Watched.{observe-IsKept, replay-IsKept}
use jqe.Paper.Kept.{
  left, IsConsistent, IsKept, IsKept-refl, IsKept-trans, propose-IsKept, open_contract-IsKept,
  request_close-IsKept,
}

-- A call of a method of the engine or of its gateway.
pub data Call (F D : Type 0) : Type 0 where
  proposes : Text → OrderSide → D → D → D → Observed D → Option D → Call F D
  opens : PaperProposal D → Call F D
  requests : Text → Call F D
  observes : Text → Observed D → Bool → Bool → Call F D
  replays : Text → List (Observed D) → Bool → Call F D
  submits : Text → Text → OrderSide → D → D → D → Observed D → Option D → D → Call F D
  authorizes :
      (Value F → Option D) → ExecutionIntent F → ExecutionContext F → Observed D → ℕ → Call F D

module _ {D : Type 0} ⦃d : Decimal D⦄ where
  submit_order-IsKept :
      (key symbol : Text) (side : OrderSide) (stake stop target : D) (o : Observed D)
      (price : Option D) (risk : D) (e : Engine D)
      → IsKept e (submit_order key symbol side stake stop target o price risk e).1
  unfolding submit_order
  submit_order-IsKept key symbol side stake stop target o price risk e =
      elim (Bool-cases (text_eq (normalize symbol) (normalize o.canonical_symbol))) [
        | inr wrong ↦ rw wrong (IsKept-refl e)
        | inl right ↦ elim (Option-cases (propose key side stake stop target o price e)) [
          | inl refused ↦ rw (right, refused) (IsKept-refl e)
          | inr ((p, e'), made) ↦
              let proposed : IsKept e e' =
                subst (λ r. IsKept e (left e r)) made
                  (propose-IsKept key side stake stop target o price e) in
              elim (Bool-cases (d.lt risk p.maximum_loss)) [
                | inl above ↦ rw (right, made, above) proposed
                | inr within ↦ elim (Option-cases (open_contract p e')) [
                  | inl there ↦ rw (right, made, within, there) proposed
                  | inr ((position, e''), opened) ↦
                      rw (right, made, within, opened)
                        (IsKept-trans e e' e'' proposed
                          (subst (λ r. IsKept e' (left e' r)) opened (open_contract-IsKept p e')))
                ]
              ]
        ]
      ]

module _ {F D : Type 0} ⦃float_ops : Float F⦄ ⦃d : Decimal D⦄ where
  unfoldable pub call : Call F D → Engine D → Engine D
  call (proposes key side stake stop target o price) e =
      left e (propose key side stake stop target o price e)
  call (opens p) e = left e (open_contract p e)
  call (requests id) e = left e (request_close id e)
  call (observes id o by_strategy force) e = left e (observe id o by_strategy force e)
  call (replays id os force) e = (replay id os force e).2
  call (submits key symbol side stake stop target o price risk) e =
      (submit_order key symbol side stake stop target o price risk e).1
  call (authorizes read intent context observation observed_at) e =
      (authorize_and_propose read intent context observation observed_at e).1

  unfoldable pub call_all : List (Call F D) → Engine D → Engine D
  call_all [] e = e
  call_all (c ∷ cs) e = call_all cs (call c e)

  authorize_and_propose-IsKept :
      (read : Value F → Option D) (intent : ExecutionIntent F) (context : ExecutionContext F)
      (o : Observed D) (observed_at : ℕ) (e : Engine D)
      → IsKept e (authorize_and_propose read intent context o observed_at e).1
  unfolding authorize_and_propose
  authorize_and_propose-IsKept read intent context o observed_at e =
      let key = chars intent.idempotency_key in
      elim (Bool-cases (evaluate intent (some context)).allowed) [
        | inr blocked ↦ rw blocked (IsKept-refl e)
        | inl approved ↦
            elim (Bool-cases
              (text_eq (normalize (chars intent.symbol)) (normalize o.canonical_symbol))) [
                | inr wrong ↦ rw (approved, wrong) (IsKept-refl e)
                | inl right ↦ elim (Bool-cases (leb o.closed_at observed_at)) [
                  | inr early ↦ rw (approved, right, early) (IsKept-refl e)
                  | inl past ↦ elim (Option-cases (terms_of read intent)) [
                    | inl bad ↦ rw (approved, right, past, bad) (IsKept-refl e)
                    | inr (t, made) ↦
                        rw (approved, right, past, made)
                          (proposed_after
                            (propose key t.side t.stake t.stop_loss t.take_profit o none e)
                            (propose-IsKept key t.side t.stake t.stop_loss t.take_profit o none e))
                  ]
                ]
              ]
      ]
    where
      proposed_after :
          (r : Option (PaperProposal D × Engine D))
          → IsKept e (left e r)
          → IsKept e
              (elim r as (λ x. Option (PaperProposal D) × Engine D) [
                | none ↦ (none, e)
                | some (p, e') ↦ (if within_intent read intent p then some p else none, e')
              ]).1
      proposed_after none kept = kept
      proposed_after (some (p, e')) kept = kept

  call-IsKept : (c : Call F D) (e : Engine D) → IsKept e (call c e)
  unfolding call
  call-IsKept (proposes key side stake stop target o price) e =
      propose-IsKept key side stake stop target o price e
  call-IsKept (opens p) e = open_contract-IsKept p e
  call-IsKept (requests id) e = request_close-IsKept id e
  call-IsKept (observes id o by_strategy force) e = observe-IsKept id o by_strategy force e
  call-IsKept (replays id os force) e = replay-IsKept id os force e
  call-IsKept (submits key symbol side stake stop target o price risk) e =
      submit_order-IsKept key symbol side stake stop target o price risk e
  call-IsKept (authorizes read intent context observation observed_at) e =
      authorize_and_propose-IsKept read intent context observation observed_at e

  pub call_all-IsKept : (cs : List (Call F D)) (e : Engine D) → IsKept e (call_all cs e)
  unfolding call_all
  call_all-IsKept [] e = IsKept-refl e
  call_all-IsKept (c ∷ cs) e =
      IsKept-trans e (call c e) (call_all cs (call c e)) (call-IsKept c e)
        (call_all-IsKept cs (call c e))

  -- Over any sequence of calls of the engine and of its gateway, those that raise included, the
  -- recorded close of a contract stays as it is.
  pub call_all-final :
      (cs : List (Call F D)) (e : Engine D) (id : Text) (c : PaperClose D)
      → find_item id e.closes ≡ some c
      → find_item id (call_all cs e).closes ≡ some c
  call_all-final cs e id c h = (call_all-IsKept cs e).final id c h

  -- Where a position is closed exactly if its close is recorded, that is still so after any sequence
  -- of calls of the engine and of its gateway, those that raise included.
  pub call_all-IsConsistent :
      (cs : List (Call F D)) (e : Engine D) → IsConsistent e → IsConsistent (call_all cs e)
  call_all-IsConsistent cs e h = (call_all-IsKept cs e).consistent h
