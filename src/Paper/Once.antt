-- ===== src/Paper/Once.antt =====
-- One contract for each key at the paper venue of execution/paper_contract.py.
use jqe.Prelude.{
  ◌≡◌, subst, true, Option, none, some, List, arith, Option-cases, Bool-cases, inl, inr,
}
use jqe.Text.{Text}
use jqe.Text.Laws.{text_eq_iff}
use jqe.Broker.{OrderSide}
use jqe.Number.{Float}
use jqe.Risk.{Decimal}
use jqe.Paper.{
  Observed, PaperProposal, PaperPosition, find_item, Engine, entry_of, proposal_of, same_proposal,
  keep_proposal, propose, contract_of, position_of, open_contract, submit_order,
}
use jqe.Paper.Kept.{holds, left, IsKept, propose-IsKept, find_item-put_item}
use jqe.Paper.Final.{Call, call_all, call_all-IsKept}

module _ {D : Type 0} ⦃d : Decimal D⦄ where
  keep_proposal-key :
      (p q : PaperProposal D) (e e' : Engine D)
      → keep_proposal p e ≡ some (q, e')
      → q.idempotency_key ≡ p.idempotency_key
  unfolding keep_proposal same_proposal
  keep_proposal-key p q e e' h = elim (Option-cases (find_item p.idempotency_key e.proposals)) [
    | inl fresh ↦ ground arith
    | inr (x, found) ↦ elim (Bool-cases (same_proposal x p)) [
      | inl equal ↦ ground (arith, text_eq_iff x.idempotency_key p.idempotency_key)
      | inr other ↦ absurd (ground arith)
    ]
  ]

  propose-key :
      (key : Text) (side : OrderSide) (stake stop target : D) (o : Observed D) (price : Option D)
      (e e' : Engine D) (q : PaperProposal D)
      → propose key side stake stop target o price e ≡ some (q, e')
      → q.idempotency_key ≡ key
  unfolding propose proposal_of
  propose-key key side stake stop target o price e e' q h = elim (Option-cases (entry_of price o)) [
    | inl absent ↦ absurd (ground arith)
    | inr (entry, found) ↦
        let p = proposal_of key side stake entry stop target o e.specification in
        keep_proposal-key p q e e' (ground arith)
  ]

  open_contract-holds :
      (p : PaperProposal D) (e : Engine D)
      → holds (contract_of p.idempotency_key) (left e (open_contract p e)) ≡ true
  unfolding open_contract
  open_contract-holds p e =
      let key = contract_of p.idempotency_key in
      elim (Bool-cases (holds key e)) [
        | inl there ↦ ground arith
        | inr fresh ↦
            ground
              (arith, text_eq_iff key key, find_item-put_item key key (position_of p) e.positions)
      ]

  -- A submission that succeeds leaves its contract.
  submit_order-holds :
      (key symbol : Text) (side : OrderSide) (stake stop target : D) (o : Observed D)
      (price : Option D) (risk : D) (e : Engine D) (position : PaperPosition D)
      → (submit_order key symbol side stake stop target o price risk e).0 ≡ some position
      → holds (contract_of key) (submit_order key symbol side stake stop target o price risk e).1
        ≡ true
  unfolding submit_order
  submit_order-holds key symbol side stake stop target o price risk e position h =
      elim (Option-cases (propose key side stake stop target o price e)) [
        | inl refused ↦ absurd (ground arith)
        | inr ((p, e'), made) ↦
            let same = propose-key key side stake stop target o price e e' p made in
            let there = open_contract-holds p e' in
            elim (Option-cases (open_contract p e')) [
              | inl refused ↦ absurd (ground arith)
              | inr ((position', e''), opened) ↦ ground arith
            ]
      ]

  -- Under the key of a contract nothing is submitted.
  submit_order-refused :
      (key symbol : Text) (side : OrderSide) (stake stop target : D) (o : Observed D)
      (price : Option D) (risk : D) (e : Engine D)
      → holds (contract_of key) e ≡ true
      → (submit_order key symbol side stake stop target o price risk e).0 ≡ none
  unfolding submit_order open_contract
  submit_order-refused key symbol side stake stop target o price risk e h =
      elim (Option-cases (propose key side stake stop target o price e)) [
        | inl refused ↦ ground arith
        | inr ((p, e'), made) ↦
            let same = propose-key key side stake stop target o price e e' p made in
            let kept =
              subst (λ r. IsKept e (left e r)) made
                (propose-IsKept key side stake stop target o price e) in
            let there = kept.held (contract_of key) h in ground arith
      ]

module _ {F D : Type 0} ⦃float_ops : Float F⦄ ⦃d : Decimal D⦄ where
  -- A key opens one contract: after a submission that returns a position, and any further calls of
  -- the engine and of its gateway, every submission under the same key raises, whatever its order,
  -- its observation and its risk are.
  pub submit_order-once :
      (key symbol symbol' : Text) (side side' : OrderSide)
      (stake stop target risk stake' stop' target' risk' : D) (o o' : Observed D)
      (price price' : Option D) (e : Engine D) (position : PaperPosition D) (cs : List (Call F D))
      → (submit_order key symbol side stake stop target o price risk e).0 ≡ some position
      → (submit_order key symbol' side' stake' stop' target' o' price' risk'
          (call_all cs (submit_order key symbol side stake stop target o price risk e).1)).0
        ≡ none
  submit_order-once key symbol symbol' side side' stake stop target risk stake' stop' target' risk'
        o o' price price' e position cs h =
      let e' = (submit_order key symbol side stake stop target o price risk e).1 in
      submit_order-refused key symbol' side' stake' stop' target' o' price' risk' (call_all cs e') (
        (call_all-IsKept cs e').held (contract_of key)
          (submit_order-holds key symbol side stake stop target o price risk e position h))
