-- ===== src/Paper/Kept.antt =====
-- What a call of `propose`, `open` or `request_close` of execution/paper_contract.py keeps of the
-- engine.
use jqe.Prelude.{
  ◌≡◌, refl, Bool, true, false, ◌||◌, Option, none, some, [], ◌∷◌, arith, Option-cases, Bool-cases,
  inl, inr, is_some, if◌then◌else◌,
}
use jqe.Text.{Text, text_eq}
use jqe.Text.Laws.{text_eq_iff}
use jqe.Broker.{OrderSide}
use jqe.Risk.{Decimal}
use jqe.Paper.{
  close_requested, Observed, PaperProposal, PaperPosition, PaperClose, Table, find_item, put_item,
  is_closed, Engine, validate_stake, entry_of, valid_levels, proposal_of, same_proposal,
  keep_proposal, propose, contract_of, position_of, open_contract, request_close,
}

pub find_item-put_item :
    {A : Type 0}
    → (k key : Text) (value : A) (t : Table A)
    → find_item k (put_item key value t) ≡ (if text_eq key k then some value else find_item k t)
unfolding find_item put_item
find_item-put_item k key value [] = refl
find_item-put_item k key value (item ∷ items) = ground (
  arith,
  text_eq_iff item.0 key,
  text_eq_iff item.0 k,
  text_eq_iff key k,
  find_item-put_item k key value items,
)

module _ {D : Type 0} where
  -- The engine that a call leaves: the one before, where it raises.
  abbrev pub left : {A : Type 0} → Engine D → Option (A × Engine D) → Engine D
  left e none = e
  left e (some (a, e')) = e'

  abbrev pub has_close : Text → Engine D → Bool
  has_close id e = is_some (find_item id e.closes)

  abbrev pub holds : Text → Engine D → Bool
  holds id e = is_some (find_item id e.positions)

  abbrev pub is_closed_position : Option (PaperPosition D) → Bool
  is_closed_position none = false
  is_closed_position (some p) = is_closed p.state

  -- A position is closed exactly if its close is recorded.
  abbrev pub IsConsistent : Engine D → Type 0
  IsConsistent e = (id : Text) → is_closed_position (find_item id e.positions) ≡ has_close id e

  -- What is true of two engines, the second of which a call leaves of the first.
  pub record IsKept (e e' : Engine D) : Type 0 where
    pub consistent : IsConsistent e → IsConsistent e'
    pub held : (id : Text) → holds id e ≡ true → holds id e' ≡ true
    pub final :
        (id : Text) (c : PaperClose D)
        → find_item id e.closes ≡ some c
        → find_item id e'.closes ≡ some c

  pub IsKept-refl : (e : Engine D) → IsKept e e
  IsKept-refl e = record { consistent = λ h. h; held = λ id h. h; final = λ id c h. h }

  pub IsKept-trans : (e e' e'' : Engine D) → IsKept e e' → IsKept e' e'' → IsKept e e''
  IsKept-trans e e' e'' a b = record {
    consistent = λ h. b.consistent (a.consistent h);
    held = λ id h. b.held id (a.held id h);
    final = λ id c h. b.final id c (a.final id c h);
  }

module _ {D : Type 0} ⦃d : Decimal D⦄ where
  keep_proposal-IsKept :
      (p : PaperProposal D) (e : Engine D) → IsKept e (left e (keep_proposal p e))
  unfolding keep_proposal
  keep_proposal-IsKept p e = elim (Option-cases (find_item p.idempotency_key e.proposals)) [
    | inl fresh ↦
        rw (left, fresh) (record { consistent = λ h. h; held = λ id h. h; final = λ id c h. h })
    | inr (q, found) ↦ elim (Bool-cases (same_proposal q p)) [
      | inl equal ↦ rw (left, found, equal) (IsKept-refl e)
      | inr other ↦ rw (left, found, other) (IsKept-refl e)
    ]
  ]

  pub propose-IsKept :
      (key : Text) (side : OrderSide) (stake stop target : D) (o : Observed D) (price : Option D)
      (e : Engine D)
      → IsKept e (left e (propose key side stake stop target o price e))
  unfolding propose
  propose-IsKept key side stake stop target o price e =
      elim (Bool-cases (validate_stake stake e.specification)) [
        | inr bad ↦ rw (left, bad) (IsKept-refl e)
        | inl good ↦ elim (Option-cases (entry_of price o)) [
          | inl absent ↦ rw (left, good, absent) (IsKept-refl e)
          | inr (entry, found) ↦ elim (Bool-cases (valid_levels side stop entry target)) [
            | inr bad ↦ rw (left, good, found, bad) (IsKept-refl e)
            | inl fits ↦
                rw (left, good, found, fits)
                  (keep_proposal-IsKept
                    (proposal_of key side stake entry stop target o e.specification) e)
          ]
        ]
      ]

  pub open_contract-IsKept :
      (p : PaperProposal D) (e : Engine D) → IsKept e (left e (open_contract p e))
  unfolding open_contract
  open_contract-IsKept p e =
      let key = contract_of p.idempotency_key in
      elim (Option-cases (find_item key e.positions)) [
        | inr (q, found) ↦ rw (left, found) (IsKept-refl e)
        | inl fresh ↦
            rw (left, fresh)
              (record {
                consistent = λ h id.
                    unfold position_of in
                    ground (
                      arith,
                      h id,
                      text_eq_iff key id,
                      find_item-put_item id key (position_of p) e.positions,
                    );
                held =
                    λ id h. ground (arith, find_item-put_item id key (position_of p) e.positions);
                final = λ id c h. h;
              })
      ]

  pub request_close-IsKept : (id : Text) (e : Engine D) → IsKept e (left e (request_close id e))
  unfolding request_close
  request_close-IsKept id e = elim (Option-cases (find_item id e.positions)) [
    | inl absent ↦ rw (left, absent) (IsKept-refl e)
    | inr (p, found) ↦ elim (Bool-cases (has_close id e || p.is_close_requested)) [
      | inl refused ↦ rw (left, found, refused) (IsKept-refl e)
      | inr goes ↦
          let updated = record p { is_close_requested = true; state = close_requested } in
          rw (left, found, goes)
            (record {
              consistent = λ h other. ground (
                arith,
                h id,
                h other,
                text_eq_iff id other,
                find_item-put_item other id updated e.positions,
              );
              held = λ other h. ground (arith, find_item-put_item other id updated e.positions);
              final = λ other c h. h;
            })
    ]
  ]
