-- ===== src/Policy/Monotone.antt =====
-- `evaluate` of execution/policy.py beside more positions and more used keys.
use jqe.Prelude.{
  ℕ, ◌≤◌, ◌≡◌, refl, Bool, true, false, pos, some, List, [], ◌∷◌, ◌++◌, all, length, length-append,
  any-append, arith, Option,
}
use jqe.Text.{Text, normalize}
use jqe.Number.{Float, IsOrdered, int}
use jqe.Value.{Value, chars, num, is_nonblank, has_text, is_int_from}
use jqe.Policy.{
  ExecutionIntent, ExecutionContext, PositionSnapshot, evaluate, context_valid,
  deployment_authorized, unit_matches, value_le, same_symbol_open, key_used, names_symbol,
  valid_position_snapshot,
}
use jqe.Policy.Allowed.{IsAuthorized, WithinLimits, evaluate-allowed_iff}

all-append_left {ℓ} :
    {A : Type ℓ} (p : A → Bool) (xs ys : List A) → all p (xs ++ ys) ≡ true → all p xs ≡ true
all-append_left p [] ys h = refl
all-append_left p (x ∷ xs) ys h = ground (arith, all-append_left p xs ys)

module _ {F : Type 0} where
  has_text-append :
      (t : Text) (vs ws : List (Value F)) → has_text t (vs ++ ws) ≡ false → has_text t vs ≡ false
  has_text-append t [] ws h = refl
  has_text-append t (v ∷ vs) ws h = ground (arith, has_text-append t vs ws)

module _ {F : Type 0} ⦃o : Float F⦄ (laws : IsOrdered F) where
  -- A limit that is an `int` and is not reached by a count is not reached by a smaller one.
  value_le_mono :
      (limit : Value F) (m n : ℕ)
      → is_int_from (pos 1) limit ≡ true
      → m ≤ n
      → value_le limit (num (int (pos n))) ≡ false
      → value_le limit (num (int (pos m))) ≡ false
  value_le_mono (num (int k)) m n valid le h =
      ground (arith, laws.le_int k (pos m), laws.le_int k (pos n))
  value_le_mono _ m n valid le h = cc

module _ {F : Type 0} ⦃o : Float F⦄ where
  -- The context with these open positions and these used keys.
  abbrev pub observing :
      ExecutionContext F → List (Option (PositionSnapshot F)) → List (Value F) → ExecutionContext F
  observing c ps ks = record c { open_positions = some ps; used_idempotency_keys = some ks }

  module _ (laws : IsOrdered F) (intent : ExecutionIntent F) (context : ExecutionContext F)
      (ps qs : List (Option (PositionSnapshot F))) (ks ls : List (Value F)) where
    context_valid-observing :
        context_valid intent (observing context (ps ++ qs) (ks ++ ls)) ≡ true
        → context_valid intent (observing context ps ks) ≡ true
    unfolding context_valid
    context_valid-observing h =
        ground
          (arith, all-append_left valid_position_snapshot ps qs, all-append_left is_nonblank ks ls)

    limit-IsInt :
        context_valid intent (observing context ps ks) ≡ true
        → is_int_from (pos 1) context.max_open_positions ≡ true
    unfolding context_valid
    limit-IsInt h = ground arith

    WithinLimits-observing :
        context_valid intent (observing context ps ks) ≡ true
        → WithinLimits intent (observing context (ps ++ qs) (ks ++ ls))
        → WithinLimits intent (observing context ps ks)
    unfolding same_symbol_open key_used
    WithinLimits-observing valid h = record {
      loss = h.loss;
      trades = h.trades;
      positions =
          value_le_mono laws context.max_open_positions (length ps) (length (ps ++ qs))
            (limit-IsInt valid) (omega (arith, length-append ps qs)) h.positions;
      symbol = ground (arith, any-append (names_symbol (normalize (chars intent.symbol))) ps qs);
      key = has_text-append (chars intent.idempotency_key) ks ls h.key;
    }

    IsAuthorized-observing :
        IsAuthorized intent (observing context (ps ++ qs) (ks ++ ls))
        → IsAuthorized intent (observing context ps ks)
    unfolding deployment_authorized unit_matches
    IsAuthorized-observing h =
        let valid = context_valid-observing h.deployed.valid in
        record {
          deployed = record {
            running = h.deployed.running;
            approved = h.deployed.approved;
            valid = valid;
            deployment = h.deployed.deployment;
            authoritative = h.deployed.authoritative;
          };
          quantity = record {
            verified = h.quantity.verified;
            present = h.quantity.present;
            unit = h.quantity.unit;
            risk = h.quantity.risk;
            loss = h.quantity.loss;
            bounded = h.quantity.bounded;
          };
          levels = record {
            entry = h.levels.entry;
            stop_loss = h.levels.stop_loss;
            take_profit = h.levels.take_profit;
            protected = h.levels.protected;
          };
          limits = WithinLimits-observing valid h.limits;
        }

    -- An intent that is allowed beside some positions and used keys is allowed beside fewer: with
    -- more open positions or more used keys `evaluate` never becomes more permissive. Two `int`s
    -- compare as integers.
    pub evaluate_antitone :
        (evaluate intent (some (observing context (ps ++ qs) (ks ++ ls)))).allowed ≡ true
        → (evaluate intent (some (observing context ps ks))).allowed ≡ true
    evaluate_antitone h = (evaluate-allowed_iff intent (observing context ps ks)).1 (
        IsAuthorized-observing
          ((evaluate-allowed_iff intent (observing context (ps ++ qs) (ks ++ ls))).0 h))
