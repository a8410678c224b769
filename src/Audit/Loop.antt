-- ===== src/Audit/Loop.antt =====
-- The loop of `ContinuousTerminalReconciliationService` in execution/continuous_reconciliation.py.
use jqe.Prelude.{
  ◌≡◌, ◌⊎◌, refl, Bool, true, false, not, ◌||◌, List, [], ◌∷◌, any, arith, Bool-cases, Option-cases,
  inl, inr, Any, All,
}
use jqe.Text.{Text}
use jqe.Number.{Float}
use jqe.Audit.{
  AuditReconciliationReport, audit, Monitor, Round, protect, reconcile_and_protect, run_rounds,
  run_loop,
}

module _ {F : Type 0} where
  -- All reports but the last are clean.
  abbrev pub IsHalted : List (AuditReconciliationReport F) → Type 0
  IsHalted [] = Unit
  IsHalted (r ∷ rs) = ((r.is_clean ≡ true) ⊎ (rs ≡ [])) × IsHalted rs

  abbrev pub any_breach : List (AuditReconciliationReport F) → Bool
  any_breach rs = any (λ r. not r.is_clean) rs

  -- Neither a stop event nor a call of `stop` ends the round.
  abbrev pub IsUndisturbed : Round F → Type 0
  IsUndisturbed round = (round.stop_event ≡ false) × (round.stopped ≡ false)

module _ {F : Type 0} ⦃o : Float F⦄ where
  -- The audit of the round is not clean.
  abbrev pub IsBreach : Round F → Type 0
  IsBreach round = (audit round.sources round.positions round.now).is_clean ≡ false

  audit-stop_tripped :
      (round : Round F) → (audit round.sources round.positions round.now).stop_tripped ≡ false
  unfolding audit
  audit-stop_tripped round = elim (Option-cases round.positions) [
    | inl h ↦ ground arith
    | inr (items, h) ↦ ground arith
  ]

  reconcile_and_protect-report :
      (environment : Text) (round : Round F) (m : Monitor F)
      → ((reconcile_and_protect environment round m).0.is_clean
          ≡ (audit round.sources round.positions round.now).is_clean)
        × ((reconcile_and_protect environment round m).0.stop_tripped
            ≡ not (audit round.sources round.positions round.now).is_clean)
        × ((reconcile_and_protect environment round m).1.emergency_stop_latched ≡ (
            m.emergency_stop_latched
            || not (audit round.sources round.positions round.now).is_clean))
  unfolding reconcile_and_protect protect
  reconcile_and_protect-report environment round m =
      let untripped = audit-stop_tripped round in
      elim (Bool-cases (audit round.sources round.positions round.now).is_clean) [
        | inl clean ↦ (ground arith, ground arith, ground arith)
        | inr breach ↦ (ground arith, ground arith, ground arith)
      ]

  run_rounds-IsHalted :
      (environment : Text) (rounds : List (Round F)) (m : Monitor F)
      → IsHalted (run_rounds environment rounds m).0
        × ((run_rounds environment rounds m).1.emergency_stop_latched
            ≡ (m.emergency_stop_latched || any_breach (run_rounds environment rounds m).0))
        × ((run_rounds environment rounds m).1.running ≡ false)
  unfolding run_rounds reconcile_and_protect
  run_rounds-IsHalted environment [] m = (tt, ground arith, refl)
  run_rounds-IsHalted environment (round ∷ rounds) m =
      let (clean, tripped, latched) = reconcile_and_protect-report environment round m in
      let (halted, later, stopped) =
        run_rounds-IsHalted environment rounds (reconcile_and_protect environment round m).1 in
      elim (Bool-cases round.stop_event) [
        | inl ended ↦ rw ended (tt, ground arith, refl)
        | inr goes ↦ elim (Bool-cases (reconcile_and_protect environment round m).0.stop_tripped) [
          | inl trips ↦ rw (goes, trips) ((inr refl, tt), ground arith, refl)
          | inr quiet ↦ elim (Bool-cases round.stopped) [
            | inl stops ↦ rw (goes, quiet, stops) ((inr refl, tt), ground arith, refl)
            | inr on ↦ rw (goes, quiet, on) ((inl (ground arith), halted), ground arith, stopped)
          ]
        ]
      ]

  -- Over any rounds, the loop ends behind the first report that is not clean: all but the last of
  -- its reports are clean. Behind the loop the emergency stop is latched exactly if it was latched
  -- before or one of the reports is not clean, and the service is not running.
  pub run_loop-IsHalted :
      (environment : Text) (rounds : List (Round F)) (m : Monitor F)
      → IsHalted (run_loop environment rounds m).0
        × ((run_loop environment rounds m).1.emergency_stop_latched
            ≡ (m.emergency_stop_latched || any_breach (run_loop environment rounds m).0))
        × ((run_loop environment rounds m).1.running ≡ false)
  unfolding run_loop
  run_loop-IsHalted environment rounds m =
      run_rounds-IsHalted environment rounds (record m { running = true })

  run_rounds-breach :
      (environment : Text) (rounds : List (Round F)) (m : Monitor F)
      → All IsUndisturbed rounds
      → Any IsBreach rounds
      → any_breach (run_rounds environment rounds m).0 ≡ true
  unfolding run_rounds
  run_rounds-breach environment [] m calm e = elim e [ ]
  run_rounds-breach environment (round ∷ rounds) m (first, calm) (inl breach) =
      let (clean, tripped, latched) = reconcile_and_protect-report environment round m in
      ground arith
  run_rounds-breach environment (round ∷ rounds) m (first, calm) (inr later) =
      let (clean, tripped, latched) = reconcile_and_protect-report environment round m in
      let rest =
        run_rounds-breach environment rounds (reconcile_and_protect environment round m).1 calm
          later in
      ground arith

  run_loop-breach :
      (environment : Text) (rounds : List (Round F)) (m : Monitor F)
      → All IsUndisturbed rounds
      → Any IsBreach rounds
      → any_breach (run_loop environment rounds m).0 ≡ true
  unfolding run_loop
  run_loop-breach environment rounds m calm breach =
      run_rounds-breach environment rounds (record m { running = true }) calm breach

  -- If neither a stop event nor a call of `stop` ends the loop and the audit of some round is not
  -- clean, then the loop latches the emergency stop.
  pub run_loop-latched :
      (environment : Text) (rounds : List (Round F)) (m : Monitor F)
      → All IsUndisturbed rounds
      → Any IsBreach rounds
      → (run_loop environment rounds m).1.emergency_stop_latched ≡ true
  run_loop-latched environment rounds m calm breach = ground (
    arith,
    (run_loop-IsHalted environment rounds m).1,
    run_loop-breach environment rounds m calm breach,
  )
