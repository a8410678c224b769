-- ===== src/Risk/Registry.antt =====
-- The registry of risk/simulation_contract.py as a predicate on identities.
use jqe.Prelude.{
  ◌≡◌, refl, Bool, true, not, ◌&&◌, ◌||◌, ℤ, none, some, List, [], ◌∷◌, any, filter, arith,
  Bool-cases, inl, inr,
}
use jqe.Text.Laws.{text_eq_iff}
use jqe.Risk.{
  SimulationLossModelProof, SimulationProofRegistry, Identity, identity, same_identity, same_int,
  is_verified, registered, register, unregister,
}

-- A call of the registry's methods.
pub data Change : Type 0 where
  registers unregisters : SimulationLossModelProof → Change

-- A call's effect; a `register` that raises leaves the registry.
unfoldable pub change : Change → SimulationProofRegistry → SimulationProofRegistry
change (registers p) r = elim (register p r) [ none ↦ r | some r' ↦ r' ]
change (unregisters p) r = unregister p r

unfoldable pub change_all : List Change → SimulationProofRegistry → SimulationProofRegistry
change_all [] r = r
change_all (c ∷ cs) r = change_all cs (change c r)

-- What the calls make of the membership of one identity: the last call about it decides, and a
-- registration of a proof that is not verified is none.
abbrev pub decides : Identity → Change → Bool → Bool
decides i (registers p) b = (is_verified p.state && same_identity i (identity p)) || b
decides i (unregisters p) b = not (same_identity i (identity p)) && b

abbrev pub decides_all : Identity → List Change → Bool → Bool
decides_all i [] b = b
decides_all i (c ∷ cs) b = decides_all i cs (decides i c b)

int_trans : (a b c : ℤ) → same_int a b ≡ true → same_int a c ≡ same_int b c
int_trans a b c h = ground arith

-- Equal identities are the same for every third.
same_identity-cong :
    (a b c : Identity) → same_identity a b ≡ true → same_identity a c ≡ same_identity b c
unfolding same_identity
same_identity-cong a b c h =
    ground (arith, text_eq_iff a.0 b.0, text_eq_iff a.2 b.2, int_trans a.1 b.1 c.1)

registered-unregister :
    (i j : Identity) (is : List Identity)
    → any (same_identity i) (filter (λ k. not (same_identity k j)) is)
      ≡ (not (same_identity i j) && any (same_identity i) is)
registered-unregister i j [] = ground arith
registered-unregister i j (k ∷ is) =
    ground (arith, registered-unregister i j is, same_identity-cong i k j)

registered-change :
    (i : Identity) (c : Change) (r : SimulationProofRegistry)
    → registered i (change c r) ≡ decides i c (registered i r)
unfolding change register unregister
registered-change i (registers p) r = elim (Bool-cases (is_verified p.state)) [
  | inl h1 ↦ ground arith
  | inr h0 ↦ ground arith
]
registered-change i (unregisters p) r = registered-unregister i (identity p) r.identities

-- Over any sequence of registrations and removals, an identity is registered in the end exactly if
-- the last verified registration or removal of that identity was a registration, or there was none
-- and it was registered before.
pub registered-change_all :
    (i : Identity) (cs : List Change) (r : SimulationProofRegistry)
    → registered i (change_all cs r) ≡ decides_all i cs (registered i r)
unfolding change_all
registered-change_all i [] r = refl
registered-change_all i (c ∷ cs) r =
    ground (arith, registered-change_all i cs (change c r), registered-change i c r)
