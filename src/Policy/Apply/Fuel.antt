-- ===== src/Policy/Apply/Fuel.antt =====
-- The fuel of the loop over the operators is enough for every policy.
use fedservice.Policy.Apply.Loop.{
  run_essential, run_superset_of, run_subset_of, run_one_of, run_default, stage,
  apply_claim-eq-run_value, run_add, run_value,
}
use fedservice.Value.{
  null, str, num, nil, bool, object, atom, array, cons, Items, singleton, atoms, contained_in,
  to_set,
}
use fedservice.Prelude.{
  inr, inl, Bool-cases, String, ◌≢◌, none, some, arith, ok, raised, Result, List, [], ◌∷◌,
  out_of_fuel, ◌>>=◌,
}
use fedservice.Policy.Combine.{set_or_singleton, MetadataPolicy, Metadata}
use fedservice.Policy.Operators.{
  essential, superset_of, subset_of, one_of, default, new_operator, add, value, OperatorKind,
  operator_value, construct_evaluation_sequence, call,
}
use fedservice.Policy.Apply.{
  keys, name_of, has_key, Outcome, is_empty, Value, Rules, apply_policy, apply_claim, claim_policy,
  apply_claims, apply_metadata_policy,
}

-- Neither the sets nor `in` runs out of anything.
atoms-ne-out_of_fuel : (xs : Items) → atoms xs ≢ raised out_of_fuel
unfolding atoms
atoms-ne-out_of_fuel nil h = cc
atoms-ne-out_of_fuel (cons (atom a) xs) h = ground (arith, atoms-ne-out_of_fuel xs)
atoms-ne-out_of_fuel (cons (array ys) xs) h = cc
atoms-ne-out_of_fuel (cons (object fs) xs) h = cc

to_set-ne-out_of_fuel : (v : Value) → to_set v ≢ raised out_of_fuel
unfolding to_set
to_set-ne-out_of_fuel (array xs) h = ground (arith, atoms-ne-out_of_fuel xs)
to_set-ne-out_of_fuel (object fs) h = cc
to_set-ne-out_of_fuel (atom null) h = cc
to_set-ne-out_of_fuel (atom (bool b)) h = cc
to_set-ne-out_of_fuel (atom (num n)) h = cc
to_set-ne-out_of_fuel (atom (str s)) h = cc

contained_in-ne-out_of_fuel : (v w : Value) → contained_in v w ≢ raised out_of_fuel
unfolding contained_in
contained_in-ne-out_of_fuel v w h = ground arith

set_or_singleton-ne-out_of_fuel : (v : Value) → set_or_singleton v ≢ raised out_of_fuel
unfolding set_or_singleton singleton
set_or_singleton-ne-out_of_fuel v h = ground (arith, to_set-ne-out_of_fuel v)

operator_value-ne-out_of_fuel :
    (k : OperatorKind) (claim : String) (policy : MetadataPolicy)
    → operator_value k claim policy ≢ raised out_of_fuel
unfolding operator_value
operator_value-ne-out_of_fuel k claim policy h = ground arith

ruleset sets_end = (
  to_set-ne-out_of_fuel, contained_in-ne-out_of_fuel, set_or_singleton-ne-out_of_fuel,
  operator_value-ne-out_of_fuel,
)

bind-ne-out_of_fuel :
    {A B : Type 0} (m : Result A) (f : A → Result B)
    → m ≢ raised out_of_fuel
    → ((a : A) → f a ≢ raised out_of_fuel)
    → (m >>= f) ≢ raised out_of_fuel
bind-ne-out_of_fuel (ok a) f hm hf h = hf a h
bind-ne-out_of_fuel (raised e) f hm hf h = hm (ground arith)

call-ne-out_of_fuel :
    (k : OperatorKind) (next claim : String) (metadata : Metadata) (policy : MetadataPolicy)
    → call (record { kind = k; next = next }) claim metadata policy ≢ raised out_of_fuel
unfolding call
call-ne-out_of_fuel value next claim metadata policy h = grind (arith, sets_end)
call-ne-out_of_fuel add next claim metadata policy h = grind (arith, sets_end)
call-ne-out_of_fuel default next claim metadata policy h = grind (arith, sets_end)
call-ne-out_of_fuel one_of next claim metadata policy h = grind (arith, sets_end)
call-ne-out_of_fuel subset_of next claim metadata policy h = grind (arith, sets_end)
call-ne-out_of_fuel superset_of next claim metadata policy h = grind (arith, sets_end)
call-ne-out_of_fuel essential next claim metadata policy h = grind (arith, sets_end)

module _ (claim : String) (policy : MetadataPolicy) where
  abbrev Ends : (Metadata → Result Metadata) → Type 0
  Ends f = (m : Metadata) → f m ≢ raised out_of_fuel

  stage-Ends :
      (k : OperatorKind) (jumped onward : Metadata → Result Metadata)
      → Ends jumped
      → Ends onward
      → Ends (stage (new_operator k "") claim policy jumped onward)
  stage-Ends k jumped onward ej eo m =
      elim (Bool-cases (has_key (name_of k) (claim_policy claim policy))) [
        | inl has ↦ rw has (
            bind-ne-out_of_fuel (call (new_operator k "") claim m policy) _
              (call-ne-out_of_fuel k _ claim m policy) follow)
        | inr not ↦ rw not (eo m)
      ]
    where
      follow :
          (out : Outcome)
          → (let (n, mid) = out in elim n [ none ↦ onward mid | some x ↦ jumped mid ])
            ≢ raised out_of_fuel
      follow (none, mid) = eo mid
      follow (some x, mid) = ej mid

  run_value-Ends : Ends (run_value claim policy)
  unfolding run_value run_add run_default run_one_of run_subset_of run_superset_of run_essential
  run_value-Ends =
      let done : Ends ok = λ m h. cc in
      let ess = stage-Ends essential ok ok done done in
      let sup = stage-Ends superset_of _ _ ess ess in
      let sub = stage-Ends subset_of _ _ sup sup in
      let one = stage-Ends one_of _ _ ess sub in
      let def = stage-Ends default _ _ one one in
      let plus = stage-Ends add _ _ def def in stage-Ends value _ _ ess plus

apply_claims-Ends :
    (claims : List String) (metadata : Metadata) (policy : MetadataPolicy)
    → apply_claims claims metadata policy construct_evaluation_sequence ≢ raised out_of_fuel
unfolding apply_claims
apply_claims-Ends [] metadata policy = λ h. cc
apply_claims-Ends (claim ∷ claims) metadata policy =
    bind-ne-out_of_fuel (apply_claim 8 construct_evaluation_sequence claim policy 0 metadata) _
      (rw apply_claim-eq-run_value (run_value-Ends claim policy metadata))
      (λ changed. apply_claims-Ends claims changed policy)

-- The loop over the operators always ends: with the standard operators, applying a policy gives
-- metadata or an exception of the program, for every metadata and every policy.
pub apply_policy-ne-out_of_fuel :
    (metadata : Metadata) (policy : Rules) → apply_policy metadata policy ≢ raised out_of_fuel
unfolding apply_policy apply_metadata_policy
apply_policy-ne-out_of_fuel metadata policy h =
    elim (Bool-cases (is_empty policy.metadata_policy)) [
      | inl none_stated ↦ ground arith
      | inr stated ↦
          apply_claims-Ends (keys policy.metadata_policy) _ policy.metadata_policy (rw stated at h)
    ]
