-- ===== src/Policy/Apply/Effects.antt =====
-- What the loop over the operators leaves in a claim: triples over the stages.
use fedservice.Prelude.{
  subst, String, ◌≡◌, ◌≢◌, Option, none, some, arith, ok, Result, true, false, inl, inr, Bool-cases,
  >>=-eq-ok,
}
use fedservice.Prelude.Dict.{lookup, has_key, insert, lookup-insert, has_key-eq-lookup}
use fedservice.Value.{Value, atom, bool, value_eq, has}
use fedservice.Policy.Combine.{MetadataPolicy, Metadata}
use fedservice.Policy.Operators.{
  OperatorKind, value, add, default, one_of, subset_of, superset_of, essential, call, name_of,
  new_operator, operator_value,
}
use fedservice.Policy.Apply.{claim_policy}
use fedservice.Policy.Apply.Loop.{
  stage, run_value, run_add, run_default, run_one_of, run_subset_of, run_superset_of, run_essential,
}

-- The value of an operator is what the claim's policy holds under its name.
pub operator_value-stated :
    (k : OperatorKind) (claim : String) (policy : MetadataPolicy) (v w : Value)
    → lookup (name_of k) (claim_policy claim policy) ≡ some v
    → operator_value k claim policy ≡ ok w
    → w ≡ v
unfolding operator_value
operator_value-stated k claim policy v w h e = ground arith

module _ (claim : String) (policy : MetadataPolicy) where
  -- If `P` holds of the claim before a run that ends, `Q` holds of it afterwards.
  abbrev pub Triple :
      (Option Value → Type 0) → (Metadata → Result Metadata) → (Option Value → Type 0) → Type 0
  Triple P f Q =
      (m changed : Metadata) → P (lookup claim m) → f m ≡ ok changed → Q (lookup claim changed)

  -- The two ends of a call: `R` where it names no next operator, `S` where it does.
  abbrev pub EndsIn :
      (Option Value → Type 0) → (Option Value → Type 0) → Option String → Option Value → Type 0
  EndsIn R S none o = R o
  EndsIn R S (some n) o = S o

  abbrev pub CallTriple :
      (Option Value → Type 0)
      → OperatorKind
      → (Option Value → Type 0)
      → (Option Value → Type 0)
      → Type 0
  CallTriple P k R S =
      (m changed : Metadata) (n : Option String)
      → P (lookup claim m)
      → call (new_operator k "") claim m policy ≡ ok (n, changed)
      → EndsIn R S n (lookup claim changed)

  pub stage-Triple :
      (k : OperatorKind) (P R S Q : Option Value → Type 0)
      (jumped onward : Metadata → Result Metadata)
      → (has_key (name_of k) (claim_policy claim policy) ≡ true → CallTriple P k R S)
      → (has_key (name_of k) (claim_policy claim policy) ≡ false → (o : Option Value) → P o → R o)
      → Triple S jumped Q
      → Triple R onward Q
      → Triple P (stage (new_operator k "") claim policy jumped onward) Q
  stage-Triple k P R S Q jumped onward called skipped tj to m changed p h =
      elim (Bool-cases (has_key (name_of k) (claim_policy claim policy))) [
        | inl has ↦
            let ((n, mid), run, rest) =
              >>=-eq-ok (call (new_operator k "") claim m policy) _ (rw has at h) in
            follow n mid (called has m mid n p run) rest
        | inr not ↦ to m changed (skipped not _ p) (rw not at h)
      ]
    where
      follow :
          (n : Option String) (mid : Metadata)
          → EndsIn R S n (lookup claim mid)
          → (elim n [ none ↦ onward mid | some x ↦ jumped mid ]) ≡ ok changed
          → Q (lookup claim changed)
      follow none mid r e = to mid changed r e
      follow (some x) mid s e = tj mid changed s e

  pub ok-Triple : (P : Option Value → Type 0) → Triple P ok P
  ok-Triple P m changed p h = subst (λ x. P (lookup claim x)) (cc) p

  -- The last two operators change nothing and name no next one.
  essential_unchanged :
      (m changed : Metadata) (n : Option String)
      → call (new_operator essential "") claim m policy ≡ ok (n, changed)
      → (n ≡ none) × (changed ≡ m)
  unfolding call
  essential_unchanged m changed n h = ground arith

  superset_of_unchanged :
      (m changed : Metadata) (n : Option String)
      → call (new_operator superset_of "") claim m policy ≡ ok (n, changed)
      → (n ≡ none) × (changed ≡ m)
  unfolding call
  superset_of_unchanged m changed n h = ground arith

  essential-keeps : (P : Option Value → Type 0) → CallTriple P essential P P
  essential-keeps P m changed n p h = let (e, f) = essential_unchanged m changed n h in rw (e, f) p

  superset_of-keeps : (P : Option Value → Type 0) → CallTriple P superset_of P P
  superset_of-keeps P m changed n p h =
      let (e, f) = superset_of_unchanged m changed n h in rw (e, f) p

  pub run_essential-keeps : (P : Option Value → Type 0) → Triple P (run_essential claim policy) P
  unfolding run_essential
  run_essential-keeps P =
      stage-Triple essential P P P P ok ok (λ _. essential-keeps P) (λ _ o p. p) (ok-Triple P)
        (ok-Triple P)

  run_superset_of-keeps : (P : Option Value → Type 0) → Triple P (run_superset_of claim policy) P
  unfolding run_superset_of
  run_superset_of-keeps P =
      stage-Triple superset_of P P P P _ _ (λ _. superset_of-keeps P) (λ _ o p. p)
        (run_essential-keeps P) (run_essential-keeps P)

  abbrev pub Anything : Option Value → Type 0
  Anything o = Unit

  value_sets :
      (v : Value) (m changed : Metadata) (n : Option String)
      → lookup "value" (claim_policy claim policy) ≡ some v
      → call (new_operator value "") claim m policy ≡ ok (n, changed)
      → (n ≡ some "essential") × (changed ≡ insert claim v m)
  unfolding call
  value_sets v m changed n e h = ground arith

  lookup-insert_same : (v : Value) (m : Metadata) → lookup claim (insert claim v m) ≡ some v
  lookup-insert_same v m = ground (arith, lookup-insert claim claim v m)

  -- A claim with a `value` operator ends up with that value.
  pub run_value-value :
      (v : Value)
      → lookup "value" (claim_policy claim policy) ≡ some v
      → Triple Anything (run_value claim policy) (λ o. o ≡ some v)
  unfolding run_value
  run_value-value v stated =
      stage-Triple value Anything (λ o. ⊥) (λ o. o ≡ some v) (λ o. o ≡ some v) _ _
        (λ _ m changed n p h.
          let (e, f) = value_sets v m changed n stated h in rw (e, f) (lookup-insert_same v m))
        (λ absent o p.
          absurd (ground (arith, has_key-eq-lookup "value" (claim_policy claim policy))))
        (run_essential-keeps (λ o. o ≡ some v)) (λ m changed no h. absurd no)

  -- `essential` lets a missing claim through only if its value is not true.
  essential_needs :
      (e : Value) (m changed : Metadata) (n : Option String)
      → lookup "essential" (claim_policy claim policy) ≡ some e
      → value_eq e (atom (bool true)) ≡ true
      → call (new_operator essential "") claim m policy ≡ ok (n, changed)
      → (n ≡ none) × (lookup claim changed ≢ none)
  unfolding call
  essential_needs e m changed n stated t h =
      (ground arith, λ absent. ground (arith, has_key-eq-lookup claim m))

  pub run_essential-demands :
      (e : Value)
      → lookup "essential" (claim_policy claim policy) ≡ some e
      → value_eq e (atom (bool true)) ≡ true
      → Triple Anything (run_essential claim policy) (λ o. o ≢ none)
  unfolding run_essential
  run_essential-demands e stated t =
      stage-Triple essential Anything (λ o. o ≢ none) (λ o. o ≢ none) (λ o. o ≢ none) ok ok
        (λ _ m changed n p h. let (a, b) = essential_needs e m changed n stated t h in rw a b)
        (λ absent o p.
          absurd (ground (arith, has_key-eq-lookup "essential" (claim_policy claim policy))))
        (ok-Triple (λ o. o ≢ none)) (ok-Triple (λ o. o ≢ none))

  any-call : (k : OperatorKind) → CallTriple Anything k Anything Anything
  any-call k m changed none p h = tt
  any-call k m changed (some n) p h = tt

  -- What holds at the end of the last stage, whatever came before, holds at the end of the loop.
  pub run_value-last :
      (P : Option Value → Type 0)
      → Triple Anything (run_essential claim policy) P
      → Triple Anything (run_value claim policy) P
  unfolding run_value run_add run_default run_one_of run_subset_of run_superset_of
  run_value-last P ess =
      let step =
        λ (k : OperatorKind) (j o : Metadata → Result Metadata) (tj : Triple Anything j P)
            (to : Triple Anything o P).
          stage-Triple k Anything Anything Anything P j o (λ _. any-call k) (λ _ _ _. tt) tj to in
      let sup = step superset_of _ _ ess ess in
      let sub = step subset_of _ _ sup sup in
      let one = step one_of _ _ ess sub in
      let def = step default _ _ one one in
      let plus = step add _ _ def def in step value _ _ ess plus
