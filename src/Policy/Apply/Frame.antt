-- ===== src/Policy/Apply/Frame.antt =====
-- Applying a policy to one claim leaves the other claims alone.
use fedservice.Policy.Apply.{
  apply_claim, claim_policy, name_of, ◌∷◌, has_key, construct_evaluation_sequence, List,
  apply_claims,
}
use fedservice.Policy.Apply.Loop.{
  apply_claim-eq-run_value, run_essential, run_superset_of, run_subset_of, run_one_of, run_default,
  run_add, stage, run_value,
}
use fedservice.Prelude.{
  [], inr, inl, >>=-eq-ok, false, Bool-cases, ◌∙◌, String, ◌≡◌, ◌≢◌, Option, none, some, arith, ok,
  Result,
}
use fedservice.Prelude.Dict.{mem, lookup, lookup-insert}
use fedservice.Policy.Combine.{MetadataPolicy, Metadata}
use fedservice.Policy.Operators.{
  new_operator, OperatorKind, value, add, default, one_of, subset_of, superset_of, essential, call,
}

call_frame :
    (k : OperatorKind) (next claim j : String) (metadata : Metadata) (policy : MetadataPolicy)
    {n : Option String} {changed : Metadata}
    → call (record { kind = k; next = next }) claim metadata policy ≡ ok (n, changed)
    → j ≢ claim
    → lookup j changed ≡ lookup j metadata
unfolding call
call_frame value next claim j metadata policy h d = grind (arith, lookup-insert)
call_frame add next claim j metadata policy h d = grind (arith, lookup-insert)
call_frame default next claim j metadata policy h d = grind (arith, lookup-insert)
call_frame one_of next claim j metadata policy h d = ground arith
call_frame subset_of next claim j metadata policy h d = grind (arith, lookup-insert)
call_frame superset_of next claim j metadata policy h d = ground arith
call_frame essential next claim j metadata policy h d = ground arith

module _ (claim j : String) (policy : MetadataPolicy) (differ : j ≢ claim) where
  abbrev pub KeepsClaim : (Metadata → Result Metadata) → Type 0
  KeepsClaim f = (m changed : Metadata) → f m ≡ ok changed → lookup j changed ≡ lookup j m

  keeps_ok : KeepsClaim ok
  keeps_ok m changed h = cc

  stage-KeepsClaim :
      (k : OperatorKind) (jumped onward : Metadata → Result Metadata)
      → KeepsClaim jumped
      → KeepsClaim onward
      → KeepsClaim (stage (new_operator k "") claim policy jumped onward)
  stage-KeepsClaim k jumped onward kj ko m changed h =
      elim (Bool-cases (has_key (name_of k) (claim_policy claim policy))) [
        | inl has ↦
            let ((n, mid), called, rest) =
              >>=-eq-ok (call (new_operator k "") claim m policy) _ (rw has at h) in
            follow n mid (call_frame k _ claim j m policy called differ) rest
        | inr not ↦ ko m changed (rw not at h)
      ]
    where
      follow :
          (n : Option String) (mid : Metadata)
          → lookup j mid ≡ lookup j m
          → (elim n [ none ↦ onward mid | some x ↦ jumped mid ]) ≡ ok changed
          → lookup j changed ≡ lookup j m
      follow none mid same e = ko mid changed e ∙ same
      follow (some x) mid same e = kj mid changed e ∙ same

  pub run_value-KeepsClaim : KeepsClaim (run_value claim policy)
  unfolding run_value run_add run_default run_one_of run_subset_of run_superset_of run_essential
  run_value-KeepsClaim =
      let ess = stage-KeepsClaim essential ok ok keeps_ok keeps_ok in
      let sup = stage-KeepsClaim superset_of _ _ ess ess in
      let sub = stage-KeepsClaim subset_of _ _ sup sup in
      let one = stage-KeepsClaim one_of _ _ ess sub in
      let def = stage-KeepsClaim default _ _ one one in
      let plus = stage-KeepsClaim add _ _ def def in stage-KeepsClaim value _ _ ess plus

-- The loop over the claims of the policy leaves every other claim as it was.
pub apply_claims_frame :
    (claims : List String) (j : String) (metadata : Metadata) (policy : MetadataPolicy)
    {changed : Metadata}
    → apply_claims claims metadata policy construct_evaluation_sequence ≡ ok changed
    → mem j claims ≡ false
    → lookup j changed ≡ lookup j metadata
unfolding apply_claims
apply_claims_frame [] j metadata policy h absent = cc
apply_claims_frame (claim ∷ claims) j metadata policy h absent =
    let (mid, first, rest) =
      >>=-eq-ok (apply_claim 8 construct_evaluation_sequence claim policy 0 metadata) _ h in
    apply_claims_frame claims j mid policy rest (ground arith)
    ∙ run_value-KeepsClaim claim j policy (ground arith) metadata mid
        (rw apply_claim-eq-run_value at first)
