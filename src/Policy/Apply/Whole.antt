-- ===== src/Policy/Apply/Whole.antt =====
-- `apply_metadata_policy` over all claims: what it makes of each claim, with a policy or without.
use fedservice.Value.{bool, atom}
use fedservice.Policy.Apply.Loop.{apply_claim-eq-run_value, run_value}
use fedservice.Policy.Apply.Frame.{run_value-KeepsClaim, apply_claims_frame}
use fedservice.Policy.Apply.Bounds.{run_value-InBounds, InBounds, HasList, rule}
use fedservice.Policy.Apply.Effects.{
  run_essential-demands, run_value-last, run_value-value, Triple, Anything,
}
use fedservice.Prelude.{
  string_dec, subst, String, ◌≡◌, ◌≢◌, Option, none, some, arith, ok, true, false, >>=-eq-ok, List,
  [], ◌∷◌,
}
use fedservice.Prelude.Dict.{mem-keys, lookup, mem, keys}
use fedservice.Policy.Combine.{MetadataPolicy, Metadata}
use fedservice.Policy.Operators.{construct_evaluation_sequence}
use fedservice.Policy.Apply.{
  apply_claim, value_eq, Value, has_key, apply_claims, apply_metadata_policy,
}

module _ (claim : String) (policy : MetadataPolicy) (I Q : Option Value → Type 0)
    (again : (o : Option Value) → Q o → I o)
    (triple : Triple claim policy I (run_value claim policy) Q) where
  -- One turn of the loop over the claims, at this claim or at another.
  turn_here :
      (m changed : Metadata)
      → I (lookup claim m)
      → apply_claim 8 construct_evaluation_sequence claim policy 0 m ≡ ok changed
      → Q (lookup claim changed)
  turn_here m changed i h = triple m changed i (rw apply_claim-eq-run_value at h)

  turn_elsewhere :
      (P : Option Value → Type 0) (other : String) (m changed : Metadata)
      → claim ≢ other
      → P (lookup claim m)
      → apply_claim 8 construct_evaluation_sequence other policy 0 m ≡ ok changed
      → P (lookup claim changed)
  turn_elsewhere P other m changed d p h =
      rw (run_value-KeepsClaim other claim policy d m changed (rw apply_claim-eq-run_value at h)) p

  claims_keep :
      (claims : List String) (m changed : Metadata)
      → Q (lookup claim m)
      → apply_claims claims m policy construct_evaluation_sequence ≡ ok changed
      → Q (lookup claim changed)
  unfolding apply_claims
  claims_keep [] m changed q h = subst (λ x. Q (lookup claim x)) (cc) q
  claims_keep (other ∷ claims) m changed q h =
      let (mid, first, rest) =
        >>=-eq-ok (apply_claim 8 construct_evaluation_sequence other policy 0 m) _ h in
      elim (string_dec claim other) [
        | yes same ↦
            claims_keep claims mid changed (turn_here m mid (again _ q) (rw (← same) at first)) rest
        | no differ ↦
            claims_keep claims mid changed (turn_elsewhere Q other m mid differ q first) rest
      ]

  pub apply_claims-Triple :
      (claims : List String) (m changed : Metadata)
      → mem claim claims ≡ true
      → I (lookup claim m)
      → apply_claims claims m policy construct_evaluation_sequence ≡ ok changed
      → Q (lookup claim changed)
  unfolding apply_claims
  apply_claims-Triple [] m changed in_claims i h = cc
  apply_claims-Triple (other ∷ claims) m changed in_claims i h =
      let (mid, first, rest) =
        >>=-eq-ok (apply_claim 8 construct_evaluation_sequence other policy 0 m) _ h in
      elim (string_dec claim other) [
        | yes same ↦ claims_keep claims mid changed (turn_here m mid i (rw (← same) at first)) rest
        | no differ ↦
            apply_claims-Triple claims mid changed (ground arith)
              (turn_elsewhere I other m mid differ i first) rest
      ]

-- What the policy of a claim promises of the claim after it was applied.
pub record Complies (claim : String) (policy : MetadataPolicy) (before after : Option Value)
    : Type 0 where
  pub fixed : (v : Value) → lookup "value" (rule claim policy) ≡ some v → after ≡ some v
  pub demanded :
      (e : Value)
      → lookup "essential" (rule claim policy) ≡ some e
      → value_eq e (atom (bool true)) ≡ true
      → after ≢ none
  pub bounded :
      lookup "value" (rule claim policy) ≡ none
      → HasList claim policy before
      → InBounds claim policy after

module _ (claim : String) (metadata : Metadata) (policy : MetadataPolicy) {changed : Metadata}
    (applied : apply_metadata_policy metadata policy construct_evaluation_sequence
      ≡ ok changed) where
  has_policy : has_key claim policy ≡ true → mem claim (keys policy) ≡ true
  has_policy h = ground (arith, mem-keys claim policy)

  -- Applying a metadata policy that ends without an exception leaves every claim that has a policy
  -- in compliance with it: a stated `value` is its value, an `essential` that is true means that it is
  -- there, and a claim that held a list before, under a policy without `value`, is a list with
  -- nothing outside `subset_of` and everything of `superset_of`.
  pub apply_metadata_policy-Complies :
      has_key claim policy ≡ true
      → Complies claim policy (lookup claim metadata) (lookup claim changed)
  unfolding apply_metadata_policy
  apply_metadata_policy-Complies h = record {
    fixed = λ v stated.
        apply_claims-Triple claim policy (Anything claim policy) (λ o. o ≡ some v) (λ _ _. tt)
          (run_value-value claim policy v stated) (keys policy) metadata changed (has_policy h) tt
          applied;
    demanded = λ e stated t.
        apply_claims-Triple claim policy (Anything claim policy) (λ o. o ≢ none) (λ _ _. tt)
          (run_value-last claim policy (λ o. o ≢ none)
            (run_essential-demands claim policy e stated t))
          (keys policy) metadata changed (has_policy h) tt applied;
    bounded = λ free list.
        apply_claims-Triple claim policy (HasList claim policy) (InBounds claim policy)
          (λ _ (l, e, is, _, _). (l, e, is)) (run_value-InBounds claim policy free) (keys policy)
          metadata changed (has_policy h) list applied;
  }

  -- A claim that has no policy is left as it was, present or not.
  pub apply_metadata_policy_frame :
      has_key claim policy ≡ false → lookup claim changed ≡ lookup claim metadata
  unfolding apply_metadata_policy
  apply_metadata_policy_frame h =
      apply_claims_frame (keys policy) claim metadata policy applied
        (ground (arith, mem-keys claim policy))
