-- ===== src/Tests/Policies.antt =====
-- Metadata policies: src/fedservice/entity/function/policy.py on concrete policies.
use fedservice.Policy.Along.{gather_policies-permits, all_permit}
use fedservice.Policy.Apply.Fuel.{apply_policy-ne-out_of_fuel}
use fedservice.Policy.Apply.Loop.{apply_claim-eq-run_value, run_value}
use fedservice.Policy.Gather.{combine}
use fedservice.Policy.Operators.{call, construct_evaluation_sequence}
use fedservice.Policy.Apply.Whole.{
  apply_metadata_policy-Complies, Complies, apply_metadata_policy_frame,
}
use fedservice.Policy.Combine.Meaning.{permits-combine_claim_policy, permits}
use fedservice.Policy.Combine.Essential.{
  BooleanEssential, demands-combine_claim_policy, demands, essential_replaced,
  combine_claim_policy-value,
}
use fedservice.Policy.Chain.{rules_of, gather_policies}
use fedservice.Policy.Apply.{claim_policy, round, apply_policy, apply_metadata_policy, apply_claim}
use fedservice.Prelude.Dict.{update, insert, keys, has_key, lookup}
use fedservice.Prelude.{
  inl, inr, some, none, ◌||◌, out_of_fuel, ◌&&◌, ◌≢◌, string_dec, ◌≡◌, refl, String, true, false,
  List, [], ◌∷◌, none, some, ok, raised,
}
use fedservice.Prelude.Int.{pos}
use fedservice.Value.{
  value_eq, norm, Atom-discrete, atom_eq, has, dedup, intersection, elements, of_set, truthy, atoms,
  to_set, Value, atom, str, bool, array, text, of_elements, nil, cons,
}
use fedservice.Statement.{EntityStatement}
use fedservice.Policy.Combine.{
  do_policy, ClaimPolicy, MetadataPolicy, Metadata, Rules, combine_claim_policy,
}

-- What a run on closed data computes with.
evaluation : Unit {0}
unfolding string_dec lookup has_key keys insert update to_set atoms truthy of_set elements
    of_elements intersection dedup has atom_eq Atom-discrete norm value_eq combine_claim_policy
    do_policy combine gather_policies rules_of apply_policy apply_metadata_policy apply_claim round
    call
evaluation = tt

abbrev pair : String → String → Value
pair s t = array (cons (text s) (cons (text t) nil))

abbrev scopes : ClaimPolicy
scopes = ("subset_of", pair "openid" "email") ∷ ("essential", atom (bool true)) ∷ []

abbrev narrower : ClaimPolicy
narrower = ("subset_of", pair "email" "phone") ∷ []

abbrev both_scopes : ClaimPolicy
both_scopes = ("subset_of", array (cons (text "email") nil)) ∷ ("essential", atom (bool true)) ∷ []

combined_scopes : combine_claim_policy scopes narrower ≡ ok both_scopes
unfolding evaluation
combined_scopes = refl

permits-combine_claim_policy_example :
    permits "subset_of" both_scopes (str "openid")
    ≡ (permits "subset_of" scopes (str "openid") && permits "subset_of" narrower (str "openid"))
unfolding evaluation
permits-combine_claim_policy_example =
    permits-combine_claim_policy "subset_of" scopes narrower (str "openid") refl refl
      combined_scopes

plain_scopes : BooleanEssential scopes
unfolding evaluation
plain_scopes = inr (true, refl)

plain_narrower : BooleanEssential narrower
unfolding evaluation
plain_narrower = inl refl

demands-combine_claim_policy_example : demands both_scopes ≡ (demands scopes || demands narrower)
unfolding evaluation
demands-combine_claim_policy_example =
    demands-combine_claim_policy scopes narrower refl plain_scopes plain_narrower combined_scopes

abbrev fixed_value : ClaimPolicy
fixed_value = ("value", text "web") ∷ ("essential", atom (bool true)) ∷ []

abbrev not_essential : ClaimPolicy
not_essential = ("essential", atom (bool false)) ∷ []

abbrev weakened : ClaimPolicy
weakened = ("value", text "web") ∷ ("essential", atom (bool false)) ∷ []

combine_claim_policy-value_example : lookup "value" weakened ≡ some (text "web")
unfolding evaluation
combine_claim_policy-value_example =
    combine_claim_policy-value fixed_value not_essential {rule = weakened} (text "web") refl refl

essential_replaced_example :
    lookup "essential" weakened ≡ (elim (lookup "essential" not_essential) [
      | some e ↦ some e
      | none ↦ lookup "essential" fixed_value
    ])
unfolding evaluation
essential_replaced_example =
    essential_replaced fixed_value not_essential {rule = weakened} (text "web") refl refl

abbrev statement : String → String → MetadataPolicy → EntityStatement
statement iss sub policy = record {
  iss = iss;
  sub = sub;
  exp = pos 100;
  jwks = none;
  authority_hints = none;
  metadata = none;
  metadata_policy = some (("openid_provider", policy) ∷ []);
  constraints = none;
  jws = none;
}

abbrev chain : List EntityStatement
chain =
    statement "ta" "org" (("scopes", scopes) ∷ [])
    ∷ statement "org" "op" (("scopes", narrower) ∷ [])
    ∷ []

abbrev gathered : Rules
gathered = record { metadata_policy = ("scopes", both_scopes) ∷ []; metadata = [] }

gathered_run : gather_policies chain "openid_provider" ≡ ok gathered
unfolding evaluation
gathered_run = refl

gather_policies-permits_example :
    permits "subset_of" (claim_policy "scopes" gathered.metadata_policy) (str "email")
    ≡ all_permit "subset_of" "scopes" (str "email") "openid_provider" chain
unfolding evaluation
gather_policies-permits_example =
    gather_policies-permits "subset_of" "scopes" (str "email") refl "openid_provider" chain
      gathered_run (refl, (refl, tt))

abbrev metadata : Metadata
metadata = ("scopes", pair "email" "address") ∷ ("name", text "op") ∷ []

abbrev adjusted : Metadata
adjusted = ("scopes", array (cons (text "email") nil)) ∷ ("name", text "op") ∷ []

adjusted_run :
    apply_metadata_policy metadata gathered.metadata_policy construct_evaluation_sequence
    ≡ ok adjusted
unfolding evaluation
adjusted_run = refl

apply_metadata_policy-Complies_example :
    Complies "scopes" gathered.metadata_policy (lookup "scopes" metadata) (lookup "scopes" adjusted)
unfolding evaluation
apply_metadata_policy-Complies_example =
    apply_metadata_policy-Complies "scopes" metadata gathered.metadata_policy adjusted_run refl

apply_metadata_policy_frame_example : lookup "name" adjusted ≡ lookup "name" metadata
unfolding evaluation
apply_metadata_policy_frame_example =
    apply_metadata_policy_frame "name" metadata gathered.metadata_policy adjusted_run refl

apply_claim-eq-run_value_example :
    apply_claim 8 construct_evaluation_sequence "scopes" gathered.metadata_policy 0 metadata
    ≡ run_value "scopes" gathered.metadata_policy metadata
apply_claim-eq-run_value_example =
    apply_claim-eq-run_value "scopes" gathered.metadata_policy metadata

apply_policy-ne-out_of_fuel_example : apply_policy metadata gathered ≢ raised out_of_fuel
apply_policy-ne-out_of_fuel_example = apply_policy-ne-out_of_fuel metadata gathered
