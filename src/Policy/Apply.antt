-- ===== src/Policy/Apply.antt =====
-- Applying a combined policy to metadata: `op_place`, `apply_metadata_policy`, `apply_policy` and
-- `diff2policy` of src/fedservice/entity/function/policy.py.
pub mod Loop
pub mod Frame
pub mod Effects
pub mod Bounds
pub mod Whole
pub mod Fuel
use fedservice.Prelude.{
  ℕ, zero, suc, ◌+◌, String, Option, none, some, List, [], ◌∷◌, ◌++◌, leb, ◌==◌, if◌then◌else◌,
  length, get_elem?, is_empty, Result, ok, raised, ◌>>=◌, require, index_error, type_error,
  out_of_fuel,
}
use fedservice.Prelude.Dict.{lookup, has_key, keys, update}
use fedservice.Value.{Value, value_eq}
use fedservice.Policy.Combine.{ClaimPolicy, MetadataPolicy, Metadata, Rules}
use fedservice.Policy.Operators.{
  PolicyOperator, name_of, call, construct_evaluation_sequence, Outcome,
}

-- The loop of `op_place`, over the operators from `index` on.
unfoldable pub place_from : String → List PolicyOperator → ℕ → Option ℕ
place_from operator_name [] index = none
place_from operator_name (operator ∷ rest) index =
    let later = place_from operator_name rest (index + 1) in
    if name_of operator.kind == operator_name then some index else later

abbrev pub drop {ℓ} : {A : Type ℓ} → ℕ → List A → List A
drop zero xs = xs
drop (suc n) [] = []
drop (suc n) (x ∷ xs) = drop n xs

-- `policy_operators[index]` raises before the first test if the index is past the end.
unfoldable pub op_place : String → List PolicyOperator → ℕ → Result (Option ℕ)
unfolding place_from
op_place operator_name operators index =
    if is_empty (drop index operators)
    then raised index_error
    else ok (place_from operator_name (drop index operators) index)

-- The index of the next round, or `none` for `break`.
abbrev pub Round : Type 0
Round = Option ℕ × Metadata

abbrev advance : List PolicyOperator → ℕ → Metadata → Round
advance operators i metadata =
    (if leb (length operators) (i + 1) then none else some (i + 1), metadata)

-- `policy_operators[None]` raises where `op_place` found nothing.
abbrev jump : Metadata → Option ℕ → Result Round
jump metadata none = raised type_error
jump metadata (some j) = ok (some j, metadata)

-- What follows an operator's call: `if _next: i = op_place(…); continue`.
unfoldable pub go_on : List PolicyOperator → ℕ → Outcome → Result Round
unfolding op_place
go_on operators i (none, metadata) = ok (advance operators i metadata)
go_on operators i (some String.[], metadata) = ok (advance operators i metadata)
go_on operators i (some next, metadata) = op_place next operators i >>= jump metadata

-- `metadata_policy.get(claim, {})`
abbrev pub claim_policy : String → MetadataPolicy → ClaimPolicy
claim_policy claim policy = elim (lookup claim policy) [ none ↦ [] | some rule ↦ rule ]

-- One round of the `while True` loop for a claim.
unfoldable pub round : List PolicyOperator → String → MetadataPolicy → ℕ → Metadata → Result Round
unfolding go_on
round operators claim policy i metadata = do
  op ← require (get_elem? operators i) index_error
  if has_key (name_of op.kind) (claim_policy claim policy)
      then call op claim metadata policy >>= go_on operators i
      else ok (advance operators i metadata)

-- The `while True` loop for a claim. Each round takes one unit of fuel.
unfoldable pub apply_claim :
    ℕ → List PolicyOperator → String → MetadataPolicy → ℕ → Metadata → Result Metadata
apply_claim zero operators claim policy i metadata = raised out_of_fuel
apply_claim (suc f) operators claim policy i metadata =
    round operators claim policy i metadata >>= λ (next, changed). elim next [
      | none ↦ ok changed
      | some j ↦ apply_claim f operators claim policy j changed
    ]

-- One round for each operator is enough.
abbrev pub fuel_for : List PolicyOperator → ℕ
fuel_for operators = length operators + 1

-- The loop over the claims that there is a policy for.
unfoldable pub apply_claims :
    List String → Metadata → MetadataPolicy → List PolicyOperator → Result Metadata
apply_claims [] metadata policy operators = ok metadata
apply_claims (claim ∷ claims) metadata policy operators =
    apply_claim (fuel_for operators) operators claim policy 0 metadata >>= λ changed.
    apply_claims claims changed policy operators

unfoldable pub apply_metadata_policy :
    Metadata → MetadataPolicy → List PolicyOperator → Result Metadata
unfolding apply_claims
apply_metadata_policy metadata policy operators =
    apply_claims (keys policy) metadata policy operators

-- `TrustChainPolicy.apply_policy`. What the superiors' metadata says is overridden by `metadata`.
unfoldable pub apply_policy : Metadata → Rules → Result Metadata
apply_policy metadata policy =
    let merged = if is_empty policy.metadata then metadata else update policy.metadata metadata in
    if is_empty policy.metadata_policy
    then ok merged
    else apply_metadata_policy merged policy.metadata_policy construct_evaluation_sequence

-- The policy that takes the claim `claim` of `old` to its value in `new`, if the two differ.
abbrev diff_shared : Metadata → String → Value → MetadataPolicy
diff_shared old claim v = elim (lookup claim old) [
  | none ↦ []
  | some w ↦ if value_eq v w then [] else (claim, ("value", v) ∷ []) ∷ []
]

abbrev diff_fresh : Metadata → String → Value → MetadataPolicy
diff_fresh old claim v =
    if has_key claim old
    then []
    else if claim == "contacts"
    then (claim, ("add", v) ∷ []) ∷ []
    else (claim, ("value", v) ∷ []) ∷ []

diff_claims : (String → Value → MetadataPolicy) → Metadata → MetadataPolicy
diff_claims f [] = []
diff_claims f ((claim, v) ∷ new) = f claim v ++ diff_claims f new

-- The claims of both, then the claims of `new` alone.
unfoldable pub diff2policy : Metadata → Metadata → MetadataPolicy
unfolding diff_claims
diff2policy new old = diff_claims (diff_shared old) new ++ diff_claims (diff_fresh old) new
