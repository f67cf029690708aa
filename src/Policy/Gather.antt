-- ===== src/Policy/Gather.antt =====
-- Combining the metadata and the policies along a trust chain: `combine_metadata`, `combine` and
-- `TrustChainPolicy` of src/fedservice/entity/function/policy.py.
use fedservice.Prelude.{
  Bool, true, false, none, some, [], ◌∷◌, ◌++◌, if◌then◌else◌, is_empty, Result, ok, raised, ◌>>=◌,
  policy_error,
}
use fedservice.Prelude.Dict.{lookup, has_key, update}
use fedservice.Value.{value_eq}
use fedservice.Policy.Combine.{MetadataPolicy, Metadata, Rules, combine_claim_policy}

-- Every claim of both dictionaries has the same value in both.
unfoldable pub agree : Metadata → Metadata → Bool
agree superior [] = true
agree superior ((claim, v) ∷ subordinate) =
    let rest = agree superior subordinate in
    elim (lookup claim superior) [ none ↦ rest | some w ↦ if value_eq w v then rest else false ]

unfoldable pub combine_metadata : Metadata → Metadata → Result Metadata
unfolding agree
combine_metadata superior_metadata subordinate_metadata =
    if is_empty subordinate_metadata
    then ok superior_metadata
    else if agree superior_metadata subordinate_metadata
    then ok (update superior_metadata subordinate_metadata)
    else raised policy_error

-- The claims of both policies, combined.
unfoldable pub combine_shared : MetadataPolicy → MetadataPolicy → Result MetadataPolicy
combine_shared [] sub = ok []
combine_shared ((claim, rule) ∷ sup) sub = elim (lookup claim sub) [
  | none ↦ combine_shared sup sub
  | some child ↦ do
    combined ← combine_claim_policy rule child
    rest ← combine_shared sup sub
    ok ((claim, combined) ∷ rest)
]

-- The claims of the first policy that are not in the second.
unfoldable pub only_in : MetadataPolicy → MetadataPolicy → MetadataPolicy
only_in [] other = []
only_in ((claim, rule) ∷ policy) other =
    let rest = only_in policy other in if has_key claim other then rest else (claim, rule) ∷ rest

unfoldable pub combine_policies : MetadataPolicy → MetadataPolicy → Result MetadataPolicy
unfolding combine_shared only_in
combine_policies sup sub = do
  shared ← combine_shared sup sub
  ok (shared ++ (only_in sup sub ++ only_in sub sup))

unfoldable pub combine : Rules → Rules → Result Rules
unfolding combine_metadata combine_policies
combine superior subordinate = do
  metadata ← combine_metadata superior.metadata subordinate.metadata
  let kept = if is_empty metadata then superior.metadata else metadata
  if is_empty subordinate.metadata_policy
      then ok (record { metadata_policy = superior.metadata_policy; metadata = kept })
      else combine_policies superior.metadata_policy subordinate.metadata_policy >>= λ policy.
          ok (record { metadata_policy = policy; metadata = kept })
