-- ===== src/Policy/Chain.antt =====
-- `TrustChainPolicy` of src/fedservice/entity/function/policy.py: gathering the policies along a
-- verified trust chain and applying them to the metadata of its last statement.
use fedservice.Prelude.{
  String, Bool, Option, none, some, List, [], ◌∷◌, if◌then◌else◌, length, is_empty, Result, ok,
  raised, ◌>>=◌, ◌>>◌, require, guard, policy_error, key_error, index_error, get_last?, drop_last,
  any, not, ◌==◌, ltb, ◌&&◌,
}
use fedservice.Prelude.Dict.{Dict, lookup, has_key, insert, keys}
use fedservice.Statement.{EntityStatement, TrustChain, ChainMetadata, by_type, claims_only}
use fedservice.Policy.Combine.{Metadata, Rules}
use fedservice.Policy.Apply.{apply_policy}
use fedservice.Policy.Gather.{combine}

-- `es[item][entity_type]`, where a `KeyError` leaves `{}`.
abbrev pub item_of {ℓ} : {A : Type ℓ} → Option (Dict (Dict A)) → String → Dict A
item_of none entity_type = []
item_of (some types) entity_type = elim (lookup entity_type types) [ none ↦ [] | some d ↦ d ]

unfoldable pub rules_of : EntityStatement → String → Rules
rules_of es entity_type = record {
  metadata_policy = item_of es.metadata_policy entity_type;
  metadata = item_of es.metadata entity_type;
}

abbrev pub nothing : Rules → Bool
nothing r = is_empty r.metadata_policy && is_empty r.metadata

-- No claim appears both in `metadata` and in `metadata_policy`.
unfoldable pub disjoint : Rules → Bool
disjoint r = not (any (λ claim. has_key claim r.metadata) (keys r.metadata_policy))

-- The loop over `chain[1:]`.
unfoldable pub gather_from : String → Rules → List EntityStatement → Result Rules
unfolding disjoint
gather_from entity_type rule [] = ok rule
gather_from entity_type rule (es ∷ chain) =
    let sub = rules_of es entity_type in
    let skipped = gather_from entity_type rule chain in
    if nothing sub
    then skipped
    else guard (disjoint sub) policy_error
      >> (combine rule sub >>= λ combined. gather_from entity_type combined chain)

unfoldable pub gather_policies : List EntityStatement → String → Result Rules
unfolding rules_of gather_from
gather_policies [] entity_type = raised index_error
gather_policies (es ∷ chain) entity_type = gather_from entity_type (rules_of es entity_type) chain

-- `verified_chain[-1]['metadata'][entity_type] = metadata`, on a chain where that entry exists.
unfoldable pub set_leaf_metadata : String → Metadata → List EntityStatement → List EntityStatement
set_leaf_metadata entity_type metadata [] = []
set_leaf_metadata entity_type metadata (es ∷ []) = elim es.metadata [
  | none ↦ es ∷ []
  | some types ↦ record es { metadata = some (insert entity_type metadata types) } ∷ []
]
set_leaf_metadata entity_type metadata (es ∷ next ∷ chain) =
    es ∷ set_leaf_metadata entity_type metadata (next ∷ chain)

abbrev leaf_metadata : TrustChain → String → Option Metadata
leaf_metadata trust_chain entity_type = elim (get_last? trust_chain.verified_chain) [
  | none ↦ none
  | some leaf ↦ elim leaf.metadata [ none ↦ none | some types ↦ lookup entity_type types ]
]

-- `_policy`: the trust chain with the combined policy noted, and the metadata, or `None`.
-- `apply_policy` works on a copy of the leaf's metadata only if the superiors state metadata; else
-- it changes the dictionary inside `verified_chain`.
unfoldable pub policy_for : TrustChain → String → Result (TrustChain × Option Metadata)
unfolding gather_policies set_leaf_metadata
policy_for trust_chain entity_type = do
  combined ← gather_policies (drop_last trust_chain.verified_chain) entity_type
  elim (leaf_metadata trust_chain entity_type) [
    | none ↦ ok (trust_chain, none)
    | some metadata ↦ do
      applied ← apply_policy metadata combined
      let verified =
          if is_empty combined.metadata
          then set_leaf_metadata entity_type applied trust_chain.verified_chain
          else trust_chain.verified_chain
      ok (
        record trust_chain {
          combined_policy = insert entity_type (some combined) trust_chain.combined_policy;
          verified_chain = verified;
        },
        some applied,
      )
  ]

-- `trust_chain.metadata[entity_type] = metadata`. Metadata without types never meets this: it is
-- stored only in chains of one statement.
abbrev put_metadata : String → Option Metadata → ChainMetadata → ChainMetadata
put_metadata entity_type metadata (by_type types) = by_type (insert entity_type metadata types)
put_metadata entity_type metadata (claims_only claims) = claims_only claims

unfoldable pub apply_for_type : TrustChain → String → Result TrustChain
unfolding policy_for
apply_for_type trust_chain entity_type = policy_for trust_chain entity_type >>= λ (noted, metadata).
    ok (record noted { metadata = put_metadata entity_type metadata noted.metadata })

unfoldable pub apply_for_types : TrustChain → List String → Result TrustChain
unfolding apply_for_type
apply_for_types trust_chain [] = ok trust_chain
apply_for_types trust_chain (entity_type ∷ types) =
    apply_for_type trust_chain entity_type >>= λ changed. apply_for_types changed types

-- `verified_chain[0]["metadata"][entity_type]` as the chain's metadata.
unfoldable pub apply_to_single : TrustChain → EntityStatement → String → Result TrustChain
apply_to_single trust_chain es entity_type = do
  types ← require es.metadata key_error
  claims ← require (lookup entity_type types) key_error
  ok (record trust_chain {
    metadata = claims_only claims;
    combined_policy = insert entity_type none trust_chain.combined_policy;
  })

-- The entity types of the last statement.
abbrev pub leaf_types : List EntityStatement → Result (List String)
leaf_types chain = do
  leaf ← require (get_last? chain) index_error
  types ← require leaf.metadata key_error
  ok (keys types)

-- `TrustChainPolicy.__call__`; without an entity type the argument is the empty text.
unfoldable pub apply_to_chain : TrustChain → String → Result TrustChain
unfolding apply_for_types apply_to_single
apply_to_chain trust_chain entity_type =
    if ltb 1 (length trust_chain.verified_chain)
    then (if entity_type == ""
        then (leaf_types trust_chain.verified_chain >>= λ types. apply_for_types trust_chain types)
        else apply_for_type trust_chain entity_type)
    else (require (get_last? trust_chain.verified_chain) index_error >>= λ es.
        apply_to_single trust_chain es entity_type)
