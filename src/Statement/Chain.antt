-- ===== src/Statement/Chain.antt =====
-- Entity statements and the class `TrustChain`.
use fedservice.Prelude.{
  String, Bool, Option, none, some, List, [], ◌∷◌, reverse, ltb, length, if◌then◌else◌,
}
use fedservice.Prelude.Dict.{Dict, lookup, insert}
use fedservice.Prelude.Int.{ℤ, ltb_ℤ}
use fedservice.Value.{Value}
use fedservice.Policy.Combine.{Metadata, MetadataPolicy, Rules}

-- `NamingConstraints`: each claim may be missing.
pub record NamingConstraints : Type 0 where
  pub permitted : Option (List String)
  pub excluded : Option (List String)

-- `Constraints`
pub record Constraints : Type 0 where
  pub max_path_length : Option ℤ
  pub naming_constraints : Option NamingConstraints

-- A verified payload; an optional claim that is missing is `none`. `jwks` is the list under `keys`
-- of that claim, `jws` the signed text that the collector stores beside the payload.
pub record EntityStatement : Type 0 where
  pub iss : String
  pub sub : String
  pub exp : ℤ
  pub jwks : Option (List Value)
  pub authority_hints : Option (List String)
  pub metadata : Option (Dict Metadata)
  pub metadata_policy : Option (Dict MetadataPolicy)
  pub constraints : Option Constraints
  pub jws : Option String

-- `TrustChain.metadata`: claims by entity type, where the claims may be `None`; for a chain of one
-- statement `TrustChainPolicy` stores the claims of one entity type in its place.
pub data ChainMetadata : Type 0 where
  by_type : Dict (Option Metadata) → ChainMetadata
  claims_only : Metadata → ChainMetadata

-- An empty policy, `{}`, is `none`.
pub record TrustChain : Type 0 where
  pub anchor : String
  pub iss_path : List String
  pub chain : List String
  pub exp : ℤ
  pub verified_chain : List EntityStatement
  pub metadata : ChainMetadata
  pub combined_policy : Dict (Option Rules)

-- `is_expired`, at the time `now`.
unfoldable pub is_expired : ℤ → TrustChain → Bool
is_expired now self = ltb_ℤ self.exp now

-- `_chain = self.verified_chain; _chain.reverse()` reverses the list of the object too.
unfoldable pub export_chain : TrustChain → TrustChain × List EntityStatement
export_chain self =
    let reversed = reverse self.verified_chain in
    (record self { verified_chain = reversed }, reversed)

-- The loop of `chains2dict`, from the dictionary `res` on.
unfoldable pub chains2dict_from : Dict TrustChain → List TrustChain → Dict TrustChain
chains2dict_from res [] = res
chains2dict_from res (trust_chain ∷ trust_chains) =
    chains2dict_from
      (elim (lookup trust_chain.anchor res) [
        | none ↦ insert trust_chain.anchor trust_chain res
        | some kept ↦
            if ltb (length trust_chain.verified_chain) (length kept.verified_chain)
            then insert trust_chain.anchor trust_chain res
            else res
      ])
      trust_chains

unfoldable pub chains2dict : List TrustChain → Dict TrustChain
unfolding chains2dict_from
chains2dict trust_chains = chains2dict_from [] trust_chains
