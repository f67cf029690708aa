-- ===== src/Entity.antt =====
-- `FederationEntity` of src/fedservice/entity/__init__.py: the trust chains that it keeps, and the choice
-- among them.
use fedservice.Chains.{get_verified_trust_chains}
use fedservice.Verifier.{Jose, KeyJar}
use fedservice.Statement.{claims_only, by_type, ChainMetadata, TrustChain}
use fedservice.Collect.Run.{TrustChainCollector}
use fedservice.Collect.Web.{Web}
pub mod Picking
pub mod Kept
pub mod Verified
pub mod Endpoint
pub mod TrustMarks
pub mod Trawl
use fedservice.Prelude.{
  ℕ, String, Option, none, some, List, [], ◌∷◌, if◌then◌else◌, ◌==◌, Result, ok, raised, ◌>>=◌,
  ◌>>◌, require, is_empty, Stateful, ◌>>>◌, lift, key_error, index_error,
}
use fedservice.Prelude.Dict.{Dict, lookup, insert}
use fedservice.Value.{of_entries, object, null, atom, Value}

-- What the modelled code reads and changes: `tr_priority` is the context's, the collector and
-- the key jar are those of the functions.
pub record FederationEntity : Type 0 where
  pub entity_id : String
  pub tr_priority : List String
  pub keyjar : KeyJar
  pub collector : TrustChainCollector
  pub trust_chain : Dict (List TrustChain)

abbrev pub Act {ℓ} : Type ℓ → Type ℓ
Act A = Stateful FederationEntity A

-- The inner loop of `pick_trust_chain`
unfoldable pub with_anchor : String → List TrustChain → Option TrustChain
with_anchor fid [] = none
with_anchor fid (chain ∷ chains) =
    let rest = with_anchor fid chains in if chain.anchor == fid then some chain else rest

-- Its outer loop
unfoldable pub by_priority : List String → List TrustChain → Option TrustChain
unfolding with_anchor
by_priority [] chains = none
by_priority (fid ∷ priority) chains = elim (with_anchor fid chains) [
  | some chain ↦ some chain
  | none ↦ by_priority priority chains
]

unfoldable pub pick_trust_chain : List String → List TrustChain → Result TrustChain
unfolding by_priority
pick_trust_chain priority [] = raised index_error
pick_trust_chain priority (chain ∷ []) = ok chain
pick_trust_chain priority (first ∷ second ∷ chains) =
    elim (by_priority priority (first ∷ second ∷ chains)) [
      | some chain ↦ ok chain
      | none ↦ ok first
    ]

-- What a run of the functions on the collector and the key jar leaves in the entity.
abbrev pub with_run :
    FederationEntity
    → TrustChainCollector × Result (KeyJar × List TrustChain)
    → FederationEntity × Result (List TrustChain)
with_run self (collector, raised e) = (record self { collector = collector }, raised e)
with_run self (collector, ok (keyjar, chains)) =
    (record self { collector = collector; keyjar = keyjar }, ok chains)

-- `metadata[entity_type]` of a trust chain, as a value
abbrev pub metadata_for : String → ChainMetadata → Result Value
metadata_for entity_type (by_type types) =
    require (lookup entity_type types) key_error >>= λ claims.
    ok (elim claims [ none ↦ atom null | some d ↦ object (of_entries d) ])
metadata_for entity_type (claims_only claims) = require (lookup entity_type claims) key_error

module _ (fuel : ℕ) (web : Web) (jose : Jose) where
  -- `get_verified_trust_chains(self, entity_id)`
  unfoldable pub verified_trust_chains : String → Act (List TrustChain)
  verified_trust_chains entity_id self =
      with_run self (get_verified_trust_chains fuel web jose self.keyjar entity_id self.collector)

  -- `store_trust_chain`, and `store_trust_chains` too
  abbrev pub store_trust_chain : String → List TrustChain → Act (Unit {0})
  store_trust_chain entity_id chains self =
      (record self { trust_chain = insert entity_id chains self.trust_chain }, ok tt)

  -- New chains are kept, if there are any.
  unfoldable pub collect_and_store : String → Act (List TrustChain)
  unfolding verified_trust_chains
  collect_and_store entity_id = verified_trust_chains entity_id >>> λ chains.
      if is_empty chains
      then lift (ok [])
      else (store_trust_chain entity_id chains >>> λ done. lift (ok chains))

  unfoldable pub get_trust_chains : String → Act (List TrustChain)
  unfolding collect_and_store
  get_trust_chains entity_id self = elim (lookup entity_id self.trust_chain) [
    | some chains ↦ (self, ok chains)
    | none ↦ collect_and_store entity_id self
  ]

  -- `get_verified_metadata`: that of the first chain
  unfoldable pub get_verified_metadata : String → Act (Option ChainMetadata)
  unfolding get_trust_chains
  get_verified_metadata entity_id = get_trust_chains entity_id >>> λ chains.
      lift (elim chains [ [] ↦ ok none | chain ∷ chains ↦ ok (some chain.metadata) ])

  -- `get_federation_entity_metadata`; metadata that is empty is returned as it is, here `none`.
  unfoldable pub get_federation_entity_metadata : String → Act (Option Value)
  unfolding get_verified_metadata
  get_federation_entity_metadata entity_id = get_verified_metadata entity_id >>> λ metadata.
      lift (elim metadata [
        | none ↦ ok none
        | some (by_type []) ↦ ok none
        | some (claims_only []) ↦ ok none
        | some metadata ↦ metadata_for "federation_entity" metadata >>= λ claims. ok (some claims)
      ])
