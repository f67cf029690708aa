-- ===== src/Entity/Endpoint.antt =====
-- The endpoints of other entities: src/fedservice/entity/function/trust_anchor.py, and the requests of
-- src/fedservice/entity/client/list.py.
use fedservice.Verifier.{Jose}
use fedservice.Entity.{
  FederationEntity, pick_trust_chain, KeyJar, Act, verified_trust_chains, metadata_for,
}
use fedservice.Collect.Web.{get_entity_configuration, Web}
use fedservice.Statement.{TrustChain, EntityStatement}
use fedservice.Prelude.{
  ℕ, String, ◌≡◌, false, Option, none, some, List, [], ◌∷◌, arith, if◌then◌else◌, ◌==◌, Result, ok,
  raised, ◌>>=◌, require, ◌>>>◌, lift, key_error, attribute_error, index_error,
}
use fedservice.Prelude.Dict.{Dict, lookup, has_key}
use fedservice.Value.{dict_get, Value, truthy, text}

-- `try: … except KeyError: endpoint = None`
abbrev pub or_none : Result (Option Value) → Result (Option Value)
or_none (raised key_error) = ok none
or_none (raised e) = raised e
or_none (ok found) = ok found

-- `metadata["federation_entity"].get(endpoint_name)` of a statement
abbrev pub stated_endpoint : String → EntityStatement → Result (Option Value)
stated_endpoint name statement = require statement.metadata key_error >>= λ metadata.
    require (lookup "federation_entity" metadata) key_error >>= λ claims. ok (lookup name claims)

-- The same of a trust chain
abbrev pub chain_endpoint : String → TrustChain → Result (Option Value)
chain_endpoint name chain =
    metadata_for "federation_entity" chain.metadata >>= λ claims. dict_get name claims

module _ (fuel : ℕ) (web : Web) (jose : Jose) where
  -- `get_verified_trust_anchor_statement`, with the keys of the entity's key jar
  abbrev pub anchor_statement : KeyJar → String → Result EntityStatement
  anchor_statement keyjar entity_id = get_entity_configuration web entity_id >>= λ ec.
      require (jose.factory ec) attribute_error >>= λ payload.
      jose.verify_compact ec (jose.verify_keys keyjar ec)

  abbrev pub anchor_endpoint : String → String → Act (Option Value)
  anchor_endpoint entity_id name self = (
    self,
    anchor_statement self.keyjar entity_id >>= λ statement.
        or_none (stated_endpoint name statement),
  )

  abbrev pub picked : List TrustChain → Act TrustChain
  picked chains self = (self, pick_trust_chain self.tr_priority chains)

  unfoldable pub endpoint_by_chain : String → String → Act (Option Value)
  unfolding verified_trust_chains
  endpoint_by_chain entity_id name = verified_trust_chains fuel web jose entity_id >>> λ chains.
      picked chains >>> λ chain. lift (or_none (chain_endpoint name chain))

  -- `get_verified_endpoint`
  unfoldable pub get_verified_endpoint : String → String → Act (Option Value)
  unfolding endpoint_by_chain
  get_verified_endpoint entity_id name self =
      if has_key entity_id self.collector.trust_anchors
      then anchor_endpoint entity_id name self
      else endpoint_by_chain entity_id name self

  -- For an entity that is no trust anchor and has no verified trust chain, `get_verified_endpoint` raises
  -- an IndexError; it does not return None.
  pub get_verified_endpoint-no_chains :
      (entity_id name : String) (self left : FederationEntity)
      → has_key entity_id self.collector.trust_anchors ≡ false
      → verified_trust_chains fuel web jose entity_id self ≡ (left, ok [])
      → get_verified_endpoint entity_id name self ≡ (left, raised index_error)
  unfolding get_verified_endpoint endpoint_by_chain pick_trust_chain
  get_verified_endpoint-no_chains entity_id name self left other run = ground (arith, other, run)

  -- The arguments of a list request that are given and true, in the order of the source
  abbrev pub query_part : List String → Dict Value → Dict Value
  query_part [] kwargs = []
  query_part (arg ∷ names) kwargs = elim (lookup arg kwargs) [
    | none ↦ query_part names kwargs
    | some val ↦
        let rest = query_part names kwargs in if truthy val then (arg, val) ∷ rest else rest
  ]

  -- `List.get_request_parameters`: the URL, where `with_query` puts the encoded query after the endpoint
  abbrev pub list_url :
      (Option Value → Dict Value → String) → String → String → Dict Value → Act String
  list_url with_query endpoint entity_id kwargs =
      (if endpoint == ""
        then get_verified_endpoint entity_id "federation_list_endpoint"
        else lift (ok (some (text endpoint))))
      >>> λ found. lift (
          ok (
            with_query found (
              query_part ("entity_type" ∷ "trust_marked" ∷ "trust_mark_id" ∷ "intermediate" ∷ [])
                kwargs)))
