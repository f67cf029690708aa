-- ===== src/Endpoints/Resolve.antt =====
-- The resolver: `Resolve` of src/fedservice/entity/server/resolve.py, up to the signature of the answer.
use fedservice.Chains.{verified_and_applied, collect_trust_chains}
use fedservice.Collect.Path.{get_chain}
use fedservice.Entity.TrustMarks.{on_collector}
use fedservice.Entity.{with_run, with_anchor, Act, metadata_for}
use fedservice.Verifier.{KeyJar, Jose}
use fedservice.Fetch.{create_entity_statement}
use fedservice.Policy.Combine.{Metadata}
use fedservice.Statement.{claims_only, by_type, TrustChain, ChainMetadata}
use fedservice.Collect.Web.{Web}
use fedservice.Collect.Run.{expires, signed, Item}
pub mod Answered
use fedservice.Prelude.{
  ℕ, String, Bool, true, Option, none, some, List, [], ◌∷◌, map, Result, ok, raised, ◌>>=◌, ◌>>◌,
  require, ◌>>>◌, lift, key_error, attribute_error,
}
use fedservice.Prelude.Dict.{Dict, lookup}
use fedservice.Value.{
  num, end, of_entries, of_elements, field, null, object, array, atom, Value, text,
}

abbrev claims_value : Option Metadata → Value
claims_value none = atom null
claims_value (some claims) = object (of_entries claims)

abbrev types_value : Dict (Option Metadata) → Dict Value
types_value [] = []
types_value ((t, claims) ∷ types) = (t, claims_value claims) ∷ types_value types

-- `_chain.metadata`, or the part of it that the request's `type` names
abbrev pub metadata_asked : Option String → ChainMetadata → Result Value
metadata_asked (some entity_type) metadata =
    metadata_for entity_type metadata >>= λ claims. ok (object (field entity_type claims end))
metadata_asked none (by_type types) = ok (object (of_entries (types_value types)))
metadata_asked none (claims_only claims) = ok (object (of_entries claims))

abbrev entry_value : Option Item → Value
entry_value none = atom null
entry_value (some (signed token)) = text token
entry_value (some (expires exp)) = atom (num exp)

-- `create_entity_statement` with the arguments of the resolver
abbrev pub response_claims : String → Value → Value → List (Option Item) → Dict Value
response_claims sub exported metadata trust_chain =
    create_entity_statement sub exported true (record {
      metadata = some metadata;
      metadata_policy = none;
      authority_hints = none;
      constraints = none;
      kwargs = ("trust_chain", array (of_elements (map entry_value trust_chain))) ∷ [];
    })

-- `exported` are the keys of the key jar.
module _ (fuel : ℕ) (web : Web) (jose : Jose) (exported : KeyJar → Value) where
  -- The trust chains of the subject, up to the anchor
  unfoldable pub chains_to : String → String → Act (List TrustChain)
  chains_to sub trust_anchor self = with_run self (
      (collect_trust_chains fuel web sub trust_anchor >>> λ run.
      lift (verified_and_applied jose self.keyjar run.0 run.1))
        self.collector)

  abbrev pub read_exported : Act Value
  read_exported self = (self, ok (exported self.keyjar))

  -- The answer from the chain that was found
  unfoldable pub respond : String → String → Option String → Bool → TrustChain → Act (Dict Value)
  respond sub trust_anchor entity_type with_ta_ec chain =
      lift (metadata_asked entity_type chain.metadata) >>> λ metadata.
      on_collector (get_chain web.now chain.iss_path trust_anchor with_ta_ec) >>> λ trust_chain.
      read_exported >>> λ jwks. lift (ok (response_claims sub jwks metadata trust_chain))

  -- `process_request`
  unfoldable pub resolve : Dict String → Bool → Act (Dict Value)
  unfolding chains_to respond with_anchor
  resolve request with_ta_ec =
      lift (require (lookup "anchor" request) key_error) >>> λ trust_anchor.
      lift (require (lookup "sub" request) key_error) >>> λ sub.
      chains_to sub trust_anchor >>> λ chains. elim (with_anchor trust_anchor chains) [
        | none ↦ lift (raised attribute_error)
        | some chain ↦ respond sub trust_anchor (lookup "type" request) with_ta_ec chain
      ]
