-- ===== src/AppClient/Registration.antt =====
-- What a client makes of the answer to its explicit registration: `parse_response` of
-- src/fedservice/appclient/oauth2/registration.py and of src/fedservice/appclient/oidc/registration.py.
use fedservice.Entity.TrustMarks.{verify_chains, on_collector}
use fedservice.Entity.{metadata_for, with_run, verified_trust_chains, FederationEntity, Act}
use fedservice.Verifier.{Jose}
use fedservice.Chains.{collect_trust_chains, verify_trust_chains, apply_policies}
use fedservice.Collect.Web.{verify_self_signed_signature, Web}
use fedservice.Policy.Combine.{Metadata}
use fedservice.Statement.{claims_only, by_type, EntityStatement, ChainMetadata, TrustChain}
pub mod Accepted
use fedservice.Prelude.{
  signature_failure, response_error, system_failure, ℕ, zero, suc, ◌+◌, ◌-◌, ◌≤◌, ◌<◌, String, ◌≡◌,
  refl, sym, ap, ◌∙◌, subst, ◌⊎◌, inl, inr, Bool, true, false, not, ◌&&◌, ◌||◌, Option, none, some,
  List, [], ◌∷◌, ◌++◌, map, reverse, arith, ltb, leb, eqb, if◌then◌else◌, string_dec, ◌==◌,
  Bool-cases, Option-cases, Result, ok, raised, ◌>>=◌, ◌>>◌, guard, require, >>=-eq-ok,
  Result-cases, Error, length, get_elem?, get_last?, drop_last, is_empty, filter, any, all,
  Stateful, ◌>>>◌, lift, >>>-eq-ok, Gives, gives, given_by, >>>-Gives, lift-Gives, if-Gives,
  option-Gives, any_Gives, none-Gives, raised_value, length-append, key_error, type_error,
  value_error, attribute_error, index_error,
}
use fedservice.Prelude.Dict.{
  Dict, lookup, has_key, insert, erase, keys, update, mem, lookup-insert, lookup-erase, mem-append,
  has_key-eq-lookup, has_key-insert,
}
use fedservice.Prelude.Int.{ℤ, pos, negsuc, ltb_ℤ, leb_ℤ, ◌+ℤ◌, ◌-ℤ◌, ◌≤ℤ◌}
use fedservice.Value.{Value, Atom, truthy, text, value_eq}

-- What is returned: the response of the function `metadata_verifier`, the metadata of the trust chain, or the
-- claims of one entity type.
pub data ClientResponse : Type 0 where
  by_verifier : Value → ClientResponse
  by_chain : ChainMetadata → ClientResponse
  by_type_claims : Value → ClientResponse

-- `if not resp:`
abbrev pub is_given : ClientResponse → Bool
is_given (by_verifier v) = truthy v
is_given (by_chain (by_type [])) = false
is_given (by_chain (claims_only [])) = false
is_given (by_chain metadata) = true
is_given (by_type_claims v) = truthy v

-- `chain.verified_chain[-1]['metadata'] = metadata`
unfoldable pub set_last_metadata : Dict Metadata → List EntityStatement → List EntityStatement
set_last_metadata metadata [] = []
set_last_metadata metadata (es ∷ []) = record es { metadata = some metadata } ∷ []
set_last_metadata metadata (es ∷ next ∷ rest) = es ∷ set_last_metadata metadata (next ∷ rest)

abbrev pub with_metadata : Dict Metadata → TrustChain → TrustChain
with_metadata metadata chain = record chain {
  verified_chain = set_last_metadata metadata chain.verified_chain;
}

-- The metadata of the payload, unless there is none or it is empty
abbrev pub stated_metadata : EntityStatement → Option (Dict Metadata)
stated_metadata payload = elim payload.metadata [
  | none ↦ none
  | some [] ↦ none
  | some (entry ∷ metadata) ↦ some (entry ∷ metadata)
]

-- The only one of the chains; where there are none or several, a SystemError is raised.
abbrev pub only_chain : List TrustChain → Result TrustChain
only_chain [] = raised system_failure
only_chain (chain ∷ []) = ok chain
only_chain (chain ∷ other ∷ chains) = raised system_failure

abbrev pub apply_to : TrustChain → Result TrustChain
apply_to chain =
    apply_policies (chain ∷ []) >>= λ applied. require (get_elem? applied 0) index_error

-- `trust_anchor_id` is the claim of that name in the payload of a token, `metadata_verifier` the
-- function of the entity, if it has it; `own_id` is the client's own identifier.
module _ (fuel : ℕ) (web : Web) (jose : Jose) (trust_anchor_id : String → Option String)
    (metadata_verifier : Option (String → Result (Option Value))) (own_id : String) where
  abbrev pub trusts : String → Act Bool
  trusts anchor self = (self, ok (has_key anchor self.collector.trust_anchors))

  -- `_signature_verifies`: the chains are verified, and what that gives is not looked at.
  unfoldable pub signature_verifies : String → String → Act Bool
  signature_verifies entity_id trust_anchor =
      on_collector (collect_trust_chains fuel web entity_id trust_anchor) >>> λ run.
      if is_empty run.0
      then lift (ok false)
      else (verify_chains fuel web jose run.0 >>> λ done. lift (ok true))

  -- The metadata of the client's chain: with policies applied to the metadata of the response
  abbrev pub chain_response : EntityStatement → TrustChain → Result ClientResponse
  chain_response payload chain = elim (stated_metadata payload) [
    | none ↦ ok (by_chain chain.metadata)
    | some metadata ↦
        apply_to (with_metadata metadata chain) >>= λ applied. ok (by_chain applied.metadata)
  ]

  unfoldable pub own_response : EntityStatement → Act (Option ClientResponse)
  unfolding verified_trust_chains set_last_metadata
  own_response payload = verified_trust_chains fuel web jose own_id >>> λ chains.
      lift
        (only_chain chains >>= λ chain. chain_response payload chain >>= λ parsed. ok (some parsed))

  -- The same for the OpenID client, where the response ends the chain
  abbrev pub oidc_metadata : EntityStatement → TrustChain → TrustChain
  oidc_metadata payload chain = elim (stated_metadata payload) [
    | none ↦ chain
    | some metadata ↦ with_metadata metadata chain
  ]

  abbrev pub oidc_chains :
      String → List (List String) → FederationEntity → FederationEntity × Result (List TrustChain)
  oidc_chains resp chains self =
      with_run self (self.collector, verify_trust_chains jose self.keyjar chains (resp ∷ []))

  unfoldable pub oidc_response : String → String → EntityStatement → Act (Option ClientResponse)
  unfolding set_last_metadata
  oidc_response resp anchor payload =
      on_collector (collect_trust_chains fuel web own_id anchor) >>> λ run.
      oidc_chains resp run.0 >>> λ chains. lift (
        only_chain chains >>= λ chain. apply_to (oidc_metadata payload chain) >>= λ applied.
        metadata_for "openid_relying_party" applied.metadata >>= λ claims.
        ok (some (by_type_claims claims)))

  -- With a `metadata_verifier`, and without one
  abbrev pub ask_verifier : (String → Result (Option Value)) → String → Act (Option ClientResponse)
  ask_verifier verifier resp = lift (
      verifier resp >>= λ found.
      ok (elim found [ none ↦ none | some v ↦ if truthy v then some (by_verifier v) else none ]))

  unfoldable pub check_chains_signature :
      Act (Option ClientResponse) → String → String → Act (Option ClientResponse)
  unfolding signature_verifies
  check_chains_signature next issuer anchor = signature_verifies issuer anchor >>> λ verifies.
      if verifies then next else lift (raised signature_failure)

  abbrev pub verify_response :
      (EntityStatement → Act (Option ClientResponse))
      → String
      → EntityStatement
      → String
      → Act (Option ClientResponse)
  verify_response next resp payload anchor = elim metadata_verifier [
    | some verifier ↦ ask_verifier verifier resp
    | none ↦ check_chains_signature (next payload) payload.iss anchor
  ]

  -- The part that the two clients share; `next` gets the payload.
  unfoldable pub parse_with :
      (EntityStatement → Act (Option ClientResponse)) → String → Act (Option ClientResponse)
  unfolding check_chains_signature
  parse_with next resp = lift (verify_self_signed_signature web resp) >>> λ payload.
      lift (require (trust_anchor_id resp) key_error) >>> λ anchor. trusts anchor >>> λ trusted.
      if trusted then verify_response next resp payload anchor else lift (raised value_error)

  -- `parse_federation_registration_response`, apart from what the context is given
  unfoldable pub parse_federation_registration_response : String → Act (Option ClientResponse)
  unfolding parse_with own_response
  parse_federation_registration_response resp = parse_with own_response resp

  abbrev oidc_next : String → EntityStatement → Act (Option ClientResponse)
  oidc_next resp payload self = elim (trust_anchor_id resp) [
    | none ↦ (self, raised key_error)
    | some anchor ↦ oidc_response resp anchor payload self
  ]

  unfoldable pub parse_oidc_registration_response : String → Act (Option ClientResponse)
  unfolding parse_with oidc_response
  parse_oidc_registration_response resp = parse_with (oidc_next resp) resp

  -- `parse_response`
  abbrev pub checked_response : Option ClientResponse → Result ClientResponse
  checked_response none = raised response_error
  checked_response (some parsed) = if is_given parsed then ok parsed else raised response_error

  unfoldable pub parse_response : Act (Option ClientResponse) → Act ClientResponse
  parse_response parse = parse >>> λ found. lift (checked_response found)
