-- ===== src/AppClient/Registration/Accepted.antt =====
-- Which responses src/fedservice/appclient/oauth2/registration.py accepts.
use fedservice.Entity.Verified.{VerifiedFrom}
use fedservice.Collect.Run.{TrustChainCollector}
use fedservice.AppClient.Registration.{
  verify_trust_chains, collect_trust_chains, chain_response, TrustChain, FederationEntity,
  ClientResponse, signature_verifies,
}
use fedservice.Statement.{EntityStatement}
use fedservice.Verifier.{KeyJar, Jose}
use fedservice.Collect.Web.{Web}
use fedservice.Prelude.{
  raised_value, ℕ, String, ◌≡◌, true, Option, none, some, List, [], ◌∷◌, arith, ok, raised_value,
}

module _ (fuel : ℕ) (web : Web) (jose : Jose) (trust_anchor_id : String → Option String)
    (own_id : String) where
  -- Any chains that are collected will do: `_signature_verifies` says yes for them, also where none of
  -- them is verified.
  pub signature_verifies-collected :
      (entity_id trust_anchor : String) (self : FederationEntity) (collector : TrustChainCollector)
      (keyjar : KeyJar) (first : List String) (others : List (List String)) (config : Option String)
      (verified_chains : List TrustChain)
      → collect_trust_chains fuel web entity_id trust_anchor self.collector
        ≡ (collector, ok (first ∷ others, config))
      → verify_trust_chains jose self.keyjar (first ∷ others) [] ≡ ok (keyjar, verified_chains)
      → signature_verifies fuel web jose trust_anchor_id none own_id entity_id trust_anchor self
        ≡ (record self { collector = collector; keyjar = keyjar }, ok true)
  unfolding signature_verifies
  signature_verifies-collected entity_id trust_anchor self collector keyjar first others config
        verified_chains collects verifies =
      ground (arith, collects, verifies)

  -- Some trust chain is collected for the issuer, up to the anchor, with the client's own collector; in the
  -- state that the look at these chains leaves the client has one verified trust chain, and only one, and the
  -- response says what its policies leave of the metadata of the payload.
  abbrev pub FromChain :
      EntityStatement → String → FederationEntity → Option ClientResponse → Type 0
  FromChain payload anchor self found =
      (collector : TrustChainCollector) × (first : List String) × (others : List (List String))
      × (config : Option String) × (keyjar : KeyJar) × (unread : List TrustChain)
      × (chain : TrustChain) × (parsed : ClientResponse) × (left : FederationEntity)
      × (collect_trust_chains fuel web payload.iss anchor self.collector
          ≡ (collector, ok (first ∷ others, config)))
      × (verify_trust_chains jose self.keyjar (first ∷ others) [] ≡ ok (keyjar, unread))
      × VerifiedFrom fuel web jose own_id (record self { collector = collector; keyjar = keyjar })
          (chain ∷ []) left
      × (chain_response fuel web jose trust_anchor_id none own_id payload chain ≡ ok parsed)
      × (found ≡ some parsed)

  -- What `own_response` returns in a state
  abbrev FromOwn : EntityStatement → FederationEntity → Option ClientResponse → Type 0
  FromOwn payload self found =
      (chain : TrustChain) × (parsed : ClientResponse) × (left : FederationEntity) × VerifiedFrom
        fuel web jose own_id self (chain ∷ []) left
      × (chain_response fuel web jose trust_anchor_id none own_id payload chain ≡ ok parsed)
      × (found ≡ some parsed)
