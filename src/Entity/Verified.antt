-- ===== src/Entity/Verified.antt =====
-- The run of `get_verified_trust_chains` in the entity of src/fedservice/entity/__init__.py: from which keys and
-- which collector its chains come.
use fedservice.Prelude.{ℕ, String, ◌≡◌, refl, ap, List, Result, ok, raised, raised_value}
use fedservice.Chains.{get_verified_trust_chains}
use fedservice.Collect.Run.{TrustChainCollector}
use fedservice.Collect.Web.{Web}
use fedservice.Entity.{FederationEntity, verified_trust_chains, with_run}
use fedservice.Statement.{TrustChain}
use fedservice.Verifier.{Jose, KeyJar}

pub with_run-eq :
    (self : FederationEntity) (at : TrustChainCollector × Result (KeyJar × List TrustChain))
    (chains : List TrustChain)
    → (with_run self at).1 ≡ ok chains
    → (keyjar : KeyJar) × (at.1 ≡ ok (keyjar, chains))
      × ((with_run self at).0 ≡ record self { collector = at.0; keyjar = keyjar })
with_run-eq self (collector, raised e) chains run = raised_value run
with_run-eq self (collector, ok (keyjar, found)) chains run = (keyjar, cc, refl)

module _ (fuel : ℕ) (web : Web) (jose : Jose) where
  -- With the keys and the collector of `self` the chains are verified for the entity, and `left` is `self`
  -- with the keys and the collector that this leaves.
  abbrev pub VerifiedFrom : String → FederationEntity → List TrustChain → FederationEntity → Type 0
  VerifiedFrom entity_id self chains left =
      (collector : TrustChainCollector) × (keyjar : KeyJar) × (get_verified_trust_chains fuel web
          jose self.keyjar entity_id self.collector
        ≡ (collector, ok (keyjar, chains)))
      × (left ≡ record self { collector = collector; keyjar = keyjar })

  pub verified_trust_chains-VerifiedFrom :
      (entity_id : String) (self : FederationEntity) (chains : List TrustChain)
      → (verified_trust_chains fuel web jose entity_id self).1 ≡ ok chains
      → VerifiedFrom entity_id self chains (verified_trust_chains fuel web jose entity_id self).0
  unfolding verified_trust_chains
  verified_trust_chains-VerifiedFrom entity_id self chains run =
      let at = get_verified_trust_chains fuel web jose self.keyjar entity_id self.collector in
      let (keyjar, found, left) = with_run-eq self at chains run in
      (at.0, keyjar, ap (λ r. (at.0, r)) found, left)
