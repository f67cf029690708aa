-- ===== src/Entity/Kept.antt =====
-- The trust chains that `FederationEntity` of src/fedservice/entity/__init__.py keeps.
use fedservice.Entity.{
  store_trust_chain, verified_trust_chains, collect_and_store, TrustChain, FederationEntity,
  get_trust_chains,
}
use fedservice.Verifier.{Jose}
use fedservice.Collect.Web.{Web}
use fedservice.Prelude.{
  continue_with, ℕ, String, ◌≡◌, inl, inr, some, List, [], ◌∷◌, arith, if◌then◌else◌, Option-cases,
  Result, ok, raised, is_empty, ◌>>>◌, lift,
}
use fedservice.Prelude.Dict.{lookup, lookup-insert}

module _ (fuel : ℕ) (web : Web) (jose : Jose) where
  stored :
      (entity_id : String) (at : FederationEntity × Result (List TrustChain)) (chain : TrustChain)
      (chains : List TrustChain)
      → let kept : FederationEntity × Result (List TrustChain) =
          continue_with
            (λ found.
              if is_empty found
              then lift (ok [])
              else (store_trust_chain fuel web jose entity_id found >>> λ done. lift (ok found)))
            at in
        kept.1 ≡ ok (chain ∷ chains) → lookup entity_id kept.0.trust_chain ≡ some (chain ∷ chains)
  stored entity_id (self, raised e) chain chains run = cc
  stored entity_id (self, ok []) chain chains run = cc
  stored entity_id (self, ok (found ∷ others)) chain chains run =
      ground (arith, run, lookup-insert entity_id entity_id (found ∷ others) self.trust_chain)

  collect_and_store-stores :
      (entity_id : String) (self : FederationEntity) (chain : TrustChain) (chains : List TrustChain)
      → (collect_and_store fuel web jose entity_id self).1 ≡ ok (chain ∷ chains)
      → lookup entity_id (collect_and_store fuel web jose entity_id self).0.trust_chain
        ≡ some (chain ∷ chains)
  unfolding collect_and_store
  collect_and_store-stores entity_id self chain chains run =
      stored entity_id (verified_trust_chains fuel web jose entity_id self) chain chains run

  kept_again :
      (entity_id : String) (self : FederationEntity) (chain : TrustChain) (chains : List TrustChain)
      → lookup entity_id self.trust_chain ≡ some (chain ∷ chains)
      → get_trust_chains fuel web jose entity_id self ≡ (self, ok (chain ∷ chains))
  unfolding get_trust_chains
  kept_again entity_id self chain chains here = ground (arith, here)

  after_first :
      (entity_id : String) (self : FederationEntity) (chain : TrustChain) (chains : List TrustChain)
      → (get_trust_chains fuel web jose entity_id self).1 ≡ ok (chain ∷ chains)
      → lookup entity_id (get_trust_chains fuel web jose entity_id self).0.trust_chain
        ≡ some (chain ∷ chains)
  unfolding get_trust_chains
  after_first entity_id self chain chains run =
      elim (Option-cases (lookup entity_id self.trust_chain)) [
        | inr (kept, here) ↦ ground (arith, run, here)
        | inl nothing ↦
            let stores =
              collect_and_store-stores entity_id self chain chains (ground (arith, run, nothing)) in
            ground (arith, run, nothing, stores)
      ]

  -- Chains that `get_trust_chains` has found are kept: asked again for the same entity, it gives the
  -- same chains, and neither collects anew nor changes anything.
  pub get_trust_chains_again :
      (entity_id : String) (self : FederationEntity) (chain : TrustChain) (chains : List TrustChain)
      → (get_trust_chains fuel web jose entity_id self).1 ≡ ok (chain ∷ chains)
      → get_trust_chains fuel web jose entity_id (get_trust_chains fuel web jose entity_id self).0
        ≡ ((get_trust_chains fuel web jose entity_id self).0, ok (chain ∷ chains))
  get_trust_chains_again entity_id self chain chains run =
      kept_again entity_id (get_trust_chains fuel web jose entity_id self).0 chain chains
        (after_first entity_id self chain chains run)
