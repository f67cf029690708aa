-- ===== src/AppServer/Explicit/Policies.antt =====
-- What src/fedservice/appserver/oidc/registration.py registers: the metadata of the request, for an entity
-- that has a verified trust chain.
use fedservice.Entity.Picking.{pick_trust_chain_total, Among}
use fedservice.Entity.{FederationEntity}
use fedservice.Statement.{EntityStatement, TrustChain}
use fedservice.AppServer.Explicit.{
  opponent_entity_type, verify_self_signed_signature, pick, save, Response, registration_answer,
  pick_trust_chain, verified_trust_chains, Metadata, register_trusted, process_explicit,
  register_request,
}
use fedservice.AppServer.Saved.{SavedChains, save_trust_chains}
use fedservice.Entity.Verified.{VerifiedFrom, verified_trust_chains-VerifiedFrom}
use fedservice.AppServer.Provider.{federate, Provider, Serve}
use fedservice.Verifier.{Jose}
use fedservice.Collect.Web.{Web}
use fedservice.Prelude.{
  require-eq, raised, ℕ, String, ◌≡◌, refl, subst, inl, inr, Option, some, List, arith, Result, ok,
  require, ◌>>>◌, lift, >>>-eq-ok, key_error,
}
use fedservice.Prelude.Dict.{Dict, lookup, insert}
use fedservice.Value.{Value, text}

module _ (fuel : ℕ) (web : Web) (jose : Jose) (pop : List String → Option String)
    (register : Dict Value → Serve (Dict Value × Dict Value)) (hints : Result (List String)) where
  -- The federation entity of the server verifies trust chains for the subject, with its own keys and collector;
  -- they are saved, the entity picks one of them, and in the state that this leaves, with the anchor of
  -- the chain, the claims of the request are registered: the response is what that gives.
  abbrev pub Answers : EntityStatement → String → Metadata → Provider → Response → Type 0
  Answers payload entity_type claims self response =
      (chains : List TrustChain) × (left : FederationEntity) × (saved : SavedChains)
      × (chain : TrustChain) × (done : Dict Value × Dict Value) × VerifiedFrom fuel web jose
          payload.sub self.federation chains left
      × (save_trust_chains chains self.trust_chains ≡ ok saved)
      × (pick_trust_chain left.tr_priority chains ≡ ok chain)
      × Among chain chains
      × ((register (insert "client_id" (text payload.sub) claims) (record self {
        federation = left;
        trust_chains = saved;
        trust_chain_anchor = chain.anchor;
      })).1
          ≡ ok done)
      × (registration_answer fuel web jose pop register hints payload entity_type chain.anchor done
          ≡ ok response)

  picked-Among :
      (priority : List String) (chains : List TrustChain) (chain : TrustChain)
      → pick_trust_chain priority chains ≡ ok chain
      → Among chain chains
  picked-Among priority chains chain picks = elim (pick_trust_chain_total priority chains) [
    | inl (none_there, fails) ↦ ground (arith, picks, fails)
    | inr (found, here, among) ↦ subst (λ c. Among c chains) (ground (arith, here, picks)) among
  ]

  saved_state :
      (chains : List TrustChain) (self : Provider) (r : Result SavedChains) (done : Unit {0})
      → save_trust_chains chains self.trust_chains ≡ r
      → (save fuel web jose pop chains self).1 ≡ ok done
      → (saved : SavedChains) × (save_trust_chains chains self.trust_chains ≡ ok saved)
        × ((save fuel web jose pop chains self).0 ≡ record self { trust_chains = saved })
  saved_state chains self (raised e) done saves run = ground (arith, saves, run)
  saved_state chains self (ok saved) done saves run = (saved, saves, ground (arith, saves))

  register_trusted-Answers :
      (payload : EntityStatement) (entity_type : String) (claims : Metadata) (self : Provider)
      (response : Response)
      → (register_trusted fuel web jose pop register hints payload entity_type claims self).1
        ≡ ok response
      → Answers payload entity_type claims self response
  unfolding register_trusted register_request
  register_trusted-Answers payload entity_type claims self response run =
      let (chains, got, run1) =
        >>>-eq-ok (federate (verified_trust_chains fuel web jose payload.sub))
          (λ chains. save fuel web jose pop chains >>> λ saved.
            pick fuel web jose pop chains >>> λ chain.
            register_request fuel web jose pop register hints payload entity_type claims
              chain.anchor)
          self run in
      let left = (verified_trust_chains fuel web jose payload.sub self.federation).0 in
      let (done_saving, saves, run2) =
        >>>-eq-ok (save fuel web jose pop chains)
          (λ saved. pick fuel web jose pop chains >>> λ chain.
            register_request fuel web jose pop register hints payload entity_type claims
              chain.anchor)
          (record self { federation = left }) run1 in
      let (saved, are_saved, same) =
        saved_state chains (record self { federation = left })
          (save_trust_chains chains self.trust_chains) done_saving refl saves in
      let run3 =
        subst
          (λ at.
            ((pick fuel web jose pop chains >>> λ chain.
            register_request fuel web jose pop register hints payload entity_type claims
              chain.anchor)
              at).1
            ≡ ok response)
          same run2 in
      let (chain, picks, run4) =
        >>>-eq-ok (pick fuel web jose pop chains)
          (λ chain.
            register_request fuel web jose pop register hints payload entity_type claims
              chain.anchor)
          (record self { federation = left; trust_chains = saved }) run3 in
      let (done, registers, says) =
        >>>-eq-ok (register (insert "client_id" (text payload.sub) claims))
          (λ done. lift (
            registration_answer fuel web jose pop register hints payload entity_type chain.anchor
              done))
          (record self {
            federation = left;
            trust_chains = saved;
            trust_chain_anchor = chain.anchor;
          })
          run4 in
      (
        chains,
        left,
        saved,
        chain,
        done,
        verified_trust_chains-VerifiedFrom fuel web jose payload.sub self.federation chains got,
        are_saved,
        picks,
        picked-Among left.tr_priority chains chain picks,
        registers,
        says,
      )

  -- A response of the endpoint is for a self-signed request for whose subject the federation entity of the
  -- server, with its own keys and collector, has verified trust chains; they are saved, and it picks one of them,
  -- whose anchor the response names where it is an entity statement. What is registered, and answered, are the
  -- claims of the request itself for the type that is chosen among its types, with its subject as client, and
  -- not the claims that the policies of the chain leave.
  pub process_explicit-Answers :
      (request : String) (self : Provider) (response : Response)
      → (process_explicit fuel web jose pop register hints request self).1 ≡ ok response
      → (payload : EntityStatement) × (metadata : Dict Metadata) × (entity_type : String)
        × (claims : Metadata) × (verify_self_signed_signature web request ≡ ok payload)
        × (payload.metadata ≡ some metadata)
        × (opponent_entity_type fuel web jose pop metadata ≡ ok entity_type)
        × (lookup entity_type metadata ≡ some claims)
        × Answers payload entity_type claims self response
  unfolding process_explicit
  process_explicit-Answers request self response run =
      let (payload, verifies, run1) =
        >>>-eq-ok (lift (verify_self_signed_signature web request))
          (λ payload. lift (require payload.metadata key_error) >>> λ metadata.
            lift (opponent_entity_type fuel web jose pop metadata) >>> λ entity_type.
            lift (require (lookup entity_type metadata) key_error) >>> λ claims.
            register_trusted fuel web jose pop register hints payload entity_type claims)
          self run in
      let (metadata, has, run2) =
        >>>-eq-ok (lift (require payload.metadata key_error))
          (λ metadata. lift (opponent_entity_type fuel web jose pop metadata) >>> λ entity_type.
            lift (require (lookup entity_type metadata) key_error) >>> λ claims.
            register_trusted fuel web jose pop register hints payload entity_type claims)
          self run1 in
      let (entity_type, typed, run3) =
        >>>-eq-ok (lift (opponent_entity_type fuel web jose pop metadata))
          (λ entity_type. lift (require (lookup entity_type metadata) key_error) >>> λ claims.
            register_trusted fuel web jose pop register hints payload entity_type claims)
          self run2 in
      let (claims, claimed, run4) =
        >>>-eq-ok (lift (require (lookup entity_type metadata) key_error))
          (λ claims. register_trusted fuel web jose pop register hints payload entity_type claims)
          self run3 in
      (
        payload,
        metadata,
        entity_type,
        claims,
        verifies,
        require-eq payload.metadata key_error has,
        typed,
        require-eq (lookup entity_type metadata) key_error claimed,
        register_trusted-Answers payload entity_type claims self response run4,
      )
