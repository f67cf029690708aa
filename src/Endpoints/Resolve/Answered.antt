-- ===== src/Endpoints/Resolve/Answered.antt =====
-- What the resolver of src/fedservice/entity/server/resolve.py answers.
use fedservice.Entity.Picking.{with_anchor-Among, with_anchor-none, Among, no_chain}
use fedservice.Entity.Verified.{with_run-eq}
use fedservice.Chains.{verified_and_applied, collect_trust_chains}
use fedservice.Collect.Run.{TrustChainCollector}
use fedservice.Endpoints.Resolve.{
  read_exported, get_chain, on_collector, response_claims, metadata_asked, Item, chains_to, resolve,
  respond,
}
use fedservice.Statement.{TrustChain}
use fedservice.Verifier.{KeyJar, Jose}
use fedservice.Collect.Web.{Web}
use fedservice.Entity.{FederationEntity, with_anchor}
use fedservice.Prelude.{
  ℕ, String, ◌≡◌, Bool, true, Option, none, some, List, [], ◌∷◌, arith, string_dec, ok, raised,
  ◌>>>◌, lift, inl, inr, refl, sym, ap, ◌∙◌, Result, Option-cases, continue_with, >>>-eq-ok,
  attribute_error,
}
use fedservice.Prelude.Dict.{Dict, lookup}
use fedservice.Value.{Value}

with_anchor-found :
    (fid : String) (chains : List TrustChain) (chain : TrustChain)
    → with_anchor fid chains ≡ some chain
    → chain.anchor ≡ fid
unfolding with_anchor
with_anchor-found fid [] chain h = cc
with_anchor-found fid (c ∷ chains) chain h = elim (string_dec c.anchor fid) [
  | yes same ↦ ground (arith, h, same)
  | no differ ↦ with_anchor-found fid chains chain (ground (arith, h, differ))
]

module _ (fuel : ℕ) (web : Web) (jose : Jose) (exported : KeyJar → Value) where
  -- The answer is for the subject, from one of its trust chains up to the anchor that are collected and
  -- verified with the collector and the keys of the entity; it has the metadata of that chain, the statements of
  -- that chain from the caches that this leaves, and the keys that this leaves.
  abbrev pub Resolved :
      String → String → Option String → Bool → FederationEntity → Dict Value → Type 0
  Resolved sub trust_anchor entity_type with_ta_ec self answer =
      (collected : List (List String)) × (config : Option String) × (keyjar : KeyJar)
      × (chains : List TrustChain) × (chain : TrustChain) × (metadata : Value) × (trust_chain : List
          (Option Item))
      × ((collect_trust_chains fuel web sub trust_anchor self.collector).1 ≡ ok (collected, config))
      × (verified_and_applied jose self.keyjar collected config ≡ ok (keyjar, chains))
      × Among chain chains
      × (chain.anchor ≡ trust_anchor)
      × (metadata_asked entity_type chain.metadata ≡ ok metadata)
      × ((get_chain web.now chain.iss_path trust_anchor with_ta_ec
            (collect_trust_chains fuel web sub trust_anchor self.collector).0).1
          ≡ ok trust_chain)
      × (answer ≡ response_claims sub (exported keyjar) metadata trust_chain)

  -- Where no verified trust chain of the subject ends at the anchor that the request names, the
  -- resolver raises an AttributeError.
  pub resolve-no_chain :
      (request : Dict String) (with_ta_ec : Bool) (sub trust_anchor : String)
      (self left : FederationEntity) (chains : List TrustChain)
      → lookup "anchor" request ≡ some trust_anchor
      → lookup "sub" request ≡ some sub
      → chains_to fuel web jose exported sub trust_anchor self ≡ (left, ok chains)
      → no_chain chains trust_anchor ≡ true
      → resolve fuel web jose exported request with_ta_ec self ≡ (left, raised attribute_error)
  unfolding resolve
  resolve-no_chain request with_ta_ec sub trust_anchor self left chains anchor subject run nowhere =
      ground (arith, anchor, subject, run, with_anchor-none trust_anchor chains nowhere)

  respond_says :
      (sub trust_anchor : String) (entity_type : Option String) (with_ta_ec : Bool)
      (chain : TrustChain) (self : FederationEntity) (answer : Dict Value)
      → (respond fuel web jose exported sub trust_anchor entity_type with_ta_ec chain self).1
        ≡ ok answer
      → (metadata : Value) × (trust_chain : List (Option Item)) × (metadata_asked entity_type
            chain.metadata
          ≡ ok metadata)
        × ((get_chain web.now chain.iss_path trust_anchor with_ta_ec self.collector).1
            ≡ ok trust_chain)
        × (answer ≡ response_claims sub (exported self.keyjar) metadata trust_chain)
  unfolding respond
  respond_says sub trust_anchor entity_type with_ta_ec chain self answer run =
      let (metadata, got, run1) =
        >>>-eq-ok (lift (metadata_asked entity_type chain.metadata))
          (λ metadata.
            on_collector (get_chain web.now chain.iss_path trust_anchor with_ta_ec)
            >>> λ trust_chain. read_exported fuel web jose exported >>> λ jwks.
                lift (ok (response_claims sub jwks metadata trust_chain)))
          self run in
      let (trust_chain, read, run2) =
        >>>-eq-ok (on_collector (get_chain web.now chain.iss_path trust_anchor with_ta_ec))
          (λ trust_chain. read_exported fuel web jose exported >>> λ jwks.
            lift (ok (response_claims sub jwks metadata trust_chain)))
          self run1 in
      (metadata, trust_chain, got, read, cc)

  -- The state and the chains of `chains_to`
  Collected : String → String → FederationEntity → List TrustChain → FederationEntity → Type 0
  Collected sub trust_anchor self chains left =
      (collected : List (List String)) × (config : Option String) × (keyjar : KeyJar)
      × ((collect_trust_chains fuel web sub trust_anchor self.collector).1 ≡ ok (collected, config))
      × (verified_and_applied jose self.keyjar collected config ≡ ok (keyjar, chains))
      × (left ≡ record self {
        collector = (collect_trust_chains fuel web sub trust_anchor self.collector).0;
        keyjar = keyjar;
      })

  same_left :
      (f : List (List String) × Option String → Result (KeyJar × List TrustChain))
      (at : TrustChainCollector × Result (List (List String) × Option String))
      → (continue_with (λ run. lift (f run)) at).0 ≡ at.0
  same_left f (self, ok run) = refl
  same_left f (self, raised e) = refl

  chains_to-Collected :
      (sub trust_anchor : String) (self : FederationEntity) (chains : List TrustChain)
      → (chains_to fuel web jose exported sub trust_anchor self).1 ≡ ok chains
      → Collected sub trust_anchor self chains
          (chains_to fuel web jose exported sub trust_anchor self).0
  unfolding chains_to Collected
  chains_to-Collected sub trust_anchor self chains run =
      let verify : List (List String) × Option String → Result (KeyJar × List TrustChain) =
        λ run. verified_and_applied jose self.keyjar run.0 run.1 in
      let collect = collect_trust_chains fuel web sub trust_anchor in
      let (keyjar, verified, left) =
        with_run-eq self ((collect >>> λ run. lift (verify run)) self.collector) chains run in
      let (found, collects, verifies) =
        >>>-eq-ok collect (λ run. lift (verify run)) self.collector verified in
      let kept = same_left verify (collect self.collector) in
      (
        found.0,
        found.1,
        keyjar,
        collects,
        verifies,
        left ∙ ap (λ c. record self { collector = c; keyjar = keyjar }) kept,
      )

  -- An answer of the resolver is for the subject of the request, from a trust chain of that subject that was
  -- collected and verified with the collector and the keys of the entity that is asked and ends at the
  -- anchor of the request; it has the metadata of that chain for the type asked for, the statements of
  -- that chain and the entity's keys.
  pub resolve-Resolved :
      (request : Dict String) (with_ta_ec : Bool) (sub trust_anchor : String)
      (self : FederationEntity) (answer : Dict Value)
      → lookup "anchor" request ≡ some trust_anchor
      → lookup "sub" request ≡ some sub
      → (resolve fuel web jose exported request with_ta_ec self).1 ≡ ok answer
      → Resolved sub trust_anchor (lookup "type" request) with_ta_ec self answer
  unfolding resolve Collected
  resolve-Resolved request with_ta_ec sub trust_anchor self answer anchor subject run =
      let (chains, got, rest) =
        >>>-eq-ok {B = Dict Value} (chains_to fuel web jose exported sub trust_anchor)
          (λ chains. elim (with_anchor trust_anchor chains) [
            | none ↦ lift (raised attribute_error)
            | some chain ↦
                respond fuel web jose exported sub trust_anchor (lookup "type" request) with_ta_ec
                  chain
          ])
          self {b = answer} (ground (arith, anchor, subject, run)) in
      let left = (chains_to fuel web jose exported sub trust_anchor self).0 in
      let (collected, config, keyjar, collects, verifies, same) =
        chains_to-Collected sub trust_anchor self chains got in
      elim (Option-cases (with_anchor trust_anchor chains)) [
        | inl nowhere ↦ ground (arith, rest, nowhere)
        | inr (chain, here) ↦
            let (metadata, trust_chain, asked, read, says) =
              respond_says sub trust_anchor (lookup "type" request) with_ta_ec chain left answer
                (ground (arith, rest, here)) in
            (
              collected,
              config,
              keyjar,
              chains,
              chain,
              metadata,
              trust_chain,
              collects,
              verifies,
              with_anchor-Among trust_anchor chains chain here,
              with_anchor-found trust_anchor chains chain here,
              asked,
              sym (
                    ap
                      (λ at.
                        (get_chain web.now chain.iss_path trust_anchor with_ta_ec at.collector).1)
                      same)
                  ∙ read,
              says ∙ ap (λ at. response_claims sub (exported at.keyjar) metadata trust_chain) same,
            )
      ]
