-- ===== src/AppServer/Automatic/Registered.antt =====
-- Which clients src/fedservice/appserver/oauth2/authorization.py registers.
use fedservice.Entity.{FederationEntity}
use fedservice.AppServer.Provider.{Provider, KeyImport}
use fedservice.Entity.Verified.{VerifiedFrom, verified_trust_chains-VerifiedFrom, with_run-eq}
use fedservice.Chains.{verify_trust_chains, apply_policies}
use fedservice.Verifier.{KeyJar}
use fedservice.AppServer.Provider.{federate}
use fedservice.AppServer.Automatic.{
  register_chain, also_known_as, with_registered, takes_automatic, Authenticated, authenticate,
  client_authentication, authenticate_unknown, register_first, no_trusted_chains,
  do_automatic_registration, TrustChain, Serve, chains_for,
}
use fedservice.Verifier.{Jose}
use fedservice.Collect.Web.{Web}
use fedservice.Prelude.{
  raised_value, string_dec, sym, lift, reverse, subst, ap, ◌∙◌, true, inl, inr, some, ◌==◌,
  if◌then◌else◌, Bool-cases, >>=-eq-ok, ◌>>=◌, ℕ, String, ◌≡◌, refl, Option, none, List, [], ◌∷◌,
  arith, Result, ok, raised, >>>-eq-ok,
}
use fedservice.Prelude.Dict.{Dict, lookup}
use fedservice.Value.{Value, text, atom, str, array, object, null, bool, num}

module _ (fuel : ℕ) (web : Web) (jose : Jose) where
  -- A trust chain that comes with the request is verified, but not compared with the client: for any
  -- two identifiers the same chains are found, and from them the keys and claims of the client are taken.
  pub chains_for-provided :
      (entity_id other statement : String) (provided : List String) (self : FederationEntity)
      → chains_for fuel web jose entity_id (statement ∷ provided) self
        ≡ chains_for fuel web jose other (statement ∷ provided) self
  unfolding chains_for
  chains_for-provided entity_id other statement provided self = refl

  module _ (key_import : KeyImport) (register : Dict Value → Serve (Dict Value)) where
    -- Without verified trust chains a client is not registered: `do_automatic_registration` raises
    -- NoTrustedChains, and neither the clients nor the keys of the server change.
    pub do_automatic_registration-no_chains :
        (entity_id : String) (provided : List String) (self : Provider) (left : FederationEntity)
        → chains_for fuel web jose entity_id provided self.federation ≡ (left, ok [])
        → do_automatic_registration fuel web jose key_import register entity_id provided self
          ≡ (record self { federation = left }, raised no_trusted_chains)
    unfolding do_automatic_registration register_first
    do_automatic_registration-no_chains entity_id provided self left run = ground (arith, run)

    -- The chains are those that the entity verifies for the client, or those that it verifies of the one that
    -- came with the request; `left` is the entity with the keys and the collector that this leaves.
    abbrev pub Chains :
        String → List String → FederationEntity → List TrustChain → FederationEntity → Type 0
    Chains entity_id [] self chains left = VerifiedFrom fuel web jose entity_id self chains left
    Chains entity_id (statement ∷ provided) self chains left =
        (keyjar : KeyJar) × (verified : List TrustChain) × (verify_trust_chains jose self.keyjar
            (reverse (statement ∷ provided) ∷ []) []
          ≡ ok (keyjar, verified))
        × (apply_policies verified ≡ ok chains)
        × (left ≡ record self { collector = self.collector; keyjar = keyjar })

    -- The server takes automatic registrations, and the first of the client's chains is registered, in
    -- the state that their verification leaves, under the identifier `id`.
    abbrev pub Trusted : String → List String → Provider → String → Option String → Type 0
    Trusted cid provided self id before =
        (chain : TrustChain) × (others : List TrustChain) × (left : FederationEntity)
        × ((takes_automatic fuel web jose key_import register self).1 ≡ ok true)
        × Chains cid provided self.federation (chain ∷ others) left
        × ((register_chain fuel web jose key_import register cid chain
              (record self { federation = left })).1
            ≡ ok (some (text id)))
        × (before ≡ (if id == cid then none else some cid))

    chains_for-Chains :
        (cid : String) (provided : List String) (self : FederationEntity) (chains : List TrustChain)
        → (chains_for fuel web jose cid provided self).1 ≡ ok chains
        → Chains cid provided self chains (chains_for fuel web jose cid provided self).0
    unfolding chains_for
    chains_for-Chains cid [] self chains run =
        verified_trust_chains-VerifiedFrom fuel web jose cid self chains run
    chains_for-Chains cid (statement ∷ provided) self chains run =
        let verify : Result (KeyJar × List TrustChain) =
          verify_trust_chains jose self.keyjar (reverse (statement ∷ provided) ∷ []) [] in
        let (keyjar, found, left) =
          with_run-eq self
            (
              self.collector,
              verify >>= λ run. apply_policies run.1 >>= λ chains. ok (run.0, chains),
            )
            chains run in
        let (run1, verified, rest) =
          >>=-eq-ok verify (λ run. apply_policies run.1 >>= λ chains. ok (run.0, chains)) found in
        let (applied, applies, same) =
          >>=-eq-ok (apply_policies run1.1) (λ chains. ok (run1.0, chains)) rest in
        let keys : run1.0 ≡ keyjar = cc in
        let all_chains : applied ≡ chains = cc in
        (
          keyjar,
          run1.1,
          verified ∙ ap (λ k. ok (k, run1.1)) keys,
          applies ∙ ap (λ c. ok c) all_chains,
          left,
        )

    same_answer :
        {id other : String} {before first : Option String}
        → ◌≡◌ {A = Result Authenticated}
            (ok (authenticate id before))
            (ok (authenticate other first))
        → (id ≡ other) × (before ≡ first)
    same_answer same = (cc, cc)

    said_text :
        (cid id registered : String) (before : Option String) (self : Provider)
        → (with_registered fuel web jose key_import register cid (some (text registered)) self).1
          ≡ ok (authenticate id before)
        → (registered ≡ id) × (before ≡ (if id == cid then none else some cid))
    said_text cid id registered before self run = elim (string_dec registered cid) [
      | yes same ↦
          let (is_id, is_before) =
            same_answer {id = cid} {other = id} {before = none} {first = before}
              (ground (arith, run, same)) in
          (same ∙ is_id, sym is_before ∙ ground (arith, is_id))
      | no differ ↦
          let (done, stored, answer) =
            >>>-eq-ok (also_known_as fuel web jose key_import register cid registered)
              (λ done. lift (ok (authenticate registered (some cid)))) self
              {b = authenticate id before} (ground (arith, run, differ)) in
          let (is_id, is_before) = same_answer answer in
          (is_id, sym is_before ∙ ground (arith, is_id, differ))
    ]

    said_id :
        (cid id : String) (before : Option String) (registered : Option Value) (self : Provider)
        → (with_registered fuel web jose key_import register cid registered self).1
          ≡ ok (authenticate id before)
        → (registered ≡ some (text id)) × (before ≡ (if id == cid then none else some cid))
    said_id cid id before none self run = cc
    said_id cid id before (some (array xs)) self run = cc
    said_id cid id before (some (object fs)) self run = cc
    said_id cid id before (some (atom null)) self run = cc
    said_id cid id before (some (atom (bool b))) self run = cc
    said_id cid id before (some (atom (num n))) self run = cc
    said_id cid id before (some (atom (str registered))) self run =
        let (is_id, is_before) = said_text cid id registered before self run in
        (ap (λ s. some (text s)) is_id, is_before)

    registered_first :
        (cid : String) (chains : List TrustChain) (registered : Option Value) (self : Provider)
        → (register_first fuel web jose key_import register cid chains self).1 ≡ ok registered
        → (chain : TrustChain) × (others : List TrustChain) × (chains ≡ chain ∷ others)
          × ((register_chain fuel web jose key_import register cid chain self).1 ≡ ok registered)
    unfolding register_first
    registered_first cid [] registered self run = raised_value run
    registered_first cid (chain ∷ others) registered self run = (chain, others, refl, run)

    -- Where `client_authentication` goes on for a client that the server did not know, the server takes
    -- automatic registrations, the federation entity of the server has verified trust chains, with its own keys
    -- and collector, for the client or from the chain that came with the request, and the client goes on under
    -- the identifier that the registration by the first of them gave it.
    pub client_authentication-Trusted :
        (cid id : String) (before : Option String) (provided : List String) (self : Provider)
        → lookup cid self.cdb ≡ none
        → (client_authentication fuel web jose key_import register cid provided self).1
          ≡ ok (authenticate id before)
        → Trusted cid provided self id before
    unfolding client_authentication authenticate_unknown do_automatic_registration
    client_authentication-Trusted cid id before provided self unknown run =
        let (automatic, takes, rest) =
          >>>-eq-ok (takes_automatic fuel web jose key_import register)
            (λ automatic.
              authenticate_unknown fuel web jose key_import register cid provided automatic)
            self {b = authenticate id before} (ground (arith, unknown, run)) in
        elim (Bool-cases automatic) [
          | inr refuses ↦ ground (arith, rest, refuses)
          | inl accepts ↦
              let (registered, done, answer) =
                >>>-eq-ok (do_automatic_registration fuel web jose key_import register cid provided)
                  (λ registered. with_registered fuel web jose key_import register cid registered)
                  self {b = authenticate id before} (ground (arith, rest, accepts)) in
              let (chains, found, first) =
                >>>-eq-ok (federate (chains_for fuel web jose cid provided))
                  (λ chains. register_first fuel web jose key_import register cid chains) self
                  done in
              let left = (chains_for fuel web jose cid provided self.federation).0 in
              let (chain, others, same, registers) =
                registered_first cid chains registered (record self { federation = left }) first in
              let (is_id, is_before) =
                said_id cid id before registered
                  (do_automatic_registration fuel web jose key_import register cid provided self).0
                  answer in
              (
                chain,
                others,
                left,
                takes ∙ ap (λ b. ok b) accepts,
                subst (λ cs. Chains cid provided self.federation cs left) same
                    (chains_for-Chains cid provided self.federation chains found),
                registers ∙ ap (λ r. ok r) is_id,
                is_before,
              )
        ]
