-- ===== src/AppServer/Automatic.antt =====
-- The automatic registration of a client: `Authorization` of
-- src/fedservice/appserver/oauth2/authorization.py.
use fedservice.Chains.{apply_policies, verify_trust_chains}
use fedservice.Statement.{TrustChain}
use fedservice.Entity.{with_run, verified_trust_chains, Act}
use fedservice.AppServer.Provider.{
  import_keys, claims_for, set_anchor, federate, import_client_keys, Serve, KeyImport,
}
use fedservice.Verifier.{Jose}
use fedservice.Collect.Web.{Web}
pub mod Registered
use fedservice.Prelude.{
  no_trusted_chains, ℕ, String, Bool, Option, none, some, List, [], ◌∷◌, reverse, if◌then◌else◌,
  ◌==◌, Result, ok, raised, ◌>>=◌, ◌>>◌, require, is_empty, ◌>>>◌, lift, key_error, type_error,
}
use fedservice.Prelude.Dict.{Dict, lookup, insert}
use fedservice.Value.{array, entries, str, atom, object, contained, Value, text}

-- What the request's client is, before the client authentication of idpyoidc: an error is answered, or
-- it goes on for a client, with the identifier that it had before where that is another.
pub data Authenticated : Type 0 where
  unauthorized_client : Authenticated
  authenticate : String → Option String → Authenticated

module _ (fuel : ℕ) (web : Web) (jose : Jose) where
  -- The chains that come with a request, the leaf first: they are verified as they are.
  abbrev provided_chains : List String → Act (List TrustChain)
  provided_chains chain self = with_run self (
    self.collector,
    verify_trust_chains jose self.keyjar (reverse chain ∷ []) [] >>= λ run.
        apply_policies run.1 >>= λ chains. ok (run.0, chains),
  )

  -- The trust chains, with the policies applied
  unfoldable pub chains_for : String → List String → Act (List TrustChain)
  unfolding verified_trust_chains
  chains_for entity_id provided =
      if is_empty provided
      then verified_trust_chains fuel web jose entity_id
      else provided_chains provided

  -- `register` is `process_request` of the registration endpoint of idpyoidc, by which
  -- `non_fed_process_request` handles a request.
  module _ (key_import : KeyImport) (register : Dict Value → Serve (Dict Value)) where
    -- `response_info["response_args"]["client_id"]`, where a KeyError gives `None`
    abbrev pub registered_id : Dict Value → Result (Option Value)
    registered_id response_info = elim (lookup "response_args" response_info) [
      | none ↦ ok none
      | some response_args ↦ elim response_args [
        | object fs ↦ ok (lookup "client_id" (entries fs))
        | atom a ↦ raised type_error
        | array xs ↦ raised type_error
      ]
    ]

    -- What follows the trust chains
    unfoldable pub register_chain : String → TrustChain → Serve (Option Value)
    unfolding import_client_keys
    register_chain entity_id chain = set_anchor chain.anchor >>> λ set.
        lift (claims_for "oauth_client" chain.metadata) >>> λ claims.
        import_keys key_import claims entity_id >>> λ imported.
        register (insert "client_id" (text entity_id) claims) >>> λ response_info.
        lift (registered_id response_info)

    -- The first of the chains is taken.
    unfoldable pub register_first : String → List TrustChain → Serve (Option Value)
    unfolding register_chain
    register_first entity_id [] = lift (raised no_trusted_chains)
    register_first entity_id (chain ∷ chains) = register_chain entity_id chain

    unfoldable pub do_automatic_registration : String → List String → Serve (Option Value)
    unfolding chains_for register_first
    do_automatic_registration entity_id provided =
        federate (chains_for entity_id provided) >>> λ chains. register_first entity_id chains

    -- `cdb[_cid] = client_info`, where the two identifiers lead to one dictionary from then on
    abbrev pub also_known_as : String → String → Serve (Unit {0})
    also_known_as cid registered self = elim (lookup registered self.cdb) [
      | none ↦ (self, raised key_error)
      | some info ↦
          let info' = insert "entity_id" (text cid) info in
          (record self { cdb = insert cid info' (insert registered info' self.cdb) }, ok tt)
    ]

    -- What follows the registration; identifiers are texts.
    abbrev pub with_registered : String → Option Value → Serve Authenticated
    with_registered cid none = lift (ok unauthorized_client)
    with_registered cid (some (atom (str registered))) =
        if registered == cid
        then lift (ok (authenticate cid none))
        else (also_known_as cid registered >>> λ done.
            lift (ok (authenticate registered (some cid))))
    with_registered cid (some other) = lift (raised type_error)

    abbrev pub read_cdb : String → Serve (Option (Dict Value))
    read_cdb cid self = (self, ok (lookup cid self.cdb))

    -- `'automatic' in _context.provider_info.get(…)`, where `None` raises a TypeError
    abbrev pub takes_automatic : Serve Bool
    takes_automatic self = (
      self,
      require (lookup "client_registration_types_supported" self.provider_info) type_error
          >>= λ types. contained "automatic" types,
    )

    -- For a client that is not known
    unfoldable pub authenticate_unknown : String → List String → Bool → Serve Authenticated
    unfolding do_automatic_registration
    authenticate_unknown cid provided automatic =
        if automatic
        then (do_automatic_registration cid provided >>> λ registered.
            with_registered cid registered)
        else lift (ok unauthorized_client)

    -- `client_authentication` for the client of the request, and the trust chain of the request
    unfoldable pub client_authentication : String → List String → Serve Authenticated
    unfolding authenticate_unknown
    client_authentication cid provided = read_cdb cid >>> λ known. elim known [
      | some info ↦ lift (ok (authenticate cid none))
      | none ↦ takes_automatic >>> λ automatic. authenticate_unknown cid provided automatic
    ]
