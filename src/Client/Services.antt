-- ===== src/Client/Services.antt =====
-- The requests of the services under src/fedservice/entity/client/, and what they do to the collector's cache.
use fedservice.Prelude.{
  ℕ, String, true, Option, none, some, List, [], ◌∷◌, if◌then◌else◌, ◌==◌, Result, ok, raised,
  ◌>>=◌, require, is_empty, ◌>>>◌, lift, key_error, type_error, missing_attribute, attribute_error,
}
use fedservice.Prelude.Dict.{Dict, lookup, has_key, mem}
use fedservice.Prelude.Int.{ℤ}
use fedservice.Value.{bool, atom, subscript, Value, truthy, text}
use fedservice.Entity.Endpoint.{list_url}
use fedservice.Entity.TrustMarks.{on_collector}
use fedservice.Entity.Trawl.{Requests}
use fedservice.Entity.{
  Act, get_trust_chains, verified_trust_chains, store_trust_chain, metadata_for,
}
use fedservice.Collect.Run.{read_config}
use fedservice.Collect.Web.{Web}
use fedservice.Cache.{set_item}
use fedservice.Verifier.{Jose, KeyJar}
use fedservice.Statement.{EntityStatement, TrustChain}

-- HTTP with what is parsed from the response, `import_jwks` of cryptojwt, and `urlencode` after an endpoint.
pub record Http : Type 0 where
  pub statement : Value → String → String → Result EntityStatement
  pub configuration : String → Result EntityStatement
  pub ids : String → Result (Option (List String))
  pub with_query : Option Value → Dict Value → String
  pub import_jwks : KeyJar → Value → Value → Result KeyJar

-- `_ec["metadata"]["federation_entity"][self.endpoint_name]`; an empty one is missing.
abbrev pub fetch_endpoint_of : Option EntityStatement → Result Value
fetch_endpoint_of found = require found type_error >>= λ ec.
    require ec.metadata key_error >>= λ metadata.
    require (lookup "federation_entity" metadata) key_error >>= λ claims.
    require (lookup "federation_fetch_endpoint" claims) key_error >>= λ endpoint.
    if truthy endpoint then ok endpoint else raised attribute_error

-- `EntityConfiguration.post_parse_response`
unfoldable pub post_parse_response : EntityStatement → Act EntityStatement
post_parse_response response = on_collector λ self.
    (record self { config_cache = set_item response.iss response self.config_cache }, ok response)

-- The endpoint in `EntityStatement.get_request_parameters`, where none is given
unfoldable pub statement_endpoint : ℤ → String → Act Value
statement_endpoint now issuer =
    on_collector (read_config now issuer) >>> λ ec. lift (fetch_endpoint_of ec)

module _ (fuel : ℕ) (web : Web) (jose : Jose) (http : Http) where
  -- The service `list`, with its arguments
  abbrev pub list_request : String → Dict Value → Act (Option (List String))
  list_request entity_id kwargs =
      list_url fuel web jose http.with_query "" entity_id kwargs >>> λ url. lift (http.ids url)

  -- `do_request` for the services that `trawl` uses
  unfoldable pub client_requests : Requests
  client_requests = record {
    statement = λ superior subordinate. statement_endpoint web.now superior >>> λ endpoint.
        lift (http.statement endpoint superior subordinate);
    configuration =
        λ subordinate. lift (http.configuration subordinate) >>> λ ec. post_parse_response ec;
    typed =
        λ entity_id entity_type. list_request entity_id (("entity_type", text entity_type) ∷ []);
    intermediates = λ entity_id. list_request entity_id (("intermediate", atom (bool true)) ∷ []);
    import_jwks = http.import_jwks;
  }

-- The endpoint of the arguments, or else that of the keyword; with neither, MissingAttribute is raised.
abbrev pub endpoint_given : String → String → Result String
endpoint_given fetch_endpoint endpoint =
    if fetch_endpoint == ""
    then (if endpoint == "" then raised missing_attribute else ok endpoint)
    else ok fetch_endpoint

-- `{k: v for k, v in request_args.items() if k in names}`
unfoldable pub only_args : List String → Dict Value → Dict Value
only_args names [] = []
only_args names ((k, v) ∷ args) =
    let rest = only_args names args in if mem k names then (k, v) ∷ rest else rest

-- `issuer_of` is the claim `iss` of the payload of a token; `with_query` puts the encoded arguments after the
-- endpoint.
module _ (issuer_of : Value → Result String) (with_query : String → Dict Value → String) where
  -- `TrustMarkStatus.get_request_parameters`: for a trust mark, the endpoint is its issuer.
  unfoldable pub status_url : String → String → Dict Value → Result String
  unfolding only_args
  status_url fetch_endpoint endpoint args = elim (lookup "trust_mark" args) [
    | some token ↦ issuer_of token >>= λ issuer. ok (with_query issuer (("trust_mark", token) ∷ []))
    | none ↦ endpoint_given fetch_endpoint endpoint >>= λ at.
        ok (with_query at (only_args ("sub" ∷ "trust_mark_id" ∷ "iat" ∷ []) args))
  ]

  -- `TrustMarkList.get_request_parameters`
  unfoldable pub mark_list_url : String → String → Dict Value → Result String
  unfolding only_args
  mark_list_url fetch_endpoint endpoint args = endpoint_given fetch_endpoint endpoint >>= λ at.
      ok (with_query at (only_args ("trust_mark_id" ∷ []) args))

-- `Resolve.get_request_parameters`: `request` is the check of the message and the URL it gives.
unfoldable pub resolve_url :
    (Dict Value → String → Result String) → String → Dict Value → Result String
resolve_url request endpoint args =
    if endpoint == "" then raised attribute_error else request args endpoint

-- `TrustMark.construct_request`
unfoldable pub mark_request : Dict Value → Result (Dict Value)
mark_request args = if has_key "trust_mark_id" args then ok args else raised missing_attribute

module _ (fuel : ℕ) (web : Web) (jose : Jose) where
  abbrev pub mark_endpoint : List TrustChain → Result Value
  mark_endpoint [] = ok (text "")
  mark_endpoint (chain ∷ chains) = metadata_for "federation_entity" chain.metadata >>= λ claims.
      subscript "federation_trust_mark_endpoint" claims

  abbrev pub collect_again : String → Act (List TrustChain)
  collect_again issuer = verified_trust_chains fuel web jose issuer >>> λ chains.
      if is_empty chains
      then lift (ok [])
      else (store_trust_chain fuel web jose issuer chains >>> λ done. lift (ok chains))

  -- `TrustMark.get_endpoint`, for the issuer of the client's context
  unfoldable pub get_mark_endpoint : String → Act Value
  get_mark_endpoint issuer = get_trust_chains fuel web jose issuer >>> λ chains.
      (if is_empty chains then collect_again issuer else lift (ok chains)) >>> λ found.
      lift (mark_endpoint found)
