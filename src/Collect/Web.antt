-- ===== src/Collect/Web.antt =====
-- What the collector takes from outside the program, and the requests of
-- src/fedservice/entity/client/entity_configuration.py that it sends.
-- The answer to an HTTP request: `ConnectionError`, or a status code and a text.
use fedservice.Statement.{EntityStatement}
use fedservice.Prelude.{
  value_error, key_error, failed_retrieval, connection_error, attribute_error, missing_page, ℕ,
  String, Bool, true, false, Option, List, eqb, if◌then◌else◌, ◌==◌, Result, ok, raised, ◌>>=◌,
  require,
}
use fedservice.Prelude.Dict.{Dict, lookup}
use fedservice.Prelude.Int.{ℤ}
use fedservice.Value.{Value, text}

pub data Reply : Type 0 where
  unreachable : Reply
  response : ℕ → String → Reply

pub record Url : Type 0 where
  pub scheme : String
  pub netloc : String
  pub path : String

-- The clock, `requests`, `urllib`, `Message.request` of idpyoidc and the JWS code of cryptojwt, during one
-- run. `factory` is the payload that `factory(token).jwt.payload()` gives for a JWS, `unpack` is
-- `JWT(key_jar).unpack` with the keys of one issuer, `root_issuer` the search for an issuer
-- from the topmost unit.
pub record Web : Type 0 where
  pub now : ℤ
  pub http_get : String → Reply
  pub urlparse : String → Result Url
  pub request : Value → Dict String → Result String
  pub factory : String → Option EntityStatement
  pub unpack : String → List Value → String → Result EntityStatement
  pub root_issuer : String

abbrev concat : String → String → String
concat String.[] t = t
concat (String.◌∷◌ c s) t = String.◌∷◌ c (concat s t)

abbrev pub construct_well_known_url : Web → String → String → Result String
construct_well_known_url web entity_id typ = web.urlparse entity_id >>= λ p.
    ok (concat p.scheme (concat "://" (concat p.netloc (concat "/.well-known/" typ))))

abbrev pub construct_tenant_well_known_url : Web → String → String → Result String
construct_tenant_well_known_url web entity_id typ = web.urlparse entity_id >>= λ p.
    ok (
      concat p.scheme (concat "://" (concat p.netloc (concat p.path (concat "/.well-known/" typ)))))

-- `EntityConfiguration.get_request_parameters` for an `entity_id`: the URL.
unfoldable pub configuration_url : Web → String → Bool → Result String
configuration_url web entity_id tenant =
    let issuer = if entity_id == "" then web.root_issuer else entity_id in
    if issuer == ""
    then raised attribute_error
    else (if tenant
        then construct_tenant_well_known_url web issuer "openid-federation"
        else construct_well_known_url web issuer "openid-federation")

-- `get_document`
abbrev pub get_document : Web → String → Result String
get_document web url = elim (web.http_get url) [
  | unreachable ↦ raised connection_error
  | response status text ↦
      if eqb status 200
      then ok text
      else (if eqb status 404 then raised missing_page else raised failed_retrieval)
]

-- After a `MissingPage`: the tenant's URL, if it is another one.
unfoldable pub get_for_tenant : Web → String → String → Result String
get_for_tenant web entity_id url = configuration_url web entity_id true >>= λ tenant_url.
    if tenant_url == url then raised missing_page else get_document web tenant_url

-- `get_entity_configuration`; every exception but `MissingPage` goes on to the caller.
unfoldable pub get_entity_configuration : Web → String → Result String
get_entity_configuration web entity_id = configuration_url web entity_id false >>= λ url.
    elim (get_document web url) [
      | raised missing_page ↦ get_for_tenant web entity_id url
      | other ↦ other
    ]

-- `unverified_entity_statement`
abbrev pub unverified_entity_statement : Web → String → Result EntityStatement
unverified_entity_statement web signed_jwt = require (web.factory signed_jwt) value_error

-- `verify_self_signed_signature`
unfoldable pub verify_self_signed_signature : Web → String → Result EntityStatement
verify_self_signed_signature web statement =
    unverified_entity_statement web statement >>= λ payload.
    require payload.jwks key_error >>= λ jwks. web.unpack payload.iss jwks statement

-- `get_endpoint`
abbrev pub get_endpoint : String → EntityStatement → Result (Option Value)
get_endpoint endpoint_type config = require config.metadata key_error >>= λ metadata.
    require (lookup "federation_entity" metadata) key_error >>= λ claims.
    ok (lookup (concat "federation_" (concat endpoint_type "_endpoint")) claims)

abbrev pub cache_key : String → String → String
cache_key authority entity = concat authority (concat "!!" entity)

abbrev pub time_key : String → String → String
time_key authority entity = concat authority (concat "!exp!" entity)
