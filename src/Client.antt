-- ===== src/Client.antt =====
-- `FederationClient` of src/fedservice/entity/client/__init__.py: requests to other entities and what is
-- made of the responses.
pub mod Responses
pub mod Services
use fedservice.Prelude.{
  json_decode_error, parse_error, service_error, format_error, ℕ, String, Bool, true, false, ◌&&◌,
  ◌||◌, Option, none, some, [], ◌∷◌, ltb, leb, eqb, if◌then◌else◌, ◌==◌, Result, ok, raised, ◌>>=◌,
  ◌>>◌, Error, key_error, value_error,
}
use fedservice.Prelude.Dict.{Dict, lookup, mem}
use fedservice.Value.{contained, end, object, Value, text}

-- A response; the content type is the header's.
pub record HttpResponse : Type 0 where
  pub status_code : ℕ
  pub body : String
  pub content_type : String

-- A service of idpyoidc: `request_parameters` is its `get_request_parameters` with the arguments of
-- the call, a URL and a method or nothing, `parse_response` and `update_service_context` are its
-- methods. `deserialization_method` and `successful` are the function and the constant of idpyoidc; an empty
-- text is `None`.
pub record Service : Type 0 where
  pub request_parameters : Dict Value → Result (Option (String × String))
  pub response_body_type : String
  pub parse_response : String → String → Result Value
  pub update_service_context : Value → Result (Unit {0})
  pub deserialization_method : String → String
  pub successful : ℕ → Bool

-- What a request gives: the HTTP response, an error message, the text of a page, or what was parsed, with
-- the status code where it was an error.
pub data Answer : Type 0 where
  http_response : HttpResponse → Answer
  system_error : String → Answer
  page : String → Answer
  parsed : Value → Answer
  parsed_error : ℕ → Value → Answer

-- `except (FormatError, ValueError)`, of which a JSONDecodeError is one
abbrev pub is_format_error : Error → Bool
is_format_error format_error = true
is_format_error value_error = true
is_format_error json_decode_error = true
is_format_error e = false

abbrev pub is_service_error : Error → Bool
is_service_error service_error = true
is_service_error e = is_format_error e

abbrev again : ℕ → Result Value → Result Answer
again status (ok err_resp) = ok (parsed_error status err_resp)
again status (raised e) = if is_service_error e then raised service_error else raised e

-- The body of an error response: where the first format does not fit, the expected one is tried.
unfoldable pub parse_error_body : Service → HttpResponse → String → Result Answer
parse_error_body service resp body_type =
    let found = service.deserialization_method resp.content_type in
    let method = if found == "" then "json" else found in
    elim (service.parse_response resp.body method) [
      | ok err_resp ↦ ok (parsed_error resp.status_code err_resp)
      | raised e ↦
          if is_format_error e
          then (if method == body_type
              then raised service_error
              else again resp.status_code (service.parse_response resp.body body_type))
          else raised e
    ]

-- The format in which the body of a successful response is read
abbrev pub value_type : Service → HttpResponse → String → String
value_type service resp body_type =
    let method = service.deserialization_method resp.content_type in
    if mem method ("json" ∷ "jwt" ∷ "urlencoded" ∷ []) then method else body_type

abbrev pub parse_body : Service → HttpResponse → String → Result Answer
parse_body service resp body_type =
    service.parse_response resp.body (value_type service resp body_type) >>= λ v. ok (parsed v)

-- `parse_request_response`
unfoldable pub parse_request_response : Service → HttpResponse → String → Result Answer
unfolding parse_error_body
parse_request_response service resp body_type =
    if service.successful resp.status_code
    then parse_body service resp body_type
    else (if eqb resp.status_code 302 || eqb resp.status_code 303
        then ok (http_response resp)
        else (if eqb resp.status_code 500
            then raised parse_error
            else (if leb 400 resp.status_code && ltb resp.status_code 500
                then parse_error_body service resp body_type
                else raised service_error)))

abbrev pub body_type_for : Service → String → String
body_type_for service body_type = if body_type == "" then service.response_body_type else body_type

-- What `get_response` makes of a response, with the type of the body known
unfoldable pub read_response : Service → HttpResponse → String → Result Answer
unfolding parse_request_response
read_response service resp body_type =
    if leb 300 resp.status_code && ltb resp.status_code 400
    then ok (http_response resp)
    else (if leb 400 resp.status_code
        then ok (system_error resp.body)
        else (if body_type == "html"
            then ok (page resp.body)
            else parse_request_response service resp body_type))

-- `get_response`; `http` is the HTTP client, and its exceptions go on to the caller.
unfoldable pub get_response :
    (String → String → Result HttpResponse) → Service → String → String → String → Result Answer
unfolding read_response
get_response http service url method body_type =
    http method url >>= λ resp. read_response service resp (body_type_for service body_type)

-- `"error" in response`, and the value for the context where it is not; the response of an HTTP redirect
-- is not an error.
abbrev pub to_update : Answer → Result (Option Value)
to_update (http_response resp) = ok (some (object end))
to_update (system_error description) = ok none
to_update (page s) = contained "error" (text s) >>= λ err. ok (if err then none else some (text s))
to_update (parsed v) = contained "error" v >>= λ err. ok (if err then none else some v)
to_update (parsed_error status v) = contained "error" v >>= λ err. ok (if err then none else some v)

-- `service_request`
unfoldable pub service_request :
    (String → String → Result HttpResponse) → Service → String → String → String → Result Answer
unfolding get_response
service_request http service url method body_type =
    get_response http service url method body_type >>= λ response. to_update response >>= λ wanted.
    elim wanted [
      | none ↦ ok response
      | some v ↦ service.update_service_context v >>= λ updated. ok response
    ]

abbrev pub issuer_of : Dict Value → Option Value
issuer_of args = elim (lookup "entity_id" args) [
  | some entity_id ↦ some entity_id
  | none ↦ lookup "issuer" args
]

abbrev pub run_request :
    (String → String → Result HttpResponse)
    → Service
    → String
    → Option (String × String)
    → Result (Option Answer)
run_request http service body_type none = ok none
run_request http service body_type (some (url, method)) =
    service_request http service url method (body_type_for service body_type) >>= λ response.
    ok (some response)

-- `do_request`: the issuer of the context, which was `before`, and the answer, if there is a request.
unfoldable pub do_request :
    (String → String → Result HttpResponse)
    → Dict Service
    → String
    → String
    → Dict Value
    → Option Value
    → Option Value × Result (Option Answer)
unfolding service_request
do_request http services request_type body_type args before = elim (lookup request_type services) [
  | none ↦ (before, raised key_error)
  | some service ↦ (
    issuer_of args,
    service.request_parameters args >>= λ info. run_request http service body_type info,
  )
]
