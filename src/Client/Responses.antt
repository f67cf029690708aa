-- ===== src/Client/Responses.antt =====
-- Which branches of src/fedservice/entity/client/__init__.py a response can reach.
use fedservice.Client.{
  read_response, service_error, parse_body, page, http_response, system_error, Answer,
  body_type_for, HttpResponse, parse_request_response, get_response, Service,
}
use fedservice.Prelude.{
  >>=_ext, String, ◌≡◌, refl, inl, inr, Bool, true, false, ◌&&◌, ◌||◌, arith, ltb, leb, eqb,
  if◌then◌else◌, ◌==◌, Bool-cases, Result, ok, raised, ◌>>=◌,
}

-- What `get_response` makes of a response, by its status alone
abbrev pub by_status : Service → HttpResponse → String → Result Answer
by_status service resp body_type =
    if leb 400 resp.status_code
    then ok (system_error resp.body)
    else (if leb 300 resp.status_code
        then ok (http_response resp)
        else (if body_type == "html"
            then ok (page resp.body)
            else (if service.successful resp.status_code
                then parse_body service resp body_type
                else raised service_error)))

by_parts :
    {A : Type 0} (successful b c d : Bool) (x y z u v : A)
    → b ≡ false
    → c ≡ false
    → d ≡ false
    → (if successful then x else (if b then y else (if c then z else (if d then u else v))))
      ≡ (if successful then x else v)
by_parts true b c d x y z u v hb hc hd = refl
by_parts false b c d x y z u v hb hc hd = rw (hb, hc, hd)

parse_low :
    (service : Service) (resp : HttpResponse) (body_type : String)
    → leb 300 resp.status_code ≡ false
    → parse_request_response service resp body_type ≡ (
        if service.successful resp.status_code
        then parse_body service resp body_type
        else raised service_error)
unfolding parse_request_response
parse_low service resp body_type low =
    by_parts (service.successful resp.status_code)
      (eqb resp.status_code 302 || eqb resp.status_code 303) (eqb resp.status_code 500)
      (leb 400 resp.status_code && ltb resp.status_code 500) _ _ _ _ _ (ground arith) (ground arith)
      (ground arith)

if_eq : {A : Type 0} (b : Bool) (x y z : A) → y ≡ z → (if b then x else y) ≡ (if b then x else z)
if_eq true x y z h = refl
if_eq false x y z h = h

read_response-eq :
    (service : Service) (resp : HttpResponse) (body_type : String)
    → read_response service resp body_type ≡ by_status service resp body_type
unfolding read_response
read_response-eq service resp body_type = elim (Bool-cases (leb 400 resp.status_code)) [
  | inl high ↦ ground (arith, high)
  | inr low ↦ elim (Bool-cases (leb 300 resp.status_code)) [
    | inl redirect ↦ ground (arith, low, redirect)
    | inr fine ↦ ground (
      arith,
      low,
      fine,
      if_eq (body_type == "html") (ok (page resp.body)) _ _ (parse_low service resp body_type fine),
    )
  ]
]

-- The body of an error response is never parsed: `get_response` answers every response from 400 on with
-- a system error, every one from 300 on with the HTTP response itself, and every one below with its text
-- where the body type is html. Of the others below 300, the body of a successful one is parsed, and any
-- other raises OidcServiceError. What the HTTP client raises goes on.
pub get_response-eq :
    (http : String → String → Result HttpResponse) (service : Service)
    (url method body_type : String)
    → get_response http service url method body_type
      ≡ (http method url >>= λ resp. by_status service resp (body_type_for service body_type))
unfolding get_response
get_response-eq http service url method body_type =
    >>=_ext (http method url) (λ resp. read_response service resp (body_type_for service body_type))
      (λ resp. by_status service resp (body_type_for service body_type))
      (λ resp. read_response-eq service resp (body_type_for service body_type))
