-- ===== src/AppServer/Request.antt =====
-- The look at a registration request: `match_claim`, `filter_client_request` and `verify_redirect_uris` of
-- src/fedservice/appserver/oauth2/registration.py.
pub mod Filtered
pub mod Redirects
use fedservice.Prelude.{
  capabilities_mismatch, invalid_redirect_uri, String, Bool, true, false, not, ◌&&◌, ◌||◌, Option,
  none, some, List, [], ◌∷◌, if◌then◌else◌, ◌==◌, Result, ok, raised, ◌>>=◌, ◌>>◌, guard, require,
  key_error, type_error,
}
use fedservice.Prelude.Dict.{Dict, lookup, has_key, insert}
use fedservice.Value.{
  of_set, contained, nil, intersection, end, contained_in, elements, str, cons, array, object,
  to_set, is_list, atom, Value, truthy, text, value_eq,
}

-- What the endpoint knows of itself: `register2preferred`, the `c_param` of its registration
-- response, where only whether a claim is a list is read, and `provider_info`.
pub record Capabilities : Type 0 where
  pub register2preferred : Dict String
  pub is_list_claim : Dict Bool
  pub provider_info : Dict Value

-- `_ret`, the members of both, if there are any
abbrev common : Value → Value → Result (Option Value)
common mine asked = to_set mine >>= λ s. to_set asked >>= λ t. elim (intersection s t) [
  | [] ↦ raised capabilities_mismatch
  | a ∷ both ↦ ok (some (of_set (a ∷ both)))
]

-- `return val`, where the test holds, and else `return None`
abbrev if_found : Value → Bool → Option Value
if_found val found = if found then some val else none

-- What `match_claim` does with the endpoint's own value, for a claim that is a list or not
unfoldable pub match_list : Value → Value → Result (Option Value)
match_list mine (atom (str s)) = contained s mine >>= λ found. ok (if_found (text s) found)
match_list mine (atom a) = common mine (atom a)
match_list mine (array xs) = common mine (array xs)
match_list mine (object fs) = common mine (object fs)

unfoldable pub match_single : Value → Value → Result (Option Value)
match_single mine val =
    if is_list mine
    then (contained_in val mine >>= λ found. ok (if_found val found))
    else ok (if_found val (value_eq val mine))

-- The name of a claim among the endpoint's own
abbrev pub preferred : Capabilities → String → String
preferred context claim = elim (lookup claim context.register2preferred) [
  | none ↦ claim
  | some key ↦ key
]

-- `match_claim`
unfoldable pub match_claim : Capabilities → String → Value → Result (Option Value)
unfolding match_list match_single
match_claim context claim val = elim (lookup (preferred context claim) context.provider_info) [
  | none ↦ ok (some val)
  | some mine ↦ elim (lookup claim context.is_list_claim) [
    | none ↦ ok none
    | some listed ↦
        if not (truthy mine)
        then ok none
        else (if listed then match_list mine val else match_single mine val)
  ]
]

-- The loop of `filter_client_request`, from the claims `args` on
unfoldable pub filter_from : Capabilities → Dict Value → Dict Value → Result (Dict Value)
unfolding match_claim
filter_from context args [] = ok args
filter_from context args ((key, val) ∷ request) =
    if has_key key context.register2preferred
    then (match_claim context key val >>= λ matched.
        filter_from context
          (elim matched [ none ↦ args | some v ↦ if truthy v then insert key v args else args ])
          request)
    else filter_from context (insert key val args) request

unfoldable pub filter_client_request : Capabilities → Dict Value → Result (Dict Value)
unfolding filter_from
filter_client_request context request = filter_from context [] request

-- What `urlparse` finds; an empty query or fragment is the empty text.
pub record Parsed : Type 0 where
  pub scheme : String
  pub hostname : Option String
  pub query : String
  pub fragment : String

-- `urlparse` and `split_uri` of idpyoidc; the query of a URI is `None` or a dictionary.
pub record Uris : Type 0 where
  pub urlparse : Value → Result Parsed
  pub split_uri : Value → Result (Value × Value)

abbrev pub is_http : Parsed → Bool
is_http p = p.scheme == "http" || p.scheme == "https"

abbrev pub is_local : Parsed → Bool
is_local p = elim p.hostname [
  | none ↦ false
  | some host ↦ host == "localhost" || host == "127.0.0.1"
]

-- The tests on one redirect URI: is its scheme a custom one?
unfoldable pub check_native : Parsed → Result Bool
check_native p =
    if not (is_http p)
    then ok true
    else (if p.scheme == "http" && is_local p then ok false else raised invalid_redirect_uri)

unfoldable pub check_other : Bool → Parsed → Result Bool
check_other must_https p =
    if must_https && not (p.scheme == "https")
    then raised invalid_redirect_uri
    else guard (is_http p && p.fragment == "") invalid_redirect_uri >> ok false

abbrev pub client_type : Dict Value → Value
client_type request = elim (lookup "application_type" request) [ none ↦ text "web" | some t ↦ t ]

abbrev pub only_code : Dict Value → Bool
only_code request = elim (lookup "response_types" request) [
  | none ↦ false
  | some types ↦ value_eq types (array (cons (text "code") nil))
]

abbrev pub must_https : Dict Value → Bool
must_https request = value_eq (client_type request) (text "web") && not (only_code request)

unfoldable pub check_uri : Dict Value → Parsed → Result Bool
unfolding check_native check_other
check_uri request p =
    if value_eq (client_type request) (text "native")
    then check_native p
    else check_other (must_https request) p

-- The pair that is kept for a URI
abbrev verified_uri : Uris → Value → Bool → Result (Value × Value)
verified_uri uris uri custom =
    if custom
    then ok (uri, object end)
    else (uris.split_uri uri >>= λ parts.
        ok (parts.0, if truthy parts.1 then parts.1 else object end))

-- The body of the loop
unfoldable pub verify_uri : Uris → Dict Value → Value → Parsed → Result (Value × Value)
unfolding check_uri
verify_uri uris request uri p = check_uri request p >>= λ custom. verified_uri uris uri custom

-- The loop over the URIs
unfoldable pub verify_uris : Uris → Dict Value → List Value → Result (List (Value × Value))
unfolding verify_uri
verify_uris uris request [] = ok []
verify_uris uris request (uri ∷ rest) = uris.urlparse uri >>= λ p.
    verify_uri uris request uri p >>= λ pair.
    verify_uris uris request rest >>= λ pairs. ok (pair ∷ pairs)

-- `verify_redirect_uris`; the URIs come in a list.
unfoldable pub verify_redirect_uris : Uris → Dict Value → Result (List (Value × Value))
unfolding verify_uris
verify_redirect_uris uris request =
    require (lookup "redirect_uris" request) key_error >>= λ redirect_uris. elim redirect_uris [
      | array xs ↦ verify_uris uris request (elements xs)
      | atom a ↦ raised type_error
      | object fs ↦ raised type_error
    ]
