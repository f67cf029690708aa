-- ===== src/AppServer/Request/Redirects.antt =====
-- Which redirect URIs src/fedservice/appserver/oauth2/registration.py accepts.
use fedservice.AppServer.Request.{
  str, atom, array, verify_uri, end, must_https, is_local, object, check_other, is_http,
  invalid_redirect_uri, client_type, check_native, verify_uris, check_uri, Parsed, Uris,
}
use fedservice.Prelude.{
  ℕ, zero, suc, ◌≡◌, refl, inl, inr, Bool, true, false, not, ◌&&◌, ◌||◌, some, List, [], ◌∷◌, arith,
  if◌then◌else◌, string_dec, ◌==◌, Bool-cases, ok, raised, ◌>>=◌, >>=-eq-ok, get_elem?, all,
}
use fedservice.Prelude.Dict.{Dict}
use fedservice.Value.{
  Atom-discrete, norm, atom_eq_symm, atom_eq_trans, atom_eq, Value, truthy, text, value_eq,
}

-- A native client has a scheme of its own or http on its own machine; other clients have http or https,
-- https where they must, and no fragment.
unfoldable pub acceptable : Dict Value → Parsed → Bool
acceptable request p =
    if value_eq (client_type request) (text "native")
    then not (is_http p) || (p.scheme == "http" && is_local p)
    else is_http p && p.fragment == "" && (not (must_https request) || p.scheme == "https")

-- What is kept of a URI
unfoldable pub kept : Dict Value → Parsed → Value → Value × Value → Value × Value
kept request p uri (base, query) =
    if value_eq (client_type request) (text "native") && not (is_http p)
    then (uri, object end)
    else (base, if truthy query then query else object end)

verified_one :
    (uris : Uris) (request : Dict Value) (p : Parsed) (uri : Value) (parts : Value × Value)
    → uris.split_uri uri ≡ ok parts
    → verify_uri uris request uri p ≡ (
        if acceptable request p then ok (kept request p uri parts) else raised invalid_redirect_uri)
unfolding verify_uri check_uri check_native check_other acceptable kept
verified_one uris request p uri parts splits = ground (arith, splits)

web-native : atom_eq (str "web") (str "native") ≡ false
unfolding atom_eq norm Atom-discrete string_dec
web-native = refl

other_text : (v : Value) → value_eq v (text "web") ≡ true → value_eq v (text "native") ≡ false
unfolding value_eq
other_text (array xs) h = cc
other_text (object fs) h = cc
other_text (atom a) h = elim (Bool-cases (atom_eq a (str "native"))) [
  | inr differs ↦ differs
  | inl same ↦ ground (
    arith,
    atom_eq_trans (str "web") a (str "native") (ground (arith, h, atom_eq_symm a (str "web"))) same,
    web-native,
  )
]

https_uri :
    (uris : Uris) (request : Dict Value) (uri : Value) (p : Parsed) (pair : Value × Value)
    → value_eq (client_type request) (text "native") ≡ false
    → must_https request ≡ true
    → verify_uri uris request uri p ≡ ok pair
    → (p.scheme ≡ "https") × (p.fragment ≡ "")
unfolding verify_uri check_uri check_other
https_uri uris request uri p pair other https verifies =
    (ground (arith, other, https, verifies), ground (arith, other, https, verifies))

module _ (uris : Uris) (request : Dict Value) (parse : Value → Parsed)
    (split : Value → Value × Value) where
  -- The URIs that are kept
  abbrev pub kept_uris : List Value → List (Value × Value)
  kept_uris [] = []
  kept_uris (uri ∷ rest) = kept request (parse uri) uri (split uri) ∷ kept_uris rest

  -- Where the listed URIs can be parsed and split, `verify_redirect_uris` accepts the list exactly when each
  -- of them is acceptable for the type of the client, and keeps one entry for each; else
  -- it raises InvalidRedirectURIError.
  pub verify_uris-eq :
      (xs : List Value)
      → ((i : ℕ) (uri : Value) → get_elem? xs i ≡ some uri → uris.urlparse uri ≡ ok (parse uri))
      → ((i : ℕ) (uri : Value) → get_elem? xs i ≡ some uri → uris.split_uri uri ≡ ok (split uri))
      → verify_uris uris request xs ≡ (
          if all (λ uri. acceptable request (parse uri)) xs
          then ok (kept_uris xs)
          else raised invalid_redirect_uri)
  unfolding verify_uris
  verify_uris-eq [] parses splits = refl
  verify_uris-eq (uri ∷ rest) parses splits = ground (
    arith,
    parses zero uri refl,
    verified_one uris request (parse uri) uri (split uri) (splits zero uri refl),
    verify_uris-eq rest (λ i other here. parses (suc i) other here)
        (λ i other here. splits (suc i) other here),
  )

not_native :
    (request : Dict Value)
    → must_https request ≡ true
    → value_eq (client_type request) (text "native") ≡ false
not_native request https = other_text (client_type request) (ground (arith, https))

-- The URI is parsed, and is a secure one.
abbrev pub Secure : Uris → Value → Type 0
Secure uris uri =
    (p : Parsed) × (uris.urlparse uri ≡ ok p) × (p.scheme ≡ "https") × (p.fragment ≡ "")

at_place :
    (uris : Uris) (x : Value) (xs : List Value) {uri : Value} (i : ℕ)
    → get_elem? (x ∷ xs) i ≡ some uri
    → (p : Parsed) → uris.urlparse x ≡ ok p
    → (p.scheme ≡ "https") × (p.fragment ≡ "")
    → ((j : ℕ) → get_elem? xs j ≡ some uri → Secure uris uri)
    → Secure uris uri
at_place uris x xs zero here p parses (secure, whole) later = (p, cc, secure, whole)
at_place uris x xs (suc i) here p parses (secure, whole) later = later i here

-- A web client that does not ask for the response type `code` alone has only accepted redirect URIs
-- with the scheme https and without a fragment.
pub verify_uris-https :
    (uris : Uris) (request : Dict Value) (xs : List Value) (pairs : List (Value × Value))
    (uri : Value) (i : ℕ)
    → must_https request ≡ true
    → verify_uris uris request xs ≡ ok pairs
    → get_elem? xs i ≡ some uri
    → Secure uris uri
unfolding verify_uris
verify_uris-https uris request [] pairs uri i https run here = cc
verify_uris-https uris request (x ∷ xs) pairs uri i https run here =
    let (p, parses, run1) =
      >>=-eq-ok (uris.urlparse x)
        (λ p. verify_uri uris request x p >>= λ pair.
          verify_uris uris request xs >>= λ pairs'. ok (pair ∷ pairs'))
        run in
    let (pair, verifies, run2) =
      >>=-eq-ok (verify_uri uris request x p)
        (λ pair. verify_uris uris request xs >>= λ pairs'. ok (pair ∷ pairs')) run1 in
    let (rest, more, run3) =
      >>=-eq-ok (verify_uris uris request xs) (λ pairs'. ok (pair ∷ pairs')) run2 in
    at_place uris x xs i here p parses
      (https_uri uris request x p pair (not_native request https) https verifies)
      (λ j there. verify_uris-https uris request xs rest uri j https more there)
