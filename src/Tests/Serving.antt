-- ===== src/Tests/Serving.antt =====
-- Servers of applications and the client on concrete data.
use fedservice.AppServer.Explicit.Policies.{process_explicit-Answers, Answers}
use fedservice.Policy.Combine.{Metadata}
use fedservice.AppServer.Automatic.Registered.{client_authentication-Trusted, Trusted}
use fedservice.Entity.{verified_trust_chains, pick_trust_chain}
use fedservice.Statement.{EntityStatement, chains2dict_from, chains2dict}
use fedservice.Client.Responses.{get_response-eq}
use fedservice.AppServer.Explicit.{
  response_msg, register_request, register_trusted, process_explicit, opponent_entity_type,
}
use fedservice.Client.{system_error, get_response, Service}
use fedservice.AppServer.Saved.{
  get_trust_chain-save_trust_chains, get_trust_chain, save_chain, save_all, save_trust_chains,
}
use fedservice.Policy.Apply.{apply_policy}
use fedservice.Policy.Chain.{
  apply_for_type, apply_for_types, apply_to_chain, gather_from, gather_policies, policy_for,
  rules_of, set_leaf_metadata,
}
use fedservice.Collect.Trees.{put_branch, tree2chains}
use fedservice.Cache.{get_item}
use fedservice.Collect.Collector.{
  check_cached, collect, collect_branch, collect_superiors, collect_tree, fetch_statement,
  get_federation_fetch_endpoint, get_statement_about, leaf_configuration, refresh_configuration,
}
use fedservice.Tests.World.{ta_config, web, jose, entity, chain}
use fedservice.Constraints.Names.{more_specific}
use fedservice.Constraints.{meets_restrictions}
use fedservice.Verifier.{
  add_keys, expires_from, new_trust_chain, trust_chain_expires_at, verify, verify_statements,
  verify_trust_chain,
}
use fedservice.Chains.{
  apply_policies, collect_trust_chains, get_verified_trust_chains, verified_and_applied,
  verify_trust_chains,
}
use fedservice.AppServer.Automatic.{
  register_chain, register_first, do_automatic_registration, authenticate_unknown,
  client_authentication, chains_for,
}
use fedservice.Collect.Web.{
  configuration_url, get_entity_configuration, get_for_tenant, verify_self_signed_signature,
}
use fedservice.AppServer.Register.Stored.{register_client-done, register_client-error}
use fedservice.AppServer.Request.Filtered.{match_claim-Common, Common}
use fedservice.AppServer.Request.Redirects.{verify_uris-eq, verify_uris-https, kept, acceptable}
use fedservice.AppServer.Register.{
  done, ignored, do_client_registration, error_response, first_info, register_client,
  client_information, Setting,
}
use fedservice.AppServer.Provider.{import_client_keys, Serve, Provider, KeyImport}
use fedservice.AppServer.Request.{
  check_other, check_uri, verify_redirect_uris, match_list, verify_uri, match_claim, Uris, Parsed,
  verify_uris, Capabilities,
}
use fedservice.Prelude.{
  value_error, ◌==◌, subst, ℕ, zero, suc, invalid_redirect_uri, String, ◌≡◌, refl, true, false,
  Option, none, some, List, [], ◌∷◌, eqb, if◌then◌else◌, string_dec, ok, raised, get_elem?, filter,
}
use fedservice.Prelude.Dict.{Dict, lookup, has_key, insert, erase, keys, update, mem}
use fedservice.Prelude.Int.{pos, ◌+ℤ◌, ◌-ℤ◌}
use fedservice.Value.{
  of_entries, entries, contained_in, field, of_elements, end, of_set, object, elements,
  intersection, has, Atom-discrete, dedup, norm, atoms, atom_eq, null, nil, to_set, atom, cons,
  array, Value, truthy, text, value_eq,
}

abbrev http_only : Uris
http_only = record {
  urlparse = λ uri. ok (record {
    scheme = if value_eq uri (text "https://rp.org/cb") then "https" else "http";
    hostname = some "rp.org";
    query = "";
    fragment = "";
  });
  split_uri = λ uri. ok (uri, atom null);
}

abbrev parse_one : Value → Parsed
parse_one uri = record {
  scheme = if value_eq uri (text "https://rp.org/cb") then "https" else "http";
  hostname = some "rp.org";
  query = "";
  fragment = "";
}

abbrev redirect : Value
redirect = text "https://rp.org/cb"

abbrev web_request : Dict Value
web_request = ("redirect_uris", array (cons redirect nil)) ∷ []

-- One URI cannot be parsed; it is not in the list.
abbrev listed : List Value
listed = redirect ∷ text "http://rp.org" ∷ []

abbrev picky : Uris
picky = record http_only {
  urlparse =
      λ uri. if value_eq uri (text "http://[") then raised value_error else ok (parse_one uri);
}

parsed_at :
    (i : ℕ) (uri : Value) → get_elem? listed i ≡ some uri → picky.urlparse uri ≡ ok (parse_one uri)
unfolding value_eq atom_eq norm Atom-discrete string_dec
parsed_at zero uri here =
    let same : redirect ≡ uri = cc in subst (λ u. picky.urlparse u ≡ ok (parse_one u)) same refl
parsed_at (suc zero) uri here =
    let same : text "http://rp.org" ≡ uri = cc in
    subst (λ u. picky.urlparse u ≡ ok (parse_one u)) same refl
parsed_at (suc (suc i)) uri here = cc

verify_uris-eq_example : verify_uris picky web_request listed ≡ raised invalid_redirect_uri
unfolding verify_uris acceptable kept value_eq atom_eq norm Atom-discrete string_dec lookup
verify_uris-eq_example =
    verify_uris-eq picky web_request parse_one (λ uri. (uri, atom null)) listed parsed_at
      (λ i uri here. refl)

verify_uris-https_example :
    (p : Parsed) × (http_only.urlparse redirect ≡ ok p) × (p.scheme ≡ "https") × (p.fragment ≡ "")
unfolding verify_uris verify_uri check_uri check_other value_eq atom_eq norm Atom-discrete
    string_dec lookup truthy
verify_uris-https_example =
    verify_uris-https http_only web_request (redirect ∷ []) ((redirect, object end) ∷ []) redirect 0
      refl refl refl

abbrev capable : Capabilities
capable = record {
  register2preferred = ("response_types", "response_types_supported") ∷ [];
  is_list_claim = ("response_types", true) ∷ [];
  provider_info =
      ("response_types_supported", array (cons (text "code") (cons (text "none") nil))) ∷ [];
}

match_claim-Common_example :
    Common
      (array (cons (text "code") (cons (text "none") nil)))
      (array (cons (text "token") (cons (text "code") nil)))
      (array (cons (text "code") nil))
unfolding match_claim match_list to_set atoms dedup has intersection of_set of_elements value_eq
    atom_eq norm Atom-discrete string_dec lookup truthy elements
match_claim-Common_example =
    match_claim-Common capable "response_types"
      (array (cons (text "code") (cons (text "none") nil)))
      (cons (text "token") (cons (text "code") nil)) (array (cons (text "code") nil)) refl refl refl

-- A server without clients
abbrev no_keys : KeyImport
no_keys = record {
  add_url = λ keyjar entity_id uri. ok keyjar;
  import_jwks = λ keyjar jwks entity_id. ok keyjar;
}

abbrev setting : Setting
setting = record {
  now = pos 100;
  capabilities = capable;
  uris = http_only;
  key_import = no_keys;
  verify_request = λ request. none;
  rm_blanks = λ request. request;
  verify_url = λ uri uris. ok true;
  comb_uri = λ args. ok args;
  signing_keys = λ keyjar alg. true;
  new_client_id = λ reserved. "client";
  salt = "salt";
  secret = λ client_id. "secret";
  client_secret_expires = true;
  client_secret_expires_in = pos 60;
  response_param = "client_id" ∷ "redirect_uris" ∷ [];
}

abbrev server : Provider
server = record {
  cdb = [];
  provider_info = [];
  keyjar = [];
  federation = entity;
  trust_chains = [];
  trust_chain_anchor = "";
}

abbrev insecure : Dict Value
insecure = ("redirect_uris", array (cons (text "http://rp.org") nil)) ∷ []

register_client-error_example :
    (client_information setting
        (λ uri. uri)
        []
        ignored
        insecure
        (first_info setting true true "client")
      ≡ ok (error_response "invalid_redirect_uri"))
    × (lookup "client"
          (register_client setting (λ uri. uri) insecure true true "client" server).0.cdb
        ≡ (if "client" == "client"
            then some (first_info setting true true "client")
            else lookup "client" server.cdb))
unfolding register_client do_client_registration client_information verify_redirect_uris verify_uris
    verify_uri check_uri check_other value_eq atom_eq norm Atom-discrete string_dec lookup truthy
    insert elements
register_client-error_example =
    register_client-error setting (λ uri. uri) insecure true true "client" "invalid_redirect_uri"
      "client" server refl

register_client-done_example :
    (cinfo : Dict Value) × (client_information setting
        (λ uri. uri)
        []
        ignored
        []
        (first_info setting false false "c")
      ≡ ok (done cinfo))
    × (lookup "c" (register_client setting (λ uri. uri) [] false false "c" server).0.cdb
        ≡ some cinfo)
    × (setting.comb_uri (filter (λ entry. mem entry.0 setting.response_param) cinfo)
        ≡ ok (("client_id", text "c") ∷ []))
unfolding register_client do_client_registration client_information import_client_keys lookup insert
    string_dec truthy
register_client-done_example =
    register_client-done setting (λ uri. uri) [] false false "c" server
      (("client_id", text "c") ∷ []) refl

-- Of two chains to one anchor the shorter is kept.
get_trust_chain-save_trust_chains_example :
    get_trust_chain "https://rp.org" "https://ta.org"
      (("https://rp.org", ("https://ta.org", chain) ∷ []) ∷ [])
    ≡ some chain
unfolding save_trust_chains save_all save_chain chains2dict chains2dict_from lookup insert
    string_dec
get_trust_chain-save_trust_chains_example =
    get_trust_chain-save_trust_chains "https://rp.org" "https://ta.org"
      (record chain { verified_chain = ta_config ∷ chain.verified_chain } ∷ chain ∷ []) []
      (("https://rp.org", ("https://ta.org", chain) ∷ []) ∷ []) refl

-- The registration endpoint of idpyoidc, giving each client one identifier
abbrev register_new : Dict Value → Serve (Dict Value)
register_new request self =
    (self, ok (("response_args", object (field "client_id" (text "https://rp.org") end)) ∷ []))

abbrev open_server : Provider
open_server = record server {
  provider_info = ("client_registration_types_supported", array (cons (text "automatic") nil)) ∷ [];
}

client_authentication-Trusted_example :
    Trusted 2 web jose no_keys register_new "https://rp.org"
      ("l" ∷ "t" ∷ [])
      open_server
      "https://rp.org"
      none
unfolding client_authentication authenticate_unknown do_automatic_registration chains_for
    register_first register_chain import_client_keys contained_in elements entries value_eq atom_eq
    norm Atom-discrete of_entries verified_trust_chains collect collect_tree collect_branch
    collect_superiors get_statement_about check_cached fetch_statement get_federation_fetch_endpoint
    refresh_configuration leaf_configuration get_entity_configuration configuration_url
    verify_self_signed_signature get_for_tenant get_item tree2chains put_branch verify
    verify_trust_chain verify_statements add_keys new_trust_chain trust_chain_expires_at
    expires_from meets_restrictions more_specific collect_trust_chains get_verified_trust_chains
    verified_and_applied verify_trust_chains apply_policies apply_to_chain apply_for_types
    apply_for_type policy_for gather_policies gather_from rules_of set_leaf_metadata lookup insert
    has_key truthy string_dec ◌-ℤ◌ ◌+ℤ◌ keys apply_policy
client_authentication-Trusted_example =
    client_authentication-Trusted 2 web jose no_keys register_new "https://rp.org" "https://rp.org"
      none ("l" ∷ "t" ∷ []) open_server refl refl

abbrev first_type : List String → Option String
first_type names = get_elem? names 0

abbrev register_same : Dict Value → Serve (Dict Value × Dict Value)
register_same request self = (self, ok (request, ("response_args", object end) ∷ []))

process_explicit-Answers_example :
    (payload : EntityStatement) × (metadata : Dict Metadata) × (entity_type : String)
    × (claims : Metadata) × (verify_self_signed_signature web "l" ≡ ok payload)
    × (payload.metadata ≡ some metadata)
    × (opponent_entity_type 2 web jose first_type metadata ≡ ok entity_type)
    × (lookup entity_type metadata ≡ some claims)
    × Answers 2 web jose first_type register_same (ok []) payload entity_type claims server (
        response_msg (record {
          sub = "https://rp.org";
          trust_anchor_id = "https://ta.org";
          metadata = ("oauth_client", ("client_id", text "https://rp.org") ∷ []) ∷ [];
          aud = "https://rp.org";
          authority_hints = [];
        }))
unfolding process_explicit register_trusted register_request save_trust_chains save_all save_chain
    chains2dict chains2dict_from pick_trust_chain update erase entries verified_trust_chains collect
    collect_tree collect_branch collect_superiors get_statement_about check_cached fetch_statement
    get_federation_fetch_endpoint refresh_configuration leaf_configuration get_entity_configuration
    configuration_url verify_self_signed_signature get_for_tenant get_item tree2chains put_branch
    verify verify_trust_chain verify_statements add_keys new_trust_chain trust_chain_expires_at
    expires_from meets_restrictions more_specific collect_trust_chains get_verified_trust_chains
    verified_and_applied verify_trust_chains apply_policies apply_to_chain apply_for_types
    apply_for_type policy_for gather_policies gather_from rules_of set_leaf_metadata lookup insert
    has_key truthy string_dec ◌-ℤ◌ ◌+ℤ◌ keys apply_policy
process_explicit-Answers_example =
    process_explicit-Answers 2 web jose first_type register_same (ok []) "l" server _ refl

abbrev echo : Service
echo = record {
  request_parameters = λ args. ok none;
  response_body_type = "json";
  parse_response = λ body type. ok (text body);
  update_service_context = λ v. ok tt;
  deserialization_method = λ content_type. "json";
  successful = λ status. eqb status 200;
}

get_response-eq_example :
    get_response
      (λ url method. ok (record { status_code = 404; body = "gone"; content_type = "" }))
      echo
      "https://ta.org"
      "GET"
      ""
    ≡ ok (system_error "gone")
unfolding string_dec
get_response-eq_example =
    get_response-eq
      (λ url method. ok (record { status_code = 404; body = "gone"; content_type = "" })) echo
      "https://ta.org" "GET" ""
