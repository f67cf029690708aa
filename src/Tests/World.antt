-- ===== src/Tests/World.antt =====
-- A federation of a Trust Anchor and one entity below it that is a client and issues trust marks.
use fedservice.Policy.Apply.{apply_policy}
use fedservice.Collect.Collector.{
  collect, collect_tree, collect_branch, collect_superiors, get_statement_about, check_cached,
  fetch_statement, get_federation_fetch_endpoint, refresh_configuration, leaf_configuration,
}
use fedservice.Collect.Web.{
  get_entity_configuration, configuration_url, verify_self_signed_signature, get_for_tenant,
}
use fedservice.Cache.{get_item}
use fedservice.Collect.Trees.{tree2chains, put_branch}
use fedservice.Verifier.{
  verify, verify_trust_chain, verify_statements, add_keys, new_trust_chain, trust_chain_expires_at,
  expires_from,
}
use fedservice.Constraints.{meets_restrictions}
use fedservice.Constraints.Names.{more_specific}
use fedservice.Chains.{
  collect_trust_chains, get_verified_trust_chains, verified_and_applied, verify_trust_chains,
  apply_policies,
}
use fedservice.Policy.Chain.{
  apply_to_chain, apply_for_types, apply_for_type, policy_for, gather_policies, gather_from,
  rules_of, set_leaf_metadata,
}
use fedservice.Collect.Web.{response, Web}
use fedservice.Statement.{by_type, TrustChain, EntityStatement}
use fedservice.Verifier.{Jose}
use fedservice.Entity.{verified_trust_chains, FederationEntity}
use fedservice.Prelude.{
  bad_signature, String, ◌≡◌, refl, Option, none, some, List, [], ◌∷◌, map, if◌then◌else◌,
  string_dec, ◌==◌, Result, ok, raised, require,
}
use fedservice.Prelude.Dict.{lookup, has_key, insert, keys}
use fedservice.Prelude.Int.{pos, ◌+ℤ◌, ◌-ℤ◌}
use fedservice.Value.{truthy, text}

abbrev pub ta_config : EntityStatement
ta_config = record {
  iss = "https://ta.org";
  sub = "https://ta.org";
  exp = pos 9000;
  jwks = some (text "k1" ∷ []);
  authority_hints = none;
  metadata =
      some (
        ("federation_entity", ("federation_fetch_endpoint", text "https://ta.org/fetch") ∷ [])
        ∷ []);
  metadata_policy = none;
  constraints = none;
  jws = none;
}

abbrev pub rp_config : EntityStatement
rp_config = record ta_config {
  iss = "https://rp.org";
  sub = "https://rp.org";
  jwks = some (text "k2" ∷ []);
  authority_hints = some ("https://ta.org" ∷ []);
  metadata = some (("oauth_client", []) ∷ []);
}

abbrev ta_about_rp : EntityStatement
ta_about_rp = record rp_config { iss = "https://ta.org"; authority_hints = none; metadata = none }

abbrev payload : String → Option EntityStatement
payload token =
    if token == "l"
    then some rp_config
    else (if token == "a" then some ta_config else if token == "t" then some ta_about_rp else none)

abbrev pub web : Web
web = record {
  now = pos 100;
  http_get = λ url. response 200 (
      if url == "https://rp.org/.well-known/openid-federation"
      then "l"
      else if url == "https://ta.org/.well-known/openid-federation"
      then "a"
      else "t");
  urlparse = λ url. ok (record {
    scheme = "https";
    netloc = if url == "https://ta.org" then "ta.org" else "rp.org";
    path = "";
  });
  request = λ endpoint query. ok "https://ta.org/fetch?";
  factory = payload;
  unpack = λ issuer keys token. require (payload token) bad_signature;
  root_issuer = "";
}

-- Signatures that always hold, under the keys of the issuer; the token "m" is a trust mark of the entity.
abbrev pub jose : Jose
jose = record {
  factory = payload;
  verify_keys = λ keyjar token.
      elim (lookup (elim (payload token) [ none ↦ "https://rp.org" | some es ↦ es.iss ]) keyjar) [
        | none ↦ []
        | some keys ↦ keys
      ];
  verify_compact = λ token keys. require (payload token) bad_signature;
}

abbrev pub entity : FederationEntity
entity = record {
  entity_id = "https://op.org";
  tr_priority = "https://ta.org" ∷ [];
  keyjar = ("https://ta.org", text "k1" ∷ []) ∷ [];
  collector = record {
    trust_anchors = ("https://ta.org", text "k1" ∷ []) ∷ [];
    allowed_delta = pos 300;
    config_cache = record { db = []; allowed_delta = pos 300 };
    entity_statement_cache = record { db = []; allowed_delta = pos 300 };
  };
  trust_chain = [];
}

-- The trust chain of the entity, before the policies
abbrev pub chain : TrustChain
chain = record {
  anchor = "https://ta.org";
  iss_path = "https://rp.org" ∷ "https://ta.org" ∷ [];
  chain = "t" ∷ "l" ∷ [];
  exp = pos 9000;
  verified_chain = ta_about_rp ∷ rp_config ∷ [];
  metadata = by_type (("oauth_client", some []) ∷ []);
  combined_policy = [];
}

abbrev anchors : Result (List TrustChain) → List String
anchors (ok chains) = map (λ c. c.anchor) chains
anchors (raised e) = "raised" ∷ []

found : anchors (verified_trust_chains 2 web jose "https://rp.org" entity).1 ≡ "https://ta.org" ∷ []
unfolding verified_trust_chains collect collect_tree collect_branch collect_superiors
    get_statement_about check_cached fetch_statement get_federation_fetch_endpoint
    refresh_configuration leaf_configuration get_entity_configuration configuration_url
    verify_self_signed_signature get_for_tenant get_item tree2chains put_branch verify
    verify_trust_chain verify_statements add_keys new_trust_chain trust_chain_expires_at
    expires_from meets_restrictions more_specific collect_trust_chains get_verified_trust_chains
    verified_and_applied verify_trust_chains apply_policies apply_to_chain apply_for_types
    apply_for_type policy_for gather_policies gather_from rules_of set_leaf_metadata lookup insert
    has_key truthy string_dec ◌-ℤ◌ ◌+ℤ◌ keys apply_policy
found = refl
