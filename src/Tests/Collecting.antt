-- ===== src/Tests/Collecting.antt =====
-- The collector on a federation of a Trust Anchor and one entity below it.
use fedservice.Cache.{get_item}
use fedservice.Collect.Trees.{put_branch, no_superiors, found, superior}
use fedservice.Collect.Run.{TrustChainCollector}
use fedservice.Collect.Ends.{collect_tree-ne-out_of_fuel, Sound}
use fedservice.Statement.{EntityStatement}
use fedservice.Collect.Web.{
  configuration_url, get_entity_configuration, response, verify_self_signed_signature, Web,
}
use fedservice.Collect.Collector.{
  refresh_configuration, get_federation_fetch_endpoint, fetch_statement, check_cached,
  get_statement_about, collect_superiors, collect_branch, collect_tree,
}
use fedservice.Prelude.{
  out_of_fuel, ◌≢◌, ℕ, String, ◌≡◌, refl, none, some, [], ◌∷◌, if◌then◌else◌, string_dec, ◌==◌, ok,
  raised,
}
use fedservice.Prelude.Dict.{lookup, has_key, insert}
use fedservice.Prelude.Int.{pos, ◌-ℤ◌}
use fedservice.Value.{truthy, text}

abbrev ta_config : EntityStatement
ta_config = record {
  iss = "https://ta.org";
  sub = "https://ta.org";
  exp = pos 9000;
  jwks = some (text "k1" ∷ []);
  authority_hints = none;
  metadata =
      some (
        ("federation_entity", ("federation_fetch_endpoint", text "https://ta.org/fetch") ∷ [])
        ∷ []);
  metadata_policy = none;
  constraints = none;
  jws = none;
}

abbrev op_config : EntityStatement
op_config = record ta_config {
  iss = "https://op.org";
  sub = "https://op.org";
  authority_hints = some ("https://ta.org" ∷ []);
}

-- Every page holds a text that is read as the configuration of the Trust Anchor.
abbrev one_page : Web
one_page = record {
  now = pos 100;
  http_get = λ url. response 200 "t";
  urlparse = λ url. ok (record { scheme = "https"; netloc = "ta.org"; path = "" });
  request = λ endpoint query. ok "https://ta.org/fetch?";
  factory = λ token. some ta_config;
  unpack = λ issuer keys token. ok ta_config;
  root_issuer = "";
}

abbrev collector : TrustChainCollector
collector = record {
  trust_anchors = ("https://ta.org", text "k1" ∷ []) ∷ [];
  allowed_delta = pos 300;
  config_cache = record { db = []; allowed_delta = pos 300 };
  entity_statement_cache = record { db = []; allowed_delta = pos 300 };
}

abbrev rank : String → ℕ
rank entity = if entity == "https://op.org" then 1 else 0

one_page-Sound : Sound one_page
one_page-Sound = record {
  urlparse_sound = λ url h. cc;
  request_sound = λ url query h. cc;
  unpack_sound = λ issuer keys token h. cc;
}

collected :
    (collect_tree 2 one_page "" "https://op.org" (some op_config) collector).1
    ≡ ok (superior "https://ta.org" (found "t" no_superiors) no_superiors)
unfolding collect_tree collect_branch collect_superiors get_statement_about check_cached
    fetch_statement get_federation_fetch_endpoint refresh_configuration get_entity_configuration
    configuration_url verify_self_signed_signature get_item put_branch lookup insert has_key truthy
    string_dec ◌-ℤ◌
collected = refl

collect_tree-ne-out_of_fuel_example :
    (collect_tree 2 one_page "" "https://op.org" (some op_config) collector).1 ≢ raised out_of_fuel
unfolding verify_self_signed_signature lookup string_dec
collect_tree-ne-out_of_fuel_example =
    collect_tree-ne-out_of_fuel rank one_page one_page-Sound (λ entity token config got signs. cc)
      "" "https://op.org" op_config collector (λ entity config here. cc) refl
