-- ===== src/Collect/Ends.antt =====
-- When the collection of a tree ends: `TrustChainCollector` of
-- src/fedservice/entity/function/trust_chain_collector.py, for hints without loops.
use fedservice.Collect.Fine.{
  del_statement-Fine, timed_out-ne, write_item-Fine, read_delta-Fine, write_config-Fine,
  is_anchor-Fine, read_config-Fine, if-Fine, read_item-Fine, runs, >>>-Fine, lift-Fine, option-Fine,
  return-Fine, bind-ne, Fine, Ranked, if-ne, lower,
}
use fedservice.Collect.Trees.{found, missing, put_branch, Tree, no_superiors, Branch}
use fedservice.Collect.Collector.{
  collect_branch, collect_superiors, collect_tree, get_federation_fetch_endpoint,
  get_statement_about, check_cached, fetch_statement, fetch_query, refresh_configuration,
  get_entity_statement,
}
use fedservice.Collect.Web.{
  time_key, cache_key, construct_well_known_url, construct_tenant_well_known_url, configuration_url,
  get_for_tenant, get_document, get_endpoint, unverified_entity_statement,
  verify_self_signed_signature, get_entity_configuration, Web,
}
use fedservice.Collect.Run.{signed, expires, Item, TrustChainCollector, Run}
use fedservice.Statement.{EntityStatement}
use fedservice.Prelude.{
  lift, type_error, key_error, out_of_fuel, ◌≢◌, ℕ, zero, suc, ◌≤◌, ◌<◌, String, ◌≡◌, refl, inl,
  inr, Bool, true, false, ◌&&◌, Option, none, some, List, [], ◌∷◌, arith, ltb, if◌then◌else◌, ◌==◌,
  Option-cases, Result, ok, raised, require, all,
}
use fedservice.Collect.Web.{unreachable, response}
use fedservice.Collect.Collector.{given}
use fedservice.Prelude.Dict.{Dict}
use fedservice.Value.{Value, truthy, text}

-- The code outside the program raises nothing that it does not know.
pub record Sound (web : Web) : Type 0 where
  pub urlparse_sound : (url : String) → web.urlparse url ≢ raised out_of_fuel
  pub request_sound :
      (url : Value) (query : Dict String) → web.request url query ≢ raised out_of_fuel
  pub unpack_sound :
      (issuer : String) (keys : List Value) (token : String)
      → web.unpack issuer keys token ≢ raised out_of_fuel

module _ (rank : String → ℕ) (web : Web) (sound : Sound web)
    (fetched : (entity token : String) (config : EntityStatement)
      → get_entity_configuration web entity ≡ ok token
      → verify_self_signed_signature web token ≡ ok config
      → lower rank (rank entity) config ≡ true) where
  get_document-ne : (url : String) → get_document web url ≢ raised out_of_fuel
  get_document-ne url h = ground arith

  well_known-ne :
      (url : String) → construct_well_known_url web url "openid-federation" ≢ raised out_of_fuel
  well_known-ne url = bind-ne (web.urlparse url) _ (sound.urlparse_sound url) (λ p h. cc)

  tenant_well_known-ne :
      (url : String)
      → construct_tenant_well_known_url web url "openid-federation" ≢ raised out_of_fuel
  tenant_well_known-ne url = bind-ne (web.urlparse url) _ (sound.urlparse_sound url) (λ p h. cc)

  configuration_url-ne :
      (entity : String) (tenant : Bool) → configuration_url web entity tenant ≢ raised out_of_fuel
  unfolding configuration_url
  configuration_url-ne entity tenant =
      if-ne ((if entity == "" then web.root_issuer else entity) == "") (λ h. cc)
        (if-ne tenant (tenant_well_known-ne (if entity == "" then web.root_issuer else entity))
          (well_known-ne (if entity == "" then web.root_issuer else entity)))

  get_for_tenant-ne : (entity url : String) → get_for_tenant web entity url ≢ raised out_of_fuel
  unfolding get_for_tenant
  get_for_tenant-ne entity url =
      bind-ne (configuration_url web entity true) _ (configuration_url-ne entity true)
        (λ at h. ground (arith, get_document-ne at))

  get_entity_configuration-ne :
      (entity : String) → get_entity_configuration web entity ≢ raised out_of_fuel
  unfolding get_entity_configuration
  get_entity_configuration-ne entity =
      bind-ne (configuration_url web entity false) _ (configuration_url-ne entity false) (λ url h.
        elim (web.http_get url) as (λ r. (web.http_get url ≡ r) → ⊥) [
          | unreachable ↦ λ p. ground arith
          | response status text ↦ λ p. ground (arith, get_for_tenant-ne entity url)
        ]
          refl)

  verify_self_signed_signature-ne :
      (token : String) → verify_self_signed_signature web token ≢ raised out_of_fuel
  unfolding verify_self_signed_signature
  verify_self_signed_signature-ne token =
      bind-ne (unverified_entity_statement web token) _ (λ h. ground arith)
        (λ payload.
          bind-ne (require payload.jwks key_error) _ (λ h. ground arith)
            (λ jwks. sound.unpack_sound payload.iss jwks token))

  unverified-ne : (token : String) → unverified_entity_statement web token ≢ raised out_of_fuel
  unverified-ne token h = ground arith

  get_endpoint-ne :
      (kind : String) (config : EntityStatement) → get_endpoint kind config ≢ raised out_of_fuel
  get_endpoint-ne kind config h = ground arith

  get_entity_statement-ne :
      (url : Value) (issuer subject : String)
      → get_entity_statement web url issuer subject ≢ raised out_of_fuel
  get_entity_statement-ne url issuer subject =
      bind-ne (web.request url (fetch_query issuer subject)) _
        (sound.request_sound url (fetch_query issuer subject)) (λ at. get_document-ne at)

  cached_endpoint-ne :
      (cached : Option EntityStatement)
      → elim cached [ none ↦ ok none | some config ↦ get_endpoint "fetch" config ]
        ≢ raised out_of_fuel
  cached_endpoint-ne none = λ h. cc
  cached_endpoint-ne (some config) = get_endpoint-ne "fetch" config

  any_value {ℓ} :
      {A : Type ℓ} (r : Result A) → r ≢ raised out_of_fuel → Fine rank (λ a. Unit {0}) (lift r)
  any_value r ne = lift-Fine rank r ne (λ a h. tt)

  refresh_configuration-Fine :
      (entity : String) → Fine rank (λ endpoint. Unit {0}) (refresh_configuration web entity)
  unfolding refresh_configuration
  refresh_configuration-Fine entity =
      >>>-Fine rank {P = λ token. get_entity_configuration web entity ≡ ok token}
        (lift-Fine rank _ (get_entity_configuration-ne entity) (λ token h. h))
        λ token got.
          >>>-Fine rank {P = λ config. verify_self_signed_signature web token ≡ ok config}
            (lift-Fine rank _ (verify_self_signed_signature-ne token) (λ config h. h))
            λ config signs.
              >>>-Fine rank (any_value _ (get_endpoint-ne "fetch" config)) λ endpoint ok1.
                >>>-Fine rank
                  (write_config-Fine rank entity (record config { jws = some token })
                    (fetched entity token config got signs))
                  λ done ok2. return-Fine rank endpoint tt

  get_federation_fetch_endpoint-Fine :
      (entity : String)
      → Fine rank (λ endpoint. Unit {0}) (get_federation_fetch_endpoint web entity)
  unfolding get_federation_fetch_endpoint
  get_federation_fetch_endpoint-Fine entity =
      >>>-Fine rank (read_config-Fine rank web.now entity) λ cached low.
        >>>-Fine rank (any_value _ (cached_endpoint-ne cached)) λ endpoint ok1.
          if-Fine rank (given endpoint) (return-Fine rank endpoint tt)
            (refresh_configuration-Fine entity)

  check_cached-Fine :
      (entity authority : String) (cached : Option Item)
      → Fine rank (λ kept. Unit {0}) (check_cached web entity authority cached)
  unfolding check_cached
  check_cached-Fine entity authority none = return-Fine rank none tt
  check_cached-Fine entity authority (some (expires exp)) = any_value (raised type_error) (λ h. cc)
  check_cached-Fine entity authority (some (signed statement)) =
      >>>-Fine rank (read_item-Fine rank web.now (time_key authority entity)) λ exp o1.
        >>>-Fine rank (read_delta-Fine rank) λ delta o2.
          >>>-Fine rank (any_value _ (timed_out-ne web.now delta exp)) λ old o3.
            if-Fine rank old
              (>>>-Fine rank (del_statement-Fine rank (cache_key authority entity)) λ done o4.
                >>>-Fine rank (del_statement-Fine rank (time_key authority entity))
                  λ done' o5. return-Fine rank none tt)
              (return-Fine rank (some statement) tt)

  fetch_statement-Fine :
      (entity authority : String)
      → Fine rank (λ statement. Unit {0}) (fetch_statement web entity authority)
  unfolding fetch_statement
  fetch_statement-Fine entity authority =
      >>>-Fine rank (get_federation_fetch_endpoint-Fine authority) λ endpoint ok1.
        option-Fine rank endpoint (return-Fine rank none tt) λ url known.
          if-Fine rank (truthy url)
            (>>>-Fine rank (any_value _ (get_entity_statement-ne url authority entity)) λ token o1.
              >>>-Fine rank (any_value _ (unverified-ne token)) λ statement o2.
                >>>-Fine rank (write_item-Fine rank (cache_key authority entity) (signed token))
                  λ done o3.
                    >>>-Fine rank
                      (write_item-Fine rank (time_key authority entity) (expires statement.exp))
                      λ done' o4. return-Fine rank (some token) tt)
            (return-Fine rank none tt)

  get_statement_about-Fine :
      (entity authority : String)
      → Fine rank (λ statement. Unit {0}) (get_statement_about web entity authority)
  unfolding get_statement_about
  get_statement_about-Fine entity authority =
      >>>-Fine rank (read_item-Fine rank web.now (cache_key authority entity)) λ cached ok1.
        >>>-Fine rank (check_cached-Fine entity authority cached) λ kept ok2.
          option-Fine rank kept (fetch_statement-Fine entity authority)
            λ statement known. return-Fine rank (some statement) tt

  collect_branch-Fine :
      (n : ℕ) (tree : String → Option EntityStatement → Run Tree) (entity authority : String)
      → rank authority < n
      → ((config : Option EntityStatement)
          → ((c : EntityStatement) → config ≡ some c → lower rank (rank authority) c ≡ true)
          → Fine rank (λ superiors. Unit {0}) (tree authority config))
      → Fine rank (λ branch. Unit {0}) (collect_branch web tree entity authority)
  unfolding collect_branch
  collect_branch-Fine n tree entity authority below collected =
      >>>-Fine rank (is_anchor-Fine rank entity) λ anchor o1.
        if-Fine rank (entity == authority && anchor) (return-Fine rank missing tt) (
          >>>-Fine rank (get_statement_about-Fine entity authority) λ statement o2.
            option-Fine rank statement (return-Fine rank missing tt) λ token known.
              if-Fine rank (token == "") (return-Fine rank missing tt) (
                >>>-Fine rank (read_config-Fine rank web.now authority) λ config low.
                  >>>-Fine rank (collected config low)
                    λ superiors o3. return-Fine rank (found token superiors) tt))

  collect_superiors-Fine :
      (n : ℕ) (branch : String → Run Branch) (superiors : Tree) (authorities : List String)
      → all (λ authority. ltb (rank authority) n) authorities ≡ true
      → ((authority : String) → rank authority < n → Fine rank (λ b. Unit {0}) (branch authority))
      → Fine rank (λ tree. Unit {0}) (collect_superiors branch superiors authorities)
  unfolding collect_superiors
  collect_superiors-Fine n branch superiors [] below collected = return-Fine rank superiors tt
  collect_superiors-Fine n branch superiors (authority ∷ authorities) below collected =
      >>>-Fine rank (collected authority (ground arith)) λ b o1.
        collect_superiors-Fine n branch (put_branch authority b superiors) authorities
          (ground arith) collected

  all_less :
      (m n : ℕ) (authorities : List String)
      → m ≤ n
      → all (λ authority. ltb (rank authority) m) authorities ≡ true
      → all (λ authority. ltb (rank authority) n) authorities ≡ true
  all_less m n [] le low = refl
  all_less m n (authority ∷ authorities) le low = ground (arith, all_less m n authorities le)

  lower_less :
      (m n : ℕ) (config : EntityStatement)
      → m ≤ n
      → lower rank m config ≡ true
      → lower rank n config ≡ true
  lower_less m n config le low = elim (Option-cases config.authority_hints) [
    | inl none_stated ↦ ground arith
    | inr (authorities, here) ↦ ground (arith, all_less m n authorities le)
  ]

  collect_tree-Fine :
      (n : ℕ) (stop_at entity : String) (config : Option EntityStatement)
      → ((c : EntityStatement) → config ≡ some c → lower rank n c ≡ true)
      → Fine rank (λ tree. Unit {0}) (collect_tree (suc n) web stop_at entity config)
  unfolding collect_tree
  collect_tree-Fine n stop_at entity none low = any_value (raised type_error) (λ h. cc)
  collect_tree-Fine zero stop_at entity (some config) low =
      option-Fine rank config.authority_hints (return-Fine rank no_superiors tt)
        λ authorities stated.
          if-Fine rank (config.iss == stop_at) (return-Fine rank no_superiors tt) (
            collect_superiors-Fine zero
              (λ authority. collect_branch web (collect_tree zero web stop_at) entity authority)
              no_superiors authorities (ground (arith, low config refl))
              λ authority less. ground arith)
  collect_tree-Fine (suc n) stop_at entity (some config) low =
      option-Fine rank config.authority_hints (return-Fine rank no_superiors tt)
        λ authorities stated.
          if-Fine rank (config.iss == stop_at) (return-Fine rank no_superiors tt) (
            collect_superiors-Fine (suc n)
              (λ authority. collect_branch web (collect_tree (suc n) web stop_at) entity authority)
              no_superiors authorities (ground (arith, low config refl))
              λ authority less.
                collect_branch-Fine (suc n) (collect_tree (suc n) web stop_at) entity authority less
                  λ found_config found_low.
                    collect_tree-Fine n stop_at authority found_config λ c same.
                      lower_less (rank authority) n c (omega (arith, less)) (found_low c same))

  -- Where the hints lead to entities of smaller and smaller rank, in the cache and in what the web gives,
  -- the collection of the superiors of an entity ends: with one level more than its rank it
  -- gives a tree or an exception of the program.
  pub collect_tree-ne-out_of_fuel :
      (stop_at entity : String) (config : EntityStatement) (self : TrustChainCollector)
      → Ranked rank self
      → lower rank (rank entity) config ≡ true
      → (collect_tree (suc (rank entity)) web stop_at entity (some config) self).1
        ≢ raised out_of_fuel
  collect_tree-ne-out_of_fuel stop_at entity config self ranked low =
      (runs rank
        (collect_tree-Fine (rank entity) stop_at entity (some config) (λ c same. cc (low, same)))
        self ranked).1
