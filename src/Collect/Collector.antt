-- ===== src/Collect/Collector.antt =====
-- `TrustChainCollector` of src/fedservice/entity/function/trust_chain_collector.py: the entity
-- statements and the tree of superiors, each call on the state that the one before left.
use fedservice.Cache.{get}
use fedservice.Collect.Trees.{no_superiors, found, put_branch, missing, Branch, Tree}
use fedservice.Collect.Web.{
  time_key, verify_self_signed_signature, cache_key, unverified_entity_statement,
  get_entity_configuration, get_endpoint, get_document, Web,
}
use fedservice.Collect.Run.{
  read_delta, is_anchor, del_statement, write_config, write_item, signed, read_item, read_config,
  expires, Run, Item,
}
use fedservice.Statement.{EntityStatement}
use fedservice.Prelude.{
  lift, ◌>>>◌, attribute_error, out_of_fuel, type_error, ℕ, zero, suc, String, Bool, false, ◌&&◌,
  Option, none, some, List, [], ◌∷◌, if◌then◌else◌, ◌==◌, Result, ok, raised, ◌>>=◌,
}
use fedservice.Prelude.Dict.{Dict}
use fedservice.Prelude.Int.{ℤ, ltb_ℤ, leb_ℤ, ◌+ℤ◌, ◌-ℤ◌}
use fedservice.Value.{Value, truthy, text}

abbrev pub given : Option Value → Bool
given none = false
given (some v) = truthy v

-- Writes the configuration of `intermediate` anew, and gives its endpoint.
unfoldable pub refresh_configuration : Web → String → Run (Option Value)
refresh_configuration web intermediate =
    lift (get_entity_configuration web intermediate) >>> λ signed_config.
    lift (verify_self_signed_signature web signed_config) >>> λ config.
    lift (get_endpoint "fetch" config) >>> λ endpoint.
    write_config intermediate (record config { jws = some signed_config }) >>> λ done.
    lift (ok endpoint)

unfoldable pub get_federation_fetch_endpoint : Web → String → Run (Option Value)
unfolding refresh_configuration
get_federation_fetch_endpoint web intermediate = read_config web.now intermediate >>> λ cached.
    lift (elim cached [ none ↦ ok none | some config ↦ get_endpoint "fetch" config ])
    >>> λ endpoint.
        if given endpoint then lift (ok endpoint) else refresh_configuration web intermediate

-- The claims of the request to a fetch endpoint.
abbrev pub fetch_query : String → String → Dict String
fetch_query issuer subject =
    if issuer == ""
    then []
    else ("iss", issuer) ∷ (if subject == "" then [] else ("sub", subject) ∷ [])

-- `get_entity_statement`, with the request of `EntityStatement.get_request_parameters`, whose
-- `fetch_endpoint` is given.
abbrev pub get_entity_statement : Web → Value → String → String → Result String
get_entity_statement web fetch_endpoint issuer subject =
    web.request fetch_endpoint (fetch_query issuer subject) >>= λ url. get_document web url

-- Is the cached statement of the authority timed out? `None - delta` raises a `TypeError`.
abbrev pub timed_out : ℤ → ℤ → Option Item → Result Bool
timed_out now allowed_delta (some (expires exp)) = ok (ltb_ℤ (exp -ℤ allowed_delta) now)
timed_out now allowed_delta _ = raised type_error

-- Drops the cached statement if it is too old.
unfoldable pub check_cached : Web → String → String → Option Item → Run (Option String)
check_cached web entity authority none = lift (ok none)
check_cached web entity authority (some (expires exp)) = lift (raised type_error)
check_cached web entity authority (some (signed statement)) =
    read_item web.now (time_key authority entity) >>> λ exp. read_delta >>> λ allowed_delta.
    lift (timed_out web.now allowed_delta exp) >>> λ old.
    if old
    then (del_statement (cache_key authority entity) >>> λ done.
        del_statement (time_key authority entity) >>> λ done'. lift (ok none))
    else lift (ok (some statement))

-- Fetches the statement from the authority, and caches it with its `exp`.
unfoldable pub fetch_statement : Web → String → String → Run (Option String)
unfolding get_federation_fetch_endpoint
fetch_statement web entity authority = get_federation_fetch_endpoint web authority >>> λ endpoint.
    elim endpoint [
      | none ↦ lift (ok none)
      | some url ↦
          if truthy url
          then (lift (get_entity_statement web url authority entity) >>> λ entity_statement.
              lift (unverified_entity_statement web entity_statement) >>> λ statement.
              write_item (cache_key authority entity) (signed entity_statement) >>> λ done.
              write_item (time_key authority entity) (expires statement.exp) >>> λ done'.
              lift (ok (some entity_statement)))
          else lift (ok none)
    ]

-- `_get_entity_statement`
unfoldable pub get_statement_about : Web → String → String → Run (Option String)
unfolding check_cached fetch_statement
get_statement_about web entity authority =
    read_item web.now (cache_key authority entity) >>> λ cached.
    check_cached web entity authority cached >>> λ kept. elim kept [
      | none ↦ fetch_statement web entity authority
      | some statement ↦ lift (ok (some statement))
    ]

-- `collect_branch`, where `tree` collects the superiors of an authority. The list `seen` of the source is only
-- written to the log, and `max_superiors` is not read.
unfoldable pub collect_branch :
    Web → (String → Option EntityStatement → Run Tree) → String → String → Run Branch
unfolding get_statement_about
collect_branch web tree entity authority = is_anchor entity >>> λ anchor.
    if entity == authority && anchor
    then lift (ok missing)
    else (get_statement_about web entity authority >>> λ statement. elim statement [
      | none ↦ lift (ok missing)
      | some entity_statement ↦
          if entity_statement == ""
          then lift (ok missing)
          else (read_config web.now authority >>> λ config.
              tree authority config >>> λ superiors. lift (ok (found entity_statement superiors)))
    ])

-- The loop over `authority_hints`.
unfoldable pub collect_superiors : (String → Run Branch) → Tree → List String → Run Tree
collect_superiors branch superiors [] = lift (ok superiors)
collect_superiors branch superiors (authority ∷ authorities) = branch authority >>> λ found.
    collect_superiors branch (put_branch authority found superiors) authorities

-- `collect_tree` with at most `fuel` levels of superiors; a configuration that is `None` raises a `TypeError`.
unfoldable pub collect_tree : ℕ → Web → String → String → Option EntityStatement → Run Tree
unfolding collect_branch collect_superiors
collect_tree fuel web stop_at entity_id none = lift (raised type_error)
collect_tree zero web stop_at entity_id (some config) = lift (raised out_of_fuel)
collect_tree (suc fuel) web stop_at entity_id (some config) = elim config.authority_hints [
  | none ↦ lift (ok no_superiors)
  | some authorities ↦
      if config.iss == stop_at
      then lift (ok no_superiors)
      else collect_superiors
          (λ authority. collect_branch web (collect_tree fuel web stop_at) entity_id authority)
          no_superiors authorities
]

-- `too_old`, at the time `now`.
abbrev pub too_old : ℤ → ℤ → EntityStatement → Bool
too_old now allowed_delta statement = leb_ℤ (statement.exp +ℤ allowed_delta) now

-- The signed configuration of the leaf: the cached one, or a new one.
unfoldable pub leaf_configuration : Web → String → Run (Option (EntityStatement × String))
leaf_configuration web entity_id self =
    let fresh = lift (get_entity_configuration web entity_id) >>> λ signed_config.
    if signed_config == ""
    then lift (ok none)
    else (lift (verify_self_signed_signature web signed_config) >>> λ config.
        write_config entity_id (record config { jws = some signed_config }) >>> λ done.
        lift (ok (some (record config { jws = some signed_config }, signed_config)))) in
    elim (get entity_id self.config_cache) [
      | none ↦ fresh self
      | some config ↦
          if too_old web.now self.allowed_delta config then fresh self else elim config.jws [
            | none ↦ (self, raised attribute_error)
            | some text ↦
                if text == ""
                then (self, raised attribute_error)
                else (self, ok (some (config, text)))
          ]
    ]

-- `__call__`
unfoldable pub collect : ℕ → Web → String → String → Run (Option (Tree × String))
unfolding leaf_configuration collect_tree
collect fuel web entity_id stop_at = leaf_configuration web entity_id >>> λ leaf. elim leaf [
  | none ↦ lift (ok none)
  | some found_leaf ↦ collect_tree fuel web stop_at entity_id (some found_leaf.0) >>> λ tree.
      lift (ok (some (tree, found_leaf.1)))
]
