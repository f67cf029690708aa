-- ===== src/Tests/Entities.antt =====
-- Entities, trust marks and endpoints on concrete data.
use fedservice.Entity.TrustMarks.Trusted.{trust_mark_verifier-Issued, Issued}
use fedservice.Endpoints.Resolve.Answered.{resolve-Resolved, Resolved}
use fedservice.Policy.Apply.{apply_policy}
use fedservice.Policy.Chain.{
  apply_for_type, apply_for_types, apply_to_chain, gather_from, gather_policies, policy_for,
  rules_of, set_leaf_metadata,
}
use fedservice.Chains.{
  apply_policies, collect_trust_chains, get_verified_trust_chains, verified_and_applied,
  verify_trust_chains,
}
use fedservice.Constraints.Names.{more_specific}
use fedservice.Constraints.{meets_restrictions}
use fedservice.Collect.Trees.{put_branch, tree2chains}
use fedservice.Endpoints.Listed.{
  list_subordinates-mem, list_subordinates-marks_add, some_registered,
}
use fedservice.Collect.Web.{
  configuration_url, get_entity_configuration, get_for_tenant, verify_self_signed_signature,
}
use fedservice.Entity.TrustMarks.Delegated.{delegation_ignored}
use fedservice.Cache.{get_item}
use fedservice.Collect.Run.{signed}
use fedservice.Entity.Picking.{pick_trust_chain_first}
use fedservice.Tests.World.{jose, chain, ta_config, web, entity}
use fedservice.Entity.{verified_trust_chains, with_anchor, pick_trust_chain, FederationEntity}
use fedservice.Entity.TrustMarks.{
  check_mark, check_issuer, look_at_delegation, cached_configuration, get_metadata, check_claims,
  trust_mark_verifier, TrustMark, MarkJose, verify_delegation,
}
use fedservice.Endpoints.Resolve.{response_claims, respond, chains_to, resolve}
use fedservice.Collect.Collector.{
  check_cached, collect, collect_branch, collect_superiors, collect_tree, fetch_statement,
  get_federation_fetch_endpoint, get_statement_about, leaf_configuration, refresh_configuration,
}
use fedservice.Verifier.{
  KeyJar, add_keys, expires_from, new_trust_chain, trust_chain_expires_at, verify,
  verify_statements, verify_trust_chain,
}
use fedservice.Endpoints.Listing.{
  collect_subordinates, has_mark, matches, filter_subordinates, registered_as, match_marked,
  match_registered, Unpacking, list_subordinates, Conf,
}
use fedservice.Statement.{TrustChain}
use fedservice.Collect.Path.{length-get_chain, read_statements, read_jws, get_chain}
use fedservice.Prelude.{
  bad_signature, ◌+◌, String, ◌≡◌, refl, true, false, none, some, List, [], ◌∷◌, if◌then◌else◌,
  string_dec, ◌==◌, ok, raised, length, is_empty,
}
use fedservice.Prelude.Dict.{Dict, lookup, has_key, insert, keys, mem}
use fedservice.Prelude.Int.{pos, ◌+ℤ◌, ◌-ℤ◌}
use fedservice.Value.{
  of_entries, field, Atom-discrete, norm, atom_eq, elements, nil, entries, contained_in, array,
  bool, end, object, atom, cons, Value, truthy, text, value_eq,
}

abbrev mark : TrustMark
mark = record {
  iss = "https://rp.org";
  sub = "https://rp.org";
  id = "member";
  exp = some (pos 9000);
  delegation = some "d";
}

-- The Trust Anchor states no issuers of trust marks, so that the delegation is not verified.
abbrev marks : MarkJose
marks = record {
  payload = λ token. if token == "m" then some mark else none;
  check = λ m. ok tt;
  verify_compact = λ token keys. if is_empty keys then raised bad_signature else ok mark;
  delegation = λ token. none;
  import_jwks = λ keyjar jwks issuer. ok keyjar;
}

abbrev plain : MarkJose
plain = record marks { payload = λ token. some (record mark { delegation = none }) }

trust_mark_verifier-Issued_example : Issued 2 web jose plain "m" "https://ta.org" entity mark
unfolding trust_mark_verifier check_claims look_at_delegation check_issuer check_mark
    verified_trust_chains collect collect_tree collect_branch collect_superiors get_statement_about
    check_cached fetch_statement get_federation_fetch_endpoint refresh_configuration
    leaf_configuration get_entity_configuration configuration_url verify_self_signed_signature
    get_for_tenant get_item tree2chains put_branch verify verify_trust_chain verify_statements
    add_keys new_trust_chain trust_chain_expires_at expires_from meets_restrictions more_specific
    collect_trust_chains get_verified_trust_chains verified_and_applied verify_trust_chains
    apply_policies apply_to_chain apply_for_types apply_for_type policy_for gather_policies
    gather_from rules_of set_leaf_metadata lookup insert has_key truthy string_dec ◌-ℤ◌ ◌+ℤ◌ keys
    apply_policy
trust_mark_verifier-Issued_example =
    trust_mark_verifier-Issued 2 web jose plain "m" "https://ta.org" entity mark refl

-- With the configuration of the Trust Anchor in the cache
abbrev knows_anchor : FederationEntity
knows_anchor = record entity {
  collector = record entity.collector {
    config_cache = record {
      db =
          (
            "https://ta.org",
            record ta_config {
              metadata = some (("federation_entity", ("trust_mark_issuers", object end) ∷ []) ∷ []);
            },
          )
          ∷ [];
      allowed_delta = pos 300;
    };
  };
}

-- The same with a check of the delegation that holds
delegation_ignored_example :
    trust_mark_verifier 2 web jose marks "m" "https://ta.org" knows_anchor
    ≡ trust_mark_verifier 2 web jose
        (record marks { delegation = λ token. some (λ keys. ok true) })
        "m"
        "https://ta.org"
        knows_anchor
unfolding trust_mark_verifier check_claims look_at_delegation verify_delegation check_issuer
    check_mark cached_configuration get_metadata contained_in entries verified_trust_chains collect
    collect_tree collect_branch collect_superiors get_statement_about check_cached fetch_statement
    get_federation_fetch_endpoint refresh_configuration leaf_configuration get_entity_configuration
    configuration_url verify_self_signed_signature get_for_tenant get_item tree2chains put_branch
    verify verify_trust_chain verify_statements add_keys new_trust_chain trust_chain_expires_at
    expires_from meets_restrictions more_specific collect_trust_chains get_verified_trust_chains
    verified_and_applied verify_trust_chains apply_policies apply_to_chain apply_for_types
    apply_for_type policy_for gather_policies gather_from rules_of set_leaf_metadata lookup insert
    has_key truthy string_dec ◌-ℤ◌ ◌+ℤ◌ keys apply_policy
delegation_ignored_example =
    delegation_ignored 2 web jose marks (λ token. some (λ keys. ok true)) "m" "https://ta.org"
      knows_anchor _ _ refl refl

abbrev query : Dict String
query = ("sub", "https://rp.org") ∷ ("anchor", "https://ta.org") ∷ ("type", "oauth_client") ∷ []

abbrev no_export : KeyJar → Value
no_export keyjar = object end

resolve-Resolved_example :
    Resolved 2 web jose no_export "https://rp.org" "https://ta.org"
      (some "oauth_client")
      false
      entity
      (response_claims "https://rp.org"
        (object end)
        (object (field "oauth_client" (object end) end))
        (some (signed "l") ∷ some (signed "t") ∷ []))
unfolding resolve chains_to respond with_anchor get_chain read_jws read_statements
    verified_trust_chains collect collect_tree collect_branch collect_superiors get_statement_about
    check_cached fetch_statement get_federation_fetch_endpoint refresh_configuration
    leaf_configuration get_entity_configuration configuration_url verify_self_signed_signature
    get_for_tenant get_item tree2chains put_branch verify verify_trust_chain verify_statements
    add_keys new_trust_chain trust_chain_expires_at expires_from meets_restrictions more_specific
    collect_trust_chains get_verified_trust_chains verified_and_applied verify_trust_chains
    apply_policies apply_to_chain apply_for_types apply_for_type policy_for gather_policies
    gather_from rules_of set_leaf_metadata lookup insert has_key truthy string_dec ◌-ℤ◌ ◌+ℤ◌ keys
    apply_policy of_entries
resolve-Resolved_example =
    resolve-Resolved 2 web jose no_export query false "https://rp.org" "https://ta.org" entity _
      refl refl refl

abbrev path : List String
path = "https://rp.org" ∷ "https://ta.org" ∷ []

length-get_chain_example :
    length (some (signed "l") ∷ none ∷ []) ≡ length path + (if false then 1 else 0)
unfolding get_chain read_jws read_statements get_item lookup string_dec ◌-ℤ◌
length-get_chain_example =
    length-get_chain (pos 100) path "https://ta.org" false
      (record entity.collector {
        config_cache = record {
          db = ("https://rp.org", record ta_config { jws = some "l" }) ∷ [];
          allowed_delta = pos 300;
        };
      })
      (some (signed "l") ∷ none ∷ []) refl

abbrev to_anchor : String → TrustChain
to_anchor anchor = record chain { anchor = anchor }

pick_trust_chain_first_example :
    (c : TrustChain) × (pick_trust_chain
        ("https://x.org" ∷ "https://b.org" ∷ [])
        (to_anchor "https://a.org" ∷ to_anchor "https://b.org" ∷ [])
      ≡ ok c)
    × (c.anchor ≡ "https://b.org")
unfolding string_dec
pick_trust_chain_first_example =
    pick_trust_chain_first ("https://x.org" ∷ []) [] "https://b.org" (to_anchor "https://a.org")
      (to_anchor "https://b.org") [] refl refl

abbrev subordinates : Dict Conf
subordinates =
    ("https://im.org", ("intermediate", atom (bool true)) ∷ ("entity_type", array nil) ∷ [])
    ∷ (
      "https://rp.org",
      ("entity_type", array (cons (text "oauth_client") nil)) ∷ ("jwks", object end) ∷ [],
    )
    ∷ []

abbrev no_unpacking : Unpacking
no_unpacking = record {
  import_jwks = λ keyjar jwks id. ok keyjar;
  unpack = λ keyjar token. ok (("metadata", object end) ∷ ("trust_marks", array nil) ∷ []);
}

list_subordinates-mem_example :
    mem "https://rp.org" ("https://rp.org" ∷ [])
    ≡ some_registered (("entity_type", "oauth_client") ∷ []) "https://rp.org" subordinates
unfolding list_subordinates match_registered registered_as lookup has_key string_dec keys
    contained_in elements value_eq atom_eq norm Atom-discrete
list_subordinates-mem_example =
    list_subordinates-mem web no_unpacking false subordinates (("entity_type", "oauth_client") ∷ [])
      ("https://rp.org" ∷ []) "https://rp.org" refl refl refl

-- The subordinate has no trust marks, and is listed.
list_subordinates-marks_add_example : mem "https://rp.org" ("https://rp.org" ∷ []) ≡ true
unfolding list_subordinates match_registered match_marked filter_subordinates matches has_mark
    collect_subordinates get_entity_configuration configuration_url registered_as lookup insert
    has_key string_dec keys contained_in elements entries value_eq atom_eq norm Atom-discrete
list_subordinates-marks_add_example =
    list_subordinates-marks_add web no_unpacking
      ((
        "https://rp.org",
        ("entity_type", array (cons (text "oauth_client") nil)) ∷ ("jwks", object end) ∷ [],
      )
        ∷ [])
      (("entity_type", "oauth_client") ∷ ("trust_mark_id", "member") ∷ []) ("https://rp.org" ∷ [])
      "https://rp.org" refl refl refl refl
