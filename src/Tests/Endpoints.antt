-- ===== src/Tests/Endpoints.antt =====
-- The checks of messages and the fetch endpoint on concrete data.
use fedservice.Fetch.Answers.{response_for_hints, hints}
use fedservice.Messages.Extensions.{check_extensions-known}
use fedservice.Fetch.{
  of_dict, update_typed, policy_of_types, with_policy, with_hints, response_for, Server,
}
use fedservice.Messages.{verify_policy, check_extensions}
use fedservice.Prelude.{
  unknown_critical_extension, ◌≡◌, refl, true, none, some, [], ◌∷◌, string_dec, raised,
}
use fedservice.Prelude.Dict.{lookup, has_key, insert, mem}
use fedservice.Value.{field, end, object, nil, cons, array, text}

check_extensions-known_example : mem "x_a" ("x_a" ∷ "x_b" ∷ []) ≡ true
unfolding check_extensions string_dec
check_extensions-known_example =
    check_extensions-known ("x_c" ∷ "x_a" ∷ []) ("x_a" ∷ []) (some ("x_a" ∷ "x_b" ∷ [])) "x_a" refl
      refl refl

-- Of the claims of a policy, `regexp` is no standard operator.
unknown_operator :
    verify_policy ("value" ∷ "regexp" ∷ []) (some ("regexp" ∷ [])) none
    ≡ raised unknown_critical_extension
unfolding verify_policy check_extensions string_dec
unknown_operator = refl

abbrev server : Server
server = record {
  entity_id = "https://ta.org";
  subordinate =
      (
        "https://op.org",
        record {
          claims = ("jwks", text "keys") ∷ [];
          entity_types = some ("openid_provider" ∷ []);
        },
      )
      ∷ [];
  policy = ("openid_provider", record { metadata = none; metadata_policy = some (text "p") }) ∷ [];
}

-- The request of another issuer leaves its name in the hints.
response_for_hints_example :
    hints (
      ("jwks", text "keys")
      ∷ ("authority_hints", array (cons (text "https://evil.org") nil))
      ∷ ("metadata", object end)
      ∷ ("metadata_policy", object (field "openid_provider" (text "p") end))
      ∷ [])
    ≡ some (array (cons (text "https://evil.org") nil))
unfolding response_for with_hints with_policy policy_of_types update_typed of_dict lookup insert
    has_key string_dec
response_for_hints_example =
    response_for_hints server "https://evil.org" "https://ta.org" "https://op.org"
      {server' = record server {
        subordinate =
            (
              "https://op.org",
              record {
                claims =
                    ("jwks", text "keys")
                    ∷ ("authority_hints", array (cons (text "https://evil.org") nil))
                    ∷ [];
                entity_types = some ("openid_provider" ∷ []);
              },
            )
            ∷ [];
      }}
      refl refl
