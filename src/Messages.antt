-- ===== src/Messages.antt =====
-- The checks of src/fedservice/message.py: the `verify` methods of policies, metadata policies, entity
-- statements, trust marks and requests. The check of the claims that idpyoidc's `Message.verify` makes by
-- `c_param` comes before and is not modelled.
use fedservice.Policy.Combine.{MetadataPolicy}
pub mod Extensions
use fedservice.Prelude.{
  expired, unknown_critical_extension, value_error, attribute_error, missing_attribute,
  wrong_subject, ◌+◌, String, false, not, ◌&&◌, ◌||◌, Option, none, some, List, [], ◌∷◌, ◌++◌, ◌==◌,
  Result, ok, raised, ◌>>◌, guard, is_empty, filter,
}
use fedservice.Prelude.Dict.{Dict, keys, mem}
use fedservice.Prelude.Int.{ℤ, pos, ltb_ℤ, leb_ℤ}

-- The claims of `Policy.c_param`.
abbrev policy_param : List String
policy_param =
    "subset_of" ∷ "one_of" ∷ "superset_of" ∷ "add" ∷ "value" ∷ "default" ∷ "essential" ∷ []

-- The claims of `EntityStatement.c_param`, from `own` on; those of `JsonWebToken` are `inherited`.
abbrev statement_param : List String → List String
statement_param inherited =
    inherited
    ++ ("sub" ∷ "iss" ∷ "exp" ∷ "iat" ∷ "jwks" ∷ "aud" ∷ "jti" ∷ "authority_hints" ∷ "metadata"
        ∷ "metadata_policy" ∷ "constraints" ∷ "crit" ∷ "policy_language_crit" ∷ "trust_marks"
        ∷ "trust_anchor_id" ∷ [])

-- `extra`: the claims that `c_param` does not have.
abbrev pub extra : List String → List String → List String
extra param claims = filter (λ claim. not (mem claim param)) claims

-- The names of `critical` among the extra claims that are not known.
abbrev pub unknown : List String → List String → Option (List String) → List String
unknown extras critical known =
    filter
      (λ claim.
        mem claim extras && not (elim known [ none ↦ false | some names ↦ mem claim names ]))
      critical

-- `if _extra_parameters:` and what follows, the same for policies and for entity statements.
-- A list of known extensions that is empty is as none, and then any extra claim
-- raises, also when none of them is critical.
unfoldable pub check_extensions :
    List String → Option (List String) → Option (List String) → Result (Unit {0})
check_extensions [] critical known = ok tt
check_extensions (e ∷ extras) none known = ok tt
check_extensions (e ∷ extras) (some []) known = raised value_error
check_extensions (e ∷ extras) (some (c ∷ critical)) none = raised unknown_critical_extension
check_extensions (e ∷ extras) (some (c ∷ critical)) (some []) = raised unknown_critical_extension
check_extensions (e ∷ extras) (some (c ∷ critical)) (some (k ∷ known)) =
    guard (is_empty (unknown (e ∷ extras) (c ∷ critical) (some (k ∷ known))))
      unknown_critical_extension

-- `Policy.verify`, with the claims of the policy.
unfoldable pub verify_policy :
    List String → Option (List String) → Option (List String) → Result (Unit {0})
unfolding check_extensions
verify_policy claims policy_language_crit known_policy_extensions =
    check_extensions (extra policy_param claims) policy_language_crit known_policy_extensions

unfoldable pub verify_policies :
    Option (List String) → Option (List String) → MetadataPolicy → Result (Unit {0})
unfolding verify_policy
verify_policies crit known [] = ok tt
verify_policies crit known ((attr, item) ∷ policies) =
    verify_policy (keys item) crit known >> verify_policies crit known policies

-- `MetadataPolicy.verify`
unfoldable pub verify_metadata_policy :
    Option (List String) → Option (List String) → Dict MetadataPolicy → Result (Unit {0})
unfolding verify_policies
verify_metadata_policy crit known [] = ok tt
verify_metadata_policy crit known ((typ, policy) ∷ types) =
    verify_policies crit known policy >> verify_metadata_policy crit known types

-- The claims of an entity statement that its `verify` reads; `claims` are the names of all.
pub record Checked : Type 0 where
  pub claims : List String
  pub crit : Option (List String)
  pub policy_language_crit : Option (List String)
  pub metadata_policy : Option (Dict MetadataPolicy)

-- The policies are only looked at where `policy_language_crit` is given and not empty.
unfoldable pub check_policies : Checked → Option (List String) → Result (Unit {0})
unfolding verify_metadata_policy
check_policies self known = elim self.metadata_policy [
  | none ↦ ok tt
  | some [] ↦ ok tt
  | some (policy ∷ policies) ↦ elim self.policy_language_crit [
    | none ↦ ok tt
    | some [] ↦ ok tt
    | some (name ∷ names) ↦ verify_metadata_policy (some (name ∷ names)) known (policy ∷ policies)
  ]
]

-- `EntityStatement.verify`
unfoldable pub verify_statement :
    List String → Option (List String) → Option (List String) → Checked → Result (Unit {0})
unfolding check_extensions check_policies
verify_statement inherited known_extensions known_policy_extensions self =
    check_extensions (extra (statement_param inherited) self.claims) self.crit known_extensions
    >> check_policies self known_policy_extensions

-- `TrustMark.verify`: `entity_id` and `exp` are keyword arguments, an `exp` of 0 is none.
abbrev pub verify_trust_mark : ℤ → String → Option String → ℤ → Result (Unit {0})
verify_trust_mark now sub entity_id exp =
    elim entity_id [ none ↦ ok tt | some id ↦ guard (id == sub) wrong_subject ]
    >> guard ((leb_ℤ exp (pos 0) && leb_ℤ (pos 0) exp) || not (ltb_ℤ exp now)) expired

-- `TrustMarkStatusRequest.verify`
abbrev pub verify_status_request : List String → Result (Unit {0})
verify_status_request claims =
    guard (mem "trust_mark" claims || (mem "sub" claims && mem "trust_mark_id" claims))
      attribute_error

-- `OauthClientInformationResponse.verify`
abbrev pub verify_client_information : List String → Result (Unit {0})
verify_client_information claims =
    guard (not (mem "client_secret" claims) || mem "client_secret_expires_at" claims)
      missing_attribute
