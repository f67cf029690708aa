-- ===== src/Fetch.antt =====
-- The fetch endpoint of src/fedservice/entity/server/fetch.py for a subordinate, with
-- `create_entity_statement` of src/fedservice/entity_statement/create.py up to the signature. No stored claim has
-- the name of a parameter of that function which is no claim, such as `lifetime`.
pub mod Answers
use fedservice.Prelude.{
  unknown_entity, String, Bool, true, not, ◌&&◌, Option, none, some, List, [], ◌∷◌, if◌then◌else◌,
  Result, ok, ◌>>=◌, ◌>>◌, guard, require, is_empty,
}
use fedservice.Prelude.Dict.{Dict, lookup, has_key, insert, erase, update}
use fedservice.Value.{Items, nil, cons, field, end, array, Fields, object, Value, truthy, text}

-- The arguments of `create_entity_statement` that become claims: those with a name of their own, and the
-- others in `kwargs`. A missing or empty argument is `none`. `aud` is not given.
pub record Claims : Type 0 where
  pub metadata : Option Value
  pub metadata_policy : Option Value
  pub authority_hints : Option Value
  pub constraints : Option Value
  pub kwargs : Dict Value

-- `if value: msg[name] = value`
abbrev with_claim : String → Option Value → Dict Value → Dict Value
with_claim name none msg = msg
with_claim name (some v) msg = if truthy v then insert name v msg else msg

-- `create_entity_statement`, up to the signature; `exported` are the keys of the key jar.
unfoldable pub create_entity_statement : String → Value → Bool → Claims → Dict Value
create_entity_statement sub exported include_jwks args =
    let named = with_claim "constraints" args.constraints (
      with_claim "authority_hints" args.authority_hints (
        with_claim "metadata_policy" args.metadata_policy
          (with_claim "metadata" args.metadata (("sub", text sub) ∷ [])))) in
    let msg = update named args.kwargs in
    if include_jwks
    then insert "jwks" (elim (lookup "jwks" args.kwargs) [ none ↦ exported | some jwks ↦ jwks ]) msg
    else msg

-- A keyword argument by name, and the other ones.
abbrev named_claims : Dict Value → Claims
named_claims given = record {
  metadata = lookup "metadata" given;
  metadata_policy = lookup "metadata_policy" given;
  authority_hints = lookup "authority_hints" given;
  constraints = lookup "constraints" given;
  kwargs =
      erase "metadata"
        (erase "metadata_policy" (erase "authority_hints" (erase "constraints" given)));
}

-- What the server stores for a subordinate: its claims and, if they are stated, its entity types.
pub record Subordinate : Type 0 where
  pub claims : Dict Value
  pub entity_types : Option (List String)

-- The policy of an entity or of an entity type: `metadata` and `metadata_policy`.
pub record Policy : Type 0 where
  pub metadata : Option Value
  pub metadata_policy : Option Value

-- A policy of entity types: both claims, by entity type.
pub record TypedPolicy : Type 0 where
  pub typed_metadata : Dict Value
  pub typed_policy : Dict Value

abbrev put_typed : String → Option Value → Dict Value → Dict Value
put_typed entity_type none d = d
put_typed entity_type (some v) d = insert entity_type v d

-- The loop over the entity types of a subordinate without a policy of its own.
unfoldable pub policy_of_types : Dict Policy → TypedPolicy → List String → TypedPolicy
policy_of_types policy typed [] = typed
policy_of_types policy typed (entity_type ∷ entity_types) =
    policy_of_types policy
      (elim (lookup entity_type policy) [
        | none ↦ typed
        | some et_policy ↦ record {
          typed_metadata = put_typed entity_type et_policy.metadata typed.typed_metadata;
          typed_policy = put_typed entity_type et_policy.metadata_policy typed.typed_policy;
        }
      ])
      entity_types

unfoldable pub of_dict : Dict Value → Fields
of_dict [] = end
of_dict ((k, v) ∷ d) = field k v (of_dict d)

-- `_response.update(_policy)` for a policy of entity types, unless nothing was found.
unfoldable pub update_typed : TypedPolicy → Dict Value → Dict Value
unfolding of_dict
update_typed typed response =
    if is_empty typed.typed_metadata && is_empty typed.typed_policy
    then response
    else insert "metadata_policy" (object (of_dict typed.typed_policy))
        (insert "metadata" (object (of_dict typed.typed_metadata)) response)

-- `_response.update(_policy)` for a policy of the entity itself.
abbrev update_own : Policy → Dict Value → Dict Value
update_own policy response = elim policy.metadata_policy [
  | none ↦ elim policy.metadata [ none ↦ response | some v ↦ insert "metadata" v response ]
  | some p ↦
      insert "metadata_policy" p
        (elim policy.metadata [ none ↦ response | some v ↦ insert "metadata" v response ])
]

pub record Server : Type 0 where
  pub entity_id : String
  pub subordinate : Dict Subordinate
  pub policy : Dict Policy

-- The stored claims, with the issuer as the only hint where there are none.
unfoldable pub with_hints : String → Subordinate → Subordinate
with_hints issuer stored =
    if has_key "authority_hints" stored.claims then stored else record stored {
      claims = insert "authority_hints" (array (cons (text issuer) nil)) stored.claims;
    }

abbrev names : List String → Items
names [] = nil
names (s ∷ ss) = cons (text s) (names ss)

-- The whole dictionary that is stored, its entity types as a claim among the others.
abbrev all_claims : Subordinate → Dict Value
all_claims stored = elim stored.entity_types [
  | none ↦ stored.claims
  | some types ↦ insert "entity_types" (array (names types)) stored.claims
]

abbrev is_unknown : Subordinate → Bool
is_unknown stored = is_empty (all_claims stored)

-- The response for what is stored with hints, and what is stored after it: a policy of the entity
-- itself is written into the stored dictionary, one of its types into a copy without the types.
unfoldable pub with_policy : Server → String → Subordinate → Subordinate × Dict Value
unfolding policy_of_types update_typed
with_policy server sub stored = elim (lookup sub server.policy) [
  | none ↦ (
    stored,
    elim stored.entity_types [
      | none ↦ stored.claims
      | some entity_types ↦
          update_typed
            (policy_of_types server.policy (record { typed_metadata = []; typed_policy = [] })
              entity_types)
            stored.claims
    ],
  )
  | some own ↦ (
    record stored { claims = update_own own stored.claims },
    all_claims (record stored { claims = update_own own stored.claims }),
  )
]

-- The response of `Fetch.process_request` before the statement is created, with the server after it. A
-- policy that is stored for an entity states a claim at least.
unfoldable pub response_for : Server → String → String → Result (Server × Dict Value)
unfolding with_hints with_policy
response_for server issuer sub =
    require (lookup sub server.subordinate) unknown_entity >>= λ stored.
    guard (not (is_unknown stored)) unknown_entity
    >> (let changed = with_policy server sub (with_hints issuer stored) in
        ok (record server { subordinate = insert sub changed.0 server.subordinate }, changed.1))

-- `Fetch.process_request` about a subordinate: the claims that are signed for the issuer.
unfoldable pub fetch : Server → Value → String → String → Result (Server × Dict Value)
unfolding response_for create_entity_statement
fetch server exported issuer sub = response_for server issuer sub >>= λ run.
    ok (run.0, create_entity_statement sub exported true (named_claims run.1))
