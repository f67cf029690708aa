-- ===== src/Fetch/Answers.antt =====
-- What the fetch endpoint answers: src/fedservice/entity/server/fetch.py.
use fedservice.Fetch.{
  nil, of_dict, cons, names, object, array, all_claims, policy_of_types, Subordinate, TypedPolicy,
  Server, update_typed, with_policy, with_hints, update_own, Policy, response_for,
}
use fedservice.Prelude.{
  String, ◌≡◌, refl, inl, inr, false, Option, none, some, [], arith, string_dec, ◌==◌, Option-cases,
  ok,
}
use fedservice.Prelude.Dict.{has_key-eq-lookup, Dict, lookup, insert, lookup-insert}
use fedservice.Value.{Value, text}

abbrev pub hints : Dict Value → Option Value
hints d = lookup "authority_hints" d

hints-insert :
    (name : String) (v : Value) (d : Dict Value)
    → ("authority_hints" == name) ≡ false
    → hints (insert name v d) ≡ hints d
hints-insert name v d other = ground (arith, lookup-insert "authority_hints" name v d)

hints-update_own : (policy : Policy) (d : Dict Value) → hints (update_own policy d) ≡ hints d
unfolding string_dec
hints-update_own policy d = elim (Option-cases policy.metadata) [
  | inl no_metadata ↦ elim (Option-cases policy.metadata_policy) [
    | inl no_policy ↦ ground arith
    | inr (p, here) ↦ ground (arith, hints-insert "metadata_policy" p d refl)
  ]
  | inr (v, there) ↦ elim (Option-cases policy.metadata_policy) [
    | inl no_policy ↦ ground (arith, hints-insert "metadata" v d refl)
    | inr (p, here) ↦ ground (
      arith,
      hints-insert "metadata" v d refl,
      hints-insert "metadata_policy" p (insert "metadata" v d) refl,
    )
  ]
]

hints-all_claims : (stored : Subordinate) → hints (all_claims stored) ≡ hints stored.claims
unfolding string_dec
hints-all_claims stored = elim (Option-cases stored.entity_types) [
  | inl none_stated ↦ ground arith
  | inr (types, here) ↦
      ground (arith, hints-insert "entity_types" (array (names types)) stored.claims refl)
]

hints-update_typed : (typed : TypedPolicy) (d : Dict Value) → hints (update_typed typed d) ≡ hints d
unfolding update_typed string_dec
hints-update_typed typed d = ground (
  arith,
  hints-insert "metadata" (object (of_dict typed.typed_metadata)) d refl,
  hints-insert "metadata_policy" (object (of_dict typed.typed_policy))
      (insert "metadata" (object (of_dict typed.typed_metadata)) d) refl,
)

hints-with_policy :
    (server : Server) (sub : String) (stored : Subordinate)
    → (hints (with_policy server sub stored).0.claims ≡ hints stored.claims)
      × (hints (with_policy server sub stored).1 ≡ hints stored.claims)
unfolding with_policy
hints-with_policy server sub stored = elim (Option-cases (lookup sub server.policy)) [
  | inl no_own ↦ elim (Option-cases stored.entity_types) [
    | inl no_types ↦ (ground arith, ground arith)
    | inr (types, here) ↦ (
      ground arith,
      ground (
        arith,
        hints-update_typed
            (policy_of_types server.policy (record { typed_metadata = []; typed_policy = [] })
              types)
            stored.claims,
      ),
    )
  ]
  | inr (own, here) ↦ (
    ground (arith, hints-update_own own stored.claims),
    ground (
      arith,
      hints-update_own own stored.claims,
      hints-all_claims (record stored { claims = update_own own stored.claims }),
    ),
  )
]

hints-with_hints :
    (issuer : String) (stored : Subordinate)
    → hints (with_hints issuer stored).claims ≡ elim (hints stored.claims) [
      | none ↦ some (array (cons (text issuer) nil))
      | some v ↦ some v
    ]
unfolding with_hints
hints-with_hints issuer stored = ground (
  arith,
  has_key-eq-lookup "authority_hints" stored.claims,
  lookup-insert "authority_hints" "authority_hints" (array (cons (text issuer) nil)) stored.claims,
)

-- What an answer leaves and states.
answered :
    (server : Server) (issuer sub : String) {server' : Server} {response : Dict Value}
    → response_for server issuer sub ≡ ok (server', response)
    → (stored : Subordinate) × (lookup sub server.subordinate ≡ some stored)
      × (lookup sub server'.subordinate
          ≡ some (with_policy server sub (with_hints issuer stored)).0)
      × (response ≡ (with_policy server sub (with_hints issuer stored)).1)
unfolding response_for
answered server issuer sub h = elim (Option-cases (lookup sub server.subordinate)) [
  | inl none_such ↦ ground arith
  | inr (stored, here) ↦
      let changed = with_policy server sub (with_hints issuer stored) in
      (
        stored,
        here,
        ground (arith, lookup-insert sub sub changed.0 server.subordinate),
        ground arith,
      )
]

-- After the first answer the hints are stored: a later answer about the same subordinate states the
-- hints of the first, whatever issuer it is asked for.
pub response_for_hints :
    (server : Server) (first later sub : String) {server' server'' : Server}
    {response response' : Dict Value}
    → response_for server first sub ≡ ok (server', response)
    → response_for server' later sub ≡ ok (server'', response')
    → lookup "authority_hints" response' ≡ lookup "authority_hints" response
response_for_hints server first later sub {server' = server'} answered_first asked =
    let (stored, here, left, states) = answered server first sub answered_first in
    let (stored', here', left', states') = answered server' later sub asked in
    ground (
      arith,
      states,
      states',
      left,
      here',
      hints-with_hints first stored,
      hints-with_hints later stored',
      hints-with_policy server sub (with_hints first stored),
      hints-with_policy server' sub (with_hints later stored'),
    )
