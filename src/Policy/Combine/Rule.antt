-- ===== src/Policy/Combine/Rule.antt =====
-- What `build_rule` and the unions of names give, operator by operator.
use fedservice.Prelude.{
  inr, inl, Bool-cases, ◌⊎◌, refl, String, ◌≡◌, true, false, ◌||◌, none, some, List, [], ◌∷◌, arith,
  string_dec, ok, >>=-eq-ok, filter, not,
}
use fedservice.Prelude.Dict.{
  has_key-eq-lookup, mem, lookup, has_key, mem-append, mem-filter, mem-keys, lookup-cons,
  lookup-nil, keys,
}
use fedservice.Value.{Value}
use fedservice.Policy.Combine.{
  check_rule, check_one_of, check_essential, combine_claim_policy, ClaimPolicy, policy_functions,
  known, names_union, do_policy, build_rule,
}

-- An operator that the code knows is in `known` when the policy has it.
pub mem-known :
    (name : String) (policy : ClaimPolicy)
    → mem name policy_functions ≡ true
    → mem name (known policy) ≡ has_key name policy
unfolding known
mem-known name policy h =
    ground
      (arith, mem-filter (λ n. mem n policy_functions) name (keys policy), mem-keys name policy)

pub mem-names_union :
    (name : String) (xs ys : List String)
    → mem name (names_union xs ys) ≡ (mem name xs || mem name ys)
unfolding names_union
mem-names_union name xs ys = ground (
  arith,
  mem-append name xs (filter (λ y. not (mem y xs)) ys),
  mem-filter (λ y. not (mem y xs)) name ys,
)

-- The rule that was built holds, for each name of the list, what `do_policy` gave.
pub lookup-build_rule :
    (superior child : ClaimPolicy) (names : List String) (name : String) {rule : ClaimPolicy}
    → build_rule superior child names ≡ ok rule
    → mem name names ≡ true
    → (v : Value) × (do_policy superior child name ≡ ok v) × (lookup name rule ≡ some v)
unfolding build_rule
lookup-build_rule superior child [] name h m = cc
lookup-build_rule superior child (policy ∷ names) name {rule} h m =
    let (v, p, rest) = >>=-eq-ok (do_policy superior child policy) _ h in
    let (later, q, e) = >>=-eq-ok (build_rule superior child names) _ rest in
    elim (string_dec name policy) [
      | yes same ↦ (v, ground arith, ground (arith, lookup-cons name policy v later))
      | no differ ↦
          let (w, r, found) = lookup-build_rule superior child names name q (ground arith) in
          (w, r, ground (arith, lookup-cons name policy v later))
    ]

pub lookup-build_rule_absent :
    (superior child : ClaimPolicy) (names : List String) (name : String) {rule : ClaimPolicy}
    → build_rule superior child names ≡ ok rule
    → mem name names ≡ false
    → lookup name rule ≡ none
unfolding build_rule
lookup-build_rule_absent superior child [] name {rule} h m =
    ground (arith, lookup-nil {V = Value} name)
lookup-build_rule_absent superior child (policy ∷ names) name {rule} h m =
    let (v, p, rest) = >>=-eq-ok (do_policy superior child policy) _ h in
    let (later, q, e) = >>=-eq-ok (build_rule superior child names) _ rest in
    ground
      (arith, lookup-cons name policy v later, lookup-build_rule_absent superior child names name q)

module _ (superior child : ClaimPolicy) {rule : ClaimPolicy}
    (combined : combine_claim_policy superior child ≡ ok rule)
    (free : lookup "value" superior ≡ none) where
  -- A superior that states no `value` is combined by `build_rule`.
  pub built :
      (check_essential superior child (known superior) (known child) ≡ ok tt)
      × (build_rule superior child (names_union (known superior) (known child)) ≡ ok rule)
  unfolding combine_claim_policy
  built =
      let absent : mem "value" (known superior) ≡ false = ground (
        arith,
        mem-known "value" superior (unfold string_dec in refl),
        has_key-eq-lookup "value" superior,
      ) in
      let run = rw absent at combined in
      let (_, checked, more) =
        >>=-eq-ok (check_essential superior child (known superior) (known child)) _ run in
      let (_, _, rest) =
        >>=-eq-ok (check_one_of (names_union (known superior) (known child))) _ more in
      let (r, made, last) =
        >>=-eq-ok (build_rule superior child (names_union (known superior) (known child))) _ rest in
      let (_, _, same) =
        >>=-eq-ok (check_rule (names_union (known superior) (known child)) r) _ last in
      (checked, cc)

-- What a combined policy has at an operator that the code knows.
pub lookup-combined :
    (superior child : ClaimPolicy) (name : String) {rule : ClaimPolicy}
    → combine_claim_policy superior child ≡ ok rule
    → lookup "value" superior ≡ none
    → mem name policy_functions ≡ true
    → (((has_key name superior || has_key name child) ≡ true)
        × ((v : Value) × (do_policy superior child name ≡ ok v) × (lookup name rule ≡ some v)))
      ⊎ (((has_key name superior || has_key name child) ≡ false) × (lookup name rule ≡ none))
lookup-combined superior child name h free k =
    let (_, made) = built superior child h free in
    elim (Bool-cases (has_key name superior || has_key name child)) [
      | inl stated ↦ inl (stated, lookup-build_rule superior child _ name made (rw listed stated))
      | inr absent ↦
          inr (absent, lookup-build_rule_absent superior child _ name made (rw listed absent))
    ]
  where
    listed :
        mem name (names_union (known superior) (known child))
        ≡ (has_key name superior || has_key name child)
    listed = ground (
      arith,
      mem-names_union name (known superior) (known child),
      mem-known name superior k,
      mem-known name child k,
    )
