-- ===== src/Policy/Combine/Essential.antt =====
-- What combining does to `essential` and to `value`.
use fedservice.Prelude.{
  string_dec, ap, ◌∙◌, ◌⊎◌, ◌≡◌, refl, true, false, ◌||◌, none, some, Option, arith, ok, Bool, inl,
  inr,
}
use fedservice.Prelude.Dict.{lookup, has_key, has_key-eq-lookup}
use fedservice.Value.{Value, truthy, value_eq, atom, bool, atom_eq, norm, Atom-discrete}
use fedservice.Policy.Combine.{
  mem, ClaimPolicy, combine_claim_policy, combine_with_value, do_policy, do_essential, known,
}
use fedservice.Policy.Combine.Rule.{lookup-combined, mem-known}

-- What `essential` is, if it is stated, is a Boolean.
abbrev pub BooleanEssential : ClaimPolicy → Type 0
BooleanEssential policy =
    (lookup "essential" policy ≡ none)
    ⊎ ((b : Bool) × (lookup "essential" policy ≡ some (atom (bool b))))

-- The claim must be there: `essential` is stated and equal to `True`.
abbrev is_enforced : Option Value → Bool
is_enforced none = false
is_enforced (some v) = value_eq v (atom (bool true))

abbrev pub demands : ClaimPolicy → Bool
demands policy = is_enforced (lookup "essential" policy)

do_policy_essential :
    (superior child : ClaimPolicy)
    → do_policy superior child "essential" ≡ do_essential superior child "essential"
unfolding do_policy string_dec
do_policy_essential superior child = refl

is_true : (b : Bool) → value_eq (atom (bool b)) (atom (bool true)) ≡ b
unfolding value_eq atom_eq norm Atom-discrete native.Mathlib.Decide.ℕ_discrete
is_true true = refl
is_true false = refl

demands-stated :
    (policy : ClaimPolicy) (b : Bool)
    → lookup "essential" policy ≡ some (atom (bool b))
    → demands policy ≡ b
demands-stated policy b h = ground (arith, h, is_true b)

demands-none : (policy : ClaimPolicy) → lookup "essential" policy ≡ none → demands policy ≡ false
demands-none policy h = ground (arith, h)

same_demand : (b : Bool) {v : Value} → ok (atom (bool b)) ≡ ok v → value_eq v (atom (bool true)) ≡ b
same_demand b {v = v} h =
    let same : v ≡ atom (bool b) = cc in ap (λ w. value_eq w (atom (bool true))) same ∙ is_true b

both_stated :
    (superior child : ClaimPolicy) {v : Value} (a b : Bool)
    → lookup "essential" superior ≡ some (atom (bool a))
    → lookup "essential" child ≡ some (atom (bool b))
    → do_essential superior child "essential" ≡ ok v
    → value_eq v (atom (bool true)) ≡ (a || b)
unfolding do_essential truthy
both_stated superior child true b p q h = same_demand true (ground (arith, p, q, h))
both_stated superior child false true p q h = same_demand true (ground (arith, p, q, h))
both_stated superior child false false p q h = same_demand false (ground (arith, p, q, h))

combined_demand :
    (superior child : ClaimPolicy) {v : Value}
    → BooleanEssential superior
    → BooleanEssential child
    → do_essential superior child "essential" ≡ ok v
    → (has_key "essential" superior || has_key "essential" child) ≡ true
    → value_eq v (atom (bool true)) ≡ (demands superior || demands child)
unfolding do_essential
combined_demand superior child (inl p) (inl q) h stated = ground (
  arith,
  p,
  q,
  stated,
  has_key-eq-lookup "essential" superior,
  has_key-eq-lookup "essential" child,
)
combined_demand superior child (inr (a, p)) (inl q) h stated =
    same_demand a (ground (arith, p, q, h))
    ∙ ground (arith, demands-stated superior a p, demands-none child q)
combined_demand superior child (inl p) (inr (b, q)) h stated =
    same_demand b (ground (arith, p, q, h))
    ∙ ground (arith, demands-none superior p, demands-stated child b q)
combined_demand superior child (inr (a, p)) (inr (b, q)) h stated =
    both_stated superior child a b p q h
    ∙ ground (arith, demands-stated superior a p, demands-stated child b q)

-- Where the superior states no `value` and what the two policies state as `essential` are Booleans, a
-- combined policy demands the claim exactly when the superior's or the child's policy does: a child
-- can turn the demand on and never off.
pub demands-combine_claim_policy :
    (superior child : ClaimPolicy) {rule : ClaimPolicy}
    → lookup "value" superior ≡ none
    → BooleanEssential superior
    → BooleanEssential child
    → combine_claim_policy superior child ≡ ok rule
    → demands rule ≡ (demands superior || demands child)
demands-combine_claim_policy superior child free plain plain' h =
    elim (lookup-combined superior child "essential" h free (unfold string_dec in refl)) [
      | inl (stated, (v, run, found)) ↦ rw found (
          combined_demand superior child plain plain'
            (rw (do_policy_essential superior child) at run) stated)
      | inr (absent, gone) ↦
          ground (
            arith,
            gone,
            has_key-eq-lookup "essential" superior,
            has_key-eq-lookup "essential" child,
          )
    ]

states_value :
    (superior child : ClaimPolicy) (v : Value)
    → lookup "value" superior ≡ some v
    → combine_claim_policy superior child ≡ combine_with_value superior child (known child)
unfolding combine_claim_policy
states_value superior child v h =
    let there : mem "value" (known superior) ≡ true = ground (
      arith,
      mem-known "value" superior (unfold string_dec in refl),
      has_key-eq-lookup "value" superior,
    ) in
    rw there

-- No child can change a `value` that the superior states: whatever it combines with, it stays.
pub combine_claim_policy-value :
    (superior child : ClaimPolicy) {rule : ClaimPolicy} (v : Value)
    → lookup "value" superior ≡ some v
    → combine_claim_policy superior child ≡ ok rule
    → lookup "value" rule ≡ some v
unfolding combine_with_value lookup string_dec
combine_claim_policy-value superior child v e h = kept (rw (states_value superior child v e) at h)
  where
    kept :
        {rule : ClaimPolicy}
        → combine_with_value superior child (known child) ≡ ok rule
        → lookup "value" rule ≡ some v
    kept h = ground (arith, e)

unknown_essential :
    (child : ClaimPolicy) → mem "essential" (known child) ≡ has_key "essential" child
unknown_essential child = mem-known "essential" child (unfold string_dec in refl)

-- Where the superior states a `value`, the `essential` of a combined policy is the child's if the child
-- states one, whatever the superior's is, and the superior's otherwise: here a child can turn the demand
-- off.
pub essential_replaced :
    (superior child : ClaimPolicy) {rule : ClaimPolicy} (v : Value)
    → lookup "value" superior ≡ some v
    → combine_claim_policy superior child ≡ ok rule
    → lookup "essential" rule
      ≡ (elim (lookup "essential" child) [ some e ↦ some e | none ↦ lookup "essential" superior ])
unfolding combine_with_value lookup string_dec
essential_replaced superior child v e h = replaced (rw (states_value superior child v e) at h)
  where
    replaced :
        {rule : ClaimPolicy}
        → combine_with_value superior child (known child) ≡ ok rule
        → lookup "essential" rule ≡ (elim (lookup "essential" child) [
          | some e ↦ some e
          | none ↦ lookup "essential" superior
        ])
    replaced h = ground (arith, e, unknown_essential child, has_key-eq-lookup "essential" child)
