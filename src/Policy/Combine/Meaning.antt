-- ===== src/Policy/Combine/Meaning.antt =====
-- What a combined policy means for one claim: the values it permits and whether it demands the claim.
use fedservice.Prelude.{
  ◌⊎◌, ◌>>=◌, String, ◌≡◌, true, false, ◌||◌, ◌&&◌, none, some, Option, [], ◌∷◌, arith, string_dec,
  ok, raised, Bool, >>=-eq-ok, inl, inr,
}
use fedservice.Prelude.Dict.{mem, lookup, has_key, has_key-eq-lookup}
use fedservice.Value.{
  to_set-of_set, Atom, Value, to_set, has, intersection, has-dedup, has-intersection,
}
use fedservice.Policy.Combine.{
  policy_functions, op2func, ClaimPolicy, combine_claim_policy, do_policy, do_sub_one_super_add,
  combine_stated, nonempty, combine_sets,
}
use fedservice.Policy.Combine.Rule.{lookup-combined}

-- The values of a stated set, where it is one.
abbrev pub member : Atom → Value → Bool
member x v = elim (to_set v) [ ok s ↦ has x s | raised _ ↦ false ]

abbrev pub member_stated : Atom → Option Value → Bool
member_stated x none = true
member_stated x (some v) = member x v

-- The operator `name` of the policy, if stated, has `x` in its set.
abbrev pub permits : String → ClaimPolicy → Atom → Bool
permits name policy x = member_stated x (lookup name policy)

abbrev is_some {ℓ} : {A : Type ℓ} → Option A → Bool
is_some none = false
is_some (some a) = true

-- The three operators that are combined by intersection.
abbrev pub is_intersected : String → Bool
is_intersected name = mem name ("subset_of" ∷ "superset_of" ∷ "one_of" ∷ [])

member-combine_sets :
    (x : Atom) (a b : Value) {v : Value}
    → combine_sets a b ≡ ok v
    → member x v ≡ (member x a && member x b)
unfolding combine_sets
member-combine_sets x a b {v} h =
    let (s, p, rest) = >>=-eq-ok (to_set a) _ h in
    let (t, q, e) = >>=-eq-ok (to_set b) _ rest in
    ground (
      arith,
      to_set-of_set (intersection s t),
      has-dedup x (intersection s t),
      has-intersection x s t,
    )

nonempty-eq-ok : (v : Value) {w : Value} → nonempty v ≡ ok w → v ≡ w
nonempty-eq-ok v h = ground arith

-- The combination of two stated sets, for each of the three operators.
op2func_intersected :
    (name : String) → is_intersected name ≡ true → op2func name ≡ some combine_sets
unfolding op2func
op2func_intersected name h = ground arith

member-do_sub_one_super_add :
    (superior child : ClaimPolicy) (name : String) (x : Atom) {v : Value}
    → is_intersected name ≡ true
    → do_sub_one_super_add superior child name ≡ ok v
    → (has_key name superior || has_key name child) ≡ true
    → member x v ≡ (permits name superior x && permits name child x)
unfolding do_sub_one_super_add
member-do_sub_one_super_add superior child name x i h stated =
    stated_cases (lookup name superior) (lookup name child) (rw (op2func_intersected name i) at h)
      (ground (arith, stated, has_key-eq-lookup name superior, has_key-eq-lookup name child))
  where
    stated_cases :
        (p q : Option Value) {v : Value}
        → combine_stated (λ a b. combine_sets a b >>= nonempty) p q ≡ ok v
        → (is_some p || is_some q) ≡ true
        → member x v ≡ (member_stated x p && member_stated x q)
    stated_cases (some a) (some b) h s =
        let (w, e, more) = >>=-eq-ok (combine_sets a b) nonempty h in
        rw (← nonempty-eq-ok w more) (member-combine_sets x a b e)
    stated_cases (some a) none h s = ground arith
    stated_cases none (some b) h s = ground arith
    stated_cases none none h s = cc

intersected_cases :
    (name : String)
    → is_intersected name ≡ true
    → (name ≡ "subset_of") ⊎ ((name ≡ "superset_of") ⊎ (name ≡ "one_of"))
intersected_cases name h = ground arith

do_policy_intersected :
    (superior child : ClaimPolicy) (name : String)
    → is_intersected name ≡ true
    → do_policy superior child name ≡ do_sub_one_super_add superior child name
unfolding do_policy string_dec
do_policy_intersected superior child name i = elim (intersected_cases name i) [
  | inl e ↦ rw e
  | inr (inl e) ↦ rw e
  | inr (inr e) ↦ rw e
]

known_intersected : (name : String) → is_intersected name ≡ true → mem name policy_functions ≡ true
known_intersected name h = ground arith

-- Where the superior states no `value`, a combined policy permits, by each of the operators
-- `subset_of`, `superset_of` and `one_of`, exactly what the superior's and the child's policies
-- both permit by that operator.
pub permits-combine_claim_policy :
    (name : String) (superior child : ClaimPolicy) {rule : ClaimPolicy} (x : Atom)
    → is_intersected name ≡ true
    → lookup "value" superior ≡ none
    → combine_claim_policy superior child ≡ ok rule
    → permits name rule x ≡ (permits name superior x && permits name child x)
permits-combine_claim_policy name superior child {rule} x i free h =
    elim (lookup-combined superior child name h free (known_intersected name i)) [
      | inl (stated, (v, run, found)) ↦
          let same =
            member-do_sub_one_super_add superior child name x i
              (rw (do_policy_intersected superior child name i) at run) stated in
          rw found same
      | inr (absent, gone) ↦
          ground
            (arith, gone, absent, has_key-eq-lookup name superior, has_key-eq-lookup name child)
    ]
