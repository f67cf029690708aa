-- ===== src/Policy/Combine.antt =====
-- Combining the policy rules of a superior and a subordinate: the first half of
-- src/fedservice/entity/function/policy.py.
pub mod Rule
pub mod Meaning
pub mod Essential
use fedservice.Prelude.{
  String, Bool, true, false, not, ◌&&◌, ◌||◌, Option, none, some, List, [], ◌∷◌, ◌++◌, eqb, ◌==◌,
  if◌then◌else◌, length, is_empty, filter, all, Result, ok, raised, ◌>>=◌, ◌>>◌, guard, require,
  policy_error, key_error,
}
use fedservice.Prelude.Dict.{Dict, mem, lookup, keys}
use fedservice.Value.{
  Atom, Value, atom, bool, null, to_set, of_set, singleton, intersection, union, difference,
  issubset, is_list, truthy, value_eq,
}

-- The operators of one claim with their values, as `metadata_policy[claim]` holds them.
abbrev pub ClaimPolicy : Type 0
ClaimPolicy = Dict Value

abbrev pub MetadataPolicy : Type 0
MetadataPolicy = Dict ClaimPolicy

abbrev pub Metadata : Type 0
Metadata = Dict Value

-- The dictionary with the two keys `metadata_policy` and `metadata` that `combine` works on.
pub record Rules : Type 0 where
  pub metadata_policy : MetadataPolicy
  pub metadata : Metadata

-- `combine_subset_of`, `combine_superset_of` and `combine_one_of` have this one body.
unfoldable pub combine_sets : Value → Value → Result Value
combine_sets s1 s2 = do a ← to_set s1; b ← to_set s2; ok (of_set (intersection a b))

unfoldable pub combine_subset_of : Value → Value → Result Value
unfolding combine_sets
combine_subset_of s1 s2 = combine_sets s1 s2

unfoldable pub combine_superset_of : Value → Value → Result Value
unfolding combine_sets
combine_superset_of s1 s2 = combine_sets s1 s2

unfoldable pub combine_one_of : Value → Value → Result Value
unfolding combine_sets
combine_one_of s1 s2 = combine_sets s1 s2

-- A list gives the set of its elements, any other value the set with that element.
unfoldable pub set_or_singleton : Value → Result (List Atom)
set_or_singleton v = if is_list v then to_set v else singleton v

unfoldable pub combine_add : Value → Value → Result Value
unfolding set_or_singleton
combine_add s1 s2 = do
  set1 ← set_or_singleton s1
  set2 ← set_or_singleton s2
  ok (of_set (union set1 set2))

abbrev pub policy_functions : List String
policy_functions =
    "subset_of" ∷ "superset_of" ∷ "one_of" ∷ "add" ∷ "value" ∷ "default" ∷ "essential" ∷ []

-- `OP2FUNC[policy]`
unfoldable pub op2func : String → Option (Value → Value → Result Value)
unfolding combine_subset_of combine_superset_of combine_one_of combine_add
op2func policy =
    if policy == "subset_of"
    then some combine_subset_of
    else if policy == "superset_of"
    then some combine_superset_of
    else if policy == "one_of"
    then some combine_one_of
    else if policy == "add"
    then some combine_add
    else none

-- The value of an operator that the superior, the child, both or none of them states; `join` says
-- what to do with two. With none Python returns `None`.
abbrev pub combine_stated :
    (Value → Value → Result Value) → Option Value → Option Value → Result Value
combine_stated join (some a) (some b) = join a b
combine_stated join (some a) none = ok a
combine_stated join none (some b) = ok b
combine_stated join none none = ok (atom null)

-- `if comb: return comb`, else the value sets do not overlap.
abbrev pub nonempty : Value → Result Value
nonempty v = if truthy v then ok v else raised policy_error

unfoldable pub do_sub_one_super_add : ClaimPolicy → ClaimPolicy → String → Result Value
unfolding op2func
do_sub_one_super_add superior child policy =
    combine_stated
      (λ a b. require (op2func policy) key_error >>= λ combine. combine a b >>= nonempty)
      (lookup policy superior) (lookup policy child)

unfoldable pub do_value : ClaimPolicy → ClaimPolicy → String → Result Value
do_value superior child policy =
    combine_stated (λ a b. if value_eq a b then ok a else raised policy_error)
      (lookup policy superior) (lookup policy child)

unfoldable pub do_default : ClaimPolicy → ClaimPolicy → String → Result Value
do_default superior child policy =
    combine_stated
      (λ _ _. do
        a ← require (lookup "default" superior) key_error
        b ← require (lookup "default" child) key_error
        if value_eq a b then ok a else raised policy_error)
      (lookup policy superior) (lookup policy child)

unfoldable pub do_essential : ClaimPolicy → ClaimPolicy → String → Result Value
do_essential superior child policy =
    combine_stated
      (λ a _.
        if truthy a
        then ok a
        else require (lookup "essential" child) key_error >>= λ b.
            if truthy b then ok (atom (bool true)) else ok a)
      (lookup policy superior) (lookup policy child)

-- `DO_POLICY[policy](superior, child, policy)`
unfoldable pub do_policy : ClaimPolicy → ClaimPolicy → String → Result Value
unfolding do_sub_one_super_add do_value do_default do_essential
do_policy superior child policy =
    if policy == "value"
    then do_value superior child policy
    else if policy == "default"
    then do_default superior child policy
    else if policy == "essential"
    then do_essential superior child policy
    else if mem policy ("add" ∷ "superset_of" ∷ "subset_of" ∷ "one_of" ∷ [])
    then do_sub_one_super_add superior child policy
    else raised key_error

-- `for policy in comb_policy: rule[policy] = …`. No name comes twice in `comb_policy`.
unfoldable pub build_rule : ClaimPolicy → ClaimPolicy → List String → Result ClaimPolicy
build_rule superior child [] = ok []
build_rule superior child (policy ∷ names) = do
  v ← do_policy superior child policy
  rule ← build_rule superior child names
  ok ((policy, v) ∷ rule)

-- `==` on sets of names.
abbrev pub same_names : List String → List String → Bool
same_names xs ys = all (λ x. mem x ys) xs && all (λ y. mem y xs) ys

-- `if set(rule[a]).difference(set(rule[b])): raise PolicyError`
unfoldable pub check_included : ClaimPolicy → String → String → Result (Unit {0})
check_included rule a b = do
  v ← require (lookup a rule) key_error
  s ← to_set v
  w ← require (lookup b rule) key_error
  t ← to_set w
  guard (is_empty (difference s t)) policy_error

-- A default that is no list is compared as a set with one element.
unfoldable pub check_default_in_one_of : ClaimPolicy → Result (Unit {0})
unfolding set_or_singleton
check_default_in_one_of rule = do
  v ← require (lookup "default" rule) key_error
  s ← set_or_singleton v
  w ← require (lookup "one_of" rule) key_error
  t ← to_set w
  guard (is_empty (difference s t)) policy_error

-- `if not set(rule[a]).issubset(set(rule[b])): raise PolicyError`; `issuperset` is the same with
-- the two sides exchanged, the first side being read first.
unfoldable pub check_add_subset : ClaimPolicy → Result (Unit {0})
check_add_subset rule = do
  v ← require (lookup "add" rule) key_error
  s ← to_set v
  w ← require (lookup "subset_of" rule) key_error
  t ← to_set w
  guard (issubset s t) policy_error

unfoldable pub check_add_superset : ClaimPolicy → Result (Unit {0})
check_add_superset rule = do
  v ← require (lookup "add" rule) key_error
  s ← to_set v
  w ← require (lookup "superset_of" rule) key_error
  t ← to_set w
  guard (issubset t s) policy_error

-- The chain of tests on `comb_policy` behind the loop.
unfoldable pub check_rule : List String → ClaimPolicy → Result (Unit {0})
unfolding check_included check_default_in_one_of check_add_subset check_add_superset
check_rule comb_policy rule =
    if same_names comb_policy ("superset_of" ∷ "subset_of" ∷ [])
    then check_included rule "superset_of" "subset_of"
    else if same_names comb_policy ("superset_of" ∷ "subset_of" ∷ "default" ∷ [])
    then (do
      check_included rule "superset_of" "subset_of"
      check_included rule "default" "subset_of"
      check_included rule "superset_of" "default")
    else if same_names comb_policy ("subset_of" ∷ "default" ∷ [])
    then check_included rule "default" "subset_of"
    else if same_names comb_policy ("superset_of" ∷ "default" ∷ [])
    then check_included rule "superset_of" "default"
    else if same_names comb_policy ("one_of" ∷ "default" ∷ [])
    then check_default_in_one_of rule
    else if same_names comb_policy ("subset_of" ∷ "add" ∷ [])
    then check_add_subset rule
    else if same_names comb_policy ("superset_of" ∷ "add" ∷ [])
    then check_add_superset rule
    else ok tt

-- `set(policy).intersection(POLICY_FUNCTIONS)`
unfoldable pub known : ClaimPolicy → List String
known policy = filter (λ name. mem name policy_functions) (keys policy)

-- `superior_set.union(child_set)`
unfoldable pub names_union : List String → List String → List String
names_union xs ys = xs ++ filter (λ y. not (mem y xs)) ys

-- `superior` states `value`: the child may repeat it, or add `essential` and nothing else.
unfoldable pub combine_with_value : ClaimPolicy → ClaimPolicy → List String → Result ClaimPolicy
combine_with_value superior child child_set =
    if is_empty child_set
    then ok superior
    else if mem "essential" child_set
    then (if eqb (length child_set) 1
        then (do
          v ← require (lookup "value" superior) key_error
          e ← require (lookup "essential" child) key_error
          ok (("value", v) ∷ ("essential", e) ∷ []))
        else raised policy_error)
    else if mem "value" child_set
    then (do
      w ← require (lookup "value" child) key_error
      v ← require (lookup "value" superior) key_error
      if value_eq w v then ok superior else raised policy_error)
    else raised policy_error

-- `v is False`
abbrev pub is_false : Value → Bool
is_false (atom (bool b)) = not b
is_false _ = false

unfoldable pub check_essential :
    ClaimPolicy → ClaimPolicy → List String → List String → Result (Unit {0})
check_essential superior child superior_set child_set =
    if mem "essential" superior_set && mem "essential" child_set
    then (do
      a ← require (lookup "essential" superior) key_error
      b ← require (lookup "essential" child) key_error
      guard (not (not (value_eq a b) && is_false b)) policy_error)
    else ok tt

unfoldable pub check_one_of : List String → Result (Unit {0})
check_one_of comb_policy =
    guard
      (not (
        mem "one_of" comb_policy && (mem "subset_of" comb_policy || mem "superset_of" comb_policy)))
      policy_error

unfoldable pub combine_without_value :
    ClaimPolicy → ClaimPolicy → List String → List String → Result ClaimPolicy
unfolding check_essential check_one_of build_rule check_rule names_union
combine_without_value superior child superior_set child_set = do
  check_essential superior child superior_set child_set
  let comb_policy = names_union superior_set child_set
  check_one_of comb_policy
  rule ← build_rule superior child comb_policy
  check_rule comb_policy rule
  ok rule

unfoldable pub combine_claim_policy : ClaimPolicy → ClaimPolicy → Result ClaimPolicy
unfolding known combine_with_value combine_without_value
combine_claim_policy superior child =
    if mem "value" (known superior)
    then combine_with_value superior child (known child)
    else combine_without_value superior child (known superior) (known child)
