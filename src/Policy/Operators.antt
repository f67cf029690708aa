-- ===== src/Policy/Operators.antt =====
-- The policy operators: src/fedservice/entity/function/policy_operator.py. A call of an operator
-- returns the name of the operator to go on with, if any, and the changed metadata.
use fedservice.Prelude.{
  String, true, Option, none, some, List, [], ◌∷◌, if◌then◌else◌, Result, ok, raised, ◌>>=◌,
  require, is_empty, ◌==◌, policy_error, key_error,
}
use fedservice.Prelude.Dict.{lookup, has_key, insert}
use fedservice.Value.{
  Value, atom, object, bool, str, of_entries, to_set, of_set, intersection, union, difference,
  characters, contained_in, is_list, value_eq,
}
use fedservice.Policy.Combine.{MetadataPolicy, Metadata, set_or_singleton}

pub data OperatorKind : Type 0 where
  value add default one_of subset_of superset_of essential : OperatorKind

-- The class attribute `name`.
abbrev pub name_of : OperatorKind → String
name_of value = "value"
name_of add = "add"
name_of default = "default"
name_of one_of = "one_of"
name_of subset_of = "subset_of"
name_of superset_of = "superset_of"
name_of essential = "essential"

-- The class attribute `default_next`.
abbrev pub default_next : OperatorKind → String
default_next value = "essential"
default_next add = "default"
default_next default = "one_of"
default_next one_of = "essential"
default_next subset_of = "superset_of"
default_next superset_of = "essential"
default_next essential = ""

pub record PolicyOperator : Type 0 where
  pub kind : OperatorKind
  pub next : String

-- `s or t`, on texts.
abbrev pub or_text : String → String → String
or_text String.[] t = t
or_text (String.◌∷◌ c s) t = String.◌∷◌ c s

-- `__init__`: `self.next = next or self.default_next`
abbrev pub new_operator : OperatorKind → String → PolicyOperator
new_operator k next = record { kind = k; next = or_text next (default_next k) }

-- `metadata_policy[claim][self.name]`
unfoldable pub operator_value : OperatorKind → String → MetadataPolicy → Result Value
operator_value k claim policy = do
  rule ← require (lookup claim policy) key_error
  require (lookup (name_of k) rule) key_error

-- What a call gives back: `return self.next` or `None`, and the metadata.
abbrev pub Outcome : Type 0
Outcome = Option String × Metadata

unfoldable pub call_value : PolicyOperator → String → Metadata → MetadataPolicy → Result Outcome
unfolding operator_value
call_value self claim metadata policy =
    operator_value value claim policy >>= λ v. ok (some self.next, insert claim v metadata)

unfoldable pub call_one_of : PolicyOperator → String → Metadata → MetadataPolicy → Result Outcome
unfolding operator_value
call_one_of self claim metadata policy = elim (lookup claim metadata) [
  | none ↦ ok (none, metadata)
  | some m ↦
      if is_list m
      then ok (none, metadata)
      else operator_value one_of claim policy >>= λ v. contained_in m v >>= λ found.
          if found then ok (some self.next, metadata) else raised policy_error
]

unfoldable pub call_add : PolicyOperator → String → Metadata → MetadataPolicy → Result Outcome
unfolding operator_value set_or_singleton
call_add self claim metadata policy = elim (lookup claim metadata) [
  | none ↦ operator_value add claim policy >>= λ v. ok (none, insert claim v metadata)
  | some m ↦ do
    v ← operator_value add claim policy
    base ← set_or_singleton m
    ext ← set_or_singleton v
    ok (none, insert claim (of_set (union base ext)) metadata)
]

unfoldable pub call_default : PolicyOperator → String → Metadata → MetadataPolicy → Result Outcome
unfolding operator_value
call_default self claim metadata policy =
    if has_key claim metadata
    then ok (none, metadata)
    else operator_value default claim policy >>= λ v. ok (none, insert claim v metadata)

-- The branch of `SubsetOf` for a claim that is no list: it looks for the value among the keys of the
-- claim's policy, and `list(…)` of the text that it found is the list of its characters.
unfoldable pub subset_of_single : String → Value → Metadata → MetadataPolicy → Result Outcome
subset_of_single claim m metadata policy = do
  rule ← require (lookup claim policy) key_error
  found ← contained_in m (object (of_entries rule))
  elim m [
    | atom (str s) ↦
        if found
        then (if s == ""
            then raised policy_error
            else ok (none, insert claim (of_set (characters s)) metadata))
        else raised policy_error
    | _ ↦ raised policy_error
  ]

unfoldable pub call_subset_of : PolicyOperator → String → Metadata → MetadataPolicy → Result Outcome
unfolding operator_value subset_of_single
call_subset_of self claim metadata policy = elim (lookup claim metadata) [
  | none ↦ ok (none, metadata)
  | some m ↦
      if is_list m
      then (do
        v ← operator_value subset_of claim policy
        s ← to_set v
        t ← to_set m
        let val = intersection s t
        if is_empty val then raised policy_error else ok (none, insert claim (of_set val) metadata))
      else subset_of_single claim m metadata policy
]

unfoldable pub call_superset_of :
    PolicyOperator → String → Metadata → MetadataPolicy → Result Outcome
unfolding operator_value
call_superset_of self claim metadata policy = elim (lookup claim metadata) [
  | none ↦ ok (none, metadata)
  | some m ↦ do
    v ← operator_value superset_of claim policy
    s ← to_set v
    t ← to_set m
    if is_empty (difference s t) then ok (none, metadata) else raised policy_error
]

unfoldable pub call_essential : PolicyOperator → String → Metadata → MetadataPolicy → Result Outcome
unfolding operator_value
call_essential self claim metadata policy =
    if has_key claim metadata
    then ok (none, metadata)
    else operator_value essential claim policy >>= λ v.
        if value_eq v (atom (bool true)) then raised policy_error else ok (none, metadata)

-- `_policy_op(claim, metadata, metadata_policy)`
unfoldable pub call : PolicyOperator → String → Metadata → MetadataPolicy → Result Outcome
unfolding call_value call_one_of call_add call_default call_subset_of call_superset_of
    call_essential
call self = elim self.kind [
  | value ↦ call_value self
  | add ↦ call_add self
  | default ↦ call_default self
  | one_of ↦ call_one_of self
  | subset_of ↦ call_subset_of self
  | superset_of ↦ call_superset_of self
  | essential ↦ call_essential self
]

abbrev pub policy_application_order : List OperatorKind
policy_application_order = value ∷ add ∷ default ∷ one_of ∷ subset_of ∷ superset_of ∷ essential ∷ []

-- `[POLICY_OPERATORS[name]() for name in names]`
abbrev pub instances : List OperatorKind → List PolicyOperator
instances [] = []
instances (k ∷ ks) = new_operator k "" ∷ instances ks

abbrev pub construct_evaluation_sequence : List PolicyOperator
construct_evaluation_sequence = instances policy_application_order
