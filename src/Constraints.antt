-- ===== src/Constraints.antt =====
-- Constraints on a trust chain: src/fedservice/entity_statement/constraints.py.
pub mod Names
pub mod Order
pub mod Narrowing
pub mod Chain
pub mod PathLength
pub mod Excluded
use fedservice.Prelude.{
  ◌++◌, ℕ, String, Bool, true, false, Option, none, some, List, [], ◌∷◌, if◌then◌else◌, is_empty,
  Result, ok, raised, ◌>>=◌, ◌>>◌, key_error, value_error, index_error, require, get_last?,
  drop_last,
}
use fedservice.Prelude.Int.{ℤ, pos, negsuc, ◌-ℤ◌, ltb_ℤ}
use fedservice.Statement.{EntityStatement, Constraints, NamingConstraints}
use fedservice.Constraints.Names.{more_specific}

unfoldable pub calculate_path_length : Constraints → ℤ → Bool → ℤ
calculate_path_length constraints current_max_path_length max_assigned =
    elim constraints.max_path_length [
      | none ↦ if max_assigned then current_max_path_length -ℤ pos 1 else pos 0
      | some max_len ↦
          let new_current = current_max_path_length -ℤ pos 1 in
          if max_assigned
          then (if ltb_ℤ max_len new_current then max_len else new_current)
          else max_len
    ]

-- The inner loop of `update_specs`: the new names that are more specific than `old`.
unfoldable pub replacements : String → List String → Result (List String)
replacements old [] = ok []
replacements old (new ∷ news) = do
  better ← more_specific new old
  rest ← replacements old news
  ok (if better then new ∷ rest else rest)

-- An old name is replaced by the new names that are more specific, or kept if there is none.
unfoldable pub update_specs : List String → List String → Result (List String)
unfolding replacements
update_specs new_constraints [] = ok []
update_specs new_constraints (old ∷ olds) = do
  better ← replacements old new_constraints
  rest ← update_specs new_constraints olds
  ok ((if is_empty better then old ∷ [] else better) ++ rest)

-- The accumulated constraints: at first both lists are `None`. An empty list counts as none.
pub record Naming : Type 0 where
  pub permitted : List String
  pub excluded : List String

-- One turn of the loop of `add_constraints`, for one key. `new_constraints[key]` raises where the
-- key is missing and there is an old list.
unfoldable pub add_constraint : Option (List String) → List String → Result (List String)
unfolding update_specs
add_constraint new [] = elim new [ none ↦ ok [] | some names ↦ ok names ]
add_constraint new (old ∷ olds) = require new key_error >>= λ names.
    if is_empty names then ok (old ∷ olds) else update_specs names (old ∷ olds)

unfoldable pub add_constraints : NamingConstraints → Naming → Result Naming
unfolding add_constraint
add_constraints new_constraints naming_constraints = do
  p ← add_constraint new_constraints.permitted naming_constraints.permitted
  e ← add_constraint new_constraints.excluded naming_constraints.excluded
  ok (record { permitted = p; excluded = e })

unfoldable pub update_naming_constraints : Constraints → Naming → Result Naming
unfolding add_constraints
update_naming_constraints constraints naming_constraints = elim constraints.naming_constraints [
  | none ↦ ok naming_constraints
  | some new_constraints ↦ add_constraints new_constraints naming_constraints
]

-- `excluded` and `permitted`: some name of the list covers the subject.
unfoldable pub covered : String → List String → Result Bool
covered subject_id [] = ok false
covered subject_id (name ∷ names) =
    more_specific subject_id name >>= λ found. if found then ok true else covered subject_id names

-- The two tests on a subject: not excluded, and permitted if there is a list of permitted names.
unfoldable pub subject_allowed : String → Naming → Result Bool
unfolding covered
subject_allowed subject naming =
    (if is_empty naming.excluded then ok false else covered subject naming.excluded) >>= λ out.
    if out
    then ok false
    else if is_empty naming.permitted
    then ok true
    else covered subject naming.permitted

-- The loop over all statements but the last, from the accumulated values on. `false` is the early
-- `return False`; `max_assigned` is never set in the loop.
unfoldable pub check_superiors : ℤ → Bool → Naming → List EntityStatement → Result (Option Naming)
unfolding calculate_path_length update_naming_constraints subject_allowed
check_superiors current max_assigned naming [] = ok (some naming)
check_superiors current max_assigned naming (statement ∷ chain) = elim statement.constraints [
  | none ↦ check_superiors current max_assigned naming chain
  | some constraints ↦
      let length' = calculate_path_length constraints current max_assigned in
      if ltb_ℤ length' (pos 0)
      then ok none
      else update_naming_constraints constraints naming >>= λ updated.
          subject_allowed statement.sub updated >>= λ allowed. elim allowed [
            | true ↦ check_superiors length' max_assigned updated chain
            | false ↦ ok none
          ]
]

unfoldable pub meets_restrictions : List EntityStatement → Result Bool
unfolding check_superiors
meets_restrictions trust_chain =
    check_superiors (pos 0) false (record { permitted = []; excluded = [] }) (drop_last trust_chain)
    >>= λ checked. elim checked [
      | none ↦ ok false
      | some naming ↦
          require (get_last? trust_chain) index_error >>= λ leaf. subject_allowed leaf.sub naming
    ]
