-- ===== src/Constraints/Excluded.antt =====
-- What a later statement of a chain can do to the excluded names: src/fedservice/entity_statement/constraints.py.
use fedservice.Prelude.{String, ◌≡◌, true, false, [], ◌∷◌, ok, none, some, arith}
use fedservice.Statement.{Constraints, EntityStatement}
use fedservice.Constraints.{
  check_superiors, add_constraints, add_constraint, update_specs, subject_allowed,
  meets_restrictions,
}
use fedservice.Constraints.Names.{more_specific}

-- The constraints that exclude one name and say nothing else
abbrev pub excludes : String → Constraints
excludes name = record {
  max_path_length = none;
  naming_constraints = some (record { permitted = none; excluded = some (name ∷ []) });
}

-- An intermediate can lift an exclusion. In a chain of three statements, where the first excludes one name
-- alone and the second one that is more specific, the leaf meets the restrictions although the first name
-- covers it, as long as the second does not; without the constraints of the second statement the same
-- chain is refused. The subject of the first statement is not covered by the first name, nor that of
-- the second by the second.
pub exclusion_lifted :
    (wide narrow : String) (first second leaf : EntityStatement)
    → first.constraints ≡ some (excludes wide)
    → second.constraints ≡ some (excludes narrow)
    → more_specific narrow wide ≡ ok true
    → more_specific first.sub wide ≡ ok false
    → more_specific second.sub narrow ≡ ok false
    → more_specific leaf.sub wide ≡ ok true
    → more_specific leaf.sub narrow ≡ ok false
    → (meets_restrictions (first ∷ second ∷ leaf ∷ []) ≡ ok true)
      × (meets_restrictions (first ∷ record second { constraints = none } ∷ leaf ∷ []) ≡ ok false)
unfolding meets_restrictions check_superiors subject_allowed add_constraints add_constraint
    update_specs
exclusion_lifted wide narrow first second leaf a b p q r s t =
    (ground (arith, a, b, p, q, r, s, t), ground (arith, a, b, p, q, r, s, t))
