-- ===== src/Constraints/PathLength.antt =====
-- What `max_path_length` does in `meets_restrictions`.
use fedservice.Prelude.{
  sym, ◌>>=◌, >>=_ext, inr, inl, Option-cases, ◌≡◌, refl, Bool, true, false, List, [], ◌∷◌, arith,
  ok, Option, none, some, get_last?, drop_last, Result, ap,
}
use fedservice.Prelude.Int.{ℤ, pos, ltb_ℤ, ◌≤ℤ◌}
use fedservice.Statement.{Constraints, EntityStatement}
use fedservice.Constraints.{
  index_error, subject_allowed, update_naming_constraints, require, Naming, check_superiors,
  meets_restrictions, calculate_path_length,
}

abbrev pub without_length : Constraints → Constraints
without_length c = record c { max_path_length = none }

-- The statement with `max_path_length` taken out of its constraints.
abbrev pub without_path : EntityStatement → EntityStatement
without_path es = record es {
  constraints = elim es.constraints [ none ↦ none | some c ↦ some (without_length c) ];
}

abbrev pub without_paths : List EntityStatement → List EntityStatement
without_paths [] = []
without_paths (es ∷ chain) = without_path es ∷ without_paths chain

abbrev NonnegLength : Option ℤ → Type 0
NonnegLength none = Unit
NonnegLength (some n) = pos 0 ≤ℤ n

abbrev NonnegPath : Option Constraints → Type 0
NonnegPath none = Unit
NonnegPath (some c) = NonnegLength c.max_path_length

-- No statement of the chain has a negative `max_path_length`.
abbrev pub NonnegPaths : List EntityStatement → Type 0
NonnegPaths [] = Unit
NonnegPaths (es ∷ chain) = NonnegPath es.constraints × NonnegPaths chain

length_fits :
    (c : Constraints) (current : ℤ)
    → NonnegLength c.max_path_length
    → ltb_ℤ (calculate_path_length c current false) (pos 0) ≡ false
unfolding calculate_path_length
length_fits c current h = elim (Option-cases c.max_path_length) [
  | inl missing ↦ rw missing
  | inr (n, e) ↦ rw e (nonneg n (rw e at h))
]
  where
    nonneg : (n : ℤ) → pos 0 ≤ℤ n → ltb_ℤ n (pos 0) ≡ false
    nonneg n h = ground arith

-- The naming constraints are read from the rest of the constraints.
naming-without_length :
    (c : Constraints) (naming : Naming)
    → update_naming_constraints (without_length c) naming ≡ update_naming_constraints c naming
unfolding update_naming_constraints
naming-without_length c naming = refl

check_superiors-without_paths :
    (current other : ℤ) (naming : Naming) (chain : List EntityStatement)
    → NonnegPaths chain
    → check_superiors current false naming chain
      ≡ check_superiors other false naming (without_paths chain)
unfolding check_superiors
check_superiors-without_paths current other naming [] h = refl
check_superiors-without_paths current other naming (es ∷ chain) h =
    elim (Option-cases es.constraints) [
      | inl missing ↦
          rw (missing, check_superiors)
            (check_superiors-without_paths current other naming chain h.1)
      | inr (c, e) ↦
          let here : NonnegPath (some c) = rw e at h.0 in
          let fits = length_fits c current here in
          let fits_too = length_fits (without_length c) other tt in
          rw (e, check_superiors)
            (rw (fits, fits_too)
              (rw (naming-without_length c naming) (
                >>=_ext (update_naming_constraints c naming) _ _ (λ updated.
                  >>=_ext (subject_allowed es.sub updated) _ _ (λ allowed.
                    onward c updated allowed (
                      check_superiors-without_paths (calculate_path_length c current false)
                        (calculate_path_length (without_length c) other false) updated chain
                        h.1))))))
    ]
  where
    onward :
        (c : Constraints) (updated : Naming) (allowed : Bool)
        → check_superiors (calculate_path_length c current false) false updated chain
          ≡ check_superiors
              (calculate_path_length (without_length c) other false)
              false
              updated
              (without_paths chain)
        → ◌≡◌ {A = Result (Option Naming)}
            (elim allowed [
              | true ↦ check_superiors (calculate_path_length c current false) false updated chain
              | false ↦ ok none
            ])
            (elim allowed [
              | true ↦
                  check_superiors
                    (calculate_path_length (without_length c) other false)
                    false
                    updated
                    (without_paths chain)
              | false ↦ ok none
            ])
    onward c updated true ih = ih
    onward c updated false ih = refl

drop_last-without_paths :
    (chain : List EntityStatement)
    → drop_last (without_paths chain) ≡ without_paths (drop_last chain)
drop_last-without_paths [] = refl
drop_last-without_paths (a ∷ []) = refl
drop_last-without_paths (a ∷ b ∷ chain) =
    ap (λ t. without_path a ∷ t) (drop_last-without_paths (b ∷ chain))

NonnegPaths-drop_last :
    (chain : List EntityStatement) → NonnegPaths chain → NonnegPaths (drop_last chain)
NonnegPaths-drop_last [] h = tt
NonnegPaths-drop_last (a ∷ []) h = tt
NonnegPaths-drop_last (a ∷ b ∷ chain) h = (h.0, NonnegPaths-drop_last (b ∷ chain) h.1)

-- The test on the last statement sees only its subject.
last_test :
    (naming : Naming) (chain : List EntityStatement)
    → (require (get_last? (without_paths chain)) index_error >>= λ leaf.
        subject_allowed leaf.sub naming)
      ≡ (require (get_last? chain) index_error >>= λ leaf. subject_allowed leaf.sub naming)
last_test naming [] = refl
last_test naming (a ∷ []) = refl
last_test naming (a ∷ b ∷ chain) = last_test naming (b ∷ chain)

-- A `max_path_length` that is not negative has no effect: a chain of any length meets the
-- restrictions exactly when the same chain without any `max_path_length` does, and raises exactly
-- what that raises.
pub meets_restrictions-without_paths :
    (chain : List EntityStatement)
    → NonnegPaths chain
    → meets_restrictions chain ≡ meets_restrictions (without_paths chain)
unfolding meets_restrictions
meets_restrictions-without_paths chain h = rw (drop_last-without_paths chain) (
    rw
      (← check_superiors-without_paths (pos 0) (pos 0) (record { permitted = []; excluded = [] })
        (drop_last chain) (NonnegPaths-drop_last chain h))
      (>>=_ext
        (check_superiors (pos 0) false (record { permitted = []; excluded = [] }) (drop_last chain))
        _ _ leaf))
  where
    leaf :
        (checked : Option Naming)
        → ◌≡◌ {A = Result Bool}
            (elim checked [
              | none ↦ ok false
              | some naming ↦
                  require (get_last? chain) index_error >>= λ l. subject_allowed l.sub naming
            ])
            (elim checked [
              | none ↦ ok false
              | some naming ↦ require (get_last? (without_paths chain)) index_error >>= λ l.
                  subject_allowed l.sub naming
            ])
    leaf none = refl
    leaf (some naming) = sym (last_test naming chain)
