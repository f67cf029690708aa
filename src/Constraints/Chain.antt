-- ===== src/Constraints/Chain.antt =====
-- `meets_restrictions` over a whole chain.
use fedservice.Prelude.{
  ◌>>=◌, Bool-cases, inr, inl, Option-cases, String, ◌≡◌, Bool, true, false, List, [], ◌∷◌, arith,
  ok, >>=-eq-ok, Option, none, some, is_empty, if◌then◌else◌, get_last?, drop_last,
}
use fedservice.Prelude.Int.{ℤ, pos, ltb_ℤ}
use fedservice.Statement.{Constraints, EntityStatement}
use fedservice.Constraints.Narrowing.{Covered, covered→Covered, add_constraint_narrows}
use fedservice.Constraints.{
  index_error, require, add_constraint, add_constraints, update_naming_constraints,
  calculate_path_length, covered, Naming, subject_allowed, check_superiors, meets_restrictions,
}

-- What an allowed subject meets.
subject_allowed-Covered :
    (x : String) (naming : Naming)
    → subject_allowed x naming ≡ ok true
    → is_empty naming.permitted ≡ false
    → Covered x naming.permitted
unfolding subject_allowed
subject_allowed-Covered x naming h stated =
    let (out, e, rest) =
      >>=-eq-ok (if is_empty naming.excluded then ok false else covered x naming.excluded) _ h in
    covered→Covered x naming.permitted (ground arith)

Narrows : String → Naming → Naming → Type 0
Narrows x before after =
    is_empty before.permitted ≡ false
    → (is_empty after.permitted ≡ false) × (Covered x after.permitted → Covered x before.permitted)

update_naming_constraints-Narrows :
    (c : Constraints) (naming : Naming) (x : String) {updated : Naming}
    → update_naming_constraints c naming ≡ ok updated
    → Narrows x naming updated
unfolding update_naming_constraints Narrows
update_naming_constraints-Narrows c naming x {updated} h stated =
    elim (Option-cases c.naming_constraints) [
      | inl missing ↦ let same : naming ≡ updated = ground arith in rw (← same) (stated, λ s. s)
      | inr (new, e) ↦
          let (p, f, more) =
            >>=-eq-ok (add_constraint new.permitted naming.permitted) _
              (rw (e, update_naming_constraints, add_constraints) at h) in
          let (q, g, last) = >>=-eq-ok (add_constraint new.excluded naming.excluded) _ more in
          let same : p ≡ updated.permitted = ground arith in
          rw (← same) (add_constraint_narrows new.permitted naming.permitted x f stated)
    ]

check_superiors_narrow :
    (current : ℤ) (assigned : Bool) (naming : Naming) (chain : List EntityStatement) (x : String)
    {final : Naming}
    → check_superiors current assigned naming chain ≡ ok (some final)
    → Narrows x naming final
unfolding check_superiors Narrows
check_superiors_narrow current assigned naming [] x {final} h stated =
    let same : naming ≡ final = ground arith in rw (← same) (stated, λ s. s)
check_superiors_narrow current assigned naming (es ∷ chain) x {final} h stated =
    elim (Option-cases es.constraints) [
      | inl missing ↦
          check_superiors_narrow current assigned naming chain x
            (rw (missing, check_superiors) at h) stated
      | inr (c, e) ↦
          let length' = calculate_path_length c current assigned in
          elim (Bool-cases (ltb_ℤ length' (pos 0))) [
            | inl too_long ↦ ground arith
            | inr fits ↦
                let run = rw fits at (rw (e, check_superiors) at h) in
                let (updated, f, more) = >>=-eq-ok (update_naming_constraints c naming) _ run in
                let (allowed, g, rest) = >>=-eq-ok (subject_allowed es.sub updated) _ more in
                let (some_left, narrow) = update_naming_constraints-Narrows c naming x f stated in
                elim (Bool-cases allowed) [
                  | inl yes_allowed ↦
                      let (left, further) =
                        check_superiors_narrow length' assigned updated chain x
                          (rw yes_allowed at rest) some_left in
                      (left, λ s. narrow (further s))
                  | inr refused ↦ ground arith
                ]
          ]
    ]

-- The names that a statement's constraints permit, if any are listed.
abbrev pub permitted_by : EntityStatement → List String
permitted_by es = elim es.constraints [
  | none ↦ []
  | some c ↦ elim c.naming_constraints [
    | none ↦ []
    | some names ↦ elim names.permitted [ none ↦ [] | some list ↦ list ]
  ]
]

first_naming :
    (ta : EntityStatement) (c : Constraints) {updated : Naming}
    → ta.constraints ≡ some c
    → update_naming_constraints c (record { permitted = []; excluded = [] }) ≡ ok updated
    → updated.permitted ≡ permitted_by ta
unfolding update_naming_constraints
first_naming ta c e h = ground arith

-- The names that the first statement of a chain permits bind the last: in a chain that meets the
-- restrictions, of two statements at least, the subject of the last statement is covered by one of
-- the names that the Trust Anchor's statement permits, whatever the statements between them say.
pub meets_restrictions-permitted :
    (ta mid : EntityStatement) (chain : List EntityStatement) {leaf : EntityStatement}
    → is_empty (permitted_by ta) ≡ false
    → get_last? (mid ∷ chain) ≡ some leaf
    → meets_restrictions (ta ∷ mid ∷ chain) ≡ ok true
    → Covered leaf.sub (permitted_by ta)
unfolding meets_restrictions check_superiors Narrows
meets_restrictions-permitted ta mid chain {leaf} stated last h =
    let (checked, run, tail) =
      >>=-eq-ok
        (check_superiors (pos 0) false (record { permitted = []; excluded = [] })
          (ta ∷ drop_last (mid ∷ chain)))
        _ h in
    elim (Option-cases ta.constraints) [
      | inl missing ↦ ground arith
      | inr (c, e) ↦
          let length' = calculate_path_length c (pos 0) false in
          elim (Bool-cases (ltb_ℤ length' (pos 0))) [
            | inl too_long ↦ ground arith
            | inr fits ↦
                let inner = rw fits at (rw (e, check_superiors) at run) in
                let (updated, f, more) =
                  >>=-eq-ok (update_naming_constraints c (record { permitted = []; excluded = [] }))
                    _ inner in
                let (allowed, g, rest) = >>=-eq-ok (subject_allowed ta.sub updated) _ more in
                finish c updated length' allowed checked e f rest tail
          ]
    ]
  where
    finish :
        (c : Constraints) (updated : Naming) (length' : ℤ) (allowed : Bool)
        (checked : Option Naming)
        → ta.constraints ≡ some c
        → update_naming_constraints c (record { permitted = []; excluded = [] }) ≡ ok updated
        → (elim allowed [
          | true ↦ check_superiors length' false updated (drop_last (mid ∷ chain))
          | false ↦ ok none
        ])
          ≡ ok checked
        → (elim checked [
          | none ↦ ok false
          | some naming ↦ require (get_last? (ta ∷ mid ∷ chain)) index_error >>= λ l.
              subject_allowed l.sub naming
        ])
          ≡ ok true
        → Covered leaf.sub (permitted_by ta)
    finish c updated length' true (some final) e f rest tail =
        let same = first_naming ta c e f in
        let (left, narrow) =
          check_superiors_narrow length' false updated (drop_last (mid ∷ chain)) leaf.sub rest
            (rw same stated) in
        rw same at (narrow (subject_allowed-Covered leaf.sub final (rw last at tail) left))
    finish c updated length' true none e f rest tail = cc
    finish c updated length' false checked e f rest tail = ground arith
