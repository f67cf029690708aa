-- ===== src/Constraints/Narrowing.antt =====
-- Along a chain the lists of names only narrow: what a list covers at the end it covered before.
use fedservice.Prelude.{
  inr, inl, Bool-cases, string_dec, ◌⊎◌, String, ◌≡◌, ◌≢◌, refl, true, false, List, [], ◌∷◌, arith,
  ok, >>=-eq-ok, Option, none, some, is_empty,
}
use fedservice.Prelude.Dict.{mem, mem-append}
use fedservice.Constraints.Names.{more_specific}
use fedservice.Constraints.Order.{more_specific_trans}
use fedservice.Constraints.{replacements, update_specs, add_constraint, covered}

-- Some name of the list covers the subject.
abbrev pub Covered : String → List String → Type 0
Covered x names = (n : String) × (mem n names ≡ true) × (more_specific x n ≡ ok true)

pub covered→Covered :
    (x : String) (names : List String) → covered x names ≡ ok true → Covered x names
unfolding covered
covered→Covered x [] h = cc
covered→Covered x (name ∷ names) h =
    let (found, e, rest) = >>=-eq-ok (more_specific x name) _ h in
    elim (Bool-cases found) [
      | inl t ↦ (name, ground arith, ground arith)
      | inr f ↦ let (n, m, s) = covered→Covered x names (ground arith) in (n, ground arith, s)
    ]

-- A name of `replacements` is more specific than the old name.
mem-replacements :
    (old : String) (news : List String) (n : String) {better : List String}
    → replacements old news ≡ ok better
    → mem n better ≡ true
    → more_specific n old ≡ ok true
unfolding replacements
mem-replacements old [] n h m = cc
mem-replacements old (new ∷ news) n {better} h m =
    let (b, e, more) = >>=-eq-ok (more_specific new old) _ h in
    let (rest, f, last) = >>=-eq-ok (replacements old news) _ more in
    elim (string_dec n new) [
      | yes same ↦ elim (Bool-cases b) [
        | inl t ↦ rw same (ground arith)
        | inr no_better ↦ mem-replacements old news n f (ground arith)
      ]
      | no differ ↦ mem-replacements old news n f (ground arith)
    ]

-- Each name of the updated list is an old one, or is more specific than an old one.
pub mem-update_specs :
    (news olds : List String) (n : String) {updated : List String}
    → update_specs news olds ≡ ok updated
    → mem n updated ≡ true
    → (mem n olds ≡ true) ⊎ ((o : String) × (mem o olds ≡ true) × (more_specific n o ≡ ok true))
unfolding update_specs
mem-update_specs news [] n h m = cc
mem-update_specs news (old ∷ olds) n {updated} h m =
    let (better, e, more) = >>=-eq-ok (replacements old news) _ h in
    let (rest, f, last) = >>=-eq-ok (update_specs news olds) _ more in
    elim (Bool-cases (mem n rest)) [
      | inl later ↦ elim (mem-update_specs news olds n f later) [
        | inl kept ↦ inl (ground arith)
        | inr (o, m', s) ↦ inr (o, ground arith, s)
      ]
      | inr here ↦ elim (Bool-cases (is_empty better)) [
        | inl none_better ↦ inl (ground (arith, mem-append n (old ∷ []) rest))
        | inr some_better ↦ inr (
          old,
          ground arith,
          mem-replacements old news n e (ground (arith, mem-append n better rest)),
        )
      ]
    ]

-- Updating a list of names by another narrows it: whatever subject the updated list covers, the old
-- list covered too. This holds of the permitted and of the excluded names alike.
pub update_specs_narrows :
    (news olds : List String) (x : String) {updated : List String}
    → update_specs news olds ≡ ok updated
    → Covered x updated
    → Covered x olds
update_specs_narrows news olds x h (n, m, s) = elim (mem-update_specs news olds n h m) [
  | inl kept ↦ (n, kept, s)
  | inr (o, m', t) ↦ (o, m', more_specific_trans x n o s t)
]

-- The updated list is not empty unless the old one was.
update_specs-nonempty :
    (news : List String) (old : String) (olds : List String)
    → update_specs news (old ∷ olds) ≢ ok []
unfolding update_specs
update_specs-nonempty news old olds h =
    let (better, e, more) = >>=-eq-ok (replacements old news) _ h in
    let (rest, f, last) = >>=-eq-ok (update_specs news olds) _ more in
    elim (Bool-cases (is_empty better)) [
      | inl none_better ↦ ground arith
      | inr some_better ↦ ground arith
    ]

pub add_constraint_narrows :
    (new : Option (List String)) (old : List String) (x : String) {updated : List String}
    → add_constraint new old ≡ ok updated
    → is_empty old ≡ false
    → (is_empty updated ≡ false) × (Covered x updated → Covered x old)
unfolding add_constraint
add_constraint_narrows new [] x h stated = cc
add_constraint_narrows none (old ∷ olds) x h stated = cc
add_constraint_narrows (some names) (old ∷ olds) x {updated} h stated =
    elim (Bool-cases (is_empty names)) [
      | inl empty ↦ let same : (old ∷ olds) ≡ updated = ground arith in rw (← same) (refl, λ c. c)
      | inr new ↦
          let run = rw new at h in
          (nonempty updated run, update_specs_narrows names (old ∷ olds) x run)
    ]
  where
    nonempty : (u : List String) → update_specs names (old ∷ olds) ≡ ok u → is_empty u ≡ false
    nonempty [] e = absurd (update_specs-nonempty names old olds e)
    nonempty (y ∷ u) e = refl
