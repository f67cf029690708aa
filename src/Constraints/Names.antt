-- ===== src/Constraints/Names.antt =====
-- Comparing the names of entities: `remove_scheme` and `more_specific` of
-- src/fedservice/entity_statement/constraints.py. A text is walked as the list of its code points.
use Prim.Native.Char.{code}
use fedservice.Prelude.{
  ℕ, String, Bool, true, false, List, [], ◌∷◌, if◌then◌else◌, eqb, leb, length, reverse, Result, ok,
  raised, ◌>>=◌, value_error, is_empty, Option, none, some, ◌&&◌,
}

abbrev pub codes : String → List ℕ
codes String.[] = []
codes (String.◌∷◌ c s) = code c ∷ codes s

abbrev pub same_text : List ℕ → List ℕ → Bool
same_text [] [] = true
same_text (x ∷ xs) (y ∷ ys) = eqb x y && same_text xs ys
same_text _ _ = false

-- What follows the prefix, if the text starts with it.
unfoldable pub after_prefix : List ℕ → List ℕ → Option (List ℕ)
after_prefix [] url = some url
after_prefix (p ∷ prefix) [] = none
after_prefix (p ∷ prefix) (c ∷ url) =
    let rest = after_prefix prefix url in if eqb p c then rest else none

unfoldable pub remove_scheme : List ℕ → Result (List ℕ)
unfolding after_prefix
remove_scheme url = elim (after_prefix (codes "https://") url) [
  | some rest ↦ ok rest
  | none ↦ elim (after_prefix (codes "http://") url) [
    | some rest ↦ ok rest
    | none ↦ raised value_error
  ]
]

-- Puts a character in front of the first part.
abbrev pub onto_first : ℕ → List (List ℕ) → List (List ℕ)
onto_first c [] = (c ∷ []) ∷ []
onto_first c (part ∷ parts) = (c ∷ part) ∷ parts

-- `s.split('.')`: there is always at least one part.
unfoldable pub split_dots : List ℕ → List (List ℕ)
split_dots [] = [] ∷ []
split_dots (c ∷ s) =
    let parts = split_dots s in if eqb c b'.' then [] ∷ parts else onto_first c parts

-- The loop over `zip(a_part, b_part)`.
unfoldable pub parts_match : List (List ℕ) → List (List ℕ) → Bool
parts_match (x ∷ a) (y ∷ b) =
    let rest = parts_match a b in if same_text x y then rest else is_empty y
parts_match [] b = true
parts_match (x ∷ a) [] = true

unfoldable pub more_specific_parts : List (List ℕ) → List (List ℕ) → Bool
unfolding parts_match
more_specific_parts a_part b_part =
    if leb (length b_part) (length a_part)
    then parts_match (reverse a_part) (reverse b_part)
    else false

-- Both names are stripped of their scheme first, and either may raise.
unfoldable pub more_specific : String → String → Result Bool
unfolding remove_scheme split_dots more_specific_parts
more_specific a b = do
  a' ← remove_scheme (codes a)
  b' ← remove_scheme (codes b)
  ok (more_specific_parts (split_dots a') (split_dots b'))
