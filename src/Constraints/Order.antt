-- ===== src/Constraints/Order.antt =====
-- `more_specific` is a preorder on the names that have a scheme.
use fedservice.Prelude.{
  is_empty, ℕ, String, ◌≡◌, refl, true, List, [], ◌∷◌, arith, length, length-append, ◌≤◌, reverse,
  ok, >>=-eq-ok,
}
use mathlib.Core.List.{reverse-cons}
use fedservice.Constraints.Names.{
  codes, same_text, remove_scheme, split_dots, parts_match, more_specific_parts, more_specific,
}

same_text→eq : (x y : List ℕ) → same_text x y ≡ true → x ≡ y
same_text→eq [] [] h = refl
same_text→eq [] (d ∷ y) h = cc
same_text→eq (c ∷ x) [] h = cc
same_text→eq (c ∷ x) (d ∷ y) h = ground (arith, same_text→eq x y)

same_text_refl : (x : List ℕ) → same_text x x ≡ true
same_text_refl [] = refl
same_text_refl (c ∷ x) = ground (arith, same_text_refl x)

length-reverse {ℓ} : {A : Type ℓ} (xs : List A) → length (reverse xs) ≡ length xs
length-reverse [] = refl
length-reverse (x ∷ xs) =
    rw (reverse-cons x xs) (omega (arith, length-append (reverse xs) (x ∷ []), length-reverse xs))

parts_match_refl : (a : List (List ℕ)) → parts_match a a ≡ true
unfolding parts_match
parts_match_refl [] = refl
parts_match_refl (x ∷ a) = ground (arith, same_text_refl x, parts_match_refl a)

parts_match_trans :
    (a b c : List (List ℕ))
    → length c ≤ length b
    → length b ≤ length a
    → parts_match a b ≡ true
    → parts_match b c ≡ true
    → parts_match a c ≡ true
unfolding parts_match
parts_match_trans [] b c h k p q = refl
parts_match_trans (x ∷ a) b [] h k p q = refl
parts_match_trans (x ∷ a) [] (z ∷ c) h k p q = absurd (omega arith)
parts_match_trans (x ∷ a) (y ∷ b) (z ∷ c) h k p q = ground (
  arith,
  parts_match_trans a b c (omega arith) (omega arith),
  same_text→eq x y,
  same_text→eq y z,
  same_text→eq x z,
  same_text_refl x,
  same_text_refl y,
  is_empty-same_text y z,
)
  where
    is_empty-same_text :
        (y z : List ℕ) → is_empty y ≡ true → is_empty z ≡ true → same_text y z ≡ true
    is_empty-same_text [] [] h k = refl
    is_empty-same_text (c ∷ y) z h k = cc
    is_empty-same_text [] (c ∷ z) h k = cc

more_specific_parts_trans :
    (a b c : List (List ℕ))
    → more_specific_parts a b ≡ true
    → more_specific_parts b c ≡ true
    → more_specific_parts a c ≡ true
unfolding more_specific_parts
more_specific_parts_trans a b c p q = ground (
  arith,
  length-reverse a,
  length-reverse b,
  length-reverse c,
  parts_match_trans (reverse a) (reverse b) (reverse c),
)

-- A name that is more specific than a second, which is more specific than a third, is more specific
-- than the third.
pub more_specific_trans :
    (a b c : String)
    → more_specific a b ≡ ok true
    → more_specific b c ≡ ok true
    → more_specific a c ≡ ok true
unfolding more_specific
more_specific_trans a b c p q =
    let (x, ex, more) = >>=-eq-ok (remove_scheme (codes a)) _ p in
    let (y, ey, same) = >>=-eq-ok (remove_scheme (codes b)) _ more in
    let (y', ey', further) = >>=-eq-ok (remove_scheme (codes b)) _ q in
    let (z, ez, last) = >>=-eq-ok (remove_scheme (codes c)) _ further in
    ground (arith, more_specific_parts_trans (split_dots x) (split_dots y) (split_dots z))

-- A name with a scheme is more specific than itself.
pub more_specific_refl :
    (a : String) {rest : List ℕ} → remove_scheme (codes a) ≡ ok rest → more_specific a a ≡ ok true
unfolding more_specific more_specific_parts
more_specific_refl a {rest} h = ground (arith, parts_match_refl (reverse (split_dots rest)))
