-- ===== src/Value/Sets.antt =====
-- Python's `set`, and the operators `&`, `|`, `-` and `<=` that the policy code uses on it.
-- A set is a list with no two equal elements. Python leaves open the order in which `list(s)` gives
-- the elements of a set; here it is the order of first occurrence.
use text.Mathlib.Text.{find?}
use fedservice.Prelude.{
  is_empty, String, ◌≡◌, refl, ap, Bool, true, false, not, ◌&&◌, ◌||◌, none, some, List, [], ◌∷◌,
  map, arith, Result, ok, raised, type_error, ◌>>=◌, all, filter,
}
use fedservice.Prelude.Dict.{keys, has_key}
use fedservice.Value.Json.{
  truthy, Atom, str, Value, Items, nil, cons, atom, array, object, entries, elements, of_elements,
  atom_eq, atom_eq_symm, atom_eq_trans, value_eq,
}

-- `a in s`
unfoldable pub has : Atom → List Atom → Bool
has a [] = false
has a (b ∷ s) = atom_eq a b || has a s

unfoldable pub dedup : List Atom → List Atom
dedup [] = []
dedup (a ∷ xs) = a ∷ filter (λ b. not (atom_eq a b)) (dedup xs)

-- `s & t`
unfoldable pub intersection : List Atom → List Atom → List Atom
intersection s t = filter (λ a. has a t) s

-- `s - t`
unfoldable pub difference : List Atom → List Atom → List Atom
difference s t = filter (λ a. not (has a t)) s

-- `s | t`
unfoldable pub union : List Atom → List Atom → List Atom
unfolding difference
union [] t = t
union (a ∷ s) t = a ∷ union s (difference t (a ∷ []))

-- `s <= t`
unfoldable pub issubset : List Atom → List Atom → Bool
issubset s t = all (λ a. has a t) s

-- The elements of a list, if each can be in a set.
unfoldable pub atoms : Items → Result (List Atom)
atoms nil = ok []
atoms (cons (atom a) xs) = atoms xs >>= λ s. ok (a ∷ s)
atoms (cons v xs) = raised type_error

-- The characters of a text, as texts.
unfoldable pub characters : String → List Atom
characters String.[] = []
characters (String.◌∷◌ c s) = str (String.◌∷◌ c String.[]) ∷ characters s

-- `set(v)`: of a text the characters, of a dictionary the keys; a number is not iterable.
unfoldable pub to_set : Value → Result (List Atom)
unfolding characters
to_set (array xs) = atoms xs >>= λ s. ok (dedup s)
to_set (object fs) = ok (dedup (map str (keys (entries fs))))
to_set (atom (str s)) = ok (dedup (characters s))
to_set (atom a) = raised type_error

-- `{v}`
unfoldable pub singleton : Value → Result (List Atom)
singleton (atom a) = ok (a ∷ [])
singleton v = raised type_error

-- `list(s)`
unfoldable pub of_set : List Atom → Value
of_set s = array (of_elements (map atom s))

abbrev in_list : Value → List Value → Bool
in_list v [] = false
in_list v (w ∷ ws) = value_eq v w || in_list v ws

-- `v in w`
unfoldable pub contained_in : Value → Value → Result Bool
contained_in v (array xs) = ok (in_list v (elements xs))
contained_in (atom (str k)) (object fs) = ok (has_key k (entries fs))
contained_in (atom a) (object fs) = ok false
contained_in v (object fs) = raised type_error
contained_in (atom (str k)) (atom (str s)) = ok (elim (find? s k) [ none ↦ false | some i ↦ true ])
contained_in v (atom a) = raised type_error

-- Equal atoms are in the same sets.
pub has-eq : (a b : Atom) (s : List Atom) → atom_eq a b ≡ true → has a s ≡ has b s
unfolding has
has-eq a b [] h = refl
has-eq a b (c ∷ s) h =
    ground (arith, has-eq a b s h, atom_eq_symm a b, atom_eq_trans a b c, atom_eq_trans b a c)

-- Filtering by a test that equal atoms pass or fail together.
pub has-filter :
    (p : Atom → Bool) (a : Atom) (s : List Atom)
    → ((b : Atom) → atom_eq a b ≡ true → p a ≡ p b)
    → has a (filter p s) ≡ (has a s && p a)
unfolding has
has-filter p a [] h = refl
has-filter p a (b ∷ s) h = ground (arith, has-filter p a s h, h b)

pub has-intersection :
    (a : Atom) (s t : List Atom) → has a (intersection s t) ≡ (has a s && has a t)
unfolding intersection
has-intersection a s t = has-filter (λ b. has b t) a s (λ b h. has-eq a b t h)

pub has-difference :
    (a : Atom) (s t : List Atom) → has a (difference s t) ≡ (has a s && not (has a t))
unfolding difference
has-difference a s t = has-filter (λ b. not (has b t)) a s (λ b h. ground (arith, has-eq a b t h))

pub has-dedup : (a : Atom) (s : List Atom) → has a (dedup s) ≡ has a s
unfolding dedup has
has-dedup a [] = refl
has-dedup a (b ∷ s) = ground (
  arith,
  has-dedup a s,
  has-filter (λ c. not (atom_eq b c)) a (dedup s)
      (λ c h. ground (arith, atom_eq_trans b a c, atom_eq_trans b c a, atom_eq_symm a c)),
  atom_eq_symm a b,
)

pub has-union : (a : Atom) (s t : List Atom) → has a (union s t) ≡ (has a s || has a t)
unfolding union has
has-union a [] t = refl
has-union a (b ∷ s) t =
    ground (arith, has-union a s (difference t (b ∷ [])), has-difference a t (b ∷ []))

-- `issubset` as a statement on the elements.
pub issubset-has :
    (s t : List Atom) (a : Atom) → issubset s t ≡ true → has a s ≡ true → has a t ≡ true
unfolding issubset has
issubset-has [] t a h m = cc
issubset-has (b ∷ s) t a h m = ground (arith, issubset-has s t a, has-eq a b t)

pub has-nil : (a : Atom) → has a [] ≡ false
unfolding has
has-nil a = refl

-- An empty difference is inclusion.
pub has-of-empty-difference :
    (s t : List Atom) (a : Atom) → difference s t ≡ [] → has a s ≡ true → has a t ≡ true
has-of-empty-difference s t a e m = ground (arith, has-difference a s t, ap (has a) e, has-nil a)

-- A set survives `list` and `set`.
pub to_set-of_set : (s : List Atom) → to_set (of_set s) ≡ ok (dedup s)
unfolding to_set of_set of_elements atoms
to_set-of_set s = rw (atoms-of_set s)
  where
    atoms-of_set : (s : List Atom) → atoms (of_elements (map atom s)) ≡ ok s
    atoms-of_set [] = refl
    atoms-of_set (a ∷ s) = rw (atoms-of_set s)

pub truthy-of_set : (s : List Atom) → truthy (of_set s) ≡ not (is_empty s)
unfolding truthy of_set of_elements elements
truthy-of_set [] = refl
truthy-of_set (a ∷ s) = refl
