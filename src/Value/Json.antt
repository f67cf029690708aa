-- ===== src/Value/Json.antt =====
-- JSON values (no floats), and Python's `==` and truth on them. `True == 1` and `False == 0` hold,
-- and two dictionaries are equal whatever the order of their keys.
use native.Mathlib.Decide.{ℕ_discrete}
use fedservice.Prelude.{
  ℕ, suc, String, ◌≡◌, ite, Bool, true, false, not, ◌&&◌, Option, none, some, List, [], ◌∷◌, arith,
  eqb, ◌==◌, string_dec, if◌then◌else◌, is_empty,
}
use fedservice.Prelude.Int.{ℤ, pos, negsuc}
use fedservice.Prelude.Dict.{Dict}

-- What a set can hold.
pub data Atom : Type 0 where
  null : Atom
  bool : Bool → Atom
  num : ℤ → Atom
  str : String → Atom

mutual
  pub data Value : Type 0 where
    atom : Atom → Value
    array : Items → Value
    object : Fields → Value

  pub data Fields : Type 0 where
    field : String → Value → Fields → Fields
    end : Fields

  pub data Items : Type 0 where
    cons : Value → Items → Items
    nil : Items

abbrev pub text : String → Value
text s = atom (str s)

unfoldable pub entries : Fields → Dict Value
entries end = []
entries (field k v fs) = (k, v) ∷ entries fs

unfoldable pub of_entries : Dict Value → Fields
of_entries [] = end
of_entries ((k, v) ∷ d) = field k v (of_entries d)

unfoldable pub elements : Items → List Value
elements nil = []
elements (cons v xs) = v ∷ elements xs

unfoldable pub of_elements : List Value → Items
of_elements [] = nil
of_elements (v ∷ xs) = cons v (of_elements xs)

-- A Boolean is the integer 1 or 0.
unfoldable pub norm : Atom → Atom
norm (bool true) = num (pos 1)
norm (bool false) = num (pos 0)
norm a = a

unfoldable pub Atom-discrete : Discrete Atom
Atom-discrete = hlevel (ℕ_discrete, string_dec)

-- `==` on atoms.
unfoldable pub atom_eq : Atom → Atom → Bool
atom_eq a b = ite (Atom-discrete (norm a) (norm b)) true false

count_fields : Fields → ℕ
count_fields end = 0
count_fields (field k v fs) = suc (count_fields fs)

find_field : String → Fields → Option Value
find_field k end = none
find_field k (field j v fs) = if k == j then some v else find_field k fs

-- `==` on values.
unfoldable mutual
  unfolding count_fields find_field

  pub value_eq : Value → Value → Bool
  value_eq (atom a) (atom b) = atom_eq a b
  value_eq (array xs) (array ys) = items_eq xs ys
  value_eq (object fs) (object gs) = eqb (count_fields fs) (count_fields gs) && fields_in fs gs
  value_eq _ _ = false

  pub items_eq : Items → Items → Bool
  items_eq nil nil = true
  items_eq (cons v xs) (cons w ys) = value_eq v w && items_eq xs ys
  items_eq _ _ = false

  pub fields_in : Fields → Fields → Bool
  fields_in end gs = true
  fields_in (field k v fs) gs =
      (elim (find_field k gs) [ none ↦ false | some w ↦ value_eq v w ]) && fields_in fs gs

-- `bool(v)`
unfoldable pub truthy : Value → Bool
truthy (atom null) = false
truthy (atom (bool b)) = b
truthy (atom (num (pos n))) = not (eqb n 0)
truthy (atom (num (negsuc n))) = true
truthy (atom (str s)) = not (s == "")
truthy (array xs) = not (is_empty (elements xs))
truthy (object fs) = not (is_empty (entries fs))

-- `isinstance(v, list)`
abbrev pub is_list : Value → Bool
is_list (array xs) = true
is_list _ = false

pub atom_eq_refl : (a : Atom) → atom_eq a a ≡ true
unfolding atom_eq
atom_eq_refl a = ground arith

pub atom_eq_symm : (a b : Atom) → atom_eq a b ≡ atom_eq b a
unfolding atom_eq
atom_eq_symm a b = ground arith

pub atom_eq_trans : (a b c : Atom) → atom_eq a b ≡ true → atom_eq b c ≡ true → atom_eq a c ≡ true
unfolding atom_eq
atom_eq_trans a b c p q = ground arith

-- Two integers, or two texts, are equal in Python exactly when they are the same.
pub atom_eq-str : (s t : String) → atom_eq (str s) (str t) ≡ true → s ≡ t
unfolding atom_eq norm
atom_eq-str s t h = ground arith
