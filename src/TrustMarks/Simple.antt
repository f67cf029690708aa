-- ===== src/TrustMarks/Simple.antt =====
-- The second trust mark of an identifier in `SimpleDB` of src/fedservice/trust_mark_entity/__init__.py.
use fedservice.TrustMarks.{SimpleDb, Mark, simple_add}
use fedservice.Prelude.{==_refl, ◌≡◌, [], ◌∷◌, arith, raised, ◌>>=◌, attribute_error}
use fedservice.Prelude.Dict.{has_key-insert}

-- After one trust mark of an identifier was added to a `SimpleDB`, adding another one of the same
-- identifier raises an AttributeError, whatever the subject.
pub simple_add_twice :
    (first second : Mark) (db : SimpleDb)
    → first.id ≡ second.id
    → (simple_add first db >>= λ added. simple_add second added) ≡ raised attribute_error
unfolding simple_add
simple_add_twice first second db same =
    ground (
      arith,
      same,
      has_key-insert second.id first.id ((first.sub, first) ∷ []) db,
      ==_refl second.id,
    )
