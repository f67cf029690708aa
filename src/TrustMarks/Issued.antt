-- ===== src/TrustMarks/Issued.antt =====
-- What a database of trust marks finds after an issue: src/fedservice/trust_mark_entity/__init__.py and
-- src/fedservice/trust_mark_entity/entity.py.
use fedservice.TrustMarks.{
  add_mark, has_expired, FileDb, TrustMarkEntity, find_in, status, find, Mark, create_trust_mark,
}
use mathlib.Core.List.{reverse-append}
use fedservice.Prelude.{
  ==_refl, String, ◌≡◌, inl, inr, true, false, not, none, some, List, [], ◌∷◌, ◌++◌, reverse, arith,
  Option-cases, ok,
}
use fedservice.Prelude.Dict.{lookup, insert, lookup-insert}
use fedservice.Prelude.Int.{ℤ, pos}

find-insert :
    (now : ℤ) (mark : Mark) (sub : String) (iat : ℤ) (db : FileDb) (lines : List Mark)
    → find now mark.id sub iat (insert mark.id (lines ++ (mark ∷ [])) db)
      ≡ ok (find_in now sub iat (mark ∷ reverse lines))
unfolding find
find-insert now mark sub iat db lines = cc (
  lookup-insert mark.id mark.id (lines ++ (mark ∷ [])) db,
  ==_refl mark.id,
  reverse-append lines (mark ∷ []),
)

-- What an addition leaves, as the database finds it.
pub find-add_mark :
    (now : ℤ) (mark : Mark) (sub : String) (iat : ℤ) (db : FileDb) {db' : FileDb}
    → add_mark mark db ≡ ok db'
    → (lines : List Mark) × (find now mark.id sub iat db' ≡ ok (find_in now sub iat (mark ∷ lines)))
unfolding add_mark
find-add_mark now mark sub iat db added = elim (Option-cases (lookup mark.id db)) [
  | inl none_such ↦ cc
  | inr (lines, here) ↦ (reverse lines, ground (arith, find-insert now mark sub iat db lines))
]

-- The mark that was added last decides: once it has expired, the database finds no mark of its
-- identifier, of whatever subject.
pub find-add_mark_expired :
    (now : ℤ) (mark : Mark) (sub : String) (iat : ℤ) (db : FileDb) {db' : FileDb}
    → add_mark mark db ≡ ok db'
    → has_expired now mark ≡ true
    → find now mark.id sub iat db' ≡ ok false
unfolding find_in
find-add_mark_expired now mark sub iat db added expired =
    let (lines, found) = find-add_mark now mark sub iat db added in ground (arith, found)

-- A created mark is added to the database.
pub created_is_added :
    (now : ℤ) (id sub : String) (self : TrustMarkEntity) {self' : TrustMarkEntity} {mark : Mark}
    → create_trust_mark now id sub self ≡ ok (self', mark)
    → add_mark mark self.issued ≡ ok self'.issued
unfolding create_trust_mark
created_is_added now id sub self created =
    elim (Option-cases (lookup id self.trust_mark_specification)) [
      | inl none_such ↦ cc
      | inr (content, known) ↦ ground arith
    ]

-- The trust mark just issued is active until it expires, by its identifier and its subject.
pub status-create_trust_mark :
    (now later : ℤ) (id sub : String) (self : TrustMarkEntity) {self' : TrustMarkEntity}
    {mark : Mark}
    → create_trust_mark now id sub self ≡ ok (self', mark)
    → status later
        (record { trust_mark = some mark; sub = none; trust_mark_id = none; id = none })
        self'
      ≡ ok (not (has_expired later mark))
unfolding create_trust_mark status find_in
status-create_trust_mark now later id sub self {mark = mark} created =
    let (lines, found) =
      find-add_mark later mark mark.sub (pos 0) self.issued
        (created_is_added now id sub self created) in
    ground (arith, found)
