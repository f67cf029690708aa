-- ===== src/TrustMarks/Answers.antt =====
-- What the endpoints under src/fedservice/trust_mark_entity/server/ say of a trust mark that was issued.
use fedservice.Prelude.{
  String, ◌≡◌, refl, sym, ap, ◌∙◌, inl, inr, Bool, true, false, not, ◌&&◌, ◌||◌, none, some, List,
  [], ◌∷◌, ◌++◌, reverse, arith, if◌then◌else◌, string_dec, ◌==◌, Option-cases, Result, ok, raised,
  ◌>>=◌, require, >>=-eq-ok, raised_value, ==_refl, value_error,
}
use fedservice.Prelude.Dict.{lookup, insert, mem, lookup-insert, mem-append}
use fedservice.Prelude.Int.{ℤ, pos}
use fedservice.TrustMarks.{
  new_mark, FileDb, create_trust_mark, TrustMarkEntity, Mark, find, list, list_in, has_expired,
  add_mark, status,
}
use mathlib.Core.List.{reverse-append}
use fedservice.TrustMarks.Serving.{
  process_issue, process_list, foo, listed, not_found, list_marks, sign, answer_list,
}
use fedservice.TrustMarks.Issued.{created_is_added, status-create_trust_mark}

kept_if :
    (b : Bool) (x y : String) (res : List String)
    → mem x res ≡ true
    → mem x (if b then res ++ (y ∷ []) else res) ≡ true
kept_if true x y res here = ground (arith, here, mem-append x res (y ∷ []))
kept_if false x y res here = here

-- The subjects that are listed stay listed.
list_in-keeps :
    (x sub : String) (lines : List Mark) (res : List String)
    → mem x res ≡ true
    → mem x (list_in sub res lines) ≡ true
unfolding list_in
list_in-keeps x sub [] res here = here
list_in-keeps x sub (tmi ∷ lines) res here =
    list_in-keeps x sub lines
      (if not (mem tmi.sub res) && (sub == "" || tmi.sub == sub)
        then res ++ (tmi.sub ∷ [])
        else res)
      (kept_if (not (mem tmi.sub res) && (sub == "" || tmi.sub == sub)) x tmi.sub res here)

first_listed :
    (mark : Mark) (lines : List Mark) → mem mark.sub (list_in "" [] (mark ∷ lines)) ≡ true
unfolding list_in string_dec
first_listed mark lines =
    list_in-keeps mark.sub "" lines (mark.sub ∷ []) (ap (λ b. b || false) (==_refl mark.sub))

list-insert :
    (mark : Mark) (db : FileDb) (lines : List Mark)
    → list mark.id "" (insert mark.id (lines ++ (mark ∷ [])) db)
      ≡ list_in "" [] (mark ∷ reverse lines)
unfolding list
list-insert mark db lines = cc (
  lookup-insert mark.id mark.id (lines ++ (mark ∷ [])) db,
  ==_refl mark.id,
  reverse-append lines (mark ∷ []),
)

-- The mark that was added last is listed.
list-add_mark :
    (mark : Mark) (db : FileDb) {db' : FileDb}
    → add_mark mark db ≡ ok db'
    → mem mark.sub (list mark.id "" db') ≡ true
unfolding add_mark
list-add_mark mark db {db' = db'} added = elim (Option-cases (lookup mark.id db)) [
  | inl none_such ↦ cc
  | inr (lines, here) ↦
      let same : db' ≡ insert mark.id (lines ++ (mark ∷ [])) db = ground (arith, here, added) in
      ap (λ d. mem mark.sub (list mark.id "" d)) same
      ∙ (ap (λ subs. mem mark.sub subs) (list-insert mark db lines)
          ∙ first_listed mark (reverse lines))
]

answered :
    (sub : String) (subs : List String)
    → mem sub subs ≡ true
    → answer_list (some subs) ≡ listed subs
answered sub [] within = cc
answered sub (first ∷ subs) within = refl

told :
    (r : Result Bool) (expired : Bool) (sub : String)
    → r ≡ ok (not expired)
    → (r >>= λ there. ok (if there then foo sub else not_found))
      ≡ ok (if expired then not_found else foo sub)
told r true sub same = ap (λ r. r >>= λ there. ok (if there then foo sub else not_found)) same
told r false sub same = ap (λ r. r >>= λ there. ok (if there then foo sub else not_found)) same

-- What the three endpoints say of a mark that is in the database last
abbrev pub Confirmed : ℤ → Mark → TrustMarkEntity → Type 0
Confirmed later mark self =
    (status later (record { trust_mark = some mark; sub = none; trust_mark_id = none; id = none })
        self
      ≡ ok (not (has_expired later mark)))
    × (process_list later (record { sub = some mark.sub; trust_mark_id = some mark.id }) self
        ≡ ok (if has_expired later mark then not_found else foo mark.sub))
    × (subs : List String) × (process_list later
          (record { sub = none; trust_mark_id = some mark.id }) self
        ≡ ok (listed subs))
    × (mem mark.sub subs ≡ true)

confirmed :
    (now later : ℤ) (id sub : String) (self : TrustMarkEntity) {self' : TrustMarkEntity}
    {mark : Mark}
    → create_trust_mark now id sub self ≡ ok (self', mark)
    → Confirmed later mark self'
unfolding process_list list_marks status string_dec
confirmed now later id sub self {self' = self'} {mark = mark} created =
    let added = created_is_added now id sub self created in
    let within = list-add_mark mark self.issued added in
    let active = status-create_trust_mark now later id sub self created in
    (
      active,
      told (find later mark.id mark.sub (pos 0) self'.issued) (has_expired later mark) mark.sub
          active,
      list mark.id "" self'.issued,
      ap (λ a. ok a) (answered mark.sub (list mark.id "" self'.issued) within),
      within,
    )

same_mark :
    {a b : TrustMarkEntity} {x y : Mark}
    → ◌≡◌ {A = Result (TrustMarkEntity × Mark)} (ok (a, x)) (ok (b, y))
    → x ≡ y
same_mark same = cc

-- A created mark has the identifier and the subject that were asked for.
names_it :
    (now : ℤ) (id sub : String) (self : TrustMarkEntity) {self' : TrustMarkEntity} {mark : Mark}
    → create_trust_mark now id sub self ≡ ok (self', mark)
    → (mark.id ≡ id) × (mark.sub ≡ sub)
unfolding create_trust_mark
names_it now id sub self created =
    let (content, known, rest) =
      >>=-eq-ok (require (lookup id self.trust_mark_specification) value_error)
        (λ content.
          add_mark (new_mark now id sub (lookup id self.tm_lifetime) content) self.issued
          >>= λ issued. ok (
            record self { issued = issued },
            new_mark now id sub (lookup id self.tm_lifetime) content,
          ))
        created in
    let (issued, added, done) =
      >>=-eq-ok (add_mark (new_mark now id sub (lookup id self.tm_lifetime) content) self.issued)
        (λ issued. ok (
          record self { issued = issued },
          new_mark now id sub (lookup id self.tm_lifetime) content,
        ))
        rest in
    let same = sym (same_mark done) in (ap (λ m. m.id) same, ap (λ m. m.sub) same)

signed :
    (pack : Mark → Result String) (now later : ℤ) (id sub : String) (self : TrustMarkEntity)
    (token : String) (created : Result (TrustMarkEntity × Mark))
    → create_trust_mark now id sub self ≡ created
    → (sign pack self created).1 ≡ ok token
    → (mark : Mark) × (pack mark ≡ ok token)
      × (mark.id ≡ id)
      × (mark.sub ≡ sub)
      × Confirmed later mark (sign pack self created).0
signed pack now later id sub self token (raised e) same run = raised_value run
signed pack now later id sub self token (ok (self', mark)) same run =
    let (is_id, is_sub) = names_it now id sub self same in
    (mark, run, is_id, is_sub, confirmed now later id sub self same)

-- For an issuer with a `FileDB`: the trust mark that the issuing endpoint has just signed has the
-- identifier and the subject of the request, and the other endpoints agree on it at any later time: the
-- status endpoint says that it is active, and the list endpoint confirms it for its identifier and
-- subject, exactly until it expires; and the list endpoint names its subject among those of the
-- identifier, expired or not.
pub process_issue-Confirmed :
    (pack : Mark → Result String) (now later : ℤ) (id sub : String) (self : TrustMarkEntity)
    (token : String)
    → (process_issue pack now id sub self).1 ≡ ok token
    → (mark : Mark) × (pack mark ≡ ok token)
      × (mark.id ≡ id)
      × (mark.sub ≡ sub)
      × Confirmed later mark (process_issue pack now id sub self).0
unfolding process_issue
process_issue-Confirmed pack now later id sub self token run =
    signed pack now later id sub self token (create_trust_mark now id sub self) refl run
