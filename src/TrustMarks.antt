-- ===== src/TrustMarks.antt =====
-- Trust marks: the two databases of src/fedservice/trust_mark_entity/__init__.py, the issuer of
-- src/fedservice/trust_mark_entity/entity.py and its endpoints under src/fedservice/trust_mark_entity/server/.
pub mod Issued
pub mod Simple
pub mod Serving
pub mod Answers
use fedservice.Prelude.{
  key_error, attribute_error, value_error, zero, ◌+◌, String, Bool, true, false, not, ◌&&◌, ◌||◌,
  Option, none, some, List, [], ◌∷◌, ◌++◌, reverse, if◌then◌else◌, ◌==◌, Result, ok, raised, ◌>>=◌,
  ◌>>◌, require,
}
use fedservice.Prelude.Dict.{Dict, lookup, has_key, insert, mem}
use fedservice.Prelude.Int.{ℤ, pos, ltb_ℤ, leb_ℤ, ◌+ℤ◌}
use fedservice.Value.{num, atom, Value}

-- The information on a trust mark, with the claims that the modelled code reads; `extra` are the others.
pub record Mark : Type 0 where
  pub id : String
  pub sub : String
  pub iat : ℤ
  pub exp : Option ℤ
  pub extra : Dict Value

-- `FileDB`: the lines of the file of each trust mark identifier, each read back as it was written.
abbrev pub FileDb : Type 0
FileDb = Dict (List Mark)

-- `FileDB.add`
unfoldable pub add_mark : Mark → FileDb → Result FileDb
add_mark tm_info db = require (lookup tm_info.id db) key_error >>= λ lines.
    ok (insert tm_info.id (lines ++ (tm_info ∷ [])) db)

-- `if iat`: the 0 that stands for no `iat` given.
abbrev same_time : ℤ → ℤ → Bool
same_time (pos zero) there = true
same_time iat there = leb_ℤ iat there && leb_ℤ there iat

-- `FileDB._match`
abbrev pub match_mark : String → ℤ → Mark → Bool
match_mark sub iat tmi = sub == tmi.sub && same_time iat tmi.iat

abbrev pub has_expired : ℤ → Mark → Bool
has_expired now tmi = elim tmi.exp [ none ↦ false | some exp ↦ ltb_ℤ exp now ]

-- The loop of `FileDB.find`, over the lines from the last on: the first that has expired ends it.
unfoldable pub find_in : ℤ → String → ℤ → List Mark → Bool
find_in now sub iat [] = false
find_in now sub iat (tmi ∷ lines) =
    let rest = find_in now sub iat lines in
    if has_expired now tmi then false else if match_mark sub iat tmi then true else rest

unfoldable pub find : ℤ → String → String → ℤ → FileDb → Result Bool
unfolding find_in
find now trust_mark_id sub iat db = require (lookup trust_mark_id db) key_error >>= λ lines.
    ok (find_in now sub iat (reverse lines))

-- The loop of `FileDB.list`: the subjects so far are `res`.
unfoldable pub list_in : String → List String → List Mark → List String
list_in sub res [] = res
list_in sub res (tmi ∷ lines) =
    list_in sub
      (if not (mem tmi.sub res) && (sub == "" || tmi.sub == sub)
        then res ++ (tmi.sub ∷ [])
        else res)
      lines

-- `FileDB.list`
unfoldable pub list : String → String → FileDb → List String
unfolding list_in
list trust_mark_id sub db = elim (lookup trust_mark_id db) [
  | none ↦ []
  | some lines ↦ list_in sub [] (reverse lines)
]

-- `SimpleDB`: for each identifier, the trust mark by subject.
abbrev pub SimpleDb : Type 0
SimpleDb = Dict (Dict Mark)

-- `SimpleDB.add`: a dictionary has no `append`.
unfoldable pub simple_add : Mark → SimpleDb → Result SimpleDb
simple_add tm_info db =
    if has_key tm_info.id db
    then raised attribute_error
    else ok (insert tm_info.id ((tm_info.sub, tm_info) ∷ []) db)

-- `SimpleDB.find`
unfoldable pub simple_find : String → String → ℤ → SimpleDb → Result Bool
simple_find trust_mark_id sub iat db = require (lookup trust_mark_id db) key_error >>= λ marks.
    ok (elim (lookup sub marks) [ none ↦ false | some tmi ↦ same_time iat tmi.iat ])

-- What `SimpleDB.list` returns: the subject asked for, the trust marks by subject, or `None`.
pub data Listed : Type 0 where
  only : String → Listed
  marks_of : Dict Mark → Listed
  nothing_listed : Listed

unfoldable pub simple_list : String → String → SimpleDb → Result Listed
simple_list trust_mark_id sub db =
    if sub == ""
    then ok (elim (lookup trust_mark_id db) [ none ↦ nothing_listed | some marks ↦ marks_of marks ])
    else (require (lookup trust_mark_id db) key_error >>= λ marks.
        ok (if has_key sub marks then only sub else nothing_listed))

-- `TrustMarkEntity`, configured with a `FileDB`; the database that it has by default is a `SimpleDB`.
pub record TrustMarkEntity : Type 0 where
  pub trust_mark_specification : Dict (Dict Value)
  pub tm_lifetime : Dict ℤ
  pub issued : FileDb

-- The `exp` that the specification itself has.
abbrev stated_exp : Dict Value → Option ℤ
stated_exp content = elim (lookup "exp" content) [ some (atom (num exp)) ↦ some exp | _ ↦ none ]

-- The information on a new trust mark; a lifetime of 0 is none, and without one the `exp` of the
-- specification stays.
abbrev pub new_mark : ℤ → String → String → Option ℤ → Dict Value → Mark
new_mark now id sub lifetime content = record {
  id = id;
  sub = sub;
  iat = now;
  exp = elim lifetime [
    | none ↦ stated_exp content
    | some (pos zero) ↦ stated_exp content
    | some n ↦ some (now +ℤ n)
  ];
  extra = content;
}

-- `create_trust_mark` without further claims, up to the signature: the entity, and the content
-- that is signed.
unfoldable pub create_trust_mark :
    ℤ → String → String → TrustMarkEntity → Result (TrustMarkEntity × Mark)
unfolding add_mark
create_trust_mark now id sub self =
    require (lookup id self.trust_mark_specification) value_error >>= λ content.
    (let mark = new_mark now id sub (lookup id self.tm_lifetime) content in
      add_mark mark self.issued >>= λ issued. ok (record self { issued = issued }, mark))

-- The request to the status endpoint, with the payload of its `trust_mark` verified.
pub record StatusRequest : Type 0 where
  pub trust_mark : Option Mark
  pub sub : Option String
  pub trust_mark_id : Option String
  pub id : Option String

abbrev asked_id : StatusRequest → String
asked_id request = elim request.trust_mark_id [
  | some id ↦ id
  | none ↦ elim request.id [ none ↦ "" | some id ↦ id ]
]

-- `TrustMarkStatus.process_request`: is the answer `active`, or the error `not_found`?
unfoldable pub status : ℤ → StatusRequest → TrustMarkEntity → Result Bool
unfolding find
status now request self = elim request.trust_mark [
  | some mark ↦ find now mark.id mark.sub (pos 0) self.issued
  | none ↦ elim request.sub [
    | none ↦ ok false
    | some sub ↦
        if asked_id request == ""
        then ok false
        else find now (asked_id request) sub (pos 0) self.issued
  ]
]
