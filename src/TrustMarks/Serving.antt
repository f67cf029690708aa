-- ===== src/TrustMarks/Serving.antt =====
-- The endpoints that issue and list trust marks, src/fedservice/trust_mark_entity/server/trust_mark.py and
-- src/fedservice/trust_mark_entity/server/trust_mark_list.py, and the issuer of self-signed trust marks in
-- src/fedservice/trust_mark_entity/entity.py.
use fedservice.Prelude.{
  String, Option, none, some, List, [], ◌∷◌, ◌++◌, if◌then◌else◌, ◌==◌, Result, ok, raised, ◌>>=◌,
  Stateful, ◌>>>◌, lift, value_error,
}
use fedservice.Prelude.Dict.{Dict, lookup}
use fedservice.Prelude.Int.{ℤ, pos}
use fedservice.Value.{Value}
use fedservice.TrustMarks.{create_trust_mark, TrustMarkEntity, Mark, find, list, new_mark}

-- `pack` is the signing by cryptojwt; the mark is in the database before it is signed.
abbrev pub sign :
    (Mark → Result String)
    → TrustMarkEntity
    → Result (TrustMarkEntity × Mark)
    → TrustMarkEntity × Result String
sign pack self (raised e) = (self, raised e)
sign pack self (ok (issuer, mark)) = (issuer, pack mark)

-- `TrustMark.process_request`: the signed trust mark that is the response
unfoldable pub process_issue :
    (Mark → Result String) → ℤ → String → String → Stateful TrustMarkEntity String
process_issue pack now trust_mark_id sub self =
    sign pack self (create_trust_mark now trust_mark_id sub self)

-- A request to list, and the answers to it; `foo` has the subject under the name that the source gives it.
pub record ListRequest : Type 0 where
  pub sub : Option String
  pub trust_mark_id : Option String

pub data ListAnswer : Type 0 where
  foo : String → ListAnswer
  listed : List String → ListAnswer
  not_found : ListAnswer

-- `TrustMarkEntity.list`
unfoldable pub list_marks : ℤ → String → String → TrustMarkEntity → Result (Option (List String))
list_marks now trust_mark_id sub self =
    if sub == ""
    then ok (some (list trust_mark_id "" self.issued))
    else (find now trust_mark_id sub (pos 0) self.issued >>= λ there.
        ok (if there then some (sub ∷ []) else none))

abbrev pub answer_list : Option (List String) → ListAnswer
answer_list none = not_found
answer_list (some []) = not_found
answer_list (some (sub ∷ subs)) = listed (sub ∷ subs)

abbrev pub confirm_mark : ℤ → String → String → TrustMarkEntity → Result ListAnswer
confirm_mark now trust_mark_id sub self =
    find now trust_mark_id sub (pos 0) self.issued >>= λ there.
    ok (if there then foo sub else not_found)

-- `TrustMarkList.process_request`
unfoldable pub process_list : ℤ → ListRequest → TrustMarkEntity → Result ListAnswer
unfolding list_marks
process_list now request self = elim request.trust_mark_id [
  | none ↦ ok not_found
  | some id ↦ elim request.sub [
    | some sub ↦ confirm_mark now id sub self
    | none ↦ list_marks now id "" self >>= λ found. ok (answer_list found)
  ]
]

-- `SelfSignedTrustMarkEntity`; `trust_marks` are those of the context of its entity.
pub record SelfSigned : Type 0 where
  pub entity_id : String
  pub trust_mark_specification : Dict (Dict Value)
  pub issued : List Mark
  pub trust_marks : List String

abbrev pub keep_mark : String → Stateful SelfSigned String
keep_mark token self = (record self { trust_marks = self.trust_marks ++ (token ∷ []) }, ok token)

abbrev pub sign_own : (Mark → Result String) → Mark → Stateful SelfSigned String
sign_own pack mark self =
    (lift (pack mark) >>> λ token. keep_mark token)
      (record self { issued = self.issued ++ (mark ∷ []) })

-- The call without further claims; the lifetime is thirty days.
unfoldable pub self_sign : (Mark → Result String) → ℤ → String → Stateful SelfSigned String
self_sign pack now id self = elim (lookup id self.trust_mark_specification) [
  | none ↦ (self, raised value_error)
  | some content ↦ sign_own pack (new_mark now id self.entity_id (some (pos 2592000)) content) self
]
