-- ===== src/Endpoints/Listing.antt =====
-- The list endpoint: `List` of src/fedservice/entity/server/list.py.
use fedservice.Collect.Web.{get_entity_configuration, Web}
use fedservice.Verifier.{KeyJar}
use fedservice.Prelude.{
  String, Bool, true, false, not, ◌&&◌, ◌||◌, Option, none, some, List, [], ◌∷◌, ◌++◌, map,
  if◌then◌else◌, ◌==◌, Result, ok, raised, ◌>>=◌, ◌>>◌, guard, require, is_empty, all, key_error,
  type_error,
}
use fedservice.Prelude.Dict.{Dict, lookup, has_key, insert, keys, mem}
use fedservice.Value.{
  str, atom, entries, object, elements, contained, subscript, array, Value, truthy, text, value_eq,
}

-- A request as it comes, a dictionary of texts.
abbrev pub Request : Type 0
Request = Dict String

-- What is known of a subordinate from its registration, or from its entity configuration.
abbrev pub Conf : Type 0
Conf = Dict Value

-- `if val:` for an argument that may be missing
abbrev pub asked : String → Request → Option String
asked key request = elim (lookup key request) [
  | none ↦ none
  | some val ↦ if val == "" then none else some val
]

-- What a loop over `trust_marks` goes through; `None` raises a `TypeError`. A text gives its characters,
-- which have no `id`, as the text itself has none.
abbrev pub iterate : Option Value → Result (List Value)
iterate none = raised type_error
iterate (some (array xs)) = ok (elements xs)
iterate (some (object fs)) = ok (map text (keys (entries fs)))
iterate (some (atom (str s))) = ok (if s == "" then [] else text s ∷ [])
iterate (some (atom a)) = raised type_error

-- Is a trust mark of the identifier among them?
unfoldable pub has_mark : String → List Value → Result Bool
has_mark trust_mark_id [] = ok false
has_mark trust_mark_id (trust_mark ∷ trust_marks) = subscript "id" trust_mark >>= λ id.
    has_mark trust_mark_id trust_marks >>= λ rest. ok (value_eq id (text trust_mark_id) || rest)

-- The body of the loop of `filter`: three tests in a row, where the later ones overwrite.
abbrev pub match_type : Request → Conf → Result Bool
match_type request conf = elim (asked "entity_type" request) [
  | none ↦ ok false
  | some entity_type ↦
      require (lookup "metadata" conf) key_error >>= λ metadata. contained entity_type metadata
]

abbrev pub match_marked_at_all : Request → Conf → Bool → Bool
match_marked_at_all request conf matched = elim (asked "trust_marked" request) [
  | none ↦ matched
  | some wanted ↦ has_key "trust_marks" conf
]

abbrev pub match_mark_id : Request → Conf → Bool → Result Bool
match_mark_id request conf matched = elim (asked "trust_mark_id" request) [
  | none ↦ ok matched
  | some trust_mark_id ↦
      iterate (lookup "trust_marks" conf) >>= λ trust_marks. has_mark trust_mark_id trust_marks
]

unfoldable pub matches : Request → Conf → Result Bool
unfolding has_mark
matches request conf = match_type request conf >>= λ matched.
    match_mark_id request conf (match_marked_at_all request conf matched)

-- `filter`
unfoldable pub filter_subordinates : Request → Dict Conf → Result (List String)
unfolding matches
filter_subordinates request [] = ok []
filter_subordinates request ((entity_id, conf) ∷ subordinates) = matches request conf >>= λ matched.
    filter_subordinates request subordinates >>= λ match.
    ok (if matched then entity_id ∷ match else match)

-- `set.add`, with the members in the order in which they came
abbrev pub add_id : String → List String → List String
add_id x xs = if mem x xs then xs else xs ++ (x ∷ [])

abbrev pub add_all : List String → List String → List String
add_all xs [] = xs
add_all xs (y ∷ ys) = add_all (add_id y xs) ys

-- `key in d and d[key]`
abbrev pub set_true : String → Dict Value → Bool
set_true key d = elim (lookup key d) [ none ↦ false | some val ↦ truthy val ]

abbrev pub wants_intermediates : Request → Bool
wants_intermediates request = elim (asked "intermediate" request) [ none ↦ false | some v ↦ true ]

-- Is a subordinate one that is asked for, by what its registration says?
unfoldable pub registered_as : Request → Conf → Result Bool
registered_as request item =
    if wants_intermediates request && set_true "intermediate" item
    then ok true
    else elim (lookup "entity_type" request) [
      | none ↦ ok false
      | some entity_type ↦
          require (lookup "entity_type" item) key_error >>= λ types. contained entity_type types
    ]

-- The loop over the subordinates
unfoldable pub match_registered : Request → List String → Dict Conf → Result (List String)
unfolding registered_as
match_registered request matched [] = ok matched
match_registered request matched ((entity_id, item) ∷ db) = registered_as request item >>= λ wanted.
    match_registered request (if wanted then add_id entity_id matched else matched) db

-- `JWT(key_jar).unpack` and `import_jwks`, for `collect_subordinates`
pub record Unpacking : Type 0 where
  pub import_jwks : KeyJar → Value → String → Result KeyJar
  pub unpack : KeyJar → String → Result Conf

-- `collect_subordinates`, where the key jar grows from one subordinate to the next
unfoldable pub collect_subordinates :
    Web → Unpacking → KeyJar → Dict Conf → Dict Conf → Result (Dict Conf)
collect_subordinates web unpacking keyjar sub [] = ok sub
collect_subordinates web unpacking keyjar sub ((entity_id, conf) ∷ db) =
    get_entity_configuration web entity_id >>= λ configuration.
    require (lookup "jwks" conf) key_error >>= λ jwks.
    unpacking.import_jwks keyjar jwks entity_id >>= λ keyjar'.
    unpacking.unpack keyjar' configuration >>= λ ec.
    collect_subordinates web unpacking keyjar' (insert entity_id ec sub) db

-- What `process_request` answers: identifiers, or their configurations too.
pub data Listing : Type 0 where
  ids : List String → Listing
  configurations : Dict Conf → Listing

-- `{id: subordinate_conf[id] for id in matched_entity_ids}`
unfoldable pub with_conf : Dict Conf → List String → Result (Dict Conf)
with_conf confs [] = ok []
with_conf confs (id ∷ matched) = require (lookup id confs) key_error >>= λ conf.
    with_conf confs matched >>= λ rest. ok ((id, conf) ∷ rest)

abbrev pub only_client : Request → Bool
only_client request = all (λ key. key == "client_id" || key == "authenticated") (keys request)

abbrev pub about_marks : Request → Bool
about_marks request = has_key "trust_marked" request || has_key "trust_mark_id" request

-- What follows the loop, where the trust marks are asked for too: `filter` is called with the request's
-- keys as arguments, so that a key that is an argument already raises a `TypeError`.
unfoldable pub match_marked :
    Web → Unpacking → Dict Conf → Request → List String → Result (List String × Dict Conf)
unfolding filter_subordinates collect_subordinates
match_marked web unpacking db request matched =
    collect_subordinates web unpacking [] [] db >>= λ confs.
    guard (not (has_key "subordinates" request || has_key "self" request)) type_error
    >> (filter_subordinates request confs >>= λ match. ok (add_all matched match, confs))

abbrev pub answer : Bool → List String → Dict Conf → Result Listing
answer extended matched confs =
    if extended && not (is_empty confs)
    then (with_conf confs matched >>= λ found. ok (configurations found))
    else ok (ids matched)

-- `process_request`
unfoldable pub list_subordinates : Web → Unpacking → Bool → Dict Conf → Request → Result Listing
unfolding match_registered match_marked with_conf
list_subordinates web unpacking extended db request =
    if only_client request
    then ok (ids (keys db))
    else (match_registered request [] db >>= λ matched.
        if about_marks request
        then (match_marked web unpacking db request matched >>= λ found.
            answer extended found.0 found.1)
        else ok (ids matched))
