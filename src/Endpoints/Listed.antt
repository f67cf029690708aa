-- ===== src/Endpoints/Listed.antt =====
-- Which subordinates src/fedservice/entity/server/list.py lists.
use fedservice.Collect.Web.{Web}
use fedservice.Endpoints.Listing.{
  filter_subordinates, collect_subordinates, match_marked, ids, about_marks, only_client, Unpacking,
  add_id, list_subordinates, registered_as, Conf, match_registered, add_all, Request,
}
use fedservice.Prelude.{
  String, ◌≡◌, inl, inr, Bool, true, false, not, ◌&&◌, ◌||◌, List, [], ◌∷◌, arith, ◌==◌, ok, raised,
  ◌>>=◌, ◌>>◌, guard, >>=-eq-ok, Result-cases, none, some, type_error,
}
use fedservice.Value.{truthy, contained}
use fedservice.Prelude.Dict.{lookup, Dict, has_key, mem, mem-append}

mem-add_id : (k x : String) (xs : List String) → mem k (add_id x xs) ≡ (k == x || mem k xs)
mem-add_id k x xs = ground (arith, mem-append k xs (x ∷ []))

mem-add_all : (k : String) (xs ys : List String) → mem k (add_all xs ys) ≡ (mem k xs || mem k ys)
mem-add_all k xs [] = ground arith
mem-add_all k xs (y ∷ ys) = ground (arith, mem-add_all k (add_id y xs) ys, mem-add_id k y xs)

-- `intermediate` of the request is stated and not empty, and true of the item.
abbrev pub asked_intermediate : Request → Conf → Bool
asked_intermediate request item =
    elim (lookup "intermediate" request) [ none ↦ false | some val ↦ not (val == "") ]
    && elim (lookup "intermediate" item) [ none ↦ false | some v ↦ truthy v ]

-- `entity_type` of the request is stated, and among those of the item.
abbrev pub asked_type : Request → Conf → Bool
asked_type request item = elim (lookup "entity_type" request) [
  | none ↦ false
  | some entity_type ↦ elim (lookup "entity_type" item) [
    | none ↦ false
    | some types ↦ elim (contained entity_type types) [ ok found ↦ found | raised e ↦ false ]
  ]
]

-- Some subordinate of that name is an intermediate or of the type, as the request asks.
abbrev pub some_registered : Request → String → Dict Conf → Bool
some_registered request id [] = false
some_registered request id ((entity_id, item) ∷ db) =
    (id == entity_id && (asked_intermediate request item || asked_type request item))
    || some_registered request id db

registered_as-eq :
    (request : Request) (item : Conf) (b : Bool)
    → registered_as request item ≡ ok b
    → b ≡ (asked_intermediate request item || asked_type request item)
unfolding registered_as
registered_as-eq request item b run = ground (arith, run)

match_registered-mem :
    (request : Request) (matched out : List String) (db : Dict Conf) (id : String)
    → match_registered request matched db ≡ ok out
    → mem id out ≡ (mem id matched || some_registered request id db)
unfolding match_registered
match_registered-mem request matched out [] id run = ground arith
match_registered-mem request matched out ((entity_id, item) ∷ db) id run =
    elim (Result-cases (registered_as request item)) [
      | inl (true, wanted) ↦ ground (
        arith,
        wanted,
        registered_as-eq request item true wanted,
        match_registered-mem request (add_id entity_id matched) out db id
            (ground (arith, wanted, run)),
        mem-add_id id entity_id matched,
      )
      | inl (false, unwanted) ↦ ground (
        arith,
        unwanted,
        registered_as-eq request item false unwanted,
        match_registered-mem request matched out db id (ground (arith, unwanted, run)),
      )
      | inr (e, fails) ↦ ground (arith, fails, run)
    ]

-- A request without conditions on trust marks, unless it is about the client alone, is answered by the
-- identifiers of exactly those subordinates that the registration has as intermediates, where the request
-- has a text that is not empty as `intermediate`, or as of the entity type that the request asks for.
pub list_subordinates-mem :
    (web : Web) (unpacking : Unpacking) (extended : Bool) (db : Dict Conf) (request : Request)
    (answered : List String) (id : String)
    → only_client request ≡ false
    → about_marks request ≡ false
    → list_subordinates web unpacking extended db request ≡ ok (ids answered)
    → mem id answered ≡ some_registered request id db
unfolding list_subordinates
list_subordinates-mem web unpacking extended db request answered id asks no_marks run =
    elim (Result-cases (match_registered request [] db)) [
      | inl (out, found) ↦
          ground
            (arith, found, run, asks, no_marks, match_registered-mem request [] out db id found)
      | inr (e, fails) ↦ ground (arith, fails, run, asks, no_marks)
    ]

match_marked-keeps :
    (web : Web) (unpacking : Unpacking) (db : Dict Conf) (request : Request) (matched : List String)
    (found : List String × Dict Conf) (id : String)
    → match_marked web unpacking db request matched ≡ ok found
    → mem id matched ≡ true
    → mem id found.0 ≡ true
unfolding match_marked
match_marked-keeps web unpacking db request matched found id run there =
    let (confs, collected, run1) =
      >>=-eq-ok (collect_subordinates web unpacking [] [] db)
        (λ confs.
          guard (not (has_key "subordinates" request || has_key "self" request)) type_error
          >> (filter_subordinates request confs >>= λ match. ok (add_all matched match, confs)))
        run in
    let (unit, passed, run2) =
      >>=-eq-ok (guard (not (has_key "subordinates" request || has_key "self" request)) type_error)
        (λ unit. filter_subordinates request confs >>= λ match. ok (add_all matched match, confs))
        run1 in
    let (match, filtered, run3) =
      >>=-eq-ok (filter_subordinates request confs) (λ match. ok (add_all matched match, confs))
        run2 in
    ground (arith, run3, there, mem-add_all id matched match)

-- A condition on trust marks takes no one away: who is registered as the request asks is in the
-- answer, also without the trust mark that the request asks for.
pub list_subordinates-marks_add :
    (web : Web) (unpacking : Unpacking) (db : Dict Conf) (request : Request)
    (answered : List String) (id : String)
    → only_client request ≡ false
    → about_marks request ≡ true
    → list_subordinates web unpacking false db request ≡ ok (ids answered)
    → some_registered request id db ≡ true
    → mem id answered ≡ true
unfolding list_subordinates
list_subordinates-marks_add web unpacking db request answered id asks marks run known =
    elim (Result-cases (match_registered request [] db)) [
      | inl (out, found) ↦ elim (Result-cases (match_marked web unpacking db request out)) [
        | inl (both, marked) ↦ ground (
          arith,
          found,
          marked,
          run,
          asks,
          marks,
          match_marked-keeps web unpacking db request out both id marked
              (ground (arith, match_registered-mem request [] out db id found, known)),
        )
        | inr (e, fails) ↦ ground (arith, found, fails, run, asks, marks)
      ]
      | inr (e, fails) ↦ ground (arith, fails, run, asks, marks)
    ]
