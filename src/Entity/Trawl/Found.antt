-- ===== src/Entity/Trawl/Found.antt =====
-- What `trawl` of src/fedservice/entity/__init__.py finds, and that it ends.
use fedservice.Prelude.{
  ℕ, zero, suc, ◌<◌, String, ◌≡◌, refl, sym, ap, ◌∙◌, ◌⊎◌, inl, inr, true, Option, none, some, List,
  ◌++◌, arith, if◌then◌else◌, Bool-cases, ok, raised, ◌>>>◌, lift, >>>-eq-ok, raised_value,
  out_of_fuel, ◌≢◌,
}
use fedservice.Prelude.Dict.{mem, mem-append}
use fedservice.Prelude.Int.{ℤ}
use fedservice.Entity.Trawl.Ends.{Sound, trawl-Always}
use fedservice.Entity.Trawl.Steps.{
  Each, Found, own_issuer-IsOwn, run_pair, read_subordinate-Read, trawl_each-Each,
}
use fedservice.Prelude.Ending.{ended_by, Ending-ne}
use fedservice.Entity.Trawl.{
  given_ids, Requests, trawl, trawl_each, read_subordinate, trawl_listed, trawl_below, own_issuer,
  has_list_endpoint,
}
use fedservice.Entity.{Act, FederationEntity}

module _ (now : ℤ) (requests : Requests) where
  -- What is found below an entity that has a list endpoint
  Below : ℕ → String → String → FederationEntity → String → Type 0
  Below fuel subordinate entity_type left entity_id =
      (added : Option (List String)) × (after : FederationEntity) × (requests.typed subordinate
          entity_type left
        ≡ (after, ok added))
      × ((mem entity_id (given_ids added) ≡ true)
          ⊎ ((ids : List String) × (last : FederationEntity) × (requests.intermediates subordinate
                  after
                ≡ (last, ok (some ids)))
              × Each
                  (λ at state. Found now requests fuel subordinate at entity_type state entity_id)
                  (λ at state. (trawl now requests fuel subordinate at entity_type state).0) ids
                  last))

  Visits : ℕ → String → String → String → Type 0
  Visits fuel subordinate entity_type e =
      (at : String) (state : FederationEntity) (es : List String)
      → (trawl now requests fuel subordinate at entity_type state).1 ≡ ok es
      → mem e es ≡ true
      → Found now requests fuel subordinate at entity_type state e

  in_intermediates :
      (fuel : ℕ) (subordinate entity_type e : String) (below : Option (List String))
      (last : FederationEntity) (found : List String)
      → Visits fuel subordinate entity_type e
      → (trawl_each
          (λ at. trawl now requests fuel subordinate at entity_type)
          (given_ids below)
          last).1
        ≡ ok found
      → mem e found ≡ true
      → (ids : List String) × (below ≡ some ids)
        × Each
            (λ at state. Found now requests fuel subordinate at entity_type state e)
            (λ at state. (trawl now requests fuel subordinate at entity_type state).0)
            ids
            last
  unfolding trawl_each Visits
  in_intermediates fuel subordinate entity_type e none last found visits run within =
      ground (arith, run, within)
  in_intermediates fuel subordinate entity_type e (some ids) last found visits run within = (
    ids,
    refl,
    trawl_each-Each now requests
        (λ at state. Found now requests fuel subordinate at entity_type state e)
        (λ at. trawl now requests fuel subordinate at entity_type) e ids last found visits run
        within,
  )

  trawl_below-Below :
      (fuel : ℕ) (subordinate entity_type e : String) (own es : List String)
      (left : FederationEntity)
      → Visits fuel subordinate entity_type e
      → (trawl_below now requests
          (λ at. trawl now requests fuel subordinate at entity_type)
          subordinate
          entity_type
          own
          left).1
        ≡ ok es
      → mem e es ≡ true
      → (mem e own ≡ true) ⊎ Below fuel subordinate entity_type left e
  unfolding Below
  trawl_below-Below fuel subordinate entity_type e own es left visits run within =
      let visit : String → Act (List String) =
        λ at. trawl now requests fuel subordinate at entity_type in
      let (added, lists, run1) =
        >>>-eq-ok (requests.typed subordinate entity_type)
          (λ added. requests.intermediates subordinate >>> λ below.
            trawl_each visit (given_ids below) >>> λ found.
            lift (ok ((own ++ given_ids added) ++ found)))
          left run in
      let after = (requests.typed subordinate entity_type left).0 in
      let (below, names, run2) =
        >>>-eq-ok (requests.intermediates subordinate)
          (λ below. trawl_each visit (given_ids below) >>> λ found.
            lift (ok ((own ++ given_ids added) ++ found)))
          after run1 in
      let last = (requests.intermediates subordinate after).0 in
      let (found, searched, same) =
        >>>-eq-ok (trawl_each visit (given_ids below))
          (λ found. lift (ok ((own ++ given_ids added) ++ found))) last run2 in
      let all_of : es ≡ (own ++ given_ids added) ++ found = cc in
      let split = ap (λ l. mem e l) (sym all_of) ∙ within in
      let from_lists =
        run_pair now requests (requests.typed subordinate entity_type) left added lists in
      elim (Bool-cases (mem e own)) [
        | inl mine ↦ inl mine
        | inr not_mine ↦ elim (Bool-cases (mem e (given_ids added))) [
          | inl listed ↦ inr (added, after, from_lists, inl listed)
          | inr not_listed ↦
              let (ids, is_some, each) =
                in_intermediates fuel subordinate entity_type e below last found visits searched (
                  ground (
                    arith,
                    split,
                    not_mine,
                    not_listed,
                    mem-append e (own ++ given_ids added) found,
                    mem-append e own (given_ids added),
                  )) in
              inr (
                added,
                after,
                from_lists,
                inr (
                  ids,
                  last,
                  run_pair now requests (requests.intermediates subordinate) after (some ids)
                      (names ∙ ap (λ b. ok b) is_some),
                  each,
                ),
              )
        ]
      ]

  search_holds :
      (fuel : ℕ) (superior subordinate entity_type e : String) (self : FederationEntity)
      (es : List String)
      → (trawl now requests fuel superior subordinate entity_type self).1 ≡ ok es
      → mem e es ≡ true
      → Found now requests fuel superior subordinate entity_type self e
  unfolding trawl Found Below Visits
  search_holds zero superior subordinate entity_type e self es run within = raised_value run
  search_holds (suc fuel) superior subordinate entity_type e self es run within =
      let visit : String → Act (List String) =
        λ at. trawl now requests fuel subordinate at entity_type in
      let (ec, reads, run1) =
        >>>-eq-ok (read_subordinate now requests superior subordinate)
          (λ ec. trawl_listed now requests visit subordinate entity_type ec) self run in
      let left = (read_subordinate now requests superior subordinate self).0 in
      let read = read_subordinate-Read now requests superior subordinate self ec reads in
      let (own, owned, run2) =
        >>>-eq-ok (lift (own_issuer entity_type ec))
          (λ own. lift (has_list_endpoint ec) >>> λ lists.
            if lists
            then trawl_below now requests visit subordinate entity_type own
            else lift (ok own))
          left run1 in
      let (lists, has_list, run3) =
        >>>-eq-ok (lift (has_list_endpoint ec))
          (λ lists.
            if lists
            then trawl_below now requests visit subordinate entity_type own
            else lift (ok own))
          left run2 in
      elim (Bool-cases lists) [
        | inr has_none ↦ (
          ec,
          left,
          read,
          refl,
          inl (
              own_issuer-IsOwn now requests entity_type e ec own owned
                (ground (arith, run3, has_none, within))),
        )
        | inl has ↦
            elim (trawl_below-Below fuel subordinate entity_type e own es left
              (λ at state es' run' within'.
                search_holds fuel subordinate at entity_type e state es' run' within')
              (ground (arith, run3, has)) within) [
                | inl mine ↦ (
                  ec,
                  left,
                  read,
                  refl,
                  inl (own_issuer-IsOwn now requests entity_type e ec own owned mine),
                )
                | inr (added, after, typed, how) ↦ (
                  ec,
                  left,
                  read,
                  refl,
                  inr (has_list ∙ ap (λ b. ok b) has, added, after, typed, how),
                )
              ]
      ]

  -- Where the requests raise exceptions of the program only and every intermediate has a smaller
  -- rank than the entity that lists it, `trawl` with more rounds than the rank of the subordinate
  -- ends within them. Each identifier that it returns is found in the states that it goes through: it is the
  -- subject of the configuration that the entity then reads for the subordinate, from its cache or by the
  -- request for it, where this has the type; or the configuration has a list endpoint, and the subordinate then
  -- lists it under the type, or then lists an intermediate from which it is found in the same way.
  pub trawl-Found :
      (rank : String → ℕ) (fuel : ℕ) (superior subordinate entity_type : String)
      (self : FederationEntity)
      → Sound now requests rank
      → rank subordinate < fuel
      → ((trawl now requests fuel superior subordinate entity_type self).1 ≢ raised out_of_fuel)
        × ((found : List String) (entity_id : String)
            → (trawl now requests fuel superior subordinate entity_type self).1 ≡ ok found
            → mem entity_id found ≡ true
            → Found now requests fuel superior subordinate entity_type self entity_id)
  trawl-Found rank fuel superior subordinate entity_type self sound below = (
    Ending-ne (
        ended_by (trawl-Always now requests rank fuel superior subordinate entity_type sound below)
          self),
    λ found entity_id run within.
        search_holds fuel superior subordinate entity_type entity_id self found run within,
  )
