-- ===== src/Entity/Trawl/Steps.antt =====
-- What the steps of `trawl` of src/fedservice/entity/__init__.py find, in the states that they go through.
use fedservice.Prelude.{
  ℕ, zero, suc, String, ◌≡◌, refl, sym, ap, ◌∙◌, subst, ◌⊎◌, inl, inr, Bool, true, false, Option,
  some, List, [], ◌∷◌, ◌++◌, arith, if◌then◌else◌, Bool-cases, Option-cases, ok, require, >>=-eq-ok,
  Result-cases, ◌>>>◌, lift, >>>-eq-ok, require-eq, Result-cases, key_error, type_error,
}
use fedservice.Prelude.Dict.{Dict, has_key, keys, mem, mem-append}
use fedservice.Prelude.Int.{ℤ}
use fedservice.Value.{Value, text}
use fedservice.Cache.{contains, get_item}
use fedservice.Entity.TrustMarks.{jwks_of}
use fedservice.Entity.Trawl.{
  given_ids, Requests, trawl, trawl_each, read_subordinate, own_issuer, has_list_endpoint,
  import_subject, fetch_subordinate,
}
use fedservice.Entity.{Act, FederationEntity}
use fedservice.Policy.Combine.{Metadata}
use fedservice.Statement.{EntityStatement}
use fedservice.Verifier.{KeyJar}

-- For some entity of a list, in the state that the visits to those before it leave
abbrev pub Each :
    (String → FederationEntity → Type 0)
    → (String → FederationEntity → FederationEntity)
    → List String
    → FederationEntity
    → Type 0
Each P visit [] self = true ≡ false
Each P visit (entity_id ∷ ids) self = P entity_id self ⊎ Each P visit ids (visit entity_id self)

module _ (now : ℤ) (requests : Requests) where
  -- The configuration of an entity that is read in `self`: from its cache where that has one, else from the
  -- request for it once the keys that the superior states are added to its key jar.
  abbrev pub Read : String → String → FederationEntity → EntityStatement → Type 0
  Read superior subordinate self ec =
      ((contains subordinate self.collector.config_cache ≡ true)
        × ((get_item (λ es. some es.exp) now subordinate self.collector.config_cache).1 ≡ some ec))
      ⊎ ((contains subordinate self.collector.config_cache ≡ false)
          × (told : FederationEntity) × (es : EntityStatement) × (keys : List Value)
          × (keyjar : KeyJar) × (requests.statement superior subordinate self ≡ (told, ok es))
          × (es.jwks ≡ some keys)
          × (requests.import_jwks told.keyjar (jwks_of keys) (text es.sub) ≡ ok keyjar)
          × ((requests.configuration subordinate (record told { keyjar = keyjar })).1 ≡ ok ec))

  abbrev pub IsOwn : String → EntityStatement → String → Type 0
  IsOwn entity_type ec entity_id =
      (metadata : Dict Metadata) × (ec.metadata ≡ some metadata)
      × (has_key entity_type metadata ≡ true)
      × (ec.sub ≡ entity_id)

  -- `entity_id` is the subject of the configuration that is read for the subordinate in `self`, which has
  -- the type; or the configuration has a list endpoint, and the subordinate then lists it under the type, or
  -- then lists an intermediate, in the search below which it is found.
  unfoldable pub Found : ℕ → String → String → String → FederationEntity → String → Type 0
  Found zero superior subordinate entity_type self entity_id = true ≡ false
  Found (suc fuel) superior subordinate entity_type self entity_id =
      (ec : EntityStatement) × (left : FederationEntity) × Read superior subordinate self ec
      × (left ≡ (read_subordinate now requests superior subordinate self).0)
      × (IsOwn entity_type ec entity_id
          ⊎ ((has_list_endpoint ec ≡ ok true)
              × (added : Option (List String)) × (after : FederationEntity) × (requests.typed
                    subordinate entity_type left
                  ≡ (after, ok added))
              × ((mem entity_id (given_ids added) ≡ true)
                  ⊎ ((ids : List String) × (last : FederationEntity) × (requests.intermediates
                          subordinate after
                        ≡ (last, ok (some ids)))
                      × Each (λ at state. Found fuel subordinate at entity_type state entity_id)
                          (λ at state. (trawl now requests fuel subordinate at entity_type state).0)
                          ids last))))

  pub run_pair :
      {A : Type 0} (m : Act A) (self : FederationEntity) (a : A)
      → (m self).1 ≡ ok a
      → m self ≡ ((m self).0, ok a)
  run_pair m self a run = ap (λ r. ((m self).0, r)) run

  single :
      (b : Bool) (e sub : String)
      → mem e (if b then sub ∷ [] else []) ≡ true
      → (b ≡ true) × (sub ≡ e)
  single true e sub within = (refl, ground (arith, within))
  single false e sub within = cc

  pub own_issuer-IsOwn :
      (entity_type e : String) (ec : EntityStatement) (own : List String)
      → own_issuer entity_type ec ≡ ok own
      → mem e own ≡ true
      → IsOwn entity_type ec e
  own_issuer-IsOwn entity_type e ec own owned within =
      let (metadata, says, same) =
        >>=-eq-ok (require ec.metadata key_error)
          (λ metadata. ok (if has_key entity_type metadata then ec.sub ∷ [] else [])) owned in
      let own_is : own ≡ (if has_key entity_type metadata then ec.sub ∷ [] else []) = cc in
      let (has_type, is_sub) =
        single (has_key entity_type metadata) e ec.sub
          (ap (λ es. mem e es) (sym own_is) ∙ within) in
      (metadata, require-eq ec.metadata key_error says, has_type, is_sub)

  fetched_keys :
      (self : FederationEntity) (es : EntityStatement) (done : Unit {0})
      → (import_subject now requests es self).1 ≡ ok done
      → (keys : List Value) × (keyjar : KeyJar) × (es.jwks ≡ some keys)
        × (requests.import_jwks self.keyjar (jwks_of keys) (text es.sub) ≡ ok keyjar)
        × ((import_subject now requests es self).0 ≡ record self { keyjar = keyjar })
  fetched_keys self es done run = elim (Option-cases es.jwks) [
    | inl none_stated ↦ ground (arith, run, none_stated)
    | inr (keys, stated) ↦
        elim (Result-cases (requests.import_jwks self.keyjar (jwks_of keys) (text es.sub))) [
          | inl (keyjar, added) ↦ (keys, keyjar, stated, added, ground (arith, stated, added))
          | inr (e, fails) ↦ ground (arith, run, stated, fails)
        ]
  ]

  fetch_subordinate-Read :
      (superior subordinate : String) (self : FederationEntity) (ec : EntityStatement)
      → contains subordinate self.collector.config_cache ≡ false
      → (fetch_subordinate now requests superior subordinate self).1 ≡ ok ec
      → Read superior subordinate self ec
  fetch_subordinate-Read superior subordinate self ec fresh run =
      let (es, told, run1) =
        >>>-eq-ok (requests.statement superior subordinate)
          (λ es. import_subject now requests es >>> λ done. requests.configuration subordinate) self
          run in
      let (done, imports, run2) =
        >>>-eq-ok (import_subject now requests es) (λ done. requests.configuration subordinate)
          (requests.statement superior subordinate self).0 run1 in
      let (keys, keyjar, stated, added, left) =
        fetched_keys (requests.statement superior subordinate self).0 es done imports in
      inr (
        fresh,
        (requests.statement superior subordinate self).0,
        es,
        keys,
        keyjar,
        run_pair (requests.statement superior subordinate) self es told,
        stated,
        added,
        subst (λ at. (requests.configuration subordinate at).1 ≡ ok ec) left run2,
      )

  pub read_subordinate-Read :
      (superior subordinate : String) (self : FederationEntity) (ec : EntityStatement)
      → (read_subordinate now requests superior subordinate self).1 ≡ ok ec
      → Read superior subordinate self ec
  unfolding read_subordinate
  read_subordinate-Read superior subordinate self ec run =
      elim (Bool-cases (contains subordinate self.collector.config_cache)) [
        | inl cached ↦ inl (
          cached,
          require-eq (get_item (λ es. some es.exp) now subordinate self.collector.config_cache).1
              type_error (ground (arith, run, cached)),
        )
        | inr fresh ↦
            fetch_subordinate-Read superior subordinate self ec fresh (ground (arith, run, fresh))
      ]

  pub trawl_each-Each :
      (P : String → FederationEntity → Type 0) (visit : String → Act (List String)) (e : String)
      (ids : List String) (self : FederationEntity) (found : List String)
      → ((at : String) (state : FederationEntity) (es : List String)
          → (visit at state).1 ≡ ok es
          → mem e es ≡ true
          → P at state)
      → (trawl_each visit ids self).1 ≡ ok found
      → mem e found ≡ true
      → Each P (λ at state. (visit at state).0) ids self
  unfolding trawl_each
  trawl_each-Each P visit e [] self found visits run within = ground (arith, run, within)
  trawl_each-Each P visit e (entity_id ∷ ids) self found visits run within =
      let (es, first, run1) =
        >>>-eq-ok (visit entity_id)
          (λ found. trawl_each visit ids >>> λ others. lift (ok (found ++ others))) self run in
      let (others, more, same) =
        >>>-eq-ok (trawl_each visit ids) (λ others. lift (ok (es ++ others)))
          (visit entity_id self).0 run1 in
      let both : found ≡ es ++ others = cc in
      elim (Bool-cases (mem e es)) [
        | inl here ↦ inl (visits entity_id self es first here)
        | inr missing ↦ inr (
            trawl_each-Each P visit e ids (visit entity_id self).0 others visits more (
              let split = ap (λ l. mem e l) (sym both) ∙ within in
              ground (arith, split, missing, mem-append e es others)))
      ]
