-- ===== src/Entity/Trawl.antt =====
-- `trawl` of src/fedservice/entity/__init__.py: the entities of one type below another.
use fedservice.Prelude.{
  ℕ, zero, suc, ◌+◌, ◌-◌, ◌≤◌, ◌<◌, String, ◌≡◌, refl, sym, ap, ◌∙◌, subst, ◌⊎◌, inl, inr, Bool,
  true, false, not, ◌&&◌, ◌||◌, Option, none, some, List, [], ◌∷◌, ◌++◌, map, reverse, arith, ltb,
  leb, eqb, if◌then◌else◌, string_dec, ◌==◌, Bool-cases, Option-cases, Result, ok, raised, ◌>>=◌,
  ◌>>◌, guard, require, >>=-eq-ok, Result-cases, Error, length, get_elem?, get_last?, drop_last,
  is_empty, filter, any, all, Stateful, ◌>>>◌, lift, >>>-eq-ok, Gives, gives, given_by, >>>-Gives,
  lift-Gives, if-Gives, option-Gives, any_Gives, none-Gives, raised_value, length-append, key_error,
  out_of_fuel, type_error, value_error, attribute_error, index_error,
}
use fedservice.Prelude.Dict.{
  Dict, lookup, has_key, insert, erase, keys, update, mem, lookup-insert, lookup-erase, mem-append,
  has_key-eq-lookup, has_key-insert,
}
use fedservice.Prelude.Int.{ℤ, pos, negsuc, ltb_ℤ, leb_ℤ, ◌+ℤ◌, ◌-ℤ◌, ◌≤ℤ◌}
use fedservice.Value.{Value, Atom, truthy, text, value_eq}
use fedservice.Entity.TrustMarks.{on_collector, jwks_of}
use fedservice.Entity.{Act, FederationEntity}
use fedservice.Cache.{contains}
use fedservice.Collect.Run.{read_config}
use fedservice.Verifier.{KeyJar}
use fedservice.Statement.{EntityStatement}
pub mod Found
pub mod Ends
pub mod Steps

-- What `do_request` of the client does for the services that are used, and `import_jwks` of cryptojwt:
-- `statement` is the service `entity_statement`, `typed` and `intermediates` are the service `list` with one
-- or the other argument.
pub record Requests : Type 0 where
  pub statement : String → String → Act EntityStatement
  pub configuration : String → Act EntityStatement
  pub typed : String → String → Act (Option (List String))
  pub intermediates : String → Act (Option (List String))
  pub import_jwks : KeyJar → Value → Value → Result KeyJar

-- `None` adds nothing.
abbrev pub given_ids : Option (List String) → List String
given_ids none = []
given_ids (some ids) = ids

-- The subordinate itself, if its metadata has the type.
abbrev pub own_issuer : String → EntityStatement → Result (List String)
own_issuer entity_type ec = require ec.metadata key_error >>= λ metadata.
    ok (if has_key entity_type metadata then ec.sub ∷ [] else [])

-- `"federation_list_endpoint" in _ec["metadata"]["federation_entity"]`
abbrev pub has_list_endpoint : EntityStatement → Result Bool
has_list_endpoint ec = require ec.metadata key_error >>= λ metadata.
    require (lookup "federation_entity" metadata) key_error >>= λ claims.
    ok (has_key "federation_list_endpoint" claims)

-- The loop over the intermediates
unfoldable pub trawl_each : (String → Act (List String)) → List String → Act (List String)
trawl_each visit [] = lift (ok [])
trawl_each visit (entity_id ∷ ids) =
    visit entity_id >>> λ found. trawl_each visit ids >>> λ others. lift (ok (found ++ others))

abbrev pub put_keyjar : FederationEntity → Result KeyJar → FederationEntity × Result (Unit {0})
put_keyjar self (raised e) = (self, raised e)
put_keyjar self (ok keyjar) = (record self { keyjar = keyjar }, ok tt)

-- `now` is the time of the cache.
module _ (now : ℤ) (requests : Requests) where
  -- The keys of the statement go into the key jar of the entity.
  abbrev pub import_subject : EntityStatement → Act (Unit {0})
  import_subject es self = put_keyjar self (
      require es.jwks key_error >>= λ keys.
      requests.import_jwks self.keyjar (jwks_of keys) (text es.sub))

  abbrev pub fetch_subordinate : String → String → Act EntityStatement
  fetch_subordinate superior subordinate = requests.statement superior subordinate >>> λ es.
      import_subject es >>> λ done. requests.configuration subordinate

  -- A configuration that has timed out in the cache is read as `None`, and `None["metadata"]`
  -- raises a TypeError.
  unfoldable pub read_subordinate : String → String → Act EntityStatement
  read_subordinate superior subordinate self =
      if contains subordinate self.collector.config_cache
      then (on_collector (read_config now subordinate) >>> λ ec. lift (require ec type_error)) self
      else fetch_subordinate superior subordinate self

  -- What the subordinate lists, and what is found below the intermediates that it lists; `visit` is the
  -- call for one of them.
  abbrev pub trawl_below :
      (String → Act (List String)) → String → String → List String → Act (List String)
  trawl_below visit subordinate entity_type own =
      requests.typed subordinate entity_type >>> λ added.
      requests.intermediates subordinate >>> λ below.
      trawl_each visit (given_ids below) >>> λ found. lift (ok ((own ++ given_ids added) ++ found))

  abbrev pub trawl_listed :
      (String → Act (List String)) → String → String → EntityStatement → Act (List String)
  trawl_listed visit subordinate entity_type ec = lift (own_issuer entity_type ec) >>> λ own.
      lift (has_list_endpoint ec) >>> λ lists.
      if lists then trawl_below visit subordinate entity_type own else lift (ok own)

  -- `trawl`
  unfoldable pub trawl : ℕ → String → String → String → Act (List String)
  unfolding read_subordinate trawl_each
  trawl zero superior subordinate entity_type = lift (raised out_of_fuel)
  trawl (suc fuel) superior subordinate entity_type =
      read_subordinate superior subordinate >>> λ ec.
      trawl_listed (λ entity_id. trawl fuel subordinate entity_id entity_type) subordinate
        entity_type ec
