-- ===== src/Entity/Trawl/Ends.antt =====
-- The search of `trawl` of src/fedservice/entity/__init__.py ends.
use fedservice.Prelude.{
  ℕ, zero, suc, refl, ◌∙◌, Option, none, ◌<◌, String, ◌≡◌, ap, true, some, List, [], ◌∷◌, ◌++◌,
  arith, Result, ok, raised, ◌>>=◌, require, key_error, out_of_fuel, type_error, ◌≢◌,
}
use fedservice.Prelude.Dict.{lookup, mem}
use fedservice.Prelude.Int.{ℤ}
use fedservice.Value.{Value, text}
use fedservice.Cache.{contains, get_item}
use fedservice.Entity.TrustMarks.{jwks_of}
use fedservice.Entity.Trawl.{
  given_ids, trawl, has_list_endpoint, own_issuer, put_keyjar, Requests, trawl_each,
  read_subordinate, import_subject,
}
use fedservice.Entity.{Act, FederationEntity}
use fedservice.Statement.{EntityStatement}
use fedservice.Verifier.{KeyJar}
use fedservice.Prelude.Ending.{
  weaken-Always, any_Ending, any_Always, Ending, returns, raises, require-Ending, >>=-Ending,
  Ending-ne, Always, always, ended_by, if-Always, >>>-Always, lift-Always, weaken-Ending, if-Ending,
}

module _ (now : ℤ) (requests : Requests) (rank : String → ℕ) where
  -- The requests raise exceptions of the program, and an intermediate has a smaller rank than the one
  -- that lists it.
  pub record Sound : Type 0 where
    pub statement_ne :
        (superior sub : String) (self : FederationEntity)
        → (requests.statement superior sub self).1 ≢ raised out_of_fuel
    pub configuration_ne :
        (sub : String) (self : FederationEntity)
        → (requests.configuration sub self).1 ≢ raised out_of_fuel
    pub typed_ne :
        (at entity_type : String) (self : FederationEntity)
        → (requests.typed at entity_type self).1 ≢ raised out_of_fuel
    pub intermediates_ne :
        (at : String) (self : FederationEntity)
        → (requests.intermediates at self).1 ≢ raised out_of_fuel
    pub import_ne :
        (keyjar : KeyJar) (jwks sub : Value)
        → requests.import_jwks keyjar jwks sub ≢ raised out_of_fuel
    pub ranked :
        (at entity_id : String) (ids : List String) (self : FederationEntity)
        → (requests.intermediates at self).1 ≡ ok (some ids)
        → mem entity_id ids ≡ true
        → rank entity_id < rank at

  imported :
      (self : FederationEntity) (r : Result KeyJar)
      → r ≢ raised out_of_fuel
      → Ending (λ done. Unit {0}) (put_keyjar self r).1
  imported self (ok keyjar) ne = returns tt
  imported self (raised e) ne = raises λ same. ne (ap (λ e. raised e) same)

  import_subject-Always :
      Sound → (es : EntityStatement) → Always (λ done. Unit {0}) (import_subject now requests es)
  import_subject-Always sound es = always λ self.
      imported self
        (require es.jwks key_error >>= λ keys.
          requests.import_jwks self.keyjar (jwks_of keys) (text es.sub))
        (Ending-ne {Q = λ keyjar. Unit {0}} (
          >>=-Ending (require-Ending es.jwks key_error (λ keys same. tt) λ same. cc) λ keys given.
            weaken-Ending
              (any_Ending (requests.import_jwks self.keyjar (jwks_of keys) (text es.sub))
                (sound.import_ne self.keyjar (jwks_of keys) (text es.sub)))
              λ keyjar same. tt))

  read_subordinate-Always :
      Sound
      → (superior subordinate : String)
      → Always (λ ec. Unit {0}) (read_subordinate now requests superior subordinate)
  unfolding read_subordinate
  read_subordinate-Always sound superior subordinate = always λ self.
      if-Ending (contains subordinate self.collector.config_cache) _ _
        (require-Ending (get_item (λ es. some es.exp) now subordinate self.collector.config_cache).1
          type_error (λ ec same. tt) λ same. cc)
        (ended_by
          (>>>-Always
            (any_Always (requests.statement superior subordinate)
              (sound.statement_ne superior subordinate))
            λ es from. >>>-Always (import_subject-Always sound es) λ done any.
              weaken-Always
                (any_Always (requests.configuration subordinate)
                  (sound.configuration_ne subordinate))
                λ ec from. tt)
          self)

  trawl_each-Always :
      (visit : String → Act (List String)) (ids : List String)
      → ((entity_id : String)
          → mem entity_id ids ≡ true
          → Always (λ es. Unit {0}) (visit entity_id))
      → Always (λ es. Unit {0}) (trawl_each visit ids)
  unfolding trawl_each
  trawl_each-Always visit [] ends = lift-Always {r = ok []} (returns tt)
  trawl_each-Always visit (entity_id ∷ ids) ends =
      >>>-Always (ends entity_id (ground arith)) λ found here.
        >>>-Always (trawl_each-Always visit ids λ other within. ends other (ground (arith, within)))
          λ others there. lift-Always {r = ok (found ++ others)} (returns tt)

  given-Always :
      (visit : String → Act (List String)) (subordinate : String) (below : Option (List String))
      → ((entity_id : String) (ids : List String)
          → below ≡ some ids
          → mem entity_id ids ≡ true
          → Always (λ es. Unit {0}) (visit entity_id))
      → Always (λ es. Unit {0}) (trawl_each visit (given_ids below))
  unfolding trawl_each
  given-Always visit subordinate none ends = lift-Always {r = ok []} (returns tt)
  given-Always visit subordinate (some ids) ends =
      trawl_each-Always visit ids λ entity_id within. ends entity_id ids refl within

  list_endpoint-Ending : (ec : EntityStatement) → Ending (λ lists. Unit {0}) (has_list_endpoint ec)
  list_endpoint-Ending ec =
      >>=-Ending
        (require-Ending {Q = λ m. Unit {0}} ec.metadata key_error (λ m same. tt) λ same. cc)
        λ metadata any.
          >>=-Ending
            (require-Ending {Q = λ m. Unit {0}} (lookup "federation_entity" metadata) key_error
              (λ m same. tt) λ same. cc)
            λ claims any2. returns tt

  own_issuer-Ending :
      (entity_type : String) (ec : EntityStatement)
      → Ending (λ own. Unit {0}) (own_issuer entity_type ec)
  own_issuer-Ending entity_type ec =
      >>=-Ending
        (require-Ending {Q = λ m. Unit {0}} ec.metadata key_error (λ m same. tt) λ same. cc)
        λ metadata any. returns tt

  pub trawl-Always :
      (fuel : ℕ) (superior subordinate entity_type : String)
      → Sound
      → rank subordinate < fuel
      → Always (λ es. Unit {0}) (trawl now requests fuel superior subordinate entity_type)
  unfolding trawl
  trawl-Always zero superior subordinate entity_type sound below = absurd (omega arith)
  trawl-Always (suc fuel) superior subordinate entity_type sound below =
      >>>-Always (read_subordinate-Always sound superior subordinate) λ ec any.
        >>>-Always (lift-Always (own_issuer-Ending entity_type ec)) λ own any1.
          >>>-Always (lift-Always (list_endpoint-Ending ec)) λ lists any2.
            if-Always lists
              (>>>-Always
                (any_Always (requests.typed subordinate entity_type)
                  (sound.typed_ne subordinate entity_type))
                λ added from.
                  >>>-Always
                    (any_Always (requests.intermediates subordinate)
                      (sound.intermediates_ne subordinate))
                    λ listed (self, names).
                      >>>-Always
                        (given-Always
                          (λ entity_id. trawl now requests fuel subordinate entity_id entity_type)
                          subordinate listed
                          λ entity_id ids same within.
                            trawl-Always fuel subordinate entity_id entity_type sound (
                              let smaller =
                                sound.ranked subordinate entity_id ids self
                                  (names ∙ ap (λ b. ok b) same) within in
                              omega arith))
                        λ found any3.
                          lift-Always {r = ok ((own ++ given_ids added) ++ found)} (returns tt))
              (lift-Always {r = ok own} (returns tt))
