-- ===== src/Entity/TrustMarks/Delegated.antt =====
-- The delegation of a trust mark in src/fedservice/entity/function/trust_mark_verifier.py.
use fedservice.Entity.{FederationEntity, Act}
use fedservice.Cache.{recent, get_item}
use fedservice.Entity.TrustMarks.{
  check_owner, check_mark, check_claims, check_issuer, verify_delegation, statement_is_expired,
  EntityStatement, TrustMark, look_at_delegation, cached_configuration, get_metadata,
  trust_mark_verifier, MarkJose,
}
use fedservice.Verifier.{Jose}
use fedservice.Collect.Web.{Web}
use fedservice.Value.{Value}
use fedservice.Prelude.{
  List, >>>-eq-ok, continue_with, ◌>>>◌, lift, require, require-eq, attribute_error, key_error,
  ◌>>=◌, Result, Option, none, ap, ◌∙◌, sym, refl, inl, inr, Option-cases, Bool-cases,
  if◌then◌else◌, ℕ, String, ◌≡◌, Bool, false, some, arith, ok, raised, type_error,
}
use fedservice.Prelude.Dict.{has_key-eq-lookup, lookup}

after {ℓ} :
    {A : Type ℓ} {B : Type 0} (m : Act A) (next : A → Act B) (self : FederationEntity) (a : A)
    → (m self).1 ≡ ok a
    → (m >>> next) self ≡ next a (m self).0
after m next self a run = ap (λ r. continue_with next ((m self).0, r)) run

module _ (fuel : ℕ) (web : Web) (jose : Jose) where
  -- The state that the look at a delegation leaves, whatever the verification of the delegation says
  abbrev left_by_look : TrustMark → String → FederationEntity → FederationEntity
  left_by_look mark trust_anchor self = elim mark.delegation [
    | none ↦ self
    | some token ↦ (get_metadata fuel web jose trust_anchor self).0
  ]

  lifted :
      {B : Type 0} (g : B → Result (Unit {0})) (self : FederationEntity) (r : Result B)
      → (continue_with (λ b. lift (g b)) (self, r)).0 ≡ self
  lifted g self (ok b) = refl
  lifted g self (raised e) = refl

  same_left :
      {A B : Type 0} (f : A → Result B) (g : B → Result (Unit {0}))
      (at : FederationEntity × Result A)
      → (continue_with (λ b. lift (g b)) (continue_with (λ a. lift (f a)) at)).0 ≡ at.0
  same_left f g (self, raised e) = refl
  same_left f g (self, ok a) = lifted g self (f a)

  look_at_delegation-left :
      (marks : MarkJose) (mark : TrustMark) (trust_anchor : String) (self : FederationEntity)
      → (look_at_delegation fuel web jose marks mark trust_anchor self).0
        ≡ left_by_look mark trust_anchor self
  unfolding look_at_delegation verify_delegation
  look_at_delegation-left marks mark trust_anchor self = elim (Option-cases mark.delegation) [
    | inl none_stated ↦ rw none_stated refl
    | inr (token, stated) ↦ rw stated (
        same_left
          (λ metadata. require (lookup "federation_entity" metadata) key_error >>= λ claims.
            check_owner fuel web jose marks claims mark.id token)
          (λ delegated. ok tt) (get_metadata fuel web jose trust_anchor self))
  ]

  -- A run that returns, described without the verification of the delegation
  Verdict :
      MarkJose
      → String
      → String
      → FederationEntity
      → FederationEntity × Result (Option TrustMark)
      → Type 0
  Verdict marks token trust_anchor self at =
      (mark : TrustMark) × (marks.payload token ≡ some mark)
      × (at ≡ (
          if statement_is_expired web.now mark.exp
          then (self, ok none)
          else check_issuer fuel web jose marks mark token trust_anchor
              (left_by_look mark trust_anchor self)))

  verdict :
      (marks : MarkJose) (token trust_anchor : String) (self : FederationEntity)
      (found : Option TrustMark)
      → (trust_mark_verifier fuel web jose marks token trust_anchor self).1 ≡ ok found
      → Verdict marks token trust_anchor self
          (trust_mark_verifier fuel web jose marks token trust_anchor self)
  unfolding trust_mark_verifier check_claims Verdict
  verdict marks token trust_anchor self found run =
      let (mark, said, run1) =
        >>>-eq-ok (lift (require (marks.payload token) attribute_error))
          (λ mark. lift (marks.check mark) >>> λ checked.
            check_claims fuel web jose marks token trust_anchor mark)
          self run in
      let (checked, passes, run2) =
        >>>-eq-ok (lift (marks.check mark))
          (λ checked. check_claims fuel web jose marks token trust_anchor mark) self run1 in
      let names = require-eq (marks.payload token) attribute_error said in
      elim (Bool-cases (statement_is_expired web.now mark.exp)) [
        | inl old ↦ (mark, names, ground (arith, names, passes, old))
        | inr fresh ↦
            let (looks, done, rest) =
              >>>-eq-ok (look_at_delegation fuel web jose marks mark trust_anchor)
                (λ looked. check_issuer fuel web jose marks mark token trust_anchor) self
                {b = found} (ground (arith, run2, fresh)) in
            (
              mark,
              names,
              ground (
                arith,
                names,
                passes,
                fresh,
                after (look_at_delegation fuel web jose marks mark trust_anchor)
                    (λ looked. check_issuer fuel web jose marks mark token trust_anchor) self looks
                    done,
                look_at_delegation-left marks mark trust_anchor self,
              ),
            )
      ]

  -- What the verification of the delegation of a trust mark says makes no difference: two verifiers that
  -- differ in nothing but the check of the delegation's signature, and both return, return the same and
  -- leave the same state, also where one check holds and the other does not.
  pub delegation_ignored :
      (marks : MarkJose) (other : String → Option (List Value → Result Bool))
      (token trust_anchor : String) (self : FederationEntity) (found found' : Option TrustMark)
      → (trust_mark_verifier fuel web jose marks token trust_anchor self).1 ≡ ok found
      → (trust_mark_verifier fuel web jose
          (record marks { delegation = other })
          token
          trust_anchor
          self).1
        ≡ ok found'
      → trust_mark_verifier fuel web jose marks token trust_anchor self
        ≡ trust_mark_verifier fuel web jose
            (record marks { delegation = other })
            token
            trust_anchor
            self
  unfolding Verdict check_issuer check_mark
  delegation_ignored marks other token trust_anchor self found found' run run' =
      let (mark, says, is_verdict) = verdict marks token trust_anchor self found run in
      let (mark', says', is_verdict') =
        verdict (record marks { delegation = other }) token trust_anchor self found' run' in
      let same : mark' ≡ mark = cc in
      let outcome : TrustMark → FederationEntity × Result (Option TrustMark) = λ m.
        if statement_is_expired web.now m.exp
        then (self, ok none)
        else check_issuer fuel web jose marks m token trust_anchor
            (left_by_look m trust_anchor self) in
      is_verdict ∙ sym (is_verdict' ∙ ap outcome same)

module _ (fuel : ℕ) (web : Web) (jose : Jose) (marks : MarkJose) where
  -- Where the configuration of an entity is in the cache and has timed out, `get_metadata` raises a
  -- TypeError and collects nothing.
  pub get_metadata-timed_out :
      (entity_id : String) (self : FederationEntity) (config : EntityStatement)
      → lookup entity_id self.collector.config_cache.db ≡ some config
      → recent (λ es. some es.exp) web.now self.collector.config_cache.allowed_delta config ≡ false
      → (get_metadata fuel web jose entity_id self).1 ≡ raised type_error
  unfolding get_metadata cached_configuration get_item
  get_metadata-timed_out entity_id self config here old =
      ground (arith, here, old, has_key-eq-lookup entity_id self.collector.config_cache.db)
