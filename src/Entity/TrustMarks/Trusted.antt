-- ===== src/Entity/TrustMarks/Trusted.antt =====
-- What a verified trust mark of src/fedservice/entity/function/trust_mark_verifier.py is.
use fedservice.Entity.{verified_trust_chains, TrustChain, FederationEntity}
use fedservice.Entity.Verified.{VerifiedFrom, verified_trust_chains-VerifiedFrom}
use fedservice.Entity.TrustMarks.{
  issuer_keys, verify_delegation, check_claims, look_at_delegation, check_issuer,
  trust_mark_verifier, statement_is_expired, verified, check_mark, TrustMark, KeyJar, MarkJose,
}
use fedservice.Verifier.{Jose}
use fedservice.Collect.Web.{Web}
use fedservice.Prelude.{
  ℕ, String, ◌≡◌, refl, inl, inr, true, false, some, List, arith, ◌==◌, Option-cases, ok, require,
  require-eq, continue_with, >>>-eq-ok, if◌then◌else◌, ◌⊎◌, none, Bool, Bool-cases, raised, Result,
  Result-cases, is_empty, any, ◌>>>◌, lift, attribute_error,
}
use fedservice.Prelude.Dict.{keys}
use fedservice.Value.{Value}

module _ (fuel : ℕ) (web : Web) (jose : Jose) (marks : MarkJose) where
  -- The keys for the token in the key jar of the entity verify its signature; where there are none,
  -- the keys that the leaf of the first of the chains adds to that key jar do.
  abbrev pub Signed : String → FederationEntity → List TrustChain → TrustMark → Type 0
  Signed token self chains mark =
      (marks.verify_compact token (jose.verify_keys self.keyjar token) ≡ ok mark)
      ⊎ ((is_empty (jose.verify_keys self.keyjar token) ≡ true)
          × (keyjar : KeyJar) × (issuer_keys fuel web jose marks self.keyjar chains ≡ ok keyjar)
          × (marks.verify_compact token (jose.verify_keys keyjar token) ≡ ok mark))

  -- The state after the look at the delegation: the same, where the trust mark has none.
  abbrev pub Looked : TrustMark → String → FederationEntity → FederationEntity → Type 0
  Looked payload trust_anchor self looked =
      ((payload.delegation ≡ none) × (looked ≡ self))
      ⊎ ((delegation : String) × (payload.delegation ≡ some delegation)
          × (looked
              ≡ (verify_delegation fuel web jose marks payload delegation trust_anchor self).0))

  -- In `looked` the issuer has a verified trust chain to the anchor, and the signature holds in the state
  -- that its verification leaves.
  abbrev pub FromIssuer : String → String → String → FederationEntity → TrustMark → Type 0
  FromIssuer issuer token trust_anchor looked mark =
      (chains : List TrustChain) × (left : FederationEntity) × VerifiedFrom fuel web jose issuer
        looked chains left
      × (any (λ chain. chain.anchor == trust_anchor) chains ≡ true)
      × Signed token left chains mark

  abbrev pub Issued : String → String → FederationEntity → TrustMark → Type 0
  Issued token trust_anchor self mark =
      (payload : TrustMark) × (looked : FederationEntity) × (marks.payload token ≡ some payload)
      × (marks.check payload ≡ ok tt)
      × (statement_is_expired web.now payload.exp ≡ false)
      × Looked payload trust_anchor self looked
      × FromIssuer payload.iss token trust_anchor looked mark

  is_verified :
      (token : String) (keys : List Value) (mark : TrustMark)
      → ok (verified fuel web jose marks token keys) ≡ ok (some mark)
      → marks.verify_compact token keys ≡ ok mark
  is_verified token keys mark here = elim (Result-cases (marks.verify_compact token keys)) [
    | inl (found, got) ↦ ground (arith, got, here)
    | inr (e, fails) ↦ ground (arith, fails, here)
  ]

  added_keys :
      (chains : List TrustChain) (self : FederationEntity) (r : Result KeyJar) (token : String)
      (mark : TrustMark)
      → issuer_keys fuel web jose marks self.keyjar chains ≡ r
      → is_empty (jose.verify_keys self.keyjar token) ≡ true
      → (check_mark fuel web jose marks token chains self).1 ≡ ok (some mark)
      → Signed token self chains mark
  unfolding check_mark
  added_keys chains self (raised e) token mark adds nothing run = ground (arith, run, nothing, adds)
  added_keys chains self (ok keyjar) token mark adds nothing run = inr (
    nothing,
    keyjar,
    adds,
    is_verified token (jose.verify_keys keyjar token) mark (ground (arith, run, nothing, adds)),
  )

  check_mark-Signed :
      (token : String) (chains : List TrustChain) (self : FederationEntity) (mark : TrustMark)
      → (check_mark fuel web jose marks token chains self).1 ≡ ok (some mark)
      → Signed token self chains mark
  unfolding check_mark
  check_mark-Signed token chains self mark run =
      elim (Bool-cases (is_empty (jose.verify_keys self.keyjar token))) [
        | inl nothing ↦
            added_keys chains self (issuer_keys fuel web jose marks self.keyjar chains) token mark
              refl nothing run
        | inr some_key ↦ inl (
            is_verified token (jose.verify_keys self.keyjar token) mark
              (ground (arith, run, some_key)))
      ]

  check_issuer-FromIssuer :
      (payload : TrustMark) (token trust_anchor : String) (looked : FederationEntity)
      (mark : TrustMark)
      → (check_issuer fuel web jose marks payload token trust_anchor looked).1 ≡ ok (some mark)
      → FromIssuer payload.iss token trust_anchor looked mark
  unfolding check_issuer
  check_issuer-FromIssuer payload token trust_anchor looked mark run =
      let (chains, got, rest) =
        >>>-eq-ok (verified_trust_chains fuel web jose payload.iss)
          (λ chains.
            if any (λ chain. chain.anchor == trust_anchor) chains
            then check_mark fuel web jose marks token chains
            else lift (ok none))
          looked run in
      let left = (verified_trust_chains fuel web jose payload.iss looked).0 in
      elim (Bool-cases (any (λ chain. chain.anchor == trust_anchor) chains)) [
        | inl leads ↦ (
          chains,
          left,
          verified_trust_chains-VerifiedFrom fuel web jose payload.iss looked chains got,
          leads,
          check_mark-Signed token chains left mark (ground (arith, rest, leads)),
        )
        | inr nowhere ↦ ground (arith, rest, nowhere)
      ]

  left_by :
      (at : FederationEntity × Result Bool)
      → (continue_with (λ delegated. lift {S = FederationEntity} (ok (tt {0}))) at).0 ≡ at.0
  left_by (self, ok delegated) = refl
  left_by (self, raised e) = refl

  look_at_delegation-Looked :
      (payload : TrustMark) (trust_anchor : String) (self : FederationEntity)
      → Looked payload trust_anchor self
          (look_at_delegation fuel web jose marks payload trust_anchor self).0
  unfolding look_at_delegation
  look_at_delegation-Looked payload trust_anchor self = elim (Option-cases payload.delegation) [
    | inl none_stated ↦ inl (none_stated, rw none_stated refl)
    | inr (token, stated) ↦ inr (
      token,
      stated,
      rw stated (left_by (verify_delegation fuel web jose marks payload token trust_anchor self)),
    )
  ]

  -- The trust mark that the verifier returns is checked against the state that it is asked in: the
  -- payload of the token passes its check and has not expired; with the keys and the collector of the
  -- entity, after the look at a delegation where there is one, the issuer has a verified trust chain to
  -- the trust anchor; and keys in the key jar that this leaves verify the signature of the token or, where it
  -- has none for the token, keys in it once those of the leaf of the issuer's first chain are added.
  pub trust_mark_verifier-Issued :
      (token trust_anchor : String) (self : FederationEntity) (mark : TrustMark)
      → (trust_mark_verifier fuel web jose marks token trust_anchor self).1 ≡ ok (some mark)
      → Issued token trust_anchor self mark
  unfolding trust_mark_verifier check_claims
  trust_mark_verifier-Issued token trust_anchor self mark run =
      let (payload, said, run1) =
        >>>-eq-ok (lift (require (marks.payload token) attribute_error))
          (λ payload. lift (marks.check payload) >>> λ checked.
            check_claims fuel web jose marks token trust_anchor payload)
          self run in
      let (checked, passes, run2) =
        >>>-eq-ok (lift (marks.check payload))
          (λ checked. check_claims fuel web jose marks token trust_anchor payload) self run1 in
      elim (Bool-cases (statement_is_expired web.now payload.exp)) [
        | inl old ↦ ground (arith, run2, old)
        | inr fresh ↦
            let (looks, done, rest) =
              >>>-eq-ok (look_at_delegation fuel web jose marks payload trust_anchor)
                (λ looked. check_issuer fuel web jose marks payload token trust_anchor) self
                (ground (arith, run2, fresh)) in
            let looked = (look_at_delegation fuel web jose marks payload trust_anchor self).0 in
            (
              payload,
              looked,
              require-eq (marks.payload token) attribute_error said,
              cc,
              fresh,
              look_at_delegation-Looked payload trust_anchor self,
              check_issuer-FromIssuer payload token trust_anchor looked mark rest,
            )
      ]
