-- ===== src/Verifier/Verified.antt =====
-- What a verified trust chain has passed, and where the keys that are left in the key jar come from:
-- src/fedservice/entity/function/verifier.py.
use fedservice.Statement.{TrustChain, EntityStatement}
use fedservice.Verifier.{
  restricted, meets_restrictions, trusted_anchor, new_trust_chain, verify_trust_chain, verify, Jose,
  verify_statements, take_keys, known_key, add_keys, KeyJar,
}
use fedservice.Prelude.{
  missing_key, ℕ, String, ◌≡◌, refl, ap, ◌∙◌, ◌⊎◌, inl, inr, Bool, true, false, not, ◌&&◌, ◌||◌,
  Option, none, some, List, [], ◌∷◌, ◌++◌, arith, if◌then◌else◌, ◌==◌, Bool-cases, Option-cases,
  Result, ok, guard, >>=-eq-ok, Result-cases, length, is_empty, filter, any,
}
use fedservice.Prelude.Dict.{lookup, keys, lookup-insert}
use fedservice.Value.{Value, value_eq}

abbrev pub keys_of : String → KeyJar → List Value
keys_of issuer keyjar = elim (lookup issuer keyjar) [ none ↦ [] | some keys ↦ keys ]

-- The statement gives the key to the issuer.
abbrev pub gives : String → Value → EntityStatement → Bool
gives issuer key es =
    es.sub == issuer && elim es.jwks [ none ↦ false | some keys ↦ known_key key keys ]

any-append : (p : Value → Bool) (xs ys : List Value) → any p (xs ++ ys) ≡ (any p xs || any p ys)
any-append p [] ys = refl
any-append p (x ∷ xs) ys = ground (arith, any-append p xs ys)

any-filter : (p q : Value → Bool) (xs : List Value) → any p (filter q xs) ≡ true → any p xs ≡ true
any-filter p q [] h = h
any-filter p q (x ∷ xs) h = elim (Bool-cases (q x)) [
  | inl kept ↦ ground (arith, any-filter p q xs)
  | inr dropped ↦ ground (arith, any-filter p q xs)
]

any_last :
    (p : EntityStatement → Bool) (xs : List EntityStatement) (x : EntityStatement)
    → any p (xs ++ (x ∷ [])) ≡ (any p xs || p x)
any_last p [] x = ground arith
any_last p (y ∷ xs) x = ground (arith, any_last p xs x)

-- A key that is there after `add_keys` was there, or was added.
known-add_keys :
    (issuer : String) (key : Value) (keyjar : KeyJar) (sub : String) (keys : List Value)
    → known_key key (keys_of issuer (add_keys keyjar sub keys)) ≡ true
    → (known_key key (keys_of issuer keyjar) || (sub == issuer && known_key key keys)) ≡ true
unfolding add_keys
known-add_keys issuer key keyjar sub keys h = elim (Option-cases (lookup sub keyjar)) [
  | inl none_such ↦ ground (arith, lookup-insert issuer sub keys keyjar)
  | inr (old, here) ↦
      let new = filter (λ k. not (known_key k old)) keys in
      ground (
        arith,
        lookup-insert issuer sub (old ++ new) keyjar,
        any-append (λ k. value_eq key k) old new,
        any-filter (λ k. value_eq key k) (λ k. not (known_key k old)) keys,
      )
]

known-take_keys :
    (issuer : String) (key : Value) (n seen : ℕ) (res : EntityStatement) (keyjar : KeyJar)
    {keyjar' : KeyJar}
    → take_keys n seen res keyjar ≡ ok keyjar'
    → known_key key (keys_of issuer keyjar') ≡ true
    → (known_key key (keys_of issuer keyjar) || gives issuer key res) ≡ true
known-take_keys issuer key n seen res keyjar taken h = elim (Option-cases res.jwks) [
  | inl none_such ↦ ground arith
  | inr (keys, here) ↦ ground (arith, known-add_keys issuer key keyjar res.sub keys)
]

either {ℓ} :
    {A : Type ℓ} (o : Option EntityStatement) (x y : A) {r : A}
    → elim o [ none ↦ x | some payload ↦ y ] ≡ r
    → (x ≡ r) ⊎ (y ≡ r)
either none x y h = inl h
either (some payload) x y h = inr h

-- A statement is skipped, or verified and its keys are taken.
verified_step :
    (jose : Jose) (n : ℕ) (s : String) (statements : List String) (keyjar : KeyJar)
    (ves : List EntityStatement) {r : KeyJar × List EntityStatement}
    → verify_statements jose n (s ∷ statements) keyjar ves ≡ ok r
    → (verify_statements jose n statements keyjar ves ≡ ok r)
      ⊎ ((res : EntityStatement) × (keyjar' : KeyJar) × (take_keys n (length ves) res keyjar
            ≡ ok keyjar')
          × (verify_statements jose n statements keyjar' (ves ++ (res ∷ [])) ≡ ok r))
unfolding verify_statements
verified_step jose n s statements keyjar ves h = elim (either (jose.factory s) _ _ h) [
  | inl skipped ↦ inl skipped
  | inr taken ↦
      let (u, found, verified) =
        >>=-eq-ok (guard (not (is_empty (jose.verify_keys keyjar s))) missing_key) _ taken in
      let (res, signed, later) =
        >>=-eq-ok (jose.verify_compact s (jose.verify_keys keyjar s)) _ verified in
      let (keyjar', added, rest) = >>=-eq-ok (take_keys n (length ves) res keyjar) _ later in
      inr (res, keyjar', added, rest)
]

verified_none :
    (jose : Jose) (n : ℕ) (keyjar : KeyJar) (ves : List EntityStatement) {keyjar' : KeyJar}
    {ves' : List EntityStatement}
    → verify_statements jose n [] keyjar ves ≡ ok (keyjar', ves')
    → (keyjar ≡ keyjar') × (ves ≡ ves')
unfolding verify_statements
verified_none jose n keyjar ves h = (cc, cc)

-- What was verified before stays among the verified statements.
kept_verified :
    (p : EntityStatement → Bool) (jose : Jose) (n : ℕ) (statements : List String) (keyjar : KeyJar)
    (ves : List EntityStatement) {keyjar' : KeyJar} {ves' : List EntityStatement}
    → verify_statements jose n statements keyjar ves ≡ ok (keyjar', ves')
    → any p ves ≡ true
    → any p ves' ≡ true
kept_verified p jose n [] keyjar ves h before =
    let (same, unchanged) = verified_none jose n keyjar ves h in cc (unchanged, before)
kept_verified p jose n (s ∷ statements) keyjar ves h before =
    elim (verified_step jose n s statements keyjar ves h) [
      | inl skipped ↦ kept_verified p jose n statements keyjar ves skipped before
      | inr (res, keyjar'', added, rest) ↦
          kept_verified p jose n statements keyjar'' (ves ++ (res ∷ [])) rest
            (ground (arith, any_last p ves res))
    ]

known_after :
    (issuer : String) (key : Value) (jose : Jose) (n : ℕ) (statements : List String)
    (keyjar : KeyJar) (ves : List EntityStatement) {keyjar' : KeyJar} {ves' : List EntityStatement}
    → verify_statements jose n statements keyjar ves ≡ ok (keyjar', ves')
    → known_key key (keys_of issuer keyjar') ≡ true
    → (known_key key (keys_of issuer keyjar) || any (gives issuer key) ves') ≡ true
known_after issuer key jose n [] keyjar ves h known =
    let (same, unchanged) = verified_none jose n keyjar ves h in ground arith
known_after issuer key jose n (s ∷ statements) keyjar ves h known =
    elim (verified_step jose n s statements keyjar ves h) [
      | inl skipped ↦ known_after issuer key jose n statements keyjar ves skipped known
      | inr (res, keyjar'', added, rest) ↦ ground (
        arith,
        known_after issuer key jose n statements keyjar'' (ves ++ (res ∷ [])) rest known,
        known-take_keys issuer key n (length ves) res keyjar added,
        kept_verified (gives issuer key) jose n statements keyjar'' (ves ++ (res ∷ [])) rest,
        any_last (gives issuer key) ves res,
      )
    ]

restricted_some :
    (keyjar : KeyJar) (ves : List EntityStatement) {keyjar' : KeyJar} {ves' : List EntityStatement}
    → restricted keyjar ves ≡ ok (keyjar', ves')
    → is_empty ves' ≡ false
    → (keyjar ≡ keyjar') × (ves ≡ ves') × (meets_restrictions ves' ≡ ok true)
restricted_some keyjar [] h some_left = ground arith
restricted_some keyjar (es ∷ ves) h some_left =
    elim (Result-cases (meets_restrictions (es ∷ ves))) [
      | inl (true, met) ↦ (ground arith, ground arith, ground arith)
      | inl (false, broken) ↦ ground arith
      | inr (e, raises) ↦ ground arith
    ]

passed :
    (trusted : Bool) (run : Result (KeyJar × List EntityStatement)) (keyjar : KeyJar)
    {keyjar' : KeyJar} {ves' : List EntityStatement}
    → (if trusted then run else ok (keyjar, [])) ≡ ok (keyjar', ves')
    → is_empty ves' ≡ false
    → (trusted ≡ true) × (run ≡ ok (keyjar', ves'))
passed true run keyjar h some_left = (refl, h)
passed false run keyjar h some_left = ground arith

-- What `verify_trust_chain` has passed when it returns statements.
accepted :
    (jose : Jose) (keyjar : KeyJar) (first : String) (statements : List String) {keyjar' : KeyJar}
    {ves' : List EntityStatement}
    → verify_trust_chain jose keyjar (first ∷ statements) ≡ ok (keyjar', ves')
    → is_empty ves' ≡ false
    → (trusted_anchor jose keyjar first ≡ ok true)
      × (verify_statements jose (length statements) (first ∷ statements) keyjar []
          ≡ ok (keyjar', ves'))
      × (meets_restrictions ves' ≡ ok true)
unfolding verify_trust_chain
accepted jose keyjar first statements {keyjar' = keyjar'} {ves' = ves'} h some_left =
    let (trusted, anchored, going) = >>=-eq-ok (trusted_anchor jose keyjar first) _ h in
    let (is_trusted, run) = passed trusted _ keyjar going some_left in
    let (at, verified, limited) =
      >>=-eq-ok (verify_statements jose (length statements) (first ∷ statements) keyjar []) _ run in
    let (same, unchanged, met) = restricted_some at.0 at.1 limited some_left in
    (
      cc (anchored, is_trusted),
      verified ∙ ap (λ kj. ok (kj, at.1)) same ∙ ap (λ v. ok (keyjar', v)) unchanged,
      met,
    )

abbrev result_of : List String → KeyJar × List EntityStatement → Result (KeyJar × Option TrustChain)
result_of chain at =
    ok (at.0, elim at.1 [ [] ↦ none | first ∷ rest ↦ some (new_trust_chain chain first rest) ])

abbrev chain_of : Result (KeyJar × Option TrustChain) → List EntityStatement
chain_of (ok (keyjar, some trust_chain)) = trust_chain.verified_chain
chain_of _ = []

made_from :
    (chain : List String) (at : KeyJar × List EntityStatement) {keyjar' : KeyJar}
    {trust_chain : TrustChain}
    → result_of chain at ≡ ok (keyjar', some trust_chain)
    → (at.0 ≡ keyjar') × (at.1 ≡ trust_chain.verified_chain) × (is_empty at.1 ≡ false)
unfolding new_trust_chain
made_from chain (keyjar, []) made = ground arith
made_from chain (keyjar, first ∷ rest) made = (cc, ap chain_of made, refl)

-- A chain of statements that the verifier accepts starts with a statement of an issuer that the
-- key jar knew before, its verified statements keep their constraints, and every key that the
-- key jar holds for an issuer afterwards was there before, or one of these statements about that
-- issuer gives it.
pub verify-eq-some :
    (jose : Jose) (keyjar : KeyJar) (first : String) (statements : List String) (issuer : String)
    (key : Value) {keyjar' : KeyJar} {trust_chain : TrustChain}
    → verify jose keyjar (first ∷ statements) ≡ ok (keyjar', some trust_chain)
    → (trusted_anchor jose keyjar first ≡ ok true)
      × (meets_restrictions trust_chain.verified_chain ≡ ok true)
      × (known_key key (keys_of issuer keyjar') ≡ true
          → (known_key key (keys_of issuer keyjar)
              || any (gives issuer key) trust_chain.verified_chain)
            ≡ true)
unfolding verify verify_trust_chain new_trust_chain
verify-eq-some jose keyjar first statements issuer key h =
    let (at, verified, made) =
      >>=-eq-ok (verify_trust_chain jose keyjar (first ∷ statements)) _ h in
    let (same, unchanged, some_left) = made_from (first ∷ statements) at made in
    let (anchored, run, met) = accepted jose keyjar first statements verified some_left in
    (
      anchored,
      cc (met, unchanged),
      λ known. ground (
        arith,
        same,
        unchanged,
        known_after issuer key jose (length statements) (first ∷ statements) keyjar [] run,
      ),
    )
