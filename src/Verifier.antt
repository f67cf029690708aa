-- ===== src/Verifier.antt =====
-- `TrustChainVerifier` of src/fedservice/entity/function/verifier.py. An exception ends the run: the keys
-- that were added before it are not followed further.
use fedservice.Constraints.{meets_restrictions}
use fedservice.Statement.{by_type, EntityStatement, TrustChain}
pub mod Expiry
pub mod Verified
use fedservice.Prelude.{
  missing_key, value_error, index_error, attribute_error, ℕ, ◌+◌, String, Bool, not, Option, none,
  some, List, [], ◌∷◌, ◌++◌, map, reverse, eqb, if◌then◌else◌, Result, ok, raised, ◌>>=◌, ◌>>◌,
  guard, require, length, is_empty, filter, any,
}
use fedservice.Prelude.Dict.{Dict, lookup, has_key, insert, keys}
use fedservice.Prelude.Int.{ℤ, pos, negsuc, ltb_ℤ, leb_ℤ}
use fedservice.Value.{Value, value_eq}

-- The key jar: the keys of each issuer. The key jar of the federation entity and the one that
-- the `upstream_get` of the verifier gives are one object.
abbrev pub KeyJar : Type 0
KeyJar = Dict (List Value)

-- The JWS code of cryptojwt: `factory` is the payload of a JWS, `verify_keys` is
-- `get_jwt_verify_keys`, `verify_compact` the payload, if one of the keys verifies the signature.
pub record Jose : Type 0 where
  pub factory : String → Option EntityStatement
  pub verify_keys : KeyJar → String → List Value
  pub verify_compact : String → List Value → Result EntityStatement

abbrev pub trusted_anchor : Jose → KeyJar → String → Result Bool
trusted_anchor jose keyjar entity_statement =
    require (jose.factory entity_statement) attribute_error >>= λ payload.
    ok (has_key payload.iss keyjar)

abbrev pub known_key : Value → List Value → Bool
known_key key keys = any (λ k. value_eq key k) keys

-- The keys of a verified statement go to its subject's, the ones that are not there already.
unfoldable pub add_keys : KeyJar → String → List Value → KeyJar
add_keys keyjar sub keys = elim (lookup sub keyjar) [
  | none ↦ insert sub keys keyjar
  | some old ↦ insert sub (old ++ filter (λ k. not (known_key k old)) keys) keyjar
]

-- The keys of `res`, the statement after `seen` others of a chain whose last has the index `n`.
abbrev take_keys : ℕ → ℕ → EntityStatement → KeyJar → Result KeyJar
take_keys n seen res keyjar = elim res.jwks [
  | none ↦ if eqb seen n then ok keyjar else raised value_error
  | some keys ↦ ok (add_keys keyjar res.sub keys)
]

-- The loop over the statements: `ves` are those verified before.
unfoldable pub verify_statements :
    Jose → ℕ → List String → KeyJar → List EntityStatement → Result (KeyJar × List EntityStatement)
unfolding add_keys
verify_statements jose n [] keyjar ves = ok (keyjar, ves)
verify_statements jose n (entity_statement ∷ statements) keyjar ves =
    let skipped = verify_statements jose n statements keyjar ves in
    elim (jose.factory entity_statement) [
      | none ↦ skipped
      | some payload ↦
          guard (not (is_empty (jose.verify_keys keyjar entity_statement))) missing_key
          >> (jose.verify_compact entity_statement (jose.verify_keys keyjar entity_statement)
              >>= λ res. take_keys n (length ves) res keyjar >>= λ keyjar'.
                  verify_statements jose n statements keyjar' (ves ++ (res ∷ [])))
    ]

-- The verified statements, if the chain keeps its constraints.
abbrev restricted : KeyJar → List EntityStatement → Result (KeyJar × List EntityStatement)
restricted keyjar [] = ok (keyjar, [])
restricted keyjar (es ∷ ves) =
    meets_restrictions (es ∷ ves) >>= λ met. ok (keyjar, if met then es ∷ ves else [])

unfoldable pub verify_trust_chain :
    Jose → KeyJar → List String → Result (KeyJar × List EntityStatement)
unfolding verify_statements
verify_trust_chain jose keyjar [] = raised index_error
verify_trust_chain jose keyjar (first ∷ statements) =
    trusted_anchor jose keyjar first >>= λ trusted.
    if trusted
    then (verify_statements jose (length statements) (first ∷ statements) keyjar [] >>= λ run.
        restricted run.0 run.1)
    else ok (keyjar, [])

-- The loop of `trust_chain_expires_at`, from `exp` on.
unfoldable pub expires_from : ℤ → List EntityStatement → ℤ
expires_from exp [] = exp
expires_from exp (es ∷ trust_chain) =
    expires_from (if leb_ℤ (pos 0) exp then (if ltb_ℤ es.exp exp then es.exp else exp) else es.exp)
      trust_chain

unfoldable pub trust_chain_expires_at : List EntityStatement → ℤ
unfolding expires_from
trust_chain_expires_at trust_chain = expires_from (negsuc 0) trust_chain

-- The `TrustChain` of a verified chain.
unfoldable pub new_trust_chain : List String → EntityStatement → List EntityStatement → TrustChain
unfolding trust_chain_expires_at
new_trust_chain chain first rest = record {
  anchor = first.iss;
  iss_path = reverse (map (λ es. es.iss) (first ∷ rest));
  chain = chain;
  exp = trust_chain_expires_at (first ∷ rest);
  verified_chain = first ∷ rest;
  metadata = by_type [];
  combined_policy = [];
}

-- `__call__`
unfoldable pub verify : Jose → KeyJar → List String → Result (KeyJar × Option TrustChain)
unfolding verify_trust_chain new_trust_chain
verify jose keyjar chain = verify_trust_chain jose keyjar chain >>= λ run.
    ok (run.0, elim run.1 [ [] ↦ none | first ∷ rest ↦ some (new_trust_chain chain first rest) ])
