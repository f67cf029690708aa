-- ===== src/Collect/Path.antt =====
-- `get_chain` of src/fedservice/entity/function/trust_chain_collector.py: the signed statements of a chain,
-- read back from the caches.
use fedservice.Collect.Web.{cache_key}
use fedservice.Statement.{EntityStatement}
use fedservice.Collect.Run.{read_config, signed, TrustChainCollector, read_item, Item, Run}
use fedservice.Prelude.{
  ℕ, ◌+◌, String, ◌≡◌, Bool, true, false, Option, some, List, [], ◌∷◌, ◌++◌, arith, if◌then◌else◌,
  Result, ok, raised, ◌>>=◌, require, length, ◌>>>◌, lift, Gives, given_by, >>>-Gives, lift-Gives,
  any_Gives, length-append, key_error, type_error, index_error,
}
use fedservice.Prelude.Int.{ℤ}

-- `self.config_cache[entity]['_jws']`
abbrev pub jws_of : Option EntityStatement → Result Item
jws_of config =
    require config type_error >>= λ ec. require ec.jws key_error >>= λ token. ok (signed token)

unfoldable pub read_jws : ℤ → String → Run Item
read_jws now entity = read_config now entity >>> λ config. lift (jws_of config)

-- The loop over the path: what is missing or has timed out is `None`.
unfoldable pub read_statements : ℤ → List String → Run (List (Option Item))
read_statements now [] = lift (ok [])
read_statements now (entity ∷ []) = lift (ok [])
read_statements now (entity ∷ authority ∷ iss_path) =
    read_item now (cache_key authority entity) >>> λ statement.
    read_statements now (authority ∷ iss_path) >>> λ rest. lift (ok (statement ∷ rest))

abbrev pub read_anchor : ℤ → String → Bool → Run (List (Option Item))
read_anchor now trust_anchor with_ta_ec =
    if with_ta_ec
    then (read_jws now trust_anchor >>> λ token. lift (ok (some token ∷ [])))
    else lift (ok [])

unfoldable pub get_chain : ℤ → List String → String → Bool → Run (List (Option Item))
unfolding read_jws read_statements
get_chain now [] trust_anchor with_ta_ec = lift (raised index_error)
get_chain now (leaf ∷ iss_path) trust_anchor with_ta_ec = read_jws now leaf >>> λ token.
    read_statements now (leaf ∷ iss_path) >>> λ statements.
    read_anchor now trust_anchor with_ta_ec >>> λ anchor.
    lift (ok (some token ∷ (statements ++ anchor)))

-- The length of what is returned
abbrev Long : ℕ → List (Option Item) → Type 0
Long n items = length items ≡ n

read_statements-Long :
    (now : ℤ) (entity : String) (iss_path : List String)
    → Gives (Long (length iss_path)) (read_statements now (entity ∷ iss_path))
unfolding read_statements
read_statements-Long now entity [] = lift-Gives (ok []) λ items here. ground arith
read_statements-Long now entity (authority ∷ iss_path) =
    >>>-Gives
      {f = λ statement.
        read_statements now (authority ∷ iss_path) >>> λ rest. lift (ok (statement ∷ rest))}
      (any_Gives (read_item now (cache_key authority entity)))
      λ statement o.
        >>>-Gives {f = λ rest. lift (ok (statement ∷ rest))}
          (read_statements-Long now authority iss_path)
          λ rest long. lift-Gives (ok (statement ∷ rest)) λ items here. ground arith

read_anchor-Long :
    (now : ℤ) (trust_anchor : String) (with_ta_ec : Bool)
    → Gives (Long (if with_ta_ec then 1 else 0)) (read_anchor now trust_anchor with_ta_ec)
read_anchor-Long now trust_anchor false = lift-Gives (ok []) λ items here. ground arith
read_anchor-Long now trust_anchor true =
    >>>-Gives {f = λ token. lift (ok (some token ∷ []))} (any_Gives (read_jws now trust_anchor))
      λ token o. lift-Gives (ok (some token ∷ [])) λ items here. ground arith

get_chain-Long :
    (now : ℤ) (iss_path : List String) (trust_anchor : String) (with_ta_ec : Bool)
    → Gives
        (Long (length iss_path + (if with_ta_ec then 1 else 0)))
        (get_chain now iss_path trust_anchor with_ta_ec)
unfolding get_chain
get_chain-Long now [] trust_anchor with_ta_ec = lift-Gives (raised index_error) λ items here. cc
get_chain-Long now (leaf ∷ iss_path) trust_anchor with_ta_ec =
    >>>-Gives
      {f = λ token. read_statements now (leaf ∷ iss_path) >>> λ statements.
        read_anchor now trust_anchor with_ta_ec >>> λ anchor.
        lift (ok (some token ∷ (statements ++ anchor)))}
      (any_Gives (read_jws now leaf))
      λ token o.
        >>>-Gives
          {f = λ statements. read_anchor now trust_anchor with_ta_ec >>> λ anchor.
            lift (ok (some token ∷ (statements ++ anchor)))}
          (read_statements-Long now leaf iss_path)
          λ statements long.
            >>>-Gives {f = λ anchor. lift (ok (some token ∷ (statements ++ anchor)))}
              (read_anchor-Long now trust_anchor with_ta_ec)
              λ anchor short.
                lift-Gives (ok (some token ∷ (statements ++ anchor)))
                  λ items here. ground (arith, long, short, here, length-append statements anchor)

-- What `get_chain` returns has one entry for each entity of the path, and one more where the
-- configuration of the trust anchor is asked for.
pub length-get_chain :
    (now : ℤ) (iss_path : List String) (trust_anchor : String) (with_ta_ec : Bool)
    (self : TrustChainCollector) (items : List (Option Item))
    → (get_chain now iss_path trust_anchor with_ta_ec self).1 ≡ ok items
    → length items ≡ length iss_path + (if with_ta_ec then 1 else 0)
length-get_chain now iss_path trust_anchor with_ta_ec self items run =
    given_by (get_chain-Long now iss_path trust_anchor with_ta_ec) self items run
