-- ===== src/Entity/TrustMarks.antt =====
-- The verification of a trust mark: `TrustMarkVerifier` of
-- src/fedservice/entity/function/trust_mark_verifier.py, `get_metadata` of
-- src/fedservice/entity/function/trust_chain_collector.py that it calls, and `verify_trust_mark` of
-- src/fedservice/entity/__init__.py.
use fedservice.Chains.{collect_trust_chains, apply_policies, verify_trust_chains}
use fedservice.Policy.Combine.{Metadata}
use fedservice.Cache.{contains}
use fedservice.Entity.{metadata_for, TrustChain, verified_trust_chains, get_trust_chains, atom, Act}
use fedservice.Verifier.{Jose, KeyJar}
use fedservice.Collect.Web.{Web}
use fedservice.Collect.Run.{read_config, Run}
use fedservice.Statement.{EntityStatement}
pub mod Delegated
pub mod Trusted
use fedservice.Prelude.{
  ℕ, String, Bool, true, false, not, Option, none, some, List, [], ◌∷◌, if◌then◌else◌, ◌==◌, Result,
  ok, raised, ◌>>=◌, ◌>>◌, require, get_elem?, get_last?, is_empty, any, ◌>>>◌, lift, key_error,
  type_error, attribute_error, index_error,
}
use fedservice.Prelude.Dict.{Dict, lookup, keys}
use fedservice.Prelude.Int.{ℤ, ltb_ℤ}
use fedservice.Value.{
  of_elements, bool, contained, array, subscript, of_entries, object, Value, text, value_eq,
}

-- The payload of a trust mark, with the claims that are read.
pub record TrustMark : Type 0 where
  pub iss : String
  pub sub : String
  pub id : String
  pub exp : Option ℤ
  pub delegation : Option String

-- The code of cryptojwt and idpyoidc on trust marks and delegations: `payload` is that of
-- `factory(token).jwt.payload()`, `check` is `Message.verify`, `verify_compact` the payload if one
-- of the keys verifies the signature. `delegation` is `None` for a text that is no JWS, and else
-- whether the payload that `verify_compact` gives is not empty.
pub record MarkJose : Type 0 where
  pub payload : String → Option TrustMark
  pub check : TrustMark → Result (Unit {0})
  pub verify_compact : String → List Value → Result TrustMark
  pub delegation : String → Option (List Value → Result Bool)
  pub import_jwks : KeyJar → Value → Value → Result KeyJar

abbrev pub on_collector {ℓ} : {A : Type ℓ} → Run A → Act A
on_collector m self = let r = m self.collector in (record self { collector = r.0 }, r.1)

-- `statement_is_expired`
abbrev pub statement_is_expired : ℤ → Option ℤ → Bool
statement_is_expired now exp = elim exp [ none ↦ false | some e ↦ ltb_ℤ e now ]

-- What is read from the cache, unless it has expired: `"exp" in None` raises a `TypeError`.
abbrev pub not_expired : ℤ → Option EntityStatement → Result (Option EntityStatement)
not_expired now none = raised type_error
not_expired now (some ec) = ok (if statement_is_expired now (some ec.exp) then none else some ec)

-- A key set as the claim `jwks` has it
abbrev pub jwks_of : List Value → Value
jwks_of keys = object (of_entries (("keys", array (of_elements keys)) ∷ []))

module _ (fuel : ℕ) (web : Web) (jose : Jose) where
  unfoldable pub cached_configuration : String → Act (Option EntityStatement)
  cached_configuration entity_id self =
      if contains entity_id self.collector.config_cache
      then (on_collector (read_config web.now entity_id) >>> λ ec. lift (not_expired web.now ec))
          self
      else (self, ok none)

  -- `verify_trust_chains` without the configuration of the leaf, for the keys that it adds
  abbrev pub verify_chains : List (List String) → Act (Unit {0})
  verify_chains chains self = elim (verify_trust_chains jose self.keyjar chains []) [
    | raised e ↦ (self, raised e)
    | ok run ↦ (record self { keyjar = run.0 }, ok tt)
  ]

  unfoldable pub get_metadata : String → Act (Dict Metadata)
  unfolding cached_configuration
  get_metadata entity_id = cached_configuration entity_id >>> λ cached. elim cached [
    | some ec ↦ lift (require ec.metadata key_error)
    | none ↦ on_collector (collect_trust_chains fuel web entity_id "") >>> λ run.
        verify_chains run.0 >>> λ done. on_collector (read_config web.now entity_id) >>> λ ec.
        lift (require ec type_error >>= λ ec'. require ec'.metadata key_error)
  ]

  module _ (marks : MarkJose) where
    -- The signature of the delegation, with the keys of the owner.
    abbrev pub check_signature : Value → String → Result Bool
    check_signature owner token = subscript "jwks" owner >>= λ jwks.
        subscript "sub" owner >>= λ sub. marks.import_jwks [] jwks sub >>= λ keyjar.
        require (marks.delegation token) attribute_error >>= λ verify.
        verify (jose.verify_keys keyjar token)

    abbrev pub check_owner : Metadata → String → String → Result Bool
    check_owner metadata id token =
        require (lookup "trust_mark_issuers" metadata) key_error >>= λ issuers.
        contained id issuers >>= λ issued.
        if not issued
        then ok false
        else (require (lookup "trust_mark_owners" metadata) key_error >>= λ owners.
            contained id owners >>= λ owned.
            if not owned
            then ok false
            else (subscript id owners >>= λ owner. check_signature owner token))

    -- `verify_delegation`: is what it returns true?
    unfoldable pub verify_delegation : TrustMark → String → String → Act Bool
    unfolding get_metadata
    verify_delegation mark token trust_anchor_id = get_metadata trust_anchor_id >>> λ metadata.
        lift (
          require (lookup "federation_entity" metadata) key_error >>= λ claims.
          check_owner claims mark.id token)

    -- The result is only written to the log.
    unfoldable pub look_at_delegation : TrustMark → String → Act (Unit {0})
    unfolding verify_delegation
    look_at_delegation mark trust_anchor = elim mark.delegation [
      | none ↦ lift (ok tt)
      | some token ↦ verify_delegation mark token trust_anchor >>> λ delegated. lift (ok tt)
    ]

    -- The keys of the issuer, from the last statement of the first of its chains.
    abbrev pub issuer_keys : KeyJar → List TrustChain → Result KeyJar
    issuer_keys keyjar chains = apply_policies chains >>= λ applied.
        require (get_elem? applied 0) index_error >>= λ chain.
        require (get_last? chain.verified_chain) index_error >>= λ leaf.
        require leaf.jwks key_error >>= λ keys.
        require (get_elem? chain.iss_path 0) index_error >>= λ iss.
        marks.import_jwks keyjar (jwks_of keys) (text iss)

    abbrev pub add_issuer_keys : List TrustChain → Act (Unit {0})
    add_issuer_keys chains self = elim (issuer_keys self.keyjar chains) [
      | raised e ↦ (self, raised e)
      | ok keyjar ↦ (record self { keyjar = keyjar }, ok tt)
    ]

    -- `keyjar.get_jwt_verify_keys(_jwt.jwt)`
    abbrev pub read_keys : String → Act (List Value)
    read_keys token self = (self, ok (jose.verify_keys self.keyjar token))

    -- Any exception of the signature's check gives `None`.
    abbrev pub verified : String → List Value → Option TrustMark
    verified token keys = elim (marks.verify_compact token keys) [
      | raised e ↦ none
      | ok mark ↦ some mark
    ]

    unfoldable pub check_mark : String → List TrustChain → Act (Option TrustMark)
    check_mark token chains = read_keys token >>> λ keys.
        if is_empty keys
        then (add_issuer_keys chains >>> λ done.
            read_keys token >>> λ keys'. lift (ok (verified token keys')))
        else lift (ok (verified token keys))

    -- What follows the delegation: the trust chains of the issuer, and the signature.
    unfoldable pub check_issuer : TrustMark → String → String → Act (Option TrustMark)
    unfolding check_mark verified_trust_chains
    check_issuer mark token trust_anchor =
        verified_trust_chains fuel web jose mark.iss >>> λ chains.
        if any (λ chain. chain.anchor == trust_anchor) chains
        then check_mark token chains
        else lift (ok none)

    -- What follows the check of the claims.
    unfoldable pub check_claims : String → String → TrustMark → Act (Option TrustMark)
    unfolding look_at_delegation check_issuer
    check_claims token trust_anchor mark =
        if statement_is_expired web.now mark.exp
        then lift (ok none)
        else (look_at_delegation mark trust_anchor >>> λ looked.
            check_issuer mark token trust_anchor)

    -- `TrustMarkVerifier.__call__`; `check_status` and `entity_id` are not read.
    unfoldable pub trust_mark_verifier : String → String → Act (Option TrustMark)
    unfolding check_claims
    trust_mark_verifier token trust_anchor =
        lift (require (marks.payload token) attribute_error) >>> λ mark.
        lift (marks.check mark) >>> λ checked. check_claims token trust_anchor mark

    -- `"active" in resp and resp["active"] == True`
    abbrev pub active : Dict Value → Bool
    active resp = elim (lookup "active" resp) [
      | none ↦ false
      | some v ↦ value_eq v (atom (bool true))
    ]

    -- The request to the status endpoint and the answer; `request` is `do_request` for the
    -- service `trust_mark_status`.
    abbrev pub ask_issuer :
        (Value → String → String → Result (Dict Value)) → TrustChain → TrustMark → Result Bool
    ask_issuer request chain mark = metadata_for "federation_entity" chain.metadata >>= λ claims.
        subscript "federation_trust_mark_status_endpoint" claims >>= λ endpoint.
        request endpoint mark.sub mark.id >>= λ resp. ok (active resp)

    abbrev pub confirm :
        (Value → String → String → Result (Dict Value))
        → Bool
        → TrustChain
        → TrustMark
        → Act (Option TrustMark)
    confirm request check_with_issuer chain mark =
        if check_with_issuer
        then lift (ask_issuer request chain mark >>= λ said. ok (if said then some mark else none))
        else lift (ok (some mark))

    -- `verify_trust_mark`; a trust mark that the verifier did not accept is `None`, and
    -- `None['sub']` raises a `TypeError` where the issuer is asked.
    unfoldable pub verify_trust_mark :
        (Value → String → String → Result (Dict Value)) → String → Bool → Act (Option TrustMark)
    unfolding trust_mark_verifier
    verify_trust_mark request token check_with_issuer =
        lift (require (marks.payload token) attribute_error) >>> λ payload.
        get_trust_chains fuel web jose payload.iss >>> λ chains. elim chains [
          | [] ↦ lift (ok none)
          | chain ∷ others ↦ trust_mark_verifier token chain.anchor >>> λ mark. elim mark [
            | none ↦ if check_with_issuer then lift (raised type_error) else lift (ok none)
            | some mark' ↦ confirm request check_with_issuer chain mark'
          ]
        ]
