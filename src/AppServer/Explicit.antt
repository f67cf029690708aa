-- ===== src/AppServer/Explicit.antt =====
-- The explicit registration of an OpenID client: `Registration.process_request` of
-- src/fedservice/appserver/oidc/registration.py.
use fedservice.Entity.{pick_trust_chain, verified_trust_chains}
use fedservice.AppServer.Saved.{save_trust_chains}
use fedservice.Policy.Combine.{Metadata}
use fedservice.AppServer.Provider.{set_anchor, federate, Serve}
use fedservice.Statement.{EntityStatement, TrustChain}
use fedservice.Verifier.{Jose}
use fedservice.Collect.Web.{verify_self_signed_signature, Web}
pub mod Policies
use fedservice.Prelude.{
  ℕ, String, not, Option, none, some, List, [], ◌∷◌, ◌==◌, Result, ok, raised, ◌>>=◌, ◌>>◌, require,
  filter, ◌>>>◌, lift, key_error, type_error,
}
use fedservice.Prelude.Dict.{Dict, lookup, insert, erase, keys, update}
use fedservice.Value.{entries, object, Value, text}

-- The arguments of `create_entity_statement` for the answer, apart from the issuer
pub record Registered : Type 0 where
  pub sub : String
  pub trust_anchor_id : String
  pub metadata : Dict (Dict Value)
  pub aud : String
  pub authority_hints : List String

-- `response_info` as it is returned: with the answer in the place of `response_args`, or as it was.
pub data Response : Type 0 where
  response_msg : Registered → Response
  unchanged : Dict Value → Response

-- `dict.pop`, where a missing key makes no difference
abbrev pub without : List String → Dict Value → Dict Value
without [] d = d
without (k ∷ ks) d = without ks (erase k d)

-- The claims of the answer, from the request as the registration left it
abbrev pub policy_metadata : Dict Value → Dict Value → Dict Value
policy_metadata req response_args =
    without ("application_type" ∷ "redirect_uris" ∷ [])
      (update (without ("jwks" ∷ "jwks_uri" ∷ "signed_jwks_uri" ∷ []) req) response_args)

-- `set.pop` gives some member of a set.
module _ (fuel : ℕ) (web : Web) (jose : Jose) (pop : List String → Option String) where
  -- The entity type of the request, apart from `federation_entity`
  abbrev pub opponent_entity_type : Dict Metadata → Result String
  opponent_entity_type metadata =
      require (pop (filter (λ key. not (key == "federation_entity")) (keys metadata))) key_error

  abbrev pub save : List TrustChain → Serve (Unit {0})
  save chains self = elim (save_trust_chains chains self.trust_chains) [
    | raised e ↦ (self, raised e)
    | ok saved ↦ (record self { trust_chains = saved }, ok tt)
  ]

  abbrev pub pick : List TrustChain → Serve TrustChain
  pick chains self = (self, pick_trust_chain self.federation.tr_priority chains)

  -- `register` is `process_request` of the registration endpoint of idpyoidc, with the request as it
  -- leaves it; `hints` is `get_authority_hints`.
  module _ (register : Dict Value → Serve (Dict Value × Dict Value))
      (hints : Result (List String)) where
    abbrev pub registration_answer :
        EntityStatement → String → String → Dict Value × Dict Value → Result Response
    registration_answer payload entity_type anchor (req, response_info) =
        elim (lookup "response_args" response_info) [
          | none ↦ ok (unchanged response_info)
          | some (object fs) ↦ hints >>= λ authority_hints. ok (
              response_msg (record {
                sub = payload.iss;
                trust_anchor_id = anchor;
                metadata = (entity_type, policy_metadata req (entries fs)) ∷ [];
                aud = payload.iss;
                authority_hints = authority_hints;
              }))
          | some other ↦ raised type_error
        ]

    -- What follows the choice of the trust chain
    unfoldable pub register_request : EntityStatement → String → Metadata → String → Serve Response
    register_request payload entity_type claims anchor = set_anchor anchor >>> λ set.
        register (insert "client_id" (text payload.sub) claims) >>> λ done.
        lift (registration_answer payload entity_type anchor done)

    -- What follows the look at the request
    unfoldable pub register_trusted : EntityStatement → String → Metadata → Serve Response
    unfolding verified_trust_chains register_request
    register_trusted payload entity_type claims =
        federate (verified_trust_chains fuel web jose payload.sub) >>> λ chains.
        save chains >>> λ saved.
        pick chains >>> λ chain. register_request payload entity_type claims chain.anchor

    -- `process_request`; the metadata that is registered is the one in the request.
    unfoldable pub process_explicit : String → Serve Response
    unfolding register_trusted
    process_explicit request = lift (verify_self_signed_signature web request) >>> λ payload.
        lift (require payload.metadata key_error) >>> λ metadata.
        lift (opponent_entity_type metadata) >>> λ entity_type.
        lift (require (lookup entity_type metadata) key_error) >>> λ claims.
        register_trusted payload entity_type claims
