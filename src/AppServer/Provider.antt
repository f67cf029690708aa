-- ===== src/AppServer/Provider.antt =====
-- The state that the endpoints under src/fedservice/appserver/ work on, and `import_client_keys` of
-- src/fedservice/appserver/__init__.py.
use fedservice.AppServer.Saved.{SavedChains}
use fedservice.Entity.{metadata_for, FederationEntity, Act}
use fedservice.Verifier.{KeyJar}
use fedservice.Statement.{ChainMetadata}
use fedservice.Prelude.{
  String, Option, none, some, if◌then◌else◌, Result, ok, raised, ◌>>=◌, Stateful, attribute_error,
}
use fedservice.Prelude.Dict.{Dict, lookup}
use fedservice.Value.{array, atom, entries, object, Value, truthy}

-- `cdb`, `provider_info` and `trust_chains` are the context's, `keyjar` is the server's; the federation entity is
-- beside it, with the attribute `trust_chain_anchor` that the endpoints set.
pub record Provider : Type 0 where
  pub cdb : Dict (Dict Value)
  pub provider_info : Dict Value
  pub keyjar : KeyJar
  pub federation : FederationEntity
  pub trust_chains : SavedChains
  pub trust_chain_anchor : String

abbrev pub Serve {ℓ} : Type ℓ → Type ℓ
Serve A = Stateful Provider A

-- `KeyJar.add_url` of cryptojwt and `import_jwks` of idpyoidc
pub record KeyImport : Type 0 where
  pub add_url : KeyJar → String → Value → Result KeyJar
  pub import_jwks : KeyJar → Value → String → Result KeyJar

-- `information.get(key)`, where it is true
abbrev pub get_true : String → Dict Value → Option Value
get_true key information = elim (lookup key information) [
  | none ↦ none
  | some val ↦ if truthy val then some val else none
]

-- `import_client_keys`
unfoldable pub import_client_keys : KeyImport → Dict Value → KeyJar → String → Result KeyJar
import_client_keys key_import information keyjar entity_id =
    elim (get_true "signed_jwks_uri" information) [
      | some uri ↦ ok keyjar
      | none ↦ elim (get_true "jwks_uri" information) [
        | some uri ↦ key_import.add_url keyjar entity_id uri
        | none ↦ elim (get_true "jwks" information) [
          | some jwks ↦ key_import.import_jwks keyjar jwks entity_id
          | none ↦ ok keyjar
        ]
      ]
    ]

abbrev pub import_keys : KeyImport → Dict Value → String → Serve (Unit {0})
import_keys key_import information entity_id self =
    elim (import_client_keys key_import information self.keyjar entity_id) [
      | raised e ↦ (self, raised e)
      | ok keyjar ↦ (record self { keyjar = keyjar }, ok tt)
    ]

-- What the federation entity does
abbrev pub federate {ℓ} : {A : Type ℓ} → Act A → Serve A
federate act self = let run = act self.federation in (record self { federation = run.0 }, run.1)

abbrev pub set_anchor : String → Serve (Unit {0})
set_anchor anchor self = (record self { trust_chain_anchor = anchor }, ok tt)

-- The claims of one type in the metadata of a trust chain; `None.get` raises an AttributeError.
abbrev pub claims_for : String → ChainMetadata → Result (Dict Value)
claims_for entity_type metadata = metadata_for entity_type metadata >>= λ claims. elim claims [
  | object fs ↦ ok (entries fs)
  | atom a ↦ raised attribute_error
  | array xs ↦ raised attribute_error
]
