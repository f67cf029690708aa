-- ===== src/Lib.antt =====
-- fedservice, an implementation of OpenID Federation in Python: the logic by which an entity finds, checks
-- and uses the trust chains of another. All paths are from the root of the repository.
--
-- The program and how its parts interact. An entity publishes a signed entity configuration; its
-- superiors publish signed statements about it, up to a Trust Anchor. The collector
-- (src/fedservice/entity/function/trust_chain_collector.py) fetches both into two caches and builds the
-- tree of superiors, `tree2chains` turns the tree into chains, the verifier
-- (src/fedservice/entity/function/verifier.py) checks each chain from the Trust Anchor down, with the naming
-- and path length constraints (src/fedservice/entity_statement/constraints.py), and the policy
-- (src/fedservice/entity/function/policy.py and policy_operator.py) combines the metadata policies along the chain
-- and applies them to the metadata of the leaf. On the chains stand their uses: the federation entity
-- (src/fedservice/entity/__init__.py) keeps them and picks one, trust marks are verified with them, the
-- resolver and the list endpoint answer from them, and the servers of applications
-- (src/fedservice/appserver) register clients by them. Besides there are the issuing of trust marks, the
-- fetch endpoint and the client that sends requests (src/fedservice/entity/client/__init__.py).
--
-- Which file models which part:
-- - Prelude: tests, lists, exceptions as values (`Result`), Python's integers (Int) and `dict`
--   (Dict), and code that changes an object and may raise (States, Ending). Value: JSON values (Json) with `==` and
--   truth, Python's sets (Sets), and subscripts (Subscript).
-- - Statement/Chain: `EntityStatement`, `Constraints` and `NamingConstraints` of src/fedservice/message.py as
--   records of the claims that are read, `TrustChain` and `chains2dict` of
--   src/fedservice/entity_statement/statement.py.
-- - Policy/Combine: `combine_claim_policy` and its functions; Policy/Gather: `combine`, `combine_metadata`;
--   Policy/Operators: the operator classes; Policy/Apply: `op_place`, the loop of `apply_metadata_policy`,
--   `apply_policy`, `diff2policy`; Policy/Chain: `TrustChainPolicy`. The files below Policy/Combine and
--   Policy/Apply and Policy/Along hold lemmas and theorems.
-- - Constraints, Constraints/Names: src/fedservice/entity_statement/constraints.py, function by function; the
--   other files below it hold lemmas and theorems.
-- - Cache: `ESCache` of src/fedservice/entity_statement/cache.py.
-- - Collect/Web: the requests and documents of the collector; Collect/Run: its state and code that
--   changes it and may raise; Collect/Collector: `_get_entity_statement`, `collect_branch`, `collect_tree` and
--   the call, under their own names but for `get_statement_about` and `collect`; Collect/Trees: the
--   tree and `tree2chains`; Collect/Path: `get_chain`.
-- - Verifier: `TrustChainVerifier`; `verify` is its call. Chains: the functions of
--   src/fedservice/entity/function/__init__.py from an entity to its trust chains.
-- - Messages: the `verify` methods of src/fedservice/message.py.
-- - TrustMarks: `FileDB`, `SimpleDB`, the issuer and the status endpoint under
--   src/fedservice/trust_mark_entity/; TrustMarks/Serving: its endpoints that issue and list.
--   The issuer is modelled with a `FileDB`, not with the `SimpleDB` that it has where none is configured.
--   Fetch: `Fetch.process_request` of src/fedservice/entity/server/fetch.py about a subordinate, with `create_entity_statement`.
-- - Entity: `FederationEntity` of src/fedservice/entity/__init__.py, with the state that its runs change;
--   Entity/TrustMarks: `TrustMarkVerifier` of src/fedservice/entity/function/trust_mark_verifier.py,
--   `get_metadata` of the collector and `verify_trust_mark`; Entity/Endpoint:
--   src/fedservice/entity/function/trust_anchor.py and the request of src/fedservice/entity/client/list.py;
--   Entity/Trawl: `trawl` of src/fedservice/entity/__init__.py;
--   Entity/Verified: the state that the verification of chains leaves in the entity.
-- - Endpoints/Listing: src/fedservice/entity/server/list.py; Endpoints/Resolve:
--   src/fedservice/entity/server/resolve.py. Client: `FederationClient` of
--   src/fedservice/entity/client/__init__.py, without its construction; Client/Services: the requests of
--   the services beside it.
-- - AppServer/Provider: the state of a server and `import_client_keys` of src/fedservice/appserver/__init__.py;
--   AppServer/Saved: `save_trust_chains` and `get_trust_chain` of src/fedservice/__init__.py;
--   AppServer/Automatic: src/fedservice/appserver/oauth2/authorization.py; AppServer/Explicit:
--   src/fedservice/appserver/oidc/registration.py; AppServer/Request and AppServer/Register:
--   src/fedservice/appserver/oauth2/registration.py, the look at a request and the registration.
-- - AppClient/Registration: the parsing of responses in src/fedservice/appclient/oauth2/registration.py and
--   src/fedservice/appclient/oidc/registration.py.
-- - Tests: runs on concrete data.
--
-- Conventions. A dictionary is an association list in insertion order. A set is a list without
-- duplicates; where the source turns a set into a list, the model keeps the order of first
-- occurrence, and a loop over a set that raises takes the names in that order. There are no floats. A record
-- stands for a payload whose claims have the types that `Message` checks when it is read. An exception
-- is a value of `Error`. The collector, the federation entity and the servers are runs on a state,
-- which keep what was changed before an exception; the verifier's key jar is an exception to that: the keys
-- that it added before it raised are not followed. The clock, HTTP, URLs and the signatures are parameters
-- (`Web`, `Jose`, `MarkJose`), and the
-- same during one run; so are idpyoidc's services and registration, and its checks of messages.
--
-- Fuel. The loop over the operators of a claim gets one round more than there are operators. Each
-- round but the last moves on in the list of operators, so eight rounds are enough for the seven. The
-- collector gets as many rounds as levels of superiors, `trawl` as many as levels of intermediates; the source
-- has no such bound.
--
-- Not modelled: the construction of the objects that hold the parts together and their
-- configuration (src/fedservice/combo, src/fedservice/build_entity.py, src/fedservice/utils.py and the
-- constructors elsewhere), which is the assembly of idpyoidc's objects; the endpoints `who` and
-- `entity_configuration`; the OpenID authorization endpoint and
-- the pushed authorization endpoint, whose code is that of the modelled one but for the import of
-- keys; the set-up of the clients of applications and their requests (src/fedservice/appclient); cookies and logging.
pub mod Prelude
pub mod Value
pub mod Cache
pub mod Collect
pub mod Messages
pub mod Fetch
pub mod Verifier
pub mod Chains
pub mod Entity
pub mod Endpoints
pub mod Client
pub mod AppServer
pub mod AppClient
pub mod TrustMarks
pub mod Policy
pub mod Statement
pub mod Constraints
mod Tests
