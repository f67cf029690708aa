-- ===== src/Chains.antt =====
-- The functions of src/fedservice/entity/function/__init__.py that lead from an entity to its
-- trust chains, on the states of the collector and of the key jar.
-- `collect_trust_chains` without a signed configuration: the chains, and the signed configuration.
use fedservice.Collect.Trees.{tree2chains}
use fedservice.Collect.Collector.{collect_tree, collect}
use fedservice.Collect.Run.{Run}
use fedservice.Policy.Chain.{apply_to_chain}
use fedservice.Verifier.{verify, KeyJar, Jose}
use fedservice.Collect.Web.{verify_self_signed_signature, Web}
use fedservice.Statement.{TrustChain}
use fedservice.Prelude.{
  ◌>>>◌, lift, ℕ, String, Option, none, some, List, [], ◌∷◌, ◌++◌, if◌then◌else◌, Result, ok, ◌>>=◌,
  is_empty,
}

unfoldable pub collect_trust_chains :
    ℕ → Web → String → String → Run (List (List String) × Option String)
collect_trust_chains fuel web entity_id stop_at = collect fuel web entity_id stop_at >>> λ response.
    lift (elim response [
      | none ↦ ok ([], none)
      | some collected ↦ ok (tree2chains collected.0, some collected.1)
    ])

-- `collect_trust_chains` with a signed configuration of the entity, and other authority hints than in
-- it if there are any.
unfoldable pub collect_from_configuration :
    ℕ → Web → String → String → String → List String → Run (List (List String) × Option String)
collect_from_configuration fuel web entity_id signed_configuration stop_at authority_hints =
    lift (verify_self_signed_signature web signed_configuration) >>> λ config.
    collect_tree fuel web stop_at entity_id (
      some (
        if is_empty authority_hints
        then config
        else record config { authority_hints = some authority_hints }))
    >>> λ tree. lift (ok (tree2chains tree, some signed_configuration))

-- `verify_trust_chains`; `entity_statements` are put at the end of each chain.
unfoldable pub verify_trust_chains :
    Jose → KeyJar → List (List String) → List String → Result (KeyJar × List TrustChain)
verify_trust_chains jose keyjar [] entity_statements = ok (keyjar, [])
verify_trust_chains jose keyjar (c ∷ chains) entity_statements =
    verify jose keyjar (c ++ entity_statements) >>= λ first.
    verify_trust_chains jose first.0 chains entity_statements >>= λ rest.
    ok (rest.0, elim first.1 [ none ↦ rest.1 | some trust_chain ↦ trust_chain ∷ rest.1 ])

unfoldable pub apply_policies : List TrustChain → Result (List TrustChain)
apply_policies [] = ok []
apply_policies (trust_chain ∷ trust_chains) = apply_to_chain trust_chain "" >>= λ applied.
    apply_policies trust_chains >>= λ res. ok (applied ∷ res)

-- What follows the collection; a configuration that is `None` comes with no chains.
unfoldable pub verified_and_applied :
    Jose → KeyJar → List (List String) → Option String → Result (KeyJar × List TrustChain)
unfolding verify_trust_chains apply_policies
verified_and_applied jose keyjar chains leaf_ec =
    if is_empty chains
    then ok (keyjar, [])
    else (verify_trust_chains jose keyjar chains (elim leaf_ec [ none ↦ [] | some s ↦ s ∷ [] ])
        >>= λ run. apply_policies run.1 >>= λ trust_chains. ok (run.0, trust_chains))

unfoldable pub get_verified_trust_chains :
    ℕ → Web → Jose → KeyJar → String → Run (KeyJar × List TrustChain)
unfolding collect_trust_chains verified_and_applied
get_verified_trust_chains fuel web jose keyjar entity_id =
    collect_trust_chains fuel web entity_id "" >>> λ run.
    lift (verified_and_applied jose keyjar run.0 run.1)
