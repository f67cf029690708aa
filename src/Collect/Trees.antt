-- ===== src/Collect/Trees.antt =====
-- The trees of superiors that the collector of
-- src/fedservice/entity/function/trust_chain_collector.py builds, and `tree2chains` of
-- src/fedservice/entity/function/__init__.py.
use fedservice.Prelude.{String, ◌≡◌, refl, sym, ap, ◌∙◌, List, [], ◌∷◌, ◌++◌, if◌then◌else◌, ◌==◌}

mutual
  -- A dictionary of superiors: the branch of each authority.
  pub data Tree : Type 0 where
    no_superiors : Tree
    superior : String → Branch → Tree → Tree

  -- `None`, or an entity statement and the tree of the authority's own superiors.
  pub data Branch : Type 0 where
    missing : Branch
    found : String → Tree → Branch

-- `superior[authority] = branch`
unfoldable pub put_branch : String → Branch → Tree → Tree
put_branch authority branch no_superiors = superior authority branch no_superiors
put_branch authority branch (superior other kept rest) =
    if authority == other
    then superior other branch rest
    else superior other kept (put_branch authority branch rest)

-- `l.append(statement)` for each of the lists.
abbrev pub append_each : String → List (List String) → List (List String)
append_each statement [] = []
append_each statement (l ∷ lists) = (l ++ (statement ∷ [])) ∷ append_each statement lists

-- What one branch adds to the result: `below` are the chains of its tree.
abbrev pub branch_chains : Branch → List (List String) → List (List String)
branch_chains missing below = [] ∷ []
branch_chains (found statement no_superiors) below = (statement ∷ []) ∷ []
branch_chains (found statement (superior _ _ _)) below = append_each statement below

unfoldable mutual
  pub tree2chains : Tree → List (List String)
  tree2chains no_superiors = []
  tree2chains (superior issuer branch rest) =
      branch_chains branch (chains_below branch) ++ tree2chains rest

  pub chains_below : Branch → List (List String)
  chains_below missing = []
  chains_below (found statement unit) = tree2chains unit

mutual
  -- The chains of a tree, described from the leaf upwards: each goes on from `chain`, which it ends with.
  pub paths : List String → Tree → List (List String)
  paths chain no_superiors = []
  paths chain (superior issuer branch rest) = paths_of chain branch ++ paths chain rest

  pub paths_of : List String → Branch → List (List String)
  paths_of chain missing = chain ∷ []
  paths_of chain (found statement no_superiors) = (statement ∷ chain) ∷ []
  paths_of chain (found statement (superior issuer branch rest)) =
      paths (statement ∷ chain) (superior issuer branch rest)

abbrev onto_each : List String → List (List String) → List (List String)
onto_each chain [] = []
onto_each chain (l ∷ lists) = (l ++ chain) ∷ onto_each chain lists

onto_each-append :
    (chain : List String) (xs ys : List (List String))
    → onto_each chain (xs ++ ys) ≡ onto_each chain xs ++ onto_each chain ys
onto_each-append chain [] ys = refl
onto_each-append chain (x ∷ xs) ys = ap (λ rest. (x ++ chain) ∷ rest) (onto_each-append chain xs ys)

append_onto :
    (l : List String) (statement : String) (chain : List String)
    → (l ++ (statement ∷ [])) ++ chain ≡ l ++ (statement ∷ chain)
append_onto [] statement chain = refl
append_onto (x ∷ l) statement chain = ap (λ rest. x ∷ rest) (append_onto l statement chain)

onto_each-append_each :
    (chain : List String) (statement : String) (lists : List (List String))
    → onto_each chain (append_each statement lists) ≡ onto_each (statement ∷ chain) lists
onto_each-append_each chain statement [] = refl
onto_each-append_each chain statement (l ∷ lists) =
    cc (append_onto l statement chain, onto_each-append_each chain statement lists)

append_nil : (l : List String) → l ++ [] ≡ l
append_nil [] = refl
append_nil (x ∷ l) = ap (λ rest. x ∷ rest) (append_nil l)

onto_each-nil : (lists : List (List String)) → onto_each [] lists ≡ lists
onto_each-nil [] = refl
onto_each-nil (l ∷ lists) = cc (append_nil l, onto_each-nil lists)

mutual
  unfolding tree2chains paths

  paths-eq :
      (chain : List String) (tree : Tree) → paths chain tree ≡ onto_each chain (tree2chains tree)
  paths-eq chain no_superiors = refl
  paths-eq chain (superior issuer branch rest) = cc (
    paths_of-eq chain branch,
    paths-eq chain rest,
    onto_each-append chain (branch_chains branch (chains_below branch)) (tree2chains rest),
  )

  paths_of-eq :
      (chain : List String) (branch : Branch)
      → paths_of chain branch ≡ onto_each chain (branch_chains branch (chains_below branch))
  paths_of-eq chain missing = refl
  paths_of-eq chain (found statement no_superiors) = refl
  paths_of-eq chain (found statement (superior issuer branch rest)) =
      paths-eq (statement ∷ chain) (superior issuer branch rest)
      ∙ sym (onto_each-append_each chain statement (tree2chains (superior issuer branch rest)))

-- The chains of a tree are the paths from the superiors without superiors down to the top
-- of the tree, in the order of the tree, each with the statement of the highest superior first.
pub tree2chains-eq-paths : (tree : Tree) → tree2chains tree ≡ paths [] tree
tree2chains-eq-paths tree = sym (paths-eq [] tree ∙ onto_each-nil (tree2chains tree))
