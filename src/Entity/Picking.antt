-- ===== src/Entity/Picking.antt =====
-- Which trust chain `pick_trust_chain` of src/fedservice/entity/__init__.py picks.
use fedservice.Statement.{TrustChain}
use fedservice.Entity.{by_priority, pick_trust_chain, with_anchor}
use fedservice.Prelude.{
  ℕ, suc, String, ◌≡◌, refl, ◌⊎◌, inl, inr, Bool, true, false, not, none, some, List, [], ◌∷◌, ◌++◌,
  arith, string_dec, ◌==◌, Option-cases, ok, raised, get_elem?, all, index_error,
}

-- No chain ends at the anchor.
abbrev pub no_chain : List TrustChain → String → Bool
no_chain chains fid = all (λ chain. not (chain.anchor == fid)) chains

pub with_anchor-none :
    (fid : String) (chains : List TrustChain)
    → no_chain chains fid ≡ true
    → with_anchor fid chains ≡ none
unfolding with_anchor
with_anchor-none fid [] h = refl
with_anchor-none fid (chain ∷ chains) h = ground (arith, with_anchor-none fid chains)

with_anchor-some :
    (fid : String) (chains : List TrustChain)
    → no_chain chains fid ≡ false
    → (chain : TrustChain) × (with_anchor fid chains ≡ some chain) × (chain.anchor ≡ fid)
unfolding with_anchor
with_anchor-some fid [] h = cc
with_anchor-some fid (chain ∷ chains) h = elim (string_dec chain.anchor fid) [
  | yes same ↦ (chain, ground (arith, same), same)
  | no differ ↦
      let (found, here, ends) = with_anchor-some fid chains (ground (arith, differ)) in
      (found, ground (arith, here, differ), ends)
]

by_priority_first :
    (before after : List String) (fid : String) (chains : List TrustChain)
    → all (no_chain chains) before ≡ true
    → no_chain chains fid ≡ false
    → (chain : TrustChain) × (by_priority (before ++ (fid ∷ after)) chains ≡ some chain)
      × (chain.anchor ≡ fid)
unfolding by_priority
by_priority_first [] after fid chains none_before some_at =
    let (chain, here, ends) = with_anchor-some fid chains some_at in
    (chain, ground (arith, here), ends)
by_priority_first (other ∷ before) after fid chains none_before some_at =
    let (chain, here, ends) = by_priority_first before after fid chains (ground arith) some_at in
    (chain, ground (arith, here, with_anchor-none other chains), ends)

-- Among two trust chains or more, `pick_trust_chain` picks one to the first trust anchor in the list of
-- priorities that some chain leads to.
pub pick_trust_chain_first :
    (before after : List String) (fid : String) (first second : TrustChain)
    (chains : List TrustChain)
    → all (no_chain (first ∷ second ∷ chains)) before ≡ true
    → no_chain (first ∷ second ∷ chains) fid ≡ false
    → (chain : TrustChain) × (pick_trust_chain (before ++ (fid ∷ after)) (first ∷ second ∷ chains)
        ≡ ok chain)
      × (chain.anchor ≡ fid)
unfolding pick_trust_chain
pick_trust_chain_first before after fid first second chains none_before some_at =
    let (chain, here, ends) =
      by_priority_first before after fid (first ∷ second ∷ chains) none_before some_at in
    (chain, ground (arith, here), ends)

-- The chain is one of the chains.
abbrev pub Among : TrustChain → List TrustChain → Type 0
Among chain chains = (i : ℕ) × (get_elem? chains i ≡ some chain)

pub with_anchor-Among :
    (fid : String) (chains : List TrustChain) (chain : TrustChain)
    → with_anchor fid chains ≡ some chain
    → Among chain chains
unfolding with_anchor
with_anchor-Among fid [] chain h = cc
with_anchor-Among fid (c ∷ chains) chain h = elim (string_dec c.anchor fid) [
  | yes same ↦ (0, ground (arith, h, same))
  | no differ ↦
      let (i, here) = with_anchor-Among fid chains chain (ground (arith, h, differ)) in
      (suc i, here)
]

by_priority-Among :
    (priority : List String) (chains : List TrustChain) (chain : TrustChain)
    → by_priority priority chains ≡ some chain
    → Among chain chains
unfolding by_priority
by_priority-Among [] chains chain h = cc
by_priority-Among (fid ∷ priority) chains chain h = elim (Option-cases (with_anchor fid chains)) [
  | inl nowhere ↦ by_priority-Among priority chains chain (ground (arith, h, nowhere))
  | inr (c, here) ↦ with_anchor-Among fid chains chain (ground (arith, h, here))
]

-- `pick_trust_chain` raises an IndexError if there is no chain, and else picks one of the chains.
pub pick_trust_chain_total :
    (priority : List String) (chains : List TrustChain)
    → ((chains ≡ []) × (pick_trust_chain priority chains ≡ raised index_error))
      ⊎ ((chain : TrustChain) × (pick_trust_chain priority chains ≡ ok chain) × Among chain chains)
unfolding pick_trust_chain
pick_trust_chain_total priority [] = inl (refl, refl)
pick_trust_chain_total priority (chain ∷ []) = inr (chain, refl, (0, refl))
pick_trust_chain_total priority (first ∷ second ∷ chains) =
    elim (Option-cases (by_priority priority (first ∷ second ∷ chains))) [
      | inl nowhere ↦ inr (first, ground (arith, nowhere), (0, refl))
      | inr (chain, here) ↦ inr (
        chain,
        ground (arith, here),
        by_priority-Among priority (first ∷ second ∷ chains) chain here,
      )
    ]
