-- ===== src/AppServer/Saved.antt =====
-- The trust chains that a context keeps by entity and trust anchor: `save_trust_chains` and `get_trust_chain` of
-- src/fedservice/__init__.py.
use fedservice.Statement.{chains2dict_from, chains2dict, TrustChain}
use fedservice.Prelude.{
  refl, Bool, false, ltb, length, string_dec, Bool-cases, >>=-eq-ok, ap, ◌∙◌, sym, subst, String,
  ◌≡◌, inl, inr, ◌&&◌, Option, none, some, List, [], ◌∷◌, arith, if◌then◌else◌, ◌==◌, Option-cases,
  Result, ok, ◌>>=◌, require, get_elem?, index_error,
}
use fedservice.Prelude.Dict.{lookup-nil, lookup-cons, Dict, lookup, insert, lookup-insert}

abbrev pub SavedChains : Type 0
SavedChains = Dict (Dict TrustChain)

-- The body of the loop of `save_trust_chains`
unfoldable pub save_chain : String → TrustChain → SavedChains → Result SavedChains
save_chain ta tc saved = require (get_elem? tc.iss_path 0) index_error >>= λ ent.
    ok (elim (lookup ent saved) [
      | none ↦ insert ent ((ta, tc) ∷ []) saved
      | some by_anchor ↦ insert ent (insert ta tc by_anchor) saved
    ])

unfoldable pub save_all : Dict TrustChain → SavedChains → Result SavedChains
unfolding save_chain
save_all [] saved = ok saved
save_all ((ta, tc) ∷ tc_dict) saved = save_chain ta tc saved >>= λ saved'. save_all tc_dict saved'

unfoldable pub save_trust_chains : List TrustChain → SavedChains → Result SavedChains
unfolding save_all
save_trust_chains trust_chains saved = save_all (chains2dict trust_chains) saved

-- `get_trust_chain` with a trust anchor; the chains of an entity that are an empty dictionary are as none.
unfoldable pub get_trust_chain : String → String → SavedChains → Option TrustChain
get_trust_chain entity_id trust_anchor saved = elim (lookup entity_id saved) [
  | none ↦ none
  | some trust_info ↦ lookup trust_anchor trust_info
]

saved_chain :
    (ta leaf entity_id trust_anchor : String) (tc : TrustChain) (saved out : SavedChains)
    → get_elem? tc.iss_path 0 ≡ some leaf
    → save_chain ta tc saved ≡ ok out
    → get_trust_chain entity_id trust_anchor out ≡ (
        if entity_id == leaf && trust_anchor == ta
        then some tc
        else get_trust_chain entity_id trust_anchor saved)
unfolding save_chain get_trust_chain
saved_chain ta leaf entity_id trust_anchor tc saved out first run =
    elim (Option-cases (lookup leaf saved)) [
      | inl nothing ↦ ground (
        arith,
        first,
        run,
        nothing,
        lookup-insert entity_id leaf ((ta, tc) ∷ []) saved,
        lookup-cons trust_anchor ta tc [],
        lookup-nil {V = TrustChain} trust_anchor,
      )
      | inr (by_anchor, here) ↦ ground (
        arith,
        first,
        run,
        here,
        lookup-insert entity_id leaf (insert ta tc by_anchor) saved,
        lookup-insert trust_anchor ta tc by_anchor,
      )
    ]

-- A chain takes the place of another if it has fewer statements.
abbrev pub shorter : TrustChain → Option TrustChain → Option TrustChain
shorter tc none = some tc
shorter tc (some kept) =
    if ltb (length tc.verified_chain) (length kept.verified_chain) then some tc else some kept

-- The first of the chains with the anchor that have the fewest statements; `kept` comes before them.
abbrev pub shortest : String → Option TrustChain → List TrustChain → Option TrustChain
shortest trust_anchor kept [] = kept
shortest trust_anchor kept (tc ∷ chains) =
    shortest trust_anchor (if trust_anchor == tc.anchor then shorter tc kept else kept) chains

lookup-put :
    (ta : String) (res : Dict TrustChain) (tc : TrustChain)
    → lookup ta (elim (lookup tc.anchor res) [
      | none ↦ insert tc.anchor tc res
      | some kept ↦
          if ltb (length tc.verified_chain) (length kept.verified_chain)
          then insert tc.anchor tc res
          else res
    ])
      ≡ (if ta == tc.anchor then shorter tc (lookup ta res) else lookup ta res)
lookup-put ta res tc = elim (string_dec ta tc.anchor) [
  | yes same ↦
      let here : lookup ta res ≡ lookup tc.anchor res = ap (λ k. lookup k res) same in
      ground (arith, same, here, lookup-insert ta tc.anchor tc res)
  | no differ ↦ ground (arith, differ, lookup-insert ta tc.anchor tc res)
]

lookup-chains2dict_from :
    (ta : String) (chains : List TrustChain) (res : Dict TrustChain)
    → lookup ta (chains2dict_from res chains) ≡ shortest ta (lookup ta res) chains
unfolding chains2dict_from
lookup-chains2dict_from ta [] res = refl
lookup-chains2dict_from ta (tc ∷ chains) res =
    lookup-chains2dict_from ta chains _
    ∙ ap (λ kept. shortest ta kept chains) (lookup-put ta res tc)

-- No key is there twice.
IsUnique : Dict TrustChain → Type 0
IsUnique [] = Unit
IsUnique ((ta, tc) ∷ d) = (lookup ta d ≡ none) × IsUnique d

still_none :
    (other ta : String) (tc : TrustChain) (d : Dict TrustChain)
    → lookup other d ≡ none
    → (ta == other) ≡ false
    → lookup other (insert ta tc d) ≡ none
still_none other ta tc d once differ = ground (arith, once, differ, lookup-insert other ta tc d)

insert-IsUnique :
    (ta : String) (tc : TrustChain) (d : Dict TrustChain) → IsUnique d → IsUnique (insert ta tc d)
unfolding insert IsUnique lookup
insert-IsUnique ta tc [] unique = (refl, tt)
insert-IsUnique ta tc ((other, kept) ∷ d) (once, unique) = elim (Bool-cases (ta == other)) [
  | inl same ↦
      subst (λ b. IsUnique (if b then (other, tc) ∷ d else (other, kept) ∷ insert ta tc d))
        (sym same) (once, unique)
  | inr differ ↦
      subst (λ b. IsUnique (if b then (other, tc) ∷ d else (other, kept) ∷ insert ta tc d))
        (sym differ) (still_none other ta tc d once differ, insert-IsUnique ta tc d unique)
]

-- The chain leads from the entity.
abbrev pub leads_from : String → TrustChain → Bool
leads_from entity_id tc = elim (get_elem? tc.iss_path 0) [
  | none ↦ false
  | some leaf ↦ entity_id == leaf
]

no_leaf :
    {X : Type 0} (ta : String) (tc : TrustChain) (saved out : SavedChains)
    → get_elem? tc.iss_path 0 ≡ none
    → save_chain ta tc saved ≡ ok out
    → X
unfolding save_chain
no_leaf ta tc saved out none_there run = ground (arith, none_there, run)

search_after_all :
    (d : Dict TrustChain) (entity_id ta : String) (saved out : SavedChains)
    → IsUnique d
    → save_all d saved ≡ ok out
    → get_trust_chain entity_id ta out ≡ (elim (lookup ta d) [
      | none ↦ get_trust_chain entity_id ta saved
      | some tc ↦ if leads_from entity_id tc then some tc else get_trust_chain entity_id ta saved
    ])
unfolding save_all IsUnique lookup
search_after_all [] entity_id ta saved out unique run = ground (arith, run)
search_after_all ((first, tc) ∷ d) entity_id ta saved out (once, unique) run =
    let (mid, saves, rest) = >>=-eq-ok (save_chain first tc saved) (λ s. save_all d s) run in
    let later = search_after_all d entity_id ta mid out unique rest in
    elim (Option-cases (get_elem? tc.iss_path 0)) [
      | inl none_there ↦ no_leaf first tc saved mid none_there saves
      | inr (leaf, here) ↦
          let now = saved_chain first leaf entity_id ta tc saved mid here saves in
          elim (string_dec ta first) [
            | yes same ↦
                let gone : lookup ta d ≡ none = ap (λ k. lookup k d) same ∙ once in
                ground (arith, later, now, same, here, gone)
            | no differ ↦ ground (arith, later, now, differ, here)
          ]
    ]

put-IsUnique :
    (tc : TrustChain) (res : Dict TrustChain) (found : Option TrustChain)
    → IsUnique res
    → IsUnique (elim found [
      | none ↦ insert tc.anchor tc res
      | some kept ↦
          if ltb (length tc.verified_chain) (length kept.verified_chain)
          then insert tc.anchor tc res
          else res
    ])
put-IsUnique tc res none unique = insert-IsUnique tc.anchor tc res unique
put-IsUnique tc res (some kept) unique =
    elim (Bool-cases (ltb (length tc.verified_chain) (length kept.verified_chain))) [
      | inl fewer ↦
          subst (λ b. IsUnique (if b then insert tc.anchor tc res else res)) (sym fewer)
            (insert-IsUnique tc.anchor tc res unique)
      | inr more ↦
          subst (λ b. IsUnique (if b then insert tc.anchor tc res else res)) (sym more) unique
    ]

chains2dict_from-IsUnique :
    (chains : List TrustChain) (res : Dict TrustChain)
    → IsUnique res
    → IsUnique (chains2dict_from res chains)
unfolding chains2dict_from
chains2dict_from-IsUnique [] res unique = unique
chains2dict_from-IsUnique (tc ∷ chains) res unique =
    chains2dict_from-IsUnique chains _ (put-IsUnique tc res (lookup tc.anchor res) unique)

-- Of the trust chains that are saved, one for each anchor is found again, the first of those to the anchor
-- that have the fewest statements, under the entity that it leads from; what was found under others stays.
pub get_trust_chain-save_trust_chains :
    (entity_id trust_anchor : String) (chains : List TrustChain) (saved out : SavedChains)
    → save_trust_chains chains saved ≡ ok out
    → get_trust_chain entity_id trust_anchor out ≡ (elim (shortest trust_anchor none chains) [
      | none ↦ get_trust_chain entity_id trust_anchor saved
      | some tc ↦
          if leads_from entity_id tc then some tc else get_trust_chain entity_id trust_anchor saved
    ])
unfolding save_trust_chains chains2dict lookup IsUnique
get_trust_chain-save_trust_chains entity_id trust_anchor chains saved out run =
    search_after_all (chains2dict_from [] chains) entity_id trust_anchor saved out
      (chains2dict_from-IsUnique chains [] tt) run
    ∙ ap
        (λ found. elim found [
          | none ↦ get_trust_chain entity_id trust_anchor saved
          | some tc ↦
              if leads_from entity_id tc
              then some tc
              else get_trust_chain entity_id trust_anchor saved
        ])
        (lookup-chains2dict_from trust_anchor chains [])
