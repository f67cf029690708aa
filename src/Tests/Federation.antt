-- ===== src/Tests/Federation.antt =====
-- The cache, the trees of superiors, the verifier and the trust marks on concrete data.
use fedservice.Verifier.Verified.{verify-eq-some, gives}
use fedservice.Constraints.Names.{more_specific}
use fedservice.Constraints.{meets_restrictions}
use fedservice.Verifier.Expiry.{is_expired-new_trust_chain}
use fedservice.Cache.Times.{get_item-set_item}
use fedservice.TrustMarks.Issued.{find-add_mark_expired}
use fedservice.TrustMarks.Answers.{process_issue-Confirmed, Confirmed}
use fedservice.TrustMarks.Serving.{process_issue}
use fedservice.Statement.{EntityStatement, is_expired}
use fedservice.Verifier.{
  known_key, trusted_anchor, add_keys, expires_from, trust_chain_expires_at, verify_statements,
  new_trust_chain, verify_trust_chain, Jose, verify, KeyJar,
}
use fedservice.Cache.{set_item, EsCache, get_item}
use fedservice.Collect.Trees.{
  missing, no_superiors, tree2chains-eq-paths, found, superior, paths, Tree, tree2chains,
}
use fedservice.TrustMarks.{find, create_trust_mark, add_mark, TrustMarkEntity, Mark}
use fedservice.Prelude.{
  bad_signature, String, ◌≡◌, refl, true, false, Option, none, some, List, [], ◌∷◌, if◌then◌else◌,
  string_dec, ◌==◌, ok, require, any, Result,
}
use fedservice.Prelude.Dict.{lookup, has_key, insert, keys}
use fedservice.Prelude.Int.{ℤ, pos, ◌+ℤ◌, ◌-ℤ◌}
use fedservice.Value.{Value, text}

abbrev ages : EsCache ℤ
ages = record { db = ("a", pos 5) ∷ []; allowed_delta = pos 300 }

get_item-set_item_example :
    ((get_item (λ v. some v) (pos 10) "a" (set_item "a" (pos 400) ages)).1 ≡ some (pos 400))
    × ((get_item
          (λ v. some v)
          (pos 390)
          "a"
          (get_item (λ v. some v) (pos 10) "a" (set_item "a" (pos 400) ages)).0).1
        ≡ none)
unfolding string_dec ◌-ℤ◌
get_item-set_item_example =
    get_item-set_item (λ v. some v) (pos 10) (pos 390) "a" "a" (pos 400) ages

-- Two superiors, one of them with superiors of its own.
abbrev two_paths : Tree
two_paths =
    superior "im"
      (found "im-about-leaf" (superior "ta" (found "ta-about-im" no_superiors) no_superiors))
      (superior "gone" missing no_superiors)

two_chains : tree2chains two_paths ≡ ("ta-about-im" ∷ "im-about-leaf" ∷ []) ∷ [] ∷ []
unfolding tree2chains
two_chains = refl

tree2chains-eq-paths_example : tree2chains two_paths ≡ paths [] two_paths
tree2chains-eq-paths_example = tree2chains-eq-paths two_paths

abbrev statement : String → String → ℤ → Option (List Value) → EntityStatement
statement iss sub exp jwks = record {
  iss = iss;
  sub = sub;
  exp = exp;
  jwks = jwks;
  authority_hints = none;
  metadata = none;
  metadata_policy = none;
  constraints = none;
  jws = none;
}

abbrev ta_about_leaf : EntityStatement
ta_about_leaf = statement "https://ta.org" "https://op.org" (pos 100) (some (text "k2" ∷ []))

abbrev leaf : EntityStatement
leaf = statement "https://op.org" "https://op.org" (pos 80) none

abbrev payload : String → Option EntityStatement
payload token =
    if token == "t" then some ta_about_leaf else if token == "l" then some leaf else none

-- Signatures that always hold, under the keys of the issuer.
abbrev jose : Jose
jose = record {
  factory = payload;
  verify_keys = λ keyjar token. elim (payload token) [
    | none ↦ []
    | some es ↦ elim (lookup es.iss keyjar) [ none ↦ [] | some keys ↦ keys ]
  ];
  verify_compact = λ token keys. require (payload token) bad_signature;
}

abbrev anchor_keys : KeyJar
anchor_keys = ("https://ta.org", text "k1" ∷ []) ∷ []

verify-eq-some_example :
    (trusted_anchor jose anchor_keys "t" ≡ ok true)
    × (meets_restrictions (ta_about_leaf ∷ leaf ∷ []) ≡ ok true)
    × (known_key (text "k2") (text "k2" ∷ []) ≡ true
        → any (gives "https://op.org" (text "k2")) (ta_about_leaf ∷ leaf ∷ []) ≡ true)
unfolding verify verify_trust_chain verify_statements new_trust_chain trust_chain_expires_at
    expires_from add_keys has_key meets_restrictions more_specific insert lookup string_dec
verify-eq-some_example =
    verify-eq-some jose anchor_keys "t" ("l" ∷ []) "https://op.org" (text "k2")
      {keyjar' = ("https://ta.org", text "k1" ∷ []) ∷ ("https://op.org", text "k2" ∷ []) ∷ []}
      {trust_chain = new_trust_chain ("t" ∷ "l" ∷ []) ta_about_leaf (leaf ∷ [])} refl

is_expired-new_trust_chain_example :
    is_expired (pos 90) (new_trust_chain [] ta_about_leaf (leaf ∷ [])) ≡ true
is_expired-new_trust_chain_example =
    is_expired-new_trust_chain (pos 90) [] ta_about_leaf (leaf ∷ []) refl

abbrev mark_of : String → Option ℤ → Mark
mark_of sub exp = record { id = "member"; sub = sub; iat = pos 10; exp = exp; extra = [] }

find-add_mark_expired_example :
    find (pos 100) "member" "https://rp.org" (pos 0) (
      ("member", mark_of "https://rp.org" none ∷ mark_of "https://op.org" (some (pos 50)) ∷ [])
      ∷ [])
    ≡ ok false
unfolding add_mark insert lookup string_dec
find-add_mark_expired_example =
    find-add_mark_expired (pos 100) (mark_of "https://op.org" (some (pos 50))) "https://rp.org"
      (pos 0) (("member", mark_of "https://rp.org" none ∷ []) ∷ []) refl refl

abbrev issuer : TrustMarkEntity
issuer = record {
  trust_mark_specification = ("member", []) ∷ [];
  tm_lifetime = ("member", pos 60) ∷ [];
  issued = ("member", []) ∷ [];
}

-- Issued at 10 for 60 seconds, and asked for at 50.
process_issue-Confirmed_example :
    (mark : Mark) × (◌≡◌ {A = Result String} (ok "token") (ok "token"))
    × (mark.id ≡ "member")
    × (mark.sub ≡ "https://op.org")
    × Confirmed
        (pos 50)
        mark
        (process_issue (λ mark. ok "token") (pos 10) "member" "https://op.org" issuer).0
unfolding process_issue create_trust_mark add_mark insert lookup string_dec ◌+ℤ◌
process_issue-Confirmed_example =
    process_issue-Confirmed (λ mark. ok "token") (pos 10) (pos 50) "member" "https://op.org" issuer
      "token" refl
