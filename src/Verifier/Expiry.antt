-- ===== src/Verifier/Expiry.antt =====
-- When a trust chain expires: `trust_chain_expires_at` of src/fedservice/entity/function/verifier.py.
-- No `exp` is before the epoch.
use fedservice.Verifier.{trust_chain_expires_at, new_trust_chain, expires_from}
use fedservice.Statement.{EntityStatement, is_expired}
use fedservice.Prelude.{
  String, ◌≡◌, refl, Bool, true, false, ◌&&◌, ◌||◌, List, [], ◌∷◌, arith, any, all,
}
use fedservice.Prelude.Int.{ℤ, pos, ltb_ℤ, leb_ℤ}

abbrev pub after_epoch : List EntityStatement → Bool
after_epoch chain = all (λ es. leb_ℤ (pos 0) es.exp) chain

&&-eq-true : {a b : Bool} → (a && b) ≡ true → (a ≡ true) × (b ≡ true)
&&-eq-true {a = true} h = (refl, h)
&&-eq-true {a = false} h = cc

expired_from :
    (now exp : ℤ) (chain : List EntityStatement)
    → leb_ℤ (pos 0) exp ≡ true
    → after_epoch chain ≡ true
    → ltb_ℤ (expires_from exp chain) now ≡ (ltb_ℤ exp now || any (λ es. ltb_ℤ es.exp now) chain)
unfolding expires_from
expired_from now exp [] start natural = ground arith
expired_from now exp (es ∷ chain) start natural =
    let here = (&&-eq-true {a = leb_ℤ (pos 0) es.exp} natural).0 in
    let later = (&&-eq-true {a = leb_ℤ (pos 0) es.exp} natural).1 in
    ground (arith, expired_from now es.exp chain here later, expired_from now exp chain start later)

-- A verified trust chain, none of whose statements expires before the epoch, is expired as soon
-- as one of its statements is, and not before.
pub is_expired-new_trust_chain :
    (now : ℤ) (chain : List String) (first : EntityStatement) (rest : List EntityStatement)
    → after_epoch (first ∷ rest) ≡ true
    → is_expired now (new_trust_chain chain first rest)
      ≡ any (λ es. ltb_ℤ es.exp now) (first ∷ rest)
unfolding is_expired new_trust_chain trust_chain_expires_at expires_from
is_expired-new_trust_chain now chain first rest natural =
    expired_from now first.exp rest (&&-eq-true {a = leb_ℤ (pos 0) first.exp} natural).0
      (&&-eq-true {a = leb_ℤ (pos 0) first.exp} natural).1
