-- ===== src/Messages/Extensions.antt =====
-- Critical extensions: src/fedservice/message.py.
use fedservice.Messages.{unknown, check_extensions}
use fedservice.Prelude.{
  String, ◌≡◌, inl, inr, Bool, true, false, not, ◌&&◌, Option, none, some, List, [], ◌∷◌, arith,
  Bool-cases, ok, is_empty, filter,
}
use fedservice.Prelude.Dict.{mem}

filter-empty :
    (p : String → Bool) (claim : String) (xs : List String)
    → is_empty (filter p xs) ≡ true
    → mem claim xs ≡ true
    → p claim ≡ false
filter-empty p claim [] none_left inside = ground arith
filter-empty p claim (x ∷ xs) none_left inside = elim (Bool-cases (p x)) [
  | inl holds ↦ ground arith
  | inr fails ↦ ground (arith, filter-empty p claim xs)
]

-- Where a statement names critical extensions, and its check passes, each of those that it has
-- itself is an extension that the reader knows.
pub check_extensions-known :
    (extras critical : List String) (known : Option (List String)) (claim : String)
    → check_extensions extras (some critical) known ≡ ok tt
    → mem claim extras ≡ true
    → mem claim critical ≡ true
    → elim known [ none ↦ false | some names ↦ mem claim names ] ≡ true
unfolding check_extensions
check_extensions-known [] critical known claim passes present named = ground arith
check_extensions-known (e ∷ extras) [] known claim passes present named = ground arith
check_extensions-known (e ∷ extras) (c ∷ critical) none claim passes present named = ground arith
check_extensions-known (e ∷ extras) (c ∷ critical) (some []) claim passes present named =
    ground arith
check_extensions-known (e ∷ extras) (c ∷ critical) (some (k ∷ known)) claim passes present named =
    elim (Bool-cases (is_empty (unknown (e ∷ extras) (c ∷ critical) (some (k ∷ known))))) [
      | inl all_known ↦ ground (
        arith,
        filter-empty (λ name. mem name (e ∷ extras) && not (mem name (k ∷ known))) claim
            (c ∷ critical) all_known named,
      )
      | inr unknown_left ↦ ground arith
    ]
