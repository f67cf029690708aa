-- ===== src/AppServer/Request/Filtered.antt =====
-- Which claims src/fedservice/appserver/oauth2/registration.py leaves in a request.
use fedservice.AppServer.Request.{
  array, preferred, Capabilities, match_list, of_set, capabilities_mismatch, match_claim,
}
use fedservice.Prelude.{
  String, ◌≡◌, refl, true, ◌&&◌, some, List, [], ◌∷◌, arith, ok, raised, ◌>>=◌, >>=-eq-ok,
}
use fedservice.Prelude.Dict.{lookup}
use fedservice.Value.{has-intersection, Items, has, intersection, to_set, Value, Atom}

-- What is offered is common to both.
abbrev pub Common : Value → Value → Value → Type 0
Common mine asked given =
    (s : List Atom) × (t : List Atom) × (both : List Atom) × (to_set mine ≡ ok s)
    × (to_set asked ≡ ok t)
    × (given ≡ of_set both)
    × ((a : Atom) → has a both ≡ (has a s && has a t))

intersected :
    (both s t : List Atom) (given : Value)
    → intersection s t ≡ both
    → elim both [ [] ↦ raised capabilities_mismatch | a ∷ rest ↦ ok (some (of_set (a ∷ rest))) ]
      ≡ ok (some given)
    → given ≡ of_set both
intersected [] s t given same run = cc
intersected (a ∷ rest) s t given same run = cc

-- Of a claim that is a list, a value that is a list itself is cut down to what it has in common with the
-- value of the endpoint: what `match_claim` gives is the list of exactly those members.
pub match_claim-Common :
    (context : Capabilities) (claim : String) (mine : Value) (xs : Items) (given : Value)
    → lookup (preferred context claim) context.provider_info ≡ some mine
    → lookup claim context.is_list_claim ≡ some true
    → match_claim context claim (array xs) ≡ ok (some given)
    → Common mine (array xs) given
unfolding match_claim match_list
match_claim-Common context claim mine xs given known listed run =
    let (s, mine_set, run1) =
      >>=-eq-ok (to_set mine)
        (λ s. to_set (array xs) >>= λ t. elim (intersection s t) [
          | [] ↦ raised capabilities_mismatch
          | a ∷ both ↦ ok (some (of_set (a ∷ both)))
        ])
        (ground (arith, known, listed, run)) in
    let (t, asked_set, run2) =
      >>=-eq-ok (to_set (array xs))
        (λ t. elim (intersection s t) [
          | [] ↦ raised capabilities_mismatch
          | a ∷ both ↦ ok (some (of_set (a ∷ both)))
        ])
        run1 in
    (
      s,
      t,
      intersection s t,
      mine_set,
      asked_set,
      intersected (intersection s t) s t given refl run2,
      λ a. has-intersection a s t,
    )
