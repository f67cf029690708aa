-- ===== src/Tests/Trawling.antt =====
-- The search for the entities of a type on concrete data.
use fedservice.Prelude.{
  lift, ℕ, ◌<◌, String, ◌≡◌, refl, sym, ap, ◌∙◌, Bool, true, false, Option, none, some, List, [],
  ◌∷◌, arith, if◌then◌else◌, string_dec, ◌==◌, Result, ok, raised, ◌≢◌, out_of_fuel,
}
use fedservice.Prelude.Dict.{lookup, has_key, mem}
use fedservice.Prelude.Int.{pos}
use fedservice.Value.{text}
use fedservice.Entity.Trawl.{Requests, trawl, trawl_each, read_subordinate}
use fedservice.Entity.Trawl.Ends.{Sound}
use fedservice.Entity.Trawl.Steps.{Found}
use fedservice.Entity.Trawl.Found.{trawl-Found}
use fedservice.Statement.{EntityStatement}
use fedservice.Tests.World.{entity, rp_config, ta_config}

-- The Trust Anchor lists the client and, as intermediate, an entity that lists nothing.
abbrev lister : EntityStatement
lister = record ta_config {
  metadata =
      some
        (("federation_entity", ("federation_list_endpoint", text "https://ta.org/list") ∷ []) ∷ []);
}

abbrev middle : EntityStatement
middle = record rp_config {
  sub = "https://int.org";
  metadata = some (("oauth_client", []) ∷ ("federation_entity", []) ∷ []);
}

abbrev requests : Requests
requests = record {
  statement = λ superior sub. lift (ok ta_config);
  configuration = λ sub. lift (ok (if sub == "https://ta.org" then lister else middle));
  typed = λ at entity_type. lift (ok (some ("https://rp.org" ∷ [])));
  intermediates =
      λ at. lift (ok (if at == "https://ta.org" then some ("https://int.org" ∷ []) else none));
  import_jwks = λ keyjar jwks sub. ok keyjar;
}

abbrev rank : String → ℕ
rank at = if at == "https://ta.org" then 1 else 0

not_raised : {A : Type 0} (a : A) → ok a ≢ raised out_of_fuel
not_raised a same = cc

only_one :
    (entity_id : String)
    → mem entity_id ("https://int.org" ∷ []) ≡ true
    → entity_id ≡ "https://int.org"
only_one entity_id within = ground (arith, within)

single_below :
    (b : Bool) (entity_id : String) (ids : List String)
    → ◌≡◌ {A = Result (Option (List String))}
        (ok (if b then some ("https://int.org" ∷ []) else none))
        (ok (some ids))
    → mem entity_id ids ≡ true
    → (b ≡ true) × (entity_id ≡ "https://int.org")
single_below true entity_id ids names within =
    let same : ids ≡ "https://int.org" ∷ [] = cc in
    (refl, only_one entity_id (ap (λ l. mem entity_id l) (sym same) ∙ within))
single_below false entity_id ids names within = cc

zero_rank : rank "https://int.org" ≡ 0
unfolding string_dec
zero_rank = refl

smaller :
    (at entity_id : String)
    → (at == "https://ta.org") ≡ true
    → entity_id ≡ "https://int.org"
    → rank entity_id < rank at
smaller at entity_id listing below =
    let none_below = ap (λ e. rank e) below ∙ zero_rank in ground (arith, listing, none_below)

requests-Sound : Sound (pos 100) requests rank
requests-Sound = record {
  statement_ne = λ superior sub self. not_raised ta_config;
  configuration_ne = λ sub self. not_raised (if sub == "https://ta.org" then lister else middle);
  typed_ne = λ at entity_type self. not_raised (some ("https://rp.org" ∷ []));
  intermediates_ne = λ at self.
      not_raised {A = Option (List String)}
        (if at == "https://ta.org" then some ("https://int.org" ∷ []) else none);
  import_ne = λ keyjar jwks sub. not_raised keyjar;
  ranked = λ at entity_id ids self names within.
      let (listing, below) = single_below (at == "https://ta.org") entity_id ids names within in
      smaller at entity_id listing below;
}

trawl-Found_example :
    ((trawl (pos 100) requests 2 "https://top.org" "https://ta.org" "oauth_client" entity).1
      ≢ raised out_of_fuel)
    × ((found : List String) (entity_id : String)
        → (trawl (pos 100) requests 2 "https://top.org" "https://ta.org" "oauth_client" entity).1
          ≡ ok found
        → mem entity_id found ≡ true
        → Found
            (pos 100)
            requests
            2
            "https://top.org"
            "https://ta.org"
            "oauth_client"
            entity
            entity_id)
unfolding string_dec
trawl-Found_example =
    trawl-Found (pos 100) requests rank 2 "https://top.org" "https://ta.org" "oauth_client" entity
      requests-Sound (omega arith)

both :
    (trawl (pos 100) requests 2 "https://top.org" "https://ta.org" "oauth_client" entity).1
    ≡ ok ("https://rp.org" ∷ "https://int.org" ∷ [])
unfolding trawl trawl_each read_subordinate has_key lookup string_dec
both = refl
