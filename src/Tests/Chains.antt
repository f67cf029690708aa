-- ===== src/Tests/Chains.antt =====
-- Constraints: src/fedservice/entity_statement/constraints.py on concrete chains.
use fedservice.Constraints.Chain.{meets_restrictions-permitted, permitted_by}
use fedservice.Constraints.PathLength.{meets_restrictions-without_paths, without_paths}
use fedservice.Constraints.Excluded.{exclusion_lifted, excludes}
use fedservice.Constraints.Narrowing.{update_specs_narrows, Covered}
use fedservice.Constraints.{meets_restrictions, update_specs}
use fedservice.Prelude.{
  arith, string_dec, value_error, ◌≡◌, refl, String, true, false, [], ◌∷◌, Option, none, some, ok,
  raised,
}
use fedservice.Prelude.Int.{pos}
use fedservice.Statement.{EntityStatement, Constraints}
use fedservice.Constraints.Names.{more_specific}

under_domain : more_specific "https://op.example.org" "https://.example.org" ≡ ok true
unfolding more_specific
under_domain = refl

no_scheme : more_specific "op.example.org" "https://.example.org" ≡ raised value_error
unfolding more_specific
no_scheme = refl

update_specs_narrows_example :
    Covered "https://a.op.example.org" ("https://.example.org" ∷ "https://x.net" ∷ [])
unfolding update_specs more_specific string_dec
update_specs_narrows_example =
    update_specs_narrows ("https://.op.example.org" ∷ [])
      ("https://.example.org" ∷ "https://x.net" ∷ []) "https://a.op.example.org"
      {updated = "https://.op.example.org" ∷ "https://x.net" ∷ []} refl
      ("https://.op.example.org", refl, refl)

abbrev statement : String → String → Option Constraints → EntityStatement
statement iss sub constraints = record {
  iss = iss;
  sub = sub;
  exp = pos 100;
  jwks = none;
  authority_hints = none;
  metadata = none;
  metadata_policy = none;
  constraints = constraints;
  jws = none;
}

abbrev limits : Option Constraints
limits = some (record {
  max_path_length = some (pos 0);
  naming_constraints = some (record { permitted = some ("https://.org" ∷ []); excluded = none });
})

abbrev ta_statement : EntityStatement
ta_statement = statement "https://ta.org" "https://org.org" limits

abbrev org_statement : EntityStatement
org_statement = statement "https://org.org" "https://op.org" none

abbrev op_configuration : EntityStatement
op_configuration = statement "https://op.org" "https://op.org" none

-- Two statements below the Trust Anchor's, under a `max_path_length` of 0.
chain_run : meets_restrictions (ta_statement ∷ org_statement ∷ op_configuration ∷ []) ≡ ok true
unfolding meets_restrictions more_specific
chain_run = refl

meets_restrictions-permitted_example : Covered "https://op.org" (permitted_by ta_statement)
meets_restrictions-permitted_example =
    meets_restrictions-permitted ta_statement org_statement (op_configuration ∷ []) refl refl
      chain_run

meets_restrictions-without_paths_example :
    meets_restrictions (ta_statement ∷ org_statement ∷ op_configuration ∷ [])
    ≡ meets_restrictions (without_paths (ta_statement ∷ org_statement ∷ op_configuration ∷ []))
meets_restrictions-without_paths_example =
    meets_restrictions-without_paths (ta_statement ∷ org_statement ∷ op_configuration ∷ [])
      (omega arith)

-- The Trust Anchor excludes a domain, the intermediate one host in it.
abbrev outer : EntityStatement
outer = record (statement "https://ta.net" "https://im.net" none) {
  constraints = some (excludes "https://.org");
}

abbrev inner : EntityStatement
inner = record (statement "https://im.net" "https://b.org" none) {
  constraints = some (excludes "https://a.org");
}

exclusion_lifted_example :
    (meets_restrictions (outer ∷ inner ∷ statement "https://b.org" "https://b.org" none ∷ [])
      ≡ ok true)
    × (meets_restrictions (
          outer
          ∷ record inner { constraints = none }
          ∷ statement "https://b.org" "https://b.org" none
          ∷ [])
        ≡ ok false)
unfolding more_specific
exclusion_lifted_example =
    exclusion_lifted "https://.org" "https://a.org" outer inner
      (statement "https://b.org" "https://b.org" none) refl refl refl refl refl refl refl
