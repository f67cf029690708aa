-- ===== src/Policy/Along.antt =====
-- Along a chain: what the policy gathered from all its statements permits for a claim.
use fedservice.Policy.Combine.Rule.{lookup-combined}
use fedservice.Prelude.{
  sym, ◌∙◌, policy_error, ◌>>=◌, ap, Bool-cases, not, string_dec, Option-cases, inl, inr, ◌⊎◌,
  if◌then◌else◌, String, ◌≡◌, refl, Bool, true, false, ◌&&◌, List, [], ◌∷◌, ◌++◌, arith, ok, none,
  some, >>=-eq-ok, is_empty, guard,
}
use fedservice.Prelude.Dict.{has_key-eq-lookup, lookup, has_key, lookup-nil}
use fedservice.Value.{Value, Atom}
use fedservice.Statement.{EntityStatement}
use fedservice.Policy.Combine.{Metadata, ClaimPolicy, MetadataPolicy, Rules, combine_claim_policy}
use fedservice.Policy.Combine.Meaning.{permits, is_intersected, permits-combine_claim_policy}
use fedservice.Policy.Apply.{claim_policy}
use fedservice.Policy.Gather.{combine_shared, only_in, combine_policies, combine, combine_metadata}
use fedservice.Policy.Chain.{disjoint, rules_of, gather_from, gather_policies, nothing}

lookup-append :
    (k : String) (p q : MetadataPolicy)
    → lookup k (p ++ q) ≡ elim (lookup k p) [ none ↦ lookup k q | some v ↦ some v ]
unfolding lookup
lookup-append k [] q = refl
lookup-append k ((j, v) ∷ p) q = ground (arith, lookup-append k p q)

lookup-only_in :
    (k : String) (p other : MetadataPolicy)
    → lookup k (only_in p other) ≡ (if has_key k other then none else lookup k p)
unfolding only_in lookup
lookup-only_in k [] other = ground arith
lookup-only_in k ((j, v) ∷ p) other = ground (arith, lookup-only_in k p other)

-- A shared claim is combined; any other is not in the first part.
lookup-combine_shared :
    (claim : String) (sup sub : MetadataPolicy) {shared : MetadataPolicy}
    → combine_shared sup sub ≡ ok shared
    → (((rule : ClaimPolicy) × (child : ClaimPolicy) × (combined : ClaimPolicy) × (lookup claim sup
          ≡ some rule)
        × (lookup claim sub ≡ some child)
        × (combine_claim_policy rule child ≡ ok combined)
        × (lookup claim shared ≡ some combined)))
      ⊎ ((lookup claim shared ≡ none) × ((lookup claim sup ≡ none) ⊎ (lookup claim sub ≡ none)))
unfolding combine_shared lookup
lookup-combine_shared claim [] sub h = inr (ground arith, inl refl)
lookup-combine_shared claim ((j, rule) ∷ sup) sub {shared} h = elim (Option-cases (lookup j sub)) [
  | inl missing ↦
      let later = lookup-combine_shared claim sup sub (rw (missing, combine_shared) at h) in
      elim later [
        | inl (r, c, both, e, f, g, k) ↦ elim (string_dec claim j) [
          | yes same ↦ ground arith
          | no differ ↦ inl (r, c, both, ground arith, f, g, k)
        ]
        | inr (gone, which) ↦ elim (string_dec claim j) [
          | yes same ↦ inr (gone, inr (ground arith))
          | no differ ↦ inr (gone, ground arith)
        ]
      ]
  | inr (child, found) ↦
      let (both, run, more) =
        >>=-eq-ok (combine_claim_policy rule child) _ (rw (found, combine_shared) at h) in
      let (rest, f, last) = >>=-eq-ok (combine_shared sup sub) _ more in
      elim (string_dec claim j) [
        | yes same ↦ inl (rule, child, both, ground arith, ground arith, run, ground arith)
        | no differ ↦ elim (lookup-combine_shared claim sup sub f) [
          | inl (r, c, joined, e, f', g, k) ↦ inl (r, c, joined, ground arith, f', g, ground arith)
          | inr (gone, which) ↦ inr (ground arith, ground arith)
        ]
      ]
]

-- No `value` for the claim.
abbrev pub free_of_value : String → MetadataPolicy → Bool
free_of_value claim policy = not (has_key "value" (claim_policy claim policy))

lookup-combine_policies :
    (claim : String) (sup sub shared : MetadataPolicy)
    → lookup claim (shared ++ (only_in sup sub ++ only_in sub sup)) ≡ elim (lookup claim shared) [
      | none ↦ elim (if has_key claim sub then none else lookup claim sup) [
        | none ↦ if has_key claim sup then none else lookup claim sub
        | some v ↦ some v
      ]
      | some v ↦ some v
    ]
lookup-combine_policies claim sup sub shared = ground (
  arith,
  lookup-append claim shared (only_in sup sub ++ only_in sub sup),
  lookup-append claim (only_in sup sub) (only_in sub sup),
  lookup-only_in claim sup sub,
  lookup-only_in claim sub sup,
)

combined_value :
    (superior child : ClaimPolicy) {rule : ClaimPolicy}
    → combine_claim_policy superior child ≡ ok rule
    → has_key "value" superior ≡ false
    → has_key "value" child ≡ false
    → has_key "value" rule ≡ false
combined_value superior child {rule} h a b =
    let free : lookup "value" superior ≡ none =
      ground (arith, has_key-eq-lookup "value" superior) in
    elim (lookup-combined superior child "value" h free (unfold string_dec in refl)) [
      | inl (stated, found) ↦ ground arith
      | inr (absent, gone) ↦ ground (arith, has_key-eq-lookup "value" rule)
    ]

nothing_stated :
    (claim : String) (policy : MetadataPolicy)
    → is_empty policy ≡ true
    → claim_policy claim policy ≡ []
unfolding lookup
nothing_stated claim [] h = refl
nothing_stated claim (entry ∷ policy) h = cc

kept :
    (sup sub : Rules) (metadata : Metadata) {both : Rules}
    → (if is_empty sub.metadata_policy
        then ok (record {
          metadata_policy = sup.metadata_policy;
          metadata = if is_empty metadata then sup.metadata else metadata;
        })
        else combine_policies sup.metadata_policy sub.metadata_policy >>= λ policy. ok (record {
          metadata_policy = policy;
          metadata = if is_empty metadata then sup.metadata else metadata;
        }))
      ≡ ok both
    → is_empty sub.metadata_policy ≡ true
    → both.metadata_policy ≡ sup.metadata_policy
kept sup sub metadata h e = ground arith

-- What every statement of the chain permits for the claim.
abbrev pub all_permit : String → String → Atom → String → List EntityStatement → Bool
all_permit name claim x entity_type [] = true
all_permit name claim x entity_type (es ∷ chain) =
    permits name (claim_policy claim (rules_of es entity_type).metadata_policy) x
    && all_permit name claim x entity_type chain

-- No statement of the chain has a `value` for the claim.
abbrev pub NoValue : String → String → List EntityStatement → Type 0
NoValue claim entity_type [] = Unit
NoValue claim entity_type (es ∷ chain) =
    (free_of_value claim (rules_of es entity_type).metadata_policy ≡ true)
    × NoValue claim entity_type chain

module _ (name claim : String) (x : Atom) (i : is_intersected name ≡ true) where
  -- The result permits what both permit, and states no `value`.
  abbrev Joined : ClaimPolicy → ClaimPolicy → ClaimPolicy → Type 0
  Joined both sup sub =
      (permits name both x ≡ (permits name sup x && permits name sub x))
      × (not (has_key "value" both) ≡ true)

  Joined-left : (p : ClaimPolicy) → not (has_key "value" p) ≡ true → Joined p p []
  Joined-left p h = (ground (arith, lookup-nil {V = Value} name), h)

  Joined-right : (p : ClaimPolicy) → not (has_key "value" p) ≡ true → Joined p [] p
  Joined-right p h = (ground (arith, lookup-nil {V = Value} name), h)

  Joined-at :
      (p q r p' q' r' : ClaimPolicy) → p ≡ p' → q ≡ q' → r ≡ r' → Joined p' q' r' → Joined p q r
  Joined-at p q r p' q' r' e f g j = rw (e, f, g) j

  combine_policies-permits :
      (sup sub : MetadataPolicy) {both : MetadataPolicy}
      → combine_policies sup sub ≡ ok both
      → free_of_value claim sup ≡ true
      → free_of_value claim sub ≡ true
      → Joined (claim_policy claim both) (claim_policy claim sup) (claim_policy claim sub)
  unfolding combine_policies
  combine_policies-permits sup sub {both} h fs ft =
      let (shared, run, last) = >>=-eq-ok (combine_shared sup sub) _ h in
      let found = lookup-combine_policies claim sup sub shared in
      elim (lookup-combine_shared claim sup sub run) [
        | inl (rule, child, joined, e, f, g, k) ↦
            Joined-at (claim_policy claim both) (claim_policy claim sup) (claim_policy claim sub)
              joined rule child (ground arith) (ground arith) (ground arith)
              (
                permits-combine_claim_policy name rule child x i
                    (ground (arith, has_key-eq-lookup "value" rule)) g,
                ground (arith, combined_value rule child g),
              )
        | inr (gone, inl no_sup) ↦
            Joined-at (claim_policy claim both) (claim_policy claim sup) (claim_policy claim sub)
              (claim_policy claim sub) [] (claim_policy claim sub)
              (ground (arith, has_key-eq-lookup claim sub, has_key-eq-lookup claim sup))
              (ground arith) refl (Joined-right (claim_policy claim sub) ft)
        | inr (gone, inr no_sub) ↦
            Joined-at (claim_policy claim both) (claim_policy claim sup) (claim_policy claim sub)
              (claim_policy claim sup) (claim_policy claim sup) []
              (ground (arith, has_key-eq-lookup claim sub, has_key-eq-lookup claim sup)) refl
              (ground arith) (Joined-left (claim_policy claim sup) fs)
      ]

  combine-permits :
      (sup sub : Rules) {both : Rules}
      → combine sup sub ≡ ok both
      → free_of_value claim sup.metadata_policy ≡ true
      → free_of_value claim sub.metadata_policy ≡ true
      → Joined
          (claim_policy claim both.metadata_policy)
          (claim_policy claim sup.metadata_policy)
          (claim_policy claim sub.metadata_policy)
  unfolding combine
  combine-permits sup sub {both} h fs ft =
      let (metadata, e, rest) = >>=-eq-ok (combine_metadata sup.metadata sub.metadata) _ h in
      elim (Bool-cases (is_empty sub.metadata_policy)) [
        | inl none_stated ↦
            Joined-at _ _ _ (claim_policy claim sup.metadata_policy)
              (claim_policy claim sup.metadata_policy) []
              (ap (claim_policy claim) (kept sup sub metadata rest none_stated)) refl
              (nothing_stated claim sub.metadata_policy none_stated)
              (Joined-left (claim_policy claim sup.metadata_policy) fs)
        | inr stated ↦
            let (policy, run, last) =
              >>=-eq-ok (combine_policies sup.metadata_policy sub.metadata_policy) _
                (rw stated at rest) in
            Joined-at _ _ _ (claim_policy claim policy) _ _ (ground arith) refl refl
              (combine_policies-permits sup.metadata_policy sub.metadata_policy run fs ft)
      ]

  and_true : (b : Bool) → b ≡ (b && true)
  and_true b = ground arith

  skip_nothing : (a b c : Bool) → b ≡ true → (a && c) ≡ (a && (b && c))
  skip_nothing a b c h = ground arith

  regroup : (j a b c : Bool) → j ≡ (a && b) → (j && c) ≡ (a && (b && c))
  regroup j a b c h = ground arith

  empty_permits :
      (r : Rules) → nothing r ≡ true → permits name (claim_policy claim r.metadata_policy) x ≡ true
  empty_permits r h =
      let none_stated = nothing_stated claim r.metadata_policy (ground arith) in
      ap (λ p. permits name p x) none_stated ∙ ground (arith, lookup-nil {V = Value} name)

  gather_from-permits :
      (entity_type : String) (rule : Rules) (chain : List EntityStatement) {final : Rules}
      → gather_from entity_type rule chain ≡ ok final
      → free_of_value claim rule.metadata_policy ≡ true
      → NoValue claim entity_type chain
      → permits name (claim_policy claim final.metadata_policy) x ≡ (
          permits name (claim_policy claim rule.metadata_policy) x
          && all_permit name claim x entity_type chain)
  unfolding gather_from
  gather_from-permits entity_type rule [] {final} h free nv =
      let same : rule ≡ final = ground arith in
      ap (λ (r : Rules). permits name (claim_policy claim r.metadata_policy) x) (sym same)
      ∙ and_true _
  gather_from-permits entity_type rule (es ∷ chain) {final} h free (here, later) =
      elim (Bool-cases (nothing (rules_of es entity_type))) [
        | inl empty ↦
            let ih = gather_from-permits entity_type rule chain (rw empty at h) free later in
            ih ∙ skip_nothing _ _ _ (empty_permits (rules_of es entity_type) empty)
        | inr stated ↦
            let (_, checked, more) =
              >>=-eq-ok (guard (disjoint (rules_of es entity_type)) policy_error) _
                (rw stated at h) in
            let (combined, run, rest) = >>=-eq-ok (combine rule (rules_of es entity_type)) _ more in
            let (both, still) = combine-permits rule (rules_of es entity_type) run free here in
            let ih = gather_from-permits entity_type combined chain rest still later in
            ih ∙ regroup _ _ _ _ both
      ]

  -- The policy gathered along a chain permits, by each of the operators `subset_of`, `superset_of`
  -- and `one_of`, exactly what the policies of all the statements of the chain permit for the claim,
  -- if none of them states a `value` for it.
  pub gather_policies-permits :
      (entity_type : String) (chain : List EntityStatement) {final : Rules}
      → gather_policies chain entity_type ≡ ok final
      → NoValue claim entity_type chain
      → permits name (claim_policy claim final.metadata_policy) x
        ≡ all_permit name claim x entity_type chain
  unfolding gather_policies
  gather_policies-permits entity_type [] h nv = cc
  gather_policies-permits entity_type (es ∷ chain) h (here, later) =
      gather_from-permits entity_type (rules_of es entity_type) chain h here later
