-- ===== src/Collect/Fine.antt =====
-- Runs of the collector of src/fedservice/entity/function/trust_chain_collector.py that start from a state
-- whose cached configurations name entities of smaller rank, and end in such a state.
use fedservice.Collect.Collector.{timed_out}
use fedservice.Cache.Times.{get_item-stored, get_item-left}
use fedservice.Collect.Run.{
  is_anchor, read_delta, signed, expires, write_item, Item, del_statement, read_item, write_config,
  read_config, TrustChainCollector, Run,
}
use fedservice.Cache.{del_item, EsCache}
use fedservice.Statement.{EntityStatement}
use fedservice.Prelude.{
  continue_with, lift, ◌>>>◌, out_of_fuel, ◌≢◌, ℕ, String, ◌≡◌, refl, subst, Bool, true, false,
  Option, none, some, arith, ltb, if◌then◌else◌, Result, ok, raised, ◌>>=◌, all,
}
use fedservice.Prelude.Dict.{lookup, lookup-insert}
use fedservice.Prelude.Int.{ℤ}

-- Every hint of the configuration has a rank below `n`.
abbrev pub lower : (String → ℕ) → ℕ → EntityStatement → Bool
lower rank n config = elim config.authority_hints [
  | none ↦ true
  | some authorities ↦ all (λ authority. ltb (rank authority) n) authorities
]

-- The cached configurations have hints below the entity that they are stored for.
abbrev pub Ranked : (String → ℕ) → TrustChainCollector → Type 0
Ranked rank self =
    (entity : String) (config : EntityStatement)
    → lookup entity self.config_cache.db ≡ some config
    → lower rank (rank entity) config ≡ true

pub bind-ne {ℓ κ} :
    {A : Type ℓ} {B : Type κ} (m : Result A) (f : A → Result B)
    → m ≢ raised out_of_fuel
    → ((a : A) → f a ≢ raised out_of_fuel)
    → (m >>= f) ≢ raised out_of_fuel
bind-ne (raised e) f first rest h = first cc
bind-ne (ok a) f first rest h = rest a h

pub if-ne {ℓ} :
    {A : Type ℓ} (b : Bool) {x y : Result A}
    → x ≢ raised out_of_fuel
    → y ≢ raised out_of_fuel
    → (if b then x else y) ≢ raised out_of_fuel
if-ne true first second = first
if-ne false first second = second

pub timed_out-ne :
    (now delta : ℤ) (exp : Option Item) → timed_out now delta exp ≢ raised out_of_fuel
timed_out-ne now delta none = λ h. cc
timed_out-ne now delta (some (signed s)) = λ h. cc
timed_out-ne now delta (some (expires exp)) = λ h. cc

module _ (rank : String → ℕ) where
  -- From a ranked state, a run leaves a ranked state, does not run out of fuel, and what it
  -- returns has the property.
  pub data Fine {ℓ} {A : Type ℓ} (Q : A → Type 0) (m : Run A) : Type ℓ where
    fine :
        ((self : TrustChainCollector)
          → Ranked rank self
          → Ranked rank (m self).0
            × ((m self).1 ≢ raised out_of_fuel)
            × ((a : A) → (m self).1 ≡ ok a → Q a))
        → Fine Q m

  pub runs {ℓ} :
      {A : Type ℓ} {Q : A → Type 0} {m : Run A}
      → Fine Q m
      → (self : TrustChainCollector) → Ranked rank self
      → Ranked rank (m self).0
        × ((m self).1 ≢ raised out_of_fuel)
        × ((a : A) → (m self).1 ≡ ok a → Q a)
  runs (fine f) = f

  continue_with-Fine {ℓ κ} :
      {A : Type ℓ} {B : Type κ} (P : A → Type 0) (Q : B → Type 0) (f : A → Run B)
      (at : TrustChainCollector × Result A)
      → Ranked rank at.0
      → at.1 ≢ raised out_of_fuel
      → ((a : A) → at.1 ≡ ok a → P a)
      → ((a : A) → P a → Fine Q (f a))
      → Ranked rank (continue_with f at).0
        × ((continue_with f at).1 ≢ raised out_of_fuel)
        × ((b : B) → (continue_with f at).1 ≡ ok b → Q b)
  continue_with-Fine P Q f (self, ok a) ranked ne holds rest =
      runs (rest a (holds a refl)) self ranked
  continue_with-Fine P Q f (self, raised e) ranked ne holds rest = (ranked, λ h. ne cc, λ b h. cc)

  pub >>>-Fine {ℓ κ} :
      {A : Type ℓ} {B : Type κ} {P : A → Type 0} {Q : B → Type 0} {m : Run A} {f : A → Run B}
      → Fine P m
      → ((a : A) → P a → Fine Q (f a))
      → Fine Q (m >>> f)
  >>>-Fine {P = P} {Q = Q} {m = m} {f = f} first rest = fine λ self ranked.
      let (kept, ne, holds) = runs first self ranked in
      continue_with-Fine P Q f (m self) kept ne holds rest

  pub lift-Fine {ℓ} :
      {A : Type ℓ} {Q : A → Type 0} (r : Result A)
      → r ≢ raised out_of_fuel
      → ((a : A) → r ≡ ok a → Q a)
      → Fine Q (lift r)
  lift-Fine r ne holds = fine λ self ranked. (ranked, ne, holds)

  pub return-Fine {ℓ} : {A : Type ℓ} {Q : A → Type 0} (a : A) → Q a → Fine Q (lift (ok a))
  return-Fine {A = A} {Q = Q} a holds =
      lift-Fine (ok a) (λ h. cc)
        (λ b same. subst (λ r. Q (elim r [ ok c ↦ c | raised e ↦ a ])) same holds)

  pub read_config-Fine :
      (now : ℤ) (key : String)
      → Fine
          (λ cached.
            (config : EntityStatement) → cached ≡ some config → lower rank (rank key) config ≡ true)
          (read_config now key)
  read_config-Fine now key = fine λ self ranked. (
    λ entity config here.
        ranked entity config
          (get_item-left (λ es. some es.exp) now entity key self.config_cache config here),
    λ h. cc,
    λ cached read config same.
        ranked key config (get_item-stored (λ es. some es.exp) now key self.config_cache config cc),
  )

  pub write_config-Fine :
      (key : String) (config : EntityStatement)
      → lower rank (rank key) config ≡ true
      → Fine (λ done. Unit {0}) (write_config key config)
  write_config-Fine key config low = fine λ self ranked. (
    λ entity found here.
        ground
          (arith, low, ranked entity found, lookup-insert entity key config self.config_cache.db),
    λ h. cc,
    λ done h. tt,
  )

  pub read_item-Fine : (now : ℤ) (key : String) → Fine (λ cached. Unit {0}) (read_item now key)
  read_item-Fine now key = fine λ self ranked. (ranked, λ h. cc, λ cached read. tt)

  pub write_item-Fine : (key : String) (item : Item) → Fine (λ done. Unit {0}) (write_item key item)
  write_item-Fine key item = fine λ self ranked. (ranked, λ h. cc, λ done h. tt)

  pub read_delta-Fine : Fine (λ delta. Unit {0}) read_delta
  read_delta-Fine = fine λ self ranked. (ranked, λ h. cc, λ a h. tt)

  pub is_anchor-Fine : (entity : String) → Fine (λ anchor. Unit {0}) (is_anchor entity)
  is_anchor-Fine entity = fine λ self ranked. (ranked, λ h. cc, λ a h. tt)

  pub if-Fine {ℓ} :
      {A : Type ℓ} {Q : A → Type 0} (b : Bool) {m n : Run A}
      → Fine Q m
      → Fine Q n
      → Fine Q (if b then m else n)
  if-Fine true first second = first
  if-Fine false first second = second

  pub option-Fine {ℓ κ} :
      {A : Type ℓ} {B : Type κ} {Q : B → Type 0} (o : Option A) {m : Run B} {f : A → Run B}
      → Fine Q m
      → ((a : A) → o ≡ some a → Fine Q (f a))
      → Fine Q (elim o [ none ↦ m | some a ↦ f a ])
  option-Fine none first rest = first
  option-Fine (some a) first rest = rest a refl

  deleted :
      (self : TrustChainCollector) (r : Result (EsCache Item))
      → Ranked rank self
      → r ≢ raised out_of_fuel
      → let at : TrustChainCollector × Result (Unit {0}) = elim r [
        | ok cache ↦ (record self { entity_statement_cache = cache }, ok tt)
        | raised e ↦ (self, raised e)
      ] in
        Ranked rank at.0 × (at.1 ≢ raised out_of_fuel) × ((a : Unit {0}) → at.1 ≡ ok a → Unit {0})
  deleted self (ok cache) ranked ne = (ranked, λ h. cc, λ a h. tt)
  deleted self (raised e) ranked ne = (ranked, λ h. ne cc, λ a h. tt)

  del_item-ne : (key : String) (cache : EsCache Item) → del_item key cache ≢ raised out_of_fuel
  del_item-ne key cache h = ground arith

  pub del_statement-Fine : (key : String) → Fine (λ done. Unit {0}) (del_statement key)
  del_statement-Fine key = fine λ self ranked.
      deleted self (del_item key self.entity_statement_cache) ranked
        (del_item-ne key self.entity_statement_cache)
