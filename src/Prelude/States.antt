-- ===== src/Prelude/States.antt =====
-- Python code that changes an object and may raise: what was changed before an exception stays.
use mathlib.Core.Path.{◌≡◌, refl}
use mathlib.Core.Option.{Option, none, some}
use mathlib.Core.Bool.{Bool, true, false}
use fedservice.Prelude.Results.{Result, raised, ok, Error}
use fedservice.Prelude.Tests.{if◌then◌else◌}

abbrev pub Stateful {ℓ} : Type 0 → Type ℓ → Type ℓ
Stateful S A = S → S × Result A

module _ {S : Type 0} where
  abbrev pub continue_with {ℓ κ} :
      {A : Type ℓ} {B : Type κ} → (A → Stateful S B) → S × Result A → S × Result B
  continue_with next (self, ok a) = next a self
  continue_with next (self, raised e) = (self, raised e)

  infixl 5 ◌>>>◌
  abbrev pub ◌>>>◌ {ℓ κ} :
      {A : Type ℓ} {B : Type κ} → Stateful S A → (A → Stateful S B) → Stateful S B
  (m >>> next) self = continue_with next (m self)

  abbrev pub lift {ℓ} : {A : Type ℓ} → Result A → Stateful S A
  lift r self = (self, r)

  continue_with-eq {ℓ κ} :
      {A : Type ℓ} {B : Type κ} (at : S × Result A) (next : A → Stateful S B) {b : B}
      → (continue_with next at).1 ≡ ok b
      → (a : A) × (at.1 ≡ ok a) × ((next a at.0).1 ≡ ok b)
  continue_with-eq (self, ok a) next run = (a, refl, run)
  continue_with-eq (self, raised e) next run = cc

  -- A run that returns has run both parts.
  pub >>>-eq-ok {ℓ κ} :
      {A : Type ℓ} {B : Type κ} (m : Stateful S A) (next : A → Stateful S B) (self : S) {b : B}
      → ((m >>> next) self).1 ≡ ok b
      → (a : A) × ((m self).1 ≡ ok a) × ((next a (m self).0).1 ≡ ok b)
  >>>-eq-ok m next self run = continue_with-eq (m self) next run

  -- Whatever the state, what a run returns has the property.
  pub data Gives {ℓ} {A : Type ℓ} (Q : A → Type 0) (m : Stateful S A) : Type ℓ where
    gives : ((self : S) (a : A) → (m self).1 ≡ ok a → Q a) → Gives Q m

  pub given_by {ℓ} :
      {A : Type ℓ} {Q : A → Type 0} {m : Stateful S A}
      → Gives Q m
      → (self : S) (a : A) → (m self).1 ≡ ok a
      → Q a
  given_by (gives f) = f

  pub >>>-Gives {ℓ κ} :
      {A : Type ℓ} {B : Type κ} {P : A → Type 0} {Q : B → Type 0} {m : Stateful S A}
      {f : A → Stateful S B}
      → Gives P m
      → ((a : A) → P a → Gives Q (f a))
      → Gives Q (m >>> f)
  >>>-Gives {m = m} {f = f} first rest = gives λ self b run.
      let (a, here, there) = >>>-eq-ok m f self run in
      given_by (rest a (given_by first self a here)) (m self).0 b there

  pub lift-Gives {ℓ} :
      {A : Type ℓ} {Q : A → Type 0} (r : Result A) → ((a : A) → r ≡ ok a → Q a) → Gives Q (lift r)
  lift-Gives r holds = gives λ self a run. holds a run

  pub if-Gives {ℓ} :
      {A : Type ℓ} {Q : A → Type 0} (b : Bool) {m n : Stateful S A}
      → (b ≡ true → Gives Q m)
      → (b ≡ false → Gives Q n)
      → Gives Q (if b then m else n)
  if-Gives true first second = first refl
  if-Gives false first second = second refl

  pub option-Gives {ℓ κ} :
      {A : Type ℓ} {B : Type κ} {Q : B → Type 0} (o : Option A) {m : Stateful S B}
      {f : A → Stateful S B}
      → (o ≡ none → Gives Q m)
      → ((a : A) → o ≡ some a → Gives Q (f a))
      → Gives Q (elim o [ none ↦ m | some a ↦ f a ])
  option-Gives none first rest = first refl
  option-Gives (some a) first rest = rest a refl

  -- Nothing is asked of what the run returns.
  pub any_Gives {ℓ} : {A : Type ℓ} (m : Stateful S A) → Gives (λ a. Unit {0}) m
  any_Gives m = gives λ self a run. tt

no_value {ℓ} :
    {A : Type ℓ} {X : Type 0} (found : Option A) (a : A)
    → ◌≡◌ {A = Result (Option A)} (ok none) (ok found)
    → found ≡ some a
    → X
no_value none a h same = cc
no_value (some b) a h same = cc

-- Of a run that returns nothing, whatever holds of what it returns.
pub none-Gives :
    {S : Type 0} {A : Type 0} {Q : A → Type 0}
    → Gives {S = S} (λ found. (a : A) → found ≡ some a → Q a) (lift (ok none))
none-Gives = gives λ self found run a same. no_value found a run same

-- What is raised is not returned.
pub raised_value {ℓ} :
    {A : Type ℓ} {X : Type 0} {e : Error} {a : A} → ◌≡◌ {A = Result A} (raised e) (ok a) → X
raised_value h = cc
