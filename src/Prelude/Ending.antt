-- ===== src/Prelude/Ending.antt =====
-- Code that raises no `out_of_fuel`, and what holds of the values that it returns.
use mathlib.Core.Path.{ap, subst, ◌≡◌, refl}
use mathlib.Core.Logic.{◌≢◌}
use mathlib.Core.Bool.{Bool, true, false}
use mathlib.Core.Option.{Option, none, some}
use fedservice.Prelude.Tests.{if◌then◌else◌}
use fedservice.Prelude.Results.{Result, raised, ok, Error, out_of_fuel, require, ◌>>=◌}
use fedservice.Prelude.States.{Stateful, continue_with, ◌>>>◌, lift, raised_value}

pub data Ending {A : Type 0} (Q : A → Type 0) : Result A → Type 0 where
  returns : {a : A} → Q a → Ending Q (ok a)
  raises : {e : Error} → e ≢ out_of_fuel → Ending Q (raised e)

pub require-Ending :
    {A : Type 0} {Q : A → Type 0} (o : Option A) (e : Error)
    → ((a : A) → o ≡ some a → Q a)
    → e ≢ out_of_fuel
    → Ending Q (require o e)
require-Ending none e holds other = raises other
require-Ending (some a) e holds other = returns (holds a refl)

pub >>=-Ending :
    {A B : Type 0} {P : A → Type 0} {Q : B → Type 0} {r : Result A} {f : A → Result B}
    → Ending P r
    → ((a : A) → P a → Ending Q (f a))
    → Ending Q (r >>= f)
>>=-Ending (returns {a = a} h) rest = rest a h
>>=-Ending (raises other) rest = raises other

pub returned-Ending :
    {A : Type 0} {P Q : A → Type 0} {r : Result A}
    → Ending P r
    → ((a : A) → r ≡ ok a → Q a)
    → Ending Q r
returned-Ending (returns {a = a} h) holds = returns (holds a refl)
returned-Ending (raises other) holds = raises other

same_value : {A : Type 0} {a b : A} → ok a ≡ ok b → a ≡ b
same_value same = cc

pub weaken-Ending :
    {A : Type 0} {P Q : A → Type 0} {r : Result A} → Ending P r → ((a : A) → P a → Q a) → Ending Q r
weaken-Ending (returns {a = a} h) holds = returns (holds a h)
weaken-Ending (raises other) holds = raises other

pub Ending-ok : {A : Type 0} {Q : A → Type 0} {r : Result A} (a : A) → Ending Q r → r ≡ ok a → Q a
Ending-ok {Q = Q} a (returns {a = b} h) same = subst Q (same_value same) h
Ending-ok a (raises other) same = raised_value same

pub Ending-ne : {A : Type 0} {Q : A → Type 0} {r : Result A} → Ending Q r → r ≢ raised out_of_fuel
Ending-ne (returns h) = λ same. cc
Ending-ne (raises {e = e} other) = λ same. other cc

pub any_Ending : {A : Type 0} (r : Result A) → r ≢ raised out_of_fuel → Ending (λ a. r ≡ ok a) r
any_Ending (ok a) ne = returns refl
any_Ending (raised e) ne = raises λ same. ne (ap (λ e. raised e) same)

-- Whatever the state, a run ends so.
module _ {S : Type 0} where
  pub data Always {A : Type 0} (Q : A → Type 0) (m : Stateful S A) : Type 0 where
    always : ((self : S) → Ending Q (m self).1) → Always Q m

  pub ended_by :
      {A : Type 0} {Q : A → Type 0} {m : Stateful S A}
      → Always Q m
      → (self : S) → Ending Q (m self).1
  ended_by (always f) = f

  continue_with-Ending :
      {A B : Type 0} {P : A → Type 0} {Q : B → Type 0} {f : A → Stateful S B} (at : S × Result A)
      → Ending P at.1
      → ((a : A) → P a → Always Q (f a))
      → Ending Q (continue_with f at).1
  continue_with-Ending (self, ok a) (returns h) rest = ended_by (rest a h) self
  continue_with-Ending (self, raised e) (raises other) rest = raises other

  pub >>>-Always :
      {A B : Type 0} {P : A → Type 0} {Q : B → Type 0} {m : Stateful S A} {f : A → Stateful S B}
      → Always P m
      → ((a : A) → P a → Always Q (f a))
      → Always Q (m >>> f)
  >>>-Always {m = m} first rest =
      always λ self. continue_with-Ending (m self) (ended_by first self) rest

  pub weaken-Always :
      {A : Type 0} {P Q : A → Type 0} {m : Stateful S A}
      → Always P m
      → ((a : A) → P a → Q a)
      → Always Q m
  weaken-Always first holds = always λ self. weaken-Ending (ended_by first self) holds

  pub lift-Always : {A : Type 0} {Q : A → Type 0} {r : Result A} → Ending Q r → Always Q (lift r)
  lift-Always holds = always λ self. holds

  pub if-Always :
      {A : Type 0} {Q : A → Type 0} (b : Bool) {m n : Stateful S A}
      → Always Q m
      → Always Q n
      → Always Q (if b then m else n)
  if-Always true first second = first
  if-Always false first second = second

  pub if-Ending :
      {A : Type 0} {Q : A → Type 0} (b : Bool) (x y : S × Result A)
      → Ending Q x.1
      → Ending Q y.1
      → Ending Q (if b then x else y).1
  if-Ending true x y first second = first
  if-Ending false x y first second = second

  -- What a run returns is what it returned in some state.
  pub returned-Always :
      {A : Type 0} {P Q : A → Type 0} {m : Stateful S A}
      → Always P m
      → ((a : A) (at : S) → (m at).1 ≡ ok a → Q a)
      → Always Q m
  returned-Always first holds =
      always λ self. returned-Ending (ended_by first self) λ a same. holds a self same

  pub any_Always :
      {A : Type 0} (m : Stateful S A)
      → ((self : S) → (m self).1 ≢ raised out_of_fuel)
      → Always (λ a. (at : S) × ((m at).1 ≡ ok a)) m
  any_Always m ne =
      always λ self. weaken-Ending (any_Ending (m self).1 (ne self)) λ a same. (self, same)
