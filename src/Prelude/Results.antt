-- ===== src/Prelude/Results.antt =====
-- Python code that may raise, as a value: the exceptions that the modelled code raises or lets
-- through, the result type and its bind.
use mathlib.Core.Path.{◌≡◌, refl}
use mathlib.Core.Logic.{◌⊎◌, inl, inr}
use mathlib.Core.Bool.{Bool, true, false}
use mathlib.Core.Option.{Option, none, some}

-- `PolicyError` and the exceptions of exception.py and of the libraries, then Python's own.
-- `out_of_fuel` has no counterpart in the program: it marks a run that the model cut off.
pub data Error : Type 0 where
  policy_error unknown_entity unknown_critical_extension wrong_subject expired missing_key : Error
  missing_page failed_retrieval connection_error bad_signature missing_attribute : Error
  key_error type_error value_error attribute_error index_error unbound_error : Error
  no_trusted_chains no_trusted_claims invalid_redirect_uri capabilities_mismatch : Error
  format_error json_decode_error parse_error service_error : Error
  signature_failure system_failure response_error : Error
  out_of_fuel : Error

-- What a call gives: an exception, or its value.
pub data Result {ℓ} (Val : Type ℓ) : Type ℓ where
  raised : Error → Result Val
  ok : Val → Result Val

module _ {ℓ κ} {In : Type ℓ} {Out : Type κ} where
  infixl 5 ◌>>=◌
  -- The first exception ends the run.
  abbrev pub ◌>>=◌ : Result In → (In → Result Out) → Result Out
  raised error >>= next = raised error
  ok val >>= next = next val

  pub >>=-eq-ok :
      (first : Result In) (next : In → Result Out) {out : Out}
      → (first >>= next) ≡ ok out
      → (val : In) × (first ≡ ok val) × (next val ≡ ok out)
  >>=-eq-ok (raised error) next run = cc
  >>=-eq-ok (ok val) next run = (val, refl, run)

  -- What follows a step may be replaced by what gives the same on every value.
  pub >>=_ext :
      (first : Result In) (next next' : In → Result Out)
      → ((val : In) → next val ≡ next' val)
      → (first >>= next) ≡ (first >>= next')
  >>=_ext (raised error) next next' same = refl
  >>=_ext (ok val) next next' same = same val

infixl 5 ◌>>◌
abbrev pub ◌>>◌ {κ} : {Out : Type κ} → Result (Unit {0}) → Result Out → Result Out
first >> rest = first >>= (λ unit. rest)

-- `if not test: raise error`
abbrev pub guard : Bool → Error → Result (Unit {0})
guard test error = elim test [ false ↦ raised error | true ↦ ok tt ]

-- `d[k]`, where a missing key raises `error`.
abbrev pub require {ℓ} : {Val : Type ℓ} → Option Val → Error → Result Val
require (some val) error = ok val
require none error = raised error

pub Result-cases {ℓ} :
    {A : Type ℓ} (r : Result A) → ((a : A) × (r ≡ ok a)) ⊎ ((e : Error) × (r ≡ raised e))
Result-cases (ok a) = inl (a, refl)
Result-cases (raised e) = inr (e, refl)

pub require-eq {ℓ} :
    {Val : Type ℓ} (found : Option Val) (error : Error) {val : Val}
    → require found error ≡ ok val
    → found ≡ some val
require-eq (some val) error h = cc
require-eq none error h = cc
