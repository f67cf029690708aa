-- ===== src/Cache.antt =====
-- `ESCache` of src/fedservice/entity_statement/cache.py.
use fedservice.Prelude.{
  ◌-◌, String, Bool, true, Option, none, some, if◌then◌else◌, Result, ok, raised,
}
use fedservice.Prelude.Dict.{Dict, lookup, has_key, insert, erase}
use fedservice.Prelude.Int.{ℤ, ltb_ℤ, ◌-ℤ◌}
use fedservice.Prelude.Dict.{erase, has_key, lookup, insert, Dict}
use fedservice.Prelude.{key_error, raised, ok, if◌then◌else◌, Result, Bool, String}
use fedservice.Prelude.Int.{ℤ}
pub mod Times

pub record EsCache {ℓ} (V : Type ℓ) : Type ℓ where
  pub db : Dict V
  pub allowed_delta : ℤ

-- `exp_of` is the `exp` of a value that is a dictionary; other values never time out.
module _ {ℓ} {V : Type ℓ} (exp_of : V → Option ℤ) where
  abbrev pub recent : ℤ → ℤ → V → Bool
  recent now allowed_delta value = elim (exp_of value) [
    | none ↦ true
    | some exp ↦ ltb_ℤ now (exp -ℤ allowed_delta)
  ]

  -- `__getitem__` at the time `now`: what has timed out is deleted.
  unfoldable pub get_item : ℤ → String → EsCache V → EsCache V × Option V
  get_item now key self = elim (lookup key self.db) [
    | none ↦ (self, none)
    | some value ↦
        if recent now self.allowed_delta value
        then (self, some value)
        else (record self { db = erase key self.db }, none)
  ]

module _ {ℓ} {V : Type ℓ} where
  -- `__setitem__`
  abbrev pub set_item : String → V → EsCache V → EsCache V
  set_item key value self = record self { db = insert key value self.db }

  -- `__delitem__`
  abbrev pub del_item : String → EsCache V → Result (EsCache V)
  del_item key self =
      if has_key key self.db then ok (record self { db = erase key self.db }) else raised key_error

  -- `__contains__`
  abbrev pub contains : String → EsCache V → Bool
  contains key self = has_key key self.db

  -- `get`, with no default: the age is not looked at.
  abbrev pub get : String → EsCache V → Option V
  get key self = lookup key self.db
