-- ===== src/Cache/Times.antt =====
-- What `ESCache` of src/fedservice/entity_statement/cache.py returns after a change.
use fedservice.Prelude.{
  String, ◌≡◌, Option, none, some, arith, if◌then◌else◌, ◌==◌, ◌&&◌, Bool, true, inl, inr,
  Option-cases,
}
use fedservice.Prelude.Dict.{insert, lookup-insert, lookup-erase}
use fedservice.Prelude.Int.{ℤ, ltb_ℤ, ◌-ℤ◌}
use fedservice.Cache.{lookup, set_item, get_item, EsCache}
use fedservice.Prelude.{◌≡◌, String}
use fedservice.Prelude.Int.{ℤ}

module _ {ℓ} {V : Type ℓ} (exp_of : V → Option ℤ) where
  -- At the time `now` a value with an expiry is read for as long as it has more than the allowed delta to go,
  -- one without for ever.
  abbrev pub alive : ℤ → ℤ → Option ℤ → Bool
  alive now allowed_delta none = true
  alive now allowed_delta (some exp) = ltb_ℤ now (exp -ℤ allowed_delta)

  -- After a value is stored, every other key reads as before; the stored one reads as the value where that
  -- has no expiry or `now` is before its expiry less the allowed delta, and else as `None`. In that case
  -- it is gone: a later reading, at whatever time, gives `None` as well.
  pub get_item-set_item :
      (now later : ℤ) (j k : String) (value : V) (cache : EsCache V)
      → ((get_item exp_of now j (set_item k value cache)).1 ≡ (
          if j == k
          then (if alive now cache.allowed_delta (exp_of value) then some value else none)
          else (get_item exp_of now j cache).1))
        × ((get_item exp_of later k (get_item exp_of now k (set_item k value cache)).0).1 ≡ (
            if alive now cache.allowed_delta (exp_of value)
              && alive later cache.allowed_delta (exp_of value)
            then some value
            else none))
  unfolding get_item
  get_item-set_item now later j k value cache = elim (Option-cases (exp_of value)) [
    | inl for_ever ↦ (
      ground (arith, for_ever, lookup-insert j k value cache.db),
      ground (arith, for_ever, lookup-insert k k value cache.db),
    )
    | inr (exp, expires) ↦ (
      ground (arith, expires, lookup-insert j k value cache.db),
      ground (
        arith,
        expires,
        lookup-insert k k value cache.db,
        lookup-erase k k (insert k value cache.db),
      ),
    )
  ]

  -- A second reading gives the same as the first, at the same time.
  pub get_item_twice :
      (now : ℤ) (k : String) (cache : EsCache V)
      → (get_item exp_of now k (get_item exp_of now k cache).0).1 ≡ (get_item exp_of now k cache).1
  unfolding get_item
  get_item_twice now k cache = ground (arith, lookup-erase k k cache.db)

  -- A reading gives what is stored, and leaves nothing that was not stored.
  pub get_item-stored :
      (now : ℤ) (k : String) (cache : EsCache V) (value : V)
      → (get_item exp_of now k cache).1 ≡ some value
      → lookup k cache.db ≡ some value
  unfolding get_item
  get_item-stored now k cache value read = ground arith

  pub get_item-left :
      (now : ℤ) (j k : String) (cache : EsCache V) (value : V)
      → lookup j (get_item exp_of now k cache).0.db ≡ some value
      → lookup j cache.db ≡ some value
  unfolding get_item
  get_item-left now j k cache value left = ground (arith, lookup-erase j k cache.db)
