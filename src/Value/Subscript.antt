-- ===== src/Value/Subscript.antt =====
-- Subscripts of values: `v[key]`, `key in v` and `v.get(key)` where `v` should be a dictionary.
use fedservice.Prelude.{
  Bool, key_error, type_error, attribute_error, String, Option, Result, ok, raised, require,
}
use fedservice.Prelude.Dict.{lookup}
use fedservice.Value.Sets.{contained_in}
use fedservice.Value.Json.{text, text, Value, object, atom, array, entries}

-- `v[key]` with a text as key
abbrev pub subscript : String → Value → Result Value
subscript key (object fs) = require (lookup key (entries fs)) key_error
subscript key (atom a) = raised type_error
subscript key (array xs) = raised type_error

-- `v.get(key)`
abbrev pub dict_get : String → Value → Result (Option Value)
dict_get key (object fs) = ok (lookup key (entries fs))
dict_get key (atom a) = raised attribute_error
dict_get key (array xs) = raised attribute_error

-- `key in v` for a text
abbrev pub contained : String → Value → Result Bool
contained key v = contained_in (text key) v
