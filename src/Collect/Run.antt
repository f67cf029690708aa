-- ===== src/Collect/Run.antt =====
-- The state of `TrustChainCollector` of src/fedservice/entity/function/trust_chain_collector.py, and code
-- that changes it and may raise: what was cached before an exception stays.
-- What the cache of entity statements holds: under `cache_key` the signed statement, under `time_key`
-- its `exp`.
use fedservice.Statement.{EntityStatement}
use fedservice.Cache.{del_item, EsCache, get_item, set_item}
use fedservice.Prelude.{Stateful, Bool, String, Option, none, some, List, ok, raised}
use fedservice.Prelude.Dict.{has_key, Dict}
use fedservice.Prelude.Int.{ℤ}
use fedservice.Value.{Value}

pub data Item : Type 0 where
  signed : String → Item
  expires : ℤ → Item

-- The modelled attributes.
pub record TrustChainCollector : Type 0 where
  pub trust_anchors : Dict (List Value)
  pub allowed_delta : ℤ
  pub config_cache : EsCache EntityStatement
  pub entity_statement_cache : EsCache Item

abbrev pub Run {ℓ} : Type ℓ → Type ℓ
Run A = Stateful TrustChainCollector A

-- `self.config_cache[key]`
abbrev pub read_config : ℤ → String → Run (Option EntityStatement)
read_config now key self =
    let r = get_item (λ es. some es.exp) now key self.config_cache in
    (record self { config_cache = r.0 }, ok r.1)

-- `self.config_cache[key] = value`
abbrev pub write_config : String → EntityStatement → Run (Unit {0})
write_config key value self =
    (record self { config_cache = set_item key value self.config_cache }, ok tt)

-- `self.entity_statement_cache[key]`
abbrev pub read_item : ℤ → String → Run (Option Item)
read_item now key self =
    let r = get_item (λ item. none) now key self.entity_statement_cache in
    (record self { entity_statement_cache = r.0 }, ok r.1)

abbrev pub write_item : String → Item → Run (Unit {0})
write_item key value self =
    (record self { entity_statement_cache = set_item key value self.entity_statement_cache }, ok tt)

-- `del self.entity_statement_cache[key]`
abbrev pub del_statement : String → Run (Unit {0})
del_statement key self = elim (del_item key self.entity_statement_cache) [
  | ok cache ↦ (record self { entity_statement_cache = cache }, ok tt)
  | raised e ↦ (self, raised e)
]

-- `self.allowed_delta`
abbrev pub read_delta : Run ℤ
read_delta self = (self, ok self.allowed_delta)

-- `entity in self.trust_anchors`
abbrev pub is_anchor : String → Run Bool
is_anchor entity self = (self, ok (has_key entity self.trust_anchors))
