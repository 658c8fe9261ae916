-- ===== src/Qjson/Json/Wellformed.antt =====
-- Which values of crates/qjson/src/json.rs have a text that stands for them: integers of i64, finite
-- floats, strings of Unicode scalars, maps without a repeated key.
use reapermcp.Qjson.Json.Map.{Lacks}
use reapermcp.Qjson.Utf8.{AllScalars}
use reapermcp.Qjson.Json.Numbers.Ints.{IsI64}
use reapermcp.Qjson.Json.{
  Json, arr, obj, Items, item, JsonMap, entry, no_items, no_entries, bool, int, float, str, null,
}
use reapermcp.Qjson.Floats.{Floats}
use reapermcp.Prelude.{ℕ, ◌≡◌, suc, max, true}

module _ (fs : Floats) where
  open fs use {Float}

  abbrev mutual
    pub IsWf : Json Float → Type 0
    IsWf null = Unit
    IsWf (bool b) = Unit
    IsWf (int z) = IsI64 z
    IsWf (float f) = fs.is_finite f ≡ true
    IsWf (str s) = AllScalars s
    IsWf (arr items) = AllWf items
    IsWf (obj map) = MapWf map

    pub AllWf : Items Float → Type 0
    AllWf no_items = Unit
    AllWf (item v items) = IsWf v × AllWf items

    pub MapWf : JsonMap Float → Type 0
    MapWf no_entries = Unit
    MapWf (entry k v map) = AllScalars k × IsWf v × Lacks k map × MapWf map

-- How many brackets are open at once.
abbrev mutual
  pub height : {F : Type 0} → Json F → ℕ
  height (arr items) = suc (items_height items)
  height (obj map) = suc (map_height map)
  height _ = 0

  pub items_height : {F : Type 0} → Items F → ℕ
  items_height no_items = 0
  items_height (item v items) = max (height v) (items_height items)

  pub map_height : {F : Type 0} → JsonMap F → ℕ
  map_height no_entries = 0
  map_height (entry k v map) = max (height v) (map_height map)

-- How many calls of the parser read a value, with the loop rounds.
abbrev mutual
  pub calls : {F : Type 0} → Json F → ℕ
  calls (arr items) = suc (items_calls items)
  calls (obj map) = suc (map_calls map)
  calls _ = 1

  pub items_calls : {F : Type 0} → Items F → ℕ
  items_calls no_items = 0
  items_calls (item v items) = suc (max (calls v) (items_calls items))

  pub map_calls : {F : Type 0} → JsonMap F → ℕ
  map_calls no_entries = 0
  map_calls (entry k v map) = suc (max (calls v) (map_calls map))
