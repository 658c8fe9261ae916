-- ===== src/Qjson/Json.antt =====
-- The value type and the object map of crates/qjson/src/json.rs. `F` stands for `f64`.
-- A `JsonMap` is the list of its entries, in insertion order.
pub mod Tests
pub mod Fields
pub mod Map
pub mod Wellformed
pub mod Write
pub mod Pretty
pub mod Error
pub mod Numbers
pub mod Strings
pub mod Parse
pub mod Collect
pub mod Scalars
pub mod Reads
pub mod RoundTrip
use reapermcp.Prelude.Int.{ℤ}
use reapermcp.Prelude.{
  Bool, Option, ℕ, List, if◌then◌else◌, none, false, suc, [], true, some, ◌||◌, ◌∷◌, ◌==◌, ◌&&◌,
}
use reapermcp.Qjson.Utf8.{Text}

mutual
  pub data Json (F : Type 0) : Type 0 where
    null : Json F
    bool : Bool → Json F
    int : ℤ → Json F
    float : F → Json F
    str : Text → Json F
    arr : Items F → Json F
    obj : JsonMap F → Json F

  -- `Vec<Json>`
  pub data Items (F : Type 0) : Type 0 where
    no_items : Items F
    item : Json F → Items F → Items F

  pub data JsonMap (F : Type 0) : Type 0 where
    no_entries : JsonMap F
    entry : Text → Json F → JsonMap F → JsonMap F

-- Equality of keys.
abbrev pub text_eq : Text → Text → Bool
text_eq [] [] = true
text_eq [] (d ∷ ds) = false
text_eq (c ∷ cs) [] = false
text_eq (c ∷ cs) (d ∷ ds) = c == d && text_eq cs ds

module _ {F : Type 0} where
  -- The new map, and the value that was there.
  unfoldable pub insert : Text → Json F → JsonMap F → JsonMap F × Option (Json F)
  insert k v no_entries = (entry k v no_entries, none)
  insert k v (entry j w m) =
      let (rest, old) = insert k v m in
      if text_eq j k then (entry j v m, some w) else (entry j w rest, old)

  unfoldable pub get : Text → JsonMap F → Option (Json F)
  get k no_entries = none
  get k (entry j w m) = if text_eq j k then some w else get k m

  pub remove : Text → JsonMap F → JsonMap F × Option (Json F)
  remove k no_entries = (no_entries, none)
  remove k (entry j w m) =
      let (rest, old) = remove k m in if text_eq j k then (m, some w) else (entry j w rest, old)

  pub contains_key : Text → JsonMap F → Bool
  contains_key k no_entries = false
  contains_key k (entry j w m) = text_eq j k || contains_key k m

  pub len : JsonMap F → ℕ
  len no_entries = 0
  len (entry j w m) = suc (len m)

  pub keys : JsonMap F → List Text
  keys no_entries = []
  keys (entry j w m) = j ∷ keys m

  -- `get_mut(k)` followed by an assignment of `f` of the value.
  pub update : Text → (Json F → Json F) → JsonMap F → JsonMap F
  update k f no_entries = no_entries
  update k f (entry j w m) =
      let rest = update k f m in if text_eq j k then entry j (f w) m else entry j w rest

-- `FromIterator`, which is also how the parser fills a map.
pub from_iter : {F : Type 0} → List (Text × Json F) → JsonMap F → JsonMap F
from_iter [] m = m
from_iter ((k, v) ∷ rest) m = from_iter rest (insert k v m).0
