-- ===== src/Qjson/Json/Collect.antt =====
-- What the two loops of the parser of crates/qjson/src/json.rs collect.
use reapermcp.Qjson.Utf8.{Text}
use reapermcp.Qjson.Json.Parse.{items_append}
use reapermcp.Qjson.Json.Map.{append_entry, Lacks, text_eq_iff}
use reapermcp.Qjson.Json.{JsonMap, Items, entry, item, Json, no_entries, no_items, text_eq}
use reapermcp.Prelude.{◌≡◌, arith, refl, false}

module _ {F : Type 0} where
  -- The entries of `m` behind those of `acc`.
  abbrev pub join_map : JsonMap F → JsonMap F → JsonMap F
  join_map no_entries m = m
  join_map (entry k v acc) m = entry k v (join_map acc m)

  abbrev pub join_items : Items F → Items F → Items F
  join_items no_items l = l
  join_items (item v acc) l = item v (join_items acc l)

  pub join_map-append_entry :
      (acc : JsonMap F) (k : Text) (v : Json F) (m : JsonMap F)
      → join_map (append_entry acc k v) m ≡ join_map acc (entry k v m)
  unfolding append_entry
  join_map-append_entry no_entries k v m = refl
  join_map-append_entry (entry j w acc) k v m = rw (join_map-append_entry acc k v m) refl

  pub join_items-items_append :
      (acc : Items F) (v : Json F) (l : Items F)
      → join_items (items_append acc v) l ≡ join_items acc (item v l)
  unfolding items_append
  join_items-items_append no_items v l = refl
  join_items-items_append (item w acc) v l = rw (join_items-items_append acc v l) refl

  -- No key of `m` is in `acc`.
  abbrev pub IsFresh : JsonMap F → JsonMap F → Type 0
  IsFresh acc no_entries = Unit
  IsFresh acc (entry k v m) = Lacks k acc × IsFresh acc m

  Lacks-append_entry :
      (j k : Text) (v : Json F) (acc : JsonMap F)
      → Lacks j acc
      → text_eq k j ≡ false
      → Lacks j (append_entry acc k v)
  unfolding append_entry
  Lacks-append_entry j k v no_entries h e = (e, tt)
  Lacks-append_entry j k v (entry i w acc) (hi, h) e = (hi, Lacks-append_entry j k v acc h e)

  pub IsFresh-append_entry :
      (k : Text) (v : Json F) (acc m : JsonMap F)
      → Lacks k m
      → IsFresh acc m
      → IsFresh (append_entry acc k v) m
  IsFresh-append_entry k v acc no_entries l h = tt
  IsFresh-append_entry k v acc (entry j w m) (e, l) (hj, h) = (
    Lacks-append_entry j k v acc hj (ground (arith, text_eq_iff j k, text_eq_iff k j)),
    IsFresh-append_entry k v acc m l h,
  )

  pub IsFresh-none : (m : JsonMap F) → IsFresh no_entries m
  IsFresh-none no_entries = tt
  IsFresh-none (entry k v m) = (tt, IsFresh-none m)

  pub join_items_nil : (l : Items F) → join_items l no_items ≡ l
  join_items_nil no_items = refl
  join_items_nil (item v l) = rw (join_items_nil l) refl

  pub join_map_nil : (m : JsonMap F) → join_map m no_entries ≡ m
  join_map_nil no_entries = refl
  join_map_nil (entry k v m) = rw (join_map_nil m) refl
