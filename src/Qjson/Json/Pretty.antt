-- ===== src/Qjson/Json/Pretty.antt =====
-- `to_string_pretty` and `sort_keys_recursive` of crates/qjson/src/json.rs.
use reapermcp.Qjson.Json.{
  Json, Items, JsonMap, bool, int, float, str, arr, obj, item, entry, null, no_items, no_entries,
}
use reapermcp.Qjson.Json.Write.{key_le, write_compact, write_json_string}
use reapermcp.Qjson.Floats.{Floats}
use reapermcp.Qjson.Utf8.{Text}
use reapermcp.Prelude.Decimal.{Bytes}
use reapermcp.Prelude.{ℕ, zero, suc, [], ◌∷◌, ◌++◌, if◌then◌else◌, false}

-- The stable sort by key: an entry goes in front of the first one that is not smaller.
unfoldable pub insert_sorted : {F : Type 0} → Text → Json F → JsonMap F → JsonMap F
insert_sorted k v no_entries = entry k v no_entries
insert_sorted k v (entry j w m) =
    let rest = insert_sorted k v m in if key_le k j then entry k v (entry j w m) else entry j w rest

module _ {F : Type 0} where
  unfoldable mutual
    pub sort_keys_recursive : Json F → Json F
    sort_keys_recursive (obj m) = obj (sort_entries m)
    sort_keys_recursive (arr l) = arr (sort_items l)
    sort_keys_recursive null = null
    sort_keys_recursive (bool b) = bool b
    sort_keys_recursive (int i) = int i
    sort_keys_recursive (float f) = float f
    sort_keys_recursive (str s) = str s

    pub sort_items : Items F → Items F
    sort_items no_items = no_items
    sort_items (item v l) = item (sort_keys_recursive v) (sort_items l)

    pub sort_entries : JsonMap F → JsonMap F
    sort_entries no_entries = no_entries
    sort_entries (entry k v m) = insert_sorted k (sort_keys_recursive v) (sort_entries m)

unfoldable pub push_indent : ℕ → Bytes
push_indent zero = []
push_indent (suc n) = b' ' ∷ b' ' ∷ push_indent n

module _ (fs : Floats) where
  open fs use {Float}

  unfoldable mutual
    pub write_pretty : ℕ → Json Float → Bytes
    write_pretty n (arr (item v l)) =
        b'[' ∷ 0x0a ∷ (pretty_items n (item v l) ++ 0x0a ∷ (push_indent n ++ b']' ∷ []))
    write_pretty n (obj (entry k v m)) =
        b'{' ∷ 0x0a ∷ (pretty_entries n (entry k v m) ++ 0x0a ∷ (push_indent n ++ b'}' ∷ []))
    write_pretty n (arr no_items) = write_compact fs false (arr no_items)
    write_pretty n (obj no_entries) = write_compact fs false (obj no_entries)
    write_pretty n null = write_compact fs false null
    write_pretty n (bool b) = write_compact fs false (bool b)
    write_pretty n (int i) = write_compact fs false (int i)
    write_pretty n (float f) = write_compact fs false (float f)
    write_pretty n (str s) = write_compact fs false (str s)

    pub pretty_items : ℕ → Items Float → Bytes
    pretty_items n no_items = []
    pretty_items n (item v no_items) = push_indent (suc n) ++ write_pretty (suc n) v
    pretty_items n (item v (item w l)) =
        push_indent (suc n) ++ (write_pretty (suc n) v ++ b',' ∷ 0x0a ∷ pretty_items n (item w l))

    pub pretty_entries : ℕ → JsonMap Float → Bytes
    pretty_entries n no_entries = []
    pretty_entries n (entry k v no_entries) =
        push_indent (suc n) ++ (write_json_string k ++ b':' ∷ b' ' ∷ write_pretty (suc n) v)
    pretty_entries n (entry k v (entry j w m)) =
        push_indent (suc n)
        ++ (write_json_string k
            ++ b':'
              ∷ b' '
              ∷ (write_pretty (suc n) v ++ b',' ∷ 0x0a ∷ pretty_entries n (entry j w m)))

  unfoldable pub to_string_pretty : Json Float → Bytes
  to_string_pretty v = write_pretty 0 v

  -- `serialize` of crates/reaper-ipc/src/envelope.rs.
  unfoldable pub serialize : Json Float → Bytes
  serialize v = to_string_pretty (sort_keys_recursive v) ++ 0x0a ∷ []
