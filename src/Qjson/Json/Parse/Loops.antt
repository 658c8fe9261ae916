-- ===== src/Qjson/Json/Parse/Loops.antt =====
-- A value written by crates/qjson/src/json.rs is parsed back: the objects and the arrays.
use reapermcp.Qjson.Json.Strings.RoundTrip.{parse_string-escape}
use reapermcp.Qjson.Json.Map.{Lacks, append_entry, insert-fresh}
use reapermcp.Qjson.Json.Parse.Steps.{Starts, state, drop_ws-Starts, drop_last-append}
use reapermcp.Qjson.Json.{Items, JsonMap, Json, arr, obj}
use reapermcp.Qjson.Json.Error.{Seg, ok, key, index}
use reapermcp.Qjson.Utf8.{Text, AllScalars}
use reapermcp.Qjson.Json.Write.{write_json_string, escape}
use reapermcp.Qjson.Json.Parse.{
  parse_key, parse_elements, parse_members, skip_ws, push, drop_ws, pop, parse_value, next_or_close,
  items_append, items_len,
}
use reapermcp.Qjson.Json.Numbers.Shape.{Ends}
use reapermcp.Qjson.Floats.{Floats}
use reapermcp.Prelude.Decimal.{Bytes}
use reapermcp.Prelude.{ℕ, ◌≡◌, ◌∷◌, refl, List, ◌++◌, append_assoc, suc, []}

-- What may follow a value in a bracket.
Ends-comma : (s : Bytes) → Ends (b',' ∷ s)
Ends-comma s = refl

module _ (fs : Floats) where
  open fs use {Float}

  parse_key-write :
      (k : Text) (t r : Bytes) (d : ℕ) (path : List Seg)
      → AllScalars k
      → Starts t
      → parse_key (state (write_json_string k ++ b':' ∷ (t ++ r)) d path)
        ≡ ok (k, state (t ++ r) d path)
  unfolding parse_key write_json_string drop_ws
  parse_key-write k t r d path h s =
      rw (append_assoc (escape k) (b'"' ∷ []) (b':' ∷ (t ++ r)))
        (rw (parse_string-escape path k (b':' ∷ (t ++ r)) h) (rw (drop_ws-Starts t r s) refl))

  -- One round of the loop of an array.
  pub elements_round :
      (f d : ℕ) (path : List Seg) (acc : Items Float) (v : Json Float) (t r : Bytes)
      → Starts t
      → ((p : List Seg) → parse_value fs f (state (t ++ r) d p) ≡ ok (v, state r d p))
      → parse_elements fs (suc f) acc (state (t ++ r) d path)
        ≡ next_or_close b']'
            (arr (items_append acc v))
            (parse_elements fs f (items_append acc v))
            (state r d path)
  unfolding parse_elements skip_ws push pop
  elements_round f d path acc v t r s e = rw (drop_ws-Starts t r s) (
      rw (e (path ++ index (items_len acc) ∷ []))
        (rw (drop_last-append path (index (items_len acc))) refl))

  -- One round of the loop of an object.
  pub members_round :
      (f d : ℕ) (path : List Seg) (acc : JsonMap Float) (k : Text) (v : Json Float) (t r : Bytes)
      → AllScalars k
      → Lacks k acc
      → Starts t
      → ((p : List Seg) → parse_value fs f (state (t ++ r) d p) ≡ ok (v, state r d p))
      → parse_members fs (suc f) acc (state (write_json_string k ++ b':' ∷ (t ++ r)) d path)
        ≡ next_or_close b'}'
            (obj (append_entry acc k v))
            (parse_members fs f (append_entry acc k v))
            (state r d path)
  unfolding parse_members push pop
  members_round f d path acc k v t r h l s e = rw (parse_key-write k t r d path h s) (
      rw (e (path ++ key k ∷ []))
        (rw (drop_last-append path (key k)) (rw (insert-fresh k v acc l) refl)))
