-- ===== src/Qjson/Json/Write.antt =====
-- The serializers of crates/qjson/src/json.rs. Where the source appends to `out`, a function here
-- returns what is appended, as UTF-8 bytes.
use reapermcp.Prelude.Decimal.{Bytes, show_ℤ}
use reapermcp.Prelude.{
  ℕ, Bool, List, ◌∷◌, true, codes, false, if◌then◌else◌, ltb, ◌++◌, ◌==◌, [], ◌+◌, ◌/◌, ◌||◌, ◌-◌,
  ◌^◌, ◌&&◌, ◌%◌,
}
use reapermcp.Qjson.Json.{
  Json, Items, JsonMap, bool, int, float, str, arr, obj, item, entry, null, no_items, no_entries,
}
use reapermcp.Qjson.Floats.{Floats, format_f64}
use reapermcp.Qjson.Utf8.{Text, encode, encode_char}

-- `HEX[((code >> shift) & 0xf)]` with `2 ^ shift` for `by`
abbrev pub hex_digit : ℕ → ℕ
hex_digit n = if ltb n 10 then b'0' + n else b'a' + (n - 10)

unfoldable pub escape_char : ℕ → Bytes
escape_char c =
    if c == b'"'
    then b'\\' ∷ b'"' ∷ []
    else if c == b'\\'
    then b'\\' ∷ b'\\' ∷ []
    else if c == 0x0a
    then b'\\' ∷ b'n' ∷ []
    else if c == 0x0d
    then b'\\' ∷ b'r' ∷ []
    else if c == 0x09
    then b'\\' ∷ b't' ∷ []
    else if c == 0x08
    then b'\\' ∷ b'b' ∷ []
    else if c == 0x0c
    then b'\\' ∷ b'f' ∷ []
    else if ltb c 0x20
    then b'\\'
      ∷ b'u'
      ∷ hex_digit (c / 2 ^ 12 % 16)
      ∷ hex_digit (c / 2 ^ 8 % 16)
      ∷ hex_digit (c / 2 ^ 4 % 16)
      ∷ hex_digit (c % 16)
      ∷ []
    else encode_char c

unfoldable pub escape : Text → Bytes
escape [] = []
escape (c ∷ cs) = escape_char c ++ escape cs

unfoldable pub write_json_string : Text → Bytes
write_json_string s = b'"' ∷ (escape s ++ b'"' ∷ [])

-- `a.cmp(b) != Greater` on strings: bytewise.
unfoldable pub bytes_le : Bytes → Bytes → Bool
bytes_le [] t = true
bytes_le (a ∷ s) [] = false
bytes_le (a ∷ s) (b ∷ t) = ltb a b || (a == b && bytes_le s t)

unfoldable pub key_le : Text → Text → Bool
key_le j k = bytes_le (encode j) (encode k)

-- The stable sort by key: an entry goes in front of the first one that is not smaller.
module _ {V : Type 0} where
  pub put : Text → V → List (Text × V) → List (Text × V)
  put k v [] = (k, v) ∷ []
  put k v ((j, w) ∷ l) = if key_le k j then (k, v) ∷ (j, w) ∷ l else (j, w) ∷ put k v l

  pub sort : List (Text × V) → List (Text × V)
  sort [] = []
  sort ((k, v) ∷ l) = put k v (sort l)

-- `key_order`: the entries in output order.
unfoldable pub key_order : Bool → List (Text × Bytes) → List (Text × Bytes)
key_order canonical l = if canonical then sort l else l

unfoldable pub write_members : List (Text × Bytes) → Bytes
write_members [] = []
write_members ((k, v) ∷ []) = write_json_string k ++ b':' ∷ v
write_members ((k, v) ∷ (j, w) ∷ l) =
    write_json_string k ++ b':' ∷ (v ++ b',' ∷ write_members ((j, w) ∷ l))

module _ (fs : Floats) where
  open fs use {Float}

  unfoldable mutual
    pub write_compact : Bool → Json Float → Bytes
    write_compact canonical null = codes "null"
    write_compact canonical (bool true) = codes "true"
    write_compact canonical (bool false) = codes "false"
    write_compact canonical (int i) = show_ℤ i
    write_compact canonical (float f) = format_f64 fs f
    write_compact canonical (str s) = write_json_string s
    write_compact canonical (arr items) = b'[' ∷ (write_items canonical items ++ b']' ∷ [])
    write_compact canonical (obj map) =
        b'{' ∷ (write_members (key_order canonical (member_texts canonical map)) ++ b'}' ∷ [])

    pub write_items : Bool → Items Float → Bytes
    write_items canonical no_items = []
    write_items canonical (item v no_items) = write_compact canonical v
    write_items canonical (item v (item w rest)) =
        write_compact canonical v ++ b',' ∷ write_items canonical (item w rest)

    -- The entries with their values written.
    pub member_texts : Bool → JsonMap Float → List (Text × Bytes)
    member_texts canonical no_entries = []
    member_texts canonical (entry k v map) =
        (k, write_compact canonical v) ∷ member_texts canonical map

  unfoldable pub to_string : Json Float → Bytes
  to_string v = write_compact false v

  unfoldable pub to_canonical_string : Json Float → Bytes
  to_canonical_string v = write_compact true v
