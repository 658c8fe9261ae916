-- ===== src/Store.antt =====
-- `Bucket` of crates/reaper-music-mcp/src/store.rs: a bounded collection whose entries expire. Its
-- `BTreeMap` is the list of the entries in the order of their ids. The counter is a u64, and the
-- times are i64, whose bounds no clock comes near.
pub mod Ordered
pub mod Values
pub mod Live
pub mod Oldest
pub mod Bounds
pub mod Answers
pub mod Session
pub mod Tests
use reapermcp.Prelude.Machine.{to_i64}
use reapermcp.Qjson.Time.Iso8601.{iso8601_from_unix}
use reapermcp.Store.Ordered.{lookup, delete, store, has}
use reapermcp.Prelude.Decimal.{Bytes}
use reapermcp.Qjson.Utf8.{Text}
use reapermcp.Prelude.Int.{ℤ, ltb_ℤ, ◌+ℤ◌}
use reapermcp.Prelude.{
  ℕ, ◌≡◌, Bool, List, Option, length, [], ◌∷◌, not, none, some, if◌then◌else◌, false, ltb, leb,
  ◌&&◌, ◌+◌, ◌%◌, ◌^◌,
}

pub record Entry (V : Type 0) : Type 0 where
  pub value : V
  pub created_at : ℤ
  pub expires_at : ℤ
  pub sequence : ℕ

-- The errors of `get`, with their details but without their texts.
pub data ToolError : Type 0 where
  expired_id : Text → Text → Bytes → Bytes → ToolError
  unknown_id : Text → Text → ToolError

pub data Outcome (V : Type 0) : Type 0 where
  found : V → Outcome V
  refused : ToolError → Outcome V

pub record Bucket (V : Type 0) : Type 0 where
  pub kind : Text
  pub entries : List (Text × Entry V)
  pub capacity : ℕ
  pub ttl : ℤ
  pub next_sequence : ℕ

module _ {V : Type 0} where
  -- `e.expires_at > now`
  abbrev pub is_live : ℤ → Entry V → Bool
  is_live now e = ltb_ℤ now e.expires_at

  unfoldable pub new : Text → ℕ → ℤ → Bucket V
  new kind capacity ttl = record {
    kind = kind;
    entries = [];
    capacity = capacity;
    ttl = ttl;
    next_sequence = 0;
  }

  -- The ids whose entries `test` holds of, in order.
  unfoldable pub ids_where : (Entry V → Bool) → List (Text × Entry V) → List Text
  ids_where test [] = []
  ids_where test ((j, e) ∷ l) = let rest = ids_where test l in if test e then j ∷ rest else rest

  unfoldable pub remove_all : List Text → List (Text × Entry V) → List (Text × Entry V)
  remove_all [] l = l
  remove_all (k ∷ ks) l = remove_all ks (delete k l)

  -- The bucket, and how many entries were removed.
  unfoldable pub sweep : ℤ → Bucket V → Bucket V × ℕ
  unfolding ids_where remove_all
  sweep now b =
      let expired = ids_where (λ e. not (is_live now e)) b.entries in
      (record b { entries = remove_all expired b.entries }, length expired)

  -- `min_by_key` on the sequence: the first of the smallest, with `k` and `s` the best so far.
  unfoldable pub oldest_from : Text → ℕ → List (Text × Entry V) → Text
  oldest_from k s [] = k
  oldest_from k s ((j, e) ∷ l) =
      let other = oldest_from j e.sequence l in
      let same = oldest_from k s l in if ltb e.sequence s then other else same

  unfoldable pub oldest : List (Text × Entry V) → Option Text
  unfolding oldest_from
  oldest [] = none
  oldest ((j, e) ∷ l) = some (oldest_from j e.sequence l)

  unfoldable pub evict : Option Text → List (Text × Entry V) → List (Text × Entry V)
  evict none l = l
  evict (some k) l = delete k l

  unfoldable pub evict_oldest : Bucket V → Bucket V
  unfolding evict oldest
  evict_oldest b = record b { entries = evict (oldest b.entries) b.entries }

  -- The entries when the new one is put in.
  unfoldable pub make_room : Text → Bucket V → Bucket V
  unfolding evict_oldest
  make_room id b =
      if leb b.capacity (length b.entries) && not (has id b.entries) then evict_oldest b else b

  -- The part of `insert` behind the eviction.
  unfoldable pub put_entry : Text → V → ℤ → Bucket V → Bucket V
  put_entry id value now b =
      let e : Entry V = record {
        value = value;
        created_at = now;
        expires_at = to_i64 (now +ℤ b.ttl);
        sequence = b.next_sequence;
      } in
      record b { entries = store id e b.entries; next_sequence = (b.next_sequence + 1) % 2 ^ 64 }

  unfoldable pub insert : Text → V → ℤ → Bucket V → Bucket V
  unfolding sweep make_room put_entry
  insert id value now b = put_entry id value now (make_room id (sweep now b).0)

  unfoldable pub answer : Bucket V → Text → ℤ → Option (Entry V) → Outcome V
  answer b id now none = refused (unknown_id b.kind id)
  answer b id now (some e) =
      if is_live now e
      then found e.value
      else refused
          (expired_id b.kind id (iso8601_from_unix e.created_at) (iso8601_from_unix e.expires_at))

  unfoldable pub get : Text → ℤ → Bucket V → Outcome V
  unfolding answer
  get id now b = answer b id now (lookup id b.entries)

  unfoldable pub live_entry : ℤ → Option (Entry V) → Bool
  live_entry now none = false
  live_entry now (some e) = is_live now e

  unfoldable pub contains : Text → ℤ → Bucket V → Bool
  unfolding live_entry
  contains id now b = live_entry now (lookup id b.entries)

  unfoldable pub ids : ℤ → Bucket V → List Text
  unfolding ids_where
  ids now b = ids_where (is_live now) b.entries

  unfoldable pub len : Bucket V → ℕ
  len b = length b.entries
