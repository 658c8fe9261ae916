-- ===== src/Store/Tests.antt =====
-- The theorems on the buckets of crates/reaper-music-mcp/src/store.rs at a concrete bucket: a full one
-- of two numbers.
use reapermcp.Store.Session.{Session, cached, all_contained, hit}
use reapermcp.Qjson.Time.Iso8601.{iso8601_from_unix}
use reapermcp.Store.Answers.{lookup-insert, get-insert_self}
use reapermcp.Store.Oldest.{AtLeast}
use reapermcp.Store.Live.{live, sweep-live}
use reapermcp.Prelude.Int.{pos, ltb_ℤ, ◌+ℤ◌}
use reapermcp.Store.Bounds.{IsValid, insert-IsValid}
use reapermcp.Store.Ordered.{IsUnique, lookup}
use reapermcp.Store.{
  Entry, Bucket, sweep, get, insert, found, refused, expired_id, contains, live_entry,
}
use reapermcp.Prelude.{ℕ, ◌≡◌, codes, arith, some, ◌∷◌, if◌then◌else◌, [], ◌⊎◌, ◌+◌, refl, length}

abbrev first : Entry ℕ
first = record { value = 7; created_at = pos 0; expires_at = pos 1800; sequence = 0 }

abbrev second : Entry ℕ
second = record { value = 8; created_at = pos 60; expires_at = pos 1860; sequence = 1 }

abbrev full : Bucket ℕ
full = record {
  kind = codes "snapshot";
  entries = (codes "a", first) ∷ (codes "b", second) ∷ [];
  capacity = 2;
  ttl = pos 1800;
  next_sequence = 2;
}

full-IsUnique : IsUnique full.entries
full-IsUnique = ((refl, tt), (tt, tt))

full-IsValid : IsValid full
full-IsValid = record {
  unique = full-IsUnique;
  bounded = omega arith;
  space = omega arith;
  below = (omega arith, (omega arith, tt));
}

sweep-live_example :
    ((sweep (pos 1800) full).0.entries ≡ live (pos 1800) full.entries)
    × ((sweep (pos 1800) full).1 + length (live (pos 1800) full.entries) ≡ length full.entries)
sweep-live_example = sweep-live (pos 1800) full full-IsUnique

insert-IsValid_example : IsValid (insert (codes "c") 9 (pos 90) full)
insert-IsValid_example = insert-IsValid (codes "c") 9 (pos 90) full full-IsValid (omega arith)

get-insert_self_example : get (codes "c") (pos 90) (insert (codes "c") 9 (pos 90) full) ≡ (
    if ltb_ℤ (pos 90) (pos 90 +ℤ pos 1800)
    then found 9
    else refused (
        expired_id
          (codes "snapshot")
          (codes "c")
          (iso8601_from_unix (pos 90))
          (iso8601_from_unix (pos 90 +ℤ pos 1800))))
unfolding ◌+ℤ◌
get-insert_self_example =
    get-insert_self (codes "c") 9 (pos 90) (pos 90) full (omega arith, omega arith)

second-found : lookup (codes "b") full.entries ≡ some second
unfolding lookup
second-found = refl

lookup-insert_example :
    (lookup (codes "b") (insert (codes "c") 9 (pos 90) full).entries ≡ some second)
    ⊎ AtLeast second.sequence (live (pos 90) full.entries)
lookup-insert_example =
    lookup-insert (codes "c") (codes "b") 9 (pos 90) second full full-IsValid refl second-found refl

abbrev session : Session ℕ
session = record { candidates = full; generations = []; cache_sequence = 0 }

-- The session with one generation.
abbrev warm : Session ℕ
warm = record {
  candidates = full;
  generations =
      (
        codes "k",
        record { value = codes "a" ∷ []; created_at = pos 80; expires_at = pos 3680; sequence = 0 },
      )
      ∷ [];
  cache_sequence = 1;
}

warm-hit : cached (codes "k") (pos 90) warm ≡ some (codes "a" ∷ [])
unfolding cached hit all_contained contains live_entry lookup
warm-hit = refl
