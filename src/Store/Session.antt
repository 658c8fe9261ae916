-- ===== src/Store/Session.antt =====
-- The generation cache of `SessionStore` in crates/reaper-music-mcp/src/store.rs, with the candidates
-- that it refers to. The other buckets are used apart from it.
use reapermcp.Qjson.Json.Map.{text_eq_iff}
use reapermcp.Store.Ordered.{lookup, store, lookup-store, has}
use reapermcp.Qjson.Utf8.{Text}
use reapermcp.Store.{Bucket, Entry, insert, remove_all, ids_where, contains, evict, oldest}
use reapermcp.Prelude.Machine.{to_i64}
use reapermcp.Prelude.Int.{ℤ, pos, leb_ℤ, ◌+ℤ◌}
use reapermcp.Prelude.{
  ℕ, ◌≡◌, List, Bool, Option, Bool-cases, some, if◌then◌else◌, true, leb, ◌∷◌, none, length, ◌∙◌,
  ◌&&◌, ◌+◌, not, ap, ◌%◌, [], ◌^◌, inl, refl, inr,
}

abbrev pub candidate_ttl : ℤ
candidate_ttl = pos 3600

abbrev pub max_candidates : ℕ
max_candidates = 128

abbrev pub max_cache_entries : ℕ
max_cache_entries = 64

-- The fields `candidates`, `cache` and `cache_sequence`.
pub record Session (V : Type 0) : Type 0 where
  pub candidates : Bucket V
  pub generations : List (Text × Entry (List Text))
  pub cache_sequence : ℕ

module _ {V : Type 0} where
  -- The id is the one that the record holds.
  pub put_candidate : Text → V → ℤ → Session V → Session V
  put_candidate id record_ now s = record s { candidates = insert id record_ now s.candidates }

  -- `.all(|id| self.candidates.contains(id, now))`
  unfoldable pub all_contained : List Text → ℤ → Bucket V → Bool
  all_contained [] now b = true
  all_contained (id ∷ ids) now b = contains id now b && all_contained ids now b

  unfoldable pub hit : ℤ → Bucket V → Option (Entry (List Text)) → Option (List Text)
  hit now b none = none
  hit now b (some e) =
      if leb_ℤ e.expires_at now
      then none
      else if all_contained e.value now b
      then some e.value
      else none

  unfoldable pub cached : Text → ℤ → Session V → Option (List Text)
  cached key now s = hit now s.candidates (lookup key s.generations)

  -- `sweep_cache`
  pub sweep_cache : ℤ → Session V → Session V
  sweep_cache now s = record s {
    generations = remove_all (ids_where (λ e. leb_ℤ e.expires_at now) s.generations) s.generations;
  }

  -- The eviction in `cache`.
  pub cache_room : Text → Session V → Session V
  cache_room key s =
      if leb max_cache_entries (length s.generations) && not (has key s.generations)
      then record s { generations = evict (oldest s.generations) s.generations }
      else s

  pub cache_entry : Text → List Text → ℤ → Session V → Session V
  cache_entry key ids now s =
      let e : Entry (List Text) = record {
        value = ids;
        created_at = now;
        expires_at = to_i64 (now +ℤ candidate_ttl);
        sequence = s.cache_sequence;
      } in
      record s {
        generations = store key e s.generations;
        cache_sequence = (s.cache_sequence + 1) % 2 ^ 64;
      }

  pub cache : Text → List Text → ℤ → Session V → Session V
  cache key ids now s = cache_entry key ids now (cache_room key (sweep_cache now s))

  cache_room-candidates :
      (key : Text) (s : Session V) → (cache_room key s).candidates ≡ s.candidates
  unfolding cache_room
  cache_room-candidates key s =
      elim (Bool-cases
        (leb max_cache_entries (length s.generations) && not (has key s.generations))) [
          | inl h ↦ rw h refl
          | inr h ↦ rw h refl
        ]

  cached-cache_entry :
      (key : Text) (ids : List Text) (now later : ℤ) (s : Session V)
      → cached key later (cache_entry key ids now s) ≡ (
          if leb_ℤ (to_i64 (now +ℤ candidate_ttl)) later
          then none
          else if all_contained ids later s.candidates
          then some ids
          else none)
  unfolding cached cache_entry hit
  cached-cache_entry key ids now later s =
      rw (lookup-store key key _ s.generations) (rw ((text_eq_iff key key).1 refl) refl)

  -- A generation that was recorded is found under its key as long as its lifetime lasts and every
  -- one of its candidates is still live; else there is no result.
  pub cached-cache :
      (key : Text) (ids : List Text) (now later : ℤ) (s : Session V)
      → cached key later (cache key ids now s) ≡ (
          if leb_ℤ (to_i64 (now +ℤ candidate_ttl)) later
          then none
          else if all_contained ids later s.candidates
          then some ids
          else none)
  unfolding cache sweep_cache
  cached-cache key ids now later s =
      cached-cache_entry key ids now later (cache_room key (sweep_cache now s))
      ∙ ap
          (λ c.
            if leb_ℤ (to_i64 (now +ℤ candidate_ttl)) later
            then none
            else if all_contained ids later c
            then some ids
            else none)
          (cache_room-candidates key (sweep_cache now s))
