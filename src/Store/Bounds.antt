-- ===== src/Store/Bounds.antt =====
-- The bounds of the buckets of crates/reaper-music-mcp/src/store.rs.
use reapermcp.Store.Oldest.{AtLeast, oldest-AtLeast}
use reapermcp.Store.Values.{AllValues, AllValues-store, AllValues-delete, AllValues-map}
use reapermcp.Store.Live.{sweep-live, IsUnique-live, length-live, AllValues-live}
use reapermcp.Prelude.Int.{ℤ}
use reapermcp.Qjson.Utf8.{Text}
use reapermcp.Store.Ordered.{
  has, IsUnique, lookup, delete, IsUnique-store, length-store, IsUnique-delete, length-delete,
  store,
}
use reapermcp.Store.{Bucket, make_room, sweep, put_entry, insert, evict_oldest, Entry, evict}
use reapermcp.Prelude.{
  [], ◌∷◌, ℕ, ◌≡◌, true, length, ◌⊎◌, ◌+◌, ◌≤◌, List, ◌<◌, Bool-cases, subst, some, leb, sym, ◌^◌,
  arith, inr, inl, ap, refl, ◌%◌,
}

-- The ids are distinct, there are at most `capacity` entries, and the counter is above every
-- sequence.
pub record IsValid {V : Type 0} (b : Bucket V) : Type 0 where
  pub unique : IsUnique b.entries
  pub bounded : length b.entries ≤ b.capacity
  pub space : 1 ≤ b.capacity
  pub below : AllValues (λ e. e.sequence < b.next_sequence) b.entries

module _ {V : Type 0} where
  has-lookup :
      (k : Text) (e : Entry V) (l : List (Text × Entry V)) → lookup k l ≡ some e → has k l ≡ true
  unfolding has lookup
  has-lookup k e [] h = ground (arith, h)
  has-lookup k e ((j, f) ∷ l) h = ground (arith, h, has-lookup k e l)

  -- What happens before an entry is put in: nothing, since its id is known or there is room, or the
  -- removal of an entry with the smallest sequence.
  pub data HasSpace (id : Text) (b : Bucket V) : Type 0 where
    kept :
        make_room id b ≡ b
        → (has id b.entries ≡ true) ⊎ (length b.entries < b.capacity)
        → HasSpace id b
    evicted :
        (k : Text) (e : Entry V)
        → make_room id b ≡ record b { entries = delete k b.entries }
        → lookup k b.entries ≡ some e
        → AtLeast e.sequence b.entries
        → HasSpace id b

  pub HasSpace-make_room : (id : Text) (b : Bucket V) → IsValid b → HasSpace id b
  unfolding make_room evict_oldest evict
  HasSpace-make_room id b v = elim (Bool-cases (leb b.capacity (length b.entries))) [
    | inr t ↦ kept (rw t refl) (inr (ground arith))
    | inl t ↦ elim (Bool-cases (has id b.entries)) [
      | inl h ↦ kept (rw h (rw t refl)) (inl h)
      | inr h ↦
          let (k, e, o, f, m) = oldest-AtLeast b.entries v.unique (ground (arith, v.space)) in
          evicted k e (rw h (rw t (rw o refl))) f m
    ]
  ]

  pub IsValid-sweep : (now : ℤ) (b : Bucket V) → IsValid b → IsValid (sweep now b).0
  unfolding sweep
  IsValid-sweep now b v =
      let e = (sweep-live now b v.unique).0 in
      record {
        unique = subst IsUnique (sym e) (IsUnique-live now b.entries v.unique);
        bounded = omega (arith, ap length e, length-live now b.entries, v.bounded);
        space = v.space;
        below =
            subst (AllValues (λ e. e.sequence < b.next_sequence)) (sym e)
              (AllValues-live (λ e. e.sequence < b.next_sequence) now b.entries v.below);
      }

  length-store-le :
      (id : Text) (e : Entry V) (n : ℕ) (l : List (Text × Entry V))
      → (has id l ≡ true) × (length l ≤ n) ⊎ (length l < n)
      → length (store id e l) ≤ n
  length-store-le id e n l h = ground (arith, length-store id e l)

  IsValid-put_entry :
      (id : Text) (value : V) (now : ℤ) (b : Bucket V)
      → IsUnique b.entries
      → AllValues (λ e. e.sequence < b.next_sequence) b.entries
      → (has id b.entries ≡ true) × (length b.entries ≤ b.capacity)
        ⊎ (length b.entries < b.capacity)
      → 1 ≤ b.capacity
      → b.next_sequence + 1 < 2 ^ 64
      → IsValid (put_entry id value now b)
  unfolding put_entry
  IsValid-put_entry id value now b u below room space n = record {
    unique = IsUnique-store id _ b.entries u;
    bounded = length-store-le id _ b.capacity b.entries room;
    space = space;
    below =
        AllValues-store (λ e. e.sequence < (b.next_sequence + 1) % 2 ^ 64) id _ b.entries
          (omega arith)
          (AllValues-map (λ e. e.sequence < b.next_sequence)
            (λ e. e.sequence < (b.next_sequence + 1) % 2 ^ 64) b.entries (λ e h. omega arith)
            below);
  }

  IsValid-make_room :
      (id : Text) (value : V) (now : ℤ) (b : Bucket V)
      → IsValid b
      → b.next_sequence + 1 < 2 ^ 64
      → IsValid (put_entry id value now (make_room id b))
  IsValid-make_room id value now b v n = elim (HasSpace-make_room id b v) [
    | kept e (inl h) ↦
        rw e (IsValid-put_entry id value now b v.unique v.below (inl (h, v.bounded)) v.space n)
    | kept e (inr h) ↦ rw e (IsValid-put_entry id value now b v.unique v.below (inr h) v.space n)
    | evicted k f e h m ↦ rw e (
        IsValid-put_entry id value now (record b { entries = delete k b.entries })
          (IsUnique-delete k b.entries v.unique)
          (AllValues-delete (λ e. e.sequence < b.next_sequence) k b.entries v.below)
          (inr (ground (arith, length-delete k b.entries, has-lookup k f b.entries h, v.bounded)))
          v.space n)
  ]

  -- An insertion keeps the bucket valid, as long as the counter does not wrap round: there are never
  -- more entries than the capacity.
  pub insert-IsValid :
      (id : Text) (value : V) (now : ℤ) (b : Bucket V)
      → IsValid b
      → b.next_sequence + 1 < 2 ^ 64
      → IsValid (insert id value now b)
  unfolding insert
  insert-IsValid id value now b v n =
      IsValid-make_room id value now (sweep now b).0 (IsValid-sweep now b v) n
