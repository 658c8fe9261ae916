-- ===== src/Store/Answers.antt =====
-- What the buckets of crates/reaper-music-mcp/src/store.rs answer after an insertion.
use reapermcp.Prelude.Machine.{to_i64, to_i64-id, IsI64}
use reapermcp.Store.Values.{AllValues-map}
use reapermcp.Qjson.Json.Map.{text_eq_iff}
use reapermcp.Qjson.Time.Iso8601.{iso8601_from_unix}
use reapermcp.Store.Live.{live, sweep-live, lookup-live}
use reapermcp.Store.Oldest.{AtLeast}
use reapermcp.Store.Ordered.{lookup, lookup-store, has, lookup-delete}
use reapermcp.Store.Bounds.{IsValid, IsValid-sweep, HasSpace-make_room, kept, evicted}
use reapermcp.Qjson.Json.{text_eq}
use reapermcp.Prelude.Int.{ℤ, ltb_ℤ, ◌+ℤ◌}
use reapermcp.Qjson.Utf8.{Text}
use reapermcp.Store.{
  Outcome, make_room, get, insert, put_entry, evict_oldest, answer, sweep, Entry, live_entry,
  Bucket, found, is_live, refused, expired_id,
}
use reapermcp.Prelude.{
  ℕ, ◌≡◌, Bool-cases, if◌then◌else◌, leb, false, length, some, ◌∙◌, ◌⊎◌, ◌&&◌, not, true, refl, ap,
  inl, inr, ap₂, subst, Option, none, sym, ◌≤◌, arith,
}

module _ {V : Type 0} where
  make_room-fields :
      (id : Text) (b : Bucket V) → ((make_room id b).kind ≡ b.kind) × ((make_room id b).ttl ≡ b.ttl)
  unfolding make_room evict_oldest
  make_room-fields id b =
      elim (Bool-cases (leb b.capacity (length b.entries) && not (has id b.entries))) [
        | inl h ↦ rw h (refl, refl)
        | inr h ↦ rw h (refl, refl)
      ]

  get-put_entry :
      (id : Text) (value : V) (now later : ℤ) (b : Bucket V)
      → get id later (put_entry id value now b) ≡ (
          if ltb_ℤ later (to_i64 (now +ℤ b.ttl))
          then found value
          else refused (
              expired_id b.kind id
                (iso8601_from_unix now)
                (iso8601_from_unix (to_i64 (now +ℤ b.ttl)))))
  unfolding get answer put_entry
  get-put_entry id value now later b =
      rw (lookup-store id id _ b.entries) (rw ((text_eq_iff id id).1 refl) refl)

  -- A stored value is found until its lifetime is over, and from then on the answer is that it has
  -- expired, with the two moments, if the end of the lifetime fits an i64.
  pub get-insert_self :
      (id : Text) (value : V) (now later : ℤ) (b : Bucket V)
      → IsI64 (now +ℤ b.ttl)
      → get id later (insert id value now b) ≡ (
          if ltb_ℤ later (now +ℤ b.ttl)
          then found value
          else refused
              (expired_id b.kind id (iso8601_from_unix now) (iso8601_from_unix (now +ℤ b.ttl))))
  unfolding insert sweep
  get-insert_self id value now later b fits =
      let (kind, ttl) = make_room-fields id (sweep now b).0 in
      get-put_entry id value now later (make_room id (sweep now b).0)
      ∙ ap₂ (λ k t. at k (to_i64 (now +ℤ t))) kind ttl
      ∙ ap (at b.kind) (to_i64-id (now +ℤ b.ttl) fits)
    where
      at : Text → ℤ → Outcome V
      at k ends =
          if ltb_ℤ later ends
          then found value
          else refused (expired_id k id (iso8601_from_unix now) (iso8601_from_unix ends))

  lookup-put_entry :
      (id j : Text) (value : V) (now : ℤ) (b : Bucket V)
      → text_eq id j ≡ false
      → lookup j (put_entry id value now b).entries ≡ lookup j b.entries
  unfolding put_entry
  lookup-put_entry id j value now b n = lookup-store id j _ b.entries ∙ rw n refl

  sequence_of : ℕ → Option (Entry V) → ℕ
  sequence_of d none = d
  sequence_of d (some x) = x.sequence

  same_sequence : (f g : Entry V) → some f ≡ some g → f.sequence ≡ g.sequence
  unfolding sequence_of
  same_sequence f g h = ap (sequence_of 0) h

  lookup-make_room :
      (id j : Text) (e : Entry V) (b : Bucket V)
      → IsValid b
      → lookup j b.entries ≡ some e
      → (lookup j (make_room id b).entries ≡ some e) ⊎ AtLeast e.sequence b.entries
  lookup-make_room id j e b v h = elim (HasSpace-make_room id b v) [
    | kept r _ ↦ inl (rw r h)
    | evicted k f r g m ↦ elim (Bool-cases (text_eq k j)) [
      | inl t ↦
          let same = sym g ∙ ap (λ i. lookup i b.entries) ((text_eq_iff k j).0 t) ∙ h in
          inr (
            AllValues-map (λ x. f.sequence ≤ x.sequence) (λ x. e.sequence ≤ x.sequence) b.entries
              (λ x le. omega (arith, le, same_sequence f e same)) m)
      | inr t ↦ inl (rw r (lookup-delete k j b.entries v.unique ∙ rw t h))
    ]
  ]

  -- In a valid bucket, an entry that is live stays when one with another id is inserted, or it was
  -- one of the live entries with the smallest sequence.
  pub lookup-insert :
      (id j : Text) (value : V) (now : ℤ) (e : Entry V) (b : Bucket V)
      → IsValid b
      → text_eq id j ≡ false
      → lookup j b.entries ≡ some e
      → is_live now e ≡ true
      → (lookup j (insert id value now b).entries ≡ some e)
        ⊎ AtLeast e.sequence (live now b.entries)
  unfolding insert live_entry
  lookup-insert id j value now e b v n h l =
      let swept = (sweep-live now b v.unique).0 in
      let here =
        ap (λ s. lookup j s) swept ∙ lookup-live j now b.entries v.unique ∙ rw h (rw l refl) in
      elim (lookup-make_room id j e (sweep now b).0 (IsValid-sweep now b v) here) [
        | inl k ↦ inl (lookup-put_entry id j value now (make_room id (sweep now b).0) n ∙ k)
        | inr m ↦ inr (subst (AtLeast e.sequence) swept m)
      ]
