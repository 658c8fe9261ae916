-- ===== src/Store/Ordered.antt =====
-- What crates/reaper-music-mcp/src/store.rs uses of Rust's `BTreeMap` with string keys: the list of
-- the entries in the order of the keys' bytes.
use reapermcp.Qjson.Json.Map.{text_eq_iff}
use reapermcp.Qjson.Json.Write.{key_le}
use reapermcp.Qjson.Json.{text_eq}
use reapermcp.Qjson.Utf8.{Text}
use reapermcp.Prelude.{
  ◌≡◌, List, Option, Bool, ◌∷◌, if◌then◌else◌, none, length, some, false, arith, [], ◌||◌, refl,
  ◌↔◌, true, Bool-cases, ◌+◌, inl, inr,
}

module _ {E : Type 0} where
  unfoldable pub lookup : Text → List (Text × E) → Option E
  lookup k [] = none
  lookup k ((j, e) ∷ l) = if text_eq j k then some e else lookup k l

  unfoldable pub has : Text → List (Text × E) → Bool
  has k [] = false
  has k ((j, e) ∷ l) = text_eq j k || has k l

  -- Another value for a key that is there.
  unfoldable pub replace : Text → E → List (Text × E) → List (Text × E)
  replace k v [] = []
  replace k v ((j, e) ∷ l) =
      let rest = replace k v l in if text_eq j k then (j, v) ∷ l else (j, e) ∷ rest

  -- A new key, in its place.
  unfoldable pub place : Text → E → List (Text × E) → List (Text × E)
  place k v [] = (k, v) ∷ []
  place k v ((j, e) ∷ l) =
      let rest = place k v l in if key_le k j then (k, v) ∷ (j, e) ∷ l else (j, e) ∷ rest

  unfoldable pub store : Text → E → List (Text × E) → List (Text × E)
  store k v l = if has k l then replace k v l else place k v l

  unfoldable pub delete : Text → List (Text × E) → List (Text × E)
  delete k [] = []
  delete k ((j, e) ∷ l) = let rest = delete k l in if text_eq j k then l else (j, e) ∷ rest

  -- No key stands twice.
  abbrev pub IsAbsent : Text → List (Text × E) → Type 0
  IsAbsent k [] = Unit
  IsAbsent k ((j, e) ∷ l) = (text_eq j k ≡ false) × IsAbsent k l

  abbrev pub IsUnique : List (Text × E) → Type 0
  IsUnique [] = Unit
  IsUnique ((j, e) ∷ l) = IsAbsent j l × IsUnique l

  has_iff : (k : Text) (l : List (Text × E)) → (has k l ≡ false) ↔ IsAbsent k l
  unfolding has
  has_iff k [] = ground arith
  has_iff k ((j, e) ∷ l) = ground (arith, has_iff k l)

  lookup-replace :
      (k j : Text) (v : E) (l : List (Text × E))
      → has k l ≡ true
      → lookup j (replace k v l) ≡ (if text_eq k j then some v else lookup j l)
  unfolding lookup replace has
  lookup-replace k j v [] h = ground (arith, h)
  lookup-replace k j v ((i, e) ∷ l) h =
      ground (arith, lookup-replace k j v l, text_eq_iff i k, text_eq_iff i j, text_eq_iff k j)

  lookup-place :
      (k j : Text) (v : E) (l : List (Text × E))
      → has k l ≡ false
      → lookup j (place k v l) ≡ (if text_eq k j then some v else lookup j l)
  unfolding lookup place has
  lookup-place k j v [] h = ground arith
  lookup-place k j v ((i, e) ∷ l) h =
      ground (arith, lookup-place k j v l, text_eq_iff i k, text_eq_iff i j, text_eq_iff k j)

  pub lookup-store :
      (k j : Text) (v : E) (l : List (Text × E))
      → lookup j (store k v l) ≡ (if text_eq k j then some v else lookup j l)
  unfolding store
  lookup-store k j v l = elim (Bool-cases (has k l)) [
    | inl h ↦ rw h (lookup-replace k j v l h)
    | inr h ↦ rw h (lookup-place k j v l h)
  ]

  pub lookup-IsAbsent : (k : Text) (l : List (Text × E)) → IsAbsent k l → lookup k l ≡ none
  unfolding lookup
  lookup-IsAbsent k [] h = refl
  lookup-IsAbsent k ((j, e) ∷ l) (n, h) = rw n (lookup-IsAbsent k l h)

  pub lookup-delete :
      (k j : Text) (l : List (Text × E))
      → IsUnique l
      → lookup j (delete k l) ≡ (if text_eq k j then none else lookup j l)
  unfolding lookup delete
  lookup-delete k j [] u = ground arith
  lookup-delete k j ((i, e) ∷ l) (a, u) = ground (
    arith,
    lookup-delete k j l u,
    lookup-IsAbsent i l a,
    text_eq_iff i k,
    text_eq_iff i j,
    text_eq_iff k j,
  )

  pub IsAbsent-delete : (k j : Text) (l : List (Text × E)) → IsAbsent j l → IsAbsent j (delete k l)
  unfolding delete
  IsAbsent-delete k j [] h = tt
  IsAbsent-delete k j ((i, e) ∷ l) (n, h) = ground (arith, IsAbsent-delete k j l h)

  pub IsUnique-delete : (k : Text) (l : List (Text × E)) → IsUnique l → IsUnique (delete k l)
  unfolding delete
  IsUnique-delete k [] u = tt
  IsUnique-delete k ((i, e) ∷ l) (a, u) =
      ground (arith, IsUnique-delete k l u, IsAbsent-delete k i l a)

  IsAbsent-replace :
      (k j : Text) (v : E) (l : List (Text × E)) → IsAbsent j l → IsAbsent j (replace k v l)
  unfolding replace
  IsAbsent-replace k j v [] h = tt
  IsAbsent-replace k j v ((i, e) ∷ l) (n, h) = ground (arith, IsAbsent-replace k j v l h)

  IsAbsent-place :
      (k j : Text) (v : E) (l : List (Text × E))
      → text_eq k j ≡ false
      → IsAbsent j l
      → IsAbsent j (place k v l)
  unfolding place
  IsAbsent-place k j v [] n h = (n, tt)
  IsAbsent-place k j v ((i, e) ∷ l) n (ni, h) = ground (arith, IsAbsent-place k j v l n h)

  IsUnique-replace :
      (k : Text) (v : E) (l : List (Text × E)) → IsUnique l → IsUnique (replace k v l)
  unfolding replace
  IsUnique-replace k v [] u = tt
  IsUnique-replace k v ((i, e) ∷ l) (a, u) =
      ground (arith, IsUnique-replace k v l u, IsAbsent-replace k i v l a)

  IsUnique-place :
      (k : Text) (v : E) (l : List (Text × E)) → IsAbsent k l → IsUnique l → IsUnique (place k v l)
  unfolding place
  IsUnique-place k v [] h u = (tt, tt)
  IsUnique-place k v ((i, e) ∷ l) (n, h) (a, u) =
      ground
        (arith, IsUnique-place k v l h u, IsAbsent-place k i v l, text_eq_iff i k, text_eq_iff k i)

  pub IsUnique-store :
      (k : Text) (v : E) (l : List (Text × E)) → IsUnique l → IsUnique (store k v l)
  unfolding store
  IsUnique-store k v l u = elim (Bool-cases (has k l)) [
    | inl h ↦ rw h (IsUnique-replace k v l u)
    | inr h ↦ rw h (IsUnique-place k v l ((has_iff k l).0 h) u)
  ]

  length-replace : (k : Text) (v : E) (l : List (Text × E)) → length (replace k v l) ≡ length l
  unfolding replace
  length-replace k v [] = refl
  length-replace k v ((i, e) ∷ l) = ground (arith, length-replace k v l)

  length-place : (k : Text) (v : E) (l : List (Text × E)) → length (place k v l) ≡ length l + 1
  unfolding place
  length-place k v [] = omega arith
  length-place k v ((i, e) ∷ l) = ground (arith, length-place k v l)

  pub length-store :
      (k : Text) (v : E) (l : List (Text × E))
      → length (store k v l) ≡ (if has k l then length l else length l + 1)
  unfolding store
  length-store k v l = ground (arith, length-replace k v l, length-place k v l)

  pub length-delete :
      (k : Text) (l : List (Text × E)) → length (delete k l) + (if has k l then 1 else 0) ≡ length l
  unfolding delete has
  length-delete k [] = refl
  length-delete k ((i, e) ∷ l) = ground (arith, length-delete k l)
