-- ===== src/Store/Values.antt =====
-- Properties of all the entries of crates/reaper-music-mcp/src/store.rs.
use reapermcp.Qjson.Json.Write.{key_le}
use reapermcp.Qjson.Json.{text_eq}
use reapermcp.Qjson.Utf8.{Text}
use reapermcp.Store.Ordered.{delete, replace, place, store, has}
use reapermcp.Prelude.{[], ◌∷◌, List, Bool-cases, inl, inr}

module _ {E : Type 0} where
  abbrev pub AllValues : (E → Type 0) → List (Text × E) → Type 0
  AllValues P [] = Unit
  AllValues P ((j, e) ∷ l) = P e × AllValues P l

  pub AllValues-delete :
      (P : E → Type 0) (k : Text) (l : List (Text × E)) → AllValues P l → AllValues P (delete k l)
  unfolding delete
  AllValues-delete P k [] h = tt
  AllValues-delete P k ((i, e) ∷ l) (he, h) = elim (Bool-cases (text_eq i k)) [
    | inl t ↦ rw t h
    | inr t ↦ rw t (he, AllValues-delete P k l h)
  ]

  AllValues-replace :
      (P : E → Type 0) (k : Text) (v : E) (l : List (Text × E))
      → P v
      → AllValues P l
      → AllValues P (replace k v l)
  unfolding replace
  AllValues-replace P k v [] hv h = tt
  AllValues-replace P k v ((i, e) ∷ l) hv (he, h) = elim (Bool-cases (text_eq i k)) [
    | inl t ↦ rw t (hv, h)
    | inr t ↦ rw t (he, AllValues-replace P k v l hv h)
  ]

  AllValues-place :
      (P : E → Type 0) (k : Text) (v : E) (l : List (Text × E))
      → P v
      → AllValues P l
      → AllValues P (place k v l)
  unfolding place
  AllValues-place P k v [] hv h = (hv, tt)
  AllValues-place P k v ((i, e) ∷ l) hv (he, h) = elim (Bool-cases (key_le k i)) [
    | inl t ↦ rw t (hv, (he, h))
    | inr t ↦ rw t (he, AllValues-place P k v l hv h)
  ]

  pub AllValues-store :
      (P : E → Type 0) (k : Text) (v : E) (l : List (Text × E))
      → P v
      → AllValues P l
      → AllValues P (store k v l)
  unfolding store
  AllValues-store P k v l hv h = elim (Bool-cases (has k l)) [
    | inl t ↦ rw t (AllValues-replace P k v l hv h)
    | inr t ↦ rw t (AllValues-place P k v l hv h)
  ]

  pub AllValues-map :
      (P Q : E → Type 0) (l : List (Text × E))
      → ((e : E) → P e → Q e)
      → AllValues P l
      → AllValues Q l
  AllValues-map P Q [] f h = tt
  AllValues-map P Q ((i, e) ∷ l) f (he, h) = (f e he, AllValues-map P Q l f h)
