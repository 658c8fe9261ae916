-- ===== src/Qjson/Json/Map.antt =====
-- The laws of the object map of crates/qjson/src/json.rs.
use reapermcp.Prelude.{◌≡◌, arith, true, false, none, if◌then◌else◌, refl, ◌↔◌, some, ◌++◌, ◌∷◌, []}
use reapermcp.Qjson.Json.{
  Json, JsonMap, text_eq, entry, get, insert, keys, contains_key, remove, no_entries,
}
use reapermcp.Qjson.Utf8.{Text}

pub text_eq_iff : (s t : Text) → (text_eq s t ≡ true) ↔ (s ≡ t)
text_eq_iff [] [] = ground arith
text_eq_iff [] (d ∷ t) = ground arith
text_eq_iff (c ∷ s) [] = ground arith
text_eq_iff (c ∷ s) (d ∷ t) = ground (arith, text_eq_iff s t)

-- No key stands twice.
abbrev pub Lacks : {F : Type 0} → Text → JsonMap F → Type 0
Lacks k no_entries = Unit
Lacks k (entry j w m) = (text_eq j k ≡ false) × Lacks k m

abbrev pub IsDistinct : {F : Type 0} → JsonMap F → Type 0
IsDistinct no_entries = Unit
IsDistinct (entry j w m) = Lacks j m × IsDistinct m

module _ {F : Type 0} where
  -- A key that was inserted is found with its value, and no other key changes. The returned
  -- value is the one that was there.
  pub get-insert :
      (k j : Text) (v : Json F) (m : JsonMap F)
      → (get j (insert k v m).0 ≡ (if text_eq k j then some v else get j m))
        × ((insert k v m).1 ≡ get k m)
  unfolding get insert
  get-insert k j v no_entries = ground arith
  get-insert k j v (entry i w m) =
      ground (arith, get-insert k j v m, text_eq_iff i k, text_eq_iff i j, text_eq_iff k j)

  insert-Lacks :
      (k j : Text) (v : Json F) (m : JsonMap F)
      → text_eq k j ≡ false
      → Lacks j m
      → Lacks j (insert k v m).0
  unfolding insert
  insert-Lacks k j v no_entries e h = (e, tt)
  insert-Lacks k j v (entry i w m) e h = ground (arith, insert-Lacks k j v m e)

  -- Insertion keeps the keys distinct.
  pub insert-IsDistinct :
      (k : Text) (v : Json F) (m : JsonMap F) → IsDistinct m → IsDistinct (insert k v m).0
  unfolding insert
  insert-IsDistinct k v no_entries h = (tt, tt)
  insert-IsDistinct k v (entry j w m) (hj, hm) =
      ground
        (arith, insert-IsDistinct k v m hm, insert-Lacks k j v m, text_eq_iff j k, text_eq_iff k j)

  -- A new key is put behind the others; a known one keeps its place.
  pub keys-insert :
      (k : Text) (v : Json F) (m : JsonMap F)
      → keys (insert k v m).0 ≡ (if contains_key k m then keys m else keys m ++ k ∷ [])
  unfolding keys insert contains_key
  keys-insert k v no_entries = refl
  keys-insert k v (entry j w m) = ground (arith, keys-insert k v m, text_eq_iff j k)

  get_of_Lacks : (k : Text) (m : JsonMap F) → Lacks k m → get k m ≡ none
  unfolding get
  get_of_Lacks k no_entries h = refl
  get_of_Lacks k (entry j w m) (e, h) = rw e (get_of_Lacks k m h)

  -- In a map that repeats no key, a removed key is gone, no other key changes, and the value that
  -- was there is returned.
  pub get-remove :
      (k j : Text) (m : JsonMap F)
      → IsDistinct m
      → (get j (remove k m).0 ≡ (if text_eq k j then none else get j m))
        × ((remove k m).1 ≡ get k m)
  unfolding get remove
  get-remove k j no_entries d = ground arith
  get-remove k j (entry i w m) (l, d) = ground (
    arith,
    get-remove k j m d,
    get_of_Lacks i m l,
    text_eq_iff i k,
    text_eq_iff i j,
    text_eq_iff k j,
  )

  -- Inserting a key that is not there puts the entry at the end.
  unfoldable pub append_entry : JsonMap F → Text → Json F → JsonMap F
  append_entry no_entries k v = entry k v no_entries
  append_entry (entry j w m) k v = entry j w (append_entry m k v)

  pub insert-fresh :
      (k : Text) (v : Json F) (m : JsonMap F) → Lacks k m → (insert k v m).0 ≡ append_entry m k v
  unfolding insert append_entry
  insert-fresh k v no_entries h = refl
  insert-fresh k v (entry j w m) (e, h) = rw e (rw (insert-fresh k v m h))
