-- ===== src/Store/Live.antt =====
-- The sweep of crates/reaper-music-mcp/src/store.rs keeps the entries that have not expired.
use reapermcp.Qjson.Json.Map.{text_eq_iff}
use reapermcp.Qjson.Json.{text_eq}
use reapermcp.Store.Values.{AllValues}
use reapermcp.Store.Ordered.{lookup, delete, IsAbsent, IsUnique, lookup-IsAbsent}
use reapermcp.Store.{remove_all, ids_where, Entry, sweep, live_entry, Bucket, is_live}
use reapermcp.Qjson.Utf8.{Text}
use reapermcp.Prelude.Int.{ℤ}
use reapermcp.Prelude.{
  ◌≡◌, List, Bool, ◌∷◌, length, arith, not, ◌≤◌, Bool-cases, if◌then◌else◌, ◌+◌, [], false, none,
  refl, inl, ◌∙◌, inr, ap, sym,
}

abbrev IsNoneOf : Text → List Text → Type 0
IsNoneOf j [] = Unit
IsNoneOf j (k ∷ ks) = (text_eq j k ≡ false) × IsNoneOf j ks

module _ {V : Type 0} where
  abbrev pub live : ℤ → List (Text × Entry V) → List (Text × Entry V)
  live now [] = []
  live now ((j, e) ∷ l) = let rest = live now l in if is_live now e then (j, e) ∷ rest else rest

  remove_all-other :
      (j : Text) (e : Entry V) (ks : List Text) (l : List (Text × Entry V))
      → IsNoneOf j ks
      → remove_all ks ((j, e) ∷ l) ≡ (j, e) ∷ remove_all ks l
  unfolding remove_all delete
  remove_all-other j e [] l h = refl
  remove_all-other j e (k ∷ ks) l (n, h) = rw n (remove_all-other j e ks (delete k l) h)

  IsNoneOf-ids_where :
      (j : Text) (test : Entry V → Bool) (l : List (Text × Entry V))
      → IsAbsent j l
      → IsNoneOf j (ids_where test l)
  unfolding ids_where
  IsNoneOf-ids_where j test [] h = tt
  IsNoneOf-ids_where j test ((i, e) ∷ l) (n, h) =
      ground (arith, IsNoneOf-ids_where j test l h, text_eq_iff i j, text_eq_iff j i)

  swept-live :
      (now : ℤ) (l : List (Text × Entry V))
      → IsUnique l
      → remove_all (ids_where (λ e. not (is_live now e)) l) l ≡ live now l
  unfolding ids_where remove_all delete
  swept-live now [] u = refl
  swept-live now ((j, e) ∷ l) (a, u) = elim (Bool-cases (is_live now e)) [
    | inl t ↦ rw t (
        remove_all-other j e _ l (IsNoneOf-ids_where j (λ e. not (is_live now e)) l a)
        ∙ ap (λ l. (j, e) ∷ l) (swept-live now l u))
    | inr t ↦ rw t (rw ((text_eq_iff j j).1 refl) (swept-live now l u))
  ]

  pub IsAbsent-live :
      (j : Text) (now : ℤ) (l : List (Text × Entry V)) → IsAbsent j l → IsAbsent j (live now l)
  IsAbsent-live j now [] h = tt
  IsAbsent-live j now ((i, e) ∷ l) (n, h) = ground (arith, IsAbsent-live j now l h)

  pub IsUnique-live : (now : ℤ) (l : List (Text × Entry V)) → IsUnique l → IsUnique (live now l)
  IsUnique-live now [] u = tt
  IsUnique-live now ((i, e) ∷ l) (a, u) =
      ground (arith, IsUnique-live now l u, IsAbsent-live i now l a)

  pub length-live : (now : ℤ) (l : List (Text × Entry V)) → length (live now l) ≤ length l
  length-live now [] = omega arith
  length-live now ((i, e) ∷ l) = ground (arith, length-live now l)

  pub AllValues-live :
      (P : Entry V → Type 0) (now : ℤ) (l : List (Text × Entry V))
      → AllValues P l
      → AllValues P (live now l)
  AllValues-live P now [] h = tt
  AllValues-live P now ((i, e) ∷ l) (he, h) = elim (Bool-cases (is_live now e)) [
    | inl t ↦ rw t (he, AllValues-live P now l h)
    | inr t ↦ rw t (AllValues-live P now l h)
  ]

  pub lookup-live :
      (j : Text) (now : ℤ) (l : List (Text × Entry V))
      → IsUnique l
      → lookup j (live now l) ≡ (if live_entry now (lookup j l) then lookup j l else none)
  unfolding lookup live_entry
  lookup-live j now [] u = refl
  lookup-live j now ((i, e) ∷ l) (a, u) = elim (Bool-cases (text_eq i j)) [
    | inl t ↦ elim (Bool-cases (is_live now e)) [
      | inl h ↦ rw h (rw t (rw h refl))
      | inr h ↦ rw h (
          rw t (
            rw h (
              ap (λ k. lookup k (live now l)) (sym ((text_eq_iff i j).0 t))
              ∙ lookup-IsAbsent i (live now l) (IsAbsent-live i now l a))))
    ]
    | inr t ↦ elim (Bool-cases (is_live now e)) [
      | inl h ↦ rw h (rw t (lookup-live j now l u))
      | inr h ↦ rw h (rw t (lookup-live j now l u))
    ]
  ]

  -- With distinct ids, a sweep keeps exactly the entries that are live, and counts the others.
  pub sweep-live :
      (now : ℤ) (b : Bucket V)
      → IsUnique b.entries
      → ((sweep now b).0.entries ≡ live now b.entries)
        × ((sweep now b).1 + length (live now b.entries) ≡ length b.entries)
  unfolding sweep ids_where
  sweep-live now b u = (swept-live now b.entries u, counted b.entries)
    where
      counted :
          (l : List (Text × Entry V))
          → length (ids_where (λ e. not (is_live now e)) l) + length (live now l) ≡ length l
      counted [] = omega arith
      counted ((i, e) ∷ l) = ground (arith, counted l)
