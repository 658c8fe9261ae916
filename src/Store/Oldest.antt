-- ===== src/Store/Oldest.antt =====
-- The eviction of crates/reaper-music-mcp/src/store.rs takes out an entry of the smallest sequence.
use reapermcp.Qjson.Json.{text_eq}
use reapermcp.Qjson.Json.Map.{text_eq_iff}
use reapermcp.Store.Values.{AllValues}
use reapermcp.Store.{oldest_from, oldest, Entry}
use reapermcp.Store.Ordered.{lookup, IsAbsent, IsUnique, lookup-IsAbsent}
use reapermcp.Qjson.Utf8.{Text}
use reapermcp.Prelude.{
  ℕ, ◌≡◌, [], ◌∷◌, List, ◌⊎◌, some, ◌≤◌, none, inl, arith, Bool-cases, length, refl, sym, ltb, inr,
  ◌∙◌, subst,
}

module _ {V : Type 0} where
  -- No entry has a smaller sequence.
  abbrev pub AtLeast : ℕ → List (Text × Entry V) → Type 0
  AtLeast s l = AllValues (λ e. s ≤ e.sequence) l

  -- The key that the scan of `l` returns when the best so far is `k` with `s`: it is `k`, or that of
  -- an entry of `l`.
  abbrev Scan : Text → ℕ → List (Text × Entry V) → Text → Type 0
  Scan k s l r =
      ((r ≡ k) × AtLeast s l)
      ⊎ ((e : Entry V) × (lookup r l ≡ some e) × (e.sequence ≤ s) × AtLeast e.sequence l)

  lookup-head :
      (j : Text) (e : Entry V) (l : List (Text × Entry V)) → lookup j ((j, e) ∷ l) ≡ some e
  unfolding lookup
  lookup-head j e l = rw ((text_eq_iff j j).1 refl) refl

  lookup-tail :
      (r j : Text) (e f : Entry V) (l : List (Text × Entry V))
      → IsAbsent j l
      → lookup r l ≡ some f
      → lookup r ((j, e) ∷ l) ≡ some f
  unfolding lookup
  lookup-tail r j e f l a h = elim (Bool-cases (text_eq j r)) [
    | inl t ↦
        absurd (
          none_some
            (subst (λ k. lookup k l ≡ none) ((text_eq_iff j r).0 t) (lookup-IsAbsent j l a)))
    | inr t ↦ rw t h
  ]
    where
      none_some : lookup r l ≡ none → ⊥
      none_some n = ground (arith, sym n ∙ h)

  Scan-oldest_from :
      (k : Text) (s : ℕ) (l : List (Text × Entry V)) → IsUnique l → Scan k s l (oldest_from k s l)
  unfolding oldest_from
  Scan-oldest_from k s [] u = inl (refl, tt)
  Scan-oldest_from k s ((j, e) ∷ l) (a, u) = elim (Bool-cases (ltb e.sequence s)) [
    | inl t ↦ rw t (elim (Scan-oldest_from j e.sequence l u) [
      | inl (r, m) ↦ inr (e, rw r (lookup-head j e l), ground arith, (omega arith, m))
      | inr (f, h, le, m) ↦ inr (f, lookup-tail _ j e f l a h, ground arith, (le, m))
    ])
    | inr t ↦ rw t (elim (Scan-oldest_from k s l u) [
      | inl (r, m) ↦ inl (r, (ground arith, m))
      | inr (f, h, le, m) ↦ inr (f, lookup-tail _ j e f l a h, le, (ground arith, m))
    ])
  ]

  -- In a map with distinct ids that is not empty, eviction finds an entry whose sequence is the
  -- smallest.
  pub oldest-AtLeast :
      (l : List (Text × Entry V))
      → IsUnique l
      → 1 ≤ length l
      → (k : Text) × (e : Entry V) × (oldest l ≡ some k)
        × (lookup k l ≡ some e)
        × AtLeast e.sequence l
  unfolding oldest
  oldest-AtLeast [] u h = absurd (omega arith)
  oldest-AtLeast ((j, e) ∷ l) (a, u) h = elim (Scan-oldest_from j e.sequence l u) [
    | inl (r, m) ↦ (_, e, refl, rw r (lookup-head j e l), (omega arith, m))
    | inr (f, h, le, m) ↦ (_, f, refl, lookup-tail _ j e f l a h, (le, m))
  ]
