-- ===== src/Music/TimeMap/Ascending.antt =====
-- The sort and the removal of equal positions in `TimeMap::new` of
-- crates/music-domain/src/time.rs give a strictly ascending list.
use reapermcp.Music.BeatTime.Canonical.{IsCanonical}
use reapermcp.Prelude.{List, ◌∷◌, Bool-cases, [], inl, inr}
use reapermcp.Music.TimeMap.Order.{◌≼◌, ◌≺◌, lt-le, apart, lt_trans, le_trans}
use reapermcp.Music.TimeMap.{gt_time, same_time, insert_by_key, sort_by_key, dedup_from, dedup}
use reapermcp.Music.BeatTime.{BeatTime}

module _ {A : Type 0} (key : A → BeatTime) where
  abbrev pub AllCanonical : List A → Type 0
  AllCanonical [] = Unit
  AllCanonical (x ∷ l) = IsCanonical (key x) × AllCanonical l

  -- Every event of the list is at `t` or behind it, and behind it.
  abbrev pub AllFrom : BeatTime → List A → Type 0
  AllFrom t [] = Unit
  AllFrom t (x ∷ l) = (t ≼ key x) × AllFrom t l

  abbrev pub AllAfter : BeatTime → List A → Type 0
  AllAfter t [] = Unit
  AllAfter t (x ∷ l) = (t ≺ key x) × AllAfter t l

  abbrev Sorted : List A → Type 0
  Sorted [] = Unit
  Sorted (x ∷ l) = AllFrom (key x) l × Sorted l

  -- Every event is before all the later ones.
  abbrev pub Ascending : List A → Type 0
  Ascending [] = Unit
  Ascending (x ∷ l) = AllAfter (key x) l × Ascending l

  module _ (s t : BeatTime) (hs : IsCanonical s) (ht : IsCanonical t) where
    AllFrom-weaken : (l : List A) → AllCanonical l → s ≼ t → AllFrom t l → AllFrom s l
    AllFrom-weaken [] c h k = tt
    AllFrom-weaken (x ∷ l) (cx, c) h (k, ks) =
        (le_trans s t hs ht (key x) cx h k, AllFrom-weaken l c h ks)

    pub AllAfter-weaken : (l : List A) → AllCanonical l → s ≺ t → AllAfter t l → AllAfter s l
    AllAfter-weaken [] c h k = tt
    AllAfter-weaken (x ∷ l) (cx, c) h (k, ks) =
        (lt_trans s t hs ht (key x) cx h k, AllAfter-weaken l c h ks)

  insert_by_key-AllCanonical :
      (e : A) (l : List A)
      → IsCanonical (key e)
      → AllCanonical l
      → AllCanonical (insert_by_key key e l)
  unfolding insert_by_key
  insert_by_key-AllCanonical e [] ce c = (ce, tt)
  insert_by_key-AllCanonical e (x ∷ l) ce (cx, c) = elim (Bool-cases (gt_time (key e) (key x))) [
    | inl later ↦ rw later (cx, insert_by_key-AllCanonical e l ce c)
    | inr before ↦ rw before (ce, (cx, c))
  ]

  insert_by_key-AllFrom :
      (t : BeatTime) (e : A) (l : List A)
      → t ≼ key e
      → AllFrom t l
      → AllFrom t (insert_by_key key e l)
  unfolding insert_by_key
  insert_by_key-AllFrom t e [] h k = (h, tt)
  insert_by_key-AllFrom t e (x ∷ l) h (k, ks) = elim (Bool-cases (gt_time (key e) (key x))) [
    | inl later ↦ rw later (k, insert_by_key-AllFrom t e l h ks)
    | inr before ↦ rw before (h, (k, ks))
  ]

  insert_by_key-Sorted :
      (e : A) (l : List A)
      → IsCanonical (key e)
      → AllCanonical l
      → Sorted l
      → Sorted (insert_by_key key e l)
  unfolding insert_by_key
  insert_by_key-Sorted e [] ce c h = (tt, tt)
  insert_by_key-Sorted e (x ∷ l) ce (cx, c) (h, hs) = elim (Bool-cases (gt_time (key e) (key x))) [
    | inl later ↦ rw later (
      insert_by_key-AllFrom (key x) e l (lt-le (key x) (key e) later) h,
      insert_by_key-Sorted e l ce c hs,
    )
    | inr before ↦ rw before ((before, AllFrom-weaken (key e) (key x) ce cx l c before h), (h, hs))
  ]

  sort_by_key-AllCanonical : (l : List A) → AllCanonical l → AllCanonical (sort_by_key key l)
  unfolding sort_by_key
  sort_by_key-AllCanonical [] c = tt
  sort_by_key-AllCanonical (x ∷ l) (cx, c) =
      insert_by_key-AllCanonical x (sort_by_key key l) cx (sort_by_key-AllCanonical l c)

  sort_by_key-Sorted : (l : List A) → AllCanonical l → Sorted (sort_by_key key l)
  unfolding sort_by_key
  sort_by_key-Sorted [] c = tt
  sort_by_key-Sorted (x ∷ l) (cx, c) =
      insert_by_key-Sorted x (sort_by_key key l) cx (sort_by_key-AllCanonical l c)
        (sort_by_key-Sorted l c)

  -- What is left is behind the event that was kept last.
  dedup_from-Ascending :
      (last : A) (l : List A)
      → IsCanonical (key last)
      → AllCanonical l
      → AllFrom (key last) l
      → Sorted l
      → AllAfter (key last) (dedup_from key last l)
        × Ascending (dedup_from key last l)
        × AllCanonical (dedup_from key last l)
  unfolding dedup_from
  dedup_from-Ascending last [] cl c k h = (tt, tt, tt)
  dedup_from-Ascending last (x ∷ l) cl (cx, c) (k, ks) (h, hs) =
      elim (Bool-cases (same_time (key last) (key x))) [
        | inl same ↦ rw same (dedup_from-Ascending last l cl c ks hs)
        | inr other ↦
            let less = apart (key last) (key x) cl cx k other in
            let (after, up, fine) = dedup_from-Ascending x l cx c h hs in
            rw other (
              (less, AllAfter-weaken (key last) (key x) cl cx (dedup_from key x l) fine less after),
              (after, up),
              (cx, fine),
            )
      ]

  dedup-Ascending :
      (l : List A)
      → AllCanonical l
      → Sorted l
      → Ascending (dedup key l) × AllCanonical (dedup key l)
  unfolding dedup
  dedup-Ascending [] c h = (tt, tt)
  dedup-Ascending (x ∷ l) (cx, c) (h, hs) =
      let (after, up, fine) = dedup_from-Ascending x l cx c h hs in ((after, up), (cx, fine))

  -- The events sorted, with one for each position.
  pub sorted-Ascending :
      (l : List A)
      → AllCanonical l
      → Ascending (dedup key (sort_by_key key l)) × AllCanonical (dedup key (sort_by_key key l))
  sorted-Ascending l c =
      dedup-Ascending (sort_by_key key l) (sort_by_key-AllCanonical l c) (sort_by_key-Sorted l c)
