-- ===== src/Music/TimeMap/Ordered.antt =====
-- The event lists of the maps that `TimeMap::new` of crates/music-domain/src/time.rs builds.
use reapermcp.Music.BeatTime.Value.{time_eq}
use reapermcp.Music.BeatTime.Canonical.{IsCanonical, whole-IsCanonical}
use reapermcp.Prelude.Int.{pos, eqb_ℤ-eq}
use reapermcp.Prelude.{
  List, ◌≡◌, ◌∷◌, ◌⊎◌, true, Bool-cases, inl, [], inr, ◌∙◌, and_parts, subst, sym, arith,
}
use reapermcp.Music.TimeMap.Ascending.{AllAfter-weaken, AllCanonical, AllAfter, Ascending}
use reapermcp.Music.TimeMap.Order.{◌≼◌, le_self}
use reapermcp.Music.TimeMap.{
  gt_time, same_time, insert_by_key, sort_by_key, dedup_from, dedup, anchored,
}
use reapermcp.Music.BeatTime.{BeatTime, whole}

pub zero-IsCanonical : IsCanonical (whole (pos 0))
zero-IsCanonical = whole-IsCanonical (pos 0) (omega arith)

module _ {A : Type 0} (key : A → BeatTime) where
  -- The list begins at position zero or before it.
  abbrev pub Starts : List A → Type 0
  Starts [] = ⊥
  Starts (x ∷ l) = key x ≼ whole (pos 0)

  -- Some event stands at the position.
  abbrev pub At : BeatTime → List A → Type 0
  At t [] = ⊥
  At t (x ∷ l) = (key x ≡ t) ⊎ At t l

  pub record IsTimeline (l : List A) : Type 0 where
    pub ascending : Ascending key l
    pub canonical : AllCanonical key l
    pub starts : Starts l

  insert_by_key-At :
      (t : BeatTime) (e : A) (l : List A) → (key e ≡ t) ⊎ At t l → At t (insert_by_key key e l)
  unfolding insert_by_key
  insert_by_key-At t e [] h = h
  insert_by_key-At t e (x ∷ l) h = elim (Bool-cases (gt_time (key e) (key x))) [
    | inl later ↦ rw later (elim h [
      | inl new ↦ inr (insert_by_key-At t e l (inl new))
      | inr (inl here) ↦ inl here
      | inr (inr there) ↦ inr (insert_by_key-At t e l (inr there))
    ])
    | inr before ↦ rw before h
  ]

  pub sort_by_key-At : (t : BeatTime) (l : List A) → At t l → At t (sort_by_key key l)
  unfolding sort_by_key
  sort_by_key-At t [] h = absurd h
  sort_by_key-At t (x ∷ l) (inl here) = insert_by_key-At t x (sort_by_key key l) (inl here)
  sort_by_key-At t (x ∷ l) (inr there) =
      insert_by_key-At t x (sort_by_key key l) (inr (sort_by_key-At t l there))

  same_time-eq : (x y : BeatTime) → same_time x y ≡ true → x ≡ y
  unfolding same_time
  same_time-eq x y h =
      let (p, q) = and_parts _ _ h in time_eq x y (eqb_ℤ-eq x.num y.num p) (eqb_ℤ-eq x.den y.den q)

  dedup_from-At :
      (t : BeatTime) (last : A) (l : List A)
      → (key last ≡ t) ⊎ At t l
      → (key last ≡ t) ⊎ At t (dedup_from key last l)
  unfolding dedup_from
  dedup_from-At t last [] h = h
  dedup_from-At t last (x ∷ l) h = elim (Bool-cases (same_time (key last) (key x))) [
    | inl same ↦ rw same (
        dedup_from-At t last l (elim h [
          | inl last ↦ inl last
          | inr (inl here) ↦ inl (same_time-eq (key last) (key x) same ∙ here)
          | inr (inr there) ↦ inr there
        ]))
    | inr other ↦
        rw other (elim h [ inl last ↦ inl last | inr more ↦ inr (dedup_from-At t x l more) ])
  ]

  pub dedup-At : (t : BeatTime) (l : List A) → At t l → At t (dedup key l)
  unfolding dedup
  dedup-At t [] h = absurd h
  dedup-At t (x ∷ l) h = dedup_from-At t x l h

  module _ (default : A) (first : A → A) (zero_default : key default ≡ whole (pos 0))
      (zero_first : (x : A) → key (first x) ≡ whole (pos 0)) where
    pub anchored-IsTimeline :
        (l : List A)
        → Ascending key l
        → AllCanonical key l
        → IsTimeline (anchored key default first l)
    unfolding anchored
    anchored-IsTimeline [] a c = record {
      ascending = (tt, tt);
      canonical = (subst IsCanonical (sym zero_default) zero-IsCanonical, tt);
      starts = subst (λ z. z ≼ whole (pos 0)) (sym zero_default) (le_self (whole (pos 0)));
    }
    anchored-IsTimeline (x ∷ l) (a, as') (cx, c) =
        elim (Bool-cases (gt_time (key x) (whole (pos 0)))) [
          | inl late ↦ rw late (record {
            ascending = (
              subst (λ z. AllAfter key z (x ∷ l)) (sym (zero_first x))
                  (
                    late,
                    AllAfter-weaken key (whole (pos 0)) (key x) zero-IsCanonical cx l c late a,
                  ),
              (a, as'),
            );
            canonical = (subst IsCanonical (sym (zero_first x)) zero-IsCanonical, (cx, c));
            starts = subst (λ z. z ≼ whole (pos 0)) (sym (zero_first x)) (le_self (whole (pos 0)));
          })
          | inr fine ↦ rw fine (record { ascending = (a, as'); canonical = (cx, c); starts = fine })
        ]

    pub anchored-At : (t : BeatTime) (l : List A) → At t l → At t (anchored key default first l)
    unfolding anchored
    anchored-At t [] h = absurd h
    anchored-At t (x ∷ l) h = elim (Bool-cases (gt_time (key x) (whole (pos 0)))) [
      | inl late ↦ rw late (inr h)
      | inr fine ↦ rw fine h
    ]
