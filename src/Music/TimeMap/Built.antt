-- ===== src/Music/TimeMap/Built.antt =====
-- `TimeMap::new` of crates/music-domain/src/time.rs builds two timelines.
use reapermcp.Prelude.Options.{◌>>=◌}
use reapermcp.Music.TimeMap.Sources.{
  SamePlaces, Any, IsBroken, IsSame, new_meters-answers, placed, placed-IsSame, SamePlaces-IsSame,
}
use mathlib.Core.Option.{some-injective}
use reapermcp.Music.BeatTime.Canonical.{IsCanonical}
use reapermcp.Music.TimeMap.Order.{◌≺◌, ◌≼◌}
use reapermcp.Prelude.Int.{ℤ, pos}
use reapermcp.Prelude.{
  List, Bool, ◌≡◌, ◌∷◌, map, inl, subst, refl, [], sym, ◌∙◌, inr, some, ◌⊎◌, ap,
}
use reapermcp.Music.TimeMap.Ascending.{AllCanonical, AllAfter, Ascending, sorted-Ascending}
use reapermcp.Music.TimeMap.Ordered.{
  IsTimeline, At, anchored-IsTimeline, anchored-At, sort_by_key-At, dedup-At,
}
use reapermcp.Music.TimeMap.{
  TempoEvent, time_map, new_tempos, repaired, tempo_qn, meter_qn, MeterEvent, new_meters, anchored,
  dedup, sort_by_key, TimeSignature, TimeMap, meter_at_zero, common_time,
}
use reapermcp.Music.BeatTime.{BeatTime, whole}

module _ {A : Type 0} (key : A → BeatTime) where
  -- The two lists have the same positions.
  abbrev SameKeys : List A → List A → Type 0
  SameKeys [] [] = Unit
  SameKeys (x ∷ l) (y ∷ m) = (key x ≡ key y) × SameKeys l m
  SameKeys _ _ = ⊥

  AllAfter-SameKeys :
      (t : BeatTime) (l m : List A) → SameKeys l m → AllAfter key t l → AllAfter key t m
  AllAfter-SameKeys t [] [] e h = tt
  AllAfter-SameKeys t [] (y ∷ m) e h = absurd e
  AllAfter-SameKeys t (x ∷ l) [] e h = absurd e
  AllAfter-SameKeys t (x ∷ l) (y ∷ m) (e, es) (h, hs) =
      (subst (λ s. t ≺ s) e h, AllAfter-SameKeys t l m es hs)

  Ascending-SameKeys : (l m : List A) → SameKeys l m → Ascending key l → Ascending key m
  Ascending-SameKeys [] [] e h = tt
  Ascending-SameKeys [] (y ∷ m) e h = absurd e
  Ascending-SameKeys (x ∷ l) [] e h = absurd e
  Ascending-SameKeys (x ∷ l) (y ∷ m) (e, es) (h, hs) = (
    subst (λ s. AllAfter key s m) e (AllAfter-SameKeys (key x) l m es h),
    Ascending-SameKeys l m es hs,
  )

  AllCanonical-SameKeys : (l m : List A) → SameKeys l m → AllCanonical key l → AllCanonical key m
  AllCanonical-SameKeys [] [] e h = tt
  AllCanonical-SameKeys [] (y ∷ m) e h = absurd e
  AllCanonical-SameKeys (x ∷ l) [] e h = absurd e
  AllCanonical-SameKeys (x ∷ l) (y ∷ m) (e, es) (h, hs) =
      (subst IsCanonical e h, AllCanonical-SameKeys l m es hs)

  At-SameKeys : (t : BeatTime) (l m : List A) → SameKeys l m → At key t l → At key t m
  At-SameKeys t [] m e h = absurd h
  At-SameKeys t (x ∷ l) [] e h = absurd e
  At-SameKeys t (x ∷ l) (y ∷ m) (e, es) (inl here) = inl (sym e ∙ here)
  At-SameKeys t (x ∷ l) (y ∷ m) (e, es) (inr there) = inr (At-SameKeys t l m es there)

  IsTimeline-SameKeys : (l m : List A) → SameKeys l m → IsTimeline key l → IsTimeline key m
  IsTimeline-SameKeys [] m e h = absurd h.starts
  IsTimeline-SameKeys (x ∷ l) [] e h = absurd e
  IsTimeline-SameKeys (x ∷ l) (y ∷ m) e h = record {
    ascending = Ascending-SameKeys (x ∷ l) (y ∷ m) e h.ascending;
    canonical = AllCanonical-SameKeys (x ∷ l) (y ∷ m) e h.canonical;
    starts = subst (λ s. s ≼ whole (pos 0)) e.0 h.starts;
  }

  -- A timeline that has at least the positions of a list.
  abbrev Covers : List A → List A → Type 0
  Covers l m = IsTimeline key m × ((t : BeatTime) → At key t l → At key t m)

  Covers-SameKeys : (k l m : List A) → SameKeys l m → Covers k l → Covers k m
  Covers-SameKeys k l m e (h, all) =
      (IsTimeline-SameKeys l m e h, λ t here. At-SameKeys t l m e (all t here))

  -- The events sorted, without a second one at a position, and anchored.
  anchored-Covers :
      (default : A) (first : A → A)
      → key default ≡ whole (pos 0)
      → ((x : A) → key (first x) ≡ whole (pos 0))
      → (l : List A) → AllCanonical key l
      → Covers l (anchored key default first (dedup key (sort_by_key key l)))
  anchored-Covers default first e e' l c =
      let (up, fine) = sorted-Ascending key l c in
      (
        anchored-IsTimeline key default first e e' (dedup key (sort_by_key key l)) up fine,
        λ t here.
            anchored-At key default first e e' t (dedup key (sort_by_key key l))
              (dedup-At key t (sort_by_key key l) (sort_by_key-At key t l here)),
      )

SamePlaces-SameKeys : (l m : List MeterEvent) → SamePlaces l m → SameKeys meter_qn l m
SamePlaces-SameKeys [] [] e = tt
SamePlaces-SameKeys [] (y ∷ m) e = absurd e
SamePlaces-SameKeys (x ∷ l) [] e = absurd e
SamePlaces-SameKeys (x ∷ l) (y ∷ m) (p, q, e) = (p, SamePlaces-SameKeys l m e)

-- The meter events that are built at the positions of those given, each from one of them.
abbrev pub Numbered : (ℤ → ℤ → ℤ) → List MeterEvent → List MeterEvent → Type 0
Numbered grid l out =
    (new_meters grid l ≡ some out)
    × Covers meter_qn l out
    × ((t : BeatTime) (s : TimeSignature)
        → Any (IsSame t s) out
        → Any (IsSame t s) l ⊎ (t ≡ whole (pos 0)))

new_meters-Numbered :
    (grid : ℤ → ℤ → ℤ) (l : List MeterEvent)
    → AllCanonical meter_qn l
    → ¬ Any IsBroken l
    → (out : List MeterEvent) × Numbered grid l out
new_meters-Numbered grid l c fine =
    let (out, e, same) = new_meters-answers grid l fine in
    (
      out,
      (
        e,
        Covers-SameKeys meter_qn l (placed l) out (SamePlaces-SameKeys (placed l) out same) (
            anchored-Covers meter_qn (meter_at_zero common_time) (λ m. meter_at_zero m.sig) refl
              (λ m. refl) l c),
        λ t s here. placed-IsSame t s l (SamePlaces-IsSame t s (placed l) out same here),
      ),
    )

module _ {F : Type 0} (usual : F) (is_usable : F → Bool) where
  repaired-SameKeys :
      (l : List (TempoEvent F)) → SameKeys tempo_qn l (map (repaired usual is_usable) l)
  repaired-SameKeys [] = tt
  repaired-SameKeys (t ∷ l) = (refl, repaired-SameKeys l)

  new_tempos-Covers :
      (l : List (TempoEvent F))
      → AllCanonical tempo_qn l
      → Covers tempo_qn l (new_tempos usual is_usable l)
  unfolding new_tempos
  new_tempos-Covers l c =
      Covers-SameKeys tempo_qn l _ _ (repaired-SameKeys _)
        (anchored-Covers tempo_qn _ _ refl (λ t. refl) l c)

  module _ (grid : ℤ → ℤ → ℤ) (tempos : List (TempoEvent F)) (meters : List MeterEvent)
      (c : AllCanonical tempo_qn tempos) (c' : AllCanonical meter_qn meters)
      (fine : ¬ Any IsBroken meters) where
    -- From any tempo and meter events at canonical positions, no meter event of which has the
    -- denominator zero, a map is built. It has both lists strictly ascending, at canonical
    -- positions, and the first event of each stands at position zero or before it.
    pub time_map-IsTimeline :
        (built : TimeMap F) × (time_map usual is_usable grid tempos meters ≡ some built)
        × IsTimeline tempo_qn built.tempos
        × IsTimeline meter_qn built.meters
    unfolding time_map
    time_map-IsTimeline =
        let (out, (e, covers, places)) = new_meters-Numbered grid meters c' fine in
        (
          record { tempos = new_tempos usual is_usable tempos; meters = out },
          ap
              (λ o. o >>= λ numbered.
                some (record { tempos = new_tempos usual is_usable tempos; meters = numbered }))
              e,
          (new_tempos-Covers tempos c).0,
          covers.0,
        )

    -- The map has a meter event at every position at which one was given, and every one of them
    -- was given or stands at position zero.
    pub time_map-Numbered :
        (built : TimeMap F)
        → time_map usual is_usable grid tempos meters ≡ some built
        → Numbered grid meters built.meters
    unfolding time_map
    time_map-Numbered built h =
        let (out, (e, covers, places)) = new_meters-Numbered grid meters c' fine in
        subst (Numbered grid meters)
          (ap (λ b. b.meters)
            (some-injective _ _ (
              sym (
                ap
                  (λ o. o >>= λ numbered.
                    some (record { tempos = new_tempos usual is_usable tempos; meters = numbered }))
                  e)
              ∙ h)))
          (e, covers, places)
