-- ===== src/Music/TimeMap/Grids/Beats.antt =====
-- `beat_grid` of crates/music-domain/src/time.rs answers, with positions in its range.
use reapermcp.Prelude.Int.{ℤ, ◌+ℤ◌, pos, ltb_ℤ}
use reapermcp.Prelude.{
  Option, List, ◌≡◌, Bool-cases, ℕ, ◌∷◌, some, inl, [], inr, suc, zero, refl, Ordering, ap, true,
  false, ◌&&◌,
}
use reapermcp.Music.BeatTime.Canonical.{IsCanonical}
use reapermcp.Music.TimeMap.Grids.Answers.{
  AllWithin, bar_start-answers, add-IsCanonical, bar_of-answers,
}
use reapermcp.Music.TimeMap.Order.{◌≼◌, ◌≺◌, lt-le_trans, le_self}
use reapermcp.Music.TimeMap.Grids.{
  kept, open_bar, walk, enter_bar, until, beat_grid, max_grid_steps,
}
use reapermcp.Music.TimeMap.Sources.{Any, IsBroken}
use reapermcp.Music.TimeMap.{gt_time, MeterEvent, to_i64}
use reapermcp.Music.BeatTime.{BeatTime, min_time, add, cmp}

module _ (start end : BeatTime) (ce : IsCanonical end) where
  -- A limit of the inner loop: what is before it is before the end.
  record IsLimit (limit : BeatTime) : Type 0 where
    canonical : IsCanonical limit
    reaches : limit ≼ end

  min_time-IsLimit : (next : BeatTime) → IsCanonical next → IsLimit (min_time next end)
  unfolding min_time gt_time
  min_time-IsLimit next cn = chosen (cmp next end) refl
    where
      chosen : (o : Ordering) → cmp next end ≡ o → IsLimit (elim o [ Ordering.gt ↦ end | _ ↦ next ])
      chosen Ordering.gt e = record { canonical = ce; reaches = le_self end }
      chosen Ordering.lt e = record {
        canonical = cn;
        reaches = ap (λ o. elim o [ Ordering.gt ↦ true | _ ↦ false ]) e;
      }
      chosen Ordering.eq e = record {
        canonical = cn;
        reaches = ap (λ o. elim o [ Ordering.gt ↦ true | _ ↦ false ]) e;
      }

  Answers : Option (List BeatTime) → Type 0
  Answers o = (out : List BeatTime) × (o ≡ some out) × AllWithin start end out

  kept-AllWithin :
      (p : BeatTime) (rest : List BeatTime)
      → p ≺ end
      → AllWithin start end rest
      → AllWithin start end (kept start p rest)
  unfolding kept
  kept-AllWithin p rest h k = elim (Bool-cases (gt_time start p)) [
    | inl early ↦ rw early k
    | inr fine ↦ rw fine (fine, h, k)
  ]

  module _ (grid : ℤ → ℤ → ℤ) (m : MeterEvent) (l : List MeterEvent)
      (whole_bars : ¬ Any IsBroken (m ∷ l)) (beats : BeatTime) where
    open_bar-Answers :
        (steps : ℤ → BeatTime → BeatTime → Option (List BeatTime)) (bar : ℤ)
        → ((b : ℤ) (limit p : BeatTime) → IsLimit limit → IsCanonical p → Answers (steps b limit p))
        → Answers (open_bar grid (m ∷ l) start end beats steps bar)
    unfolding open_bar enter_bar until Answers
    open_bar-Answers steps bar step =
        let (p, e, cp) = bar_start-answers grid m l whole_bars bar in
        let (next, e', cn) = bar_start-answers grid m l whole_bars (to_i64 (bar +ℤ pos 1)) in
        elim (Bool-cases (gt_time end p)) [
          | inr past ↦ ([], rw (open_bar, e, enter_bar, past) refl, tt)
          | inl fine ↦ elim (Bool-cases (gt_time next p)) [
            | inr stuck ↦ ([], rw (open_bar, e, enter_bar, fine, e', until, stuck) refl, tt)
            | inl more ↦
                let (out, e'', r) = step bar (min_time next end) p (min_time-IsLimit next cn) cp in
                (out, rw (open_bar, e, enter_bar, fine, e', until, more) e'', r)
          ]
        ]

    walk-Answers :
        (n : ℕ) (bar : ℤ) (limit p : BeatTime)
        → IsLimit limit
        → IsCanonical p
        → Answers (walk grid (m ∷ l) start end beats n bar limit p)
    unfolding walk Answers
    walk-Answers zero bar limit p h cp = ([], refl, tt)
    walk-Answers (suc n) bar limit p h cp = elim (Bool-cases (gt_time limit p)) [
      | inr past ↦
          let (out, e, r) =
            open_bar-Answers (walk grid (m ∷ l) start end beats n) (to_i64 (bar +ℤ pos 1))
              (walk-Answers n) in
          (out, rw (walk, past) e, r)
      | inl fine ↦
          let (rest, e, r) =
            walk-Answers n bar limit (add grid p beats) h (add-IsCanonical grid p beats) in
          (
            kept start p rest,
            rw (walk, fine, e) refl,
            kept-AllWithin p rest (lt-le_trans p limit cp h.canonical end ce fine h.reaches) r,
          )
    ]

    -- `beat_grid` answers for every map with a meter event, no meter event of which has the
    -- denominator zero, every range with a canonical end and every spacing, within its bound on
    -- steps, and gives positions from `start` on and before `end`.
    pub beat_grid-AllWithin :
        (out : List BeatTime) × (beat_grid grid (m ∷ l) start end beats ≡ some out)
        × AllWithin start end out
    unfolding beat_grid Answers
    beat_grid-AllWithin = elim (Bool-cases (gt_time end start && ltb_ℤ (pos 0) beats.num)) [
      | inr empty ↦ ([], rw (beat_grid, empty) refl, tt)
      | inl fine ↦
          let steps = walk grid (m ∷ l) start end beats max_grid_steps in
          let (bar, e) = bar_of-answers grid m l whole_bars start in
          let (out, e', r) = open_bar-Answers steps bar (walk-Answers max_grid_steps) in
          (out, rw (beat_grid, fine) (rw e e'), r)
    ]
