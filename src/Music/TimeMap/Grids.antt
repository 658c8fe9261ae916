-- ===== src/Music/TimeMap/Grids.antt =====
-- `TimeMap::bar_grid` and `beat_grid` of crates/music-domain/src/time.rs; the range over the
-- bars is taken at most `max_grid_steps` times, which is the bound of the source.
use reapermcp.Prelude.Int.{ℤ, ◌+ℤ◌, pos, ltb_ℤ}
use reapermcp.Prelude.{true, false, ℕ, List, Option, if◌then◌else◌, some, ◌∷◌, [], suc, zero, ◌&&◌}
pub mod Answers
pub mod Beats
use reapermcp.Music.TimeMap.{
  gt_time, index_from, bar_of, bar_start, meter_event, bar_event, MeterEvent, to_i64,
}
use reapermcp.Music.BeatTime.{BeatTime, min_time, add}
use reapermcp.Prelude.Options.{◌>>=◌}

abbrev pub max_grid_steps : ℕ
max_grid_steps = 1000000

-- `out.push(p)`, if `p >= start`.
pub kept : BeatTime → BeatTime → List BeatTime → List BeatTime
kept start p rest = if gt_time start p then rest else p ∷ rest

module _ (grid : ℤ → ℤ → ℤ) (meters : List MeterEvent) (start end : BeatTime) where
  -- The end of a round, behind the look at the next bar; `loop` is the next round.
  pub advance : (ℤ → Option (List BeatTime)) → ℤ → BeatTime → BeatTime → Option (List BeatTime)
  advance loop bar p next =
      elim (gt_time next p) [ false ↦ some [] | true ↦ loop (to_i64 (bar +ℤ pos 1)) ] >>= λ rest.
      some (kept start p rest)

  pub visit : (ℤ → Option (List BeatTime)) → ℤ → BeatTime → Option (List BeatTime)
  visit loop bar p = elim (gt_time end p) [
    | false ↦ some []
    | true ↦ bar_start grid meters (to_i64 (bar +ℤ pos 1)) >>= advance loop bar p
  ]

  -- The rounds of the loop, from `bar` on.
  pub bars_from : ℕ → ℤ → Option (List BeatTime)
  bars_from zero bar = some []
  bars_from (suc n) bar = bar_start grid meters bar >>= visit (bars_from n) bar

  pub bar_grid : Option (List BeatTime)
  bar_grid = elim (gt_time end start) [
    | false ↦ some []
    | true ↦ do bar ← bar_of grid meters start; bars_from max_grid_steps bar
  ]

  module _ (beats : BeatTime) where
    -- A round of the outer loop: the bar, the next one, and the limit of the inner loop `steps`.
    pub until :
        (ℤ → BeatTime → BeatTime → Option (List BeatTime))
        → ℤ
        → BeatTime
        → BeatTime
        → Option (List BeatTime)
    until steps bar p next = elim (gt_time next p) [
      | false ↦ some []
      | true ↦ steps bar (min_time next end) p
    ]

    pub enter_bar :
        (ℤ → BeatTime → BeatTime → Option (List BeatTime)) → ℤ → BeatTime → Option (List BeatTime)
    enter_bar steps bar p = elim (gt_time end p) [
      | false ↦ some []
      | true ↦ bar_start grid meters (to_i64 (bar +ℤ pos 1)) >>= until steps bar p
    ]

    pub open_bar : (ℤ → BeatTime → BeatTime → Option (List BeatTime)) → ℤ → Option (List BeatTime)
    open_bar steps bar = bar_start grid meters bar >>= enter_bar steps bar

    -- The inner loop at `p`, and the outer loop behind it, with the number of steps that are left.
    pub walk : ℕ → ℤ → BeatTime → BeatTime → Option (List BeatTime)
    walk zero bar limit p = some []
    walk (suc n) bar limit p = elim (gt_time limit p) [
      | false ↦ open_bar (walk n) (to_i64 (bar +ℤ pos 1))
      | true ↦ walk n bar limit (add grid p beats) >>= λ rest. some (kept start p rest)
    ]

    pub beat_grid : Option (List BeatTime)
    beat_grid = elim (gt_time end start && ltb_ℤ (pos 0) beats.num) [
      | false ↦ some []
      | true ↦ bar_of grid meters start >>= open_bar (walk max_grid_steps)
    ]
