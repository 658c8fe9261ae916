-- ===== src/Music/TimeMap/Tests.antt =====
-- The theorems on `TimeMap` of crates/music-domain/src/time.rs at concrete inputs.
use reapermcp.Music.TimeMap.Sources.{Any, IsSame, IsBroken}
use reapermcp.Prelude.Order.{lt_wf}
use reapermcp.Music.TimeMap.RoundTrip.{bar_of-bar_start}
use reapermcp.Music.TimeMap.Grids.Beats.{beat_grid-AllWithin}
use reapermcp.Music.TimeMap.Grids.Answers.{IsGrid, bar_grid-IsGrid, AllWithin}
use reapermcp.Music.TimeMap.Grids.{bar_grid, beat_grid}
use reapermcp.Music.BeatTime.Canonical.{IsCanonical, whole-IsCanonical}
use reapermcp.Music.TimeMap.Ascending.{AllCanonical}
use reapermcp.Prelude.{ℕ, List, Bool, arith, ltb, false, ◌≡◌, ◌∷◌, [], some, refl, ◌⊎◌, inl, inr}
use reapermcp.Prelude.Int.{ℤ, pos, ◌≤ℤ◌, ◌*ℤ◌, ◌+ℤ◌, ◌-ℤ◌, rem_euclid, ◌/ℤ◌, neg}
use reapermcp.Music.TimeMap.Built.{time_map-IsTimeline}
use reapermcp.Music.TimeMap.Lookup.{meter_event-time_map, NoneBetween}
use reapermcp.Music.TimeMap.Order.{◌≼◌}
use reapermcp.Music.TimeMap.Ordered.{IsTimeline}
use reapermcp.Music.TimeMap.{
  TempoEvent, MeterEvent, TimeMap, time_map, meter_event, meter_qn, tempo_qn, signature, gt_time,
  bar_start, bar_of, bar_event, index_from, bar_length_qn,
}
use reapermcp.Music.BeatTime.{
  whole, max_quarters, cmp, BeatTime, from_i128, normalise, to_i128, settle, reduce, gcd_i128,
  gcd_loop, try_new,
}

abbrev rough_grid : ℤ → ℤ → ℤ
rough_grid num den = num

abbrev is_tempo : ℕ → Bool
is_tempo b = ltb 0 b

abbrev tempo_events : List (TempoEvent ℕ)
tempo_events = record { qn = whole (pos 4); bpm = 0; linear = false } ∷ []

abbrev first_event : MeterEvent
first_event = record { qn = whole (pos 8); sig = signature 3 4; measure = pos 7 }

abbrev other_events : List MeterEvent
other_events =
    record { qn = whole (pos 4); sig = signature 4 4; measure = pos 0 }
    ∷ record { qn = whole (pos 8); sig = signature 6 8; measure = pos 0 }
    ∷ []

abbrev meter_events : List MeterEvent
meter_events = first_event ∷ other_events

canonical : (n : ℕ) → pos n ≤ℤ max_quarters → IsCanonical (whole (pos n))
canonical n h = whole-IsCanonical (pos n) (omega (arith, h))

tempo_events-AllCanonical : AllCanonical tempo_qn tempo_events
tempo_events-AllCanonical = (canonical 4 (omega arith), tt)

meter_events-AllCanonical : AllCanonical meter_qn meter_events
meter_events-AllCanonical =
    (canonical 8 (omega arith), (canonical 4 (omega arith), (canonical 8 (omega arith), tt)))

meter_events-whole : ¬ Any IsBroken meter_events
unfolding signature
meter_events-whole (inl h) = absurd (grind (arith, h))
meter_events-whole (inr (inl h)) = absurd (grind (arith, h))
meter_events-whole (inr (inr (inl h))) = absurd (grind (arith, h))
meter_events-whole (inr (inr (inr h))) = h

time_map-IsTimeline_example :
    (built : TimeMap ℕ) × (time_map 120 is_tempo rough_grid tempo_events meter_events ≡ some built)
    × IsTimeline tempo_qn built.tempos
    × IsTimeline meter_qn built.meters
time_map-IsTimeline_example =
    time_map-IsTimeline 120 is_tempo rough_grid tempo_events meter_events tempo_events-AllCanonical
      meter_events-AllCanonical meter_events-whole

meter_event-time_map_example :
    (built : TimeMap ℕ) × (m : MeterEvent) × (time_map 120 is_tempo rough_grid tempo_events
        meter_events
      ≡ some built)
    × (meter_event (whole (pos 9)) built.meters ≡ some m)
    × Any (λ e. e ≡ m) built.meters
    × (Any (IsSame m.qn m.sig) meter_events ⊎ (m.qn ≡ whole (pos 0)))
    × (m.qn ≼ whole (pos 9))
    × NoneBetween (whole (pos 9)) (canonical 9 (omega arith)) m.qn meter_events
unfolding gt_time cmp ◌*ℤ◌
meter_event-time_map_example =
    meter_event-time_map (whole (pos 9)) (canonical 9 (omega arith)) 120 is_tempo rough_grid
      tempo_events meter_events tempo_events-AllCanonical meter_events-AllCanonical
      meter_events-whole refl

bar_grid-IsGrid_example :
    (out : List BeatTime) × (bar_grid rough_grid meter_events (whole (pos 3)) (whole (pos 40))
      ≡ some out)
    × IsGrid (whole (pos 3)) (whole (pos 40)) out
bar_grid-IsGrid_example =
    bar_grid-IsGrid (whole (pos 3)) (whole (pos 40)) rough_grid first_event other_events
      meter_events-whole

beat_grid-AllWithin_example :
    (out : List BeatTime) × (beat_grid rough_grid meter_events
        (whole (pos 3))
        (whole (pos 40))
        (whole (pos 2))
      ≡ some out)
    × AllWithin (whole (pos 3)) (whole (pos 40)) out
beat_grid-AllWithin_example =
    beat_grid-AllWithin (whole (pos 3)) (whole (pos 40)) (canonical 40 (omega arith)) rough_grid
      first_event other_events meter_events-whole (whole (pos 2))

abbrev long_event : MeterEvent
long_event = record { qn = whole (pos 8); sig = signature 4 4; measure = pos 2 }

bar_of-bar_start_example :
    (bar_start rough_grid (long_event ∷ []) (pos 5) ≡ some (whole (pos 20)))
    × (bar_of rough_grid (long_event ∷ []) (whole (pos 20)) ≡ some (pos 5))
unfolding gt_time cmp ◌*ℤ◌ ◌+ℤ◌ ◌-ℤ◌ bar_event index_from meter_event bar_length_qn try_new
    from_i128 normalise to_i128 rem_euclid signature settle reduce gcd_i128 gcd_loop lt_wf ◌/ℤ◌ neg
bar_of-bar_start_example =
    bar_of-bar_start rough_grid (long_event ∷ []) long_event (whole (pos 4)) (whole (pos 12))
      (whole (pos 20)) (pos 5) refl refl (canonical 8 (omega arith)) (canonical 12 (omega arith))
      (canonical 20 (omega arith)) refl (3, refl) (omega arith, omega arith)
      (omega arith, omega arith) refl refl
