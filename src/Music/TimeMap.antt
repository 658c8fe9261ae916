-- ===== src/Music/TimeMap.antt =====
-- `TimeSignature`, `MeterEvent`, `TempoEvent` and `TimeMap` of crates/music-domain/src/time.rs. The
-- stable sort of the standard library is an insertion sort, which gives the same list.
pub mod Order
pub mod Ascending
pub mod Ordered
pub mod Built
pub mod Sources
pub mod Lookup
pub mod Grids
pub mod RoundTrip
pub mod Tests
use reapermcp.Music.BeatTime.{
  BeatTime, whole, cmp, sub, add, mul, div_floor, rem_time, from_quarters, try_new,
}
use reapermcp.Prelude.Int.{ℤ, pos, eqb_ℤ, ◌+ℤ◌, ◌-ℤ◌, rem_euclid, ltb_ℤ}
use reapermcp.Prelude.Machine.{to_i64}
use reapermcp.Prelude.Options.{◌>>=◌}
use reapermcp.Prelude.{
  map, ℕ, ◌==◌, ◌%◌, ◌&&◌, ◌*◌, ◌^◌, suc, zero, Bool, List, [], ◌∷◌, Option, some, none, ltb, leb,
  not, if◌then◌else◌, Ordering, true, false, get_elem?,
}

-- `a.qn == b.qn` compares the parts.
unfoldable pub same_time : BeatTime → BeatTime → Bool
same_time x y = eqb_ℤ x.num y.num && eqb_ℤ x.den y.den

unfoldable pub gt_time : BeatTime → BeatTime → Bool
gt_time x y = elim (cmp x y) [ Ordering.gt ↦ true | _ ↦ false ]

module _ {A : Type 0} (key : A → BeatTime) where
  unfoldable pub insert_by_key : A → List A → List A
  insert_by_key e [] = e ∷ []
  insert_by_key e (x ∷ l) =
      let rest = insert_by_key e l in if gt_time (key e) (key x) then x ∷ rest else e ∷ x ∷ l

  unfoldable pub sort_by_key : List A → List A
  sort_by_key [] = []
  sort_by_key (x ∷ l) = insert_by_key x (sort_by_key l)

  -- `dedup_by`, behind the last event that is kept.
  unfoldable pub dedup_from : A → List A → List A
  dedup_from last [] = []
  dedup_from last (x ∷ l) =
      let same = dedup_from last l in
      let other = dedup_from x l in if same_time (key last) (key x) then same else x ∷ other

  unfoldable pub dedup : List A → List A
  dedup [] = []
  dedup (x ∷ l) = x ∷ dedup_from x l

  -- The event that is added in front when the first one is behind position zero, and the one of a
  -- map built from nothing.
  unfoldable pub anchored : A → (A → A) → List A → List A
  anchored default first [] = default ∷ []
  anchored default first (x ∷ l) =
      if gt_time (key x) (whole (pos 0)) then first x ∷ x ∷ l else x ∷ l

-- The index of the last event in front of the first one at which the loop stops, from the event
-- number `i` on.
unfoldable pub index_from : {A : Type 0} → (A → Bool) → ℕ → ℕ → List A → ℕ
index_from stop i idx [] = idx
index_from stop i idx (x ∷ l) =
    let rest = index_from stop (suc i) i l in if stop x then idx else rest

pub record TimeSignature : Type 0 where
  pub numerator : ℕ
  pub denominator : ℕ

abbrev pub common_time : TimeSignature
common_time = record { numerator = 4; denominator = 4 }

-- `TimeSignature::new`
pub signature : ℕ → ℕ → TimeSignature
signature n d = record {
  numerator = if n == 0 then 1 else n;
  denominator = if d == 0 then 4 else d;
}

pub is_compound : TimeSignature → Bool
is_compound s = (s.numerator % 3 == 0) && (ltb 3 s.numerator && leb 8 s.denominator)

pub record MeterEvent : Type 0 where
  pub qn : BeatTime
  pub sig : TimeSignature
  pub measure : ℤ

pub record TempoEvent (F : Type 0) : Type 0 where
  pub qn : BeatTime
  pub bpm : F
  pub linear : Bool

pub record TimeMap (F : Type 0) : Type 0 where
  pub tempos : List (TempoEvent F)
  pub meters : List MeterEvent

abbrev pub meter_qn : MeterEvent → BeatTime
meter_qn m = m.qn

abbrev pub tempo_qn : {F : Type 0} → TempoEvent F → BeatTime
tempo_qn t = t.qn

-- `self.meters[self.meter_index(qn)]`; an index out of range stops the program.
pub meter_event : BeatTime → List MeterEvent → Option MeterEvent
meter_event qn l = get_elem? l (index_from (λ m. gt_time m.qn qn) 0 0 l)

-- The event that `bar_start` chooses.
pub bar_event : ℤ → List MeterEvent → Option MeterEvent
bar_event bar l = get_elem? l (index_from (λ m. ltb_ℤ bar m.measure) 0 0 l)

pub meter_at : BeatTime → List MeterEvent → Option TimeSignature
meter_at qn l = do m ← meter_event qn l; some m.sig

abbrev pub meter_at_zero : TimeSignature → MeterEvent
meter_at_zero s = record { qn = whole (pos 0); sig = s; measure = pos 0 }

-- The arithmetic on f64 behind the positions (see Music/BeatTime.antt).
module _ (grid : ℤ → ℤ → ℤ) where
  -- `BeatTime::new` stops the program if the denominator is zero.
  pub bar_length_qn : TimeSignature → Option BeatTime
  bar_length_qn s = try_new grid (pos (4 * s.numerator)) (pos s.denominator)

  pub beat_unit_qn : TimeSignature → Option BeatTime
  beat_unit_qn s = try_new grid (pos 4) (pos s.denominator)

  pub pulse_qn : TimeSignature → Option BeatTime
  pulse_qn s = do
    unit ← beat_unit_qn s
    some (if is_compound s then mul grid unit (pos 3) else unit)

  -- The bars in a span, the last one perhaps cut short.
  pub bars_in : BeatTime → BeatTime → ℤ
  bars_in span bar_len = to_i64 (
      div_floor span bar_len
      +ℤ (if eqb_ℤ (rem_time grid span bar_len).num (pos 0) then pos 0 else pos 1))

  abbrev pub numbered : MeterEvent → MeterEvent → BeatTime → MeterEvent
  numbered prev m bar_len = record m {
    measure = to_i64 (prev.measure +ℤ bars_in (sub grid m.qn prev.qn) bar_len);
  }

  unfoldable pub renumber : MeterEvent → List MeterEvent → Option (List MeterEvent)
  renumber prev [] = some []
  renumber prev (m ∷ l) = bar_length_qn prev.sig >>= λ bar_len.
      renumber (numbered prev m bar_len) l >>= λ rest. some (numbered prev m bar_len ∷ rest)

  unfoldable pub renumber_all : List MeterEvent → Option (List MeterEvent)
  renumber_all [] = some []
  renumber_all (m ∷ l) = renumber m l >>= λ rest. some (m ∷ rest)

  unfoldable pub new_meters : List MeterEvent → Option (List MeterEvent)
  new_meters l = renumber_all (
      anchored meter_qn (meter_at_zero common_time) (λ m. meter_at_zero m.sig)
        (dedup meter_qn (sort_by_key meter_qn l)))

  pub bar_of : List MeterEvent → BeatTime → Option ℤ
  bar_of l qn = do
    m ← meter_event qn l
    bar_len ← bar_length_qn m.sig
    some (to_i64 (m.measure +ℤ div_floor (sub grid qn m.qn) bar_len))

  pub bar_start : List MeterEvent → ℤ → Option BeatTime
  bar_start l bar = do
    m ← bar_event bar l
    bar_len ← bar_length_qn m.sig
    some (add grid m.qn (mul grid bar_len (to_i64 (bar -ℤ m.measure))))

  pub position_in_bar : List MeterEvent → BeatTime → Option BeatTime
  position_in_bar l qn = do bar ← bar_of l qn; start ← bar_start l bar; some (sub grid qn start)

-- The arithmetic on f64 of the tempos: 120.0, and the test for a finite positive tempo.
module _ {F : Type 0} (usual : F) (is_usable : F → Bool) where
  abbrev pub repaired : TempoEvent F → TempoEvent F
  repaired t = record t { bpm = if is_usable t.bpm then t.bpm else usual }

  abbrev pub tempo_at_zero : F → TempoEvent F
  tempo_at_zero bpm = record { qn = whole (pos 0); bpm = bpm; linear = false }

  unfoldable pub new_tempos : List (TempoEvent F) → List (TempoEvent F)
  new_tempos l = map repaired (
      anchored tempo_qn (tempo_at_zero usual) (λ t. tempo_at_zero t.bpm)
        (dedup tempo_qn (sort_by_key tempo_qn l)))

  -- `TimeMap::new`
  unfoldable pub time_map : (ℤ → ℤ → ℤ) → List (TempoEvent F) → List MeterEvent → Option (TimeMap F)
  time_map grid tempos meters = new_meters grid meters >>= λ numbered.
      some (record { tempos = new_tempos tempos; meters = numbered })
