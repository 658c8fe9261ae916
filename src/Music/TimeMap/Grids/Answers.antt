-- ===== src/Music/TimeMap/Grids/Answers.antt =====
-- `bar_grid` of crates/music-domain/src/time.rs answers, with ascending positions in its range.
use reapermcp.Music.TimeMap.Grids.{kept, bars_from, bar_grid, max_grid_steps, visit, advance}
use reapermcp.Music.TimeMap.Ascending.{AllCanonical, AllAfter, AllFrom, Ascending}
use reapermcp.Music.TimeMap.Order.{◌≼◌, ◌≺◌, lt-le_trans, lt-le, le_self}
use reapermcp.Music.BeatTime.Sums.{from_i128-IsCanonical}
use reapermcp.Music.BeatTime.Canonical.{IsCanonical}
use reapermcp.Prelude.Int.{ℤ, ltb_ℤ, ◌+ℤ◌, ◌-ℤ◌, ◌*ℤ◌, pos}
use reapermcp.Prelude.{
  Bool, List, ℕ, get_elem?, ◌∷◌, ◌<◌, ◌≡◌, ◌+◌, length, some, arith, suc, ap, [], zero, refl,
  Bool-cases, inl, inr, ◌∙◌, Option,
}
use reapermcp.Music.TimeMap.Sources.{Any, IsBroken, get_elem?-Any, bar_length-answers}
use reapermcp.Music.TimeMap.{
  gt_time, index_from, bar_of, bar_start, meter_event, bar_event, MeterEvent, to_i64, bar_length_qn,
}
use reapermcp.Music.BeatTime.{BeatTime, add, mul, div_floor, sub}
use reapermcp.Prelude.Options.{◌>>=◌}

module _ {A : Type 0} (stop : A → Bool) where
  index_from-bounds :
      (i idx n : ℕ) (l : List A) → idx < n → i + length l ≡ n → index_from stop i idx l < n
  unfolding index_from
  index_from-bounds i idx n [] h e = h
  index_from-bounds i idx n (x ∷ l) h e =
      ground (arith, h, e, index_from-bounds (suc i) i n l (omega (arith, e)) (omega (arith, e)))

get_elem?-below :
    {A : Type 0} (l : List A) (i : ℕ) → i < length l → (x : A) × (get_elem? l i ≡ some x)
get_elem?-below [] i h = absurd (omega (arith, h))
get_elem?-below (x ∷ l) zero h = (x, refl)
get_elem?-below (x ∷ l) (suc i) h = get_elem?-below l i (omega (arith, h))

-- A loop over a list that is not empty ends at one of its elements.
looked_up :
    {A : Type 0} (stop : A → Bool) (x : A) (l : List A)
    → (y : A) × (get_elem? (x ∷ l) (index_from stop 0 0 (x ∷ l)) ≡ some y)
looked_up stop x l =
    get_elem?-below (x ∷ l) (index_from stop 0 0 (x ∷ l))
      (index_from-bounds stop 0 0 (suc (length l)) (x ∷ l) (omega arith) (omega arith))

pub add-IsCanonical : (grid : ℤ → ℤ → ℤ) (x y : BeatTime) → IsCanonical (add grid x y)
unfolding add
add-IsCanonical grid x y =
    from_i128-IsCanonical grid (x.num *ℤ y.den +ℤ y.num *ℤ x.den) (x.den *ℤ y.den)

-- The bar length of an event of a list without a broken signature.
length_of :
    (grid : ℤ → ℤ → ℤ) (l : List MeterEvent) (i : ℕ) (e : MeterEvent)
    → ¬ Any IsBroken l
    → get_elem? l i ≡ some e
    → (len : BeatTime) × (bar_length_qn grid e.sig ≡ some len)
length_of grid l i e fine found =
    bar_length-answers grid e.sig (λ zero_den. fine (get_elem?-Any IsBroken l i e found zero_den))

module _ (grid : ℤ → ℤ → ℤ) (m : MeterEvent) (l : List MeterEvent)
    (fine : ¬ Any IsBroken (m ∷ l)) where
  pub bar_start-answers :
      (bar : ℤ) → (p : BeatTime) × (bar_start grid (m ∷ l) bar ≡ some p) × IsCanonical p
  unfolding bar_start bar_event
  bar_start-answers bar =
      let (e, found) = looked_up (λ m. ltb_ℤ bar m.measure) m l in
      let (len, known) = length_of grid (m ∷ l) _ e fine found in
      (
        value e len,
        ap (λ o. o >>= λ e. bar_length_qn grid e.sig >>= λ bar_len. some (value e bar_len)) found
            ∙ ap (λ o. o >>= λ bar_len. some (value e bar_len)) known,
        add-IsCanonical grid _ _,
      )
    where
      value : MeterEvent → BeatTime → BeatTime
      value e bar_len = add grid e.qn (mul grid bar_len (to_i64 (bar -ℤ e.measure)))

  pub bar_of-answers : (qn : BeatTime) → (bar : ℤ) × (bar_of grid (m ∷ l) qn ≡ some bar)
  unfolding bar_of meter_event
  bar_of-answers qn =
      let (e, found) = looked_up (λ m. gt_time m.qn qn) m l in
      let (len, known) = length_of grid (m ∷ l) _ e fine found in
      (
        value e len,
        ap (λ o. o >>= λ e. bar_length_qn grid e.sig >>= λ bar_len. some (value e bar_len)) found
            ∙ ap (λ o. o >>= λ bar_len. some (value e bar_len)) known,
      )
    where
      value : MeterEvent → BeatTime → ℤ
      value e bar_len = to_i64 (e.measure +ℤ div_floor (sub grid qn e.qn) bar_len)

module _ (start end : BeatTime) where
  abbrev pub AllWithin : List BeatTime → Type 0
  AllWithin [] = Unit
  AllWithin (p ∷ l) = (start ≼ p) × (p ≺ end) × AllWithin l

  pub record IsGrid (out : List BeatTime) : Type 0 where
    pub ascending : Ascending (λ t. t) out
    pub within : AllWithin out

  record IsRun (p : BeatTime) (out : List BeatTime) : Type 0 where
    run : IsGrid out
    canonical : AllCanonical (λ t. t) out
    from : AllFrom (λ t. t) p out

  none_left : (p : BeatTime) → IsRun p []
  none_left p = record { run = record { ascending = tt; within = tt }; canonical = tt; from = tt }

  AllFrom-AllAfter :
      (s t : BeatTime) (l : List BeatTime)
      → IsCanonical s
      → IsCanonical t
      → AllCanonical (λ t. t) l
      → s ≺ t
      → AllFrom (λ t. t) t l
      → AllAfter (λ t. t) s l
  AllFrom-AllAfter s t [] cs ct c h k = tt
  AllFrom-AllAfter s t (x ∷ l) cs ct (cx, c) h (k, ks) =
      (lt-le_trans s t cs ct x cx h k, AllFrom-AllAfter s t l cs ct c h ks)

  AllAfter-AllFrom :
      (t : BeatTime) (l : List BeatTime) → AllAfter (λ t. t) t l → AllFrom (λ t. t) t l
  AllAfter-AllFrom t [] h = tt
  AllAfter-AllFrom t (x ∷ l) (h, hs) = (lt-le t x h, AllAfter-AllFrom t l hs)

  kept-IsRun :
      (p next : BeatTime) (rest : List BeatTime)
      → IsCanonical p
      → p ≺ end
      → AllAfter (λ t. t) p rest
      → IsRun next rest
      → IsRun p (kept start p rest)
  unfolding kept
  kept-IsRun p next rest cp h after r = elim (Bool-cases (gt_time start p)) [
    | inl early ↦
        rw early
          (record { run = r.run; canonical = r.canonical; from = AllAfter-AllFrom p rest after })
    | inr fine ↦ rw fine (record {
      run = record { ascending = (after, r.run.ascending); within = (fine, h, r.run.within) };
      canonical = (cp, r.canonical);
      from = (le_self p, AllAfter-AllFrom p rest after);
    })
  ]

  module _ (grid : ℤ → ℤ → ℤ) (m : MeterEvent) (l : List MeterEvent)
      (whole_bars : ¬ Any IsBroken (m ∷ l)) where
    -- A round gives a run if the next one does.
    visit-IsRun :
        (loop : ℤ → Option (List BeatTime)) (bar : ℤ) (p : BeatTime)
        → IsCanonical p
        → ((b : ℤ) (next : BeatTime)
            → bar_start grid (m ∷ l) b ≡ some next
            → IsCanonical next
            → (out : List BeatTime) × (loop b ≡ some out) × IsRun next out)
        → (out : List BeatTime) × (visit grid (m ∷ l) start end loop bar p ≡ some out) × IsRun p out
    unfolding visit advance
    visit-IsRun loop bar p cp step = elim (Bool-cases (gt_time end p)) [
      | inr past ↦ ([], rw (visit, past) refl, none_left p)
      | inl fine ↦
          let (next, e, cn) = bar_start-answers grid m l whole_bars (to_i64 (bar +ℤ pos 1)) in
          elim (Bool-cases (gt_time next p)) [
            | inr stuck ↦ (
              kept start p [],
              rw (visit, fine, e, advance, stuck) refl,
              kept-IsRun p next [] cp fine tt (none_left next),
            )
            | inl more ↦
                let (rest, e', r) = step (to_i64 (bar +ℤ pos 1)) next e cn in
                (
                  kept start p rest,
                  rw (visit, fine, e, advance, more, e') refl,
                  kept-IsRun p next rest cp fine
                      (AllFrom-AllAfter p next rest cp cn r.canonical more r.from) r,
                )
          ]
    ]

    bars_from-IsRun :
        (n : ℕ) (bar : ℤ) (p : BeatTime)
        → bar_start grid (m ∷ l) bar ≡ some p
        → IsCanonical p
        → (out : List BeatTime) × (bars_from grid (m ∷ l) start end n bar ≡ some out) × IsRun p out
    unfolding bars_from
    bars_from-IsRun zero bar p e cp = ([], refl, none_left p)
    bars_from-IsRun (suc n) bar p e cp =
        let loop = bars_from grid (m ∷ l) start end n in
        let (out, e', r) = visit-IsRun loop bar p cp (bars_from-IsRun n) in
        (out, ap (λ o. o >>= visit grid (m ∷ l) start end loop bar) e ∙ e', r)

    -- `bar_grid` answers for every map with a meter event, no meter event of which has the
    -- denominator zero, and every range, and gives strictly ascending positions from `start` on and before `end`.
    pub bar_grid-IsGrid :
        (out : List BeatTime) × (bar_grid grid (m ∷ l) start end ≡ some out) × IsGrid out
    unfolding bar_grid
    bar_grid-IsGrid = elim (Bool-cases (gt_time end start)) [
      | inr empty ↦ ([], rw (bar_grid, empty) refl, record { ascending = tt; within = tt })
      | inl fine ↦
          let (bar, e) = bar_of-answers grid m l whole_bars start in
          let (p, e', cp) = bar_start-answers grid m l whole_bars bar in
          let (out, e'', r) = bars_from-IsRun max_grid_steps bar p e' cp in
          (out, rw (bar_grid, fine) (rw e e''), r.run)
    ]
