-- ===== src/Music/TimeMap/Lookup.antt =====
-- The event that `meter_index` and `meter_at` of crates/music-domain/src/time.rs find.
use reapermcp.Music.TimeMap.Sources.{Any, IsSame, get_elem?-Any, IsBroken}
use reapermcp.Music.TimeMap.Built.{time_map-IsTimeline, time_map-Numbered, time_map-Numbered}
use reapermcp.Music.TimeMap.Ordered.{At, IsTimeline, zero-IsCanonical}
use reapermcp.Prelude.Int.{ℤ, pos}
use reapermcp.Music.BeatTime.Canonical.{IsCanonical}
use reapermcp.Prelude.{
  Bool, List, ◌∷◌, ◌≡◌, ℕ, true, get_elem?, some, if◌then◌else◌, [], ◌+◌, ap, refl, Bool-cases,
  arith, inl, ◌∙◌, sym, inr, suc, subst, ◌⊎◌,
}
use reapermcp.Music.TimeMap.Ascending.{AllCanonical, AllAfter, Ascending}
use reapermcp.Music.TimeMap.Order.{lt_trans, ◌≺◌, ◌≼◌, le_trans, le_self, lt-le}
use reapermcp.Music.TimeMap.{
  gt_time, index_from, meter_event, meter_qn, MeterEvent, TempoEvent, tempo_qn, time_map, TimeMap,
}
use reapermcp.Music.BeatTime.{BeatTime, whole}

module _ {A : Type 0} (stop : A → Bool) where
  abbrev AllStop : List A → Type 0
  AllStop [] = Unit
  AllStop (x ∷ l) = (stop x ≡ true) × AllStop l

  -- Behind an event at which the loop stops it would stop at every event.
  abbrev Falls : List A → Type 0
  Falls [] = Unit
  Falls (x ∷ l) = (stop x ≡ true → AllStop l) × Falls l

  -- The last event of the list that does not stop the loop, if any, and else `d`: every event is
  -- looked at.
  abbrev pub last_passed : A → List A → A
  last_passed d [] = d
  last_passed d (x ∷ l) = last_passed (if stop x then d else x) l

  last_passed-AllStop : (d : A) (l : List A) → AllStop l → last_passed d l ≡ d
  last_passed-AllStop d [] h = refl
  last_passed-AllStop d (x ∷ l) (h, hs) = rw h (last_passed-AllStop d l hs)

  module _ (whole : List A) where
    index_from-last_passed :
        (i idx : ℕ) (d : A) (l : List A)
        → ((k : ℕ) → get_elem? whole (i + k) ≡ get_elem? l k)
        → get_elem? whole idx ≡ some d
        → Falls l
        → get_elem? whole (index_from stop i idx l) ≡ some (last_passed d l)
    unfolding index_from
    index_from-last_passed i idx d [] at found h = found
    index_from-last_passed i idx d (x ∷ l) at found (h, hs) = elim (Bool-cases (stop x)) [
      | inl done ↦ rw done (found ∙ ap some (sym (last_passed-AllStop d l (h done))))
      | inr more ↦ rw more (
          index_from-last_passed (suc i) i x l
            (λ k. ap (get_elem? whole) (omega arith) ∙ at (suc k))
            (ap (get_elem? whole) (omega arith) ∙ at 0) hs)
    ]

module _ (qn : BeatTime) (cq : IsCanonical qn) where
  later-AllStop :
      (t : BeatTime) (l : List MeterEvent)
      → IsCanonical t
      → AllCanonical meter_qn l
      → qn ≺ t
      → AllAfter meter_qn t l
      → AllStop (λ m. gt_time m.qn qn) l
  later-AllStop t [] ct c h k = tt
  later-AllStop t (m ∷ l) ct (cm, c) h (k, ks) =
      (lt_trans qn t cq ct m.qn cm h k, later-AllStop t l ct c h ks)

  Ascending-Falls :
      (l : List MeterEvent)
      → AllCanonical meter_qn l
      → Ascending meter_qn l
      → Falls (λ m. gt_time m.qn qn) l
  Ascending-Falls [] c h = tt
  Ascending-Falls (m ∷ l) (cm, c) (h, hs) =
      (λ past. later-AllStop m.qn l cm c past h, Ascending-Falls l c hs)

  -- In a strictly ascending list of meter events the event that the lookup finds, with its early
  -- exit, is there, and is the last one at or before the position of all the events of the list,
  -- or the first event if the position precedes all.
  pub meter_event-last_passed :
      (m : MeterEvent) (l : List MeterEvent)
      → AllCanonical meter_qn (m ∷ l)
      → Ascending meter_qn (m ∷ l)
      → meter_event qn (m ∷ l) ≡ some (last_passed (λ e. gt_time e.qn qn) m (m ∷ l))
  unfolding meter_event
  meter_event-last_passed m l c h =
      index_from-last_passed (λ e. gt_time e.qn qn) (m ∷ l) 0 0 m (m ∷ l)
        (λ k. ap (get_elem? (m ∷ l)) (omega arith)) refl (Ascending-Falls (m ∷ l) c h)

  abbrev pub UpTo : BeatTime → List MeterEvent → Type 0
  UpTo t [] = Unit
  UpTo t (e ∷ l) = (e.qn ≼ qn → e.qn ≼ t) × UpTo t l

  -- What the last event at or before the position is, behind an event `d` of this kind.
  record IsLast (d : MeterEvent) (l : List MeterEvent) (m : MeterEvent) : Type 0 where
    canonical : IsCanonical m.qn
    from : d.qn ≼ m.qn
    before : m.qn ≼ qn
    all : UpTo m.qn l

  last_passed-IsLast :
      (d : MeterEvent) (l : List MeterEvent)
      → IsCanonical d.qn
      → AllCanonical meter_qn l
      → AllAfter meter_qn d.qn l
      → Ascending meter_qn l
      → d.qn ≼ qn
      → IsLast d l (last_passed (λ e. gt_time e.qn qn) d l)
  last_passed-IsLast d [] cd c a h k = record {
    canonical = cd;
    from = le_self d.qn;
    before = k;
    all = tt;
  }
  last_passed-IsLast d (e ∷ l) cd (ce, c) (a, as') (h, hs) k = elim (Bool-cases (gt_time e.qn qn)) [
    | inl past ↦
        let r = last_passed-IsLast d l cd c as' hs k in
        subst (IsLast d (e ∷ l)) (sym (step past)) (record {
          canonical = r.canonical;
          from = r.from;
          before = r.before;
          all = (λ here. absurd (grind (arith, here, past)), r.all);
        })
    | inr fine ↦
        let r = last_passed-IsLast e l ce c h hs fine in
        subst (IsLast d (e ∷ l)) (sym (step fine)) (record {
          canonical = r.canonical;
          from = le_trans d.qn e.qn cd ce _ r.canonical (lt-le d.qn e.qn a) r.from;
          before = r.before;
          all = (λ here. r.from, r.all);
        })
  ]
    where
      step :
          {b : Bool}
          → gt_time e.qn qn ≡ b
          → last_passed (λ e. gt_time e.qn qn) d (e ∷ l)
            ≡ last_passed (λ e. gt_time e.qn qn) (if b then d else e) l
      step h = ap (λ b. last_passed (λ e. gt_time e.qn qn) (if b then d else e) l) h

  At-UpTo : (t m : BeatTime) (l : List MeterEvent) → UpTo m l → At meter_qn t l → t ≼ qn → t ≼ m
  At-UpTo t m [] u h k = absurd h
  At-UpTo t m (e ∷ l) (u, us) (inl here) k =
      subst (λ s. s ≼ m) here (u (subst (λ s. s ≼ qn) (sym here) k))
  At-UpTo t m (e ∷ l) (u, us) (inr there) k = At-UpTo t m l us there k

  -- In a timeline the lookup of a position that is not before the first event finds one at or
  -- before the position, and none of the others at or before it is later.
  found :
      (l : List MeterEvent)
      → IsTimeline meter_qn l
      → whole (pos 0) ≼ qn
      → (m : MeterEvent) × (meter_event qn l ≡ some m)
        × (m.qn ≼ qn)
        × ((t : BeatTime) → At meter_qn t l → t ≼ qn → t ≼ m.qn)
  found [] h k = absurd h.starts
  found (e ∷ l) h k =
      let begun = le_trans e.qn (whole (pos 0)) h.canonical.0 zero-IsCanonical qn cq h.starts k in
      let r =
        last_passed-IsLast e l h.canonical.0 h.canonical.1 h.ascending.0 h.ascending.1 begun in
      (
        last_passed (λ m. gt_time m.qn qn) e l,
        meter_event-last_passed e l h.canonical h.ascending
            ∙ ap (λ b. some (last_passed (λ m. gt_time m.qn qn) (if b then e else e) l)) begun,
        r.before,
        λ t here. At-UpTo t _ (e ∷ l) ((λ before. r.from), r.all) here,
      )

  -- Every event is behind the position or not behind `t`.
  abbrev pub NoneBetween : BeatTime → List MeterEvent → Type 0
  NoneBetween t [] = Unit
  NoneBetween t (e ∷ l) = ((qn ≺ e.qn) ⊎ (e.qn ≼ t)) × NoneBetween t l

  At-NoneBetween :
      (t : BeatTime) (l : List MeterEvent)
      → ((s : BeatTime) → At meter_qn s l → s ≼ qn → s ≼ t)
      → NoneBetween t l
  At-NoneBetween t [] h = tt
  At-NoneBetween t (e ∷ l) h = (
    elim (Bool-cases (gt_time e.qn qn)) [
      | inl past ↦ inl past
      | inr fine ↦ inr (h e.qn (inl refl) fine)
    ],
    At-NoneBetween t l (λ s there. h s (inr there)),
  )

  module _ {F : Type 0} (usual : F) (is_usable : F → Bool) where
    -- From any tempo and meter events at canonical positions, no meter event of which has the
    -- denominator zero, a map is built in which the lookup of a canonical position from zero on
    -- finds a meter event of the map at or before the position. An event with its position and
    -- signature was given, or it stands at position zero; and no meter event that was given stands
    -- behind it and not behind the position.
    pub meter_event-time_map :
        (grid : ℤ → ℤ → ℤ) (tempos : List (TempoEvent F)) (meters : List MeterEvent)
        → AllCanonical tempo_qn tempos
        → AllCanonical meter_qn meters
        → ¬ Any IsBroken meters
        → whole (pos 0) ≼ qn
        → (built : TimeMap F) × (m : MeterEvent) × (time_map usual is_usable grid tempos meters
            ≡ some built)
          × (meter_event qn built.meters ≡ some m)
          × Any (λ e. e ≡ m) built.meters
          × (Any (IsSame m.qn m.sig) meters ⊎ (m.qn ≡ whole (pos 0)))
          × (m.qn ≼ qn)
          × NoneBetween m.qn meters
    unfolding meter_event
    meter_event-time_map grid tempos meters c c' fine k =
        let (built, e, tempo_line, line) =
          time_map-IsTimeline usual is_usable grid tempos meters c c' fine in
        let (e', covers, places) =
          time_map-Numbered usual is_usable grid tempos meters c c' fine built e in
        let (m, at, before, last) = found built.meters line k in
        (
          built,
          m,
          e,
          at,
          get_elem?-Any (λ x. x ≡ m) built.meters _ m at refl,
          places m.qn m.sig (get_elem?-Any (IsSame m.qn m.sig) built.meters _ m at (refl, refl)),
          before,
          At-NoneBetween m.qn meters (λ t here. last t (covers.1 t here)),
        )
