-- ===== src/Music/TimeMap/Sources.antt =====
-- Where the meter events of a built map of crates/music-domain/src/time.rs come from.
use mathlib.Core.Option.{some-injective}
use reapermcp.Prelude.Options.{◌>>=◌}
use reapermcp.Music.TimeMap.{
  gt_time, same_time, insert_by_key, sort_by_key, dedup_from, dedup, anchored, MeterEvent,
  TimeSignature, renumber, renumber_all, new_meters, numbered, meter_qn, bar_length_qn,
  meter_at_zero, common_time,
}
use reapermcp.Music.BeatTime.{BeatTime, whole, try_new, from_i128}
use reapermcp.Prelude.Int.{ℤ, pos, eqb_ℤ}
use reapermcp.Prelude.{
  List, [], ◌∷◌, ◌≡◌, ◌⊎◌, inl, inr, Bool-cases, sym, refl, ◌∙◌, ℕ, get_elem?, some, arith, subst,
  suc, zero, ap, ◌≢◌, ◌*◌,
}

-- Some element of the list has the property.
abbrev pub Any : {A : Type 0} → (A → Type 0) → List A → Type 0
Any P [] = ⊥
Any P (x ∷ l) = P x ⊎ Any P l

pub get_elem?-Any :
    {A : Type 0} (P : A → Type 0) (l : List A) (i : ℕ) (x : A)
    → get_elem? l i ≡ some x
    → P x
    → Any P l
get_elem?-Any P [] i x h p = absurd (grind (arith, h))
get_elem?-Any P (y ∷ l) zero x h p = inl (subst P (sym (some-injective _ _ h)) p)
get_elem?-Any P (y ∷ l) (suc i) x h p = inr (get_elem?-Any P l i x h p)

module _ {A : Type 0} (key : A → BeatTime) (P : A → Type 0) where
  insert_by_key-Any : (e : A) (l : List A) → Any P (insert_by_key key e l) → Any P (e ∷ l)
  unfolding insert_by_key
  insert_by_key-Any e [] h = h
  insert_by_key-Any e (x ∷ l) h = elim (Bool-cases (gt_time (key e) (key x))) [
    | inl later ↦ elim (rw later at h) [
      | inl here ↦ inr (inl here)
      | inr more ↦ elim (insert_by_key-Any e l more) [
        | inl new ↦ inl new
        | inr there ↦ inr (inr there)
      ]
    ]
    | inr before ↦ rw before at h
  ]

  sort_by_key-Any : (l : List A) → Any P (sort_by_key key l) → Any P l
  unfolding sort_by_key
  sort_by_key-Any [] h = h
  sort_by_key-Any (x ∷ l) h = elim (insert_by_key-Any x (sort_by_key key l) h) [
    | inl here ↦ inl here
    | inr there ↦ inr (sort_by_key-Any l there)
  ]

  dedup_from-Any : (last : A) (l : List A) → Any P (dedup_from key last l) → Any P l
  unfolding dedup_from
  dedup_from-Any last [] h = h
  dedup_from-Any last (x ∷ l) h = elim (Bool-cases (same_time (key last) (key x))) [
    | inl same ↦ inr (dedup_from-Any last l (rw same at h))
    | inr other ↦ elim (rw other at h) [
      | inl here ↦ inl here
      | inr there ↦ inr (dedup_from-Any x l there)
    ]
  ]

  dedup-Any : (l : List A) → Any P (dedup key l) → Any P l
  unfolding dedup
  dedup-Any [] h = h
  dedup-Any (x ∷ l) (inl here) = inl here
  dedup-Any (x ∷ l) (inr there) = inr (dedup_from-Any x l there)

-- The event has the position and the signature.
abbrev pub IsSame : BeatTime → TimeSignature → MeterEvent → Type 0
IsSame t s e = (e.qn ≡ t) × (e.sig ≡ s)

-- A signature on which `bar_length_qn` stops the program.
abbrev pub IsBroken : MeterEvent → Type 0
IsBroken e = e.sig.denominator ≡ 0

pub bar_length-answers :
    (grid : ℤ → ℤ → ℤ) (s : TimeSignature)
    → s.denominator ≢ 0
    → (len : BeatTime) × (bar_length_qn grid s ≡ some len)
unfolding bar_length_qn try_new
bar_length-answers grid s h = elim (Bool-cases (eqb_ℤ (pos s.denominator) (pos 0))) [
  | inl e ↦ absurd (h (ground (arith, e)))
  | inr e ↦ (from_i128 grid (pos (4 * s.numerator)) (pos s.denominator), rw e refl)
]

module _ (P : MeterEvent → Type 0) where
  anchored-Any :
      (default : MeterEvent) (first : MeterEvent → MeterEvent) (l : List MeterEvent)
      → Any P (anchored meter_qn default first l)
      → Any P l ⊎ P default ⊎ ((e : MeterEvent) × P (first e) × Any (λ x. x ≡ e) l)
  unfolding anchored
  anchored-Any default first [] (inl here) = inr (inl here)
  anchored-Any default first [] (inr there) = absurd there
  anchored-Any default first (x ∷ l) h = elim (Bool-cases (gt_time x.qn (whole (pos 0)))) [
    | inl late ↦ elim (rw late at h) [
      | inl here ↦ inr (inr (x, here, inl refl))
      | inr there ↦ inl there
    ]
    | inr fine ↦ inl (rw fine at h)
  ]

  Any-member : (e : MeterEvent) (l : List MeterEvent) → P e → Any (λ x. x ≡ e) l → Any P l
  Any-member e [] p h = absurd h
  Any-member e (x ∷ l) p (inl here) = inl (subst P (sym here) p)
  Any-member e (x ∷ l) p (inr there) = inr (Any-member e l p there)

  given_at_first : (l : List MeterEvent) → Any P (dedup meter_qn (sort_by_key meter_qn l)) → Any P l
  given_at_first l h =
      sort_by_key-Any meter_qn P l (dedup-Any meter_qn P (sort_by_key meter_qn l) h)

-- The list before the bars are numbered.
abbrev pub placed : List MeterEvent → List MeterEvent
placed l =
    anchored meter_qn (meter_at_zero common_time) (λ m. meter_at_zero m.sig)
      (dedup meter_qn (sort_by_key meter_qn l))

-- No signature is broken that was not given.
pub placed-IsBroken : (l : List MeterEvent) → Any IsBroken (placed l) → Any IsBroken l
placed-IsBroken l h =
    elim (anchored-Any IsBroken (meter_at_zero common_time) (λ m. meter_at_zero m.sig)
      (dedup meter_qn (sort_by_key meter_qn l)) h) [
        | inl there ↦ given_at_first IsBroken l there
        | inr (inl four) ↦ absurd (omega (arith, four))
        | inr (inr (e, zero_den, there)) ↦
            given_at_first IsBroken l (Any-member IsBroken e _ zero_den there)
      ]

-- What stands in the list was given, or stands at position zero.
pub placed-IsSame :
    (t : BeatTime) (s : TimeSignature) (l : List MeterEvent)
    → Any (IsSame t s) (placed l)
    → Any (IsSame t s) l ⊎ (t ≡ whole (pos 0))
placed-IsSame t s l h =
    elim (anchored-Any (IsSame t s) (meter_at_zero common_time) (λ m. meter_at_zero m.sig)
      (dedup meter_qn (sort_by_key meter_qn l)) h) [
        | inl there ↦ inl (given_at_first (IsSame t s) l there)
        | inr (inl here) ↦ inr (sym here.0)
        | inr (inr (e, here, there)) ↦ inr (sym here.0)
      ]

-- The same positions and signatures.
abbrev pub SamePlaces : List MeterEvent → List MeterEvent → Type 0
SamePlaces [] [] = Unit
SamePlaces (x ∷ l) (y ∷ m) = (x.qn ≡ y.qn) × (x.sig ≡ y.sig) × SamePlaces l m
SamePlaces _ _ = ⊥

pub SamePlaces-IsSame :
    (t : BeatTime) (s : TimeSignature) (l m : List MeterEvent)
    → SamePlaces l m
    → Any (IsSame t s) m
    → Any (IsSame t s) l
SamePlaces-IsSame t s [] [] e h = h
SamePlaces-IsSame t s [] (y ∷ m) e h = absurd e
SamePlaces-IsSame t s (x ∷ l) [] e h = absurd e
SamePlaces-IsSame t s (x ∷ l) (y ∷ m) (p, q, e) (inl (a, b)) = inl (p ∙ a, q ∙ b)
SamePlaces-IsSame t s (x ∷ l) (y ∷ m) (p, q, e) (inr there) =
    inr (SamePlaces-IsSame t s l m e there)

module _ (grid : ℤ → ℤ → ℤ) where
  renumber-answers :
      (prev : MeterEvent) (l : List MeterEvent)
      → ¬ Any IsBroken (prev ∷ l)
      → (out : List MeterEvent) × (renumber grid prev l ≡ some out) × SamePlaces l out
  unfolding renumber
  renumber-answers prev [] h = ([], refl, tt)
  renumber-answers prev (m ∷ l) h =
      let (len, e) = bar_length-answers grid prev.sig (λ zero_den. h (inl zero_den)) in
      let (out, e', same) =
        renumber-answers (numbered grid prev m len) l (λ broken. h (inr broken)) in
      (
        numbered grid prev m len ∷ out,
        ap
              (λ o. o >>= λ bar_len. renumber grid (numbered grid prev m bar_len) l >>= λ rest.
                some (numbered grid prev m bar_len ∷ rest))
              e
            ∙ ap (λ o. o >>= λ rest. some (numbered grid prev m len ∷ rest)) e',
        (refl, refl, same),
      )

  renumber_all-answers :
      (l : List MeterEvent)
      → ¬ Any IsBroken l
      → (out : List MeterEvent) × (renumber_all grid l ≡ some out) × SamePlaces l out
  unfolding renumber_all
  renumber_all-answers [] h = ([], refl, tt)
  renumber_all-answers (m ∷ l) h =
      let (out, e, same) = renumber-answers m l h in
      (m ∷ out, ap (λ o. o >>= λ rest. some (m ∷ rest)) e, (refl, refl, same))

  -- Without a broken signature the meter events are built.
  pub new_meters-answers :
      (l : List MeterEvent)
      → ¬ Any IsBroken l
      → (out : List MeterEvent) × (new_meters grid l ≡ some out) × SamePlaces (placed l) out
  unfolding new_meters
  new_meters-answers l h = renumber_all-answers (placed l) (λ broken. h (placed-IsBroken l broken))
