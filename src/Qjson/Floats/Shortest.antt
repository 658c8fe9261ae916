-- ===== src/Qjson/Floats/Shortest.antt =====
-- The search of `format_f64` in crates/qjson/src/json.rs finds the shortest text that reads back.
use reapermcp.Qjson.Json.Numbers.Shape.{IsNumber}
use reapermcp.Qjson.Floats.{
  Floats, consider, precisions, has_mark, reads_back, matches, format_f64, chosen,
}
use reapermcp.Prelude.Decimal.{Bytes}
use reapermcp.Prelude.{
  ℕ, ◌≡◌, true, List, Bool, ◌↔◌, ◌∷◌, suc, Option, length, ◌++◌, some, ◌⊎◌, [], ◌≤◌, false, arith,
  Bool-cases, ◌&&◌, ◌-◌, inl, zero, none, inr, leb, subst, refl, sym, ap, Option-cases,
  if◌then◌else◌, ◌∙◌, codes,
}

-- A text of the number grammar of JSON.
pub record IsNumberText (t : Bytes) : Type 0 where
  pub sign : Bytes
  pub whole : Bytes
  pub fraction : Bytes
  pub exponent : Bytes
  pub shape : IsNumber sign whole fraction exponent
  pub text : t ≡ sign ++ (whole ++ (fraction ++ exponent))

-- What Rust documents of the formatting of `f64`: the texts of a finite number are decimal numbers,
-- and `{:?}` has a point or an exponent and parses to the same number.
pub record IsLawful (fs : Floats) : Type 0 where
  pub same_bits_iff : (a b : fs.Float) → (fs.same_bits a b ≡ true) ↔ (a ≡ b)
  pub display_number : (v : fs.Float) → fs.is_finite v ≡ true → IsNumberText (fs.display v)
  pub debug_number : (v : fs.Float) → fs.is_finite v ≡ true → IsNumberText (fs.debug v)
  pub exponential_number :
      (v : fs.Float) (p : ℕ) → fs.is_finite v ≡ true → IsNumberText (fs.exponential p v)
  pub debug_mark : (v : fs.Float) → fs.is_finite v ≡ true → has_mark (fs.debug v) ≡ true
  pub debug_reads : (v : fs.Float) → fs.is_finite v ≡ true → fs.parse_f64 (fs.debug v) ≡ some v

abbrev pub IsAmong : Bytes → List Bytes → Type 0
IsAmong b [] = ⊥
IsAmong b (c ∷ s) = (b ≡ c) ⊎ IsAmong b s

module _ (fs : Floats) (v : fs.Float) where
  -- The texts that the search takes.
  abbrev pub is_good : Bytes → Bool
  is_good t = has_mark t && reads_back fs v t

  exponentials : ℕ → List Bytes → List Bytes
  exponentials zero seen = seen
  exponentials (suc left) seen = exponentials left (fs.exponential (17 - left) v ∷ seen)

  -- The texts that the search looks at.
  pub candidates : List Bytes
  candidates = exponentials 18 (fs.debug v ∷ fs.display v ∷ [])

  abbrev pub IsMinimal : Bytes → List Bytes → Type 0
  IsMinimal b [] = Unit
  IsMinimal b (c ∷ s) = (is_good c ≡ true → length b ≤ length c) × IsMinimal b s

  abbrev NoneGood : List Bytes → Type 0
  NoneGood [] = Unit
  NoneGood (c ∷ s) = (is_good c ≡ false) × NoneGood s

  abbrev IsBest : List Bytes → Option Bytes → Type 0
  IsBest seen none = NoneGood seen
  IsBest seen (some b) = IsAmong b seen × (is_good b ≡ true) × IsMinimal b seen

  IsMinimal-none : (b : Bytes) (seen : List Bytes) → NoneGood seen → IsMinimal b seen
  IsMinimal-none b [] h = tt
  IsMinimal-none b (c ∷ s) (hc, h) = (ground arith, IsMinimal-none b s h)

  IsMinimal-trans :
      (a b : Bytes) (seen : List Bytes) → length a ≤ length b → IsMinimal b seen → IsMinimal a seen
  IsMinimal-trans a b [] l h = tt
  IsMinimal-trans a b (c ∷ s) l (hc, h) = (λ g. omega (arith, hc g), IsMinimal-trans a b s l h)

  consider-IsBest :
      (seen : List Bytes) (best : Option Bytes) (c : Bytes)
      → IsBest seen best
      → IsBest (c ∷ seen) (consider fs v best c)
  unfolding consider
  consider-IsBest seen none c h = elim (Bool-cases (is_good c)) [
    | inl g ↦ rw g (inl refl, g, (λ _. omega arith, IsMinimal-none c seen h))
    | inr g ↦ rw g (g, h)
  ]
  consider-IsBest seen (some b) c (m, gb, h) = elim (Bool-cases (is_good c)) [
    | inl g ↦ elim (Bool-cases (leb (length b) (length c))) [
      | inl l ↦ rw g (rw l (inr m, gb, (λ _. ground arith, h)))
      | inr l ↦
          rw g (rw l (inl refl, g, (λ _. omega arith, IsMinimal-trans c b seen (ground arith) h)))
    ]
    | inr g ↦ rw g (inr m, gb, (ground arith, h))
  ]

  precisions-IsBest :
      (left : ℕ) (seen : List Bytes) (best : Option Bytes)
      → IsBest seen best
      → IsBest (exponentials left seen) (precisions fs v left best)
  unfolding precisions exponentials
  precisions-IsBest zero seen best h = h
  precisions-IsBest (suc left) seen best h =
      precisions-IsBest left _ _ (consider-IsBest seen best (fs.exponential (17 - left) v) h)

  IsAmong-exponentials :
      (b : Bytes) (left : ℕ) (seen : List Bytes)
      → IsAmong b seen
      → IsAmong b (exponentials left seen)
  unfolding exponentials
  IsAmong-exponentials b zero seen h = h
  IsAmong-exponentials b (suc left) seen h = IsAmong-exponentials b left _ (inr h)

  abbrev NumberTexts : List Bytes → Type 0
  NumberTexts [] = Unit
  NumberTexts (c ∷ s) = IsNumberText c × NumberTexts s

  NumberTexts-IsAmong : (b : Bytes) (s : List Bytes) → NumberTexts s → IsAmong b s → IsNumberText b
  NumberTexts-IsAmong b [] h m = elim m [ ]
  NumberTexts-IsAmong b (c ∷ s) (hc, h) (inl e) = subst IsNumberText (sym e) hc
  NumberTexts-IsAmong b (c ∷ s) (hc, h) (inr m) = NumberTexts-IsAmong b s h m

  good_not_NoneGood : (b : Bytes) (s : List Bytes) → is_good b ≡ true → IsAmong b s → NoneGood s → ⊥
  good_not_NoneGood b [] g m h = m
  good_not_NoneGood b (c ∷ s) g (inl e) (hc, h) = ground (arith, hc, ap is_good (sym e) ∙ g)
  good_not_NoneGood b (c ∷ s) g (inr m) (hc, h) = good_not_NoneGood b s g m h

  module _ (laws : IsLawful fs) (fin : fs.is_finite v ≡ true) where
    NumberTexts-exponentials :
        (left : ℕ) (s : List Bytes) → NumberTexts s → NumberTexts (exponentials left s)
    unfolding exponentials
    NumberTexts-exponentials zero s h = h
    NumberTexts-exponentials (suc left) s h =
        NumberTexts-exponentials left _ (laws.exponential_number v (17 - left) fin, h)

    debug-is_good : is_good (fs.debug v) ≡ true
    unfolding reads_back matches
    debug-is_good =
        rw (laws.debug_mark v fin) (rw (laws.debug_reads v fin) ((laws.same_bits_iff v v).1 refl))

    IsBest-chosen :
        (best : Option Bytes)
        → IsBest candidates best
        → IsBest candidates (some (if fs.is_finite v then chosen fs v best else codes "null"))
    unfolding chosen candidates
    IsBest-chosen none h = absurd (
        good_not_NoneGood (fs.debug v) candidates debug-is_good
          (IsAmong-exponentials (fs.debug v) 18 _ (inl refl)) h)
    IsBest-chosen (some b) h = rw fin h

    -- With the documented formatting laws, the text of a finite float is one of the candidates, has
    -- a point or an exponent, reads back as the same float, and no other candidate with these
    -- properties is shorter.
    pub format_f64-IsBest :
        IsAmong (format_f64 fs v) candidates
        × (is_good (format_f64 fs v) ≡ true)
        × IsMinimal (format_f64 fs v) candidates
    unfolding format_f64 candidates
    format_f64-IsBest = IsBest-chosen _ (
        precisions-IsBest 18 (fs.debug v ∷ fs.display v ∷ []) _ (
          consider-IsBest (fs.display v ∷ []) _ (fs.debug v)
            (consider-IsBest [] none (fs.display v) tt)))

    pub format_f64-IsNumberText : IsNumberText (format_f64 fs v)
    unfolding candidates
    format_f64-IsNumberText =
        NumberTexts-IsAmong (format_f64 fs v) candidates
          (NumberTexts-exponentials 18 _ (laws.debug_number v fin, (laws.display_number v fin, tt)))
          format_f64-IsBest.0

    reads_back-parse_f64 : (t : Bytes) → reads_back fs v t ≡ true → fs.parse_f64 t ≡ some v
    unfolding reads_back matches
    reads_back-parse_f64 t h = elim (Option-cases (fs.parse_f64 t)) [
      | inl e ↦ absurd (ground (arith, subst (λ o. matches fs v o ≡ true) e h))
      | inr (w, e) ↦
          e ∙ ap some ((laws.same_bits_iff w v).0 (subst (λ o. matches fs v o ≡ true) e h))
    ]

    pub parse_f64-format_f64 : fs.parse_f64 (format_f64 fs v) ≡ some v
    parse_f64-format_f64 =
        reads_back-parse_f64 (format_f64 fs v) (ground (arith, format_f64-IsBest.1))

    pub has_mark-format_f64 : has_mark (format_f64 fs v) ≡ true
    has_mark-format_f64 = ground (arith, format_f64-IsBest.1)
